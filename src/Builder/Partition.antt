-- ===== src/Builder/Partition.antt =====
-- The rows of the graph that `GraphBuilder::build` (src/builder.cpp) makes: each offset cuts the sorted
-- arcs where the arcs of the next node begin.
use route_engine_cpp.Shared.{
  ℕ, zero, suc, ◌+◌, ◌≤◌, ◌<◌, ◌≡◌, refl, sym, ap, ◌∙◌, inl, inr, List, [], ◌∷◌, map, arith, length,
  take, drop, All, All-map, if◌then◌else◌, ◌==◌, ltb, Bool-cases, ==_iff, get_or,
}
use native.Mathlib.Nat.{le_trans}
use route_engine_cpp.Double.{Double}
use route_engine_cpp.Types.{NodeId}
use route_engine_cpp.Graph.{row, sub_u32, make_graph}
use route_engine_cpp.Builder.{Builder, StagedArc, sort, to_arc}
use route_engine_cpp.Builder.Sort.{IsBySource, sort-IsBySource}
use route_engine_cpp.Builder.Offsets.{leaving, before, before-suc, before-le}
use route_engine_cpp.Builder.Invariant.{IsBuilding}
use route_engine_cpp.Builder.Build.{built, offsets_lem, sorted-small, offsets_of}

module _ {W : Type 0} where
  -- The arcs that leave `v`, in their order.
  abbrev pub outgoing : NodeId → List (StagedArc W) → List (StagedArc W)
  outgoing v [] = []
  outgoing v (a ∷ arcs) = if a.source == v then a ∷ outgoing v arcs else outgoing v arcs

  before-none :
      (v : NodeId) (arcs : List (StagedArc W)) → All (λ a. v ≤ a.source) arcs → before v arcs ≡ 0
  before-none v [] h = refl
  before-none v (a ∷ arcs) h = ground (arith, h.0, before-none v arcs h.1)

  outgoing-none :
      (v : NodeId) (arcs : List (StagedArc W))
      → All (λ a. suc v ≤ a.source) arcs
      → (leaving v arcs ≡ 0) × (outgoing v arcs ≡ [])
  outgoing-none v [] h = (refl, refl)
  outgoing-none v (a ∷ arcs) h = ground (arith, h.0, outgoing-none v arcs h.1)

  take-drop-eq-outgoing :
      (v : NodeId) (arcs : List (StagedArc W))
      → IsBySource arcs
      → take (leaving v arcs) (drop (before v arcs) arcs) ≡ outgoing v arcs
  take-drop-eq-outgoing v [] h = refl
  take-drop-eq-outgoing v (a ∷ arcs) h = elim (Bool-cases (ltb a.source v)) [
    | inl less ↦
        let skip : before v (a ∷ arcs) ≡ suc (before v arcs) = ground arith in
        let none : leaving v (a ∷ arcs) ≡ leaving v arcs = ground arith in
        let out : outgoing v (a ∷ arcs) ≡ outgoing v arcs = ground arith in
        rw (skip, none, out) (take-drop-eq-outgoing v arcs h.1)
    | inr more ↦ elim (Bool-cases (a.source == v)) [
      | inl same ↦
          let here : a.source ≡ v = (==_iff a.source v).0 same in
          let rest : before v arcs ≡ 0 =
            before-none v arcs (All-map (λ c (le : a.source ≤ c.source). rw here at le) arcs h.0) in
          let first : before v (a ∷ arcs) ≡ 0 = ground arith in
          let one : leaving v (a ∷ arcs) ≡ suc (leaving v arcs) = ground arith in
          let out : outgoing v (a ∷ arcs) ≡ a ∷ outgoing v arcs = ground arith in
          rw (first, one, out)
            (ap (◌∷◌ a) (
              ap (λ k. take (leaving v arcs) (drop k arcs)) (sym rest)
              ∙ take-drop-eq-outgoing v arcs h.1))
      | inr other ↦
          let later : suc v ≤ a.source = ground arith in
          let (none, nothing) =
            outgoing-none v (a ∷ arcs)
              (later, All-map (λ c (le : a.source ≤ c.source). le_trans later le) arcs h.0) in
          rw (none, nothing)
    ]
  ]

module _ {ℓ κ} {A : Type ℓ} {B : Type κ} (f : A → B) where
  map-take : (n : ℕ) (xs : List A) → take n (map f xs) ≡ map f (take n xs)
  map-take zero xs = refl
  map-take (suc n) [] = refl
  map-take (suc n) (x ∷ xs) = ap (◌∷◌ (f x)) (map-take n xs)

  map-drop : (n : ℕ) (xs : List A) → drop n (map f xs) ≡ map f (drop n xs)
  map-drop zero xs = refl
  map-drop (suc n) [] = refl
  map-drop (suc n) (x ∷ xs) = map-drop n xs

module _ {W : Type 0} ⦃d : Double W⦄ (b : Builder W) (inv : IsBuilding b) where
  -- The row of a node holds its staged arcs, in the sorted order.
  pub row-built :
      (v : NodeId)
      → v < length b.coordinates
      → row (built b inv) v ≡ map to_arc (outgoing v (sort b.staged))
  unfolding make_graph
  row-built v h =
      let arcs = sort b.staged in
      let first : get_or (offsets_of b inv) v 0 ≡ before v arcs =
        (offsets_lem b inv).1 v (omega arith) in
      let size : sub_u32 (get_or (offsets_of b inv) (v + 1) 0) (get_or (offsets_of b inv) v 0)
          ≡ leaving v arcs =
        omega (
          arith,
          first,
          (offsets_lem b inv).1 (v + 1) (omega arith),
          before-suc v arcs,
          before-le (v + 1) arcs,
          sorted-small b inv,
        ) in
      (λ i. take (size i) (drop (first i) (map to_arc arcs)))
      ∙ (ap (take (leaving v arcs)) (map-drop to_arc (before v arcs) arcs)
          ∙ (map-take to_arc (leaving v arcs) (drop (before v arcs) arcs)
              ∙ ap (map to_arc) (take-drop-eq-outgoing v arcs (sort-IsBySource b.staged))))
