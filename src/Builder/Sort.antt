-- ===== src/Builder/Sort.antt =====
-- The sort of `GraphBuilder::build` (src/builder.cpp): a permutation, in the order of the sources.
use mathlib.Core.List.{Perm}
use mathlib.Core.List.Perm
use native.Mathlib.Nat.{le_trans}
use route_engine_cpp.Shared.{
  suc, ◌≤◌, ◌≡◌, refl, List, [], ◌∷◌, true, false, arith, length, All, inl, inr, Bool-cases,
  All-map,
}
use route_engine_cpp.Double.{Double}
use route_engine_cpp.Builder.{StagedArc, insert, sort, precedes}

module _ {W : Type 0} where
  -- No source is smaller than one before it.
  abbrev pub IsBySource : List (StagedArc W) → Type 0
  IsBySource [] = Unit
  IsBySource (a ∷ arcs) = All (λ b. a.source ≤ b.source) arcs × IsBySource arcs

module _ {W : Type 0} ⦃d : Double W⦄ where
  insert-perm : (a : StagedArc W) (arcs : List (StagedArc W)) → Perm (insert a arcs) (a ∷ arcs)
  unfolding insert
  insert-perm a [] = Perm.refl (a ∷ [])
  insert-perm a (b ∷ arcs) = elim (Bool-cases (precedes b a)) [
    | inl after ↦ rw after (Perm.trans (Perm.cons b (insert-perm a arcs)) (Perm.swap a b arcs))
    | inr before ↦ rw before (Perm.refl _)
  ]

  -- The sorted arcs are the staged ones, each as often.
  pub sort-perm : (arcs : List (StagedArc W)) → Perm (sort arcs) arcs
  unfolding sort
  sort-perm [] = Perm.refl []
  sort-perm (a ∷ arcs) = Perm.trans (insert-perm a (sort arcs)) (Perm.cons a (sort-perm arcs))

  All-insert :
      (P : StagedArc W → Type 0) (a : StagedArc W) (arcs : List (StagedArc W))
      → P a
      → All P arcs
      → All P (insert a arcs)
  unfolding insert
  All-insert P a [] p h = (p, tt)
  All-insert P a (b ∷ arcs) p h = elim (Bool-cases (precedes b a)) [
    | inl after ↦ rw after (h.0, All-insert P a arcs p h.1)
    | inr before ↦ rw before (p, h)
  ]

  pub All-sort :
      (P : StagedArc W → Type 0) (arcs : List (StagedArc W)) → All P arcs → All P (sort arcs)
  unfolding sort
  All-sort P [] h = tt
  All-sort P (a ∷ arcs) h = All-insert P a (sort arcs) h.0 (All-sort P arcs h.1)

  length-insert :
      (a : StagedArc W) (arcs : List (StagedArc W)) → length (insert a arcs) ≡ suc (length arcs)
  unfolding insert
  length-insert a [] = refl
  length-insert a (b ∷ arcs) = ground (arith, length-insert a arcs)

  pub length-sort : (arcs : List (StagedArc W)) → length (sort arcs) ≡ length arcs
  unfolding sort
  length-sort [] = refl
  length-sort (a ∷ arcs) = omega (arith, length-insert a (sort arcs), length-sort arcs)

  precedes-source : (a b : StagedArc W) → precedes a b ≡ true → a.source ≤ b.source
  unfolding precedes
  precedes-source a b h = ground arith

  not_precedes-source : (a b : StagedArc W) → precedes a b ≡ false → b.source ≤ a.source
  unfolding precedes
  not_precedes-source a b h = ground arith

  insert-IsBySource :
      (a : StagedArc W) (arcs : List (StagedArc W)) → IsBySource arcs → IsBySource (insert a arcs)
  unfolding insert
  insert-IsBySource a [] h = (tt, tt)
  insert-IsBySource a (b ∷ arcs) h = elim (Bool-cases (precedes b a)) [
    | inl after ↦ rw after (
      All-insert (λ c. b.source ≤ c.source) a arcs (precedes-source b a after) h.0,
      insert-IsBySource a arcs h.1,
    )
    | inr before ↦
        let le = not_precedes-source b a before in
        rw before ((le, All-map (λ c (more : b.source ≤ c.source). le_trans le more) arcs h.0), h)
  ]

  pub sort-IsBySource : (arcs : List (StagedArc W)) → IsBySource (sort arcs)
  unfolding sort
  sort-IsBySource [] = tt
  sort-IsBySource (a ∷ arcs) = insert-IsBySource a (sort arcs) (sort-IsBySource arcs)
