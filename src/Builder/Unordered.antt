-- ===== src/Builder/Unordered.antt =====
-- The sort in `GraphBuilder::build` (src/builder.cpp) does not depend on the order in which arcs were
-- added, if no two of them tie.
use mathlib.Core.List.{Permᴰ}
use route_engine_cpp.Shared.{
  ℕ, ◌+◌, ◌≡◌, refl, ap, sym, ◌∙◌, subst, inl, inr, List, [], ◌∷◌, false, length, replicate, map,
  All, All-self, All-map, All-get, if◌then◌else◌, Memᴰ, Bool-cases, Returns,
}
use route_engine_cpp.Double.{Double, ◌≼◌}
use route_engine_cpp.Double.Laws.{IsOrdered}
use route_engine_cpp.Graph.{make_graph}
use route_engine_cpp.Builder.{
  Builder, StagedArc, precedes, insert, sort, build, sum_rows, count_sources, to_arc,
}
use route_engine_cpp.Builder.Sort.{All-sort}
use route_engine_cpp.Builder.Canonical.{IsWeighed, precedes_asym, precedes_weak, sort_canonical}
use route_engine_cpp.Builder.Order.{
  IsInOrder, IsInOrder-IsCanonical, not_precedes-NotAfter, both_NotAfter, sort_permuted,
}
use route_engine_cpp.Builder.Result.{Reached, Reached-IsBuilding, build-ok}

module _ {W : Type 0} ⦃d : Double W⦄ (laws : IsOrdered W) where
  module _ (P : StagedArc W → Type 0) (weighed : (a : StagedArc W) → P a → IsWeighed a)
      (ties : (a b : StagedArc W)
        → P a
        → P b
        → precedes a b ≡ false
        → precedes b a ≡ false
        → a ≡ b) where
    -- Two arcs before others.
    two_first :
        (a b : StagedArc W) (arcs : List (StagedArc W))
        → P a
        → P b
        → (if precedes b a then b ∷ a ∷ arcs else a ∷ b ∷ arcs)
          ≡ (if precedes a b then a ∷ b ∷ arcs else b ∷ a ∷ arcs)
    two_first a b arcs pa pb = elim (Bool-cases (precedes b a)) [
      | inl first ↦ rw (first, precedes_asym laws a b (weighed a pa) (weighed b pb) first)
      | inr last ↦ elim (Bool-cases (precedes a b)) [
        | inl first ↦ rw (last, first)
        | inr tie ↦
            let e : a ≡ b = ties a b pa pb tie last in rw (last, tie) (λ i. e i ∷ sym e i ∷ arcs)
      ]
    ]

    insert-insert :
        (a b : StagedArc W) (arcs : List (StagedArc W))
        → P a
        → P b
        → All P arcs
        → insert a (insert b arcs) ≡ insert b (insert a arcs)
    unfolding insert
    insert-insert a b [] pa pb h = two_first a b [] pa pb
    insert-insert a b (x ∷ arcs) pa pb h =
        let wa = weighed a pa in
        let wb = weighed b pb in
        let wx = weighed x h.0 in
        elim (Bool-cases (precedes x a)) [
          | inl before_a ↦ elim (Bool-cases (precedes x b)) [
            | inl before_b ↦
                rw (before_b, before_a, before_b) (ap (◌∷◌ x) (insert-insert a b arcs pa pb h.1))
            | inr behind_b ↦
                rw (
                  before_a,
                  behind_b,
                  precedes_weak laws x a b wx wa wb before_a behind_b,
                  before_a,
                )
          ]
          | inr behind_a ↦ elim (Bool-cases (precedes x b)) [
            | inl before_b ↦
                rw (
                  before_b,
                  behind_a,
                  precedes_weak laws x b a wx wb wa before_b behind_a,
                  before_b,
                )
            | inr behind_b ↦ rw (behind_a, behind_b, behind_a) (two_first a b (x ∷ arcs) pa pb)
          ]
        ]

    All-Permᴰ : {arcs arcs' : List (StagedArc W)} → Permᴰ arcs arcs' → All P arcs → All P arcs'
    All-Permᴰ Permᴰ.nil h = tt
    All-Permᴰ (Permᴰ.cons e p) h = (subst P e h.0, All-Permᴰ p h.1)
    All-Permᴰ (Permᴰ.swap e e') h = (subst P e' h.1.0, (subst P e h.0, h.1.1))
    All-Permᴰ (Permᴰ.trans p q) h = All-Permᴰ q (All-Permᴰ p h)

    pub sort-Permᴰ :
        {arcs arcs' : List (StagedArc W)} → Permᴰ arcs arcs' → All P arcs → sort arcs ≡ sort arcs'
    unfolding sort
    sort-Permᴰ Permᴰ.nil h = refl
    sort-Permᴰ (Permᴰ.cons e p) h = λ i. insert (e i) (sort-Permᴰ p h.1 i)
    sort-Permᴰ (Permᴰ.swap {a = a} {b = b} {l = l} e e') h =
        insert-insert a b (sort l) h.0 h.1.0 (All-sort P l h.1.1)
        ∙ (λ i. insert (e' i) (insert (e i) (sort l)))
    sort-Permᴰ (Permᴰ.trans p q) h = sort-Permᴰ p h ∙ sort-Permᴰ q (All-Permᴰ p h)

module _ {W : Type 0} ⦃d : Double W⦄ where
  -- Arcs with one source, one target and weights that compare equal are equal.
  abbrev pub AreApart : List (StagedArc W) → Type 0
  AreApart arcs =
      (a b : StagedArc W)
      → Memᴰ a arcs
      → Memᴰ b arcs
      → a.source ≡ b.source
      → a.target ≡ b.target
      → a.weight ≼ b.weight
      → b.weight ≼ a.weight
      → a ≡ b

module _ {W : Type 0} ⦃d : Double W⦄ (laws : IsOrdered W) where
  sort_reordered :
      (arcs arcs' : List (StagedArc W))
      → Permᴰ arcs arcs'
      → All IsWeighed arcs
      → AreApart arcs
      → sort arcs ≡ sort arcs'
  sort_reordered arcs arcs' perm weighed apart =
      sort-Permᴰ laws (λ a. Memᴰ a arcs) (λ a m. All-get IsWeighed arcs weighed m)
        (λ a b m m' h h'.
          let ha = All-get IsWeighed arcs weighed m in
          let hb = All-get IsWeighed arcs weighed m' in
          let (source, target, le, ge) =
            both_NotAfter a b (not_precedes-NotAfter laws a b ha hb h')
              (not_precedes-NotAfter laws b a hb ha h) in
          apart a b m m' source target le ge)
        perm (All-self arcs)

  -- The sort returns the staged arcs in the order of source, target and weight, and whatever
  -- permutation of the arcs in this order a sort returns, it is the same sequence, provided that arcs
  -- with one source, one target and weights that compare equal are equal.
  pub sort_unique :
      (arcs sorted : List (StagedArc W))
      → Permᴰ sorted arcs
      → IsInOrder sorted
      → All IsWeighed sorted
      → AreApart sorted
      → (sorted ≡ sort arcs) × Permᴰ (sort arcs) arcs × IsInOrder (sort arcs)
  sort_unique arcs sorted perm ordered weighed apart =
      let same =
        sym (sort_canonical sorted (IsInOrder-IsCanonical laws sorted weighed ordered))
        ∙ sort_reordered sorted arcs perm weighed apart in
      (same, sort_permuted arcs, subst IsInOrder same ordered)

  -- Two reached builders with the same nodes, all of them set, whose arcs are the same in some order
  -- build the same graph, provided that arcs with one source, one target and weights that compare
  -- equal are equal.
  pub build_unordered :
      (n : ℕ) (b b' : Builder W)
      → Reached n b
      → Reached n b'
      → b.assigned_count ≡ length b.coordinates
      → b'.assigned_count ≡ length b'.coordinates
      → b.coordinates ≡ b'.coordinates
      → b.external_ids ≡ b'.external_ids
      → Permᴰ b.staged b'.staged
      → AreApart b.staged
      → Returns (λ r. Returns (λ r'. r.0 ≡ r'.0) (build b')) (build b)
  build_unordered n b b' reached reached' all all' nodes ids perm apart =
      let inv = Reached-IsBuilding laws reached in
      let inv' = Reached-IsBuilding laws reached' in
      let sorted =
        sort_reordered b.staged b'.staged perm (All-map (λ a h. h.3) b.staged inv.staged_fit)
          apart in
      rw (build-ok b inv all, build-ok b' inv' all')
        (λ i.
          make_graph (nodes i) (ids i)
            (sum_rows (length (nodes i)) 0
              (count_sources (sorted i) (replicate (length (nodes i) + 1) 0)))
            (map to_arc (sorted i)))
