-- ===== src/Builder/Order.antt =====
-- The order of the arcs in `GraphBuilder::build` (src/builder.cpp), by source, target and weight, in the
-- sorted arcs and in the rows of the graph.
use mathlib.Core.List.{Permᴰ}
use mathlib.Core.List.Permᴰ
use route_engine_cpp.Shared.{
  ◌<◌, ◌≡◌, refl, sym, ap, subst, ◌∙◌, ◌⊎◌, inl, inr, List, [], ◌∷◌, map, true, false, arith, All,
  All-map, Bool-cases, eq_or_ne, ==_iff, ◌==◌,
}
use route_engine_cpp.Double.{Double, ◌≼◌}
use route_engine_cpp.Double.Laws.{IsOrdered, le_of_not_lt}
use route_engine_cpp.Types.{Arc, NodeId}
use route_engine_cpp.Builder.{StagedArc, precedes, insert, sort, to_arc}
use route_engine_cpp.Builder.Sort.{All-sort}
use route_engine_cpp.Builder.Canonical.{IsWeighed, IsCanonical, sort-IsCanonical}
use route_engine_cpp.Builder.Partition.{outgoing}

module _ {W : Type 0} ⦃d : Double W⦄ where
  -- `a` may stand before `b`: by source, then by target, then by weight.
  abbrev pub NotAfter : StagedArc W → StagedArc W → Type 0
  NotAfter a b =
      (a.source < b.source)
      ⊎ ((a.source ≡ b.source)
          × ((a.target < b.target) ⊎ ((a.target ≡ b.target) × (a.weight ≼ b.weight))))

  abbrev pub IsInOrder : List (StagedArc W) → Type 0
  IsInOrder [] = Unit
  IsInOrder (a ∷ arcs) = All (NotAfter a) arcs × IsInOrder arcs

  -- The arcs of a row, by target, then by weight.
  abbrev pub IsRowOrder : List (Arc W) → Type 0
  IsRowOrder [] = Unit
  IsRowOrder (a ∷ arcs) =
      All (λ b. (a.target < b.target) ⊎ ((a.target ≡ b.target) × (a.weight ≼ b.weight))) arcs
      × IsRowOrder arcs

  pub NotAfter-weight :
      (a b : StagedArc W)
      → NotAfter a b
      → a.source ≡ b.source
      → a.target ≡ b.target
      → a.weight ≼ b.weight
  NotAfter-weight a b (inl less) e e' = absurd (omega arith)
  NotAfter-weight a b (inr (_, inl less)) e e' = absurd (omega arith)
  NotAfter-weight a b (inr (_, inr (_, le))) e e' = le

  pub both_NotAfter :
      (a b : StagedArc W)
      → NotAfter a b
      → NotAfter b a
      → (a.source ≡ b.source)
        × (a.target ≡ b.target)
        × (a.weight ≼ b.weight)
        × (b.weight ≼ a.weight)
  both_NotAfter a b (inr (e, inr (e', le))) (inr (_, inr (_, ge))) = (e, e', le, ge)
  both_NotAfter a b (inl less) (inl more) = absurd (omega arith)
  both_NotAfter a b (inl less) (inr (e, _)) = absurd (omega arith)
  both_NotAfter a b (inr (e, _)) (inl more) = absurd (omega arith)
  both_NotAfter a b (inr (e, inl less)) (inr (_, inl more)) = absurd (omega arith)
  both_NotAfter a b (inr (e, inl less)) (inr (_, inr (e', _))) = absurd (omega arith)
  both_NotAfter a b (inr (e, inr (e', _))) (inr (_, inl more)) = absurd (omega arith)

  pub All-outgoing :
      (P : StagedArc W → Type 0) (u : NodeId) (arcs : List (StagedArc W))
      → All P arcs
      → All (λ a. P a × (a.source ≡ u)) (outgoing u arcs)
  All-outgoing P u [] h = tt
  All-outgoing P u (a ∷ arcs) h = elim (Bool-cases (a.source == u)) [
    | inl same ↦ rw same ((h.0, (==_iff a.source u).0 same), All-outgoing P u arcs h.1)
    | inr other ↦ rw other (All-outgoing P u arcs h.1)
  ]

  pub outgoing-IsInOrder :
      (u : NodeId) (arcs : List (StagedArc W)) → IsInOrder arcs → IsInOrder (outgoing u arcs)
  outgoing-IsInOrder u [] h = tt
  outgoing-IsInOrder u (a ∷ arcs) h = elim (Bool-cases (a.source == u)) [
    | inl same ↦ rw same (
      All-map (λ b k. k.0) (outgoing u arcs) (All-outgoing (NotAfter a) u arcs h.0),
      outgoing-IsInOrder u arcs h.1,
    )
    | inr other ↦ rw other (outgoing-IsInOrder u arcs h.1)
  ]

  row_step :
      (a : StagedArc W) (u : NodeId) (arcs : List (StagedArc W))
      → a.source ≡ u
      → All (λ b. b.source ≡ u) arcs
      → All (NotAfter a) arcs
      → All
          (λ b. (a.target < b.target) ⊎ ((a.target ≡ b.target) × (a.weight ≼ b.weight)))
          (map to_arc arcs)
  row_step a u [] e h o = tt
  row_step a u (b ∷ arcs) e h (inl less, o) = absurd (omega (arith, e, h.0, less))
  row_step a u (b ∷ arcs) e h (inr (_, later), o) = (later, row_step a u arcs e h.1 o)

  row-IsRowOrder :
      (u : NodeId) (arcs : List (StagedArc W))
      → All (λ a. a.source ≡ u) arcs
      → IsInOrder arcs
      → IsRowOrder (map to_arc arcs)
  row-IsRowOrder u [] h o = tt
  row-IsRowOrder u (a ∷ arcs) h o = (row_step a u arcs h.0 h.1 o.0, row-IsRowOrder u arcs h.1 o.1)

  insert_permuted : (a : StagedArc W) (arcs : List (StagedArc W)) → Permᴰ (insert a arcs) (a ∷ arcs)
  unfolding insert
  insert_permuted a [] = Permᴰ.cons refl Permᴰ.nil
  insert_permuted a (b ∷ arcs) = elim (Bool-cases (precedes b a)) [
    | inl after ↦
        rw after (Permᴰ.trans (Permᴰ.cons refl (insert_permuted a arcs)) (Permᴰ.swap refl refl))
    | inr before ↦ rw before (Permᴰ.refl _)
  ]

  pub sort_permuted : (arcs : List (StagedArc W)) → Permᴰ (sort arcs) arcs
  unfolding sort
  sort_permuted [] = Permᴰ.nil
  sort_permuted (a ∷ arcs) =
      Permᴰ.trans (insert_permuted a (sort arcs)) (Permᴰ.cons refl (sort_permuted arcs))

  row_swapped :
      (u : NodeId) (a b : StagedArc W) (arcs : List (StagedArc W))
      → Permᴰ (map to_arc (outgoing u (a ∷ b ∷ arcs))) (map to_arc (outgoing u (b ∷ a ∷ arcs)))
  row_swapped u a b arcs = elim (Bool-cases (a.source == u)) [
    | inl h ↦ elim (Bool-cases (b.source == u)) [
      | inl h' ↦ rw (h, h') (Permᴰ.swap refl refl)
      | inr h' ↦ rw (h, h') (Permᴰ.refl _)
    ]
    | inr h ↦ elim (Bool-cases (b.source == u)) [
      | inl h' ↦ rw (h, h') (Permᴰ.refl _)
      | inr h' ↦ rw (h, h') (Permᴰ.refl _)
    ]
  ]

  -- The row of `u` holds the arcs that leave `u`, each as often.
  pub row_permuted :
      (u : NodeId) {arcs arcs' : List (StagedArc W)}
      → Permᴰ arcs arcs'
      → Permᴰ (map to_arc (outgoing u arcs)) (map to_arc (outgoing u arcs'))
  row_permuted u Permᴰ.nil = Permᴰ.nil
  row_permuted u (Permᴰ.cons {a = a} {b = b} e p) = elim (Bool-cases (a.source == u)) [
    | inl same ↦
        let same' : (b.source == u) ≡ true = ap (λ x. x.source == u) (sym e) ∙ same in
        rw (same, same') (Permᴰ.cons (ap to_arc e) (row_permuted u p))
    | inr other ↦
        let other' : (b.source == u) ≡ false = ap (λ x. x.source == u) (sym e) ∙ other in
        rw (other, other') (row_permuted u p)
  ]
  row_permuted u (Permᴰ.swap {a = a} {b = b} {l = l} e e') =
      subst (λ arcs. Permᴰ (map to_arc (outgoing u (a ∷ b ∷ l))) (map to_arc (outgoing u arcs)))
        (λ i. e' i ∷ e i ∷ l) (row_swapped u a b l)
  row_permuted u (Permᴰ.trans p q) = Permᴰ.trans (row_permuted u p) (row_permuted u q)

module _ {W : Type 0} ⦃d : Double W⦄ (laws : IsOrdered W) where
  pub not_precedes-NotAfter :
      (a b : StagedArc W) → IsWeighed a → IsWeighed b → precedes b a ≡ false → NotAfter a b
  unfolding precedes
  not_precedes-NotAfter a b ha hb h = elim (eq_or_ne a.source b.source) [
    | inr ne ↦ inl (ground arith)
    | inl e ↦ elim (eq_or_ne a.target b.target) [
      | inr ne ↦ inr (e, inl (ground arith))
      | inl e' ↦ inr (e, inr (e', le_of_not_lt laws b.weight a.weight hb ha (ground arith)))
    ]
  ]

  NotAfter-not_precedes :
      (a b : StagedArc W) → IsWeighed a → IsWeighed b → NotAfter a b → precedes b a ≡ false
  unfolding precedes
  NotAfter-not_precedes a b ha hb (inl less) = ground arith
  NotAfter-not_precedes a b ha hb (inr (e, inl less)) = ground arith
  NotAfter-not_precedes a b ha hb (inr (e, inr (e', le))) =
      ground (arith, laws.lt-eq-not-le b.weight a.weight hb ha)

  NotAfter-trans : (a b c : StagedArc W) → NotAfter a b → NotAfter b c → NotAfter a c
  NotAfter-trans a b c (inl h) (inl h') = inl (omega arith)
  NotAfter-trans a b c (inl h) (inr (e, _)) = inl (omega arith)
  NotAfter-trans a b c (inr (e, _)) (inl h') = inl (omega arith)
  NotAfter-trans a b c (inr (e, inl h)) (inr (e', inl h')) = inr (e ∙ e', inl (omega arith))
  NotAfter-trans a b c (inr (e, inl h)) (inr (e', inr (f, _))) = inr (e ∙ e', inl (omega arith))
  NotAfter-trans a b c (inr (e, inr (f, _))) (inr (e', inl h')) = inr (e ∙ e', inl (omega arith))
  NotAfter-trans a b c (inr (e, inr (f, le))) (inr (e', inr (f', le'))) =
      inr (e ∙ e', inr (f ∙ f', laws.le_trans _ _ _ le le'))

  further :
      (a b : StagedArc W) (arcs : List (StagedArc W))
      → NotAfter a b
      → All (NotAfter b) arcs
      → All (NotAfter a) arcs
  further a b arcs h later = All-map (λ c k. NotAfter-trans a b c h k) arcs later

  IsCanonical-IsInOrder :
      (arcs : List (StagedArc W)) → All IsWeighed arcs → IsCanonical arcs → IsInOrder arcs
  IsCanonical-IsInOrder [] h c = tt
  IsCanonical-IsInOrder (a ∷ []) h c = (tt, tt)
  IsCanonical-IsInOrder (a ∷ b ∷ arcs) h c =
      let rest = IsCanonical-IsInOrder (b ∷ arcs) h.1 c.1 in
      let first = not_precedes-NotAfter a b h.0 h.1.0 c.0 in
      ((first, further a b arcs first rest.0), rest)

  pub IsInOrder-IsCanonical :
      (arcs : List (StagedArc W)) → All IsWeighed arcs → IsInOrder arcs → IsCanonical arcs
  IsInOrder-IsCanonical [] h o = tt
  IsInOrder-IsCanonical (a ∷ []) h o = (tt, tt)
  IsInOrder-IsCanonical (a ∷ b ∷ arcs) h o =
      (NotAfter-not_precedes a b h.0 h.1.0 o.0.0, IsInOrder-IsCanonical (b ∷ arcs) h.1 o.1)

  pub sort-IsInOrder : (arcs : List (StagedArc W)) → All IsWeighed arcs → IsInOrder (sort arcs)
  sort-IsInOrder arcs h =
      IsCanonical-IsInOrder (sort arcs) (All-sort IsWeighed arcs h) (sort-IsCanonical laws arcs h)

  -- The rows of the sorted arcs are in order.
  pub sorted_row-IsRowOrder :
      (u : NodeId) (arcs : List (StagedArc W))
      → All IsWeighed arcs
      → IsRowOrder (map to_arc (outgoing u (sort arcs)))
  sorted_row-IsRowOrder u arcs h =
      row-IsRowOrder u (outgoing u (sort arcs))
        (All-map (λ a k. k.1) (outgoing u (sort arcs))
          (All-outgoing IsWeighed u (sort arcs) (All-sort IsWeighed arcs h)))
        (outgoing-IsInOrder u (sort arcs) (sort-IsInOrder arcs h))
