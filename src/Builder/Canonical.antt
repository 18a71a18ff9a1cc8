-- ===== src/Builder/Canonical.antt =====
-- The canonical order of the sort in `GraphBuilder::build` (src/builder.cpp): arcs in this order are left
-- as they are, and are the rows of the graph one after the other.
use route_engine_cpp.Shared.{
  ℕ, zero, suc, ◌+◌, ◌≤◌, ◌<◌, ◌≡◌, refl, ap, ◌∙◌, inl, inr, List, [], ◌∷◌, ◌++◌, true, false,
  arith, All, All-map, Bool-cases, ==_iff, ◌==◌,
}
use native.Mathlib.Nat.{le_trans}
use route_engine_cpp.Double.{Double, ◌≼◌}
use route_engine_cpp.Double.Laws.{IsOrdered}
use route_engine_cpp.Types.{NodeId}
use route_engine_cpp.Builder.{StagedArc, precedes, insert, sort}
use route_engine_cpp.Builder.Sort.{IsBySource, All-sort}
use route_engine_cpp.Builder.Partition.{outgoing}

module _ {W : Type 0} ⦃d : Double W⦄ where
  abbrev pub IsWeighed : StagedArc W → Type 0
  IsWeighed a = d.nought ≼ a.weight

  -- The first of the arcs does not precede `a`.
  abbrev pub Follows : StagedArc W → List (StagedArc W) → Type 0
  Follows a [] = Unit
  Follows a (b ∷ arcs) = precedes b a ≡ false

  abbrev pub IsCanonical : List (StagedArc W) → Type 0
  IsCanonical [] = Unit
  IsCanonical (a ∷ arcs) = Follows a arcs × IsCanonical arcs

  -- Arcs in canonical order are left as they are.
  pub sort_canonical : (arcs : List (StagedArc W)) → IsCanonical arcs → sort arcs ≡ arcs
  unfolding sort insert
  sort_canonical [] h = refl
  sort_canonical (a ∷ []) h = refl
  sort_canonical (a ∷ b ∷ arcs) h = rw (sort_canonical (b ∷ arcs) h.1, h.0)

  module _ (laws : IsOrdered W) where
    pub precedes_asym :
        (a b : StagedArc W) → IsWeighed a → IsWeighed b → precedes b a ≡ true → precedes a b ≡ false
    unfolding precedes
    precedes_asym a b h h' first = ground (
      arith,
      laws.lt-eq-not-le a.weight b.weight h h',
      laws.lt-eq-not-le b.weight a.weight h' h,
      laws.le_total a.weight b.weight h h',
    )

    -- The comparison is a strict weak order: what is not behind `a` goes before all that `a` goes before.
    pub precedes_weak :
        (x a b : StagedArc W)
        → IsWeighed x
        → IsWeighed a
        → IsWeighed b
        → precedes x a ≡ true
        → precedes x b ≡ false
        → precedes b a ≡ true
    unfolding precedes
    precedes_weak x a b hx ha hb first behind = ground (
      arith,
      laws.lt-eq-not-le x.weight a.weight hx ha,
      laws.lt-eq-not-le x.weight b.weight hx hb,
      laws.lt-eq-not-le b.weight a.weight hb ha,
      laws.le_trans a.weight b.weight x.weight,
    )

    insert-Follows :
        (a b : StagedArc W) (arcs : List (StagedArc W))
        → precedes a b ≡ false
        → Follows b arcs
        → Follows b (insert a arcs)
    unfolding insert
    insert-Follows a b [] h f = h
    insert-Follows a b (c ∷ arcs) h f = ground arith

    insert-IsCanonical :
        (a : StagedArc W) (arcs : List (StagedArc W))
        → IsWeighed a
        → All IsWeighed arcs
        → IsCanonical arcs
        → IsCanonical (insert a arcs)
    unfolding insert
    insert-IsCanonical a [] h hs c = (tt, tt)
    insert-IsCanonical a (b ∷ arcs) h hs c = elim (Bool-cases (precedes b a)) [
      | inl after ↦ rw after (
        insert-Follows a b arcs (precedes_asym a b h hs.0 after) c.0,
        insert-IsCanonical a arcs h hs.1 c.1,
      )
      | inr before ↦ rw before (before, c)
    ]

    pub sort-IsCanonical :
        (arcs : List (StagedArc W)) → All IsWeighed arcs → IsCanonical (sort arcs)
    unfolding sort
    sort-IsCanonical [] h = tt
    sort-IsCanonical (a ∷ arcs) h =
        insert-IsCanonical a (sort arcs) h.0 (All-sort IsWeighed arcs h.1)
          (sort-IsCanonical arcs h.1)

    -- Sorting twice is sorting once.
    pub sort-sort : (arcs : List (StagedArc W)) → All IsWeighed arcs → sort (sort arcs) ≡ sort arcs
    sort-sort arcs h = sort_canonical (sort arcs) (sort-IsCanonical arcs h)

module _ {W : Type 0} where
  -- The arcs that leave the nodes from `i`, node by node.
  abbrev pub gathered : (rounds : ℕ) (i : NodeId) → List (StagedArc W) → List (StagedArc W)
  gathered zero i arcs = []
  gathered (suc rounds) i arcs = outgoing i arcs ++ gathered rounds (i + 1) arcs

  gathered-skip :
      (rounds i : ℕ) (a : StagedArc W) (arcs : List (StagedArc W))
      → a.source < i
      → gathered rounds i (a ∷ arcs) ≡ gathered rounds i arcs
  gathered-skip zero i a arcs h = refl
  gathered-skip (suc rounds) i a arcs h =
      let other : (a.source == i) ≡ false = ground arith in
      rw (other, gathered-skip rounds (i + 1) a arcs (omega arith))

  outgoing-none :
      (i : NodeId) (arcs : List (StagedArc W)) → All (λ b. i < b.source) arcs → outgoing i arcs ≡ []
  outgoing-none i [] h = refl
  outgoing-none i (b ∷ arcs) h = ground (arith, h.0, outgoing-none i arcs h.1)

  gathered-cons :
      (rounds i : ℕ) (a : StagedArc W) (arcs : List (StagedArc W))
      → i ≤ a.source
      → a.source < i + rounds
      → All (λ b. a.source ≤ b.source) arcs
      → gathered rounds i (a ∷ arcs) ≡ a ∷ gathered rounds i arcs
  gathered-cons zero i a arcs h h' le = absurd (omega arith)
  gathered-cons (suc rounds) i a arcs h h' le = elim (Bool-cases (a.source == i)) [
    | inl same ↦
        rw (same, gathered-skip rounds (i + 1) a arcs (ground (arith, (==_iff a.source i).0 same)))
    | inr other ↦
        let later : i < a.source = ground arith in
        let none =
          outgoing-none i arcs
            (All-map (λ b (more : a.source ≤ b.source). le_trans later more) arcs le) in
        rw (other, none) (gathered-cons rounds (i + 1) a arcs (omega arith) (omega arith) le)
  ]

  gathered-nil : (rounds i : ℕ) → gathered rounds i [] ≡ []
  gathered-nil zero i = refl
  gathered-nil (suc rounds) i = gathered-nil rounds (i + 1)

  -- Arcs in the order of their sources are the rows, one after the other.
  pub gathered-All :
      (n : ℕ) (arcs : List (StagedArc W))
      → IsBySource arcs
      → All (λ a. a.source < n) arcs
      → gathered n 0 arcs ≡ arcs
  gathered-All n [] h fit = gathered-nil n 0
  gathered-All n (a ∷ arcs) h fit =
      gathered-cons n 0 a arcs (omega arith) (omega (arith, fit.0)) h.0
      ∙ ap (◌∷◌ a) (gathered-All n arcs h.1 fit.1)
