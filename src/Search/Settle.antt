-- ===== src/Search/Settle.antt =====
-- Taking the head of the queue (src/search.cpp): a stale entry is dropped, and a node that is not yet
-- settled has its final distance.
use mathlib.Core.List.Memᴰ
use route_engine_cpp.Shared.{
  ◌≡◌, ◌≢◌, sym, ap, subst, ◌∙◌, inl, inr, List, ◌∷◌, Bool, true, false, arith, set, All-get, Memᴰ,
  Run, Bool-cases, ◌⊎◌, eq_or_ne,
}
use route_engine_cpp.Double.{Double, ◌≼◌}
use route_engine_cpp.Double.Laws.{IsOrdered, le_of_not_lt}
use route_engine_cpp.Types.{NodeId}
use route_engine_cpp.Graph.{Graph}
use route_engine_cpp.Search.{Entry}
use route_engine_cpp.Search.Grounded.{stale-Grounded, settled_at, settled_other, settle-Grounded}
use route_engine_cpp.Search.Invariant.{IsConsistent, Frontier, IsReached, dist, done, priority_at}

module _ {W : Type 0} ⦃d : Double W⦄ (laws : IsOrdered W) (g : Graph W) (src : NodeId)
    (estimate : NodeId → Run W) (value : NodeId → W) (heuristic : IsConsistent g estimate value)
    (distance : List W) (parent : List NodeId) (settled : List Bool) (entry : Entry W)
    (rest : List (Entry W))
    (inv : Frontier g src value distance parent settled (entry ∷ rest)) where
  open d use {nought, infinity, add, lt}

  -- An entry of another node stands behind the head.
  waiting-tail :
      (y : NodeId)
      → y ≢ entry.node
      → done settled y ≡ false
      → IsReached distance y
      → (p : W) × Memᴰ (record { priority = p; node = y }) rest
        × (p ≼ priority_at g src value distance y)
  waiting-tail y ne open_y reached =
      let (p, mem, le) = inv.waiting y open_y reached in
      elim (Memᴰ.cases_cons mem) [
        | inl e ↦ absurd (ne (ap (λ (x : Entry W). x.node) e))
        | inr m ↦ (p, m, le)
      ]

  -- A stale entry can be dropped.
  pub stale-Frontier :
      done settled entry.node ≡ true → Frontier g src value distance parent settled rest
  stale-Frontier stale = record {
    grounded = stale-Grounded g src distance parent settled entry rest inv.grounded;
    above = inv.above.1;
    ordered = inv.ordered.1;
    waiting = λ y open_y. waiting-tail y (λ same. ground arith) open_y;
    below = inv.below;
  }

  module _ (open_u : done settled entry.node ≡ false) where
    at_u : done (set settled entry.node true) entry.node ≡ true
    at_u = settled_at g src distance parent settled entry rest inv.grounded open_u

    at_other : (x : NodeId) → x ≢ entry.node → done (set settled entry.node true) x ≡ done settled x
    at_other = settled_other g src distance parent settled entry rest inv.grounded open_u

    was_open :
        (x : NodeId)
        → done (set settled entry.node true) x ≡ false
        → (x ≢ entry.node) × (done settled x ≡ false)
    was_open x h =
        let ne : x ≢ entry.node = λ same. ground (arith, at_u) in (ne, sym (at_other x ne) ∙ h)

    was_done :
        (x : NodeId)
        → done (set settled entry.node true) x ≡ true
        → (x ≡ entry.node) ⊎ (done settled x ≡ true)
    was_done x h = elim (eq_or_ne x entry.node) [
      | inl e ↦ inl e
      | inr ne ↦ inr (sym (at_other x ne) ∙ h)
    ]

    priority_nonneg : (x : NodeId) → nought ≼ priority_at g src value distance x
    priority_nonneg x = laws.add_nonneg _ _ (inv.grounded.nonneg x) (heuristic.nonneg x)

    -- No open node comes before the head.
    head-le :
        (y : NodeId)
        → y ≢ entry.node
        → done settled y ≡ false
        → priority_at g src value distance entry.node ≼ priority_at g src value distance y
    head-le y ne open_y = elim (Bool-cases (lt (dist distance y) infinity)) [
      | inl reached ↦
          let (p, mem, le) = waiting-tail y ne open_y reached in
          laws.le_trans _ _ _ inv.above.0 (
            laws.le_trans _ _ _
              (All-get (λ (x : Entry W). entry.priority ≼ x.priority) rest inv.ordered.0 mem) le)
      | inr far ↦ laws.le_trans _ _ _ (laws.le-infinity _ (priority_nonneg entry.node)) (
          laws.le_trans _ _ _
            (le_of_not_lt laws _ _ (inv.grounded.nonneg y) (laws.le-infinity _ laws.nought_refl)
              far)
            (laws.le-add _ _ (inv.grounded.nonneg y) (heuristic.nonneg y)))
    ]

    below' :
        (x y : NodeId)
        → done (set settled entry.node true) x ≡ true
        → done (set settled entry.node true) y ≡ false
        → priority_at g src value distance x ≼ priority_at g src value distance y
    below' x y done_x open_y =
        let (ne, was) = was_open y open_y in
        elim (was_done x done_x) [
          | inl e ↦
              subst (λ t. priority_at g src value distance t ≼ priority_at g src value distance y)
                (sym e) (head-le y ne was)
          | inr old ↦ inv.below x y old was
        ]

    -- A node that is taken from the queue becomes settled.
    pub settle-Frontier : Frontier g src value distance parent (set settled entry.node true) rest
    settle-Frontier = record {
      grounded = settle-Grounded g src distance parent settled entry rest inv.grounded open_u;
      above = inv.above.1;
      ordered = inv.ordered.1;
      waiting = λ y h. waiting-tail y (was_open y h).0 (was_open y h).1;
      below = below';
    }

    -- No settled node comes after it.
    pub settle-last :
        (x : NodeId)
        → done (set settled entry.node true) x ≡ true
        → priority_at g src value distance x ≼ priority_at g src value distance entry.node
    settle-last x h = elim (was_done x h) [
      | inl e ↦
          subst
            (λ t. priority_at g src value distance t ≼ priority_at g src value distance entry.node)
            (sym e) (laws.le_refl _ (priority_nonneg entry.node))
      | inr old ↦ inv.below x entry.node old open_u
    ]
