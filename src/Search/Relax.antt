-- ===== src/Search/Relax.antt =====
-- The body of the loop over the arcs of a settled node (src/search.cpp) keeps the invariant.
use route_engine_cpp.Shared.{
  ◌<◌, ◌≡◌, ◌≢◌, refl, sym, ap, subst, ◌∙◌, inl, inr, List, Bool, true, false, arith, set, All,
  All-map, Memᴰ, Run, eq_or_ne,
}
use route_engine_cpp.Double.{Double, ◌≼◌}
use route_engine_cpp.Double.Laws.{IsOrdered, le_of_lt, le_between}
use route_engine_cpp.Types.{NodeId, to_u32}
use route_engine_cpp.Graph.{Graph, node_count}
use route_engine_cpp.Graph.Rows.{IsValid, IsArc}
use route_engine_cpp.Search.{Entry, push}
use route_engine_cpp.Search.Queue.{IsQueue, push-IsQueue, All-push, push-mem, push-mem_self}
use route_engine_cpp.Search.Grounded.{
  improved-nonneg, improved_self, improved-other, improved-Grounded,
}
use route_engine_cpp.Search.Invariant.{
  IsConsistent, Grounded, Frontier, dist, done, priority_at, IsReached,
}

-- A strict improvement of the node `v` to the cost `c`, by the arc of weight `w` from the settled
-- node `u`.
module _ {W : Type 0} ⦃d : Double W⦄ (laws : IsOrdered W) (g : Graph W) (valid : IsValid g)
    (src : NodeId) (estimate : NodeId → Run W) (value : NodeId → W)
    (heuristic : IsConsistent g estimate value) (distance : List W) (parent : List NodeId)
    (settled : List Bool) (queue : List (Entry W))
    (inv : Frontier g src value distance parent settled queue) (u v : NodeId) (w c : W)
    (c_eq : c ≡ d.add (dist distance u) w) (u_done : done settled u ≡ true)
    (u_node : u < node_count g)
    (u_last : (x : NodeId)
      → done settled x ≡ true
      → priority_at g src value distance x ≼ priority_at g src value distance u)
    (arc : IsArc g u v w) (v_open : done settled v ≡ false)
    (better : d.lt c (dist distance v) ≡ true) where
  open d use {nought, infinity, add, lt, le}

  nonneg : (x : NodeId) → nought ≼ dist distance x
  nonneg = inv.grounded.nonneg

  c_nonneg : nought ≼ c
  c_nonneg =
      improved-nonneg laws g valid src distance parent settled queue inv.grounded u v w c c_eq
        u_done u_node arc v_open better

  at_v : dist (set distance v c) v ≡ c
  at_v =
      improved_self laws g valid src distance parent settled queue inv.grounded u v w c c_eq u_done
        u_node arc v_open better

  other : (x : NodeId) → x ≢ v → dist (set distance v c) x ≡ dist distance x
  other =
      improved-other laws g valid src distance parent settled queue inv.grounded u v w c c_eq u_done
        u_node arc v_open better

  abbrev new_entry : Entry W
  new_entry = record { priority = add c (value v); node = v }

  still_grounded :
      Grounded g src (set distance v c) (set parent v (to_u32 u)) settled (push new_entry queue)
  still_grounded =
      improved-Grounded laws g valid src distance parent settled queue inv.grounded u v w c c_eq
        u_done u_node arc v_open better new_entry refl

  c-le : c ≼ dist distance v
  c-le = le_of_lt laws _ _ c_nonneg (nonneg v) better

  done-ne : (x : NodeId) → done settled x ≡ true → x ≢ v
  done-ne x h same = ground arith

  -- No distance rises.
  improved-le : (x : NodeId) → dist (set distance v c) x ≼ dist distance x
  improved-le x = elim (eq_or_ne x v) [
    | inl e ↦ rw (e, at_v) c-le
    | inr ne ↦ rw (other x ne) (laws.le_refl _ (nonneg x))
  ]

  priority-le :
      (x : NodeId)
      → priority_at g src value (set distance v c) x ≼ priority_at g src value distance x
  priority-le x = laws.add_mono _ _ _ (still_grounded.nonneg x) (heuristic.nonneg x) (improved-le x)

  le_of_eq : {a b : W} → a ≡ b → nought ≼ b → a ≼ b
  le_of_eq {b} e h = subst (λ t. t ≼ b) (sym e) (laws.le_refl b h)

  new_priority-nonneg : nought ≼ add c (value v)
  new_priority-nonneg = laws.add_nonneg _ _ c_nonneg (heuristic.nonneg v)

  priority_self : priority_at g src value (set distance v c) v ≡ add c (value v)
  priority_self = ap (λ t. add t (value v)) at_v

  priority_other :
      (x : NodeId)
      → x ≢ v
      → priority_at g src value (set distance v c) x ≡ priority_at g src value distance x
  priority_other x ne = ap (λ t. add t (value x)) (other x ne)

  at_new : priority_at g src value (set distance v c) v ≼ add c (value v)
  at_new = le_of_eq priority_self new_priority-nonneg

  above' :
      All
        (λ e. priority_at g src value (set distance v c) e.node ≼ e.priority)
        (push new_entry queue)
  above' =
      All-push (λ e. priority_at g src value (set distance v c) e.node ≼ e.priority) new_entry queue
        at_new (All-map (λ e h. laws.le_trans _ _ _ (priority-le e.node) h) queue inv.above)

  ordered' : IsQueue (push new_entry queue)
  ordered' =
      push-IsQueue laws new_entry queue new_priority-nonneg
        (All-map
          (λ e h.
            laws.le_trans _ _ _ (laws.add_nonneg _ _ (nonneg e.node) (heuristic.nonneg e.node)) h)
          queue inv.above)
        inv.ordered

  waiting' :
      (y : NodeId)
      → done settled y ≡ false
      → IsReached (set distance v c) y
      → (p : W) × Memᴰ (record { priority = p; node = y }) (push new_entry queue)
        × (p ≼ priority_at g src value (set distance v c) y)
  waiting' y open_y reached = elim (eq_or_ne y v) [
    | inl e ↦ (
      add c (value v),
      subst (λ t. Memᴰ (record { priority = add c (value v); node = t }) (push new_entry queue))
          (sym e) (push-mem_self new_entry queue),
      subst (λ t. add c (value v) ≼ priority_at g src value (set distance v c) t) (sym e)
          (le_between refl priority_self (laws.le_refl _ new_priority-nonneg)),
    )
    | inr ne ↦
        let (p, mem, le) = inv.waiting y open_y (rw (other y ne) at reached) in
        (p, push-mem new_entry _ queue mem, le_between refl (priority_other y ne) le)
  ]

  below' :
      (x y : NodeId)
      → done settled x ≡ true
      → done settled y ≡ false
      → priority_at g src value (set distance v c) x ≼ priority_at g src value (set distance v c) y
  below' x y done_x open_y = elim (eq_or_ne y v) [
    | inl e ↦
        subst
          (λ t.
            priority_at g src value (set distance v c) x
            ≼ priority_at g src value (set distance v c) t)
          (sym e)
          (le_between (priority_other x (done-ne x done_x))
            (priority_self ∙ ap (λ t. add t (value v)) c_eq)
            (laws.le_trans _ _ _ (u_last x done_x)
              (heuristic.along u v w (dist distance u) arc (nonneg u))))
    | inr ne ↦
        le_between (priority_other x (done-ne x done_x)) (priority_other y ne)
          (inv.below x y done_x open_y)
  ]

  improved-Frontier :
      Frontier g src value
        (set distance v c)
        (set parent v (to_u32 u))
        settled
        (push new_entry queue)
  improved-Frontier = record {
    grounded = still_grounded;
    above = above';
    ordered = ordered';
    waiting = waiting';
    below = below';
  }

  -- The improvement keeps the invariant, raises no distance, and keeps those of settled nodes.
  pub improved_lem :
      Frontier g src value
        (set distance v c)
        (set parent v (to_u32 u))
        settled
        (push new_entry queue)
      × ((x : NodeId) → dist (set distance v c) x ≼ dist distance x)
      × ((x : NodeId) → done settled x ≡ true → dist (set distance v c) x ≡ dist distance x)
      × (dist (set distance v c) v ≼ c)
  improved_lem =
      (improved-Frontier, improved-le, λ x h. other x (done-ne x h), le_of_eq at_v c_nonneg)
