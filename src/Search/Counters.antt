-- ===== src/Search/Counters.antt =====
-- The counters of SearchStats (include/route/search.hpp) while arcs are examined.
pub mod Bounds
use mathlib.Core.List.{Memᴰ}
use route_engine_cpp.Shared.{
  count, count-le, count-set, ℕ, zero, suc, ◌+◌, ◌-◌, ◌≤◌, ◌<◌, ◌≡◌, refl, sym, ap, subst, ◌∙◌, inl,
  inr, max, List, [], ◌∷◌, Bool, true, false, arith, length, length-set, get_or, set, replicate,
  length-replicate, All, All-map, ok, throw, out_of_fuel, Run, ◌>>=◌, ◌==◌, Bool-cases, List-cases,
  WhenOk, WhenOk-bind, WhenOk-any, Returns-when, Returns, Returns-ok,
}
use route_engine_cpp.Double.{Double, ◌≼◌}
use route_engine_cpp.Types.{NodeId, Arc, incr, max_u32}
use route_engine_cpp.Graph.{Graph, node_count, arc_count, row}
use route_engine_cpp.Graph.Rows.{IsValid, arc-IsArcOf, row-IsArcOf, arcs_from-ok}
use route_engine_cpp.Search.{
  State, SearchStats, SearchResult, Entry, Round, next, reached, relax, scan, round, settle, loop,
  start, finish, search, push, walk_back,
}
use route_engine_cpp.Search.Queue.{length-push, All-push}
use route_engine_cpp.Search.Invariant.{done}
use route_engine_cpp.Double.Laws.{IsOrdered}
use route_engine_cpp.Search.Sound.{search-IsSound}
use route_engine_cpp.Search.Work.{work, work-set, work-start}

module _ {W : Type 0} (g : Graph W) where
  -- Of the counters, the length of the queue, the settled nodes, and the arcs still to examine.
  pub record Counted (t : SearchStats) (waiting expanded left : ℕ) : Type 0 where
    pub expansions : t.nodes_expanded ≡ expanded
    pub pops : t.pq_pops ≡ t.stale_pops + t.nodes_expanded
    pub pushes : t.pq_pushes ≡ t.relaxations + 1
    pub in_queue : t.pq_pushes ≡ t.pq_pops + waiting
    pub improvements : t.relaxations ≤ t.arcs_examined
    pub examined : t.arcs_examined + left ≤ arc_count g
    pub largest : waiting ≤ t.max_queue_size
    pub largest_bound : t.max_queue_size ≤ t.pq_pushes

  abbrev pub AreNodes : List (Entry W) → Type 0
  AreNodes queue = All (λ e. e.node < node_count g) queue

  -- The counters during the loop, with `left` arcs of the settled node still to examine.
  pub record IsCounted (left : ℕ) (s : State W) : Type 0 where
    pub size : length s.settled ≡ node_count g
    pub nodes : AreNodes s.queue
    pub counted : Counted s.stats (length s.queue) (count s.settled) (left + work g 0 s.settled)

module _ {W : Type 0} ⦃d : Double W⦄ (g : Graph W) (valid : IsValid g)
    (estimate : NodeId → Run W) where
  seen-Counted :
      (t : SearchStats) (waiting expanded more left : ℕ)
      → more ≡ suc left
      → Counted g t waiting expanded more
      → Counted g (record t { arcs_examined = incr t.arcs_examined }) waiting expanded left
  unfolding incr
  seen-Counted t waiting expanded more left e h = omega (arith, valid.few_arcs)

  improved-Counted :
      (t : SearchStats) (waiting expanded more left : ℕ)
      → more ≡ suc left
      → Counted g t waiting expanded more
      → Counted g
          (record t {
            arcs_examined = incr t.arcs_examined;
            relaxations = incr t.relaxations;
            pq_pushes = incr t.pq_pushes;
            max_queue_size = max t.max_queue_size (suc waiting);
          })
          (suc waiting)
          expanded
          left
  unfolding incr
  improved-Counted t waiting expanded more left e h = ground (arith, valid.few_arcs)

  relax-IsCounted :
      (u : NodeId) (c : W) (a : Arc W) (left : ℕ) (s : State W)
      → a.target < node_count g
      → IsCounted g (suc left) s
      → WhenOk (λ s'. IsCounted g left s' × (s'.settled ≡ s.settled)) (relax g estimate u c a s)
  unfolding relax
  relax-IsCounted u c a left s v_node inv =
      let seen : IsCounted g left
          (record s { stats = record s.stats { arcs_examined = incr s.stats.arcs_examined } }) =
        record {
          size = inv.size;
          nodes = inv.nodes;
          counted = seen-Counted s.stats _ _ _ _ (omega arith) inv.counted;
        } in
      elim (Bool-cases (done s.settled a.target)) [
        | inl old ↦ rw old (seen, refl)
        | inr fresh ↦
            elim (Bool-cases (d.lt (d.add c a.weight) (get_or s.distance a.target d.infinity))) [
              | inr worse ↦ rw (fresh, worse) (seen, refl)
              | inl better ↦
                  rw (fresh, better)
                    (WhenOk-bind (λ _. Unit) _ (estimate a.target) _
                      (WhenOk-any (estimate a.target))
                      λ h _. (
                        record {
                          size = inv.size;
                          nodes = All-push (λ e. e.node < node_count g) _ s.queue v_node inv.nodes;
                          counted =
                              rw (length-push {W = W} _ s.queue)
                                (improved-Counted s.stats _ _ _ _ (omega arith) inv.counted);
                        },
                        refl,
                      ))
            ]
      ]

  pub scan-IsCounted :
      (u : NodeId) (c : W) (arcs : List (Arc W)) (s : State W)
      → All (λ a. a.target < node_count g) arcs
      → IsCounted g (length arcs) s
      → WhenOk (IsCounted g 0) (scan g estimate u c arcs s)
  unfolding scan
  scan-IsCounted u c [] s fit inv = inv
  scan-IsCounted u c (a ∷ arcs) s fit inv =
      WhenOk-bind (λ s'. IsCounted g (length arcs) s' × (s'.settled ≡ s.settled)) (IsCounted g 0)
        (relax g estimate u c a s) (scan g estimate u c arcs)
        (relax-IsCounted u c a (length arcs) s fit.0 inv)
        λ s' (inv', _). scan-IsCounted u c arcs s' fit.1 inv'
