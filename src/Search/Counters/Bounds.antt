-- ===== src/Search/Counters/Bounds.antt =====
-- The counters of `search` (src/search.cpp): how they hang together at its end, and their bounds.
use route_engine_cpp.Shared.{
  count, count-le, count-replicate, count-set, ℕ, zero, suc, ◌+◌, ◌≤◌, ◌<◌, ◌≡◌, ap, ◌∙◌, inl, inr,
  List, ◌∷◌, Bool, true, false, arith, length, length-set, set, length-replicate, All-map, ok, Run,
  ◌==◌, Bool-cases, List-cases, WhenOk, WhenOk-bind, WhenOk-any, Returns-when, Returns,
}
use route_engine_cpp.Double.{Double}
use route_engine_cpp.Types.{NodeId, incr}
use route_engine_cpp.Graph.{Graph, node_count, arc_count, row}
use route_engine_cpp.Graph.Rows.{IsValid, row-IsArcOf, arcs_from-ok}
use route_engine_cpp.Search.{
  State, SearchStats, Entry, Round, next, reached, scan, round, loop, start, finish, search, push,
  walk_back,
}
use route_engine_cpp.Search.Invariant.{done}
use route_engine_cpp.Double.Laws.{IsOrdered}
use route_engine_cpp.Search.Sound.{search-IsSound}
use route_engine_cpp.Search.Work.{work, work-set, work-start}
use route_engine_cpp.Search.Counters.{Counted, AreNodes, IsCounted, scan-IsCounted}

module _ {W : Type 0} ⦃d : Double W⦄ (g : Graph W) (valid : IsValid g)
    (estimate : NodeId → Run W) where
  stale-Counted :
      (t : SearchStats) (waiting expanded left left' : ℕ)
      → left' ≡ left
      → Counted g t (suc waiting) expanded left
      → Counted g
          (record t { pq_pops = incr t.pq_pops; stale_pops = incr t.stale_pops })
          waiting
          expanded
          left'
  unfolding incr
  stale-Counted t waiting expanded left left' e h = omega (arith, valid.few_arcs)

  expanded-Counted :
      (t : SearchStats) (waiting expanded expanded' left left' : ℕ)
      → expanded' ≡ suc expanded
      → left' ≡ left
      → Counted g t (suc waiting) expanded left
      → Counted g
          (record t { pq_pops = incr t.pq_pops; nodes_expanded = incr t.nodes_expanded })
          waiting
          expanded'
          left'
  unfolding incr
  expanded-Counted t waiting expanded expanded' left left' e e' h = omega (arith, valid.few_arcs)

  weaken : (left : ℕ) (s : State W) → IsCounted g left s → IsCounted g 0 s
  weaken left s inv = record {
    size = inv.size;
    nodes = inv.nodes;
    counted = omega (arith, inv.counted.examined);
  }

  module _ (target : NodeId) where
    abbrev AfterRound : Round W → Type 0
    AfterRound (next s) = IsCounted g 0 s
    AfterRound (reached s) = IsCounted g 0 s

    round-IsCounted :
        (s : State W) (entry : Entry W) (rest : List (Entry W))
        → s.queue ≡ entry ∷ rest
        → IsCounted g 0 s
        → WhenOk AfterRound (round g estimate target entry (record s { queue = rest }))
    unfolding round
    round-IsCounted s entry rest head inv =
        let nodes : AreNodes g (entry ∷ rest) = rw head at inv.nodes in
        let full : Counted g s.stats (suc (length rest)) (count s.settled) (work g 0 s.settled) =
          omega (arith, ap length head) in
        elim (Bool-cases (done s.settled entry.node)) [
          | inl stale ↦ rw stale (record {
            size = inv.size;
            nodes = nodes.1;
            counted = stale-Counted s.stats _ _ _ _ (omega arith) full;
          })
          | inr fresh ↦
              let inside : entry.node < length s.settled = omega (arith, inv.size, nodes.0) in
              let more = count-set s.settled entry.node inside fresh in
              let less = work-set g s.settled entry.node inside fresh in
              let after : IsCounted g (length (row g entry.node)) (record s {
                settled = set s.settled entry.node true;
                queue = rest;
                stats = record s.stats {
                  pq_pops = incr s.stats.pq_pops;
                  nodes_expanded = incr s.stats.nodes_expanded;
                };
              }) =
                record {
                  size = length-set s.settled entry.node true ∙ inv.size;
                  nodes = nodes.1;
                  counted = expanded-Counted s.stats _ _ _ _ _ more (omega (arith, less)) full;
                } in
              rw fresh (elim (Bool-cases (entry.node == target)) [
                | inl hit ↦ rw hit (weaken _ _ after)
                | inr miss ↦
                    rw (miss, arcs_from-ok g valid entry.node nodes.0)
                      (WhenOk-bind (IsCounted g 0) AfterRound
                        (scan g estimate entry.node _ (row g entry.node) _) _
                        (scan-IsCounted g valid estimate entry.node _ (row g entry.node) _
                          (All-map (λ a h. h.0) (row g entry.node) (row-IsArcOf g valid entry.node))
                          after)
                        λ s' inv'. inv')
              ])
        ]

    loop-IsCounted :
        (fuel : ℕ) (s : State W)
        → IsCounted g 0 s
        → WhenOk (λ end. IsCounted g 0 end.1) (loop g estimate fuel target s)
    unfolding loop
    loop-IsCounted zero s inv = tt
    loop-IsCounted (suc fuel) s inv = elim (List-cases s.queue) [
      | inl empty ↦ rw (empty, loop) inv
      | inr (entry, rest, head) ↦
          rw (head, loop)
            (WhenOk-bind AfterRound _ (round g estimate target entry (record s { queue = rest })) _
              (round-IsCounted s entry rest head inv) (after_round (loop-IsCounted fuel)))
    ]
      where
        after_round :
            ((s' : State W)
              → IsCounted g 0 s'
              → WhenOk (λ end. IsCounted g 0 end.1) (loop g estimate fuel target s'))
            → (r : Round W) → AfterRound r
            → WhenOk
                (λ end. IsCounted g 0 end.1)
                (elim r [ next s' ↦ loop g estimate fuel target s' | reached s' ↦ ok (true, s') ])
        after_round again (next s') inv' = again s' inv'
        after_round again (reached s') inv' = inv'

-- What the counters of a result say of the search that they counted.
pub record IsTallied {W : Type 0} (g : Graph W) (t : SearchStats) : Type 0 where
  pub pops : t.pq_pops ≡ t.stale_pops + t.nodes_expanded
  pub pushes : t.pq_pushes ≡ t.relaxations + 1
  pub popped : t.pq_pops ≤ t.pq_pushes
  pub expanded : t.nodes_expanded ≤ node_count g
  pub improved : t.relaxations ≤ t.arcs_examined
  pub examined : t.arcs_examined ≤ arc_count g
  pub queued : t.max_queue_size ≤ t.pq_pushes

module _ {W : Type 0} ⦃d : Double W⦄ (laws : IsOrdered W) (g : Graph W) (valid : IsValid g)
    (src : NodeId) (estimate : NodeId → Run W) (target : NodeId) where
  finish-IsTallied :
      (end : Bool × State W)
      → IsCounted g 0 end.1
      → WhenOk (λ r. IsTallied g r.stats) (finish g estimate src target end)
  unfolding finish
  finish-IsTallied (false, s) inv = omega (arith, inv.counted.pops, count-le s.settled, inv.size)
  finish-IsTallied (true, s) inv =
      WhenOk-bind (λ _. Unit) _ (walk_back (node_count g) s.parent src target) _
        (WhenOk-any (walk_back (node_count g) s.parent src target))
        λ path _. omega (arith, inv.counted.pops, count-le s.settled, inv.size)

  start-IsCounted : src < node_count g → WhenOk (IsCounted g 0) (start g estimate src)
  unfolding start push incr
  start-IsCounted src_node =
      WhenOk-bind (λ _. Unit) (IsCounted g 0) (estimate src) _ (WhenOk-any (estimate src))
        λ h _. record {
          size = length-replicate (node_count g) false;
          nodes = (src_node, tt);
          counted = omega (arith, count-replicate (node_count g), work-start g valid);
        }

  search-WhenOk :
      src < node_count g → WhenOk (λ r. IsTallied g r.stats) (search g estimate src target)
  unfolding search
  search-WhenOk src_node =
      WhenOk-bind (IsCounted g 0) _ (start g estimate src) _ (start-IsCounted src_node) λ s inv.
        WhenOk-bind (λ end. IsCounted g 0 end.1) _ (loop g estimate (arc_count g + 2) target s) _
          (loop-IsCounted g valid estimate target (arc_count g + 2) s inv) finish-IsTallied

  -- On a valid graph and for any heuristic that returns at every node `search` returns, and its
  -- counters agree: every pop is stale or expands a node, every push but the first is a relaxation, as
  -- many entries are popped as were pushed at most, as many nodes are expanded and arcs examined as the
  -- graph has at most, and the largest queue had no more entries than were pushed.
  pub search-IsTallied :
      ((v : NodeId) → v < node_count g → Returns (λ _. Unit) (estimate v))
      → src < node_count g
      → Returns (λ r. IsTallied g r.stats) (search g estimate src target)
  search-IsTallied returns src_node =
      Returns-when _ (λ r. IsTallied g r.stats) (search g estimate src target)
        (search-IsSound laws g valid src estimate returns target src_node) (search-WhenOk src_node)
