-- ===== src/Search/Sound.antt =====
-- `search` of src/search.cpp with any heuristic that returns: it ends, and a route that it returns is a
-- walk of the cost that it reports.
mod Rounds
use Rounds.{RoundEnds, round-Ends}
use mathlib.Core.List.{reverse-reverse, Memᴰ}
use route_engine_cpp.Shared.{
  count-le, ℕ, zero, suc, ◌+◌, ◌≤◌, ◌<◌, ◌≡◌, refl, sym, ap, subst, ◌∙◌, inl, inr, List, [], ◌∷◌,
  Bool, true, false, arith, length, length-reverse, reverse, set, All, All-self, ok, Run, Returns,
  Returns-bind, Returns-map, Returns-ok, ◌>>=◌, ◌==◌, ==_iff, Bool-cases, List-cases,
}
use route_engine_cpp.Double.{Double}
use route_engine_cpp.Double.Laws.{IsOrdered}
use route_engine_cpp.Types.{NodeId, Arc}
use route_engine_cpp.Graph.{Graph, node_count, arc_count, row}
use route_engine_cpp.Graph.Rows.{IsValid, arc-IsArcOf, arcs_from-ok}
use route_engine_cpp.Search.{
  State, SearchResult, SearchStatus, found, unreachable, Entry, Round, next, reached, relax, scan,
  round, loop, start, finish, search, push,
}
use route_engine_cpp.Search.Queue.{length-push}
use route_engine_cpp.Search.Walk.{Walk, Trail-Walk, walk_back-Trail}
use route_engine_cpp.Search.Invariant.{Grounded, IsGrounded, dist, done}
use route_engine_cpp.Search.Grounded.{
  improved-Grounded, improved-kept, stale-Grounded, settled_at, settle-Grounded,
}
use route_engine_cpp.Search.Start.{start-Grounded}
use route_engine_cpp.Search.Work.{rounds_left, work, work-set, work-start}

module _ {W : Type 0} ⦃d : Double W⦄ (g : Graph W) (src target : NodeId) where
  -- A route that is found is a walk of the cost that is reported, which is finite, through as many nodes
  -- as the graph has at most; otherwise there is no path, and the cost is infinity.
  abbrev pub IsSoundOf : SearchStatus → W → List NodeId → Type 0
  IsSoundOf found cost path =
      Walk g src (reverse path) target cost
      × (d.lt cost d.infinity ≡ true)
      × (length path ≤ node_count g)
  IsSoundOf unreachable cost path = (path ≡ []) × (cost ≡ d.infinity)

  abbrev pub IsSound : SearchResult W → Type 0
  IsSound r = IsSoundOf r.status r.cost r.path

module _ {W : Type 0} ⦃d : Double W⦄ (laws : IsOrdered W) (g : Graph W) (valid : IsValid g)
    (src : NodeId) (estimate : NodeId → Run W)
    (returns : (v : NodeId) → v < node_count g → Returns (λ _. Unit) (estimate v))
    (target : NodeId) where
  open d use {nought, infinity, add, lt}

  abbrev LoopEnds : Bool × State W → Type 0
  LoopEnds (true, s) = IsGrounded g src s × (done s.settled target ≡ true)
  LoopEnds (false, s) = Unit

  after_round :
      (fuel : ℕ) (s : State W)
      → ((s' : State W)
          → IsGrounded g src s'
          → rounds_left g s' < fuel
          → Returns LoopEnds (loop g estimate fuel target s'))
      → rounds_left g s < suc fuel
      → (r : Round W) → RoundEnds g src target s r
      → Returns LoopEnds
          (elim r [ next s' ↦ loop g estimate fuel target s' | reached s' ↦ ok (true, s') ])
  after_round fuel s again h (next s') (inv', less) = again s' inv' (omega arith)
  after_round fuel s again h (reached s') final = final

  loop-Ends :
      (fuel : ℕ) (s : State W)
      → IsGrounded g src s
      → rounds_left g s < fuel
      → Returns LoopEnds (loop g estimate fuel target s)
  unfolding loop
  loop-Ends zero s inv h = absurd (omega arith)
  loop-Ends (suc fuel) s inv h = elim (List-cases s.queue) [
    | inl empty ↦ rw (empty, loop) tt
    | inr (entry, rest, head) ↦
        rw (head, loop)
          (Returns-bind (RoundEnds g src target s) LoopEnds
            (round g estimate target entry (record s { queue = rest })) _
            (round-Ends laws g valid src estimate returns target s entry rest head inv)
            (after_round fuel s (loop-Ends fuel) h))
  ]

  finish-Ends :
      (end : Bool × State W)
      → LoopEnds end
      → Returns (IsSound g src target) (finish g estimate src target end)
  unfolding finish
  finish-Ends (false, s) h = (refl, refl)
  finish-Ends (true, s) (inv, h) =
      let ((path, trail, short), near) = inv.inner target h in
      let enough : length path ≤ node_count g =
        omega (arith, count-le s.settled, inv.settled_size) in
      rw (walk_back-Trail g src (done s.settled) s.parent (node_count g) trail enough) (
        subst (λ p. Walk g src p target (dist s.distance target)) (sym (reverse-reverse path))
            (Trail-Walk trail),
        near,
        omega (arith, length-reverse path),
      )

  module _ (src_node : src < node_count g) where
    start-Ends :
        Returns
          (λ s. IsGrounded g src s × (rounds_left g s < arc_count g + 2))
          (start g estimate src)
    unfolding start push
    start-Ends =
        let (h, e, _) = Returns-ok _ (estimate src) (returns src src_node) in
        simp e (start-Grounded laws g src src_node h, omega (arith, work-start g valid))

    -- On a valid graph `search` returns for any heuristic that returns at every node: a route that it
    -- finds is a walk of the finite cost that it reports, through as many nodes as the graph has at
    -- most, and without a route the path is empty and the cost infinity.
    pub search-IsSound : Returns (IsSound g src target) (search g estimate src target)
    unfolding search
    search-IsSound = Returns-bind _ _ (start g estimate src) _ start-Ends λ s (inv, enough).
        Returns-bind _ _ (loop g estimate (arc_count g + 2) target s) _
          (loop-Ends (arc_count g + 2) s inv enough) finish-Ends
