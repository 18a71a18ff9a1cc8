-- ===== src/Search/Loop.antt =====
-- The `while` loop of `search` (src/search.cpp): it ends within its fuel, and what holds at its end.
mod Rounds
pub use Rounds.{IsOpen, IsFinal}
use Rounds.{RoundEnds, round-Returns}
use route_engine_cpp.Shared.{
  ℕ, zero, suc, ◌+◌, ◌<◌, ◌≡◌, ◌≢◌, refl, sym, ap, subst, ◌∙◌, inl, inr, List, [], ◌∷◌, Bool, true,
  false, arith, length, set, All-get, All-self, ok, Run, Returns, Returns-bind, ◌>>=◌, ◌==◌, ==_iff,
  Bool-cases, List-cases, eq_or_ne,
}
use route_engine_cpp.Double.{Double, ◌≼◌}
use route_engine_cpp.Double.Laws.{IsOrdered, le_between}
use route_engine_cpp.Types.{NodeId, Arc}
use route_engine_cpp.Graph.{Graph, node_count, row}
use route_engine_cpp.Graph.Rows.{IsValid, IsArc, arcs_from-ok}
use route_engine_cpp.Search.{State, SearchStats, Entry, Round, next, reached, round, loop, scan}
use route_engine_cpp.Search.Invariant.{
  IsConsistent, Frontier, IsFrontier, IsClosed, dist, done, priority_at,
}
use route_engine_cpp.Search.Scan.{Scanned, IsCurrent, AreRelaxed, scan-Returns}
use route_engine_cpp.Search.Grounded.{settled_at, settled_other}
use route_engine_cpp.Search.Settle.{stale-Frontier, settle-Frontier, settle-last}
use route_engine_cpp.Search.Work.{rounds_left, work, work-set}

module _ {W : Type 0} ⦃d : Double W⦄ (laws : IsOrdered W) (g : Graph W) (valid : IsValid g)
    (src : NodeId) (estimate : NodeId → Run W) (value : NodeId → W)
    (heuristic : IsConsistent g estimate value) (target : NodeId) where
  open d use {nought, infinity, add, lt}

  abbrev pub LoopEnds : Bool × State W → Type 0
  LoopEnds (true, s) = IsFinal laws g valid src estimate value heuristic target s
  LoopEnds (false, s) = IsOpen laws g valid src estimate value heuristic target s × (s.queue ≡ [])

  -- With fuel for the rounds that are left the loop ends, by its `break` or with an empty queue.
  pub loop-Returns :
      (fuel : ℕ) (s : State W)
      → IsOpen laws g valid src estimate value heuristic target s
      → rounds_left g s < fuel
      → Returns LoopEnds (loop g estimate fuel target s)
  unfolding loop
  loop-Returns zero s inv h = absurd (omega arith)
  loop-Returns (suc fuel) s inv h = elim (List-cases s.queue) [
    | inl empty ↦ rw (empty, loop) (inv, empty)
    | inr (entry, rest, head) ↦
        rw (head, loop)
          (Returns-bind (RoundEnds laws g valid src estimate value heuristic target s) LoopEnds
            (round g estimate target entry (record s { queue = rest })) _
            (round-Returns laws g valid src estimate value heuristic target s entry rest head inv)
            (after_round (loop-Returns fuel)))
  ]
    where
      after_round :
          ((s' : State W)
            → IsOpen laws g valid src estimate value heuristic target s'
            → rounds_left g s' < fuel
            → Returns LoopEnds (loop g estimate fuel target s'))
          → (r : Round W) → RoundEnds laws g valid src estimate value heuristic target s r
          → Returns LoopEnds
              (elim r [ next s' ↦ loop g estimate fuel target s' | reached s' ↦ ok (true, s') ])
      after_round again (next s') (inv', less) = again s' inv' (omega arith)
      after_round again (reached s') final = final
