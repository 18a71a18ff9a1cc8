-- ===== src/Search.antt =====
-- src/search.cpp, include/route/search.hpp and include/route/heuristic.hpp: the one search core and its
-- entry points. The priority queue is a list in the order in which HigherPriorityFirst pops. Reads of
-- the three vectors are in range (`Search.Invariant`), so the defaults of `get_or` are never seen.
mod Stats
pub mod Queue
pub mod Walk
pub mod Invariant
pub mod Relax
pub mod Scan
pub mod Settle
pub mod Work
pub mod Loop
pub mod Start
pub mod Correct
pub mod EntryPoints
pub mod Names
pub mod Grounded
pub mod Sound
pub mod Safe
pub mod Counters
pub use Stats.{SearchStats}
use Stats.{
  no_stats, count_push, count_pop, count_stale, count_expanded, count_arc, count_relaxation,
}
use route_engine_cpp.Shared.{
  ℕ, zero, suc, ◌+◌, max, List, [], ◌∷◌, reverse, Bool, true, false, not, ltb, ◌==◌, if◌then◌else◌,
  length, get_or, set, replicate, Run, ok, throw, out_of_fuel, ◌>>=◌, ◌>>◌, throw_if, out_of_range,
  heuristic_contract,
}
use route_engine_cpp.Double.{Double}
use route_engine_cpp.Types.{Coord, Arc, NodeId, to_u32, max_u32, incr}
use route_engine_cpp.Graph.{Graph, node_count, arc_count, contains, arcs_from, coordinate}
use route_engine_cpp.Metric.{straight_line}

pub data SearchStatus : Type 0 where
  found unreachable : SearchStatus

pub record SearchResult (W : Type 0) : Type 0 where
  pub status : SearchStatus
  pub cost : W
  pub path : List NodeId
  pub stats : SearchStats

-- `SearchResult::found`, of the status.
abbrev pub is_found : SearchStatus → Bool
is_found found = true
is_found unreachable = false

pub record Entry (W : Type 0) : Type 0 where
  pub priority : W
  pub node : NodeId

-- The local variables of `search`.
pub record State (W : Type 0) : Type 0 where
  pub distance : List W
  pub parent : List NodeId
  pub settled : List Bool
  pub queue : List (Entry W)
  pub stats : SearchStats

-- How a round of the loop ends: `break` with the target reached, or the next round.
pub data Round (W : Type 0) : Type 0 where
  next reached : State W → Round W

pub data Algorithm : Type 0 where
  dijkstra_algorithm astar_zero_algorithm astar_euclidean_algorithm : Algorithm

-- The parent sentinel kNoParent.
abbrev pub no_parent : NodeId
no_parent = max_u32

-- The walk over the parents, from `at` back to the source.
unfoldable pub walk_back : ℕ → List NodeId → NodeId → NodeId → Run (List NodeId)
walk_back zero parent source at = out_of_fuel
walk_back (suc fuel) parent source at =
    let rest = walk_back fuel parent source (get_or parent at no_parent) in
    if at == source then ok (at ∷ []) else (rest >>= λ path. ok (at ∷ path))

module _ {W : Type 0} ⦃d : Double W⦄ where
  open d use {nought, infinity, add, lt, eq}

  -- HigherPriorityFirst: `lhs` comes out of the queue after `rhs`.
  abbrev pub pops_after : Entry W → Entry W → Bool
  pops_after lhs rhs =
      if not (eq lhs.priority rhs.priority)
      then lt rhs.priority lhs.priority
      else ltb rhs.node lhs.node

  -- `queue.push`
  unfoldable pub push : Entry W → List (Entry W) → List (Entry W)
  push e [] = e ∷ []
  push e (x ∷ q) = if pops_after e x then x ∷ push e q else e ∷ x ∷ q

  unfoldable pub require_valid : Graph W → NodeId → Run (Unit {0})
  require_valid g id = throw_if (not (contains g id)) out_of_range

  -- A push of the search, with the counters.
  enqueue : Entry W → State W → State W
  unfolding count_push
  enqueue e s =
      let queue = push e s.queue in
      record s { queue = queue; stats = count_push (length queue) s.stats }

  -- A heuristic is given by its member `estimate`, which may throw.
  module _ (g : Graph W) (estimate : NodeId → Run W) where
    -- What a shorter distance to `target` changes.
    improve : NodeId → NodeId → W → State W → Run (State W)
    unfolding count_relaxation enqueue
    improve current target candidate s = do
      let improved = record s {
        distance = set s.distance target candidate;
        parent = set s.parent target (to_u32 current);
        stats = count_relaxation s.stats;
      }
      h ← estimate target
      ok (enqueue (record { priority = add candidate h; node = target }) improved)

    -- The body of the loop over the arcs of `current`.
    unfoldable pub relax : NodeId → W → Arc W → State W → Run (State W)
    unfolding count_arc improve
    relax current current_distance arc s =
        let seen = record s { stats = count_arc s.stats } in
        let candidate = add current_distance arc.weight in
        if get_or s.settled arc.target false
        then ok seen
        else if lt candidate (get_or s.distance arc.target infinity)
        then improve current arc.target candidate seen
        else ok seen

    unfoldable pub scan : NodeId → W → List (Arc W) → State W → Run (State W)
    scan current current_distance [] s = ok s
    scan current current_distance (arc ∷ arcs) s =
        relax current current_distance arc s >>= scan current current_distance arcs

    -- `settled[current] = 1` and what follows, for a node that was not settled.
    unfoldable pub settle : NodeId → NodeId → State W → Run (Round W)
    unfolding count_expanded scan
    settle target current s =
        let s' = record s {
          settled = set s.settled current true;
          stats = count_expanded s.stats;
        } in
        let rest : Run (Round W) = do
          arcs ← arcs_from g current
          s'' ← scan current (get_or s'.distance current infinity) arcs s'
          ok (next s'')
        in if current == target then ok (reached s') else rest

    -- A round of the `while` loop, once `entry` has left the queue.
    unfoldable pub round : NodeId → Entry W → State W → Run (Round W)
    unfolding count_pop count_stale settle
    round target entry s =
        let popped = record s { stats = count_pop s.stats } in
        if get_or s.settled entry.node false
        then ok (next (record popped { stats = count_stale popped.stats }))
        else settle target entry.node popped

    -- The `while` loop: whether the target was reached, and the variables at its end.
    unfoldable pub loop : ℕ → NodeId → State W → Run (Bool × State W)
    loop zero target s = out_of_fuel
    loop (suc fuel) target s = elim s.queue [
      | [] ↦ ok (false, s)
      | entry ∷ rest ↦ round target entry (record s { queue = rest }) >>= λ r. elim r [
        | next s' ↦ loop fuel target s'
        | reached s' ↦ ok (true, s')
      ]
    ]

    -- The variables before the loop.
    unfoldable pub start : NodeId → Run (State W)
    unfolding enqueue
    start source = do
      let n = node_count g
      let blank : State W = record {
        distance = set (replicate n infinity) source nought;
        parent = replicate n no_parent;
        settled = replicate n false;
        queue = [];
        stats = no_stats;
      }
      h ← estimate source
      ok (enqueue (record { priority = h; node = source }) blank)

    unfoldable pub finish : NodeId → NodeId → Bool × State W → Run (SearchResult W)
    unfolding walk_back
    finish source target (false, s) =
        ok (record { status = unreachable; cost = infinity; path = []; stats = s.stats })
    finish source target (true, s) = do
      path ← walk_back (node_count g) s.parent source target
      ok (record {
        status = found;
        cost = get_or s.distance target infinity;
        path = reverse path;
        stats = s.stats;
      })

    unfoldable pub search : NodeId → NodeId → Run (SearchResult W)
    unfolding start loop finish
    search source target = do
      s ← start source
      r ← loop (arc_count g + 2) target s
      finish source target r

  -- ZeroHeuristic::estimate and EuclideanHeuristic::estimate.
  unfoldable pub zero_estimate : NodeId → Run W
  zero_estimate _ = ok nought

  unfoldable pub euclidean_estimate : Graph W → Coord W → NodeId → Run W
  euclidean_estimate g target from = do
    position ← coordinate g from
    ok (straight_line position target)

  unfoldable pub dijkstra : Graph W → NodeId → NodeId → Run (SearchResult W)
  dijkstra g source target =
      require_valid g source >> (require_valid g target >> search g zero_estimate source target)

  unfoldable pub astar_zero : Graph W → NodeId → NodeId → Run (SearchResult W)
  astar_zero g source target =
      require_valid g source >> (require_valid g target >> search g zero_estimate source target)

  unfoldable pub astar_euclidean : Graph W → NodeId → NodeId → Run (SearchResult W)
  astar_euclidean g source target = do
    require_valid g source
    require_valid g target
    throw_if (not g.metric.passes) (heuristic_contract g.metric.violating_arcs)
    goal ← coordinate g target
    search g (euclidean_estimate g goal) source target

  unfoldable pub run_search : Graph W → NodeId → NodeId → Algorithm → Run (SearchResult W)
  run_search g source target dijkstra_algorithm = dijkstra g source target
  run_search g source target astar_zero_algorithm = astar_zero g source target
  run_search g source target astar_euclidean_algorithm = astar_euclidean g source target
