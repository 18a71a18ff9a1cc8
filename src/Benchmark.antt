-- ===== src/Benchmark.antt =====
-- src/benchmark.cpp and include/route/benchmark.hpp: the comparison of the algorithms on one query set.
-- The clock is a parameter: the seconds that the pass of an algorithm takes in a repetition. The
-- number of repetitions is taken to be too small for `repetition + step` to wrap around.
pub mod Queries
pub mod Median
pub mod Rounding
pub mod Passes
use route_engine_cpp.Shared.{
  ℕ, zero, suc, ◌+◌, ◌%◌, max, List, [], ◌∷◌, ◌++◌, Bool, true, false, not, ◌&&◌, ◌||◌, ◌==◌,
  if◌then◌else◌, length, get_or, set, Run, ok, throw, ◌>>=◌, ◌>>◌, throw_if, graph_validation,
  heuristic_contract, benchmark_agreement, no_queries, no_repetitions,
}
use route_engine_cpp.Double.{Double}
use route_engine_cpp.Types.{NodeId, add_u64}
use route_engine_cpp.Graph.{Graph}
use route_engine_cpp.Search.{
  Algorithm, dijkstra_algorithm, astar_zero_algorithm, astar_euclidean_algorithm, SearchStatus,
  found, unreachable, SearchStats, SearchResult, is_found, run_search,
}

pub record QueryPair : Type 0 where
  pub source : NodeId
  pub target : NodeId

-- Totals of one algorithm; the counters are kept as the search counts them.
pub record AlgorithmSummary (W : Type 0) : Type 0 where
  pub algorithm : Algorithm
  pub stats : SearchStats
  pub repetition_seconds : List W

pub record BenchmarkReport (W : Type 0) : Type 0 where
  pub queries : ℕ
  pub repetitions : ℕ
  pub routes_found : ℕ
  pub algorithms : List (AlgorithmSummary W)

-- kBenchmarkAlgorithms, by index.
abbrev pub algorithm_at : ℕ → Algorithm
algorithm_at zero = dijkstra_algorithm
algorithm_at (suc zero) = astar_zero_algorithm
algorithm_at (suc (suc _)) = astar_euclidean_algorithm

abbrev pub same_bool : Bool → Bool → Bool
same_bool true b = b
same_bool false b = not b

-- The `+=` of each counter, and the maximum.
unfoldable pub accumulate : SearchStats → SearchStats → SearchStats
unfolding add_u64
accumulate summary stats = record {
  pq_pushes = add_u64 summary.pq_pushes stats.pq_pushes;
  pq_pops = add_u64 summary.pq_pops stats.pq_pops;
  stale_pops = add_u64 summary.stale_pops stats.stale_pops;
  nodes_expanded = add_u64 summary.nodes_expanded stats.nodes_expanded;
  arcs_examined = add_u64 summary.arcs_examined stats.arcs_examined;
  relaxations = add_u64 summary.relaxations stats.relaxations;
  max_queue_size = max summary.max_queue_size stats.max_queue_size;
}

unfoldable pub counters_match : SearchStats → SearchStats → Bool
counters_match lhs rhs =
    (lhs.nodes_expanded == rhs.nodes_expanded)
    && ((lhs.arcs_examined == rhs.arcs_examined)
        && ((lhs.relaxations == rhs.relaxations)
            && ((lhs.pq_pushes == rhs.pq_pushes)
                && ((lhs.pq_pops == rhs.pq_pops)
                    && ((lhs.stale_pops == rhs.stale_pops)
                        && (lhs.max_queue_size == rhs.max_queue_size))))))

abbrev pub no_counts : SearchStats
no_counts = record {
  pq_pushes = 0;
  pq_pops = 0;
  stale_pops = 0;
  nodes_expanded = 0;
  arcs_examined = 0;
  relaxations = 0;
  max_queue_size = 0;
}

module _ {W : Type 0} ⦃d : Double W⦄ where
  open d use {sub, mul, lt, le, abs, is_inf, of_nat, of_ratio}

  -- std::max of an initializer list keeps the first of the largest.
  abbrev larger : W → W → W
  larger a b = if lt a b then b else a

  unfoldable pub costs_agree : W → W → Bool
  costs_agree lhs rhs =
      let scale = larger (larger (of_nat 1) (abs lhs)) (abs rhs) in
      if is_inf lhs || is_inf rhs
      then is_inf lhs && is_inf rhs
      else le (abs (sub lhs rhs)) (mul (of_ratio 1 1_000_000_000) scale)

  abbrev pub run_query : Graph W → Algorithm → QueryPair → Run (SearchResult W)
  run_query g a query = run_search g query.source query.target a

  -- The first warm-up pass.
  unfoldable pub run_all : Graph W → Algorithm → List QueryPair → Run (List (SearchResult W))
  run_all g a [] = ok []
  run_all g a (query ∷ queries) = do
    result ← run_query g a query
    results ← run_all g a queries
    ok (result ∷ results)

  unfoldable pub count_found : List (SearchResult W) → ℕ
  count_found [] = 0
  count_found (r ∷ rs) = let rest = count_found rs in if is_found r.status then suc rest else rest

  -- The comparison of a result with the reference.
  unfoldable pub check_agreement : SearchResult W → SearchResult W → Run (Unit {0})
  unfolding costs_agree
  check_agreement result reference = do
    throw_if (not (same_bool (is_found result.status) (is_found reference.status)))
        benchmark_agreement
    throw_if (is_found result.status && not (costs_agree result.cost reference.cost))
        benchmark_agreement

  -- A later warm-up pass; the lists have one length.
  unfoldable pub compare_all :
      Graph W → Algorithm → List QueryPair → List (SearchResult W) → Run (Unit {0})
  unfolding check_agreement
  compare_all g a [] references = ok tt
  compare_all g a (query ∷ queries) [] = ok tt
  compare_all g a (query ∷ queries) (reference ∷ references) = do
    result ← run_query g a query
    check_agreement result reference
    compare_all g a queries references

  -- The timed loop over the queries.
  unfoldable pub run_pass : Graph W → Algorithm → List QueryPair → SearchStats → Run SearchStats
  unfolding accumulate
  run_pass g a [] total = ok total
  run_pass g a (query ∷ queries) total = do
    result ← run_query g a query
    run_pass g a queries (accumulate total result.stats)

  abbrev pub blank_summary : ℕ → AlgorithmSummary W
  blank_summary slot = record {
    algorithm = algorithm_at slot;
    stats = no_counts;
    repetition_seconds = [];
  }

  module _ (seconds : (repetition slot : ℕ) → W) (g : Graph W) (queries : List QueryPair) where
    -- One `step` of a repetition, for the algorithm in `slot`.
    unfoldable pub measure :
        (repetition slot : ℕ) → List (AlgorithmSummary W) → Run (List (AlgorithmSummary W))
    unfolding run_pass counters_match
    measure repetition slot algorithms = do
      total ← run_pass g (algorithm_at slot) queries no_counts
      let summary = get_or algorithms slot (blank_summary slot)
      throw_if (not (repetition == 0) && not (counters_match summary.stats total))
          benchmark_agreement
      let first : AlgorithmSummary W = record {
        algorithm = algorithm_at slot;
        stats = total;
        repetition_seconds = summary.repetition_seconds;
      }
      let kept = if repetition == 0 then first else summary
      ok (
          set algorithms slot (record kept {
            repetition_seconds = kept.repetition_seconds ++ seconds repetition slot ∷ [];
          }))

    -- The measured repetitions from `repetition`, with `rounds` to go; three steps each.
    unfoldable pub repeat_measure :
        (rounds repetition : ℕ) → List (AlgorithmSummary W) → Run (List (AlgorithmSummary W))
    unfolding measure
    repeat_measure zero repetition algorithms = ok algorithms
    repeat_measure (suc rounds) repetition algorithms = do
      algorithms ← measure repetition ((repetition + 0) % 3) algorithms
      algorithms ← measure repetition ((repetition + 1) % 3) algorithms
      algorithms ← measure repetition ((repetition + 2) % 3) algorithms
      repeat_measure rounds (repetition + 1) algorithms

    unfoldable pub run_benchmark : (repetitions : ℕ) → Run (BenchmarkReport W)
    unfolding run_all count_found compare_all repeat_measure
    run_benchmark repetitions = do
      throw_if (not g.metric.passes) (heuristic_contract g.metric.violating_arcs)
      throw_if (length queries == 0) (graph_validation no_queries)
      throw_if (repetitions == 0) (graph_validation no_repetitions)
      reference ← run_all g dijkstra_algorithm queries
      compare_all g astar_zero_algorithm queries reference
      compare_all g astar_euclidean_algorithm queries reference
      algorithms ←
          repeat_measure repetitions 0 (blank_summary 0 ∷ blank_summary 1 ∷ blank_summary 2 ∷ [])
      ok (record {
        queries = length queries;
        repetitions = repetitions;
        routes_found = count_found reference;
        algorithms = algorithms;
      })
