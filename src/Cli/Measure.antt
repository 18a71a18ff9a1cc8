-- ===== src/Cli/Measure.antt =====
-- `command_benchmark` of src/cli/main.cpp.
pub mod Outcomes
use route_engine_cpp.Shared.{
  ℕ, zero, suc, ◌||◌, ◌==◌, ltb, not, List, [], ◌∷◌, map, Bool, false, if◌then◌else◌, Option, none,
  some, Run, ok, ◌>>=◌, get_or,
}
use route_engine_cpp.Double.{Double}
use route_engine_cpp.Graph.{Graph, node_count, arc_count}
use route_engine_cpp.Csv.{load_files}
use route_engine_cpp.Fields.{Text, is_nil, codes}
use route_engine_cpp.Options.{
  Options, reject_unaccepted, Key, queries_key, repetitions_key, seed_key,
}
use route_engine_cpp.Benchmark.{AlgorithmSummary, BenchmarkReport, run_benchmark, blank_summary}
use route_engine_cpp.Benchmark.Queries.{make_query_pairs}
use route_engine_cpp.Benchmark.Median.{median_seconds}
use route_engine_cpp.Cli.{
  Machine, Exit, UsageError, options_missing, not_a_number, too_small, data_error, contract_error,
  benchmarked, SummaryLine, stop_if, value_or_stop, stop_on, usage, bad_options, parse_integer,
}

abbrev pub benchmark_keys : List Text
benchmark_keys =
    codes "--nodes"
    ∷ codes "--edges"
    ∷ codes "--queries"
    ∷ codes "--seed"
    ∷ codes "--repetitions"
    ∷ []

-- An option that the command needs is missing.
abbrev pub benchmark_incomplete : Options → Bool
benchmark_incomplete o =
    is_nil o.nodes || is_nil o.edges || is_nil o.queries || is_nil o.seed || is_nil o.repetitions

-- `parse_integer`, and the number is not zero.
abbrev pub positive : Option ℕ → Option ℕ
positive none = none
positive (some zero) = none
positive (some (suc n)) = some (suc n)

module _ {W : Type 0} ⦃d : Double W⦄ where
  open d use {nought, lt, div, of_nat}

  -- The table and the ratios; `baseline` is the first algorithm's.
  abbrev pub summary_line : W → AlgorithmSummary W → SummaryLine W
  summary_line baseline s = record {
    summary = s;
    median = median_seconds s;
    ratio = if lt nought baseline then div (of_nat s.stats.nodes_expanded) baseline else nought;
  }

  unfoldable pub print_benchmark : BenchmarkReport W → List (SummaryLine W)
  unfolding median_seconds
  print_benchmark r =
      let first = get_or r.algorithms 0 (blank_summary 0) in
      map (summary_line (of_nat first.stats.nodes_expanded)) r.algorithms

module _ {W : Type 0} ⦃d : Double W⦄ (m : Machine W) where
  -- From the query pairs on.
  unfoldable pub measure_graph : (queries repetitions seed : ℕ) → Graph W → Run (Exit W)
  unfolding make_query_pairs run_benchmark print_benchmark
  measure_graph queries repetitions seed g = do
    pairs ← make_query_pairs g seed queries
    report ← run_benchmark m.seconds g pairs repetitions
    ok (benchmarked (node_count g) (arc_count g) report (print_benchmark report))

  -- From `load_graph` on.
  unfoldable pub benchmark_files : Options → (queries repetitions seed : ℕ) → Run (Exit W)
  unfolding load_files measure_graph
  benchmark_files o queries repetitions seed = do
    g ← load_files m.from_chars m.open_file o.nodes o.edges
    stop_if (ltb (node_count g) 2) (ok (data_error (too_small o.nodes (node_count g)))) (
        stop_if (not g.metric.passes) (ok (contract_error g.metric.violating_arcs))
          (measure_graph queries repetitions seed g))

  unfoldable pub command_benchmark : Options → Run (Exit W)
  unfolding reject_unaccepted parse_integer benchmark_files
  command_benchmark o =
      stop_on (reject_unaccepted benchmark_keys false o) (λ e. usage (bad_options e))
        (stop_if (benchmark_incomplete o) (usage options_missing) (
          value_or_stop (positive (parse_integer 64 o.queries))
            (usage (not_a_number queries_key o.queries))
            λ queries.
              value_or_stop (positive (parse_integer 64 o.repetitions))
                (usage (not_a_number repetitions_key o.repetitions))
                λ repetitions.
                  value_or_stop (parse_integer 64 o.seed) (usage (not_a_number seed_key o.seed))
                    λ seed. benchmark_files o queries repetitions seed))
