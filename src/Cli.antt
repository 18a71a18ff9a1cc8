-- ===== src/Cli.antt =====
-- src/cli/main.cpp: what its commands share. What a run prints and the exit code it returns with are
-- one value, an Exit; the environment is a parameter, a Machine.
pub mod Validate
pub mod Route
pub mod Generate
pub mod Measure
pub mod Main
pub mod Lookup
pub mod Input
pub mod Violations
use route_engine_cpp.Shared.{
  ℕ, zero, suc, ◌+◌, ◌^◌, ◌==◌, ltb, Bool, true, false, not, if◌then◌else◌, List, [], ◌∷◌, Option,
  none, some, Run, ok, throw, ◌>>=◌, Error, Reason, graph_validation, graph_load,
  heuristic_contract, out_of_range, benchmark_agreement, out_of_fuel,
}
use route_engine_cpp.Double.{Double}
use route_engine_cpp.Types.{NodeId, ExternalId, to_u32}
use route_engine_cpp.Graph.{Graph, node_count, external_id}
use route_engine_cpp.Search.{SearchStats, Algorithm}
use route_engine_cpp.Benchmark.{AlgorithmSummary, BenchmarkReport}
use route_engine_cpp.Fields.{Text, is_nil, digits}
use route_engine_cpp.Options.{Key, OptionError}
use route_engine_cpp.Generator.Write.{Files}

-- The library and the system: std::from_chars and std::to_chars on double, `operator<<` on it; what
-- opening a path for reading gives; std::filesystem; whether a file can be opened for writing, and
-- whether the text sent to it has arrived after the flush; the clock.
pub record Machine (W : Type 0) : Type 0 where
  pub from_chars : Text → Option (W × Text)
  pub to_chars : W → Option Text
  pub shown : W → Text
  pub open_file : Text → Option Text
  pub lexically_normal : Text → Text
  pub same_path : Text → Text → Bool
  pub exists : Text → Bool
  pub can_write : Text → Bool
  pub arrives : Text → Text → Bool
  pub seconds : (repetition slot : ℕ) → W

-- The messages of `usage_error`. The key is that of the option that the message names.
pub data UsageError : Type 0 where
  no_subcommand : UsageError
  unknown_subcommand unknown_algorithm same_files : Text → UsageError
  bad_options : OptionError → UsageError
  options_missing : UsageError
  not_a_number : Key → Text → UsageError
  bad_parameters : Reason → UsageError

-- The messages of `data_error`.
pub data DataError : Type 0 where
  unknown_node : ExternalId → Text → DataError
  already_exists not_writable write_failed : Text → DataError
  too_small : Text → ℕ → DataError

-- What `print_metric_report` prints: the count and the ends of the first violation, and the worst
-- ratio, if there is one.
pub record MetricLines (W : Type 0) : Type 0 where
  pub violation : Option (ℕ × ExternalId × ExternalId)
  pub worst_ratio : Option W

-- A line of the table of `print_benchmark`: the median of the times, and the expansions relative to
-- the first algorithm.
pub record SummaryLine (W : Type 0) : Type 0 where
  pub summary : AlgorithmSummary W
  pub median : W
  pub ratio : W

pub data Exit (W : Type 0) : Type 0 where
  usage_shown : Exit W
  validated : (nodes arcs : ℕ) → MetricLines W → Exit W
  route_found : Algorithm → (from to : ExternalId) → W → List ExternalId → SearchStats → Exit W
  route_missing : Algorithm → (from to : ExternalId) → SearchStats → Exit W
  generated : (nodes arcs : ℕ) → Files → MetricLines W → Exit W
  benchmarked : (nodes arcs : ℕ) → BenchmarkReport W → List (SummaryLine W) → Exit W
  usage_error : UsageError → Exit W
  data_error : DataError → Exit W
  contract_error : ℕ → Exit W
  caught : Error → Exit W

-- The code of each exception in `main`.
abbrev pub error_code : Error → ℕ
error_code (graph_load _ _ _) = 3
error_code (heuristic_contract _) = 4
error_code benchmark_agreement = 5
error_code (graph_validation _) = 3
error_code out_of_range = 3

abbrev pub exit_code : {W : Type 0} → Exit W → ℕ
exit_code usage_shown = 0
exit_code (validated _ _ _) = 0
exit_code (route_found _ _ _ _ _ _) = 0
exit_code (route_missing _ _ _ _) = 1
exit_code (generated _ _ _ _) = 0
exit_code (benchmarked _ _ _ _) = 0
exit_code (usage_error _) = 2
exit_code (data_error _) = 3
exit_code (contract_error _) = 4
exit_code (caught e) = error_code e

-- An unsigned integer of `bits` bits that takes up the whole text.
abbrev pub fits : ℕ → Option ℕ → Option ℕ
fits bits none = none
fits bits (some n) = if ltb n (2 ^ bits) then some n else none

unfoldable pub parse_integer : (bits : ℕ) → Text → Option ℕ
unfolding digits
parse_integer bits text = if is_nil text then none else fits bits (digits 0 text)

unfoldable pub parse_real {ℓ} : {W : Type ℓ} → (Text → Option (W × Text)) → Text → Option W
parse_real from_chars text = elim (from_chars text) [
  | none ↦ none
  | some (value, rest) ↦ if is_nil rest then some value else none
]

-- Early returns from a command: on a test, without a value, and on what `reject_unaccepted` finds.
abbrev pub stop_if : {R : Type 0} → Bool → R → R → R
stop_if true exit rest = exit
stop_if false exit rest = rest

abbrev pub value_or_stop : {A R : Type 0} → Option A → R → (A → R) → R
value_or_stop none exit rest = exit
value_or_stop (some a) exit rest = rest a

abbrev pub stop_on : {R : Type 0} → Option OptionError → (OptionError → R) → R → R
stop_on none exit rest = rest
stop_on (some e) exit rest = exit e

module _ {W : Type 0} where
  abbrev pub usage : UsageError → Run (Exit W)
  usage e = ok (usage_error e)

  -- The loop over the nodes from `i`, with `rounds` to go.
  unfoldable pub find_from : Graph W → ExternalId → (rounds i : ℕ) → Run (Option NodeId)
  find_from g id zero i = ok none
  find_from g id (suc rounds) i = do
    found ← external_id g i
    let rest = find_from g id rounds (i + 1)
    if found == id then ok (some i) else rest

  unfoldable pub find_node : Graph W → ExternalId → Run (Option NodeId)
  unfolding find_from
  find_node g id = find_from g id (node_count g) 0

module _ {W : Type 0} ⦃d : Double W⦄ where
  unfoldable pub print_metric_report : Graph W → Run (MetricLines W)
  print_metric_report g = do
    let worst = g.metric.worst_ratio
    let ratio = if d.eq worst d.infinity then none else some worst
    let violated : Run (MetricLines W) = do
      source ← external_id g g.metric.first_violation_source
      target ← external_id g g.metric.first_violation_target
      ok (record {
        violation = some (g.metric.violating_arcs, source, target);
        worst_ratio = ratio;
      })
    if g.metric.passes then ok (record { violation = none; worst_ratio = ratio }) else violated
