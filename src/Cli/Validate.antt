-- ===== src/Cli/Validate.antt =====
-- `command_validate` of src/cli/main.cpp.
pub mod Outcomes
use route_engine_cpp.Shared.{◌||◌, List, [], ◌∷◌, false, Run, ok, ◌>>=◌}
use route_engine_cpp.Double.{Double}
use route_engine_cpp.Graph.{node_count, arc_count}
use route_engine_cpp.Csv.{load_files}
use route_engine_cpp.Fields.{Text, is_nil, codes}
use route_engine_cpp.Options.{Options, reject_unaccepted}
use route_engine_cpp.Cli.{
  Machine, Exit, usage, bad_options, options_missing, validated, stop_if, stop_on,
  print_metric_report,
}

abbrev pub validate_keys : List Text
validate_keys = codes "--nodes" ∷ codes "--edges" ∷ []

module _ {W : Type 0} ⦃d : Double W⦄ (m : Machine W) where
  unfoldable pub command_validate : Options → Run (Exit W)
  unfolding load_files print_metric_report reject_unaccepted
  command_validate o =
      stop_on (reject_unaccepted validate_keys false o) (λ e. usage (bad_options e))
        (stop_if (is_nil o.nodes || is_nil o.edges) (usage options_missing) do
          g ← load_files m.from_chars m.open_file o.nodes o.edges
          lines ← print_metric_report g
          ok (validated (node_count g) (arc_count g) lines))
