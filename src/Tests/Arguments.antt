-- ===== src/Tests/Arguments.antt =====
-- The command line on a machine with two small files, and its theorems there.
use route_engine_cpp.Shared.{
  ℕ, ◌≡◌, ◌⊎◌, ◌↔◌, refl, List, [], ◌∷◌, true, false, Option, none, some, All, Run, ok, Returns,
  Memᴰ,
}
use route_engine_cpp.Double.Extended.{Extended, extended_double, Extended-IsOrdered}
use route_engine_cpp.Fields.{Text, codes, equals}
use route_engine_cpp.Graph.{external_id}
use route_engine_cpp.Options.{
  Options, Key, no_options, parse, parsed, reject_unaccepted, get, key_text,
}
use route_engine_cpp.Options.Parse.{render, parse-render, reject_unaccepted_iff}
use route_engine_cpp.Cli.{Machine, Exit, exit_code, find_node, parse_integer, print_metric_report}
use route_engine_cpp.Graph.Contract.{violations}
use route_engine_cpp.Cli.Violations.{Described, print_metric_report-Returns}
use route_engine_cpp.Cli.Lookup.{FoundFrom, find_node-Returns}
use route_engine_cpp.Cli.Validate.{command_validate, validate_keys}
use route_engine_cpp.Cli.Validate.Outcomes.{Validates, command_validate-Validates}
use route_engine_cpp.Cli.Route.{command_route}
use route_engine_cpp.Cli.Route.Outcomes.{Routes, command_route-Routes}
use route_engine_cpp.Cli.Generate.{command_generate}
use route_engine_cpp.Cli.Generate.Overwrite.{IsFree, command_generate-IsFree}
use route_engine_cpp.Cli.Generate.Outcomes.{Completes, command_generate-Completes}
use route_engine_cpp.Cli.Main.{main}
use route_engine_cpp.Cli.Main.Exits.{IsExit}
use route_engine_cpp.Cli.Main.Rounding.{IsKnown, main-Exits}
use route_engine_cpp.Fields
use route_engine_cpp.Builder
use route_engine_cpp.Graph
use route_engine_cpp.Metric
use route_engine_cpp.Search
use route_engine_cpp.Tests.{network, network-IsValid}
use route_engine_cpp.Tests.Loading.{read_whole, shelf}
use route_engine_cpp.Tests.Drawing.{plain}

-- Only the file "old" exists.
abbrev machine : Machine Extended
machine = record {
  from_chars = read_whole;
  to_chars = plain;
  shown = λ x. [];
  open_file = shelf;
  lexically_normal = λ path. path;
  same_path = equals;
  exists = equals (codes "old");
  can_write = λ path. true;
  arrives = λ path text. true;
  seconds = λ repetition slot. some 0;
}

-- The options of each command.
abbrev files_only : Options
files_only = record no_options { nodes = codes "n"; edges = codes "e" }

abbrev one_route : Options
one_route = record files_only {
  from = codes "7";
  to = codes "8";
  algorithm = codes "astar-euclidean";
}

abbrev one_lattice : Options
one_lattice = record files_only {
  width = codes "2";
  height = codes "1";
  seed = codes "7";
  force = true;
}

abbrev one_benchmark : Options
one_benchmark = record files_only { queries = codes "2"; repetitions = codes "3"; seed = codes "7" }

parse-render_example : parse (render one_lattice) no_options ≡ parsed one_lattice
parse-render_example = parse-render one_lattice

reject_unaccepted_iff_example : (reject_unaccepted validate_keys false one_route ≡ none) ↔ (
    ((k : Key) → (get k one_route ≡ []) ⊎ Memᴰ (key_text k) validate_keys)
    × (false ≡ true → false ≡ true))
reject_unaccepted_iff_example = reject_unaccepted_iff validate_keys false one_route

find_node-Returns_example : Returns (FoundFrom network 12 0) (find_node network 12)
find_node-Returns_example = find_node-Returns network 12

print_metric_report-Returns_example :
    Returns
      (λ lines. Described network (violations network) lines.violation)
      (print_metric_report network)
print_metric_report-Returns_example = print_metric_report-Returns network network-IsValid

parsed_largest : parse_integer 32 (codes "4294967295") ≡ some 4_294_967_295
unfolding parse_integer
parsed_largest = refl

command_validate-Validates_example :
    Validates machine files_only (command_validate machine files_only)
command_validate-Validates_example =
    command_validate-Validates machine files_only Extended-IsOrdered

command_route-Routes_example : Routes machine one_route (command_route machine one_route)
command_route-Routes_example = command_route-Routes machine one_route Extended-IsOrdered

command_generate-IsFree_example :
    All (IsFree machine one_lattice) (command_generate machine one_lattice).opened
command_generate-IsFree_example = command_generate-IsFree machine one_lattice

command_generate-Completes_example :
    Completes machine one_lattice (command_generate machine one_lattice)
command_generate-Completes_example =
    command_generate-Completes machine one_lattice Extended-IsOrdered

abbrev route_arguments : List Text
route_arguments =
    codes "route"
    ∷ codes "--nodes"
    ∷ codes "n"
    ∷ codes "--edges"
    ∷ codes "e"
    ∷ codes "--from"
    ∷ codes "7"
    ∷ codes "--to"
    ∷ codes "8"
    ∷ codes "--algorithm"
    ∷ codes "dijkstra"
    ∷ []

main-Exits_example : Returns (IsExit IsKnown) (main machine route_arguments).end
main-Exits_example = main-Exits machine Extended-IsOrdered route_arguments

abbrev code_of : Run (Exit Extended) → Option ℕ
code_of (ok exit) = some (exit_code exit)
code_of _ = none

abbrev unknown_node : List Text
unknown_node =
    codes "route"
    ∷ codes "--nodes"
    ∷ codes "n"
    ∷ codes "--edges"
    ∷ codes "e"
    ∷ codes "--from"
    ∷ codes "7"
    ∷ codes "--to"
    ∷ codes "9"
    ∷ codes "--algorithm"
    ∷ codes "dijkstra"
    ∷ []

-- A route is found, and an unknown node is an error of the data.
codes_returned :
    (code_of (main machine route_arguments).end ≡ some 0)
    × (code_of (main machine unknown_node).end ≡ some 3)
unfolding main read_whole shelf Fields.lines Fields.contents Fields.split_fields
    Fields.parse_external_id Builder.make_builder Builder.set_node Builder.add_arc Builder.build
    Builder.sort Builder.count_sources Builder.sum_rows Graph.make_graph
    Metric.compute_metric_report Graph.arcs_from Search.dijkstra Search.search Search.zero_estimate
    Search.push Search.require_valid Search.round Search.relax external_id
codes_returned = (refl, refl)
