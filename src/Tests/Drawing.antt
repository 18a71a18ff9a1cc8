-- ===== src/Tests/Drawing.antt =====
-- The random draws, the names of the algorithms, the ids and the writer, at concrete inputs.
use route_engine_cpp.Shared.{◌≡◌, ◌<◌, ◌^◌, ◌↔◌, [], arith, Option, none, some, false, All, Returns}
use route_engine_cpp.Double.Extended.{Extended, extended_double}
use route_engine_cpp.Graph.{node_count}
use route_engine_cpp.Fields.{Text, codes, is_nil, parse_external_id}
use route_engine_cpp.Fields.Ids.{IsDigit, place_value, parse_external_id_iff}
use route_engine_cpp.Random.{next_below}
use route_engine_cpp.Random.Below.{next_below-Returns}
use route_engine_cpp.Search.{astar_zero_algorithm}
use route_engine_cpp.Search.Names.{parse_algorithm, algorithm_name, parse_algorithm_iff}
use route_engine_cpp.Benchmark.Queries.{make_query_pairs, Draws, make_query_pairs-Draws}
use route_engine_cpp.Generator.Write.{Files, decimal, write_csv}
use route_engine_cpp.Generator.Write.Lines.{BothSent, node_file, edge_file, write_csv-Returns}
use route_engine_cpp.Tests.{network, network-IsValid}

next_below-Returns_example : Returns (λ (value, _). value < 6) (next_below 6 1)
next_below-Returns_example = next_below-Returns 6 1 (omega arith)

parse_algorithm_iff_example :
    (parse_algorithm (codes "astar-zero") ≡ some astar_zero_algorithm)
    ↔ (codes "astar-zero" ≡ algorithm_name astar_zero_algorithm)
parse_algorithm_iff_example = parse_algorithm_iff (codes "astar-zero") astar_zero_algorithm

make_query_pairs-Draws_example : Draws (node_count network) 3 (make_query_pairs network 1 3)
unfolding network
make_query_pairs-Draws_example = make_query_pairs-Draws network (omega arith) 1 3

-- Tenths, without a point.
abbrev pub plain : Extended → Option Text
plain none = none
plain (some n) = some (decimal n)

abbrev empty_files : Files
empty_files = record {
  nodes = record { written = []; failed = false };
  edges = record { written = []; failed = false };
}

write_csv-Returns_example :
    Returns
      (BothSent plain network (node_file plain network) (edge_file plain network) empty_files)
      (write_csv plain network empty_files)
write_csv-Returns_example = write_csv-Returns plain network network-IsValid empty_files

parse_external_id_iff_example : (parse_external_id (codes "1907") ≡ some 1907) ↔ (
    (is_nil (codes "1907") ≡ false)
    × All IsDigit (codes "1907")
    × (place_value (codes "1907") ≡ 1907)
    × (1907 < 2 ^ 64))
parse_external_id_iff_example = parse_external_id_iff (codes "1907") 1907
