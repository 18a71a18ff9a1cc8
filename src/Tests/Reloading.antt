-- ===== src/Tests/Reloading.antt =====
-- The small network, written to two streams and read back.
use route_engine_cpp.Shared.{
  ◌<◌, ◌≡◌, refl, ap, true, [], ◌∷◌, arith, none, some, ok, Run, get_or, length,
}
use route_engine_cpp.Double.Extended.{Extended, extended_double, Extended-IsOrdered}
use route_engine_cpp.Types.{NodeId}
use route_engine_cpp.Graph
use route_engine_cpp.Graph.{Graph}
use route_engine_cpp.Builder.{Builder, build}
use route_engine_cpp.Fields.{Text, codes}
use route_engine_cpp.Fields.Plain.{IsField}
use route_engine_cpp.Generator.Write
use route_engine_cpp.Generator.Write.{Files, write_csv}
use route_engine_cpp.Csv.{load_graph}
use route_engine_cpp.Generator.Write.Decimals.{digits-decimal}
use route_engine_cpp.Reload.Nodes.{AreInverse, decimal-IsField}
use route_engine_cpp.Reload.RoundTrip.{fresh_files, load_graph-write_csv}
use route_engine_cpp.Tests.{what_is_left, shown, reached, network}
use route_engine_cpp.Random
use route_engine_cpp.Metric
use route_engine_cpp.Builder
use route_engine_cpp.Generator.{generate}
use route_engine_cpp.Reload.Generated.{load_graph-generate}
use route_engine_cpp.Tests.Generating.{two_sites}
use route_engine_cpp.Tests.Loading.{read_whole, whole}
use route_engine_cpp.Tests.Drawing.{plain}
use route_engine_cpp.Generator.Write.{decimal}

printed :
    (w : Extended)
    → extended_double.is_finite w ≡ true
    → (text : Text) × (plain w ≡ some text) × IsField text × (read_whole text ≡ some (w, []))
unfolding read_whole
printed none h = cc
printed (some n) h = (decimal n, refl, decimal-IsField n, ap whole (digits-decimal n))

plain-AreInverse : AreInverse plain read_whole
plain-AreInverse = record { printed = printed }

abbrev written : Run Files → Files
written (ok files) = files
written _ = fresh_files

network_files : Files
unfolding network write_csv Graph.arcs_from Graph.coordinate Graph.external_id
network_files = written (write_csv plain network fresh_files)

ids_differ :
    (u v : NodeId)
    → u < length shown.coordinates
    → v < length shown.coordinates
    → get_or shown.external_ids u 0 ≡ get_or shown.external_ids v 0
    → u ≡ v
unfolding shown
ids_differ u v h h' e = ground arith

load_graph-write_csv_example :
    load_graph read_whole network_files.nodes.written
      (codes "n")
      network_files.edges.written
      (codes "e")
    ≡ ok network
unfolding shown network network_files write_csv build Write.write_nodes Write.write_node
    Write.write_arcs Write.write_node_line Write.write_edge_line
load_graph-write_csv_example =
    load_graph-write_csv Extended-IsOrdered plain read_whole plain-AreInverse 4 shown reached
      (omega arith) ids_differ network (what_is_left (build shown)) refl network_files refl refl
      refl (codes "n") (codes "e")

-- What is generated on two sites.
two_nodes : Graph Extended
two_nodes = record {
  coordinates = record { x = some 0; y = some 0 } ∷ record { x = some 10; y = some 0 } ∷ [];
  external_ids = 1 ∷ 2 ∷ [];
  offsets = 0 ∷ 1 ∷ 2 ∷ [];
  arcs = record { target = 1; weight = some 10 } ∷ record { target = 0; weight = some 10 } ∷ [];
  metric = record {
    passes = true;
    violating_arcs = 0;
    first_violation_source = 0;
    first_violation_target = 0;
    worst_ratio = some 10;
  };
}

two_generated : generate two_sites ≡ ok two_nodes
unfolding two_nodes generate Random.next_unit Builder.make_builder Builder.set_node Builder.add_arc
    Builder.build Builder.sort Builder.count_sources Builder.sum_rows Graph.make_graph
    Metric.compute_metric_report
two_generated = refl

two_files : Files
unfolding two_nodes write_csv Graph.arcs_from Graph.coordinate Graph.external_id
two_files = written (write_csv plain two_nodes fresh_files)

load_graph-generate_example :
    load_graph read_whole two_files.nodes.written (codes "n") two_files.edges.written (codes "e")
    ≡ ok two_nodes
unfolding two_nodes two_files write_csv Write.write_nodes Write.write_node Write.write_arcs
    Write.write_node_line Write.write_edge_line
load_graph-generate_example =
    load_graph-generate Extended-IsOrdered plain read_whole plain-AreInverse two_sites (omega arith)
      (omega arith) two_nodes two_generated two_files refl refl refl (codes "n") (codes "e")
