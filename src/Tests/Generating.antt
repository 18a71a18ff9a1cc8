-- ===== src/Tests/Generating.antt =====
-- The generator on a lattice of two sites, one unit apart.
use route_engine_cpp.Shared.{◌≡◌, refl, [], ◌∷◌, some, ok, ◌>>=◌}
use route_engine_cpp.Double.Extended.{Extended, extended_double}
use route_engine_cpp.Random
use route_engine_cpp.Builder
use route_engine_cpp.Graph
use route_engine_cpp.Metric
use route_engine_cpp.Graph.{arcs_from}
use route_engine_cpp.Generator.{GeneratorParams, generate}

abbrev pub two_sites : GeneratorParams Extended
two_sites = record {
  width = 2;
  height = 1;
  seed = 7;
  spacing = some 10;
  jitter = some 0;
  diagonal_rate = some 0;
}

arcs_generated :
    (generate two_sites >>= λ g. arcs_from g 0) ≡ ok (record { target = 1; weight = some 10 } ∷ [])
unfolding generate Random.next_unit Builder.make_builder Builder.set_node Builder.add_arc
    Builder.build Builder.sort Builder.count_sources Builder.sum_rows Graph.make_graph
    Metric.compute_metric_report Graph.arcs_from
arcs_generated = refl
