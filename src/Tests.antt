-- ===== src/Tests.antt =====
-- The program run on a small network, and the theorems at this network. The numbers are
-- those of `Double.Extended`.
pub mod Loading
pub mod Comparison
pub mod Generating
pub mod Arguments
pub mod Drawing
pub mod Oracle
pub mod Reloading
pub mod Ordering
use route_engine_cpp.Shared.{
  ℕ, ◌*◌, ◌<◌, ◌≡◌, refl, [], ◌∷◌, true, false, arith, some, get_or, ok, throw, Run, Returns, ◌>>=◌,
  graph_validation, never_set, consumed,
}
use route_engine_cpp.Double.{◌≼◌}
use route_engine_cpp.Double.Extended.{Extended, extended_double, Extended-IsOrdered}
use route_engine_cpp.Types.{Coord, NodeId}
use route_engine_cpp.Metric
use route_engine_cpp.Metric.{initial_report}
use route_engine_cpp.Graph.Rows.{IsValid}
use route_engine_cpp.Search.{
  dijkstra, search, found, zero_estimate, push, require_valid, round, relax,
}
use route_engine_cpp.Graph
use route_engine_cpp.Graph.{Graph, node_count}
use route_engine_cpp.Builder
use route_engine_cpp.Builder.{Builder, make_builder, set_node, add_arc, build}
use route_engine_cpp.Types.{ExternalId}
use mathlib.Core.List.Memᴰ
use route_engine_cpp.Metric.{straight_line}
use route_engine_cpp.Graph.Contract.{
  Reports, violations, compute_metric_report-Reports, arc_line-le,
}
use route_engine_cpp.Search.Correct.{IsAnswer}
use route_engine_cpp.Search.EntryPoints.{dijkstra-IsAnswer}
use route_engine_cpp.Search.Sound.{IsSound, search-IsSound}
use route_engine_cpp.Builder.Invariant.{IsBuilding}
use route_engine_cpp.Builder.Result.{
  build-never_set, spent-Refuses, Reached, created, node_set, arc_added, IsBuilt, HasRows, Refuses,
  build-IsBuilt, Reached-IsBuilding,
}

abbrev at_x : ℕ → Coord Extended
at_x k = record { x = some k; y = some 0 }

-- Four nodes on a line; the way over node 1 is shorter than the direct arc, node 3 has no arcs.
abbrev staged : Run (Builder Extended)
staged = do
  b ← make_builder 4
  b ← set_node 0 (at_x 0) 10 b
  b ← set_node 1 (at_x 1) 11 b
  b ← set_node 2 (at_x 3) 12 b
  b ← set_node 3 (at_x 9) 13 b
  b ← add_arc 1 2 (some 2) b
  b ← add_arc 0 2 (some 4) b
  add_arc 0 1 (some 1) b

abbrev or_nothing : Run (Builder Extended) → Builder Extended
or_nothing (ok b) = b
or_nothing _ = record {
  coordinates = [];
  external_ids = [];
  assigned = [];
  staged = [];
  assigned_count = 0;
  is_consumed = false;
}

shown : Builder Extended
unfolding make_builder set_node add_arc
shown = or_nothing staged

reached : Reached 4 shown
unfolding make_builder set_node add_arc shown
reached =
    arc_added 0 1 (some 1)
      (arc_added 0 2 (some 4)
        (arc_added 1 2 (some 2)
          (node_set 3 (at_x 9) 13
            (node_set 2 (at_x 3) 12
              (node_set 1 (at_x 1) 11 (node_set 0 (at_x 0) 10 (created refl) refl) refl) refl)
            refl)
          refl)
        refl)
      refl

abbrev graph_of : Run (Graph Extended × Builder Extended) → Graph Extended
graph_of (ok (g, b)) = g
graph_of _ = record {
  coordinates = [];
  external_ids = [];
  offsets = [];
  arcs = [];
  metric = initial_report;
}

pub network : Graph Extended
unfolding shown build Builder.sort Builder.count_sources Builder.sum_rows Graph.make_graph
    Metric.compute_metric_report
network = graph_of (build shown)

Reached-IsBuilding_example : IsBuilding shown
Reached-IsBuilding_example = Reached-IsBuilding Extended-IsOrdered reached

build-IsBuilt_example : Returns (λ r. IsBuilt shown r × HasRows shown r.0) (build shown)
unfolding shown
build-IsBuilt_example = build-IsBuilt Extended-IsOrdered 4 shown reached refl

pub network-IsValid : IsValid network
unfolding network
network-IsValid = (build-IsBuilt Extended-IsOrdered 4 shown reached refl).0.valid

-- The way over node 1 is found, with one stale pop left in the queue at the `break`.
route_found :
    dijkstra network 0 2
    ≡ ok (record {
      status = found;
      cost = some 3;
      path = 0 ∷ 1 ∷ 2 ∷ [];
      stats = record {
        pq_pushes = 4;
        pq_pops = 3;
        stale_pops = 0;
        nodes_expanded = 3;
        arcs_examined = 3;
        relaxations = 3;
        max_queue_size = 2;
      };
    })
unfolding network dijkstra search zero_estimate push require_valid Graph.arcs_from round relax
route_found = refl

dijkstra-IsAnswer_example : Returns (IsAnswer network 0 3) (dijkstra network 0 3)
unfolding network
dijkstra-IsAnswer_example =
    dijkstra-IsAnswer Extended-IsOrdered network network-IsValid 0 3 (omega arith) (omega arith)

compute_metric_report-Reports_example :
    Reports
      (violations network)
      (Metric.compute_metric_report network.coordinates network.offsets network.arcs)
compute_metric_report-Reports_example = compute_metric_report-Reports network network-IsValid

arc_line-le_example : straight_line (at_x 0) (at_x 3) ≼ some 4
unfolding network
arc_line-le_example =
    arc_line-le network network-IsValid refl 0 2 (some 4) (Memᴰ.tail (Memᴰ.head refl))

empty_builder : Builder Extended
unfolding make_builder
empty_builder = or_nothing (make_builder 2)

build-never_set_example :
    (i : NodeId) × (build empty_builder ≡ throw (graph_validation (never_set i)))
    × (i < 2)
    × (get_or empty_builder.assigned i true ≡ false)
    × ((j : NodeId) → j < i → get_or empty_builder.assigned j false ≡ true)
unfolding empty_builder
build-never_set_example =
    build-never_set Extended-IsOrdered 2 empty_builder (created refl) (omega arith)

abbrev what_is_left : Run (Graph Extended × Builder Extended) → Builder Extended
what_is_left (ok (g, b)) = b
what_is_left _ = shown

spent-Refuses_example : Refuses (what_is_left (build shown))
unfolding network build shown
spent-Refuses_example = spent-Refuses shown network (what_is_left (build shown)) refl

-- A heuristic that is not consistent.
abbrev wild : NodeId → Run Extended
wild v = ok (some (100 * v))

search-IsSound_example : Returns (IsSound network 0 2) (search network wild 0 2)
unfolding network
search-IsSound_example =
    search-IsSound Extended-IsOrdered network network-IsValid 0 wild (λ v h. tt) 2 (omega arith)
