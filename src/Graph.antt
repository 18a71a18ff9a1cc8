-- ===== src/Graph.antt =====
-- src/graph.cpp and include/route/graph.hpp: the immutable graph in compressed sparse row form.
pub mod Rows
pub mod Contract
use route_engine_cpp.Shared.{
  ℕ, ◌+◌, ◌-◌, ◌^◌, ◌%◌, List, Bool, not, ltb, length, get_or, take, drop, Run, ok, throw, ◌>>◌,
  ◌>>=◌, throw_if, out_of_range,
}
use route_engine_cpp.Double.{Double}
use route_engine_cpp.Types.{Coord, Arc, NodeId, ExternalId}
use route_engine_cpp.Metric.{MetricReport, compute_metric_report, no_coord}

pub record Graph (W : Type 0) : Type 0 where
  pub coordinates : List (Coord W)
  pub external_ids : List ExternalId
  pub offsets : List ℕ
  pub arcs : List (Arc W)
  pub metric : MetricReport W

-- `end - begin` on uint32_t.
abbrev pub sub_u32 : ℕ → ℕ → ℕ
sub_u32 a b = (a + 2 ^ 32 - b) % 2 ^ 32

module _ {W : Type 0} where
  abbrev pub node_count : Graph W → ℕ
  node_count g = length g.coordinates

  abbrev pub arc_count : Graph W → ℕ
  arc_count g = length g.arcs

  abbrev pub contains : Graph W → NodeId → Bool
  contains g id = ltb id (node_count g)

  -- The slice of the arc array that `arcs_from` returns.
  abbrev pub row : Graph W → NodeId → List (Arc W)
  row g id =
      let first = get_or g.offsets id 0 in
      let last = get_or g.offsets (id + 1) 0 in take (sub_u32 last first) (drop first g.arcs)

  unfoldable pub arcs_from : Graph W → NodeId → Run (List (Arc W))
  arcs_from g id = throw_if (not (contains g id)) out_of_range >> ok (row g id)

  unfoldable pub external_id : Graph W → NodeId → Run ExternalId
  external_id g id = throw_if (not (contains g id)) out_of_range >> ok (get_or g.external_ids id 0)

module _ {W : Type 0} ⦃d : Double W⦄ where
  -- The constructor: the metric report is computed once.
  unfoldable pub make_graph : List (Coord W) → List ExternalId → List ℕ → List (Arc W) → Graph W
  make_graph coordinates external_ids offsets arcs = record {
    coordinates = coordinates;
    external_ids = external_ids;
    offsets = offsets;
    arcs = arcs;
    metric = compute_metric_report coordinates offsets arcs;
  }

  unfoldable pub coordinate : Graph W → NodeId → Run (Coord W)
  coordinate g id =
      throw_if (not (contains g id)) out_of_range >> ok (get_or g.coordinates id no_coord)
