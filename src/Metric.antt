-- ===== src/Metric.antt =====
-- src/metric.cpp and include/route/metric.hpp: the contract that Euclidean A* needs, checked over the
-- arrays of a graph. The reads are in range for the arrays of a built graph, so the defaults of
-- `get_or` are never seen.
use route_engine_cpp.Shared.{
  ℕ, zero, suc, ◌+◌, ◌-◌, List, Bool, true, false, not, ltb, ◌==◌, if◌then◌else◌, length, get_or,
}
use route_engine_cpp.Double.{Double}
use route_engine_cpp.Types.{Coord, Arc, NodeId, to_u32, incr}

pub record MetricReport (W : Type 0) : Type 0 where
  pub passes : Bool
  pub violating_arcs : ℕ
  pub first_violation_source : NodeId
  pub first_violation_target : NodeId
  pub worst_ratio : W

module _ {W : Type 0} ⦃d : Double W⦄ where
  open d use {nought, infinity, sub, div, lt, le, hypot}

  abbrev pub no_coord : Coord W
  no_coord = record { x = nought; y = nought }

  abbrev pub no_arc : Arc W
  no_arc = record { target = 0; weight = nought }

  abbrev pub initial_report : MetricReport W
  initial_report = record {
    passes = true;
    violating_arcs = 0;
    first_violation_source = 0;
    first_violation_target = 0;
    worst_ratio = infinity;
  }

  abbrev pub straight_line : Coord W → Coord W → W
  straight_line a b = hypot (sub b.x a.x) (sub b.y a.y)

  -- `if (!(arc.weight >= distance))`
  unfoldable pub note_violation : ℕ → Arc W → W → MetricReport W → MetricReport W
  unfolding incr
  note_violation source arc distance r =
      let counted = record r { passes = false; violating_arcs = incr r.violating_arcs } in
      if not (le distance arc.weight)
      then (if counted.violating_arcs == 1
          then record counted {
            first_violation_source = to_u32 source;
            first_violation_target = arc.target;
          }
          else counted)
      else r

  -- `if (distance > 0.0)`
  unfoldable pub note_ratio : Arc W → W → MetricReport W → MetricReport W
  note_ratio arc distance r =
      let ratio = div arc.weight distance in
      if lt nought distance
      then (if lt ratio r.worst_ratio then record r { worst_ratio = ratio } else r)
      else r

  -- One round of the inner loop.
  unfoldable pub check_arc : List (Coord W) → ℕ → MetricReport W → Arc W → MetricReport W
  unfolding note_violation note_ratio
  check_arc coordinates source r arc =
      let distance =
        straight_line (get_or coordinates source no_coord)
          (get_or coordinates arc.target no_coord) in
      note_ratio arc distance (note_violation source arc distance r)

  -- The inner loop from `k`, with `rounds` rounds to go.
  unfoldable pub check_row :
      List (Coord W) → List (Arc W) → ℕ → (rounds k : ℕ) → MetricReport W → MetricReport W
  unfolding check_arc
  check_row coordinates arcs source zero k r = r
  check_row coordinates arcs source (suc rounds) k r =
      check_row coordinates arcs source rounds (k + 1)
        (check_arc coordinates source r (get_or arcs k no_arc))

  -- The outer loop from `source`, with `rounds` rounds to go.
  unfoldable pub check_rows :
      List (Coord W) → List ℕ → List (Arc W) → (rounds source : ℕ) → MetricReport W → MetricReport W
  unfolding check_row
  check_rows coordinates offsets arcs zero source r = r
  check_rows coordinates offsets arcs (suc rounds) source r =
      let first = get_or offsets source 0 in
      let row_end = get_or offsets (source + 1) 0 in
      check_rows coordinates offsets arcs rounds (source + 1)
        (check_row coordinates arcs source (row_end - first) first r)

  unfoldable pub compute_metric_report : List (Coord W) → List ℕ → List (Arc W) → MetricReport W
  unfolding check_rows
  compute_metric_report coordinates offsets arcs =
      if ltb (length offsets) 2
      then initial_report
      else check_rows coordinates offsets arcs (length offsets - 1) 0 initial_report
