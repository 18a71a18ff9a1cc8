-- ===== src/Builder.antt =====
-- src/builder.cpp and include/route/builder.hpp: nodes and arcs are staged, validated, and turned into a
-- graph. `std::sort` is an insertion sort by the same comparison.
pub mod Invariant
pub mod Sort
pub mod Offsets
pub mod Build
pub mod Partition
pub mod Result
pub mod Canonical
pub mod Order
pub mod Unordered
use route_engine_cpp.Shared.{
  ℕ, zero, suc, ◌+◌, ◌-◌, List, [], ◌∷◌, ◌++◌, Bool, true, false, not, ltb, leb, ◌==◌,
  if◌then◌else◌, ◌&&◌, ◌||◌, length, get_or, set, replicate, map, foldl, Run, ok, throw, ◌>>=◌,
  ◌>>◌, throw_if, graph_validation, too_many_nodes, too_many_arcs, consumed, node_out_of_range,
  already_set, bad_coordinate, source_out_of_range, target_out_of_range, bad_weight,
  negative_weight, never_set,
}
use route_engine_cpp.Double.{Double}
use route_engine_cpp.Types.{Coord, Arc, NodeId, ExternalId, to_u32, max_u32}
use route_engine_cpp.Metric.{no_coord}
use route_engine_cpp.Graph.{Graph, make_graph}

-- max_supported_node_count and max_arc_count.
abbrev pub max_supported_node_count : ℕ
max_supported_node_count = max_u32

abbrev pub max_arc_count : ℕ
max_arc_count = max_u32

pub record StagedArc (W : Type 0) : Type 0 where
  pub source : NodeId
  pub target : NodeId
  pub weight : W

pub record Builder (W : Type 0) : Type 0 where
  pub coordinates : List (Coord W)
  pub external_ids : List ExternalId
  pub assigned : List Bool
  pub staged : List (StagedArc W)
  pub assigned_count : ℕ
  pub is_consumed : Bool

unfoldable pub validate_node_capacity : ℕ → Run (Unit {0})
validate_node_capacity n =
    throw_if (ltb max_supported_node_count n) (graph_validation too_many_nodes)

unfoldable pub validate_arc_capacity : ℕ → Run (Unit {0})
validate_arc_capacity n = throw_if (ltb max_arc_count n) (graph_validation too_many_arcs)

-- The `while` loop of `build` that looks for a node that was never set.
unfoldable pub first_unset : List Bool → ℕ
first_unset [] = 0
first_unset (true ∷ bs) = suc (first_unset bs)
first_unset (false ∷ bs) = 0

module _ {W : Type 0} where
  unfoldable pub require_not_consumed : Builder W → Run (Unit {0})
  require_not_consumed b = throw_if b.is_consumed (graph_validation consumed)

  -- `++offsets[source + 1]` for every staged arc.
  unfoldable pub count_sources : List (StagedArc W) → List ℕ → List ℕ
  count_sources [] offsets = offsets
  count_sources (a ∷ arcs) offsets =
      count_sources arcs (set offsets (a.source + 1) (to_u32 (get_or offsets (a.source + 1) 0 + 1)))

  -- The copy of the sorted arcs into the arc array.
  abbrev pub to_arc : StagedArc W → Arc W
  to_arc a = record { target = a.target; weight = a.weight }

-- `offsets[row + 1] += offsets[row]` from `row`, with `rounds` rounds to go.
unfoldable pub sum_rows : (rounds row : ℕ) → List ℕ → List ℕ
sum_rows zero row offsets = offsets
sum_rows (suc rounds) row offsets =
    sum_rows rounds (row + 1)
      (set offsets (row + 1) (to_u32 (get_or offsets (row + 1) 0 + get_or offsets row 0)))

module _ {W : Type 0} ⦃d : Double W⦄ where
  open d use {nought, lt, is_finite}

  -- The constructor.
  unfoldable pub make_builder : ℕ → Run (Builder W)
  unfolding validate_node_capacity
  make_builder node_count = do
    validate_node_capacity node_count
    ok (record {
      coordinates = replicate node_count no_coord;
      external_ids = replicate node_count 0;
      assigned = replicate node_count false;
      staged = [];
      assigned_count = 0;
      is_consumed = false;
    })

  unfoldable pub set_node : NodeId → Coord W → ExternalId → Builder W → Run (Builder W)
  unfolding require_not_consumed
  set_node id coordinate external_id b = do
    require_not_consumed b
    throw_if (leb (length b.coordinates) id) (graph_validation node_out_of_range)
    throw_if (get_or b.assigned id false) (graph_validation already_set)
    throw_if (not (is_finite coordinate.x) || not (is_finite coordinate.y))
        (graph_validation bad_coordinate)
    ok (record b {
      coordinates = set b.coordinates id coordinate;
      external_ids = set b.external_ids id external_id;
      assigned = set b.assigned id true;
      assigned_count = b.assigned_count + 1;
    })

  unfoldable pub add_arc : NodeId → NodeId → W → Builder W → Run (Builder W)
  unfolding require_not_consumed validate_arc_capacity
  add_arc source target weight b = do
    require_not_consumed b
    throw_if (leb (length b.coordinates) source) (graph_validation source_out_of_range)
    throw_if (leb (length b.coordinates) target) (graph_validation target_out_of_range)
    throw_if (not (is_finite weight)) (graph_validation bad_weight)
    throw_if (lt weight nought) (graph_validation negative_weight)
    validate_arc_capacity (length b.staged + 1)
    let arc : StagedArc W = record { source = source; target = target; weight = weight }
    ok (record b { staged = b.staged ++ arc ∷ [] })

  -- The comparison of the sort: (source, target, weight).
  unfoldable pub precedes : StagedArc W → StagedArc W → Bool
  precedes lhs rhs =
      if not (lhs.source == rhs.source)
      then ltb lhs.source rhs.source
      else if not (lhs.target == rhs.target)
      then ltb lhs.target rhs.target
      else lt lhs.weight rhs.weight

  unfoldable pub insert : StagedArc W → List (StagedArc W) → List (StagedArc W)
  insert a [] = a ∷ []
  insert a (b ∷ arcs) = if precedes b a then b ∷ insert a arcs else a ∷ b ∷ arcs

  unfoldable pub sort : List (StagedArc W) → List (StagedArc W)
  unfolding insert precedes
  sort [] = []
  sort (a ∷ arcs) = insert a (sort arcs)

  -- The graph, and the builder that is left: its vectors have been moved away or cleared.
  unfoldable pub build : Builder W → Run (Graph W × Builder W)
  unfolding require_not_consumed validate_arc_capacity
  build b = do
    require_not_consumed b
    throw_if (not (b.assigned_count == length b.coordinates))
        (graph_validation (never_set (first_unset b.assigned)))
    validate_arc_capacity (length b.staged)
    let staged = sort b.staged
    let nodes : ℕ = length b.coordinates
    let offsets = sum_rows nodes 0 (count_sources staged (replicate (nodes + 1) 0))
    ok (
      make_graph b.coordinates b.external_ids offsets (map to_arc staged),
      record b {
        coordinates = [];
        external_ids = [];
        assigned = [];
        staged = [];
        is_consumed = true;
      },
    )
