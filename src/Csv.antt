-- ===== src/Csv.antt =====
-- src/csv.cpp: the loader of the two files. A Reader is its name and the lines it still has to give
-- (`Fields.contents`); the unordered_map of ids is an association list; std::from_chars for a double is
-- a parameter that returns the number and the text behind it.
pub mod Nodes
pub mod Placed
pub mod Edges
pub mod Loads
pub mod Reads
use route_engine_cpp.Shared.{
  ℕ, zero, suc, ◌+◌, ◌≡◌, List, [], ◌∷◌, ◌++◌, map, Bool, true, false, not, ltb, leb, ◌==◌, ◌&&◌,
  if◌then◌else◌, Option, none, some, length, get_or, Run, ok, throw, out_of_fuel, ◌>>=◌, ◌>>◌,
  throw_if, required, Error, Reason, LoadReason, graph_validation, graph_load, cannot_be_opened,
  empty_file, bad_header, empty_field, bad_id, bad_x, bad_y, too_many_records, bad_source,
  bad_target, not_a_weight, weight_below_zero, field_count, duplicate_id, unknown_source,
  unknown_target, core,
}
use route_engine_cpp.Double.{Double}
use route_engine_cpp.Types.{Coord, NodeId, ExternalId, to_u32}
use route_engine_cpp.Metric.{no_coord}
use route_engine_cpp.Graph.{Graph}
use route_engine_cpp.Builder.{
  Builder, make_builder, set_node, add_arc, build, max_supported_node_count,
}
use route_engine_cpp.Fields.{
  Text, codes, is_nil, equals, split_fields, parse_external_id, lines, contents,
}

-- The lines that a Reader still gives, each with its number.
abbrev pub Rows : Type 0
Rows = List (ℕ × Text)

abbrev pub Index : Type 0
Index = List (ExternalId × NodeId)

pub record NodeRecord (W : Type 0) : Type 0 where
  pub external_id : ExternalId
  pub coordinate : Coord W
  pub line : ℕ

abbrev pub node_header : List Text
node_header = codes "id" ∷ codes "x" ∷ codes "y" ∷ []

abbrev pub edge_header : List Text
edge_header = codes "source" ∷ codes "target" ∷ codes "weight" ∷ []

-- Equality of the arrays of fields.
unfoldable pub same_fields : List Text → List Text → Bool
unfolding equals
same_fields [] [] = true
same_fields [] (_ ∷ _) = false
same_fields (_ ∷ _) [] = false
same_fields (f ∷ fs) (f' ∷ fs') = equals f f' && same_fields fs fs'

unfoldable pub expect_header : Text → List Text → Rows → Run Rows
unfolding same_fields
expect_header name expected [] = throw (graph_load name 0 empty_file)
expect_header name expected ((line, header) ∷ rows) = do
  throw_if (not (same_fields (split_fields header) expected)) (graph_load name line bad_header)
  ok rows

-- `next_row` on a line: its three fields.
abbrev three_fields : Text → ℕ → List Text → Run (Text × Text × Text)
three_fields name line (a ∷ b ∷ c ∷ []) = ok (a, b, c)
three_fields name line fields = throw (graph_load name line (field_count (length fields)))

unfoldable pub next_row : Text → ℕ → Text → Run (Text × Text × Text)
next_row name line content = do
  (a, b, c) ← three_fields name line (split_fields content)
  throw_if (is_nil a) (graph_load name line empty_field)
  throw_if (is_nil b) (graph_load name line empty_field)
  throw_if (is_nil c) (graph_load name line empty_field)
  ok (a, b, c)

-- `index.find`.
unfoldable pub find : ExternalId → Index → Option NodeId
find id [] = none
find id ((key, node) ∷ index) = let rest = find id index in if key == id then some node else rest

-- `catch (const GraphValidationError&)`, re-reported with a file and a line.
abbrev pub rethrow {ℓ} : {A : Type ℓ} → Text → ℕ → Run A → Run A
rethrow name line (ok a) = ok a
rethrow name line (throw (graph_validation r)) = throw (graph_load name line (core r))
rethrow name line (throw e) = throw e
rethrow name line out_of_fuel = out_of_fuel

module _ {W : Type 0} ⦃d : Double W⦄ where
  open d use {nought, lt, is_finite}

  abbrev pub no_record : NodeRecord W
  no_record = record { external_id = 0; coordinate = no_coord; line = 0 }

  module _ (from_chars : Text → Option (W × Text)) where
    unfoldable pub parse_number : Text → Option W
    parse_number field = if is_nil field then none else elim (from_chars field) [
      | none ↦ none
      | some (value, rest) ↦ if is_nil rest then some value else none
    ]

    -- A number that must be finite too.
    unfoldable pub finite_number : Text → Error → Run W
    unfolding parse_number
    finite_number field e = do
      value ← required (parse_number field) e
      throw_if (not (is_finite value)) e
      ok value

    -- One round of the loop of `read_nodes`.
    unfoldable pub read_node :
        Text → ℕ → Text → List (NodeRecord W) × Index → Run (List (NodeRecord W) × Index)
    unfolding next_row find finite_number
    read_node name line content (records, index) = do
      (id, x, y) ← next_row name line content
      external_id ← required (parse_external_id id) (graph_load name line bad_id)
      x ← finite_number x (graph_load name line bad_x)
      y ← finite_number y (graph_load name line bad_y)
      throw_if (leb max_supported_node_count (length records))
          (graph_load name line too_many_records)
      elim (find external_id index) [
        | some earlier ↦ throw (
            graph_load name line (duplicate_id external_id (get_or records earlier no_record).line))
        | none ↦
            let r : NodeRecord W = record {
              external_id = external_id;
              coordinate = record { x = x; y = y };
              line = line;
            } in
            ok (records ++ r ∷ [], (external_id, to_u32 (length records)) ∷ index)
      ]

    unfoldable pub read_node_rows :
        Text → Rows → List (NodeRecord W) × Index → Run (List (NodeRecord W) × Index)
    unfolding read_node
    read_node_rows name [] s = ok s
    read_node_rows name ((line, content) ∷ rows) s =
        read_node name line content s >>= read_node_rows name rows

    unfoldable pub read_nodes : Text → Text → Run (List (NodeRecord W) × Index)
    unfolding expect_header read_node_rows
    read_nodes file name = do
      rows ← expect_header name node_header (contents 0 (lines file))
      read_node_rows name rows ([], [])

    -- One round of the loop of `read_edges`.
    unfoldable pub read_edge : Text → Index → ℕ → Text → Builder W → Run (Builder W)
    unfolding next_row find finite_number
    read_edge name index line content b = do
      (source, target, weight) ← next_row name line content
      source_id ← required (parse_external_id source) (graph_load name line bad_source)
      target_id ← required (parse_external_id target) (graph_load name line bad_target)
      weight ← finite_number weight (graph_load name line not_a_weight)
      throw_if (lt weight nought) (graph_load name line weight_below_zero)
      source ← required (find source_id index) (graph_load name line (unknown_source source_id))
      target ← required (find target_id index) (graph_load name line (unknown_target target_id))
      rethrow name line (add_arc source target weight b)

    unfoldable pub read_edge_rows : Text → Index → Rows → Builder W → Run (Builder W)
    unfolding read_edge
    read_edge_rows name index [] b = ok b
    read_edge_rows name index ((line, content) ∷ rows) b =
        read_edge name index line content b >>= read_edge_rows name index rows

    unfoldable pub read_edges : Text → Text → Index → Builder W → Run (Builder W)
    unfolding expect_header read_edge_rows
    read_edges file name index b = do
      rows ← expect_header name edge_header (contents 0 (lines file))
      read_edge_rows name index rows b

  -- The loop over the records in `load_graph`, from index `i`.
  unfoldable pub set_nodes : Text → ℕ → List (NodeRecord W) → Builder W → Run (Builder W)
  set_nodes name i [] b = ok b
  set_nodes name i (r ∷ records) b =
      rethrow name r.line (set_node (to_u32 i) r.coordinate r.external_id b)
      >>= set_nodes name (i + 1) records

  -- The overload on streams.
  unfoldable pub load_graph :
      (from_chars : Text → Option (W × Text)) (nodes nodes_name edges edges_name : Text)
      → Run (Graph W)
  unfolding read_nodes set_nodes read_edges
  load_graph from_chars nodes nodes_name edges edges_name = do
    (records, index) ← read_nodes from_chars nodes nodes_name
    b ← make_builder (length records)
    b ← set_nodes nodes_name 0 records b
    b ← read_edges from_chars edges edges_name index b
    (g, _) ← rethrow edges_name 0 (build b)
    ok g

  -- The overload on paths, with what opening each file for reading gives.
  unfoldable pub load_files :
      (from_chars : Text → Option (W × Text)) (open_file : Text → Option Text)
      → Text
      → Text
      → Run (Graph W)
  unfolding load_graph
  load_files from_chars open_file nodes_path edges_path = do
    nodes ← required (open_file nodes_path) (graph_load nodes_path 0 cannot_be_opened)
    edges ← required (open_file edges_path) (graph_load edges_path 0 cannot_be_opened)
    load_graph from_chars nodes nodes_path edges edges_path
