-- ===== src/Csv/Loads/Described.antt =====
-- The two passes of `load_graph` (src/csv.cpp): the nodes and the arcs that the lines describe, and the
-- graph that is built of them.
use route_engine_cpp.Shared.{
  ℕ, ◌<◌, ◌≡◌, refl, ap, sym, ◌∙◌, subst, List, [], ◌∷◌, map, true, not, arith, Option, length,
  get_or, Run, ok, throw, out_of_fuel, ◌++◌, ◌>>=◌, Returns-ok, Ends, Ends-bind, Ends-map,
  Ends-errors, Ends-throw_if, Both, ◌⊎◌, inr, Error, empty_file, bad_header,
}
use route_engine_cpp.Double.{Double}
use route_engine_cpp.Double.Laws.{IsOrdered}
use route_engine_cpp.Types.{NodeId}
use route_engine_cpp.Metric.{no_coord}
use route_engine_cpp.Graph.{Graph, node_count, coordinate, external_id, arcs_from}
use route_engine_cpp.Graph.Rows.{IsValid, coordinate-ok, external_id-ok}
use route_engine_cpp.Builder.{Builder, StagedArc, build, sort, to_arc}
use route_engine_cpp.Builder.Partition.{outgoing}
use route_engine_cpp.Builder.Result.{IsBuilt, build-Returns}
use route_engine_cpp.Fields.{Text, lines, contents, split_fields}
use route_engine_cpp.Csv.{
  Rows, Index, NodeRecord, node_header, edge_header, same_fields, expect_header, no_record,
  read_nodes, read_edges, read_node_rows, find, read_edge_rows, rethrow,
}
use route_engine_cpp.Csv.Nodes.{IsAbout, IsNodeLine, IsIndexed, none-IsIndexed, read_node_rows-Ends}
use route_engine_cpp.Csv.Placed.{IsPlaced}
use route_engine_cpp.Csv.Edges.{IsEdgeLine, IsExtended, read_edge_rows-Ends}

-- The file has the header as its first line that counts, and then these lines.
abbrev pub IsHeaded : Text → List Text → Rows → Type 0
IsHeaded file header rows =
    (first : ℕ × Text) × (contents 0 (lines file) ≡ first ∷ rows)
    × (same_fields (split_fields first.1) header ≡ true)

expect_header-Ends :
    (name : Text) (header : List Text) (all : Rows)
    → Ends
        (IsAbout name)
        (λ rows.
          (first : ℕ × Text) × (all ≡ first ∷ rows)
          × (same_fields (split_fields first.1) header ≡ true))
        (expect_header name header all)
unfolding expect_header
expect_header-Ends name header [] = (0, empty_file, refl)
expect_header-Ends name header ((line, content) ∷ rows) =
    Ends-throw_if _ _ (not (same_fields (split_fields content) header)) _ (ok rows)
      (line, bad_header, refl) λ same. ((line, content), refl, ground arith)

module _ {W : Type 0} ⦃d : Double W⦄ (from_chars : Text → Option (W × Text)) where
  -- The graph of two files: the lines after the headers describe its nodes, whose external ids are
  -- distinct, and the arcs of each node.
  pub record IsLoaded (nodes edges : Text) (g : Graph W) : Type 0 where
    pub records : List (NodeRecord W)
    pub arcs : List (StagedArc W)
    pub node_rows : Rows
    pub edge_rows : Rows
    pub nodes_headed : IsHeaded nodes node_header node_rows
    pub edges_headed : IsHeaded edges edge_header edge_rows
    pub nodes_described : Both (IsNodeLine from_chars) node_rows records
    pub edges_described : Both (IsEdgeLine from_chars records) edge_rows arcs
    pub valid : IsValid g
    pub size : node_count g ≡ length records
    pub node :
        (v : NodeId)
        → v < node_count g
        → (coordinate g v ≡ ok (get_or records v no_record).coordinate)
          × (external_id g v ≡ ok (get_or records v no_record).external_id)
    pub distinct :
        (u v : NodeId)
        → u < node_count g
        → v < node_count g
        → external_id g u ≡ external_id g v
        → u ≡ v
    pub rows :
        (v : NodeId) → v < node_count g → arcs_from g v ≡ ok (map to_arc (outgoing v (sort arcs)))

abbrev pub value_or : {A : Type 0} → A → Run A → A
value_or a (ok b) = b
value_or a (throw e) = a
value_or a out_of_fuel = a

pub ok-eq : {A : Type 0} {a b : A} → ok a ≡ ok b → a ≡ b
ok-eq {a} e = ap (λ r. value_or a r) e

ids_differ :
    {W : Type 0} ⦃d : Double W⦄ (from_chars : Text → Option (W × Text))
    (records : List (NodeRecord W)) (index : Index)
    → IsIndexed from_chars records index
    → (u v : NodeId) → u < length records
    → v < length records
    → (get_or records u no_record).external_id ≡ (get_or records v no_record).external_id
    → u ≡ v
ids_differ from_chars records index inv u v hu hv e =
    let found = sym (inv.held u hu) ∙ (ap (λ id. find id index) e ∙ inv.held v hv) in
    ground (arith, found)

module _ {W : Type 0} ⦃d : Double W⦄ (laws : IsOrdered W)
    (from_chars : Text → Option (W × Text)) where
  pub read_nodes-Ends :
      (file name : Text)
      → Ends
          (IsAbout name)
          (λ s.
            (rows : Rows) × IsHeaded file node_header rows
            × Both (IsNodeLine from_chars) rows s.0
            × IsIndexed from_chars s.0 s.1)
          (read_nodes from_chars file name)
  unfolding read_nodes
  read_nodes-Ends file name =
      Ends-bind _ _ _ (expect_header name node_header (contents 0 (lines file))) _
        (expect_header-Ends name node_header (contents 0 (lines file)))
        λ rows headed.
          Ends-map _ _ _ (read_node_rows from_chars name rows ([], []))
            (read_node_rows-Ends from_chars name rows [] [] (none-IsIndexed from_chars))
            λ s (added, e, both, indexed).
              (rows, headed, subst (Both (IsNodeLine from_chars) rows) (sym e) both, indexed)

  module _ (nodes nodes_name edges edges_name : Text) where
    abbrev pub IsLoadError : Error → Type 0
    IsLoadError e = IsAbout nodes_name e ⊎ IsAbout edges_name e

    module _ (records : List (NodeRecord W)) (index : Index)
        (indexed : IsIndexed from_chars records index) (node_rows : Rows)
        (nodes_headed : IsHeaded nodes node_header node_rows)
        (nodes_described : Both (IsNodeLine from_chars) node_rows records) (b : Builder W)
        (placed : IsPlaced laws records (length records) b) where
      built-IsLoaded :
          (edge_rows : Rows) (arcs : List (StagedArc W))
          → IsHeaded edges edge_header edge_rows
          → Both (IsEdgeLine from_chars records) edge_rows arcs
          → (b' : Builder W) → IsExtended b arcs b'
          → (r : Graph W × Builder W) → IsBuilt b' r
          → IsLoaded from_chars nodes edges r.0
      built-IsLoaded edge_rows arcs edges_headed edges_described b' extended r built =
          let coords = built.coordinates_kept ∙ extended.same_nodes in
          let ids = built.ids_kept ∙ extended.same_ids in
          let staged = extended.arcs_added ∙ ap (λ s. s ++ arcs) placed.no_arcs in
          let total : node_count r.0 ≡ length records = ap length coords ∙ placed.size in
          let id : (v : NodeId)
              → v < node_count r.0
              → external_id r.0 v ≡ ok (get_or records v no_record).external_id =
            λ v h.
              external_id-ok r.0 v h
              ∙ ap ok (ap (λ is. get_or is v 0) ids ∙ (placed.placed v (omega arith)).1) in
          record {
            records = records;
            arcs = arcs;
            node_rows = node_rows;
            edge_rows = edge_rows;
            nodes_headed = nodes_headed;
            edges_headed = edges_headed;
            nodes_described = nodes_described;
            edges_described = edges_described;
            valid = built.valid;
            size = total;
            node = λ v h. (
              coordinate-ok r.0 v h
                  ∙ ap ok
                      (ap (λ cs. get_or cs v no_coord) coords ∙ (placed.placed v (omega arith)).0),
              id v h,
            );
            distinct = λ u v hu hv e.
                ids_differ from_chars records index indexed u v (omega arith) (omega arith)
                  (ok-eq (sym (id u hu) ∙ (e ∙ id v hv)));
            rows = λ v h.
                built.rows v (omega (arith, ap length built.coordinates_kept))
                ∙ ap (λ s. ok (map to_arc (outgoing v (sort s)))) staged;
          }

      read_edges-Ends :
          Ends
            (IsAbout edges_name)
            (λ b'.
              (rows : Rows) × (arcs : List (StagedArc W)) × IsHeaded edges edge_header rows
              × Both (IsEdgeLine from_chars records) rows arcs
              × IsExtended b arcs b')
            (read_edges from_chars edges edges_name index b)
      unfolding read_edges
      read_edges-Ends =
          Ends-bind _ _ _ (expect_header edges_name edge_header (contents 0 (lines edges))) _
            (expect_header-Ends edges_name edge_header (contents 0 (lines edges)))
            λ rows headed.
              Ends-map _ _ _ (read_edge_rows from_chars edges_name index rows b)
                (read_edge_rows-Ends laws from_chars records index indexed edges_name rows b
                  placed.building placed.size)
                λ b' (arcs, both, extended). (rows, arcs, headed, both, extended)

      pub nodes_placed-Ends : Ends IsLoadError (IsLoaded from_chars nodes edges) (
          read_edges from_chars edges edges_name index b >>= λ b'.
          rethrow edges_name 0 (build b') >>= λ (g, _). ok g)
      nodes_placed-Ends =
          Ends-bind _ _ _ (read_edges from_chars edges edges_name index b) _
            (Ends-errors _ _ _ (read_edges from_chars edges edges_name index b) read_edges-Ends
              (λ e h. inr h))
            λ b' (rows, arcs, headed, described, extended).
              let all : b'.assigned_count ≡ length b'.coordinates =
                extended.same_count
                ∙ (placed.assigned_so_far ∙ sym (ap length extended.same_nodes ∙ placed.size)) in
              let (r, e, built) =
                Returns-ok (IsBuilt b') (build b') (build-Returns b' extended.building all) in
              rw e (built-IsLoaded rows arcs headed described b' extended r built)
