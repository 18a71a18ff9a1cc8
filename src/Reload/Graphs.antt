-- ===== src/Reload/Graphs.antt =====
-- The two files of a graph that was built (src/builder.cpp), read back by `load_graph` of src/csv.cpp.
use route_engine_cpp.Shared.{
  ℕ, suc, ◌+◌, ◌<◌, ◌^◌, ◌≡◌, refl, ap, sym, ◌∙◌, subst, true, List, [], ◌∷◌, ◌++◌, map, arith,
  Option, length, get_or, replicate, All, All-map, ok,
}
use route_engine_cpp.Double.{Double}
use route_engine_cpp.Double.Laws.{IsOrdered}
use route_engine_cpp.Types.{NodeId, incr}
use route_engine_cpp.Metric.{no_coord}
use route_engine_cpp.Graph.{Graph, make_graph}
use route_engine_cpp.Builder.{Builder, sort, sum_rows, count_sources, to_arc}
use route_engine_cpp.Builder.Invariant.{IsBuilding, IsStaged}
use route_engine_cpp.Builder.Build.{built, built-IsValid, sorted-fit, sorted-small}
use route_engine_cpp.Builder.Canonical.{sort-sort}
use route_engine_cpp.Builder.Result.{build-ok}
use route_engine_cpp.Fields.{Text, codes, lines, contents, split_fields}
use route_engine_cpp.Fields.Plain.{IsLine, unlines, lines-unlines, contents-numbered, numbered}
use route_engine_cpp.Generator.Write.Lines.{node_lines, node_file, edge_file}
use route_engine_cpp.Csv.{
  NodeRecord, Index, no_record, read_nodes, read_edges, expect_header, same_fields, load_graph,
  node_header, edge_header,
}
use route_engine_cpp.Csv.Nodes.{IsIndexed, none-IsIndexed}
use route_engine_cpp.Csv.Placed.{IsPlaced, make_builder-ok, set_nodes-ok}
use route_engine_cpp.Csv.Reads.{AreDistinct, read_node_rows-ok, read_edge_rows-ok}
use route_engine_cpp.Reload.Nodes.{
  AreInverse, node_records, length-node_records, node_record_at, id-small, node_lines-IsLine,
  node_lines-IsNodeRow,
}
use route_engine_cpp.Reload.Edges.{line_of, edge_lines-sorted, map-IsLine, map-IsEdgeRow}

-- Lists of one length that agree at every place.
get_or-ext {ℓ} :
    {A : Type ℓ} (xs ys : List A) (default : A)
    → length xs ≡ length ys
    → ((i : ℕ) → i < length xs → get_or xs i default ≡ get_or ys i default)
    → xs ≡ ys
get_or-ext [] [] default e h = refl
get_or-ext [] (y ∷ ys) default e h = absurd (omega arith)
get_or-ext (x ∷ xs) [] default e h = absurd (omega arith)
get_or-ext (x ∷ xs) (y ∷ ys) default e h = (λ i.
    h 0 (omega arith) i
    ∷ get_or-ext xs ys default (omega arith) (λ k less. h (suc k) (omega arith)) i)

-- A file with its header line.
expect_header-ok :
    (name header : Text) (fields : List Text) (ls : List Text)
    → All IsLine (header ∷ ls)
    → same_fields (split_fields header) fields ≡ true
    → expect_header name fields (contents 0 (lines (unlines (header ∷ ls))))
      ≡ ok (numbered (incr 0) ls)
unfolding expect_header
expect_header-ok name header fields ls plain same =
    rw (lines-unlines (header ∷ ls) plain, contents-numbered 0 (header ∷ ls) plain, same)

module _ {W : Type 0} ⦃d : Double W⦄ (laws : IsOrdered W) (to_chars : W → Option Text)
    (from_chars : Text → Option (W × Text)) (inverse : AreInverse to_chars from_chars)
    (b : Builder W) (inv : IsBuilding b) (ids : All (λ id. id < 2 ^ 64) b.external_ids)
    (distinct : (u v : NodeId)
      → u < length b.coordinates
      → v < length b.coordinates
      → get_or b.external_ids u 0 ≡ get_or b.external_ids v 0
      → u ≡ v) where
  abbrev pub n : ℕ
  n = length b.coordinates

  abbrev pub g : Graph W
  g = built b inv

  records : List (NodeRecord W)
  unfolding make_graph
  records = node_records laws to_chars from_chars inverse g (built-IsValid b inv) ids n 0 (incr 0)

  records_size : length records ≡ n
  unfolding records make_graph
  records_size =
      length-node_records laws to_chars from_chars inverse g (built-IsValid b inv) ids n 0 (incr 0)

  records_at :
      (v : NodeId)
      → v < n
      → ((get_or records v no_record).external_id ≡ get_or b.external_ids v 0)
        × ((get_or records v no_record).coordinate ≡ get_or b.coordinates v no_coord)
  unfolding records make_graph
  records_at v h =
      let e : 0 + v ≡ v = omega arith in
      let (id, c) =
        node_record_at laws to_chars from_chars inverse g (built-IsValid b inv) ids n 0 (incr 0) v
          h in
      (id ∙ ap (λ k. get_or b.external_ids k 0) e, c ∙ ap (λ k. get_or b.coordinates k no_coord) e)

  records_distinct : AreDistinct from_chars records
  records_distinct u v hu hv e =
      let hu' : u < n = omega (arith, records_size) in
      let hv' : v < n = omega (arith, records_size) in
      distinct u v hu' hv' (sym (records_at u hu').0 ∙ (e ∙ (records_at v hv').0))

  nodes_read :
      (name : Text)
      → (index : Index) × (read_nodes from_chars (node_file to_chars g) name ≡ ok (records, index))
        × IsIndexed from_chars records index
  unfolding read_nodes records make_graph same_fields split_fields
  nodes_read name =
      let plain : All IsLine (codes "id,x,y" ∷ node_lines to_chars g n 0) = (
        (refl, omega arith),
        node_lines-IsLine laws to_chars from_chars inverse g (built-IsValid b inv) ids n 0
            (omega arith),
      ) in
      let header =
        expect_header-ok name (codes "id,x,y") node_header (node_lines to_chars g n 0) plain refl in
      let (index, run, indexed) =
        read_node_rows-ok from_chars name (numbered (incr 0) (node_lines to_chars g n 0)) [] records
          []
          (node_lines-IsNodeRow laws to_chars from_chars inverse g (built-IsValid b inv) ids n 0
            (incr 0) (omega arith))
          (none-IsIndexed from_chars) records_distinct
          (omega (arith, records_size, inv.few_nodes)) in
      (index, rw header run, indexed)

  module _ (index : Index) (indexed : IsIndexed from_chars records index) (b' : Builder W)
      (placed : IsPlaced laws records (length records) b') where
    full : Builder W
    full = record b' { staged = sort b.staged }

    same_coordinates : b'.coordinates ≡ b.coordinates
    same_coordinates =
        get_or-ext b'.coordinates b.coordinates no_coord (placed.size ∙ records_size) λ v h.
          (placed.placed v (omega (arith, placed.size))).0
          ∙ (records_at v (omega (arith, placed.size, records_size))).1

    same_ids : b'.external_ids ≡ b.external_ids
    same_ids =
        get_or-ext b'.external_ids b.external_ids 0
          (omega (arith, placed.building.ids_length, placed.size, records_size, inv.ids_length))
          λ v h.
            let h' : v < length records = omega (arith, placed.building.ids_length, placed.size) in
            (placed.placed v h').1 ∙ (records_at v (omega (arith, records_size))).0

    sorted-IsStaged : All (IsStaged n) (sort b.staged)
    sorted-IsStaged = sorted-fit b inv

    full-IsBuilding : IsBuilding full
    unfolding full
    full-IsBuilding = record {
      usable = placed.building.usable;
      few_nodes = placed.building.few_nodes;
      few_arcs = sorted-small b inv;
      ids_length = placed.building.ids_length;
      assigned_length = placed.building.assigned_length;
      counted = placed.building.counted;
      coordinates_fit = placed.building.coordinates_fit;
      staged_fit =
          subst (λ k. All (IsStaged k) (sort b.staged)) (sym (ap length same_coordinates))
            sorted-IsStaged;
    }

    edges_read :
        (name : Text) → read_edges from_chars (edge_file to_chars g) name index b' ≡ ok full
    unfolding read_edges full same_fields split_fields make_graph
    edges_read name =
        let listed = edge_lines-sorted laws to_chars from_chars inverse b inv in
        let plain =
          map-IsLine laws to_chars from_chars inverse b inv (sort b.staged) sorted-IsStaged in
        let ls = map (line_of laws to_chars from_chars inverse b inv) (sort b.staged) in
        let header =
          expect_header-ok name (codes "source,target,weight") edge_header ls
            ((refl, omega arith), plain) refl in
        let run =
          read_edge_rows-ok laws from_chars records index indexed name (numbered (incr 0) ls)
            (sort b.staged) b'
            (map-IsEdgeRow laws to_chars from_chars inverse b inv
              (id-small laws to_chars from_chars inverse g (built-IsValid b inv) ids) records
              records_size (λ v h. (records_at v h).0) (sort b.staged) (incr 0) sorted-IsStaged)
            placed.building.usable placed.size
            (omega (arith, ap length placed.no_arcs, sorted-small b inv)) in
        rw (listed, header)
          (run ∙ ap (λ s. ok (record b' { staged = s ++ sort b.staged })) placed.no_arcs)

    -- The graph that is built is the one that was written.
    same_graph : built full full-IsBuilding ≡ g
    unfolding full
    same_graph =
        let again = sort-sort laws b.staged (All-map (λ a h. h.3) b.staged inv.staged_fit) in
        (λ i.
          make_graph (same_coordinates i) (same_ids i)
            (sum_rows (length (same_coordinates i)) 0
              (count_sources (again i) (replicate (length (same_coordinates i) + 1) 0)))
            (map to_arc (again i)))

  -- The two files are loaded as the graph that was built.
  pub graph_loaded :
      (nodes_name edges_name : Text)
      → load_graph from_chars (node_file to_chars g) nodes_name (edge_file to_chars g) edges_name
        ≡ ok g
  unfolding load_graph full
  graph_loaded nodes_name edges_name =
      let (index, nodes, indexed) = nodes_read nodes_name in
      let (b₀, made, blank) = make_builder-ok laws records indexed.few in
      let (b', set, placed) =
        set_nodes-ok laws records nodes_name [] records b₀ refl indexed.fit indexed.few blank in
      let complete : b'.assigned_count ≡ length b'.coordinates =
        placed.assigned_so_far ∙ sym placed.size in
      rw
        (
          nodes,
          made,
          set,
          edges_read index indexed b' placed edges_name,
          build-ok (full index indexed b' placed) (full-IsBuilding index indexed b' placed)
              complete,
        )
        (ap ok (same_graph index indexed b' placed))
