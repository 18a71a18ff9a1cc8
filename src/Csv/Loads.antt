-- ===== src/Csv/Loads.antt =====
-- `load_graph` of src/csv.cpp: what it returns for any two texts, against what their lines say.
mod Described
pub use Described.{IsLoaded, ok-eq}
use Described.{IsLoadError, read_nodes-Ends, nodes_placed-Ends}
use route_engine_cpp.Shared.{
  ℕ, ◌<◌, ◌≡◌, refl, ap, sym, ◌∙◌, subst, List, [], ◌∷◌, map, true, not, arith, Option, length,
  get_or, Run, ok, throw, out_of_fuel, ◌++◌, ◌>>=◌, Returns-ok, Ends, Ends-bind, Ends-map,
  Ends-errors, Ends-required, cannot_be_opened, some, Ends-throw_if, Both, ◌⊎◌, inl, inr, Error,
  empty_file, bad_header,
}
use route_engine_cpp.Double.{Double}
use route_engine_cpp.Double.Laws.{IsOrdered}
use route_engine_cpp.Types.{NodeId}
use route_engine_cpp.Metric.{no_coord}
use route_engine_cpp.Graph.{Graph, node_count, coordinate, external_id, arcs_from}
use route_engine_cpp.Graph.Rows.{IsValid, coordinate-ok, external_id-ok}
use route_engine_cpp.Builder.{Builder, StagedArc, build, sort, to_arc}
use route_engine_cpp.Builder.Partition.{outgoing}
use route_engine_cpp.Builder.Result.{IsBuilt, build-Returns}
use route_engine_cpp.Fields.{Text, lines, contents, split_fields}
use route_engine_cpp.Csv.{
  Rows, Index, NodeRecord, node_header, edge_header, same_fields, expect_header, no_record,
  read_nodes, read_edges, read_node_rows, find, read_edge_rows, rethrow, load_graph, load_files,
}
use route_engine_cpp.Csv.Nodes.{IsAbout, IsNodeLine, IsIndexed, none-IsIndexed, read_node_rows-Ends}
use route_engine_cpp.Csv.Placed.{IsPlaced, make_builder-ok, set_nodes-ok}
use route_engine_cpp.Csv.Edges.{IsEdgeLine, IsExtended, read_edge_rows-Ends}

module _ {W : Type 0} ⦃d : Double W⦄ (laws : IsOrdered W)
    (from_chars : Text → Option (W × Text)) where
  module _ (nodes nodes_name edges edges_name : Text) where
    -- For any two texts `load_graph` throws a GraphLoadError about one of the two files, or returns the
    -- graph of the files.
    pub load_graph-Ends :
        Ends
          (IsLoadError laws from_chars nodes nodes_name edges edges_name)
          (IsLoaded from_chars nodes edges)
          (load_graph from_chars nodes nodes_name edges edges_name)
    unfolding load_graph
    load_graph-Ends =
        Ends-bind _ _ _ (read_nodes from_chars nodes nodes_name) _
          (Ends-errors _ _ _ (read_nodes from_chars nodes nodes_name)
            (read_nodes-Ends laws from_chars nodes nodes_name) (λ e h. inl h))
          λ (records, index) (rows, headed, described, indexed).
            let (b, made, blank) = make_builder-ok laws records indexed.few in
            let (b', set, placed) =
              set_nodes-ok laws records nodes_name [] records b refl indexed.fit indexed.few
                blank in
            rw (made, set)
              (nodes_placed-Ends laws from_chars nodes nodes_name edges edges_name records index
                indexed rows headed described b' placed)

  -- Whatever opening the two files gives, `load_graph` on paths throws a GraphLoadError about one of
  -- the paths, or both could be opened and it returns the graph of what they hold.
  pub load_files-Ends :
      (open_file : Text → Option Text) (nodes_path edges_path : Text)
      → Ends
          (λ e. IsAbout nodes_path e ⊎ IsAbout edges_path e)
          (λ g.
            (nodes : Text) × (edges : Text) × (open_file nodes_path ≡ some nodes)
            × (open_file edges_path ≡ some edges)
            × IsLoaded from_chars nodes edges g)
          (load_files from_chars open_file nodes_path edges_path)
  unfolding load_files
  load_files-Ends open_file nodes_path edges_path =
      Ends-required _ _ (open_file nodes_path) _ _ (inl (0, cannot_be_opened, refl)) λ nodes n.
        Ends-required _ _ (open_file edges_path) _ _ (inr (0, cannot_be_opened, refl)) λ edges e.
          Ends-map _ _ _ (load_graph from_chars nodes nodes_path edges edges_path)
            (load_graph-Ends nodes nodes_path edges edges_path)
            λ g loaded. (nodes, edges, n, e, loaded)
