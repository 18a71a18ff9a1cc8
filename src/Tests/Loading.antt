-- ===== src/Tests/Loading.antt =====
-- `load_graph` run on two small files, and its theorem there. A number is read as its digits.
use route_engine_cpp.Shared.{
  ℕ, ◌≡◌, refl, if◌then◌else◌, [], ◌∷◌, ◌⊎◌, Option, none, some, ok, throw, ◌>>=◌, Ends, graph_load,
  unknown_source,
}
use route_engine_cpp.Double.Extended.{Extended, extended_double, Extended-IsOrdered}
use route_engine_cpp.Graph
use route_engine_cpp.Graph.{Graph, arcs_from, external_id}
use route_engine_cpp.Metric
use route_engine_cpp.Builder
use route_engine_cpp.Fields
use route_engine_cpp.Fields.{Text, digits, equals}
use route_engine_cpp.Csv.{load_graph, load_files}
use route_engine_cpp.Csv.Nodes.{IsAbout}
use route_engine_cpp.Csv.Loads.{IsLoaded, load_graph-Ends, load_files-Ends}

abbrev pub whole : Option ℕ → Option (Extended × Text)
whole none = none
whole (some n) = some (some n, [])

unfoldable pub read_whole : Text → Option (Extended × Text)
unfolding digits
read_whole field = whole (digits 0 field)

-- "id,x,y", "7,0,0" and "8,3,0".
abbrev nodes_file : Text
nodes_file =
    105 ∷ 100 ∷ 44 ∷ 120 ∷ 44 ∷ 121 ∷ 10 ∷ 55 ∷ 44 ∷ 48 ∷ 44 ∷ 48 ∷ 10 ∷ 56 ∷ 44 ∷ 51 ∷ 44 ∷ 48 ∷ 10
    ∷ []

-- "source,target,weight" and a line.
abbrev edges_file : Text → Text
edges_file line =
    115 ∷ 111 ∷ 117 ∷ 114 ∷ 99 ∷ 101 ∷ 44 ∷ 116 ∷ 97 ∷ 114 ∷ 103 ∷ 101 ∷ 116 ∷ 44 ∷ 119 ∷ 101 ∷ 105
    ∷ 103 ∷ 104 ∷ 116 ∷ 10 ∷ line

-- "7,8,5"
abbrev edge_line : Text
edge_line = 55 ∷ 44 ∷ 56 ∷ 44 ∷ 53 ∷ []

-- "9,8,5"
abbrev unknown_line : Text
unknown_line = 57 ∷ 44 ∷ 56 ∷ 44 ∷ 53 ∷ []

arcs_loaded :
    (load_graph read_whole nodes_file (110 ∷ []) (edges_file edge_line) (101 ∷ []) >>= λ g.
    arcs_from g 0)
    ≡ ok (record { target = 1; weight = some 5 } ∷ [])
unfolding load_graph read_whole Builder.make_builder Builder.set_node Builder.add_arc Builder.build
    Builder.sort Builder.count_sources Builder.sum_rows Graph.make_graph
    Metric.compute_metric_report Graph.arcs_from Fields.lines Fields.contents Fields.split_fields
    Fields.parse_external_id
arcs_loaded = refl

unknown_refused :
    load_graph read_whole nodes_file (110 ∷ []) (edges_file unknown_line) (101 ∷ [])
    ≡ throw (graph_load (101 ∷ []) 2 (unknown_source 9))
unfolding load_graph read_whole Builder.make_builder Builder.set_node Builder.add_arc Builder.build
    Fields.lines Fields.contents Fields.split_fields Fields.parse_external_id
unknown_refused = refl

load_graph-Ends_example :
    Ends
      (λ e. IsAbout (110 ∷ []) e ⊎ IsAbout (101 ∷ []) e)
      (IsLoaded read_whole nodes_file (edges_file edge_line))
      (load_graph read_whole nodes_file (110 ∷ []) (edges_file edge_line) (101 ∷ []))
load_graph-Ends_example =
    load_graph-Ends Extended-IsOrdered read_whole nodes_file (110 ∷ []) (edges_file edge_line)
      (101 ∷ [])

-- The node file is "n"; every other name is the edge file.
unfoldable pub shelf : Text → Option Text
unfolding equals
shelf name = if equals name (110 ∷ []) then some nodes_file else some (edges_file edge_line)

load_files-Ends_example :
    Ends
      (λ e. IsAbout (110 ∷ []) e ⊎ IsAbout (101 ∷ []) e)
      (λ g.
        (nodes : Text) × (edges : Text) × (shelf (110 ∷ []) ≡ some nodes)
        × (shelf (101 ∷ []) ≡ some edges)
        × IsLoaded read_whole nodes edges g)
      (load_files read_whole shelf (110 ∷ []) (101 ∷ []))
load_files-Ends_example = load_files-Ends Extended-IsOrdered read_whole shelf (110 ∷ []) (101 ∷ [])
