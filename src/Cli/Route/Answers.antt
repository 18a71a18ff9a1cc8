-- ===== src/Cli/Route/Answers.antt =====
-- `command_route` of src/cli/main.cpp from `load_graph` on: a query is answered on the loaded graph.
use mathlib.Core.List.{reverse-reverse}
use route_engine_cpp.Shared.{
  ◌<◌, ◌≢◌, ◌≡◌, refl, subst, ◌⊎◌, inl, inr, true, false, ◌&&◌, arith, List, Option, none, some,
  Both, All, All-reverse, reverse, ok, heuristic_contract, ◌>>=◌, Ends, Returns-ok, Error,
}
use route_engine_cpp.Double.{Double}
use route_engine_cpp.Double.Laws.{IsOrdered}
use route_engine_cpp.Types.{NodeId, ExternalId}
use route_engine_cpp.Graph.{Graph, node_count, contains, external_id}
use route_engine_cpp.Search.{
  Algorithm, dijkstra_algorithm, astar_zero_algorithm, astar_euclidean_algorithm, SearchResult,
  SearchStatus, found, unreachable, run_search,
}
use route_engine_cpp.Search.Walk.{Walk}
use route_engine_cpp.Search.Safe.{IsAnswerBy, run_search-Runs}
use route_engine_cpp.Options.{Options}
use route_engine_cpp.Cli.{
  Machine, Exit, data_error, unknown_node, route_found, route_missing, find_node, value_or_stop,
}
use route_engine_cpp.Cli.Input.{IsInput, IsInputError, input-Ends}
use route_engine_cpp.Cli.Lookup.{FoundFrom, find_node-Returns, path_ids-Returns, Walk-All}
use route_engine_cpp.Cli.Route.{Query, path_ids, print_route, print_route_of, answer_query}

module _ {W : Type 0} ⦃d : Double W⦄ (m : Machine W) (o : Options) (q : Query) where
  -- The graph of the input, and the nodes whose ids the query names.
  pub record Ask : Type 0 where
    pub graph : Graph W
    pub input : IsInput m o graph
    pub source : NodeId
    pub target : NodeId
    pub source_named : external_id graph source ≡ ok q.from
    pub target_named : external_id graph target ≡ ok q.to

  abbrev pub IsNamed : Algorithm → ExternalId → ExternalId → Type 0
  IsNamed a from to = (a ≡ q.algorithm) × (from ≡ q.from) × (to ≡ q.to)

  -- What the command reports: the ids along the route, or that there is none, as the algorithm answers
  -- on the graph; or that no node of the input has one of the two ids.
  abbrev pub IsRouted : Exit W → Type 0
  IsRouted (route_found a from to cost ids _) =
      (ask : Ask) × (path : List NodeId) × IsNamed a from to
      × IsAnswerBy ask.graph q.algorithm ask.source ask.target found cost path
      × Both (λ v id. external_id ask.graph v ≡ ok id) path ids
  IsRouted (route_missing a from to _) =
      (ask : Ask) × (cost : W) × (path : List NodeId) × IsNamed a from to
      × IsAnswerBy ask.graph q.algorithm ask.source ask.target unreachable cost path
  IsRouted (data_error (unknown_node id name)) =
      (g : Graph W) × IsInput m o g
      × (name ≡ o.nodes)
      × ((id ≡ q.from) ⊎ (id ≡ q.to))
      × ((v : NodeId) → v < node_count g → external_id g v ≢ ok id)
  IsRouted _ = ⊥

  -- An error about the input, or Euclidean A* on a graph that violates the metric contract.
  abbrev pub IsRouteError : Error → Type 0
  IsRouteError e =
      IsInputError m o e
      ⊎ ((g : Graph W) × IsInput m o g
          × (q.algorithm ≡ astar_euclidean_algorithm)
          × (g.metric.passes ≡ false)
          × (e ≡ heuristic_contract g.metric.violating_arcs))

  module _ (laws : IsOrdered W) (ask : Ask) where
    found-Walk :
        (a : Algorithm) (cost : W) (path : List NodeId)
        → IsAnswerBy ask.graph a ask.source ask.target found cost path
        → Walk ask.graph ask.source (reverse path) ask.target cost
    found-Walk dijkstra_algorithm cost path h = h.0
    found-Walk astar_zero_algorithm cost path h = h.0
    found-Walk astar_euclidean_algorithm cost path h = h.0

    print_route-Ends :
        (status : SearchStatus) (r : SearchResult W)
        → ask.source < node_count ask.graph
        → IsAnswerBy ask.graph q.algorithm ask.source ask.target status r.cost r.path
        → Ends IsRouteError IsRouted (print_route_of ask.graph q status r)
    unfolding print_route_of
    print_route-Ends unreachable r h answer = (ask, r.cost, r.path, (refl, refl, refl), answer)
    print_route-Ends found r h answer =
        let inside : All (λ v. v < node_count ask.graph) (reverse r.path) =
          Walk-All laws ask.graph ask.input.4.valid h
            (found-Walk q.algorithm r.cost r.path answer) in
        let path : All (λ v. v < node_count ask.graph) r.path =
          subst (All (λ v. v < node_count ask.graph)) (reverse-reverse r.path)
            (All-reverse (λ v. v < node_count ask.graph) (reverse r.path) inside) in
        let (ids, e, named) =
          Returns-ok _ (path_ids ask.graph r.path) (path_ids-Returns ask.graph r.path path) in
        rw e (ask, r.path, (refl, refl, refl), answer, named)

    contains_both :
        ask.source < node_count ask.graph
        → ask.target < node_count ask.graph
        → contains ask.graph ask.source && contains ask.graph ask.target ≡ true
    contains_both h h' = ground (arith, h, h')

    -- Between the two nodes every algorithm ends as documented.
    run-Ends :
        ask.source < node_count ask.graph
        → ask.target < node_count ask.graph
        → Ends IsRouteError IsRouted
            (run_search ask.graph ask.source ask.target q.algorithm >>= print_route ask.graph q)
    run-Ends h h' =
        let valid = ask.input.4.valid in
        elim (run_search-Runs laws ask.graph valid ask.source ask.target q.algorithm) [
          | inl (out, _) ↦ let t = contains_both h h' in absurd (ground (arith, t, out))
          | inr (inl (_, euclidean, violated, e)) ↦
              rw e (inr (ask.graph, ask.input, euclidean, violated, refl))
          | inr (inr (_, answers)) ↦
              let (r, e, answer) =
                Returns-ok _ (run_search ask.graph ask.source ask.target q.algorithm) answers in
              rw e (print_route-Ends r.status r h answer)
        ]

  module _ (laws : IsOrdered W) where
    -- The rest of the command, once `find_node` has returned.
    target-Ends :
        (g : Graph W)
        → IsInput m o g
        → (source : NodeId) → source < node_count g
        → external_id g source ≡ ok q.from
        → (to_node : Option NodeId) → FoundFrom g q.to 0 to_node
        → Ends IsRouteError IsRouted (
            value_or_stop to_node
              (ok (data_error (unknown_node q.to o.nodes)))
              λ target. run_search g source target q.algorithm >>= print_route g q)
    target-Ends g input source h named none missing =
        (g, input, refl, inr refl, λ v. missing v (omega arith))
    target-Ends g input source h named (some target) (h', named', _) =
        run-Ends laws
          (record {
            graph = g;
            input = input;
            source = source;
            target = target;
            source_named = named;
            target_named = named';
          })
          h h'

    source-Ends :
        (g : Graph W)
        → IsInput m o g
        → (from_node : Option NodeId) → FoundFrom g q.from 0 from_node
        → Ends IsRouteError IsRouted (
            value_or_stop from_node (ok (data_error (unknown_node q.from o.nodes))) λ source.
              find_node g q.to >>= λ to_node.
              value_or_stop to_node
                (ok (data_error (unknown_node q.to o.nodes)))
                λ target. run_search g source target q.algorithm >>= print_route g q)
    source-Ends g input none missing = (g, input, refl, inl refl, λ v. missing v (omega arith))
    source-Ends g input (some source) (h, named, _) =
        let (to_node, e, at) = Returns-ok _ (find_node g q.to) (find_node-Returns g q.to) in
        rw e (target-Ends g input source h named to_node at)

    pub answer_query-Ends : Ends IsRouteError IsRouted (answer_query m o q)
    unfolding answer_query
    answer_query-Ends =
        input-Ends m o laws IsRouteError IsRouted _ (λ e h. inl h)
          λ g input.
            let (from_node, e, at) =
              Returns-ok _ (find_node g q.from) (find_node-Returns g q.from) in
            rw e (source-Ends g input from_node at)
