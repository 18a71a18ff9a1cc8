-- ===== src/Cli/Route.antt =====
-- `command_route` of src/cli/main.cpp.
pub mod Answers
pub mod Outcomes
use route_engine_cpp.Shared.{◌||◌, List, [], ◌∷◌, Bool, false, Run, ok, ◌>>=◌}
use route_engine_cpp.Double.{Double}
use route_engine_cpp.Types.{NodeId, ExternalId}
use route_engine_cpp.Graph.{Graph, external_id}
use route_engine_cpp.Search.{Algorithm, SearchResult, SearchStatus, found, unreachable, run_search}
use route_engine_cpp.Search.Names.{parse_algorithm}
use route_engine_cpp.Csv.{load_files}
use route_engine_cpp.Fields.{Text, is_nil, codes}
use route_engine_cpp.Options.{Options, reject_unaccepted, from_key, to_key}
use route_engine_cpp.Cli.{
  Machine, Exit, UsageError, options_missing, unknown_algorithm, not_a_number, unknown_node,
  data_error, route_found, route_missing, stop_if, value_or_stop, stop_on, usage, bad_options,
  parse_integer, find_node,
}

abbrev pub route_keys : List Text
route_keys =
    codes "--nodes" ∷ codes "--edges" ∷ codes "--from" ∷ codes "--to" ∷ codes "--algorithm" ∷ []

-- An option that the command needs is missing.
abbrev pub route_incomplete : Options → Bool
route_incomplete o =
    is_nil o.nodes || is_nil o.edges || is_nil o.from || is_nil o.to || is_nil o.algorithm

-- A query of the command line.
pub record Query : Type 0 where
  pub algorithm : Algorithm
  pub from : ExternalId
  pub to : ExternalId

module _ {W : Type 0} where
  -- The loop that prints the path.
  unfoldable pub path_ids : Graph W → List NodeId → Run (List ExternalId)
  path_ids g [] = ok []
  path_ids g (v ∷ path) = do id ← external_id g v; ids ← path_ids g path; ok (id ∷ ids)

  -- The output: `result.found()` tests the status.
  unfoldable pub print_route_of : Graph W → Query → SearchStatus → SearchResult W → Run (Exit W)
  unfolding path_ids
  print_route_of g q unreachable r = ok (route_missing q.algorithm q.from q.to r.stats)
  print_route_of g q found r = do
    ids ← path_ids g r.path
    ok (route_found q.algorithm q.from q.to r.cost ids r.stats)

  abbrev pub print_route : Graph W → Query → SearchResult W → Run (Exit W)
  print_route g q r = print_route_of g q r.status r

module _ {W : Type 0} ⦃d : Double W⦄ (m : Machine W) where
  -- From `load_graph` on.
  unfoldable pub answer_query : Options → Query → Run (Exit W)
  unfolding load_files find_node run_search print_route_of
  answer_query o q = do
    g ← load_files m.from_chars m.open_file o.nodes o.edges
    from_node ← find_node g q.from
    value_or_stop from_node (ok (data_error (unknown_node q.from o.nodes))) λ source. do
      to_node ← find_node g q.to
      value_or_stop to_node (ok (data_error (unknown_node q.to o.nodes)))
          λ target. do r ← run_search g source target q.algorithm; print_route g q r

  -- The two node ids, read with `parse_integer`.
  unfoldable pub read_query : Options → Algorithm → Run (Exit W)
  unfolding parse_integer answer_query
  read_query o a =
      value_or_stop (parse_integer 64 o.from) (usage (not_a_number from_key o.from)) λ from.
        value_or_stop (parse_integer 64 o.to) (usage (not_a_number to_key o.to))
          λ to. answer_query o (record { algorithm = a; from = from; to = to })

  unfoldable pub command_route : Options → Run (Exit W)
  unfolding reject_unaccepted parse_algorithm read_query
  command_route o =
      stop_on (reject_unaccepted route_keys false o) (λ e. usage (bad_options e))
        (stop_if (route_incomplete o) (usage options_missing) (
          value_or_stop (parse_algorithm o.algorithm) (usage (unknown_algorithm o.algorithm))
            (read_query o)))
