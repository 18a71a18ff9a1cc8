-- ===== src/Cli/Route/Outcomes.antt =====
-- `command_route` of src/cli/main.cpp: what it ends with.
use route_engine_cpp.Shared.{
  ◌≡◌, refl, sym, subst, ◌⊎◌, inl, inr, false, arith, none, some, none-ne-some, Option-cases,
  Bool-cases, Run, ok, Ends,
}
use route_engine_cpp.Double.{Double}
use route_engine_cpp.Double.Laws.{IsOrdered}
use route_engine_cpp.Search.Names.{parse_algorithm}
use route_engine_cpp.Options.{Options, reject_unaccepted, from_key, to_key}
use route_engine_cpp.Cli.{
  Machine, Exit, UsageError, usage_error, bad_options, options_missing, unknown_algorithm,
  not_a_number, parse_integer,
}
use route_engine_cpp.Cli.Route.{
  Query, route_keys, route_incomplete, command_route, read_query, answer_query,
}
use route_engine_cpp.Cli.Route.Answers.{IsRouted, IsRouteError, answer_query-Ends}

-- Options that `route` takes, with the query that they spell.
abbrev pub IsRequest : Options → Query → Type 0
IsRequest o q =
    (reject_unaccepted route_keys false o ≡ none)
    × (route_incomplete o ≡ false)
    × (parse_algorithm o.algorithm ≡ some q.algorithm)
    × (parse_integer 64 o.from ≡ some q.from)
    × (parse_integer 64 o.to ≡ some q.to)

module _ {W : Type 0} ⦃d : Double W⦄ (m : Machine W) (o : Options) where
  abbrev pub Routes : Run (Exit W) → Type 0
  Routes r =
      ((((q : Query) → IsRequest o q → ⊥)) × (e : UsageError) × (r ≡ ok (usage_error e)))
      ⊎ ((q : Query) × IsRequest o q × Ends (IsRouteError m o q) (IsRouted m o q) r)

  -- What a command that reads a query does before it answers it.
  abbrev pub Reads : Run (Exit W) → Type 0
  Reads r =
      (((q : Query) → IsRequest o q → ⊥) × (e : UsageError) × (r ≡ ok (usage_error e)))
      ⊎ ((q : Query) × IsRequest o q × (r ≡ answer_query m o q))

  pub command_route-cases : Reads (command_route m o)
  unfolding command_route read_query
  command_route-cases = elim (Option-cases (reject_unaccepted route_keys false o)) [
    | inr (e, other) ↦ rw other (inl (λ q h. none-ne-some e (sym h.0), bad_options e, refl))
    | inl accepted ↦ elim (Bool-cases (route_incomplete o)) [
      | inl missing ↦ rw (accepted, missing) (inl (λ q h. ground (arith, h), options_missing, refl))
      | inr complete ↦ elim (Option-cases (parse_algorithm o.algorithm)) [
        | inl unknown ↦
            rw (accepted, complete, unknown)
              (inl (λ q h. none-ne-some q.algorithm h.2, unknown_algorithm o.algorithm, refl))
        | inr (a, known) ↦ elim (Option-cases (parse_integer 64 o.from)) [
          | inl bad ↦
              rw (accepted, complete, known, bad)
                (inl (λ q h. none-ne-some q.from h.3, not_a_number from_key o.from, refl))
          | inr (from, good) ↦ elim (Option-cases (parse_integer 64 o.to)) [
            | inl bad ↦
                rw (accepted, complete, known, good, bad)
                  (inl (λ q h. none-ne-some q.to h.4, not_a_number to_key o.to, refl))
            | inr (to, good') ↦
                let q : Query = record { algorithm = a; from = from; to = to } in
                rw (accepted, complete, known, good, good')
                  (inr (q, (refl, refl, refl, refl, refl), refl))
          ]
        ]
      ]
    ]
  ]

  module _ (laws : IsOrdered W) where
    -- A request that `route` does not take is a usage error. Otherwise, for two ids and one of the three
    -- algorithms, and whatever the rounding, the command ends with a GraphLoadError about one of the two
    -- files, refuses Euclidean A* on a graph that violates the metric contract, reports that no node of
    -- the loaded graph has one of the ids, prints the ids along a walk between the two nodes, or reports
    -- that it found none. With Dijkstra and with the zero heuristic no walk undercuts the one that is
    -- printed, and without a route every walk between the nodes has infinite cost.
    pub command_route-Routes : Routes (command_route m o)
    command_route-Routes = elim command_route-cases [
      | inl refused ↦ inl refused
      | inr (q, request, e) ↦ inr (
        q,
        request,
        subst (Ends (IsRouteError m o q) (IsRouted m o q)) (sym e) (answer_query-Ends m o q laws),
      )
    ]
