-- ===== src/Cli/Main/Rounding.antt =====
-- `main` of src/cli/main.cpp whatever the rounding of its sums.
use route_engine_cpp.Shared.{
  sym, subst, inl, inr, List, Run, ok, throw, out_of_fuel, Returns, Error, graph_load,
  graph_validation, heuristic_contract, out_of_range, benchmark_agreement,
}
use route_engine_cpp.Double.{Double}
use route_engine_cpp.Double.Laws.{IsOrdered}
use route_engine_cpp.Fields.{Text}
use route_engine_cpp.Options.{Options}
use route_engine_cpp.Cli.{Machine, Exit}
use route_engine_cpp.Cli.Input.{IsInputError}
use route_engine_cpp.Cli.Route.{Query, command_route}
use route_engine_cpp.Cli.Route.Outcomes.{command_route-Routes}
use route_engine_cpp.Cli.Route.Answers.{IsRouted, IsRouteError}
use route_engine_cpp.Cli.Validate.{command_validate}
use route_engine_cpp.Cli.Generate.{command_generate}
use route_engine_cpp.Cli.Main.{main, catch_all}
use route_engine_cpp.Cli.Main.Exits.{
  IsExit, caught-Returns, refused-Returns, validate-Returns, generate-Returns, run-Returns,
  IsDocumented,
}
use route_engine_cpp.Cli.Measure.{command_benchmark}
use route_engine_cpp.Cli.Measure.Outcomes.{
  Request, IsMeasured, IsMeasureError, command_benchmark-Measures,
}

-- Every error but a read out of range.
abbrev pub IsKnown : Error → Type 0
IsKnown out_of_range = ⊥
IsKnown _ = Unit

module _ {W : Type 0} ⦃d : Double W⦄ (m : Machine W) (laws : IsOrdered W) (o : Options) where
  input-IsKnown : (e : Error) → IsInputError m o e → IsKnown e
  input-IsKnown e (inl (line, reason, h)) = subst IsKnown (sym h) tt
  input-IsKnown e (inr (line, reason, h)) = subst IsKnown (sym h) tt

  route-IsKnown : (q : Query) (e : Error) → IsRouteError m o q e → IsKnown e
  route-IsKnown q e (inl h) = input-IsKnown e h
  route-IsKnown q e (inr (_, _, _, _, h)) = subst IsKnown (sym h) tt

  measure-IsKnown : (q : Request) (e : Error) → IsMeasureError m o q e → IsKnown e
  measure-IsKnown q e (inl h) = input-IsKnown e h
  measure-IsKnown q e (inr (_, _, _, (_, _, _, (h, _)))) = subst IsKnown (sym h) tt

  route-Returns : Returns (IsExit IsKnown) (catch_all (command_route m o))
  route-Returns = elim (command_route-Routes m o laws) [
    | inl (_, e, h) ↦ refused-Returns IsKnown e (command_route m o) h
    | inr (q, _, h) ↦
        caught-Returns IsKnown (IsRouteError m o q) (IsRouted m o q) (route-IsKnown q)
          (λ e h. absurd h) (command_route m o) h
  ]

  benchmark-Returns : Returns (IsExit IsKnown) (catch_all (command_benchmark m o))
  benchmark-Returns = elim (command_benchmark-Measures m o laws) [
    | inl (_, e, h) ↦ refused-Returns IsKnown e (command_benchmark m o) h
    | inr (q, _, h) ↦
        caught-Returns IsKnown (IsMeasureError m o q) (IsMeasured m o q) (measure-IsKnown q)
          (λ e h. absurd h) (command_benchmark m o) h
  ]

IsKnown-from : (e : Error) → IsDocumented e → IsKnown e
IsKnown-from (graph_load _ _ _) h = tt
IsKnown-from (graph_validation _) h = tt
IsKnown-from (heuristic_contract _) h = tt
IsKnown-from out_of_range h = h
IsKnown-from benchmark_agreement h = tt

module _ {W : Type 0} where
  documented-Returns :
      (r : Run (Exit W))
      → Returns (IsExit IsDocumented) (catch_all r)
      → Returns (IsExit IsKnown) (catch_all r)
  documented-Returns (throw e) h = IsKnown-from e h
  documented-Returns (ok exit) h =
      caught-Returns IsKnown (λ e. ⊥) (IsExit IsDocumented) (λ e k. absurd k) IsKnown-from (ok exit)
        h
  documented-Returns out_of_fuel h = absurd h

module _ {W : Type 0} ⦃d : Double W⦄ (m : Machine W) (laws : IsOrdered W) where
  -- For any arguments and whatever the rounding, `main` returns, and no read out of range is ever caught.
  pub main-Exits : (arguments : List Text) → Returns (IsExit IsKnown) (main m arguments).end
  unfolding main
  main-Exits arguments =
      run-Returns m IsKnown
        (λ o. documented-Returns (command_validate m o) (validate-Returns m laws o))
        (λ o. route-Returns m laws o)
        (λ o. documented-Returns (command_generate m o).end (generate-Returns m laws o))
        (λ o. benchmark-Returns m laws o) arguments
