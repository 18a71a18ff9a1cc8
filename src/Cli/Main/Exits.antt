-- ===== src/Cli/Main/Exits.antt =====
-- `main` of src/cli/main.cpp: the exceptions that it catches.
use route_engine_cpp.Shared.{
  ◌≡◌, subst, sym, inl, inr, List, [], ◌∷◌, Option, none, some, Run, ok, throw, out_of_fuel, Ends,
  Returns, Error, graph_load, graph_validation, heuristic_contract,
}
use route_engine_cpp.Double.{Double}
use route_engine_cpp.Double.Laws.{IsOrdered}
use route_engine_cpp.Fields.{Text}
use route_engine_cpp.Options.{Options, Parsed, parsed, refused, parse, no_options}
use route_engine_cpp.Cli.{
  Machine, Exit, UsageError, usage_error, caught, usage_shown, validated, route_found,
  route_missing, generated, benchmarked, data_error, contract_error,
}
use route_engine_cpp.Csv.Nodes.{IsAbout}
use route_engine_cpp.Generator.Lattice.{IsValidation}
use route_engine_cpp.Cli.Input.{IsInputError}
use route_engine_cpp.Cli.Validate.{command_validate}
use route_engine_cpp.Cli.Validate.Outcomes.{IsValidated, command_validate-Validates}
use route_engine_cpp.Cli.Route.{command_route}
use route_engine_cpp.Cli.Generate.{Outcome, command_generate}
use route_engine_cpp.Cli.Generate.Outcomes.{IsEnd, command_generate-Completes}
use route_engine_cpp.Cli.Measure.{command_benchmark}
use route_engine_cpp.Cli.Main.{
  Command, help, validate, route, generate, benchmark, with_options, run_command, run, command_of,
  catch_all,
}

-- An error that a command documents.
abbrev pub IsDocumented : Error → Type 0
IsDocumented (graph_load name line reason) = Unit
IsDocumented (graph_validation reason) = Unit
IsDocumented (heuristic_contract arcs) = Unit
IsDocumented _ = ⊥

module _ {W : Type 0} where
  -- No exception is caught but those of a kind.
  abbrev pub IsExit : (Error → Type 0) → Exit W → Type 0
  IsExit D (caught e) = D e
  IsExit D _ = Unit

  -- No exception but the documented ones is caught.
  abbrev pub IsOrderly : Exit W → Type 0
  IsOrderly exit = IsExit IsDocumented exit

  module _ (D E : Error → Type 0) (P : Exit W → Type 0) (kind : (e : Error) → E e → D e)
      (own : (e : Error) → P (caught e) → D e) where
    exit-IsExit : (exit : Exit W) → P exit → IsExit D exit
    exit-IsExit (caught e) h = own e h
    exit-IsExit usage_shown h = tt
    exit-IsExit (validated _ _ _) h = tt
    exit-IsExit (route_found _ _ _ _ _ _) h = tt
    exit-IsExit (route_missing _ _ _ _) h = tt
    exit-IsExit (generated _ _ _ _) h = tt
    exit-IsExit (benchmarked _ _ _ _) h = tt
    exit-IsExit (usage_error _) h = tt
    exit-IsExit (data_error _) h = tt
    exit-IsExit (contract_error _) h = tt

    pub caught-Returns : (r : Run (Exit W)) → Ends E P r → Returns (IsExit D) (catch_all r)
    caught-Returns (ok exit) h = exit-IsExit exit h
    caught-Returns (throw e) h = kind e h
    caught-Returns out_of_fuel h = absurd h

  pub refused-Returns :
      (D : Error → Type 0) (e : UsageError) (r : Run (Exit W))
      → r ≡ ok (usage_error e)
      → Returns (IsExit D) (catch_all r)
  refused-Returns D e r h = subst (λ x. Returns (IsExit D) (catch_all x)) (sym h) tt

IsAbout-IsDocumented : (name : Text) (e : Error) → IsAbout name e → IsDocumented e
IsAbout-IsDocumented name e (line, reason, h) = subst IsDocumented (sym h) tt

module _ {W : Type 0} ⦃d : Double W⦄ (m : Machine W) (laws : IsOrdered W) (o : Options) where
  pub input-IsDocumented : (e : Error) → IsInputError m o e → IsDocumented e
  input-IsDocumented e (inl h) = IsAbout-IsDocumented o.nodes e h
  input-IsDocumented e (inr h) = IsAbout-IsDocumented o.edges e h

  pub validate-Returns : Returns IsOrderly (catch_all (command_validate m o))
  validate-Returns = elim (command_validate-Validates m o laws) [
    | inl (_, e, h) ↦ refused-Returns IsDocumented e (command_validate m o) h
    | inr (_, h) ↦
        caught-Returns IsDocumented (IsInputError m o) (IsValidated m o) input-IsDocumented
          (λ e h. absurd h) (command_validate m o) h
  ]

  pub generate-Returns : Returns IsOrderly (catch_all (command_generate m o).end)
  generate-Returns =
      caught-Returns IsDocumented IsValidation (IsEnd m o (command_generate m o).opened)
        (λ e (_, h). subst IsDocumented (sym h) tt) (λ e h. absurd h) (command_generate m o).end
        (command_generate-Completes m o laws)

module _ {W : Type 0} ⦃d : Double W⦄ (m : Machine W) (D : Error → Type 0) where
  with_options-Returns :
      (p : Parsed) (command : Options → Outcome W)
      → ((o : Options) → Returns (IsExit D) (catch_all (command o).end))
      → Returns (IsExit D) (catch_all (with_options p command).end)
  with_options-Returns (refused e) command h = tt
  with_options-Returns (parsed o) command h = h o

  module _ (validates : (o : Options) → Returns (IsExit D) (catch_all (command_validate m o)))
      (routes : (o : Options) → Returns (IsExit D) (catch_all (command_route m o)))
      (generates : (o : Options) → Returns (IsExit D) (catch_all (command_generate m o).end))
      (measures : (o : Options) → Returns (IsExit D) (catch_all (command_benchmark m o))) where
    run_command-Returns :
        (name : Text) (rest : List Text) (c : Option Command)
        → Returns (IsExit D) (catch_all (run_command m name rest c).end)
    unfolding run_command
    run_command-Returns name rest none = tt
    run_command-Returns name rest (some help) = tt
    run_command-Returns name rest (some validate) =
        with_options-Returns (parse rest no_options) _ validates
    run_command-Returns name rest (some route) =
        with_options-Returns (parse rest no_options) _ routes
    run_command-Returns name rest (some generate) =
        with_options-Returns (parse rest no_options) _ generates
    run_command-Returns name rest (some benchmark) =
        with_options-Returns (parse rest no_options) _ measures

    pub run-Returns : (arguments : List Text) → Returns (IsExit D) (catch_all (run m arguments).end)
    unfolding run
    run-Returns [] = tt
    run-Returns (name ∷ rest) = run_command-Returns name rest (command_of name)
