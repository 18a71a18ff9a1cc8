-- ===== src/Cli/Main.antt =====
-- `run` and `main` of src/cli/main.cpp.
pub mod Exits
pub mod Rounding
use route_engine_cpp.Shared.{
  ◌||◌, List, [], ◌∷◌, if◌then◌else◌, Option, none, some, Run, ok, throw, out_of_fuel,
}
use route_engine_cpp.Double.{Double}
use route_engine_cpp.Fields.{Text, codes, equals}
use route_engine_cpp.Options.{Options, no_options, Parsed, parsed, refused, parse}
use route_engine_cpp.Cli.{
  Machine, Exit, usage_shown, no_subcommand, unknown_subcommand, bad_options, usage, caught,
}
use route_engine_cpp.Cli.Validate.{command_validate}
use route_engine_cpp.Cli.Route.{command_route}
use route_engine_cpp.Cli.Generate.{Outcome, untouched, reject, command_generate}
use route_engine_cpp.Cli.Measure.{command_benchmark}

pub data Command : Type 0 where
  help validate route generate benchmark : Command

-- The subcommand of a name.
unfoldable pub command_of : Text → Option Command
unfolding equals
command_of name =
    if equals name (codes "--help") || equals name (codes "-h") || equals name (codes "help")
    then some help
    else if equals name (codes "validate")
    then some validate
    else if equals name (codes "route")
    then some route
    else if equals name (codes "generate")
    then some generate
    else if equals name (codes "benchmark")
    then some benchmark
    else none

module _ {W : Type 0} where
  abbrev pub with_options : Parsed → (Options → Outcome W) → Outcome W
  with_options (refused e) command = reject (bad_options e)
  with_options (parsed o) command = command o

  -- The `catch` clauses.
  abbrev pub catch_all : Run (Exit W) → Run (Exit W)
  catch_all (ok exit) = ok exit
  catch_all (throw e) = ok (caught e)
  catch_all out_of_fuel = out_of_fuel

module _ {W : Type 0} ⦃d : Double W⦄ (m : Machine W) where
  unfoldable pub run_command : Text → List Text → Option Command → Outcome W
  unfolding parse command_validate command_route command_generate command_benchmark
  run_command name rest none = reject (unknown_subcommand name)
  run_command name rest (some help) = untouched (ok usage_shown)
  run_command name rest (some validate) =
      with_options (parse rest no_options) λ o. untouched (command_validate m o)
  run_command name rest (some route) =
      with_options (parse rest no_options) λ o. untouched (command_route m o)
  run_command name rest (some generate) =
      with_options (parse rest no_options) λ o. command_generate m o
  run_command name rest (some benchmark) =
      with_options (parse rest no_options) λ o. untouched (command_benchmark m o)

  unfoldable pub run : List Text → Outcome W
  unfolding run_command command_of
  run [] = reject no_subcommand
  run (name ∷ rest) = run_command name rest (command_of name)

  unfoldable pub main : List Text → Outcome W
  unfolding run
  main arguments = let outcome = run arguments in record outcome { end = catch_all outcome.end }
