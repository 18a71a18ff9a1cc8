-- ===== src/Cli/Generate.antt =====
-- `command_generate` of src/cli/main.cpp. An Outcome also says which files were opened for writing,
-- which empties them, in order.
pub mod Numbers
pub mod Overwrite
pub mod Outcomes
use route_engine_cpp.Shared.{
  ℕ, ◌||◌, ◌++◌, List, [], ◌∷◌, Bool, true, false, not, if◌then◌else◌, Option, none, some, Reason,
  Run, ok, throw, out_of_fuel, ◌>>=◌,
}
use route_engine_cpp.Double.{Double}
use route_engine_cpp.Graph.{Graph, node_count, arc_count}
use route_engine_cpp.Fields.{Text, is_nil, codes}
use route_engine_cpp.Options.{
  Options, reject_unaccepted, Key, width_key, height_key, seed_key, spacing_key, jitter_key,
  diagonal_rate_key,
}
use route_engine_cpp.Generator.{GeneratorParams, validate_generator_params, generate}
use route_engine_cpp.Generator.Write.{Files, Stream, decimal, write_csv}
use route_engine_cpp.Cli.{
  Machine, Exit, UsageError, DataError, options_missing, not_a_number, bad_parameters, same_files,
  already_exists, not_writable, write_failed, generated, data_error, stop_if, value_or_stop,
  stop_on, usage, bad_options, parse_integer, parse_real, print_metric_report,
}

abbrev pub generate_keys : List Text
generate_keys =
    codes "--nodes"
    ∷ codes "--edges"
    ∷ codes "--width"
    ∷ codes "--height"
    ∷ codes "--seed"
    ∷ codes "--spacing"
    ∷ codes "--jitter"
    ∷ codes "--diagonal-rate"
    ∷ []

-- An option that the command needs is missing.
abbrev pub generate_incomplete : Options → Bool
generate_incomplete o =
    is_nil o.nodes || is_nil o.edges || is_nil o.width || is_nil o.height || is_nil o.seed

pub record Outcome (W : Type 0) : Type 0 where
  pub opened : List Text
  pub end : Run (Exit W)

-- The options as parameters, or the first that is not a number.
pub data Params (W : Type 0) : Type 0 where
  right : GeneratorParams W → Params W
  wrong : UsageError → Params W

module _ {W : Type 0} where
  -- The early returns of the conversions, in order.
  abbrev pub params_of :
      Options → (width height seed : Option ℕ) (spacing jitter diagonal_rate : Option W) → Params W
  params_of o none h s sp j r = wrong (not_a_number width_key o.width)
  params_of o (some w) none s sp j r = wrong (not_a_number height_key o.height)
  params_of o (some w) (some h) none sp j r = wrong (not_a_number seed_key o.seed)
  params_of o (some w) (some h) (some s) none j r = wrong (not_a_number spacing_key o.spacing)
  params_of o (some w) (some h) (some s) (some sp) none r = wrong (not_a_number jitter_key o.jitter)
  params_of o (some w) (some h) (some s) (some sp) (some j) none =
      wrong (not_a_number diagonal_rate_key o.diagonal_rate)
  params_of o (some w) (some h) (some s) (some sp) (some j) (some r) =
      right
        (record { width = w; height = h; seed = s; spacing = sp; jitter = j; diagonal_rate = r })

  -- An end before any file is opened.
  abbrev pub untouched : Run (Exit W) → Outcome W
  untouched r = record { opened = []; end = r }

  abbrev pub reject : UsageError → Outcome W
  reject e = untouched (usage e)

  abbrev pub after : Run (Graph W) → (Graph W → Outcome W) → Outcome W
  after (ok g) f = f g
  after (throw e) f = untouched (throw e)
  after out_of_fuel f = untouched out_of_fuel

module _ {W : Type 0} ⦃d : Double W⦄ (m : Machine W) where
  -- An option that may be left out.
  abbrev pub real_or : W → Text → Option W
  real_or default text = if is_nil text then some default else parse_real m.from_chars text

  -- The conversions; the defaults are those of GeneratorParams.
  unfoldable pub read_params : Options → Params W
  unfolding parse_integer parse_real
  read_params o =
      params_of o (parse_integer 32 o.width) (parse_integer 32 o.height) (parse_integer 64 o.seed)
        (real_or (d.of_nat 100) o.spacing) (real_or (d.of_ratio 35 100) o.jitter)
        (real_or (d.of_ratio 1 4) o.diagonal_rate)

  -- The comment at the top of both files.
  abbrev pub banner : GeneratorParams W → Text
  banner p =
      codes "# route-engine generated lattice: width="
      ++ decimal p.width
      ++ codes " height="
      ++ decimal p.height
      ++ codes " seed="
      ++ decimal p.seed

  abbrev pub banners : GeneratorParams W → Files
  banners p = record {
    nodes = record { written = banner p ++ codes "\n"; failed = false };
    edges = record {
      written =
          banner p
          ++ codes " diagonal-rate="
          ++ m.shown p.diagonal_rate
          ++ codes "\n"
          ++ codes "# every weight is exactly the Euclidean distance between its endpoints\n";
      failed = false;
    };
  }

  -- The stream is bad after the flush.
  abbrev pub is_bad : Text → Stream → Bool
  is_bad path s = s.failed || not (m.arrives path s.written)

  -- What is sent to the files, and what follows it.
  unfoldable pub fill_files :
      GeneratorParams W → (nodes_path edges_path : Text) → Graph W → Run (Exit W)
  unfolding decimal write_csv print_metric_report
  fill_files p nodes_path edges_path g = do
    files ← write_csv m.to_chars g (banners p)
    stop_if (is_bad nodes_path files.nodes) (ok (data_error (write_failed nodes_path))) (
        stop_if (is_bad edges_path files.edges) (ok (data_error (write_failed edges_path)))
          do lines ← print_metric_report g; ok (generated (node_count g) (arc_count g) files lines))

  unfoldable pub open_files :
      GeneratorParams W → (nodes_path edges_path : Text) → Graph W → Outcome W
  unfolding fill_files
  open_files p nodes_path edges_path g =
      if not (m.can_write nodes_path)
      then untouched (ok (data_error (not_writable nodes_path)))
      else if not (m.can_write edges_path)
      then record { opened = nodes_path ∷ []; end = ok (data_error (not_writable edges_path)) }
      else record {
        opened = nodes_path ∷ edges_path ∷ [];
        end = fill_files p nodes_path edges_path g;
      }

  -- The loop over the two paths.
  abbrev pub first_existing : List Text → Option Text
  first_existing [] = none
  first_existing (path ∷ paths) = if m.exists path then some path else first_existing paths

  -- What keeps the command from writing, and the rest of it.
  unfoldable pub generate_into : Options → GeneratorParams W → Outcome W
  unfolding generate open_files
  generate_into o p =
      let nodes_path = m.lexically_normal o.nodes in
      let edges_path = m.lexically_normal o.edges in
      let write = after (generate p) (open_files p nodes_path edges_path) in
      if m.same_path nodes_path edges_path
      then reject (same_files o.nodes)
      else if o.force
      then write
      else elim (first_existing (nodes_path ∷ edges_path ∷ [])) [
        | some path ↦ untouched (ok (data_error (already_exists path)))
        | none ↦ write
      ]

  abbrev pub generate_checked : Options → GeneratorParams W → Option Reason → Outcome W
  generate_checked o p none = generate_into o p
  generate_checked o p (some problem) = reject (bad_parameters problem)

  abbrev pub generate_with : Options → Params W → Outcome W
  generate_with o (wrong e) = reject e
  generate_with o (right p) = generate_checked o p (validate_generator_params p)

  unfoldable pub command_generate : Options → Outcome W
  unfolding reject_unaccepted read_params validate_generator_params generate_into
  command_generate o =
      stop_on (reject_unaccepted generate_keys true o) (λ e. reject (bad_options e))
        (stop_if (generate_incomplete o) (reject options_missing) (generate_with o (read_params o)))
