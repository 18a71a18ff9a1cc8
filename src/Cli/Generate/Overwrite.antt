-- ===== src/Cli/Generate/Overwrite.antt =====
-- `command_generate` of src/cli/main.cpp: which files it opens for writing.
use route_engine_cpp.Shared.{
  ◌≡◌, refl, ◌⊎◌, inl, inr, true, false, arith, Option, none, some, Option-cases, Bool-cases, All,
  Run, ok, throw, out_of_fuel, Reason,
}
use route_engine_cpp.Double.{Double}
use route_engine_cpp.Fields.{Text}
use route_engine_cpp.Graph.{Graph}
use route_engine_cpp.Options.{Options, reject_unaccepted}
use route_engine_cpp.Generator.{GeneratorParams, generate, validate_generator_params}
use route_engine_cpp.Cli.{Machine}
use route_engine_cpp.Cli.Generate.{
  Outcome, after, Params, right, wrong, read_params, generate_with, open_files, generate_into,
  generate_checked, generate_incomplete, generate_keys, command_generate,
}

module _ {W : Type 0} (P : Text → Type 0) where
  -- Nothing is opened by a command that stops, or only what its rest opens.
  abbrev Opens : Outcome W → Type 0
  Opens outcome = All P outcome.opened

  Opens-after :
      (r : Run (Graph W)) (rest : Graph W → Outcome W)
      → ((g : Graph W) → Opens (rest g))
      → Opens (after r rest)
  Opens-after (ok g) rest h = h g
  Opens-after (throw e) rest h = tt
  Opens-after out_of_fuel rest h = tt

module _ {W : Type 0} ⦃d : Double W⦄ (m : Machine W) (o : Options) where
  abbrev nodes_path : Text
  nodes_path = m.lexically_normal o.nodes

  abbrev edges_path : Text
  edges_path = m.lexically_normal o.edges

  -- One of the two paths, which differ, and there is no such file unless `--force` was given.
  abbrev pub IsFree : Text → Type 0
  IsFree path =
      ((path ≡ nodes_path) ⊎ (path ≡ edges_path))
      × (m.same_path nodes_path edges_path ≡ false)
      × ((o.force ≡ true) ⊎ (m.exists path ≡ false))

  open_files-Opens :
      (p : GeneratorParams W) (g : Graph W)
      → IsFree nodes_path
      → IsFree edges_path
      → Opens IsFree (open_files m p nodes_path edges_path g)
  unfolding open_files
  open_files-Opens p g h h' = ground (arith, h, h')

  write-Opens :
      (p : GeneratorParams W)
      → IsFree nodes_path
      → IsFree edges_path
      → Opens IsFree (after (generate p) (open_files m p nodes_path edges_path))
  write-Opens p h h' = Opens-after IsFree (generate p) _ λ g. open_files-Opens p g h h'

  generate_into-Opens : (p : GeneratorParams W) → Opens IsFree (generate_into m o p)
  unfolding generate_into
  generate_into-Opens p = elim (Bool-cases (m.same_path nodes_path edges_path)) [
    | inl same ↦ simp same tt
    | inr apart ↦ elim (Bool-cases o.force) [
      | inl force ↦
          simp (apart, force)
            (write-Opens p (inl refl, apart, inl force) (inr refl, apart, inl force))
      | inr careful ↦ elim (Bool-cases (m.exists nodes_path)) [
        | inl there ↦ simp (apart, careful, there) tt
        | inr free ↦ elim (Bool-cases (m.exists edges_path)) [
          | inl there ↦ simp (apart, careful, free, there) tt
          | inr free' ↦
              simp (apart, careful, free, free')
                (write-Opens p (inl refl, apart, inr free) (inr refl, apart, inr free'))
        ]
      ]
    ]
  ]

  generate_checked-Opens :
      (p : GeneratorParams W) (problem : Option Reason)
      → Opens IsFree (generate_checked m o p problem)
  generate_checked-Opens p none = generate_into-Opens p
  generate_checked-Opens p (some r) = tt

  generate_with-Opens : (params : Params W) → Opens IsFree (generate_with m o params)
  generate_with-Opens (wrong e) = tt
  generate_with-Opens (right p) = generate_checked-Opens p (validate_generator_params p)

  -- Every file that `generate` opens for writing is one of its two paths, which are not the same, and
  -- without `--force` there was no file of that name.
  pub command_generate-IsFree : All IsFree (command_generate m o).opened
  unfolding command_generate
  command_generate-IsFree = elim (Option-cases (reject_unaccepted generate_keys true o)) [
    | inr (e, other) ↦ simp other tt
    | inl accepted ↦ elim (Bool-cases (generate_incomplete o)) [
      | inl missing ↦ simp (accepted, missing) tt
      | inr complete ↦ simp (accepted, complete) (generate_with-Opens (read_params m o))
    ]
  ]
