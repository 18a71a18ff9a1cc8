-- ===== src/Cli/Input.antt =====
-- What the commands of src/cli/main.cpp read: the graph of the files `--nodes` and `--edges`.
use route_engine_cpp.Shared.{◌≡◌, ◌⊎◌, some, Run, ◌>>=◌, Ends, Ends-bind, Ends-errors, Error}
use route_engine_cpp.Double.{Double}
use route_engine_cpp.Double.Laws.{IsOrdered}
use route_engine_cpp.Fields.{Text}
use route_engine_cpp.Graph.{Graph}
use route_engine_cpp.Csv.{load_files}
use route_engine_cpp.Csv.Nodes.{IsAbout}
use route_engine_cpp.Csv.Loads.{IsLoaded, load_files-Ends}
use route_engine_cpp.Options.{Options}
use route_engine_cpp.Cli.{Machine}

module _ {W : Type 0} ⦃d : Double W⦄ (m : Machine W) (o : Options) where
  -- The graph of the two files.
  abbrev pub IsInput : Graph W → Type 0
  IsInput g =
      (nodes : Text) × (edges : Text) × (m.open_file o.nodes ≡ some nodes)
      × (m.open_file o.edges ≡ some edges)
      × IsLoaded m.from_chars nodes edges g

  -- A GraphLoadError about one of the two paths.
  abbrev pub IsInputError : Error → Type 0
  IsInputError e = IsAbout o.nodes e ⊎ IsAbout o.edges e

  -- A command that goes on with the graph of its files.
  pub input-Ends :
      {B : Type 0} (laws : IsOrdered W) (E : Error → Type 0) (Q : B → Type 0) (f : Graph W → Run B)
      → ((e : Error) → IsInputError e → E e)
      → ((g : Graph W) → IsInput g → Ends E Q (f g))
      → Ends E Q (load_files m.from_chars m.open_file o.nodes o.edges >>= f)
  input-Ends laws E Q f errors next =
      let files = load_files m.from_chars m.open_file o.nodes o.edges in
      Ends-bind E Q IsInput files f
        (Ends-errors IsInputError E IsInput files
          (load_files-Ends laws m.from_chars m.open_file o.nodes o.edges) errors)
        next
