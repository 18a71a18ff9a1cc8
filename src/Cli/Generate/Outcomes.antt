-- ===== src/Cli/Generate/Outcomes.antt =====
-- `command_generate` of src/cli/main.cpp: what it ends with.
use route_engine_cpp.Shared.{
  ℕ, ◌≡◌, refl, ◌⊎◌, inl, inr, true, false, arith, List, [], ◌∷◌, ◌++◌, Option, none, some,
  Option-cases, Bool-cases, Run, ok, throw, out_of_fuel, Ends, Returns-ok, Reason,
}
use route_engine_cpp.Double.{Double}
use route_engine_cpp.Double.Laws.{IsOrdered}
use route_engine_cpp.Fields.{Text}
use route_engine_cpp.Graph.{Graph, node_count, arc_count}
use route_engine_cpp.Graph.Contract.{violations}
use route_engine_cpp.Options.{Options, reject_unaccepted}
use route_engine_cpp.Generator.{GeneratorParams, generate, validate_generator_params}
use route_engine_cpp.Generator.Lattice.{IsValidation, IsLattice, generate-Ends}
use route_engine_cpp.Generator.Write.{Files, Stream, write_csv}
use route_engine_cpp.Generator.Write.Lines.{node_file, edge_file, BothSent, write_csv-Returns}
use route_engine_cpp.Cli.{
  Machine, Exit, data_error, usage_error, generated, already_exists, not_writable, write_failed,
  MetricLines, print_metric_report,
}
use route_engine_cpp.Cli.Violations.{Described, print_metric_report-Returns}
use route_engine_cpp.Cli.Generate.{
  Outcome, Params, right, wrong, read_params, after, banners, is_bad, fill_files, open_files,
  generate_into, generate_checked, generate_with, generate_incomplete, generate_keys,
  command_generate,
}
use route_engine_cpp.Cli.Generate.Numbers.{IsSmall, read_params-IsSmall}

module _ {W : Type 0} ⦃d : Double W⦄ (m : Machine W) (o : Options) where
  abbrev nodes_path : Text
  nodes_path = m.lexically_normal o.nodes

  abbrev edges_path : Text
  edges_path = m.lexically_normal o.edges

  abbrev pub IsOneOf : Text → Type 0
  IsOneOf path = (path ≡ nodes_path) ⊎ (path ≡ edges_path)

  -- The text of a file that has arrived.
  abbrev pub IsWritten : Text → Stream → Text → Text → Type 0
  IsWritten path s banner text =
      (s.failed ≡ false) × (s.written ≡ banner ++ text) × (m.arrives path s.written ≡ true)

  -- Both files hold the graph that the parameters generate, a lattice that meets the contract.
  pub record IsGenerated (opened : List Text) (nodes arcs : ℕ) (files : Files)
      (lines : MetricLines W) : Type 0 where
    pub params : GeneratorParams W
    pub graph : Graph W
    pub read : read_params m o ≡ right params
    pub result : generate params ≡ ok graph
    pub lattice : IsLattice params graph
    pub both_opened : opened ≡ nodes_path ∷ edges_path ∷ []
    pub nodes_counted : nodes ≡ node_count graph
    pub arcs_counted : arcs ≡ arc_count graph
    pub nodes_written :
        IsWritten nodes_path files.nodes
          (banners m params).nodes.written
          (node_file m.to_chars graph)
    pub edges_written :
        IsWritten edges_path files.edges
          (banners m params).edges.written
          (edge_file m.to_chars graph)
    pub described : Described graph (violations graph) lines.violation

  -- The ends of the command, with the files that it has opened by then.
  abbrev pub IsEnd : List Text → Exit W → Type 0
  IsEnd opened (usage_error e) = opened ≡ []
  IsEnd opened (data_error (already_exists path)) =
      (opened ≡ []) × IsOneOf path × (m.exists path ≡ true) × (o.force ≡ false)
  IsEnd opened (data_error (not_writable path)) = IsOneOf path × (m.can_write path ≡ false)
  IsEnd opened (data_error (write_failed path)) =
      IsOneOf path × (opened ≡ nodes_path ∷ edges_path ∷ [])
  IsEnd opened (generated nodes arcs files lines) = IsGenerated opened nodes arcs files lines
  IsEnd opened _ = ⊥

  abbrev pub Completes : Outcome W → Type 0
  Completes outcome = Ends IsValidation (IsEnd outcome.opened) outcome.end

  module _ (p : GeneratorParams W) (g : Graph W) (e : read_params m o ≡ right p)
      (e' : generate p ≡ ok g) (lattice : IsLattice p g) where
    sent-IsEnd :
        (files : Files) (lines : MetricLines W)
        → BothSent m.to_chars g
            (node_file m.to_chars g)
            (edge_file m.to_chars g)
            (banners m p)
            files
        → Described g (violations g) lines.violation
        → is_bad m nodes_path files.nodes ≡ false
        → is_bad m edges_path files.edges ≡ false
        → IsGenerated (nodes_path ∷ edges_path ∷ []) (node_count g) (arc_count g) files lines
    sent-IsEnd files lines (sent, sent') described fine fine' = record {
      params = p;
      graph = g;
      read = e;
      result = e';
      lattice = lattice;
      both_opened = refl;
      nodes_counted = refl;
      arcs_counted = refl;
      nodes_written = (ground (arith, fine), (sent (ground (arith, fine))).1, ground (arith, fine));
      edges_written =
          (ground (arith, fine'), (sent' (ground (arith, fine'))).1, ground (arith, fine'));
      described = described;
    }

    fill_files-Ends :
        Ends IsValidation
          (IsEnd (nodes_path ∷ edges_path ∷ []))
          (fill_files m p nodes_path edges_path g)
    unfolding fill_files
    fill_files-Ends =
        let valid = lattice.0 in
        let (files, w, sent) =
          Returns-ok _ (write_csv m.to_chars g (banners m p))
            (write_csv-Returns m.to_chars g valid (banners m p)) in
        let (lines, l, described) =
          Returns-ok _ (print_metric_report g) (print_metric_report-Returns g valid) in
        elim (Bool-cases (is_bad m nodes_path files.nodes)) [
          | inl bad ↦ simp (w, bad) (inl refl, refl)
          | inr fine ↦ elim (Bool-cases (is_bad m edges_path files.edges)) [
            | inl bad ↦ simp (w, fine, bad) (inr refl, refl)
            | inr fine' ↦
                simp (w, fine, fine', l) (sent-IsEnd files lines sent described fine fine')
          ]
        ]

    open_files-Completes : Completes (open_files m p nodes_path edges_path g)
    unfolding open_files
    open_files-Completes = elim (Bool-cases (m.can_write nodes_path)) [
      | inr shut ↦ simp shut (inl refl, refl)
      | inl open_one ↦ elim (Bool-cases (m.can_write edges_path)) [
        | inr shut ↦ simp (open_one, shut) (inr refl, refl)
        | inl open_two ↦ simp (open_one, open_two) fill_files-Ends
      ]
    ]

  module _ (laws : IsOrdered W) (p : GeneratorParams W) (e : read_params m o ≡ right p)
      (small : IsSmall (right p)) where
    after-Completes :
        (r : Run (Graph W))
        → generate p ≡ r
        → Ends IsValidation (IsLattice p) r
        → Completes (after r (open_files m p nodes_path edges_path))
    after-Completes (ok g) e' lattice = open_files-Completes p g e e' lattice
    after-Completes (throw error) e' h = h
    after-Completes out_of_fuel e' h = absurd h

    write-Completes : Completes (after (generate p) (open_files m p nodes_path edges_path))
    write-Completes = after-Completes (generate p) refl (generate-Ends laws p small.0 small.1)

    generate_into-Completes : Completes (generate_into m o p)
    unfolding generate_into
    generate_into-Completes = elim (Bool-cases (m.same_path nodes_path edges_path)) [
      | inl same ↦ simp same refl
      | inr apart ↦ elim (Bool-cases o.force) [
        | inl force ↦ simp (apart, force) write-Completes
        | inr careful ↦ elim (Bool-cases (m.exists nodes_path)) [
          | inl there ↦ simp (apart, careful, there) (refl, inl refl, refl, refl)
          | inr free ↦ elim (Bool-cases (m.exists edges_path)) [
            | inl there ↦ simp (apart, careful, free, there) (refl, inr refl, refl, refl)
            | inr free' ↦ simp (apart, careful, free, free') write-Completes
          ]
        ]
      ]
    ]

    generate_checked-Completes :
        (problem : Option Reason) → Completes (generate_checked m o p problem)
    generate_checked-Completes none = generate_into-Completes
    generate_checked-Completes (some problem) = refl

  module _ (laws : IsOrdered W) where
    generate_with-Completes :
        (params : Params W)
        → read_params m o ≡ params
        → IsSmall params
        → Completes (generate_with m o params)
    generate_with-Completes (wrong error) e small = refl
    generate_with-Completes (right p) e small =
        generate_checked-Completes laws p e small (validate_generator_params p)

    -- The command ends with a usage error before any file is opened; with a file that exists already,
    -- before any is opened and without `--force`; with a file that cannot be opened, or one of two
    -- opened files that could not be written; with a GraphValidationError of the generator; or it has
    -- generated a lattice that meets the metric contract, and both files hold its lines under their
    -- comments.
    pub command_generate-Completes : Completes (command_generate m o)
    unfolding command_generate
    command_generate-Completes = elim (Option-cases (reject_unaccepted generate_keys true o)) [
      | inr (e, other) ↦ simp other refl
      | inl accepted ↦ elim (Bool-cases (generate_incomplete o)) [
        | inl missing ↦ simp (accepted, missing) refl
        | inr complete ↦
            simp (accepted, complete)
              (generate_with-Completes (read_params m o) refl (read_params-IsSmall m o))
      ]
    ]
