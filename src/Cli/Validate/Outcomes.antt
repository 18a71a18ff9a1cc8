-- ===== src/Cli/Validate/Outcomes.antt =====
-- `command_validate` of src/cli/main.cpp: what it ends with.
use route_engine_cpp.Shared.{
  ◌≡◌, refl, ◌⊎◌, inl, inr, false, ◌||◌, arith, Option-cases, none, Bool-cases, Run, ok, Ends,
  Returns-ok, ◌>>=◌, none-ne-some, sym,
}
use route_engine_cpp.Double.{Double}
use route_engine_cpp.Double.Laws.{IsOrdered}
use route_engine_cpp.Fields.{is_nil}
use route_engine_cpp.Graph.{Graph, node_count, arc_count}
use route_engine_cpp.Graph.Contract.{violations}
use route_engine_cpp.Options.{Options, reject_unaccepted}
use route_engine_cpp.Cli.{
  Machine, Exit, UsageError, usage_error, bad_options, options_missing, validated,
  print_metric_report,
}
use route_engine_cpp.Cli.Input.{IsInput, IsInputError, input-Ends}
use route_engine_cpp.Cli.Violations.{Described, print_metric_report-Returns}
use route_engine_cpp.Cli.Validate.{validate_keys, command_validate}

-- The options that `validate` takes, and no others.
abbrev pub IsRequest : Options → Type 0
IsRequest o =
    (reject_unaccepted validate_keys false o ≡ none) × (is_nil o.nodes || is_nil o.edges ≡ false)

module _ {W : Type 0} ⦃d : Double W⦄ (m : Machine W) (o : Options) where
  -- The counts of the input, and its violations of the metric contract.
  abbrev pub IsValidated : Exit W → Type 0
  IsValidated (validated nodes arcs lines) =
      (g : Graph W) × IsInput m o g
      × (nodes ≡ node_count g)
      × (arcs ≡ arc_count g)
      × Described g (violations g) lines.violation
  IsValidated _ = ⊥

  abbrev pub Validates : Run (Exit W) → Type 0
  Validates r =
      ((IsRequest o → ⊥) × (e : UsageError) × (r ≡ ok (usage_error e)))
      ⊎ (IsRequest o × Ends (IsInputError m o) IsValidated r)

  validated-Returns :
      (g : Graph W)
      → IsInput m o g
      → Ends
          (IsInputError m o)
          IsValidated
          (print_metric_report g >>= λ lines. ok (validated (node_count g) (arc_count g) lines))
  validated-Returns g input =
      let (lines, e, described) =
        Returns-ok _ (print_metric_report g) (print_metric_report-Returns g (input.4).valid) in
      rw e (g, input, refl, refl, described)

  -- A request that `validate` does not take is a usage error. Otherwise the command ends with a
  -- GraphLoadError about one of the two files, or reports the nodes and the arcs of the graph that they
  -- hold, and of its violations of the metric contract the number and the first.
  pub command_validate-Validates : IsOrdered W → Validates (command_validate m o)
  unfolding command_validate
  command_validate-Validates laws = elim (Option-cases (reject_unaccepted validate_keys false o)) [
    | inl accepted ↦ elim (Bool-cases (is_nil o.nodes || is_nil o.edges)) [
      | inl missing ↦ rw (accepted, missing) (inl (λ h. ground (arith, h), options_missing, refl))
      | inr complete ↦
          rw (accepted, complete)
            (inr (
              (refl, refl),
              input-Ends m o laws (IsInputError m o) IsValidated _ (λ e h. h) validated-Returns,
            ))
    ]
    | inr (e, other) ↦ rw other (inl (λ h. none-ne-some e (sym h.0), bad_options e, refl))
  ]
