-- ===== src/Cli/Violations.antt =====
-- `print_metric_report` of src/cli/main.cpp, on a valid graph.
use route_engine_cpp.Shared.{
  ℕ, zero, suc, ◌+◌, ◌<◌, ◌≡◌, refl, sym, ap, subst, ◌∙◌, Bool-cases, inl, inr, List, [], ◌∷◌,
  arith, Option, none, some, length, get_or, All, All-append, ok, Returns,
}
use route_engine_cpp.Double.{Double}
use route_engine_cpp.Types.{Arc, NodeId, ExternalId}
use route_engine_cpp.Graph.{Graph, row, node_count, external_id}
use route_engine_cpp.Graph.Rows.{IsValid, external_id-ok, IsArcOf, row-IsArcOf}
use route_engine_cpp.Graph.Contract.{
  arc_line, row_violations, violations_from, violations, Reports, compute_metric_report-Reports,
}
use route_engine_cpp.Cli.{print_metric_report}

module _ {W : Type 0} (g : Graph W) where
  -- What the report prints of the violating arcs: their number and the external ids of the first.
  abbrev pub Described : List (NodeId × Arc W) → Option (ℕ × ExternalId × ExternalId) → Type 0
  Described [] lines = lines ≡ none
  Described ((source, a) ∷ vs) lines =
      (s : ExternalId) × (t : ExternalId) × (lines ≡ some (suc (length vs), s, t))
      × (external_id g source ≡ ok s)
      × (external_id g a.target ≡ ok t)

module _ {W : Type 0} ⦃d : Double W⦄ (g : Graph W) (valid : IsValid g) where
  -- A violating arc stands between two nodes.
  abbrev IsInside : NodeId × Arc W → Type 0
  IsInside (source, a) = (source < node_count g) × (a.target < node_count g)

  row_violations-All :
      (source : NodeId) (arcs : List (Arc W))
      → source < node_count g
      → All (IsArcOf g) arcs
      → All IsInside (row_violations g.coordinates source arcs)
  row_violations-All source [] h all = tt
  row_violations-All source (a ∷ arcs) h (fit, all) =
      elim (Bool-cases (d.le (arc_line g.coordinates source a) a.weight)) [
        | inl fine ↦ rw fine (row_violations-All source arcs h all)
        | inr short ↦ rw short ((h, fit.0), row_violations-All source arcs h all)
      ]

  violations_from-All :
      (rounds source : ℕ)
      → source + rounds ≡ node_count g
      → All IsInside (violations_from g rounds source)
  violations_from-All zero source e = tt
  violations_from-All (suc rounds) source e =
      All-append IsInside (row_violations g.coordinates source (row g source)) _
        (row_violations-All source (row g source) (omega arith) (row-IsArcOf g valid source))
        (violations_from-All rounds (source + 1) (omega arith))

  report-Returns :
      (vs : List (NodeId × Arc W))
      → All IsInside vs
      → Reports vs g.metric
      → Returns (λ lines. Described g vs lines.violation) (print_metric_report g)
  unfolding print_metric_report
  report-Returns [] h r = rw (r.0) refl
  report-Returns ((source, a) ∷ vs) (h, _) r =
      let s : external_id g g.metric.first_violation_source ≡ ok (get_or g.external_ids source 0) =
        ap (external_id g) r.2 ∙ external_id-ok g source h.0 in
      let t : external_id g g.metric.first_violation_target
          ≡ ok (get_or g.external_ids a.target 0) =
        ap (external_id g) r.3 ∙ external_id-ok g a.target h.1 in
      simp (s, t, r.0, r.1) (_, _, refl, external_id-ok g source h.0, external_id-ok g a.target h.1)

  -- On a valid graph the report names the first of the violating arcs, and counts them all.
  pub print_metric_report-Returns :
      Returns (λ lines. Described g (violations g) lines.violation) (print_metric_report g)
  print_metric_report-Returns =
      report-Returns (violations g) (violations_from-All (node_count g) 0 (omega arith))
        (subst (Reports (violations g)) (sym valid.report) (compute_metric_report-Reports g valid))
