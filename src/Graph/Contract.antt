-- ===== src/Graph/Contract.antt =====
-- compute_metric_report (src/metric.cpp) over the arrays of a well formed graph, against the list of
-- the arcs that violate the contract.
mod Violations
pub use Violations.{arc_line, row_violations, violations_from, violations}
use Violations.{length-row_violations-le, row_violations-nil, violations_from-nil}
use route_engine_cpp.Shared.{
  ℕ, zero, suc, ◌+◌, ◌-◌, ◌≤◌, ◌<◌, ◌≡◌, refl, subst, List, [], ◌∷◌, ◌++◌, true, false, arith,
  length, get_or, take, drop, foldl, if◌then◌else◌, length-append, Bool-cases, inl, inr, Memᴰ, ltb,
  ltb→lt, ◌==◌, ==_iff, drop-cons,
}
use mathlib.Core.List.Memᴰ
use mathlib.Core.List.{append_assoc, append-nil}
use route_engine_cpp.Double.{Double, ◌≼◌}
use route_engine_cpp.Types.{Coord, Arc, NodeId, max_u32, incr}
use route_engine_cpp.Metric.{
  MetricReport, check_arc, check_row, check_rows, straight_line, no_coord, no_arc, initial_report,
  compute_metric_report,
}
use route_engine_cpp.Graph.{Graph, node_count, arc_count, row, sub_u32}
use route_engine_cpp.Graph.Rows.{IsValid, IsArc, offset-bounds, length-row, row-node}

module _ {W : Type 0} ⦃d : Double W⦄ where
  open d use {le}

  -- A report of the violating arcs `vs`, the first of which is named.
  abbrev pub Reports : List (NodeId × Arc W) → MetricReport W → Type 0
  Reports [] r = (r.passes ≡ true) × (r.violating_arcs ≡ 0)
  Reports ((source, a) ∷ vs) r =
      (r.passes ≡ false)
      × (r.violating_arcs ≡ suc (length vs))
      × (r.first_violation_source ≡ source)
      × (r.first_violation_target ≡ a.target)

  check_row-foldl :
      (coordinates : List (Coord W)) (arcs : List (Arc W)) (source rounds k : ℕ)
      (r : MetricReport W)
      → k + rounds ≤ length arcs
      → check_row coordinates arcs source rounds k r
        ≡ foldl (check_arc coordinates source) r (take rounds (drop k arcs))
  unfolding check_row
  check_row-foldl coordinates arcs source zero k r h = refl
  check_row-foldl coordinates arcs source (suc rounds) k r h =
      let next : k + 1 ≡ suc k = omega arith in
      rw (drop-cons k arcs no_arc (omega arith), next)
        (check_row-foldl coordinates arcs source rounds (suc k)
          (check_arc coordinates source r (get_or arcs k no_arc)) (omega arith))

  check_arc-Reports :
      (coordinates : List (Coord W)) (source : NodeId) (a : Arc W) (vs : List (NodeId × Arc W))
      (r : MetricReport W)
      → source ≤ max_u32
      → length vs ≤ max_u32
      → Reports vs r
      → Reports
          (vs ++ (if le (arc_line coordinates source a) a.weight then [] else (source, a) ∷ []))
          (check_arc coordinates source r a)
  unfolding check_arc incr
  check_arc-Reports coordinates source a [] r hs hv h = ground arith
  check_arc-Reports coordinates source a (v ∷ vs) r hs hv h =
      ground (arith, append-nil vs, length-append vs ((source, a) ∷ []))

  row-Reports :
      (coordinates : List (Coord W)) (source : NodeId) (arcs : List (Arc W))
      (vs : List (NodeId × Arc W)) (r : MetricReport W)
      → source ≤ max_u32
      → length vs + length arcs ≤ max_u32
      → Reports vs r
      → Reports
          (vs ++ row_violations coordinates source arcs)
          (foldl (check_arc coordinates source) r arcs)
  row-Reports coordinates source [] vs r hs hv h = rw (append-nil vs) h
  row-Reports coordinates source (a ∷ arcs) vs r hs hv h =
      let found : List (NodeId × Arc W) =
        if le (arc_line coordinates source a) a.weight then [] else (source, a) ∷ [] in
      let one : length found ≤ 1 = ground arith in
      subst (λ t. Reports t (foldl (check_arc coordinates source) r (a ∷ arcs)))
        (append_assoc vs found (row_violations coordinates source arcs))
        (row-Reports coordinates source arcs (vs ++ found) (check_arc coordinates source r a) hs
          (omega (arith, length-append vs found))
          (check_arc-Reports coordinates source a vs r hs (omega arith) h))

  module _ (g : Graph W) (valid : IsValid g) where
    sub_u32-row :
        (v : NodeId)
        → v < node_count g
        → get_or g.offsets (v + 1) 0 - get_or g.offsets v 0
          ≡ sub_u32 (get_or g.offsets (v + 1) 0) (get_or g.offsets v 0)
    sub_u32-row v h = omega (arith, offset-bounds g valid v h, valid.few_arcs)

    rows-Reports :
        (rounds source : ℕ) (vs : List (NodeId × Arc W)) (r : MetricReport W)
        → source + rounds ≡ node_count g
        → length vs ≤ get_or g.offsets source 0
        → Reports vs r
        → Reports
            (vs ++ violations_from g rounds source)
            (check_rows g.coordinates g.offsets g.arcs rounds source r)
    unfolding check_rows
    rows-Reports zero source vs r e hv h = rw (append-nil vs) h
    rows-Reports (suc rounds) source vs r e hv h =
        let first = get_or g.offsets source 0 in
        let in_range : source < node_count g = omega arith in
        let (rise, fits) = offset-bounds g valid source in_range in
        let new = row_violations g.coordinates source (row g source) in
        let fewer = length-row_violations-le g.coordinates source (row g source) in
        let sized = length-row g valid source in_range in
        subst (λ t. Reports t (check_rows g.coordinates g.offsets g.arcs (suc rounds) source r))
          (append_assoc vs new (violations_from g rounds (source + 1)))
          (rows-Reports rounds (source + 1) (vs ++ new) _ (omega arith)
            (omega (arith, length-append vs new))
            (rw
              (
                check_row-foldl g.coordinates g.arcs source
                    (get_or g.offsets (source + 1) 0 - first) first r (omega arith),
                sub_u32-row source in_range,
              )
              (row-Reports g.coordinates source (row g source) vs r (omega (arith, valid.few_nodes))
                (omega (arith, valid.few_arcs)) h)))

    -- The report counts exactly the arcs that are shorter than the straight line between their ends,
    -- and names the first of them in the order of the arc array; it passes if there is none.
    pub compute_metric_report-Reports :
        Reports (violations g) (compute_metric_report g.coordinates g.offsets g.arcs)
    unfolding compute_metric_report
    compute_metric_report-Reports = elim (Bool-cases (ltb (length g.offsets) 2)) [
      | inl none ↦
          let e : node_count g ≡ 0 = ground (arith, valid.offsets_length) in
          rw (none, e) (refl, refl)
      | inr some ↦
          let e : length g.offsets - 1 ≡ node_count g = omega (arith, valid.offsets_length) in
          rw (some, e)
            (rows-Reports (node_count g) 0 [] initial_report (omega arith) (omega arith)
              (refl, refl))
    ]

    Reports-passes :
        (vs : List (NodeId × Arc W)) (r : MetricReport W) → Reports vs r → r.passes ≡ true → vs ≡ []
    Reports-passes [] r h p = refl
    Reports-passes (v ∷ vs) r h p = ground arith

module _ {W : Type 0} ⦃d : Double W⦄ where
  -- If the report of a valid graph passes, no arc is shorter than the straight line between its ends.
  pub arc_line-le :
      (g : Graph W)
      → IsValid g
      → (compute_metric_report g.coordinates g.offsets g.arcs).passes ≡ true
      → (u v : NodeId) (w : W) → IsArc g u v w
      → straight_line (get_or g.coordinates u no_coord) (get_or g.coordinates v no_coord) ≼ w
  arc_line-le g valid passes u v w arc =
      let none =
        Reports-passes g valid (violations g) _ (compute_metric_report-Reports g valid) passes in
      row_violations-nil g.coordinates u (record { target = v; weight = w }) (row g u)
        (violations_from-nil g (node_count g) 0 u u (omega arith) (row-node g valid u _ arc) none)
        arc
