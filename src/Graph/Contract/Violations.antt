-- ===== src/Graph/Contract/Violations.antt =====
-- The arcs of a graph that are shorter than the straight line between their ends, as a list: what
-- compute_metric_report (src/metric.cpp) counts.
use route_engine_cpp.Shared.{
  ℕ, zero, suc, ◌+◌, ◌≤◌, ◌<◌, ◌≡◌, refl, subst, List, [], ◌∷◌, ◌++◌, arith, length, get_or,
  if◌then◌else◌, inl, inr, Memᴰ,
}
use mathlib.Core.List.Memᴰ
use route_engine_cpp.Double.{Double, ◌≼◌}
use route_engine_cpp.Types.{Coord, Arc, NodeId}
use route_engine_cpp.Metric.{straight_line, no_coord}
use route_engine_cpp.Graph.{Graph, node_count, row}

append-nil_parts {ℓ} : {A : Type ℓ} (xs ys : List A) → xs ++ ys ≡ [] → (xs ≡ []) × (ys ≡ [])
append-nil_parts [] ys h = (refl, h)
append-nil_parts (x ∷ xs) ys h = cc

module _ {W : Type 0} ⦃d : Double W⦄ where
  open d use {le}

  -- The straight line from a node to the end of an arc.
  abbrev pub arc_line : List (Coord W) → NodeId → Arc W → W
  arc_line coordinates source a =
      straight_line (get_or coordinates source no_coord) (get_or coordinates a.target no_coord)

  -- The arcs of a row that are shorter than the straight line, each with its source.
  abbrev pub row_violations : List (Coord W) → NodeId → List (Arc W) → List (NodeId × Arc W)
  row_violations coordinates source [] = []
  row_violations coordinates source (a ∷ arcs) =
      (if le (arc_line coordinates source a) a.weight then [] else (source, a) ∷ [])
      ++ row_violations coordinates source arcs

  -- The violating arcs of the rows of `source` and the `rounds - 1` nodes after it.
  abbrev pub violations_from : Graph W → (rounds source : ℕ) → List (NodeId × Arc W)
  violations_from g zero source = []
  violations_from g (suc rounds) source =
      row_violations g.coordinates source (row g source) ++ violations_from g rounds (source + 1)

  abbrev pub violations : Graph W → List (NodeId × Arc W)
  violations g = violations_from g (node_count g) 0

  pub length-row_violations-le :
      (coordinates : List (Coord W)) (source : NodeId) (arcs : List (Arc W))
      → length (row_violations coordinates source arcs) ≤ length arcs
  length-row_violations-le coordinates source [] = omega arith
  length-row_violations-le coordinates source (a ∷ arcs) =
      ground (arith, length-row_violations-le coordinates source arcs)

  pub row_violations-nil :
      (coordinates : List (Coord W)) (source : NodeId) (a : Arc W) (arcs : List (Arc W))
      → row_violations coordinates source arcs ≡ []
      → Memᴰ a arcs
      → arc_line coordinates source a ≼ a.weight
  row_violations-nil coordinates source a [] h m = absurd (Memᴰ.not-nil m)
  row_violations-nil coordinates source a (b ∷ arcs) h m =
      let (first, rest) = append-nil_parts _ (row_violations coordinates source arcs) h in
      elim (Memᴰ.cases_cons m) [
        | inl e ↦ rw e (ground arith)
        | inr more ↦ row_violations-nil coordinates source a arcs rest more
      ]

  pub violations_from-nil :
      (g : Graph W) (rounds source u k : ℕ)
      → source + k ≡ u
      → k < rounds
      → violations_from g rounds source ≡ []
      → row_violations g.coordinates u (row g u) ≡ []
  violations_from-nil g zero source u k e h v = absurd (omega arith)
  violations_from-nil g (suc rounds) source u zero e h v =
      let here : source ≡ u = omega arith in
      subst (λ t. row_violations g.coordinates t (row g t) ≡ []) here (append-nil_parts _ _ v).0
  violations_from-nil g (suc rounds) source u (suc k) e h v =
      violations_from-nil g rounds (source + 1) u k (omega arith) (omega arith)
        (append-nil_parts _ _ v).1
