-- ===== src/Graph/Rows.antt =====
-- The arrays of include/route/graph.hpp: which of them are well formed, and what their rows hold.
use route_engine_cpp.Shared.{
  ℕ, zero, suc, ◌+◌, ◌-◌, ◌≤◌, ◌<◌, ◌≡◌, refl, List, [], ◌∷◌, arith, length, get_or, take, drop,
  All, Memᴰ, All-get, ok, true, lt→ltb, ltb, ltb→lt, Bool-cases, inl, inr, ◌==◌, ==_iff, subst,
  drop-length, take-nil, get_or-beyond,
}
use mathlib.Core.List.Memᴰ
use route_engine_cpp.Double.{Double, ◌≼◌}
use route_engine_cpp.Types.{Arc, Coord, NodeId, max_u32}
use route_engine_cpp.Metric.{compute_metric_report, no_coord}
use route_engine_cpp.Graph.{
  Graph, node_count, arc_count, row, arcs_from, sub_u32, coordinate, external_id,
}

module _ {ℓ} {A : Type ℓ} where
  All-take : (P : A → Type 0) (n : ℕ) (xs : List A) → All P xs → All P (take n xs)
  All-take P zero xs h = tt
  All-take P (suc n) [] h = tt
  All-take P (suc n) (x ∷ xs) h = (h.0, All-take P n xs h.1)

  All-drop : (P : A → Type 0) (n : ℕ) (xs : List A) → All P xs → All P (drop n xs)
  All-drop P zero xs h = h
  All-drop P (suc n) [] h = tt
  All-drop P (suc n) (x ∷ xs) h = All-drop P n xs h.1

  length-take-drop : (n k : ℕ) (xs : List A) → n + k ≤ length xs → length (take n (drop k xs)) ≡ n
  length-take-drop zero k xs h = refl
  length-take-drop (suc n) zero [] h = absurd (omega arith)
  length-take-drop (suc n) zero (x ∷ xs) h = omega (arith, length-take-drop n zero xs)
  length-take-drop (suc n) (suc k) [] h = absurd (omega arith)
  length-take-drop (suc n) (suc k) (x ∷ xs) h = length-take-drop (suc n) k xs (omega arith)

module _ {W : Type 0} ⦃d : Double W⦄ where
  abbrev pub IsArcOf : Graph W → Arc W → Type 0
  IsArcOf g a = (a.target < node_count g) × (d.nought ≼ a.weight)

  abbrev pub IsCoord : Coord W → Type 0
  IsCoord c = (d.is_finite c.x ≡ true) × (d.is_finite c.y ≡ true)

  -- The arrays are those of a graph: sizes within 32 bits, offsets that cut the arc array into one
  -- slice for each node, arcs that lead to nodes and whose weights are not negative, an external id and
  -- a finite coordinate for each node, and the metric report of these arrays.
  pub record IsValid (g : Graph W) : Type 0 where
    pub few_nodes : node_count g ≤ max_u32
    pub few_arcs : arc_count g ≤ max_u32
    pub offsets_length : length g.offsets ≡ node_count g + 1
    pub offset_first : get_or g.offsets 0 0 ≡ 0
    pub offset_last : get_or g.offsets (node_count g) 0 ≡ arc_count g
    pub offsets_rise :
        (v : NodeId) → v < node_count g → get_or g.offsets v 0 ≤ get_or g.offsets (v + 1) 0
    pub arcs_fit : All (IsArcOf g) g.arcs
    pub ids_length : length g.external_ids ≡ node_count g
    pub coordinates_fit : All IsCoord g.coordinates
    pub report : g.metric ≡ compute_metric_report g.coordinates g.offsets g.arcs

  -- There is an arc from `u` to `v` of weight `w`.
  abbrev pub IsArc : Graph W → NodeId → NodeId → W → Type 0
  IsArc g u v w = Memᴰ (record { target = v; weight = w }) (row g u)

  module _ (g : Graph W) (valid : IsValid g) where
    pub offset-le : (k v : NodeId) → v + k ≡ node_count g → get_or g.offsets v 0 ≤ arc_count g
    offset-le zero v e =
        let e' : v ≡ node_count g = omega arith in rw e' (omega (arith, valid.offset_last))
    offset-le (suc k) v e =
        omega (arith, offset-le k (v + 1) (omega arith), valid.offsets_rise v (omega arith))

    pub offset-bounds :
        (v : NodeId)
        → v < node_count g
        → (get_or g.offsets v 0 ≤ get_or g.offsets (v + 1) 0)
          × (get_or g.offsets (v + 1) 0 ≤ arc_count g)
    offset-bounds v h =
        (valid.offsets_rise v h, offset-le (node_count g - (v + 1)) (v + 1) (omega arith))

    pub length-row :
        (v : NodeId)
        → v < node_count g
        → get_or g.offsets v 0 + length (row g v) ≡ get_or g.offsets (v + 1) 0
    length-row v h =
        let (rise, fits) = offset-bounds v h in
        let small = valid.few_arcs in
        let first = get_or g.offsets v 0 in
        let last = get_or g.offsets (v + 1) 0 in
        omega (arith, length-take-drop (sub_u32 last first) first g.arcs (omega arith))

    pub row-IsArcOf : (v : NodeId) → All (IsArcOf g) (row g v)
    row-IsArcOf v = All-take _ _ _ (All-drop _ _ _ valid.arcs_fit)

    pub arc-IsArcOf : (u v : NodeId) (w : W) → IsArc g u v w → (v < node_count g) × (d.nought ≼ w)
    arc-IsArcOf u v w m = All-get (IsArcOf g) (row g u) (row-IsArcOf u) m

    pub arcs_from-ok : (v : NodeId) → v < node_count g → arcs_from g v ≡ ok (row g v)
    unfolding arcs_from
    arcs_from-ok v h = rw (lt→ltb v (node_count g) h)

module _ {W : Type 0} (g : Graph W) where
  pub coordinate-ok :
      ⦃d : Double W⦄ (v : NodeId)
      → v < node_count g
      → coordinate g v ≡ ok (get_or g.coordinates v no_coord)
  unfolding coordinate
  coordinate-ok v h = rw (lt→ltb v (node_count g) h) refl

  pub external_id-ok :
      (v : NodeId) → v < node_count g → external_id g v ≡ ok (get_or g.external_ids v 0)
  unfolding external_id
  external_id-ok v h = rw (lt→ltb v (node_count g) h) refl

module _ {W : Type 0} ⦃d : Double W⦄ where
  row-nil : (g : Graph W) → IsValid g → (u : NodeId) → node_count g ≤ u → row g u ≡ []
  row-nil g valid u h = elim (Bool-cases (u == node_count g)) [
    | inl e ↦
        let last : get_or g.offsets u 0 ≡ arc_count g =
          rw ((==_iff u (node_count g)).0 e) valid.offset_last in
        rw (last, drop-length g.arcs)
          (take-nil (sub_u32 (get_or g.offsets (u + 1) 0) (arc_count g)))
    | inr ne ↦
        let beyond : length g.offsets ≤ u = ground (arith, valid.offsets_length) in
        rw (get_or-beyond g.offsets u 0 beyond, get_or-beyond g.offsets (u + 1) 0 (omega arith))
  ]

  -- The node of a row that holds an arc is a node of the graph.
  pub row-node :
      (g : Graph W) → IsValid g → (u : NodeId) (a : Arc W) → Memᴰ a (row g u) → u < node_count g
  row-node g valid u a m = elim (Bool-cases (ltb u (node_count g))) [
    | inl inside ↦ ltb→lt u (node_count g) inside
    | inr outside ↦ absurd (Memᴰ.not-nil (subst (Memᴰ a) (row-nil g valid u (ground arith)) m))
  ]
