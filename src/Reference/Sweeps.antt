-- ===== src/Reference/Sweeps.antt =====
-- The rounds of tests/support/bellman_ford.hpp: what a round does to the distances.
use mathlib.Core.List.{Memᴰ}
use route_engine_cpp.Shared.{
  ℕ, zero, suc, ◌+◌, ◌≤◌, ◌<◌, ◌≡◌, refl, sym, subst, ◌∙◌, ◌⊎◌, inl, inr, List, [], ◌∷◌, true,
  false, arith, length, All, All-self, All-get, length-set, get_or-set_self, get_or-set_ne,
  eq_or_ne, Bool-cases, Returns, Returns-bind, Returns-map,
}
use route_engine_cpp.Double.{Double, ◌≼◌}
use route_engine_cpp.Double.Laws.{IsOrdered, le_between, le_of_lt, le_of_not_lt}
use route_engine_cpp.Types.{Arc, NodeId}
use route_engine_cpp.Graph.{Graph, node_count, row}
use route_engine_cpp.Graph.Rows.{IsValid, IsArc, arc-IsArcOf, arcs_from-ok}
use route_engine_cpp.Search.Walk.{Walk, onward, walk_nonneg}
use route_engine_cpp.Search.Invariant.{dist}
use route_engine_cpp.Reference.{Sweep, try_arc, try_arcs, visit, sweep}

module _ {W : Type 0} ⦃d : Double W⦄ (laws : IsOrdered W) (g : Graph W) (valid : IsValid g)
    (src : NodeId) where
  open d use {nought, infinity, add, lt, le, eq}

  pub infinity_nonneg : nought ≼ infinity
  infinity_nonneg = laws.le-infinity nought laws.nought_refl

  -- A distance is infinity, or the cost of a walk.
  pub record IsEstimate (distance : List W) : Type 0 where
    pub size : length distance ≡ node_count g
    pub walked :
        (v : NodeId)
        → (dist distance v ≡ infinity)
          ⊎ ((path : List NodeId) × Walk g src path v (dist distance v))

  pub estimate_nonneg :
      (distance : List W) → IsEstimate distance → (v : NodeId) → nought ≼ dist distance v
  estimate_nonneg distance inv v = elim (inv.walked v) [
    | inl e ↦ le_between refl e infinity_nonneg
    | inr (path, walk) ↦ walk_nonneg laws g valid walk
  ]

  -- No distance grows, and a change is noted.
  pub record Step (s s' : Sweep W) : Type 0 where
    pub estimate : IsEstimate s'.distance
    pub lower : (v : NodeId) → dist s'.distance v ≼ dist s.distance v
    pub noted : s'.changed ≡ false → (s.changed ≡ false) × (s'.distance ≡ s.distance)

  Step-refl : (s : Sweep W) → IsEstimate s.distance → Step s s
  Step-refl s inv = record {
    estimate = inv;
    lower = λ v. laws.le_refl _ (estimate_nonneg s.distance inv v);
    noted = λ h. (h, refl);
  }

  Step-trans : (s s' s'' : Sweep W) → Step s s' → Step s' s'' → Step s s''
  Step-trans s s' s'' one two = record {
    estimate = two.estimate;
    lower = λ v. laws.le_trans _ _ _ (two.lower v) (one.lower v);
    noted = λ h. let (same, e) = two.noted h in let (same', e') = one.noted same in (same', e ∙ e');
  }

  -- The arc from `u` to `v` of weight `w` would not improve a distance.
  abbrev pub IsFollowed : List W → W → Arc W → Type 0
  IsFollowed distance from_distance a = dist distance a.target ≼ add from_distance a.weight

  module _ (u : NodeId) (from_distance : W) (path : List NodeId)
      (walk : Walk g src path u from_distance) where
    better-Step :
        (a : Arc W) (s : Sweep W)
        → IsEstimate s.distance
        → Memᴰ a (row g u)
        → lt (add from_distance a.weight) (dist s.distance a.target) ≡ true
        → Step s (try_arc from_distance a s)
          × IsFollowed (try_arc from_distance a s).distance from_distance a
    unfolding try_arc
    better-Step a s inv mem better =
        let (v_node, w_nonneg) = arc-IsArcOf g valid u a.target a.weight mem in
        let c : W = add from_distance a.weight in
        let c_nonneg : nought ≼ c = laws.add_nonneg _ _ (walk_nonneg laws g valid walk) w_nonneg in
        let inside : a.target < length s.distance = omega (arith, inv.size, v_node) in
        let at = get_or-set_self s.distance a.target c infinity inside in
        let off = get_or-set_ne s.distance a.target c infinity inside in
        simp better (
          record {
            estimate = record {
              size = length-set s.distance a.target c ∙ inv.size;
              walked = λ v. elim (eq_or_ne v a.target) [
                | inl e ↦ rw (e, at) (inr (a.target ∷ path, onward a.target a.weight walk mem))
                | inr ne ↦ rw (off v ne) (inv.walked v)
              ];
            };
            lower = λ v. elim (eq_or_ne v a.target) [
              | inl e ↦
                  rw (e, at)
                    (le_of_lt laws _ _ c_nonneg (estimate_nonneg s.distance inv a.target) better)
              | inr ne ↦ rw (off v ne) (laws.le_refl _ (estimate_nonneg s.distance inv v))
            ];
            noted = λ h. cc;
          },
          le_between at refl (laws.le_refl _ c_nonneg),
        )

    try_arc-Step :
        (a : Arc W) (s : Sweep W)
        → IsEstimate s.distance
        → Memᴰ a (row g u)
        → Step s (try_arc from_distance a s)
          × IsFollowed (try_arc from_distance a s).distance from_distance a
    unfolding try_arc
    try_arc-Step a s inv mem =
        elim (Bool-cases (lt (add from_distance a.weight) (dist s.distance a.target))) [
          | inl better ↦ better-Step a s inv mem better
          | inr worse ↦
              let w_nonneg = (arc-IsArcOf g valid u a.target a.weight mem).1 in
              simp worse (
                Step-refl s inv,
                le_of_not_lt laws _ _ (laws.add_nonneg _ _ (walk_nonneg laws g valid walk) w_nonneg)
                    (estimate_nonneg s.distance inv a.target) worse,
              )
        ]

    try_arcs-Step :
        (arcs : List (Arc W)) (s : Sweep W)
        → IsEstimate s.distance
        → All (λ a. Memᴰ a (row g u)) arcs
        → Step s (try_arcs from_distance arcs s)
          × All (IsFollowed (try_arcs from_distance arcs s).distance from_distance) arcs
    unfolding try_arcs
    try_arcs-Step [] s inv mem = (Step-refl s inv, tt)
    try_arcs-Step (a ∷ arcs) s inv mem =
        let s' = try_arc from_distance a s in
        let (one, followed) = try_arc-Step a s inv mem.0 in
        let (more, rest) = try_arcs-Step arcs s' one.estimate mem.1 in
        (Step-trans s s' _ one more, (laws.le_trans _ _ _ (more.lower a.target) followed, rest))

  -- Every arc of `u` has been tried from the distance that `u` had.
  abbrev pub AreFollowed : NodeId → Sweep W → Sweep W → Type 0
  AreFollowed u s s' =
      (v : NodeId) (w : W) → IsArc g u v w → dist s'.distance v ≼ add (dist s.distance u) w

  visit-Step :
      (u : NodeId) (s : Sweep W)
      → IsEstimate s.distance
      → u < node_count g
      → Returns (λ s'. Step s s' × AreFollowed u s s') (visit g u s)
  unfolding visit
  visit-Step u s inv u_node = elim (Bool-cases (eq (dist s.distance u) infinity)) [
    | inl far ↦
        let nonneg = estimate_nonneg s.distance inv u in
        let top : infinity ≼ dist s.distance u =
          ground (arith, laws.eq-eq-le (dist s.distance u) infinity nonneg infinity_nonneg) in
        simp far (
          Step-refl s inv,
          λ v w arc.
              laws.le_trans _ _ _ (laws.le-infinity _ (estimate_nonneg s.distance inv v)) (
                laws.le_trans _ _ _ top (laws.le-add _ _ nonneg (arc-IsArcOf g valid u v w arc).1)),
        )
    | inr near ↦ elim (inv.walked u) [
      | inl e ↦ absurd (
          ground (
            arith,
            e,
            laws.eq-eq-le infinity infinity infinity_nonneg infinity_nonneg,
            laws.le_refl infinity infinity_nonneg,
          ))
      | inr (path, walk) ↦
          let (step, followed) =
            try_arcs-Step u (dist s.distance u) path walk (row g u) s inv (All-self (row g u)) in
          simp (near, arcs_from-ok g valid u u_node)
            (step, λ v w arc. All-get (IsFollowed _ (dist s.distance u)) (row g u) followed arc)
    ]
  ]

  -- A round: every arc of the nodes from `u` on has been tried, from a distance no greater than before.
  pub sweep-Step :
      (left : ℕ) (u : NodeId) (s : Sweep W)
      → IsEstimate s.distance
      → u + left ≡ node_count g
      → Returns
          (λ s'. Step s s' × ((x : NodeId) → u ≤ x → x < node_count g → AreFollowed x s s'))
          (sweep g left u s)
  unfolding sweep
  sweep-Step zero u s inv e = (Step-refl s inv, λ x h h'. absurd (omega arith))
  sweep-Step (suc left) u s inv e =
      Returns-bind (λ s'. Step s s' × AreFollowed u s s') _ (visit g u s) (sweep g left (u + 1))
        (visit-Step u s inv (omega arith))
        λ s' (one, followed).
          Returns-map _ _ (sweep g left (u + 1) s')
            (sweep-Step left (u + 1) s' one.estimate (omega arith))
            λ s'' (more, rest). (
              Step-trans s s' s'' one more,
              λ x h h' v w arc. elim (eq_or_ne x u) [
                | inl same ↦
                    laws.le_trans _ _ _ (more.lower v)
                      (subst (λ t. AreFollowed t s s') (sym same) followed v w arc)
                | inr ne ↦ laws.le_trans _ _ _ (rest x (omega (arith, ne)) h' v w arc) (
                    laws.add_mono _ _ _ (estimate_nonneg s'.distance one.estimate x)
                      (arc-IsArcOf g valid x v w arc).1 (one.lower x))
              ],
            )
