-- ===== src/Search/Grounded.antt =====
-- The steps of `search` (src/search.cpp) with any heuristic: an improvement, a stale entry, and a node
-- that becomes settled.
use route_engine_cpp.Shared.{
  count, count-set, ℕ, suc, ◌≤◌, ◌<◌, ◌≡◌, ◌≢◌, refl, sym, subst, ◌∙◌, inl, inr, List, ◌∷◌, Bool,
  true, false, arith, length, set, All-map, length-set, get_or-set_self, get_or-set_ne, eq_or_ne,
}
use route_engine_cpp.Double.{Double, ◌≼◌}
use route_engine_cpp.Double.Laws.{IsOrdered, not_le_of_lt}
use route_engine_cpp.Types.{NodeId, to_u32}
use route_engine_cpp.Graph.{Graph, node_count}
use route_engine_cpp.Graph.Rows.{IsValid, IsArc, arc-IsArcOf}
use route_engine_cpp.Search.{Entry, push, no_parent}
use route_engine_cpp.Search.Queue.{All-push}
use route_engine_cpp.Search.Walk.{Trail, follow, Trail-update}
use route_engine_cpp.Search.Invariant.{Grounded, dist, done, parent_of, IsReached, TrailTo}

-- A strict improvement of the open node `v` to the cost `c`, by an arc from the settled node `u`.
module _ {W : Type 0} ⦃d : Double W⦄ (laws : IsOrdered W) (g : Graph W) (valid : IsValid g)
    (src : NodeId) (distance : List W) (parent : List NodeId) (settled : List Bool)
    (queue : List (Entry W)) (inv : Grounded g src distance parent settled queue) (u v : NodeId)
    (w c : W) (c_eq : c ≡ d.add (dist distance u) w) (u_done : done settled u ≡ true)
    (u_node : u < node_count g) (arc : IsArc g u v w) (v_open : done settled v ≡ false)
    (better : d.lt c (dist distance v) ≡ true) where
  open d use {nought, infinity, add, lt, le}

  v_node : v < node_count g
  v_node = (arc-IsArcOf g valid u v w arc).0

  pub improved-nonneg : nought ≼ c
  improved-nonneg = rw c_eq (laws.add_nonneg _ _ (inv.nonneg u) (arc-IsArcOf g valid u v w arc).1)

  pub improved_self : dist (set distance v c) v ≡ c
  improved_self = get_or-set_self distance v c infinity (omega (arith, inv.distance_size, v_node))

  pub improved-other : (x : NodeId) → x ≢ v → dist (set distance v c) x ≡ dist distance x
  improved-other x ne =
      get_or-set_ne distance v c infinity (omega (arith, inv.distance_size, v_node)) x ne

  v-ne-src : v ≢ src
  v-ne-src same =
      let at_nought : dist distance v ≡ nought =
        subst (λ x. dist distance x ≡ nought) (sym same) inv.at_source in
      ground (
        arith,
        not_le_of_lt laws c (dist distance v) improved-nonneg (inv.nonneg v),
        improved-nonneg,
      )

  c_reached : lt c infinity ≡ true
  c_reached =
      let inf : nought ≼ infinity = laws.le-infinity nought laws.nought_refl in
      ground (
        arith,
        laws.lt-eq-not-le c infinity improved-nonneg inf,
        not_le_of_lt laws c (dist distance v) improved-nonneg (inv.nonneg v) better,
        laws.le-infinity (dist distance v) (inv.nonneg v),
        laws.le_trans (dist distance v) infinity c,
      )

  done-ne : (x : NodeId) → done settled x ≡ true → x ≢ v
  done-ne x h same = ground arith

  pub improved-kept :
      (x : NodeId) → done settled x ≡ true → dist (set distance v c) x ≡ dist distance x
  improved-kept x h = improved-other x (done-ne x h)

  reached' : (x : NodeId) → IsReached distance x → IsReached (set distance v c) x
  reached' x h = elim (eq_or_ne x v) [
    | inl e ↦ rw (e, improved_self) c_reached
    | inr ne ↦ rw (improved-other x ne) h
  ]

  kept_parent : (y : NodeId) → y ≢ v → parent_of (set parent v (to_u32 u)) y ≡ parent_of parent y
  kept_parent y off =
      get_or-set_ne parent v (to_u32 u) no_parent (omega (arith, inv.parent_size, v_node)) y off

  trail' :
      (x : NodeId) (k : ℕ)
      → x ≢ v
      → TrailTo g src distance parent settled x k
      → TrailTo g src (set distance v c) (set parent v (to_u32 u)) settled x k
  trail' x k ne (path, trail, short) = (
    path,
    rw (improved-other x ne)
        (Trail-update (λ y h. h) (λ y h. kept_parent y (done-ne y h)) (kept_parent x ne) trail),
    short,
  )

  new_trail :
      TrailTo g src (set distance v c) (set parent v (to_u32 u)) settled v (suc (count settled))
  new_trail =
      let off = done-ne u u_done in
      let (path, trail, short) = trail' u (count settled) off (inv.inner u u_done).0 in
      let at_slot =
        get_or-set_self parent v (to_u32 u) no_parent (omega (arith, inv.parent_size, v_node)) in
      let up : parent_of (set parent v (to_u32 u)) v ≡ u =
        omega (arith, at_slot, valid.few_nodes, u_node) in
      let cost : add (dist (set distance v c) u) w ≡ dist (set distance v c) v =
        rw (improved-other u off, improved_self) (sym c_eq) in
      (
        v ∷ path,
        subst (λ t. Trail g src (done settled) (parent_of (set parent v (to_u32 u))) (v ∷ path) v t)
            cost (follow v w trail arc u_done up v-ne-src),
        omega arith,
      )

  -- The improvement keeps every cost grounded, whatever the priority of the new entry.
  pub improved-Grounded :
      (e : Entry W)
      → e.node ≡ v
      → Grounded g src (set distance v c) (set parent v (to_u32 u)) settled (push e queue)
  improved-Grounded e at = record {
    distance_size = length-set distance v c ∙ inv.distance_size;
    parent_size = length-set parent v (to_u32 u) ∙ inv.parent_size;
    settled_size = inv.settled_size;
    nonneg = λ x. elim (eq_or_ne x v) [
      | inl same ↦ rw (same, improved_self) improved-nonneg
      | inr ne ↦ rw (improved-other x ne) (inv.nonneg x)
    ];
    at_source = improved-other src (λ same. v-ne-src (sym same)) ∙ inv.at_source;
    entries =
        All-push (λ x. (x.node < node_count g) × IsReached (set distance v c) x.node) e queue
          (rw (at, improved_self) (v_node, c_reached))
          (All-map (λ x (node, reached). (node, reached' x.node reached)) queue inv.entries);
    inner = λ x h. (trail' x _ (done-ne x h) (inv.inner x h).0, reached' x (inv.inner x h).1);
    outer = λ y open_y reached. elim (eq_or_ne y v) [
      | inl same ↦ rw same new_trail
      | inr ne ↦ trail' y _ ne (inv.outer y open_y (rw (improved-other y ne) at reached))
    ];
  }

-- A stale entry is dropped.
module _ {W : Type 0} ⦃d : Double W⦄ (g : Graph W) (src : NodeId) (distance : List W)
    (parent : List NodeId) (settled : List Bool) (entry : Entry W) (rest : List (Entry W))
    (inv : Grounded g src distance parent settled (entry ∷ rest)) where
  pub stale-Grounded : Grounded g src distance parent settled rest
  stale-Grounded = record {
    distance_size = inv.distance_size;
    parent_size = inv.parent_size;
    settled_size = inv.settled_size;
    nonneg = inv.nonneg;
    at_source = inv.at_source;
    entries = inv.entries.1;
    inner = inv.inner;
    outer = inv.outer;
  }

-- The head of the queue is an open node, which becomes settled.
module _ {W : Type 0} ⦃d : Double W⦄ (g : Graph W) (src : NodeId) (distance : List W)
    (parent : List NodeId) (settled : List Bool) (entry : Entry W) (rest : List (Entry W))
    (inv : Grounded g src distance parent settled (entry ∷ rest))
    (open_u : done settled entry.node ≡ false) where
  abbrev later : List Bool
  later = set settled entry.node true

  size : entry.node < length settled
  size = omega (arith, inv.settled_size, inv.entries.0.0)

  pub settled_at : done later entry.node ≡ true
  settled_at = get_or-set_self settled entry.node true false size

  pub settled_other : (x : NodeId) → x ≢ entry.node → done later x ≡ done settled x
  settled_other x ne = get_or-set_ne settled entry.node true false size x ne

  still_done : (x : NodeId) → done settled x ≡ true → done later x ≡ true
  still_done x h = elim (eq_or_ne x entry.node) [
    | inl e ↦ subst (λ t. done later t ≡ true) (sym e) settled_at
    | inr ne ↦ settled_other x ne ∙ h
  ]

  later_trail :
      (x : NodeId) (j k : ℕ)
      → j ≤ k
      → TrailTo g src distance parent settled x j
      → TrailTo g src distance parent later x k
  later_trail x j k le (path, trail, short) =
      (path, Trail-update still_done (λ y h. refl) refl trail, omega arith)

  counted : count later ≡ suc (count settled)
  counted = count-set settled entry.node size open_u

  pub settle-Grounded : Grounded g src distance parent later rest
  settle-Grounded = record {
    distance_size = inv.distance_size;
    parent_size = inv.parent_size;
    settled_size = length-set settled entry.node true ∙ inv.settled_size;
    nonneg = inv.nonneg;
    at_source = inv.at_source;
    entries = inv.entries.1;
    inner = λ x h. elim (eq_or_ne x entry.node) [
      | inl e ↦
          subst (λ t. TrailTo g src distance parent later t (count later) × IsReached distance t)
            (sym e)
            (
              later_trail entry.node _ _ (omega (arith, counted))
                  (inv.outer entry.node open_u inv.entries.0.1),
              inv.entries.0.1,
            )
      | inr ne ↦
          let (trail, reached) = inv.inner x (sym (settled_other x ne) ∙ h) in
          (later_trail x _ _ (omega (arith, counted)) trail, reached)
    ];
    outer = λ x h reached.
        let ne : x ≢ entry.node = λ same. ground (arith, settled_at) in
        later_trail x _ _ (omega (arith, counted))
          (inv.outer x (sym (settled_other x ne) ∙ h) reached);
  }
