-- ===== src/Builder/Result.antt =====
-- GraphBuilder (src/builder.cpp) from its construction to `build`: every builder that its calls reach
-- makes a well formed graph once all nodes are set, and refuses every call after that.
use route_engine_cpp.Shared.{
  count, ℕ, zero, suc, ◌<◌, ◌≡◌, ◌≢◌, refl, ap, ◌∙◌, List, [], ◌∷◌, map, Bool, true, false, arith,
  length, get_or, ok, throw, All-map, WhenOk, subst, eq_or_ne, inl, inr, Returns, graph_validation,
  consumed, never_set,
}
use route_engine_cpp.Double.{Double}
use route_engine_cpp.Double.Laws.{IsOrdered}
use route_engine_cpp.Types.{Arc, NodeId, Coord, ExternalId}
use route_engine_cpp.Graph.{Graph, arcs_from, make_graph}
use route_engine_cpp.Graph.Rows.{IsValid, arcs_from-ok}
use route_engine_cpp.Builder.{
  Builder, make_builder, set_node, add_arc, build, sort, to_arc, first_unset,
}
use route_engine_cpp.Builder.Invariant.{
  IsBuilding, make_builder-IsBuilding, set_node-IsBuilding, add_arc-IsBuilding,
}
use route_engine_cpp.Builder.Build.{built, built-IsValid}
use mathlib.Core.List.{Permᴰ}
use route_engine_cpp.Builder.Order.{IsRowOrder, sort_permuted, row_permuted, sorted_row-IsRowOrder}
use route_engine_cpp.Builder.Partition.{outgoing, row-built}

-- The first flag that is not set.
first_unset_lem :
    (bs : List Bool)
    → count bs ≢ length bs
    → (first_unset bs < length bs)
      × (get_or bs (first_unset bs) true ≡ false)
      × ((j : ℕ) → j < first_unset bs → get_or bs j false ≡ true)
unfolding first_unset
first_unset_lem [] h = absurd (h refl)
first_unset_lem (true ∷ bs) h =
    let (lt, unset, before) = first_unset_lem bs (λ e. h (ap suc e)) in
    (omega arith, unset, earlier before)
  where
    earlier :
        ((j : ℕ) → j < first_unset bs → get_or bs j false ≡ true)
        → (j : ℕ) → j < suc (first_unset bs)
        → get_or (true ∷ bs) j false ≡ true
    earlier before zero lt = refl
    earlier before (suc j) lt = before j (omega arith)
first_unset_lem (false ∷ bs) h = (omega arith, refl, λ j lt. absurd (omega arith))

module _ {W : Type 0} ⦃d : Double W⦄ where
  -- The builders of `n` nodes that successful calls reach.
  pub data Reached (n : ℕ) : Builder W → Type 0 where
    created : {b : Builder W} → make_builder n ≡ ok b → Reached n b
    node_set :
        {b b' : Builder W} (id : NodeId) (c : Coord W) (e : ExternalId)
        → Reached n b
        → set_node id c e b ≡ ok b'
        → Reached n b'
    arc_added :
        {b b' : Builder W} (source target : NodeId) (w : W)
        → Reached n b
        → add_arc source target w b ≡ ok b'
        → Reached n b'

  -- What `build` returns: a well formed graph with the nodes that were set, whose rows hold the staged
  -- arcs of each node in canonical order, and a consumed builder.
  pub record IsBuilt (b : Builder W) (r : Graph W × Builder W) : Type 0 where
    pub valid : IsValid r.0
    pub coordinates_kept : r.0.coordinates ≡ b.coordinates
    pub ids_kept : r.0.external_ids ≡ b.external_ids
    pub rows :
        (v : NodeId)
        → v < length b.coordinates
        → arcs_from r.0 v ≡ ok (map to_arc (outgoing v (sort b.staged)))
    pub spent : r.1.is_consumed ≡ true

  -- The row of a node holds the arcs that were staged for it, by target, then by weight.
  abbrev pub HasRows : Builder W → Graph W → Type 0
  HasRows b g =
      (v : NodeId)
      → v < length b.coordinates
      → (arcs : List (Arc W)) × (arcs_from g v ≡ ok arcs)
        × Permᴰ arcs (map to_arc (outgoing v b.staged))
        × IsRowOrder arcs

  module _ (laws : IsOrdered W) {n : ℕ} where
    -- A builder that was reached by calls is not consumed, its arrays fit its nodes, the flags of the
    -- nodes that were set are counted, and every coordinate and every staged arc fits its checks.
    pub Reached-IsBuilding : {b : Builder W} → Reached n b → IsBuilding b
    Reached-IsBuilding (created {b} e) = make_builder-IsBuilding laws n b e
    Reached-IsBuilding (node_set {b = b} {b' = b'} id c e r h) =
        set_node-IsBuilding laws id c e b b' (Reached-IsBuilding r) h
    Reached-IsBuilding (arc_added {b = b} {b' = b'} s t w r h) =
        add_arc-IsBuilding laws s t w b b' (Reached-IsBuilding r) h

  built-IsBuilt :
      (b : Builder W) (inv : IsBuilding b) (left : Builder W)
      → left.is_consumed ≡ true
      → IsBuilt b (built b inv, left)
  unfolding make_graph
  built-IsBuilt b inv left spent = record {
    valid = built-IsValid b inv;
    coordinates_kept = refl;
    ids_kept = refl;
    rows =
        λ v h. arcs_from-ok (built b inv) (built-IsValid b inv) v h ∙ ap ok (row-built b inv v h);
    spent = spent;
  }

  abbrev pub spent_builder : Builder W → Builder W
  spent_builder b = record b {
    coordinates = [];
    external_ids = [];
    assigned = [];
    staged = [];
    is_consumed = true;
  }

  pub build-ok :
      (b : Builder W) (inv : IsBuilding b)
      → b.assigned_count ≡ length b.coordinates
      → build b ≡ ok (built b inv, spent_builder b)
  unfolding build
  build-ok b inv all = ground arith

  pub build-Returns :
      (b : Builder W)
      → IsBuilding b
      → b.assigned_count ≡ length b.coordinates
      → Returns (IsBuilt b) (build b)
  build-Returns b inv all = rw (build-ok b inv all) (built-IsBuilt b inv (spent_builder b) refl)

  pub build-throw :
      (b : Builder W)
      → b.is_consumed ≡ false
      → b.assigned_count ≢ length b.coordinates
      → build b ≡ throw (graph_validation (never_set (first_unset b.assigned)))
  unfolding build
  build-throw b usable some = ground arith

  module _ (laws : IsOrdered W) where
    -- A builder that has returned a graph had every node set.
    pub build_complete :
        {n : ℕ} (b : Builder W) (g : Graph W) (left : Builder W)
        → Reached n b
        → build b ≡ ok (g, left)
        → IsBuilding b × (b.assigned_count ≡ length b.coordinates)
    build_complete b g left reached e =
        let inv = Reached-IsBuilding laws reached in
        (
          inv,
          elim (eq_or_ne b.assigned_count (length b.coordinates)) [
            | inl all ↦ all
            | inr missing ↦ absurd (cc (build-throw b inv.usable missing))
          ],
        )

    pub build-ok_inverse :
        {n : ℕ} (b : Builder W) (g : Graph W) (left : Builder W)
        → Reached n b
        → build b ≡ ok (g, left)
        → (inv : IsBuilding b) × (built b inv ≡ g)
    build-ok_inverse b g left reached e =
        let (inv, complete) = build_complete b g left reached e in
        (inv, cc (build-ok b inv complete))

    -- Once every node of a reached builder is set, `build` returns a valid graph of the nodes that were
    -- set and a consumed builder; the row of each node holds the arcs that were staged for it, each as
    -- often, in the order of their targets and, for one target, of their weights.
    pub build-IsBuilt :
        (n : ℕ) (b : Builder W)
        → Reached n b
        → b.assigned_count ≡ length b.coordinates
        → Returns (λ r. IsBuilt b r × HasRows b r.0) (build b)
    build-IsBuilt n b reached all =
        let inv = Reached-IsBuilding laws reached in
        let weighed = All-map (λ a k. k.3) b.staged inv.staged_fit in
        rw (build-ok b inv all) (
          built-IsBuilt b inv (spent_builder b) refl,
          λ v h. (
            map to_arc (outgoing v (sort b.staged)),
            (built-IsBuilt b inv (spent_builder b) refl).rows v h,
            row_permuted v (sort_permuted b.staged),
            sorted_row-IsRowOrder laws v b.staged weighed,
          ),
        )

    -- With a node of a reached builder missing, `build` throws and names the first one never set.
    pub build-never_set :
        (n : ℕ) (b : Builder W)
        → Reached n b
        → b.assigned_count ≢ length b.coordinates
        → (i : NodeId) × (build b ≡ throw (graph_validation (never_set i)))
          × (i < length b.coordinates)
          × (get_or b.assigned i true ≡ false)
          × ((j : NodeId) → j < i → get_or b.assigned j false ≡ true)
    build-never_set n b reached some =
        let inv = Reached-IsBuilding laws reached in
        let (lt, unset, before) =
          first_unset_lem b.assigned
            (λ e. some (omega (arith, inv.counted, inv.assigned_length))) in
        (
          first_unset b.assigned,
          build-throw b inv.usable some,
          omega (arith, inv.assigned_length),
          unset,
          before,
        )

  -- A builder that refuses every call as consumed.
  abbrev pub Refuses : Builder W → Type 0
  Refuses b =
      ((id : NodeId) (c : Coord W) (e : ExternalId)
        → set_node id c e b ≡ throw (graph_validation consumed))
      × ((source target : NodeId) (w : W)
          → add_arc source target w b ≡ throw (graph_validation consumed))
      × (build b ≡ throw (graph_validation consumed))

  consumed-Refuses : (b : Builder W) → b.is_consumed ≡ true → Refuses b
  unfolding set_node add_arc build
  consumed-Refuses b h = (λ id c e. ground arith, λ s t w. ground arith, ground arith)

  consumed-by_build : (b : Builder W) → WhenOk (λ r. r.1.is_consumed ≡ true) (build b)
  unfolding build
  consumed-by_build b = ground arith

  -- The builder that a call of `build` has returned from refuses every later call as consumed.
  pub spent-Refuses :
      (b : Builder W) (g : Graph W) (left : Builder W) → build b ≡ ok (g, left) → Refuses left
  spent-Refuses b g left e =
      consumed-Refuses left (subst (WhenOk (λ r. r.1.is_consumed ≡ true)) e (consumed-by_build b))
