-- ===== src/Csv/Placed.antt =====
-- `load_graph` of src/csv.cpp sets each node of the builder from the record at its place.
use route_engine_cpp.Shared.{
  ℕ, ◌+◌, ◌≤◌, ◌<◌, ◌≡◌, refl, ap, sym, ◌∙◌, subst, List, [], ◌∷◌, ◌++◌, true, false, arith,
  replicate, length, get_or, set, All, length-replicate, get_or-replicate, get_or-set, length-set,
  get_or-set_self, get_or-set_ne, eq_or_ne, append_assoc, append-nil, length-append,
  get_or-append_at, inl, inr, ok,
}
use route_engine_cpp.Double.{Double}
use route_engine_cpp.Double.Laws.{IsOrdered}
use route_engine_cpp.Types.{NodeId, to_u32, max_u32}
use route_engine_cpp.Metric.{no_coord}
use route_engine_cpp.Graph.Rows.{IsCoord}
use route_engine_cpp.Builder.{Builder, make_builder, set_node}
use route_engine_cpp.Builder.Invariant.{IsBuilding, make_builder-IsBuilding, set_node-IsBuilding}
use route_engine_cpp.Fields.{Text}
use route_engine_cpp.Csv.{NodeRecord, no_record, set_nodes}

module _ {W : Type 0} ⦃d : Double W⦄ (laws : IsOrdered W) (records : List (NodeRecord W)) where
  -- The first `i` nodes are set, from the records.
  pub record IsPlaced (i : ℕ) (b : Builder W) : Type 0 where
    pub building : IsBuilding b
    pub size : length b.coordinates ≡ length records
    pub assigned_so_far : b.assigned_count ≡ i
    pub later_free : (j : NodeId) → i ≤ j → get_or b.assigned j false ≡ false
    pub no_arcs : b.staged ≡ []
    pub placed :
        (j : NodeId)
        → j < i
        → (get_or b.coordinates j no_coord ≡ (get_or records j no_record).coordinate)
          × (get_or b.external_ids j 0 ≡ (get_or records j no_record).external_id)

  blank : Builder W
  blank = record {
    coordinates = replicate (length records) no_coord;
    external_ids = replicate (length records) 0;
    assigned = replicate (length records) false;
    staged = [];
    assigned_count = 0;
    is_consumed = false;
  }

  made : length records ≤ max_u32 → make_builder (length records) ≡ ok blank
  unfolding make_builder blank
  made h = ground arith

  blank-IsPlaced : length records ≤ max_u32 → IsPlaced 0 blank
  unfolding blank
  blank-IsPlaced h = record {
    building = make_builder-IsBuilding laws (length records) blank (made h);
    size = length-replicate (length records) no_coord;
    assigned_so_far = refl;
    later_free = λ j _. get_or-replicate (length records) j false;
    no_arcs = refl;
    placed = λ j h. absurd (omega arith);
  }

  pub make_builder-ok :
      length records ≤ max_u32
      → (b : Builder W) × (make_builder (length records) ≡ ok b) × IsPlaced 0 b
  make_builder-ok h = (blank, made h, blank-IsPlaced h)

  module _ (i : ℕ) (b : Builder W) (inv : IsPlaced i b) (room : i < length records)
      (r : NodeRecord W) (at : get_or records i no_record ≡ r) (fits : IsCoord r.coordinate) where
    after : Builder W
    after = record b {
      coordinates = set b.coordinates i r.coordinate;
      external_ids = set b.external_ids i r.external_id;
      assigned = set b.assigned i true;
      assigned_count = b.assigned_count + 1;
    }

    set_node-ok : set_node i r.coordinate r.external_id b ≡ ok after
    unfolding set_node after
    set_node-ok =
        let free = inv.later_free i (omega arith) in
        ground (arith, inv.building.usable, inv.size, free)

    after-IsPlaced : IsPlaced (i + 1) after
    unfolding after
    after-IsPlaced = record {
      building =
          set_node-IsBuilding laws i r.coordinate r.external_id b after inv.building set_node-ok;
      size = length-set b.coordinates i r.coordinate ∙ inv.size;
      assigned_so_far = omega (arith, inv.assigned_so_far);
      later_free = λ j h. ground (
        arith,
        get_or-set b.assigned i j true false,
        inv.later_free j,
        inv.building.assigned_length,
        inv.size,
      );
      no_arcs = inv.no_arcs;
      placed = λ j h. elim (eq_or_ne j i) [
        | inl same ↦
            subst
              (λ k.
                (get_or (set b.coordinates i r.coordinate) k no_coord
                  ≡ (get_or records k no_record).coordinate)
                × (get_or (set b.external_ids i r.external_id) k 0
                    ≡ (get_or records k no_record).external_id))
              (sym same)
              (
                get_or-set_self b.coordinates i r.coordinate no_coord (omega (arith, inv.size))
                    ∙ sym (ap (λ s. s.coordinate) at),
                get_or-set_self b.external_ids i r.external_id 0
                      (omega (arith, inv.size, inv.building.ids_length))
                    ∙ sym (ap (λ s. s.external_id) at),
              )
        | inr other ↦
            let (c, e) = inv.placed j (omega arith) in
            (
              get_or-set_ne b.coordinates i r.coordinate no_coord (omega (arith, inv.size)) j other
                  ∙ c,
              get_or-set_ne b.external_ids i r.external_id 0
                    (omega (arith, inv.size, inv.building.ids_length)) j other
                  ∙ e,
            )
      ];
    }

  -- From the record at `i` on, none of the calls throws.
  pub set_nodes-ok :
      (name : Text) (before rest : List (NodeRecord W)) (b : Builder W)
      → records ≡ before ++ rest
      → All (λ r. IsCoord r.coordinate) rest
      → length records ≤ max_u32
      → IsPlaced (length before) b
      → (b' : Builder W) × (set_nodes name (length before) rest b ≡ ok b')
        × IsPlaced (length records) b'
  unfolding set_nodes
  set_nodes-ok name before [] b e fits small inv =
      (b, refl, subst (λ k. IsPlaced k b) (sym (ap length (e ∙ append-nil before))) inv)
  set_nodes-ok name before (r ∷ rest) b e fits small inv =
      let room : length before < length records =
        omega (arith, ap length e, length-append before (r ∷ rest)) in
      let at : get_or records (length before) no_record ≡ r =
        ap (λ rs. get_or rs (length before) no_record) e
        ∙ get_or-append_at before r rest no_record in
      let index : to_u32 (length before) ≡ length before = omega arith in
      let next = length-append before (r ∷ []) in
      let (b', h, inv') =
        set_nodes-ok name (before ++ r ∷ []) rest (after (length before) b inv room r at fits.0)
          (e ∙ sym (append_assoc before (r ∷ []) rest)) fits.1 small
          (subst (λ k. IsPlaced k (after (length before) b inv room r at fits.0)) (sym next)
            (after-IsPlaced (length before) b inv room r at fits.0)) in
      (
        b',
        rw (index, set_node-ok (length before) b inv room r at fits.0)
            (subst
              (λ k. set_nodes name k rest (after (length before) b inv room r at fits.0) ≡ ok b')
              next h),
        inv',
      )
