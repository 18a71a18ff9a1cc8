-- ===== src/Csv/Edges.antt =====
-- `read_edges` of src/csv.cpp: each line adds the arc that it describes to the builder.
use route_engine_cpp.Shared.{
  ℕ, ◌+◌, ◌<◌, ◌≡◌, refl, ap, sym, ◌∙◌, List, [], ◌∷◌, ◌++◌, true, false, arith, Option, some,
  graph_validation, ltb, Bool-cases, inl, inr, length, get_or, ok, throw, Ends, Ends-bind, Ends-map,
  Ends-required, Ends-throw_if, Both, append-nil, append_assoc, bad_source, bad_target,
  not_a_weight, weight_below_zero, unknown_source, unknown_target, core, too_many_arcs,
}
use route_engine_cpp.Double.{Double}
use route_engine_cpp.Double.Laws.{IsOrdered}
use route_engine_cpp.Types.{NodeId, max_u32}
use route_engine_cpp.Builder.{Builder, StagedArc, add_arc}
use route_engine_cpp.Builder.Invariant.{IsBuilding, add_arc-IsBuilding}
use route_engine_cpp.Fields.{Text, split_fields, parse_external_id}
use route_engine_cpp.Csv.{
  Rows, Index, NodeRecord, next_row, find, no_record, parse_number, finite_number, read_edge,
  read_edge_rows, rethrow,
}
use route_engine_cpp.Csv.Nodes.{IsAbout, IsIndexed, next_row-Ends, finite_number-Ends}

module _ {W : Type 0} ⦃d : Double W⦄ (from_chars : Text → Option (W × Text))
    (records : List (NodeRecord W)) where
  -- The line holds the ids of the records at the ends of the arc, and its weight.
  abbrev pub IsEdgeLine : ℕ × Text → StagedArc W → Type 0
  IsEdgeLine (line, content) a =
      (p : Text) × (q : Text) × (w : Text) × (split_fields content ≡ p ∷ q ∷ w ∷ [])
      × (parse_external_id p ≡ some (get_or records a.source no_record).external_id)
      × (parse_external_id q ≡ some (get_or records a.target no_record).external_id)
      × (parse_number from_chars w ≡ some a.weight)

module _ {W : Type 0} ⦃d : Double W⦄ where
  -- The builder after arcs were added to `b`.
  pub record IsExtended (b : Builder W) (arcs : List (StagedArc W)) (b' : Builder W) : Type 0 where
    pub building : IsBuilding b'
    pub same_nodes : b'.coordinates ≡ b.coordinates
    pub same_ids : b'.external_ids ≡ b.external_ids
    pub same_count : b'.assigned_count ≡ b.assigned_count
    pub arcs_added : b'.staged ≡ b.staged ++ arcs

module _ {W : Type 0} ⦃d : Double W⦄ (laws : IsOrdered W) (from_chars : Text → Option (W × Text))
    (records : List (NodeRecord W)) (index : Index)
    (indexed : IsIndexed from_chars records index) where
  open d use {lt, nought}

  module _ (name : Text) (line : ℕ) (source target : NodeId) (w : W) (b : Builder W)
      (inv : IsBuilding b) (hs : source < length b.coordinates) (ht : target < length b.coordinates)
      (finite : d.is_finite w ≡ true) (nonneg : lt w nought ≡ false) where
    arc : StagedArc W
    arc = record { source = source; target = target; weight = w }

    add_arc-full :
        ltb max_u32 (length b.staged + 1) ≡ true
        → add_arc source target w b ≡ throw (graph_validation too_many_arcs)
    unfolding add_arc
    add_arc-full full = ground (arith, inv.usable)

    add_arc-ok :
        ltb max_u32 (length b.staged + 1) ≡ false
        → add_arc source target w b ≡ ok (record b { staged = b.staged ++ arc ∷ [] })
    unfolding add_arc arc
    add_arc-ok room = ground (arith, inv.usable)

    add_arc-Ends :
        Ends
          (IsAbout name)
          (IsExtended b (arc ∷ []))
          (rethrow name line (add_arc source target w b))
    add_arc-Ends = elim (Bool-cases (ltb max_u32 (length b.staged + 1))) [
      | inl full ↦ rw (add_arc-full full) (line, core too_many_arcs, refl)
      | inr room ↦ rw (add_arc-ok room) (record {
        building = add_arc-IsBuilding laws source target w b _ inv (add_arc-ok room);
        same_nodes = refl;
        same_ids = refl;
        same_count = refl;
        arcs_added = refl;
      })
    ]

  read_edge-Ends :
      (name : Text) (line : ℕ) (content : Text) (b : Builder W)
      → IsBuilding b
      → length b.coordinates ≡ length records
      → Ends
          (IsAbout name)
          (λ b'.
            (a : StagedArc W) × IsEdgeLine from_chars records (line, content) a
            × IsExtended b (a ∷ []) b')
          (read_edge from_chars name index line content b)
  unfolding read_edge arc
  read_edge-Ends name line content b inv size =
      Ends-bind _ _ _ (next_row name line content) _ (next_row-Ends name line content)
        λ (p, q, w) row.
          Ends-required _ _ (parse_external_id p) _ _ (line, bad_source, refl)
            λ source_id source_parsed.
              Ends-required _ _ (parse_external_id q) _ _ (line, bad_target, refl)
                λ target_id target_parsed.
                  Ends-bind _ _ _ (finite_number from_chars w _) _
                    (finite_number-Ends from_chars name w line not_a_weight)
                    λ weight (weight_parsed, finite).
                      Ends-throw_if _ _ (lt weight nought) _ _ (line, weight_below_zero, refl)
                        λ nonneg.
                          Ends-required _ _ (find source_id index) _ _
                            (line, unknown_source source_id, refl)
                            λ source source_found.
                              Ends-required _ _ (find target_id index) _ _
                                (line, unknown_target target_id, refl)
                                λ target target_found.
                                  let (hs, es) = indexed.right source_id source source_found in
                                  let (ht, et) = indexed.right target_id target target_found in
                                  Ends-map _ _ _
                                    (rethrow name line (add_arc source target weight b))
                                    (add_arc-Ends name line source target weight b inv (omega arith)
                                      (omega arith) finite nonneg)
                                    λ b' extended. (
                                      record { source = source; target = target; weight = weight },
                                      (
                                        p,
                                        q,
                                        w,
                                        row,
                                        source_parsed ∙ ap some (sym es),
                                        target_parsed ∙ ap some (sym et),
                                        weight_parsed,
                                      ),
                                      extended,
                                    )

  -- Every arc that is added is described by its line.
  pub read_edge_rows-Ends :
      (name : Text) (rows : Rows) (b : Builder W)
      → IsBuilding b
      → length b.coordinates ≡ length records
      → Ends
          (IsAbout name)
          (λ b'.
            (arcs : List (StagedArc W)) × Both (IsEdgeLine from_chars records) rows arcs
            × IsExtended b arcs b')
          (read_edge_rows from_chars name index rows b)
  unfolding read_edge_rows
  read_edge_rows-Ends name [] b inv size = (
    [],
    tt,
    record {
      building = inv;
      same_nodes = refl;
      same_ids = refl;
      same_count = refl;
      arcs_added = sym (append-nil b.staged);
    },
  )
  read_edge_rows-Ends name ((line, content) ∷ rows) b inv size =
      Ends-bind _ _ _ (read_edge from_chars name index line content b) _
        (read_edge-Ends name line content b inv size)
        λ b' (a, described, e).
          Ends-map _ _ _ (read_edge_rows from_chars name index rows b')
            (read_edge_rows-Ends name rows b' e.building (ap length e.same_nodes ∙ size))
            λ b'' (arcs, both, e'). (
              a ∷ arcs,
              (described, both),
              record {
                building = e'.building;
                same_nodes = e'.same_nodes ∙ e.same_nodes;
                same_ids = e'.same_ids ∙ e.same_ids;
                same_count = e'.same_count ∙ e.same_count;
                arcs_added =
                    e'.arcs_added
                    ∙ (ap (λ s. s ++ arcs) e.arcs_added ∙ append_assoc b.staged (a ∷ []) arcs);
              },
            )
