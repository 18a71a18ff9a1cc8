-- ===== src/Csv/Reads.antt =====
-- `read_nodes` and `read_edges` of src/csv.cpp on lines without a fault: none of their throws is met.
use route_engine_cpp.Shared.{
  ℕ, ◌+◌, ◌≤◌, ◌<◌, ◌≡◌, ◌≢◌, refl, ap, sym, ◌∙◌, subst, ◌⊎◌, inl, inr, List, [], ◌∷◌, ◌++◌, true,
  false, not, ltb, leb, arith, Option, none, some, Option-cases, length, get_or, length-append,
  append-nil, append_assoc, get_or-append_at, get_or-append_front, Both, ok,
}
use route_engine_cpp.Double.{Double}
use route_engine_cpp.Double.Laws.{IsOrdered}
use route_engine_cpp.Types.{NodeId, to_u32, max_u32}
use route_engine_cpp.Graph.Rows.{IsCoord}
use route_engine_cpp.Builder.{Builder, StagedArc, add_arc, validate_arc_capacity}
use route_engine_cpp.Builder.Invariant.{IsStaged}
use route_engine_cpp.Fields.{Text, is_nil, split_fields, parse_external_id}
use route_engine_cpp.Csv.{
  Rows, Index, NodeRecord, next_row, find, no_record, parse_number, finite_number, read_node,
  read_node_rows, read_edge, read_edge_rows,
}
use route_engine_cpp.Csv.Nodes.{IsIndexed, record_added}

-- A line of three fields, none of which is empty.
abbrev pub IsRow : Text → Text → Text → Text → Type 0
IsRow content a b c =
    (split_fields content ≡ a ∷ b ∷ c ∷ [])
    × (is_nil a ≡ false)
    × (is_nil b ≡ false)
    × (is_nil c ≡ false)

next_row-ok :
    (name : Text) (line : ℕ) (content a b c : Text)
    → IsRow content a b c
    → next_row name line content ≡ ok (a, b, c)
unfolding next_row
next_row-ok name line content a b c (e, ha, hb, hc) = rw (e, ha, hb, hc)

module _ {W : Type 0} ⦃d : Double W⦄ (from_chars : Text → Option (W × Text)) where
  finite_number-ok :
      (field name : Text) (line : ℕ) (reason : _) (w : W)
      → parse_number from_chars field ≡ some w
      → d.is_finite w ≡ true
      → finite_number from_chars field (route_engine_cpp.Shared.graph_load name line reason) ≡ ok w
  unfolding finite_number
  finite_number-ok field name line reason w e finite = rw (e, finite)

  -- The line describes the record, and has no fault of its own.
  abbrev pub IsNodeRow : ℕ × Text → NodeRecord W → Type 0
  IsNodeRow (line, content) r =
      (a : Text) × (b : Text) × (c : Text) × IsRow content a b c
      × (parse_external_id a ≡ some r.external_id)
      × (parse_number from_chars b ≡ some r.coordinate.x)
      × (parse_number from_chars c ≡ some r.coordinate.y)
      × (r.line ≡ line)
      × IsCoord r.coordinate

  abbrev pub AreDistinct : List (NodeRecord W) → Type 0
  AreDistinct records =
      (u v : NodeId)
      → u < length records
      → v < length records
      → (get_or records u no_record).external_id ≡ (get_or records v no_record).external_id
      → u ≡ v

  module _ (name : Text) where
    -- An id that no record has yet.
    find-none :
        (records rest : List (NodeRecord W)) (r : NodeRecord W) (index : Index)
        → IsIndexed from_chars records index
        → AreDistinct (records ++ r ∷ rest)
        → find r.external_id index ≡ none
    find-none records rest r index inv distinct = elim (Option-cases (find r.external_id index)) [
      | inl fresh ↦ fresh
      | inr (i, known) ↦
          let (inside, e) = inv.right r.external_id i known in
          let size = length-append records (r ∷ rest) in
          let at = get_or-append_at records r rest no_record in
          let front = get_or-append_front records (r ∷ rest) i no_record inside in
          let same : i ≡ length records =
            distinct i (length records) (omega (arith, size)) (omega (arith, size))
              (ap (λ s. s.external_id) front ∙ (e ∙ sym (ap (λ s. s.external_id) at))) in
          absurd (omega arith)
    ]

    read_node-ok :
        (line : ℕ) (content : Text) (records : List (NodeRecord W)) (index : Index)
        (r : NodeRecord W)
        → IsNodeRow (line, content) r
        → length records < max_u32
        → find r.external_id index ≡ none
        → read_node from_chars name line content (records, index)
          ≡ ok (records ++ r ∷ [], (r.external_id, to_u32 (length records)) ∷ index)
    unfolding read_node
    read_node-ok line content records index r (a, b, c, row, id, x, y, at, (fx, fy)) room fresh =
        let small : leb max_u32 (length records) ≡ false = ground arith in
        rw (
          next_row-ok name line content a b c row,
          id,
          finite_number-ok b name line _ r.coordinate.x x fx,
          finite_number-ok c name line _ r.coordinate.y y fy,
          small,
          fresh,
          sym at,
        )

    -- Every line adds its record.
    pub read_node_rows-ok :
        (rows : Rows) (before rest : List (NodeRecord W)) (index : Index)
        → Both IsNodeRow rows rest
        → IsIndexed from_chars before index
        → AreDistinct (before ++ rest)
        → length (before ++ rest) ≤ max_u32
        → (index' : Index) × (read_node_rows from_chars name rows (before, index)
            ≡ ok (before ++ rest, index'))
          × IsIndexed from_chars (before ++ rest) index'
    unfolding read_node_rows
    read_node_rows-ok [] before [] index both inv distinct few =
        rw (append-nil before) (index, refl, inv)
    read_node_rows-ok [] before (r ∷ rest) index both inv distinct few = elim both [ ]
    read_node_rows-ok ((line, content) ∷ rows) before [] index both inv distinct few = elim both [ ]
    read_node_rows-ok ((line, content) ∷ rows) before (r ∷ rest) index (row, both) inv distinct
          few =
        let e : (before ++ r ∷ []) ++ rest ≡ before ++ r ∷ rest =
          append_assoc before (r ∷ []) rest in
        let room : length before < max_u32 = omega (arith, few, length-append before (r ∷ rest)) in
        let fresh = find-none before rest r index inv distinct in
        let (index', run, inv') =
          read_node_rows-ok rows (before ++ r ∷ []) rest
            ((r.external_id, to_u32 (length before)) ∷ index) both
            (record_added from_chars before index r inv room fresh row.8)
            (subst AreDistinct (sym e) distinct) (omega (arith, few, ap length e)) in
        (
          index',
          rw (read_node-ok line content before index r row room fresh)
              (run ∙ ap (λ l. ok (l, index')) e),
          subst (λ l. IsIndexed from_chars l index') e inv',
        )

module _ {W : Type 0} ⦃d : Double W⦄ (from_chars : Text → Option (W × Text))
    (records : List (NodeRecord W)) where
  -- The line describes an arc between records, and has no fault of its own.
  abbrev pub IsEdgeRow : ℕ × Text → StagedArc W → Type 0
  IsEdgeRow (line, content) a =
      (p : Text) × (q : Text) × (w : Text) × IsRow content p q w
      × (parse_external_id p ≡ some (get_or records a.source no_record).external_id)
      × (parse_external_id q ≡ some (get_or records a.target no_record).external_id)
      × (parse_number from_chars w ≡ some a.weight)
      × IsStaged (length records) a

module _ {W : Type 0} ⦃d : Double W⦄ (laws : IsOrdered W) (from_chars : Text → Option (W × Text))
    (records : List (NodeRecord W)) (index : Index) (indexed : IsIndexed from_chars records index)
    (name : Text) where
  read_edge-ok :
      (line : ℕ) (content : Text) (a : StagedArc W) (b : Builder W)
      → IsEdgeRow from_chars records (line, content) a
      → b.is_consumed ≡ false
      → length b.coordinates ≡ length records
      → length b.staged < max_u32
      → read_edge from_chars name index line content b
        ≡ ok (record b { staged = b.staged ++ a ∷ [] })
  unfolding read_edge add_arc validate_arc_capacity
  read_edge-ok line content a b (p, q, w, row, source, target, weight, (hs, ht, finite, nonneg))
        usable size room =
      let positive : d.lt a.weight d.nought ≡ false =
        ground (arith, laws.lt-eq-not-le a.weight d.nought nonneg laws.nought_refl) in
      let small : ltb max_u32 (length b.staged + 1) ≡ false = ground arith in
      let inside : leb (length b.coordinates) a.source ≡ false = ground arith in
      let inside' : leb (length b.coordinates) a.target ≡ false = ground arith in
      rw (
        next_row-ok name line content p q w row,
        source,
        target,
        finite_number-ok from_chars w name line _ a.weight weight finite,
        positive,
        indexed.held a.source hs,
        indexed.held a.target ht,
        usable,
        inside,
        inside',
        finite,
        small,
      )

  -- Every line adds its arc.
  pub read_edge_rows-ok :
      (rows : Rows) (arcs : List (StagedArc W)) (b : Builder W)
      → Both (IsEdgeRow from_chars records) rows arcs
      → b.is_consumed ≡ false
      → length b.coordinates ≡ length records
      → length b.staged + length arcs ≤ max_u32
      → read_edge_rows from_chars name index rows b ≡ ok (record b { staged = b.staged ++ arcs })
  unfolding read_edge_rows
  read_edge_rows-ok [] [] b both usable size few = rw (append-nil b.staged)
  read_edge_rows-ok [] (a ∷ arcs) b both usable size few = elim both [ ]
  read_edge_rows-ok ((line, content) ∷ rows) [] b both usable size few = elim both [ ]
  read_edge_rows-ok ((line, content) ∷ rows) (a ∷ arcs) b (row, both) usable size few =
      rw (read_edge-ok line content a b row usable size (omega arith)) (
        read_edge_rows-ok rows arcs (record b { staged = b.staged ++ a ∷ [] }) both usable size
          (omega (arith, length-append b.staged (a ∷ [])))
        ∙ ap (λ l. ok (record b { staged = l })) (append_assoc b.staged (a ∷ []) arcs))
