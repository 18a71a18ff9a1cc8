-- ===== src/Csv/Nodes.antt =====
-- `read_nodes` of src/csv.cpp: the records are what the lines describe, and the map holds the place of
-- every id.
use route_engine_cpp.Shared.{
  ℕ, ◌+◌, ◌≤◌, ◌<◌, ◌≡◌, refl, ap, sym, ◌∙◌, subst, List, [], ◌∷◌, ◌++◌, true, not, leb, arith,
  Option, none, some, length, get_or, All, length-append, Error, LoadReason, graph_load, Ends,
  Ends-bind, Ends-required, Ends-throw_if, bad_x, bad_y, bad_id, too_many_records, inl, inr, ◌==◌,
  ==_iff, Bool-cases, Option-cases, none-ne-some, Both, Ends-map, append-nil, append_assoc,
  All-concat, get_or-append_front, get_or-append_at, duplicate_id, ltb,
}
use route_engine_cpp.Double.{Double}
use route_engine_cpp.Types.{NodeId, ExternalId, to_u32, max_u32}
use route_engine_cpp.Graph.Rows.{IsCoord}
use route_engine_cpp.Fields.{Text, split_fields, parse_external_id}
use route_engine_cpp.Csv.{
  Rows, Index, NodeRecord, next_row, find, no_record, parse_number, finite_number, read_node,
  read_node_rows,
}

-- An error of the loader about one file.
abbrev pub IsAbout : Text → Error → Type 0
IsAbout name e = (line : ℕ) × (reason : LoadReason) × (e ≡ graph_load name line reason)

pub next_row-Ends :
    (name : Text) (line : ℕ) (content : Text)
    → Ends
        (IsAbout name)
        (λ (a, b, c). split_fields content ≡ a ∷ b ∷ c ∷ [])
        (next_row name line content)
unfolding next_row
next_row-Ends name line content = ground arith

-- A new entry is found, and hides no other key.
find-head : (id : ExternalId) (n : NodeId) (index : Index) → find id ((id, n) ∷ index) ≡ some n
unfolding find
find-head id n index = ground arith

find-known :
    (id key : ExternalId) (n i : NodeId) (index : Index)
    → find key index ≡ none
    → find id index ≡ some i
    → find id ((key, n) ∷ index) ≡ some i
unfolding find
find-known id key n i index fresh known = elim (Bool-cases (key == id)) [
  | inl same ↦
      let e = (==_iff key id).0 same in
      absurd (none-ne-some i (sym fresh ∙ (ap (λ k. find k index) e ∙ known)))
  | inr other ↦ rw other known
]

module _ {W : Type 0} ⦃d : Double W⦄ (from_chars : Text → Option (W × Text)) where
  pub finite_number-Ends :
      (name field : Text) (line : ℕ) (reason : LoadReason)
      → Ends
          (IsAbout name)
          (λ v. (parse_number from_chars field ≡ some v) × (d.is_finite v ≡ true))
          (finite_number from_chars field (graph_load name line reason))
  unfolding finite_number
  finite_number-Ends name field line reason =
      Ends-required _ _ (parse_number from_chars field) _ _ (line, reason, refl)
        λ v e.
          Ends-throw_if _ _ (not (d.is_finite v)) _ _ (line, reason, refl) λ h. (e, ground arith)

  -- The line holds the id and the coordinate of the record.
  abbrev pub IsNodeLine : ℕ × Text → NodeRecord W → Type 0
  IsNodeLine (line, content) r =
      (a : Text) × (b : Text) × (c : Text) × (split_fields content ≡ a ∷ b ∷ c ∷ [])
      × (parse_external_id a ≡ some r.external_id)
      × (parse_number from_chars b ≡ some r.coordinate.x)
      × (parse_number from_chars c ≡ some r.coordinate.y)
      × (r.line ≡ line)

  -- The records so far, and the map from their ids to their places.
  pub record IsIndexed (records : List (NodeRecord W)) (index : Index) : Type 0 where
    pub few : length records ≤ max_u32
    pub fit : All (λ r. IsCoord r.coordinate) records
    pub held :
        (i : NodeId)
        → i < length records
        → find (get_or records i no_record).external_id index ≡ some i
    pub right :
        (id : ExternalId) (i : NodeId)
        → find id index ≡ some i
        → (i < length records) × ((get_or records i no_record).external_id ≡ id)

  module _ (records : List (NodeRecord W)) (index : Index) (r : NodeRecord W)
      (inv : IsIndexed records index) (room : length records < max_u32)
      (fresh : find r.external_id index ≡ none) where
    added_held :
        (i : NodeId)
        → i < length records + 1
        → find
            (get_or (records ++ r ∷ []) i no_record).external_id
            ((r.external_id, length records) ∷ index)
          ≡ some i
    unfolding find
    added_held i h = elim (Bool-cases (ltb i (length records))) [
      | inl old ↦
          let e = get_or-append_front records (r ∷ []) i no_record (ground arith) in
          subst (λ s. find s.external_id ((r.external_id, length records) ∷ index) ≡ some i) (sym e)
            (find-known _ r.external_id _ i index fresh (inv.held i (ground arith)))
      | inr new ↦
          let e : i ≡ length records = ground arith in
          subst
            (λ j.
              find (get_or (records ++ r ∷ []) j no_record).external_id
                ((r.external_id, length records) ∷ index)
              ≡ some j)
            (sym e)
            (subst
              (λ s.
                find s.external_id ((r.external_id, length records) ∷ index)
                ≡ some (length records))
              (sym (get_or-append_at records r [] no_record))
              (find-head r.external_id (length records) index))
    ]

    added_right :
        (id : ExternalId) (i : NodeId)
        → find id ((r.external_id, length records) ∷ index) ≡ some i
        → (i < length records + 1) × ((get_or (records ++ r ∷ []) i no_record).external_id ≡ id)
    unfolding find
    added_right id i h = elim (Bool-cases (r.external_id == id)) [
      | inl same ↦
          let e : length records ≡ i = ground arith in
          (
            omega arith,
            subst (λ j. (get_or (records ++ r ∷ []) j no_record).external_id ≡ id) e
                (ap (λ s. s.external_id) (get_or-append_at records r [] no_record) ∙ ground arith),
          )
      | inr other ↦
          let (lt, e) = inv.right id i (ground arith) in
          (
            omega arith,
            ap (λ s. s.external_id) (get_or-append_front records (r ∷ []) i no_record lt) ∙ e,
          )
    ]

    pub record_added :
        IsCoord r.coordinate
        → IsIndexed (records ++ r ∷ []) ((r.external_id, to_u32 (length records)) ∷ index)
    record_added fits =
        let size = length-append records (r ∷ []) in
        let small : to_u32 (length records) ≡ length records = omega arith in
        rw small (record {
          few = omega arith;
          fit = All-concat _ records r inv.fit fits;
          held = λ i h. added_held i (omega arith);
          right = λ id i h. let (lt, e) = added_right id i h in (omega arith, e);
        })

  pub read_node-Ends :
      (name : Text) (line : ℕ) (content : Text) (records : List (NodeRecord W)) (index : Index)
      → IsIndexed records index
      → Ends
          (IsAbout name)
          (λ s.
            (r : NodeRecord W) × IsNodeLine (line, content) r
            × (s.0 ≡ records ++ r ∷ [])
            × IsIndexed s.0 s.1)
          (read_node from_chars name line content (records, index))
  unfolding read_node
  read_node-Ends name line content records index inv =
      Ends-bind _ _ _ (next_row name line content) _ (next_row-Ends name line content)
        λ (a, b, c) row.
          Ends-required _ _ (parse_external_id a) _ _ (line, bad_id, refl)
            λ id id_parsed.
              Ends-bind _ _ _ (finite_number from_chars b _) _
                (finite_number-Ends name b line bad_x)
                λ x x_parsed.
                  Ends-bind _ _ _ (finite_number from_chars c _) _
                    (finite_number-Ends name c line bad_y)
                    λ y y_parsed.
                      Ends-throw_if _ _ (leb max_u32 (length records)) _ _
                        (line, too_many_records, refl)
                        λ room. elim (Option-cases (find id index)) [
                          | inl fresh ↦
                              let r : NodeRecord W = record {
                                external_id = id;
                                coordinate = record { x = x; y = y };
                                line = line;
                              } in
                              rw fresh (
                                r,
                                (a, b, c, row, id_parsed, x_parsed.0, y_parsed.0, refl),
                                refl,
                                record_added records index r inv (ground arith) fresh
                                    (x_parsed.1, y_parsed.1),
                              )
                          | inr (i, known) ↦
                              rw known
                                (line, duplicate_id id (get_or records i no_record).line, refl)
                        ]

  pub none-IsIndexed : IsIndexed [] []
  unfolding find
  none-IsIndexed = record {
    few = omega arith;
    fit = tt;
    held = λ i h. absurd (omega arith);
    right = λ id i h. absurd (none-ne-some i h);
  }

  -- Every record is described by its line.
  pub read_node_rows-Ends :
      (name : Text) (rows : Rows) (records : List (NodeRecord W)) (index : Index)
      → IsIndexed records index
      → Ends
          (IsAbout name)
          (λ s.
            (added : List (NodeRecord W)) × (s.0 ≡ records ++ added)
            × Both IsNodeLine rows added
            × IsIndexed s.0 s.1)
          (read_node_rows from_chars name rows (records, index))
  unfolding read_node_rows
  read_node_rows-Ends name [] records index inv = ([], sym (append-nil records), tt, inv)
  read_node_rows-Ends name ((line, content) ∷ rows) records index inv =
      Ends-bind _ _ _ (read_node from_chars name line content (records, index)) _
        (read_node-Ends name line content records index inv)
        λ (records', index') (r, described, e, inv').
          Ends-map _ _ _ (read_node_rows from_chars name rows (records', index'))
            (read_node_rows-Ends name rows records' index' inv')
            λ s (added, e', both, inv''). (
              r ∷ added,
              e' ∙ (ap (λ rs. rs ++ added) e ∙ append_assoc records (r ∷ []) added),
              (described, both),
              inv'',
            )
