-- ===== src/Reload/Nodes.antt =====
-- The lines of the node file of `write_csv` (src/generator.cpp), as src/csv.cpp reads them.
use route_engine_cpp.Shared.{
  ℕ, zero, suc, ◌+◌, ◌<◌, ◌≤◌, ◌^◌, ◌≡◌, refl, ap, ◌∙◌, List, [], ◌∷◌, ◌++◌, true, arith, Option,
  some, length, get_or, All, All-map, All-append, All-get_or, Both,
}
use route_engine_cpp.Double.{Double}
use route_engine_cpp.Double.Laws.{IsOrdered}
use route_engine_cpp.Types.{NodeId, incr}
use route_engine_cpp.Metric.{no_coord}
use route_engine_cpp.Graph.{Graph, node_count}
use route_engine_cpp.Graph.Rows.{IsValid, IsCoord}
use route_engine_cpp.Fields.{Text, codes}
use route_engine_cpp.Fields.Plain.{
  IsField, IsFieldByte, IsLine, IsLineByte, join, numbered, split_fields-join,
}
use route_engine_cpp.Generator.Write.{decimal}
use route_engine_cpp.Generator.Write.Lines.{number, node_lines}
use route_engine_cpp.Generator.Write.Decimals.{
  decimal-nonempty, decimal-All, parse_external_id-decimal,
}
use route_engine_cpp.Csv.{NodeRecord, no_record, parse_number}
use route_engine_cpp.Csv.Reads.{IsRow, IsNodeRow}

-- What the C++ library says of its conversions: std::to_chars prints a finite number as text that is not
-- empty, has none of the characters of the file format, and that std::from_chars reads back whole.
pub record AreInverse {W : Type 0} ⦃d : Double W⦄ (to_chars : W → Option Text)
    (from_chars : Text → Option (W × Text)) : Type 0 where
  pub printed :
      (w : W)
      → d.is_finite w ≡ true
      → (text : Text) × (to_chars w ≡ some text) × IsField text × (from_chars text ≡ some (w, []))

pub decimal-IsField : (n : ℕ) → IsField (decimal n)
decimal-IsField n = (
  decimal-nonempty n,
  All-map (λ c (h : (48 ≤ c) × (c ≤ 57)). omega arith) (decimal n) (decimal-All n),
)

-- A line of three fields is a line.
pub join-IsLine : (a b c : Text) → IsField a → IsField b → IsField c → IsLine (join a b c)
join-IsLine (x ∷ a) b c ha hb hc =
    let plain : (t : Text) → All IsFieldByte t → All IsLineByte t =
      λ t h. All-map (λ c k. k.1) t h in
    let comma : All IsLineByte (codes ",") = omega arith in
    (
      refl,
      All-append IsLineByte ((x ∷ a) ++ codes "," ++ b ++ codes ",") c
          (All-append IsLineByte ((x ∷ a) ++ codes "," ++ b) (codes ",")
            (All-append IsLineByte ((x ∷ a) ++ codes ",") b
              (All-append IsLineByte (x ∷ a) (codes ",") (plain (x ∷ a) ha.1) comma) (plain b hb.1))
            comma)
          (plain c hc.1),
    )
join-IsLine [] b c ha hb hc = cc

pub join-IsRow : (a b c : Text) → IsField a → IsField b → IsField c → IsRow (join a b c) a b c
join-IsRow a b c ha hb hc = (split_fields-join a b c ha.1 hb.1 hc.1, ha.0, hb.0, hc.0)

module _ {W : Type 0} ⦃d : Double W⦄ (laws : IsOrdered W) (to_chars : W → Option Text)
    (from_chars : Text → Option (W × Text)) (inverse : AreInverse to_chars from_chars) where
  pub number-IsField : (w : W) → d.is_finite w ≡ true → IsField (number to_chars w)
  number-IsField w h = let (text, e, field, back) = inverse.printed w h in rw e field

  pub parse_number-number :
      (w : W) → d.is_finite w ≡ true → parse_number from_chars (number to_chars w) ≡ some w
  unfolding parse_number
  parse_number-number w h =
      let (text, e, field, back) = inverse.printed w h in rw (e, field.0, back)

  module _ (g : Graph W) (valid : IsValid g) (ids : All (λ id. id < 2 ^ 64) g.external_ids) where
    -- The records of the nodes from `i`, on the lines after the `line`-th.
    abbrev pub node_records : (rounds : ℕ) (i : NodeId) (line : ℕ) → List (NodeRecord W)
    node_records zero i line = []
    node_records (suc rounds) i line =
        record {
          external_id = get_or g.external_ids i 0;
          coordinate = get_or g.coordinates i no_coord;
          line = incr line;
        }
        ∷ node_records rounds (i + 1) (incr line)

    pub length-node_records : (rounds i line : ℕ) → length (node_records rounds i line) ≡ rounds
    length-node_records zero i line = refl
    length-node_records (suc rounds) i line =
        ap suc (length-node_records rounds (i + 1) (incr line))

    pub node_record_at :
        (rounds i line j : ℕ)
        → j < rounds
        → ((get_or (node_records rounds i line) j no_record).external_id
            ≡ get_or g.external_ids (i + j) 0)
          × ((get_or (node_records rounds i line) j no_record).coordinate
              ≡ get_or g.coordinates (i + j) no_coord)
    node_record_at zero i line j h = absurd (omega arith)
    node_record_at (suc rounds) i line zero h =
        let e : i ≡ i + 0 = omega arith in
        (ap (λ k. get_or g.external_ids k 0) e, ap (λ k. get_or g.coordinates k no_coord) e)
    node_record_at (suc rounds) i line (suc j) h =
        let e : i + 1 + j ≡ i + suc j = omega arith in
        let (id, c) = node_record_at rounds (i + 1) (incr line) j (omega arith) in
        (
          id ∙ ap (λ k. get_or g.external_ids k 0) e,
          c ∙ ap (λ k. get_or g.coordinates k no_coord) e,
        )

    pub id-small : (v : NodeId) → get_or g.external_ids v 0 < 2 ^ 64
    id-small v = All-get_or (λ id. id < 2 ^ 64) g.external_ids v 0 (omega arith) ids

    coordinate-IsCoord : (v : NodeId) → v < node_count g → IsCoord (get_or g.coordinates v no_coord)
    coordinate-IsCoord v h =
        All-get_or IsCoord g.coordinates v no_coord (laws.nought_finite, laws.nought_finite)
          valid.coordinates_fit

    pub node_lines-IsLine :
        (rounds i : ℕ) → i + rounds ≡ node_count g → All IsLine (node_lines to_chars g rounds i)
    node_lines-IsLine zero i e = tt
    node_lines-IsLine (suc rounds) i e =
        let (fx, fy) = coordinate-IsCoord i (omega arith) in
        (
          join-IsLine _ _ _ (decimal-IsField (get_or g.external_ids i 0)) (number-IsField _ fx)
              (number-IsField _ fy),
          node_lines-IsLine rounds (i + 1) (omega arith),
        )

    -- Every line of the node file describes the record of its node.
    pub node_lines-IsNodeRow :
        (rounds i line : ℕ)
        → i + rounds ≡ node_count g
        → Both
            (IsNodeRow from_chars)
            (numbered line (node_lines to_chars g rounds i))
            (node_records rounds i line)
    node_lines-IsNodeRow zero i line e = tt
    node_lines-IsNodeRow (suc rounds) i line e =
        let fits = coordinate-IsCoord i (omega arith) in
        let id = get_or g.external_ids i 0 in
        let c = get_or g.coordinates i no_coord in
        (
          (
            decimal id,
            number to_chars c.x,
            number to_chars c.y,
            join-IsRow _ _ _ (decimal-IsField id) (number-IsField c.x fits.0)
                (number-IsField c.y fits.1),
            parse_external_id-decimal id (id-small i),
            parse_number-number c.x fits.0,
            parse_number-number c.y fits.1,
            refl,
            fits,
          ),
          node_lines-IsNodeRow rounds (i + 1) (incr line) (omega arith),
        )
