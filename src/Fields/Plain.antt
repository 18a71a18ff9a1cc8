-- ===== src/Fields/Plain.antt =====
-- The text functions of src/csv.cpp on text without white space, comments or marks: it is read as it
-- stands.
use mathlib.Core.List.{reverse-reverse}
use route_engine_cpp.Shared.{
  ℕ, ◌<◌, ◌≡◌, ◌≢◌, refl, ap, ◌∙◌, List, [], ◌∷◌, ◌++◌, append_assoc, reverse, false, arith, ◌==◌,
  All, All-reverse, All-map, Bool-cases, inl, inr,
}
use route_engine_cpp.Types.{incr}
use route_engine_cpp.Fields.{
  Text, codes, is_nil, trim_front, trim, fields_of, split_fields, lines, strip_mark, strip_return,
  contents, content_of,
}

-- Neither a tab, a line's end, a carriage return, a space, a '#', nor the first byte of a mark.
abbrev pub IsLineByte : ℕ → Type 0
IsLineByte c = (c ≢ 9) × (c ≢ 10) × (c ≢ 13) × (c ≢ 32) × (c ≢ 35) × (c < 239)

-- Nor a comma.
abbrev pub IsFieldByte : ℕ → Type 0
IsFieldByte c = (c ≢ 44) × IsLineByte c

abbrev pub IsLine : Text → Type 0
IsLine line = (is_nil line ≡ false) × All IsLineByte line

abbrev pub IsField : Text → Type 0
IsField field = (is_nil field ≡ false) × All IsFieldByte field

-- The text of lines, each with its '\n'.
abbrev pub unlines : List Text → Text
unlines [] = []
unlines (line ∷ lines) = line ++ codes "\n" ++ unlines lines

-- Three fields with commas between them.
abbrev pub join : (a b c : Text) → Text
join a b c = a ++ codes "," ++ b ++ codes "," ++ c

lines-line :
    (line rest : Text)
    → All IsLineByte line
    → lines (line ++ codes "\n" ++ rest) ≡ line ∷ lines rest
unfolding lines
lines-line [] rest h = refl
lines-line (c ∷ line) rest h = ground (arith, h.0.1, lines-line line rest h.1)

pub lines-unlines : (ls : List Text) → All IsLine ls → lines (unlines ls) ≡ ls
unfolding lines
lines-unlines [] h = refl
lines-unlines (line ∷ ls) h =
    lines-line line (unlines ls) h.0.1 ∙ ap (◌∷◌ line) (lines-unlines ls h.1)

strip_return_plain : (line : Text) → All IsLineByte line → strip_return line ≡ line
unfolding strip_return
strip_return_plain [] h = refl
strip_return_plain (c ∷ []) h = ground (arith, h.0.2)
strip_return_plain (c ∷ c' ∷ line) h = ap (◌∷◌ c) (strip_return_plain (c' ∷ line) h.1)

trim_front_plain : (text : Text) → All IsLineByte text → trim_front text ≡ text
unfolding trim_front
trim_front_plain [] h = refl
trim_front_plain (c ∷ text) h = ground (arith, h.0.0, h.0.3)

trim_plain : (text : Text) → All IsLineByte text → trim text ≡ text
unfolding trim
trim_plain text h = rw (trim_front_plain text h) (
    ap reverse (trim_front_plain (reverse text) (All-reverse IsLineByte text h))
    ∙ reverse-reverse text)

strip_mark_plain : (line : Text) → All IsLineByte line → strip_mark line ≡ line
strip_mark_plain [] h = refl
strip_mark_plain (c₁ ∷ []) h = refl
strip_mark_plain (c₁ ∷ c₂ ∷ []) h = refl
strip_mark_plain (c₁ ∷ c₂ ∷ c₃ ∷ line) h = ground (arith, h.0.5)

content_of_plain : (number : ℕ) (line : Text) → All IsLineByte line → content_of number line ≡ line
content_of_plain number line h =
    rw (strip_return_plain line h, strip_mark_plain line h)
      (elim (Bool-cases (number == 1)) [
        | inl first ↦ rw first (trim_plain line h)
        | inr later ↦ rw later (trim_plain line h)
      ])

-- The lines as a Reader numbers them.
abbrev pub numbered : ℕ → List Text → List (ℕ × Text)
numbered number [] = []
numbered number (line ∷ rest) = (incr number, line) ∷ numbered (incr number) rest

pub contents-numbered :
    (number : ℕ) (ls : List Text) → All IsLine ls → contents number ls ≡ numbered number ls
unfolding contents incr
contents-numbered number [] h = refl
contents-numbered number ([] ∷ ls) h = cc
contents-numbered number ((c ∷ line) ∷ ls) h = ground (
  arith,
  content_of_plain (incr number) (c ∷ line) h.0.1,
  h.0.1.0.4,
  contents-numbered (incr number) ls h.1,
)

fields_of-field :
    (field rest : Text)
    → All IsFieldByte field
    → fields_of (field ++ codes "," ++ rest) ≡ field ∷ fields_of rest
unfolding fields_of
fields_of-field [] rest h = refl
fields_of-field (c ∷ field) rest h = ground (arith, h.0.0, fields_of-field field rest h.1)

fields_of-last : (field : Text) → All IsFieldByte field → fields_of field ≡ field ∷ []
unfolding fields_of
fields_of-last [] h = refl
fields_of-last (c ∷ field) h = ground (arith, h.0.0, fields_of-last field h.1)

trim_field : (field : Text) → All IsFieldByte field → trim field ≡ field
trim_field field h = trim_plain field (All-map (λ c b. b.1) field h)

pub split_fields-join :
    (a b c : Text)
    → All IsFieldByte a
    → All IsFieldByte b
    → All IsFieldByte c
    → split_fields (join a b c) ≡ a ∷ b ∷ c ∷ []
unfolding split_fields
split_fields-join a b c ha hb hc =
    let comma = codes "," in
    let regroup : join a b c ≡ a ++ comma ++ (b ++ comma ++ c) = simp append_assoc in
    rw (
      regroup,
      fields_of-field a (b ++ comma ++ c) ha,
      fields_of-field b c hb,
      fields_of-last c hc,
      trim_field a ha,
      trim_field b hb,
      trim_field c hc,
    )
