-- ===== src/Fields.antt =====
-- The text functions of src/csv.cpp. A string is the list of its bytes.
pub mod Plain
pub mod Ids
use Prim.Native.Char.{code}
use Prim.Native.String.{String}
use route_engine_cpp.Shared.{
  ℕ, ◌+◌, ◌-◌, ◌*◌, ◌^◌, List, [], ◌∷◌, reverse, map, Bool, true, false, ltb, leb, ◌==◌, ◌&&◌, ◌||◌,
  if◌then◌else◌, Option, none, some, ◌≡◌, ◌↔◌, arith,
}
use route_engine_cpp.Types.{ExternalId, incr}

abbrev pub Text : Type 0
Text = List ℕ

-- The bytes of a literal.
abbrev pub codes : String → Text
codes String.[] = []
codes (String.◌∷◌ c s) = code c ∷ codes s

abbrev pub is_nil : Text → Bool
is_nil [] = true
is_nil (_ ∷ _) = false

unfoldable pub equals : Text → Text → Bool
equals [] [] = true
equals [] (_ ∷ _) = false
equals (_ ∷ _) [] = false
equals (c ∷ s) (c' ∷ s') = (c == c') && equals s s'

abbrev pub starts_with : Text → Text → Bool
starts_with [] s = true
starts_with (_ ∷ _) [] = false
starts_with (c ∷ s) (c' ∷ s') = (c == c') && starts_with s s'

pub equals_iff : (a b : Text) → (equals a b ≡ true) ↔ (a ≡ b)
unfolding equals
equals_iff (x ∷ a) (y ∷ b) = ground (arith, equals_iff a b)
equals_iff _ _ = ground arith

-- ' ' and '\t'.
abbrev is_space : ℕ → Bool
is_space c = (c == 32) || (c == 9)

unfoldable pub trim_front : Text → Text
trim_front [] = []
trim_front (c ∷ s) = if is_space c then trim_front s else c ∷ s

unfoldable pub trim : Text → Text
unfolding trim_front
trim s = reverse (trim_front (reverse (trim_front s)))

-- Empty, or a comment: '#'.
abbrev pub is_skippable : Text → Bool
is_skippable [] = true
is_skippable (c ∷ s) = c == 35

-- One character before the first of the fields that follow it.
abbrev glue : ℕ → List Text → List Text
glue c [] = (c ∷ []) ∷ []
glue c (field ∷ fields) = (c ∷ field) ∷ fields

-- The fields between the commas, not trimmed yet.
unfoldable pub fields_of : Text → List Text
fields_of [] = [] ∷ []
fields_of (c ∷ s) = let rest = fields_of s in if c == 44 then [] ∷ rest else glue c rest

-- All fields, of which the caller wants three; `found` is the length.
unfoldable pub split_fields : Text → List Text
unfolding fields_of trim
split_fields line = map trim (fields_of line)

-- std::from_chars for an unsigned integer, on a field that it must consume: digits only.
unfoldable pub digits : ℕ → Text → Option ℕ
digits value [] = some value
digits value (c ∷ s) =
    let rest = digits (10 * value + (c - 48)) s in if leb 48 c && leb c 57 then rest else none

-- The value must fit a uint64_t.
abbrev in_u64 : Option ℕ → Option ExternalId
in_u64 none = none
in_u64 (some n) = if ltb n (2 ^ 64) then some n else none

unfoldable pub parse_external_id : Text → Option ExternalId
unfolding digits
parse_external_id field = if is_nil field then none else in_u64 (digits 0 field)

-- The lines of a stream as std::getline cuts them, at '\n'; text after the last one is a line too.
unfoldable pub lines : Text → List Text
lines [] = []
lines (c ∷ s) = let rest = lines s in if c == 10 then [] ∷ rest else glue c rest

-- A trailing '\r' is dropped.
unfoldable pub strip_return : Text → Text
strip_return [] = []
strip_return (c ∷ []) = if c == 13 then [] else c ∷ []
strip_return (c ∷ c' ∷ s) = c ∷ strip_return (c' ∷ s)

-- The byte order mark, 0xEF 0xBB 0xBF, on the first line only.
abbrev pub strip_mark : Text → Text
strip_mark (c₁ ∷ c₂ ∷ c₃ ∷ s) =
    if (c₁ == 239) && (c₂ == 187) && (c₃ == 191) then s else c₁ ∷ c₂ ∷ c₃ ∷ s
strip_mark s = s

abbrev pub content_of : ℕ → Text → Text
content_of number line =
    let view = strip_return line in trim (if number == 1 then strip_mark view else view)

-- What `Reader::next` gives, call by call, after `number` lines: the number and the trimmed text of
-- each line that is not skipped.
unfoldable pub contents : ℕ → List Text → List (ℕ × Text)
unfolding incr strip_return trim
contents number [] = []
contents number (line ∷ rest) =
    let view = content_of (incr number) line in
    let others = contents (incr number) rest in
    if is_skippable view then others else (incr number, view) ∷ others
