-- ===== src/Fields/Ids.antt =====
-- `parse_external_id` of src/csv.cpp: the texts that it takes as an id.
use route_engine_cpp.Shared.{
  ℕ, suc, ◌+◌, ◌-◌, ◌*◌, ◌^◌, ◌<◌, ◌≤◌, ◌≡◌, ◌↔◌, sym, ap, ◌∙◌, [], ◌∷◌, length, false, arith, some,
  All,
}
use native.Mathlib.Nat.{add-mul, mul_assoc, mul_comm, pow-succ'}
use route_engine_cpp.Types.{ExternalId}
use route_engine_cpp.Fields.{Text, is_nil, digits, parse_external_id}

abbrev pub IsDigit : ℕ → Type 0
IsDigit c = (48 ≤ c) × (c ≤ 57)

-- What a text of digits stands for: each digit times the power of ten of its place.
abbrev pub place_value : Text → ℕ
place_value [] = 0
place_value (c ∷ s) = (c - 48) * 10 ^ length s + place_value s

shifted :
    (v c : ℕ) (s : Text)
    → (10 * v + (c - 48)) * 10 ^ length s + place_value s
      ≡ v * 10 ^ suc (length s) + ((c - 48) * 10 ^ length s + place_value s)
shifted v c s =
    let power = 10 ^ length s in
    let e : (10 * v + (c - 48)) * power ≡ 10 * v * power + (c - 48) * power =
      add-mul (10 * v) (c - 48) power in
    let e' : v * 10 ^ suc (length s) ≡ 10 * v * power =
      ap (◌*◌ v) (pow-succ' 10 (length s))
      ∙ sym (mul_assoc v 10 power)
      ∙ ap (λ k. k * power) (mul_comm v 10) in
    omega (arith, e, e')

digits_iff :
    (v n : ℕ) (s : Text)
    → (digits v s ≡ some n) ↔ (All IsDigit s × (v * 10 ^ length s + place_value s ≡ n))
unfolding digits
digits_iff v n [] = ground arith
digits_iff v n (c ∷ s) = ground (arith, digits_iff (10 * v + (c - 48)) n s, shifted v c s)

-- A field is parsed as the id `n` exactly when it is not empty, has digits only, stands for `n` in
-- decimal notation, and `n` fits 64 bits.
pub parse_external_id_iff :
    (field : Text) (n : ExternalId)
    → (parse_external_id field ≡ some n)
      ↔ ((is_nil field ≡ false) × All IsDigit field × (place_value field ≡ n) × (n < 2 ^ 64))
unfolding parse_external_id
parse_external_id_iff field n = ground (arith, digits_iff 0 n field)
