-- ===== src/Generator/Write/Decimals.antt =====
-- The numbers that `write_csv` (src/generator.cpp) writes are read back by src/csv.cpp.
use route_engine_cpp.Shared.{
  ℕ, zero, suc, ◌+◌, ◌/◌, ◌%◌, ◌^◌, ◌<◌, ◌≤◌, All, ◌≡◌, refl, ap, sym, ◌∙◌, [], ◌∷◌, false, ltb,
  arith, some, Bool-cases, inl, inr,
}
use route_engine_cpp.Fields.{Text, is_nil, digits, parse_external_id}
use route_engine_cpp.Generator.Write.{digits_before, decimal}

-- The last digit is read after the digits before it.
last_digit : (n : ℕ) (out : Text) → digits (n / 10) ((48 + n % 10) ∷ out) ≡ digits n out
unfolding digits
last_digit n out = ground arith

digits-digits_before :
    (fuel n : ℕ) (out : Text) → n < fuel → digits 0 (digits_before fuel n out) ≡ digits n out
unfolding digits_before
digits-digits_before zero n out h = absurd (omega arith)
digits-digits_before (suc fuel) n out h = elim (Bool-cases (ltb n 10)) [
  | inl small ↦
      let e : n / 10 ≡ 0 = ground (arith, small) in
      rw small (ap (λ k. digits k ((48 + n % 10) ∷ out)) (sym e) ∙ last_digit n out)
  | inr large ↦ rw large (
      digits-digits_before fuel (n / 10) ((48 + n % 10) ∷ out) (ground (arith, large))
      ∙ last_digit n out)
]

digits_before-nonempty :
    (fuel n c : ℕ) (out : Text) → is_nil (digits_before fuel n (c ∷ out)) ≡ false
unfolding digits_before
digits_before-nonempty zero n c out = refl
digits_before-nonempty (suc fuel) n c out =
    ground (arith, digits_before-nonempty fuel (n / 10) (48 + n % 10) (c ∷ out))

pub decimal-nonempty : (n : ℕ) → is_nil (decimal n) ≡ false
unfolding decimal
decimal-nonempty n = ground (arith, digits_before-nonempty n (n / 10) (48 + n % 10) [])

pub digits-decimal : (n : ℕ) → digits 0 (decimal n) ≡ some n
unfolding decimal digits
digits-decimal n = digits-digits_before (suc n) n [] (omega arith)

digits_before-All :
    (fuel n : ℕ) (out : Text)
    → All (λ c. (48 ≤ c) × (c ≤ 57)) out
    → All (λ c. (48 ≤ c) × (c ≤ 57)) (digits_before fuel n out)
unfolding digits_before
digits_before-All zero n out h = h
digits_before-All (suc fuel) n out h = elim (Bool-cases (ltb n 10)) [
  | inl small ↦ rw small ((omega arith, omega arith), h)
  | inr large ↦
      rw large
        (digits_before-All fuel (n / 10) ((48 + n % 10) ∷ out) ((omega arith, omega arith), h))
]

-- A printed number is not empty and holds only digits.
pub decimal-All : (n : ℕ) → All (λ c. (48 ≤ c) × (c ≤ 57)) (decimal n)
unfolding decimal
decimal-All n = digits_before-All (suc n) n [] tt

-- An id below 2 ^ 64 is read back from its decimal print.
pub parse_external_id-decimal : (n : ℕ) → n < 2 ^ 64 → parse_external_id (decimal n) ≡ some n
unfolding parse_external_id
parse_external_id-decimal n h = rw (decimal-nonempty n, digits-decimal n) (ground (arith, h))
