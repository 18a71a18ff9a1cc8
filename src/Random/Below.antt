-- ===== src/Random/Below.antt =====
-- The rejection loop of SplitMix64::next_below (include/route/random.hpp) ends. The state is a counter
-- with an odd increment, so it comes to 0 within 2 ^ 64 draws, and at 0 the number drawn is 0.
use Prim.Native.Nat.{bit_and, bit_and-bitwise}
use route_engine_cpp.Shared.{
  ℕ, zero, suc, ◌+◌, ◌-◌, ◌*◌, ◌%◌, ◌^◌, ◌<◌, ◌≡◌, refl, ap, ◌∙◌, arith, ltb, true, Bool-cases, inl,
  inr, Returns,
}
use route_engine_cpp.Random.{next, draw_below, next_below, mask_of, all_draws}

abbrev step : ℕ
step = 11_400_714_819_323_198_485

-- The inverse of the increment modulo 2 ^ 64.
abbrev inverse : ℕ
inverse = 17_428_512_612_931_826_493

next_state : (state : ℕ) → (next state).1 ≡ (state + step) % 2 ^ 64
unfolding next
next_state state = refl

-- A draw that leaves the state at 0 draws 0.
next_zero : (state : ℕ) → (state + step) % 2 ^ 64 ≡ 0 → (next state).0 ≡ 0
unfolding next
next_zero state h = rw h refl

zero-bit_and : (b : ℕ) → bit_and 0 b ≡ 0
zero-bit_and b = bit_and-bitwise 0 b

-- If the state comes to 0 after `k` more draws, `k + 1` rounds are enough.
draw_below-Returns :
    (fuel k bound mask state : ℕ)
    → k < fuel
    → 0 < bound
    → (state + step * (k + 1)) % 2 ^ 64 ≡ 0
    → Returns (λ (value, _). value < bound) (draw_below fuel bound mask state)
unfolding draw_below
draw_below-Returns zero k bound mask state h pos e = elim h [ ]
draw_below-Returns (suc fuel) zero bound mask state h pos e =
    let drawn = ap (λ v. bit_and v mask) (next_zero state (omega arith)) ∙ zero-bit_and mask in
    let accepted : ltb (bit_and (next state).0 mask) bound ≡ true = ground (arith, drawn) in
    rw accepted (omega (arith, drawn))
draw_below-Returns (suc fuel) (suc k) bound mask state h pos e =
    elim (Bool-cases (ltb (bit_and (next state).0 mask) bound)) [
      | inl accepted ↦ rw accepted (ground arith)
      | inr rejected ↦ rw rejected (
          draw_below-Returns fuel k bound mask (next state).1 (omega arith) pos
            (omega (arith, next_state state)))
    ]

step-inverse : (n : ℕ) → (step * ((n * inverse) % 2 ^ 64)) % 2 ^ 64 ≡ n % 2 ^ 64
step-inverse n = omega arith

-- The draw at which the state is 0.
rounds_to_zero : (state : ℕ) → (k : ℕ) × (k < 2 ^ 64) × ((state + step * (k + 1)) % 2 ^ 64 ≡ 0)
rounds_to_zero state =
    let n = 2 ^ 64 - state % 2 ^ 64 in
    let m = (n * inverse) % 2 ^ 64 in
    elim (Bool-cases (ltb 0 m)) [
      | inl some ↦
          let e : m - 1 + 1 ≡ m = ground arith in
          (m - 1, omega arith, rw e (omega (arith, step-inverse n)))
      | inr none ↦
          let e : m ≡ 0 = ground arith in
          (2 ^ 64 - 1, omega arith, omega (arith, step-inverse n, e))
    ]

-- `next_below` returns a number below its bound, from every state.
pub next_below-Returns :
    (bound state : ℕ) → 0 < bound → Returns (λ (value, _). value < bound) (next_below bound state)
unfolding next_below
next_below-Returns bound state pos =
    let (k, h, e) = rounds_to_zero state in
    draw_below-Returns all_draws k bound (mask_of bound) state h pos e
