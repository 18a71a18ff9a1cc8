-- ===== src/Random.antt =====
-- SplitMix64 of include/route/random.hpp: `state_` goes in and comes out. A rejection loop has fuel for
-- 2 ^ 64 draws.
pub mod Below
use Prim.Native.Nat.{bit_xor, bit_or, bit_and}
use route_engine_cpp.Shared.{
  ℕ, zero, suc, ◌+◌, ◌-◌, ◌*◌, ◌/◌, ◌%◌, ◌^◌, ltb, if◌then◌else◌, Run, ok, out_of_fuel,
}
use route_engine_cpp.Double.{Double}

unfoldable pub next : ℕ → ℕ × ℕ
next state =
    let state' = (state + 11_400_714_819_323_198_485) % 2 ^ 64 in
    let y = (bit_xor state' (state' / 2 ^ 30) * 13_787_848_793_156_543_929) % 2 ^ 64 in
    let z = (bit_xor y (y / 2 ^ 27) * 10_723_151_780_598_845_931) % 2 ^ 64 in
    (bit_xor z (z / 2 ^ 31), state')

module _ {W : Type 0} ⦃d : Double W⦄ where
  open d use {mul, of_nat, of_ratio}

  unfoldable pub next_unit : ℕ → W × ℕ
  unfolding next
  next_unit state =
      let drawn = next state in (mul (of_nat (drawn.0 / 2 ^ 11)) (of_ratio 1 (2 ^ 53)), drawn.1)

-- The smallest mask of ones that covers `bound - 1`.
unfoldable pub mask_of : ℕ → ℕ
mask_of bound =
    let m₀ = (bound + 2 ^ 64 - 1) % 2 ^ 64 in
    let m₁ = bit_or m₀ (m₀ / 2 ^ 1) in
    let m₂ = bit_or m₁ (m₁ / 2 ^ 2) in
    let m₃ = bit_or m₂ (m₂ / 2 ^ 4) in
    let m₄ = bit_or m₃ (m₃ / 2 ^ 8) in let m₅ = bit_or m₄ (m₄ / 2 ^ 16) in bit_or m₅ (m₅ / 2 ^ 32)

-- The `while (true)` loop.
unfoldable pub draw_below : (fuel bound mask : ℕ) → ℕ → Run (ℕ × ℕ)
unfolding next
draw_below zero bound mask state = out_of_fuel
draw_below (suc fuel) bound mask state =
    let drawn = next state in
    let candidate = bit_and drawn.0 mask in
    let rest = draw_below fuel bound mask drawn.1 in
    if ltb candidate bound then ok (candidate, drawn.1) else rest

abbrev pub all_draws : ℕ
all_draws = 2 ^ 64

unfoldable pub next_below : (bound : ℕ) → ℕ → Run (ℕ × ℕ)
unfolding mask_of draw_below
next_below bound state = draw_below all_draws bound (mask_of bound) state
