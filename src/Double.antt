-- ===== src/Double.antt =====
-- The type `double` (include/route/types.hpp: Weight, Coord), as a parameter: the operations that the
-- code uses, and the laws of IEEE arithmetic with rounding to nearest that its correctness rests on.
pub mod Laws
pub mod Extended
use route_engine_cpp.Shared.{ℕ, ◌≡◌, Bool, true}

-- `x > y` is `lt y x`, `x >= y` is `le y x`, and `x != y` is `not (eq x y)`. `of_ratio a b` is the
-- literal whose exact value is a / b.
pub record Double (W : Type 0) : Type 0 where
  pub nought : W
  pub infinity : W
  pub not_a_number : W
  pub add : W → W → W
  pub sub : W → W → W
  pub mul : W → W → W
  pub div : W → W → W
  pub lt : W → W → Bool
  pub le : W → W → Bool
  pub eq : W → W → Bool
  pub abs : W → W
  pub hypot : W → W → W
  pub is_finite : W → Bool
  pub is_inf : W → Bool
  pub of_nat : ℕ → W
  pub of_ratio : ℕ → ℕ → W

infix 4 ◌≼◌
abbrev pub ◌≼◌ : {W : Type 0} ⦃d : Double W⦄ → W → W → Type 0
◌≼◌ ⦃d⦄ x y = d.le x y ≡ true
