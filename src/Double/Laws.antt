-- ===== src/Double/Laws.antt =====
-- Laws of `double`. None of them speaks of associativity, which rounding breaks, and NaN meets none
-- of the premises: `nought ≼ x` says that x is a number that is not negative, or infinity.
use mathlib.Core.Path.{subst₂}
use route_engine_cpp.Shared.{sym, refl, ◌≡◌, ◌⊎◌, true, false, not, ◌&&◌, arith}
use route_engine_cpp.Double.{Double, ◌≼◌}

pub record IsOrdered (W : Type 0) ⦃d : Double W⦄ : Type 0 where
  pub nought_refl : d.nought ≼ d.nought
  pub nought_finite : d.is_finite d.nought ≡ true
  pub nonneg_of_finite : (x : W) → d.is_finite x ≡ true → d.lt x d.nought ≡ false → d.nought ≼ x
  pub nought-lt-infinity : d.lt d.nought d.infinity ≡ true
  pub le-infinity : (x : W) → d.nought ≼ x → x ≼ d.infinity
  pub le_refl : (x : W) → d.nought ≼ x → x ≼ x
  pub le_trans : (x y z : W) → x ≼ y → y ≼ z → x ≼ z
  pub le_total : (x y : W) → d.nought ≼ x → d.nought ≼ y → (x ≼ y) ⊎ (y ≼ x)
  pub lt-eq-not-le : (x y : W) → d.nought ≼ x → d.nought ≼ y → d.lt x y ≡ not (d.le y x)
  pub eq-eq-le : (x y : W) → d.nought ≼ x → d.nought ≼ y → d.eq x y ≡ (d.le x y && d.le y x)
  pub add_comm : (x y : W) → d.nought ≼ x → d.nought ≼ y → d.add x y ≡ d.add y x
  pub add_nonneg : (x y : W) → d.nought ≼ x → d.nought ≼ y → d.nought ≼ d.add x y
  pub le-add : (x y : W) → d.nought ≼ x → d.nought ≼ y → x ≼ d.add x y
  pub add-nought-le : (x : W) → d.nought ≼ x → d.add x d.nought ≼ x
  pub add_mono : (x y z : W) → d.nought ≼ x → d.nought ≼ z → x ≼ y → d.add x z ≼ d.add y z

pub le_between : {W : Type 0} ⦃d : Double W⦄ {a a' b b' : W} → a ≡ a' → b ≡ b' → a' ≼ b' → a ≼ b
le_between e e' h = subst₂ (λ s t. s ≼ t) (sym e) (sym e') h

module _ {W : Type 0} ⦃d : Double W⦄ (laws : IsOrdered W) where
  open d use {nought, infinity, lt, le}

  pub le_of_lt : (x y : W) → nought ≼ x → nought ≼ y → lt x y ≡ true → x ≼ y
  le_of_lt x y p q h = ground (arith, laws.lt-eq-not-le x y p q, laws.le_total x y p q)

  pub le_of_not_lt : (x y : W) → nought ≼ x → nought ≼ y → lt x y ≡ false → y ≼ x
  le_of_not_lt x y p q h = ground (arith, laws.lt-eq-not-le x y p q)

  pub not_le_of_lt : (x y : W) → nought ≼ x → nought ≼ y → lt x y ≡ true → le y x ≡ false
  not_le_of_lt x y p q h = ground (arith, laws.lt-eq-not-le x y p q)

  pub nought-add-le : (x : W) → nought ≼ x → d.add nought x ≼ x
  nought-add-le x h =
      le_between (laws.add_comm nought x laws.nought_refl h) refl (laws.add-nought-le x h)

  pub le-nought-add : (x : W) → nought ≼ x → x ≼ d.add nought x
  le-nought-add x h =
      le_between refl (laws.add_comm nought x laws.nought_refl h)
        (laws.le-add x nought h laws.nought_refl)

  -- Below a number that is below infinity.
  pub lt-infinity_of_le :
      (x y : W) → nought ≼ x → nought ≼ y → x ≼ y → lt y infinity ≡ true → lt x infinity ≡ true
  lt-infinity_of_le x y p q h k =
      let top = laws.le_trans _ _ _ (laws.nought_refl) (laws.le-infinity nought laws.nought_refl) in
      ground (
        arith,
        laws.lt-eq-not-le x infinity p top,
        laws.lt-eq-not-le y infinity q top,
        laws.le_trans infinity x y,
      )
