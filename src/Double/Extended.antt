-- ===== src/Double/Extended.antt =====
-- The laws of `Double.Laws` can be met: tenths with an infinity, on a line. A difference stops at zero.
use route_engine_cpp.Shared.{
  ℕ, ◌+◌, ◌-◌, ◌*◌, ◌/◌, Bool, true, false, not, Option, none, some, arith, ltb, ◌==◌,
}
use route_engine_cpp.Double.{Double}
use route_engine_cpp.Double.Laws.{IsOrdered}

-- `none` is infinity; there is no other number for NaN.
abbrev pub Extended : Type 0
Extended = Option ℕ

abbrev lift : (ℕ → ℕ → ℕ) → Extended → Extended → Extended
lift f (some a) (some b) = some (f a b)
lift f _ _ = none

abbrev below : Extended → Extended → Bool
below (some a) (some b) = ltb a b
below (some a) none = true
below none y = false

abbrev same : Extended → Extended → Bool
same (some a) (some b) = a == b
same (some a) none = false
same none (some b) = false
same none none = true

abbrev is_none : Extended → Bool
is_none none = true
is_none (some a) = false

instance abbrev pub extended_double : Double Extended
extended_double = record {
  nought = some 0;
  infinity = none;
  not_a_number = none;
  add = lift ◌+◌;
  sub = lift ◌-◌;
  mul = lift (λ a b. a * b / 10);
  div = lift (λ a b. 10 * a / b);
  lt = below;
  le = λ x y. not (below y x);
  eq = same;
  abs = λ x. x;
  hypot = lift ◌+◌;
  is_finite = λ x. not (is_none x);
  is_inf = is_none;
  of_nat = λ n. some (10 * n);
  of_ratio = λ a b. some (10 * a / b);
}

pub Extended-IsOrdered : IsOrdered Extended
Extended-IsOrdered = ground arith
