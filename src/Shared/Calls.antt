-- ===== src/Shared/Calls.antt =====
-- How a call of the program ends: with a value, by an exception (include/route/errors.hpp), or,
-- in the model only, by the end of a loop's fuel.
use Prim.Native.Nat.{ℕ}
use mathlib.Core.Path.{◌≡◌, refl, sym, ap, subst}
use mathlib.Core.Bool.{Bool, true, false}
use mathlib.Core.List.{List}
use mathlib.Core.Option.{Option, none, some}

-- The messages of GraphValidationError, one constructor for each throw.
pub data Reason : Type 0 where
  too_many_nodes too_many_arcs consumed : Reason
  node_out_of_range already_set bad_coordinate : Reason
  source_out_of_range target_out_of_range bad_weight negative_weight : Reason
  never_set : ℕ → Reason
  too_few_nodes no_queries no_repetitions : Reason
  zero_width zero_height bad_spacing bad_jitter bad_rate lattice_too_large contract_violated :
      Reason

-- The messages of GraphLoadError; `core` re-reports a GraphValidationError.
pub data LoadReason : Type 0 where
  cannot_be_opened empty_file bad_header empty_field bad_id bad_x bad_y : LoadReason
  too_many_records bad_source bad_target not_a_weight weight_below_zero : LoadReason
  field_count : ℕ → LoadReason
  duplicate_id : ℕ → ℕ → LoadReason
  unknown_source unknown_target : ℕ → LoadReason
  core : Reason → LoadReason

-- `GraphLoadError` carries the file and the line, `HeuristicContractError` the number of violating arcs.
pub data Error : Type 0 where
  graph_validation : Reason → Error
  graph_load : List ℕ → ℕ → LoadReason → Error
  heuristic_contract : ℕ → Error
  out_of_range : Error
  benchmark_agreement : Error

pub data Run {ℓ} (A : Type ℓ) : Type ℓ where
  ok : A → Run A
  throw : Error → Run A
  out_of_fuel : Run A

infixl 5 ◌>>=◌ ◌>>◌
abbrev pub ◌>>=◌ {ℓ κ} : {A : Type ℓ} {B : Type κ} → Run A → (A → Run B) → Run B
ok a >>= f = f a
throw e >>= f = throw e
out_of_fuel >>= f = out_of_fuel

abbrev pub ◌>>◌ {ℓ} : {B : Type ℓ} → Run (Unit {0}) → Run B → Run B
m >> k = m >>= λ _. k

bind_assoc {ℓ} :
    {A B C : Type ℓ} (m : Run A) (f : A → Run B) (g : B → Run C)
    → (m >>= f) >>= g ≡ (m >>= λ a. f a >>= g)
bind_assoc (ok a) f g = refl
bind_assoc (throw e) f g = refl
bind_assoc out_of_fuel f g = refl

-- Two calls after a call, put together.
pub bind_join {ℓ} :
    {A B C D : Type ℓ} (m : Run A) (f : A → Run B) (g : B → Run C) (h : C → Run D)
    → (m >>= λ a. f a >>= λ b. g b >>= h) ≡ ((m >>= λ a. f a >>= g) >>= h)
bind_join (ok a) f g h = sym (bind_assoc (f a) g h)
bind_join (throw e) f g h = refl
bind_join out_of_fuel f g h = refl

-- `if (test) throw e;`
abbrev pub throw_if : Bool → Error → Run (Unit {0})
throw_if true e = throw e
throw_if false e = ok tt

-- A value that must be there.
abbrev pub required {ℓ} : {A : Type ℓ} → Option A → Error → Run A
required (some a) e = ok a
required none e = throw e

-- The call returns, with a value of which `P` holds.
abbrev pub Returns {ℓ} : {A : Type ℓ} → (A → Type 0) → Run A → Type 0
Returns P (ok a) = P a
Returns P (throw e) = ⊥
Returns P out_of_fuel = ⊥

-- The call returns such a value, or throws such an error.
abbrev pub Ends {ℓ} : {A : Type ℓ} → (Error → Type 0) → (A → Type 0) → Run A → Type 0
Ends E P (ok a) = P a
Ends E P (throw e) = E e
Ends E P out_of_fuel = ⊥

module _ {ℓ κ} {A : Type ℓ} {B : Type κ} (E : Error → Type 0) (Q : B → Type 0) where
  pub Ends-bind :
      (P : A → Type 0) (r : Run A) (f : A → Run B)
      → Ends E P r
      → ((a : A) → P a → Ends E Q (f a))
      → Ends E Q (r >>= f)
  Ends-bind P (ok a) f h k = k a h
  Ends-bind P (throw e) f h k = h
  Ends-bind P out_of_fuel f h k = h

  pub Ends-required :
      (o : Option A) (e : Error) (f : A → Run B)
      → E e
      → ((a : A) → o ≡ some a → Ends E Q (f a))
      → Ends E Q (required o e >>= f)
  Ends-required (some a) e f h k = k a refl
  Ends-required none e f h k = h

pub Ends-map {κ} :
    {B : Type κ} (E : Error → Type 0) (P Q : B → Type 0) (r : Run B)
    → Ends E P r
    → ((b : B) → P b → Q b)
    → Ends E Q r
Ends-map E P Q (ok b) h k = k b h
Ends-map E P Q (throw e) h k = h
Ends-map E P Q out_of_fuel h k = h

pub Ends-errors {κ} :
    {B : Type κ} (E E' : Error → Type 0) (P : B → Type 0) (r : Run B)
    → Ends E P r
    → ((e : Error) → E e → E' e)
    → Ends E' P r
Ends-errors E E' P (ok b) h k = h
Ends-errors E E' P (throw e) h k = k e h
Ends-errors E E' P out_of_fuel h k = h

pub Ends-throw_if {κ} :
    {B : Type κ} (E : Error → Type 0) (Q : B → Type 0) (test : Bool) (e : Error) (k : Run B)
    → E e
    → (test ≡ false → Ends E Q k)
    → Ends E Q (throw_if test e >> k)
Ends-throw_if E Q true e k h f = h
Ends-throw_if E Q false e k h f = f refl

pub Returns-bind {ℓ κ} :
    {A : Type ℓ} {B : Type κ} (P : A → Type 0) (Q : B → Type 0) (r : Run A) (f : A → Run B)
    → Returns P r
    → ((a : A) → P a → Returns Q (f a))
    → Returns Q (r >>= f)
Returns-bind P Q (ok a) f h k = k a h
Returns-bind P Q (throw e) f h k = h
Returns-bind P Q out_of_fuel f h k = h

-- A call whose value is known.
pub Returns-step {ℓ κ} :
    {A : Type ℓ} {B : Type κ} (Q : B → Type 0) {m : Run A} {a : A} (f : A → Run B)
    → m ≡ ok a
    → Returns Q (f a)
    → Returns Q (m >>= f)
Returns-step Q f e h = subst (λ m. Returns Q (m >>= f)) (sym e) h

pub throw_if-false : (test : Bool) (e : Error) → test ≡ false → throw_if test e ≡ ok tt
throw_if-false test e h = ap (λ t. throw_if t e) h

pub Returns-map {ℓ} :
    {A : Type ℓ} (P Q : A → Type 0) (r : Run A) → Returns P r → ((a : A) → P a → Q a) → Returns Q r
Returns-map P Q (ok a) h k = k a h
Returns-map P Q (throw e) h k = h
Returns-map P Q out_of_fuel h k = h

pub Returns-ok {ℓ} :
    {A : Type ℓ} (P : A → Type 0) (r : Run A) → Returns P r → (a : A) × (r ≡ ok a) × P a
Returns-ok P (ok a) h = (a, refl, h)
Returns-ok P (throw e) h = absurd h
Returns-ok P out_of_fuel h = absurd h

pub Returns-both {ℓ} :
    {A : Type ℓ} (P Q : A → Type 0) (r : Run A)
    → Returns P r
    → Returns Q r
    → Returns (λ a. P a × Q a) r
Returns-both P Q (ok a) h k = (h, k)
Returns-both P Q (throw e) h k = h
Returns-both P Q out_of_fuel h k = h

-- If the call returns, `P` holds of its value.
abbrev pub WhenOk {ℓ} : {A : Type ℓ} → (A → Type 0) → Run A → Type 0
WhenOk P (ok a) = P a
WhenOk P _ = Unit

pub WhenOk-bind {ℓ κ} :
    {A : Type ℓ} {B : Type κ} (P : A → Type 0) (Q : B → Type 0) (r : Run A) (f : A → Run B)
    → WhenOk P r
    → ((a : A) → P a → WhenOk Q (f a))
    → WhenOk Q (r >>= f)
WhenOk-bind P Q (ok a) f h k = k a h
WhenOk-bind P Q (throw e) f h k = tt
WhenOk-bind P Q out_of_fuel f h k = tt

pub WhenOk-any {ℓ} : {A : Type ℓ} (r : Run A) → WhenOk (λ _. Unit) r
WhenOk-any (ok a) = tt
WhenOk-any (throw e) = tt
WhenOk-any out_of_fuel = tt

pub Returns-when {ℓ} :
    {A : Type ℓ} (P Q : A → Type 0) (r : Run A) → Returns P r → WhenOk Q r → Returns Q r
Returns-when P Q (ok a) h k = k
Returns-when P Q (throw e) h k = absurd h
Returns-when P Q out_of_fuel h k = absurd h
