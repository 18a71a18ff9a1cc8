-- ===== src/Shared/Lists.antt =====
-- Vectors as lists under native indices. A read out of range gives the default that the reader
-- names, a write out of range changes nothing.
use Prim.Native.Nat.{ℕ, zero, suc, ◌+◌, ◌≤◌, ◌<◌}
use mathlib.Core.Path.{◌≡◌, refl, ap}
use mathlib.Core.Logic.{◌≢◌, ◌↔◌, ◌⊎◌, inl, inr, ⊎_elim}
use mathlib.Core.List.{List, [], ◌∷◌, ◌++◌, reverse_aux, reverse, Memᴰ}
use mathlib.Core.List.Memᴰ
use native.Mathlib.Omega.{arith}
use route_engine_cpp.Shared.Tests.{◌==◌, if◌then◌else◌}

module _ {ℓ} {A : Type ℓ} where
  abbrev pub length : List A → ℕ
  length [] = 0
  length (_ ∷ xs) = suc (length xs)

  abbrev pub get_or : List A → ℕ → A → A
  get_or [] i d = d
  get_or (x ∷ xs) zero d = x
  get_or (x ∷ xs) (suc i) d = get_or xs i d

  abbrev pub set : List A → ℕ → A → List A
  set [] i v = []
  set (x ∷ xs) zero v = v ∷ xs
  set (x ∷ xs) (suc i) v = x ∷ set xs i v

  abbrev pub take : ℕ → List A → List A
  take zero xs = []
  take (suc n) [] = []
  take (suc n) (x ∷ xs) = x ∷ take n xs

  abbrev pub drop : ℕ → List A → List A
  drop zero xs = xs
  drop (suc n) [] = []
  drop (suc n) (x ∷ xs) = drop n xs

  abbrev pub replicate : ℕ → A → List A
  replicate zero a = []
  replicate (suc n) a = a ∷ replicate n a

  abbrev pub All {κ} : (A → Type κ) → List A → Type κ
  All P [] = Unit
  All P (x ∷ xs) = P x × All P xs

  pub length-set : (xs : List A) (i : ℕ) (v : A) → length (set xs i v) ≡ length xs
  length-set [] i v = refl
  length-set (x ∷ xs) zero v = refl
  length-set (x ∷ xs) (suc i) v = ap suc (length-set xs i v)

  pub length-replicate : (n : ℕ) (a : A) → length (replicate n a) ≡ n
  length-replicate zero a = refl
  length-replicate (suc n) a = ap suc (length-replicate n a)

  pub length-append : (xs ys : List A) → length (xs ++ ys) ≡ length xs + length ys
  length-append [] ys = omega arith
  length-append (x ∷ xs) ys = omega (arith, length-append xs ys)

  length-reverse_aux : (xs ys : List A) → length (reverse_aux xs ys) ≡ length xs + length ys
  length-reverse_aux [] ys = omega arith
  length-reverse_aux (x ∷ xs) ys = omega (arith, length-reverse_aux xs (x ∷ ys))

  pub length-reverse : (xs : List A) → length (reverse xs) ≡ length xs
  length-reverse xs = omega (arith, length-reverse_aux xs [])

  pub get_or-replicate : (n i : ℕ) (a : A) → get_or (replicate n a) i a ≡ a
  get_or-replicate zero i a = refl
  get_or-replicate (suc n) zero a = refl
  get_or-replicate (suc n) (suc i) a = get_or-replicate n i a

  -- A write in range is read back, and the other places keep what they hold.
  pub get_or-set :
      (xs : List A) (i j : ℕ) (v d : A)
      → i < length xs
      → get_or (set xs i v) j d ≡ (if i == j then v else get_or xs j d)
  get_or-set [] i j v d h = elim h [ ]
  get_or-set (x ∷ xs) zero zero v d h = refl
  get_or-set (x ∷ xs) zero (suc j) v d h = ground arith
  get_or-set (x ∷ xs) (suc i) zero v d h = ground arith
  get_or-set (x ∷ xs) (suc i) (suc j) v d h = ground (arith, get_or-set xs i j v d)

  pub All-get {κ} : (P : A → Type κ) {x : A} (xs : List A) → All P xs → Memᴰ x xs → P x
  All-get P [] h m = absurd (Memᴰ.not-nil m)
  All-get P {x} (y ∷ ys) h m = elim (Memᴰ.cases_cons m) [
    | inl e ↦ rw e h.0
    | inr r ↦ All-get P ys h.1 r
  ]

  pub All-get_or {κ} :
      (P : A → Type κ) (xs : List A) (i : ℕ) (default : A)
      → P default
      → All P xs
      → P (get_or xs i default)
  All-get_or P [] i default p h = p
  All-get_or P (x ∷ xs) zero default p h = h.0
  All-get_or P (x ∷ xs) (suc i) default p h = All-get_or P xs i default p h.1

  pub All-concat {κ} :
      (P : A → Type κ) (xs : List A) (v : A) → All P xs → P v → All P (xs ++ v ∷ [])
  All-concat P [] v h p = (p, tt)
  All-concat P (x ∷ xs) v h p = (h.0, All-concat P xs v h.1 p)

  pub get_or-append_front :
      (xs ys : List A) (i : ℕ) (d : A) → i < length xs → get_or (xs ++ ys) i d ≡ get_or xs i d
  get_or-append_front [] ys i d h = absurd (omega arith)
  get_or-append_front (x ∷ xs) ys zero d h = refl
  get_or-append_front (x ∷ xs) ys (suc i) d h = get_or-append_front xs ys i d (omega arith)

  pub get_or-append_at :
      (xs : List A) (y : A) (ys : List A) (d : A) → get_or (xs ++ y ∷ ys) (length xs) d ≡ y
  get_or-append_at [] y ys d = refl
  get_or-append_at (x ∷ xs) y ys d = get_or-append_at xs y ys d

  -- Two lists that correspond place by place.
  abbrev pub Both {κ} : {B : Type κ} → (A → B → Type 0) → List A → List B → Type 0
  Both R [] [] = Unit
  Both R [] (_ ∷ _) = ⊥
  Both R (_ ∷ _) [] = ⊥
  Both R (x ∷ xs) (y ∷ ys) = R x y × Both R xs ys

  pub Memᴰ-cons : (a x : A) (xs : List A) → Memᴰ a (x ∷ xs) ↔ ((a ≡ x) ⊎ Memᴰ a xs)
  Memᴰ-cons a x xs = (Memᴰ.cases_cons, ⊎_elim Memᴰ.head Memᴰ.tail)

-- A write in range, at its own place and at another.
module _ {ℓ} {A : Type ℓ} (xs : List A) (i : ℕ) (v d : A) (h : i < length xs) where
  pub get_or-set_self : get_or (set xs i v) i d ≡ v
  get_or-set_self = ground (arith, get_or-set xs i i v d h)

  pub get_or-set_ne : (j : ℕ) → j ≢ i → get_or (set xs i v) j d ≡ get_or xs j d
  get_or-set_ne j ne = ground (arith, get_or-set xs i j v d h, ne)

module _ {ℓ κ} {A : Type ℓ} (P : A → Type κ) where
  pub All-append : (xs ys : List A) → All P xs → All P ys → All P (xs ++ ys)
  All-append [] ys h h' = h'
  All-append (x ∷ xs) ys h h' = (h.0, All-append xs ys h.1 h')

  All-reverse_aux : (xs ys : List A) → All P xs → All P ys → All P (reverse_aux xs ys)
  All-reverse_aux [] ys h h' = h'
  All-reverse_aux (x ∷ xs) ys h h' = All-reverse_aux xs (x ∷ ys) h.1 (h.0, h')

  pub All-reverse : (xs : List A) → All P xs → All P (reverse xs)
  All-reverse xs h = All-reverse_aux xs [] h tt

pub All-map {ℓ κ κ'} :
    {A : Type ℓ} {P : A → Type κ} {Q : A → Type κ'} (f : (x : A) → P x → Q x) (xs : List A)
    → All P xs
    → All Q xs
All-map f [] h = tt
All-map f (x ∷ xs) h = (f x h.0, All-map f xs h.1)

-- Every element is one of the list.
pub All-self {ℓ} : {A : Type ℓ} (xs : List A) → All (λ a. Memᴰ a xs) xs
All-self xs = go xs (λ a m. m)
  where
    go : (ys : List _) → ((a : _) → Memᴰ a ys → Memᴰ a xs) → All (λ a. Memᴰ a xs) ys
    go [] f = tt
    go (y ∷ ys) f = (f y (Memᴰ.head refl), go ys (λ a m. f a (Memᴰ.tail m)))

module _ {ℓ} {A : Type ℓ} where
  pub drop-cons :
      (k : ℕ) (xs : List A) (default : A)
      → k < length xs
      → drop k xs ≡ get_or xs k default ∷ drop (suc k) xs
  drop-cons k [] default h = absurd (omega arith)
  drop-cons zero (x ∷ xs) default h = refl
  drop-cons (suc k) (x ∷ xs) default h = drop-cons k xs default (omega arith)

  pub drop-length : (xs : List A) → drop (length xs) xs ≡ []
  drop-length [] = refl
  drop-length (x ∷ xs) = drop-length xs

  pub take-nil : (n : ℕ) → take {A = A} n [] ≡ []
  take-nil zero = refl
  take-nil (suc n) = refl

  pub get_or-beyond :
      (xs : List A) (i : ℕ) (default : A) → length xs ≤ i → get_or xs i default ≡ default
  get_or-beyond [] i default h = refl
  get_or-beyond (x ∷ xs) zero default h = absurd (omega arith)
  get_or-beyond (x ∷ xs) (suc i) default h = get_or-beyond xs i default (omega arith)

pub All-of {ℓ κ} :
    {A : Type ℓ} (P : A → Type κ) (xs : List A) (default : A)
    → ((i : ℕ) → i < length xs → P (get_or xs i default))
    → All P xs
All-of P [] default h = tt
All-of P (x ∷ xs) default h =
    (h 0 (omega arith), All-of P xs default (λ i less. h (suc i) (omega arith)))
