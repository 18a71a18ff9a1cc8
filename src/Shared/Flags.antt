-- ===== src/Shared/Flags.antt =====
-- Vectors of flags: how many are set.
use Prim.Native.Nat.{ℕ, zero, suc, ◌≤◌, ◌<◌}
use mathlib.Core.Path.{◌≡◌, refl}
use mathlib.Core.List.{List, [], ◌∷◌}
use mathlib.Core.Bool.{Bool, true, false}
use native.Mathlib.Omega.{arith}
use route_engine_cpp.Shared.Lists.{length, get_or, set, replicate}

-- The flags that are set.
abbrev pub count : List Bool → ℕ
count [] = 0
count (true ∷ bs) = suc (count bs)
count (false ∷ bs) = count bs

pub count-set :
    (bs : List Bool) (i : ℕ)
    → i < length bs
    → get_or bs i false ≡ false
    → count (set bs i true) ≡ suc (count bs)
count-set [] i h e = absurd (omega arith)
count-set (b ∷ bs) zero h e = rw e
count-set (true ∷ bs) (suc i) h e = rw (count-set bs i (omega arith) e)
count-set (false ∷ bs) (suc i) h e = count-set bs i (omega arith) e

pub count-le : (bs : List Bool) → count bs ≤ length bs
count-le [] = omega arith
count-le (true ∷ bs) = omega (arith, count-le bs)
count-le (false ∷ bs) = omega (arith, count-le bs)

pub count-replicate : (n : ℕ) → count (replicate n false) ≡ 0
count-replicate zero = refl
count-replicate (suc n) = count-replicate n

-- If all flags are counted, each is set.
pub count_full :
    (bs : List Bool) (v : ℕ) → count bs ≡ length bs → v < length bs → get_or bs v false ≡ true
count_full [] v e h = absurd (omega arith)
count_full (true ∷ bs) zero e h = refl
count_full (true ∷ bs) (suc v) e h = count_full bs v (omega arith) (omega arith)
count_full (false ∷ bs) v e h = absurd (omega (arith, count-le bs))
