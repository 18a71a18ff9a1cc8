-- ===== src/Cli/Generate/Numbers.antt =====
-- The numbers among the options of `generate` in src/cli/main.cpp.
use route_engine_cpp.Shared.{ℕ, ◌^◌, ◌<◌, ◌≡◌, refl, arith, Option, none, some, [], ◌∷◌}
use route_engine_cpp.Double.{Double}
use route_engine_cpp.Fields.{Text, digits}
use route_engine_cpp.Options.{Options}
use route_engine_cpp.Cli.{Machine, parse_integer, fits}
use route_engine_cpp.Cli.Generate.{Params, right, wrong, params_of, read_params, real_or}

fits-lt : (bits : ℕ) (value : Option ℕ) (n : ℕ) → fits bits value ≡ some n → n < 2 ^ bits
fits-lt bits none n e = absurd (ground (arith, e))
fits-lt bits (some v) n e = ground (arith, e)

-- A number that is read fits its type.
pub parse_integer-lt :
    (bits : ℕ) (text : Text) (n : ℕ) → parse_integer bits text ≡ some n → n < 2 ^ bits
unfolding parse_integer
parse_integer-lt bits [] n e = absurd (ground (arith, e))
parse_integer-lt bits (c ∷ text) n e = fits-lt bits (digits 0 (c ∷ text)) n e

-- The sides of the lattice fit 32 bits.
abbrev pub IsSmall : {W : Type 0} → Params W → Type 0
IsSmall (right p) = (p.width < 2 ^ 32) × (p.height < 2 ^ 32)
IsSmall (wrong e) = Unit

params_of-IsSmall :
    {W : Type 0} (o : Options) (w h s : Option ℕ) (sp j r : Option W)
    → ((n : ℕ) → w ≡ some n → n < 2 ^ 32)
    → ((n : ℕ) → h ≡ some n → n < 2 ^ 32)
    → IsSmall (params_of o w h s sp j r)
params_of-IsSmall o none h s sp j r k k' = tt
params_of-IsSmall o (some w) none s sp j r k k' = tt
params_of-IsSmall o (some w) (some h) none sp j r k k' = tt
params_of-IsSmall o (some w) (some h) (some s) none j r k k' = tt
params_of-IsSmall o (some w) (some h) (some s) (some sp) none r k k' = tt
params_of-IsSmall o (some w) (some h) (some s) (some sp) (some j) none k k' = tt
params_of-IsSmall o (some w) (some h) (some s) (some sp) (some j) (some r) k k' =
    (k w refl, k' h refl)

module _ {W : Type 0} ⦃d : Double W⦄ (m : Machine W) (o : Options) where
  pub read_params-IsSmall : IsSmall (read_params m o)
  unfolding read_params
  read_params-IsSmall =
      params_of-IsSmall o (parse_integer 32 o.width) (parse_integer 32 o.height)
        (parse_integer 64 o.seed) (real_or m (d.of_nat 100) o.spacing)
        (real_or m (d.of_ratio 35 100) o.jitter) (real_or m (d.of_ratio 1 4) o.diagonal_rate)
        (parse_integer-lt 32 o.width) (parse_integer-lt 32 o.height)
