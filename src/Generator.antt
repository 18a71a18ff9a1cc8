-- ===== src/Generator.antt =====
-- src/generator.cpp and include/route/generator.hpp: the lattice and its checks.
pub mod Lattice
pub mod Write
use route_engine_cpp.Shared.{
  ℕ, zero, suc, ◌+◌, ◌-◌, ◌*◌, ◌^◌, ◌%◌, List, [], ◌∷◌, Bool, true, false, not, ltb, ◌==◌, ◌||◌,
  if◌then◌else◌, Option, none, some, length, get_or, set, replicate, Run, ok, throw, ◌>>=◌, ◌>>◌,
  throw_if, Reason, graph_validation, zero_width, zero_height, bad_spacing, bad_jitter, bad_rate,
  lattice_too_large, contract_violated,
}
use route_engine_cpp.Double.{Double}
use route_engine_cpp.Types.{Coord, NodeId, to_u32}
use route_engine_cpp.Metric.{no_coord, straight_line}
use route_engine_cpp.Graph.{Graph}
use route_engine_cpp.Builder.{
  Builder, make_builder, set_node, add_arc, build, max_supported_node_count,
}
use route_engine_cpp.Random.{next_unit}

pub record GeneratorParams (W : Type 0) : Type 0 where
  pub width : ℕ
  pub height : ℕ
  pub seed : ℕ
  pub spacing : W
  pub jitter : W
  pub diagonal_rate : W

-- A `for` loop from `k`, with `rounds` rounds to go.
unfoldable pub for_from {ℓ} : {S : Type ℓ} (rounds k : ℕ) → (ℕ → S → Run S) → S → Run S
for_from zero k body s = ok s
for_from (suc rounds) k body s = body k s >>= for_from rounds (k + 1) body

-- Throws what a check has found.
abbrev pub refuse : Option Reason → Run (Unit {0})
refuse none = ok tt
refuse (some r) = throw (graph_validation r)

-- What the three passes work on.
pub record Site (W : Type 0) : Type 0 where
  pub rng : ℕ
  pub coordinates : List (Coord W)
  pub builder : Builder W

module _ {W : Type 0} ⦃d : Double W⦄ where
  open d use {nought, add, sub, mul, lt, le, is_finite, of_nat, of_ratio}

  abbrev half : W
  half = of_ratio 1 2

  -- `none` is the empty string: no problem.
  unfoldable pub validate_generator_params : GeneratorParams W → Option Reason
  validate_generator_params p =
      if p.width == 0
      then some zero_width
      else if p.height == 0
      then some zero_height
      else if not (is_finite p.spacing) || le p.spacing nought
      then some bad_spacing
      else if not (is_finite p.jitter) || lt p.jitter nought || le half p.jitter
      then some bad_jitter
      else if not (is_finite p.diagonal_rate)
          || lt p.diagonal_rate nought
          || lt (of_nat 1) p.diagonal_rate
      then some bad_rate
      else if ltb max_supported_node_count ((p.width * p.height) % 2 ^ 64)
      then some lattice_too_large
      else none

  module _ (p : GeneratorParams W) where
    -- `row * width + col`
    abbrev index_at : ℕ → ℕ → NodeId
    index_at row col = to_u32 (row * p.width + col)

    abbrev offset : W → W
    offset unit = mul (mul (sub unit half) (of_nat 2)) (mul p.jitter p.spacing)

    -- Pass 1: the x jitter is drawn before the y jitter.
    unfoldable pub place : ℕ → ℕ → Site W → Run (Site W)
    place row col s = do
      let draw_x : W × ℕ = next_unit s.rng
      let draw_y : W × ℕ = next_unit draw_x.1
      let index = index_at row col
      let c : Coord W = record {
        x = add (mul (of_nat col) p.spacing) (offset draw_x.0);
        y = add (mul (of_nat row) p.spacing) (offset draw_y.0);
      }
      let coordinates = set s.coordinates index c
      b ← set_node index (get_or coordinates index no_coord) (index + 1) s.builder
      ok (record { rng = draw_y.1; coordinates = coordinates; builder = b })

    -- Both directions with one weight.
    unfoldable pub connect : NodeId → NodeId → Site W → Run (Site W)
    connect a b s = do
      let weight = straight_line (get_or s.coordinates a no_coord) (get_or s.coordinates b no_coord)
      builder ← add_arc a b weight s.builder
      builder ← add_arc b a weight builder
      ok (record s { builder = builder })

    unfoldable pub connect_if : Bool → NodeId → NodeId → Site W → Run (Site W)
    unfolding connect
    connect_if true a b s = connect a b s
    connect_if false a b s = ok s

    -- Pass 2: the neighbours to the right and below.
    unfoldable pub backbone : ℕ → ℕ → Site W → Run (Site W)
    unfolding connect_if
    backbone row col s = do
      let index = index_at row col
      s ← connect_if (ltb (col + 1) p.width) index (to_u32 (index + 1)) s
      connect_if (ltb (row + 1) p.height) index (to_u32 (index + p.width)) s

    -- Pass 3: a draw for each diagonal, accepted or not.
    unfoldable pub diagonals : ℕ → ℕ → Site W → Run (Site W)
    unfolding connect_if
    diagonals row col s = do
      let top_left = index_at row col
      let top_right = to_u32 (top_left + 1)
      let bottom_left = to_u32 (top_left + p.width)
      let bottom_right = to_u32 (bottom_left + 1)
      let first : W × ℕ = next_unit s.rng
      s ← connect_if (lt first.0 p.diagonal_rate) top_left bottom_right (record s { rng = first.1 })
      let second : W × ℕ = next_unit s.rng
      connect_if (lt second.0 p.diagonal_rate) top_right bottom_left (record s { rng = second.1 })

    -- Rows, and columns in each row.
    abbrev pub lattice : (rows cols : ℕ) → (ℕ → ℕ → Site W → Run (Site W)) → Site W → Run (Site W)
    lattice rows cols body = for_from rows 0 (λ row. for_from cols 0 (body row))

    unfoldable pub generate : Run (Graph W)
    unfolding validate_generator_params for_from place backbone diagonals
    generate = do
      refuse (validate_generator_params p)
      let nodes = to_u32 (p.width * p.height)
      b ← make_builder nodes
      let s₀ : Site W = record { rng = p.seed; coordinates = replicate nodes no_coord; builder = b }
      s ← lattice p.height p.width place s₀
      s ← lattice p.height p.width backbone s
      s ← lattice (p.height - 1) (p.width - 1) diagonals s
      (g, _) ← build s.builder
      throw_if (not g.metric.passes) (graph_validation contract_violated)
      ok g
