-- ===== src/Types.antt =====
-- include/route/types.hpp. A NodeId is its index, a number below 2 ^ 32, so index_of and make_node_id
-- are the identity; an ExternalId is a number below 2 ^ 64.
use route_engine_cpp.Shared.{ℕ, ◌%◌, ◌+◌, ◌^◌}

abbrev pub NodeId : Type 0
NodeId = ℕ

abbrev pub ExternalId : Type 0
ExternalId = ℕ

pub record Coord (W : Type 0) : Type 0 where
  pub x : W
  pub y : W

pub record Arc (W : Type 0) : Type 0 where
  pub target : NodeId
  pub weight : W

-- A conversion to uint32_t, and `++` of a uint64_t.
abbrev pub to_u32 : ℕ → ℕ
to_u32 n = n % 2 ^ 32

abbrev pub max_u32 : ℕ
max_u32 = 4_294_967_295

unfoldable pub incr : ℕ → ℕ
incr n = (n + 1) % 2 ^ 64

unfoldable pub add_u64 : ℕ → ℕ → ℕ
add_u64 a b = (a + b) % 2 ^ 64
