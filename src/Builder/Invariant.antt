-- ===== src/Builder/Invariant.antt =====
-- What the operations of GraphBuilder (src/builder.cpp) keep true of a builder.
use route_engine_cpp.Shared.{
  count, count-replicate, count-set, ℕ, zero, suc, ◌≤◌, ◌<◌, ◌≡◌, List, [], ◌∷◌, true, false, arith,
  length, set, replicate, All, ok, length-set, length-replicate, length-append, All-concat,
}
use route_engine_cpp.Double.{Double, ◌≼◌}
use route_engine_cpp.Double.Laws.{IsOrdered}
use route_engine_cpp.Types.{Coord, NodeId, ExternalId, max_u32}
use route_engine_cpp.Metric.{no_coord}
use route_engine_cpp.Graph.Rows.{IsCoord}
use route_engine_cpp.Builder.{Builder, StagedArc, make_builder, set_node, add_arc}

module _ {ℓ} {A : Type ℓ} where
  All-set : (P : A → Type 0) (xs : List A) (i : ℕ) (v : A) → All P xs → P v → All P (set xs i v)
  All-set P [] i v h p = tt
  All-set P (x ∷ xs) zero v h p = (p, h.1)
  All-set P (x ∷ xs) (suc i) v h p = (h.0, All-set P xs i v h.1 p)

  All-replicate : (P : A → Type 0) (n : ℕ) (v : A) → P v → All P (replicate n v)
  All-replicate P zero v p = tt
  All-replicate P (suc n) v p = (p, All-replicate P n v p)

module _ {W : Type 0} ⦃d : Double W⦄ where
  abbrev pub IsStaged : ℕ → StagedArc W → Type 0
  IsStaged n a =
      (a.source < n) × (a.target < n) × (d.is_finite a.weight ≡ true) × (d.nought ≼ a.weight)

  -- A builder that has not been consumed.
  pub record IsBuilding (b : Builder W) : Type 0 where
    pub usable : b.is_consumed ≡ false
    pub few_nodes : length b.coordinates ≤ max_u32
    pub few_arcs : length b.staged ≤ max_u32
    pub ids_length : length b.external_ids ≡ length b.coordinates
    pub assigned_length : length b.assigned ≡ length b.coordinates
    pub counted : b.assigned_count ≡ count b.assigned
    pub coordinates_fit : All IsCoord b.coordinates
    pub staged_fit : All (IsStaged (length b.coordinates)) b.staged

  module _ (laws : IsOrdered W) where
    -- A new builder.
    pub make_builder-IsBuilding : (n : ℕ) (b : Builder W) → make_builder n ≡ ok b → IsBuilding b
    unfolding make_builder
    make_builder-IsBuilding n b h = ground (
      arith,
      length-replicate n (no_coord {W = W}),
      length-replicate {A = ℕ} n 0,
      length-replicate n false,
      count-replicate n,
      All-replicate IsCoord n (no_coord {W = W}) (laws.nought_finite, laws.nought_finite),
    )

    pub set_node-IsBuilding :
        (id : NodeId) (c : Coord W) (e : ExternalId) (b b' : Builder W)
        → IsBuilding b
        → set_node id c e b ≡ ok b'
        → IsBuilding b'
    unfolding set_node
    set_node-IsBuilding id c e b b' inv h = ground (
      arith,
      length-set b.coordinates id c,
      length-set b.external_ids id e,
      length-set b.assigned id true,
      count-set b.assigned id,
      All-set IsCoord b.coordinates id c inv.coordinates_fit,
    )

    pub add_arc-IsBuilding :
        (source target : NodeId) (w : W) (b b' : Builder W)
        → IsBuilding b
        → add_arc source target w b ≡ ok b'
        → IsBuilding b'
    unfolding add_arc
    add_arc-IsBuilding source target w b b' inv h = ground (
      arith,
      length-append b.staged (record { source = source; target = target; weight = w } ∷ []),
      All-concat (IsStaged (length b.coordinates)) b.staged
          (record { source = source; target = target; weight = w }),
      laws.nonneg_of_finite w,
    )
