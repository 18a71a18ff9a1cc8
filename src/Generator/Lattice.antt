-- ===== src/Generator/Lattice.antt =====
-- `generate` of src/generator.cpp: whatever the parameters, it ends with a graph that Euclidean A*
-- accepts, or with a GraphValidationError.
mod Passes
pub use Passes.{IsValidation, IsNumbered}
use Passes.{
  IsKept, refuse-Ends, make_builder-throws, make_builder-size, make_builder-IsNumbered, place-Ends,
  backbone-Ends, diagonals-Ends, lattice-Ends,
}
use route_engine_cpp.Shared.{
  ℕ, zero, suc, ◌+◌, ◌*◌, ◌≡◌, refl, true, false, not, Bool, arith, ltb, Option, none, some, length,
  replicate, Run, ok, ◌>>=◌, inl, inr, Error, Reason, graph_validation, contract_violated, Ends,
  Ends-bind, Ends-map, Ends-throw_if, Returns-ok, ap, ◌∙◌, ◌>>◌, ◌-◌, ◌^◌, ◌<◌, ◌≤◌, never_set,
  length-set, length-replicate, eq_or_ne,
}
use native.Mathlib.Nat.{mul-le-mul}
use route_engine_cpp.Double.{Double}
use route_engine_cpp.Double.Laws.{IsOrdered}
use route_engine_cpp.Types.{Coord, NodeId, ExternalId, to_u32}
use route_engine_cpp.Metric.{no_coord}
use route_engine_cpp.Graph.{Graph, node_count}
use route_engine_cpp.Graph.Rows.{IsValid}
use route_engine_cpp.Builder.{Builder, make_builder, set_node, add_arc, build, first_unset}
use route_engine_cpp.Builder.Invariant.{
  IsBuilding, make_builder-IsBuilding, set_node-IsBuilding, add_arc-IsBuilding,
}
use route_engine_cpp.Builder.Result.{
  Reached, created, Reached-IsBuilding, IsBuilt, build-Returns, build-throw,
}
use route_engine_cpp.Random.{next_unit}
use route_engine_cpp.Generator.{
  GeneratorParams, Site, for_from, refuse, validate_generator_params, place, connect, connect_if,
  backbone, diagonals, lattice, generate,
}

module _ {W : Type 0} ⦃d : Double W⦄ where
  -- A valid graph of all sites of the lattice, which meets the metric contract.
  abbrev pub IsLattice : GeneratorParams W → Graph W → Type 0
  IsLattice p g =
      IsValid g
      × (g.metric.passes ≡ true)
      × (node_count g ≡ p.width * p.height)
      × (validate_generator_params p ≡ none)

  -- It was built from a builder whose nodes have the ids after their indices.
  pub record IsMade (p : GeneratorParams W) (g : Graph W) : Type 0 where
    pub builder : Builder W
    pub left : Builder W
    pub nodes : ℕ
    pub reached : Reached nodes builder
    pub numbered : IsNumbered builder
    pub is_built : build builder ≡ ok (g, left)
    pub fine : IsLattice p g

module _ {W : Type 0} ⦃d : Double W⦄ (laws : IsOrdered W) where
  product_small : (w h : ℕ) → w < 2 ^ 32 → h < 2 ^ 32 → w * h < 2 ^ 64
  product_small w h hw hh =
      let le : w * h ≤ 4_294_967_295 * 4_294_967_295 =
        mul-le-mul {n₁ = w} {m₁ = h} {n₂ = 4_294_967_295} {m₂ = 4_294_967_295} (omega arith)
          (omega arith) in
      omega arith

  usable-size :
      (p : GeneratorParams W)
      → p.width < 2 ^ 32
      → p.height < 2 ^ 32
      → validate_generator_params p ≡ none
      → to_u32 (p.width * p.height) ≡ p.width * p.height
  unfolding validate_generator_params
  usable-size p wide high usable = ground (arith, product_small p.width p.height wide high)

  build-Ends :
      (b : Builder W)
      → IsBuilding b
      → Ends IsValidation (λ r. IsBuilt b r × (build b ≡ ok r)) (build b)
  build-Ends b h = elim (eq_or_ne b.assigned_count (length b.coordinates)) [
    | inl all ↦
        let (r, e, built) = Returns-ok (IsBuilt b) (build b) (build-Returns b h all) in
        rw e (built, refl)
    | inr missing ↦ rw (build-throw b h.usable missing) (never_set (first_unset b.assigned), refl)
  ]

  -- The graph, and the builder of which it was built.
  pub generate_lem :
      (p : GeneratorParams W)
      → p.width < 2 ^ 32
      → p.height < 2 ^ 32
      → Ends IsValidation (IsMade p) (generate p)
  unfolding generate
  generate_lem p wide high = refuse-Ends _ (validate_generator_params p) _ λ usable.
      let n = to_u32 (p.width * p.height) in
      Ends-bind _ _ _ (make_builder n) _ (make_builder-throws laws n) λ b e.
        let site₀ : Site W = record {
          rng = p.seed;
          coordinates = replicate n no_coord;
          builder = b;
        } in
        Ends-bind _ _ (IsKept n) (lattice p p.height p.width (place p) site₀) _
          (lattice-Ends laws p n p.height p.width (place p) site₀ (place-Ends laws p n)
            (created e, make_builder-size laws n b e, make_builder-IsNumbered n b e))
          λ s h.
            Ends-bind _ _ (IsKept n) (lattice p p.height p.width (backbone p) s) _
              (lattice-Ends laws p n p.height p.width (backbone p) s (backbone-Ends laws p n) h)
              λ s h.
                Ends-bind _ _ (IsKept n) (lattice p (p.height - 1) (p.width - 1) (diagonals p) s) _
                  (lattice-Ends laws p n (p.height - 1) (p.width - 1) (diagonals p) s
                    (diagonals-Ends laws p n) h)
                  λ s h.
                    Ends-bind _ _ _ (build s.builder) _
                      (build-Ends s.builder (Reached-IsBuilding laws h.0))
                      λ r (built, is_built).
                        Ends-throw_if _ _ (not r.0.metric.passes) _ _ (contract_violated, refl)
                          λ passes. record {
                            builder = s.builder;
                            left = r.1;
                            nodes = n;
                            reached = h.0;
                            numbered = h.2;
                            is_built = is_built;
                            fine = (
                              built.valid,
                              ground arith,
                              ap length built.coordinates_kept
                                  ∙ (h.1 ∙ usable-size p wide high usable),
                              usable,
                            );
                          }

  -- `generate` throws a GraphValidationError, or the parameters are usable and it returns a valid
  -- graph with a node for each site, whose metric report passes.
  pub generate-Ends :
      (p : GeneratorParams W)
      → p.width < 2 ^ 32
      → p.height < 2 ^ 32
      → Ends IsValidation (IsLattice p) (generate p)
  generate-Ends p wide high =
      Ends-map IsValidation (IsMade p) (IsLattice p) (generate p) (generate_lem p wide high)
        λ g made. made.fine
