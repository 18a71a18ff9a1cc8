-- ===== src/Builder/Build.antt =====
-- `GraphBuilder::build` (src/builder.cpp): the graph that it makes.
use route_engine_cpp.Shared.{
  ℕ, suc, ◌+◌, ◌≤◌, ◌<◌, ◌≡◌, refl, ap, List, [], ◌∷◌, map, arith, length, get_or, replicate, All,
  All-map,
}
use route_engine_cpp.Double.{Double}
use route_engine_cpp.Types.{NodeId, max_u32}
use route_engine_cpp.Graph.{Graph, make_graph}
use route_engine_cpp.Graph.Rows.{IsValid}
use route_engine_cpp.Builder.{Builder, StagedArc, sort, to_arc, sum_rows, count_sources}
use route_engine_cpp.Builder.Invariant.{IsBuilding, IsStaged}
use route_engine_cpp.Builder.Sort.{All-sort, length-sort}
use route_engine_cpp.Builder.Offsets.{offsets-before, before, before-suc, before-All, before-zero}

module _ {ℓ κ} {A : Type ℓ} {B : Type κ} (f : A → B) where
  length-map : (xs : List A) → length (map f xs) ≡ length xs
  length-map [] = refl
  length-map (x ∷ xs) = ap suc (length-map xs)

  pub All-map_of : (P : B → Type 0) (xs : List A) → All (λ x. P (f x)) xs → All P (map f xs)
  All-map_of P [] h = tt
  All-map_of P (x ∷ xs) h = (h.0, All-map_of P xs h.1)

module _ {W : Type 0} ⦃d : Double W⦄ (b : Builder W) (inv : IsBuilding b) where
  abbrev pub sorted : List (StagedArc W)
  sorted = sort b.staged

  abbrev pub offsets_of : List ℕ
  offsets_of =
      sum_rows (length b.coordinates) 0
        (count_sources sorted (replicate (length b.coordinates + 1) 0))

  pub sorted-fit : All (IsStaged (length b.coordinates)) sorted
  sorted-fit = All-sort (IsStaged (length b.coordinates)) b.staged inv.staged_fit

  pub sorted-small : length sorted ≤ max_u32
  sorted-small = omega (arith, length-sort b.staged, inv.few_arcs)

  pub sources : All (λ a. a.source < length b.coordinates) sorted
  sources = All-map (λ a (h : IsStaged (length b.coordinates) a). h.0) sorted sorted-fit

  pub offsets_lem :
      (length offsets_of ≡ length b.coordinates + 1)
      × ((v : NodeId) → v ≤ length b.coordinates → get_or offsets_of v 0 ≡ before v sorted)
  offsets_lem = offsets-before sorted (length b.coordinates) sources sorted-small

  abbrev pub built : Graph W
  built = make_graph b.coordinates b.external_ids offsets_of (map to_arc sorted)

  pub built-IsValid : IsValid built
  unfolding make_graph
  built-IsValid = record {
    few_nodes = inv.few_nodes;
    few_arcs = omega (arith, length-map to_arc sorted, sorted-small);
    offsets_length = offsets_lem.0;
    offset_first = omega (arith, offsets_lem.1 0, before-zero sorted);
    offset_last = omega (
      arith,
      offsets_lem.1 (length b.coordinates),
      before-All (length b.coordinates) sorted sources,
      length-map to_arc sorted,
    );
    offsets_rise =
        λ v h. omega (arith, offsets_lem.1 v, offsets_lem.1 (v + 1), before-suc v sorted);
    arcs_fit =
        All-map_of to_arc _ sorted
          (All-map (λ a (h : IsStaged (length b.coordinates) a). (h.1, h.3)) sorted sorted-fit);
    ids_length = inv.ids_length;
    coordinates_fit = inv.coordinates_fit;
    report = refl;
  }
