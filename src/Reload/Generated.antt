-- ===== src/Reload/Generated.antt =====
-- `generate`, then `write_csv` (src/generator.cpp), then `load_graph` (src/csv.cpp).
use route_engine_cpp.Shared.{
  All-of, count_full, ◌+◌, ◌<◌, ◌^◌, ◌≡◌, subst, false, arith, Option, length, get_or, All, ok,
  Ends,
}
use route_engine_cpp.Double.{Double}
use route_engine_cpp.Double.Laws.{IsOrdered}
use route_engine_cpp.Types.{NodeId}
use route_engine_cpp.Graph.{Graph}
use route_engine_cpp.Builder.{Builder}
use route_engine_cpp.Builder.Invariant.{IsBuilding}
use route_engine_cpp.Builder.Result.{build_complete}
use route_engine_cpp.Fields.{Text}
use route_engine_cpp.Generator.{GeneratorParams, generate}
use route_engine_cpp.Generator.Lattice.{IsValidation, IsNumbered, IsMade, generate_lem}
use route_engine_cpp.Generator.Write.{Files, write_csv}
use route_engine_cpp.Csv.{load_graph}
use route_engine_cpp.Reload.Nodes.{AreInverse}
use route_engine_cpp.Reload.RoundTrip.{fresh_files, load_graph-write_csv}

module _ {W : Type 0} ⦃d : Double W⦄ (b : Builder W) (inv : IsBuilding b)
    (complete : b.assigned_count ≡ length b.coordinates) (numbered : IsNumbered b) where
  id_at : (v : NodeId) → v < length b.coordinates → get_or b.external_ids v 0 ≡ v + 1
  id_at v h = numbered v (
      count_full b.assigned v (omega (arith, complete, inv.counted, inv.assigned_length))
        (omega (arith, inv.assigned_length)))

  ids_small : All (λ id. id < 2 ^ 64) b.external_ids
  ids_small =
      All-of (λ id. id < 2 ^ 64) b.external_ids 0
        λ v h. omega (arith, id_at v (omega (arith, inv.ids_length)), inv.few_nodes, inv.ids_length)

  ids_differ :
      (u v : NodeId)
      → u < length b.coordinates
      → v < length b.coordinates
      → get_or b.external_ids u 0 ≡ get_or b.external_ids v 0
      → u ≡ v
  ids_differ u v hu hv e = omega (arith, id_at u hu, id_at v hv)

module _ {W : Type 0} ⦃d : Double W⦄ (laws : IsOrdered W) (to_chars : W → Option Text)
    (from_chars : Text → Option (W × Text)) (inverse : AreInverse to_chars from_chars) where
  -- A graph that `generate` returns for sides of 32 bits is loaded back, the same in every field, from
  -- what `write_csv` has sent to two new streams, if neither of them has failed and the conversions of
  -- double are inverse to each other on finite numbers.
  pub load_graph-generate :
      (p : GeneratorParams W)
      → p.width < 2 ^ 32
      → p.height < 2 ^ 32
      → (g : Graph W) → generate p ≡ ok g
      → (files : Files) → write_csv to_chars g fresh_files ≡ ok files
      → files.nodes.failed ≡ false
      → files.edges.failed ≡ false
      → (nodes_name edges_name : Text)
      → load_graph from_chars files.nodes.written nodes_name files.edges.written edges_name ≡ ok g
  load_graph-generate p wide high g generated =
      let made : IsMade p g =
        subst (λ r. Ends IsValidation (IsMade p) r) generated (generate_lem laws p wide high) in
      let (inv, complete) =
        build_complete laws made.builder g made.left made.reached made.is_built in
      load_graph-write_csv laws to_chars from_chars inverse made.nodes made.builder made.reached
        (ids_small made.builder inv complete made.numbered)
        (ids_differ made.builder inv complete made.numbered) g made.left made.is_built
