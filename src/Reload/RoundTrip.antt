-- ===== src/Reload/RoundTrip.antt =====
-- `write_csv` of src/generator.cpp and then `load_graph` of src/csv.cpp, from the streams on.
use route_engine_cpp.Shared.{
  ℕ, ◌<◌, ◌^◌, ◌≡◌, ap, sym, ◌∙◌, [], false, Option, length, get_or, All, ok, Returns-ok,
}
use route_engine_cpp.Double.{Double}
use route_engine_cpp.Double.Laws.{IsOrdered}
use route_engine_cpp.Types.{NodeId}
use route_engine_cpp.Graph.{Graph}
use route_engine_cpp.Builder.{Builder, build}
use route_engine_cpp.Builder.Invariant.{IsBuilding}
use route_engine_cpp.Builder.Build.{built, built-IsValid}
use route_engine_cpp.Builder.Result.{Reached, build-ok_inverse}
use route_engine_cpp.Fields.{Text}
use route_engine_cpp.Generator.Write.{Files, write_csv}
use route_engine_cpp.Generator.Write.Lines.{write_csv-Returns}
use route_engine_cpp.Csv.{load_graph}
use route_engine_cpp.Csv.Loads.{ok-eq}
use route_engine_cpp.Reload.Nodes.{AreInverse}
use route_engine_cpp.Reload.Graphs.{graph_loaded}

-- New streams to both files.
abbrev pub fresh_files : Files
fresh_files = record {
  nodes = record { written = []; failed = false };
  edges = record { written = []; failed = false };
}

module _ {W : Type 0} ⦃d : Double W⦄ (laws : IsOrdered W) (to_chars : W → Option Text)
    (from_chars : Text → Option (W × Text)) (inverse : AreInverse to_chars from_chars)
    (b : Builder W) (inv : IsBuilding b) (ids : All (λ id. id < 2 ^ 64) b.external_ids)
    (distinct : (u v : NodeId)
      → u < length b.coordinates
      → v < length b.coordinates
      → get_or b.external_ids u 0 ≡ get_or b.external_ids v 0
      → u ≡ v) where
  -- The texts of two streams.
  streams_loaded :
      (files : Files)
      → write_csv to_chars (built b inv) fresh_files ≡ ok files
      → files.nodes.failed ≡ false
      → files.edges.failed ≡ false
      → (nodes_name edges_name : Text)
      → load_graph from_chars files.nodes.written nodes_name files.edges.written edges_name
        ≡ ok (built b inv)
  streams_loaded files wrote good good' nodes_name edges_name =
      let (sent, e, both) =
        Returns-ok _ (write_csv to_chars (built b inv) fresh_files)
          (write_csv-Returns to_chars (built b inv) (built-IsValid b inv) fresh_files) in
      let same : sent ≡ files = ok-eq (sym e ∙ wrote) in
      let nodes = both.0 (ap (λ f. f.nodes.failed) same ∙ good) in
      let edges = both.1 (ap (λ f. f.edges.failed) same ∙ good') in
      rw
        (
          sym (ap (λ f. f.nodes.written) same) ∙ nodes.1,
          sym (ap (λ f. f.edges.written) same) ∙ edges.1,
        )
        (graph_loaded laws to_chars from_chars inverse b inv ids distinct nodes_name edges_name)

module _ {W : Type 0} ⦃d : Double W⦄ (laws : IsOrdered W) (to_chars : W → Option Text)
    (from_chars : Text → Option (W × Text)) (inverse : AreInverse to_chars from_chars) where
  -- A graph that was built from distinct external ids of 64 bits is loaded back from what `write_csv`
  -- has sent to two new streams, if neither of them has failed and the conversions of double are
  -- inverse to each other on finite numbers: the same coordinates, ids, offsets, arcs and report.
  pub load_graph-write_csv :
      (n : ℕ) (b : Builder W)
      → Reached n b
      → All (λ id. id < 2 ^ 64) b.external_ids
      → ((u v : NodeId)
          → u < length b.coordinates
          → v < length b.coordinates
          → get_or b.external_ids u 0 ≡ get_or b.external_ids v 0
          → u ≡ v)
      → (g : Graph W) (left : Builder W) → build b ≡ ok (g, left)
      → (files : Files) → write_csv to_chars g fresh_files ≡ ok files
      → files.nodes.failed ≡ false
      → files.edges.failed ≡ false
      → (nodes_name edges_name : Text)
      → load_graph from_chars files.nodes.written nodes_name files.edges.written edges_name ≡ ok g
  load_graph-write_csv n b reached ids distinct g left is_built files wrote good good' nodes_name
        edges_name =
      let (inv, same) = build-ok_inverse laws b g left reached is_built in
      streams_loaded laws to_chars from_chars inverse b inv ids distinct files
        (ap (λ h. write_csv to_chars h fresh_files) same ∙ wrote) good good' nodes_name edges_name
      ∙ ap ok same
