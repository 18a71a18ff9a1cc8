-- ===== src/Reload/Edges.antt =====
-- The lines of the edge file of `write_csv` (src/generator.cpp), as src/csv.cpp reads them.
use mathlib.Core.List.{map-append}
use route_engine_cpp.Shared.{
  ℕ, zero, suc, ◌+◌, ◌<◌, ◌^◌, ◌≡◌, refl, ap, sym, ◌∙◌, inl, inr, List, [], ◌∷◌, ◌++◌, map, arith,
  Option, some, length, get_or, All, Both, Bool-cases, ==_iff, ◌==◌,
}
use route_engine_cpp.Double.{Double}
use route_engine_cpp.Double.Laws.{IsOrdered}
use route_engine_cpp.Types.{NodeId, incr}
use route_engine_cpp.Graph.{make_graph}
use route_engine_cpp.Builder.{Builder, StagedArc, sort, to_arc}
use route_engine_cpp.Builder.Invariant.{IsBuilding, IsStaged}
use route_engine_cpp.Builder.Build.{built, sources}
use route_engine_cpp.Builder.Sort.{sort-IsBySource}
use route_engine_cpp.Builder.Partition.{outgoing, row-built}
use route_engine_cpp.Builder.Canonical.{gathered, gathered-All}
use route_engine_cpp.Fields.{Text}
use route_engine_cpp.Fields.Plain.{IsLine, numbered}
use route_engine_cpp.Generator.Write.{decimal}
use route_engine_cpp.Generator.Write.Lines.{number, arc_line, row_lines, edge_lines}
use route_engine_cpp.Generator.Write.Decimals.{parse_external_id-decimal}
use route_engine_cpp.Csv.{NodeRecord, no_record}
use route_engine_cpp.Csv.Reads.{IsEdgeRow}
use route_engine_cpp.Reload.Nodes.{
  AreInverse, decimal-IsField, join-IsLine, join-IsRow, number-IsField, parse_number-number,
}

module _ {W : Type 0} ⦃d : Double W⦄ (laws : IsOrdered W) (to_chars : W → Option Text)
    (from_chars : Text → Option (W × Text)) (inverse : AreInverse to_chars from_chars)
    (b : Builder W) (inv : IsBuilding b) where
  abbrev pub line_of : StagedArc W → Text
  line_of a =
      arc_line to_chars (get_or b.external_ids a.source 0) (get_or b.external_ids a.target 0)
        a.weight

  row_lines-outgoing :
      (v : NodeId) (arcs : List (StagedArc W))
      → row_lines to_chars (built b inv) v (map to_arc (outgoing v arcs))
        ≡ map line_of (outgoing v arcs)
  unfolding make_graph
  row_lines-outgoing v [] = refl
  row_lines-outgoing v (a ∷ arcs) = elim (Bool-cases (a.source == v)) [
    | inl same ↦
        let e = (==_iff a.source v).0 same in
        rw same (
          (λ i.
            arc_line to_chars (get_or b.external_ids (sym e i) 0) (get_or b.external_ids a.target 0)
              a.weight
            ∷ row_lines-outgoing v arcs i))
    | inr other ↦ rw other (row_lines-outgoing v arcs)
  ]

  edge_lines-gathered :
      (rounds i : ℕ)
      → i + rounds ≡ length b.coordinates
      → edge_lines to_chars (built b inv) rounds i ≡ map line_of (gathered rounds i (sort b.staged))
  edge_lines-gathered zero i e = refl
  edge_lines-gathered (suc rounds) i e =
      ap
        (λ arcs.
          row_lines to_chars (built b inv) i arcs
          ++ edge_lines to_chars (built b inv) rounds (i + 1))
        (row-built b inv i (omega arith))
      ∙ ((λ j.
            row_lines-outgoing i (sort b.staged) j
            ++ edge_lines-gathered rounds (i + 1) (omega arith) j)
          ∙ sym (
              map-append line_of (outgoing i (sort b.staged))
                (gathered rounds (i + 1) (sort b.staged))))

  -- The edge file has a line for each arc, in canonical order.
  pub edge_lines-sorted :
      edge_lines to_chars (built b inv) (length b.coordinates) 0 ≡ map line_of (sort b.staged)
  edge_lines-sorted =
      edge_lines-gathered (length b.coordinates) 0 (omega arith)
      ∙ ap (map line_of) (
          gathered-All (length b.coordinates) (sort b.staged) (sort-IsBySource b.staged)
            (sources b inv))

  pub map-IsLine :
      (arcs : List (StagedArc W))
      → All (IsStaged (length b.coordinates)) arcs
      → All IsLine (map line_of arcs)
  map-IsLine [] h = tt
  map-IsLine (a ∷ arcs) h = (
    join-IsLine _ _ _ (decimal-IsField (get_or b.external_ids a.source 0))
        (decimal-IsField (get_or b.external_ids a.target 0))
        (number-IsField laws to_chars from_chars inverse a.weight h.0.2),
    map-IsLine arcs h.1,
  )

  module _ (small : (v : NodeId) → get_or b.external_ids v 0 < 2 ^ 64)
      (records : List (NodeRecord W)) (size : length records ≡ length b.coordinates)
      (at : (v : NodeId)
        → v < length b.coordinates
        → (get_or records v no_record).external_id ≡ get_or b.external_ids v 0) where
    -- Every line of the edge file describes its arc.
    pub map-IsEdgeRow :
        (arcs : List (StagedArc W)) (line : ℕ)
        → All (IsStaged (length b.coordinates)) arcs
        → Both (IsEdgeRow from_chars records) (numbered line (map line_of arcs)) arcs
    map-IsEdgeRow [] line h = tt
    map-IsEdgeRow (a ∷ arcs) line ((hs, ht, finite, nonneg), h) =
        let source = get_or b.external_ids a.source 0 in
        let target = get_or b.external_ids a.target 0 in
        (
          (
            decimal source,
            decimal target,
            number to_chars a.weight,
            join-IsRow _ _ _ (decimal-IsField source) (decimal-IsField target)
                (number-IsField laws to_chars from_chars inverse a.weight finite),
            parse_external_id-decimal source (small a.source) ∙ ap some (sym (at a.source hs)),
            parse_external_id-decimal target (small a.target) ∙ ap some (sym (at a.target ht)),
            parse_number-number laws to_chars from_chars inverse a.weight finite,
            (omega (arith, size, hs), omega (arith, size, ht), finite, nonneg),
          ),
          map-IsEdgeRow arcs (incr line) h,
        )
