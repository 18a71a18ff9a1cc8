-- ===== src/Generator/Write/Lines.antt =====
-- `write_csv` of src/generator.cpp: the lines of the two files.
use route_engine_cpp.Shared.{
  ℕ, zero, suc, ◌+◌, ◌<◌, ◌≡◌, refl, List, [], ◌∷◌, ◌++◌, arith, Option, get_or, append_assoc, All,
  Returns, Returns-step, Returns-bind, Returns-map,
}
use route_engine_cpp.Double.{Double}
use route_engine_cpp.Types.{Arc, Coord, NodeId, ExternalId}
use route_engine_cpp.Metric.{no_coord}
use route_engine_cpp.Graph.{Graph, node_count, row}
use route_engine_cpp.Graph.Rows.{
  IsValid, IsArcOf, row-IsArcOf, arcs_from-ok, coordinate-ok, external_id-ok,
}
use route_engine_cpp.Fields.{Text, codes}
use route_engine_cpp.Fields.Plain.{unlines}
use route_engine_cpp.Generator.Write.{
  Stream, Files, emit, decimal, write_edge_line, write_node_line, write_arcs, write_node,
  write_nodes, write_csv,
}
use route_engine_cpp.Generator.Write.Sent.{
  Sent, nothing-Sent, emit-Sent, then-Sent, text_or_nil, write_number-Sent,
}

module _ {W : Type 0} ⦃d : Double W⦄ (to_chars : W → Option Text) where
  abbrev pub number : W → Text
  number w = text_or_nil (to_chars w)

  abbrev pub node_line : ExternalId → Coord W → Text
  node_line id c = decimal id ++ codes "," ++ number c.x ++ codes "," ++ number c.y

  abbrev pub arc_line : (source target : ExternalId) → W → Text
  arc_line source target weight =
      decimal source ++ codes "," ++ decimal target ++ codes "," ++ number weight

  module _ (g : Graph W) where
    abbrev pub id_at : NodeId → ExternalId
    id_at v = get_or g.external_ids v 0

    abbrev pub row_lines : NodeId → List (Arc W) → List Text
    row_lines v [] = []
    row_lines v (a ∷ arcs) = arc_line (id_at v) (id_at a.target) a.weight ∷ row_lines v arcs

    -- The lines of the nodes from `i`, and of their arcs.
    abbrev pub node_lines : (rounds i : ℕ) → List Text
    node_lines zero i = []
    node_lines (suc rounds) i =
        node_line (id_at i) (get_or g.coordinates i no_coord) ∷ node_lines rounds (i + 1)

    abbrev pub edge_lines : (rounds i : ℕ) → List Text
    edge_lines zero i = []
    edge_lines (suc rounds) i = row_lines i (row g i) ++ edge_lines rounds (i + 1)

    -- The text of the two files.
    abbrev pub node_file : Text
    node_file = unlines (codes "id,x,y" ∷ node_lines (node_count g) 0)

    abbrev pub edge_file : Text
    edge_file = unlines (codes "source,target,weight" ∷ edge_lines (node_count g) 0)

    -- What has been sent to both files since.
    abbrev pub BothSent : (nodes edges : Text) → Files → Files → Type 0
    BothSent nodes edges f f' = Sent nodes f.nodes f'.nodes × Sent edges f.edges f'.edges

unlines-append : (a b : List Text) → unlines (a ++ b) ≡ unlines a ++ unlines b
unlines-append [] b = refl
unlines-append (line ∷ a) b = simp (unlines-append a b, append_assoc) refl

module _ {W : Type 0} ⦃d : Double W⦄ (to_chars : W → Option Text) where
  -- Two fields, and a third one at the end of the line.
  line-Sent :
      (a b c : Text) (s s₁ s₂ s₃ : Stream)
      → Sent a s s₁
      → Sent b (emit (codes ",") s₁) s₂
      → Sent c (emit (codes ",") s₂) s₃
      → Sent ((a ++ codes "," ++ b ++ codes "," ++ c) ++ codes "\n") s (emit (codes "\n") s₃)
  line-Sent a b c s s₁ s₂ s₃ first second third =
      let comma = codes "," in
      let t₁ = emit comma s₁ in
      let t₂ = emit comma s₂ in
      let end = emit (codes "\n") s₃ in
      let to₁ = then-Sent a comma s s₁ t₁ first (emit-Sent comma s₁) in
      let to₂ = then-Sent (a ++ comma) b s t₁ s₂ to₁ second in
      let past₂ = then-Sent (a ++ comma ++ b) comma s s₂ t₂ to₂ (emit-Sent comma s₂) in
      let to₃ = then-Sent (a ++ comma ++ b ++ comma) c s t₂ s₃ past₂ third in
      then-Sent (a ++ comma ++ b ++ comma ++ c) (codes "\n") s s₃ end to₃
        (emit-Sent (codes "\n") s₃)

  write_edge_line-Sent :
      (source target : ExternalId) (weight : W) (s : Stream)
      → Sent
          (arc_line to_chars source target weight ++ codes "\n")
          s
          (write_edge_line to_chars source target weight s)
  unfolding write_edge_line
  write_edge_line-Sent source target weight s =
      line-Sent _ _ _ s _ _ _ (emit-Sent (decimal source) s) (emit-Sent (decimal target) _)
        (write_number-Sent to_chars weight _)

  write_node_line-Sent :
      (id : ExternalId) (c : Coord W) (s : Stream)
      → Sent (node_line to_chars id c ++ codes "\n") s (write_node_line to_chars id c s)
  unfolding write_node_line
  write_node_line-Sent id c s =
      line-Sent _ _ _ s _ _ _ (emit-Sent (decimal id) s) (write_number-Sent to_chars c.x _)
        (write_number-Sent to_chars c.y _)

module _ {W : Type 0} ⦃d : Double W⦄ (to_chars : W → Option Text) (g : Graph W)
    (valid : IsValid g) where
  -- The lines of one row.
  write_arcs-Returns :
      (v : NodeId) (arcs : List (Arc W)) (s : Stream)
      → v < node_count g
      → All (IsArcOf g) arcs
      → Returns (Sent (unlines (row_lines to_chars g v arcs)) s) (write_arcs to_chars g v arcs s)
  unfolding write_arcs
  write_arcs-Returns v [] s h fit = nothing-Sent s
  write_arcs-Returns v (a ∷ arcs) s h (fits, fit) =
      let s' =
        write_edge_line to_chars (id_at to_chars g v) (id_at to_chars g a.target) a.weight s in
      let id = id_at to_chars g v in
      let line = arc_line to_chars id (id_at to_chars g a.target) a.weight in
      let rest = unlines (row_lines to_chars g v arcs) in
      Returns-step _ _ (external_id-ok g v h) (
        Returns-step _ _ (external_id-ok g a.target fits.0) (
          Returns-map _ _ (write_arcs to_chars g v arcs s') (write_arcs-Returns v arcs s' h fit)
            λ s'' sent.
              then-Sent (line ++ codes "\n") rest s s' s''
                (write_edge_line-Sent to_chars id (id_at to_chars g a.target) a.weight s) sent))

  write_node-Returns :
      (v : NodeId) (f : Files)
      → v < node_count g
      → Returns
          (BothSent to_chars g
            (node_line to_chars (id_at to_chars g v) (get_or g.coordinates v no_coord)
              ++ codes "\n")
            (unlines (row_lines to_chars g v (row g v)))
            f)
          (write_node to_chars g v f)
  unfolding write_node
  write_node-Returns v f h =
      let c = get_or g.coordinates v no_coord in
      Returns-step _ _ (coordinate-ok g v h) (
        Returns-step _ _ (external_id-ok g v h) (
          Returns-step _ _ (arcs_from-ok g valid v h) (
            Returns-bind _ _ (write_arcs to_chars g v (row g v) f.edges) _
              (write_arcs-Returns v (row g v) f.edges h (row-IsArcOf g valid v))
              λ edges sent. (write_node_line-Sent to_chars (id_at to_chars g v) c f.nodes, sent))))

  write_nodes-Returns :
      (rounds i : ℕ) (f : Files)
      → i + rounds ≡ node_count g
      → Returns
          (BothSent to_chars g
            (unlines (node_lines to_chars g rounds i))
            (unlines (edge_lines to_chars g rounds i))
            f)
          (write_nodes to_chars g rounds i f)
  unfolding write_nodes
  write_nodes-Returns zero i f e = (nothing-Sent f.nodes, nothing-Sent f.edges)
  write_nodes-Returns (suc rounds) i f e =
      Returns-bind _ _ (write_node to_chars g i f) _ (write_node-Returns i f (omega arith))
        λ f' first.
          Returns-map _ _ (write_nodes to_chars g rounds (i + 1) f')
            (write_nodes-Returns rounds (i + 1) f' (omega arith))
            λ f'' rest. (
              then-Sent _ _ f.nodes f'.nodes f''.nodes first.0 rest.0,
              rw
                  (unlines-append (row_lines to_chars g i (row g i))
                    (edge_lines to_chars g rounds (i + 1)))
                  (then-Sent _ _ f.edges f'.edges f''.edges first.1 rest.1),
            )

  -- On a valid graph `write_csv` returns, and a stream that has not failed has got the whole file: the
  -- header, and a line for each node, or for each arc in the order of the rows.
  pub write_csv-Returns :
      (f : Files)
      → Returns
          (BothSent to_chars g (node_file to_chars g) (edge_file to_chars g) f)
          (write_csv to_chars g f)
  unfolding write_csv
  write_csv-Returns f =
      let f' : Files = record {
        nodes = emit (codes "id,x,y\n") f.nodes;
        edges = emit (codes "source,target,weight\n") f.edges;
      } in
      Returns-map _ _ (write_nodes to_chars g (node_count g) 0 f')
        (write_nodes-Returns (node_count g) 0 f' (omega arith))
        λ f'' (nodes, edges). (
          then-Sent (codes "id,x,y\n") _ f.nodes f'.nodes f''.nodes (emit-Sent _ f.nodes) nodes,
          then-Sent (codes "source,target,weight\n") _ f.edges f'.edges f''.edges
              (emit-Sent _ f.edges) edges,
        )
