-- ===== src/Generator/Write.antt =====
-- `write_csv` of src/generator.cpp: a graph in the format of the loader. A stream is the text that has
-- been sent to it and its failbit; std::to_chars for a double is a parameter, `none` for an error.
pub mod Sent
pub mod Lines
pub mod Decimals
use route_engine_cpp.Shared.{
  ℕ, zero, suc, ◌+◌, ◌/◌, ◌%◌, ltb, Bool, true, if◌then◌else◌, List, [], ◌∷◌, ◌++◌, Option, none,
  some, Run, ok, ◌>>=◌,
}
use route_engine_cpp.Double.{Double}
use route_engine_cpp.Types.{Arc, Coord, NodeId, ExternalId}
use route_engine_cpp.Graph.{Graph, node_count, arcs_from, external_id, coordinate}
use route_engine_cpp.Fields.{Text, codes}

pub record Stream : Type 0 where
  pub written : Text
  pub failed : Bool

-- `out << text`: a stream that has failed takes no more.
abbrev pub emit : Text → Stream → Stream
emit text out = if out.failed then out else record out { written = out.written ++ text }

-- `out.setstate(std::ios::failbit)` on an error, or `out.write`.
abbrev pub emit_or_fail : Option Text → Stream → Stream
emit_or_fail none out = record out { failed = true }
emit_or_fail (some text) out = emit text out

-- `out << n` for an unsigned integer, its digits before those of `out`; `n + 1` rounds are enough.
unfoldable pub digits_before : (fuel n : ℕ) → Text → Text
digits_before zero n out = out
digits_before (suc fuel) n out =
    let digit = 48 + n % 10 in
    let rest = digits_before fuel (n / 10) (digit ∷ out) in if ltb n 10 then digit ∷ out else rest

unfoldable pub decimal : ℕ → Text
unfolding digits_before
decimal n = digits_before (suc n) n []

-- The files of `write_csv`.
pub record Files : Type 0 where
  pub nodes : Stream
  pub edges : Stream

module _ {W : Type 0} (to_chars : W → Option Text) where
  unfoldable pub write_number : W → Stream → Stream
  write_number value out = emit_or_fail (to_chars value) out

  -- The line of an arc, and of a node.
  unfoldable pub write_edge_line : (source target : ExternalId) → W → Stream → Stream
  unfolding decimal write_number
  write_edge_line source target weight edges =
      let ends =
        emit (codes ",") (emit (decimal target) (emit (codes ",") (emit (decimal source) edges))) in
      emit (codes "\n") (write_number weight ends)

  unfoldable pub write_node_line : ExternalId → Coord W → Stream → Stream
  unfolding decimal write_number
  write_node_line id c nodes =
      let x = write_number c.x (emit (codes ",") (emit (decimal id) nodes)) in
      emit (codes "\n") (write_number c.y (emit (codes ",") x))

  -- The arcs of `node`.
  unfoldable pub write_arcs : Graph W → NodeId → List (Arc W) → Stream → Run Stream
  write_arcs g node [] edges = ok edges
  write_arcs g node (arc ∷ arcs) edges = do
    source ← external_id g node
    target ← external_id g arc.target
    write_arcs g node arcs (write_edge_line source target arc.weight edges)

module _ {W : Type 0} ⦃d : Double W⦄ (to_chars : W → Option Text) where
  -- A round of the loop over the nodes.
  unfoldable pub write_node : Graph W → NodeId → Files → Run Files
  write_node g node files = do
    c ← coordinate g node
    id ← external_id g node
    let nodes = write_node_line to_chars id c files.nodes
    arcs ← arcs_from g node
    edges ← write_arcs to_chars g node arcs files.edges
    ok (record { nodes = nodes; edges = edges })

  unfoldable pub write_nodes : Graph W → (rounds index : ℕ) → Files → Run Files
  write_nodes g zero index files = ok files
  write_nodes g (suc rounds) index files =
      write_node g index files >>= write_nodes g rounds (index + 1)

  unfoldable pub write_csv : Graph W → Files → Run Files
  write_csv g files = write_nodes g (node_count g) 0 (record {
    nodes = emit (codes "id,x,y\n") files.nodes;
    edges = emit (codes "source,target,weight\n") files.edges;
  })
