-- ===== src/Reference.antt =====
-- tests/support/bellman_ford.hpp: the distances by which the tests of the search are judged.
pub mod Sweeps
pub mod Agree
pub mod Paths
use route_engine_cpp.Shared.{
  ℕ, zero, suc, ◌+◌, ◌-◌, List, [], ◌∷◌, Bool, true, false, ◌==◌, if◌then◌else◌, get_or, set,
  replicate, Run, ok, ◌>>=◌,
}
use route_engine_cpp.Double.{Double}
use route_engine_cpp.Types.{Arc, NodeId}
use route_engine_cpp.Graph.{Graph, node_count, arcs_from}

-- The distances in a round, and whether the round has changed one.
pub record Sweep (W : Type 0) : Type 0 where
  pub distance : List W
  pub changed : Bool

module _ {W : Type 0} ⦃d : Double W⦄ where
  open d use {nought, infinity, add, lt, eq}

  unfoldable pub try_arc : W → Arc W → Sweep W → Sweep W
  try_arc from_distance arc s =
      let candidate = add from_distance arc.weight in
      if lt candidate (get_or s.distance arc.target infinity)
      then record { distance = set s.distance arc.target candidate; changed = true }
      else s

  unfoldable pub try_arcs : W → List (Arc W) → Sweep W → Sweep W
  unfolding try_arc
  try_arcs from_distance [] s = s
  try_arcs from_distance (arc ∷ arcs) s = try_arcs from_distance arcs (try_arc from_distance arc s)

  module _ (g : Graph W) where
    -- The body of the loop over the nodes; `continue` at a node that is not reached.
    unfoldable pub visit : NodeId → Sweep W → Run (Sweep W)
    unfolding try_arcs
    visit u s =
        let from_distance = get_or s.distance u infinity in
        let relaxed : Run (Sweep W) = do arcs ← arcs_from g u; ok (try_arcs from_distance arcs s)
        in if eq from_distance infinity then ok s else relaxed

    -- The loop over the last nodes, from `u` on.
    unfoldable pub sweep : ℕ → NodeId → Sweep W → Run (Sweep W)
    unfolding visit
    sweep zero u s = ok s
    sweep (suc left) u s = visit u s >>= sweep left (u + 1)

    -- The rounds that are left, and the `break` after one that changes nothing.
    unfoldable pub sweeps : ℕ → List W → Run (List W)
    unfolding sweep
    sweeps zero distance = ok distance
    sweeps (suc left) distance = do
      s ← sweep (node_count g) 0 (record { distance = distance; changed = false })
      elim s.changed [ true ↦ sweeps left s.distance | false ↦ ok s.distance ]

    unfoldable pub bellman_ford_distances : NodeId → Run (List W)
    unfolding sweeps
    bellman_ford_distances source =
        let n = node_count g in
        let blank : List W = replicate n infinity in
        if n == 0 then ok blank else sweeps (n - 1) (set blank source nought)
