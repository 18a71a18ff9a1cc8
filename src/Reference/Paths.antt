-- ===== src/Reference/Paths.antt =====
-- tests/support/path_checker.hpp: the check of a route that was found.
pub mod Links
pub mod Checked
use route_engine_cpp.Shared.{
  List, [], ◌∷◌, Bool, true, false, not, ◌==◌, if◌then◌else◌, Option, none, some, Run, ok, ◌>>=◌,
}
use route_engine_cpp.Double.{Double}
use route_engine_cpp.Types.{Arc, NodeId}
use route_engine_cpp.Graph.{Graph, arcs_from}
use route_engine_cpp.Search.{SearchResult, is_found}

-- The reasons, one constructor for each text.
pub data PathReason : Type 0 where
  no_fault no_route empty_path wrong_start wrong_end : PathReason
  no_arc_between : NodeId → NodeId → PathReason

pub record PathCheck (W : Type 0) : Type 0 where
  pub valid : Bool
  pub cost : W
  pub reason : PathReason

-- `path.front()` and `path.back()`, of a path that starts with `u`.
abbrev pub back : NodeId → List NodeId → NodeId
back u [] = u
back u (v ∷ path) = back v path

module _ {W : Type 0} where
  -- The weight of the first arc to a node.
  unfoldable pub link : NodeId → List (Arc W) → Option W
  link to [] = none
  link to (arc ∷ arcs) = if arc.target == to then some arc.weight else link to arcs

  abbrev rejected : W → PathReason → PathCheck W
  rejected cost reason = record { valid = false; cost = cost; reason = reason }

module _ {W : Type 0} ⦃d : Double W⦄ where
  -- The loop over the consecutive pairs, from the node `u` on.
  unfoldable pub check_links : Graph W → NodeId → List NodeId → W → Run (PathCheck W)
  unfolding link
  check_links g u [] cost = ok (record { valid = true; cost = cost; reason = no_fault })
  check_links g u (v ∷ path) cost = do
    arcs ← arcs_from g u
    elim (link v arcs) [
      | none ↦ ok (rejected cost (no_arc_between u v))
      | some weight ↦ check_links g v path (d.add cost weight)
    ]

  abbrev check_ends : Graph W → List NodeId → (source target : NodeId) → Run (PathCheck W)
  check_ends g [] source target = ok (rejected d.nought empty_path)
  check_ends g (u ∷ path) source target =
      if not (u == source)
      then ok (rejected d.nought wrong_start)
      else if not (back u path == target)
      then ok (rejected d.nought wrong_end)
      else check_links g u path d.nought

  unfoldable pub check_path :
      Graph W → SearchResult W → (source target : NodeId) → Run (PathCheck W)
  unfolding check_links
  check_path g result source target =
      if not (is_found result.status)
      then ok (rejected d.nought no_route)
      else check_ends g result.path source target
