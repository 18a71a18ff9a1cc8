-- ===== src/Search/EntryPoints.antt =====
-- `dijkstra` and `astar_zero` of src/search.cpp answer, whatever the rounding.
use route_engine_cpp.Shared.{◌<◌, refl, Returns, lt→ltb}
use route_engine_cpp.Double.{Double}
use route_engine_cpp.Double.Laws.{IsOrdered}
use route_engine_cpp.Types.{NodeId}
use route_engine_cpp.Graph.{Graph, node_count}
use route_engine_cpp.Graph.Rows.{IsValid, arc-IsArcOf}
use route_engine_cpp.Search.{zero_estimate, dijkstra, astar_zero, require_valid}
use route_engine_cpp.Search.Invariant.{IsConsistent}
use route_engine_cpp.Search.Correct.{IsAnswer, search-IsAnswer}

module _ {W : Type 0} ⦃d : Double W⦄ (laws : IsOrdered W) (g : Graph W) (valid : IsValid g) where
  open d use {nought, add}

  -- The zero heuristic is consistent whatever the rounding.
  pub zero-IsConsistent : IsConsistent g zero_estimate (λ _. nought)
  unfolding zero_estimate
  zero-IsConsistent = record {
    returns = λ v h. refl;
    nonneg = λ v. laws.nought_refl;
    along = λ u v w c arc h.
        laws.add_mono _ _ _ h laws.nought_refl
          (laws.le-add _ _ h (arc-IsArcOf g valid u v w arc).1);
    reflects = λ v a b p q h.
        laws.le_trans _ _ _ (laws.le-add _ _ p laws.nought_refl)
          (laws.le_trans _ _ _ h (laws.add-nought-le _ q));
  }

  -- Between nodes of a valid graph `dijkstra` returns, with a route that no walk undercuts, or, if
  -- every walk to the target has a sum of weights that overflows to infinity, with none.
  pub dijkstra-IsAnswer :
      (source target : NodeId)
      → source < node_count g
      → target < node_count g
      → Returns (IsAnswer g source target) (dijkstra g source target)
  unfolding dijkstra require_valid
  dijkstra-IsAnswer source target hs ht =
      rw (lt→ltb source (node_count g) hs, lt→ltb target (node_count g) ht)
        (search-IsAnswer laws g valid source zero_estimate (λ _. nought) zero-IsConsistent target
          hs)

  pub astar_zero-IsAnswer :
      (source target : NodeId)
      → source < node_count g
      → target < node_count g
      → Returns (IsAnswer g source target) (astar_zero g source target)
  unfolding dijkstra astar_zero
  astar_zero-IsAnswer = dijkstra-IsAnswer
