-- ===== src/Tests/Oracle.antt =====
-- The tests' own judges of a route, and the counters of a search, on the small network.
use route_engine_cpp.Shared.{
  ◌≡◌, refl, [], ◌∷◌, ℕ, ◌*◌, some, none, true, false, arith, ok, Run, Returns,
}
use route_engine_cpp.Double.Extended.{Extended, extended_double, Extended-IsOrdered}
use route_engine_cpp.Graph
use route_engine_cpp.Search.{dijkstra, search, found, SearchStats}
use route_engine_cpp.Search.Invariant.{dist}
use route_engine_cpp.Search.Counters.Bounds.{IsTallied, search-IsTallied}
use route_engine_cpp.Reference.{bellman_ford_distances}
use route_engine_cpp.Reference.Agree.{dijkstra-agrees}
use route_engine_cpp.Reference.Paths.{check_path, no_arc_between}
use route_engine_cpp.Reference.Paths.Checked.{Confirms, dijkstra-Confirms}
use route_engine_cpp.Builder.{build}
use route_engine_cpp.Graph.{Graph}
use route_engine_cpp.Tests.{what_is_left, shown, reached, network, network-IsValid}

-- Node 3 is not reached.
distances_computed : bellman_ford_distances network 0 ≡ ok (some 0 ∷ some 1 ∷ some 3 ∷ none ∷ [])
unfolding network bellman_ford_distances Graph.arcs_from
distances_computed = refl

dijkstra-agrees_example :
    Returns
      (λ r.
        Returns
          (λ distance. extended_double.eq r.cost (dist distance 2) ≡ true)
          (bellman_ford_distances network 0))
      (dijkstra network 0 2)
unfolding network
dijkstra-agrees_example =
    dijkstra-agrees Extended-IsOrdered network network-IsValid 0 (omega arith) 2 (omega arith)

-- A heuristic that is far from consistent.
abbrev steep : ℕ → Run Extended
steep v = ok (some (1000 * v))

search-IsTallied_example : Returns (λ r. IsTallied network r.stats) (search network steep 0 2)
unfolding network
search-IsTallied_example =
    search-IsTallied Extended-IsOrdered network network-IsValid 0 steep 2 (λ v h. tt) (omega arith)

dijkstra-Confirms_example :
    Returns
      (λ r. Returns (Confirms r.status r.cost) (check_path network r 0 2))
      (dijkstra network 0 2)
unfolding shown network build
dijkstra-Confirms_example =
    dijkstra-Confirms Extended-IsOrdered 4 shown reached network (what_is_left (build shown)) refl 0
      2 (omega arith) (omega arith)

-- A path along no arc is rejected, with what was summed until there.
no_such_arc :
    (stats : SearchStats)
    → check_path network
        (record { status = found; cost = some 1; path = 0 ∷ 3 ∷ []; stats = stats })
        0
        3
      ≡ ok (record { valid = false; cost = some 0; reason = no_arc_between 0 3 })
unfolding network check_path Graph.arcs_from
no_such_arc stats = refl
