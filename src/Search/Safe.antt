-- ===== src/Search/Safe.antt =====
-- The entry points of src/search.cpp whatever the rounding of their sums.
use route_engine_cpp.Shared.{
  ◌<◌, ◌≡◌, refl, inl, inr, true, false, arith, Run, Returns, Bool-cases, ◌⊎◌, ◌&&◌, get_or, throw,
  List, out_of_range, heuristic_contract, lt→ltb,
}
use route_engine_cpp.Double.{Double}
use route_engine_cpp.Double.Laws.{IsOrdered}
use route_engine_cpp.Types.{NodeId, Coord}
use route_engine_cpp.Metric.{no_coord}
use route_engine_cpp.Graph.{Graph, node_count, contains}
use route_engine_cpp.Graph.Rows.{IsValid, coordinate-ok}
use route_engine_cpp.Search.{
  SearchResult, SearchStatus, search, zero_estimate, euclidean_estimate, Algorithm,
  dijkstra_algorithm, astar_zero_algorithm, astar_euclidean_algorithm, dijkstra, astar_zero,
  astar_euclidean, require_valid, run_search,
}
use route_engine_cpp.Search.EntryPoints.{dijkstra-IsAnswer, astar_zero-IsAnswer}
use route_engine_cpp.Search.Sound.{IsSoundOf, IsSound, search-IsSound}
use route_engine_cpp.Search.Correct.{IsAnswerOf}

module _ {W : Type 0} ⦃d : Double W⦄ (g : Graph W) where
  run_search-refused :
      (source target : NodeId) (algorithm : Algorithm)
      → contains g source && contains g target ≡ false
      → run_search g source target algorithm ≡ throw out_of_range
  unfolding run_search dijkstra astar_zero astar_euclidean require_valid
  run_search-refused source target dijkstra_algorithm h = ground arith
  run_search-refused source target astar_zero_algorithm h = ground arith
  run_search-refused source target astar_euclidean_algorithm h = ground arith

  -- The answer of an algorithm: Dijkstra, and A* with the zero heuristic, find a route that no walk
  -- undercuts, or show that every walk has infinite cost; Euclidean A* finds a walk.
  abbrev pub IsAnswerBy :
      Algorithm → (source target : NodeId) → SearchStatus → W → List NodeId → Type 0
  IsAnswerBy dijkstra_algorithm source target = IsAnswerOf g source target
  IsAnswerBy astar_zero_algorithm source target = IsAnswerOf g source target
  IsAnswerBy astar_euclidean_algorithm source target = IsSoundOf g source target

module _ {W : Type 0} ⦃d : Double W⦄ (laws : IsOrdered W) (g : Graph W) (valid : IsValid g)
    (source target : NodeId) where
  zero-Returns : (v : NodeId) → v < node_count g → Returns (λ _. Unit) (zero_estimate {W = W} v)
  unfolding zero_estimate
  zero-Returns v h = tt

  euclidean-Returns :
      (goal : Coord W) (v : NodeId)
      → v < node_count g
      → Returns (λ _. Unit) (euclidean_estimate g goal v)
  unfolding euclidean_estimate
  euclidean-Returns goal v h = rw (coordinate-ok g v h) tt

  -- How `run_search` ends when nothing is known of the rounding of its sums.
  abbrev pub RunsSafely : Algorithm → Run (SearchResult W) → Type 0
  RunsSafely algorithm r =
      ((contains g source && contains g target ≡ false) × (r ≡ throw out_of_range))
      ⊎ ((contains g source && contains g target ≡ true)
          × (algorithm ≡ astar_euclidean_algorithm)
          × (g.metric.passes ≡ false)
          × (r ≡ throw (heuristic_contract g.metric.violating_arcs)))
      ⊎ ((contains g source && contains g target ≡ true) × Returns (IsSound g source target) r)

  module _ (ids : contains g source && contains g target ≡ true) (hs : source < node_count g)
      (ht : target < node_count g) where
    zero-IsSound : Returns (IsSound g source target) (search g zero_estimate source target)
    zero-IsSound = search-IsSound laws g valid source zero_estimate zero-Returns target hs

    run-RunsSafely :
        (algorithm : Algorithm) → RunsSafely algorithm (run_search g source target algorithm)
    unfolding run_search dijkstra astar_zero astar_euclidean require_valid
    run-RunsSafely dijkstra_algorithm =
        rw (lt→ltb source (node_count g) hs, lt→ltb target (node_count g) ht)
          (inr (inr (refl, zero-IsSound)))
    run-RunsSafely astar_zero_algorithm =
        rw (lt→ltb source (node_count g) hs, lt→ltb target (node_count g) ht)
          (inr (inr (refl, zero-IsSound)))
    run-RunsSafely astar_euclidean_algorithm = elim (Bool-cases g.metric.passes) [
      | inr violated ↦
          simp (lt→ltb source (node_count g) hs, lt→ltb target (node_count g) ht, violated)
            (inr (inl (refl, refl, refl, refl)))
      | inl met ↦
          simp
            (
              lt→ltb source (node_count g) hs,
              lt→ltb target (node_count g) ht,
              met,
              coordinate-ok g target ht,
            )
            (inr (
              inr (
                refl,
                search-IsSound laws g valid source _
                    (euclidean-Returns (get_or g.coordinates target no_coord)) target hs,
              )))
    ]

  pub run_search-RunsSafely :
      (algorithm : Algorithm) → RunsSafely algorithm (run_search g source target algorithm)
  run_search-RunsSafely algorithm = elim (Bool-cases (contains g source && contains g target)) [
    | inr out ↦ inl (out, run_search-refused g source target algorithm out)
    | inl ids ↦ run-RunsSafely ids (ground (arith, ids)) (ground (arith, ids)) algorithm
  ]

  -- What `run_search` does with a query, by the documented order of its checks.
  abbrev pub Runs : Algorithm → Run (SearchResult W) → Type 0
  Runs algorithm r =
      ((contains g source && contains g target ≡ false) × (r ≡ throw out_of_range))
      ⊎ ((contains g source && contains g target ≡ true)
          × (algorithm ≡ astar_euclidean_algorithm)
          × (g.metric.passes ≡ false)
          × (r ≡ throw (heuristic_contract g.metric.violating_arcs)))
      ⊎ ((contains g source && contains g target ≡ true)
          × Returns (λ s. IsAnswerBy g algorithm source target s.status s.cost s.path) r)

  run-Runs :
      (algorithm : Algorithm)
      → contains g source && contains g target ≡ true
      → source < node_count g
      → target < node_count g
      → Runs algorithm (run_search g source target algorithm)
  unfolding run_search
  run-Runs dijkstra_algorithm ids hs ht =
      inr (inr (ids, dijkstra-IsAnswer laws g valid source target hs ht))
  run-Runs astar_zero_algorithm ids hs ht =
      inr (inr (ids, astar_zero-IsAnswer laws g valid source target hs ht))
  run-Runs astar_euclidean_algorithm ids hs ht = run_search-RunsSafely astar_euclidean_algorithm

  pub run_search-Runs :
      (algorithm : Algorithm) → Runs algorithm (run_search g source target algorithm)
  run_search-Runs algorithm = elim (Bool-cases (contains g source && contains g target)) [
    | inr out ↦ inl (out, run_search-refused g source target algorithm out)
    | inl ids ↦ run-Runs algorithm ids (ground arith) (ground arith)
  ]
