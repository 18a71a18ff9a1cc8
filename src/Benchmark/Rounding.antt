-- ===== src/Benchmark/Rounding.antt =====
-- `run_benchmark` of src/benchmark.cpp whatever the rounding of its sums.
use route_engine_cpp.Shared.{
  ℕ, ◌≡◌, ◌≢◌, refl, inl, inr, ◌&&◌, List, [], ◌∷◌, Bool, true, false, arith, length, not, All,
  Error, benchmark_agreement, ok, Ends, Ends-bind, Ends-throw_if, Returns, Returns-ok, Returns-bind,
  throw_if, lt→ltb, Both, ◌==◌, ◌<◌, ◌⊎◌, throw, out_of_fuel, Run,
}
use route_engine_cpp.Double.{Double}
use route_engine_cpp.Double.Laws.{IsOrdered}
use route_engine_cpp.Graph.{Graph, node_count}
use route_engine_cpp.Graph.Rows.{IsValid}
use route_engine_cpp.Search.{
  Algorithm, dijkstra_algorithm, astar_zero_algorithm, astar_euclidean_algorithm, SearchStats,
  SearchResult, is_found,
}
use route_engine_cpp.Search.Correct.{IsAnswer}
use route_engine_cpp.Search.Safe.{IsAnswerBy, run_search-Runs}
use route_engine_cpp.Benchmark.{
  QueryPair, BenchmarkReport, algorithm_at, no_counts, accumulate, same_bool, costs_agree,
  check_agreement, run_query, run_all, compare_all, run_pass, run_benchmark, count_found,
}
use route_engine_cpp.Benchmark.Passes.{summaries, repeat_measure-ok}

-- The error of a comparison.
abbrev pub IsDisagreement : Error → Type 0
IsDisagreement e = e ≡ benchmark_agreement

throw_if-Ends : (test : Bool) → Ends IsDisagreement (λ _. Unit) (throw_if test benchmark_agreement)
throw_if-Ends true = refl
throw_if-Ends false = tt

disagreement-cases :
    (r : Run (Unit {0}))
    → Ends IsDisagreement (λ _. Unit) r
    → (r ≡ ok tt) ⊎ (r ≡ throw benchmark_agreement)
disagreement-cases (ok tt) h = inl refl
disagreement-cases (throw e) h = inr (λ i. throw (h i))
disagreement-cases out_of_fuel h = absurd h

is_not_zero : (n : ℕ) → n ≢ 0 → n == 0 ≡ false
is_not_zero n h = ground arith

module _ {W : Type 0} ⦃d : Double W⦄ (g : Graph W) where
  abbrev pub IsQuery : QueryPair → Type 0
  IsQuery q = (q.source < node_count g) × (q.target < node_count g)

  -- A result that answers a query, as the algorithm answers.
  abbrev IsResultBy : Algorithm → QueryPair → SearchResult W → Type 0
  IsResultBy a q r = IsAnswerBy g a q.source q.target r.status r.cost r.path

  -- The report of all queries: the routes found are those of the correct answers of Dijkstra, with which
  -- the other algorithms agree, and each algorithm has the counters of one pass and a time for every
  -- repetition.
  pub record IsTally (queries : List QueryPair) (seconds : ℕ → ℕ → W) (repetitions : ℕ)
      (r : BenchmarkReport W) : Type 0 where
    pub queries_counted : r.queries ≡ length queries
    pub repetitions_kept : r.repetitions ≡ repetitions
    pub references : List (SearchResult W)
    pub answered : Both (λ q s. IsAnswer g q.source q.target s) queries references
    pub routes_counted : r.routes_found ≡ count_found references
    pub agreed :
        (compare_all g astar_zero_algorithm queries references ≡ ok tt)
        × (compare_all g astar_euclidean_algorithm queries references ≡ ok tt)
    pub counters : ℕ → SearchStats
    pub counted : (slot : ℕ) → run_pass g (algorithm_at slot) queries no_counts ≡ ok (counters slot)
    pub measured : r.algorithms ≡ summaries seconds counters repetitions

  -- The error of the warm-up: one of the other algorithms does not agree with the correct answers of
  -- Dijkstra.
  abbrev pub IsApart : List QueryPair → Error → Type 0
  IsApart queries e =
      IsDisagreement e
      × ((references : List (SearchResult W)) × Both (λ q s. IsAnswer g q.source q.target s) queries
            references
          × ((compare_all g astar_zero_algorithm queries references ≡ throw e)
              ⊎ (compare_all g astar_euclidean_algorithm queries references ≡ throw e)))

module _ {W : Type 0} ⦃d : Double W⦄ (laws : IsOrdered W) (g : Graph W) (valid : IsValid g)
    (passes : g.metric.passes ≡ true) where
  run_query-Returns :
      (a : Algorithm) (q : QueryPair) → IsQuery g q → Returns (IsResultBy g a q) (run_query g a q)
  run_query-Returns a q (hs, ht) = elim (run_search-Runs laws g valid q.source q.target a) [
    | inl (out, _) ↦
        absurd (
          ground (arith, lt→ltb q.source (node_count g) hs, lt→ltb q.target (node_count g) ht, out))
    | inr (inl (_, _, violated, _)) ↦ absurd (ground (arith, violated, passes))
    | inr (inr (_, h)) ↦ h
  ]

  run_all-Returns :
      (a : Algorithm) (queries : List QueryPair)
      → All (IsQuery g) queries
      → Returns (Both (IsResultBy g a) queries) (run_all g a queries)
  unfolding run_all
  run_all-Returns a [] h = tt
  run_all-Returns a (q ∷ queries) h =
      Returns-bind _ _ (run_query g a q) _ (run_query-Returns a q h.0) λ r answer.
        Returns-bind _ _ (run_all g a queries) _ (run_all-Returns a queries h.1)
          λ rs answers. (answer, answers)

  check_agreement-Ends :
      (r r' : SearchResult W) → Ends IsDisagreement (λ _. Unit) (check_agreement r r')
  unfolding check_agreement
  check_agreement-Ends r r' =
      let found_apart = not (same_bool (is_found r.status) (is_found r'.status)) in
      let cost_apart = is_found r.status && not (costs_agree r.cost r'.cost) in
      Ends-throw_if IsDisagreement (λ _. Unit) found_apart benchmark_agreement
        (throw_if cost_apart benchmark_agreement) refl λ _. throw_if-Ends cost_apart

  compare_all-Ends :
      (a : Algorithm) (queries : List QueryPair) (references : List (SearchResult W))
      → All (IsQuery g) queries
      → Ends IsDisagreement (λ _. Unit) (compare_all g a queries references)
  unfolding compare_all
  compare_all-Ends a [] references h = tt
  compare_all-Ends a (q ∷ queries) [] h = tt
  compare_all-Ends a (q ∷ queries) (r ∷ references) h =
      let (r', e, _) = Returns-ok _ (run_query g a q) (run_query-Returns a q h.0) in
      rw e (
        Ends-bind _ _ _ (check_agreement r' r) _ (check_agreement-Ends r' r)
          λ _ _. compare_all-Ends a queries references h.1)

  pass_total :
      (a : Algorithm) (start : SearchStats) (qs : List QueryPair)
      → All (IsQuery g) qs
      → (total : SearchStats) × (run_pass g a qs start ≡ ok total)
  unfolding run_pass
  pass_total a start [] h = (start, refl)
  pass_total a start (q ∷ qs) h =
      let (r, e, _) = Returns-ok _ (run_query g a q) (run_query-Returns a q h.0) in
      let (total, e') = pass_total a (accumulate start r.stats) qs h.1 in (total, rw e e')

module _ {W : Type 0} ⦃d : Double W⦄ (laws : IsOrdered W) (g : Graph W) (valid : IsValid g)
    (passes : g.metric.passes ≡ true) (queries : List QueryPair)
    (fit : All (IsQuery g) queries) where
  totals : ℕ → SearchStats
  totals slot = (pass_total laws g valid passes (algorithm_at slot) no_counts queries fit).0

  counted : (slot : ℕ) → run_pass g (algorithm_at slot) queries no_counts ≡ ok (totals slot)
  unfolding totals
  counted slot = (pass_total laws g valid passes (algorithm_at slot) no_counts queries fit).1

  pub run_benchmark-Ends :
      (seconds : ℕ → ℕ → W) (repetitions : ℕ)
      → length queries ≢ 0
      → repetitions ≢ 0
      → Ends
          (IsApart g queries)
          (IsTally g queries seconds repetitions)
          (run_benchmark seconds g queries repetitions)
  unfolding run_benchmark
  run_benchmark-Ends seconds repetitions some_query some_repetition =
      let (references, e, answered) =
        Returns-ok _ (run_all g dijkstra_algorithm queries)
          (run_all-Returns laws g valid passes dijkstra_algorithm queries fit) in
      let measured =
        repeat_measure-ok seconds g queries totals counted repetitions 0 repetitions
          (omega arith) in
      let compared = λ (a : Algorithm).
        disagreement-cases (compare_all g a queries references)
          (compare_all-Ends laws g valid passes a queries references fit) in
      simp (passes, is_not_zero _ some_query, is_not_zero _ some_repetition, e)
        (elim (compared astar_zero_algorithm) [
          | inr apart ↦ simp apart (refl, (references, answered, inl apart))
          | inl same ↦ elim (compared astar_euclidean_algorithm) [
            | inr apart ↦ simp (same, apart) (refl, (references, answered, inr apart))
            | inl same' ↦
                simp (same, same', measured)
                  (record {
                    queries_counted = refl;
                    repetitions_kept = refl;
                    references = references;
                    answered = answered;
                    routes_counted = refl;
                    agreed = (same, same');
                    counters = totals;
                    counted = counted;
                    measured = refl;
                  })
          ]
        ])
