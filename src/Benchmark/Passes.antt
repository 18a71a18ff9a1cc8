-- ===== src/Benchmark/Passes.antt =====
-- The measured repetitions of `run_benchmark` (src/benchmark.cpp), if the pass of every algorithm
-- returns: each step records one pass, in rotating order, and the counters repeat.
use route_engine_cpp.Shared.{
  ℕ, zero, suc, ◌+◌, ◌%◌, ◌≡◌, refl, ap, ◌∙◌, subst, List, [], ◌∷◌, ◌++◌, arith, get_or, set, ok,
  ◌>>=◌, ◌⊎◌, inl, inr, true, false, ◌==◌, bind_join,
}
use route_engine_cpp.Double.{Double}
use route_engine_cpp.Graph.{Graph}
use route_engine_cpp.Search.{SearchStats}
use route_engine_cpp.Benchmark.{
  QueryPair, AlgorithmSummary, algorithm_at, no_counts, counters_match, run_pass, measure,
  repeat_measure,
}

counters_match_self : (t : SearchStats) → counters_match t t ≡ true
unfolding counters_match
counters_match_self t = ground arith

positive : (r : ℕ) → suc r == 0 ≡ false
positive r = ground arith

module _ {W : Type 0} (seconds : (repetition slot : ℕ) → W) (totals : ℕ → SearchStats) where
  -- The times of the first `r` repetitions.
  abbrev pub times : ℕ → ℕ → List W
  times slot zero = []
  times slot (suc r) = times slot r ++ seconds r slot ∷ []

  abbrev counted : ℕ → ℕ → SearchStats
  counted slot zero = no_counts
  counted slot (suc r) = totals slot

  -- The summary of an algorithm after `r` repetitions.
  abbrev pub summary : ℕ → ℕ → AlgorithmSummary W
  summary r slot = record {
    algorithm = algorithm_at slot;
    stats = counted slot r;
    repetition_seconds = times slot r;
  }

  abbrev pub summaries : ℕ → List (AlgorithmSummary W)
  summaries r = summary r 0 ∷ summary r 1 ∷ summary r 2 ∷ []

module _ {W : Type 0} ⦃d : Double W⦄ (seconds : (repetition slot : ℕ) → W) (g : Graph W)
    (queries : List QueryPair) (totals : ℕ → SearchStats)
    (passes : (slot : ℕ)
      → run_pass g (algorithm_at slot) queries no_counts ≡ ok (totals slot)) where
  measure-ok :
      (r slot : ℕ) (algorithms : List (AlgorithmSummary W))
      → ((default : AlgorithmSummary W)
          → get_or algorithms slot default ≡ summary seconds totals r slot)
      → measure seconds g queries r slot algorithms
        ≡ ok (set algorithms slot (summary seconds totals (suc r) slot))
  unfolding measure
  measure-ok zero slot algorithms h = rw (passes slot, h _) refl
  measure-ok (suc r) slot algorithms h =
      rw (passes slot, h _, counters_match_self (totals slot), positive r) refl

  abbrev next : ℕ → ℕ → AlgorithmSummary W
  next r slot = summary seconds totals (suc r) slot

  abbrev Steps : ℕ → (a b c : ℕ) → Type 0
  Steps r a b c =
      (measure seconds g queries r a (summaries seconds totals r) >>= λ x.
      measure seconds g queries r b x >>= measure seconds g queries r c)
      ≡ ok (summaries seconds totals (suc r))

  Steps-ok : (r : ℕ) → Steps r 0 1 2 × Steps r 1 2 0 × Steps r 2 0 1
  Steps-ok r = (
    rw
        (
          measure-ok r 0 (summaries seconds totals r) (λ _. refl),
          measure-ok r 1 (next r 0 ∷ summary seconds totals r 1 ∷ summary seconds totals r 2 ∷ [])
              (λ _. refl),
          measure-ok r 2 (next r 0 ∷ next r 1 ∷ summary seconds totals r 2 ∷ []) (λ _. refl),
        )
        refl,
    rw
        (
          measure-ok r 1 (summaries seconds totals r) (λ _. refl),
          measure-ok r 2 (summary seconds totals r 0 ∷ next r 1 ∷ summary seconds totals r 2 ∷ [])
              (λ _. refl),
          measure-ok r 0 (summary seconds totals r 0 ∷ next r 1 ∷ next r 2 ∷ []) (λ _. refl),
        )
        refl,
    rw
        (
          measure-ok r 2 (summaries seconds totals r) (λ _. refl),
          measure-ok r 0 (summary seconds totals r 0 ∷ summary seconds totals r 1 ∷ next r 2 ∷ [])
              (λ _. refl),
          measure-ok r 1 (next r 0 ∷ summary seconds totals r 1 ∷ next r 2 ∷ []) (λ _. refl),
        )
        refl,
  )

  -- The slots of the steps are a rotation.
  rotation :
      (r : ℕ)
      → (((r + 0) % 3 ≡ 0) × ((r + 1) % 3 ≡ 1) × ((r + 2) % 3 ≡ 2))
        ⊎ (((r + 0) % 3 ≡ 1) × ((r + 1) % 3 ≡ 2) × ((r + 2) % 3 ≡ 0))
        ⊎ (((r + 0) % 3 ≡ 2) × ((r + 1) % 3 ≡ 0) × ((r + 2) % 3 ≡ 1))
  rotation r = ground arith

  rotated-ok : (r : ℕ) → Steps r ((r + 0) % 3) ((r + 1) % 3) ((r + 2) % 3)
  rotated-ok r = elim (rotation r) [
    | inl (a, b, c) ↦ rw (a, b, c) (Steps-ok r).0
    | inr (inl (a, b, c)) ↦ rw (a, b, c) (Steps-ok r).1
    | inr (inr (a, b, c)) ↦ rw (a, b, c) (Steps-ok r).2
  ]

  repeat_measure-suc :
      (rounds r : ℕ) (algorithms : List (AlgorithmSummary W))
      → repeat_measure seconds g queries (suc rounds) r algorithms ≡ (
          (measure seconds g queries r ((r + 0) % 3) algorithms >>= λ x.
          measure seconds g queries r ((r + 1) % 3) x >>= measure seconds g queries r ((r + 2) % 3))
          >>= repeat_measure seconds g queries rounds (r + 1))
  unfolding repeat_measure
  repeat_measure-suc rounds r algorithms =
      bind_join (measure seconds g queries r ((r + 0) % 3) algorithms)
        (measure seconds g queries r ((r + 1) % 3)) (measure seconds g queries r ((r + 2) % 3))
        (repeat_measure seconds g queries rounds (r + 1))

  pub repeat_measure-ok :
      (rounds r k : ℕ)
      → rounds + r ≡ k
      → repeat_measure seconds g queries rounds r (summaries seconds totals r)
        ≡ ok (summaries seconds totals k)
  unfolding repeat_measure
  repeat_measure-ok zero r k e = ap (λ j. ok (summaries seconds totals j)) (omega arith)
  repeat_measure-ok (suc rounds) r k e =
      let shift : suc r ≡ r + 1 = omega arith in
      repeat_measure-suc rounds r (summaries seconds totals r)
      ∙ rw (rotated-ok r) (
          subst
            (λ j.
              repeat_measure seconds g queries rounds j (summaries seconds totals (suc r))
              ≡ ok (summaries seconds totals k))
            shift (repeat_measure-ok rounds (suc r) k (omega arith)))
