-- ===== src/Tests/Comparison.antt =====
-- The benchmark on the small network, with a clock that counts.
use route_engine_cpp.Shared.{ℕ, ◌+◌, ◌≡◌, refl, List, [], ◌∷◌, some}
use route_engine_cpp.Double.Extended.{Extended, extended_double, Extended-IsOrdered}
use mathlib.Core.List.{cons-ne-nil}
use route_engine_cpp.Search.{dijkstra_algorithm}
use route_engine_cpp.Benchmark.Median.{median_seconds}
use route_engine_cpp.Benchmark.Median.Middle.{IsMedian, median_seconds-IsMedian}
use route_engine_cpp.Benchmark.{AlgorithmSummary, no_counts, QueryPair}

abbrev two_queries : List QueryPair
two_queries = record { source = 0; target = 2 } ∷ record { source = 1; target = 3 } ∷ []

abbrev clock : ℕ → ℕ → Extended
clock repetition slot = some (repetition + slot)

abbrev four_times : AlgorithmSummary Extended
four_times = record {
  algorithm = dijkstra_algorithm;
  stats = no_counts;
  repetition_seconds = some 30 ∷ some 10 ∷ some 40 ∷ some 20 ∷ [];
}

median_computed : median_seconds four_times ≡ some 25
unfolding median_seconds
median_computed = refl

median_seconds-IsMedian_example : IsMedian four_times.repetition_seconds (median_seconds four_times)
median_seconds-IsMedian_example =
    median_seconds-IsMedian Extended-IsOrdered four_times (refl, (refl, (refl, (refl, tt))))
      (λ e. cons-ne-nil _ _ e)
