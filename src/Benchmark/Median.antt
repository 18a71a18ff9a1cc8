-- ===== src/Benchmark/Median.antt =====
-- `AlgorithmSummary::median_seconds` of src/benchmark.cpp.
pub mod Middle
use route_engine_cpp.Shared.{◌-◌, ◌/◌, ◌%◌, ◌==◌, List, [], ◌∷◌, if◌then◌else◌, length, get_or}
use route_engine_cpp.Double.{Double}
use route_engine_cpp.Benchmark.{AlgorithmSummary}

module _ {W : Type 0} ⦃d : Double W⦄ where
  open d use {nought, not_a_number, add, mul, lt, of_ratio}

  -- std::sort on double.
  unfoldable pub insert_second : W → List W → List W
  insert_second s [] = s ∷ []
  insert_second s (s' ∷ sorted) =
      let rest = insert_second s sorted in if lt s' s then s' ∷ rest else s ∷ s' ∷ sorted

  unfoldable pub sort_seconds : List W → List W
  unfolding insert_second
  sort_seconds [] = []
  sort_seconds (s ∷ seconds) = insert_second s (sort_seconds seconds)

  abbrev pub middle_of : List W → W
  middle_of sorted =
      let middle = length sorted / 2 in
      if length sorted % 2 == 1
      then get_or sorted middle nought
      else mul (of_ratio 1 2)
          (add (get_or sorted (middle - 1) nought) (get_or sorted middle nought))

  unfoldable pub median_seconds : AlgorithmSummary W → W
  unfolding sort_seconds
  median_seconds summary =
      if length summary.repetition_seconds == 0
      then not_a_number
      else middle_of (sort_seconds summary.repetition_seconds)
