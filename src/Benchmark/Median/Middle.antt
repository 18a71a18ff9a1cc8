-- ===== src/Benchmark/Median/Middle.antt =====
-- `AlgorithmSummary::median_seconds` of src/benchmark.cpp: the median stands in the middle of the times.
use route_engine_cpp.Shared.{
  ℕ, suc, ◌+◌, ◌-◌, ◌*◌, ◌/◌, ◌%◌, ◌<◌, ◌≡◌, ◌≢◌, refl, ap, ◌∙◌, ◌⊎◌, inl, inr, false, ◌==◌, arith,
  List, [], ◌∷◌, length, get_or, All, Bool-cases,
}
use mathlib.Core.List.{Permᴰ}
use mathlib.Core.List.Permᴰ
use route_engine_cpp.Double.{Double, ◌≼◌}
use route_engine_cpp.Double.Laws.{IsOrdered, le_of_lt, le_of_not_lt}
use route_engine_cpp.Benchmark.{AlgorithmSummary}
use route_engine_cpp.Benchmark.Median.{insert_second, sort_seconds, median_seconds}

nonempty-lt : {A : Type 0} (xs : List A) → xs ≢ [] → 0 < length xs
nonempty-lt [] h = absurd (h refl)
nonempty-lt (x ∷ xs) h = omega arith

module _ {W : Type 0} ⦃d : Double W⦄ where
  abbrev Nonneg : List W → Type 0
  Nonneg xs = All (λ x. d.nought ≼ x) xs

  abbrev IsSorted : List W → Type 0
  IsSorted [] = Unit
  IsSorted (x ∷ xs) = All (λ y. x ≼ y) xs × IsSorted xs

  -- With the times in order, the median is the one in the middle, or half of the sum of the two in the
  -- middle.
  abbrev pub IsMedian : List W → W → Type 0
  IsMedian xs v =
      (ts : List W) × Permᴰ ts xs
      × IsSorted ts
      × (((k : ℕ) × (length ts ≡ 2 * k + 1) × (v ≡ get_or ts k d.nought))
          ⊎ ((k : ℕ) × (length ts ≡ 2 * k + 2)
              × (v
                  ≡ d.mul (d.of_ratio 1 2)
                      (d.add (get_or ts k d.nought) (get_or ts (k + 1) d.nought)))))

  insert_second_permuted : (s : W) (xs : List W) → Permᴰ (insert_second s xs) (s ∷ xs)
  unfolding insert_second
  insert_second_permuted s [] = Permᴰ.cons refl Permᴰ.nil
  insert_second_permuted s (x ∷ xs) = elim (Bool-cases (d.lt x s)) [
    | inl after ↦
        rw after
          (Permᴰ.trans (Permᴰ.cons refl (insert_second_permuted s xs)) (Permᴰ.swap refl refl))
    | inr before ↦ rw before (Permᴰ.refl _)
  ]

  sort_seconds_permuted : (xs : List W) → Permᴰ (sort_seconds xs) xs
  unfolding sort_seconds
  sort_seconds_permuted [] = Permᴰ.nil
  sort_seconds_permuted (x ∷ xs) =
      Permᴰ.trans (insert_second_permuted x (sort_seconds xs))
        (Permᴰ.cons refl (sort_seconds_permuted xs))

  length-insert_second : (s : W) (xs : List W) → length (insert_second s xs) ≡ suc (length xs)
  unfolding insert_second
  length-insert_second s [] = refl
  length-insert_second s (x ∷ xs) = ground (arith, length-insert_second s xs)

  length-sort_seconds : (xs : List W) → length (sort_seconds xs) ≡ length xs
  unfolding sort_seconds
  length-sort_seconds [] = refl
  length-sort_seconds (x ∷ xs) =
      length-insert_second x (sort_seconds xs) ∙ ap suc (length-sort_seconds xs)

  insert_second-All :
      (P : W → Type 0) (s : W) (xs : List W) → P s → All P xs → All P (insert_second s xs)
  unfolding insert_second
  insert_second-All P s [] h all = (h, tt)
  insert_second-All P s (x ∷ xs) h all = ground (arith, insert_second-All P s xs h all.1)

  sort_seconds-Nonneg : (xs : List W) → Nonneg xs → Nonneg (sort_seconds xs)
  unfolding sort_seconds
  sort_seconds-Nonneg [] h = tt
  sort_seconds-Nonneg (x ∷ xs) (h, rest) =
      insert_second-All (λ y. d.nought ≼ y) x (sort_seconds xs) h (sort_seconds-Nonneg xs rest)

module _ {W : Type 0} ⦃d : Double W⦄ (laws : IsOrdered W) where
  below-All : (x y : W) (xs : List W) → x ≼ y → All (λ z. y ≼ z) xs → All (λ z. x ≼ z) xs
  below-All x y [] h all = tt
  below-All x y (z ∷ xs) h (le, all) = (laws.le_trans x y z h le, below-All x y xs h all)

  insert_second-IsSorted :
      (s : W) (xs : List W) → d.nought ≼ s → Nonneg xs → IsSorted xs → IsSorted (insert_second s xs)
  unfolding insert_second
  insert_second-IsSorted s [] h nonneg sorted = (tt, tt)
  insert_second-IsSorted s (x ∷ xs) h (p, nonneg) (low, sorted) = elim (Bool-cases (d.lt x s)) [
    | inl after ↦ rw after (
      insert_second-All (λ z. x ≼ z) s xs (le_of_lt laws x s p h after) low,
      insert_second-IsSorted s xs h nonneg sorted,
    )
    | inr before ↦
        let le = le_of_not_lt laws x s p h before in
        rw before ((le, below-All s x xs le low), (low, sorted))
  ]

  sort_seconds-IsSorted : (xs : List W) → Nonneg xs → IsSorted (sort_seconds xs)
  unfolding sort_seconds
  sort_seconds-IsSorted [] h = tt
  sort_seconds-IsSorted (x ∷ xs) (h, rest) =
      insert_second-IsSorted x (sort_seconds xs) h (sort_seconds-Nonneg xs rest)
        (sort_seconds-IsSorted xs rest)

  -- Of times that are not negative, at least one, `median_seconds` is the one in the middle of the
  -- ordered times if their number is odd, and half of the sum of the two in the middle if it is even.
  pub median_seconds-IsMedian :
      (s : AlgorithmSummary W)
      → All (λ x. d.nought ≼ x) s.repetition_seconds
      → s.repetition_seconds ≢ []
      → IsMedian s.repetition_seconds (median_seconds s)
  unfolding median_seconds
  median_seconds-IsMedian s nonneg some_time =
      let xs = s.repetition_seconds in
      let e = length-sort_seconds xs in
      let positive : 0 < length xs = nonempty-lt xs some_time in
      let size : length xs == 0 ≡ false = ground (arith, positive) in
      (
        sort_seconds xs,
        sort_seconds_permuted xs,
        sort_seconds-IsSorted xs nonneg,
        elim (Bool-cases (length xs % 2 == 1)) [
          | inl odd ↦ simp (size, e, odd) (inl (length xs / 2, ground (arith, odd), refl))
          | inr even ↦
              let k = length xs / 2 - 1 in
              let next : length xs / 2 ≡ k + 1 = ground (arith, even, positive) in
              simp (size, e, even)
                (inr (
                  k,
                  ground (arith, even, positive),
                  ap
                      (λ i. d.mul (d.of_ratio 1 2) (
                        d.add (get_or (sort_seconds xs) k d.nought)
                          (get_or (sort_seconds xs) i d.nought)))
                      next,
                ))
        ],
      )
