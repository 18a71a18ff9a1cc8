-- ===== src/Builder/Offsets.antt =====
-- The offsets of `GraphBuilder::build` (src/builder.cpp): the counting loop and the prefix sums.
use route_engine_cpp.Shared.{
  ℕ, zero, suc, ◌+◌, ◌≤◌, ◌<◌, ◌≡◌, refl, sym, subst, ◌∙◌, inl, inr, List, [], ◌∷◌, arith, length,
  get_or, set, replicate, All, length-set, length-replicate, get_or-set, get_or-replicate,
  if◌then◌else◌, ◌==◌, ltb, Bool-cases, ==_iff, All-map,
}
use route_engine_cpp.Types.{NodeId, to_u32, max_u32}
use route_engine_cpp.Builder.{StagedArc, count_sources, sum_rows}

module _ {W : Type 0} where
  -- The arcs that leave `v`, and those that leave a node before it.
  abbrev pub leaving : NodeId → List (StagedArc W) → ℕ
  leaving v [] = 0
  leaving v (a ∷ arcs) = (if a.source == v then 1 else 0) + leaving v arcs

  abbrev pub before : NodeId → List (StagedArc W) → ℕ
  before v [] = 0
  before v (a ∷ arcs) = (if ltb a.source v then 1 else 0) + before v arcs

  pub before-suc :
      (v : NodeId) (arcs : List (StagedArc W))
      → before (v + 1) arcs ≡ before v arcs + leaving v arcs
  before-suc v [] = omega arith
  before-suc v (a ∷ arcs) = ground (arith, before-suc v arcs)

  pub before-le : (v : NodeId) (arcs : List (StagedArc W)) → before v arcs ≤ length arcs
  before-le v [] = omega arith
  before-le v (a ∷ arcs) = ground (arith, before-le v arcs)

  pub before-zero : (arcs : List (StagedArc W)) → before 0 arcs ≡ 0
  before-zero [] = refl
  before-zero (a ∷ arcs) = ground (arith, before-zero arcs)

  -- All of them, where no arc leaves `n` or a node after it.
  pub before-All :
      (n : ℕ) (arcs : List (StagedArc W))
      → All (λ a. a.source < n) arcs
      → before n arcs ≡ length arcs
  before-All n [] h = refl
  before-All n (a ∷ arcs) h = ground (arith, before-All n arcs h.1)

  leaving-le : (v : NodeId) (arcs : List (StagedArc W)) → leaving v arcs ≤ length arcs
  leaving-le v [] = omega arith
  leaving-le v (a ∷ arcs) = ground (arith, leaving-le v arcs)

  length-count_sources :
      (arcs : List (StagedArc W)) (offsets : List ℕ)
      → length (count_sources arcs offsets) ≡ length offsets
  unfolding count_sources
  length-count_sources [] offsets = refl
  length-count_sources (a ∷ arcs) offsets =
      length-count_sources arcs _ ∙ length-set offsets (a.source + 1) _

  -- The counting loop adds, at each place but the first, the number of arcs that leave the node
  -- before it. No count leaves 32 bits.
  get_or-count_sources :
      (arcs : List (StagedArc W)) (offsets : List ℕ) (k : ℕ) (v : NodeId)
      → length offsets ≡ k
      → All (λ a. a.source + 1 < k) arcs
      → ((u : NodeId) → get_or offsets u 0 + length arcs ≤ max_u32)
      → get_or (count_sources arcs offsets) (v + 1) 0 ≡ get_or offsets (v + 1) 0 + leaving v arcs
  unfolding count_sources
  get_or-count_sources [] offsets k v e h small = omega arith
  get_or-count_sources (a ∷ arcs) offsets k v e h small =
      let old = get_or offsets (a.source + 1) 0 in
      let step = λ (u : NodeId).
        get_or-set offsets (a.source + 1) u (to_u32 (old + 1)) 0 (omega (arith, h.0)) in
      ground (
        arith,
        step (v + 1),
        small (a.source + 1),
        get_or-count_sources arcs (set offsets (a.source + 1) (to_u32 (old + 1))) k v
            (length-set offsets (a.source + 1) (to_u32 (old + 1)) ∙ e) h.1
            (λ u. ground (arith, step u, small u, small (a.source + 1))),
      )

  pub counts :
      (arcs : List (StagedArc W)) (n : ℕ)
      → All (λ a. a.source < n) arcs
      → length arcs ≤ max_u32
      → let offsets = count_sources arcs (replicate (n + 1) 0) in
        (length offsets ≡ n + 1) × ((v : NodeId) → get_or offsets (v + 1) 0 ≡ leaving v arcs)
  counts arcs n h small = (
    length-count_sources arcs _ ∙ length-replicate {A = ℕ} (n + 1) 0,
    λ v. omega (
      arith,
      get_or-count_sources arcs (replicate (n + 1) 0) (n + 1) v (length-replicate {A = ℕ} (n + 1) 0)
          (All-map (λ a (lt : a.source < n). omega arith) arcs h)
          (λ u. omega (arith, get_or-replicate {A = ℕ} (n + 1) u 0)),
      get_or-replicate {A = ℕ} (n + 1) (v + 1) 0,
    ),
  )

  -- The loop leaves the first place alone.
  get_or-count_sources_zero :
      (arcs : List (StagedArc W)) (offsets : List ℕ) (k : ℕ)
      → length offsets ≡ k
      → All (λ a. a.source + 1 < k) arcs
      → get_or (count_sources arcs offsets) 0 0 ≡ get_or offsets 0 0
  unfolding count_sources
  get_or-count_sources_zero [] offsets k e h = refl
  get_or-count_sources_zero (a ∷ arcs) offsets k e h =
      let new = to_u32 (get_or offsets (a.source + 1) 0 + 1) in
      ground (
        arith,
        get_or-set offsets (a.source + 1) 0 new 0 (omega (arith, h.0)),
        get_or-count_sources_zero arcs (set offsets (a.source + 1) new) k
            (length-set offsets (a.source + 1) new ∙ e) h.1,
      )

  -- From `row` on the places hold counts, and up to it sums.
  record IsSummed (arcs : List (StagedArc W)) (n row : ℕ) (offsets : List ℕ) : Type 0 where
    size : length offsets ≡ n + 1
    sums : (v : NodeId) → v ≤ row → get_or offsets v 0 ≡ before v arcs
    rest : (v : NodeId) → row ≤ v → v < n → get_or offsets (v + 1) 0 ≡ leaving v arcs

  sum_row-IsSummed :
      (arcs : List (StagedArc W)) (n row : ℕ) (offsets : List ℕ)
      → length arcs ≤ max_u32
      → row < n
      → IsSummed arcs n row offsets
      → IsSummed arcs n
          (row + 1)
          (set offsets (row + 1) (to_u32 (get_or offsets (row + 1) 0 + get_or offsets row 0)))
  sum_row-IsSummed arcs n row offsets small h inv =
      let new = to_u32 (get_or offsets (row + 1) 0 + get_or offsets row 0) in
      let step = λ (u : NodeId). get_or-set offsets (row + 1) u new 0 (omega (arith, inv.size)) in
      record {
        size = length-set offsets (row + 1) new ∙ inv.size;
        sums = λ v le. elim (Bool-cases (v == row + 1)) [
          | inl e ↦
              let e' : v ≡ row + 1 = (==_iff v (row + 1)).0 e in
              rw e' (
                ground (
                  arith,
                  step (row + 1),
                  inv.sums row,
                  inv.rest row,
                  before-suc row arcs,
                  before-le (row + 1) arcs,
                ))
          | inr ne ↦ ground (arith, step v, inv.sums v)
        ];
        rest = λ v le lt. ground (arith, step (v + 1), inv.rest v);
      }

  sum_rows-IsSummed :
      (arcs : List (StagedArc W)) (n rounds row : ℕ) (offsets : List ℕ)
      → length arcs ≤ max_u32
      → row + rounds ≡ n
      → IsSummed arcs n row offsets
      → IsSummed arcs n n (sum_rows rounds row offsets)
  unfolding sum_rows
  sum_rows-IsSummed arcs n zero row offsets small e inv =
      subst (λ t. IsSummed arcs n t offsets) (omega arith) inv
  sum_rows-IsSummed arcs n (suc rounds) row offsets small e inv =
      sum_rows-IsSummed arcs n rounds (row + 1) _ small (omega arith)
        (sum_row-IsSummed arcs n row offsets small (omega arith) inv)

  -- The offset of a node is the number of arcs that leave the nodes before it.
  pub offsets-before :
      (arcs : List (StagedArc W)) (n : ℕ)
      → All (λ a. a.source < n) arcs
      → length arcs ≤ max_u32
      → let offsets = sum_rows n 0 (count_sources arcs (replicate (n + 1) 0)) in
        (length offsets ≡ n + 1) × ((v : NodeId) → v ≤ n → get_or offsets v 0 ≡ before v arcs)
  offsets-before arcs n h small =
      let (size, counted) = counts arcs n h small in
      let first =
        get_or-count_sources_zero arcs (replicate (n + 1) 0) (n + 1)
          (length-replicate {A = ℕ} (n + 1) 0)
          (All-map (λ a (lt : a.source < n). omega arith) arcs h)
        ∙ get_or-replicate {A = ℕ} (n + 1) 0 0 in
      let inv =
        sum_rows-IsSummed arcs n n 0 (count_sources arcs (replicate (n + 1) 0)) small (omega arith)
          (record {
            size = size;
            sums = λ v le. let e : v ≡ 0 = omega arith in rw e (first ∙ sym (before-zero arcs));
            rest = λ v _ _. counted v;
          }) in
      (inv.size, inv.sums)
