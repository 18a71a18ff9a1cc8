-- ===== src/Benchmark/Queries.antt =====
-- `make_query_pairs` of src/benchmark.cpp: a query set drawn from a seed.
use route_engine_cpp.Shared.{
  ℕ, zero, suc, ◌+◌, ◌-◌, ◌%◌, ◌<◌, ◌≤◌, ◌≡◌, ◌≢◌, refl, ap, sym, ◌∙◌, List, [], ◌∷◌, arith, ltb,
  ◌==◌, length, All, Run, ok, throw, ◌>>=◌, ◌>>◌, throw_if, Returns, Returns-bind, graph_validation,
  too_few_nodes, no_queries, ◌⊎◌, inl, inr, Bool-cases,
}
use native.Mathlib.Nat.{mod-eq_of_lt, mod-eq-sub-mod}
use route_engine_cpp.Types.{to_u32, max_u32, add_u64}
use route_engine_cpp.Graph.{Graph, node_count}
use route_engine_cpp.Random.{next_below}
use route_engine_cpp.Random.Below.{next_below-Returns}
use route_engine_cpp.Benchmark.{QueryPair}

-- One round: the source, and an offset to the target.
unfoldable pub draw_query : (node_count : ℕ) → ℕ → Run (QueryPair × ℕ)
unfolding add_u64
draw_query n rng = do
  (source, rng) ← next_below n rng
  (offset, rng) ← next_below (n - 1) rng
  let target = add_u64 source (add_u64 1 offset) % n
  ok (record { source = to_u32 source; target = to_u32 target }, rng)

unfoldable pub draw_queries : (count node_count : ℕ) → ℕ → Run (List QueryPair)
unfolding draw_query
draw_queries zero n rng = ok []
draw_queries (suc count) n rng = do
  (query, rng) ← draw_query n rng
  queries ← draw_queries count n rng
  ok (query ∷ queries)

module _ {W : Type 0} where
  unfoldable pub make_query_pairs : Graph W → (seed count : ℕ) → Run (List QueryPair)
  unfolding draw_queries
  make_query_pairs g seed count = do
    throw_if (ltb (node_count g) 2) (graph_validation too_few_nodes)
    throw_if (count == 0) (graph_validation no_queries)
    draw_queries count (node_count g) seed

-- The ends of a query are two nodes.
abbrev pub IsPair : ℕ → QueryPair → Type 0
IsPair n q = (q.source < n) × (q.target < n) × (q.source ≢ q.target)

-- The sum is at most one turn round the nodes, and not a whole one.
turn :
    (n source offset : ℕ)
    → source < n
    → offset < n - 1
    → n ≤ max_u32
    → (add_u64 source (add_u64 1 offset) % n < n) × (add_u64 source (add_u64 1 offset) % n ≢ source)
unfolding add_u64
turn n source offset hs ho small =
    let sum : add_u64 source (add_u64 1 offset) ≡ source + (1 + offset) = omega arith in
    elim (Bool-cases (ltb (source + (1 + offset)) n)) [
      | inl inside ↦
          let e : (source + (1 + offset)) % n ≡ source + (1 + offset) =
            mod-eq_of_lt (ground arith) in
          rw (sum, e) (ground arith, λ same. omega arith)
      | inr round ↦
          let le : n ≤ source + (1 + offset) = ground arith in
          let e : (source + (1 + offset)) % n ≡ source + (1 + offset) - n =
            mod-eq-sub-mod le ∙ mod-eq_of_lt (omega (arith, le)) in
          rw (sum, e) (omega (arith, le), λ same. omega (arith, le))
    ]

pair_lem :
    (n source offset : ℕ)
    → source < n
    → offset < n - 1
    → n ≤ max_u32
    → IsPair n
        (record { source = to_u32 source; target = to_u32 (add_u64 source (add_u64 1 offset) % n) })
pair_lem n source offset hs ho small =
    let (lt, ne) = turn n source offset hs ho small in
    let e : to_u32 source ≡ source = omega arith in
    let e' : to_u32 (add_u64 source (add_u64 1 offset) % n)
        ≡ add_u64 source (add_u64 1 offset) % n =
      omega (arith, lt) in
    rw (e, e') (hs, lt, λ same. ne (sym same))

draw_query-Returns :
    (n rng : ℕ) → 2 ≤ n → n ≤ max_u32 → Returns (λ (q, _). IsPair n q) (draw_query n rng)
unfolding draw_query
draw_query-Returns n rng two small =
    Returns-bind _ _ (next_below n rng) _ (next_below-Returns n rng (omega arith))
      λ (source, rng) hs.
        Returns-bind _ _ (next_below (n - 1) rng) _ (next_below-Returns (n - 1) rng (omega arith))
          λ (offset, rng) ho. pair_lem n source offset hs ho small

draw_queries-Returns :
    (count n rng : ℕ)
    → 2 ≤ n
    → n ≤ max_u32
    → Returns (λ qs. (length qs ≡ count) × All (IsPair n) qs) (draw_queries count n rng)
unfolding draw_queries
draw_queries-Returns zero n rng two small = (refl, tt)
draw_queries-Returns (suc count) n rng two small =
    Returns-bind _ _ (draw_query n rng) _ (draw_query-Returns n rng two small) λ (q, rng) pair.
      Returns-bind _ _ (draw_queries count n rng) _ (draw_queries-Returns count n rng two small)
        λ qs (size, pairs). (ap suc size, (pair, pairs))

-- What `make_query_pairs` does: it refuses a graph with fewer than two nodes, then an empty query set,
-- and otherwise draws as many queries as asked, each between two different nodes.
abbrev pub Draws : (nodes count : ℕ) → Run (List QueryPair) → Type 0
Draws n count r =
    ((n < 2) × (r ≡ throw (graph_validation too_few_nodes)))
    ⊎ ((2 ≤ n) × (count ≡ 0) × (r ≡ throw (graph_validation no_queries)))
    ⊎ ((2 ≤ n) × (count ≢ 0) × Returns (λ qs. (length qs ≡ count) × All (IsPair n) qs) r)

module _ {W : Type 0} (g : Graph W) (small : node_count g ≤ max_u32) (seed count : ℕ) where
  -- On a graph within the 32-bit limit `make_query_pairs` refuses fewer than two nodes, then an empty
  -- query set, and otherwise returns `count` queries between two different nodes each.
  pub make_query_pairs-Draws : Draws (node_count g) count (make_query_pairs g seed count)
  unfolding make_query_pairs
  make_query_pairs-Draws = elim (Bool-cases (ltb (node_count g) 2)) [
    | inl few ↦ inl (ground arith, rw few)
    | inr many ↦ elim (Bool-cases (count == 0)) [
      | inl none ↦ inr (inl (ground arith, ground arith, rw (many, none)))
      | inr some ↦ inr (
          inr (
            ground arith,
            ground arith,
            rw (many, some) (draw_queries-Returns count (node_count g) seed (ground arith) small),
          ))
    ]
  ]
