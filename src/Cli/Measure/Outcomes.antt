-- ===== src/Cli/Measure/Outcomes.antt =====
-- `command_benchmark` of src/cli/main.cpp: what it ends with.
use route_engine_cpp.Shared.{
  ℕ, zero, suc, ◌≤◌, ◌<◌, ◌≡◌, ◌≢◌, refl, sym, subst, ◌⊎◌, inl, inr, true, false, not, ltb, arith,
  List, [], ◌∷◌, Option, none, some, none-ne-some, Option-cases, Bool-cases, length, All, Run, ok,
  Ends, Ends-bind, Ends-errors, Error, Returns, Returns-ok,
}
use route_engine_cpp.Double.{Double}
use route_engine_cpp.Double.Laws.{IsOrdered}
use route_engine_cpp.Graph.{Graph, node_count, arc_count}
use route_engine_cpp.Benchmark.{QueryPair, run_benchmark}
use route_engine_cpp.Benchmark.Rounding.{IsQuery, IsTally, IsApart, run_benchmark-Ends}
use route_engine_cpp.Benchmark.Queries.{IsPair, make_query_pairs, make_query_pairs-Draws}
use route_engine_cpp.Options.{Options, reject_unaccepted, queries_key, repetitions_key, seed_key}
use route_engine_cpp.Cli.{
  Machine, Exit, UsageError, usage_error, data_error, contract_error, too_small, benchmarked,
  bad_options, options_missing, not_a_number, parse_integer, stop_if,
}
use route_engine_cpp.Cli.Input.{IsInput, IsInputError, input-Ends}
use route_engine_cpp.Cli.Measure.{
  benchmark_keys, benchmark_incomplete, positive, measure_graph, benchmark_files, command_benchmark,
}

-- The numbers of a request.
pub record Request : Type 0 where
  pub queries : ℕ
  pub repetitions : ℕ
  pub seed : ℕ

-- Options that `benchmark` takes, with the numbers that they spell.
abbrev pub IsRequest : Options → Request → Type 0
IsRequest o q =
    (reject_unaccepted benchmark_keys false o ≡ none)
    × (benchmark_incomplete o ≡ false)
    × (positive (parse_integer 64 o.queries) ≡ some q.queries)
    × (positive (parse_integer 64 o.repetitions) ≡ some q.repetitions)
    × (parse_integer 64 o.seed ≡ some q.seed)

module _ {W : Type 0} ⦃d : Double W⦄ (m : Machine W) (o : Options) (q : Request) where
  -- A report about as many queries as asked, each between two different nodes of the input; or the
  -- reason why there is none.
  abbrev pub IsMeasured : Exit W → Type 0
  IsMeasured (benchmarked nodes arcs report _) =
      (g : Graph W) × IsInput m o g
      × (g.metric.passes ≡ true)
      × (nodes ≡ node_count g)
      × (arcs ≡ arc_count g)
      × ((pairs : List QueryPair) × (length pairs ≡ q.queries)
          × All (IsPair (node_count g)) pairs
          × IsTally g pairs m.seconds q.repetitions report)
  IsMeasured (data_error (too_small name nodes)) =
      (g : Graph W) × IsInput m o g × (name ≡ o.nodes) × (nodes ≡ node_count g) × (nodes < 2)
  IsMeasured (contract_error arcs) =
      (g : Graph W) × IsInput m o g × (g.metric.passes ≡ false) × (arcs ≡ g.metric.violating_arcs)
  IsMeasured _ = ⊥

  -- An error about the input, or, on a graph that meets the contract, a disagreement with the answers of
  -- Dijkstra.
  abbrev pub IsMeasureError : Error → Type 0
  IsMeasureError e =
      IsInputError m o e
      ⊎ ((g : Graph W) × IsInput m o g
          × (g.metric.passes ≡ true)
          × ((pairs : List QueryPair) × (length pairs ≡ q.queries)
              × All (IsPair (node_count g)) pairs
              × IsApart g pairs e))

  module _ (some_query : q.queries ≢ 0) (g : Graph W) (input : IsInput m o g) where
    pub pair-IsQuery :
        (pairs : List QueryPair) → All (IsPair (node_count g)) pairs → All (IsQuery g) pairs
    pair-IsQuery [] h = tt
    pair-IsQuery (p ∷ pairs) (h, rest) = ((h.0, h.1), pair-IsQuery pairs rest)

    pub drawn-Returns :
        2 ≤ node_count g
        → Returns
            (λ qs. (length qs ≡ q.queries) × All (IsPair (node_count g)) qs)
            (make_query_pairs g q.seed q.queries)
    drawn-Returns many = elim (make_query_pairs-Draws g input.4.valid.few_nodes q.seed q.queries) [
      | inl (few, _) ↦ absurd (omega (arith, few, many))
      | inr (inl (_, zero_query, _)) ↦ absurd (some_query zero_query)
      | inr (inr (_, _, h)) ↦ h
    ]

  module _ (laws : IsOrdered W) (some_query : q.queries ≢ 0) (some_repetition : q.repetitions ≢ 0)
      (g : Graph W) (input : IsInput m o g) where
    measure_graph-Ends :
        2 ≤ node_count g
        → g.metric.passes ≡ true
        → Ends IsMeasureError IsMeasured (measure_graph m q.queries q.repetitions q.seed g)
    unfolding measure_graph
    measure_graph-Ends many passes =
        let (pairs, e, (size, fit)) =
          Returns-ok _ (make_query_pairs g q.seed q.queries)
            (drawn-Returns some_query g input many) in
        let tally = IsTally g pairs m.seconds q.repetitions in
        let benched : Ends (IsApart g pairs) tally (run_benchmark m.seconds g pairs q.repetitions) =
          run_benchmark-Ends laws g input.4.valid passes pairs
            (pair-IsQuery some_query g input pairs fit) m.seconds q.repetitions
            (omega (arith, size, some_query)) some_repetition in
        rw e (
          Ends-bind IsMeasureError IsMeasured tally (run_benchmark m.seconds g pairs q.repetitions)
            _
            (Ends-errors (IsApart g pairs) IsMeasureError tally
              (run_benchmark m.seconds g pairs q.repetitions) benched
              λ err h. inr (g, input, passes, (pairs, size, fit, h)))
            λ report reported. (g, input, passes, refl, refl, (pairs, size, fit, reported)))

    loaded-Ends : Ends IsMeasureError IsMeasured (
        stop_if (ltb (node_count g) 2) (ok (data_error (too_small o.nodes (node_count g)))) (
          stop_if
            (not g.metric.passes)
            (ok (contract_error g.metric.violating_arcs))
            (measure_graph m q.queries q.repetitions q.seed g)))
    loaded-Ends = elim (Bool-cases (ltb (node_count g) 2)) [
      | inl few ↦ simp few (g, input, refl, refl, ground arith)
      | inr many ↦ elim (Bool-cases g.metric.passes) [
        | inl passes ↦ simp (many, passes) (measure_graph-Ends (ground arith) passes)
        | inr violated ↦ simp (many, violated) (g, input, violated, refl)
      ]
    ]

pub positive-not_zero : (value : Option ℕ) (n : ℕ) → positive value ≡ some n → n ≢ 0
positive-not_zero none n e = absurd (none-ne-some n e)
positive-not_zero (some zero) n e = absurd (none-ne-some n e)
positive-not_zero (some (suc k)) n e = ground (arith, e)

module _ {W : Type 0} ⦃d : Double W⦄ (m : Machine W) (o : Options) where
  abbrev pub Measures : Run (Exit W) → Type 0
  Measures r =
      (((q : Request) → IsRequest o q → ⊥) × (e : UsageError) × (r ≡ ok (usage_error e)))
      ⊎ ((q : Request) × IsRequest o q × Ends (IsMeasureError m o q) (IsMeasured m o q) r)

  -- What the command does before it reads the files.
  abbrev pub Reads : Run (Exit W) → Type 0
  Reads r =
      (((q : Request) → IsRequest o q → ⊥) × (e : UsageError) × (r ≡ ok (usage_error e)))
      ⊎ ((q : Request) × IsRequest o q × (r ≡ benchmark_files m o q.queries q.repetitions q.seed))

  pub command_benchmark-cases : Reads (command_benchmark m o)
  unfolding command_benchmark
  command_benchmark-cases = elim (Option-cases (reject_unaccepted benchmark_keys false o)) [
    | inr (e, other) ↦ simp other (inl (λ q h. none-ne-some e (sym h.0), bad_options e, refl))
    | inl accepted ↦ elim (Bool-cases (benchmark_incomplete o)) [
      | inl missing ↦
          simp (accepted, missing) (inl (λ q h. ground (arith, h), options_missing, refl))
      | inr complete ↦ elim (Option-cases (positive (parse_integer 64 o.queries))) [
        | inl bad ↦
            simp (accepted, complete, bad)
              (inl (λ q h. none-ne-some q.queries h.2, not_a_number queries_key o.queries, refl))
        | inr (n, n_read) ↦ elim (Option-cases (positive (parse_integer 64 o.repetitions))) [
          | inl bad ↦
              simp (accepted, complete, n_read, bad)
                (inl (
                  λ q h. none-ne-some q.repetitions h.3,
                  not_a_number repetitions_key o.repetitions,
                  refl,
                ))
          | inr (k, k_read) ↦ elim (Option-cases (parse_integer 64 o.seed)) [
            | inl bad ↦
                simp (accepted, complete, n_read, k_read, bad)
                  (inl (λ q h. none-ne-some q.seed h.4, not_a_number seed_key o.seed, refl))
            | inr (s, s_read) ↦
                let q : Request = record { queries = n; repetitions = k; seed = s } in
                simp (accepted, complete, n_read, k_read, s_read)
                  (inr (q, (refl, refl, refl, refl, refl), refl))
          ]
        ]
      ]
    ]
  ]

  module _ (laws : IsOrdered W) where
    files-Ends :
        (q : Request)
        → q.queries ≢ 0
        → q.repetitions ≢ 0
        → Ends
            (IsMeasureError m o q)
            (IsMeasured m o q)
            (benchmark_files m o q.queries q.repetitions q.seed)
    unfolding benchmark_files
    files-Ends q some_query some_repetition =
        input-Ends m o laws (IsMeasureError m o q) (IsMeasured m o q) _ (λ e h. inl h)
          λ g input. loaded-Ends m o q laws some_query some_repetition g input

    pub command_benchmark-Measures : Measures (command_benchmark m o)
    command_benchmark-Measures = elim command_benchmark-cases [
      | inl refused ↦ inl refused
      | inr (q, request, e) ↦ inr (
        q,
        request,
        subst (Ends (IsMeasureError m o q) (IsMeasured m o q)) (sym e) (
            files-Ends q (positive-not_zero _ q.queries request.2)
              (positive-not_zero _ q.repetitions request.3)),
      )
    ]
