-- ===== src/Search/Correct.antt =====
-- `search` (src/search.cpp) answers: the route that it returns is a walk of the graph whose cost no
-- other walk undercuts, and a target that it does not reach has no walk of finite cost.
use mathlib.Core.List.Memᴰ
use mathlib.Core.List.{reverse-reverse, Memᴰ}
use route_engine_cpp.Shared.{
  count-le, ◌+◌, ◌≤◌, ◌<◌, ◌≡◌, ◌≢◌, refl, sym, subst, ◌⊎◌, inl, inr, List, [], Bool, true, false,
  arith, Run, Returns, Returns-bind, reverse, Bool-cases, length, eq_or_ne,
}
use route_engine_cpp.Double.{Double, ◌≼◌}
use route_engine_cpp.Double.Laws.{IsOrdered, le_between, le_of_not_lt}
use route_engine_cpp.Types.{NodeId}
use route_engine_cpp.Graph.{Graph, node_count, arc_count}
use route_engine_cpp.Graph.Rows.{IsValid, arc-IsArcOf}
use route_engine_cpp.Search.{
  State, SearchResult, SearchStatus, found, unreachable, search, start, loop, finish,
}
use route_engine_cpp.Search.Walk.{Walk, here, onward, walk_nonneg, Trail-Walk, walk_back-Trail}
use route_engine_cpp.Search.Invariant.{IsConsistent, dist, done, priority_at}
use route_engine_cpp.Search.Loop.{IsOpen, IsFinal, LoopEnds, loop-Returns}
use route_engine_cpp.Search.Start.{start-Returns}

module _ {W : Type 0} ⦃d : Double W⦄ where
  -- What a result says: a route that is found is a walk from the source to the target, its cost is
  -- finite and is that of the walk, and no walk to the target costs less; without a route, the path is
  -- empty, the cost is infinity, and so is the cost of every walk to the target.
  abbrev pub IsAnswerOf : Graph W → NodeId → NodeId → SearchStatus → W → List NodeId → Type 0
  IsAnswerOf g src target found cost path =
      Walk g src (reverse path) target cost
      × (d.lt cost d.infinity ≡ true)
      × ((p : List NodeId) (c : W) → Walk g src p target c → cost ≼ c)
  IsAnswerOf g src target unreachable cost path =
      (path ≡ [])
      × (cost ≡ d.infinity)
      × ((p : List NodeId) (c : W) → Walk g src p target c → d.infinity ≼ c)

  abbrev pub IsAnswer : Graph W → NodeId → NodeId → SearchResult W → Type 0
  IsAnswer g src target r = IsAnswerOf g src target r.status r.cost r.path

module _ {W : Type 0} ⦃d : Double W⦄ (laws : IsOrdered W) (g : Graph W) (valid : IsValid g)
    (src : NodeId) (estimate : NodeId → Run W) (value : NodeId → W)
    (heuristic : IsConsistent g estimate value) (target : NodeId) where
  open d use {nought, infinity, add, lt}

  infinity_nonneg : nought ≼ infinity
  infinity_nonneg = laws.le-infinity nought laws.nought_refl

  -- At the `break`: where a walk stays on settled nodes, it does not undercut their distances; once
  -- it leaves them, or ends at the target, its cost with the estimate is at least the target's.
  abbrev FinalBound : State W → NodeId → W → Type 0
  FinalBound s y c =
      ((y ≢ target) × (done s.settled y ≡ true) × (dist s.distance y ≼ c))
      ⊎ (priority_at g src value s.distance target ≼ add c (value y))

  final-case :
      (s : State W)
      → IsFinal laws g valid src estimate value heuristic target s
      → (y : NodeId) (c : W) → dist s.distance y ≼ c
      → FinalBound s y c
  final-case s inv y c le =
      let more = laws.add_mono _ _ _ (inv.frontier.grounded.nonneg y) (heuristic.nonneg y) le in
      elim (eq_or_ne y target) [
        | inl e ↦ inr (subst (λ t. priority_at g src value s.distance t ≼ add c (value y)) e more)
        | inr ne ↦ elim (Bool-cases (done s.settled y)) [
          | inl settled ↦ inl (ne, settled, le)
          | inr outside ↦
              inr (laws.le_trans _ _ _ (inv.frontier.below target y inv.finished outside) more)
        ]
      ]

  final-bound :
      (s : State W)
      → IsFinal laws g valid src estimate value heuristic target s
      → {p : List NodeId} {y : NodeId} {c : W} → Walk g src p y c
      → FinalBound s y c
  final-bound s inv here =
      final-case s inv src nought (le_between inv.frontier.grounded.at_source refl laws.nought_refl)
  final-bound s inv (onward {u = u} {c = c} v w walk arc) = elim (final-bound s inv walk) [
    | inl (ne, done_u, le) ↦ final-case s inv v (add c w) (
        laws.le_trans _ _ _ (inv.closed u v w ne done_u arc) (
          laws.add_mono _ _ _ (inv.frontier.grounded.nonneg u) (arc-IsArcOf g valid u v w arc).1
            le))
    | inr le ↦
        inr (laws.le_trans _ _ _ le (heuristic.along u v w c arc (walk_nonneg laws g valid walk)))
  ]

  -- With an empty queue: a walk has stayed on settled nodes, or its cost is not finite.
  abbrev OpenBound : State W → NodeId → W → Type 0
  OpenBound s y c = ((done s.settled y ≡ true) × (dist s.distance y ≼ c)) ⊎ (infinity ≼ c)

  open-case :
      (s : State W)
      → IsOpen laws g valid src estimate value heuristic target s
      → s.queue ≡ []
      → (y : NodeId) (c : W) → dist s.distance y ≼ c
      → OpenBound s y c
  open-case s inv empty y c le = elim (Bool-cases (done s.settled y)) [
    | inl settled ↦ inl (settled, le)
    | inr outside ↦ elim (Bool-cases (lt (dist s.distance y) infinity)) [
      | inl reached ↦
          let (p, mem, _) = inv.frontier.waiting y outside reached in
          absurd (Memᴰ.not-nil (subst (Memᴰ _) empty mem))
      | inr far ↦ inr (
          laws.le_trans _ _ _
            (le_of_not_lt laws _ _ (inv.frontier.grounded.nonneg y) infinity_nonneg far) le)
    ]
  ]

  open-bound :
      (s : State W)
      → IsOpen laws g valid src estimate value heuristic target s
      → s.queue ≡ []
      → {p : List NodeId} {y : NodeId} {c : W} → Walk g src p y c
      → OpenBound s y c
  open-bound s inv empty here =
      open-case s inv empty src nought
        (le_between inv.frontier.grounded.at_source refl laws.nought_refl)
  open-bound s inv empty (onward {u = u} {c = c} v w walk arc) =
      let w_nonneg = (arc-IsArcOf g valid u v w arc).1 in
      elim (open-bound s inv empty walk) [
        | inl (done_u, le) ↦ open-case s inv empty v (add c w) (
            laws.le_trans _ _ _ (inv.closed u v w (λ b. b) done_u arc)
              (laws.add_mono _ _ _ (inv.frontier.grounded.nonneg u) w_nonneg le))
        | inr le ↦
            inr (laws.le_trans _ _ _ le (laws.le-add _ _ (walk_nonneg laws g valid walk) w_nonneg))
      ]

  no_undercut :
      (s : State W)
      → IsFinal laws g valid src estimate value heuristic target s
      → (p : List NodeId) (c : W) → Walk g src p target c
      → dist s.distance target ≼ c
  no_undercut s inv p c walk = elim (final-bound s inv walk) [
    | inl (ne, _, _) ↦ absurd (ne refl)
    | inr le ↦
        heuristic.reflects target _ _ (inv.frontier.grounded.nonneg target)
          (walk_nonneg laws g valid walk) le
  ]

  no_finite :
      (s : State W)
      → IsOpen laws g valid src estimate value heuristic target s
      → s.queue ≡ []
      → (p : List NodeId) (c : W) → Walk g src p target c
      → infinity ≼ c
  no_finite s inv empty p c walk = elim (open-bound s inv empty walk) [
    | inl (settled, _) ↦ ground (arith, inv.unfinished)
    | inr le ↦ le
  ]

  finish-Returns :
      (end : Bool × State W)
      → LoopEnds laws g valid src estimate value heuristic target end
      → Returns (IsAnswer g src target) (finish g estimate src target end)
  unfolding finish
  finish-Returns (false, s) (inv, empty) = (refl, refl, no_finite s inv empty)
  finish-Returns (true, s) inv =
      let (path, trail, short) = (inv.frontier.grounded.inner target inv.finished).0 in
      let enough : length path ≤ node_count g =
        omega (arith, count-le s.settled, inv.frontier.grounded.settled_size) in
      rw (walk_back-Trail g src (done s.settled) s.parent (node_count g) trail enough) (
        subst (λ p. Walk g src p target (dist s.distance target)) (sym (reverse-reverse path))
            (Trail-Walk trail),
        (inv.frontier.grounded.inner target inv.finished).1,
        no_undercut s inv,
      )

  -- From a node of a valid graph, with a consistent heuristic, `search` returns an answer.
  pub search-IsAnswer :
      src < node_count g → Returns (IsAnswer g src target) (search g estimate src target)
  unfolding search
  search-IsAnswer src_node =
      Returns-bind _ _ (start g estimate src) _
        (start-Returns laws g valid src estimate value heuristic src_node target)
        λ s (inv, enough).
          Returns-bind _ _ (loop g estimate (arc_count g + 2) target s) _
            (loop-Returns laws g valid src estimate value heuristic target (arc_count g + 2) s inv
              enough)
            finish-Returns
