-- ===== src/Reference/Agree.antt =====
-- The distances of tests/support/bellman_ford.hpp against the answer of `dijkstra` in src/search.cpp.
use route_engine_cpp.Shared.{
  ℕ, zero, suc, ◌+◌, ◌-◌, ◌≤◌, ◌<◌, ◌≡◌, refl, subst, ◌∙◌, inl, inr, List, [], ◌∷◌, true, false,
  arith, length, set, replicate, length-set, length-replicate, get_or-replicate, get_or-set_self,
  get_or-set_ne, length-reverse, reverse, eq_or_ne, Bool-cases, Returns, Returns-bind, Returns-map,
  Returns-ok, Returns-both, lt→ltb,
}
use route_engine_cpp.Double.{Double, ◌≼◌}
use route_engine_cpp.Double.Laws.{IsOrdered, le_between}
use route_engine_cpp.Types.{NodeId}
use route_engine_cpp.Graph.{Graph, node_count}
use route_engine_cpp.Graph.Rows.{IsValid, arc-IsArcOf}
use route_engine_cpp.Search.{
  SearchStatus, found, unreachable, dijkstra, require_valid, zero_estimate,
}
use route_engine_cpp.Search.Walk.{Walk, here, onward, walk_nonneg}
use route_engine_cpp.Search.Invariant.{dist}
use route_engine_cpp.Search.Correct.{IsAnswerOf}
use route_engine_cpp.Search.EntryPoints.{dijkstra-IsAnswer}
use route_engine_cpp.Search.Sound.{IsSound, IsSoundOf}
use route_engine_cpp.Search.Sound.{search-IsSound}
use route_engine_cpp.Reference.{Sweep, sweep, sweeps, bellman_ford_distances}
use route_engine_cpp.Reference.Sweeps.{
  IsEstimate, Step, AreFollowed, sweep-Step, estimate_nonneg, infinity_nonneg,
}

module _ {W : Type 0} ⦃d : Double W⦄ (laws : IsOrdered W) (g : Graph W) (valid : IsValid g)
    (src : NodeId) (src_node : src < node_count g) where
  open d use {nought, infinity, add, eq}

  Walk-node :
      {path : List NodeId} {v : NodeId} {c : W}
      → Walk g src path v c
      → (v < node_count g) × (0 < length path)
  Walk-node here = (src_node, omega arith)
  Walk-node (onward {u = u} v w walk arc) = ((arc-IsArcOf g valid u v w arc).0, omega arith)

  -- No walk with as many arcs as `k` at most undercuts the distances.
  abbrev IsWithin : ℕ → List W → Type 0
  IsWithin k distance =
      (path : List NodeId) (v : NodeId) (c : W)
      → Walk g src path v c
      → length path ≤ suc k
      → dist distance v ≼ c

  -- A round that changes nothing: no walk at all does.
  still-bound :
      (s : Sweep W)
      → IsEstimate laws g valid src s.distance
      → dist s.distance src ≼ nought
      → ((x : NodeId) → 0 ≤ x → x < node_count g → AreFollowed laws g valid src x s s)
      → {path : List NodeId} {v : NodeId} {c : W} → Walk g src path v c
      → dist s.distance v ≼ c
  still-bound s inv at followed here = at
  still-bound s inv at followed (onward {u = u} v w walk arc) =
      laws.le_trans _ _ _ (followed u (omega arith) (Walk-node walk).0 v w arc) (
        laws.add_mono _ _ _ (estimate_nonneg laws g valid src s.distance inv u)
          (arc-IsArcOf g valid u v w arc).1 (still-bound s inv at followed walk))

  -- A round takes in the walks with one more arc.
  longer-bound :
      (k : ℕ) (s s' : Sweep W)
      → IsEstimate laws g valid src s.distance
      → Step laws g valid src s s'
      → ((x : NodeId) → 0 ≤ x → x < node_count g → AreFollowed laws g valid src x s s')
      → IsWithin k s.distance
      → IsWithin (suc k) s'.distance
  longer-bound k s s' inv step followed within path v c here short =
      laws.le_trans _ _ _ (step.lower src) (within (src ∷ []) src nought here (omega arith))
  longer-bound k s s' inv step followed within path y e
        (onward {path = p} {u = u} {c = c'} v w walk arc) short =
      laws.le_trans _ _ _ (followed u (omega arith) (Walk-node walk).0 v w arc) (
        laws.add_mono _ _ _ (estimate_nonneg laws g valid src s.distance inv u)
          (arc-IsArcOf g valid u v w arc).1 (within p u c' walk (omega arith)))

  -- After the rounds the distances are costs of walks, and bound the walks with as many arcs.
  sweeps-IsWithin :
      (left k : ℕ) (distance : List W)
      → IsEstimate laws g valid src distance
      → IsWithin k distance
      → Returns
          (λ distance'. IsEstimate laws g valid src distance' × IsWithin (k + left) distance')
          (sweeps g left distance)
  unfolding sweeps
  sweeps-IsWithin zero k distance inv within =
      (inv, λ path v c walk short. within path v c walk (omega arith))
  sweeps-IsWithin (suc left) k distance inv within =
      let s : Sweep W = record { distance = distance; changed = false } in
      Returns-bind _ _ (sweep g (node_count g) 0 s) _
        (sweep-Step laws g valid src (node_count g) 0 s inv (omega arith))
        λ s' (step, followed). elim (Bool-cases s'.changed) [
          | inl changed ↦ rw changed (
              Returns-map _ _ (sweeps g left s'.distance)
                (sweeps-IsWithin left (suc k) s'.distance step.estimate
                  (longer-bound k s s' inv step followed within))
                λ distance' (inv', within').
                  (inv', λ path v c walk short. within' path v c walk (omega arith)))
          | inr still ↦
              let same = (step.noted still).1 in
              rw (still, same)
                (
                  inv,
                  λ path v c walk short.
                      still-bound s inv (within (src ∷ []) src nought here (omega arith))
                        (λ x h h' v w arc.
                          subst (λ t. dist t v ≼ add (dist distance x) w) same
                            (followed x h h' v w arc))
                        walk,
                )
        ]

  blank : List W
  blank = replicate (node_count g) infinity

  start-IsEstimate : IsEstimate laws g valid src (set blank src nought)
  unfolding blank
  start-IsEstimate =
      let inside : src < length (replicate (node_count g) infinity) =
        omega (arith, length-replicate (node_count g) infinity, src_node) in
      record {
        size = length-set blank src nought ∙ length-replicate (node_count g) infinity;
        walked = λ v. elim (eq_or_ne v src) [
          | inl e ↦ rw (e, get_or-set_self blank src nought infinity inside) (inr (src ∷ [], here))
          | inr ne ↦ inl (
              get_or-set_ne blank src nought infinity inside v ne
              ∙ get_or-replicate (node_count g) v infinity)
        ];
      }

  start-IsWithin : IsWithin 0 (set blank src nought)
  unfolding blank
  start-IsWithin path v c here short =
      let inside : src < length (replicate (node_count g) infinity) =
        omega (arith, length-replicate (node_count g) infinity, src_node) in
      le_between (get_or-set_self blank src nought infinity inside) refl laws.nought_refl
  start-IsWithin path y e (onward v w walk arc) short = absurd (omega (arith, (Walk-node walk).1))

  -- The distances are costs of walks, and no walk through as many nodes as there are undercuts them.
  distances-Returns :
      Returns
        (λ distance. IsEstimate laws g valid src distance × IsWithin (node_count g - 1) distance)
        (bellman_ford_distances g src)
  unfolding bellman_ford_distances blank
  distances-Returns = ground (
    arith,
    sweeps-IsWithin (node_count g - 1) 0 (set blank src nought) start-IsEstimate start-IsWithin,
  )

  both_ways : (x y : W) → nought ≼ x → nought ≼ y → x ≼ y → y ≼ x → eq x y ≡ true
  both_ways x y p q h h' = ground (arith, laws.eq-eq-le x y p q)

  -- An answer against distances that bound the walks through as many nodes as there are.
  answer-agrees :
      (target : NodeId) (distance : List W) (status : SearchStatus) (cost : W) (path : List NodeId)
      → IsEstimate laws g valid src distance
      → IsWithin (node_count g - 1) distance
      → IsAnswerOf g src target status cost path
      → IsSoundOf g src target status cost path
      → eq cost (dist distance target) ≡ true
  answer-agrees target distance found cost path inv within (walk, _, least) (_, _, short) =
      let cost_nonneg = walk_nonneg laws g valid walk in
      let below =
        within (reverse path) target cost walk
          (omega (arith, length-reverse path, short, src_node)) in
      both_ways cost _ cost_nonneg (estimate_nonneg laws g valid src distance inv target)
        (elim (inv.walked target) [
          | inl far ↦ le_between refl far (laws.le-infinity cost cost_nonneg)
          | inr (path', walk') ↦ least path' _ walk'
        ])
        below
  answer-agrees target distance unreachable cost path inv within (_, e, far) sound =
      let nonneg = estimate_nonneg laws g valid src distance inv target in
      let top = infinity_nonneg laws g valid src in
      rw e (
        both_ways infinity _ top nonneg
          (elim (inv.walked target) [
            | inl same ↦ le_between refl same (laws.le_refl _ top)
            | inr (path', walk') ↦ far path' _ walk'
          ])
          (laws.le-infinity _ nonneg))

  dijkstra-IsSound :
      (target : NodeId)
      → target < node_count g
      → Returns (IsSound g src target) (dijkstra g src target)
  unfolding dijkstra require_valid zero_estimate
  dijkstra-IsSound target target_node =
      rw (lt→ltb src (node_count g) src_node, lt→ltb target (node_count g) target_node)
        (search-IsSound laws g valid src zero_estimate (λ v h. tt) target src_node)

  -- Between nodes of a valid graph `dijkstra` and the reference both return, and for the reference the
  -- distance of the target compares equal to the cost that `dijkstra` reports, whatever the rounding.
  pub dijkstra-agrees :
      (target : NodeId)
      → target < node_count g
      → Returns
          (λ r.
            Returns
              (λ distance. eq r.cost (dist distance target) ≡ true)
              (bellman_ford_distances g src))
          (dijkstra g src target)
  dijkstra-agrees target target_node =
      let (distance, e, (inv, within)) =
        Returns-ok _ (bellman_ford_distances g src) distances-Returns in
      Returns-map _ _ (dijkstra g src target)
        (Returns-both _ _ (dijkstra g src target)
          (dijkstra-IsAnswer laws g valid src target src_node target_node)
          (dijkstra-IsSound target target_node))
        λ r (answer, sound).
          rw e (answer-agrees target distance r.status r.cost r.path inv within answer sound)
