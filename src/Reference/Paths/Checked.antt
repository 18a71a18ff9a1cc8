-- ===== src/Reference/Paths/Checked.antt =====
-- The routes of `dijkstra` (src/search.cpp) pass the check of tests/support/path_checker.hpp.
use mathlib.Core.List.{reverse-append, reverse-reverse}
use route_engine_cpp.Shared.{
  ℕ, ◌<◌, ◌≡◌, refl, ap, sym, ◌∙◌, subst, List, [], ◌∷◌, ◌++◌, true, false, arith, reverse, some,
  ok, ◌>>=◌, ==_iff, ◌==◌, Returns, Returns-map,
}
use route_engine_cpp.Double.{Double, ◌≼◌}
use route_engine_cpp.Double.Laws.{IsOrdered, le_between}
use route_engine_cpp.Types.{NodeId}
use route_engine_cpp.Graph.{Graph, node_count, row, make_graph}
use route_engine_cpp.Graph.Rows.{IsValid, IsArc, arc-IsArcOf, arcs_from-ok}
use route_engine_cpp.Builder.{Builder, build}
use route_engine_cpp.Builder.Invariant.{IsBuilding}
use route_engine_cpp.Builder.Build.{built, built-IsValid}
use route_engine_cpp.Builder.Result.{Reached, build-ok_inverse}
use route_engine_cpp.Search.{SearchStatus, found, unreachable, SearchResult, dijkstra}
use route_engine_cpp.Search.Walk.{Walk, here, onward, walk_nonneg}
use route_engine_cpp.Search.Correct.{IsAnswerOf}
use route_engine_cpp.Search.EntryPoints.{dijkstra-IsAnswer}
use route_engine_cpp.Reference.Paths.{
  PathCheck, no_fault, no_route, back, link, check_links, check_path,
}
use route_engine_cpp.Reference.Paths.Links.{row-link}

module _ {W : Type 0} ⦃d : Double W⦄ (g : Graph W) where
  -- From a node along a path by the first arcs, from one sum of weights to another.
  data Linked : NodeId → List NodeId → W → W → Type 0 where
    last : {u : NodeId} {c : W} → Linked u [] c c
    next :
        {u v : NodeId} {path : List NodeId} {c c' : W} (w : W)
        → u < node_count g
        → link v (row g u) ≡ some w
        → Linked v path (d.add c w) c'
        → Linked u (v ∷ path) c c'

  Linked-concat :
      {u : NodeId} {path : List NodeId} {c c' : W} (v : NodeId) (w : W)
      → Linked u path c c'
      → back u path < node_count g
      → link v (row g (back u path)) ≡ some w
      → Linked u (path ++ v ∷ []) c (d.add c' w)
  Linked-concat v w last inside e = next w inside e last
  Linked-concat v w (next w' h e' linked) inside e =
      next w' h e' (Linked-concat v w linked inside e)

  Linked-check :
      (valid : IsValid g) {u : NodeId} {path : List NodeId} {c c' : W}
      → Linked u path c c'
      → check_links g u path c ≡ ok (record { valid = true; cost = c'; reason = no_fault })
  unfolding check_links
  Linked-check valid last = refl
  Linked-check valid (next {u = u} w h e linked) =
      rw (arcs_from-ok g valid u h, ◌>>=◌, e) (Linked-check valid linked)

back-concat : (u v : NodeId) (path : List NodeId) → back u (path ++ v ∷ []) ≡ v
back-concat u v [] = refl
back-concat u v (x ∷ path) = back-concat x v path

module _ {W : Type 0} ⦃d : Double W⦄ where
  -- What the check says of a result: a route is valid, with a cost that compares equal to the reported
  -- one; without a route there is none to check.
  abbrev pub Confirms : SearchStatus → W → PathCheck W → Type 0
  Confirms found cost check = (check.valid ≡ true) × (d.eq check.cost cost ≡ true)
  Confirms unreachable cost check = (check.valid ≡ false) × (check.reason ≡ no_route)

module _ {W : Type 0} ⦃d : Double W⦄ (laws : IsOrdered W) (g : Graph W) (valid : IsValid g)
    (cheapest : (u v : NodeId) (w : W)
      → u < node_count g
      → IsArc g u v w
      → (w' : W) × (link v (row g u) ≡ some w') × (w' ≼ w) × IsArc g u v w')
    (src : NodeId) (src_node : src < node_count g) where
  -- A walk from front to back, by the first arcs, and the walk that these are.
  record Checked (p : List NodeId) (v : NodeId) (c : W) : Type 0 where
    rest : List NodeId
    cost : W
    listed : reverse p ≡ src ∷ rest
    ends : back src rest ≡ v
    end_node : v < node_count g
    linked : Linked g src rest d.nought cost
    cheaper : cost ≼ c
    walk : Walk g src p v cost

  Walk-Checked : {p : List NodeId} {v : NodeId} {c : W} → Walk g src p v c → Checked p v c
  Walk-Checked here = record {
    rest = [];
    cost = d.nought;
    listed = refl;
    ends = refl;
    end_node = src_node;
    linked = last;
    cheaper = laws.nought_refl;
    walk = here;
  }
  Walk-Checked (onward {path = p} {u = u} {c = c} v w walk arc) =
      let k = Walk-Checked walk in
      let (w', e, le, arc') = cheapest u v w k.end_node arc in
      let w_nonneg = (arc-IsArcOf g valid u v w arc).1 in
      let w'_nonneg = (arc-IsArcOf g valid u v w' arc').1 in
      let c_nonneg = walk_nonneg laws g valid walk in
      record {
        rest = k.rest ++ v ∷ [];
        cost = d.add k.cost w';
        listed = reverse-append (v ∷ []) p ∙ ap (λ l. l ++ v ∷ []) k.listed;
        ends = back-concat src v k.rest;
        end_node = (arc-IsArcOf g valid u v w arc).0;
        linked =
            Linked-concat g v w' k.linked (subst (λ t. t < node_count g) (sym k.ends) k.end_node)
              (ap (λ t. link v (row g t)) k.ends ∙ e);
        cheaper =
            laws.le_trans _ _ _
              (laws.add_mono _ _ _ (walk_nonneg laws g valid k.walk) w'_nonneg k.cheaper)
              (le_between (laws.add_comm c w' c_nonneg w'_nonneg)
                (laws.add_comm c w c_nonneg w_nonneg) (laws.add_mono _ _ _ w'_nonneg c_nonneg le));
        walk = onward v w' k.walk arc';
      }

  answer-Confirms :
      (target : NodeId) (status : SearchStatus) (cost : W) (path : List NodeId) (r : SearchResult W)
      → r.status ≡ status
      → r.cost ≡ cost
      → r.path ≡ path
      → IsAnswerOf g src target status cost path
      → Returns (Confirms status cost) (check_path g r src target)
  unfolding check_path
  answer-Confirms target unreachable cost path r status_eq cost_eq path_eq answer =
      rw status_eq (refl, refl)
  answer-Confirms target found cost path r status_eq cost_eq path_eq (walk, _, least) =
      let k = Walk-Checked walk in
      let listed : r.path ≡ src ∷ k.rest = path_eq ∙ (sym (reverse-reverse path) ∙ k.listed) in
      let starts : (src == src) ≡ true = (==_iff src src).1 refl in
      let stops : (back src k.rest == target) ≡ true = (==_iff (back src k.rest) target).1 k.ends in
      let cost_nonneg = walk_nonneg laws g valid walk in
      let check_nonneg = walk_nonneg laws g valid k.walk in
      rw (status_eq, listed, starts, stops, Linked-check g valid k.linked)
        (
          refl,
          ground (
            arith,
            laws.eq-eq-le k.cost cost check_nonneg cost_nonneg,
            k.cheaper,
            least (reverse path) k.cost k.walk,
          ),
        )

module _ {W : Type 0} ⦃d : Double W⦄ (laws : IsOrdered W) where
  built-Confirms :
      (b : Builder W) (inv : IsBuilding b) (source target : NodeId)
      → source < node_count (built b inv)
      → target < node_count (built b inv)
      → Returns
          (λ r. Returns (Confirms r.status r.cost) (check_path (built b inv) r source target))
          (dijkstra (built b inv) source target)
  unfolding make_graph
  built-Confirms b inv source target hs ht =
      let valid = built-IsValid b inv in
      Returns-map _ _ (dijkstra (built b inv) source target)
        (dijkstra-IsAnswer laws (built b inv) valid source target hs ht)
        λ r answer.
          answer-Confirms laws (built b inv) valid (row-link laws b inv) source hs target r.status
            r.cost r.path r refl refl refl answer

  -- On a graph that was built `dijkstra` and the check of its result both return: a route is valid, and
  -- its cost, summed from the cheapest arcs between its nodes, compares equal to the reported one;
  -- without a route the check says so.
  pub dijkstra-Confirms :
      (n : ℕ) (b : Builder W)
      → Reached n b
      → (g : Graph W) (left : Builder W) → build b ≡ ok (g, left)
      → (source target : NodeId) → source < node_count g
      → target < node_count g
      → Returns
          (λ r. Returns (Confirms r.status r.cost) (check_path g r source target))
          (dijkstra g source target)
  dijkstra-Confirms n b reached g left is_built source target hs ht =
      let (inv, same) = build-ok_inverse laws b g left reached is_built in
      subst
        (λ h.
          source < node_count h
          → target < node_count h
          → Returns (λ r. Returns (Confirms r.status r.cost) (check_path h r source target))
              (dijkstra h source target))
        same (built-Confirms b inv source target) hs ht
