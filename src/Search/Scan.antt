-- ===== src/Search/Scan.antt =====
-- The loop over the arcs of a settled node (src/search.cpp): it returns, keeps the invariant, and
-- leaves no arc of the node that would improve a distance.
use route_engine_cpp.Shared.{
  ℕ, suc, ◌+◌, ◌≤◌, ◌<◌, ◌≡◌, refl, ap, subst, ◌∙◌, inl, inr, List, [], ◌∷◌, true, arith, length,
  All, Memᴰ, Run, Returns, Returns-bind, Returns-map, Bool-cases,
}
use route_engine_cpp.Double.{Double, ◌≼◌}
use route_engine_cpp.Double.Laws.{IsOrdered, le_of_not_lt, le_between}
use route_engine_cpp.Types.{NodeId, Arc}
use route_engine_cpp.Graph.{Graph, node_count, row}
use route_engine_cpp.Graph.Rows.{IsValid, IsArc, arc-IsArcOf}
use route_engine_cpp.Search.{State, relax, scan}
use route_engine_cpp.Search.Queue.{length-push}
use route_engine_cpp.Search.Invariant.{IsConsistent, IsFrontier, dist, done, priority_at}
use route_engine_cpp.Search.Relax.{improved_lem}

module _ {W : Type 0} ⦃d : Double W⦄ (laws : IsOrdered W) (g : Graph W) (valid : IsValid g)
    (src : NodeId) (estimate : NodeId → Run W) (value : NodeId → W)
    (heuristic : IsConsistent g estimate value) where
  open d use {nought, infinity, add, lt}

  -- What arcs from a settled node change: `s'` comes after `s`, and at most `k` entries are new.
  pub record Scanned (k : ℕ) (s s' : State W) : Type 0 where
    pub frontier : IsFrontier g src value s'
    pub settled_same : s'.settled ≡ s.settled
    pub lower : (x : NodeId) → dist s'.distance x ≼ dist s.distance x
    pub kept : (x : NodeId) → done s.settled x ≡ true → dist s'.distance x ≡ dist s.distance x
    pub grows : length s'.queue ≤ length s.queue + k

  -- `u` is settled, and no settled node comes after it.
  pub record IsCurrent (u : NodeId) (s : State W) : Type 0 where
    pub is_node : u < node_count g
    pub is_done : done s.settled u ≡ true
    pub is_last :
        (x : NodeId)
        → done s.settled x ≡ true
        → priority_at g src value s.distance x ≼ priority_at g src value s.distance u

  unchanged-Scanned :
      (k : ℕ) (s s' : State W)
      → IsFrontier g src value s
      → s'.distance ≡ s.distance
      → s'.parent ≡ s.parent
      → s'.settled ≡ s.settled
      → s'.queue ≡ s.queue
      → Scanned k s s'
  unchanged-Scanned k s s' inv e₁ e₂ e₃ e₄ = record {
    frontier = rw (e₁, e₂, e₃, e₄) inv;
    settled_same = e₃;
    lower = λ x. rw e₁ (laws.le_refl _ (inv.grounded.nonneg x));
    kept = λ x h. rw e₁;
    grows = rw e₄ (omega arith);
  }

  relax-Returns :
      (u v : NodeId) (w : W) (s : State W)
      → IsFrontier g src value s
      → IsCurrent u s
      → IsArc g u v w
      → Returns
          (λ s'. Scanned 1 s s' × (dist s'.distance v ≼ add (dist s.distance u) w))
          (relax g estimate u (dist s.distance u) (record { target = v; weight = w }) s)
  unfolding relax
  relax-Returns u v w s inv cur arc = elim (Bool-cases (done s.settled v)) [
    | inl old ↦ rw old (unchanged-Scanned 1 s _ inv refl refl refl refl, old_le old)
    | inr open_v ↦ elim (Bool-cases (lt (add (dist s.distance u) w) (dist s.distance v))) [
      | inl better ↦
          let (inv', lower, kept, self) =
            improved_lem laws g valid src estimate value heuristic s.distance s.parent s.settled
              s.queue inv u v w (add (dist s.distance u) w) refl cur.is_done cur.is_node cur.is_last
              arc open_v better in
          rw (open_v, better, heuristic.returns v v_node)
            (
              record {
                frontier = inv';
                settled_same = refl;
                lower = lower;
                kept = kept;
                grows = omega (arith, length-push {W = W} _ s.queue);
              },
              self,
            )
      | inr worse ↦
          rw (open_v, worse)
            (
              unchanged-Scanned 1 s _ inv refl refl refl refl,
              le_of_not_lt laws _ _ candidate_nonneg (inv.grounded.nonneg v) worse,
            )
    ]
  ]
    where
      v_node : v < node_count g
      v_node = (arc-IsArcOf g valid u v w arc).0

      candidate_nonneg : nought ≼ add (dist s.distance u) w
      candidate_nonneg =
          laws.add_nonneg _ _ (inv.grounded.nonneg u) (arc-IsArcOf g valid u v w arc).1

      old_le : done s.settled v ≡ true → dist s.distance v ≼ add (dist s.distance u) w
      old_le old = heuristic.reflects v _ _ (inv.grounded.nonneg v) candidate_nonneg (
          laws.le_trans _ _ _ (cur.is_last v old)
            (heuristic.along u v w (dist s.distance u) arc (inv.grounded.nonneg u)))

  Scanned-IsCurrent :
      (k : ℕ) (u : NodeId) (s s' : State W) → Scanned k s s' → IsCurrent u s → IsCurrent u s'
  Scanned-IsCurrent k u s s' h cur = record {
    is_node = cur.is_node;
    is_done = rw h.settled_same cur.is_done;
    is_last = λ x done_x.
        let was : done s.settled x ≡ true = rw h.settled_same at done_x in
        le_between (ap (λ t. add t (value x)) (h.kept x was))
          (ap (λ t. add t (value u)) (h.kept u cur.is_done)) (cur.is_last x was);
  }

  Scanned-trans :
      (j k : ℕ) (s s' s'' : State W) → Scanned j s s' → Scanned k s' s'' → Scanned (j + k) s s''
  Scanned-trans j k s s' s'' p q = record {
    frontier = q.frontier;
    settled_same = q.settled_same ∙ p.settled_same;
    lower = λ x. laws.le_trans _ _ _ (q.lower x) (p.lower x);
    kept = λ x h. q.kept x (rw p.settled_same h) ∙ p.kept x h;
    grows = omega (arith, p.grows, q.grows);
  }

  -- From a cost `c` of the node that they leave, the arcs would improve nothing.
  abbrev pub AreRelaxed : W → List (Arc W) → State W → Type 0
  AreRelaxed c arcs s = All (λ a. dist s.distance a.target ≼ add c a.weight) arcs

  pub scan-Returns :
      (u : NodeId) (c : W) (arcs : List (Arc W)) (s : State W)
      → IsFrontier g src value s
      → IsCurrent u s
      → dist s.distance u ≡ c
      → All (λ a. Memᴰ a (row g u)) arcs
      → Returns
          (λ s'. Scanned (length arcs) s s' × AreRelaxed c arcs s')
          (scan g estimate u c arcs s)
  unfolding scan
  scan-Returns u c [] s inv cur e mem = (unchanged-Scanned 0 s s inv refl refl refl refl, tt)
  scan-Returns u c (a ∷ arcs) s inv cur e mem =
      Returns-bind (λ s'. Scanned 1 s s' × (dist s'.distance a.target ≼ add c a.weight))
        (λ s'. Scanned (suc (length arcs)) s s' × AreRelaxed c (a ∷ arcs) s')
        (relax g estimate u c a s) (scan g estimate u c arcs)
        (subst
          (λ t.
            Returns (λ s'. Scanned 1 s s' × (dist s'.distance a.target ≼ add t a.weight))
              (relax g estimate u t a s))
          e (relax-Returns u a.target a.weight s inv cur mem.0))
        λ s' (one, fit).
          Returns-map (λ s''. Scanned (length arcs) s' s'' × AreRelaxed c arcs s'')
            (λ s''. Scanned (suc (length arcs)) s s'' × AreRelaxed c (a ∷ arcs) s'')
            (scan g estimate u c arcs s')
            (scan-Returns u c arcs s' one.frontier (Scanned-IsCurrent 1 u s s' one cur)
              (one.kept u cur.is_done ∙ e) mem.1)
            λ s'' (more, fits). (
              subst (λ k. Scanned k s s'') (omega arith)
                  (Scanned-trans 1 (length arcs) s s' s'' one more),
              (laws.le_trans _ _ _ (more.lower a.target) fit, fits),
            )
