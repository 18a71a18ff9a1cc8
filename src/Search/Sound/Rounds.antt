-- ===== src/Search/Sound/Rounds.antt =====
-- A round of the loop of `search` (src/search.cpp) with any heuristic that returns: it ends, with fewer
-- rounds left, and every noted cost stays that of a trail.
use mathlib.Core.List.{Memᴰ}
use route_engine_cpp.Shared.{
  ℕ, suc, ◌+◌, ◌≤◌, ◌<◌, ◌≡◌, refl, ap, subst, ◌∙◌, inl, inr, List, [], ◌∷◌, true, arith, length,
  set, All, All-self, ok, Run, Returns, Returns-bind, Returns-map, Returns-ok, ◌>>=◌, ◌==◌, ==_iff,
  Bool-cases,
}
use route_engine_cpp.Double.{Double}
use route_engine_cpp.Double.Laws.{IsOrdered}
use route_engine_cpp.Types.{NodeId, Arc}
use route_engine_cpp.Graph.{Graph, node_count, row}
use route_engine_cpp.Graph.Rows.{IsValid, arc-IsArcOf, arcs_from-ok}
use route_engine_cpp.Search.{State, Entry, Round, next, reached, relax, scan, round}
use route_engine_cpp.Search.Queue.{length-push}
use route_engine_cpp.Search.Invariant.{Grounded, IsGrounded, dist, done}
use route_engine_cpp.Search.Grounded.{
  improved-Grounded, improved-kept, stale-Grounded, settled_at, settle-Grounded,
}
use route_engine_cpp.Search.Work.{rounds_left, work, work-set}

module _ {W : Type 0} ⦃d : Double W⦄ (g : Graph W) (src : NodeId) where
  -- After `k` arcs: as many new entries at most, and the same settled nodes with the same distances.
  record Advanced (k : ℕ) (s s' : State W) : Type 0 where
    grounded : IsGrounded g src s'
    settled_same : s'.settled ≡ s.settled
    grows : length s'.queue ≤ length s.queue + k
    kept : (x : NodeId) → done s.settled x ≡ true → dist s'.distance x ≡ dist s.distance x

module _ {W : Type 0} ⦃d : Double W⦄ (g : Graph W) (src target : NodeId) where
  abbrev pub RoundEnds : State W → Round W → Type 0
  RoundEnds s (next s') = IsGrounded g src s' × (rounds_left g s' < rounds_left g s)
  RoundEnds s (reached s') = IsGrounded g src s' × (done s'.settled target ≡ true)

module _ {W : Type 0} ⦃d : Double W⦄ (laws : IsOrdered W) (g : Graph W) (valid : IsValid g)
    (src : NodeId) (estimate : NodeId → Run W)
    (returns : (v : NodeId) → v < node_count g → Returns (λ _. Unit) (estimate v))
    (target : NodeId) where
  open d use {nought, infinity, add, lt}

  relax-Advanced :
      (u : NodeId) (a : Arc W) (s : State W)
      → IsGrounded g src s
      → u < node_count g
      → done s.settled u ≡ true
      → Memᴰ a (row g u)
      → Returns (Advanced g src 1 s) (relax g estimate u (dist s.distance u) a s)
  unfolding relax
  relax-Advanced u a s inv u_node u_done mem = elim (Bool-cases (done s.settled a.target)) [
    | inl old ↦
        simp old
          (record { grounded = inv; settled_same = refl; grows = omega arith; kept = λ x h. refl })
    | inr open_v ↦
        elim (Bool-cases (lt (add (dist s.distance u) a.weight) (dist s.distance a.target))) [
          | inr worse ↦
              simp (open_v, worse)
                (record {
                  grounded = inv;
                  settled_same = refl;
                  grows = omega arith;
                  kept = λ x h. refl;
                })
          | inl better ↦
              let (h, e, _) =
                Returns-ok _ (estimate a.target)
                  (returns a.target (arc-IsArcOf g valid u a.target a.weight mem).0) in
              simp (open_v, better, e)
                (record {
                  grounded =
                      improved-Grounded laws g valid src s.distance s.parent s.settled s.queue inv u
                        a.target a.weight (add (dist s.distance u) a.weight) refl u_done u_node mem
                        open_v better _ refl;
                  settled_same = refl;
                  grows = omega (arith, length-push {W = W} _ s.queue);
                  kept =
                      improved-kept laws g valid src s.distance s.parent s.settled s.queue inv u
                        a.target a.weight (add (dist s.distance u) a.weight) refl u_done u_node mem
                        open_v better;
                })
        ]
  ]

  scan-Advanced :
      (u : NodeId) (c : W) (arcs : List (Arc W)) (s : State W)
      → IsGrounded g src s
      → u < node_count g
      → done s.settled u ≡ true
      → dist s.distance u ≡ c
      → All (λ a. Memᴰ a (row g u)) arcs
      → Returns (Advanced g src (length arcs) s) (scan g estimate u c arcs s)
  unfolding scan
  scan-Advanced u c [] s inv u_node u_done e mem = record {
    grounded = inv;
    settled_same = refl;
    grows = omega arith;
    kept = λ x h. refl;
  }
  scan-Advanced u c (a ∷ arcs) s inv u_node u_done e mem =
      Returns-bind (Advanced g src 1 s) (Advanced g src (suc (length arcs)) s)
        (relax g estimate u c a s) (scan g estimate u c arcs)
        (subst (λ t. Returns (Advanced g src 1 s) (relax g estimate u t a s)) e
          (relax-Advanced u a s inv u_node u_done mem.0))
        λ s' one.
          Returns-map (Advanced g src (length arcs) s') (Advanced g src (suc (length arcs)) s)
            (scan g estimate u c arcs s')
            (scan-Advanced u c arcs s' one.grounded u_node
              (ap (λ f. done f u) one.settled_same ∙ u_done) (one.kept u u_done ∙ e) mem.1)
            λ s'' more. record {
              grounded = more.grounded;
              settled_same = more.settled_same ∙ one.settled_same;
              grows = omega (arith, one.grows, more.grows);
              kept = λ x h. more.kept x (ap (λ f. done f x) one.settled_same ∙ h) ∙ one.kept x h;
            }

  module _ (s : State W) (entry : Entry W) (rest : List (Entry W)) (head : s.queue ≡ entry ∷ rest)
      (inv : IsGrounded g src s) where
    opened : Grounded g src s.distance s.parent s.settled (entry ∷ rest)
    opened = rw head at inv

    u_node : entry.node < node_count g
    u_node = opened.entries.0.0

    follow-Ends :
        (s₁ : State W)
        → IsGrounded g src s₁
        → done s₁.settled entry.node ≡ true
        → rounds_left g s₁ + length (row g entry.node) < rounds_left g s
        → Returns (RoundEnds g src target s) (
            scan g estimate entry.node (dist s₁.distance entry.node) (row g entry.node) s₁ >>= λ s'.
            ok (next s'))
    follow-Ends s₁ inv₁ u_done less =
        Returns-bind (Advanced g src (length (row g entry.node)) s₁) (RoundEnds g src target s)
          (scan g estimate entry.node (dist s₁.distance entry.node) (row g entry.node) s₁)
          (λ s'. ok (next s'))
          (scan-Advanced entry.node _ (row g entry.node) s₁ inv₁ u_node u_done refl
            (All-self (row g entry.node)))
          λ s' h. (h.grounded, omega (arith, h.grows, less, ap (work g 0) h.settled_same))

    pub round-Ends :
        Returns
          (RoundEnds g src target s)
          (round g estimate target entry (record s { queue = rest }))
    unfolding round
    round-Ends = elim (Bool-cases (done s.settled entry.node)) [
      | inl stale ↦ rw stale (
        stale-Grounded g src s.distance s.parent s.settled entry rest opened,
        omega (arith, ap length head),
      )
      | inr fresh ↦
          let settled =
            settle-Grounded g src s.distance s.parent s.settled entry rest opened fresh in
          let at = settled_at g src s.distance s.parent s.settled entry rest opened fresh in
          rw fresh (elim (Bool-cases (entry.node == target)) [
            | inl hit ↦ rw hit (
              settled,
              subst (λ t. done (set s.settled entry.node true) t ≡ true)
                  ((==_iff entry.node target).0 hit) at,
            )
            | inr miss ↦
                rw (miss, arcs_from-ok g valid entry.node u_node)
                  (follow-Ends _ settled at (
                    omega (
                      arith,
                      ap length head,
                      work-set g s.settled entry.node (omega (arith, opened.settled_size, u_node))
                          fresh,
                    )))
          ])
    ]
