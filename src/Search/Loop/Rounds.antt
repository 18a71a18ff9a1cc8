-- ===== src/Search/Loop/Rounds.antt =====
-- A round of the `while` loop of `search` (src/search.cpp) with a consistent heuristic.
use route_engine_cpp.Shared.{
  ℕ, ◌+◌, ◌<◌, ◌≡◌, ◌≢◌, refl, sym, ap, subst, ◌∙◌, inl, inr, List, ◌∷◌, true, false, arith, length,
  set, All-get, All-self, ok, Run, Returns, Returns-bind, ◌>>=◌, ◌==◌, ==_iff, Bool-cases, eq_or_ne,
}
use route_engine_cpp.Double.{Double, ◌≼◌}
use route_engine_cpp.Double.Laws.{IsOrdered, le_between}
use route_engine_cpp.Types.{NodeId, Arc}
use route_engine_cpp.Graph.{Graph, node_count, row}
use route_engine_cpp.Graph.Rows.{IsValid, IsArc, arcs_from-ok}
use route_engine_cpp.Search.{State, SearchStats, Entry, Round, next, reached, round, scan}
use route_engine_cpp.Search.Invariant.{
  IsConsistent, Frontier, IsFrontier, IsClosed, dist, done, priority_at,
}
use route_engine_cpp.Search.Scan.{Scanned, IsCurrent, AreRelaxed, scan-Returns}
use route_engine_cpp.Search.Grounded.{settled_at, settled_other}
use route_engine_cpp.Search.Settle.{stale-Frontier, settle-Frontier, settle-last}
use route_engine_cpp.Search.Work.{rounds_left, work, work-set}

module _ {W : Type 0} ⦃d : Double W⦄ (laws : IsOrdered W) (g : Graph W) (valid : IsValid g)
    (src : NodeId) (estimate : NodeId → Run W) (value : NodeId → W)
    (heuristic : IsConsistent g estimate value) (target : NodeId) where
  open d use {nought, infinity, add, lt}

  -- Before each round.
  pub record IsOpen (s : State W) : Type 0 where
    pub frontier : IsFrontier g src value s
    pub closed : IsClosed g src value (λ _. ⊥) s
    pub unfinished : done s.settled target ≡ false

  -- At the `break`: the target is settled, and only its own arcs have not been followed.
  pub record IsFinal (s : State W) : Type 0 where
    pub frontier : IsFrontier g src value s
    pub closed : IsClosed g src value (λ x. x ≡ target) s
    pub finished : done s.settled target ≡ true
    pub last :
        (x : NodeId)
        → done s.settled x ≡ true
        → priority_at g src value s.distance x ≼ priority_at g src value s.distance target

  abbrev pub RoundEnds : State W → Round W → Type 0
  RoundEnds s (next s') = IsOpen s' × (rounds_left g s' < rounds_left g s)
  RoundEnds s (reached s') = IsFinal s'

  -- After the arcs of `u` the invariant of the loop holds again.
  Scanned-IsClosed :
      (u : NodeId) (k : ℕ) (s s' : State W)
      → Scanned laws g valid src estimate value heuristic k s s'
      → IsClosed g src value (λ x. x ≡ u) s
      → done s.settled u ≡ true
      → AreRelaxed laws g valid src estimate value heuristic (dist s.distance u) (row g u) s'
      → IsClosed g src value (λ _. ⊥) s'
  Scanned-IsClosed u k s s' h closed done_u fits x v w _ done_x arc =
      let was : done s.settled x ≡ true = rw h.settled_same at done_x in
      let same = h.kept x was in
      elim (eq_or_ne x u) [
        | inl e ↦ le_between refl (ap (λ t. add t w) (same ∙ ap (dist s.distance) e)) (
            All-get (λ (a : Arc W). dist s'.distance a.target ≼ add (dist s.distance u) a.weight)
              (row g u) fits (subst (λ t. IsArc g t v w) e arc))
        | inr ne ↦
            le_between refl (ap (λ t. add t w) same)
              (laws.le_trans _ _ _ (h.lower v) (closed x v w ne was arc))
      ]

  -- A node that is not the target: its arcs are followed.
  follow-Returns :
      (s s₁ : State W) (u : NodeId)
      → IsFrontier g src value s₁
      → IsCurrent laws g valid src estimate value heuristic u s₁
      → IsClosed g src value (λ x. x ≡ u) s₁
      → done s₁.settled target ≡ false
      → rounds_left g s₁ + length (row g u) < rounds_left g s
      → Returns
          (RoundEnds s)
          (scan g estimate u (dist s₁.distance u) (row g u) s₁ >>= λ s'. ok (next s'))
  follow-Returns s s₁ u inv cur closed open_t less =
      Returns-bind
        (λ s'.
          Scanned laws g valid src estimate value heuristic (length (row g u)) s₁ s'
          × AreRelaxed laws g valid src estimate value heuristic (dist s₁.distance u) (row g u) s')
        (RoundEnds s) (scan g estimate u (dist s₁.distance u) (row g u) s₁) (λ s'. ok (next s'))
        (scan-Returns laws g valid src estimate value heuristic u (dist s₁.distance u) (row g u) s₁
          inv cur refl (All-self (row g u)))
        λ s' (scanned, fits). (
          record {
            frontier = scanned.frontier;
            closed = Scanned-IsClosed u _ s₁ s' scanned closed cur.is_done fits;
            unfinished = ap (λ f. done f target) scanned.settled_same ∙ open_t;
          },
          omega (arith, scanned.grows, ap (work g 0) scanned.settled_same),
        )

  module _ (s : State W) (entry : Entry W) (rest : List (Entry W)) (head : s.queue ≡ entry ∷ rest)
      (inv : IsOpen s) where
    frontier : Frontier g src value s.distance s.parent s.settled (entry ∷ rest)
    frontier = rw head at inv.frontier

    u_node : entry.node < node_count g
    u_node = frontier.grounded.entries.0.0

    module _ (fresh : done s.settled entry.node ≡ false) where
      settled-Frontier :
          Frontier g src value s.distance s.parent (set s.settled entry.node true) rest
      settled-Frontier =
          settle-Frontier laws g src estimate value heuristic s.distance s.parent s.settled entry
            rest frontier fresh

      settled_closed :
          (x v : NodeId) (w : W)
          → x ≢ entry.node
          → done (set s.settled entry.node true) x ≡ true
          → IsArc g x v w
          → dist s.distance v ≼ add (dist s.distance x) w
      settled_closed x v w ne done_x arc =
          inv.closed x v w (λ b. b)
            (sym (
                settled_other g src s.distance s.parent s.settled entry rest frontier.grounded fresh
                  x ne)
              ∙ done_x)
            arc

      settled_last :
          (x : NodeId)
          → done (set s.settled entry.node true) x ≡ true
          → priority_at g src value s.distance x ≼ priority_at g src value s.distance entry.node
      settled_last =
          settle-last laws g src estimate value heuristic s.distance s.parent s.settled entry rest
            frontier fresh

      settled_done : done (set s.settled entry.node true) entry.node ≡ true
      settled_done =
          settled_at g src s.distance s.parent s.settled entry rest frontier.grounded fresh

      less_work :
          work g 0 (set s.settled entry.node true) + length (row g entry.node) ≡ work g 0 s.settled
      less_work =
          work-set g s.settled entry.node (omega (arith, frontier.grounded.settled_size, u_node))
            fresh

    still_open :
        done s.settled entry.node ≡ false
        → entry.node ≢ target
        → done (set s.settled entry.node true) target ≡ false
    still_open fresh ne =
        settled_other g src s.distance s.parent s.settled entry rest frontier.grounded fresh target
          (λ e. ne (sym e))
        ∙ inv.unfinished

    hit-IsFinal :
        (fresh : done s.settled entry.node ≡ false) (t : SearchStats)
        → entry.node ≡ target
        → IsFinal (record s { settled = set s.settled entry.node true; queue = rest; stats = t })
    hit-IsFinal fresh t e = record {
      frontier = settled-Frontier fresh;
      closed = λ x v w ne. settled_closed fresh x v w (λ same. ne (same ∙ e));
      finished = subst (λ t. done (set s.settled entry.node true) t ≡ true) e (settled_done fresh);
      last = λ x h.
          subst (λ t. priority_at g src value s.distance x ≼ priority_at g src value s.distance t) e
            (settled_last fresh x h);
    }

    pub round-Returns :
        Returns (RoundEnds s) (round g estimate target entry (record s { queue = rest }))
    unfolding round
    round-Returns = elim (Bool-cases (done s.settled entry.node)) [
      | inl stale ↦ rw stale (
        record {
          frontier =
              stale-Frontier laws g src estimate value heuristic s.distance s.parent s.settled entry
                rest frontier stale;
          closed = inv.closed;
          unfinished = inv.unfinished;
        },
        omega (arith, ap length head),
      )
      | inr fresh ↦ rw fresh (elim (Bool-cases (entry.node == target)) [
        | inl hit ↦ rw hit (hit-IsFinal fresh _ ((==_iff entry.node target).0 hit))
        | inr miss ↦
            rw (miss, arcs_from-ok g valid entry.node u_node)
              (follow-Returns s _ entry.node (settled-Frontier fresh)
                (record {
                  is_node = u_node;
                  is_done = settled_done fresh;
                  is_last = settled_last fresh;
                })
                (settled_closed fresh)
                (still_open fresh (λ same. ground (arith, ==_iff entry.node target)))
                (omega (arith, ap length head, less_work fresh)))
      ])
    ]
