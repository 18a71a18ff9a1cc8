-- ===== src/Search/Start.antt =====
-- The variables of `search` (src/search.cpp) before its loop.
use route_engine_cpp.Shared.{
  count, ℕ, suc, ◌+◌, ◌<◌, ◌≡◌, ◌≢◌, refl, sym, ap, subst, ◌∙◌, inl, inr, List, [], ◌∷◌, true,
  false, arith, length, set, replicate, Run, Returns, length-set, length-replicate,
  get_or-replicate, Memᴰ, get_or-set_self, get_or-set_ne, eq_or_ne,
}
use route_engine_cpp.Double.{Double, ◌≼◌}
use route_engine_cpp.Double.Laws.{IsOrdered, le_between, nought-add-le, le-nought-add}
use route_engine_cpp.Types.{NodeId}
use route_engine_cpp.Graph.{Graph, node_count, arc_count}
use route_engine_cpp.Graph.Rows.{IsValid}
use route_engine_cpp.Search.{Entry, start, push, no_parent}
use route_engine_cpp.Search.Walk.{Trail, origin}
use route_engine_cpp.Search.Invariant.{
  IsConsistent, Grounded, Frontier, TrailTo, IsReached, dist, done, priority_at, parent_of,
}
use route_engine_cpp.Search.Loop.{IsOpen}
use route_engine_cpp.Search.Work.{rounds_left, work-start}

module _ {W : Type 0} ⦃d : Double W⦄ (laws : IsOrdered W) (g : Graph W) (src : NodeId)
    (src_node : src < node_count g) where
  open d use {nought, infinity, lt}

  abbrev n : ℕ
  n = node_count g

  abbrev blank : List W
  blank = set (replicate n infinity) src nought

  in_range : src < length (replicate n infinity)
  in_range = omega (arith, length-replicate n infinity, src_node)

  at_src : dist blank src ≡ nought
  at_src = get_or-set_self (replicate n infinity) src nought infinity in_range

  at_other : (x : NodeId) → x ≢ src → dist blank x ≡ infinity
  at_other x ne =
      get_or-set_ne (replicate n infinity) src nought infinity in_range x ne
      ∙ get_or-replicate n x infinity

  infinity_nonneg : nought ≼ infinity
  infinity_nonneg = laws.le-infinity nought laws.nought_refl

  reached-src : (x : NodeId) → IsReached blank x → x ≡ src
  reached-src x h = elim (eq_or_ne x src) [
    | inl e ↦ e
    | inr ne ↦
        let far : lt infinity infinity ≡ true =
          subst (λ t. lt t infinity ≡ true) (at_other x ne) h in
        absurd (
          ground (
            arith,
            laws.lt-eq-not-le infinity infinity infinity_nonneg infinity_nonneg,
            laws.le_refl infinity infinity_nonneg,
          ))
  ]

  nothing_done : (x : NodeId) → done (replicate n false) x ≡ true → ⊥
  nothing_done x h = ground (arith, get_or-replicate n x false)

  IsReached-src : IsReached blank src
  IsReached-src = subst (λ t. lt t infinity ≡ true) (sym at_src) laws.nought-lt-infinity

  trail_src :
      (y : NodeId)
      → y ≡ src
      → TrailTo g src blank
          (replicate n no_parent)
          (replicate n false)
          y
          (suc (count (replicate n false)))
  trail_src y e =
      subst
        (λ t.
          TrailTo g src blank (replicate n no_parent) (replicate n false) t
            (suc (count (replicate n false))))
        (sym e)
        (
          src ∷ [],
          subst
              (λ t.
                Trail g src (done (replicate n false)) (parent_of (replicate n no_parent))
                  (src ∷ []) src t)
              (sym at_src) origin,
          omega arith,
        )

  pub start-Grounded :
      (h : W)
      → Grounded g src blank
          (replicate n no_parent)
          (replicate n false)
          (record { priority = h; node = src } ∷ [])
  start-Grounded h = record {
    distance_size = length-set (replicate n infinity) src nought ∙ length-replicate n infinity;
    parent_size = length-replicate n no_parent;
    settled_size = length-replicate n false;
    nonneg = λ x. elim (eq_or_ne x src) [
      | inl e ↦ subst (λ t. nought ≼ dist blank t) (sym e) (le_between refl at_src laws.nought_refl)
      | inr ne ↦ le_between refl (at_other x ne) infinity_nonneg
    ];
    at_source = at_src;
    entries = ((src_node, IsReached-src), tt);
    inner = λ x h. absurd (nothing_done x h);
    outer = λ y _ reached. trail_src y (reached-src y reached);
  }

module _ {W : Type 0} ⦃d : Double W⦄ (laws : IsOrdered W) (g : Graph W) (valid : IsValid g)
    (src : NodeId) (estimate : NodeId → Run W) (value : NodeId → W)
    (heuristic : IsConsistent g estimate value) (src_node : src < node_count g) where
  open d use {nought, infinity, add}

  abbrev m : ℕ
  m = node_count g

  abbrev first_distances : List W
  first_distances = set (replicate m infinity) src nought

  grounded :
      Grounded g src first_distances
        (replicate m no_parent)
        (replicate m false)
        (record { priority = value src; node = src } ∷ [])
  grounded = start-Grounded laws g src src_node (value src)

  waiting_src :
      (y : NodeId)
      → y ≡ src
      → (p : W) × Memᴰ {A = Entry W}
          (record { priority = p; node = y })
          (record { priority = value src; node = src } ∷ [])
        × (p ≼ priority_at g src value first_distances y)
  waiting_src y e = (
    value src,
    Memᴰ.head (ap (λ t. record { priority = value src; node = t }) e),
    subst (λ t. value src ≼ priority_at g src value first_distances t) (sym e)
        (le_between refl (ap (λ t. add t (value src)) grounded.at_source)
          (le-nought-add laws (value src) (heuristic.nonneg src))),
  )

  start-Frontier :
      Frontier g src value first_distances
        (replicate m no_parent)
        (replicate m false)
        (record { priority = value src; node = src } ∷ [])
  start-Frontier = record {
    grounded = grounded;
    above = (
      le_between (ap (λ t. add t (value src)) grounded.at_source) refl
          (nought-add-le laws (value src) (heuristic.nonneg src)),
      tt,
    );
    ordered = (tt, tt);
    waiting = λ y _ reached. waiting_src y (reached-src laws g src src_node y reached);
    below = λ x y h. absurd (nothing_done laws g src src_node x h);
  }

  -- The loop begins with its invariant, and with rounds left for one entry and all the arcs.
  pub start-Returns :
      (target : NodeId)
      → Returns
          (λ s.
            IsOpen laws g valid src estimate value heuristic target s
            × (rounds_left g s < arc_count g + 2))
          (start g estimate src)
  unfolding start push
  start-Returns target = rw (heuristic.returns src src_node) (
    record {
      frontier = start-Frontier;
      closed = λ x v w _ h. absurd (nothing_done laws g src src_node x h);
      unfinished = get_or-replicate m target false;
    },
    omega (arith, work-start g valid),
  )
