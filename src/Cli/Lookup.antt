-- ===== src/Cli/Lookup.antt =====
-- `find_node` and `path_ids` of src/cli/main.cpp: from external ids to nodes, and back.
use route_engine_cpp.Shared.{
  ℕ, zero, suc, ◌+◌, ◌<◌, ◌≤◌, ◌≡◌, ◌≢◌, sym, ap, ◌∙◌, false, eq_or_ne, get_or, ◌==◌, ==_iff,
  Bool-cases, inl, inr, List, [], ◌∷◌, arith, Option, none, some, Both, All, ok, Returns,
  Returns-map, Returns-step, Returns-bind,
}
use route_engine_cpp.Double.{Double}
use route_engine_cpp.Double.Laws.{IsOrdered}
use route_engine_cpp.Search.Walk.{Walk, here, onward}
use route_engine_cpp.Graph.Rows.{IsValid, external_id-ok, arc-IsArcOf}
use route_engine_cpp.Types.{NodeId, ExternalId}
use route_engine_cpp.Graph.{Graph, node_count, external_id}
use route_engine_cpp.Csv.Loads.{ok-eq}
use route_engine_cpp.Cli.{find_from, find_node}
use route_engine_cpp.Cli.Route.{path_ids}

module _ {W : Type 0} (g : Graph W) (id : ExternalId) where
  -- The first node with the id, or no node has it.
  abbrev pub FoundFrom : ℕ → Option NodeId → Type 0
  FoundFrom i none = (v : NodeId) → i ≤ v → v < node_count g → external_id g v ≢ ok id
  FoundFrom i (some v) =
      (v < node_count g)
      × (external_id g v ≡ ok id)
      × ((u : NodeId) → i ≤ u → u < v → external_id g u ≢ ok id)

  module _ ⦃d : Double W⦄ where
    differs :
        (i : NodeId)
        → external_id g i ≡ ok (get_or g.external_ids i 0)
        → get_or g.external_ids i 0 == id ≡ false
        → external_id g i ≢ ok id
    differs i at other e =
        let same : get_or g.external_ids i 0 ≡ id = ok-eq (sym at ∙ e) in
        let t = (==_iff (get_or g.external_ids i 0) id).1 same in ground (arith, t, other)

    later :
        (i : NodeId)
        → external_id g i ≢ ok id
        → (found : Option NodeId) → FoundFrom (i + 1) found
        → FoundFrom i found
    later i this (some v) (h, e, before) = (
      h,
      e,
      λ u low less. elim (eq_or_ne u i) [
        | inl same ↦ rw same this
        | inr ne ↦ before u (omega arith) less
      ],
    )
    later i this none h = λ v low high. elim (eq_or_ne v i) [
      | inl same ↦ rw same this
      | inr ne ↦ h v (omega arith) high
    ]

    find_from-Returns :
        (rounds i : ℕ) → i + rounds ≡ node_count g → Returns (FoundFrom i) (find_from g id rounds i)
    unfolding find_from
    find_from-Returns zero i e = λ v low high. absurd (omega arith)
    find_from-Returns (suc rounds) i e =
        let h : i < node_count g = omega arith in
        let at = external_id-ok g i h in
        let here = get_or g.external_ids i 0 in
        elim (Bool-cases (here == id)) [
          | inl same ↦
              let e' = (==_iff here id).0 same in
              rw (at, same) (h, at ∙ ap ok e', λ u low less. absurd (omega arith))
          | inr other ↦
              rw (at, other)
                (Returns-map _ _ (find_from g id rounds (i + 1))
                  (find_from-Returns rounds (i + 1) (omega arith)) (later i (differs i at other)))
        ]

    -- `find_node` returns the first node with the id, or there is none.
    pub find_node-Returns : Returns (FoundFrom 0) (find_node g id)
    unfolding find_node
    find_node-Returns = find_from-Returns (node_count g) 0 (omega arith)

module _ {W : Type 0} ⦃d : Double W⦄ (g : Graph W) where
  -- The external ids of a path, in order.
  pub path_ids-Returns :
      (path : List NodeId)
      → All (λ v. v < node_count g) path
      → Returns (Both (λ v id. external_id g v ≡ ok id) path) (path_ids g path)
  unfolding path_ids
  path_ids-Returns [] h = tt
  path_ids-Returns (v ∷ path) (h, rest) = Returns-step _ _ (external_id-ok g v h) (
      Returns-bind _ _ (path_ids g path) _ (path_ids-Returns path rest)
        λ ids all. (external_id-ok g v h, all))

module _ {W : Type 0} ⦃d : Double W⦄ (laws : IsOrdered W) (g : Graph W) (valid : IsValid g) where
  pub Walk-All :
      {src v : NodeId} {path : List NodeId} {c : W}
      → src < node_count g
      → Walk g src path v c
      → All (λ u. u < node_count g) path
  Walk-All h here = (h, tt)
  Walk-All h (onward {u = u} v w walk arc) = ((arc-IsArcOf g valid u v w arc).0, Walk-All h walk)
