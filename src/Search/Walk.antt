-- ===== src/Search/Walk.antt =====
-- Walks of a graph with their costs, and the walk over the parents of src/search.cpp.
use route_engine_cpp.Shared.{
  ℕ, zero, suc, ◌≤◌, ◌≡◌, ◌≢◌, refl, ◌∙◌, List, [], ◌∷◌, Bool, true, arith, length, get_or, ok,
  ==_iff,
}
use route_engine_cpp.Double.{Double, ◌≼◌}
use route_engine_cpp.Double.Laws.{IsOrdered}
use route_engine_cpp.Types.{NodeId}
use route_engine_cpp.Graph.{Graph}
use route_engine_cpp.Graph.Rows.{IsValid, IsArc, arc-IsArcOf}
use route_engine_cpp.Search.{walk_back, no_parent}

module _ {W : Type 0} ⦃d : Double W⦄ where
  open d use {nought, add}

  -- A walk from `src`, its nodes last first, its end, and its cost: the sum of the weights in the
  -- order in which the walk takes the arcs, with the program's rounded addition.
  pub data Walk (g : Graph W) (src : NodeId) : List NodeId → NodeId → W → Type 0 where
    here : Walk g src (src ∷ []) src nought
    onward :
        {path : List NodeId} {u : NodeId} {c : W} (v : NodeId) (w : W)
        → Walk g src path u c
        → IsArc g u v w
        → Walk g src (v ∷ path) v (add c w)

  -- A walk that the parents spell out backwards, through settled nodes.
  pub data Trail (g : Graph W) (src : NodeId) (settled : NodeId → Bool) (parent : NodeId → NodeId)
      : List NodeId → NodeId → W → Type 0 where
    origin : Trail g src settled parent (src ∷ []) src nought
    follow :
        {path : List NodeId} {u : NodeId} {c : W} (v : NodeId) (w : W)
        → Trail g src settled parent path u c
        → IsArc g u v w
        → settled u ≡ true
        → parent v ≡ u
        → v ≢ src
        → Trail g src settled parent (v ∷ path) v (add c w)

  module _ (laws : IsOrdered W) (g : Graph W) (valid : IsValid g) where
    pub walk_nonneg :
        {src : NodeId} {path : List NodeId} {v : NodeId} {c : W} → Walk g src path v c → nought ≼ c
    walk_nonneg here = laws.nought_refl
    walk_nonneg (onward {u = u} v w walk arc) =
        laws.add_nonneg _ _ (walk_nonneg walk) (arc-IsArcOf g valid u v w arc).1

  module _ {g : Graph W} {src : NodeId} {settled : NodeId → Bool} {parent : NodeId → NodeId} where
    pub Trail-Walk :
        {path : List NodeId} {v : NodeId} {c : W}
        → Trail g src settled parent path v c
        → Walk g src path v c
    Trail-Walk origin = here
    Trail-Walk (follow v w trail arc _ _ _) = onward v w (Trail-Walk trail) arc

    -- Settling more nodes, and a new parent for a node that is not settled, leave a trail to any
    -- other node as it is.
    pub Trail-update :
        {settled' : NodeId → Bool} {parent' : NodeId → NodeId} {path : List NodeId} {v : NodeId}
        {c : W}
        → ((x : NodeId) → settled x ≡ true → settled' x ≡ true)
        → ((x : NodeId) → settled x ≡ true → parent' x ≡ parent x)
        → parent' v ≡ parent v
        → Trail g src settled parent path v c
        → Trail g src settled' parent' path v c
    Trail-update keep same e origin = origin
    Trail-update keep same e (follow {u = u} v w trail arc done up off) =
        follow v w (Trail-update keep same (same u done) trail) arc (keep u done) (e ∙ up) off

module _ {W : Type 0} ⦃d : Double W⦄ where
  -- With fuel for the length of a trail, the walk over the parents returns it.
  pub walk_back-Trail :
      (g : Graph W) (src : NodeId) (settled : NodeId → Bool) (parent : List NodeId)
      {path : List NodeId} {v : NodeId} {c : W} (fuel : ℕ)
      → Trail g src settled (λ x. get_or parent x no_parent) path v c
      → length path ≤ fuel
      → walk_back fuel parent src v ≡ ok path
  unfolding walk_back
  walk_back-Trail g src settled parent zero origin h = absurd (omega arith)
  walk_back-Trail g src settled parent (suc fuel) origin h = rw ((==_iff src src).1 refl)
  walk_back-Trail g src settled parent zero (follow v w t arc done up off) h = absurd (omega arith)
  walk_back-Trail g src settled parent (suc fuel)
        (follow {path = p} {u = u} {c = c} v w t arc done up off) h =
      ground (
        arith,
        up,
        ==_iff v src,
        walk_back-Trail g src settled parent {path = p} {v = u} {c = c} fuel t,
      )
