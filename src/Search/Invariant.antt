-- ===== src/Search/Invariant.antt =====
-- What the loops of `search` (src/search.cpp) keep true of its local variables.
use route_engine_cpp.Shared.{
  count, ℕ, suc, ◌≤◌, ◌<◌, ◌≡◌, List, Bool, true, false, length, get_or, All, Memᴰ, ok, Run,
}
use route_engine_cpp.Double.{Double, ◌≼◌}
use route_engine_cpp.Types.{NodeId}
use route_engine_cpp.Graph.{Graph, node_count}
use route_engine_cpp.Graph.Rows.{IsArc}
use route_engine_cpp.Search.{State, Entry, no_parent}
use route_engine_cpp.Search.Queue.{IsQueue}
use route_engine_cpp.Search.Walk.{Trail}

abbrev pub done : List Bool → NodeId → Bool
done settled v = get_or settled v false

abbrev pub parent_of : List NodeId → NodeId → NodeId
parent_of parent v = get_or parent v no_parent

module _ {W : Type 0} ⦃d : Double W⦄ where
  open d use {nought, infinity, add, lt}

  -- What optimality needs of a heuristic: it returns at every node, its values are not negative, no
  -- arc lowers the priority of a route, and adding its value to two costs keeps their order strict.
  pub record IsConsistent (g : Graph W) (estimate : NodeId → Run W) (value : NodeId → W)
      : Type 0 where
    pub returns : (v : NodeId) → v < node_count g → estimate v ≡ ok (value v)
    pub nonneg : (v : NodeId) → nought ≼ value v
    pub along :
        (u v : NodeId) (w c : W)
        → IsArc g u v w
        → nought ≼ c
        → add c (value u) ≼ add (add c w) (value v)
    pub reflects :
        (v : NodeId) (a b : W) → nought ≼ a → nought ≼ b → add a (value v) ≼ add b (value v) → a ≼ b

  abbrev pub dist : List W → NodeId → W
  dist distance v = get_or distance v infinity

  abbrev pub IsReached : List W → NodeId → Type 0
  IsReached distance v = lt (dist distance v) infinity ≡ true

  -- A trail to `v` of the cost that is noted for it, with at most `k` nodes.
  abbrev pub TrailTo : Graph W → NodeId → List W → List NodeId → List Bool → NodeId → ℕ → Type 0
  TrailTo g src distance parent settled v k =
      (path : List NodeId) × Trail g src (done settled) (parent_of parent) path v (dist distance v)
      × (length path ≤ k)

module _ {W : Type 0} ⦃d : Double W⦄ (g : Graph W) (src : NodeId) where
  -- With any heuristic: every cost that is noted is that of a trail.
  pub record Grounded (distance : List W) (parent : List NodeId) (settled : List Bool)
      (queue : List (Entry W)) : Type 0 where
    pub distance_size : length distance ≡ node_count g
    pub parent_size : length parent ≡ node_count g
    pub settled_size : length settled ≡ node_count g
    pub nonneg : (v : NodeId) → d.nought ≼ dist distance v
    pub at_source : dist distance src ≡ d.nought
    pub entries : All (λ e. (e.node < node_count g) × IsReached distance e.node) queue
    pub inner :
        (v : NodeId)
        → done settled v ≡ true
        → TrailTo g src distance parent settled v (count settled) × IsReached distance v
    pub outer :
        (v : NodeId)
        → done settled v ≡ false
        → IsReached distance v
        → TrailTo g src distance parent settled v (suc (count settled))

  abbrev pub IsGrounded : State W → Type 0
  IsGrounded s = Grounded s.distance s.parent s.settled s.queue

module _ {W : Type 0} ⦃d : Double W⦄ (g : Graph W) (src : NodeId) (value : NodeId → W) where
  open d use {add}

  abbrev pub priority_at : List W → NodeId → W
  priority_at distance v = add (dist distance v) (value v)

  -- With a consistent heuristic.
  pub record Frontier (distance : List W) (parent : List NodeId) (settled : List Bool)
      (queue : List (Entry W)) : Type 0 where
    pub grounded : Grounded g src distance parent settled queue
    pub above : All (λ e. priority_at distance e.node ≼ e.priority) queue
    pub ordered : IsQueue queue
    pub waiting :
        (v : NodeId)
        → done settled v ≡ false
        → IsReached distance v
        → (p : W) × Memᴰ (record { priority = p; node = v }) queue × (p ≼ priority_at distance v)
    pub below :
        (x y : NodeId)
        → done settled x ≡ true
        → done settled y ≡ false
        → priority_at distance x ≼ priority_at distance y

  abbrev pub IsFrontier : State W → Type 0
  IsFrontier s = Frontier s.distance s.parent s.settled s.queue

  -- No arc out of a settled node, `but` apart, would improve a distance.
  abbrev pub IsClosed : (but : NodeId → Type 0) → State W → Type 0
  IsClosed but s =
      (x v : NodeId) (w : W)
      → ¬ (but x)
      → done s.settled x ≡ true
      → IsArc g x v w
      → dist s.distance v ≼ add (dist s.distance x) w
