-- ===== src/Search/Work.antt =====
-- Why the loop of `search` (src/search.cpp) ends: each round takes one entry from the queue, and the
-- arcs of a node can add entries once only.
use route_engine_cpp.Shared.{
  ℕ, zero, suc, ◌+◌, ◌-◌, ◌≤◌, ◌<◌, ◌≡◌, ap, List, [], ◌∷◌, Bool, true, false, arith, length,
  get_or, set, replicate,
}
use route_engine_cpp.Double.{Double}
use route_engine_cpp.Search.{State}
use route_engine_cpp.Types.{NodeId}
use route_engine_cpp.Graph.{Graph, node_count, arc_count, row}
use route_engine_cpp.Graph.Rows.{IsValid, length-row, offset-le}

module _ {W : Type 0} (g : Graph W) where
  -- The arcs that leave the nodes from `i` on which are not settled.
  pub work : NodeId → List Bool → ℕ
  work i [] = 0
  work i (true ∷ bs) = work (suc i) bs
  work i (false ∷ bs) = length (row g i) + work (suc i) bs

  work-set_from :
      (bs : List Bool) (i k j : NodeId)
      → i + k ≡ j
      → k < length bs
      → get_or bs k false ≡ false
      → work i (set bs k true) + length (row g j) ≡ work i bs
  unfolding work
  work-set_from [] i k j e h o = absurd (omega arith)
  work-set_from (false ∷ bs) i zero j e h o = let e' : i ≡ j = omega arith in rw e' (omega arith)
  work-set_from (true ∷ bs) i zero j e h o = cc
  work-set_from (true ∷ bs) i (suc k) j e h o =
      work-set_from bs (suc i) k j (omega arith) (omega arith) o
  work-set_from (false ∷ bs) i (suc k) j e h o =
      omega (arith, work-set_from bs (suc i) k j (omega arith) (omega arith) o)

  pub work-set :
      (bs : List Bool) (k : NodeId)
      → k < length bs
      → get_or bs k false ≡ false
      → work 0 (set bs k true) + length (row g k) ≡ work 0 bs
  work-set bs k h o = work-set_from bs 0 k k (omega arith) h o

module _ {W : Type 0} ⦃d : Double W⦄ (g : Graph W) (valid : IsValid g) where
  work-replicate :
      (k i : ℕ)
      → i + k ≤ node_count g
      → get_or g.offsets i 0 + work g i (replicate k false) ≤ arc_count g
  unfolding work
  work-replicate zero i h = omega (arith, offset-le g valid (node_count g - i) i (omega arith))
  work-replicate (suc k) i h =
      let next : i + 1 ≡ suc i = omega arith in
      omega (
        arith,
        length-row g valid i (omega arith),
        ap (λ t. get_or g.offsets t 0) next,
        work-replicate k (suc i) (omega arith),
      )

  -- All the arcs of the graph at most.
  pub work-start : work g 0 (replicate (node_count g) false) ≤ arc_count g
  work-start = omega (arith, work-replicate (node_count g) 0 (omega arith))

module _ {W : Type 0} (g : Graph W) where
  -- An upper bound of the rounds that are left.
  abbrev pub rounds_left : State W → ℕ
  rounds_left s = length s.queue + work g 0 s.settled
