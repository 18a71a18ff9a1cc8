-- ===== src/Generator/Lattice/Passes.antt =====
-- The passes of `generate` (src/generator.cpp) over its lattice: what they keep true of the builder.
use route_engine_cpp.Shared.{
  ℕ, zero, suc, ◌+◌, ◌*◌, ◌≡◌, refl, true, false, Bool, arith, ltb, Option, none, some, length, Run,
  ok, ◌>>=◌, inl, inr, Error, Reason, graph_validation, Ends, Ends-bind, ap, ◌∙◌, ◌>>◌, ◌<◌,
  length-set, length-replicate, eq_or_ne, get_or, set, sym, get_or-set_self, get_or-set_ne,
  get_or-replicate,
}
use route_engine_cpp.Double.{Double}
use route_engine_cpp.Double.Laws.{IsOrdered}
use route_engine_cpp.Types.{Coord, NodeId, ExternalId, to_u32}
use route_engine_cpp.Metric.{no_coord}
use route_engine_cpp.Builder.{Builder, make_builder, set_node, add_arc}
use route_engine_cpp.Builder.Invariant.{IsBuilding}
use route_engine_cpp.Builder.Result.{Reached, node_set, arc_added, Reached-IsBuilding}
use route_engine_cpp.Random.{next_unit}
use route_engine_cpp.Generator.{
  GeneratorParams, Site, for_from, refuse, place, connect, connect_if, backbone, diagonals, lattice,
}

abbrev pub IsValidation : Error → Type 0
IsValidation e = (reason : Reason) × (e ≡ graph_validation reason)

for_from-Ends :
    {S : Type 0} (P : S → Type 0) (body : ℕ → S → Run S) (rounds k : ℕ) (s : S)
    → ((k : ℕ) (s : S) → P s → Ends IsValidation P (body k s))
    → P s
    → Ends IsValidation P (for_from rounds k body s)
unfolding for_from
for_from-Ends P body zero k s step h = h
for_from-Ends P body (suc rounds) k s step h =
    Ends-bind _ _ _ (body k s) _ (step k s h)
      λ s' h'. for_from-Ends P body rounds (k + 1) s' step h'

pub refuse-Ends :
    {B : Type 0} (Q : B → Type 0) (o : Option Reason) (k : Run B)
    → (o ≡ none → Ends IsValidation Q k)
    → Ends IsValidation Q (refuse o >> k)
refuse-Ends Q none k h = h refl
refuse-Ends Q (some r) k h = (r, refl)

module _ {W : Type 0} ⦃d : Double W⦄ where
  -- Every node that is set has the id after its index.
  abbrev pub IsNumbered : Builder W → Type 0
  IsNumbered b = (v : NodeId) → get_or b.assigned v false ≡ true → get_or b.external_ids v 0 ≡ v + 1

  -- The builder of `n` nodes is in use.
  abbrev pub IsKept : ℕ → Site W → Type 0
  IsKept n s = Reached n s.builder × (length s.builder.coordinates ≡ n) × IsNumbered s.builder

  pub make_builder-IsNumbered : (n : ℕ) (b : Builder W) → make_builder n ≡ ok b → IsNumbered b
  unfolding make_builder
  make_builder-IsNumbered n b h v set_v = ground (arith, get_or-replicate n v false)

  set_node-numbers :
      (id : NodeId) (c : Coord W) (e : ExternalId) (b b' : Builder W)
      → set_node id c e b ≡ ok b'
      → (id < length b.coordinates)
        × (b'.assigned ≡ set b.assigned id true)
        × (b'.external_ids ≡ set b.external_ids id e)
  unfolding set_node
  set_node-numbers id c e b b' h = ground arith

  add_arc-numbers :
      (s t : NodeId) (w : W) (b b' : Builder W)
      → add_arc s t w b ≡ ok b'
      → (b'.assigned ≡ b.assigned) × (b'.external_ids ≡ b.external_ids)
  unfolding add_arc
  add_arc-numbers s t w b b' h = ground arith

  set_node-IsNumbered :
      (id : NodeId) (c : Coord W) (b b' : Builder W)
      → IsBuilding b
      → IsNumbered b
      → set_node id c (id + 1) b ≡ ok b'
      → IsNumbered b'
  set_node-IsNumbered id c b b' inv numbered h v set_v =
      let (inside, flags, ids) = set_node-numbers id c (id + 1) b b' h in
      elim (eq_or_ne v id) [
        | inl same ↦
            rw (ids, same)
              (get_or-set_self b.external_ids id (id + 1) 0 (omega (arith, inv.ids_length)))
        | inr ne ↦
            rw
              (ids, get_or-set_ne b.external_ids id (id + 1) 0 (omega (arith, inv.ids_length)) v ne)
              (numbered v (
                sym
                  (get_or-set_ne b.assigned id true false (omega (arith, inv.assigned_length)) v ne)
                ∙ (ap (λ f. get_or f v false) (sym flags) ∙ set_v)))
      ]

  add_arc-IsNumbered :
      (s t : NodeId) (w : W) (b b' : Builder W)
      → IsNumbered b
      → add_arc s t w b ≡ ok b'
      → IsNumbered b'
  add_arc-IsNumbered s t w b b' numbered h v set_v =
      let (flags, ids) = add_arc-numbers s t w b b' h in
      rw ids (numbered v (ap (λ f. get_or f v false) (sym flags) ∙ set_v))

module _ {W : Type 0} ⦃d : Double W⦄ (laws : IsOrdered W) where
  open d use {lt}

  pub make_builder-throws :
      (n : ℕ) → Ends IsValidation (λ b. make_builder {W = W} n ≡ ok b) (make_builder n)
  unfolding make_builder
  make_builder-throws n = ground arith

  set_node-throws :
      (id : NodeId) (c : Coord W) (e : ExternalId) (b : Builder W)
      → Ends IsValidation (λ b'. set_node id c e b ≡ ok b') (set_node id c e b)
  unfolding set_node
  set_node-throws id c e b = ground arith

  add_arc-throws :
      (s t : NodeId) (w : W) (b : Builder W)
      → Ends IsValidation (λ b'. add_arc s t w b ≡ ok b') (add_arc s t w b)
  unfolding add_arc
  add_arc-throws s t w b = ground arith

  set_node-size :
      (id : NodeId) (c : Coord W) (e : ExternalId) (b b' : Builder W)
      → set_node id c e b ≡ ok b'
      → length b'.coordinates ≡ length b.coordinates
  unfolding set_node
  set_node-size id c e b b' h = ground (arith, length-set b.coordinates id c)

  add_arc-size :
      (s t : NodeId) (w : W) (b b' : Builder W)
      → add_arc s t w b ≡ ok b'
      → length b'.coordinates ≡ length b.coordinates
  unfolding add_arc
  add_arc-size s t w b b' h = ground arith

  pub make_builder-size : (n : ℕ) (b : Builder W) → make_builder n ≡ ok b → length b.coordinates ≡ n
  unfolding make_builder
  make_builder-size n b h = ground (arith, length-replicate n (no_coord {W = W}))

  module _ (p : GeneratorParams W) (n : ℕ) where
    pub place-Ends :
        (row col : ℕ) (s : Site W) → IsKept n s → Ends IsValidation (IsKept n) (place p row col s)
    unfolding place
    place-Ends row col s h =
        Ends-bind _ _ _ (set_node _ _ _ s.builder) _ (set_node-throws _ _ _ s.builder) λ b e. (
          node_set _ _ _ h.0 e,
          set_node-size _ _ _ s.builder b e ∙ h.1,
          set_node-IsNumbered _ _ s.builder b (Reached-IsBuilding laws h.0) h.2 e,
        )

    connect-Ends :
        (a b : NodeId) (s : Site W) → IsKept n s → Ends IsValidation (IsKept n) (connect p a b s)
    unfolding connect
    connect-Ends a b s h =
        Ends-bind _ _ _ (add_arc a b _ s.builder) _ (add_arc-throws a b _ s.builder) λ b' e.
          Ends-bind _ _ _ (add_arc b a _ b') _ (add_arc-throws b a _ b') λ b'' e'. (
            arc_added b a _ (arc_added a b _ h.0 e) e',
            add_arc-size b a _ b' b'' e' ∙ (add_arc-size a b _ s.builder b' e ∙ h.1),
            add_arc-IsNumbered b a _ b' b'' (add_arc-IsNumbered a b _ s.builder b' h.2 e) e',
          )

    connect_if-Ends :
        (test : Bool) (a b : NodeId) (s : Site W)
        → IsKept n s
        → Ends IsValidation (IsKept n) (connect_if p test a b s)
    unfolding connect_if
    connect_if-Ends true a b s h = connect-Ends a b s h
    connect_if-Ends false a b s h = h

    pair-Ends :
        (test : Bool) (a b : NodeId) (s : Site W) (test' : Site W → Bool) (a' b' : NodeId)
        (f : Site W → Site W)
        → IsKept n s
        → ((s : Site W) → IsKept n s → IsKept n (f s))
        → Ends IsValidation
            (IsKept n)
            (connect_if p test a b s >>= λ s'. connect_if p (test' s') a' b' (f s'))
    pair-Ends test a b s test' a' b' f h kept =
        Ends-bind _ _ _ (connect_if p test a b s) _ (connect_if-Ends test a b s h)
          λ s' h'. connect_if-Ends (test' s') a' b' (f s') (kept s' h')

    pub backbone-Ends :
        (row col : ℕ) (s : Site W)
        → IsKept n s
        → Ends IsValidation (IsKept n) (backbone p row col s)
    unfolding backbone
    backbone-Ends row col s h =
        let i = to_u32 (row * p.width + col) in
        pair-Ends (ltb (col + 1) p.width) i (to_u32 (i + 1)) s (λ _. ltb (row + 1) p.height) i
          (to_u32 (i + p.width)) (λ s'. s') h (λ s' h'. h')

    pub diagonals-Ends :
        (row col : ℕ) (s : Site W)
        → IsKept n s
        → Ends IsValidation (IsKept n) (diagonals p row col s)
    unfolding diagonals
    diagonals-Ends row col s h =
        let i = to_u32 (row * p.width + col) in
        let below = to_u32 (i + p.width) in
        let after : Site W → Site W = λ s'. record s' { rng = (next_unit {W = W} s'.rng).1 } in
        pair-Ends (lt (next_unit {W = W} s.rng).0 p.diagonal_rate) i (to_u32 (below + 1)) (after s)
          (λ s'. lt (next_unit {W = W} s'.rng).0 p.diagonal_rate) (to_u32 (i + 1)) below after h
          (λ s' h'. h')

    pub lattice-Ends :
        (rows cols : ℕ) (body : ℕ → ℕ → Site W → Run (Site W)) (s : Site W)
        → ((row col : ℕ) (s : Site W) → IsKept n s → Ends IsValidation (IsKept n) (body row col s))
        → IsKept n s
        → Ends IsValidation (IsKept n) (lattice p rows cols body s)
    lattice-Ends rows cols body s step h =
        for_from-Ends (IsKept n) (λ row. for_from cols 0 (body row)) rows 0 s
          (λ row s h. for_from-Ends (IsKept n) (body row) cols 0 s (step row) h) h
