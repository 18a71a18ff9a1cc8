-- ===== src/Search/Queue.antt =====
-- The priority queue of src/search.cpp: an entry that is pushed goes before all that pop after it.
use mathlib.Core.List.Memᴰ
use route_engine_cpp.Shared.{
  suc, ◌≡◌, refl, inl, inr, List, [], ◌∷◌, true, false, arith, length, All, All-map, Memᴰ,
  Bool-cases,
}
use route_engine_cpp.Double.{Double, ◌≼◌}
use route_engine_cpp.Double.Laws.{IsOrdered, le_of_lt}
use route_engine_cpp.Search.{Entry, push, pops_after}

module _ {W : Type 0} ⦃d : Double W⦄ where
  open d use {nought}

  pub length-push : (e : Entry W) (q : List (Entry W)) → length (push e q) ≡ suc (length q)
  unfolding push
  length-push e [] = refl
  length-push e (x ∷ q) = ground (arith, length-push e q)

  pub All-push :
      (P : Entry W → Type 0) (e : Entry W) (q : List (Entry W)) → P e → All P q → All P (push e q)
  unfolding push
  All-push P e [] h hs = (h, tt)
  All-push P e (x ∷ q) h hs = elim (Bool-cases (pops_after e x)) [
    | inl later ↦ rw later (hs.0, All-push P e q h hs.1)
    | inr first ↦ rw first (h, hs)
  ]

  pub push-mem_self : (e : Entry W) (q : List (Entry W)) → Memᴰ e (push e q)
  unfolding push
  push-mem_self e [] = Memᴰ.head refl
  push-mem_self e (x ∷ q) = elim (Bool-cases (pops_after e x)) [
    | inl later ↦ rw later (Memᴰ.tail (push-mem_self e q))
    | inr first ↦ rw first (Memᴰ.head refl)
  ]

  pub push-mem : (e x : Entry W) (q : List (Entry W)) → Memᴰ x q → Memᴰ x (push e q)
  unfolding push
  push-mem e x [] m = absurd (Memᴰ.not-nil m)
  push-mem e x (y ∷ q) m = elim (Bool-cases (pops_after e y)) [
    | inl later ↦ elim (Memᴰ.cases_cons m) [
      | inl same ↦ rw later (Memᴰ.head same)
      | inr old ↦ rw later (Memᴰ.tail (push-mem e x q old))
    ]
    | inr first ↦ rw first (Memᴰ.tail m)
  ]

  -- Each entry has the least priority of those that pop after it.
  abbrev pub IsQueue : List (Entry W) → Type 0
  IsQueue [] = Unit
  IsQueue (e ∷ q) = All (λ x. e.priority ≼ x.priority) q × IsQueue q

  module _ (laws : IsOrdered W) where
    pops_after-le :
        (e x : Entry W)
        → nought ≼ e.priority
        → nought ≼ x.priority
        → pops_after e x ≡ true
        → x.priority ≼ e.priority
    pops_after-le e x p q h =
        ground
          (arith, laws.eq-eq-le e.priority x.priority p q, le_of_lt laws x.priority e.priority q p)

    not_pops_after-le :
        (e x : Entry W)
        → nought ≼ e.priority
        → nought ≼ x.priority
        → pops_after e x ≡ false
        → e.priority ≼ x.priority
    not_pops_after-le e x p q h = ground (
      arith,
      laws.eq-eq-le e.priority x.priority p q,
      laws.lt-eq-not-le x.priority e.priority q p,
    )

    pub push-IsQueue :
        (e : Entry W) (q : List (Entry W))
        → nought ≼ e.priority
        → All (λ x. nought ≼ x.priority) q
        → IsQueue q
        → IsQueue (push e q)
    unfolding push
    push-IsQueue e [] p ps h = (tt, tt)
    push-IsQueue e (x ∷ q) p ps h = elim (Bool-cases (pops_after e x)) [
      | inl later ↦ rw later (
        All-push (λ y. x.priority ≼ y.priority) e q (pops_after-le e x p ps.0 later) h.0,
        push-IsQueue e q p ps.1 h.1,
      )
      | inr first ↦
          let le = not_pops_after-le e x p ps.0 first in
          rw first ((le, All-map (λ y. laws.le_trans e.priority x.priority y.priority le) q h.0), h)
    ]
