-- ===== src/Reference/Paths/Links.antt =====
-- The rows of a graph that was built (src/builder.cpp): the first arc to a node is the cheapest, as
-- tests/support/path_checker.hpp relies on.
use mathlib.Core.List.Memᴰ
use route_engine_cpp.Shared.{
  ◌≡◌, ◌<◌, refl, ap, sym, ◌∙◌, subst, inl, inr, List, [], ◌∷◌, map, arith, some, All, All-map,
  All-get, Memᴰ, Bool-cases, ==_iff, ◌==◌, length,
}
use route_engine_cpp.Double.{Double, ◌≼◌}
use route_engine_cpp.Double.Laws.{IsOrdered}
use route_engine_cpp.Types.{Arc, NodeId}
use route_engine_cpp.Graph.{row}
use route_engine_cpp.Graph.Rows.{IsArc}
use route_engine_cpp.Builder.{Builder, StagedArc, sort, to_arc}
use route_engine_cpp.Builder.Sort.{All-sort}
use route_engine_cpp.Builder.Invariant.{IsBuilding}
use route_engine_cpp.Builder.Build.{built, All-map_of}
use route_engine_cpp.Builder.Partition.{outgoing, row-built}
use route_engine_cpp.Builder.Canonical.{IsWeighed}
use route_engine_cpp.Builder.Order.{
  NotAfter, NotAfter-weight, IsInOrder, sort-IsInOrder, All-outgoing, outgoing-IsInOrder,
}
use route_engine_cpp.Reference.Paths.{link}

module _ {W : Type 0} ⦃d : Double W⦄ (laws : IsOrdered W) where
  -- Of arcs with one source and one target the first is the cheapest.
  cheapest-All :
      (a : StagedArc W) (u : NodeId) (arcs : List (StagedArc W))
      → IsWeighed a
      → a.source ≡ u
      → All (λ b. IsWeighed b × (b.source ≡ u)) arcs
      → All (NotAfter a) arcs
      → All (λ b. a.target ≡ b.target → a.weight ≼ b.weight) arcs
  cheapest-All a u [] ha e h o = tt
  cheapest-All a u (b ∷ arcs) ha e h o =
      (λ same. NotAfter-weight a b o.0 (e ∙ sym h.0.1) same, cheapest-All a u arcs ha e h.1 o.1)

  -- The first arc to `v` is there if any is, and no other to `v` is cheaper.
  link-first :
      (u v : NodeId) (w : W) (arcs : List (StagedArc W))
      → All (λ a. IsWeighed a × (a.source ≡ u)) arcs
      → IsInOrder arcs
      → Memᴰ (record { target = v; weight = w }) (map to_arc arcs)
      → (w' : W) × (link v (map to_arc arcs) ≡ some w')
        × (w' ≼ w)
        × Memᴰ (record { target = v; weight = w' }) (map to_arc arcs)
  unfolding link
  link-first u v w [] h o m = absurd (Memᴰ.not-nil m)
  link-first u v w (a ∷ arcs) h o m = elim (Bool-cases (a.target == v)) [
    | inl same ↦
        let e = (==_iff a.target v).0 same in
        let least : a.weight ≼ w = elim (Memᴰ.cases_cons m) [
          | inl first ↦ rw (ap (λ x. x.weight) first) (laws.le_refl a.weight h.0.0)
          | inr later ↦
              All-get (λ (x : Arc W). a.target ≡ x.target → a.weight ≼ x.weight) (map to_arc arcs)
                (All-map_of to_arc _ arcs (cheapest-All a u arcs h.0.0 h.0.1 h.1 o.0)) later e
        ] in
        rw same
          (a.weight, refl, least, Memᴰ.head (λ i. record { target = sym e i; weight = a.weight }))
    | inr other ↦ elim (Memᴰ.cases_cons m) [
      | inl first ↦ absurd (ground (arith, ap (λ x. x.target) first))
      | inr later ↦
          let (w', e, le, mem) = link-first u v w arcs h.1 o.1 later in
          rw other (w', e, le, Memᴰ.tail mem)
    ]
  ]

  -- In the row of a node that was built.
  pub row-link :
      (b : Builder W) (inv : IsBuilding b) (u v : NodeId) (w : W)
      → u < length b.coordinates
      → IsArc (built b inv) u v w
      → (w' : W) × (link v (row (built b inv) u) ≡ some w') × (w' ≼ w) × IsArc (built b inv) u v w'
  row-link b inv u v w h arc =
      let weighed = All-map (λ a k. k.3) b.staged inv.staged_fit in
      let sorted = sort b.staged in
      let in_order = outgoing-IsInOrder u sorted (sort-IsInOrder laws b.staged weighed) in
      let e = row-built b inv u h in
      let (w', found, le, mem) =
        link-first u v w (outgoing u sorted)
          (All-outgoing IsWeighed u sorted (All-sort IsWeighed b.staged weighed)) in_order
          (subst (Memᴰ _) e arc) in
      (w', ap (link v) e ∙ found, le, subst (Memᴰ _) (sym e) mem)
