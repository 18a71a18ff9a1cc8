-- ===== src/Tests/Ordering.antt =====
-- The arcs of the small network, added in another order.
use mathlib.Core.List.Permᴰ
use mathlib.Core.List.{Permᴰ}
use route_engine_cpp.Shared.{inl, inr, ◌≡◌, refl, List, [], ◌∷◌, arith, some, Run, Returns, ◌>>=◌}
use route_engine_cpp.Double.Extended.{Extended, extended_double, Extended-IsOrdered}
use route_engine_cpp.Builder.{Builder, StagedArc, make_builder, set_node, add_arc, build, sort}
use route_engine_cpp.Builder.Result.{Reached, created, node_set, arc_added}
use route_engine_cpp.Builder.Order.{IsInOrder}
use route_engine_cpp.Builder.Unordered.{AreApart, sort_unique, build_unordered}
use route_engine_cpp.Tests.{at_x, or_nothing, shown, reached}

abbrev staged_otherwise : Run (Builder Extended)
staged_otherwise = do
  b ← make_builder 4
  b ← add_arc 0 1 (some 1) b
  b ← set_node 3 (at_x 9) 13 b
  b ← set_node 0 (at_x 0) 10 b
  b ← set_node 1 (at_x 1) 11 b
  b ← add_arc 1 2 (some 2) b
  b ← set_node 2 (at_x 3) 12 b
  add_arc 0 2 (some 4) b

other : Builder Extended
unfolding make_builder set_node add_arc
other = or_nothing staged_otherwise

other_reached : Reached 4 other
unfolding make_builder set_node add_arc other
other_reached =
    arc_added 0 2 (some 4)
      (node_set 2 (at_x 3) 12
        (arc_added 1 2 (some 2)
          (node_set 1 (at_x 1) 11
            (node_set 0 (at_x 0) 10
              (node_set 3 (at_x 9) 13 (arc_added 0 1 (some 1) (created refl) refl) refl) refl)
            refl)
          refl)
        refl)
      refl

arcs_apart : (arcs : List (StagedArc Extended)) → AreApart arcs
arcs_apart arcs a b m m' source target le ge = ground arith

-- 1 → 2, 0 → 2, 0 → 1 against 0 → 1, 1 → 2, 0 → 2.
same_arcs : Permᴰ shown.staged other.staged
unfolding shown other
same_arcs = Permᴰ.trans (Permᴰ.cons refl (Permᴰ.swap refl refl)) (Permᴰ.swap refl refl)

build_unordered_example : Returns (λ r. Returns (λ r'. r.0 ≡ r'.0) (build other)) (build shown)
unfolding shown other
build_unordered_example =
    build_unordered Extended-IsOrdered 4 shown other reached other_reached refl refl refl refl
      same_arcs (arcs_apart shown.staged)

sorted_arcs : List (StagedArc Extended)
unfolding shown
sorted_arcs =
    record { source = 0; target = 1; weight = some 1 }
    ∷ record { source = 0; target = 2; weight = some 4 }
    ∷ record { source = 1; target = 2; weight = some 2 }
    ∷ []

sorted_arcs-IsInOrder : IsInOrder sorted_arcs
unfolding sorted_arcs
sorted_arcs-IsInOrder =
    ((inr (refl, inl (omega arith)), (inl (omega arith), tt)), ((inl (omega arith), tt), (tt, tt)))

sort_unique_example :
    (sorted_arcs ≡ sort shown.staged)
    × Permᴰ (sort shown.staged) shown.staged
    × IsInOrder (sort shown.staged)
unfolding sorted_arcs shown
sort_unique_example =
    sort_unique Extended-IsOrdered shown.staged sorted_arcs
      (Permᴰ.symm (
        Permᴰ.trans (Permᴰ.cons refl (Permᴰ.swap refl refl))
          (Permᴰ.trans (Permᴰ.swap refl refl) (Permᴰ.cons refl (Permᴰ.swap refl refl)))))
      sorted_arcs-IsInOrder (refl, (refl, (refl, tt))) (arcs_apart sorted_arcs)
