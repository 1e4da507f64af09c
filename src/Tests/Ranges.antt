-- ===== src/Tests/Ranges.antt =====
-- The driver's set of ranges with one range in it.
use malloc_implementation.Base.{◌+◌, ◌-◌, ◌≡◌, ◌↔◌, refl, arith, Bool, true, false, some}
use malloc_implementation.Stree.{leaf, node, tree_find_nearest, nearest_loop, nearer}
use malloc_implementation.Driver.Ranges.{RangeSet, null, dbg_cheap, add_range}
use malloc_implementation.Base.{[], ◌∷◌}
use malloc_implementation.Driver.Ranges.{remove_range}
use malloc_implementation.Driver.Ranges.Spans.{Span, WellRanged}
use malloc_implementation.Driver.Ranges.Added.{Adds, add_range-WellRanged}
use malloc_implementation.Driver.Ranges.Removed.{remove_range-WellRanged}
use malloc_implementation.Driver.Ranges.Lowest.{OnlyRange, add_range-OnlyRange}
use malloc_implementation.Stree.Map.{IsMap}
use malloc_implementation.Stree.Inorder.{inorder}
use malloc_implementation.Driver.Ranges.Accepted.{Acceptable, add_range-Acceptable}

-- The range from 80 to 99 in the record at 5.
abbrev one_range : RangeSet
one_range = record {
  list = 5;
  lo_tree = record { root = node leaf 80 5 leaf; node_count = 1; comparison_count = 0 };
  cells = λ p. record { lo = 80; hi = 99; index = 0; next = null; prev = null };
}

add_range-Acceptable_example :
    (b : Bool) × (r : RangeSet) × (add_range dbg_cheap 64 1023 6 one_range 96 20 1 ≡ some (b, r))
    × ((b ≡ true) ↔ Acceptable 64 1023 one_range 96 (96 + 20 - 1))
    × (b ≡ false → (r.list ≡ 5) × (r.cells ≡ one_range.cells))
add_range-Acceptable_example =
    add_range-Acceptable dbg_cheap 64 1023 6 one_range 96 20 1 refl (omega arith) (omega arith)

one_range-IsMap : IsMap one_range.lo_tree
unfolding inorder
one_range-IsMap = record { increasing = (tt, tt); counted = refl }

-- The payload from 64 to 83 overlaps the range.
add_range-OnlyRange_example :
    (r : RangeSet) × (add_range dbg_cheap 64 1023 6 one_range 64 20 1 ≡ some (true, r))
    × OnlyRange one_range 6 64 (64 + 20 - 1) 1 r
unfolding inorder
add_range-OnlyRange_example =
    add_range-OnlyRange dbg_cheap 64 1023 6 one_range 64 20 1 refl (omega arith) refl (omega arith)
      (omega arith) (omega arith) one_range-IsMap (omega arith, tt)

abbrev first_span : Span
first_span = record { ptr = 5; lo = 80; hi = 99 }

one_range-WellRanged : WellRanged one_range (first_span ∷ [])
unfolding inorder
one_range-WellRanged = record {
  chain = (refl, omega arith, refl, refl, refl, refl);
  disjoint = (omega arith, tt, tt);
  is_map = one_range-IsMap;
  held = refl;
}

one_range-Acceptable : Acceptable 64 1023 one_range 112 (112 + 20 - 1)
unfolding tree_find_nearest nearest_loop nearer
one_range-Acceptable = record {
  aligned = refl;
  low = omega arith;
  high = omega arith;
  behind_prev = λ ne. omega arith;
  before_next = λ ne ne_next. absurd (ne_next refl);
}

add_range-WellRanged_example :
    (r : RangeSet) × (add_range dbg_cheap 64 1023 6 one_range 112 20 1 ≡ some (true, r))
    × Adds one_range (first_span ∷ []) (record { ptr = 6; lo = 112; hi = 112 + 20 - 1 }) r
add_range-WellRanged_example =
    add_range-WellRanged dbg_cheap 64 1023 6 one_range 112 20 1 (first_span ∷ []) refl (omega arith)
      (omega arith) one_range-WellRanged (omega arith) (omega arith) (omega arith) (omega arith)
      one_range-Acceptable

remove_range-WellRanged_example : WellRanged (remove_range one_range 80) []
remove_range-WellRanged_example =
    remove_range-WellRanged one_range [] first_span [] one_range-WellRanged (omega arith)
