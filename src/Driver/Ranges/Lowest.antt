-- ===== src/Driver/Ranges/Lowest.antt =====
-- add_range for a payload that begins below every range of the set.
use malloc_implementation.Base.{
  ℕ, ◌+◌, ◌-◌, ◌%◌, ◌≤◌, ◌<◌, ◌≡◌, ◌≢◌, ◌∙◌, sym, refl, arith, true, false, some, ==-ne,
  update_self, update_other,
}
use malloc_implementation.Stree.{tree_find_nearest}
use malloc_implementation.Stree.Entries.{Above}
use malloc_implementation.Stree.Map.{IsMap, entries}
use malloc_implementation.Stree.Nearest.{nearest_key-Above, tree_find_nearest-nearest_key}
use malloc_implementation.Driver.Ranges.{
  RangeSet, Range, DebugMode, is_none, null, range_in_heap, link_range, insert_range, add_range,
}
use malloc_implementation.Base.Word.{word_mod}
use malloc_implementation.Driver.Ranges.Accepted.{last_byte-exact}

-- The set whose list is the new range alone: its record has no successor, and no other record has
-- changed.
pub record OnlyRange (r : RangeSet) (p lo hi index : ℕ) (r' : RangeSet) : Type 0 where
  pub list_is : r'.list ≡ p
  pub record_is : r'.cells p ≡ record { lo = lo; hi = hi; index = index; next = null; prev = null }
  pub others : (q : ℕ) → q ≢ p → r'.cells q ≡ r.cells q

insert_range-OnlyRange :
    (p lo hi index : ℕ) (r : RangeSet)
    → (tree_find_nearest r.lo_tree lo).0 ≡ null
    → (r' : RangeSet) × (insert_range p lo hi index r ≡ (true, r')) × OnlyRange r p lo hi index r'
unfolding insert_range link_range
insert_range-OnlyRange p lo hi index r e =
    let new : Range = record { lo = lo; hi = hi; index = index; next = null; prev = null } in
    (
      link_range p null null lo hi index
          (record r { lo_tree = (tree_find_nearest r.lo_tree lo).1 }),
      rw e refl,
      record {
        list_is = refl;
        record_is = update_self r.cells p new;
        others = λ q ne. update_other r.cells p q new (λ f. ne (sym f));
      },
    )

pub range_in_heap-true :
    (heap_lo heap_hi lo hi : ℕ)
    → lo ≤ hi
    → lo % 16 ≡ 0
    → heap_lo ≤ lo
    → hi ≤ heap_hi
    → range_in_heap heap_lo heap_hi lo hi ≡ true
unfolding range_in_heap
range_in_heap-true heap_lo heap_hi lo hi le aligned low high = ground arith

-- A payload in the heap that begins below every range of the set is accepted, wherever it ends, so
-- also where it runs into the range above it; the list is the new range alone then, and the ranges
-- that it had before are no longer reached from it.
pub add_range-OnlyRange :
    (mode : DebugMode) (heap_lo heap_hi p : ℕ) (r : RangeSet) (lo size index : ℕ)
    → is_none mode ≡ false
    → 0 < size
    → lo % 16 ≡ 0
    → heap_lo ≤ lo
    → lo + size - 1 ≤ heap_hi
    → heap_hi < word_mod
    → IsMap r.lo_tree
    → Above lo (entries r.lo_tree)
    → (r' : RangeSet) × (add_range mode heap_lo heap_hi p r lo size index ≡ some (true, r'))
      × OnlyRange r p lo (lo + size - 1) index r'
unfolding add_range
add_range-OnlyRange mode heap_lo heap_hi p r lo size index on pos aligned low high address m above =
    let exact = last_byte-exact lo size pos (omega arith) in
    let none_below : (tree_find_nearest r.lo_tree lo).0 ≡ null =
      (tree_find_nearest-nearest_key r.lo_tree lo m).0
      ∙ nearest_key-Above lo null (entries r.lo_tree) above in
    let (r', run, only) = insert_range-OnlyRange p lo (lo + size - 1) index r none_below in
    let inside : range_in_heap heap_lo heap_hi lo (lo + size - 1) ≡ true =
      range_in_heap-true heap_lo heap_hi lo (lo + size - 1) (omega arith) aligned low high in
    (r', rw (exact, ==-ne size 0 (omega arith), inside, on, run) refl, only)
