-- ===== src/Driver/Ranges.antt =====
-- mdriver.c: the set of live payload ranges, a doubly linked list of records in the order of their
-- addresses and a splay tree from the low address to the record. A record is known by its pointer;
-- the pointer that the C library's malloc gives to a new record is an argument.
pub mod Accepted
pub mod Lowest
pub mod Spans
pub mod Linked
pub mod Inserted
pub mod Added
pub mod Removed
use malloc_implementation.Base.{
  ℕ, ◌+◌, ◌-◌, ◌%◌, Bool, true, false, not, ◌&&◌, ◌||◌, Option, none, some, ltb, leb, ◌==◌,
  if◌then◌else◌, update,
}
use malloc_implementation.Base.Word.{add64, sub64}
use malloc_implementation.Stree.{SplayTree, tree_new, tree_insert, tree_find_nearest, tree_remove}

abbrev pub null : ℕ
null = 0

abbrev pub alignment : ℕ
alignment = 16

-- range_t
pub record Range : Type 0 where
  pub lo : ℕ
  pub hi : ℕ
  pub index : ℕ
  pub next : ℕ
  pub prev : ℕ

-- range_set_t, with the records at their pointers
pub record RangeSet : Type 0 where
  pub list : ℕ
  pub lo_tree : SplayTree
  pub cells : ℕ → Range

pub data DebugMode : Type 0 where
  dbg_none dbg_cheap dbg_expensive : DebugMode

abbrev pub is_none : DebugMode → Bool
is_none dbg_none = true
is_none _ = false

unfoldable pub new_range_set : (ℕ → Range) → RangeSet
unfolding tree_new
new_range_set cells = record { list = null; lo_tree = tree_new; cells = cells }

-- `r->next = q` and `r->prev = q`
unfoldable pub set_next : ℕ → ℕ → (ℕ → Range) → ℕ → Range
set_next r q cells = update cells r (record (cells r) { next = q })

unfoldable pub set_prev : ℕ → ℕ → (ℕ → Range) → ℕ → Range
set_prev r q cells = update cells r (record (cells r) { prev = q })

-- The record of a payload linked between `prev` and `next`.
unfoldable pub link_range : ℕ → ℕ → ℕ → ℕ → ℕ → ℕ → RangeSet → RangeSet
unfolding set_next set_prev
link_range p prev next lo hi index r =
    let cells =
      update r.cells p (record { lo = lo; hi = hi; index = index; next = next; prev = prev }) in
    let cells' = if prev == null then cells else set_next prev p cells in
    record {
      list = if prev == null then p else r.list;
      lo_tree = (tree_insert r.lo_tree lo p).1;
      cells = if next == null then cells' else set_prev next p cells';
    }

-- The tests of a payload against the alignment and the extent of the heap.
unfoldable pub range_in_heap : ℕ → ℕ → ℕ → ℕ → Bool
range_in_heap heap_lo heap_hi lo hi =
    lo % alignment == 0
    && not (ltb lo heap_lo || ltb heap_hi lo || ltb hi heap_lo || ltb heap_hi hi)

-- The search for the neighbours of a payload, and its insertion where it overlaps neither.
unfoldable pub insert_range : ℕ → ℕ → ℕ → ℕ → RangeSet → Bool × RangeSet
unfolding link_range
insert_range p lo hi index r =
    let (prev, tree) = tree_find_nearest r.lo_tree lo in
    let next = if prev == null then null else (r.cells prev).next in
    let r' : RangeSet = record r { lo_tree = tree } in
    if not (prev == null) && leb lo (r.cells prev).hi
    then (false, r')
    else if not (next == null) && leb (r.cells next).lo hi
    then (false, r')
    else (true, link_range p prev next lo hi index r')

-- `lo + size - 1`; the pointer wraps.
unfoldable pub last_byte : (lo size : ℕ) → ℕ
last_byte lo size = sub64 (add64 lo size) 1

-- add_range; `none` stands for the failure of its assertion that the size is positive.
unfoldable pub add_range :
    DebugMode → (heap_lo heap_hi p : ℕ) → RangeSet → (lo size index : ℕ) → Option (Bool × RangeSet)
unfolding range_in_heap insert_range last_byte
add_range mode heap_lo heap_hi p r lo size index =
    let hi = last_byte lo size in
    if size == 0
    then none
    else if not (range_in_heap heap_lo heap_hi lo hi)
    then some (false, r)
    else if is_none mode
    then some (true, r)
    else some (insert_range p lo hi index r)

-- The links of a record's neighbours after its removal.
unfoldable pub unlink_range : ℕ → RangeSet → RangeSet
unfolding set_next set_prev
unlink_range p r =
    let prev = (r.cells p).prev in
    let next = (r.cells p).next in
    let cells = if prev == null then r.cells else set_next prev next r.cells in
    record r {
      list = if prev == null then next else r.list;
      cells = if next == null then cells else set_prev next prev cells;
    }

unfoldable pub remove_range : RangeSet → ℕ → RangeSet
unfolding unlink_range
remove_range r lo =
    let (p, tree) = tree_remove r.lo_tree lo in
    let r' : RangeSet = record r { lo_tree = tree } in if p == null then r' else unlink_range p r'
