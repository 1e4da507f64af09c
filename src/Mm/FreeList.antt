-- ===== src/Mm/FreeList.antt =====
-- mm.c: insertion into and removal from the size classes of the free list. Class 0 holds the
-- blocks of 16 bytes, which have no room for `prev` and form a singly linked list.
pub mod Lists
pub mod Insert
pub mod Remove
pub mod Mini
use malloc_implementation.Base.{ℕ, zero, suc, ◌==◌, if◌then◌else◌}
use malloc_implementation.Machine.{Cmd, out_of_fuel, pure, ◌>>=◌, ◌>>◌, skip, get_seg, set_seg}
use malloc_implementation.Mm.Blocks.{null, get_next, get_prev, set_next, set_prev}

-- The walk of shiftHelper to `block`; `fuel` bounds its rounds.
unfoldable pub shift_helper : ℕ → ℕ → ℕ → ℕ → Cmd (Unit {0})
shift_helper zero block temp prev = λ _. out_of_fuel
shift_helper (suc fuel) block temp prev =
    if temp == block
    then (do next ← get_next temp; set_next prev next)
    else (do next ← get_next temp; shift_helper fuel block next temp)

-- The branch of removeFromFree for the doubly linked classes.
unfoldable pub unlink : ℕ → ℕ → ℕ → Cmd (Unit {0})
unlink index prev next =
    if prev == null
    then (do
      set_seg index next
      if next == null then skip else (do head ← get_seg index; set_prev head null))
    else (do set_next prev next; if next == null then skip else set_prev next prev)

-- The branch of removeFromFree for class 0.
unfoldable pub unlink_mini : ℕ → ℕ → Cmd (Unit {0})
unfolding shift_helper
unlink_mini fuel block = do
  head ← get_seg 0
  if head == block
      then (do next ← get_next head; set_seg 0 next)
      else (do temp ← get_next head; shift_helper fuel block temp head)

unfoldable pub remove_from_free : ℕ → ℕ → ℕ → Cmd (Unit {0})
unfolding unlink unlink_mini
remove_from_free fuel block index = do
  prev ← get_prev block
  next ← get_next block
  if block == null
      then skip
      else if index == 0
      then unlink_mini fuel block
      else unlink index prev next

unfoldable pub add_to_free : ℕ → ℕ → Cmd (Unit {0})
add_to_free block index = if block == null then skip else (do
  add_block ← get_seg index
  if index == 0
      then (do set_seg index block; head ← get_seg index; set_next head add_block)
      else (do
        set_prev block null
        set_next block add_block
        if add_block == null then skip else (do head ← get_seg index; set_prev head block)
        set_seg index block))
