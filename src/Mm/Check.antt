-- ===== src/Mm/Check.antt =====
-- mm.c: mm_checkheap, without the messages that it prints. `fuel` bounds the walk over the blocks.
pub mod Reads
pub mod Empty
use malloc_implementation.Base.{
  ℕ, zero, suc, ◌+◌, ◌-◌, ◌%◌, Bool, true, false, not, ◌&&◌, ◌||◌, ltb, ◌==◌, if◌then◌else◌,
}
use malloc_implementation.Base.Word.{add64}
use malloc_implementation.MemLib.{mem_heap_lo, mem_heap_hi}
use malloc_implementation.Machine.{
  Machine, Cmd, done, out_of_fuel, pure, ◌>>=◌, ◌>>◌, load, get_start, get_seg,
}
use malloc_implementation.Mm.Header.{wsize, num_segs}
use malloc_implementation.Mm.Blocks.{
  null, get_size, get_alloc, get_next, get_prev, header_to_footer, find_next, find_prev,
}

-- The value of a variable of memlib.c.
unfoldable pub heap_lo : Cmd ℕ
unfolding mem_heap_lo
heap_lo h = done (mem_heap_lo h.region) h

unfoldable pub heap_hi : Cmd ℕ
unfolding mem_heap_hi
heap_hi h = done (mem_heap_hi h.region) h

unfoldable pub check_alignment : ℕ → ℕ → Bool
check_alignment block n = block % 16 == n

-- `if (!test) return false;`
abbrev pub ensure : Bool → Cmd Bool → Cmd Bool
ensure test rest = if test then rest else pure false

-- The prologue and the epilogue: a header of size 0 that is marked as allocated.
unfoldable pub check_end : ℕ → ℕ → Cmd Bool
unfolding check_alignment
check_end block n = do
  alloc ← get_alloc block
  size ← get_size block
  ensure (not (ltb 0 size || not alloc)) (pure (check_alignment block n))

-- `block->next == NULL || block->next->prev == block`
unfoldable pub check_links : ℕ → Cmd Bool
check_links block = do
  next ← get_next block
  if next == null then pure true else (do prev ← get_prev next; pure (prev == block))

-- The tests on the neighbours of a free block.
unfoldable pub check_neighbours : ℕ → Cmd Bool
check_neighbours block = do
  next ← find_next block
  next_alloc ← get_alloc next
  ensure next_alloc (do
    prev ← find_prev block
    if prev == null then pure true else (do prev_alloc ← get_alloc prev; pure (not prev_alloc)))

-- The tests of a block that read its tags and links.
unfoldable pub check_tags : ℕ → Bool → Cmd Bool
unfolding check_links check_neighbours
check_tags block alloc = do
  header ← load block
  footer_at ← header_to_footer block
  footer ← load footer_at
  ensure (header == footer) (
      if alloc
      then pure true
      else (do good ← check_neighbours block; ensure good (check_links block)))

-- The body of the walk over the heap, after the counting.
unfoldable pub check_block : ℕ → ℕ → ℕ → Bool → Cmd Bool
unfolding check_alignment check_tags
check_block start epilogue block alloc =
    ensure (check_alignment block 8)
      (ensure (not (ltb block start || ltb epilogue block)) (check_tags block alloc))

-- The walk, with the number of free blocks met so far; the flag tells whether all tests passed.
unfoldable pub check_blocks : ℕ → ℕ → ℕ → ℕ → ℕ → Cmd (Bool × ℕ)
unfolding check_block
check_blocks zero start epilogue block free_blocks = λ _. out_of_fuel
check_blocks (suc fuel) start epilogue block free_blocks =
    if block == epilogue then pure (true, free_blocks) else (do
      alloc ← get_alloc block
      good ← check_block start epilogue block alloc
      let count = if alloc then free_blocks else free_blocks + 1
      if good
          then (do next ← find_next block; check_blocks fuel start epilogue next count)
          else pure (false, count))

-- The loop over the classes from `i`, of which `rounds` are left, with the free heads counted.
unfoldable pub check_segs : ℕ → ℕ → ℕ → ℕ → ℕ → Cmd (Bool × ℕ)
unfolding check_links
check_segs zero i start epilogue heads = pure (true, heads)
check_segs (suc rounds) i start epilogue heads = do
  block ← get_seg i
  if ltb block start || ltb epilogue block then pure (false, heads) else (do
    alloc ← get_alloc block
    good ← (if alloc then pure true else check_links block)
    if good
        then check_segs rounds (i + 1) start epilogue (if alloc then heads else heads + 1)
        else pure (false, heads))

-- The checks of a heap whose first block lies at `start`.
unfoldable pub check_from : ℕ → ℕ → Cmd Bool
unfolding heap_lo heap_hi check_end check_blocks check_segs
check_from fuel start = do
  prologue ← heap_lo
  first_good ← check_end prologue 0
  ensure first_good (do
    last ← heap_hi
    let epilogue = last + 1 - wsize
    last_good ← check_end epilogue 8
    ensure last_good (do
      (good, free_blocks) ← check_blocks fuel start epilogue start 0
      ensure good (do
        (segs_good, heads) ← check_segs num_segs 0 start epilogue 0
        ensure segs_good (pure (heads == free_blocks)))))

unfoldable pub mm_checkheap : ℕ → Cmd Bool
unfolding check_from
mm_checkheap fuel = do
  start ← get_start
  if start == null then pure false else check_from fuel start
