-- ===== src/Mm/Alloc.antt =====
-- mm.c: mm_init, malloc, free, realloc and calloc, with split_block. `fuel` bounds the walks over
-- the free lists.
pub mod Zeroed
pub mod Mark
pub mod Place
pub mod Cut
pub mod Split
pub mod Placed
pub mod Listed
pub mod Served
pub mod Exact
pub mod Freed
pub mod Refused
pub mod Init
pub mod First
pub mod Grown
use malloc_implementation.Base.{
  ℕ, zero, suc, ◌+◌, ◌*◌, ◌/◌, Bool, true, false, ltb, leb, ◌==◌, if◌then◌else◌,
}
use malloc_implementation.Base.Word.{sub64, mul64}
use malloc_implementation.MemLib.{sbrk_failed}
use malloc_implementation.MemLib.Copy.{mem_memcpy, mem_memset}
use malloc_implementation.Machine.{
  Cmd, pure, ◌>>=◌, ◌>>◌, skip, load, store, sbrk, get_start, set_start, set_seg,
}
use malloc_implementation.Mm.Header.{
  wsize, min_block_size, chunksize, num_segs, or_bit, max, pack, find_index, adjusted_size,
}
use malloc_implementation.Mm.Blocks.{
  null, payload_to_header, header_to_payload, get_size, get_alloc, get_payload_size, find_next,
  write_block,
}
use malloc_implementation.Mm.FreeList.{add_to_free}
use malloc_implementation.Mm.Coalesce.{remove_sized, coalesce_block, extend_heap}
use malloc_implementation.Mm.Fit.{find_fit}

-- `next->header = next->header | 0x2`
unfoldable pub mark_prev_alloc : ℕ → Cmd (Unit {0})
mark_prev_alloc next = do w ← load next; store next (or_bit w 1)

-- `write_block(next, get_size(next), get_alloc(next))`
unfoldable pub rewrite_block : ℕ → Cmd (Unit {0})
rewrite_block block = do
  size ← get_size block
  alloc ← get_alloc block
  write_block block size alloc

-- `addToFree(block, findIndex(get_size(block)))`
unfoldable pub add_sized : ℕ → Cmd (Unit {0})
add_sized block = do size ← get_size block; add_to_free block (find_index size)

unfoldable pub split_block : ℕ → ℕ → Cmd (Unit {0})
unfolding mark_prev_alloc rewrite_block add_sized
split_block block asize = do
  size ← get_size block
  if leb min_block_size (sub64 size asize)
      then (do
        write_block block asize true
        next ← find_next block
        mark_prev_alloc next
        write_block next (sub64 size asize) false
        add_sized next
        after ← find_next next
        rewrite_block after)
      else skip

-- The loop of mm_init that empties the classes from `i`, of which `rounds` are left.
unfoldable pub clear_segs : ℕ → ℕ → Cmd (Unit {0})
clear_segs zero i = skip
clear_segs (suc rounds) i = do set_seg i null; clear_segs rounds (i + 1)

unfoldable pub mm_init : ℕ → Cmd Bool
unfolding add_sized rewrite_block clear_segs
mm_init fuel = do
  start ← sbrk (2 * wsize)
  if start == sbrk_failed then pure false else (do
    store start (pack 0 true false false)
    store (start + 8) (pack 0 true true false)
    set_start (start + 8)
    clear_segs num_segs 0
    block ← extend_heap fuel chunksize
    if block == null
        then pure false
        else (do add_sized block; next ← find_next block; rewrite_block next; pure true))

-- The end of malloc: the block is marked as allocated and split.
unfoldable pub place : ℕ → ℕ → Cmd ℕ
unfolding mark_prev_alloc rewrite_block split_block
place block asize = do
  size ← get_size block
  write_block block size true
  next ← find_next block
  mark_prev_alloc next
  rewrite_block next
  split_block block asize
  pure (header_to_payload block)

-- malloc for a request of more than 0 bytes.
unfoldable pub allocate : ℕ → ℕ → Cmd ℕ
unfolding place
allocate fuel asize = do
  found ← find_fit fuel asize
  if found == null
      then (do
        block ← extend_heap fuel (max asize chunksize)
        if block == null then pure null else place block asize)
      else (do remove_sized fuel found; place found asize)

unfoldable pub malloc : ℕ → ℕ → Cmd ℕ
unfolding allocate
malloc fuel size = do
  start ← get_start
  if start == null then (do mm_init fuel; skip) else skip
  if size == 0 then pure null else allocate fuel (adjusted_size size)

unfoldable pub free : ℕ → ℕ → Cmd (Unit {0})
unfolding add_sized
free fuel bp = if bp == null then skip else (do
  size ← get_size (payload_to_header bp)
  write_block (payload_to_header bp) size false
  block ← coalesce_block fuel (payload_to_header bp)
  add_sized block)

unfoldable pub realloc : ℕ → ℕ → ℕ → Cmd ℕ
unfolding malloc free
realloc fuel ptr size =
    if size == 0
    then (do free fuel ptr; pure null)
    else if ptr == null
    then malloc fuel size
    else (do
      newptr ← malloc fuel size
      if newptr == null then pure null else (do
        payload_size ← get_payload_size (payload_to_header ptr)
        mem_memcpy newptr ptr (if ltb size payload_size then size else payload_size)
        free fuel ptr
        pure newptr))

unfoldable pub calloc : ℕ → ℕ → ℕ → Cmd ℕ
unfolding malloc
calloc fuel elements size =
    if elements == 0
    then pure null
    else if mul64 elements size / elements == size
    then (do
      bp ← malloc fuel (mul64 elements size)
      if bp == null then pure null else (do mem_memset bp 0 (mul64 elements size); pure bp))
    else pure null
