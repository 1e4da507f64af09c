-- ===== src/Mm/Coalesce.antt =====
-- mm.c: coalesce_block, and the uses of it that extend the heap. `fuel` bounds the walk of
-- shiftHelper.
pub mod Alone
pub mod Next
pub mod Prev
pub mod Extend
use malloc_implementation.Base.{ℕ, Bool, true, false, ◌==◌, if◌then◌else◌}
use malloc_implementation.Base.Word.{add64}
use malloc_implementation.MemLib.{sbrk_failed}
use malloc_implementation.Machine.{Cmd, pure, ◌>>=◌, ◌>>◌, sbrk}
use malloc_implementation.Mm.Header.{dsize, round_up, find_index}
use malloc_implementation.Mm.Blocks.{
  null, payload_to_header, get_size, get_alloc, get_prev_alloc, find_next, find_prev, write_block,
  write_epilogue,
}
use malloc_implementation.Mm.FreeList.{remove_from_free}

-- `removeFromFree(b, findIndex(get_size(b)))`
unfoldable pub remove_sized : ℕ → ℕ → Cmd (Unit {0})
remove_sized fuel block = do size ← get_size block; remove_from_free fuel block (find_index size)

-- Case 1: neither neighbour is free.
unfoldable pub coalesce_none : ℕ → ℕ → ℕ → Cmd ℕ
coalesce_none block next block_size = do
  write_block block block_size false
  size ← get_size next
  write_block next size true
  pure block

-- Case 2: the next block is free.
unfoldable pub coalesce_next : ℕ → ℕ → ℕ → ℕ → Cmd ℕ
unfolding remove_sized
coalesce_next fuel block next block_size = do
  removed ← get_size next
  remove_sized fuel next
  write_block block (add64 removed block_size) false
  write_block next (add64 removed block_size) true
  pure block

-- Cases 3 and 4: the previous block is free, and in case 4 the next one too.
unfoldable pub coalesce_prev : ℕ → ℕ → ℕ → ℕ → Bool → Cmd ℕ
unfolding remove_sized
coalesce_prev fuel prev next block_size is_next_alloc = do
  prev_size ← get_size prev
  to_be_added ←
      (if is_next_alloc then pure (add64 prev_size block_size) else (do
        next_size ← get_size next
        remove_sized fuel next
        pure (add64 (add64 prev_size next_size) block_size)))
  remove_sized fuel prev
  write_block prev to_be_added false
  size ← get_size next
  write_block next size false
  pure prev

unfoldable pub coalesce_block : ℕ → ℕ → Cmd ℕ
unfolding coalesce_none coalesce_next coalesce_prev
coalesce_block fuel block = do
  next ← find_next block
  is_prev_alloc ← get_prev_alloc block
  is_next_alloc ← get_alloc next
  if is_prev_alloc
      then (do
        block_size ← get_size block
        if is_next_alloc
            then coalesce_none block next block_size
            else coalesce_next fuel block next block_size)
      else (do
        prev ← find_prev block
        block_size ← get_size block
        coalesce_prev fuel prev next block_size is_next_alloc)

-- The part of extend_heap after a successful mem_sbrk.
unfoldable pub extend_block : ℕ → ℕ → ℕ → Cmd ℕ
unfolding coalesce_block
extend_block fuel block size = do
  write_block block size false
  block_next ← find_next block
  write_epilogue block_next false false
  coalesce_block fuel block

unfoldable pub extend_heap : ℕ → ℕ → Cmd ℕ
unfolding extend_block
extend_heap fuel size = do
  bp ← sbrk (round_up size dsize)
  if bp == sbrk_failed
      then pure null
      else extend_block fuel (payload_to_header bp) (round_up size dsize)
