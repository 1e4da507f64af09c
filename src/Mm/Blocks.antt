-- ===== src/Mm/Blocks.antt =====
-- mm.c: the block accessors and the writers of headers and footers. A block is the address of its
-- header; `next` lies 8 bytes and `prev` 16 bytes behind it, the payload 8 bytes behind it.
pub mod Write
pub mod Tags
use malloc_implementation.Base.{ℕ, ◌+◌, ◌-◌, Bool, true, ltb, ◌==◌, if◌then◌else◌}
use malloc_implementation.Base.Word.{sub64}
use malloc_implementation.Machine.{Cmd, pure, ◌>>=◌, ◌>>◌, skip, load, store}
use malloc_implementation.Mm.Header.{
  wsize, dsize, min_block_size, pack, extract_size, extract_alloc, extract_prev_alloc,
  extract_prev_mini_block,
}

abbrev pub null : ℕ
null = 0

-- offsetof(block_t, payload)
abbrev pub payload_offset : ℕ
payload_offset = 8

unfoldable pub payload_to_header : ℕ → ℕ
payload_to_header bp = sub64 bp payload_offset

unfoldable pub header_to_payload : ℕ → ℕ
header_to_payload block = block + payload_offset

unfoldable pub get_size : ℕ → Cmd ℕ
get_size block = do w ← load block; pure (extract_size w)

unfoldable pub get_alloc : ℕ → Cmd Bool
get_alloc block = do w ← load block; pure (extract_alloc w)

unfoldable pub get_prev_alloc : ℕ → Cmd Bool
get_prev_alloc block = do w ← load block; pure (extract_prev_alloc w)

unfoldable pub get_prev_mini_block : ℕ → Cmd Bool
get_prev_mini_block block = do w ← load block; pure (extract_prev_mini_block w)

unfoldable pub get_payload_size : ℕ → Cmd ℕ
unfolding get_size
get_payload_size block = do asize ← get_size block; pure (sub64 asize wsize)

-- block->next, block->prev and the assignments to them
unfoldable pub get_next : ℕ → Cmd ℕ
get_next block = load (block + 8)

unfoldable pub get_prev : ℕ → Cmd ℕ
get_prev block = load (block + 16)

unfoldable pub set_next : ℕ → ℕ → Cmd (Unit {0})
set_next block p = store (block + 8) p

unfoldable pub set_prev : ℕ → ℕ → Cmd (Unit {0})
set_prev block p = store (block + 16) p

unfoldable pub header_to_footer : ℕ → Cmd ℕ
unfolding get_size
header_to_footer block = do size ← get_size block; pure (block + payload_offset + size - dsize)

unfoldable pub footer_to_header : ℕ → Cmd ℕ
footer_to_header footer = do w ← load footer; pure (sub64 (footer + wsize) (extract_size w))

unfoldable pub find_next : ℕ → Cmd ℕ
unfolding get_size
find_next block = do size ← get_size block; pure (block + size)

unfoldable pub find_prev_footer : ℕ → ℕ
find_prev_footer block = sub64 block wsize

unfoldable pub find_prev : ℕ → Cmd ℕ
unfolding find_prev_footer footer_to_header
find_prev block = do
  w ← load (find_prev_footer block)
  if extract_size w == 0 then pure null else footer_to_header (find_prev_footer block)

unfoldable pub write_epilogue : ℕ → Bool → Bool → Cmd (Unit {0})
write_epilogue block is_prev is_prev_mini_block =
    store block (pack 0 true is_prev is_prev_mini_block)

-- The footer part of write_block.
unfoldable pub write_footer : ℕ → ℕ → Bool → Bool → Bool → Cmd (Unit {0})
unfolding header_to_footer
write_footer block size curr_alloc is_prev_alloc is_prev_mini_block =
    if curr_alloc
    then skip
    else if ltb min_block_size size
    then (do
      footer ← header_to_footer block
      store footer (pack size curr_alloc is_prev_alloc is_prev_mini_block))
    else skip

unfoldable pub write_block : ℕ → ℕ → Bool → Cmd (Unit {0})
unfolding get_prev_alloc get_prev_mini_block write_footer
write_block block size curr_alloc = do
  is_prev_alloc ← get_prev_alloc block
  is_prev_mini_block ← get_prev_mini_block block
  store block (pack size curr_alloc is_prev_alloc is_prev_mini_block)
  write_footer block size curr_alloc is_prev_alloc is_prev_mini_block
