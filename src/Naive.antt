-- ===== src/Naive.antt =====
-- mm-naive.c: the allocator that only extends the heap. A block begins with its size and a word of
-- padding; its payload lies 16 bytes behind its start.
pub mod Fresh
use malloc_implementation.Base.{ℕ, suc, ◌+◌, ◌-◌, ◌*◌, ◌/◌, Bool, true, ltb, ◌==◌, if◌then◌else◌}
use malloc_implementation.Base.Word.{add64, sub64, mul64}
use malloc_implementation.MemLib.{sbrk_failed}
use malloc_implementation.MemLib.Copy.{mem_memcpy, mem_memset}
use malloc_implementation.Machine.{Cmd, pure, ◌>>=◌, ◌>>◌, skip, load, store, sbrk}

abbrev pub null : ℕ
null = 0

abbrev pub alignment : ℕ
alignment = 16

-- offsetof(block_t, payload)
abbrev pub header_size : ℕ
header_size = 16

unfoldable pub mm_init : Cmd Bool
mm_init = pure true

unfoldable pub payload_to_header : ℕ → ℕ
payload_to_header bp = sub64 bp header_size

unfoldable pub header_to_payload : ℕ → ℕ
header_to_payload block = block + header_size

-- `multiple * ((size + multiple - 1) / multiple)`
unfoldable pub roundup : ℕ → ℕ → ℕ
roundup size multiple = mul64 multiple (sub64 (add64 size multiple) 1 / multiple)

unfoldable pub malloc : ℕ → Cmd ℕ
unfolding roundup header_to_payload
malloc size = do
  block ← sbrk (roundup (add64 size header_size) alignment)
  if block == sbrk_failed then pure null else (do
    store block (roundup (add64 size header_size) alignment)
    pure (header_to_payload block))

unfoldable pub free : ℕ → Cmd (Unit {0})
free ptr = skip

unfoldable pub realloc : ℕ → ℕ → Cmd ℕ
unfolding malloc free payload_to_header
realloc oldptr size =
    if size == 0 then (do free oldptr; pure null) else if oldptr == null then malloc size else (do
      newptr ← malloc size
      if newptr == null then pure null else (do
        copysize ← load (payload_to_header oldptr)
        mem_memcpy newptr oldptr (if ltb size copysize then size else copysize)
        free oldptr
        pure newptr))

unfoldable pub calloc : ℕ → ℕ → Cmd ℕ
unfolding malloc
calloc nmemb size = do
  newptr ← malloc (mul64 nmemb size)
  mem_memset newptr 0 (mul64 nmemb size)
  pure newptr

unfoldable pub mm_checkheap : Cmd Bool
mm_checkheap = pure true
