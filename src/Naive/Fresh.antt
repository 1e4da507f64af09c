-- ===== src/Naive/Fresh.antt =====
-- malloc of mm-naive.c gives memory that no earlier block has.
use malloc_implementation.Base.{ℕ, ◌+◌, ◌%◌, ◌^◌, ◌≤◌, ◌<◌, ◌≡◌, refl, arith, ==-ne}
use malloc_implementation.Base.Word.{add64}
use malloc_implementation.Memory.Words.{word, word-set_word, word-set_word_other}
use malloc_implementation.MemLib.{sbrk_failed}
use malloc_implementation.MemLib.Break.{Granted, moved, mem_sbrk-Granted}
use malloc_implementation.Machine.{Machine, sbrk}
use malloc_implementation.Machine.Returns.{Returns, returns}
use malloc_implementation.Machine.Access.{store-done}
use malloc_implementation.Naive.{roundup, header_to_payload, malloc}

-- The size of the block for a request.
abbrev pub block_size : ℕ → ℕ
block_size size = roundup (add64 size 16) 16

pub block_size_bounds :
    (size : ℕ)
    → size + 32 < 2 ^ 63
    → (block_size size % 16 ≡ 0) × (size + 16 ≤ block_size size) × (block_size size < size + 32)
unfolding roundup
block_size_bounds size h = omega arith

-- Where mem_sbrk grants the block, malloc returns a payload of the requested size that begins
-- behind the old break and ends below the new one, 16 bytes behind a header that holds the block's
-- size, and changes no word below the old break. The payload is aligned if the break was.
pub malloc_fresh :
    (h : Machine) (size : ℕ)
    → size + 32 < 2 ^ 63
    → Granted h.region (block_size size)
    → h.heap ≤ h.mem_brk
    → h.mem_brk < 2 ^ 63
    → Returns
        (λ p g.
          (p ≡ h.mem_brk + 16)
          × (p + size ≤ g.mem_brk)
          × (g.mem_brk ≡ h.mem_brk + block_size size)
          × (h.mem_brk % 16 ≡ 0 → (p % 16 ≡ 0) × (g.mem_brk % 16 ≡ 0))
          × (word g.bytes h.mem_brk ≡ block_size size)
          × ((a : ℕ) → a + 8 ≤ h.mem_brk → word g.bytes a ≡ word h.bytes a))
        (malloc size h)
unfolding malloc sbrk header_to_payload
malloc_fresh h size small granted low top =
    let b = block_size_bounds size small in
    let g : Machine = record h { region = moved h.region (block_size size) } in
    rw
      (
        mem_sbrk-Granted h.region (block_size size) granted,
        ==-ne h.mem_brk sbrk_failed (omega arith),
        store-done h.mem_brk (block_size size) g (omega arith),
      )
      (returns (
        refl,
        omega arith,
        refl,
        (λ e. (omega arith, omega arith)),
        word-set_word h.bytes h.mem_brk (block_size size) (omega arith),
        (λ a l. word-set_word_other h.bytes h.mem_brk (block_size size) a (omega arith)),
      ))
