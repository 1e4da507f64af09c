-- ===== src/Tests/Heap.antt =====
-- The break, the naive allocator and the heap checker in a small heap.
use malloc_implementation.Base.{ℕ, ◌+◌, ◌%◌, ◌≤◌, ◌⊎◌, ◌≡◌, ◌≢◌, refl, inr, arith, false, true}
use malloc_implementation.Memory.Words.{word}
use malloc_implementation.Machine.{Machine, done}
use malloc_implementation.Machine.Returns.{Returns}
use malloc_implementation.MemLib.{mem_sbrk, sbrk_failed}
use malloc_implementation.MemLib.Break.{Granted, Refused, mem_sbrk_cases}
use malloc_implementation.Naive.{malloc, roundup}
use malloc_implementation.Naive.Fresh.{block_size, malloc_fresh}
use malloc_implementation.Mm.Blocks.{null}
use malloc_implementation.Mm.Alloc.{calloc}
use malloc_implementation.Mm.Alloc
use malloc_implementation.Mm.Alloc.Zeroed.{Zeroes, calloc_cases}
use malloc_implementation.Base.{◌*◌, ◌<◌}
use malloc_implementation.Base.Word.{word_mod}
use malloc_implementation.Mm.Check.{mm_checkheap}
use malloc_implementation.Mm.Check.Empty.{mm_checkheap_refuses_empty}

-- Used up to 128, with room up to 4096.
abbrev small : Machine
small = record {
  region = record {
    sparse = false;
    heap = 64;
    mem_brk = 128;
    mem_max_addr = 4096;
    bytes = λ a. 0;
    errno = 0;
    os_grants = λ n. true;
    os_calls = 0;
  };
  heap_start = 72;
  seg_list = λ i. 0;
}

mem_sbrk_cases_example :
    let (p, s) = mem_sbrk 5000 small.region in
    (s.heap ≡ 64)
    × (s.mem_max_addr ≡ 4096)
    × (s.bytes ≡ small.region.bytes)
    × ((Granted small.region 5000 × (p ≡ 128) × (s.mem_brk ≡ 128 + 5000))
        ⊎ (Refused small.region 5000 × (p ≡ sbrk_failed) × (s.mem_brk ≡ 128)))
mem_sbrk_cases_example = mem_sbrk_cases small.region 5000

malloc_fresh_example :
    Returns
      (λ p g.
        (p ≡ 128 + 16)
        × (p + 100 ≤ g.mem_brk)
        × (g.mem_brk ≡ 128 + block_size 100)
        × (128 % 16 ≡ 0 → (p % 16 ≡ 0) × (g.mem_brk % 16 ≡ 0))
        × (word g.bytes 128 ≡ block_size 100)
        × ((a : ℕ) → a + 8 ≤ 128 → word g.bytes a ≡ word small.bytes a))
      (malloc 100 small)
unfolding roundup
malloc_fresh_example =
    malloc_fresh small 100 (omega arith)
      (record { nonnegative = omega arith; fits = omega arith; os = inr refl }) (omega arith)
      (omega arith)

mm_checkheap_refuses_empty_example : mm_checkheap 5 small ≢ done true small
mm_checkheap_refuses_empty_example = mm_checkheap_refuses_empty 5 3 small (omega arith) refl small

calloc_cases_example :
    (((◌≡◌ {A = ℕ} 2 0) ⊎ (word_mod ≤ 2 * 10)) × (calloc 5 2 10 small ≡ done null small))
    ⊎ ((0 < 2)
        × (2 * 10 < word_mod)
        × ((bp : ℕ) (k : Machine)
            → Alloc.malloc 5 (2 * 10) small ≡ done bp k
            → Zeroes (2 * 10) bp k (calloc 5 2 10 small)))
calloc_cases_example = calloc_cases 5 2 10 small
