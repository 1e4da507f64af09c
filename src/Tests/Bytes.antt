-- ===== src/Tests/Bytes.antt =====
-- Copies, fills and block tags in a small heap.
use malloc_implementation.Base.{◌%◌, ◌≡◌, refl, arith, false, true}
use malloc_implementation.Memory.{Bytes}
use malloc_implementation.Machine.{Machine, done, ◌>>=◌, ◌>>◌, with_bytes}
use malloc_implementation.Machine.Returns.{Returns}
use malloc_implementation.MemLib.Copy.{mem_memcpy}
use malloc_implementation.MemLib.Copy.Copied.{Copied, mem_memcpy-Copied}
use malloc_implementation.Mm.Blocks.{find_next, find_prev, write_block}
use malloc_implementation.Mm.Blocks.Write.{Fits}
use malloc_implementation.Mm.Blocks.Tags.{find_prev-find_next}

-- A heap from 64 to 1024 in which the byte at `a` is `a % 256`.
abbrev counting : Machine
counting = record {
  region = record {
    sparse = false;
    heap = 64;
    mem_brk = 1024;
    mem_max_addr = 4096;
    bytes = λ a. a % 256;
    errno = 0;
    os_grants = λ n. true;
    os_calls = 0;
  };
  heap_start = 72;
  seg_list = λ i. 0;
}

mem_memcpy-Copied_example :
    (g : Bytes) × (mem_memcpy 512 100 21 counting ≡ done 512 (with_bytes counting g))
    × Copied counting.bytes 512 100 21 g
mem_memcpy-Copied_example =
    mem_memcpy-Copied counting 512 100 21 (omega arith) (omega arith) (omega arith)

block-Fits : Fits counting 200 48
block-Fits = record {
  low = omega arith;
  header = omega arith;
  footer = omega arith;
  aligned = refl;
  small = omega arith;
}

find_prev-find_next_example :
    Returns
      (λ p _. p ≡ 200)
      ((write_block 200 48 false >> (do next ← find_next 200; find_prev next)) counting)
find_prev-find_next_example =
    find_prev-find_next counting 200 48 block-Fits (omega arith) (omega arith)
