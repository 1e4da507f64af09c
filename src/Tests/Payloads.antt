-- ===== src/Tests/Payloads.antt =====
-- The driver's random bytes in a payload of a small heap.
use malloc_implementation.Base.{
  ℕ, ◌+◌, ◌%◌, ◌≤◌, ◌<◌, ◌≡◌, ◌↔◌, ◌⊎◌, refl, arith, Bool, true, false,
}
use malloc_implementation.Memory.{Bytes}
use malloc_implementation.Machine.{Machine, done, with_bytes}
use malloc_implementation.Driver.Ranges.{dbg_cheap}
use malloc_implementation.Driver.Payload.{Blocks, Settings, randomize_block, check_index}
use malloc_implementation.Driver.Payload.Intact.{
  Intact, check_index_decides, randomize_block-Intact,
}

abbrev zeros : Machine
zeros = record {
  region = record {
    sparse = false;
    heap = 64;
    mem_brk = 1024;
    mem_max_addr = 4096;
    bytes = λ a. 0;
    errno = 0;
    os_grants = λ n. true;
    os_calls = 0;
  };
  heap_start = 72;
  seg_list = λ i. 0;
}

abbrev cheap : Settings
cheap = record {
  mode = dbg_cheap;
  maxfill = 1024;
  random_data_len = 16;
  random_data = λ j. (j + 5) % 256;
}

-- Payload 2 has 20 bytes at 80.
abbrev one_block : Blocks
one_block = record { blocks = λ i. 80; block_sizes = λ i. 20; block_rand_base = λ i. 0 }

check_index_decides_example :
    (b : Bool) × (check_index cheap one_block 2 zeros ≡ done b zeros)
    × ((b ≡ true) ↔ Intact cheap one_block 2 zeros.bytes)
check_index_decides_example =
    check_index_decides cheap one_block 2 zeros refl (omega arith, omega arith)

randomize_block-Intact_example :
    (g : Bytes) × (t : Blocks) × (randomize_block cheap 7 one_block 2 zeros
      ≡ done t (with_bytes zeros g))
    × (t.block_rand_base 2 ≡ 7)
    × Intact cheap t 2 g
    × ((a : ℕ) → (a < 80) ⊎ (80 + 20 ≤ a) ⊎ (80 + 1024 ≤ a) → g a ≡ 0)
randomize_block-Intact_example =
    randomize_block-Intact cheap 7 one_block 2 zeros refl (λ j. omega arith)
      (omega arith, omega arith)
