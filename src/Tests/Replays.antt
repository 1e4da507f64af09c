-- ===== src/Tests/Replays.antt =====
-- The replay of two requests on the allocator of mm-naive.c.
use malloc_implementation.Base.{◌+◌, Bool, true, false, List, [], ◌∷◌, some}
use malloc_implementation.Machine.{Machine, Run, done, fault, out_of_fuel}
use malloc_implementation.Naive
use malloc_implementation.Driver.Ranges.{dbg_expensive, RangeSet, new_range_set}
use malloc_implementation.Driver.Payload.{Blocks, Settings}
use malloc_implementation.Driver.Replay.{Env, TraceOp, alloc, free, eval_mm_valid}

abbrev expensive : Settings
expensive = record {
  mode = dbg_expensive;
  maxfill = 1024;
  random_data_len = 16;
  random_data = λ j. j + 5;
}

abbrev naive_env : Env
naive_env = record {
  settings = expensive;
  allocator = record {
    mm_init = Naive.mm_init;
    mm_malloc = Naive.malloc;
    mm_free = Naive.free;
    mm_realloc = Naive.realloc;
    mm_checkheap = λ line. Naive.mm_checkheap;
  };
  record_of = λ i. 500 + i;
  random_of = λ i. 3;
}

abbrev fresh : Machine
fresh = record {
  region = record {
    sparse = false;
    heap = 64;
    mem_brk = 64;
    mem_max_addr = 4096;
    bytes = λ a. 0;
    errno = 0;
    os_grants = λ n. true;
    os_calls = 0;
  };
  heap_start = 0;
  seg_list = λ i. 0;
}

abbrev requests : List TraceOp
requests = alloc 0 4 ∷ free (some 0) ∷ []

abbrev no_blocks : Blocks
no_blocks = record { blocks = λ i. 0; block_sizes = λ i. 0; block_rand_base = λ i. 0 }

abbrev no_ranges : RangeSet
unfolding new_range_set
no_ranges = new_range_set (λ p. record { lo = 0; hi = 0; index = 0; next = 0; prev = 0 })

abbrev ending : Run Bool → Machine
ending (done b h) = h
ending fault = fresh
ending out_of_fuel = fresh

abbrev last : Machine
last = ending (eval_mm_valid naive_env requests no_blocks no_ranges fresh)
