-- ===== src/Tests/Suites.antt =====
-- The test of a trace of two requests on the allocator of mm-naive.c.
use malloc_implementation.Base.{ℕ, ◌+◌, ◌≡◌, ◌≢◌, refl, true, false, List, [], ◌∷◌, some, ltb, leb}
use malloc_implementation.Memory.{read_le, write_le}
use malloc_implementation.Machine.{
  Machine, Run, done, fault, out_of_fuel, sbrk, store, mem_write, mem_read,
}
use malloc_implementation.MemLib.{mem_sbrk}
use malloc_implementation.Naive
use malloc_implementation.Driver.Ranges.{dbg_expensive, RangeSet, new_range_set}
use malloc_implementation.Stree.{tree_find_nearest}
use malloc_implementation.Driver.Payload.{Blocks, Settings}
use malloc_implementation.Driver.Replay.{Env, TraceOp, alloc, free}
use malloc_implementation.Fcyc.{has_converged, take_sample, init_sampler}
use malloc_implementation.Driver.Trace.{Trace, Word}
use malloc_implementation.Driver.Trace.Print.{print_ops}
use malloc_implementation.Driver.Suite.{Suite, Stats, no_stats, run_test, run_tests, verdict}
use malloc_implementation.Driver.Suite.Judged.{run_tests_onetime}

abbrev expensive : Settings
expensive = record {
  mode = dbg_expensive;
  maxfill = 1024;
  random_data_len = 16;
  random_data = λ j. j + 5;
}

abbrev naive_env : Env
naive_env = record {
  settings = expensive;
  allocator = record {
    mm_init = Naive.mm_init;
    mm_malloc = Naive.malloc;
    mm_free = Naive.free;
    mm_realloc = Naive.realloc;
    mm_checkheap = λ line. Naive.mm_checkheap;
  };
  record_of = λ i. 500 + i;
  random_of = λ i. 3;
}

abbrev fresh : Machine
fresh = record {
  region = record {
    sparse = false;
    heap = 64;
    mem_brk = 64;
    mem_max_addr = 4096;
    bytes = λ a. 0;
    errno = 0;
    os_grants = λ n. true;
    os_calls = 0;
  };
  heap_start = 0;
  seg_list = λ i. 0;
}

abbrev requests : List TraceOp
requests = alloc 0 4 ∷ free (some 0) ∷ []

abbrev no_blocks : Blocks
no_blocks = record { blocks = λ i. 0; block_sizes = λ i. 0; block_rand_base = λ i. 0 }

abbrev no_ranges : RangeSet
unfolding new_range_set
no_ranges = new_range_set (λ p. record { lo = 0; hi = 0; index = 0; next = 0; prev = 0 })

abbrev file : Trace × List Word
file =
    (record { weight = 1; num_ids = 1; num_ops = 2; data_bytes = 4; ops = [] }, print_ops requests)

abbrev suite : Suite ℕ
suite = record {
  env = naive_env;
  onetime_flag = false;
  sparse_mode = false;
  zero_time = 0;
  one = 1;
  timings = record { gt = λ a b. ltb b a; positive = λ a. ltb 0 a; close = λ a b. leb b (a + 1) };
  timer = record { has_min_time = true; short = λ n reps. false; per_run = λ n reps. 7 };
  sampler = record { kbest = 1; maxsamples = 20; values = λ i. 0; samplecount = 0 };
  min_reps = 1;
  fuel = 21;
  mapped = λ i. 64;
  arrays = λ i run. no_blocks;
  cells = λ p. record { lo = 0; hi = 0; index = 0; next = 0; prev = 0 };
}

abbrev stats_of : Run (Stats ℕ) → Stats ℕ
stats_of (done st h) = st
stats_of fault = no_stats suite
stats_of out_of_fuel = no_stats suite

abbrev ending : Run (Stats ℕ) → Machine
ending (done st h) = h
ending fault = fresh
ending out_of_fuel = fresh

abbrev outcome : Stats ℕ
outcome = stats_of (run_test suite 0 file fresh)

abbrev last : Machine
last = ending (run_test suite 0 file fresh)

outcome_valid : outcome.valid ≡ true
unfolding run_test Naive.mm_init Naive.mm_checkheap Naive.malloc sbrk mem_sbrk store
    tree_find_nearest mem_write mem_read Naive.free read_le write_le has_converged take_sample
    init_sampler
outcome_valid = refl

run_tests_onetime_example :
    verdict (run_tests (record suite { onetime_flag = true }) 0 (file ∷ file ∷ []) fresh)
    ≢ some true
run_tests_onetime_example =
    run_tests_onetime (record suite { onetime_flag = true }) 0 file file [] fresh refl
