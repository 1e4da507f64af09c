-- ===== src/Tests/Timing.antt =====
-- The sampler with natural numbers as timings.
use malloc_implementation.Base.{ℕ, ◌+◌, false, true, ltb, leb}
use malloc_implementation.Fcyc.{Timings, Sampler}
use malloc_implementation.Fcyc.Seconds.{Timer}
use malloc_implementation.Machine.{Cmd, Machine, store}
use malloc_implementation.Machine.Returns.{Returns}

abbrev ticks : Timings ℕ
ticks = record { gt = λ a b. ltb b a; positive = λ a. ltb 0 a; close = λ a b. leb b (a + 1) }

abbrev three_best : Sampler ℕ
three_best = record { kbest = 3; maxsamples = 20; values = λ i. 0; samplecount = 0 }

abbrev slower : ℕ → ℕ
slower n = 5 + 3 + n

abbrev zeros : Machine
zeros = record {
  region = record {
    sparse = false;
    heap = 64;
    mem_brk = 1024;
    mem_max_addr = 4096;
    bytes = λ a. 0;
    errno = 0;
    os_grants = λ n. true;
    os_calls = 0;
  };
  heap_start = 72;
  seg_list = λ i. 0;
}

-- The command that clears the word at 80, in a heap that has it.
abbrev clear_word : Cmd (Unit {0})
clear_word = store 80 0

-- The timer shows enough from the third round on.
abbrev slow_timer : Timer ℕ
slow_timer = record { has_min_time = true; short = λ n reps. ltb n 2; per_run = λ n reps. 5 + n }
