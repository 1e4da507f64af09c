-- ===== src/Driver/Suite.antt =====
-- mdriver.c: run_tests, which replays each trace twice for its correctness and then measures the
-- allocator on it, and what main reports of it after the option -c. The files are the words that
-- read_trace reads; no timeout is set, and mem_deinit, which gives the memory back, is left out.
pub mod Judged
pub mod Whole
use malloc_implementation.Base.{
  ℕ, zero, suc, ◌+◌, Bool, true, false, not, ◌&&◌, Option, none, some, List, [], ◌∷◌, if◌then◌else◌,
}
use malloc_implementation.MemLib.{mem_init}
use malloc_implementation.Machine.{Machine, Cmd, Run, done, fault, out_of_fuel, pure, ◌>>=◌, ◌>>◌}
use malloc_implementation.Fcyc.{Timings, Sampler}
use malloc_implementation.Fcyc.Seconds.{Timer, fsec}
use malloc_implementation.Driver.Ranges.{Range, new_range_set}
use malloc_implementation.Driver.Payload.{Blocks}
use malloc_implementation.Driver.Replay.{Env, eval_mm_valid}
use malloc_implementation.Driver.Usage.{eval_mm_util}
use malloc_implementation.Driver.Speed.{eval_mm_speed}
use malloc_implementation.Driver.Trace.{Trace, Word, read_trace}

-- stats_t, where a double is a value of `A`. The throughput is the quotient of ops and secs, and
-- the utilisation is left as the pair of its two numbers.
pub record Stats (A : Type 0) : Type 0 where
  pub weight : ℕ
  pub ops : ℕ
  pub valid : Bool
  pub secs : A
  pub util : ℕ × ℕ

-- The driver's flags, what its replays use, what fsec uses, and what the C library and the system
-- give to the i-th trace: the address of the heap, what the trace's arrays hold before each of its
-- four runs, and what the memory of the records of ranges holds.
pub record Suite (A : Type 0) : Type 0 where
  pub env : Env
  pub onetime_flag : Bool
  pub sparse_mode : Bool
  pub zero_time : A
  pub one : A
  pub timings : Timings A
  pub timer : Timer A
  pub sampler : Sampler A
  pub min_reps : ℕ
  pub fuel : ℕ
  pub mapped : ℕ → ℕ
  pub arrays : (i run : ℕ) → Blocks
  pub cells : ℕ → Range

module _ {A : Type 0} where
  -- An element of the array that main gets from calloc.
  abbrev pub no_stats : Suite A → Stats A
  no_stats s = record { weight = 0; ops = 0; valid = false; secs = s.zero_time; util = (0, 0) }

  unfoldable pub init_memory : Suite A → ℕ → Cmd (Unit {0})
  unfolding mem_init
  init_memory s i h = done tt (record h { region = mem_init s.sparse_mode (s.mapped i) h.region })

  -- One of the two replays for correctness.
  unfoldable pub replay : Suite A → (i run : ℕ) → Trace → Cmd Bool
  unfolding eval_mm_valid new_range_set
  replay s i run trace = eval_mm_valid s.env trace.ops (s.arrays i run) (new_range_set s.cells)

  -- Both, the second after a success of the first.
  unfoldable pub both_valid : Suite A → ℕ → Trace → Cmd Bool
  unfolding replay
  both_valid s i trace = do ok ← replay s i 0 trace; if ok then replay s i 1 trace else pure false

  unfoldable pub measure : Suite A → ℕ → Trace → Stats A → Cmd (Stats A)
  unfolding eval_mm_util eval_mm_speed fsec
  measure s i trace st = do
    util ← eval_mm_util s.env.allocator trace.ops (s.arrays i 2)
    secs ←
        if s.sparse_mode
        then pure s.one
        else fsec s.timings s.fuel s.zero_time s.timer s.min_reps s.sampler
            (eval_mm_speed s.env.allocator trace.ops (s.arrays i 3))
    pure (record st { util = util; secs = secs })

  abbrev pub test_trace : Suite A → ℕ → Option Trace → Cmd (Stats A)
  test_trace s i none = λ h. fault
  test_trace s i (some trace) = do
    valid ← both_valid s i trace
    if valid && not s.onetime_flag
        then measure s i trace
            (record (no_stats s) { weight = trace.weight; ops = trace.num_ops; valid = valid })
        else pure
            (record (no_stats s) { weight = trace.weight; ops = trace.num_ops; valid = valid })

  -- The body of the loop, for the header of a file and its other words.
  unfoldable pub run_test : Suite A → ℕ → Trace × List Word → Cmd (Stats A)
  unfolding init_memory read_trace both_valid measure
  run_test s i file = do init_memory s i; test_trace s i (read_trace file.0 file.1)

  abbrev pub blank_stats : Suite A → List (Trace × List Word) → List (Stats A)
  blank_stats s [] = []
  blank_stats s (file ∷ files) = no_stats s ∷ blank_stats s files

  unfoldable pub run_tests : Suite A → ℕ → List (Trace × List Word) → Cmd (List (Stats A))
  unfolding run_test
  run_tests s i [] = pure []
  run_tests s i (file ∷ files) = do
    st ← run_test s i file
    if s.onetime_flag
        then pure (st ∷ blank_stats s files)
        else (do rest ← run_tests s (suc i) files; pure (st ∷ rest))

  -- `mm_stats[num_global_tracefiles - 1].valid`
  unfoldable pub last_valid : List (Stats A) → Bool
  last_valid [] = false
  last_valid (st ∷ []) = st.valid
  last_valid (st ∷ st' ∷ stats) = last_valid (st' ∷ stats)

  -- What main prints after -c: true for "correct", and `none` where it does not get there.
  unfoldable pub verdict : Run (List (Stats A)) → Option Bool
  unfolding last_valid
  verdict (done stats h) = some (last_valid stats)
  verdict fault = none
  verdict out_of_fuel = none
