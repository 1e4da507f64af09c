-- ===== src/Driver/Suite/Judged.antt =====
-- Which traces run_tests counts as valid.
use malloc_implementation.Base.{
  ℕ, suc, ◌≡◌, ◌≢◌, ◌↔◌, refl, sym, ap, ◌∙◌, inl, inr, Bool, true, false, not, ◌&&◌, Option, none,
  some, List, [], ◌∷◌, if◌then◌else◌, subst,
}
use malloc_implementation.MemLib.{mem_init}
use malloc_implementation.Machine.{
  Machine, Cmd, Run, done, fault, out_of_fuel, continue, pure, ◌>>=◌,
}
use malloc_implementation.Machine.Ended.{continue_ended, if_ended, same_value}
use malloc_implementation.Fcyc.Seconds.{fsec}
use malloc_implementation.Driver.Usage.{eval_mm_util}
use malloc_implementation.Driver.Speed.{eval_mm_speed}
use malloc_implementation.Driver.Trace.{Trace, Word, read_trace}
use malloc_implementation.Driver.Suite.{
  Suite, Stats, no_stats, init_memory, replay, both_valid, measure, test_trace, run_test,
  blank_stats, run_tests, last_valid, verdict,
}

module _ {A : Type 0} (s : Suite A) where
  -- The machine with the memory set up for the i-th trace.
  abbrev pub cleared : ℕ → Machine → Machine
  cleared i h = record h { region = mem_init s.sparse_mode (s.mapped i) h.region }

  -- Both replays of the trace return true, the second on what the first has left.
  abbrev pub BothTrue : ℕ → Trace → Machine → Type 0
  BothTrue i trace h =
      (g : Machine) × (k : Machine) × (replay s i 0 trace h ≡ done true g)
      × (replay s i 1 trace g ≡ done true k)

  ne_true : (b : Bool) → b ≡ false → b ≢ true
  ne_true b e t = cc

  both_valid_iff :
      (i : ℕ) (trace : Trace) (b : Bool) (h k : Machine)
      → both_valid s i trace h ≡ done b k
      → (b ≡ true) ↔ BothTrue i trace h
  unfolding both_valid
  both_valid_iff i trace b h k run = (
    (λ t.
        let (ok, g, first, rest) = continue_ended (replay s i 0 trace h) _ _ _ run in
        elim (if_ended ok (replay s i 1 trace) (pure false) b g k rest) [
          | inl p ↦ (g, k, first ∙ ap (λ v. done v g) (p.0), p.1 ∙ ap (λ v. done v k) t)
          | inr p ↦ absurd (ne_true b (sym (same_value (p.1))) t)
        ]),
    λ (g, l, first, second).
        let both : both_valid s i trace h ≡ done true l = rw (first, second) refl in
        same_value (sym run ∙ both),
  )

  measure_ended :
      (i : ℕ) (trace : Trace) (st st' : Stats A) (h k : Machine)
      → measure s i trace st h ≡ done st' k
      → st'.valid ≡ st.valid
  unfolding measure
  measure_ended i trace st st' h k run =
      let (util, g, first, rest) =
        continue_ended (eval_mm_util s.env.allocator trace.ops (s.arrays i 2) h) _ _ _ run in
      let seconds : Cmd A =
        if s.sparse_mode
        then pure s.one
        else fsec s.timings s.fuel s.zero_time s.timer s.min_reps s.sampler
            (eval_mm_speed s.env.allocator trace.ops (s.arrays i 3)) in
      let (secs, l, second, last) = continue_ended (seconds g) _ _ _ rest in
      ap (λ (q : Stats A). q.valid) (sym (same_value last))

  test_trace_ended :
      (i : ℕ) (o : Option Trace) (st : Stats A) (h k : Machine)
      → test_trace s i o h ≡ done st k
      → (trace : Trace) × (o ≡ some trace) × ((st.valid ≡ true) ↔ BothTrue i trace h)
  test_trace_ended i none st h k run = absurd cc
  test_trace_ended i (some trace) st h k run =
      let (b, g, judged, rest) = continue_ended (both_valid s i trace h) _ _ _ run in
      let same : st.valid ≡ b = elim (if_ended (b && not s.onetime_flag) _ _ st g k rest) [
        | inl p ↦ measure_ended i trace _ st g k (p.1)
        | inr p ↦ ap (λ (q : Stats A). q.valid) (sym (same_value (p.1)))
      ] in
      (
        trace,
        refl,
        subst (λ v. (v ≡ true) ↔ BothTrue i trace h) (sym same)
            (both_valid_iff i trace b h g judged),
      )

  -- Where the test of a file ends, its words are a trace, and the trace counts as valid exactly when
  -- eval_mm_valid returns true twice in a row on it, from a memory that has been set up anew.
  pub run_test_iff :
      (i : ℕ) (file : Trace × List Word) (st : Stats A) (h k : Machine)
      → run_test s i file h ≡ done st k
      → (trace : Trace) × (read_trace file.0 file.1 ≡ some trace)
        × ((st.valid ≡ true) ↔ BothTrue i trace (cleared i h))
  unfolding run_test init_memory
  run_test_iff i file st h k run =
      test_trace_ended i (read_trace file.0 file.1) st (cleared i h) k run

  last_valid-blank_stats :
      (st : Stats A) (file : Trace × List Word) (files : List (Trace × List Word))
      → last_valid (st ∷ blank_stats s (file ∷ files)) ≡ false
  unfolding last_valid
  last_valid-blank_stats st file [] = refl
  last_valid-blank_stats st file (f ∷ files) = last_valid-blank_stats (no_stats s) f files

  verdict-continue :
      (onetime : Bool) (r : Run (Stats A)) (rest : Stats A → Cmd (List (Stats A)))
      (file : Trace × List Word) (files : List (Trace × List Word))
      → onetime ≡ true
      → verdict
          (continue r (λ st. if onetime then pure (st ∷ blank_stats s (file ∷ files)) else rest st))
        ≢ some true
  unfolding verdict
  verdict-continue true (done st h) rest file files t e =
      let f = last_valid-blank_stats st file files in cc
  verdict-continue true fault rest file files t e = cc
  verdict-continue true out_of_fuel rest file files t e = cc
  verdict-continue false r rest file files t e = cc

  -- After the option -c with two files or more, run_tests leaves after the first one, and main, which
  -- reports on the last one, never prints "correct".
  pub run_tests_onetime :
      (i : ℕ) (first second : Trace × List Word) (files : List (Trace × List Word)) (h : Machine)
      → s.onetime_flag ≡ true
      → verdict (run_tests s i (first ∷ second ∷ files) h) ≢ some true
  unfolding run_tests
  run_tests_onetime i first second files h onetime =
      verdict-continue s.onetime_flag (run_test s i first h)
        (λ st. do rest ← run_tests s (suc i) (second ∷ files); pure (st ∷ rest)) second files
        onetime
