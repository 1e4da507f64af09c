-- ===== src/Fcyc/Seconds.antt =====
-- fcyc.c: fsec, which measures a command on the machine: it repeats the command until the timer shows
-- enough, and then samples that many repetitions with the sampler.
use malloc_implementation.Base.{
  ℕ, zero, suc, ◌+◌, ◌≤◌, ◌<◌, ◌≡◌, ◌⊎◌, Bool, true, false, not, ◌&&◌, ltb, if◌then◌else◌,
}
use malloc_implementation.Machine.{Machine, Cmd, out_of_fuel, pure, skip, ◌>>=◌, ◌>>◌}
use malloc_implementation.Machine.Returns.{Returns}
use malloc_implementation.Fcyc.{Timings, Sampler, init_sampler, take_sample, has_converged}
use malloc_implementation.Fcyc.Least.{Among}
use malloc_implementation.Fcyc.Ends.{first}

-- Whether min_time is above 0.0, and what the timer shows for the n-th measurement of a number of
-- repetitions: whether it is less than min_time, and its reading divided by that number.
pub record Timer (A : Type 0) : Type 0 where
  pub has_min_time : Bool
  pub short : (n reps : ℕ) → Bool
  pub per_run : (n reps : ℕ) → A

-- The loop that calls the function `reps` times.
unfoldable pub repeat : ℕ → Cmd (Unit {0}) → Cmd (Unit {0})
repeat zero f = skip
repeat (suc reps) f = do f; repeat reps f

module _ {A : Type 0} where
  -- The loop that doubles the repetitions, on fuel: the number of measurements so far, and the
  -- repetitions that are enough.
  unfoldable pub find_seconds : ℕ → Cmd (Unit {0}) → Timer A → (n reps : ℕ) → Cmd (ℕ × ℕ)
  unfolding repeat
  find_seconds zero f c n reps = λ h. out_of_fuel
  find_seconds (suc fuel) f c n reps =
      let again = find_seconds fuel f c (n + 1) (reps + reps) in
      (do repeat reps f; if c.short n reps then again else pure (n + 1, reps))

  module _ (t : Timings A) where
    -- The sampling loop, on fuel.
    unfoldable pub sample_seconds :
        ℕ → Cmd (Unit {0}) → (readings : ℕ → A) → (n reps : ℕ) → Sampler A → Cmd (Sampler A)
    unfolding repeat
    sample_seconds zero f readings n reps s = λ h. out_of_fuel
    sample_seconds (suc fuel) f readings n reps s =
        let s' = take_sample t (readings n) s in
        let again = sample_seconds fuel f readings (n + 1) reps s' in
        (do
          repeat reps f
          if not (has_converged t s') && ltb s'.samplecount s'.maxsamples then again else pure s')

    unfoldable pub fsec :
        ℕ → (zero_time : A) → Timer A → (min_reps : ℕ) → Sampler A → Cmd (Unit {0}) → Cmd A
    unfolding find_seconds sample_seconds
    fsec fuel zero_time c min_reps s f = do
      found ← if c.has_min_time then find_seconds fuel f c 0 min_reps else pure (0, min_reps)
      s' ←
          sample_seconds fuel f (λ i. c.per_run (found.0 + i) found.1) 0 found.1
            (init_sampler zero_time s)
      pure (s'.values 0)

-- `start`, doubled `m` times.
abbrev pub doubled : (start m : ℕ) → ℕ
doubled start zero = start
doubled start (suc m) = doubled (start + start) m

-- From `start` repetitions and measurement `n` on, the repetitions have been doubled up to the first
-- measurement for which the timer shows enough, which is the last that has been taken.
abbrev pub DoublesTo : {A : Type 0} → Timer A → (n start taken reps : ℕ) → Type 0
DoublesTo c n start taken reps =
    (m : ℕ) × (taken ≡ n + m + 1)
    × (reps ≡ doubled start m)
    × (c.short (n + m) reps ≡ false)
    × ((j : ℕ) → j < m → c.short (n + j) (doubled start j) ≡ true)

-- The measurements before the sampling, and the repetitions for it.
abbrev pub Resolved : {A : Type 0} → Timer A → (min_reps taken reps : ℕ) → Type 0
Resolved c min_reps taken reps =
    (c.has_min_time ≡ true → DoublesTo c 0 min_reps taken reps)
    × (c.has_min_time ≡ false → (taken ≡ 0) × (reps ≡ min_reps))

-- A command that returns from each state of an invariant, and keeps it.
abbrev pub Steady : (Machine → Type 0) → Cmd (Unit {0}) → Type 0
Steady I f = (h : Machine) → I h → Returns (λ _ g. I g) (f h)

-- The time `v` is the least of `count` readings of the timer for `reps` repetitions, taken one after the
-- other when these were found to be enough. The readings are no more than maxsamples unless it is
-- one, and they are that many, or at least kbest, of which one is close to the least.
pub record Measured {A : Type 0} (t : Timings A) (c : Timer A) (min_reps kbest maxsamples : ℕ)
    (v : A) : Type 0 where
  pub taken : ℕ
  pub reps : ℕ
  pub count : ℕ
  pub resolved : Resolved c min_reps taken reps
  pub bounded : (count ≤ maxsamples) ⊎ (count ≡ 1)
  pub enough :
      (maxsamples ≤ count)
      ⊎ ((kbest ≤ count)
          × (w : A) × Among w (first count (λ i. c.per_run (taken + i) reps))
          × (t.close v w ≡ true))
  pub drawn : Among v (first count (λ i. c.per_run (taken + i) reps))
  pub least : (x : A) → Among x (first count (λ i. c.per_run (taken + i) reps)) → t.gt v x ≡ false
