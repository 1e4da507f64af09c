-- ===== src/Fcyc.antt =====
-- fcyc.c: the measurement of a function by the smallest of its repeated timings. A timing is a
-- double in the code; here it is a value of a type with the code's comparisons as parameters. What
-- the clock shows is a parameter too, as a function of the number of the measurement.
pub mod Sorted
pub mod Least
pub mod Ends
pub mod Seconds
use malloc_implementation.Base.{
  ℕ, zero, suc, ◌+◌, ◌-◌, Bool, true, false, not, ◌&&◌, Option, none, some, List, [], ◌∷◌, ltb, leb,
  if◌then◌else◌, update,
}

-- The comparisons: `a > b`, `a > 0.0`, and `(1 + epsilon) * a >= b`.
pub record Timings (A : Type 0) : Type 0 where
  pub gt : A → A → Bool
  pub positive : A → Bool
  pub close : A → A → Bool

-- The variables kbest, maxsamples, values and samplecount.
pub record Sampler (A : Type 0) : Type 0 where
  pub kbest : ℕ
  pub maxsamples : ℕ
  pub values : ℕ → A
  pub samplecount : ℕ

module _ {A : Type 0} where
  -- init_sampler; calloc fills the array with 0.0.
  unfoldable pub init_sampler : A → Sampler A → Sampler A
  init_sampler zero_time s = record s { values = λ i. zero_time; samplecount = 0 }

  -- The exchange of two neighbours in the array.
  unfoldable pub swap : ℕ → (ℕ → A) → ℕ → A
  swap pos values =
      let temp = values pos in update (update values pos (values (suc pos))) (suc pos) temp

  -- `values[0]` when the loop has ended
  abbrev pub least_value : Option (Sampler A) → Option A
  least_value none = none
  least_value (some s) = some (s.values 0)

  module _ (t : Timings A) where
    -- The insertion sort, from position `pos` down.
    unfoldable pub sift : ℕ → (ℕ → A) → ℕ → A
    unfolding swap
    sift zero values = values
    sift (suc pos) values =
        let rest = sift pos (swap pos values) in
        if t.gt (values pos) (values (suc pos)) then rest else values

    -- The array after the new value has been stored, with its position.
    unfoldable pub store_sample : A → Sampler A → ℕ × (ℕ → A)
    store_sample val s =
        if ltb s.samplecount s.kbest
        then (s.samplecount, update s.values s.samplecount val)
        else if t.gt (s.values (s.kbest - 1)) val
        then (s.kbest - 1, update s.values (s.kbest - 1) val)
        else (0, s.values)

    unfoldable pub add_sample : A → Sampler A → Sampler A
    unfolding store_sample sift
    add_sample val s =
        let (pos, values) = store_sample val s in
        record s { values = sift pos values; samplecount = s.samplecount + 1 }

    unfoldable pub has_converged : Sampler A → Bool
    has_converged s = leb s.kbest s.samplecount && t.close (s.values 0) (s.values (s.kbest - 1))

    -- The body of the sampling loop for one measurement.
    unfoldable pub take_sample : A → Sampler A → Sampler A
    unfolding add_sample
    take_sample cyc s = if t.positive cyc then add_sample cyc s else s

    -- The sampling loop from measurement `n`, on fuel.
    unfoldable pub sample_loop : ℕ → (ℕ → A) → ℕ → Sampler A → Option (Sampler A)
    unfolding take_sample has_converged
    sample_loop zero clock n s = none
    sample_loop (suc fuel) clock n s =
        let s' = take_sample (clock n) s in
        let rest = sample_loop fuel clock (n + 1) s' in
        if not (has_converged s') && ltb s'.samplecount s'.maxsamples then rest else some s'

    -- fcyc after the number of repetitions has been found: the smallest timing.
    unfoldable pub fcyc : ℕ → A → (ℕ → A) → Sampler A → Option A
    fcyc fuel zero_time clock s = least_value (sample_loop fuel clock 0 (init_sampler zero_time s))

-- The loop that doubles the repetitions until they take long enough: `short reps` tells whether
-- the timer shows less than `min_time` for that many.
unfoldable pub find_reps : ℕ → (ℕ → Bool) → ℕ → Option ℕ
find_reps zero short reps = none
find_reps (suc fuel) short reps =
    let rest = find_reps fuel short (reps + reps) in if short reps then rest else some reps
