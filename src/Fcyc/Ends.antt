-- ===== src/Fcyc/Ends.antt =====
-- The sampling loop ends, and fcyc returns the least sample.
use malloc_implementation.Base.{
  ℕ, zero, suc, ◌+◌, ◌-◌, ◌≤◌, ◌<◌, ◌≡◌, ◌⊎◌, inl, inr, refl, sym, subst, ◌∙◌, arith, true, false,
  not, ◌&&◌, Bool-cases, List, [], ◌∷◌, length, ltb, some,
}
use malloc_implementation.Fcyc.{
  Timings, Sampler, init_sampler, add_sample, has_converged, take_sample, sample_loop, fcyc,
}
use malloc_implementation.Fcyc.Sorted.{IsOrder}
use malloc_implementation.Fcyc.Least.{Among, Best, kept, add_sample-Best, init_sampler-Best}

module _ {A : Type 0} where
  -- The first `n` measurements, the last one first.
  abbrev pub first : ℕ → (ℕ → A) → List A
  first zero clock = []
  first (suc n) clock = clock n ∷ first n clock

  length-first : (n : ℕ) (clock : ℕ → A) → length (first n clock) ≡ n
  length-first zero clock = refl
  length-first (suc n) clock = omega (arith, length-first n clock)

  module _ (t : Timings A) (o : IsOrder t) (clock : ℕ → A)
      (positive : (n : ℕ) → t.positive (clock n) ≡ true) where
    take_sample-eq : (n : ℕ) (s : Sampler A) → take_sample t (clock n) s ≡ add_sample t (clock n) s
    unfolding take_sample
    take_sample-eq n s = rw (positive n) refl

    add_sample-maxsamples :
        (val : A) (s : Sampler A) → (add_sample t val s).maxsamples ≡ s.maxsamples
    unfolding add_sample
    add_sample-maxsamples val s = refl

    add_sample-kbest : (val : A) (s : Sampler A) → (add_sample t val s).kbest ≡ s.kbest
    unfolding add_sample
    add_sample-kbest val s = refl

    -- The loop has stopped at the limit, or since the first kbest values are close.
    abbrev Stopped : (kbest maxsamples : ℕ) → Sampler A → (count : ℕ) → Type 0
    Stopped kbest maxsamples s count =
        (s.kbest ≡ kbest)
        × ((maxsamples ≤ count)
            ⊎ ((kbest ≤ count) × (t.close (s.values 0) (s.values (kbest - 1)) ≡ true)))

    stopped :
        (s : Sampler A) (count : ℕ)
        → s.samplecount ≡ count
        → not (has_converged t s) && ltb s.samplecount s.maxsamples ≡ false
        → Stopped s.kbest s.maxsamples s count
    unfolding has_converged
    stopped s count e stop = (refl, ground (arith, e))

    -- The same for a sampler with the same limits.
    Stopped-same :
        (s q r : Sampler A) (count : ℕ)
        → q.kbest ≡ s.kbest
        → q.maxsamples ≡ s.maxsamples
        → Stopped q.kbest q.maxsamples r count
        → Stopped s.kbest s.maxsamples r count
    Stopped-same s q r count e f stop =
        subst (λ k. Stopped k s.maxsamples r count) e
          (subst (λ k. Stopped q.kbest k r count) f stop)

    -- With fuel for the samples that are missing, the loop ends after measurement `m`.
    sample_loop-Best :
        (fuel n : ℕ) (s : Sampler A)
        → Best t o s (first n clock)
        → 0 < fuel
        → s.maxsamples < fuel + n
        → (m : ℕ) × (s' : Sampler A) × (sample_loop t fuel clock n s ≡ some s')
          × Best t o s' (first (suc m) clock)
          × ((suc m ≤ s.maxsamples) ⊎ (m ≡ n))
          × Stopped s.kbest s.maxsamples s' (suc m)
    unfolding sample_loop
    sample_loop-Best zero n s b pos enough = absurd (omega arith)
    sample_loop-Best (suc fuel) n s b pos enough =
        let s' = add_sample t (clock n) s in
        let b' : Best t o s' (first (suc n) clock) =
          add_sample-Best t o (clock n) s (first n clock) b in
        let max : s'.maxsamples ≡ s.maxsamples = add_sample-maxsamples (clock n) s in
        let counted : s'.samplecount ≡ suc n = sym b'.count ∙ length-first (suc n) clock in
        elim (Bool-cases (not (has_converged t s') && ltb s'.samplecount s'.maxsamples)) [
          | inl more ↦
              let room : suc n < s.maxsamples = ground (arith, max, counted) in
              let next : n + 1 ≡ suc n = omega arith in
              let (m, r, run, best, ends, halt) =
                sample_loop-Best fuel (suc n) s' b' (omega arith) (omega (arith, max)) in
              (
                m,
                r,
                rw (take_sample-eq n s, more, next) run,
                best,
                inl (omega (arith, ends, max)),
                Stopped-same s s' r (suc m) (add_sample-kbest (clock n) s) max halt,
              )
          | inr stop ↦ (
            n,
            s',
            rw (take_sample-eq n s, stop) refl,
            b',
            inr refl,
            Stopped-same s s' s' (suc n) (add_sample-kbest (clock n) s) max
                (stopped s' (suc n) counted stop),
          )
        ]

    init_sampler-maxsamples :
        (zero_time : A) (s : Sampler A) → (init_sampler zero_time s).maxsamples ≡ s.maxsamples
    unfolding init_sampler
    init_sampler-maxsamples zero_time s = refl

    init_sampler-kbest :
        (zero_time : A) (s : Sampler A) → (init_sampler zero_time s).kbest ≡ s.kbest
    unfolding init_sampler
    init_sampler-kbest zero_time s = refl

    -- When the first kbest values are close, the last of them is a sample that is close to the first.
    close-Among :
        (kbest maxsamples : ℕ) (s : Sampler A) (count : ℕ)
        → 0 < kbest
        → Best t o s (first count clock)
        → Stopped kbest maxsamples s count
        → (maxsamples ≤ count)
          ⊎ ((kbest ≤ count)
              × (w : A) × Among w (first count clock)
              × (t.close (s.values 0) w ≡ true))
    close-Among kbest maxsamples s count pos b (same, inl limit) = inl limit
    close-Among kbest maxsamples s count pos b (same, inr c) =
        let counted : s.samplecount ≡ count = sym b.count ∙ length-first count clock in
        let last : kbest - 1 < kept t o s = ground (arith, same, counted, c.0) in
        inr (c.0, s.values (kbest - 1), b.drawn (kbest - 1) last, c.1)

    kept_pos : (s : Sampler A) (m : ℕ) → Best t o s (first (suc m) clock) → 0 < kept t o s
    kept_pos s m b = ground (arith, b.room, b.count)

    -- Where each timing is positive and the comparison orders them, kbest is at least 1 and the fuel
    -- is above maxsamples, fcyc ends after `n` measurements and returns the least of them. They are no
    -- more than maxsamples unless it is one, and they are that many, or at least kbest, of which one
    -- is close to the least.
    pub fcyc_least :
        (fuel : ℕ) (zero_time : A) (s : Sampler A)
        → 0 < s.kbest
        → s.maxsamples < fuel
        → (n : ℕ) × (v : A) × (fcyc t fuel zero_time clock s ≡ some v)
          × ((n ≤ s.maxsamples) ⊎ (n ≡ 1))
          × ((s.maxsamples ≤ n)
              ⊎ ((s.kbest ≤ n) × (w : A) × Among w (first n clock) × (t.close v w ≡ true)))
          × Among v (first n clock)
          × ((x : A) → Among x (first n clock) → t.gt v x ≡ false)
    unfolding fcyc
    fcyc_least fuel zero_time s room enough =
        let max : (init_sampler zero_time s).maxsamples ≡ s.maxsamples =
          init_sampler-maxsamples zero_time s in
        let (m, s', run, best, ends, halt) =
          sample_loop-Best fuel 0 (init_sampler zero_time s)
            (init_sampler-Best t o zero_time s room) (omega arith) (omega (arith, max)) in
        (
          suc m,
          s'.values 0,
          rw run refl,
          omega (arith, ends, max),
          close-Among s.kbest s.maxsamples s' (suc m) room best (
              Stopped-same s (init_sampler zero_time s) s' (suc m) (init_sampler-kbest zero_time s)
                max halt),
          best.drawn 0 (kept_pos s' m best),
          best.least,
        )
