-- ===== src/Fcyc/Least.antt =====
-- The first value of the sampler is the least sample.
use malloc_implementation.Base.{
  ℕ, zero, suc, ◌+◌, ◌-◌, ◌≤◌, ◌<◌, ◌≡◌, ◌⊎◌, inl, inr, refl, sym, subst, ◌∙◌, arith, false,
  Bool-cases, ◌==◌, eq_of_==, ne_of_==, update, update_self, update_other, if◌then◌else◌, List, [],
  ◌∷◌, length, ltb,
}
use malloc_implementation.Fcyc.{Timings, Sampler, sift, init_sampler, store_sample, add_sample}
use malloc_implementation.Fcyc.Sorted.{
  IsOrder, SortedTo, Sifting, sift-SortedTo, sift-place, sift-origin,
}

-- A value of a list of timings.
abbrev pub Among : {A : Type 0} → A → List A → Type 0
Among x [] = ⊥
Among x (y ∷ ys) = (x ≡ y) ⊎ Among x ys

module _ {A : Type 0} (t : Timings A) (o : IsOrder t) where
  gt_irrefl : (a : A) → t.gt a a ≡ false
  gt_irrefl a = elim (Bool-cases (t.gt a a)) [ inl e ↦ o.asym a a e | inr e ↦ e ]

  -- The first of the sorted values is not above any of them.
  SortedTo-first :
      (n : ℕ) (values : ℕ → A)
      → SortedTo t n values
      → (j : ℕ) → j < n
      → t.gt (values 0) (values j) ≡ false
  SortedTo-first n values s zero lt = gt_irrefl (values 0)
  SortedTo-first n values s (suc j) lt = s 0 (suc j) (omega arith) lt

  module _ (values : ℕ → A) (pos : ℕ) (val : A) (sorted : SortedTo t pos values) where
    abbrev inserted : ℕ → A
    inserted = sift t pos (update values pos val)

    update-Sifting : Sifting t (pos + 1) pos (update values pos val)
    update-Sifting = record {
      others = λ i j lt jn ip jp.
          rw
            (
              update_other values pos i val (λ e. ip (sym e)),
              update_other values pos j val (λ e. jp (sym e)),
            )
            (sorted i j lt (omega arith));
      behind = λ j lt jn. absurd (omega arith);
    }

    inserted-SortedTo : SortedTo t (pos + 1) inserted
    inserted-SortedTo =
        sift-SortedTo t o (pos + 1) pos (update values pos val) (omega arith) update-Sifting

    inserted-origin :
        (i : ℕ) → i < pos + 1 → (inserted i ≡ val) ⊎ ((j : ℕ) × (j < pos) × (inserted i ≡ values j))
    inserted-origin i lt =
        let (j, jn, e) = sift-origin t pos (update values pos val) (pos + 1) i (omega arith) lt in
        elim (Bool-cases (pos == j)) [
          | inl at ↦ inl (e ∙ rw at refl)
          | inr f ↦
              let ne = ne_of_== pos j f in
              inr (j, omega arith, e ∙ update_other values pos j val ne)
        ]

    inserted-least_new : t.gt (inserted 0) val ≡ false
    inserted-least_new =
        let (j, jn, e) =
          sift-place t pos (update values pos val) (pos + 1) pos (omega arith) (omega arith) in
        subst (λ v. t.gt (inserted 0) v ≡ false) (e ∙ update_self values pos val)
          (SortedTo-first (pos + 1) inserted inserted-SortedTo j jn)

    inserted-least_old : 0 < pos → t.gt (inserted 0) (values 0) ≡ false
    inserted-least_old h =
        let (j, jn, e) =
          sift-place t pos (update values pos val) (pos + 1) 0 (omega arith) (omega arith) in
        let e' = e ∙ update_other values pos 0 val (omega arith) in
        subst (λ v. t.gt (inserted 0) v ≡ false) e'
          (SortedTo-first (pos + 1) inserted inserted-SortedTo j jn)

  -- How many values of the array are samples.
  abbrev pub kept : Sampler A → ℕ
  kept s = if ltb s.samplecount s.kbest then s.samplecount else s.kbest

  -- The sampler after the samples `xs`: its values are sorted, are samples, and begin with the least.
  pub record Best (s : Sampler A) (xs : List A) : Type 0 where
    pub room : 0 < s.kbest
    pub count : length xs ≡ s.samplecount
    pub sorted : SortedTo t (kept s) s.values
    pub drawn : (i : ℕ) → i < kept s → Among (s.values i) xs
    pub least : (x : A) → Among x xs → t.gt (s.values 0) x ≡ false

  Among-pos : (x : A) (xs : List A) → Among x xs → 0 < length xs
  Among-pos x [] h = absurd h
  Among-pos x (y ∷ ys) h = omega arith

  -- The value goes to position `pos`, behind the values that are kept.
  abbrev placed : A → ℕ → Sampler A → Sampler A
  placed val pos s = record s {
    values = sift t pos (update s.values pos val);
    samplecount = s.samplecount + 1;
  }

  placed-Best :
      (val : A) (pos : ℕ) (s : Sampler A) (xs : List A)
      → Best s xs
      → kept (placed val pos s) ≡ pos + 1
      → pos ≤ kept s
      → (pos ≡ 0 → (x : A) → Among x xs → t.gt val x ≡ false)
      → Best (placed val pos s) (val ∷ xs)
  placed-Best val pos s xs b size le below =
      let before : SortedTo t pos s.values = (λ i j lt jn. b.sorted i j lt (omega arith)) in
      record {
        room = b.room;
        count = omega (arith, b.count);
        sorted = rw size (inserted-SortedTo s.values pos val before);
        drawn = λ i lt. elim (inserted-origin s.values pos val before i (rw size at lt)) [
          | inl e ↦ inl e
          | inr (j, jn, e) ↦ inr (subst (λ v. Among v xs) (sym e) (b.drawn j (omega arith)))
        ];
        least = λ x among. least_of x among before;
      }
    where
      least_of :
          (x : A)
          → Among x (val ∷ xs)
          → SortedTo t pos s.values
          → t.gt (sift t pos (update s.values pos val) 0) x ≡ false
      least_of x (inl e) before =
          subst (λ v. t.gt (sift t pos (update s.values pos val) 0) v ≡ false) (sym e)
            (inserted-least_new s.values pos val before)
      least_of x (inr among) before = elim (Bool-cases (pos == 0)) [
        | inl z ↦
            o.le_trans _ val x (inserted-least_new s.values pos val before)
              (below (eq_of_== pos 0 z) x among)
        | inr nz ↦
            let ne = ne_of_== pos 0 nz in
            o.le_trans _ (s.values 0) x (inserted-least_old s.values pos val before (omega arith))
              (b.least x among)
      ]

  skipped-Best :
      (val : A) (s : Sampler A) (xs : List A)
      → Best s xs
      → s.kbest ≤ s.samplecount
      → t.gt (s.values (s.kbest - 1)) val ≡ false
      → Best (record s { samplecount = s.samplecount + 1 }) (val ∷ xs)
  skipped-Best val s xs b full le =
      let same : kept s ≡ s.kbest = ground arith in
      let same' : kept (record s { samplecount = s.samplecount + 1 }) ≡ s.kbest = ground arith in
      record {
        room = b.room;
        count = omega (arith, b.count);
        sorted = rw same' (rw same at b.sorted);
        drawn = λ i lt. inr (b.drawn i (omega (arith, same, same')));
        least = λ x among. elim among [
          | inl e ↦
              subst (λ v. t.gt (s.values 0) v ≡ false) (sym e)
                (o.le_trans (s.values 0) (s.values (s.kbest - 1)) val
                  (SortedTo-first (kept s) s.values b.sorted (s.kbest - 1)
                    (omega (arith, same, b.room)))
                  le)
          | inr among' ↦ b.least x among'
        ];
      }

  pub add_sample-Best :
      (val : A) (s : Sampler A) (xs : List A) → Best s xs → Best (add_sample t val s) (val ∷ xs)
  unfolding add_sample store_sample
  add_sample-Best val s xs b = elim (Bool-cases (ltb s.samplecount s.kbest)) [
    | inl e ↦ rw e (
        placed-Best val s.samplecount s xs b (ground arith) (ground arith)
          (λ z x among. absurd (omega (arith, b.count, Among-pos x xs among))))
    | inr e ↦ elim (Bool-cases (t.gt (s.values (s.kbest - 1)) val)) [
      | inl g ↦
          rw (e, g)
            (placed-Best val (s.kbest - 1) s xs b (ground (arith, b.room)) (ground (arith, b.room))
              (λ z x among.
                o.le_trans val (s.values 0) x
                  (subst (λ k. t.gt val (s.values k) ≡ false) z
                    (o.asym (s.values (s.kbest - 1)) val g))
                  (b.least x among)))
      | inr g ↦ rw (e, g) (skipped-Best val s xs b (ground arith) g)
    ]
  ]

  -- add_sample for each of a list of samples, the last of the list first.
  abbrev pub add_samples : List A → Sampler A → Sampler A
  add_samples [] s = s
  add_samples (x ∷ xs) s = add_sample t x (add_samples xs s)

  pub init_sampler-Best :
      (zero_time : A) (s : Sampler A) → 0 < s.kbest → Best (init_sampler zero_time s) []
  unfolding init_sampler
  init_sampler-Best zero_time s room = record {
    room = room;
    count = refl;
    sorted = λ i j lt jn. absurd (ground arith);
    drawn = λ i lt. ground arith;
    least = λ x among. absurd among;
  }

  pub add_samples-Best :
      (zero_time : A) (s : Sampler A) (xs : List A)
      → 0 < s.kbest
      → Best (add_samples xs (init_sampler zero_time s)) xs
  add_samples-Best zero_time s [] room = init_sampler-Best zero_time s room
  add_samples-Best zero_time s (x ∷ xs) room =
      add_sample-Best x (add_samples xs (init_sampler zero_time s)) xs
        (add_samples-Best zero_time s xs room)
