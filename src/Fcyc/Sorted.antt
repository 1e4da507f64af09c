-- ===== src/Fcyc/Sorted.antt =====
-- The insertion sort of add_sample sorts, and keeps the values.
use malloc_implementation.Base.{
  ℕ, zero, suc, ◌<◌, ◌≡◌, ◌≢◌, inl, inr, refl, sym, ◌∙◌, arith, true, false, Bool-cases, ◌==◌,
  eq_of_==, ne_of_==, update, update_self, update_other,
}
use malloc_implementation.Fcyc.{Timings, swap, sift}

-- The comparison of timings is a total order on them.
pub record IsOrder {A : Type 0} (t : Timings A) : Type 0 where
  pub asym : (a b : A) → t.gt a b ≡ true → t.gt b a ≡ false
  pub le_trans : (a b c : A) → t.gt a b ≡ false → t.gt b c ≡ false → t.gt a c ≡ false

module _ {A : Type 0} (values : ℕ → A) (pos : ℕ) where
  swap-low : swap pos values pos ≡ values (suc pos)
  unfolding swap
  swap-low =
      update_other (update values pos (values (suc pos))) (suc pos) pos (values pos) (omega arith)
      ∙ update_self values pos (values (suc pos))

  swap-high : swap pos values (suc pos) ≡ values pos
  unfolding swap
  swap-high = update_self (update values pos (values (suc pos))) (suc pos) (values pos)

  swap-rest : (i : ℕ) → i ≢ pos → i ≢ suc pos → swap pos values i ≡ values i
  unfolding swap
  swap-rest i low high =
      update_other (update values pos (values (suc pos))) (suc pos) i (values pos)
        (λ e. high (sym e))
      ∙ update_other values pos i (values (suc pos)) (λ e. low (sym e))

  -- Where a value goes, and where it comes from.
  swap-place : (n i : ℕ) → suc pos < n → i < n → (j : ℕ) × (j < n) × (swap pos values j ≡ values i)
  swap-place n i h lt = elim (Bool-cases (i == pos)) [
    | inl t ↦ let e = eq_of_== i pos t in (suc pos, h, rw e swap-high)
    | inr f ↦ elim (Bool-cases (i == suc pos)) [
      | inl t ↦ let e = eq_of_== i (suc pos) t in (pos, omega arith, rw e swap-low)
      | inr g ↦ (i, lt, swap-rest i (ne_of_== i pos f) (ne_of_== i (suc pos) g))
    ]
  ]

  swap-origin : (n j : ℕ) → suc pos < n → j < n → (i : ℕ) × (i < n) × (swap pos values j ≡ values i)
  swap-origin n j h lt = elim (Bool-cases (j == pos)) [
    | inl t ↦ let e = eq_of_== j pos t in (suc pos, h, rw e swap-low)
    | inr f ↦ elim (Bool-cases (j == suc pos)) [
      | inl t ↦ let e = eq_of_== j (suc pos) t in (pos, omega arith, rw e swap-high)
      | inr g ↦ (j, lt, swap-rest j (ne_of_== j pos f) (ne_of_== j (suc pos) g))
    ]
  ]

module _ {A : Type 0} (t : Timings A) where
  -- The first `n` values are in order.
  abbrev pub SortedTo : ℕ → (ℕ → A) → Type 0
  SortedTo n values = (i j : ℕ) → i < j → j < n → t.gt (values i) (values j) ≡ false

  -- They are but for the one at `pos`, which is not above those behind it.
  pub record Sifting (n pos : ℕ) (values : ℕ → A) : Type 0 where
    pub others : (i j : ℕ) → i < j → j < n → i ≢ pos → j ≢ pos → t.gt (values i) (values j) ≡ false
    pub behind : (j : ℕ) → pos < j → j < n → t.gt (values pos) (values j) ≡ false

  pub sift-place :
      (pos : ℕ) (values : ℕ → A) (n i : ℕ)
      → pos < n
      → i < n
      → (j : ℕ) × (j < n) × (sift t pos values j ≡ values i)
  unfolding sift
  sift-place zero values n i h lt = (i, lt, refl)
  sift-place (suc pos) values n i h lt = elim (Bool-cases (t.gt (values pos) (values (suc pos)))) [
    | inl e ↦
        let (k, kn, ke) = swap-place values pos n i h lt in
        let (j, jn, je) = sift-place pos (swap pos values) n k (omega arith) kn in
        (j, jn, rw e (je ∙ ke))
    | inr e ↦ (i, lt, rw e refl)
  ]

  pub sift-origin :
      (pos : ℕ) (values : ℕ → A) (n j : ℕ)
      → pos < n
      → j < n
      → (i : ℕ) × (i < n) × (sift t pos values j ≡ values i)
  unfolding sift
  sift-origin zero values n j h lt = (j, lt, refl)
  sift-origin (suc pos) values n j h lt = elim (Bool-cases (t.gt (values pos) (values (suc pos)))) [
    | inl e ↦
        let (k, kn, ke) = sift-origin pos (swap pos values) n j (omega arith) lt in
        let (i, in_n, ie) = swap-origin values pos n k h kn in (i, in_n, rw e (ke ∙ ie))
    | inr e ↦ (j, lt, rw e refl)
  ]

  module _ (o : IsOrder t) where
    Sifting-swap :
        (n pos : ℕ) (values : ℕ → A)
        → suc pos < n
        → t.gt (values pos) (values (suc pos)) ≡ true
        → Sifting n (suc pos) values
        → Sifting n pos (swap pos values)
    Sifting-swap n pos values h gt s = record {
      others = λ i j lt jn ip jp. elim (Bool-cases (i == suc pos)) [
        | inl e ↦
            let at = eq_of_== i (suc pos) e in
            rw (at, swap-high values pos, swap-rest values pos j (omega arith) (omega arith))
              (s.others pos j (omega arith) jn (omega arith) (omega arith))
        | inr f ↦
            let ne = ne_of_== i (suc pos) f in
            elim (Bool-cases (j == suc pos)) [
              | inl e ↦
                  let at = eq_of_== j (suc pos) e in
                  rw (at, swap-high values pos, swap-rest values pos i ip ne)
                    (s.others i pos (omega arith) (omega arith) ne (omega arith))
              | inr g ↦
                  let ne' = ne_of_== j (suc pos) g in
                  rw (swap-rest values pos i ip ne, swap-rest values pos j jp ne')
                    (s.others i j lt jn ne ne')
            ]
      ];
      behind = λ j lt jn. elim (Bool-cases (j == suc pos)) [
        | inl e ↦
            let at = eq_of_== j (suc pos) e in
            rw (at, swap-low values pos, swap-high values pos)
              (o.asym (values pos) (values (suc pos)) gt)
        | inr g ↦
            let ne = ne_of_== j (suc pos) g in
            rw (swap-low values pos, swap-rest values pos j (omega arith) ne)
              (s.behind j (omega arith) jn)
      ];
    }

    -- The value stays where its left neighbour is not above it.
    Sifting-stop :
        (n pos : ℕ) (values : ℕ → A)
        → suc pos < n
        → t.gt (values pos) (values (suc pos)) ≡ false
        → Sifting n (suc pos) values
        → SortedTo n values
    Sifting-stop n pos values h le s i j lt jn = elim (Bool-cases (i == suc pos)) [
      | inl e ↦ let at = eq_of_== i (suc pos) e in rw at (s.behind j (omega arith) jn)
      | inr f ↦
          let ne = ne_of_== i (suc pos) f in
          elim (Bool-cases (j == suc pos)) [
            | inr g ↦ s.others i j lt jn ne (ne_of_== j (suc pos) g)
            | inl e ↦
                let at = eq_of_== j (suc pos) e in
                elim (Bool-cases (i == pos)) [
                  | inl e' ↦ let here = eq_of_== i pos e' in rw (at, here) le
                  | inr g ↦
                      let ne' = ne_of_== i pos g in
                      rw at (
                        o.le_trans (values i) (values pos) (values (suc pos))
                          (s.others i pos (omega arith) (omega arith) ne (omega arith)) le)
                ]
          ]
    ]

    pub sift-SortedTo :
        (n pos : ℕ) (values : ℕ → A)
        → pos < n
        → Sifting n pos values
        → SortedTo n (sift t pos values)
    unfolding sift
    sift-SortedTo n zero values h s = λ i j lt jn. elim (Bool-cases (i == 0)) [
      | inl e ↦ let at = eq_of_== i 0 e in rw at (s.behind j (omega arith) jn)
      | inr f ↦ s.others i j lt jn (ne_of_== i 0 f) (omega arith)
    ]
    sift-SortedTo n (suc pos) values h s =
        elim (Bool-cases (t.gt (values pos) (values (suc pos)))) [
          | inl e ↦ rw e (
              sift-SortedTo n pos (swap pos values) (omega arith) (Sifting-swap n pos values h e s))
          | inr e ↦ rw e (Sifting-stop n pos values h e s)
        ]
