-- ===== src/Mm/Fit/Best.antt =====
-- What find_fit looks for in a list of blocks, as a function of the list: the smallest of the
-- first five blocks that are large enough, and the first of these where several are smallest.
use malloc_implementation.Base.{
  ℕ, ◌≤◌, ◌<◌, ◌≡◌, refl, sym, subst, ◌⊎◌, inl, inr, List, [], ◌∷◌, arith, Bool-cases, ltb, leb,
  true, false, Elem-take, Elem-All, ◌≢◌, if◌then◌else◌, take, All, Elem, lt_of_ltb, le_of_ltb,
}
use malloc_implementation.Memory.{Bytes}
use malloc_implementation.Memory.Words.{word}
use malloc_implementation.Mm.Header.{extract_size}
use malloc_implementation.Mm.Blocks.{null}

-- The size in the header of the block.
abbrev pub size_of : Bytes → ℕ → ℕ
size_of m b = extract_size (word m b)

module _ (m : Bytes) where
  unfoldable pub fitting : ℕ → List ℕ → List ℕ
  fitting asize [] = []
  fitting asize (x ∷ xs) =
      if leb asize (size_of m x) then x ∷ fitting asize xs else fitting asize xs

  unfoldable pub improve : ℕ → List ℕ → ℕ
  improve b [] = b
  improve b (x ∷ xs) = improve (if ltb (size_of m x) (size_of m b) then x else b) xs

  unfoldable pub smallest : List ℕ → ℕ
  unfolding improve
  smallest [] = null
  smallest (x ∷ xs) = improve x xs

  unfoldable pub best_fit : ℕ → List ℕ → ℕ
  unfolding fitting smallest
  best_fit asize xs = smallest (take 5 (fitting asize xs))

  improve-smaller :
      (b x : ℕ) (xs : List ℕ)
      → ltb (size_of m x) (size_of m b) ≡ true
      → improve b (x ∷ xs) ≡ improve x xs
  unfolding improve
  improve-smaller b x xs t = rw t

  improve-larger :
      (b x : ℕ) (xs : List ℕ)
      → ltb (size_of m x) (size_of m b) ≡ false
      → improve b (x ∷ xs) ≡ improve b xs
  unfolding improve
  improve-larger b x xs f = rw f

  improve-Elem : (b : ℕ) (xs : List ℕ) → Elem (improve b xs) (b ∷ xs)
  unfolding improve
  improve-Elem b [] = inl refl
  improve-Elem b (x ∷ xs) = elim (Bool-cases (ltb (size_of m x) (size_of m b))) [
    | inl t ↦
        subst (λ r. Elem r (b ∷ x ∷ xs)) (sym (improve-smaller b x xs t)) (inr (improve-Elem x xs))
    | inr f ↦
        subst (λ r. Elem r (b ∷ x ∷ xs)) (sym (improve-larger b x xs f))
          (elim (improve-Elem b xs) [ inl e ↦ inl e | inr e ↦ inr (inr e) ])
  ]

  -- The block is no larger than any of the list.
  abbrev pub NoLarger : ℕ → List ℕ → Type 0
  NoLarger r xs = All (λ x. size_of m r ≤ size_of m x) xs

  improve-NoLarger : (b : ℕ) (xs : List ℕ) → NoLarger (improve b xs) (b ∷ xs)
  unfolding improve
  improve-NoLarger b [] = (omega arith, tt)
  improve-NoLarger b (x ∷ xs) = elim (Bool-cases (ltb (size_of m x) (size_of m b))) [
    | inl t ↦
        let rest = improve-NoLarger x xs in
        subst (λ r. NoLarger r (b ∷ x ∷ xs)) (sym (improve-smaller b x xs t))
          (omega (arith, rest.0, lt_of_ltb (size_of m x) (size_of m b) t), rest)
    | inr f ↦
        let rest = improve-NoLarger b xs in
        subst (λ r. NoLarger r (b ∷ x ∷ xs)) (sym (improve-larger b x xs f))
          (rest.0, (omega (arith, rest.0, le_of_ltb (size_of m x) (size_of m b) f), rest.1))
  ]

  -- Every block of `fitting` is a block of the list that is large enough.
  fitting-Elem :
      (asize b : ℕ) (xs : List ℕ) → Elem b (fitting asize xs) → Elem b xs × (asize ≤ size_of m b)
  unfolding fitting
  fitting-Elem asize b [] e = absurd e
  fitting-Elem asize b (x ∷ xs) e = elim (Bool-cases (leb asize (size_of m x))) [
    | inl t ↦ elim (rw t at e) [
      | inl q ↦ (inl q, rw q (ground arith))
      | inr q ↦ (inr (fitting-Elem asize b xs q).0, (fitting-Elem asize b xs q).1)
    ]
    | inr f ↦ let q = fitting-Elem asize b xs (rw f at e) in (inr q.0, q.1)
  ]

  fitting-nil :
      (asize : ℕ) (xs : List ℕ) → fitting asize xs ≡ [] → All (λ x. size_of m x < asize) xs
  unfolding fitting
  fitting-nil asize [] e = tt
  fitting-nil asize (x ∷ xs) e = elim (Bool-cases (leb asize (size_of m x))) [
    | inl t ↦ cc (rw t at e)
    | inr f ↦ (ground arith, fitting-nil asize xs (rw f at e))
  ]

  smallest-Elem : (xs : List ℕ) → smallest xs ≢ null → Elem (smallest xs) xs
  unfolding smallest
  smallest-Elem [] h = absurd (h refl)
  smallest-Elem (x ∷ xs) h = improve-Elem x xs

  smallest-NoLarger : (xs : List ℕ) → NoLarger (smallest xs) xs
  unfolding smallest
  smallest-NoLarger [] = tt
  smallest-NoLarger (x ∷ xs) = improve-NoLarger x xs

  -- The block found is one of the first five of the list that are large enough, and is no larger
  -- than any of these.
  pub best_fit_sound :
      (asize : ℕ) (xs : List ℕ)
      → best_fit asize xs ≢ null
      → Elem (best_fit asize xs) (take 5 (fitting asize xs))
        × Elem (best_fit asize xs) xs
        × (asize ≤ size_of m (best_fit asize xs))
        × NoLarger (best_fit asize xs) (take 5 (fitting asize xs))
  unfolding best_fit
  best_fit_sound asize xs h =
      let few = take 5 (fitting asize xs) in
      let early = smallest-Elem few h in
      let e =
        fitting-Elem asize (smallest few) xs
          (Elem-take 5 (smallest few) (fitting asize xs) early) in
      (early, e.0, e.1, smallest-NoLarger few)

  fitting-cases :
      (asize : ℕ) (xs : List ℕ)
      → All (λ x. 0 < x) xs
      → (fitting asize xs ≡ []) ⊎ (best_fit asize xs ≢ null)
  unfolding best_fit
  fitting-cases asize xs pos = go (fitting asize xs) refl
    where
      go :
          (ys : List ℕ)
          → fitting asize xs ≡ ys
          → (fitting asize xs ≡ []) ⊎ (best_fit asize xs ≢ null)
      go [] e = inl e
      go (y ∷ ys) e =
          let found : Elem (best_fit asize xs) xs =
            (fitting-Elem asize (best_fit asize xs) xs (
              Elem-take 5 (best_fit asize xs) (fitting asize xs)
                (rw e (improve-Elem y (take 4 ys))))).0 in
          inr λ z. absurd (omega (arith, Elem-All (λ x. 0 < x) (best_fit asize xs) xs pos found))

  -- Nothing is found only if every block of the list is too small.
  pub best_fit_complete :
      (asize : ℕ) (xs : List ℕ)
      → All (λ x. 0 < x) xs
      → best_fit asize xs ≡ null
      → All (λ x. size_of m x < asize) xs
  best_fit_complete asize xs pos e = elim (fitting-cases asize xs pos) [
    | inl none_fits ↦ fitting-nil asize xs none_fits
    | inr found ↦ absurd (found e)
  ]
