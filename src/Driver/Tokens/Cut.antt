-- ===== src/Driver/Tokens/Cut.antt =====
-- cparse leaves the fields of its line in the buffer, as the strings at the starts that it records.
use malloc_implementation.Base.{
  ℕ, zero, suc, ◌+◌, ◌≤◌, ◌<◌, ◌≡◌, refl, sym, ◌∙◌, inl, inr, true, false, some, List, [], ◌∷◌,
  ◌++◌, arith, Bool-cases, ◌==◌, ltb, take, length, length-append, append-nil, append_assoc,
  ltb-true, ltb-false, subst,
}
use malloc_implementation.Driver.Tokens.{
  is_space, colon, plimit, Cparse, cparse_step, cparse_loop, cparse,
}
use malloc_implementation.Driver.Tokens.Fields.{fields, tokens_from, tokens_from-fields}
use malloc_implementation.Driver.Tokens.Strings.{CString, Strings}
use malloc_implementation.Driver.Tokens.Steps.{
  Cutting, Found, step_space, step_char, step_colon, ended,
}

-- The loop goes on while tokens are left.
loop_step :
    (fuel : ℕ) (p : Cparse) (c : ℕ)
    → p.found < plimit
    → p.is_done ≡ false
    → p.buf p.rpos ≡ c
    → cparse_loop (suc fuel) p ≡ cparse_loop fuel (cparse_step c (record p { rpos = p.rpos + 1 }))
unfolding cparse_loop
loop_step fuel p c lt going e = rw (ltb-true p.found plimit lt, going, e) refl

loop_full : (fuel : ℕ) (p : Cparse) → plimit ≤ p.found → cparse_loop (suc fuel) p ≡ some p
unfolding cparse_loop
loop_full fuel p le = rw (ltb-false p.found plimit le) refl

loop_done : (fuel : ℕ) (p : Cparse) → p.is_done ≡ true → cparse_loop (suc fuel) p ≡ some p
unfolding cparse_loop
loop_done fuel p e = elim (Bool-cases (ltb p.found plimit)) [
  | inl t ↦ rw (t, e) refl
  | inr f ↦ rw f refl
]

-- What the loop from `p` states.
abbrev Cuts : ℕ → Cparse → List (List ℕ) → List (List ℕ) → Type 0
Cuts fuel p ws vs =
    (q : Cparse) × (bound : ℕ) × (cparse_loop fuel p ≡ some q) × Found q bound (ws ++ vs)

Cuts-full :
    (fuel : ℕ) (p : Cparse) (ws : List (List ℕ)) (acc rest : List ℕ)
    → Cutting p ws acc rest zero
    → Cuts (suc fuel) p ws []
Cuts-full fuel p ws acc rest k = (
  p,
  p.last_start,
  loop_full fuel p (omega (arith, k.left)),
  record {
    strings = subst (λ vs. Strings p.buf p.last_start p.index vs) (sym (append-nil ws)) k.strings;
    counted = k.counted;
  },
)

-- At the end of the line.
Cuts-end :
    (fuel : ℕ) (p : Cparse) (ws : List (List ℕ)) (acc : List ℕ) (n : ℕ)
    → Cutting p ws acc [] (suc n)
    → Cuts (suc (suc fuel)) p ws (acc ∷ [])
unfolding cparse_step
Cuts-end fuel p ws acc n k =
    let q = cparse_step 0 (record p { rpos = p.rpos + 1 }) in
    (
      q,
      p.wpos + 1,
      loop_step (suc fuel) p 0 (omega (arith, k.left)) k.going k.unread ∙ loop_done fuel q refl,
      record {
        strings = ended p ws acc n 0 [] (p.wpos + 1) (omega arith) k.strings k.current k.written;
        counted = omega (arith, k.counted, length-append p.index (p.last_start ∷ []));
      },
    )

-- A step before the rest of the loop.
Cuts-step :
    (fuel : ℕ) (p : Cparse) (c : ℕ) (rest acc : List ℕ) (n : ℕ) (ws us vs : List (List ℕ))
    → Cutting p ws acc (c ∷ rest) (suc n)
    → Cuts fuel (cparse_step c (record p { rpos = p.rpos + 1 })) us vs
    → us ++ vs ≡ ws ++ tokens_from acc (c ∷ rest) (suc n)
    → Cuts (suc fuel) p ws (tokens_from acc (c ∷ rest) (suc n))
Cuts-step fuel p c rest acc n ws us vs k (q, bound, run, found) e = (
  q,
  bound,
  loop_step fuel p c (omega (arith, k.left)) k.going k.unread.0 ∙ run,
  subst (λ ts. Found q bound ts) e found,
)

cparse_loop-Found :
    (rest : List ℕ) (fuel : ℕ) (p : Cparse) (ws : List (List ℕ)) (acc : List ℕ) (n : ℕ)
    → Cutting p ws acc rest n
    → length rest + 1 < fuel
    → Cuts fuel p ws (tokens_from acc rest n)
unfolding tokens_from
cparse_loop-Found rest zero p ws acc n k lt = absurd (omega arith)
cparse_loop-Found rest (suc fuel) p ws acc zero k lt = Cuts-full fuel p ws acc rest k
cparse_loop-Found [] (suc zero) p ws acc (suc n) k lt = absurd (omega arith)
cparse_loop-Found [] (suc (suc fuel)) p ws acc (suc n) k lt = Cuts-end fuel p ws acc n k
cparse_loop-Found (c ∷ rest) (suc fuel) p ws acc (suc n) k lt =
    let q : Cparse = cparse_step c (record p { rpos = p.rpos + 1 }) in
    elim (Bool-cases (is_space c)) [
      | inl t ↦
          Cuts-step fuel p c rest acc n ws ws (tokens_from acc rest (suc n)) k
            (cparse_loop-Found rest fuel q ws acc (suc n) (step_space p ws acc (suc n) c rest t k)
              (omega arith))
            (rw t refl)
      | inr f ↦ elim (Bool-cases (c == colon)) [
        | inl t ↦
            Cuts-step fuel p c rest acc n ws (ws ++ acc ∷ []) (tokens_from [] rest n) k
              (cparse_loop-Found rest fuel q (ws ++ acc ∷ []) [] n
                (step_colon p ws acc n c rest f t k) (omega arith))
              (rw (f, t) (append_assoc ws (acc ∷ []) (tokens_from [] rest n)))
        | inr g ↦
            Cuts-step fuel p c rest acc n ws ws (tokens_from (acc ++ c ∷ []) rest (suc n)) k
              (cparse_loop-Found rest fuel q ws (acc ++ c ∷ []) (suc n)
                (step_char p ws acc (suc n) c rest f g k) (omega arith))
              (rw (f, g) refl)
      ]
    ]

-- Where a line stands at an address as a C string, cparse ends within two rounds more than the line
-- has characters. It returns the number of starts that it has recorded, and these are, in the
-- buffer that it has rewritten in place, the strings of the first ten fields of the line: what
-- stands between the colons, without white space.
pub cparse-fields :
    (buf : ℕ → ℕ) (s : ℕ) (line : List ℕ) (fuel : ℕ)
    → CString buf s line
    → length line + 1 < fuel
    → (q : Cparse) × (bound : ℕ) × (cparse fuel buf s ≡ some q)
      × Found q bound (take plimit (fields line))
unfolding cparse
cparse-fields buf s line fuel c lt =
    subst (λ ts. (q : Cparse) × (bound : ℕ) × (cparse fuel buf s ≡ some q) × Found q bound ts)
      (tokens_from-fields line plimit)
      (cparse_loop-Found line fuel _ [] [] plimit
        (record {
          strings = tt;
          current = tt;
          written = omega arith;
          behind = omega arith;
          unread = c;
          going = refl;
          counted = refl;
          left = refl;
        })
        lt)
