-- ===== src/Driver/Tokens/Fields.antt =====
-- The fields of a line: what stands between its colons, without white space.
use malloc_implementation.Base.{
  ℕ, zero, suc, ◌≡◌, refl, sym, ap, ◌∙◌, inl, inr, true, false, List, [], ◌∷◌, ◌++◌, arith,
  Bool-cases, ◌==◌, if◌then◌else◌, take, append_assoc, append-nil,
}
use malloc_implementation.Driver.Tokens.{is_space, colon}

abbrev pub cons_first : ℕ → List (List ℕ) → List (List ℕ)
cons_first c [] = (c ∷ []) ∷ []
cons_first c (w ∷ ws) = (c ∷ w) ∷ ws

-- The parts of a line between its colons.
unfoldable pub split : List ℕ → List (List ℕ)
split [] = [] ∷ []
split (c ∷ w) = let rest = split w in if c == colon then [] ∷ rest else cons_first c rest

unfoldable pub squeeze : List ℕ → List ℕ
squeeze [] = []
squeeze (c ∷ w) = let rest = squeeze w in if is_space c then rest else c ∷ rest

unfoldable pub squeeze_all : List (List ℕ) → List (List ℕ)
unfolding squeeze
squeeze_all [] = []
squeeze_all (w ∷ ws) = squeeze w ∷ squeeze_all ws

unfoldable pub fields : List ℕ → List (List ℕ)
unfolding split squeeze_all
fields line = squeeze_all (split line)

-- The tokens that cparse still makes, with `acc` of the current one and `n` tokens left.
unfoldable pub tokens_from : List ℕ → List ℕ → ℕ → List (List ℕ)
tokens_from acc rest zero = []
tokens_from acc [] (suc n) = acc ∷ []
tokens_from acc (c ∷ rest) (suc n) =
    let next = acc ∷ tokens_from [] rest n in
    let same = tokens_from acc rest (suc n) in
    let more = tokens_from (acc ++ c ∷ []) rest (suc n) in
    if is_space c then same else if c == colon then next else more

abbrev prepend : List ℕ → List (List ℕ) → List (List ℕ)
prepend acc [] = acc ∷ []
prepend acc (w ∷ ws) = (acc ++ w) ∷ ws

prepend-cons_first :
    (acc : List ℕ) (c : ℕ) (ws : List (List ℕ))
    → is_space c ≡ false
    → prepend acc (squeeze_all (cons_first c ws)) ≡ prepend (acc ++ c ∷ []) (squeeze_all ws)
unfolding squeeze_all squeeze
prepend-cons_first acc c [] f = rw f refl
prepend-cons_first acc c (w ∷ ws) f =
    rw f (ap (λ x. x ∷ squeeze_all ws) (sym (append_assoc acc (c ∷ []) (squeeze w))))

-- There is a first part.
split-cons : (w : List ℕ) → (x : List ℕ) × (xs : List (List ℕ)) × (split w ≡ x ∷ xs)
unfolding split
split-cons [] = ([], [], refl)
split-cons (c ∷ w) = elim (Bool-cases (c == colon)) [
  | inl t ↦ ([], split w, rw t refl)
  | inr f ↦ let (x, xs, e) = split-cons w in (c ∷ x, xs, rw (f, e) refl)
]

prepend_space :
    (acc : List ℕ) (c : ℕ) (x : List ℕ) (xs : List (List ℕ))
    → is_space c ≡ true
    → prepend acc (squeeze_all (cons_first c (x ∷ xs))) ≡ prepend acc (squeeze_all (x ∷ xs))
unfolding squeeze_all squeeze
prepend_space acc c x xs t = rw t refl

space-not_colon : (c : ℕ) → is_space c ≡ true → (c == colon) ≡ false
space-not_colon c t = ground arith

prepend-fields_space :
    (acc : List ℕ) (c : ℕ) (w : List ℕ)
    → is_space c ≡ true
    → prepend acc (fields (c ∷ w)) ≡ prepend acc (fields w)
unfolding fields split
prepend-fields_space acc c w t =
    let (x, xs, e) = split-cons w in rw (space-not_colon c t, e) (prepend_space acc c x xs t)

prepend-fields-colon :
    (acc : List ℕ) (c : ℕ) (w : List ℕ)
    → (c == colon) ≡ true
    → prepend acc (fields (c ∷ w)) ≡ acc ∷ prepend [] (fields w)
unfolding fields split squeeze_all squeeze
prepend-fields-colon acc c w t =
    let (x, xs, e) = split-cons w in
    rw (t, e) (ap (λ a. a ∷ squeeze x ∷ squeeze_all xs) (append-nil acc))

prepend-fields_other :
    (acc : List ℕ) (c : ℕ) (w : List ℕ)
    → is_space c ≡ false
    → (c == colon) ≡ false
    → prepend acc (fields (c ∷ w)) ≡ prepend (acc ++ c ∷ []) (fields w)
unfolding fields split
prepend-fields_other acc c w f g = rw g (prepend-cons_first acc c (split w) f)

prepend-fields_nil : (acc : List ℕ) → prepend acc (fields []) ≡ acc ∷ []
unfolding fields split squeeze_all squeeze
prepend-fields_nil acc = ap (λ a. a ∷ []) (append-nil acc)

take-nil : (n : ℕ) → take {A = List ℕ} n [] ≡ []
take-nil zero = refl
take-nil (suc n) = refl

-- The tokens of cparse are the first fields, with `acc` in front of the first of them.
tokens_from-take :
    (acc rest : List ℕ) (n : ℕ) → tokens_from acc rest n ≡ take n (prepend acc (fields rest))
unfolding tokens_from
tokens_from-take acc rest zero = refl
tokens_from-take acc [] (suc n) = rw (prepend-fields_nil acc, take-nil n) refl
tokens_from-take acc (c ∷ rest) (suc n) = elim (Bool-cases (is_space c)) [
  | inl t ↦ rw (t, prepend-fields_space acc c rest t) (tokens_from-take acc rest (suc n))
  | inr f ↦ elim (Bool-cases (c == colon)) [
    | inl t ↦
        rw (f, t, prepend-fields-colon acc c rest t) (ap (◌∷◌ acc) (tokens_from-take [] rest n))
    | inr g ↦
        rw (f, g, prepend-fields_other acc c rest f g)
          (tokens_from-take (acc ++ c ∷ []) rest (suc n))
  ]
]

prepend-nil_fields : (w : List ℕ) → prepend [] (fields w) ≡ fields w
unfolding fields squeeze_all
prepend-nil_fields w = let (x, xs, e) = split-cons w in rw e refl

pub tokens_from-fields : (line : List ℕ) (n : ℕ) → tokens_from [] line n ≡ take n (fields line)
tokens_from-fields line n = tokens_from-take [] line n ∙ ap (take n) (prepend-nil_fields line)
