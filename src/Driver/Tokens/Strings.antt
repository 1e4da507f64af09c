-- ===== src/Driver/Tokens/Strings.antt =====
-- The strings in the buffer of cparse, and what a write beside them leaves of them.
use malloc_implementation.Base.{
  ℕ, suc, ◌+◌, ◌≤◌, ◌<◌, ◌≡◌, ◌≢◌, sym, ◌∙◌, List, [], ◌∷◌, ◌++◌, arith, length, update,
  update_self, update_other, subst,
}

-- The C string `w` at an address: its characters and the end.
abbrev pub CString : (ℕ → ℕ) → ℕ → List ℕ → Type 0
CString buf a [] = buf a ≡ 0
CString buf a (c ∷ w) = (buf a ≡ c) × (c ≢ 0) × CString buf (a + 1) w

-- The characters `w` from an address, without the end.
abbrev pub Chars : (ℕ → ℕ) → ℕ → List ℕ → Type 0
Chars buf a [] = Unit
Chars buf a (c ∷ w) = (buf a ≡ c) × (c ≢ 0) × Chars buf (a + 1) w

-- The strings at the addresses, which end below `bound`.
abbrev pub Strings : (ℕ → ℕ) → ℕ → List ℕ → List (List ℕ) → Type 0
Strings buf bound [] [] = Unit
Strings buf bound (a ∷ starts) (w ∷ ws) =
    CString buf a w × (a + length w < bound) × Strings buf bound starts ws
Strings buf bound [] (w ∷ ws) = ⊥
Strings buf bound (a ∷ starts) [] = ⊥

module _ (buf : ℕ → ℕ) (at v : ℕ) where
  CString-below :
      (a : ℕ) (w : List ℕ) → a + length w < at → CString buf a w → CString (update buf at v) a w
  CString-below a [] lt s = update_other buf at a v (omega arith) ∙ s
  CString-below a (c ∷ w) lt s =
      (update_other buf at a v (omega arith) ∙ s.0, s.1, CString-below (a + 1) w (omega arith) s.2)

  pub CString-above :
      (a : ℕ) (w : List ℕ) → at < a → CString buf a w → CString (update buf at v) a w
  CString-above a [] lt s = update_other buf at a v (omega arith) ∙ s
  CString-above a (c ∷ w) lt s =
      (update_other buf at a v (omega arith) ∙ s.0, s.1, CString-above (a + 1) w (omega arith) s.2)

  Chars-below :
      (a : ℕ) (w : List ℕ) → a + length w ≤ at → Chars buf a w → Chars (update buf at v) a w
  Chars-below a [] lt s = tt
  Chars-below a (c ∷ w) lt s =
      (update_other buf at a v (omega arith) ∙ s.0, s.1, Chars-below (a + 1) w (omega arith) s.2)

  pub Strings-below :
      (bound : ℕ) (starts : List ℕ) (ws : List (List ℕ))
      → bound ≤ at
      → Strings buf bound starts ws
      → Strings (update buf at v) bound starts ws
  Strings-below bound [] [] le s = tt
  Strings-below bound (a ∷ starts) (w ∷ ws) le s =
      (CString-below a w (omega arith) s.0, s.1, Strings-below bound starts ws le s.2)
  Strings-below bound [] (w ∷ ws) le s = s
  Strings-below bound (a ∷ starts) [] le s = s

-- The characters and an end behind them are a string.
pub Chars-CString :
    (buf : ℕ → ℕ) (a : ℕ) (w : List ℕ) → Chars buf a w → CString (update buf (a + length w) 0) a w
Chars-CString buf a [] s = let e : a + 0 ≡ a = omega arith in rw e (update_self buf a 0)
Chars-CString buf a (c ∷ w) s =
    let e : a + suc (length w) ≡ a + 1 + length w = omega arith in
    (
      update_other buf (a + suc (length w)) a 0 (omega arith) ∙ s.0,
      s.1,
      subst (λ q. CString (update buf q 0) (a + 1) w) (sym e) (Chars-CString buf (a + 1) w s.2),
    )

pub Chars-snoc :
    (buf : ℕ → ℕ) (a : ℕ) (w : List ℕ) (c : ℕ)
    → c ≢ 0
    → Chars buf a w
    → Chars (update buf (a + length w) c) a (w ++ c ∷ [])
Chars-snoc buf a [] c ne s = let e : a + 0 ≡ a = omega arith in (rw e (update_self buf a c), ne, tt)
Chars-snoc buf a (d ∷ w) c ne s =
    let e : a + suc (length w) ≡ a + 1 + length w = omega arith in
    (
      update_other buf (a + suc (length w)) a c (omega arith) ∙ s.0,
      s.1,
      subst (λ q. Chars (update buf q c) (a + 1) (w ++ c ∷ [])) (sym e)
          (Chars-snoc buf (a + 1) w c ne s.2),
    )

pub Strings-snoc :
    (buf : ℕ → ℕ) (bound high : ℕ) (starts : List ℕ) (ws : List (List ℕ)) (a : ℕ) (w : List ℕ)
    → bound ≤ high
    → Strings buf bound starts ws
    → CString buf a w
    → a + length w < high
    → Strings buf high (starts ++ a ∷ []) (ws ++ w ∷ [])
Strings-snoc buf bound high [] [] a w le s c lt = (c, lt, tt)
Strings-snoc buf bound high (b ∷ starts) (v ∷ ws) a w le s c lt =
    (s.0, omega (arith, s.1, le), Strings-snoc buf bound high starts ws a w le s.2 c lt)
Strings-snoc buf bound high [] (v ∷ ws) a w le s c lt = absurd s
Strings-snoc buf bound high (b ∷ starts) [] a w le s c lt = absurd s
