-- ===== src/Driver/Tokens/Steps.antt =====
-- The bodies of the switch of cparse, on a buffer in which it has cut off some fields.
use malloc_implementation.Base.{
  ℕ, suc, ◌+◌, ◌≤◌, ◌<◌, ◌≡◌, sym, true, false, List, [], ◌∷◌, ◌++◌, arith, ◌==◌, length,
  length-append, update, ==-ne, subst,
}
use malloc_implementation.Driver.Tokens.{is_space, colon, plimit, Cparse, cparse_step}
use malloc_implementation.Driver.Tokens.Strings.{
  CString, Chars, Strings, CString-above, Strings-below, Chars-CString, Chars-snoc, Strings-snoc,
}

-- The loop has cut off the tokens `ws`; it is in one with the characters `acc`, `rest` is to be read,
-- and `n` tokens are left.
pub record Cutting (p : Cparse) (ws : List (List ℕ)) (acc rest : List ℕ) (n : ℕ) : Type 0 where
  pub strings : Strings p.buf p.last_start p.index ws
  pub current : Chars p.buf p.last_start acc
  pub written : p.wpos ≡ p.last_start + length acc
  pub behind : p.wpos ≤ p.rpos
  pub unread : CString p.buf p.rpos rest
  pub going : p.is_done ≡ false
  pub counted : p.found ≡ length p.index
  pub left : p.found + n ≡ plimit

-- What the loop leaves.
pub record Found (p : Cparse) (bound : ℕ) (ws : List (List ℕ)) : Type 0 where
  pub strings : Strings p.buf bound p.index ws
  pub counted : p.found ≡ length p.index

-- The bodies of the switch.
module _ (p : Cparse) (ws : List (List ℕ)) (acc : List ℕ) (n : ℕ) where
  pub step_space :
      (c : ℕ) (rest : List ℕ)
      → is_space c ≡ true
      → Cutting p ws acc (c ∷ rest) n
      → Cutting (cparse_step c (record p { rpos = p.rpos + 1 })) ws acc rest n
  unfolding cparse_step
  step_space c rest t k = rw t record {
    strings = k.strings;
    current = k.current;
    written = k.written;
    behind = omega (arith, k.behind);
    unread = k.unread.2;
    going = k.going;
    counted = k.counted;
    left = k.left;
  }

  pub step_char :
      (c : ℕ) (rest : List ℕ)
      → is_space c ≡ false
      → (c == colon) ≡ false
      → Cutting p ws acc (c ∷ rest) n
      → Cutting (cparse_step c (record p { rpos = p.rpos + 1 })) ws (acc ++ c ∷ []) rest n
  unfolding cparse_step
  step_char c rest f g k =
      let start : p.last_start ≤ p.wpos = omega (arith, k.written) in
      let here : Chars (update p.buf p.wpos c) p.last_start (acc ++ c ∷ []) =
        subst (λ q. Chars (update p.buf q c) p.last_start (acc ++ c ∷ [])) (sym k.written)
          (Chars-snoc p.buf p.last_start acc c k.unread.1 k.current) in
      rw (f, g, ==-ne c 0 k.unread.1)
        record {
          strings = Strings-below p.buf p.wpos c p.last_start p.index ws start k.strings;
          current = here;
          written = omega (arith, k.written, length-append acc (c ∷ []));
          behind = omega (arith, k.behind);
          unread =
              CString-above p.buf p.wpos c (p.rpos + 1) rest (omega (arith, k.behind)) k.unread.2;
          going = k.going;
          counted = k.counted;
          left = k.left;
        }

  -- The strings when the current token has been ended.
  pub ended :
      (c : ℕ) (rest : List ℕ) (bound : ℕ)
      → p.wpos < bound
      → Strings p.buf p.last_start p.index ws
      → Chars p.buf p.last_start acc
      → p.wpos ≡ p.last_start + length acc
      → Strings (update p.buf p.wpos 0) bound (p.index ++ p.last_start ∷ []) (ws ++ acc ∷ [])
  ended c rest bound lt strings current written =
      let start : p.last_start ≤ p.wpos = omega (arith, written) in
      let here : CString (update p.buf p.wpos 0) p.last_start acc =
        subst (λ q. CString (update p.buf q 0) p.last_start acc) (sym written)
          (Chars-CString p.buf p.last_start acc current) in
      Strings-snoc (update p.buf p.wpos 0) p.last_start bound p.index ws p.last_start acc
        (omega (arith, start, lt))
        (Strings-below p.buf p.wpos 0 p.last_start p.index ws start strings) here
        (omega (arith, written, lt))

  pub step_colon :
      (c : ℕ) (rest : List ℕ)
      → is_space c ≡ false
      → (c == colon) ≡ true
      → Cutting p ws acc (c ∷ rest) (suc n)
      → Cutting (cparse_step c (record p { rpos = p.rpos + 1 })) (ws ++ acc ∷ []) [] rest n
  unfolding cparse_step
  step_colon c rest f t k =
      rw (f, t)
        record {
          strings = ended c rest (p.wpos + 1) (omega arith) k.strings k.current k.written;
          current = tt;
          written = omega arith;
          behind = omega (arith, k.behind);
          unread =
              CString-above p.buf p.wpos 0 (p.rpos + 1) rest (omega (arith, k.behind)) k.unread.2;
          going = k.going;
          counted = omega (arith, k.counted, length-append p.index (p.last_start ∷ []));
          left = omega (arith, k.left);
        }
