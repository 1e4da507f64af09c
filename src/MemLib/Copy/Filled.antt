-- ===== src/MemLib/Copy/Filled.antt =====
-- mem_memset fills the bytes.
use malloc_implementation.Base.{
  ℕ, zero, suc, ◌+◌, ◌*◌, ◌-◌, ◌%◌, ◌≤◌, ◌<◌, ◌≡◌, refl, sym, ◌∙◌, ap, ◌⊎◌, inl, inr, arith,
  Bool-cases, leb, ◌==◌,
}
use native.Mathlib.Decide.{dec_lt}
use malloc_implementation.Memory.{Bytes, write_le}
use malloc_implementation.Memory.Words.{write_le-outside}
use malloc_implementation.Memory.Copy.{byte_of, write_le-byte}
use malloc_implementation.Machine.{Machine, done, with_bytes}
use malloc_implementation.Machine.Access.{InHeap, mem_write-done}
use malloc_implementation.MemLib.Copy.{word_size, fill_word, set_loop, mem_memset}

-- The memory `g` is `m` but for the `n` bytes from `dst`, which are all `b`.
pub record Filled (m : Bytes) (dst b n : ℕ) (g : Bytes) : Type 0 where
  pub filled : (i : ℕ) → i < n → g (dst + i) ≡ b
  pub kept : (a : ℕ) → (a < dst) ⊎ (dst + n ≤ a) → g a ≡ m a

-- The word that mem_memset writes.
abbrev pattern_of : ℕ → ℕ
pattern_of b = fill_word 8 0 b 0

pattern_of-eq : (b : ℕ) → pattern_of b ≡ b * 0x0101010101010101
unfolding fill_word
pattern_of-eq b = omega arith

pattern_of-byte : (b i : ℕ) → b < 256 → i < 8 → byte_of (pattern_of b) i ≡ b
unfolding byte_of
pattern_of-byte b zero h l = omega (arith, pattern_of-eq b)
pattern_of-byte b (suc zero) h l = omega (arith, pattern_of-eq b)
pattern_of-byte b (suc (suc zero)) h l = omega (arith, pattern_of-eq b)
pattern_of-byte b (suc (suc (suc zero))) h l = omega (arith, pattern_of-eq b)
pattern_of-byte b (suc (suc (suc (suc zero)))) h l = omega (arith, pattern_of-eq b)
pattern_of-byte b (suc (suc (suc (suc (suc zero))))) h l = omega (arith, pattern_of-eq b)
pattern_of-byte b (suc (suc (suc (suc (suc (suc zero)))))) h l = omega (arith, pattern_of-eq b)
pattern_of-byte b (suc (suc (suc (suc (suc (suc (suc i))))))) h l = ground (arith, pattern_of-eq b)

write-Filled :
    (m : Bytes) (dst b n : ℕ) → b < 256 → n ≤ 8 → Filled m dst b n (write_le n m dst (pattern_of b))
write-Filled m dst b n h le = record {
  filled = λ i l. write_le-byte n m dst (pattern_of b) i l ∙ pattern_of-byte b i h (omega arith);
  kept = λ a o. write_le-outside n m dst (pattern_of b) a o;
}

Filled-trans :
    (m g f : Bytes) (dst b k n : ℕ)
    → k ≤ n
    → Filled m dst b k g
    → Filled g (dst + k) b (n - k) f
    → Filled m dst b n f
Filled-trans m g f dst b k n le c d = record {
  filled = λ i h. elim (dec_lt i k) [
    | yes l ↦ d.kept (dst + i) (inl (omega arith)) ∙ c.filled i l
    | no l ↦
        let e : dst + k + (i - k) ≡ dst + i = omega arith in
        sym (ap f e) ∙ d.filled (i - k) (omega arith)
  ];
  kept = λ a o. d.kept a (omega arith) ∙ c.kept a (omega arith);
}

set_loop-Filled :
    (fuel : ℕ) (h : Machine) (dst b n : ℕ)
    → n < fuel
    → b < 256
    → InHeap n dst h
    → (g : Bytes) × (set_loop fuel dst (pattern_of b) n h ≡ done tt (with_bytes h g))
      × Filled h.bytes dst b n g
unfolding set_loop
set_loop-Filled zero h dst b n lt lb d = absurd (omega arith)
set_loop-Filled (suc fuel) h dst b n lt lb d = elim (Bool-cases (leb word_size n)) [
  | inl t ↦
      let le : 8 ≤ n = ground arith in
      let g : Bytes = write_le 8 h.bytes dst (pattern_of b) in
      let (f, run, rest) =
        set_loop-Filled fuel (with_bytes h g) (dst + 8) b (n - 8) (omega arith) lb (omega arith) in
      (
        f,
        rw (t, mem_write-done dst (pattern_of b) 8 h (omega arith)) run,
        Filled-trans h.bytes g f dst b 8 n le (write-Filled h.bytes dst b 8 lb (omega arith)) rest,
      )
  | inr f ↦ elim (Bool-cases (n == 0)) [
    | inl z ↦
        let none_left : n ≡ 0 = ground arith in
        (h.bytes, rw (f, z), record { filled = λ i l. absurd (omega arith); kept = λ a o. refl })
    | inr z ↦
        let short : n ≤ 8 = ground arith in
        (
          write_le n h.bytes dst (pattern_of b),
          rw (f, z, mem_write-done dst (pattern_of b) n h d),
          write-Filled h.bytes dst b n lb short,
        )
  ]
]

-- mem_memset of `n` bytes of the heap ends without fault, gives back the destination, and leaves
-- the low byte of `c` in each of them; every other byte and every variable keeps its value.
pub mem_memset-Filled :
    (h : Machine) (dst c n : ℕ)
    → InHeap n dst h
    → (g : Bytes) × (mem_memset dst c n h ≡ done dst (with_bytes h g))
      × Filled h.bytes dst (c % 256) n g
unfolding mem_memset
mem_memset-Filled h dst c n d =
    let (g, run, filled) =
      set_loop-Filled (suc n) h dst (c % 256) n (omega arith) (omega arith) d in
    (g, rw run, filled)
