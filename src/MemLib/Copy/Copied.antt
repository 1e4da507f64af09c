-- ===== src/MemLib/Copy/Copied.antt =====
-- mem_memcpy copies the bytes, for source and destination in the heap that do not overlap.
use malloc_implementation.Base.{
  ℕ, zero, suc, ◌+◌, ◌-◌, ◌/◌, ◌%◌, ◌≤◌, ◌<◌, ◌≡◌, refl, sym, ◌∙◌, ap, ◌⊎◌, inl, inr, arith,
  Bool-cases, leb, ◌==◌,
}
use native.Mathlib.Decide.{dec_lt}
use malloc_implementation.Memory.{Bytes, read_le, write_le}
use malloc_implementation.Memory.Words.{write_le-outside}
use malloc_implementation.Memory.Copy.{byte_of, write_le-byte, byte_of-read_le}
use malloc_implementation.Machine.{Machine, done, with_bytes}
use malloc_implementation.Machine.Access.{InHeap, mem_read-done, mem_write-done}
use malloc_implementation.MemLib.Copy.{word_size, copy_loop, mem_memcpy}

-- The ranges of `n` bytes do not overlap.
abbrev pub Disjoint : ℕ → ℕ → ℕ → Type 0
Disjoint n dst src = (dst + n ≤ src) ⊎ (src + n ≤ dst)

-- The memory `g` is `m` but for the `n` bytes from `dst`, which are those from `src`.
pub record Copied (m : Bytes) (dst src n : ℕ) (g : Bytes) : Type 0 where
  pub copied : (i : ℕ) → i < n → g (dst + i) % 256 ≡ m (src + i) % 256
  pub kept : (a : ℕ) → (a < dst) ⊎ (dst + n ≤ a) → g a ≡ m a

byte_of-mod : (v i : ℕ) → byte_of v i % 256 ≡ byte_of v i
unfolding byte_of
byte_of-mod v zero = omega arith
byte_of-mod v (suc i) = byte_of-mod (v / 256) i

-- One integer moved.
move-Copied : (m : Bytes) (dst src n : ℕ) → Copied m dst src n (write_le n m dst (read_le n m src))
move-Copied m dst src n = record {
  copied = λ i h. omega (
    arith,
    write_le-byte n m dst (read_le n m src) i h,
    byte_of-read_le n m src i h,
    byte_of-mod (read_le n m src) i,
  );
  kept = λ a o. write_le-outside n m dst (read_le n m src) a o;
}

-- A first part of `k` bytes and then the rest.
Copied-trans :
    (m g f : Bytes) (dst src k n : ℕ)
    → k ≤ n
    → Disjoint n dst src
    → Copied m dst src k g
    → Copied g (dst + k) (src + k) (n - k) f
    → Copied m dst src n f
Copied-trans m g f dst src k n le apart c d = record {
  copied = λ i h. elim (dec_lt i k) [
    | yes l ↦ omega (arith, d.kept (dst + i) (inl (omega arith)), c.copied i l)
    | no l ↦ later i h (omega arith)
  ];
  kept = λ a o. d.kept a (omega arith) ∙ c.kept a (omega arith);
}
  where
    later : (i : ℕ) → i < n → k ≤ i → f (dst + i) % 256 ≡ m (src + i) % 256
    later i h l =
        let e : dst + k + (i - k) ≡ dst + i = omega arith in
        let e' : src + k + (i - k) ≡ src + i = omega arith in
        sym (ap (λ a. f a % 256) e)
        ∙ d.copied (i - k) (omega arith)
        ∙ ap (λ a. g a % 256) e'
        ∙ ap (λ v. v % 256) (c.kept (src + i) (omega arith))

copy_loop-Copied :
    (fuel : ℕ) (h : Machine) (dst src n : ℕ)
    → n < fuel
    → InHeap n dst h
    → InHeap n src h
    → Disjoint n dst src
    → (g : Bytes) × (copy_loop fuel dst src n h ≡ done tt (with_bytes h g))
      × Copied h.bytes dst src n g
unfolding copy_loop
copy_loop-Copied zero h dst src n lt d s apart = absurd (omega arith)
copy_loop-Copied (suc fuel) h dst src n lt d s apart = elim (Bool-cases (leb word_size n)) [
  | inl t ↦
      let le : 8 ≤ n = ground arith in
      let g : Bytes = write_le 8 h.bytes dst (read_le 8 h.bytes src) in
      let (f, run, rest) =
        copy_loop-Copied fuel (with_bytes h g) (dst + 8) (src + 8) (n - 8) (omega arith)
          (omega arith) (omega arith) (omega arith) in
      (
        f,
        rw
            (
              t,
              mem_read-done src 8 h (omega arith),
              mem_write-done dst (read_le 8 h.bytes src) 8 h (omega arith),
            )
            run,
        Copied-trans h.bytes g f dst src 8 n le apart (move-Copied h.bytes dst src 8) rest,
      )
  | inr f ↦ elim (Bool-cases (n == 0)) [
    | inl z ↦
        let none_left : n ≡ 0 = ground arith in
        (h.bytes, rw (f, z), record { copied = λ i l. absurd (omega arith); kept = λ a o. refl })
    | inr z ↦ (
      write_le n h.bytes dst (read_le n h.bytes src),
      rw (f, z, mem_read-done src n h s, mem_write-done dst (read_le n h.bytes src) n h d),
      move-Copied h.bytes dst src n,
    )
  ]
]

-- mem_memcpy of `n` bytes between ranges of the heap that do not overlap ends without fault, gives
-- back the destination, and leaves there the bytes of the source; every other byte and every
-- variable keeps its value.
pub mem_memcpy-Copied :
    (h : Machine) (dst src n : ℕ)
    → InHeap n dst h
    → InHeap n src h
    → Disjoint n dst src
    → (g : Bytes) × (mem_memcpy dst src n h ≡ done dst (with_bytes h g))
      × Copied h.bytes dst src n g
unfolding mem_memcpy
mem_memcpy-Copied h dst src n d s apart =
    let (g, run, c) = copy_loop-Copied (suc n) h dst src n (omega arith) d s apart in (g, rw run, c)
