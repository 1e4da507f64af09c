-- ===== src/Mm/Header/Sizes.antt =====
-- The sizes that mm.c computes: rounding up, the adjusted size of a request and the size class.
use native.Mathlib.Decide.{dec_lt}
use native.Mathlib.Nat.{pow-suc}
use native.Mathlib.Numerals.{towards_suc}
use malloc_implementation.Base.{
  ℕ, zero, suc, ◌+◌, ◌*◌, ◌%◌, ◌^◌, ◌≤◌, ◌<◌, ◌≡◌, refl, arith, ltb, ◌⊎◌, inl, inr, Bool-cases,
  lt_of_ltb, le_of_ltb, leb,
}
use malloc_implementation.Base.Word.{word_mod}
use malloc_implementation.Mm.Header.{
  max, round_up, find_index_loop, find_index, adjusted_size, num_segs,
}

-- round_up gives the least multiple of 16 that is not below the size, where nothing wraps.
pub round_up_least :
    (size : ℕ)
    → size + 15 < word_mod
    → (round_up size 16 % 16 ≡ 0) × (size ≤ round_up size 16) × (round_up size 16 < size + 16)
unfolding round_up
round_up_least size h = omega arith

-- The block for a request holds its header and payload, is a multiple of 16, and wastes less than
-- 16 bytes beyond the minimum; for a request that is not within 23 of 2 ^ 64.
pub adjusted_size_bounds :
    (size : ℕ)
    → size + 23 < word_mod
    → (adjusted_size size % 16 ≡ 0)
      × (16 ≤ adjusted_size size)
      × (size + 8 ≤ adjusted_size size)
      × (adjusted_size size ≤ size + 23)
      × (adjusted_size size < word_mod)
unfolding adjusted_size max round_up
adjusted_size_bounds size h = ground arith

-- For a request among the 23 largest words the sum with the header wraps around, and the block
-- that malloc asks for has the minimum size.
pub adjusted_size_wraps :
    (size : ℕ) → word_mod ≤ size + 23 → size < word_mod → adjusted_size size ≡ 16
unfolding adjusted_size max round_up
adjusted_size_wraps size h k = ground arith

loop-ge : (rounds i size : ℕ) → rounds + i ≡ 14 → i ≤ find_index_loop rounds i size
unfolding find_index_loop
loop-ge zero i size e = omega arith
loop-ge (suc rounds) i size e = ground (arith, loop-ge rounds (i + 1) size (omega arith))

loop-le : (rounds i size : ℕ) → rounds + i ≡ 14 → find_index_loop rounds i size ≤ 14
unfolding find_index_loop
loop-le zero i size e = omega arith
loop-le (suc rounds) i size e = ground (arith, loop-le rounds (i + 1) size (omega arith))

loop_mono :
    (rounds i a b : ℕ)
    → rounds + i ≡ 14
    → a ≤ b
    → find_index_loop rounds i a ≤ find_index_loop rounds i b
unfolding find_index_loop
loop_mono zero i a b e h = omega arith
loop_mono (suc rounds) i a b e h =
    ground
      (arith, loop-ge rounds (i + 1) b (omega arith), loop_mono rounds (i + 1) a b (omega arith) h)

-- The index is below the number of classes.
pub find_index-lt : (size : ℕ) → find_index size < num_segs
unfolding find_index
find_index-lt size = ground (arith, loop-le 14 0 size refl)

-- A larger size never goes to a lower class.
find_index_mono : (a b : ℕ) → a ≤ b → find_index a ≤ find_index b
unfolding find_index
find_index_mono a b h = ground (arith, loop_mono 14 0 a b refl h)

-- The bounds of the class `i`.
abbrev pub InClass : ℕ → ℕ → Type 0
InClass size i = ((i ≡ 0) ⊎ (16 * 2 ^ i ≤ size)) × ((i ≡ 14) ⊎ (size < 32 * 2 ^ i))

pow_step : (i : ℕ) → 2 ^ (i + 1) ≡ 2 ^ i * 2
pow_step i = simp towards_suc (pow-suc 2 i)

loop-InClass :
    (rounds i size : ℕ)
    → rounds + i ≡ 14
    → (i ≡ 0) ⊎ (16 * 2 ^ i ≤ size)
    → InClass size (find_index_loop rounds i size)
unfolding find_index_loop
loop-InClass zero i size e (inl z) = absurd (omega arith)
loop-InClass zero i size e (inr g) =
    let last : i ≡ 14 = omega arith in (inr (rw last at g), inl refl)
loop-InClass (suc rounds) i size e h = elim (Bool-cases (ltb size (16 * 2 ^ (i + 1)))) [
  | inl t ↦ rw t (h, inr (omega (arith, lt_of_ltb size (16 * 2 ^ (i + 1)) t, pow_step i)))
  | inr f ↦
      rw f
        (loop-InClass rounds (i + 1) size (omega arith) (inr (le_of_ltb size (16 * 2 ^ (i + 1)) f)))
]

-- findIndex puts a size into the class whose bounds hold it.
pub find_index-InClass : (size : ℕ) → InClass size (find_index size)
unfolding find_index
find_index-InClass size = elim (Bool-cases (leb size 16)) [
  | inl t ↦ rw t (inl refl, inr (ground arith))
  | inr f ↦ rw f (loop-InClass 14 0 size refl (inl refl))
]

pub lt_of_find_index : (a b : ℕ) → find_index a < find_index b → a < b
lt_of_find_index a b h = elim (dec_lt a b) [
  | yes l ↦ l
  | no l ↦ absurd (omega (arith, find_index_mono b a (omega arith)))
]
