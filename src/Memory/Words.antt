-- ===== src/Memory/Words.antt =====
-- Reads after writes of little-endian integers.
use native.Mathlib.Nat.{pow-suc}
use malloc_implementation.Base.{
  ℕ, zero, suc, ◌+◌, ◌/◌, ◌%◌, ◌^◌, ◌≤◌, ◌<◌, ◌≡◌, refl, arith, ◌⊎◌, update, update_self,
}
use malloc_implementation.Base.Word.{word_mod}
use malloc_implementation.Memory.{Bytes, read_le, write_le}

-- A write leaves the bytes outside its own range alone.
pub write_le-outside :
    (n : ℕ) (m : Bytes) (a v b : ℕ) → (b < a) ⊎ (a + n ≤ b) → write_le n m a v b ≡ m b
unfolding write_le
write_le-outside zero m a v b h = refl
write_le-outside (suc n) m a v b h =
    ground (arith, write_le-outside n (update m a (v % 256)) (a + 1) (v / 256) b)

-- A read depends on the bytes of its range only.
pub read_le-cong :
    (n : ℕ) (m g : Bytes) (a : ℕ)
    → ((b : ℕ) → a ≤ b → b < a + n → g b ≡ m b)
    → read_le n g a ≡ read_le n m a
unfolding read_le
read_le-cong zero m g a same = refl
read_le-cong (suc n) m g a same = ground (
  arith,
  same a (omega arith) (omega arith),
  read_le-cong n m g (a + 1) (λ b l h. same b (omega arith) (omega arith)),
)

pub read_le-write_le_other :
    (n k : ℕ) (m : Bytes) (a v b : ℕ)
    → (a + k ≤ b) ⊎ (b + n ≤ a)
    → read_le n (write_le k m a v) b ≡ read_le n m b
read_le-write_le_other n k m a v b apart =
    read_le-cong n m (write_le k m a v) b (λ c l h. write_le-outside k m a v c (omega arith))

pub read_le-lt : (n : ℕ) (m : Bytes) (a : ℕ) → read_le n m a < 256 ^ n
unfolding read_le
read_le-lt zero m a = omega arith
read_le-lt (suc n) m a = rw (pow-suc) (omega (arith, read_le-lt n m (a + 1)))

-- A read of what was written gives its low bytes.
pub read_le-write_le :
    (n : ℕ) (m : Bytes) (a v : ℕ) → v < 256 ^ n → read_le n (write_le n m a v) a ≡ v
unfolding read_le write_le
read_le-write_le zero m a v h = omega arith
read_le-write_le (suc n) m a v h = omega (
  arith,
  write_le-outside n (update m a (v % 256)) (a + 1) (v / 256) a (omega arith),
  update_self m a (v % 256),
  read_le-write_le n (update m a (v % 256)) (a + 1) (v / 256) (omega (arith, pow-suc 256 n)),
)

-- The word at an address: what `*(uint64_t * )a` reads and writes.
unfoldable pub word : Bytes → ℕ → ℕ
word m a = read_le 8 m a

unfoldable pub set_word : Bytes → ℕ → ℕ → Bytes
set_word m a v = write_le 8 m a v

pub word-lt : (m : Bytes) (a : ℕ) → word m a < word_mod
unfolding word
word-lt m a = read_le-lt 8 m a

pub word-set_word : (m : Bytes) (a v : ℕ) → v < word_mod → word (set_word m a v) a ≡ v
unfolding word set_word
word-set_word m a v h = read_le-write_le 8 m a v h

pub word-set_word_other :
    (m : Bytes) (a v b : ℕ) → (a + 8 ≤ b) ⊎ (b + 8 ≤ a) → word (set_word m a v) b ≡ word m b
unfolding word set_word
word-set_word_other m a v b apart = read_le-write_le_other 8 8 m a v b apart
