-- ===== src/Memory/Copy.antt =====
-- Little-endian integers byte by byte: moving an integer moves its bytes.
use malloc_implementation.Base.{
  ℕ, zero, suc, ◌+◌, ◌/◌, ◌%◌, ◌<◌, ◌≡◌, arith, update, update_self, inl,
}
use malloc_implementation.Memory.{Bytes, read_le, write_le}
use malloc_implementation.Memory.Words.{write_le-outside}

-- The byte at offset `i` of a little-endian integer.
unfoldable pub byte_of : ℕ → ℕ → ℕ
byte_of v zero = v % 256
byte_of v (suc i) = byte_of (v / 256) i

pub write_le-byte : (n : ℕ) (m : Bytes) (a v i : ℕ) → i < n → write_le n m a v (a + i) ≡ byte_of v i
unfolding write_le byte_of
write_le-byte zero m a v i h = absurd (omega arith)
write_le-byte (suc n) m a v zero h = ground (
  arith,
  write_le-outside n (update m a (v % 256)) (a + 1) (v / 256) a (inl (omega arith)),
  update_self m a (v % 256),
)
write_le-byte (suc n) m a v (suc i) h =
    ground (arith, write_le-byte n (update m a (v % 256)) (a + 1) (v / 256) i (omega arith))

pub byte_of-read_le :
    (n : ℕ) (m : Bytes) (a i : ℕ) → i < n → byte_of (read_le n m a) i ≡ m (a + i) % 256
unfolding read_le byte_of
byte_of-read_le zero m a i h = absurd (omega arith)
byte_of-read_le (suc n) m a zero h = ground arith
byte_of-read_le (suc n) m a (suc i) h = ground (arith, byte_of-read_le n m (a + 1) i (omega arith))
