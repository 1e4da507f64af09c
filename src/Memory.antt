-- ===== src/Memory.antt =====
-- Byte-addressed memory, and the reading and writing of little-endian integers in it (what the
-- C code does through `uint64_t` and pointer lvalues, and memlib.c by memcpy).
pub mod Words
pub mod Copy
pub mod Split
use malloc_implementation.Base.{ℕ, zero, suc, ◌+◌, ◌*◌, ◌/◌, ◌%◌, update}

-- The content of each address; a read keeps the low eight bits.
abbrev pub Bytes : Type 0
Bytes = ℕ → ℕ

-- The integer in the `n` bytes from `a`, the lowest byte first.
unfoldable pub read_le : ℕ → Bytes → ℕ → ℕ
read_le zero m a = 0
read_le (suc n) m a = m a % 256 + 256 * read_le n m (a + 1)

-- The low `n` bytes of `v`, stored from `a`.
unfoldable pub write_le : ℕ → Bytes → ℕ → ℕ → Bytes
write_le zero m a v = m
write_le (suc n) m a v = write_le n (update m a (v % 256)) (a + 1) (v / 256)
