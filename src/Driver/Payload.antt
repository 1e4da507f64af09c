-- ===== src/Driver/Payload.antt =====
-- mdriver.c: the random bytes that the driver writes into payloads, and their test.
pub mod Intact
pub mod Ended
use malloc_implementation.Base.{
  ℕ, zero, suc, ◌+◌, ◌%◌, Bool, true, ltb, ◌==◌, if◌then◌else◌, update,
}
use malloc_implementation.Machine.{Cmd, pure, ◌>>=◌, ◌>>◌, skip, mem_read, mem_write}
use malloc_implementation.Driver.Ranges.{DebugMode, is_none}

-- The arrays of trace_t that change while it is replayed.
pub record Blocks : Type 0 where
  pub blocks : ℕ → ℕ
  pub block_sizes : ℕ → ℕ
  pub block_rand_base : ℕ → ℕ

-- The driver's settings: the debug mode, `maxfill`, the length of `random_data` and its bytes.
pub record Settings : Type 0 where
  pub mode : DebugMode
  pub maxfill : ℕ
  pub random_data_len : ℕ
  pub random_data : ℕ → ℕ

unfoldable pub random_byte : Settings → ℕ → ℕ → ℕ
random_byte s base i = s.random_data ((base + i) % s.random_data_len)

-- The loop of randomize_block from byte `i`, with `rounds` left.
unfoldable pub fill_loop : Settings → ℕ → ℕ → ℕ → ℕ → Cmd (Unit {0})
unfolding random_byte
fill_loop s zero i block base = skip
fill_loop s (suc rounds) i block base = do
  mem_write (block + i) (random_byte s base i) 1
  fill_loop s rounds (i + 1) block base

unfoldable pub filled_size : Settings → ℕ → ℕ
filled_size s size = if ltb s.maxfill size then s.maxfill else size

-- randomize_block, where `random` is what the C library's random() returns.
unfoldable pub randomize_block : Settings → ℕ → Blocks → ℕ → Cmd Blocks
unfolding fill_loop filled_size
randomize_block s random t index = if is_none s.mode then pure t else (do
  fill_loop s (filled_size s (t.block_sizes index)) 0 (t.blocks index) random
  pure (record t { block_rand_base = update t.block_rand_base index random }))

-- The loop of check_index from byte `i`, with `rounds` left: the number of garbled bytes.
unfoldable pub garbled_loop : Settings → ℕ → ℕ → ℕ → ℕ → ℕ → Cmd ℕ
unfolding random_byte
garbled_loop s zero i block base garbled = pure garbled
garbled_loop s (suc rounds) i block base garbled = do
  byte ← mem_read (block + i) 1
  garbled_loop s rounds (i + 1) block base
      (if byte == random_byte s base i then garbled else garbled + 1)

-- check_index of an index that is not negative.
unfoldable pub check_index : Settings → Blocks → ℕ → Cmd Bool
unfolding garbled_loop filled_size
check_index s t index = if is_none s.mode then pure true else (do
  garbled ←
      garbled_loop s (filled_size s (t.block_sizes index)) 0 (t.blocks index)
        (t.block_rand_base index) 0
  pure (garbled == 0))
