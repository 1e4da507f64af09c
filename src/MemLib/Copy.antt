-- ===== src/MemLib/Copy.antt =====
-- memlib.c: mem_memcpy and mem_memset, which work by words and end with the bytes left over.
-- Each loop takes a round of fuel for every byte, more than it can use.
pub mod Copied
pub mod Filled
use malloc_implementation.Base.{ℕ, zero, suc, ◌+◌, ◌-◌, ◌*◌, ◌^◌, ◌%◌, leb, ◌==◌, if◌then◌else◌}
use malloc_implementation.Machine.{Cmd, out_of_fuel, pure, ◌>>=◌, ◌>>◌, skip, mem_read, mem_write}

abbrev pub word_size : ℕ
word_size = 8

unfoldable pub copy_loop : ℕ → ℕ → ℕ → ℕ → Cmd (Unit {0})
copy_loop zero dst src num_bytes = λ _. out_of_fuel
copy_loop (suc fuel) dst src num_bytes =
    if leb word_size num_bytes
    then (do
      word ← mem_read src word_size
      mem_write dst word word_size
      copy_loop fuel (dst + word_size) (src + word_size) (num_bytes - word_size))
    else if num_bytes == 0
    then skip
    else (do word ← mem_read src num_bytes; mem_write dst word num_bytes)

unfoldable pub mem_memcpy : ℕ → ℕ → ℕ → Cmd ℕ
unfolding copy_loop
mem_memcpy dst src num_bytes = do copy_loop (suc num_bytes) dst src num_bytes; pure dst

-- `data | (byte << (8 * i))` for the `rounds` values of `i` that are left. The bytes do not
-- overlap, so that `|` adds.
unfoldable pub fill_word : ℕ → ℕ → ℕ → ℕ → ℕ
fill_word zero i byte word = word
fill_word (suc rounds) i byte word = fill_word rounds (i + 1) byte (word + byte * 2 ^ (8 * i))

unfoldable pub set_loop : ℕ → ℕ → ℕ → ℕ → Cmd (Unit {0})
set_loop zero dst word num_bytes = λ _. out_of_fuel
set_loop (suc fuel) dst word num_bytes =
    if leb word_size num_bytes
    then (do
      mem_write dst word word_size
      set_loop fuel (dst + word_size) word (num_bytes - word_size))
    else if num_bytes == 0
    then skip
    else mem_write dst word num_bytes

unfoldable pub mem_memset : ℕ → ℕ → ℕ → Cmd ℕ
unfolding fill_word set_loop
mem_memset dst c num_bytes = do
  set_loop (suc num_bytes) dst (fill_word word_size 0 (c % 256) 0) num_bytes
  pure dst
