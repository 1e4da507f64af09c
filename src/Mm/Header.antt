-- ===== src/Mm/Header.antt =====
-- mm.c: the packed header words, the rounding of sizes and the choice of a size class.
-- A single-bit `|` is written by its arithmetic: the bit is added where it is clear.
pub mod Pack
pub mod Sizes
use malloc_implementation.Base.{
  ℕ, zero, suc, ◌+◌, ◌-◌, ◌*◌, ◌/◌, ◌%◌, ◌^◌, Bool, true, false, ltb, leb, ◌==◌, if◌then◌else◌,
}
use malloc_implementation.Base.Word.{word_mod, add64, mul64}

abbrev pub wsize : ℕ
wsize = 8

abbrev pub dsize : ℕ
dsize = 16

abbrev pub min_block_size : ℕ
min_block_size = 16

abbrev pub chunksize : ℕ
chunksize = 4096

abbrev pub num_segs : ℕ
num_segs = 15

-- `w | 2 ^ k`
unfoldable pub or_bit : ℕ → ℕ → ℕ
or_bit w k = if (w / 2 ^ k) % 2 == 1 then w else w + 2 ^ k

-- `(bool)((w & 2 ^ k) >> k)`
unfoldable pub test_bit : ℕ → ℕ → Bool
test_bit w k = (w / 2 ^ k) % 2 == 1

unfoldable pub max : ℕ → ℕ → ℕ
max x y = if ltb y x then x else y

unfoldable pub round_up : ℕ → ℕ → ℕ
round_up size n = mul64 n (add64 size (n - 1) / n)

unfoldable pub pack : ℕ → Bool → Bool → Bool → ℕ
unfolding or_bit
pack size alloc is_prev_alloc is_prev_mini_block =
    let word = if alloc then or_bit size 0 else size in
    let word' = if is_prev_alloc then or_bit word 1 else word in
    if is_prev_mini_block then or_bit word' 2 else word'

-- `word & ~0xF`
unfoldable pub extract_size : ℕ → ℕ
extract_size word = word / 16 * 16

unfoldable pub extract_alloc : ℕ → Bool
unfolding test_bit
extract_alloc word = test_bit word 0

unfoldable pub extract_prev_alloc : ℕ → Bool
unfolding test_bit
extract_prev_alloc word = test_bit word 1

unfoldable pub extract_prev_mini_block : ℕ → Bool
unfolding test_bit
extract_prev_mini_block word = test_bit word 2

-- The loop of findIndex over the classes `i`, with `rounds` of them left.
unfoldable pub find_index_loop : ℕ → ℕ → ℕ → ℕ
find_index_loop zero i size = num_segs - 1
find_index_loop (suc rounds) i size =
    let next = find_index_loop rounds (i + 1) size in
    if ltb size (min_block_size * 2 ^ (i + 1)) then i else next

unfoldable pub find_index : ℕ → ℕ
unfolding find_index_loop
find_index size = if leb size min_block_size then 0 else find_index_loop (num_segs - 1) 0 size

-- The block size that malloc asks for: header and payload, rounded up.
unfoldable pub adjusted_size : ℕ → ℕ
unfolding max round_up
adjusted_size size = max (round_up (add64 size wsize) dsize) min_block_size
