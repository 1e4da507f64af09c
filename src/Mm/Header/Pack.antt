-- ===== src/Mm/Header/Pack.antt =====
-- The header words of mm.c: packing and extraction are inverse.
use malloc_implementation.Base.{ℕ, ◌+◌, ◌/◌, ◌%◌, ◌≤◌, ◌<◌, ◌≡◌, Bool, true, arith, if◌then◌else◌}
use malloc_implementation.Base.Word.{word_mod}
use malloc_implementation.Mm.Header.{
  or_bit, test_bit, pack, extract_size, extract_alloc, extract_prev_alloc, extract_prev_mini_block,
}

abbrev pub flag : Bool → ℕ → ℕ
flag b v = if b then v else 0

-- The word that `pack` builds from a size whose low four bits are clear.
pub pack-sum :
    (size : ℕ) (alloc prev mini : Bool)
    → size % 16 ≡ 0
    → pack size alloc prev mini ≡ size + flag alloc 1 + flag prev 2 + flag mini 4
unfolding pack or_bit
pack-sum size alloc prev mini h = ground arith

-- Every field that `pack` puts into a header comes back from it, for a size that is a multiple of
-- 16, and the header of a size below 2 ^ 64 is a word.
pub pack_fields :
    (size : ℕ) (alloc prev mini : Bool)
    → size % 16 ≡ 0
    → size < word_mod
    → (extract_size (pack size alloc prev mini) ≡ size)
      × (extract_alloc (pack size alloc prev mini) ≡ alloc)
      × (extract_prev_alloc (pack size alloc prev mini) ≡ prev)
      × (extract_prev_mini_block (pack size alloc prev mini) ≡ mini)
      × (pack size alloc prev mini < word_mod)
unfolding extract_size extract_alloc extract_prev_alloc extract_prev_mini_block test_bit
pack_fields size alloc prev mini h lt = rw (pack-sum size alloc prev mini h) (ground arith)

-- A header word is determined by its fields, but for its unused bit 3.
pub pack-extract :
    (w : ℕ)
    → (w / 8) % 2 ≡ 0
    → pack (extract_size w) (extract_alloc w) (extract_prev_alloc w) (extract_prev_mini_block w) ≡ w
unfolding extract_size extract_alloc extract_prev_alloc extract_prev_mini_block test_bit pack or_bit
pack-extract w h = ground arith

pub extract_size-mod : (w : ℕ) → extract_size w % 16 ≡ 0
unfolding extract_size
extract_size-mod w = omega arith

pub extract_size-le : (w : ℕ) → extract_size w ≤ w
unfolding extract_size
extract_size-le w = omega arith

-- `header | 0x2` marks the previous block as allocated and changes no other field.
pub or_bit_fields :
    (w : ℕ)
    → w < word_mod
    → (extract_size (or_bit w 1) ≡ extract_size w)
      × (extract_alloc (or_bit w 1) ≡ extract_alloc w)
      × (extract_prev_alloc (or_bit w 1) ≡ true)
      × (extract_prev_mini_block (or_bit w 1) ≡ extract_prev_mini_block w)
      × (or_bit w 1 < word_mod)
unfolding extract_size extract_alloc extract_prev_alloc extract_prev_mini_block test_bit or_bit
or_bit_fields w h = ground arith
