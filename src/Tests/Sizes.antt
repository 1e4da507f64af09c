-- ===== src/Tests/Sizes.antt =====
-- The sizes and header words of mm.c at concrete values.
use malloc_implementation.Base.{◌+◌, ◌%◌, ◌≤◌, ◌<◌, ◌≡◌, refl, arith}
use malloc_implementation.Base.Word.{word_mod}
use malloc_implementation.Mm.Header.{find_index, adjusted_size}
use malloc_implementation.Mm.Header.Sizes.{adjusted_size_bounds, adjusted_size_wraps}

adjusted_size_bounds_example :
    (adjusted_size 100 % 16 ≡ 0)
    × (16 ≤ adjusted_size 100)
    × (100 + 8 ≤ adjusted_size 100)
    × (adjusted_size 100 ≤ 100 + 23)
    × (adjusted_size 100 < word_mod)
adjusted_size_bounds_example = adjusted_size_bounds 100 (omega arith)

-- malloc(SIZE_MAX)
adjusted_size_wraps_example : adjusted_size 0xffff_ffff_ffff_ffff ≡ 16
adjusted_size_wraps_example = adjusted_size_wraps 0xffff_ffff_ffff_ffff (omega arith) (omega arith)

index_of_chunk : find_index 4096 ≡ 8
unfolding find_index
index_of_chunk = refl

size_of_request : adjusted_size 100 ≡ 112
unfolding adjusted_size
size_of_request = refl
