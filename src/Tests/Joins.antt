-- ===== src/Tests/Joins.antt =====
-- Coalescing in a small heap.
use malloc_implementation.Base.{◌+◌, [], ◌∷◌, ◌≡◌, refl, arith, ◌==◌, if◌then◌else◌, true, false}
use malloc_implementation.Memory.{read_le}
use malloc_implementation.Memory.Words.{word}
use malloc_implementation.Machine.{Machine}
use malloc_implementation.Machine.Returns.{Returns}
use malloc_implementation.Mm.Header.{extract_size, extract_alloc, extract_prev_alloc, find_index}
use malloc_implementation.Mm.Coalesce.Next.{NextFree, Joined, coalesce_block-JoinedNext}
use malloc_implementation.Mm.Coalesce.Prev.{PrevFree, EndMarkedFree, coalesce_block-EndMarkedFree}
use malloc_implementation.Mm.Alloc.{free}
use malloc_implementation.Mm.Alloc.Freed.{Releasable, Freed, free-Freed}
use malloc_implementation.Mm.Coalesce.{coalesce_block}
use malloc_implementation.Mm.Coalesce.Alone.{Between}

-- Allocated blocks of 32 bytes at 72 and of 48 bytes at 104.
abbrev two_blocks : Machine
two_blocks = record {
  region = record {
    sparse = false;
    heap = 64;
    mem_brk = 1024;
    mem_max_addr = 4096;
    bytes = λ a. if a == 72 then 35 else if a == 104 then 51 else 0;
    errno = 0;
    os_grants = λ n. true;
    os_calls = 0;
  };
  heap_start = 72;
  seg_list = λ i. 0;
}

two_blocks-Between : Between two_blocks 72 32 48
unfolding word read_le extract_size extract_alloc extract_prev_alloc
two_blocks-Between = record {
  fits = record {
    low = omega arith;
    header = omega arith;
    footer = omega arith;
    aligned = refl;
    small = omega arith;
  };
  room = omega arith;
  size_is = refl;
  prev_allocated = refl;
  next_fits = record {
    low = omega arith;
    header = omega arith;
    footer = omega arith;
    aligned = refl;
    small = omega arith;
  };
  next_size_is = refl;
  next_allocated = refl;
}

two_blocks-Releasable : Releasable two_blocks 72 32 48 1 []
unfolding find_index
two_blocks-Releasable = record {
  between = two_blocks-Between;
  positive = omega arith;
  room = omega arith;
  top = omega arith;
  class = refl;
  doubly = omega arith;
  links = refl;
  nodes = tt;
  separated = tt;
  clear = tt;
}

free-Freed_example : Returns (λ _ k. Freed two_blocks 72 32 48 1 [] k) (free 5 80 two_blocks)
free-Freed_example = free-Freed two_blocks 72 32 48 1 [] two_blocks-Releasable 5

-- An allocated block of 32 bytes at 72 in front of a free one in class 1.
abbrev free_behind : Machine
free_behind = record two_blocks {
  region = record (two_blocks.region) {
    bytes = λ a. if a == 72 then 35 else if a == 104 then 34 else 0;
  };
  seg_list = λ i. if i == 1 then 104 else 0;
}

free_behind-NextFree : NextFree free_behind 72 32 32 1 [] []
unfolding word read_le extract_size extract_alloc extract_prev_alloc find_index
free_behind-NextFree = record {
  fits = record {
    low = omega arith;
    header = omega arith;
    footer = omega arith;
    aligned = refl;
    small = omega arith;
  };
  room = omega arith;
  size_is = refl;
  prev_allocated = refl;
  next_fits = record {
    low = omega arith;
    header = omega arith;
    footer = omega arith;
    aligned = refl;
    small = omega arith;
  };
  next_room = omega arith;
  next_size_is = refl;
  next_free = refl;
  total_small = omega arith;
  class = refl;
  doubly = omega arith;
  links = (refl, refl, refl);
  nodes = (
    record { positive = omega arith; low = omega arith; high = omega arith; small = omega arith },
    tt,
  );
  separated = (tt, tt);
  clear = tt;
}

coalesce_block-JoinedNext_example :
    Returns
      (λ p g. (p ≡ 72) × Joined free_behind 1 (104 ∷ []) [] 72 (32 + 32) (72 + 32 + 32) g)
      (coalesce_block 5 72 free_behind)
coalesce_block-JoinedNext_example =
    coalesce_block-JoinedNext 5 free_behind 72 32 32 1 [] [] free_behind-NextFree

-- A free block at 72 in class 1, an allocated block at 104, both of 32 bytes, and the epilogue at 136.
abbrev free_before : Machine
free_before = record two_blocks {
  region = record (two_blocks.region) {
    bytes = λ a.
        if a == 72
        then 34
        else if a == 96
        then 34
        else if a == 104
        then 33
        else if a == 136
        then 1
        else 0;
  };
  seg_list = λ i. if i == 1 then 72 else 0;
}

free_before-PrevFree : PrevFree free_before 72 32 32 1 [] []
unfolding word read_le extract_size extract_alloc extract_prev_alloc find_index
free_before-PrevFree = record {
  prev_fits = record {
    low = omega arith;
    header = omega arith;
    footer = omega arith;
    aligned = refl;
    small = omega arith;
  };
  prev_room = omega arith;
  prev_size_is = refl;
  footer_is = refl;
  fits = record {
    low = omega arith;
    header = omega arith;
    footer = omega arith;
    aligned = refl;
    small = omega arith;
  };
  room = omega arith;
  size_is = refl;
  prev_free = refl;
  end_high = omega arith;
  end_size = refl;
  end_allocated = refl;
  small = omega arith;
  class = refl;
  doubly = omega arith;
  links = (refl, refl, refl);
  nodes = (
    record { positive = omega arith; low = omega arith; high = omega arith; small = omega arith },
    tt,
  );
  separated = (tt, tt);
  clear = tt;
}

coalesce_block-EndMarkedFree_example :
    Returns
      (λ q g.
        (q ≡ 72)
        × Joined free_before 1 (72 ∷ []) [] 72 (32 + 32) (72 + 32 + 32 + 8) g
        × EndMarkedFree g.bytes (72 + 32 + 32))
      (coalesce_block 5 (72 + 32) free_before)
coalesce_block-EndMarkedFree_example =
    coalesce_block-EndMarkedFree 5 free_before 72 32 32 1 [] [] free_before-PrevFree
