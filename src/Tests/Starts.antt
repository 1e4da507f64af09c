-- ===== src/Tests/Starts.antt =====
-- mm_init, the first malloc and a malloc that extends the heap.
use malloc_implementation.Base.{
  ℕ, ◌-◌, ◌<◌, ◌≡◌, refl, inl, inr, List, [], ◌∷◌, arith, true, false, Bool-cases, All, length,
  ◌==◌, if◌then◌else◌,
}
use malloc_implementation.Memory.{read_le}
use malloc_implementation.Memory.Words.{word}
use malloc_implementation.Machine.{Machine}
use malloc_implementation.Machine.Returns.{Returns}
use malloc_implementation.Mm.Header.{
  chunksize, adjusted_size, find_index, max, round_up, num_segs, extract_prev_alloc, extract_size,
}
use malloc_implementation.Mm.FreeList.Lists.{Node, Singly}
use malloc_implementation.Mm.Fit.Best.{best_fit, fitting, improve, smallest}
use malloc_implementation.Mm.Fit.Scan.{Classes, best_of_classes}
use malloc_implementation.Mm.Coalesce.Extend.{Extendable, Extended}
use malloc_implementation.Mm.Alloc.{mm_init, malloc}
use malloc_implementation.Mm.Alloc.Init.{Startable, Ready, chunk_class, mm_init-Ready}
use malloc_implementation.Mm.Alloc.First.{malloc-first}
use malloc_implementation.Mm.Alloc.Served.{Served}
use malloc_implementation.Mm.Alloc.Grown.{Allocated, malloc-Grown}

-- An empty heap from 64.
abbrev empty_heap : Machine
empty_heap = record {
  region = record {
    sparse = false;
    heap = 64;
    mem_brk = 64;
    mem_max_addr = 65536;
    bytes = λ a. 7;
    errno = 0;
    os_grants = λ n. true;
    os_calls = 0;
  };
  heap_start = 0;
  seg_list = λ i. 5;
}

empty_heap-Startable : Startable empty_heap 64
empty_heap-Startable = record {
  brk_is = refl;
  low = omega arith;
  granted = record { nonnegative = omega arith; fits = omega arith; os = inr refl };
  granted_chunk = record { nonnegative = omega arith; fits = omega arith; os = inr refl };
  top = omega arith;
}

mm_init-Ready_example : Returns (λ ok g. (ok ≡ true) × Ready empty_heap 64 g) (mm_init 2 empty_heap)
mm_init-Ready_example = mm_init-Ready empty_heap 64 empty_heap-Startable 2

asize_100 : adjusted_size 100 ≡ 112
unfolding adjusted_size max round_up
asize_100 = refl

malloc-first_example :
    Returns
      (λ p e.
        (p ≡ 80)
        × ((g : Machine) × Ready empty_heap 64 g
            × Served g 100 72 chunksize chunk_class [] []
                (find_index (chunksize - adjusted_size 100))
                []
                e))
      (malloc 2 100 empty_heap)
malloc-first_example =
    malloc-first empty_heap 64 2 100 refl empty_heap-Startable (omega arith) (omega arith)
      (omega arith) (omega (arith, asize_100))

-- A free block of 64 bytes at 72, an allocated one at 136 and the epilogue at 152.
abbrev full_heap : Machine
full_heap = record empty_heap {
  region = record (empty_heap.region) {
    mem_brk = 160;
    bytes = λ a. if a == 72 then 66 else if a == 136 then 17 else if a == 152 then 3 else 0;
  };
  heap_start = 72;
  seg_list = λ i. if i == 2 then 72 else 0;
}

abbrev full_lists : ℕ → List ℕ
full_lists i = if i == 2 then 72 ∷ [] else []

Node-72 : Node full_heap 72
Node-72 = record {
  positive = omega arith;
  low = omega arith;
  high = omega arith;
  small = omega arith;
}

by_class :
    (P : ℕ → List ℕ → Type 0)
    → P 72 (72 ∷ [])
    → P 0 []
    → (i : ℕ) → P (full_heap.seg_list i) (full_lists i)
by_class P full empty i = elim (Bool-cases (i == 2)) [ inl t ↦ rw t full | inr f ↦ rw f empty ]

full_heap-Classes : Classes full_heap full_lists 2
unfolding word read_le
full_heap-Classes = record {
  chain = λ i lt. by_class (λ p xs. Singly full_heap.bytes p xs) (refl, refl) refl i;
  nodes = λ i lt. by_class (λ p xs. All (Node full_heap) xs) (Node-72, tt) tt i;
  short = λ i lt. by_class (λ p xs. length xs < 2) (omega arith) (omega arith) i;
}

full_heap-Extendable : Extendable full_heap 152 5008
unfolding word read_le extract_prev_alloc
full_heap-Extendable = record {
  brk_is = refl;
  low = omega arith;
  prev_allocated = refl;
  granted = record { nonnegative = omega arith; fits = omega arith; os = inr refl };
  aligned = refl;
  room = omega arith;
  top = omega arith;
}

asize_5000 : adjusted_size 5000 ≡ 5008
unfolding adjusted_size max round_up
asize_5000 = refl

rounded_5000 : round_up (max (adjusted_size 5000) chunksize) 16 ≡ 5008
unfolding adjusted_size max round_up
rounded_5000 = refl

none_5000 :
    best_of_classes full_heap.bytes
      (adjusted_size 5000)
      full_lists
      (num_segs - find_index (adjusted_size 5000))
      (find_index (adjusted_size 5000))
    ≡ 0
unfolding adjusted_size max round_up find_index best_of_classes best_fit fitting improve smallest
    word read_le extract_size
none_5000 = refl

malloc-Grown_example :
    Returns
      (λ p k.
        (p ≡ 160)
        × ((g : Machine) × Extended full_heap 152 5008 g
            × Allocated g 152 5008 (adjusted_size 5000) 0 [] k))
      (malloc 2 5000 full_heap)
malloc-Grown_example =
    malloc-Grown full_heap full_lists 2 5000 152 5008 0 [] (omega arith) (omega arith) (omega arith)
      full_heap-Classes none_5000 rounded_5000 (omega arith) full_heap-Extendable (inl asize_5000)
