-- ===== src/Tests/Requests.antt =====
-- malloc in a small heap with a free block that fits.
use malloc_implementation.Base.{
  ℕ, ◌+◌, ◌-◌, ◌<◌, ◌≡◌, refl, inl, inr, List, [], ◌∷◌, arith, true, false, if◌then◌else◌, ◌==◌,
  Bool-cases, All, length,
}
use malloc_implementation.Memory.{read_le}
use malloc_implementation.Memory.Words.{word}
use malloc_implementation.Machine.{Machine, done}
use malloc_implementation.Machine.Returns.{Returns}
use malloc_implementation.Mm.Header.{
  chunksize, dsize, find_index, extract_size, extract_alloc, adjusted_size, max, round_up, num_segs,
}
use malloc_implementation.Mm.FreeList.Lists.{Node, Singly}
use malloc_implementation.Mm.Fit.Best.{best_fit, fitting, improve, smallest}
use malloc_implementation.Mm.Fit.Scan.{Classes, best_of_classes}
use malloc_implementation.Mm.Alloc.{malloc}
use malloc_implementation.Mm.Alloc.Place.{Placeable}
use malloc_implementation.Mm.Alloc.Cut.{Cuttable}
use malloc_implementation.Mm.Alloc.Listed.{Listed}
use malloc_implementation.Mm.Alloc.Exact.{Used, malloc-Used}
use malloc_implementation.Mm.Alloc.Refused.{Unchanged, malloc-Unchanged}
use malloc_implementation.Mm.Alloc.Served.{Served, malloc-Served}

-- Free blocks of 144 bytes at 200 and of 32 bytes at 400, and an allocated block at 344.
abbrev stock : Machine
stock = record {
  region = record {
    sparse = false;
    heap = 64;
    mem_brk = 1024;
    mem_max_addr = 4096;
    bytes = λ a. if a == 200 then 146 else if a == 344 then 57 else if a == 400 then 34 else 0;
    errno = 0;
    os_grants = λ n. true;
    os_calls = 0;
  };
  heap_start = 72;
  seg_list = λ i. if i == 3 then 200 else if i == 1 then 400 else 0;
}

abbrev stock_lists : ℕ → List ℕ
stock_lists i = if i == 3 then 200 ∷ [] else if i == 1 then 400 ∷ [] else []

Node-stock : (b : ℕ) → 64 < b → b + 24 < 1025 → Node stock b
Node-stock b l r = record {
  positive = omega arith;
  low = omega arith;
  high = omega arith;
  small = omega arith;
}

by_class :
    (P : ℕ → List ℕ → Type 0)
    → P 200 (200 ∷ [])
    → P 400 (400 ∷ [])
    → P 0 []
    → (i : ℕ) → P (stock.seg_list i) (stock_lists i)
by_class P big little empty i = elim (Bool-cases (i == 3)) [
  | inl t ↦ rw t big
  | inr f ↦ elim (Bool-cases (i == 1)) [ inl t ↦ rw (f, t) little | inr e ↦ rw (f, e) empty ]
]

stock-Classes : Classes stock stock_lists 9
unfolding word read_le
stock-Classes = record {
  chain = λ i lt. by_class (λ p xs. Singly stock.bytes p xs) (refl, refl) (refl, refl) refl i;
  nodes = λ i lt.
      by_class (λ p xs. All (Node stock) xs) (Node-stock 200 (omega arith) (omega arith), tt)
        (Node-stock 400 (omega arith) (omega arith), tt) tt i;
  short = λ i lt. by_class (λ p xs. length xs < 9) (omega arith) (omega arith) (omega arith) i;
}

stock-Listed : Listed stock 200 144 3 [] [] 1 (400 ∷ [])
unfolding word read_le find_index
stock-Listed = record {
  class = refl;
  doubly = omega arith;
  links = (refl, refl, refl);
  nodes = (Node-stock 200 (omega arith) (omega arith), tt);
  separated = (tt, tt);
  clear = tt;
  other = inr (omega arith, (refl, refl, refl), ((omega arith, tt), tt));
}

stock-Cuttable : Cuttable stock 200 144 96 1 (400 ∷ [])
unfolding word read_le find_index extract_size extract_alloc
stock-Cuttable = record {
  low = omega arith;
  next_header = omega arith;
  top = omega arith;
  room = omega arith;
  rest = omega arith;
  aligned = refl;
  size_aligned = refl;
  size_is = refl;
  next_allocated = refl;
  class = refl;
  doubly = omega arith;
  nodes = (Node-stock 400 (omega arith) (omega arith), tt);
  separated = (tt, tt);
  clear = (omega arith, tt);
}

asize_80 : adjusted_size 80 ≡ 96
unfolding adjusted_size max round_up
asize_80 = refl

stock-best :
    best_of_classes stock.bytes
      (adjusted_size 80)
      stock_lists
      (num_segs - find_index (adjusted_size 80))
      (find_index (adjusted_size 80))
    ≡ 200
unfolding adjusted_size max round_up find_index best_of_classes best_fit fitting improve smallest
    word read_le extract_size
stock-best = refl

malloc-Served_example :
    Returns (λ p e. (p ≡ 208) × Served stock 80 200 144 3 [] [] 1 (400 ∷ []) e) (malloc 9 80 stock)
malloc-Served_example =
    malloc-Served stock stock_lists 9 80 200 144 3 [] [] 1 (400 ∷ []) (omega arith) (omega arith)
      (omega arith) stock-Classes stock-best stock-Listed (rw asize_80 stock-Cuttable)

asize_136 : adjusted_size 136 ≡ 144
unfolding adjusted_size max round_up
asize_136 = refl

stock-best_136 :
    best_of_classes stock.bytes
      (adjusted_size 136)
      stock_lists
      (num_segs - find_index (adjusted_size 136))
      (find_index (adjusted_size 136))
    ≡ 200
unfolding adjusted_size max round_up find_index best_of_classes best_fit fitting improve smallest
    word read_le extract_size
stock-best_136 = refl

stock-Listed_whole : Listed stock 200 144 3 [] [] 3 []
unfolding word read_le find_index
stock-Listed_whole = record {
  class = refl;
  doubly = omega arith;
  links = (refl, refl, refl);
  nodes = (Node-stock 200 (omega arith) (omega arith), tt);
  separated = (tt, tt);
  clear = tt;
  other = inl (refl, refl);
}

stock-Placeable : Placeable stock 200 144
unfolding word read_le extract_size extract_alloc
stock-Placeable = record {
  fits = record {
    low = omega arith;
    header = omega arith;
    footer = omega arith;
    aligned = refl;
    small = omega arith;
  };
  room = omega arith;
  size_is = refl;
  next_header = omega arith;
  next_allocated = refl;
}

malloc-Used_example :
    Returns (λ p e. (p ≡ 208) × Used stock 136 200 144 3 [] [] e) (malloc 9 136 stock)
malloc-Used_example =
    malloc-Used stock stock_lists 9 136 200 144 3 [] [] (omega arith) (omega arith) (omega arith)
      stock-Classes stock-best_136 stock-Listed_whole stock-Placeable (omega arith)
      (omega (arith, asize_136)) (omega (arith, asize_136))

stock-best_5000 :
    best_of_classes stock.bytes
      (adjusted_size 5000)
      stock_lists
      (num_segs - find_index (adjusted_size 5000))
      (find_index (adjusted_size 5000))
    ≡ 0
unfolding adjusted_size max round_up find_index best_of_classes best_fit fitting improve smallest
    word read_le extract_size
stock-best_5000 = refl

extension_5000 : round_up (max (adjusted_size 5000) chunksize) dsize ≡ 5008
unfolding adjusted_size max round_up
extension_5000 = refl

malloc-Unchanged_example : (g : Machine) × (malloc 9 5000 stock ≡ done 0 g) × Unchanged stock g
malloc-Unchanged_example =
    malloc-Unchanged stock stock_lists 9 5000 (omega arith) (omega arith) stock-Classes
      stock-best_5000 (inr (inl (omega (arith, extension_5000))))
