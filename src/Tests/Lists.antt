-- ===== src/Tests/Lists.antt =====
-- The free lists of mm.c in a small heap.
use malloc_implementation.Base.{
  ℕ, ◌+◌, ◌<◌, ◌≡◌, refl, sym, inl, inr, List, [], ◌∷◌, arith, true, false, update, if◌then◌else◌,
  ◌==◌, Bool-cases, All, length, eq_of_==,
}
use malloc_implementation.Memory.{Bytes, read_le}
use malloc_implementation.Memory.Words.{word}
use malloc_implementation.Machine.{Machine}
use malloc_implementation.Machine.Returns.{Returns}
use malloc_implementation.Mm.Header.{find_index, extract_size}
use malloc_implementation.Mm.FreeList.{add_to_free, remove_from_free}
use malloc_implementation.Mm.FreeList.Lists.{Node, Doubly, Singly, Relinked}
use malloc_implementation.Mm.FreeList.Insert.{add_to_free-Doubly}
use malloc_implementation.Mm.FreeList.Remove.{remove_from_free-Doubly}
use malloc_implementation.Mm.FreeList.Mini.{Rechained, remove_from_free-Singly}
use malloc_implementation.Mm.Fit.{find_fit}
use malloc_implementation.Mm.Fit.Scan.{Classes}
use malloc_implementation.Mm.Fit.Found.{FitResult, Sorted, find_fit-FitResult}

-- A heap from 64 to 1024 with the bytes and the class heads given.
abbrev small_heap : Bytes → (ℕ → ℕ) → Machine
small_heap m seg = record {
  region = record {
    sparse = false;
    heap = 64;
    mem_brk = 1024;
    mem_max_addr = 4096;
    bytes = m;
    errno = 0;
    os_grants = λ n. true;
    os_calls = 0;
  };
  heap_start = 72;
  seg_list = seg;
}

-- Class 2 holds the blocks at 200 and 248, of 64 and 80 bytes.
abbrev two_bytes : Bytes
two_bytes = update (update (update (update (λ a. 0) 200 64) 208 248) 248 80) 264 200

abbrev two : Machine
two = small_heap two_bytes (update (λ i. 0) 2 200)

Node-at : (b : ℕ) → 64 < b → b + 24 < 1025 → Node two b
Node-at b l r = record {
  positive = omega arith;
  low = omega arith;
  high = omega arith;
  small = omega arith;
}

two-nodes : All (Node two) (200 ∷ 248 ∷ [])
two-nodes = (Node-at 200 (omega arith) (omega arith), (Node-at 248 (omega arith) (omega arith), tt))

two-Doubly : Doubly two.bytes 0 (two.seg_list 2) (200 ∷ 248 ∷ [])
unfolding word read_le
two-Doubly = (refl, refl, (refl, refl, refl))

add_to_free-Doubly_example :
    Returns
      (λ _ g.
        Doubly g.bytes 0 (g.seg_list 2) (400 ∷ 200 ∷ 248 ∷ [])
        × Relinked two 2 (400 ∷ 200 ∷ 248 ∷ []) g)
      (add_to_free 400 2 two)
add_to_free-Doubly_example =
    add_to_free-Doubly two 400 2 (200 ∷ 248 ∷ []) (omega arith)
      (Node-at 400 (omega arith) (omega arith)) two-nodes two-Doubly (omega arith)

remove_from_free-Doubly_example :
    Returns
      (λ _ g. Doubly g.bytes 0 (g.seg_list 2) (200 ∷ []) × Relinked two 2 (200 ∷ 248 ∷ []) g)
      (remove_from_free 9 248 2 two)
remove_from_free-Doubly_example =
    remove_from_free-Doubly two 9 2 248 (200 ∷ []) [] (omega arith) two-Doubly two-nodes
      (omega arith)

-- The same two blocks as class 0, whose blocks have no `prev`.
abbrev minis : Machine
minis = small_heap two_bytes (update (λ i. 0) 0 200)

Node-minis : (b : ℕ) → 64 < b → b + 24 < 1025 → Node minis b
Node-minis b l r = record {
  positive = omega arith;
  low = omega arith;
  high = omega arith;
  small = omega arith;
}

minis-Singly : Singly minis.bytes (minis.seg_list 0) (200 ∷ 248 ∷ [])
unfolding word read_le
minis-Singly = (refl, (refl, refl))

minis-nodes : All (Node minis) (200 ∷ 248 ∷ [])
minis-nodes =
    (Node-minis 200 (omega arith) (omega arith), (Node-minis 248 (omega arith) (omega arith), tt))

remove_from_free-Singly_example :
    Returns
      (λ _ g. Singly g.bytes (g.seg_list 0) (200 ∷ []) × Rechained minis (200 ∷ 248 ∷ []) g)
      (remove_from_free 9 248 0 minis)
remove_from_free-Singly_example =
    remove_from_free-Singly minis 9 248 (200 ∷ []) [] minis-Singly minis-nodes (omega arith)
      (omega arith)

abbrev two_lists : ℕ → List ℕ
two_lists i = if i == 2 then 200 ∷ 248 ∷ [] else []

-- A family over the classes, from its value at class 2 and at the empty ones.
by_class :
    (P : ℕ → List ℕ → Type 0)
    → P 200 (200 ∷ 248 ∷ [])
    → P 0 []
    → (i : ℕ) → P (two.seg_list i) (two_lists i)
by_class P full empty i = elim (Bool-cases (i == 2)) [
  | inl t ↦ rw (t, sym_eq i t) full
  | inr f ↦ rw (f, sym_ne i f) empty
]
  where
    sym_eq : (i : ℕ) → (i == 2) ≡ true → (2 == i) ≡ true
    sym_eq i t = ground arith

    sym_ne : (i : ℕ) → (i == 2) ≡ false → (2 == i) ≡ false
    sym_ne i t = ground arith

two-Classes : Classes two two_lists 9
unfolding word read_le
two-Classes = record {
  chain = λ i lt. by_class (λ p xs. Singly two.bytes p xs) (refl, (refl, refl)) refl i;
  nodes = λ i lt. by_class (λ p xs. All (Node two) xs) two-nodes tt i;
  short = λ i lt. by_class (λ p xs. length xs < 9) (omega arith) (omega arith) i;
}

two-Sorted : Sorted two.bytes two_lists
unfolding word read_le find_index extract_size
two-Sorted i lt = elim (Bool-cases (i == 2)) [
  | inl t ↦ rw t (sym (eq_of_== i 2 t), (sym (eq_of_== i 2 t), tt))
  | inr f ↦ rw f tt
]

find_fit-FitResult_example :
    Returns (λ b g. (g ≡ two) × FitResult two.bytes 80 two_lists b) (find_fit 9 80 two)
find_fit-FitResult_example = find_fit-FitResult two two_lists 9 80 two-Classes two-Sorted
