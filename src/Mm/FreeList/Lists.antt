-- ===== src/Mm/FreeList/Lists.antt =====
-- The free lists of mm.c as sequences of blocks in memory.
use malloc_implementation.Base.{
  ℕ, ◌+◌, ◌≤◌, ◌<◌, ◌≡◌, ◌≢◌, refl, ◌⊎◌, ◌∙◌, inl, inr, List, [], ◌∷◌, ◌++◌, arith, All,
  All-append_right, ap,
}
use malloc_implementation.Base.Word.{word_mod}
use malloc_implementation.Memory.{Bytes}
use malloc_implementation.Memory.Words.{word, set_word, word-set_word_other}
use malloc_implementation.Machine.{Machine}
use malloc_implementation.Mm.Blocks.{null}

-- A block whose header and links lie in the heap.
pub record Node (h : Machine) (b : ℕ) : Type 0 where
  pub positive : 0 < b
  pub low : h.heap ≤ b
  pub high : b + 24 ≤ h.mem_brk
  pub small : b < word_mod

-- Blocks lie 16 bytes or more apart, so that their links do not overlap.
abbrev pub Apart : ℕ → ℕ → Type 0
Apart a b = (a + 16 ≤ b) ⊎ (b + 16 ≤ a)

abbrev pub Separated : List ℕ → Type 0
Separated [] = Unit
Separated (x ∷ xs) = All (Apart x) xs × Separated xs

-- From `p` the `next` links lead through the blocks to NULL, and the `prev` links back to `back`.
abbrev pub Doubly : Bytes → ℕ → ℕ → List ℕ → Type 0
Doubly m back p [] = p ≡ null
Doubly m back p (x ∷ xs) = (p ≡ x) × (word m (x + 16) ≡ back) × Doubly m x (word m (x + 8)) xs

-- From `p` the `next` links lead through the blocks to NULL.
abbrev pub Singly : Bytes → ℕ → List ℕ → Type 0
Singly m p [] = p ≡ null
Singly m p (x ∷ xs) = (p ≡ x) × Singly m (word m (x + 8)) xs

-- A memory has the same links in a block.
abbrev pub SameNext : Bytes → Bytes → ℕ → Type 0
SameNext m g x = word g (x + 8) ≡ word m (x + 8)

abbrev pub SameLinks : Bytes → Bytes → ℕ → Type 0
SameLinks m g x = (word g (x + 8) ≡ word m (x + 8)) × (word g (x + 16) ≡ word m (x + 16))

module _ (m g : Bytes) where
  pub Doubly-frame :
      (back p : ℕ) (xs : List ℕ) → All (SameLinks m g) xs → Doubly m back p xs → Doubly g back p xs
  Doubly-frame back p [] same d = d
  Doubly-frame back p (x ∷ xs) same d =
      (d.0, same.0.1 ∙ d.1, rw same.0.0 (Doubly-frame x (word m (x + 8)) xs same.1 d.2))

  pub Singly-frame : (p : ℕ) (xs : List ℕ) → All (SameNext m g) xs → Singly m p xs → Singly g p xs
  Singly-frame p [] same d = d
  Singly-frame p (x ∷ xs) same d = (d.0, rw same.0 (Singly-frame (word m (x + 8)) xs same.1 d.1))

-- A write to a link of a block spares the links of the blocks apart from it.
pub set_next-SameLinks :
    (m : Bytes) (b v : ℕ) (xs : List ℕ)
    → All (Apart b) xs
    → All (SameLinks m (set_word m (b + 8) v)) xs
set_next-SameLinks m b v [] a = tt
set_next-SameLinks m b v (x ∷ xs) a = (
  (
    word-set_word_other m (b + 8) v (x + 8) (omega arith),
    word-set_word_other m (b + 8) v (x + 16) (omega arith),
  ),
  set_next-SameLinks m b v xs a.1,
)

pub set_prev-SameLinks :
    (m : Bytes) (b v : ℕ) (xs : List ℕ)
    → All (Apart b) xs
    → All (SameLinks m (set_word m (b + 16) v)) xs
set_prev-SameLinks m b v [] a = tt
set_prev-SameLinks m b v (x ∷ xs) a = (
  (
    word-set_word_other m (b + 16) v (x + 8) (omega arith),
    word-set_word_other m (b + 16) v (x + 16) (omega arith),
  ),
  set_prev-SameLinks m b v xs a.1,
)

pub SameLinks-trans :
    (m g k : Bytes) (xs : List ℕ)
    → All (SameLinks m g) xs
    → All (SameLinks g k) xs
    → All (SameLinks m k) xs
SameLinks-trans m g k [] s t = tt
SameLinks-trans m g k (x ∷ xs) s t =
    ((t.0.0 ∙ s.0.0, t.0.1 ∙ s.0.1), SameLinks-trans m g k xs s.1 t.1)

-- The word at `a` is no link of the blocks.
abbrev pub OutsideLinks : ℕ → List ℕ → Type 0
OutsideLinks a xs = All (λ x. (a + 8 ≤ x + 8) ⊎ (x + 24 ≤ a)) xs

-- What a change of one class leaves alone: the other classes, every word but the links of the
-- blocks `touched`, and the bounds of the heap.
pub record Relinked (h : Machine) (index : ℕ) (touched : List ℕ) (g : Machine) : Type 0 where
  pub others : (j : ℕ) → j ≢ index → g.seg_list j ≡ h.seg_list j
  pub outside : (a : ℕ) → OutsideLinks a touched → word g.bytes a ≡ word h.bytes a
  pub heap_same : g.heap ≡ h.heap
  pub brk_same : g.mem_brk ≡ h.mem_brk
  pub start_same : g.heap_start ≡ h.heap_start

Apart-sym : (a b : ℕ) → Apart a b → Apart b a
Apart-sym a b h = ground arith

pub Apart-flip : (b : ℕ) (xs : List ℕ) → All (λ x. Apart x b) xs → All (Apart b) xs
Apart-flip b [] h = tt
Apart-flip b (x ∷ xs) h = (Apart-sym x b h.0, Apart-flip b xs h.1)

-- The blocks in front of a suffix lie apart from it.
pub Separated-front :
    (xs : List ℕ) (b : ℕ) (ys : List ℕ) → Separated (xs ++ b ∷ ys) → All (Apart b) xs
Separated-front [] b ys s = tt
Separated-front (x ∷ xs) b ys s =
    (Apart-sym x b (All-append_right (Apart x) xs (b ∷ ys) s.0).0, Separated-front xs b ys s.1)

pub Separated-suffix : (xs ys : List ℕ) → Separated (xs ++ ys) → Separated ys
Separated-suffix [] ys s = s
Separated-suffix (x ∷ xs) ys s = Separated-suffix xs ys s.1

-- The links between two neighbours, and what follows them.
pub Doubly-at :
    (m : Bytes) (back head : ℕ) (xs : List ℕ) (p b : ℕ) (ys : List ℕ)
    → Doubly m back head (xs ++ p ∷ b ∷ ys)
    → (word m (p + 8) ≡ b) × (word m (b + 16) ≡ p) × Doubly m b (word m (b + 8)) ys
Doubly-at m back head [] p b ys d = (d.2.0, d.2.1, d.2.2)
Doubly-at m back head (x ∷ xs) p b ys d = Doubly-at m x (word m (x + 8)) xs p b ys d.2

-- A list without the block behind `p`.
pub Doubly-splice :
    (m g : Bytes) (back head : ℕ) (xs : List ℕ) (p b : ℕ) (ys : List ℕ)
    → Doubly m back head (xs ++ p ∷ b ∷ ys)
    → All (SameLinks m g) xs
    → word g (p + 16) ≡ word m (p + 16)
    → Doubly g p (word g (p + 8)) ys
    → Doubly g back head (xs ++ p ∷ ys)
Doubly-splice m g back head [] p b ys d same prev rest = (d.0, prev ∙ d.1, rest)
Doubly-splice m g back head (x ∷ xs) p b ys d same prev rest = (
  d.0,
  same.0.1 ∙ d.1,
  rw same.0.0 (Doubly-splice m g x (word m (x + 8)) xs p b ys d.2 same.1 prev rest),
)

-- A list is empty or has a last element.
pub snoc_cases : (xs : List ℕ) → (xs ≡ []) ⊎ ((ys : List ℕ) × (p : ℕ) × (xs ≡ ys ++ p ∷ []))
snoc_cases [] = inl refl
snoc_cases (x ∷ xs) = elim (snoc_cases xs) [
  | inl e ↦ inr ([], x, ap (◌∷◌ x) e)
  | inr (ys, p, e) ↦ inr (x ∷ ys, p, ap (◌∷◌ x) e)
]

pub Separated-front_third :
    (xs : List ℕ) (p b y : ℕ) (ys : List ℕ) → Separated (xs ++ p ∷ b ∷ y ∷ ys) → All (Apart y) xs
Separated-front_third [] p b y ys s = tt
Separated-front_third (x ∷ xs) p b y ys s = (
  Apart-sym x y (All-append_right (Apart x) xs (p ∷ b ∷ y ∷ ys) s.0).1.1.0,
  Separated-front_third xs p b y ys s.1,
)
