-- ===== src/Mm/Fit/Scan.antt =====
-- The loops of find_fit compute `best_fit` over the lists of the classes.
use malloc_implementation.Base.{
  ℕ, zero, suc, ◌+◌, ◌-◌, ◌≤◌, ◌<◌, ◌≡◌, refl, inl, inr, List, [], ◌∷◌, arith, Bool-cases, ◌==◌,
  if◌then◌else◌, take, All, length, ==-ne, eq_of_==,
}
use malloc_implementation.Memory.{Bytes}
use malloc_implementation.Memory.Words.{word}
use malloc_implementation.Machine.{Machine, done, get_seg}
use malloc_implementation.Machine.Access.{load-done}
use malloc_implementation.Mm.Header.{num_segs, find_index}
use malloc_implementation.Mm.Header.Sizes.{find_index-lt}
use malloc_implementation.Mm.Blocks.{null, get_size, get_next}
use malloc_implementation.Mm.FreeList.Lists.{Node, Singly}
use malloc_implementation.Mm.Fit.{Fit, consider, scan_class, scan_classes, no_fit, find_fit}
use malloc_implementation.Mm.Fit.Best.{
  size_of, fitting, improve, smallest, best_fit, best_fit_complete,
}

-- The inner loop over a list of blocks.
scan_list : Bytes → ℕ → List ℕ → Fit → Fit
scan_list m asize [] f = f
scan_list m asize (x ∷ xs) f =
    if f.count == 0 then f else scan_list m asize xs (consider asize x (size_of m x) f)

scan_class-done :
    (h : Machine) (fuel asize p : ℕ) (xs : List ℕ) (f : Fit)
    → Singly h.bytes p xs
    → All (Node h) xs
    → length xs < fuel
    → scan_class fuel asize p f h ≡ done (scan_list h.bytes asize xs f) h
unfolding scan_class scan_list get_size get_next
scan_class-done h zero asize p xs f s ns lt = absurd (omega arith)
scan_class-done h (suc fuel) asize p [] f s ns lt = rw s
scan_class-done h (suc fuel) asize p (x ∷ xs) f s ns lt = elim (Bool-cases (f.count == 0)) [
  | inl t ↦ rw (s.0, ==-ne x 0 (omega arith), t)
  | inr e ↦
      rw
        (
          s.0,
          ==-ne x 0 (omega arith),
          e,
          load-done x h (omega arith),
          load-done (x + 8) h (omega arith),
        )
        (scan_class-done h fuel asize (word h.bytes (x + 8)) xs
          (consider asize x (size_of h.bytes x) f) s.1 ns.1 (omega arith))
]

module _ (m : Bytes) (asize : ℕ) where
  abbrev held : ℕ → ℕ → Fit
  held n b = record { count = n; fit_block = b; min_fit_size = size_of m b }

  -- With a block in hand and `n` of the five left.
  scan_list-improve :
      (n b : ℕ) (xs : List ℕ)
      → n ≤ 4
      → (scan_list m asize xs (held n b)).fit_block ≡ improve m b (take n (fitting m asize xs))
  unfolding scan_list consider improve fitting
  scan_list-improve zero b [] h = refl
  scan_list-improve zero b (x ∷ xs) h = refl
  scan_list-improve (suc n) b [] h = refl
  scan_list-improve (suc n) b (x ∷ xs) h = ground (
    arith,
    scan_list-improve n x xs (omega arith),
    scan_list-improve n b xs (omega arith),
    scan_list-improve (suc n) b xs h,
  )

  -- From the start of find_fit: either no block fits, and nothing has changed, or the best is held.
  scan_list-best_fit : (xs : List ℕ) → (scan_list m asize xs no_fit).fit_block ≡ best_fit m asize xs
  unfolding scan_list consider best_fit fitting smallest
  scan_list-best_fit [] = refl
  scan_list-best_fit (x ∷ xs) =
      ground (arith, scan_list-improve 4 x xs (omega arith), scan_list-best_fit xs)

  scan_list-no_fit :
      (xs : List ℕ)
      → All (λ x. 0 < x) xs
      → best_fit m asize xs ≡ null
      → scan_list m asize xs no_fit ≡ no_fit
  unfolding scan_list consider best_fit fitting smallest
  scan_list-no_fit [] pos e = refl
  scan_list-no_fit (x ∷ xs) pos e =
      ground (arith, best_fit_complete m asize (x ∷ xs) pos e, scan_list-no_fit xs pos.1)

-- The lists of blocks of the size classes are those in memory, and the fuel goes through each.
pub record Classes (h : Machine) (lists : ℕ → List ℕ) (fuel : ℕ) : Type 0 where
  pub chain : (i : ℕ) → i < num_segs → Singly h.bytes (h.seg_list i) (lists i)
  pub nodes : (i : ℕ) → i < num_segs → All (Node h) (lists i)
  pub short : (i : ℕ) → i < num_segs → length (lists i) < fuel

pub Node-positive : (h : Machine) (xs : List ℕ) → All (Node h) xs → All (λ x. 0 < x) xs
Node-positive h [] ns = tt
Node-positive h (x ∷ xs) ns = (ns.0.positive, Node-positive h xs ns.1)

-- The block that find_fit returns: the best of the first class from `i` that has one.
unfoldable pub best_of_classes : Bytes → ℕ → (ℕ → List ℕ) → ℕ → ℕ → ℕ
best_of_classes m asize lists zero i = null
best_of_classes m asize lists (suc rounds) i =
    let rest = best_of_classes m asize lists rounds (i + 1) in
    if best_fit m asize (lists i) == null then rest else best_fit m asize (lists i)

module _ (h : Machine) (lists : ℕ → List ℕ) (fuel : ℕ) (c : Classes h lists fuel) where
  scan_classes-done :
      (asize rounds i : ℕ)
      → rounds + i ≡ num_segs
      → scan_classes fuel rounds i asize no_fit h
        ≡ done (best_of_classes h.bytes asize lists rounds i) h
  unfolding scan_classes best_of_classes get_seg
  scan_classes-done asize zero i e = refl
  scan_classes-done asize (suc rounds) i e =
      let xs : List ℕ = lists i in
      let ns = c.nodes i (omega arith) in
      elim (Bool-cases (best_fit h.bytes asize xs == null)) [
        | inl t ↦
            rw
              (
                scan_class-done h fuel asize (h.seg_list i) xs no_fit (c.chain i (omega arith)) ns
                    (c.short i (omega arith)),
                scan_list-no_fit h.bytes asize xs (Node-positive h xs ns) (eq_of_== _ _ t),
                t,
              )
              (scan_classes-done asize rounds (i + 1) (omega arith))
        | inr f ↦ rw (
          scan_class-done h fuel asize (h.seg_list i) xs no_fit (c.chain i (omega arith)) ns
              (c.short i (omega arith)),
          scan_list-best_fit h.bytes asize xs,
          f,
        )
      ]

  pub find_fit-done :
      (asize : ℕ)
      → find_fit fuel asize h
        ≡ done
            (best_of_classes h.bytes asize lists (num_segs - find_index asize) (find_index asize))
            h
  unfolding find_fit
  find_fit-done asize =
      scan_classes-done asize (num_segs - find_index asize) (find_index asize)
        (omega (arith, find_index-lt asize))
