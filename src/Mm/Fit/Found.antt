-- ===== src/Mm/Fit/Found.antt =====
-- What find_fit promises: a fitting block from the lowest class that has one, or none at all.
use malloc_implementation.Base.{
  ℕ, zero, suc, ◌+◌, ◌-◌, ◌≤◌, ◌<◌, ◌≡◌, ◌≢◌, refl, subst, ◌⊎◌, inl, inr, List, [], ◌∷◌, arith,
  Bool-cases, ◌==◌, take, All, Elem, eq_of_==, ne_of_==,
}
use native.Mathlib.Decide.{dec_lt}
use malloc_implementation.Memory.{Bytes}
use malloc_implementation.Machine.{Machine}
use malloc_implementation.Machine.Returns.{Returns, returns}
use malloc_implementation.Mm.Header.{num_segs, find_index}
use malloc_implementation.Mm.Header.Sizes.{find_index-lt, lt_of_find_index}
use malloc_implementation.Mm.Blocks.{null}
use malloc_implementation.Mm.Fit.{find_fit}
use malloc_implementation.Mm.Fit.Best.{
  size_of, fitting, best_fit, best_fit_sound, best_fit_complete, NoLarger,
}
use malloc_implementation.Mm.Fit.Scan.{Classes, best_of_classes, find_fit-done, Node-positive}

-- Every block of the list is too small.
abbrev pub TooSmall : Bytes → ℕ → List ℕ → Type 0
TooSmall m asize xs = All (λ x. size_of m x < asize) xs

-- Each block stands in the class of its size.
abbrev pub Sorted : Bytes → (ℕ → List ℕ) → Type 0
Sorted m lists = (i : ℕ) → i < num_segs → All (λ x. find_index (size_of m x) ≡ i) (lists i)

-- `b` is one of the first five fitting blocks of class `i` and no larger than any of these, and no
-- block of a lower class fits.
pub record Found (m : Bytes) (asize : ℕ) (lists : ℕ → List ℕ) (b i : ℕ) : Type 0 where
  pub class : i < num_segs
  pub early : Elem b (take 5 (fitting m asize (lists i)))
  pub member : Elem b (lists i)
  pub fits : asize ≤ size_of m b
  pub least : NoLarger m b (take 5 (fitting m asize (lists i)))
  pub lower : (j : ℕ) → j < i → TooSmall m asize (lists j)

abbrev pub FitResult : Bytes → ℕ → (ℕ → List ℕ) → ℕ → Type 0
FitResult m asize lists b =
    ((b ≢ null) × (i : ℕ) × Found m asize lists b i)
    ⊎ ((b ≡ null) × ((i : ℕ) → i < num_segs → TooSmall m asize (lists i)))

module _ (m : Bytes) (asize : ℕ) (lists : ℕ → List ℕ)
    (positive : (i : ℕ) → i < num_segs → All (λ x. 0 < x) (lists i)) where
  TooSmall-next :
      (i : ℕ)
      → i < num_segs
      → ((j : ℕ) → j < i → TooSmall m asize (lists j))
      → best_fit m asize (lists i) ≡ null
      → (j : ℕ) → j < i + 1
      → TooSmall m asize (lists j)
  TooSmall-next i lt below e j k = elim (dec_lt j i) [
    | yes l ↦ below j l
    | no l ↦
        subst (λ n. TooSmall m asize (lists n)) (omega arith)
          (best_fit_complete m asize (lists i) (positive i lt) e)
  ]

  best_of_classes-FitResult :
      (rounds i : ℕ)
      → rounds + i ≡ num_segs
      → ((j : ℕ) → j < i → TooSmall m asize (lists j))
      → FitResult m asize lists (best_of_classes m asize lists rounds i)
  unfolding best_of_classes
  best_of_classes-FitResult zero i e below = inr (refl, λ j lt. below j (omega arith))
  best_of_classes-FitResult (suc rounds) i e below =
      elim (Bool-cases (best_fit m asize (lists i) == null)) [
        | inl t ↦ rw t (
            best_of_classes-FitResult rounds (i + 1) (omega arith)
              (TooSmall-next i (omega arith) below (eq_of_== (best_fit m asize (lists i)) null t)))
        | inr f ↦
            let ne = ne_of_== (best_fit m asize (lists i)) null f in
            let s = best_fit_sound m asize (lists i) ne in
            rw f (
              inl (
                ne,
                i,
                record {
                  class = omega arith;
                  early = s.0;
                  member = s.1;
                  fits = s.2;
                  least = s.3;
                  lower = below;
                },
              ))
      ]

-- A block of a lower class is smaller than any size of a higher class.
lower_class :
    (m : Bytes) (asize : ℕ) (xs : List ℕ) (j : ℕ)
    → j < find_index asize
    → All (λ x. find_index (size_of m x) ≡ j) xs
    → TooSmall m asize xs
lower_class m asize [] j lt s = tt
lower_class m asize (x ∷ xs) j lt s =
    (lt_of_find_index (size_of m x) asize (omega arith), lower_class m asize xs j lt s.1)

-- Where the classes are lists of blocks that stand in the class of their size, and the fuel goes
-- through each, find_fit changes nothing and returns a block that fits, the smallest of the first
-- five of the lowest class with a fitting block; it returns NULL only where no free block fits.
pub find_fit-FitResult :
    (h : Machine) (lists : ℕ → List ℕ) (fuel asize : ℕ)
    → Classes h lists fuel
    → Sorted h.bytes lists
    → Returns (λ b g. (g ≡ h) × FitResult h.bytes asize lists b) (find_fit fuel asize h)
find_fit-FitResult h lists fuel asize c sorted = rw (find_fit-done h lists fuel c asize) (
    returns (
      refl,
      best_of_classes-FitResult h.bytes asize lists
          (λ i lt. Node-positive h (lists i) (c.nodes i lt)) (num_segs - find_index asize)
          (find_index asize) (omega (arith, find_index-lt asize))
          (λ j lt.
            lower_class h.bytes asize (lists j) j lt
              (sorted j (omega (arith, find_index-lt asize)))),
    ))
