-- ===== src/Mm/Alloc/Zeroed.antt =====
-- The test of calloc for the overflow of its multiplication.
use malloc_implementation.Base.{
  ℕ, ◌*◌, ◌/◌, ◌≤◌, ◌<◌, ◌≡◌, ◌≢◌, ◌⊎◌, inl, inr, refl, arith, ◌==◌, if◌then◌else◌, ==-ne, ==-refl,
}
use native.Mathlib.Decide.{dec_lt}
use malloc_implementation.Base.Word.{word_mod, mul64}
use malloc_implementation.Machine.{Machine, Run, done, pure, ◌>>◌, with_bytes}
use malloc_implementation.Machine.Access.{InHeap}
use malloc_implementation.Memory.{Bytes}
use malloc_implementation.MemLib.Copy.Filled.{Filled, mem_memset-Filled}
use malloc_implementation.MemLib.Copy.{mem_memset}
use malloc_implementation.Mm.Blocks.{null}
use malloc_implementation.Mm.Alloc.{malloc, calloc}

quotient_fits : (a b : ℕ) → 0 < a → a * b < word_mod → mul64 a b / a ≡ b
quotient_fits a b pos h = grind arith

quotient_wraps : (a b : ℕ) → 0 < a → word_mod ≤ a * b → mul64 a b / a < b
quotient_wraps a b pos h = grind arith

-- What calloc makes of the answer of malloc: NULL is passed on, and a payload of `n` bytes of the heap
-- is returned with each of them 0 and no other byte changed.
pub record Zeroes (n bp : ℕ) (k : Machine) (run : Run ℕ) : Type 0 where
  pub passed_on : bp ≡ null → run ≡ done null k
  pub zeroed :
      bp ≢ null
      → InHeap n bp k
      → (g : Bytes) × (run ≡ done bp (with_bytes k g)) × Filled k.bytes bp 0 n g

-- The end of calloc.
fill-Zeroes :
    (n bp : ℕ) (k : Machine)
    → Zeroes n bp k ((if bp == null then pure null else (do mem_memset bp 0 n; pure bp)) k)
fill-Zeroes n bp k = record {
  passed_on = λ e. rw e refl;
  zeroed = λ ne i.
      let (g, run, filled) = mem_memset-Filled k bp 0 n i in
      (g, rw (==-ne bp null ne, run) refl, filled);
}

-- calloc returns NULL and changes nothing where there are no elements, or the product of both
-- arguments is 2 ^ 64 or more. Else, where malloc of the product returns, calloc returns too: with NULL
-- when malloc did, and with the payload, all of whose bytes are then 0, when it lies in the heap.
pub calloc_cases :
    (fuel elements size : ℕ) (h : Machine)
    → (((elements ≡ 0) ⊎ (word_mod ≤ elements * size))
        × (calloc fuel elements size h ≡ done null h))
      ⊎ ((0 < elements)
          × (elements * size < word_mod)
          × ((bp : ℕ) (k : Machine)
              → malloc fuel (elements * size) h ≡ done bp k
              → Zeroes (elements * size) bp k (calloc fuel elements size h)))
unfolding calloc
calloc_cases fuel elements size h = elim (dec_lt 0 elements) [
  | no z ↦
      let none_at_all : elements ≡ 0 = omega arith in inl (inl none_at_all, rw none_at_all refl)
  | yes pos ↦ elim (dec_lt (elements * size) word_mod) [
    | yes l ↦
        let exact : mul64 elements size ≡ elements * size = omega arith in
        let same : mul64 elements size / elements ≡ size = quotient_fits elements size pos l in
        inr (
          pos,
          l,
          λ bp k run.
              rw (==-ne elements 0 (omega arith), same, ==-refl size, exact, run)
                (fill-Zeroes (elements * size) bp k),
        )
    | no l ↦
        let wraps : mul64 elements size / elements < size =
          quotient_wraps elements size pos (omega arith) in
        inl (
          inr (omega arith),
          rw
              (
                ==-ne elements 0 (omega arith),
                ==-ne (mul64 elements size / elements) size (omega arith),
              )
              refl,
        )
  ]
]
