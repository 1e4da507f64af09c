-- ===== src/Mm/Alloc/Refused.antt =====
-- malloc when no free block fits and the heap cannot be extended.
use malloc_implementation.Base.{ℕ, ◌-◌, ◌≡◌, ◌≢◌, refl, ap, inl, inr, List, arith, ==-ne}
use malloc_implementation.MemLib.{mem_sbrk, sbrk_failed}
use malloc_implementation.MemLib.Break.{Granted, Refused, mem_sbrk_cases}
use malloc_implementation.Machine.{Machine, done, get_start, sbrk}
use malloc_implementation.Mm.Header.{
  num_segs, dsize, chunksize, adjusted_size, find_index, max, round_up,
}
use malloc_implementation.Mm.Blocks.{null}
use malloc_implementation.Mm.Coalesce.{extend_heap}
use malloc_implementation.Mm.Fit.Scan.{Classes, best_of_classes, find_fit-done}
use malloc_implementation.Mm.Alloc.{malloc, allocate}

-- All that a payload or a later call can see is as before; errno and the count of calls of the C
-- library's sbrk may differ.
pub record Unchanged (h g : Machine) : Type 0 where
  pub bytes_same : g.bytes ≡ h.bytes
  pub lists_same : g.seg_list ≡ h.seg_list
  pub start_same : g.heap_start ≡ h.heap_start
  pub heap_same : g.heap ≡ h.heap
  pub brk_same : g.mem_brk ≡ h.mem_brk
  pub limit_same : g.mem_max_addr ≡ h.mem_max_addr

Granted-not_Refused : (h : Machine) (incr : ℕ) → Granted h.region incr → Refused h.region incr → ⊥
Granted-not_Refused h incr g r = ground (arith, g.nonnegative, g.fits, g.os)

sbrk-Refused :
    (incr : ℕ) (h : Machine)
    → Refused h.region incr
    → (g : Machine) × (sbrk incr h ≡ done sbrk_failed g) × Unchanged h g
unfolding sbrk
sbrk-Refused incr h r =
    let (p, s) = mem_sbrk incr h.region in
    let (heap, limit, bytes, ends) = mem_sbrk_cases h.region incr in
    elim ends [
      | inl (granted, e, m) ↦ absurd (Granted-not_Refused h incr granted r)
      | inr (refused, e, brk) ↦ (
        record h { region = s },
        ap (λ v. done v (record h { region = s })) e,
        record {
          bytes_same = bytes;
          lists_same = refl;
          start_same = refl;
          heap_same = heap;
          brk_same = brk;
          limit_same = limit;
        },
      )
    ]

-- In an initialised heap whose classes are lists of blocks, for a request that is not 0: where no
-- free block is chosen and mem_sbrk refuses the extension, malloc ends without fault, returns NULL,
-- and leaves the heap's bytes, its bounds and the classes as they were.
pub malloc-Unchanged :
    (h : Machine) (lists : ℕ → List ℕ) (fuel n : ℕ)
    → h.heap_start ≢ null
    → n ≢ 0
    → Classes h lists fuel
    → best_of_classes h.bytes
        (adjusted_size n)
        lists
        (num_segs - find_index (adjusted_size n))
        (find_index (adjusted_size n))
      ≡ null
    → Refused h.region (round_up (max (adjusted_size n) chunksize) dsize)
    → (g : Machine) × (malloc fuel n h ≡ done null g) × Unchanged h g
unfolding malloc allocate get_start extend_heap
malloc-Unchanged h lists fuel n started positive classes none refused =
    let (g, run, same) =
      sbrk-Refused (round_up (max (adjusted_size n) chunksize) dsize) h refused in
    (
      g,
      rw
          (
            ==-ne h.heap_start null started,
            ==-ne n 0 positive,
            find_fit-done h lists fuel classes (adjusted_size n),
            none,
            run,
          )
          refl,
      same,
    )
