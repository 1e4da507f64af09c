-- ===== src/Mm/Alloc/Grown.antt =====
-- malloc when no free block fits and the heap is extended.
use malloc_implementation.Base.{
  ℕ, ◌+◌, ◌-◌, ◌%◌, ◌≤◌, ◌<◌, ◌≡◌, ◌≢◌, ◌⊎◌, refl, ap, inl, inr, true, arith, List, [], ◌∷◌, All,
  ==-ne,
}
use malloc_implementation.Base.Word.{word_mod}
use malloc_implementation.Machine.{Machine, get_start, with_bytes}
use malloc_implementation.Machine.Returns.{Returns, returns, bind, weaken}
use malloc_implementation.Mm.Header.{
  num_segs, chunksize, dsize, max, round_up, adjusted_size, find_index,
}
use malloc_implementation.Mm.Header.Sizes.{adjusted_size_bounds}
use malloc_implementation.Mm.Blocks.{null}
use malloc_implementation.Mm.FreeList.Lists.{Node, Separated, Doubly, Doubly-frame}
use malloc_implementation.Mm.Coalesce.Extend.{Extendable, Extended, extend_heap-Extended}
use malloc_implementation.Mm.Coalesce.Next.{Clear, Clear-SameLinks}
use malloc_implementation.Mm.Fit.Scan.{Classes, best_of_classes, find_fit-done}
use malloc_implementation.Mm.Alloc.{malloc, allocate, place}
use malloc_implementation.Memory.{Bytes}
use malloc_implementation.Mm.Alloc.Place.{Placeable, Taken, place-Whole}
use malloc_implementation.Mm.Alloc.Cut.{Cuttable}
use malloc_implementation.Mm.Alloc.Split.{Split}
use malloc_implementation.Mm.Alloc.Placed.{place-Split}

-- The blocks `zs` of a doubly linked class, which lie below `e`.
pub record Behind (h : Machine) (e index : ℕ) (zs : List ℕ) : Type 0 where
  pub positive : 0 < e
  pub doubly : index ≢ 0
  pub links : Doubly h.bytes null (h.seg_list index) zs
  pub nodes : All (Node h) zs
  pub separated : Separated zs
  pub below : All (λ z. z + 32 ≤ e) zs

Behind-Clear : (e high : ℕ) (zs : List ℕ) → All (λ z. z + 32 ≤ e) zs → Clear e high zs
Behind-Clear e high [] b = tt
Behind-Clear e high (z ∷ zs) b = (inl b.0, Behind-Clear e high zs b.1)

module _ (h : Machine) (e size asize index : ℕ) (zs : List ℕ) (x : Extendable h e size)
    (b : Behind h e index zs) (g : Machine) (p : Extended h e size g) where
  Extended-nodes : (ws : List ℕ) → All (Node h) ws → All (Node g) ws
  Extended-nodes [] n = tt
  Extended-nodes (w ∷ ws) n = (
    record {
      positive = n.0.positive;
      low = omega (arith, p.heap_same, n.0.low);
      high = omega (arith, p.brk_moved, n.0.high);
      small = n.0.small;
    },
    Extended-nodes ws n.1,
  )

  Extended-Doubly : Doubly g.bytes null (g.seg_list index) zs
  Extended-Doubly =
      let same : g.seg_list index ≡ h.seg_list index = ap (λ (f : ℕ → ℕ). f index) p.lists_same in
      rw same (
        Doubly-frame h.bytes g.bytes null (h.seg_list index) zs
          (Clear-SameLinks h.bytes g.bytes e (e + size) zs p.outside
            (Behind-Clear e (e + size) zs b.below))
          b.links)

  Extended-Cuttable :
      16 ≤ asize
      → asize % 16 ≡ 0
      → asize + 32 ≤ size
      → find_index (size - asize) ≡ index
      → Cuttable g e size asize index zs
  Extended-Cuttable room aligned rest class = record {
    low = omega (arith, x.low, p.heap_same);
    next_header = omega (arith, x.brk_is, p.brk_moved);
    top = omega (arith, x.top);
    room = room;
    rest = rest;
    aligned = aligned;
    size_aligned = x.aligned;
    size_is = p.size_set;
    next_allocated = p.end_allocated;
    class = class;
    doubly = b.doubly;
    nodes = Extended-nodes zs b.nodes;
    separated = b.separated;
    clear = Behind-Clear e (e + size) zs b.below;
  }

Extended-Placeable :
    (h : Machine) (e size : ℕ) (x : Extendable h e size) (g : Machine)
    → Extended h e size g
    → 16 ≤ size
    → Placeable g e size
Extended-Placeable h e size x g p room = record {
  fits = record {
    low = omega (arith, x.low, p.heap_same);
    header = omega (arith, x.brk_is, p.brk_moved);
    footer = omega (arith, x.brk_is, p.brk_moved);
    aligned = x.aligned;
    small = omega (arith, x.top);
  };
  room = omega (arith, room);
  size_is = p.size_set;
  next_header = omega (arith, x.brk_is, p.brk_moved);
  next_allocated = p.end_allocated;
}

-- The new block is used up by the adjusted size, or leaves 32 bytes or more for the class `index`, a
-- doubly linked list of the blocks `zs`.
abbrev pub Leaves : Machine → (e size asize index : ℕ) → List ℕ → Type 0
Leaves h e size asize index zs =
    (asize ≡ size)
    ⊎ ((asize + 32 ≤ size) × Behind h e index zs × (find_index (size - asize) ≡ index))

-- The extended heap `g` with its new block allocated: the whole of it, or cut down.
abbrev pub Allocated : Machine → (e size asize index : ℕ) → List ℕ → Machine → Type 0
Allocated g e size asize index zs k =
    ((asize ≡ size) × (m : Bytes) × (k ≡ with_bytes g m) × Taken g.bytes e size m)
    ⊎ ((asize + 32 ≤ size) × Split g e size asize index zs true k)

place-Allocated :
    (h : Machine) (e size asize index : ℕ) (zs : List ℕ) (x : Extendable h e size) (g : Machine)
    → Extended h e size g
    → 16 ≤ asize
    → asize % 16 ≡ 0
    → Leaves h e size asize index zs
    → Returns (λ p k. (p ≡ e + 8) × Allocated g e size asize index zs k) (place e asize g)
place-Allocated h e size asize index zs x g p room aligned (inl whole) =
    let (m, run, taken) =
      place-Whole g e size asize (Extended-Placeable h e size x g p (omega (arith, whole)))
        (omega (arith, whole)) (omega (arith, whole)) in
    rw run (returns (refl, inl (whole, m, refl, taken)))
place-Allocated h e size asize index zs x g p room aligned (inr (rest, b, class)) =
    weaken
      (place-Split g e size asize index zs
        (Extended-Cuttable h e size asize index zs x b g p room aligned rest class)
        (Extended-Doubly h e size asize index zs x b g p))
      (λ q k t. (t.0, inr (rest, t.1)))

-- In an initialised heap whose classes are lists of blocks and that ends in an allocated block, for
-- a request that is not 0 and whose adjusted size does not wrap: where no free block is chosen and
-- mem_sbrk grants the extension by the adjusted size, or by 4096 bytes if that is less, malloc ends
-- without fault and returns a payload behind the old epilogue. Where the adjusted size is all of the
-- extension, which it is from 4096 bytes on, the whole new block is allocated, and nothing else
-- has changed but the mark in the new epilogue. Where 32 bytes or more are left over, the block is
-- cut down to the adjusted size, and the rest is free in front of its doubly linked class.
pub malloc-Grown :
    (h : Machine) (lists : ℕ → List ℕ) (fuel n e size index : ℕ) (zs : List ℕ)
    → h.heap_start ≢ null
    → n ≢ 0
    → n + 23 < word_mod
    → Classes h lists fuel
    → best_of_classes h.bytes
        (adjusted_size n)
        lists
        (num_segs - find_index (adjusted_size n))
        (find_index (adjusted_size n))
      ≡ null
    → round_up (max (adjusted_size n) chunksize) dsize ≡ size
    → 0 < e
    → Extendable h e size
    → Leaves h e size (adjusted_size n) index zs
    → Returns
        (λ p k.
          (p ≡ e + 8)
          × ((g : Machine) × Extended h e size g × Allocated g e size (adjusted_size n) index zs k))
        (malloc fuel n h)
unfolding malloc allocate get_start
malloc-Grown h lists fuel n e size index zs started positive small classes none rounded low x left =
    let bounds = adjusted_size_bounds n small in
    rw
      (
        ==-ne h.heap_start null started,
        ==-ne n 0 positive,
        find_fit-done h lists fuel classes (adjusted_size n),
        none,
      )
      (bind (extend_heap-Extended h e size x fuel (max (adjusted_size n) chunksize) rounded)
        (λ p g q.
          rw (q.0, ==-ne e null (omega (arith, low)))
            (weaken
              (place-Allocated h e size (adjusted_size n) index zs x g q.1 bounds.1 bounds.0 left)
              (λ p' k t. (t.0, (g, q.1, t.1))))))
