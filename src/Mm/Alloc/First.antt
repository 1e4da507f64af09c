-- ===== src/Mm/Alloc/First.antt =====
-- The first malloc, which initialises the heap.
use malloc_implementation.Base.{
  ℕ, zero, suc, ◌+◌, ◌-◌, ◌%◌, ◌≤◌, ◌<◌, ◌≡◌, ◌≢◌, refl, ◌∙◌, inl, inr, Bool, true, arith, List, [],
  ◌∷◌, ==-ne, ◌==◌, if◌then◌else◌, leb, Bool-cases, eq_of_==, ne_of_==,
}
use malloc_implementation.Base.Word.{word_mod}
use malloc_implementation.Memory.{Bytes}
use malloc_implementation.Machine.{
  Machine, Cmd, Run, done, fault, out_of_fuel, continue, skip, get_start,
}
use malloc_implementation.Machine.Returns.{Returns, bind, weaken}
use malloc_implementation.Mm.Header.{num_segs, chunksize, adjusted_size, find_index}
use malloc_implementation.Mm.Header.Sizes.{adjusted_size_bounds, find_index-lt}
use malloc_implementation.Mm.Blocks.{null}
use malloc_implementation.Mm.FreeList.Lists.{Node}
use malloc_implementation.Mm.Fit.Best.{size_of, fitting, improve, smallest, best_fit}
use malloc_implementation.Mm.Fit.Scan.{Classes, best_of_classes}
use malloc_implementation.Mm.Alloc.{mm_init, malloc, allocate}
use malloc_implementation.Mm.Alloc.Init.{
  Startable, Ready, chunk_class, chunk_class_is, mm_init-Ready,
}
use malloc_implementation.Mm.Alloc.Cut.{Cuttable}
use malloc_implementation.Mm.Alloc.Listed.{Listed}
use malloc_implementation.Mm.Alloc.Served.{Served, malloc-Served}

-- The classes of a heap with the chunk `b` only.
abbrev pub one_chunk : ℕ → ℕ → List ℕ
one_chunk b i = if i == chunk_class then b ∷ [] else []

module _ (m : Bytes) (b asize : ℕ) (fits : leb asize (size_of m b) ≡ true) (pos : 0 < b) where
  best_fit-one_chunk : best_fit m asize (one_chunk b chunk_class) ≡ b
  unfolding best_fit fitting smallest improve
  best_fit-one_chunk = rw fits refl

  best_fit-nil : best_fit m asize [] ≡ null
  unfolding best_fit fitting smallest
  best_fit-nil = refl

  best_of_classes-one_chunk :
      (rounds i : ℕ)
      → i ≤ chunk_class
      → chunk_class < rounds + i
      → best_of_classes m asize (one_chunk b) rounds i ≡ b
  unfolding best_of_classes
  best_of_classes-one_chunk zero i le lt = absurd (omega arith)
  best_of_classes-one_chunk (suc rounds) i le lt = elim (Bool-cases (i == chunk_class)) [
    | inl t ↦ rw (eq_of_== i chunk_class t, best_fit-one_chunk, ==-ne b null (omega arith)) refl
    | inr f ↦
        rw (f, best_fit-nil)
          (best_of_classes-one_chunk rounds (i + 1) (omega (arith, ne_of_== i chunk_class f))
            (omega arith))
  ]

find_index-chunk : (asize : ℕ) → asize ≤ chunksize → find_index asize ≤ chunk_class
unfolding find_index
find_index-chunk asize le = ground arith

find_index_pos : (size : ℕ) → 32 ≤ size → find_index size ≢ 0
unfolding find_index
find_index_pos size le = ground arith

-- The heap after mm_init meets what malloc asks of a heap.
module _ (h : Machine) (s : ℕ) (low : h.heap ≤ s) (top : s + 16 + chunksize < word_mod)
    (g : Machine) (r : Ready h s g) where
  chunk-Node : Node g (s + 8)
  chunk-Node = record {
    positive = omega arith;
    low = omega (arith, low, r.heap_same);
    high = omega (arith, r.brk_is);
    small = omega (arith, top);
  }

  Ready-Classes : (fuel : ℕ) → 2 ≤ fuel → Classes g (one_chunk (s + 8)) fuel
  Ready-Classes fuel enough = record {
    chain = λ i lt. elim (Bool-cases (i == chunk_class)) [
      | inl t ↦ let e : i ≡ chunk_class = eq_of_== i chunk_class t in rw e (r.list.0, r.list.2)
      | inr f ↦ rw f (r.others i lt (ne_of_== i chunk_class f))
    ];
    nodes = λ i lt. elim (Bool-cases (i == chunk_class)) [
      | inl t ↦ rw t (chunk-Node, tt)
      | inr f ↦ rw f tt
    ];
    short = λ i lt. elim (Bool-cases (i == chunk_class)) [
      | inl t ↦ rw t (omega (arith, enough))
      | inr f ↦ rw f (omega (arith, enough))
    ];
  }

  Ready-Listed :
      (index : ℕ) → index < num_segs → Listed g (s + 8) chunksize chunk_class [] [] index []
  Ready-Listed index lt = record {
    class = chunk_class_is;
    doubly = omega arith;
    links = r.list;
    nodes = (chunk-Node, tt);
    separated = (tt, tt);
    clear = tt;
    other = elim (Bool-cases (index == chunk_class)) [
      | inl t ↦ inl (eq_of_== index chunk_class t, refl)
      | inr f ↦ let ne = ne_of_== index chunk_class f in inr (ne, r.others index lt ne, tt)
    ];
  }

  Ready-Cuttable :
      (asize index : ℕ)
      → 16 ≤ asize
      → asize % 16 ≡ 0
      → asize + 32 ≤ chunksize
      → find_index (chunksize - asize) ≡ index
      → Cuttable g (s + 8) chunksize asize index []
  Ready-Cuttable asize index room aligned rest class = record {
    low = omega (arith, low, r.heap_same);
    next_header = omega (arith, r.brk_is);
    top = omega (arith, top);
    room = room;
    rest = rest;
    aligned = aligned;
    size_aligned = refl;
    size_is = r.size_set;
    next_allocated = r.end_allocated;
    class = class;
    doubly = λ z. find_index_pos (chunksize - asize) (omega (arith, rest)) (class ∙ z);
    nodes = tt;
    separated = tt;
    clear = tt;
  }

  -- malloc in the heap that mm_init leaves.
  malloc-Ready :
      (fuel n : ℕ)
      → 2 ≤ fuel
      → n ≢ 0
      → adjusted_size n + 32 ≤ chunksize
      → n + 23 < word_mod
      → Returns
          (λ p e.
            (p ≡ s + 16)
            × Served g n
                (s + 8)
                chunksize
                chunk_class
                []
                []
                (find_index (chunksize - adjusted_size n))
                []
                e)
          (malloc fuel n g)
  malloc-Ready fuel n enough positive fits small =
      let bounds = adjusted_size_bounds n small in
      let rest : ℕ = find_index (chunksize - adjusted_size n) in
      let le : leb (adjusted_size n) (size_of g.bytes (s + 8)) ≡ true =
        rw r.size_set (ground (arith, fits)) in
      weaken
        (malloc-Served g (one_chunk (s + 8)) fuel n (s + 8) chunksize chunk_class [] [] rest []
          (λ z. absurd (omega (arith, z, r.start_is))) positive small (Ready-Classes fuel enough)
          (best_of_classes-one_chunk g.bytes (s + 8) (adjusted_size n) le (omega arith)
            (num_segs - find_index (adjusted_size n)) (find_index (adjusted_size n))
            (find_index-chunk (adjusted_size n) (omega (arith, fits)))
            (omega (arith, find_index-chunk (adjusted_size n) (omega (arith, fits)))))
          (Ready-Listed rest (find_index-lt (chunksize - adjusted_size n)))
          (Ready-Cuttable (adjusted_size n) rest bounds.1 bounds.0 fits refl))
        (λ p e q. (omega (arith, q.0), q.1))

continue-skip :
    (r : Run Bool) (k : Cmd ℕ) → continue (continue r (λ _. skip)) (λ _. k) ≡ continue r (λ _. k)
continue-skip (done b h) k = refl
continue-skip fault k = refl
continue-skip out_of_fuel k = refl

malloc-mm_init :
    (fuel n : ℕ) (h : Machine)
    → h.heap_start ≡ null
    → n ≢ 0
    → malloc fuel n h ≡ continue (mm_init fuel h) (λ _. allocate fuel (adjusted_size n))
unfolding malloc get_start
malloc-mm_init fuel n h null_start ne =
    let t : (h.heap_start == null) ≡ true = rw null_start refl in
    rw (t, ==-ne n 0 ne) (continue-skip (mm_init fuel h) (allocate fuel (adjusted_size n)))

malloc-allocate :
    (fuel n : ℕ) (g : Machine)
    → g.heap_start ≢ null
    → n ≢ 0
    → malloc fuel n g ≡ allocate fuel (adjusted_size n) g
unfolding malloc get_start
malloc-allocate fuel n g started ne = rw (==-ne g.heap_start null started, ==-ne n 0 ne) refl

-- The first malloc of a process initialises the heap and succeeds: where mem_sbrk grants the two
-- words and the first chunk, a request that is not 0 and leaves 32 bytes of the chunk is served, for
-- every fuel from 2 on, without fault. The payload begins 16 bytes behind the old break; the block
-- has the adjusted size, and the rest of the chunk is free and in its class.
pub malloc-first :
    (h : Machine) (s fuel n : ℕ)
    → h.heap_start ≡ null
    → Startable h s
    → 2 ≤ fuel
    → n ≢ 0
    → n + 23 < word_mod
    → adjusted_size n + 32 ≤ chunksize
    → Returns
        (λ p e.
          (p ≡ s + 16)
          × ((g : Machine) × Ready h s g
              × Served g n
                  (s + 8)
                  chunksize
                  chunk_class
                  []
                  []
                  (find_index (chunksize - adjusted_size n))
                  []
                  e))
        (malloc fuel n h)
malloc-first h s fuel n null_start x enough positive small fits =
    rw (malloc-mm_init fuel n h null_start positive) (
      bind (mm_init-Ready h s x fuel) (λ ok g q.
        let ready = q.1 in
        rw⁻¹ (malloc-allocate fuel n g (λ z. absurd (omega (arith, z, ready.start_is))) positive) (
          weaken
            (malloc-Ready h s x.low (omega (arith, x.top)) g ready fuel n enough positive fits
              small)
            (λ p e t. (t.0, (g, ready, t.1))))))
