-- ===== src/Mm/Alloc/Served.antt =====
-- malloc for a request that a free block fits.
use malloc_implementation.Base.{
  ℕ, ◌+◌, ◌-◌, ◌≤◌, ◌<◌, ◌≡◌, ◌≢◌, sym, ap, ◌∙◌, ◌⊎◌, inl, inr, true, false, arith, List, [], ◌∷◌,
  ◌++◌, All, ==-ne, All-append_right,
}
use malloc_implementation.Base.Word.{word_mod}
use malloc_implementation.Memory.Words.{word}
use malloc_implementation.Machine.{Machine, get_start}
use malloc_implementation.Machine.Returns.{Returns, bind, weaken}
use malloc_implementation.Machine.Access.{load-done}
use malloc_implementation.Mm.Header.{
  num_segs, adjusted_size, find_index, extract_size, extract_alloc, extract_prev_alloc,
}
use malloc_implementation.Mm.Header.Sizes.{adjusted_size_bounds}
use malloc_implementation.Mm.Blocks.{null, get_size}
use malloc_implementation.Mm.FreeList.Lists.{
  Node, Apart, Doubly, Doubly-frame, OutsideLinks, Relinked, SameLinks,
}
use malloc_implementation.Mm.FreeList.Remove.{remove_from_free-Doubly}
use malloc_implementation.Mm.Coalesce.{remove_sized}
use malloc_implementation.Mm.Coalesce.Next.{Clear}
use malloc_implementation.Mm.Fit.Scan.{Classes, best_of_classes, find_fit-done}
use malloc_implementation.Mm.Alloc.{malloc, allocate}
use malloc_implementation.Mm.Alloc.Cut.{Cuttable}
use malloc_implementation.Mm.Alloc.Split.{Split}
use malloc_implementation.Mm.Alloc.Placed.{place-Split}
use malloc_implementation.Mm.Alloc.Listed.{
  Listed, Apart-OutsideLinks, Removed-Doubly, Removed-Cuttable, header_same,
}

-- What malloc has made of the block for a request of `n` bytes, and of the two classes.
pub record Served (h : Machine) (n b size i : ℕ) (xs ys : List ℕ) (index : ℕ) (zs : List ℕ)
    (e : Machine) : Type 0 where
  pub enough : n + 8 ≤ extract_size (word e.bytes b)
  pub size_set : extract_size (word e.bytes b) ≡ adjusted_size n
  pub is_allocated : extract_alloc (word e.bytes b) ≡ true
  pub prev_kept : extract_prev_alloc (word e.bytes b) ≡ extract_prev_alloc (word h.bytes b)
  pub rest_size : extract_size (word e.bytes (b + adjusted_size n)) ≡ size - adjusted_size n
  pub rest_free : extract_alloc (word e.bytes (b + adjusted_size n)) ≡ false
  pub rest_prev : extract_prev_alloc (word e.bytes (b + adjusted_size n)) ≡ true
  pub rest_footer : word e.bytes (b + size - 8) ≡ word e.bytes (b + adjusted_size n)
  pub next_size_kept :
      extract_size (word e.bytes (b + size)) ≡ extract_size (word h.bytes (b + size))
  pub next_stays : extract_alloc (word e.bytes (b + size)) ≡ true
  pub next_told : extract_prev_alloc (word e.bytes (b + size)) ≡ true
  pub list : Doubly e.bytes null (e.seg_list index) ((b + adjusted_size n) ∷ zs)
  pub left : index ≢ i → Doubly e.bytes null (e.seg_list i) (xs ++ ys)
  pub others : (j : ℕ) → j ≢ i → j ≢ index → e.seg_list j ≡ h.seg_list j
  pub outside :
      (a : ℕ)
      → OutsideLinks a (xs ++ b ∷ ys)
      → OutsideLinks a zs
      → (a + 8 ≤ b) ⊎ (b + size + 8 ≤ a) ⊎ ((b + 8 ≤ a) × (a + 8 ≤ b + adjusted_size n))
      → word e.bytes a ≡ word h.bytes a
  pub heap_same : e.heap ≡ h.heap
  pub brk_same : e.mem_brk ≡ h.mem_brk

-- Of blocks that lie apart from each of `zs`, each of `zs` lies apart.
All-Apart_head : (x : ℕ) (xs zs : List ℕ) → All (λ z. All (Apart z) (x ∷ xs)) zs → All (Apart x) zs
All-Apart_head x xs [] a = tt
All-Apart_head x xs (z ∷ zs) a = (omega (arith, a.0.0), All-Apart_head x xs zs a.1)

All-Apart_tail :
    (x : ℕ) (xs zs : List ℕ) → All (λ z. All (Apart z) (x ∷ xs)) zs → All (λ z. All (Apart z) xs) zs
All-Apart_tail x xs [] a = tt
All-Apart_tail x xs (z ∷ zs) a = (a.0.1, All-Apart_tail x xs zs a.1)

All-Apart_swap : (xs zs : List ℕ) → All (λ z. All (Apart z) xs) zs → All (λ x. All (Apart x) zs) xs
All-Apart_swap [] zs a = tt
All-Apart_swap (x ∷ xs) zs a =
    (All-Apart_head x xs zs a, All-Apart_swap xs zs (All-Apart_tail x xs zs a))

All-removed :
    (P : ℕ → Type 0) (xs : List ℕ) (b : ℕ) (ys : List ℕ) → All P (xs ++ b ∷ ys) → All P (xs ++ ys)
All-removed P [] b ys a = a.1
All-removed P (x ∷ xs) b ys a = (a.0, All-removed P xs b ys a.1)

-- The links of a class that is neither touched nor in the way are spared by the split.
Split-SameLinks :
    (g e : Machine) (b size asize index : ℕ) (zs ws : List ℕ)
    → Split g b size asize index zs true e
    → All (λ w. All (Apart w) zs) ws
    → Clear b (b + size) ws
    → All (SameLinks g.bytes e.bytes) ws
Split-SameLinks g e b size asize index zs [] p far clear = tt
Split-SameLinks g e b size asize index zs (w ∷ ws) p far clear =
    let (q, q') = Apart-OutsideLinks w zs far.0 in
    (
      (
        p.outside (w + 8) q (omega (arith, clear.0)),
        p.outside (w + 16) q' (omega (arith, clear.0)),
      ),
      Split-SameLinks g e b size asize index zs ws p far.1 clear.1,
    )

module _ (h g e : Machine) (n b size i : ℕ) (xs ys : List ℕ) (index : ℕ) (zs : List ℕ)
    (l : Listed h b size i xs ys index zs) (r : Relinked h i (xs ++ b ∷ ys) g) where
  Split-left :
      (asize : ℕ)
      → Doubly g.bytes null (g.seg_list i) (xs ++ ys)
      → Split g b size asize index zs true e
      → index ≢ i
      → Doubly e.bytes null (e.seg_list i) (xs ++ ys)
  Split-left asize d p ne = elim l.other [
    | inl (same, f) ↦ absurd (ne same)
    | inr (ne', links, far) ↦
        let apart : All (λ w. All (Apart w) zs) (xs ++ ys) =
          All-removed (λ w. All (Apart w) zs) xs b ys (All-Apart_swap (xs ++ b ∷ ys) zs far) in
        rw (p.others i (λ q. ne (sym q))) (
          Doubly-frame g.bytes e.bytes null (g.seg_list i) (xs ++ ys)
            (Split-SameLinks g e b size asize index zs (xs ++ ys) p apart l.clear) d)
  ]

  Split-Served :
      n + 8 ≤ adjusted_size n
      → adjusted_size n + 32 ≤ size
      → Doubly g.bytes null (g.seg_list i) (xs ++ ys)
      → Split g b size (adjusted_size n) index zs true e
      → Served h n b size i xs ys index zs e
  Split-Served enough room d p =
      let head = header_same h g b size i xs ys index zs l r in
      record {
        enough = omega (arith, enough, p.size_set);
        size_set = p.size_set;
        is_allocated = p.is_allocated;
        prev_kept = p.prev_kept ∙ ap extract_prev_alloc (head b (omega arith) (omega arith));
        rest_size = p.rest_size;
        rest_free = p.rest_free;
        rest_prev = p.rest_prev;
        rest_footer = p.rest_footer;
        next_size_kept =
            p.next_size_kept ∙ ap extract_size (head (b + size) (omega arith) (omega arith));
        next_stays = p.next_stays;
        next_told = p.next_prev;
        list = p.list;
        left = Split-left (adjusted_size n) d p;
        others = λ j ne ne'. p.others j ne' ∙ r.others j ne;
        outside = λ a o o' far. p.outside a o' far ∙ r.outside a o;
        heap_same = p.heap_same ∙ r.heap_same;
        brk_same = p.brk_same ∙ r.brk_same;
      }

-- In an initialised heap whose classes are lists of blocks, for a request that is not 0 and whose
-- adjusted size does not wrap: where the best fit is `b`, of a doubly linked class, with an allocated
-- block behind it, and 32 bytes or more are left over, malloc ends without fault and returns the
-- payload of `b`. The block is allocated then with the adjusted size, which has room for the request,
-- and has left its class; the rest of it is free, with a footer, and in front of its own doubly
-- linked class; both lists are well linked. The successor is told that an allocated block is before
-- it. No other class changes, and no word outside of `b` and its successor's header but links of
-- both classes.
pub malloc-Served :
    (h : Machine) (lists : ℕ → List ℕ) (fuel n b size i : ℕ) (xs ys : List ℕ) (index : ℕ)
    (zs : List ℕ)
    → h.heap_start ≢ null
    → n ≢ 0
    → n + 23 < word_mod
    → Classes h lists fuel
    → best_of_classes h.bytes
        (adjusted_size n)
        lists
        (num_segs - find_index (adjusted_size n))
        (find_index (adjusted_size n))
      ≡ b
    → Listed h b size i xs ys index zs
    → Cuttable h b size (adjusted_size n) index zs
    → Returns (λ p e. (p ≡ b + 8) × Served h n b size i xs ys index zs e) (malloc fuel n h)
unfolding malloc allocate get_start remove_sized get_size
malloc-Served h lists fuel n b size i xs ys index zs started positive small classes best l c =
    let nb : Node h b = (All-append_right (Node h) xs (b ∷ ys) l.nodes).0 in
    let bounds = adjusted_size_bounds n small in
    rw
      (
        ==-ne h.heap_start null started,
        ==-ne n 0 positive,
        find_fit-done h lists fuel classes (adjusted_size n),
        best,
        ==-ne b 0 (omega (arith, nb.positive)),
        load-done b h (omega (arith, nb.low, nb.high)),
        c.size_is,
        l.class,
      )
      (bind (remove_from_free-Doubly h fuel i b xs ys l.doubly l.links l.nodes l.separated)
        (λ _ g q.
          weaken
            (place-Split g b size (adjusted_size n) index zs
              (Removed-Cuttable h g b size i xs ys index zs l q.1 (adjusted_size n) c)
              (Removed-Doubly h g b size i xs ys index zs l q.1 q.0))
            (λ p e t.
              (t.0, Split-Served h g e n b size i xs ys index zs l q.1 bounds.2 c.rest q.0 t.1))))
