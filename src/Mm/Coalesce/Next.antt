-- ===== src/Mm/Coalesce/Next.antt =====
-- coalesce_block of a block whose successor is free.
use malloc_implementation.Base.{
  ℕ, ◌+◌, ◌-◌, ◌≤◌, ◌<◌, ◌≡◌, ◌≢◌, refl, ap, ◌∙◌, sym, ◌⊎◌, true, false, arith, List, [], ◌∷◌, ◌++◌,
  All,
}
use malloc_implementation.Base.Word.{word_mod, add64}
use malloc_implementation.Memory.{Bytes}
use malloc_implementation.Memory.Words.{word}
use malloc_implementation.Machine.{Machine, done, pure, load, ◌>>◌, with_bytes}
use malloc_implementation.Machine.Returns.{Returns, returns, bind}
use malloc_implementation.Machine.Access.{InHeap, load-done, store-done}
use malloc_implementation.Mm.Header.{extract_size, extract_alloc, extract_prev_alloc, find_index}
use malloc_implementation.Mm.Blocks.{
  null, get_size, get_alloc, get_prev_alloc, get_prev_mini_block, find_next, write_block,
  write_footer,
}
use malloc_implementation.Mm.Blocks.Write.{Fits, new_header, written}
use malloc_implementation.Mm.Blocks.Tags.{Tagged, write_block-Tagged}
use malloc_implementation.Mm.FreeList.Lists.{
  Node, Separated, Doubly, Doubly-frame, OutsideLinks, Relinked, SameLinks,
}
use malloc_implementation.Mm.FreeList.Remove.{remove_from_free-Doubly}
use malloc_implementation.Mm.Coalesce.{coalesce_block, coalesce_next, remove_sized}
use malloc_implementation.Mm.Coalesce.Alone.{written_allocated-kept}

-- The links of the blocks lie outside the range from `low` to `high`.
abbrev pub Clear : ℕ → ℕ → List ℕ → Type 0
Clear low high xs = All (λ x. (x + 32 ≤ low) ⊎ (high ≤ x)) xs

-- A word of the range is no link of such blocks.
pub Clear-OutsideLinks :
    (low high a : ℕ) (xs : List ℕ) → low ≤ a → a ≤ high → Clear low high xs → OutsideLinks a xs
Clear-OutsideLinks low high a [] l u c = tt
Clear-OutsideLinks low high a (x ∷ xs) l u c =
    (omega (arith, c.0), Clear-OutsideLinks low high a xs l u c.1)

-- A change of the range spares the links of such blocks.
pub Clear-SameLinks :
    (m g : Bytes) (low high : ℕ) (xs : List ℕ)
    → ((a : ℕ) → (a + 8 ≤ low) ⊎ (high + 8 ≤ a) → word g a ≡ word m a)
    → Clear low high xs
    → All (SameLinks m g) xs
Clear-SameLinks m g low high [] same c = tt
Clear-SameLinks m g low high (x ∷ xs) same c = (
  (same (x + 8) (omega (arith, c.0)), same (x + 16) (omega (arith, c.0))),
  Clear-SameLinks m g low high xs same c.1,
)

-- The middle of a list.
pub All-middle :
    (P : ℕ → Type 0) (xs : List ℕ) (b : ℕ) (ys : List ℕ)
    → P b
    → All P (xs ++ ys)
    → All P (xs ++ b ∷ ys)
All-middle P [] b ys h all = (h, all)
All-middle P (x ∷ xs) b ys h all = (all.0, All-middle P xs b ys h all.1)

-- write_block of an allocated block needs its header only.
pub write_allocated-done :
    (h : Machine) (b size : ℕ)
    → InHeap 8 b h
    → write_block b size true h ≡ done tt (with_bytes h (written h.bytes b size true))
unfolding write_block get_prev_alloc get_prev_mini_block write_footer written
write_allocated-done h b size i =
    rw (load-done b h i, load-done b h i, store-done b (new_header (word h.bytes b) size true) h i)
      refl

-- The block `b` has an allocated block before it and a free block of a doubly linked class, between
-- `xs` and `ys`, behind it.
pub record NextFree (h : Machine) (b size next_size index : ℕ) (xs ys : List ℕ) : Type 0 where
  pub fits : Fits h b size
  pub room : 16 ≤ size
  pub size_is : extract_size (word h.bytes b) ≡ size
  pub prev_allocated : extract_prev_alloc (word h.bytes b) ≡ true
  pub next_fits : Fits h (b + size) next_size
  pub next_room : 32 ≤ next_size
  pub next_size_is : extract_size (word h.bytes (b + size)) ≡ next_size
  pub next_free : extract_alloc (word h.bytes (b + size)) ≡ false
  pub total_small : size + next_size < word_mod
  pub class : find_index next_size ≡ index
  pub doubly : index ≢ 0
  pub links : Doubly h.bytes null (h.seg_list index) (xs ++ (b + size) ∷ ys)
  pub nodes : All (Node h) (xs ++ (b + size) ∷ ys)
  pub separated : Separated (xs ++ (b + size) ∷ ys)
  pub clear : Clear b (b + size + next_size) (xs ++ ys)

-- The block `b` of `total` bytes is free, and the class has the blocks `left`. The words from `b` to
-- `end` and the links of the blocks `touched` may have changed.
pub record Joined (h : Machine) (index : ℕ) (touched left : List ℕ) (b total end : ℕ) (g : Machine)
    : Type 0 where
  pub size_set : extract_size (word g.bytes b) ≡ total
  pub is_free : extract_alloc (word g.bytes b) ≡ false
  pub prev_kept : extract_prev_alloc (word g.bytes b) ≡ extract_prev_alloc (word h.bytes b)
  pub footer_set : word g.bytes (b + total - 8) ≡ word g.bytes b
  pub list : Doubly g.bytes null (g.seg_list index) left
  pub others : (j : ℕ) → j ≢ index → g.seg_list j ≡ h.seg_list j
  pub outside :
      (a : ℕ) → OutsideLinks a touched → (a + 8 ≤ b) ⊎ (end ≤ a) → word g.bytes a ≡ word h.bytes a
  pub heap_same : g.heap ≡ h.heap
  pub brk_same : g.mem_brk ≡ h.mem_brk

-- The last two steps: the joined block is written, and then a tag within its range or behind it.
pub Joined-of :
    (h g : Machine) (m k : Bytes) (index : ℕ) (touched left : List ℕ) (b total end : ℕ)
    → Doubly g.bytes null (g.seg_list index) left
    → Relinked h index touched g
    → OutsideLinks b touched
    → Tagged g.bytes b total false m
    → 32 ≤ total
    → b + total ≤ end
    → word k b ≡ word m b
    → word k (b + total - 8) ≡ word m (b + total - 8)
    → ((a : ℕ) → (a + 8 ≤ b) ⊎ (end ≤ a) → word k a ≡ word m a)
    → Clear b end left
    → Joined h index touched left b total end (with_bytes g k)
Joined-of h g m k index touched left b total end d r out t big le head foot kept clear = record {
  size_set = ap extract_size head ∙ t.size_set;
  is_free = ap extract_alloc head ∙ t.alloc_set;
  prev_kept = ap extract_prev_alloc head ∙ t.prev_kept ∙ ap extract_prev_alloc (r.outside b out);
  footer_set = foot ∙ t.footer_set refl (omega arith) ∙ sym head;
  list =
      Doubly-frame g.bytes k null (g.seg_list index) left
        (Clear-SameLinks g.bytes k b end left
          (λ a o. kept a (omega arith) ∙ t.outside a (omega arith, omega arith)) clear)
        d;
  others = r.others;
  outside = λ a o far. kept a far ∙ t.outside a (omega arith, omega arith) ∙ r.outside a o;
  heap_same = r.heap_same;
  brk_same = r.brk_same;
}

-- The last steps of coalesce_next, from the machine in which the successor has left its class.
NextFree-written :
    (h g : Machine) (b size next_size index : ℕ) (xs ys : List ℕ)
    → NextFree h b size next_size index xs ys
    → Doubly g.bytes null (g.seg_list index) (xs ++ ys)
    → Relinked h index (xs ++ (b + size) ∷ ys) g
    → Returns
        (λ p k.
          (p ≡ b)
          × Joined h index
              (xs ++ (b + size) ∷ ys)
              (xs ++ ys)
              b
              (size + next_size)
              (b + size + next_size)
              k)
        ((write_block b (add64 next_size size) false
            >> (write_block (b + size) (add64 next_size size) true >> pure b))
          g)
NextFree-written h g b size next_size index xs ys n d r =
    let total = size + next_size in
    let sum : add64 next_size size ≡ total = omega (arith, n.total_small) in
    let fits : Fits g b total = record {
      low = omega (arith, r.heap_same, n.fits.low);
      header = omega (arith, r.brk_same, n.fits.header);
      footer = omega (arith, r.brk_same, n.next_fits.footer);
      aligned = omega (arith, n.fits.aligned, n.next_fits.aligned);
      small = n.total_small;
    } in
    let (m, run, t) = write_block-Tagged g b total false fits in
    let at : InHeap 8 (b + size) (with_bytes g m) = (
      omega (arith, r.heap_same, n.next_fits.low),
      omega (arith, r.brk_same, n.next_fits.header),
    ) in
    let clear = n.clear in
    let out : OutsideLinks b (xs ++ (b + size) ∷ ys) =
      All-middle (λ x. (b + 8 ≤ x + 8) ⊎ (x + 24 ≤ b)) xs (b + size) ys (omega (arith, n.room))
        (Clear-OutsideLinks b (b + size + next_size) b (xs ++ ys) (omega arith) (omega arith)
          clear) in
    let kept = written_allocated-kept m (b + size) total in
    rw (sum, run, write_allocated-done (with_bytes g m) (b + size) total at)
      (returns (
        refl,
        Joined-of h g m (written m (b + size) total true) index (xs ++ (b + size) ∷ ys) (xs ++ ys) b
            total (b + size + next_size) d r out t (omega (arith, n.room, n.next_room))
            (omega arith) (kept b (omega (arith, n.room)))
            (kept (b + total - 8) (omega (arith, n.next_room)))
            (λ a o. kept a (omega (arith, n.next_room, o))) clear,
      ))

-- Where the successor is free and in its doubly linked class, and the block before is allocated,
-- coalesce_block ends without fault and returns the block. The block is free then with the size of
-- both and a footer, its bit about the block before it is kept, the successor has left its class,
-- whose list is well linked, and no other class and no word outside of both blocks changes but links
-- of that class.
pub coalesce_block-JoinedNext :
    (fuel : ℕ) (h : Machine) (b size next_size index : ℕ) (xs ys : List ℕ)
    → NextFree h b size next_size index xs ys
    → Returns
        (λ p g.
          (p ≡ b)
          × Joined h index
              (xs ++ (b + size) ∷ ys)
              (xs ++ ys)
              b
              (size + next_size)
              (b + size + next_size)
              g)
        (coalesce_block fuel b h)
unfolding coalesce_block coalesce_next remove_sized find_next get_size get_alloc get_prev_alloc
coalesce_block-JoinedNext fuel h b size next_size index xs ys n =
    let here : load b h ≡ done (word h.bytes b) h = load-done b h (n.fits.low, n.fits.header) in
    let there : load (b + size) h ≡ done (word h.bytes (b + size)) h =
      load-done (b + size) h (n.next_fits.low, n.next_fits.header) in
    rw
      (
        here, n.size_is, here, n.prev_allocated, there, n.next_free, here, n.size_is, there,
        n.next_size_is, there, n.next_size_is, n.class,
      )
      (bind
        (remove_from_free-Doubly h fuel index (b + size) xs ys n.doubly n.links n.nodes n.separated)
        (λ _ g p. NextFree-written h g b size next_size index xs ys n p.0 p.1))
