-- ===== src/Mm/Coalesce/Prev.antt =====
-- coalesce_block of the last block of the heap when its predecessor is free.
use malloc_implementation.Base.{
  ℕ, ◌+◌, ◌-◌, ◌≤◌, ◌<◌, ◌≡◌, ◌≢◌, refl, ◌∙◌, ◌⊎◌, inr, true, false, arith, List, ◌∷◌, ◌++◌, All,
  ==-ne,
}
use malloc_implementation.Base.Word.{word_mod, add64, sub64}
use malloc_implementation.Memory.{Bytes}
use malloc_implementation.Memory.Words.{word}
use malloc_implementation.Machine.{Machine, done, pure, load, ◌>>=◌, ◌>>◌, with_bytes}
use malloc_implementation.Machine.Returns.{Returns, returns, bind}
use malloc_implementation.Machine.Access.{load-done, load-with_bytes}
use malloc_implementation.Mm.Header.{extract_size, extract_alloc, extract_prev_alloc, find_index}
use malloc_implementation.Mm.Blocks.{
  null, get_size, get_alloc, get_prev_alloc, find_next, find_prev, find_prev_footer,
  footer_to_header, write_block,
}
use malloc_implementation.Mm.Blocks.Write.{Fits}
use malloc_implementation.Mm.Blocks.Tags.{write_block-Tagged}
use malloc_implementation.Mm.FreeList.Lists.{Node, Separated, Doubly, OutsideLinks, Relinked}
use malloc_implementation.Mm.FreeList.Remove.{remove_from_free-Doubly}
use malloc_implementation.Mm.Coalesce.{coalesce_block, coalesce_prev, remove_sized}
use malloc_implementation.Mm.Coalesce.Next.{
  Clear, Clear-OutsideLinks, All-middle, Joined, Joined-of,
}

-- The block at `p + prev_size` stands behind the free block `p` of a doubly linked class, with a
-- footer, and in front of the epilogue.
pub record PrevFree (h : Machine) (p prev_size size index : ℕ) (xs ys : List ℕ) : Type 0 where
  pub prev_fits : Fits h p prev_size
  pub prev_room : 32 ≤ prev_size
  pub prev_size_is : extract_size (word h.bytes p) ≡ prev_size
  pub footer_is : extract_size (word h.bytes (p + prev_size - 8)) ≡ prev_size
  pub fits : Fits h (p + prev_size) size
  pub room : 16 ≤ size
  pub size_is : extract_size (word h.bytes (p + prev_size)) ≡ size
  pub prev_free : extract_prev_alloc (word h.bytes (p + prev_size)) ≡ false
  pub end_high : p + prev_size + size + 8 ≤ h.mem_brk
  pub end_size : extract_size (word h.bytes (p + prev_size + size)) ≡ 0
  pub end_allocated : extract_alloc (word h.bytes (p + prev_size + size)) ≡ true
  pub small : p + prev_size + size < word_mod
  pub class : find_index prev_size ≡ index
  pub doubly : index ≢ 0
  pub links : Doubly h.bytes null (h.seg_list index) (xs ++ p ∷ ys)
  pub nodes : All (Node h) (xs ++ p ∷ ys)
  pub separated : Separated (xs ++ p ∷ ys)
  pub clear : Clear p (p + prev_size + size + 8) (xs ++ ys)

-- The word is no epilogue any more: it says that it is a free block of size 0.
pub record EndMarkedFree (m : Bytes) (end : ℕ) : Type 0 where
  pub size_kept : extract_size (word m end) ≡ 0
  pub marked_free : extract_alloc (word m end) ≡ false

PrevFree-written :
    (h g : Machine) (p prev_size size index : ℕ) (xs ys : List ℕ)
    → PrevFree h p prev_size size index xs ys
    → Doubly g.bytes null (g.seg_list index) (xs ++ ys)
    → Relinked h index (xs ++ p ∷ ys) g
    → Returns
        (λ q k.
          (q ≡ p)
          × Joined h index
              (xs ++ p ∷ ys)
              (xs ++ ys)
              p
              (prev_size + size)
              (p + prev_size + size + 8)
              k
          × EndMarkedFree k.bytes (p + prev_size + size))
        ((write_block p (add64 prev_size size) false
            >> (get_size (p + prev_size + size) >>= λ n.
                write_block (p + prev_size + size) n false >> pure p))
          g)
unfolding get_size
PrevFree-written h g p prev_size size index xs ys n d r =
    let total = prev_size + size in
    let next = p + prev_size + size in
    let end = next + 8 in
    let sum : add64 prev_size size ≡ total = omega (arith, n.small) in
    let fits : Fits g p total = record {
      low = omega (arith, r.heap_same, n.prev_fits.low);
      header = omega (arith, r.brk_same, n.prev_fits.header);
      footer = omega (arith, r.brk_same, n.fits.footer);
      aligned = omega (arith, n.fits.aligned, n.prev_fits.aligned);
      small = omega (arith, n.small);
    } in
    let (m, run, t) = write_block-Tagged g p total false fits in
    let next_fits : Fits (with_bytes g m) next 0 = record {
      low = omega (arith, r.heap_same, n.prev_fits.low);
      header = omega (arith, r.brk_same, n.end_high);
      footer = omega (arith, r.brk_same, n.end_high);
      aligned = refl;
      small = omega arith;
    } in
    let (k, run', u) = write_block-Tagged (with_bytes g m) next 0 false next_fits in
    let rest = Clear-OutsideLinks p end in
    let out_p : OutsideLinks p (xs ++ p ∷ ys) =
      All-middle (λ x. (p + 8 ≤ x + 8) ⊎ (x + 24 ≤ p)) xs p ys (omega arith)
        (rest p (xs ++ ys) (omega arith) (omega arith) n.clear) in
    let out_next : OutsideLinks next (xs ++ p ∷ ys) =
      All-middle (λ x. (next + 8 ≤ x + 8) ⊎ (x + 24 ≤ next)) xs p ys (omega (arith, n.prev_room))
        (rest next (xs ++ ys) (omega arith) (omega arith) n.clear) in
    let same_next : word m next ≡ word h.bytes next =
      t.outside next (omega (arith, n.prev_room), omega arith) ∙ r.outside next out_next in
    rw
      (
        sum,
        run,
        load-with_bytes next g m
            (omega (arith, r.heap_same, n.prev_fits.low), omega (arith, r.brk_same, n.end_high)),
        same_next,
        n.end_size,
        run',
      )
      (returns (
        refl,
        Joined-of h g m k index (xs ++ p ∷ ys) (xs ++ ys) p total end d r out_p t
            (omega (arith, n.prev_room)) (omega arith)
            (u.header_only (inr (omega arith)) p (omega (arith, n.prev_room)))
            (u.header_only (inr (omega arith)) (p + total - 8) (omega (arith, n.prev_room)))
            (λ a o. u.header_only (inr (omega arith)) a (omega (arith, o))) n.clear,
        record { size_kept = u.size_set; marked_free = u.alloc_set },
      ))

-- Where the last block of the heap stands behind a free block of a doubly linked class, coalesce_block
-- ends without fault and returns the block before, which is free with the size of both and a
-- footer; it has left its class, whose list is well linked. But the epilogue is then marked as free,
-- a free block of size 0.
pub coalesce_block-EndMarkedFree :
    (fuel : ℕ) (h : Machine) (p prev_size size index : ℕ) (xs ys : List ℕ)
    → PrevFree h p prev_size size index xs ys
    → Returns
        (λ q g.
          (q ≡ p)
          × Joined h index
              (xs ++ p ∷ ys)
              (xs ++ ys)
              p
              (prev_size + size)
              (p + prev_size + size + 8)
              g
          × EndMarkedFree g.bytes (p + prev_size + size))
        (coalesce_block fuel (p + prev_size) h)
unfolding coalesce_block coalesce_prev remove_sized find_next get_size get_alloc get_prev_alloc
    find_prev find_prev_footer footer_to_header
coalesce_block-EndMarkedFree fuel h p prev_size size index xs ys n =
    let b = p + prev_size in
    let here : load b h ≡ done (word h.bytes b) h = load-done b h (n.fits.low, n.fits.header) in
    let there : load (b + size) h ≡ done (word h.bytes (b + size)) h =
      load-done (b + size) h (omega (arith, n.prev_fits.low), n.end_high) in
    let before : load p h ≡ done (word h.bytes p) h =
      load-done p h (n.prev_fits.low, n.prev_fits.header) in
    let footer : load (b - 8) h ≡ done (word h.bytes (b - 8)) h = load-done (b - 8) h (
      omega (arith, n.prev_fits.low, n.prev_room),
      omega (arith, n.prev_fits.footer, n.prev_room),
    ) in
    let footer_at : sub64 b 8 ≡ b - 8 = omega (arith, n.prev_room, n.small) in
    let back : sub64 (b - 8 + 8) prev_size ≡ p = omega (arith, n.prev_room, n.small) in
    rw
      (
        here,
        n.size_is,
        here,
        n.prev_free,
        there,
        n.end_allocated,
        footer_at,
        footer,
        n.footer_is,
        ==-ne prev_size 0 (omega (arith, n.prev_room)),
        footer,
        n.footer_is,
        back,
        here,
        n.size_is,
        before,
        n.prev_size_is,
        before,
        n.prev_size_is,
        n.class,
      )
      (bind (remove_from_free-Doubly h fuel index p xs ys n.doubly n.links n.nodes n.separated)
        (λ _ g q. PrevFree-written h g p prev_size size index xs ys n q.0 q.1))
