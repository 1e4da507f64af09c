-- ===== src/Mm/Alloc/Freed.antt =====
-- free of a block between two allocated blocks.
use malloc_implementation.Base.{
  ℕ, ◌+◌, ◌-◌, ◌≤◌, ◌<◌, ◌≡◌, ◌≢◌, sym, ap, ◌∙◌, ◌⊎◌, true, false, arith, List, ◌∷◌, All, ==-ne,
}
use malloc_implementation.Base.Word.{word_mod}
use malloc_implementation.Memory.{Bytes}
use malloc_implementation.Memory.Words.{word}
use malloc_implementation.Machine.{Machine, with_bytes}
use malloc_implementation.Machine.Returns.{Returns, weaken}
use malloc_implementation.Machine.Access.{load-done, load-with_bytes}
use malloc_implementation.Mm.Header.{extract_size, extract_alloc, extract_prev_alloc, find_index}
use malloc_implementation.Mm.Blocks.{null, get_size, payload_to_header}
use malloc_implementation.Mm.Blocks.Write.{Fits}
use malloc_implementation.Mm.Blocks.Tags.{Tagged, write_block-Tagged}
use malloc_implementation.Mm.FreeList.Lists.{
  Node, Separated, Doubly, Doubly-frame, OutsideLinks, Relinked,
}
use malloc_implementation.Mm.FreeList.Insert.{add_to_free-Doubly}
use malloc_implementation.Mm.Coalesce.Alone.{Between, LeftAlone, coalesce_block-LeftAlone}
use malloc_implementation.Mm.Coalesce.Next.{Clear, Clear-OutsideLinks, Clear-SameLinks}
use malloc_implementation.Mm.Alloc.{free, add_sized}
use malloc_implementation.Mm.Alloc.Split.{Clear-Apart, Node-with_bytes}

payload_to_header-payload : (b : ℕ) → b < word_mod → payload_to_header (b + 8) ≡ b
unfolding payload_to_header
payload_to_header-payload b lt = omega arith

-- A block between two allocated ones, and the doubly linked class of its size with the blocks `xs`.
pub record Releasable (h : Machine) (b size next_size index : ℕ) (xs : List ℕ) : Type 0 where
  pub between : Between h b size next_size
  pub positive : 0 < b
  pub room : 32 ≤ size
  pub top : b + size < word_mod
  pub class : find_index size ≡ index
  pub doubly : index ≢ 0
  pub links : Doubly h.bytes null (h.seg_list index) xs
  pub nodes : All (Node h) xs
  pub separated : Separated xs
  pub clear : Clear b (b + size) xs

-- The block is free, with a footer, and the first of its class.
pub record Freed (h : Machine) (b size next_size index : ℕ) (xs : List ℕ) (k : Machine)
    : Type 0 where
  pub size_kept : extract_size (word k.bytes b) ≡ size
  pub is_free : extract_alloc (word k.bytes b) ≡ false
  pub prev_kept : extract_prev_alloc (word k.bytes b) ≡ extract_prev_alloc (word h.bytes b)
  pub footer_set : word k.bytes (b + size - 8) ≡ word k.bytes b
  pub next_size_kept : extract_size (word k.bytes (b + size)) ≡ next_size
  pub next_stays : extract_alloc (word k.bytes (b + size)) ≡ true
  pub next_prev_kept :
      extract_prev_alloc (word k.bytes (b + size)) ≡ extract_prev_alloc (word h.bytes (b + size))
  pub list : Doubly k.bytes null (k.seg_list index) (b ∷ xs)
  pub others : (j : ℕ) → j ≢ index → k.seg_list j ≡ h.seg_list j
  pub outside :
      (a : ℕ)
      → OutsideLinks a xs
      → (a + 8 ≤ b) ⊎ (b + size + 8 ≤ a)
      → word k.bytes a ≡ word h.bytes a
  pub heap_same : k.heap ≡ h.heap
  pub brk_same : k.mem_brk ≡ h.mem_brk

module _ (h : Machine) (b size next_size index : ℕ) (xs : List ℕ)
    (s : Releasable h b size next_size index xs) where
  -- The block is still between allocated ones when its own tags have been written.
  Tagged-Between :
      (m : Bytes) → Tagged h.bytes b size false m → Between (with_bytes h m) b size next_size
  Tagged-Between m t =
      let n = s.between in
      let room = n.room in
      let behind : word m (b + size) ≡ word h.bytes (b + size) =
        t.outside (b + size) (omega arith, omega arith) in
      let fits : Fits (with_bytes h m) b size = record {
        low = n.fits.low;
        header = n.fits.header;
        footer = n.fits.footer;
        aligned = n.fits.aligned;
        small = n.fits.small;
      } in
      let next_fits : Fits (with_bytes h m) (b + size) next_size = record {
        low = n.next_fits.low;
        header = n.next_fits.header;
        footer = n.next_fits.footer;
        aligned = n.next_fits.aligned;
        small = n.next_fits.small;
      } in
      record {
        fits = fits;
        room = n.room;
        size_is = t.size_set;
        prev_allocated = t.prev_kept ∙ n.prev_allocated;
        next_fits = next_fits;
        next_size_is = ap extract_size behind ∙ n.next_size_is;
        next_allocated = ap extract_alloc behind ∙ n.next_allocated;
      }

  LeftAlone-Freed :
      (m g : Bytes) (k : Machine)
      → Tagged h.bytes b size false m
      → LeftAlone m b size next_size g
      → Doubly k.bytes null (k.seg_list index) (b ∷ xs)
      → Relinked (with_bytes h g) index (b ∷ xs) k
      → Freed h b size next_size index xs k
  LeftAlone-Freed m g k t p d r =
      let room = s.room in
      let same : (a : ℕ) → (a ≡ b) ⊎ ((b + 24 ≤ a) × (a ≤ b + size)) → word k.bytes a ≡ word g a =
        λ a o. r.outside a (
          omega (arith, o),
          Clear-OutsideLinks b (b + size) a xs (omega (arith, o)) (omega (arith, o)) s.clear,
        ) in
      let at_b = same b (omega arith) in
      let at_next = same (b + size) (omega arith) in
      record {
        size_kept = ap extract_size at_b ∙ p.size_kept;
        is_free = ap extract_alloc at_b ∙ p.is_free;
        prev_kept = ap extract_prev_alloc at_b ∙ p.prev_kept ∙ t.prev_kept;
        footer_set = same (b + size - 8) (omega arith) ∙ p.footer_set (omega arith) ∙ sym at_b;
        next_size_kept = ap extract_size at_next ∙ p.next_size_kept;
        next_stays = ap extract_alloc at_next ∙ p.next_stays;
        next_prev_kept =
            ap extract_prev_alloc at_next
            ∙ p.next_prev_kept
            ∙ ap extract_prev_alloc (t.outside (b + size) (omega arith, omega arith));
        list = d;
        others = r.others;
        outside = λ a o far.
            r.outside a (omega (arith, far), o)
            ∙ p.outside a (omega (arith, far), omega (arith, far)) (omega (arith, far))
            ∙ t.outside a (omega (arith, far), omega (arith, far));
        heap_same = r.heap_same;
        brk_same = r.brk_same;
      }

  -- The links of the class are spared until the block is inserted.
  LeftAlone-links :
      (m g : Bytes)
      → Tagged h.bytes b size false m
      → LeftAlone m b size next_size g
      → Doubly g null (h.seg_list index) xs
  LeftAlone-links m g t p =
      let room = s.room in
      Doubly-frame h.bytes g null (h.seg_list index) xs
        (Clear-SameLinks h.bytes g b (b + size) xs
          (λ a o.
            p.outside a (omega (arith, o), omega (arith, o)) (omega (arith, o))
            ∙ t.outside a (omega (arith, o), omega (arith, o)))
          s.clear)
        s.links

  -- free of a block of 32 bytes or more between two allocated ones, whose class is doubly linked, ends
  -- without fault. The block is free then with its size and a footer, and the first of the class of
  -- its size, whose list is well linked. Its successor keeps its size, its allocation and its bit
  -- about the block before it. No other class changes, and no word before the block or behind its
  -- successor's header but links of that class.
  pub free-Freed :
      (fuel : ℕ) → Returns (λ _ k. Freed h b size next_size index xs k) (free fuel (b + 8) h)
  unfolding free get_size add_sized
  free-Freed fuel =
      let room = s.room in
      let n = s.between in
      let (m, run, t) = write_block-Tagged h b size false n.fits in
      let (g, run', p) =
        coalesce_block-LeftAlone fuel (with_bytes h m) b size next_size (Tagged-Between m t) in
      let node : Node (with_bytes h g) b = record {
        positive = s.positive;
        low = n.fits.low;
        high = omega (arith, n.fits.footer);
        small = omega (arith, s.top);
      } in
      rw
        (
          ==-ne (b + 8) 0 (omega arith),
          payload_to_header-payload b (omega (arith, s.top)),
          load-done b h (n.fits.low, n.fits.header),
          n.size_is,
          run,
          run',
          load-with_bytes b h g (n.fits.low, n.fits.header),
          p.size_kept,
          s.class,
        )
        (weaken
          (add_to_free-Doubly (with_bytes h g) b index xs s.doubly node
            (Node-with_bytes h g xs s.nodes) (LeftAlone-links m g t p)
            (Clear-Apart b (b + size) b xs (omega arith) (omega arith) s.clear, s.separated))
          (λ _ k q. LeftAlone-Freed m g k t p q.0 q.1))
