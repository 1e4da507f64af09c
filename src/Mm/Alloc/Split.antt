-- ===== src/Mm/Alloc/Split.antt =====
-- split_block: the end of an allocated block becomes a free block.
use malloc_implementation.Base.{
  ℕ, ◌+◌, ◌-◌, ◌≤◌, ◌≡◌, ◌≢◌, sym, ap, ◌∙◌, ◌⊎◌, Bool, true, false, arith, List, [], ◌∷◌, All,
}
use malloc_implementation.Memory.{Bytes}
use malloc_implementation.Memory.Words.{word}
use malloc_implementation.Machine.{Machine, with_bytes, ◌>>=◌}
use malloc_implementation.Machine.Returns.{Returns, returns, bind}
use malloc_implementation.Machine.Access.{InHeap, load-done}
use malloc_implementation.Mm.Header.{extract_size, extract_alloc, extract_prev_alloc}
use malloc_implementation.Mm.Blocks.{null, get_size, find_next}
use malloc_implementation.Mm.FreeList.Lists.{
  Node, Apart, Doubly, Doubly-frame, OutsideLinks, Relinked,
}
use malloc_implementation.Mm.FreeList.Insert.{add_to_free-Doubly}
use malloc_implementation.Mm.Coalesce.Next.{Clear, Clear-OutsideLinks, Clear-SameLinks}
use malloc_implementation.Mm.Alloc.{split_block, add_sized, rewrite_block}
use malloc_implementation.Mm.Alloc.Mark.{rewrite_block-Header}
use malloc_implementation.Mm.Alloc.Cut.{Cuttable, Cut, split_block-Cut}

-- The block `b` has `asize` bytes, and the rest of its `size` bytes is the first free block of its
-- class. The successor's bit about the block before it is `prev`.
pub record Split (h : Machine) (b size asize index : ℕ) (xs : List ℕ) (prev : Bool) (g : Machine)
    : Type 0 where
  pub size_set : extract_size (word g.bytes b) ≡ asize
  pub is_allocated : extract_alloc (word g.bytes b) ≡ true
  pub prev_kept : extract_prev_alloc (word g.bytes b) ≡ extract_prev_alloc (word h.bytes b)
  pub rest_size : extract_size (word g.bytes (b + asize)) ≡ size - asize
  pub rest_free : extract_alloc (word g.bytes (b + asize)) ≡ false
  pub rest_prev : extract_prev_alloc (word g.bytes (b + asize)) ≡ true
  pub rest_footer : word g.bytes (b + size - 8) ≡ word g.bytes (b + asize)
  pub next_size_kept :
      extract_size (word g.bytes (b + size)) ≡ extract_size (word h.bytes (b + size))
  pub next_stays : extract_alloc (word g.bytes (b + size)) ≡ true
  pub next_prev : extract_prev_alloc (word g.bytes (b + size)) ≡ prev
  pub list : Doubly g.bytes null (g.seg_list index) ((b + asize) ∷ xs)
  pub others : (j : ℕ) → j ≢ index → g.seg_list j ≡ h.seg_list j
  pub outside :
      (a : ℕ)
      → OutsideLinks a xs
      → (a + 8 ≤ b) ⊎ (b + size + 8 ≤ a) ⊎ ((b + 8 ≤ a) × (a + 8 ≤ b + asize))
      → word g.bytes a ≡ word h.bytes a
  pub heap_same : g.heap ≡ h.heap
  pub brk_same : g.mem_brk ≡ h.mem_brk

pub Clear-narrow :
    (low high low' high' : ℕ) (xs : List ℕ)
    → low ≤ low'
    → high' ≤ high
    → Clear low high xs
    → Clear low' high' xs
Clear-narrow low high low' high' [] l u c = tt
Clear-narrow low high low' high' (x ∷ xs) l u c =
    (omega (arith, c.0), Clear-narrow low high low' high' xs l u c.1)

pub Clear-Apart :
    (low high r : ℕ) (xs : List ℕ) → low ≤ r → r + 16 ≤ high → Clear low high xs → All (Apart r) xs
Clear-Apart low high r [] l u c = tt
Clear-Apart low high r (x ∷ xs) l u c = (omega (arith, c.0), Clear-Apart low high r xs l u c.1)

pub Node-with_bytes :
    (h : Machine) (m : Bytes) (xs : List ℕ) → All (Node h) xs → All (Node (with_bytes h m)) xs
Node-with_bytes h m [] n = tt
Node-with_bytes h m (x ∷ xs) n = (
  record { positive = n.0.positive; low = n.0.low; high = n.0.high; small = n.0.small },
  Node-with_bytes h m xs n.1,
)

module _ (h : Machine) (b size asize index : ℕ) (xs : List ℕ) (s : Cuttable h b size asize index xs)
    (linked : Doubly h.bytes null (h.seg_list index) xs) where
  -- The words of the two parts that are no links of the class.
  links_outside :
      (a : ℕ)
      → OutsideLinks a xs
      → (a + 8 ≤ b + asize + 8) ⊎ (b + size ≤ a + 8)
      → OutsideLinks a ((b + asize) ∷ xs)
  links_outside a o far = let rest = s.rest in (omega (arith, far), o)

  header_outside : (a : ℕ) → b ≤ a → a ≤ b + size → OutsideLinks a xs
  header_outside a l u = Clear-OutsideLinks b (b + size) a xs l u s.clear

  -- The last header that split_block writes, from the machine in which the rest is in its class.
  Cut-Split :
      (g : Bytes) (k : Machine)
      → Cut h.bytes b size asize g
      → Doubly k.bytes null (k.seg_list index) ((b + asize) ∷ xs)
      → Relinked (with_bytes h g) index ((b + asize) ∷ xs) k
      → Returns
          (λ _ e. Split h b size asize index xs (extract_prev_alloc (word h.bytes (b + size))) e)
          ((do after ← find_next (b + asize); rewrite_block after) k)
  unfolding find_next get_size
  Cut-Split g k c d r =
      let room = s.room in
      let rest = s.rest in
      let next = b + size in
      let there : InHeap 8 (b + asize) k =
        (omega (arith, r.heap_same, s.low), omega (arith, r.brk_same, s.next_header, rest)) in
      let far : InHeap 8 next k =
        (omega (arith, r.heap_same, s.low), omega (arith, r.brk_same, s.next_header)) in
      let same : (a : ℕ)
          → b ≤ a
          → a ≤ next
          → (a + 8 ≤ b + asize + 8) ⊎ (next ≤ a + 8)
          → word k.bytes a ≡ word g a =
        λ a l u o. r.outside a (links_outside a (header_outside a l u) o) in
      let at_b = same b (omega arith) (omega arith) (omega arith) in
      let at_r = same (b + asize) (omega arith) (omega arith) (omega arith) in
      let at_foot = same (next - 8) (omega arith) (omega arith) (omega arith) in
      let at_next : word k.bytes next ≡ word h.bytes next =
        same next (omega arith) (omega arith) (omega arith) ∙ c.outside next (omega arith) in
      let (m, run, head) =
        rewrite_block-Header k next far (ap extract_alloc at_next ∙ s.next_allocated) in
      let end : b + asize + (size - asize) ≡ next = omega arith in
      let kept_r : word m (b + asize) ≡ word g (b + asize) =
        head.outside (b + asize) (omega arith) ∙ at_r in
      let kept_b : word m b ≡ word g b = head.outside b (omega arith) ∙ at_b in
      let kept_foot : word m (next - 8) ≡ word g (next - 8) =
        head.outside (next - 8) (omega arith) ∙ at_foot in
      rw (load-done (b + asize) k there, ap extract_size at_r ∙ c.rest_size, end, run)
        (returns record {
          size_set = ap extract_size kept_b ∙ c.size_set;
          is_allocated = ap extract_alloc kept_b ∙ c.is_allocated;
          prev_kept = ap extract_prev_alloc kept_b ∙ c.prev_kept;
          rest_size = ap extract_size kept_r ∙ c.rest_size;
          rest_free = ap extract_alloc kept_r ∙ c.rest_free;
          rest_prev = ap extract_prev_alloc kept_r ∙ c.rest_prev;
          rest_footer = kept_foot ∙ c.rest_footer ∙ sym kept_r;
          next_size_kept = head.size_set ∙ ap extract_size at_next;
          next_stays = head.alloc_set;
          next_prev = head.prev_set ∙ ap extract_prev_alloc at_next;
          list =
              Doubly-frame k.bytes m null (k.seg_list index) ((b + asize) ∷ xs)
                (Clear-SameLinks k.bytes m next next ((b + asize) ∷ xs) (λ a o. head.outside a o)
                  (
                    omega arith,
                    Clear-narrow b next next next xs (omega arith) (omega arith) s.clear,
                  ))
                d;
          others = r.others;
          outside = λ a o far.
              head.outside a (omega (arith, far))
              ∙ r.outside a (links_outside a o (omega (arith, far)))
              ∙ c.outside a (omega (arith, far));
          heap_same = r.heap_same;
          brk_same = r.brk_same;
        })

  -- Where 32 bytes or more would be left over, split_block ends without fault. The block has the
  -- size asked for then and stays allocated, the rest is free with a footer and stands in front of
  -- its class, whose list is well linked, and the successor keeps its header, so that its bit about
  -- the block before it is not cleared. The payload of the block and all words before and behind
  -- keep their values, but for links of that class.
  pub split_block-Split :
      Returns
        (λ _ g. Split h b size asize index xs (extract_prev_alloc (word h.bytes (b + size))) g)
        (split_block b asize h)
  unfolding add_sized get_size
  split_block-Split =
      let room = s.room in
      let rest = s.rest in
      let (g, run, c) = split_block-Cut h b size asize index xs s in
      let r = b + asize in
      let there : InHeap 8 r (with_bytes h g) =
        (omega (arith, s.low), omega (arith, s.next_header)) in
      let node : Node (with_bytes h g) r = record {
        positive = omega arith;
        low = omega (arith, s.low);
        high = omega (arith, s.next_header);
        small = omega (arith, s.top);
      } in
      let links : Doubly g null (h.seg_list index) xs =
        Doubly-frame h.bytes g null (h.seg_list index) xs
          (Clear-SameLinks h.bytes g b (b + size) xs (λ a o. c.outside a (omega (arith, o)))
            s.clear)
          linked in
      rw (run, load-done r (with_bytes h g) there, c.rest_size, s.class)
        (bind
          (add_to_free-Doubly (with_bytes h g) r index xs s.doubly node
            (Node-with_bytes h g xs s.nodes) links
            (Clear-Apart b (b + size) r xs (omega arith) (omega arith) s.clear, s.separated))
          (λ _ k p. Cut-Split g k c p.0 p.1))
