-- ===== src/Mm/Alloc/Cut.antt =====
-- split_block up to the insertion of the rest: the headers and the footer of the two parts.
use malloc_implementation.Base.{
  ℕ, ◌+◌, ◌-◌, ◌%◌, ◌≤◌, ◌<◌, ◌≡◌, ◌≢◌, refl, ap, ◌∙◌, ◌⊎◌, true, false, arith, leb, List, All,
}
use malloc_implementation.Base.Word.{word_mod, sub64}
use malloc_implementation.Memory.{Bytes}
use malloc_implementation.Memory.Words.{word}
use malloc_implementation.Machine.{Machine, done, with_bytes, ◌>>=◌, ◌>>◌}
use malloc_implementation.Machine.Access.{InHeap, load-done, load-with_bytes}
use malloc_implementation.Mm.Header.{extract_size, extract_alloc, extract_prev_alloc, find_index}
use malloc_implementation.Mm.Blocks.{get_size, find_next, write_block}
use malloc_implementation.Mm.Blocks.Write.{Fits}
use malloc_implementation.Mm.Blocks.Tags.{write_block-Tagged}
use malloc_implementation.Mm.FreeList.Lists.{Node, Separated}
use malloc_implementation.Mm.Coalesce.Next.{Clear}
use malloc_implementation.Mm.Alloc.{split_block, add_sized, rewrite_block, mark_prev_alloc}
use malloc_implementation.Mm.Alloc.Mark.{write_allocated-Header, mark_prev_alloc-Header}

-- A block that is to be cut down to `asize` bytes, with room for a free block of a doubly linked
-- class, which has the blocks `xs`.
pub record Cuttable (h : Machine) (b size asize index : ℕ) (xs : List ℕ) : Type 0 where
  pub low : h.heap ≤ b
  pub next_header : b + size + 8 ≤ h.mem_brk
  pub top : b + size < word_mod
  pub room : 16 ≤ asize
  pub rest : asize + 32 ≤ size
  pub aligned : asize % 16 ≡ 0
  pub size_aligned : size % 16 ≡ 0
  pub size_is : extract_size (word h.bytes b) ≡ size
  pub next_allocated : extract_alloc (word h.bytes (b + size)) ≡ true
  pub class : find_index (size - asize) ≡ index
  pub doubly : index ≢ 0
  pub nodes : All (Node h) xs
  pub separated : Separated xs
  pub clear : Clear b (b + size) xs

-- The memory after the two headers and the footer of the parts have been written.
pub record Cut (m : Bytes) (b size asize : ℕ) (g : Bytes) : Type 0 where
  pub size_set : extract_size (word g b) ≡ asize
  pub is_allocated : extract_alloc (word g b) ≡ true
  pub prev_kept : extract_prev_alloc (word g b) ≡ extract_prev_alloc (word m b)
  pub rest_size : extract_size (word g (b + asize)) ≡ size - asize
  pub rest_free : extract_alloc (word g (b + asize)) ≡ false
  pub rest_prev : extract_prev_alloc (word g (b + asize)) ≡ true
  pub rest_footer : word g (b + size - 8) ≡ word g (b + asize)
  pub outside :
      (a : ℕ)
      → (a + 8 ≤ b) ⊎ (b + size ≤ a) ⊎ ((b + 8 ≤ a) × (a + 8 ≤ b + asize))
      → word g a ≡ word m a

module _ (h : Machine) (b size asize index : ℕ) (xs : List ℕ)
    (s : Cuttable h b size asize index xs) where
  -- split_block up to the insertion of the rest, by the memories between its steps.
  split_block_steps :
      (f k g : Bytes)
      → extract_size (word f b) ≡ asize
      → write_block b asize true h ≡ done tt (with_bytes h f)
      → mark_prev_alloc (b + asize) (with_bytes h f) ≡ done tt (with_bytes h k)
      → write_block (b + asize) (size - asize) false (with_bytes h k) ≡ done tt (with_bytes h g)
      → split_block b asize h
        ≡ (do add_sized (b + asize); after ← find_next (b + asize); rewrite_block after)
            (with_bytes h g)
  unfolding split_block get_size find_next
  split_block_steps f k g e run run' run'' =
      let rest = s.rest in
      let at : InHeap 8 b h = (s.low, omega (arith, s.next_header, rest)) in
      let cut : sub64 size asize ≡ size - asize = omega (arith, s.top, rest) in
      let big : leb 16 (size - asize) ≡ true = ground arith in
      rw (load-done b h at, s.size_is, cut, big, run, load-with_bytes b h f at, e, run', run'') refl

  pub split_block-Cut :
      (g : Bytes) × (split_block b asize h
        ≡ (do add_sized (b + asize); after ← find_next (b + asize); rewrite_block after)
            (with_bytes h g))
      × Cut h.bytes b size asize g
  split_block-Cut =
      let room = s.room in
      let rest = s.rest in
      let at : InHeap 8 b h = (s.low, omega (arith, s.next_header, rest)) in
      let r = b + asize in
      let there : InHeap 8 r h = (omega (arith, s.low), omega (arith, s.next_header, rest)) in
      let (f, run, head) =
        write_allocated-Header h b at asize s.aligned (omega (arith, s.top, rest)) in
      let (k, run', mark) = mark_prev_alloc-Header (with_bytes h f) r there in
      let fits : Fits (with_bytes h k) r (size - asize) = record {
        low = omega (arith, s.low);
        header = omega (arith, s.next_header, rest);
        footer = omega (arith, s.next_header, rest);
        aligned = omega (arith, s.aligned, s.size_aligned, rest);
        small = omega (arith, s.top);
      } in
      let (g, run'', t) = write_block-Tagged (with_bytes h k) r (size - asize) false fits in
      let kept : word g b ≡ word f b =
        t.outside b (omega arith, omega arith) ∙ mark.outside b (omega arith) in
      let end : b + size - 8 ≡ r + (size - asize) - 8 = omega arith in
      (
        g,
        split_block_steps f k g head.size_set run run' run'',
        record {
          size_set = ap extract_size kept ∙ head.size_set;
          is_allocated = ap extract_alloc kept ∙ head.alloc_set;
          prev_kept = ap extract_prev_alloc kept ∙ head.prev_set;
          rest_size = t.size_set;
          rest_free = t.alloc_set;
          rest_prev = t.prev_kept ∙ mark.prev_set;
          rest_footer = ap (word g) end ∙ t.footer_set refl (omega arith);
          outside = λ a o.
              t.outside a (omega arith, omega arith)
              ∙ mark.outside a (omega arith)
              ∙ head.outside a (omega arith);
        },
      )
