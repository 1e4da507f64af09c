-- ===== src/Mm/Alloc/Place.antt =====
-- place: the chosen block is marked as allocated.
use malloc_implementation.Base.{ℕ, ◌+◌, ◌≤◌, ◌<◌, ◌≡◌, refl, ap, ◌∙◌, ◌⊎◌, true, false, arith, leb}
use malloc_implementation.Base.Word.{sub64}
use malloc_implementation.Memory.{Bytes}
use malloc_implementation.Memory.Words.{word}
use malloc_implementation.Machine.{Machine, done, with_bytes, pure, continue}
use malloc_implementation.Machine.Access.{InHeap, load-done, load-with_bytes}
use malloc_implementation.Mm.Header.{extract_size, extract_alloc, extract_prev_alloc}
use malloc_implementation.Mm.Blocks.{get_size, find_next, header_to_payload}
use malloc_implementation.Mm.Blocks.Write.{Fits}
use malloc_implementation.Mm.Alloc.{place, split_block}
use malloc_implementation.Mm.Alloc.Mark.{
  write_allocated-Header, mark_prev_alloc-Header, rewrite_block-Header,
}

-- A block of `size` bytes in the heap, with an allocated block or the epilogue behind it.
pub record Placeable (h : Machine) (b size : ℕ) : Type 0 where
  pub fits : Fits h b size
  pub room : 16 ≤ size
  pub size_is : extract_size (word h.bytes b) ≡ size
  pub next_header : b + size + 8 ≤ h.mem_brk
  pub next_allocated : extract_alloc (word h.bytes (b + size)) ≡ true

-- The memory `g` is `m` with the block allocated, which its successor is told.
pub record Taken (m : Bytes) (b size : ℕ) (g : Bytes) : Type 0 where
  pub size_set : extract_size (word g b) ≡ size
  pub is_allocated : extract_alloc (word g b) ≡ true
  pub prev_kept : extract_prev_alloc (word g b) ≡ extract_prev_alloc (word m b)
  pub next_size_kept : extract_size (word g (b + size)) ≡ extract_size (word m (b + size))
  pub next_stays : extract_alloc (word g (b + size)) ≡ true
  pub next_told : extract_prev_alloc (word g (b + size)) ≡ true
  pub outside :
      (a : ℕ)
      → (a + 8 ≤ b) ⊎ (b + 8 ≤ a)
      → (a + 8 ≤ b + size) ⊎ (b + size + 8 ≤ a)
      → word g a ≡ word m a

-- The part of malloc before split_block.
pub place-Taken :
    (h : Machine) (b size asize : ℕ)
    → Placeable h b size
    → (g : Bytes) × (place b asize h
        ≡ continue (split_block b asize (with_bytes h g)) (λ _. pure (header_to_payload b)))
      × Taken h.bytes b size g
unfolding place get_size find_next
place-Taken h b size asize p =
    let at : InHeap 8 b h = (p.fits.low, p.fits.header) in
    let next = b + size in
    let far : InHeap 8 next h = (omega (arith, p.fits.low), p.next_header) in
    let (f, run, head) = write_allocated-Header h b at size p.fits.aligned p.fits.small in
    let behind : word f next ≡ word h.bytes next = head.outside next (omega (arith, p.room)) in
    let (k, run', mark) = mark_prev_alloc-Header (with_bytes h f) next far in
    let stays : extract_alloc (word k next) ≡ true =
      mark.alloc_set ∙ ap extract_alloc behind ∙ p.next_allocated in
    let (g, run'', again) = rewrite_block-Header (with_bytes h k) next far stays in
    let kept : word g b ≡ word f b =
      again.outside b (omega (arith, p.room)) ∙ mark.outside b (omega (arith, p.room)) in
    (
      g,
      rw (load-done b h at, p.size_is, run, load-with_bytes b h f at, head.size_set, run', run'')
          refl,
      record {
        size_set = ap extract_size kept ∙ head.size_set;
        is_allocated = ap extract_alloc kept ∙ head.alloc_set;
        prev_kept = ap extract_prev_alloc kept ∙ head.prev_set;
        next_size_kept = again.size_set ∙ mark.size_set ∙ ap extract_size behind;
        next_stays = again.alloc_set;
        next_told = again.prev_set ∙ mark.prev_set;
        outside = λ a o n. again.outside a n ∙ mark.outside a n ∙ head.outside a o;
      },
    )

-- Where less than 16 bytes would be left over, malloc marks the whole block as allocated, tells its
-- successor, changes no other word and no variable, and returns the payload.
pub place-Whole :
    (h : Machine) (b size asize : ℕ)
    → Placeable h b size
    → asize ≤ size
    → size < asize + 16
    → (g : Bytes) × (place b asize h ≡ done (b + 8) (with_bytes h g)) × Taken h.bytes b size g
unfolding split_block get_size header_to_payload
place-Whole h b size asize p le short =
    let (g, run, taken) = place-Taken h b size asize p in
    let at : InHeap 8 b h = (p.fits.low, p.fits.header) in
    let small : leb 16 (sub64 size asize) ≡ false = ground (arith, p.fits.small) in
    (g, rw (run, load-with_bytes b h g at, taken.size_set, small) refl, taken)
