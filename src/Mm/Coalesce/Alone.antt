-- ===== src/Mm/Coalesce/Alone.antt =====
-- coalesce_block between two allocated blocks.
use malloc_implementation.Base.{
  ℕ, ◌+◌, ◌-◌, ◌≤◌, ◌<◌, ◌≡◌, refl, ap, ◌∙◌, sym, ◌⊎◌, true, false, arith,
}
use malloc_implementation.Memory.{Bytes}
use malloc_implementation.Memory.Words.{word, word-set_word_other}
use malloc_implementation.Machine.{Machine, done, with_bytes}
use malloc_implementation.Machine.Access.{load-done, load-with_bytes}
use malloc_implementation.Mm.Header.{extract_size, extract_alloc, extract_prev_alloc}
use malloc_implementation.Mm.Blocks.{get_size, get_alloc, get_prev_alloc, find_next}
use malloc_implementation.Mm.Blocks.Write.{Fits, new_header, written, write_block-done}
use malloc_implementation.Mm.Blocks.Tags.{OutsideTags, Tagged, write_block-Tagged, written-Tagged}
use malloc_implementation.Mm.Coalesce.{coalesce_block, coalesce_none}

-- The block `b` has an allocated block before it and an allocated block or the epilogue behind it.
pub record Between (h : Machine) (b size next_size : ℕ) : Type 0 where
  pub fits : Fits h b size
  pub room : 16 ≤ size
  pub size_is : extract_size (word h.bytes b) ≡ size
  pub prev_allocated : extract_prev_alloc (word h.bytes b) ≡ true
  pub next_fits : Fits h (b + size) next_size
  pub next_size_is : extract_size (word h.bytes (b + size)) ≡ next_size
  pub next_allocated : extract_alloc (word h.bytes (b + size)) ≡ true

-- The memory `g` is `m` with the block free, and the tags of its successor written again.
pub record LeftAlone (m : Bytes) (b size next_size : ℕ) (g : Bytes) : Type 0 where
  pub size_kept : extract_size (word g b) ≡ size
  pub is_free : extract_alloc (word g b) ≡ false
  pub prev_kept : extract_prev_alloc (word g b) ≡ extract_prev_alloc (word m b)
  pub footer_set : 16 < size → word g (b + size - 8) ≡ word g b
  pub next_size_kept : extract_size (word g (b + size)) ≡ next_size
  pub next_stays : extract_alloc (word g (b + size)) ≡ true
  pub next_prev_kept :
      extract_prev_alloc (word g (b + size)) ≡ extract_prev_alloc (word m (b + size))
  pub outside :
      (a : ℕ) → OutsideTags b size a → (a + 8 ≤ b + size) ⊎ (b + size + 8 ≤ a) → word g a ≡ word m a

LeftAlone-of :
    (m f g : Bytes) (b size next_size : ℕ)
    → 16 ≤ size
    → Tagged m b size false f
    → Tagged f (b + size) next_size true g
    → ((a : ℕ) → (a + 8 ≤ b + size) ⊎ (b + size + 8 ≤ a) → word g a ≡ word f a)
    → LeftAlone m b size next_size g
LeftAlone-of m f g b size next_size room s t kept =
    let head : word g b ≡ word f b = kept b (omega arith) in
    let next : word f (b + size) ≡ word m (b + size) =
      s.outside (b + size) (omega arith, omega arith) in
    record {
      size_kept = ap extract_size head ∙ s.size_set;
      is_free = ap extract_alloc head ∙ s.alloc_set;
      prev_kept = ap extract_prev_alloc head ∙ s.prev_kept;
      footer_set = λ big. kept (b + size - 8) (omega arith) ∙ s.footer_set refl big ∙ sym head;
      next_size_kept = t.size_set;
      next_stays = t.alloc_set;
      next_prev_kept = t.prev_kept ∙ ap extract_prev_alloc next;
      outside = λ a o other. kept a other ∙ s.outside a o;
    }

pub written_allocated-kept :
    (m : Bytes) (b size a : ℕ)
    → (a + 8 ≤ b) ⊎ (b + 8 ≤ a)
    → word (written m b size true) a ≡ word m a
unfolding written
written_allocated-kept m b size a o =
    word-set_word_other m b (new_header (word m b) size true) a (omega (arith, o))

-- Between two allocated blocks, coalesce_block ends without fault and returns the block itself. The
-- block is free then, with its size and a footer; its successor keeps its size, its allocation and
-- its bit about the previous block, which is not cleared; no other word and no variable changes.
pub coalesce_block-LeftAlone :
    (fuel : ℕ) (h : Machine) (b size next_size : ℕ)
    → Between h b size next_size
    → (g : Bytes) × (coalesce_block fuel b h ≡ done b (with_bytes h g))
      × LeftAlone h.bytes b size next_size g
unfolding coalesce_block coalesce_none find_next get_size get_alloc get_prev_alloc
coalesce_block-LeftAlone fuel h b size next_size n =
    let (f, run, s) = write_block-Tagged h b size false n.fits in
    let next_fits : Fits (with_bytes h f) (b + size) next_size = record {
      low = n.next_fits.low;
      header = n.next_fits.header;
      footer = n.next_fits.footer;
      aligned = n.next_fits.aligned;
      small = n.next_fits.small;
    } in
    let next : word f (b + size) ≡ word h.bytes (b + size) =
      s.outside (b + size) (omega (arith, n.room), omega arith) in
    let low : h.heap ≤ b = n.fits.low in
    let low' : h.heap ≤ b + size = n.next_fits.low in
    let top : b + 8 ≤ h.mem_brk = n.fits.header in
    let top' : b + size + 8 ≤ h.mem_brk = n.next_fits.header in
    (
      written f (b + size) next_size true,
      rw
          (
            load-done b h (omega arith),
            n.size_is,
            load-done b h (omega arith),
            n.prev_allocated,
            load-done (b + size) h (omega arith),
            n.next_allocated,
            load-done b h (omega arith),
            n.size_is,
            run,
            load-with_bytes (b + size) h f (omega arith),
            next,
            n.next_size_is,
            write_block-done (with_bytes h f) (b + size) next_size true next_fits,
          )
          refl,
      LeftAlone-of h.bytes f (written f (b + size) next_size true) b size next_size n.room s
          (written-Tagged f (b + size) next_size next_fits.aligned next_fits.small true)
          (written_allocated-kept f (b + size) next_size),
    )
