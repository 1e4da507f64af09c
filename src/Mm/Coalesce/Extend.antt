-- ===== src/Mm/Coalesce/Extend.antt =====
-- extend_heap where mem_sbrk grants the extension and the last block is allocated.
use malloc_implementation.Base.{
  ℕ, ◌+◌, ◌-◌, ◌%◌, ◌≤◌, ◌<◌, ◌≡◌, refl, ap, ◌∙◌, ◌⊎◌, true, false, arith, ==-ne,
}
use malloc_implementation.Base.Word.{word_mod}
use malloc_implementation.Memory.{Bytes}
use malloc_implementation.Memory.Words.{word, set_word, word-set_word, word-set_word_other}
use malloc_implementation.MemLib.{sbrk_failed}
use malloc_implementation.MemLib.Break.{Granted, moved, mem_sbrk-Granted}
use malloc_implementation.Machine.{Machine, done, sbrk, with_bytes}
use malloc_implementation.Machine.Returns.{Returns, returns}
use malloc_implementation.Machine.Access.{InHeap, load-with_bytes, store-with_bytes}
use malloc_implementation.Mm.Header.{
  pack, dsize, round_up, extract_size, extract_alloc, extract_prev_alloc,
}
use malloc_implementation.Mm.Header.Pack.{pack_fields}
use malloc_implementation.Mm.Blocks.{payload_to_header, get_size, find_next, write_epilogue}
use malloc_implementation.Mm.Blocks.Write.{Fits}
use malloc_implementation.Mm.Blocks.Tags.{Tagged, write_block-Tagged}
use malloc_implementation.Mm.Coalesce.{extend_block, extend_heap}
use malloc_implementation.Mm.Coalesce.Alone.{Between, LeftAlone, coalesce_block-LeftAlone}

-- The epilogue stands at `e`, at the end of the heap, and says that the block before it is
-- allocated; mem_sbrk grants `size` bytes.
pub record Extendable (h : Machine) (e size : ℕ) : Type 0 where
  pub brk_is : h.mem_brk ≡ e + 8
  pub low : h.heap ≤ e
  pub prev_allocated : extract_prev_alloc (word h.bytes e) ≡ true
  pub granted : Granted h.region size
  pub aligned : size % 16 ≡ 0
  pub room : 32 ≤ size
  pub top : e + size + 8 < sbrk_failed

-- A free block of `size` bytes stands where the epilogue was, and the epilogue behind it.
pub record Extended (h : Machine) (e size : ℕ) (g : Machine) : Type 0 where
  pub size_set : extract_size (word g.bytes e) ≡ size
  pub is_free : extract_alloc (word g.bytes e) ≡ false
  pub prev_allocated : extract_prev_alloc (word g.bytes e) ≡ true
  pub footer_set : word g.bytes (e + size - 8) ≡ word g.bytes e
  pub end_size : extract_size (word g.bytes (e + size)) ≡ 0
  pub end_allocated : extract_alloc (word g.bytes (e + size)) ≡ true
  pub end_prev : extract_prev_alloc (word g.bytes (e + size)) ≡ false
  pub outside : (a : ℕ) → (a + 8 ≤ e) ⊎ (e + size + 8 ≤ a) → word g.bytes a ≡ word h.bytes a
  pub lists_same : g.seg_list ≡ h.seg_list
  pub start_same : g.heap_start ≡ h.heap_start
  pub heap_same : g.heap ≡ h.heap
  pub brk_moved : g.mem_brk ≡ h.mem_brk + size

payload_to_header-eq : (p e : ℕ) → p ≡ e + 8 → e < word_mod → payload_to_header p ≡ e
unfolding payload_to_header
payload_to_header-eq p e q lt = omega (arith, q)

pub sbrk-Granted :
    (h : Machine) (incr : ℕ)
    → Granted h.region incr
    → sbrk incr h ≡ done h.mem_brk (record h { region = moved h.region incr })
unfolding sbrk
sbrk-Granted h incr g = rw (mem_sbrk-Granted h.region incr g) refl

module _ (h : Machine) (e size : ℕ) (x : Extendable h e size) where
  -- The machine after mem_sbrk.
  abbrev longer : Machine
  longer = record h { region = moved h.region size }

  -- The header and the footer of the new block, and the new epilogue.
  Tagged-Between :
      (m : Bytes)
      → Tagged h.bytes e size false m
      → Between (with_bytes longer (set_word m (e + size) (pack 0 true false false))) e size 0
  Tagged-Between m t =
      let room = x.room in
      let w = pack 0 true false false in
      let fields = pack_fields 0 true false false refl (omega arith) in
      let here = word-set_word_other m (e + size) w e (omega arith) in
      let there = word-set_word m (e + size) w fields.4 in
      let g : Machine = with_bytes longer (set_word m (e + size) w) in
      let fits : Fits g e size = record {
        low = x.low;
        header = omega (arith, x.brk_is);
        footer = omega (arith, x.brk_is);
        aligned = x.aligned;
        small = omega (arith, x.top);
      } in
      let end_fits : Fits g (e + size) 0 = record {
        low = omega (arith, x.low);
        header = omega (arith, x.brk_is);
        footer = omega (arith, x.brk_is);
        aligned = refl;
        small = omega arith;
      } in
      record {
        fits = fits;
        room = omega arith;
        size_is = ap extract_size here ∙ t.size_set;
        prev_allocated = ap extract_prev_alloc here ∙ t.prev_kept ∙ x.prev_allocated;
        next_fits = end_fits;
        next_size_is = ap extract_size there ∙ fields.0;
        next_allocated = ap extract_alloc there ∙ fields.1;
      }

  LeftAlone-Extended :
      (m g : Bytes)
      → Tagged h.bytes e size false m
      → LeftAlone (set_word m (e + size) (pack 0 true false false)) e size 0 g
      → Extended h e size (with_bytes longer g)
  LeftAlone-Extended m g t p =
      let room = x.room in
      let w = pack 0 true false false in
      let fields = pack_fields 0 true false false refl (omega arith) in
      let here = word-set_word_other m (e + size) w e (omega arith) in
      let there = word-set_word m (e + size) w fields.4 in
      record {
        size_set = p.size_kept;
        is_free = p.is_free;
        prev_allocated = p.prev_kept ∙ ap extract_prev_alloc here ∙ t.prev_kept ∙ x.prev_allocated;
        footer_set = p.footer_set (omega arith);
        end_size = p.next_size_kept;
        end_allocated = p.next_stays;
        end_prev = p.next_prev_kept ∙ ap extract_prev_alloc there ∙ fields.2;
        outside = λ a o.
            p.outside a (omega (arith, o), omega (arith, o)) (omega (arith, o))
            ∙ word-set_word_other m (e + size) w a (omega (arith, o))
            ∙ t.outside a (omega (arith, o), omega (arith, o));
        lists_same = refl;
        start_same = refl;
        heap_same = refl;
        brk_moved = refl;
      }

  extend_block-Extended :
      (fuel : ℕ) → Returns (λ p g. (p ≡ e) × Extended h e size g) (extend_block fuel e size longer)
  unfolding extend_block find_next get_size write_epilogue
  extend_block-Extended fuel =
      let fits : Fits longer e size = record {
        low = x.low;
        header = omega (arith, x.brk_is);
        footer = omega (arith, x.brk_is);
        aligned = x.aligned;
        small = omega (arith, x.top);
      } in
      let (m, run, t) = write_block-Tagged longer e size false fits in
      let at : InHeap 8 e longer = (x.low, fits.header) in
      let far : InHeap 8 (e + size) longer = (omega (arith, x.low), omega (arith, x.brk_is)) in
      let w = pack 0 true false false in
      let (g, run', p) =
        coalesce_block-LeftAlone fuel (with_bytes longer (set_word m (e + size) w)) e size 0
          (Tagged-Between m t) in
      rw
        (
          run,
          load-with_bytes e longer m at,
          t.size_set,
          store-with_bytes (e + size) w longer m far,
          run',
        )
        (returns (refl, LeftAlone-Extended m g t p))

  -- Where the block before the epilogue is allocated and mem_sbrk grants the extension, extend_heap
  -- ends without fault and returns a free block of the size, rounded up, in the place of the old
  -- epilogue. A new epilogue ends the heap, which says that the block before it is free; the words
  -- before the block, the classes and the start of the heap are as before.
  pub extend_heap-Extended :
      (fuel request : ℕ)
      → round_up request dsize ≡ size
      → Returns (λ p g. (p ≡ e) × Extended h e size g) (extend_heap fuel request h)
  unfolding extend_heap
  extend_heap-Extended fuel request q =
      rw
        (
          q,
          sbrk-Granted h size x.granted,
          ==-ne h.mem_brk sbrk_failed (omega (arith, x.brk_is, x.top)),
          payload_to_header-eq h.mem_brk e x.brk_is (omega (arith, x.top)),
        )
        (extend_block-Extended fuel)
