-- ===== src/Mm/Alloc/Init.antt =====
-- mm_init at a granted heap.
use malloc_implementation.Base.{
  ℕ, zero, suc, ◌+◌, ◌-◌, ◌≤◌, ◌<◌, ◌≡◌, ◌≢◌, refl, sym, ap, ◌∙◌, ◌⊎◌, Bool, true, false, arith, [],
  ◌∷◌, ==-ne, update, ◌==◌, if◌then◌else◌, update_self, update_other,
}
use native.Mathlib.Decide.{dec_lt}
use malloc_implementation.Memory.{Bytes}
use malloc_implementation.Memory.Words.{word, set_word, word-set_word, word-set_word_other}
use malloc_implementation.MemLib.{sbrk_failed}
use malloc_implementation.MemLib.Break.{Granted, moved}
use malloc_implementation.Machine.{
  Machine, Cmd, done, pure, continue, ◌>>=◌, ◌>>◌, sbrk, with_bytes, set_start, set_seg,
}
use malloc_implementation.Machine.Returns.{Returns, returns, bind}
use malloc_implementation.Machine.Access.{InHeap, load-done, store-done}
use malloc_implementation.Mm.Header.{
  pack, num_segs, chunksize, dsize, round_up, find_index, extract_size, extract_alloc,
  extract_prev_alloc,
}
use malloc_implementation.Mm.Header.Pack.{pack_fields}
use malloc_implementation.Mm.Blocks.{null, get_size, find_next}
use malloc_implementation.Mm.FreeList.Lists.{Node, Doubly, Doubly-frame, Relinked}
use malloc_implementation.Mm.FreeList.Insert.{add_to_free-Doubly}
use malloc_implementation.Mm.Coalesce.{extend_heap}
use malloc_implementation.Mm.Coalesce.Extend.{
  Extendable, Extended, sbrk-Granted, extend_heap-Extended,
}
use malloc_implementation.Mm.Alloc.{mm_init, clear_segs, add_sized, rewrite_block}
use malloc_implementation.Mm.Alloc.Mark.{rewrite_block-Header}

-- The class of a block of chunksize bytes.
abbrev pub chunk_class : ℕ
chunk_class = 8

-- The break stands at `s`, and mem_sbrk grants the two words and the first chunk.
pub record Startable (h : Machine) (s : ℕ) : Type 0 where
  pub brk_is : h.mem_brk ≡ s
  pub low : h.heap ≤ s
  pub granted : Granted h.region 16
  pub granted_chunk : Granted (moved h.region 16) chunksize
  pub top : s + 16 + chunksize < sbrk_failed

-- The heap is one free block of chunksize bytes between the prologue and the epilogue, the only
-- one of the classes.
pub record Ready (h : Machine) (s : ℕ) (g : Machine) : Type 0 where
  pub start_is : g.heap_start ≡ s + 8
  pub prologue_size : extract_size (word g.bytes s) ≡ 0
  pub prologue_allocated : extract_alloc (word g.bytes s) ≡ true
  pub size_set : extract_size (word g.bytes (s + 8)) ≡ chunksize
  pub is_free : extract_alloc (word g.bytes (s + 8)) ≡ false
  pub prev_allocated : extract_prev_alloc (word g.bytes (s + 8)) ≡ true
  pub footer_set : word g.bytes (s + chunksize) ≡ word g.bytes (s + 8)
  pub end_size : extract_size (word g.bytes (s + 8 + chunksize)) ≡ 0
  pub end_allocated : extract_alloc (word g.bytes (s + 8 + chunksize)) ≡ true
  pub end_prev : extract_prev_alloc (word g.bytes (s + 8 + chunksize)) ≡ false
  pub list : Doubly g.bytes null (g.seg_list chunk_class) ((s + 8) ∷ [])
  pub others : (j : ℕ) → j < num_segs → j ≢ chunk_class → g.seg_list j ≡ null
  pub outside : (a : ℕ) → a + 8 ≤ s → word g.bytes a ≡ word h.bytes a
  pub heap_same : g.heap ≡ h.heap
  pub brk_is : g.mem_brk ≡ s + 16 + chunksize

pub chunk_class_is : find_index chunksize ≡ chunk_class
unfolding find_index
chunk_class_is = refl

chunk_rounded : round_up chunksize dsize ≡ chunksize
unfolding round_up
chunk_rounded = refl

-- The heads of the classes after the loop from class `i`.
abbrev cleared : ℕ → ℕ → (ℕ → ℕ) → ℕ → ℕ
cleared zero i f = f
cleared (suc rounds) i f = cleared rounds (i + 1) (update f i null)

clear_segs-done :
    (rounds i : ℕ) (h : Machine)
    → clear_segs rounds i h ≡ done tt (record h { seg_list = cleared rounds i h.seg_list })
unfolding clear_segs set_seg
clear_segs-done zero i h = refl
clear_segs-done (suc rounds) i h =
    clear_segs-done rounds (i + 1) (record h { seg_list = update h.seg_list i null })

cleared_below : (rounds i j : ℕ) (f : ℕ → ℕ) → j < i → cleared rounds i f j ≡ f j
cleared_below zero i j f lt = refl
cleared_below (suc rounds) i j f lt =
    cleared_below rounds (i + 1) j (update f i null) (omega arith)
    ∙ update_other f i j null (omega arith)

cleared-null : (rounds i j : ℕ) (f : ℕ → ℕ) → i ≤ j → j < rounds + i → cleared rounds i f j ≡ null
cleared-null zero i j f le lt = absurd (omega arith)
cleared-null (suc rounds) i j f le lt = elim (dec_lt i j) [
  | yes l ↦ cleared-null rounds (i + 1) j (update f i null) (omega arith) (omega arith)
  | no l ↦
      let e : j ≡ i = omega arith in
      rw e (cleared_below rounds (i + 1) i (update f i null) (omega arith) ∙ update_self f i null)
]

module _ (h : Machine) (s : ℕ) (x : Startable h s) where
  -- The memory with the prologue and the first epilogue.
  abbrev opened_bytes : Bytes
  opened_bytes =
      set_word (set_word h.bytes s (pack 0 true false false)) (s + 8) (pack 0 true true false)

  -- The machine at the call of extend_heap.
  abbrev opened : Machine
  opened = record h {
    region = record (moved h.region 16) { bytes = opened_bytes };
    heap_start = s + 8;
    seg_list = cleared num_segs 0 h.seg_list;
  }

  opened-Extendable : Extendable opened (s + 8) chunksize
  opened-Extendable =
      let m = set_word h.bytes s (pack 0 true false false) in
      let w = pack 0 true true false in
      let fields = pack_fields 0 true true false refl (omega arith) in
      record {
        brk_is = omega (arith, x.brk_is);
        low = omega (arith, x.low);
        prev_allocated = ap extract_prev_alloc (word-set_word m (s + 8) w fields.4) ∙ fields.2;
        granted = record {
          nonnegative = x.granted_chunk.nonnegative;
          fits = x.granted_chunk.fits;
          os = x.granted_chunk.os;
        };
        aligned = refl;
        room = omega arith;
        top = omega (arith, x.top);
      }

  -- The end of mm_init, from the machine in which the chunk is in its class.
  Listed-Ready :
      (g k : Machine)
      → Extended opened (s + 8) chunksize g
      → Doubly k.bytes null (k.seg_list chunk_class) ((s + 8) ∷ [])
      → Relinked g chunk_class ((s + 8) ∷ []) k
      → (m : Bytes)
      → ((a : ℕ)
          → (a + 8 ≤ s + 8 + chunksize) ⊎ (s + 16 + chunksize ≤ a)
          → word m a ≡ word k.bytes a)
      → extract_size (word m (s + 8 + chunksize)) ≡ extract_size (word k.bytes (s + 8 + chunksize))
      → extract_alloc (word m (s + 8 + chunksize)) ≡ true
      → extract_prev_alloc (word m (s + 8 + chunksize))
        ≡ extract_prev_alloc (word k.bytes (s + 8 + chunksize))
      → Ready h s (with_bytes k m)
  Listed-Ready g k p d r m kept end_size end_allocated end_prev =
      let e = s + 8 in
      let end = s + 8 + chunksize in
      let at_e : word m e ≡ word g.bytes e = kept e (omega arith) ∙ r.outside e (omega arith, tt) in
      let at_foot : word m (s + chunksize) ≡ word g.bytes (s + chunksize) =
        kept (s + chunksize) (omega arith) ∙ r.outside (s + chunksize) (omega arith, tt) in
      let at_end : word k.bytes end ≡ word g.bytes end = r.outside end (omega arith, tt) in
      let foot : s + 8 + chunksize - 8 ≡ s + chunksize = omega arith in
      let w = pack 0 true false false in
      let fields = pack_fields 0 true false false refl (omega arith) in
      let at_start : word m s ≡ w =
        kept s (omega arith)
        ∙ r.outside s (omega arith, tt)
        ∙ p.outside s (omega arith)
        ∙ word-set_word_other (set_word h.bytes s w) (s + 8) (pack 0 true true false) s
            (omega arith)
        ∙ word-set_word h.bytes s w fields.4 in
      record {
        start_is = r.start_same ∙ p.start_same;
        prologue_size = ap extract_size at_start ∙ fields.0;
        prologue_allocated = ap extract_alloc at_start ∙ fields.1;
        size_set = ap extract_size at_e ∙ p.size_set;
        is_free = ap extract_alloc at_e ∙ p.is_free;
        prev_allocated = ap extract_prev_alloc at_e ∙ p.prev_allocated;
        footer_set = at_foot ∙ ap (word g.bytes) (sym foot) ∙ p.footer_set ∙ sym at_e;
        end_size = end_size ∙ ap extract_size at_end ∙ p.end_size;
        end_allocated = end_allocated;
        end_prev = end_prev ∙ ap extract_prev_alloc at_end ∙ p.end_prev;
        list =
            Doubly-frame k.bytes m null (k.seg_list chunk_class) (e ∷ [])
              ((kept (e + 8) (omega arith), kept (e + 16) (omega arith)), tt) d;
        others = λ j lt ne.
            r.others j ne
            ∙ ap (λ (f : ℕ → ℕ). f j) p.lists_same
            ∙ cleared-null num_segs 0 j h.seg_list (omega arith) (omega arith);
        outside = λ a le.
            kept a (omega arith)
            ∙ r.outside a (omega arith, tt)
            ∙ p.outside a (omega arith)
            ∙ word-set_word_other (set_word h.bytes s (pack 0 true false false)) (s + 8)
                (pack 0 true true false) a (omega arith)
            ∙ word-set_word_other h.bytes s (pack 0 true false false) a (omega arith);
        heap_same = r.heap_same ∙ p.heap_same;
        brk_is = omega (arith, r.brk_same, p.brk_moved, x.brk_is);
      }

  -- What mm_init does with the block of extend_heap.
  abbrev list_chunk : ℕ → Cmd Bool
  list_chunk block =
      if block == null
      then pure false
      else (do add_sized block; next ← find_next block; rewrite_block next; pure true)

  mm_init-opened :
      (fuel : ℕ) → mm_init fuel h ≡ continue (extend_heap fuel chunksize opened) list_chunk
  unfolding mm_init set_start
  mm_init-opened fuel =
      let g : Machine = record h { region = moved h.region 16 } in
      let run : sbrk 16 h ≡ done s g = sbrk-Granted h 16 x.granted ∙ ap (λ v. done v g) x.brk_is in
      let m = set_word h.bytes s (pack 0 true false false) in
      let at : InHeap 8 s g = (x.low, omega (arith, x.brk_is)) in
      let behind : InHeap 8 (s + 8) (with_bytes g m) =
        (omega (arith, x.low), omega (arith, x.brk_is)) in
      rw
        (
          run,
          ==-ne s sbrk_failed (omega (arith, x.top)),
          store-done s (pack 0 true false false) g at,
          store-done (s + 8) (pack 0 true true false) (with_bytes g m) behind,
          clear_segs-done num_segs 0 (record g {
            region = record (g.region) { bytes = opened_bytes };
            heap_start = s + 8;
          }),
        )
        refl

  -- The last header, from the machine in which the chunk is in its class.
  rewrite_block-Ready :
      (g k : Machine)
      → Extended opened (s + 8) chunksize g
      → g.heap ≤ s
      → g.mem_brk ≡ s + 16 + chunksize
      → Doubly k.bytes null (k.seg_list chunk_class) ((s + 8) ∷ [])
      → Relinked g chunk_class ((s + 8) ∷ []) k
      → Returns
          (λ ok f. (ok ≡ true) × Ready h s f)
          ((do next ← find_next (s + 8); rewrite_block next; pure true) k)
  unfolding find_next get_size
  rewrite_block-Ready g k p low brk d r =
      let e = s + 8 in
      let end = s + 8 + chunksize in
      let at : InHeap 8 e k = (omega (arith, low, r.heap_same), omega (arith, brk, r.brk_same)) in
      let far : InHeap 8 end k =
        (omega (arith, low, r.heap_same), omega (arith, brk, r.brk_same)) in
      let at_end : word k.bytes end ≡ word g.bytes end = r.outside end (omega arith, tt) in
      let size : extract_size (word k.bytes e) ≡ chunksize =
        ap extract_size (r.outside e (omega arith, tt)) ∙ p.size_set in
      let (m, run, head) =
        rewrite_block-Header k end far (ap extract_alloc at_end ∙ p.end_allocated) in
      rw (load-done e k at, size, run)
        (returns (
          refl,
          Listed-Ready g k p d r m (λ a o. head.outside a (omega (arith, o))) head.size_set
              head.alloc_set head.prev_set,
        ))

  list_chunk-Ready :
      (g : Machine)
      → Extended opened (s + 8) chunksize g
      → Returns (λ ok k. (ok ≡ true) × Ready h s k) (list_chunk (s + 8) g)
  unfolding add_sized get_size find_next
  list_chunk-Ready g p =
      let e = s + 8 in
      let low : g.heap ≤ s = omega (arith, p.heap_same, x.low) in
      let brk : g.mem_brk ≡ s + 16 + chunksize = omega (arith, p.brk_moved, x.brk_is) in
      let node : Node g e = record {
        positive = omega arith;
        low = omega (arith, low);
        high = omega (arith, brk);
        small = omega (arith, x.top);
      } in
      let at : InHeap 8 e g = (node.low, omega (arith, brk)) in
      let empty : g.seg_list chunk_class ≡ null =
        ap (λ (f : ℕ → ℕ). f chunk_class) p.lists_same
        ∙ cleared-null num_segs 0 chunk_class h.seg_list (omega arith) (omega arith) in
      rw (==-ne e null (omega arith), load-done e g at, p.size_set, chunk_class_is)
        (bind (add_to_free-Doubly g e chunk_class [] (omega arith) node tt empty (tt, tt))
          (λ _ k q. rewrite_block-Ready g k p low brk q.0 q.1))

  -- Where mem_sbrk grants the two words and the first chunk, mm_init ends without fault and returns
  -- true. The word at the old break is the prologue, of size 0 and allocated. The heap starts at the
  -- header behind it, and is one free block of 4096 bytes with
  -- a footer, which is the only block of its class; the other classes are empty. The epilogue behind
  -- it is allocated, and its bit says that the block before it is free. The words below the old
  -- break are as before.
  pub mm_init-Ready : (fuel : ℕ) → Returns (λ ok g. (ok ≡ true) × Ready h s g) (mm_init fuel h)
  mm_init-Ready fuel = rw (mm_init-opened fuel) (
      bind
        (extend_heap-Extended opened (s + 8) chunksize opened-Extendable fuel chunksize
          chunk_rounded)
        (λ p g q. rw q.0 (list_chunk-Ready g q.1)))
