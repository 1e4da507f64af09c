-- ===== src/Mm/Alloc/Placed.antt =====
-- place on a block that is larger than the request.
use malloc_implementation.Base.{ℕ, ◌+◌, ◌≡◌, refl, ◌∙◌, true, arith, List}
use malloc_implementation.Memory.{Bytes}
use malloc_implementation.Memory.Words.{word}
use malloc_implementation.Machine.{Machine, with_bytes}
use malloc_implementation.Machine.Returns.{Returns, returns, bind}
use malloc_implementation.Mm.Header.{extract_prev_alloc}
use malloc_implementation.Mm.Blocks.{null, header_to_payload}
use malloc_implementation.Mm.Blocks.Write.{Fits}
use malloc_implementation.Mm.FreeList.Lists.{Doubly, Doubly-frame}
use malloc_implementation.Mm.Coalesce.Next.{Clear-SameLinks}
use malloc_implementation.Mm.Alloc.{place}
use malloc_implementation.Mm.Alloc.Place.{Placeable, Taken, place-Taken}
use malloc_implementation.Mm.Alloc.Cut.{Cuttable}
use malloc_implementation.Mm.Alloc.Split.{Split, Node-with_bytes, split_block-Split}

module _ (h : Machine) (b size asize index : ℕ) (xs : List ℕ)
    (s : Cuttable h b size asize index xs) where
  Cuttable-Placeable : Placeable h b size
  Cuttable-Placeable =
      let rest = s.rest in
      let fits : Fits h b size = record {
        low = s.low;
        header = omega (arith, s.next_header);
        footer = omega (arith, s.next_header);
        aligned = s.size_aligned;
        small = omega (arith, s.top);
      } in
      record {
        fits = fits;
        room = omega arith;
        size_is = s.size_is;
        next_header = s.next_header;
        next_allocated = s.next_allocated;
      }

  Taken-Cuttable :
      (g : Bytes) → Taken h.bytes b size g → Cuttable (with_bytes h g) b size asize index xs
  Taken-Cuttable g t = record {
    low = s.low;
    next_header = s.next_header;
    top = s.top;
    room = s.room;
    rest = s.rest;
    aligned = s.aligned;
    size_aligned = s.size_aligned;
    size_is = t.size_set;
    next_allocated = t.next_stays;
    class = s.class;
    doubly = s.doubly;
    nodes = Node-with_bytes h g xs s.nodes;
    separated = s.separated;
    clear = s.clear;
  }

  -- The changes of malloc before split_block and those of split_block, in one.
  Taken-Split :
      (g : Bytes) (e : Machine)
      → Taken h.bytes b size g
      → Split (with_bytes h g) b size asize index xs (extract_prev_alloc (word g (b + size))) e
      → Split h b size asize index xs true e
  Taken-Split g e t p = record {
    size_set = p.size_set;
    is_allocated = p.is_allocated;
    prev_kept = p.prev_kept ∙ t.prev_kept;
    rest_size = p.rest_size;
    rest_free = p.rest_free;
    rest_prev = p.rest_prev;
    rest_footer = p.rest_footer;
    next_size_kept = p.next_size_kept ∙ t.next_size_kept;
    next_stays = p.next_stays;
    next_prev = p.next_prev ∙ t.next_told;
    list = p.list;
    others = p.others;
    outside = λ a o far.
        let rest = s.rest in
        p.outside a o far ∙ t.outside a (omega (arith, far)) (omega (arith, far));
    heap_same = p.heap_same;
    brk_same = p.brk_same;
  }

  -- Where 32 bytes or more would be left over, the end of malloc returns the payload of the block,
  -- which is allocated then with the size asked for. The rest is free with a footer and stands in
  -- front of its class, whose list is well linked. The successor is told that an allocated block is
  -- before it, which the free rest is not. No other word changes but links of that class, and
  -- no other class.
  pub place-Split :
      Doubly h.bytes null (h.seg_list index) xs
      → Returns (λ p g. (p ≡ b + 8) × Split h b size asize index xs true g) (place b asize h)
  unfolding header_to_payload
  place-Split linked =
      let (g, run, taken) = place-Taken h b size asize Cuttable-Placeable in
      let links : Doubly g null (h.seg_list index) xs =
        Doubly-frame h.bytes g null (h.seg_list index) xs
          (Clear-SameLinks h.bytes g b (b + size) xs
            (λ a o. taken.outside a (omega (arith, o)) (omega (arith, o))) s.clear)
          linked in
      rw run (
        bind
          (split_block-Split (with_bytes h g) b size asize index xs (Taken-Cuttable g taken) links)
          (λ _ e p. returns (refl, Taken-Split g e taken p)))
