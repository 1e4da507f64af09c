-- ===== src/Mm/Alloc/Exact.antt =====
-- malloc for a request that takes the whole of a free block.
use malloc_implementation.Base.{
  ℕ, ◌+◌, ◌-◌, ◌≤◌, ◌<◌, ◌≡◌, ◌≢◌, refl, ap, ◌∙◌, ◌⊎◌, true, arith, List, ◌∷◌, ◌++◌, ==-ne,
  All-append_right,
}
use malloc_implementation.Base.Word.{word_mod}
use malloc_implementation.Memory.{Bytes}
use malloc_implementation.Memory.Words.{word}
use malloc_implementation.Machine.{Machine, get_start, with_bytes}
use malloc_implementation.Machine.Returns.{Returns, returns, bind}
use malloc_implementation.Machine.Access.{load-done}
use malloc_implementation.Mm.Header.{
  num_segs, adjusted_size, find_index, extract_size, extract_alloc, extract_prev_alloc,
}
use malloc_implementation.Mm.Header.Sizes.{adjusted_size_bounds}
use malloc_implementation.Mm.Blocks.{null, get_size}
use malloc_implementation.Mm.Blocks.Write.{Fits}
use malloc_implementation.Mm.FreeList.Lists.{Node, Doubly, Doubly-frame, OutsideLinks, Relinked}
use malloc_implementation.Mm.FreeList.Remove.{remove_from_free-Doubly}
use malloc_implementation.Mm.Coalesce.{remove_sized}
use malloc_implementation.Mm.Coalesce.Next.{Clear-SameLinks}
use malloc_implementation.Mm.Fit.Scan.{Classes, best_of_classes, find_fit-done}
use malloc_implementation.Mm.Alloc.{malloc, allocate}
use malloc_implementation.Mm.Alloc.Place.{Placeable, Taken, place-Whole}
use malloc_implementation.Mm.Alloc.Listed.{Listed, header_same}

-- What malloc has made of the block for a request of `n` bytes, and of its class.
pub record Used (h : Machine) (n b size i : ℕ) (xs ys : List ℕ) (e : Machine) : Type 0 where
  pub enough : n + 8 ≤ extract_size (word e.bytes b)
  pub size_kept : extract_size (word e.bytes b) ≡ size
  pub is_allocated : extract_alloc (word e.bytes b) ≡ true
  pub prev_kept : extract_prev_alloc (word e.bytes b) ≡ extract_prev_alloc (word h.bytes b)
  pub next_size_kept :
      extract_size (word e.bytes (b + size)) ≡ extract_size (word h.bytes (b + size))
  pub next_stays : extract_alloc (word e.bytes (b + size)) ≡ true
  pub next_told : extract_prev_alloc (word e.bytes (b + size)) ≡ true
  pub list : Doubly e.bytes null (e.seg_list i) (xs ++ ys)
  pub others : (j : ℕ) → j ≢ i → e.seg_list j ≡ h.seg_list j
  pub outside :
      (a : ℕ)
      → OutsideLinks a (xs ++ b ∷ ys)
      → (a + 8 ≤ b) ⊎ (b + 8 ≤ a)
      → (a + 8 ≤ b + size) ⊎ (b + size + 8 ≤ a)
      → word e.bytes a ≡ word h.bytes a
  pub heap_same : e.heap ≡ h.heap
  pub brk_same : e.mem_brk ≡ h.mem_brk

module _ (h : Machine) (n b size i : ℕ) (xs ys : List ℕ) (big : 32 ≤ size)
    (l : Listed h b size i xs ys i (xs ++ ys)) (g : Machine)
    (r : Relinked h i (xs ++ b ∷ ys) g) where
  Removed-Placeable : Placeable h b size → Placeable g b size
  Removed-Placeable p =
      let head = header_same h g b size i xs ys i (xs ++ ys) l r in
      let fits : Fits g b size = record {
        low = omega (arith, r.heap_same, p.fits.low);
        header = omega (arith, r.brk_same, p.fits.header);
        footer = omega (arith, r.brk_same, p.fits.footer);
        aligned = p.fits.aligned;
        small = p.fits.small;
      } in
      record {
        fits = fits;
        room = p.room;
        size_is = ap extract_size (head b (omega arith) (omega arith)) ∙ p.size_is;
        next_header = omega (arith, r.brk_same, p.next_header);
        next_allocated =
            ap extract_alloc (head (b + size) (omega arith) (omega arith)) ∙ p.next_allocated;
      }

  Taken-Used :
      (m : Bytes)
      → n + 8 ≤ size
      → Doubly g.bytes null (g.seg_list i) (xs ++ ys)
      → Taken g.bytes b size m
      → Used h n b size i xs ys (with_bytes g m)
  Taken-Used m enough d t =
      let head = header_same h g b size i xs ys i (xs ++ ys) l r in
      record {
        enough = omega (arith, enough, t.size_set);
        size_kept = t.size_set;
        is_allocated = t.is_allocated;
        prev_kept = t.prev_kept ∙ ap extract_prev_alloc (head b (omega arith) (omega arith));
        next_size_kept =
            t.next_size_kept ∙ ap extract_size (head (b + size) (omega arith) (omega arith));
        next_stays = t.next_stays;
        next_told = t.next_told;
        list =
            Doubly-frame g.bytes m null (g.seg_list i) (xs ++ ys)
              (Clear-SameLinks g.bytes m b (b + size) (xs ++ ys)
                (λ a o. t.outside a (omega (arith, o)) (omega (arith, o))) l.clear)
              d;
        others = r.others;
        outside = λ a o o' o''. t.outside a o' o'' ∙ r.outside a o;
        heap_same = r.heap_same;
        brk_same = r.brk_same;
      }

-- In an initialised heap whose classes are lists of blocks, for a request that is not 0 and whose
-- adjusted size does not wrap: where the best fit is `b`, of a doubly linked class, with an allocated
-- block behind it, and less than 16 bytes are left over, malloc ends without fault and returns the
-- payload of `b`. The whole block is allocated then and has room for the request; it has left its
-- class, whose list is well linked, and its successor is told. No other class changes, and no other
-- word but links of that class.
pub malloc-Used :
    (h : Machine) (lists : ℕ → List ℕ) (fuel n b size i : ℕ) (xs ys : List ℕ)
    → h.heap_start ≢ null
    → n ≢ 0
    → n + 23 < word_mod
    → Classes h lists fuel
    → best_of_classes h.bytes
        (adjusted_size n)
        lists
        (num_segs - find_index (adjusted_size n))
        (find_index (adjusted_size n))
      ≡ b
    → Listed h b size i xs ys i (xs ++ ys)
    → Placeable h b size
    → 32 ≤ size
    → adjusted_size n ≤ size
    → size < adjusted_size n + 16
    → Returns (λ p e. (p ≡ b + 8) × Used h n b size i xs ys e) (malloc fuel n h)
unfolding malloc allocate get_start remove_sized get_size
malloc-Used h lists fuel n b size i xs ys started positive small classes best l p big fit short =
    let nb : Node h b = (All-append_right (Node h) xs (b ∷ ys) l.nodes).0 in
    let bounds = adjusted_size_bounds n small in
    rw
      (
        ==-ne h.heap_start null started,
        ==-ne n 0 positive,
        find_fit-done h lists fuel classes (adjusted_size n),
        best,
        ==-ne b 0 (omega (arith, nb.positive)),
        load-done b h (omega (arith, nb.low, nb.high)),
        p.size_is,
        l.class,
      )
      (bind (remove_from_free-Doubly h fuel i b xs ys l.doubly l.links l.nodes l.separated)
        (λ _ g q.
          let (m, run, taken) =
            place-Whole g b size (adjusted_size n)
              (Removed-Placeable h n b size i xs ys big l g q.1 p) fit short in
          rw run (
            returns (
              refl,
              Taken-Used h n b size i xs ys big l g q.1 m (omega (arith, fit, bounds.2)) q.0 taken,
            ))))
