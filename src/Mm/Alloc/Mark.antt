-- ===== src/Mm/Alloc/Mark.antt =====
-- The steps of malloc that write one header: a block is marked as allocated, and its successor is
-- told so.
use malloc_implementation.Base.{ℕ, ◌+◌, ◌%◌, ◌≤◌, ◌<◌, ◌≡◌, refl, ap, ◌∙◌, ◌⊎◌, Bool, true, arith}
use malloc_implementation.Base.Word.{word_mod}
use malloc_implementation.Memory.{Bytes}
use malloc_implementation.Memory.Words.{word, set_word, word-set_word, word-set_word_other, word-lt}
use malloc_implementation.Machine.{Machine, done, with_bytes, Cmd}
use malloc_implementation.Machine.Access.{InHeap, load-done, store-done}
use malloc_implementation.Mm.Header.{or_bit, extract_size, extract_alloc, extract_prev_alloc}
use malloc_implementation.Mm.Header.Pack.{or_bit_fields, extract_size-mod, extract_size-le}
use malloc_implementation.Mm.Blocks.{get_size, get_alloc, write_block}
use malloc_implementation.Mm.Blocks.Write.{written}
use malloc_implementation.Mm.Blocks.Tags.{written-Tagged}
use malloc_implementation.Mm.Coalesce.Alone.{written_allocated-kept}
use malloc_implementation.Mm.Coalesce.Next.{write_allocated-done}
use malloc_implementation.Mm.Alloc.{mark_prev_alloc, rewrite_block}

-- The memory `g` is `m` with the header at `b` of the fields given.
pub record Header (m : Bytes) (b size : ℕ) (alloc prev : Bool) (g : Bytes) : Type 0 where
  pub size_set : extract_size (word g b) ≡ size
  pub alloc_set : extract_alloc (word g b) ≡ alloc
  pub prev_set : extract_prev_alloc (word g b) ≡ prev
  pub outside : (a : ℕ) → (a + 8 ≤ b) ⊎ (b + 8 ≤ a) → word g a ≡ word m a

-- A command that writes one header.
abbrev pub Writes : Cmd (Unit {0}) → Machine → ℕ → ℕ → Bool → Bool → Type 0
Writes c h b size alloc prev =
    (g : Bytes) × (c h ≡ done tt (with_bytes h g)) × Header h.bytes b size alloc prev g

module _ (h : Machine) (b : ℕ) (at : InHeap 8 b h) where
  pub write_allocated-Header :
      (size : ℕ)
      → size % 16 ≡ 0
      → size < word_mod
      → Writes (write_block b size true) h b size true (extract_prev_alloc (word h.bytes b))
  write_allocated-Header size aligned small =
      let t = written-Tagged h.bytes b size aligned small true in
      (
        written h.bytes b size true,
        write_allocated-done h b size at,
        record {
          size_set = t.size_set;
          alloc_set = t.alloc_set;
          prev_set = t.prev_kept;
          outside = written_allocated-kept h.bytes b size;
        },
      )

  pub mark_prev_alloc-Header :
      Writes
        (mark_prev_alloc b)
        h
        b
        (extract_size (word h.bytes b))
        (extract_alloc (word h.bytes b))
        true
  unfolding mark_prev_alloc
  mark_prev_alloc-Header =
      let w = word h.bytes b in
      let f = or_bit_fields w (word-lt h.bytes b) in
      let put = word-set_word h.bytes b (or_bit w 1) f.4 in
      (
        set_word h.bytes b (or_bit w 1),
        rw (load-done b h at, store-done b (or_bit w 1) h at) refl,
        record {
          size_set = ap extract_size put ∙ f.0;
          alloc_set = ap extract_alloc put ∙ f.1;
          prev_set = ap extract_prev_alloc put ∙ f.2;
          outside = λ a o. word-set_word_other h.bytes b (or_bit w 1) a (omega arith);
        },
      )

  pub rewrite_block-Header :
      extract_alloc (word h.bytes b) ≡ true
      → Writes
          (rewrite_block b)
          h
          b
          (extract_size (word h.bytes b))
          true
          (extract_prev_alloc (word h.bytes b))
  unfolding rewrite_block get_size get_alloc
  rewrite_block-Header e =
      let w = word h.bytes b in
      let (g, run, head) =
        write_allocated-Header (extract_size w) (extract_size-mod w)
          (omega (arith, extract_size-le w, word-lt h.bytes b)) in
      (g, rw (load-done b h at, load-done b h at, e) run, head)
