-- ===== src/Mm/Blocks/Tags.antt =====
-- Boundary tags of mm.c: write_block against the functions that read its tags.
use malloc_implementation.Base.{
  ℕ, ◌+◌, ◌-◌, ◌%◌, ◌≤◌, ◌<◌, ◌≡◌, refl, sym, ap, ◌∙◌, ◌⊎◌, inl, inr, Bool, true, false, arith,
  Bool-cases, ltb, ==-ne,
}
use malloc_implementation.Base.Word.{word_mod, sub64}
use malloc_implementation.Memory.{Bytes}
use malloc_implementation.Memory.Words.{word, set_word, word-set_word, word-set_word_other}
use malloc_implementation.Machine.{Machine, done, ◌>>=◌, ◌>>◌, with_bytes}
use malloc_implementation.Machine.Returns.{Returns, returns}
use malloc_implementation.Machine.Access.{load-with_bytes}
use malloc_implementation.Mm.Header.{
  extract_size, extract_alloc, extract_prev_alloc, extract_prev_mini_block, min_block_size,
}
use malloc_implementation.Mm.Header.Pack.{pack_fields}
use malloc_implementation.Mm.Blocks.{
  get_size, find_next, find_prev, find_prev_footer, footer_to_header, write_block,
}
use malloc_implementation.Mm.Blocks.Write.{new_header, written, Fits, write_block-done}

-- The word at `a` is neither the header nor the footer of the block.
abbrev pub OutsideTags : ℕ → ℕ → ℕ → Type 0
OutsideTags b size a = ((a + 8 ≤ b) ⊎ (b + 8 ≤ a)) × ((a + 8 ≤ b + size - 8) ⊎ (b + size ≤ a))

-- A memory in which the block has been written.
pub record Tagged (m : Bytes) (b size : ℕ) (alloc : Bool) (g : Bytes) : Type 0 where
  pub size_set : extract_size (word g b) ≡ size
  pub alloc_set : extract_alloc (word g b) ≡ alloc
  pub prev_kept : extract_prev_alloc (word g b) ≡ extract_prev_alloc (word m b)
  pub mini_kept : extract_prev_mini_block (word g b) ≡ extract_prev_mini_block (word m b)
  pub footer_set : alloc ≡ false → 16 < size → word g (b + size - 8) ≡ word g b
  pub outside : (a : ℕ) → OutsideTags b size a → word g a ≡ word m a
  pub header_only :
      (alloc ≡ true) ⊎ (size ≤ 16) → (a : ℕ) → (a + 8 ≤ b) ⊎ (b + 8 ≤ a) → word g a ≡ word m a

module _ (m : Bytes) (b size : ℕ) (aligned : size % 16 ≡ 0) (small : size < word_mod) where
  module _ (alloc : Bool) where
    new_header_fields :
        let w = new_header (word m b) size alloc in
        (extract_size w ≡ size)
        × (extract_alloc w ≡ alloc)
        × (extract_prev_alloc w ≡ extract_prev_alloc (word m b))
        × (extract_prev_mini_block w ≡ extract_prev_mini_block (word m b))
        × (w < word_mod)
    new_header_fields =
        pack_fields size alloc (extract_prev_alloc (word m b)) (extract_prev_mini_block (word m b))
          aligned small

    Tagged-of :
        (g : Bytes)
        → word g b ≡ new_header (word m b) size alloc
        → (alloc ≡ false → 16 < size → word g (b + size - 8) ≡ word g b)
        → ((a : ℕ) → OutsideTags b size a → word g a ≡ word m a)
        → ((alloc ≡ true) ⊎ (size ≤ 16) → (a : ℕ) → (a + 8 ≤ b) ⊎ (b + 8 ≤ a) → word g a ≡ word m a)
        → Tagged m b size alloc g
    Tagged-of g e footer outside header_only =
        let fields = new_header_fields in
        record {
          size_set = ap extract_size e ∙ fields.0;
          alloc_set = ap extract_alloc e ∙ fields.1;
          prev_kept = ap extract_prev_alloc e ∙ fields.2;
          mini_kept = ap extract_prev_mini_block e ∙ fields.3;
          footer_set = footer;
          outside = outside;
          header_only = header_only;
        }

  pub written-Tagged : (alloc : Bool) → Tagged m b size alloc (written m b size alloc)
  unfolding written
  written-Tagged true =
      let w = new_header (word m b) size true in
      Tagged-of true (set_word m b w) (word-set_word m b w (new_header_fields true).4) (λ e. cc)
        (λ a o. word-set_word_other m b w a (omega arith))
        (λ c a o. word-set_word_other m b w a (omega (arith, o)))
  written-Tagged false =
      let w = new_header (word m b) size false in
      let g = set_word m b w in
      let put : word g b ≡ w = word-set_word m b w (new_header_fields false).4 in
      elim (Bool-cases (ltb min_block_size size)) [
        | inl t ↦
            let big : 16 < size = ground arith in
            let f = set_word g (b + size - 8) w in
            let head : word f b ≡ w =
              word-set_word_other g (b + size - 8) w b (omega arith) ∙ put in
            rw t (
              Tagged-of false f head
                (λ e l. word-set_word g (b + size - 8) w (new_header_fields false).4 ∙ sym head)
                (λ a o.
                  word-set_word_other g (b + size - 8) w a (omega arith)
                  ∙ word-set_word_other m b w a (omega arith))
                (λ c a o. elim c [ inl y ↦ absurd cc | inr y ↦ absurd (omega arith) ]))
        | inr t ↦ rw t (
            Tagged-of false g put (λ e l. absurd (ground arith))
              (λ a o. word-set_word_other m b w a (omega arith))
              (λ c a o. word-set_word_other m b w a (omega (arith, o))))
      ]

pub write_block-Tagged :
    (h : Machine) (b size : ℕ) (alloc : Bool)
    → Fits h b size
    → (g : Bytes) × (write_block b size alloc h ≡ done tt (with_bytes h g))
      × Tagged h.bytes b size alloc g
write_block-Tagged h b size alloc f = (
  written h.bytes b size alloc,
  write_block-done h b size alloc f,
  written-Tagged h.bytes b size f.aligned f.small alloc,
)

-- From the start of a block that has been written as free, with more than 16 bytes, find_next leads
-- to its end, and find_prev leads from there back to its start.
pub find_prev-find_next :
    (h : Machine) (b size : ℕ)
    → Fits h b size
    → 16 < size
    → b + size < word_mod
    → Returns
        (λ p _. p ≡ b)
        ((write_block b size false >> (do next ← find_next b; find_prev next)) h)
unfolding find_next find_prev get_size find_prev_footer footer_to_header
find_prev-find_next h b size f big top =
    let (g, run, t) = write_block-Tagged h b size false f in
    let footer : word g (b + size - 8) ≡ word g b = t.footer_set refl big in
    let at_footer : sub64 (b + size) 8 ≡ b + size - 8 = omega arith in
    let back : sub64 (b + size - 8 + 8) size ≡ b = omega arith in
    rw
      (
        run,
        load-with_bytes b h g (omega arith),
        t.size_set,
        at_footer,
        load-with_bytes (b + size - 8) h g (omega arith),
        footer,
        t.size_set,
        ==-ne size 0 (omega arith),
        load-with_bytes (b + size - 8) h g (omega arith),
        footer,
        t.size_set,
      )
      (returns back)
