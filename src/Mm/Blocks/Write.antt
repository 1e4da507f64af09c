-- ===== src/Mm/Blocks/Write.antt =====
-- What write_block and the neighbour functions of mm.c do to the headers and footers in memory.
use malloc_implementation.Base.{
  ℕ, ◌+◌, ◌-◌, ◌%◌, ◌≤◌, ◌<◌, ◌≡◌, inl, inr, Bool, true, false, arith, Bool-cases, ltb,
  if◌then◌else◌,
}
use malloc_implementation.Base.Word.{word_mod}
use malloc_implementation.Memory.{Bytes}
use malloc_implementation.Memory.Words.{word, set_word, word-set_word}
use malloc_implementation.Machine.{Machine, done, with_bytes}
use malloc_implementation.Machine.Access.{load-done, store-done, load-with_bytes, store-with_bytes}
use malloc_implementation.Mm.Header.{
  min_block_size, pack, extract_prev_alloc, extract_prev_mini_block,
}
use malloc_implementation.Mm.Header.Pack.{pack_fields}
use malloc_implementation.Mm.Blocks.{
  get_size, get_prev_alloc, get_prev_mini_block, header_to_footer, write_footer, write_block,
}

-- The word that write_block puts into the header, whose old content is `w`.
abbrev pub new_header : ℕ → ℕ → Bool → ℕ
new_header w size alloc = pack size alloc (extract_prev_alloc w) (extract_prev_mini_block w)

-- The memory after write_block: the footer is written for a free block of more than 16 bytes.
unfoldable pub written : Bytes → ℕ → ℕ → Bool → Bytes
written m b size alloc =
    let w = new_header (word m b) size alloc in
    if alloc
    then set_word m b w
    else if ltb min_block_size size
    then set_word (set_word m b w) (b + size - 8) w
    else set_word m b w

-- A size that a header can hold, of a block that lies in the heap.
pub record Fits (h : Machine) (b size : ℕ) : Type 0 where
  pub low : h.heap ≤ b
  pub header : b + 8 ≤ h.mem_brk
  pub footer : b + size ≤ h.mem_brk
  pub aligned : size % 16 ≡ 0
  pub small : size < word_mod

pub write_block-done :
    (h : Machine) (b size : ℕ) (alloc : Bool)
    → Fits h b size
    → write_block b size alloc h ≡ done tt (with_bytes h (written h.bytes b size alloc))
unfolding write_block get_prev_alloc get_prev_mini_block write_footer header_to_footer get_size
    written
write_block-done h b size true f = rw (
  load-done b h (omega arith),
  load-done b h (omega arith),
  store-done b (new_header (word h.bytes b) size true) h (omega arith),
)
write_block-done h b size false f =
    let w = new_header (word h.bytes b) size false in
    let fields =
      pack_fields size false (extract_prev_alloc (word h.bytes b))
        (extract_prev_mini_block (word h.bytes b)) f.aligned f.small in
    elim (Bool-cases (ltb min_block_size size)) [
      | inl t ↦
          let big : 16 < size = ground arith in
          let e : b + 8 + size - 16 ≡ b + size - 8 = omega arith in
          rw (
            load-done b h (omega arith),
            load-done b h (omega arith),
            store-done b w h (omega arith),
            t,
            load-with_bytes b h (set_word h.bytes b w) (omega arith),
            word-set_word h.bytes b w fields.4,
            fields.0,
            e,
            store-with_bytes (b + size - 8) w h (set_word h.bytes b w) (omega arith),
          )
      | inr t ↦ rw (
        load-done b h (omega arith),
        load-done b h (omega arith),
        store-done b w h (omega arith),
        t,
      )
    ]
