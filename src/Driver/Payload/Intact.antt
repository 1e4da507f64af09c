-- ===== src/Driver/Payload/Intact.antt =====
-- The random bytes of a payload: what randomize_block writes and what check_index tells.
use malloc_implementation.Base.{
  ℕ, zero, suc, ◌+◌, ◌%◌, ◌≤◌, ◌<◌, ◌≡◌, ◌↔◌, ◌⊎◌, inl, inr, refl, sym, ap, ◌∙◌, arith, Bool, true,
  false, Bool-cases, ◌==◌, if◌then◌else◌, update, update_self, update_other, eq_of_==, ne_of_==,
}
use malloc_implementation.Memory.{Bytes, read_le, write_le}
use malloc_implementation.Machine.{Machine, done, with_bytes}
use malloc_implementation.Machine.Access.{InHeap, mem_read-done, mem_write-done}
use malloc_implementation.Driver.Ranges.{is_none}
use malloc_implementation.Driver.Payload.{
  Blocks, Settings, random_byte, fill_loop, filled_size, randomize_block, garbled_loop, check_index,
}

-- The `n` bytes of a payload from offset `i` are the random bytes for the base.
abbrev pub IntactFrom : Settings → (i n block base : ℕ) → Bytes → Type 0
IntactFrom s i n block base m =
    (k : ℕ) → i ≤ k → k < i + n → m (block + k) % 256 ≡ random_byte s base k

-- The payload, or as many bytes of it as the fill limit, lie in the heap.
abbrev pub PayloadInHeap : Settings → Blocks → ℕ → Machine → Type 0
PayloadInHeap s t index h =
    (h.heap ≤ t.blocks index)
    × ((t.blocks index + t.block_sizes index ≤ h.mem_brk)
        ⊎ (t.blocks index + s.maxfill ≤ h.mem_brk))

-- The bytes of the payload below the fill limit are those of the driver's random data from the base of
-- the payload on, in a circle.
abbrev pub Intact : Settings → Blocks → ℕ → Bytes → Type 0
Intact s t index m =
    (k : ℕ)
    → k < t.block_sizes index
    → k < s.maxfill
    → m (t.blocks index + k) % 256
      ≡ s.random_data ((t.block_rand_base index + k) % s.random_data_len)

abbrev Filled : Settings → Blocks → ℕ → Bytes → Type 0
Filled s t index m =
    IntactFrom s 0 (filled_size s (t.block_sizes index)) (t.blocks index) (t.block_rand_base index)
      m

pub Filled-Intact :
    (s : Settings) (t : Blocks) (index : ℕ) (m : Bytes) → Filled s t index m → Intact s t index m
unfolding filled_size random_byte
Filled-Intact s t index m f k below limit = f k (omega arith) (ground arith)

Intact-Filled :
    (s : Settings) (t : Blocks) (index : ℕ) (m : Bytes) → Intact s t index m → Filled s t index m
unfolding filled_size random_byte
Intact-Filled s t index m i k low below = i k (ground arith) (ground arith)

filled_outside :
    (s : Settings) (t : Blocks) (index a : ℕ)
    → (a < t.blocks index)
      ⊎ (t.blocks index + t.block_sizes index ≤ a)
      ⊎ (t.blocks index + s.maxfill ≤ a)
    → (a < t.blocks index + 0) ⊎ (t.blocks index + 0 + filled_size s (t.block_sizes index) ≤ a)
unfolding filled_size
filled_outside s t index a o = ground (arith, o)

PayloadInHeap-InHeap :
    (s : Settings) (t : Blocks) (index : ℕ) (h : Machine)
    → PayloadInHeap s t index h
    → InHeap (filled_size s (t.block_sizes index)) (t.blocks index) h
unfolding filled_size
PayloadInHeap-InHeap s t index h p = (p.0, ground (arith, p.1))

fill_loop-IntactFrom :
    (s : Settings)
    → ((j : ℕ) → s.random_data j < 256)
    → (rounds i block base : ℕ) (h : Machine) → InHeap rounds (block + i) h
    → (g : Bytes) × (fill_loop s rounds i block base h ≡ done tt (with_bytes h g))
      × IntactFrom s i rounds block base g
      × ((a : ℕ) → (a < block + i) ⊎ (block + i + rounds ≤ a) → g a ≡ h.bytes a)
unfolding fill_loop random_byte write_le
fill_loop-IntactFrom s byte zero i block base h d =
    (h.bytes, refl, (λ k l u. absurd (omega arith)), λ a o. refl)
fill_loop-IntactFrom s byte (suc rounds) i block base h d =
    let v = random_byte s base i in
    let m : Bytes = update h.bytes (block + i) (v % 256) in
    let (g, run, intact, kept) =
      fill_loop-IntactFrom s byte rounds (i + 1) block base (with_bytes h m) (omega arith) in
    (
      g,
      rw (mem_write-done (block + i) v 1 h (omega arith)) run,
      (λ k l u. elim (Bool-cases (k == i)) [
        | inl e ↦
            let same = eq_of_== k i e in
            ground (
              arith,
              same,
              kept (block + i) (inl (omega arith)),
              update_self h.bytes (block + i) (v % 256),
              byte ((base + i) % s.random_data_len),
            )
        | inr e ↦ let other = ne_of_== k i e in intact k (ground arith) (omega arith)
      ]),
      λ a o. ground (
        arith,
        kept a (omega (arith, o)),
        update_other h.bytes (block + i) a (v % 256) (omega (arith, o)),
      ),
    )

pub read_le-byte : (m : Bytes) (a : ℕ) → read_le 1 m a ≡ m a % 256
unfolding read_le
read_le-byte m a = omega arith

garbled_loop-IntactFrom :
    (s : Settings) (rounds i block base garbled : ℕ) (h : Machine)
    → InHeap rounds (block + i) h
    → (count : ℕ) × (garbled_loop s rounds i block base garbled h ≡ done count h)
      × (garbled ≤ count)
      × (count ≡ garbled → IntactFrom s i rounds block base h.bytes)
      × (IntactFrom s i rounds block base h.bytes → count ≡ garbled)
unfolding garbled_loop
garbled_loop-IntactFrom s zero i block base garbled h d =
    (garbled, refl, omega arith, (λ e k l u. absurd (omega arith)), λ intact. refl)
garbled_loop-IntactFrom s (suc rounds) i block base garbled h d =
    let v = h.bytes (block + i) % 256 in
    let next = if v == random_byte s base i then garbled else garbled + 1 in
    let (count, run, more, sound, complete) =
      garbled_loop-IntactFrom s rounds (i + 1) block base next h (omega arith) in
    (
      count,
      rw (mem_read-done (block + i) 1 h (omega arith), read_le-byte h.bytes (block + i)) run,
      ground arith,
      (λ e k l u. elim (Bool-cases (k == i)) [
        | inl same ↦ let at = eq_of_== k i same in ground (arith, at)
        | inr e' ↦
            let other = ne_of_== k i e' in sound (ground arith) k (ground arith) (omega arith)
      ]),
      λ intact. ground (
        arith,
        intact i (omega arith) (omega arith),
        complete (λ k l u. intact k (omega arith) (omega arith)),
      ),
    )

-- Unless the checks are off, check_index of a payload in the heap ends without fault, changes
-- nothing, and returns true exactly when each byte of the payload below the fill limit is that of the
-- driver's random data, from the base of the payload on, in a circle.
pub check_index_decides :
    (s : Settings) (t : Blocks) (index : ℕ) (h : Machine)
    → is_none s.mode ≡ false
    → PayloadInHeap s t index h
    → (b : Bool) × (check_index s t index h ≡ done b h) × ((b ≡ true) ↔ Intact s t index h.bytes)
unfolding check_index
check_index_decides s t index h on d =
    let within = PayloadInHeap-InHeap s t index h d in
    let (count, run, more, sound, complete) =
      garbled_loop-IntactFrom s (filled_size s (t.block_sizes index)) 0 (t.blocks index)
        (t.block_rand_base index) 0 h (omega (arith, within)) in
    (
      count == 0,
      rw (on, run) refl,
      (
        (λ e. Filled-Intact s t index h.bytes (sound (eq_of_== count 0 e))),
        λ intact. rw (complete (Intact-Filled s t index h.bytes intact)) refl,
      ),
    )

-- Where the random data are bytes, randomize_block of a payload in the heap ends without fault and
-- records the base it drew. Each byte of the payload below the fill limit is then that of the random
-- data from that base on, and no byte outside of the payload, or at or above the limit, has changed.
pub randomize_block-Intact :
    (s : Settings) (random : ℕ) (t : Blocks) (index : ℕ) (h : Machine)
    → is_none s.mode ≡ false
    → ((j : ℕ) → s.random_data j < 256)
    → PayloadInHeap s t index h
    → (g : Bytes) × (t' : Blocks) × (randomize_block s random t index h ≡ done t' (with_bytes h g))
      × (t'.block_rand_base index ≡ random)
      × Intact s t' index g
      × ((a : ℕ)
          → (a < t.blocks index)
            ⊎ (t.blocks index + t.block_sizes index ≤ a)
            ⊎ (t.blocks index + s.maxfill ≤ a)
          → g a ≡ h.bytes a)
unfolding randomize_block
randomize_block-Intact s random t index h on byte d =
    let within = PayloadInHeap-InHeap s t index h d in
    let (g, run, intact, kept) =
      fill_loop-IntactFrom s byte (filled_size s (t.block_sizes index)) 0 (t.blocks index) random h
        (omega (arith, within)) in
    let t' : Blocks = record t { block_rand_base = update t.block_rand_base index random } in
    let same = update_self t.block_rand_base index random in
    (
      g,
      t',
      rw (on, run) refl,
      same,
      Filled-Intact s t' index g (λ k l u. intact k l u ∙ ap (λ b. random_byte s b k) (sym same)),
      λ a o. kept a (filled_outside s t index a o),
    )
