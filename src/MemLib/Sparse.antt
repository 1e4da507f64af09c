-- ===== src/MemLib/Sparse.antt =====
-- memlib.c: the emulation of a sparse heap. The heap's bytes lie in pages that are taken from an
-- array when an address is first used; a hash table leads from the number of a heap page to the
-- array's entry. A page is its index in that array, and the chain of a bucket is the list of its
-- pages. An access outside of the heap, which the code makes directly, is a fault.
pub mod Pages
pub mod Put
pub mod Stored
pub mod Loaded
pub mod Dense
use malloc_implementation.Base.{
  ℕ, zero, suc, ◌+◌, ◌-◌, ◌*◌, ◌/◌, ◌%◌, ◌^◌, Bool, true, false, not, ◌&&◌, Option, none, some,
  List, [], ◌∷◌, ltb, leb, ◌==◌, if◌then◌else◌, update,
}
use malloc_implementation.Base.Word.{word_mod, mul64}
use malloc_implementation.Memory.{Bytes, read_le, write_le}
use malloc_implementation.Memory.Copy.{byte_of}
use malloc_implementation.MemLib.{sparse_heap_start}

abbrev pub page_size : ℕ
page_size = 1024

-- mem_block_t; `init_set` has one Boolean for each bit of the code's bit vector.
pub record MemBlock : Type 0 where
  pub id : ℕ
  pub init_set : ℕ → Bool
  pub bytes : Bytes

-- The private variables of the emulation, with the bounds of the heap.
pub record Sparse : Type 0 where
  pub heap : ℕ
  pub mem_brk : ℕ
  pub pages : ℕ → MemBlock
  pub page_table : ℕ → List ℕ
  pub next_free_page : ℕ
  pub num_free_pages : ℕ
  pub num_buckets : ℕ
  pub check_ub : Bool

-- `out_of_pages` is exit(1), `uninitialized` is abort().
pub data Outcome (A : Type 0) : Type 0 where
  ok : A → Sparse → Outcome A
  out_of_pages : Outcome A
  uninitialized : Outcome A
  outside_heap : Outcome A

abbrev pub Access : Type 0 → Type 0
Access A = Sparse → Outcome A

abbrev pub pure : {A : Type 0} → A → Access A
pure a = ok a

module _ {A B : Type 0} where
  abbrev pub continue : Outcome A → (A → Access B) → Outcome B
  continue (ok a s) k = k a s
  continue out_of_pages k = out_of_pages
  continue uninitialized k = uninitialized
  continue outside_heap k = outside_heap

  infixl 5 ◌>>=◌ ◌>>◌
  abbrev pub ◌>>=◌ : Access A → (A → Access B) → Access B
  m >>= k = λ s. continue (m s) k

  abbrev pub ◌>>◌ : Access A → Access B → Access B
  m >> k = m >>= λ _. k

unfoldable pub page_id : ℕ → ℕ
page_id addr = (addr - sparse_heap_start) / page_size

unfoldable pub page_start : ℕ → ℕ
page_start id = sparse_heap_start + id * page_size

-- The offset of an address in its page.
unfoldable pub page_offset : ℕ → ℕ
unfolding page_id page_start
page_offset addr = addr - page_start (page_id addr)

-- setUBCheck
unfoldable pub set_ub_check : Bool → Sparse → Sparse
set_ub_check val s = record s { check_ub = val }

-- The sparse branch of mem_reset_brk, with its last statement.
unfoldable pub reset_pages : ℕ → Sparse → Sparse
reset_pages num_pages s = record s {
  page_table = λ b. [];
  next_free_page = 0;
  num_free_pages = num_pages;
  mem_brk = s.heap;
}

-- `while (block && block->id != id) block = block->next;`
unfoldable pub find_block : ℕ → (ℕ → MemBlock) → List ℕ → Option ℕ
find_block id pages [] = none
find_block id pages (p ∷ chain) = if (pages p).id == id then some p else find_block id pages chain

-- The page with the number, if it has been taken.
unfoldable pub page_of : ℕ → Sparse → Option ℕ
unfolding find_block
page_of id s = find_block id s.pages (s.page_table (id % s.num_buckets))

-- The next free page, put in front of the bucket. Its bytes stay what they were.
unfoldable pub take_page : ℕ → Sparse → Sparse
take_page id s =
    let p = s.next_free_page in
    let b = id % s.num_buckets in
    record s {
      next_free_page = p + 1;
      num_free_pages = s.num_free_pages - 1;
      pages = update s.pages p (record (s.pages p) { id = id; init_set = λ o. false });
      page_table = update s.page_table b (p ∷ s.page_table b);
    }

unfoldable pub page_or_taken : Option ℕ → ℕ → Access ℕ
page_or_taken (some p) id s = ok p s
page_or_taken none id s =
    if s.num_free_pages == 0 then out_of_pages else ok s.next_free_page (take_page id s)

unfoldable pub get_page : ℕ → Access ℕ
unfolding page_or_taken
get_page id s = page_or_taken (page_of id s) id s

-- The loop of get_mem over the bit vector for a write, and for a read, with `rounds` left.
unfoldable pub mark_loop : ℕ → ℕ → (ℕ → Bool) → ℕ → Bool
mark_loop zero offset init_set = init_set
mark_loop (suc rounds) offset init_set =
    let marked = update init_set offset true in
    let rest = mark_loop rounds (offset + 1) marked in
    if offset + 1 == page_size then marked else rest

unfoldable pub check_loop : ℕ → ℕ → (ℕ → Bool) → Bool
check_loop zero offset init_set = true
check_loop (suc rounds) offset init_set =
    let rest = check_loop rounds (offset + 1) init_set in
    if not (init_set offset) then false else if offset + 1 == page_size then true else rest

unfoldable pub touch : ℕ → ℕ → ℕ → Bool → Access (Unit {0})
unfolding mark_loop check_loop
touch p offset size true s = ok tt (record s {
  pages =
      update s.pages p
        (record (s.pages p) { init_set = mark_loop size offset (s.pages p).init_set });
})
touch p offset size false s =
    if s.check_ub && not (check_loop size offset (s.pages p).init_set)
    then uninitialized
    else ok tt s

-- get_mem; the address that it returns is the page with `page_offset addr`.
unfoldable pub get_mem : ℕ → ℕ → Bool → Access ℕ
unfolding get_page touch page_offset
get_mem addr size is_write = do
  p ← get_page (page_id addr)
  touch p (page_offset addr) size is_write
  pure p

-- What lies from the start of a page's bytes: the bytes, then the `id` of the next array entry (or
-- the padding behind the last one), which a read of 8 bytes at the end of a page reaches.
unfoldable pub page_bytes : (ℕ → MemBlock) → ℕ → Bytes
unfolding byte_of
page_bytes pages p o =
    if ltb o page_size then (pages p).bytes o else byte_of (pages (p + 1)).id (o - page_size)

-- `*(uint64_t * )` at a place in a page
unfoldable pub fetch : ℕ → ℕ → Access ℕ
unfolding page_bytes
fetch p offset s = ok (read_le 8 (page_bytes s.pages p) offset) s

-- A memcpy of the low bytes of a value into a page.
unfoldable pub put : ℕ → ℕ → ℕ → ℕ → Access (Unit {0})
put p offset n val s = ok tt (record s {
  pages = update s.pages p (record (s.pages p) { bytes = write_le n (s.pages p).bytes offset val });
})

-- The bytes of a value from the `n`-th on.
unfoldable pub bytes_from : ℕ → ℕ → ℕ
bytes_from zero val = val
bytes_from (suc n) val = bytes_from n (val / 256)

-- The second half of a read that crosses a page boundary, with the low bytes read. `llen` bytes are
-- `8 * llen` bits, and an `|` of numbers without a common bit is their sum.
unfoldable pub read_high : ℕ → ℕ → ℕ → ℕ → Access ℕ
unfolding get_mem fetch
read_high addr len llen rdata = do
  p ← get_mem (addr + llen) (len - llen) false
  hdata ← fetch p (page_offset (addr + llen))
  pure (rdata % 256 ^ llen + mul64 (256 ^ llen) hdata)

unfoldable pub in_sparse_heap : ℕ → ℕ → Sparse → Bool
in_sparse_heap addr len s = leb s.heap addr && leb (addr + len) s.mem_brk

-- The sparse branch of mem_read.
unfoldable pub sparse_read : ℕ → ℕ → Access ℕ
unfolding in_sparse_heap read_high get_mem fetch
sparse_read addr len s =
    if in_sparse_heap addr len s
    then (do
      p ← get_mem addr len false
      low ← fetch p (page_offset addr)
      rdata ←
          (if page_id addr == page_id (addr + len - 1)
            then pure low
            else read_high addr len (page_size - page_offset addr) low)
      pure (if ltb len 8 then rdata % 256 ^ len else rdata))
        s
    else outside_heap

-- The sparse branch of mem_write.
unfoldable pub sparse_write : ℕ → ℕ → ℕ → Access (Unit {0})
unfolding in_sparse_heap get_mem put bytes_from
sparse_write addr val len s =
    let llen = page_size - page_offset addr in
    if in_sparse_heap addr len s
    then (do
      p ← get_mem addr len true
      if ltb llen len
          then (do
            put p (page_offset addr) llen val
            q ← get_mem (addr + llen) (len - llen) true
            put q (page_offset (addr + llen)) (len - llen) (bytes_from llen val))
          else put p (page_offset addr) len val)
        s
    else outside_heap
