-- ===== src/MemLib/Sparse/Loaded.antt =====
-- mem_read of the sparse emulation against the cells of the heap.
use malloc_implementation.Base.{
  ℕ, zero, suc, ◌+◌, ◌-◌, ◌%◌, ◌^◌, ◌≤◌, ◌<◌, ◌≡◌, ◌≢◌, inl, inr, refl, sym, ◌∙◌, ap, arith, Bool,
  true, false, Bool-cases, none, some, ◌==◌, ltb, ltb-true, ltb-false, eq_of_==, ne_of_==,
  if◌then◌else◌,
}
use native.Mathlib.Decide.{dec_lt}
use malloc_implementation.Memory.{Bytes, read_le}
use malloc_implementation.Memory.Split.{read_le-mod, read_le-moved, read_le-joined}
use malloc_implementation.MemLib.{sparse_heap_start}
use malloc_implementation.MemLib.Sparse.{
  Sparse, MemBlock, ok, page_size, page_id, page_offset, page_of, get_page, check_loop, touch,
  get_mem, page_bytes, fetch, read_high, sparse_read,
}
use malloc_implementation.MemLib.Sparse.Pages.{cell, cell_in, Option-cases}
use malloc_implementation.MemLib.Sparse.Put.{page_offset-lt, page_id-near, page_offset-near}
use malloc_implementation.MemLib.Sparse.Stored.{InSparseHeap, in_sparse_heap-true, boundary}

-- The cells of `len` addresses hold the bytes of `m`.
abbrev pub Holds : Sparse → ℕ → ℕ → Bytes → Type 0
Holds s addr len m = (i : ℕ) → i < len → cell s (addr + i) ≡ some (m (addr + i))

-- A cell that holds a byte lies in a page, where its bit is set.
pub record InPage (s : Sparse) (a p v : ℕ) : Type 0 where
  pub found : page_of (page_id a) s ≡ some p
  pub set : (s.pages p).init_set (page_offset a) ≡ true
  pub byte : (s.pages p).bytes (page_offset a) ≡ v

pub cell-InPage : (s : Sparse) (a v : ℕ) → cell s a ≡ some v → (p : ℕ) × InPage s a p v
unfolding cell
cell-InPage s a v e = elim (Option-cases (page_of (page_id a) s)) [
  | inl f ↦ absurd (let e' : none ≡ some v = rw f at e in cc)
  | inr (p, f) ↦
      let e' : cell_in s.pages (page_offset a) (some p) ≡ some v = rw f at e in
      elim (Bool-cases ((s.pages p).init_set (page_offset a))) [
        | inl t ↦ (p, record { found = f; set = t; byte = (let e'' = rw t at e' in cc) })
        | inr t ↦ absurd (let e'' : none ≡ some v = rw t at e' in cc)
      ]
]

check_loop-true :
    (n o : ℕ) (set : ℕ → Bool)
    → ((k : ℕ) → o ≤ k → k < o + n → k < page_size → set k ≡ true)
    → o < page_size
    → check_loop n o set ≡ true
unfolding check_loop
check_loop-true zero o set all h = refl
check_loop-true (suc n) o set all h = elim (Bool-cases (o + 1 == page_size)) [
  | inl t ↦ rw (all o (omega arith) (omega arith) h, t) refl
  | inr f ↦
      let ne = ne_of_== (o + 1) page_size f in
      rw (all o (omega arith) (omega arith) h, f)
        (check_loop-true n (o + 1) set (λ k l u b. all k (omega arith) (omega arith) b)
          (omega arith))
]

-- A read of initialised bytes finds its page and changes nothing.
get_mem-checked :
    (s : Sparse) (addr size p : ℕ)
    → page_of (page_id addr) s ≡ some p
    → check_loop size (page_offset addr) (s.pages p).init_set ≡ true
    → get_mem addr size false s ≡ ok p s
unfolding get_mem get_page touch
get_mem-checked s addr size p found set = elim (Bool-cases s.check_ub) [
  | inl t ↦ rw (found, t, set) refl
  | inr f ↦ rw (found, f) refl
]

-- What a read at an address of a page meets: the page, and its bytes up to the end of the page.
pub record Page (s : Sparse) (addr len : ℕ) (m : Bytes) (p : ℕ) : Type 0 where
  pub reached : get_mem addr len false s ≡ ok p s
  pub bytes :
      (i : ℕ)
      → i < len
      → page_offset addr + i < page_size
      → page_bytes s.pages p (page_offset addr + i) ≡ m (addr + i)

page_bytes-inside :
    (pages : ℕ → MemBlock) (p o : ℕ) → o < page_size → page_bytes pages p o ≡ (pages p).bytes o
unfolding page_bytes
page_bytes-inside pages p o h = rw (ltb-true o page_size h) refl

module _ (s : Sparse) (addr len : ℕ) (m : Bytes) (start : sparse_heap_start ≤ addr)
    (holds : Holds s addr len m) where
  cell-near :
      (p : ℕ)
      → page_of (page_id addr) s ≡ some p
      → (i : ℕ) → i < len
      → page_offset addr + i < page_size
      → ((s.pages p).init_set (page_offset addr + i) ≡ true)
        × ((s.pages p).bytes (page_offset addr + i) ≡ m (addr + i))
  cell-near p found i lt fits =
      let (q, at) = cell-InPage s (addr + i) (m (addr + i)) (holds i lt) in
      let near = page_id-near addr i start fits in
      let off = page_offset-near addr i start fits in
      let found' : page_of (page_id addr) s ≡ some q = rw near at at.found in
      let same : q ≡ p = (let e : some q ≡ some p = sym found' ∙ found in cc) in
      (rw (← off, ← same) at.set, rw (← off, ← same) at.byte)

  pub Holds-Page : 0 < len → (p : ℕ) × Page s addr len m p
  Holds-Page pos =
      let e : addr + 0 ≡ addr = omega arith in
      let (p, at) = cell-InPage s addr (m addr) (rw e at (holds 0 pos)) in
      (
        p,
        record {
          reached = get_mem-checked s addr len p at.found (
              check_loop-true len (page_offset addr) (s.pages p).init_set
                (λ k l u b.
                  let f : page_offset addr + (k - page_offset addr) ≡ k = omega arith in
                  rw f at
                    (cell-near p at.found (k - page_offset addr) (omega arith) (omega arith)).0)
                (page_offset-lt addr));
          bytes = λ i lt fits.
              page_bytes-inside s.pages p (page_offset addr + i) fits
              ∙ (cell-near p at.found i lt fits).1;
        },
      )

-- The last mask of mem_read.
low_bytes :
    (len o a : ℕ) (f m : Bytes)
    → len ≤ 8
    → ((i : ℕ) → i < len → f (o + i) % 256 ≡ m (a + i) % 256)
    → (if ltb len 8 then read_le 8 f o % 256 ^ len else read_le 8 f o) ≡ read_le len m a
low_bytes len o a f m short same = elim (Bool-cases (ltb len 8)) [
  | inl t ↦ rw t (read_le-mod len 8 f o short ∙ read_le-moved len f m o a same)
  | inr t ↦
      let e : len ≡ 8 = ground arith in
      rw t
        (read_le-moved 8 f m o a (λ i lt. same i (omega arith)) ∙ ap (λ n. read_le n m a) (sym e))
]

one_page :
    (addr len : ℕ)
    → sparse_heap_start ≤ addr
    → 0 < len
    → page_id addr ≡ page_id (addr + len - 1)
    → page_offset addr + len ≤ page_size
unfolding page_id page_offset
one_page addr len start pos e = omega arith

two_pages :
    (addr len : ℕ)
    → sparse_heap_start ≤ addr
    → 0 < len
    → len ≤ 8
    → page_id addr ≢ page_id (addr + len - 1)
    → page_size - page_offset addr < len
unfolding page_id page_offset
two_pages addr len start pos short ne = omega arith

plus_plus : (a b c : ℕ) → a + b + c ≡ a + (b + c)
plus_plus a b c = omega arith

-- The memory that two halves of a read show: `m` up to `len`, the second page behind.
abbrev seen : Bytes → Bytes → (addr len l q : ℕ) → Bytes
seen m g addr len l q b = if ltb b (addr + len) then m b else g (q + (b - (addr + l)))

module _ (m g : Bytes) (addr len l q : ℕ) where
  seen-low : (b : ℕ) → b < addr + len → seen m g addr len l q b ≡ m b
  seen-low b h = rw (ltb-true b (addr + len) h) refl

  seen-high :
      (i : ℕ)
      → (l + i < len → g (q + i) ≡ m (addr + l + i))
      → g (q + i) ≡ seen m g addr len l q (addr + l + i)
  seen-high i same = elim (dec_lt (l + i) len) [
    | yes lt ↦ same lt ∙ sym (seen-low (addr + l + i) (omega arith))
    | no ge ↦
        let back : addr + l + i - (addr + l) ≡ i = omega arith in
        rw (ltb-false (addr + l + i) (addr + len) (omega arith), back) refl
  ]

-- mem_read of at most 8 bytes of the emulated heap that have been written ends without fault and
-- gives the little-endian integer of the bytes in the cells, also where it crosses a page boundary;
-- it takes no page and changes nothing.
pub sparse_read-Holds :
    (s : Sparse) (addr len : ℕ) (m : Bytes)
    → 0 < len
    → len ≤ 8
    → InSparseHeap s addr len
    → Holds s addr len m
    → sparse_read addr len s ≡ ok (read_le len m addr) s
unfolding sparse_read fetch read_high
sparse_read-Holds s addr len m pos short h holds =
    let start : sparse_heap_start ≤ addr = omega (arith, h.start, h.low) in
    let o = page_offset addr in
    let l = page_size - o in
    let bound = page_offset-lt addr in
    let (p, page) = Holds-Page s addr len m start holds pos in
    let f = page_bytes s.pages p in
    elim (Bool-cases (page_id addr == page_id (addr + len - 1))) [
      | inl t ↦
          let whole : o + len ≤ page_size =
            one_page addr len start pos (eq_of_== (page_id addr) (page_id (addr + len - 1)) t) in
          let value =
            low_bytes len o addr f m short
              (λ i lt. ap (λ b. b % 256) (page.bytes i lt (omega arith))) in
          rw (in_sparse_heap-true s addr len h, page.reached, t, value) refl
      | inr t ↦
          let over : l < len =
            two_pages addr len start pos short
              (ne_of_== (page_id addr) (page_id (addr + len - 1)) t) in
          let holds' : Holds s (addr + l) (len - l) m =
            (λ i lt. rw (plus_plus addr l i) (holds (l + i) (omega arith))) in
          let (q, page') = Holds-Page s (addr + l) (len - l) m (omega arith) holds' (omega arith) in
          let g = page_bytes s.pages q in
          let o' = page_offset (addr + l) in
          let fit = boundary addr len short start over in
          let k = seen m g addr len l o' in
          let joined =
            read_le-joined l (8 - l) f g k o o' addr (omega arith)
              (λ i lt.
                ap (λ b. b % 256)
                  (page.bytes i (omega arith) (omega arith)
                    ∙ sym (seen-low m g addr len l o' (addr + i) (omega arith))))
              (λ i lt.
                ap (λ b. b % 256)
                  (seen-high m g addr len l o' i
                    (λ in_range. page'.bytes i (omega arith) (omega arith)))) in
          let value =
            low_bytes len addr addr k m short
              (λ i lt. ap (λ b. b % 256) (seen-low m g addr len l o' (addr + i) (omega arith))) in
          rw (in_sparse_heap-true s addr len h, page.reached, t, page'.reached, joined, value) refl
    ]
