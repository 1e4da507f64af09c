-- ===== src/MemLib/Sparse/Put.antt =====
-- mem_write of the sparse emulation within one page: the marks and the bytes of the page.
use malloc_implementation.Base.{
  ℕ, zero, suc, ◌+◌, ◌≤◌, ◌<◌, ◌≡◌, ◌≢◌, ◌⊎◌, inl, inr, refl, sym, ◌∙◌, arith, Bool, true,
  Bool-cases, none, some, ◌==◌, eq_of_==, ne_of_==, if◌then◌else◌, update, update_self, ==-ne,
  update_other,
}
use malloc_implementation.Memory.{write_le}
use malloc_implementation.Memory.Words.{write_le-outside}
use malloc_implementation.Memory.Copy.{byte_of, write_le-byte}
use malloc_implementation.MemLib.{sparse_heap_start}
use malloc_implementation.MemLib.Sparse.{
  Sparse, MemBlock, page_size, page_id, page_start, page_offset, page_of, mark_loop,
}
use malloc_implementation.MemLib.Sparse.Pages.{
  cell, InUse, page_of-id, with_page, page_of-with_page, cell-with_page_self, cell-with_page_other,
}

mark_loop-unmarked :
    (n o : ℕ) (set : ℕ → Bool) (k : ℕ) → (k < o) ⊎ (o + n ≤ k) → mark_loop n o set k ≡ set k
unfolding mark_loop
mark_loop-unmarked zero o set k out = refl
mark_loop-unmarked (suc n) o set k out =
    let kept : update set o true k ≡ set k = update_other set o k true (omega arith) in
    elim (Bool-cases (o + 1 == page_size)) [
      | inl t ↦ rw t kept
      | inr f ↦ rw f (mark_loop-unmarked n (o + 1) (update set o true) k (omega arith) ∙ kept)
    ]

mark_loop-marked :
    (n o : ℕ) (set : ℕ → Bool) (k : ℕ)
    → o ≤ k
    → k < o + n
    → k < page_size
    → mark_loop n o set k ≡ true
unfolding mark_loop
mark_loop-marked zero o set k low high last = absurd (omega arith)
mark_loop-marked (suc n) o set k low high last = elim (Bool-cases (o == k)) [
  | inl same ↦
      let e : o ≡ k = eq_of_== o k same in
      elim (Bool-cases (o + 1 == page_size)) [
        | inl t ↦ rw (t, same) refl
        | inr f ↦
            rw f (mark_loop-unmarked n (o + 1) (update set o true) k (omega arith) ∙ rw same refl)
      ]
  | inr other ↦
      let ne : o ≢ k = ne_of_== o k other in
      rw (==-ne (o + 1) page_size (omega arith))
        (mark_loop-marked n (o + 1) (update set o true) k (omega arith) (omega arith) last)
]

-- What the write of `n` bytes of a value does to the cells.
pub record Wrote (s : Sparse) (addr n val : ℕ) (t : Sparse) : Type 0 where
  pub in_use : InUse t
  pub written : (i : ℕ) → i < n → cell t (addr + i) ≡ some (byte_of val i)
  pub kept : (a : ℕ) → sparse_heap_start ≤ a → (a < addr) ⊎ (addr + n ≤ a) → cell t a ≡ cell s a
  pub heap_same : t.heap ≡ s.heap
  pub brk_same : t.mem_brk ≡ s.mem_brk
  pub check_same : t.check_ub ≡ s.check_ub

-- The page of an address, with the `n` bytes behind it marked and stored.
abbrev pub marked : Sparse → ℕ → ℕ → ℕ → Sparse
marked s p o size =
    with_page s p (record (s.pages p) { init_set = mark_loop size o (s.pages p).init_set })

abbrev pub stored : Sparse → ℕ → ℕ → ℕ → ℕ → Sparse
stored s p o n val =
    with_page s p (record (s.pages p) { bytes = write_le n (s.pages p).bytes o val })

pub page_offset-lt : (a : ℕ) → page_offset a < page_size
unfolding page_offset
page_offset-lt a = omega arith

pub page_id-near :
    (a i : ℕ) → sparse_heap_start ≤ a → page_offset a + i < page_size → page_id (a + i) ≡ page_id a
unfolding page_offset page_id page_start
page_id-near a i start h = omega arith

pub page_offset-near :
    (a i : ℕ)
    → sparse_heap_start ≤ a
    → page_offset a + i < page_size
    → page_offset (a + i) ≡ page_offset a + i
unfolding page_offset
page_offset-near a i start h = omega arith

-- Two addresses of one page are as far apart as their offsets.
page_offset-away :
    (a addr n : ℕ)
    → sparse_heap_start ≤ a
    → sparse_heap_start ≤ addr
    → page_id a ≡ page_id addr
    → (a < addr) ⊎ (addr + n ≤ a)
    → (page_offset a < page_offset addr) ⊎ (page_offset addr + n ≤ page_offset a)
unfolding page_offset
page_offset-away a addr n h h' e out = omega arith

module _ (s : Sparse) (p o size n val : ℕ) where
  abbrev marked_block : MemBlock
  marked_block = record (s.pages p) { init_set = mark_loop size o (s.pages p).init_set }

  abbrev stored_block : MemBlock
  stored_block = record ((marked s p o size).pages p) {
    bytes = write_le n ((marked s p o size).pages p).bytes o val;
  }

  -- The state after get_mem has marked `size` bytes and `n` bytes have been stored.
  abbrev pub after_put : Sparse
  after_put = stored (marked s p o size) p o n val

  page_of-after_put : (id : ℕ) → page_of id after_put ≡ page_of id s
  page_of-after_put id =
      page_of-with_page (marked s p o size) p stored_block refl id
      ∙ page_of-with_page s p marked_block refl id

  cell-after_put_self :
      (a : ℕ)
      → page_of (page_id a) s ≡ some p
      → cell after_put a ≡ (
          if mark_loop size o (s.pages p).init_set (page_offset a)
          then some (write_le n (s.pages p).bytes o val (page_offset a))
          else none)
  cell-after_put_self a e =
      cell-with_page_self (marked s p o size) p stored_block refl a
        (page_of-with_page s p marked_block refl (page_id a) ∙ e)
      ∙ rw (update_self s.pages p marked_block) refl

  cell-after_put_other : (a : ℕ) → page_of (page_id a) s ≢ some p → cell after_put a ≡ cell s a
  cell-after_put_other a ne =
      cell-with_page_other (marked s p o size) p stored_block refl a
        (λ e. ne (sym (page_of-with_page s p marked_block refl (page_id a)) ∙ e))
      ∙ cell-with_page_other s p marked_block refl a ne

cell-of_page :
    (s : Sparse) (p a : ℕ)
    → page_of (page_id a) s ≡ some p
    → cell s a ≡ (
        if (s.pages p).init_set (page_offset a)
        then some ((s.pages p).bytes (page_offset a))
        else none)
unfolding cell
cell-of_page s p a e = rw e refl

module _ (s : Sparse) (p addr size n val : ℕ) (used : InUse s)
    (found : page_of (page_id addr) s ≡ some p) (le : n ≤ size)
    (fit : page_offset addr + n ≤ page_size) (all : (n ≡ size) ⊎ (page_offset addr + n ≡ page_size))
    (start : sparse_heap_start ≤ addr) where
  after_put-written :
      (i : ℕ)
      → i < n
      → cell (after_put s p (page_offset addr) size n val) (addr + i) ≡ some (byte_of val i)
  after_put-written i lt =
      let id_same : page_id (addr + i) ≡ page_id addr = page_id-near addr i start (omega arith) in
      let off : page_offset (addr + i) ≡ page_offset addr + i =
        page_offset-near addr i start (omega arith) in
      cell-after_put_self s p (page_offset addr) size n val (addr + i) (rw id_same found)
      ∙ rw
          (
            off,
            mark_loop-marked size (page_offset addr) (s.pages p).init_set (page_offset addr + i)
                (omega arith) (omega arith) (omega arith),
            write_le-byte n (s.pages p).bytes (page_offset addr) val i lt,
          )
          refl

  after_put-kept :
      (a : ℕ)
      → sparse_heap_start ≤ a
      → (a < addr) ⊎ (addr + n ≤ a)
      → cell (after_put s p (page_offset addr) size n val) a ≡ cell s a
  after_put-kept a start' out = elim (Bool-cases (page_id a == page_id addr)) [
    | inl t ↦
        let id_same : page_id a ≡ page_id addr = eq_of_== (page_id a) (page_id addr) t in
        let here : page_of (page_id a) s ≡ some p = rw id_same found in
        let away = page_offset-away a addr n start' start id_same out in
        cell-after_put_self s p (page_offset addr) size n val a here
        ∙ rw
            (
              mark_loop-unmarked size (page_offset addr) (s.pages p).init_set (page_offset a)
                  (omega (arith, page_offset-lt a)),
              write_le-outside n (s.pages p).bytes (page_offset addr) val (page_offset a) away,
            )
            (sym (cell-of_page s p a here))
    | inr f ↦ cell-after_put_other s p (page_offset addr) size n val a (λ e.
        ne_of_== (page_id a) (page_id addr) f
          (sym (page_of-id s (page_id a) p e) ∙ page_of-id s (page_id addr) p found))
  ]

  pub after_put-Wrote : Wrote s addr n val (after_put s p (page_offset addr) size n val)
  after_put-Wrote = record {
    in_use = used;
    written = after_put-written;
    kept = after_put-kept;
    heap_same = refl;
    brk_same = refl;
    check_same = refl;
  }
