-- ===== src/MemLib/Sparse/Stored.antt =====
-- mem_write of the sparse emulation against the cells of the heap.
use malloc_implementation.Base.{
  ℕ, zero, suc, ◌+◌, ◌-◌, ◌/◌, ◌≤◌, ◌<◌, ◌≡◌, inl, inr, refl, sym, ◌∙◌, ap, arith, true, Bool-cases,
  some, ltb,
}
use native.Mathlib.Decide.{dec_lt}
use malloc_implementation.Memory.Copy.{byte_of}
use malloc_implementation.MemLib.{sparse_heap_start}
use malloc_implementation.MemLib.Sparse.{
  Sparse, ok, page_size, page_id, page_offset, get_page, touch, get_mem, put, bytes_from,
  in_sparse_heap, sparse_write,
}
use malloc_implementation.MemLib.Sparse.Pages.{cell, InUse, Got, get_page-Got}
use malloc_implementation.MemLib.Sparse.Put.{
  Wrote, page_offset-lt, after_put-Wrote, marked, after_put,
}

byte_of-bytes_from : (k val i : ℕ) → byte_of (bytes_from k val) i ≡ byte_of val (k + i)
unfolding byte_of bytes_from
byte_of-bytes_from zero val i = let e : 0 + i ≡ i = omega arith in rw e refl
byte_of-bytes_from (suc k) val i =
    let e : suc k + i ≡ suc (k + i) = omega arith in rw e (byte_of-bytes_from k (val / 256) i)

get_mem-marked :
    (s t : Sparse) (addr size p : ℕ)
    → get_page (page_id addr) s ≡ ok p t
    → get_mem addr size true s ≡ ok p (marked t p (page_offset addr) size)
unfolding get_mem touch
get_mem-marked s t addr size p e = rw e refl

-- Taking a page first makes no difference.
Wrote-Got :
    (s t u : Sparse) (id p addr n val : ℕ)
    → Got s id p t
    → Wrote t addr n val u
    → Wrote s addr n val u
Wrote-Got s t u id p addr n val got w = record {
  in_use = w.in_use;
  written = w.written;
  kept = λ a h out. w.kept a h out ∙ got.kept a;
  heap_same = w.heap_same ∙ got.heap_same;
  brk_same = w.brk_same ∙ got.brk_same;
  check_same = w.check_same ∙ got.check_same;
}

-- The low bytes of a value and then the others.
Wrote-halves :
    (s t u : Sparse) (addr l len val : ℕ)
    → sparse_heap_start ≤ addr
    → l ≤ len
    → Wrote s addr l val t
    → Wrote t (addr + l) (len - l) (bytes_from l val) u
    → Wrote s addr len val u
Wrote-halves s t u addr l len val start le w v = record {
  in_use = v.in_use;
  written = λ i lt. elim (dec_lt i l) [
    | yes low ↦ v.kept (addr + i) (omega arith) (inl (omega arith)) ∙ w.written i low
    | no high ↦
        let place : addr + l + (i - l) ≡ addr + i = omega arith in
        let index : l + (i - l) ≡ i = omega arith in
        ap (cell u) (sym place)
        ∙ v.written (i - l) (omega arith)
        ∙ ap some (byte_of-bytes_from l val (i - l) ∙ ap (byte_of val) index)
  ];
  kept = λ a h out. v.kept a h (omega arith) ∙ w.kept a h (omega arith);
  heap_same = v.heap_same ∙ w.heap_same;
  brk_same = v.brk_same ∙ w.brk_same;
  check_same = v.check_same ∙ w.check_same;
}

-- An access that lies in the emulated heap.
pub record InSparseHeap (s : Sparse) (addr len : ℕ) : Type 0 where
  pub start : sparse_heap_start ≤ s.heap
  pub low : s.heap ≤ addr
  pub high : addr + len ≤ s.mem_brk

pub in_sparse_heap-true :
    (s : Sparse) (addr len : ℕ) → InSparseHeap s addr len → in_sparse_heap addr len s ≡ true
unfolding in_sparse_heap
in_sparse_heap-true s addr len h = ground arith

-- The high part of an access that crosses a page boundary begins at the start of a page.
pub boundary :
    (addr len : ℕ)
    → len ≤ 8
    → sparse_heap_start ≤ addr
    → page_size - page_offset addr < len
    → page_offset (addr + (page_size - page_offset addr)) + (len - (page_size - page_offset addr))
      ≤ page_size
unfolding page_offset
boundary addr len short start over = omega arith

-- Where two pages are left, mem_write of at most 8 bytes in the emulated heap ends without fault,
-- also where it crosses a page boundary: each byte of the value is the cell of its address, and
-- every other cell is as before.
pub sparse_write-Wrote :
    (s : Sparse) (addr val len : ℕ)
    → InUse s
    → 2 ≤ s.num_free_pages
    → len ≤ 8
    → InSparseHeap s addr len
    → (t : Sparse) × (sparse_write addr val len s ≡ ok tt t) × Wrote s addr len val t
unfolding sparse_write put
sparse_write-Wrote s addr val len used left short h =
    let o = page_offset addr in
    let l = page_size - o in
    let lt = page_offset-lt addr in
    let (p, t, run, got) = get_page-Got s (page_id addr) used (omega arith) in
    let start : sparse_heap_start ≤ addr = omega (arith, h.start, h.low) in
    elim (Bool-cases (ltb l len)) [
      | inl split ↦
          let over : l < len = ground arith in
          let u = after_put t p o len l val in
          let first =
            after_put-Wrote t p addr len l val got.in_use got.found (omega arith) (omega arith)
              (inr (omega arith)) start in
          let (q, v, run', got') =
            get_page-Got u (page_id (addr + l)) got.in_use (omega (arith, got.room)) in
          let second =
            after_put-Wrote v q (addr + l) (len - l) (len - l) (bytes_from l val) got'.in_use
              got'.found (omega arith) (boundary addr len short start over) (inl refl)
              (omega arith) in
          (
            after_put v q (page_offset (addr + l)) (len - l) (len - l) (bytes_from l val),
            rw
                (
                  in_sparse_heap-true s addr len h,
                  get_mem-marked s t addr len p run,
                  split,
                  get_mem-marked u v (addr + l) (len - l) q run',
                )
                refl,
            Wrote-halves s u _ addr l len val start (omega arith)
                (Wrote-Got s t u (page_id addr) p addr l val got first)
                (Wrote-Got u v _ (page_id (addr + l)) q (addr + l) (len - l) (bytes_from l val) got'
                  second),
          )
      | inr whole ↦
          let fits : len ≤ l = ground arith in
          let only =
            after_put-Wrote t p addr len len val got.in_use got.found (omega arith) (omega arith)
              (inl refl) start in
          (
            after_put t p o len len val,
            rw (in_sparse_heap-true s addr len h, get_mem-marked s t addr len p run, whole) refl,
            Wrote-Got s t _ (page_id addr) p addr len val got only,
          )
    ]
