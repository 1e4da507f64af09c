-- ===== src/MemLib/Sparse/Dense.antt =====
-- The emulated heap against a memory of bytes, as dense mode has it.
use native.Mathlib.Decide.{dec_lt}
use malloc_implementation.Base.{
  ℕ, ◌+◌, ◌-◌, ◌^◌, ◌≤◌, ◌<◌, ◌≡◌, inl, inr, refl, sym, ◌∙◌, ap, arith, some,
}
use malloc_implementation.Memory.{Bytes, write_le}
use malloc_implementation.Memory.Words.{read_le-write_le, write_le-outside}
use malloc_implementation.Memory.Copy.{write_le-byte}
use malloc_implementation.MemLib.{sparse_heap_start}
use malloc_implementation.MemLib.Sparse.{Sparse, ok, sparse_read, sparse_write}
use malloc_implementation.MemLib.Sparse.Pages.{cell, InUse}
use malloc_implementation.MemLib.Sparse.Put.{Wrote}
use malloc_implementation.MemLib.Sparse.Stored.{InSparseHeap, sparse_write-Wrote}
use malloc_implementation.MemLib.Sparse.Loaded.{Holds, sparse_read-Holds}

-- Every byte that has been written is the byte of the memory.
abbrev pub Agrees : Sparse → Bytes → Type 0
Agrees s m = (a v : ℕ) → sparse_heap_start ≤ a → cell s a ≡ some v → m a ≡ v

Wrote-Holds :
    (s t : Sparse) (addr len val : ℕ) (m : Bytes)
    → Wrote s addr len val t
    → Holds t addr len (write_le len m addr val)
Wrote-Holds s t addr len val m w i lt =
    w.written i lt ∙ ap some (sym (write_le-byte len m addr val i lt))

Wrote-Agrees :
    (s t : Sparse) (addr len val : ℕ) (m : Bytes)
    → Wrote s addr len val t
    → Agrees s m
    → Agrees t (write_le len m addr val)
Wrote-Agrees s t addr len val m w agrees a v start e = elim (dec_lt a addr) [
  | yes before ↦
      write_le-outside len m addr val a (inl before)
      ∙ agrees a v start (sym (w.kept a start (inl before)) ∙ e)
  | no after ↦ elim (dec_lt a (addr + len)) [
    | yes inside ↦
        let place : addr + (a - addr) ≡ a = omega arith in
        let held = Wrote-Holds s t addr len val m w (a - addr) (omega arith) in
        let held' : cell t a ≡ some (write_le len m addr val a) = rw place at held in
        (let e' : some (write_le len m addr val a) ≡ some v = sym held' ∙ e in cc)
    | no behind ↦
        write_le-outside len m addr val a (inr (omega arith))
        ∙ agrees a v start (sym (w.kept a start (inr (omega arith))) ∙ e)
  ]
]

-- Where two pages are left and the cells agree with a memory, mem_write of at most 8 bytes of the
-- emulated heap ends without fault, and the cells agree with the memory after the same write.
pub sparse_write-Agrees :
    (s : Sparse) (m : Bytes) (addr val len : ℕ)
    → InUse s
    → 2 ≤ s.num_free_pages
    → len ≤ 8
    → InSparseHeap s addr len
    → Agrees s m
    → (t : Sparse) × (sparse_write addr val len s ≡ ok tt t)
      × InUse t
      × Agrees t (write_le len m addr val)
sparse_write-Agrees s m addr val len used left short h agrees =
    let (t, run, w) = sparse_write-Wrote s addr val len used left short h in
    (t, run, w.in_use, Wrote-Agrees s t addr len val m w agrees)

-- A value of 1 to 8 bytes that mem_write has put into the emulated heap, where two pages were left
-- for it, is what mem_read gives back, and the read changes nothing.
pub sparse_read-sparse_write :
    (s : Sparse) (addr val len : ℕ)
    → InUse s
    → 2 ≤ s.num_free_pages
    → 0 < len
    → len ≤ 8
    → val < 256 ^ len
    → InSparseHeap s addr len
    → (t : Sparse) × (sparse_write addr val len s ≡ ok tt t) × (sparse_read addr len t ≡ ok val t)
sparse_read-sparse_write s addr val len used left pos short fits h =
    let (t, run, w) = sparse_write-Wrote s addr val len used left short h in
    let h' : InSparseHeap t addr len = record {
      start = omega (arith, w.heap_same, h.start);
      low = omega (arith, w.heap_same, h.low);
      high = omega (arith, w.brk_same, h.high);
    } in
    let m : Bytes = λ a. 0 in
    let read =
      sparse_read-Holds t addr len (write_le len m addr val) pos short h'
        (Wrote-Holds s t addr len val m w) in
    (t, run, read ∙ rw (read_le-write_le len m addr val fits) refl)
