-- ===== src/Tests/Emulation.antt =====
-- Accesses of an emulated heap of four kilobytes, across the boundary of its first two pages.
use malloc_implementation.Base.{
  ℕ, zero, suc, ◌+◌, ◌≡◌, refl, arith, true, false, [], ◌∷◌, ◌==◌, if◌then◌else◌,
}
use malloc_implementation.MemLib.{sparse_heap_start}
use malloc_implementation.MemLib.Sparse.{
  Sparse, ok, page_id, page_offset, page_of, sparse_read, sparse_write,
}
use malloc_implementation.MemLib.Sparse.Pages.{cell}
use malloc_implementation.MemLib.Sparse.Stored.{InSparseHeap}
use malloc_implementation.MemLib.Sparse.Loaded.{Holds}
use malloc_implementation.MemLib.Sparse.Dense.{Agrees, sparse_read-sparse_write}

-- Eight pages, of which none is taken.
abbrev empty : Sparse
empty = record {
  heap = sparse_heap_start;
  mem_brk = sparse_heap_start + 4096;
  pages = λ p. record { id = 0; init_set = λ o. false; bytes = λ o. 0 };
  page_table = λ b. [];
  next_free_page = 0;
  num_free_pages = 8;
  num_buckets = 4;
  check_ub = true;
}

-- The first two pages are taken and filled with the byte 7.
abbrev filled : Sparse
filled = record empty {
  pages = λ p. record { id = p; init_set = λ o. true; bytes = λ o. 7 };
  page_table = λ b. if b == 0 then 0 ∷ [] else if b == 1 then 1 ∷ [] else [];
  next_free_page = 2;
  num_free_pages = 6;
}

abbrev near_boundary : ℕ
near_boundary = sparse_heap_start + 1020

empty-InSparseHeap : InSparseHeap empty near_boundary 8
empty-InSparseHeap = record { start = omega arith; low = omega arith; high = omega arith }

filled-InSparseHeap : InSparseHeap filled near_boundary 8
filled-InSparseHeap = record { start = omega arith; low = omega arith; high = omega arith }

filled-Holds : Holds filled near_boundary 8 (λ a. 7)
unfolding cell page_of page_id page_offset
filled-Holds zero lt = refl
filled-Holds (suc zero) lt = refl
filled-Holds (suc (suc zero)) lt = refl
filled-Holds (suc (suc (suc zero))) lt = refl
filled-Holds (suc (suc (suc (suc zero)))) lt = refl
filled-Holds (suc (suc (suc (suc (suc zero))))) lt = refl
filled-Holds (suc (suc (suc (suc (suc (suc zero)))))) lt = refl
filled-Holds (suc (suc (suc (suc (suc (suc (suc zero))))))) lt = refl
filled-Holds (suc (suc (suc (suc (suc (suc (suc (suc i)))))))) lt = absurd (omega arith)

empty-Agrees : Agrees empty (λ a. 0)
unfolding cell page_of
empty-Agrees a v start e = cc

sparse_read-sparse_write_example :
    (t : Sparse) × (sparse_write near_boundary 123456789012 8 empty ≡ ok tt t)
    × (sparse_read near_boundary 8 t ≡ ok 123456789012 t)
sparse_read-sparse_write_example =
    sparse_read-sparse_write empty near_boundary 123456789012 8 (λ b. tt) (omega arith)
      (omega arith) (omega arith) (omega arith) empty-InSparseHeap
