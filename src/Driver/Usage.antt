-- ===== src/Driver/Usage.antt =====
-- mdriver.c: eval_mm_util, which measures the peak of the live payload bytes against the size of
-- the heap. The ratio, a double in the code, is left as the pair of its two numbers.
use malloc_implementation.Base.{ℕ, not, ◌&&◌, none, some, List, [], ◌∷◌, ltb, ◌==◌, if◌then◌else◌}
use malloc_implementation.Base.Word.{add64, sub64}
use malloc_implementation.Machine.{Cmd, done, fault, pure, ◌>>=◌, ◌>>◌}
use malloc_implementation.MemLib.{mem_heapsize}
use malloc_implementation.Driver.Ranges.{null}
use malloc_implementation.Driver.Payload.{Blocks}
use malloc_implementation.Driver.Replay.{
  Allocator, TraceOp, alloc, free, realloc, reinit_trace, reset_brk, set_block, set_block_size,
}

-- The trace's arrays and `total_size` after a request; app_error is a fault.
unfoldable pub util_op : Allocator → TraceOp → Blocks → ℕ → Cmd (Blocks × ℕ)
unfolding set_block set_block_size
util_op a (alloc index size) t total = do
  p ← a.mm_malloc size
  if p == null
      then (λ h. fault)
      else pure (set_block_size index size (set_block index p t), add64 total size)
util_op a (realloc index size) t total = do
  p ← a.mm_realloc (t.blocks index) size
  if p == null && not (size == 0)
      then (λ h. fault)
      else pure (
        set_block_size index size (set_block index p t),
        add64 total (sub64 size (t.block_sizes index)),
      )
util_op a (free none) t total = do a.mm_free null; pure (t, total)
util_op a (free (some index)) t total = do
  a.mm_free (t.blocks index)
  pure (t, sub64 total (t.block_sizes index))

-- The loop over the requests, with `total_size` and `max_total_size`.
unfoldable pub util_ops : Allocator → List TraceOp → Blocks → (total max_total : ℕ) → Cmd ℕ
unfolding util_op
util_ops a [] t total max_total = pure max_total
util_ops a (op ∷ ops) t total max_total = do
  after ← util_op a op t total
  util_ops a ops after.0 after.1 (if ltb max_total after.1 then after.1 else max_total)

unfoldable pub heap_size : Cmd ℕ
unfolding mem_heapsize
heap_size h = done (mem_heapsize h.region) h

unfoldable pub eval_mm_util : Allocator → List TraceOp → Blocks → Cmd (ℕ × ℕ)
unfolding reinit_trace reset_brk util_ops heap_size
eval_mm_util a ops t = do
  reset_brk
  ok ← a.mm_init
  if not ok
      then (λ h. fault)
      else (do peak ← util_ops a ops (reinit_trace t) 0 0; size ← heap_size; pure (peak, size))
