-- ===== src/Driver/Speed.antt =====
-- mdriver.c: eval_mm_speed, eval_libc_valid and eval_libc_speed, which replay a trace with no check
-- but that of a NULL result. The C library's allocator is a record of functions as well.
pub mod Agrees
use malloc_implementation.Base.{
  ℕ, Bool, true, not, ◌&&◌, Option, none, some, List, [], ◌∷◌, ◌==◌, if◌then◌else◌,
}
use malloc_implementation.Machine.{Cmd, fault, pure, ◌>>=◌, ◌>>◌}
use malloc_implementation.Driver.Ranges.{null}
use malloc_implementation.Driver.Payload.{Blocks}
use malloc_implementation.Driver.Replay.{
  Allocator, TraceOp, alloc, free, realloc, reinit_trace, reset_brk, set_block,
}

-- One request; app_error and unix_error are faults.
unfoldable pub speed_op : Allocator → TraceOp → Blocks → Cmd Blocks
unfolding set_block
speed_op a (alloc index size) t = do
  p ← a.mm_malloc size
  if p == null then (λ h. fault) else pure (set_block index p t)
speed_op a (realloc index size) t = do
  p ← a.mm_realloc (t.blocks index) size
  if p == null && not (size == 0) then (λ h. fault) else pure (set_block index p t)
speed_op a (free none) t = do a.mm_free null; pure t
speed_op a (free (some index)) t = do a.mm_free (t.blocks index); pure t

unfoldable pub speed_ops : Allocator → List TraceOp → Blocks → Cmd (Unit {0})
unfolding speed_op
speed_ops a [] t = pure tt
speed_ops a (op ∷ ops) t = do t' ← speed_op a op t; speed_ops a ops t'

unfoldable pub eval_mm_speed : Allocator → List TraceOp → Blocks → Cmd (Unit {0})
unfolding reinit_trace reset_brk speed_ops
eval_mm_speed a ops t = do
  reset_brk
  ok ← a.mm_init
  if not ok then (λ h. fault) else speed_ops a ops (reinit_trace t)

-- The calls of malloc, realloc and free are those of `libc`.
unfoldable pub eval_libc_speed : Allocator → List TraceOp → Blocks → Cmd (Unit {0})
unfolding reinit_trace speed_ops
eval_libc_speed libc ops t = speed_ops libc ops (reinit_trace t)

unfoldable pub eval_libc_valid : Allocator → List TraceOp → Blocks → Cmd Bool
unfolding reinit_trace speed_ops
eval_libc_valid libc ops t = do speed_ops libc ops (reinit_trace t); pure true
