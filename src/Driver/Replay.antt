-- ===== src/Driver/Replay.antt =====
-- mdriver.c: eval_mm_valid, the checked replay of a trace on an allocator. The allocator
-- is a record of its five entry points. An operation that ends the process (a failed assertion,
-- app_error) is a fault. The count of errors and the messages are left out.
pub mod Parts
pub mod Good
pub mod Moved
pub mod Passed
use malloc_implementation.Base.{
  ℕ, zero, suc, Bool, true, false, not, ◌&&◌, Option, none, some, List, [], ◌∷◌, ltb, ◌==◌,
  if◌then◌else◌, update,
}
use malloc_implementation.Machine.{Cmd, done, fault, out_of_fuel, pure, ◌>>=◌, ◌>>◌}
use malloc_implementation.MemLib.{mem_heap_lo, mem_heap_hi, mem_reset_brk}
use malloc_implementation.Driver.Ranges.{
  DebugMode, dbg_expensive, RangeSet, null, add_range, remove_range,
}
use malloc_implementation.Driver.Payload.{Settings, Blocks, randomize_block, check_index}

-- mm.h
pub record Allocator : Type 0 where
  pub mm_init : Cmd Bool
  pub mm_malloc : ℕ → Cmd ℕ
  pub mm_free : ℕ → Cmd (Unit {0})
  pub mm_realloc : ℕ → ℕ → Cmd ℕ
  pub mm_checkheap : ℕ → Cmd Bool

-- traceop_t; the index -1 of a request to free NULL is `none`. Another index that is negative as an int
-- lies outside of the arrays, where the model has them hold 0.
pub data TraceOp : Type 0 where
  alloc : (index size : ℕ) → TraceOp
  free : Option ℕ → TraceOp
  realloc : (index size : ℕ) → TraceOp

-- What the replay uses besides the trace: the driver's settings, the allocator, and what the C
-- library answers during the i-th request, the address of a new range record and a random number.
pub record Env : Type 0 where
  pub settings : Settings
  pub allocator : Allocator
  pub record_of : ℕ → ℕ
  pub random_of : ℕ → ℕ

-- The variables of eval_mm_valid.
pub record Replay : Type 0 where
  pub trace : Blocks
  pub ranges : RangeSet
  pub all_check : Bool

abbrev pub is_expensive : DebugMode → Bool
is_expensive dbg_expensive = true
is_expensive _ = false

unfoldable pub reinit_trace : Blocks → Blocks
reinit_trace t = record t { blocks = λ _. 0; block_sizes = λ _. 0 }

unfoldable pub reset_brk : Cmd (Unit {0})
unfolding mem_reset_brk
reset_brk h = done tt (record h { region = mem_reset_brk h.region })

-- `trace->blocks[index] = p` and `trace->block_sizes[index] = size`
unfoldable pub set_block : ℕ → ℕ → Blocks → Blocks
set_block index p t = record t { blocks = update t.blocks index p }

unfoldable pub set_block_size : ℕ → ℕ → Blocks → Blocks
set_block_size index size t = record t { block_sizes = update t.block_sizes index size }

unfoldable pub keep_range : Option (Bool × RangeSet) → Cmd (Option RangeSet)
keep_range none = λ h. fault
keep_range (some (true, r)) = pure (some r)
keep_range (some (false, r)) = pure none

-- The call of add_range for a payload that request `i` got.
unfoldable pub checked_range : Env → ℕ → RangeSet → (lo size index : ℕ) → Cmd (Option RangeSet)
unfolding keep_range mem_heap_lo mem_heap_hi add_range
checked_range e i r lo size index h =
    keep_range
      (add_range e.settings.mode (mem_heap_lo h.region) (mem_heap_hi h.region) (e.record_of i) r lo
        size index)
      h

-- The test of every live payload in expensive mode, on fuel.
unfoldable pub check_ranges : Env → ℕ → ℕ → Replay → Cmd Replay
unfolding check_index
check_ranges e zero r s = λ h. out_of_fuel
check_ranges e (suc fuel) r s =
    let again = λ (s' : Replay). check_ranges e fuel (s.ranges.cells r).next s' in
    if r == null then pure s else (do
      ok ← check_index e.settings s.trace (s.ranges.cells r).index
      again (record s { all_check = s.all_check && ok }))

-- The test before each request; `none` when mm_checkheap returns false.
unfoldable pub check_heap : Env → ℕ → Replay → Cmd (Option Replay)
unfolding check_ranges
check_heap e fuel s =
    if is_expensive e.settings.mode
    then (do
      ok ← e.allocator.mm_checkheap 0
      if not ok then pure none else (do s' ← check_ranges e fuel s.ranges.list s; pure (some s')))
    else pure (some s)

-- The end of the requests ALLOC and REALLOC.
unfoldable pub fill_block : Env → ℕ → ℕ → ℕ → RangeSet → Bool → Blocks → Cmd (Option Replay)
unfolding set_block_size randomize_block
fill_block e i index size ranges ok t = do
  t' ← randomize_block e.settings (e.random_of i) (set_block_size index size t) index
  pure (some (record { trace = t'; ranges = ranges; all_check = ok }))

unfoldable pub alloc_filled : Env → ℕ → ℕ → ℕ → ℕ → Replay → Option RangeSet → Cmd (Option Replay)
unfolding fill_block set_block
alloc_filled e i index size p s none = pure none
alloc_filled e i index size p s (some r) =
    fill_block e i index size r s.all_check (set_block index p s.trace)

unfoldable pub replay_alloc : Env → ℕ → ℕ → ℕ → Replay → Cmd (Option Replay)
unfolding checked_range alloc_filled
replay_alloc e i index size s = do
  p ← e.allocator.mm_malloc size
  if p == null
      then pure none
      else (do r ← checked_range e i s.ranges p size index; alloc_filled e i index size p s r)

-- The end of REALLOC: the old contents are checked up to the smaller of both sizes.
unfoldable pub realloc_filled :
    Env → ℕ → ℕ → ℕ → ℕ → Bool → Blocks → Option RangeSet → Cmd (Option Replay)
unfolding fill_block set_block set_block_size check_index
realloc_filled e i index size p ok t none = pure none
realloc_filled e i index size p ok t (some r) =
    let t' = set_block index p t in
    let t'' = if ltb size (t'.block_sizes index) then set_block_size index size t' else t' in
    (do kept ← check_index e.settings t'' index; fill_block e i index size r (ok && kept) t'')

unfoldable pub replay_realloc : Env → ℕ → ℕ → ℕ → Replay → Cmd (Option Replay)
unfolding checked_range realloc_filled check_index remove_range
replay_realloc e i index size s = do
  ok ← check_index e.settings s.trace index
  p ← e.allocator.mm_realloc (s.trace.blocks index) size
  if p == null && not (size == 0)
      then pure none
      else if not (p == null) && size == 0
      then pure none
      else (let ranges = remove_range s.ranges (s.trace.blocks index) in
          do
            r ← if ltb 0 size then checked_range e i ranges p size index else pure (some ranges)
            realloc_filled e i index size p (s.all_check && ok) s.trace r)

unfoldable pub replay_free : Env → Option ℕ → Replay → Cmd (Option Replay)
unfolding check_index remove_range
replay_free e none s = do e.allocator.mm_free null; pure (some s)
replay_free e (some index) s = do
  ok ← check_index e.settings s.trace index
  e.allocator.mm_free (s.trace.blocks index)
  pure (
      some (record s {
        ranges = remove_range s.ranges (s.trace.blocks index);
        all_check = s.all_check && ok;
      }))

unfoldable pub replay_op : Env → ℕ → TraceOp → Replay → Cmd (Option Replay)
unfolding replay_alloc replay_realloc replay_free
replay_op e i (alloc index size) s = replay_alloc e i index size s
replay_op e i (realloc index size) s = replay_realloc e i index size s
replay_op e i (free index) s = replay_free e index s

unfoldable pub then_op : (Replay → Cmd (Option Replay)) → Option Replay → Cmd (Option Replay)
then_op k none = pure none
then_op k (some s) = k s

-- The loop from request `i`. No more than `i` payloads are live then.
unfoldable pub replay_ops : Env → ℕ → List TraceOp → Option Replay → Cmd Bool
unfolding check_heap replay_op then_op
replay_ops e i ops none = pure false
replay_ops e i [] (some s) = pure s.all_check
replay_ops e i (op ∷ ops) (some s) = do
  checked ← check_heap e (suc i) s
  s' ← then_op (replay_op e i op) checked
  replay_ops e (suc i) ops s'

unfoldable pub eval_mm_valid : Env → List TraceOp → Blocks → RangeSet → Cmd Bool
unfolding reset_brk reinit_trace replay_ops
eval_mm_valid e ops t ranges = do
  reset_brk
  ok ← e.allocator.mm_init
  if not ok
      then pure false
      else replay_ops e 0 ops
          (some (record { trace = reinit_trace t; ranges = ranges; all_check = true }))
