-- ===== src/Driver/Replay/Passed.antt =====
-- eval_mm_valid passes only runs of an allocator in which each request goes well.
use malloc_implementation.Base.{ℕ, suc, ◌≡◌, true, some, List, [], ◌∷◌}
use malloc_implementation.Machine.{Machine, done}
use malloc_implementation.Driver.Ranges.{RangeSet}
use malloc_implementation.Driver.Payload.{Blocks}
use malloc_implementation.Driver.Replay.{
  Env, Replay, TraceOp, is_expensive, check_heap, replay_op, reinit_trace,
}
use malloc_implementation.Driver.Replay.Good.{Good}

-- One request that goes well: the state after the test before it, and what it shows.
pub record Passed (e : Env) (i : ℕ) (op : TraceOp) (s s' : Replay) (h h' : Machine) : Type 0 where
  pub tested : Replay
  pub between : Machine
  pub test : check_heap e (suc i) s h ≡ done (some tested) between
  pub run : replay_op e i op tested between ≡ done (some s') h'
  pub good : Good e op tested between
  pub consistent :
      is_expensive e.settings.mode ≡ true
      → (k : Machine) × (e.allocator.mm_checkheap 0 h ≡ done true k)

-- All requests from the `i`-th on go well, and the last machine is `k`.
abbrev pub AllPassed : Env → ℕ → List TraceOp → Replay → (h k : Machine) → Type 0
AllPassed e i [] s h k = (s.all_check ≡ true) × (h ≡ k)
AllPassed e i (op ∷ ops) s h k =
    (s' : Replay) × (h' : Machine) × Passed e i op s s' h h' × AllPassed e (suc i) ops s' h' k

-- The variables of eval_mm_valid before the first request.
abbrev pub start : Blocks → RangeSet → Replay
unfolding reinit_trace
start t ranges = record { trace = reinit_trace t; ranges = ranges; all_check = true }
