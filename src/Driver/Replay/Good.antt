-- ===== src/Driver/Replay/Good.antt =====
-- What each request of a trace shows of the allocator when eval_mm_valid has let it pass.
use malloc_implementation.Base.{
  ◌≤◌, ℕ, ◌+◌, ◌-◌, ◌<◌, ◌≡◌, ◌≢◌, ◌↔◌, refl, sym, ap, ◌∙◌, true, false, ◌==◌, ltb, if◌then◌else◌,
  Option, none, some, ne_of_==,
}
use malloc_implementation.Base.Word.{word_mod}
use malloc_implementation.Machine.{Machine, done, ◌>>=◌}
use malloc_implementation.Machine.Ended.{continue_ended, guard_ended, same_value}
use malloc_implementation.MemLib.{mem_heap_lo, mem_heap_hi}
use malloc_implementation.Driver.Ranges.{RangeSet, is_none, null, remove_range}
use malloc_implementation.Driver.Ranges.Accepted.{Acceptable}
use malloc_implementation.Driver.Payload.{Blocks, check_index}
use malloc_implementation.Driver.Payload.Intact.{Intact}
use malloc_implementation.Driver.Payload.Ended.{check_index_ended}
use malloc_implementation.Driver.Replay.{
  Env, Replay, TraceOp, alloc, free, realloc, set_block, set_block_size, checked_range,
  alloc_filled, replay_alloc, replay_free,
}
use malloc_implementation.Driver.Replay.Parts.{
  some_injective, and-true, checked_range-Acceptable, fill_block_ended,
}

-- The payload lies in the heap, aligned, and clear of the nearest range of the set below it and of the
-- one behind that.
abbrev pub Apart : RangeSet → (p size : ℕ) → Machine → Type 0
Apart r p size h =
    p + size ≤ word_mod
    → Acceptable (mem_heap_lo h.region) (mem_heap_hi h.region) r p (p + size - 1)

-- The arrays in which the payload at `p` has as many bytes as a reallocation has to keep.
unfoldable pub kept_part : (index size p : ℕ) → Blocks → Blocks
unfolding set_block set_block_size
kept_part index size p t =
    let t' = set_block index p t in
    if ltb size (t'.block_sizes index) then set_block_size index size t' else t'

-- malloc gives a payload that is apart from the live ones. free and realloc find the old payload
-- intact. realloc gives NULL for the size 0 alone, else a payload apart from the other ones, and it has
-- kept the contents up to the smaller size.
abbrev pub Good : Env → TraceOp → Replay → Machine → Type 0
Good e (alloc index size) s h =
    (p : ℕ) × (g : Machine) × (e.allocator.mm_malloc size h ≡ done p g)
    × (p ≢ null)
    × Apart s.ranges p size g
Good e (free none) s h = Unit
Good e (free (some index)) s h = Intact e.settings s.trace index h.bytes
Good e (realloc index size) s h =
    Intact e.settings s.trace index h.bytes
    × ((p : ℕ) × (g : Machine) × (e.allocator.mm_realloc (s.trace.blocks index) size h ≡ done p g)
        × ((p ≡ null) ↔ (size ≡ 0))
        × (0 < size → Apart (remove_range s.ranges (s.trace.blocks index)) p size g)
        × Intact e.settings (kept_part index size p s.trace) index g.bytes)

alloc_filled_ended :
    (e : Env) (i index size p : ℕ) (s s' : Replay) (r : Option RangeSet) (h g : Machine)
    → alloc_filled e i index size p s r h ≡ done (some s') g
    → (r' : RangeSet) × (r ≡ some r') × (s'.all_check ≡ s.all_check)
unfolding alloc_filled
alloc_filled_ended e i index size p s s' none h g run = absurd cc
alloc_filled_ended e i index size p s s' (some r) h g run =
    (r, refl, fill_block_ended e i index size r s.all_check (set_block index p s.trace) s' h g run)

module _ (e : Env) (on : is_none e.settings.mode ≡ false) where
  pub replay_alloc-Good :
      (i index size : ℕ) (s s' : Replay) (h g : Machine)
      → replay_alloc e i index size s h ≡ done (some s') g
      → s'.all_check ≡ true
      → Good e (alloc index size) s h × (s.all_check ≡ true)
  unfolding replay_alloc
  replay_alloc-Good i index size s s' h g run ok =
      let (p, k, given, rest) = continue_ended (e.allocator.mm_malloc size h) _ _ _ run in
      let (present, rest') =
        guard_ended (p == null) none
          (do r ← checked_range e i s.ranges p size index; alloc_filled e i index size p s r)
          (some s') k g (λ z. cc) rest in
      let (r, k', added, filled) =
        continue_ended (checked_range e i s.ranges p size index k) _ _ _ rest' in
      let (r', is_some, same) = alloc_filled_ended e i index size p s s' r k' g filled in
      let (positive, apart, kept) =
        checked_range-Acceptable e on i s.ranges r' p size index k k'
          (added ∙ ap (λ q. done q k') is_some) in
      ((p, k, given, ne_of_== p null present, apart), sym same ∙ ok)

  pub replay_free-Good :
      (i : ℕ) (index : Option ℕ) (s s' : Replay) (h g : Machine)
      → replay_free e index s h ≡ done (some s') g
      → s'.all_check ≡ true
      → Good e (free index) s h × (s.all_check ≡ true)
  unfolding replay_free
  replay_free-Good i none s s' h g run ok =
      let (t, k, freed, rest) = continue_ended (e.allocator.mm_free null h) _ _ _ run in
      (tt, ap {A = Replay} (λ q. q.all_check) (some_injective (same_value rest)) ∙ ok)
  replay_free-Good i (some index) s s' h g run ok =
      let (b, k, checked, rest) =
        continue_ended (check_index e.settings s.trace index h) _ _ _ run in
      let (t, k', freed, last) =
        continue_ended (e.allocator.mm_free (s.trace.blocks index) k) _ _ _ rest in
      let (before, intact) =
        and-true s.all_check b
          (ap {A = Replay} (λ q. q.all_check) (some_injective (same_value last)) ∙ ok) in
      ((check_index_ended e.settings s.trace index b h k on checked).1 intact, before)
