-- ===== src/Driver/Replay/Parts.antt =====
-- What the parts of eval_mm_valid that have ended say of the payloads.
use malloc_implementation.Base.{
  ◌≤◌, ℕ, zero, suc, ◌+◌, ◌-◌, ◌<◌, ◌≡◌, ◌≢◌, inl, inr, refl, sym, ap, ◌∙◌, arith, Bool, true,
  false, not, ◌&&◌, ◌==◌, Option, none, some,
}
use malloc_implementation.Base.Word.{word_mod}
use malloc_implementation.Machine.{Machine, done, pure, ◌>>=◌}
use malloc_implementation.Machine.Ended.{
  continue_ended, guard_ended, if_ended, same_value, same_machine,
}
use malloc_implementation.MemLib.{mem_heap_lo, mem_heap_hi}
use malloc_implementation.Driver.Ranges.{RangeSet, is_none, null, add_range}
use malloc_implementation.Driver.Ranges.Accepted.{Acceptable, add_range-Acceptable}
use malloc_implementation.Driver.Payload.{Blocks, randomize_block, check_index}
use malloc_implementation.Driver.Replay.{
  Env, Replay, is_expensive, keep_range, checked_range, check_ranges, check_heap, fill_block,
  set_block_size,
}

pub some_injective : {A : Type 0} {a b : A} → some a ≡ some b → a ≡ b
some_injective e = cc

pub and-true : (a b : Bool) → a && b ≡ true → (a ≡ true) × (b ≡ true)
and-true true b e = (refl, e)
and-true false b e = absurd cc

pub not-false : (b : Bool) → not b ≡ false → b ≡ true
not-false true e = refl
not-false false e = absurd cc

keep_range_ended :
    (x : Option (Bool × RangeSet)) (r' : RangeSet) (h g : Machine)
    → keep_range x h ≡ done (some r') g
    → (b : Bool) × (r : RangeSet) × (x ≡ some (b, r)) × (b ≡ true) × (h ≡ g)
unfolding keep_range
keep_range_ended none r' h g e = absurd cc
keep_range_ended (some (true, r)) r' h g e = (true, r, refl, refl, same_machine e)
keep_range_ended (some (false, r)) r' h g e = absurd cc

keep_range-none :
    (x : Option (Bool × RangeSet)) (r' : RangeSet) (h g : Machine)
    → x ≡ none
    → keep_range x h ≢ done (some r') g
unfolding keep_range
keep_range-none none r' h g e run = cc
keep_range-none (some x) r' h g e run = cc

module _ (e : Env) (on : is_none e.settings.mode ≡ false) where
  pub checked_range-Acceptable :
      (i : ℕ) (r r' : RangeSet) (lo size index : ℕ) (h g : Machine)
      → checked_range e i r lo size index h ≡ done (some r') g
      → (0 < size)
        × (lo + size ≤ word_mod
            → Acceptable (mem_heap_lo h.region) (mem_heap_hi h.region) r lo (lo + size - 1))
        × (h ≡ g)
  unfolding checked_range add_range
  checked_range-Acceptable i r r' lo zero index h g run = absurd (
      keep_range-none
        (add_range e.settings.mode (mem_heap_lo h.region) (mem_heap_hi h.region) (e.record_of i) r
          lo 0 index)
        r' h g refl run)
  checked_range-Acceptable i r r' lo (suc size) index h g run =
      let (b, r'', kept, taken, same) =
        keep_range_ended
          (add_range e.settings.mode (mem_heap_lo h.region) (mem_heap_hi h.region) (e.record_of i) r
            lo (suc size) index)
          r' h g run in
      (
        omega arith,
        (λ fits.
            let (b', set, added, decides, rest) =
              add_range-Acceptable e.settings.mode (mem_heap_lo h.region) (mem_heap_hi h.region)
                (e.record_of i) r lo (suc size) index on (omega arith) fits in
            decides.0 (ap (λ x. x.0) (some_injective (sym added ∙ kept)) ∙ taken)),
        same,
      )

pub fill_block_ended :
    (e : Env) (i index size : ℕ) (ranges : RangeSet) (ok : Bool) (t : Blocks) (s' : Replay)
    (h g : Machine)
    → fill_block e i index size ranges ok t h ≡ done (some s') g
    → s'.all_check ≡ ok
unfolding fill_block
fill_block_ended e i index size ranges ok t s' h g run =
    let (t', h', filled, rest) =
      continue_ended
        (randomize_block e.settings (e.random_of i) (set_block_size index size t) index h) _ _ _
        run in
    sym (ap (λ s. s.all_check) (some_injective (same_value rest)))

-- The test of the live payloads clears all_check or keeps it.
check_ranges_ended :
    (e : Env) (fuel r : ℕ) (s s' : Replay) (h g : Machine)
    → check_ranges e fuel r s h ≡ done s' g
    → s'.all_check ≡ true
    → s.all_check ≡ true
unfolding check_ranges
check_ranges_ended e zero r s s' h g run ok = absurd cc
check_ranges_ended e (suc fuel) r s s' h g run ok = elim (if_ended (r == null) _ _ s' h g run) [
  | inl t ↦ ap {A = Replay} (λ q. q.all_check) (same_value (t.1)) ∙ ok
  | inr f ↦
      let (b, h', checked, rest) =
        continue_ended (check_index e.settings s.trace (s.ranges.cells r).index h) _ _ _ (f.1) in
      (and-true s.all_check b
        (check_ranges_ended e fuel (s.ranges.cells r).next _ s' h' g rest ok)).0
]

-- The test before a request: in expensive mode the allocator's own checker has accepted the heap.
pub check_heap_ended :
    (e : Env) (fuel : ℕ) (s s' : Replay) (h g : Machine)
    → check_heap e fuel s h ≡ done (some s') g
    → (is_expensive e.settings.mode ≡ true
        → (k : Machine) × (e.allocator.mm_checkheap 0 h ≡ done true k))
      × (s'.all_check ≡ true → s.all_check ≡ true)
unfolding check_heap
check_heap_ended e fuel s s' h g run =
    elim (if_ended (is_expensive e.settings.mode) _ _ (some s') h g run) [
      | inl t ↦
          let (b, h', checked, rest) = continue_ended (e.allocator.mm_checkheap 0 h) _ _ _ (t.1) in
          let (accepted, rest') =
            guard_ended (not b) none (do q ← check_ranges e fuel s.ranges.list s; pure (some q))
              (some s') h' g (λ z. cc) rest in
          let (q, h'', walked, last) =
            continue_ended (check_ranges e fuel s.ranges.list s h') _ _ _ rest' in
          let same : q ≡ s' = some_injective (same_value last) in
          (
            (λ mode. (h', checked ∙ ap (λ a. done a h') (not-false b accepted))),
            λ ok.
                check_ranges_ended e fuel s.ranges.list s q h' h'' walked
                  (ap {A = Replay} (λ q. q.all_check) same ∙ ok),
          )
      | inr f ↦ (
        (λ mode. absurd cc),
        λ ok. ap {A = Replay} (λ q. q.all_check) (some_injective (same_value (f.1))) ∙ ok,
      )
    ]
