-- ===== src/Driver/Replay/Moved.antt =====
-- What a reallocation shows of the allocator when eval_mm_valid has let it pass.
use malloc_implementation.Base.{
  ℕ, ◌<◌, ◌≡◌, ◌↔◌, inl, inr, refl, sym, ap, ◌∙◌, arith, Bool, true, false, not, ◌&&◌, ◌==◌, ltb,
  if◌then◌else◌, Option, none, some, subst,
}
use malloc_implementation.Machine.{Machine, Cmd, done, pure, ◌>>=◌}
use malloc_implementation.Machine.Ended.{continue_ended, guard_ended, if_ended, same_machine}
use malloc_implementation.Driver.Ranges.{RangeSet, is_none, null, remove_range}
use malloc_implementation.Driver.Payload.{Blocks, check_index}
use malloc_implementation.Driver.Payload.Intact.{Intact}
use malloc_implementation.Driver.Payload.Ended.{check_index_ended}
use malloc_implementation.Driver.Replay.{
  Env, Replay, realloc, checked_range, realloc_filled, replay_realloc,
}
use malloc_implementation.Driver.Replay.Parts.{and-true, checked_range-Acceptable, fill_block_ended}
use malloc_implementation.Driver.Replay.Good.{Good, Apart, kept_part}

module _ (e : Env) (on : is_none e.settings.mode ≡ false) where
  realloc_filled_ended :
      (i index size p : ℕ) (ok : Bool) (t : Blocks) (s' : Replay) (r : Option RangeSet)
      (h g : Machine)
      → realloc_filled e i index size p ok t r h ≡ done (some s') g
      → s'.all_check ≡ true
      → (r' : RangeSet) × (r ≡ some r')
        × (ok ≡ true)
        × Intact e.settings (kept_part index size p t) index h.bytes
  unfolding realloc_filled kept_part
  realloc_filled_ended i index size p ok t s' none h g run all = absurd cc
  realloc_filled_ended i index size p ok t s' (some r) h g run all =
      let (kept, k, checked, rest) =
        continue_ended (check_index e.settings (kept_part index size p t) index h) _ _ _ run in
      let (before, intact) = and-true ok kept (
        sym (fill_block_ended e i index size r (ok && kept) (kept_part index size p t) s' k g rest)
        ∙ all) in
      (
        r,
        refl,
        before,
        (check_index_ended e.settings (kept_part index size p t) index kept h k on checked).1
            intact,
      )

  -- The range of the new payload, where there is one.
  moved_range :
      (i index size p : ℕ) (ranges r : RangeSet) (h g : Machine)
      → (if ltb 0 size then checked_range e i ranges p size index else pure (some ranges)) h
        ≡ done (some r) g
      → (0 < size → Apart ranges p size h) × (h ≡ g)
  moved_range i index size p ranges r h g run = elim (if_ended (ltb 0 size) _ _ (some r) h g run) [
    | inl t ↦
        let (positive, apart, same) =
          checked_range-Acceptable e on i ranges r p size index h g (t.1) in
        ((λ q. apart), same)
    | inr f ↦ ((λ q. absurd (ground (arith, f.0))), same_machine (f.1))
  ]

  null_iff :
      (p size : ℕ)
      → p == null && not (size == 0) ≡ false
      → not (p == null) && size == 0 ≡ false
      → (p ≡ null) ↔ (size ≡ 0)
  null_iff p size a b = (λ e'. ground arith, λ e'. ground arith)

  pub replay_realloc-Good :
      (i index size : ℕ) (s s' : Replay) (h g : Machine)
      → replay_realloc e i index size s h ≡ done (some s') g
      → s'.all_check ≡ true
      → Good e (realloc index size) s h × (s.all_check ≡ true)
  unfolding replay_realloc
  replay_realloc-Good i index size s s' h g run ok =
      let old = s.trace.blocks index in
      let ranges = remove_range s.ranges old in
      let (b, k, checked, moved) =
        continue_ended (check_index e.settings s.trace index h) _ _ _ run in
      let (p, l, given, rest) = continue_ended (e.allocator.mm_realloc old size k) _ _ _ moved in
      let last : Cmd (Option Replay) = (do
        r ← if ltb 0 size then checked_range e i ranges p size index else pure (some ranges)
        realloc_filled e i index size p (s.all_check && b) s.trace r) in
      let (no_null, rest') =
        guard_ended (p == null && not (size == 0)) none
          (if not (p == null) && size == 0 then pure none else last) (some s') l g (λ z. cc) rest in
      let (no_payload, rest'') =
        guard_ended (not (p == null) && size == 0) none last (some s') l g (λ z. cc) rest' in
      let (r, l', added, filled) =
        continue_ended
          ((if ltb 0 size then checked_range e i ranges p size index else pure (some ranges)) l) _ _
          _ rest'' in
      let (r', is_some, before, intact) =
        realloc_filled_ended i index size p (s.all_check && b) s.trace s' r l' g filled ok in
      let (apart, same) =
        moved_range i index size p ranges r' l l' (added ∙ ap (λ q. done q l') is_some) in
      let (all, old_ok) = and-true s.all_check b before in
      let (unchanged, old_intact) = check_index_ended e.settings s.trace index b h k on checked in
      (
        (
          old_intact old_ok,
          (
            p,
            l,
            ap (e.allocator.mm_realloc old size) unchanged ∙ given,
            null_iff p size no_null no_payload,
            apart,
            subst (λ m. Intact e.settings (kept_part index size p s.trace) index m.bytes) (sym same)
                intact,
          ),
        ),
        all,
      )
