-- ===== src/Driver/Payload/Ended.antt =====
-- What a run of check_index that has ended says of the payload.
use malloc_implementation.Base.{
  ℕ, zero, suc, ◌+◌, ◌%◌, ◌≤◌, ◌≡◌, inl, inr, refl, sym, ◌∙◌, arith, Bool, true, false, Bool-cases,
  ◌==◌, eq_of_==, ne_of_==, subst,
}
use malloc_implementation.Machine.{Machine, done, continue, pure}
use malloc_implementation.Machine.Ended.{continue_ended, mem_read_ended, same_value, same_machine}
use malloc_implementation.Driver.Ranges.{is_none}
use malloc_implementation.Driver.Payload.{
  Blocks, Settings, random_byte, filled_size, garbled_loop, check_index,
}
use malloc_implementation.Driver.Payload.Intact.{IntactFrom, Intact, Filled-Intact, read_le-byte}

garbled_loop_ended :
    (s : Settings) (rounds i block base garbled count : ℕ) (h g : Machine)
    → garbled_loop s rounds i block base garbled h ≡ done count g
    → (h ≡ g) × (garbled ≤ count) × (count ≡ garbled → IntactFrom s i rounds block base h.bytes)
unfolding garbled_loop
garbled_loop_ended s zero i block base garbled count h g e =
    (same_machine e, omega (arith, same_value e), λ _ k l u. absurd (omega arith))
garbled_loop_ended s (suc rounds) i block base garbled count h g e =
    let (byte, h', read, rest) = continue_ended _ _ _ _ e in
    let (value, kept) = mem_read_ended _ _ _ _ _ read in
    let byte_is = value ∙ read_le-byte h.bytes (block + i) in
    let (kept', more, sound) = garbled_loop_ended s rounds (i + 1) block base _ count h' g rest in
    (
      kept ∙ kept',
      ground arith,
      λ e' k l u. elim (Bool-cases (k == i)) [
        | inl same ↦ let at = eq_of_== k i same in ground (arith, at, byte_is)
        | inr other ↦
            let ne = ne_of_== k i other in
            subst (λ m. m.bytes (block + k) % 256 ≡ random_byte s base k) (sym kept)
              (sound (ground arith) k (ground arith) (omega arith))
      ],
    )

check_index-garbled_loop :
    (s : Settings) (t : Blocks) (index : ℕ) (h : Machine)
    → is_none s.mode ≡ false
    → check_index s t index h
      ≡ continue
          (garbled_loop s
            (filled_size s (t.block_sizes index))
            0
            (t.blocks index)
            (t.block_rand_base index)
            0
            h)
          (λ garbled. pure (garbled == 0))
unfolding check_index
check_index-garbled_loop s t index h on = rw on refl

-- Where check_index has ended, it has changed nothing; an answer true means that the payload holds
-- the random bytes of its base.
pub check_index_ended :
    (s : Settings) (t : Blocks) (index : ℕ) (b : Bool) (h g : Machine)
    → is_none s.mode ≡ false
    → check_index s t index h ≡ done b g
    → (h ≡ g) × (b ≡ true → Intact s t index h.bytes)
check_index_ended s t index b h g on e =
    let (count, h', run, rest) =
      continue_ended _ _ _ _ (sym (check_index-garbled_loop s t index h on) ∙ e) in
    let (kept, more, sound) = garbled_loop_ended s _ _ _ _ _ count h h' run in
    (
      kept ∙ same_machine rest,
      λ all. Filled-Intact s t index h.bytes (sound (eq_of_== count 0 (same_value rest ∙ all))),
    )
