-- ===== src/Machine/Ended.antt =====
-- What a run that has ended with a value says of its parts.
use malloc_implementation.Base.{
  ℕ, ◌≡◌, ◌≢◌, ◌⊎◌, refl, sym, inl, inr, Bool, true, false, Bool-cases, if◌then◌else◌,
}
use malloc_implementation.Memory.{read_le}
use malloc_implementation.Machine.{
  Machine, Run, done, fault, out_of_fuel, Cmd, continue, in_heap, mem_read, pure,
}

module _ {A : Type 0} where
  pub same_value : {a b : A} {h g : Machine} → done a h ≡ done b g → a ≡ b
  same_value e = cc

  pub same_machine : {a b : A} {h g : Machine} → done a h ≡ done b g → h ≡ g
  same_machine e = cc

-- A sequence that has ended consists of a first part and a second part that have.
pub continue_ended :
    {A B : Type 0} (r : Run A) (k : A → Cmd B) (b : B) (h : Machine)
    → continue r k ≡ done b h
    → (a : A) × (g : Machine) × (r ≡ done a g) × (k a g ≡ done b h)
continue_ended (done a g) k b h e = (a, g, refl, e)
continue_ended fault k b h e = absurd cc
continue_ended out_of_fuel k b h e = absurd cc

pub mem_read_ended :
    (a len v : ℕ) (h g : Machine)
    → mem_read a len h ≡ done v g
    → (v ≡ read_le len h.bytes a) × (h ≡ g)
unfolding mem_read
mem_read_ended a len v h g e = elim (Bool-cases (in_heap len a h)) [
  | inl t ↦
      let run : done (read_le len h.bytes a) h ≡ done v g = cc in
      (sym (same_value run), same_machine run)
  | inr f ↦ absurd cc
]

-- A run that has not ended in the value of the first branch has taken the second.
pub guard_ended :
    {A : Type 0} (b : Bool) (c : A) (k : Cmd A) (a : A) (h g : Machine)
    → c ≢ a
    → (if b then pure c else k) h ≡ done a g
    → (b ≡ false) × (k h ≡ done a g)
guard_ended true c k a h g ne e = absurd (ne (same_value e))
guard_ended false c k a h g ne e = (refl, e)

-- A run of a test has taken one of its branches.
pub if_ended :
    {A : Type 0} (b : Bool) (x y : Cmd A) (a : A) (h g : Machine)
    → (if b then x else y) h ≡ done a g
    → ((b ≡ true) × (x h ≡ done a g)) ⊎ ((b ≡ false) × (y h ≡ done a g))
if_ended true x y a h g e = inl (refl, e)
if_ended false x y a h g e = inr (refl, e)
