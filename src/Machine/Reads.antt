-- ===== src/Machine/Reads.antt =====
-- Commands that change nothing, whatever their outcome.
use malloc_implementation.Base.{
  ℕ, ◌≡◌, refl, subst, sym, Bool, true, false, if◌then◌else◌, Bool-cases, inl, inr,
}
use malloc_implementation.Machine.{
  Machine, Run, done, fault, out_of_fuel, Cmd, continue, in_heap, load, get_start, get_seg,
}

-- The run does not end in another machine than `h`.
abbrev pub Same : {A : Type 0} → Machine → Run A → Type 0
Same h (done a g) = g ≡ h
Same h fault = Unit
Same h out_of_fuel = Unit

abbrev pub Reads : {A : Type 0} → Cmd A → Type 0
Reads m = (h : Machine) → Same h (m h)

module _ {A B : Type 0} where
  Same-continue :
      (h : Machine) (r : Run A) (k : A → Cmd B)
      → Same h r
      → ((a : A) → Reads (k a))
      → Same h (continue r k)
  Same-continue h (done a g) k s reads = subst (λ f. Same f (k a g)) s (reads a g)
  Same-continue h fault k s reads = tt
  Same-continue h out_of_fuel k s reads = tt

  pub Reads-bind :
      (m : Cmd A) (k : A → Cmd B)
      → Reads m
      → ((a : A) → Reads (k a))
      → Reads (λ h. continue (m h) k)
  Reads-bind m k r s h = Same-continue h (m h) k (r h) s

pub Reads-pure : {A : Type 0} (a : A) → Reads {A = A} (done a)
Reads-pure a h = refl

pub Reads-if :
    {A : Type 0} (b : Bool) (m n : Cmd A) → Reads m → Reads n → Reads (if b then m else n)
Reads-if true m n r s = r
Reads-if false m n r s = s

pub load-Reads : (a : ℕ) → Reads (load a)
unfolding load
load-Reads a h = elim (Bool-cases (in_heap 8 a h)) [ inl t ↦ rw t refl | inr f ↦ rw f tt ]

pub get_start-Reads : Reads get_start
unfolding get_start
get_start-Reads h = refl

pub get_seg-Reads : (i : ℕ) → Reads (get_seg i)
unfolding get_seg
get_seg-Reads i h = refl

-- The run does not end in a value that the predicate refuses.
abbrev pub Only {ℓ} : {A : Type 0} → (A → Type ℓ) → Run A → Type ℓ
Only P (done a g) = P a
Only P fault = Unit
Only P out_of_fuel = Unit

module _ {A B : Type 0} (P : B → Type 0) where
  Only-continue :
      (h : Machine) (r : Run A) (k : A → Cmd B)
      → Same h r
      → ((a : A) → Only P (k a h))
      → Only P (continue r k)
  Only-continue h (done a g) k s only = subst (λ f. Only P (k a f)) (sym s) (only a)
  Only-continue h fault k s only = tt
  Only-continue h out_of_fuel k s only = tt

  -- After a command that only reads, the rest runs from the same machine.
  pub Only-bind :
      (h : Machine) (m : Cmd A) (k : A → Cmd B)
      → Reads m
      → ((a : A) → Only P (k a h))
      → Only P (continue (m h) k)
  Only-bind h m k r only = Only-continue h (m h) k (r h) only
