-- ===== src/Machine/Returns.antt =====
-- Total correctness of a run: it ends with a value, without fault, and meets a postcondition.
use malloc_implementation.Base.{Bool, true, false, ◌≡◌, refl, if◌then◌else◌}
use malloc_implementation.Machine.{Machine, Run, done, Cmd, continue}

pub data Returns {A : Type 0} (P : A → Machine → Type 0) : Run A → Type 0 where
  returns : {a : A} {h : Machine} → P a h → Returns P (done a h)

module _ {A : Type 0} {P : A → Machine → Type 0} where
  pub bind :
      {B : Type 0} {Q : B → Machine → Type 0} {r : Run A} {k : A → Cmd B}
      → Returns P r
      → ((a : A) (h : Machine) → P a h → Returns Q (k a h))
      → Returns Q (continue r k)
  bind (returns p) next = next _ _ p

  pub weaken :
      {Q : A → Machine → Type 0} {r : Run A}
      → Returns P r
      → ((a : A) (h : Machine) → P a h → Q a h)
      → Returns Q r
  weaken (returns p) f = returns (f _ _ p)

  pub by_branch :
      (b : Bool) (x y : Cmd A) (h : Machine)
      → (b ≡ true → Returns P (x h))
      → (b ≡ false → Returns P (y h))
      → Returns P ((if b then x else y) h)
  by_branch true x y h t f = t refl
  by_branch false x y h t f = f refl
