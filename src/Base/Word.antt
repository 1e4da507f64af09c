-- ===== src/Base/Word.antt =====
-- 64-bit words as natural numbers below 2 ^ 64.
use Prim.Native.Nat.{ℕ, ◌+◌, ◌-◌, ◌*◌, ◌^◌, ◌%◌, ◌≤◌, ◌<◌}
use mathlib.Core.Path.{◌≡◌}
use native.Mathlib.Omega.{arith}

-- The number of values of `size_t`, `uint64_t` and a pointer.
abbrev pub word_mod : ℕ
word_mod = 2 ^ 64

-- Unsigned arithmetic of C, which wraps around.
abbrev pub add64 : ℕ → ℕ → ℕ
add64 a b = (a + b) % word_mod

abbrev pub sub64 : ℕ → ℕ → ℕ
sub64 a b = (a % word_mod + word_mod - b % word_mod) % word_mod

abbrev pub mul64 : ℕ → ℕ → ℕ
mul64 a b = (a * b) % word_mod

pub add64-eq : (a b : ℕ) → a + b < word_mod → add64 a b ≡ a + b
add64-eq a b h = omega arith

pub sub64-eq : (a b : ℕ) → b ≤ a → a < word_mod → sub64 a b ≡ a - b
sub64-eq a b h k = omega arith
