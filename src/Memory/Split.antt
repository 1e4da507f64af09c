-- ===== src/Memory/Split.antt =====
-- Little-endian integers cut in two: what masks and shifts by whole bytes do to them.
use native.Mathlib.Nat.{pow-suc, mul_assoc, mul-add, mod-eq_of_lt, add-mul-mod_self_left, pow-zero}
use malloc_implementation.Base.{
  ℕ, zero, suc, ◌+◌, ◌-◌, ◌*◌, ◌%◌, ◌^◌, ◌≤◌, ◌<◌, ◌≡◌, refl, sym, ◌∙◌, arith,
}
use malloc_implementation.Base.Word.{word_mod, mul64}
use malloc_implementation.Memory.{Bytes, read_le}
use malloc_implementation.Memory.Words.{read_le-lt}

pub pow_add : (a k j : ℕ) → a ^ (k + j) ≡ a ^ k * a ^ j
pow_add a zero j = let e : 0 + j ≡ j = omega arith in rw (e, pow-zero) (omega arith)
pow_add a (suc k) j =
    let e : suc k + j ≡ suc (k + j) = omega arith in
    rw (e, pow-suc, pow-suc, pow_add a k j) (grind arith)

pub read_le-split :
    (k n j : ℕ) (m : Bytes) (a : ℕ)
    → k + j ≡ n
    → read_le n m a ≡ read_le k m a + 256 ^ k * read_le j m (a + k)
unfolding read_le
read_le-split zero n j m a e =
    let f : a + 0 ≡ a = omega arith in let g : j ≡ n = omega arith in rw (f, g) (omega arith)
read_le-split (suc k) zero j m a e = absurd (omega arith)
read_le-split (suc k) (suc n) j m a e =
    let ih = read_le-split k n j m (a + 1) (omega arith) in
    let f : a + suc k ≡ a + 1 + k = omega arith in rw (f, pow-suc, ih) (grind arith)

-- A mask of `k` bytes.
pub read_le-mod : (k n : ℕ) (m : Bytes) (a : ℕ) → k ≤ n → read_le n m a % 256 ^ k ≡ read_le k m a
read_le-mod k n m a le =
    rw
      (
        read_le-split k n (n - k) m a (omega arith),
        add-mul-mod_self_left (read_le k m a) (256 ^ k) (read_le (n - k) m (a + k)),
      )
      (mod-eq_of_lt (read_le-lt k m a))

-- Two memories with the same bytes at two places.
pub read_le-moved :
    (n : ℕ) (m g : Bytes) (a b : ℕ)
    → ((i : ℕ) → i < n → m (a + i) % 256 ≡ g (b + i) % 256)
    → read_le n m a ≡ read_le n g b
unfolding read_le
read_le-moved zero m g a b same = refl
read_le-moved (suc n) m g a b same =
    let ih = read_le-moved n m g (a + 1) (b + 1) (λ i l.
      let e : a + 1 + i ≡ a + suc i = omega arith in
      let f : b + 1 + i ≡ b + suc i = omega arith in rw (e, f) (same (suc i) (omega arith))) in
    let h : m a % 256 ≡ g b % 256 =
      let e : a + 0 ≡ a = omega arith in
      let f : b + 0 ≡ b = omega arith in rw (e, f) at (same 0 (omega arith)) in
    rw (h, ih) refl

-- The two halves of a word-sized read, cut after `l` bytes, joined by a mask and a shift.
pub read_le-joined :
    (l j : ℕ) (f g m : Bytes) (o q a : ℕ)
    → l + j ≡ 8
    → ((i : ℕ) → i < l → f (o + i) % 256 ≡ m (a + i) % 256)
    → ((i : ℕ) → i < j → g (q + i) % 256 ≡ m (a + l + i) % 256)
    → read_le 8 f o % 256 ^ l + mul64 (256 ^ l) (read_le 8 g q) ≡ read_le 8 m a
read_le-joined l j f g m o q a e low high =
    let word_is : 256 ^ l * 256 ^ j ≡ word_mod = sym (pow_add 256 l j) ∙ rw e refl in
    let r = read_le j g q in
    let cut : read_le 8 g q ≡ r + 256 ^ j * read_le l g (q + j) =
      read_le-split j 8 l g q (omega arith) in
    let shifted : 256 ^ l * read_le 8 g q ≡ 256 ^ l * r + word_mod * read_le l g (q + j) =
      rw (cut, mul-add, ← mul_assoc, word_is) refl in
    let below : 256 ^ l * r < word_mod = grind (arith, word_is, read_le-lt j g q) in
    let mulled : mul64 (256 ^ l) (read_le 8 g q) ≡ 256 ^ l * r =
      rw (shifted, add-mul-mod_self_left (256 ^ l * r) word_mod (read_le l g (q + j)))
        (mod-eq_of_lt below) in
    rw
      (
        read_le-mod l 8 f o (omega arith),
        mulled,
        read_le-moved l f m o a low,
        read_le-moved j g m q (a + l) high,
      )
      (sym (read_le-split l 8 j m a e))
