-- ===== src/Mm/FreeList/Mini.antt =====
-- addToFree and removeFromFree on class 0, the singly linked class.
use malloc_implementation.Base.{
  ℕ, zero, suc, ◌+◌, ◌≤◌, ◌<◌, ◌≡◌, ◌≢◌, refl, sym, ◌⊎◌, List, [], ◌∷◌, ◌++◌, arith, All,
  All-append_left, All-append_right, ==-ne, ==-refl, update, update_self, update_other, length,
}
use malloc_implementation.Base.Word.{word_mod}
use malloc_implementation.Memory.{Bytes}
use malloc_implementation.Memory.Words.{word, set_word, word-lt, word-set_word, word-set_word_other}
use malloc_implementation.Machine.{Machine, done, with_bytes, get_seg, set_seg}
use malloc_implementation.Machine.Returns.{Returns, returns}
use malloc_implementation.Machine.Access.{load-done, store-done}
use malloc_implementation.Mm.Blocks.{get_next, get_prev, set_next}
use malloc_implementation.Mm.FreeList.{shift_helper, unlink_mini, remove_from_free, add_to_free}
use malloc_implementation.Mm.FreeList.Lists.{
  Node, Apart, Separated, Separated-front, Singly, Singly-frame, SameNext,
}
use malloc_implementation.Mm.FreeList.Insert.{with_list}

-- What a change of class 0 leaves alone: the other classes, every word but the `next` links of the
-- blocks `touched`, and the bounds of the heap.
pub record Rechained (h : Machine) (touched : List ℕ) (g : Machine) : Type 0 where
  pub others : (j : ℕ) → j ≢ 0 → g.seg_list j ≡ h.seg_list j
  pub outside :
      (a : ℕ) → All (λ x. (a + 8 ≤ x + 8) ⊎ (x + 16 ≤ a)) touched → word g.bytes a ≡ word h.bytes a
  pub heap_same : g.heap ≡ h.heap
  pub brk_same : g.mem_brk ≡ h.mem_brk

set_next-SameNext :
    (m : Bytes) (b v : ℕ) (xs : List ℕ)
    → All (Apart b) xs
    → All (SameNext m (set_word m (b + 8) v)) xs
set_next-SameNext m b v [] a = tt
set_next-SameNext m b v (x ∷ xs) a =
    (word-set_word_other m (b + 8) v (x + 8) (omega arith), set_next-SameNext m b v xs a.1)

-- addToFree on class 0 links the block in front of the class, and writes nothing but its `next` link.
pub add_to_free-Singly :
    (h : Machine) (block : ℕ) (xs : List ℕ)
    → Node h block
    → h.seg_list 0 < word_mod
    → Singly h.bytes (h.seg_list 0) xs
    → All (Apart block) xs
    → Returns
        (λ _ g. Singly g.bytes (g.seg_list 0) (block ∷ xs) × Rechained h (block ∷ []) g)
        (add_to_free block 0 h)
unfolding add_to_free get_seg set_seg set_next
add_to_free-Singly h block xs n small s apart =
    let head = h.seg_list 0 in
    let g : Machine = record h { seg_list = update h.seg_list 0 block } in
    let k = set_word h.bytes (block + 8) head in
    rw
      (
        ==-ne block 0 (omega arith),
        update_self h.seg_list 0 block,
        store-done (block + 8) head g (omega arith),
      )
      (returns (
        (
          refl,
          rw (word-set_word h.bytes (block + 8) head small)
              (Singly-frame h.bytes k head xs (set_next-SameNext h.bytes block head xs apart) s),
        ),
        record {
          others = λ j ne. update_other h.seg_list 0 j block (λ e. ne (sym e));
          outside = λ a o. word-set_word_other h.bytes (block + 8) head a (omega arith);
          heap_same = refl;
          brk_same = refl;
        },
      ))

-- The last block of a chain that begins with `x`.
abbrev last_of : ℕ → List ℕ → ℕ
last_of x [] = x
last_of x (z ∷ zs) = last_of z zs

All-last_of : (P : ℕ → Type 0) (x : ℕ) (zs : List ℕ) → All P (x ∷ zs) → P (last_of x zs)
All-last_of P x [] all = all.0
All-last_of P x (z ∷ zs) all = All-last_of P z zs all.1

-- The walk of shiftHelper ends at the block, with enough fuel.
shift_helper-done :
    (h : Machine) (fuel prev b : ℕ) (zs ys : List ℕ)
    → Singly h.bytes (word h.bytes (prev + 8)) (zs ++ b ∷ ys)
    → All (Node h) (zs ++ b ∷ ys)
    → All (Apart b) zs
    → Node h prev
    → length zs < fuel
    → shift_helper fuel b (word h.bytes (prev + 8)) prev h
      ≡ done tt (with_bytes h (set_word h.bytes (last_of prev zs + 8) (word h.bytes (b + 8))))
unfolding shift_helper get_next set_next
shift_helper-done h zero prev b zs ys s ns apart n lt = absurd (omega arith)
shift_helper-done h (suc fuel) prev b [] ys s ns apart n lt =
    rw
      (
        s.0,
        ==-refl b,
        load-done (b + 8) h (omega arith),
        store-done (prev + 8) (word h.bytes (b + 8)) h (omega arith),
      )
      refl
shift_helper-done h (suc fuel) prev b (z ∷ zs) ys s ns apart n lt =
    rw (s.0, ==-ne z b (omega (arith, apart.0, ns.0.positive)), load-done (z + 8) h (omega arith))
      (shift_helper-done h fuel z b zs ys s.1 ns.1 apart.1 ns.0 (omega arith))

-- The chain without the block behind its part `x ∷ zs`.
Singly-splice :
    (m : Bytes) (p x : ℕ) (zs : List ℕ) (b : ℕ) (ys : List ℕ)
    → Singly m p (x ∷ zs ++ b ∷ ys)
    → Separated (x ∷ zs ++ b ∷ ys)
    → Singly (set_word m (last_of x zs + 8) (word m (b + 8))) p (x ∷ zs ++ ys)
Singly-splice m p x [] b ys s d = (
  s.0,
  rw (word-set_word m (x + 8) (word m (b + 8)) (word-lt m (b + 8))) (
      Singly-frame m (set_word m (x + 8) (word m (b + 8))) (word m (b + 8)) ys
        (set_next-SameNext m x (word m (b + 8)) ys d.0.1) s.1.1),
)
Singly-splice m p x (z ∷ zs) b ys s d =
    let l = last_of z zs in
    let far : Apart x l =
      All-last_of (Apart x) z zs (All-append_left (Apart x) (z ∷ zs) (b ∷ ys) d.0) in
    (
      s.0,
      rw (word-set_word_other m (l + 8) (word m (b + 8)) (x + 8) (omega arith))
          (Singly-splice m (word m (x + 8)) z zs b ys s.1 d.1),
    )

-- A block of class 0 is looked for from the head.
remove_from_free-mini :
    (h : Machine) (fuel b : ℕ) → Node h b → remove_from_free fuel b 0 h ≡ unlink_mini fuel b h
unfolding remove_from_free get_next get_prev
remove_from_free-mini h fuel b n =
    rw (
      load-done (b + 16) h (omega arith),
      load-done (b + 8) h (omega arith),
      ==-ne b 0 (omega arith),
    )

unlink_mini-head :
    (h : Machine) (fuel b : ℕ)
    → Node h b
    → h.seg_list 0 ≡ b
    → unlink_mini fuel b h ≡ done tt (with_list h h.bytes 0 (word h.bytes (b + 8)))
unfolding unlink_mini get_seg set_seg get_next
unlink_mini-head h fuel b n e = rw (e, ==-refl b, load-done (b + 8) h (omega arith)) refl

unlink_mini-behind :
    (h : Machine) (fuel x b : ℕ)
    → Node h x
    → h.seg_list 0 ≡ x
    → x ≢ b
    → unlink_mini fuel b h ≡ shift_helper fuel b (word h.bytes (x + 8)) x h
unfolding unlink_mini get_seg get_next
unlink_mini-behind h fuel x b n e ne = rw (e, ==-ne x b ne, load-done (x + 8) h (omega arith)) refl

-- removeFromFree on class 0 finds the block wherever in the class it stands, when the fuel is at
-- least the number of blocks before it, takes exactly it out, and writes nothing but `next` links of
-- the class.
pub remove_from_free-Singly :
    (h : Machine) (fuel b : ℕ) (xs ys : List ℕ)
    → Singly h.bytes (h.seg_list 0) (xs ++ b ∷ ys)
    → All (Node h) (xs ++ b ∷ ys)
    → Separated (xs ++ b ∷ ys)
    → length xs ≤ fuel
    → Returns
        (λ _ g. Singly g.bytes (g.seg_list 0) (xs ++ ys) × Rechained h (xs ++ b ∷ ys) g)
        (remove_from_free fuel b 0 h)
remove_from_free-Singly h fuel b [] ys s ns d lt =
    rw (remove_from_free-mini h fuel b ns.0, unlink_mini-head h fuel b ns.0 s.0)
      (returns (
        s.1,
        record {
          others = λ j ne. update_other h.seg_list 0 j (word h.bytes (b + 8)) (λ e. ne (sym e));
          outside = λ a o. refl;
          heap_same = refl;
          brk_same = refl;
        },
      ))
remove_from_free-Singly h fuel b (x ∷ zs) ys s ns d lt =
    let nb : Node h b = (All-append_right (Node h) (x ∷ zs) (b ∷ ys) ns).0 in
    let l = last_of x zs in
    let front = Separated-front (x ∷ zs) b ys d in
    rw
      (
        remove_from_free-mini h fuel b nb,
        unlink_mini-behind h fuel x b ns.0 s.0 (omega (arith, front.0, nb.positive)),
        shift_helper-done h fuel x b zs ys s.1 ns.1 front.1 ns.0 (omega arith),
      )
      (returns (
        Singly-splice h.bytes (h.seg_list 0) x zs b ys s d,
        record {
          others = λ j ne. refl;
          outside = λ a o.
              let o' =
                All-last_of (λ x. (a + 8 ≤ x + 8) ⊎ (x + 16 ≤ a)) x zs
                  (All-append_left (λ x. (a + 8 ≤ x + 8) ⊎ (x + 16 ≤ a)) (x ∷ zs) (b ∷ ys) o) in
              word-set_word_other h.bytes (l + 8) (word h.bytes (b + 8)) a (omega arith);
          heap_same = refl;
          brk_same = refl;
        },
      ))
