-- ===== src/Mm/FreeList/Remove.antt =====
-- removeFromFree on a doubly linked class takes the block out of the class.
use malloc_implementation.Base.{
  ℕ, ◌+◌, ◌≤◌, ◌≡◌, ◌≢◌, refl, ◌⊎◌, ◌∙◌, inl, inr, List, [], ◌∷◌, ◌++◌, arith, All, ==-ne, update,
  update_self, subst, sym, append_assoc, All-append_right,
}
use malloc_implementation.Memory.{Bytes}
use malloc_implementation.Memory.Words.{word, set_word, word-set_word, word-set_word_other}
use malloc_implementation.Machine.{Machine, done, with_bytes, get_seg, set_seg}
use malloc_implementation.Machine.Returns.{Returns, returns}
use malloc_implementation.Machine.Access.{load-done, store-done, store-with_bytes}
use malloc_implementation.Mm.Blocks.{null, get_next, get_prev, set_next, set_prev}
use malloc_implementation.Mm.FreeList.{unlink, remove_from_free}
use malloc_implementation.Mm.FreeList.Insert.{with_list, with_list-Relinked}
use malloc_implementation.Mm.FreeList.Lists.{
  Node, Separated, Doubly, Doubly-frame, set_next-SameLinks, set_prev-SameLinks, SameLinks-trans,
  OutsideLinks, Relinked, Separated-front, Separated-front_third, Separated-suffix, Doubly-at,
  Doubly-splice, snoc_cases,
}

-- A block of a doubly linked class is unlinked by its own two links.
remove_from_free-unlink :
    (h : Machine) (fuel block index : ℕ)
    → index ≢ 0
    → Node h block
    → remove_from_free fuel block index h
      ≡ unlink index (word h.bytes (block + 16)) (word h.bytes (block + 8)) h
unfolding remove_from_free get_next get_prev
remove_from_free-unlink h fuel block index i n = rw (
  load-done (block + 16) h (omega arith),
  load-done (block + 8) h (omega arith),
  ==-ne block 0 (omega arith),
  ==-ne index 0 i,
)

-- The block is the first of its class.
module _ (h : Machine) (index : ℕ) where
  unlink-first_last : unlink index null null h ≡ done tt (with_list h h.bytes index null)
  unfolding unlink set_seg
  unlink-first_last = refl

  unlink-first :
      (y : ℕ)
      → Node h y
      → unlink index null y h ≡ done tt (with_list h (set_word h.bytes (y + 16) null) index y)
  unfolding unlink set_seg get_seg set_prev
  unlink-first y n =
      let g : Machine = record h { seg_list = update h.seg_list index y } in
      rw (
        ==-ne y 0 (omega arith),
        update_self h.seg_list index y,
        store-done (y + 16) null g (omega arith),
      )

  unlink-later_last :
      (p : ℕ)
      → Node h p
      → unlink index p null h ≡ done tt (with_bytes h (set_word h.bytes (p + 8) null))
  unfolding unlink set_next
  unlink-later_last p n = rw (==-ne p 0 (omega arith), store-done (p + 8) null h (omega arith))

  unlink-later :
      (p y : ℕ)
      → Node h p
      → Node h y
      → unlink index p y h
        ≡ done tt (with_bytes h (set_word (set_word h.bytes (p + 8) y) (y + 16) p))
  unfolding unlink set_next set_prev
  unlink-later p y n k = rw (
    ==-ne p 0 (omega arith),
    store-done (p + 8) y h (omega arith),
    ==-ne y 0 (omega arith),
    store-with_bytes (y + 16) p h (set_word h.bytes (p + 8) y) (omega arith),
  )

  with_bytes-Relinked :
      (m : Bytes) (xs ys : List ℕ)
      → Doubly m null (h.seg_list index) xs
      → ((a : ℕ) → OutsideLinks a ys → word m a ≡ word h.bytes a)
      → Returns
          (λ _ g. Doubly g.bytes null (g.seg_list index) xs × Relinked h index ys g)
          (done tt (with_bytes h m))
  with_bytes-Relinked m xs ys d outside = returns (
    d,
    record {
      others = λ j ne. refl;
      outside = outside;
      heap_same = refl;
      brk_same = refl;
      start_same = refl;
    },
  )

  -- The first block of a class leaves.
  remove-first :
      (fuel b : ℕ) (ys : List ℕ)
      → index ≢ 0
      → Doubly h.bytes null (h.seg_list index) (b ∷ ys)
      → All (Node h) (b ∷ ys)
      → Separated (b ∷ ys)
      → Returns
          (λ _ g. Doubly g.bytes null (g.seg_list index) ys × Relinked h index (b ∷ ys) g)
          (remove_from_free fuel b index h)
  remove-first fuel b [] i d ns s =
      rw (remove_from_free-unlink h fuel b index i ns.0, d.1, d.2, unlink-first_last)
        (with_list-Relinked h h.bytes index null [] (b ∷ []) refl (λ a o. refl))
  remove-first fuel b (y ∷ ys) i d ns s =
      let m : Bytes = h.bytes in
      let g : Bytes = set_word m (y + 16) null in
      let next : word g (y + 8) ≡ word m (y + 8) =
        word-set_word_other m (y + 16) null (y + 8) (omega arith) in
      let rest : Doubly g y (word m (y + 8)) ys =
        Doubly-frame m g y (word m (y + 8)) ys (set_prev-SameLinks m y null ys s.1.0) d.2.2 in
      rw (remove_from_free-unlink h fuel b index i ns.0, d.1, d.2.0, unlink-first y ns.1.0)
        (with_list-Relinked h g index y (y ∷ ys) (b ∷ y ∷ ys)
          (refl, word-set_word m (y + 16) null (omega arith), rw next rest)
          (λ a o. word-set_word_other m (y + 16) null a (omega arith)))

  -- A block behind another one leaves.
  remove-later :
      (fuel : ℕ) (xs : List ℕ) (p b : ℕ) (ys : List ℕ)
      → index ≢ 0
      → Doubly h.bytes null (h.seg_list index) (xs ++ p ∷ b ∷ ys)
      → All (Node h) (xs ++ p ∷ b ∷ ys)
      → Separated (xs ++ p ∷ b ∷ ys)
      → Returns
          (λ _ g.
            Doubly g.bytes null (g.seg_list index) (xs ++ p ∷ ys)
            × Relinked h index (xs ++ p ∷ b ∷ ys) g)
          (remove_from_free fuel b index h)
  remove-later fuel xs p b [] i d ns s =
      let m : Bytes = h.bytes in
      let g : Bytes = set_word m (p + 8) null in
      let at = Doubly-at m null (h.seg_list index) xs p b [] d in
      let ns' = All-append_right (Node h) xs (p ∷ b ∷ []) ns in
      rw (remove_from_free-unlink h fuel b index i ns'.1.0, at.1, at.2, unlink-later_last p ns'.0)
        (with_bytes-Relinked g (xs ++ p ∷ []) (xs ++ p ∷ b ∷ [])
          (Doubly-splice m g null (h.seg_list index) xs p b [] d
            (set_next-SameLinks m p null xs (Separated-front xs p (b ∷ []) s))
            (word-set_word_other m (p + 8) null (p + 16) (omega arith))
            (word-set_word m (p + 8) null (omega arith)))
          (λ a o.
            let o' = All-append_right (λ x. (a + 8 ≤ x + 8) ⊎ (x + 24 ≤ a)) xs (p ∷ b ∷ []) o in
            word-set_word_other m (p + 8) null a (omega arith)))
  remove-later fuel xs p b (y ∷ ys) i d ns s =
      let m : Bytes = h.bytes in
      let k : Bytes = set_word m (p + 8) y in
      let g : Bytes = set_word k (y + 16) p in
      let at = Doubly-at m null (h.seg_list index) xs p b (y ∷ ys) d in
      let ns' = All-append_right (Node h) xs (p ∷ b ∷ y ∷ ys) ns in
      let s' = Separated-suffix xs (p ∷ b ∷ y ∷ ys) s in
      let next_p : word g (p + 8) ≡ y =
        word-set_word_other k (y + 16) p (p + 8) (omega arith)
        ∙ word-set_word m (p + 8) y ns'.1.1.0.small in
      let next_y : word g (y + 8) ≡ word m (y + 8) =
        word-set_word_other k (y + 16) p (y + 8) (omega arith)
        ∙ word-set_word_other m (p + 8) y (y + 8) (omega arith) in
      let rest : Doubly g y (word m (y + 8)) ys =
        Doubly-frame m g y (word m (y + 8)) ys
          (SameLinks-trans m k g ys (set_next-SameLinks m p y ys s'.0.1.1)
            (set_prev-SameLinks k y p ys s'.1.1.0))
          at.2.2 in
      rw
        (
          remove_from_free-unlink h fuel b index i ns'.1.0,
          at.1,
          at.2.0,
          unlink-later p y ns'.0 ns'.1.1.0,
        )
        (with_bytes-Relinked g (xs ++ p ∷ y ∷ ys) (xs ++ p ∷ b ∷ y ∷ ys)
          (Doubly-splice m g null (h.seg_list index) xs p b (y ∷ ys) d
            (SameLinks-trans m k g xs
              (set_next-SameLinks m p y xs (Separated-front xs p (b ∷ y ∷ ys) s))
              (set_prev-SameLinks k y p xs (Separated-front_third xs p b y ys s)))
            (word-set_word_other k (y + 16) p (p + 16) (omega arith)
              ∙ word-set_word_other m (p + 8) y (p + 16) (omega arith))
            (next_p, word-set_word k (y + 16) p ns'.0.small, rw next_y rest))
          (λ a o.
            let o' = All-append_right (λ x. (a + 8 ≤ x + 8) ⊎ (x + 24 ≤ a)) xs (p ∷ b ∷ y ∷ ys) o in
            word-set_word_other k (y + 16) p a (omega arith)
            ∙ word-set_word_other m (p + 8) y a (omega arith)))

-- What the removal of `b` from between `xs` and `ys` states.
abbrev Removes : Machine → ℕ → ℕ → ℕ → List ℕ → List ℕ → Type 0
Removes h fuel index b before left =
    Doubly h.bytes null (h.seg_list index) before
    → All (Node h) before
    → Separated before
    → Returns (λ _ g. Doubly g.bytes null (g.seg_list index) left × Relinked h index before g)
        (remove_from_free fuel b index h)

remove-middle :
    (h : Machine) (fuel index b : ℕ) (xs : List ℕ) (p : ℕ) (ys : List ℕ)
    → index ≢ 0
    → Removes h fuel index b ((xs ++ p ∷ []) ++ b ∷ ys) ((xs ++ p ∷ []) ++ ys)
remove-middle h fuel index b xs p ys i =
    rw (append_assoc xs (p ∷ []) (b ∷ ys), append_assoc xs (p ∷ []) ys)
      (remove-later h index fuel xs p b ys i)

-- removeFromFree on a class other than 0 takes exactly the block out of the class, wherever in the
-- list it stands, and changes nothing but links of blocks of that class.
pub remove_from_free-Doubly :
    (h : Machine) (fuel index b : ℕ) (xs ys : List ℕ)
    → index ≢ 0
    → Doubly h.bytes null (h.seg_list index) (xs ++ b ∷ ys)
    → All (Node h) (xs ++ b ∷ ys)
    → Separated (xs ++ b ∷ ys)
    → Returns
        (λ _ g.
          Doubly g.bytes null (g.seg_list index) (xs ++ ys) × Relinked h index (xs ++ b ∷ ys) g)
        (remove_from_free fuel b index h)
remove_from_free-Doubly h fuel index b xs ys i = elim (snoc_cases xs) [
  | inl e ↦
      subst (λ zs. Removes h fuel index b (zs ++ b ∷ ys) (zs ++ ys)) (sym e)
        (remove-first h index fuel b ys i)
  | inr (zs, p, e) ↦
      subst (λ zs. Removes h fuel index b (zs ++ b ∷ ys) (zs ++ ys)) (sym e)
        (remove-middle h fuel index b zs p ys i)
]
