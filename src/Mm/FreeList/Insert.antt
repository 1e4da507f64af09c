-- ===== src/Mm/FreeList/Insert.antt =====
-- addToFree puts the block at the front of its class.
use malloc_implementation.Base.{
  ℕ, ◌+◌, ◌≤◌, ◌<◌, ◌≡◌, ◌≢◌, refl, ◌⊎◌, ◌∙◌, inl, inr, List, [], ◌∷◌, arith, All, ==-ne, update,
  sym, subst, update_self, update_other, if◌then◌else◌, ◌==◌,
}
use malloc_implementation.Base.Word.{word_mod}
use malloc_implementation.Memory.{Bytes}
use malloc_implementation.Memory.Words.{word, set_word, word-set_word, word-set_word_other}
use malloc_implementation.Machine.{Machine, done, with_bytes, get_seg, set_seg}
use malloc_implementation.Machine.Returns.{Returns, returns}
use malloc_implementation.Machine.Access.{store-done, store-with_bytes}
use malloc_implementation.Mm.Blocks.{null, set_next, set_prev}
use malloc_implementation.Mm.FreeList.{add_to_free}
use malloc_implementation.Mm.FreeList.Lists.{
  Node, Separated, Doubly, Doubly-frame, set_next-SameLinks, set_prev-SameLinks, SameLinks-trans,
  OutsideLinks, Relinked,
}

-- The memory after `block` is linked in front of `head`.
abbrev pub push_bytes : Bytes → ℕ → ℕ → Bytes
push_bytes m block head =
    let m' = set_word (set_word m (block + 16) null) (block + 8) head in
    if head == null then m' else set_word m' (head + 16) block

abbrev pub with_list : Machine → Bytes → ℕ → ℕ → Machine
with_list h m i p = record (with_bytes h m) { seg_list = update h.seg_list i p }

-- The state in which addToFree ends, for a class other than 0.
pub add_to_free-done :
    (h : Machine) (block index : ℕ)
    → index ≢ 0
    → Node h block
    → (h.seg_list index ≡ null) ⊎ Node h (h.seg_list index)
    → add_to_free block index h
      ≡ done tt (with_list h (push_bytes h.bytes block (h.seg_list index)) index block)
unfolding add_to_free get_seg set_seg set_prev set_next
add_to_free-done h block index i n (inl empty) = rw (
  ==-ne block 0 (omega arith),
  ==-ne index 0 i,
  store-done (block + 16) null h (omega arith),
  store-with_bytes (block + 8) (h.seg_list index) h _ (omega arith),
  empty,
)
add_to_free-done h block index i n (inr head) = rw (
  ==-ne block 0 (omega arith),
  ==-ne index 0 i,
  store-done (block + 16) null h (omega arith),
  store-with_bytes (block + 8) (h.seg_list index) h _ (omega arith),
  ==-ne (h.seg_list index) 0 (omega arith),
  store-with_bytes (h.seg_list index + 16) block h _ (omega arith),
)

-- The memory in which `b` stands in front of the block `x`.
abbrev pub link_front : Bytes → ℕ → ℕ → Bytes
link_front m b x = set_word (set_word (set_word m (b + 16) null) (b + 8) x) (x + 16) b

push_bytes-link_front : (m : Bytes) (b x : ℕ) → 0 < x → push_bytes m b x ≡ link_front m b x
push_bytes-link_front m b x h = rw (==-ne x 0 (omega arith))

module _ (m : Bytes) (b : ℕ) (small : b < word_mod) where
  push_bytes-Doubly_nil : Doubly (push_bytes m b null) null b (b ∷ [])
  push_bytes-Doubly_nil =
      let k = set_word m (b + 16) null in
      (
        refl,
        word-set_word_other k (b + 8) null (b + 16) (omega arith)
            ∙ word-set_word m (b + 16) null (omega arith),
        word-set_word k (b + 8) null (omega arith),
      )

  link_front-Doubly :
      (x : ℕ) (xs : List ℕ)
      → x < word_mod
      → Doubly m null x (x ∷ xs)
      → Separated (b ∷ x ∷ xs)
      → Doubly (link_front m b x) null b (b ∷ x ∷ xs)
  link_front-Doubly x xs small_x d s =
      let k = set_word m (b + 16) null in
      let l = set_word k (b + 8) x in
      let g = set_word l (x + 16) b in
      let next_b : word g (b + 8) ≡ x =
        word-set_word_other l (x + 16) b (b + 8) (omega arith)
        ∙ word-set_word k (b + 8) x small_x in
      let next_x : word g (x + 8) ≡ word m (x + 8) =
        word-set_word_other l (x + 16) b (x + 8) (omega arith)
        ∙ word-set_word_other k (b + 8) x (x + 8) (omega arith)
        ∙ word-set_word_other m (b + 16) null (x + 8) (omega arith) in
      let prev_b : word g (b + 16) ≡ null =
        word-set_word_other l (x + 16) b (b + 16) (omega arith)
        ∙ word-set_word_other k (b + 8) x (b + 16) (omega arith)
        ∙ word-set_word m (b + 16) null (omega arith) in
      let rest : Doubly g x (word m (x + 8)) xs =
        Doubly-frame m g x (word m (x + 8)) xs
          (SameLinks-trans m l g xs
            (SameLinks-trans m k l xs (set_prev-SameLinks m b null xs s.0.1)
              (set_next-SameLinks k b x xs s.0.1))
            (set_prev-SameLinks l x b xs s.1.0))
          d.2 in
      (refl, prev_b, (next_b, word-set_word l (x + 16) b small, rw next_x rest))

-- A new memory and a new front of one class, where the memory holds the class's list.
pub with_list-Relinked :
    (h : Machine) (m : Bytes) (index p : ℕ) (xs ys : List ℕ)
    → Doubly m null p xs
    → ((a : ℕ) → OutsideLinks a ys → word m a ≡ word h.bytes a)
    → Returns
        (λ _ g. Doubly g.bytes null (g.seg_list index) xs × Relinked h index ys g)
        (done tt (with_list h m index p))
with_list-Relinked h m index p xs ys d outside = returns (
  subst (λ q. Doubly m null q xs) (sym (update_self h.seg_list index p)) d,
  record {
    others = λ j ne. update_other h.seg_list index j p (λ e. ne (sym e));
    outside = outside;
    heap_same = refl;
    brk_same = refl;
    start_same = refl;
  },
)

link_last-outside :
    (m : Bytes) (b v w a : ℕ)
    → (a + 8 ≤ b + 8) ⊎ (b + 24 ≤ a)
    → word (set_word (set_word m (b + 16) v) (b + 8) w) a ≡ word m a
link_last-outside m b v w a o =
    word-set_word_other (set_word m (b + 16) v) (b + 8) w a (omega arith)
    ∙ word-set_word_other m (b + 16) v a (omega arith)

-- addToFree on a class other than 0 links the block in front of the class, and changes nothing
-- but the links of the block and of the blocks of that class.
pub add_to_free-Doubly :
    (h : Machine) (block index : ℕ) (xs : List ℕ)
    → index ≢ 0
    → Node h block
    → All (Node h) xs
    → Doubly h.bytes null (h.seg_list index) xs
    → Separated (block ∷ xs)
    → Returns
        (λ _ g.
          Doubly g.bytes null (g.seg_list index) (block ∷ xs) × Relinked h index (block ∷ xs) g)
        (add_to_free block index h)
add_to_free-Doubly h block index [] i n ns d s =
    rw (add_to_free-done h block index i n (inl d), d)
      (with_list-Relinked h _ index block (block ∷ []) (block ∷ [])
        (push_bytes-Doubly_nil h.bytes block n.small)
        (λ a o. link_last-outside h.bytes block null null a o.0))
add_to_free-Doubly h block index (x ∷ xs) i n ns d s =
    rw
      (
        add_to_free-done h block index i n (inr (rw d.0 ns.0)),
        d.0,
        push_bytes-link_front h.bytes block x ns.0.positive,
      )
      (with_list-Relinked h _ index block (block ∷ x ∷ xs) (block ∷ x ∷ xs)
        (link_front-Doubly h.bytes block n.small x xs ns.0.small (refl, d.1, d.2) s)
        (λ a o.
          word-set_word_other _ (x + 16) block a (omega arith)
          ∙ link_last-outside h.bytes block null x a o.0))
