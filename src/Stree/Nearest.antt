-- ===== src/Stree/Nearest.antt =====
-- tree_find_nearest finds the entry of the greatest key that is not above the one given.
use malloc_implementation.Base.{
  ℕ, ◌≤◌, ◌<◌, ◌≡◌, refl, sym, ◌∙◌, inl, inr, [], ◌∷◌, ◌++◌, arith, Bool-cases, ltb, ◌==◌,
  All-append_left, All-append_right, eq_of_==,
}
use malloc_implementation.Base.Word.{add64}
use malloc_implementation.Stree.{
  Tree, leaf, node, SplayTree, null, record_at, nearer, nearest_loop, tree_find_nearest,
}
use malloc_implementation.Stree.Inorder.{Entries, inorder}
use malloc_implementation.Stree.Entries.{Below, Above, Increasing, nearest_key, Increasing-split}
use malloc_implementation.Stree.Map.{IsMap, entries}

pub nearest_key-Above :
    (key best : ℕ) (ys : Entries) → Above key ys → nearest_key key best ys ≡ best
unfolding nearest_key
nearest_key-Above key best [] a = refl
nearest_key-Above key best ((k, v) ∷ ys) a = ground arith

-- The entries from the first key above `key` on do not count.
nearest_key-stop :
    (key best : ℕ) (xs : Entries) (k v : ℕ) (ys : Entries)
    → key < k
    → nearest_key key best (xs ++ (k, v) ∷ ys) ≡ nearest_key key best xs
unfolding nearest_key
nearest_key-stop key best [] k v ys h = ground arith
nearest_key-stop key best ((j, w) ∷ xs) k v ys h =
    ground (arith, nearest_key-stop key w xs k v ys h)

-- The entries before a key that is not above `key` do not count.
nearest_key-pass :
    (key best : ℕ) (xs : Entries) (k v : ℕ) (ys : Entries)
    → k ≤ key
    → Below k xs
    → nearest_key key best (xs ++ (k, v) ∷ ys) ≡ nearest_key key v ys
unfolding nearest_key
nearest_key-pass key best [] k v ys h b = ground arith
nearest_key-pass key best ((j, w) ∷ xs) k v ys h b =
    ground (arith, nearest_key-pass key w xs k v ys h b.1)

-- The node held so far has a smaller key than the entries to come.
abbrev HeldBelow : Tree → Entries → Type 0
HeldBelow leaf xs = Unit
HeldBelow (node l k v r) xs = Above k xs

HeldBelow-front : (n : Tree) (xs ys : Entries) → HeldBelow n (xs ++ ys) → HeldBelow n xs
HeldBelow-front leaf xs ys h = tt
HeldBelow-front (node l k v r) xs ys h = All-append_left (λ e. k < e.0) xs ys h

nearer-held :
    (n l : Tree) (k v : ℕ) (r : Tree) (xs ys : Entries)
    → HeldBelow n (xs ++ (k, v) ∷ ys)
    → nearer n (node l k v r) k ≡ node l k v r
unfolding nearer
nearer-held leaf l k v r xs ys h = refl
nearer-held (node a j w b) l k v r xs ys h =
    let below = All-append_right (λ e. j < e.0) xs ((k, v) ∷ ys) h in ground arith

nearest_loop-nearest_key :
    (key : ℕ) (t n : Tree) (count : ℕ)
    → Increasing (inorder t)
    → HeldBelow n (inorder t)
    → (nearest_loop key t n count).0 ≡ nearest_key key (record_at n) (inorder t)
unfolding nearest_loop inorder nearest_key
nearest_loop-nearest_key key leaf n count s h = refl
nearest_loop-nearest_key key (node l k v r) n count s h =
    let parts = Increasing-split (inorder l) k v (inorder r) s in
    elim (Bool-cases (key == k)) [
      | inl t ↦
          let same = eq_of_== key k t in
          rw t (
            sym (
              nearest_key-pass key (record_at n) (inorder l) k v (inorder r) (omega arith) parts.0
              ∙ nearest_key-Above key v (inorder r) (rw same parts.1)))
      | inr f ↦ elim (Bool-cases (ltb k key)) [
        | inl g ↦
            rw (f, g, nearer-held n l k v r (inorder l) (inorder r) h)
              (nearest_loop-nearest_key key r (node l k v r) (add64 count 2) parts.3 parts.1
                ∙ sym (
                    nearest_key-pass key (record_at n) (inorder l) k v (inorder r) (ground arith)
                      parts.0))
        | inr g ↦
            rw (f, g)
              (nearest_loop-nearest_key key l n (add64 count 2) parts.2
                  (HeldBelow-front n (inorder l) ((k, v) ∷ inorder r) h)
                ∙ sym
                    (nearest_key-stop key (record_at n) (inorder l) k v (inorder r) (ground arith)))
      ]
    ]

-- tree_find_nearest gives the record of the greatest key that is not above the key sought, NULL
-- where every key is above it, and changes only the comparison count.
pub tree_find_nearest-nearest_key :
    (t : SplayTree) (key : ℕ)
    → IsMap t
    → ((tree_find_nearest t key).0 ≡ nearest_key key null (entries t))
      × ((tree_find_nearest t key).1.root ≡ t.root)
      × ((tree_find_nearest t key).1.node_count ≡ t.node_count)
unfolding tree_find_nearest
tree_find_nearest-nearest_key t key m =
    (nearest_loop-nearest_key key t.root leaf t.comparison_count m.increasing tt, refl, refl)
