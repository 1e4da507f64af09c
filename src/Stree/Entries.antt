-- ===== src/Stree/Entries.antt =====
-- The abstract view of the splay tree: a list of entries with increasing keys, and the operations
-- that stree.c promises on it.
use malloc_implementation.Base.{
  ℕ, ◌≤◌, ◌<◌, ◌≡◌, refl, Bool, true, false, [], ◌∷◌, ◌++◌, arith, ltb, ◌==◌, if◌then◌else◌, All,
}
use malloc_implementation.Stree.{null}
use malloc_implementation.Stree.Inorder.{Entries}

abbrev pub Below : ℕ → Entries → Type 0
Below key xs = All (λ e. e.0 < key) xs

abbrev pub Above : ℕ → Entries → Type 0
Above key xs = All (λ e. key < e.0) xs

-- The keys increase.
abbrev pub Increasing : Entries → Type 0
Increasing [] = Unit
Increasing (e ∷ xs) = Above e.0 xs × Increasing xs

unfoldable pub has_key : ℕ → Entries → Bool
has_key key [] = false
has_key key ((k, v) ∷ xs) = if key == k then true else has_key key xs

unfoldable pub lookup_key : ℕ → Entries → ℕ
lookup_key key [] = null
lookup_key key ((k, v) ∷ xs) = if key == k then v else lookup_key key xs

-- An entry that is there stays.
unfoldable pub insert_key : ℕ → ℕ → Entries → Entries
insert_key key v [] = (key, v) ∷ []
insert_key key v ((k, w) ∷ xs) =
    if key == k
    then (k, w) ∷ xs
    else if ltb key k
    then (key, v) ∷ (k, w) ∷ xs
    else (k, w) ∷ insert_key key v xs

unfoldable pub remove_key : ℕ → Entries → Entries
remove_key key [] = []
remove_key key ((k, v) ∷ xs) = if key == k then xs else (k, v) ∷ remove_key key xs

-- The record of the greatest key that is not above `key`.
unfoldable pub nearest_key : ℕ → ℕ → Entries → ℕ
nearest_key key best [] = best
nearest_key key best ((k, v) ∷ xs) = if ltb key k then best else nearest_key key v xs

pub Increasing-split :
    (xs : Entries) (k v : ℕ) (ys : Entries)
    → Increasing (xs ++ (k, v) ∷ ys)
    → Below k xs × Above k ys × Increasing xs × Increasing ys
Increasing-split [] k v ys s = (tt, s.0, tt, s.1)
Increasing-split ((j, w) ∷ xs) k v ys s =
    let rest = Increasing-split xs k v ys s.1 in
    ((above_at j xs s.0, rest.0), rest.1, (above_front j xs s.0, rest.2), rest.3)
  where
    above_at : (j : ℕ) (xs : Entries) → Above j (xs ++ (k, v) ∷ ys) → j < k
    above_at j [] a = a.0
    above_at j (x ∷ xs) a = above_at j xs a.1

    above_front : (j : ℕ) (xs : Entries) → Above j (xs ++ (k, v) ∷ ys) → Above j xs
    above_front j [] a = tt
    above_front j (x ∷ xs) a = (a.0, above_front j xs a.1)

-- The operations at a list that is split at the key.
module _ (key : ℕ) where
  pub insert_key-between :
      (v : ℕ) (xs ys : Entries)
      → Below key xs
      → Above key ys
      → insert_key key v (xs ++ ys) ≡ xs ++ (key, v) ∷ ys
  unfolding insert_key
  insert_key-between v [] [] b a = refl
  insert_key-between v [] ((k, w) ∷ ys) b a = ground arith
  insert_key-between v ((k, w) ∷ xs) ys b a = ground (arith, insert_key-between v xs ys b.1 a)

  pub insert_key-present :
      (v w : ℕ) (xs ys : Entries)
      → Below key xs
      → insert_key key v (xs ++ (key, w) ∷ ys) ≡ xs ++ (key, w) ∷ ys
  unfolding insert_key
  insert_key-present v w [] ys b = ground arith
  insert_key-present v w ((k, u) ∷ xs) ys b = ground (arith, insert_key-present v w xs ys b.1)

  pub remove_key-present :
      (w : ℕ) (xs ys : Entries) → Below key xs → remove_key key (xs ++ (key, w) ∷ ys) ≡ xs ++ ys
  unfolding remove_key
  remove_key-present w [] ys b = ground arith
  remove_key-present w ((k, u) ∷ xs) ys b = ground (arith, remove_key-present w xs ys b.1)

  remove_key-Above : (ys : Entries) → Above key ys → remove_key key ys ≡ ys
  unfolding remove_key
  remove_key-Above [] a = refl
  remove_key-Above ((k, w) ∷ ys) a = ground (arith, remove_key-Above ys a.1)

  pub remove_key-between :
      (xs ys : Entries) → Below key xs → Above key ys → remove_key key (xs ++ ys) ≡ xs ++ ys
  unfolding remove_key
  remove_key-between [] ys b a = remove_key-Above ys a
  remove_key-between ((k, w) ∷ xs) ys b a = ground (arith, remove_key-between xs ys b.1 a)

  pub lookup_key-present :
      (w : ℕ) (xs ys : Entries)
      → Below key xs
      → (lookup_key key (xs ++ (key, w) ∷ ys) ≡ w) × (has_key key (xs ++ (key, w) ∷ ys) ≡ true)
  unfolding lookup_key has_key
  lookup_key-present w [] ys b = ground arith
  lookup_key-present w ((k, u) ∷ xs) ys b = ground (arith, lookup_key-present w xs ys b.1)

  lookup_key-Above :
      (ys : Entries) → Above key ys → (lookup_key key ys ≡ null) × (has_key key ys ≡ false)
  unfolding lookup_key has_key
  lookup_key-Above [] a = (refl, refl)
  lookup_key-Above ((k, w) ∷ ys) a = ground (arith, lookup_key-Above ys a.1)

  pub lookup_key-between :
      (xs ys : Entries)
      → Below key xs
      → Above key ys
      → (lookup_key key (xs ++ ys) ≡ null) × (has_key key (xs ++ ys) ≡ false)
  unfolding lookup_key has_key
  lookup_key-between [] ys b a = lookup_key-Above ys a
  lookup_key-between ((k, w) ∷ xs) ys b a = ground (arith, lookup_key-between xs ys b.1 a)

pub Below-mono : (j k : ℕ) (xs : Entries) → j ≤ k → Below j xs → Below k xs
Below-mono j k [] h b = tt
Below-mono j k (x ∷ xs) h b = (omega arith, Below-mono j k xs h b.1)

pub Above-mono : (j k : ℕ) (xs : Entries) → j ≤ k → Above k xs → Above j xs
Above-mono j k [] h a = tt
Above-mono j k (x ∷ xs) h a = (omega arith, Above-mono j k xs h a.1)

Above-insert :
    (j : ℕ) (xs : Entries) (k v : ℕ) (ys : Entries)
    → j < k
    → Above j (xs ++ ys)
    → Above j (xs ++ (k, v) ∷ ys)
Above-insert j [] k v ys h a = (h, a)
Above-insert j (x ∷ xs) k v ys h a = (a.0, Above-insert j xs k v ys h a.1)

Above-remove :
    (j : ℕ) (xs : Entries) (k v : ℕ) (ys : Entries)
    → Above j (xs ++ (k, v) ∷ ys)
    → Above j (xs ++ ys)
Above-remove j [] k v ys a = a.1
Above-remove j (x ∷ xs) k v ys a = (a.0, Above-remove j xs k v ys a.1)

pub Increasing-insert :
    (xs : Entries) (k v : ℕ) (ys : Entries)
    → Below k xs
    → Above k ys
    → Increasing (xs ++ ys)
    → Increasing (xs ++ (k, v) ∷ ys)
Increasing-insert [] k v ys b a s = (a, s)
Increasing-insert (x ∷ xs) k v ys b a s =
    (Above-insert x.0 xs k v ys b.0 s.0, Increasing-insert xs k v ys b.1 a s.1)

pub Increasing-remove :
    (xs : Entries) (k v : ℕ) (ys : Entries) → Increasing (xs ++ (k, v) ∷ ys) → Increasing (xs ++ ys)
Increasing-remove [] k v ys s = s.1
Increasing-remove (x ∷ xs) k v ys s =
    (Above-remove x.0 xs k v ys s.0, Increasing-remove xs k v ys s.1)
