-- ===== src/Driver/Ranges/Removed.antt =====
-- remove_range keeps the set of ranges well formed.
use malloc_implementation.Base.{
  ℕ, ◌<◌, ◌≡◌, ◌≢◌, refl, sym, ap, subst, ◌∙◌, ◌⊎◌, inl, inr, List, [], ◌∷◌, ◌++◌, arith, All,
  length, ==-ne, append_assoc, update, update_self, update_other,
}
use malloc_implementation.Base.Word.{word_mod}
use malloc_implementation.Stree.{tree_remove}
use malloc_implementation.Stree.Entries.{
  lookup_key, remove_key, lookup_key-present, remove_key-present,
}
use malloc_implementation.Stree.Map.{IsMap, entries, tree_remove-Removed}
use malloc_implementation.Driver.Ranges.{
  RangeSet, Range, null, set_next, set_prev, unlink_range, remove_range,
}
use malloc_implementation.Driver.Ranges.Inserted.{length-entries_of}
use malloc_implementation.Driver.Ranges.Spans.{
  Span, Chain, Before, Disjoint, entries_of, WellRanged, SameCell, Chain-at, Chain-behind,
  Chain-back, Disjoint-front, Disjoint-suffix, Disjoint-front_second, entries_of-append,
  Disjoint-Below, All-zip,
}

-- A list is empty or has a last span.
snoc_cases : (xs : List Span) → (xs ≡ []) ⊎ ((ys : List Span) × (p : Span) × (xs ≡ ys ++ p ∷ []))
snoc_cases [] = inl refl
snoc_cases (x ∷ xs) = elim (snoc_cases xs) [
  | inl e ↦ inr ([], x, ap (◌∷◌ x) e)
  | inr (ys, p, e) ↦ inr (x ∷ ys, p, ap (◌∷◌ x) e)
]

All-removed :
    (P : Span → Type 0) (xs : List Span) (s : Span) (ys : List Span)
    → All P (xs ++ s ∷ ys)
    → All P (xs ++ ys)
All-removed P [] s ys a = a.1
All-removed P (x ∷ xs) s ys a = (a.0, All-removed P xs s ys a.1)

Disjoint-removed :
    (xs : List Span) (s : Span) (ys : List Span) → Disjoint (xs ++ s ∷ ys) → Disjoint (xs ++ ys)
Disjoint-removed [] s ys d = d.2
Disjoint-removed (x ∷ xs) s ys d =
    (d.0, All-removed (Before x) xs s ys d.1, Disjoint-removed xs s ys d.2)

-- The tree without the key of the span, and the record that the removal returns.
removed-tree :
    (r : RangeSet) (xs : List Span) (s : Span) (ys : List Span)
    → WellRanged r (xs ++ s ∷ ys)
    → length (xs ++ s ∷ ys) < word_mod
    → IsMap (tree_remove r.lo_tree s.lo).1
      × (entries (tree_remove r.lo_tree s.lo).1 ≡ entries_of (xs ++ ys))
      × ((tree_remove r.lo_tree s.lo).0 ≡ s.ptr)
removed-tree r xs s ys w room =
    let split : (zs : List Span) → entries_of (xs ++ zs) ≡ entries_of xs ++ entries_of zs =
      λ zs. entries_of-append xs zs in
    let held = w.held ∙ split (s ∷ ys) in
    let below = Disjoint-Below xs s ys w.disjoint in
    let t =
      tree_remove-Removed r.lo_tree s.lo w.is_map
        (omega (arith, ap length w.held, length-entries_of (xs ++ s ∷ ys), room)) in
    (
      t.0,
      t.1
          ∙ ap (remove_key s.lo) held
          ∙ remove_key-present s.lo s.ptr (entries_of xs) (entries_of ys) below
          ∙ sym (split ys),
      t.2
          ∙ ap (lookup_key s.lo) held
          ∙ (lookup_key-present s.lo s.ptr (entries_of xs) (entries_of ys) below).0,
    )

-- The chain without its first span.
Chain-unlinked_first :
    (cells : ℕ → Range) (head : ℕ) (s y : Span) (ys : List Span)
    → Chain cells null head (s ∷ y ∷ ys)
    → Disjoint (s ∷ y ∷ ys)
    → Chain (set_prev y.ptr null cells) null (cells s.ptr).next (y ∷ ys)
unfolding set_prev
Chain-unlinked_first cells head s y ys c d =
    let new : Range = record (cells y.ptr) { prev = null } in
    let g = update cells y.ptr new in
    let rest : All (SameCell cells g) ys =
      All-zip (Before y) (Before y) (SameCell cells g)
        (λ z o p. update_other cells y.ptr z.ptr new o.1) ys d.2.1 d.2.1 in
    Chain-back cells g s.ptr null (cells s.ptr).next y ys c.5 (update_self cells y.ptr new) rest

-- The chain without the last span.
Chain-unlinked_last :
    (cells : ℕ → Range) (head : ℕ) (xs : List Span) (a s : Span)
    → Chain cells null head (xs ++ a ∷ s ∷ [])
    → Disjoint (xs ++ a ∷ s ∷ [])
    → Chain (set_next a.ptr null cells) null head (xs ++ a ∷ [])
unfolding set_next
Chain-unlinked_last cells head xs a s c d =
    let new : Range = record (cells a.ptr) { next = null } in
    let g = update cells a.ptr new in
    let at : g a.ptr ≡ new = update_self cells a.ptr new in
    let same : All (SameCell cells g) xs =
      All-zip (λ x. Before x a) (λ x. Before x a) (SameCell cells g)
        (λ x o p. update_other cells a.ptr x.ptr new (λ e. o.1 (sym e))) xs
        (Disjoint-front xs a (s ∷ []) d) (Disjoint-front xs a (s ∷ []) d) in
    Chain-behind cells g null head xs a (s ∷ []) [] c same (ap (λ (v : Range). v.prev) at)
      (ap (λ (v : Range). v.lo) at) (ap (λ (v : Range). v.hi) at) (ap (λ (v : Range). v.next) at)

-- The chain without a span between two others.
Chain-unlinked :
    (cells : ℕ → Range) (head : ℕ) (xs : List Span) (a s y : Span) (ys : List Span)
    → Chain cells null head (xs ++ a ∷ s ∷ y ∷ ys)
    → Disjoint (xs ++ a ∷ s ∷ y ∷ ys)
    → Chain (set_prev y.ptr a.ptr (set_next a.ptr y.ptr cells)) null head (xs ++ a ∷ y ∷ ys)
unfolding set_next set_prev
Chain-unlinked cells head xs a s y ys c d =
    let last = Disjoint-suffix xs (a ∷ s ∷ y ∷ ys) d in
    let d' : Disjoint (xs ++ a ∷ y ∷ ys) =
      subst (λ zs. Disjoint zs) (append_assoc xs (a ∷ []) (y ∷ ys))
        (Disjoint-removed (xs ++ a ∷ []) s (y ∷ ys)
          (subst (λ zs. Disjoint zs) (sym (append_assoc xs (a ∷ []) (s ∷ y ∷ ys))) d)) in
    let new : Range = record (cells a.ptr) { next = y.ptr } in
    let k = update cells a.ptr new in
    let new_y : Range = record (k y.ptr) { prev = a.ptr } in
    let g = update k y.ptr new_y in
    let ay : a.ptr ≢ y.ptr = last.1.1.0.1 in
    let at : g a.ptr ≡ new =
      update_other k y.ptr a.ptr new_y (λ e. ay (sym e)) ∙ update_self cells a.ptr new in
    let at_y : g y.ptr ≡ record (cells y.ptr) { prev = a.ptr } =
      update_self k y.ptr new_y
      ∙ ap (λ (v : Range). record v { prev = a.ptr }) (update_other cells a.ptr y.ptr new ay) in
    let same : All (SameCell cells g) xs =
      All-zip (λ x. Before x a) (λ x. Before x y) (SameCell cells g)
        (λ x o p.
          update_other k y.ptr x.ptr new_y (λ e. p.1 (sym e))
          ∙ update_other cells a.ptr x.ptr new (λ e. o.1 (sym e)))
        xs (Disjoint-front xs a (y ∷ ys) d') (Disjoint-front_second xs a y ys d') in
    let rest : All (SameCell cells g) ys =
      All-zip (Before a) (Before y) (SameCell cells g)
        (λ z o p. update_other k y.ptr z.ptr new_y p.1 ∙ update_other cells a.ptr z.ptr new o.1) ys
        last.1.1.1 last.2.2.1 in
    let tail = (Chain-at cells null head xs a (s ∷ y ∷ ys) c).3 in
    let back = Chain-back cells g s.ptr a.ptr (cells s.ptr).next y ys tail.5 at_y rest in
    Chain-behind cells g null head xs a (s ∷ y ∷ ys) (y ∷ ys) c same (ap (λ (v : Range). v.prev) at)
      (ap (λ (v : Range). v.lo) at) (ap (λ (v : Range). v.hi) at)
      (rw (ap (λ (v : Range). v.next) at) (rw tail.5.0 at back))

-- What the removal of the span from between `xs` and `ys` states.
abbrev Removes : RangeSet → List Span → Span → List Span → Type 0
Removes r xs s ys =
    WellRanged r (xs ++ s ∷ ys)
    → length (xs ++ s ∷ ys) < word_mod
    → WellRanged (remove_range r s.lo) (xs ++ ys)

remove_range-unlink :
    (r : RangeSet) (xs : List Span) (s : Span) (ys : List Span)
    → WellRanged r (xs ++ s ∷ ys)
    → length (xs ++ s ∷ ys) < word_mod
    → remove_range r s.lo
      ≡ unlink_range s.ptr (record r { lo_tree = (tree_remove r.lo_tree s.lo).1 })
unfolding remove_range
remove_range-unlink r xs s ys w room =
    let pos = (Chain-at r.cells null r.list xs s ys w.chain).0 in
    rw ((removed-tree r xs s ys w room).2, ==-ne s.ptr null (omega (arith, pos))) refl

remove-first : (r : RangeSet) (s : Span) (ys : List Span) → Removes r [] s ys
unfolding unlink_range
remove-first r s [] w room =
    let t = removed-tree r [] s [] w room in
    rw (remove_range-unlink r [] s [] w room, w.chain.2, w.chain.5)
      record { chain = refl; disjoint = tt; is_map = t.0; held = t.1 }
remove-first r s (y ∷ ys) w room =
    let t = removed-tree r [] s (y ∷ ys) w room in
    let next : (r.cells s.ptr).next ≡ y.ptr = w.chain.5.0 in
    let chain = Chain-unlinked_first r.cells r.list s y ys w.chain w.disjoint in
    rw
      (
        remove_range-unlink r [] s (y ∷ ys) w room,
        w.chain.2,
        next,
        ==-ne y.ptr null (omega (arith, w.chain.5.1)),
      )
      record { chain = rw next at chain; disjoint = w.disjoint.2; is_map = t.0; held = t.1 }

remove-later :
    (r : RangeSet) (xs : List Span) (a s : Span) (ys : List Span)
    → WellRanged r (xs ++ a ∷ s ∷ ys)
    → length (xs ++ a ∷ s ∷ ys) < word_mod
    → IsMap (tree_remove r.lo_tree s.lo).1
    → entries (tree_remove r.lo_tree s.lo).1 ≡ entries_of (xs ++ a ∷ ys)
    → Disjoint (xs ++ a ∷ ys)
    → WellRanged
        (unlink_range s.ptr (record r { lo_tree = (tree_remove r.lo_tree s.lo).1 }))
        (xs ++ a ∷ ys)
unfolding unlink_range
remove-later r xs a s [] w room m held d =
    let at = Chain-at r.cells null r.list xs a (s ∷ []) w.chain in
    let chain = Chain-unlinked_last r.cells r.list xs a s w.chain w.disjoint in
    rw (at.3.2, at.3.5, ==-ne a.ptr null (omega (arith, at.0)))
      record { chain = chain; disjoint = d; is_map = m; held = held }
remove-later r xs a s (y ∷ ys) w room m held d =
    let at = Chain-at r.cells null r.list xs a (s ∷ y ∷ ys) w.chain in
    let chain = Chain-unlinked r.cells r.list xs a s y ys w.chain w.disjoint in
    rw
      (
        at.3.2,
        at.3.5.0,
        ==-ne a.ptr null (omega (arith, at.0)),
        ==-ne y.ptr null (omega (arith, at.3.5.1)),
      )
      record { chain = chain; disjoint = d; is_map = m; held = held }

remove-middle :
    (r : RangeSet) (xs : List Span) (a s : Span) (ys : List Span) → Removes r (xs ++ a ∷ []) s ys
remove-middle r xs a s ys w room =
    let join : (zs : List Span) → (xs ++ a ∷ []) ++ zs ≡ xs ++ a ∷ zs =
      λ zs. append_assoc xs (a ∷ []) zs in
    let t = removed-tree r (xs ++ a ∷ []) s ys w room in
    let d = Disjoint-removed (xs ++ a ∷ []) s ys w.disjoint in
    let moved =
      remove-later r xs a s ys (subst (λ zs. WellRanged r zs) (join (s ∷ ys)) w)
        (subst (λ zs. length zs < word_mod) (join (s ∷ ys)) room) t.0
        (t.1 ∙ ap entries_of (join ys)) (subst (λ zs. Disjoint zs) (join ys) d) in
    rw (remove_range-unlink r (xs ++ a ∷ []) s ys w room) (
      subst
        (λ zs.
          WellRanged (unlink_range s.ptr (record r { lo_tree = (tree_remove r.lo_tree s.lo).1 }))
            zs)
        (sym (join ys)) moved)

-- remove_range of the first address of a span takes exactly that span out of a well-formed set,
-- wherever it stands, and leaves the set well formed: list and tree hold the other spans.
pub remove_range-WellRanged :
    (r : RangeSet) (xs : List Span) (s : Span) (ys : List Span)
    → WellRanged r (xs ++ s ∷ ys)
    → length (xs ++ s ∷ ys) < word_mod
    → WellRanged (remove_range r s.lo) (xs ++ ys)
remove_range-WellRanged r xs s ys = elim (snoc_cases xs) [
  | inl e ↦ subst (λ zs. Removes r zs s ys) (sym e) (remove-first r s ys)
  | inr (zs, a, e) ↦ subst (λ zs. Removes r zs s ys) (sym e) (remove-middle r zs a s ys)
]
