-- ===== src/Driver/Ranges/Inserted.antt =====
-- A span that is put into the list and the tree of the set of ranges.
use malloc_implementation.Base.{
  ℕ, ◌+◌, ◌≤◌, ◌<◌, ◌≡◌, ◌≢◌, refl, sym, ap, subst, ◌∙◌, List, [], ◌∷◌, ◌++◌, arith, All,
  All-append_left, All-append_right, length, ==-ne, append_assoc,
}
use malloc_implementation.Base.Word.{word_mod}
use malloc_implementation.Stree.{Tree, SplayTree, tree_find_nearest, tree_insert}
use malloc_implementation.Stree.Inorder.{Entries, inorder}
use malloc_implementation.Stree.Entries.{Below, Above, nearest_key, insert_key, insert_key-between}
use malloc_implementation.Stree.Map.{IsMap, entries, tree_insert-Inserted}
use malloc_implementation.Stree.Nearest.{nearest_key-Above, tree_find_nearest-nearest_key}
use malloc_implementation.Driver.Ranges.{RangeSet, null, link_range}
use malloc_implementation.Driver.Ranges.Linked.{Chain-linked_last, Chain-linked}
use malloc_implementation.Driver.Ranges.Spans.{
  Span, Before, Disjoint, entries_of, WellRanged, Chain-at, Disjoint-front, Disjoint-suffix,
  entries_of-append, Disjoint-Below, Before-Above, Fresh, All-zip,
}

All-insert_behind :
    (P : Span → Type 0) (xs : List Span) (a s : Span) (ys : List Span)
    → P s
    → All P (xs ++ a ∷ ys)
    → All P (xs ++ a ∷ s ∷ ys)
All-insert_behind P [] a s ys h all = (all.0, (h, all.1))
All-insert_behind P (x ∷ xs) a s ys h all = (all.0, All-insert_behind P xs a s ys h all.1)

Disjoint-insert_behind :
    (xs : List Span) (a s : Span) (ys : List Span)
    → Disjoint (xs ++ a ∷ ys)
    → s.lo ≤ s.hi
    → All (λ x. Before x s) xs
    → Before a s
    → All (Before s) ys
    → Disjoint (xs ++ a ∷ s ∷ ys)
Disjoint-insert_behind [] a s ys d le front b behind = (d.0, (b, d.1), (le, behind, d.2))
Disjoint-insert_behind (x ∷ xs) a s ys d le front b behind = (
  d.0,
  All-insert_behind (Before x) xs a s ys front.0 d.1,
  Disjoint-insert_behind xs a s ys d.2 le front.1 b behind,
)

-- The spans behind one that begins after `s` begin after `s` too.
pub Before-All :
    (s y : Span) (ys : List Span)
    → s.hi < y.lo
    → Disjoint (y ∷ ys)
    → Fresh s.ptr (y ∷ ys)
    → All (Before s) (y ∷ ys)
Before-All s y [] lt d f = ((lt, λ e. f.0 (sym e)), tt)
Before-All s y (z ∷ ys) lt d f =
    ((lt, λ e. f.0 (sym e)), Before-All s z ys (omega (arith, d.0, d.1.0.0)) d.2 f.1)

entries_of-insert :
    (xs : List Span) (a s : Span) (ys : List Span)
    → Disjoint (xs ++ a ∷ s ∷ ys)
    → insert_key s.lo s.ptr (entries_of (xs ++ a ∷ ys)) ≡ entries_of (xs ++ a ∷ s ∷ ys)
entries_of-insert xs a s ys d =
    let front : Entries = entries_of xs ++ (a.lo, a.ptr) ∷ [] in
    let split : (zs : List Span) → entries_of (xs ++ a ∷ zs) ≡ front ++ entries_of zs = λ zs.
      entries_of-append xs (a ∷ zs)
      ∙ sym (append_assoc (entries_of xs) ((a.lo, a.ptr) ∷ []) (entries_of zs)) in
    let last = Disjoint-suffix xs (a ∷ s ∷ ys) d in
    let below : Below s.lo front =
      subst (λ es. Below s.lo es) (entries_of-append xs (a ∷ []))
        (Disjoint-Below (xs ++ a ∷ []) s ys
          (subst (λ zs. Disjoint zs) (sym (append_assoc xs (a ∷ []) (s ∷ ys))) d)) in
    rw (split ys, split (s ∷ ys))
      (insert_key-between s.lo s.ptr front (entries_of ys) below
        (Before-Above s.lo s ys last.2.0 last.2.1))

-- The nearest entry is that of the last span that does not begin above `lo`.
nearest_key-span :
    (lo best : ℕ) (xs : List Span) (a : Span) (ys : List Span)
    → Disjoint (xs ++ a ∷ ys)
    → a.lo ≤ lo
    → Above lo (entries_of ys)
    → nearest_key lo best (entries_of (xs ++ a ∷ ys)) ≡ a.ptr
unfolding nearest_key
nearest_key-span lo best [] a ys d le above =
    ground (arith, nearest_key-Above lo a.ptr (entries_of ys) above)
nearest_key-span lo best (x ∷ xs) a ys d le above =
    let first = (All-append_right (Before x) xs (a ∷ ys) d.1).0.0 in
    ground (arith, d.0, first, nearest_key-span lo x.ptr xs a ys d.2 le above)

-- The search for the neighbour keeps the entries of the tree.
pub nearest_tree :
    (t : SplayTree) (key : ℕ)
    → IsMap t
    → IsMap (tree_find_nearest t key).1 × (entries (tree_find_nearest t key).1 ≡ entries t)
nearest_tree t key m =
    let n = tree_find_nearest-nearest_key t key m in
    (
      record {
        increasing = rw n.1 m.increasing;
        counted = n.2 ∙ m.counted ∙ ap (λ (u : Tree). length (inorder u)) (sym n.1);
      },
      ap inorder n.1,
    )

pub length-entries_of : (xs : List Span) → length (entries_of xs) ≡ length xs
length-entries_of [] = refl
length-entries_of (x ∷ xs) = omega (arith, length-entries_of xs)

-- A span is put behind the last one that does not begin above it.
module _ (r : RangeSet) (xs : List Span) (a : Span) (ys : List Span) (s : Span) (index : ℕ)
    (w : WellRanged r (xs ++ a ∷ ys)) (pos : 0 < s.ptr) (fresh : Fresh s.ptr (xs ++ a ∷ ys))
    (size : s.lo ≤ s.hi) (begins : a.lo ≤ s.lo) (above : Above s.lo (entries_of ys))
    (room : length (xs ++ a ∷ ys) + 1 < word_mod) where
  abbrev searched : RangeSet
  searched = record r { lo_tree = (tree_find_nearest r.lo_tree s.lo).1 }

  pub prev_is : (tree_find_nearest r.lo_tree s.lo).0 ≡ a.ptr
  prev_is =
      (tree_find_nearest-nearest_key r.lo_tree s.lo w.is_map).0
      ∙ ap (nearest_key s.lo null) w.held
      ∙ nearest_key-span s.lo null xs a ys w.disjoint begins above

  Fresh-front : Fresh s.ptr xs
  Fresh-front = All-append_left (λ x. x.ptr ≢ s.ptr) xs (a ∷ ys) fresh

  Fresh-rest : Fresh s.ptr (a ∷ ys)
  Fresh-rest = All-append_right (λ x. x.ptr ≢ s.ptr) xs (a ∷ ys) fresh

  inserted-Disjoint : a.hi < s.lo → All (Before s) ys → Disjoint (xs ++ a ∷ s ∷ ys)
  inserted-Disjoint lt behind =
      let last = Disjoint-suffix xs (a ∷ ys) w.disjoint in
      Disjoint-insert_behind xs a s ys w.disjoint size
        (All-zip (λ x. Before x a) (λ x. x.ptr ≢ s.ptr) (λ x. Before x s)
          (λ x b f. (omega (arith, b.0, last.0, lt), f)) xs (Disjoint-front xs a ys w.disjoint)
          Fresh-front)
        (lt, Fresh-rest.0) behind

  inserted-tree :
      Disjoint (xs ++ a ∷ s ∷ ys)
      → IsMap (tree_insert searched.lo_tree s.lo s.ptr).1
        × (entries (tree_insert searched.lo_tree s.lo s.ptr).1 ≡ entries_of (xs ++ a ∷ s ∷ ys))
  inserted-tree d =
      let n = nearest_tree r.lo_tree s.lo w.is_map in
      let i =
        tree_insert-Inserted searched.lo_tree s.lo s.ptr n.0 (
          omega (arith, ap length n.1, ap length w.held, length-entries_of (xs ++ a ∷ ys), room)) in
      (i.0, i.1 ∙ ap (insert_key s.lo s.ptr) (n.1 ∙ w.held) ∙ entries_of-insert xs a s ys d)

-- The set after the new record has been linked.
pub link_range-WellRanged :
    (r : RangeSet) (xs : List Span) (a : Span) (ys : List Span) (s : Span) (index : ℕ)
    → WellRanged r (xs ++ a ∷ ys)
    → 0 < s.ptr
    → Fresh s.ptr (xs ++ a ∷ ys)
    → s.lo ≤ s.hi
    → a.lo ≤ s.lo
    → Above s.lo (entries_of ys)
    → length (xs ++ a ∷ ys) + 1 < word_mod
    → a.hi < s.lo
    → All (Before s) ys
    → (next : ℕ) → (r.cells a.ptr).next ≡ next
    → WellRanged
        (link_range s.ptr a.ptr next s.lo s.hi index
          (record r { lo_tree = (tree_find_nearest r.lo_tree s.lo).1 }))
        (xs ++ a ∷ s ∷ ys)
unfolding link_range
link_range-WellRanged r xs a [] s index w pos fresh size begins above room lt behind next q =
    let d = inserted-Disjoint r xs a [] s index w pos fresh size begins above room lt behind in
    let t = inserted-tree r xs a [] s index w pos fresh size begins above room d in
    let at = Chain-at r.cells null r.list xs a [] w.chain in
    let front = All-append_left (λ x. x.ptr ≢ s.ptr) xs (a ∷ []) fresh in
    let own = All-append_right (λ x. x.ptr ≢ s.ptr) xs (a ∷ []) fresh in
    let chain = Chain-linked_last r.cells a s index own.0 r.list xs pos w.chain w.disjoint front in
    let none : next ≡ null = sym q ∙ at.3 in
    rw (==-ne a.ptr null (omega (arith, at.0)), none)
      record { chain = chain; disjoint = d; is_map = t.0; held = t.1 }
link_range-WellRanged r xs a (y ∷ ys) s index w pos fresh size begins above room lt behind next q =
    let d =
      inserted-Disjoint r xs a (y ∷ ys) s index w pos fresh size begins above room lt behind in
    let t = inserted-tree r xs a (y ∷ ys) s index w pos fresh size begins above room d in
    let at = Chain-at r.cells null r.list xs a (y ∷ ys) w.chain in
    let front = All-append_left (λ x. x.ptr ≢ s.ptr) xs (a ∷ y ∷ ys) fresh in
    let own = All-append_right (λ x. x.ptr ≢ s.ptr) xs (a ∷ y ∷ ys) fresh in
    let chain =
      Chain-linked r.cells a s index own.0 r.list xs y ys pos w.chain w.disjoint front own.1 in
    let some_next : next ≡ y.ptr = sym q ∙ at.3.0 in
    rw (==-ne a.ptr null (omega (arith, at.0)), some_next, ==-ne y.ptr null (omega (arith, at.3.1)))
      record { chain = chain; disjoint = d; is_map = t.0; held = t.1 }
