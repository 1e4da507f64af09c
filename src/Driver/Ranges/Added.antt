-- ===== src/Driver/Ranges/Added.antt =====
-- add_range keeps the set of ranges well formed.
use malloc_implementation.Base.{
  ℕ, ◌+◌, ◌-◌, ◌≤◌, ◌<◌, ◌≡◌, ◌≢◌, refl, sym, ap, subst, ◌∙◌, ◌⊎◌, inl, inr, List, [], ◌∷◌, ◌++◌,
  arith, true, false, All, All-append_right, length, some, Bool-cases, leb-false, eq_of_==,
  ne_of_==, ◌==◌, ==-ne, append_assoc, update_self,
}
use native.Mathlib.Decide.{dec_lt}
use malloc_implementation.Base.Word.{word_mod}
use malloc_implementation.Stree.{tree_find_nearest}
use malloc_implementation.Stree.Entries.{Above, nearest_key, insert_key}
use malloc_implementation.Stree.Map.{tree_insert-Inserted}
use malloc_implementation.Stree.Nearest.{tree_find_nearest-nearest_key}
use malloc_implementation.Driver.Ranges.{
  RangeSet, Range, DebugMode, is_none, null, link_range, insert_range, add_range, range_in_heap,
}
use malloc_implementation.Driver.Ranges.Lowest.{range_in_heap-true}
use malloc_implementation.Driver.Ranges.Spans.{
  Span, Chain, Before, Disjoint, entries_of, WellRanged, Chain-at, Disjoint-suffix, Before-Above,
  Fresh,
}
use malloc_implementation.Driver.Ranges.Accepted.{Acceptable, last_byte-exact}
use malloc_implementation.Driver.Ranges.Inserted.{
  link_range-WellRanged, nearest_tree, prev_is, Before-All,
}

insert_range-linked :
    (p lo hi index : ℕ) (r : RangeSet) (prev next : ℕ)
    → (tree_find_nearest r.lo_tree lo).0 ≡ prev
    → 0 < prev
    → (r.cells prev).hi < lo
    → (r.cells prev).next ≡ next
    → (next ≡ null) ⊎ (hi < (r.cells next).lo)
    → insert_range p lo hi index r ≡ (
      true,
      link_range p prev next lo hi index
          (record r { lo_tree = (tree_find_nearest r.lo_tree lo).1 }),
    )
unfolding insert_range
insert_range-linked p lo hi index r prev next e pos lt q (inl none) =
    let last : (r.cells prev).next ≡ null = q ∙ none in
    rw (e, ==-ne prev null (omega (arith, pos)), leb-false lo (r.cells prev).hi lt, q, none) refl
insert_range-linked p lo hi index r prev next e pos lt q (inr below) =
    rw
      (
        e,
        ==-ne prev null (omega (arith, pos)),
        leb-false lo (r.cells prev).hi lt,
        q,
        leb-false (r.cells next).lo hi below,
      )
      (elim (Bool-cases (next == null)) [ inl t ↦ rw t refl | inr f ↦ rw f refl ])

-- The first span, if there is one, does not begin above `lo`.
abbrev pub Reaches : ℕ → List Span → Type 0
Reaches lo [] = Unit
Reaches lo (x ∷ xs) = x.lo ≤ lo

last_below :
    (lo : ℕ) (a : Span) (rest : List Span)
    → Disjoint (a ∷ rest)
    → a.lo ≤ lo
    → (xs : List Span) × (b : Span) × (ys : List Span) × (a ∷ rest ≡ xs ++ b ∷ ys)
      × (b.lo ≤ lo)
      × Above lo (entries_of ys)
last_below lo a [] d le = ([], a, [], refl, le, tt)
last_below lo a (c ∷ cs) d le = elim (dec_lt lo c.lo) [
  | yes l ↦ ([], a, c ∷ cs, refl, le, (l, Before-Above lo c cs (omega (arith, d.2.0)) d.2.1))
  | no l ↦
      let (xs, b, ys, e, low, above) = last_below lo c cs d.2 (omega arith) in
      (a ∷ xs, b, ys, ap (◌∷◌ a) e, low, above)
]

-- The spans behind the place of a new one begin after it, if the first does.
behind-All :
    (cells : ℕ → Range) (back next : ℕ) (s : Span) (ys : List Span)
    → Chain cells back next ys
    → (next ≢ null → s.hi < (cells next).lo)
    → Disjoint ys
    → Fresh s.ptr ys
    → All (Before s) ys
behind-All cells back next s [] c before d f = tt
behind-All cells back next s (y ∷ ys) c before d f =
    let first : y.ptr ≢ null → s.hi < (cells y.ptr).lo =
      subst (λ q. q ≢ null → s.hi < (cells q).lo) c.0 before in
    Before-All s y ys (omega (arith, first (λ z. absurd (omega (arith, z, c.1))), c.3)) d f

-- What add_range makes of the set: the span is in it, in its place.
abbrev pub Adds : RangeSet → List Span → Span → RangeSet → Type 0
Adds r items s r' =
    (xs : List Span) × (ys : List Span) × (items ≡ xs ++ ys) × WellRanged r' (xs ++ s ∷ ys)

none_or : (P : ℕ → Type 0) (next : ℕ) → (next ≢ null → P next) → (next ≡ null) ⊎ P next
none_or P next f = elim (Bool-cases (next == null)) [
  | inl t ↦ inl (eq_of_== next null t)
  | inr e ↦ inr (f (ne_of_== next null e))
]

module _ (heap_lo heap_hi : ℕ) (r : RangeSet) (s : Span) (index : ℕ) (pos : 0 < s.ptr)
    (size : s.lo ≤ s.hi) where
  insert_range-behind :
      (xs : List Span) (a : Span) (ys : List Span)
      → WellRanged r (xs ++ a ∷ ys)
      → Fresh s.ptr (xs ++ a ∷ ys)
      → length (xs ++ a ∷ ys) + 1 < word_mod
      → a.lo ≤ s.lo
      → Above s.lo (entries_of ys)
      → Acceptable heap_lo heap_hi r s.lo s.hi
      → (r' : RangeSet) × (insert_range s.ptr s.lo s.hi index r ≡ (true, r'))
        × Adds r (xs ++ a ∷ ys) s r'
  insert_range-behind xs a ys w fresh room begins above acc =
      let e = prev_is r xs a ys s index w pos fresh size begins above room in
      let at = Chain-at r.cells null r.list xs a ys w.chain in
      let next = (r.cells a.ptr).next in
      let some_prev : a.ptr ≢ null = λ z. absurd (omega (arith, z, at.0)) in
      let ends : a.ptr ≢ null → (r.cells a.ptr).hi < s.lo =
        subst (λ q. q ≢ null → (r.cells q).hi < s.lo) e acc.behind_prev in
      let before : next ≢ null → s.hi < (r.cells next).lo =
        (subst (λ q. q ≢ null → (r.cells q).next ≢ null → s.hi < (r.cells (r.cells q).next).lo) e
            acc.before_next)
          some_prev in
      let last = Disjoint-suffix xs (a ∷ ys) w.disjoint in
      let own = All-append_right (λ x. x.ptr ≢ s.ptr) xs (a ∷ ys) fresh in
      let set =
        link_range s.ptr a.ptr next s.lo s.hi index
          (record r { lo_tree = (tree_find_nearest r.lo_tree s.lo).1 }) in
      let well : WellRanged set (xs ++ a ∷ s ∷ ys) =
        link_range-WellRanged r xs a ys s index w pos fresh size begins above room
          (omega (arith, ends some_prev, at.2))
          (behind-All r.cells a.ptr next s ys at.3 before last.2 own.1) next refl in
      (
        set,
        insert_range-linked s.ptr s.lo s.hi index r a.ptr next e at.0 (ends some_prev) refl
            (none_or (λ q. s.hi < (r.cells q).lo) next before),
        (
          xs ++ a ∷ [],
          ys,
          sym (append_assoc xs (a ∷ []) ys),
          subst (λ zs. WellRanged set zs) (sym (append_assoc xs (a ∷ []) (s ∷ ys))) well,
        ),
      )

  -- The first span of a set.
  insert_range-first :
      WellRanged r []
      → (r' : RangeSet) × (insert_range s.ptr s.lo s.hi index r ≡ (true, r')) × Adds r [] s r'
  unfolding insert_range link_range insert_key nearest_key
  insert_range-first w =
      let find = tree_find_nearest-nearest_key r.lo_tree s.lo w.is_map in
      let none_below : (tree_find_nearest r.lo_tree s.lo).0 ≡ null =
        find.0 ∙ ap (nearest_key s.lo null) w.held in
      let n = nearest_tree r.lo_tree s.lo w.is_map in
      let tree = (tree_find_nearest r.lo_tree s.lo).1 in
      let i =
        tree_insert-Inserted tree s.lo s.ptr n.0 (omega (arith, ap length n.1, ap length w.held)) in
      let set = link_range s.ptr null null s.lo s.hi index (record r { lo_tree = tree }) in
      let new : Range = record { lo = s.lo; hi = s.hi; index = index; next = null; prev = null } in
      let at : set.cells s.ptr ≡ new = update_self r.cells s.ptr new in
      (
        set,
        rw none_below refl,
        (
          [],
          [],
          refl,
          record {
            chain = (
              refl,
              pos,
              ap (λ (v : Range). v.prev) at,
              ap (λ (v : Range). v.lo) at,
              ap (λ (v : Range). v.hi) at,
              ap (λ (v : Range). v.next) at,
            );
            disjoint = (size, tt, tt);
            is_map = i.0;
            held = i.1 ∙ ap (insert_key s.lo s.ptr) (n.1 ∙ w.held);
          },
        ),
      )

  insert_range-Adds :
      (items : List Span)
      → WellRanged r items
      → Fresh s.ptr items
      → length items + 1 < word_mod
      → Reaches s.lo items
      → Acceptable heap_lo heap_hi r s.lo s.hi
      → (r' : RangeSet) × (insert_range s.ptr s.lo s.hi index r ≡ (true, r')) × Adds r items s r'
  insert_range-Adds [] w fresh room reach acc = insert_range-first w
  insert_range-Adds (x ∷ rest) w fresh room reach acc =
      let (xs, a, ys, e, low, above) = last_below s.lo x rest w.disjoint reach in
      let found =
        insert_range-behind xs a ys (subst (λ zs. WellRanged r zs) e w)
          (subst (λ zs. Fresh s.ptr zs) e fresh) (subst (λ zs. length zs + 1 < word_mod) e room) low
          above acc in
      subst
        (λ zs.
          (r' : RangeSet) × (insert_range s.ptr s.lo s.hi index r ≡ (true, r')) × Adds r zs s r')
        (sym e) found

-- Where the set is well formed, its record is new, and the payload is aligned, in the heap and clear
-- of its neighbours, add_range accepts it and the set stays well formed, with the new span in it, in
-- its place, and all others kept: the list is linked both ways in the order of the addresses, no two
-- spans overlap, and the tree holds the same spans. The payload must not begin below the first
-- range of a set that has one.
pub add_range-WellRanged :
    (mode : DebugMode) (heap_lo heap_hi p : ℕ) (r : RangeSet) (lo size index : ℕ)
    (items : List Span)
    → is_none mode ≡ false
    → 0 < size
    → 0 < p
    → WellRanged r items
    → Fresh p items
    → length items + 1 < word_mod
    → Reaches lo items
    → heap_hi < word_mod
    → Acceptable heap_lo heap_hi r lo (lo + size - 1)
    → (r' : RangeSet) × (add_range mode heap_lo heap_hi p r lo size index ≡ some (true, r'))
      × Adds r items (record { ptr = p; lo = lo; hi = lo + size - 1 }) r'
unfolding add_range
add_range-WellRanged mode heap_lo heap_hi p r lo size index items on size_pos pos w fresh room reach
      address acc =
    let hi = lo + size - 1 in
    let s : Span = record { ptr = p; lo = lo; hi = hi } in
    let (r', run, adds) =
      insert_range-Adds heap_lo heap_hi r s index pos (omega arith) items w fresh room reach acc in
    let inside : range_in_heap heap_lo heap_hi lo hi ≡ true =
      range_in_heap-true heap_lo heap_hi lo hi (omega arith) acc.aligned acc.low acc.high in
    let exact = last_byte-exact lo size size_pos (omega (arith, acc.high)) in
    (r', rw (exact, ==-ne size 0 (omega arith), inside, on, run) refl, adds)
