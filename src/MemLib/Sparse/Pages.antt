-- ===== src/MemLib/Sparse/Pages.antt =====
-- The pages of the sparse heap as a partial function from addresses to bytes, and how taking a page
-- and changing one act on it.
use malloc_implementation.Base.{
  ℕ, ◌+◌, ◌%◌, ◌≤◌, ◌<◌, ◌≡◌, ◌≢◌, ◌⊎◌, inl, inr, refl, sym, ap, subst, arith, false, Bool-cases,
  Option, none, some, List, [], ◌∷◌, ◌==◌, ==-refl, ==-ne, eq_of_==, ne_of_==, if◌then◌else◌,
  update, update_self, update_other, All,
}
use malloc_implementation.MemLib.Sparse.{
  Sparse, MemBlock, ok, page_id, page_offset, find_block, page_of, take_page, get_page,
}

-- The byte at an offset of a page, if it has been written.
abbrev pub cell_in : (ℕ → MemBlock) → ℕ → Option ℕ → Option ℕ
cell_in pages o none = none
cell_in pages o (some p) = if (pages p).init_set o then some ((pages p).bytes o) else none

-- The byte at an address of the emulated heap, if it has been written.
unfoldable pub cell : Sparse → ℕ → Option ℕ
cell s a = cell_in s.pages (page_offset a) (page_of (page_id a) s)

-- Every chain holds pages that have been taken.
abbrev pub InUse : Sparse → Type 0
InUse s = (b : ℕ) → All (λ p. p < s.next_free_page) (s.page_table b)

find_block-cong :
    (id : ℕ) (pages pages' : ℕ → MemBlock) (chain : List ℕ)
    → All (λ p. (pages' p).id ≡ (pages p).id) chain
    → find_block id pages' chain ≡ find_block id pages chain
unfolding find_block
find_block-cong id pages pages' [] same = refl
find_block-cong id pages pages' (p ∷ chain) same =
    rw (same.0, find_block-cong id pages pages' chain same.1) refl

find_block-id :
    (id : ℕ) (pages : ℕ → MemBlock) (chain : List ℕ) (p : ℕ)
    → find_block id pages chain ≡ some p
    → (pages p).id ≡ id
unfolding find_block
find_block-id id pages [] p e = cc
find_block-id id pages (q ∷ chain) p e = elim (Bool-cases ((pages q).id == id)) [
  | inl t ↦
      let same : q ≡ p = (let e' : some q ≡ some p = rw t at e in cc) in
      rw (← same) (eq_of_== (pages q).id id t)
  | inr f ↦ find_block-id id pages chain p (rw f at e)
]

find_block-All :
    (P : ℕ → Type 0) (id : ℕ) (pages : ℕ → MemBlock) (chain : List ℕ) (p : ℕ)
    → All P chain
    → find_block id pages chain ≡ some p
    → P p
unfolding find_block
find_block-All P id pages [] p all e = absurd (cc)
find_block-All P id pages (q ∷ chain) p all e = elim (Bool-cases ((pages q).id == id)) [
  | inl t ↦ let same : q ≡ p = (let e' : some q ≡ some p = rw t at e in cc) in subst P same all.0
  | inr f ↦ find_block-All P id pages chain p all.1 (rw f at e)
]

All-All : (P Q : ℕ → Type 0) → ((p : ℕ) → P p → Q p) → (xs : List ℕ) → All P xs → All Q xs
All-All P Q f [] h = tt
All-All P Q f (x ∷ xs) h = (f x h.0, All-All P Q f xs h.1)

All-unit : (xs : List ℕ) → All (λ p. Unit {0}) xs
All-unit [] = tt
All-unit (x ∷ xs) = (tt, All-unit xs)

pub page_of-id : (s : Sparse) (id p : ℕ) → page_of id s ≡ some p → (s.pages p).id ≡ id
unfolding page_of
page_of-id s id p e = find_block-id id s.pages (s.page_table (id % s.num_buckets)) p e

pub page_of-lt : (s : Sparse) (id p : ℕ) → InUse s → page_of id s ≡ some p → p < s.next_free_page
unfolding page_of
page_of-lt s id p used e =
    find_block-All (λ q. q < s.next_free_page) id s.pages (s.page_table (id % s.num_buckets)) p
      (used (id % s.num_buckets)) e

-- The state after a change of one page.
abbrev pub with_page : Sparse → ℕ → MemBlock → Sparse
with_page s p block = record s { pages = update s.pages p block }

module _ (s : Sparse) (p : ℕ) (block : MemBlock) (same : block.id ≡ (s.pages p).id) where
  with_page-id : (q : ℕ) → (update s.pages p block q).id ≡ (s.pages q).id
  with_page-id q = elim (Bool-cases (p == q)) [
    | inl t ↦ rw (t, same, eq_of_== p q t) refl
    | inr f ↦ rw f refl
  ]

  pub page_of-with_page : (id : ℕ) → page_of id (with_page s p block) ≡ page_of id s
  unfolding page_of
  page_of-with_page id =
      let chain = s.page_table (id % s.num_buckets) in
      find_block-cong id s.pages (update s.pages p block) chain (
        All-All (λ q. Unit {0}) (λ q. (update s.pages p block q).id ≡ (s.pages q).id)
          (λ q h. with_page-id q) chain (All-unit chain))

  -- At an address of the page the cell is read from the new content.
  pub cell-with_page_self :
      (a : ℕ)
      → page_of (page_id a) s ≡ some p
      → cell (with_page s p block) a
        ≡ (if block.init_set (page_offset a) then some (block.bytes (page_offset a)) else none)
  unfolding cell
  cell-with_page_self a e = rw (page_of-with_page (page_id a), e, update_self s.pages p block) refl

  pub cell-with_page_other :
      (a : ℕ) → page_of (page_id a) s ≢ some p → cell (with_page s p block) a ≡ cell s a
  unfolding cell
  cell-with_page_other a ne =
      rw (page_of-with_page (page_id a)) (cell_in-other (page_of (page_id a) s) ne)
    where
      cell_in-other :
          (o : Option ℕ)
          → o ≢ some p
          → cell_in (update s.pages p block) (page_offset a) o ≡ cell_in s.pages (page_offset a) o
      cell_in-other none ne' = refl
      cell_in-other (some q) ne' =
          rw (update_other s.pages p q block (λ e. ne' (ap some (sym e)))) refl

-- What get_page gives: the page with the number, and the same cells.
pub record Got (s : Sparse) (id p : ℕ) (t : Sparse) : Type 0 where
  pub found : page_of id t ≡ some p
  pub in_use : InUse t
  pub kept : (a : ℕ) → cell t a ≡ cell s a
  pub heap_same : t.heap ≡ s.heap
  pub brk_same : t.mem_brk ≡ s.mem_brk
  pub check_same : t.check_ub ≡ s.check_ub
  pub room : s.num_free_pages ≤ t.num_free_pages + 1

module _ (s : Sparse) (id : ℕ) (used : InUse s) where
  abbrev fresh : MemBlock
  fresh = record (s.pages s.next_free_page) { id = id; init_set = λ o. false }

  take_page-found : page_of id (take_page id s) ≡ some s.next_free_page
  unfolding page_of take_page find_block
  take_page-found = rw (==-refl (id % s.num_buckets), ==-refl s.next_free_page, ==-refl id) refl

  take_page-InUse : InUse (take_page id s)
  unfolding take_page
  take_page-InUse b =
      let later = λ (c : ℕ).
        All-All (λ p. p < s.next_free_page) (λ p. p < s.next_free_page + 1) (λ p h. omega arith)
          (s.page_table c) (used c) in
      elim (Bool-cases (id % s.num_buckets == b)) [
        | inl t ↦ rw t (omega arith, later (id % s.num_buckets))
        | inr f ↦ rw f (later b)
      ]

  find_block-fresh :
      (i : ℕ) (chain : List ℕ)
      → All (λ p. p < s.next_free_page) chain
      → find_block i (update s.pages s.next_free_page fresh) chain ≡ find_block i s.pages chain
  find_block-fresh i chain below =
      find_block-cong i s.pages (update s.pages s.next_free_page fresh) chain (
        All-All (λ p. p < s.next_free_page)
          (λ p. (update s.pages s.next_free_page fresh p).id ≡ (s.pages p).id)
          (λ p lt. rw (update_other s.pages s.next_free_page p fresh (omega arith)) refl) chain
          below)

  take_page-page_of : (i : ℕ) → i ≢ id → page_of i (take_page id s) ≡ page_of i s
  unfolding page_of take_page find_block
  take_page-page_of i ne =
      let b = id % s.num_buckets in
      elim (Bool-cases (b == i % s.num_buckets)) [
        | inl t ↦
            let same : b ≡ i % s.num_buckets = eq_of_== b (i % s.num_buckets) t in
            rw (t, ==-refl s.next_free_page, ==-ne id i (λ e. ne (sym e)), same)
              (find_block-fresh i (s.page_table (i % s.num_buckets)) (used (i % s.num_buckets)))
        | inr f ↦
            rw f (find_block-fresh i (s.page_table (i % s.num_buckets)) (used (i % s.num_buckets)))
      ]

  cell_in-fresh :
      (o : ℕ) (found : Option ℕ)
      → ((p : ℕ) → found ≡ some p → p < s.next_free_page)
      → cell_in (update s.pages s.next_free_page fresh) o found ≡ cell_in s.pages o found
  cell_in-fresh o none below = refl
  cell_in-fresh o (some p) below =
      let lt = below p refl in rw (update_other s.pages s.next_free_page p fresh (omega arith)) refl

  take_page-blank : (o : ℕ) → cell_in (take_page id s).pages o (some s.next_free_page) ≡ none
  unfolding take_page
  take_page-blank o = rw (==-refl s.next_free_page) refl

  take_page-cell_in :
      (o : ℕ) (found : Option ℕ)
      → ((p : ℕ) → found ≡ some p → p < s.next_free_page)
      → cell_in (take_page id s).pages o found ≡ cell_in s.pages o found
  unfolding take_page
  take_page-cell_in o found below = cell_in-fresh o found below

  take_page-cell : page_of id s ≡ none → (a : ℕ) → cell (take_page id s) a ≡ cell s a
  unfolding cell
  take_page-cell new a = elim (Bool-cases (page_id a == id)) [
    | inl t ↦
        let e : page_id a ≡ id = eq_of_== (page_id a) id t in
        rw (e, take_page-found, new) (take_page-blank (page_offset a))
    | inr f ↦ rw (take_page-page_of (page_id a) (ne_of_== (page_id a) id f)) (
        take_page-cell_in (page_offset a) (page_of (page_id a) s)
          (λ p e. page_of-lt s (page_id a) p used e))
  ]

  take_page-Got : page_of id s ≡ none → Got s id s.next_free_page (take_page id s)
  unfolding take_page
  take_page-Got new = record {
    found = take_page-found;
    in_use = take_page-InUse;
    kept = take_page-cell new;
    heap_same = refl;
    brk_same = refl;
    check_same = refl;
    room = omega arith;
  }

found-Got : (s : Sparse) (id p : ℕ) → InUse s → page_of id s ≡ some p → Got s id p s
found-Got s id p used e = record {
  found = e;
  in_use = used;
  kept = λ a. refl;
  heap_same = refl;
  brk_same = refl;
  check_same = refl;
  room = omega arith;
}

pub Option-cases : (o : Option ℕ) → (o ≡ none) ⊎ ((p : ℕ) × (o ≡ some p))
Option-cases none = inl refl
Option-cases (some p) = inr (p, refl)

-- Where a page is left, get_page gives the page of every number.
pub get_page-Got :
    (s : Sparse) (id : ℕ)
    → InUse s
    → 0 < s.num_free_pages
    → (p : ℕ) × (t : Sparse) × (get_page id s ≡ ok p t) × Got s id p t
unfolding get_page
get_page-Got s id used left = elim (Option-cases (page_of id s)) [
  | inl e ↦ (
    s.next_free_page,
    take_page id s,
    rw (e, ==-ne s.num_free_pages 0 (omega arith)) refl,
    take_page-Got s id used e,
  )
  | inr (p, e) ↦ (p, s, rw e refl, found-Got s id p used e)
]
