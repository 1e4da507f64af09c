-- ===== src/Driver/Ranges/Linked.antt =====
-- The records of the list after a new one has been linked behind the record of a span.
use malloc_implementation.Base.{
  ℕ, ◌<◌, ◌≡◌, ◌≢◌, sym, ap, ◌∙◌, List, [], ◌∷◌, ◌++◌, All, update, update_self, update_other,
}
use malloc_implementation.Driver.Ranges.{Range, null, set_next, set_prev}
use malloc_implementation.Driver.Ranges.Spans.{
  Span, Chain, Before, Disjoint, SameCell, Chain-at, Chain-behind, Chain-back, Disjoint-front,
  Disjoint-suffix, Disjoint-front_second, All-zip, Fresh,
}

module _ (cells : ℕ → Range) (a s : Span) (index : ℕ) (ne : a.ptr ≢ s.ptr) where
  -- The record of `s` between that of `a` and the one at `next`.
  abbrev new_range : ℕ → Range
  new_range next = record { lo = s.lo; hi = s.hi; index = index; next = next; prev = a.ptr }

  -- The records when those of `s` and `a` have been written.
  abbrev behind_a : ℕ → ℕ → Range
  behind_a next = set_next a.ptr s.ptr (update cells s.ptr (new_range next))

  behind_a-a : (next : ℕ) → behind_a next a.ptr ≡ record (cells a.ptr) { next = s.ptr }
  unfolding set_next
  behind_a-a next =
      let c = update cells s.ptr (new_range next) in
      let same : c a.ptr ≡ cells a.ptr =
        update_other cells s.ptr a.ptr (new_range next) (λ e. ne (sym e)) in
      update_self c a.ptr (record (c a.ptr) { next = s.ptr })
      ∙ ap (λ (v : Range). record v { next = s.ptr }) same

  behind_a-s : (next : ℕ) → behind_a next s.ptr ≡ new_range next
  unfolding set_next
  behind_a-s next =
      let c = update cells s.ptr (new_range next) in
      update_other c a.ptr s.ptr (record (c a.ptr) { next = s.ptr }) ne
      ∙ update_self cells s.ptr (new_range next)

  behind_a_other : (next q : ℕ) → q ≢ a.ptr → q ≢ s.ptr → behind_a next q ≡ cells q
  unfolding set_next
  behind_a_other next q na ns =
      let c = update cells s.ptr (new_range next) in
      update_other c a.ptr q (record (c a.ptr) { next = s.ptr }) (λ e. na (sym e))
      ∙ update_other cells s.ptr q (new_range next) (λ e. ns (sym e))

  -- Behind the last span.
  pub Chain-linked_last :
      (head : ℕ) (xs : List Span)
      → 0 < s.ptr
      → Chain cells null head (xs ++ a ∷ [])
      → Disjoint (xs ++ a ∷ [])
      → Fresh s.ptr xs
      → Chain (behind_a null) null head (xs ++ a ∷ s ∷ [])
  Chain-linked_last head xs pos c d fresh =
      let at_a = behind_a-a null in
      let at_s = behind_a-s null in
      let same : All (SameCell cells (behind_a null)) xs =
        All-zip (λ x. Before x a) (λ x. x.ptr ≢ s.ptr) (SameCell cells (behind_a null))
          (λ x b f. behind_a_other null x.ptr b.1 f) xs (Disjoint-front xs a [] d) fresh in
      Chain-behind cells (behind_a null) null head xs a [] (s ∷ []) c same
        (ap (λ (v : Range). v.prev) at_a) (ap (λ (v : Range). v.lo) at_a)
        (ap (λ (v : Range). v.hi) at_a)
        (
          ap (λ (v : Range). v.next) at_a,
          pos,
          ap (λ (v : Range). v.prev) at_s,
          ap (λ (v : Range). v.lo) at_s,
          ap (λ (v : Range). v.hi) at_s,
          ap (λ (v : Range). v.next) at_s,
        )

  -- Between two spans.
  pub Chain-linked :
      (head : ℕ) (xs : List Span) (y : Span) (ys : List Span)
      → 0 < s.ptr
      → Chain cells null head (xs ++ a ∷ y ∷ ys)
      → Disjoint (xs ++ a ∷ y ∷ ys)
      → Fresh s.ptr xs
      → Fresh s.ptr (y ∷ ys)
      → Chain (set_prev y.ptr s.ptr (behind_a y.ptr)) null head (xs ++ a ∷ s ∷ y ∷ ys)
  unfolding set_prev
  Chain-linked head xs y ys pos c d fresh fresh_ys =
      let b = behind_a y.ptr in
      let g = set_prev y.ptr s.ptr b in
      let away : (q : ℕ) → q ≢ y.ptr → g q ≡ b q =
        λ q nq. update_other b y.ptr q (record (b y.ptr) { prev = s.ptr }) (λ e. nq (sym e)) in
      let last = Disjoint-suffix xs (a ∷ y ∷ ys) d in
      let at_a = away a.ptr last.1.0.1 ∙ behind_a-a y.ptr in
      let at_s = away s.ptr (λ e. fresh_ys.0 (sym e)) ∙ behind_a-s y.ptr in
      let at_y : g y.ptr ≡ record (cells y.ptr) { prev = s.ptr } =
        update_self b y.ptr (record (b y.ptr) { prev = s.ptr })
        ∙ ap (λ (v : Range). record v { prev = s.ptr })
            (behind_a_other y.ptr y.ptr (λ e. last.1.0.1 (sym e)) fresh_ys.0) in
      let same : All (SameCell cells g) xs =
        All-zip (λ x. Before x a × Before x y) (λ x. x.ptr ≢ s.ptr) (SameCell cells g)
          (λ x o f. away x.ptr o.1.1 ∙ behind_a_other y.ptr x.ptr o.0.1 f) xs
          (All-zip (λ x. Before x a) (λ x. Before x y) (λ x. Before x a × Before x y)
            (λ x p q. (p, q)) xs (Disjoint-front xs a (y ∷ ys) d)
            (Disjoint-front_second xs a y ys d))
          fresh in
      let rest : All (SameCell cells g) ys =
        All-zip (λ z. Before a z × Before y z) (λ z. z.ptr ≢ s.ptr) (SameCell cells g)
          (λ z o f.
            away z.ptr (λ e. o.1.1 (sym e)) ∙ behind_a_other y.ptr z.ptr (λ e. o.0.1 (sym e)) f)
          ys
          (All-zip (Before a) (Before y) (λ z. Before a z × Before y z) (λ z p q. (p, q)) ys
            last.1.1 last.2.1)
          fresh_ys.1 in
      let tail : Chain cells a.ptr (cells a.ptr).next (y ∷ ys) =
        (Chain-at cells null head xs a (y ∷ ys) c).3 in
      let back = Chain-back cells g a.ptr s.ptr (cells a.ptr).next y ys tail at_y rest in
      Chain-behind cells g null head xs a (y ∷ ys) (s ∷ y ∷ ys) c same
        (ap (λ (v : Range). v.prev) at_a) (ap (λ (v : Range). v.lo) at_a)
        (ap (λ (v : Range). v.hi) at_a)
        (
          ap (λ (v : Range). v.next) at_a,
          pos,
          ap (λ (v : Range). v.prev) at_s,
          ap (λ (v : Range). v.lo) at_s,
          ap (λ (v : Range). v.hi) at_s,
          rw (ap (λ (v : Range). v.next) at_s) (rw tail.0 at back),
        )
