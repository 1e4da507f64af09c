-- ===== src/Driver/Ranges/Accepted.antt =====
-- Which payloads add_range accepts.
use malloc_implementation.Base.{
  ℕ, ◌+◌, ◌-◌, ◌%◌, ◌≤◌, ◌<◌, ◌≡◌, ◌≢◌, ◌↔◌, inl, inr, refl, arith, Bool, true, false, Bool-cases,
  some, ==-ne, sym, ◌∙◌,
}
use malloc_implementation.Stree.{tree_find_nearest}
use malloc_implementation.Driver.Ranges.{
  RangeSet, DebugMode, is_none, null, range_in_heap, insert_range, add_range, last_byte,
}
use malloc_implementation.Base.Word.{word_mod}

-- The record of the nearest range below a payload.
abbrev pub prev_of : RangeSet → ℕ → ℕ
prev_of r lo = (tree_find_nearest r.lo_tree lo).0

-- A payload of the heap that is clear of the nearest range below it, where there is one, and of the
-- range behind that one.
pub record Acceptable (heap_lo heap_hi : ℕ) (r : RangeSet) (lo hi : ℕ) : Type 0 where
  pub aligned : lo % 16 ≡ 0
  pub low : heap_lo ≤ lo
  pub high : hi ≤ heap_hi
  pub behind_prev : prev_of r lo ≢ null → (r.cells (prev_of r lo)).hi < lo
  pub before_next :
      prev_of r lo ≢ null
      → (r.cells (prev_of r lo)).next ≢ null
      → hi < (r.cells (r.cells (prev_of r lo)).next).lo

pub last_byte-exact :
    (lo size : ℕ) → 0 < size → lo + size ≤ word_mod → last_byte lo size ≡ lo + size - 1
unfolding last_byte
last_byte-exact lo size pos le = omega arith

in_heap_iff :
    (heap_lo heap_hi lo hi : ℕ)
    → lo ≤ hi
    → (range_in_heap heap_lo heap_hi lo hi ≡ true)
      ↔ ((lo % 16 ≡ 0) × (heap_lo ≤ lo) × (hi ≤ heap_hi))
unfolding range_in_heap
in_heap_iff heap_lo heap_hi lo hi le = (λ e. ground arith, λ e. ground arith)

insert_range_iff :
    (p : ℕ) (r : RangeSet) (lo hi index : ℕ)
    → ((insert_range p lo hi index r).0 ≡ true) ↔ (
        (prev_of r lo ≢ null → (r.cells (prev_of r lo)).hi < lo)
        × (prev_of r lo ≢ null
            → (r.cells (prev_of r lo)).next ≢ null
            → hi < (r.cells (r.cells (prev_of r lo)).next).lo))
unfolding insert_range
insert_range_iff p r lo hi index = (λ e. ground arith, λ e. ground arith)

insert_range-kept :
    (p : ℕ) (r : RangeSet) (lo hi index : ℕ)
    → (insert_range p lo hi index r).0 ≡ false
    → ((insert_range p lo hi index r).1.list ≡ r.list)
      × ((insert_range p lo hi index r).1.cells ≡ r.cells)
unfolding insert_range
insert_range-kept p r lo hi index e = ground arith

-- Unless the checks are off, add_range of a payload that is not empty and does not wrap answers, and it
-- accepts the payload exactly when it is aligned, lies in the heap and, where a range lies below it,
-- begins behind the end of the nearest such range and ends before the begin of the range after
-- that one. A payload below every range is compared with no range. A refusal leaves the list of ranges and
-- every record as they were.
pub add_range-Acceptable :
    (mode : DebugMode) (heap_lo heap_hi p : ℕ) (r : RangeSet) (lo size index : ℕ)
    → is_none mode ≡ false
    → 0 < size
    → lo + size ≤ word_mod
    → (b : Bool) × (r' : RangeSet) × (add_range mode heap_lo heap_hi p r lo size index
        ≡ some (b, r'))
      × ((b ≡ true) ↔ Acceptable heap_lo heap_hi r lo (lo + size - 1))
      × (b ≡ false → (r'.list ≡ r.list) × (r'.cells ≡ r.cells))
unfolding add_range
add_range-Acceptable mode heap_lo heap_hi p r lo size index on pos wraps =
    let exact = last_byte-exact lo size pos wraps in
    let hi = lo + size - 1 in
    let inside = in_heap_iff heap_lo heap_hi lo hi (omega arith) in
    let free = insert_range_iff p r lo hi index in
    elim (Bool-cases (range_in_heap heap_lo heap_hi lo hi)) [
      | inl t ↦
          let (aligned, low, high) = inside.0 t in
          (
            (insert_range p lo hi index r).0,
            (insert_range p lo hi index r).1,
            rw (exact, ==-ne size 0 (omega arith), t, on) refl,
            (
              (λ e. record {
                aligned = aligned;
                low = low;
                high = high;
                behind_prev = (free.0 e).0;
                before_next = (free.0 e).1;
              }),
              λ a. free.1 (a.behind_prev, a.before_next),
            ),
            insert_range-kept p r lo hi index,
          )
      | inr t ↦ (
        false,
        r,
        rw (exact, ==-ne size 0 (omega arith), t) refl,
        ((λ e. cc), λ a. sym t ∙ inside.1 (a.aligned, a.low, a.high)),
        λ e. (refl, refl),
      )
    ]
