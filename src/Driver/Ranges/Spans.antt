-- ===== src/Driver/Ranges/Spans.antt =====
-- The set of ranges as a list of spans in the order of their addresses.
use malloc_implementation.Base.{
  ℕ, ◌≤◌, ◌<◌, ◌≡◌, ◌≢◌, refl, ap, ◌∙◌, List, [], ◌∷◌, ◌++◌, arith, All, All-append_right,
}
use malloc_implementation.Stree.Inorder.{Entries}
use malloc_implementation.Stree.Entries.{Below, Above}
use malloc_implementation.Stree.Map.{IsMap, entries}
use malloc_implementation.Driver.Ranges.{RangeSet, Range, null}

-- A live payload: its record and its first and last address.
pub record Span : Type 0 where
  pub ptr : ℕ
  pub lo : ℕ
  pub hi : ℕ

-- From `head` the `next` links lead through the records of the spans to NULL, and the `prev` links
-- back to `back`.
abbrev pub Chain : (ℕ → Range) → ℕ → ℕ → List Span → Type 0
Chain cells back head [] = head ≡ null
Chain cells back head (x ∷ xs) =
    (head ≡ x.ptr)
    × (0 < x.ptr)
    × ((cells x.ptr).prev ≡ back)
    × ((cells x.ptr).lo ≡ x.lo)
    × ((cells x.ptr).hi ≡ x.hi)
    × Chain cells x.ptr (cells x.ptr).next xs

-- The span ends before the other begins, and has another record.
abbrev pub Before : Span → Span → Type 0
Before x y = (x.hi < y.lo) × (x.ptr ≢ y.ptr)

-- The spans are in order and no two overlap.
abbrev pub Disjoint : List Span → Type 0
Disjoint [] = Unit
Disjoint (x ∷ xs) = (x.lo ≤ x.hi) × All (Before x) xs × Disjoint xs

abbrev pub entries_of : List Span → Entries
entries_of [] = []
entries_of (x ∷ xs) = (x.lo, x.ptr) ∷ entries_of xs

-- The list and the tree of the set hold the spans, which are in order and disjoint.
pub record WellRanged (r : RangeSet) (xs : List Span) : Type 0 where
  pub chain : Chain r.cells null r.list xs
  pub disjoint : Disjoint xs
  pub is_map : IsMap r.lo_tree
  pub held : entries r.lo_tree ≡ entries_of xs

abbrev pub SameCell : (ℕ → Range) → (ℕ → Range) → Span → Type 0
SameCell cells g x = g x.ptr ≡ cells x.ptr

pub Chain-frame :
    (cells g : ℕ → Range) (back head : ℕ) (xs : List Span)
    → All (SameCell cells g) xs
    → Chain cells back head xs
    → Chain g back head xs
Chain-frame cells g back head [] same c = c
Chain-frame cells g back head (x ∷ xs) same c = (
  c.0,
  c.1,
  ap (λ (e : Range). e.prev) same.0 ∙ c.2,
  ap (λ (e : Range). e.lo) same.0 ∙ c.3,
  ap (λ (e : Range). e.hi) same.0 ∙ c.4,
  rw same.0 (Chain-frame cells g x.ptr (cells x.ptr).next xs same.1 c.5),
)

-- What the chain says at a span.
pub Chain-at :
    (cells : ℕ → Range) (back head : ℕ) (xs : List Span) (a : Span) (ys : List Span)
    → Chain cells back head (xs ++ a ∷ ys)
    → (0 < a.ptr)
      × ((cells a.ptr).lo ≡ a.lo)
      × ((cells a.ptr).hi ≡ a.hi)
      × Chain cells a.ptr (cells a.ptr).next ys
Chain-at cells back head [] a ys c = (c.1, c.3, c.4, c.5)
Chain-at cells back head (x ∷ xs) a ys c = Chain-at cells x.ptr (cells x.ptr).next xs a ys c.5

-- Another chain behind the span `a`, which gets another `next` link.
pub Chain-behind :
    (cells g : ℕ → Range) (back head : ℕ) (xs : List Span) (a : Span) (ys zs : List Span)
    → Chain cells back head (xs ++ a ∷ ys)
    → All (SameCell cells g) xs
    → (g a.ptr).prev ≡ (cells a.ptr).prev
    → (g a.ptr).lo ≡ (cells a.ptr).lo
    → (g a.ptr).hi ≡ (cells a.ptr).hi
    → Chain g a.ptr (g a.ptr).next zs
    → Chain g back head (xs ++ a ∷ zs)
Chain-behind cells g back head [] a ys zs c same p l h d = (c.0, c.1, p ∙ c.2, l ∙ c.3, h ∙ c.4, d)
Chain-behind cells g back head (x ∷ xs) a ys zs c same p l h d = (
  c.0,
  c.1,
  ap (λ (e : Range). e.prev) same.0 ∙ c.2,
  ap (λ (e : Range). e.lo) same.0 ∙ c.3,
  ap (λ (e : Range). e.hi) same.0 ∙ c.4,
  rw same.0 (Chain-behind cells g x.ptr (cells x.ptr).next xs a ys zs c.5 same.1 p l h d),
)

-- The same chain with another `prev` link at its first record.
pub Chain-back :
    (cells g : ℕ → Range) (back other head : ℕ) (y : Span) (ys : List Span)
    → Chain cells back head (y ∷ ys)
    → g y.ptr ≡ record (cells y.ptr) { prev = other }
    → All (SameCell cells g) ys
    → Chain g other head (y ∷ ys)
Chain-back cells g back other head y ys c e same = (
  c.0,
  c.1,
  ap (λ (v : Range). v.prev) e,
  ap (λ (v : Range). v.lo) e ∙ c.3,
  ap (λ (v : Range). v.hi) e ∙ c.4,
  rw e (Chain-frame cells g y.ptr (cells y.ptr).next ys same c.5),
)

-- The spans in front of one are before it, and those behind it behind.
pub Disjoint-front :
    (xs : List Span) (a : Span) (ys : List Span)
    → Disjoint (xs ++ a ∷ ys)
    → All (λ x. Before x a) xs
Disjoint-front [] a ys d = tt
Disjoint-front (x ∷ xs) a ys d =
    ((All-append_right (Before x) xs (a ∷ ys) d.1).0, Disjoint-front xs a ys d.2)

pub Disjoint-suffix : (xs ys : List Span) → Disjoint (xs ++ ys) → Disjoint ys
Disjoint-suffix [] ys d = d
Disjoint-suffix (x ∷ xs) ys d = Disjoint-suffix xs ys d.2

pub Disjoint-front_second :
    (xs : List Span) (a b : Span) (ys : List Span)
    → Disjoint (xs ++ a ∷ b ∷ ys)
    → All (λ x. Before x b) xs
Disjoint-front_second [] a b ys d = tt
Disjoint-front_second (x ∷ xs) a b ys d =
    ((All-append_right (Before x) xs (a ∷ b ∷ ys) d.1).1.0, Disjoint-front_second xs a b ys d.2)

pub entries_of-append : (xs ys : List Span) → entries_of (xs ++ ys) ≡ entries_of xs ++ entries_of ys
entries_of-append [] ys = refl
entries_of-append (x ∷ xs) ys = ap (◌∷◌ (x.lo, x.ptr)) (entries_of-append xs ys)

-- The keys of the spans in front of one, and of those behind it.
pub Disjoint-Below :
    (xs : List Span) (a : Span) (ys : List Span)
    → Disjoint (xs ++ a ∷ ys)
    → Below a.lo (entries_of xs)
Disjoint-Below [] a ys d = tt
Disjoint-Below (x ∷ xs) a ys d = (
  omega (arith, d.0, (All-append_right (Before x) xs (a ∷ ys) d.1).0.0),
  Disjoint-Below xs a ys d.2,
)

pub Before-Above :
    (k : ℕ) (a : Span) (ys : List Span) → k ≤ a.hi → All (Before a) ys → Above k (entries_of ys)
Before-Above k a [] le b = tt
Before-Above k a (y ∷ ys) le b = (omega (arith, b.0.0, le), Before-Above k a ys le b.1)

-- A record that the set does not use.
abbrev pub Fresh : ℕ → List Span → Type 0
Fresh p xs = All (λ x. x.ptr ≢ p) xs

pub All-zip :
    (P Q R : Span → Type 0)
    → ((x : Span) → P x → Q x → R x)
    → (xs : List Span) → All P xs
    → All Q xs
    → All R xs
All-zip P Q R f [] p q = tt
All-zip P Q R f (x ∷ xs) p q = (f x p.0 q.0, All-zip P Q R f xs p.1 q.1)
