-- ===== src/Driver/Trace/Print.antt =====
-- A trace that is written out as words is read back.
use malloc_implementation.Base.{
  ==-ne, ◌==◌, ◌-◌, ℕ, zero, suc, ◌+◌, ◌-◌, ◌%◌, ◌^◌, ◌≤◌, ◌<◌, ◌≡◌, refl, inl, inr, arith, false,
  Bool-cases, none, some, List, [], ◌∷◌, ◌==◌, ltb, leb, if◌then◌else◌, length, All, eq_of_==,
  ==-refl, ltb-false, leb-false,
}
use malloc_implementation.Base.Word.{word_mod}
use malloc_implementation.Driver.Replay.{TraceOp, alloc, free, realloc}
use malloc_implementation.Driver.Trace.{
  Word, Scan, Trace, int_mod, read_op, read_ops, accept, read_trace,
}

abbrev letter : ℕ → Word
letter c = record { first_char = c; number = none }

abbrev numeral : ℕ → Word
numeral n = record { first_char = b'0'; number = some n }

-- The words of a request, in front of others.
abbrev pub print_op : TraceOp → List Word → List Word
print_op (alloc i z) words = letter b'a' ∷ numeral i ∷ numeral z ∷ words
print_op (realloc i z) words = letter b'r' ∷ numeral i ∷ numeral z ∷ words
print_op (free (some i)) words = letter b'f' ∷ numeral i ∷ words
print_op (free none) words = letter b'f' ∷ numeral (2 ^ 32 - 1) ∷ words

abbrev pub print_ops : List TraceOp → List Word
print_ops [] = []
print_ops (op ∷ ops) = print_op op (print_ops ops)

-- The indices are ints that are not negative, and the sizes are words of 64 bits.
abbrev pub SmallIndex : TraceOp → Type 0
SmallIndex (alloc i z) = (i < 2 ^ 31) × (z < word_mod)
SmallIndex (realloc i z) = (i < 2 ^ 31) × (z < word_mod)
SmallIndex (free (some i)) = i < 2 ^ 31
SmallIndex (free none) = Unit

-- The highest index of the requests that allocate, or `m`.
abbrev pub highest : ℕ → List TraceOp → ℕ
highest m [] = m
highest m (alloc i z ∷ ops) = highest (if ltb m i then i else m) ops
highest m (realloc i z ∷ ops) = highest (if ltb m i then i else m) ops
highest m (free i ∷ ops) = highest m ops

abbrev raised : ℕ → TraceOp → ℕ
raised m (alloc i z) = if ltb m i then i else m
raised m (realloc i z) = if ltb m i then i else m
raised m (free i) = m

-- The variables after a request has been read.
abbrev scanned : TraceOp → ℕ → List Word → Scan
scanned (alloc i z) size words = record { index = i; size = z; words = words }
scanned (realloc i z) size words = record { index = i; size = z; words = words }
scanned (free (some i)) size words = record { index = i; size = size; words = words }
scanned (free none) size words = record { index = 2 ^ 32 - 1; size = size; words = words }

abbrev type_of : TraceOp → ℕ
type_of (alloc i z) = b'a'
type_of (realloc i z) = b'r'
type_of (free i) = b'f'

abbrev arguments : TraceOp → List Word → List Word
arguments (alloc i z) words = numeral i ∷ numeral z ∷ words
arguments (realloc i z) words = numeral i ∷ numeral z ∷ words
arguments (free (some i)) words = numeral i ∷ words
arguments (free none) words = numeral (2 ^ 32 - 1) ∷ words

print_op-eq :
    (op : TraceOp) (words : List Word)
    → print_op op words ≡ letter (type_of op) ∷ arguments op words
print_op-eq (alloc i z) words = refl
print_op-eq (realloc i z) words = refl
print_op-eq (free (some i)) words = refl
print_op-eq (free none) words = refl

read_op-arguments :
    (op : TraceOp) (index size max_index : ℕ) (words : List Word)
    → SmallIndex op
    → read_op
        (type_of op)
        (record { index = index; size = size; words = arguments op words })
        max_index
      ≡ some (op, scanned op size words, raised max_index op)
unfolding read_op
read_op-arguments (alloc i z) index size max_index words h =
    let e : i % int_mod ≡ i = omega (arith, h.0) in
    let w : z % word_mod ≡ z = omega (arith, h.1) in
    let f : leb (2 ^ 31) i ≡ false = leb-false (2 ^ 31) i (h.0) in rw (e, w, f) refl
read_op-arguments (realloc i z) index size max_index words h =
    let e : i % int_mod ≡ i = omega (arith, h.0) in
    let w : z % word_mod ≡ z = omega (arith, h.1) in
    let f : leb (2 ^ 31) i ≡ false = leb-false (2 ^ 31) i (h.0) in rw (e, w, f) refl
read_op-arguments (free (some i)) index size max_index words h =
    let e : i % int_mod ≡ i = omega arith in
    let f : i == int_mod - 1 ≡ false = ==-ne i (int_mod - 1) (omega arith) in rw (e, f) refl
read_op-arguments (free none) index size max_index words h = refl

highest-raised :
    (m : ℕ) (op : TraceOp) (ops : List TraceOp) → highest m (op ∷ ops) ≡ highest (raised m op) ops
highest-raised m (alloc i z) ops = refl
highest-raised m (realloc i z) ops = refl
highest-raised m (free i) ops = refl

scanned-words :
    (op : TraceOp) (size : ℕ) (words : List Word) → (scanned op size words).words ≡ words
scanned-words (alloc i z) size words = refl
scanned-words (realloc i z) size words = refl
scanned-words (free (some i)) size words = refl
scanned-words (free none) size words = refl

length-zero : (ops : List TraceOp) → length ops ≡ 0 → ops ≡ []
length-zero [] e = refl
length-zero (op ∷ ops) e = absurd (omega arith)

length-print_op : (op : TraceOp) (words : List Word) → length words + 1 ≤ length (print_op op words)
length-print_op (alloc i z) words = omega arith
length-print_op (realloc i z) words = omega arith
length-print_op (free (some i)) words = omega arith
length-print_op (free none) words = omega arith

length-print_ops : (ops : List TraceOp) → length ops ≤ length (print_ops ops)
length-print_ops [] = omega arith
length-print_ops (op ∷ ops) =
    omega (arith, length-print_op op (print_ops ops), length-print_ops ops)

accept-eq :
    (t : Trace) (ops : List TraceOp)
    → t.num_ids ≡ highest 0 ops + 1
    → t.num_ops ≡ length ops
    → accept t (highest 0 ops) ops ≡ some (record t { ops = ops })
unfolding accept
accept-eq t ops ids count = rw (ids, ==-refl (highest 0 ops + 1), count, ==-refl (length ops)) refl

read_ops-print_ops :
    (rounds num_ops op_index max_index : ℕ) (s : Scan) (ops : List TraceOp)
    → length ops ≤ rounds
    → op_index + length ops ≡ num_ops
    → All SmallIndex ops
    → s.words ≡ print_ops ops
    → read_ops rounds num_ops op_index max_index s ≡ some (ops, highest max_index ops)
unfolding read_ops
read_ops-print_ops zero num_ops op_index max_index s [] le end small words = refl
read_ops-print_ops (suc rounds) num_ops op_index max_index s [] le end small words = rw words refl
read_ops-print_ops zero num_ops op_index max_index s (op ∷ ops) le end small words =
    absurd (omega arith)
read_ops-print_ops (suc rounds) num_ops op_index max_index s (op ∷ ops) le end small words =
    let s' = scanned op s.size (print_ops ops) in
    let head = read_op-arguments op s.index s.size max_index (print_ops ops) small.0 in
    let ih =
      read_ops-print_ops rounds num_ops (op_index + 1) (raised max_index op) s' ops (omega arith)
        (omega arith) small.1 (scanned-words op s.size (print_ops ops)) in
    elim (Bool-cases (op_index + 1 == num_ops)) [
      | inl t ↦
          let last = eq_of_== (op_index + 1) num_ops t in
          let e : ops ≡ [] = length-zero ops (omega arith) in
          rw (words, print_op-eq op (print_ops ops), head, highest-raised max_index op ops, t, e)
            refl
      | inr f ↦
          rw (words, print_op-eq op (print_ops ops), head, highest-raised max_index op ops, f, ih)
            refl
    ]

-- read_trace gives back a trace that is written out as words: its weight is 3 at most, its indices
-- are not negative ints, num_ids is one more than the highest of those that allocate, and num_ops is
-- the number of its requests.
pub read_trace-print_ops :
    (t : Trace) (ops : List TraceOp)
    → t.weight ≤ 3
    → t.num_ids ≡ highest 0 ops + 1
    → t.num_ops ≡ length ops
    → All SmallIndex ops
    → read_trace t (print_ops ops) ≡ some (record t { ops = ops })
unfolding read_trace
read_trace-print_ops t ops weight ids count small =
    let s : Scan = record { index = 0; size = 0; words = print_ops ops } in
    rw
      (
        ltb-false 3 t.weight weight,
        read_ops-print_ops (length (print_ops ops)) t.num_ops 0 0 s ops (length-print_ops ops)
            (omega arith) small refl,
      )
      (accept-eq t ops ids count)
