-- ===== src/Driver/Trace.antt =====
-- mdriver.c: read_trace, from the words of a trace file on. What fscanf makes of the file is a list
-- of words: of a word, %s gives the characters, of which the code reads the first, and %d, %u or
-- %lu the number that it stands for, if it is one. An index is the bit pattern of an int, and a
-- size is a word of 64 bits.
pub mod Print
use malloc_implementation.Base.{
  ℕ, zero, suc, ◌+◌, ◌-◌, ◌^◌, ◌%◌, Bool, true, false, Option, none, some, List, [], ◌∷◌, ltb, leb,
  ◌==◌, if◌then◌else◌, length,
}
use malloc_implementation.Base.Word.{word_mod}
use malloc_implementation.Driver.Replay.{TraceOp, alloc, free, realloc}

pub record Word : Type 0 where
  pub first_char : ℕ
  pub number : Option ℕ

-- The header and the requests of a trace_t.
pub record Trace : Type 0 where
  pub weight : ℕ
  pub num_ids : ℕ
  pub num_ops : ℕ
  pub data_bytes : ℕ
  pub ops : List TraceOp

-- The variables index and size, which keep their values where fscanf reads no number, and the words
-- that are left.
pub record Scan : Type 0 where
  pub index : ℕ
  pub size : ℕ
  pub words : List Word

abbrev pub int_mod : ℕ
int_mod = 2 ^ 32

-- fscanf of one number: the value or what the variable held, the words left, and whether one was read.
unfoldable pub scan_number : List Word → ℕ → ℕ × List Word × Bool
scan_number [] old = (old, [], false)
scan_number (w ∷ words) old = elim (w.number) [
  | some v ↦ (v, words, true)
  | none ↦ (old, w ∷ words, false)
]

-- `fscanf(tracefile, "%u", &index)`
unfoldable pub scan_index : Scan → Scan
unfolding scan_number
scan_index s =
    let (v, words, read) = scan_number s.words s.index in
    record s { index = v % int_mod; words = words }

-- `fscanf(tracefile, "%u %lu", &index, &size)`
unfoldable pub scan_index_size : Scan → Scan
unfolding scan_number scan_index
scan_index_size s =
    let (v, words, read) = scan_number s.words s.index in
    let (z, words', read') = scan_number words s.size in
    if read
    then record { index = v % int_mod; size = z % word_mod; words = words' }
    else scan_index s

abbrev pub is_negative_int : ℕ → Bool
is_negative_int i = leb (2 ^ 31) i

-- `max_index = (index > max_index) ? index : max_index` for a max_index that is not negative.
unfoldable pub raise : ℕ → ℕ → ℕ
raise max_index index =
    if is_negative_int index then max_index else if ltb max_index index then index else max_index

-- The request that a free of the index is; -1 stands for NULL.
unfoldable pub free_op : ℕ → TraceOp
free_op index = if index == int_mod - 1 then free none else free (some index)

-- The switch on the type of a request: the request, the variables, and max_index; `none` is
-- app_error.
unfoldable pub read_op : ℕ → Scan → ℕ → Option (TraceOp × Scan × ℕ)
unfolding scan_index scan_index_size raise free_op
read_op type s max_index =
    let s' = scan_index_size s in
    let f = scan_index s in
    if type == b'a'
    then some (alloc s'.index s'.size, s', raise max_index s'.index)
    else if type == b'r'
    then some (realloc s'.index s'.size, s', raise max_index s'.index)
    else if type == b'f'
    then some (free_op f.index, f, max_index)
    else none

-- One round of the loop, and the loop with `rounds` words at most: the requests and max_index.
abbrev pub read_rest :
    (TraceOp × Scan × ℕ → Option (List TraceOp × ℕ))
    → Option (TraceOp × Scan × ℕ)
    → Option (List TraceOp × ℕ)
read_rest k none = none
read_rest k (some r) = k r

abbrev pub add_op : TraceOp → Option (List TraceOp × ℕ) → Option (List TraceOp × ℕ)
add_op op none = none
add_op op (some (ops, max_index)) = some (op ∷ ops, max_index)

unfoldable pub read_ops : (rounds num_ops op_index max_index : ℕ) → Scan → Option (List TraceOp × ℕ)
unfolding read_op
read_ops zero num_ops op_index max_index s = some ([], max_index)
read_ops (suc rounds) num_ops op_index max_index s = elim (s.words) [
  | [] ↦ some ([], max_index)
  | type ∷ words ↦
      read_rest
        (λ r.
          let rest = read_ops rounds num_ops (op_index + 1) r.2 r.1 in
          add_op r.0 (if op_index + 1 == num_ops then some ([], r.2) else rest))
        (read_op type.first_char (record s { words = words }) max_index)
]

-- The assertions after the loop.
unfoldable pub accept : Trace → ℕ → List TraceOp → Option Trace
accept t max_index ops =
    if max_index + 1 == t.num_ids
    then if t.num_ops == length ops then some (record t { ops = ops }) else none
    else none

abbrev pub accept_read : Trace → Option (List TraceOp × ℕ) → Option Trace
unfolding accept
accept_read t none = none
accept_read t (some (ops, max_index)) = accept t max_index ops

-- read_trace of the words behind the header, whose four numbers are in `t`; `none` is the end of
-- the process by app_error or an assertion.
unfoldable pub read_trace : Trace → List Word → Option Trace
unfolding read_ops accept
read_trace t words =
    if ltb 3 t.weight
    then none
    else accept_read t
        (read_ops (length words) t.num_ops 0 0 (record { index = 0; size = 0; words = words }))
