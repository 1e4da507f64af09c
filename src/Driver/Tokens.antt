-- ===== src/Driver/Tokens.antt =====
-- mdriver.c: cparse, which cuts a line into fields in its own buffer, and the search for the
-- reference throughput in the files of such lines. A character is its code, a file the list of its
-- lines, and the buffer a function from addresses to characters.
pub mod Fields
pub mod Strings
pub mod Steps
pub mod Cut
use malloc_implementation.Base.{
  ℕ, zero, suc, ◌+◌, Bool, true, false, not, ◌&&◌, ◌||◌, Option, none, some, List, [], ◌∷◌, ◌++◌,
  ltb, ◌==◌, if◌then◌else◌, update, length,
}

abbrev pub plimit : ℕ
plimit = 10

-- The cases ' ', '\t', '\n' and '\r'.
abbrev pub is_space : ℕ → Bool
is_space c = c == 32 || c == 9 || c == 10 || c == 13

abbrev pub colon : ℕ
colon = 58

-- The buffer and the local variables of cparse.
pub record Cparse : Type 0 where
  pub buf : ℕ → ℕ
  pub found : ℕ
  pub is_done : Bool
  pub last_start : ℕ
  pub rpos : ℕ
  pub wpos : ℕ
  pub index : List ℕ

-- `index[found++] = last_start`, with the end of the token written.
abbrev pub finish_token : Cparse → Cparse
finish_token p = record p {
  buf = update p.buf p.wpos 0;
  index = p.index ++ p.last_start ∷ [];
  found = p.found + 1;
}

-- The switch on the character `c`.
unfoldable pub cparse_step : ℕ → Cparse → Cparse
cparse_step c p =
    if is_space c
    then p
    else if c == colon
    then record (finish_token p) { wpos = p.wpos + 1; last_start = p.wpos + 1 }
    else if c == 0
    then record (finish_token p) { is_done = true }
    else record p { buf = update p.buf p.wpos c; wpos = p.wpos + 1 }

-- The loop, on fuel.
unfoldable pub cparse_loop : ℕ → Cparse → Option Cparse
unfolding cparse_step
cparse_loop zero p = none
cparse_loop (suc fuel) p =
    let rest = cparse_loop fuel (cparse_step (p.buf p.rpos) (record p { rpos = p.rpos + 1 })) in
    if ltb p.found plimit && not p.is_done then rest else some p

unfoldable pub cparse : ℕ → (ℕ → ℕ) → ℕ → Option Cparse
cparse fuel buf s = cparse_loop fuel (record {
  buf = buf;
  found = 0;
  is_done = false;
  last_start = s;
  rpos = s;
  wpos = s;
  index = [];
})

-- The C string at an address, of no more than `fuel` characters.
unfoldable pub read_string : ℕ → (ℕ → ℕ) → ℕ → List ℕ
read_string zero buf a = []
read_string (suc fuel) buf a =
    let rest = read_string fuel buf (a + 1) in if buf a == 0 then [] else buf a ∷ rest

-- `fgets(buf, ...)` of a line: the buffer holds it with its end.
unfoldable pub line_buffer : List ℕ → ℕ → ℕ
line_buffer [] a = 0
line_buffer (c ∷ w) zero = c
line_buffer (c ∷ w) (suc a) = line_buffer w a

abbrev pub tokens_at : ℕ → (ℕ → ℕ) → List ℕ → List (List ℕ)
tokens_at fuel buf [] = []
tokens_at fuel buf (i ∷ is) = read_string fuel buf i ∷ tokens_at fuel buf is

abbrev pub tokens_of : ℕ → Option Cparse → List (List ℕ)
tokens_of fuel none = []
tokens_of fuel (some p) = tokens_at fuel p.buf p.index

-- The tokens that cparse makes of a line.
unfoldable pub line_tokens : List ℕ → List (List ℕ)
unfolding cparse read_string line_buffer
line_tokens line = tokens_of (length line + 1) (cparse (length line + 2) (line_buffer line) 0)

-- strcmp(a, b) == 0
unfoldable pub str_eq : List ℕ → List ℕ → Bool
str_eq [] [] = true
str_eq (a ∷ x) (b ∷ y) = a == b && str_eq x y
str_eq [] (b ∷ y) = false
str_eq (a ∷ x) [] = false

abbrev pub cpu_of : List ℕ → List (List ℕ) → Option (List ℕ)
cpu_of key (k ∷ v ∷ ts) = if str_eq key k then some v else none
cpu_of key ts = none

-- The loop that scans the file with the CPU's description for the line of the key.
unfoldable pub find_cpu : List ℕ → List (List ℕ) → Option (List ℕ)
unfolding line_tokens str_eq
find_cpu key [] = none
find_cpu key (line ∷ lines) =
    let rest = find_cpu key lines in
    elim (cpu_of key (line_tokens line)) [ some v ↦ some v | none ↦ rest ]

abbrev pub tput_of : List ℕ → List ℕ → List (List ℕ) → Option (List ℕ)
tput_of cpu bench (c ∷ b ∷ v ∷ ts) = if str_eq c cpu && str_eq b bench then some v else none
tput_of cpu bench ts = none

-- The loop that scans the file of throughputs.
unfoldable pub find_tput : List ℕ → List ℕ → List (List ℕ) → Option (List ℕ)
unfolding line_tokens str_eq
find_tput cpu bench [] = none
find_tput cpu bench (line ∷ lines) =
    let rest = find_tput cpu bench lines in
    elim (tput_of cpu bench (line_tokens line)) [ some v ↦ some v | none ↦ rest ]

-- The argument of atof, `none` where the code returns 0.0 before it. A file that cannot be opened is
-- `none`.
unfoldable pub lookup_ref_throughput :
    (cpu_key bench_type : List ℕ) → (ifile tfile : Option (List (List ℕ))) → Option (List ℕ)
unfolding find_cpu find_tput
lookup_ref_throughput cpu_key bench_type none tfile = none
lookup_ref_throughput cpu_key bench_type (some lines) none = none
lookup_ref_throughput cpu_key bench_type (some lines) (some entries) =
    elim (find_cpu cpu_key lines) [ none ↦ none | some cpu ↦ find_tput cpu bench_type entries ]
