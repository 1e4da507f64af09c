-- ===== src/Tests/Lines.antt =====
-- The line "ab : c" and the file of throughputs with the line "ab:x:7".
use malloc_implementation.Base.{ℕ, ◌≡◌, refl, arith, List, [], ◌∷◌, some, take}
use malloc_implementation.Driver.Tokens.{
  cparse_step, cparse_loop, cparse, line_buffer, line_tokens, plimit, lookup_ref_throughput,
  read_string, str_eq, find_cpu, find_tput, Cparse,
}
use malloc_implementation.Driver.Tokens.Fields.{fields}
use malloc_implementation.Driver.Tokens.Steps.{Found}
use malloc_implementation.Driver.Tokens.Strings.{CString}
use malloc_implementation.Driver.Tokens.Cut.{cparse-fields}

abbrev line : List ℕ
line = 97 ∷ 98 ∷ 32 ∷ 58 ∷ 32 ∷ 99 ∷ []

line-CString : CString (line_buffer line) 0 line
unfolding line_buffer
line-CString = (
  refl,
  omega arith,
  (
    refl,
    omega arith,
    (refl, omega arith, (refl, omega arith, (refl, omega arith, (refl, omega arith, refl)))),
  ),
)

cparse-fields_example :
    (q : Cparse) × (bound : ℕ) × (cparse 8 (line_buffer line) 0 ≡ some q)
    × Found q bound (take plimit (fields line))
cparse-fields_example = cparse-fields (line_buffer line) 0 line 8 line-CString (omega arith)

line_tokens_test : line_tokens line ≡ (97 ∷ 98 ∷ []) ∷ (99 ∷ []) ∷ []
unfolding line_tokens cparse cparse_loop cparse_step read_string line_buffer
line_tokens_test = refl

lookup_ref_throughput_test :
    lookup_ref_throughput
      (97 ∷ 98 ∷ [])
      (120 ∷ [])
      (some (line ∷ []))
      (some (line ∷ (99 ∷ 58 ∷ 120 ∷ 58 ∷ 55 ∷ []) ∷ []))
    ≡ some (55 ∷ [])
unfolding lookup_ref_throughput find_cpu find_tput str_eq line_tokens cparse cparse_loop cparse_step
    read_string line_buffer
lookup_ref_throughput_test = refl
