-- ===== src/Driver/Suite/Whole.antt =====
-- The whole loop of run_tests.
use malloc_implementation.Base.{ℕ, suc, ◌≡◌, ◌↔◌, true, some, List, [], ◌∷◌}
use malloc_implementation.Machine.{Machine, done, ◌>>=◌}
use malloc_implementation.Driver.Trace.{Trace, Word, read_trace}
use malloc_implementation.Driver.Suite.{Suite, Stats, run_test}
use malloc_implementation.Driver.Suite.Judged.{BothTrue, cleared}

module _ {A : Type 0} (s : Suite A) where
  -- Each file from the `i`-th on has the record of the test of its trace, which runs on what the tests
  -- before it have left.
  abbrev pub AllJudged : ℕ → List (Trace × List Word) → List (Stats A) → (h k : Machine) → Type 0
  AllJudged i [] [] h k = h ≡ k
  AllJudged i (file ∷ files) (st ∷ stats) h k =
      ((trace : Trace) × (read_trace file.0 file.1 ≡ some trace)
        × ((st.valid ≡ true) ↔ BothTrue s i trace (cleared s i h)))
      × ((g : Machine) × (run_test s i file h ≡ done st g) × AllJudged (suc i) files stats g k)
  AllJudged i [] (st ∷ stats) h k = ⊥
  AllJudged i (file ∷ files) [] h k = ⊥
