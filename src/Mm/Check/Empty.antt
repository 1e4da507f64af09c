-- ===== src/Mm/Check/Empty.antt =====
-- mm_checkheap never accepts a heap with an empty size class.
use malloc_implementation.Base.{
  ℕ, zero, suc, ◌+◌, ◌-◌, ◌≤◌, ◌<◌, ◌≡◌, ◌≢◌, refl, Bool, true, false, ◌||◌, ltb, ◌==◌,
  if◌then◌else◌, arith, ap, subst, ◌∙◌, Bool-cases, inl, inr,
}
use malloc_implementation.Machine.{
  Machine, Cmd, Run, done, fault, out_of_fuel, continue, pure, get_seg, get_start,
}
use malloc_implementation.Machine.Reads.{Only, Only-bind, Reads, Reads-if}
use malloc_implementation.Mm.Header.{num_segs}
use malloc_implementation.Mm.Blocks.{null, get_alloc}
use malloc_implementation.Mm.Check.{
  heap_lo, heap_hi, ensure, check_end, check_links, check_blocks, check_segs, check_from,
  mm_checkheap,
}
use malloc_implementation.Mm.Check.Reads.{
  check_end-Reads, check_blocks-Reads, get_alloc-Reads, check_links-Reads,
}

abbrev Refuses : Run Bool → Type 0
Refuses = Only (λ good. good ≡ false)

abbrev RefusesSegs : Run (Bool × ℕ) → Type 0
RefusesSegs = Only (λ p. p.0 ≡ false)

-- The command refuses every machine whose class `j` is empty.
abbrev Refusing : ℕ → Cmd Bool → Type 0
Refusing j m = (h : Machine) → h.seg_list j ≡ null → Refuses (m h)

Refusing-bind :
    {A : Type 0} (j : ℕ) (m : Cmd A) (k : A → Cmd Bool)
    → Reads m
    → ((a : A) → Refusing j (k a))
    → Refusing j (λ h. continue (m h) k)
Refusing-bind j m k r only h e = Only-bind (λ good. good ≡ false) h m k r (λ a. only a h e)

head_inside :
    (p start epilogue : ℕ) → 0 < start → (ltb p start || ltb epilogue p) ≡ false → p ≢ null
head_inside p start epilogue pos e = ground arith

RefusesSegs-if :
    (b : Bool) (h : Machine) (m : Cmd (Bool × ℕ)) (heads : ℕ)
    → RefusesSegs (m h)
    → RefusesSegs ((if b then m else pure (false, heads)) h)
RefusesSegs-if true h m heads r = r
RefusesSegs-if false h m heads r = refl

check_segs-RefusesSegs :
    (h : Machine) (j rounds i start epilogue heads : ℕ)
    → h.seg_list j ≡ null
    → 0 < start
    → i ≤ j
    → j < rounds + i
    → RefusesSegs (check_segs rounds i start epilogue heads h)
unfolding check_segs get_seg
check_segs-RefusesSegs h j zero i start epilogue heads e pos le lt = absurd (omega arith)
check_segs-RefusesSegs h j (suc rounds) i start epilogue heads e pos le lt =
    elim (Bool-cases (ltb (h.seg_list i) start || ltb epilogue (h.seg_list i))) [
      | inl out ↦ rw out refl
      | inr inside ↦
          let other : i ≢ j =
            λ q. head_inside (h.seg_list i) start epilogue pos inside (ap h.seg_list q ∙ e) in
          let later : suc i ≤ j = omega arith in
          rw inside (
            Only-bind (λ p. p.0 ≡ false) h (get_alloc (h.seg_list i)) _
              (get_alloc-Reads (h.seg_list i))
              (λ a.
                Only-bind (λ p. p.0 ≡ false) h (if a then pure true else check_links (h.seg_list i))
                  _ (Reads-if a _ _ (λ g. refl) (check_links-Reads (h.seg_list i)))
                  (λ good. RefusesSegs-if good h _ (heads) (
                    check_segs-RefusesSegs h j rounds (i + 1) start epilogue
                      (if a then heads else heads + 1) e pos (omega arith) (omega arith)))))
    ]

ensure-Refusing :
    (j : ℕ) (b : Bool) (rest : Cmd Bool) → Refusing j rest → Refusing j (ensure b rest)
ensure-Refusing j true rest r h e = r h e
ensure-Refusing j false rest r h e = refl

-- A failed walk over the classes fails the check.
continue-Refuses :
    (r : Run (Bool × ℕ)) (count : ℕ)
    → RefusesSegs r
    → Refuses (continue r (λ q. ensure q.0 (pure (q.1 == count))))
continue-Refuses (done (good, heads) g) count e = rw e refl
continue-Refuses fault count e = tt
continue-Refuses out_of_fuel count e = tt

check_from-Refusing :
    (fuel j start : ℕ) → j < num_segs → 0 < start → Refusing j (check_from fuel start)
unfolding check_from heap_lo heap_hi
check_from-Refusing fuel j start lt pos =
    Refusing-bind j heap_lo _ (λ g. refl)
      (λ prologue.
        Refusing-bind j (check_end prologue 0) _ (check_end-Reads prologue 0) (λ first_good.
          ensure-Refusing j first_good _ (
            Refusing-bind j heap_hi _ (λ g. refl)
              (λ last.
                Refusing-bind j (check_end (last + 1 - 8) 8) _ (check_end-Reads (last + 1 - 8) 8)
                  (λ last_good. ensure-Refusing j last_good _ (
                    Refusing-bind j (check_blocks fuel start (last + 1 - 8) start 0) _
                      (check_blocks-Reads fuel start (last + 1 - 8) start 0)
                      (λ p. ensure-Refusing j p.0 _ (λ h e.
                        continue-Refuses (check_segs num_segs 0 start (last + 1 - 8) 0 h) p.1 (
                          check_segs-RefusesSegs h j num_segs 0 start (last + 1 - 8) 0 e pos
                            (omega arith) (omega arith))))))))))

mm_checkheap-Refuses :
    (fuel j : ℕ) (h : Machine) → j < num_segs → h.seg_list j ≡ null → Refuses (mm_checkheap fuel h)
unfolding mm_checkheap get_start
mm_checkheap-Refuses fuel j h lt e = elim (Bool-cases (h.heap_start == null)) [
  | inl t ↦ rw t refl
  | inr f ↦ rw f (check_from-Refusing fuel j h.heap_start lt (ground arith) h e)
]

-- Where the head of some size class is NULL, mm_checkheap does not return true.
pub mm_checkheap_refuses_empty :
    (fuel j : ℕ) (h : Machine)
    → j < num_segs
    → h.seg_list j ≡ null
    → (g : Machine) → mm_checkheap fuel h ≢ done true g
mm_checkheap_refuses_empty fuel j h lt e g run =
    cc (subst Refuses run (mm_checkheap-Refuses fuel j h lt e))
