-- ===== src/Mm/Check/Reads.antt =====
-- mm_checkheap changes nothing.
use malloc_implementation.Base.{
  ℕ, zero, suc, ◌+◌, ◌-◌, refl, Bool, true, false, ◌||◌, not, ltb, ◌==◌, if◌then◌else◌,
}
use malloc_implementation.Machine.{Machine, Cmd, pure, load, get_seg, get_start}
use malloc_implementation.Machine.Reads.{
  Same, Reads, Reads-bind, Reads-if, load-Reads, get_start-Reads, get_seg-Reads,
}
use malloc_implementation.Mm.Header.{extract_size}
use malloc_implementation.Mm.Blocks.{
  null, get_size, get_alloc, get_next, get_prev, header_to_footer, footer_to_header, find_next,
  find_prev, find_prev_footer,
}
use malloc_implementation.Mm.Check.{
  heap_lo, heap_hi, ensure, check_end, check_links, check_neighbours, check_alignment, check_tags,
  check_block, check_blocks, check_segs, check_from, mm_checkheap,
}

pub get_size-Reads : (b : ℕ) → Reads (get_size b)
unfolding get_size
get_size-Reads b = Reads-bind (load b) _ (load-Reads b) (λ w g. refl)

pub get_alloc-Reads : (b : ℕ) → Reads (get_alloc b)
unfolding get_alloc
get_alloc-Reads b = Reads-bind (load b) _ (load-Reads b) (λ w g. refl)

pub find_next-Reads : (b : ℕ) → Reads (find_next b)
unfolding find_next
find_next-Reads b = Reads-bind (get_size b) _ (get_size-Reads b) (λ s g. refl)

pub header_to_footer-Reads : (b : ℕ) → Reads (header_to_footer b)
unfolding header_to_footer
header_to_footer-Reads b = Reads-bind (get_size b) _ (get_size-Reads b) (λ s g. refl)

pub find_prev-Reads : (b : ℕ) → Reads (find_prev b)
unfolding find_prev footer_to_header
find_prev-Reads b = Reads-bind (load (find_prev_footer b)) _ (load-Reads (find_prev_footer b)) (λ w.
    Reads-if (extract_size w == 0) _ _ (λ g. refl)
      (Reads-bind (load (find_prev_footer b)) _ (load-Reads (find_prev_footer b)) (λ v g. refl)))

pub ensure-Reads : (b : Bool) (rest : Cmd Bool) → Reads rest → Reads (ensure b rest)
ensure-Reads b rest r = Reads-if b rest (pure false) r (λ g. refl)

pub check_end-Reads : (b n : ℕ) → Reads (check_end b n)
unfolding check_end
check_end-Reads b n = Reads-bind (get_alloc b) _ (get_alloc-Reads b) (λ a.
    Reads-bind (get_size b) _ (get_size-Reads b)
      (λ s. ensure-Reads (not (ltb 0 s || not a)) _ (λ g. refl)))

pub check_links-Reads : (b : ℕ) → Reads (check_links b)
unfolding check_links get_next get_prev
check_links-Reads b = Reads-bind (get_next b) _ (load-Reads (b + 8)) (λ n.
    Reads-if (n == null) _ _ (λ g. refl)
      (Reads-bind (get_prev n) _ (load-Reads (n + 16)) (λ p g. refl)))

pub check_neighbours-Reads : (b : ℕ) → Reads (check_neighbours b)
unfolding check_neighbours
check_neighbours-Reads b = Reads-bind (find_next b) _ (find_next-Reads b) (λ n.
    Reads-bind (get_alloc n) _ (get_alloc-Reads n) (λ a. ensure-Reads a _ (
      Reads-bind (find_prev b) _ (find_prev-Reads b) (λ p.
        Reads-if (p == null) _ _ (λ g. refl)
          (Reads-bind (get_alloc p) _ (get_alloc-Reads p) (λ x g. refl))))))

pub check_tags-Reads : (b : ℕ) (alloc : Bool) → Reads (check_tags b alloc)
unfolding check_tags
check_tags-Reads b alloc = Reads-bind (load b) _ (load-Reads b) (λ w.
    Reads-bind (header_to_footer b) _ (header_to_footer-Reads b) (λ f.
      Reads-bind (load f) _ (load-Reads f) (λ v. ensure-Reads (w == v) _ (
        Reads-if alloc (pure true) _ (λ g. refl)
          (Reads-bind (check_neighbours b) _ (check_neighbours-Reads b)
            (λ good. ensure-Reads good _ (check_links-Reads b)))))))

pub check_block-Reads :
    (start epilogue b : ℕ) (alloc : Bool) → Reads (check_block start epilogue b alloc)
unfolding check_block
check_block-Reads start epilogue b alloc =
    let inside = not (ltb b start || ltb epilogue b) in
    ensure-Reads (check_alignment b 8) (ensure inside (check_tags b alloc))
      (ensure-Reads inside (check_tags b alloc) (check_tags-Reads b alloc))

pub check_blocks-Reads :
    (fuel start epilogue b count : ℕ) → Reads (check_blocks fuel start epilogue b count)
unfolding check_blocks
check_blocks-Reads zero start epilogue b count = λ g. tt
check_blocks-Reads (suc fuel) start epilogue b count =
    Reads-if (b == epilogue) _ _ (λ g. refl)
      (Reads-bind (get_alloc b) _ (get_alloc-Reads b) (λ a.
        Reads-bind (check_block start epilogue b a) _ (check_block-Reads start epilogue b a)
          (λ good.
            Reads-if good _ _
              (Reads-bind (find_next b) _ (find_next-Reads b)
                (λ n. check_blocks-Reads fuel start epilogue n (if a then count else count + 1)))
              (λ g. refl))))

pub check_segs-Reads :
    (rounds i start epilogue heads : ℕ) → Reads (check_segs rounds i start epilogue heads)
unfolding check_segs
check_segs-Reads zero i start epilogue heads = λ g. refl
check_segs-Reads (suc rounds) i start epilogue heads =
    Reads-bind (get_seg i) _ (get_seg-Reads i) (λ b.
      Reads-if (ltb b start || ltb epilogue b) _ _ (λ g. refl)
        (Reads-bind (get_alloc b) _ (get_alloc-Reads b) (λ a.
          Reads-bind (if a then pure true else check_links b) _
            (Reads-if a _ _ (λ g. refl) (check_links-Reads b))
            (λ good.
              Reads-if good _ _
                (check_segs-Reads rounds (i + 1) start epilogue (if a then heads else heads + 1))
                (λ g. refl)))))

check_from-Reads : (fuel start : ℕ) → Reads (check_from fuel start)
unfolding check_from heap_lo heap_hi
check_from-Reads fuel start =
    Reads-bind heap_lo _ (λ g. refl)
      (λ prologue. Reads-bind (check_end prologue 0) _ (check_end-Reads prologue 0) (λ first_good.
        ensure-Reads first_good _ (
          Reads-bind heap_hi _ (λ g. refl)
            (λ last.
              Reads-bind (check_end (last + 1 - 8) 8) _ (check_end-Reads (last + 1 - 8) 8)
                (λ last_good. ensure-Reads last_good _ (
                  Reads-bind (check_blocks fuel start (last + 1 - 8) start 0) _
                    (check_blocks-Reads fuel start (last + 1 - 8) start 0)
                    (λ p. ensure-Reads p.0 _ (
                      Reads-bind (check_segs 15 0 start (last + 1 - 8) 0) _
                        (check_segs-Reads 15 0 start (last + 1 - 8) 0)
                        (λ q. ensure-Reads q.0 (pure (q.1 == p.1)) (λ g. refl))))))))))

-- Whatever its verdict, mm_checkheap leaves the heap and every variable as they were.
pub mm_checkheap-Same : (fuel : ℕ) (h : Machine) → Same h (mm_checkheap fuel h)
unfolding mm_checkheap
mm_checkheap-Same fuel =
    Reads-bind get_start _ get_start-Reads
      (λ start. Reads-if (start == null) _ _ (λ g. refl) (check_from-Reads fuel start))
