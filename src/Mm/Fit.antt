-- ===== src/Mm/Fit.antt =====
-- mm.c: find_fit. In the first class that has a block large enough, it takes the smallest of the
-- first five such blocks.
pub mod Best
pub mod Scan
pub mod Found
use malloc_implementation.Base.{ℕ, zero, suc, ◌+◌, ◌-◌, Bool, ltb, leb, ◌==◌, ◌||◌, if◌then◌else◌}
use malloc_implementation.Machine.{Cmd, out_of_fuel, pure, ◌>>=◌, ◌>>◌, get_seg}
use malloc_implementation.Mm.Header.{num_segs, find_index}
use malloc_implementation.Mm.Blocks.{null, get_size, get_next}

-- The local variables of find_fit.
pub record Fit : Type 0 where
  pub count : ℕ
  pub fit_block : ℕ
  pub min_fit_size : ℕ

abbrev pub take_fit : ℕ → ℕ → Fit → Fit
take_fit block size f = record f { fit_block = block; min_fit_size = size }

-- The body of the inner loop.
unfoldable pub consider : ℕ → ℕ → ℕ → Fit → Fit
consider asize block size f =
    if leb asize size
    then (let first : Fit = if f.count == 5 then take_fit block size f else f in
        let better : Fit =
          if ltb size first.min_fit_size then take_fit block size first else first in
        record better { count = better.count - 1 })
    else f

-- The inner loop, over the blocks of a class.
unfoldable pub scan_class : ℕ → ℕ → ℕ → Fit → Cmd Fit
unfolding consider
scan_class zero asize block f = λ _. out_of_fuel
scan_class (suc fuel) asize block f = if (block == null) || (f.count == 0) then pure f else (do
  size ← get_size block
  next ← get_next block
  scan_class fuel asize next (consider asize block size f))

-- The outer loop, over the classes from `i`, of which `rounds` are left.
unfoldable pub scan_classes : ℕ → ℕ → ℕ → ℕ → Fit → Cmd ℕ
unfolding scan_class
scan_classes fuel zero i asize f = pure null
scan_classes fuel (suc rounds) i asize f = do
  head ← get_seg i
  f' ← scan_class fuel asize head f
  if f'.fit_block == null then scan_classes fuel rounds (i + 1) asize f' else pure f'.fit_block

abbrev pub no_fit : Fit
no_fit = record { count = 5; fit_block = null; min_fit_size = 0 }

unfoldable pub find_fit : ℕ → ℕ → Cmd ℕ
unfolding scan_classes
find_fit fuel asize =
    scan_classes fuel (num_segs - find_index asize) (find_index asize) asize no_fit
