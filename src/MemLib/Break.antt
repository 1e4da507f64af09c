-- ===== src/MemLib/Break.antt =====
-- mem_sbrk: when it grants memory, and what it changes.
use malloc_implementation.Base.{
  ℕ, suc, ◌+◌, ◌^◌, ◌≤◌, ◌<◌, ◌≡◌, ◌⊎◌, arith, true, false, if◌then◌else◌,
}
use malloc_implementation.MemLib.{Region, sbrk_failed, mem_sbrk, ask_os, sbrk_fail, sbrk_move}

-- The request is not negative, fits below the limit, and the C library grants it if it is asked.
pub record Granted (r : Region) (incr : ℕ) : Type 0 where
  pub nonnegative : incr < 2 ^ 63
  pub fits : r.mem_brk + incr ≤ r.mem_max_addr
  pub os : (r.sparse ≡ true) ⊎ (r.os_grants r.os_calls ≡ true)

abbrev pub Refused : Region → ℕ → Type 0
Refused r incr =
    (2 ^ 63 ≤ incr)
    ⊎ (r.mem_max_addr < r.mem_brk + incr)
    ⊎ ((r.sparse ≡ false) × (r.os_grants r.os_calls ≡ false))

-- The variables of memlib.c after a successful call.
abbrev pub moved : Region → ℕ → Region
moved r incr = record r {
  mem_brk = r.mem_brk + incr;
  os_calls = if r.sparse then r.os_calls else suc r.os_calls;
}

pub mem_sbrk-Granted :
    (r : Region) (incr : ℕ) → Granted r incr → mem_sbrk incr r ≡ (r.mem_brk, moved r incr)
unfolding mem_sbrk ask_os sbrk_move
mem_sbrk-Granted r incr g = ground arith

-- mem_sbrk either is granted, returns the old break and moves it up by the request, with the bytes
-- of the heap and its bounds kept; or it is refused, returns (void * )-1 and leaves the break, the
-- bounds and the bytes as they were.
pub mem_sbrk_cases :
    (r : Region) (incr : ℕ)
    → let (p, s) = mem_sbrk incr r in
      (s.heap ≡ r.heap)
      × (s.mem_max_addr ≡ r.mem_max_addr)
      × (s.bytes ≡ r.bytes)
      × ((Granted r incr × (p ≡ r.mem_brk) × (s.mem_brk ≡ r.mem_brk + incr))
          ⊎ (Refused r incr × (p ≡ sbrk_failed) × (s.mem_brk ≡ r.mem_brk)))
unfolding mem_sbrk ask_os sbrk_move sbrk_fail
mem_sbrk_cases r incr = ground arith
