-- ===== src/MemLib.antt =====
-- memlib.c: the simulated break of the heap. One `Region` holds the module's private variables
-- that `mem_sbrk` and the accessors use, with the bytes of the heap. What the C library's own
-- `sbrk` answers is a parameter, `os_grants`: the answer to the n-th call made.
pub mod Copy
pub mod Sparse
pub mod Break
use malloc_implementation.Base.{
  ℕ, suc, ◌+◌, ◌-◌, ◌*◌, ◌^◌, Bool, true, false, not, ◌&&◌, ltb, leb, if◌then◌else◌,
}
use malloc_implementation.Base.Word.{word_mod, add64, sub64}
use malloc_implementation.Memory.{Bytes}

pub record Region : Type 0 where
  pub sparse : Bool
  pub heap : ℕ
  pub mem_brk : ℕ
  pub mem_max_addr : ℕ
  pub bytes : Bytes
  pub errno : ℕ
  pub os_grants : ℕ → Bool
  pub os_calls : ℕ

-- `(void * )-1`, the failure value of `mem_sbrk`.
abbrev pub sbrk_failed : ℕ
sbrk_failed = 2 ^ 64 - 1

abbrev enomem : ℕ
enomem = 12

abbrev max_dense_heap : ℕ
max_dense_heap = 100 * 2 ^ 20

abbrev max_sparse_heap : ℕ
max_sparse_heap = 2 ^ 62

-- The parameter of `mem_sbrk` is an `intptr_t`: a word from 2 ^ 63 on is a negative number.
abbrev pub is_negative : ℕ → Bool
is_negative incr = leb (2 ^ 63) incr

sbrk_fail : Region → ℕ × Region
sbrk_fail r = (sbrk_failed, record r { errno = enomem })

sbrk_move : ℕ → Region → ℕ × Region
sbrk_move incr r = (r.mem_brk, record r { mem_brk = r.mem_brk + incr })

-- The last guard: the C library's `sbrk` is asked in dense mode only.
ask_os : ℕ → Region → ℕ × Region
unfolding sbrk_fail sbrk_move
ask_os incr r =
    if r.sparse
    then sbrk_move incr r
    else (let r' : Region = record r { os_calls = suc r.os_calls } in
        if not (r.os_grants r.os_calls) then sbrk_fail r' else sbrk_move incr r')

unfoldable pub mem_sbrk : ℕ → Region → ℕ × Region
unfolding sbrk_fail ask_os
mem_sbrk incr r =
    if is_negative incr
    then sbrk_fail r
    else if ltb r.mem_max_addr (r.mem_brk + incr)
    then sbrk_fail r
    else ask_os incr r

unfoldable pub mem_heap_lo : Region → ℕ
mem_heap_lo r = r.heap

unfoldable pub mem_heap_hi : Region → ℕ
mem_heap_hi r = r.mem_brk - 1

unfoldable pub mem_heapsize : Region → ℕ
mem_heapsize r = r.mem_brk - r.heap

abbrev pub sparse_heap_start : ℕ
sparse_heap_start = 0x2130051300000000

-- The variables of the break; `mapped` is the address that mmap gave to the dense heap.
unfoldable pub mem_init : Bool → ℕ → Region → Region
mem_init do_sparse mapped r =
    let start = if do_sparse then sparse_heap_start else mapped in
    record r {
      sparse = do_sparse;
      heap = start;
      mem_max_addr = start + (if do_sparse then max_sparse_heap else max_dense_heap);
      mem_brk = start;
    }

-- The break alone: the heap is empty again.
unfoldable pub mem_reset_brk : Region → Region
mem_reset_brk r = record r { mem_brk = r.heap }
