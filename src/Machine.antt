-- ===== src/Machine.antt =====
-- The state of a process that runs mm.c over memlib.c, and the commands on it. A command ends in
-- a value and a new state, in a fault (an access that does not lie in the heap, as one through
-- NULL), or with its fuel used up.
pub mod Returns
pub mod Ended
pub mod Access
pub mod Reads
use malloc_implementation.Base.{ℕ, ◌+◌, Bool, ltb, leb, ◌&&◌, if◌then◌else◌, update}
use malloc_implementation.Memory.{read_le, write_le}
use malloc_implementation.Memory.Words.{word, set_word}
use malloc_implementation.MemLib.{Region, mem_sbrk}

-- The globals of memlib.c and of mm.c.
pub record Machine : Type 0 where
  pub region : Region
  pub open region use *
  pub heap_start : ℕ
  pub seg_list : ℕ → ℕ

pub data Run (A : Type 0) : Type 0 where
  done : A → Machine → Run A
  fault : Run A
  out_of_fuel : Run A

abbrev pub Cmd : Type 0 → Type 0
Cmd A = Machine → Run A

abbrev pub pure : {A : Type 0} → A → Cmd A
pure a = done a

module _ {A B : Type 0} where
  abbrev pub continue : Run A → (A → Cmd B) → Run B
  continue (done a h) k = k a h
  continue fault k = fault
  continue out_of_fuel k = out_of_fuel

  infixl 5 ◌>>=◌ ◌>>◌
  abbrev pub ◌>>=◌ : Cmd A → (A → Cmd B) → Cmd B
  m >>= k = λ h. continue (m h) k

  abbrev pub ◌>>◌ : Cmd A → Cmd B → Cmd B
  m >> k = m >>= λ _. k

abbrev pub skip : Cmd (Unit {0})
skip = pure tt

-- Are the `n` bytes from `a` in the heap?
unfoldable pub in_heap : ℕ → ℕ → Machine → Bool
in_heap n a h = leb h.heap a && leb (a + n) h.mem_brk

-- A word access of mm.c through a pointer.
unfoldable pub load : ℕ → Cmd ℕ
unfolding in_heap
load a h = if in_heap 8 a h then done (word h.bytes a) h else fault

abbrev pub with_bytes : Machine → (ℕ → ℕ) → Machine
with_bytes h m = record h { region = record (h.region) { bytes = m } }

unfoldable pub store : ℕ → ℕ → Cmd (Unit {0})
unfolding in_heap
store a v h = if in_heap 8 a h then done tt (with_bytes h (set_word h.bytes a v)) else fault

-- memlib.c mem_read and mem_write, the direct access of dense mode.
unfoldable pub mem_read : ℕ → ℕ → Cmd ℕ
unfolding in_heap
mem_read a len h = if in_heap len a h then done (read_le len h.bytes a) h else fault

unfoldable pub mem_write : ℕ → ℕ → ℕ → Cmd (Unit {0})
unfolding in_heap
mem_write a v len h =
    if in_heap len a h then done tt (with_bytes h (write_le len h.bytes a v)) else fault

unfoldable pub sbrk : ℕ → Cmd ℕ
sbrk incr h = let (p, r) = mem_sbrk incr h.region in done p (record h { region = r })

unfoldable pub get_start : Cmd ℕ
get_start h = done h.heap_start h

unfoldable pub set_start : ℕ → Cmd (Unit {0})
set_start p h = done tt (record h { heap_start = p })

unfoldable pub get_seg : ℕ → Cmd ℕ
get_seg i h = done (h.seg_list i) h

unfoldable pub set_seg : ℕ → ℕ → Cmd (Unit {0})
set_seg i p h = done tt (record h { seg_list = update h.seg_list i p })
