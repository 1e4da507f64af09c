-- ===== src/Machine/Access.antt =====
-- What the word accesses do in the heap and outside of it.
use malloc_implementation.Base.{ℕ, ◌+◌, ◌≤◌, ◌<◌, ◌≡◌, ◌⊎◌, true, false, arith}
use malloc_implementation.Memory.Words.{word, set_word}
use malloc_implementation.Machine.{
  Machine, done, fault, in_heap, load, store, with_bytes, mem_read, mem_write,
}
use malloc_implementation.Memory.{Bytes, read_le, write_le}

-- The `n` bytes from `a` lie in the heap.
abbrev pub InHeap : ℕ → ℕ → Machine → Type 0
InHeap n a h = (h.heap ≤ a) × (a + n ≤ h.mem_brk)

pub in_heap-true : (n a : ℕ) (h : Machine) → InHeap n a h → in_heap n a h ≡ true
unfolding in_heap
in_heap-true n a h i = ground arith

pub in_heap-false :
    (n a : ℕ) (h : Machine) → (a < h.heap) ⊎ (h.mem_brk < a + n) → in_heap n a h ≡ false
unfolding in_heap
in_heap-false n a h i = ground arith

pub load-done : (a : ℕ) (h : Machine) → InHeap 8 a h → load a h ≡ done (word h.bytes a) h
unfolding load
load-done a h i = rw (in_heap-true 8 a h i)

pub store-done :
    (a v : ℕ) (h : Machine)
    → InHeap 8 a h
    → store a v h ≡ done tt (with_bytes h (set_word h.bytes a v))
unfolding store
store-done a v h i = rw (in_heap-true 8 a h i)

pub load-fault : (a : ℕ) (h : Machine) → (a < h.heap) ⊎ (h.mem_brk < a + 8) → load a h ≡ fault
unfolding load
load-fault a h o = rw (in_heap-false 8 a h o)

pub store-fault : (a v : ℕ) (h : Machine) → (a < h.heap) ⊎ (h.mem_brk < a + 8) → store a v h ≡ fault
unfolding store
store-fault a v h o = rw (in_heap-false 8 a h o)

pub mem_read-done :
    (a n : ℕ) (h : Machine) → InHeap n a h → mem_read a n h ≡ done (read_le n h.bytes a) h
unfolding mem_read
mem_read-done a n h i = rw (in_heap-true n a h i)

pub mem_write-done :
    (a v n : ℕ) (h : Machine)
    → InHeap n a h
    → mem_write a v n h ≡ done tt (with_bytes h (write_le n h.bytes a v))
unfolding mem_write
mem_write-done a v n h i = rw (in_heap-true n a h i)

-- The same at a machine whose memory has changed.
pub load-with_bytes :
    (a : ℕ) (h : Machine) (m : Bytes)
    → InHeap 8 a h
    → load a (with_bytes h m) ≡ done (word m a) (with_bytes h m)
load-with_bytes a h m i = load-done a (with_bytes h m) i

pub store-with_bytes :
    (a v : ℕ) (h : Machine) (m : Bytes)
    → InHeap 8 a h
    → store a v (with_bytes h m) ≡ done tt (with_bytes h (set_word m a v))
store-with_bytes a v h m i = store-done a v (with_bytes h m) i
