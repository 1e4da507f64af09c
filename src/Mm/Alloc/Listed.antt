-- ===== src/Mm/Alloc/Listed.antt =====
-- The classes before malloc takes a block from the middle of one, and after.
use malloc_implementation.Base.{
  ℕ, ◌+◌, ◌≤◌, ◌≡◌, ◌≢◌, ap, ◌∙◌, ◌⊎◌, inl, inr, arith, List, [], ◌∷◌, ◌++◌, All,
}
use malloc_implementation.Memory.{Bytes}
use malloc_implementation.Memory.Words.{word}
use malloc_implementation.Machine.{Machine}
use malloc_implementation.Mm.Header.{find_index, extract_size, extract_alloc}
use malloc_implementation.Mm.Blocks.{null}
use malloc_implementation.Mm.FreeList.Lists.{
  Node, Apart, Separated, Doubly, Doubly-frame, OutsideLinks, Relinked, SameLinks,
}
use malloc_implementation.Mm.Coalesce.Next.{Clear, Clear-OutsideLinks, All-middle}
use malloc_implementation.Mm.Alloc.Cut.{Cuttable}

-- The block `b` stands between `xs` and `ys` in the class `i`. The class `index` of the rest has the
-- blocks `zs` when `b` has left its class.
pub record Listed (h : Machine) (b size i : ℕ) (xs ys : List ℕ) (index : ℕ) (zs : List ℕ)
    : Type 0 where
  pub class : find_index size ≡ i
  pub doubly : i ≢ 0
  pub links : Doubly h.bytes null (h.seg_list i) (xs ++ b ∷ ys)
  pub nodes : All (Node h) (xs ++ b ∷ ys)
  pub separated : Separated (xs ++ b ∷ ys)
  pub clear : Clear b (b + size) (xs ++ ys)
  pub other :
      ((index ≡ i) × (zs ≡ xs ++ ys))
      ⊎ ((index ≢ i)
          × Doubly h.bytes null (h.seg_list index) zs
          × All (λ z. All (Apart z) (xs ++ b ∷ ys)) zs)

pub Apart-OutsideLinks :
    (z : ℕ) (xs : List ℕ) → All (Apart z) xs → OutsideLinks (z + 8) xs × OutsideLinks (z + 16) xs
Apart-OutsideLinks z [] a = (tt, tt)
Apart-OutsideLinks z (x ∷ xs) a =
    let (p, q) = Apart-OutsideLinks z xs a.1 in ((omega (arith, a.0), p), (omega (arith, a.0), q))

-- The links of a class are spared by a change of links of blocks apart from it.
Apart-SameLinks :
    (m g : Bytes) (touched zs : List ℕ)
    → ((a : ℕ) → OutsideLinks a touched → word g a ≡ word m a)
    → All (λ z. All (Apart z) touched) zs
    → All (SameLinks m g) zs
Apart-SameLinks m g touched [] same a = tt
Apart-SameLinks m g touched (z ∷ zs) same a =
    let (p, q) = Apart-OutsideLinks z touched a.0 in
    ((same (z + 8) p, same (z + 16) q), Apart-SameLinks m g touched zs same a.1)

-- The machine after the removal is fit for the end of malloc.
module _ (h g : Machine) (b size i : ℕ) (xs ys : List ℕ) (index : ℕ) (zs : List ℕ)
    (l : Listed h b size i xs ys index zs) (r : Relinked h i (xs ++ b ∷ ys) g) where
  pub Removed-Doubly :
      Doubly g.bytes null (g.seg_list i) (xs ++ ys) → Doubly g.bytes null (g.seg_list index) zs
  Removed-Doubly d = elim l.other [
    | inl (e, f) ↦ rw (e, f) d
    | inr (ne, links, far) ↦ rw (r.others index ne) (
        Doubly-frame h.bytes g.bytes null (h.seg_list index) zs
          (Apart-SameLinks h.bytes g.bytes (xs ++ b ∷ ys) zs r.outside far) links)
  ]

  -- The headers of the block and of its successor are no links of the class.
  pub header_same : (a : ℕ) → (a ≡ b) ⊎ (a ≡ b + size) → 24 ≤ size → word g.bytes a ≡ word h.bytes a
  header_same a o room = r.outside a (
      All-middle (λ x. (a + 8 ≤ x + 8) ⊎ (x + 24 ≤ a)) xs b ys (omega arith)
        (Clear-OutsideLinks b (b + size) a (xs ++ ys) (omega arith) (omega arith) l.clear))

  pub Node-moved : (ws : List ℕ) → All (Node h) ws → All (Node g) ws
  Node-moved [] n = tt
  Node-moved (w ∷ ws) n = (
    record {
      positive = n.0.positive;
      low = omega (arith, r.heap_same, n.0.low);
      high = omega (arith, r.brk_same, n.0.high);
      small = n.0.small;
    },
    Node-moved ws n.1,
  )

  pub Removed-Cuttable :
      (asize : ℕ) → Cuttable h b size asize index zs → Cuttable g b size asize index zs
  Removed-Cuttable asize c =
      let rest = c.rest in
      record {
        low = omega (arith, r.heap_same, c.low);
        next_header = omega (arith, r.brk_same, c.next_header);
        top = c.top;
        room = c.room;
        rest = c.rest;
        aligned = c.aligned;
        size_aligned = c.size_aligned;
        size_is = ap extract_size (header_same b (omega arith) (omega arith)) ∙ c.size_is;
        next_allocated =
            ap extract_alloc (header_same (b + size) (omega arith) (omega arith))
            ∙ c.next_allocated;
        class = c.class;
        doubly = c.doubly;
        nodes = Node-moved zs c.nodes;
        separated = c.separated;
        clear = c.clear;
      }
