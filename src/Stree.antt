-- ===== src/Stree.antt =====
-- stree.c: the splay tree in which the driver keeps the live ranges. A tree is a value; the parent
-- pointers of a node are the path of frames from it to the root. Keys are the addresses that the
-- driver stores, nonnegative values of `long`. A record is a pointer, NULL where there is none.
pub mod Inorder
pub mod Entries
pub mod Locate
pub mod Map
pub mod Nearest
use malloc_implementation.Base.{
  ℕ, suc, ◌+◌, ◌-◌, Bool, true, false, List, [], ◌∷◌, ltb, ◌==◌, if◌then◌else◌,
}
use malloc_implementation.Base.Word.{add64, sub64}

pub data Tree : Type 0 where
  leaf : Tree
  node : Tree → (key rec : ℕ) → Tree → Tree

-- A step towards the root: the node above, of which the subtree is the left or the right child.
pub data Frame : Type 0 where
  from_left : (key rec : ℕ) → Tree → Frame
  from_right : Tree → (key rec : ℕ) → Frame

-- tree_t
pub record SplayTree : Type 0 where
  pub root : Tree
  pub node_count : ℕ
  pub comparison_count : ℕ

abbrev pub null : ℕ
null = 0

unfoldable pub tree_new : SplayTree
tree_new = record { root = leaf; node_count = 0; comparison_count = 0 }

abbrev pub plug_frame : Tree → Frame → Tree
plug_frame t (from_left k v s) = node t k v s
plug_frame t (from_right s k v) = node s k v t

-- The whole tree, seen from a subtree.
unfoldable pub plug : Tree → List Frame → Tree
plug t [] = t
plug t (f ∷ path) = plug (plug_frame t f) path

-- The subtree of `x` after left_rotate(tree, x). With no right child `y`, NULL takes its place.
unfoldable pub left_rotate : Tree → Tree
left_rotate leaf = leaf
left_rotate (node a k v leaf) = leaf
left_rotate (node a k v (node b j w c)) = node (node a k v b) j w c

unfoldable pub right_rotate : Tree → Tree
right_rotate leaf = leaf
right_rotate (node leaf k v c) = leaf
right_rotate (node (node a j w b) k v c) = node a j w (node b k v c)

-- The branch of splay for a node whose parent is the root.
unfoldable pub zig : Tree → Frame → Tree
unfolding left_rotate right_rotate
zig t (from_left k v s) = right_rotate (plug_frame t (from_left k v s))
zig t (from_right s k v) = left_rotate (plug_frame t (from_right s k v))

-- The four branches of splay for a node with a grandparent: the subtree of the grandparent after
-- them, with the node on top.
unfoldable pub zig_zig : Tree → Frame → Frame → Tree
unfolding left_rotate right_rotate
zig_zig t (from_left k v s) (from_left j w u) =
    right_rotate (right_rotate (plug_frame (plug_frame t (from_left k v s)) (from_left j w u)))
zig_zig t (from_right s k v) (from_right u j w) =
    left_rotate (left_rotate (plug_frame (plug_frame t (from_right s k v)) (from_right u j w)))
zig_zig t (from_left k v s) (from_right u j w) =
    left_rotate (plug_frame (right_rotate (plug_frame t (from_left k v s))) (from_right u j w))
zig_zig t (from_right s k v) (from_left j w u) =
    right_rotate (plug_frame (left_rotate (plug_frame t (from_right s k v))) (from_left j w u))

unfoldable pub splay : Tree → List Frame → Tree
unfolding zig zig_zig
splay t [] = t
splay t (f ∷ []) = zig t f
splay t (f ∷ g ∷ path) = splay (zig_zig t f g) path

-- Where a descent ends: at a node or at NULL, below a path, with the comparisons counted.
pub record Place : Type 0 where
  pub at : Tree
  pub path : List Frame
  pub count : ℕ

-- The descent towards a key, with `hit` comparisons counted at the key and `miss` at another node.
unfoldable pub locate : (hit miss key : ℕ) → Tree → List Frame → ℕ → Place
locate hit miss key leaf path count = record { at = leaf; path = path; count = count }
locate hit miss key (node l k v r) path count =
    let greater = locate hit miss key r (from_right l k v ∷ path) (add64 count miss) in
    let less = locate hit miss key l (from_left k v r ∷ path) (add64 count miss) in
    if key == k
    then record { at = node l k v r; path = path; count = add64 count hit }
    else if ltb k key
    then greater
    else less

abbrev pub insert_at : SplayTree → ℕ → ℕ → Place → Bool × SplayTree
insert_at t key rec p = elim (p.at) [
  | leaf ↦ (
    true,
    record {
      root = splay (node leaf key rec leaf) p.path;
      node_count = add64 t.node_count 1;
      comparison_count = p.count;
    },
  )
  | node l k v r ↦ (false, record t { comparison_count = p.count })
]

unfoldable pub tree_insert : SplayTree → ℕ → ℕ → Bool × SplayTree
unfolding locate splay
tree_insert t key rec = insert_at t key rec (locate 1 2 key t.root [] t.comparison_count)

abbrev pub record_at : Tree → ℕ
record_at leaf = null
record_at (node l k v r) = v

unfoldable pub tree_find : SplayTree → ℕ → ℕ × SplayTree
unfolding locate
tree_find t key =
    let p = locate 1 2 key t.root [] t.comparison_count in
    (record_at p.at, record t { comparison_count = p.count })

-- `if (!n || n->key < z->key) n = z`, for the node `z` of the key `k`.
unfoldable pub nearer : Tree → Tree → ℕ → Tree
nearer leaf z k = z
nearer (node nl nk nv nr) z k = if ltb nk k then z else node nl nk nv nr

-- The loop of tree_find_nearest, with `n` the node of the largest key so far that is smaller.
unfoldable pub nearest_loop : ℕ → Tree → Tree → ℕ → ℕ × ℕ
unfolding nearer
nearest_loop key leaf n count = (record_at n, count)
nearest_loop key (node l k v r) n count =
    let better = nearer n (node l k v r) k in
    let greater = nearest_loop key r better (add64 count 2) in
    let less = nearest_loop key l n (add64 count 2) in
    if key == k then (v, add64 count 1) else if ltb k key then greater else less

unfoldable pub tree_find_nearest : SplayTree → ℕ → ℕ × SplayTree
unfolding nearest_loop
tree_find_nearest t key =
    let (v, count) = nearest_loop key t.root leaf t.comparison_count in
    (v, record t { comparison_count = count })

-- The node of the least key, and the subtree in which its right child has replaced it.
unfoldable pub subtree_minimum : Tree → (key rec : ℕ) → Tree → (ℕ × ℕ) × Tree
subtree_minimum leaf k v r = ((k, v), r)
subtree_minimum (node ll lk lv lr) k v r =
    let (m, rest) = subtree_minimum ll lk lv lr in (m, node rest k v r)

-- The tree without its root.
unfoldable pub remove_root : Tree → Tree
unfolding subtree_minimum
remove_root leaf = leaf
remove_root (node leaf k v r) = r
remove_root (node (node a j w b) k v leaf) = node a j w b
remove_root (node (node a j w b) k v (node c i u d)) =
    let (m, rest) = subtree_minimum c i u d in node (node a j w b) m.0 m.1 rest

abbrev pub remove_at : SplayTree → Place → ℕ × SplayTree
remove_at t p = elim (p.at) [
  | leaf ↦ (null, record t { comparison_count = p.count })
  | node l k v r ↦ (
    v,
    record {
      root = remove_root (splay (node l k v r) p.path);
      node_count = sub64 t.node_count 1;
      comparison_count = p.count;
    },
  )
]

unfoldable pub tree_remove : SplayTree → ℕ → ℕ × SplayTree
unfolding locate splay remove_root
tree_remove t key = remove_at t (locate 0 1 key t.root [] t.comparison_count)
