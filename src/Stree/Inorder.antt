-- ===== src/Stree/Inorder.antt =====
-- The entries of a splay tree in order, which no rotation changes.
use malloc_implementation.Base.{ℕ, ◌≡◌, refl, sym, ap, ◌∙◌, List, [], ◌∷◌, ◌++◌, append_assoc}
use malloc_implementation.Stree.{
  Tree, leaf, node, Frame, from_left, from_right, plug, plug_frame, left_rotate, right_rotate, zig,
  zig_zig, splay,
}

abbrev pub Entries : Type 0
Entries = List (ℕ × ℕ)

-- The entries of the tree, from the least key to the greatest.
unfoldable pub inorder : Tree → Entries
inorder leaf = []
inorder (node l k v r) = inorder l ++ (k, v) ∷ inorder r

pub inorder-plug :
    (path : List Frame) (s t : Tree)
    → inorder s ≡ inorder t
    → inorder (plug s path) ≡ inorder (plug t path)
unfolding plug inorder
inorder-plug [] s t e = e
inorder-plug (from_left k v u ∷ path) s t e =
    inorder-plug path (node s k v u) (node t k v u) (ap (λ xs. xs ++ (k, v) ∷ inorder u) e)
inorder-plug (from_right u k v ∷ path) s t e =
    inorder-plug path (node u k v s) (node u k v t) (ap (λ xs. inorder u ++ (k, v) ∷ xs) e)

inorder-regroup :
    (a b c : Tree) (k v j w : ℕ)
    → inorder (node (node a k v b) j w c) ≡ inorder (node a k v (node b j w c))
unfolding inorder
inorder-regroup a b c k v j w = append_assoc (inorder a) ((k, v) ∷ inorder b) ((j, w) ∷ inorder c)

-- A rotation around an edge of the tree keeps the entries and their order.
pub inorder-left_rotate :
    (a b c : Tree) (k v j w : ℕ)
    → inorder (left_rotate (node a k v (node b j w c))) ≡ inorder (node a k v (node b j w c))
unfolding left_rotate
inorder-left_rotate a b c k v j w = inorder-regroup a b c k v j w

pub inorder-right_rotate :
    (a b c : Tree) (k v j w : ℕ)
    → inorder (right_rotate (node (node a j w b) k v c)) ≡ inorder (node (node a j w b) k v c)
unfolding right_rotate
inorder-right_rotate a b c k v j w = sym (inorder-regroup a b c j w k v)

-- What the splaying of a node states: it becomes the root, and the entries keep their order.
pub record Splayed (k v : ℕ) (t : Tree) (s : Tree) : Type 0 where
  pub left : Tree
  pub right : Tree
  pub top : s ≡ node left k v right
  pub same : inorder s ≡ inorder t

zig-same :
    (l r : Tree) (k v : ℕ) (f : Frame)
    → Splayed k v (plug_frame (node l k v r) f) (zig (node l k v r) f)
unfolding zig
zig-same l r k v (from_left j w s) = record {
  left = l;
  right = node r j w s;
  top = refl;
  same = inorder-right_rotate l r s j w k v;
}
zig-same l r k v (from_right s j w) = record {
  left = node s j w l;
  right = r;
  top = refl;
  same = inorder-left_rotate s l r j w k v;
}

zig_zig-same :
    (l r : Tree) (k v : ℕ) (f g : Frame)
    → Splayed k v (plug_frame (plug_frame (node l k v r) f) g) (zig_zig (node l k v r) f g)
unfolding zig_zig inorder
zig_zig-same l r k v (from_left j w s) (from_left i u t) = record {
  left = l;
  right = node r j w (node s i u t);
  top = refl;
  same = simp append_assoc;
}
zig_zig-same l r k v (from_right s j w) (from_right t i u) = record {
  left = node (node t i u s) j w l;
  right = r;
  top = refl;
  same = simp append_assoc;
}
zig_zig-same l r k v (from_left j w s) (from_right t i u) = record {
  left = node t i u l;
  right = node r j w s;
  top = refl;
  same = simp append_assoc;
}
zig_zig-same l r k v (from_right s j w) (from_left i u t) = record {
  left = node s j w l;
  right = node r i u t;
  top = refl;
  same = simp append_assoc;
}

-- Splaying brings the node to the root and keeps all entries in their order.
pub splay-Splayed :
    (path : List Frame) (l r : Tree) (k v : ℕ)
    → Splayed k v (plug (node l k v r) path) (splay (node l k v r) path)
unfolding splay plug
splay-Splayed [] l r k v = record { left = l; right = r; top = refl; same = refl }
splay-Splayed (f ∷ []) l r k v = zig-same l r k v f
splay-Splayed (f ∷ g ∷ path) l r k v =
    let step = zig_zig-same l r k v f g in
    let rest = splay-Splayed path step.left step.right k v in
    record {
      left = rest.left;
      right = rest.right;
      top = rw step.top rest.top;
      same = rw step.top (rest.same ∙ inorder-plug path _ _ (rw (← step.top) step.same));
    }
