-- ===== src/Stree/Locate.antt =====
-- The descent of stree.c ends at the key or at the place where it belongs.
use malloc_implementation.Base.{
  ℕ, ◌<◌, ◌≡◌, refl, sym, ap, ◌∙◌, ◌⊎◌, inl, inr, List, [], ◌∷◌, ◌++◌, append_assoc, append-nil,
  arith, Bool-cases, ltb, ◌==◌, All-append, eq_of_==,
}
use malloc_implementation.Base.Word.{add64}
use malloc_implementation.Stree.{
  Tree, leaf, node, Frame, from_left, from_right, plug, Place, locate,
}
use malloc_implementation.Stree.Inorder.{Entries, inorder}
use malloc_implementation.Stree.Entries.{
  Below, Above, Increasing, Increasing-split, Below-mono, Above-mono,
}

-- The entries of the whole tree before and after those of the subtree at the path.
unfoldable pub before : List Frame → Entries
before [] = []
before (from_left k v s ∷ path) = before path
before (from_right s k v ∷ path) = before path ++ (inorder s ++ (k, v) ∷ [])

unfoldable pub after : List Frame → Entries
after [] = []
after (from_left k v s ∷ path) = (k, v) ∷ (inorder s ++ after path)
after (from_right s k v ∷ path) = after path

pub inorder-plug-split :
    (path : List Frame) (t : Tree)
    → inorder (plug t path) ≡ before path ++ (inorder t ++ after path)
unfolding plug inorder before after
inorder-plug-split [] t = sym (append-nil (inorder t))
inorder-plug-split (from_left k v s ∷ path) t =
    inorder-plug-split path (node t k v s) ∙ simp append_assoc
inorder-plug-split (from_right s k v ∷ path) t =
    inorder-plug-split path (node s k v t) ∙ simp append_assoc

-- What the descent in a tree with the entries `whole` finds.
pub record Located (key : ℕ) (whole : Entries) (p : Place) : Type 0 where
  pub split : whole ≡ before p.path ++ (inorder p.at ++ after p.path)
  pub less : Below key (before p.path)
  pub greater : Above key (after p.path)
  pub stop : (p.at ≡ leaf) ⊎ ((l : Tree) × (v : ℕ) × (r : Tree) × (p.at ≡ node l key v r))

pub locate-Located :
    (hit miss key : ℕ) (t : Tree) (path : List Frame) (count : ℕ) (whole : Entries)
    → Increasing (inorder t)
    → whole ≡ before path ++ (inorder t ++ after path)
    → Below key (before path)
    → Above key (after path)
    → Located key whole (locate hit miss key t path count)
unfolding locate inorder before after
locate-Located hit miss key leaf path count whole s e b a = record {
  split = e;
  less = b;
  greater = a;
  stop = inl refl;
}
locate-Located hit miss key (node l k v r) path count whole s e b a =
    let parts = Increasing-split (inorder l) k v (inorder r) s in
    elim (Bool-cases (key == k)) [
      | inl t ↦
          let same : key ≡ k = eq_of_== key k t in
          rw t (record {
            split = e;
            less = b;
            greater = a;
            stop = inr (l, v, r, ap (λ j. node l j v r) (sym same));
          })
      | inr f ↦ elim (Bool-cases (ltb k key)) [
        | inl g ↦
            rw (f, g)
              (locate-Located hit miss key r (from_right l k v ∷ path) (add64 count miss) whole
                parts.3 (e ∙ simp append_assoc)
                (All-append (λ x. x.0 < key) (before path) (inorder l ++ (k, v) ∷ []) b
                  (All-append (λ x. x.0 < key) (inorder l) ((k, v) ∷ [])
                    (Below-mono k key (inorder l) (ground arith) parts.0) (ground arith, tt)))
                a)
        | inr g ↦
            rw (f, g)
              (locate-Located hit miss key l (from_left k v r ∷ path) (add64 count miss) whole
                parts.2 (e ∙ simp append_assoc) b
                (
                  ground arith,
                  All-append (λ x. key < x.0) (inorder r) (after path)
                      (Above-mono key k (inorder r) (ground arith) parts.1) a,
                ))
      ]
    ]
