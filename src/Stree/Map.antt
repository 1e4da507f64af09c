-- ===== src/Stree/Map.antt =====
-- The splay tree is a map: its operations are those of the list of its entries.
use malloc_implementation.Base.{
  ℕ, ◌+◌, ◌<◌, ◌≡◌, refl, sym, ap, ◌∙◌, ◌⊎◌, inl, inr, Bool, not, List, [], ◌∷◌, ◌++◌, append_assoc,
  append-nil, arith, length, length-append,
}
use malloc_implementation.Base.Word.{word_mod}
use malloc_implementation.Stree.{
  Tree, leaf, node, Frame, SplayTree, splay, locate, tree_insert, tree_find, tree_remove, insert_at,
  remove_at, remove_root, record_at, subtree_minimum,
}
use malloc_implementation.Stree.Inorder.{Entries, inorder, splay-Splayed}
use malloc_implementation.Stree.Entries.{
  Below, Increasing, has_key, lookup_key, insert_key, remove_key, insert_key-between,
  insert_key-present, remove_key-present, remove_key-between, lookup_key-present,
  lookup_key-between, Increasing-split, Increasing-insert, Increasing-remove,
}
use malloc_implementation.Stree.Locate.{before, after, inorder-plug-split, Located, locate-Located}

-- The keys of the tree increase in order, and its node count is right.
pub record IsMap (t : SplayTree) : Type 0 where
  pub increasing : Increasing (inorder t.root)
  pub counted : t.node_count ≡ length (inorder t.root)

abbrev pub entries : SplayTree → Entries
entries t = inorder t.root

located :
    (hit miss key : ℕ) (t : SplayTree)
    → IsMap t
    → Located key (entries t) (locate hit miss key t.root [] t.comparison_count)
unfolding before after
located hit miss key t m =
    locate-Located hit miss key t.root [] t.comparison_count (entries t) m.increasing
      (sym (append-nil (entries t))) tt tt

-- A node where the descent ends has the key.
stop_key :
    (key : ℕ) (l : Tree) (k v : ℕ) (r : Tree)
    → (node l k v r ≡ leaf) ⊎ ((a : Tree) × (w : ℕ) × (b : Tree) × (node l k v r ≡ node a key w b))
    → k ≡ key
stop_key key l k v r (inl e) = cc
stop_key key l k v r (inr (a, w, b, e)) = cc

-- A node where the descent ends holds the key, with the lesser entries in front of it.
present :
    (t : SplayTree) (key : ℕ) (l : Tree) (k v : ℕ) (r : Tree) (path : List Frame) (count : ℕ)
    → IsMap t
    → Located key (entries t) (record { at = node l k v r; path = path; count = count })
    → (entries t ≡ (before path ++ inorder l) ++ (key, v) ∷ (inorder r ++ after path))
      × Below key (before path ++ inorder l)
unfolding inorder
present t key l k v r path count m p =
    let same = stop_key key l k v r p.stop in
    let whole : entries t ≡ (before path ++ inorder l) ++ (key, v) ∷ (inorder r ++ after path) =
      p.split ∙ rw same (simp append_assoc) in
    (
      whole,
      (Increasing-split (before path ++ inorder l) key v (inorder r ++ after path)
          (rw whole at m.increasing)).0,
    )

-- The outcome of an insertion at a place.
record Inserted (t : SplayTree) (key rec : ℕ) (done : Bool) (u : SplayTree) : Type 0 where
  is_map : IsMap u
  same : entries u ≡ insert_key key rec (entries t)
  told : done ≡ not (has_key key (entries t))

insert_at-Inserted :
    (t : SplayTree) (key rec : ℕ) (at : Tree) (path : List Frame) (count : ℕ)
    → IsMap t
    → length (entries t) + 1 < word_mod
    → Located key (entries t) (record { at = at; path = path; count = count })
    → let r = insert_at t key rec (record { at = at; path = path; count = count }) in
      Inserted t key rec r.0 r.1
unfolding inorder
insert_at-Inserted t key rec leaf path count m room p =
    let s = splay-Splayed path leaf leaf key rec in
    let xs = before path in
    let ys = after path in
    let whole : entries t ≡ xs ++ ys = p.split in
    let new : inorder (splay (node leaf key rec leaf) path) ≡ xs ++ (key, rec) ∷ ys =
      s.same ∙ inorder-plug-split path (node leaf key rec leaf) in
    record {
      is_map = record {
        increasing =
            rw new (Increasing-insert xs key rec ys p.less p.greater (rw whole at m.increasing));
        counted = omega (
          arith,
          ap length new,
          ap length whole,
          length-append xs ys,
          length-append xs ((key, rec) ∷ ys),
          m.counted,
        );
      };
      same = new ∙ sym (rw whole (insert_key-between key rec xs ys p.less p.greater));
      told = rw (whole, (lookup_key-between key xs ys p.less p.greater).1);
    }
insert_at-Inserted t key rec (node l k v r) path count m room p =
    let q = present t key l k v r path count m p in
    let xs = before path ++ inorder l in
    let ys = inorder r ++ after path in
    record {
      is_map = record { increasing = m.increasing; counted = m.counted };
      same = sym (rw q.0 (insert_key-present key rec v xs ys q.1));
      told = rw (q.0, (lookup_key-present key v xs ys q.1).1);
    }

-- tree_insert adds the entry in the place of its key and reports it, or finds the key present and
-- leaves the entries alone; the tree stays ordered and its count right. The count of nodes is
-- taken not to wrap.
pub tree_insert-Inserted :
    (t : SplayTree) (key rec : ℕ)
    → IsMap t
    → length (entries t) + 1 < word_mod
    → IsMap (tree_insert t key rec).1
      × (entries (tree_insert t key rec).1 ≡ insert_key key rec (entries t))
      × ((tree_insert t key rec).0 ≡ not (has_key key (entries t)))
unfolding tree_insert
tree_insert-Inserted t key rec m room =
    let p = locate 1 2 key t.root [] t.comparison_count in
    let i = insert_at-Inserted t key rec p.at p.path p.count m room (located 1 2 key t m) in
    (i.is_map, i.same, i.told)

-- The record at the place where the descent ends is the one that the key has.
record_at-lookup :
    (t : SplayTree) (key : ℕ) (at : Tree) (path : List Frame) (count : ℕ)
    → IsMap t
    → Located key (entries t) (record { at = at; path = path; count = count })
    → record_at at ≡ lookup_key key (entries t)
unfolding inorder
record_at-lookup t key leaf path count m p =
    sym (rw p.split (lookup_key-between key (before path) (after path) p.less p.greater).0)
record_at-lookup t key (node l k v r) path count m p =
    let q = present t key l k v r path count m p in
    sym
      (rw q.0 (lookup_key-present key v (before path ++ inorder l) (inorder r ++ after path) q.1).0)

-- tree_find gives the record of the key, NULL where the key is absent, and changes only the
-- comparison count.
pub tree_find-lookup :
    (t : SplayTree) (key : ℕ)
    → IsMap t
    → ((tree_find t key).0 ≡ lookup_key key (entries t))
      × ((tree_find t key).1.root ≡ t.root)
      × ((tree_find t key).1.node_count ≡ t.node_count)
unfolding tree_find
tree_find-lookup t key m =
    let p = locate 1 2 key t.root [] t.comparison_count in
    (record_at-lookup t key p.at p.path p.count m (located 1 2 key t m), refl, refl)

inorder-subtree_minimum :
    (l : Tree) (k v : ℕ) (r : Tree)
    → (subtree_minimum l k v r).0 ∷ inorder (subtree_minimum l k v r).1
      ≡ inorder l ++ (k, v) ∷ inorder r
unfolding subtree_minimum inorder
inorder-subtree_minimum leaf k v r = refl
inorder-subtree_minimum (node ll lk lv lr) k v r =
    ap (λ xs. xs ++ (k, v) ∷ inorder r) (inorder-subtree_minimum ll lk lv lr)

inorder-remove_root :
    (l : Tree) (k v : ℕ) (r : Tree) → inorder (remove_root (node l k v r)) ≡ inorder l ++ inorder r
unfolding remove_root inorder
inorder-remove_root leaf k v r = refl
inorder-remove_root (node a j w b) k v leaf = sym (append-nil _)
inorder-remove_root (node a j w b) k v (node c i u d) =
    ap (λ xs. (inorder a ++ (j, w) ∷ inorder b) ++ xs) (inorder-subtree_minimum c i u d)

record Removed (t : SplayTree) (key got : ℕ) (u : SplayTree) : Type 0 where
  is_map : IsMap u
  same : entries u ≡ remove_key key (entries t)
  told : got ≡ lookup_key key (entries t)

remove_at-Removed :
    (t : SplayTree) (key : ℕ) (at : Tree) (path : List Frame) (count : ℕ)
    → IsMap t
    → length (entries t) < word_mod
    → Located key (entries t) (record { at = at; path = path; count = count })
    → let r = remove_at t (record { at = at; path = path; count = count }) in Removed t key r.0 r.1
unfolding inorder
remove_at-Removed t key leaf path count m room p = record {
  is_map = record { increasing = m.increasing; counted = m.counted };
  same = sym (rw p.split (remove_key-between key (before path) (after path) p.less p.greater));
  told = sym (rw p.split (lookup_key-between key (before path) (after path) p.less p.greater).0);
}
remove_at-Removed t key (node l k v r) path count m room p =
    let s = splay-Splayed path l r k v in
    let xs = inorder s.left in
    let ys = inorder s.right in
    let whole : entries t ≡ xs ++ (key, v) ∷ ys =
      p.split
      ∙ sym (inorder-plug-split path (node l k v r))
      ∙ sym s.same
      ∙ ap inorder s.top
      ∙ ap (λ j. xs ++ (j, v) ∷ ys) (stop_key key l k v r p.stop) in
    let parts = Increasing-split xs key v ys (rw whole at m.increasing) in
    let new : inorder (remove_root (splay (node l k v r) path)) ≡ xs ++ ys =
      ap (λ u. inorder (remove_root u)) s.top ∙ inorder-remove_root s.left k v s.right in
    record {
      is_map = record {
        increasing = rw new (Increasing-remove xs key v ys (rw whole at m.increasing));
        counted = omega (
          arith,
          ap length new,
          ap length whole,
          length-append xs ys,
          length-append xs ((key, v) ∷ ys),
          m.counted,
        );
      };
      same = new ∙ sym (rw whole (remove_key-present key v xs ys parts.0));
      told = sym (rw whole (lookup_key-present key v xs ys parts.0).0);
    }

-- tree_remove takes exactly the entry of the key out and gives its record, or NULL where the key
-- is absent; the tree stays ordered and its count right.
pub tree_remove-Removed :
    (t : SplayTree) (key : ℕ)
    → IsMap t
    → length (entries t) < word_mod
    → IsMap (tree_remove t key).1
      × (entries (tree_remove t key).1 ≡ remove_key key (entries t))
      × ((tree_remove t key).0 ≡ lookup_key key (entries t))
unfolding tree_remove
tree_remove-Removed t key m room =
    let p = locate 0 1 key t.root [] t.comparison_count in
    let i = remove_at-Removed t key p.at p.path p.count m room (located 0 1 key t m) in
    (i.is_map, i.same, i.told)
