-- ===== src/Tests/Tree.antt =====
-- A splay tree of three entries.
use malloc_implementation.Base.{◌≡◌, refl, arith, not, [], ◌∷◌}
use malloc_implementation.Stree.{
  leaf, node, SplayTree, null, tree_insert, tree_find_nearest, tree_remove, from_left, from_right,
  plug, splay,
}
use malloc_implementation.Stree.Inorder.{inorder, Splayed, splay-Splayed}
use malloc_implementation.Stree.Entries.{has_key, lookup_key, insert_key, remove_key, nearest_key}
use malloc_implementation.Stree.Map.{IsMap, entries, tree_insert-Inserted, tree_remove-Removed}
use malloc_implementation.Stree.Nearest.{tree_find_nearest-nearest_key}

abbrev three : SplayTree
three = record {
  root = node (node leaf 10 1 leaf) 20 2 (node leaf 30 3 leaf);
  node_count = 3;
  comparison_count = 0;
}

three-IsMap : IsMap three
unfolding inorder
three-IsMap = record { increasing = omega arith; counted = refl }

splay-Splayed_example :
    let path = from_right (node leaf 5 0 leaf) 8 1 ∷ from_left 40 4 leaf ∷ [] in
    Splayed 20 2 (plug (node leaf 20 2 leaf) path) (splay (node leaf 20 2 leaf) path)
splay-Splayed_example =
    splay-Splayed (from_right (node leaf 5 0 leaf) 8 1 ∷ from_left 40 4 leaf ∷ []) leaf leaf 20 2

tree_insert-Inserted_example :
    IsMap (tree_insert three 25 7).1
    × (entries (tree_insert three 25 7).1 ≡ insert_key 25 7 (entries three))
    × ((tree_insert three 25 7).0 ≡ not (has_key 25 (entries three)))
unfolding inorder
tree_insert-Inserted_example = tree_insert-Inserted three 25 7 three-IsMap (omega arith)

tree_remove-Removed_example :
    IsMap (tree_remove three 20).1
    × (entries (tree_remove three 20).1 ≡ remove_key 20 (entries three))
    × ((tree_remove three 20).0 ≡ lookup_key 20 (entries three))
unfolding inorder
tree_remove-Removed_example = tree_remove-Removed three 20 three-IsMap (omega arith)

tree_find_nearest-nearest_key_example :
    ((tree_find_nearest three 25).0 ≡ nearest_key 25 null (entries three))
    × ((tree_find_nearest three 25).1.root ≡ three.root)
    × ((tree_find_nearest three 25).1.node_count ≡ three.node_count)
tree_find_nearest-nearest_key_example = tree_find_nearest-nearest_key three 25 three-IsMap

nearest_of_25 : (tree_find_nearest three 25).0 ≡ 2
unfolding tree_find_nearest
nearest_of_25 = refl
