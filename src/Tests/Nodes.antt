-- ===== src/Tests/Nodes.antt =====
-- The changes that `BTree::insert` of src/b_plus_tree.rs makes to one node, on small nodes.
use buffer_pool.Base.{
  ℕ, zero, suc, ◌+◌, ◌≡◌, refl, subst, ◌≢◌, false, some, [], ◌∷◌, Perm, arith, if◌then◌else◌,
  some_inj, length, get_elem?,
}
use buffer_pool.BTree.Key.{ℤ, pos, negsuc, IsI64, key_le}
use buffer_pool.BTree.Leaf.{LeafNode, RecordId}
use buffer_pool.BTree.Internal.{InternalNode, find_child_index}
use buffer_pool.BTree.Sorted.{IsSorted, Above}
use buffer_pool.BTree.Nodes.{
  invalid_key, insert_by_key, sort_by_key, position, add_entry, split_leaf, add_child,
  split_internal,
}
use buffer_pool.BTree.Nodes.Sorting.{IsSorted-of_IsOrdered, add_entry-IsSorted}
use buffer_pool.BTree.Nodes.Splitting.{Halves, split_leaf-Halves}
use buffer_pool.BTree.Nodes.Routing.{child_of, Splits, split_internal-Splits}
use buffer_pool.BTree.Nodes.Children.{add_child-routes}

abbrev rid : RecordId
rid = record { page_id = 4; slot_num = 0 }

-- A leaf that is not sorted, and one that is.
abbrev mixed : LeafNode
mixed = record { next_page_id = 0; entries = (pos 7, rid) ∷ (negsuc 1, rid) ∷ [] }

abbrev leaf : LeafNode
leaf = record { next_page_id = 0; entries = (negsuc 1, rid) ∷ (pos 7, rid) ∷ (pos 9, rid) ∷ [] }

abbrev node : InternalNode
node = record { entries = (invalid_key, 4) ∷ (pos 7, 5) ∷ (pos 9, 6) ∷ [] }

add_entry_sorts :
    add_entry mixed (pos 3) 4 0
    ≡ record mixed { entries = (negsuc 1, rid) ∷ (pos 3, rid) ∷ (pos 7, rid) ∷ [] }
unfolding add_entry sort_by_key insert_by_key
add_entry_sorts = refl

split_leaf_halves :
    split_leaf leaf 8
    ≡ some (
      record { next_page_id = 8; entries = (negsuc 1, rid) ∷ [] },
      pos 7,
      record { next_page_id = 0; entries = (pos 7, rid) ∷ (pos 9, rid) ∷ [] },
    )
unfolding split_leaf
split_leaf_halves = refl

add_child_inserts :
    add_child node 5 (pos 8) 11
    ≡ some (record { entries = (invalid_key, 4) ∷ (pos 7, 5) ∷ (pos 8, 11) ∷ (pos 9, 6) ∷ [] })
unfolding add_child position
add_child_inserts = refl

split_internal_halves :
    split_internal node
    ≡ some (
      record { entries = (invalid_key, 4) ∷ [] },
      pos 7,
      record { entries = (invalid_key, 5) ∷ (pos 9, 6) ∷ [] },
    )
unfolding split_internal
split_internal_halves = refl

add_entry-IsSorted_example :
    IsSorted (add_entry mixed (pos 3) 4 0).entries
    × Perm (add_entry mixed (pos 3) 4 0).entries ((pos 3, rid) ∷ mixed.entries)
    × ((add_entry mixed (pos 3) 4 0).next_page_id ≡ mixed.next_page_id)
add_entry-IsSorted_example = add_entry-IsSorted mixed (pos 3) 4 0

leaf-IsSorted : IsSorted leaf.entries
leaf-IsSorted = IsSorted-of_IsOrdered leaf.entries ((refl, (refl, tt)), ((refl, tt), (tt, tt)))

node-IsSorted : IsSorted node.entries
node-IsSorted = IsSorted-of_IsOrdered node.entries ((refl, (refl, tt)), ((refl, tt), (tt, tt)))

split_leaf-Halves_example :
    (left : LeafNode) × (sep : ℤ) × (right : LeafNode) × (split_leaf leaf 8
      ≡ some (left, sep, right))
    × Halves leaf 8 left sep right
split_leaf-Halves_example = split_leaf-Halves leaf 8 leaf-IsSorted (omega arith)

split_internal-Splits_example :
    (left : InternalNode) × (up : ℤ) × (right : InternalNode) × (split_internal node
      ≡ some (left, up, right))
    × Splits node left up right
split_internal-Splits_example = split_internal-Splits node node-IsSorted keys (omega arith)
  where
    keys : (i : ℕ) (e : ℤ × ℕ) → get_elem? node.entries i ≡ some e → IsI64 e.0
    keys zero e h = subst (λ (x : ℤ × ℕ). IsI64 x.0) (some_inj h) (omega arith)
    keys (suc zero) e h = subst (λ (x : ℤ × ℕ). IsI64 x.0) (some_inj h) (omega arith)
    keys (suc (suc zero)) e h = subst (λ (x : ℤ × ℕ). IsI64 x.0) (some_inj h) (omega arith)
    keys (suc (suc (suc i))) e h = cc

nine-Above : Above node.entries (pos 8) 2
nine-Above zero e le h = absurd (omega arith)
nine-Above (suc zero) e le h = absurd (omega arith)
nine-Above (suc (suc zero)) e le h =
    subst (λ (x : ℤ × ℕ). key_le x.0 (pos 8) ≡ false) (some_inj h) refl
nine-Above (suc (suc (suc i))) e le h = cc

five_at : position node.entries 5 ≡ some 1
unfolding position
five_at = refl

add_child-routes_example :
    (larger : InternalNode) × (add_child node 5 (pos 8) 11 ≡ some larger)
    × IsSorted larger.entries
    × (length larger.entries ≡ length node.entries + 1)
    × ((key : ℤ)
        → ((find_child_index node key ≡ some 1)
            → child_of larger key ≡ some (if key_le (pos 8) key then 11 else 5))
          × (find_child_index node key ≢ some 1 → child_of larger key ≡ child_of node key))
add_child-routes_example =
    add_child-routes node 5 1 (pos 7) (pos 8) 11 node-IsSorted five_at refl refl nine-Above
