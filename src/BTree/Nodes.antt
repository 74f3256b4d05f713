-- ===== src/BTree/Nodes.antt =====
-- The changes that `BTree::insert` of src/b_plus_tree.rs makes to one node: a new entry, and the
-- split in two.
--
-- `sort_unstable_by_key` leaves the order of equal keys open; here they stay in the order they had.
pub mod Sorting
pub mod Splitting
pub mod Routing
pub mod Children
pub mod Members
use buffer_pool.Base.{
  ℕ, zero, suc, ◌+◌, ◌-◌, ◌*◌, ◌/◌, ◌%◌, ◌^◌, ◌≤◌, ◌<◌, ◌≡◌, refl, sym, ap, ap₂, subst, ◌∙◌, ◌≢◌,
  ◌↔◌, ◌⊎◌, inl, inr, Bool, true, false, not, ◌&&◌, ◌||◌, Option, none, some, List, [], ◌∷◌, ◌++◌,
  map, Mem, Nodup, Perm, arith, dec_lt, dec_le, ℕ_discrete, ltb, leb, ◌==◌, if◌then◌else◌, ltb→lt,
  lt→ltb, leb→le, ==_iff, ==_self, Bool-cases, Option-cases, ◌>>=◌, ◌>>◌, require, List-cases,
  not-ltb, eq_of_==, ne_of_==, ==_of_ne, >>=-eq-some, some_inj, of_some, if_true, if_false, length,
  get_elem?, get_or, set, take, drop, replicate, remove_at, pop_back, retain, any, length-append,
  length-set, get_elem?-set_self, get_elem?-set_ne, length-take, length-drop, length-replicate,
  take-length, take_all, length-retain-le, length-remove_at, length-pop_back, contains, insert_set,
  remove_set, drop_all, length-map,
}
use buffer_pool.BTree.Key.{ℤ, negsuc, key_le}
use buffer_pool.BTree.Leaf.{LeafNode, RecordId}
use buffer_pool.BTree.Internal.{InternalNode}

-- `i64::MIN`.
abbrev pub invalid_key : ℤ
invalid_key = negsuc 9223372036854775807

module _ {ℓ} {V : Type ℓ} where
  unfoldable pub insert_by_key : ℤ × V → List (ℤ × V) → List (ℤ × V)
  insert_by_key e [] = e ∷ []
  insert_by_key e (x ∷ rest) = if key_le e.0 x.0 then e ∷ x ∷ rest else x ∷ insert_by_key e rest

  unfoldable pub sort_by_key : List (ℤ × V) → List (ℤ × V)
  unfolding insert_by_key
  sort_by_key [] = []
  sort_by_key (x ∷ rest) = insert_by_key x (sort_by_key rest)

-- An entry is pushed at the end, and the entries are sorted.
unfoldable pub add_entry : LeafNode → ℤ → ℕ → ℕ → LeafNode
unfolding sort_by_key
add_entry node key page_id slot_num = record node {
  entries =
      sort_by_key (node.entries ++ (key, record { page_id = page_id; slot_num = slot_num }) ∷ []);
}

-- The left half, the key of the middle entry, and the right half, which starts with that entry.
unfoldable pub split_leaf : LeafNode → ℕ → Option (LeafNode × ℤ × LeafNode)
split_leaf node right_page_id = do
  let middle_index = length node.entries / 2
  middle_entry ← get_elem? node.entries middle_index
  some (
    record { next_page_id = right_page_id; entries = take middle_index node.entries },
    middle_entry.0,
    record { next_page_id = node.next_page_id; entries = drop middle_index node.entries },
  )

-- `iter().position` of a child's page id.
unfoldable pub position : List (ℤ × ℕ) → ℕ → Option ℕ
position [] page_id = none
position (entry ∷ rest) page_id =
    if entry.1 == page_id then some 0 else (do i ← position rest page_id; some (i + 1))

-- The new child goes right after the child that was split, which must be there.
unfoldable pub add_child : InternalNode → ℕ → ℤ → ℕ → Option InternalNode
unfolding position
add_child node left_page_id key right_page_id = do
  i ← position node.entries left_page_id
  some (record {
    entries = take (i + 1) node.entries ++ (key, right_page_id) ∷ drop (i + 1) node.entries;
  })

-- The left half, the key that goes up, and the right half, whose first key is overwritten.
unfoldable pub split_internal : InternalNode → Option (InternalNode × ℤ × InternalNode)
split_internal node = do
  let mid = length node.entries / 2
  up ← get_elem? node.entries mid
  right_entries ← elim (drop mid node.entries) [
    | [] ↦ none
    | entry ∷ rest ↦ some ((invalid_key, entry.1) ∷ rest)
  ]
  some (record { entries = take mid node.entries }, up.0, record { entries = right_entries })
