-- ===== src/BTree/Insert/Descent.antt =====
-- The way down in `BTree::insert` of src/b_plus_tree.rs: the stack of the pages that a split may
-- change.
use buffer_pool.Base.{
  ℕ, zero, suc, ◌-◌, Bool, Option, none, some, List, [], ◌∷◌, ltb, ◌==◌, if◌then◌else◌, ◌>>=◌,
  length, get_elem?,
}
use buffer_pool.Common.{u64_size, invalid_page_id}
use buffer_pool.Disk.FileIo.{Io}
use buffer_pool.Pool.{BufferPoolManager}
use buffer_pool.BTree.Key.{ℤ}
use buffer_pool.BTree.Leaf
use buffer_pool.BTree.Internal.{InternalNode, find_child_index}
use buffer_pool.BTree.Internal
use buffer_pool.BTree.Tree.{BTree, leaf_node, internal_node, read_page}
use buffer_pool.BTree.Insert.{PathFrame, drop_guard, drop_path, borrow, open_page}

-- A node with room for one more entry is the last that can change: the stack is cleared.
unfoldable pub clear_if :
    Bool → BufferPoolManager → List PathFrame → Option (List PathFrame × BufferPoolManager)
clear_if room p path = if room then (do p1 ← drop_path p path; some ([], p1)) else some (path, p)

-- The next node and the slot in it, if the child is internal; else both stay as they are.
unfoldable pub next_child : ℕ → List ℕ → ℤ → InternalNode → ℕ → Option (InternalNode × ℕ)
next_child node_type bytes key internal slot =
    if node_type == internal_node
    then (do
      child ← Internal.decode bytes
      slot_to_next_child ← find_child_index child key
      some (child, slot_to_next_child))
    else some (internal, slot)

-- The number of entries of the child is below the maximum of its kind.
unfoldable pub has_room : ℕ → List ℕ → ℕ → ℕ → Option Bool
has_room node_type bytes leaf_max internal_max =
    if node_type == leaf_node
    then (do node ← Leaf.decode bytes; some (ltb (length node.entries) leaf_max))
    else (do node ← Internal.decode bytes; some (ltb (length node.entries) internal_max))

-- What a round of the loop ends with: the stack with the leaf on top, or the next round.
pub data Step : Type 0 where
  arrived : List PathFrame → Step
  deeper : List PathFrame → InternalNode → ℕ → Step

module _ (faults : ℕ → Io) (now : ℕ) where
  -- A child that is no leaf is taken for an internal node.
  unfoldable pub descend_round :
      BufferPoolManager
      → ℤ
      → ℕ
      → ℕ
      → List PathFrame
      → InternalNode
      → ℕ
      → Option (Step × BufferPoolManager)
  unfolding clear_if next_child has_room
  descend_round p key leaf_max internal_max path internal slot = do
    entry ← get_elem? internal.entries slot
    (read, p1) ← read_page faults now p entry.1
    node_type ← get_elem? read 0
    (child, slot_to_next_child) ← next_child node_type read key internal slot
    (guard, p2) ← open_page faults now p1 entry.1
    (bytes, p3) ← borrow p2 guard
    room ← has_room node_type bytes leaf_max internal_max
    (kept, p4) ← clear_if room p3 path
    some (
      if node_type == leaf_node
          then arrived (record { slot_to_next_child = invalid_page_id; guard = guard } ∷ kept)
          else deeper (record { slot_to_next_child = slot_to_next_child; guard = guard } ∷ kept)
              child slot_to_next_child,
      p4,
    )

  unfoldable pub descend :
      ℕ
      → BufferPoolManager
      → ℤ
      → ℕ
      → ℕ
      → List PathFrame
      → InternalNode
      → ℕ
      → Option (List PathFrame × BufferPoolManager)
  unfolding descend_round
  descend zero p key leaf_max internal_max path internal slot = none
  descend (suc fuel) p key leaf_max internal_max path internal slot = do
    (step, p1) ← descend_round p key leaf_max internal_max path internal slot
    elim step [
      | arrived stack ↦ some (stack, p1)
      | deeper stack child next ↦ descend fuel p1 key leaf_max internal_max stack child next
    ]

  -- The root alone if it is a leaf, else the way down from it. A page that is no node is dropped.
  unfoldable pub find_path : ℕ → BTree → ℤ → Option (List PathFrame × BufferPoolManager)
  unfolding descend
  find_path fuel t key = do
    (guard, p1) ← open_page faults now t.buffer_pool t.root_page_id
    (bytes, p2) ← borrow p1 guard
    node_type ← get_elem? bytes 0
    if node_type == leaf_node
        then some (record { slot_to_next_child = u64_size - 1; guard = guard } ∷ [], p2)
        else if node_type == internal_node
        then (do
          internal ← Internal.decode bytes
          slot ← find_child_index internal key
          descend fuel p2 key t.leaf_node_max_size t.internal_node_max_size
              (record { slot_to_next_child = slot; guard = guard } ∷ []) internal slot)
        else (do p3 ← drop_guard p2 guard; some ([], p3))
