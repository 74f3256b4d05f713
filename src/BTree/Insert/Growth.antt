-- ===== src/BTree/Insert/Growth.antt =====
-- The way up in `BTree::insert` of src/b_plus_tree.rs: the leaf gets the entry, nodes that are too
-- large are split, and the root may be replaced.
use buffer_pool.Base.{
  ℕ, not, Option, none, some, List, [], ◌∷◌, ltb, leb, ◌==◌, if◌then◌else◌, ◌>>=◌, ◌>>◌, require,
  length,
}
use buffer_pool.Common.{invalid_page_id}
use buffer_pool.Disk.FileIo.{Io}
use buffer_pool.Guard.{WritePageGuard}
use buffer_pool.Pool.{BufferPoolManager, new_page}
use buffer_pool.BTree.Key.{ℤ}
use buffer_pool.BTree.Leaf
use buffer_pool.BTree.Internal.{InternalNode}
use buffer_pool.BTree.Internal
use buffer_pool.BTree.Nodes.{invalid_key, add_entry, split_leaf, add_child, split_internal}
use buffer_pool.BTree.Tree.{BTree, set_root_page_id}
use buffer_pool.BTree.Insert.{
  PathFrame, drop_guard, drop_path, borrow, store, open_page, rewrite_page, first_insert,
}
use buffer_pool.BTree.Insert.Descent.{find_path}

-- The leaf on top of the stack gets the entry if it has room. Else nothing is stored, and the page
-- to split is returned; `invalid_page_id` is no page to split.
unfoldable pub insert_leaf :
    BufferPoolManager
    → ℤ
    → ℕ
    → ℕ
    → ℕ
    → List PathFrame
    → Option (ℕ × List PathFrame × BufferPoolManager)
insert_leaf p key page_id slot_num leaf_max [] = none
insert_leaf p key page_id slot_num leaf_max (frame ∷ path) = do
  (bytes, p1) ← borrow p frame.guard
  leaf ← Leaf.decode bytes
  let larger = add_entry leaf key page_id slot_num
  if ltb leaf_max (length larger.entries)
      then (do p2 ← drop_guard p1 frame.guard; some (frame.guard.page_id, path, p2))
      else (do
        out ← Leaf.encode larger bytes
        p2 ← store p1 frame.guard out
        p3 ← drop_guard p2 frame.guard
        some (invalid_page_id, path, p3))

-- A round of the loop over the stack: the node had room, or it was split too, and the key and the
-- page of its right half go up.
pub data Round : Type 0 where
  settled : Round
  split : ℤ → ℕ → Round

module _ (faults : ℕ → Io) (now : ℕ) where
  -- The leaf is split, with the entry in it: the key and the page of the right half are returned.
  -- The left page is locked while the right one is requested.
  unfoldable pub split_leaf_page :
      BufferPoolManager → ℤ → ℕ → ℕ → ℕ → Option (ℤ × ℕ × BufferPoolManager)
  split_leaf_page p key page_id slot_num left_page_id = do
    (right_page_id, p1) ← new_page faults p
    (left_guard, p2) ← open_page faults now p1 left_page_id
    (left_bytes, p3) ← borrow p2 left_guard
    leaf ← Leaf.decode left_bytes
    (left, sep_key, right) ← split_leaf (add_entry leaf key page_id slot_num) right_page_id
    (right_guard, p4) ← open_page faults now p3 right_page_id
    require (not (right_guard.frame == left_guard.frame))
    (right_bytes, p5) ← borrow p4 right_guard
    right_out ← Leaf.encode right right_bytes
    p6 ← store p5 right_guard right_out
    left_out ← Leaf.encode left left_bytes
    p7 ← store p6 left_guard left_out
    p8 ← drop_guard p7 right_guard
    p9 ← drop_guard p8 left_guard
    some (sep_key, right_page_id, p9)

  -- The same for an internal node, whose guard is on the stack; `bytes` are those of its page.
  unfoldable pub split_internal_page :
      BufferPoolManager
      → WritePageGuard
      → List ℕ
      → InternalNode
      → Option (ℤ × ℕ × BufferPoolManager)
  unfolding rewrite_page
  split_internal_page p guard bytes node = do
    (right_page_id, p1) ← new_page faults p
    (left, up_key, right) ← split_internal node
    (right_guard, p2) ← open_page faults now p1 right_page_id
    require (not (right_guard.frame == guard.frame))
    (right_bytes, p3) ← borrow p2 right_guard
    right_out ← Internal.encode right right_bytes
    p4 ← store p3 right_guard right_out
    p5 ← drop_guard p4 right_guard
    left_out ← Internal.encode left bytes
    p6 ← store p5 guard left_out
    p7 ← drop_guard p6 guard
    some (up_key, right_page_id, p7)

  unfoldable pub parent_round :
      BufferPoolManager → ℕ → PathFrame → ℕ → ℤ → ℕ → Option (Round × BufferPoolManager)
  unfolding split_internal_page
  parent_round p internal_max frame left_page_id key right_page_id = do
    (bytes, p1) ← borrow p frame.guard
    node ← Internal.decode bytes
    larger ← add_child node left_page_id key right_page_id
    if leb (length larger.entries) internal_max
        then (do
          out ← Internal.encode larger bytes
          p2 ← store p1 frame.guard out
          p3 ← drop_guard p2 frame.guard
          some (settled, p3))
        else (do
          (up_key, up_page_id, p2) ← split_internal_page p1 frame.guard bytes larger
          some (split up_key up_page_id, p2))

  -- The root itself was split: its two halves get a new root.
  unfoldable pub new_root : BTree → BufferPoolManager → ℕ → ℤ → ℕ → Option BTree
  unfolding rewrite_page
  new_root t p left_page_id key right_page_id = do
    (root_page_id, p1) ← new_page faults p
    p2 ← rewrite_page faults now p1 root_page_id (
        Internal.encode
          (record { entries = (invalid_key, left_page_id) ∷ (key, right_page_id) ∷ [] }))
    p3 ←
        rewrite_page faults now p2 t.header_page_id
          (set_root_page_id (record t { root_page_id = root_page_id }))
    some (record t { root_page_id = root_page_id; buffer_pool = p3 })

  -- The loop over the stack, which is dropped where a node had room.
  unfoldable pub propagate : BTree → BufferPoolManager → List PathFrame → ℕ → ℤ → ℕ → Option BTree
  unfolding parent_round new_root
  propagate t p [] left_page_id key right_page_id = new_root t p left_page_id key right_page_id
  propagate t p (frame ∷ path) left_page_id key right_page_id = do
    (round, p1) ← parent_round p t.internal_node_max_size frame left_page_id key right_page_id
    elim round [
      | settled ↦ do p2 ← drop_path p1 path; some (record t { buffer_pool = p2 })
      | split up_key up_page_id ↦ propagate t p1 path frame.guard.page_id up_key up_page_id
    ]

  -- An insert into a tree that has a root; `fuel` is that of the way down.
  unfoldable pub insert_below : ℕ → BTree → ℤ → ℕ → ℕ → Option BTree
  unfolding insert_leaf split_leaf_page propagate
  insert_below fuel t key page_id slot_num = do
    (stack, p1) ← find_path faults now fuel t key
    (left_page_id, path, p2) ← insert_leaf p1 key page_id slot_num t.leaf_node_max_size stack
    if left_page_id == invalid_page_id
        then (do p3 ← drop_path p2 path; some (record t { buffer_pool = p3 }))
        else (do
          (sep_key, right_page_id, p3) ← split_leaf_page p2 key page_id slot_num left_page_id
          propagate t p3 path left_page_id sep_key right_page_id)

  unfoldable pub insert : ℕ → BTree → ℤ → ℕ → ℕ → Option BTree
  unfolding insert_below
  insert fuel t key page_id slot_num =
      if t.root_page_id == invalid_page_id
      then first_insert faults now t key page_id slot_num
      else insert_below fuel t key page_id slot_num
