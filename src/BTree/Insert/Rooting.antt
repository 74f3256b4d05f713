-- ===== src/BTree/Insert/Rooting.antt =====
-- The new root of `BTree::insert`, and the way down where the root is a leaf.
use buffer_pool.Base.{
  ℕ, suc, ◌+◌, ◌-◌, ◌≤◌, ◌<◌, ◌≡◌, refl, ◌∙◌, ◌≢◌, true, false, Option, some, List, [], ◌∷◌, arith,
  ltb, ◌==◌, lt→ltb, ==_self, ==_of_ne, if_true, if_false, length,
}
use buffer_pool.Base.Assoc
use buffer_pool.Common.{page_size, u32_size, u64_size}
use buffer_pool.Disk.FileIo.{Io}
use buffer_pool.Disk.Slots.{Succeeds}
use buffer_pool.Frame.{zero_page, length-zero_page}
use buffer_pool.Pool.{BufferPoolManager}
use buffer_pool.Pool.Calm.{put, IsCalm, IsCalm-le, Grows, Grows-trans}
use buffer_pool.Pool.Calm.Steps.{write_guard, new_page-IsCalm}
use buffer_pool.BTree.Key.{ℤ, IsI64}
use buffer_pool.BTree.Leaf.{LeafNode}
use buffer_pool.BTree.Internal.{InternalNode}
use buffer_pool.BTree.Internal
use buffer_pool.BTree.Nodes.{invalid_key, add_entry}
use buffer_pool.BTree.Nodes.Sorting.{length-add_entry}
use buffer_pool.BTree.Tree.{BTree, get_root_page_id, set_root_page_id}
use buffer_pool.BTree.Insert.{PathFrame}
use buffer_pool.BTree.Insert.Descent.{find_path}
use buffer_pool.BTree.Insert.Growth.{new_root, insert_leaf}
use buffer_pool.BTree.Insert.Paging.{
  open_page-IsCalm, borrow-IsCalm, drop_guard-IsCalm, rewrite_page-IsCalm,
}
use buffer_pool.BTree.Insert.Nodes.{LeafAt, InternalAt, encode-InternalAt}
use buffer_pool.BTree.Insert.First.{get-set_root_page_id}
use buffer_pool.BTree.Insert.TwoPages.{ne_apart}

-- The root that `new_root` makes.
abbrev pub two_children : ℕ → ℤ → ℕ → InternalNode
two_children left_page_id key right_page_id = record {
  entries = (invalid_key, left_page_id) ∷ (key, right_page_id) ∷ [];
}

-- On a calm pool that has a frame left, without faults, the two halves of a root get a new root:
-- the next page holds a node with the two children, the header page names it, and every other page
-- holds what it held.
pub new_root-InternalAt :
    (faults : ℕ → Io) (now : ℕ) (t : BTree) (p : BufferPoolManager)
    (left_page_id right_page_id budget : ℕ) (key : ℤ) (c : ℕ → Option (List ℕ)) (header : List ℕ)
    → ((n : ℕ) → Succeeds (faults n))
    → IsCalm (budget + 3) c p
    → p.next_page_id + 1 ≤ p.num_frames
    → c t.header_page_id ≡ some header
    → length header ≡ page_size
    → left_page_id < u32_size
    → right_page_id < u32_size
    → IsI64 key
    → (p' : BufferPoolManager) × (d : ℕ → Option (List ℕ)) × (named : List ℕ) × (new_root faults now
          t p left_page_id key right_page_id
        ≡ some (record t { root_page_id = p.next_page_id; buffer_pool = p' }))
      × InternalAt d p.next_page_id (two_children left_page_id key right_page_id)
      × (d t.header_page_id ≡ some named)
      × (length named ≡ page_size)
      × (get_root_page_id named ≡ some p.next_page_id)
      × ((k : ℕ) → k ≢ p.next_page_id → k ≢ t.header_page_id → d k ≡ c k)
      × IsCalm budget d p'
unfolding new_root
new_root-InternalAt faults now t p left_page_id right_page_id budget key c header s calm left holds
      len small small' fits =
    let root_id = p.next_page_id in
    let made = calm.held t.header_page_id header holds in
    let root_header = ne_apart t.header_page_id root_id made in
    let header_root : (t.header_page_id == root_id) ≡ false =
      ==_of_ne t.header_page_id root_id λ e. absurd (omega arith) in
    let (p1, makes, calm1, stays1, next1, frames1) =
      new_page-IsCalm faults s (suc (suc budget)) c p
        (IsCalm-le (suc (suc (suc budget))) (budget + 3) c p (omega arith) calm) left in
    let (root, encodes, root_len, is_root) =
      encode-InternalAt root_id (two_children left_page_id key right_page_id) zero_page
        length-zero_page (omega arith) (omega arith, small, (fits, small', tt)) in
    let (p2, rewrites2, calm2, grows2) =
      rewrite_page-IsCalm faults s now (suc budget) (put c root_id zero_page) p1 root_id zero_page
        (if_true _ _ (==_self root_id)) length-zero_page calm1
        (Internal.encode (two_children left_page_id key right_page_id)) root encodes root_len in
    let (named, sets, named_len, names) =
      get-set_root_page_id (record t { root_page_id = root_id }) header (omega arith)
        (omega (arith, calm.few)) in
    let c2 = put (put c root_id zero_page) root_id root in
    let (p3, rewrites3, calm3, grows3) =
      rewrite_page-IsCalm faults s now budget c2 p2 t.header_page_id header
        (if_false _ _ root_header ∙ if_false _ _ root_header ∙ holds) len calm2
        (set_root_page_id (record t { root_page_id = root_id })) named sets (named_len ∙ len) in
    let d = put c2 t.header_page_id named in
    (
      p3,
      d,
      named,
      rw (makes, new_root) (rw rewrites2 (rw rewrites3 refl)),
      is_root d (if_false _ _ header_root ∙ if_true _ _ (==_self root_id)),
      if_true _ _ (==_self t.header_page_id),
      named_len ∙ len,
      names,
      λ k not_root not_header.
          if_false _ _ (==_of_ne t.header_page_id k not_header)
          ∙ if_false _ _ (==_of_ne root_id k not_root)
          ∙ if_false _ _ (==_of_ne root_id k not_root),
      calm3,
    )

-- Without faults, the stack is the root alone, if it is a leaf.
pub find_path-leaf :
    (faults : ℕ → Io) (now fuel : ℕ) (t : BTree) (key : ℤ) (budget : ℕ) (c : ℕ → Option (List ℕ))
    (leaf : LeafNode)
    → ((n : ℕ) → Succeeds (faults n))
    → IsCalm budget c t.buffer_pool
    → LeafAt c t.root_page_id leaf
    → (i : ℕ) × (p : BufferPoolManager) × (find_path faults now fuel t key
        ≡ some (
          record { slot_to_next_child = u64_size - 1; guard = write_guard t.root_page_id i } ∷ [],
          p,
        ))
      × IsCalm budget c p
      × Grows t.buffer_pool p
      × (Assoc.get p.page_table t.root_page_id ≡ some i)
unfolding find_path
find_path-leaf faults now fuel t key budget c leaf s calm at =
    let (i, p1, opens, calm1, grows1, there) =
      open_page-IsCalm faults s now budget c t.buffer_pool t.root_page_id at.bytes at.holds at.full
        calm in
    let (p2, borrows, calm2, grows2) =
      borrow-IsCalm budget c p1 t.root_page_id i at.bytes there at.holds calm1 at.full in
    (
      i,
      p2,
      rw (opens, find_path) (rw borrows (rw at.kind refl)),
      calm2,
      Grows-trans t.buffer_pool p1 p2 grows1 grows2,
      grows2.stays t.root_page_id i there,
    )

-- A leaf of the maximum size is left as it is, and is to be split.
pub insert_leaf-splits :
    (p : BufferPoolManager) (key : ℤ) (page_id slot_num leaf_max budget slot leaf_id i : ℕ)
    (path : List PathFrame) (c : ℕ → Option (List ℕ)) (leaf : LeafNode)
    → IsCalm (suc budget) c p
    → Assoc.get p.page_table leaf_id ≡ some i
    → LeafAt c leaf_id leaf
    → leaf_max ≤ length leaf.entries
    → (p' : BufferPoolManager) × (insert_leaf p key page_id slot_num leaf_max
          (record { slot_to_next_child = slot; guard = write_guard leaf_id i } ∷ path)
        ≡ some (leaf_id, path, p'))
      × IsCalm budget c p'
      × Grows p p'
unfolding insert_leaf
insert_leaf-splits p key page_id slot_num leaf_max budget slot leaf_id i path c leaf calm there at
      full =
    let (p1, borrows, calm1, grows1) =
      borrow-IsCalm (suc budget) c p leaf_id i at.bytes there at.holds calm at.full in
    let (p2, drops, calm2, grows2) =
      drop_guard-IsCalm budget c p1 leaf_id i at.bytes (grows1.stays leaf_id i there) at.holds
        calm1 in
    let over : ltb leaf_max (length (add_entry leaf key page_id slot_num).entries) ≡ true =
      lt→ltb leaf_max (length (add_entry leaf key page_id slot_num).entries)
        (omega (arith, length-add_entry leaf key page_id slot_num)) in
    (
      p2,
      rw (borrows, insert_leaf) (rw at.decodes (rw over (rw drops refl))),
      calm2,
      Grows-trans p p1 p2 grows1 grows2,
    )
