-- ===== src/BTree/Insert/Arriving.antt =====
-- The stack that `BTree::insert` has at the leaf of a key, in a tree of any height.
use buffer_pool.Base.{
  ℕ, suc, ◌+◌, ◌-◌, ◌*◌, ◌≤◌, ◌≡◌, refl, inl, inr, Option, some, List, [], ◌∷◌, arith, dec_lt,
  length, get_elem?,
}
use buffer_pool.Base.Assoc
use buffer_pool.Common.{page_size, u64_size}
use buffer_pool.Disk.FileIo.{Io}
use buffer_pool.Disk.Slots.{Succeeds}
use buffer_pool.Pool.{BufferPoolManager}
use buffer_pool.Pool.Calm.{IsCalm, IsCalm-le, Grows, Grows-trans}
use buffer_pool.Pool.Calm.Steps.{write_guard}
use buffer_pool.BTree.Key.{ℤ}
use buffer_pool.BTree.Leaf.{LeafNode}
use buffer_pool.BTree.Internal.{InternalNode, find_child_index}
use buffer_pool.BTree.Internal
use buffer_pool.BTree.Tree.{BTree, leaf_node, internal_node}
use buffer_pool.BTree.Tree.Walking.{find_child_index_unique}
use buffer_pool.BTree.Insert.{PathFrame, borrow, open_page}
use buffer_pool.BTree.Insert.Descent.{descend, find_path}
use buffer_pool.BTree.Insert.Paging.{open_page-IsCalm, borrow-IsCalm}
use buffer_pool.BTree.Insert.Routes.{Route, stop, pass, also_open, all_closed, at_root, below_other}
use buffer_pool.BTree.Insert.Visiting.{frame}
use buffer_pool.BTree.Insert.Descending.{Arrived, descend-Arrived}

-- The root page, opened and read.
record Started (faults : ℕ → Io) (now : ℕ) (c : ℕ → Option (List ℕ)) (root : ℕ) (bytes : List ℕ)
    (budget : ℕ) (p : BufferPoolManager) : Type 0 where
  p1 : BufferPoolManager
  p2 : BufferPoolManager
  i : ℕ
  opens : open_page faults now p root ≡ some (write_guard root i, p1)
  borrows : borrow p1 (write_guard root i) ≡ some (bytes, p2)
  there : Assoc.get p2.page_table root ≡ some i
  calm : IsCalm budget c p2
  grows : Grows p p2

starts_at :
    (faults : ℕ → Io) (now : ℕ) (c : ℕ → Option (List ℕ)) (root : ℕ) (bytes : List ℕ) (budget : ℕ)
    (p : BufferPoolManager)
    → ((n : ℕ) → Succeeds (faults n))
    → IsCalm budget c p
    → c root ≡ some bytes
    → length bytes ≡ page_size
    → Started faults now c root bytes budget p
starts_at faults now c root bytes budget p s calm holds len =
    let (i, p1, opens, calm1, grows1, there) =
      open_page-IsCalm faults s now budget c p root bytes holds len calm in
    let (p2, borrows, calm2, grows2) =
      borrow-IsCalm budget c p1 root i bytes there holds calm1 len in
    record {
      p1 = p1;
      p2 = p2;
      i = i;
      opens = opens;
      borrows = borrows;
      there = grows2.stays root i there;
      calm = calm2;
      grows = Grows-trans p p1 p2 grows1 grows2;
    }

path_leaf :
    (faults : ℕ → Io) (now fuel : ℕ) (t : BTree) (key : ℤ) (p1 p2 : BufferPoolManager) (i : ℕ)
    (bytes : List ℕ)
    → open_page faults now t.buffer_pool t.root_page_id ≡ some (write_guard t.root_page_id i, p1)
    → borrow p1 (write_guard t.root_page_id i) ≡ some (bytes, p2)
    → get_elem? bytes 0 ≡ some leaf_node
    → find_path faults now fuel t key ≡ some (frame (u64_size - 1) t.root_page_id i ∷ [], p2)
unfolding find_path
path_leaf faults now fuel t key p1 p2 i bytes e1 e2 e3 = rw (e1, find_path) (rw e2 (rw e3 refl))

path_internal :
    (faults : ℕ → Io) (now fuel : ℕ) (t : BTree) (key : ℤ) (p1 p2 : BufferPoolManager) (i slot : ℕ)
    (bytes : List ℕ) (node : InternalNode) (out : Option (List PathFrame × BufferPoolManager))
    → open_page faults now t.buffer_pool t.root_page_id ≡ some (write_guard t.root_page_id i, p1)
    → borrow p1 (write_guard t.root_page_id i) ≡ some (bytes, p2)
    → get_elem? bytes 0 ≡ some internal_node
    → Internal.decode bytes ≡ some node
    → find_child_index node key ≡ some slot
    → descend faults now fuel p2 key t.leaf_node_max_size t.internal_node_max_size
        (frame slot t.root_page_id i ∷ [])
        node
        slot
      ≡ out
    → find_path faults now fuel t key ≡ out
unfolding find_path
path_internal faults now fuel t key p1 p2 i slot bytes node out e1 e2 e3 e4 e5 e6 =
    rw (e1, find_path) (rw e2 (rw e3 (rw e4 (rw e5 e6))))

-- On a calm pool, without faults, the way down of an insert along the route of its key, with fuel
-- for each page of the route, ends with the leaf of the route on top of the stack, in a valid
-- guard. Either the leaf has room, and is alone on the stack; or it is full, and each frame under
-- it is the parent of the one above, up to the root or to a node with room for one more child. No
-- page changes, and the pool stays calm.
pub find_path-Arrived :
    (faults : ℕ → Io) (now fuel : ℕ) (t : BTree) (key : ℤ) (n leaf_id budget : ℕ)
    (c : ℕ → Option (List ℕ)) (leaf : LeafNode)
    → ((m : ℕ) → Succeeds (faults m))
    → Route c key n t.root_page_id leaf leaf_id
    → n ≤ fuel + 1
    → IsCalm (budget + 2 * n) c t.buffer_pool
    → (stack : List PathFrame) × (p : BufferPoolManager) × (find_path faults now fuel t key
        ≡ some (stack, p))
      × Arrived c key t.leaf_node_max_size t.internal_node_max_size t.root_page_id leaf_id leaf
          budget t.buffer_pool p stack
find_path-Arrived faults now fuel t key n leaf_id budget c leaf s (stop at) enough calm =
    let v =
      starts_at faults now c leaf_id at.bytes (budget + 2) t.buffer_pool s
        (IsCalm-le (budget + 2) (budget + 2 * 1) c t.buffer_pool (omega arith) calm) at.holds
        at.full in
    (
      frame (u64_size - 1) leaf_id v.i ∷ [],
      v.p2,
      path_leaf faults now fuel t key v.p1 v.p2 v.i at.bytes v.opens v.borrows at.kind,
      record {
        slot = u64_size - 1;
        i = v.i;
        kept = [];
        top = refl;
        there = v.there;
        are_open = all_closed;
        room = elim (dec_lt (length leaf.entries) t.leaf_node_max_size) [
          | yes lt ↦ inl (lt, refl)
          | no ge ↦ inr (omega arith, at_root)
        ];
        calm = IsCalm-le (budget + suc 0) (budget + 2) c v.p2 (omega arith) v.calm;
        grows = v.grows;
      },
    )
find_path-Arrived faults now fuel t key n leaf_id budget c leaf s
      (pass {n = m} node child sends rest) enough calm =
    let v =
      starts_at faults now c t.root_page_id sends.at.bytes (budget + 2 * m + 2) t.buffer_pool s
        (IsCalm-le (budget + 2 * m + 2) (budget + 2 * suc m) c t.buffer_pool (omega arith) calm)
        sends.at.holds sends.at.full in
    let found =
      find_child_index_unique node key sends.child_key sends.index child sends.sorted sends.entry
        sends.below sends.above in
    let (stack, p', descends, there) =
      descend-Arrived faults s now c key t.leaf_node_max_size t.internal_node_max_size
        t.root_page_id leaf_id leaf fuel budget v.p2 (frame sends.index t.root_page_id v.i ∷ [])
        node sends.index sends.child_key m child sends.entry rest (omega arith)
        (below_other sends.index t.root_page_id v.i node sends at_root)
        (also_open sends.index t.root_page_id v.i sends.at.bytes v.there sends.at.holds all_closed)
        (IsCalm-le (budget + 2 * m + suc 0) (budget + 2 * m + 2) c v.p2 (omega arith) v.calm) in
    (
      stack,
      p',
      path_internal faults now fuel t key v.p1 v.p2 v.i sends.index sends.at.bytes node
          (some (stack, p')) v.opens v.borrows sends.at.kind sends.at.decodes found descends,
      record {
        slot = there.slot;
        i = there.i;
        kept = there.kept;
        top = there.top;
        there = there.there;
        are_open = there.are_open;
        room = there.room;
        calm = there.calm;
        grows = Grows-trans t.buffer_pool v.p2 p' v.grows there.grows;
      },
    )
