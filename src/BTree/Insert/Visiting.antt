-- ===== src/BTree/Insert/Visiting.antt =====
-- One round of the way down in `BTree::insert`, on a calm pool.
use buffer_pool.Base.{
  ℕ, suc, ◌+◌, ◌≡◌, refl, ◌⊎◌, inl, inr, Bool, true, false, Option, some, List, [], ◌∷◌, arith, ltb,
  length, get_elem?,
}
use buffer_pool.Base.Assoc
use buffer_pool.Common.{page_size, invalid_page_id}
use buffer_pool.Disk.FileIo.{Io}
use buffer_pool.Disk.Slots.{Succeeds}
use buffer_pool.Guard.{WritePageGuard}
use buffer_pool.Pool.{BufferPoolManager}
use buffer_pool.Pool.Calm.{IsCalm, IsCalm-le, Grows, Grows-refl, Grows-trans}
use buffer_pool.Pool.Calm.Steps.{write_guard}
use buffer_pool.BTree.Key.{ℤ}
use buffer_pool.BTree.Leaf.{LeafNode}
use buffer_pool.BTree.Leaf
use buffer_pool.BTree.Internal.{InternalNode, find_child_index}
use buffer_pool.BTree.Internal
use buffer_pool.BTree.Tree.{leaf_node, internal_node, read_page}
use buffer_pool.BTree.Insert.{PathFrame, borrow, open_page}
use buffer_pool.BTree.Insert.Descent.{
  arrived, deeper, clear_if, next_child, has_room, descend_round,
}
use buffer_pool.BTree.Insert.Paging.{open_page-IsCalm, borrow-IsCalm, read_page-IsCalm}
use buffer_pool.BTree.Insert.Routes.{AreOpen, all_closed, AreOpen-Grows, drop_path-IsCalm}

abbrev pub frame : ℕ → ℕ → ℕ → PathFrame
frame slot page_id i = record { slot_to_next_child = slot; guard = write_guard page_id i }

-- The stack is cleared, or kept.
clear_if-IsCalm :
    (room : Bool) (budget : ℕ) (c : ℕ → Option (List ℕ)) (p : BufferPoolManager)
    (path : List PathFrame)
    → AreOpen c p path
    → IsCalm (budget + length path) c p
    → (kept : List PathFrame) × (p' : BufferPoolManager) × (clear_if room p path ≡ some (kept, p'))
      × (((room ≡ true) × (kept ≡ [])) ⊎ ((room ≡ false) × (kept ≡ path)))
      × AreOpen c p' kept
      × IsCalm (budget + length kept) c p'
      × Grows p p'
unfolding clear_if
clear_if-IsCalm true budget c p path opened calm =
    let (p', drops, calm', grows) = drop_path-IsCalm c p path budget opened calm in
    (
      [],
      p',
      rw drops refl,
      inl (refl, refl),
      all_closed,
      IsCalm-le (budget + 0) budget c p' (omega arith) calm',
      grows,
    )
clear_if-IsCalm false budget c p path opened calm =
    (path, p, refl, inr (refl, refl), opened, calm, Grows-refl p)

pub round_leaf :
    (faults : ℕ → Io) (now : ℕ) (p p1 p2 p3 p4 : BufferPoolManager) (key k : ℤ)
    (leaf_max internal_max slot child : ℕ) (path kept : List PathFrame) (internal : InternalNode)
    (bytes : List ℕ) (guard : WritePageGuard) (leaf : LeafNode)
    → get_elem? internal.entries slot ≡ some (k, child)
    → read_page faults now p child ≡ some (bytes, p1)
    → get_elem? bytes 0 ≡ some leaf_node
    → open_page faults now p1 child ≡ some (guard, p2)
    → borrow p2 guard ≡ some (bytes, p3)
    → Leaf.decode bytes ≡ some leaf
    → clear_if (ltb (length leaf.entries) leaf_max) p3 path ≡ some (kept, p4)
    → descend_round faults now p key leaf_max internal_max path internal slot
      ≡ some (arrived (record { slot_to_next_child = invalid_page_id; guard = guard } ∷ kept), p4)
unfolding descend_round next_child has_room
round_leaf faults now p p1 p2 p3 p4 key k leaf_max internal_max slot child path kept internal bytes
      guard leaf e1 e2 e3 e4 e5 e6 e7 =
    rw (e1, descend_round) (rw e2 (rw e3 (rw e4 (rw e5 (rw e6 (rw e7 refl))))))

pub round_internal :
    (faults : ℕ → Io) (now : ℕ) (p p1 p2 p3 p4 : BufferPoolManager) (key k : ℤ)
    (leaf_max internal_max slot child next : ℕ) (path kept : List PathFrame)
    (internal node : InternalNode) (bytes : List ℕ) (guard : WritePageGuard)
    → get_elem? internal.entries slot ≡ some (k, child)
    → read_page faults now p child ≡ some (bytes, p1)
    → get_elem? bytes 0 ≡ some internal_node
    → Internal.decode bytes ≡ some node
    → find_child_index node key ≡ some next
    → open_page faults now p1 child ≡ some (guard, p2)
    → borrow p2 guard ≡ some (bytes, p3)
    → clear_if (ltb (length node.entries) internal_max) p3 path ≡ some (kept, p4)
    → descend_round faults now p key leaf_max internal_max path internal slot
      ≡ some (deeper (record { slot_to_next_child = next; guard = guard } ∷ kept) node next, p4)
unfolding descend_round next_child has_room
round_internal faults now p p1 p2 p3 p4 key k leaf_max internal_max slot child next path kept
      internal node bytes guard e1 e2 e3 e4 e5 e6 e7 e8 =
    rw (e1, descend_round) (rw e2 (rw e3 (rw e4 (rw e5 (rw e6 (rw e7 (rw e4 (rw e8 refl))))))))

-- One child that is read, opened and borrowed, with the stack cleared or kept.
pub record Visited (faults : ℕ → Io) (now : ℕ) (c : ℕ → Option (List ℕ)) (child : ℕ)
    (bytes : List ℕ) (room : Bool) (budget : ℕ) (p : BufferPoolManager) (path : List PathFrame)
    : Type 0 where
  pub p1 : BufferPoolManager
  pub p2 : BufferPoolManager
  pub p3 : BufferPoolManager
  pub p4 : BufferPoolManager
  pub i : ℕ
  pub kept : List PathFrame
  pub reads : read_page faults now p child ≡ some (bytes, p1)
  pub opens : open_page faults now p1 child ≡ some (write_guard child i, p2)
  pub borrows : borrow p2 (write_guard child i) ≡ some (bytes, p3)
  pub clears : clear_if room p3 path ≡ some (kept, p4)
  pub cleared : ((room ≡ true) × (kept ≡ [])) ⊎ ((room ≡ false) × (kept ≡ path))
  pub there : Assoc.get p4.page_table child ≡ some i
  pub are_open : AreOpen c p4 kept
  pub calm : IsCalm (budget + length kept) c p4
  pub grows : Grows p p4

pub visits :
    (faults : ℕ → Io) (now : ℕ) (c : ℕ → Option (List ℕ)) (child : ℕ) (bytes : List ℕ) (room : Bool)
    (budget : ℕ) (p : BufferPoolManager) (path : List PathFrame)
    → ((n : ℕ) → Succeeds (faults n))
    → IsCalm (suc (budget + length path)) c p
    → AreOpen c p path
    → c child ≡ some bytes
    → length bytes ≡ page_size
    → Visited faults now c child bytes room budget p path
visits faults now c child bytes room budget p path s calm opened holds len =
    let (p1, reads, calm1, grows1) =
      read_page-IsCalm faults s now (budget + length path) c p child bytes holds len calm in
    let (i, p2, opens, calm2, grows2, there) =
      open_page-IsCalm faults s now (budget + length path) c p1 child bytes holds len calm1 in
    let (p3, borrows, calm3, grows3) =
      borrow-IsCalm (budget + length path) c p2 child i bytes there holds calm2 len in
    let to3 = Grows-trans p p1 p3 grows1 (Grows-trans p1 p2 p3 grows2 grows3) in
    let (kept, p4, clears, cleared, opened4, calm4, grows4) =
      clear_if-IsCalm room budget c p3 path (AreOpen-Grows c p p3 path to3.stays opened) calm3 in
    record {
      p1 = p1;
      p2 = p2;
      p3 = p3;
      p4 = p4;
      i = i;
      kept = kept;
      reads = reads;
      opens = opens;
      borrows = borrows;
      clears = clears;
      cleared = cleared;
      there = grows4.stays child i (grows3.stays child i there);
      are_open = opened4;
      calm = calm4;
      grows = Grows-trans p p3 p4 to3 grows4;
    }
