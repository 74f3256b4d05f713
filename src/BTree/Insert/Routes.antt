-- ===== src/BTree/Insert/Routes.antt =====
-- The route of a key from the root to its leaf, and the stack of pages that a split may change.
use buffer_pool.Base.{
  ℕ, suc, ◌+◌, ◌<◌, ◌≡◌, refl, ◌∙◌, inl, inr, true, Option, some, List, [], ◌∷◌, arith, ◌==◌,
  Bool-cases, if_true, if_false, length, get_elem?,
}
use buffer_pool.Base.Assoc
use buffer_pool.Pool.{BufferPoolManager}
use buffer_pool.Pool.Calm.{put, IsCalm, IsCalm-le, Grows-refl, Grows-trans}
use buffer_pool.Pool.Calm.Steps.{write_guard}
use buffer_pool.BTree.Key.{ℤ, key_le}
use buffer_pool.BTree.Sorted.{IsSorted, Above}
use buffer_pool.BTree.Leaf.{LeafNode}
use buffer_pool.BTree.Internal.{InternalNode}
use buffer_pool.BTree.Tree.Walking.{Leads, at_leaf, through}
use buffer_pool.BTree.Insert.{PathFrame, drop_path}
use buffer_pool.BTree.Insert.Paging.{Steps, drop_guard-IsCalm}
use buffer_pool.BTree.Insert.Nodes.{LeafAt, InternalAt}

-- A node of the route that sends the key to `child`.
pub record Sends (c : ℕ → Option (List ℕ)) (key : ℤ) (page_id child : ℕ) (node : InternalNode)
    : Type 0 where
  pub at : InternalAt c page_id node
  pub sorted : IsSorted node.entries
  pub index : ℕ
  pub child_key : ℤ
  pub entry : get_elem? node.entries index ≡ some (child_key, child)
  pub below : key_le child_key key ≡ true
  pub above : Above node.entries key (index + 1)

-- `Leads`, with nodes that can be stored again.
pub data Route (c : ℕ → Option (List ℕ)) (key : ℤ) : ℕ → ℕ → LeafNode → ℕ → Type 0 where
  stop :
      {page_id : ℕ} {leaf : LeafNode} → LeafAt c page_id leaf → Route c key 1 page_id leaf page_id
  pass :
      {n page_id leaf_id : ℕ} {leaf : LeafNode} (node : InternalNode) (child : ℕ)
      → Sends c key page_id child node
      → Route c key n child leaf leaf_id
      → Route c key (suc n) page_id leaf leaf_id

pub Leads-Route :
    (c : ℕ → Option (List ℕ)) (key : ℤ) (n page_id leaf_id : ℕ) (leaf : LeafNode)
    → Route c key n page_id leaf leaf_id
    → Leads c key n page_id leaf leaf_id
Leads-Route c key n page_id leaf_id leaf (stop at) =
    at_leaf at.bytes at.holds at.full at.kind at.decodes
Leads-Route c key n page_id leaf_id leaf (pass {n = m} node child s rest) =
    through s.at.bytes node s.index s.child_key child s.at.holds s.at.full s.at.kind s.at.decodes
      s.sorted s.entry s.below s.above (Leads-Route c key m child leaf_id leaf rest)

-- The guards of the stack are valid, and name frames that hold their pages.
pub data AreOpen (c : ℕ → Option (List ℕ)) (p : BufferPoolManager) : List PathFrame → Type 0 where
  all_closed : AreOpen c p []
  also_open :
      {path : List PathFrame} (slot page_id i : ℕ) (bytes : List ℕ)
      → Assoc.get p.page_table page_id ≡ some i
      → c page_id ≡ some bytes
      → AreOpen c p path
      → AreOpen c p (record { slot_to_next_child = slot; guard = write_guard page_id i } ∷ path)

pub AreOpen-Grows :
    (c : ℕ → Option (List ℕ)) (p p' : BufferPoolManager) (path : List PathFrame)
    → ((k i : ℕ) → Assoc.get p.page_table k ≡ some i → Assoc.get p'.page_table k ≡ some i)
    → AreOpen c p path
    → AreOpen c p' path
AreOpen-Grows c p p' path stays all_closed = all_closed
AreOpen-Grows c p p' path stays (also_open {path = rest} slot page_id i bytes there holds opened) =
    also_open slot page_id i bytes (stays page_id i there) holds
      (AreOpen-Grows c p p' rest stays opened)

pub AreOpen-put :
    (c : ℕ → Option (List ℕ)) (p : BufferPoolManager) (k : ℕ) (out : List ℕ) (path : List PathFrame)
    → AreOpen c p path
    → AreOpen (put c k out) p path
AreOpen-put c p k out path all_closed = all_closed
AreOpen-put c p k out path (also_open {path = rest} slot page_id i bytes there holds opened) =
    elim (Bool-cases (k == page_id)) [
      | inl same ↦
          also_open slot page_id i out there (if_true _ _ same) (AreOpen-put c p k out rest opened)
      | inr other ↦
          also_open slot page_id i bytes there (if_false _ _ other ∙ holds)
            (AreOpen-put c p k out rest opened)
    ]

-- A stack that is dropped.
pub drop_path-IsCalm :
    (c : ℕ → Option (List ℕ)) (p : BufferPoolManager) (path : List PathFrame) (budget : ℕ)
    → AreOpen c p path
    → IsCalm (budget + length path) c p
    → Steps budget c p (drop_path p path)
unfolding drop_path
drop_path-IsCalm c p path budget all_closed calm =
    (p, refl, IsCalm-le budget (budget + 0) c p (omega arith) calm, Grows-refl p)
drop_path-IsCalm c p path budget (also_open {path = rest} slot page_id i bytes there holds opened)
      calm =
    let (p1, drops, calm1, grows1) =
      drop_path-IsCalm c p rest (suc budget) opened (
        IsCalm-le (suc budget + length rest) (budget + suc (length rest)) c p (omega arith) calm) in
    let (p2, last, calm2, grows2) =
      drop_guard-IsCalm budget c p1 page_id i bytes (grows1.stays page_id i there) holds calm1 in
    (p2, rw drops last, calm2, Grows-trans p p1 p2 grows1 grows2)

-- The stack above page `left`, which is split: each frame sends the key to the page below it; it
-- ends at the root, or at a node that has room for one more child.
pub data Climb (c : ℕ → Option (List ℕ)) (key : ℤ) (internal_max root : ℕ)
    : ℕ → List PathFrame → Type 0 where
  at_root : Climb c key internal_max root root []
  with_room :
      {left : ℕ} (slot page_id i : ℕ) (node : InternalNode)
      → Sends c key page_id left node
      → length node.entries < internal_max
      → Climb c key internal_max root left
          (record { slot_to_next_child = slot; guard = write_guard page_id i } ∷ [])
  below_other :
      {left : ℕ} {path : List PathFrame} (slot page_id i : ℕ) (node : InternalNode)
      → Sends c key page_id left node
      → Climb c key internal_max root page_id path
      → Climb c key internal_max root left
          (record { slot_to_next_child = slot; guard = write_guard page_id i } ∷ path)
