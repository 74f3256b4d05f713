-- ===== src/BTree/Insert/Gaining.antt =====
-- The parent of a leaf that was split, in `BTree::insert` on a calm pool, where it has room.
use buffer_pool.Base.{
  ℕ, suc, ◌+◌, ◌*◌, ◌≤◌, ◌<◌, ◌≡◌, refl, sym, ap, subst, ◌∙◌, ◌≢◌, inl, inr, true, false, Option,
  some, List, [], ◌∷◌, arith, ◌==◌, if◌then◌else◌, if_false, length, get_elem?,
}
use buffer_pool.Base.Assoc
use buffer_pool.Common.{page_size, u32_size, invalid_page_id}
use buffer_pool.Disk.FileIo.{Io}
use buffer_pool.Pool.{BufferPoolManager}
use buffer_pool.Pool.Calm.{put, IsCalm, IsCalm-le}
use buffer_pool.BTree.Key.{ℤ, key_le, IsI64}
use buffer_pool.BTree.Sorted.{IsSorted, Above}
use buffer_pool.BTree.Leaf.{LeafNode, RecordId, header_size}
use buffer_pool.BTree.Internal.{InternalNode, find_child_index}
use buffer_pool.BTree.Nodes.{add_entry}
use buffer_pool.BTree.Nodes.Routing.{child_of}
use buffer_pool.BTree.Nodes.Splitting.{Has}
use buffer_pool.BTree.Nodes.Members.{In, add_entry-In}
use buffer_pool.BTree.Nodes.Children.{add_child-routes}
use buffer_pool.BTree.Tree.{BTree}
use buffer_pool.BTree.Insert.{PathFrame, drop_path}
use buffer_pool.BTree.Insert.Descent.{find_path}
use buffer_pool.BTree.Insert.Growth.{
  insert_leaf, split_leaf_page, settled, parent_round, propagate, insert_below, insert,
}
use buffer_pool.BTree.Insert.Nodes.{InternalAt}
use buffer_pool.BTree.Insert.Routes.{
  Sends, AreOpen, all_closed, also_open, AreOpen-Grows, AreOpen-put, drop_path-IsCalm, Climb,
  at_root, with_room, below_other,
}
use buffer_pool.BTree.Insert.Visiting.{frame}
use buffer_pool.BTree.Insert.Descending.{Arrived}
use buffer_pool.BTree.Insert.Parents.{parent_round-settles}
use buffer_pool.BTree.Insert.Reroutes.{position_unique, add_child-AreChildren}

pub AreOpen-held :
    (c d : ℕ → Option (List ℕ)) (p : BufferPoolManager) (path : List PathFrame)
    → ((k : ℕ) (bytes : List ℕ) → c k ≡ some bytes → (out : List ℕ) × (d k ≡ some out))
    → AreOpen c p path
    → AreOpen d p path
AreOpen-held c d p path held all_closed = all_closed
AreOpen-held c d p path held (also_open {path = rest} slot page_id i bytes there holds opened) =
    let (out, here) = held page_id bytes holds in
    also_open slot page_id i out there here (AreOpen-held c d p rest held opened)

-- The frame of the parent is right under that of the leaf.
pub record UnderLeaf (c : ℕ → Option (List ℕ)) (up_id : ℕ) (p : BufferPoolManager)
    (kept : List PathFrame) : Type 0 where
  pub slot : ℕ
  pub i : ℕ
  pub path : List PathFrame
  pub is : kept ≡ frame slot up_id i ∷ path
  pub there : Assoc.get p.page_table up_id ≡ some i
  pub are_open : AreOpen c p path

under_leaf :
    (c : ℕ → Option (List ℕ)) (key : ℤ) (internal_max root leaf_id up_id : ℕ)
    (p : BufferPoolManager) (kept : List PathFrame)
    → root ≢ leaf_id
    → ((page_id : ℕ) (node : InternalNode) → Sends c key page_id leaf_id node → page_id ≡ up_id)
    → Climb c key internal_max root leaf_id kept
    → AreOpen c p kept
    → UnderLeaf c up_id p kept
under_leaf c key internal_max root leaf_id up_id p kept below once at_root opened =
    absurd (below refl)
under_leaf c key internal_max root leaf_id up_id p kept below once
      (with_room slot page_id i node s small) (also_open slot2 page2 i2 bytes there holds opened) =
    let same = once page_id node s in
    record {
      slot = slot;
      i = i;
      path = [];
      is = ap (λ n. frame slot n i ∷ []) same;
      there = ap (Assoc.get p.page_table) (sym same) ∙ there;
      are_open = opened;
    }
under_leaf c key internal_max root leaf_id up_id p kept below once
      (below_other {path = rest} slot page_id i node s climb)
      (also_open slot2 page2 i2 bytes there holds opened) =
    let same = once page_id node s in
    record {
      slot = slot;
      i = i;
      path = rest;
      is = ap (λ n. frame slot n i ∷ rest) same;
      there = ap (Assoc.get p.page_table) (sym same) ∙ there;
      are_open = opened;
    }

pub runs_beside :
    (faults : ℕ → Io) (now fuel : ℕ) (t : BTree) (key sep : ℤ) (page_id slot_num left right : ℕ)
    (p1 p2 p3 p4 p5 : BufferPoolManager) (stack path : List PathFrame) (top : PathFrame)
    → (t.root_page_id == invalid_page_id) ≡ false
    → find_path faults now fuel t key ≡ some (stack, p1)
    → insert_leaf p1 key page_id slot_num t.leaf_node_max_size stack ≡ some (left, top ∷ path, p2)
    → (left == invalid_page_id) ≡ false
    → split_leaf_page faults now p2 key page_id slot_num left ≡ some (sep, right, p3)
    → parent_round faults now p3 t.internal_node_max_size top left sep right ≡ some (settled, p4)
    → drop_path p4 path ≡ some p5
    → insert faults now fuel t key page_id slot_num ≡ some (record t { buffer_pool = p5 })
unfolding insert insert_below propagate
runs_beside faults now fuel t key sep page_id slot_num left right p1 p2 p3 p4 p5 stack path top
      rooted e1 e2 e3 e4 e5 e6 =
    if_false _ _ rooted
    ∙ rw (e1, insert_below) (rw e2 (rw e3 (rw e4 (rw (e5, propagate) (rw e6 refl)))))

-- The parent sends the key to its child at `index`.
abbrev pub SentTo : InternalNode → ℤ → ℕ → ℤ → Type 0
SentTo parent child_key index key =
    (key_le child_key key ≡ true) × Above parent.entries key (index + 1)

pub separator_sent :
    (leaf : LeafNode) (key sep child_key : ℤ) (page_id slot_num index : ℕ) (parent : InternalNode)
    → ((e : ℤ × RecordId) → In leaf.entries e → SentTo parent child_key index e.0)
    → SentTo parent child_key index key
    → Has (add_entry leaf key page_id slot_num).entries sep
    → SentTo parent child_key index sep
separator_sent leaf key sep child_key page_id slot_num index parent all new (i, e, at, is) =
    subst (SentTo parent child_key index) is
      (elim ((add_entry-In leaf key page_id slot_num e).0 (i, at)) [
        | inl old ↦ all e old
        | inr added ↦
            subst (SentTo parent child_key index) (ap (λ (x : ℤ × RecordId). x.0) added) new
      ])

-- A full leaf is not alone on the stack, if it is not the root.
pub parent_under :
    (c : ℕ → Option (List ℕ)) (key : ℤ) (leaf_id up_id : ℕ) (leaf : LeafNode) (t : BTree)
    (p : BufferPoolManager) (stack : List PathFrame) (budget : ℕ)
    → t.root_page_id ≢ leaf_id
    → t.leaf_node_max_size ≤ length leaf.entries
    → ((page_id : ℕ) (node : InternalNode) → Sends c key page_id leaf_id node → page_id ≡ up_id)
    → (a : Arrived c key t.leaf_node_max_size t.internal_node_max_size t.root_page_id leaf_id leaf
        budget t.buffer_pool p stack)
    → UnderLeaf c up_id p a.kept
parent_under c key leaf_id up_id leaf t p stack budget below full once a = elim a.room [
  | inl (small, _) ↦ absurd (omega arith)
  | inr (_, climb) ↦
      under_leaf c key t.internal_node_max_size t.root_page_id leaf_id up_id p a.kept below once
        climb a.are_open
]

-- The parent, once it got its child.
pub record Gained (faults : ℕ → Io) (now internal_max : ℕ) (c : ℕ → Option (List ℕ))
    (p : BufferPoolManager) (top : PathFrame) (path : List PathFrame)
    (up_id left right index budget : ℕ) (sep : ℤ) (parent : InternalNode) : Type 0 where
  pub larger : InternalNode
  pub out : List ℕ
  pub p4 : BufferPoolManager
  pub p5 : BufferPoolManager
  pub settles : parent_round faults now p internal_max top left sep right ≡ some (settled, p4)
  pub drops : drop_path p4 path ≡ some p5
  pub at : InternalAt (put c up_id out) up_id larger
  pub sorted : IsSorted larger.entries
  pub routes :
      (key : ℤ)
      → ((find_child_index parent key ≡ some index)
          → child_of larger key ≡ some (if key_le sep key then right else left))
        × (find_child_index parent key ≢ some index → child_of larger key ≡ child_of parent key)
  pub calm : IsCalm budget (put c up_id out) p5

pub gains_child :
    (faults : ℕ → Io) (now internal_max : ℕ) (c : ℕ → Option (List ℕ)) (p : BufferPoolManager)
    (path : List PathFrame) (slot i up_id left right index budget : ℕ) (sep child_key : ℤ)
    (parent : InternalNode)
    → IsCalm (budget + 1 + length path) c p
    → Assoc.get p.page_table up_id ≡ some i
    → AreOpen c p path
    → InternalAt c up_id parent
    → IsSorted parent.entries
    → get_elem? parent.entries index ≡ some (child_key, left)
    → ((j : ℕ) (k : ℤ) → get_elem? parent.entries j ≡ some (k, left) → j ≡ index)
    → SentTo parent child_key index sep
    → IsI64 sep
    → right < u32_size
    → length parent.entries < internal_max
    → header_size + 12 * internal_max ≤ page_size
    → Gained faults now internal_max c p
        (frame slot up_id i)
        path
        up_id
        left
        right
        index
        budget
        sep
        parent
gains_child faults now internal_max c p path slot i up_id left right index budget sep child_key
      parent calm there opened at sorted entry once (le, above) fits small room page =
    let pos = position_unique parent.entries left index child_key entry once in
    let (larger, adds, larger_sorted, size, routes) =
      add_child-routes parent left index child_key sep right sorted pos entry le above in
    let (out, p4, settles, larger_at, calm4, grows4) =
      parent_round-settles faults now p internal_max slot up_id i left right sep
        (budget + length path) c parent larger
        (IsCalm-le (suc (budget + length path)) (budget + 1 + length path) c p (omega arith) calm)
        there at adds
        (add_child-AreChildren parent larger left index sep right pos adds at.entries fits small)
        (omega (arith, size)) (omega (arith, size)) in
    let (p5, drops, calm5, _) =
      drop_path-IsCalm (put c up_id out) p4 path budget
        (AreOpen-Grows (put c up_id out) p p4 path grows4.stays
          (AreOpen-put c p up_id out path opened))
        calm4 in
    record {
      larger = larger;
      out = out;
      p4 = p4;
      p5 = p5;
      settles = settles;
      drops = drops;
      at = larger_at;
      sorted = larger_sorted;
      routes = routes;
      calm = calm5;
    }
