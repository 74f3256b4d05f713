-- ===== src/BTree/Insert/Descending.antt =====
-- The way down in `BTree::insert` on a calm pool, in a tree of any height.
use buffer_pool.Base.{
  ℕ, zero, suc, ◌+◌, ◌*◌, ◌≤◌, ◌<◌, ◌≡◌, refl, sym, subst, ◌⊎◌, inl, inr, true, false, Option, some,
  List, [], ◌∷◌, arith, ltb, ltb→lt, length, get_elem?,
}
use buffer_pool.Base.Assoc
use buffer_pool.Common.{invalid_page_id}
use buffer_pool.Disk.FileIo.{Io}
use buffer_pool.Disk.Slots.{Succeeds}
use buffer_pool.Pool.{BufferPoolManager}
use buffer_pool.Pool.Calm.{IsCalm, IsCalm-le, Grows, Grows-trans}
use buffer_pool.Pool.Calm.Steps.{write_guard}
use buffer_pool.BTree.Key.{ℤ}
use buffer_pool.BTree.Leaf.{LeafNode}
use buffer_pool.BTree.Internal.{InternalNode}
use buffer_pool.BTree.Tree.Walking.{find_child_index_unique}
use buffer_pool.BTree.Insert.{PathFrame}
use buffer_pool.BTree.Insert.Descent.{descend}
use buffer_pool.BTree.Insert.Nodes.{LeafAt}
use buffer_pool.BTree.Insert.Routes.{
  Sends, Route, stop, pass, AreOpen, also_open, Climb, with_room, below_other,
}
use buffer_pool.BTree.Insert.Visiting.{frame, Visited, visits, round_leaf, round_internal}

-- Where the way down ends: the leaf is on top of the stack. It has room and is alone, or is full
-- and under the stack of its route.
pub record Arrived (c : ℕ → Option (List ℕ)) (key : ℤ) (leaf_max internal_max root leaf_id : ℕ)
    (leaf : LeafNode) (budget : ℕ) (p p' : BufferPoolManager) (stack : List PathFrame)
    : Type 0 where
  pub slot : ℕ
  pub i : ℕ
  pub kept : List PathFrame
  pub top : stack ≡ frame slot leaf_id i ∷ kept
  pub there : Assoc.get p'.page_table leaf_id ≡ some i
  pub are_open : AreOpen c p' kept
  pub room :
      ((length leaf.entries < leaf_max) × (kept ≡ []))
      ⊎ ((leaf_max ≤ length leaf.entries) × Climb c key internal_max root leaf_id kept)
  pub calm : IsCalm (budget + suc (length kept)) c p'
  pub grows : Grows p p'

-- The stack of a child, after the frame of its parent was pushed on.
Climb-on :
    (c : ℕ → Option (List ℕ)) (key : ℤ) (internal_max root child grandchild slot i : ℕ)
    (node : InternalNode) (path kept : List PathFrame)
    → Sends c key child grandchild node
    → Climb c key internal_max root child path
    → ((ltb (length node.entries) internal_max ≡ true) × (kept ≡ []))
      ⊎ ((ltb (length node.entries) internal_max ≡ false) × (kept ≡ path))
    → Climb c key internal_max root grandchild (frame slot child i ∷ kept)
Climb-on c key internal_max root child grandchild slot i node path kept sends climb (inl (lt, is)) =
    subst (λ l. Climb c key internal_max root grandchild (frame slot child i ∷ l)) (sym is)
      (with_room slot child i node sends (ltb→lt (length node.entries) internal_max lt))
Climb-on c key internal_max root child grandchild slot i node path kept sends climb (inr (_, is)) =
    subst (λ l. Climb c key internal_max root grandchild (frame slot child i ∷ l)) (sym is)
      (below_other slot child i node sends climb)

module _ (faults : ℕ → Io) (s : (m : ℕ) → Succeeds (faults m)) (now : ℕ) (c : ℕ → Option (List ℕ))
    (key : ℤ) (leaf_max internal_max root leaf_id : ℕ) (leaf : LeafNode) where
  arrives :
      (fuel budget : ℕ) (p : BufferPoolManager) (path : List PathFrame) (internal : InternalNode)
      (slot : ℕ) (k : ℤ)
      → get_elem? internal.entries slot ≡ some (k, leaf_id)
      → (at : LeafAt c leaf_id leaf) → Climb c key internal_max root leaf_id path
      → Visited faults now c leaf_id at.bytes
          (ltb (length leaf.entries) leaf_max)
          (suc budget)
          p
          path
      → (stack : List PathFrame) × (p' : BufferPoolManager) × (descend faults now
            (suc fuel)
            p
            key
            leaf_max
            internal_max
            path
            internal
            slot
          ≡ some (stack, p'))
        × Arrived c key leaf_max internal_max root leaf_id leaf budget p p' stack
  unfolding descend
  arrives fuel budget p path internal slot k entry at climb v = (
    frame invalid_page_id leaf_id v.i ∷ v.kept,
    v.p4,
    rw
        (
          round_leaf faults now p v.p1 v.p2 v.p3 v.p4 key k leaf_max internal_max slot leaf_id path
              v.kept internal at.bytes (write_guard leaf_id v.i) leaf entry v.reads at.kind v.opens
              v.borrows at.decodes v.clears,
          descend,
        )
        refl,
    record {
      slot = invalid_page_id;
      i = v.i;
      kept = v.kept;
      top = refl;
      there = v.there;
      are_open = v.are_open;
      room = elim v.cleared [
        | inl (lt, is) ↦ inl (ltb→lt (length leaf.entries) leaf_max lt, is)
        | inr (ge, is) ↦
            inr (ground (arith, ge), subst (Climb c key internal_max root leaf_id) (sym is) climb)
      ];
      calm =
          IsCalm-le (budget + suc (length v.kept)) (suc budget + length v.kept) c v.p4 (omega arith)
            v.calm;
      grows = v.grows;
    },
  )

  -- The way down from a node whose slot names a page of the route ends at the leaf.
  pub descend-Arrived :
      (fuel budget : ℕ) (p : BufferPoolManager) (path : List PathFrame) (internal : InternalNode)
      (slot : ℕ) (k : ℤ) (n child : ℕ)
      → get_elem? internal.entries slot ≡ some (k, child)
      → Route c key n child leaf leaf_id
      → n ≤ fuel
      → Climb c key internal_max root child path
      → AreOpen c p path
      → IsCalm (budget + 2 * n + length path) c p
      → (stack : List PathFrame) × (p' : BufferPoolManager) × (descend faults now fuel p key
            leaf_max internal_max path internal slot
          ≡ some (stack, p'))
        × Arrived c key leaf_max internal_max root leaf_id leaf budget p p' stack
  unfolding descend
  descend-Arrived zero budget p path internal slot k n child entry (stop at) enough climb opened
        calm =
      absurd (omega arith)
  descend-Arrived zero budget p path internal slot k n child entry (pass node grandchild sends rest)
        enough climb opened calm =
      absurd (omega arith)
  descend-Arrived (suc fuel) budget p path internal slot k n child entry (stop at) enough climb
        opened calm =
      arrives fuel budget p path internal slot k entry at climb (
        visits faults now c child at.bytes (ltb (length leaf.entries) leaf_max) (suc budget) p path
          s
          (IsCalm-le (suc (suc budget + length path)) (budget + 2 * 1 + length path) c p
            (omega arith) calm)
          opened at.holds at.full)
  descend-Arrived (suc fuel) budget p path internal slot k n child entry
        (pass {n = m} node grandchild sends rest) enough climb opened calm =
      let v =
        visits faults now c child sends.at.bytes (ltb (length node.entries) internal_max)
          (budget + 2 * m + 1) p path s
          (IsCalm-le (suc (budget + 2 * m + 1 + length path)) (budget + 2 * suc m + length path) c p
            (omega arith) calm)
          opened sends.at.holds sends.at.full in
      let found =
        find_child_index_unique node key sends.child_key sends.index grandchild sends.sorted
          sends.entry sends.below sends.above in
      let round =
        round_internal faults now p v.p1 v.p2 v.p3 v.p4 key k leaf_max internal_max slot child
          sends.index path v.kept internal node sends.at.bytes (write_guard child v.i) entry v.reads
          sends.at.kind sends.at.decodes found v.opens v.borrows v.clears in
      let (stack, p', descends, arrived_there) =
        descend-Arrived fuel budget v.p4 (frame sends.index child v.i ∷ v.kept) node sends.index
          sends.child_key m grandchild sends.entry rest (omega arith)
          (Climb-on c key internal_max root child grandchild sends.index v.i node path v.kept sends
            climb v.cleared)
          (also_open sends.index child v.i sends.at.bytes v.there sends.at.holds v.are_open)
          (IsCalm-le (budget + 2 * m + suc (length v.kept)) (budget + 2 * m + 1 + length v.kept) c
            v.p4 (omega arith) v.calm) in
      (
        stack,
        p',
        rw (round, descend) descends,
        record {
          slot = arrived_there.slot;
          i = arrived_there.i;
          kept = arrived_there.kept;
          top = arrived_there.top;
          there = arrived_there.there;
          are_open = arrived_there.are_open;
          room = arrived_there.room;
          calm = arrived_there.calm;
          grows = Grows-trans p v.p4 p' v.grows arrived_there.grows;
        },
      )
