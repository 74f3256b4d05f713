-- ===== src/BTree/Insert/Beside.antt =====
-- `BTree::insert` in a tree of any height, where the leaf is full and its parent has room.
use buffer_pool.Base.{
  ℕ, suc, ◌+◌, ◌*◌, ◌≤◌, ◌<◌, ◌≡◌, sym, ap, subst, ◌∙◌, ◌≢◌, Option, some, List, arith, ℕ_discrete,
  ◌==◌, if◌then◌else◌, ==_of_ne, if_false, length, get_elem?,
}
use buffer_pool.Common.{page_size, invalid_page_id}
use buffer_pool.Disk.FileIo.{Io}
use buffer_pool.Disk.Slots.{Succeeds}
use buffer_pool.Pool.{BufferPoolManager}
use buffer_pool.Pool.Calm.{put, IsCalm, IsCalm-le}
use buffer_pool.BTree.Key.{ℤ, key_le, IsI64}
use buffer_pool.BTree.Leaf.{LeafNode, RecordId, header_size}
use buffer_pool.BTree.Leaf.Codec.{IsEntry}
use buffer_pool.BTree.Internal.{InternalNode}
use buffer_pool.BTree.Nodes.{add_entry}
use buffer_pool.BTree.Nodes.Splitting.{Halves}
use buffer_pool.BTree.Nodes.Members.{In}
use buffer_pool.BTree.Tree.{BTree}
use buffer_pool.BTree.Insert.Growth.{insert_leaf, insert}
use buffer_pool.BTree.Insert.Nodes.{
  LeafAt, InternalAt, moved-LeafAt, moved-InternalAt, leaf_not_internal, AreEntries-add_entry,
}
use buffer_pool.BTree.Insert.Splitting.{LeafSplit, split_leaf_page-LeafSplit}
use buffer_pool.BTree.Insert.Rooting.{insert_leaf-splits}
use buffer_pool.BTree.Insert.Whole.{IsEntry-at}
use buffer_pool.BTree.Insert.Routes.{Sends, Route, AreOpen-Grows}
use buffer_pool.BTree.Insert.Visiting.{frame}
use buffer_pool.BTree.Insert.Arriving.{find_path-Arrived}
use buffer_pool.BTree.Insert.Within.{Route-LeafAt}
use buffer_pool.BTree.Insert.Reroutes.{Route-split}
use buffer_pool.BTree.Insert.Gaining.{
  AreOpen-held, runs_beside, SentTo, separator_sent, parent_under, gains_child,
}

-- A successful insert with the leaf split into its page and page `right_id`; no other page but that
-- of the parent changes, and the route of each key stays, where it led to the leaf up to the half
-- that the separator picks.
abbrev pub SplitsBeside :
    (ℕ → Io) → ℕ → ℕ → BTree → ℤ → ℕ → ℕ → ℕ → ℕ → ℕ → ℕ → (ℕ → Option (List ℕ)) → LeafNode → Type 0
SplitsBeside faults now fuel t key page_id slot_num leaf_id up_id right_id budget c leaf =
    (p : BufferPoolManager) × (d : ℕ → Option (List ℕ)) × (lo hi : LeafNode) × (sep : ℤ) × (insert
        faults now fuel t key page_id slot_num
      ≡ some (record t { buffer_pool = p }))
    × Halves (add_entry leaf key page_id slot_num) right_id lo sep hi
    × LeafAt d leaf_id lo
    × LeafAt d right_id hi
    × ((k : ℕ) → k ≢ leaf_id → k ≢ right_id → k ≢ up_id → d k ≡ c k)
    × ((sought : ℤ) (m to_id : ℕ) (to : LeafNode)
        → Route c sought m t.root_page_id to to_id
        → Route d sought m t.root_page_id
            (if to_id == leaf_id then (if key_le sep sought then hi else lo) else to)
            (if to_id == leaf_id then (if key_le sep sought then right_id else leaf_id) else to_id))
    × IsCalm budget d p

split_held :
    (c d : ℕ → Option (List ℕ)) (leaf : LeafNode) (left right : ℕ) (sep : ℤ)
    → LeafSplit c d leaf left right sep
    → (k : ℕ) (bytes : List ℕ) → c k ≡ some bytes
    → (out : List ℕ) × (d k ≡ some out)
split_held c d leaf left right sep sp k bytes holds = elim (ℕ_discrete k left) [
  | yes same ↦ (sp.left_at.bytes, ap d same ∙ sp.left_at.holds)
  | no other ↦ elim (ℕ_discrete k right) [
    | yes same ↦ (sp.right_at.bytes, ap d same ∙ sp.right_at.holds)
    | no away ↦ (bytes, sp.others k other away ∙ holds)
  ]
]

-- On a calm pool with a frame left, without faults, in a tree of any height, an insert of a key
-- whose route ends at a full leaf below the root succeeds, with fuel for each page of the route, if
-- the parent of the leaf has room for one more child, the leaf has no other parent, the parent
-- sends the keys of the leaf to it, and the leaf and a node of the maximum size are within a page.
-- The leaf is split with the new entry into its page and the next new page, only these pages and
-- that of the parent change, and the route of each key stays, where it led to the leaf up to the
-- half that the separator picks. The pool stays calm.
pub insert-beside :
    (faults : ℕ → Io) (now fuel : ℕ) (t : BTree) (key : ℤ) (page_id slot_num n : ℕ)
    (leaf_id up_id budget : ℕ) (c : ℕ → Option (List ℕ)) (leaf : LeafNode) (parent : InternalNode)
    → ((m : ℕ) → Succeeds (faults m))
    → Route c key n t.root_page_id leaf leaf_id
    → n ≤ fuel + 1
    → IsCalm (budget + 4 + 2 * n) c t.buffer_pool
    → t.buffer_pool.next_page_id + 1 ≤ t.buffer_pool.num_frames
    → t.root_page_id ≢ invalid_page_id
    → t.root_page_id ≢ leaf_id
    → (from : Sends c key up_id leaf_id parent)
    → ((page_id j : ℕ) (k : ℤ) (node : InternalNode)
        → InternalAt c page_id node
        → get_elem? node.entries j ≡ some (k, leaf_id)
        → (page_id ≡ up_id) × (j ≡ from.index))
    → ((e : ℤ × RecordId) → In leaf.entries e → SentTo parent from.child_key from.index e.0)
    → IsEntry (key, record { page_id = page_id; slot_num = slot_num })
    → t.leaf_node_max_size ≤ length leaf.entries
    → header_size + 16 * length leaf.entries ≤ page_size
    → length parent.entries < t.internal_node_max_size
    → header_size + 12 * t.internal_node_max_size ≤ page_size
    → SplitsBeside faults now fuel t key page_id slot_num leaf_id up_id t.buffer_pool.next_page_id
        budget c leaf
insert-beside faults now fuel t key page_id slot_num n leaf_id up_id budget c leaf parent s route
      enough calm frame_left rooted below from unique keeps entry full page room node_page =
    let right_id = t.buffer_pool.next_page_id in
    let at = Route-LeafAt c key n t.root_page_id leaf_id leaf route in
    let leaf_made = calm.held leaf_id at.bytes at.holds in
    let up_made = calm.held up_id from.at.bytes from.at.holds in
    let up_not_leaf = leaf_not_internal c up_id leaf_id leaf parent at from.at in
    let (stack, p1, finds, there) =
      find_path-Arrived faults now fuel t key n leaf_id (budget + 4) c leaf s route enough calm in
    let u =
      parent_under c key leaf_id up_id leaf t p1 stack (budget + 4) below full
        (λ q node x. (unique q x.index x.child_key node x.at x.entry).0) there in
    let sized : length there.kept ≡ suc (length u.path) = ap length u.is in
    let (p2, leaves, calm2, grows2) =
      insert_leaf-splits p1 key page_id slot_num t.leaf_node_max_size
        (budget + 1 + length u.path + 3) there.slot leaf_id there.i there.kept c leaf
        (IsCalm-le (suc (budget + 1 + length u.path + 3)) (budget + 4 + suc (length there.kept)) c
          p1 (omega (arith, sized)) there.calm)
        there.there at full in
    let next2 : p2.next_page_id ≡ right_id = grows2.next ∙ there.grows.next in
    let (sep, p3, c3, splits, sp, calm3, stays3, _, _) =
      split_leaf_page-LeafSplit faults now p2 key page_id slot_num leaf_id
        (budget + 1 + length u.path) c leaf s calm2
        (omega (arith, grows2.next, there.grows.next, grows2.frames, there.grows.frames)) at entry
        page in
    let (e_at, e, found, is) = sp.halves.separator in
    let are = AreEntries-add_entry leaf key page_id slot_num at.entries entry in
    let g =
      gains_child faults now t.internal_node_max_size c3 p3 u.path u.slot u.i up_id leaf_id
        p2.next_page_id from.index budget sep from.child_key parent calm3
        (stays3 up_id u.i (grows2.stays up_id u.i u.there))
        (AreOpen-held c c3 p3 u.path (split_held c c3 _ leaf_id p2.next_page_id sep sp)
          (AreOpen-Grows c p1 p3 u.path (λ k i x. stays3 k i (grows2.stays k i x)) u.are_open))
        (moved-InternalAt c c3 up_id parent from.at
          (sp.others up_id up_not_leaf (λ e. absurd (omega (arith, next2)))))
        from.sorted from.entry (λ j k x. (unique up_id j k parent from.at x).1)
        (separator_sent leaf key sep from.child_key page_id slot_num from.index parent keeps
          (from.below, from.above) sp.halves.separator)
        (subst IsI64 is (IsEntry-at _ e_at e are found).0)
        (omega (arith, next2, calm.few, calm.room)) room node_page in
    let d = put c3 up_id g.out in
    let kept_by : (k : ℕ) → k ≢ up_id → d k ≡ c3 k = λ k ne. if_false _ _ (==_of_ne up_id k ne) in
    let lo_at =
      moved-LeafAt c3 d leaf_id sp.left sp.left_at (kept_by leaf_id (λ x. up_not_leaf (sym x))) in
    let hi_at =
      moved-LeafAt c3 d p2.next_page_id sp.right sp.right_at
        (kept_by p2.next_page_id (λ x. absurd (omega (arith, next2)))) in
    let others : (k : ℕ) → k ≢ leaf_id → k ≢ p2.next_page_id → k ≢ up_id → d k ≡ c k =
      λ k x y z. kept_by k z ∙ sp.others k x y in
    subst (λ r. SplitsBeside faults now fuel t key page_id slot_num leaf_id up_id r budget c leaf)
      next2
      (
        g.p5,
        d,
        sp.left,
        sp.right,
        sep,
        runs_beside faults now fuel t key sep page_id slot_num leaf_id p2.next_page_id p1 p2 p3 g.p4
            g.p5 stack u.path (frame u.slot up_id u.i)
            (==_of_ne t.root_page_id invalid_page_id (λ x. rooted (sym x))) finds
            (ap (insert_leaf p1 key page_id slot_num t.leaf_node_max_size) there.top
              ∙ leaves
              ∙ ap (λ l. some (leaf_id, l, p2)) u.is)
            (==_of_ne leaf_id invalid_page_id (λ x. absurd (omega (arith, calm.few, calm.room))))
            splits g.settles g.drops,
        sp.halves,
        lo_at,
        hi_at,
        others,
        (λ sought m to_id to r.
            Route-split c d leaf_id p2.next_page_id up_id from.index leaf sp.left sp.right parent
              g.larger sep at from.at lo_at hi_at g.at g.sorted
              (λ bytes x. absurd (omega (arith, next2, calm.held p2.next_page_id bytes x))) others
              unique from.child_key from.entry g.routes sought m t.root_page_id to_id to below r),
        g.calm,
      )
