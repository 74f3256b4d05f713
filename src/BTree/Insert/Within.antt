-- ===== src/BTree/Insert/Within.antt =====
-- `BTree::insert` in a tree of any height, where the leaf of the key has room.
use buffer_pool.Base.{
  ℕ, suc, ◌+◌, ◌*◌, ◌≤◌, ◌<◌, ◌≡◌, sym, ap, subst, ◌∙◌, ◌≢◌, inl, inr, Option, some, List, [], ◌∷◌,
  arith, ℕ_discrete, ◌==◌, if◌then◌else◌, ==_self, ==_of_ne, if_true, if_false, length,
}
use buffer_pool.Common.{page_size, invalid_page_id}
use buffer_pool.Disk.FileIo.{Io}
use buffer_pool.Disk.Slots.{Succeeds}
use buffer_pool.Pool.{BufferPoolManager}
use buffer_pool.Pool.Calm.{put, IsCalm, IsCalm-le}
use buffer_pool.BTree.Key.{ℤ}
use buffer_pool.BTree.Leaf.{LeafNode, header_size}
use buffer_pool.BTree.Leaf.Codec.{IsEntry}
use buffer_pool.BTree.Internal.{InternalNode}
use buffer_pool.BTree.Nodes.{add_entry}
use buffer_pool.BTree.Tree.{BTree}
use buffer_pool.BTree.Insert.{PathFrame}
use buffer_pool.BTree.Insert.Growth.{insert_leaf, insert}
use buffer_pool.BTree.Insert.Nodes.{LeafAt, moved-LeafAt, moved-InternalAt, leaf_not_internal}
use buffer_pool.BTree.Insert.Splitting.{insert_leaf-stores}
use buffer_pool.BTree.Insert.Whole.{runs_room}
use buffer_pool.BTree.Insert.Routes.{Sends, Route, stop, pass}
use buffer_pool.BTree.Insert.Visiting.{frame}
use buffer_pool.BTree.Insert.Descending.{Arrived}
use buffer_pool.BTree.Insert.Arriving.{find_path-Arrived}

pub moved-Sends :
    (c d : ℕ → Option (List ℕ)) (key : ℤ) (page_id child : ℕ) (node : InternalNode)
    → d page_id ≡ c page_id
    → Sends c key page_id child node
    → Sends d key page_id child node
moved-Sends c d key page_id child node same sends = record {
  at = moved-InternalAt c d page_id node sends.at same;
  sorted = sends.sorted;
  index = sends.index;
  child_key = sends.child_key;
  entry = sends.entry;
  below = sends.below;
  above = sends.above;
}

-- One leaf is changed: the routes to it lead to the new leaf, and all others stay.
Route-changed :
    (c d : ℕ → Option (List ℕ)) (leaf_id : ℕ) (leaf larger : LeafNode)
    → LeafAt c leaf_id leaf
    → LeafAt d leaf_id larger
    → ((k : ℕ) → k ≢ leaf_id → d k ≡ c k)
    → (sought : ℤ) (m page_id to_id : ℕ) (to : LeafNode) → Route c sought m page_id to to_id
    → Route d sought m page_id (if to_id == leaf_id then larger else to) to_id
Route-changed c d leaf_id leaf larger old new others sought m page_id to_id to (stop at) =
    elim (ℕ_discrete to_id leaf_id) [
      | yes same ↦
          subst (λ l. Route d sought 1 to_id l to_id)
            (sym (if_true larger to (ap (λ n. n == leaf_id) same ∙ ==_self leaf_id)))
            (stop (subst (λ n. LeafAt d n larger) (sym same) new))
      | no other ↦
          subst (λ l. Route d sought 1 to_id l to_id)
            (sym (if_false larger to (==_of_ne to_id leaf_id (λ e. other (sym e)))))
            (stop (moved-LeafAt c d to_id to at (others to_id other)))
    ]
Route-changed c d leaf_id leaf larger old new others sought m page_id to_id to
      (pass {n = rest_size} node child sends rest) =
    pass node child
      (moved-Sends c d sought page_id child node
        (others page_id (leaf_not_internal c page_id leaf_id leaf node old sends.at)) sends)
      (Route-changed c d leaf_id leaf larger old new others sought rest_size child to_id to rest)

pub Route-LeafAt :
    (c : ℕ → Option (List ℕ)) (key : ℤ) (n page_id leaf_id : ℕ) (leaf : LeafNode)
    → Route c key n page_id leaf leaf_id
    → LeafAt c leaf_id leaf
Route-LeafAt c key n page_id leaf_id leaf (stop at) = at
Route-LeafAt c key n page_id leaf_id leaf (pass {n = m} node child sends rest) =
    Route-LeafAt c key m child leaf_id leaf rest

-- A leaf with room is alone on the stack.
stack_alone :
    (c : ℕ → Option (List ℕ)) (key : ℤ) (leaf_max internal_max root leaf_id : ℕ) (leaf : LeafNode)
    (budget : ℕ) (p p' : BufferPoolManager) (stack : List PathFrame)
    → length leaf.entries < leaf_max
    → (a : Arrived c key leaf_max internal_max root leaf_id leaf budget p p' stack)
    → stack ≡ frame a.slot leaf_id a.i ∷ []
stack_alone c key leaf_max internal_max root leaf_id leaf budget p p' stack small a = elim a.room [
  | inl (_, none_kept) ↦ a.top ∙ ap (λ l. frame a.slot leaf_id a.i ∷ l) none_kept
  | inr (full, _) ↦ absurd (omega arith)
]

-- On a calm pool, without faults, in a tree of any height, an insert of a key whose route ends at a
-- leaf with room succeeds, with fuel for each page of the route, if a leaf of the maximum size is
-- within a page. The leaf gets the entry, every other page holds what it held, the root stays, the
-- routes of all keys stay, and lead to the new leaf where they led to the old one. The pool stays
-- calm.
pub insert-within :
    (faults : ℕ → Io) (now fuel : ℕ) (t : BTree) (key : ℤ) (page_id slot_num n leaf_id budget : ℕ)
    (c : ℕ → Option (List ℕ)) (leaf : LeafNode)
    → ((m : ℕ) → Succeeds (faults m))
    → Route c key n t.root_page_id leaf leaf_id
    → n ≤ fuel + 1
    → IsCalm (budget + 2 * n) c t.buffer_pool
    → t.root_page_id ≢ invalid_page_id
    → IsEntry (key, record { page_id = page_id; slot_num = slot_num })
    → length leaf.entries < t.leaf_node_max_size
    → header_size + 16 * t.leaf_node_max_size ≤ page_size
    → (p : BufferPoolManager) × (d : ℕ → Option (List ℕ)) × (insert faults now fuel t key page_id
          slot_num
        ≡ some (record t { buffer_pool = p }))
      × LeafAt d leaf_id (add_entry leaf key page_id slot_num)
      × ((k : ℕ) → k ≢ leaf_id → d k ≡ c k)
      × ((sought : ℤ) (m to_id : ℕ) (to : LeafNode)
          → Route c sought m t.root_page_id to to_id
          → Route d sought m t.root_page_id
              (if to_id == leaf_id then add_entry leaf key page_id slot_num else to)
              to_id)
      × IsCalm budget d p
insert-within faults now fuel t key page_id slot_num n leaf_id budget c leaf s route enough calm
      rooted entry small page =
    let (stack, p1, finds, there) =
      find_path-Arrived faults now fuel t key n leaf_id budget c leaf s route enough calm in
    let at = Route-LeafAt c key n t.root_page_id leaf_id leaf route in
    let alone =
      stack_alone c key t.leaf_node_max_size t.internal_node_max_size t.root_page_id leaf_id leaf
        budget t.buffer_pool p1 stack small there in
    let (out, p2, stores, new, calm2, _) =
      insert_leaf-stores p1 key page_id slot_num t.leaf_node_max_size budget there.slot leaf_id
        there.i [] c leaf
        (IsCalm-le (suc budget) (budget + suc (length there.kept)) c p1 (omega arith) there.calm)
        there.there at entry (omega arith) (omega arith) in
    let others : (k : ℕ) → k ≢ leaf_id → put c leaf_id out k ≡ c k =
      λ k ne. if_false _ _ (==_of_ne leaf_id k ne) in
    (
      p2,
      put c leaf_id out,
      runs_room faults now fuel t key page_id slot_num p1 p2 stack
          (==_of_ne t.root_page_id invalid_page_id (λ e. rooted (sym e))) finds
          (ap (insert_leaf p1 key page_id slot_num t.leaf_node_max_size) alone ∙ stores),
      new,
      others,
      (λ sought m to_id to r.
          Route-changed c (put c leaf_id out) leaf_id leaf (add_entry leaf key page_id slot_num) at
            new others sought m t.root_page_id to_id to r),
      calm2,
    )
