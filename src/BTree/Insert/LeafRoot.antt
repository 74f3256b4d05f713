-- ===== src/BTree/Insert/LeafRoot.antt =====
-- An entry that is put into a tree whose root is a leaf.
use buffer_pool.Base.{
  ℕ, suc, ◌+◌, ◌-◌, ◌*◌, ◌≤◌, ◌<◌, ◌≡◌, sym, subst, ◌∙◌, ◌≢◌, false, Option, some, List, [], arith,
  dec_lt, ◌==◌, ==_of_ne, if_false, length,
}
use buffer_pool.Common.{page_size, u64_size, invalid_page_id}
use buffer_pool.Disk.FileIo.{Io}
use buffer_pool.Disk.Slots.{Succeeds}
use buffer_pool.Pool.{BufferPoolManager}
use buffer_pool.Pool.Calm.{put, IsCalm, IsCalm-le}
use buffer_pool.BTree.Key.{ℤ, IsI64}
use buffer_pool.BTree.Leaf.{LeafNode, header_size}
use buffer_pool.BTree.Leaf.Codec.{IsEntry}
use buffer_pool.BTree.Nodes.{add_entry}
use buffer_pool.BTree.Tree.{BTree, get_root_page_id}
use buffer_pool.BTree.Insert.{PathFrame}
use buffer_pool.BTree.Insert.Descent.{find_path}
use buffer_pool.BTree.Insert.Growth.{insert_leaf, split_leaf_page, insert}
use buffer_pool.BTree.Insert.Nodes.{moved-LeafAt, LeafAt, AreEntries-add_entry}
use buffer_pool.BTree.Insert.Splitting.{LeafSplit, insert_leaf-stores, split_leaf_page-LeafSplit}
use buffer_pool.BTree.Insert.Rooting.{new_root-InternalAt, find_path-leaf, insert_leaf-splits}
use buffer_pool.BTree.Insert.Whole.{Inserted, runs_room, runs_split, IsEntry-at}
use buffer_pool.BTree.Insert.Gathering.{Inserted-room, Inserted-split}

-- The end of an insert that splits the root: the run so far, and the new root.
ends_split :
    (faults : ℕ → Io) (now fuel : ℕ) (t : BTree) (key sep : ℤ) (page_id slot_num budget : ℕ)
    (c c3 : ℕ → Option (List ℕ)) (leaf : LeafNode) (header : List ℕ) (p1 p2 p3 : BufferPoolManager)
    (stack : List PathFrame)
    → ((n : ℕ) → Succeeds (faults n))
    → (t.root_page_id == invalid_page_id) ≡ false
    → find_path faults now fuel t key ≡ some (stack, p1)
    → insert_leaf p1 key page_id slot_num t.leaf_node_max_size stack ≡ some (t.root_page_id, [], p2)
    → split_leaf_page faults now p2 key page_id slot_num t.root_page_id
      ≡ some (sep, p2.next_page_id, p3)
    → LeafSplit c c3 (add_entry leaf key page_id slot_num) t.root_page_id p2.next_page_id sep
    → IsCalm (budget + 3) c3 p3
    → p3.next_page_id ≡ p2.next_page_id + 1
    → p3.next_page_id + 1 ≤ p3.num_frames
    → t.root_page_id < p2.next_page_id
    → t.header_page_id ≢ t.root_page_id
    → t.header_page_id < p2.next_page_id
    → c3 t.header_page_id ≡ some header
    → length header ≡ page_size
    → LeafAt c t.root_page_id leaf
    → IsEntry (key, record { page_id = page_id; slot_num = slot_num })
    → (t' : BTree) × (d : ℕ → Option (List ℕ)) × (insert faults now fuel t key page_id slot_num
        ≡ some t')
      × Inserted d t t' leaf key page_id slot_num
      × IsCalm budget d t'.buffer_pool
ends_split faults now fuel t key sep page_id slot_num budget c c3 leaf header p1 p2 p3 stack s
      rooted finds leaves splits sp calm3 next3 room root_made apart header_made header3 len at
      entry =
    let are = AreEntries-add_entry leaf key page_id slot_num at.entries entry in
    let (i, e, e_at, e_is) = sp.halves.separator in
    let sep_fits : IsI64 sep = subst IsI64 e_is (IsEntry-at _ i e are e_at).0 in
    let (p4, d, named, makes, root_at, named_at, named_len, names, others, calm4) =
      new_root-InternalAt faults now t p3 t.root_page_id p2.next_page_id budget sep c3 header s
        calm3 room header3 len (omega (arith, calm3.few, calm3.room))
        (omega (arith, calm3.few, calm3.room)) sep_fits in
    let t' : BTree = record t { root_page_id = p3.next_page_id; buffer_pool = p4 } in
    (
      t',
      d,
      runs_split faults now fuel t t' key sep page_id slot_num t.root_page_id p2.next_page_id p1 p2
          p3 stack rooted finds leaves rooted splits makes,
      Inserted-split t t' leaf key page_id slot_num d named named_at named_len names t.root_page_id
          p2.next_page_id sep sp.left sp.right are sp.halves (λ e. absurd (omega arith))
          (moved-LeafAt c3 d t.root_page_id sp.left sp.left_at
            (others t.root_page_id (λ e. absurd (omega (arith, next3))) (λ e. apart (sym e))))
          (moved-LeafAt c3 d p2.next_page_id sp.right sp.right_at (
            others p2.next_page_id (λ e. absurd (omega (arith, next3)))
              (λ e. absurd (omega arith))))
          root_at,
      calm4,
    )

-- On a calm pool with two frames left, without faults, an insert into a tree whose root is a leaf,
-- which the header page names, succeeds, if the leaf is within the maximum size, and that within a
-- page. Then the header page names the root, and there are leaves on different pages whose entries
-- together are the old ones and the new one, up to their order. The path of each key leads in at
-- most two pages to one of these leaves, which is sorted, and has the key just if the key is the
-- new one or was there. The pool stays calm.
pub insert-leaf_root :
    (fuel : ℕ) (faults : ℕ → Io) (now : ℕ) (t : BTree) (key : ℤ) (page_id slot_num budget : ℕ)
    (c : ℕ → Option (List ℕ)) (leaf : LeafNode) (header : List ℕ)
    → ((n : ℕ) → Succeeds (faults n))
    → IsCalm (budget + 7) c t.buffer_pool
    → t.buffer_pool.next_page_id + 2 ≤ t.buffer_pool.num_frames
    → c t.header_page_id ≡ some header
    → length header ≡ page_size
    → get_root_page_id header ≡ some t.root_page_id
    → t.header_page_id ≢ t.root_page_id
    → LeafAt c t.root_page_id leaf
    → IsEntry (key, record { page_id = page_id; slot_num = slot_num })
    → length leaf.entries ≤ t.leaf_node_max_size
    → header_size + 16 * t.leaf_node_max_size ≤ page_size
    → (t' : BTree) × (d : ℕ → Option (List ℕ)) × (insert faults now fuel t key page_id slot_num
        ≡ some t')
      × Inserted d t t' leaf key page_id slot_num
      × IsCalm budget d t'.buffer_pool
insert-leaf_root fuel faults now t key page_id slot_num budget c leaf header s calm room holds len
      named apart at entry within page =
    let made = calm.held t.root_page_id at.bytes at.holds in
    let rooted : (t.root_page_id == invalid_page_id) ≡ false =
      ==_of_ne t.root_page_id invalid_page_id λ e. absurd (omega (arith, calm.few, calm.room)) in
    let (i, p1, finds, calm1, grows1, there) =
      find_path-leaf faults now fuel t key (budget + 7) c leaf s calm at in
    elim (dec_lt (length leaf.entries) t.leaf_node_max_size) [
      | yes small ↦
          let (out, p2, stores, leaf_at, calm2, _) =
            insert_leaf-stores p1 key page_id slot_num t.leaf_node_max_size budget (u64_size - 1)
              t.root_page_id i [] c leaf
              (IsCalm-le (suc budget) (budget + 7) c p1 (omega arith) calm1) there at entry
              (omega arith) (omega arith) in
          let t' : BTree = record t { buffer_pool = p2 } in
          (
            t',
            put c t.root_page_id out,
            runs_room faults now fuel t key page_id slot_num p1 p2 _ rooted finds stores,
            Inserted-room t t' leaf key page_id slot_num (put c t.root_page_id out) header
                (if_false _ _ (==_of_ne t.root_page_id t.header_page_id apart) ∙ holds) len named
                leaf_at,
            calm2,
          )
      | no full ↦
          let (p2, leaves, calm2, grows2) =
            insert_leaf-splits p1 key page_id slot_num t.leaf_node_max_size (budget + 6)
              (u64_size - 1) t.root_page_id i [] c leaf
              (IsCalm-le (suc (budget + 6)) (budget + 7) c p1 (omega arith) calm1) there at
              (omega arith) in
          let (sep, p3, c3, splits, made_split, calm3, _, next3, frames3) =
            split_leaf_page-LeafSplit faults now p2 key page_id slot_num t.root_page_id (budget + 3)
              c leaf s (IsCalm-le (budget + 3 + 3) (budget + 6) c p2 (omega arith) calm2)
              (omega (arith, grows1.next, grows2.next, grows1.frames, grows2.frames)) at entry
              (omega arith) in
          let header_made = calm.held t.header_page_id header holds in
          let header3 : c3 t.header_page_id ≡ some header =
            made_split.others t.header_page_id apart
              (λ e. absurd (omega (arith, grows1.next, grows2.next)))
            ∙ holds in
          let next = grows2.next ∙ grows1.next in
          let frames = grows2.frames ∙ grows1.frames in
          ends_split faults now fuel t key sep page_id slot_num budget c c3 leaf header p1 p2 p3 _ s
            rooted finds leaves splits made_split calm3 next3
            (omega (arith, next, next3, frames, frames3)) (omega (arith, next)) apart
            (omega (arith, next)) header3 len at entry
    ]
