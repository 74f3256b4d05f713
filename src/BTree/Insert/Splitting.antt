-- ===== src/BTree/Insert/Splitting.antt =====
-- The leaf of `BTree::insert`: the entry is put in it, or it is split.
use buffer_pool.Base.{
  ℕ, suc, ◌+◌, ◌*◌, ◌≤◌, ◌<◌, ◌≡◌, refl, sym, ap, subst, ◌∙◌, ◌≢◌, true, false, not, Option, some,
  List, ◌∷◌, arith, ltb, ◌==◌, ==_self, not-ltb, ==_of_ne, if_true, if_false, length, length-append,
}
use buffer_pool.Base.Assoc
use buffer_pool.Common.{page_size, u32_size, invalid_page_id}
use buffer_pool.Disk.FileIo.{Io}
use buffer_pool.Disk.Slots.{Succeeds}
use buffer_pool.Frame.{zero_page, length-zero_page}
use buffer_pool.Pool.{BufferPoolManager, new_page}
use buffer_pool.Pool.Calm.{put, IsCalm, IsCalm-le, Grows, Grows-trans}
use buffer_pool.Pool.Calm.Steps.{write_guard}
use buffer_pool.BTree.Key.{ℤ}
use buffer_pool.BTree.Leaf.{LeafNode, RecordId, header_size}
use buffer_pool.BTree.Leaf
use buffer_pool.BTree.Leaf.Codec.{IsEntry, AreEntries}
use buffer_pool.BTree.Nodes.{add_entry, split_leaf}
use buffer_pool.BTree.Nodes.Sorting.{length-add_entry, add_entry-IsSorted}
use buffer_pool.BTree.Nodes.Splitting.{Halves, split_leaf-Halves}
use buffer_pool.BTree.Insert.{PathFrame, drop_guard, borrow, store, open_page}
use buffer_pool.BTree.Insert.Growth.{insert_leaf, split_leaf_page}
use buffer_pool.BTree.Insert.Paging.{borrow-IsCalm, store-IsCalm, drop_guard-IsCalm}
use buffer_pool.BTree.Insert.TwoPages.{Opened, ne_apart, opens_both, writes_both}
use buffer_pool.BTree.Insert.Nodes.{LeafAt, encode-LeafAt, AreEntries-add_entry, AreEntries-halves}

-- On a calm pool, a leaf in the frame on top of the stack that stays within the maximum size, and
-- within the page, gets the entry: its page holds the leaf with the entry, every other page holds
-- what it held, no page is to be split, and the rest of the stack is returned.
pub insert_leaf-stores :
    (p : BufferPoolManager) (key : ℤ) (page_id slot_num leaf_max budget slot leaf_id i : ℕ)
    (path : List PathFrame) (c : ℕ → Option (List ℕ)) (leaf : LeafNode)
    → IsCalm (suc budget) c p
    → Assoc.get p.page_table leaf_id ≡ some i
    → LeafAt c leaf_id leaf
    → IsEntry (key, record { page_id = page_id; slot_num = slot_num })
    → length leaf.entries + 1 ≤ leaf_max
    → header_size + 16 * (length leaf.entries + 1) ≤ page_size
    → (out : List ℕ) × (p' : BufferPoolManager) × (insert_leaf p key page_id slot_num leaf_max
          (record { slot_to_next_child = slot; guard = write_guard leaf_id i } ∷ path)
        ≡ some (invalid_page_id, path, p'))
      × LeafAt (put c leaf_id out) leaf_id (add_entry leaf key page_id slot_num)
      × IsCalm budget (put c leaf_id out) p'
      × Grows p p'
unfolding insert_leaf
insert_leaf-stores p key page_id slot_num leaf_max budget slot leaf_id i path c leaf calm there at
      entry room fits =
    let larger = add_entry leaf key page_id slot_num in
    let size = length-add_entry leaf key page_id slot_num in
    let (p1, borrows, calm1, grows1) =
      borrow-IsCalm (suc budget) c p leaf_id i at.bytes there at.holds calm at.full in
    let (_, _, link) = add_entry-IsSorted leaf key page_id slot_num in
    let (out, encodes, len, is_leaf) =
      encode-LeafAt leaf_id larger at.bytes at.full (omega (arith, size))
        (subst (λ n. n < u32_size) (sym link) at.link)
        (AreEntries-add_entry leaf key page_id slot_num at.entries entry) in
    let there1 = grows1.stays leaf_id i there in
    let (p2, stores, calm2, grows2) =
      store-IsCalm (suc budget) c p1 leaf_id i at.bytes there1 at.holds calm1 out len in
    let there2 = grows2.stays leaf_id i there1 in
    let here : put c leaf_id out leaf_id ≡ some out = if_true _ _ (==_self leaf_id) in
    let (p3, drops, calm3, grows3) =
      drop_guard-IsCalm budget (put c leaf_id out) p2 leaf_id i out there2 here calm2 in
    let small : ltb leaf_max (length larger.entries) ≡ false =
      not-ltb leaf_max (length larger.entries) (omega (arith, size)) in
    (
      out,
      p3,
      rw (borrows, insert_leaf) (rw at.decodes (rw small (rw encodes (rw stores (rw drops refl))))),
      is_leaf (put c leaf_id out) here,
      calm3,
      Grows-trans p p1 p3 grows1 (Grows-trans p1 p2 p3 grows2 grows3),
    )

-- What the split of page `left_page_id` does to the pages.
pub record LeafSplit (c d : ℕ → Option (List ℕ)) (leaf : LeafNode) (left_page_id right_page_id : ℕ)
    (sep : ℤ) : Type 0 where
  pub left : LeafNode
  pub right : LeafNode
  pub halves : Halves leaf right_page_id left sep right
  pub left_at : LeafAt d left_page_id left
  pub right_at : LeafAt d right_page_id right
  pub others : (k : ℕ) → k ≢ left_page_id → k ≢ right_page_id → d k ≡ c k

-- The run of a split whose steps succeed one after the other.
split_runs :
    (faults : ℕ → Io) (now : ℕ) (p p1 p2 p3 p4 p5 p6 p7 p8 p9 : BufferPoolManager) (key sep : ℤ)
    (page_id slot_num leaf_id right_id i j : ℕ) (bytes right_bytes right_out left_out : List ℕ)
    (leaf lo hi : LeafNode)
    → new_page faults p ≡ some (right_id, p1)
    → open_page faults now p1 leaf_id ≡ some (write_guard leaf_id i, p2)
    → borrow p2 (write_guard leaf_id i) ≡ some (bytes, p3)
    → Leaf.decode bytes ≡ some leaf
    → split_leaf (add_entry leaf key page_id slot_num) right_id ≡ some (lo, sep, hi)
    → open_page faults now p3 right_id ≡ some (write_guard right_id j, p4)
    → not (j == i) ≡ true
    → borrow p4 (write_guard right_id j) ≡ some (right_bytes, p5)
    → Leaf.encode hi right_bytes ≡ some right_out
    → store p5 (write_guard right_id j) right_out ≡ some p6
    → Leaf.encode lo bytes ≡ some left_out
    → store p6 (write_guard leaf_id i) left_out ≡ some p7
    → drop_guard p7 (write_guard right_id j) ≡ some p8
    → drop_guard p8 (write_guard leaf_id i) ≡ some p9
    → split_leaf_page faults now p key page_id slot_num leaf_id ≡ some (sep, right_id, p9)
unfolding split_leaf_page
split_runs faults now p p1 p2 p3 p4 p5 p6 p7 p8 p9 key sep page_id slot_num leaf_id right_id i j
      bytes right_bytes right_out left_out leaf lo hi e1 e2 e3 e4 e5 e6 e7 e8 e9 e10 e11 e12 e13
      e14 =
    rw (e1, split_leaf_page)
      (rw e2 (
        rw e3 (
          rw e4 (
            rw e5
              (rw e6 (rw e7 (rw e8 (rw e9 (rw e10 (rw e11 (rw e12 (rw e13 (rw e14 refl)))))))))))))

-- The split of the leaf on page `leaf_id` succeeds, and does what `LeafSplit` says.
abbrev pub SplitsLeaf :
    (ℕ → Io) → ℕ → BufferPoolManager → ℤ → ℕ → ℕ → ℕ → ℕ → (ℕ → Option (List ℕ)) → LeafNode → Type 0
SplitsLeaf faults now p key page_id slot_num leaf_id budget c leaf =
    (sep : ℤ) × (p' : BufferPoolManager) × (d : ℕ → Option (List ℕ)) × (split_leaf_page faults now p
        key page_id slot_num leaf_id
      ≡ some (sep, p.next_page_id, p'))
    × LeafSplit c d (add_entry leaf key page_id slot_num) leaf_id p.next_page_id sep
    × IsCalm budget d p'
    × ((k i : ℕ) → Assoc.get p.page_table k ≡ some i → Assoc.get p'.page_table k ≡ some i)
    × (p'.next_page_id ≡ p.next_page_id + 1)
    × (p'.num_frames ≡ p.num_frames)

-- The two halves of the run together.
split_joins :
    (faults : ℕ → Io) (now : ℕ) (p : BufferPoolManager) (key sep : ℤ)
    (page_id slot_num leaf_id budget : ℕ) (c : ℕ → Option (List ℕ)) (leaf lo hi : LeafNode)
    (left_out right_out : List ℕ) (at : LeafAt c leaf_id leaf)
    → split_leaf (add_entry leaf key page_id slot_num) p.next_page_id ≡ some (lo, sep, hi)
    → Halves (add_entry leaf key page_id slot_num) p.next_page_id lo sep hi
    → Leaf.encode hi zero_page ≡ some right_out
    → Leaf.encode lo at.bytes ≡ some left_out
    → ((d : ℕ → Option (List ℕ)) → d leaf_id ≡ some left_out → LeafAt d leaf_id lo)
    → ((d : ℕ → Option (List ℕ)) → d p.next_page_id ≡ some right_out → LeafAt d p.next_page_id hi)
    → length left_out ≡ page_size
    → length right_out ≡ page_size
    → leaf_id < p.next_page_id
    → Opened faults now p leaf_id (suc (suc budget)) c at.bytes
    → SplitsLeaf faults now p key page_id slot_num leaf_id budget c leaf
split_joins faults now p key sep page_id slot_num leaf_id budget c leaf lo hi left_out right_out at
      splits halves encodes_right encodes_left is_left is_right left_len right_len made o =
    let right_id = p.next_page_id in
    let right_left = ne_apart leaf_id right_id made in
    let left_right : (leaf_id == right_id) ≡ false =
      ==_of_ne leaf_id right_id λ e. absurd (omega arith) in
    let c1 = put c right_id zero_page in
    let w =
      writes_both o.p4 leaf_id o.i right_id o.j budget c1 at.bytes zero_page left_out right_out
        o.calm o.left_there o.right_there right_left left_right (if_false _ _ right_left ∙ at.holds)
        (if_true _ _ (==_self right_id)) length-zero_page left_len right_len in
    let d = put (put c1 right_id right_out) leaf_id left_out in
    (
      sep,
      w.p9,
      d,
      split_runs faults now p o.p1 o.p2 o.p3 o.p4 w.p5 w.p6 w.p7 w.p8 w.p9 key sep page_id slot_num
          leaf_id right_id o.i o.j at.bytes zero_page right_out left_out leaf lo hi o.makes
          o.opens_left o.borrows at.decodes splits o.opens_right o.apart w.borrows encodes_right
          w.stores_right encodes_left w.stores_left w.drops_right w.drops_left,
      record {
        left = lo;
        right = hi;
        halves = halves;
        left_at = is_left d (if_true _ _ (==_self leaf_id));
        right_at = is_right d (if_false _ _ left_right ∙ if_true _ _ (==_self right_id));
        others = λ k not_left not_right.
            if_false _ _ (==_of_ne leaf_id k not_left)
            ∙ if_false _ _ (==_of_ne right_id k not_right)
            ∙ if_false _ _ (==_of_ne right_id k not_right);
      },
      w.calm,
      λ k m e. w.grows.stays k m (o.stays k m e),
      w.grows.next ∙ o.next,
      w.grows.frames ∙ o.frames,
    )

-- On a calm pool that has a frame left, without faults, a leaf whose entries are no more than a
-- page holds is split with the new entry in it: its page holds the left half and the new page the
-- right half, which are the halves of the sorted leaf; every other page holds what it held, no page
-- leaves its frame, and the key that goes up is the separator of the halves.
pub split_leaf_page-LeafSplit :
    (faults : ℕ → Io) (now : ℕ) (p : BufferPoolManager) (key : ℤ)
    (page_id slot_num leaf_id budget : ℕ) (c : ℕ → Option (List ℕ)) (leaf : LeafNode)
    → ((n : ℕ) → Succeeds (faults n))
    → IsCalm (budget + 3) c p
    → p.next_page_id + 1 ≤ p.num_frames
    → LeafAt c leaf_id leaf
    → IsEntry (key, record { page_id = page_id; slot_num = slot_num })
    → header_size + 16 * length leaf.entries ≤ page_size
    → SplitsLeaf faults now p key page_id slot_num leaf_id budget c leaf
split_leaf_page-LeafSplit faults now p key page_id slot_num leaf_id budget c leaf s calm left at
      entry fits =
    let right_id = p.next_page_id in
    let larger = add_entry leaf key page_id slot_num in
    let size = length-add_entry leaf key page_id slot_num in
    let (sorted, _, link) = add_entry-IsSorted leaf key page_id slot_num in
    let made = calm.held leaf_id at.bytes at.holds in
    let (lo, sep, hi, splits, halves) =
      split_leaf-Halves larger right_id sorted (omega (arith, size)) in
    let are = AreEntries-halves lo.entries hi.entries (
      subst AreEntries (sym halves.joined)
        (AreEntries-add_entry leaf key page_id slot_num at.entries entry)) in
    let sizes : length lo.entries + length hi.entries ≡ length larger.entries =
      sym (length-append lo.entries hi.entries) ∙ ap length halves.joined in
    let (right_out, encodes_right, right_len, is_right) =
      encode-LeafAt right_id hi zero_page length-zero_page
        (omega (arith, size, sizes, halves.left_size))
        (subst (λ n. n < u32_size) (sym (halves.right_link ∙ link)) at.link) are.1 in
    let (left_out, encodes_left, left_len, is_left) =
      encode-LeafAt leaf_id lo at.bytes at.full (omega (arith, size, halves.left_size))
        (subst (λ n. n < u32_size) (sym halves.left_link) (omega (arith, calm.few))) are.0 in
    split_joins faults now p key sep page_id slot_num leaf_id budget c leaf lo hi left_out right_out
      at splits halves encodes_right encodes_left is_left is_right left_len right_len made
      (opens_both faults now p leaf_id (suc (suc budget)) c at.bytes s
        (IsCalm-le (suc (suc (suc budget))) (budget + 3) c p (omega arith) calm) left at.holds
        at.full)
