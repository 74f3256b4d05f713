-- ===== src/BTree/Insert/Dividing.antt =====
-- A parent that is split in the loop of `BTree::insert` over the stack.
use buffer_pool.Base.{
  ℕ, zero, suc, ◌+◌, ◌-◌, ◌*◌, ◌/◌, ◌≤◌, ◌<◌, ◌≡◌, refl, subst, ◌∙◌, ◌≢◌, inl, inr, false, Option,
  some, List, [], ◌∷◌, arith, leb, ◌==◌, ==_self, Bool-cases, ==_of_ne, some_inj, if_true, if_false,
  length, get_elem?, take, drop, length-take, length-drop,
}
use buffer_pool.Base.Assoc
use buffer_pool.Common.{page_size, u32_size}
use buffer_pool.Disk.FileIo.{Io}
use buffer_pool.Disk.Slots.{Succeeds}
use buffer_pool.Frame.{zero_page, length-zero_page}
use buffer_pool.Pool.{BufferPoolManager}
use buffer_pool.Pool.Calm.{put, IsCalm, IsCalm-le, Grows}
use buffer_pool.Pool.Calm.Steps.{write_guard}
use buffer_pool.BTree.Key.{ℤ, IsI64}
use buffer_pool.BTree.Leaf.{header_size}
use buffer_pool.BTree.Internal.{InternalNode}
use buffer_pool.BTree.Internal
use buffer_pool.BTree.Internal.Codec.{AreChildren}
use buffer_pool.BTree.Sorted.{IsSorted, get_elem?-within}
use buffer_pool.BTree.Nodes.{invalid_key, add_child, split_internal}
use buffer_pool.BTree.Nodes.Routing.{Splits}
use buffer_pool.BTree.Insert.{PathFrame, borrow}
use buffer_pool.BTree.Insert.Growth.{split, parent_round}
use buffer_pool.BTree.Insert.Paging.{borrow-IsCalm}
use buffer_pool.BTree.Insert.Nodes.{InternalAt, encode-InternalAt}
use buffer_pool.BTree.Insert.Visiting.{frame}
use buffer_pool.BTree.Nodes.Routing.{halves-Splits}
use buffer_pool.BTree.Insert.Parents.{
  AreChildren-cut, AreChildren-AreI64, Divided, divides, parent_runs,
}

AreChildren-get :
    (l : List (ℤ × ℕ)) (i : ℕ) (e : ℤ × ℕ)
    → AreChildren l
    → get_elem? l i ≡ some e
    → IsI64 e.0 × (e.1 < u32_size)
AreChildren-get [] i e are h = cc
AreChildren-get ((k, c) ∷ l) zero e (is, small, are) h =
    subst (λ (x : ℤ × ℕ). IsI64 x.0 × (x.1 < u32_size)) (some_inj h) (is, small)
AreChildren-get ((k, c) ∷ l) (suc i) e (is, small, are) h = AreChildren-get l i e are h

-- What the split of the parent on page `page_id` does to the pages.
pub record ParentSplit (c d : ℕ → Option (List ℕ)) (larger : InternalNode) (page_id right_id : ℕ)
    (up : ℤ) : Type 0 where
  pub lo : InternalNode
  pub hi : InternalNode
  pub splits : Splits larger lo up hi
  pub lo_at : InternalAt d page_id lo
  pub hi_at : InternalAt d right_id hi
  pub fits : IsI64 up
  pub others : (k : ℕ) → k ≢ page_id → k ≢ right_id → d k ≡ c k

-- The halves of a node, each of which can be stored.
record Storable (larger lo : InternalNode) (up : ℤ) (hi : InternalNode) : Type 0 where
  made : split_internal larger ≡ some (lo, up, hi)
  splits : Splits larger lo up hi
  lo_are : AreChildren lo.entries
  hi_are : AreChildren hi.entries
  lo_size : length lo.entries ≡ length larger.entries / 2
  hi_size : length hi.entries ≡ length larger.entries - length larger.entries / 2
  fits : IsI64 up

storable :
    (larger : InternalNode)
    → IsSorted larger.entries
    → AreChildren larger.entries
    → 1 ≤ length larger.entries
    → (lo : InternalNode) × (up : ℤ) × (hi : InternalNode) × Storable larger lo up hi
storable larger sorted are full =
    let mid = length larger.entries / 2 in
    let (up, at) = get_elem?-within larger.entries mid (omega arith) in
    let (made, splits) =
      halves-Splits larger sorted (AreChildren-AreI64 larger.entries are) up mid at refl in
    let (up_fits, up_small) = AreChildren-get larger.entries mid up are at in
    (
      record { entries = take mid larger.entries },
      up.0,
      record { entries = (invalid_key, up.1) ∷ drop (mid + 1) larger.entries },
      record {
        made = made;
        splits = splits;
        lo_are = (AreChildren-cut mid larger.entries are).0;
        hi_are = (omega arith, up_small, (AreChildren-cut (mid + 1) larger.entries are).1);
        lo_size = omega (arith, length-take mid larger.entries);
        hi_size = omega (arith, length-drop (mid + 1) larger.entries);
        fits = up_fits;
      },
    )

-- The round splits the parent, and makes page `right_id`.
abbrev pub SplitsParent :
    (ℕ → Io)
    → ℕ
    → BufferPoolManager
    → ℕ
    → PathFrame
    → ℕ
    → ℤ
    → ℕ
    → ℕ
    → (ℕ → Option (List ℕ))
    → InternalNode
    → ℕ
    → ℕ
    → ℤ
    → Type 0
SplitsParent faults now p internal_max top left key right budget c larger page_id right_id up =
    (p' : BufferPoolManager) × (d : ℕ → Option (List ℕ)) × (parent_round faults now p internal_max
        top left key right
      ≡ some (split up right_id, p'))
    × ParentSplit c d larger page_id right_id up
    × IsCalm budget d p'
    × ((k m : ℕ) → Assoc.get p.page_table k ≡ some m → Assoc.get p'.page_table k ≡ some m)
    × (p'.next_page_id ≡ right_id + 1)
    × (p'.num_frames ≡ p.num_frames)
    × ((k : ℕ) → (b : List ℕ) → c k ≡ some b → (b' : List ℕ) × (d k ≡ some b'))

-- The split of a parent, from its parts.
joins_parent :
    (faults : ℕ → Io) (now : ℕ) (p p0 : BufferPoolManager)
    (internal_max slot page_id i left right : ℕ) (key up : ℤ) (budget : ℕ) (c : ℕ → Option (List ℕ))
    (node larger lo hi : InternalNode) (left_out right_out : List ℕ)
    (at : InternalAt c page_id node)
    → borrow p (write_guard page_id i) ≡ some (at.bytes, p0)
    → page_id < p0.next_page_id
    → add_child node left key right ≡ some larger
    → internal_max < length larger.entries
    → Storable larger lo up hi
    → Internal.encode hi zero_page ≡ some right_out
    → Internal.encode lo at.bytes ≡ some left_out
    → ((d : ℕ → Option (List ℕ)) → d page_id ≡ some left_out → InternalAt d page_id lo)
    → ((d : ℕ → Option (List ℕ))
        → d p0.next_page_id ≡ some right_out
        → InternalAt d p0.next_page_id hi)
    → Divided faults now p0 page_id i budget c left_out right_out
    → Grows p p0
    → SplitsParent faults now p internal_max
        (frame slot page_id i)
        left
        key
        right
        budget
        c
        larger
        page_id
        p0.next_page_id
        up
joins_parent faults now p p0 internal_max slot page_id i left right key up budget c node larger lo
      hi left_out right_out at borrows made adds over st encodes_right encodes_left is_lo is_hi v
      g =
    let right_id = p0.next_page_id in
    let left_right : (page_id == right_id) ≡ false =
      ==_of_ne page_id right_id λ e. absurd (omega arith) in
    let big : leb (length larger.entries) internal_max ≡ false = ground arith in
    let d = put (put (put c right_id zero_page) right_id right_out) page_id left_out in
    (
      v.p7,
      d,
      parent_runs faults now p p0 v.p1 v.p2 v.p3 v.p4 v.p5 v.p6 v.p7 internal_max slot page_id i v.j
          left right right_id key up at.bytes zero_page left_out right_out node larger lo hi borrows
          at.decodes adds big v.makes st.made v.opens v.apart v.borrows encodes_right v.stores_right
          v.drops_right encodes_left v.stores_left v.drops_left,
      record {
        lo = lo;
        hi = hi;
        splits = st.splits;
        lo_at = is_lo d (if_true _ _ (==_self page_id));
        hi_at = is_hi d (if_false _ _ left_right ∙ if_true _ _ (==_self right_id));
        fits = st.fits;
        others = λ k not_left not_right.
            if_false _ _ (==_of_ne page_id k not_left)
            ∙ if_false _ _ (==_of_ne right_id k not_right)
            ∙ if_false _ _ (==_of_ne right_id k not_right);
      },
      v.calm,
      λ k m e. v.stays k m (g.stays k m e),
      v.next,
      v.frames ∙ g.frames,
      λ k b e. elim (Bool-cases (page_id == k)) [
        | inl here ↦ (left_out, if_true _ _ here)
        | inr not_here ↦ elim (Bool-cases (right_id == k)) [
          | inl new ↦ (right_out, if_false _ _ not_here ∙ if_true _ _ new)
          | inr old ↦ (b, if_false _ _ not_here ∙ if_false _ _ old ∙ if_false _ _ old ∙ e)
        ]
      ],
    )

-- On a calm pool that has a frame left, without faults, a sorted parent that gets a child too many
-- is split: its
-- page holds the left half and the new page the right half, every other page holds what it held,
-- and the key that goes up sends each key to the half that knows its child.
pub parent_round-ParentSplit :
    (faults : ℕ → Io) (now : ℕ) (p : BufferPoolManager) (internal_max slot page_id i : ℕ)
    (left right : ℕ) (key : ℤ) (budget : ℕ) (c : ℕ → Option (List ℕ)) (node larger : InternalNode)
    → ((n : ℕ) → Succeeds (faults n))
    → IsCalm (budget + 3) c p
    → p.next_page_id + 1 ≤ p.num_frames
    → Assoc.get p.page_table page_id ≡ some i
    → InternalAt c page_id node
    → add_child node left key right ≡ some larger
    → IsSorted larger.entries
    → AreChildren larger.entries
    → internal_max < length larger.entries
    → length larger.entries ≡ length node.entries + 1
    → header_size + 12 * length node.entries ≤ page_size
    → (up : ℤ) × SplitsParent faults now p internal_max
        (frame slot page_id i)
        left
        key
        right
        budget
        c
        larger
        page_id
        p.next_page_id
        up
parent_round-ParentSplit faults now p internal_max slot page_id i left right key budget c node
      larger s calm room there at adds sorted are over grown fits =
    let made = calm.held page_id at.bytes at.holds in
    let (lo, up, hi, st) = storable larger sorted are (omega arith) in
    let (p0, borrows, calm0, grows0) =
      borrow-IsCalm (suc (suc (suc budget))) c p page_id i at.bytes there at.holds
        (IsCalm-le (suc (suc (suc budget))) (budget + 3) c p (omega arith) calm) at.full in
    let (right_out, encodes_right, right_len, is_hi) =
      encode-InternalAt p0.next_page_id hi zero_page length-zero_page (omega (arith, st.hi_size))
        st.hi_are in
    let (left_out, encodes_left, left_len, is_lo) =
      encode-InternalAt page_id lo at.bytes at.full (omega (arith, st.lo_size)) st.lo_are in
    let next0 : p0.next_page_id ≡ p.next_page_id = grows0.next in
    let v =
      divides faults now p0 page_id i budget c at.bytes left_out right_out s calm0
        (omega (arith, grows0.next, grows0.frames)) (grows0.stays page_id i there) at.holds left_len
        right_len in
    (
      up,
      subst
          (λ r.
            SplitsParent faults now p internal_max (frame slot page_id i) left key right budget c
              larger page_id r up)
          next0
          (joins_parent faults now p p0 internal_max slot page_id i left right key up budget c node
            larger lo hi left_out right_out at borrows (omega (arith, next0)) adds over st
            encodes_right encodes_left is_lo is_hi v grows0),
    )
