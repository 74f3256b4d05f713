-- ===== src/BTree/Insert/Parents.antt =====
-- A parent in the loop of `BTree::insert` over the stack, on a calm pool.
use buffer_pool.Base.{
  ℕ, zero, suc, ◌+◌, ◌*◌, ◌≤◌, ◌≡◌, refl, sym, ap, subst, ◌∙◌, true, false, not, Option, some, List,
  [], ◌∷◌, ◌++◌, arith, leb, ◌==◌, ==_self, ==_of_ne, some_inj, if_true, if_false, length, take,
  drop, append-take,
}
use buffer_pool.Base.Assoc
use buffer_pool.Common.{page_size}
use buffer_pool.Disk.FileIo.{Io}
use buffer_pool.Disk.Slots.{Succeeds}
use buffer_pool.Frame.{zero_page, length-zero_page}
use buffer_pool.Pool.{BufferPoolManager, new_page}
use buffer_pool.Pool.Frames.{used_apart}
use buffer_pool.Pool.Calm.{put, IsCalm, Grows, Grows-trans}
use buffer_pool.Pool.Calm.Steps.{write_guard, new_page-IsCalm}
use buffer_pool.BTree.Key.{ℤ, IsI64}
use buffer_pool.BTree.Leaf.{header_size}
use buffer_pool.BTree.Internal.{InternalNode}
use buffer_pool.BTree.Internal
use buffer_pool.BTree.Internal.Codec.{AreChildren}
use buffer_pool.BTree.Nodes.{add_child, split_internal}
use buffer_pool.BTree.Nodes.Routing.{AreI64}
use buffer_pool.BTree.Insert.{drop_guard, borrow, store, open_page}
use buffer_pool.BTree.Insert.Growth.{settled, split, parent_round, split_internal_page}
use buffer_pool.BTree.Insert.Paging.{
  open_page-IsCalm, borrow-IsCalm, store-IsCalm, drop_guard-IsCalm,
}
use buffer_pool.BTree.Insert.Nodes.{InternalAt, encode-InternalAt}
use buffer_pool.BTree.Insert.Visiting.{frame}
use buffer_pool.BTree.Insert.TwoPages.{ne_apart}

pub AreChildren-append : (l m : List (ℤ × ℕ)) → AreChildren l → AreChildren m → AreChildren (l ++ m)
AreChildren-append [] m are are' = are'
AreChildren-append ((k, c) ∷ l) m (is, small, are) are' =
    (is, small, AreChildren-append l m are are')

pub AreChildren-halves : (l m : List (ℤ × ℕ)) → AreChildren (l ++ m) → AreChildren l × AreChildren m
AreChildren-halves [] m are = (tt, are)
AreChildren-halves ((k, c) ∷ l) m (is, small, are) =
    let (left, right) = AreChildren-halves l m are in ((is, small, left), right)

pub AreChildren-cut :
    (n : ℕ) (l : List (ℤ × ℕ)) → AreChildren l → AreChildren (take n l) × AreChildren (drop n l)
AreChildren-cut n l are =
    AreChildren-halves (take n l) (drop n l) (subst AreChildren (sym (append-take n l)) are)

pub AreChildren-AreI64 : (l : List (ℤ × ℕ)) → AreChildren l → AreI64 l
AreChildren-AreI64 [] are i e h = cc
AreChildren-AreI64 ((k, c) ∷ l) (is, small, are) zero e h =
    subst (λ (x : ℤ × ℕ). IsI64 x.0) (some_inj h) is
AreChildren-AreI64 ((k, c) ∷ l) (is, small, are) (suc i) e h = AreChildren-AreI64 l are i e h

-- A parent that stays within the maximum size is stored.
pub parent_round-settles :
    (faults : ℕ → Io) (now : ℕ) (p : BufferPoolManager) (internal_max slot page_id i : ℕ)
    (left right : ℕ) (key : ℤ) (budget : ℕ) (c : ℕ → Option (List ℕ)) (node larger : InternalNode)
    → IsCalm (suc budget) c p
    → Assoc.get p.page_table page_id ≡ some i
    → InternalAt c page_id node
    → add_child node left key right ≡ some larger
    → AreChildren larger.entries
    → length larger.entries ≤ internal_max
    → header_size + 12 * length larger.entries ≤ page_size
    → (out : List ℕ) × (p' : BufferPoolManager) × (parent_round faults now p internal_max
          (frame slot page_id i)
          left
          key
          right
        ≡ some (settled, p'))
      × InternalAt (put c page_id out) page_id larger
      × IsCalm budget (put c page_id out) p'
      × Grows p p'
unfolding parent_round
parent_round-settles faults now p internal_max slot page_id i left right key budget c node larger
      calm there at adds are within fits =
    let (p1, borrows, calm1, grows1) =
      borrow-IsCalm (suc budget) c p page_id i at.bytes there at.holds calm at.full in
    let (out, encodes, len, is_node) = encode-InternalAt page_id larger at.bytes at.full fits are in
    let there1 = grows1.stays page_id i there in
    let (p2, stores, calm2, grows2) =
      store-IsCalm (suc budget) c p1 page_id i at.bytes there1 at.holds calm1 out len in
    let here : put c page_id out page_id ≡ some out = if_true _ _ (==_self page_id) in
    let (p3, drops, calm3, grows3) =
      drop_guard-IsCalm budget (put c page_id out) p2 page_id i out (grows2.stays page_id i there1)
        here calm2 in
    let small : leb (length larger.entries) internal_max ≡ true = ground arith in
    (
      out,
      p3,
      rw (borrows, parent_round)
          (rw at.decodes (rw adds (rw small (rw encodes (rw stores (rw drops refl)))))),
      is_node (put c page_id out) here,
      calm3,
      Grows-trans p p1 p3 grows1 (Grows-trans p1 p2 p3 grows2 grows3),
    )

-- The two pages of a parent that is split, written one after the other.
pub record Divided (faults : ℕ → Io) (now : ℕ) (p : BufferPoolManager) (page_id i budget : ℕ)
    (c : ℕ → Option (List ℕ)) (left_out right_out : List ℕ) : Type 0 where
  pub p1 : BufferPoolManager
  pub p2 : BufferPoolManager
  pub p3 : BufferPoolManager
  pub p4 : BufferPoolManager
  pub p5 : BufferPoolManager
  pub p6 : BufferPoolManager
  pub p7 : BufferPoolManager
  pub j : ℕ
  pub makes : new_page faults p ≡ some (p.next_page_id, p1)
  pub opens : open_page faults now p1 p.next_page_id ≡ some (write_guard p.next_page_id j, p2)
  pub apart : not (j == i) ≡ true
  pub borrows : borrow p2 (write_guard p.next_page_id j) ≡ some (zero_page, p3)
  pub stores_right : store p3 (write_guard p.next_page_id j) right_out ≡ some p4
  pub drops_right : drop_guard p4 (write_guard p.next_page_id j) ≡ some p5
  pub stores_left : store p5 (write_guard page_id i) left_out ≡ some p6
  pub drops_left : drop_guard p6 (write_guard page_id i) ≡ some p7
  pub calm :
      IsCalm budget
        (put (put (put c p.next_page_id zero_page) p.next_page_id right_out) page_id left_out)
        p7
  pub stays : (k m : ℕ) → Assoc.get p.page_table k ≡ some m → Assoc.get p7.page_table k ≡ some m
  pub next : p7.next_page_id ≡ p.next_page_id + 1
  pub frames : p7.num_frames ≡ p.num_frames

pub divides :
    (faults : ℕ → Io) (now : ℕ) (p : BufferPoolManager) (page_id i budget : ℕ)
    (c : ℕ → Option (List ℕ)) (bytes left_out right_out : List ℕ)
    → ((n : ℕ) → Succeeds (faults n))
    → IsCalm (suc (suc (suc budget))) c p
    → p.next_page_id + 1 ≤ p.num_frames
    → Assoc.get p.page_table page_id ≡ some i
    → c page_id ≡ some bytes
    → length left_out ≡ page_size
    → length right_out ≡ page_size
    → Divided faults now p page_id i budget c left_out right_out
divides faults now p page_id i budget c bytes left_out right_out s calm room there holds left_len
      right_len =
    let right_id = p.next_page_id in
    let made = calm.held page_id bytes holds in
    let (p1, makes, calm1, stays1, next1, frames1) =
      new_page-IsCalm faults s (suc (suc budget)) c p calm room in
    let (j, p2, opens2, calm2, grows2, right_there) =
      open_page-IsCalm faults s now (suc (suc budget)) (put c p.next_page_id zero_page) p1
        p.next_page_id zero_page (if_true _ _ (==_self p.next_page_id)) length-zero_page calm1 in
    let left_there = grows2.stays page_id i (stays1 page_id i there) in
    let (p3, borrows3, calm3, grows3) =
      borrow-IsCalm (suc (suc budget)) (put c p.next_page_id zero_page) p2 p.next_page_id j
        zero_page right_there (if_true _ _ (==_self p.next_page_id)) calm2 length-zero_page in
    let right3 = grows3.stays p.next_page_id j right_there in
    let (p4, stores4, calm4, grows4) =
      store-IsCalm (suc (suc budget)) (put c p.next_page_id zero_page) p3 p.next_page_id j zero_page
        right3 (if_true _ _ (==_self p.next_page_id)) calm3 right_out right_len in
    let (p5, drops5, calm5, grows5) =
      drop_guard-IsCalm (suc budget) (put (put c p.next_page_id zero_page) p.next_page_id right_out)
        p4 p.next_page_id j right_out (grows4.stays p.next_page_id j right3)
        (if_true _ _ (==_self p.next_page_id)) calm4 in
    let to5 = Grows-trans p2 p3 p5 grows3 (Grows-trans p3 p4 p5 grows4 grows5) in
    let old : put (put c p.next_page_id zero_page) p.next_page_id right_out page_id ≡ some bytes =
      if_false _ _ (ne_apart page_id p.next_page_id made)
      ∙ if_false _ _ (ne_apart page_id p.next_page_id made)
      ∙ holds in
    let (p6, stores6, calm6, grows6) =
      store-IsCalm (suc budget) (put (put c p.next_page_id zero_page) p.next_page_id right_out) p5
        page_id i bytes (to5.stays page_id i left_there) old calm5 left_out left_len in
    let to6 = Grows-trans p2 p5 p6 to5 grows6 in
    let (p7, drops7, calm7, grows7) =
      drop_guard-IsCalm budget
        (put (put (put c p.next_page_id zero_page) p.next_page_id right_out) page_id left_out) p6
        page_id i left_out (to6.stays page_id i left_there) (if_true _ _ (==_self page_id)) calm6 in
    let to7 = Grows-trans p2 p6 p7 to6 grows7 in
    record {
      p1 = p1;
      p2 = p2;
      p3 = p3;
      p4 = p4;
      p5 = p5;
      p6 = p6;
      p7 = p7;
      j = j;
      makes = makes;
      opens = opens2;
      apart = ap not (
          ==_of_ne j i (
            used_apart p2 calm2.ready.pool page_id p.next_page_id i j left_there right_there
              λ e. absurd (omega arith)));
      borrows = borrows3;
      stores_right = stores4;
      drops_right = drops5;
      stores_left = stores6;
      drops_left = drops7;
      calm = calm7;
      stays = λ k m e. to7.stays k m (grows2.stays k m (stays1 k m e));
      next = to7.next ∙ grows2.next ∙ next1;
      frames = to7.frames ∙ grows2.frames ∙ frames1;
    }

pub parent_runs :
    (faults : ℕ → Io) (now : ℕ) (p p0 p1 p2 p3 p4 p5 p6 p7 : BufferPoolManager)
    (internal_max slot page_id i j left right right_id : ℕ) (key up : ℤ)
    (bytes right_bytes left_out right_out : List ℕ) (node larger lo hi : InternalNode)
    → borrow p (write_guard page_id i) ≡ some (bytes, p0)
    → Internal.decode bytes ≡ some node
    → add_child node left key right ≡ some larger
    → leb (length larger.entries) internal_max ≡ false
    → new_page faults p0 ≡ some (right_id, p1)
    → split_internal larger ≡ some (lo, up, hi)
    → open_page faults now p1 right_id ≡ some (write_guard right_id j, p2)
    → not (j == i) ≡ true
    → borrow p2 (write_guard right_id j) ≡ some (right_bytes, p3)
    → Internal.encode hi right_bytes ≡ some right_out
    → store p3 (write_guard right_id j) right_out ≡ some p4
    → drop_guard p4 (write_guard right_id j) ≡ some p5
    → Internal.encode lo bytes ≡ some left_out
    → store p5 (write_guard page_id i) left_out ≡ some p6
    → drop_guard p6 (write_guard page_id i) ≡ some p7
    → parent_round faults now p internal_max (frame slot page_id i) left key right
      ≡ some (split up right_id, p7)
unfolding parent_round split_internal_page
parent_runs faults now p p0 p1 p2 p3 p4 p5 p6 p7 internal_max slot page_id i j left right right_id
      key up bytes right_bytes left_out right_out node larger lo hi e1 e2 e3 e4 e5 e6 e7 e8 e9 e10
      e11 e12 e13 e14 e15 =
    rw (e1, parent_round)
      (rw e2 (
        rw e3 (
          rw e4 (
            rw e5 (
              rw e6 (
                rw e7
                  (rw e8 (rw e9 (rw e10 (rw e11 (rw e12 (rw e13 (rw e14 (rw e15 refl))))))))))))))
