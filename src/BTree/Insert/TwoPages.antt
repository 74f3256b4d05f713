-- ===== src/BTree/Insert/TwoPages.antt =====
-- Two pages of `BTree::insert` that are open at once: a leaf, and the new page for its right half.
use buffer_pool.Base.{
  ℕ, suc, ◌+◌, ◌≤◌, ◌<◌, ◌≡◌, ap, ◌∙◌, true, false, not, Option, some, List, arith, ◌==◌, ==_self,
  ==_of_ne, if_true, if_false, length,
}
use buffer_pool.Base.Assoc
use buffer_pool.Common.{page_size}
use buffer_pool.Disk.FileIo.{Io}
use buffer_pool.Disk.Slots.{Succeeds}
use buffer_pool.Frame.{zero_page, length-zero_page}
use buffer_pool.Pool.{BufferPoolManager, new_page}
use buffer_pool.Pool.Frames.{used_apart}
use buffer_pool.Pool.Calm.{put, IsCalm, Grows, Grows-trans}
use buffer_pool.Pool.Calm.Steps.{write_guard, new_page-IsCalm}
use buffer_pool.BTree.Insert.{drop_guard, borrow, store, open_page}
use buffer_pool.BTree.Insert.Paging.{
  open_page-IsCalm, borrow-IsCalm, store-IsCalm, drop_guard-IsCalm,
}

-- The first half of a split: both pages are open, in two frames.
pub record Opened (faults : ℕ → Io) (now : ℕ) (p : BufferPoolManager) (leaf_id budget : ℕ)
    (c : ℕ → Option (List ℕ)) (bytes : List ℕ) : Type 0 where
  pub p1 : BufferPoolManager
  pub p2 : BufferPoolManager
  pub p3 : BufferPoolManager
  pub p4 : BufferPoolManager
  pub i : ℕ
  pub j : ℕ
  pub makes : new_page faults p ≡ some (p.next_page_id, p1)
  pub opens_left : open_page faults now p1 leaf_id ≡ some (write_guard leaf_id i, p2)
  pub borrows : borrow p2 (write_guard leaf_id i) ≡ some (bytes, p3)
  pub opens_right : open_page faults now p3 p.next_page_id ≡ some (write_guard p.next_page_id j, p4)
  pub apart : not (j == i) ≡ true
  pub calm : IsCalm budget (put c p.next_page_id zero_page) p4
  pub left_there : Assoc.get p4.page_table leaf_id ≡ some i
  pub right_there : Assoc.get p4.page_table p.next_page_id ≡ some j
  pub stays : (k m : ℕ) → Assoc.get p.page_table k ≡ some m → Assoc.get p4.page_table k ≡ some m
  pub next : p4.next_page_id ≡ p.next_page_id + 1
  pub frames : p4.num_frames ≡ p.num_frames

pub ne_apart : (a b : ℕ) → a < b → (b == a) ≡ false
ne_apart a b lt = ==_of_ne b a λ e. absurd (omega arith)

pub opens_both :
    (faults : ℕ → Io) (now : ℕ) (p : BufferPoolManager) (leaf_id budget : ℕ)
    (c : ℕ → Option (List ℕ)) (bytes : List ℕ)
    → ((n : ℕ) → Succeeds (faults n))
    → IsCalm (suc budget) c p
    → p.next_page_id + 1 ≤ p.num_frames
    → c leaf_id ≡ some bytes
    → length bytes ≡ page_size
    → Opened faults now p leaf_id budget c bytes
opens_both faults now p leaf_id budget c bytes s calm left holds full =
    let made = calm.held leaf_id bytes holds in
    let (p1, makes, calm1, stays1, next1, frames1) =
      new_page-IsCalm faults s budget c p calm left in
    let holds1 : put c p.next_page_id zero_page leaf_id ≡ some bytes =
      if_false _ _ (ne_apart leaf_id p.next_page_id made) ∙ holds in
    let (i, p2, opens2, calm2, grows2, there2) =
      open_page-IsCalm faults s now budget (put c p.next_page_id zero_page) p1 leaf_id bytes holds1
        full calm1 in
    let (p3, borrows3, calm3, grows3) =
      borrow-IsCalm budget (put c p.next_page_id zero_page) p2 leaf_id i bytes there2 holds1 calm2
        full in
    let (j, p4, opens4, calm4, grows4, there4) =
      open_page-IsCalm faults s now budget (put c p.next_page_id zero_page) p3 p.next_page_id
        zero_page (if_true _ _ (==_self p.next_page_id)) length-zero_page calm3 in
    let left_there = grows4.stays leaf_id i (grows3.stays leaf_id i there2) in
    record {
      p1 = p1;
      p2 = p2;
      p3 = p3;
      p4 = p4;
      i = i;
      j = j;
      makes = makes;
      opens_left = opens2;
      borrows = borrows3;
      opens_right = opens4;
      apart = ap not (
          ==_of_ne j i (
            used_apart p4 calm4.ready.pool leaf_id p.next_page_id i j left_there there4
              λ e. absurd (omega arith)));
      calm = calm4;
      left_there = left_there;
      right_there = there4;
      stays = λ k m e. grows4.stays k m (grows3.stays k m (grows2.stays k m (stays1 k m e)));
      next = grows4.next ∙ grows3.next ∙ grows2.next ∙ next1;
      frames = grows4.frames ∙ grows3.frames ∙ grows2.frames ∙ frames1;
    }

-- The second half: both pages are written, and their guards dropped.
pub record Written (p : BufferPoolManager) (left_id i right_id j budget : ℕ)
    (c : ℕ → Option (List ℕ)) (right_bytes left_out right_out : List ℕ) : Type 0 where
  pub p5 : BufferPoolManager
  pub p6 : BufferPoolManager
  pub p7 : BufferPoolManager
  pub p8 : BufferPoolManager
  pub p9 : BufferPoolManager
  pub borrows : borrow p (write_guard right_id j) ≡ some (right_bytes, p5)
  pub stores_right : store p5 (write_guard right_id j) right_out ≡ some p6
  pub stores_left : store p6 (write_guard left_id i) left_out ≡ some p7
  pub drops_right : drop_guard p7 (write_guard right_id j) ≡ some p8
  pub drops_left : drop_guard p8 (write_guard left_id i) ≡ some p9
  pub calm : IsCalm budget (put (put c right_id right_out) left_id left_out) p9
  pub grows : Grows p p9

pub writes_both :
    (p : BufferPoolManager) (left_id i right_id j budget : ℕ) (c : ℕ → Option (List ℕ))
    (left_bytes right_bytes left_out right_out : List ℕ)
    → IsCalm (suc (suc budget)) c p
    → Assoc.get p.page_table left_id ≡ some i
    → Assoc.get p.page_table right_id ≡ some j
    → (right_id == left_id) ≡ false
    → (left_id == right_id) ≡ false
    → c left_id ≡ some left_bytes
    → c right_id ≡ some right_bytes
    → length right_bytes ≡ page_size
    → length left_out ≡ page_size
    → length right_out ≡ page_size
    → Written p left_id i right_id j budget c right_bytes left_out right_out
writes_both p left_id i right_id j budget c left_bytes right_bytes left_out right_out calm there
      there' apart apart' holds holds' full left_len right_len =
    let (p5, borrows, calm5, grows5) =
      borrow-IsCalm (suc (suc budget)) c p right_id j right_bytes there' holds' calm full in
    let (p6, stores6, calm6, grows6) =
      store-IsCalm (suc (suc budget)) c p5 right_id j right_bytes (grows5.stays right_id j there')
        holds' calm5 right_out right_len in
    let to6 = Grows-trans p p5 p6 grows5 grows6 in
    let (p7, stores7, calm7, grows7) =
      store-IsCalm (suc (suc budget)) (put c right_id right_out) p6 left_id i left_bytes
        (to6.stays left_id i there) (if_false _ _ apart ∙ holds) calm6 left_out left_len in
    let to7 = Grows-trans p p6 p7 to6 grows7 in
    let (p8, drops8, calm8, grows8) =
      drop_guard-IsCalm (suc budget) (put (put c right_id right_out) left_id left_out) p7 right_id j
        right_out (to7.stays right_id j there')
        (if_false _ _ apart' ∙ if_true _ _ (==_self right_id)) calm7 in
    let to8 = Grows-trans p p7 p8 to7 grows8 in
    let (p9, drops9, calm9, grows9) =
      drop_guard-IsCalm budget (put (put c right_id right_out) left_id left_out) p8 left_id i
        left_out (to8.stays left_id i there) (if_true _ _ (==_self left_id)) calm8 in
    record {
      p5 = p5;
      p6 = p6;
      p7 = p7;
      p8 = p8;
      p9 = p9;
      borrows = borrows;
      stores_right = stores6;
      stores_left = stores7;
      drops_right = drops8;
      drops_left = drops9;
      calm = calm9;
      grows = Grows-trans p p8 p9 to8 grows9;
    }
