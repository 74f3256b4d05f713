-- ===== src/BTree/Insert/Paging.antt =====
-- The page accesses of `BTree::insert` on a calm pool: none of them panics.
use buffer_pool.Base.{
  ℕ, suc, ◌≡◌, refl, ap, ◌∙◌, false, Option, some, List, ==_self, ◌>>=◌, if_true, length,
}
use buffer_pool.Base.Assoc
use buffer_pool.Common.{page_size}
use buffer_pool.Disk.FileIo.{Io}
use buffer_pool.Disk.Slots.{Succeeds}
use buffer_pool.Guard.{Shared, ReadPageGuard, data_write, release, drop_read, drop_write}
use buffer_pool.BTree.Tree.Reading.{read_opened}
use buffer_pool.Pool.{BufferPoolManager}
use buffer_pool.Pool.Calm.{put, IsCalm, IsCalm-same, Grows, Grows-trans}
use buffer_pool.Pool.Calm.Steps.{
  read_guard, write_guard, put_same, data_mut-IsCalm, release-IsCalm, check_page-IsCalm, frame_of,
}
use buffer_pool.BTree.Tree.{read_page}
use buffer_pool.BTree.Insert.{drop_guard, borrow, store, open_page, rewrite_page}

-- A step on the state of the pool that does not panic, and leads to a calm pool with pages `c`.
abbrev pub Steps : ℕ → (ℕ → Option (List ℕ)) → BufferPoolManager → Option BufferPoolManager → Type 0
Steps budget c p out = (p' : BufferPoolManager) × (out ≡ some p') × IsCalm budget c p' × Grows p p'

-- The change of the shared state alone.
shares : (p : BufferPoolManager) (s : Shared) → Grows p (record p { shared = s })
shares p s = record { stays = λ k i e. e; next = refl; frames = refl }

module _ (budget : ℕ) (c : ℕ → Option (List ℕ)) (p : BufferPoolManager) (page_id i : ℕ)
    (bytes : List ℕ) (there : Assoc.get p.page_table page_id ≡ some i)
    (holds : c page_id ≡ some bytes) where
  pub drop_guard-IsCalm :
      IsCalm (suc budget) c p → Steps budget c p (drop_guard p (write_guard page_id i))
  unfolding drop_guard drop_write
  drop_guard-IsCalm calm =
      let (s, releases, calm') =
        release-IsCalm (suc budget) c p calm page_id i bytes there holds budget refl in
      (record p { shared = s }, rw (releases, drop_guard) refl, calm', shares p s)

  pub borrow-IsCalm :
      IsCalm budget c p
      → length bytes ≡ page_size
      → (p' : BufferPoolManager) × (borrow p (write_guard page_id i) ≡ some (bytes, p'))
        × IsCalm budget c p'
        × Grows p p'
  unfolding borrow data_write
  borrow-IsCalm calm len =
      let (f, s, edits, at, is, calm') =
        data_mut-IsCalm budget c p calm page_id i bytes there holds (λ b. b) len in
      (
        record p { shared = s },
        rw (edits, borrow) (rw at (ap (λ b. some (b, record p { shared = s })) is)),
        IsCalm-same budget (put c page_id bytes) c (record p { shared = s })
            (put_same c page_id bytes holds) calm',
        shares p s,
      )

  pub store-IsCalm :
      IsCalm budget c p
      → (out : List ℕ) → length out ≡ page_size
      → Steps budget (put c page_id out) p (store p (write_guard page_id i) out)
  unfolding store
  store-IsCalm calm out len =
      let (f, s, edits, at, is, calm') =
        data_mut-IsCalm budget c p calm page_id i bytes there holds (λ _. out) len in
      (record p { shared = s }, rw (edits, store) refl, calm', shares p s)

-- A read guard that is dropped.
closes :
    (s s' : Shared) (page_id i : ℕ)
    → release s i ≡ some s'
    → drop_read s (read_guard page_id i)
      ≡ some (record { page_id = page_id; frame = i; is_valid = false }, s')
unfolding drop_read
closes s s' page_id i releases = rw (releases, drop_read) refl

module _ (faults : ℕ → Io) (s : (n : ℕ) → Succeeds (faults n)) (now : ℕ) (budget : ℕ)
    (c : ℕ → Option (List ℕ)) (p : BufferPoolManager) (page_id : ℕ) (bytes : List ℕ)
    (holds : c page_id ≡ some bytes) (len : length bytes ≡ page_size) where
  pub open_page-IsCalm :
      IsCalm budget c p
      → (i : ℕ) × (p' : BufferPoolManager) × (open_page faults now p page_id
          ≡ some (write_guard page_id i, p'))
        × IsCalm budget c p'
        × Grows p p'
        × (Assoc.get p'.page_table page_id ≡ some i)
  unfolding open_page
  open_page-IsCalm calm =
      let (i, p', _, writes, calm', grows, there) =
        check_page-IsCalm faults s budget c p now page_id bytes calm holds len in
      (i, p', rw (writes, open_page) refl, calm', grows, there)

  pub read_page-IsCalm :
      IsCalm (suc budget) c p
      → (p' : BufferPoolManager) × (read_page faults now p page_id ≡ some (bytes, p'))
        × IsCalm budget c p'
        × Grows p p'
  read_page-IsCalm calm =
      let (i, p', reads, _, calm1, grows, there) =
        check_page-IsCalm faults s (suc budget) c p now page_id bytes calm holds len in
      let (f, at, is) = frame_of (suc budget) c p' calm1 page_id i bytes there holds in
      let (sh, releases, calm2) =
        release-IsCalm (suc budget) c p' calm1 page_id i bytes there holds budget refl in
      (
        record p' { shared = sh },
        read_opened faults now p p' page_id i f reads at
            ∙ ap
                (λ (o : Option (ReadPageGuard × Shared)).
                  o >>= λ (x : ReadPageGuard × Shared). some (f.bytes, record p' { shared = x.1 }))
                (closes p'.shared sh page_id i releases)
            ∙ ap (λ b. some (b, record p' { shared = sh })) is,
        calm2,
        Grows-trans p p' (record p' { shared = sh }) grows (shares p' sh),
      )

  -- A page is rewritten to what `edit` makes of it.
  pub rewrite_page-IsCalm :
      IsCalm (suc budget) c p
      → (edit : List ℕ → Option (List ℕ)) (out : List ℕ) → edit bytes ≡ some out
      → length out ≡ page_size
      → Steps budget (put c page_id out) p (rewrite_page faults now p page_id edit)
  unfolding rewrite_page open_page
  rewrite_page-IsCalm calm edit out edits full =
      let (i, p1, _, writes, calm1, grows1, there) =
        check_page-IsCalm faults s (suc budget) c p now page_id bytes calm holds len in
      let (p2, borrows, calm2, grows2) =
        borrow-IsCalm (suc budget) c p1 page_id i bytes there holds calm1 len in
      let there2 = grows2.stays page_id i there in
      let (p3, stores, calm3, grows3) =
        store-IsCalm (suc budget) c p2 page_id i bytes there2 holds calm2 out full in
      let (p4, drops, calm4, grows4) =
        drop_guard-IsCalm budget (put c page_id out) p3 page_id i out
          (grows3.stays page_id i there2) (if_true _ _ (==_self page_id)) calm3 in
      (
        p4,
        rw (writes, rewrite_page) (rw borrows (rw edits (rw stores drops))),
        calm4,
        Grows-trans p p1 p4 grows1
            (Grows-trans p1 p2 p4 grows2 (Grows-trans p2 p3 p4 grows3 grows4)),
      )
