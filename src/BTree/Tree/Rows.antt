-- ===== src/BTree/Tree/Rows.antt =====
-- The pages that a walk over the tree reads, one after the other.
use buffer_pool.Base.{
  ℕ, ◌+◌, ◌≤◌, ◌<◌, ◌≡◌, refl, sym, ap, subst, ◌∙◌, inl, inr, true, false, Option, none, some, List,
  [], ◌∷◌, ◌++◌, arith, dec_lt, Option-cases, ◌>>=◌, some_inj, length,
}
use buffer_pool.Common.{page_size, u64_size, u32_size}
use buffer_pool.Disk.FileIo.{Io}
use buffer_pool.Disk.Slots.{Succeeds}
use buffer_pool.Arc.{record_access}
use buffer_pool.Frame.{FrameHeader}
use buffer_pool.Frame
use buffer_pool.Guard.{Shared, ReadPageGuard, frame_at, drop_read, release}
use buffer_pool.Guard.Pins.{release-unpins}
use buffer_pool.Pool.{BufferPoolManager, check_read_page, find_frame}
use buffer_pool.Pool.Loading.{disk_of, content, IsReady}
use buffer_pool.Pool.Serving.{Available, find_frame-Available, find_frame-Serves}
use buffer_pool.Pool.Guards.{check_page-Serves}
use buffer_pool.BTree.Tree.{read_page}
use buffer_pool.BTree.Tree.Reading.{Keeps, read_opened, read_page-Keeps}

-- Pages that are read in a row.
unfoldable pub read_pages : (ℕ → Io) → ℕ → List ℕ → BufferPoolManager → Option BufferPoolManager
read_pages faults now [] p = some p
read_pages faults now (page_id ∷ rest) p = do
  (bytes, p1) ← read_page faults now p page_id
  read_pages faults now rest p1

-- Why a read of a page panics: there is no frame for it, or the replacer cannot record the access,
-- or its counter of evictable frames is full when the guard is dropped.
pub data Refused (faults : ℕ → Io) (now : ℕ) (p : BufferPoolManager) (page_id : ℕ) : Type 0 where
  no_frame : ¬ Available p page_id → Refused faults now p page_id
  unrecorded :
      (i : ℕ) (p1 : BufferPoolManager)
      → find_frame faults p page_id ≡ some (i, p1)
      → record_access now p1.shared.arc_replacer i page_id ≡ none
      → Refused faults now p page_id
  uncounted :
      (guard : ReadPageGuard) (p' : BufferPoolManager)
      → check_read_page faults now p page_id ≡ some (some guard, p')
      → u32_size ≤ p'.shared.arc_replacer.curr_size + 1
      → Refused faults now p page_id

release-none :
    (s : Shared) (i : ℕ) (f : FrameHeader)
    → frame_at s i ≡ some f
    → release s i ≡ none
    → u32_size ≤ s.arc_replacer.curr_size + 1
release-none s i f at e = elim (dec_lt (s.arc_replacer.curr_size + 1) u32_size) [
  | yes lt ↦ let (s', releases, _) = release-unpins s i f at lt in cc (releases, e)
  | no ge ↦ omega arith
]

drop_read-none :
    (s : Shared) (page_id i : ℕ) (f : FrameHeader)
    → frame_at s i ≡ some f
    → drop_read s (record { page_id = page_id; frame = i; is_valid = true }) ≡ none
    → u32_size ≤ s.arc_replacer.curr_size + 1
unfolding drop_read
drop_read-none s page_id i f at e = elim (Option-cases (release s i)) [
  | inl fails ↦ release-none s i f at fails
  | inr (s', releases) ↦
      let guard : ReadPageGuard = record { page_id = page_id; frame = i; is_valid = true } in
      let drops : drop_read s guard ≡ some (record guard { is_valid = false }, s') =
        rw (releases, drop_read) refl in
      cc (drops, e)
]

read_page-Refused :
    (faults : ℕ → Io) (now : ℕ) (p : BufferPoolManager) (page_id : ℕ) (bytes : List ℕ)
    → IsReady p
    → ((n : ℕ) → Succeeds (faults n))
    → length bytes ≡ page_size
    → content p page_id ≡ some bytes
    → (disk_of p).num_writes + 1 < u64_size
    → read_page faults now p page_id ≡ none
    → Refused faults now p page_id
read_page-Refused faults now p page_id bytes r s len holds counted e =
    elim (Option-cases (find_frame faults p page_id)) [
      | inl fails ↦ no_frame (λ a.
          let (i, p1, found, _) =
            find_frame-Serves faults p page_id bytes r s len holds counted a in
          cc (found, fails))
      | inr ((j, q0), ef) ↦
          let (i, p1, f, found, at, fb, outcome) =
            check_page-Serves faults now p page_id bytes r s len holds counted
              (find_frame-Available faults p q0 page_id j ef) in
          elim outcome [
            | inl (fails, _, _) ↦ unrecorded i p1 found fails
            | inr (p', reads, _, at', _, _, _, _) ↦
                uncounted (record { page_id = page_id; frame = i; is_valid = true }) p' reads
                  (elim (Option-cases (
                    drop_read p'.shared
                      (record { page_id = page_id; frame = i; is_valid = true }))) [
                        | inl fails ↦ drop_read-none p'.shared page_id i (Frame.pin f) at' fails
                        | inr ((guard, s3), drops) ↦
                            let reads_on : read_page faults now p page_id
                                ≡ some ((Frame.pin f).bytes, record p' { shared = s3 }) =
                              read_opened faults now p p' page_id i (Frame.pin f) reads at'
                              ∙ ap
                                  (λ o. o >>= λ (x : ReadPageGuard × Shared).
                                    some ((Frame.pin f).bytes, record p' { shared = x.1 }))
                                  drops in
                            cc (reads_on, e)
                      ])
          ]
    ]

-- The pages of the list are in the pool `p` or on its disk.
pub data AllHeld (c : ℕ → Option (List ℕ)) : List ℕ → Type 0 where
  none_held : AllHeld c []
  also_held :
      {page_id : ℕ} {rest : List ℕ} (bytes : List ℕ)
      → c page_id ≡ some bytes
      → length bytes ≡ page_size
      → AllHeld c rest
      → AllHeld c (page_id ∷ rest)

-- A page of the row whose read panics, after those before it were read.
pub record Blocked (faults : ℕ → Io) (now : ℕ) (row : List ℕ) (p : BufferPoolManager) : Type 0 where
  pub before : List ℕ
  pub page_id : ℕ
  pub after : List ℕ
  pub is : row ≡ before ++ page_id ∷ after
  pub pool : BufferPoolManager
  pub reached : read_pages faults now before p ≡ some pool
  pub refused : Refused faults now pool page_id

-- What reading the row does: it keeps the pool in order, changes no page, and writes the disk at
-- most once for each page; or the read of one of the pages panics.
pub record Row (faults : ℕ → Io) (now : ℕ) (row : List ℕ) (p : BufferPoolManager) : Type 0 where
  pub reads :
      (q : BufferPoolManager)
      → read_pages faults now row p ≡ some q
      → IsReady q
        × ((k : ℕ) → content q k ≡ content p k)
        × ((disk_of q).num_writes ≤ (disk_of p).num_writes + length row)
  pub panics : read_pages faults now row p ≡ none → Blocked faults now row p

pub AllHeld-append :
    (c : ℕ → Option (List ℕ)) (a b : List ℕ) → AllHeld c a → AllHeld c b → AllHeld c (a ++ b)
AllHeld-append c a b none_held held = held
AllHeld-append c a b (also_held {rest = rest} bytes e len more) held =
    also_held bytes e len (AllHeld-append c rest b more held)

pub read_pages-append :
    (faults : ℕ → Io) (now : ℕ) (a b : List ℕ) (p : BufferPoolManager)
    → read_pages faults now (a ++ b) p ≡ (read_pages faults now a p >>= read_pages faults now b)
unfolding read_pages
read_pages-append faults now [] b p = refl
read_pages-append faults now (k ∷ a) b p = elim (Option-cases (read_page faults now p k)) [
  | inl panics ↦ rw panics refl
  | inr ((bytes, p1), reads) ↦ rw reads (read_pages-append faults now a b p1)
]

pub read_pages-nil :
    (faults : ℕ → Io) (now : ℕ) (p : BufferPoolManager) → read_pages faults now [] p ≡ some p
unfolding read_pages
read_pages-nil faults now p = refl

pub read_pages-none :
    (faults : ℕ → Io) (now : ℕ) (k : ℕ) (rest : List ℕ) (p : BufferPoolManager)
    → read_page faults now p k ≡ none
    → read_pages faults now (k ∷ rest) p ≡ none
unfolding read_pages
read_pages-none faults now k rest p panics = rw panics refl

pub read_pages-some :
    (faults : ℕ → Io) (now : ℕ) (k : ℕ) (rest : List ℕ) (p p1 : BufferPoolManager) (bytes : List ℕ)
    → read_page faults now p k ≡ some (bytes, p1)
    → read_pages faults now (k ∷ rest) p ≡ read_pages faults now rest p1
unfolding read_pages
read_pages-some faults now k rest p p1 bytes reads = rw reads refl

joins-Row :
    (faults : ℕ → Io) (now page_id : ℕ) (rest : List ℕ) (p p1 : BufferPoolManager) (got : List ℕ)
    → read_page faults now p page_id ≡ some (got, p1)
    → Keeps p p1
    → Row faults now rest p1
    → Row faults now (page_id ∷ rest) p
joins-Row faults now page_id rest p p1 got reads keeps later =
    let step = λ (l : List ℕ). read_pages-some faults now page_id l p p1 got reads in
    record {
      reads = λ q e.
          let (ready, kept, writes) = later.reads q (sym (step rest) ∙ e) in
          (ready, λ k. kept k ∙ keeps.same k, omega (arith, writes, keeps.writes));
      panics = λ e.
          let b = later.panics (sym (step rest) ∙ e) in
          record {
            before = page_id ∷ b.before;
            page_id = b.page_id;
            after = b.after;
            is = ap (λ l. page_id ∷ l) b.is;
            pool = b.pool;
            reached = step b.before ∙ b.reached;
            refused = b.refused;
          };
    }

pub read_pages-Row :
    (faults : ℕ → Io) (now : ℕ) (c : ℕ → Option (List ℕ)) (row : List ℕ) (p : BufferPoolManager)
    → IsReady p
    → ((n : ℕ) → Succeeds (faults n))
    → ((k : ℕ) → content p k ≡ c k)
    → (disk_of p).num_writes + length row < u64_size
    → AllHeld c row
    → Row faults now row p
unfolding read_pages
read_pages-Row faults now c [] p r s same counted none_held = record {
  reads = λ q e.
      let is : p ≡ q = some_inj e in
      subst
        (λ (q : BufferPoolManager).
          IsReady q
          × ((k : ℕ) → content q k ≡ content p k)
          × ((disk_of q).num_writes ≤ (disk_of p).num_writes + 0))
        is (r, λ k. refl, omega arith);
  panics = λ e. cc e;
}
read_pages-Row faults now c (page_id ∷ rest) p r s same counted (also_held bytes holds len more) =
    elim (Option-cases (read_page faults now p page_id)) [
      | inl fails ↦ record {
        reads = λ q e.
            let none_read = read_pages-none faults now page_id rest p fails in cc (none_read, e);
        panics = λ e. record {
          before = [];
          page_id = page_id;
          after = rest;
          is = refl;
          pool = p;
          reached = refl;
          refused =
              read_page-Refused faults now p page_id bytes r s len (same page_id ∙ holds)
                (omega arith) fails;
        };
      }
      | inr ((got, p1), reads) ↦
          let (_, keeps) =
            read_page-Keeps faults now p p1 page_id bytes got r s len (same page_id ∙ holds)
              (omega arith) reads in
          let after_first =
            read_pages-Row faults now c rest p1 keeps.ready s (λ k. keeps.same k ∙ same k)
              (omega (arith, keeps.writes)) more in
          joins-Row faults now page_id rest p p1 got reads keeps after_first
    ]
