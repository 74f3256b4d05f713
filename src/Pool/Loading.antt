-- ===== src/Pool/Loading.antt =====
-- `find_frame`: the pool as a map from page ids to page contents, which loading and evicting keep.
use mathlib.Core.List.{append_assoc, mem-cons_self}
use buffer_pool.Base.{
  ℕ, ◌+◌, ◌≤◌, ◌≡◌, refl, sym, ap, subst, ◌∙◌, ◌≢◌, inl, inr, true, Option, none, some, List, ◌∷◌,
  ◌++◌, Mem, Perm, arith, ◌==◌, ==_self, Bool-cases, Option-cases, ◌>>=◌, eq_of_==, if_true,
  if_false, length, get_elem?, set, get_elem?-set_self, get_elem?-set_ne,
}
use buffer_pool.Base.Assoc
use buffer_pool.Base.Assoc.{values, Distinct}
use buffer_pool.Common.{page_size}
use buffer_pool.Disk.FileIo.{Io}
use buffer_pool.Disk.{DiskManager}
use buffer_pool.Disk.Slots.{Succeeds}
use buffer_pool.Disk.Slots
use buffer_pool.Disk.Contents.{contents, contents-read_page}
use buffer_pool.Frame.{FrameHeader, zero_page, length-zero_page}
use buffer_pool.Scheduler.{Worker, read, answered}
use buffer_pool.Scheduler.Replies.{perform_read}
use buffer_pool.Scheduler.Blocking.{ask, ask_answer}
use buffer_pool.Guard.{frame_at}
use buffer_pool.Pool.{BufferPoolManager, stack_of, load_page}
use buffer_pool.Pool.Frames.{IsValid, set-AreFrames, free-lt, free-ne-used}

abbrev pub disk_of : BufferPoolManager → DiskManager
disk_of p = p.shared.disk_scheduler.disk_manager

abbrev pub bytes_at : BufferPoolManager → ℕ → Option (List ℕ)
bytes_at p i = frame_at p.shared i >>= λ f. some f.bytes

-- What a page holds: the bytes of its frame, else what the disk has.
pub content : BufferPoolManager → ℕ → Option (List ℕ)
content p page_id = elim (Assoc.get p.page_table page_id) [
  | some i ↦ bytes_at p i
  | none ↦ contents (disk_of p) page_id
]

pub content_resident :
    (p : BufferPoolManager) (page_id i : ℕ)
    → Assoc.get p.page_table page_id ≡ some i
    → content p page_id ≡ bytes_at p i
unfolding content
content_resident p page_id i e = rw (e, content)

pub content_absent :
    (p : BufferPoolManager) (page_id : ℕ)
    → Assoc.get p.page_table page_id ≡ none
    → content p page_id ≡ contents (disk_of p) page_id
unfolding content
content_absent p page_id e = rw (e, content)

-- The pool, its disk and its worker are in order.
pub record IsReady (p : BufferPoolManager) : Type 0 where
  pub pool : IsValid p
  pub disk : Slots.IsValid (disk_of p)
  pub running : p.shared.disk_scheduler.running ≡ true

-- `p'` has the page in frame `i`, and every page holds what it held in `p`.
pub record Serves (p p' : BufferPoolManager) (page_id i : ℕ) : Type 0 where
  pub ready : IsReady p'
  pub resident : Assoc.get p'.page_table page_id ≡ some i
  pub same : (k : ℕ) → content p' k ≡ content p k
  pub writes : (disk_of p').num_writes ≤ (disk_of p).num_writes + 1

-- The worker after an answer of `bytes`, with the disk `d`.
abbrev pub replied : Worker → List ℕ → DiskManager → Worker
replied w bytes d = answered w w.served (some (some bytes)) d

-- The pool with page `page_id` read into frame `i`.
abbrev pub loaded : BufferPoolManager → ℕ → ℕ → List ℕ → FrameHeader → List ℕ → BufferPoolManager
loaded p page_id i bytes f rest = record p {
  free_frames = rest;
  page_table = Assoc.insert page_id i p.page_table;
  shared = record p.shared {
    disk_scheduler = replied p.shared.disk_scheduler bytes (disk_of p);
    frames = set p.shared.frames i (record f { bytes = bytes });
  };
}

-- A change of one frame does not show in another.
pub bytes_at_other :
    (p p' : BufferPoolManager) (i j : ℕ) (g : FrameHeader)
    → p'.shared.frames ≡ set p.shared.frames i g
    → i ≢ j
    → bytes_at p' j ≡ bytes_at p j
bytes_at_other p p' i j g e ne =
    ap (λ o. o >>= λ (h : FrameHeader). some h.bytes)
      (ap (λ l. get_elem? l j) e ∙ get_elem?-set_ne p.shared.frames i j g ne)

module _ (p : BufferPoolManager) (page_id i : ℕ) (rest bytes : List ℕ) (f : FrameHeader)
    (r : IsReady p) (absent : Assoc.get p.page_table page_id ≡ none)
    (free : p.free_frames ≡ i ∷ rest) (at : frame_at p.shared i ≡ some f)
    (len : length bytes ≡ page_size) (holds : contents (disk_of p) page_id ≡ some bytes) where
  abbrev pub after_load : BufferPoolManager
  after_load = loaded p page_id i bytes f rest

  i-mem : Mem i p.free_frames
  i-mem = rw free mem-cons_self

  after_load-IsValid : IsValid after_load
  after_load-IsValid = record {
    distinct = Assoc.Distinct-insert page_id i p.page_table r.pool.distinct;
    owned =
        rw (Assoc.values-insert_new page_id i p.page_table absent, append_assoc)
          (subst (λ l. Perm (values p.page_table ++ l) (stack_of p.num_frames)) free r.pool.owned);
    frames =
        set-AreFrames p.num_frames p.shared.frames i (record f { bytes = bytes })
          (free-lt p r.pool i i-mem) (r.pool.frames.placed i f at) len r.pool.frames;
  }

  bytes_at_load : bytes_at after_load i ≡ some bytes
  bytes_at_load =
      ap (λ o. o >>= λ (g : FrameHeader). some g.bytes)
        (get_elem?-set_self p.shared.frames i (record f { bytes = bytes })
          (rw r.pool.frames.count (free-lt p r.pool i i-mem)))

  content-load : (k : ℕ) → content after_load k ≡ content p k
  content-load k = elim (Bool-cases (page_id == k)) [
    | inl same ↦
        subst (λ x. content after_load x ≡ content p x) (eq_of_== page_id k same)
          (content_resident after_load page_id i
              (Assoc.get-insert page_id page_id i p.page_table ∙ if_true _ _ (==_self page_id))
            ∙ bytes_at_load
            ∙ sym (content_absent p page_id absent ∙ holds))
    | inr other ↦
        let kept = Assoc.get-insert page_id k i p.page_table ∙ if_false _ _ other in
        elim (Option-cases (Assoc.get p.page_table k)) [
          | inl none_there ↦
              content_absent after_load k (kept ∙ none_there) ∙ sym (content_absent p k none_there)
          | inr (j, there) ↦
              content_resident after_load k j (kept ∙ there)
              ∙ bytes_at_other p after_load i j (record f { bytes = bytes }) refl
                  (free-ne-used p r.pool k i j i-mem there)
              ∙ sym (content_resident p k j there)
        ]
  ]

  pub after_load-Serves : Serves p after_load page_id i
  after_load-Serves = record {
    ready = record { pool = after_load-IsValid; disk = r.disk; running = r.running };
    resident = Assoc.get-insert page_id page_id i p.page_table ∙ if_true _ _ (==_self page_id);
    same = content-load;
    writes = omega arith;
  }

  pub load_page-loads :
      (faults : ℕ → Io)
      → Succeeds (faults p.shared.disk_scheduler.served)
      → load_page faults p page_id (i ∷ rest) ≡ some (i, after_load)
  unfolding load_page
  load_page-loads faults s = rw (asked, load_page) (rw at (rw lengths refl))
    where
      asked :
          ask faults p.shared.disk_scheduler read page_id zero_page
          ≡ some (some bytes, replied p.shared.disk_scheduler bytes (disk_of p))
      asked =
          ask_answer faults p.shared.disk_scheduler r.running page_id read zero_page (some bytes)
            (disk_of p)
            (perform_read _ (disk_of p) page_id zero_page bytes (
              contents-read_page _ (disk_of p) page_id zero_page bytes s length-zero_page r.disk
                holds))

      lengths : (length f.bytes == length bytes) ≡ true
      lengths = rw (r.pool.frames.whole i f at, len) refl
