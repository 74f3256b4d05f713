-- ===== src/Pool/Evicting.antt =====
-- Eviction: the page in the frame that the replacer gives up goes to the disk, and no page is lost.
use mathlib.Core.List.Perm
use mathlib.Core.List.{perm_middle}
use buffer_pool.Base.{
  ℕ, ◌+◌, ◌<◌, ◌≡◌, refl, sym, ap, subst, ◌∙◌, inl, inr, some, List, ◌∷◌, arith, ◌==◌,
  if◌then◌else◌, ==_self, Bool-cases, Option-cases, ◌>>=◌, eq_of_==, ne_of_==, if_true, if_false,
  length, set, take, take_all, length-map,
}
use buffer_pool.Base.Assoc
use buffer_pool.Base.Assoc.{values, Distinct}
use buffer_pool.Common.{page_size, u64_size}
use buffer_pool.Disk.FileIo.{Io}
use buffer_pool.Disk.{DiskManager, write_page, ok}
use buffer_pool.Disk.Slots.{Succeeds}
use buffer_pool.Disk.Slots
use buffer_pool.Disk.Contents.{contents, contents-write_page}
use buffer_pool.Frame.{FrameHeader, zero_page, length-zero_page}
use buffer_pool.Frame
use buffer_pool.Arc.{ArcReplacer}
use buffer_pool.Arc
use buffer_pool.Scheduler.{write}
use buffer_pool.Scheduler.Replies.{perform_write}
use buffer_pool.Scheduler.Blocking.{ask, ask_answer}
use buffer_pool.Guard.{frame_at}
use buffer_pool.Pool.{BufferPoolManager, page_of_frame, evict_page}
use buffer_pool.Pool.Frames.{IsValid, set-AreFrames, used-lt, used_apart, page_of_frame-get}
use buffer_pool.Pool.Loading.{
  disk_of, content, content_resident, content_absent, IsReady, replied, bytes_at_other,
}

-- The disk after the page of a frame is written.
abbrev pub written : (ℕ → Io) → BufferPoolManager → ℕ → List ℕ → DiskManager
written faults p page_id bytes =
    (write_page (faults p.shared.disk_scheduler.served) (disk_of p) page_id bytes).1

abbrev pub evicted :
    (ℕ → Io) → BufferPoolManager → ℕ → ℕ → FrameHeader → ArcReplacer → BufferPoolManager
evicted faults p old i f arc = record p {
  free_frames = i ∷ p.free_frames;
  page_table = Assoc.remove old p.page_table;
  shared = record {
    frames = set p.shared.frames i (Frame.reset f);
    arc_replacer = arc;
    disk_scheduler = replied p.shared.disk_scheduler f.bytes (written faults p old f.bytes);
  };
}

module _ (faults : ℕ → Io) (p : BufferPoolManager) (old i : ℕ) (f : FrameHeader) (arc : ArcReplacer)
    (r : IsReady p) (s : Succeeds (faults p.shared.disk_scheduler.served))
    (counted : (disk_of p).num_writes + 1 < u64_size)
    (victim : page_of_frame i p.page_table ≡ some old) (at : frame_at p.shared i ≡ some f) where
  abbrev pub after_evict : BufferPoolManager
  after_evict = evicted faults p old i f arc

  pub in_table : Assoc.get p.page_table old ≡ some i
  in_table = page_of_frame-get i old p.page_table r.pool.distinct victim

  pub full : length f.bytes ≡ page_size
  full = r.pool.frames.whole i f at

  wrote :
      ((write_page (faults p.shared.disk_scheduler.served) (disk_of p) old f.bytes).0 ≡ ok tt)
      × Slots.IsValid (written faults p old f.bytes)
      × ((k : ℕ)
          → contents (written faults p old f.bytes) k
            ≡ (if old == k then some (take page_size f.bytes) else contents (disk_of p) k))
  wrote =
      contents-write_page (faults p.shared.disk_scheduler.served) (disk_of p) old f.bytes s
        (omega (arith, full)) counted r.disk

  after_evict-IsValid : IsValid after_evict
  unfolding Frame.reset
  after_evict-IsValid = record {
    distinct = Assoc.Distinct-remove old p.page_table r.pool.distinct;
    owned = Perm.trans (perm_middle (values (Assoc.remove old p.page_table)) p.free_frames) (
        Perm.trans
          (Perm.symm (
            Perm.append_right p.free_frames (Assoc.values-remove-perm old i p.page_table in_table)))
          r.pool.owned);
    frames =
        set-AreFrames p.num_frames p.shared.frames i (Frame.reset f)
          (used-lt p r.pool old i in_table) (r.pool.frames.placed i f at)
          (length-map (λ _. 0) f.bytes ∙ full) r.pool.frames;
  }

  pub content-evict : (k : ℕ) → content after_evict k ≡ content p k
  content-evict k = elim (Bool-cases (old == k)) [
    | inl same ↦
        subst (λ x. content after_evict x ≡ content p x) (eq_of_== old k same)
          (content_absent after_evict old (Assoc.get-remove_self old p.page_table r.pool.distinct)
            ∙ wrote.2 old
            ∙ if_true _ _ (==_self old)
            ∙ ap some (take_all page_size f.bytes full)
            ∙ sym (
                content_resident p old i in_table
                ∙ ap (λ o. o >>= λ (g : FrameHeader). some g.bytes) at))
    | inr other ↦
        let kept = Assoc.get-remove_ne old k p.page_table other in
        elim (Option-cases (Assoc.get p.page_table k)) [
          | inl none_there ↦
              content_absent after_evict k (kept ∙ none_there)
              ∙ wrote.2 k
              ∙ if_false _ _ other
              ∙ sym (content_absent p k none_there)
          | inr (j, there) ↦
              content_resident after_evict k j (kept ∙ there)
              ∙ bytes_at_other p after_evict i j (Frame.reset f) refl
                  (used_apart p r.pool old k i j in_table there (ne_of_== old k other))
              ∙ sym (content_resident p k j there)
        ]
  ]

  pub after_evict-IsReady : IsReady after_evict
  after_evict-IsReady = record { pool = after_evict-IsValid; disk = wrote.1; running = r.running }

  pub evict_page-evicts :
      Arc.evict p.shared.arc_replacer ≡ some (some i, arc) → evict_page faults p ≡ some after_evict
  unfolding evict_page
  evict_page-evicts e = rw (e, evict_page) (rw at (rw victim (rw asked refl)))
    where
      asked :
          ask faults p.shared.disk_scheduler write old f.bytes
          ≡ some
              (some f.bytes, replied p.shared.disk_scheduler f.bytes (written faults p old f.bytes))
      asked =
          ask_answer faults p.shared.disk_scheduler r.running old write f.bytes (some f.bytes)
            (written faults p old f.bytes) (perform_write _ (disk_of p) old f.bytes wrote.0)
