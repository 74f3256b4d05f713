-- ===== src/Pool/Deleting.antt =====
-- `delete_page`, and what it leaves in the replacer.
use mathlib.Core.List.Perm
use mathlib.Core.List.{perm_middle}
use buffer_pool.Base.{
  ℕ, ◌+◌, ◌<◌, ◌≡◌, refl, sym, ap, ◌∙◌, inl, inr, true, none, some, ◌∷◌, ◌==◌, if◌then◌else◌,
  Bool-cases, Option-cases, eq_of_==, ne_of_==, if_true, if_false, set, get_elem?-set_self,
  contains, length-map,
}
use buffer_pool.Base.Assoc
use buffer_pool.Base.Assoc.{values, Distinct}
use buffer_pool.Common.{u64_size}
use buffer_pool.Disk.FileIo.{Io}
use buffer_pool.Disk.{DiskManager}
use buffer_pool.Disk.Slots.{Succeeds}
use buffer_pool.Disk.Slots
use buffer_pool.Disk.Contents.{contents}
use buffer_pool.Frame.{FrameHeader, zero_page, length-zero_page}
use buffer_pool.Frame
use buffer_pool.Arc.{ArcReplacer}
use buffer_pool.Arc
use buffer_pool.Scheduler.Blocking.{ask, ask_answer}
use buffer_pool.Guard.{frame_at}
use buffer_pool.Pool.{
  BufferPoolManager, stack_of, page_of_frame, fill_frame, load_page, evict_page, find_frame,
  find_absent,
}
use buffer_pool.Pool.Frames.{set-AreFrames, used-lt, used_apart, page_of_frame-get}
use buffer_pool.Pool.{check_write_page, check_read_page}
use buffer_pool.Arc.{record_access}
use buffer_pool.Pool.Loading.{
  disk_of, content, content_resident, content_absent, IsReady, replied, bytes_at_other,
}
use buffer_pool.Pool.Evicting.{evicted, evict_page-evicts}
use buffer_pool.Disk.{delete_page}
use buffer_pool.Disk.Contents.{contents-delete_page}
use buffer_pool.Scheduler.{delete}
use buffer_pool.Scheduler.Replies.{perform_delete}
use buffer_pool.Pool.{delete_resident}
use buffer_pool.Pool

-- The pool without page `page_id`, whose frame is free.
abbrev dropped : BufferPoolManager → ℕ → ℕ → FrameHeader → DiskManager → BufferPoolManager
dropped p page_id i f d = record p {
  page_table = Assoc.remove page_id p.page_table;
  free_frames = i ∷ p.free_frames;
  shared = record {
    frames = set p.shared.frames i (Frame.reset f);
    arc_replacer = Arc.remove p.shared.arc_replacer i;
    disk_scheduler = replied p.shared.disk_scheduler zero_page d;
  };
}

module _ (p : BufferPoolManager) (page_id i : ℕ) (f : FrameHeader) (d : DiskManager) (r : IsReady p)
    (valid : Slots.IsValid d) (there : Assoc.get p.page_table page_id ≡ some i)
    (at : frame_at p.shared i ≡ some f)
    (holds : (k : ℕ) → contents d k ≡ (if page_id == k then none else contents (disk_of p) k)) where
  dropped-IsReady : IsReady (dropped p page_id i f d)
  unfolding Frame.reset
  dropped-IsReady = record {
    pool = record {
      distinct = Assoc.Distinct-remove page_id p.page_table r.pool.distinct;
      owned = Perm.trans (perm_middle (values (Assoc.remove page_id p.page_table)) p.free_frames) (
          Perm.trans
            (Perm.symm (
              Perm.append_right p.free_frames
                (Assoc.values-remove-perm page_id i p.page_table there)))
            r.pool.owned);
      frames =
          set-AreFrames p.num_frames p.shared.frames i (Frame.reset f)
            (used-lt p r.pool page_id i there) (r.pool.frames.placed i f at)
            (length-map (λ _. 0) f.bytes ∙ r.pool.frames.whole i f at) r.pool.frames;
    };
    disk = valid;
    running = r.running;
  }

  content-dropped :
      (k : ℕ) → content (dropped p page_id i f d) k ≡ (if page_id == k then none else content p k)
  content-dropped k = elim (Bool-cases (page_id == k)) [
    | inl same ↦
        content_absent (dropped p page_id i f d) k (
          ap (Assoc.get (Assoc.remove page_id p.page_table)) (sym (eq_of_== page_id k same))
          ∙ Assoc.get-remove_self page_id p.page_table r.pool.distinct)
        ∙ holds k
        ∙ if_true _ _ same
        ∙ sym (if_true _ _ same)
    | inr other ↦
        let kept = Assoc.get-remove_ne page_id k p.page_table other in
        elim (Option-cases (Assoc.get p.page_table k)) [
          | inl none_there ↦
              content_absent (dropped p page_id i f d) k (kept ∙ none_there)
              ∙ holds k
              ∙ if_false _ _ other
              ∙ sym (content_absent p k none_there)
          | inr (j, also) ↦
              content_resident (dropped p page_id i f d) k j (kept ∙ also)
              ∙ bytes_at_other p (dropped p page_id i f d) i j (Frame.reset f) refl
                  (used_apart p r.pool page_id k i j there also (ne_of_== page_id k other))
              ∙ sym (content_resident p k j also)
        ]
        ∙ sym (if_false _ _ other)
  ]

module _ (faults : ℕ → Io) (p : BufferPoolManager) (page_id i : ℕ) (f : FrameHeader) (r : IsReady p)
    (there : Assoc.get p.page_table page_id ≡ some i) (at : frame_at p.shared i ≡ some f)
    (unpinned : f.pin_count ≡ 0) (counted : (disk_of p).num_deletes + 1 < u64_size) where
  abbrev disk_after : DiskManager
  disk_after = (delete_page (disk_of p) page_id).1

  delete_page-drops : Pool.delete_page faults p page_id ≡ some (dropped p page_id i f disk_after)
  unfolding Pool.delete_page delete_resident
  delete_page-drops = rw (there, Pool.delete_page) (rw at (rw (unpinned, asked) refl))
    where
      asked :
          ask faults p.shared.disk_scheduler delete page_id zero_page
          ≡ some (some zero_page, replied p.shared.disk_scheduler zero_page disk_after)
      asked =
          ask_answer faults p.shared.disk_scheduler r.running page_id delete zero_page
            (some zero_page) disk_after
            (perform_delete _ (disk_of p) page_id zero_page
              (contents-delete_page (disk_of p) page_id counted r.disk).0)

-- Deleting a page in the pool whose frame has no pins takes the page out of the pool and off the
-- disk, and no other page; its frame is free and of zeros afterwards.
pub delete_page-unpinned :
    (faults : ℕ → Io) (p : BufferPoolManager) (page_id i : ℕ) (f : FrameHeader)
    → IsReady p
    → Assoc.get p.page_table page_id ≡ some i
    → frame_at p.shared i ≡ some f
    → f.pin_count ≡ 0
    → (disk_of p).num_deletes + 1 < u64_size
    → (p' : BufferPoolManager) × (Pool.delete_page faults p page_id ≡ some p')
      × IsReady p'
      × (p'.free_frames ≡ i ∷ p.free_frames)
      × (frame_at p'.shared i ≡ some (Frame.reset f))
      × ((k : ℕ) → content p' k ≡ (if page_id == k then none else content p k))
delete_page-unpinned faults p page_id i f r there at unpinned counted =
    let (result, valid, _, holds) = contents-delete_page (disk_of p) page_id counted r.disk in
    let d = (delete_page (disk_of p) page_id).1 in
    (
      dropped p page_id i f d,
      delete_page-drops faults p page_id i f r there at unpinned counted,
      dropped-IsReady p page_id i f d r valid there at holds,
      refl,
      get_elem?-set_self p.shared.frames i (Frame.reset f)
          (rw r.pool.frames.count (used-lt p r.pool page_id i there)),
      content-dropped p page_id i f d r valid there at holds,
    )

-- A frame that is evictable, as that of a page whose last guard was dropped is, stays evictable and
-- in the replacer's lists when the deletion of its page makes it free.
pub delete_page-stays_evictable :
    (faults : ℕ → Io) (p : BufferPoolManager) (page_id i : ℕ) (f : FrameHeader)
    → IsReady p
    → Assoc.get p.page_table page_id ≡ some i
    → frame_at p.shared i ≡ some f
    → f.pin_count ≡ 0
    → (disk_of p).num_deletes + 1 < u64_size
    → contains p.shared.arc_replacer.evictable_pages i ≡ true
    → (p' : BufferPoolManager) × (Pool.delete_page faults p page_id ≡ some p')
      × (p'.free_frames ≡ i ∷ p.free_frames)
      × (p'.shared.arc_replacer ≡ p.shared.arc_replacer)
unfolding Arc.remove
delete_page-stays_evictable faults p page_id i f r there at unpinned counted marked = (
  dropped p page_id i f (delete_page (disk_of p) page_id).1,
  delete_page-drops faults p page_id i f r there at unpinned counted,
  refl,
  if_true _ _ marked,
)

-- An eviction without faults goes by the replacer alone: the frame that it gives up is taken from
-- its page and reset even while guards pin it.
pub evict_page-ignores_pins :
    (faults : ℕ → Io) (p : BufferPoolManager) (old i : ℕ) (f : FrameHeader) (arc : ArcReplacer)
    → IsReady p
    → Succeeds (faults p.shared.disk_scheduler.served)
    → (disk_of p).num_writes + 1 < u64_size
    → Arc.evict p.shared.arc_replacer ≡ some (some i, arc)
    → page_of_frame i p.page_table ≡ some old
    → frame_at p.shared i ≡ some f
    → 0 < f.pin_count
    → (p' : BufferPoolManager) × (evict_page faults p ≡ some p')
      × (Assoc.get p'.page_table old ≡ none)
      × (p'.free_frames ≡ i ∷ p.free_frames)
      × (frame_at p'.shared i ≡ some (Frame.reset f))
evict_page-ignores_pins faults p old i f arc r s counted e victim at pinned = (
  evicted faults p old i f arc,
  evict_page-evicts faults p old i f arc r s counted victim at e,
  Assoc.get-remove_self old p.page_table r.pool.distinct,
  refl,
  get_elem?-set_self p.shared.frames i (Frame.reset f) (
      rw r.pool.frames.count
        (used-lt p r.pool old i (page_of_frame-get i old p.page_table r.pool.distinct victim))),
)
