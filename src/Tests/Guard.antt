-- ===== src/Tests/Guard.antt =====
-- src/guard.rs, and the ends of a page, on a pool of one frame, which holds page 9.
use buffer_pool.Base.{
  ℕ, zero, suc, ◌+◌, ◌*◌, ◌%◌, ◌≡◌, refl, sym, ap, ◌∙◌, ◌⊎◌, true, false, ◌&&◌, ◌||◌, none, some,
  List, [], ◌∷◌, map, arith, ◌==◌, if◌then◌else◌, some_inj, length, get_elem?, contains, length-map,
}
use buffer_pool.Base.Assoc
use buffer_pool.Common.{page_size, u32_size}
use buffer_pool.Disk.FileIo.{Io}
use buffer_pool.Disk.{DiskManager}
use buffer_pool.Disk.Contents.{contents}
use buffer_pool.Frame.{FrameHeader, zero_page, length-zero_page}
use buffer_pool.Frame
use buffer_pool.Arc.{ArcReplacer, record_access, note_access}
use buffer_pool.Arc.Stamps.{stamp}
use buffer_pool.Guard.{
  Shared, WritePageGuard, frame_at, acquire, new_write, drop_write, flush_frame, flush_write,
  data_mut, data_write,
}
use buffer_pool.Guard.Pins.{drop_write-new_write}
use buffer_pool.Guard.Flushing.{IsServing, cleaned, flush_write-data_mut, flush_frame_hides_failure}
use buffer_pool.Pool.Flushing.{flush_page-stores}
use buffer_pool.Pool.{
  BufferPoolManager, flush_page, new, new_page, stack_of, evict_page, page_of_frame,
}
use buffer_pool.Pool
use buffer_pool.Pool.Loading.{content, IsReady}
use buffer_pool.Pool.Creating.{new_page-content}
use buffer_pool.Pool.Deleting.{
  delete_page-unpinned, delete_page-stays_evictable, evict_page-ignores_pins,
}
use buffer_pool.Tests.Disk.{no_faults, no_faults-Succeeds, two_pages-IsValid}
use buffer_pool.Tests.Scheduler.{never}
use buffer_pool.Tests.Pool.{
  full, full-IsReady, used_frame, nine_evictable, nine_evicted, evict_nine,
}

abbrev disk : Shared → DiskManager
disk s = s.disk_scheduler.disk_manager

abbrev nine_hit : ArcReplacer
nine_hit = record nine_evictable {
  mru = [];
  mfu = (0, 9) ∷ [];
  timestamp_access = stamp (0, 9) 100 [];
}

abbrev held : Shared
held = record full.shared { frames = Frame.pin used_frame ∷ []; arc_replacer = nine_hit }

abbrev guard : WritePageGuard
guard = record { page_id = 9; frame = 0; is_valid = true }

nine_acquired : new_write 100 full.shared 9 0 ≡ some (guard, held)
unfolding new_write acquire record_access note_access
nine_acquired = refl

drop_write-new_write_example :
    (frame_at held 0 ≡ some (record used_frame { pin_count = used_frame.pin_count + 1 }))
    × (held.arc_replacer.evictable_pages ≡ full.shared.arc_replacer.evictable_pages)
    × ((s2 : Shared) × (drop_write held guard ≡ some (record guard { is_valid = false }, s2))
        × (frame_at s2 0 ≡ some used_frame)
        × ((b : ℕ)
            → contains s2.arc_replacer.evictable_pages b ≡ (
                (used_frame.pin_count == 0 && used_frame.frame_id == b)
                || contains full.shared.arc_replacer.evictable_pages b)))
drop_write-new_write_example =
    drop_write-new_write 100 full.shared held 9 0 used_frame guard refl (omega arith) (omega arith)
      nine_acquired

full-IsServing : IsServing full.shared
full-IsServing = record { running = refl; slots = two_pages-IsValid; counted = omega arith }

abbrev fill_ones : List ℕ → List ℕ
fill_ones = map (λ _. 1)

flush_write-data_mut_example :
    (s1 : Shared) × (s2 : Shared) × (data_mut full.shared guard fill_ones ≡ some s1)
    × (flush_write never s1 guard ≡ some (true, s2))
    × (data_write s2 guard ≡ some (fill_ones used_frame.bytes))
    × ((k : ℕ)
        → contents (disk s2) k ≡ (
            if guard.page_id == k
            then some (fill_ones used_frame.bytes)
            else contents (disk full.shared) k))
flush_write-data_mut_example =
    flush_write-data_mut never full.shared guard used_frame fill_ones no_faults-Succeeds
      full-IsServing refl refl (length-map (λ _. 1) zero_page ∙ length-zero_page)

abbrev stuck : ℕ → Io
stuck _ = record no_faults { seeks = false }

flush_frame_hides_failure_example :
    (s' : Shared) × (flush_frame stuck full.shared 9 0 ≡ some (true, s'))
    × (frame_at s' 0 ≡ some (cleaned used_frame))
    × (disk s' ≡ disk full.shared)
flush_frame_hides_failure_example =
    flush_frame_hides_failure stuck full.shared 9 0 (0 * page_size) used_frame refl refl refl refl
      refl

new_page-content_example :
    (p' : BufferPoolManager) × (new_page never full ≡ some (full.next_page_id, p'))
    × IsReady p'
    × (p'.next_page_id ≡ (full.next_page_id + 1) % u32_size)
    × (p'.free_frames ≡ full.free_frames)
    × ((k : ℕ) → content p' k ≡ (if full.next_page_id == k then some zero_page else content full k))
new_page-content_example =
    new_page-content never full full-IsReady no_faults-Succeeds (omega arith) refl

delete_page-unpinned_example :
    (p' : BufferPoolManager) × (Pool.delete_page never full 9 ≡ some p')
    × IsReady p'
    × (p'.free_frames ≡ 0 ∷ full.free_frames)
    × (frame_at p'.shared 0 ≡ some (Frame.reset used_frame))
    × ((k : ℕ) → content p' k ≡ (if 9 == k then none else content full k))
delete_page-unpinned_example =
    delete_page-unpinned never full 9 0 used_frame full-IsReady refl refl refl (omega arith)

delete_page-stays_evictable_example :
    (p' : BufferPoolManager) × (Pool.delete_page never full 9 ≡ some p')
    × (p'.free_frames ≡ 0 ∷ full.free_frames)
    × (p'.shared.arc_replacer ≡ full.shared.arc_replacer)
delete_page-stays_evictable_example =
    delete_page-stays_evictable never full 9 0 used_frame full-IsReady refl refl refl (omega arith)
      refl

-- The same pool while a guard pins the frame.
abbrev busy_frame : FrameHeader
busy_frame = record used_frame { pin_count = 1 }

abbrev busy : BufferPoolManager
busy = record full { shared = record full.shared { frames = busy_frame ∷ [] } }

busy-IsReady : IsReady busy
busy-IsReady = record {
  pool = record {
    distinct = full-IsReady.pool.distinct;
    owned = full-IsReady.pool.owned;
    frames = record { count = refl; placed = λ i f e. ground (arith, e); whole = whole };
  };
  disk = two_pages-IsValid;
  running = refl;
}
  where
    whole :
        (i : ℕ) (f : FrameHeader)
        → get_elem? (busy_frame ∷ []) i ≡ some f
        → length f.bytes ≡ page_size
    whole zero f e = ap (λ (g : FrameHeader). length g.bytes) (sym (some_inj e)) ∙ length-zero_page
    whole (suc i) f e = cc

evict_page-ignores_pins_example :
    (p' : BufferPoolManager) × (evict_page never busy ≡ some p')
    × (Assoc.get p'.page_table 9 ≡ none)
    × (p'.free_frames ≡ 0 ∷ busy.free_frames)
    × (frame_at p'.shared 0 ≡ some (Frame.reset busy_frame))
unfolding page_of_frame
evict_page-ignores_pins_example =
    evict_page-ignores_pins never busy 9 0 busy_frame nine_evicted busy-IsReady no_faults-Succeeds
      (omega arith) evict_nine refl refl (omega arith)

flush_page-stores_example :
    ((record_access 100 full.shared.arc_replacer 0 9 ≡ none) × (flush_page never 100 full 9 ≡ none))
    ⊎ ((p' : BufferPoolManager) × (flush_page never 100 full 9 ≡ some (used_frame.is_dirty, p'))
        × IsReady p'
        × (frame_at p'.shared 0 ≡ some (cleaned used_frame))
        × ((k : ℕ)
            → contents (disk p'.shared) k ≡ (
                if used_frame.is_dirty && 9 == k
                then some used_frame.bytes
                else contents (disk full.shared) k))
        × ((k : ℕ) → content p' k ≡ content full k))
flush_page-stores_example =
    flush_page-stores never 100 full 9 0 used_frame full-IsReady (λ n. no_faults-Succeeds) refl refl
      (omega arith) (omega arith) (omega arith)
