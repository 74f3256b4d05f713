-- ===== src/Tests/Pool.antt =====
-- src/buffer_pool.rs and src/guard.rs on a pool of one frame, which holds page 9.
use mathlib.Core.List.Perm
use buffer_pool.Base.{
  ℕ, zero, suc, ◌+◌, ◌*◌, ◌≤◌, ◌≡◌, refl, sym, ap, ◌∙◌, ◌⊎◌, true, none, some, List, [], ◌∷◌, arith,
  some_inj, length, get_elem?,
}
use buffer_pool.Base.Assoc
use buffer_pool.Common.{page_size}
use buffer_pool.Disk.FileIo.{read_at, length-read_at}
use buffer_pool.Disk.Contents.{contents_known}
use buffer_pool.Frame.{FrameHeader, zero_page, length-zero_page}
use buffer_pool.Frame
use buffer_pool.Arc.{ArcReplacer, evict, evict_from_mru_ghost, record_access}
use buffer_pool.Arc.Scan.{scan}
use buffer_pool.Arc.Stamps.{unstamp}
use buffer_pool.Guard.{frame_at}
use buffer_pool.Pool.{
  BufferPoolManager, stack_of, page_of_frame, find_frame, check_read_page, check_write_page,
}
use buffer_pool.Pool.Frames.{AreFrames}
use buffer_pool.Pool.Loading.{content, content_absent, IsReady, Serves}
use buffer_pool.Pool.Serving.{Available, evictable, find_frame-keeps}
use buffer_pool.Pool.Guards.{check_page-Serves}
use buffer_pool.Tests.Disk.{no_faults-Succeeds, two_pages, two_pages-IsValid, zeros}
use buffer_pool.Tests.Scheduler.{never, idle}

abbrev pub used_frame : FrameHeader
used_frame = record { frame_id = 0; pin_count = 0; is_dirty = true; bytes = zero_page }

abbrev pub nine_evictable : ArcReplacer
nine_evictable = record {
  mru = (0, 9) ∷ [];
  mfu = [];
  timestamp_access = [];
  mru_ghost = [];
  mfu_ghost = [];
  mru_target_size = 0;
  replacer_size = 1;
  curr_size = 1;
  dirty_pages = [];
  evictable_pages = 0 ∷ [];
}

abbrev pub nine_evicted : ArcReplacer
nine_evicted = record nine_evictable {
  mru = [];
  mru_ghost = 9 ∷ [];
  curr_size = 0;
  evictable_pages = [];
}

abbrev pub full : BufferPoolManager
full = record {
  num_frames = 1;
  next_page_id = 10;
  shared = record {
    frames = used_frame ∷ [];
    arc_replacer = nine_evictable;
    disk_scheduler = idle;
  };
  free_frames = [];
  page_table = (9, 0) ∷ [];
}

frames-AreFrames : AreFrames 1 full.shared.frames
frames-AreFrames = record {
  count = refl;
  placed = λ i f e. ground (arith, e);
  whole = λ i f e. whole i f e;
}
  where
    whole :
        (i : ℕ) (f : FrameHeader)
        → get_elem? full.shared.frames i ≡ some f
        → length f.bytes ≡ page_size
    whole zero f e = ap (λ (g : FrameHeader). length g.bytes) (sym (some_inj e)) ∙ length-zero_page
    whole (suc i) f e = cc

pub full-IsReady : IsReady full
unfolding stack_of
full-IsReady = record {
  pool = record { distinct = (refl, tt); owned = Perm.refl _; frames = frames-AreFrames };
  disk = two_pages-IsValid;
  running = refl;
}

abbrev seven : List ℕ
seven = read_at zeros (1 * page_size) page_size

pub evict_nine : evict nine_evictable ≡ some (some 0, nine_evicted)
unfolding evict evict_from_mru_ghost scan unstamp
evict_nine = refl

seven-Available : Available full 7
unfolding page_of_frame
seven-Available = evictable 0 9 nine_evicted refl refl evict_nine refl

seven-content : content full 7 ≡ some seven
seven-content = content_absent full 7 refl ∙ contents_known two_pages 7 (1 * page_size) refl

length-seven : length seven ≡ page_size
length-seven = length-read_at zeros (1 * page_size) page_size (omega arith)

find_frame-keeps_example :
    ((find_frame never full 7 ≡ none) × ¬ Available full 7)
    ⊎ ((i : ℕ) × (q : BufferPoolManager) × (find_frame never full 7 ≡ some (i, q))
        × Serves full q 7 i
        × Available full 7)
find_frame-keeps_example =
    find_frame-keeps never full 7 seven full-IsReady (λ n. no_faults-Succeeds) length-seven
      seven-content (omega arith)

check_page-Serves_example :
    (i : ℕ) × (p1 : BufferPoolManager) × (f : FrameHeader) × (find_frame never full 7
      ≡ some (i, p1))
    × (frame_at p1.shared i ≡ some f)
    × (f.bytes ≡ seven)
    × (((record_access 100 p1.shared.arc_replacer i 7 ≡ none)
          × (check_read_page never 100 full 7 ≡ none)
          × (check_write_page never 100 full 7 ≡ none))
        ⊎ ((p' : BufferPoolManager) × (check_read_page never 100 full 7
              ≡ some (some (record { page_id = 7; frame = i; is_valid = true }), p'))
            × (check_write_page never 100 full 7
                ≡ some (some (record { page_id = 7; frame = i; is_valid = true }), p'))
            × (frame_at p'.shared i ≡ some (Frame.pin f))
            × IsReady p'
            × (Assoc.get p'.page_table 7 ≡ some i)
            × (p'.shared.disk_scheduler.disk_manager.num_writes
                ≤ full.shared.disk_scheduler.disk_manager.num_writes + 1)
            × ((k : ℕ) → content p' k ≡ content full k)))
check_page-Serves_example =
    check_page-Serves never 100 full 7 seven full-IsReady (λ n. no_faults-Succeeds) length-seven
      seven-content (omega arith) seven-Available
