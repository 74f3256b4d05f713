-- ===== src/Pool.antt =====
-- src/buffer_pool.rs: the buffer pool manager.
--
-- Every method holds the latch from its start to its end, so it is one step on the pool's state.
-- `free_frames` is a stack whose top is the head of the list. `page_table.iter()` visits a hash map
-- in an order that the language leaves open: here it is the order of the list. `none` is a panic.
-- `now` is the clock, read once in a call; it goes into the replacer's timestamps, which nothing
-- reads.
pub mod Loading
pub mod Frames
pub mod Evicting
pub mod Serving
pub mod Guards
pub mod Creating
pub mod Deleting
pub mod Flushing
pub mod Editing
pub mod Calm
use buffer_pool.Base.{
  ℕ, zero, suc, ◌+◌, ◌-◌, ◌*◌, ◌/◌, ◌%◌, ◌^◌, ◌≤◌, ◌<◌, ◌≡◌, refl, sym, ap, ap₂, subst, ◌∙◌, ◌≢◌,
  ◌↔◌, ◌⊎◌, inl, inr, Bool, true, false, not, ◌&&◌, ◌||◌, Option, none, some, List, [], ◌∷◌, ◌++◌,
  map, Mem, Nodup, Perm, arith, dec_lt, dec_le, ℕ_discrete, ltb, leb, ◌==◌, if◌then◌else◌, ltb→lt,
  lt→ltb, leb→le, ==_iff, ==_self, Bool-cases, Option-cases, ◌>>=◌, ◌>>◌, require, List-cases,
  not-ltb, eq_of_==, ne_of_==, ==_of_ne, >>=-eq-some, some_inj, of_some, if_true, if_false, length,
  get_elem?, get_or, set, take, drop, replicate, remove_at, pop_back, retain, any, length-append,
  length-set, get_elem?-set_self, get_elem?-set_ne, length-take, length-drop, length-replicate,
  take-length, take_all, length-retain-le, length-remove_at, length-pop_back, contains, insert_set,
  remove_set, drop_all, length-map,
}
use buffer_pool.Base.Assoc
use buffer_pool.Common.{page_size, u32_size}
use buffer_pool.Disk.FileIo.{Io}
use buffer_pool.Disk.{DiskManager}
use buffer_pool.Frame.{FrameHeader, zero_page}
use buffer_pool.Frame
use buffer_pool.Arc
use buffer_pool.Scheduler.{Worker, read, write, delete}
use buffer_pool.Scheduler
use buffer_pool.Scheduler.Blocking.{ask}
use buffer_pool.Guard.{
  Shared, WritePageGuard, ReadPageGuard, frame_at, set_frame, new_write, new_read, flush_read,
  drop_read,
}

pub record BufferPoolManager : Type 0 where
  pub num_frames : ℕ
  pub next_page_id : ℕ
  pub shared : Shared
  pub free_frames : List ℕ
  pub page_table : List (ℕ × ℕ)

-- The loop of `new`, at frame `i` with `n` frames to go; and its stack of free frames.
unfoldable pub frames_from : ℕ → ℕ → List FrameHeader
frames_from zero i = []
frames_from (suc n) i = Frame.new i ∷ frames_from n (i + 1)

unfoldable pub stack_of : ℕ → List ℕ
stack_of zero = []
stack_of (suc n) = n ∷ stack_of n

unfoldable pub new : ℕ → DiskManager → BufferPoolManager
unfolding frames_from stack_of
new num_frames disk_manager = record {
  num_frames = num_frames;
  next_page_id = 0;
  shared = record {
    frames = frames_from num_frames 0;
    arc_replacer = Arc.new num_frames;
    disk_scheduler = (Scheduler.new disk_manager).worker;
  };
  free_frames = stack_of num_frames;
  page_table = [];
}

-- The key of the first entry with the value, in the order of iteration.
unfoldable pub page_of_frame : ℕ → List (ℕ × ℕ) → Option ℕ
page_of_frame frame_id [] = none
page_of_frame frame_id ((page_id, f) ∷ m) =
    if f == frame_id then some page_id else page_of_frame frame_id m

module _ (faults : ℕ → Io) where
  -- The answer of the disk is waited for, and not looked at.
  unfoldable pub new_page : BufferPoolManager → Option (ℕ × BufferPoolManager)
  new_page p = do
    (answer, w) ← ask faults p.shared.disk_scheduler write p.next_page_id zero_page
    some (
      p.next_page_id,
      record p {
        next_page_id = (p.next_page_id + 1) % u32_size;
        shared = record p.shared { disk_scheduler = w };
      },
    )

  -- `delete_page` of a page in an unpinned frame.
  unfoldable pub delete_resident :
      BufferPoolManager → ℕ → ℕ → FrameHeader → Option BufferPoolManager
  delete_resident p page_id frame_id frame = do
    (answer, w) ← ask faults p.shared.disk_scheduler delete page_id zero_page
    some (record p {
      page_table = Assoc.remove page_id p.page_table;
      free_frames = frame_id ∷ p.free_frames;
      shared = record {
        frames = set p.shared.frames frame_id (Frame.reset frame);
        arc_replacer = Arc.remove p.shared.arc_replacer frame_id;
        disk_scheduler = w;
      };
    })

  unfoldable pub delete_page : BufferPoolManager → ℕ → Option BufferPoolManager
  unfolding delete_resident
  delete_page p page_id = elim (Assoc.get p.page_table page_id) [
    | none ↦ some p
    | some frame_id ↦ do
      frame ← frame_at p.shared frame_id
      if ltb 0 frame.pin_count then some p else delete_resident p page_id frame_id frame
  ]

  -- `copy_from_slice` panics if the lengths differ.
  unfoldable pub fill_frame : Shared → ℕ → List ℕ → Option Shared
  fill_frame s frame_id bytes = do
    frame ← frame_at s frame_id
    require (length frame.bytes == length bytes)
    some (set_frame s frame_id (record frame { bytes = bytes }))

  -- A page that is not in the pool is read into the frame on top of the free ones.
  unfoldable pub load_page : BufferPoolManager → ℕ → List ℕ → Option (ℕ × BufferPoolManager)
  unfolding fill_frame
  load_page p page_id [] = none
  load_page p page_id (frame_id ∷ rest) = do
    (answer, w) ← ask faults p.shared.disk_scheduler read page_id zero_page
    bytes ← answer
    s ← fill_frame (record p.shared { disk_scheduler = w }) frame_id bytes
    some (
      frame_id,
      record p {
        free_frames = rest;
        shared = s;
        page_table = Assoc.insert page_id frame_id p.page_table;
      },
    )

  -- A frame that the replacer gives up is written to the disk, under the page that is in it, and
  -- goes to the free ones. The pins of the frame are not looked at, nor is the disk's answer.
  unfoldable pub evict_page : BufferPoolManager → Option BufferPoolManager
  evict_page p = do
    (evicted, arc) ← Arc.evict p.shared.arc_replacer
    frame_id ← evicted
    frame ← frame_at p.shared frame_id
    old_page_id ← page_of_frame frame_id p.page_table
    (answer, w) ← ask faults p.shared.disk_scheduler write old_page_id frame.bytes
    some (record p {
      free_frames = frame_id ∷ p.free_frames;
      page_table = Assoc.remove old_page_id p.page_table;
      shared = record {
        frames = set p.shared.frames frame_id (Frame.reset frame);
        arc_replacer = arc;
        disk_scheduler = w;
      };
    })

  -- A page that is not in the pool gets a free frame, else the frame of an evicted page.
  unfoldable pub find_absent : BufferPoolManager → ℕ → List ℕ → Option (ℕ × BufferPoolManager)
  unfolding load_page evict_page
  find_absent p page_id [] = do p' ← evict_page p; load_page p' page_id p'.free_frames
  find_absent p page_id (frame_id ∷ rest) = load_page p page_id (frame_id ∷ rest)

  unfoldable pub find_frame : BufferPoolManager → ℕ → Option (ℕ × BufferPoolManager)
  find_frame p page_id = elim (Assoc.get p.page_table page_id) [
    | some frame_id ↦ some (frame_id, p)
    | none ↦ find_absent p page_id p.free_frames
  ]

  unfoldable pub check_write_page :
      ℕ → BufferPoolManager → ℕ → Option (Option WritePageGuard × BufferPoolManager)
  check_write_page now p page_id = do
    (frame_id, p') ← find_frame p page_id
    (guard, s) ← new_write now p'.shared page_id frame_id
    some (some guard, record p' { shared = s })

  unfoldable pub check_read_page :
      ℕ → BufferPoolManager → ℕ → Option (Option ReadPageGuard × BufferPoolManager)
  check_read_page now p page_id = do
    (frame_id, p') ← find_frame p page_id
    (guard, s) ← new_read now p'.shared page_id frame_id
    some (some guard, record p' { shared = s })

  -- A guard is made, flushes, and is dropped.
  unfoldable pub flush_entry : ℕ → Shared → ℕ → ℕ → Option (Bool × Shared)
  unfolding new_read flush_read drop_read
  flush_entry now s page_id frame_id = do
    (guard, s1) ← new_read now s page_id frame_id
    (flushed, s2) ← flush_read faults s1 guard
    (_, s3) ← drop_read s2 guard
    some (flushed, s3)

  unfoldable pub flush_page : ℕ → BufferPoolManager → ℕ → Option (Bool × BufferPoolManager)
  unfolding flush_entry
  flush_page now p page_id = elim (Assoc.get p.page_table page_id) [
    | none ↦ some (false, p)
    | some frame_id ↦ do
      (flushed, s) ← flush_entry now p.shared page_id frame_id
      some (flushed, record p { shared = s })
  ]

  unfoldable pub flush_entries : ℕ → Shared → List (ℕ × ℕ) → Option Shared
  unfolding flush_entry
  flush_entries now s [] = some s
  flush_entries now s ((page_id, frame_id) ∷ rest) =
      flush_entry now s page_id frame_id >>= λ result. flush_entries now result.1 rest

  unfoldable pub flush_all_pages : ℕ → BufferPoolManager → Option (Bool × BufferPoolManager)
  unfolding flush_entries
  flush_all_pages now p = elim p.page_table [
    | [] ↦ some (false, p)
    | _ ∷ _ ↦ do s ← flush_entries now p.shared p.page_table; some (true, record p { shared = s })
  ]
