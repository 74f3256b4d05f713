-- ===== src/Guard/Flushing.antt =====
-- src/guard.rs: `flush`, which brings a dirty frame to the disk.
use buffer_pool.Base.{
  ℕ, ◌+◌, ◌<◌, ◌≡◌, refl, sym, ap, ◌∙◌, ◌≢◌, inl, inr, true, false, ◌&&◌, Option, none, some, List,
  arith, ◌==◌, if◌then◌else◌, Bool-cases, length, set, length-set, get_elem?-set_self,
  get_elem?-set_ne, take_all,
}
use buffer_pool.Base.Assoc
use buffer_pool.Common.{page_size, u64_size}
use buffer_pool.Disk.FileIo.{Io}
use buffer_pool.Disk.{DiskManager, write_page}
use buffer_pool.Disk.Slots.{Succeeds}
use buffer_pool.Disk.Slots
use buffer_pool.Disk.Writing.{write_page-seek_fails}
use buffer_pool.Disk.Contents.{contents, contents-write_page}
use buffer_pool.Frame.{FrameHeader}
use buffer_pool.Scheduler.{Worker, write, answered}
use buffer_pool.Scheduler.Replies.{perform_write, perform_write_failed}
use buffer_pool.Scheduler.Blocking.{ask, ask_answer}
use buffer_pool.Guard.{
  Shared, WritePageGuard, frame_at, set_frame, flush_frame, flush_write, data_mut, data_write,
}
use buffer_pool.Guard.Pins.{lt-length}

abbrev pub disk : Shared → DiskManager
disk s = s.disk_scheduler.disk_manager

abbrev pub cleaned : FrameHeader → FrameHeader
cleaned f = record f { is_dirty = false }

-- The worker and its disk are in order.
pub record IsServing (s : Shared) : Type 0 where
  pub running : s.disk_scheduler.running ≡ true
  pub slots : Slots.IsValid (disk s)
  pub counted : (disk s).num_writes + 1 < u64_size

module _ (faults : ℕ → Io) (s : Shared) (page_id i : ℕ) (f : FrameHeader)
    (at : frame_at s i ≡ some f) where
  abbrev flushed : Worker → Shared
  flushed w = record s { disk_scheduler = w; frames = set s.frames i (cleaned f) }

  flush_dirty :
      (answer : Option (List ℕ)) (w : Worker)
      → f.is_dirty ≡ true
      → ask faults s.disk_scheduler write page_id f.bytes ≡ some (answer, w)
      → flush_frame faults s page_id i ≡ some (true, flushed w)
  unfolding flush_frame
  flush_dirty answer w dirty asked = rw (at, flush_frame) (rw dirty (rw asked refl))

  flush_clean : f.is_dirty ≡ false → flush_frame faults s page_id i ≡ some (false, s)
  unfolding flush_frame
  flush_clean clean = rw (at, flush_frame) (rw clean refl)

  frame_at-flushed : (w : Worker) → frame_at (flushed w) i ≡ some (cleaned f)
  frame_at-flushed w = get_elem?-set_self s.frames i (cleaned f) (lt-length s.frames i f at)

-- What a flush has done to the shared state.
pub record Flushed (s s' : Shared) (page_id i : ℕ) (f : FrameHeader) : Type 0 where
  pub at : frame_at s' i ≡ some (cleaned f)
  pub others : (j : ℕ) → i ≢ j → frame_at s' j ≡ frame_at s j
  pub replacer : s'.arc_replacer ≡ s.arc_replacer
  pub size : length s'.frames ≡ length s.frames
  pub running : s'.disk_scheduler.running ≡ true
  pub slots : Slots.IsValid (disk s')
  pub holds :
      (k : ℕ)
      → contents (disk s') k
        ≡ (if f.is_dirty && page_id == k then some f.bytes else contents (disk s) k)

pub flush_frame-Flushed :
    (faults : ℕ → Io) (s : Shared) (page_id i : ℕ) (f : FrameHeader)
    → Succeeds (faults s.disk_scheduler.served)
    → IsServing s
    → frame_at s i ≡ some f
    → length f.bytes ≡ page_size
    → (s' : Shared) × (flush_frame faults s page_id i ≡ some (f.is_dirty, s'))
      × Flushed s s' page_id i f
flush_frame-Flushed faults s page_id i f ok_io v at len = elim (Bool-cases f.is_dirty) [
  | inr clean ↦ (
    s,
    flush_clean faults s page_id i f at clean ∙ ap (λ b. some (b, s)) (sym clean),
    record {
      at = at ∙ ap (λ b. some (record f { is_dirty = b })) clean;
      others = λ j ne. refl;
      replacer = refl;
      size = refl;
      running = v.running;
      slots = v.slots;
      holds = λ k. rw clean refl;
    },
  )
  | inl dirty ↦
      let io = faults s.disk_scheduler.served in
      let d1 = (write_page io (disk s) page_id f.bytes).1 in
      let (result, valid, holds) =
        contents-write_page io (disk s) page_id f.bytes ok_io (omega (arith, len)) v.counted
          v.slots in
      let w = answered s.disk_scheduler s.disk_scheduler.served (some (some f.bytes)) d1 in
      (
        flushed faults s page_id i f at w,
        flush_dirty faults s page_id i f at (some f.bytes) w dirty (
              ask_answer faults s.disk_scheduler v.running page_id write f.bytes (some f.bytes) d1
                (perform_write io (disk s) page_id f.bytes result))
            ∙ ap (λ b. some (b, flushed faults s page_id i f at w)) (sym dirty),
        record {
          at = frame_at-flushed faults s page_id i f at w;
          others = λ j ne. get_elem?-set_ne s.frames i j (cleaned f) ne;
          replacer = refl;
          size = length-set s.frames i (cleaned f);
          running = v.running;
          slots = valid;
          holds = λ k. holds k ∙ rw (dirty, take_all page_size f.bytes len) refl;
        },
      )
]

-- Without faults, `flush` says whether the frame was dirty, and leaves it clean. Of a dirty frame
-- the disk then holds the bytes under the guard's page, and no other page of the disk changes; a
-- clean frame changes no page.
pub flush_frame-stores :
    (faults : ℕ → Io) (s : Shared) (page_id i : ℕ) (f : FrameHeader)
    → Succeeds (faults s.disk_scheduler.served)
    → IsServing s
    → frame_at s i ≡ some f
    → length f.bytes ≡ page_size
    → (s' : Shared) × (flush_frame faults s page_id i ≡ some (f.is_dirty, s'))
      × (frame_at s' i ≡ some (cleaned f))
      × Slots.IsValid (disk s')
      × ((k : ℕ)
          → contents (disk s') k
            ≡ (if f.is_dirty && page_id == k then some f.bytes else contents (disk s) k))
flush_frame-stores faults s page_id i f ok_io v at len =
    let (s', flushes, done) = flush_frame-Flushed faults s page_id i f ok_io v at len in
    (s', flushes, done.at, done.slots, done.holds)

-- What the holder of a write guard writes is on the disk after a flush without faults, and in the
-- frame, and no other page of the disk changes.
pub flush_write-data_mut :
    (faults : ℕ → Io) (s : Shared) (g : WritePageGuard) (f : FrameHeader) (edit : List ℕ → List ℕ)
    → Succeeds (faults s.disk_scheduler.served)
    → IsServing s
    → g.is_valid ≡ true
    → frame_at s g.frame ≡ some f
    → length (edit f.bytes) ≡ page_size
    → (s1 : Shared) × (s2 : Shared) × (data_mut s g edit ≡ some s1)
      × (flush_write faults s1 g ≡ some (true, s2))
      × (data_write s2 g ≡ some (edit f.bytes))
      × ((k : ℕ)
          → contents (disk s2) k
            ≡ (if g.page_id == k then some (edit f.bytes) else contents (disk s) k))
unfolding data_mut flush_write data_write
flush_write-data_mut faults s g f edit ok_io v valid at len =
    let f1 : FrameHeader = record f { is_dirty = true; bytes = edit f.bytes } in
    let s1 = set_frame s g.frame f1 in
    let at1 = get_elem?-set_self s.frames g.frame f1 (lt-length s.frames g.frame f at) in
    let v1 : IsServing s1 = record { running = v.running; slots = v.slots; counted = v.counted } in
    let (s2, flushes, there, _, holds) =
      flush_frame-stores faults s1 g.page_id g.frame f1 ok_io v1 at1 len in
    (
      s1,
      s2,
      rw (at, data_mut) refl,
      rw (valid, flush_write) flushes,
      rw (there, data_write) refl,
      holds,
    )

-- If the disk knows the page but cannot seek to it, and the worker runs, `flush` of a dirty frame
-- reports success and leaves the frame clean all the same, though the disk is unchanged.
pub flush_frame_hides_failure :
    (faults : ℕ → Io) (s : Shared) (page_id i off : ℕ) (f : FrameHeader)
    → (faults s.disk_scheduler.served).seeks ≡ false
    → s.disk_scheduler.running ≡ true
    → Assoc.get (disk s).pages page_id ≡ some off
    → frame_at s i ≡ some f
    → f.is_dirty ≡ true
    → (s' : Shared) × (flush_frame faults s page_id i ≡ some (true, s'))
      × (frame_at s' i ≡ some (cleaned f))
      × (disk s' ≡ disk s)
flush_frame_hides_failure faults s page_id i off f fails on known at dirty =
    let io = faults s.disk_scheduler.served in
    let w = answered s.disk_scheduler s.disk_scheduler.served (some none) (disk s) in
    (
      flushed faults s page_id i f at w,
      flush_dirty faults s page_id i f at none w dirty (
          ask_answer faults s.disk_scheduler on page_id write f.bytes none (disk s) (
            perform_write_failed io (disk s) (disk s) page_id f.bytes
              (write_page-seek_fails io (disk s) page_id off f.bytes fails known))),
      frame_at-flushed faults s page_id i f at w,
      refl,
    )
