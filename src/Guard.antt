-- ===== src/Guard.antt =====
-- src/guard.rs: read and write guards, which pin a frame while they live.
--
-- Guards share the frames, the replacer and the scheduler with the pool, so all of them act on one
-- record of shared state, and a guard names its frame by the place in it. Both kinds of guard run
-- the same code but for `data_mut`. No lock of a page outlives a call.
pub mod Pins
pub mod Flushing
use buffer_pool.Base.{
  ℕ, zero, suc, ◌+◌, ◌-◌, ◌*◌, ◌/◌, ◌%◌, ◌^◌, ◌≤◌, ◌<◌, ◌≡◌, refl, sym, ap, ap₂, subst, ◌∙◌, ◌≢◌,
  ◌↔◌, ◌⊎◌, inl, inr, Bool, true, false, not, ◌&&◌, ◌||◌, Option, none, some, List, [], ◌∷◌, ◌++◌,
  map, Mem, Nodup, Perm, arith, dec_lt, dec_le, ℕ_discrete, ltb, leb, ◌==◌, if◌then◌else◌, ltb→lt,
  lt→ltb, leb→le, ==_iff, ==_self, Bool-cases, Option-cases, ◌>>=◌, ◌>>◌, require, List-cases,
  not-ltb, eq_of_==, ne_of_==, ==_of_ne, >>=-eq-some, some_inj, of_some, if_true, if_false, length,
  get_elem?, get_or, set, take, drop, replicate, remove_at, pop_back, retain, any, length-append,
  length-set, get_elem?-set_self, get_elem?-set_ne, length-take, length-drop, length-replicate,
  take-length, take_all, length-retain-le, length-remove_at, length-pop_back, contains, insert_set,
  remove_set, drop_all,
}
use buffer_pool.Disk.FileIo.{Io}
use buffer_pool.Frame.{FrameHeader}
use buffer_pool.Frame
use buffer_pool.Arc.{ArcReplacer, record_access, set_evictable}
use buffer_pool.Scheduler.{Worker, write}
use buffer_pool.Scheduler.Blocking.{ask}

-- What `Arc` shares between the pool and its guards.
pub record Shared : Type 0 where
  pub frames : List FrameHeader
  pub arc_replacer : ArcReplacer
  pub disk_scheduler : Worker

pub record WritePageGuard : Type 0 where
  pub page_id : ℕ
  pub frame : ℕ
  pub is_valid : Bool

pub record ReadPageGuard : Type 0 where
  pub page_id : ℕ
  pub frame : ℕ
  pub is_valid : Bool

-- `frames[i]`, which panics out of range, and the change of one frame.
abbrev pub frame_at : Shared → ℕ → Option FrameHeader
frame_at s i = get_elem? s.frames i

abbrev pub set_frame : Shared → ℕ → FrameHeader → Shared
set_frame s i f = record s { frames = set s.frames i f }

-- The body of both `new`: the frame is pinned and the access recorded.
unfoldable pub acquire : ℕ → Shared → ℕ → ℕ → Option Shared
acquire now s page_id i = do
  f ← frame_at s i
  arc ← record_access now s.arc_replacer f.frame_id page_id
  some (record s { frames = set s.frames i (Frame.pin f); arc_replacer = arc })

unfoldable pub new_write : ℕ → Shared → ℕ → ℕ → Option (WritePageGuard × Shared)
unfolding acquire
new_write now s page_id i = do
  s' ← acquire now s page_id i
  some (record { page_id = page_id; frame = i; is_valid = true }, s')

unfoldable pub new_read : ℕ → Shared → ℕ → ℕ → Option (ReadPageGuard × Shared)
unfolding acquire
new_read now s page_id i = do
  s' ← acquire now s page_id i
  some (record { page_id = page_id; frame = i; is_valid = true }, s')

-- The body of both `flush`, for a valid guard: a dirty frame is written to the disk. The answer of
-- the disk is waited for, and not looked at.
unfoldable pub flush_frame : (ℕ → Io) → Shared → ℕ → ℕ → Option (Bool × Shared)
flush_frame faults s page_id i = do
  f ← frame_at s i
  if f.is_dirty
      then (do
        (answer, w) ← ask faults s.disk_scheduler write page_id f.bytes
        some (
          true,
          record s { disk_scheduler = w; frames = set s.frames i (record f { is_dirty = false }) },
        ))
      else some (false, s)

unfoldable pub flush_write : (ℕ → Io) → Shared → WritePageGuard → Option (Bool × Shared)
unfolding flush_frame
flush_write faults s g =
    if g.is_valid then flush_frame faults s g.page_id g.frame else some (false, s)

unfoldable pub flush_read : (ℕ → Io) → Shared → ReadPageGuard → Option (Bool × Shared)
unfolding flush_frame
flush_read faults s g =
    if g.is_valid then flush_frame faults s g.page_id g.frame else some (false, s)

-- `data_mut` marks the frame dirty; `edit` is what the holder does with the bytes.
unfoldable pub data_mut : Shared → WritePageGuard → (List ℕ → List ℕ) → Option Shared
data_mut s g edit = do
  f ← frame_at s g.frame
  some (set_frame s g.frame (record f { is_dirty = true; bytes = edit f.bytes }))

unfoldable pub data_write : Shared → WritePageGuard → Option (List ℕ)
data_write s g = do f ← frame_at s g.frame; some f.bytes

unfoldable pub data_read : Shared → ReadPageGuard → Option (List ℕ)
data_read s g = do f ← frame_at s g.frame; some f.bytes

-- The body of both `drop`, for a valid guard: the frame is unpinned, and evictable at no pins.
unfoldable pub release : Shared → ℕ → Option Shared
release s i = do
  f ← frame_at s i
  let s' = set_frame s i (Frame.unpin f)
  if (Frame.unpin f).pin_count == 0
      then (do
        arc ← set_evictable s.arc_replacer f.frame_id
        some (record s' { arc_replacer = arc }))
      else some s'

unfoldable pub drop_write : Shared → WritePageGuard → Option (WritePageGuard × Shared)
unfolding release
drop_write s g = do
  s' ← if g.is_valid then release s g.frame else some s
  some (record g { is_valid = false }, s')

unfoldable pub drop_read : Shared → ReadPageGuard → Option (ReadPageGuard × Shared)
unfolding release
drop_read s g = do
  s' ← if g.is_valid then release s g.frame else some s
  some (record g { is_valid = false }, s')
