-- ===== src/Arc.antt =====
-- src/arc_replacer.rs: which frame the buffer pool gives up.
--
-- The front of a deque is the head of the list. `none` is a panic: a checked operation on `u32`
-- that overflows, or a failing `unwrap`. The time of an access is an argument. Lengths, and twice
-- the replacer's size, are numbers without a bound, since they count entries held in memory.
pub mod Scan
pub mod Stamps
pub mod Evicting
pub mod Bounds
pub mod Access
pub mod Cases
pub mod Removing
pub mod Histories
use buffer_pool.Base.{
  ℕ, zero, suc, ◌+◌, ◌-◌, ◌*◌, ◌/◌, ◌%◌, ◌^◌, ◌≤◌, ◌<◌, ◌≡◌, refl, sym, ap, ap₂, subst, ◌∙◌, ◌≢◌,
  ◌↔◌, ◌⊎◌, inl, inr, Bool, true, false, not, ◌&&◌, ◌||◌, Option, none, some, List, [], ◌∷◌, ◌++◌,
  map, Mem, Nodup, Perm, arith, dec_lt, dec_le, ℕ_discrete, ltb, leb, ◌==◌, if◌then◌else◌, ltb→lt,
  lt→ltb, leb→le, ==_iff, ==_self, Bool-cases, Option-cases, ◌>>=◌, ◌>>◌, require, List-cases,
  not-ltb, eq_of_==, ne_of_==, ==_of_ne, >>=-eq-some, some_inj, of_some, if_true, if_false, length,
  get_elem?, get_or, set, take, drop, replicate, remove_at, pop_back, retain, any, length-append,
  length-set, get_elem?-set_self, get_elem?-set_ne, length-take, length-drop, length-replicate,
  take-length, take_all, length-retain-le, length-remove_at, length-pop_back, contains, insert_set,
  remove_set, drop_all, length-map,
}
use buffer_pool.Common.{u32_size}
use Scan.{has, without, scan}
use Stamps.{stamp, unstamp}

pub record ArcReplacer : Type 0 where
  pub mru : List (ℕ × ℕ)
  pub mfu : List (ℕ × ℕ)
  pub timestamp_access : List ((ℕ × ℕ) × ℕ)
  pub mru_ghost : List ℕ
  pub mfu_ghost : List ℕ
  pub mru_target_size : ℕ
  pub replacer_size : ℕ
  pub curr_size : ℕ
  pub dirty_pages : List ℕ
  pub evictable_pages : List ℕ

unfoldable pub new : ℕ → ArcReplacer
new replacer_size = record {
  mru = [];
  mfu = [];
  timestamp_access = [];
  mru_ghost = [];
  mfu_ghost = [];
  mru_target_size = 0;
  replacer_size = replacer_size;
  curr_size = 0;
  dirty_pages = [];
  evictable_pages = [];
}

pub size : ArcReplacer → ℕ
size r = length r.evictable_pages

-- `a + b`, `a - b` and `n.try_into().unwrap()` at `u32`.
abbrev pub checked_add : ℕ → ℕ → Option ℕ
checked_add a b = if ltb (a + b) u32_size then some (a + b) else none

abbrev pub checked_sub : ℕ → ℕ → Option ℕ
checked_sub a b = if leb b a then some (a - b) else none

abbrev pub to_u32 : ℕ → Option ℕ
to_u32 n = if ltb n u32_size then some n else none

unfoldable pub set_evictable : ArcReplacer → ℕ → Option ArcReplacer
set_evictable r frame_id = do
  curr_size ← checked_add r.curr_size 1
  some (record r { evictable_pages = insert_set frame_id r.evictable_pages; curr_size = curr_size })

-- The target after a hit in the MRU ghost list. The test `&&` reads its second part only if the
-- first holds.
may_step_up : ArcReplacer → Option Bool
may_step_up r =
    if leb (length r.mfu_ghost) (length r.mru_ghost)
    then (do
      next ← checked_add r.mru_target_size 1
      size ← to_u32 r.replacer_size
      some (ltb next size))
    else some false

unfoldable pub raise_target : ArcReplacer → Option ℕ
unfolding may_step_up
raise_target r = do
  step ← may_step_up r
  let increase = length r.mfu_ghost / length r.mru_ghost % u32_size
  if step then checked_add r.mru_target_size 1 else (do
    next ← checked_add r.mru_target_size increase
    size ← to_u32 r.replacer_size
    some (if leb next size then next else r.mru_target_size))

-- The target after a hit in the MFU ghost list.
may_step_down : ArcReplacer → Option Bool
may_step_down r =
    if leb (length r.mru_ghost) (length r.mfu_ghost)
    then (do next ← checked_sub r.mru_target_size 1; some (ltb 0 next))
    else some false

unfoldable pub lower_target : ArcReplacer → Option ℕ
unfolding may_step_down
lower_target r = do
  step ← may_step_down r
  let decrease = length r.mru_ghost / length r.mfu_ghost % u32_size
  let kept =
      if leb decrease r.mru_target_size then r.mru_target_size - decrease else r.mru_target_size
  if step then checked_sub r.mru_target_size 1 else some kept

-- The last two parts of `record_access`: a page that no list knows.
unfoldable pub admit : ArcReplacer → ℕ × ℕ → ArcReplacer
admit r entry =
    if length r.mru + length r.mru_ghost == r.replacer_size
    then record r { mru_ghost = pop_back r.mru_ghost; mru = entry ∷ r.mru }
    else if ltb (length r.mru + length r.mru_ghost) r.replacer_size
    then (if length r.mru + length r.mfu + length r.mfu_ghost + length r.mru_ghost
          == 2 * r.replacer_size
        then record r { mfu_ghost = pop_back r.mfu_ghost; mru = entry ∷ r.mru }
        else record r { mru = entry ∷ r.mru })
    else r

-- The parts of `record_access` after the time is noted.
unfoldable pub note_access : ArcReplacer → ℕ → ℕ → Option ArcReplacer
note_access r frame_id page_id =
    let entry : ℕ × ℕ = (frame_id, page_id) in
    if has r.mru entry || has r.mfu entry
    then some (record r { mru = without entry r.mru; mfu = entry ∷ without entry r.mfu })
    else if contains r.mru_ghost page_id
    then (do
      target ← raise_target r
      some (record r {
        mru_target_size = target;
        mru_ghost = remove_set page_id r.mru_ghost;
        mfu = entry ∷ r.mfu;
      }))
    else if contains r.mfu_ghost page_id
    then (do
      target ← lower_target r
      some (record r {
        mru_target_size = target;
        mfu_ghost = remove_set page_id r.mfu_ghost;
        mfu = entry ∷ r.mfu;
      }))
    else some (admit r entry)

unfoldable pub record_access : ℕ → ArcReplacer → ℕ → ℕ → Option ArcReplacer
record_access now r frame_id page_id =
    note_access (record r { timestamp_access = stamp (frame_id, page_id) now r.timestamp_access })
      frame_id page_id

-- The two searches are named in the source for the ghost lists that they feed.
unfoldable pub evict_from_mfu_ghost : ArcReplacer → Option (Option ℕ × ArcReplacer)
evict_from_mfu_ghost r = elim (scan (length r.mfu) r.mfu r.evictable_pages) [
  | none ↦ some (none, r)
  | some (i, frame_id, page_id) ↦ do
    curr_size ← checked_sub r.curr_size 1
    some (
      some frame_id,
      record r {
        mfu = remove_at r.mfu i;
        mfu_ghost = page_id ∷ r.mfu_ghost;
        evictable_pages = remove_set frame_id r.evictable_pages;
        timestamp_access = unstamp (frame_id, page_id) r.timestamp_access;
        curr_size = curr_size;
      },
    )
]

unfoldable pub evict_from_mru_ghost : ArcReplacer → Option (Option ℕ × ArcReplacer)
evict_from_mru_ghost r = elim (scan (length r.mru) r.mru r.evictable_pages) [
  | none ↦ some (none, r)
  | some (i, frame_id, page_id) ↦ do
    curr_size ← checked_sub r.curr_size 1
    some (
      some frame_id,
      record r {
        mru = remove_at r.mru i;
        mru_ghost = page_id ∷ r.mru_ghost;
        evictable_pages = remove_set frame_id r.evictable_pages;
        timestamp_access = unstamp (frame_id, page_id) r.timestamp_access;
        curr_size = curr_size;
      },
    )
]

-- `if let Some(evicted) = first { return Some(evicted) }`, and then the second search.
abbrev or_else :
    Option (Option ℕ × ArcReplacer)
    → (ArcReplacer → Option (Option ℕ × ArcReplacer))
    → Option (Option ℕ × ArcReplacer)
or_else none second = none
or_else (some (some evicted, r)) second = some (some evicted, r)
or_else (some (none, r)) second = second r

unfoldable pub evict : ArcReplacer → Option (Option ℕ × ArcReplacer)
evict r =
    if leb r.mru_target_size (length r.mru)
    then or_else (evict_from_mru_ghost r) evict_from_mfu_ghost
    else or_else (evict_from_mfu_ghost r) evict_from_mru_ghost

-- The page that a `retain` over a list finds for a frame: that of the last entry it drops.
pub page_of : ℕ → List (ℕ × ℕ) → Option ℕ → Option ℕ
page_of frame_id [] found = found
page_of frame_id ((f, p) ∷ l) found = page_of frame_id l (if f == frame_id then some p else found)

abbrev without_frame : ℕ → List (ℕ × ℕ) → List (ℕ × ℕ)
without_frame frame_id = retain λ e. if e.0 == frame_id then false else true

-- The end of `remove`, with the page that was found: 0 stands for none in the ghost lists.
forget : ArcReplacer → ℕ → Option ℕ → ArcReplacer
forget r frame_id none = record r {
  mru_ghost = remove_set 0 r.mru_ghost;
  mfu_ghost = remove_set 0 r.mfu_ghost;
}
forget r frame_id (some page_id) = record r {
  timestamp_access = unstamp (frame_id, page_id) r.timestamp_access;
  evictable_pages = remove_set frame_id r.evictable_pages;
  dirty_pages = remove_set page_id r.dirty_pages;
  mru_ghost = remove_set page_id r.mru_ghost;
  mfu_ghost = remove_set page_id r.mfu_ghost;
}

-- The MFU list is searched only if the MRU list has no entry of the frame.
remove_from_mfu : ArcReplacer → ℕ → Option ℕ → ArcReplacer
unfolding forget page_of
remove_from_mfu r frame_id (some page_id) = forget r frame_id (some page_id)
remove_from_mfu r frame_id none =
    forget (record r { mfu = without_frame frame_id r.mfu }) frame_id (page_of frame_id r.mfu none)

unfoldable pub remove : ArcReplacer → ℕ → ArcReplacer
unfolding remove_from_mfu
remove r frame_id =
    if contains r.evictable_pages frame_id
    then r
    else remove_from_mfu (record r { mru = without_frame frame_id r.mru }) frame_id
        (page_of frame_id r.mru none)
