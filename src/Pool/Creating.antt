-- ===== src/Pool/Creating.antt =====
-- `new` and `new_page`: the pool at its start, and a page that is added to it.
use mathlib.Core.List.Perm
use buffer_pool.Base.{
  ℕ, zero, suc, ◌+◌, ◌%◌, ◌≤◌, ◌<◌, ◌≡◌, refl, sym, ap, ◌∙◌, inl, inr, none, some, arith, ◌==◌,
  if◌then◌else◌, Bool-cases, Option-cases, eq_of_==, some_inj, if_true, if_false, length, get_elem?,
  take_all,
}
use buffer_pool.Base.Assoc
use buffer_pool.Base.Assoc.{values, Distinct}
use buffer_pool.Common.{page_size, u64_size}
use buffer_pool.Disk.FileIo.{Io}
use buffer_pool.Disk.{DiskManager, write_page}
use buffer_pool.Disk.Writing.{num_writes-write_page}
use buffer_pool.Disk.Slots.{Succeeds}
use buffer_pool.Disk.Slots
use buffer_pool.Disk.Contents.{contents, contents-write_page}
use buffer_pool.Frame.{FrameHeader, zero_page, length-zero_page}
use buffer_pool.Frame
use buffer_pool.Scheduler
use buffer_pool.Scheduler.{Worker, read, write, answered}
use buffer_pool.Scheduler.Replies.{perform_write}
use buffer_pool.Scheduler.Blocking.{ask_answer}
use buffer_pool.Pool.{BufferPoolManager, stack_of}
use buffer_pool.Pool.Loading.{disk_of, content, content_resident, content_absent, IsReady, replied}
use buffer_pool.Common.{u32_size}
use buffer_pool.Pool.{new_page, frames_from, new}

get-frames_from :
    (n start i : ℕ) (f : FrameHeader)
    → get_elem? (frames_from n start) i ≡ some f
    → (f.frame_id ≡ start + i) × (length f.bytes ≡ page_size)
unfolding frames_from Frame.new
get-frames_from zero start i f e = cc
get-frames_from (suc n) start zero f e = (
  ap (λ (g : FrameHeader). g.frame_id) (sym (some_inj e)) ∙ omega arith,
  ap (λ (g : FrameHeader). length g.bytes) (sym (some_inj e)) ∙ length-zero_page,
)
get-frames_from (suc n) start (suc i) f e =
    let (id, full) = get-frames_from n (start + 1) i f e in (omega (arith, id), full)

length-frames_from : (n start : ℕ) → length (frames_from n start) ≡ n
unfolding frames_from
length-frames_from zero start = refl
length-frames_from (suc n) start = omega (arith, length-frames_from n (start + 1))

-- A new pool is in order if its disk is; all its frames are free, and every page holds what the
-- disk holds.
pub new-IsReady :
    (num_frames : ℕ) (d : DiskManager)
    → Slots.IsValid d
    → IsReady (new num_frames d)
      × ((new num_frames d).free_frames ≡ stack_of num_frames)
      × ((k : ℕ) → content (new num_frames d) k ≡ contents d k)
unfolding new Scheduler.new
new-IsReady n d v = (
  record {
    pool = record {
      distinct = tt;
      owned = Perm.refl (stack_of n);
      frames = record {
        count = length-frames_from n 0;
        placed = λ i f e. (get-frames_from n 0 i f e).0 ∙ omega arith;
        whole = λ i f e. (get-frames_from n 0 i f e).1;
      };
    };
    disk = v;
    running = refl;
  },
  refl,
  λ k. content_absent (new n d) k refl,
)

abbrev pub created : BufferPoolManager → DiskManager → BufferPoolManager
created p d = record p {
  next_page_id = (p.next_page_id + 1) % u32_size;
  shared = record p.shared { disk_scheduler = replied p.shared.disk_scheduler zero_page d };
}

content-created :
    (p : BufferPoolManager) (d : DiskManager)
    → Assoc.get p.page_table p.next_page_id ≡ none
    → ((k : ℕ)
        → contents d k ≡ (if p.next_page_id == k then some zero_page else contents (disk_of p) k))
    → (k : ℕ)
    → content (created p d) k ≡ (if p.next_page_id == k then some zero_page else content p k)
content-created p d absent holds k = elim (Bool-cases (p.next_page_id == k)) [
  | inl same ↦
      content_absent (created p d) k
        (ap (Assoc.get p.page_table) (sym (eq_of_== p.next_page_id k same)) ∙ absent)
      ∙ holds k
      ∙ if_true _ _ same
      ∙ sym (if_true _ _ same)
  | inr other ↦
      elim (Option-cases (Assoc.get p.page_table k)) [
        | inl none_there ↦
            content_absent (created p d) k none_there
            ∙ holds k
            ∙ if_false _ _ other
            ∙ sym (content_absent p k none_there)
        | inr (j, there) ↦
            content_resident (created p d) k j there ∙ sym (content_resident p k j there)
      ]
      ∙ sym (if_false _ _ other)
]

-- The pool that `new_page` returns, with the disk that it wrote.
pub new_page-created :
    (faults : ℕ → Io) (p : BufferPoolManager)
    → IsReady p
    → Succeeds (faults p.shared.disk_scheduler.served)
    → (disk_of p).num_writes + 1 < u64_size
    → Assoc.get p.page_table p.next_page_id ≡ none
    → (d : DiskManager) × (new_page faults p ≡ some (p.next_page_id, created p d))
      × IsReady (created p d)
      × (d.num_writes ≤ (disk_of p).num_writes + 1)
      × ((k : ℕ)
          → content (created p d) k ≡ (if p.next_page_id == k then some zero_page else content p k))
unfolding new_page
new_page-created faults p r s counted absent =
    let io = faults p.shared.disk_scheduler.served in
    let d = (write_page io (disk_of p) p.next_page_id zero_page).1 in
    let (result, valid, holds) =
      contents-write_page io (disk_of p) p.next_page_id zero_page s
        (omega (arith, length-zero_page)) counted r.disk in
    let asked =
      ask_answer faults p.shared.disk_scheduler r.running p.next_page_id write zero_page
        (some zero_page) d (perform_write io (disk_of p) p.next_page_id zero_page result) in
    (
      d,
      rw (asked, new_page) refl,
      record {
        pool = record { distinct = r.pool.distinct; owned = r.pool.owned; frames = r.pool.frames };
        disk = valid;
        running = r.running;
      },
      num_writes-write_page io (disk_of p) p.next_page_id zero_page,
      content-created p d absent (λ k.
          holds k
          ∙ ap (λ b. if p.next_page_id == k then some b else contents (disk_of p) k)
              (take_all page_size zero_page length-zero_page)),
    )

-- `new_page` without faults hands out the next id, if no page in the pool has it: the page holds
-- zeros, all other pages hold what they held, and no frame is taken.
pub new_page-content :
    (faults : ℕ → Io) (p : BufferPoolManager)
    → IsReady p
    → Succeeds (faults p.shared.disk_scheduler.served)
    → (disk_of p).num_writes + 1 < u64_size
    → Assoc.get p.page_table p.next_page_id ≡ none
    → (p' : BufferPoolManager) × (new_page faults p ≡ some (p.next_page_id, p'))
      × IsReady p'
      × (p'.next_page_id ≡ (p.next_page_id + 1) % u32_size)
      × (p'.free_frames ≡ p.free_frames)
      × ((k : ℕ) → content p' k ≡ (if p.next_page_id == k then some zero_page else content p k))
new_page-content faults p r s counted absent =
    let (d, makes, ready, writes, holds) = new_page-created faults p r s counted absent in
    (created p d, makes, ready, refl, refl, holds)
