-- ===== src/Pool/Editing.antt =====
-- A page that is written through a guard: `data_mut`, and the drop of the guard.
use buffer_pool.Base.{
  ℕ, ◌+◌, ◌<◌, ◌≡◌, refl, sym, ap, ◌∙◌, ◌≢◌, inl, inr, true, false, some, List, ℕ_discrete, ◌==◌,
  if◌then◌else◌, Bool-cases, Option-cases, ◌>>=◌, eq_of_==, ne_of_==, some_inj, if_true, if_false,
  length, length-set, get_elem?-set_self, get_elem?-set_ne,
}
use buffer_pool.Base.Assoc
use buffer_pool.Base.Assoc.{values, Distinct}
use buffer_pool.Common.{page_size}
use buffer_pool.Frame.{FrameHeader, zero_page, length-zero_page}
use buffer_pool.Frame
use buffer_pool.Guard.{Shared, frame_at}
use buffer_pool.Pool.{BufferPoolManager}
use buffer_pool.Pool.Frames.{used-lt}
use buffer_pool.Pool.Loading.{content, content_resident, content_absent, IsReady}
use buffer_pool.Scheduler.{Worker}
use buffer_pool.Disk.Contents.{contents}
use buffer_pool.Common.{u32_size}
use buffer_pool.Guard.Flushing.{disk}
use buffer_pool.Guard.{WritePageGuard, set_frame, data_mut, drop_write}
use buffer_pool.Pool.Frames.{used_apart}
use buffer_pool.Guard.Pins.{release-unpins}

-- `s` is the shared state of the pool `p` with other bytes in frame `i`.
pub record Edited (p : BufferPoolManager) (s : Shared) (i : ℕ) (f g : FrameHeader) : Type 0 where
  pub at : frame_at s i ≡ some g
  pub id : g.frame_id ≡ f.frame_id
  pub full : length g.bytes ≡ page_size
  pub others : (j : ℕ) → i ≢ j → frame_at s j ≡ frame_at p.shared j
  pub scheduler : s.disk_scheduler ≡ p.shared.disk_scheduler
  pub size : length s.frames ≡ length p.shared.frames

module _ (p : BufferPoolManager) (page_id i : ℕ) (f g : FrameHeader) (s : Shared) (r : IsReady p)
    (there : Assoc.get p.page_table page_id ≡ some i) (at : frame_at p.shared i ≡ some f)
    (ed : Edited p s i f g) where
  abbrev pub edited : BufferPoolManager
  edited = record p { shared = s }

  pub edited-IsReady : IsReady edited
  edited-IsReady = record {
    pool = record {
      distinct = r.pool.distinct;
      owned = r.pool.owned;
      frames = record {
        count = ed.size ∙ r.pool.frames.count;
        placed = λ j h e. elim (ℕ_discrete i j) [
          | yes same ↦
              let is : g ≡ h = some_inj (sym ed.at ∙ ap (frame_at s) same ∙ e) in
              ap (λ (x : FrameHeader). x.frame_id) (sym is)
              ∙ ed.id
              ∙ r.pool.frames.placed i f at
              ∙ same
          | no apart ↦ r.pool.frames.placed j h (sym (ed.others j apart) ∙ e)
        ];
        whole = λ j h e. elim (ℕ_discrete i j) [
          | yes same ↦
              let is : g ≡ h = some_inj (sym ed.at ∙ ap (frame_at s) same ∙ e) in
              ap (λ (x : FrameHeader). length x.bytes) (sym is) ∙ ed.full
          | no apart ↦ r.pool.frames.whole j h (sym (ed.others j apart) ∙ e)
        ];
      };
    };
    disk = rw (ed.scheduler, disk) r.disk;
    running = rw ed.scheduler r.running;
  }

  pub content-edited :
      (k : ℕ) → content edited k ≡ (if page_id == k then some g.bytes else content p k)
  content-edited k = elim (Bool-cases (page_id == k)) [
    | inl same ↦
        content_resident edited k i
          (ap (Assoc.get p.page_table) (sym (eq_of_== page_id k same)) ∙ there)
        ∙ ap (λ o. o >>= λ (x : FrameHeader). some x.bytes) ed.at
        ∙ sym (if_true _ _ same)
    | inr other ↦
        elim (Option-cases (Assoc.get p.page_table k)) [
          | inl e ↦
              content_absent edited k e
              ∙ ap (λ (w : Worker). contents w.disk_manager k) ed.scheduler
              ∙ sym (content_absent p k e)
          | inr (j, e) ↦
              content_resident edited k j e
              ∙ ap (λ o. o >>= λ (x : FrameHeader). some x.bytes)
                  (ed.others j
                    (used_apart p r.pool page_id k i j there e (ne_of_== page_id k other)))
              ∙ sym (content_resident p k j e)
        ]
        ∙ sym (if_false _ _ other)
  ]

-- A page in the pool that is edited through a valid write guard of its frame, which is then
-- dropped, holds what the edit made of its bytes; every other page holds what it held, and the
-- pool stays in order.
pub drop_write-data_mut :
    (p : BufferPoolManager) (page_id i : ℕ) (f : FrameHeader) (edit : List ℕ → List ℕ)
    → IsReady p
    → Assoc.get p.page_table page_id ≡ some i
    → frame_at p.shared i ≡ some f
    → length (edit f.bytes) ≡ page_size
    → p.shared.arc_replacer.curr_size + 1 < u32_size
    → let guard : WritePageGuard = record { page_id = page_id; frame = i; is_valid = true } in
      (s1 : Shared) × (s2 : Shared) × (data_mut p.shared guard edit ≡ some s1)
      × (drop_write s1 guard ≡ some (record guard { is_valid = false }, s2))
      × IsReady (record p { shared = s2 })
      × ((k : ℕ)
          → content (record p { shared = s2 }) k
            ≡ (if page_id == k then some (edit f.bytes) else content p k))
unfolding data_mut drop_write Frame.unpin
drop_write-data_mut p page_id i f edit r there at len counted =
    let f1 : FrameHeader = record f { is_dirty = true; bytes = edit f.bytes } in
    let s1 = set_frame p.shared i f1 in
    let lt : i < length p.shared.frames =
      rw r.pool.frames.count (used-lt p r.pool page_id i there) in
    let at1 = get_elem?-set_self p.shared.frames i f1 lt in
    let (s2, releases, freed) = release-unpins s1 i f1 at1 counted in
    let ed : Edited p s2 i f (Frame.unpin f1) = record {
      at = freed.at;
      id = refl;
      full = len;
      others = λ j ne. freed.others j ne ∙ get_elem?-set_ne p.shared.frames i j f1 ne;
      scheduler = freed.scheduler;
      size = freed.size ∙ length-set p.shared.frames i f1;
    } in
    (
      s1,
      s2,
      rw (at, data_mut) refl,
      rw (releases, drop_write) refl,
      edited-IsReady p page_id i f (Frame.unpin f1) s2 r there at ed,
      content-edited p page_id i f (Frame.unpin f1) s2 r there at ed,
    )
