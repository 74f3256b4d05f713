-- ===== src/Pool/Flushing.antt =====
-- `flush_page` and `flush_all_pages`: the pages of the pool go to the disk.
use buffer_pool.Base.{
  ℕ, ◌+◌, ◌<◌, ◌≡◌, refl, sym, ap, subst, ◌∙◌, ◌≢◌, ◌⊎◌, inl, inr, true, false, ◌&&◌, none, some,
  arith, ℕ_discrete, ◌==◌, if◌then◌else◌, Option-cases, ◌>>=◌, ==_of_ne, some_inj, length,
}
use buffer_pool.Base.Assoc
use buffer_pool.Base.Assoc.{values, Distinct}
use buffer_pool.Common.{page_size, u64_size}
use buffer_pool.Disk.FileIo.{Io}
use buffer_pool.Disk.Slots.{Succeeds}
use buffer_pool.Frame.{FrameHeader}
use buffer_pool.Guard.{Shared, frame_at}
use buffer_pool.Pool.{BufferPoolManager}
use buffer_pool.Guard.{acquire, new_read}
use buffer_pool.Arc.{record_access}
use buffer_pool.Pool.Loading.{disk_of, bytes_at, content, content_resident, content_absent, IsReady}
use buffer_pool.Disk.Slots
use buffer_pool.Scheduler.{Worker}
use buffer_pool.Disk.Contents.{contents}
use buffer_pool.Common.{u32_size}
use buffer_pool.Guard.{drop_read, flush_read, new_read}
use buffer_pool.Guard.Pins.{acquire-Pinned, release-Released}
use buffer_pool.Guard.Flushing.{IsServing, cleaned, disk, flush_frame-Flushed}
use buffer_pool.Pool.{flush_page, flush_entry}
use buffer_pool.Pool.Guards.{acquire-panics, acquire-acquired}

IsServing-same : (s s' : Shared) → s'.disk_scheduler ≡ s.disk_scheduler → IsServing s → IsServing s'
IsServing-same s s' e v = record {
  running = rw e v.running;
  slots = rw e v.slots;
  counted = rw e v.counted;
}

-- What one round of flushing a page leaves: its frame is clean and otherwise as it was, other
-- frames are unchanged, and the disk has the bytes of a dirty frame.
record Stored (s s' : Shared) (page_id i : ℕ) (f : FrameHeader) : Type 0 where
  at : frame_at s' i ≡ some (cleaned f)
  others : (j : ℕ) → i ≢ j → frame_at s' j ≡ frame_at s j
  size : length s'.frames ≡ length s.frames
  running : s'.disk_scheduler.running ≡ true
  slots : Slots.IsValid (disk s')
  holds :
      (k : ℕ)
      → contents (disk s') k
        ≡ (if f.is_dirty && page_id == k then some f.bytes else contents (disk s) k)

module _ (faults : ℕ → Io) (now : ℕ) (s : Shared) (page_id i : ℕ) (f : FrameHeader)
    (ok_io : (n : ℕ) → Succeeds (faults n)) (v : IsServing s) (at : frame_at s i ≡ some f)
    (len : length f.bytes ≡ page_size) (small : f.pin_count + 1 < u64_size)
    (counted : s.arc_replacer.curr_size + 1 < u32_size) where
  flush_entry-panics : acquire now s page_id i ≡ none → flush_entry faults now s page_id i ≡ none
  unfolding flush_entry new_read
  flush_entry-panics e = rw (e, flush_entry)

  flush_entry-Stored :
      (s1 : Shared)
      → acquire now s page_id i ≡ some s1
      → (s3 : Shared) × (flush_entry faults now s page_id i ≡ some (f.is_dirty, s3))
        × Stored s s3 page_id i f
  unfolding flush_entry new_read flush_read drop_read
  flush_entry-Stored s1 acquires =
      let held = acquire-Pinned now s s1 page_id i f at small acquires in
      let f1 : FrameHeader = record f { pin_count = f.pin_count + 1 } in
      let (s2, flushes, done) =
        flush_frame-Flushed faults s1 page_id i f1 (ok_io s1.disk_scheduler.served)
          (IsServing-same s s1 held.scheduler v) held.at len in
      let (s3, releases, freed) =
        release-Released s2 i (cleaned f) done.at small
          (rw (done.replacer, held.counter) counted) in
      (
        s3,
        rw (acquires, flush_entry) (rw flushes (rw releases refl)),
        record {
          at = freed.at;
          others = λ j ne. freed.others j ne ∙ done.others j ne ∙ held.others j ne;
          size = freed.size ∙ done.size ∙ held.size;
          running = rw freed.scheduler done.running;
          slots = rw (freed.scheduler, disk) done.slots;
          holds = λ k.
              ap (λ (w : Worker). contents w.disk_manager k) freed.scheduler
              ∙ done.holds k
              ∙ ap
                  (λ (w : Worker).
                    if f.is_dirty && page_id == k then some f.bytes else contents w.disk_manager k)
                  held.scheduler;
        },
      )

-- Flushing one page keeps the pool in order, and no page's content changes.
module _ (p : BufferPoolManager) (page_id i : ℕ) (f : FrameHeader) (s : Shared) (r : IsReady p)
    (there : Assoc.get p.page_table page_id ≡ some i) (at : frame_at p.shared i ≡ some f)
    (st : Stored p.shared s page_id i f) where
  abbrev after : BufferPoolManager
  after = record p { shared = s }

  content-flushed : (k : ℕ) → content after k ≡ content p k
  content-flushed k = elim (Option-cases (Assoc.get p.page_table k)) [
    | inl e ↦
        let apart : (page_id == k) ≡ false = ==_of_ne page_id k (λ same. cc (there, e, same)) in
        content_absent after k e ∙ st.holds k ∙ rw apart (ground arith) ∙ sym (content_absent p k e)
    | inr (j, e) ↦
        content_resident after k j e
        ∙ elim (ℕ_discrete i j) [
          | yes same ↦
              subst (λ x. bytes_at after x ≡ bytes_at p x) same
                (ap (λ o. o >>= λ (g : FrameHeader). some g.bytes) st.at
                  ∙ sym (ap (λ o. o >>= λ (g : FrameHeader). some g.bytes) at))
          | no apart ↦ ap (λ o. o >>= λ (g : FrameHeader). some g.bytes) (st.others j apart)
        ]
        ∙ sym (content_resident p k j e)
  ]

  frame_after :
      (j : ℕ) (g : FrameHeader)
      → frame_at s j ≡ some g
      → (h : FrameHeader) × (frame_at p.shared j ≡ some h)
        × (g.frame_id ≡ h.frame_id)
        × (length g.bytes ≡ length h.bytes)
  frame_after j g e = elim (ℕ_discrete i j) [
    | no apart ↦ (g, sym (st.others j apart) ∙ e, refl, refl)
    | yes same ↦
        let is : cleaned f ≡ g = some_inj (sym st.at ∙ ap (frame_at s) same ∙ e) in
        (
          f,
          ap (frame_at p.shared) (sym same) ∙ at,
          ap (λ (h : FrameHeader). h.frame_id) (sym is),
          ap (λ (h : FrameHeader). length h.bytes) (sym is),
        )
  ]

  flushed-IsReady : IsReady after
  flushed-IsReady = record {
    pool = record {
      distinct = r.pool.distinct;
      owned = r.pool.owned;
      frames = record {
        count = st.size ∙ r.pool.frames.count;
        placed =
            λ j g e. let (h, eh, id, len) = frame_after j g e in id ∙ r.pool.frames.placed j h eh;
        whole =
            λ j g e. let (h, eh, id, len) = frame_after j g e in len ∙ r.pool.frames.whole j h eh;
      };
    };
    disk = st.slots;
    running = st.running;
  }

-- Without faults, `flush_page` of a page in the pool panics if the replacer's `record_access`
-- does. Otherwise it says whether the frame was dirty, the disk then holds the bytes of a dirty
-- frame under the page, the frame is clean and otherwise as it was, pins included, and every page
-- holds what it held.
pub flush_page-stores :
    (faults : ℕ → Io) (now : ℕ) (p : BufferPoolManager) (page_id i : ℕ) (f : FrameHeader)
    → IsReady p
    → ((n : ℕ) → Succeeds (faults n))
    → Assoc.get p.page_table page_id ≡ some i
    → frame_at p.shared i ≡ some f
    → f.pin_count + 1 < u64_size
    → p.shared.arc_replacer.curr_size + 1 < u32_size
    → (disk_of p).num_writes + 1 < u64_size
    → ((record_access now p.shared.arc_replacer i page_id ≡ none)
        × (flush_page faults now p page_id ≡ none))
      ⊎ ((p' : BufferPoolManager) × (flush_page faults now p page_id ≡ some (f.is_dirty, p'))
          × IsReady p'
          × (frame_at p'.shared i ≡ some (cleaned f))
          × ((k : ℕ)
              → contents (disk_of p') k
                ≡ (if f.is_dirty && page_id == k then some f.bytes else contents (disk_of p) k))
          × ((k : ℕ) → content p' k ≡ content p k))
unfolding flush_page
flush_page-stores faults now p page_id i f r ok_io there at small counted writes =
    let v : IsServing p.shared = record { running = r.running; slots = r.disk; counted = writes } in
    let len = r.pool.frames.whole i f at in
    elim (Option-cases (record_access now p.shared.arc_replacer i page_id)) [
      | inl panics ↦ inl (
        panics,
        rw
            (
              there,
              flush_page,
              flush_entry-panics faults now p.shared page_id i f ok_io v at len small counted
                  (acquire-panics p r page_id i f there at now panics),
            )
            refl,
      )
      | inr (arc, access) ↦
          let (s3, flushes, st) =
            flush_entry-Stored faults now p.shared page_id i f ok_io v at len small counted _
              (acquire-acquired p r page_id i f arc there at now access) in
          inr (
            record p { shared = s3 },
            rw (there, flush_page, flushes) refl,
            flushed-IsReady p page_id i f s3 r there at st,
            st.at,
            st.holds,
            content-flushed p page_id i f s3 r there at st,
          )
    ]
