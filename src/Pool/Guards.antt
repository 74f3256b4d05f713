-- ===== src/Pool/Guards.antt =====
-- The two page requests, `check_read_page` and `check_write_page`, with the guard that they return.
use buffer_pool.Base.{
  ℕ, ◌+◌, ◌≤◌, ◌<◌, ◌≡◌, refl, sym, ap, subst, ◌∙◌, ◌⊎◌, inl, inr, true, none, some, List,
  ℕ_discrete, Option-cases, ◌>>=◌, some_inj, length, set, get_elem?-set_self,
}
use buffer_pool.Base.Assoc
use buffer_pool.Base.Assoc.{values, Distinct}
use buffer_pool.Common.{page_size, u64_size}
use buffer_pool.Disk.FileIo.{Io}
use buffer_pool.Disk.Slots.{Succeeds}
use buffer_pool.Frame.{FrameHeader, zero_page, length-zero_page}
use buffer_pool.Frame
use buffer_pool.Arc.{ArcReplacer}
use buffer_pool.Guard.{Shared, frame_at}
use buffer_pool.Pool.{BufferPoolManager, find_frame}
use buffer_pool.Pool.Frames.{set-AreFrames, get_elem?-of_lt, used-lt}
use buffer_pool.Guard.{acquire, new_write, new_read}
use buffer_pool.Pool.{check_write_page, check_read_page}
use buffer_pool.Arc.{record_access}
use buffer_pool.Pool.Loading.{
  disk_of, bytes_at, content, content_resident, content_absent, IsReady, bytes_at_other,
}
use buffer_pool.Pool.Serving.{Available, find_frame-Serves}

-- Pinning a frame changes no page.
abbrev pub acquired : BufferPoolManager → ℕ → FrameHeader → ArcReplacer → BufferPoolManager
acquired p i f arc = record p {
  shared = record p.shared { frames = set p.shared.frames i (Frame.pin f); arc_replacer = arc };
}

module _ (p : BufferPoolManager) (r : IsReady p) (page_id i : ℕ) (f : FrameHeader)
    (arc : ArcReplacer) (there : Assoc.get p.page_table page_id ≡ some i)
    (at : frame_at p.shared i ≡ some f) where
  pub acquired-IsReady : IsReady (acquired p i f arc)
  unfolding Frame.pin
  acquired-IsReady = record {
    pool = record {
      distinct = r.pool.distinct;
      owned = r.pool.owned;
      frames =
          set-AreFrames p.num_frames p.shared.frames i (Frame.pin f)
            (used-lt p r.pool page_id i there) (r.pool.frames.placed i f at)
            (r.pool.frames.whole i f at) r.pool.frames;
    };
    disk = r.disk;
    running = r.running;
  }

  pub acquired-content : (k : ℕ) → content (acquired p i f arc) k ≡ content p k
  unfolding Frame.pin
  acquired-content k = elim (Option-cases (Assoc.get p.page_table k)) [
    | inl e ↦ content_absent _ k e ∙ sym (content_absent p k e)
    | inr (j, e) ↦
        content_resident _ k j e
        ∙ elim (ℕ_discrete i j) [
          | yes same ↦
              subst (λ x. bytes_at (acquired p i f arc) x ≡ bytes_at p x) same
                (ap (λ o. o >>= λ (g : FrameHeader). some g.bytes)
                    (get_elem?-set_self p.shared.frames i (Frame.pin f)
                        (rw r.pool.frames.count (used-lt p r.pool page_id i there))
                      ∙ ap some refl)
                  ∙ sym (ap (λ o. o >>= λ (g : FrameHeader). some g.bytes) at))
          | no apart ↦ bytes_at_other p (acquired p i f arc) i j (Frame.pin f) refl apart
        ]
        ∙ sym (content_resident p k j e)
  ]

  pub acquire-acquired :
      (now : ℕ)
      → record_access now p.shared.arc_replacer i page_id ≡ some arc
      → acquire now p.shared page_id i ≡ some (acquired p i f arc).shared
  unfolding acquire
  acquire-acquired now e =
      rw (at, acquire)
        (rw (
          subst (λ n. record_access now p.shared.arc_replacer n page_id ≡ some arc)
            (sym (r.pool.frames.placed i f at)) e))

pub acquire-panics :
    (p : BufferPoolManager)
    → IsReady p
    → (page_id i : ℕ) (f : FrameHeader) → Assoc.get p.page_table page_id ≡ some i
    → frame_at p.shared i ≡ some f
    → (now : ℕ) → record_access now p.shared.arc_replacer i page_id ≡ none
    → acquire now p.shared page_id i ≡ none
unfolding acquire
acquire-panics p r page_id i f there at now e =
    rw (at, acquire)
      (rw (
        subst (λ n. record_access now p.shared.arc_replacer n page_id ≡ none)
          (sym (r.pool.frames.placed i f at)) e))

module _ (faults : ℕ → Io) (now : ℕ) (p p1 : BufferPoolManager) (page_id i : ℕ)
    (found : find_frame faults p page_id ≡ some (i, p1)) where
  check_page-panics :
      acquire now p1.shared page_id i ≡ none
      → (check_read_page faults now p page_id ≡ none)
        × (check_write_page faults now p page_id ≡ none)
  unfolding check_read_page check_write_page new_read new_write
  check_page-panics e = (
    rw (found, check_read_page) (rw (e, new_read)),
    rw (found, check_write_page) (rw (e, new_write)),
  )

  pub check_page-acquires :
      (s : Shared)
      → acquire now p1.shared page_id i ≡ some s
      → (check_read_page faults now p page_id
          ≡ some (
            some (record { page_id = page_id; frame = i; is_valid = true }),
            record p1 { shared = s },
          ))
        × (check_write_page faults now p page_id
            ≡ some (
              some (record { page_id = page_id; frame = i; is_valid = true }),
              record p1 { shared = s },
            ))
  unfolding check_read_page check_write_page new_read new_write
  check_page-acquires s e = (
    rw (found, check_read_page) (rw (e, new_read) refl),
    rw (found, check_write_page) (rw (e, new_write) refl),
  )

-- Without faults and with the pool in order, a request for a page that exists finds a frame with
-- the bytes of the page, if the page is in the pool or a frame can be had. Then it returns a valid
-- guard of that frame, which has one more pin than it had, every page holds what it held before the
-- request, and the disk is written once at most; or the replacer's `record_access` panics, and the
-- request with it.
pub check_page-Serves :
    (faults : ℕ → Io) (now : ℕ) (p : BufferPoolManager) (page_id : ℕ) (bytes : List ℕ)
    → IsReady p
    → ((n : ℕ) → Succeeds (faults n))
    → length bytes ≡ page_size
    → content p page_id ≡ some bytes
    → (disk_of p).num_writes + 1 < u64_size
    → Available p page_id
    → (i : ℕ) × (p1 : BufferPoolManager) × (f : FrameHeader) × (find_frame faults p page_id
        ≡ some (i, p1))
      × (frame_at p1.shared i ≡ some f)
      × (f.bytes ≡ bytes)
      × (((record_access now p1.shared.arc_replacer i page_id ≡ none)
            × (check_read_page faults now p page_id ≡ none)
            × (check_write_page faults now p page_id ≡ none))
          ⊎ ((p' : BufferPoolManager) × (check_read_page faults now p page_id
                ≡ some (some (record { page_id = page_id; frame = i; is_valid = true }), p'))
              × (check_write_page faults now p page_id
                  ≡ some (some (record { page_id = page_id; frame = i; is_valid = true }), p'))
              × (frame_at p'.shared i ≡ some (Frame.pin f))
              × IsReady p'
              × (Assoc.get p'.page_table page_id ≡ some i)
              × ((disk_of p').num_writes ≤ (disk_of p).num_writes + 1)
              × ((k : ℕ) → content p' k ≡ content p k)))
check_page-Serves faults now p page_id bytes r s len holds counted available =
    let (i, p1, found, serves) =
      find_frame-Serves faults p page_id bytes r s len holds counted available in
    let lt = used-lt p1 serves.ready.pool page_id i serves.resident in
    let (f, at) = get_elem?-of_lt p1.shared.frames i (rw serves.ready.pool.frames.count lt) in
    (
      i,
      p1,
      f,
      found,
      at,
      some_inj (
          sym (ap (λ o. o >>= λ (g : FrameHeader). some g.bytes) at)
          ∙ sym (content_resident p1 page_id i serves.resident)
          ∙ serves.same page_id
          ∙ holds),
      elim (Option-cases (record_access now p1.shared.arc_replacer i page_id)) [
        | inl panics ↦
            let (reads, writes) =
              check_page-panics faults now p p1 page_id i found
                (acquire-panics p1 serves.ready page_id i f serves.resident at now panics) in
            inl (panics, reads, writes)
        | inr (arc, access) ↦
            let (reads, writes) =
              check_page-acquires faults now p p1 page_id i found _
                (acquire-acquired p1 serves.ready page_id i f arc serves.resident at now access) in
            inr (
              acquired p1 i f arc,
              reads,
              writes,
              get_elem?-set_self p1.shared.frames i (Frame.pin f)
                  (rw serves.ready.pool.frames.count lt),
              acquired-IsReady p1 serves.ready page_id i f arc serves.resident at,
              serves.resident,
              serves.writes,
              λ k.
                  acquired-content p1 serves.ready page_id i f arc serves.resident at k
                  ∙ serves.same k,
            )
      ],
    )
