-- ===== src/Pool/Calm/Steps.antt =====
-- What one request, one edit, one drop of a guard and one new page do to a calm pool.
use buffer_pool.Base.{
  ℕ, suc, ◌+◌, ◌%◌, ◌≤◌, ◌<◌, ◌≡◌, refl, sym, ap, subst, ◌∙◌, inl, inr, true, Option, none, some,
  List, arith, ◌==◌, if◌then◌else◌, Bool-cases, Option-cases, ◌>>=◌, eq_of_==, some_inj, if_true,
  if_false, length, length-set, get_elem?-set_self, get_elem?-set_ne,
}
use buffer_pool.Base.Assoc
use buffer_pool.Common.{page_size, u32_size}
use buffer_pool.Disk.FileIo.{Io}
use buffer_pool.Disk.Slots.{Succeeds}
use buffer_pool.Frame.{FrameHeader, zero_page}
use buffer_pool.Frame
use buffer_pool.Arc.Cases.{HasNoGhosts, record_access-HasNoGhosts}
use buffer_pool.Guard.{
  Shared, ReadPageGuard, WritePageGuard, frame_at, set_frame, data_mut, release,
}
use buffer_pool.Guard.Pins.{release-unpins}
use buffer_pool.Scheduler.{Worker}
use buffer_pool.Pool.{BufferPoolManager, check_read_page, check_write_page, new_page}
use buffer_pool.Pool.Frames.{used-lt, get_elem?-of_lt}
use buffer_pool.Pool.Loading.{content_resident}
use buffer_pool.Pool.Guards.{
  acquired, acquired-IsReady, acquired-content, acquire-acquired, check_page-acquires,
}
use buffer_pool.Pool.Creating.{created, new_page-created}
use buffer_pool.Pool.Editing.{Edited, edited-IsReady, content-edited}
use buffer_pool.Pool.Calm.{put, IsCalm, IsCalm-same, Grows, find_frame-IsCalm}

abbrev pub read_guard : ℕ → ℕ → ReadPageGuard
read_guard page_id i = record { page_id = page_id; frame = i; is_valid = true }

abbrev pub write_guard : ℕ → ℕ → WritePageGuard
write_guard page_id i = record { page_id = page_id; frame = i; is_valid = true }

-- A page with the bytes that it has.
pub put_same :
    (c : ℕ → Option (List ℕ)) (page_id : ℕ) (bytes : List ℕ)
    → c page_id ≡ some bytes
    → (k : ℕ) → put c page_id bytes k ≡ c k
put_same c page_id bytes holds k = elim (Bool-cases (page_id == k)) [
  | inl same ↦ if_true _ _ same ∙ sym holds ∙ ap c (eq_of_== page_id k same)
  | inr other ↦ if_false _ _ other
]

module _ (budget : ℕ) (c : ℕ → Option (List ℕ)) (p : BufferPoolManager) (calm : IsCalm budget c p)
    (page_id i : ℕ) (bytes : List ℕ) (there : Assoc.get p.page_table page_id ≡ some i)
    (holds : c page_id ≡ some bytes) where
  -- The frame of a page in the pool has the page's bytes.
  pub frame_of : (f : FrameHeader) × (frame_at p.shared i ≡ some f) × (f.bytes ≡ bytes)
  frame_of =
      let (f, at) =
        get_elem?-of_lt p.shared.frames i
          (rw calm.ready.pool.frames.count (used-lt p calm.ready.pool page_id i there)) in
      (
        f,
        at,
        some_inj (
            sym (ap (λ o. o >>= λ (g : FrameHeader). some g.bytes) at)
            ∙ sym (content_resident p page_id i there)
            ∙ calm.same page_id
            ∙ holds),
      )

  frame_edit-IsCalm :
      (few : ℕ) (f g : FrameHeader) (s : Shared)
      → frame_at p.shared i ≡ some f
      → Edited p s i f g
      → HasNoGhosts s.arc_replacer
      → s.arc_replacer.curr_size + few ≤ p.shared.arc_replacer.curr_size + budget
      → few ≤ budget
      → IsCalm few (put c page_id g.bytes) (record p { shared = s })
  frame_edit-IsCalm few f g s at ed quiet drops le =
      let same_disk = ap (λ (w : Worker). w.disk_manager.num_writes) ed.scheduler in
      record {
        ready = edited-IsReady p page_id i f g s calm.ready there at ed;
        same = λ k.
            content-edited p page_id i f g s calm.ready there at ed k
            ∙ ap (λ o. if page_id == k then some g.bytes else o) (calm.same k);
        held = λ k b e. elim (Bool-cases (page_id == k)) [
          | inl same ↦
              subst (λ x. x < p.next_page_id) (eq_of_== page_id k same) (calm.known page_id i there)
          | inr other ↦ calm.held k b (sym (if_false _ _ other) ∙ e)
        ];
        known = calm.known;
        count = calm.count;
        room = calm.room;
        few = calm.few;
        quiet = quiet;
        drops = omega (arith, calm.drops);
        writes = omega (arith, calm.writes, same_disk);
      }

  pub data_mut-IsCalm :
      (edit : List ℕ → List ℕ)
      → length (edit bytes) ≡ page_size
      → (f : FrameHeader) × (s : Shared) × (data_mut p.shared (write_guard page_id i) edit ≡ some s)
        × (frame_at s i ≡ some f)
        × (f.bytes ≡ edit bytes)
        × IsCalm budget (put c page_id (edit bytes)) (record p { shared = s })
  unfolding data_mut
  data_mut-IsCalm edit len =
      let (f, at, is) = frame_of in
      let g : FrameHeader = record f { is_dirty = true; bytes = edit f.bytes } in
      let s = set_frame p.shared i g in
      let lt : i < length p.shared.frames =
        rw calm.ready.pool.frames.count (used-lt p calm.ready.pool page_id i there) in
      let here = get_elem?-set_self p.shared.frames i g lt in
      let out : g.bytes ≡ edit bytes = ap edit is in
      let ed : Edited p s i f g = record {
        at = here;
        id = refl;
        full = ap length out ∙ len;
        others = λ j ne. get_elem?-set_ne p.shared.frames i j g ne;
        scheduler = refl;
        size = length-set p.shared.frames i g;
      } in
      (
        g,
        s,
        rw (at, data_mut) refl,
        here,
        out,
        IsCalm-same budget (put c page_id g.bytes) (put c page_id (edit bytes))
            (record p { shared = s }) (λ k. ap (λ b. put c page_id b k) out)
            (frame_edit-IsCalm budget f g s at ed calm.quiet (omega arith) (omega arith)),
      )

  pub release-IsCalm :
      (fewer : ℕ)
      → budget ≡ suc fewer
      → (s : Shared) × (release p.shared i ≡ some s) × IsCalm fewer c (record p { shared = s })
  unfolding Frame.unpin
  release-IsCalm fewer less =
      let (f, at, is) = frame_of in
      let (s, releases, freed) = release-unpins p.shared i f at (omega (arith, calm.drops)) in
      let ed : Edited p s i f (Frame.unpin f) = record {
        at = freed.at;
        id = refl;
        full = calm.ready.pool.frames.whole i f at;
        others = freed.others;
        scheduler = freed.scheduler;
        size = freed.size;
      } in
      (
        s,
        releases,
        IsCalm-same fewer (put c page_id f.bytes) c (record p { shared = s })
            (put_same c page_id f.bytes (holds ∙ ap some (sym is)))
            (frame_edit-IsCalm fewer f (Frame.unpin f) s at ed
              (freed.mru_ghost ∙ calm.quiet.0, freed.mfu_ghost ∙ calm.quiet.1)
              (omega (arith, freed.counter)) (omega arith)),
      )

module _ (faults : ℕ → Io) (s : (n : ℕ) → Succeeds (faults n)) (budget : ℕ)
    (c : ℕ → Option (List ℕ)) (p : BufferPoolManager) where
  -- A request for a page that was made returns a guard of the page's frame.
  pub check_page-IsCalm :
      (now page_id : ℕ) (bytes : List ℕ)
      → IsCalm budget c p
      → c page_id ≡ some bytes
      → length bytes ≡ page_size
      → (i : ℕ) × (p' : BufferPoolManager) × (check_read_page faults now p page_id
          ≡ some (some (read_guard page_id i), p'))
        × (check_write_page faults now p page_id ≡ some (some (write_guard page_id i), p'))
        × IsCalm budget c p'
        × Grows p p'
        × (Assoc.get p'.page_table page_id ≡ some i)
  check_page-IsCalm now page_id bytes calm holds len =
      let (i, p1, found, calm1, grows, there) =
        find_frame-IsCalm faults budget c p calm page_id bytes holds len s in
      let (f, at, _) = frame_of budget c p1 calm1 page_id i bytes there holds in
      let (arc, access, quiet, size) =
        record_access-HasNoGhosts now p1.shared.arc_replacer i page_id calm1.quiet in
      let (reads, writes) =
        check_page-acquires faults now p p1 page_id i found _
          (acquire-acquired p1 calm1.ready page_id i f arc there at now access) in
      (
        i,
        acquired p1 i f arc,
        reads,
        writes,
        record {
          ready = acquired-IsReady p1 calm1.ready page_id i f arc there at;
          same = λ k. acquired-content p1 calm1.ready page_id i f arc there at k ∙ calm1.same k;
          held = calm1.held;
          known = calm1.known;
          count = calm1.count;
          room = calm1.room;
          few = calm1.few;
          quiet = quiet;
          drops = omega (arith, size, calm1.drops);
          writes = calm1.writes;
        },
        record { stays = grows.stays; next = grows.next; frames = grows.frames },
        there,
      )

  -- A new page, while frames are left for it.
  pub new_page-IsCalm :
      IsCalm (suc budget) c p
      → p.next_page_id + 1 ≤ p.num_frames
      → (p' : BufferPoolManager) × (new_page faults p ≡ some (p.next_page_id, p'))
        × IsCalm budget (put c p.next_page_id zero_page) p'
        × ((k i : ℕ) → Assoc.get p.page_table k ≡ some i → Assoc.get p'.page_table k ≡ some i)
        × (p'.next_page_id ≡ p.next_page_id + 1)
        × (p'.num_frames ≡ p.num_frames)
  new_page-IsCalm calm left =
      let absent : Assoc.get p.page_table p.next_page_id ≡ none =
        elim (Option-cases (Assoc.get p.page_table p.next_page_id)) [
          | inl e ↦ e
          | inr (i, e) ↦ let bad = calm.known p.next_page_id i e in absurd (omega arith)
        ] in
      let (d, makes, ready, writes, holds) =
        new_page-created faults p calm.ready (s _) (omega (arith, calm.writes)) absent in
      let next : (p.next_page_id + 1) % u32_size ≡ p.next_page_id + 1 = omega (arith, calm.few) in
      (
        created p d,
        makes,
        record {
          ready = ready;
          same = λ k.
              holds k ∙ ap (λ o. if p.next_page_id == k then some zero_page else o) (calm.same k);
          held = λ k b e. elim (Bool-cases (p.next_page_id == k)) [
            | inl same ↦ let is = eq_of_== p.next_page_id k same in omega (arith, next)
            | inr other ↦
                let old = calm.held k b (sym (if_false _ _ other) ∙ e) in omega (arith, next)
          ];
          known = λ k i e. let old = calm.known k i e in omega (arith, next);
          count = calm.count;
          room = omega (arith, next);
          few = calm.few;
          quiet = calm.quiet;
          drops = omega (arith, calm.drops);
          writes = omega (arith, calm.writes, writes);
        },
        λ k i e. e,
        next,
        refl,
      )
