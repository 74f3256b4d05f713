-- ===== src/Pool/Calm.antt =====
-- A pool that never evicts: there is a frame for each page that was made.
--
-- Without evictions there are no ghosts, and no request panics. The budget bounds the requests to
-- come, for the counters of 32 and 64 bits.
pub mod Steps
use mathlib.Core.List.{mem-cons_self}
use buffer_pool.Base.{
  ℕ, zero, suc, ◌+◌, ◌-◌, ◌*◌, ◌/◌, ◌%◌, ◌^◌, ◌≤◌, ◌<◌, ◌≡◌, refl, sym, ap, ap₂, subst, ◌∙◌, ◌≢◌,
  ◌↔◌, ◌⊎◌, inl, inr, Bool, true, false, not, ◌&&◌, ◌||◌, Option, none, some, List, [], ◌∷◌, ◌++◌,
  map, Mem, Nodup, Perm, arith, dec_lt, dec_le, ℕ_discrete, ltb, leb, ◌==◌, if◌then◌else◌, ltb→lt,
  lt→ltb, leb→le, ==_iff, ==_self, Bool-cases, Option-cases, ◌>>=◌, ◌>>◌, require, List-cases,
  not-ltb, eq_of_==, ne_of_==, ==_of_ne, >>=-eq-some, some_inj, of_some, if_true, if_false, length,
  get_elem?, get_or, set, take, drop, replicate, remove_at, pop_back, retain, any, length-append,
  length-set, get_elem?-set_self, get_elem?-set_ne, length-take, length-drop, length-replicate,
  take-length, take_all, length-retain-le, length-remove_at, length-pop_back, contains, insert_set,
  remove_set, drop_all, length-map, append-take, get_elem?-take, get_elem?-drop,
  get_elem?-append_left, get_elem?-append_right, get_elem?-lt,
}
use buffer_pool.Base.Assoc
use buffer_pool.Base.Assoc.{Distinct}
use buffer_pool.Common.{page_size, u32_size, u64_size}
use buffer_pool.Disk.FileIo.{Io}
use buffer_pool.Disk.Slots.{Succeeds}
use buffer_pool.Frame.{FrameHeader, zero_page}
use buffer_pool.Arc.{ArcReplacer, record_access}
use buffer_pool.Arc.Cases.{HasNoGhosts, record_access-HasNoGhosts}
use buffer_pool.Guard.{Shared, ReadPageGuard, WritePageGuard, frame_at}
use buffer_pool.Pool.{
  BufferPoolManager, find_frame, find_absent, load_page, check_read_page, check_write_page,
}
use buffer_pool.Pool.Frames.{free-lt, used-lt, get_elem?-of_lt}
use buffer_pool.Pool.Loading.{
  disk_of, content, content_absent, IsReady, loaded, load_page-loads, after_load-Serves,
}
use buffer_pool.Pool.Guards.{
  acquired, acquired-IsReady, acquired-content, acquire-acquired, check_page-acquires,
}
use buffer_pool.Pool.Editing.{Edited, edited-IsReady, content-edited}

-- The pages `c` after page `page_id` got other bytes.
abbrev pub put : (ℕ → Option (List ℕ)) → ℕ → List ℕ → ℕ → Option (List ℕ)
put c page_id bytes k = if page_id == k then some bytes else c k

pub record IsCalm (budget : ℕ) (c : ℕ → Option (List ℕ)) (p : BufferPoolManager) : Type 0 where
  pub ready : IsReady p
  pub same : (k : ℕ) → content p k ≡ c k
  pub held : (k : ℕ) (bytes : List ℕ) → c k ≡ some bytes → k < p.next_page_id
  pub known : (k i : ℕ) → Assoc.get p.page_table k ≡ some i → k < p.next_page_id
  pub count : length p.page_table + length p.free_frames ≡ p.num_frames
  pub room : p.next_page_id ≤ p.num_frames
  pub few : p.num_frames < u32_size
  pub quiet : HasNoGhosts p.shared.arc_replacer
  pub drops : p.shared.arc_replacer.curr_size + budget < u32_size
  pub writes : (disk_of p).num_writes + budget < u64_size

-- No page of the pool leaves its frame, and no page is made.
pub record Grows (p p' : BufferPoolManager) : Type 0 where
  pub stays : (k i : ℕ) → Assoc.get p.page_table k ≡ some i → Assoc.get p'.page_table k ≡ some i
  pub next : p'.next_page_id ≡ p.next_page_id
  pub frames : p'.num_frames ≡ p.num_frames

pub Grows-refl : (p : BufferPoolManager) → Grows p p
Grows-refl p = record { stays = λ k i e. e; next = refl; frames = refl }

pub Grows-trans : (p q r : BufferPoolManager) → Grows p q → Grows q r → Grows p r
Grows-trans p q r g h = record {
  stays = λ k i e. h.stays k i (g.stays k i e);
  next = h.next ∙ g.next;
  frames = h.frames ∙ g.frames;
}

pub IsCalm-le :
    (few many : ℕ) (c : ℕ → Option (List ℕ)) (p : BufferPoolManager)
    → few ≤ many
    → IsCalm many c p
    → IsCalm few c p
IsCalm-le few many c p le calm = record {
  ready = calm.ready;
  same = calm.same;
  held = calm.held;
  known = calm.known;
  count = calm.count;
  room = calm.room;
  few = calm.few;
  quiet = calm.quiet;
  drops = omega (arith, calm.drops);
  writes = omega (arith, calm.writes);
}

-- The contents matter only page by page.
pub IsCalm-same :
    (budget : ℕ) (c d : ℕ → Option (List ℕ)) (p : BufferPoolManager)
    → ((k : ℕ) → c k ≡ d k)
    → IsCalm budget c p
    → IsCalm budget d p
IsCalm-same budget c d p same calm = record {
  ready = calm.ready;
  same = λ k. calm.same k ∙ same k;
  held = λ k bytes e. calm.held k bytes (same k ∙ e);
  known = calm.known;
  count = calm.count;
  room = calm.room;
  few = calm.few;
  quiet = calm.quiet;
  drops = calm.drops;
  writes = calm.writes;
}

module _ (faults : ℕ → Io) (budget : ℕ) (c : ℕ → Option (List ℕ)) (p : BufferPoolManager)
    (calm : IsCalm budget c p) (page_id : ℕ) (bytes : List ℕ) (holds : c page_id ≡ some bytes)
    (len : length bytes ≡ page_size) where
  -- A page that was made and is not in the pool leaves a frame free.
  frame_left :
      Assoc.get p.page_table page_id ≡ none
      → page_id < p.next_page_id
      → (i : ℕ) × (rest : List ℕ) × (p.free_frames ≡ i ∷ rest)
  frame_left absent made = elim (List-cases p.free_frames) [
    | inr found ↦ found
    | inl empty ↦
        let few =
          Assoc.length-bound p.next_page_id ((page_id, 0) ∷ p.page_table)
            (absent, calm.ready.pool.distinct)
            λ k v e. elim (Bool-cases (page_id == k)) [
              | inl same ↦ subst (λ x. x < p.next_page_id) (eq_of_== page_id k same) made
              | inr other ↦ calm.known k v (sym (if_false _ _ other) ∙ e)
            ] in
        let none_free : length p.free_frames ≡ 0 = ap length empty in
        absurd (omega (arith, calm.count, calm.room))
  ]

  loaded-IsCalm :
      (i : ℕ) (rest : List ℕ) (f : FrameHeader)
      → Assoc.get p.page_table page_id ≡ none
      → page_id < p.next_page_id
      → p.free_frames ≡ i ∷ rest
      → frame_at p.shared i ≡ some f
      → IsCalm budget c (loaded p page_id i bytes f rest)
        × Grows p (loaded p page_id i bytes f rest)
        × (Assoc.get (loaded p page_id i bytes f rest).page_table page_id ≡ some i)
  loaded-IsCalm i rest f absent made free at =
      let there = sym (content_absent p page_id absent) ∙ calm.same page_id ∙ holds in
      let serves = after_load-Serves p page_id i rest bytes f calm.ready absent free at len there in
      (
        record {
          ready = serves.ready;
          same = λ k. serves.same k ∙ calm.same k;
          held = calm.held;
          known = λ k j e. elim (Bool-cases (page_id == k)) [
            | inl same ↦ subst (λ x. x < p.next_page_id) (eq_of_== page_id k same) made
            | inr other ↦
                calm.known k j
                  (sym (Assoc.get-insert page_id k i p.page_table ∙ if_false _ _ other) ∙ e)
          ];
          count = omega (
            arith,
            calm.count,
            Assoc.length-insert_new page_id i p.page_table absent,
            ap length free,
          );
          room = calm.room;
          few = calm.few;
          quiet = calm.quiet;
          drops = calm.drops;
          writes = calm.writes;
        },
        record {
          stays = λ k j e. elim (Bool-cases (page_id == k)) [
            | inl same ↦
                let gone = ap (Assoc.get p.page_table) (sym (eq_of_== page_id k same)) ∙ absent in
                cc (gone, e)
            | inr other ↦ Assoc.get-insert page_id k i p.page_table ∙ if_false _ _ other ∙ e
          ];
          next = refl;
          frames = refl;
        },
        serves.resident,
      )

  pub find_frame-IsCalm :
      ((n : ℕ) → Succeeds (faults n))
      → (i : ℕ) × (p1 : BufferPoolManager) × (find_frame faults p page_id ≡ some (i, p1))
        × IsCalm budget c p1
        × Grows p p1
        × (Assoc.get p1.page_table page_id ≡ some i)
  unfolding find_frame find_absent
  find_frame-IsCalm s =
      let made = calm.held page_id bytes holds in
      elim (Option-cases (Assoc.get p.page_table page_id)) [
        | inr (i, there) ↦ (i, p, rw (there, find_frame) refl, calm, Grows-refl p, there)
        | inl absent ↦
            let (i, rest, free) = frame_left absent made in
            let (f, at) = get_elem?-of_lt p.shared.frames i (
              rw calm.ready.pool.frames.count
                (free-lt p calm.ready.pool i (rw free mem-cons_self))) in
            let there = sym (content_absent p page_id absent) ∙ calm.same page_id ∙ holds in
            let loads =
              load_page-loads p page_id i rest bytes f calm.ready absent free at len there faults
                (s _) in
            let (calm', grows, resident) = loaded-IsCalm i rest f absent made free at in
            (
              i,
              loaded p page_id i bytes f rest,
              rw (absent, find_frame) (ap (find_absent faults p page_id) free ∙ loads),
              calm',
              grows,
              resident,
            )
      ]
