-- ===== src/Guard/Pins.antt =====
-- src/guard.rs: the pins of a frame, from the making of a guard to its drop.
use buffer_pool.Base.{
  ℕ, zero, suc, ◌+◌, ◌-◌, ◌%◌, ◌≤◌, ◌<◌, ◌≡◌, refl, sym, ap, subst, ◌∙◌, ◌≢◌, inl, inr, true, false,
  ◌&&◌, ◌||◌, none, some, List, [], ◌∷◌, arith, ltb, ◌==◌, ltb→lt, lt→ltb, Bool-cases, eq_of_==,
  >>=-eq-some, some_inj, length, get_elem?, length-set, get_elem?-set_self, get_elem?-set_ne,
  contains, insert_set,
}
use buffer_pool.Common.{u32_size, u64_size}
use buffer_pool.Frame.{FrameHeader}
use buffer_pool.Frame
use buffer_pool.Arc.{ArcReplacer, record_access, set_evictable}
use buffer_pool.Arc.Cases.{record_access-SameMarks}
use buffer_pool.Guard.{
  Shared, set_frame, WritePageGuard, frame_at, acquire, release, new_write, drop_write,
}

-- What the making of a guard has done to the shared state.
pub record Pinned (s s' : Shared) (i : ℕ) (f : FrameHeader) : Type 0 where
  pub at : frame_at s' i ≡ some (record f { pin_count = f.pin_count + 1 })
  pub others : (j : ℕ) → i ≢ j → frame_at s' j ≡ frame_at s j
  pub marks : s'.arc_replacer.evictable_pages ≡ s.arc_replacer.evictable_pages
  pub counter : s'.arc_replacer.curr_size ≡ s.arc_replacer.curr_size
  pub scheduler : s'.disk_scheduler ≡ s.disk_scheduler
  pub size : length s'.frames ≡ length s.frames

pub lt-length : {A : Type 0} (l : List A) (i : ℕ) (a : A) → get_elem? l i ≡ some a → i < length l
lt-length [] i a e = cc
lt-length (x ∷ l) zero a e = omega arith
lt-length (x ∷ l) (suc i) a e = omega (arith, lt-length l i a e)

pub acquire-Pinned :
    (now : ℕ) (s s' : Shared) (page_id i : ℕ) (f : FrameHeader)
    → frame_at s i ≡ some f
    → f.pin_count + 1 < u64_size
    → acquire now s page_id i ≡ some s'
    → Pinned s s' i f
unfolding acquire Frame.pin
acquire-Pinned now s s' page_id i f at small e =
    let (g, eg, rest) = >>=-eq-some (frame_at s i) _ e in
    let (arc, ea, made) =
      >>=-eq-some (record_access now s.arc_replacer g.frame_id page_id) _ rest in
    let same : g ≡ f = some_inj (sym eg ∙ at) in
    let kept = record_access-SameMarks now s.arc_replacer arc g.frame_id page_id ea in
    subst (λ x. Pinned s x i f) (some_inj made)
      (record {
        at =
            get_elem?-set_self s.frames i (Frame.pin g) (lt-length s.frames i f at)
            ∙ ap (λ h. some (Frame.pin h)) same
            ∙ ap (λ n. some (record f { pin_count = n })) (wraps f.pin_count small);
        others = λ j ne. get_elem?-set_ne s.frames i j (Frame.pin g) ne;
        marks = kept.0;
        counter = kept.1;
        scheduler = refl;
        size = length-set s.frames i (Frame.pin g);
      })
  where
    wraps : (n : ℕ) → n + 1 < u64_size → (n + 1) % u64_size ≡ n + 1
    wraps n h = omega arith

contains-insert_set :
    (a b : ℕ) (l : List ℕ) → contains (insert_set a l) b ≡ (a == b || contains l b)
contains-insert_set a b l = elim (Bool-cases (contains l a)) [
  | inr new ↦ rw new refl
  | inl old ↦ rw old (elim (Bool-cases (a == b)) [
    | inl same ↦ rw same (subst (λ x. contains l x ≡ true) (eq_of_== a b same) old)
    | inr other ↦ rw other refl
  ])
]

abbrev marked : ArcReplacer → ℕ → ArcReplacer
marked r i = record r {
  evictable_pages = insert_set i r.evictable_pages;
  curr_size = r.curr_size + 1;
}

set_evictable-marked :
    (r : ArcReplacer) (i : ℕ) → r.curr_size + 1 < u32_size → set_evictable r i ≡ some (marked r i)
unfolding set_evictable
set_evictable-marked r i h = rw (lt→ltb (r.curr_size + 1) u32_size h) refl

-- `g` is `f` with one pin more.
module _ (s : Shared) (i : ℕ) (f g : FrameHeader) (at : frame_at s i ≡ some g)
    (less : Frame.unpin g ≡ f) where
  release_kept : (f.pin_count == 0) ≡ false → release s i ≡ some (set_frame s i f)
  unfolding release
  release_kept more = rw (at, release) (rw (less, more) refl)

  release_last :
      (f.pin_count == 0) ≡ true
      → s.arc_replacer.curr_size + 1 < u32_size
      → release s i
        ≡ some (record (set_frame s i f) { arc_replacer = marked s.arc_replacer g.frame_id })
  unfolding release
  release_last last counted =
      rw (at, release)
        (rw (less, last, set_evictable-marked s.arc_replacer g.frame_id counted) refl)

-- Dropping the last pin marks the frame evictable; before that it only takes a pin off.
pub record Released (s s' : Shared) (i : ℕ) (f : FrameHeader) : Type 0 where
  pub at : frame_at s' i ≡ some f
  pub others : (j : ℕ) → i ≢ j → frame_at s' j ≡ frame_at s j
  pub marks :
      (b : ℕ)
      → contains s'.arc_replacer.evictable_pages b
        ≡ ((f.pin_count == 0 && f.frame_id == b) || contains s.arc_replacer.evictable_pages b)
  pub scheduler : s'.disk_scheduler ≡ s.disk_scheduler
  pub size : length s'.frames ≡ length s.frames
  pub mru_ghost : s'.arc_replacer.mru_ghost ≡ s.arc_replacer.mru_ghost
  pub mfu_ghost : s'.arc_replacer.mfu_ghost ≡ s.arc_replacer.mfu_ghost
  pub counter : s'.arc_replacer.curr_size ≤ s.arc_replacer.curr_size + 1

pub release-unpins :
    (s : Shared) (i : ℕ) (g : FrameHeader)
    → frame_at s i ≡ some g
    → s.arc_replacer.curr_size + 1 < u32_size
    → (s' : Shared) × (release s i ≡ some s') × Released s s' i (Frame.unpin g)
unfolding Frame.unpin
release-unpins s i g at counted =
    let f = Frame.unpin g in
    let back : frame_at (set_frame s i f) i ≡ some f =
      get_elem?-set_self s.frames i f (lt-length s.frames i g at) in
    let apart : (j : ℕ) → i ≢ j → frame_at (set_frame s i f) j ≡ frame_at s j =
      λ j ne. get_elem?-set_ne s.frames i j f ne in
    elim (Bool-cases (f.pin_count == 0)) [
      | inl last ↦ (
        record (set_frame s i f) { arc_replacer = marked s.arc_replacer f.frame_id },
        release_last s i f g at refl last counted,
        record {
          at = back;
          others = apart;
          marks = λ b. rw last (contains-insert_set f.frame_id b s.arc_replacer.evictable_pages);
          scheduler = refl;
          size = length-set s.frames i f;
          mru_ghost = refl;
          mfu_ghost = refl;
          counter = omega arith;
        },
      )
      | inr more ↦ (
        set_frame s i f,
        release_kept s i f g at refl more,
        record {
          at = back;
          others = apart;
          marks = λ b. rw more refl;
          scheduler = refl;
          size = length-set s.frames i f;
          mru_ghost = refl;
          mfu_ghost = refl;
          counter = omega arith;
        },
      )
    ]

-- The same, of a release that did not panic.
pub release-some :
    (s s' : Shared) (i : ℕ) (g : FrameHeader)
    → frame_at s i ≡ some g
    → release s i ≡ some s'
    → Released s s' i (Frame.unpin g)
unfolding release set_evictable Frame.unpin
release-some s s' i g at e = elim (Bool-cases (ltb (s.arc_replacer.curr_size + 1) u32_size)) [
  | inl fits ↦
      let (s2, releases, freed) =
        release-unpins s i g at (ltb→lt (s.arc_replacer.curr_size + 1) u32_size fits) in
      subst (λ x. Released s x i (Frame.unpin g)) (some_inj (sym releases ∙ e)) freed
  | inr over ↦ elim (Bool-cases ((Frame.unpin g).pin_count == 0)) [
    | inl last ↦
        let bad : release s i ≡ none = rw (at, release) (rw last (rw over refl)) in cc (bad, e)
    | inr more ↦
        let f = Frame.unpin g in
        subst (λ x. Released s x i f) (some_inj (sym (release_kept s i f g at refl more) ∙ e))
          (record {
            at = get_elem?-set_self s.frames i f (lt-length s.frames i g at);
            others = λ j ne. get_elem?-set_ne s.frames i j f ne;
            marks = λ b. rw more refl;
            scheduler = refl;
            size = length-set s.frames i f;
            mru_ghost = refl;
            mfu_ghost = refl;
            counter = omega arith;
          })
  ]
]

unpin-pinned :
    (f : FrameHeader)
    → f.pin_count + 1 < u64_size
    → Frame.unpin (record f { pin_count = f.pin_count + 1 }) ≡ f
unfolding Frame.unpin
unpin-pinned f small = ap (λ n. record f { pin_count = n }) (undo f.pin_count small)
  where
    undo : (n : ℕ) → n + 1 < u64_size → (n + 1 + (u64_size - 1)) % u64_size ≡ n
    undo n h = omega arith

pub release-Released :
    (s : Shared) (i : ℕ) (f : FrameHeader)
    → frame_at s i ≡ some (record f { pin_count = f.pin_count + 1 })
    → f.pin_count + 1 < u64_size
    → s.arc_replacer.curr_size + 1 < u32_size
    → (s' : Shared) × (release s i ≡ some s') × Released s s' i f
release-Released s i f at small counted =
    let (s', e, freed) = release-unpins s i _ at counted in
    (s', e, subst (Released s s' i) (unpin-pinned f small) freed)

-- A guard that is made and dropped leaves its frame as it was, pins included, and marks it
-- evictable exactly if no other guard pins it. While the guard lives the frame has one pin more,
-- but the frames that are evictable stay so.
pub drop_write-new_write :
    (now : ℕ) (s s1 : Shared) (page_id i : ℕ) (f : FrameHeader) (g : WritePageGuard)
    → frame_at s i ≡ some f
    → f.pin_count + 1 < u64_size
    → s.arc_replacer.curr_size + 1 < u32_size
    → new_write now s page_id i ≡ some (g, s1)
    → (frame_at s1 i ≡ some (record f { pin_count = f.pin_count + 1 }))
      × (s1.arc_replacer.evictable_pages ≡ s.arc_replacer.evictable_pages)
      × ((s2 : Shared) × (drop_write s1 g ≡ some (record g { is_valid = false }, s2))
          × (frame_at s2 i ≡ some f)
          × ((b : ℕ)
              → contains s2.arc_replacer.evictable_pages b ≡ (
                  (f.pin_count == 0 && f.frame_id == b)
                  || contains s.arc_replacer.evictable_pages b)))
unfolding new_write drop_write
drop_write-new_write now s s1 page_id i f g at small counted e =
    let (s', acquires, made) = >>=-eq-some (acquire now s page_id i) _ e in
    let state : s' ≡ s1 = ap (λ x. x.1) (some_inj made) in
    let guard : record { page_id = page_id; frame = i; is_valid = true } ≡ g =
      ap (λ x. x.0) (some_inj made) in
    let p = acquire-Pinned now s s1 page_id i f at small (rw (sym state) acquires) in
    let (s2, released, freed) = release-Released s1 i f p.at small (rw p.counter counted) in
    (
      p.at,
      p.marks,
      (
        s2,
        subst (λ (h : WritePageGuard). drop_write s1 h ≡ some (record h { is_valid = false }, s2))
            guard (rw (released, drop_write) refl),
        freed.at,
        λ b.
            freed.marks b ∙ ap (λ l. (f.pin_count == 0 && f.frame_id == b) || contains l b) p.marks,
      ),
    )
