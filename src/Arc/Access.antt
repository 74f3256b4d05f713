-- ===== src/Arc/Access.antt =====
-- `record_access`: what it tracks afterwards, when it panics, and when it forgets the access.
use buffer_pool.Base.{
  ℕ, ◌+◌, ◌*◌, ◌/◌, ◌%◌, ◌≤◌, ◌<◌, ◌≡◌, refl, sym, subst, ◌∙◌, ◌≢◌, ◌↔◌, inl, inr, Bool, true,
  false, not, ◌&&◌, ◌||◌, Option, none, some, arith, ltb, ◌==◌, Bool-cases, ◌>>=◌, >>=-eq-some,
  some_inj, of_some, length, contains,
}
use buffer_pool.Common.{u32_size}
use buffer_pool.Arc.Scan.{has, has-without}
use buffer_pool.Arc.Stamps.{pair_eq, stamp}
use buffer_pool.Arc.{ArcReplacer, record_access, note_access, raise_target, lower_target, admit}
use buffer_pool.Arc.Cases.{
  hit_of, revived_mru, revived_mfu, hit, mru_ghost_hit, mfu_ghost_hit, miss, note_access-Accesses,
  tracks,
}
use buffer_pool.Arc.Bounds.{IsBounded}

tracks-hit_of :
    (r : ArcReplacer) (f p : ℕ) (x : ℕ × ℕ)
    → tracks r (f, p) ≡ true
    → tracks (hit_of r f p) x ≡ (pair_eq (f, p) x || tracks r x)
tracks-hit_of r f p x h =
    rw (has-without (f, p) x r.mru, has-without (f, p) x r.mfu)
      (moved (pair_eq (f, p) x) (has r.mru x) (has r.mfu x))
  where
    moved : (e a b : Bool) → ((not e && a) || (e || (not e && b))) ≡ (e || (a || b))
    moved e a b = ground arith

shift_or : (e a b : Bool) → (a || (e || b)) ≡ (e || (a || b))
shift_or e a b = ground arith

tracks-admit :
    (r : ArcReplacer) (entry x : ℕ × ℕ)
    → length r.mru + length r.mru_ghost ≤ r.replacer_size
    → tracks (admit r entry) x ≡ (pair_eq entry x || tracks r x)
unfolding admit
tracks-admit r entry x fits =
    elim (Bool-cases (length r.mru + length r.mru_ghost == r.replacer_size)) [
      | inl full ↦ rw full (ground arith)
      | inr room ↦
          let less : ltb (length r.mru + length r.mru_ghost) r.replacer_size ≡ true =
            ground (arith, room) in
          elim (Bool-cases (
            length r.mru + length r.mfu + length r.mfu_ghost + length r.mru_ghost
            == 2 * r.replacer_size)) [
              | inl all ↦ rw (room, less, all) (ground arith)
              | inr some_left ↦ rw (room, less, some_left) (ground arith)
            ]
    ]

-- An access that does not panic tracks its entry, and every entry that was tracked before, and
-- nothing else, as long as the MRU list with its ghosts fits the replacer.
pub tracks-record_access :
    (now : ℕ) (r r' : ArcReplacer) (frame_id page_id : ℕ) (x : ℕ × ℕ)
    → length r.mru + length r.mru_ghost ≤ r.replacer_size
    → record_access now r frame_id page_id ≡ some r'
    → tracks r' x ≡ (pair_eq (frame_id, page_id) x || tracks r x)
unfolding record_access
tracks-record_access now r r' f p x fits e = noted r0 e fits
  where
    Tracked : ArcReplacer → ArcReplacer → Type 0
    Tracked s s' = tracks s' x ≡ (pair_eq (f, p) x || tracks s x)

    noted :
        (s : ArcReplacer)
        → note_access s f p ≡ some r'
        → length s.mru + length s.mru_ghost ≤ s.replacer_size
        → tracks r' x ≡ (pair_eq (f, p) x || tracks s x)
    noted s e' fits' = elim (note_access-Accesses s f p) [
      | hit h q ↦
          of_some (λ s'. tracks s' x ≡ (pair_eq (f, p) x || tracks s x)) q e'
            (tracks-hit_of s f p x h)
      | mru_ghost_hit _ h q ↦
          let (t, et, er) = >>=-eq-some (raise_target s) _ (sym q ∙ e') in
          subst (λ s'. tracks s' x ≡ (pair_eq (f, p) x || tracks s x)) (some_inj er)
            (shift_or (pair_eq (f, p) x) (has s.mru x) (has s.mfu x))
      | mfu_ghost_hit _ _ h q ↦
          let (t, et, er) = >>=-eq-some (lower_target s) _ (sym q ∙ e') in
          subst (λ s'. tracks s' x ≡ (pair_eq (f, p) x || tracks s x)) (some_inj er)
            (shift_or (pair_eq (f, p) x) (has s.mru x) (has s.mfu x))
      | miss _ _ _ q ↦
          of_some (λ s'. tracks s' x ≡ (pair_eq (f, p) x || tracks s x)) q e'
            (tracks-admit s (f, p) x fits')
    ]

    r0 : ArcReplacer
    r0 = record r { timestamp_access = stamp (f, p) now r.timestamp_access }

-- A hit of the MFU ghost list with the target at 0 and no more MRU ghosts than MFU ghosts.
abbrev pub Underflows : ArcReplacer → ℕ → ℕ → Type 0
Underflows r frame_id page_id =
    (tracks r (frame_id, page_id) ≡ false)
    × (contains r.mru_ghost page_id ≡ false)
    × (contains r.mfu_ghost page_id ≡ true)
    × (r.mru_target_size ≡ 0)
    × (length r.mru_ghost ≤ length r.mfu_ghost)

increase-le : (a b : ℕ) → a / b % u32_size ≤ a
increase-le a b = grind arith

raise_target-ne-none :
    (r : ArcReplacer) → IsBounded r → 3 * r.replacer_size < u32_size → raise_target r ≢ none
unfolding raise_target
raise_target-ne-none r b small =
    let bound = increase-le (length r.mfu_ghost) (length r.mru_ghost) in
    let size : r.replacer_size < u32_size = omega arith in
    let next : r.mru_target_size + 1 < u32_size = omega arith in
    let far : r.mru_target_size + length r.mfu_ghost / length r.mru_ghost % u32_size < u32_size =
      omega (arith, bound) in
    ground (arith, size, next, far)

lower_target-none_iff :
    (r : ArcReplacer)
    → (lower_target r ≡ none)
      ↔ ((r.mru_target_size ≡ 0) × (length r.mru_ghost ≤ length r.mfu_ghost))
unfolding lower_target
lower_target-none_iff r = (λ e. ground arith, λ e. ground arith)

-- A chain panics if its last step does not only where its first step does.
>>=-none {ℓ κ} :
    {A : Type ℓ} {B : Type κ} (m : Option A) (f : A → B)
    → ((m >>= λ a. some (f a)) ≡ none) ↔ (m ≡ none)
>>=-none none f = (λ e. refl, λ e. refl)
>>=-none (some a) f = (λ e. cc, λ e. cc)

note_access-panics_iff :
    (r : ArcReplacer) (frame_id page_id : ℕ)
    → IsBounded r
    → 3 * r.replacer_size < u32_size
    → (note_access r frame_id page_id ≡ none) ↔ Underflows r frame_id page_id
note_access-panics_iff r f p b small = elim (note_access-Accesses r f p) [
  | hit h q ↦ (λ e. cc (q, e), λ u. cc (h, u.0))
  | mru_ghost_hit _ h q ↦ (
    λ e. absurd (
        raise_target-ne-none r b small
          ((>>=-none (raise_target r) (revived_mru r f p)).0 (sym q ∙ e))),
    λ u. cc (h, u.1),
  )
  | mfu_ghost_hit new no_mru h q ↦ (
    λ e.
        let (zero_target, few) =
          (lower_target-none_iff r).0
            ((>>=-none (lower_target r) (revived_mfu r f p)).0 (sym q ∙ e)) in
        (new, no_mru, h, zero_target, few),
    λ u.
        q
        ∙ (>>=-none (lower_target r) (revived_mfu r f p)).1
            ((lower_target-none_iff r).1 (u.3, u.4)),
  )
  | miss _ _ h q ↦ (λ e. cc (q, e), λ u. cc (h, u.2))
]

-- Within its bounds, and at a size where `u32` does not overflow, an access panics exactly when
-- it hits the MFU ghost list with the target at 0 and no more MRU ghosts than MFU ghosts: then
-- `mru_target_size - 1` underflows.
pub record_access-panics_iff :
    (now : ℕ) (r : ArcReplacer) (frame_id page_id : ℕ)
    → IsBounded r
    → 3 * r.replacer_size < u32_size
    → (record_access now r frame_id page_id ≡ none) ↔ Underflows r frame_id page_id
unfolding record_access
record_access-panics_iff now r f p b small =
    note_access-panics_iff _ f p (record { recent = b.recent; total = b.total; target = b.target })
      small

-- If the MRU list with its ghosts is longer than the replacer, the access of an unknown page is
-- forgotten: no list changes, only the time is noted.
pub record_access-forgets :
    (now : ℕ) (r : ArcReplacer) (frame_id page_id : ℕ)
    → r.replacer_size < length r.mru + length r.mru_ghost
    → tracks r (frame_id, page_id) ≡ false
    → contains r.mru_ghost page_id ≡ false
    → contains r.mfu_ghost page_id ≡ false
    → record_access now r frame_id page_id
      ≡ some (record r { timestamp_access = stamp (frame_id, page_id) now r.timestamp_access })
unfolding record_access note_access admit
record_access-forgets now r f p over new no_mru no_mfu =
    rw (new, no_mru, no_mfu) (ground (arith, over))
