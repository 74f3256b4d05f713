-- ===== src/Arc/Cases.antt =====
-- The four ends of `record_access`, once the time is noted.
use buffer_pool.Base.{
  ℕ, ◌≡◌, refl, sym, ap, subst, ◌∙◌, inl, inr, Bool, true, false, ◌||◌, Option, some, [], ◌∷◌,
  arith, Bool-cases, ◌>>=◌, >>=-eq-some, some_inj, of_some, pop_back, contains, remove_set,
}
use buffer_pool.Arc.Scan.{has, without}
use buffer_pool.Arc.{ArcReplacer, note_access, raise_target, lower_target, admit, record_access}

-- The entry is in the MRU or the MFU list.
abbrev pub tracks : ArcReplacer → ℕ × ℕ → Bool
tracks r entry = has r.mru entry || has r.mfu entry

abbrev pub hit_of : ArcReplacer → ℕ → ℕ → ArcReplacer
hit_of r frame_id page_id = record r {
  mru = without (frame_id, page_id) r.mru;
  mfu = (frame_id, page_id) ∷ without (frame_id, page_id) r.mfu;
}

abbrev pub revived_mru : ArcReplacer → ℕ → ℕ → ℕ → ArcReplacer
revived_mru r frame_id page_id target = record r {
  mru_target_size = target;
  mru_ghost = remove_set page_id r.mru_ghost;
  mfu = (frame_id, page_id) ∷ r.mfu;
}

abbrev pub revived_mfu : ArcReplacer → ℕ → ℕ → ℕ → ArcReplacer
revived_mfu r frame_id page_id target = record r {
  mru_target_size = target;
  mfu_ghost = remove_set page_id r.mfu_ghost;
  mfu = (frame_id, page_id) ∷ r.mfu;
}

pub data Accesses (r : ArcReplacer) (frame_id page_id : ℕ) (out : Option ArcReplacer) : Type 0 where
  hit :
      tracks r (frame_id, page_id) ≡ true
      → out ≡ some (hit_of r frame_id page_id)
      → Accesses r frame_id page_id out
  mru_ghost_hit :
      tracks r (frame_id, page_id) ≡ false
      → contains r.mru_ghost page_id ≡ true
      → out ≡ (raise_target r >>= λ t. some (revived_mru r frame_id page_id t))
      → Accesses r frame_id page_id out
  mfu_ghost_hit :
      tracks r (frame_id, page_id) ≡ false
      → contains r.mru_ghost page_id ≡ false
      → contains r.mfu_ghost page_id ≡ true
      → out ≡ (lower_target r >>= λ t. some (revived_mfu r frame_id page_id t))
      → Accesses r frame_id page_id out
  miss :
      tracks r (frame_id, page_id) ≡ false
      → contains r.mru_ghost page_id ≡ false
      → contains r.mfu_ghost page_id ≡ false
      → out ≡ some (admit r (frame_id, page_id))
      → Accesses r frame_id page_id out

pub note_access-Accesses :
    (r : ArcReplacer) (frame_id page_id : ℕ)
    → Accesses r frame_id page_id (note_access r frame_id page_id)
unfolding note_access
note_access-Accesses r frame_id page_id = elim (Bool-cases (tracks r (frame_id, page_id))) [
  | inl known ↦ hit known (rw known refl)
  | inr new ↦ elim (Bool-cases (contains r.mru_ghost page_id)) [
    | inl ghost ↦ mru_ghost_hit new ghost (rw (new, ghost) refl)
    | inr no_mru ↦ elim (Bool-cases (contains r.mfu_ghost page_id)) [
      | inl ghost ↦ mfu_ghost_hit new no_mru ghost (rw (new, no_mru, ghost) refl)
      | inr no_mfu ↦ miss new no_mru no_mfu (rw (new, no_mru, no_mfu) refl)
    ]
  ]
]

-- An access leaves the evictable frames and their counter as they are.
abbrev pub SameMarks : ArcReplacer → ArcReplacer → Type 0
SameMarks r r' = (r'.evictable_pages ≡ r.evictable_pages) × (r'.curr_size ≡ r.curr_size)

pub record_access-SameMarks :
    (now : ℕ) (r r' : ArcReplacer) (frame_id page_id : ℕ)
    → record_access now r frame_id page_id ≡ some r'
    → SameMarks r r'
unfolding record_access admit
record_access-SameMarks now r r' f p e = elim (note_access-Accesses _ f p) [
  | hit _ q ↦ of_some (SameMarks r) q e (refl, refl)
  | mru_ghost_hit _ _ q ↦
      let (t, et, er) = >>=-eq-some (raise_target _) _ (sym q ∙ e) in
      subst (SameMarks r) (some_inj er) (refl, refl)
  | mfu_ghost_hit _ _ _ q ↦
      let (t, et, er) = >>=-eq-some (lower_target _) _ (sym q ∙ e) in
      subst (SameMarks r) (some_inj er) (refl, refl)
  | miss _ _ _ q ↦ of_some (SameMarks r) q e (ground arith)
]

-- Without ghosts an access does not panic, and leaves none.
abbrev pub HasNoGhosts : ArcReplacer → Type 0
HasNoGhosts r = (r.mru_ghost ≡ []) × (r.mfu_ghost ≡ [])

admit-HasNoGhosts : (r : ArcReplacer) (entry : ℕ × ℕ) → HasNoGhosts r → HasNoGhosts (admit r entry)
unfolding admit
admit-HasNoGhosts r entry (none_mru, none_mfu) =
    let popped_mru : pop_back r.mru_ghost ≡ [] = ap pop_back none_mru in
    let popped_mfu : pop_back r.mfu_ghost ≡ [] = ap pop_back none_mfu in
    (ground arith, ground arith)

pub record_access-HasNoGhosts :
    (now : ℕ) (r : ArcReplacer) (frame_id page_id : ℕ)
    → HasNoGhosts r
    → (r' : ArcReplacer) × (record_access now r frame_id page_id ≡ some r')
      × HasNoGhosts r'
      × (r'.curr_size ≡ r.curr_size)
unfolding record_access admit
record_access-HasNoGhosts now r f p (none_mru, none_mfu) = elim (note_access-Accesses _ f p) [
  | hit _ q ↦ (_, q, (none_mru, none_mfu), refl)
  | mru_ghost_hit _ h q ↦ let no : contains r.mru_ghost p ≡ false = rw none_mru refl in cc (no, h)
  | mfu_ghost_hit _ _ h q ↦ let no : contains r.mfu_ghost p ≡ false = rw none_mfu refl in cc (no, h)
  | miss _ _ _ q ↦ (_, q, admit-HasNoGhosts _ (f, p) (none_mru, none_mfu), ground arith)
]
