-- ===== src/Arc/Bounds.antt =====
-- The bounds of the ARC lists under every operation.
use buffer_pool.Base.{
  ℕ, ◌+◌, ◌*◌, ◌≤◌, ◌<◌, ◌≡◌, sym, subst, ◌∙◌, ◌⊎◌, inl, inr, true, ◌||◌, Option, some, List, ◌∷◌,
  arith, Bool-cases, >>=-eq-some, some_inj, of_some, length, length-remove_at, length-pop_back,
  contains,
}
use buffer_pool.Arc.Scan.{has, without, length-without, length-without-le}
use buffer_pool.Arc.{
  ArcReplacer, record_access, note_access, raise_target, lower_target, admit, evict,
}
use buffer_pool.Arc.Evicting.{
  IsCounted, Evicts, from_mru, from_mfu, takes_mru, takes_mfu, evict-Evicts, length-remove_set,
}
use buffer_pool.Arc.Evicting
use buffer_pool.Arc.Cases.{
  hit_of, revived_mru, revived_mfu, hit, mru_ghost_hit, mfu_ghost_hit, miss, note_access-Accesses,
  tracks,
}

-- The MRU list with its ghosts fits the replacer, all four lists fit twice, and so does the target.
pub record IsBounded (r : ArcReplacer) : Type 0 where
  pub recent : length r.mru + length r.mru_ghost ≤ r.replacer_size
  pub total :
      length r.mru + length r.mru_ghost + length r.mfu + length r.mfu_ghost ≤ 2 * r.replacer_size
  pub target : r.mru_target_size ≤ r.replacer_size

-- The buffer pool accesses a page that is tracked, or one that it puts into a frame of its own.
abbrev pub HasRoom : ArcReplacer → ℕ × ℕ → Type 0
HasRoom r entry = (tracks r entry ≡ true) ⊎ (length r.mru + length r.mfu < r.replacer_size)

raise_target-le :
    (r : ArcReplacer) (t : ℕ)
    → r.mru_target_size ≤ r.replacer_size
    → raise_target r ≡ some t
    → t ≤ r.replacer_size
unfolding raise_target
raise_target-le r t h e = ground arith

lower_target-le : (r : ArcReplacer) (t : ℕ) → lower_target r ≡ some t → t ≤ r.mru_target_size
unfolding lower_target
lower_target-le r t e = ground arith

length-hit :
    (x : ℕ × ℕ) (l m : List (ℕ × ℕ))
    → (has l x || has m x) ≡ true
    → length (without x l) + length (x ∷ without x m) ≤ length l + length m
length-hit x l m h = elim (Bool-cases (has l x)) [
  | inl e ↦ omega (arith, length-without x l e, length-without-le x m)
  | inr e ↦ omega (arith, length-without-le x l, length-without x m (rw e at h))
]

admit-IsBounded :
    (r : ArcReplacer) (entry : ℕ × ℕ)
    → IsBounded r
    → length r.mru + length r.mfu < r.replacer_size
    → IsBounded (admit r entry)
unfolding admit
admit-IsBounded r entry b room =
    ground (arith, length-pop_back r.mru_ghost, length-pop_back r.mfu_ghost)

module _ (r r' : ArcReplacer) (frame_id page_id : ℕ) (b : IsBounded r) where
  revived_mru-IsBounded :
      (t : ℕ)
      → contains r.mru_ghost page_id ≡ true
      → raise_target r ≡ some t
      → IsBounded (revived_mru r frame_id page_id t)
  revived_mru-IsBounded t h e =
      let shorter = length-remove_set page_id r.mru_ghost h in
      let bound = raise_target-le r t b.target e in omega (arith, b.recent, b.total, shorter, bound)

  revived_mfu-IsBounded :
      (t : ℕ)
      → contains r.mfu_ghost page_id ≡ true
      → lower_target r ≡ some t
      → IsBounded (revived_mfu r frame_id page_id t)
  revived_mfu-IsBounded t h e =
      let shorter = length-remove_set page_id r.mfu_ghost h in
      let bound = lower_target-le r t e in
      omega (arith, b.recent, b.total, b.target, shorter, bound)

  hit_of-IsBounded : tracks r (frame_id, page_id) ≡ true → IsBounded (hit_of r frame_id page_id)
  hit_of-IsBounded h =
      let fits = length-hit (frame_id, page_id) r.mru r.mfu h in
      let less = length-without-le (frame_id, page_id) r.mru in
      omega (arith, b.recent, b.total, b.target, fits, less)

  note_access-IsBounded :
      HasRoom r (frame_id, page_id) → note_access r frame_id page_id ≡ some r' → IsBounded r'
  note_access-IsBounded room e = elim (note_access-Accesses r frame_id page_id) [
    | hit h q ↦ of_some IsBounded q e (hit_of-IsBounded h)
    | mru_ghost_hit _ h q ↦
        let (t, et, er) = >>=-eq-some (raise_target r) _ (sym q ∙ e) in
        subst IsBounded (some_inj er) (revived_mru-IsBounded t h et)
    | mfu_ghost_hit _ _ h q ↦
        let (t, et, er) = >>=-eq-some (lower_target r) _ (sym q ∙ e) in
        subst IsBounded (some_inj er) (revived_mfu-IsBounded t h et)
    | miss new _ _ q ↦
        let free : length r.mru + length r.mfu < r.replacer_size = ground (arith, room) in
        of_some IsBounded q e (admit-IsBounded r (frame_id, page_id) b free)
  ]

-- An access of a page that is tracked, or for which a frame is left, keeps the bounds.
pub record_access-IsBounded :
    (now : ℕ) (r r' : ArcReplacer) (frame_id page_id : ℕ)
    → IsBounded r
    → HasRoom r (frame_id, page_id)
    → record_access now r frame_id page_id ≡ some r'
    → IsBounded r'
unfolding record_access
record_access-IsBounded now r r' frame_id page_id b room e =
    note_access-IsBounded _ r' frame_id page_id
      (record { recent = b.recent; total = b.total; target = b.target }) room e

-- An eviction keeps the bounds: the page's ghost takes the place of its entry.
pub evict-IsBounded :
    (r r' : ArcReplacer) (found : Option ℕ)
    → IsCounted r
    → IsBounded r
    → evict r ≡ some (found, r')
    → IsBounded r'
evict-IsBounded r r' found c b e = elim (evict-Evicts r c) [
  | Evicting.nothing q _ _ ↦ of_some (λ x. IsBounded x.1) q e b
  | from_mru i f p q v _ ↦
      of_some (λ x. IsBounded x.1) q e
        (omega (arith, b.recent, b.total, b.target, length-remove_at r.mru i v.within))
  | from_mfu i f p q v _ ↦
      of_some (λ x. IsBounded x.1) q e
        (omega (arith, b.recent, b.total, b.target, length-remove_at r.mfu i v.within))
]
