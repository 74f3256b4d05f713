-- ===== src/Arc/Evicting.antt =====
-- `evict`: which frame it gives up, and that it never panics.
use buffer_pool.Base.{
  ℕ, ◌-◌, ◌≤◌, ◌<◌, ◌≡◌, ◌⊎◌, inl, inr, true, false, Option, none, some, List, [], ◌∷◌, arith, leb,
  ◌==◌, if◌then◌else◌, Bool-cases, length, remove_at, length-retain-le, contains, remove_set,
}
use buffer_pool.Arc.Scan.{IsVictim, NoneEvictable, scan-Scans}
use buffer_pool.Arc.Stamps.{unstamp}
use buffer_pool.Arc.{ArcReplacer, checked_sub, evict, evict_from_mru_ghost, evict_from_mfu_ghost}

-- The counter of evictable frames is never behind their number.
abbrev pub IsCounted : ArcReplacer → Type 0
IsCounted r = length r.evictable_pages ≤ r.curr_size

-- `r'` is `r` without its entry `i` of the MRU list, (frame, page), whose page is now a ghost.
abbrev pub takes_mru : ArcReplacer → ℕ → ℕ → ℕ → ArcReplacer
takes_mru r i frame_id page_id = record r {
  mru = remove_at r.mru i;
  mru_ghost = page_id ∷ r.mru_ghost;
  evictable_pages = remove_set frame_id r.evictable_pages;
  timestamp_access = unstamp (frame_id, page_id) r.timestamp_access;
  curr_size = r.curr_size - 1;
}

abbrev pub takes_mfu : ArcReplacer → ℕ → ℕ → ℕ → ArcReplacer
takes_mfu r i frame_id page_id = record r {
  mfu = remove_at r.mfu i;
  mfu_ghost = page_id ∷ r.mfu_ghost;
  evictable_pages = remove_set frame_id r.evictable_pages;
  timestamp_access = unstamp (frame_id, page_id) r.timestamp_access;
  curr_size = r.curr_size - 1;
}

abbrev pub NoneInMru : ArcReplacer → Type 0
NoneInMru r = NoneEvictable (length r.mru) r.mru r.evictable_pages

abbrev pub NoneInMfu : ArcReplacer → Type 0
NoneInMfu r = NoneEvictable (length r.mfu) r.mfu r.evictable_pages

-- The three ways in which an eviction ends.
pub data Evicts (r : ArcReplacer) (out : Option (Option ℕ × ArcReplacer)) : Type 0 where
  nothing : out ≡ some (none, r) → NoneInMru r → NoneInMfu r → Evicts r out
  from_mru :
      (i frame_id page_id : ℕ)
      → out ≡ some (some frame_id, takes_mru r i frame_id page_id)
      → IsVictim (length r.mru) r.mru r.evictable_pages i frame_id page_id
      → (r.mru_target_size ≤ length r.mru) ⊎ NoneInMfu r
      → Evicts r out
  from_mfu :
      (i frame_id page_id : ℕ)
      → out ≡ some (some frame_id, takes_mfu r i frame_id page_id)
      → IsVictim (length r.mfu) r.mfu r.evictable_pages i frame_id page_id
      → (length r.mru < r.mru_target_size) ⊎ NoneInMru r
      → Evicts r out

-- A list that holds a number is not empty, and is shorter without it.
pub length-remove_set :
    (a : ℕ) (l : List ℕ) → contains l a ≡ true → length (remove_set a l) < length l
length-remove_set a [] h = absurd (ground arith)
length-remove_set a (x ∷ l) h =
    ground (arith, length-remove_set a l, length-retain-le (λ y. if y == a then false else true) l)

module _ (r : ArcReplacer) (c : IsCounted r) where
  step_down :
      (frame_id : ℕ)
      → contains r.evictable_pages frame_id ≡ true
      → checked_sub r.curr_size 1 ≡ some (r.curr_size - 1)
  step_down frame_id h =
      let shorter = length-remove_set frame_id r.evictable_pages h in
      let positive : 1 ≤ r.curr_size = omega (arith, shorter) in ground arith

  mru_ghost_lem :
      ((evict_from_mru_ghost r ≡ some (none, r)) × NoneInMru r)
      ⊎ ((i : ℕ) × (frame_id : ℕ) × (page_id : ℕ) × (evict_from_mru_ghost r
            ≡ some (some frame_id, takes_mru r i frame_id page_id))
          × IsVictim (length r.mru) r.mru r.evictable_pages i frame_id page_id)
  unfolding evict_from_mru_ghost
  mru_ghost_lem = elim (scan-Scans (length r.mru) r.mru r.evictable_pages) [
    | inl (e, clear) ↦ inl (rw (e, evict_from_mru_ghost), clear)
    | inr (i, f, p, e, v) ↦
        inr (i, f, p, rw (e, evict_from_mru_ghost) (rw (step_down f v.allowed)), v)
  ]

  mfu_ghost_lem :
      ((evict_from_mfu_ghost r ≡ some (none, r)) × NoneInMfu r)
      ⊎ ((i : ℕ) × (frame_id : ℕ) × (page_id : ℕ) × (evict_from_mfu_ghost r
            ≡ some (some frame_id, takes_mfu r i frame_id page_id))
          × IsVictim (length r.mfu) r.mfu r.evictable_pages i frame_id page_id)
  unfolding evict_from_mfu_ghost
  mfu_ghost_lem = elim (scan-Scans (length r.mfu) r.mfu r.evictable_pages) [
    | inl (e, clear) ↦ inl (rw (e, evict_from_mfu_ghost), clear)
    | inr (i, f, p, e, v) ↦
        inr (i, f, p, rw (e, evict_from_mfu_ghost) (rw (step_down f v.allowed)), v)
  ]

-- An eviction never panics, where the counter of evictable frames is not behind their number. It
-- gives up the last evictable entry of the MRU list if that list has at least its target size or
-- the MFU list has no evictable entry, else the last evictable entry of the MFU list if there is
-- one; it finds nothing, and changes nothing, exactly when no entry of either list is evictable.
-- The page becomes the first ghost of the list it leaves.
pub evict-Evicts : (r : ArcReplacer) → IsCounted r → Evicts r (evict r)
unfolding evict
evict-Evicts r c = elim (Bool-cases (leb r.mru_target_size (length r.mru))) [
  | inl long ↦ rw long (elim (mru_ghost_lem r c) [
    | inr (i, f, p, e, v) ↦ from_mru i f p (rw e) v (inl (ground arith))
    | inl (e, no_mru) ↦ rw e (elim (mfu_ghost_lem r c) [
      | inr (i, f, p, e', v) ↦ from_mfu i f p e' v (inr no_mru)
      | inl (e', no_mfu) ↦ nothing e' no_mru no_mfu
    ])
  ])
  | inr short ↦ rw short (elim (mfu_ghost_lem r c) [
    | inr (i, f, p, e, v) ↦ from_mfu i f p (rw e) v (inl (ground arith))
    | inl (e, no_mfu) ↦ rw e (elim (mru_ghost_lem r c) [
      | inr (i, f, p, e', v) ↦ from_mru i f p e' v (inr no_mfu)
      | inl (e', no_mru) ↦ nothing e' no_mru no_mfu
    ])
  ])
]
