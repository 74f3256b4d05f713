-- ===== src/Tests/ArcRuns.antt =====
-- The unit tests of src/arc_replacer.rs, run on the model.
use buffer_pool.Base.{ℕ, ◌≡◌, refl, Option, none, some, List, [], ◌∷◌, ◌>>=◌}
use buffer_pool.Arc.{
  ArcReplacer, new, record_access, note_access, admit, raise_target, lower_target, set_evictable,
  evict, evict_from_mru_ghost, evict_from_mfu_ghost,
}
use buffer_pool.Arc.Scan.{scan}
use buffer_pool.Arc.Stamps.{stamp, unstamp}
use buffer_pool.Arc.Histories.{accesses, unpins, evicts, step, run}

-- What the tests look at: the four lists, first entry first, and the target.
abbrev Lists : Type 0
Lists = List (ℕ × ℕ) × List (ℕ × ℕ) × List ℕ × List ℕ × ℕ

abbrev lists : Option ArcReplacer → Option Lists
lists o = do r ← o; some (r.mru, r.mfu, r.mru_ghost, r.mfu_ghost, r.mru_target_size)

abbrev replacer : ℕ → Lists → ArcReplacer
replacer size (mru, mfu, mru_ghost, mfu_ghost, target) = record {
  mru = mru;
  mfu = mfu;
  timestamp_access = [];
  mru_ghost = mru_ghost;
  mfu_ghost = mfu_ghost;
  mru_target_size = target;
  replacer_size = size;
  curr_size = 0;
  dirty_pages = [];
  evictable_pages = [];
}

promote_from_mru_to_mfu :
    lists (run (new 10) (accesses 0 1 1 ∷ accesses 1 2 2 ∷ accesses 2 1 1 ∷ []))
    ≡ some ((2, 2) ∷ [], (1, 1) ∷ [], [], [], 0)
unfolding run step record_access note_access admit stamp new
promote_from_mru_to_mfu = refl

evict_from_mru_lge_target_size :
    lists (run (new 10) (accesses 0 1 1 ∷ accesses 1 2 2 ∷ accesses 2 3 3 ∷ unpins 1 ∷ evicts ∷ []))
    ≡ some ((3, 3) ∷ (2, 2) ∷ [], [], 1 ∷ [], [], 0)
unfolding run step record_access note_access admit set_evictable evict evict_from_mru_ghost scan
    stamp unstamp new
evict_from_mru_lge_target_size = refl

evict_from_mfu_mru_sml_target_size :
    lists
      (run (replacer 10 ((1, 1) ∷ [], (3, 3) ∷ (2, 2) ∷ [], [], [], 5)) (unpins 3 ∷ evicts ∷ []))
    ≡ some ((1, 1) ∷ [], (2, 2) ∷ [], [], 3 ∷ [], 5)
unfolding run step set_evictable evict evict_from_mfu_ghost scan unstamp
evict_from_mfu_mru_sml_target_size = refl

mru_hit_increase_target_size_by_mod :
    lists (record_access 0 (replacer 10 ([], [], 1 ∷ [], 3 ∷ 2 ∷ [], 0)) 1 1)
    ≡ some ([], (1, 1) ∷ [], [], 3 ∷ 2 ∷ [], 2)
unfolding record_access note_access raise_target
mru_hit_increase_target_size_by_mod = refl

mfu_hit_decrease_target_size_by_one :
    lists (record_access 0 (replacer 10 ([], [], 2 ∷ [], 1 ∷ [], 3)) 1 1)
    ≡ some ([], (1, 1) ∷ [], 2 ∷ [], [], 2)
unfolding record_access note_access lower_target
mfu_hit_decrease_target_size_by_one = refl

mfu_hit_decrease_target_size_by_mod :
    lists (record_access 0 (replacer 10 ([], [], 2 ∷ 1 ∷ [], 3 ∷ [], 2)) 3 3)
    ≡ some ([], (3, 3) ∷ [], 2 ∷ 1 ∷ [], [], 0)
unfolding record_access note_access lower_target
mfu_hit_decrease_target_size_by_mod = refl

mru_mru_ghost_eq_replacer_size :
    lists (record_access 0 (replacer 4 ((2, 2) ∷ (1, 1) ∷ [], [], 4 ∷ 3 ∷ [], [], 0)) 5 5)
    ≡ some ((5, 5) ∷ (2, 2) ∷ (1, 1) ∷ [], [], 4 ∷ [], [], 0)
unfolding record_access note_access admit
mru_mru_ghost_eq_replacer_size = refl

mru_all_less_than_replacer_size_and_all_full :
    lists (record_access 0 (replacer 4 ((1, 1) ∷ [], (2, 2) ∷ [], 3 ∷ [], 4 ∷ [], 0)) 5 5)
    ≡ some ((5, 5) ∷ (1, 1) ∷ [], (2, 2) ∷ [], 3 ∷ [], 4 ∷ [], 0)
unfolding record_access note_access admit
mru_all_less_than_replacer_size_and_all_full = refl

-- A hit in the MFU ghost list of a replacer whose target is 0 panics.
mfu_hit_at_zero_target : record_access 0 (replacer 10 ([], [], [], 1 ∷ [], 0)) 1 1 ≡ none
unfolding record_access note_access lower_target
mfu_hit_at_zero_target = refl
