-- ===== src/Tests/Arc.antt =====
-- src/arc_replacer.rs on concrete replacers.
use buffer_pool.Base.{◌≡◌, refl, ◌≢◌, ◌↔◌, inl, inr, ◌||◌, none, some, List, [], ◌∷◌, arith}
use buffer_pool.Arc.Stamps.{pair_eq, stamp, unstamp}
use buffer_pool.Arc.Scan.{scan}
use buffer_pool.Arc.{
  ArcReplacer, new, record_access, note_access, admit, evict, evict_from_mru_ghost, set_evictable,
}
use buffer_pool.Arc.Cases.{tracks}
use buffer_pool.Arc.Evicting.{IsCounted, Evicts, evict-Evicts}
use buffer_pool.Arc.Bounds.{IsBounded, record_access-IsBounded}
use buffer_pool.Arc.Access.{Underflows, tracks-record_access, record_access-panics_iff}
use buffer_pool.Arc.Histories.{Call, accesses, unpins, evicts, step, run, AllRoomy, run-new}

-- Frames 0 and 1 hold pages 5 and 6, and page 9 is a ghost of the MFU list.
abbrev small : ArcReplacer
small = record {
  mru = (0, 5) ∷ [];
  mfu = (1, 6) ∷ [];
  timestamp_access = [];
  mru_ghost = 0 ∷ [];
  mfu_ghost = 9 ∷ [];
  mru_target_size = 0;
  replacer_size = 3;
  dirty_pages = [];
  curr_size = 1;
  evictable_pages = 0 ∷ [];
}

-- The MRU list with its ghosts is longer than the replacer.
abbrev crowded : ArcReplacer
crowded = record {
  mru = (0, 5) ∷ [];
  mfu = [];
  timestamp_access = [];
  mru_ghost = 6 ∷ [];
  mfu_ghost = [];
  mru_target_size = 0;
  replacer_size = 1;
  curr_size = 0;
  dirty_pages = [];
  evictable_pages = [];
}

abbrev calls : List Call
calls = accesses 100 0 5 ∷ unpins 0 ∷ evicts ∷ []

small-IsCounted : IsCounted small
small-IsCounted = omega arith

small-IsBounded : IsBounded small
small-IsBounded = record { recent = omega arith; total = omega arith; target = omega arith }

evict-Evicts_example : Evicts small (evict small)
evict-Evicts_example = evict-Evicts small small-IsCounted

abbrev hit : ArcReplacer
hit = record small { mru = []; mfu = (0, 5) ∷ (1, 6) ∷ []; timestamp_access = stamp (0, 5) 100 [] }

record_access-hit : record_access 100 small 0 5 ≡ some hit
unfolding record_access note_access
record_access-hit = refl

record_access-IsBounded_example : IsBounded hit
record_access-IsBounded_example =
    record_access-IsBounded 100 small hit 0 5 small-IsBounded (inl refl) record_access-hit

abbrev left : ArcReplacer
left = record small { mru = []; mru_ghost = 5 ∷ 0 ∷ []; curr_size = 0; evictable_pages = [] }

evict-small : evict small ≡ some (some 0, left)
unfolding evict evict_from_mru_ghost scan unstamp
evict-small = refl

tracks-record_access_example : tracks hit (1, 6) ≡ (pair_eq (0, 5) (1, 6) || tracks small (1, 6))
tracks-record_access_example =
    tracks-record_access 100 small hit 0 5 (1, 6) (omega arith) record_access-hit

record_access-panics_iff_example : (record_access 100 small 2 9 ≡ none) ↔ Underflows small 2 9
record_access-panics_iff_example =
    record_access-panics_iff 100 small 2 9 small-IsBounded (omega arith)

abbrev after : ArcReplacer
after = record (new 3) { mru_ghost = 5 ∷ [] }

run-calls : run (new 3) calls ≡ some after
unfolding run step record_access note_access admit set_evictable evict evict_from_mru_ghost new scan
    unstamp stamp
run-calls = refl

calls-AllRoomy : AllRoomy (new 3) calls
unfolding AllRoomy new
calls-AllRoomy = (inr (omega arith), λ r e. (tt, λ r1 e1. (tt, λ r2 e2. tt)))

run-new_example : IsCounted after × IsBounded after × (evict after ≢ none)
run-new_example = run-new 3 calls after run-calls calls-AllRoomy
