-- ===== src/Arc/Histories.antt =====
-- Histories of calls: what holds of a replacer however it was used.
use buffer_pool.Base.{
  ℕ, ◌≡◌, sym, subst, ◌∙◌, ◌≢◌, Option, none, some, List, [], ◌∷◌, arith, ◌>>=◌, >>=-eq-some,
  some_inj, of_some,
}
use buffer_pool.Arc.{
  ArcReplacer, new, record_access, set_evictable, evict, remove, raise_target, lower_target, admit,
}
use buffer_pool.Arc.Cases.{hit, mru_ghost_hit, mfu_ghost_hit, miss, note_access-Accesses}
use buffer_pool.Arc.Evicting.{
  IsCounted, Evicts, from_mru, from_mfu, evict-Evicts, length-remove_set,
}
use buffer_pool.Arc.Evicting
use buffer_pool.Arc.Removing.{remove-Shrinks}
use buffer_pool.Arc.Bounds.{IsBounded, HasRoom, record_access-IsBounded, evict-IsBounded}

pub data Call : Type 0 where
  accesses : ℕ → ℕ → ℕ → Call
  unpins removes : ℕ → Call
  evicts : Call

unfoldable pub step : ArcReplacer → Call → Option ArcReplacer
step r (accesses now frame_id page_id) = record_access now r frame_id page_id
step r (unpins frame_id) = set_evictable r frame_id
step r (removes frame_id) = some (remove r frame_id)
step r evicts = do result ← evict r; some result.1

unfoldable pub run : ArcReplacer → List Call → Option ArcReplacer
run r [] = some r
run r (c ∷ cs) = step r c >>= λ r'. run r' cs

-- Every access of the history finds its page tracked, or a frame free for it.
abbrev pub Roomy : ArcReplacer → Call → Type 0
Roomy r (accesses now frame_id page_id) = HasRoom r (frame_id, page_id)
Roomy r _ = Unit {0}

unfoldable pub AllRoomy : ArcReplacer → List Call → Type 0
AllRoomy r [] = Unit {0}
AllRoomy r (c ∷ cs) = Roomy r c × ((r' : ArcReplacer) → step r c ≡ some r' → AllRoomy r' cs)

-- An access leaves the evictable frames and their counter as they are.
access_same :
    (now : ℕ) (r r' : ArcReplacer) (f p : ℕ)
    → record_access now r f p ≡ some r'
    → IsCounted r
    → IsCounted r'
unfolding record_access admit
access_same now r r' f p e c = elim (note_access-Accesses _ f p) [
  | hit _ q ↦ of_some IsCounted q e c
  | mru_ghost_hit _ _ q ↦
      let (t, et, er) = >>=-eq-some (raise_target _) _ (sym q ∙ e) in
      subst IsCounted (some_inj er) c
  | mfu_ghost_hit _ _ _ q ↦
      let (t, et, er) = >>=-eq-some (lower_target _) _ (sym q ∙ e) in
      subst IsCounted (some_inj er) c
  | miss _ _ _ q ↦ of_some IsCounted q e (ground (arith, c))
]

evict-IsCounted :
    (r r' : ArcReplacer) (found : Option ℕ)
    → evict r ≡ some (found, r')
    → IsCounted r
    → IsCounted r'
evict-IsCounted r r' found e c = elim (evict-Evicts r c) [
  | Evicting.nothing q _ _ ↦ of_some (λ x. IsCounted x.1) q e c
  | from_mru i f p q v _ ↦
      of_some (λ x. IsCounted x.1) q e
        (omega (arith, length-remove_set f r.evictable_pages v.allowed))
  | from_mfu i f p q v _ ↦
      of_some (λ x. IsCounted x.1) q e
        (omega (arith, length-remove_set f r.evictable_pages v.allowed))
]

set_evictable-IsCounted :
    (r r' : ArcReplacer) (f : ℕ) → set_evictable r f ≡ some r' → IsCounted r → IsCounted r'
unfolding set_evictable
set_evictable-IsCounted r r' f e c = ground arith

remove-IsCounted : (r : ArcReplacer) (f : ℕ) → IsCounted r → IsCounted (remove r f)
remove-IsCounted r f c = omega (arith, remove-Shrinks r f, c)

step-IsCounted :
    (r r' : ArcReplacer) (call : Call) → step r call ≡ some r' → IsCounted r → IsCounted r'
unfolding step
step-IsCounted r r' (accesses now f p) e c = access_same now r r' f p e c
step-IsCounted r r' (unpins f) e c = set_evictable-IsCounted r r' f e c
step-IsCounted r r' (removes f) e c = subst IsCounted (some_inj e) (remove-IsCounted r f c)
step-IsCounted r r' evicts e c =
    let ((found, r''), ev, er) = >>=-eq-some (evict r) _ e in
    subst IsCounted (some_inj er) (evict-IsCounted r r'' found ev c)

set_evictable-IsBounded :
    (r r' : ArcReplacer) (f : ℕ) → set_evictable r f ≡ some r' → IsBounded r → IsBounded r'
unfolding set_evictable
set_evictable-IsBounded r r' f e b = ground arith

step-IsBounded :
    (r r' : ArcReplacer) (call : Call)
    → step r call ≡ some r'
    → Roomy r call
    → IsCounted r
    → IsBounded r
    → IsBounded r'
unfolding step
step-IsBounded r r' (accesses now f p) e room c b = record_access-IsBounded now r r' f p b room e
step-IsBounded r r' (unpins f) e room c b = set_evictable-IsBounded r r' f e b
step-IsBounded r r' (removes f) e room c b =
    subst IsBounded (some_inj e) (omega (arith, remove-Shrinks r f, b.recent, b.total, b.target))
step-IsBounded r r' evicts e room c b =
    let ((found, r''), ev, er) = >>=-eq-some (evict r) _ e in
    subst IsBounded (some_inj er) (evict-IsBounded r r'' found c b ev)

evict-ne-none : (r : ArcReplacer) → IsCounted r → evict r ≢ none
evict-ne-none r c e = elim (evict-Evicts r c) [
  | Evicting.nothing q _ _ ↦ cc (q, e)
  | from_mru i f p q _ _ ↦ cc (q, e)
  | from_mfu i f p q _ _ ↦ cc (q, e)
]

run-keeps :
    (r r' : ArcReplacer) (calls : List Call)
    → run r calls ≡ some r'
    → AllRoomy r calls
    → IsCounted r
    → IsBounded r
    → IsCounted r' × IsBounded r'
unfolding run AllRoomy
run-keeps r r' [] e room c b = (subst IsCounted (some_inj e) c, subst IsBounded (some_inj e) b)
run-keeps r r' (call ∷ calls) e room c b =
    let (s, es, er) = >>=-eq-some (step r call) _ e in
    run-keeps s r' calls er (room.1 s es) (step-IsCounted r s call es c)
      (step-IsBounded r s call es room.0 c b)

-- After any history of calls on a new replacer that did not panic, with a frame free for each new
-- page, the lists and the target are within their bounds, the counter of evictable frames is not
-- behind their number, and an eviction does not panic.
pub run-new :
    (replacer_size : ℕ) (calls : List Call) (r : ArcReplacer)
    → run (new replacer_size) calls ≡ some r
    → AllRoomy (new replacer_size) calls
    → IsCounted r × IsBounded r × (evict r ≢ none)
unfolding new
run-new n calls r e room =
    let (c, b) = run-keeps (new n) r calls e room (omega arith) (omega arith) in
    (c, b, evict-ne-none r c)
