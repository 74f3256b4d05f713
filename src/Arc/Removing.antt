-- ===== src/Arc/Removing.antt =====
-- `remove`: what is left of a frame that the replacer is told to forget.
use buffer_pool.Base.{
  ℕ, ◌≤◌, ◌≡◌, refl, sym, ap, subst, ◌∙◌, ◌≢◌, ◌⊎◌, inl, inr, Bool, true, false, not, ◌&&◌, ◌||◌,
  Option, none, some, List, [], ◌∷◌, arith, ◌==◌, if◌then◌else◌, Bool-cases, eq_of_==, length,
  length-retain-le, contains, remove_set,
}
use buffer_pool.Arc.Scan.{has}
use buffer_pool.Arc.{ArcReplacer, remove, remove_from_mfu, forget, page_of, without_frame}
use buffer_pool.Arc.Cases.{tracks}

-- The list has no entry of the frame.
abbrev pub Lacks : List (ℕ × ℕ) → ℕ → Type 0
Lacks l f = (p : ℕ) → has l (f, p) ≡ false

has-without_frame :
    (f : ℕ) (x : ℕ × ℕ) (l : List (ℕ × ℕ)) → has (without_frame f l) x ≡ (not (x.0 == f) && has l x)
has-without_frame f x [] = ground arith
has-without_frame f x (y ∷ l) = ground (arith, has-without_frame f x l)

page_of-some : (f q : ℕ) (l : List (ℕ × ℕ)) → page_of f l (some q) ≢ none
unfolding page_of
page_of-some f q [] e = cc
page_of-some f q ((g, p) ∷ l) e = elim (Bool-cases (g == f)) [
  | inl same ↦ page_of-some f p l (rw same at e)
  | inr other ↦ page_of-some f q l (rw other at e)
]

-- A search that finds no page met no entry of the frame.
page_of-none : (f : ℕ) (l : List (ℕ × ℕ)) → page_of f l none ≡ none → Lacks l f
unfolding page_of
page_of-none f [] e = λ p. refl
page_of-none f ((g, q) ∷ l) e = elim (Bool-cases (g == f)) [
  | inl same ↦ absurd (page_of-some f q l (rw same at e))
  | inr other ↦ λ p. ground (arith, page_of-none f l (rw other at e) p)
]

Lacks-page_of : (f : ℕ) (l : List (ℕ × ℕ)) → Lacks l f → page_of f l none ≡ none
unfolding page_of
Lacks-page_of f [] h = refl
Lacks-page_of f ((g, q) ∷ l) h = elim (Bool-cases (g == f)) [
  | inl same ↦ absurd (ground (arith, h q))
  | inr other ↦ rw other (Lacks-page_of f l (λ p. ground (arith, h p)))
]

without_frame_absent :
    (f : ℕ) (x : ℕ × ℕ) (l : List (ℕ × ℕ)) → Lacks l f → has l x ≡ (not (x.0 == f) && has l x)
without_frame_absent f (g, p) l h = elim (Bool-cases (g == f)) [
  | inl same ↦ rw same (subst (λ k. has l (k, p) ≡ false) (sym (eq_of_== g f same)) (h p))
  | inr other ↦ rw other refl
]

forget-tracks :
    (r : ArcReplacer) (f : ℕ) (found : Option ℕ) (x : ℕ × ℕ)
    → tracks (forget r f found) x ≡ tracks r x
unfolding forget
forget-tracks r f none x = refl
forget-tracks r f (some p) x = refl

module _ (r : ArcReplacer) (f : ℕ) (x : ℕ × ℕ) where
  both : (e a b : Bool) → ((e && a) || (e && b)) ≡ (e && (a || b))
  both e a b = ground arith

  removed_from_mfu :
      (found : Option ℕ)
      → page_of f r.mru none ≡ found
      → (found ≢ none → Lacks r.mfu f)
      → tracks (remove_from_mfu (record r { mru = without_frame f r.mru }) f found) x
        ≡ (not (x.0 == f) && tracks r x)
  unfolding remove_from_mfu
  removed_from_mfu none e h =
      forget-tracks (record r { mru = without_frame f r.mru; mfu = without_frame f r.mfu }) f
        (page_of f r.mfu none) x
      ∙ rw (has-without_frame f x r.mru, has-without_frame f x r.mfu)
          (both (not (x.0 == f)) (has r.mru x) (has r.mfu x))
  removed_from_mfu (some q) e h =
      forget-tracks (record r { mru = without_frame f r.mru }) f (some q) x
      ∙ rw (has-without_frame f x r.mru) (
          ap (λ t. (not (x.0 == f) && has r.mru x) || t)
            (without_frame_absent f x r.mfu (h (λ n. cc)))
          ∙ both (not (x.0 == f)) (has r.mru x) (has r.mfu x))

-- A frame that is not evictable and has entries in one of the two lists at most is forgotten: no
-- entry of it stays, and every other entry does.
pub tracks-remove :
    (r : ArcReplacer) (frame_id : ℕ) (x : ℕ × ℕ)
    → contains r.evictable_pages frame_id ≡ false
    → Lacks r.mru frame_id ⊎ Lacks r.mfu frame_id
    → tracks (remove r frame_id) x ≡ (not (x.0 == frame_id) && tracks r x)
unfolding remove
tracks-remove r f x pinned one =
    rw pinned (removed_from_mfu r f x (page_of f r.mru none) refl (λ found. absent found one))
  where
    absent : page_of f r.mru none ≢ none → Lacks r.mru f ⊎ Lacks r.mfu f → Lacks r.mfu f
    absent found (inl h) = absurd (found (Lacks-page_of f r.mru h))
    absent found (inr h) = h

contains-remove_set : (a : ℕ) (l : List ℕ) → contains (remove_set a l) a ≡ false
contains-remove_set a [] = refl
contains-remove_set a (x ∷ l) = ground (arith, contains-remove_set a l)

-- Of a frame that no list knows, `remove` takes the page to be 0, and drops page 0 from both
-- ghost lists.
pub remove_unknown_drops_zero :
    (r : ArcReplacer) (frame_id : ℕ)
    → contains r.evictable_pages frame_id ≡ false
    → Lacks r.mru frame_id
    → Lacks r.mfu frame_id
    → (contains (remove r frame_id).mru_ghost 0 ≡ false)
      × (contains (remove r frame_id).mfu_ghost 0 ≡ false)
unfolding remove remove_from_mfu forget
remove_unknown_drops_zero r f pinned no_mru no_mfu =
    rw (pinned, Lacks-page_of f r.mru no_mru)
      (rw (Lacks-page_of f r.mfu no_mfu)
        (contains-remove_set 0 r.mru_ghost, contains-remove_set 0 r.mfu_ghost))

-- No list grows, and the sizes stay.
pub record Shrinks (r r' : ArcReplacer) : Type 0 where
  pub mru : length r'.mru ≤ length r.mru
  pub mfu : length r'.mfu ≤ length r.mfu
  pub mru_ghost : length r'.mru_ghost ≤ length r.mru_ghost
  pub mfu_ghost : length r'.mfu_ghost ≤ length r.mfu_ghost
  pub evictable : length r'.evictable_pages ≤ length r.evictable_pages
  pub curr : r'.curr_size ≡ r.curr_size
  pub target : r'.mru_target_size ≡ r.mru_target_size
  pub size : r'.replacer_size ≡ r.replacer_size

forget-Shrinks : (r : ArcReplacer) (f : ℕ) (found : Option ℕ) → Shrinks r (forget r f found)
unfolding forget
forget-Shrinks r f none = omega (arith, length-retain-le {0})
forget-Shrinks r f (some p) = omega (arith, length-retain-le {0})

pub remove-Shrinks : (r : ArcReplacer) (f : ℕ) → Shrinks r (remove r f)
unfolding remove
remove-Shrinks r f = elim (Bool-cases (contains r.evictable_pages f)) [
  | inl free ↦ rw free (omega arith)
  | inr pinned ↦ rw pinned (from_mfu (page_of f r.mru none))
]
  where
    less : (l : List (ℕ × ℕ)) → length (without_frame f l) ≤ length l
    less l = length-retain-le (λ e. if e.0 == f then false else true) l

    from_mfu :
        (found : Option ℕ)
        → Shrinks r (remove_from_mfu (record r { mru = without_frame f r.mru }) f found)
    from_mfu none =
        unfold remove_from_mfu in
        (let s =
            forget-Shrinks (record r { mru = without_frame f r.mru; mfu = without_frame f r.mfu }) f
              (page_of f r.mfu none) in
          omega (arith, s, less r.mru, less r.mfu))
    from_mfu (some p) =
        unfold remove_from_mfu in
        (let s = forget-Shrinks (record r { mru = without_frame f r.mru }) f (some p) in
          omega (arith, s, less r.mru))
