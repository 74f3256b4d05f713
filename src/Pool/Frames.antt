-- ===== src/Pool/Frames.antt =====
-- Which frame belongs to which page: the pool's invariant.
use mathlib.Core.List.Perm
use mathlib.Core.List.Nodup
use mathlib.Core.List.{
  Nodup-cons, Nodup-nil, Nodup-append, mem-append_left, mem-append_right, not-mem-nil, mem-cons,
}
use mathlib.Core.Logic.Or
use native.Mathlib.Bridge.{le_prop}
use buffer_pool.Base.{
  ℕ, zero, suc, ◌<◌, ◌≡◌, refl, sym, subst, ◌∙◌, ◌≢◌, inl, inr, none, some, List, [], ◌∷◌, ◌++◌,
  Mem, Nodup, Perm, arith, ℕ_discrete, ◌==◌, Bool-cases, eq_of_==, some_inj, if_false, length,
  get_elem?, set, length-set, get_elem?-set_self, get_elem?-set_ne,
}
use buffer_pool.Base.Assoc
use buffer_pool.Base.Assoc.{values, Distinct}
use buffer_pool.Common.{page_size}
use buffer_pool.Frame.{FrameHeader}
use buffer_pool.Pool.{BufferPoolManager, stack_of, page_of_frame}

-- `n` frames, each of which knows its place and holds a whole page.
pub record AreFrames (n : ℕ) (frames : List FrameHeader) : Type 0 where
  pub count : length frames ≡ n
  pub placed : (i : ℕ) (f : FrameHeader) → get_elem? frames i ≡ some f → f.frame_id ≡ i
  pub whole : (i : ℕ) (f : FrameHeader) → get_elem? frames i ≡ some f → length f.bytes ≡ page_size

-- Every frame is either free or the frame of one page.
pub record IsValid (p : BufferPoolManager) : Type 0 where
  pub distinct : Distinct p.page_table
  pub owned : Perm (values p.page_table ++ p.free_frames) (stack_of p.num_frames)
  pub frames : AreFrames p.num_frames p.shared.frames

-- A frame may be replaced by one at the same place that holds a whole page.
pub set-AreFrames :
    (n : ℕ) (frames : List FrameHeader) (i : ℕ) (f : FrameHeader)
    → i < n
    → f.frame_id ≡ i
    → length f.bytes ≡ page_size
    → AreFrames n frames
    → AreFrames n (set frames i f)
set-AreFrames n frames i f lt id full a = record {
  count = length-set frames i f ∙ a.count;
  placed = λ j g e. elim (ℕ_discrete i j) [
    | yes same ↦ subst (λ (h : FrameHeader). h.frame_id ≡ j) (here j g same e) (id ∙ same)
    | no other ↦ a.placed j g (sym (get_elem?-set_ne frames i j f other) ∙ e)
  ];
  whole = λ j g e. elim (ℕ_discrete i j) [
    | yes same ↦ subst (λ (h : FrameHeader). length h.bytes ≡ page_size) (here j g same e) full
    | no other ↦ a.whole j g (sym (get_elem?-set_ne frames i j f other) ∙ e)
  ];
}
  where
    here : (j : ℕ) (g : FrameHeader) → i ≡ j → get_elem? (set frames i f) j ≡ some g → f ≡ g
    here j g same e = some_inj (
        sym (get_elem?-set_self frames i f (rw a.count lt))
        ∙ subst (λ k. get_elem? (set frames i f) k ≡ some g) (sym same) e)

mem-stack_of : (n i : ℕ) → Mem i (stack_of n) → i < n
unfolding stack_of
mem-stack_of zero i m = absurd (not-mem-nil m)
mem-stack_of (suc n) i m =
    Or.elim le_prop (mem-cons.0 m) (λ e. rw e (omega arith))
      (λ rest. let below = mem-stack_of n i rest in omega (arith, below))

stack_of-Nodup : (n : ℕ) → Nodup (stack_of n)
unfolding stack_of
stack_of-Nodup zero = Nodup-nil
stack_of-Nodup (suc n) =
    Nodup-cons.1 (λ m. let below = mem-stack_of n n m in absurd (omega arith), stack_of-Nodup n)

pub get_elem?-of_lt :
    (frames : List FrameHeader) (i : ℕ)
    → i < length frames
    → (f : FrameHeader) × (get_elem? frames i ≡ some f)
get_elem?-of_lt [] i lt = absurd (omega arith)
get_elem?-of_lt (f ∷ frames) zero lt = (f, refl)
get_elem?-of_lt (f ∷ frames) (suc i) lt = get_elem?-of_lt frames i (omega arith)

module _ (p : BufferPoolManager) (v : IsValid p) where
  owned-Nodup : Nodup (values p.page_table ++ p.free_frames)
  owned-Nodup = Perm.nodup (Perm.symm v.owned) (stack_of-Nodup p.num_frames)

  pub used-lt : (page_id i : ℕ) → Assoc.get p.page_table page_id ≡ some i → i < p.num_frames
  used-lt page_id i e = mem-stack_of p.num_frames i (
      Perm.subset v.owned i
        (mem-append_left p.free_frames (Assoc.mem-values page_id i p.page_table e)))

  pub free-lt : (i : ℕ) → Mem i p.free_frames → i < p.num_frames
  free-lt i m =
      mem-stack_of p.num_frames i (Perm.subset v.owned i (mem-append_right (values p.page_table) m))

  -- A free frame is no page's, and two pages have two frames.
  pub free-ne-used :
      (page_id i j : ℕ) → Mem i p.free_frames → Assoc.get p.page_table page_id ≡ some j → i ≢ j
  free-ne-used page_id i j m e same =
      (Nodup-append.0 owned-Nodup).2 j (Assoc.mem-values page_id j p.page_table e)
        (subst (λ k. Mem k p.free_frames) same m)

  pub used_apart :
      (page_id other i j : ℕ)
      → Assoc.get p.page_table page_id ≡ some i
      → Assoc.get p.page_table other ≡ some j
      → other ≢ page_id
      → i ≢ j
  used_apart page_id other i j e h ne same = ne (
      Assoc.get_injective other page_id j p.page_table
        (Nodup.of_append_left p.free_frames owned-Nodup) h
        (subst (λ k. Assoc.get p.page_table page_id ≡ some k) same e))

pub page_of_frame-get :
    (i page_id : ℕ) (m : List (ℕ × ℕ))
    → Distinct m
    → page_of_frame i m ≡ some page_id
    → Assoc.get m page_id ≡ some i
unfolding page_of_frame
page_of_frame-get i page_id [] d e = cc
page_of_frame-get i page_id ((k, f) ∷ m) d e = elim (Bool-cases (f == i)) [
  | inl same ↦ ground (arith, same, e)
  | inr other ↦
      let rest = page_of_frame-get i page_id m d.1 (sym (if_false _ _ other) ∙ e) in
      elim (Bool-cases (k == page_id)) [
        | inl twice ↦
            let absent : Assoc.get m page_id ≡ none =
              subst (λ x. Assoc.get m x ≡ none) (eq_of_== k page_id twice) d.0 in
            cc (absent, rest)
        | inr apart ↦ if_false _ _ apart ∙ rest
      ]
]
