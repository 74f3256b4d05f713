-- ===== src/Arc/Scan.antt =====
-- The searches in the lists of (frame, page) entries.
use buffer_pool.Base.{
  ℕ, zero, suc, ◌≤◌, ◌<◌, ◌≡◌, refl, subst, ◌⊎◌, inl, inr, Bool, true, false, not, ◌&&◌, ◌||◌,
  Option, none, some, List, [], ◌∷◌, arith, ℕ_discrete, if◌then◌else◌, Bool-cases, Option-cases,
  length, get_elem?, retain, any, length-retain-le, contains,
}
use buffer_pool.Arc.Stamps.{pair_eq}

-- `list.contains(&entry)`.
abbrev pub has : List (ℕ × ℕ) → ℕ × ℕ → Bool
has l x = any (λ e. pair_eq e x) l

-- `list.retain(..)` of all that differ from the entry.
abbrev pub without : ℕ × ℕ → List (ℕ × ℕ) → List (ℕ × ℕ)
without x = retain λ e. not (pair_eq e x)

-- The loop of an eviction, from the back of the list: the place of the first entry it meets whose
-- frame is evictable, with the entry.
unfoldable pub scan : ℕ → List (ℕ × ℕ) → List ℕ → Option (ℕ × ℕ × ℕ)
scan zero l evictable = none
scan (suc i) l evictable =
    let rest = scan i l evictable in
    elim (get_elem? l i) [
      | none ↦ rest
      | some (frame_id, page_id) ↦
          if contains evictable frame_id then some (i, frame_id, page_id) else rest
    ]

-- Entry `i` of the list is (frame, page), its frame is evictable, and no entry of the first `n`
-- behind it is.
pub record IsVictim (n : ℕ) (l : List (ℕ × ℕ)) (evictable : List ℕ) (i frame_id page_id : ℕ)
    : Type 0 where
  pub within : i < n
  pub entry : get_elem? l i ≡ some (frame_id, page_id)
  pub allowed : contains evictable frame_id ≡ true
  pub oldest :
      (j f p : ℕ) → i < j → j < n → get_elem? l j ≡ some (f, p) → contains evictable f ≡ false

-- None of the first `n` entries has an evictable frame.
abbrev pub NoneEvictable : ℕ → List (ℕ × ℕ) → List ℕ → Type 0
NoneEvictable n l evictable =
    (j f p : ℕ) → j < n → get_elem? l j ≡ some (f, p) → contains evictable f ≡ false

abbrev pub Scans : ℕ → List (ℕ × ℕ) → List ℕ → Option (ℕ × ℕ × ℕ) → Type 0
Scans n l evictable r =
    ((r ≡ none) × NoneEvictable n l evictable)
    ⊎ ((i : ℕ) × (frame_id : ℕ) × (page_id : ℕ) × (r ≡ some (i, frame_id, page_id))
        × IsVictim n l evictable i frame_id page_id)

NoneEvictable-suc :
    (n : ℕ) (l : List (ℕ × ℕ)) (evictable : List ℕ)
    → ((f p : ℕ) → get_elem? l n ≡ some (f, p) → contains evictable f ≡ false)
    → NoneEvictable n l evictable
    → NoneEvictable (suc n) l evictable
NoneEvictable-suc n l evictable here below j f p lt e = elim (ℕ_discrete j n) [
  | yes same ↦ here f p (subst (λ k. get_elem? l k ≡ some (f, p)) same e)
  | no other ↦ below j f p (omega arith) e
]

IsVictim-suc :
    {n : ℕ} {l : List (ℕ × ℕ)} {evictable : List ℕ} {i frame_id page_id : ℕ}
    → ((f p : ℕ) → get_elem? l n ≡ some (f, p) → contains evictable f ≡ false)
    → IsVictim n l evictable i frame_id page_id
    → IsVictim (suc n) l evictable i frame_id page_id
IsVictim-suc {n} {l} here v = record {
  within = omega (arith, v.within);
  entry = v.entry;
  allowed = v.allowed;
  oldest = λ j f p lt lt' e. elim (ℕ_discrete j n) [
    | yes same ↦ here f p (subst (λ k. get_elem? l k ≡ some (f, p)) same e)
    | no other ↦ v.oldest j f p lt (omega arith) e
  ];
}

Scans-suc :
    (n : ℕ) (l : List (ℕ × ℕ)) (evictable : List ℕ) (r : Option (ℕ × ℕ × ℕ))
    → ((f p : ℕ) → get_elem? l n ≡ some (f, p) → contains evictable f ≡ false)
    → Scans n l evictable r
    → Scans (suc n) l evictable r
Scans-suc n l evictable r here (inl (e, below)) =
    inl (e, NoneEvictable-suc n l evictable here below)
Scans-suc n l evictable r here (inr (i, f, p, e, v)) = inr (i, f, p, e, IsVictim-suc here v)

-- The loop finds the last evictable entry, and fails only if there is none.
pub scan-Scans :
    (n : ℕ) (l : List (ℕ × ℕ)) (evictable : List ℕ) → Scans n l evictable (scan n l evictable)
unfolding scan
scan-Scans zero l evictable = inl (refl, λ j f p lt e. absurd (omega arith))
scan-Scans (suc n) l evictable = elim (Option-cases (get_elem? l n)) [
  | inl e ↦
      rw (e, scan)
        (Scans-suc n l evictable (scan n l evictable) (λ f p h. cc (e, h))
          (scan-Scans n l evictable))
  | inr ((frame_id, page_id), e) ↦ elim (Bool-cases (contains evictable frame_id)) [
    | inl allowed ↦
        rw (e, scan)
          (rw allowed (
            inr (
              n,
              frame_id,
              page_id,
              refl,
              record {
                within = omega arith;
                entry = e;
                allowed = allowed;
                oldest = λ j f p lt lt' h. absurd (omega arith);
              },
            )))
    | inr denied ↦
        rw (e, scan)
          (rw denied (
            Scans-suc n l evictable (scan n l evictable)
              (λ f p h. subst (λ k. contains evictable k ≡ false) (ground (arith, e, h)) denied)
              (scan-Scans n l evictable)))
  ]
]

pub pair_eq_self : (x : ℕ × ℕ) → pair_eq x x ≡ true
pair_eq_self (a, b) = ground arith

pub eq_of_pair_eq : (x y : ℕ × ℕ) → pair_eq x y ≡ true → x ≡ y
eq_of_pair_eq (a, b) (c, d) h = ground arith

pub length-without-le : (x : ℕ × ℕ) (l : List (ℕ × ℕ)) → length (without x l) ≤ length l
length-without-le x l = length-retain-le (λ e. not (pair_eq e x)) l

pub length-without :
    (x : ℕ × ℕ) (l : List (ℕ × ℕ)) → has l x ≡ true → length (without x l) < length l
length-without x [] h = absurd (ground arith)
length-without x (y ∷ l) h = elim (Bool-cases (pair_eq y x)) [
  | inl same ↦ rw same (omega (arith, length-without-le x l))
  | inr other ↦ rw other (omega (arith, length-without x l (rw other at h)))
]

-- Taking an entry out leaves the others.
pub has-without :
    (x y : ℕ × ℕ) (l : List (ℕ × ℕ)) → has (without x l) y ≡ not (pair_eq x y) && has l y
has-without x y [] = ground arith
has-without x y (z ∷ l) = elim (Bool-cases (pair_eq z x)) [
  | inl same ↦
      rw (same, has-without x y l, eq_of_pair_eq z x same) (and_not_absorb (pair_eq x y) (has l y))
  | inr other ↦
      rw (other, has-without x y l)
        (elim (Bool-cases (pair_eq z y)) [
          | inl e ↦
              let z' = eq_of_pair_eq z y e in
              let apart : pair_eq x y ≡ false =
                differs (pair_eq x y) (pair_eq z x) other
                  (λ h. rw (z', eq_of_pair_eq x y h) (pair_eq_self y)) in
              rw (e, apart)
          | inr n ↦ rw n
        ])
]
  where
    and_not_absorb : (a b : Bool) → (not a && b) ≡ (not a && (a || b))
    and_not_absorb a b = ground arith

    differs : (a b : Bool) → b ≡ false → (a ≡ true → b ≡ true) → a ≡ false
    differs true b h k = cc (h, k refl)
    differs false b h k = refl
