-- ===== src/Base/Assoc.antt =====
-- `HashMap` with numbers as keys: an association list with at most one entry for each key.
use Prim.Native.Nat.{ℕ, zero, suc, ◌+◌, ◌<◌, ◌≤◌}
use mathlib.Core.Path.{◌≡◌, refl, subst, sym, ap, ◌∙◌}
use mathlib.Core.Bool.{false}
use mathlib.Core.List.Perm
use mathlib.Core.List.{
  List, [], ◌∷◌, ◌++◌, map, Mem, Nodup, Perm, Nodup-cons, mem-cons_self, mem-cons_of_mem,
}
use mathlib.Core.Logic.{inl, inr}
use mathlib.Core.Option.{Option, none, some}
use native.Mathlib.Omega.{arith}
use native.Mathlib.Decide.{ℕ_discrete}
use buffer_pool.Base.Tests.{
  if◌then◌else◌, ◌==◌, Bool-cases, Option-cases, if_true, ==_self, eq_of_==, ne_of_==,
}
use buffer_pool.Base.Lists.{length}

module _ {ℓ} {V : Type ℓ} where
  abbrev pub get : List (ℕ × V) → ℕ → Option V
  get [] k = none
  get ((j, v) ∷ m) k = if j == k then some v else get m k

  -- The value of a present key is replaced in place.
  abbrev pub insert : ℕ → V → List (ℕ × V) → List (ℕ × V)
  insert k v [] = (k, v) ∷ []
  insert k v ((j, w) ∷ m) = if j == k then (k, v) ∷ m else (j, w) ∷ insert k v m

  abbrev pub remove : ℕ → List (ℕ × V) → List (ℕ × V)
  remove k [] = []
  remove k ((j, w) ∷ m) = if j == k then m else (j, w) ∷ remove k m

module _ {ℓ} {V : Type ℓ} where
  pub get-insert :
      (k j : ℕ) (v : V) (m : List (ℕ × V))
      → get (insert k v m) j ≡ (if k == j then some v else get m j)
  get-insert k j v [] = refl
  get-insert k j v ((i, w) ∷ m) = ground (arith, get-insert k j v m)

  pub get-remove_ne : (k j : ℕ) (m : List (ℕ × V)) → (k == j) ≡ false → get (remove k m) j ≡ get m j
  get-remove_ne k j [] h = refl
  get-remove_ne k j ((i, w) ∷ m) h = ground (arith, get-remove_ne k j m)

  pub length-remove :
      (k : ℕ) (m : List (ℕ × V)) (v : V) → get m k ≡ some v → length (remove k m) + 1 ≡ length m
  length-remove k [] v h = absurd (ground arith)
  length-remove k ((i, w) ∷ m) v h = ground (arith, length-remove k m v)

module _ {ℓ} {V : Type ℓ} where
  abbrev pub values : List (ℕ × V) → List V
  values = map (λ e. e.1)

  -- No key has two entries.
  abbrev pub Distinct : List (ℕ × V) → Type ℓ
  Distinct [] = Unit
  Distinct ((k, v) ∷ m) = (get m k ≡ none) × Distinct m

module _ {ℓ} {V : Type ℓ} where
  pub Distinct-insert : (k : ℕ) (v : V) (m : List (ℕ × V)) → Distinct m → Distinct (insert k v m)
  Distinct-insert k v [] d = (refl, tt)
  Distinct-insert k v ((i, w) ∷ m) d = elim (Bool-cases (i == k)) [
    | inl same ↦ let e : i ≡ k = ground arith in rw same (subst (λ j. get m j ≡ none) e d.0, d.1)
    | inr other ↦ rw other (rw get-insert (ground arith), Distinct-insert k v m d.1)
  ]

  get-remove_of_none : (k j : ℕ) (m : List (ℕ × V)) → get m j ≡ none → get (remove k m) j ≡ none
  get-remove_of_none k j [] h = refl
  get-remove_of_none k j ((i, w) ∷ m) h = ground (arith, get-remove_of_none k j m)

  pub Distinct-remove : (k : ℕ) (m : List (ℕ × V)) → Distinct m → Distinct (remove k m)
  Distinct-remove k [] d = tt
  Distinct-remove k ((i, w) ∷ m) d = elim (Bool-cases (i == k)) [
    | inl same ↦ rw same d.1
    | inr other ↦ rw other (get-remove_of_none k i m d.0, Distinct-remove k m d.1)
  ]

  pub get-remove_self : (k : ℕ) (m : List (ℕ × V)) → Distinct m → get (remove k m) k ≡ none
  get-remove_self k [] d = refl
  get-remove_self k ((i, w) ∷ m) d = elim (Bool-cases (i == k)) [
    | inl same ↦ let e : i ≡ k = ground arith in rw same (subst (λ j. get m j ≡ none) e d.0)
    | inr other ↦ rw other (rw other (get-remove_self k m d.1))
  ]

  pub values-insert_known :
      (k : ℕ) (v : V) (m : List (ℕ × V)) → get m k ≡ some v → values (insert k v m) ≡ values m
  values-insert_known k v [] h = absurd (ground arith)
  values-insert_known k v ((i, w) ∷ m) h = ground (arith, values-insert_known k v m)

  pub values-insert_new :
      (k : ℕ) (v : V) (m : List (ℕ × V))
      → get m k ≡ none
      → values (insert k v m) ≡ values m ++ v ∷ []
  values-insert_new k v [] h = refl
  values-insert_new k v ((i, w) ∷ m) h = ground (arith, values-insert_new k v m)

  pub values-remove-perm :
      (k : ℕ) (v : V) (m : List (ℕ × V))
      → get m k ≡ some v
      → Perm (values m) (v ∷ values (remove k m))
  values-remove-perm k v [] h = absurd (ground arith)
  values-remove-perm k v ((i, w) ∷ m) h = elim (Bool-cases (i == k)) [
    | inl same ↦ rw same (Perm.cons' (ground arith) Perm.rfl)
    | inr other ↦
        rw other
          (Perm.trans (Perm.cons w (values-remove-perm k v m (ground arith))) (Perm.swap v w _))
  ]

  pub mem-values : (k : ℕ) (v : V) (m : List (ℕ × V)) → get m k ≡ some v → Mem v (values m)
  mem-values k v [] h = absurd (ground arith)
  mem-values k v ((i, w) ∷ m) h = elim (Bool-cases (i == k)) [
    | inl same ↦ let e : v ≡ w = ground arith in rw e mem-cons_self
    | inr other ↦ mem-cons_of_mem w (mem-values k v m (ground arith))
  ]

  -- Where no two entries share a value, a value has one key.
  pub get_injective :
      (j k : ℕ) (v : V) (m : List (ℕ × V))
      → Nodup (values m)
      → get m j ≡ some v
      → get m k ≡ some v
      → j ≡ k
  get_injective j k v [] d hj hk = absurd (ground arith)
  get_injective j k v ((i, w) ∷ m) d hj hk =
      let (fresh, rest) = Nodup-cons.0 d in
      elim (Bool-cases (i == j)) [
        | inl ej ↦ elim (Bool-cases (i == k)) [
          | inl ek ↦ ground arith
          | inr nk ↦
              let e : w ≡ v = ground arith in
              absurd (fresh (rw e (mem-values k v m (ground arith))))
        ]
        | inr nj ↦ elim (Bool-cases (i == k)) [
          | inl ek ↦
              let e : w ≡ v = ground arith in
              absurd (fresh (rw e (mem-values j v m (ground arith))))
          | inr nk ↦ get_injective j k v m rest (ground arith) (ground arith)
        ]
      ]

  pub length-insert_known :
      (k : ℕ) (v w : V) (m : List (ℕ × V)) → get m k ≡ some w → length (insert k v m) ≡ length m
  length-insert_known k v w [] h = absurd (ground arith)
  length-insert_known k v w ((i, u) ∷ m) h = ground (arith, length-insert_known k v w m)

  pub length-insert_new :
      (k : ℕ) (v : V) (m : List (ℕ × V)) → get m k ≡ none → length (insert k v m) ≡ suc (length m)
  length-insert_new k v [] h = refl
  length-insert_new k v ((i, u) ∷ m) h = ground (arith, length-insert_new k v m)

module _ {ℓ} {V : Type ℓ} where
  -- As many keys as there are numbers below a bound, at most.
  pub length-bound :
      (n : ℕ) (m : List (ℕ × V))
      → Distinct m
      → ((k : ℕ) (v : V) → get m k ≡ some v → k < n)
      → length m ≤ n
  length-bound zero [] d below = omega arith
  length-bound zero ((k, v) ∷ m) d below =
      let bad = below k v (if_true _ _ (==_self k)) in absurd (omega arith)
  length-bound (suc n) m d below = elim (Option-cases (get m n)) [
    | inl absent ↦
        let fewer = length-bound n m d λ k v e. elim (ℕ_discrete k n) [
          | yes same ↦ let there = ap (get m) (sym same) ∙ e in cc (absent, there)
          | no other ↦ let lt = below k v e in omega arith
        ] in
        omega arith
    | inr (w, there) ↦
        let fewer = length-bound n (remove n m) (Distinct-remove n m d) λ k v e.
          elim (Bool-cases (n == k)) [
            | inl same ↦
                let gone = get-remove_self n m d in
                let kept = ap (get (remove n m)) (eq_of_== n k same) ∙ e in cc (gone, kept)
            | inr other ↦
                let lt = below k v (sym (get-remove_ne n k m other) ∙ e) in
                let ne = ne_of_== n k other in omega arith
          ] in
        omega (arith, length-remove n m w there)
  ]
