-- ===== src/BTree/Sorted.antt =====
-- Entries in the order of their keys, and what a binary search knows of them.
use buffer_pool.Base.{
  ℕ, zero, suc, ◌+◌, ◌≤◌, ◌<◌, ◌≡◌, refl, sym, ap, subst, ◌∙◌, ◌≢◌, Bool, true, false, some, List,
  [], ◌∷◌, arith, ℕ_discrete, some_inj, length, get_elem?,
}
use buffer_pool.BTree.Key.{
  ℤ, key_le, key_eq, key_le_trans, key_le_refl, key_eq-antisym, eq_of_key_eq,
}

false_of_not : (b : Bool) → (b ≡ true → ⊥) → b ≡ false
false_of_not true h = absurd (h refl)
false_of_not false h = refl

module _ {ℓ} {V : Type ℓ} where
  unfoldable pub IsSorted : List (ℤ × V) → Type ℓ
  IsSorted entries =
      (i j : ℕ) (a b : ℤ × V)
      → i < j
      → get_elem? entries i ≡ some a
      → get_elem? entries j ≡ some b
      → key_le a.0 b.0 ≡ true

  -- The entries before `low` have keys up to `key`; those from `high` on have greater ones.
  abbrev pub Below : List (ℤ × V) → ℤ → ℕ → Type ℓ
  Below entries key low =
      (i : ℕ) (e : ℤ × V) → i < low → get_elem? entries i ≡ some e → key_le e.0 key ≡ true

  abbrev pub Above : List (ℤ × V) → ℤ → ℕ → Type ℓ
  Above entries key high =
      (i : ℕ) (e : ℤ × V) → high ≤ i → get_elem? entries i ≡ some e → key_le e.0 key ≡ false

  -- No entry before `low` has the key, and none from `high` on.
  abbrev pub NotBelow : List (ℤ × V) → ℤ → ℕ → Type ℓ
  NotBelow entries key low =
      (i : ℕ) (e : ℤ × V) → i < low → get_elem? entries i ≡ some e → key_eq e.0 key ≡ false

  abbrev pub NotAbove : List (ℤ × V) → ℤ → ℕ → Type ℓ
  NotAbove entries key high =
      (i : ℕ) (e : ℤ × V) → high ≤ i → get_elem? entries i ≡ some e → key_eq e.0 key ≡ false

  pub get_elem?-within :
      (l : List (ℤ × V)) (i : ℕ) → i < length l → (e : ℤ × V) × (get_elem? l i ≡ some e)
  get_elem?-within [] i h = absurd (omega arith)
  get_elem?-within (x ∷ l) zero h = (x, refl)
  get_elem?-within (x ∷ l) (suc i) h = get_elem?-within l i (omega arith)

  pub get_elem?-beyond :
      (l : List (ℤ × V)) (i : ℕ) (e : ℤ × V) → length l ≤ i → get_elem? l i ≢ some e
  get_elem?-beyond [] i e h q = cc
  get_elem?-beyond (x ∷ l) zero e h q = absurd (omega arith)
  get_elem?-beyond (x ∷ l) (suc i) e h q = get_elem?-beyond l i e (omega arith) q

  module _ (entries : List (ℤ × V)) (key : ℤ) (sorted : IsSorted entries) (mid : ℕ) (m : ℤ × V)
      (at : get_elem? entries mid ≡ some m) where
    -- Two entries at the same place are the same.
    same_entry : (i : ℕ) (e : ℤ × V) → get_elem? entries i ≡ some e → i ≡ mid → e ≡ m
    same_entry i e h q = some_inj (sym h ∙ ap (get_elem? entries) q ∙ at)

    pub up_to : (i : ℕ) (e : ℤ × V) → get_elem? entries i ≡ some e → i ≤ mid → key_le e.0 m.0 ≡ true
    unfolding IsSorted
    up_to i e h le = elim (ℕ_discrete i mid) [
      | yes q ↦ subst (λ (x : ℤ × V). key_le e.0 x.0 ≡ true) (same_entry i e h q) (key_le_refl e.0)
      | no ne ↦ sorted i mid e m (omega arith) h at
    ]

    pub from : (i : ℕ) (e : ℤ × V) → get_elem? entries i ≡ some e → mid ≤ i → key_le m.0 e.0 ≡ true
    unfolding IsSorted
    from i e h le = elim (ℕ_discrete i mid) [
      | yes q ↦ subst (λ (x : ℤ × V). key_le x.0 e.0 ≡ true) (same_entry i e h q) (key_le_refl e.0)
      | no ne ↦ sorted mid i m e (omega arith) at h
    ]

    pub Below-mid : key_le m.0 key ≡ true → Below entries key (mid + 1)
    Below-mid le i e lt h = key_le_trans e.0 m.0 key (up_to i e h (omega arith)) le

    pub Above-mid : key_le m.0 key ≡ false → Above entries key mid
    Above-mid gt i e le h =
        false_of_not (key_le e.0 key)
          (λ q. let bad = key_le_trans m.0 e.0 key (from i e h le) q in cc (bad, gt))

    pub NotBelow-mid :
        key_le m.0 key ≡ true → key_eq m.0 key ≡ false → NotBelow entries key (mid + 1)
    NotBelow-mid le ne i e lt h = false_of_not (key_eq e.0 key) (λ q.
        let above : key_le key m.0 ≡ true =
          subst (λ k. key_le k m.0 ≡ true) (eq_of_key_eq e.0 key q) (up_to i e h (omega arith)) in
        let bad = key_eq-antisym m.0 key le above in cc (bad, ne))

    pub NotAbove-mid : key_le m.0 key ≡ false → NotAbove entries key mid
    NotAbove-mid gt i e le h = false_of_not (key_eq e.0 key) (λ q.
        let bad : key_le m.0 key ≡ true =
          subst (λ k. key_le m.0 k ≡ true) (eq_of_key_eq e.0 key q) (from i e h le) in
        cc (bad, gt))
