-- ===== src/BTree/Leaf/Search.antt =====
-- `find_kv` of `LeafNode`: the binary search for a key.
use buffer_pool.Base.{
  ℕ, zero, suc, ◌+◌, ◌-◌, ◌/◌, ◌≤◌, ◌<◌, ◌≡◌, refl, ◌⊎◌, inl, inr, false, Option, none, some, List,
  arith, dec_lt, ltb, ltb→lt, Bool-cases, if_false, length, get_elem?,
}
use buffer_pool.BTree.Key.{ℤ, key_le, key_eq, eq_of_key_eq}
use buffer_pool.BTree.Sorted.{
  IsSorted, NotBelow, NotAbove, NotBelow-mid, NotAbove-mid, get_elem?-within, get_elem?-beyond,
}
use buffer_pool.BTree.Leaf.{RecordId, LeafNode, kv_loop, find_kv}

-- An entry with the key, or nothing where no entry has it.
abbrev pub Finds : List (ℤ × RecordId) → ℤ → Option (ℤ × RecordId) → Type 0
Finds entries key r =
    ((r ≡ none)
      × ((i : ℕ) (e : ℤ × RecordId) → get_elem? entries i ≡ some e → key_eq e.0 key ≡ false))
    ⊎ ((i : ℕ) × (e : ℤ × RecordId) × (r ≡ some e) × (get_elem? entries i ≡ some e) × (e.0 ≡ key))

kv_loop-Finds :
    (fuel : ℕ) (entries : List (ℤ × RecordId)) (key : ℤ) (low high : ℕ)
    → low ≤ high
    → high < low + fuel
    → high ≤ length entries
    → IsSorted entries
    → NotBelow entries key low
    → NotAbove entries key high
    → (r : Option (ℤ × RecordId)) × (kv_loop fuel entries key low high ≡ some r)
      × Finds entries key r
unfolding kv_loop
kv_loop-Finds zero entries key low high o f h s below above = absurd (omega arith)
kv_loop-Finds (suc fuel) entries key low high o f h s below above =
    elim (Bool-cases (ltb low high)) [
      | inr done ↦ (
        none,
        if_false _ _ done,
        inl (
          refl,
          λ i e q. elim (dec_lt i low) [
            | yes lt ↦ below i e lt q
            | no ge ↦ above i e (ground (arith, done)) q
          ],
        ),
      )
      | inl more ↦
          let lt = ltb→lt low high more in
          let mid = low + (high - low) / 2 in
          let (m, at) = get_elem?-within entries mid (omega arith) in
          elim (Bool-cases (key_eq m.0 key)) [
            | inl found ↦ (
              some m,
              rw (more, at, found) refl,
              inr (mid, m, refl, at, eq_of_key_eq m.0 key found),
            )
            | inr other ↦ elim (Bool-cases (key_le m.0 key)) [
              | inl smaller ↦
                  let (r, e, finds) =
                    kv_loop-Finds fuel entries key (mid + 1) high (omega arith) (omega arith) h s
                      (NotBelow-mid entries key s mid m at smaller other) above in
                  (r, rw (more, at, other, smaller) e, finds)
              | inr greater ↦
                  let (r, e, finds) =
                    kv_loop-Finds fuel entries key low mid (omega arith) (omega arith) (omega arith)
                      s below (NotAbove-mid entries key s mid m at greater) in
                  (r, rw (more, at, other, greater) e, finds)
            ]
          ]
    ]

-- In a leaf whose entries are sorted, the search ends without a panic. It returns an entry of the
-- leaf with the key, and nothing only if no entry has the key.
pub find_kv-Finds :
    (node : LeafNode) (key : ℤ)
    → IsSorted node.entries
    → (r : Option (ℤ × RecordId)) × (find_kv node key ≡ some r) × Finds node.entries key r
unfolding find_kv
find_kv-Finds node key s =
    kv_loop-Finds (length node.entries + 1) node.entries key 0 (length node.entries) (omega arith)
      (omega arith) (omega arith) s (λ i e lt q. absurd (omega arith))
      (λ i e le q. absurd (get_elem?-beyond node.entries i e le q))
