-- ===== src/BTree/Internal/Search.antt =====
-- `find_child_index` of `InternalNode`: which child a key belongs to.
use buffer_pool.Base.{
  ℕ, zero, suc, ◌+◌, ◌-◌, ◌/◌, ◌≤◌, ◌<◌, ◌≡◌, refl, subst, ◌⊎◌, inl, inr, true, none, some, List,
  arith, ℕ_discrete, ltb, leb, ltb→lt, Bool-cases, if_false, length, get_elem?,
}
use buffer_pool.BTree.Key.{ℤ, key_le}
use buffer_pool.BTree.Sorted.{
  IsSorted, Below, Above, Below-mid, Above-mid, get_elem?-within, get_elem?-beyond,
}
use buffer_pool.BTree.Internal.{InternalNode, child_loop, find_child_index}

child_loop-splits :
    (fuel : ℕ) (entries : List (ℤ × ℕ)) (key : ℤ) (low high : ℕ)
    → low ≤ high
    → high < low + fuel
    → high ≤ length entries
    → IsSorted entries
    → Below entries key low
    → Above entries key high
    → (n : ℕ) × (child_loop fuel entries key low high ≡ some n)
      × (n ≤ length entries)
      × Below entries key n
      × Above entries key n
unfolding child_loop
child_loop-splits zero entries key low high o f h s below above = absurd (omega arith)
child_loop-splits (suc fuel) entries key low high o f h s below above =
    elim (Bool-cases (ltb low high)) [
      | inr done ↦
          let met : high ≡ low = ground (arith, done, o) in
          (low, if_false _ _ done, omega arith, below, subst (Above entries key) met above)
      | inl more ↦
          let lt = ltb→lt low high more in
          let mid = low + (high - low) / 2 in
          let (m, at) = get_elem?-within entries mid (omega arith) in
          elim (Bool-cases (key_le m.0 key)) [
            | inl smaller ↦
                let (n, e, w, b, a) =
                  child_loop-splits fuel entries key (mid + 1) high (omega arith) (omega arith) h s
                    (Below-mid entries key s mid m at smaller) above in
                (n, rw (more, at, smaller) e, w, b, a)
            | inr greater ↦
                let (n, e, w, b, a) =
                  child_loop-splits fuel entries key low mid (omega arith) (omega arith)
                    (omega arith) s below (Above-mid entries key s mid m at greater) in
                (n, rw (more, at, greater) e, w, b, a)
          ]
    ]

-- In an internal node whose entries are sorted, either the search returns the place of the last
-- entry with a key up to the given one, or every entry has a greater key, and it panics.
pub find_child_index-last :
    (node : InternalNode) (key : ℤ)
    → IsSorted node.entries
    → ((i : ℕ) × (e : ℤ × ℕ) × (find_child_index node key ≡ some i)
        × (get_elem? node.entries i ≡ some e)
        × (key_le e.0 key ≡ true)
        × Above node.entries key (i + 1))
      ⊎ ((find_child_index node key ≡ none) × Above node.entries key 0)
unfolding find_child_index
find_child_index-last node key s =
    let (n, e, within, below, above) =
      child_loop-splits (length node.entries + 1) node.entries key 0 (length node.entries)
        (omega arith) (omega arith) (omega arith) s (λ i e lt q. absurd (omega arith))
        (λ i e le q. absurd (get_elem?-beyond node.entries i e le q)) in
    elim (ℕ_discrete n 0) [
      | yes nothing ↦
          inr (
            rw (e, find_child_index) (rw nothing refl),
            subst (Above node.entries key) nothing above,
          )
      | no positive ↦
          let (x, at) = get_elem?-within node.entries (n - 1) (omega arith) in
          let positive' : leb 1 n ≡ true = ground (arith, positive) in
          inl (
            n - 1,
            x,
            rw (e, find_child_index) (rw positive' refl),
            at,
            below (n - 1) x (omega arith) at,
            subst (Above node.entries key) (omega arith) above,
          )
    ]
