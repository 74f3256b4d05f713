-- ===== src/Tests/BTree.antt =====
-- src/b_plus_tree.rs on nodes of two entries.
use buffer_pool.Base.{
  ℕ, zero, suc, ◌+◌, ◌<◌, ◌≡◌, refl, subst, ◌⊎◌, true, Option, none, some, List, [], ◌∷◌, arith,
  some_inj, length, get_elem?,
}
use buffer_pool.Frame.{zero_page, length-zero_page}
use buffer_pool.BTree.Key.{ℤ, pos, negsuc, key_le}
use buffer_pool.BTree.Sorted.{IsSorted, Above}
use buffer_pool.BTree.Leaf.{LeafNode, RecordId, find_kv}
use buffer_pool.BTree.Leaf
use buffer_pool.BTree.Leaf.Codec.{decode-encode_leaf}
use buffer_pool.BTree.Leaf.Search.{Finds, find_kv-Finds}
use buffer_pool.BTree.Internal.{InternalNode, find_child_index}
use buffer_pool.BTree.Internal
use buffer_pool.BTree.Internal.Codec.{decode-encode_internal}
use buffer_pool.BTree.Internal.Search.{find_child_index-last}

abbrev rid : RecordId
rid = record { page_id = 4; slot_num = 0 }

-- The keys are -2 and 7.
abbrev leaf : LeafNode
leaf = record { next_page_id = 0; entries = (negsuc 1, rid) ∷ (pos 7, rid) ∷ [] }

abbrev node : InternalNode
node = record { entries = (negsuc 1, 4) ∷ (pos 7, 5) ∷ [] }

two-IsSorted : {V : Type 0} (a b : ℤ × V) → key_le a.0 b.0 ≡ true → IsSorted (a ∷ b ∷ [])
unfolding IsSorted
two-IsSorted {V} a b le = sorted
  where
    sorted :
        (i j : ℕ) (x y : ℤ × V)
        → i < j
        → get_elem? (a ∷ b ∷ []) i ≡ some x
        → get_elem? (a ∷ b ∷ []) j ≡ some y
        → key_le x.0 y.0 ≡ true
    sorted zero zero x y lt ex ey = absurd (omega arith)
    sorted (suc i) zero x y lt ex ey = absurd (omega arith)
    sorted zero (suc zero) x y lt ex ey =
        subst (λ (z : ℤ × V). key_le x.0 z.0 ≡ true) (some_inj ey)
          (subst (λ (z : ℤ × V). key_le z.0 b.0 ≡ true) (some_inj ex) le)
    sorted zero (suc (suc j)) x y lt ex ey = cc
    sorted (suc zero) (suc zero) x y lt ex ey = absurd (omega arith)
    sorted (suc (suc i)) (suc zero) x y lt ex ey = absurd (omega arith)
    sorted (suc i) (suc (suc j)) x y lt ex ey = cc

decode-encode_leaf_example :
    (out : List ℕ) × (Leaf.encode leaf zero_page ≡ some out)
    × (length out ≡ length zero_page)
    × (Leaf.decode out ≡ some leaf)
    × (get_elem? out 0 ≡ some 1)
decode-encode_leaf_example =
    decode-encode_leaf leaf zero_page (omega (arith, length-zero_page)) (omega arith) (omega arith)
      ((omega arith, omega arith, omega arith), ((omega arith, omega arith, omega arith), tt))

find_kv-Finds_example :
    (r : Option (ℤ × RecordId)) × (find_kv leaf (pos 7) ≡ some r) × Finds leaf.entries (pos 7) r
find_kv-Finds_example = find_kv-Finds leaf (pos 7) (two-IsSorted (negsuc 1, rid) (pos 7, rid) refl)

decode-encode_internal_example :
    (out : List ℕ) × (Internal.encode node zero_page ≡ some out)
    × (length out ≡ length zero_page)
    × (Internal.decode out ≡ some node)
    × (get_elem? out 0 ≡ some 0)
decode-encode_internal_example =
    decode-encode_internal node zero_page (omega (arith, length-zero_page)) (omega arith)
      (omega arith, omega arith, (omega arith, omega arith, tt))

find_child_index-last_example :
    ((i : ℕ) × (e : ℤ × ℕ) × (find_child_index node (pos 3) ≡ some i)
      × (get_elem? node.entries i ≡ some e)
      × (key_le e.0 (pos 3) ≡ true)
      × Above node.entries (pos 3) (i + 1))
    ⊎ ((find_child_index node (pos 3) ≡ none) × Above node.entries (pos 3) 0)
find_child_index-last_example =
    find_child_index-last node (pos 3) (two-IsSorted (negsuc 1, 4) (pos 7, 5) refl)
