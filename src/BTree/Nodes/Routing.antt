-- ===== src/BTree/Nodes/Routing.antt =====
-- The children of internal nodes in `BTree::insert`: where a key is sent after a node got a child,
-- and after it was split.
use buffer_pool.Base.{
  ℕ, zero, suc, ◌+◌, ◌-◌, ◌/◌, ◌≤◌, ◌≡◌, refl, sym, ap, subst, ◌∙◌, inl, inr, true, false, Option,
  none, some, List, [], ◌∷◌, ◌++◌, map, arith, dec_lt, ℕ_discrete, if◌then◌else◌, Bool-cases, ◌>>=◌,
  some_inj, if_true, if_false, length, get_elem?, take, drop, length-take, append-take,
  get_elem?-take, get_elem?-drop, get_elem?-lt,
}
use buffer_pool.BTree.Key.{ℤ, pos, negsuc, IsI64, key_le, key_le_trans}
use buffer_pool.BTree.Internal.{InternalNode, find_child_index}
use buffer_pool.BTree.Internal.Search.{find_child_index-last}
use buffer_pool.BTree.Sorted.{IsSorted, Above, get_elem?-within, from}
use buffer_pool.BTree.Nodes.{invalid_key, split_internal}
use buffer_pool.BTree.Nodes.Splitting.{take-IsSorted}
use buffer_pool.BTree.Tree.Walking.{find_child_index_unique}

-- The child that a node sends a key to.
unfoldable pub child_of : InternalNode → ℤ → Option ℕ
child_of node key = do i ← find_child_index node key; entry ← get_elem? node.entries i; some entry.1

pub child_of-at :
    (node : InternalNode) (key k : ℤ) (i child : ℕ)
    → IsSorted node.entries
    → get_elem? node.entries i ≡ some (k, child)
    → key_le k key ≡ true
    → Above node.entries key (i + 1)
    → child_of node key ≡ some child
unfolding child_of
child_of-at node key k i child s at le above =
    rw (find_child_index_unique node key k i child s at le above, child_of) (rw at refl)

-- A key below all others is sent nowhere.
pub child_of-none :
    (node : InternalNode) (key : ℤ)
    → IsSorted node.entries
    → Above node.entries key 0
    → child_of node key ≡ none
unfolding child_of
child_of-none node key s above = elim (find_child_index-last node key s) [
  | inr (panics, _) ↦ rw (panics, child_of)
  | inl (i, e, found, at, le, _) ↦ let bad = above i e (omega arith) at in cc (bad, le)
]

pub invalid_key-le : (key : ℤ) → IsI64 key → key_le invalid_key key ≡ true
invalid_key-le (pos n) h = refl
invalid_key-le (negsuc n) h = ground arith

-- The keys of the entries fit in 64 bits.
abbrev pub AreI64 : List (ℤ × ℕ) → Type 0
AreI64 entries = (i : ℕ) (e : ℤ × ℕ) → get_elem? entries i ≡ some e → IsI64 e.0

drop_at {ℓ} :
    {A : Type ℓ} (l : List A) (n : ℕ) (x : A)
    → get_elem? l n ≡ some x
    → drop n l ≡ x ∷ drop (n + 1) l
drop_at [] n x h = cc
drop_at (y ∷ l) zero x h = ap (λ z. z ∷ l) (some_inj h)
drop_at (y ∷ l) (suc n) x h =
    let same : suc (n + 1) ≡ suc n + 1 = omega arith in
    drop_at l n x h ∙ ap (λ m. x ∷ drop m (y ∷ l)) same

map-append {ℓ κ} :
    {A : Type ℓ} {B : Type κ} (f : A → B) (xs ys : List A) → map f (xs ++ ys) ≡ map f xs ++ map f ys
map-append f [] ys = refl
map-append f (x ∷ xs) ys = ap (◌∷◌ (f x)) (map-append f xs ys)

abbrev child : ℤ × ℕ → ℕ
child entry = entry.1

-- What the split of an internal node gives: the halves have its children in a row, both are
-- sorted, and the key that goes up sends each key to the half that sends it to the same child.
pub record Splits (node left : InternalNode) (up : ℤ) (right : InternalNode) : Type 0 where
  pub children : map child (left.entries ++ right.entries) ≡ map child node.entries
  pub left_size : length left.entries ≡ length node.entries / 2
  pub left_sorted : IsSorted left.entries
  pub right_sorted : IsSorted right.entries
  pub routes :
      (key : ℤ)
      → IsI64 key
      → child_of node key ≡ child_of (if key_le up key then right else left) key

module _ (node : InternalNode) (sorted : IsSorted node.entries) (keys : AreI64 node.entries)
    (up : ℤ × ℕ) (mid : ℕ) (at : get_elem? node.entries mid ≡ some up) where
  abbrev pub left_node : InternalNode
  left_node = record { entries = take mid node.entries }

  abbrev pub right_node : InternalNode
  right_node = record { entries = (invalid_key, up.1) ∷ drop (mid + 1) node.entries }

  right_get : (i : ℕ) → get_elem? right_node.entries (suc i) ≡ get_elem? node.entries (mid + 1 + i)
  right_get i = get_elem?-drop node.entries (mid + 1) i

  right-IsSorted : IsSorted right_node.entries
  unfolding IsSorted
  right-IsSorted zero zero a b lt ea eb = absurd (omega arith)
  right-IsSorted zero (suc j) a b lt ea eb =
      subst (λ (x : ℤ × ℕ). key_le x.0 b.0 ≡ true) (some_inj ea)
        (invalid_key-le b.0 (keys (mid + 1 + j) b (sym (right_get j) ∙ eb)))
  right-IsSorted (suc i) zero a b lt ea eb = absurd (omega arith)
  right-IsSorted (suc i) (suc j) a b lt ea eb =
      sorted (mid + 1 + i) (mid + 1 + j) a b (omega arith) (sym (right_get i) ∙ ea)
        (sym (right_get j) ∙ eb)

  right-Above :
      (key : ℤ) (i : ℕ)
      → mid ≤ i
      → Above node.entries key (i + 1)
      → Above right_node.entries key (i - mid + 1)
  right-Above key i h above zero e le q = absurd (omega arith)
  right-Above key i h above (suc j) e le q =
      above (mid + 1 + j) e (omega arith) (sym (right_get j) ∙ q)

  left-Above : (key : ℤ) (i : ℕ) → Above node.entries key i → Above left_node.entries key i
  left-Above key i above j e le q =
      let inside = get_elem?-lt (take mid node.entries) j e q in
      let short = length-take mid node.entries in
      above j e le (sym (get_elem?-take node.entries mid j (omega arith)) ∙ q)

  routes_right :
      (key : ℤ) → IsI64 key → key_le up.0 key ≡ true → child_of node key ≡ child_of right_node key
  routes_right key fits le = elim (find_child_index-last node key sorted) [
    | inr (_, all) ↦ let bad = all mid up (omega arith) at in cc (bad, le)
    | inl (i, e, _, found, le', above) ↦ elim (dec_lt i mid) [
      | yes before ↦ let bad = above mid up (omega arith) at in cc (bad, le)
      | no after ↦
          child_of-at node key e.0 i e.1 sorted found le' above
          ∙ sym (elim (ℕ_discrete i mid) [
            | yes same ↦
                let entry : up ≡ e =
                  some_inj (sym at ∙ ap (get_elem? node.entries) (sym same) ∙ found) in
                child_of-at right_node key invalid_key 0 up.1 right-IsSorted refl
                  (invalid_key-le key fits)
                  (subst (Above right_node.entries key) (omega arith)
                    (right-Above key i (omega arith) above))
                ∙ ap (λ (x : ℤ × ℕ). some x.1) entry
            | no apart ↦
                let from_first : i - mid ≡ suc (i - mid - 1) = omega arith in
                let back : mid + 1 + (i - mid - 1) ≡ i = omega arith in
                child_of-at right_node key e.0 (i - mid) e.1 right-IsSorted
                  (ap (get_elem? right_node.entries) from_first
                    ∙ right_get (i - mid - 1)
                    ∙ ap (get_elem? node.entries) back
                    ∙ found)
                  le' (right-Above key i (omega arith) above)
          ])
    ]
  ]

  routes_left : (key : ℤ) → key_le up.0 key ≡ false → child_of node key ≡ child_of left_node key
  unfolding IsSorted
  routes_left key gt = elim (find_child_index-last node key sorted) [
    | inr (_, all) ↦
        child_of-none node key sorted all
        ∙ sym (
            child_of-none left_node key (take-IsSorted node.entries mid sorted)
              (left-Above key 0 all))
    | inl (i, e, _, found, le, above) ↦ elim (dec_lt i mid) [
      | yes before ↦
          child_of-at node key e.0 i e.1 sorted found le above
          ∙ sym (
              child_of-at left_node key e.0 i e.1 (take-IsSorted node.entries mid sorted)
                (get_elem?-take node.entries mid i before ∙ found) le
                (left-Above key (i + 1) above))
      | no after ↦
          let up-le : key_le up.0 e.0 ≡ true =
            from node.entries key sorted mid up at i e found (omega arith) in
          let bad = key_le_trans up.0 e.0 key up-le le in cc (bad, gt)
    ]
  ]

  pub halves-Splits :
      mid ≡ length node.entries / 2
      → (split_internal node ≡ some (left_node, up.0, right_node))
        × Splits node left_node up.0 right_node
  unfolding split_internal
  halves-Splits half =
      let cut = drop_at node.entries mid up at in
      (
        rw (sym half) (rw (at, split_internal) (rw cut refl)),
        record {
          children =
              map-append child (take mid node.entries) right_node.entries
              ∙ ap (λ l. map child (take mid node.entries) ++ map child l) (sym cut)
              ∙ sym (map-append child (take mid node.entries) (drop mid node.entries))
              ∙ ap (map child) (append-take mid node.entries);
          left_size = omega (arith, length-take mid node.entries);
          left_sorted = take-IsSorted node.entries mid sorted;
          right_sorted = right-IsSorted;
          routes = λ key fits. elim (Bool-cases (key_le up.0 key)) [
            | inl le ↦
                routes_right key fits le
                ∙ sym (ap (λ n. child_of n key) (if_true right_node left_node le))
            | inr gt ↦
                routes_left key gt
                ∙ sym (ap (λ n. child_of n key) (if_false right_node left_node gt))
          ];
        },
      )

-- A sorted internal node with an entry splits in two. Each key of 64 bits goes to the same child
-- through the half that the key sent up picks as it did through the node, though the first key of
-- the right half is overwritten.
pub split_internal-Splits :
    (node : InternalNode)
    → IsSorted node.entries
    → AreI64 node.entries
    → 1 ≤ length node.entries
    → (left : InternalNode) × (up : ℤ) × (right : InternalNode) × (split_internal node
        ≡ some (left, up, right))
      × Splits node left up right
split_internal-Splits node sorted keys full =
    let (up, at) = get_elem?-within node.entries (length node.entries / 2) (omega arith) in
    let (splits, halves) = halves-Splits node sorted keys up (length node.entries / 2) at refl in
    (_, up.0, _, splits, halves)
