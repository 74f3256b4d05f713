-- ===== src/BTree/Nodes/Splitting.antt =====
-- The split of a leaf in `BTree::insert`: the sizes of the halves, and where each key is found.
use buffer_pool.Base.{
  ℕ, ◌+◌, ◌-◌, ◌/◌, ◌≤◌, ◌≡◌, refl, sym, ap, subst, ◌∙◌, ◌↔◌, inl, inr, true, false, some, List,
  ◌++◌, arith, dec_lt, if◌then◌else◌, Bool-cases, if_true, if_false, length, get_elem?, take, drop,
  length-take, append-take, get_elem?-take, get_elem?-drop, get_elem?-lt,
}
use buffer_pool.BTree.Key.{ℤ, key_le, key_eq-antisym, eq_of_key_eq}
use buffer_pool.BTree.Leaf.{LeafNode, RecordId}
use buffer_pool.BTree.Sorted.{IsSorted, get_elem?-within, from}
use buffer_pool.BTree.Nodes.{split_leaf}

pub take-IsSorted {ℓ} : {V : Type ℓ} (l : List (ℤ × V)) (n : ℕ) → IsSorted l → IsSorted (take n l)
unfolding IsSorted
take-IsSorted l n s i j a b lt ea eb =
    let inside = get_elem?-lt (take n l) j b eb in
    let short = length-take n l in
    s i j a b lt (sym (get_elem?-take l n i (omega arith)) ∙ ea)
      (sym (get_elem?-take l n j (omega arith)) ∙ eb)

pub drop-IsSorted {ℓ} : {V : Type ℓ} (l : List (ℤ × V)) (n : ℕ) → IsSorted l → IsSorted (drop n l)
unfolding IsSorted
drop-IsSorted l n s i j a b lt ea eb =
    s (n + i) (n + j) a b (omega arith) (sym (get_elem?-drop l n i) ∙ ea)
      (sym (get_elem?-drop l n j) ∙ eb)

-- Some entry has the key.
abbrev pub Has : List (ℤ × RecordId) → ℤ → Type 0
Has entries key = (i : ℕ) × (e : ℤ × RecordId) × (get_elem? entries i ≡ some e) × (e.0 ≡ key)

-- What the split of a leaf gives: `left` takes the leaf's place and links to the new leaf
-- `right`, which links to where the leaf did.
pub record Halves (node : LeafNode) (right_page_id : ℕ) (left : LeafNode) (sep : ℤ)
    (right : LeafNode) : Type 0 where
  pub joined : left.entries ++ right.entries ≡ node.entries
  pub separator : Has node.entries sep
  pub left_size : length left.entries ≡ length node.entries / 2
  pub left_link : left.next_page_id ≡ right_page_id
  pub right_link : right.next_page_id ≡ node.next_page_id
  pub left_sorted : IsSorted left.entries
  pub right_sorted : IsSorted right.entries
  pub routes :
      (key : ℤ) → Has node.entries key ↔ Has (if key_le sep key then right else left).entries key

module _ (node : LeafNode) (sorted : IsSorted node.entries) (middle : ℤ × RecordId) (mid : ℕ)
    (at : get_elem? node.entries mid ≡ some middle) where
  -- An entry with a key from the middle one on is in the right half, or has the middle key.
  routes_right :
      (key : ℤ)
      → key_le middle.0 key ≡ true
      → Has node.entries key ↔ Has (drop mid node.entries) key
  unfolding IsSorted
  routes_right key le = (
    λ (i, e, found, is). elim (dec_lt i mid) [
      | yes before ↦
          let below : key_le e.0 middle.0 ≡ true = sorted i mid e middle before found at in
          let same : middle.0 ≡ key =
            eq_of_key_eq middle.0 key
              (key_eq-antisym middle.0 key le (subst (λ k. key_le k middle.0 ≡ true) is below)) in
          (
            0,
            middle,
            get_elem?-drop node.entries mid 0 ∙ ap (get_elem? node.entries) (omega arith) ∙ at,
            same,
          )
      | no after ↦ (
        i - mid,
        e,
        get_elem?-drop node.entries mid (i - mid)
            ∙ ap (get_elem? node.entries) (omega arith)
            ∙ found,
        is,
      )
    ],
    λ (i, e, found, is). (mid + i, e, sym (get_elem?-drop node.entries mid i) ∙ found, is),
  )

  -- A key below the middle one is in the left half only.
  routes_left :
      (key : ℤ)
      → key_le middle.0 key ≡ false
      → Has node.entries key ↔ Has (take mid node.entries) key
  unfolding IsSorted
  routes_left key gt = (
    λ (i, e, found, is). elim (dec_lt i mid) [
      | yes before ↦ (i, e, get_elem?-take node.entries mid i before ∙ found, is)
      | no after ↦
          let above : key_le middle.0 e.0 ≡ true =
            from node.entries key sorted mid middle at i e found (omega arith) in
          let bad : key_le middle.0 key ≡ true = subst (λ k. key_le middle.0 k ≡ true) is above in
          cc (bad, gt)
    ],
    λ (i, e, found, is).
        let inside = get_elem?-lt (take mid node.entries) i e found in
        let short = length-take mid node.entries in
        (i, e, sym (get_elem?-take node.entries mid i (omega arith)) ∙ found, is),
  )

-- A sorted leaf with an entry splits in two: the halves in a row are its entries, the separator is
-- the key of one of them, the left half has half of them, rounded down, both are sorted and linked
-- in a chain, and a key is in the leaf just if it is in the half that the separator sends it to.
pub split_leaf-Halves :
    (node : LeafNode) (right_page_id : ℕ)
    → IsSorted node.entries
    → 1 ≤ length node.entries
    → (left : LeafNode) × (sep : ℤ) × (right : LeafNode) × (split_leaf node right_page_id
        ≡ some (left, sep, right))
      × Halves node right_page_id left sep right
unfolding split_leaf
split_leaf-Halves node right_page_id sorted full =
    let mid = length node.entries / 2 in
    let (middle, at) = get_elem?-within node.entries mid (omega arith) in
    (
      record { next_page_id = right_page_id; entries = take mid node.entries },
      middle.0,
      record { next_page_id = node.next_page_id; entries = drop mid node.entries },
      rw (at, split_leaf) refl,
      record {
        joined = append-take mid node.entries;
        separator = (mid, middle, at, refl);
        left_size = omega (arith, length-take mid node.entries);
        left_link = refl;
        right_link = refl;
        left_sorted = take-IsSorted node.entries mid sorted;
        right_sorted = drop-IsSorted node.entries mid sorted;
        routes = λ key. elim (Bool-cases (key_le middle.0 key)) [
          | inl le ↦ rw (if_true _ _ le) (routes_right node sorted middle mid at key le)
          | inr gt ↦ rw (if_false _ _ gt) (routes_left node sorted middle mid at key gt)
        ];
      },
    )
