-- ===== src/BTree/Nodes/Children.antt =====
-- `add_child` in `BTree::insert`: a parent that gets the right half of a child that was split.
use buffer_pool.Base.{
  ℕ, suc, ◌+◌, ◌-◌, ◌≤◌, ◌≡◌, refl, sym, ap, subst, ◌∙◌, ◌≢◌, inl, inr, true, false, some, List, [],
  ◌∷◌, ◌++◌, arith, dec_lt, ℕ_discrete, ◌==◌, if◌then◌else◌, Bool-cases, eq_of_==, >>=-eq-some,
  some_inj, if_true, if_false, length, get_elem?, take, drop, length-append, length-take,
  length-drop, get_elem?-take, get_elem?-drop, get_elem?-append_left, get_elem?-append_right,
  get_elem?-lt,
}
use buffer_pool.BTree.Key.{ℤ, key_le, key_le_trans}
use buffer_pool.BTree.Internal.{InternalNode, find_child_index}
use buffer_pool.BTree.Internal.Search.{find_child_index-last}
use buffer_pool.BTree.Sorted.{IsSorted, Above, up_to}
use buffer_pool.BTree.Nodes.{position, add_child}
use buffer_pool.BTree.Nodes.Sorting.{key_le_total}
use buffer_pool.BTree.Nodes.Routing.{child_of, child_of-at, child_of-none}

-- The place that `position` returns holds the child.
position-get :
    (l : List (ℤ × ℕ)) (page_id i : ℕ)
    → position l page_id ≡ some i
    → (k : ℤ) × (get_elem? l i ≡ some (k, page_id))
unfolding position
position-get [] page_id i h = cc
position-get (x ∷ l) page_id i h = elim (Bool-cases (x.1 == page_id)) [
  | inl here ↦
      let first : 0 ≡ i = some_inj (sym (if_true _ _ here) ∙ h) in
      (
        x.0,
        subst (λ j. get_elem? (x ∷ l) j ≡ some (x.0, page_id)) first
            (ap (λ c. some (x.0, c)) (eq_of_== x.1 page_id here)),
      )
  | inr later ↦
      let (j, found, next) =
        >>=-eq-some (position l page_id) (λ j. some (j + 1)) (sym (if_false _ _ later) ∙ h) in
      let (k, at) = position-get l page_id j found in
      let index : suc j ≡ i = omega (arith, some_inj next) in
      (k, subst (λ m. get_elem? (x ∷ l) m ≡ some (k, page_id)) index at)
]

module _ (node : InternalNode) (sorted : IsSorted node.entries) (i left : ℕ) (k : ℤ)
    (at : get_elem? node.entries i ≡ some (k, left)) (up : ℤ) (right : ℕ)
    (k-le : key_le k up ≡ true) (next : Above node.entries up (i + 1)) where
  abbrev larger : InternalNode
  larger = record { entries = take (i + 1) node.entries ++ (up, right) ∷ drop (i + 1) node.entries }

  size : length (take (i + 1) node.entries) ≡ i + 1
  size = omega (arith, length-take (i + 1) node.entries, get_elem?-lt node.entries i (k, left) at)

  get_before : (j : ℕ) → j ≤ i → get_elem? larger.entries j ≡ get_elem? node.entries j
  get_before j le =
      get_elem?-append_left (take (i + 1) node.entries) _ j (rw size (omega arith))
      ∙ get_elem?-take node.entries (i + 1) j (omega arith)

  get_new : get_elem? larger.entries (i + 1) ≡ some (up, right)
  get_new =
      let index : i + 1 ≡ length (take (i + 1) node.entries) + 0 = omega (arith, size) in
      ap (get_elem? larger.entries) index ∙ get_elem?-append_right (take (i + 1) node.entries) _ 0

  get_after : (j : ℕ) → i + 1 ≤ j → get_elem? larger.entries (j + 1) ≡ get_elem? node.entries j
  get_after j le =
      let rest = j - (i + 1) in
      let index : j + 1 ≡ length (take (i + 1) node.entries) + suc rest = omega (arith, size) in
      let back : i + 1 + rest ≡ j = omega arith in
      ap (get_elem? larger.entries) index
      ∙ get_elem?-append_right (take (i + 1) node.entries) _ (suc rest)
      ∙ get_elem?-drop node.entries (i + 1) rest
      ∙ ap (get_elem? node.entries) back

  -- Where an entry of the larger node comes from.
  data Origin (j : ℕ) (e : ℤ × ℕ) : Type 0 where
    before : j ≤ i → get_elem? node.entries j ≡ some e → Origin j e
    new : j ≡ i + 1 → e ≡ (up, right) → Origin j e
    after : (m : ℕ) → j ≡ m + 1 → i + 1 ≤ m → get_elem? node.entries m ≡ some e → Origin j e

  origin : (j : ℕ) (e : ℤ × ℕ) → get_elem? larger.entries j ≡ some e → Origin j e
  origin j e h = elim (dec_lt j (i + 1)) [
    | yes lt ↦ before (omega arith) (sym (get_before j (omega arith)) ∙ h)
    | no ge ↦ elim (ℕ_discrete j (i + 1)) [
      | yes same ↦ new same (some_inj (sym h ∙ ap (get_elem? larger.entries) same ∙ get_new))
      | no ne ↦
          let index : j - 1 + 1 ≡ j = omega arith in
          after (j - 1) (sym index) (omega arith)
            (sym (get_after (j - 1) (omega arith)) ∙ ap (get_elem? larger.entries) index ∙ h)
    ]
  ]

  pub larger-IsSorted : IsSorted larger.entries
  unfolding IsSorted
  larger-IsSorted x y a b lt ea eb = ordered (origin x a ea) (origin y b eb)
    where
      ordered : Origin x a → Origin y b → key_le a.0 b.0 ≡ true
      ordered (before _ p) (before _ q) = sorted x y a b lt p q
      ordered (before le p) (new _ q) =
          subst (λ (e : ℤ × ℕ). key_le a.0 e.0 ≡ true) (sym q)
            (key_le_trans a.0 k up (up_to node.entries up sorted i (k, left) at x a p le) k-le)
      ordered (before le p) (after m _ ge q) = sorted x m a b (omega arith) p q
      ordered (new s _) (before le _) = absurd (omega arith)
      ordered (new s _) (new t _) = absurd (omega arith)
      ordered (new _ p) (after m _ ge q) =
          subst (λ (e : ℤ × ℕ). key_le e.0 b.0 ≡ true) (sym p) (key_le_total b.0 up (next m b ge q))
      ordered (after m s ge _) (before le _) = absurd (omega arith)
      ordered (after m s ge _) (new t _) = absurd (omega arith)
      ordered (after m s _ p) (after n t _ q) = sorted m n a b (omega arith) p q

  Above-low :
      (key : ℤ) (m : ℕ)
      → key_le up key ≡ false
      → Above node.entries key m
      → Above larger.entries key m
  Above-low key m gt above j e le h = elim (origin j e h) [
    | before _ p ↦ above j e le p
    | new _ p ↦ ap (λ (x : ℤ × ℕ). key_le x.0 key) p ∙ gt
    | after n s ge p ↦ elim (dec_lt n m) [
      | yes lt ↦ elim (Bool-cases (key_le e.0 key)) [
        | inr no_le ↦ no_le
        | inl bad ↦
            let bad' = key_le_trans up e.0 key (key_le_total e.0 up (next n e ge p)) bad in
            cc (bad', gt)
      ]
      | no ge' ↦ above n e (omega arith) p
    ]
  ]

  Above-high :
      (key : ℤ) (m : ℕ) → i + 1 ≤ m → Above node.entries key m → Above larger.entries key (m + 1)
  Above-high key m ge above j e le h = elim (origin j e h) [
    | before small p ↦ absurd (omega arith)
    | new s p ↦ absurd (omega arith)
    | after n s _ p ↦ above n e (omega arith) p
  ]

  -- A key below that of the child is below the new key.
  below-up : (key : ℤ) → key_le k key ≡ false → key_le up key ≡ false
  below-up key gt = elim (Bool-cases (key_le up key)) [
    | inl bad ↦ let bad' = key_le_trans k up key k-le bad in cc (bad', gt)
    | inr ok ↦ ok
  ]

  routes_here :
      (key : ℤ)
      → find_child_index node key ≡ some i
      → child_of larger key ≡ some (if key_le up key then right else left)
  routes_here key here = elim (find_child_index-last node key sorted) [
    | inr (panics, _) ↦ cc (here, panics)
    | inl (m, e, found, at', le, above) ↦
        let same : m ≡ i = some_inj (sym found ∙ here) in
        let above' : Above node.entries key (i + 1) =
          subst (λ n. Above node.entries key (n + 1)) same above in
        let entry : e ≡ (k, left) = some_inj (sym at' ∙ ap (get_elem? node.entries) same ∙ at) in
        let k-key : key_le k key ≡ true = subst (λ (x : ℤ × ℕ). key_le x.0 key ≡ true) entry le in
        elim (Bool-cases (key_le up key)) [
          | inl up-le ↦
              child_of-at larger key up (i + 1) right larger-IsSorted get_new up-le
                (Above-high key (i + 1) (omega arith) above')
              ∙ ap some (sym (if_true right left up-le))
          | inr up-gt ↦
              child_of-at larger key k i left larger-IsSorted (get_before i (omega arith) ∙ at)
                k-key (Above-low key (i + 1) up-gt above')
              ∙ ap some (sym (if_false right left up-gt))
        ]
  ]

  routes_elsewhere :
      (key : ℤ) → find_child_index node key ≢ some i → child_of larger key ≡ child_of node key
  routes_elsewhere key other = elim (find_child_index-last node key sorted) [
    | inr (panics, all) ↦
        child_of-none larger key larger-IsSorted
          (Above-low key 0 (below-up key (all i (k, left) (omega arith) at)) all)
        ∙ sym (child_of-none node key sorted all)
    | inl (m, e, found, at', le, above) ↦
        elim (dec_lt m i) [
          | yes lt ↦
              child_of-at larger key e.0 m e.1 larger-IsSorted (get_before m (omega arith) ∙ at') le
                (Above-low key (m + 1) (below-up key (above i (k, left) (omega arith) at)) above)
          | no ge ↦ elim (ℕ_discrete m i) [
            | yes same ↦ absurd (other (found ∙ ap some same))
            | no ne ↦
                child_of-at larger key e.0 (m + 1) e.1 larger-IsSorted
                  (get_after m (omega arith) ∙ at') le (Above-high key (m + 1) (omega arith) above)
          ]
        ]
        ∙ sym (child_of-at node key e.0 m e.1 sorted at' le above)
  ]

-- A sorted internal node whose child `left` was split gets the right half as a child, if the
-- separator is not below the key of `left` and below the next one. It stays sorted and has one
-- entry more. A key that went to `left` goes to the half that the separator picks; every other key
-- goes where it went.
pub add_child-routes :
    (node : InternalNode) (left i : ℕ) (k up : ℤ) (right : ℕ)
    → IsSorted node.entries
    → position node.entries left ≡ some i
    → get_elem? node.entries i ≡ some (k, left)
    → key_le k up ≡ true
    → Above node.entries up (i + 1)
    → (larger : InternalNode) × (add_child node left up right ≡ some larger)
      × IsSorted larger.entries
      × (length larger.entries ≡ length node.entries + 1)
      × ((key : ℤ)
          → ((find_child_index node key ≡ some i)
              → child_of larger key ≡ some (if key_le up key then right else left))
            × (find_child_index node key ≢ some i → child_of larger key ≡ child_of node key))
unfolding add_child
add_child-routes node left i k up right sorted pos at k-le next = (
  larger node sorted i left k at up right k-le next,
  rw (pos, add_child) refl,
  larger-IsSorted node sorted i left k at up right k-le next,
  omega (
    arith,
    length-append (take (i + 1) node.entries) ((up, right) ∷ drop (i + 1) node.entries),
    length-take (i + 1) node.entries,
    length-drop (i + 1) node.entries,
    get_elem?-lt node.entries i (k, left) at,
  ),
  λ key. (
    routes_here node sorted i left k at up right k-le next key,
    routes_elsewhere node sorted i left k at up right k-le next key,
  ),
)
