-- ===== src/BTree/Insert/Reroutes.antt =====
-- The routes of a tree after a leaf was split under a parent that had room.
use buffer_pool.Base.{
  ℕ, zero, suc, ◌+◌, ◌<◌, ◌≡◌, refl, sym, ap, subst, ◌∙◌, ◌≢◌, inl, inr, Bool, true, false, Option,
  none, some, List, [], ◌∷◌, ◌++◌, arith, ℕ_discrete, ◌==◌, if◌then◌else◌, ==_self, Bool-cases,
  eq_of_==, ==_of_ne, some_inj, if_true, if_false, get_elem?, take, drop,
}
use buffer_pool.Common.{u32_size}
use buffer_pool.BTree.Key.{ℤ, key_le, IsI64}
use buffer_pool.BTree.Sorted.{IsSorted}
use buffer_pool.BTree.Leaf.{LeafNode}
use buffer_pool.BTree.Internal.{InternalNode, find_child_index}
use buffer_pool.BTree.Internal
use buffer_pool.BTree.Internal.Search.{find_child_index-last}
use buffer_pool.BTree.Internal.Codec.{AreChildren}
use buffer_pool.BTree.Nodes.{position, add_child}
use buffer_pool.BTree.Nodes.Routing.{child_of}
use buffer_pool.BTree.Tree.Walking.{find_child_index_unique}
use buffer_pool.BTree.Insert.Nodes.{LeafAt, InternalAt, moved-LeafAt, leaf_not_internal}
use buffer_pool.BTree.Insert.Parents.{AreChildren-append, AreChildren-cut}
use buffer_pool.BTree.Insert.Routes.{Sends, Route, stop, pass}
use buffer_pool.BTree.Insert.Within.{moved-Sends}

-- A child that stands in one entry is found there.
pub position_unique :
    (l : List (ℤ × ℕ)) (page_id i : ℕ) (k : ℤ)
    → get_elem? l i ≡ some (k, page_id)
    → ((j : ℕ) (k' : ℤ) → get_elem? l j ≡ some (k', page_id) → j ≡ i)
    → position l page_id ≡ some i
unfolding position
position_unique [] page_id i k at once = cc
position_unique (x ∷ l) page_id zero k at once =
    let is : x.1 ≡ page_id = ap (λ (y : ℤ × ℕ). y.1) (some_inj at) in
    if_true _ _ (ap (λ n. n == page_id) is ∙ ==_self page_id)
position_unique (x ∷ l) page_id (suc i) k at once = elim (Bool-cases (x.1 == page_id)) [
  | inl here ↦
      let bad = once 0 x.0 (ap (λ n. some (x.0, n)) (eq_of_== x.1 page_id here)) in
      absurd (omega (arith, bad))
  | inr later ↦
      let rest = position_unique l page_id i k at (λ j k' e. omega (arith, once (suc j) k' e)) in
      if_false _ _ later ∙ rw rest (ap some (omega arith))
]

pub add_child-AreChildren :
    (node larger : InternalNode) (left i : ℕ) (up : ℤ) (right : ℕ)
    → position node.entries left ≡ some i
    → add_child node left up right ≡ some larger
    → AreChildren node.entries
    → IsI64 up
    → right < u32_size
    → AreChildren larger.entries
unfolding add_child
add_child-AreChildren node larger left i up right pos adds are fits small =
    let (before, after) = AreChildren-cut (i + 1) node.entries are in
    let made : InternalNode = record {
      entries = take (i + 1) node.entries ++ (up, right) ∷ drop (i + 1) node.entries;
    } in
    let runs : add_child node left up right ≡ some made = rw (pos, add_child) refl in
    subst (λ (n : InternalNode). AreChildren n.entries) (some_inj (sym runs ∙ adds))
      (AreChildren-append (take (i + 1) node.entries) _ before (fits, small, after))

child_of-Sends :
    (c : ℕ → Option (List ℕ)) (key : ℤ) (page_id child : ℕ) (node : InternalNode)
    → InternalAt c page_id node
    → IsSorted node.entries
    → child_of node key ≡ some child
    → Sends c key page_id child node
unfolding child_of
child_of-Sends c key page_id child node at sorted sends =
    elim (find_child_index-last node key sorted) [
      | inr (none_found, _) ↦
          let bad : none ≡ some child = sym (rw (none_found, child_of) refl) ∙ sends in cc bad
      | inl (i, e, found, entry, le, above) ↦
          let is : e.1 ≡ child = some_inj (sym (rw (found, child_of) (rw entry refl)) ∙ sends) in
          record {
            at = at;
            sorted = sorted;
            index = i;
            child_key = e.0;
            entry = entry ∙ ap (λ n. some (e.0, n)) is;
            below = le;
            above = above;
          }
    ]

child_of-found :
    (node : InternalNode) (key : ℤ) (i : ℕ) (k : ℤ) (child : ℕ)
    → find_child_index node key ≡ some i
    → get_elem? node.entries i ≡ some (k, child)
    → child_of node key ≡ some child
unfolding child_of
child_of-found node key i k child found at = rw (found, child_of) (rw at refl)

-- The parent on page `up_id` gets a second child for the leaf on page `leaf_id`.
module _ (c d : ℕ → Option (List ℕ)) (leaf_id right_id up_id index : ℕ) (leaf lo hi : LeafNode)
    (parent larger : InternalNode) (sep : ℤ) (old : LeafAt c leaf_id leaf)
    (parent_at : InternalAt c up_id parent) (lo_at : LeafAt d leaf_id lo)
    (hi_at : LeafAt d right_id hi) (larger_at : InternalAt d up_id larger)
    (sorted : IsSorted larger.entries) (fresh : (bytes : List ℕ) → c right_id ≢ some bytes)
    (others : (k : ℕ) → k ≢ leaf_id → k ≢ right_id → k ≢ up_id → d k ≡ c k)
    (unique : (page_id j : ℕ) (k : ℤ) (node : InternalNode)
      → InternalAt c page_id node
      → get_elem? node.entries j ≡ some (k, leaf_id)
      → (page_id ≡ up_id) × (j ≡ index))
    (child_key : ℤ) (entry : get_elem? parent.entries index ≡ some (child_key, leaf_id))
    (routes : (key : ℤ)
      → ((find_child_index parent key ≡ some index)
          → child_of larger key ≡ some (if key_le sep key then right_id else leaf_id))
        × (find_child_index parent key ≢ some index
            → child_of larger key ≡ child_of parent key)) where
  same_parent :
      (page_id : ℕ) (node : InternalNode)
      → InternalAt c page_id node
      → page_id ≡ up_id
      → node ≡ parent
  same_parent page_id node at same =
      let bytes : at.bytes ≡ parent_at.bytes =
        some_inj (sym at.holds ∙ ap c same ∙ parent_at.holds) in
      some_inj (sym at.decodes ∙ ap Internal.decode bytes ∙ parent_at.decodes)

  -- The half of the split that a key is sent to.
  to_half :
      (sought : ℤ)
      → Route d sought 1
          (if key_le sep sought then right_id else leaf_id)
          (if key_le sep sought then hi else lo)
          (if key_le sep sought then right_id else leaf_id)
  to_half sought = picked (key_le sep sought)
    where
      picked :
          (b : Bool)
          → Route d sought 1
              (if b then right_id else leaf_id)
              (if b then hi else lo)
              (if b then right_id else leaf_id)
      picked true = stop hi_at
      picked false = stop lo_at

  found_at :
      (sought : ℤ) (page_id child : ℕ) (node : InternalNode) (s : Sends c sought page_id child node)
      → find_child_index node sought ≡ some s.index
  found_at sought page_id child node s =
      find_child_index_unique node sought s.child_key s.index child s.sorted s.entry s.below s.above

  -- A node that sends a key elsewhere still does.
  Sends-elsewhere :
      (sought : ℤ) (page_id child : ℕ) (node : InternalNode)
      → child ≢ leaf_id
      → Sends c sought page_id child node
      → (node' : InternalNode) × Sends d sought page_id child node'
  Sends-elsewhere sought page_id child node other s = elim (ℕ_discrete page_id up_id) [
    | no away ↦ (
      node,
      moved-Sends c d sought page_id child node
          (others page_id (leaf_not_internal c page_id leaf_id leaf node old s.at)
            (λ e. fresh s.at.bytes (ap c (sym e) ∙ s.at.holds)) away)
          s,
    )
    | yes same ↦
        let is = same_parent page_id node s.at same in
        let found : find_child_index parent sought ≡ some s.index =
          subst (λ n. find_child_index n sought ≡ some s.index) is
            (found_at sought page_id child node s) in
        let at : get_elem? parent.entries s.index ≡ some (s.child_key, child) =
          subst (λ (n : InternalNode). get_elem? n.entries s.index ≡ some (s.child_key, child)) is
            s.entry in
        let apart : s.index ≢ index = λ e.
          other (
            ap (λ (x : ℤ × ℕ). x.1)
              (some_inj (sym at ∙ ap (get_elem? parent.entries) e ∙ entry))) in
        let stays : child_of larger sought ≡ some child =
          (routes sought).1 (λ e. apart (some_inj (sym found ∙ e)))
          ∙ child_of-found parent sought s.index s.child_key child found at in
        (
          larger,
          subst (λ n. Sends d sought n child larger) (sym same)
              (child_of-Sends d sought up_id child larger larger_at sorted stays),
        )
  ]

  -- The parent sends a key of the leaf to the half that the separator picks.
  Sends-half :
      (sought : ℤ) (page_id : ℕ) (node : InternalNode)
      → Sends c sought page_id leaf_id node
      → Sends d sought page_id (if key_le sep sought then right_id else leaf_id) larger
  Sends-half sought page_id node s =
      let (same, at_index) = unique page_id s.index s.child_key node s.at s.entry in
      let is = same_parent page_id node s.at same in
      let found : find_child_index parent sought ≡ some index =
        subst (λ n. find_child_index n sought ≡ some s.index) is
          (found_at sought page_id leaf_id node s)
        ∙ ap some at_index in
      subst (λ n. Sends d sought n (if key_le sep sought then right_id else leaf_id) larger)
        (sym same)
        (child_of-Sends d sought up_id _ larger larger_at sorted ((routes sought).0 found))

  -- A route that starts above the leaf leads to the half that the separator picks, where it led to
  -- the leaf, and stays otherwise.
  pub Route-split :
      (sought : ℤ) (n page_id to_id : ℕ) (to : LeafNode)
      → page_id ≢ leaf_id
      → Route c sought n page_id to to_id
      → Route d sought n page_id
          (if to_id == leaf_id then (if key_le sep sought then hi else lo) else to)
          (if to_id == leaf_id then (if key_le sep sought then right_id else leaf_id) else to_id)
  Route-split sought n page_id to_id to above (stop at) =
      rw (==_of_ne to_id leaf_id (λ e. above (sym e))) (
        stop (
          moved-LeafAt c d to_id to at (
            others to_id above (λ e. fresh at.bytes (ap c (sym e) ∙ at.holds))
              (λ e. leaf_not_internal c up_id to_id to parent at parent_at (sym e)))))
  Route-split sought n page_id to_id to above (pass {n = m} node child s rest) =
      elim (ℕ_discrete child leaf_id) [
        | no other ↦
            let (node', s') = Sends-elsewhere sought page_id child node other s in
            pass node' child s' (Route-split sought m child to_id to other rest)
        | yes here ↦
            arrives m to_id to (subst (λ k. Route c sought m k to to_id) here rest)
              (subst (λ k. Sends c sought page_id k node) here s)
      ]
    where
      arrives :
          (m to_id : ℕ) (to : LeafNode)
          → Route c sought m leaf_id to to_id
          → Sends c sought page_id leaf_id node
          → Route d sought
              (suc m)
              page_id
              (if to_id == leaf_id then (if key_le sep sought then hi else lo) else to)
              (if to_id == leaf_id
                then (if key_le sep sought then right_id else leaf_id)
                else to_id)
      arrives m to_id to (stop at) s =
          rw (==_self leaf_id) (pass larger _ (Sends-half sought page_id node s) (to_half sought))
      arrives m to_id to (pass node' child' s' rest') s =
          absurd (leaf_not_internal c leaf_id leaf_id leaf node' old s'.at refl)
