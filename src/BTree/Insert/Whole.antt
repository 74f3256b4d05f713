-- ===== src/BTree/Insert/Whole.antt =====
-- `BTree::insert` into a tree whose root is a leaf, from its start to its end.
use buffer_pool.Base.{
  ℕ, zero, suc, ◌≤◌, ◌≡◌, refl, sym, ap, ap₂, subst, ◌∙◌, ◌↔◌, ◌⊎◌, inl, inr, true, false, Option,
  some, List, [], ◌∷◌, ◌++◌, Perm, arith, ℕ_discrete, ◌==◌, if◌then◌else◌, Bool-cases, some_inj,
  if_true, if_false, length, get_elem?,
}
use buffer_pool.Common.{page_size, invalid_page_id}
use buffer_pool.Disk.FileIo.{Io}
use buffer_pool.Pool.{BufferPoolManager}
use buffer_pool.BTree.Key.{ℤ, IsI64, key_le}
use buffer_pool.BTree.Sorted.{IsSorted, get_elem?-beyond}
use buffer_pool.BTree.Leaf.{LeafNode, RecordId}
use buffer_pool.BTree.Leaf.Codec.{IsEntry, AreEntries}
use buffer_pool.BTree.Nodes.{invalid_key}
use buffer_pool.BTree.Nodes.Splitting.{Has}
use buffer_pool.BTree.Nodes.Routing.{invalid_key-le}
use buffer_pool.BTree.Tree.{BTree, get_root_page_id}
use buffer_pool.BTree.Tree.Walking.{Leads, at_leaf, through}
use buffer_pool.BTree.Insert.{PathFrame, drop_path}
use buffer_pool.BTree.Insert.Descent.{find_path}
use buffer_pool.BTree.Insert.Growth.{
  insert_leaf, split_leaf_page, propagate, new_root, insert_below, insert,
}
use buffer_pool.BTree.Insert.Nodes.{LeafAt, InternalAt}
use buffer_pool.BTree.Insert.Rooting.{two_children}

pub leaf-Leads :
    (c : ℕ → Option (List ℕ)) (key : ℤ) (page_id : ℕ) (leaf : LeafNode)
    → LeafAt c page_id leaf
    → Leads c key 1 page_id leaf page_id
leaf-Leads c key page_id leaf at = at_leaf at.bytes at.holds at.full at.kind at.decodes

pub two-IsSorted : (a b : ℤ × ℕ) → key_le a.0 b.0 ≡ true → IsSorted (a ∷ b ∷ [])
unfolding IsSorted
two-IsSorted a b le zero zero x y lt ex ey = absurd (omega arith)
two-IsSorted a b le zero (suc zero) x y lt ex ey =
    let first : a ≡ x = some_inj ex in
    let second : b ≡ y = some_inj ey in
    subst (λ (z : ℤ × ℕ). key_le z.0 y.0 ≡ true) first
      (subst (λ (z : ℤ × ℕ). key_le a.0 z.0 ≡ true) second le)
two-IsSorted a b le zero (suc (suc j)) x y lt ex ey = cc
two-IsSorted a b le (suc zero) zero x y lt ex ey = absurd (omega arith)
two-IsSorted a b le (suc zero) (suc zero) x y lt ex ey = absurd (omega arith)
two-IsSorted a b le (suc zero) (suc (suc j)) x y lt ex ey = cc
two-IsSorted a b le (suc (suc i)) j x y lt ex ey = cc

-- A root with two leaves sends each key to the leaf that the separator picks.
pub two-Leads :
    (c : ℕ → Option (List ℕ)) (sought sep : ℤ) (root left right : ℕ) (lo hi : LeafNode)
    → InternalAt c root (two_children left sep right)
    → LeafAt c left lo
    → LeafAt c right hi
    → IsI64 sep
    → IsI64 sought
    → Leads c sought 2 root
        (if key_le sep sought then hi else lo)
        (if key_le sep sought then right else left)
two-Leads c sought sep root left right lo hi at lo_at hi_at sep_fits fits =
    let node = two_children left sep right in
    let sorted = two-IsSorted (invalid_key, left) (sep, right) (invalid_key-le sep sep_fits) in
    elim (Bool-cases (key_le sep sought)) [
      | inl le ↦
          subst (λ (x : LeafNode × ℕ). Leads c sought 2 root x.0 x.1)
            (sym (ap₂ (λ x y. (x, y)) (if_true hi lo le) (if_true right left le)))
            (through at.bytes node 1 sep right at.holds at.full at.kind at.decodes sorted refl le
              (λ i e ge h. absurd (get_elem?-beyond node.entries i e (omega arith) h))
              (leaf-Leads c sought right hi hi_at))
      | inr gt ↦
          subst (λ (x : LeafNode × ℕ). Leads c sought 2 root x.0 x.1)
            (sym (ap₂ (λ x y. (x, y)) (if_false hi lo gt) (if_false right left gt)))
            (through at.bytes node 0 invalid_key left at.holds at.full at.kind at.decodes sorted
              refl (invalid_key-le sought fits)
              (λ i e ge h. elim (ℕ_discrete i 1) [
                | yes one ↦
                    let is : (sep, right) ≡ e =
                      some_inj (sym (ap (get_elem? node.entries) one) ∙ h) in
                    subst (λ (x : ℤ × ℕ). key_le x.0 sought ≡ false) is gt
                | no more ↦ absurd (get_elem?-beyond node.entries i e (omega arith) h)
              ])
              (leaf-Leads c sought left lo lo_at))
    ]

-- The entries of leaves, in a row.
unfoldable pub all_entries : List (ℕ × LeafNode) → List (ℤ × RecordId)
all_entries [] = []
all_entries (leaf ∷ rest) = leaf.1.entries ++ all_entries rest

-- The pages `d` of tree `t'`, after an entry was put into tree `t` of the leaf alone: the header
-- page names the root; there are leaves on different pages, whose entries are the old ones and the
-- new one, each as often as there and once more; the path of each key leads to one of them, which
-- is sorted, and has the key just if it was there or is the new one.
pub record Inserted (d : ℕ → Option (List ℕ)) (t t' : BTree) (leaf : LeafNode) (key : ℤ)
    (page_id slot_num : ℕ) : Type 0 where
  pub header : List ℕ
  pub header_at : d t.header_page_id ≡ some header
  pub header_full : length header ≡ page_size
  pub names : get_root_page_id header ≡ some t'.root_page_id
  pub leaves : List (ℕ × LeafNode)
  pub stored : (i page : ℕ) (l : LeafNode) → get_elem? leaves i ≡ some (page, l) → LeafAt d page l
  pub apart :
      (i j page : ℕ) (l l' : LeafNode)
      → get_elem? leaves i ≡ some (page, l)
      → get_elem? leaves j ≡ some (page, l')
      → i ≡ j
  pub entries :
      Perm
        (all_entries leaves)
        ((key, record { page_id = page_id; slot_num = slot_num }) ∷ leaf.entries)
  pub leads :
      (sought : ℤ)
      → IsI64 sought
      → (n i to_id : ℕ) × (to : LeafNode) × (n ≤ 2)
        × (get_elem? leaves i ≡ some (to_id, to))
        × Leads d sought n t'.root_page_id to to_id
        × IsSorted to.entries
        × (Has to.entries sought ↔ (Has leaf.entries sought ⊎ (key ≡ sought)))

pub runs_room :
    (faults : ℕ → Io) (now fuel : ℕ) (t : BTree) (key : ℤ) (page_id slot_num : ℕ)
    (p1 p2 : BufferPoolManager) (stack : List PathFrame)
    → (t.root_page_id == invalid_page_id) ≡ false
    → find_path faults now fuel t key ≡ some (stack, p1)
    → insert_leaf p1 key page_id slot_num t.leaf_node_max_size stack
      ≡ some (invalid_page_id, [], p2)
    → insert faults now fuel t key page_id slot_num ≡ some (record t { buffer_pool = p2 })
unfolding insert insert_below drop_path
runs_room faults now fuel t key page_id slot_num p1 p2 stack rooted e1 e2 =
    if_false _ _ rooted ∙ rw (e1, insert_below) (rw e2 refl)

pub runs_split :
    (faults : ℕ → Io) (now fuel : ℕ) (t t' : BTree) (key sep : ℤ) (page_id slot_num left right : ℕ)
    (p1 p2 p3 : BufferPoolManager) (stack : List PathFrame)
    → (t.root_page_id == invalid_page_id) ≡ false
    → find_path faults now fuel t key ≡ some (stack, p1)
    → insert_leaf p1 key page_id slot_num t.leaf_node_max_size stack ≡ some (left, [], p2)
    → (left == invalid_page_id) ≡ false
    → split_leaf_page faults now p2 key page_id slot_num left ≡ some (sep, right, p3)
    → new_root faults now t p3 left sep right ≡ some t'
    → insert faults now fuel t key page_id slot_num ≡ some t'
unfolding insert insert_below propagate
runs_split faults now fuel t t' key sep page_id slot_num left right p1 p2 p3 stack rooted e1 e2 e3
      e4 e5 =
    if_false _ _ rooted ∙ rw (e1, insert_below) (rw e2 (rw e3 (rw e4 e5)))

pub IsEntry-at :
    (l : List (ℤ × RecordId)) (i : ℕ) (e : ℤ × RecordId)
    → AreEntries l
    → get_elem? l i ≡ some e
    → IsEntry e
IsEntry-at [] i e are h = cc
IsEntry-at (x ∷ l) zero e (is, are) h = subst IsEntry (some_inj h) is
IsEntry-at (x ∷ l) (suc i) e (is, are) h = IsEntry-at l i e are h
