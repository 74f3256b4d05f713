-- ===== src/BTree/Nodes/Sorting.antt =====
-- `sort_unstable_by_key` of `BTree::insert`: the entries in the order of their keys, none lost.
use mathlib.Core.List.{perm_append_singleton}
use mathlib.Core.List.Perm
use buffer_pool.Base.{
  ℕ, zero, suc, ◌+◌, ◌≡◌, refl, subst, inl, inr, true, false, some, List, [], ◌∷◌, ◌++◌, Perm,
  arith, Bool-cases, some_inj, if_true, if_false, length, get_elem?, length-append,
}
use buffer_pool.BTree.Key.{ℤ, pos, negsuc, key_le, key_le_trans}
use buffer_pool.BTree.Leaf.{LeafNode, RecordId}
use buffer_pool.BTree.Sorted.{IsSorted}
use buffer_pool.BTree.Nodes.{insert_by_key, sort_by_key, add_entry}

pub key_le_total : (a b : ℤ) → key_le a b ≡ false → key_le b a ≡ true
key_le_total (pos a) (pos b) h = ground arith
key_le_total (pos a) (negsuc b) h = refl
key_le_total (negsuc a) (pos b) h = cc
key_le_total (negsuc a) (negsuc b) h = ground arith

module _ {ℓ} {V : Type ℓ} where
  -- No key of the entries is below the given one.
  abbrev pub IsFrom : ℤ → List (ℤ × V) → Type 0
  IsFrom key [] = Unit
  IsFrom key (x ∷ rest) = (key_le key x.0 ≡ true) × IsFrom key rest

  -- The same order as `IsSorted`, entry by entry.
  abbrev pub IsOrdered : List (ℤ × V) → Type 0
  IsOrdered [] = Unit
  IsOrdered (x ∷ rest) = IsFrom x.0 rest × IsOrdered rest

  pub IsFrom-trans : (a b : ℤ) (l : List (ℤ × V)) → key_le a b ≡ true → IsFrom b l → IsFrom a l
  IsFrom-trans a b [] h f = tt
  IsFrom-trans a b (x ∷ rest) h (le, f) = (key_le_trans a b x.0 h le, IsFrom-trans a b rest h f)

  pub IsFrom-get :
      (key : ℤ) (l : List (ℤ × V)) (i : ℕ) (e : ℤ × V)
      → IsFrom key l
      → get_elem? l i ≡ some e
      → key_le key e.0 ≡ true
  IsFrom-get key [] i e f h = cc
  IsFrom-get key (x ∷ rest) zero e (le, f) h =
      subst (λ (y : ℤ × V). key_le key y.0 ≡ true) (some_inj h) le
  IsFrom-get key (x ∷ rest) (suc i) e (le, f) h = IsFrom-get key rest i e f h

  pub IsSorted-of_IsOrdered : (l : List (ℤ × V)) → IsOrdered l → IsSorted l
  unfolding IsSorted
  IsSorted-of_IsOrdered [] o i j a b lt ea eb = cc
  IsSorted-of_IsOrdered (x ∷ rest) o zero zero a b lt ea eb = absurd (omega arith)
  IsSorted-of_IsOrdered (x ∷ rest) o zero (suc j) a b lt ea eb =
      subst (λ (y : ℤ × V). key_le y.0 b.0 ≡ true) (some_inj ea) (IsFrom-get x.0 rest j b o.0 eb)
  IsSorted-of_IsOrdered (x ∷ rest) o (suc i) zero a b lt ea eb = absurd (omega arith)
  IsSorted-of_IsOrdered (x ∷ rest) o (suc i) (suc j) a b lt ea eb =
      IsSorted-of_IsOrdered rest o.1 i j a b (omega arith) ea eb

  insert-IsFrom :
      (key : ℤ) (e : ℤ × V) (l : List (ℤ × V))
      → key_le key e.0 ≡ true
      → IsFrom key l
      → IsFrom key (insert_by_key e l)
  unfolding insert_by_key
  insert-IsFrom key e [] h f = (h, tt)
  insert-IsFrom key e (x ∷ rest) h (le, f) = elim (Bool-cases (key_le e.0 x.0)) [
    | inl first ↦ rw (if_true _ _ first) (h, (le, f))
    | inr later ↦ rw (if_false _ _ later) (le, insert-IsFrom key e rest h f)
  ]

  insert-IsOrdered : (e : ℤ × V) (l : List (ℤ × V)) → IsOrdered l → IsOrdered (insert_by_key e l)
  unfolding insert_by_key
  insert-IsOrdered e [] o = (tt, tt)
  insert-IsOrdered e (x ∷ rest) (f, o) = elim (Bool-cases (key_le e.0 x.0)) [
    | inl first ↦ rw (if_true _ _ first) ((first, IsFrom-trans e.0 x.0 rest first f), (f, o))
    | inr later ↦
        rw (if_false _ _ later)
          (insert-IsFrom x.0 e rest (key_le_total e.0 x.0 later) f, insert-IsOrdered e rest o)
  ]

  pub sort-IsOrdered : (l : List (ℤ × V)) → IsOrdered (sort_by_key l)
  unfolding sort_by_key
  sort-IsOrdered [] = tt
  sort-IsOrdered (x ∷ rest) = insert-IsOrdered x (sort_by_key rest) (sort-IsOrdered rest)

  insert-perm : (e : ℤ × V) (l : List (ℤ × V)) → Perm (insert_by_key e l) (e ∷ l)
  unfolding insert_by_key
  insert-perm e [] = Perm.refl (e ∷ [])
  insert-perm e (x ∷ rest) = elim (Bool-cases (key_le e.0 x.0)) [
    | inl first ↦ rw (if_true _ _ first) (Perm.refl (e ∷ x ∷ rest))
    | inr later ↦
        rw (if_false _ _ later) (Perm.trans (Perm.cons x (insert-perm e rest)) (Perm.swap e x rest))
  ]

  pub sort-perm : (l : List (ℤ × V)) → Perm (sort_by_key l) l
  unfolding sort_by_key
  sort-perm [] = Perm.nil
  sort-perm (x ∷ rest) =
      Perm.trans (insert-perm x (sort_by_key rest)) (Perm.cons x (sort-perm rest))

  length-insert : (e : ℤ × V) (l : List (ℤ × V)) → length (insert_by_key e l) ≡ length l + 1
  unfolding insert_by_key
  length-insert e [] = omega arith
  length-insert e (x ∷ rest) = elim (Bool-cases (key_le e.0 x.0)) [
    | inl first ↦ rw (if_true _ _ first) (omega arith)
    | inr later ↦ rw (if_false _ _ later) (omega (arith, length-insert e rest))
  ]

  pub length-sort : (l : List (ℤ × V)) → length (sort_by_key l) ≡ length l
  unfolding sort_by_key
  length-sort [] = refl
  length-sort (x ∷ rest) = omega (arith, length-insert x (sort_by_key rest), length-sort rest)

pub length-add_entry :
    (node : LeafNode) (key : ℤ) (page_id slot_num : ℕ)
    → length (add_entry node key page_id slot_num).entries ≡ length node.entries + 1
unfolding add_entry
length-add_entry node key page_id slot_num = omega (
  arith,
  length-sort (node.entries ++ (key, record { page_id = page_id; slot_num = slot_num }) ∷ []),
  length-append node.entries ((key, record { page_id = page_id; slot_num = slot_num }) ∷ []),
)

-- A leaf that gets an entry has its old entries and the new one, in the order of their keys,
-- whether it was sorted before or not; its link to the next leaf stays.
pub add_entry-IsSorted :
    (node : LeafNode) (key : ℤ) (page_id slot_num : ℕ)
    → IsSorted (add_entry node key page_id slot_num).entries
      × Perm
          (add_entry node key page_id slot_num).entries
          ((key, record { page_id = page_id; slot_num = slot_num }) ∷ node.entries)
      × ((add_entry node key page_id slot_num).next_page_id ≡ node.next_page_id)
unfolding add_entry
add_entry-IsSorted node key page_id slot_num =
    let e : ℤ × RecordId = (key, record { page_id = page_id; slot_num = slot_num }) in
    let all = node.entries ++ e ∷ [] in
    (
      IsSorted-of_IsOrdered (sort_by_key all) (sort-IsOrdered all),
      Perm.trans (sort-perm all) (perm_append_singleton e node.entries),
      refl,
    )
