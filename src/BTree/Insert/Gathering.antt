-- ===== src/BTree/Insert/Gathering.antt =====
-- The leaves of a tree after an insert into a tree of one leaf.
use buffer_pool.Base.{
  ℕ, zero, suc, ◌≡◌, refl, sym, ap, subst, ◌∙◌, ◌≢◌, Bool, true, false, Option, some, List, [], ◌∷◌,
  ◌++◌, Perm, arith, if◌then◌else◌, some_inj, length, get_elem?,
}
use mathlib.Core.List.{append-nil}
use buffer_pool.Common.{page_size}
use buffer_pool.BTree.Key.{ℤ, IsI64, key_le}
use buffer_pool.BTree.Sorted.{IsSorted}
use buffer_pool.BTree.Leaf.{LeafNode}
use buffer_pool.BTree.Leaf.Codec.{AreEntries}
use buffer_pool.BTree.Nodes.{add_entry}
use buffer_pool.BTree.Nodes.Sorting.{add_entry-IsSorted}
use buffer_pool.BTree.Nodes.Splitting.{Halves}
use buffer_pool.BTree.Nodes.Members.{add_entry-Has}
use buffer_pool.BTree.Tree.{BTree, get_root_page_id}
use buffer_pool.BTree.Insert.Nodes.{LeafAt, InternalAt}
use buffer_pool.BTree.Insert.Rooting.{two_children}
use buffer_pool.BTree.Insert.Whole.{leaf-Leads, two-Leads, Inserted, all_entries, IsEntry-at}

module _ (t t' : BTree) (leaf : LeafNode) (key : ℤ) (page_id slot_num : ℕ) (d : ℕ → Option (List ℕ))
    (header : List ℕ) (at : d t.header_page_id ≡ some header) (len : length header ≡ page_size)
    (named : get_root_page_id header ≡ some t'.root_page_id) where
  abbrev larger : LeafNode
  larger = add_entry leaf key page_id slot_num

  pub Inserted-room : LeafAt d t'.root_page_id larger → Inserted d t t' leaf key page_id slot_num
  unfolding all_entries
  Inserted-room root = record {
    header = header;
    header_at = at;
    header_full = len;
    names = named;
    leaves = (t'.root_page_id, larger) ∷ [];
    stored = λ i page l h. (one_leaf i page l h).1;
    apart = λ i j page l l' h h'. (one_leaf i page l h).0 ∙ sym (one_leaf j page l' h').0;
    entries =
        subst
          (λ l. Perm l ((key, record { page_id = page_id; slot_num = slot_num }) ∷ leaf.entries))
          (sym (append-nil larger.entries)) (add_entry-IsSorted leaf key page_id slot_num).1;
    leads = λ sought fits. (
      1,
      0,
      t'.root_page_id,
      larger,
      omega arith,
      refl,
      leaf-Leads d sought t'.root_page_id larger root,
      (add_entry-IsSorted leaf key page_id slot_num).0,
      add_entry-Has leaf key sought page_id slot_num,
    );
  }
    where
      one_leaf :
          (i page : ℕ) (l : LeafNode)
          → get_elem? {A = ℕ × LeafNode} ((t'.root_page_id, larger) ∷ []) i ≡ some (page, l)
          → (i ≡ 0) × LeafAt d page l
      one_leaf zero page l h =
          (refl, subst (λ (x : ℕ × LeafNode). LeafAt d x.0 x.1) (some_inj h) root)
      one_leaf (suc i) page l h = cc

  pub Inserted-split :
      (left right : ℕ) (sep : ℤ) (lo hi : LeafNode)
      → AreEntries larger.entries
      → Halves larger right lo sep hi
      → left ≢ right
      → LeafAt d left lo
      → LeafAt d right hi
      → InternalAt d t'.root_page_id (two_children left sep right)
      → Inserted d t t' leaf key page_id slot_num
  unfolding all_entries
  Inserted-split left right sep lo hi are halves ne lo_at hi_at root =
      let (i, e, e_at, e_is) = halves.separator in
      let sep_fits : IsI64 sep = subst IsI64 e_is (IsEntry-at larger.entries i e are e_at).0 in
      record {
        header = header;
        header_at = at;
        header_full = len;
        names = named;
        leaves = (left, lo) ∷ (right, hi) ∷ [];
        stored = two_stored;
        apart = two_apart;
        entries =
            subst
              (λ l.
                Perm l ((key, record { page_id = page_id; slot_num = slot_num }) ∷ leaf.entries))
              (sym (ap (λ l. lo.entries ++ l) (append-nil hi.entries) ∙ halves.joined))
              (add_entry-IsSorted leaf key page_id slot_num).1;
        leads = λ sought fits.
            let (in_half, of_half) = halves.routes sought in
            let (in_larger, of_larger) = add_entry-Has leaf key sought page_id slot_num in
            (
              2,
              (if key_le sep sought then 1 else 0),
              (if key_le sep sought then right else left),
              (if key_le sep sought then hi else lo),
              omega arith,
              picked_at (key_le sep sought),
              two-Leads d sought sep t'.root_page_id left right lo hi root lo_at hi_at sep_fits
                  fits,
              picked_sorted (key_le sep sought),
              (λ h. in_larger (of_half h), λ h. in_half (of_larger h)),
            );
      }
    where
      picked_sorted : (b : Bool) → IsSorted (if b then hi else lo).entries
      picked_sorted true = halves.right_sorted
      picked_sorted false = halves.left_sorted

      picked_at :
          (b : Bool)
          → get_elem? {A = ℕ × LeafNode} ((left, lo) ∷ (right, hi) ∷ []) (if b then 1 else 0)
            ≡ some (if b then right else left, if b then hi else lo)
      picked_at true = refl
      picked_at false = refl

      two_stored :
          (i page : ℕ) (l : LeafNode)
          → get_elem? {A = ℕ × LeafNode} ((left, lo) ∷ (right, hi) ∷ []) i ≡ some (page, l)
          → LeafAt d page l
      two_stored zero page l h = subst (λ (x : ℕ × LeafNode). LeafAt d x.0 x.1) (some_inj h) lo_at
      two_stored (suc zero) page l h =
          subst (λ (x : ℕ × LeafNode). LeafAt d x.0 x.1) (some_inj h) hi_at
      two_stored (suc (suc i)) page l h = cc

      two_apart :
          (i j page : ℕ) (l l' : LeafNode)
          → get_elem? {A = ℕ × LeafNode} ((left, lo) ∷ (right, hi) ∷ []) i ≡ some (page, l)
          → get_elem? {A = ℕ × LeafNode} ((left, lo) ∷ (right, hi) ∷ []) j ≡ some (page, l')
          → i ≡ j
      two_apart zero zero page l l' h h' = refl
      two_apart zero (suc zero) page l l' h h' =
          let p : left ≡ page = ap (λ (x : ℕ × LeafNode). x.0) (some_inj h) in
          let q : right ≡ page = ap (λ (x : ℕ × LeafNode). x.0) (some_inj h') in
          absurd (ne (p ∙ sym q))
      two_apart (suc zero) zero page l l' h h' =
          let p : right ≡ page = ap (λ (x : ℕ × LeafNode). x.0) (some_inj h) in
          let q : left ≡ page = ap (λ (x : ℕ × LeafNode). x.0) (some_inj h') in
          absurd (ne (q ∙ sym p))
      two_apart (suc zero) (suc zero) page l l' h h' = refl
      two_apart zero (suc (suc j)) page l l' h h' = cc
      two_apart (suc zero) (suc (suc j)) page l l' h h' = cc
      two_apart (suc (suc i)) j page l l' h h' = cc
