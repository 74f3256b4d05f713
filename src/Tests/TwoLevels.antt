-- ===== src/Tests/TwoLevels.antt =====
-- The way down of `BTree::insert` of src/b_plus_tree.rs in a tree of a root and its last leaf.
use buffer_pool.Base.{
  ℕ, zero, suc, ◌<◌, ◌≡◌, refl, sym, ap, subst, ◌∙◌, ◌≢◌, Option, some, List, [], ◌∷◌, arith, ◌==◌,
  if◌then◌else◌, some_inj, length, get_elem?, drop, length-drop,
}
use buffer_pool.Common.{page_size}
use buffer_pool.Frame.{zero_page, length-zero_page}
use buffer_pool.Pool.{BufferPoolManager}
use buffer_pool.Pool.Loading.{content}
use buffer_pool.BTree.Key.{ℤ, pos, negsuc}
use buffer_pool.BTree.Bytes.{slice, from_le_bytes}
use buffer_pool.BTree.Sorted.{IsSorted, get_elem?-beyond}
use buffer_pool.BTree.Internal.{InternalNode, decode, decode_entries}
use buffer_pool.BTree.Tree.{BTree}
use buffer_pool.BTree.Insert.{PathFrame}
use buffer_pool.BTree.Insert.Descent.{find_path}
use buffer_pool.BTree.Insert.Nodes.{LeafAt, InternalAt, leaf_not_internal}
use buffer_pool.BTree.Insert.Routes.{Sends, Route, stop, pass}
use buffer_pool.BTree.Insert.Descending.{Arrived}
use buffer_pool.BTree.Insert.Whole.{two-IsSorted}
use buffer_pool.BTree.Insert.Gaining.{SentTo}
use buffer_pool.BTree.Insert.Beside.{SplitsBeside, insert-beside}
use buffer_pool.BTree.Nodes.Members.{In}
use buffer_pool.BTree.Insert.Within.{insert-within}
use buffer_pool.BTree.Insert.Growth.{insert}
use buffer_pool.BTree.Leaf.{LeafNode, RecordId}
use buffer_pool.BTree.Nodes.{add_entry}
use buffer_pool.Pool.Calm.{IsCalm}
use buffer_pool.BTree.Insert.Arriving.{find_path-Arrived}
use buffer_pool.Tests.FourFrames.{last, four_with, four_with-IsCalm, last-LeafAt, page-content}
use buffer_pool.Tests.Disk.{no_faults-Succeeds}
use buffer_pool.Tests.Scheduler.{never}

-- An internal node with the keys -2 and 5, whose last child is page 1.
abbrev root_page : List ℕ
root_page =
    0
    ∷ 0
    ∷ 0
    ∷ 0
    ∷ 2
    ∷ 0
    ∷ 0
    ∷ 0
    ∷ 168
    ∷ 2
    ∷ 0
    ∷ 0
    ∷ 0
    ∷ 0
    ∷ 0
    ∷ 0
    ∷ 254
    ∷ 255
    ∷ 255
    ∷ 255
    ∷ 255
    ∷ 255
    ∷ 255
    ∷ 255
    ∷ 3
    ∷ 0
    ∷ 0
    ∷ 0
    ∷ 5
    ∷ 0
    ∷ 0
    ∷ 0
    ∷ 0
    ∷ 0
    ∷ 0
    ∷ 0
    ∷ 1
    ∷ 0
    ∷ 0
    ∷ 0
    ∷ drop 40 zero_page

abbrev root : InternalNode
root = record { entries = (negsuc 1, 3) ∷ (pos 5, 1) ∷ [] }

length-root_page : length root_page ≡ page_size
length-root_page = omega (arith, length-drop 40 zero_page, length-zero_page)

decode-root_page : decode root_page ≡ some root
unfolding decode decode_entries slice from_le_bytes
decode-root_page = refl

root-InternalAt : InternalAt (content (four_with root_page)) 0 root
root-InternalAt = record {
  bytes = root_page;
  holds = page-content root_page;
  full = length-root_page;
  kind = refl;
  decodes = decode-root_page;
  entries = (omega arith, omega arith, (omega arith, omega arith, tt));
}

root-IsSorted : IsSorted root.entries
root-IsSorted = two-IsSorted (negsuc 1, 3) (pos 5, 1) refl

abbrev sends_last : Sends (content (four_with root_page)) (pos 9) 0 1 root
sends_last = record {
  at = root-InternalAt;
  sorted = root-IsSorted;
  index = 1;
  child_key = pos 5;
  entry = refl;
  below = refl;
  above = λ i e ge h. absurd (get_elem?-beyond root.entries i e (omega arith) h);
}

-- The leaf is full, and the root has room for one more child.
abbrev tall : BTree
tall = record {
  header_page_id = 9;
  root_page_id = 0;
  buffer_pool = four_with root_page;
  leaf_node_max_size = 1;
  internal_node_max_size = 3;
}

find_path-Arrived_example :
    (stack : List PathFrame) × (p : BufferPoolManager) × (find_path never 100 1 tall (pos 9)
      ≡ some (stack, p))
    × Arrived (content (four_with root_page)) (pos 9) 1 3 0 1 last 16 tall.buffer_pool p stack
find_path-Arrived_example =
    find_path-Arrived never 100 1 tall (pos 9) 2 1 16 (content (four_with root_page)) last
      (λ n. no_faults-Succeeds) (pass root 1 sends_last (stop (last-LeafAt root_page)))
      (omega arith) (four_with-IsCalm root_page length-root_page)

abbrev roomy : BTree
roomy = record tall { leaf_node_max_size = 2 }

insert-within_example :
    (p : BufferPoolManager) × (d : ℕ → Option (List ℕ)) × (insert never 100 1 roomy (pos 9) 5 0
      ≡ some (record roomy { buffer_pool = p }))
    × LeafAt d 1 (add_entry last (pos 9) 5 0)
    × ((k : ℕ) → k ≢ 1 → d k ≡ content (four_with root_page) k)
    × ((sought : ℤ) (m to_id : ℕ) (to : LeafNode)
        → Route (content (four_with root_page)) sought m 0 to to_id
        → Route d sought m 0 (if to_id == 1 then add_entry last (pos 9) 5 0 else to) to_id)
    × IsCalm 16 d p
insert-within_example =
    insert-within never 100 1 roomy (pos 9) 5 0 2 1 16 (content (four_with root_page)) last
      (λ n. no_faults-Succeeds) (pass root 1 sends_last (stop (last-LeafAt root_page)))
      (omega arith) (four_with-IsCalm root_page length-root_page) (λ e. absurd (omega arith))
      (omega arith, omega arith, omega arith) (omega arith) (omega arith)

one_parent :
    (page_id j : ℕ) (k : ℤ) (node : InternalNode)
    → InternalAt (content (four_with root_page)) page_id node
    → get_elem? node.entries j ≡ some (k, 1)
    → (page_id ≡ 0) × (j ≡ sends_last.index)
one_parent page_id j k node at e =
    let c = content (four_with root_page) in
    let made = (four_with-IsCalm root_page length-root_page).held page_id at.bytes at.holds in
    let other = leaf_not_internal c page_id 1 last node (last-LeafAt root_page) at in
    let here : page_id ≡ 0 = only page_id made other in
    let bytes : at.bytes ≡ root_page =
      some_inj (sym at.holds ∙ ap c here ∙ page-content root_page) in
    let is : node ≡ root = some_inj (sym at.decodes ∙ ap decode bytes ∙ decode-root_page) in
    (here, last_child j k (sym (ap (λ (n : InternalNode). get_elem? n.entries j) is) ∙ e))
  where
    only : (n : ℕ) → n < 2 → n ≢ 1 → n ≡ 0
    only zero lt ne = refl
    only (suc zero) lt ne = absurd (ne refl)
    only (suc (suc n)) lt ne = absurd (omega arith)

    last_child : (j : ℕ) (k : ℤ) → get_elem? root.entries j ≡ some (k, 1) → j ≡ 1
    last_child zero k e =
        let bad : 3 ≡ 1 = ap (λ (x : ℤ × ℕ). x.1) (some_inj e) in absurd (omega (arith, bad))
    last_child (suc zero) k e = refl
    last_child (suc (suc j)) k e = cc

sent_last :
    (e : ℤ × RecordId) → In last.entries e → SentTo root sends_last.child_key sends_last.index e.0
sent_last e (zero, at) =
    subst (λ (x : ℤ × RecordId). SentTo root (pos 5) 1 x.0) (some_inj at)
      (refl, λ i x ge h. absurd (get_elem?-beyond root.entries i x (omega arith) h))
sent_last e (suc i, at) = cc

insert-beside_example :
    SplitsBeside never 100 1 tall (pos 9) 5 0 1 0 2 12 (content (four_with root_page)) last
insert-beside_example =
    insert-beside never 100 1 tall (pos 9) 5 0 2 1 0 12 (content (four_with root_page)) last root
      (λ n. no_faults-Succeeds) (pass root 1 sends_last (stop (last-LeafAt root_page)))
      (omega arith) (four_with-IsCalm root_page length-root_page) (omega arith)
      (λ e. absurd (omega arith)) (λ e. absurd (omega arith)) sends_last one_parent sent_last
      (omega arith, omega arith, omega arith) (omega arith) (omega arith) (omega arith)
      (omega arith)
