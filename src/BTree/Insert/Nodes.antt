-- ===== src/BTree/Insert/Nodes.antt =====
-- Nodes in the pages of a pool, as `encode` leaves them.
use buffer_pool.Base.{
  ℕ, ◌+◌, ◌*◌, ◌≤◌, ◌<◌, ◌≡◌, sym, ap, ◌∙◌, ◌≢◌, inl, inr, Option, some, List, [], ◌∷◌, ◌++◌, arith,
  Bool-cases, some_inj, if_true, if_false, length, get_elem?,
}
use buffer_pool.Common.{page_size, u32_size}
use buffer_pool.BTree.Key.{ℤ, key_le}
use buffer_pool.BTree.Leaf.{LeafNode, RecordId, header_size}
use buffer_pool.BTree.Leaf
use buffer_pool.BTree.Leaf.Codec.{IsEntry, AreEntries, decode-encode_leaf}
use buffer_pool.BTree.Internal.{InternalNode}
use buffer_pool.BTree.Internal
use buffer_pool.BTree.Internal.Codec.{AreChildren, decode-encode_internal}
use buffer_pool.BTree.Nodes.{insert_by_key, sort_by_key, add_entry}
use buffer_pool.BTree.Tree.{leaf_node, internal_node}

-- Page `page_id` holds the leaf, whose values are those of machine integers.
pub record LeafAt (c : ℕ → Option (List ℕ)) (page_id : ℕ) (leaf : LeafNode) : Type 0 where
  pub bytes : List ℕ
  pub holds : c page_id ≡ some bytes
  pub full : length bytes ≡ page_size
  pub kind : get_elem? bytes 0 ≡ some leaf_node
  pub decodes : Leaf.decode bytes ≡ some leaf
  pub entries : AreEntries leaf.entries
  pub link : leaf.next_page_id < u32_size

pub record InternalAt (c : ℕ → Option (List ℕ)) (page_id : ℕ) (node : InternalNode) : Type 0 where
  pub bytes : List ℕ
  pub holds : c page_id ≡ some bytes
  pub full : length bytes ≡ page_size
  pub kind : get_elem? bytes 0 ≡ some internal_node
  pub decodes : Internal.decode bytes ≡ some node
  pub entries : AreChildren node.entries

-- A leaf stays where its page is not changed.
pub moved-LeafAt :
    (c d : ℕ → Option (List ℕ)) (page_id : ℕ) (leaf : LeafNode)
    → LeafAt c page_id leaf
    → d page_id ≡ c page_id
    → LeafAt d page_id leaf
moved-LeafAt c d page_id leaf at same = record {
  bytes = at.bytes;
  holds = same ∙ at.holds;
  full = at.full;
  kind = at.kind;
  decodes = at.decodes;
  entries = at.entries;
  link = at.link;
}

pub moved-InternalAt :
    (c d : ℕ → Option (List ℕ)) (page_id : ℕ) (node : InternalNode)
    → InternalAt c page_id node
    → d page_id ≡ c page_id
    → InternalAt d page_id node
moved-InternalAt c d page_id node at same = record {
  bytes = at.bytes;
  holds = same ∙ at.holds;
  full = at.full;
  kind = at.kind;
  decodes = at.decodes;
  entries = at.entries;
}

-- No page is a leaf and an internal node.
pub leaf_not_internal :
    (c : ℕ → Option (List ℕ)) (page_id leaf_id : ℕ) (leaf : LeafNode) (node : InternalNode)
    → LeafAt c leaf_id leaf
    → InternalAt c page_id node
    → page_id ≢ leaf_id
leaf_not_internal c page_id leaf_id leaf node at at' same =
    let one : at.bytes ≡ at'.bytes = some_inj (sym at.holds ∙ ap c (sym same) ∙ at'.holds) in
    let kinds : some leaf_node ≡ some internal_node =
      sym at.kind ∙ ap (λ (l : List ℕ). get_elem? l 0) one ∙ at'.kind in
    absurd (omega (arith, some_inj kinds))

-- The leaf is in the page that it was encoded to.
pub encode-LeafAt :
    (page_id : ℕ) (leaf : LeafNode) (bytes : List ℕ)
    → length bytes ≡ page_size
    → header_size + 16 * length leaf.entries ≤ page_size
    → leaf.next_page_id < u32_size
    → AreEntries leaf.entries
    → (out : List ℕ) × (Leaf.encode leaf bytes ≡ some out)
      × (length out ≡ page_size)
      × ((d : ℕ → Option (List ℕ)) → d page_id ≡ some out → LeafAt d page_id leaf)
encode-LeafAt page_id leaf bytes len fits link are =
    let (out, encodes, size, decodes, kind) =
      decode-encode_leaf leaf bytes (omega arith) (omega arith) link are in
    (
      out,
      encodes,
      size ∙ len,
      λ d holds. record {
        bytes = out;
        holds = holds;
        full = size ∙ len;
        kind = kind;
        decodes = decodes;
        entries = are;
        link = link;
      },
    )

pub encode-InternalAt :
    (page_id : ℕ) (node : InternalNode) (bytes : List ℕ)
    → length bytes ≡ page_size
    → header_size + 12 * length node.entries ≤ page_size
    → AreChildren node.entries
    → (out : List ℕ) × (Internal.encode node bytes ≡ some out)
      × (length out ≡ page_size)
      × ((d : ℕ → Option (List ℕ)) → d page_id ≡ some out → InternalAt d page_id node)
encode-InternalAt page_id node bytes len fits are =
    let (out, encodes, size, decodes, kind) =
      decode-encode_internal node bytes (omega arith) (omega arith) are in
    (
      out,
      encodes,
      size ∙ len,
      λ d holds. record {
        bytes = out;
        holds = holds;
        full = size ∙ len;
        kind = kind;
        decodes = decodes;
        entries = are;
      },
    )

AreEntries-insert :
    (e : ℤ × RecordId) (l : List (ℤ × RecordId))
    → IsEntry e
    → AreEntries l
    → AreEntries (insert_by_key e l)
unfolding insert_by_key
AreEntries-insert e [] is are = (is, tt)
AreEntries-insert e (x ∷ rest) is (first, are) = elim (Bool-cases (key_le e.0 x.0)) [
  | inl le ↦ rw (if_true _ _ le) (is, (first, are))
  | inr gt ↦ rw (if_false _ _ gt) (first, AreEntries-insert e rest is are)
]

AreEntries-sort : (l : List (ℤ × RecordId)) → AreEntries l → AreEntries (sort_by_key l)
unfolding sort_by_key
AreEntries-sort [] are = tt
AreEntries-sort (x ∷ rest) (is, are) =
    AreEntries-insert x (sort_by_key rest) is (AreEntries-sort rest are)

AreEntries-append : (l m : List (ℤ × RecordId)) → AreEntries l → AreEntries m → AreEntries (l ++ m)
AreEntries-append [] m are are' = are'
AreEntries-append (x ∷ l) m (is, are) are' = (is, AreEntries-append l m are are')

pub AreEntries-add_entry :
    (leaf : LeafNode) (key : ℤ) (page_id slot_num : ℕ)
    → AreEntries leaf.entries
    → IsEntry (key, record { page_id = page_id; slot_num = slot_num })
    → AreEntries (add_entry leaf key page_id slot_num).entries
unfolding add_entry
AreEntries-add_entry leaf key page_id slot_num are is =
    AreEntries-sort _ (AreEntries-append leaf.entries _ are (is, tt))

-- The entries of the halves are those of the whole.
pub AreEntries-halves :
    (l m : List (ℤ × RecordId)) → AreEntries (l ++ m) → AreEntries l × AreEntries m
AreEntries-halves [] m are = (tt, are)
AreEntries-halves (x ∷ l) m (is, are) =
    let (left, right) = AreEntries-halves l m are in ((is, left), right)
