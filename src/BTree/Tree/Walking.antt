-- ===== src/BTree/Tree/Walking.antt =====
-- `find_leaf`: the walk from a page down to the leaf of a key.
use buffer_pool.Base.{
  ℕ, zero, suc, ◌+◌, ◌≤◌, ◌<◌, ◌≡◌, refl, ap, ◌∙◌, inl, inr, true, Option, some, List, [], ◌∷◌,
  arith, dec_lt, Option-cases, ◌>>=◌, length, get_elem?,
}
use buffer_pool.Common.{page_size, u64_size}
use buffer_pool.Disk.FileIo.{Io}
use buffer_pool.Disk.Slots.{Succeeds}
use buffer_pool.Pool.{BufferPoolManager}
use buffer_pool.Pool.Loading.{disk_of, content, IsReady}
use buffer_pool.BTree.Key.{ℤ, key_le}
use buffer_pool.BTree.Sorted.{IsSorted, Above}
use buffer_pool.BTree.Leaf.{LeafNode}
use buffer_pool.BTree.Leaf
use buffer_pool.BTree.Internal.{InternalNode, find_child_index}
use buffer_pool.BTree.Internal
use buffer_pool.BTree.Internal.Search.{find_child_index-last}
use buffer_pool.BTree.Tree.{
  ends, goes, leaf_node, internal_node, read_page, find_leaf_round, find_leaf_loop,
}
use buffer_pool.BTree.Tree.Reading.{read_page-Keeps}
use buffer_pool.BTree.Tree.Rows.{
  read_pages, AllHeld, none_held, also_held, read_pages-nil, read_pages-none, read_pages-some,
}

-- In the pages `c`, the key's path from a page goes through `n` pages to a leaf: it takes the last
-- child of each sorted internal node whose key is not greater.
pub data Leads (c : ℕ → Option (List ℕ)) (key : ℤ) : ℕ → ℕ → LeafNode → ℕ → Type 0 where
  at_leaf :
      {page_id : ℕ} {leaf : LeafNode} (bytes : List ℕ)
      → c page_id ≡ some bytes
      → length bytes ≡ page_size
      → get_elem? bytes 0 ≡ some leaf_node
      → Leaf.decode bytes ≡ some leaf
      → Leads c key 1 page_id leaf page_id
  through :
      {n page_id leaf_id : ℕ} {leaf : LeafNode} (bytes : List ℕ) (node : InternalNode) (i : ℕ)
      (k : ℤ) (child : ℕ)
      → c page_id ≡ some bytes
      → length bytes ≡ page_size
      → get_elem? bytes 0 ≡ some internal_node
      → Internal.decode bytes ≡ some node
      → IsSorted node.entries
      → get_elem? node.entries i ≡ some (k, child)
      → key_le k key ≡ true
      → Above node.entries key (i + 1)
      → Leads c key n child leaf leaf_id
      → Leads c key (suc n) page_id leaf leaf_id

-- The last entry with a key up to the given one is unique, and the search finds it.
pub find_child_index_unique :
    (node : InternalNode) (key k : ℤ) (i child : ℕ)
    → IsSorted node.entries
    → get_elem? node.entries i ≡ some (k, child)
    → key_le k key ≡ true
    → Above node.entries key (i + 1)
    → find_child_index node key ≡ some i
find_child_index_unique node key k i child s at le above = elim (find_child_index-last node key s) [
  | inr (_, all) ↦ let bad = all i (k, child) (omega arith) at in cc (bad, le)
  | inl (j, e, found, at', le', above') ↦ elim (dec_lt i j) [
    | yes lt ↦ let bad = above j e (omega arith) at' in cc (bad, le')
    | no ge ↦ elim (dec_lt j i) [
      | yes lt ↦ let bad = above' i (k, child) (omega arith) at in cc (bad, le)
      | no ge' ↦ let same : j ≡ i = omega arith in found ∙ ap some same
    ]
  ]
]

pub round-leaf :
    (key : ℤ) (page_id : ℕ) (bytes : List ℕ) (leaf : LeafNode)
    → get_elem? bytes 0 ≡ some leaf_node
    → Leaf.decode bytes ≡ some leaf
    → find_leaf_round key page_id bytes ≡ some (ends (some (leaf, page_id)))
unfolding find_leaf_round
round-leaf key page_id bytes leaf kind decodes = rw (kind, find_leaf_round) (rw decodes refl)

pub round-internal :
    (key k : ℤ) (page_id i child : ℕ) (bytes : List ℕ) (node : InternalNode)
    → get_elem? bytes 0 ≡ some internal_node
    → Internal.decode bytes ≡ some node
    → find_child_index node key ≡ some i
    → get_elem? node.entries i ≡ some (k, child)
    → find_leaf_round key page_id bytes ≡ some (goes child)
unfolding find_leaf_round
round-internal key k page_id i child bytes node kind decodes found at =
    rw (kind, find_leaf_round) (rw decodes (rw found (rw at refl)))

-- The pages of the path.
unfoldable pub path_of :
    {c : ℕ → Option (List ℕ)} {key : ℤ} {n page_id leaf_id : ℕ} {leaf : LeafNode}
    → Leads c key n page_id leaf leaf_id
    → List ℕ
path_of {page_id = page_id} (at_leaf bytes e len kind decodes) = page_id ∷ []
path_of {page_id = page_id} (through bytes node i k child e len kind decodes st at le above rest) =
    page_id ∷ path_of rest

pub length-path_of :
    (c : ℕ → Option (List ℕ)) (key : ℤ) (n page_id leaf_id : ℕ) (leaf : LeafNode)
    (l : Leads c key n page_id leaf leaf_id)
    → length (path_of l) ≡ n
unfolding path_of
length-path_of c key n page_id leaf_id leaf (at_leaf bytes e len kind decodes) = refl
length-path_of c key n page_id leaf_id leaf
      (through {n = m} bytes node i k child e len kind decodes st at le above rest) =
    ap suc (length-path_of c key m child leaf_id leaf rest)

pub path_of-AllHeld :
    (c : ℕ → Option (List ℕ)) (key : ℤ) (n page_id leaf_id : ℕ) (leaf : LeafNode)
    (l : Leads c key n page_id leaf leaf_id)
    → AllHeld c (path_of l)
unfolding path_of
path_of-AllHeld c key n page_id leaf_id leaf (at_leaf bytes e len kind decodes) =
    also_held bytes e len none_held
path_of-AllHeld c key n page_id leaf_id leaf
      (through {n = m} bytes node i k child e len kind decodes st at le above rest) =
    also_held bytes e len (path_of-AllHeld c key m child leaf_id leaf rest)

no_path :
    (c : ℕ → Option (List ℕ)) (key : ℤ) (n page_id leaf_id : ℕ) (leaf : LeafNode)
    → Leads c key n page_id leaf leaf_id
    → 1 ≤ n
no_path c key n page_id leaf_id leaf (at_leaf bytes e len kind decodes) = omega arith
no_path c key n page_id leaf_id leaf
      (through bytes node i k child e len kind decodes st at le above rest) =
    omega arith

-- Without faults, the walk from a page whose path leads to a leaf, with fuel for each page of the
-- path, reads the pages of the path in their order and ends with the leaf, or panics with a read.
pub find_leaf_loop-path_of :
    (fuel : ℕ) (faults : ℕ → Io) (now : ℕ) (p : BufferPoolManager) (c : ℕ → Option (List ℕ))
    (key : ℤ) (n page_id leaf_id : ℕ) (leaf : LeafNode)
    → IsReady p
    → ((m : ℕ) → Succeeds (faults m))
    → ((k : ℕ) → content p k ≡ c k)
    → (disk_of p).num_writes + fuel < u64_size
    → n ≤ fuel
    → (l : Leads c key n page_id leaf leaf_id)
    → find_leaf_loop fuel faults now p key page_id
      ≡ (read_pages faults now (path_of l) p >>= λ q. some (some (leaf, leaf_id), q))
unfolding find_leaf_loop path_of
find_leaf_loop-path_of zero faults now p c key n page_id leaf_id leaf r s same counted enough l =
    absurd (omega (arith, no_path c key n page_id leaf_id leaf l))
find_leaf_loop-path_of (suc fuel) faults now p c key n page_id leaf_id leaf r s same counted enough
      (at_leaf bytes e len kind decodes) =
    elim (Option-cases (read_page faults now p page_id)) [
      | inl panics ↦ rw (panics, read_pages-none faults now page_id [] p panics) refl
      | inr ((got, p1), reads) ↦
          let (is, keeps) =
            read_page-Keeps faults now p p1 page_id bytes got r s len (same page_id ∙ e)
              (omega arith) reads in
          let round : find_leaf_round key page_id got ≡ some (ends (some (leaf, page_id))) =
            ap (find_leaf_round key page_id) is ∙ round-leaf key page_id bytes leaf kind decodes in
          rw (reads, round, read_pages-some faults now page_id [] p p1 got reads)
            (rw (read_pages-nil faults now p1) refl)
    ]
find_leaf_loop-path_of (suc fuel) faults now p c key n page_id leaf_id leaf r s same counted enough
      (through {n = m} bytes node i k child e len kind decodes st at le above rest) =
    elim (Option-cases (read_page faults now p page_id)) [
      | inl panics ↦ rw (panics, read_pages-none faults now page_id (path_of rest) p panics) refl
      | inr ((got, p1), reads) ↦
          let (is, keeps) =
            read_page-Keeps faults now p p1 page_id bytes got r s len (same page_id ∙ e)
              (omega arith) reads in
          let round : find_leaf_round key page_id got ≡ some (goes child) =
            ap (find_leaf_round key page_id) is
            ∙ round-internal key k page_id i child bytes node kind decodes
                (find_child_index_unique node key k i child st at le above) at in
          let further =
            find_leaf_loop-path_of fuel faults now p1 c key m child leaf_id leaf keeps.ready s
              (λ k. keeps.same k ∙ same k) (omega (arith, keeps.writes)) (omega arith) rest in
          rw (reads, round, read_pages-some faults now page_id (path_of rest) p p1 got reads)
            further
    ]
