-- ===== src/BTree/Tree/Finding.antt =====
-- `find`: a lookup in the tree, from the header page to the entry of the key.
use buffer_pool.Base.{
  ℕ, ◌+◌, ◌≤◌, ◌<◌, ◌≡◌, refl, ap, subst, ◌∙◌, inl, inr, Option, some, List, [], ◌∷◌, ◌++◌, arith,
  Option-cases, ◌>>=◌, length, length-append,
}
use buffer_pool.Common.{page_size, u64_size}
use buffer_pool.Disk.FileIo.{Io}
use buffer_pool.Disk.Slots.{Succeeds}
use buffer_pool.Pool.Loading.{disk_of, content, IsReady}
use buffer_pool.BTree.Key.{ℤ}
use buffer_pool.BTree.Sorted.{IsSorted}
use buffer_pool.BTree.Leaf.{LeafNode, RecordId}
use buffer_pool.BTree.Leaf.Search.{Finds, find_kv-Finds}
use buffer_pool.BTree.Tree.{BTree, read_page, get_root_page_id, find_leaf, find}
use buffer_pool.BTree.Tree.Reading.{read_page-Keeps}
use mathlib.Core.List.{append-nil}
use buffer_pool.BTree.Tree.Rows.{
  read_pages, Row, AllHeld, none_held, also_held, AllHeld-append, read_pages-none, read_pages-some,
  read_pages-Row,
}
use buffer_pool.BTree.Tree.Walking.{
  Leads, path_of, length-path_of, path_of-AllHeld, find_leaf_loop-path_of,
}

-- The pages of the tree's pool.
abbrev pub pages : BTree → ℕ → Option (List ℕ)
pages t = content t.buffer_pool

pub find_leaf-path_of :
    (fuel : ℕ) (faults : ℕ → Io) (now : ℕ) (t : BTree) (key : ℤ) (header : List ℕ)
    (n root leaf_id : ℕ) (leaf : LeafNode)
    → IsReady t.buffer_pool
    → ((m : ℕ) → Succeeds (faults m))
    → (disk_of t.buffer_pool).num_writes + fuel + 1 < u64_size
    → n ≤ fuel
    → pages t t.header_page_id ≡ some header
    → length header ≡ page_size
    → get_root_page_id header ≡ some root
    → (l : Leads (pages t) key n root leaf leaf_id)
    → find_leaf fuel faults now t key ≡ (
        read_pages faults now (t.header_page_id ∷ path_of l) t.buffer_pool >>= λ q.
        some (some (leaf, leaf_id), record t { buffer_pool = q }))
unfolding find_leaf
find_leaf-path_of fuel faults now t key header n root leaf_id leaf r s counted enough at len rooted
      l =
    elim (Option-cases (read_page faults now t.buffer_pool t.header_page_id)) [
      | inl panics ↦
          rw (panics, read_pages-none faults now t.header_page_id (path_of l) t.buffer_pool panics)
            refl
      | inr ((got, p1), reads) ↦
          let (is, keeps) =
            read_page-Keeps faults now t.buffer_pool p1 t.header_page_id header got r s len at
              (omega arith) reads in
          let root_of : get_root_page_id got ≡ some root = ap get_root_page_id is ∙ rooted in
          let walks =
            find_leaf_loop-path_of fuel faults now p1 (pages t) key n root leaf_id leaf keeps.ready
              s keeps.same (omega (arith, keeps.writes)) enough l in
          rw
            (
              reads,
              root_of,
              walks,
              read_pages-some faults now t.header_page_id (path_of l) t.buffer_pool p1 got reads,
            )
            (elim (Option-cases (read_pages faults now (path_of l) p1)) [
              | inl none_read ↦ rw none_read refl
              | inr (q, all_read) ↦ rw all_read refl
            ])
    ]

pub walk-Row :
    (faults : ℕ → Io) (now fuel : ℕ) (t : BTree) (key : ℤ) (header : List ℕ) (n root leaf_id : ℕ)
    (leaf : LeafNode) (more : List ℕ)
    → IsReady t.buffer_pool
    → ((m : ℕ) → Succeeds (faults m))
    → (disk_of t.buffer_pool).num_writes + fuel + length more + 1 < u64_size
    → n ≤ fuel
    → pages t t.header_page_id ≡ some header
    → length header ≡ page_size
    → AllHeld (pages t) more
    → (l : Leads (pages t) key n root leaf leaf_id)
    → Row faults now (t.header_page_id ∷ path_of l ++ more) t.buffer_pool
walk-Row faults now fuel t key header n root leaf_id leaf more r s counted enough at len held l =
    read_pages-Row faults now (pages t) (t.header_page_id ∷ path_of l ++ more) t.buffer_pool r s
      (λ k. refl)
      (omega
        (arith, length-append (path_of l) more, length-path_of (pages t) key n root leaf_id leaf l))
      (also_held header at len (
        AllHeld-append (pages t) (path_of l) more
          (path_of-AllHeld (pages t) key n root leaf_id leaf l) held))

-- Without faults and with the pool in order, a lookup in a tree whose header page names a root from
-- which the key's path leads to a sorted leaf, with fuel for each page of the path, reads the
-- header page and the pages of the path, in their order, and nothing else, and then returns an
-- entry of that leaf with the key, and nothing only if the leaf has none. It panics just if one of
-- these reads does. If none does, the pool stays in order and no page changes; if one does, then of
-- a page for which there is no frame, or whose access the replacer cannot record, or whose frame
-- the replacer can no longer count as evictable.
pub find-Finds :
    (fuel : ℕ) (faults : ℕ → Io) (now : ℕ) (t : BTree) (key : ℤ) (header : List ℕ)
    (n root leaf_id : ℕ) (leaf : LeafNode)
    → IsReady t.buffer_pool
    → ((m : ℕ) → Succeeds (faults m))
    → (disk_of t.buffer_pool).num_writes + fuel + 1 < u64_size
    → n ≤ fuel
    → pages t t.header_page_id ≡ some header
    → length header ≡ page_size
    → get_root_page_id header ≡ some root
    → (l : Leads (pages t) key n root leaf leaf_id) → IsSorted leaf.entries
    → (kv : Option (ℤ × RecordId)) × Finds leaf.entries key kv
      × (find fuel faults now t key ≡ (
          read_pages faults now (t.header_page_id ∷ path_of l) t.buffer_pool >>= λ q.
          some (kv, record t { buffer_pool = q })))
      × Row faults now (t.header_page_id ∷ path_of l) t.buffer_pool
unfolding find
find-Finds fuel faults now t key header n root leaf_id leaf r s counted enough at len rooted l st =
    let (kv, searched, finds) = find_kv-Finds leaf key st in
    let walks =
      find_leaf-path_of fuel faults now t key header n root leaf_id leaf r s counted enough at len
        rooted l in
    (
      kv,
      finds,
      rw walks
          (elim (Option-cases
            (read_pages faults now (t.header_page_id ∷ path_of l) t.buffer_pool)) [
              | inl none_read ↦ rw none_read refl
              | inr (q, all_read) ↦ rw all_read (rw searched refl)
            ]),
      subst (λ row. Row faults now (t.header_page_id ∷ row) t.buffer_pool) (append-nil (path_of l))
          (walk-Row faults now fuel t key header n root leaf_id leaf [] r s (omega arith) enough at
            len none_held l),
    )
