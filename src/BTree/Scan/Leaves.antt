-- ===== src/BTree/Scan/Leaves.antt =====
-- A scan over the leaves that are linked in a chain.
use buffer_pool.Base.{
  ℕ, zero, suc, ◌+◌, ◌≤◌, ◌<◌, ◌≡◌, refl, ap, subst, ◌∙◌, inl, inr, false, Option, none, some, List,
  [], ◌∷◌, ◌++◌, arith, ◌==◌, Option-cases, ◌>>=◌, if_false, length,
}
use buffer_pool.Common.{page_size, u64_size, invalid_page_id}
use buffer_pool.Disk.FileIo.{Io}
use buffer_pool.Disk.Slots.{Succeeds}
use buffer_pool.Pool.{BufferPoolManager}
use buffer_pool.Pool.Loading.{disk_of, content, IsReady}
use buffer_pool.BTree.Key.{ℤ}
use buffer_pool.BTree.Leaf.{LeafNode}
use buffer_pool.BTree.Leaf
use buffer_pool.BTree.Tree.{BTree, read_page, get_root_page_id}
use buffer_pool.BTree.Tree.Reading.{read_page-Keeps}
use mathlib.Core.List.{append-nil}
use buffer_pool.BTree.Tree.Rows.{
  read_pages, Row, AllHeld, none_held, also_held, read_pages-append, read_pages-nil,
  read_pages-none, read_pages-some,
}
use buffer_pool.BTree.Tree.Walking.{Leads, path_of, length-path_of}
use buffer_pool.BTree.Tree.Finding.{pages, find_leaf-path_of, walk-Row}
use buffer_pool.BTree.Scan.{Scan, next, scan}

-- In the pages `c`, the leaves from a page on, by their links.
pub data Chain (c : ℕ → Option (List ℕ)) : ℕ → List LeafNode → Type 0 where
  ends_here : Chain c invalid_page_id []
  linked :
      {page_id : ℕ} {leaf : LeafNode} {rest : List LeafNode} (bytes : List ℕ)
      → (page_id == invalid_page_id) ≡ false
      → c page_id ≡ some bytes
      → length bytes ≡ page_size
      → Leaf.decode bytes ≡ some leaf
      → Chain c leaf.next_page_id rest
      → Chain c page_id (leaf ∷ rest)

-- The leaves that a loop over the scan sees. The fuel is one more than their number.
unfoldable pub visit : ℕ → (ℕ → Io) → ℕ → Scan → Option (List LeafNode × Scan)
visit zero faults now s = none
visit (suc fuel) faults now s = do
  (seen, s1) ← next faults now s
  elim seen [
    | none ↦ some ([], s1)
    | some leaf ↦ do (rest, s2) ← visit fuel faults now s1; some (leaf ∷ rest, s2)
  ]

next_ends :
    (faults : ℕ → Io) (now : ℕ) (t : BTree)
    → next faults now (record { tree = t; page_id = invalid_page_id })
      ≡ some (none, record { tree = t; page_id = invalid_page_id })
unfolding next
next_ends faults now t = refl

next_reads :
    (faults : ℕ → Io) (now : ℕ) (s : Scan) (bytes : List ℕ) (p1 : BufferPoolManager)
    (leaf : LeafNode)
    → (s.page_id == invalid_page_id) ≡ false
    → read_page faults now s.tree.buffer_pool s.page_id ≡ some (bytes, p1)
    → Leaf.decode bytes ≡ some leaf
    → next faults now s
      ≡ some (
        some leaf,
        record { tree = record s.tree { buffer_pool = p1 }; page_id = leaf.next_page_id },
      )
unfolding next
next_reads faults now s bytes p1 leaf valid reads decodes =
    rw (if_false _ _ valid, next) (rw reads (rw decodes refl))

next_panics :
    (faults : ℕ → Io) (now : ℕ) (s : Scan)
    → (s.page_id == invalid_page_id) ≡ false
    → read_page faults now s.tree.buffer_pool s.page_id ≡ none
    → next faults now s ≡ none
unfolding next
next_panics faults now s valid panics = rw (if_false _ _ valid, next) (rw panics refl)

-- The pages of the chain.
unfoldable pub pages_of :
    {c : ℕ → Option (List ℕ)} {page_id : ℕ} {leaves : List LeafNode}
    → Chain c page_id leaves
    → List ℕ
pages_of ends_here = []
pages_of {page_id = page_id} (linked bytes valid at len decodes chain) = page_id ∷ pages_of chain

length-pages_of :
    (c : ℕ → Option (List ℕ)) (page_id : ℕ) (leaves : List LeafNode)
    (chain : Chain c page_id leaves)
    → length (pages_of chain) ≡ length leaves
unfolding pages_of
length-pages_of c page_id [] ends_here = refl
length-pages_of c page_id (leaf ∷ rest) (linked bytes valid at len decodes chain) =
    ap suc (length-pages_of c leaf.next_page_id rest chain)

pages_of-AllHeld :
    (c : ℕ → Option (List ℕ)) (page_id : ℕ) (leaves : List LeafNode)
    (chain : Chain c page_id leaves)
    → AllHeld c (pages_of chain)
unfolding pages_of
pages_of-AllHeld c page_id [] ends_here = none_held
pages_of-AllHeld c page_id (leaf ∷ rest) (linked bytes valid at len decodes chain) =
    also_held bytes at len (pages_of-AllHeld c leaf.next_page_id rest chain)

-- Without faults, a scan that stands at a chain of leaves reads their pages in the order of the
-- chain, returns the leaves, and ends after them, or panics with a read.
visit-Chain :
    (fuel : ℕ) (faults : ℕ → Io) (now : ℕ) (t : BTree) (c : ℕ → Option (List ℕ)) (page_id : ℕ)
    (leaves : List LeafNode)
    → IsReady t.buffer_pool
    → ((m : ℕ) → Succeeds (faults m))
    → ((k : ℕ) → content t.buffer_pool k ≡ c k)
    → (disk_of t.buffer_pool).num_writes + fuel < u64_size
    → length leaves < fuel
    → (chain : Chain c page_id leaves)
    → visit fuel faults now (record { tree = t; page_id = page_id }) ≡ (
        read_pages faults now (pages_of chain) t.buffer_pool >>= λ q.
        some (leaves, record { tree = record t { buffer_pool = q }; page_id = invalid_page_id }))
unfolding visit pages_of
visit-Chain zero faults now t c page_id leaves r s same counted enough chain = absurd (omega arith)
visit-Chain (suc fuel) faults now t c page_id leaves r s same counted enough ends_here =
    rw (next_ends faults now t, visit, read_pages-nil faults now t.buffer_pool) refl
visit-Chain (suc fuel) faults now t c page_id (leaf ∷ rest) r s same counted enough
      (linked bytes valid at len decodes chain) =
    elim (Option-cases (read_page faults now t.buffer_pool page_id)) [
      | inl panics ↦
          rw
            (
              next_panics faults now (record { tree = t; page_id = page_id }) valid panics,
              read_pages-none faults now page_id (pages_of chain) t.buffer_pool panics,
            )
            refl
      | inr ((got, p1), reads) ↦
          let (is, keeps) =
            read_page-Keeps faults now t.buffer_pool p1 page_id bytes got r s len
              (same page_id ∙ at) (omega arith) reads in
          let step =
            next_reads faults now (record { tree = t; page_id = page_id }) got p1 leaf valid reads
              (ap Leaf.decode is ∙ decodes) in
          let later =
            visit-Chain fuel faults now (record t { buffer_pool = p1 }) c leaf.next_page_id rest
              keeps.ready s (λ k. keeps.same k ∙ same k) (omega (arith, keeps.writes)) (omega arith)
              chain in
          rw
            (
              step,
              later,
              read_pages-some faults now page_id (pages_of chain) t.buffer_pool p1 got reads,
            )
            (elim (Option-cases (read_pages faults now (pages_of chain) p1)) [
              | inl none_read ↦ rw none_read refl
              | inr (q, all_read) ↦ rw all_read refl
            ])
    ]

-- Without faults and with the pool in order, `scan` of a key in a tree whose header page names a
-- root from which the key's path leads to a leaf that starts a chain, with fuel for each page of
-- the path, and a loop over the scan until it ends, read the header page, the pages of the path and
-- those of the chain, in their order, and nothing else, and the loop sees the leaves of the chain
-- in their order. They panic just if one of these reads does. If none does, the pool stays in order
-- and no page changes; if one does, then of a page for which there is no frame, or whose access the
-- replacer cannot record, or whose frame the replacer can no longer count as evictable.
pub scan-Chain :
    (fuel steps : ℕ) (faults : ℕ → Io) (now : ℕ) (t : BTree) (key : ℤ) (header : List ℕ)
    (n root leaf_id : ℕ) (leaf : LeafNode) (leaves : List LeafNode)
    → IsReady t.buffer_pool
    → ((m : ℕ) → Succeeds (faults m))
    → (disk_of t.buffer_pool).num_writes + fuel + steps + 1 < u64_size
    → n ≤ fuel
    → length leaves < steps
    → pages t t.header_page_id ≡ some header
    → length header ≡ page_size
    → get_root_page_id header ≡ some root
    → (l : Leads (pages t) key n root leaf leaf_id) → (chain : Chain (pages t) leaf_id leaves)
    → ((scan fuel faults now t key >>= visit steps faults now) ≡ (
        read_pages faults now (t.header_page_id ∷ path_of l ++ pages_of chain) t.buffer_pool
        >>= λ q.
            some
              (leaves, record { tree = record t { buffer_pool = q }; page_id = invalid_page_id })))
      × Row faults now (t.header_page_id ∷ path_of l ++ pages_of chain) t.buffer_pool
unfolding scan
scan-Chain fuel steps faults now t key header n root leaf_id leaf leaves r s counted enough long at
      len rooted l chain =
    let walks =
      find_leaf-path_of fuel faults now t key header n root leaf_id leaf r s (omega arith) enough at
        len rooted l in
    let whole =
      walk-Row faults now fuel t key header n root leaf_id leaf [] r s (omega arith) enough at len
        none_held l in
    let first =
      subst (λ row. Row faults now (t.header_page_id ∷ row) t.buffer_pool) (append-nil (path_of l))
        whole in
    let size = length-pages_of (pages t) leaf_id leaves chain in
    (
      rw
          (
            walks,
            read_pages-append faults now (t.header_page_id ∷ path_of l) (pages_of chain)
                t.buffer_pool,
          )
          (elim (Option-cases
            (read_pages faults now (t.header_page_id ∷ path_of l) t.buffer_pool)) [
              | inl none_read ↦ rw none_read refl
              | inr (q, all_read) ↦
                  let (ready, kept, writes) = first.reads q all_read in
                  rw all_read (
                    visit-Chain steps faults now (record t { buffer_pool = q }) (pages t) leaf_id
                      leaves ready s kept
                      (omega (arith, writes, length-path_of (pages t) key n root leaf_id leaf l))
                      long chain)
            ]),
      walk-Row faults now fuel t key header n root leaf_id leaf (pages_of chain) r s
          (omega (arith, size)) enough at len (pages_of-AllHeld (pages t) leaf_id leaves chain) l,
    )
