-- ===== src/Tests/Insert.antt =====
-- `BTree::insert` and `BTree::scan` of src/b_plus_tree.rs on a pool with a frame for every page.
use buffer_pool.Base.{ℕ, zero, suc, ◌≡◌, refl, Option, some, List, [], ◌∷◌, ◌++◌, arith, ◌>>=◌}
use buffer_pool.Common.{invalid_page_id}
use buffer_pool.Pool.{BufferPoolManager}
use buffer_pool.Pool.Loading.{content}
use buffer_pool.Pool.Calm.{IsCalm}
use buffer_pool.BTree.Key.{ℤ, pos}
use buffer_pool.BTree.Leaf.{RecordId}
use buffer_pool.BTree.Leaf.Search.{Finds}
use buffer_pool.BTree.Sorted.{IsSorted}
use buffer_pool.BTree.Tree.{BTree, leaf_node, get_root_page_id, find}
use buffer_pool.BTree.Tree
use buffer_pool.BTree.Tree.Walking.{Leads, path_of}
use buffer_pool.BTree.Tree.Rows.{read_pages, Row}
use buffer_pool.BTree.Tree.Finding.{pages}
use buffer_pool.BTree.Scan.{scan}
use buffer_pool.BTree.Scan.Leaves.{Chain, ends_here, linked, pages_of, visit, scan-Chain}
use buffer_pool.BTree.Insert.Growth.{insert}
use buffer_pool.BTree.Insert.Finding.{find-IsCalm}
use buffer_pool.BTree.Insert.Start.{find-insert-new}
use buffer_pool.BTree.Insert.Splitting.{SplitsLeaf, split_leaf_page-LeafSplit}
use buffer_pool.BTree.Insert.Whole.{Inserted, leaf-Leads}
use buffer_pool.BTree.Insert.LeafRoot.{insert-leaf_root}
use buffer_pool.Tests.FourFrames.{
  last_page, last, root_page, four, tree, length-last_page, decode-last_page, length-root_page,
  names-root, four-IsReady, four-IsCalm, root-content, header-content, root-LeafAt,
}
use buffer_pool.Tests.Disk.{no_faults, no_faults-Succeeds, zeros}
use buffer_pool.Tests.Scheduler.{never}

insert-leaf_root_example :
    (t' : BTree) × (d : ℕ → Option (List ℕ)) × (insert never 100 3 tree (pos 9) 5 0 ≡ some t')
    × Inserted d tree t' last (pos 9) 5 0
    × IsCalm 13 d t'.buffer_pool
insert-leaf_root_example =
    insert-leaf_root 3 never 100 tree (pos 9) 5 0 13 (content four) last root_page
      (λ n. no_faults-Succeeds) four-IsCalm (omega arith) header-content length-root_page names-root
      (λ e. absurd (omega arith)) root-LeafAt (omega arith, omega arith, omega arith) (omega arith)
      (omega arith)

split_leaf_page-LeafSplit_example : SplitsLeaf never 100 four (pos 9) 5 0 1 17 (content four) last
split_leaf_page-LeafSplit_example =
    split_leaf_page-LeafSplit never 100 four (pos 9) 5 0 1 17 (content four) last
      (λ n. no_faults-Succeeds) four-IsCalm (omega arith) root-LeafAt
      (omega arith, omega arith, omega arith) (omega arith)

last-IsSorted : IsSorted last.entries
unfolding IsSorted
last-IsSorted zero zero a b lt ea eb = absurd (omega arith)
last-IsSorted zero (suc j) a b lt ea eb = cc
last-IsSorted (suc i) j a b lt ea eb = cc

find-IsCalm_example :
    (kv : Option (ℤ × RecordId)) × (p : BufferPoolManager) × (find 3 never 100 tree (pos 7)
      ≡ some (kv, record tree { buffer_pool = p }))
    × Finds last.entries (pos 7) kv
    × IsCalm 16 (content four) p
find-IsCalm_example =
    find-IsCalm 3 never 100 tree (pos 7) 16 (content four) root_page 1 1 1 last
      (λ n. no_faults-Succeeds) four-IsCalm (omega arith) header-content length-root_page names-root
      (leaf-Leads (content four) (pos 7) 1 last root-LeafAt) last-IsSorted

find-insert-new_example :
    (t t' : BTree) × (kv : Option (ℤ × RecordId)) × (p : BufferPoolManager) × (Tree.new never
        no_faults
        (some zeros)
      ≡ some t)
    × (insert never 100 1 t (pos 9) 5 0 ≡ some t')
    × (find 1 never 100 t' (pos 9) ≡ some (kv, record t' { buffer_pool = p }))
    × Finds ((pos 9, record { page_id = 5; slot_num = 0 }) ∷ []) (pos 9) kv
find-insert-new_example =
    find-insert-new 1 never no_faults 100 zeros (pos 9) (pos 9) 5 0 (λ n. no_faults-Succeeds)
      no_faults-Succeeds (omega arith, omega arith, omega arith) (omega arith) (omega arith)

tree-Leads : Leads (pages tree) (pos 7) 1 1 last 1
tree-Leads = leaf-Leads (content four) (pos 7) 1 last root-LeafAt

tree-Chain : Chain (pages tree) 1 (last ∷ [])
tree-Chain = linked last_page refl root-content length-last_page decode-last_page ends_here

scan-Chain_example :
    ((scan 3 never 100 tree (pos 7) >>= visit 2 never 100) ≡ (
      read_pages never 100 (0 ∷ path_of tree-Leads ++ pages_of tree-Chain) four >>= λ q.
      some
        (last ∷ [], record { tree = record tree { buffer_pool = q }; page_id = invalid_page_id })))
    × Row never 100 (0 ∷ path_of tree-Leads ++ pages_of tree-Chain) four
scan-Chain_example =
    scan-Chain 3 2 never 100 tree (pos 7) root_page 1 1 1 last (last ∷ []) four-IsReady
      (λ n. no_faults-Succeeds) (omega arith) (omega arith) (omega arith) header-content
      length-root_page names-root tree-Leads tree-Chain
