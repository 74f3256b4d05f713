-- ===== src/BTree/Insert/Finding.antt =====
-- The search of a tree on a calm pool, which never panics.
use buffer_pool.Base.{ℕ, zero, suc, ◌+◌, ◌≤◌, ◌≡◌, refl, Option, some, List, arith, length}
use buffer_pool.Common.{page_size}
use buffer_pool.Disk.FileIo.{Io}
use buffer_pool.Disk.Slots.{Succeeds}
use buffer_pool.Pool.{BufferPoolManager}
use buffer_pool.Pool.Calm.{IsCalm, IsCalm-le, Grows, Grows-trans}
use buffer_pool.BTree.Key.{ℤ}
use buffer_pool.BTree.Sorted.{IsSorted}
use buffer_pool.BTree.Leaf.{LeafNode, RecordId}
use buffer_pool.BTree.Leaf.Search.{Finds, find_kv-Finds}
use buffer_pool.BTree.Tree.{BTree, get_root_page_id, find_leaf_loop, find_leaf, find}
use buffer_pool.BTree.Tree.Walking.{
  Leads, at_leaf, through, find_child_index_unique, round-leaf, round-internal,
}
use buffer_pool.BTree.Insert.Paging.{read_page-IsCalm}

module _ (faults : ℕ → Io) (s : (n : ℕ) → Succeeds (faults n)) (now : ℕ) (c : ℕ → Option (List ℕ))
    (key : ℤ) where
  find_leaf_loop-IsCalm :
      (fuel budget : ℕ) (p : BufferPoolManager) (n page_id leaf_id : ℕ) (leaf : LeafNode)
      → IsCalm (budget + fuel) c p
      → n ≤ fuel
      → Leads c key n page_id leaf leaf_id
      → (p' : BufferPoolManager) × (find_leaf_loop fuel faults now p key page_id
          ≡ some (some (leaf, leaf_id), p'))
        × IsCalm budget c p'
        × Grows p p'
  unfolding find_leaf_loop
  find_leaf_loop-IsCalm zero budget p n page_id leaf_id leaf calm enough (at_leaf b h l k d) =
      absurd (omega arith)
  find_leaf_loop-IsCalm zero budget p n page_id leaf_id leaf calm enough
        (through b node i k child h l kind d st at le above rest) =
      absurd (omega arith)
  find_leaf_loop-IsCalm (suc fuel) budget p n page_id leaf_id leaf calm enough
        (at_leaf bytes holds len kind decodes) =
      let (p', reads, calm', grows) =
        read_page-IsCalm faults s now budget c p page_id bytes holds len
          (IsCalm-le (suc budget) (budget + suc fuel) c p (omega arith) calm) in
      (
        p',
        rw (reads, find_leaf_loop) (rw (round-leaf key page_id bytes leaf kind decodes) refl),
        calm',
        grows,
      )
  find_leaf_loop-IsCalm (suc fuel) budget p n page_id leaf_id leaf calm enough
        (through {n = m} bytes node i k child holds len kind decodes st at le above rest) =
      let (p1, reads, calm1, grows1) =
        read_page-IsCalm faults s now (budget + fuel) c p page_id bytes holds len
          (IsCalm-le (suc (budget + fuel)) (budget + suc fuel) c p (omega arith) calm) in
      let round =
        round-internal key k page_id i child bytes node kind decodes
          (find_child_index_unique node key k i child st at le above) at in
      let (p', finds, calm', grows) =
        find_leaf_loop-IsCalm fuel budget p1 m child leaf_id leaf calm1 (omega arith) rest in
      (p', rw (reads, find_leaf_loop) (rw round finds), calm', Grows-trans p p1 p' grows1 grows)

-- Without faults, a lookup on a calm pool, in a tree whose header page names a root from which the
-- key's path leads to a sorted leaf, with fuel for each page of the path, returns: an entry of that
-- leaf with the key, and nothing only if the leaf has none. It changes no page, and the pool stays
-- calm.
pub find-IsCalm :
    (fuel : ℕ) (faults : ℕ → Io) (now : ℕ) (t : BTree) (key : ℤ) (budget : ℕ)
    (c : ℕ → Option (List ℕ)) (header : List ℕ) (n root leaf_id : ℕ) (leaf : LeafNode)
    → ((m : ℕ) → Succeeds (faults m))
    → IsCalm (budget + fuel + 1) c t.buffer_pool
    → n ≤ fuel
    → c t.header_page_id ≡ some header
    → length header ≡ page_size
    → get_root_page_id header ≡ some root
    → Leads c key n root leaf leaf_id
    → IsSorted leaf.entries
    → (kv : Option (ℤ × RecordId)) × (p : BufferPoolManager) × (find fuel faults now t key
        ≡ some (kv, record t { buffer_pool = p }))
      × Finds leaf.entries key kv
      × IsCalm budget c p
unfolding find find_leaf
find-IsCalm fuel faults now t key budget c header n root leaf_id leaf s calm enough at len rooted
      leads sorted =
    let (p1, reads, calm1, grows1) =
      read_page-IsCalm faults s now (budget + fuel) c t.buffer_pool t.header_page_id header at len
        (IsCalm-le (suc (budget + fuel)) (budget + fuel + 1) c t.buffer_pool (omega arith) calm) in
    let (p2, walks, calm2, grows2) =
      find_leaf_loop-IsCalm faults s now c key fuel budget p1 n root leaf_id leaf calm1 enough
        leads in
    let (kv, searched, finds) = find_kv-Finds leaf key sorted in
    (kv, p2, rw (reads, find) (rw rooted (rw walks (rw searched refl))), finds, calm2)
