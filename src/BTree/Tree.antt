-- ===== src/BTree/Tree.antt =====
-- `BTree` of src/b_plus_tree.rs on the pages of a pool: the header page, and the walk to a leaf.
--
-- A guard is dropped at the end of the block that makes it, here after the page's bytes are read,
-- since nothing between the two touches the pool.
pub mod Reading
pub mod Rows
pub mod Walking
pub mod Finding
use buffer_pool.Base.{
  ℕ, zero, suc, ◌+◌, ◌-◌, ◌*◌, ◌/◌, ◌%◌, ◌^◌, ◌≤◌, ◌<◌, ◌≡◌, refl, sym, ap, ap₂, subst, ◌∙◌, ◌≢◌,
  ◌↔◌, ◌⊎◌, inl, inr, Bool, true, false, not, ◌&&◌, ◌||◌, Option, none, some, List, [], ◌∷◌, ◌++◌,
  map, Mem, Nodup, Perm, arith, dec_lt, dec_le, ℕ_discrete, ltb, leb, ◌==◌, if◌then◌else◌, ltb→lt,
  lt→ltb, leb→le, ==_iff, ==_self, Bool-cases, Option-cases, ◌>>=◌, ◌>>◌, require, List-cases,
  not-ltb, eq_of_==, ne_of_==, ==_of_ne, >>=-eq-some, some_inj, of_some, if_true, if_false, length,
  get_elem?, get_or, set, take, drop, replicate, remove_at, pop_back, retain, any, length-append,
  length-set, get_elem?-set_self, get_elem?-set_ne, length-take, length-drop, length-replicate,
  take-length, take_all, length-retain-le, length-remove_at, length-pop_back, contains, insert_set,
  remove_set, drop_all, length-map,
}
use buffer_pool.Common.{invalid_page_id}
use buffer_pool.Disk.FileIo.{Io, File}
use buffer_pool.Disk
use buffer_pool.Guard.{Shared, data_read, drop_read}
use buffer_pool.Pool.{BufferPoolManager, check_read_page, new_page}
use buffer_pool.Pool
use buffer_pool.BTree.Key.{ℤ}
use buffer_pool.BTree.Bytes.{slice, overwrite, le_bytes, from_le_bytes}
use buffer_pool.BTree.Leaf.{LeafNode, RecordId, find_kv, default_leaf_node_max_size}
use buffer_pool.BTree.Leaf
use buffer_pool.BTree.Internal.{InternalNode, find_child_index, default_internal_node_max_size}
use buffer_pool.BTree.Internal

pub record BTree : Type 0 where
  pub header_page_id : ℕ
  pub root_page_id : ℕ
  pub buffer_pool : BufferPoolManager
  pub leaf_node_max_size : ℕ
  pub internal_node_max_size : ℕ

abbrev pub leaf_node : ℕ
leaf_node = 1

abbrev pub internal_node : ℕ
internal_node = 0

unfoldable pub get_root_page_id : List ℕ → Option ℕ
get_root_page_id bytes = do field ← slice bytes 0 4; some (from_le_bytes field)

unfoldable pub set_root_page_id : BTree → List ℕ → Option (List ℕ)
set_root_page_id t bytes = overwrite bytes 0 (le_bytes 4 t.root_page_id)

-- The bytes of a page, by a read guard that is then dropped.
unfoldable pub read_page :
    (ℕ → Io) → ℕ → BufferPoolManager → ℕ → Option (List ℕ × BufferPoolManager)
read_page faults now p page_id = do
  (checked, p1) ← check_read_page faults now p page_id
  guard ← checked
  bytes ← data_read p1.shared guard
  (_, s) ← drop_read p1.shared guard
  some (bytes, record p1 { shared = s })

-- One round of the loop of `find_leaf`, after the page is read: it ends with a leaf, or goes on
-- with a child, or ends without a leaf at a page that is no node.
pub data Round : Type 0 where
  ends : Option (LeafNode × ℕ) → Round
  goes : ℕ → Round

unfoldable pub find_leaf_round : ℤ → ℕ → List ℕ → Option Round
find_leaf_round key page_id bytes = do
  node_type ← get_elem? bytes 0
  if node_type == leaf_node
      then (do leaf ← Leaf.decode bytes; some (ends (some (leaf, page_id))))
      else if node_type == internal_node
      then (do
        internal ← Internal.decode bytes
        slot_to_next_child ← find_child_index internal key
        entry ← get_elem? internal.entries slot_to_next_child
        some (goes entry.1))
      else some (ends none)

-- `none` is the end of the fuel or a panic.
unfoldable pub find_leaf_loop :
    ℕ
    → (ℕ → Io)
    → ℕ
    → BufferPoolManager
    → ℤ
    → ℕ
    → Option (Option (LeafNode × ℕ) × BufferPoolManager)
find_leaf_loop zero faults now p key page_id = none
find_leaf_loop (suc fuel) faults now p key page_id = do
  (bytes, p1) ← read_page faults now p page_id
  round ← find_leaf_round key page_id bytes
  elim round [
    | ends leaf ↦ some (leaf, p1)
    | goes child ↦ find_leaf_loop fuel faults now p1 key child
  ]

unfoldable pub find_leaf : ℕ → (ℕ → Io) → ℕ → BTree → ℤ → Option (Option (LeafNode × ℕ) × BTree)
find_leaf fuel faults now t key = do
  (header, p1) ← read_page faults now t.buffer_pool t.header_page_id
  root ← get_root_page_id header
  (leaf, p2) ← find_leaf_loop fuel faults now p1 key root
  some (leaf, record t { buffer_pool = p2 })

unfoldable pub find : ℕ → (ℕ → Io) → ℕ → BTree → ℤ → Option (Option (ℤ × RecordId) × BTree)
find fuel faults now t key = do
  (leaf, t') ← find_leaf fuel faults now t key
  elim leaf [
    | none ↦ some (none, t')
    | some (node, page_id) ↦ do kv ← find_kv node key; some (kv, t')
  ]

-- `main.db` is opened outside of the tree: `opened` is the file, or the failure. The pool has ten
-- frames.
unfoldable pub new : (ℕ → Io) → Io → Option File → Option BTree
new faults io opened = do
  disk_manager ← Disk.new io opened
  (header_page_id, p) ← new_page faults (Pool.new 10 disk_manager)
  some (record {
    header_page_id = header_page_id;
    root_page_id = invalid_page_id;
    buffer_pool = p;
    leaf_node_max_size = default_leaf_node_max_size;
    internal_node_max_size = default_internal_node_max_size;
  })

unfoldable pub set_leaf_max_size : BTree → ℕ → BTree
set_leaf_max_size t leaf_node_max_size = record t { leaf_node_max_size = leaf_node_max_size }

unfoldable pub set_internal_max_size : BTree → ℕ → BTree
set_internal_max_size t internal_node_max_size = record t {
  internal_node_max_size = internal_node_max_size;
}
