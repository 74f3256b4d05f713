-- ===== src/BTree/Insert.antt =====
-- `BTree::insert` of src/b_plus_tree.rs.
--
-- The stack of path frames is a list whose head is the top. A frame's guard is dropped with the
-- frame; a stack that is cleared or goes out of scope drops its frames from the bottom up. `none`
-- is a panic, the end of the fuel, or a thread that waits for itself: two requests are made while a
-- page is locked for writing, and a request that is given the locked frame never returns.
pub mod Descent
pub mod Growth
pub mod Paging
pub mod First
pub mod Start
pub mod Nodes
pub mod TwoPages
pub mod Splitting
pub mod Rooting
pub mod Whole
pub mod Gathering
pub mod LeafRoot
pub mod Routes
pub mod Visiting
pub mod Descending
pub mod Arriving
pub mod Within
pub mod Reroutes
pub mod Gaining
pub mod Beside
pub mod Parents
pub mod Dividing
pub mod Finding
use buffer_pool.Base.{
  ℕ, zero, suc, ◌+◌, ◌-◌, ◌*◌, ◌/◌, ◌%◌, ◌^◌, ◌≤◌, ◌<◌, ◌≡◌, refl, sym, ap, ap₂, subst, ◌∙◌, ◌≢◌,
  ◌↔◌, ◌⊎◌, inl, inr, Bool, true, false, not, ◌&&◌, ◌||◌, Option, none, some, List, [], ◌∷◌, ◌++◌,
  map, Mem, Nodup, Perm, arith, dec_lt, dec_le, ℕ_discrete, ltb, leb, ◌==◌, if◌then◌else◌, ltb→lt,
  lt→ltb, leb→le, ==_iff, ==_self, Bool-cases, Option-cases, ◌>>=◌, ◌>>◌, require, List-cases,
  not-ltb, eq_of_==, ne_of_==, ==_of_ne, >>=-eq-some, some_inj, of_some, if_true, if_false, length,
  get_elem?, get_or, set, take, drop, replicate, remove_at, pop_back, retain, any, length-append,
  length-set, get_elem?-set_self, get_elem?-set_ne, length-take, length-drop, length-replicate,
  take-length, take_all, length-retain-le, length-remove_at, length-pop_back, contains, insert_set,
  remove_set, drop_all, length-map, append-take, get_elem?-take, get_elem?-drop,
  get_elem?-append_left, get_elem?-append_right, get_elem?-lt,
}
use buffer_pool.Common.{u64_size, invalid_page_id}
use buffer_pool.Disk.FileIo.{Io}
use buffer_pool.Guard.{Shared, WritePageGuard, data_mut, data_write, drop_write}
use buffer_pool.Pool.{BufferPoolManager, check_write_page, new_page}
use buffer_pool.BTree.Key.{ℤ}
use buffer_pool.BTree.Leaf.{LeafNode, RecordId}
use buffer_pool.BTree.Leaf
use buffer_pool.BTree.Internal.{InternalNode, find_child_index}
use buffer_pool.BTree.Internal
use buffer_pool.BTree.Nodes.{invalid_key, add_entry, split_leaf, add_child, split_internal}
use buffer_pool.BTree.Tree.{BTree, leaf_node, internal_node, read_page, set_root_page_id}

pub record PathFrame : Type 0 where
  pub slot_to_next_child : ℕ
  pub guard : WritePageGuard

unfoldable pub drop_guard : BufferPoolManager → WritePageGuard → Option BufferPoolManager
drop_guard p guard = do (_, s) ← drop_write p.shared guard; some (record p { shared = s })

unfoldable pub drop_path : BufferPoolManager → List PathFrame → Option BufferPoolManager
unfolding drop_guard
drop_path p [] = some p
drop_path p (frame ∷ path) = drop_path p path >>= λ p1. drop_guard p1 frame.guard

-- `data_mut`, and the bytes that it gives.
unfoldable pub borrow : BufferPoolManager → WritePageGuard → Option (List ℕ × BufferPoolManager)
borrow p guard = do
  s ← data_mut p.shared guard (λ bytes. bytes)
  bytes ← data_write s guard
  some (bytes, record p { shared = s })

-- What is written to the bytes that were borrowed.
unfoldable pub store : BufferPoolManager → WritePageGuard → List ℕ → Option BufferPoolManager
store p guard bytes = do s ← data_mut p.shared guard (λ _. bytes); some (record p { shared = s })

module _ (faults : ℕ → Io) (now : ℕ) where
  -- `check_write_page`, unwrapped.
  unfoldable pub open_page : BufferPoolManager → ℕ → Option (WritePageGuard × BufferPoolManager)
  open_page p page_id = do
    (checked, p1) ← check_write_page faults now p page_id
    guard ← checked
    some (guard, p1)

  -- A page is changed by a guard that is then dropped.
  unfoldable pub rewrite_page :
      BufferPoolManager → ℕ → (List ℕ → Option (List ℕ)) → Option BufferPoolManager
  unfolding open_page borrow store drop_guard
  rewrite_page p page_id edit = do
    (guard, p1) ← open_page p page_id
    (bytes, p2) ← borrow p1 guard
    out ← edit bytes
    p3 ← store p2 guard out
    drop_guard p3 guard

  -- The first insert makes the root, a leaf of one entry.
  unfoldable pub first_insert : BTree → ℤ → ℕ → ℕ → Option BTree
  unfolding rewrite_page
  first_insert t key page_id slot_num = do
    (root_page_id, p1) ← new_page faults t.buffer_pool
    p2 ←
        rewrite_page p1 t.header_page_id
          (set_root_page_id (record t { root_page_id = root_page_id }))
    p3 ← rewrite_page p2 root_page_id (
        Leaf.encode (record {
          next_page_id = invalid_page_id;
          entries = (key, record { page_id = page_id; slot_num = slot_num }) ∷ [];
        }))
    some (record t { root_page_id = root_page_id; buffer_pool = p3 })
