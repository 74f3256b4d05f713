-- ===== src/BTree/Scan.antt =====
-- `Scan` of src/b_plus_tree.rs: the leaves from one leaf on, by the links between them.
pub mod Leaves
use buffer_pool.Base.{
  ℕ, zero, suc, ◌+◌, ◌-◌, ◌*◌, ◌/◌, ◌%◌, ◌^◌, ◌≤◌, ◌<◌, ◌≡◌, refl, sym, ap, ap₂, subst, ◌∙◌, ◌≢◌,
  ◌↔◌, ◌⊎◌, inl, inr, Bool, true, false, not, ◌&&◌, ◌||◌, Option, none, some, List, [], ◌∷◌, ◌++◌,
  map, Mem, Nodup, Perm, arith, dec_lt, dec_le, ℕ_discrete, ltb, leb, ◌==◌, if◌then◌else◌, ltb→lt,
  lt→ltb, leb→le, ==_iff, ==_self, Bool-cases, Option-cases, ◌>>=◌, ◌>>◌, require, List-cases,
  not-ltb, eq_of_==, ne_of_==, ==_of_ne, >>=-eq-some, some_inj, of_some, if_true, if_false, length,
  get_elem?, get_or, set, take, drop, replicate, remove_at, pop_back, retain, any, length-append,
  length-set, get_elem?-set_self, get_elem?-set_ne, length-take, length-drop, length-replicate,
  take-length, take_all, length-retain-le, length-remove_at, length-pop_back, contains, insert_set,
  remove_set, drop_all, length-map, append-take, get_elem?-take, get_elem?-drop,
  get_elem?-append_left, get_elem?-append_right, get_elem?-lt,
}
use buffer_pool.Common.{invalid_page_id}
use buffer_pool.Disk.FileIo.{Io}
use buffer_pool.BTree.Key.{ℤ}
use buffer_pool.BTree.Leaf.{LeafNode}
use buffer_pool.BTree.Leaf
use buffer_pool.BTree.Tree.{BTree, read_page, find_leaf}

-- `tree` is borrowed: what the scan does to it stays.
pub record Scan : Type 0 where
  pub tree : BTree
  pub page_id : ℕ

unfoldable pub next : (ℕ → Io) → ℕ → Scan → Option (Option LeafNode × Scan)
next faults now s = if s.page_id == invalid_page_id then some (none, s) else (do
  (bytes, p1) ← read_page faults now s.tree.buffer_pool s.page_id
  leaf ← Leaf.decode bytes
  some (
    some leaf,
    record { tree = record s.tree { buffer_pool = p1 }; page_id = leaf.next_page_id },
  ))

-- `scan` unwraps the leaf of the key; the fuel is that of `find_leaf`.
unfoldable pub scan : ℕ → (ℕ → Io) → ℕ → BTree → ℤ → Option Scan
scan fuel faults now t key = do
  (found, t') ← find_leaf fuel faults now t key
  leaf ← found
  some (record { tree = t'; page_id = leaf.1 })
