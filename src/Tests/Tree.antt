-- ===== src/Tests/Tree.antt =====
-- The walk of src/b_plus_tree.rs on a pool of one frame, whose page is a leaf.
use buffer_pool.Base.{
  ℕ, zero, suc, ◌≡◌, refl, sym, ap, ◌∙◌, false, Option, some, List, [], ◌∷◌, arith, ◌>>=◌, some_inj,
  length, get_elem?, drop, length-drop,
}
use buffer_pool.Common.{page_size}
use buffer_pool.Frame.{FrameHeader, zero_page, length-zero_page}
use buffer_pool.Pool.{BufferPoolManager}
use buffer_pool.Pool.Loading.{content, content_resident, IsReady}
use buffer_pool.BTree.Key.{ℤ, pos}
use buffer_pool.BTree.Bytes.{slice, from_le_bytes}
use buffer_pool.BTree.Leaf.{LeafNode, RecordId, decode, decode_entries}
use mathlib.Core.List.Perm
use buffer_pool.Pool.{stack_of}
use buffer_pool.BTree.Sorted.{IsSorted}
use buffer_pool.BTree.Leaf.Search.{Finds}
use buffer_pool.BTree.Tree.Finding.{pages, find-Finds}
use buffer_pool.BTree.Tree.{BTree, find, get_root_page_id}
use buffer_pool.BTree.Tree.Walking.{Leads, at_leaf, path_of}
use buffer_pool.BTree.Tree.Rows.{read_pages, Row}
use buffer_pool.Tests.Disk.{no_faults-Succeeds, two_pages-IsValid}
use buffer_pool.Tests.Scheduler.{never}
use buffer_pool.Tests.Pool.{full, full-IsReady, used_frame}

-- A leaf with the key 7 alone.
abbrev leaf_page : List ℕ
leaf_page =
    1
    ∷ 0
    ∷ 0
    ∷ 0
    ∷ 1
    ∷ 0
    ∷ 0
    ∷ 0
    ∷ 255
    ∷ 1
    ∷ 0
    ∷ 0
    ∷ 0
    ∷ 0
    ∷ 0
    ∷ 0
    ∷ 7
    ∷ 0
    ∷ 0
    ∷ 0
    ∷ 0
    ∷ 0
    ∷ 0
    ∷ 0
    ∷ 4
    ∷ 0
    ∷ 0
    ∷ 0
    ∷ 0
    ∷ 0
    ∷ 0
    ∷ 0
    ∷ drop 32 zero_page

abbrev leaf : LeafNode
leaf = record { next_page_id = 0; entries = (pos 7, record { page_id = 4; slot_num = 0 }) ∷ [] }

length-leaf_page : length leaf_page ≡ page_size
length-leaf_page = omega (arith, length-drop 32 zero_page, length-zero_page)

decode-leaf_page : decode leaf_page ≡ some leaf
unfolding decode decode_entries slice from_le_bytes
decode-leaf_page = refl

abbrev leaf_frame : FrameHeader
leaf_frame = record used_frame { bytes = leaf_page }

abbrev tree_pool : BufferPoolManager
tree_pool = record full { shared = record full.shared { frames = leaf_frame ∷ [] } }

tree_pool-IsReady : IsReady tree_pool
tree_pool-IsReady = record {
  pool = record {
    distinct = full-IsReady.pool.distinct;
    owned = full-IsReady.pool.owned;
    frames = record { count = refl; placed = λ i f e. ground (arith, e); whole = whole };
  };
  disk = two_pages-IsValid;
  running = refl;
}
  where
    whole :
        (i : ℕ) (f : FrameHeader)
        → get_elem? (leaf_frame ∷ []) i ≡ some f
        → length f.bytes ≡ page_size
    whole zero f e = ap (λ (g : FrameHeader). length g.bytes) (sym (some_inj e)) ∙ length-leaf_page
    whole (suc i) f e = cc

nine-content : content tree_pool 9 ≡ some leaf_page
nine-content = content_resident tree_pool 9 0 refl

nine-Leads : Leads (content tree_pool) (pos 7) 1 9 leaf 9
nine-Leads = at_leaf leaf_page nine-content length-leaf_page refl decode-leaf_page

-- A pool of two frames: page 3 is the header, and names page 9 as the root.
abbrev header_page : List ℕ
header_page = 9 ∷ 0 ∷ 0 ∷ 0 ∷ drop 4 zero_page

length-header_page : length header_page ≡ page_size
length-header_page = omega (arith, length-drop 4 zero_page, length-zero_page)

abbrev header_frame : FrameHeader
header_frame = record { frame_id = 1; pin_count = 0; is_dirty = false; bytes = header_page }

abbrev two_frames : BufferPoolManager
two_frames = record full {
  num_frames = 2;
  shared = record full.shared { frames = leaf_frame ∷ header_frame ∷ [] };
  page_table = (3, 1) ∷ (9, 0) ∷ [];
}

two_frames-IsReady : IsReady two_frames
unfolding stack_of
two_frames-IsReady = record {
  pool = record {
    distinct = (refl, (refl, tt));
    owned = Perm.refl _;
    frames = record { count = refl; placed = λ i f e. ground (arith, e); whole = whole };
  };
  disk = two_pages-IsValid;
  running = refl;
}
  where
    whole :
        (i : ℕ) (f : FrameHeader)
        → get_elem? (leaf_frame ∷ header_frame ∷ []) i ≡ some f
        → length f.bytes ≡ page_size
    whole zero f e = ap (λ (g : FrameHeader). length g.bytes) (sym (some_inj e)) ∙ length-leaf_page
    whole (suc zero) f e =
        ap (λ (g : FrameHeader). length g.bytes) (sym (some_inj e)) ∙ length-header_page
    whole (suc (suc i)) f e = cc

abbrev tree : BTree
tree = record {
  header_page_id = 3;
  root_page_id = 9;
  buffer_pool = two_frames;
  leaf_node_max_size = 511;
  internal_node_max_size = 681;
}

tree-root : get_root_page_id header_page ≡ some 9
unfolding get_root_page_id slice from_le_bytes
tree-root = refl

tree-Leads : Leads (pages tree) (pos 7) 1 9 leaf 9
tree-Leads =
    at_leaf leaf_page (content_resident two_frames 9 0 refl) length-leaf_page refl decode-leaf_page

one-IsSorted : IsSorted leaf.entries
unfolding IsSorted
one-IsSorted zero zero a b lt ea eb = absurd (omega arith)
one-IsSorted zero (suc j) a b lt ea eb = cc
one-IsSorted (suc i) j a b lt ea eb = cc

find-Finds_example :
    (kv : Option (ℤ × RecordId)) × Finds leaf.entries (pos 7) kv
    × (find 3 never 100 tree (pos 7) ≡ (
        read_pages never 100 (3 ∷ path_of tree-Leads) two_frames >>= λ q.
        some (kv, record tree { buffer_pool = q })))
    × Row never 100 (3 ∷ path_of tree-Leads) two_frames
find-Finds_example =
    find-Finds 3 never 100 tree (pos 7) header_page 1 9 9 leaf two_frames-IsReady
      (λ n. no_faults-Succeeds) (omega arith) (omega arith) (content_resident two_frames 3 1 refl)
      length-header_page tree-root tree-Leads one-IsSorted
