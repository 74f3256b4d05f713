-- ===== src/Tests/FourFrames.antt =====
-- A pool with a frame for every page, and a tree of one leaf on it.
use mathlib.Core.List.Perm
use buffer_pool.Base.{
  ℕ, zero, suc, ◌<◌, ◌≡◌, refl, sym, ap, ◌∙◌, inl, inr, true, false, none, some, List, [], ◌∷◌,
  arith, Option-cases, some_inj, length, get_elem?, drop, length-drop,
}
use buffer_pool.Common.{page_size, invalid_page_id}
use buffer_pool.Disk.{DiskManager}
use buffer_pool.Disk.Slots.{slots}
use buffer_pool.Disk.Slots
use buffer_pool.Disk.Contents.{contents_unknown}
use buffer_pool.Frame.{FrameHeader, zero_page, length-zero_page}
use buffer_pool.Arc.{ArcReplacer}
use buffer_pool.Pool.{BufferPoolManager, stack_of}
use buffer_pool.Pool.Loading.{content, content_resident, content_absent, IsReady}
use buffer_pool.Pool.Calm.{IsCalm}
use buffer_pool.Base.Assoc
use buffer_pool.BTree.Key.{pos}
use buffer_pool.BTree.Bytes.{slice, from_le_bytes}
use buffer_pool.BTree.Leaf.{LeafNode, decode, decode_entries}
use buffer_pool.BTree.Tree.{BTree, get_root_page_id}
use buffer_pool.BTree.Insert.Nodes.{LeafAt}
use buffer_pool.BTree.Insert.First.{one_entry}
use buffer_pool.Tests.Disk.{zeros}

-- A leaf with the key 7 alone, and no next leaf.
abbrev pub last_page : List ℕ
last_page =
    1
    ∷ 0
    ∷ 0
    ∷ 0
    ∷ 1
    ∷ 0
    ∷ 0
    ∷ 0
    ∷ 255
    ∷ 1
    ∷ 0
    ∷ 0
    ∷ 255
    ∷ 255
    ∷ 255
    ∷ 255
    ∷ 7
    ∷ 0
    ∷ 0
    ∷ 0
    ∷ 0
    ∷ 0
    ∷ 0
    ∷ 0
    ∷ 4
    ∷ 0
    ∷ 0
    ∷ 0
    ∷ 0
    ∷ 0
    ∷ 0
    ∷ 0
    ∷ drop 32 zero_page

abbrev pub last : LeafNode
last = one_entry (pos 7) 4 0

pub length-last_page : length last_page ≡ page_size
length-last_page = omega (arith, length-drop 32 zero_page, length-zero_page)

pub decode-last_page : decode last_page ≡ some last
unfolding decode decode_entries slice from_le_bytes
decode-last_page = refl

-- Page 1 is the root, and page 0 the header that names it; two frames are free.
abbrev pub root_page : List ℕ
root_page = 1 ∷ 0 ∷ 0 ∷ 0 ∷ drop 4 zero_page

pub length-root_page : length root_page ≡ page_size
length-root_page = omega (arith, length-drop 4 zero_page, length-zero_page)

pub names-root : get_root_page_id root_page ≡ some 1
unfolding get_root_page_id slice from_le_bytes
names-root = refl

abbrev blank : ℕ → List ℕ → FrameHeader
blank i bytes = record { frame_id = i; pin_count = 0; is_dirty = false; bytes = bytes }

abbrev no_disk : DiskManager
no_disk = record {
  db_file = zeros;
  page_capacity = 16;
  page_size = page_size;
  pages = [];
  num_writes = 0;
  num_deletes = 0;
  free_slots = [];
}

abbrev no_history : ArcReplacer
no_history = record {
  mru = [];
  mfu = [];
  timestamp_access = [];
  mru_ghost = [];
  mfu_ghost = [];
  mru_target_size = 0;
  replacer_size = 4;
  curr_size = 0;
  dirty_pages = [];
  evictable_pages = [];
}

abbrev pub four_with : List ℕ → BufferPoolManager
four_with page = record {
  num_frames = 4;
  next_page_id = 2;
  shared = record {
    frames = blank 0 zero_page ∷ blank 1 zero_page ∷ blank 2 page ∷ blank 3 last_page ∷ [];
    arc_replacer = no_history;
    disk_scheduler = record { disk_manager = no_disk; running = true; served = 0; replies = [] };
  };
  free_frames = 1 ∷ 0 ∷ [];
  page_table = (1, 3) ∷ (0, 2) ∷ [];
}

abbrev pub four : BufferPoolManager
four = four_with root_page

no_disk-IsValid : Slots.IsValid no_disk
unfolding slots
no_disk-IsValid = record { distinct = tt; owned = Perm.refl _; roomy = omega arith; sized = refl }

four_with-IsReady : (page : List ℕ) → length page ≡ page_size → IsReady (four_with page)
unfolding stack_of
four_with-IsReady page len = record {
  pool = record {
    distinct = (refl, (refl, tt));
    owned = Perm.refl _;
    frames = record { count = refl; placed = placed; whole = whole };
  };
  disk = no_disk-IsValid;
  running = refl;
}
  where
    placed :
        (i : ℕ) (f : FrameHeader)
        → get_elem? (four_with page).shared.frames i ≡ some f
        → f.frame_id ≡ i
    placed zero f e = ap (λ (g : FrameHeader). g.frame_id) (sym (some_inj e))
    placed (suc zero) f e = ap (λ (g : FrameHeader). g.frame_id) (sym (some_inj e))
    placed (suc (suc zero)) f e = ap (λ (g : FrameHeader). g.frame_id) (sym (some_inj e))
    placed (suc (suc (suc zero))) f e = ap (λ (g : FrameHeader). g.frame_id) (sym (some_inj e))
    placed (suc (suc (suc (suc i)))) f e = cc

    whole :
        (i : ℕ) (f : FrameHeader)
        → get_elem? (four_with page).shared.frames i ≡ some f
        → length f.bytes ≡ page_size
    whole zero f e = ap (λ (g : FrameHeader). length g.bytes) (sym (some_inj e)) ∙ length-zero_page
    whole (suc zero) f e =
        ap (λ (g : FrameHeader). length g.bytes) (sym (some_inj e)) ∙ length-zero_page
    whole (suc (suc zero)) f e = ap (λ (g : FrameHeader). length g.bytes) (sym (some_inj e)) ∙ len
    whole (suc (suc (suc zero))) f e =
        ap (λ (g : FrameHeader). length g.bytes) (sym (some_inj e)) ∙ length-last_page
    whole (suc (suc (suc (suc i)))) f e = cc

four-known : (k i : ℕ) → Assoc.get four.page_table k ≡ some i → k < 2
four-known zero i e = omega arith
four-known (suc zero) i e = omega arith
four-known (suc (suc k)) i e = ground (arith, e)

four-held :
    (page : List ℕ) (k : ℕ) (bytes : List ℕ) → content (four_with page) k ≡ some bytes → k < 2
four-held page k bytes e = elim (Option-cases (Assoc.get four.page_table k)) [
  | inr (i, there) ↦ four-known k i there
  | inl absent ↦
      let nothing : content (four_with page) k ≡ none =
        content_absent (four_with page) k absent ∙ contents_unknown no_disk k refl in
      cc (nothing, e)
]

pub four_with-IsCalm :
    (page : List ℕ)
    → length page ≡ page_size
    → IsCalm 20 (content (four_with page)) (four_with page)
four_with-IsCalm page len = record {
  ready = four_with-IsReady page len;
  same = λ k. refl;
  held = four-held page;
  known = four-known;
  count = refl;
  room = omega arith;
  few = omega arith;
  quiet = (refl, refl);
  drops = omega arith;
  writes = omega arith;
}

pub four-IsReady : IsReady four
four-IsReady = four_with-IsReady root_page length-root_page

pub four-IsCalm : IsCalm 20 (content four) four
four-IsCalm = four_with-IsCalm root_page length-root_page

pub leaf-content : (page : List ℕ) → content (four_with page) 1 ≡ some last_page
leaf-content page = content_resident (four_with page) 1 3 refl

pub page-content : (page : List ℕ) → content (four_with page) 0 ≡ some page
page-content page = content_resident (four_with page) 0 2 refl

pub root-content : content four 1 ≡ some last_page
root-content = leaf-content root_page

pub header-content : content four 0 ≡ some root_page
header-content = page-content root_page

-- The leaf may hold one entry, so that the next insert splits it.
abbrev pub tree : BTree
tree = record {
  header_page_id = 0;
  root_page_id = 1;
  buffer_pool = four;
  leaf_node_max_size = 1;
  internal_node_max_size = 681;
}

abbrev pub rootless : BTree
rootless = record tree { root_page_id = invalid_page_id }

pub last-LeafAt : (page : List ℕ) → LeafAt (content (four_with page)) 1 last
last-LeafAt page = record {
  bytes = last_page;
  holds = leaf-content page;
  full = length-last_page;
  kind = refl;
  decodes = decode-last_page;
  entries = ((omega arith, omega arith, omega arith), tt);
  link = omega arith;
}

pub root-LeafAt : LeafAt (content four) 1 last
root-LeafAt = last-LeafAt root_page
