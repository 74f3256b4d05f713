-- ===== src/BTree/Insert/Start.antt =====
-- `BTree::new`, and what follows it.
use buffer_pool.Base.{
  ℕ, zero, suc, ◌+◌, ◌≤◌, ◌<◌, ◌≡◌, refl, ap, ◌∙◌, Option, none, some, List, [], ◌∷◌, arith,
  ==_self, ==_of_ne, if_true, if_false, length,
}
use buffer_pool.Common.{u32_size, invalid_page_id}
use buffer_pool.Disk.FileIo.{Io, File}
use buffer_pool.Disk.{DiskManager}
use buffer_pool.Disk.Slots.{Succeeds, IsValid}
use buffer_pool.Disk.Contents.{contents, contents-new}
use buffer_pool.Frame.{zero_page, length-zero_page}
use buffer_pool.Arc
use buffer_pool.Scheduler
use buffer_pool.Pool.{BufferPoolManager, stack_of, new_page}
use buffer_pool.Pool
use buffer_pool.Pool.Creating.{new-IsReady}
use buffer_pool.Pool.Calm.{put, IsCalm, IsCalm-le}
use buffer_pool.Pool.Calm.Steps.{new_page-IsCalm}
use buffer_pool.BTree.Key.{ℤ}
use buffer_pool.BTree.Leaf.{RecordId, default_leaf_node_max_size}
use buffer_pool.BTree.Internal.{default_internal_node_max_size}
use buffer_pool.BTree.Leaf.Codec.{IsEntry}
use buffer_pool.BTree.Leaf.Search.{Finds}
use buffer_pool.BTree.Sorted.{IsSorted}
use buffer_pool.BTree.Tree.{BTree, find}
use buffer_pool.BTree.Tree
use buffer_pool.BTree.Tree.Walking.{Leads, at_leaf}
use buffer_pool.BTree.Insert.Growth.{insert}
use buffer_pool.BTree.Insert.First.{one_entry, insert-first}
use buffer_pool.BTree.Insert.Finding.{find-IsCalm}

-- No page holds anything.
abbrev pub no_pages : ℕ → Option (List ℕ)
no_pages k = none

length-stack_of : (n : ℕ) → length (stack_of n) ≡ n
unfolding stack_of
length-stack_of zero = refl
length-stack_of (suc n) = ap suc (length-stack_of n)

-- A new pool on a new disk.
empty-IsCalm :
    (num_frames budget : ℕ) (d : DiskManager)
    → IsValid d
    → ((k : ℕ) → contents d k ≡ none)
    → d.num_writes ≡ 0
    → num_frames < u32_size
    → budget < u32_size
    → IsCalm budget no_pages (Pool.new num_frames d)
unfolding Pool.new Scheduler.new Arc.new
empty-IsCalm num_frames budget d valid empty unwritten few small =
    let (ready, free, holds) = new-IsReady num_frames d valid in
    record {
      ready = ready;
      same = λ k. holds k ∙ empty k;
      held = λ k b e. cc;
      known = λ k i e. cc;
      count = omega (arith, length-stack_of num_frames);
      room = omega arith;
      few = few;
      quiet = (refl, refl);
      drops = omega (arith, small);
      writes = omega (arith, unwritten);
    }

-- Without faults, `BTree::new` on a file that opens gives a tree without a root, whose header is
-- page 0, on a calm pool of ten frames that holds that page alone.
pub new-IsCalm :
    (faults : ℕ → Io) (io : Io) (f : File) (budget : ℕ)
    → ((n : ℕ) → Succeeds (faults n))
    → Succeeds io
    → budget + 1 < u32_size
    → (p : BufferPoolManager) × (Tree.new faults io (some f)
        ≡ some (record {
          header_page_id = 0;
          root_page_id = invalid_page_id;
          buffer_pool = p;
          leaf_node_max_size = default_leaf_node_max_size;
          internal_node_max_size = default_internal_node_max_size;
        }))
      × IsCalm budget (put no_pages 0 zero_page) p
      × (p.next_page_id ≡ 1)
      × (p.num_frames ≡ 10)
unfolding Tree.new Pool.new
new-IsCalm faults io f budget s opens small =
    let (d, opened, valid, empty, unwritten) = contents-new io f opens in
    let (p, makes, calm, _, next, frames) =
      new_page-IsCalm faults s budget no_pages (Pool.new 10 d)
        (empty-IsCalm 10 (suc budget) d valid empty unwritten (omega arith) (omega arith))
        (omega arith) in
    (p, rw (opened, Tree.new) (rw makes refl), calm, next, frames)

one-IsSorted : {V : Type 0} (e : ℤ × V) → IsSorted (e ∷ [])
unfolding IsSorted
one-IsSorted e zero zero a b lt ea eb = absurd (omega arith)
one-IsSorted e zero (suc j) a b lt ea eb = cc
one-IsSorted e (suc i) j a b lt ea eb = cc

-- Without faults, a tree on a new file takes an entry, and a lookup of any key then returns: that
-- entry, if the key is its key, and else nothing. The lookup has fuel for a page.
pub find-insert-new :
    (fuel : ℕ) (faults : ℕ → Io) (io : Io) (now : ℕ) (f : File) (key sought : ℤ)
    (page_id slot_num : ℕ)
    → ((n : ℕ) → Succeeds (faults n))
    → Succeeds io
    → IsEntry (key, record { page_id = page_id; slot_num = slot_num })
    → 1 ≤ fuel
    → fuel + 10 < u32_size
    → (t t' : BTree) × (kv : Option (ℤ × RecordId)) × (p : BufferPoolManager) × (Tree.new faults io
          (some f)
        ≡ some t)
      × (insert faults now fuel t key page_id slot_num ≡ some t')
      × (find fuel faults now t' sought ≡ some (kv, record t' { buffer_pool = p }))
      × Finds ((key, record { page_id = page_id; slot_num = slot_num }) ∷ []) sought kv
find-insert-new fuel faults io now f key sought page_id slot_num s opens entry some_fuel small =
    let (p0, opened, calm0, next0, frames0) =
      new-IsCalm faults io f (fuel + 4) s opens (omega arith) in
    let t : BTree = record {
      header_page_id = 0;
      root_page_id = invalid_page_id;
      buffer_pool = p0;
      leaf_node_max_size = default_leaf_node_max_size;
      internal_node_max_size = default_internal_node_max_size;
    } in
    let c0 = put no_pages 0 zero_page in
    let (t', root, header, inserts, at, same, names, long, kind, full, decodes, calm1) =
      insert-first fuel faults now t key page_id slot_num (fuel + 1) c0 zero_page s refl
        (IsCalm-le (fuel + 1 + 3) (fuel + 4) c0 p0 (omega arith) calm0)
        (omega (arith, next0, frames0)) refl length-zero_page entry in
    let c1 = put (put c0 0 header) t'.root_page_id root in
    let root_at : c1 t'.root_page_id ≡ some root = if_true _ _ (==_self t'.root_page_id) in
    let header_at : c1 t'.header_page_id ≡ some header =
      ap c1 same
      ∙ if_false _ _ (==_of_ne t'.root_page_id 0 λ e. absurd (omega (arith, at, next0))) in
    let leads : Leads c1 sought 1 t'.root_page_id (one_entry key page_id slot_num) t'.root_page_id =
      at_leaf root root_at full kind decodes in
    let (kv, p, found, finds, _) =
      find-IsCalm fuel faults now t' sought 0 c1 header 1 t'.root_page_id t'.root_page_id
        (one_entry key page_id slot_num) s
        (IsCalm-le (0 + fuel + 1) (fuel + 1) c1 t'.buffer_pool (omega arith) calm1) some_fuel
        header_at long names leads (one-IsSorted _) in
    (t, t', kv, p, opened, inserts, found, finds)
