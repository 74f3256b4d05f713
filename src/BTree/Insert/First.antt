-- ===== src/BTree/Insert/First.antt =====
-- The first insert, which makes the root.
use buffer_pool.Base.{
  ℕ, suc, ◌+◌, ◌≤◌, ◌<◌, ◌≡◌, refl, sym, ap, subst, ◌∙◌, inl, inr, true, false, Option, some, List,
  [], ◌∷◌, arith, ◌==◌, if◌then◌else◌, ==_self, Bool-cases, ==_of_ne, if_true, if_false, length,
  get_elem?,
}
use buffer_pool.Common.{page_size, u32_size, invalid_page_id}
use buffer_pool.Disk.FileIo.{Io}
use buffer_pool.Disk.Slots.{Succeeds}
use buffer_pool.Frame.{zero_page, length-zero_page}
use buffer_pool.Pool.Calm.{put, IsCalm, IsCalm-same}
use buffer_pool.Pool.Calm.Steps.{new_page-IsCalm}
use buffer_pool.BTree.Key.{ℤ}
use buffer_pool.BTree.Bytes.{write_field, slice-le_bytes, from_le_bytes-le_bytes_u32}
use buffer_pool.BTree.Leaf.{LeafNode, RecordId}
use buffer_pool.BTree.Leaf
use buffer_pool.BTree.Leaf.Codec.{IsEntry, decode-encode_leaf}
use buffer_pool.BTree.Tree.{BTree, leaf_node, get_root_page_id, set_root_page_id}
use buffer_pool.BTree.Insert.{first_insert}
use buffer_pool.BTree.Insert.Growth.{insert}
use buffer_pool.BTree.Insert.Paging.{rewrite_page-IsCalm}

-- The header page names the root that was set.
pub get-set_root_page_id :
    (t : BTree) (bytes : List ℕ)
    → 4 ≤ length bytes
    → t.root_page_id < u32_size
    → (out : List ℕ) × (set_root_page_id t bytes ≡ some out)
      × (length out ≡ length bytes)
      × (get_root_page_id out ≡ some t.root_page_id)
unfolding set_root_page_id get_root_page_id
get-set_root_page_id t bytes long small =
    let (out, writes, len) = write_field bytes 0 4 t.root_page_id (omega arith) in
    (
      out,
      writes,
      len,
      rw (slice-le_bytes bytes out 0 4 t.root_page_id writes)
          (ap some (from_le_bytes-le_bytes_u32 t.root_page_id small)),
    )

-- Two pages that are put on in either order.
pub put_swap :
    (c : ℕ → Option (List ℕ)) (a b : ℕ) (x y z : List ℕ)
    → (a == b) ≡ false
    → (k : ℕ) → put (put (put c a x) b y) a z k ≡ put (put c b y) a z k
put_swap c a b x y z apart k = elim (Bool-cases (a == k)) [
  | inl here ↦ if_true _ _ here ∙ sym (if_true _ _ here)
  | inr other ↦
      if_false _ _ other
      ∙ ap (λ o. if b == k then some y else o) (if_false _ _ other)
      ∙ sym (if_false _ _ other)
]

-- The leaf that the first insert writes.
abbrev pub one_entry : ℤ → ℕ → ℕ → LeafNode
one_entry key page_id slot_num = record {
  next_page_id = invalid_page_id;
  entries = (key, record { page_id = page_id; slot_num = slot_num }) ∷ [];
}

starts :
    (faults : ℕ → Io) (now fuel : ℕ) (t : BTree) (key : ℤ) (page_id slot_num : ℕ)
    → t.root_page_id ≡ invalid_page_id
    → insert faults now fuel t key page_id slot_num ≡ first_insert faults now t key page_id slot_num
unfolding insert
starts faults now fuel t key page_id slot_num none_yet =
    let first : (t.root_page_id == invalid_page_id) ≡ true =
      subst (λ n. (n == invalid_page_id) ≡ true) (sym none_yet) refl in
    if_true _ _ first

-- Without faults, an insert into a tree without a root, on a calm pool that has a frame left and
-- holds the header page, succeeds: the next page becomes the root and holds a leaf with the entry
-- alone, the header page names it, every other page holds what it held, and the pool stays calm.
pub insert-first :
    (fuel : ℕ) (faults : ℕ → Io) (now : ℕ) (t : BTree) (key : ℤ) (page_id slot_num budget : ℕ)
    (c : ℕ → Option (List ℕ)) (header : List ℕ)
    → ((n : ℕ) → Succeeds (faults n))
    → t.root_page_id ≡ invalid_page_id
    → IsCalm (budget + 3) c t.buffer_pool
    → t.buffer_pool.next_page_id + 1 ≤ t.buffer_pool.num_frames
    → c t.header_page_id ≡ some header
    → length header ≡ page_size
    → IsEntry (key, record { page_id = page_id; slot_num = slot_num })
    → (t' : BTree) × (root : List ℕ) × (header' : List ℕ) × (insert faults now fuel t key page_id
          slot_num
        ≡ some t')
      × (t'.root_page_id ≡ t.buffer_pool.next_page_id)
      × (t'.header_page_id ≡ t.header_page_id)
      × (get_root_page_id header' ≡ some t'.root_page_id)
      × (length header' ≡ page_size)
      × (get_elem? root 0 ≡ some leaf_node)
      × (length root ≡ page_size)
      × (Leaf.decode root ≡ some (one_entry key page_id slot_num))
      × IsCalm budget (put (put c t.header_page_id header') t'.root_page_id root) t'.buffer_pool
unfolding first_insert
insert-first fuel faults now t key page_id slot_num budget c header s none_yet calm left holds len
      entry =
    let p = t.buffer_pool in
    let root_id = p.next_page_id in
    let t1 : BTree = record t { root_page_id = root_id } in
    let three : IsCalm (suc (suc (suc budget))) c p =
      subst (λ n. IsCalm n c p) (omega arith) calm in
    let (p1, makes, calm1, stays1, next1, frames1) =
      new_page-IsCalm faults s (suc (suc budget)) c p three left in
    let made = calm.held t.header_page_id header holds in
    let apart : (root_id == t.header_page_id) ≡ false =
      ==_of_ne root_id t.header_page_id λ same. absurd (omega arith) in
    let (header', sets, len', gets) =
      get-set_root_page_id t1 header (omega arith) (omega (arith, calm.few)) in
    let (p2, rewrites2, calm2, grows2) =
      rewrite_page-IsCalm faults s now (suc budget) (put c root_id zero_page) p1 t.header_page_id
        header (if_false _ _ apart ∙ holds) len calm1 (set_root_page_id t1) header' sets
        (len' ∙ len) in
    let leaf = one_entry key page_id slot_num in
    let (root, encodes, len2, decodes, kind) =
      decode-encode_leaf leaf zero_page (omega (arith, length-zero_page)) (omega arith)
        (omega arith) (entry, tt) in
    let c2 = put (put c root_id zero_page) t.header_page_id header' in
    let there : c2 root_id ≡ some zero_page =
      if_false _ _ (==_of_ne t.header_page_id root_id λ same. absurd (omega arith))
      ∙ if_true _ _ (==_self root_id) in
    let (p3, rewrites3, calm3, grows3) =
      rewrite_page-IsCalm faults s now budget c2 p2 root_id zero_page there length-zero_page calm2
        (Leaf.encode leaf) root encodes (len2 ∙ length-zero_page) in
    (
      record t { root_page_id = root_id; buffer_pool = p3 },
      root,
      header',
      starts faults now fuel t key page_id slot_num none_yet
          ∙ rw (makes, first_insert) (rw rewrites2 (rw rewrites3 refl)),
      refl,
      refl,
      gets,
      len' ∙ len,
      kind,
      len2 ∙ length-zero_page,
      decodes,
      IsCalm-same budget (put c2 root_id root) (put (put c t.header_page_id header') root_id root)
          p3 (put_swap c root_id t.header_page_id zero_page header' root apart) calm3,
    )
