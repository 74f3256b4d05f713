-- ===== src/BTree/Leaf.antt =====
-- `LeafNode` of src/b_plus_tree.rs. `none` is a panic: a slice or an index out of range.
pub mod Codec
pub mod Search
use buffer_pool.Base.{
  ℕ, zero, suc, ◌+◌, ◌-◌, ◌*◌, ◌/◌, ◌%◌, ◌^◌, ◌≤◌, ◌<◌, ◌≡◌, refl, sym, ap, ap₂, subst, ◌∙◌, ◌≢◌,
  ◌↔◌, ◌⊎◌, inl, inr, Bool, true, false, not, ◌&&◌, ◌||◌, Option, none, some, List, [], ◌∷◌, ◌++◌,
  map, Mem, Nodup, Perm, arith, dec_lt, dec_le, ℕ_discrete, ltb, leb, ◌==◌, if◌then◌else◌, ltb→lt,
  lt→ltb, leb→le, ==_iff, ==_self, Bool-cases, Option-cases, ◌>>=◌, ◌>>◌, require, List-cases,
  not-ltb, eq_of_==, ne_of_==, ==_of_ne, >>=-eq-some, some_inj, of_some, if_true, if_false, length,
  get_elem?, get_or, set, take, drop, replicate, remove_at, pop_back, retain, any, length-append,
  length-set, get_elem?-set_self, get_elem?-set_ne, length-take, length-drop, length-replicate,
  take-length, take_all, length-retain-le, length-remove_at, length-pop_back, contains, insert_set,
  remove_set, drop_all, length-map,
}
use buffer_pool.Common.{u32_size}
use buffer_pool.BTree.Key.{ℤ, key_le, key_eq, to_bits, of_bits}
use buffer_pool.BTree.Bytes.{le_bytes, from_le_bytes, slice, overwrite}

abbrev pub default_leaf_node_max_size : ℕ
default_leaf_node_max_size = 511

abbrev pub header_size : ℕ
header_size = 16

pub record RecordId : Type 0 where
  pub page_id : ℕ
  pub slot_num : ℕ

pub record LeafNode : Type 0 where
  pub next_page_id : ℕ
  pub entries : List (ℤ × RecordId)

-- The loop of `decode`, with `n` entries to go.
unfoldable pub decode_entries : ℕ → ℕ → List ℕ → Option (List (ℤ × RecordId))
decode_entries zero off bytes = some []
decode_entries (suc n) off bytes = do
  key ← slice bytes off 8
  page_id ← slice bytes (off + 8) 4
  slot_num ← slice bytes (off + 12) 4
  rest ← decode_entries n (off + 16) bytes
  some (
      (
        of_bits (from_le_bytes key),
        record { page_id = from_le_bytes page_id; slot_num = from_le_bytes slot_num },
      )
      ∷ rest)

unfoldable pub decode : List ℕ → Option LeafNode
decode bytes = do
  current_size ← slice bytes 4 4
  next_page_id ← slice bytes 12 4
  entries ← decode_entries (from_le_bytes current_size) header_size bytes
  some (record { next_page_id = from_le_bytes next_page_id; entries = entries })

pub encode_entry : ℤ × RecordId → ℕ → List ℕ → Option (List ℕ)
encode_entry (key, rid) off bytes = do
  bytes ← overwrite bytes off (le_bytes 8 (to_bits key))
  bytes ← overwrite bytes (off + 8) (le_bytes 4 rid.page_id)
  overwrite bytes (off + 12) (le_bytes 4 rid.slot_num)

-- The loop of `encode`.
pub encode_entries : List (ℤ × RecordId) → ℕ → List ℕ → Option (List ℕ)
encode_entries [] off bytes = some bytes
encode_entries (entry ∷ entries) off bytes =
    encode_entry entry off bytes >>= encode_entries entries (off + 16)

-- `encode` before its loop. The length is cut to 32 bits.
pub encode_header : LeafNode → List ℕ → Option (List ℕ)
encode_header node bytes = do
  bytes ← overwrite bytes 0 (1 ∷ [])
  bytes ← overwrite bytes 4 (le_bytes 4 (length node.entries % u32_size))
  bytes ← overwrite bytes 8 (le_bytes 4 default_leaf_node_max_size)
  overwrite bytes 12 (le_bytes 4 node.next_page_id)

pub encode : LeafNode → List ℕ → Option (List ℕ)
encode node bytes = encode_header node bytes >>= encode_entries node.entries header_size

-- The loop of `find_kv`, on fuel: `none` is the end of the fuel or a panic. Both bounds are
-- updated before the test for the key.
pub kv_loop : ℕ → List (ℤ × RecordId) → ℤ → ℕ → ℕ → Option (Option (ℤ × RecordId))
kv_loop zero entries key low high = none
kv_loop (suc fuel) entries key low high =
    let mid = low + (high - low) / 2 in
    if ltb low high
    then (do
      entry ← get_elem? entries mid
      let smaller = key_le entry.0 key
      let rest =
          kv_loop fuel entries key (if smaller then mid + 1 else low)
            (if smaller then high else mid)
      if key_eq entry.0 key then some (some entry) else rest)
    else some none

pub find_kv : LeafNode → ℤ → Option (Option (ℤ × RecordId))
find_kv node key = kv_loop (length node.entries + 1) node.entries key 0 (length node.entries)
