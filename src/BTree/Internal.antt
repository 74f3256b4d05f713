-- ===== src/BTree/Internal.antt =====
-- `InternalNode` of src/b_plus_tree.rs. `none` is a panic: a slice or an index out of range.
pub mod Codec
pub mod Search
use buffer_pool.Base.{
  ℕ, zero, suc, ◌+◌, ◌-◌, ◌*◌, ◌/◌, ◌%◌, ◌^◌, ◌≤◌, ◌<◌, ◌≡◌, refl, sym, ap, ap₂, subst, ◌∙◌, ◌≢◌,
  ◌↔◌, ◌⊎◌, inl, inr, Bool, true, false, not, ◌&&◌, ◌||◌, Option, none, some, List, [], ◌∷◌, ◌++◌,
  map, Mem, Nodup, Perm, arith, dec_lt, dec_le, ℕ_discrete, ltb, leb, ◌==◌, if◌then◌else◌, ltb→lt,
  lt→ltb, leb→le, ==_iff, ==_self, Bool-cases, Option-cases, ◌>>=◌, ◌>>◌, require, List-cases,
  not-ltb, eq_of_==, ne_of_==, ==_of_ne, >>=-eq-some, some_inj, of_some, if_true, if_false, length,
  get_elem?, get_or, set, take, drop, replicate, remove_at, pop_back, retain, any, length-append,
  length-set, get_elem?-set_self, get_elem?-set_ne, length-take, length-drop, length-replicate,
  take-length, take_all, length-retain-le, length-remove_at, length-pop_back, contains, insert_set,
  remove_set, drop_all, length-map,
}
use buffer_pool.Common.{u32_size}
use buffer_pool.BTree.Key.{ℤ, key_le, to_bits, of_bits}
use buffer_pool.BTree.Bytes.{le_bytes, from_le_bytes, slice, overwrite}
use buffer_pool.BTree.Leaf.{header_size}

abbrev pub default_internal_node_max_size : ℕ
default_internal_node_max_size = 681

pub record InternalNode : Type 0 where
  pub entries : List (ℤ × ℕ)

-- The loop of `decode`, with `n` entries to go.
unfoldable pub decode_entries : ℕ → ℕ → List ℕ → Option (List (ℤ × ℕ))
decode_entries zero off bytes = some []
decode_entries (suc n) off bytes = do
  key ← slice bytes off 8
  pid ← slice bytes (off + 8) 4
  rest ← decode_entries n (off + 12) bytes
  some ((of_bits (from_le_bytes key), from_le_bytes pid) ∷ rest)

unfoldable pub decode : List ℕ → Option InternalNode
decode bytes = do
  current_size ← slice bytes 4 4
  entries ← decode_entries (from_le_bytes current_size) header_size bytes
  some (record { entries = entries })

pub encode_entry : ℤ × ℕ → ℕ → List ℕ → Option (List ℕ)
encode_entry (key, pid) off bytes = do
  bytes ← overwrite bytes off (le_bytes 8 (to_bits key))
  overwrite bytes (off + 8) (le_bytes 4 pid)

-- The loop of `encode`.
pub encode_entries : List (ℤ × ℕ) → ℕ → List ℕ → Option (List ℕ)
encode_entries [] off bytes = some bytes
encode_entries (entry ∷ entries) off bytes =
    encode_entry entry off bytes >>= encode_entries entries (off + 12)

-- `encode` before its loop. The length is cut to 32 bits.
pub encode_header : InternalNode → List ℕ → Option (List ℕ)
encode_header node bytes = do
  bytes ← overwrite bytes 0 (0 ∷ [])
  bytes ← overwrite bytes 4 (le_bytes 4 (length node.entries % u32_size))
  overwrite bytes 8 (le_bytes 4 default_internal_node_max_size)

pub encode : InternalNode → List ℕ → Option (List ℕ)
encode node bytes = encode_header node bytes >>= encode_entries node.entries header_size

-- The loop of `find_child_index`, on fuel: `none` is the end of the fuel or a panic.
pub child_loop : ℕ → List (ℤ × ℕ) → ℤ → ℕ → ℕ → Option ℕ
child_loop zero entries key low high = none
child_loop (suc fuel) entries key low high =
    let mid = low + (high - low) / 2 in
    if ltb low high
    then (do
      entry ← get_elem? entries mid
      let smaller = key_le entry.0 key
      child_loop fuel entries key (if smaller then mid + 1 else low)
          (if smaller then high else mid))
    else some low

-- `low - 1` panics at 0.
pub find_child_index : InternalNode → ℤ → Option ℕ
find_child_index node key = do
  low ← child_loop (length node.entries + 1) node.entries key 0 (length node.entries)
  if leb 1 low then some (low - 1) else none
