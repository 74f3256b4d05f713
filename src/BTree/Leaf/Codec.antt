-- ===== src/BTree/Leaf/Codec.antt =====
-- `encode` and `decode` of `LeafNode`: a round trip, and the size of a page.
use buffer_pool.Base.{
  ℕ, ◌+◌, ◌*◌, ◌%◌, ◌≤◌, ◌<◌, ◌≡◌, refl, ap, ap₂, ◌∙◌, some, List, [], ◌∷◌, arith, length,
  get_elem?,
}
use buffer_pool.Common.{u32_size}
use buffer_pool.BTree.Key.{ℤ, IsI64, to_bits, of_bits, of_bits-to_bits, to_bits-lt}
use buffer_pool.BTree.Bytes.{
  first_byte, slice-overwrite, le_bytes, from_le_bytes, slice, slice-le_bytes, write_field,
  overwrite-fits, slice-overwrite_before, from_le_bytes-le_bytes_u32, from_le_bytes-le_bytes_u64,
}
use buffer_pool.BTree.Leaf.{
  RecordId, LeafNode, header_size, default_leaf_node_max_size, decode, decode_entries, encode,
  encode_entry, encode_entries, encode_header,
}

-- The values are those of their machine types.
abbrev pub IsEntry : ℤ × RecordId → Type 0
IsEntry (key, rid) = IsI64 key × (rid.page_id < u32_size) × (rid.slot_num < u32_size)

abbrev pub AreEntries : List (ℤ × RecordId) → Type 0
AreEntries [] = Unit {0}
AreEntries (entry ∷ entries) = IsEntry entry × AreEntries entries

-- What one entry's bytes are after `encode_entry`.
record Written (bytes out : List ℕ) (off : ℕ) (key : ℤ) (rid : RecordId) : Type 0 where
  size : length out ≡ length bytes
  before : (o n : ℕ) → o + n ≤ off → slice out o n ≡ slice bytes o n
  key_at : slice out off 8 ≡ some (le_bytes 8 (to_bits key))
  page_at : slice out (off + 8) 4 ≡ some (le_bytes 4 rid.page_id)
  slot_at : slice out (off + 12) 4 ≡ some (le_bytes 4 rid.slot_num)

encode_entry-Written :
    (bytes : List ℕ) (off : ℕ) (key : ℤ) (rid : RecordId)
    → off + 16 ≤ length bytes
    → (out : List ℕ) × (encode_entry (key, rid) off bytes ≡ some out)
      × Written bytes out off key rid
unfolding encode_entry
encode_entry-Written bytes off key rid h =
    let (b1, e1, l1) = write_field bytes off 8 (to_bits key) (omega arith) in
    let (b2, e2, l2) = write_field b1 (off + 8) 4 rid.page_id (omega arith) in
    let (b3, e3, l3) = write_field b2 (off + 12) 4 rid.slot_num (omega arith) in
    let kept2 : (o n : ℕ) → o + n ≤ off + 8 → slice b2 o n ≡ slice b1 o n =
      λ o n h. slice-overwrite_before b1 (off + 8) o n (le_bytes 4 rid.page_id) b2 e2 h in
    let kept3 : (o n : ℕ) → o + n ≤ off + 12 → slice b3 o n ≡ slice b2 o n =
      λ o n h. slice-overwrite_before b2 (off + 12) o n (le_bytes 4 rid.slot_num) b3 e3 h in
    (
      b3,
      rw (e1, encode_entry) (rw e2 e3),
      record {
        size = l3 ∙ l2 ∙ l1;
        before = λ o n h.
            kept3 o n (omega arith)
            ∙ kept2 o n (omega arith)
            ∙ slice-overwrite_before bytes off o n (le_bytes 8 (to_bits key)) b1 e1 h;
        key_at =
            kept3 off 8 (omega arith)
            ∙ kept2 off 8 (omega arith)
            ∙ slice-le_bytes bytes b1 off 8 (to_bits key) e1;
        page_at = kept3 (off + 8) 4 (omega arith) ∙ slice-le_bytes b1 b2 (off + 8) 4 rid.page_id e2;
        slot_at = slice-le_bytes b2 b3 (off + 12) 4 rid.slot_num e3;
      },
    )

-- All entries, one after the other.
encode_entries-decode :
    (entries : List (ℤ × RecordId)) (off : ℕ) (bytes : List ℕ)
    → off + 16 * length entries ≤ length bytes
    → AreEntries entries
    → (out : List ℕ) × (encode_entries entries off bytes ≡ some out)
      × (length out ≡ length bytes)
      × ((o n : ℕ) → o + n ≤ off → slice out o n ≡ slice bytes o n)
      × (decode_entries (length entries) off out ≡ some entries)
unfolding encode_entries decode_entries
encode_entries-decode [] off bytes h are = (bytes, refl, refl, λ o n le. refl, refl)
encode_entries-decode ((key, rid) ∷ entries) off bytes h (is, are) =
    let (b, e, w) = encode_entry-Written bytes off key rid (omega arith) in
    let (out, writes, size, kept, reads) =
      encode_entries-decode entries (off + 16) b (omega (arith, w.size)) are in
    (
      out,
      rw (e, encode_entries) writes,
      size ∙ w.size,
      λ o n le. kept o n (omega arith) ∙ w.before o n le,
      rw
          (
            kept off 8 (omega arith) ∙ w.key_at,
            kept (off + 8) 4 (omega arith) ∙ w.page_at,
            kept (off + 12) 4 (omega arith) ∙ w.slot_at,
            reads,
          )
          (ap (λ x. some (x ∷ entries))
            (ap₂ (λ (k : ℤ) (r : RecordId). (k, r))
              (ap of_bits (from_le_bytes-le_bytes_u64 (to_bits key) (to_bits-lt key is.0))
                ∙ of_bits-to_bits key is.0)
              (ap₂ (λ p s. record { page_id = p; slot_num = s })
                (from_le_bytes-le_bytes_u32 rid.page_id is.1)
                (from_le_bytes-le_bytes_u32 rid.slot_num is.2)))),
    )

encode_header-fields :
    (node : LeafNode) (bytes : List ℕ)
    → header_size ≤ length bytes
    → (out : List ℕ) × (encode_header node bytes ≡ some out)
      × (length out ≡ length bytes)
      × (slice out 4 4 ≡ some (le_bytes 4 (length node.entries % u32_size)))
      × (slice out 12 4 ≡ some (le_bytes 4 node.next_page_id))
      × (slice out 0 1 ≡ some (1 ∷ []))
unfolding encode_header
encode_header-fields node bytes h =
    let size = length node.entries % u32_size in
    let (b0, e0, l0) = overwrite-fits bytes 0 (1 ∷ []) (omega arith) in
    let (b1, e1, l1) = write_field b0 4 4 size (omega arith) in
    let (b2, e2, l2) = write_field b1 8 4 default_leaf_node_max_size (omega arith) in
    let (b3, e3, l3) = write_field b2 12 4 node.next_page_id (omega arith) in
    (
      b3,
      rw (e0, encode_header) (rw e1 (rw e2 e3)),
      l3 ∙ l2 ∙ l1 ∙ l0,
      slice-overwrite_before b2 12 4 4 (le_bytes 4 node.next_page_id) b3 e3 (omega arith)
          ∙ slice-overwrite_before b1 8 4 4 (le_bytes 4 default_leaf_node_max_size) b2 e2
              (omega arith)
          ∙ slice-le_bytes b0 b1 4 4 size e1,
      slice-le_bytes b2 b3 12 4 node.next_page_id e3,
      slice-overwrite_before b2 12 0 1 (le_bytes 4 node.next_page_id) b3 e3 (omega arith)
          ∙ slice-overwrite_before b1 8 0 1 (le_bytes 4 default_leaf_node_max_size) b2 e2
              (omega arith)
          ∙ slice-overwrite_before b0 4 0 1 (le_bytes 4 size) b1 e1 (omega arith)
          ∙ slice-overwrite bytes 0 (1 ∷ []) b0 e0,
    )

-- A leaf whose entries fit the bytes is encoded without a panic, the bytes keep their length, their
-- first byte marks a leaf, and decoding them gives the leaf back, if its ids, slots and keys are
-- those of machine integers.
pub decode-encode_leaf :
    (node : LeafNode) (bytes : List ℕ)
    → header_size + 16 * length node.entries ≤ length bytes
    → length node.entries < u32_size
    → node.next_page_id < u32_size
    → AreEntries node.entries
    → (out : List ℕ) × (encode node bytes ≡ some out)
      × (length out ≡ length bytes)
      × (decode out ≡ some node)
      × (get_elem? out 0 ≡ some 1)
unfolding encode decode
decode-encode_leaf node bytes fits few next are =
    let (b, e, lb, size_at, next_at, kind_at) = encode_header-fields node bytes (omega arith) in
    let (out, writes, lo, kept, reads) =
      encode_entries-decode node.entries header_size b (omega (arith, lb)) are in
    let count : from_le_bytes (le_bytes 4 (length node.entries % u32_size)) ≡ length node.entries =
      from_le_bytes-le_bytes_u32 (length node.entries % u32_size) (omega arith) ∙ omega arith in
    (
      out,
      rw (e, encode) writes,
      lo ∙ lb,
      rw (kept 4 4 (omega arith) ∙ size_at, kept 12 4 (omega arith) ∙ next_at, count, reads)
          (ap (λ n. some (record { next_page_id = n; entries = node.entries }))
            (from_le_bytes-le_bytes_u32 node.next_page_id next)),
      first_byte out 1 (kept 0 1 (omega arith) ∙ kind_at),
    )
