-- ===== src/BTree/Internal/Codec.antt =====
-- `encode` and `decode` of `InternalNode`: a round trip.
use buffer_pool.Base.{
  ℕ, ◌+◌, ◌*◌, ◌%◌, ◌≤◌, ◌<◌, ◌≡◌, refl, ap, ap₂, ◌∙◌, some, List, [], ◌∷◌, arith, length,
  get_elem?,
}
use buffer_pool.Common.{u32_size}
use buffer_pool.BTree.Key.{ℤ, IsI64, to_bits, of_bits, of_bits-to_bits, to_bits-lt}
use buffer_pool.BTree.Bytes.{
  first_byte, slice-overwrite, le_bytes, from_le_bytes, slice, slice-le_bytes, write_field,
  overwrite-fits, slice-overwrite_before, from_le_bytes-le_bytes_u32, from_le_bytes-le_bytes_u64,
}
use buffer_pool.BTree.Leaf.{header_size}
use buffer_pool.BTree.Internal.{
  InternalNode, default_internal_node_max_size, decode, decode_entries, encode, encode_entry,
  encode_entries, encode_header,
}

-- The values are those of their machine types.
abbrev pub AreChildren : List (ℤ × ℕ) → Type 0
AreChildren [] = Unit {0}
AreChildren ((key, pid) ∷ entries) = IsI64 key × (pid < u32_size) × AreChildren entries

-- What one entry's bytes are after `encode_entry`.
record Written (bytes out : List ℕ) (off : ℕ) (key : ℤ) (pid : ℕ) : Type 0 where
  size : length out ≡ length bytes
  before : (o n : ℕ) → o + n ≤ off → slice out o n ≡ slice bytes o n
  key_at : slice out off 8 ≡ some (le_bytes 8 (to_bits key))
  page_at : slice out (off + 8) 4 ≡ some (le_bytes 4 pid)

encode_entry-Written :
    (bytes : List ℕ) (off : ℕ) (key : ℤ) (pid : ℕ)
    → off + 12 ≤ length bytes
    → (out : List ℕ) × (encode_entry (key, pid) off bytes ≡ some out)
      × Written bytes out off key pid
unfolding encode_entry
encode_entry-Written bytes off key pid h =
    let (b1, e1, l1) = write_field bytes off 8 (to_bits key) (omega arith) in
    let (b2, e2, l2) = write_field b1 (off + 8) 4 pid (omega arith) in
    let kept2 : (o n : ℕ) → o + n ≤ off + 8 → slice b2 o n ≡ slice b1 o n =
      λ o n h. slice-overwrite_before b1 (off + 8) o n (le_bytes 4 pid) b2 e2 h in
    (
      b2,
      rw (e1, encode_entry) e2,
      record {
        size = l2 ∙ l1;
        before = λ o n h.
            kept2 o n (omega arith)
            ∙ slice-overwrite_before bytes off o n (le_bytes 8 (to_bits key)) b1 e1 h;
        key_at = kept2 off 8 (omega arith) ∙ slice-le_bytes bytes b1 off 8 (to_bits key) e1;
        page_at = slice-le_bytes b1 b2 (off + 8) 4 pid e2;
      },
    )

-- All entries, one after the other.
encode_entries-decode :
    (entries : List (ℤ × ℕ)) (off : ℕ) (bytes : List ℕ)
    → off + 12 * length entries ≤ length bytes
    → AreChildren entries
    → (out : List ℕ) × (encode_entries entries off bytes ≡ some out)
      × (length out ≡ length bytes)
      × ((o n : ℕ) → o + n ≤ off → slice out o n ≡ slice bytes o n)
      × (decode_entries (length entries) off out ≡ some entries)
unfolding encode_entries decode_entries
encode_entries-decode [] off bytes h are = (bytes, refl, refl, λ o n le. refl, refl)
encode_entries-decode ((key, pid) ∷ entries) off bytes h (is, small, are) =
    let (b, e, w) = encode_entry-Written bytes off key pid (omega arith) in
    let (out, writes, size, kept, reads) =
      encode_entries-decode entries (off + 12) b (omega (arith, w.size)) are in
    (
      out,
      rw (e, encode_entries) writes,
      size ∙ w.size,
      λ o n le. kept o n (omega arith) ∙ w.before o n le,
      rw (kept off 8 (omega arith) ∙ w.key_at, kept (off + 8) 4 (omega arith) ∙ w.page_at, reads)
          (ap (λ x. some (x ∷ entries))
            (ap₂ (λ (k : ℤ) (p : ℕ). (k, p))
              (ap of_bits (from_le_bytes-le_bytes_u64 (to_bits key) (to_bits-lt key is))
                ∙ of_bits-to_bits key is)
              (from_le_bytes-le_bytes_u32 pid small))),
    )

encode_header-size :
    (node : InternalNode) (bytes : List ℕ)
    → header_size ≤ length bytes
    → (out : List ℕ) × (encode_header node bytes ≡ some out)
      × (length out ≡ length bytes)
      × (slice out 4 4 ≡ some (le_bytes 4 (length node.entries % u32_size)))
      × (slice out 0 1 ≡ some (0 ∷ []))
unfolding encode_header
encode_header-size node bytes h =
    let size = length node.entries % u32_size in
    let (b0, e0, l0) = overwrite-fits bytes 0 (0 ∷ []) (omega arith) in
    let (b1, e1, l1) = write_field b0 4 4 size (omega arith) in
    let (b2, e2, l2) = write_field b1 8 4 default_internal_node_max_size (omega arith) in
    (
      b2,
      rw (e0, encode_header) (rw e1 e2),
      l2 ∙ l1 ∙ l0,
      slice-overwrite_before b1 8 4 4 (le_bytes 4 default_internal_node_max_size) b2 e2
            (omega arith)
          ∙ slice-le_bytes b0 b1 4 4 size e1,
      slice-overwrite_before b1 8 0 1 (le_bytes 4 default_internal_node_max_size) b2 e2
            (omega arith)
          ∙ slice-overwrite_before b0 4 0 1 (le_bytes 4 size) b1 e1 (omega arith)
          ∙ slice-overwrite bytes 0 (0 ∷ []) b0 e0,
    )

-- An internal node whose entries fit the bytes is encoded without a panic, the bytes keep their
-- length, the first byte marks an internal node, and decoding them gives the node back, if its ids
-- and keys are those of machine integers.
pub decode-encode_internal :
    (node : InternalNode) (bytes : List ℕ)
    → header_size + 12 * length node.entries ≤ length bytes
    → length node.entries < u32_size
    → AreChildren node.entries
    → (out : List ℕ) × (encode node bytes ≡ some out)
      × (length out ≡ length bytes)
      × (decode out ≡ some node)
      × (get_elem? out 0 ≡ some 0)
unfolding encode decode
decode-encode_internal node bytes fits few are =
    let (b, e, lb, size_at, kind_at) = encode_header-size node bytes (omega arith) in
    let (out, writes, lo, kept, reads) =
      encode_entries-decode node.entries header_size b (omega (arith, lb)) are in
    let count : from_le_bytes (le_bytes 4 (length node.entries % u32_size)) ≡ length node.entries =
      from_le_bytes-le_bytes_u32 (length node.entries % u32_size) (omega arith) ∙ omega arith in
    (
      out,
      rw (e, encode) writes,
      lo ∙ lb,
      rw (kept 4 4 (omega arith) ∙ size_at, count, reads) refl,
      first_byte out 0 (kept 0 1 (omega arith) ∙ kind_at),
    )
