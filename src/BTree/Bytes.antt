-- ===== src/BTree/Bytes.antt =====
-- The slices of bytes that src/b_plus_tree.rs reads and writes, and little-endian numbers in them.
use buffer_pool.Base.{
  ℕ, zero, suc, ◌+◌, ◌*◌, ◌/◌, ◌%◌, ◌≤◌, ◌<◌, ◌≡◌, refl, ap, subst, Option, none, some, List, [],
  ◌∷◌, arith, ◌>>=◌, >>=-eq-some, some_inj, length, get_elem?,
}
use buffer_pool.Common.{u32_size, u64_size}

-- `n.to_le_bytes()` at `w` bytes, and `from_le_bytes`.
unfoldable pub le_bytes : ℕ → ℕ → List ℕ
le_bytes zero n = []
le_bytes (suc w) n = n % 256 ∷ le_bytes w (n / 256)

unfoldable pub from_le_bytes : List ℕ → ℕ
from_le_bytes [] = 0
from_le_bytes (b ∷ bytes) = b + 256 * from_le_bytes bytes

-- `bytes[off .. off + n]`, which panics out of range.
unfoldable pub slice : List ℕ → ℕ → ℕ → Option (List ℕ)
slice bytes zero zero = some []
slice [] zero (suc n) = none
slice (b ∷ bytes) zero (suc n) = do rest ← slice bytes zero n; some (b ∷ rest)
slice [] (suc off) n = none
slice (b ∷ bytes) (suc off) n = slice bytes off n

-- `bytes[off .. off + src.len()].copy_from_slice(src)`.
unfoldable pub overwrite : List ℕ → ℕ → List ℕ → Option (List ℕ)
overwrite bytes zero [] = some bytes
overwrite [] zero (s ∷ src) = none
overwrite (b ∷ bytes) zero (s ∷ src) = do rest ← overwrite bytes zero src; some (s ∷ rest)
overwrite [] (suc off) src = none
overwrite (b ∷ bytes) (suc off) src = do rest ← overwrite bytes off src; some (b ∷ rest)

pub length-le_bytes : (w n : ℕ) → length (le_bytes w n) ≡ w
unfolding le_bytes
length-le_bytes zero n = refl
length-le_bytes (suc w) n = omega (arith, length-le_bytes w (n / 256))

pub from_le_bytes-le_bytes_u32 : (n : ℕ) → n < u32_size → from_le_bytes (le_bytes 4 n) ≡ n
unfolding from_le_bytes le_bytes
from_le_bytes-le_bytes_u32 n h = omega arith

pub from_le_bytes-le_bytes_u64 : (n : ℕ) → n < u64_size → from_le_bytes (le_bytes 8 n) ≡ n
unfolding from_le_bytes le_bytes
from_le_bytes-le_bytes_u64 n h = omega arith

-- A write that fits succeeds and keeps the length.
pub overwrite-fits :
    (bytes : List ℕ) (off : ℕ) (src : List ℕ)
    → off + length src ≤ length bytes
    → (out : List ℕ) × (overwrite bytes off src ≡ some out) × (length out ≡ length bytes)
unfolding overwrite
overwrite-fits bytes zero [] h = (bytes, refl, refl)
overwrite-fits [] zero (s ∷ src) h = absurd (omega arith)
overwrite-fits (b ∷ bytes) zero (s ∷ src) h =
    let (out, e, len) = overwrite-fits bytes zero src (omega arith) in
    (s ∷ out, rw e refl, omega (arith, len))
overwrite-fits [] (suc off) src h = absurd (omega arith)
overwrite-fits (b ∷ bytes) (suc off) src h =
    let (out, e, len) = overwrite-fits bytes off src (omega arith) in
    (b ∷ out, rw e refl, omega (arith, len))

-- What was written is read back.
pub slice-overwrite :
    (bytes : List ℕ) (off : ℕ) (src out : List ℕ)
    → overwrite bytes off src ≡ some out
    → slice out off (length src) ≡ some src
unfolding overwrite slice
slice-overwrite bytes zero [] out e = refl
slice-overwrite [] zero (s ∷ src) out e = cc
slice-overwrite (b ∷ bytes) zero (s ∷ src) out e =
    let (rest, e', made) = >>=-eq-some (overwrite bytes zero src) _ e in
    subst (λ o. slice o zero (suc (length src)) ≡ some (s ∷ src)) (some_inj made)
      (rw (slice-overwrite bytes zero src rest e') refl)
slice-overwrite [] (suc off) src out e = cc
slice-overwrite (b ∷ bytes) (suc off) src out e =
    let (rest, e', made) = >>=-eq-some (overwrite bytes off src) _ e in
    subst (λ o. slice o (suc off) (length src) ≡ some src) (some_inj made)
      (slice-overwrite bytes off src rest e')

-- A write leaves the slices before it as they were.
pub slice-overwrite_before :
    (bytes : List ℕ) (off o n : ℕ) (src out : List ℕ)
    → overwrite bytes off src ≡ some out
    → o + n ≤ off
    → slice out o n ≡ slice bytes o n
unfolding overwrite slice
slice-overwrite_before bytes off zero zero src out e h = refl
slice-overwrite_before bytes zero zero (suc n) src out e h = absurd (omega arith)
slice-overwrite_before bytes zero (suc o) n src out e h = absurd (omega arith)
slice-overwrite_before [] (suc off) o n src out e h = cc
slice-overwrite_before (b ∷ bytes) (suc off) zero (suc n) src out e h =
    let (rest, e', made) = >>=-eq-some (overwrite bytes off src) _ e in
    subst (λ l. slice l zero (suc n) ≡ slice (b ∷ bytes) zero (suc n)) (some_inj made)
      (ap (λ x. x >>= λ r. some (b ∷ r))
        (slice-overwrite_before bytes off zero n src rest e' (omega arith)))
slice-overwrite_before (b ∷ bytes) (suc off) (suc o) n src out e h =
    let (rest, e', made) = >>=-eq-some (overwrite bytes off src) _ e in
    subst (λ l. slice l (suc o) n ≡ slice (b ∷ bytes) (suc o) n) (some_inj made)
      (slice-overwrite_before bytes off o n src rest e' (omega arith))

-- A field that is written and then left alone is read back.
pub slice-le_bytes :
    (bytes out : List ℕ) (off w n : ℕ)
    → overwrite bytes off (le_bytes w n) ≡ some out
    → slice out off w ≡ some (le_bytes w n)
slice-le_bytes bytes out off w n e =
    subst (λ k. slice out off k ≡ some (le_bytes w n)) (length-le_bytes w n)
      (slice-overwrite bytes off (le_bytes w n) out e)

-- A field of `w` bytes that fits is written.
pub write_field :
    (bytes : List ℕ) (off w n : ℕ)
    → off + w ≤ length bytes
    → (out : List ℕ) × (overwrite bytes off (le_bytes w n) ≡ some out) × (length out ≡ length bytes)
write_field bytes off w n h =
    overwrite-fits bytes off (le_bytes w n) (omega (arith, length-le_bytes w n))

-- The first byte, which marks the kind of a node, is a slice of one byte.
pub first_byte :
    (bytes : List ℕ) (x : ℕ) → slice bytes 0 1 ≡ some (x ∷ []) → get_elem? bytes 0 ≡ some x
unfolding slice
first_byte [] x e = cc
first_byte (b ∷ bytes) x e = ap (λ l. get_elem? l 0) (some_inj e)
