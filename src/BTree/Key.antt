-- ===== src/BTree/Key.antt =====
-- `type Key = i64` of src/b_plus_tree.rs, with its order and its 64 bits in two's complement.
use buffer_pool.Base.{
  ℕ, ◌-◌, ◌<◌, ◌≡◌, refl, ap, Bool, true, false, arith, ltb, leb, ◌==◌, if◌then◌else◌, lt→ltb,
  ==_self, not-ltb, eq_of_==,
}
use buffer_pool.Common.{u64_size}

-- `negsuc n` is -(n + 1).
pub data ℤ : Type 0 where
  pos negsuc : ℕ → ℤ

abbrev pub i64_half : ℕ
i64_half = 9223372036854775808

abbrev pub IsI64 : ℤ → Type 0
IsI64 (pos n) = n < i64_half
IsI64 (negsuc n) = n < i64_half

-- `a <= b` and `a == b`.
abbrev pub key_le : ℤ → ℤ → Bool
key_le (pos a) (pos b) = leb a b
key_le (pos a) (negsuc b) = false
key_le (negsuc a) (pos b) = true
key_le (negsuc a) (negsuc b) = leb b a

abbrev pub key_eq : ℤ → ℤ → Bool
key_eq (pos a) (pos b) = a == b
key_eq (pos a) (negsuc b) = false
key_eq (negsuc a) (pos b) = false
key_eq (negsuc a) (negsuc b) = a == b

-- The number whose bytes `to_le_bytes` gives, and back.
abbrev pub to_bits : ℤ → ℕ
to_bits (pos n) = n
to_bits (negsuc n) = u64_size - 1 - n

abbrev pub of_bits : ℕ → ℤ
of_bits u = if ltb u i64_half then pos u else negsuc (u64_size - 1 - u)

pub of_bits-to_bits : (k : ℤ) → IsI64 k → of_bits (to_bits k) ≡ k
of_bits-to_bits (pos n) h = rw (lt→ltb n i64_half h) refl
of_bits-to_bits (negsuc n) h =
    rw (not-ltb (u64_size - 1 - n) i64_half (omega arith)) (ap negsuc (omega arith))

pub to_bits-lt : (k : ℤ) → IsI64 k → to_bits k < u64_size
to_bits-lt (pos n) h = omega arith
to_bits-lt (negsuc n) h = omega arith

pub key_le_trans : (a b c : ℤ) → key_le a b ≡ true → key_le b c ≡ true → key_le a c ≡ true
key_le_trans (pos a) (pos b) (pos c) h k = ground arith
key_le_trans (pos a) (pos b) (negsuc c) h k = cc
key_le_trans (pos a) (negsuc b) c h k = cc
key_le_trans (negsuc a) b (pos c) h k = refl
key_le_trans (negsuc a) (pos b) (negsuc c) h k = cc
key_le_trans (negsuc a) (negsuc b) (negsuc c) h k = ground arith

pub key_le_refl : (a : ℤ) → key_le a a ≡ true
key_le_refl (pos a) = ground arith
key_le_refl (negsuc a) = ground arith

-- Of two keys that are in order both ways, neither is less.
pub key_eq-antisym : (a b : ℤ) → key_le a b ≡ true → key_le b a ≡ true → key_eq a b ≡ true
key_eq-antisym (pos a) (pos b) h k = ground arith
key_eq-antisym (pos a) (negsuc b) h k = cc
key_eq-antisym (negsuc a) (pos b) h k = cc
key_eq-antisym (negsuc a) (negsuc b) h k = ground arith

pub eq_of_key_eq : (a b : ℤ) → key_eq a b ≡ true → a ≡ b
eq_of_key_eq (pos a) (pos b) h = ap pos (eq_of_== a b h)
eq_of_key_eq (pos a) (negsuc b) h = cc
eq_of_key_eq (negsuc a) (pos b) h = cc
eq_of_key_eq (negsuc a) (negsuc b) h = ap negsuc (eq_of_== a b h)

pub key_eq_self : (a : ℤ) → key_eq a a ≡ true
key_eq_self (pos a) = ==_self a
key_eq_self (negsuc a) = ==_self a
