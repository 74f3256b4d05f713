-- ===== src/Disk/FileIo.antt =====
-- What src/disk_manager.rs uses of `std::fs::File`, and the faults that a call may meet.
use buffer_pool.Base.{
  ℕ, zero, suc, ◌+◌, ◌-◌, ◌≤◌, ◌<◌, ◌≡◌, refl, ◌⊎◌, Bool, List, [], ◌∷◌, arith, ◌&&◌, leb, ltb,
  if◌then◌else◌, get_or, length,
}

-- A byte behind the end counts as 0, so that growing a file fills it with zeros.
pub record File : Type 0 where
  pub len : ℕ
  pub byte : ℕ → ℕ

-- Cutting a file forgets the bytes behind the new end.
unfoldable pub set_len : File → ℕ → File
set_len f n = record {
  len = n;
  byte = λ i. if ltb i n then (if ltb i f.len then f.byte i else 0) else 0;
}

-- Writing past the end makes the file longer.
unfoldable pub write_at : File → ℕ → List ℕ → File
write_at f off bytes = record {
  len = if ltb f.len (off + length bytes) then off + length bytes else f.len;
  byte = λ i.
      if leb off i && ltb i (off + length bytes)
      then get_or bytes (i - off) 0
      else if ltb i f.len
      then f.byte i
      else 0;
}

-- The `n` bytes from `off` on, as far as the file goes.
unfoldable pub read_at : File → ℕ → ℕ → List ℕ
read_at f off zero = []
read_at f off (suc n) = if ltb off f.len then f.byte off ∷ read_at f (off + 1) n else []

-- The outcome of each system call of one operation. A write that fails may have written a prefix.
pub data WriteFault : Type 0 where
  complete : WriteFault
  partial : ℕ → WriteFault

pub record Io : Type 0 where
  pub grows : Bool
  pub stats : Bool
  pub seeks : Bool
  pub writes : WriteFault
  pub reads : Bool
  pub flushes : Bool

pub length-read_at : (f : File) (off n : ℕ) → off + n ≤ f.len → length (read_at f off n) ≡ n
unfolding read_at
length-read_at f off zero h = refl
length-read_at f off (suc n) h = ground (arith, length-read_at f (off + 1) n)

-- Two files that agree on a range give the same bytes.
pub read_at-agree :
    (f g : File) (off n : ℕ)
    → off + n ≤ f.len
    → off + n ≤ g.len
    → ((i : ℕ) → off ≤ i → i < off + n → f.byte i ≡ g.byte i)
    → read_at f off n ≡ read_at g off n
unfolding read_at
read_at-agree f g off zero hf hg same = refl
read_at-agree f g off (suc n) hf hg same = ground (
  arith,
  same off,
  read_at-agree f g (off + 1) n (omega arith) (omega arith)
      (λ i lo hi. same i (omega arith) (omega arith)),
)

read_at-spelled :
    (f : File) (off : ℕ) (bytes : List ℕ)
    → off + length bytes ≤ f.len
    → ((i : ℕ) → i < length bytes → f.byte (off + i) ≡ get_or bytes i 0)
    → read_at f off (length bytes) ≡ bytes
unfolding read_at
read_at-spelled f off [] h same = refl
read_at-spelled f off (b ∷ bytes) h same =
    let first : f.byte off ≡ b = ground (arith, same 0) in
    ground (
      arith,
      first,
      read_at-spelled f (off + 1) bytes (omega arith) (λ i lt. ground (arith, same (suc i))),
    )

-- What was written is read back.
pub read_at-write_at :
    (f : File) (off : ℕ) (bytes : List ℕ)
    → read_at (write_at f off bytes) off (length bytes) ≡ bytes
unfolding write_at
read_at-write_at f off bytes =
    read_at-spelled (write_at f off bytes) off bytes (ground arith) (λ i lt. ground arith)

-- A write leaves every range apart from its own as it was.
pub read_at-write_at_ne :
    (f : File) (off other n : ℕ) (bytes : List ℕ)
    → (other + n ≤ off) ⊎ (off + length bytes ≤ other)
    → other + n ≤ f.len
    → read_at (write_at f off bytes) other n ≡ read_at f other n
unfolding write_at
read_at-write_at_ne f off other n bytes apart fits =
    read_at-agree (write_at f off bytes) f other n (ground arith) fits (λ i lo hi. ground arith)

-- Growing a file keeps what it held.
pub read_at-set_len :
    (f : File) (len off n : ℕ)
    → f.len ≤ len
    → off + n ≤ f.len
    → read_at (set_len f len) off n ≡ read_at f off n
unfolding set_len
read_at-set_len f len off n grows fits =
    read_at-agree (set_len f len) f off n (omega arith) fits (λ i lo hi. ground arith)
