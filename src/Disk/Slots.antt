-- ===== src/Disk/Slots.antt =====
-- The slots of the file: which offsets are in use, and that every operation that succeeds on a
-- known page, or allocates one by a write, keeps them apart.
use mathlib.Core.List.Perm
use mathlib.Core.List.Nodup
use mathlib.Core.List.{
  Nodup-cons, Nodup-nil, mem-append_left, mem-append_right, not-mem-nil, mem-cons,
}
use mathlib.Core.Logic.Or
use mathlib.Core.HLevel.{×_prop}
use native.Mathlib.Bridge.{le_prop}
use native.Mathlib.Nat.{ℕ_set}
use buffer_pool.Base.{
  ℕ, zero, suc, ◌+◌, ◌*◌, ◌%◌, ◌≤◌, ◌<◌, ◌≡◌, subst, ◌⊎◌, true, ◌≢◌, List, [], ◌∷◌, ◌++◌, some,
  arith, Mem, Nodup, Perm, length,
}
use buffer_pool.Base.Assoc
use buffer_pool.Base.Assoc.{values, Distinct}
use buffer_pool.Common.{page_size}
use buffer_pool.Disk.FileIo.{Io, complete}
use buffer_pool.Disk.{DiskManager}

-- The offsets of the first `n` slots of the file, the last first.
unfoldable pub slots : ℕ → List ℕ
slots zero = []
slots (suc n) = n * page_size ∷ slots n

-- How many slots were ever handed out.
abbrev pub used : DiskManager → ℕ
used d = length d.pages + length d.free_slots

-- Every slot handed out is either free or the slot of one page, and the file has room for more.
pub record IsValid (d : DiskManager) : Type 0 where
  pub distinct : Distinct d.pages
  pub owned : Perm (values d.pages ++ d.free_slots) (slots (used d))
  pub roomy : used d < d.page_capacity
  pub sized : d.db_file.len ≡ (d.page_capacity + 1) * page_size

-- No system call of the operation fails.
pub record Succeeds (io : Io) : Type 0 where
  pub grows : io.grows ≡ true
  pub stats : io.stats ≡ true
  pub seeks : io.seeks ≡ true
  pub writes : io.writes ≡ complete
  pub reads : io.reads ≡ true
  pub flushes : io.flushes ≡ true

-- An offset of one of the first `n` slots.
abbrev pub IsSlot : ℕ → ℕ → Type 0
IsSlot n off = (off + page_size ≤ n * page_size) × (off % page_size ≡ 0)

mem-slots : (n off : ℕ) → Mem off (slots n) → IsSlot n off
unfolding slots
mem-slots zero off m = absurd (not-mem-nil m)
mem-slots (suc n) off m =
    Or.elim (×_prop le_prop (ℕ_set _ _)) (mem-cons.0 m) (λ e. rw e (omega arith, omega arith))
      (λ rest. let (fits, aligned) = mem-slots n off rest in (omega arith, aligned))

slots-Nodup : (n : ℕ) → Nodup (slots n)
unfolding slots
slots-Nodup zero = Nodup-nil
slots-Nodup (suc n) =
    Nodup-cons.1
      (λ m. let (fits, _) = mem-slots n (n * page_size) m in absurd (omega arith), slots-Nodup n)

module _ (d : DiskManager) (v : IsValid d) where
  pub owned-Nodup : Nodup (values d.pages ++ d.free_slots)
  owned-Nodup = Perm.nodup (Perm.symm v.owned) (slots-Nodup (used d))

  pub offset-IsSlot : (page_id off : ℕ) → Assoc.get d.pages page_id ≡ some off → IsSlot (used d) off
  offset-IsSlot page_id off e = mem-slots (used d) off (
      Perm.subset v.owned off
        (mem-append_left d.free_slots (Assoc.mem-values page_id off d.pages e)))

  pub free-IsSlot : (off : ℕ) → Mem off d.free_slots → IsSlot (used d) off
  free-IsSlot off m =
      mem-slots (used d) off (Perm.subset v.owned off (mem-append_right (values d.pages) m))

  -- The slots of two pages do not overlap.
  pub offsets_apart :
      (page_id other off o : ℕ)
      → Assoc.get d.pages page_id ≡ some off
      → Assoc.get d.pages other ≡ some o
      → other ≢ page_id
      → (o + page_size ≤ off) ⊎ (off + page_size ≤ o)
  offsets_apart page_id other off o e h ne =
      let distinct : o ≢ off = λ same. ne (
        Assoc.get_injective other page_id off d.pages
          (Nodup.of_append_left d.free_slots owned-Nodup)
          (subst (λ x. Assoc.get d.pages other ≡ some x) same h) e) in
      let a = offset-IsSlot page_id off e in let b = offset-IsSlot other o h in omega arith
