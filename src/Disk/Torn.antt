-- ===== src/Disk/Torn.antt =====
-- `write_page` that fails half-way: what a torn write leaves of the disk.
use buffer_pool.Base.{
  ℕ, ◌+◌, ◌≤◌, ◌≡◌, refl, sym, ap, ◌∙◌, ◌≢◌, inl, inr, true, some, List, arith, Option-cases,
  not-ltb, if_false, length, take, length-take,
}
use buffer_pool.Base.Assoc
use buffer_pool.Common.{page_size}
use buffer_pool.Disk.FileIo.{Io, partial, write_at, read_at-write_at_ne}
use buffer_pool.Disk.{DiskManager, io_error, write_page, write_bytes}
use buffer_pool.Disk.Slots.{IsValid, offset-IsSlot, offsets_apart}
use buffer_pool.Disk.Writing.{find_offset_known}
use buffer_pool.Disk.Contents.{contents, contents_known, contents_unknown}

-- The disk after a prefix of a page is written to its slot.
abbrev torn : DiskManager → ℕ → List ℕ → DiskManager
torn d off bytes = record d { db_file = write_at d.db_file off bytes }

module _ (d : DiskManager) (page_id off : ℕ) (bytes : List ℕ) (v : IsValid d)
    (known : Assoc.get d.pages page_id ≡ some off) (short : length bytes ≤ page_size) where
  within : off + length bytes ≤ d.db_file.len
  within = let slot = offset-IsSlot d v page_id off known in omega (arith, v.sized, v.roomy, slot)

  torn-IsValid : IsValid (torn d off bytes)
  unfolding write_at
  torn-IsValid = record {
    distinct = v.distinct;
    owned = v.owned;
    roomy = v.roomy;
    sized = if_false _ _ (not-ltb d.db_file.len (off + length bytes) within) ∙ v.sized;
  }

  contents-torn :
      (other : ℕ) → other ≢ page_id → contents (torn d off bytes) other ≡ contents d other
  contents-torn other ne = elim (Option-cases (Assoc.get d.pages other)) [
    | inl e ↦ contents_unknown (torn d off bytes) other e ∙ sym (contents_unknown d other e)
    | inr (o, e) ↦
        let slot = offset-IsSlot d v other o e in
        let fits : o + page_size ≤ d.db_file.len = omega (arith, v.sized, v.roomy, slot) in
        let apart = offsets_apart d v page_id other off o known e ne in
        contents_known (torn d off bytes) other o e
        ∙ ap some
            (read_at-write_at_ne d.db_file off o page_size bytes (omega (arith, apart, short)) fits)
        ∙ sym (contents_known d other o e)
  ]

-- A write to a known page that fails after some bytes reports the error. The slots stay apart, the
-- pages on the disk are the same, and every page but the one that was written to holds what it
-- held.
pub write_page-torn :
    (io : Io) (d : DiskManager) (page_id other off k : ℕ) (bytes : List ℕ)
    → io.seeks ≡ true
    → io.writes ≡ partial k
    → IsValid d
    → Assoc.get d.pages page_id ≡ some off
    → page_size ≤ length bytes
    → other ≢ page_id
    → let (result, d') = write_page io d page_id bytes in
      (result ≡ io_error)
      × IsValid d'
      × (d'.pages ≡ d.pages)
      × (contents d' other ≡ contents d other)
unfolding write_page write_bytes
write_page-torn io d page_id other off k bytes seeks fails v known full ne =
    let part = take k (take page_size bytes) in
    let short : length part ≤ page_size =
      omega (arith, length-take k (take page_size bytes), length-take page_size bytes) in
    rw (find_offset_known io d page_id off known, write_page)
      (rw seeks (
        rw (not-ltb (length bytes) page_size full, fails)
          (
            refl,
            torn-IsValid d page_id off part v known short,
            refl,
            contents-torn d page_id off part v known short other ne,
          )))
