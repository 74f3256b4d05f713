-- ===== src/Disk/Leak.antt =====
-- A read of an unknown page takes a slot off the free list and files it under no page. The next
-- new page is then placed by the count of the pages, on a slot that is in use.
use mathlib.Core.List.{mem-cons_self}
use buffer_pool.Base.{
  ℕ, ◌+◌, ◌*◌, ◌<◌, ◌≡◌, refl, List, [], ◌∷◌, none, some, arith, length, take_all, not-ltb, ◌≢◌,
  ==_of_ne,
}
use buffer_pool.Base.Assoc
use buffer_pool.Common.{page_size, u64_size}
use buffer_pool.Disk.FileIo.{Io}
use buffer_pool.Disk.{DiskManager, read_page, write_page, grow}
use buffer_pool.Disk.Slots.{IsValid, Succeeds, free-IsSlot}
use buffer_pool.Disk.Writing.{
  stored, find_offset_reuse, find_offset_fresh, write_bytes-stored, write_page-stored, grow_same,
}
use buffer_pool.Disk.Contents.{contents, stored_self, stored_shared}

module _ (io : Io) (d : DiskManager) (s : Succeeds io) (v : IsValid d) where
  read_page_unknown :
      (page_id off : ℕ) (rest buffer : List ℕ)
      → Assoc.get d.pages page_id ≡ none
      → d.free_slots ≡ off ∷ rest
      → length buffer ≡ page_size
      → (read_page io d page_id buffer).1 ≡ record d { free_slots = rest }
  unfolding read_page
  read_page_unknown page_id off rest buffer e f len =
      let slot = free-IsSlot d v off (rw f mem-cons_self) in
      rw (find_offset_reuse io d page_id off rest e f, read_page)
        (rw s.stats (
          rw (not-ltb d.db_file.len off (omega (arith, v.sized, v.roomy, slot)))
            (rw s.seeks (rw (not-ltb (length buffer) page_size (omega arith)) (rw s.reads)))))

-- If one slot is free, an unknown page `asked` is read, and then a new page `added` is written,
-- both without faults, the page `victim` on the last slot of the file is overwritten: it holds the
-- bytes of `added`.
pub read_unknown_overwrites :
    (io : Io) (d : DiskManager) (asked added victim off : ℕ) (buffer bytes : List ℕ)
    → Succeeds io
    → IsValid d
    → d.free_slots ≡ off ∷ []
    → Assoc.get d.pages asked ≡ none
    → Assoc.get d.pages added ≡ none
    → Assoc.get d.pages victim ≡ some (length d.pages * page_size)
    → length buffer ≡ page_size
    → length bytes ≡ page_size
    → d.num_writes + 1 < u64_size
    → let d1 = (read_page io d asked buffer).1 in
      let d2 = (write_page io d1 added bytes).1 in
      (contents d2 added ≡ some bytes) × (contents d2 victim ≡ some bytes)
read_unknown_overwrites io d asked added victim off buffer bytes s v f ea eq ev lb lbs counted =
    rw (read_page_unknown io d s v asked off [] buffer ea f lb, wrote)
      (
        stored_self grown added place bytes lbs,
        stored_shared grown added victim place bytes lbs
            (rw (Assoc.get-insert, (grow_same io leaked).0, ==_of_ne added victim distinct) ev),
      )
  where
    leaked : DiskManager
    leaked = record d { free_slots = [] }

    grown : DiskManager
    grown = grow io leaked

    place : ℕ
    place = length d.pages * page_size

    distinct : victim ≢ added
    distinct e = cc (ev, eq, e)

    wrote : (write_page io leaked added bytes).1 ≡ stored grown added place bytes
    wrote =
        rw
          (
            write_page-stored io s added place leaked grown bytes
                (find_offset_fresh io leaked added eq refl) (omega arith),
            take_all page_size bytes lbs,
            write_bytes-stored io s added place leaked grown bytes
                (rw (grow_same io leaked).1 counted),
          )
          refl
