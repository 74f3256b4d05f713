-- ===== src/Tests/Disk.antt =====
-- src/disk_manager.rs on concrete disks.
use mathlib.Core.List.Perm
use buffer_pool.Base.{
  ℕ, ◌+◌, ◌*◌, ◌≡◌, refl, true, none, some, [], ◌∷◌, arith, ◌==◌, if◌then◌else◌, ne_of_==, take,
}
use buffer_pool.Common.{page_size, db_io_size}
use buffer_pool.Disk.FileIo.{Io, File, complete, read_at}
use buffer_pool.Disk.{DiskManager, ok, write_page, read_page, delete_page}
use buffer_pool.Disk.Slots.{IsValid, Succeeds, slots, used}
use buffer_pool.Disk.Contents.{
  contents, contents_known, contents-write_page, contents-read_page, contents-delete_page,
}
use buffer_pool.Disk.FileIo.{partial}
use buffer_pool.Disk.{io_error}
use buffer_pool.Disk.Torn.{write_page-torn}
use buffer_pool.Disk.Leak.{read_unknown_overwrites}
use buffer_pool.Frame.{zero_page, length-zero_page}

abbrev pub no_faults : Io
no_faults = record {
  grows = true;
  stats = true;
  seeks = true;
  writes = complete;
  reads = true;
  flushes = true;
}

pub no_faults-Succeeds : Succeeds no_faults
no_faults-Succeeds = record {
  grows = refl;
  stats = refl;
  seeks = refl;
  writes = refl;
  reads = refl;
  flushes = refl;
}

-- A file of zeros, with room for the first pages.
abbrev pub zeros : File
zeros = record { len = (db_io_size + 1) * page_size; byte = λ _. 0 }

-- Pages 7 and 9 on the second and the first slot.
abbrev pub two_pages : DiskManager
two_pages = record {
  db_file = zeros;
  page_capacity = db_io_size;
  page_size = page_size;
  pages = (7, 1 * page_size) ∷ (9, 0 * page_size) ∷ [];
  num_writes = 2;
  num_deletes = 0;
  free_slots = [];
}

pub two_pages-IsValid : IsValid two_pages
unfolding slots
two_pages-IsValid = record {
  distinct = (refl, (refl, tt));
  owned = Perm.refl _;
  roomy = omega arith;
  sized = refl;
}

-- Page 7 on the second slot, and the first is free.
abbrev one_free : DiskManager
one_free = record {
  db_file = zeros;
  page_capacity = db_io_size;
  page_size = page_size;
  pages = (7, 1 * page_size) ∷ [];
  num_writes = 2;
  num_deletes = 1;
  free_slots = 0 * page_size ∷ [];
}

one_free-IsValid : IsValid one_free
unfolding slots
one_free-IsValid = record {
  distinct = (refl, tt);
  owned = Perm.refl _;
  roomy = omega arith;
  sized = refl;
}

contents-write_page_example :
    let (result, d') = write_page no_faults two_pages 7 zero_page in
    (result ≡ ok tt)
    × IsValid d'
    × ((other : ℕ)
        → contents d' other
          ≡ (if 7 == other then some (take page_size zero_page) else contents two_pages other))
contents-write_page_example =
    contents-write_page no_faults two_pages 7 zero_page no_faults-Succeeds
      (omega (arith, length-zero_page)) (omega arith) two_pages-IsValid

contents-read_page_example :
    read_page no_faults two_pages 9 zero_page
    ≡ (ok (read_at zeros (0 * page_size) page_size), two_pages)
contents-read_page_example =
    contents-read_page no_faults two_pages 9 zero_page (read_at zeros (0 * page_size) page_size)
      no_faults-Succeeds length-zero_page two_pages-IsValid
      (contents_known two_pages 9 (0 * page_size) refl)

contents-delete_page_example :
    let (result, d') = delete_page two_pages 7 in
    (result ≡ ok tt)
    × IsValid d'
    × (used d' ≡ used two_pages)
    × ((other : ℕ) → contents d' other ≡ (if 7 == other then none else contents two_pages other))
contents-delete_page_example = contents-delete_page two_pages 7 (omega arith) two_pages-IsValid

read_unknown_overwrites_example :
    let d1 = (read_page no_faults one_free 4 zero_page).1 in
    let d2 = (write_page no_faults d1 5 zero_page).1 in
    (contents d2 5 ≡ some zero_page) × (contents d2 7 ≡ some zero_page)
read_unknown_overwrites_example =
    read_unknown_overwrites no_faults one_free 4 5 7 (0 * page_size) zero_page zero_page
      no_faults-Succeeds one_free-IsValid refl refl refl refl length-zero_page length-zero_page
      (omega arith)

abbrev cut_short : Io
cut_short = record no_faults { writes = partial 100 }

write_page-torn_example :
    let (result, d') = write_page cut_short two_pages 7 zero_page in
    (result ≡ io_error)
    × IsValid d'
    × (d'.pages ≡ two_pages.pages)
    × (contents d' 9 ≡ contents two_pages 9)
write_page-torn_example =
    write_page-torn cut_short two_pages 7 9 (1 * page_size) 100 zero_page refl refl
      two_pages-IsValid refl (omega (arith, length-zero_page)) (ne_of_== 7 9 refl)
