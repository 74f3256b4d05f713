-- ===== src/Disk.antt =====
-- src/disk_manager.rs: pages at byte offsets of one file.
--
-- `free_slots` is a stack whose top is the head of the list. A mutex that a thread takes and gives
-- back within one call leaves no trace here. The capacity, the offsets and the file's size are
-- numbers without a bound: a file of 2 ^ 63 bytes is out of reach.
pub mod FileIo
pub mod Slots
pub mod Writing
pub mod Contents
pub mod Leak
pub mod Torn
use buffer_pool.Base.{
  ℕ, ◌+◌, ◌*◌, Bool, true, false, List, [], ◌∷◌, ◌++◌, Option, none, some, ◌>>=◌, ◌>>◌, require,
  not, ltb, leb, if◌then◌else◌, length, take, drop,
}
use buffer_pool.Base.Assoc
use buffer_pool.Common.{u64_size, page_size, db_io_size}
use FileIo.{File, Io, complete, partial, set_len, write_at, read_at}

pub record DiskManager : Type 0 where
  pub db_file : File
  pub page_capacity : ℕ
  pub page_size : ℕ
  pub pages : List (ℕ × ℕ)
  pub num_writes : ℕ
  pub num_deletes : ℕ
  pub free_slots : List ℕ

-- `Result<A, io::Error>`, or a panic of the thread.
pub data DiskResult {ℓ} (A : Type ℓ) : Type ℓ where
  ok : A → DiskResult A
  io_error panic : DiskResult A

-- `opened` is what `OpenOptions::open` found, or its failure.
pub new : Io → Option File → Option DiskManager
new io opened = do
  db_file ← opened
  let size = (db_io_size + 1) * page_size
  let sized = if io.grows then set_len db_file size else db_file
  require io.stats
  require (not (ltb sized.len (db_io_size * page_size)))
  some (record {
    db_file = sized;
    page_capacity = db_io_size;
    page_size = page_size;
    pages = [];
    num_writes = 0;
    num_deletes = 0;
    free_slots = [];
  })

-- When the pages reach the capacity it is doubled; a failure of `set_len` is ignored.
pub grow : Io → DiskManager → DiskManager
grow io d =
    if leb d.page_capacity (length d.pages + 1)
    then record d {
      page_capacity = d.page_capacity * 2;
      db_file =
          if io.grows then set_len d.db_file ((d.page_capacity * 2 + 1) * page_size) else d.db_file;
    }
    else d

fresh_offset : Io → DiskManager → List ℕ → ℕ × DiskManager
fresh_offset io d [] = (length d.pages * page_size, grow io d)
fresh_offset io d (value ∷ rest) = (value, record d { free_slots = rest })

-- The first half of `write_page` and of `read_page`: an unknown page gets an offset.
pub find_offset : Io → DiskManager → ℕ → ℕ × DiskManager
unfolding fresh_offset
find_offset io d page_id = elim (Assoc.get d.pages page_id) [
  | some existing_offset ↦ (existing_offset, d)
  | none ↦ fresh_offset io d d.free_slots
]

-- The end of `write_page`, after the bytes are written.
record_write : Io → DiskManager → ℕ → ℕ → DiskResult (Unit {0}) × DiskManager
record_write io d page_id offset =
    if ltb (d.num_writes + 1) u64_size
    then (
      if io.flushes then ok tt else io_error,
      record d { num_writes = d.num_writes + 1; pages = Assoc.insert page_id offset d.pages },
    )
    else (panic, d)

pub write_bytes : Io → DiskManager → ℕ → ℕ → List ℕ → DiskResult (Unit {0}) × DiskManager
unfolding record_write
write_bytes io d page_id offset bytes = elim io.writes [
  | complete ↦
      record_write io (record d { db_file = write_at d.db_file offset bytes }) page_id offset
  | partial k ↦ (io_error, record d { db_file = write_at d.db_file offset (take k bytes) })
]

pub write_page : Io → DiskManager → ℕ → List ℕ → DiskResult (Unit {0}) × DiskManager
write_page io d page_id page_data =
    let (offset, d1) = find_offset io d page_id in
    if not io.seeks
    then (io_error, d1)
    else if ltb (length page_data) page_size
    then (panic, d1)
    else write_bytes io d1 page_id offset (take page_size page_data)

-- A read that meets the end of the file leaves the rest of the buffer as it was, and is no error.
fill_buffer : File → ℕ → List ℕ → List ℕ
fill_buffer f offset buffer =
    let page = read_at f offset page_size in page ++ drop (length page) buffer

pub read_page : Io → DiskManager → ℕ → List ℕ → DiskResult (List ℕ) × DiskManager
unfolding fill_buffer
read_page io d page_id page_data =
    let (offset, d1) = find_offset io d page_id in
    if not io.stats
    then (io_error, d1)
    else if ltb d1.db_file.len offset
    then (panic, d1)
    else if not io.seeks
    then (io_error, d1)
    else if ltb (length page_data) page_size
    then (panic, d1)
    else if not io.reads
    then (io_error, d1)
    else (ok (fill_buffer d1.db_file offset page_data), d1)

pub delete_page : DiskManager → ℕ → DiskResult (Unit {0}) × DiskManager
delete_page d page_id = elim (Assoc.get d.pages page_id) [
  | some offset ↦
      let d1 = record d {
        pages = Assoc.remove page_id d.pages;
        free_slots = offset ∷ d.free_slots;
      } in
      if ltb (d.num_deletes + 1) u64_size
      then (ok tt, record d1 { num_deletes = d.num_deletes + 1 })
      else (panic, d1)
  | none ↦ (ok tt, d)
]
