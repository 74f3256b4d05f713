-- ===== src/Disk/Writing.antt =====
-- `write_page`: the slots stay apart, what was written is read back, and no other page changes.
use mathlib.Core.List.Perm
use mathlib.Core.List.{append_assoc, append-nil, perm_append_singleton, mem-cons_self}
use buffer_pool.Base.{
  ℕ, suc, ◌+◌, ◌*◌, ◌≤◌, ◌<◌, ◌≡◌, refl, sym, ap, subst, ◌∙◌, inl, inr, Bool, true, false, not,
  none, some, List, [], ◌∷◌, ◌++◌, Perm, arith, ltb, leb, if◌then◌else◌, lt→ltb, Bool-cases,
  Option-cases, List-cases, not-ltb, length, take,
}
use buffer_pool.Base.Assoc
use buffer_pool.Base.Assoc.{values, Distinct}
use buffer_pool.Common.{page_size, u64_size}
use buffer_pool.Disk.FileIo.{
  WriteFault, complete, partial, Io, set_len, write_at, read_at, read_at-set_len,
}
use buffer_pool.Disk.{
  io_error, DiskManager, record_write, ok, grow, fresh_offset, find_offset, write_bytes, write_page,
}
use buffer_pool.Disk.Slots.{slots, used, IsValid, Succeeds, free-IsSlot, offset-IsSlot}

-- The state after a write to `off` that met no fault.
abbrev pub stored : DiskManager → ℕ → ℕ → List ℕ → DiskManager
stored d page_id off bytes = record d {
  db_file = write_at d.db_file off bytes;
  num_writes = d.num_writes + 1;
  pages = Assoc.insert page_id off d.pages;
}

stored-IsValid_known :
    (d : DiskManager) (page_id off : ℕ) (bytes : List ℕ)
    → Assoc.get d.pages page_id ≡ some off
    → length bytes ≤ page_size
    → IsValid d
    → IsValid (stored d page_id off bytes)
unfolding write_at
stored-IsValid_known d page_id off bytes e short v = record {
  distinct = Assoc.Distinct-insert page_id off d.pages v.distinct;
  owned =
      rw
        (
          Assoc.values-insert_known page_id off d.pages e,
          Assoc.length-insert_known page_id off off d.pages e,
        )
        v.owned;
  roomy = rw (Assoc.length-insert_known page_id off off d.pages e) v.roomy;
  sized = ground (arith, offset-IsSlot d v page_id off e);
}

stored-IsValid_reuse :
    (d : DiskManager) (page_id off : ℕ) (rest bytes : List ℕ)
    → Assoc.get d.pages page_id ≡ none
    → d.free_slots ≡ off ∷ rest
    → length bytes ≤ page_size
    → IsValid d
    → IsValid (stored (record d { free_slots = rest }) page_id off bytes)
unfolding write_at
stored-IsValid_reuse d page_id off rest bytes e f short v =
    let len = Assoc.length-insert_new page_id off d.pages e in
    let same : length (Assoc.insert page_id off d.pages) + length rest ≡ used d =
      omega (arith, len, ap length f) in
    record {
      distinct = Assoc.Distinct-insert page_id off d.pages v.distinct;
      owned =
          rw (same, Assoc.values-insert_new page_id off d.pages e, append_assoc)
            (subst (λ xs. Perm (values d.pages ++ xs) (slots (used d))) f v.owned);
      roomy = omega (arith, same, v.roomy);
      sized = ground (arith, v.sized, v.roomy, free-IsSlot d v off (rw f mem-cons_self));
    }

-- Growing makes room for one more slot.
grow_room :
    (io : Io) (d : DiskManager)
    → Succeeds io
    → used d < d.page_capacity
    → d.db_file.len ≡ (d.page_capacity + 1) * page_size
    → d.free_slots ≡ []
    → (suc (used d) < (grow io d).page_capacity)
      × ((grow io d).db_file.len ≡ ((grow io d).page_capacity + 1) * page_size)
      × ((grow io d).pages ≡ d.pages)
      × ((grow io d).free_slots ≡ [])
      × ((grow io d).num_writes ≡ d.num_writes)
unfolding grow set_len
grow_room io d s r z f = ground (arith, s.grows, ap length f)

stored-IsValid_fresh :
    (io : Io) (d : DiskManager) (page_id : ℕ) (bytes : List ℕ)
    → Succeeds io
    → Assoc.get d.pages page_id ≡ none
    → d.free_slots ≡ []
    → length bytes ≤ page_size
    → IsValid d
    → IsValid (stored (grow io d) page_id (length d.pages * page_size) bytes)
unfolding write_at slots
stored-IsValid_fresh io d page_id bytes s e f short v =
    let (room, size, same_pages, same_free, _) = grow_room io d s v.roomy v.sized f in
    let off = length d.pages * page_size in
    let len : length (Assoc.insert page_id off (grow io d).pages) ≡ suc (length d.pages) =
      rw same_pages (Assoc.length-insert_new page_id off d.pages e) in
    let count : used d ≡ length d.pages = omega (arith, ap length f) in
    let grown : length (Assoc.insert page_id off (grow io d).pages) + length (grow io d).free_slots
        ≡ suc (length d.pages) =
      omega (arith, len, ap length same_free) in
    let before : Perm (values d.pages) (slots (length d.pages)) = rw append-nil at (
      subst (λ n. Perm (values d.pages ++ []) (slots n)) count
        (subst (λ xs. Perm (values d.pages ++ xs) (slots (used d))) f v.owned)) in
    record {
      distinct = rw same_pages (Assoc.Distinct-insert page_id off d.pages v.distinct);
      owned =
          rw
            (
              grown,
              same_pages,
              same_free,
              Assoc.values-insert_new page_id off d.pages e,
              append-nil,
            )
            (Perm.trans (perm_append_singleton off (values d.pages)) (Perm.cons off before));
      roomy = omega (arith, grown, room, count);
      sized = ground (arith, size, room);
    }

-- `write_page` without faults, when the page's offset is found.
module _ (io : Io) (s : Succeeds io) (page_id off : ℕ) (d d1 : DiskManager) (bytes : List ℕ) where
  pub write_bytes-stored :
      d1.num_writes + 1 < u64_size
      → write_bytes io d1 page_id off bytes ≡ (ok tt, stored d1 page_id off bytes)
  unfolding write_bytes
  write_bytes-stored counted =
      rw (s.writes, write_bytes) (rw (s.flushes, lt→ltb (d1.num_writes + 1) u64_size counted))

  pub write_page-stored :
      find_offset io d page_id ≡ (off, d1)
      → page_size ≤ length bytes
      → write_page io d page_id bytes ≡ write_bytes io d1 page_id off (take page_size bytes)
  unfolding write_page
  write_page-stored found full =
      rw (found, write_page) (rw s.seeks (rw (not-ltb (length bytes) page_size full)))

pub find_offset_known :
    (io : Io) (d : DiskManager) (page_id off : ℕ)
    → Assoc.get d.pages page_id ≡ some off
    → find_offset io d page_id ≡ (off, d)
unfolding find_offset
find_offset_known io d page_id off e = rw (e, find_offset)

pub find_offset_reuse :
    (io : Io) (d : DiskManager) (page_id off : ℕ) (rest : List ℕ)
    → Assoc.get d.pages page_id ≡ none
    → d.free_slots ≡ off ∷ rest
    → find_offset io d page_id ≡ (off, record d { free_slots = rest })
unfolding find_offset
find_offset_reuse io d page_id off rest e f = rw (e, find_offset) (rw (f, fresh_offset))

pub find_offset_fresh :
    (io : Io) (d : DiskManager) (page_id : ℕ)
    → Assoc.get d.pages page_id ≡ none
    → d.free_slots ≡ []
    → find_offset io d page_id ≡ (length d.pages * page_size, grow io d)
unfolding find_offset
find_offset_fresh io d page_id e f =
    rw (e, find_offset)
      (subst (λ xs. fresh_offset io d xs ≡ (length d.pages * page_size, grow io d)) (sym f) refl)

-- Where a page goes, and what finding its place leaves alone.
pub record Placement (io : Io) (d : DiskManager) (page_id : ℕ) : Type 0 where
  pub off : ℕ
  pub after : DiskManager
  pub found : find_offset io d page_id ≡ (off, after)
  pub valid : (bytes : List ℕ) → length bytes ≤ page_size → IsValid (stored after page_id off bytes)
  pub same_pages : after.pages ≡ d.pages
  pub same_writes : after.num_writes ≡ d.num_writes
  pub same_bytes :
      (o : ℕ)
      → o + page_size ≤ d.db_file.len
      → read_at after.db_file o page_size ≡ read_at d.db_file o page_size
  pub longer : d.db_file.len ≤ after.db_file.len

grow-bytes :
    (io : Io) (d : DiskManager) (o : ℕ)
    → d.db_file.len ≡ (d.page_capacity + 1) * page_size
    → o + page_size ≤ d.db_file.len
    → read_at (grow io d).db_file o page_size ≡ read_at d.db_file o page_size
unfolding grow
grow-bytes io d o size fits = elim (Bool-cases (leb d.page_capacity (length d.pages + 1))) [
  | inl full ↦ elim (Bool-cases io.grows) [
    | inl grows ↦ rw (full, grows) (read_at-set_len d.db_file _ o page_size (omega arith) fits)
    | inr stuck ↦ rw (full, stuck) refl
  ]
  | inr room ↦ rw room refl
]

grow-longer :
    (io : Io) (d : DiskManager)
    → d.db_file.len ≡ (d.page_capacity + 1) * page_size
    → d.db_file.len ≤ (grow io d).db_file.len
unfolding grow set_len
grow-longer io d size = ground arith

-- Growing touches the file and the capacity alone.
pub grow_same :
    (io : Io) (d : DiskManager)
    → ((grow io d).pages ≡ d.pages) × ((grow io d).num_writes ≡ d.num_writes)
unfolding grow
grow_same io d = ground arith

pub placement :
    (io : Io) (d : DiskManager) (page_id : ℕ) → Succeeds io → IsValid d → Placement io d page_id
placement io d page_id s v = elim (Option-cases (Assoc.get d.pages page_id)) [
  | inr (off, e) ↦ record {
    off = off;
    after = d;
    found = find_offset_known io d page_id off e;
    valid = λ bytes short. stored-IsValid_known d page_id off bytes e short v;
    same_pages = refl;
    same_writes = refl;
    same_bytes = λ o fits. refl;
    longer = omega arith;
  }
  | inl e ↦ elim (List-cases d.free_slots) [
    | inl f ↦
        let (_, _, same_pages, _, same_writes) = grow_room io d s v.roomy v.sized f in
        record {
          off = length d.pages * page_size;
          after = grow io d;
          found = find_offset_fresh io d page_id e f;
          valid = λ bytes short. stored-IsValid_fresh io d page_id bytes s e f short v;
          same_pages = same_pages;
          same_writes = same_writes;
          same_bytes = λ o fits. grow-bytes io d o v.sized fits;
          longer = grow-longer io d v.sized;
        }
    | inr (off, rest, f) ↦ record {
      off = off;
      after = record d { free_slots = rest };
      found = find_offset_reuse io d page_id off rest e f;
      valid = λ bytes short. stored-IsValid_reuse d page_id off rest bytes e f short v;
      same_pages = refl;
      same_writes = refl;
      same_bytes = λ o fits. refl;
      longer = omega arith;
    }
  ]
]

-- A write without faults is the store of the page's bytes at its place.
pub write_page-placed :
    (io : Io) (d : DiskManager) (page_id : ℕ) (bytes : List ℕ)
    → Succeeds io
    → page_size ≤ length bytes
    → d.num_writes + 1 < u64_size
    → (p : Placement io d page_id)
    → write_page io d page_id bytes ≡ (ok tt, stored p.after page_id p.off (take page_size bytes))
write_page-placed io d page_id bytes s full counted p =
    write_page-stored io s page_id p.off d p.after bytes p.found full
    ∙ write_bytes-stored io s page_id p.off d p.after (take page_size bytes)
        (rw p.same_writes counted)

-- A seek that fails ends a write before the file is touched.
pub write_page-seek_fails :
    (io : Io) (d : DiskManager) (page_id off : ℕ) (bytes : List ℕ)
    → io.seeks ≡ false
    → Assoc.get d.pages page_id ≡ some off
    → write_page io d page_id bytes ≡ (io_error, d)
unfolding write_page
write_page-seek_fails io d page_id off bytes fails e =
    rw (find_offset_known io d page_id off e, write_page) (rw fails refl)

num_writes-find_offset :
    (io : Io) (d : DiskManager) (page_id : ℕ)
    → (find_offset io d page_id).1.num_writes ≡ d.num_writes
num_writes-find_offset io d page_id = elim (Option-cases (Assoc.get d.pages page_id)) [
  | inr (off, e) ↦
      ap (λ (x : ℕ × DiskManager). x.1.num_writes) (find_offset_known io d page_id off e)
  | inl e ↦ elim (List-cases d.free_slots) [
    | inl f ↦
        ap (λ (x : ℕ × DiskManager). x.1.num_writes) (find_offset_fresh io d page_id e f)
        ∙ (grow_same io d).1
    | inr (off, rest, f) ↦
        ap (λ (x : ℕ × DiskManager). x.1.num_writes) (find_offset_reuse io d page_id off rest e f)
  ]
]

num_writes-record_write :
    (io : Io) (d : DiskManager) (page_id off : ℕ)
    → (record_write io d page_id off).1.num_writes ≤ d.num_writes + 1
unfolding record_write
num_writes-record_write io d page_id off = elim (Bool-cases (ltb (d.num_writes + 1) u64_size)) [
  | inl counted ↦ rw counted (omega arith)
  | inr over ↦ rw over (omega arith)
]

num_writes-write_bytes :
    (io : Io) (w : WriteFault) (d : DiskManager) (page_id off : ℕ) (bytes : List ℕ)
    → io.writes ≡ w
    → (write_bytes io d page_id off bytes).1.num_writes ≤ d.num_writes + 1
unfolding write_bytes
num_writes-write_bytes io complete d page_id off bytes e =
    rw (e, write_bytes)
      (num_writes-record_write io (record d { db_file = write_at d.db_file off bytes }) page_id off)
num_writes-write_bytes io (partial k) d page_id off bytes e = rw (e, write_bytes) (omega arith)

-- A bound that holds of each branch of two nested tests.
branches-le :
    {A : Type 0} (n : ℕ) (a b : Bool) (x y z : A × DiskManager)
    → x.1.num_writes ≤ n
    → y.1.num_writes ≤ n
    → z.1.num_writes ≤ n
    → (if a then x else if b then y else z).1.num_writes ≤ n
branches-le n true b x y z hx hy hz = hx
branches-le n false true x y z hx hy hz = hy
branches-le n false false x y z hx hy hz = hz

-- A write is counted once at most.
pub num_writes-write_page :
    (io : Io) (d : DiskManager) (page_id : ℕ) (bytes : List ℕ)
    → (write_page io d page_id bytes).1.num_writes ≤ d.num_writes + 1
unfolding write_page
num_writes-write_page io d page_id bytes =
    let off = (find_offset io d page_id).0 in
    let d1 = (find_offset io d page_id).1 in
    let same : d1.num_writes ≡ d.num_writes = num_writes-find_offset io d page_id in
    let rest = num_writes-write_bytes io io.writes d1 page_id off (take page_size bytes) refl in
    branches-le (d.num_writes + 1) (not io.seeks) (ltb (length bytes) page_size) _ _ _
      (omega (arith, same)) (omega (arith, same)) (omega (arith, same, rest))
