-- ===== src/Disk/Contents.antt =====
-- The disk manager as a map from page ids to pages, and its four operations as operations of
-- that map, where no system call fails.
use mathlib.Core.List.Perm
use mathlib.Core.List.{append-nil, perm_middle}
use buffer_pool.Base.{
  ℕ, ◌+◌, ◌*◌, ◌≤◌, ◌<◌, ◌≡◌, refl, sym, ap, subst, ◌∙◌, ◌≢◌, inl, inr, Option, none, some, List,
  [], ◌∷◌, arith, ◌==◌, if◌then◌else◌, lt→ltb, Bool-cases, Option-cases, ◌>>=◌, not-ltb, eq_of_==,
  ne_of_==, length, take, drop, length-take, drop_all,
}
use buffer_pool.Base.Assoc
use buffer_pool.Base.Assoc.{values, Distinct}
use buffer_pool.Common.{page_size, db_io_size, u64_size}
use buffer_pool.Disk.FileIo.{
  Io, File, set_len, write_at, read_at, length-read_at, read_at-write_at, read_at-write_at_ne,
}
use buffer_pool.Disk.{DiskManager, ok, new, read_page, write_page, delete_page}
use buffer_pool.Disk.Slots.{slots, used, IsValid, Succeeds, offset-IsSlot, offsets_apart}
use buffer_pool.Disk.Writing.{stored, Placement, placement, write_page-placed, find_offset_known}

-- The page that the disk holds under an id.
pub contents : DiskManager → ℕ → Option (List ℕ)
contents d page_id = do off ← Assoc.get d.pages page_id; some (read_at d.db_file off page_size)

pub contents_known :
    (d : DiskManager) (page_id off : ℕ)
    → Assoc.get d.pages page_id ≡ some off
    → contents d page_id ≡ some (read_at d.db_file off page_size)
unfolding contents
contents_known d page_id off e = rw e

pub contents_unknown :
    (d : DiskManager) (page_id : ℕ) → Assoc.get d.pages page_id ≡ none → contents d page_id ≡ none
unfolding contents
contents_unknown d page_id e = rw e

-- A page that is filed under the offset of a write holds what was written.
pub stored_shared :
    (d : DiskManager) (page_id other off : ℕ) (bytes : List ℕ)
    → length bytes ≡ page_size
    → Assoc.get (Assoc.insert page_id off d.pages) other ≡ some off
    → contents (stored d page_id off bytes) other ≡ some bytes
stored_shared d page_id other off bytes len e =
    contents_known (stored d page_id off bytes) other off e
    ∙ ap some (
        subst (λ n. read_at (write_at d.db_file off bytes) off n ≡ bytes) len
          (read_at-write_at d.db_file off bytes))

pub stored_self :
    (d : DiskManager) (page_id off : ℕ) (bytes : List ℕ)
    → length bytes ≡ page_size
    → contents (stored d page_id off bytes) page_id ≡ some bytes
stored_self d page_id off bytes len =
    stored_shared d page_id page_id off bytes len (rw Assoc.get-insert (ground arith))

-- A write changes the page that it names, and no other.
module _ (io : Io) (d : DiskManager) (page_id other : ℕ) (bytes : List ℕ) (s : Succeeds io)
    (v : IsValid d) (ne : other ≢ page_id) (p : Placement io d page_id)
    (len : length bytes ≡ page_size) where
  still_known : Assoc.get (Assoc.insert page_id p.off p.after.pages) other ≡ Assoc.get d.pages other
  still_known = rw (Assoc.get-insert, p.same_pages) (ground arith)

  stored_other : contents (stored p.after page_id p.off bytes) other ≡ contents d other
  stored_other = elim (Option-cases (Assoc.get d.pages other)) [
    | inl e ↦
        contents_unknown (stored p.after page_id p.off bytes) other (still_known ∙ e)
        ∙ sym (contents_unknown d other e)
    | inr (o, e) ↦
        let slot = offset-IsSlot d v other o e in
        let fits : o + page_size ≤ d.db_file.len = omega (arith, v.sized, v.roomy, slot) in
        let apart =
          offsets_apart (stored p.after page_id p.off bytes) (p.valid bytes (omega arith)) page_id
            other p.off o (rw Assoc.get-insert (ground arith)) (still_known ∙ e) ne in
        contents_known (stored p.after page_id p.off bytes) other o (still_known ∙ e)
        ∙ ap some (
            read_at-write_at_ne p.after.db_file p.off o page_size bytes (ground (arith, apart, len))
              (omega (arith, p.longer, fits))
            ∙ p.same_bytes o fits)
        ∙ sym (contents_known d other o e)
  ]

-- `write_page` without faults puts the first `page_size` bytes under the id and changes no other
-- page, and the slots stay apart.
pub contents-write_page :
    (io : Io) (d : DiskManager) (page_id : ℕ) (bytes : List ℕ)
    → Succeeds io
    → page_size ≤ length bytes
    → d.num_writes + 1 < u64_size
    → IsValid d
    → let (result, d') = write_page io d page_id bytes in
      (result ≡ ok tt)
      × IsValid d'
      × ((other : ℕ)
          → contents d' other
            ≡ (if page_id == other then some (take page_size bytes) else contents d other))
contents-write_page io d page_id bytes s full counted v =
    let p = placement io d page_id s v in
    let page = take page_size bytes in
    let len : length page ≡ page_size = omega (arith, length-take page_size bytes) in
    rw (write_page-placed io d page_id bytes s full counted p) (
      refl,
      p.valid page (omega arith),
      λ other. elim (Bool-cases (page_id == other)) [
        | inl same ↦
            let e = eq_of_== page_id other same in
            rw same (
              subst (λ k. contents (stored p.after page_id p.off page) k ≡ some page) e
                (stored_self p.after page_id p.off page len))
        | inr differs ↦
            rw differs
              (stored_other io d page_id other page s v (ne_of_== page_id other differs) p len)
      ],
    )

-- `read_page` of a known page, without faults, returns the page in a buffer of `page_size` bytes
-- and changes nothing.
pub contents-read_page :
    (io : Io) (d : DiskManager) (page_id : ℕ) (buffer page : List ℕ)
    → Succeeds io
    → length buffer ≡ page_size
    → IsValid d
    → contents d page_id ≡ some page
    → read_page io d page_id buffer ≡ (ok page, d)
unfolding read_page contents
contents-read_page io d page_id buffer page s len v h =
    elim (Option-cases (Assoc.get d.pages page_id)) [
      | inl e ↦ absurd (ground arith)
      | inr (off, e) ↦
          let slot = offset-IsSlot d v page_id off e in
          let fits : off + page_size ≤ d.db_file.len = omega (arith, v.sized, v.roomy, slot) in
          let full = length-read_at d.db_file off page_size fits in
          let same : read_at d.db_file off page_size ≡ page = ground arith in
          let rest : drop (length (read_at d.db_file off page_size)) buffer ≡ [] =
            drop_all (length (read_at d.db_file off page_size)) buffer (omega (arith, full)) in
          rw (find_offset_known io d page_id off e, read_page)
            (rw s.stats (
              rw (not-ltb d.db_file.len off (omega arith)) (
                rw s.seeks (
                  rw (not-ltb (length buffer) page_size (omega arith))
                    (rw s.reads (rw (rest, append-nil, same) refl))))))
    ]

-- The state after `delete_page` of a known page.
abbrev deleted : DiskManager → ℕ → ℕ → DiskManager
deleted d page_id off = record d {
  pages = Assoc.remove page_id d.pages;
  num_deletes = d.num_deletes + 1;
  free_slots = off ∷ d.free_slots;
}

module _ (d : DiskManager) (page_id off : ℕ) (v : IsValid d)
    (e : Assoc.get d.pages page_id ≡ some off) where
  deleted-used : used (deleted d page_id off) ≡ used d
  deleted-used = omega (arith, Assoc.length-remove page_id d.pages off e)

  deleted-IsValid : IsValid (deleted d page_id off)
  deleted-IsValid = record {
    distinct = Assoc.Distinct-remove page_id d.pages v.distinct;
    owned = rw deleted-used (
        Perm.trans (perm_middle (values (Assoc.remove page_id d.pages)) d.free_slots) (
          Perm.trans
            (Perm.symm
              (Perm.append_right d.free_slots (Assoc.values-remove-perm page_id off d.pages e)))
            v.owned));
    roomy = omega (arith, deleted-used, v.roomy);
    sized = v.sized;
  }

  contents-deleted :
      (other : ℕ)
      → contents (deleted d page_id off) other
        ≡ (if page_id == other then none else contents d other)
  unfolding contents
  contents-deleted other = elim (Bool-cases (page_id == other)) [
    | inl same ↦
        let k = eq_of_== page_id other same in
        rw same (
          rw (
            subst (λ j. Assoc.get (Assoc.remove page_id d.pages) j ≡ none) k
              (Assoc.get-remove_self page_id d.pages v.distinct)))
    | inr differs ↦ rw (differs, Assoc.get-remove_ne page_id other d.pages differs) refl
  ]

-- `delete_page` forgets the page and no other, keeps the slots apart, and frees the page's slot.
pub contents-delete_page :
    (d : DiskManager) (page_id : ℕ)
    → d.num_deletes + 1 < u64_size
    → IsValid d
    → let (result, d') = delete_page d page_id in
      (result ≡ ok tt)
      × IsValid d'
      × (used d' ≡ used d)
      × ((other : ℕ) → contents d' other ≡ (if page_id == other then none else contents d other))
unfolding delete_page
contents-delete_page d page_id counted v = elim (Option-cases (Assoc.get d.pages page_id)) [
  | inl e ↦ rw (e, delete_page) (refl, v, refl, λ other. absent e other)
  | inr (off, e) ↦
      rw (e, delete_page)
        (rw (lt→ltb (d.num_deletes + 1) u64_size counted) (
          refl,
          deleted-IsValid d page_id off v e,
          deleted-used d page_id off v e,
          contents-deleted d page_id off v e,
        ))
]
  where
    absent :
        Assoc.get d.pages page_id ≡ none
        → (other : ℕ) → contents d other ≡ (if page_id == other then none else contents d other)
    absent e other = elim (Bool-cases (page_id == other)) [
      | inl same ↦
          let k = eq_of_== page_id other same in
          rw same (subst (λ j. contents d j ≡ none) k (contents_unknown d page_id e))
      | inr differs ↦ rw differs refl
    ]

-- A new disk, made without faults, holds no page, was never written, and is valid.
pub contents-new :
    (io : Io) (f : File)
    → Succeeds io
    → (d : DiskManager) × (new io (some f) ≡ some d)
      × IsValid d
      × ((page_id : ℕ) → contents d page_id ≡ none)
      × (d.num_writes ≡ 0)
unfolding new contents slots set_len
contents-new io f s = (fresh, made, valid, λ page_id. refl, refl)
  where
    fresh : DiskManager
    fresh = record {
      db_file = set_len f ((db_io_size + 1) * page_size);
      page_capacity = db_io_size;
      page_size = page_size;
      pages = [];
      num_writes = 0;
      num_deletes = 0;
      free_slots = [];
    }

    made : new io (some f) ≡ some fresh
    made = rw (s.grows, s.stats) refl

    valid : IsValid fresh
    valid = record { distinct = tt; owned = Perm.refl []; roomy = omega arith; sized = refl }
