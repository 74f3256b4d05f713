-- ===== src/BTree/Tree/Reading.antt =====
-- `check_read_page`, a read of the bytes, and the drop of the guard: one read of a page.
use buffer_pool.Base.{
  ℕ, ◌+◌, ◌≤◌, ◌<◌, ◌≡◌, refl, sym, ap, subst, ◌∙◌, inl, inr, true, some, List, arith, ◌==◌,
  Bool-cases, ◌>>=◌, eq_of_==, >>=-eq-some, some_inj, if_true, if_false, length,
}
use buffer_pool.Base.Assoc
use buffer_pool.Common.{page_size, u64_size}
use buffer_pool.Disk.FileIo.{Io}
use buffer_pool.Disk.Slots.{Succeeds}
use buffer_pool.Frame.{FrameHeader}
use buffer_pool.Frame
use buffer_pool.Guard.{Shared, ReadPageGuard, frame_at, data_read, drop_read, release}
use buffer_pool.Scheduler.{Worker}
use buffer_pool.Guard.Pins.{release-some}
use buffer_pool.Pool.{BufferPoolManager, check_read_page, find_frame}
use buffer_pool.Pool.Loading.{disk_of, content, content_resident, IsReady}
use buffer_pool.Pool.Serving.{find_frame-Available}
use buffer_pool.Pool.Guards.{check_page-Serves}
use buffer_pool.Pool.Editing.{Edited, edited-IsReady, content-edited}
use buffer_pool.BTree.Tree.{read_page}

-- The pool `q` is in order, every page of it holds what it holds in `p`, and the disk was written
-- once at most.
pub record Keeps (p q : BufferPoolManager) : Type 0 where
  pub ready : IsReady q
  pub same : (k : ℕ) → content q k ≡ content p k
  pub writes : (disk_of q).num_writes ≤ (disk_of p).num_writes + 1

-- Dropping the guard does not touch the disk.
read_end_writes :
    (p1 : BufferPoolManager) (s : Shared) (page_id i : ℕ) (f : FrameHeader) (guard : ReadPageGuard)
    → IsReady p1
    → Assoc.get p1.page_table page_id ≡ some i
    → frame_at p1.shared i ≡ some f
    → drop_read p1.shared (record { page_id = page_id; frame = i; is_valid = true })
      ≡ some (guard, s)
    → s.disk_scheduler.disk_manager.num_writes ≡ (disk_of p1).num_writes
unfolding drop_read
read_end_writes p1 s page_id i f guard r there at e =
    let (s', releases, made) = >>=-eq-some (release p1.shared i) _ e in
    let state : s' ≡ s = ap (λ x. x.1) (some_inj made) in
    let freed = release-some p1.shared s i f at (rw (sym state) releases) in
    ap (λ (w : Worker). w.disk_manager.num_writes) freed.scheduler

-- The end of the read, from a guard of frame `i`.
read_end :
    (p1 : BufferPoolManager) (s : Shared) (page_id i : ℕ) (f : FrameHeader) (guard : ReadPageGuard)
    → IsReady p1
    → Assoc.get p1.page_table page_id ≡ some i
    → frame_at p1.shared i ≡ some f
    → drop_read p1.shared (record { page_id = page_id; frame = i; is_valid = true })
      ≡ some (guard, s)
    → Keeps p1 (record p1 { shared = s })
unfolding drop_read Frame.unpin
read_end p1 s page_id i f guard r there at e =
    let (s', releases, made) = >>=-eq-some (release p1.shared i) _ e in
    let state : s' ≡ s = ap (λ x. x.1) (some_inj made) in
    let freed = release-some p1.shared s i f at (rw (sym state) releases) in
    let ed : Edited p1 s i f (Frame.unpin f) = record {
      at = freed.at;
      id = refl;
      full = r.pool.frames.whole i f at;
      others = freed.others;
      scheduler = freed.scheduler;
      size = freed.size;
    } in
    record {
      ready = edited-IsReady p1 page_id i f (Frame.unpin f) s r there at ed;
      same = λ k.
          content-edited p1 page_id i f (Frame.unpin f) s r there at ed k
          ∙ elim (Bool-cases (page_id == k)) [
            | inl same ↦
                if_true _ _ same
                ∙ sym (ap (λ o. o >>= λ (x : FrameHeader). some x.bytes) at)
                ∙ sym (content_resident p1 page_id i there)
                ∙ ap (content p1) (eq_of_== page_id k same)
            | inr other ↦ if_false _ _ other
          ];
      writes = rw freed.scheduler (omega arith);
    }

pub read_opened :
    (faults : ℕ → Io) (now : ℕ) (p p' : BufferPoolManager) (page_id i : ℕ) (g : FrameHeader)
    → check_read_page faults now p page_id
      ≡ some (some (record { page_id = page_id; frame = i; is_valid = true }), p')
    → frame_at p'.shared i ≡ some g
    → read_page faults now p page_id ≡ (
        drop_read p'.shared (record { page_id = page_id; frame = i; is_valid = true })
        >>= λ (x : ReadPageGuard × Shared). some (g.bytes, record p' { shared = x.1 }))
unfolding read_page data_read
read_opened faults now p p' page_id i g reads at = rw (reads, read_page) (rw at refl)

-- Without faults, a read that does not panic, of a page that exists, returns the page's bytes, and
-- keeps the pool in order and every page as it was.
pub read_page-Keeps :
    (faults : ℕ → Io) (now : ℕ) (p q : BufferPoolManager) (page_id : ℕ) (bytes got : List ℕ)
    → IsReady p
    → ((n : ℕ) → Succeeds (faults n))
    → length bytes ≡ page_size
    → content p page_id ≡ some bytes
    → (disk_of p).num_writes + 1 < u64_size
    → read_page faults now p page_id ≡ some (got, q)
    → (got ≡ bytes) × Keeps p q
unfolding check_read_page read_page Frame.pin
read_page-Keeps faults now p q page_id bytes got r s len holds counted e =
    let (checked, ec, _) = >>=-eq-some (check_read_page faults now p page_id) _ e in
    let ((j, q0), ef, _) = >>=-eq-some (find_frame faults p page_id) _ ec in
    let available = find_frame-Available faults p q0 page_id j ef in
    let (i, p1, f, found, at, fb, outcome) =
      check_page-Serves faults now p page_id bytes r s len holds counted available in
    elim outcome [
      | inl (_, panics, _) ↦ cc (panics, ec)
      | inr (p', reads, _, at', ready, there, writes, same) ↦
          let ((guard, s3), drops, made) =
            >>=-eq-some
              (drop_read p'.shared (record { page_id = page_id; frame = i; is_valid = true })) _
              (sym (read_opened faults now p p' page_id i (Frame.pin f) reads at') ∙ e) in
          let keeps = read_end p' s3 page_id i (Frame.pin f) guard ready there at' drops in
          let end : (f.bytes, record p' { shared = s3 }) ≡ (got, q) = some_inj made in
          let once = read_end_writes p' s3 page_id i (Frame.pin f) guard ready there at' drops in
          (
            ap (λ x. x.0) (sym end) ∙ fb,
            subst (Keeps p) (ap (λ x. x.1) end) (record {
              ready = keeps.ready;
              same = λ k. keeps.same k ∙ same k;
              writes = omega (arith, once, writes);
            }),
          )
    ]
