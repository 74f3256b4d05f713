-- ===== src/Scheduler/Replies.antt =====
-- The replies of the worker: one for each request, and a read returns what was written.
use mathlib.Core.List.{map-append, append_assoc, append-nil}
use buffer_pool.Base.{
  ℕ, ◌+◌, ◌<◌, ◌≡◌, refl, sym, ap, ◌∙◌, inl, inr, true, false, Option, none, some, List, [], ◌∷◌,
  ◌++◌, map, arith, ◌==◌, if◌then◌else◌, ==_self, Bool-cases, if_true, length, take, take_all,
}
use buffer_pool.Common.{page_size, u64_size}
use buffer_pool.Disk.FileIo.{Io}
use buffer_pool.Disk.{DiskManager, DiskResult, ok, io_error, read_page, write_page, delete_page}
use buffer_pool.Disk.Slots.{IsValid, Succeeds}
use buffer_pool.Disk.Contents.{contents, contents-write_page, contents-read_page}
use buffer_pool.Scheduler.{
  DiskRequest, Worker, read, write, delete, serve, perform, answered, reply_with, reply_read,
}
use buffer_pool.Scheduler.Order.{finish, finish-cons, finish-nil, finish_stopped}

abbrev pub promises : List (ℕ × Option (List ℕ)) → List ℕ
promises = map (λ r. r.0)

answered-running :
    (w : Worker) (n : ℕ) (answer : Option (Option (List ℕ))) (d : DiskManager)
    → (answered w n answer d).running ≡ true
    → (promises (answered w n answer d).replies ≡ promises w.replies ++ n ∷ [])
      × ((answered w n answer d).served ≡ w.served + 1)
answered-running w n none d h = cc
answered-running w n (some a) d h = (map-append (λ r. r.0) w.replies ((n, a) ∷ []), refl)

module _ (faults : ℕ → Io) where
  serve-running :
      (w : Worker) (r : DiskRequest)
      → (serve faults w r).running ≡ true
      → (promises (serve faults w r).replies ≡ promises w.replies ++ r.promise ∷ [])
        × ((serve faults w r).served ≡ w.served + 1)
  unfolding serve
  serve-running w r h = answered-running w r.promise _ _ h

  -- As long as no service panics, each request gets one reply, in the order sent.
  pub finish-promises :
      (sent : List DiskRequest) (w : Worker)
      → w.running ≡ true
      → (finish faults sent w).running ≡ true
      → (promises (finish faults sent w).replies ≡ promises w.replies ++ map (λ r. r.promise) sent)
        × ((finish faults sent w).served ≡ w.served + length sent)
  finish-promises [] w on h =
      rw (finish-nil faults w) (sym (append-nil (promises w.replies)), omega arith)
  finish-promises (r ∷ sent) w on h = elim (Bool-cases (serve faults w r).running) [
    | inr off ↦
        let bad : false ≡ true =
          sym off
          ∙ ap (λ (v : Worker). v.running)
              (sym (finish-cons faults r sent w on ∙ finish_stopped faults sent _ off))
          ∙ h in
        cc bad
    | inl still ↦
        let step = finish-cons faults r sent w on in
        let (here, counted) = serve-running w r still in
        let (rest, total) =
          finish-promises sent (serve faults w r) still
            (ap (λ (v : Worker). v.running) (sym step) ∙ h) in
        (
          ap (λ (v : Worker). promises v.replies) step
              ∙ rest
              ∙ ap (λ l. l ++ map (λ r. r.promise) sent) here
              ∙ append_assoc (promises w.replies) (r.promise ∷ []) (map (λ r. r.promise) sent),
          omega (arith, ap (λ (v : Worker). v.served) step, total, counted),
        )
  ]

  pub serve_ok :
      (w : Worker) (r : DiskRequest) (answer : Option (List ℕ)) (d : DiskManager)
      → perform r.type (faults w.served) w.disk_manager r.page_id r.bytes ≡ (some answer, d)
      → serve faults w r ≡ answered w r.promise (some answer) d
  unfolding serve
  serve_ok w r answer d e =
      ap (λ (x : Option (Option (List ℕ)) × DiskManager). answered w r.promise x.0 x.1) e

pub perform_write :
    (io : Io) (d : DiskManager) (page_id : ℕ) (bytes : List ℕ)
    → (write_page io d page_id bytes).0 ≡ ok tt
    → perform write io d page_id bytes ≡ (some (some bytes), (write_page io d page_id bytes).1)
unfolding perform
perform_write io d page_id bytes e =
    ap (λ result. (reply_with bytes result, (write_page io d page_id bytes).1)) e

pub perform_write_failed :
    (io : Io) (d d' : DiskManager) (page_id : ℕ) (bytes : List ℕ)
    → write_page io d page_id bytes ≡ (io_error, d')
    → perform write io d page_id bytes ≡ (some none, d')
unfolding perform
perform_write_failed io d d' page_id bytes e =
    ap (λ (x : DiskResult (Unit {0}) × DiskManager). (reply_with bytes x.0, x.1)) e

pub perform_delete :
    (io : Io) (d : DiskManager) (page_id : ℕ) (bytes : List ℕ)
    → (delete_page d page_id).0 ≡ ok tt
    → perform delete io d page_id bytes ≡ (some (some bytes), (delete_page d page_id).1)
unfolding perform
perform_delete io d page_id bytes e =
    ap (λ result. (reply_with bytes result, (delete_page d page_id).1)) e

pub perform_read :
    (io : Io) (d : DiskManager) (page_id : ℕ) (buffer page : List ℕ)
    → read_page io d page_id buffer ≡ (ok page, d)
    → perform read io d page_id buffer ≡ (some (some page), d)
unfolding perform
perform_read io d page_id buffer page e =
    ap (λ (x : DiskResult (List ℕ) × DiskManager). (reply_read x.0, x.1)) e

abbrev pub write_request : ℕ → List ℕ → ℕ → DiskRequest
write_request page_id bytes promise = record {
  type = write;
  page_id = page_id;
  bytes = bytes;
  promise = promise;
}

abbrev pub read_request : ℕ → List ℕ → ℕ → DiskRequest
read_request page_id buffer promise = record {
  type = read;
  page_id = page_id;
  bytes = buffer;
  promise = promise;
}

-- A write and then a read of the same page, without faults: the write is answered with its data,
-- and the read with the page that was written, whatever else the disk holds.
pub finish-write_read :
    (faults : ℕ → Io) (w : Worker) (page_id sender reader : ℕ) (bytes buffer : List ℕ)
    → ((n : ℕ) → Succeeds (faults n))
    → w.running ≡ true
    → IsValid w.disk_manager
    → length bytes ≡ page_size
    → length buffer ≡ page_size
    → w.disk_manager.num_writes + 1 < u64_size
    → (finish faults
        (write_request page_id bytes sender ∷ read_request page_id buffer reader ∷ [])
        w).replies
      ≡ (w.replies ++ (sender, some bytes) ∷ []) ++ (reader, some bytes) ∷ []
finish-write_read faults w p sender reader bytes buffer s on v lb lf counted =
    ap (λ (x : Worker). x.replies)
      (finish-cons faults first (second ∷ []) w on
        ∙ ap (finish faults (second ∷ [])) wrote
        ∙ finish-cons faults second [] w1 on
        ∙ finish-nil faults (serve faults w1 second)
        ∙ serve_ok faults w1 second (some bytes) d1 (
            perform_read (faults w1.served) d1 p buffer bytes (
              contents-read_page (faults w1.served) d1 p buffer bytes (s w1.served) lf wrote_page.1
                (wrote_page.2 p
                  ∙ if_true _ _ (==_self p)
                  ∙ ap some (take_all page_size bytes lb)))))
  where
    first : DiskRequest
    first = write_request p bytes sender

    second : DiskRequest
    second = read_request p buffer reader

    d1 : DiskManager
    d1 = (write_page (faults w.served) w.disk_manager p bytes).1

    wrote_page :
        ((write_page (faults w.served) w.disk_manager p bytes).0 ≡ ok tt)
        × IsValid d1
        × ((other : ℕ)
            → contents d1 other
              ≡ (if p == other then some (take page_size bytes) else contents w.disk_manager other))
    wrote_page =
        contents-write_page (faults w.served) w.disk_manager p bytes (s w.served) (omega arith)
          counted v

    w1 : Worker
    w1 = answered w sender (some (some bytes)) d1

    wrote : serve faults w first ≡ w1
    wrote =
        serve_ok faults w first (some bytes) d1
          (perform_write (faults w.served) w.disk_manager p bytes wrote_page.0)
