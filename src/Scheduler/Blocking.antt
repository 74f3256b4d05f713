-- ===== src/Scheduler/Blocking.antt =====
-- A client of the scheduler that sends one request and waits for its answer, while no other
-- request is in the queue: `schedule(..)` and then `rx.recv().unwrap()`.
use buffer_pool.Base.{ℕ, ◌≡◌, ap, ◌∙◌, true, Option, none, some, List, if◌then◌else◌, if_true}
use buffer_pool.Disk.FileIo.{Io}
use buffer_pool.Disk.{DiskManager}
use buffer_pool.Scheduler.{DiskRequestType, Worker, perform, answered}

-- The promise is a channel of its own, numbered by the request. If the worker panics, its end of
-- the channel is dropped, and so `recv` fails.
abbrev received :
    Worker → Option (Option (List ℕ)) → DiskManager → Option (Option (List ℕ) × Worker)
received w none d = none
received w (some answer) d = some (answer, answered w w.served (some answer) d)

pub ask : (ℕ → Io) → Worker → DiskRequestType → ℕ → List ℕ → Option (Option (List ℕ) × Worker)
ask faults w type page_id bytes =
    let (answer, d) = perform type (faults w.served) w.disk_manager page_id bytes in
    if w.running then received w answer d else none

-- Where no system call fails, a read is answered with the page, and a write with its data.
module _ (faults : ℕ → Io) (w : Worker) (on : w.running ≡ true) (page_id : ℕ) where
  pub ask_answer :
      (type : DiskRequestType) (bytes : List ℕ) (answer : Option (List ℕ)) (d : DiskManager)
      → perform type (faults w.served) w.disk_manager page_id bytes ≡ (some answer, d)
      → ask faults w type page_id bytes ≡ some (answer, answered w w.served (some answer) d)
  unfolding ask
  ask_answer type bytes answer d e =
      if_true _ none on ∙ ap (λ (x : Option (Option (List ℕ)) × DiskManager). received w x.0 x.1) e
