-- ===== src/Scheduler.antt =====
-- src/disk_scheduler.rs: a queue of requests and one worker thread that serves them in order.
--
-- A channel is a list whose head is the oldest message. A promise is the number of the reply
-- channel that the sender keeps. `faults n` tells which system calls of the n-th request fail.
pub mod Order
pub mod Replies
pub mod Blocking
use buffer_pool.Base.{
  ℕ, zero, suc, ◌+◌, ◌-◌, ◌*◌, ◌/◌, ◌%◌, ◌^◌, ◌≤◌, ◌<◌, ◌≡◌, refl, sym, ap, ap₂, subst, ◌∙◌, ◌≢◌,
  ◌↔◌, ◌⊎◌, inl, inr, Bool, true, false, not, ◌&&◌, ◌||◌, Option, none, some, List, [], ◌∷◌, ◌++◌,
  map, Mem, Nodup, Perm, arith, dec_lt, dec_le, ℕ_discrete, ltb, leb, ◌==◌, if◌then◌else◌, ltb→lt,
  lt→ltb, leb→le, ==_iff, ==_self, Bool-cases, Option-cases, ◌>>=◌, ◌>>◌, require, List-cases,
  not-ltb, eq_of_==, ne_of_==, ==_of_ne, >>=-eq-some, some_inj, of_some, if_true, if_false, length,
  get_elem?, get_or, set, take, drop, replicate, remove_at, pop_back, retain, any, length-append,
  length-set, get_elem?-set_self, get_elem?-set_ne, length-take, length-drop, length-replicate,
  take-length, take_all, length-retain-le, length-remove_at, length-pop_back, contains, insert_set,
  remove_set, drop_all, length-map,
}
use buffer_pool.Disk.FileIo.{Io}
use buffer_pool.Disk.{
  DiskManager, DiskResult, ok, io_error, panic, read_page, write_page, delete_page,
}

pub data DiskRequestType : Type 0 where
  read write delete : DiskRequestType

pub record DiskRequest : Type 0 where
  pub type : DiskRequestType
  pub page_id : ℕ
  pub bytes : List ℕ
  pub promise : ℕ

-- What the worker thread has done so far. It is `running` until its loop ends or it panics.
pub record Worker : Type 0 where
  pub disk_manager : DiskManager
  pub running : Bool
  pub served : ℕ
  pub replies : List (ℕ × Option (List ℕ))

-- Messages that wait when the worker ends are never read.
pub record DiskScheduler : Type 0 where
  pub queue : List (Option DiskRequest)
  pub worker : Worker

unfoldable pub new : DiskManager → DiskScheduler
new d = record {
  queue = [];
  worker = record { disk_manager = d; running = true; served = 0; replies = [] };
}

-- What the worker sends back: the data on `Ok`, nothing on `Err`. `none` is a panic of the worker.
abbrev reply_with : List ℕ → DiskResult (Unit {0}) → Option (Option (List ℕ))
reply_with bytes (ok _) = some (some bytes)
reply_with bytes io_error = some none
reply_with bytes panic = none

abbrev reply_read : DiskResult (List ℕ) → Option (Option (List ℕ))
reply_read (ok bytes) = some (some bytes)
reply_read io_error = some none
reply_read panic = none

pub perform :
    DiskRequestType → Io → DiskManager → ℕ → List ℕ → Option (Option (List ℕ)) × DiskManager
perform read io d page_id bytes =
    let (result, d') = read_page io d page_id bytes in (reply_read result, d')
perform write io d page_id bytes =
    let (result, d') = write_page io d page_id bytes in (reply_with bytes result, d')
perform delete io d page_id bytes =
    let (result, d') = delete_page d page_id in (reply_with bytes result, d')

abbrev pub answered : Worker → ℕ → Option (Option (List ℕ)) → DiskManager → Worker
answered w promise none d = record w { disk_manager = d; running = false }
answered w promise (some answer) d = record w {
  disk_manager = d;
  served = w.served + 1;
  replies = w.replies ++ (promise, answer) ∷ [];
}

module _ (faults : ℕ → Io) where
  -- One round of the worker's loop, for a request that it took from the queue.
  pub serve : Worker → DiskRequest → Worker
  unfolding perform
  serve w request =
      let (answer, d) =
        perform request.type (faults w.served) w.disk_manager request.page_id request.bytes in
      answered w request.promise answer d

  -- The loop ends at `None`, and when a request panics.
  pub work_loop : List (Option DiskRequest) → Worker → Worker
  unfolding serve
  work_loop [] w = w
  work_loop (none ∷ rest) w = record w { running = false }
  work_loop (some request ∷ rest) w =
      let w' = serve w request in let w'' = work_loop rest w' in if w'.running then w'' else w'

  -- The worker takes one message, if it runs and there is one.
  work : Worker → List (Option DiskRequest) → DiskScheduler
  unfolding serve
  work w [] = record { queue = []; worker = w }
  work w (none ∷ rest) = record { queue = rest; worker = record w { running = false } }
  work w (some request ∷ rest) = record { queue = rest; worker = serve w request }

  pub take_message : DiskScheduler → DiskScheduler
  unfolding work
  take_message s = if s.worker.running then work s.worker s.queue else s

-- `send(..).unwrap()` panics when the worker is gone.
unfoldable pub schedule : DiskScheduler → DiskRequest → Option DiskScheduler
schedule s request =
    if s.worker.running then some (record s { queue = s.queue ++ some request ∷ [] }) else none

-- `drop`: `None` is sent, and the worker is joined, which runs it to its end.
pub drop_scheduler : (ℕ → Io) → DiskScheduler → Worker
unfolding work_loop
drop_scheduler faults s =
    let w = work_loop faults (s.queue ++ none ∷ []) s.worker in
    if s.worker.running then w else s.worker
