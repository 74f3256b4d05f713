-- ===== src/Tests/Scheduler.antt =====
-- src/disk_scheduler.rs on a disk with two pages.
use buffer_pool.Base.{
  ℕ, ◌+◌, ◌≡◌, refl, ap, ◌∙◌, true, false, some, [], ◌∷◌, ◌++◌, map, arith, length,
}
use buffer_pool.Disk.FileIo.{Io}
use buffer_pool.Scheduler.{
  Worker, DiskRequest, DiskScheduler, schedule, take_message, drop_scheduler, serve,
}
use buffer_pool.Scheduler.Order.{
  History, start, sends, works, finish, finish-cons, finish-nil, drop_scheduler-in_order,
}
use buffer_pool.Scheduler.Replies.{
  finish-promises, finish-write_read, write_request, read_request, promises, perform_write,
  serve_ok,
}
use buffer_pool.Frame.{zero_page, length-zero_page}
use buffer_pool.Disk.Contents.{contents-write_page}
use buffer_pool.Tests.Disk.{no_faults, no_faults-Succeeds, two_pages, two_pages-IsValid}

abbrev pub never : ℕ → Io
never _ = no_faults

abbrev pub idle : Worker
idle = record { disk_manager = two_pages; running = true; served = 0; replies = [] }

abbrev request : DiskRequest
request = write_request 7 zero_page 1

abbrev sent_one : DiskScheduler
sent_one = record { queue = some request ∷ []; worker = idle }

one_sent : schedule (record { queue = []; worker = idle }) request ≡ some sent_one
unfolding schedule
one_sent = refl

sent_and_worked : History never idle (request ∷ []) (take_message never sent_one)
sent_and_worked = works (sends request start one_sent refl) refl

drop_scheduler-in_order_example :
    drop_scheduler never (take_message never sent_one)
    ≡ record (finish never (request ∷ []) idle) { running = false }
drop_scheduler-in_order_example =
    drop_scheduler-in_order never idle (request ∷ []) (take_message never sent_one) sent_and_worked

finish-write_read_example :
    (finish never (write_request 7 zero_page 1 ∷ read_request 7 zero_page 2 ∷ []) idle).replies
    ≡ (idle.replies ++ (1, some zero_page) ∷ []) ++ (2, some zero_page) ∷ []
finish-write_read_example =
    finish-write_read never idle 7 1 2 zero_page zero_page (λ n. no_faults-Succeeds) refl
      two_pages-IsValid length-zero_page length-zero_page (omega arith)

finish_write : (finish never (write_request 7 zero_page 0 ∷ []) idle).running ≡ true
finish_write =
    ap (λ (x : Worker). x.running)
      (finish-cons never (write_request 7 zero_page 0) [] idle refl
        ∙ finish-nil never (serve never idle (write_request 7 zero_page 0))
        ∙ serve_ok never idle (write_request 7 zero_page 0) (some zero_page) _ (
            perform_write no_faults two_pages 7 zero_page
              (contents-write_page no_faults two_pages 7 zero_page no_faults-Succeeds
                (omega (arith, length-zero_page)) (omega arith) two_pages-IsValid).0))

finish-promises_example :
    (promises (finish never (write_request 7 zero_page 0 ∷ []) idle).replies
      ≡ promises idle.replies ++ map (λ r. r.promise) (write_request 7 zero_page 0 ∷ []))
    × ((finish never (write_request 7 zero_page 0 ∷ []) idle).served
        ≡ idle.served + length (write_request 7 zero_page 0 ∷ []))
finish-promises_example =
    finish-promises never (write_request 7 zero_page 0 ∷ []) idle refl finish_write
