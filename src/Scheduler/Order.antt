-- ===== src/Scheduler/Order.antt =====
-- However sends and the worker's rounds interleave, the requests are served in the order sent.
use mathlib.Core.List.{map-append}
use buffer_pool.Base.{
  ℕ, ◌≡◌, refl, sym, ap, subst, ◌∙◌, inl, inr, true, false, none, some, List, [], ◌∷◌, ◌++◌, map,
  arith, if◌then◌else◌, Bool-cases, of_some, if_true, if_false,
}
use buffer_pool.Disk.FileIo.{Io}
use buffer_pool.Scheduler.{
  DiskRequest, DiskScheduler, Worker, serve, work, work_loop, take_message, schedule,
  drop_scheduler,
}

module _ (faults : ℕ → Io) where
  -- The worker's loop, if it still runs.
  abbrev pub finish : List DiskRequest → Worker → Worker
  finish waiting w = if w.running then work_loop faults (map some waiting) w else w

  pub finish-cons :
      (r : DiskRequest) (waiting : List DiskRequest) (w : Worker)
      → w.running ≡ true
      → finish (r ∷ waiting) w ≡ finish waiting (serve faults w r)
  unfolding work_loop
  finish-cons r waiting w on = if_true _ _ on

  pub finish-nil : (w : Worker) → finish [] w ≡ w
  unfolding work_loop
  finish-nil w = elim (Bool-cases w.running) [
    | inl on ↦ if_true _ _ on
    | inr off ↦ if_false _ _ off
  ]

  pub finish_stopped : (l : List DiskRequest) (w : Worker) → w.running ≡ false → finish l w ≡ w
  finish_stopped l w off = if_false _ _ off

  -- Serving one more request after a batch of requests.
  finish-snoc :
      (waiting : List DiskRequest) (r : DiskRequest) (w : Worker)
      → finish (waiting ++ r ∷ []) w ≡ finish (r ∷ []) (finish waiting w)
  finish-snoc [] r w = ap (finish (r ∷ [])) (sym (finish-nil w))
  finish-snoc (x ∷ l) r w = elim (Bool-cases w.running) [
    | inr off ↦
        finish_stopped (x ∷ l ++ r ∷ []) w off
        ∙ sym (ap (finish (r ∷ [])) (finish_stopped (x ∷ l) w off) ∙ finish_stopped (r ∷ []) w off)
    | inl on ↦
        finish-cons x (l ++ r ∷ []) w on
        ∙ finish-snoc l r (serve faults w x)
        ∙ ap (finish (r ∷ [])) (sym (finish-cons x l w on))
  ]

  -- What was sent to a scheduler, and where it stands, under any interleaving.
  pub data History (w : Worker) : List DiskRequest → DiskScheduler → Type 0 where
    start : History w [] (record { queue = []; worker = w })
    sends :
        {sent : List DiskRequest} {s s' : DiskScheduler} {all : List DiskRequest} (r : DiskRequest)
        → History w sent s
        → schedule s r ≡ some s'
        → all ≡ sent ++ r ∷ []
        → History w all s'
    works :
        {sent : List DiskRequest} {s s' : DiskScheduler}
        → History w sent s
        → s' ≡ take_message faults s
        → History w sent s'

  -- The queue holds requests only, since `None` is sent by `drop` alone.
  pub record Pending (w : Worker) (sent : List DiskRequest) (s : DiskScheduler) : Type 0 where
    pub waiting : List DiskRequest
    pub queued : s.queue ≡ map some waiting
    pub same : finish waiting s.worker ≡ finish sent w

  took :
      (w v : Worker) (sent waiting : List DiskRequest)
      → v.running ≡ true
      → finish waiting v ≡ finish sent w
      → Pending w sent (work faults v (map some waiting))
  unfolding work
  took w v sent [] on e = record { waiting = []; queued = refl; same = e }
  took w v sent (r ∷ waiting) on e = record {
    waiting = waiting;
    queued = refl;
    same = sym (finish-cons r waiting v on) ∙ e;
  }

  Pending-works :
      (w : Worker) (sent : List DiskRequest) (s : DiskScheduler)
      → Pending w sent s
      → Pending w sent (take_message faults s)
  unfolding take_message
  Pending-works w sent s p = elim (Bool-cases s.worker.running) [
    | inr off ↦ subst (Pending w sent) (sym (if_false _ _ off)) p
    | inl on ↦
        subst (Pending w sent) (sym (if_true _ _ on ∙ ap (work faults s.worker) p.queued))
          (took w s.worker sent p.waiting on p.same)
  ]

  Pending-sends :
      (w : Worker) (sent : List DiskRequest) (s s' : DiskScheduler) (r : DiskRequest)
      → Pending w sent s
      → schedule s r ≡ some s'
      → Pending w (sent ++ r ∷ []) s'
  unfolding schedule
  Pending-sends w sent s s' r p e = elim (Bool-cases s.worker.running) [
    | inr off ↦ absurd (ground (arith, off, e))
    | inl on ↦ of_some (Pending w (sent ++ r ∷ [])) (if_true _ _ on) e (record {
      waiting = p.waiting ++ r ∷ [];
      queued = ap (λ q. q ++ some r ∷ []) p.queued ∙ sym (map-append some p.waiting (r ∷ []));
      same =
          finish-snoc p.waiting r s.worker
          ∙ ap (finish (r ∷ [])) p.same
          ∙ sym (finish-snoc sent r w);
    })
  ]

  History-Pending :
      {w : Worker} {sent : List DiskRequest} {s : DiskScheduler}
      → History w sent s
      → Pending w sent s
  History-Pending start = record { waiting = []; queued = refl; same = refl }
  History-Pending {w} {s = s'} (sends {sent} {s} {all = all} r h e q) =
      subst (λ l. Pending w l s') (sym q) (Pending-sends w sent s s' r (History-Pending h) e)
  History-Pending {w} {sent} (works {s = s} h e) =
      subst (Pending w sent) (sym e) (Pending-works w sent s (History-Pending h))

  stopped_same : (v : Worker) → v.running ≡ false → v ≡ record v { running = false }
  stopped_same v e = λ i. record v { running = e i }

  work_loop-stop :
      (l : List DiskRequest) (w : Worker)
      → w.running ≡ true
      → work_loop faults (map some l ++ none ∷ []) w ≡ record (finish l w) { running = false }
  unfolding work_loop
  work_loop-stop [] w on = ap (λ (v : Worker). record v { running = false }) (sym (finish-nil w))
  work_loop-stop (r ∷ l) w on = elim (Bool-cases (serve faults w r).running) [
    | inl still ↦
        if_true _ _ still
        ∙ work_loop-stop l (serve faults w r) still
        ∙ ap (λ (v : Worker). record v { running = false }) (sym (finish-cons r l w on))
    | inr stopped ↦
        if_false _ _ stopped
        ∙ stopped_same (serve faults w r) stopped
        ∙ ap (λ (v : Worker). record v { running = false })
            (sym (finish-cons r l w on ∙ finish_stopped l (serve faults w r) stopped))
  ]

-- Whatever the interleaving of sends and of the worker's rounds, dropping the scheduler leaves the
-- disk and the replies as they are after serving all requests in the order in which they were sent
-- (up to the one whose service panicked, if one did), with the worker stopped.
pub drop_scheduler-in_order :
    (faults : ℕ → Io) (w : Worker) (sent : List DiskRequest) (s : DiskScheduler)
    → History faults w sent s
    → drop_scheduler faults s ≡ record (finish faults sent w) { running = false }
unfolding drop_scheduler
drop_scheduler-in_order faults w sent s h =
    let p = History-Pending faults h in
    let stop = λ (v : Worker). record v { running = false } in
    elim (Bool-cases s.worker.running) [
      | inr off ↦
          if_false _ _ off
          ∙ stopped_same faults s.worker off
          ∙ ap stop (sym (finish_stopped faults p.waiting s.worker off) ∙ p.same)
      | inl on ↦
          if_true _ _ on
          ∙ ap (λ q. work_loop faults (q ++ none ∷ []) s.worker) p.queued
          ∙ work_loop-stop faults p.waiting s.worker on
          ∙ ap stop p.same
    ]
