-- ===== src/Queue/Tests.antt =====
-- Runs of the investigation queue (investigation_queue.py).
use uyuni_ai.Common.{ℕ, ◌+◌, ◌≤◌, ◌≡◌, refl, inr, true, false, ◌&&◌, ◌||◌, [], ◌∷◌, is_some}
use uyuni_ai.Common.Lists.{length, mem}
use uyuni_ai.Common.Dict.{lookup}
use uyuni_ai.Common.Result.{ok, ◌>>=◌}
use uyuni_ai.Queue.Heap.{Item, find}
use uyuni_ai.Queue.{
  InvestigationQueue, notify_observer, empty_queue, init, start, priority_for_severity, enqueue,
  enqueue_new, admit, cancel, next, takes, settle, raised,
}
use uyuni_ai.Queue.Invariant.{IsValid}
use uyuni_ai.Queue.Preserves.{init-IsValid, enqueue-IsValid}
use uyuni_ai.Queue.Policy.{Answers, enqueue-Answers}
use uyuni_ai.Queue.Service.{Cancels, cancel-Cancels, Serves, next-Serves}
use uyuni_ai.Queue.Observer.{IsReported}
use uyuni_ai.Queue.Ledger.{disposed}
use uyuni_ai.Queue.Workers.{Service, Step, Reach, started}
use uyuni_ai.Queue.Soundness.{OnceItems}
use uyuni_ai.Queue.Reachable.{service_bounds}

-- room for two jobs, one worker, an observer
abbrev opened : InvestigationQueue ℕ
opened = notify_observer (empty_queue 2 1 true)

opened_made : init {P = ℕ} 2 1 true ≡ ok opened
unfolding init
opened_made = refl

opened-IsValid : IsValid opened
opened-IsValid = init-IsValid 2 1 true opened opened_made

-- one job is pending, then two
abbrev with_one : InvestigationQueue ℕ
with_one = (enqueue 7 "warning" 70 opened).0

abbrev with_two : InvestigationQueue ℕ
with_two = (enqueue 8 "info" 80 with_one).0

with_two-IsValid : IsValid with_two
with_two-IsValid =
    enqueue-IsValid 8 "info" 80 with_one (enqueue-IsValid 7 "warning" 70 opened opened-IsValid)

enqueue-Answers_example :
    let (r, a) = enqueue 9 "critical" 90 with_two in
    Answers with_two 9 (priority_for_severity "critical") 90 r a.evicted_fingerprint a.status
enqueue-Answers_example = enqueue-Answers 9 "critical" 90 with_two with_two-IsValid

next-Serves_example : let (r, n) = next with_two in Serves with_two r n
next-Serves_example = next-Serves with_two with_two-IsValid

cancel-Cancels_example : let (r, status) = cancel 8 with_two in Cancels with_two 8 r status
cancel-Cancels_example = cancel-Cancels 8 with_two with_two-IsValid

opened-IsReported : IsReported opened
unfolding notify_observer empty_queue
opened-IsReported = inr ([], refl)

abbrev running : InvestigationQueue ℕ
running = record opened { handler = true; worker_tasks = 1 }

running_made : (init 2 1 true >>= start) ≡ ok running
unfolding init start notify_observer empty_queue
running_made = refl

abbrev served : Service ℕ
served = record {
  queue = (enqueue 7 "warning" 70 running).0;
  idle = 1;
  busy = [];
  leaving = [];
  gone = 0;
  aborted = 0;
}

abbrev job : Item ℕ
job = record { priority = 1; sequence = 0; fingerprint = 7; payload = 70 }

job_comes : (next served.queue).1 ≡ takes job
unfolding next enqueue enqueue_new admit priority_for_severity notify_observer empty_queue
job_comes = refl

abbrev taken : Service ℕ
taken = record served { queue = (next served.queue).0; idle = 0; busy = job ∷ [] }

abbrev settled : Service ℕ
settled = record taken { queue = settle raised taken.queue; busy = []; leaving = (7, raised) ∷ [] }

history : Reach (started running) settled
history =
    Reach.next_step
      (Reach.next_step (Reach.next_step Reach.here (Step.enqueues 7 "warning" 70))
        (Step.takes_item job 0 refl job_comes))
      (Step.settles 7 job raised refl)

service_bounds_example :
    (length settled.queue.heap ≤ 2)
    × (length settled.queue.in_flight ≤ 1)
    × ((f : ℕ) → (mem f settled.queue.in_flight && is_some (find f settled.queue.heap)) ≡ false)
    × OnceItems settled.busy
    × ((f : ℕ)
        → mem f settled.queue.in_flight
          ≡ (is_some (find f settled.busy) || is_some (lookup f settled.leaving)))
    × (settled.queue.enqueued
        ≡ length settled.queue.heap
          + length settled.busy
          + disposed settled.queue
          + settled.aborted)
service_bounds_example = service_bounds 2 1 true running settled running_made history
