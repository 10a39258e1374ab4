-- ===== src/Queue.antt =====
-- uyuni_ai_agent/investigation_queue.py: the bounded priority queue of investigations. A method of
-- `InvestigationQueue` runs under its condition from the first line to the last, so it is one
-- function from the queue to the queue after it; `_worker` gives the lock up while the handler
-- runs and is cut into the steps `next`, `settle` and `release`.
pub mod Heap
pub mod Cases
pub mod Invariant
pub mod Preserves
pub mod Policy
pub mod Service
pub mod Observer
pub mod Ledger
pub mod Workers
pub mod Soundness
pub mod Reachable
pub mod Tests
use uyuni_ai.Common.{
  ℕ, suc, ◌+◌, min, Bool, true, false, not, Option, none, some, List, [], ◌∷◌, String, ltb, leb,
  on_list, on_option, if◌then◌else◌, is_some,
}
use uyuni_ai.Common.Lists.{length, mem, discard, add, is_nonempty}
use uyuni_ai.Common.Dict.{Dict, lookup, insert, erase}
use uyuni_ai.Common.Text.{lower_is}
use uyuni_ai.Common.Result.{Result, ok, err}
use Heap.{Item, heappush, heap_remove, heap_max}

pub data EnqueueStatus : Type 0 where
  enqueued coalesced in_flight rejected_full rejected_closed : EnqueueStatus

pub data CancelStatus : Type 0 where
  cancelled in_flight not_found : CancelStatus

pub record EnqueueResult : Type 0 where
  pub status : EnqueueStatus
  pub pending : ℕ
  pub in_flight : ℕ
  pub evicted_fingerprint : Option ℕ

pub record QueueStats : Type 0 where
  pub pending : ℕ
  pub in_flight : ℕ
  pub enqueued : ℕ
  pub coalesced : ℕ
  pub completed : ℕ
  pub failed : ℕ
  pub rejected : ℕ
  pub evicted : ℕ
  pub cancelled : ℕ

pub record ShutdownResult : Type 0 where
  pub drained : Bool
  pub abandoned : ℕ

-- `observed` is what the observer was called with, the newest first; `worker_tasks` counts the
-- tasks; `sequence` is the next value of `itertools.count()`.
pub record InvestigationQueue (P : Type 0) : Type 0 where
  pub max_pending : ℕ
  pub worker_count : ℕ
  pub heap : List (Item P)
  pub pending : Dict (Item P)
  pub in_flight : List ℕ
  pub sequence : ℕ
  pub handler : Bool
  pub observer : Bool
  pub observed : List QueueStats
  pub worker_tasks : ℕ
  pub accepting : Bool
  pub closing : Bool
  pub enqueued : ℕ
  pub coalesced : ℕ
  pub completed : ℕ
  pub failed : ℕ
  pub rejected : ℕ
  pub evicted : ℕ
  pub cancelled : ℕ

-- the exceptions of the constructor and of `start`
pub data QueueError : Type 0 where
  max_pending_below_one workers_below_one already_started queue_closed : QueueError

-- What `_next` does when it is woken: it waits on, returns None, or returns an item.
pub data Next (P : Type 0) : Type 0 where
  waits ends : Next P
  takes : Item P → Next P

-- how the handler ended: it returned, raised an exception, or its task was cancelled
pub data Outcome : Type 0 where
  returned raised aborted : Outcome

pub priority_for_severity : String → ℕ
priority_for_severity severity =
    if lower_is severity "critical"
    then 0
    else if lower_is severity "warning"
    then 1
    else if lower_is severity "info"
    then 2
    else 3

module _ {P : Type 0} where
  abbrev pub stats : InvestigationQueue P → QueueStats
  stats q = record {
    pending = length q.heap;
    in_flight = length q.in_flight;
    enqueued = q.enqueued;
    coalesced = q.coalesced;
    completed = q.completed;
    failed = q.failed;
    rejected = q.rejected;
    evicted = q.evicted;
    cancelled = q.cancelled;
  }

  -- An exception of the observer is logged and goes no further.
  pub notify_observer : InvestigationQueue P → InvestigationQueue P
  notify_observer q = if q.observer then record q { observed = stats q ∷ q.observed } else q

  pub empty_queue : ℕ → ℕ → Bool → InvestigationQueue P
  empty_queue max_pending workers observer = record {
    max_pending = max_pending;
    worker_count = workers;
    heap = [];
    pending = [];
    in_flight = [];
    sequence = 0;
    handler = false;
    observer = observer;
    observed = [];
    worker_tasks = 0;
    accepting = true;
    closing = false;
    enqueued = 0;
    coalesced = 0;
    completed = 0;
    failed = 0;
    rejected = 0;
    evicted = 0;
    cancelled = 0;
  }

  pub init : ℕ → ℕ → Bool → Result QueueError (InvestigationQueue P)
  init max_pending workers observer =
      if ltb max_pending 1
      then err max_pending_below_one
      else if ltb workers 1
      then err workers_below_one
      else ok (notify_observer (empty_queue max_pending workers observer))

  pub start : InvestigationQueue P → Result QueueError (InvestigationQueue P)
  start q =
      if ltb 0 q.worker_tasks
      then err already_started
      else if q.closing
      then err queue_closed
      else ok (record q { handler = true; worker_tasks = q.worker_count })

  abbrev pub result : InvestigationQueue P → EnqueueStatus → Option ℕ → EnqueueResult
  result q status evicted = record {
    status = status;
    pending = length q.heap;
    in_flight = length q.in_flight;
    evicted_fingerprint = evicted;
  }

  pub reject : InvestigationQueue P → EnqueueStatus → InvestigationQueue P × EnqueueResult
  reject q status =
      let q' : InvestigationQueue P = record q { rejected = q.rejected + 1 } in
      (notify_observer q', result q' status none)

  -- the branch of `enqueue` where the fingerprint is pending already
  pub coalesce : ℕ → ℕ → P → Item P → InvestigationQueue P → InvestigationQueue P × EnqueueResult
  coalesce fingerprint priority payload existing q = (notify_observer q', result q' coalesced none)
    where
      replacement : Item P
      replacement = record {
        priority = min priority existing.priority;
        sequence = existing.sequence;
        fingerprint = fingerprint;
        payload = payload;
      }

      q' : InvestigationQueue P
      q' = record q {
        heap = heappush replacement (heap_remove existing q.heap);
        pending = insert fingerprint replacement q.pending;
        coalesced = q.coalesced + 1;
      }

  -- the end of `enqueue`, after any eviction
  pub admit : ℕ → ℕ → P → Option ℕ → InvestigationQueue P → InvestigationQueue P × EnqueueResult
  admit fingerprint priority payload evicted q = (notify_observer q', result q' enqueued evicted)
    where
      item : Item P
      item = record {
        priority = priority;
        sequence = q.sequence;
        fingerprint = fingerprint;
        payload = payload;
      }

      q' : InvestigationQueue P
      q' = record q {
        heap = heappush item q.heap;
        pending = insert fingerprint item q.pending;
        sequence = q.sequence + 1;
        enqueued = q.enqueued + 1;
      }

  pub evict : Item P → InvestigationQueue P → InvestigationQueue P
  evict worst q = record q {
    heap = heap_remove worst q.heap;
    pending = erase worst.fingerprint q.pending;
    evicted = q.evicted + 1;
  }

  -- `worst` is the greatest item of the heap `x ∷ xs`
  pub enqueue_full :
      ℕ → ℕ → P → Item P → InvestigationQueue P → InvestigationQueue P × EnqueueResult
  enqueue_full fingerprint priority payload worst q =
      if leb worst.priority priority
      then reject q rejected_full
      else admit fingerprint priority payload (some worst.fingerprint) (evict worst q)

  -- With no item pending the queue is not full, since `max_pending` is at least 1.
  pub enqueue_new : ℕ → ℕ → P → InvestigationQueue P → InvestigationQueue P × EnqueueResult
  enqueue_new fingerprint priority payload q =
      on_list q.heap (admit fingerprint priority payload none q) λ x xs.
        if leb q.max_pending (length (x ∷ xs))
        then enqueue_full fingerprint priority payload (heap_max x xs) q
        else admit fingerprint priority payload none q

  pub enqueue : ℕ → String → P → InvestigationQueue P → InvestigationQueue P × EnqueueResult
  enqueue fingerprint severity payload q =
      let priority = priority_for_severity severity in
      if not q.accepting
      then reject q rejected_closed
      else if mem fingerprint q.in_flight
      then (q, result q EnqueueStatus.in_flight none)
      else on_option (lookup fingerprint q.pending) (enqueue_new fingerprint priority payload q)
          (λ existing. coalesce fingerprint priority payload existing q)

  pub withdraw : ℕ → Item P → InvestigationQueue P → InvestigationQueue P
  withdraw fingerprint item q = record q {
    pending = erase fingerprint q.pending;
    heap = heap_remove item q.heap;
    cancelled = q.cancelled + 1;
  }

  pub cancel : ℕ → InvestigationQueue P → InvestigationQueue P × CancelStatus
  cancel fingerprint q =
      on_option (lookup fingerprint q.pending)
        (q, if mem fingerprint q.in_flight then CancelStatus.in_flight else not_found)
        (λ item. (notify_observer (withdraw fingerprint item q), cancelled))

  pub take_item : Item P → List (Item P) → InvestigationQueue P → InvestigationQueue P
  take_item item rest q = record q {
    heap = rest;
    pending = erase item.fingerprint q.pending;
    in_flight = add item.fingerprint q.in_flight;
  }

  pub next : InvestigationQueue P → InvestigationQueue P × Next P
  next q =
      on_list q.heap (q, if q.closing then ends else waits)
        (λ item rest. (notify_observer (take_item item rest q), takes item))

  -- the counters that `_worker` moves when the handler ends; without a handler it raises
  pub settle : Outcome → InvestigationQueue P → InvestigationQueue P
  settle outcome q = elim outcome [
    | aborted ↦ q
    | returned ↦
        if q.handler
        then record q { completed = q.completed + 1 }
        else record q { failed = q.failed + 1 }
    | raised ↦ record q { failed = q.failed + 1 }
  ]

  -- the `finally` of `_worker`
  pub release : ℕ → InvestigationQueue P → InvestigationQueue P
  release fingerprint q = notify_observer (record q { in_flight = discard fingerprint q.in_flight })

  -- the first part of `close`, up to the wait for the workers
  pub close_begin : InvestigationQueue P → InvestigationQueue P
  close_begin q = record q { accepting = false; closing = true }

  -- `close` where no worker was started
  pub close_idle : InvestigationQueue P → InvestigationQueue P × ShutdownResult
  close_idle q =
      (close_begin q, record { drained = not (is_nonempty q.heap); abandoned = length q.heap })

  -- the last part of `close`: the workers ended, or the grace period did
  pub close_end : Bool → InvestigationQueue P → InvestigationQueue P × ShutdownResult
  close_end timed_out q = (
    record q { worker_tasks = 0 },
    if timed_out
        then record { drained = false; abandoned = length q.heap + length q.in_flight }
        else record { drained = true; abandoned = 0 },
  )
