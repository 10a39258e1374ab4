-- ===== src/Queue/Workers.antt =====
-- The queue with its workers (`start`, `_worker` and `close` of investigation_queue.py), as the
-- steps that the event loop may interleave. A worker is idle in `_next`, busy with the item that it
-- took, leaving (its handler has ended, and it waits for the lock of the `finally`), or gone.
use uyuni_ai.Common.{ℕ, suc, ◌+◌, ◌≡◌, Bool, some, List, [], ◌∷◌, String, ◌==◌, if◌then◌else◌}
use uyuni_ai.Common.Dict.{Dict, lookup, erase}
use uyuni_ai.Queue.Heap.{Item, find}
use uyuni_ai.Queue.{
  InvestigationQueue, enqueue, cancel, next, takes, ends, settle, release, Outcome, close_begin,
  close_end,
}
use uyuni_ai.Queue.Ledger.{lost}

-- `leaving` says of each leaving worker how its handler ended; `aborted` counts the handlers that
-- were cancelled.
pub record Service (P : Type 0) : Type 0 where
  pub queue : InvestigationQueue P
  pub idle : ℕ
  pub busy : List (Item P)
  pub leaving : Dict Outcome
  pub gone : ℕ
  pub aborted : ℕ

-- after its `finally` a worker goes round its loop, unless its task was cancelled
abbrev pub rejoin : {P : Type 0} → Outcome → Service P → Service P
rejoin Outcome.aborted s = record s { gone = suc s.gone }
rejoin Outcome.returned s = record s { idle = suc s.idle }
rejoin Outcome.raised s = record s { idle = suc s.idle }

module _ {P : Type 0} where
  -- the busy workers but the one that has the fingerprint
  abbrev pub without : ℕ → List (Item P) → List (Item P)
  without f [] = []
  without f (x ∷ xs) = if x.fingerprint == f then xs else x ∷ without f xs

  pub data Step (s : Service P) : Service P → Type 0 where
    -- the polling loop calls a method
    enqueues :
        (f : ℕ) (severity : String) (payload : P)
        → Step s (record s { queue = (enqueue f severity payload s.queue).0 })
    cancels : (f : ℕ) → Step s (record s { queue = (cancel f s.queue).0 })
    closes : Step s (record s { queue = close_begin s.queue })
    closed : (timed_out : Bool) → Step s (record s { queue = (close_end timed_out s.queue).0 })
    -- an idle worker gets an item, or leaves its loop, or is cancelled while it waits
    takes_item :
        (x : Item P) (n : ℕ)
        → s.idle ≡ suc n
        → (next s.queue).1 ≡ takes x
        → Step s (record s { queue = (next s.queue).0; idle = n; busy = x ∷ s.busy })
    leaves :
        (n : ℕ)
        → s.idle ≡ suc n
        → (next s.queue).1 ≡ ends
        → Step s (record s { queue = (next s.queue).0; idle = n; gone = suc s.gone })
    is_cancelled : (n : ℕ) → s.idle ≡ suc n → Step s (record s { idle = n; gone = suc s.gone })
    -- the handler of a busy worker ends
    settles :
        (f : ℕ) (x : Item P) (outcome : Outcome)
        → find f s.busy ≡ some x
        → Step s (record s {
          queue = settle outcome s.queue;
          busy = without f s.busy;
          leaving = (f, outcome) ∷ s.leaving;
          aborted = s.aborted + lost outcome;
        })
    -- a leaving worker gets the lock
    releases :
        (f : ℕ) (outcome : Outcome)
        → lookup f s.leaving ≡ some outcome
        → Step s
            (rejoin outcome (record s { queue = release f s.queue; leaving = erase f s.leaving }))

  pub data Reach (s : Service P) : Service P → Type 0 where
    here : Reach s s
    next_step : {t u : Service P} → Reach s t → Step t u → Reach s u

-- the service once `start` has made its workers
abbrev pub started : {P : Type 0} → InvestigationQueue P → Service P
started q = record {
  queue = q;
  idle = q.worker_tasks;
  busy = [];
  leaving = [];
  gone = 0;
  aborted = 0;
}
