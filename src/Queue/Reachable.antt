-- ===== src/Queue/Reachable.antt =====
-- Every interleaving of the polling loop and the workers (investigation_queue.py) is sound.
use uyuni_ai.Common.{
  ℕ, suc, ◌+◌, ◌≤◌, ◌≡◌, refl, sym, ap, ◌∙◌, subst, Bool, true, false, ◌&&◌, ◌||◌, some, [], ◌∷◌,
  arith, is_some,
}
use uyuni_ai.Common.Lists.{length, mem, mem-discard}
use uyuni_ai.Common.Dict.{lookup, erase, lookup-erase}
use uyuni_ai.Common.Result.{ok, ◌>>=◌}
use uyuni_ai.Queue.Heap.{Item, find}
use uyuni_ai.Queue.{
  InvestigationQueue, init, empty_queue, start, notify_observer, close_begin, close_end, next, ends,
  settle, release, Outcome, returned, raised, aborted,
}
use uyuni_ai.Queue.Invariant.{IsValid}
use uyuni_ai.Queue.Preserves.{settle-IsValid, release-IsValid}
use uyuni_ai.Queue.Service.{Serves, next-Serves}
use uyuni_ai.Queue.Ledger.{
  lost, disposed, Accounts, enqueue-Accounts, cancel-Accounts, next-Accounts, settle_counts,
  release_counts,
}
use uyuni_ai.Queue.Workers.{
  Service, rejoin, without, Step, enqueues, cancels, closes, closed, takes_item, leaves,
  is_cancelled, settles, releases, Reach, here, next_step, started,
}
use uyuni_ai.Queue.Soundness.{
  Once-discard, length-discard, OnceKeys-erase, length-erase, find-without, OnceItems-without,
  length-without, IsSound, OnceItems, enqueues-IsSound, cancels-IsSound, closes-IsSound,
  closed-IsSound, takes_item-IsSound,
}

module _ {P : Type 0} where
  leaves-IsSound :
      (s : Service P) (n : ℕ)
      → s.idle ≡ suc n
      → (next s.queue).1 ≡ ends
      → IsSound s
      → IsSound (record s { queue = (next s.queue).0; idle = n; gone = suc s.gone })
  leaves-IsSound s n i e h =
      let same : (next s.queue).0 ≡ s.queue =
        (subst (Serves s.queue (next s.queue).0) e (next-Serves s.queue h.valid)).2 in
      let left : IsSound (record s { idle = n; gone = suc s.gone }) = record {
        valid = h.valid;
        held = h.held;
        apart = h.apart;
        flight_once = h.flight_once;
        busy_once = h.busy_once;
        leaving_once = h.leaving_once;
        counted = h.counted;
        crew = omega (arith, h.crew);
        ledger = h.ledger;
      } in
      subst (λ q. IsSound (record s { queue = q; idle = n; gone = suc s.gone })) (sym same) left

  is_cancelled-IsSound :
      (s : Service P) (n : ℕ)
      → s.idle ≡ suc n
      → IsSound s
      → IsSound (record s { idle = n; gone = suc s.gone })
  is_cancelled-IsSound s n i h = record {
    valid = h.valid;
    held = h.held;
    apart = h.apart;
    flight_once = h.flight_once;
    busy_once = h.busy_once;
    leaving_once = h.leaving_once;
    counted = h.counted;
    crew = omega (arith, h.crew);
    ledger = h.ledger;
  }

  settles-IsSound :
      (s : Service P) (f : ℕ) (x : Item P) (outcome : Outcome)
      → find f s.busy ≡ some x
      → IsSound s
      → IsSound (record s {
        queue = settle outcome s.queue;
        busy = without f s.busy;
        leaving = (f, outcome) ∷ s.leaving;
        aborted = s.aborted + lost outcome;
      })
  settles-IsSound s f x outcome e h =
      let c = settle_counts outcome s.queue in
      let shorter = length-without f x s.busy e in
      record {
        valid = settle-IsValid outcome s.queue h.valid;
        held = λ g.
            ap (mem g) c.2
            ∙ h.held g
            ∙ rw (find-without f g s.busy h.busy_once) (ground (arith, h.apart g));
        apart = λ g. rw (find-without f g s.busy h.busy_once) (ground (arith, h.apart g));
        flight_once = rw (c.2) h.flight_once;
        busy_once = OnceItems-without f s.busy h.busy_once;
        leaving_once = (ground (arith, h.apart f), h.leaving_once);
        counted = omega (arith, ap length c.2, shorter, h.counted);
        crew = omega (arith, shorter, h.crew, c.4);
        ledger = omega (arith, shorter, h.ledger, c.0, c.3, ap length c.1);
      }

  -- a leaving worker, wherever it goes
  freed-IsSound :
      (s : Service P) (f idle gone : ℕ) (outcome : Outcome)
      → lookup f s.leaving ≡ some outcome
      → IsSound s
      → idle + gone ≡ suc (s.idle + s.gone)
      → IsSound (record s {
        queue = release f s.queue;
        leaving = erase f s.leaving;
        idle = idle;
        gone = gone;
      })
  freed-IsSound s f idle gone outcome e h move =
      let c = release_counts f s.queue in
      let had : mem f s.queue.in_flight ≡ true = ground (arith, h.held f) in
      let fewer = length-discard f s.queue.in_flight h.flight_once had in
      let shorter = length-erase f outcome s.leaving h.leaving_once e in
      record {
        valid = release-IsValid f s.queue h.valid;
        held = λ g.
            ap (mem g) c.2
            ∙ mem-discard f g s.queue.in_flight
            ∙ rw (lookup-erase f g s.leaving) (ground (arith, h.held g, h.apart g));
        apart = λ g. rw (lookup-erase f g s.leaving) (ground (arith, h.apart g));
        flight_once = rw c.2 (Once-discard f s.queue.in_flight h.flight_once);
        busy_once = h.busy_once;
        leaving_once = OnceKeys-erase f s.leaving h.leaving_once;
        counted = omega (arith, ap length c.2, fewer, shorter, h.counted);
        crew = omega (arith, shorter, h.crew, c.4);
        ledger = omega (arith, h.ledger, c.0, c.3, ap length c.1);
      }

  releases-IsSound :
      (s : Service P) (f : ℕ) (outcome : Outcome)
      → lookup f s.leaving ≡ some outcome
      → IsSound s
      → IsSound
          (rejoin outcome (record s { queue = release f s.queue; leaving = erase f s.leaving }))
  releases-IsSound s f returned e h =
      freed-IsSound s f (suc s.idle) s.gone returned e h (omega arith)
  releases-IsSound s f raised e h = freed-IsSound s f (suc s.idle) s.gone raised e h (omega arith)
  releases-IsSound s f aborted e h = freed-IsSound s f s.idle (suc s.gone) aborted e h (omega arith)

  -- Every step of the polling loop or of a worker keeps the service sound.
  pub Step-IsSound : {s t : Service P} → Step s t → IsSound s → IsSound t
  Step-IsSound {s} (enqueues f severity payload) h = enqueues-IsSound s f severity payload h
  Step-IsSound {s} (cancels f) h = cancels-IsSound s f h
  Step-IsSound {s} closes h = closes-IsSound s h
  Step-IsSound {s} (closed timed_out) h = closed-IsSound s timed_out h
  Step-IsSound {s} (takes_item x n i e) h = takes_item-IsSound s x n i e h
  Step-IsSound {s} (leaves n i e) h = leaves-IsSound s n i e h
  Step-IsSound {s} (is_cancelled n i) h = is_cancelled-IsSound s n i h
  Step-IsSound {s} (settles f x outcome e) h = settles-IsSound s f x outcome e h
  Step-IsSound {s} (releases f outcome e) h = releases-IsSound s f outcome e h

  pub Reach-IsSound : {s t : Service P} → IsSound s → Reach s t → IsSound t
  Reach-IsSound h here = h
  Reach-IsSound h (next_step r st) = Step-IsSound st (Reach-IsSound h r)

  -- the bounds that the queue was made with
  abbrev SameBounds : InvestigationQueue P → InvestigationQueue P → Type 0
  SameBounds q r = (r.max_pending ≡ q.max_pending) × (r.worker_count ≡ q.worker_count)

  close-SameBounds :
      (q : InvestigationQueue P) (b : Bool)
      → SameBounds q (close_begin q) × SameBounds q (close_end b q).0
  unfolding close_begin close_end
  close-SameBounds q b = ((refl, refl), (refl, refl))

  Accounts-SameBounds : {n : ℕ} {q r : InvestigationQueue P} → Accounts n q r → SameBounds q r
  Accounts-SameBounds a = (a.same_bound, a.same_workers)

  released-SameBounds :
      (s : Service P) (f : ℕ) (outcome : Outcome)
      → SameBounds s.queue
          (rejoin outcome
            (record s { queue = release f s.queue; leaving = erase f s.leaving })).queue
  released-SameBounds s f returned = let c = release_counts f s.queue in (c.5, c.4)
  released-SameBounds s f raised = let c = release_counts f s.queue in (c.5, c.4)
  released-SameBounds s f aborted = let c = release_counts f s.queue in (c.5, c.4)

  Step-SameBounds : {s t : Service P} → Step s t → IsSound s → SameBounds s.queue t.queue
  Step-SameBounds {s} (enqueues f severity payload) h =
      Accounts-SameBounds (enqueue-Accounts f severity payload s.queue h.valid)
  Step-SameBounds {s} (cancels f) h = Accounts-SameBounds (cancel-Accounts f s.queue h.valid)
  Step-SameBounds {s} closes h = (close-SameBounds s.queue true).0
  Step-SameBounds {s} (closed timed_out) h = (close-SameBounds s.queue timed_out).1
  Step-SameBounds {s} (takes_item x n i e) h = Accounts-SameBounds (next-Accounts s.queue)
  Step-SameBounds {s} (leaves n i e) h = Accounts-SameBounds (next-Accounts s.queue)
  Step-SameBounds {s} (is_cancelled n i) h = (refl, refl)
  Step-SameBounds {s} (settles f x outcome e) h =
      let c = settle_counts outcome s.queue in (c.5, c.4)
  Step-SameBounds {s} (releases f outcome e) h = released-SameBounds s f outcome

  Reach-SameBounds : {s t : Service P} → IsSound s → Reach s t → SameBounds s.queue t.queue
  Reach-SameBounds h here = (refl, refl)
  Reach-SameBounds h (next_step r st) =
      let a = Reach-SameBounds h r in
      let b = Step-SameBounds st (Reach-IsSound h r) in (b.0 ∙ a.0, b.1 ∙ a.1)

  -- the queue that `start` leaves
  abbrev opened : ℕ → ℕ → Bool → InvestigationQueue P
  opened m w o = record (notify_observer (empty_queue m w o)) { handler = true; worker_tasks = w }

  start-opened :
      (m w : ℕ) (o : Bool) (q : InvestigationQueue P)
      → (init m w o >>= start) ≡ ok q
      → (q ≡ opened m w o) × (1 ≤ m)
  unfolding init start notify_observer empty_queue
  start-opened m w o q e = (ground arith, ground arith)

  opened_empty :
      (m w : ℕ) (o : Bool)
      → let q = opened m w o in
        (q.heap ≡ [])
        × (q.pending ≡ [])
        × (q.in_flight ≡ [])
        × (q.enqueued + disposed q ≡ 0)
        × (q.max_pending ≡ m)
        × (q.worker_count ≡ w)
  unfolding notify_observer empty_queue
  opened_empty m w o =
      (ground arith, ground arith, ground arith, ground arith, ground arith, ground arith)

  opened-IsValid : (m w : ℕ) (o : Bool) → 1 ≤ m → IsValid (opened m w o)
  opened-IsValid m w o h =
      let e = opened_empty m w o in
      record {
        heap_ordered = rw e.0 tt;
        fresh = rw e.0 tt;
        room = rw e.4 h;
        bounded = rw e.0 (omega arith);
        indexed = λ f. rw (e.0, e.1) refl;
        disjoint = λ f _. rw e.0 refl;
      }

  opened-IsSound : (m w : ℕ) (o : Bool) → 1 ≤ m → IsSound (started (opened m w o))
  opened-IsSound m w o h =
      let e = opened_empty m w o in
      record {
        valid = opened-IsValid m w o h;
        held = λ f. ap (mem f) e.2;
        apart = λ f. refl;
        flight_once = rw e.2 tt;
        busy_once = tt;
        leaving_once = tt;
        counted = ap length e.2;
        crew = omega (arith, e.5);
        ledger = omega (arith, e.3, ap length e.0);
      }

  -- In every state that the polling loop and the workers can reach from a queue that was made with
  -- these bounds and started: the pending jobs are within `max_pending` and the jobs in flight
  -- within `workers`, no fingerprint is both pending and in flight or with two workers, what is in
  -- flight is exactly what the workers have, and every job that was admitted is pending, with a
  -- worker, completed, failed, cancelled, evicted, or was aborted with its task.
  pub service_bounds :
      (max_pending workers : ℕ) (observer : Bool) (q : InvestigationQueue P) (s : Service P)
      → (init max_pending workers observer >>= start) ≡ ok q
      → Reach (started q) s
      → (length s.queue.heap ≤ max_pending)
        × (length s.queue.in_flight ≤ workers)
        × ((f : ℕ) → (mem f s.queue.in_flight && is_some (find f s.queue.heap)) ≡ false)
        × OnceItems s.busy
        × ((f : ℕ)
            → mem f s.queue.in_flight ≡ (is_some (find f s.busy) || is_some (lookup f s.leaving)))
        × (s.queue.enqueued ≡ length s.queue.heap + length s.busy + disposed s.queue + s.aborted)
  service_bounds m w o q s e r =
      let (same, pos) = start-opened m w o q e in
      let first : IsSound (started q) = rw same (opened-IsSound m w o pos) in
      let h = Reach-IsSound first r in
      let bounds = Reach-SameBounds first r in
      let made = opened_empty m w o in
      (
        omega (arith, h.valid.bounded, bounds.0, ap (λ k. k.max_pending) same, made.4),
        omega (arith, h.counted, h.crew, bounds.1, ap (λ k. k.worker_count) same, made.5),
        λ f. ground (arith, h.valid.disjoint f),
        h.busy_once,
        h.held,
        h.ledger,
      )
