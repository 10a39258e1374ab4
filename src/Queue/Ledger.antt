-- ===== src/Queue/Ledger.antt =====
-- What each method of the queue (investigation_queue.py) does to its counters: the jobs that were
-- ever admitted, against those that are pending or were disposed of.
use uyuni_ai.Common.{ℕ, ◌+◌, ◌≡◌, refl, ap, Option, none, some, List, ◌∷◌, String, arith, if_cases}
use uyuni_ai.Common.Lists.{length, discard}
use uyuni_ai.Queue.Heap.{Item, heap_remove, heap_max, find}
use uyuni_ai.Queue.Heap.Push.{length-heappush}
use uyuni_ai.Queue.Heap.Remove.{length-heap_remove}
use uyuni_ai.Queue.{
  InvestigationQueue, EnqueueStatus, notify_observer, reject, coalesce, admit, evict, enqueue,
  cancel, withdraw, take_item, next, Next, takes, waits, ends, settle, release, Outcome, returned,
  raised, aborted,
}
use uyuni_ai.Queue.Cases.{enqueue_cases, cancel_cases, next_cases}
use uyuni_ai.Queue.Invariant.{IsValid}
use uyuni_ai.Queue.Preserves.{found, worst_found}

-- A job whose handler ended is completed or failed, unless its task was cancelled.
abbrev pub lost : Outcome → ℕ
lost aborted = 1
lost returned = 0
lost raised = 0

module _ {P : Type 0} where
  -- the jobs that left the queue for good
  abbrev pub disposed : InvestigationQueue P → ℕ
  disposed q = q.completed + q.failed + q.cancelled + q.evicted

  -- `r` has as many jobs pending or disposed of as `q`, and those that were admitted in between;
  -- `taken` is how many of them a worker took
  pub record Accounts (taken : ℕ) (q r : InvestigationQueue P) : Type 0 where
    pub balance :
        r.enqueued + (length q.heap + disposed q)
        ≡ q.enqueued + (length r.heap + disposed r + taken)
    pub same_workers : r.worker_count ≡ q.worker_count
    pub same_bound : r.max_pending ≡ q.max_pending

  Accounts-notify_observer :
      (n : ℕ) (q r : InvestigationQueue P) → Accounts n q r → Accounts n q (notify_observer r)
  unfolding notify_observer
  Accounts-notify_observer n q r a = ground arith

  reject-Accounts : (q : InvestigationQueue P) (s : EnqueueStatus) → Accounts 0 q (reject q s).0
  unfolding reject
  reject-Accounts q s = Accounts-notify_observer 0 q _ (omega arith)

  admit-Accounts :
      (f priority : ℕ) (payload : P) (e : Option ℕ) (q : InvestigationQueue P)
      → Accounts 0 q (admit f priority payload e q).0
  unfolding admit
  admit-Accounts f priority payload e q = Accounts-notify_observer 0 q _ (record {
    balance = rw (length-heappush _ q.heap) (omega arith);
    same_workers = refl;
    same_bound = refl;
  })

  evict-Accounts :
      (w : Item P) (q r : InvestigationQueue P)
      → IsValid q
      → find w.fingerprint q.heap ≡ some w
      → Accounts 0 (evict w q) r
      → Accounts 0 q r
  unfolding evict
  evict-Accounts w q r v e a = record {
    balance = omega (arith, length-heap_remove w.fingerprint w q.heap v.heap_ordered e, a.balance);
    same_workers = a.same_workers;
    same_bound = a.same_bound;
  }

  coalesce-Accounts :
      (f priority : ℕ) (payload : P) (w : Item P) (q : InvestigationQueue P)
      → IsValid q
      → find f q.heap ≡ some w
      → Accounts 0 q (coalesce f priority payload w q).0
  unfolding coalesce
  coalesce-Accounts f priority payload w q v e = Accounts-notify_observer 0 q _ (record {
    balance =
        rw (length-heappush _ (heap_remove w q.heap))
          (omega (arith, length-heap_remove f w q.heap v.heap_ordered e));
    same_workers = refl;
    same_bound = refl;
  })

  Accounts-refl : (q : InvestigationQueue P) → Accounts 0 q q
  Accounts-refl q = record { balance = omega arith; same_workers = refl; same_bound = refl }

  pub enqueue-Accounts :
      (f : ℕ) (severity : String) (payload : P) (q : InvestigationQueue P)
      → IsValid q
      → Accounts 0 q (enqueue f severity payload q).0
  enqueue-Accounts f severity payload q v =
      enqueue_cases q f payload (λ r. Accounts 0 q r.0) severity (λ _. reject-Accounts q _)
        (λ _ _. Accounts-refl q) (λ _ _ w e. coalesce-Accounts f _ payload w q v (found q f v e))
        (λ _ _ _ _. admit-Accounts f _ payload none q) (λ _ _ _ _ _ _ _ _. reject-Accounts q _)
        (λ _ _ _ x xs e _ _.
          evict-Accounts (heap_max x xs) q _ v (worst_found q x xs v e)
            (admit-Accounts f _ payload _ (evict (heap_max x xs) q)))

  withdraw-Accounts :
      (f : ℕ) (w : Item P) (q : InvestigationQueue P)
      → IsValid q
      → find f q.heap ≡ some w
      → Accounts 0 q (withdraw f w q)
  unfolding withdraw
  withdraw-Accounts f w q v e = record {
    balance = omega (arith, length-heap_remove f w q.heap v.heap_ordered e);
    same_workers = refl;
    same_bound = refl;
  }

  pub cancel-Accounts : (f : ℕ) (q : InvestigationQueue P) → IsValid q → Accounts 0 q (cancel f q).0
  cancel-Accounts f q v =
      cancel_cases q f (λ r. Accounts 0 q r.0) (λ _. Accounts-refl q)
        (λ w e. Accounts-notify_observer 0 q _ (withdraw-Accounts f w q v (found q f v e)))

  abbrev pub taken : Next P → ℕ
  taken (takes _) = 1
  taken waits = 0
  taken ends = 0

  take_item-Accounts :
      (x : Item P) (xs : List (Item P)) (q : InvestigationQueue P)
      → q.heap ≡ x ∷ xs
      → Accounts 1 q (take_item x xs q)
  unfolding take_item
  take_item-Accounts x xs q e = record {
    balance = omega (arith, ap length e);
    same_workers = refl;
    same_bound = refl;
  }

  pub next-Accounts : (q : InvestigationQueue P) → let (r, n) = next q in Accounts (taken n) q r
  next-Accounts q =
      next_cases q (λ r. Accounts (taken r.1) q r.0)
        (λ _.
          if_cases (λ n. Accounts (taken n) q q) q.closing (λ _. Accounts-refl q)
            (λ _. Accounts-refl q))
        (λ x xs e. Accounts-notify_observer 1 q _ (take_item-Accounts x xs q e))

  pub settle_counts :
      (outcome : Outcome) (q : InvestigationQueue P)
      → let r = settle outcome q in
        (disposed r + lost outcome ≡ disposed q + 1)
        × (r.heap ≡ q.heap)
        × (r.in_flight ≡ q.in_flight)
        × (r.enqueued ≡ q.enqueued)
        × (r.worker_count ≡ q.worker_count)
        × (r.max_pending ≡ q.max_pending)
  unfolding settle
  settle_counts returned q = ground arith
  settle_counts raised q = ground arith
  settle_counts aborted q = ground arith

  pub release_counts :
      (f : ℕ) (q : InvestigationQueue P)
      → let r = release f q in
        (disposed r ≡ disposed q)
        × (r.heap ≡ q.heap)
        × (r.in_flight ≡ discard f q.in_flight)
        × (r.enqueued ≡ q.enqueued)
        × (r.worker_count ≡ q.worker_count)
        × (r.max_pending ≡ q.max_pending)
  unfolding release notify_observer
  release_counts f q =
      (ground arith, ground arith, ground arith, ground arith, ground arith, ground arith)

  -- No call of `enqueue` or `cancel` changes what is in flight.
  pub in_flight-enqueue :
      (f : ℕ) (severity : String) (payload : P) (q : InvestigationQueue P)
      → (enqueue f severity payload q).0.in_flight ≡ q.in_flight
  unfolding reject coalesce admit evict notify_observer
  in_flight-enqueue f severity payload q =
      enqueue_cases q f payload (λ r. r.0.in_flight ≡ q.in_flight) severity (λ _. ground arith)
        (λ _ _. refl) (λ _ _ w _. ground arith) (λ _ _ _ _. ground arith)
        (λ _ _ _ _ _ _ _ _. ground arith) (λ _ _ _ x xs _ _ _. ground arith)

  pub in_flight-cancel : (f : ℕ) (q : InvestigationQueue P) → (cancel f q).0.in_flight ≡ q.in_flight
  unfolding withdraw notify_observer
  in_flight-cancel f q =
      cancel_cases q f (λ r. r.0.in_flight ≡ q.in_flight) (λ _. refl) (λ w _. ground arith)
