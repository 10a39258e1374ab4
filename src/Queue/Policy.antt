-- ===== src/Queue/Policy.antt =====
-- The policy of `enqueue`, `cancel` and `_next` (investigation_queue.py): who is admitted, who is
-- turned away, who is evicted, and who comes next.
use uyuni_ai.Common.{
  ℕ, suc, min, ◌≤◌, ◌<◌, ◌≡◌, refl, sym, ap, ◌∙◌, true, false, ◌⊎◌, Option, none, some, List, ◌∷◌,
  String, arith, ◌==◌, leb, leb→le, leb→gt, if◌then◌else◌,
}
use uyuni_ai.Common.Lists.{length, mem}
use uyuni_ai.Queue.Heap.{Item, item_lt, heap_remove, heap_max, find}
use uyuni_ai.Queue.Heap.Push.{find-heappush}
use uyuni_ai.Queue.Heap.Remove.{find-heap_remove, heap_max-ge}
use uyuni_ai.Queue.{
  InvestigationQueue, EnqueueStatus, rejected_full, rejected_closed, reject, admit, coalesce, evict,
  notify_observer, priority_for_severity, enqueue,
}
use uyuni_ai.Queue.Cases.{enqueue_cases}
use uyuni_ai.Queue.Invariant.{IsValid}
use uyuni_ai.Queue.Preserves.{found, worst_found}

module _ {P : Type 0} where
  heap-notify_observer : (q : InvestigationQueue P) → (notify_observer q).heap ≡ q.heap
  unfolding notify_observer
  heap-notify_observer q = ground arith

  in_flight-notify_observer :
      (q : InvestigationQueue P) → (notify_observer q).in_flight ≡ q.in_flight
  unfolding notify_observer
  in_flight-notify_observer q = ground arith

  heap-reject :
      (q : InvestigationQueue P) (s : EnqueueStatus)
      → ((reject q s).0.heap ≡ q.heap)
        × ((reject q s).1.status ≡ s)
        × ((reject q s).1.evicted_fingerprint ≡ none)
  unfolding reject
  heap-reject q s = (heap-notify_observer _, refl, refl)

  abbrev pub new_item : InvestigationQueue P → ℕ → ℕ → P → Item P
  new_item q f priority payload = record {
    priority = priority;
    sequence = q.sequence;
    fingerprint = f;
    payload = payload;
  }

  abbrev pub refreshed : ℕ → Item P → ℕ → P → Item P
  refreshed f w priority payload = record {
    priority = min priority w.priority;
    sequence = w.sequence;
    fingerprint = f;
    payload = payload;
  }

  -- `w` is pending, and no pending item comes after it
  pub record IsLast (q : InvestigationQueue P) (w : Item P) : Type 0 where
    pub member : find w.fingerprint q.heap ≡ some w
    pub greatest : (g : ℕ) (x : Item P) → find g q.heap ≡ some x → item_lt w x ≡ false

  -- why a job was evicted, or why none had to be
  abbrev pub Evicted : InvestigationQueue P → ℕ → Option ℕ → Type 0
  Evicted q priority none = suc (length q.heap) ≤ q.max_pending
  Evicted q priority (some e) =
      (w : Item P) × IsLast q w
      × (w.fingerprint ≡ e)
      × (priority < w.priority)
      × (length q.heap ≡ q.max_pending)

  -- the items that an eviction leaves
  abbrev pub kept : InvestigationQueue P → Option ℕ → ℕ → Option (Item P)
  kept q none g = find g q.heap
  kept q (some e) g = if e == g then none else find g q.heap

  -- What `enqueue f` has done when it answers with a status: `r` is the queue after it.
  abbrev pub Answers :
      InvestigationQueue P → ℕ → ℕ → P → InvestigationQueue P → Option ℕ → EnqueueStatus → Type 0
  Answers q f priority payload r e EnqueueStatus.enqueued =
      (find f q.heap ≡ none)
      × Evicted q priority e
      × ((g : ℕ)
          → find g r.heap ≡ (if f == g then some (new_item q f priority payload) else kept q e g))
  Answers q f priority payload r e EnqueueStatus.coalesced =
      (w : Item P) × (find f q.heap ≡ some w)
      × ((g : ℕ)
          → find g r.heap
            ≡ (if f == g then some (refreshed f w priority payload) else find g q.heap))
  Answers q f priority payload r e EnqueueStatus.in_flight = (mem f q.in_flight ≡ true) × (r ≡ q)
  Answers q f priority payload r e EnqueueStatus.rejected_full =
      (r.heap ≡ q.heap)
      × (find f q.heap ≡ none)
      × (length q.heap ≡ q.max_pending)
      × ((w : Item P) × IsLast q w × (w.priority ≤ priority))
  Answers q f priority payload r e EnqueueStatus.rejected_closed =
      (r.heap ≡ q.heap) × (q.accepting ≡ false)

  worst-IsLast :
      (q : InvestigationQueue P) (x : Item P) (xs : List (Item P))
      → IsValid q
      → q.heap ≡ x ∷ xs
      → IsLast q (heap_max x xs)
  worst-IsLast q x xs v e = record {
    member = worst_found q x xs v e;
    greatest = λ g y k. heap_max-ge g y x xs (sym (ap (find g) e) ∙ k);
  }

  fits :
      (q : InvestigationQueue P)
      → IsValid q
      → (length q.heap ≡ 0) ⊎ (leb q.max_pending (length q.heap) ≡ false)
      → suc (length q.heap) ≤ q.max_pending
  fits q v room = ground (arith, v.room)

  closed-Answers :
      (q : InvestigationQueue P) (f priority : ℕ) (payload : P)
      → q.accepting ≡ false
      → let (r, a) = reject q rejected_closed in
        Answers q f priority payload r a.evicted_fingerprint a.status
  unfolding reject
  closed-Answers q f priority payload c = (heap-notify_observer _, c)

  full-Answers :
      (q : InvestigationQueue P) (f priority : ℕ) (payload : P) (w : Item P)
      → find f q.heap ≡ none
      → length q.heap ≡ q.max_pending
      → IsLast q w
      → w.priority ≤ priority
      → let (r, a) = reject q rejected_full in
        Answers q f priority payload r a.evicted_fingerprint a.status
  unfolding reject
  full-Answers q f priority payload w new full last le =
      (heap-notify_observer _, new, full, (w, last, le))

  coalesce-Answers :
      (q : InvestigationQueue P) (f priority : ℕ) (payload : P) (w : Item P)
      → IsValid q
      → find f q.heap ≡ some w
      → let (r, a) = coalesce f priority payload w q in
        Answers q f priority payload r a.evicted_fingerprint a.status
  unfolding coalesce
  coalesce-Answers q f priority payload w v e =
      let removed = λ (g : ℕ). find-heap_remove f g w q.heap v.heap_ordered e in
      let gone : find f (heap_remove w q.heap) ≡ none = ground (arith, removed f) in
      let put =
        λ (g : ℕ). find-heappush g (refreshed f w priority payload) (heap_remove w q.heap) gone in
      (w, e, λ g. ap (find g) (heap-notify_observer _) ∙ put g ∙ rw (removed g) (ground arith))

  admit-Answers :
      (q r : InvestigationQueue P) (f priority : ℕ) (payload : P) (evicted : Option ℕ)
      → find f q.heap ≡ none
      → Evicted q priority evicted
      → ((g : ℕ) → find g r.heap ≡ kept q evicted g)
      → find f r.heap ≡ none
      → r.sequence ≡ q.sequence
      → let (r', a) = admit f priority payload evicted r in
        Answers q f priority payload r' a.evicted_fingerprint a.status
  unfolding admit
  admit-Answers q r f priority payload evicted new why left new' s = (
    new,
    why,
    λ g.
        ap (find g) (heap-notify_observer _)
        ∙ find-heappush g (new_item r f priority payload) r.heap new'
        ∙ rw (s, left g),
  )

  sequence-evict : (w : Item P) (q : InvestigationQueue P) → (evict w q).sequence ≡ q.sequence
  unfolding evict
  sequence-evict w q = refl

  find-evict :
      (w : Item P) (q : InvestigationQueue P)
      → IsValid q
      → find w.fingerprint q.heap ≡ some w
      → (g : ℕ) → find g (evict w q).heap ≡ kept q (some w.fingerprint) g
  unfolding evict
  find-evict w q v e g = find-heap_remove w.fingerprint g w q.heap v.heap_ordered e

  full-eq :
      (q : InvestigationQueue P)
      → IsValid q
      → leb q.max_pending (length q.heap) ≡ true
      → length q.heap ≡ q.max_pending
  full-eq q v full = ground (arith, v.bounded)

  -- Every answer of `enqueue`, on a well-formed queue, means what it says. ENQUEUED: the
  -- fingerprint was not pending and now is, with the payload, the priority of its severity and the
  -- next sequence number; nothing else changed, but that, where the queue was full, the last
  -- pending job is gone, named in the answer and strictly less urgent than the new one.
  -- COALESCED: the job was pending, and keeps its place with the new payload and the more urgent
  -- of the two priorities. IN_FLIGHT: a worker has it, and the queue is as it was. REJECTED_FULL:
  -- the queue is full and even its last job is at least as urgent; REJECTED_CLOSED: it no longer
  -- accepts; either way no pending job changed.
  pub enqueue-Answers :
      (f : ℕ) (severity : String) (payload : P) (q : InvestigationQueue P)
      → IsValid q
      → let (r, a) = enqueue f severity payload q in
        Answers q f (priority_for_severity severity) payload r a.evicted_fingerprint a.status
  enqueue-Answers f severity payload q v =
      enqueue_cases q f payload
        (λ r.
          Answers q f (priority_for_severity severity) payload r.0 r.1.evicted_fingerprint
            r.1.status)
        severity (λ c. closed-Answers q f _ payload c) (λ _ busy. (busy, refl))
        (λ _ _ w e. coalesce-Answers q f _ payload w v (found q f v e))
        (λ _ idle new room.
          let absent = found q f v new in
          admit-Answers q q f _ payload none absent (fits q v room) (λ g. refl) absent refl)
        (λ _ _ new x xs e full ge.
          full-Answers q f _ payload (heap_max x xs) (found q f v new) (full-eq q v full)
            (worst-IsLast q x xs v e) (leb→le _ _ ge))
        (λ _ idle new x xs e full lt.
          let w = heap_max x xs in
          let last = worst-IsLast q x xs v e in
          let absent = found q f v new in
          admit-Answers q (evict w q) f _ payload (some w.fingerprint) absent
            (w, last, refl, leb→gt _ _ lt, full-eq q v full) (find-evict w q v last.member)
            (rw (find-evict w q v last.member f) (ground arith)) (sequence-evict w q))
