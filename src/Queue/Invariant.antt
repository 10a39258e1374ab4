-- ===== src/Queue/Invariant.antt =====
-- The well-formedness of the queue of investigation_queue.py, kept by every method.
use uyuni_ai.Common.{ℕ, suc, min, ◌≤◌, ◌≡◌, refl, true, false, Option, none, some, arith}
use uyuni_ai.Common.Lists.{length, mem}
use uyuni_ai.Common.Dict.{lookup, lookup-insert, lookup-erase}
use uyuni_ai.Queue.Heap.{Item, heap_remove, find, IsHeap, Below}
use uyuni_ai.Queue.Heap.Push.{
  length-heappush, find-heappush, Below-heappush, NoSeq-of_Below, Below_mono, IsHeap-heappush,
}
use uyuni_ai.Queue.Heap.Remove.{
  find-Below, Below-heap_remove, IsHeap-heap_remove, find-heap_remove, NoSeq-heap_remove_self,
  length-heap_remove,
}
use uyuni_ai.Queue.{
  InvestigationQueue, EnqueueStatus, notify_observer, stats, reject, coalesce, admit, evict,
}

module _ {P : Type 0} where
  -- The heap is one, within its bound, with sequence numbers that the counter has passed; the
  -- dictionary holds exactly the items of the heap; no pending fingerprint is in flight.
  pub record IsValid (q : InvestigationQueue P) : Type 0 where
    pub heap_ordered : IsHeap q.heap
    pub fresh : Below q.sequence q.heap
    pub room : 1 ≤ q.max_pending
    pub bounded : length q.heap ≤ q.max_pending
    pub indexed : (f : ℕ) → lookup f q.pending ≡ find f q.heap
    pub disjoint : (f : ℕ) → mem f q.in_flight ≡ true → find f q.heap ≡ none

  -- what the invariant reads, so that a method that leaves these alone keeps it
  pub IsValid-of_eq :
      (q r : InvestigationQueue P)
      → IsValid q
      → r.heap ≡ q.heap
      → r.pending ≡ q.pending
      → r.in_flight ≡ q.in_flight
      → r.sequence ≡ q.sequence
      → r.max_pending ≡ q.max_pending
      → IsValid r
  IsValid-of_eq q r v h p i s m = record {
    heap_ordered = rw h v.heap_ordered;
    fresh = rw (h, s) v.fresh;
    room = rw m v.room;
    bounded = rw (h, m) v.bounded;
    indexed = λ f. rw (h, p) (v.indexed f);
    disjoint = λ f k. rw h (v.disjoint f (rw i at k));
  }

  -- A call of the observer changes nothing but the log of its calls.
  pub notify_observer_keeps :
      (q : InvestigationQueue P)
      → let r = notify_observer q in
        (r.heap ≡ q.heap)
        × (r.in_flight ≡ q.in_flight)
        × (stats r ≡ stats q)
        × (r.worker_count ≡ q.worker_count)
  unfolding notify_observer
  notify_observer_keeps q = (ground arith, ground arith, ground arith, ground arith)

  pub notify_observer-IsValid : (q : InvestigationQueue P) → IsValid q → IsValid (notify_observer q)
  unfolding notify_observer
  notify_observer-IsValid q v =
      IsValid-of_eq q (notify_observer q) v (ground arith) (ground arith) (ground arith)
        (ground arith) (ground arith)

  pub reject-IsValid :
      (q : InvestigationQueue P) (status : EnqueueStatus) → IsValid q → IsValid (reject q status).0
  unfolding reject
  reject-IsValid q status v = notify_observer-IsValid _ (record {
    heap_ordered = v.heap_ordered;
    fresh = v.fresh;
    room = v.room;
    bounded = v.bounded;
    indexed = v.indexed;
    disjoint = v.disjoint;
  })

  pub admit-IsValid :
      (f priority : ℕ) (payload : P) (evicted : Option ℕ) (q : InvestigationQueue P)
      → IsValid q
      → find f q.heap ≡ none
      → mem f q.in_flight ≡ false
      → suc (length q.heap) ≤ q.max_pending
      → IsValid (admit f priority payload evicted q).0
  unfolding admit
  admit-IsValid f priority payload evicted q v new idle fits =
      let it : Item P = record {
        priority = priority;
        sequence = q.sequence;
        fingerprint = f;
        payload = payload;
      } in
      notify_observer-IsValid _ (record {
        heap_ordered = IsHeap-heappush it q.heap new (NoSeq-of_Below _ _ v.fresh) v.heap_ordered;
        fresh =
            Below-heappush _ _ q.heap (omega arith)
              (Below_mono q.sequence _ q.heap (omega arith) v.fresh);
        room = v.room;
        bounded = rw (length-heappush it q.heap) fits;
        indexed =
            λ g. rw (lookup-insert f g it q.pending, find-heappush g it q.heap new, v.indexed g);
        disjoint = λ g (k : mem g q.in_flight ≡ true).
            rw (find-heappush g it q.heap new) (ground (arith, v.disjoint g k));
      })

  pub evict-IsValid :
      (w : Item P) (q : InvestigationQueue P)
      → IsValid q
      → find w.fingerprint q.heap ≡ some w
      → IsValid (evict w q)
  unfolding evict
  evict-IsValid w q v e = record {
    heap_ordered = IsHeap-heap_remove w q.heap v.heap_ordered;
    fresh = Below-heap_remove _ w q.heap v.fresh;
    room = v.room;
    bounded = omega (arith, length-heap_remove w.fingerprint w q.heap v.heap_ordered e, v.bounded);
    indexed = λ g. rw (
      lookup-erase w.fingerprint g q.pending,
      find-heap_remove w.fingerprint g w q.heap v.heap_ordered e,
      v.indexed g,
    );
    disjoint = λ g k.
        rw (find-heap_remove w.fingerprint g w q.heap v.heap_ordered e)
          (ground (arith, v.disjoint g k));
  }

  pub coalesce-IsValid :
      (f priority : ℕ) (payload : P) (w : Item P) (q : InvestigationQueue P)
      → IsValid q
      → find f q.heap ≡ some w
      → IsValid (coalesce f priority payload w q).0
  unfolding coalesce
  coalesce-IsValid f priority payload w q v e =
      let removed = find-heap_remove f f w q.heap v.heap_ordered e in
      let it : Item P = record {
        priority = min priority w.priority;
        sequence = w.sequence;
        fingerprint = f;
        payload = payload;
      } in
      let gone : find f (heap_remove w q.heap) ≡ none = ground (arith, removed) in
      notify_observer-IsValid _ (record {
        heap_ordered =
            IsHeap-heappush _ (heap_remove w q.heap) gone
              (NoSeq-heap_remove_self f w q.heap v.heap_ordered e)
              (IsHeap-heap_remove w q.heap v.heap_ordered);
        fresh =
            Below-heappush _ _ (heap_remove w q.heap) (find-Below _ f w q.heap e v.fresh)
              (Below-heap_remove _ w q.heap v.fresh);
        room = v.room;
        bounded =
            rw (length-heappush it (heap_remove w q.heap))
              (omega (arith, length-heap_remove f w q.heap v.heap_ordered e, v.bounded));
        indexed = λ g.
            rw
              (
                lookup-insert f g it q.pending,
                find-heappush g it (heap_remove w q.heap) gone,
                find-heap_remove f g w q.heap v.heap_ordered e,
                v.indexed g,
              )
              (ground arith);
        disjoint = λ g k.
            rw
              (
                find-heappush g it (heap_remove w q.heap) gone,
                find-heap_remove f g w q.heap v.heap_ordered e,
              )
              (ground (arith, v.disjoint g k));
      })

  pub find_worst-evict :
      (f : ℕ) (w : Item P) (q : InvestigationQueue P)
      → IsValid q
      → find f q.heap ≡ none
      → find w.fingerprint q.heap ≡ some w
      → (find f (evict w q).heap ≡ none) × (suc (length (evict w q).heap) ≤ q.max_pending)
  unfolding evict
  find_worst-evict f w q v new e = (
    rw (find-heap_remove w.fingerprint f w q.heap v.heap_ordered e) (ground arith),
    omega (arith, length-heap_remove w.fingerprint w q.heap v.heap_ordered e, v.bounded),
  )

  pub evict_keeps :
      (w : Item P) (q : InvestigationQueue P)
      → ((evict w q).in_flight ≡ q.in_flight) × ((evict w q).max_pending ≡ q.max_pending)
  unfolding evict
  evict_keeps w q = (refl, refl)
