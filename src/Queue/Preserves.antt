-- ===== src/Queue/Preserves.antt =====
-- Every method of `InvestigationQueue` (investigation_queue.py) keeps the queue well formed.
use uyuni_ai.Common.{
  ℕ, suc, ◌≤◌, ◌≡◌, refl, sym, ap, ◌∙◌, subst, Bool, true, false, ◌⊎◌, Option, none, some, List,
  ◌∷◌, String, arith, leb, ltb, if_cases,
}
use uyuni_ai.Common.Lists.{length, mem, discard, add, mem-discard}
use uyuni_ai.Common.Dict.{lookup, lookup-erase}
use uyuni_ai.Common.Result.{ok, ok_inj}
use uyuni_ai.Queue.Heap.{Item, heap_max, find, IsHeap, Below}
use uyuni_ai.Queue.Heap.Remove.{
  Below-heap_remove, IsHeap-heap_remove, find-heap_remove, length-heap_remove, find-heap_max,
}
use uyuni_ai.Queue.{
  InvestigationQueue, init, empty_queue, evict, enqueue, cancel, withdraw, take_item, next, settle,
  release, Outcome,
}
use uyuni_ai.Queue.Cases.{enqueue_cases, cancel_cases, next_cases}
use uyuni_ai.Queue.Invariant.{
  IsValid, IsValid-of_eq, notify_observer-IsValid, reject-IsValid, admit-IsValid, evict-IsValid,
  coalesce-IsValid, find_worst-evict, evict_keeps,
}

module _ {P : Type 0} where
  empty_queue-IsValid : (m w : ℕ) (o : Bool) → ltb m 1 ≡ false → IsValid {P = P} (empty_queue m w o)
  unfolding empty_queue
  empty_queue-IsValid m w o big = record {
    heap_ordered = tt;
    fresh = tt;
    room = ground arith;
    bounded = omega arith;
    indexed = λ f. refl;
    disjoint = λ f k. refl;
  }

  pub init-IsValid :
      (max_pending workers : ℕ) (observer : Bool) (q : InvestigationQueue P)
      → init max_pending workers observer ≡ ok q
      → IsValid q
  unfolding init
  init-IsValid m w o q e =
      if_cases (λ r. r ≡ ok q → IsValid q) (ltb m 1) (λ _ e'. cc)
        (λ big.
          if_cases (λ r. r ≡ ok q → IsValid q) (ltb w 1) (λ _ e'. cc)
            (λ _ e'.
              subst IsValid (ok_inj e')
                (notify_observer-IsValid _ (empty_queue-IsValid m w o big))))
        e

  -- an item of the dictionary is the one of the heap
  pub found :
      (q : InvestigationQueue P) (f : ℕ) {o : Option (Item P)}
      → IsValid q
      → lookup f q.pending ≡ o
      → find f q.heap ≡ o
  found q f v e = sym (v.indexed f) ∙ e

  pub worst_found :
      (q : InvestigationQueue P) (x : Item P) (xs : List (Item P))
      → IsValid q
      → q.heap ≡ x ∷ xs
      → find (heap_max x xs).fingerprint q.heap ≡ some (heap_max x xs)
  worst_found q x xs v e =
      let h : IsHeap (x ∷ xs) = subst IsHeap e v.heap_ordered in
      ap (find (heap_max x xs).fingerprint) e ∙ find-heap_max x xs h

  pub enqueue-IsValid :
      (f : ℕ) (severity : String) (payload : P) (q : InvestigationQueue P)
      → IsValid q
      → IsValid (enqueue f severity payload q).0
  enqueue-IsValid f severity payload q v =
      enqueue_cases q f payload (λ r. IsValid r.0) severity (λ _. reject-IsValid q _ v) (λ _ _. v)
        (λ _ _ w e. coalesce-IsValid f _ payload w q v (found q f v e))
        (λ _ idle new room. admit-IsValid f _ payload none q v (found q f v new) idle (fits room))
        (λ _ _ _ _ _ _ _ _. reject-IsValid q _ v)
        (λ _ idle new x xs e _ _.
          let at_worst = worst_found q x xs v e in
          let w = heap_max x xs in
          let (gone, room) = find_worst-evict f w q v (found q f v new) at_worst in
          admit-IsValid f _ payload _ (evict w q) (evict-IsValid w q v at_worst) gone
            (ap (mem f) (evict_keeps w q).0 ∙ idle) (rw (evict_keeps w q).1 room))
    where
      fits :
          (length q.heap ≡ 0) ⊎ (leb q.max_pending (length q.heap) ≡ false)
          → suc (length q.heap) ≤ q.max_pending
      fits room = ground (arith, v.room)

  withdraw-IsValid :
      (f : ℕ) (w : Item P) (q : InvestigationQueue P)
      → IsValid q
      → find f q.heap ≡ some w
      → IsValid (withdraw f w q)
  unfolding withdraw
  withdraw-IsValid f w q v e = record {
    heap_ordered = IsHeap-heap_remove w q.heap v.heap_ordered;
    fresh = Below-heap_remove _ w q.heap v.fresh;
    room = v.room;
    bounded = omega (arith, length-heap_remove f w q.heap v.heap_ordered e, v.bounded);
    indexed = λ g.
        rw
          (lookup-erase f g q.pending, find-heap_remove f g w q.heap v.heap_ordered e, v.indexed g);
    disjoint = λ g (k : mem g q.in_flight ≡ true).
        rw (find-heap_remove f g w q.heap v.heap_ordered e) (ground (arith, v.disjoint g k));
  }

  pub cancel-IsValid : (f : ℕ) (q : InvestigationQueue P) → IsValid q → IsValid (cancel f q).0
  cancel-IsValid f q v =
      cancel_cases q f (λ r. IsValid r.0) (λ _. v)
        (λ w e. notify_observer-IsValid _ (withdraw-IsValid f w q v (found q f v e)))

  take_item-IsValid :
      (x : Item P) (xs : List (Item P)) (q : InvestigationQueue P)
      → IsValid q
      → q.heap ≡ x ∷ xs
      → IsValid (take_item x xs q)
  unfolding take_item
  take_item-IsValid x xs q v e =
      let h : IsHeap (x ∷ xs) = subst IsHeap e v.heap_ordered in
      let b : Below q.sequence (x ∷ xs) = subst (Below q.sequence) e v.fresh in
      record {
        heap_ordered = h.3;
        fresh = b.1;
        room = v.room;
        bounded = omega (arith, ap length e, v.bounded);
        indexed = λ g.
            let s : find g q.heap ≡ find g (x ∷ xs) = ap (find g) e in
            rw (lookup-erase x.fingerprint g q.pending) (ground (arith, v.indexed g, s, h.2));
        disjoint = λ g (k : mem g (add x.fingerprint q.in_flight) ≡ true).
            let s : find g q.heap ≡ find g (x ∷ xs) = ap (find g) e in
            ground (arith, v.disjoint g, s, h.2);
      }

  pub next-IsValid : (q : InvestigationQueue P) → IsValid q → IsValid (next q).0
  next-IsValid q v =
      next_cases q (λ r. IsValid r.0) (λ _. v)
        (λ x xs e. notify_observer-IsValid _ (take_item-IsValid x xs q v e))

  pub settle-IsValid :
      (outcome : Outcome) (q : InvestigationQueue P) → IsValid q → IsValid (settle outcome q)
  unfolding settle
  settle-IsValid outcome q v =
      IsValid-of_eq q (settle outcome q) v (ground arith) (ground arith) (ground arith)
        (ground arith) (ground arith)

  pub release-IsValid : (f : ℕ) (q : InvestigationQueue P) → IsValid q → IsValid (release f q)
  unfolding release
  release-IsValid f q v = notify_observer-IsValid _ (record {
    heap_ordered = v.heap_ordered;
    fresh = v.fresh;
    room = v.room;
    bounded = v.bounded;
    indexed = v.indexed;
    disjoint = λ g (k : mem g (discard f q.in_flight) ≡ true).
        v.disjoint g (ground (arith, mem-discard f g q.in_flight));
  })
