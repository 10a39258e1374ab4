-- ===== src/Queue/Service.antt =====
-- What `cancel` and `_next` do to the pending jobs (investigation_queue.py).
use uyuni_ai.Common.{
  ℕ, ◌≡◌, refl, sym, ap, ◌∙◌, subst, true, false, ◌⊎◌, none, some, List, [], ◌∷◌, arith, ◌==◌,
  if◌then◌else◌, if_cases,
}
use uyuni_ai.Common.Lists.{mem}
use uyuni_ai.Queue.Heap.{Item, item_lt, find, IsHeap}
use uyuni_ai.Queue.Heap.Remove.{find-heap_remove, Above-find}
use uyuni_ai.Queue.{
  InvestigationQueue, CancelStatus, cancelled, Next, takes, waits, ends, notify_observer, cancel,
  withdraw, take_item, next,
}
use uyuni_ai.Queue.Cases.{cancel_cases, next_cases}
use uyuni_ai.Queue.Invariant.{IsValid, notify_observer_keeps}
use uyuni_ai.Queue.Preserves.{found}

module _ {P : Type 0} where
  -- What `cancel f` has done when it answers with a status.
  abbrev pub Cancels : InvestigationQueue P → ℕ → InvestigationQueue P → CancelStatus → Type 0
  Cancels q f r CancelStatus.cancelled =
      ((w : Item P) × (find f q.heap ≡ some w))
      × ((g : ℕ) → find g r.heap ≡ (if f == g then none else find g q.heap))
      × (r.in_flight ≡ q.in_flight)
  Cancels q f r CancelStatus.in_flight =
      (find f q.heap ≡ none) × (mem f q.in_flight ≡ true) × (r ≡ q)
  Cancels q f r CancelStatus.not_found =
      (find f q.heap ≡ none) × (mem f q.in_flight ≡ false) × (r ≡ q)

  withdraw-Cancels :
      (q : InvestigationQueue P) (f : ℕ) (w : Item P)
      → IsValid q
      → find f q.heap ≡ some w
      → Cancels q f (notify_observer (withdraw f w q)) cancelled
  unfolding withdraw
  withdraw-Cancels q f w v e =
      let kept = notify_observer_keeps (withdraw f w q) in
      ((w, e), λ g. ap (find g) kept.0 ∙ find-heap_remove f g w q.heap v.heap_ordered e, kept.1)

  -- On a well-formed queue every answer of `cancel` means what it says: CANCELLED took exactly the
  -- pending job of the fingerprint out, IN_FLIGHT and NOT_FOUND found none and changed nothing.
  pub cancel-Cancels :
      (f : ℕ) (q : InvestigationQueue P)
      → IsValid q
      → let (r, status) = cancel f q in Cancels q f r status
  cancel-Cancels f q v =
      cancel_cases q f (λ r. Cancels q f r.0 r.1)
        (λ e.
          if_cases (λ s. Cancels q f q s) (mem f q.in_flight) (λ m. (found q f v e, m, refl))
            (λ m. (found q f v e, m, refl)))
        (λ w e. withdraw-Cancels q f w v (found q f v e))

  -- What a worker that looks for work has met.
  abbrev pub Serves : InvestigationQueue P → InvestigationQueue P → Next P → Type 0
  Serves q r (takes x) =
      (find x.fingerprint q.heap ≡ some x)
      × ((g : ℕ) (y : Item P) → find g q.heap ≡ some y → (y ≡ x) ⊎ (item_lt x y ≡ true))
      × ((g : ℕ) → find g r.heap ≡ (if x.fingerprint == g then none else find g q.heap))
      × (mem x.fingerprint q.in_flight ≡ false)
      × (r.in_flight ≡ x.fingerprint ∷ q.in_flight)
  Serves q r waits = (q.heap ≡ []) × (q.closing ≡ false) × (r ≡ q)
  Serves q r ends = (q.heap ≡ []) × (q.closing ≡ true) × (r ≡ q)

  idle_before :
      (q : InvestigationQueue P) (x : Item P) (xs : List (Item P))
      → IsValid q
      → q.heap ≡ x ∷ xs
      → mem x.fingerprint q.in_flight ≡ false
  idle_before q x xs v e =
      let there : find x.fingerprint q.heap ≡ some x = ap (find x.fingerprint) e ∙ ground arith in
      ground (arith, v.disjoint x.fingerprint)

  take_item-Serves :
      (q : InvestigationQueue P) (x : Item P) (xs : List (Item P))
      → IsValid q
      → q.heap ≡ x ∷ xs
      → Serves q (notify_observer (take_item x xs q)) (takes x)
  unfolding take_item
  take_item-Serves q x xs v e =
      let kept = notify_observer_keeps (take_item x xs q) in
      let h : IsHeap (x ∷ xs) = subst IsHeap e v.heap_ordered in
      let idle = idle_before q x xs v e in
      (
        ap (find x.fingerprint) e ∙ ground arith,
        λ g y k.
            let k' : find g (x ∷ xs) ≡ some y = sym (ap (find g) e) ∙ k in
            ground (arith, Above-find g x y xs h.0),
        λ g. ap (find g) kept.0 ∙ rw (ap (find g) e) (ground (arith, h.2)),
        idle,
        kept.1 ∙ rw idle,
      )

  -- On a well-formed queue a worker waits only while nothing is pending and the queue is open, ends
  -- only when nothing is pending and it is closing, and else takes the pending job that comes before
  -- all the others, by priority and then by age, which no worker had and now one has.
  pub next-Serves : (q : InvestigationQueue P) → IsValid q → let (r, n) = next q in Serves q r n
  next-Serves q v =
      next_cases q (λ r. Serves q r.0 r.1)
        (λ e. if_cases (λ n. Serves q q n) q.closing (λ c. (e, c, refl)) (λ c. (e, c, refl)))
        (λ x xs e. take_item-Serves q x xs v e)
