-- ===== src/Queue/Cases.antt =====
-- The branches of `enqueue`, `cancel` and `_next` (investigation_queue.py): to show something of a
-- call, it is enough to show it of what each branch returns.
use uyuni_ai.Common.{
  ℕ, ◌≡◌, true, false, inl, inr, none, some, List, [], ◌∷◌, String, leb, if◌then◌else◌, ap, ◌∙◌,
  not, arith, ◌⊎◌, if_cases, on_option_cases, on_list_cases,
}
use uyuni_ai.Common.Lists.{length, mem}
use uyuni_ai.Common.Dict.{lookup}
use uyuni_ai.Queue.Heap.{Item, heap_max}
use uyuni_ai.Queue.{
  InvestigationQueue, EnqueueStatus, EnqueueResult, CancelStatus, rejected_full, rejected_closed,
  reject, result, coalesce, admit, evict, enqueue_full, enqueue_new, enqueue, cancel, cancelled,
  not_found, next, Next, waits, ends, takes, notify_observer, withdraw, take_item,
  priority_for_severity,
}

-- What an `enqueue` of `f` at `priority` may come to, on a queue `q`, as the six premises from which
-- something follows of its answer.
module _ {P : Type 0} (q : InvestigationQueue P) (f : ℕ) (payload : P) where
  enqueue_full_cases {ℓ} :
      (R : InvestigationQueue P × EnqueueResult → Type ℓ) (priority : ℕ) (w : Item P)
      → (leb w.priority priority ≡ true → R (reject q rejected_full))
      → (leb w.priority priority ≡ false
          → R (admit f priority payload (some w.fingerprint) (evict w q)))
      → R (enqueue_full f priority payload w q)
  unfolding enqueue_full
  enqueue_full_cases R priority w no_less less = if_cases R _ no_less less

  enqueue_new_cases {ℓ} :
      (R : InvestigationQueue P × EnqueueResult → Type ℓ) (priority : ℕ)
      → (length q.heap ≡ 0 → R (admit f priority payload none q))
      → (leb q.max_pending (length q.heap) ≡ false → R (admit f priority payload none q))
      → ((x : Item P) (xs : List (Item P))
          → q.heap ≡ x ∷ xs
          → leb q.max_pending (length q.heap) ≡ true
          → leb (heap_max x xs).priority priority ≡ true
          → R (reject q rejected_full))
      → ((x : Item P) (xs : List (Item P))
          → q.heap ≡ x ∷ xs
          → leb q.max_pending (length q.heap) ≡ true
          → leb (heap_max x xs).priority priority ≡ false
          → R (
              admit f priority payload
                (some (heap_max x xs).fingerprint)
                (evict (heap_max x xs) q)))
      → R (enqueue_new f priority payload q)
  unfolding enqueue_new
  enqueue_new_cases R priority empty fits no_less less =
      on_list_cases R q.heap (λ e. empty (ap length e))
        λ x xs e.
          if_cases R (leb q.max_pending (length (x ∷ xs)))
            (λ full.
              let full' : leb q.max_pending (length q.heap) ≡ true =
                ap (λ h. leb q.max_pending (length h)) e ∙ full in
              enqueue_full_cases R priority (heap_max x xs) (no_less x xs e full')
                (less x xs e full'))
            (λ room. fits (ap (λ h. leb q.max_pending (length h)) e ∙ room))

  pub enqueue_cases {ℓ} :
      (R : InvestigationQueue P × EnqueueResult → Type ℓ) (severity : String)
      → (q.accepting ≡ false → R (reject q rejected_closed))
      → (q.accepting ≡ true
          → mem f q.in_flight ≡ true
          → R (q, result q EnqueueStatus.in_flight none))
      → (q.accepting ≡ true
          → mem f q.in_flight ≡ false
          → (w : Item P) → lookup f q.pending ≡ some w
          → R (coalesce f (priority_for_severity severity) payload w q))
      → (q.accepting ≡ true
          → mem f q.in_flight ≡ false
          → lookup f q.pending ≡ none
          → (length q.heap ≡ 0) ⊎ (leb q.max_pending (length q.heap) ≡ false)
          → R (admit f (priority_for_severity severity) payload none q))
      → (q.accepting ≡ true
          → mem f q.in_flight ≡ false
          → lookup f q.pending ≡ none
          → (x : Item P) (xs : List (Item P)) → q.heap ≡ x ∷ xs
          → leb q.max_pending (length q.heap) ≡ true
          → leb (heap_max x xs).priority (priority_for_severity severity) ≡ true
          → R (reject q rejected_full))
      → (q.accepting ≡ true
          → mem f q.in_flight ≡ false
          → lookup f q.pending ≡ none
          → (x : Item P) (xs : List (Item P)) → q.heap ≡ x ∷ xs
          → leb q.max_pending (length q.heap) ≡ true
          → leb (heap_max x xs).priority (priority_for_severity severity) ≡ false
          → R (
              admit f
                (priority_for_severity severity)
                payload
                (some (heap_max x xs).fingerprint)
                (evict (heap_max x xs) q)))
      → R (enqueue f severity payload q)
  unfolding enqueue
  enqueue_cases R severity closed busy again fits full worse =
      if_cases R (not q.accepting) (λ c. closed (ground arith))
        λ o'.
          let o : q.accepting ≡ true = ground arith in
          if_cases R (mem f q.in_flight) (busy o) λ idle.
            on_option_cases R (lookup f q.pending)
              (λ new.
                enqueue_new_cases R (priority_for_severity severity) (λ e. fits o idle new (inl e))
                  (λ e. fits o idle new (inr e)) (full o idle new) (worse o idle new))
              (again o idle)

module _ {P : Type 0} (q : InvestigationQueue P) (f : ℕ) where
  pub cancel_cases {ℓ} :
      (R : InvestigationQueue P × CancelStatus → Type ℓ)
      → (lookup f q.pending ≡ none
          → R (q, if mem f q.in_flight then CancelStatus.in_flight else not_found))
      → ((w : Item P)
          → lookup f q.pending ≡ some w
          → R (notify_observer (withdraw f w q), cancelled))
      → R (cancel f q)
  unfolding cancel
  cancel_cases R absent there = on_option_cases R (lookup f q.pending) absent there

pub next_cases {ℓ} :
    {P : Type 0} (q : InvestigationQueue P) (R : InvestigationQueue P × Next P → Type ℓ)
    → (q.heap ≡ [] → R (q, if q.closing then ends else waits))
    → ((x : Item P) (xs : List (Item P))
        → q.heap ≡ x ∷ xs
        → R (notify_observer (take_item x xs q), takes x))
    → R (next q)
unfolding next
next_cases q R empty item = on_list_cases R q.heap empty item
