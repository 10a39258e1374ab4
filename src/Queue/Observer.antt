-- ===== src/Queue/Observer.antt =====
-- The observer of the queue (investigation_queue.py) and the statistics that it is called with.
use uyuni_ai.Common.{
  ℕ, ◌≡◌, false, Option, none, List, ◌∷◌, String, arith, ◌⊎◌, inl, inr, Bool-cases,
}
use uyuni_ai.Queue.Heap.{Item}
use uyuni_ai.Queue.{
  InvestigationQueue, EnqueueStatus, QueueStats, stats, notify_observer, reject, coalesce, admit,
  enqueue, cancel, next, settle, release, Outcome,
}
use uyuni_ai.Queue.Cases.{enqueue_cases, cancel_cases, next_cases}

module _ {P : Type 0} where
  -- there is no observer, or its last call had the statistics of now
  abbrev pub IsReported : InvestigationQueue P → Type 0
  IsReported q = (q.observer ≡ false) ⊎ ((old : List QueueStats) × (q.observed ≡ stats q ∷ old))

  notify_observer-IsReported : (q : InvestigationQueue P) → IsReported (notify_observer q)
  unfolding notify_observer
  notify_observer-IsReported q = elim (Bool-cases q.observer) [
    | inl e ↦ inr (q.observed, ground arith)
    | inr e ↦ inl (ground arith)
  ]

  reject-IsReported : (q : InvestigationQueue P) (s : EnqueueStatus) → IsReported (reject q s).0
  unfolding reject
  reject-IsReported q s = notify_observer-IsReported _

  coalesce-IsReported :
      (f priority : ℕ) (payload : P) (w : Item P) (q : InvestigationQueue P)
      → IsReported (coalesce f priority payload w q).0
  unfolding coalesce
  coalesce-IsReported f priority payload w q = notify_observer-IsReported _

  admit-IsReported :
      (f priority : ℕ) (payload : P) (e : Option ℕ) (q : InvestigationQueue P)
      → IsReported (admit f priority payload e q).0
  unfolding admit
  admit-IsReported f priority payload e q = notify_observer-IsReported _

  enqueue-IsReported :
      (f : ℕ) (severity : String) (payload : P) (q : InvestigationQueue P)
      → IsReported q
      → IsReported (enqueue f severity payload q).0
  enqueue-IsReported f severity payload q v =
      enqueue_cases q f payload (λ r. IsReported r.0) severity (λ _. reject-IsReported q _)
        (λ _ _. v) (λ _ _ w _. coalesce-IsReported f _ payload w q)
        (λ _ _ _ _. admit-IsReported f _ payload none q) (λ _ _ _ _ _ _ _ _. reject-IsReported q _)
        (λ _ _ _ x xs _ _ _. admit-IsReported f _ payload _ _)

  cancel-IsReported : (f : ℕ) (q : InvestigationQueue P) → IsReported q → IsReported (cancel f q).0
  cancel-IsReported f q v =
      cancel_cases q f (λ r. IsReported r.0) (λ _. v) (λ w _. notify_observer-IsReported _)

  next-IsReported : (q : InvestigationQueue P) → IsReported q → IsReported (next q).0
  next-IsReported q v =
      next_cases q (λ r. IsReported r.0) (λ _. v) (λ x xs _. notify_observer-IsReported _)

  release-IsReported : (f : ℕ) (q : InvestigationQueue P) → IsReported (release f q)
  unfolding release
  release-IsReported f q = notify_observer-IsReported _

  -- If there is no observer or its last call had the current statistics, so it is after `enqueue`, `cancel` and
  -- `_next`, whatever they answer, and after a worker is done with a job, however that ended.
  pub calls-IsReported :
      (q : InvestigationQueue P)
      → IsReported q
      → ((f : ℕ) (severity : String) (payload : P) → IsReported (enqueue f severity payload q).0)
        × ((f : ℕ) → IsReported (cancel f q).0)
        × IsReported (next q).0
        × ((f : ℕ) (outcome : Outcome) → IsReported (release f (settle outcome q)))
  calls-IsReported q v = (
    λ f severity payload. enqueue-IsReported f severity payload q v,
    λ f. cancel-IsReported f q v,
    next-IsReported q v,
    λ f outcome. release-IsReported f _,
  )
