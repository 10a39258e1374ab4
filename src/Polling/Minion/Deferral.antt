-- ===== src/Polling/Minion/Deferral.antt =====
-- The resolution of an incident by `process_minion_anomalies` (main.py), and the worker that may have it.
use uyuni_ai.Common.{
  ℕ, ◌≡◌, refl, ap, ◌∙◌, Bool, true, false, none, arith, if◌then◌else◌, ==_refl, ◌==◌,
}
use uyuni_ai.Common.Lists.{mem}
use uyuni_ai.Incidents.{IncidentRecord}
use uyuni_ai.Queue.Heap.{find}
use uyuni_ai.Queue.{InvestigationQueue, CancelStatus, cancel}
use uyuni_ai.Queue.Invariant.{IsValid}
use uyuni_ai.Queue.Service.{Cancels, cancel-Cancels}
use uyuni_ai.Alerts.{AlertPayload}
use uyuni_ai.Polling.Minion.{World, Surroundings, conclude, after_cancel, resolve_one}

-- What a round has done with an incident, by whether a worker has it: nothing, or it went on with the
-- resolution in a world in which no job of the incident is left.
abbrev pub Resolves : Surroundings → IncidentRecord AlertPayload → World → World → Bool → Type 0
Resolves e i w w' true = w' ≡ w
Resolves e i w w' false =
    (t : World) × (find i.fingerprint t.queue.heap ≡ none)
    × (mem i.fingerprint t.queue.in_flight ≡ false)
    × ((g : ℕ) → find g t.queue.heap ≡ (if i.fingerprint == g then none else find g w.queue.heap))
    × (t.store ≡ w.store)
    × (t.sent ≡ w.sent)
    × (w' ≡ conclude e i t)

module _ (e : Surroundings) (i : IncidentRecord AlertPayload) (w : World) where
  by_status :
      (q : InvestigationQueue _) (status : CancelStatus)
      → IsValid w.queue
      → Cancels w.queue i.fingerprint q status
      → Resolves e i w
          (after_cancel e i status (record w { queue = q }))
          (mem i.fingerprint w.queue.in_flight)
  unfolding after_cancel
  by_status q CancelStatus.in_flight v (_, m, same) = rw m (ap (λ k. record w { queue = k }) same)
  by_status q CancelStatus.not_found v (absent, m, same) = rw m (
    record w { queue = q },
    ap (λ k. find i.fingerprint k.heap) same ∙ absent,
    ap (λ k. mem i.fingerprint k.in_flight) same ∙ m,
    λ g. ap (λ k. find g k.heap) same ∙ ground (arith, absent),
    refl,
    refl,
    refl,
  )
  by_status q CancelStatus.cancelled v ((x, there), left, flight) =
      let idle : mem i.fingerprint w.queue.in_flight ≡ false =
        ground (arith, there, v.disjoint i.fingerprint) in
      rw idle (
        record w { queue = q },
        left i.fingerprint ∙ rw (==_refl i.fingerprint) refl,
        ap (mem i.fingerprint) flight ∙ idle,
        left,
        refl,
        refl,
        refl,
      )

-- On a well-formed queue, as it is when the loop gets its lock, an incident that is to be resolved is
-- left as it is if a worker has it: nothing is posted and nothing is recorded. If no worker has it,
-- its pending job, and no other, is withdrawn first, and the resolution goes on in a world in which
-- no job of the incident is pending or with a worker.
pub resolve_one-Resolves :
    (e : Surroundings) (i : IncidentRecord AlertPayload) (w0 : World)
    → IsValid (e.before_cancel i.fingerprint w0).queue
    → let w = e.before_cancel i.fingerprint w0 in
      Resolves e i w (resolve_one e i w0) (mem i.fingerprint w.queue.in_flight)
unfolding resolve_one
resolve_one-Resolves e i w0 v =
    let w = e.before_cancel i.fingerprint w0 in
    by_status e i w (cancel i.fingerprint w.queue).0 (cancel i.fingerprint w.queue).1 v
      (cancel-Cancels i.fingerprint w.queue v)
