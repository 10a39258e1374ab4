-- ===== src/Incidents/Tests.antt =====
-- Runs of the incident store (incident_store.py). The digest of a text is its length here.
use uyuni_ai.Common.{
  ℕ, ◌+◌, ◌≤◌, ◌==◌, ◌≡◌, ◌≢◌, refl, true, false, ◌&&◌, none, some, List, [], ◌∷◌, arith, leb,
  is_some, if◌then◌else◌,
}
use uyuni_ai.Common.Lists.{length}
use uyuni_ai.Common.Dict.{lookup, Unique}
use uyuni_ai.Common.Text.{lower}
use uyuni_ai.Anomaly.{Anomaly, warning, memory_usage, identity_key}
use uyuni_ai.Incidents.Identity.{
  incident_fingerprint, json_identity, json_string, escape_all, escape,
}
use uyuni_ai.Incidents.{
  Row, IncidentStore, active_on, prefer_more_severe, severity_rank, severity_text, reconcile,
  mark_emitted, mark_resolved, is_actionable, resolved_of,
}
use uyuni_ai.Incidents.Reconcile.{firings, resolutions}
use uyuni_ai.Incidents.Step.{next_row, next_firing, next_resolution, detected, reconcile_steps}
use uyuni_ai.Incidents.Lifecycle.{unemitted_retries, emitted_silences, NoWorse}
use uyuni_ai.Incidents.Resolution.{
  cycles, absent_for, resolves_after, unrecorded_retries, actionable_after,
}

abbrev digest : List ℕ → ℕ
digest bytes = length bytes

abbrev high_memory : Anomaly
high_memory = record {
  minion_id = "db1";
  metric_name = "memory_pressure";
  current_value = 91000;
  threshold = 90000;
  severity = warning;
  description = memory_usage 91000 none;
  service_name = none;
  resource = some "host-memory";
  context = [];
}

-- ["db1","memory_pressure","","host-memory"] has 42 characters
abbrev key : ℕ
key = 42

seen_high : detected digest (high_memory ∷ []) key ≡ some high_memory
unfolding prefer_more_severe incident_fingerprint json_identity json_string escape_all escape
    identity_key
seen_high = refl

seen_none : detected digest [] key ≡ none
unfolding prefer_more_severe
seen_none = refl

-- a payload is a number here; the incident has fired and was delivered at second 100
abbrev row : Row ℕ
row = record {
  minion_id = "db1";
  metric_name = "memory_pressure";
  service_name = "";
  resource = "host-memory";
  severity = "warning";
  last_emitted_severity = some "warning";
  active = true;
  first_seen = 90000000;
  last_seen = 100000000;
  last_emitted = some 100000000;
  consecutive_absent = 0;
  starts_at = 90;
  payload = some 5;
  resolved_at = none;
}

abbrev store : IncidentStore ℕ
store = record {
  cooldown_seconds = 3600;
  resolve_after_healthy_cycles = 3;
  incidents = (key, row) ∷ [];
}

abbrev empty_store : IncidentStore ℕ
empty_store = record { cooldown_seconds = 3600; resolve_after_healthy_cycles = 3; incidents = [] }

store-Unique : Unique store.incidents
store-Unique = (refl, tt)

row_on : active_on "db1" row ≡ true
unfolding active_on
row_on = refl

reconcile_steps_example :
    let (s', changes) = reconcile digest "db1" (high_memory ∷ []) 200000000 store in
    ((g : ℕ)
      → (lookup g s'.incidents
          ≡ next_row "db1" 200000000
              (detected digest (high_memory ∷ []) g)
              (lookup g store.incidents))
        × (firings g changes.firing
            ≡ next_firing "db1" 200000000 3600 g
                (detected digest (high_memory ∷ []) g)
                (lookup g store.incidents))
        × (resolutions g changes.resolved
            ≡ next_resolution "db1" 200000000 3 g
                (detected digest (high_memory ∷ []) g)
                (lookup g store.incidents)))
    × Unique s'.incidents
    × (s'.cooldown_seconds ≡ 3600)
    × (s'.resolve_after_healthy_cycles ≡ 3)
reconcile_steps_example =
    reconcile_steps digest "db1" (high_memory ∷ []) 200000000 store store-Unique

fires : firings key (reconcile digest "db1" (high_memory ∷ []) 200000000 empty_store).1.firing ≢ []
fires h =
    let e =
      (((reconcile_steps digest "db1" (high_memory ∷ []) 200000000 empty_store tt).0 key).1) in
    cc (e, h, seen_high)

same_rank : severity_rank (severity_text high_memory) ≤ severity_rank (severity_text high_memory)
same_rank = omega arith

unemitted_retries_example :
    firings key
      (reconcile digest "db1"
        (high_memory ∷ [])
        260000000
        (reconcile digest "db1" (high_memory ∷ []) 200000000 empty_store).0).1.firing
    ≢ []
unemitted_retries_example =
    unemitted_retries digest "db1" (high_memory ∷ []) (high_memory ∷ []) 200000000 260000000 key
      high_memory high_memory empty_store tt (omega arith) seen_high seen_high same_rank fires

as_delivered : severity_rank (severity_text high_memory) ≤ severity_rank (lower "warning")
unfolding severity_rank severity_text
as_delivered = omega arith

no_worse : NoWorse "warning" (detected digest (high_memory ∷ []) key)
no_worse = rw seen_high as_delivered

emitted_silences_example :
    firings key
      (reconcile digest "db1" (high_memory ∷ []) 3000000000 (
        cycles digest "db1"
          (([], 250000000) ∷ [])
          (mark_emitted key "warning" 6 200000000 (some 90) store))).1.firing
    ≡ []
emitted_silences_example =
    emitted_silences digest "db1" "warning" (([], 250000000) ∷ []) (high_memory ∷ []) 200000000
      3000000000 key 6 row store store-Unique refl row_on refl (omega arith) no_worse

resolves_after_example :
    resolutions key
      (reconcile digest "db1" [] 400000000
        (cycles digest "db1" (([], 200000000) ∷ ([], 300000000) ∷ []) store)).1.resolved
    ≡ (if leb 3 (0 + 2 + 1)
        then record { fingerprint = key; row = absent_for (2 + 1) row } ∷ []
        else [])
resolves_after_example =
    resolves_after digest "db1" key 400000000 [] (([], 200000000) ∷ ([], 300000000) ∷ []) row store
      store-Unique refl row_on (seen_none, (seen_none, tt)) seen_none

misses_twice :
    resolutions key
      (reconcile digest "db1" [] 400000000
        (record store { resolve_after_healthy_cycles = 1 })).1.resolved
    ≢ []
unfolding resolved_of active_on
misses_twice h =
    let s = record store { resolve_after_healthy_cycles = 1 } in
    let e = (((reconcile_steps digest "db1" [] 400000000 s store-Unique).0 key).2) in
    cc (e, h, seen_none)

unrecorded_retries_example :
    resolutions key
      (reconcile digest "db1" [] 500000000
        (reconcile digest "db1" [] 400000000
          (record store { resolve_after_healthy_cycles = 1 })).0).1.resolved
    ≢ []
unrecorded_retries_example =
    unrecorded_retries digest "db1" [] [] 400000000 500000000 key
      (record store { resolve_after_healthy_cycles = 1 }) store-Unique seen_none seen_none
      misses_twice

actionable_after_example :
    (is_actionable key 90 (reconcile digest "db1" (high_memory ∷ []) 200000000 store).0
      ≡ (is_some (detected digest (high_memory ∷ []) key) && 90 == 90))
    × (is_actionable key 90 (mark_resolved key 200000000 store) ≡ false)
    × (is_actionable key 90 (mark_emitted key "warning" 6 200000000 (some 90) store)
        ≡ is_actionable key 90 store)
actionable_after_example =
    actionable_after digest "db1" "warning" (high_memory ∷ []) 200000000 key 90 6 (some 90) row
      store store-Unique refl row_on
