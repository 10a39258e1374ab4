-- ===== src/Detector/Locks/Report.antt =====
-- What `postgres_blocking_anomalies` (anomaly_detector.py) reports of the waits.
use package.text.Mathlib.Text.{◌==◌ as str_eq}
use package.text.Mathlib.TextEquality.{eq_iff}
use uyuni_ai.Common.{
  ℕ, ◌≤◌, ◌<◌, Bool-cases, ◌≡◌, refl, ap, subst, ◌⊎◌, inl, inr, some, List, [], ◌∷◌, ◌++◌, String,
  arith, ltb, leb, ltb→lt, if◌then◌else◌, if_cases,
}
use uyuni_ai.Common.Lists.{All}
use uyuni_ai.Common.Text.{codes, codes_lt}
use uyuni_ai.Anomaly.{Anomaly, warning, critical, LockPair}
use uyuni_ai.Detector.Locks.{
  LockThresholds, warning_at, critical_at, Groups, add_pair, by_database, insert_group,
  sorted_groups, longest_wait, lock_resource, group_anomaly, anomalies_of,
  postgres_blocking_anomalies,
}

-- a wait of the list has passed `n` seconds
abbrev pub SomeWait : ℕ → List LockPair → Type 0
SomeWait n [] = ⊥
SomeWait n (p ∷ ps) = (n ≤ p.blocked_seconds) ⊎ SomeWait n ps

-- the group of a database holds a wait of at least `n` seconds
abbrev pub Holds : String → ℕ → Groups → Type 0
Holds d n [] = ⊥
Holds d n (g ∷ groups) = ((g.0 ≡ d) × SomeWait n g.1) ⊎ Holds d n groups

SomeWait-append : (n : ℕ) (ps qs : List LockPair) → SomeWait n ps → SomeWait n (ps ++ qs)
SomeWait-append n [] qs h = absurd h
SomeWait-append n (p ∷ ps) qs (inl h) = inl h
SomeWait-append n (p ∷ ps) qs (inr h) = inr (SomeWait-append n ps qs h)

SomeWait-last : (p : LockPair) (ps : List LockPair) → SomeWait p.blocked_seconds (ps ++ (p ∷ []))
SomeWait-last p [] = inl (omega arith)
SomeWait-last p (q ∷ ps) = inr (SomeWait-last p ps)

add_pair-Holds :
    (p : LockPair) (groups : Groups) → Holds p.database p.blocked_seconds (add_pair p groups)
unfolding add_pair
add_pair-Holds p [] = inl (refl, inl (omega arith))
add_pair-Holds p ((d, ps) ∷ groups) =
    if_cases (Holds p.database p.blocked_seconds) (str_eq d p.database)
      (λ e. inl ((eq_iff d p.database).0 e, SomeWait-last p ps))
      (λ _. inr (add_pair-Holds p groups))

add_pair_keeps :
    (d : String) (n : ℕ) (p : LockPair) (groups : Groups)
    → Holds d n groups
    → Holds d n (add_pair p groups)
unfolding add_pair
add_pair_keeps d n p [] h = absurd h
add_pair_keeps d n p ((c, ps) ∷ groups) (inl h) =
    if_cases (Holds d n) (str_eq c p.database) (λ _. inl (h.0, SomeWait-append n ps (p ∷ []) h.1))
      (λ _. inl h)
add_pair_keeps d n p ((c, ps) ∷ groups) (inr h) =
    if_cases (Holds d n) (str_eq c p.database) (λ _. inr h)
      (λ _. inr (add_pair_keeps d n p groups h))

by_database_keeps :
    (d : String) (n limit : ℕ) (ps : List LockPair) (groups : Groups)
    → Holds d n groups
    → Holds d n (by_database limit ps groups)
unfolding by_database
by_database_keeps d n limit [] groups h = h
by_database_keeps d n limit (p ∷ ps) groups h = by_database_keeps d n limit ps _ (
    if_cases (Holds d n) (ltb p.blocked_seconds limit) (λ _. h)
      (λ _. add_pair_keeps d n p groups h))

-- a wait of the list is of the database and has lasted exactly `n` seconds
abbrev pub Waits : String → ℕ → List LockPair → Type 0
Waits d n [] = ⊥
Waits d n (p ∷ ps) = ((p.database ≡ d) × (p.blocked_seconds ≡ n)) ⊎ Waits d n ps

by_database-Holds :
    (d : String) (n limit : ℕ) (ps : List LockPair) (groups : Groups)
    → limit ≤ n
    → Waits d n ps
    → Holds d n (by_database limit ps groups)
unfolding by_database
by_database-Holds d n limit [] groups le h = absurd h
by_database-Holds d n limit (p ∷ ps) groups le (inr h) = by_database-Holds d n limit ps _ le h
by_database-Holds d n limit (p ∷ ps) groups le (inl (e, f)) = by_database_keeps d n limit ps _ (
    if_cases (Holds d n) (ltb p.blocked_seconds limit)
      (λ short. absurd (omega (arith, f, le, ltb→lt _ _ short)))
      (λ _.
        subst (λ k. Holds d k (add_pair p groups)) f
          (subst (λ c. Holds c p.blocked_seconds (add_pair p groups)) e (add_pair-Holds p groups))))

behind :
    (d : String) (n : ℕ) (g k : String × List LockPair) (groups inserted : Groups)
    → (Holds d n (g ∷ groups) → Holds d n inserted)
    → Holds d n (g ∷ k ∷ groups)
    → Holds d n (k ∷ inserted)
behind d n g k groups inserted rest (inl e) = inr (rest (inl e))
behind d n g k groups inserted rest (inr (inl e)) = inl e
behind d n g k groups inserted rest (inr (inr e)) = inr (rest (inr e))

insert_group_keeps :
    (d : String) (n : ℕ) (g : String × List LockPair) (groups : Groups)
    → Holds d n (g ∷ groups)
    → Holds d n (insert_group g groups)
unfolding insert_group
insert_group_keeps d n g [] h = h
insert_group_keeps d n g (k ∷ groups) h =
    if_cases (Holds d n) (codes_lt (codes k.0) (codes g.0))
      (λ _. behind d n g k groups (insert_group g groups) (insert_group_keeps d n g groups) h)
      (λ _. h)

sorted_groups-Holds :
    (d : String) (n : ℕ) (groups : Groups) → Holds d n groups → Holds d n (sorted_groups groups)
unfolding sorted_groups
sorted_groups-Holds d n [] h = h
sorted_groups-Holds d n (g ∷ groups) (inl h) =
    insert_group_keeps d n g (sorted_groups groups) (inl h)
sorted_groups-Holds d n (g ∷ groups) (inr h) =
    insert_group_keeps d n g (sorted_groups groups) (inr (sorted_groups-Holds d n groups h))

SomeWait-longest : (n : ℕ) (ps : List LockPair) → SomeWait n ps → n ≤ longest_wait ps
unfolding longest_wait
SomeWait-longest n [] h = absurd h
SomeWait-longest n (p ∷ ps) (inl h) = omega (arith, h)
SomeWait-longest n (p ∷ ps) (inr h) = omega (arith, SomeWait-longest n ps h)

-- an anomaly of the database says that some work waits for at least `n` seconds
abbrev pub Reported : String → ℕ → List Anomaly → Type 0
Reported d n [] = ⊥
Reported d n (a ∷ as') =
    ((a.resource ≡ some (lock_resource d)) × (n ≤ a.current_value)) ⊎ Reported d n as'

anomalies_of-Reported :
    (d : String) (n : ℕ) (t : LockThresholds) (m : String) (groups : Groups)
    → Holds d n groups
    → Reported d n (anomalies_of t m groups)
unfolding anomalies_of group_anomaly
anomalies_of-Reported d n t m [] h = absurd h
anomalies_of-Reported d n t m ((c, ps) ∷ groups) (inl h) =
    inl (ap (λ k. some (lock_resource k)) h.0, SomeWait-longest n ps h.1)
anomalies_of-Reported d n t m ((c, ps) ∷ groups) (inr h) =
    inr (anomalies_of-Reported d n t m groups h)

-- every group holds a wait of at least the limit
abbrev Long : ℕ → Groups → Type 0
Long limit groups = All (λ (g : String × List LockPair). limit ≤ longest_wait g.1) groups

longest_wait-append :
    (ps : List LockPair) (p : LockPair) → longest_wait ps ≤ longest_wait (ps ++ (p ∷ []))
unfolding longest_wait
longest_wait-append [] p = omega arith
longest_wait-append (q ∷ ps) p = omega (arith, longest_wait-append ps p)

add_pair-Long :
    (limit : ℕ) (p : LockPair) (groups : Groups)
    → limit ≤ p.blocked_seconds
    → Long limit groups
    → Long limit (add_pair p groups)
unfolding add_pair longest_wait
add_pair-Long limit p [] le h = (omega arith, tt)
add_pair-Long limit p ((c, ps) ∷ groups) le h =
    if_cases (Long limit) (str_eq c p.database)
      (λ _. (omega (arith, h.0, longest_wait-append ps p), h.1))
      (λ _. (h.0, add_pair-Long limit p groups le h.1))

by_database-Long :
    (limit : ℕ) (ps : List LockPair) (groups : Groups)
    → Long limit groups
    → Long limit (by_database limit ps groups)
unfolding by_database
by_database-Long limit [] groups h = h
by_database-Long limit (p ∷ ps) groups h = by_database-Long limit ps _ (
    if_cases (Long limit) (ltb p.blocked_seconds limit) (λ _. h)
      (λ long. add_pair-Long limit p groups (ground arith) h))

insert_group-Long :
    (limit : ℕ) (g : String × List LockPair) (groups : Groups)
    → Long limit (g ∷ groups)
    → Long limit (insert_group g groups)
unfolding insert_group
insert_group-Long limit g [] h = h
insert_group-Long limit g (k ∷ groups) h =
    if_cases (Long limit) (codes_lt (codes k.0) (codes g.0))
      (λ _. (h.1.0, insert_group-Long limit g groups (h.0, h.1.1))) (λ _. h)

sorted_groups-Long :
    (limit : ℕ) (groups : Groups) → Long limit groups → Long limit (sorted_groups groups)
unfolding sorted_groups
sorted_groups-Long limit [] h = h
sorted_groups-Long limit (g ∷ groups) h =
    insert_group-Long limit g (sorted_groups groups) (h.0, sorted_groups-Long limit groups h.1)

-- the severity of an anomaly is the one that its wait deserves
abbrev pub Judged : LockThresholds → Anomaly → Type 0
Judged t a =
    (a.threshold ≤ a.current_value)
    × (warning_at t ≤ a.current_value)
    × (a.severity ≡ (if leb (critical_at t) a.current_value then critical else warning))

anomalies_of-Judged :
    (t : LockThresholds) (m : String) (groups : Groups)
    → Long (warning_at t) groups
    → All (Judged t) (anomalies_of t m groups)
unfolding anomalies_of group_anomaly
anomalies_of-Judged t m [] h = tt
anomalies_of-Judged t m ((c, ps) ∷ groups) h =
    ((ground (arith, h.0), h.0, refl), anomalies_of-Judged t m groups h.1)

-- a wait is too short for a warning, or an anomaly of its database is about at least as long a wait
abbrev pub IsReported : LockThresholds → List Anomaly → LockPair → Type 0
IsReported t found p =
    (p.blocked_seconds < warning_at t) ⊎ Reported p.database p.blocked_seconds found

every_long_wait :
    (ps all_pairs : List LockPair) (t : LockThresholds) (minion_id : String)
    → ((d : String) (n : ℕ) → Waits d n ps → Waits d n all_pairs)
    → All (IsReported t (postgres_blocking_anomalies all_pairs t minion_id)) ps
unfolding postgres_blocking_anomalies
every_long_wait [] all_pairs t m f = tt
every_long_wait (p ∷ ps) all_pairs t m f = (
  elim (Bool-cases (ltb p.blocked_seconds (warning_at t))) [
    | inl q ↦ inl (ltb→lt _ _ q)
    | inr q ↦
        let d = p.database in
        let n = p.blocked_seconds in
        inr (
          anomalies_of-Reported d n t m _ (
            sorted_groups-Holds d n _ (
              by_database-Holds d n (warning_at t) all_pairs [] (ground arith)
                (f d n (inl (refl, refl))))))
  ],
  every_long_wait ps all_pairs t m (λ d n w. f d n (inr w)),
)

-- Every wait for a lock that reaches the warning threshold is reported: there is an anomaly of its
-- database whose value is at least that wait. And every anomaly, whatever the waits, has a value that
-- reaches the warning threshold and its own threshold, and is critical exactly if the value reaches
-- the critical threshold.
pub postgres_blocking_anomalies-Reported :
    (ps : List LockPair) (t : LockThresholds) (minion_id : String)
    → All (IsReported t (postgres_blocking_anomalies ps t minion_id)) ps
      × All (Judged t) (postgres_blocking_anomalies ps t minion_id)
unfolding postgres_blocking_anomalies
postgres_blocking_anomalies-Reported ps t m = (
  every_long_wait ps ps t m (λ d n w. w),
  anomalies_of-Judged t m _
      (sorted_groups-Long (warning_at t) _ (by_database-Long (warning_at t) ps [] tt)),
)
