-- ===== src/Incidents/Table.antt =====
-- The statements on the table of incidents (incident_store.py), by the row that they leave under a key.
use uyuni_ai.Common.{
  ℕ, ◌≡◌, Bool, ◌==◌, Option, none, some, [], ◌∷◌, String, arith, if◌then◌else◌, on_option_cases,
}
use uyuni_ai.Common.Dict.{Dict, lookup, Unique, lookup-insert, Unique-insert}
use uyuni_ai.Anomaly.{Anomaly}
use uyuni_ai.Incidents.{Row, update, always, new_row, reopened, upsert, seen_again, write_of}

module _ {P : Type 0} where
  -- an UPDATE of one row
  abbrev pub updated : (Row P → Bool) → (Row P → Row P) → Option (Row P) → Option (Row P)
  updated p f none = none
  updated p f (some r) = some (if p r then f r else r)

  pub lookup-update :
      (k j : ℕ) (p : Row P → Bool) (f : Row P → Row P) (d : Dict (Row P))
      → lookup j (update k p f d) ≡ (if k == j then updated p f (lookup j d) else lookup j d)
  lookup-update k j p f [] = ground arith
  lookup-update k j p f ((i, r) ∷ d) = ground (arith, lookup-update k j p f d)

  pub Unique-update :
      (k : ℕ) (p : Row P → Bool) (f : Row P → Row P) (d : Dict (Row P))
      → Unique d
      → Unique (update k p f d)
  Unique-update k p f [] u = tt
  Unique-update k p f ((i, r) ∷ d) u =
      ground (arith, Unique-update k p f d u.1, lookup-update k i p f d)

  -- the row that an INSERT with its conflict clause leaves
  abbrev pub upserted : String → Anomaly → ℕ → Option (Row P) → Row P
  upserted m a now none = new_row m a now
  upserted m a now (some r) = reopened a now r

  pub lookup-upsert :
      (k j : ℕ) (m : String) (a : Anomaly) (now : ℕ) (d : Dict (Row P))
      → lookup j (upsert k m a now d)
        ≡ (if k == j then some (upserted m a now (lookup k d)) else lookup j d)
  unfolding upsert
  lookup-upsert k j m a now d =
      ground
        (arith, lookup-insert k j (new_row m a now) d, lookup-update k j always (reopened a now) d)

  Unique-upsert :
      (k : ℕ) (m : String) (a : Anomaly) (now : ℕ) (d : Dict (Row P))
      → Unique d
      → Unique (upsert k m a now d)
  unfolding upsert
  Unique-upsert k m a now d u =
      on_option_cases Unique (lookup k d) (λ _. Unique-insert k _ d u)
        (λ _ _. Unique-update k _ _ d u)

  -- the row after the statement for an anomaly, by its active row and the row of the table
  abbrev pub written : String → ℕ → Anomaly → Option (Row P) → Option (Row P) → Option (Row P)
  written m now a none old = some (upserted m a now old)
  written m now a (some _) old = updated always (seen_again a now) old

  pub lookup-write_of :
      (k j : ℕ) (m : String) (a : Anomaly) (now : ℕ) (active : Option (Row P)) (d : Dict (Row P))
      → lookup j (write_of m now k a active d)
        ≡ (if k == j then written m now a active (lookup j d) else lookup j d)
  unfolding write_of
  lookup-write_of k j m a now none d = ground (arith, lookup-upsert k j m a now d)
  lookup-write_of k j m a now (some r) d = lookup-update k j always (seen_again a now) d

  pub Unique-write_of :
      (k : ℕ) (m : String) (a : Anomaly) (now : ℕ) (active : Option (Row P)) (d : Dict (Row P))
      → Unique d
      → Unique (write_of m now k a active d)
  unfolding write_of
  Unique-write_of k m a now none d u = Unique-upsert k m a now d u
  Unique-write_of k m a now (some r) d u = Unique-update k _ _ d u
