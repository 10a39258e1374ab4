-- ===== src/Evidence/Records/Ledger.antt =====
-- The ledger of evidence (evidence.py) numbers its records 1, 2, 3, … and never renames one.
use uyuni_ai.Common.{
  ℕ, suc, ◌+◌, ◌≤◌, ◌≡◌, refl, true, ◌==◌, Option, none, some, List, [], ◌∷◌, ◌++◌, String, arith,
  ==_refl, Bool-cases, inl, inr, if◌then◌else◌,
}
use uyuni_ai.Common.Lists.{length, All, take, length-append, length-take-le}
use uyuni_ai.Evidence.Records.{
  EvidenceStatus, EvidenceId, EvidenceRecord, EvidenceLedger, add, get, in_ids, numbered, cut,
  truncated_mark,
}

-- the records have the IDs n + 1, n + 2, …
abbrev pub NumberedFrom : ℕ → List EvidenceRecord → Type 0
NumberedFrom n [] = Unit
NumberedFrom n (r ∷ rs) = (r.id ≡ suc n) × NumberedFrom (suc n) rs

NumberedFrom-append :
    (n : ℕ) (rs : List EvidenceRecord) (r : EvidenceRecord)
    → NumberedFrom n rs
    → r.id ≡ n + length rs + 1
    → NumberedFrom n (rs ++ (r ∷ []))
NumberedFrom-append n [] r h e = (omega arith, tt)
NumberedFrom-append n (x ∷ rs) r h e = (h.0, NumberedFrom-append (suc n) rs r h.1 (omega arith))

get_below : (n k : ℕ) (rs : List EvidenceRecord) → NumberedFrom n rs → k ≤ n → get k rs ≡ none
unfolding get
get_below n k [] h le = refl
get_below n k (r ∷ rs) h le = ground (arith, get_below (suc n) k rs h.1)

get-append :
    (n k : ℕ) (rs : List EvidenceRecord) (r : EvidenceRecord)
    → NumberedFrom n rs
    → r.id ≡ n + length rs + 1
    → get k (rs ++ (r ∷ [])) ≡ (if r.id == k then some r else get k rs)
unfolding get
get-append n k [] r h e = refl
get-append n k (x ∷ rs) r h e =
    ground (arith, get-append (suc n) k rs r h.1, get_below (suc n) x.id rs h.1)

-- an ID of the ledger finds its record
pub get_of_in_ids :
    (n : ℕ) (rs : List EvidenceRecord)
    → in_ids (numbered n) rs ≡ true
    → (r : EvidenceRecord) × (get n rs ≡ some r)
unfolding in_ids get
get_of_in_ids n [] h = cc
get_of_in_ids n (x ∷ rs) h = elim (Bool-cases (x.id == n)) [
  | inl e ↦ (x, rw e refl)
  | inr e ↦ let (r, g) = get_of_in_ids n rs (ground arith) in (r, rw e g)
]

in_ids-cons :
    (x : EvidenceRecord) (rs xs : List EvidenceRecord)
    → All (λ r. in_ids (numbered r.id) rs ≡ true) xs
    → All (λ r. in_ids (numbered r.id) (x ∷ rs) ≡ true) xs
unfolding in_ids
in_ids-cons x rs [] h = tt
in_ids-cons x rs (y ∷ ys) h = (ground (arith, h.0), in_ids-cons x rs ys h.1)

-- every record's ID is an ID of the ledger
pub own_ids : (rs : List EvidenceRecord) → All (λ r. in_ids (numbered r.id) rs ≡ true) rs
unfolding in_ids
own_ids [] = tt
own_ids (r ∷ rs) = (ground (arith, ==_refl r.id), in_ids-cons r rs rs (own_ids rs))

-- Adding to a ledger whose records are numbered from 1 in order keeps them so; the new record has the
-- next number and can be found under it, every other is found as before, and its details are at
-- most the limit and the truncation mark long.
pub add_stable :
    (source check : String) (status : EvidenceStatus) (summary rendered : List ℕ)
    (target : Option String) (limit : ℕ) (contradicts : List EvidenceId) (now : ℕ)
    (ledger : EvidenceLedger)
    → NumberedFrom 0 ledger.records
    → let (ledger', made) =
        add source check status summary rendered target limit contradicts now ledger in
      NumberedFrom 0 ledger'.records
      × (made.id ≡ length ledger'.records)
      × ((k : ℕ)
          → get k ledger'.records ≡ (if made.id == k then some made else get k ledger.records))
      × (length made.details ≤ limit + length truncated_mark)
unfolding add
add_stable source check status summary rendered target limit contradicts now ledger h = (
  NumberedFrom-append 0 ledger.records _ h (omega arith),
  rw (length-append ledger.records) (omega arith),
  λ k. get-append 0 k ledger.records _ h (omega arith),
  details_bound limit rendered,
)
  where
    details_bound :
        (limit : ℕ) (rendered : List ℕ)
        → length (cut limit rendered) ≤ limit + length truncated_mark
    details_bound limit rendered =
        unfold cut in
        ground
          (arith, length-append (take limit rendered) truncated_mark, length-take-le limit rendered)
