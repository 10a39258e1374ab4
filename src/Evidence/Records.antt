-- ===== src/Evidence/Records.antt =====
-- `EvidenceRecord` and `EvidenceLedger` of uyuni_ai_agent/evidence.py, and the citations of a text.
-- A text is its code points. An evidence ID is kept as what it says: the number n of the text "En" as
-- `add` writes it (no leading zero, n ≥ 1), or any other text.
pub mod Ledger
use uyuni_ai.Common.{
  ℕ, zero, suc, ◌+◌, ◌-◌, ◌*◌, ◌==◌, Bool, true, false, not, ◌&&◌, ◌||◌, Option, none, some, List,
  [], ◌∷◌, ◌++◌, String, ltb, leb, if◌then◌else◌, on_option,
}
use uyuni_ai.Common.Lists.{length, take, is_nonempty, any}
use uyuni_ai.Common.Text.{codes}
use uyuni_ai.Common.Regex.{is_word, is_digit}

pub data EvidenceStatus : Type 0 where
  ok missing stale error contradictory : EvidenceStatus

abbrev pub is_ok : EvidenceStatus → Bool
is_ok ok = true
is_ok missing = false
is_ok stale = false
is_ok error = false
is_ok contradictory = false

pub data EvidenceId : Type 0 where
  numbered : ℕ → EvidenceId
  other : List ℕ → EvidenceId

pub record EvidenceRecord : Type 0 where
  pub id : ℕ
  pub source : String
  pub target : String
  pub check : String
  pub status : EvidenceStatus
  pub summary : List ℕ
  pub details : List ℕ
  pub observed_at : ℕ
  pub contradicts : List EvidenceId

pub record EvidenceLedger : Type 0 where
  pub target : String
  pub records : List EvidenceRecord

abbrev pub truncated_mark : List ℕ
truncated_mark = 10 ∷ codes "...[truncated]"

-- `rendered`, cut to the limit
pub cut : ℕ → List ℕ → List ℕ
cut limit rendered =
    if ltb limit (length rendered) then take limit rendered ++ truncated_mark else rendered

abbrev pub target_or : Option String → String → String
target_or none t = t
target_or (some s) t = s

-- `EvidenceLedger.add`; `rendered` is `details` as a text, and `now` the time of the record
pub add :
    String
    → String
    → EvidenceStatus
    → List ℕ
    → List ℕ
    → Option String
    → ℕ
    → List EvidenceId
    → ℕ
    → EvidenceLedger
    → EvidenceLedger × EvidenceRecord
add source check status summary rendered target limit contradicts now ledger =
    (record ledger { records = ledger.records ++ (made ∷ []) }, made)
  where
    made : EvidenceRecord
    made = record {
      id = length ledger.records + 1;
      source = source;
      target = target_or target ledger.target;
      check = check;
      status = status;
      summary = summary;
      details = cut limit rendered;
      observed_at = now;
      contradicts = contradicts;
    }

-- `EvidenceLedger.get`
unfoldable pub get : ℕ → List EvidenceRecord → Option EvidenceRecord
get n [] = none
get n (r ∷ rs) = if r.id == n then some r else get n rs

-- evidence_id in ledger.ids
unfoldable pub in_ids : EvidenceId → List EvidenceRecord → Bool
in_ids (numbered n) rs = any (λ r. r.id == n) rs
in_ids (other t) rs = false

-- the number that the digits at the front of a text spell, from the value so far, and the rest
unfoldable pub digits_from : ℕ → List ℕ → ℕ × List ℕ
digits_from n [] = (n, [])
digits_from n (c ∷ cs) =
    let rest = digits_from (n * 10 + (c - b'0')) cs in if is_digit c then rest else (n, c ∷ cs)

abbrev ends_word : (ℕ → Bool) → List ℕ → Bool
ends_word u [] = true
ends_word u (c ∷ _) = not (is_word u c)

-- `E[1-9][0-9]*\b` at this place: the number, if it matches
unfoldable pub id_at : (ℕ → Bool) → List ℕ → Option ℕ
id_at u [] = none
id_at u (c ∷ cs) =
    if c == b'E' && (is_nonempty cs && not (starts_zero cs))
    then accept (digits_from 0 cs)
    else none
  where
    starts_zero : List ℕ → Bool
    starts_zero [] = true
    starts_zero (d ∷ _) = not (is_digit d) || d == b'0'

    accept : ℕ × List ℕ → Option ℕ
    accept (n, rest) = if ends_word u rest then some n else none

-- `_EVIDENCE_ID_RE.findall(text)`; `inside` says that the character before is of a word
unfoldable pub cited_from : (ℕ → Bool) → Bool → List ℕ → List ℕ
cited_from u inside [] = []
cited_from u inside (c ∷ cs) =
    let rest = cited_from u (is_word u c) cs in
    if inside then rest else on_option (id_at u (c ∷ cs)) rest (λ n. n ∷ rest)

unfoldable pub cited_evidence_ids : (ℕ → Bool) → List ℕ → List ℕ
cited_evidence_ids u text = cited_from u false text
