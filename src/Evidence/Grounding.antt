-- ===== src/Evidence/Grounding.antt =====
-- `ground_analysis` of uyuni_ai_agent/evidence.py on the analyses of uyuni_ai_agent/models.py. A
-- confidence is in thousandths; times are in microseconds. The sentences that the function writes
-- into a rejected analysis are kept as their parts.
pub mod Gates
pub mod Verdict
use uyuni_ai.Common.{
  ℕ, suc, ◌+◌, ◌*◌, ◌==◌, min, max, Bool, true, false, not, ◌&&◌, ◌||◌, Option, none, some, List,
  [], ◌∷◌, ◌++◌, map, String, ltb, leb, if◌then◌else◌, on_option, on_list,
}
use uyuni_ai.Common.Lists.{length, take, filter, is_nonempty, any, all, mem}
use uyuni_ai.Evidence.Records.{
  EvidenceId, numbered, other, EvidenceRecord, is_ok, get, in_ids, cited_evidence_ids,
}
use uyuni_ai.Evidence.Remediation.{sanitize_remediation}

pub data AnalysisConclusion : Type 0 where
  confirmed inconclusive : AnalysisConclusion

pub data Urgency : Type 0 where
  low medium high critical : Urgency

-- a line of an analysis: as the model wrote it, or `[En] summary` of a record
pub data Line : Type 0 where
  written : List ℕ → Line
  of_record : ℕ → List ℕ → Line

-- why an analysis was rejected
pub data Reason : Type 0 where
  failed_record : ℕ → List ℕ → Reason
  stale contradicted : List ℕ → Reason
  too_few_records : Reason

pub data Cause : Type 0 where
  written : List ℕ → Cause
  because : List Reason → Cause

pub record RootCauseAnalysis : Type 0 where
  pub summary : List ℕ
  pub conclusion : AnalysisConclusion
  pub affected_component : String
  pub root_cause : Cause
  pub supporting_evidence_ids : List EvidenceId
  pub key_evidence : List Line
  pub remediation : List (List ℕ)
  pub urgency : Urgency
  pub confidence : ℕ

-- the parameters of the quality gates
pub record Gate : Type 0 where
  pub allow_failed_evidence : Bool
  pub max_evidence_age : ℕ
  pub minimum_supporting_records : ℕ

abbrev pub is_confirmed : AnalysisConclusion → Bool
is_confirmed confirmed = true
is_confirmed inconclusive = false

-- The numbers of the known records among some IDs, each once, in the order of its first mention:
-- `dict.fromkeys` and the test against `ledger.ids`. `seen` are those found before.
unfoldable pub supporting_from : List EvidenceRecord → List ℕ → List EvidenceId → List ℕ
supporting_from rs seen [] = []
supporting_from rs seen (other t ∷ ids) = supporting_from rs seen ids
supporting_from rs seen (numbered n ∷ ids) =
    let skip = supporting_from rs seen ids in
    let keep = n ∷ supporting_from rs (n ∷ seen) ids in
    if in_ids (numbered n) rs && not (mem n seen) then keep else skip

unfoldable pub supporting : List EvidenceRecord → List EvidenceId → List ℕ
supporting rs ids = supporting_from rs [] ids

-- the IDs that a text or a line cites
pub reason_refs : (ℕ → Bool) → List Reason → List ℕ
reason_refs u [] = []
reason_refs u (failed_record n t ∷ rs) = n ∷ (cited_evidence_ids u t ++ reason_refs u rs)
reason_refs u (stale ns ∷ rs) = ns ++ reason_refs u rs
reason_refs u (contradicted ns ∷ rs) = ns ++ reason_refs u rs
reason_refs u (too_few_records ∷ rs) = reason_refs u rs

unfoldable pub cause_refs : (ℕ → Bool) → Cause → List ℕ
cause_refs u (written t) = cited_evidence_ids u t
cause_refs u (because rs) = reason_refs u rs

unfoldable pub line_refs : (ℕ → Bool) → Line → List ℕ
line_refs u (written t) = cited_evidence_ids u t
line_refs u (of_record n t) = n ∷ cited_evidence_ids u t

-- cited_evidence_ids(analysis.root_cause) & allowed
unfoldable pub root_refs : (ℕ → Bool) → List EvidenceRecord → Cause → List ℕ
root_refs u rs c = filter (λ n. in_ids (numbered n) rs) (cause_refs u c)

-- the key evidence that cites a supporting record
unfoldable pub grounded_bullets : (ℕ → Bool) → List ℕ → List Line → List Line
grounded_bullets u support lines = filter (λ l. any (λ n. mem n support) (line_refs u l)) lines

-- older than the limit, or from the future
unfoldable pub is_stale : ℕ → ℕ → EvidenceRecord → Bool
is_stale max_age now r = ltb now r.observed_at || ltb (r.observed_at + max_age) now

unfoldable pub stale_support : ℕ → ℕ → List EvidenceRecord → List ℕ → List ℕ
stale_support max_age now rs support =
    filter (λ n. on_option (get n rs) false (is_stale max_age now)) support

-- the supporting records that an ID of the list names
unfoldable pub named_support : List ℕ → List EvidenceId → List ℕ
named_support support [] = []
named_support support (other t ∷ ids) = named_support support ids
named_support support (numbered n ∷ ids) =
    let rest = named_support support ids in if mem n support then n ∷ rest else rest

-- the supporting records that some record of the ledger contradicts
unfoldable pub contradicted_support : List EvidenceRecord → List ℕ → List ℕ
contradicted_support [] support = []
contradicted_support (r ∷ rs) support =
    named_support support r.contradicts ++ contradicted_support rs support

unfoldable pub statuses_are_usable : Bool → List EvidenceRecord → List ℕ → Bool
statuses_are_usable allow_failed rs support =
    allow_failed || all (λ n. on_option (get n rs) false (λ r. is_ok r.status)) support

-- the conjunction `confirmed`
unfoldable pub is_grounded : (ℕ → Bool) → Gate → ℕ → List EvidenceRecord → RootCauseAnalysis → Bool
is_grounded u gate now rs a =
    let support = supporting rs a.supporting_evidence_ids in
    is_confirmed a.conclusion
    && (is_nonempty support
        && (any (λ n. mem n support) (root_refs u rs a.root_cause)
            && (all (λ n. mem n support) (root_refs u rs a.root_cause)
                && (is_nonempty (grounded_bullets u support a.key_evidence)
                    && (statuses_are_usable gate.allow_failed_evidence rs support
                        && (leb (max 1 gate.minimum_supporting_records) (length support)
                            && (not
                                  (is_nonempty (stale_support gate.max_evidence_age now rs support))
                                && not (is_nonempty (contradicted_support rs support)))))))))

pub failed_records : List EvidenceRecord → List EvidenceRecord
failed_records rs = filter (λ r. not (is_ok r.status)) rs

abbrev pub when_nonempty : List ℕ → Reason → List Reason
when_nonempty [] r = []
when_nonempty (_ ∷ _) r = r ∷ []

pub reasons : Gate → ℕ → List EvidenceRecord → List ℕ → List Reason
reasons gate now rs support =
    map (λ r. failed_record r.id r.summary) (take 3 (failed_records rs))
    ++ (when_nonempty (stale_support gate.max_evidence_age now rs support)
          (stale (stale_support gate.max_evidence_age now rs support))
        ++ (when_nonempty (contradicted_support rs support)
              (contradicted (contradicted_support rs support))
            ++ (if ltb (length support) (max 1 gate.minimum_supporting_records)
                then too_few_records ∷ []
                else [])))

-- the records that a rejected analysis is left with: the failed ones, or all
pub fallback : List EvidenceRecord → List EvidenceRecord
fallback rs = on_list (failed_records rs) (take 3 rs) (λ r rest. take 3 (r ∷ rest))

unfoldable pub accept : (ℕ → Bool) → List EvidenceRecord → RootCauseAnalysis → RootCauseAnalysis
accept u rs a =
    let support = supporting rs a.supporting_evidence_ids in
    record a {
      supporting_evidence_ids = map numbered support;
      key_evidence = take 3 (grounded_bullets u support a.key_evidence);
      remediation = sanitize_remediation u false a.remediation;
    }

unfoldable pub reject :
    (ℕ → Bool) → Gate → ℕ → List EvidenceRecord → RootCauseAnalysis → RootCauseAnalysis
reject u gate now rs a =
    let support = supporting rs a.supporting_evidence_ids in
    record a {
      conclusion = inconclusive;
      affected_component = "unknown";
      root_cause = because (reasons gate now rs support);
      supporting_evidence_ids = map (λ r. numbered r.id) (fallback rs);
      key_evidence = map (λ r. of_record r.id r.summary) (fallback rs);
      remediation = sanitize_remediation u true a.remediation;
      confidence = min a.confidence 300;
    }

unfoldable pub ground_analysis :
    (ℕ → Bool) → Gate → ℕ → List EvidenceRecord → RootCauseAnalysis → RootCauseAnalysis
ground_analysis u gate now rs a =
    if is_grounded u gate now rs a then accept u rs a else reject u gate now rs a
