-- ===== src/Evidence/Tests.antt =====
-- Runs of the evidence gates (evidence.py). No character above ASCII counts as a letter here.
use uyuni_ai.Common.{ℕ, ◌==◌, ◌≡◌, refl, Bool, false, List, [], ◌∷◌, ◌++◌, if◌then◌else◌}
use uyuni_ai.Common.Lists.{All}
use uyuni_ai.Common.Text.{codes}
use uyuni_ai.Common.Regex.{search}
use uyuni_ai.Common.Strip.{strip}
use uyuni_ai.Evidence.Records.{
  EvidenceStatus, numbered, EvidenceRecord, EvidenceLedger, get, in_ids, cited_evidence_ids,
  cited_from, id_at, digits_from,
}
use uyuni_ai.Evidence.Remediation.{
  sanitize_remediation, safe_steps, verify_step, escalate_step, changes_ssh_trust,
  verifies_fingerprint, high_risk,
}
use uyuni_ai.Evidence.Remediation.Safety.{
  IsAllowed, NeedsVerification, sanitize-IsAllowed, verification_confuses_escalation, removed,
}
use uyuni_ai.Evidence.Grounding.{
  confirmed, Urgency, Cause, Line, RootCauseAnalysis, Gate, ground_analysis, is_grounded, accept,
  reject, supporting, supporting_from, root_refs, cause_refs, line_refs, grounded_bullets,
  statuses_are_usable, stale_support, is_stale, contradicted_support, named_support,
}
use uyuni_ai.Evidence.Grounding.Gates.{IsGrounded, confirmed-IsGrounded}
use uyuni_ai.Evidence.Grounding.Verdict.{IsVerdict, ground-IsVerdict}

abbrev ascii : ℕ → Bool
ascii c = false

-- one record, at second 100
abbrev memory_record : EvidenceRecord
memory_record = record {
  id = 1;
  source = "prometheus";
  target = "db1";
  check = "memory";
  status = EvidenceStatus.ok;
  summary = codes "Memory at 97%";
  details = codes "97";
  observed_at = 100000000;
  contradicts = [];
}

abbrev gate : Gate
gate = record {
  allow_failed_evidence = false;
  max_evidence_age = 600000000;
  minimum_supporting_records = 1;
}

abbrev analysis : RootCauseAnalysis
analysis = record {
  summary = codes "Memory is exhausted";
  conclusion = confirmed;
  affected_component = "postgresql";
  root_cause = Cause.written (codes "Swap is full [E1]");
  supporting_evidence_ids = numbered 1 ∷ numbered 1 ∷ numbered 9 ∷ [];
  key_evidence = Line.written (codes "E1: 97%") ∷ [];
  remediation = codes "Restart postgresql" ∷ codes "kill -9 the backend" ∷ [];
  urgency = Urgency.high;
  confidence = 900;
}

is_confirmed :
    (ground_analysis ascii gate 200000000 (memory_record ∷ []) analysis).conclusion ≡ confirmed
unfolding ground_analysis is_grounded accept reject supporting supporting_from root_refs cause_refs
    line_refs grounded_bullets statuses_are_usable stale_support is_stale contradicted_support
    named_support get in_ids cited_evidence_ids cited_from id_at digits_from
is_confirmed = refl

confirmed-IsGrounded_example : IsGrounded ascii gate 200000000 (memory_record ∷ []) analysis
confirmed-IsGrounded_example =
    confirmed-IsGrounded ascii gate 200000000 (memory_record ∷ []) analysis is_confirmed

ground-IsVerdict_example :
    IsVerdict
      (memory_record ∷ [])
      analysis
      (ground_analysis ascii gate 900000000 (memory_record ∷ []) analysis)
ground-IsVerdict_example = ground-IsVerdict ascii gate 900000000 (memory_record ∷ []) analysis

sanitize-IsAllowed_example :
    All
      (IsAllowed ascii analysis.remediation)
      (sanitize_remediation ascii false analysis.remediation)
sanitize-IsAllowed_example = sanitize-IsAllowed ascii analysis.remediation

abbrev ledger : EvidenceLedger
ledger = record { target = "db1"; records = memory_record ∷ [] }

abbrev ssh_steps : List (List ℕ)
ssh_steps = codes "Replace the host key in known_hosts." ∷ []

ssh_steps-NeedsVerification : NeedsVerification ascii ssh_steps
unfolding safe_steps strip high_risk changes_ssh_trust verifies_fingerprint search
ssh_steps-NeedsVerification = (refl, refl)

verification_confuses_escalation_example : sanitize_remediation ascii false ssh_steps ≡ (
    if removed ascii ssh_steps == 1
    then verify_step ∷ safe_steps ascii ssh_steps
    else verify_step ∷ (safe_steps ascii ssh_steps ++ (escalate_step ∷ [])))
verification_confuses_escalation_example =
    verification_confuses_escalation ascii ssh_steps ssh_steps-NeedsVerification
