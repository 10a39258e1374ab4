-- ===== src/Evidence/Grounding/Gates.antt =====
-- What the quality gates of `ground_analysis` (evidence.py) establish.
use uyuni_ai.Common.{
  ℕ, ◌+◌, ◌≤◌, ◌≡◌, refl, Bool, true, false, ◌||◌, subst, ◌==◌, ◌⊎◌, inl, inr, max, some, List, [],
  ◌∷◌, arith, on_option, Bool-cases, if_cases,
}
use uyuni_ai.Common.Lists.{
  length, is_nonempty, any, all, mem, Once, All, any-witness, all-mem, filter-none, mem-filter,
  mem-append,
}
use uyuni_ai.Evidence.Records.{EvidenceId, numbered, other, EvidenceRecord, is_ok, get, in_ids}
use uyuni_ai.Evidence.Records.Ledger.{get_of_in_ids}
use uyuni_ai.Evidence.Grounding.{
  AnalysisConclusion, confirmed, is_confirmed, RootCauseAnalysis, Gate, supporting_from, supporting,
  cause_refs, root_refs, grounded_bullets, is_stale, stale_support, named_support,
  contradicted_support, statuses_are_usable, is_grounded, accept, reject, ground_analysis,
  inconclusive,
}

pub supporting_from_sound :
    (rs : List EvidenceRecord) (seen : List ℕ) (ids : List EvidenceId) (n : ℕ)
    → mem n (supporting_from rs seen ids) ≡ true
    → (in_ids (numbered n) rs ≡ true) × (mem n seen ≡ false)
unfolding supporting_from
supporting_from_sound rs seen [] n h = cc
supporting_from_sound rs seen (other t ∷ ids) n h = supporting_from_sound rs seen ids n h
supporting_from_sound rs seen (numbered k ∷ ids) n h =
    ground (arith, supporting_from_sound rs seen ids n, supporting_from_sound rs (k ∷ seen) ids n)

-- the supporting IDs are listed once each
supporting_from-Once :
    (rs : List EvidenceRecord) (seen : List ℕ) (ids : List EvidenceId)
    → Once (supporting_from rs seen ids)
unfolding supporting_from
supporting_from-Once rs seen [] = tt
supporting_from-Once rs seen (other t ∷ ids) = supporting_from-Once rs seen ids
supporting_from-Once rs seen (numbered k ∷ ids) = ground (
  arith,
  supporting_from-Once rs seen ids,
  supporting_from-Once rs (k ∷ seen) ids,
  supporting_from_sound rs (k ∷ seen) ids k,
)

-- the record's list of contradictions names the ID
abbrev pub names : ℕ → List EvidenceId → Bool
names n [] = false
names n (other t ∷ ids) = names n ids
names n (numbered k ∷ ids) = k == n || names n ids

mem-named_support :
    (support : List ℕ) (ids : List EvidenceId) (n : ℕ)
    → mem n support ≡ true
    → names n ids ≡ true
    → mem n (named_support support ids) ≡ true
unfolding named_support
mem-named_support support [] n h k = cc
mem-named_support support (other t ∷ ids) n h k = mem-named_support support ids n h k
mem-named_support support (numbered j ∷ ids) n h k = ground (arith, mem-named_support support ids n)

empty_mem : (xs : List ℕ) (n : ℕ) → is_nonempty xs ≡ false → mem n xs ≡ false
empty_mem [] n h = refl
empty_mem (x ∷ xs) n h = cc

uncontradicted :
    (rs : List EvidenceRecord) (support : List ℕ) (n : ℕ)
    → mem n (contradicted_support rs support) ≡ false
    → mem n support ≡ true
    → All (λ r. names n r.contradicts ≡ false) rs
unfolding contradicted_support
uncontradicted [] support n h m = tt
uncontradicted (r ∷ rs) support n h m = ground (
  arith,
  mem-append (named_support support r.contradicts) (contradicted_support rs support) n,
  uncontradicted rs support n,
  mem-named_support support r.contradicts n m,
)

-- A supporting record: it is in the ledger, its status is OK or failed evidence is allowed, it is
-- neither from the future nor older than the limit, and no record contradicts it.
pub record Supports (gate : Gate) (now : ℕ) (rs : List EvidenceRecord) (n : ℕ) : Type 0 where
  pub entry : EvidenceRecord
  pub known : get n rs ≡ some entry
  pub usable : (gate.allow_failed_evidence ≡ true) ⊎ (is_ok entry.status ≡ true)
  pub not_future : entry.observed_at ≤ now
  pub fresh : now ≤ entry.observed_at + gate.max_evidence_age
  pub uncontradicted : All (λ r. names n r.contradicts ≡ false) rs

-- What a confirmed analysis rests on.
pub record IsGrounded (u : ℕ → Bool) (gate : Gate) (now : ℕ) (rs : List EvidenceRecord)
    (a : RootCauseAnalysis) : Type 0 where
  pub by_model : a.conclusion ≡ confirmed
  pub once : Once (supporting rs a.supporting_evidence_ids)
  pub enough :
      max 1 gate.minimum_supporting_records ≤ length (supporting rs a.supporting_evidence_ids)
  pub each :
      (n : ℕ) → mem n (supporting rs a.supporting_evidence_ids) ≡ true → Supports gate now rs n
  pub cause_cites :
      (n : ℕ) × (mem n (supporting rs a.supporting_evidence_ids) ≡ true)
      × (mem n (cause_refs u a.root_cause) ≡ true)
  pub cause_cites_no_other :
      (n : ℕ)
      → mem n (cause_refs u a.root_cause) ≡ true
      → in_ids (numbered n) rs ≡ true
      → mem n (supporting rs a.supporting_evidence_ids) ≡ true
  pub bullets :
      is_nonempty (grounded_bullets u (supporting rs a.supporting_evidence_ids) a.key_evidence)
      ≡ true

module _ (u : ℕ → Bool) (gate : Gate) (now : ℕ) (rs : List EvidenceRecord)
    (a : RootCauseAnalysis) where
  abbrev support : List ℕ
  support = supporting rs a.supporting_evidence_ids

  supports :
      (n : ℕ)
      → statuses_are_usable gate.allow_failed_evidence rs support ≡ true
      → is_nonempty (stale_support gate.max_evidence_age now rs support) ≡ false
      → is_nonempty (contradicted_support rs support) ≡ false
      → mem n support ≡ true
      → Supports gate now rs n
  unfolding statuses_are_usable stale_support is_stale supporting
  supports n st fr co m =
      let (entry, known) =
        get_of_in_ids n rs (supporting_from_sound rs [] a.supporting_evidence_ids n m).0 in
      let kept : is_stale gate.max_evidence_age now entry ≡ false =
        subst (λ o. on_option o false (is_stale gate.max_evidence_age now) ≡ false) known
          (filter-none (λ k. on_option (get k rs) false (is_stale gate.max_evidence_age now))
            support n fr m) in
      record {
        entry = entry;
        known = known;
        usable = elim (Bool-cases gate.allow_failed_evidence) [
          | inl e ↦ inl e
          | inr e ↦ inr (
              subst (λ o. on_option o false (λ r. is_ok r.status) ≡ true) known
                (all-mem (λ k. on_option (get k rs) false (λ r. is_ok r.status)) support n
                  (ground (arith, st, e)) m))
        ];
        not_future = ground (arith, kept);
        fresh = ground (arith, kept);
        uncontradicted =
            uncontradicted rs support n (empty_mem (contradicted_support rs support) n co) m;
      }

  pub gates-IsGrounded : is_grounded u gate now rs a ≡ true → IsGrounded u gate now rs a
  unfolding is_grounded root_refs supporting
  gates-IsGrounded h =
      let conclusion : is_confirmed a.conclusion ≡ true = ground (arith, h) in
      let cites : any (λ n. mem n support) (root_refs u rs a.root_cause) ≡ true =
        ground (arith, h) in
      let no_other : all (λ n. mem n support) (root_refs u rs a.root_cause) ≡ true =
        ground (arith, h) in
      let st : statuses_are_usable gate.allow_failed_evidence rs support ≡ true =
        ground (arith, h) in
      let fr : is_nonempty (stale_support gate.max_evidence_age now rs support) ≡ false =
        ground (arith, h) in
      let co : is_nonempty (contradicted_support rs support) ≡ false = ground (arith, h) in
      let (n, m, s) = any-witness (λ n. mem n support) (root_refs u rs a.root_cause) cites in
      let refs = cause_refs u a.root_cause in
      let of_ledger : ℕ → Bool = λ k. in_ids (numbered k) rs in
      record {
        by_model = of_confirmed a.conclusion conclusion;
        once = supporting_from-Once rs [] a.supporting_evidence_ids;
        enough = ground (arith, h);
        each = λ k mk. supports k st fr co mk;
        cause_cites = (n, s, ground (arith, m, mem-filter of_ledger refs n));
        cause_cites_no_other = λ k c i.
            all-mem (λ n. mem n support) (root_refs u rs a.root_cause) k no_other
              (ground (arith, c, i, mem-filter of_ledger refs k));
        bullets = ground (arith, h);
      }
    where
      of_confirmed : (c : AnalysisConclusion) → is_confirmed c ≡ true → c ≡ confirmed
      of_confirmed confirmed h = refl
      of_confirmed inconclusive h = cc

  -- An analysis that `ground_analysis` returns as confirmed passed every gate: the model called it
  -- confirmed, it has at least the required number of distinct supporting records, each of them is
  -- in the ledger, usable, neither stale nor from the future and contradicted by no record, its root
  -- cause cites a supporting record and cites no other record of the ledger, and some line of its
  -- key evidence cites a supporting record.
  pub confirmed-IsGrounded :
      (ground_analysis u gate now rs a).conclusion ≡ confirmed → IsGrounded u gate now rs a
  unfolding ground_analysis reject accept
  confirmed-IsGrounded =
      if_cases (λ (r : RootCauseAnalysis). r.conclusion ≡ confirmed → IsGrounded u gate now rs a)
        (is_grounded u gate now rs a) (λ g _. gates-IsGrounded g) (λ _ h. cc)
