-- ===== src/Recovery/Evaluator/Criteria.antt =====
-- What the evaluator's flags mean: the conditions of src/ephi/recovery.py as propositions.
use ephi.Base.{
  ◌+◌, ◌≤◌, Bool, true, false, ◌||◌, not, Option, none, some, List, [], ◌∷◌, ◌++◌, ◌≡◌, ◌↔◌, ◌⊎◌,
  ◌∙◌, refl, if◌then◌else◌, ℕ_eq, list_Eq, list_eq_iff, contains, All, All-append, is_some, arith,
  leb→le, le→leb, &&_iff, inl, inr, Option-cases,
}
use mathlib.Core.Bool.{false≢true}
use native.Mathlib.Nat.{le_trans}
use ephi.Base.Text.{Text}
use ephi.Recovery.Model.{
  ReasonCode, ObservationOutcome, RecoveryPolicy, RecoveryObservation, Time, same_outcome,
}
use ephi.Recovery.Evaluator.{
  Criterion, CriterionResult, Results, is_empty, within, availability_reason, available_by,
  timing_ok, delay_ok, pipeline_suspect, outcome_reason, evidence_results, outcome_result,
  criterion_results, reason_codes_of, is_affirmative_outcome, all_passed_but_outcome, evaluate,
}

-- The evidence conditions of the policy, the outcome apart.
pub record IsTrusted (p : RecoveryPolicy) (o : RecoveryObservation) (now : Time)
    (known_ids known_samples : List Text) : Type 0 where
  pub new_observation : contains o.observation_id known_ids ≡ false
  pub new_sample : contains o.sampling_identity known_samples ≡ false
  pub happened : o.event_at ≤ o.observed_at
  pub fresh : (o.observed_at ≤ now) × (now ≤ o.observed_at + p.max_observation_age)
  pub available :
      (a : Time) × (o.available_at ≡ some a)
      × (o.observed_at ≤ a)
      × (a ≤ now)
      × (a ≤ o.observed_at + p.max_availability_delay)
  pub context : o.context ≡ p.expected_context
  pub characteristic : o.characteristic ≡ p.expected_characteristic
  pub unit : o.unit ≡ p.expected_unit
  pub confident : p.confidence_floor ≤ o.confidence
  pub reference : p.require_reference_valid ≡ true → o.reference_valid ≡ true
  pub capability : p.require_capability_valid ≡ true → o.capability_valid ≡ true
  pub unsuspected : pipeline_suspect o ≡ false

abbrev HasPassed : Criterion × CriterionResult → Type 0
HasPassed e = e.1.passed ≡ true

-- An entry has a reason exactly when it did not pass.
abbrev IsExplained : Criterion × CriterionResult → Type 0
IsExplained e = is_some e.1.reason_code ≡ not e.1.passed

explained :
    (b : Bool) (r : Option ReasonCode) → is_some r ≡ true → is_some (if b then none else r) ≡ not b
explained true r h = refl
explained false r h = h

no_reasons_iff :
    (rs : Results) → All IsExplained rs → (is_empty (reason_codes_of rs) ≡ true) ↔ All HasPassed rs
unfolding reason_codes_of
no_reasons_iff [] h = (λ _. tt, λ _. refl)
no_reasons_iff ((c, r) ∷ rs) h = ground (arith, no_reasons_iff rs h.1)

-- `all_passed_but_outcome` over the evidence and one entry for the outcome.
qualified_iff :
    (rs : Results) (r : CriterionResult)
    → All (λ e. is_affirmative_outcome e.0 ≡ false) rs
    → (all_passed_but_outcome (rs ++ ((Criterion.affirmative_outcome, r) ∷ [])) ≡ true)
      ↔ All HasPassed rs
unfolding all_passed_but_outcome is_affirmative_outcome
qualified_iff [] r h = (λ _. tt, λ _. refl)
qualified_iff ((c, q) ∷ rs) r h = ground (arith, qualified_iff rs r h.1)

All-snoc_iff :
    (rs : Results) (e : Criterion × CriterionResult)
    → All HasPassed (rs ++ (e ∷ [])) ↔ (All HasPassed rs × HasPassed e)
All-snoc_iff [] e = (λ h. (tt, h.0), λ h. (h.1, tt))
All-snoc_iff (x ∷ rs) e =
    let (split, join) = All-snoc_iff rs e in
    (λ h. ((h.0, (split h.1).0), (split h.1).1), λ h. (h.0.0, join (h.0.1, h.1)))

same_outcome_iff : (a b : ObservationOutcome) → (same_outcome a b ≡ true) ↔ (a ≡ b)
unfolding same_outcome
same_outcome_iff a b = ground arith

of_not : {b : Bool} → not b ≡ true → b ≡ false
of_not h = ground arith

to_not : {b : Bool} → b ≡ false → not b ≡ true
to_not h = ground arith

of_required : (r b : Bool) → (not r || b) ≡ true → r ≡ true → b ≡ true
of_required r b h k = ground arith

to_required : (r b : Bool) → (r ≡ true → b ≡ true) → (not r || b) ≡ true
to_required true b h = h refl
to_required false b h = refl

within_iff : (a b d : Time) → (within a b d ≡ true) ↔ ((a ≤ b) × (b ≤ a + d))
unfolding within
within_iff a b d = ground arith

ordered : (e o : Time) (a : Option Time) → timing_ok e o a ≡ true → e ≤ o
unfolding timing_ok
ordered e o none h = ground arith
ordered e o (some a) h = ground arith

refuted : (b : Bool) → ¬ (b ≡ true) → b ≡ false
refuted true h = absurd (h refl)
refuted false h = refl

reason_given : (a : Option Time) → is_some (availability_reason a) ≡ true
unfolding availability_reason
reason_given none = refl
reason_given (some a) = refl

outcome_given : (x : ObservationOutcome) → is_some (outcome_reason x) ≡ true
unfolding outcome_reason
outcome_given ObservationOutcome.abnormal = refl
outcome_given _ = refl

module _ (p : RecoveryPolicy) (o : RecoveryObservation) (now : Time) (ids samples : List Text) where
  evidence-IsExplained : All IsExplained (evidence_results p o now ids samples)
  unfolding evidence_results
  evidence-IsExplained = (
    explained _ _ refl,
    (
      explained _ _ refl,
      (
        explained _ _ refl,
        (
          explained _ _ (reason_given o.available_at),
          (
            explained _ _ refl,
            (
              explained _ _ refl,
              (
                explained _ _ refl,
                (
                  explained _ _ refl,
                  (
                    explained _ _ refl,
                    (
                      explained _ _ refl,
                      (
                        explained _ _ refl,
                        (explained _ _ refl, (explained _ _ refl, (explained _ _ refl, tt))),
                      ),
                    ),
                  ),
                ),
              ),
            ),
          ),
        ),
      ),
    ),
  )

  evidence_names :
      All (λ e. is_affirmative_outcome e.0 ≡ false) (evidence_results p o now ids samples)
  unfolding evidence_results is_affirmative_outcome
  evidence_names = ground arith

  results-IsExplained : All IsExplained (criterion_results p o now ids samples)
  unfolding criterion_results
  results-IsExplained =
      All-append IsExplained (evidence_results p o now ids samples) (outcome_result p o ∷ [])
        evidence-IsExplained (explained _ _ (outcome_given o.outcome), tt)

  available-of :
      (available_by o.available_at now ≡ true)
      → (timing_ok o.event_at o.observed_at o.available_at ≡ true)
      → (delay_ok o.observed_at o.available_at p.max_availability_delay ≡ true)
      → (a : Time) × (o.available_at ≡ some a)
        × (o.observed_at ≤ a)
        × (a ≤ now)
        × (a ≤ o.observed_at + p.max_availability_delay)
  unfolding available_by timing_ok delay_ok within
  available-of h k l = elim (Option-cases o.available_at) [
    | inl e ↦ absurd (false≢true (rw (e, available_by) at h))
    | inr (a, e) ↦ (a, e, ground arith, ground arith, ground arith)
  ]

  passed→trusted :
      All HasPassed (evidence_results p o now ids samples) → IsTrusted p o now ids samples
  unfolding evidence_results
  passed→trusted h = record {
    new_observation = of_not h.0;
    new_sample = of_not h.1.0;
    happened = ordered _ _ _ h.1.1.1.1.0;
    fresh = (within_iff _ _ _).0 h.1.1.1.1.1.1.0;
    available = available-of h.1.1.1.0 h.1.1.1.1.0 h.1.1.1.1.1.0;
    context = (list_eq_iff _ _).0 h.1.1.1.1.1.1.1.0;
    characteristic = (list_eq_iff _ _).0 h.1.1.1.1.1.1.1.1.0;
    unit = (list_eq_iff _ _).0 h.1.1.1.1.1.1.1.1.1.0;
    confident = leb→le _ _ h.1.1.1.1.1.1.1.1.1.1.0;
    reference = of_required _ _ h.1.1.1.1.1.1.1.1.1.1.1.0;
    capability = of_required _ _ h.1.1.1.1.1.1.1.1.1.1.1.1.0;
    unsuspected = of_not h.1.1.1.1.1.1.1.1.1.1.1.1.1.0;
  }

  trusted→passed :
      IsTrusted p o now ids samples → All HasPassed (evidence_results p o now ids samples)
  unfolding evidence_results
  trusted→passed t =
      let (a, at_a, after, by_now, soon) = t.available in
      let is_available : available_by o.available_at now ≡ true =
        rw (at_a) (unfold available_by in le→leb _ _ by_now) in
      let in_order : timing_ok o.event_at o.observed_at o.available_at ≡ true =
        rw (at_a) (unfold timing_ok in (&&_iff _ _).1 (le→leb _ _ t.happened, le→leb _ _ after)) in
      let in_time : delay_ok o.observed_at o.available_at p.max_availability_delay ≡ true =
        rw (at_a) (unfold delay_ok in (within_iff _ _ _).1 (after, soon)) in
      (
        to_not t.new_observation,
        (
          to_not t.new_sample,
          (
            le→leb _ _ (le_trans t.happened t.fresh.0),
            (
              is_available,
              (
                in_order,
                (
                  in_time,
                  (
                    (within_iff _ _ _).1 t.fresh,
                    (
                      (list_eq_iff _ _).1 t.context,
                      (
                        (list_eq_iff _ _).1 t.characteristic,
                        (
                          (list_eq_iff _ _).1 t.unit,
                          (
                            le→leb _ _ t.confident,
                            (
                              to_required _ _ t.reference,
                              (to_required _ _ t.capability, (to_not t.unsuspected, tt)),
                            ),
                          ),
                        ),
                      ),
                    ),
                  ),
                ),
              ),
            ),
          ),
        ),
      )

  -- The evaluation's three flags, for an observation that is present: it is qualified exactly when
  -- all evidence conditions hold, eligible exactly when moreover its outcome is the affirmative one,
  -- and contradictory exactly when moreover its outcome is ABNORMAL.
  pub evaluate_iff :
      let e = evaluate p (some o) now ids samples in
      let trusted = IsTrusted p o now ids samples in
      ((e.qualified ≡ true) ↔ trusted)
      × ((e.eligible ≡ true) ↔ (trusted × (o.outcome ≡ p.affirmative_outcome)))
      × ((e.contradictory ≡ true) ↔ (trusted × (o.outcome ≡ ObservationOutcome.abnormal)))
  unfolding evaluate criterion_results
  evaluate_iff =
      let evidence = evidence_results p o now ids samples in
      let (qualified, evident) = qualified_iff evidence (outcome_result p o).1 evidence_names in
      let (reasonless, unexplained) =
        no_reasons_iff (criterion_results p o now ids samples) results-IsExplained in
      let (split, join) = All-snoc_iff evidence (outcome_result p o) in
      (
        (λ h. passed→trusted (qualified h), λ t. evident (trusted→passed t)),
        (
          λ h.
              let (ev, out) = split (reasonless h) in
              (passed→trusted ev, (same_outcome_iff _ _).0 out),
          λ t. unexplained (join (trusted→passed t.0, (same_outcome_iff _ _).1 t.1)),
        ),
        (
          λ h.
              let (q, out) = (&&_iff _ _).0 h in
              (passed→trusted (qualified q), (same_outcome_iff _ _).0 out),
          λ t. (&&_iff _ _).1 (evident (trusted→passed t.0), (same_outcome_iff _ _).1 t.1),
        ),
      )

  pub duplicate_rejected :
      (contains o.observation_id ids ≡ true) ⊎ (contains o.sampling_identity samples ≡ true)
      → let e = evaluate p (some o) now ids samples in
        (e.eligible ≡ false) × (e.contradictory ≡ false)
  duplicate_rejected dup =
      let e = evaluate p (some o) now ids samples in
      let (_, eligible, contradictory) = evaluate_iff in
      let untrusted : ¬ IsTrusted p o now ids samples =
        λ t. ground (arith, t.new_observation, t.new_sample) in
      (
        refuted e.eligible (λ h. untrusted (eligible.0 h).0),
        refuted e.contradictory (λ h. untrusted (contradictory.0 h).0),
      )

  -- Under a policy whose affirmative outcome is ABNORMAL, eligible evidence is contradictory.
  pub abnormal_eligible :
      p.affirmative_outcome ≡ ObservationOutcome.abnormal
      → let e = evaluate p (some o) now ids samples in e.eligible ≡ true → e.contradictory ≡ true
  abnormal_eligible a h =
      let (_, eligible, contradictory) = evaluate_iff in
      let (trusted, outcome) = eligible.0 h in contradictory.1 (trusted, outcome ∙ a)
