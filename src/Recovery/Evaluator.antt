-- ===== src/Recovery/Evaluator.antt =====
-- `RecoveryEvaluator.evaluate` of src/ephi/recovery.py. The detail sentence of a criterion is left out.
pub mod Criteria
use ephi.Base.{
  ℕ, ◌-◌, Bool, true, false, ◌&&◌, ◌||◌, not, Option, none, some, List, [], ◌∷◌, ◌++◌, leb,
  if◌then◌else◌, ◌==◌, ℕ_eq, list_Eq, contains,
}
use ephi.Base.Text.{Text, codes, has_substring, upper, replace_code}
use ephi.Recovery.Model.{
  ReasonCode, ObservationOutcome, RecoveryPolicy, RecoveryObservation, Time, same_outcome,
  is_attributed,
}

-- The names under which `evaluate` files its results, and the one for a missing observation.
pub data Criterion : Type 0 where
  observation_present observation_identity sampling_identity event_cutoff : Criterion
  availability_cutoff timing_order availability_delay freshness context : Criterion
  characteristic unit confidence reference capability : Criterion
  integrity_attribution affirmative_outcome : Criterion

pub record CriterionResult : Type 0 where
  pub passed : Bool
  pub reason_code : Option ReasonCode

abbrev pub Results : Type 0
Results = List (Criterion × CriterionResult)

pub record RecoveryEligibility : Type 0 where
  pub observation_id : Option Text
  pub eligible : Bool
  pub reason_codes : List ReasonCode
  pub criterion_results : Results
  pub qualified : Bool
  pub contradictory : Bool

-- The local function `add`.
abbrev pub add : Criterion → Bool → Option ReasonCode → Criterion × CriterionResult
add name passed reason =
    (name, record { passed = passed; reason_code = if passed then none else reason })

-- `timedelta(0) <= later - earlier <= bound`
unfoldable pub within : Time → Time → Time → Bool
within earlier later bound = leb earlier later && leb (later - earlier) bound

unfoldable pub availability_reason : Option Time → Option ReasonCode
availability_reason none = some ReasonCode.observation_unavailable
availability_reason (some available) = some ReasonCode.available_after_cutoff

unfoldable pub available_by : Option Time → Time → Bool
available_by none now = false
available_by (some available) now = leb available now

unfoldable pub timing_ok : Time → Time → Option Time → Bool
timing_ok event observed none = leb event observed
timing_ok event observed (some available) = leb event observed && leb observed available

unfoldable pub delay_ok : Time → Option Time → Time → Bool
unfolding within
delay_ok observed none bound = true
delay_ok observed (some available) bound = within observed available bound

-- `.upper().replace("-", "_").replace(" ", "_")`
unfoldable pub normalized_hypothesis : Text → Text
normalized_hypothesis s = replace_code b' ' b'_' (replace_code b'-' b'_' (upper s))

unfoldable pub names_pipeline : Text → Bool
unfolding normalized_hypothesis
names_pipeline hypothesis =
    let s = normalized_hypothesis hypothesis in
    has_substring (codes "PIPELINE") s
    || has_substring (codes "SCHEMA") s
    || has_substring (codes "MEASUREMENT_INTEGRITY") s

unfoldable pub pipeline_suspect : RecoveryObservation → Bool
unfolding names_pipeline is_attributed
pipeline_suspect o = is_attributed o.integrity_attribution || names_pipeline o.leading_hypothesis

unfoldable pub outcome_reason : ObservationOutcome → Option ReasonCode
outcome_reason ObservationOutcome.abnormal = some ReasonCode.contradictory_outcome
outcome_reason _ = some ReasonCode.non_affirmative_outcome

-- The entries of `results` in the order of the calls of `add`, the last one apart.
unfoldable pub evidence_results :
    RecoveryPolicy → RecoveryObservation → Time → List Text → List Text → Results
unfolding within availability_reason available_by timing_ok delay_ok pipeline_suspect
evidence_results p o now known_ids known_samples =
    add Criterion.observation_identity (not (contains o.observation_id known_ids))
      (some ReasonCode.duplicate_observation_id)
    ∷ add Criterion.sampling_identity (not (contains o.sampling_identity known_samples))
        (some ReasonCode.duplicate_sampling_identity)
    ∷ add Criterion.event_cutoff (leb o.event_at now) (some ReasonCode.event_after_cutoff)
    ∷ add Criterion.availability_cutoff (available_by o.available_at now)
        (availability_reason o.available_at)
    ∷ add Criterion.timing_order (timing_ok o.event_at o.observed_at o.available_at)
        (some ReasonCode.invalid_timing)
    ∷ add Criterion.availability_delay
        (delay_ok o.observed_at o.available_at p.max_availability_delay)
        (some ReasonCode.availability_delay_exceeded)
    ∷ add Criterion.freshness (within o.observed_at now p.max_observation_age)
        (some ReasonCode.stale_observation)
    ∷ add Criterion.context (o.context == p.expected_context) (some ReasonCode.context_mismatch)
    ∷ add Criterion.characteristic (o.characteristic == p.expected_characteristic)
        (some ReasonCode.characteristic_mismatch)
    ∷ add Criterion.unit (o.unit == p.expected_unit) (some ReasonCode.unit_mismatch)
    ∷ add Criterion.confidence (leb p.confidence_floor o.confidence)
        (some ReasonCode.low_confidence)
    ∷ add Criterion.reference (not p.require_reference_valid || o.reference_valid)
        (some ReasonCode.invalid_reference)
    ∷ add Criterion.capability (not p.require_capability_valid || o.capability_valid)
        (some ReasonCode.invalid_capability)
    ∷ add Criterion.integrity_attribution (not (pipeline_suspect o))
        (some ReasonCode.pipeline_or_schema_suspect)
    ∷ []

-- The last call of `add`.
abbrev pub outcome_result : RecoveryPolicy → RecoveryObservation → Criterion × CriterionResult
outcome_result p o =
    add Criterion.affirmative_outcome (same_outcome o.outcome p.affirmative_outcome)
      (outcome_reason o.outcome)

unfoldable pub criterion_results :
    RecoveryPolicy → RecoveryObservation → Time → List Text → List Text → Results
unfolding evidence_results outcome_reason same_outcome
criterion_results p o now known_ids known_samples =
    evidence_results p o now known_ids known_samples ++ (outcome_result p o ∷ [])

-- `tuple(result.reason_code for … if result.reason_code is not None)`
unfoldable pub reason_codes_of : Results → List ReasonCode
reason_codes_of [] = []
reason_codes_of ((name, r) ∷ rest) =
    let others = reason_codes_of rest in elim r.reason_code [ none ↦ others | some c ↦ c ∷ others ]

unfoldable pub is_affirmative_outcome : Criterion → Bool
is_affirmative_outcome Criterion.affirmative_outcome = true
is_affirmative_outcome _ = false

-- `all(result.passed for name, result in … if name != "affirmative_outcome")`
unfoldable pub all_passed_but_outcome : Results → Bool
unfolding is_affirmative_outcome
all_passed_but_outcome [] = true
all_passed_but_outcome ((name, r) ∷ rest) =
    (is_affirmative_outcome name || r.passed) && all_passed_but_outcome rest

abbrev pub is_empty {ℓ} : {A : Type ℓ} → List A → Bool
is_empty [] = true
is_empty (x ∷ xs) = false

unfoldable pub evaluate :
    RecoveryPolicy → Option RecoveryObservation → Time → List Text → List Text → RecoveryEligibility
unfolding criterion_results reason_codes_of all_passed_but_outcome
evaluate p none now known_ids known_samples = record {
  observation_id = none;
  eligible = false;
  reason_codes = ReasonCode.missing_observation ∷ [];
  criterion_results =
      (
        Criterion.observation_present,
        record { passed = false; reason_code = some ReasonCode.missing_observation },
      )
      ∷ [];
  qualified = false;
  contradictory = false;
}
evaluate p (some o) now known_ids known_samples =
    let results = criterion_results p o now known_ids known_samples in
    let reason_codes = reason_codes_of results in
    let qualified = all_passed_but_outcome results in
    let eligible = is_empty reason_codes in
    record {
      observation_id = some o.observation_id;
      eligible = eligible;
      reason_codes = if eligible then ReasonCode.eligible ∷ [] else reason_codes;
      criterion_results = results;
      qualified = qualified;
      contradictory = qualified && same_outcome o.outcome ObservationOutcome.abnormal;
    }
