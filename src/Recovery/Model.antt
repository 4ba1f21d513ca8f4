-- ===== src/Recovery/Model.antt =====
-- The records of src/ephi/recovery.py and the checks of their constructors.
use ephi.Base.{
  ℕ, ◌*◌, ◌^◌, Bool, true, false, Option, [], ltb, leb, Result, ok, ◌>>=◌, ◌>>◌, raise_if, ◌==◌,
  ℕ_eq, list_Eq,
}
use ephi.Base.Text.{Text, codes, strip}

-- What RecoveryValidationError reports; a blank identity names the field.
pub data RecoveryError : Type 0 where
  blank_identity : Text → RecoveryError
  bad_confidence floor_not_positive bad_minimum unknown_affirmative : RecoveryError
  bad_duration : Text → RecoveryError
  count_exceeds_assessments episode_exists unknown_episode : RecoveryError
  missing_entry : RecoveryError  -- a KeyError on the service's own dictionaries

pub data RecoveryState : Type 0 where
  active recovering resolved : RecoveryState

pub data Severity : Type 0 where
  normal observe alert critical : Severity

-- HEALTHY is an alias of NORMAL in the source.
pub data ObservationOutcome : Type 0 where
  normal abnormal unknown : ObservationOutcome

pub data IntegrityAttribution : Type 0 where
  none_known data_pipeline_or_schema_change measurement_integrity : IntegrityAttribution

pub data ReasonCode : Type 0 where
  eligible missing_observation observation_unavailable event_after_cutoff : ReasonCode
  available_after_cutoff invalid_timing availability_delay_exceeded stale_observation : ReasonCode
  context_mismatch characteristic_mismatch unit_mismatch low_confidence : ReasonCode
  invalid_reference invalid_capability pipeline_or_schema_suspect : ReasonCode
  duplicate_observation_id duplicate_sampling_identity : ReasonCode
  non_affirmative_outcome contradictory_outcome : ReasonCode

-- The comparisons `is` of two outcomes, and of an attribution with NONE.
unfoldable pub same_outcome : ObservationOutcome → ObservationOutcome → Bool
same_outcome ObservationOutcome.normal ObservationOutcome.normal = true
same_outcome ObservationOutcome.abnormal ObservationOutcome.abnormal = true
same_outcome ObservationOutcome.unknown ObservationOutcome.unknown = true
same_outcome _ _ = false

unfoldable pub is_attributed : IntegrityAttribution → Bool
is_attributed IntegrityAttribution.none_known = false
is_attributed _ = true

-- An instant or a duration in microseconds; instants count from one that no datetime precedes.
abbrev pub Time : Type 0
Time = ℕ

-- A finite float that is not negative, in units of 2 ^ -1074, of which every such float is a
-- whole multiple; so `confidence_one` stands for 1.0.
unfoldable pub confidence_one : ℕ
confidence_one = 2 ^ 1074

unfoldable pub identity : Text → Text → Result RecoveryError Text
identity field value =
    let stripped = strip value in
    raise_if (stripped == []) (RecoveryError.blank_identity field) >> ok stripped

unfoldable pub check_confidence : ℕ → Result RecoveryError ℕ
unfolding confidence_one
check_confidence c = raise_if (ltb confidence_one c) RecoveryError.bad_confidence >> ok c

unfoldable pub check_duration : Text → Time → Result RecoveryError Time
check_duration field d = raise_if (leb d 0) (RecoveryError.bad_duration field) >> ok d

pub record RecoveryPolicy : Type 0 where
  pub policy_id : Text
  pub confidence_floor : ℕ
  pub minimum_eligible_independent_samples : ℕ
  pub expected_context : Text
  pub expected_characteristic : Text
  pub expected_unit : Text
  pub affirmative_outcome : ObservationOutcome
  pub require_reference_valid : Bool
  pub require_capability_valid : Bool
  pub max_observation_age : Time
  pub max_availability_delay : Time

-- `RecoveryPolicy.__post_init__` on the arguments in `p`.
unfoldable pub make_policy : RecoveryPolicy → Result RecoveryError RecoveryPolicy
make_policy p = do
  policy_id ← identity (codes "policy_id") p.policy_id
  confidence_floor ← check_confidence p.confidence_floor
  raise_if (leb confidence_floor 0) RecoveryError.floor_not_positive
  raise_if (ltb p.minimum_eligible_independent_samples 1) RecoveryError.bad_minimum
  context ← identity (codes "expected_context") p.expected_context
  characteristic ← identity (codes "expected_characteristic") p.expected_characteristic
  unit ← identity (codes "expected_unit") p.expected_unit
  raise_if (same_outcome p.affirmative_outcome ObservationOutcome.unknown)
      RecoveryError.unknown_affirmative
  age ← check_duration (codes "max_observation_age") p.max_observation_age
  delay ← check_duration (codes "max_availability_delay") p.max_availability_delay
  ok (record p {
    policy_id = policy_id;
    confidence_floor = confidence_floor;
    expected_context = context;
    expected_characteristic = characteristic;
    expected_unit = unit;
    max_observation_age = age;
    max_availability_delay = delay;
  })

abbrev pub hour : Time
hour = 3_600_000_000

-- The arguments of `deterministic_w0_regression`, the class's defaults among them; the float 0.8
-- is 0x1999999999999a * 2 ^ -53.
unfoldable pub deterministic_w0_regression : RecoveryPolicy
deterministic_w0_regression = record {
  policy_id = codes "W0_DETERMINISTIC_REGRESSION";
  confidence_floor = 0x1999999999999a * 2 ^ 1021;
  minimum_eligible_independent_samples = 3;
  expected_context = codes "W0_CONTEXT";
  expected_characteristic = codes "W0_CHARACTERISTIC";
  expected_unit = codes "W0_UNIT";
  affirmative_outcome = ObservationOutcome.normal;
  require_reference_valid = true;
  require_capability_valid = true;
  max_observation_age = 24 * hour;
  max_availability_delay = hour;
}

pub record RecoveryObservation : Type 0 where
  pub observation_id : Text
  pub episode_id : Text
  pub sampling_identity : Text
  pub event_at : Time
  pub observed_at : Time
  pub available_at : Option Time
  pub context : Text
  pub characteristic : Text
  pub unit : Text
  pub severity : Severity
  pub outcome : ObservationOutcome
  pub confidence : ℕ
  pub leading_hypothesis : Text
  pub integrity_attribution : IntegrityAttribution
  pub reference_valid : Bool
  pub capability_valid : Bool

-- `RecoveryObservation.__post_init__`; the checks of types alone have no counterpart.
unfoldable pub make_observation : RecoveryObservation → Result RecoveryError RecoveryObservation
make_observation o = do
  observation_id ← identity (codes "observation_id") o.observation_id
  episode_id ← identity (codes "episode_id") o.episode_id
  sampling_identity ← identity (codes "sampling_identity") o.sampling_identity
  context ← identity (codes "context") o.context
  characteristic ← identity (codes "characteristic") o.characteristic
  unit ← identity (codes "unit") o.unit
  leading_hypothesis ← identity (codes "leading_hypothesis") o.leading_hypothesis
  confidence ← check_confidence o.confidence
  ok (record o {
    observation_id = observation_id;
    episode_id = episode_id;
    sampling_identity = sampling_identity;
    context = context;
    characteristic = characteristic;
    unit = unit;
    confidence = confidence;
    leading_hypothesis = leading_hypothesis;
  })

pub record RecoveryEpisode : Type 0 where
  pub episode_id : Text
  pub state : RecoveryState
  pub assessment_count : ℕ
  pub eligible_independent_count : ℕ
  pub policy_id : Text

-- `RecoveryEpisode.__post_init__`
unfoldable pub make_episode : RecoveryEpisode → Result RecoveryError RecoveryEpisode
make_episode e = do
  episode_id ← identity (codes "episode_id") e.episode_id
  raise_if (ltb e.assessment_count e.eligible_independent_count)
      RecoveryError.count_exceeds_assessments
  policy_id ← identity (codes "policy_id") e.policy_id
  ok (record e { episode_id = episode_id; policy_id = policy_id })
