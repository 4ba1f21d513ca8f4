-- ===== src/Recovery/Tests.antt =====
-- Examples of the recovery rules: a policy that asks for one sample, and one observation.
use ephi.Base.{true, some, List, [], ◌∷◌, ◌≡◌, refl, ok, contains, list_eq, list_Eq, ℕ_eq, inl, ◌↔◌}
use mathlib.Core.List.{flat_map}
use ephi.Base.Text.{
  codes, strip, lstrip, is_space, upper, upper_code, replace_code, starts_with, has_substring,
}
use ephi.Base.Dict.{lookup, insert}
use ephi.Recovery.Model.{
  RecoveryState, Severity, ObservationOutcome, IntegrityAttribution, RecoveryPolicy,
  RecoveryObservation, RecoveryEpisode, make_policy, deterministic_w0_regression, identity,
  check_confidence, check_duration, confidence_one, same_outcome, is_attributed, make_episode,
}
use ephi.Recovery.Evaluator.{
  evaluate, within, availability_reason, available_by, timing_ok, delay_ok, normalized_hypothesis,
  names_pipeline, pipeline_suspect, outcome_reason, evidence_results, criterion_results,
  reason_codes_of, is_affirmative_outcome, all_passed_but_outcome,
}
use ephi.Recovery.Evaluator.Criteria.{IsTrusted, evaluate_iff}
use ephi.Recovery.Service.{
  RecoveryService, new_service, get_episode, submit, create_episode, register_episode, submit_known,
  store_assessment, next_eligible, next_state, set_add,
}
use ephi.Recovery.Service.Submit.{IsValid}
use ephi.Recovery.Service.Traces.{Call, run, apply, run-IsValid, new_service-IsValid}
use ephi.Recovery.Service.Progress.{IsProgress, submit-IsProgress, held_of}
use ephi.Recovery.Service.Guarantees.{
  HasSamples, resolved-HasSamples, duplicate-inert, abnormal_policy_never_recovers, IsStuck,
  inverted,
}

abbrev policy_of : ObservationOutcome → RecoveryPolicy
unfolding deterministic_w0_regression
policy_of outcome = record deterministic_w0_regression {
  minimum_eligible_independent_samples = 1;
  affirmative_outcome = outcome;
}

abbrev quick : RecoveryPolicy
quick = policy_of ObservationOutcome.normal

abbrev observation : RecoveryObservation
observation = record {
  observation_id = codes "o1";
  episode_id = codes "e";
  sampling_identity = codes "w1";
  event_at = 5;
  observed_at = 10;
  available_at = some 20;
  context = codes "W0_CONTEXT";
  characteristic = codes "W0_CHARACTERISTIC";
  unit = codes "W0_UNIT";
  severity = Severity.normal;
  outcome = ObservationOutcome.normal;
  confidence = confidence_one;
  leading_hypothesis = codes "none";
  integrity_attribution = IntegrityAttribution.none_known;
  reference_valid = true;
  capability_valid = true;
}

abbrev open_episode : RecoveryPolicy → RecoveryEpisode
open_episode p = record {
  episode_id = codes "e";
  state = RecoveryState.active;
  assessment_count = 0;
  eligible_independent_count = 0;
  policy_id = p.policy_id;
}

abbrev create_e : List Call
create_e = Call.create (codes "e") ∷ []

quick_made : make_policy quick ≡ ok quick
unfolding make_policy identity check_confidence check_duration confidence_one same_outcome strip
    lstrip is_space deterministic_w0_regression list_eq contains
quick_made = refl

abbrev resolved_episode : RecoveryEpisode
resolved_episode = record (open_episode quick) {
  state = RecoveryState.resolved;
  assessment_count = 1;
  eligible_independent_count = 1;
}

abbrev both_calls : List Call
both_calls = Call.create (codes "e") ∷ Call.submit_observation observation 30 ∷ []

abbrev opened : RecoveryService
opened = run create_e (new_service quick)

abbrev assessed : RecoveryService
assessed = run both_calls (new_service quick)

opened-IsValid : IsValid opened
opened-IsValid =
    run-IsValid create_e (new_service quick) (new_service-IsValid quick quick quick_made)

assessed-IsValid : IsValid assessed
assessed-IsValid =
    run-IsValid both_calls (new_service quick) (new_service-IsValid quick quick quick_made)

open_found : get_episode (codes "e") opened ≡ ok (open_episode quick)
unfolding new_service run apply create_episode register_episode get_episode make_episode identity
    strip lstrip is_space list_eq contains lookup insert deterministic_w0_regression
open_found = refl

assessed_facts :
    (lookup (codes "e") assessed.episodes ≡ some resolved_episode)
    × ((get_episode (codes "e") assessed ≡ ok resolved_episode)
        × (lookup (codes "e") assessed.observations ≡ some (observation ∷ [])))
unfolding new_service run apply create_episode register_episode get_episode make_episode identity
    strip lstrip is_space list_eq contains lookup insert deterministic_w0_regression confidence_one
    submit submit_known store_assessment next_eligible next_state set_add evaluate criterion_results
    evidence_results reason_codes_of is_affirmative_outcome all_passed_but_outcome within
    availability_reason available_by timing_ok delay_ok normalized_hypothesis names_pipeline
    pipeline_suspect outcome_reason same_outcome is_attributed starts_with has_substring upper
    upper_code replace_code flat_map
assessed_facts = (refl, (refl, refl))

evaluate_iff_example :
    let e = evaluate quick (some observation) 30 [] [] in
    let trusted = IsTrusted quick observation 30 [] [] in
    ((e.qualified ≡ true) ↔ trusted)
    × ((e.eligible ≡ true) ↔ (trusted × (observation.outcome ≡ quick.affirmative_outcome)))
    × ((e.contradictory ≡ true) ↔ (trusted × (observation.outcome ≡ ObservationOutcome.abnormal)))
evaluate_iff_example = evaluate_iff quick observation 30 [] []

submit-IsProgress_example :
    IsProgress opened observation 30
      (open_episode quick)
      (held_of opened opened-IsValid observation 30 (open_episode quick) open_found).observations
      (submit observation 30 opened)
submit-IsProgress_example =
    submit-IsProgress opened opened-IsValid observation 30 (open_episode quick) open_found

resolved-HasSamples_example : HasSamples assessed (codes "e")
resolved-HasSamples_example =
    resolved-HasSamples quick quick both_calls (codes "e") resolved_episode quick_made
      assessed_facts.0 refl

again : contains (codes "o1") (codes "o1" ∷ []) ≡ true
unfolding contains list_eq
again = refl

duplicate-inert_example :
    (after : RecoveryEpisode) × (lookup (codes "e") (submit observation 40 assessed).1.episodes
      ≡ some after)
    × (after.eligible_independent_count ≡ 1)
    × (after.state ≡ RecoveryState.resolved)
duplicate-inert_example =
    duplicate-inert assessed assessed-IsValid observation 40 resolved_episode (observation ∷ [])
      assessed_facts.1.0 assessed_facts.1.1 (inl again)

abbrev inverted_calls : List Call
inverted_calls =
    Call.create (codes "e")
    ∷ Call.submit_observation (record observation { outcome = ObservationOutcome.abnormal }) 30
    ∷ []

abnormal_policy_never_recovers_example :
    (make_policy (inverted quick) ≡ ok (inverted quick))
    × IsStuck (lookup (codes "e") (run inverted_calls (new_service (inverted quick))).episodes)
abnormal_policy_never_recovers_example =
    abnormal_policy_never_recovers quick quick inverted_calls (codes "e") quick_made

-- The run leaves the episode there.
inverted_found :
    lookup (codes "e") (run inverted_calls (new_service (inverted quick))).episodes
    ≡ some (record (open_episode (inverted quick)) { assessment_count = 1 })
unfolding new_service run apply create_episode register_episode get_episode make_episode identity
    strip lstrip is_space list_eq contains lookup insert deterministic_w0_regression confidence_one
    submit submit_known store_assessment next_eligible next_state set_add evaluate criterion_results
    evidence_results reason_codes_of is_affirmative_outcome all_passed_but_outcome within
    availability_reason available_by timing_ok delay_ok normalized_hypothesis names_pipeline
    pipeline_suspect outcome_reason same_outcome is_attributed starts_with has_substring upper
    upper_code replace_code flat_map policy_of
inverted_found = refl
