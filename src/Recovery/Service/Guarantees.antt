-- ===== src/Recovery/Service/Guarantees.antt =====
-- What the recovery service promises of every episode that any sequence of calls leaves behind.
use mathlib.Core.Path.{subst, ap₂}
use ephi.Base.{◌⊎◌}
use ephi.Base.{
  ℕ, ◌≤◌, true, false, some, List, [], ◌∷◌, length, ◌≡◌, refl, sym, ap, arith, ℕ_eq, list_Eq,
  list_eq_iff, ok, inl, inr, ◌==◌, ◌∙◌, contains, IsDistinct, All, Bool-cases, some_inj,
  Result-cases, Option, none, Option-cases, >>=-returns, raise_if, ok_inj, Result, err, leb, ltb,
  ◌>>=◌,
}
use ephi.Base.Text.{Text, codes}
use ephi.Base.Dict.{lookup}
use ephi.Recovery.Model.{
  RecoveryState, RecoveryPolicy, RecoveryObservation, RecoveryEpisode, Time, ObservationOutcome,
  make_policy, identity, check_confidence, check_duration, same_outcome, RecoveryError,
}
use ephi.Recovery.Evaluator.{RecoveryEligibility}
use ephi.Recovery.Evaluator.Criteria.{duplicate_rejected, abnormal_eligible}
use ephi.Recovery.Service.{RecoveryService, get_episode, submit, new_service}
use ephi.Recovery.Service.Invariant.{state_of, samples, observation_ids, evaluation}
use ephi.Recovery.Service.Submit.{IsValid, submit_unknown, get_episode_key}
use ephi.Recovery.Service.Progress.{submit-IsProgress, held_of, next_count}
use ephi.Recovery.Service.Traces.{
  Call, create, submit_observation, apply, run, apply-IsValid, run-IsValid, create_episode_origin,
  create_episode_policy, new_service-IsValid,
}

-- Distinct sampling identities, all of observations that the service holds for the episode, at
-- least as many as the policy asks for.
pub record HasSamples (s : RecoveryService) (k : Text) : Type 0 where
  pub observations : List RecoveryObservation
  pub found : lookup k s.observations ≡ some observations
  pub ids : List Text
  pub distinct : IsDistinct ids
  pub sampled : All (λ i. contains i (samples observations) ≡ true) ids
  pub enough : s.policy.minimum_eligible_independent_samples ≤ length ids

state_of_resolved :
    (p : RecoveryPolicy) (n : ℕ)
    → state_of p n ≡ RecoveryState.resolved
    → p.minimum_eligible_independent_samples ≤ n
state_of_resolved p n h = ground arith

-- After any calls on a new service, an episode in the state RESOLVED is backed by at least the
-- policy's minimum of distinct sampling identities, each of an observation submitted for it.
pub resolved-HasSamples :
    (raw p : RecoveryPolicy) (cs : List Call) (k : Text) (ep : RecoveryEpisode)
    → make_policy raw ≡ ok p
    → lookup k (run cs (new_service p)).episodes ≡ some ep
    → ep.state ≡ RecoveryState.resolved
    → HasSamples (run cs (new_service p)) k
resolved-HasSamples raw p cs k ep made found resolved =
    let s = run cs (new_service p) in
    let h = (run-IsValid cs (new_service p) (new_service-IsValid raw p made)).held k ep found in
    record {
      observations = h.observations;
      found = subst (λ j. lookup j s.observations ≡ some h.observations) h.key h.found_observations;
      ids = h.ids;
      distinct = h.sound.distinct;
      sampled = h.sound.known;
      enough = state_of_resolved s.policy (length h.ids) (sym h.sound.state ∙ resolved);
    }

kept_count :
    (e : RecoveryEligibility) {f : RecoveryEligibility} (n : ℕ)
    → e ≡ f
    → f.eligible ≡ false
    → f.contradictory ≡ false
    → next_count e n ≡ n
kept_count e n q a b = rw (q, a, b)

module _ (s : RecoveryService) (v : IsValid s) (o : RecoveryObservation) (now : Time) where
  -- In a valid service, an observation whose identity or whose sampling identity stands among the
  -- observations of its episode already changes neither the episode's eligible count nor its state.
  pub duplicate-inert :
      (ep : RecoveryEpisode) (os : List RecoveryObservation)
      → get_episode o.episode_id s ≡ ok ep
      → lookup ep.episode_id s.observations ≡ some os
      → (contains o.observation_id (observation_ids os) ≡ true)
        ⊎ (contains o.sampling_identity (samples os) ≡ true)
      → (after : RecoveryEpisode) × (lookup ep.episode_id (submit o now s).1.episodes ≡ some after)
        × (after.eligible_independent_count ≡ ep.eligible_independent_count)
        × (after.state ≡ ep.state)
  duplicate-inert ep os g held dup =
      let h = held_of s v o now ep g in
      let r = submit-IsProgress s v o now ep g in
      let same : os ≡ h.observations = some_inj (sym held ∙ h.found_observations) in
      let (inert, consistent) =
        duplicate_rejected s.policy o now (observation_ids h.observations) (samples h.observations)
          (subst IsDuplicate same dup) in
      let count = r.counted ∙ kept_count _ _ r.evaluated inert consistent in
      (
        r.assessment.episode,
        r.stored,
        count,
        r.state ∙ ap (state_of s.policy) (count ∙ h.sound.counted) ∙ sym h.sound.state,
      )
    where
      IsDuplicate : List RecoveryObservation → Type 0
      IsDuplicate xs =
          (contains o.observation_id (observation_ids xs) ≡ true)
          ⊎ (contains o.sampling_identity (samples xs) ≡ true)

-- No episode has an eligible sample.
abbrev IsIdle : RecoveryService → Type 0
IsIdle s =
    (k : Text) (ep : RecoveryEpisode)
    → lookup k s.episodes ≡ some ep
    → ep.eligible_independent_count ≡ 0

abbrev IsAbnormal : RecoveryPolicy → Type 0
IsAbnormal p = p.affirmative_outcome ≡ ObservationOutcome.abnormal

idle_count :
    (e : RecoveryEligibility) → (e.eligible ≡ true → e.contradictory ≡ true) → next_count e 0 ≡ 0
idle_count e h = ground arith

submit-IsIdle :
    (s : RecoveryService) (v : IsValid s) (o : RecoveryObservation) (now : Time)
    → IsAbnormal s.policy
    → IsIdle s
    → IsIdle (submit o now s).1 × ((submit o now s).1.policy ≡ s.policy)
submit-IsIdle s v o now a idle = elim (Result-cases (get_episode o.episode_id s)) [
  | inr (x, g) ↦ rw (submit_unknown s o now x g) (idle, refl)
  | inl (ep, g) ↦
      let r = submit-IsProgress s v o now ep g in
      let os = (held_of s v o now ep g).observations in
      let (_, _, found_before) = get_episode_key o.episode_id s ep g in
      let stays : r.assessment.episode.eligible_independent_count ≡ 0 =
        r.counted
        ∙ ap₂ next_count r.evaluated (idle _ ep found_before)
        ∙ idle_count (evaluation s.policy o now os)
            (abnormal_eligible s.policy o now (observation_ids os) (samples os) a) in
      (
        λ k e found. elim (Bool-cases (ep.episode_id == k)) [
          | inl same ↦
              let key : ep.episode_id ≡ k = (list_eq_iff _ _).0 same in
              let there : lookup k (submit o now s).1.episodes ≡ some r.assessment.episode =
                subst (λ j. lookup j (submit o now s).1.episodes ≡ some r.assessment.episode) key
                  r.stored in
              let it = some_inj (sym there ∙ found) in
              ap (λ (x : RecoveryEpisode). x.eligible_independent_count) (sym it) ∙ stays
          | inr other ↦ idle k e (sym (r.others k other) ∙ found)
        ],
        r.same_policy,
      )
]

apply-IsIdle :
    (c : Call) (s : RecoveryService) (v : IsValid s)
    → IsAbnormal s.policy
    → IsIdle s
    → IsIdle (apply c s) × ((apply c s).policy ≡ s.policy)
unfolding apply
apply-IsIdle (submit_observation o now) s v a idle = submit-IsIdle s v o now a idle
apply-IsIdle (create id) s v a idle = (
  λ k e found. elim (create_episode_origin id s v k e found) [
    | inl old ↦ idle k e old
    | inr new ↦ new
  ],
  create_episode_policy id s v,
)

run-IsIdle :
    (cs : List Call) (s : RecoveryService)
    → IsValid s
    → IsAbnormal s.policy
    → IsIdle s
    → IsIdle (run cs s)
unfolding run
run-IsIdle [] s v a idle = idle
run-IsIdle (c ∷ cs) s v a idle =
    let (still, kept) = apply-IsIdle c s v a idle in
    run-IsIdle cs (apply c s) (apply-IsValid c s v)
      (ap (λ (p : RecoveryPolicy). p.affirmative_outcome) kept ∙ a) still

new_service-IsIdle : (p : RecoveryPolicy) → IsIdle (new_service p)
unfolding new_service lookup
new_service-IsIdle p k ep h = cc

-- An episode that is there is in ACTIVE and has no eligible sample.
pub data IsStuck : Option RecoveryEpisode → Type 0 where
  missing : IsStuck none
  waiting :
      {ep : RecoveryEpisode}
      → ep.state ≡ RecoveryState.active
      → ep.eligible_independent_count ≡ 0
      → IsStuck (some ep)

-- The same policy with the affirmative outcome ABNORMAL.
abbrev pub inverted : RecoveryPolicy → RecoveryPolicy
inverted p = record p { affirmative_outcome = ObservationOutcome.abnormal }

-- Two chains that begin alike: what the one returns carries over to the other.
carries :
    {E A B : Type 0} (f : B → B) (call : Result E A) (next other : A → Result E B)
    → ((a : A) (b : B) → next a ≡ ok b → other a ≡ ok (f b))
    → (b : B) → (call >>= next) ≡ ok b
    → (call >>= other) ≡ ok (f b)
carries f (ok a) next other step b h = step a b h
carries f (err e) next other step b h = cc

-- The constructor looks at the affirmative outcome only to reject UNKNOWN.
make_policy-inverted :
    (raw p : RecoveryPolicy) → make_policy raw ≡ ok p → make_policy (inverted raw) ≡ ok (inverted p)
unfolding make_policy same_outcome
make_policy-inverted raw =
    carries inverted (identity (codes "policy_id") raw.policy_id) _ _ λ policy_id.
      carries inverted (check_confidence raw.confidence_floor) _ _ λ floor.
        carries inverted (raise_if (leb floor 0) RecoveryError.floor_not_positive) _ _ λ _.
          carries inverted
            (raise_if (ltb raw.minimum_eligible_independent_samples 1) RecoveryError.bad_minimum) _
            _
            λ _.
              carries inverted (identity (codes "expected_context") raw.expected_context) _ _
                λ context.
                  carries inverted
                    (identity (codes "expected_characteristic") raw.expected_characteristic) _ _
                    λ characteristic.
                      carries inverted (identity (codes "expected_unit") raw.expected_unit) _ _
                        λ unit b h.
                          let (_, _, rest) =
                            >>=-returns
                              (raise_if
                                (same_outcome raw.affirmative_outcome ObservationOutcome.unknown)
                                RecoveryError.unknown_affirmative)
                              _ h in
                          carries inverted
                            (check_duration (codes "max_observation_age") raw.max_observation_age) _
                            _
                            (λ age.
                              carries inverted
                                (check_duration (codes "max_availability_delay")
                                  raw.max_availability_delay)
                                _ _ (λ delay c q. ap (λ z. ok (inverted z)) (ok_inj q)))
                            b rest

-- Of any policy that the constructor accepts, it accepts the variant whose affirmative outcome is
-- ABNORMAL; and in a new service under that variant, no sequence of calls ever takes an episode out of
-- ACTIVE or gives it an eligible sample.
pub abnormal_policy_never_recovers :
    (raw p : RecoveryPolicy) (cs : List Call) (k : Text)
    → make_policy raw ≡ ok p
    → (make_policy (inverted raw) ≡ ok (inverted p))
      × IsStuck (lookup k (run cs (new_service (inverted p))).episodes)
abnormal_policy_never_recovers raw p cs k made =
    let accepted = make_policy-inverted raw p made in
    let service = new_service (inverted p) in
    let valid = new_service-IsValid (inverted raw) (inverted p) accepted in
    (
      accepted,
      elim (Option-cases (lookup k (run cs service).episodes)) [
        | inl absent ↦ subst IsStuck (sym absent) IsStuck.missing
        | inr (ep, found) ↦
            let h = (run-IsValid cs service valid).held k ep found in
            let idle =
              run-IsIdle cs service valid (unfold new_service in refl)
                (new_service-IsIdle (inverted p)) k ep found in
            subst IsStuck (sym found) (
              IsStuck.waiting
                (h.sound.state ∙ ap (state_of (run cs service).policy) (sym h.sound.counted ∙ idle))
                idle)
      ],
    )
