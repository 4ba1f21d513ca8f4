-- ===== src/Recovery/Service.antt =====
-- `RecoveryService` of src/ephi/recovery.py. A method returns what it returns or raises, and the
-- service as it is then, also after a raise.
pub mod Guarantees
pub mod Traces
pub mod Progress
pub mod Submit
pub mod Sets
pub mod Invariant
use ephi.Base.{
  or_raise, ℕ, Bool, true, false, Option, none, some, List, [], ◌∷◌, ◌++◌, map, length, leb, nat_eq,
  if◌then◌else◌, Result, ok, err, ◌>>=◌, raise_if, ◌>>◌, ℕ_eq, list_Eq, contains,
}
use ephi.Base.Text.{Text, codes}
use ephi.Base.Dict.{Dict, lookup, insert, has_key}
use ephi.Recovery.Model.{
  RecoveryError, RecoveryState, RecoveryPolicy, RecoveryObservation, RecoveryEpisode, Time,
  identity, make_episode,
}
use ephi.Recovery.Evaluator.{RecoveryEligibility, evaluate}

pub record RecoveryService : Type 0 where
  pub policy : RecoveryPolicy
  pub episodes : Dict Text RecoveryEpisode
  pub observations : Dict Text (List RecoveryObservation)
  pub eligible_sampling_identities : Dict Text (List Text)

pub record RecoveryAssessment : Type 0 where
  pub observation : RecoveryObservation
  pub eligibility : RecoveryEligibility
  pub episode : RecoveryEpisode

-- `RecoveryService.__init__` with a policy.
unfoldable pub new_service : RecoveryPolicy → RecoveryService
new_service p = record {
  policy = p;
  episodes = [];
  observations = [];
  eligible_sampling_identities = [];
}

-- `set.add`
unfoldable pub set_add : Text → List Text → List Text
set_add a xs = if contains a xs then xs else xs ++ (a ∷ [])

-- The statements of `create_episode` after the check that the episode is new.
unfoldable pub register_episode :
    Text → RecoveryService → Result RecoveryError RecoveryEpisode × RecoveryService
register_episode episode_id s =
    elim (make_episode (record {
      episode_id = episode_id;
      state = RecoveryState.active;
      assessment_count = 0;
      eligible_independent_count = 0;
      policy_id = s.policy.policy_id;
    })) [
      | err e ↦ (err e, s)
      | ok episode ↦ (
        ok episode,
        record s {
          episodes = insert episode_id episode s.episodes;
          observations = insert episode_id [] s.observations;
          eligible_sampling_identities = insert episode_id [] s.eligible_sampling_identities;
        },
      )
    ]

unfoldable pub create_episode :
    Text → RecoveryService → Result RecoveryError RecoveryEpisode × RecoveryService
create_episode raw_id s = elim (identity (codes "episode_id") raw_id) [
  | err e ↦ (err e, s)
  | ok episode_id ↦
      if has_key episode_id s.episodes
      then (err RecoveryError.episode_exists, s)
      else register_episode episode_id s
]

unfoldable pub get_episode : Text → RecoveryService → Result RecoveryError RecoveryEpisode
get_episode raw_id s = do
  episode_id ← identity (codes "episode_id") raw_id
  or_raise (lookup episode_id s.episodes) RecoveryError.unknown_episode

-- The set of eligible sampling identities after a submission.
unfoldable pub next_eligible : RecoveryEligibility → RecoveryObservation → List Text → List Text
unfolding set_add
next_eligible e o ids =
    if e.contradictory then [] else if e.eligible then set_add o.sampling_identity ids else ids

-- The state after a submission, from the set's size.
unfoldable pub next_state : RecoveryPolicy → RecoveryEligibility → ℕ → RecoveryState → RecoveryState
next_state p e eligible_count state =
    if e.contradictory
    then RecoveryState.active
    else if leb p.minimum_eligible_independent_samples eligible_count
    then RecoveryState.resolved
    else if nat_eq eligible_count 0
    then state
    else RecoveryState.recovering

-- The end of `submit`: the episode is built anew, which may raise, and is stored.
unfoldable pub store_assessment :
    RecoveryObservation
    → RecoveryEligibility
    → RecoveryEpisode
    → List RecoveryObservation
    → List Text
    → RecoveryService
    → Result RecoveryError RecoveryAssessment × RecoveryService
store_assessment o e episode observations ids s =
    elim (make_episode (record {
      episode_id = episode.episode_id;
      state = next_state s.policy e (length ids) episode.state;
      assessment_count = length observations;
      eligible_independent_count = length ids;
      policy_id = episode.policy_id;
    })) [
      | err x ↦ (err x, s)
      | ok next_episode ↦ (
        ok (record { observation = o; eligibility = e; episode = next_episode }),
        record s { episodes = insert episode.episode_id next_episode s.episodes },
      )
    ]

-- The middle of `submit`, with the episode's two collections at hand; they change in place.
unfoldable pub submit_known :
    RecoveryObservation
    → Time
    → RecoveryEpisode
    → List RecoveryObservation
    → RecoveryService
    → Result RecoveryError RecoveryAssessment × RecoveryService
submit_known o now episode observations s =
    let eligibility =
      evaluate s.policy (some o) now (map (λ x. x.observation_id) observations)
        (map (λ x. x.sampling_identity) observations) in
    let observations' = observations ++ (o ∷ []) in
    let s' = record s { observations = insert episode.episode_id observations' s.observations } in
    elim (lookup episode.episode_id s.eligible_sampling_identities) [
      | none ↦ (err RecoveryError.missing_entry, s')
      | some ids ↦
          let ids' = next_eligible eligibility o ids in
          store_assessment o eligibility episode observations' ids' (record s' {
            eligible_sampling_identities =
                insert episode.episode_id ids' s'.eligible_sampling_identities;
          })
    ]

unfoldable pub submit :
    RecoveryObservation
    → Time
    → RecoveryService
    → Result RecoveryError RecoveryAssessment × RecoveryService
submit o now s = elim (get_episode o.episode_id s) [
  | err e ↦ (err e, s)
  | ok episode ↦ elim (lookup episode.episode_id s.observations) [
    | none ↦ (err RecoveryError.missing_entry, s)
    | some observations ↦ submit_known o now episode observations s
  ]
]

-- `RecoveryService.observations`
unfoldable pub list_observations :
    Text → RecoveryService → Result RecoveryError (List RecoveryObservation)
list_observations raw_id s = do
  episode_id ← identity (codes "episode_id") raw_id
  episode ← get_episode episode_id s
  or_raise (lookup episode_id s.observations) RecoveryError.missing_entry
