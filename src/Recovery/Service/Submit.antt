-- ===== src/Recovery/Service/Submit.antt =====
-- `submit` and `create_episode` over the whole service: what they return, what they store, and
-- that the invariant holds again.
use mathlib.Core.Path.{subst₂}
use ephi.Base.{
  ◌≤◌, false, some, List, [], ◌∷◌, ◌++◌, ◌≡◌, ◌≢◌, >>=-returns, refl, sym, arith, ℕ_eq, list_Eq,
  list_eq_iff, ok, err, Result, Bool-cases, Option-cases, inl, inr, ◌==◌, ◌∙◌, ap,
}
use ephi.Base.Text.{Text, codes, strip}
use ephi.Base.Text.Strip.{strip-strip}
use ephi.Base.Dict.{lookup, insert, lookup-insert, lookup-insert_self, lookup-insert_ne}
use ephi.Recovery.Model.{
  RecoveryError, RecoveryObservation, RecoveryEpisode, Time, identity, make_episode,
}
use ephi.Recovery.Evaluator.{RecoveryEligibility}
use ephi.Recovery.Service.{
  RecoveryService, next_eligible, get_episode, submit, submit_known, store_assessment,
}
use ephi.Recovery.Service.Invariant.{
  IsKept, IsSound, evaluation, next_episode, next-IsSound, fresh_sample,
}

pub identity-IsKept : (f t u : Text) → identity f t ≡ ok u → IsKept u
unfolding identity
identity-IsKept f t u h = λ g. elim (Bool-cases (strip t == [])) [
  | inl blank ↦ cc
  | inr text ↦ let e : u ≡ strip t = ground arith in rw (e, strip-strip t, text)
]

pub make_episode_kept :
    (e : RecoveryEpisode)
    → IsKept e.episode_id
    → IsKept e.policy_id
    → e.eligible_independent_count ≤ e.assessment_count
    → make_episode e ≡ ok e
unfolding make_episode
make_episode_kept e i p b = rw (i (codes "episode_id"), p (codes "policy_id")) (ground arith)

-- An episode stored under `k`, with all that the service keeps for it.
pub record Held (s : RecoveryService) (k : Text) (ep : RecoveryEpisode) : Type 0 where
  pub key : ep.episode_id ≡ k
  pub kept_id : IsKept ep.episode_id
  pub kept_policy : IsKept ep.policy_id
  pub observations : List RecoveryObservation
  pub found_observations : lookup ep.episode_id s.observations ≡ some observations
  pub ids : List Text
  pub found_ids : lookup ep.episode_id s.eligible_sampling_identities ≡ some ids
  pub sound : IsSound s.policy ep observations ids

pub record IsValid (s : RecoveryService) : Type 0 where
  pub positive : 1 ≤ s.policy.minimum_eligible_independent_samples
  pub kept_policy : IsKept s.policy.policy_id
  pub held : (k : Text) (ep : RecoveryEpisode) → lookup k s.episodes ≡ some ep → Held s k ep

err≢ok : {e : RecoveryError} {A : Type 0} {a : A} → ◌≢◌ {A = Result RecoveryError A} (err e) (ok a)
err≢ok h = cc

ok-injective : {A : Type 0} {a b : A} → ◌≡◌ {A = Result RecoveryError A} (ok a) (ok b) → a ≡ b
ok-injective h = cc

pub get_episode_key :
    (raw : Text) (s : RecoveryService) (ep : RecoveryEpisode)
    → get_episode raw s ≡ ok ep
    → (k : Text) × (identity (codes "episode_id") raw ≡ ok k) × (lookup k s.episodes ≡ some ep)
unfolding get_episode
get_episode_key raw s ep h =
    let (k, named, found) = >>=-returns (identity (codes "episode_id") raw) _ h in
    elim (Option-cases (lookup k s.episodes)) [
      | inl missing ↦ absurd (err≢ok (rw missing at found))
      | inr (e, there) ↦ (k, named, there ∙ ap some (ok-injective (rw there at found)))
    ]

-- The service after a submission that went through.
abbrev pub store :
    RecoveryService → RecoveryEpisode → List RecoveryObservation → List Text → RecoveryService
store s ep os ids = record s {
  episodes = insert ep.episode_id ep s.episodes;
  observations = insert ep.episode_id os s.observations;
  eligible_sampling_identities = insert ep.episode_id ids s.eligible_sampling_identities;
}

store_built :
    (o : RecoveryObservation) (e : RecoveryEligibility) (ep : RecoveryEpisode)
    (os : List RecoveryObservation) (ids : List Text) (s : RecoveryService)
    → make_episode (next_episode s.policy e ep os ids) ≡ ok (next_episode s.policy e ep os ids)
    → store_assessment o e ep os ids s ≡ (
      ok (record { observation = o; eligibility = e; episode = next_episode s.policy e ep os ids }),
      record s { episodes = insert ep.episode_id (next_episode s.policy e ep os ids) s.episodes },
    )
unfolding store_assessment
store_built o e ep os ids s m = rw (m, store_assessment)

module _ (s : RecoveryService) (valid : IsValid s) (o : RecoveryObservation) (now : Time) (k : Text)
    (ep : RecoveryEpisode) (h : Held s k ep) where
  abbrev pub eligibility : RecoveryEligibility
  eligibility = evaluation s.policy o now h.observations

  abbrev pub ids' : List Text
  ids' = next_eligible eligibility o h.ids

  abbrev pub observations' : List RecoveryObservation
  observations' = h.observations ++ (o ∷ [])

  abbrev pub episode' : RecoveryEpisode
  episode' = next_episode s.policy eligibility ep observations' ids'

  pub sound' : IsSound s.policy episode' observations' ids'
  sound' =
      next-IsSound s.policy o now ep h.observations h.ids valid.positive h.sound eligibility
        (fresh_sample s.policy o now ep h.observations h.ids valid.positive h.sound)

  submit-known :
      get_episode o.episode_id s ≡ ok ep → submit o now s ≡ submit_known o now ep h.observations s
  unfolding submit
  submit-known g = rw (g, submit, h.found_observations)

  submit_known-store :
      submit_known o now ep h.observations s
      ≡ store_assessment o eligibility ep observations' ids' (record s {
        observations = insert ep.episode_id observations' s.observations;
        eligible_sampling_identities = insert ep.episode_id ids' s.eligible_sampling_identities;
      })
  unfolding submit_known
  submit_known-store = rw (h.found_ids, submit_known)

  pub submit_held :
      get_episode o.episode_id s ≡ ok ep
      → submit o now s ≡ (
        ok (record { observation = o; eligibility = eligibility; episode = episode' }),
        store s episode' observations' ids',
      )
  submit_held g =
      let built = make_episode_kept episode' h.kept_id h.kept_policy sound'.bounded in
      submit-known g ∙ submit_known-store ∙ store_built o eligibility ep observations' ids' _ built

  -- The invariant after the submission.
  Held-store :
      (j : Text) (e : RecoveryEpisode)
      → Held s j e
      → (ep.episode_id == e.episode_id) ≡ false
      → Held (store s episode' observations' ids') j e
  Held-store j e held other = record {
    key = held.key;
    kept_id = held.kept_id;
    kept_policy = held.kept_policy;
    observations = held.observations;
    found_observations = lookup-insert_ne _ _ _ _ other ∙ held.found_observations;
    ids = held.ids;
    found_ids = lookup-insert_ne _ _ _ _ other ∙ held.found_ids;
    sound = held.sound;
  }

  Held_self : Held (store s episode' observations' ids') ep.episode_id episode'
  Held_self = record {
    key = refl;
    kept_id = h.kept_id;
    kept_policy = h.kept_policy;
    observations = observations';
    found_observations = lookup-insert_self _ _ _;
    ids = ids';
    found_ids = lookup-insert_self _ _ _;
    sound = sound';
  }

  stored_held :
      (j : Text) (e : RecoveryEpisode)
      → lookup j (store s episode' observations' ids').episodes ≡ some e
      → Held (store s episode' observations' ids') j e
  stored_held j e q = elim (Bool-cases (ep.episode_id == j)) [
    | inl same ↦
        let there = lookup-insert ep.episode_id j episode' s.episodes in
        let at : episode' ≡ e = ground arith in
        let key : ep.episode_id ≡ j = (list_eq_iff _ _).0 same in
        subst₂ (λ i x. Held (store s episode' observations' ids') i x) key at Held_self
    | inr other ↦
        let held = valid.held j e (sym (lookup-insert_ne _ _ _ _ other) ∙ q) in
        Held-store j e held (rw held.key other)
  ]

  pub store-IsValid : IsValid (store s episode' observations' ids')
  store-IsValid = record {
    positive = valid.positive;
    kept_policy = valid.kept_policy;
    held = stored_held;
  }

pub submit_unknown :
    (s : RecoveryService) (o : RecoveryObservation) (now : Time) (e : RecoveryError)
    → get_episode o.episode_id s ≡ err e
    → submit o now s ≡ (err e, s)
unfolding submit
submit_unknown s o now e h = rw (h, submit)
