-- ===== src/Recovery/Service/Progress.antt =====
-- What one submission does: the counts, the state, the other episodes, and the invariant.
use mathlib.Core.Path.{subst}
use ephi.Base.{
  ℕ, ◌+◌, true, false, some, List, [], ◌∷◌, ◌++◌, length, ◌≡◌, refl, sym, ap, arith, ℕ_eq, list_Eq,
  ok, Result, ◌==◌, if◌then◌else◌, ◌∙◌, contains,
}
use ephi.Base.Text.{Text}
use ephi.Base.Dict.{lookup, lookup-insert_self, lookup-insert_ne}
use ephi.Recovery.Model.{RecoveryError, RecoveryObservation, RecoveryEpisode, Time}
use ephi.Recovery.Evaluator.{RecoveryEligibility}
use ephi.Recovery.Service.{RecoveryService, RecoveryAssessment, next_eligible, get_episode, submit}
use ephi.Recovery.Service.Sets.{length-snoc, set_add_new}
use ephi.Recovery.Service.Invariant.{state_of, evaluation, fresh_sample}
use ephi.Recovery.Service.Submit.{
  Held, IsValid, submit_held, store-IsValid, get_episode_key, sound', eligibility, episode',
}

-- The number of eligible samples after a submission.
abbrev pub next_count : RecoveryEligibility → ℕ → ℕ
next_count e n = if e.contradictory then 0 else if e.eligible then n + 1 else n

length-next_eligible :
    (e : RecoveryEligibility) (o : RecoveryObservation) (ids : List Text)
    → (e.eligible ≡ true → contains o.sampling_identity ids ≡ false)
    → length (next_eligible e o ids) ≡ next_count e (length ids)
unfolding next_eligible
length-next_eligible e o ids fresh =
    ground (arith, set_add_new o.sampling_identity ids, length-snoc ids o.sampling_identity)

-- The outcome of a submission to the known episode `ep`, with the observations `os` so far.
pub record IsProgress (s : RecoveryService) (o : RecoveryObservation) (now : Time)
    (ep : RecoveryEpisode) (os : List RecoveryObservation)
    (r : Result RecoveryError RecoveryAssessment × RecoveryService) : Type 0 where
  pub assessment : RecoveryAssessment
  pub returned : r.0 ≡ ok assessment
  pub evaluated : assessment.eligibility ≡ evaluation s.policy o now os
  pub stored : lookup ep.episode_id r.1.episodes ≡ some assessment.episode
  pub recorded : lookup ep.episode_id r.1.observations ≡ some (os ++ (o ∷ []))
  pub assessed : assessment.episode.assessment_count ≡ ep.assessment_count + 1
  pub counted :
      assessment.episode.eligible_independent_count
      ≡ next_count assessment.eligibility ep.eligible_independent_count
  pub state :
      assessment.episode.state ≡ state_of s.policy assessment.episode.eligible_independent_count
  pub others :
      (k : Text) → (ep.episode_id == k) ≡ false → lookup k r.1.episodes ≡ lookup k s.episodes
  pub same_policy : r.1.policy ≡ s.policy
  pub valid : IsValid r.1

module _ (s : RecoveryService) (v : IsValid s) (o : RecoveryObservation) (now : Time) where
  pub held_of :
      (ep : RecoveryEpisode) → get_episode o.episode_id s ≡ ok ep → Held s ep.episode_id ep
  held_of ep g =
      let (k, _, found) = get_episode_key o.episode_id s ep g in
      let held = v.held k ep found in subst (λ j. Held s j ep) (sym held.key) held

  -- In a valid service, a submission for a known episode is never refused: it appends the
  -- observation, counts one more assessment, sets the eligible count to 0 if the evaluation is
  -- contradictory, raises it by one if it is eligible, and leaves it otherwise; the state is the
  -- one that the count stands for, the other episodes are untouched, and the service stays valid.
  pub submit-IsProgress :
      (ep : RecoveryEpisode) (g : get_episode o.episode_id s ≡ ok ep)
      → IsProgress s o now ep (held_of ep g).observations (submit o now s)
  submit-IsProgress ep g =
      let h = held_of ep g in
      let after = sound' s v o now ep.episode_id ep h in
      rw (submit_held s v o now ep.episode_id ep h g) (record {
        assessment = record {
          observation = o;
          eligibility = eligibility s v o now ep.episode_id ep h;
          episode = episode' s v o now ep.episode_id ep h;
        };
        returned = refl;
        evaluated = refl;
        stored = lookup-insert_self _ _ _;
        recorded = lookup-insert_self _ _ _;
        assessed = omega (arith, length-snoc h.observations o, h.sound.assessed);
        counted =
            length-next_eligible (eligibility s v o now ep.episode_id ep h) o h.ids
              (fresh_sample s.policy o now ep h.observations h.ids v.positive h.sound)
            ∙ ap (next_count (eligibility s v o now ep.episode_id ep h)) (sym h.sound.counted);
        state = after.state;
        others = λ k other. lookup-insert_ne _ _ _ _ other;
        same_policy = refl;
        valid = store-IsValid s v o now ep.episode_id ep h;
      })
