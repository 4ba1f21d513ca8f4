-- ===== src/Recovery/Service/Invariant.antt =====
-- The invariant of the recovery service, and the episode of one submission.
use ephi.Base.{
  ℕ, ◌≤◌, ◌<◌, ◌⊎◌, true, false, some, List, [], ◌∷◌, ◌++◌, map, length, ◌≡◌, refl, contains,
  IsDistinct, All, All-append, if◌then◌else◌, arith, ℕ_eq, list_Eq, leb, nat_eq, ok, inl, inr,
}
use ephi.Base.Text.{Text}
use ephi.Recovery.Model.{
  RecoveryState, RecoveryPolicy, RecoveryObservation, RecoveryEpisode, Time, identity,
}
use ephi.Recovery.Evaluator.{RecoveryEligibility, evaluate}
use ephi.Recovery.Evaluator.Criteria.{evaluate_iff}
use ephi.Recovery.Service.{next_eligible, next_state}
use ephi.Recovery.Service.Sets.{
  set_add_new, length-snoc, map-snoc, not_contains_of_All, IsDistinct-snoc, known_append,
  contains_snoc,
}

abbrev pub observation_ids : List RecoveryObservation → List Text
observation_ids = map (λ o. o.observation_id)

abbrev pub samples : List RecoveryObservation → List Text
samples = map (λ o. o.sampling_identity)

-- The state that a number of independent eligible samples stands for.
abbrev pub state_of : RecoveryPolicy → ℕ → RecoveryState
state_of p n =
    if nat_eq n 0
    then RecoveryState.active
    else if leb p.minimum_eligible_independent_samples n
    then RecoveryState.resolved
    else RecoveryState.recovering

-- An identity that the source's `_identity` leaves as it is.
abbrev pub IsKept : Text → Type 0
IsKept t = (field : Text) → identity field t ≡ ok t

-- An episode against its observations and its set of eligible sampling identities.
pub record IsSound (p : RecoveryPolicy) (ep : RecoveryEpisode) (os : List RecoveryObservation)
    (ids : List Text) : Type 0 where
  pub assessed : ep.assessment_count ≡ length os
  pub counted : ep.eligible_independent_count ≡ length ids
  pub bounded : length ids ≤ length os
  pub distinct : IsDistinct ids
  pub known : All (λ i. contains i (samples os) ≡ true) ids
  pub state : ep.state ≡ state_of p (length ids)

abbrev pub evaluation :
    RecoveryPolicy → RecoveryObservation → Time → List RecoveryObservation → RecoveryEligibility
evaluation p o now os = evaluate p (some o) now (observation_ids os) (samples os)

-- The episode that `submit` builds.
abbrev pub next_episode :
    RecoveryPolicy
    → RecoveryEligibility
    → RecoveryEpisode
    → List RecoveryObservation
    → List Text
    → RecoveryEpisode
next_episode p e ep os ids = record {
  episode_id = ep.episode_id;
  state = next_state p e (length ids) ep.state;
  assessment_count = length os;
  eligible_independent_count = length ids;
  policy_id = ep.policy_id;
}

module _ (p : RecoveryPolicy) (o : RecoveryObservation) (now : Time) (ep : RecoveryEpisode)
    (os : List RecoveryObservation) (ids : List Text)
    (positive : 1 ≤ p.minimum_eligible_independent_samples) (s : IsSound p ep os ids) where
  pub fresh_sample :
      (evaluation p o now os).eligible ≡ true → contains o.sampling_identity ids ≡ false
  fresh_sample h =
      let trusted = ((evaluate_iff p o now (observation_ids os) (samples os)).1.0 h).0 in
      not_contains_of_All o.sampling_identity (samples os) ids s.known trusted.new_sample

  -- What a submission does to the set: it clears it, adds a new element, or leaves it.
  next_eligible_cases :
      (e : RecoveryEligibility)
      → (e.eligible ≡ true → contains o.sampling_identity ids ≡ false)
      → ((e.contradictory ≡ true) × (next_eligible e o ids ≡ []))
        ⊎ ((e.contradictory ≡ false)
            × (contains o.sampling_identity ids ≡ false)
            × (next_eligible e o ids ≡ ids ++ (o.sampling_identity ∷ [])))
        ⊎ ((e.contradictory ≡ false) × (next_eligible e o ids ≡ ids))
  unfolding next_eligible
  next_eligible_cases e fresh = ground (arith, set_add_new o.sampling_identity ids)

  known_snoc : All (λ i. contains i (samples (os ++ (o ∷ []))) ≡ true) ids
  known_snoc =
      rw (map-snoc (λ (x : RecoveryObservation). x.sampling_identity) os o)
        (known_append (samples os) (o.sampling_identity ∷ []) ids s.known)

  known_new : contains o.sampling_identity (samples (os ++ (o ∷ []))) ≡ true
  known_new =
      rw (map-snoc (λ (x : RecoveryObservation). x.sampling_identity) os o)
        (contains_snoc o.sampling_identity (samples os))

  state-next :
      (e : RecoveryEligibility) (n : ℕ)
      → (n ≡ length ids) ⊎ (0 < n)
      → e.contradictory ≡ false
      → next_state p e n ep.state ≡ state_of p n
  unfolding next_state
  state-next e n h c = ground (arith, s.state)

  pub next-IsSound :
      (e : RecoveryEligibility)
      → (e.eligible ≡ true → contains o.sampling_identity ids ≡ false)
      → let os' = os ++ (o ∷ []) in
        let ids' = next_eligible e o ids in IsSound p (next_episode p e ep os' ids') os' ids'
  next-IsSound e fresh = elim (next_eligible_cases e fresh) [
    | inl (c, r) ↦ rw r (record {
      assessed = refl;
      counted = refl;
      bounded = omega arith;
      distinct = tt;
      known = tt;
      state = unfold next_state in rw c;
    })
    | inr (inl (c, new, r)) ↦ rw r (record {
      assessed = refl;
      counted = refl;
      bounded = omega (arith, s.bounded, length-snoc ids o.sampling_identity, length-snoc os o);
      distinct = IsDistinct-snoc o.sampling_identity ids s.distinct new;
      known = All-append _ ids _ known_snoc (known_new, tt);
      state = state-next e _ (inr (omega (arith, length-snoc ids o.sampling_identity))) c;
    })
    | inr (inr (c, r)) ↦ rw r (record {
      assessed = refl;
      counted = refl;
      bounded = omega (arith, s.bounded, length-snoc os o);
      distinct = s.distinct;
      known = known_snoc;
      state = state-next e _ (inl refl) c;
    })
  ]
