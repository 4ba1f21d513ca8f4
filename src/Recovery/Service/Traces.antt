-- ===== src/Recovery/Service/Traces.antt =====
-- The recovery service over any sequence of calls, from its construction on.
use mathlib.Core.Path.{subst₂}
use ephi.Base.{
  ◌≤◌, false, Option, none, some, List, [], ◌∷◌, ◌≡◌, ◌≢◌, refl, sym, arith, ℕ_eq, list_Eq,
  list_eq_iff, ok, Result-cases, Bool-cases, inl, inr, ◌==◌, ◌∙◌, ◌⊎◌, Option-cases,
}
use ephi.Base.Text.{Text, codes}
use ephi.Base.Dict.{lookup, insert, lookup-insert, lookup-insert_self, lookup-insert_ne}
use ephi.Recovery.Model.{
  RecoveryState, RecoveryPolicy, RecoveryObservation, RecoveryEpisode, Time, make_policy, identity,
}
use ephi.Recovery.Service.{
  RecoveryService, get_episode, submit, create_episode, register_episode, new_service,
}
use ephi.Recovery.Service.Invariant.{IsKept}
use ephi.Recovery.Service.Submit.{Held, IsValid, submit_unknown, identity-IsKept, make_episode_kept}
use ephi.Recovery.Service.Progress.{submit-IsProgress}

-- The calls that change the service.
pub data Call : Type 0 where
  create : Text → Call
  submit_observation : RecoveryObservation → Time → Call

-- The service after a call, whether it returned or raised.
unfoldable pub apply : Call → RecoveryService → RecoveryService
apply (create id) s = (create_episode id s).1
apply (submit_observation o now) s = (submit o now s).1

unfoldable pub run : List Call → RecoveryService → RecoveryService
unfolding apply
run [] s = s
run (c ∷ cs) s = run cs (apply c s)

none≢some : {ep : RecoveryEpisode} → ◌≢◌ {A = Option RecoveryEpisode} none (some ep)
none≢some h = cc

pub submit-IsValid :
    (o : RecoveryObservation) (now : Time) (s : RecoveryService)
    → IsValid s
    → IsValid (submit o now s).1
submit-IsValid o now s v = elim (Result-cases (get_episode o.episode_id s)) [
  | inl (ep, g) ↦ (submit-IsProgress s v o now ep g).valid
  | inr (e, g) ↦ rw (submit_unknown s o now e g) v
]

module _ (k : Text) (s : RecoveryService) (v : IsValid s) (kept : IsKept k)
    (new : lookup k s.episodes ≡ none) where
  abbrev first_episode : RecoveryEpisode
  first_episode = record {
    episode_id = k;
    state = RecoveryState.active;
    assessment_count = 0;
    eligible_independent_count = 0;
    policy_id = s.policy.policy_id;
  }

  abbrev registered : RecoveryService
  registered = record s {
    episodes = insert k first_episode s.episodes;
    observations = insert k [] s.observations;
    eligible_sampling_identities = insert k [] s.eligible_sampling_identities;
  }

  register_episode_lem : register_episode k s ≡ (ok first_episode, registered)
  unfolding register_episode
  register_episode_lem =
      rw (make_episode_kept first_episode kept v.kept_policy (omega arith), register_episode)

  Held_first : Held registered k first_episode
  Held_first = record {
    key = refl;
    kept_id = kept;
    kept_policy = v.kept_policy;
    observations = [];
    found_observations = lookup-insert_self _ _ _;
    ids = [];
    found_ids = lookup-insert_self _ _ _;
    sound = record {
      assessed = refl;
      counted = refl;
      bounded = omega arith;
      distinct = tt;
      known = tt;
      state = refl;
    };
  }

  Held-registered :
      (j : Text) (e : RecoveryEpisode) → lookup j registered.episodes ≡ some e → Held registered j e
  Held-registered j e q = elim (Bool-cases (k == j)) [
    | inl same ↦
        let there = lookup-insert k j first_episode s.episodes in
        let at : first_episode ≡ e = ground arith in
        subst₂ (λ i x. Held registered i x) ((list_eq_iff _ _).0 same) at Held_first
    | inr other ↦
        let held = v.held j e (sym (lookup-insert_ne _ _ _ _ other) ∙ q) in
        let apart : (k == e.episode_id) ≡ false = rw held.key other in
        record {
          key = held.key;
          kept_id = held.kept_id;
          kept_policy = held.kept_policy;
          observations = held.observations;
          found_observations = lookup-insert_ne _ _ _ _ apart ∙ held.found_observations;
          ids = held.ids;
          found_ids = lookup-insert_ne _ _ _ _ apart ∙ held.found_ids;
          sound = held.sound;
        }
  ]

  register-IsValid : IsValid (register_episode k s).1
  register-IsValid =
      rw register_episode_lem
        (record { positive = v.positive; kept_policy = v.kept_policy; held = Held-registered })

  -- An episode after the registration was there before, or is a first one.
  register_episode_origin :
      (j : Text) (e : RecoveryEpisode)
      → lookup j (register_episode k s).1.episodes ≡ some e
      → (lookup j s.episodes ≡ some e) ⊎ (e.eligible_independent_count ≡ 0)
  register_episode_origin j e q =
      let there = lookup-insert k j first_episode s.episodes in
      let found : lookup j registered.episodes ≡ some e = rw register_episode_lem at q in
      elim (Bool-cases (k == j)) [ inl same ↦ ground arith | inr other ↦ ground arith ]

  register_episode_policy : (register_episode k s).1.policy ≡ s.policy
  register_episode_policy = rw register_episode_lem

pub create_episode_origin :
    (raw : Text) (s : RecoveryService)
    → IsValid s
    → (j : Text) (e : RecoveryEpisode) → lookup j (create_episode raw s).1.episodes ≡ some e
    → (lookup j s.episodes ≡ some e) ⊎ (e.eligible_independent_count ≡ 0)
unfolding create_episode
create_episode_origin raw s v j e q = elim (Result-cases (identity (codes "episode_id") raw)) [
  | inl (k, g) ↦ elim (Option-cases (lookup k s.episodes)) [
    | inl new ↦
        register_episode_origin k s v (identity-IsKept _ _ _ g) new j e
          (rw (g, create_episode, new) at q)
    | inr (ep, old) ↦ inl (rw (g, create_episode, old) at q)
  ]
  | inr (x, g) ↦ inl (rw (g, create_episode) at q)
]

pub create_episode_policy :
    (raw : Text) (s : RecoveryService) → IsValid s → (create_episode raw s).1.policy ≡ s.policy
unfolding create_episode
create_episode_policy raw s v = elim (Result-cases (identity (codes "episode_id") raw)) [
  | inl (k, g) ↦ elim (Option-cases (lookup k s.episodes)) [
    | inl new ↦
        rw (g, create_episode, new) (register_episode_policy k s v (identity-IsKept _ _ _ g) new)
    | inr (ep, old) ↦ rw (g, create_episode, old)
  ]
  | inr (x, g) ↦ rw (g, create_episode)
]

pub create_episode-IsValid :
    (raw : Text) (s : RecoveryService) → IsValid s → IsValid (create_episode raw s).1
unfolding create_episode
create_episode-IsValid raw s v = elim (Result-cases (identity (codes "episode_id") raw)) [
  | inl (k, g) ↦ elim (Option-cases (lookup k s.episodes)) [
    | inl new ↦ rw (g, create_episode, new) (register-IsValid k s v (identity-IsKept _ _ _ g) new)
    | inr (ep, old) ↦ rw (g, create_episode, old) v
  ]
  | inr (e, g) ↦ rw (g, create_episode) v
]

pub apply-IsValid : (c : Call) (s : RecoveryService) → IsValid s → IsValid (apply c s)
unfolding apply
apply-IsValid (create id) s v = create_episode-IsValid id s v
apply-IsValid (submit_observation o now) s v = submit-IsValid o now s v

pub run-IsValid : (cs : List Call) (s : RecoveryService) → IsValid s → IsValid (run cs s)
unfolding run
run-IsValid [] s v = v
run-IsValid (c ∷ cs) s v = run-IsValid cs (apply c s) (apply-IsValid c s v)

positive_of :
    (raw p : RecoveryPolicy) → make_policy raw ≡ ok p → 1 ≤ p.minimum_eligible_independent_samples
unfolding make_policy
positive_of raw p h = ground arith

named_of :
    (raw p : RecoveryPolicy)
    → make_policy raw ≡ ok p
    → identity (codes "policy_id") raw.policy_id ≡ ok p.policy_id
unfolding make_policy
named_of raw p h = ground arith

-- A new service over a policy that its constructor accepted is valid.
pub new_service-IsValid :
    (raw p : RecoveryPolicy) → make_policy raw ≡ ok p → IsValid (new_service p)
unfolding new_service lookup
new_service-IsValid raw p h = record {
  positive = positive_of raw p h;
  kept_policy = identity-IsKept _ _ _ (named_of raw p h);
  held = λ k ep q. absurd (none≢some q);
}
