-- ===== src/Planner/Eligible.antt =====
-- What an eligible template is assured of (`_eligibility` of src/ephi/application/planner.py).
use mathlib.Core.Path.{subst}
use ephi.Base.{
  ℕ, ◌+◌, ◌*◌, ◌≤◌, ◌≡◌, refl, sym, ap, list_eq_iff, Bool, true, false, ◌&&◌, ◌||◌, not, Option,
  none, some, ◌++◌, arith, ltb, ok, ◌>>◌, Result, ok_inj, >>=-returns, raise_if, or_raise,
  option_eq_iff, some_inj, ◌==◌, list_Eq, option_Eq, ℕ_eq, is_some,
}
use ephi.Base.Text.{Text, codes}
use ephi.Base.Dict.{lookup}
use ephi.Planner.Facts.{
  ExclusionReason, CapabilityRole, CapabilityState, QualificationState, PrerequisiteState,
  CapabilityFact, QualificationFact, PrerequisiteFact, PlannerReadFacts,
}
use ephi.Planner.Templates.{CapabilityRequirement, PrerequisiteRequirement}
use ephi.Planner.Eligibility.Requirements.{
  Note, capabilities, qualifications, prereqs, has_ended, is_older_than, is_qualified,
  is_unavailable, is_unqualified, is_stale, role_is_peer, unqualified_reason, stale_reason,
  capability_value, check_held, check_age, check_fact, check_capability, check_qualification,
  check_prerequisite, check_state, is_from_future, exceeds_age,
}

-- A chain that returns passed its first test, or found its first value.
passes :
    {E A : Type 0} (b : Bool) (e : E) (rest : Result E A) {a : A}
    → (raise_if b e >> rest) ≡ ok a
    → (b ≡ false) × (rest ≡ ok a)
passes true e rest h = cc
passes false e rest h = (refl, h)

ends : {E : Type 0} (b : Bool) (e : E) → raise_if b e ≡ ok tt → b ≡ false
ends true e h = cc
ends false e h = refl

found : {E A : Type 0} (o : Option A) (e : E) {a : A} → or_raise o e ≡ ok a → o ≡ some a
found none e h = cc
found (some a) e h = ap some (ok_inj h)

-- A qualification that is on file, valid, and not yet past its end.
pub record IsQualified (facts : PlannerReadFacts) (identity : Text) : Type 0 where
  pub fact : QualificationFact
  pub on_file : lookup identity (qualifications facts) ≡ some fact
  pub qualified : fact.state ≡ QualificationState.qualified
  pub in_force : has_ended facts.as_of fact.valid_until ≡ false

-- A capability that is on file and available, observed no later than now and not too long ago, not yet
-- past its end, under a valid qualification, and bound to no other context; a peer or a reference is
-- bound to the current one.
pub record IsReady (facts : PlannerReadFacts) (requirement : CapabilityRequirement) : Type 0 where
  pub fact : CapabilityFact
  pub observed_at : ℕ
  pub identity : Text
  pub on_file : lookup requirement.capability_id (capabilities facts) ≡ some fact
  pub available : fact.state ≡ CapabilityState.available
  pub observed : fact.observed_at ≡ some observed_at
  pub past : observed_at ≤ facts.as_of
  pub recent : facts.as_of ≤ observed_at + requirement.max_age_seconds * 1000000
  pub in_force : has_ended facts.as_of fact.valid_until ≡ false
  pub named : fact.qualification_identity ≡ some identity
  pub qualified : IsQualified facts identity
  pub bound :
      role_is_peer requirement.role ≡ true
      → (context : Text) × (fact.context_identity ≡ some context)
        × (facts.target_context.context_identity ≡ some context)
  pub elsewhere :
      (is_some fact.context_identity
        && not (facts.target_context.context_identity == fact.context_identity))
      ≡ false

peer_context :
    (peer : Bool) (context here : Option Text)
    → (peer && (not (is_some context) || not (is_some here) || not (context == here))) ≡ false
    → peer ≡ true
    → (c : Text) × (context ≡ some c) × (here ≡ some c)
peer_context peer none here h k = cc (rw k at h)
peer_context peer (some c) none h k = cc (rw k at h)
peer_context peer (some c) (some d) h k =
    let same : c ≡ d = ground (arith, option_eq_iff (some c) (some d), list_eq_iff c d) in
    (c, refl, ap some (sym same))

available_state :
    (s : CapabilityState)
    → is_unavailable s ≡ false
    → is_unqualified s ≡ false
    → is_stale s ≡ false
    → s ≡ CapabilityState.available
unfolding is_unavailable is_unqualified is_stale
available_state CapabilityState.available h k l = refl
available_state CapabilityState.unavailable h k l = cc
available_state CapabilityState.stale h k l = cc
available_state CapabilityState.unqualified h k l = cc
available_state CapabilityState.unknown h k l = cc

qualified_state :
    (s : QualificationState) → not (is_qualified s) ≡ false → s ≡ QualificationState.qualified
unfolding is_qualified
qualified_state QualificationState.qualified h = refl
qualified_state QualificationState.unqualified h = cc
qualified_state QualificationState.unknown h = cc

past_at : (as_of observed_at : ℕ) → ltb as_of observed_at ≡ false → observed_at ≤ as_of
past_at as_of observed_at h = ground arith

recent_at :
    (age as_of observed_at : ℕ)
    → is_older_than age as_of observed_at ≡ false
    → as_of ≤ observed_at + age * 1000000
unfolding is_older_than
recent_at age as_of observed_at h = ground arith

check_held-IsQualified :
    (facts : PlannerReadFacts) (role : CapabilityRole) (identity : Text)
    → check_held facts role identity ≡ ok tt
    → IsQualified facts identity
unfolding check_held
check_held-IsQualified facts role identity q0 =
    let (qualification, held, q1) =
      >>=-returns
        (or_raise (lookup identity (qualifications facts))
          (ExclusionReason.missing_qualification, codes "missing_qualification:" ++ identity))
        _ q0 in
    let invalid : Note = (unqualified_reason role, codes "qualification_not_valid:" ++ identity) in
    let expired : Note = (stale_reason role, codes "qualification_expired:" ++ identity) in
    let (valid, q2) =
      passes (not (is_qualified qualification.state)) invalid
        (raise_if (has_ended facts.as_of qualification.valid_until) expired) q1 in
    record {
      fact = qualification;
      on_file = found (lookup identity (qualifications facts)) _ held;
      qualified = qualified_state qualification.state valid;
      in_force = ends (has_ended facts.as_of qualification.valid_until) expired q2;
    }

-- The observation is of the past and recent, its end is not reached, and it stands under a qualification.
check_age-Assures :
    (facts : PlannerReadFacts) (requirement : CapabilityRequirement) (fact : CapabilityFact)
    (observed_at : ℕ)
    → check_age facts requirement fact observed_at ≡ ok tt
    → (observed_at ≤ facts.as_of)
      × (facts.as_of ≤ observed_at + requirement.max_age_seconds * 1000000)
      × (has_ended facts.as_of fact.valid_until ≡ false)
      × ((identity : Text) × (fact.qualification_identity ≡ some identity)
          × IsQualified facts identity)
unfolding check_age
check_age-Assures facts requirement fact observed_at q0 =
    let id = requirement.capability_id in
    let role = requirement.role in
    let stale : Note = (stale_reason role, codes "capability_stale:" ++ id) in
    let expired : Note = (stale_reason role, codes "capability_expired:" ++ id) in
    let exceeded : Note = (stale_reason role, codes "capability_age_exceeded:" ++ id) in
    let missing : Note =
      (unqualified_reason role, codes "capability_missing_qualification:" ++ id) in
    let (past, q1) = passes (ltb facts.as_of observed_at) stale _ q0 in
    let (in_force, q2) = passes (has_ended facts.as_of fact.valid_until) expired _ q1 in
    let (young, q3) =
      passes (is_older_than requirement.max_age_seconds facts.as_of observed_at) exceeded _ q2 in
    let (identity, named, q4) =
      >>=-returns (or_raise fact.qualification_identity missing) (check_held facts role) q3 in
    (
      past_at facts.as_of observed_at past,
      recent_at requirement.max_age_seconds facts.as_of observed_at young,
      in_force,
      (
        identity,
        found fact.qualification_identity missing named,
        check_held-IsQualified facts role identity q4,
      ),
    )

pub check_capability-IsReady :
    (facts : PlannerReadFacts) (requirement : CapabilityRequirement)
    → check_capability facts requirement ≡ ok tt
    → IsReady facts requirement
unfolding check_capability check_fact
check_capability-IsReady facts requirement q0 =
    let id = requirement.capability_id in
    let role = requirement.role in
    let here = facts.target_context.context_identity in
    let missing : Note = (ExclusionReason.missing_capability, codes "missing_capability:" ++ id) in
    let unbound : Note = (
      ExclusionReason.missing_capability,
      codes "peer_reference_not_bound_to_current_context:" ++ id,
    ) in
    let mismatch : Note =
      (ExclusionReason.missing_capability, codes "capability_context_mismatch:" ++ id) in
    let untrusted : Note = (unqualified_reason role, codes "capability_unqualified:" ++ id) in
    let stale : Note = (stale_reason role, codes "capability_stale:" ++ id) in
    let (fact, on_file, q1) =
      >>=-returns (or_raise (lookup id (capabilities facts)) missing) (check_fact facts requirement)
        q0 in
    let gone : Note = (
      ExclusionReason.capability_unavailable,
      codes "capability_unavailable:" ++ (id ++ (codes ":" ++ capability_value fact.state)),
    ) in
    let (bound, q2) =
      passes
        (role_is_peer role
          && (not (is_some fact.context_identity)
              || not (is_some here)
              || not (fact.context_identity == here)))
        unbound _ q1 in
    let (elsewhere, q3) =
      passes (is_some fact.context_identity && not (here == fact.context_identity)) mismatch _ q2 in
    let (present, q4) = passes (is_unavailable fact.state) gone _ q3 in
    let (trusted, q5) = passes (is_unqualified fact.state) untrusted _ q4 in
    let (fresh, q6) = passes (is_stale fact.state) stale _ q5 in
    let (observed_at, observed, q7) =
      >>=-returns (or_raise fact.observed_at stale) (check_age facts requirement fact) q6 in
    let (past, recent, in_force, held) = check_age-Assures facts requirement fact observed_at q7 in
    record {
      fact = fact;
      observed_at = observed_at;
      identity = held.0;
      on_file = found (lookup id (capabilities facts)) missing on_file;
      available = available_state fact.state present trusted fresh;
      observed = found fact.observed_at stale observed;
      past = past;
      recent = recent;
      in_force = in_force;
      named = held.1;
      qualified = held.2;
      bound = peer_context (role_is_peer role) fact.context_identity here bound;
      elsewhere = elsewhere;
    }

pub check_qualification-IsQualified :
    (facts : PlannerReadFacts) (identity : Text)
    → check_qualification facts identity ≡ ok tt
    → IsQualified facts identity
unfolding check_qualification
check_qualification-IsQualified facts identity q0 =
    let missing : Note = (
      ExclusionReason.missing_qualification,
      codes "missing_template_qualification:" ++ identity,
    ) in
    let invalid : Note = (
      ExclusionReason.unqualified_capability,
      codes "template_qualification_not_valid:" ++ identity,
    ) in
    let expired : Note =
      (ExclusionReason.stale_evidence, codes "template_qualification_expired:" ++ identity) in
    let (qualification, held, q1) =
      >>=-returns (or_raise (lookup identity (qualifications facts)) missing) _ q0 in
    let (valid, q2) =
      passes (not (is_qualified qualification.state)) invalid
        (raise_if (has_ended facts.as_of qualification.valid_until) expired) q1 in
    record {
      fact = qualification;
      on_file = found (lookup identity (qualifications facts)) missing held;
      qualified = qualified_state qualification.state valid;
      in_force = ends (has_ended facts.as_of qualification.valid_until) expired q2;
    }

-- A prerequisite that is on file and satisfied, observed no later than now, not too old for its bound,
-- and not yet past its end; one that is bound to the context is bound to the current target and context.
pub record IsSatisfied (facts : PlannerReadFacts) (requirement : PrerequisiteRequirement)
    : Type 0 where
  pub fact : PrerequisiteFact
  pub on_file : lookup requirement.prerequisite_id (prereqs facts) ≡ some fact
  pub satisfied : fact.state ≡ PrerequisiteState.satisfied
  pub bound :
      requirement.context_bound ≡ true
      → (fact.target_identity ≡ some facts.target_context.target_identity)
        × (fact.context_identity ≡ facts.target_context.context_identity)
  pub past : (observed_at : ℕ) → fact.observed_at ≡ some observed_at → observed_at ≤ facts.as_of
  pub recent :
      (age observed_at : ℕ)
      → requirement.max_age_seconds ≡ some age
      → fact.observed_at ≡ some observed_at
      → (observed_at ≤ facts.as_of) × (facts.as_of ≤ observed_at + age * 1000000)
  pub in_force : has_ended facts.as_of fact.valid_until ≡ false

satisfied_state :
    (id : Text) (s : PrerequisiteState) → check_state id s ≡ ok tt → s ≡ PrerequisiteState.satisfied
unfolding check_state
satisfied_state id PrerequisiteState.satisfied h = refl
satisfied_state id PrerequisiteState.missing h = cc
satisfied_state id PrerequisiteState.stale h = cc
satisfied_state id PrerequisiteState.unknown h = cc

bound_fields :
    (facts : PlannerReadFacts) (fact : PrerequisiteFact) (needed : Bool)
    → (needed
        && (not (fact.target_identity == some facts.target_context.target_identity)
            || not (fact.context_identity == facts.target_context.context_identity)))
      ≡ false
    → needed ≡ true
    → (fact.target_identity ≡ some facts.target_context.target_identity)
      × (fact.context_identity ≡ facts.target_context.context_identity)
bound_fields facts fact needed h needs = ground (
  arith,
  option_eq_iff fact.target_identity (some facts.target_context.target_identity),
  option_eq_iff fact.context_identity facts.target_context.context_identity,
)

past_observation :
    (as_of : ℕ) (observed : Option ℕ)
    → is_from_future as_of observed ≡ false
    → (observed_at : ℕ) → observed ≡ some observed_at
    → observed_at ≤ as_of
unfolding is_from_future
past_observation as_of none h observed_at f = cc
past_observation as_of (some o) h observed_at f =
    subst (λ z. z ≤ as_of) (some_inj f) (past_at as_of o h)

within_age :
    (as_of : ℕ) (bound observed : Option ℕ)
    → is_from_future as_of observed ≡ false
    → exceeds_age bound as_of observed ≡ false
    → (age observed_at : ℕ) → bound ≡ some age
    → observed ≡ some observed_at
    → (observed_at ≤ as_of) × (as_of ≤ observed_at + age * 1000000)
unfolding is_from_future exceeds_age
within_age as_of none observed h k age observed_at e f = cc
within_age as_of (some b) none h k age observed_at e f = cc
within_age as_of (some b) (some o) h k age observed_at e f =
    subst (λ z. (z ≤ as_of) × (as_of ≤ z + age * 1000000)) (some_inj f)
      (subst (λ z. (o ≤ as_of) × (as_of ≤ o + z * 1000000)) (some_inj e)
        (past_at as_of o h, recent_at b as_of o k))

pub check_prerequisite-IsSatisfied :
    (facts : PlannerReadFacts) (requirement : PrerequisiteRequirement)
    → check_prerequisite facts requirement ≡ ok tt
    → IsSatisfied facts requirement
unfolding check_prerequisite
check_prerequisite-IsSatisfied facts requirement q0 =
    let id = requirement.prerequisite_id in
    let missing : Note =
      (ExclusionReason.missing_prerequisite, codes "missing_prerequisite:" ++ id) in
    let mismatch : Note =
      (ExclusionReason.missing_prerequisite, codes "prerequisite_context_mismatch:" ++ id) in
    let future : Note =
      (ExclusionReason.stale_prerequisite, codes "prerequisite_from_future:" ++ id) in
    let exceeded : Note =
      (ExclusionReason.stale_prerequisite, codes "prerequisite_age_exceeded:" ++ id) in
    let expired : Note =
      (ExclusionReason.stale_prerequisite, codes "prerequisite_expired:" ++ id) in
    let (fact, on_file, q1) = >>=-returns (or_raise (lookup id (prereqs facts)) missing) _ q0 in
    let (_, state, q2) = >>=-returns (check_state id fact.state) _ q1 in
    let (bound, q3) =
      passes
        (requirement.context_bound
          && (not (fact.target_identity == some facts.target_context.target_identity)
              || not (fact.context_identity == facts.target_context.context_identity)))
        mismatch _ q2 in
    let (past, q4) = passes (is_from_future facts.as_of fact.observed_at) future _ q3 in
    let (young, q5) =
      passes (exceeds_age requirement.max_age_seconds facts.as_of fact.observed_at) exceeded
        (raise_if (has_ended facts.as_of fact.valid_until) expired) q4 in
    record {
      fact = fact;
      on_file = found (lookup id (prereqs facts)) missing on_file;
      satisfied = satisfied_state id fact.state state;
      bound = bound_fields facts fact requirement.context_bound bound;
      past = past_observation facts.as_of fact.observed_at past;
      recent = within_age facts.as_of requirement.max_age_seconds fact.observed_at past young;
      in_force = ends (has_ended facts.as_of fact.valid_until) expired q5;
    }
