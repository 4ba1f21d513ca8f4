-- ===== src/Planner/Eligibility/Requirements.antt =====
-- The required capabilities, the qualification and the prerequisites of a template: the first half of
-- `_eligibility` in src/ephi/application/planner.py. Each `continue` is a raise of its note.
use ephi.Base.{
  ℕ, ◌-◌, ◌*◌, Bool, true, false, ◌&&◌, ◌||◌, not, Option, none, some, List, [], ◌∷◌, ◌++◌, ltb,
  leb, ◌==◌, list_Eq, option_Eq, ℕ_eq, Result, ok, err, ◌>>=◌, ◌>>◌, raise_if, or_raise, is_some,
  if◌then◌else◌,
}
use ephi.Base.Text.{Text, codes}
use ephi.Base.Dict.{Dict, lookup, index_onto}
use ephi.Planner.Facts.{
  CapabilityState, CapabilityRole, QualificationState, PrerequisiteState, ExclusionReason,
  CapabilityFact, QualificationFact, PrerequisiteFact, PlannerReadFacts,
}
use ephi.Planner.Templates.{CapabilityRequirement, PrerequisiteRequirement}

-- One `reasons.add` with its `trace.append`.
abbrev pub Note : Type 0
Note = ExclusionReason × Text

-- The note that a check raised, if it did.
abbrev pub noted : Result Note (Unit {0}) → List Note
noted (ok _) = []
noted (err n) = n ∷ []

-- `[note] if c else []`
abbrev pub note_if : Bool → ExclusionReason → Text → List Note
note_if true reason text = (reason, text) ∷ []
note_if false reason text = []

-- An f-string of a value that may be None.
unfoldable pub shown : Option Text → Text
shown none = codes "None"
shown (some s) = s

unfoldable pub role_is_peer : CapabilityRole → Bool
role_is_peer CapabilityRole.general = false
role_is_peer CapabilityRole.peer = true
role_is_peer CapabilityRole.reference = true

-- A state that is UNAVAILABLE or UNKNOWN.
unfoldable pub is_unavailable : CapabilityState → Bool
is_unavailable CapabilityState.unavailable = true
is_unavailable CapabilityState.unknown = true
is_unavailable _ = false

unfoldable pub is_unqualified : CapabilityState → Bool
is_unqualified CapabilityState.unqualified = true
is_unqualified _ = false

unfoldable pub is_stale : CapabilityState → Bool
is_stale CapabilityState.stale = true
is_stale _ = false

unfoldable pub capability_value : CapabilityState → Text
capability_value CapabilityState.available = codes "AVAILABLE"
capability_value CapabilityState.unavailable = codes "UNAVAILABLE"
capability_value CapabilityState.stale = codes "STALE"
capability_value CapabilityState.unqualified = codes "UNQUALIFIED"
capability_value CapabilityState.unknown = codes "UNKNOWN"

unfoldable pub is_qualified : QualificationState → Bool
is_qualified QualificationState.qualified = true
is_qualified _ = false

-- `valid_until is not None and facts.as_of >= valid_until`
unfoldable pub has_ended : ℕ → Option ℕ → Bool
has_ended as_of none = false
has_ended as_of (some valid_until) = leb valid_until as_of

-- `(facts.as_of - observed_at).total_seconds() > max_age_seconds`
unfoldable pub is_older_than : ℕ → ℕ → ℕ → Bool
is_older_than max_age_seconds as_of observed_at =
    ltb (max_age_seconds * 1000000) (as_of - observed_at)

unfoldable pub capabilities : PlannerReadFacts → Dict Text CapabilityFact
unfolding index_onto
capabilities facts = index_onto [] (λ f. f.capability_id) facts.capability_facts

unfoldable pub qualifications : PlannerReadFacts → Dict Text QualificationFact
unfolding index_onto
qualifications facts = index_onto [] (λ f. f.qualification_identity) facts.qualification_facts

unfoldable pub prereqs : PlannerReadFacts → Dict Text PrerequisiteFact
unfolding index_onto
prereqs facts = index_onto [] (λ f. f.prerequisite_id) facts.prerequisite_facts

-- The reasons that depend on whether the capability is a peer or a reference.
abbrev pub unqualified_reason : CapabilityRole → ExclusionReason
unqualified_reason role =
    if role_is_peer role
    then ExclusionReason.unqualified_peer_reference
    else ExclusionReason.unqualified_capability

abbrev pub stale_reason : CapabilityRole → ExclusionReason
stale_reason role =
    if role_is_peer role
    then ExclusionReason.stale_peer_reference
    else ExclusionReason.stale_evidence

-- The qualification that a capability stands under.
unfoldable pub check_held : PlannerReadFacts → CapabilityRole → Text → Result Note (Unit {0})
check_held facts role identity = do
  qualification ←
      or_raise (lookup identity (qualifications facts))
        (ExclusionReason.missing_qualification, codes "missing_qualification:" ++ identity)
  raise_if (not (is_qualified qualification.state))
      (unqualified_reason role, codes "qualification_not_valid:" ++ identity)
  raise_if (has_ended facts.as_of qualification.valid_until)
      (stale_reason role, codes "qualification_expired:" ++ identity)

-- The age of a capability's observation, and then its qualification.
unfoldable pub check_age :
    PlannerReadFacts → CapabilityRequirement → CapabilityFact → ℕ → Result Note (Unit {0})
check_age facts requirement fact observed_at =
    let id = requirement.capability_id in
    do
      raise_if (ltb facts.as_of observed_at)
          (stale_reason requirement.role, codes "capability_stale:" ++ id)
      raise_if (has_ended facts.as_of fact.valid_until)
          (stale_reason requirement.role, codes "capability_expired:" ++ id)
      raise_if (is_older_than requirement.max_age_seconds facts.as_of observed_at)
          (stale_reason requirement.role, codes "capability_age_exceeded:" ++ id)
      identity ←
          or_raise fact.qualification_identity
            (unqualified_reason requirement.role, codes "capability_missing_qualification:" ++ id)
      check_held facts requirement.role identity

-- The context and the state of a capability, and then its age.
unfoldable pub check_fact :
    PlannerReadFacts → CapabilityRequirement → CapabilityFact → Result Note (Unit {0})
check_fact facts requirement fact =
    let id = requirement.capability_id in
    let here = facts.target_context.context_identity in
    do
      raise_if
          (role_is_peer requirement.role
            && (not (is_some fact.context_identity)
                || not (is_some here)
                || not (fact.context_identity == here)))
          (
            ExclusionReason.missing_capability,
            codes "peer_reference_not_bound_to_current_context:" ++ id,
          )
      raise_if (is_some fact.context_identity && not (here == fact.context_identity))
          (ExclusionReason.missing_capability, codes "capability_context_mismatch:" ++ id)
      raise_if (is_unavailable fact.state) (
        ExclusionReason.capability_unavailable,
        codes "capability_unavailable:" ++ (id ++ (codes ":" ++ capability_value fact.state)),
      )
      raise_if (is_unqualified fact.state)
          (unqualified_reason requirement.role, codes "capability_unqualified:" ++ id)
      raise_if (is_stale fact.state)
          (stale_reason requirement.role, codes "capability_stale:" ++ id)
      observed_at ←
          or_raise fact.observed_at (stale_reason requirement.role, codes "capability_stale:" ++ id)
      check_age facts requirement fact observed_at

-- One turn of the loop over `template.required_capabilities`.
unfoldable pub check_capability : PlannerReadFacts → CapabilityRequirement → Result Note (Unit {0})
check_capability facts requirement = do
  fact ←
      or_raise (lookup requirement.capability_id (capabilities facts)) (
        ExclusionReason.missing_capability,
        codes "missing_capability:" ++ requirement.capability_id,
      )
  check_fact facts requirement fact

-- The template's own qualification.
unfoldable pub check_qualification : PlannerReadFacts → Text → Result Note (Unit {0})
check_qualification facts identity = do
  qualification ←
      or_raise (lookup identity (qualifications facts))
        (ExclusionReason.missing_qualification, codes "missing_template_qualification:" ++ identity)
  raise_if (not (is_qualified qualification.state)) (
    ExclusionReason.unqualified_capability,
    codes "template_qualification_not_valid:" ++ identity,
  )
  raise_if (has_ended facts.as_of qualification.valid_until)
      (ExclusionReason.stale_evidence, codes "template_qualification_expired:" ++ identity)

unfoldable pub check_state : Text → PrerequisiteState → Result Note (Unit {0})
check_state id PrerequisiteState.satisfied = ok tt
check_state id PrerequisiteState.missing =
    err (ExclusionReason.missing_prerequisite, codes "missing_prerequisite:" ++ id)
check_state id PrerequisiteState.unknown =
    err (ExclusionReason.unknown_prerequisite, codes "unknown_prerequisite:" ++ id)
check_state id PrerequisiteState.stale =
    err (ExclusionReason.stale_prerequisite, codes "stale_prerequisite:" ++ id)

-- `fact.observed_at is not None and facts.as_of < fact.observed_at`
unfoldable pub is_from_future : ℕ → Option ℕ → Bool
is_from_future as_of none = false
is_from_future as_of (some observed_at) = ltb as_of observed_at

-- The age test of a prerequisite: no bound passes, a bound without an observation does not.
unfoldable pub exceeds_age : Option ℕ → ℕ → Option ℕ → Bool
exceeds_age none as_of observed_at = false
exceeds_age (some max_age_seconds) as_of none = true
exceeds_age (some max_age_seconds) as_of (some observed_at) =
    is_older_than max_age_seconds as_of observed_at

-- One turn of the loop over `template.prerequisites`.
unfoldable pub check_prerequisite :
    PlannerReadFacts → PrerequisiteRequirement → Result Note (Unit {0})
check_prerequisite facts requirement =
    let id = requirement.prerequisite_id in
    let target = facts.target_context in
    do
      fact ←
          or_raise (lookup id (prereqs facts))
            (ExclusionReason.missing_prerequisite, codes "missing_prerequisite:" ++ id)
      check_state id fact.state
      raise_if
          (requirement.context_bound
            && (not (fact.target_identity == some target.target_identity)
                || not (fact.context_identity == target.context_identity)))
          (ExclusionReason.missing_prerequisite, codes "prerequisite_context_mismatch:" ++ id)
      raise_if (is_from_future facts.as_of fact.observed_at)
          (ExclusionReason.stale_prerequisite, codes "prerequisite_from_future:" ++ id)
      raise_if (exceeds_age requirement.max_age_seconds facts.as_of fact.observed_at)
          (ExclusionReason.stale_prerequisite, codes "prerequisite_age_exceeded:" ++ id)
      raise_if (has_ended facts.as_of fact.valid_until)
          (ExclusionReason.stale_prerequisite, codes "prerequisite_expired:" ++ id)
