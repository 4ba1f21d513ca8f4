-- ===== src/Planner/Eligibility/Prior.antt =====
-- The durable checks of the workflow in `_eligibility` of src/ephi/application/planner.py.
use mathlib.Core.List.{flat_map}
use ephi.Base.{
  ℕ, ◌+◌, ◌*◌, Bool, true, false, ◌&&◌, ◌||◌, not, Option, none, some, List, [], ◌∷◌, ◌++◌, map,
  leb, ◌==◌, list_Eq, option_Eq, ℕ_eq, contains, find, if◌then◌else◌,
}
use ephi.Base.Text.{Text, codes}
use ephi.Base.Dict.{lookup}
use ephi.Base.Sort.{sort_by, text_before}
use ephi.Planner.Facts.{
  ExclusionReason, EvidenceValidityState, TargetContext, same_context, PlannerReadFacts,
  EvidenceValidityFact,
}
use ephi.Planner.Templates.{Decimals, CheckTemplate, CheckRecord, CycleRecord, LoopSnapshot}
use ephi.Planner.Eligibility.Requirements.{Note, note_if, shown, has_ended}

unfoldable pub is_valid : EvidenceValidityState → Bool
is_valid EvidenceValidityState.valid = true
is_valid _ = false

-- `_context_matches`
unfoldable pub context_matches : CheckRecord → TargetContext → Bool
context_matches check context = elim check.target_context [
  | none ↦ false
  | some target ↦
      (lookup (codes "target_identity") target == some context.target_identity)
      && (lookup (codes "context_identity") target == context.context_identity)
      && (lookup (codes "unit_identity") target == context.unit_identity)
      && (lookup (codes "characteristic_identity") target == context.characteristic_identity)
]

-- `item.get(key, "")`
unfoldable pub or_empty : Option Text → Text
or_empty none = []
or_empty (some s) = s

unfoldable pub check_before : CheckRecord → CheckRecord → Bool
check_before a b =
    let s = or_empty a.template_id in
    let t = or_empty b.template_id in
    if text_before s t
    then true
    else if text_before t s
    then false
    else text_before (or_empty a.check_id) (or_empty b.check_id)

-- `_workflow_checks`
unfoldable pub workflow_checks : LoopSnapshot → List CheckRecord
unfolding sort_by
workflow_checks snapshot =
    sort_by check_before
      (flat_map (λ (cycle : CycleRecord). map (λ entry. entry.1) cycle.checks) snapshot.cycles)

-- The `next(...)` over the validity facts of a check.
unfoldable pub validity_of : PlannerReadFacts → CheckRecord → Option EvidenceValidityFact
unfolding find
validity_of facts check =
    find (λ v. (some v.check_id == check.check_id) && (some v.cycle_id == check.cycle_id))
      facts.evidence_validity_facts

abbrev pub non_evidence_outcomes : List Text
non_evidence_outcomes =
    codes "FAILED" ∷ codes "UNAVAILABLE" ∷ codes "UNKNOWN" ∷ codes "CANCELLED" ∷ []

unfoldable pub is_evidence : Option Text → Bool
is_evidence none = true
is_evidence (some outcome) = not (contains outcome non_evidence_outcomes)

-- The evidence of a completed check may stand for a new one.
unfoldable pub is_reusable : PlannerReadFacts → ℕ → CheckRecord → Bool
is_reusable facts reuse_window_seconds check = elim check.completed_at [
  | none ↦ false
  | some completed_at ↦
      is_evidence check.outcome
      && leb completed_at facts.as_of
      && leb facts.as_of (completed_at + reuse_window_seconds * 1000000)
      && elim (validity_of facts check) [
        | none ↦ false
        | some validity ↦
            is_valid validity.state
            && same_context validity.target_context facts.target_context
            && not (has_ended facts.as_of validity.valid_until)
      ]
]

module _ (d : Decimals) where
  -- One turn of the loop over the durable checks.
  unfoldable pub prior_check : PlannerReadFacts → CheckTemplate d → CheckRecord → List Note
  prior_check facts template check =
      if not (check.template_id == some template.template_id)
        || not (context_matches check facts.target_context)
      then []
      else if check.status == some (codes "REQUESTED")
      then (
        ExclusionReason.check_already_requested,
        codes "existing_check_requested:" ++ shown check.check_id,
      )
        ∷ []
      else if check.status == some (codes "STARTED")
      then (
        ExclusionReason.check_in_progress,
        codes "existing_check_started:" ++ shown check.check_id,
      )
        ∷ []
      else note_if
          ((check.status == some (codes "COMPLETED"))
            && (check.template_version == some template.version)
            && is_reusable facts template.reuse_window_seconds check)
          ExclusionReason.valid_prior_completion
          (codes "valid_same_context_completion:" ++ shown check.check_id)
