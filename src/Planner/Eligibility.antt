-- ===== src/Planner/Eligibility.antt =====
-- Whether a check template may be recommended: `_eligibility` of src/ephi/application/planner.py.
-- The parts return the notes that they add, in order.
pub mod Requirements
pub mod Turnaround
pub mod Prior
use mathlib.Core.List.{flat_map}
use ephi.Base.{
  ℕ, ◌+◌, ◌*◌, Bool, true, false, ◌&&◌, ◌||◌, not, Option, none, some, List, [], ◌∷◌, ◌++◌, map,
  ltb, leb, nat_eq, ◌==◌, list_Eq, option_Eq, ℕ_eq, contains, find, all, Result, ok, err, ◌>>=◌,
  ◌>>◌, is_some, if◌then◌else◌,
}
use ephi.Base.Text.{Text, codes}
use ephi.Base.Dict.{Dict, lookup}
use ephi.Base.Sort.{filter, any, intersection, sorted_set, sort_by, text_before}
use ephi.Planner.Facts.{
  DeadlineState, TurnaroundState, TemplatePath, ExclusionReason, EvidenceValidityState, position,
  TargetContext, same_context, PlannerReadFacts, EvidenceValidityFact, TurnaroundFact,
}
use ephi.Planner.Templates.{Decimals, CheckTemplate, CheckRecord, CycleRecord, LoopSnapshot}
use ephi.Commands.Context.{Raised, Principal, AccessScope, has_capability, authorize}
use Requirements.{Note, noted, note_if, check_capability, check_qualification, check_prerequisite}
use Turnaround.{turnaround_notes}
use Prior.{prior_check}

unfoldable pub is_discrimination : TemplatePath → Bool
is_discrimination TemplatePath.discrimination = true
is_discrimination TemplatePath.prerequisite_validation = false

-- The Episode is open and so is its active cycle.
unfoldable pub is_open : LoopSnapshot → Text → Bool
is_open snapshot cycle_id =
    not (snapshot.work_state == some (codes "CLOSED"))
    && elim (find (λ (cycle : CycleRecord). cycle.cycle_id == some cycle_id) snapshot.cycles) [
      | none ↦ false
      | some cycle ↦ cycle.status == some (codes "OPEN")
    ]

-- The resolver's answers where a template asks for an approval, and at the check of the right to read
-- that follows a denial.
pub record ApprovalAnswers : Type 0 where
  pub at_approval : Option Principal
  pub at_read : Option Principal

abbrev pub approval_denied : Text → Text → List Note
approval_denied prefix capability =
    (ExclusionReason.missing_approval_authorization, prefix ++ capability) ∷ []

-- The approval right. A denial of the right to read ends the whole plan.
unfoldable pub approval_notes :
    (AccessScope → Text)
    → ApprovalAnswers
    → Principal
    → AccessScope
    → Option Text
    → Result Raised (List Note)
approval_notes canonical_key answers principal scope none = ok []
approval_notes canonical_key answers principal scope (some capability) =
    if not (has_capability capability principal)
    then ok (approval_denied (codes "approval_capability_missing:") capability)
    else elim (authorize canonical_key answers.at_approval principal scope capability) [
      | ok _ ↦ ok []
      | err _ ↦
          authorize canonical_key answers.at_read principal scope (codes "ephi.decision_loop.read")
          >> ok (approval_denied (codes "approval_capability_not_current:") capability)
    ]

abbrev pub exclusion_reasons : List ExclusionReason
exclusion_reasons =
    ExclusionReason.unsupported_context ∷ ExclusionReason.unsupported_unit
    ∷ ExclusionReason.missing_capability ∷ ExclusionReason.capability_unavailable
    ∷ ExclusionReason.unqualified_capability ∷ ExclusionReason.unqualified_peer_reference
    ∷ ExclusionReason.stale_evidence ∷ ExclusionReason.stale_peer_reference
    ∷ ExclusionReason.missing_approval_authorization ∷ ExclusionReason.missing_qualification
    ∷ ExclusionReason.missing_prerequisite ∷ ExclusionReason.unknown_prerequisite
    ∷ ExclusionReason.stale_prerequisite ∷ ExclusionReason.valid_prior_completion
    ∷ ExclusionReason.check_already_requested ∷ ExclusionReason.check_in_progress
    ∷ ExclusionReason.missed_decision_window ∷ ExclusionReason.unsupported_turnaround
    ∷ ExclusionReason.lifecycle_closed ∷ ExclusionReason.no_validation_path
    ∷ ExclusionReason.redundant_with_selected ∷ ExclusionReason.not_selected_limit ∷ []

unfoldable pub has_reason : ExclusionReason → List Note → Bool
unfolding any
has_reason r = any (λ n. nat_eq (position n.0) (position r))

module _ (d : Decimals) where
  -- Family, target kind, context and unit.
  unfoldable pub applicability : PlannerReadFacts → CheckTemplate d → List Note
  applicability facts template =
      note_if
        (not (contains facts.family_id template.family_ids)
          || not (contains facts.target_kind template.target_kinds))
        ExclusionReason.unsupported_context (codes "family_or_target_kind_not_supported")
      ++ (elim facts.target_context.context_identity [
        | none ↦
            note_if (not template.context_independent) ExclusionReason.unsupported_context
              (codes "context_unknown_and_template_requires_context")
        | some context ↦
            note_if
              (not template.context_independent
                && not (contains context template.supported_contexts))
              ExclusionReason.unsupported_context (codes "context_not_in_template_support")
      ]
          ++ elim facts.target_context.unit_identity [
            | none ↦
                note_if (not template.unit_independent) ExclusionReason.unsupported_unit
                  (codes "unit_unknown_and_template_requires_unit")
            | some unit ↦
                note_if
                  (not template.unit_independent && not (contains unit template.supported_units))
                  ExclusionReason.unsupported_unit (codes "unit_not_in_template_support")
          ])

  -- The paths that the template has to the unresolved pairs.
  unfoldable pub path_notes : PlannerReadFacts → CheckTemplate d → List Note
  path_notes facts template = elim facts.unresolved_pairs [
    | [] ↦
        note_if (is_discrimination template.path) ExclusionReason.no_validation_path
          (codes "no_unresolved_pair_requires_validation_path")
    | _ ∷ _ ↦
        note_if
          (is_discrimination template.path
            && elim (intersection (map (λ p. p.pair_id) facts.unresolved_pairs)
                (map (λ p. p.pair_id) template.candidate_discrimination)) [
                  | [] ↦ true
                  | _ ∷ _ ↦ false
                ])
          ExclusionReason.no_validation_path (codes "template_has_no_rubric_for_unresolved_pairs")
  ]

  -- The notes of a template, but for those of its approval.
  unfoldable pub template_notes :
      PlannerReadFacts → LoopSnapshot → List CheckRecord → CheckTemplate d → List Note × List Note
  template_notes facts snapshot checks template = (
    applicability facts template
        ++ (note_if (not (is_open snapshot facts.cycle_id)) ExclusionReason.lifecycle_closed
              (codes "episode_or_cycle_not_open")
            ++ (flat_map (λ r. noted (check_capability facts r)) template.required_capabilities
                ++ (noted (check_qualification facts template.qualification_identity)
                    ++ flat_map (λ r. noted (check_prerequisite facts r)) template.prerequisites))),
    path_notes facts template
        ++ (turnaround_notes facts template.turnaround_source_id
            ++ flat_map (prior_check d facts template) checks),
  )

  -- `_eligibility`: the distinct reasons in the order of their enumeration, and the sorted trace.
  unfoldable pub eligibility_of :
      (AccessScope → Text)
      → ApprovalAnswers
      → Principal
      → AccessScope
      → PlannerReadFacts
      → LoopSnapshot
      → List CheckRecord
      → CheckTemplate d
      → Result Raised (List ExclusionReason × List Text)
  eligibility_of canonical_key answers principal scope facts snapshot checks template = do
    approval ← approval_notes canonical_key answers principal scope template.approval_capability
    let parts = template_notes facts snapshot checks template
    let notes = parts.0 ++ (approval ++ parts.1)
    ok (filter (λ r. has_reason r notes) exclusion_reasons, sorted_set (map (λ n. n.1) notes))
