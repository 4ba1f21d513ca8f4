-- ===== src/Planner/Facts.antt =====
-- The enumerations and the current facts of src/ephi/application/planner.py.
use ephi.Base.{ℕ, Bool, ◌&&◌, Option, List, ◌==◌, list_Eq, option_Eq, ℕ_eq}
use ephi.Base.Text.{Text}
use ephi.Commands.Context.{RevisionVector}

pub data CapabilityState : Type 0 where
  available unavailable stale unqualified unknown : CapabilityState

pub data QualificationState : Type 0 where
  qualified unqualified unknown : QualificationState

pub data PrerequisiteState : Type 0 where
  satisfied missing stale unknown : PrerequisiteState

pub data EvidenceValidityState : Type 0 where
  valid invalid stale unknown : EvidenceValidityState

pub data DeadlineState : Type 0 where
  supported unknown : DeadlineState

pub data TurnaroundState : Type 0 where
  supported unknown unsupported stale : TurnaroundState

pub data EffortBand : Type 0 where
  low moderate high unknown : EffortBand

-- `none_class` is NONE.
pub data DisruptionClass : Type 0 where
  none_class low moderate high unknown : DisruptionClass

pub data CapabilityRole : Type 0 where
  general peer reference : CapabilityRole

pub data TemplatePath : Type 0 where
  discrimination prerequisite_validation : TemplatePath

pub data ExclusionReason : Type 0 where
  unsupported_context unsupported_unit missing_capability capability_unavailable : ExclusionReason
  unqualified_capability unqualified_peer_reference stale_evidence : ExclusionReason
  stale_peer_reference missing_approval_authorization missing_qualification : ExclusionReason
  missing_prerequisite unknown_prerequisite stale_prerequisite : ExclusionReason
  valid_prior_completion check_already_requested check_in_progress : ExclusionReason
  missed_decision_window unsupported_turnaround lifecycle_closed no_validation_path :
      ExclusionReason
  redundant_with_selected not_selected_limit : ExclusionReason

-- `enumerate(ExclusionReason)`
unfoldable pub position : ExclusionReason → ℕ
position ExclusionReason.unsupported_context = 0
position ExclusionReason.unsupported_unit = 1
position ExclusionReason.missing_capability = 2
position ExclusionReason.capability_unavailable = 3
position ExclusionReason.unqualified_capability = 4
position ExclusionReason.unqualified_peer_reference = 5
position ExclusionReason.stale_evidence = 6
position ExclusionReason.stale_peer_reference = 7
position ExclusionReason.missing_approval_authorization = 8
position ExclusionReason.missing_qualification = 9
position ExclusionReason.missing_prerequisite = 10
position ExclusionReason.unknown_prerequisite = 11
position ExclusionReason.stale_prerequisite = 12
position ExclusionReason.valid_prior_completion = 13
position ExclusionReason.check_already_requested = 14
position ExclusionReason.check_in_progress = 15
position ExclusionReason.missed_decision_window = 16
position ExclusionReason.unsupported_turnaround = 17
position ExclusionReason.lifecycle_closed = 18
position ExclusionReason.no_validation_path = 19
position ExclusionReason.redundant_with_selected = 20
position ExclusionReason.not_selected_limit = 21

pub record TargetContext : Type 0 where
  pub target_identity : Text
  pub context_identity : Option Text
  pub unit_identity : Option Text
  pub characteristic_identity : Option Text

unfoldable pub same_context : TargetContext → TargetContext → Bool
same_context a b =
    (a.target_identity == b.target_identity)
    && (a.context_identity == b.context_identity)
    && (a.unit_identity == b.unit_identity)
    && (a.characteristic_identity == b.characteristic_identity)

pub record UnresolvedHypothesisPair : Type 0 where
  pub pair_id : Text
  pub hypothesis_a_id : Text
  pub hypothesis_b_id : Text
  pub contradiction_ids : List Text
  pub dependence_group_ids : List Text

pub record ContradictionFact : Type 0 where
  pub contradiction_id : Text
  pub pair_id : Text
  pub left_evidence_identity : Text
  pub right_evidence_identity : Text

pub record EvidenceDependenceGroup : Type 0 where
  pub evidence_group_id : Text
  pub dependence_group_id : Text
  pub pair_ids : List Text

pub record CapabilityFact : Type 0 where
  pub capability_id : Text
  pub state : CapabilityState
  pub source_identity : Text
  pub observed_at : Option ℕ
  pub qualification_identity : Option Text
  pub context_identity : Option Text
  pub valid_until : Option ℕ

pub record QualificationFact : Type 0 where
  pub qualification_identity : Text
  pub state : QualificationState
  pub source_identity : Text
  pub valid_until : Option ℕ

pub record PrerequisiteFact : Type 0 where
  pub prerequisite_id : Text
  pub state : PrerequisiteState
  pub source_identity : Text
  pub observed_at : Option ℕ
  pub target_identity : Option Text
  pub context_identity : Option Text
  pub valid_until : Option ℕ

pub record EvidenceValidityFact : Type 0 where
  pub check_id : Text
  pub cycle_id : Text
  pub state : EvidenceValidityState
  pub valid_until : Option ℕ
  pub target_context : TargetContext

pub record DecisionDeadlineFact : Type 0 where
  pub state : DeadlineState
  pub source_identity : Text
  pub deadline : Option ℕ
  pub unknown_reason : Option Text

pub record TurnaroundFact : Type 0 where
  pub source_identity : Text
  pub state : TurnaroundState
  pub seconds : Option ℕ
  pub valid_until : Option ℕ
  pub unknown_reason : Option Text

pub record UnknownFact : Type 0 where
  pub fact_identity : Text
  pub source_identity : Text
  pub reason : Text

pub record PlannerReadFacts : Type 0 where
  pub episode_id : Text
  pub cycle_id : Text
  pub workflow_version : ℕ
  pub viewed_revisions : RevisionVector
  pub as_of : ℕ
  pub family_id : Text
  pub target_kind : Text
  pub target_context : TargetContext
  pub unresolved_pairs : List UnresolvedHypothesisPair
  pub contradictions : List ContradictionFact
  pub dependence_groups : List EvidenceDependenceGroup
  pub capability_facts : List CapabilityFact
  pub qualification_facts : List QualificationFact
  pub prerequisite_facts : List PrerequisiteFact
  pub evidence_validity_facts : List EvidenceValidityFact
  pub decision_deadline : DecisionDeadlineFact
  pub turnaround_facts : List TurnaroundFact
  pub explicit_unknowns : List UnknownFact
