-- ===== src/DecisionLoop/Model.antt =====
-- The state of a decision loop: the nested records that src/ephi/application/decision_loop.py keeps in
-- the episode's workflow aggregate.
use ephi.Base.{ℕ, Bool, Option, List}
use ephi.Base.Text.{Text}
use ephi.Base.Dict.{Dict}
use ephi.Commands.Context.{RevisionVector}
use ephi.Planner.Templates.{CheckExecutionMode}

-- `is_other` is any other text.
pub data WorkState : Type 0 where
  is_open is_claimed is_acknowledged is_closed is_other : WorkState

pub data CycleStatus : Type 0 where
  is_open is_closed is_other : CycleStatus

pub data CheckLifecycle : Type 0 where
  requested started completed cancelled : CheckLifecycle

pub data CheckOutcome : Type 0 where
  supports_a supports_b inconsistent inconclusive failed unavailable unknown : CheckOutcome

pub data ExternalActionType : Type 0 where
  approved_external_work human_measurement engineering_review : ExternalActionType
  approved_work_request notification : ExternalActionType

pub data ActionReconciliationState : Type 0 where
  unknown pending succeeded failed cancelled : ActionReconciliationState

pub data RecoveryPlanState : Type 0 where
  not_started waiting_for_data monitoring pass fail invalidated exception_review : RecoveryPlanState

pub data ClosureDisposition : Type 0 where
  confirmed_issue exception unresolved benign duplicate data_integrity : ClosureDisposition

-- `_history`; the detail of a completed check is its result's identity. The history of an action also
-- says when an item was recorded.
pub record HistoryItem (S : Type 0) : Type 0 where
  pub status : S
  pub actor : Text
  pub at : ℕ
  pub detail : Option Text
  pub recorded_at : Option ℕ

pub record CheckResult : Type 0 where
  pub result_identity : Text
  pub outcome : CheckOutcome
  pub affirmative : Bool
  pub evidence_refs : List Text
  pub known_at : Option ℕ
  pub published_at : Option ℕ
  pub completed_at : ℕ

-- The objects `prerequisite_state` and `target_context` are their canonical JSON.
pub record LoopCheck : Type 0 where
  pub check_id : Text
  pub episode_id : Text
  pub cycle_id : Text
  pub template_id : Text
  pub template_version : Text
  pub execution_mode : CheckExecutionMode
  pub required_capabilities : List Text
  pub prerequisite_state : Text
  pub target_context : Text
  pub status : CheckLifecycle
  pub requested_at : ℕ
  pub started_at : Option ℕ
  pub completed_at : Option ℕ
  pub cancelled_at : Option ℕ
  pub result : Option CheckResult
  pub completion_history : List CheckResult
  pub history : List (HistoryItem CheckLifecycle)

pub record LoopAction : Type 0 where
  pub action_id : Text
  pub episode_id : Text
  pub cycle_id : Text
  pub proposal_id : Option Text
  pub authorization_subject : Text
  pub decision_revision_identity : Option Text
  pub viewed_revisions : RevisionVector
  pub external_system : Text
  pub work_request_id : Option Text
  pub external_reference : Option Text
  pub action_type : ExternalActionType
  pub requested_at : ℕ
  pub authorized_at : Option ℕ
  pub observed_at : Option ℕ
  pub recorded_at : ℕ
  pub last_recorded_at : Option ℕ
  pub reconciliation_state : ActionReconciliationState
  pub evidence_refs : List Text
  pub effect_boundary_at : Option ℕ
  pub history : List (HistoryItem ActionReconciliationState)

-- What a closure reads of an assessment and of a recovery plan.
pub record Assessment : Type 0 where
  pub post_action : Bool
  pub eligible : Bool
  pub evidence_refs : List Text

pub record RecoveryPlan : Type 0 where
  pub cycle_id : Text
  pub state : RecoveryPlanState
  pub locked : Bool
  pub prior_action_id : Option Text
  pub assessments : List Assessment

pub record Closure : Type 0 where
  pub closure_identity : Text
  pub episode_id : Text
  pub cycle_id : Text
  pub disposition : ClosureDisposition
  pub reason : Option Text
  pub evidence_refs : List Text
  pub residual_risk_owner : Option Text
  pub obligation_id : Option Text
  pub accepted_residual_risk : Bool
  pub exception_review_id : Option Text
  pub action_id : Option Text
  pub recovery_plan_id : Option Text
  pub viewed_revisions : RevisionVector
  pub workflow_version : ℕ
  pub viewed_workflow_version : ℕ
  pub check_ids : List Text
  pub action_ids : List Text
  pub recovery_plan_ids : List Text
  pub evidence_ids : List Text
  pub closed_at : ℕ
  pub closed_by : Text

pub record Cycle : Type 0 where
  pub cycle_id : Text
  pub cycle_version : ℕ
  pub status : CycleStatus
  pub opened_at : ℕ
  pub checks : Dict Text LoopCheck
  pub actions : Dict Text LoopAction
  pub recovery_plans : Dict Text RecoveryPlan
  pub closures : List Closure

pub record Reopening : Type 0 where
  pub reopen_identity : Text
  pub from_cycle_id : Text
  pub from_closure_identity : Text
  pub to_cycle_id : Text
  pub reason : Text
  pub reopened_at : ℕ
  pub reopened_by : Text
  pub owner_before_reset : Option Text
  pub owner_after_reset : Option Text
  pub viewed_revisions : RevisionVector

pub record LoopState : Type 0 where
  pub schema_version : Text
  pub episode_id : Text
  pub active_cycle_id : Text
  pub last_viewed_revisions : Option RevisionVector
  pub cycles : List Cycle
  pub reopen_history : List Reopening
  pub last_closure_identity : Option Text

-- A field `owner` that is missing is `none`; without the extension the loop is `none`.
pub record EpisodeState : Type 0 where
  pub work_state : WorkState
  pub owner : Option (Option Text)
  pub decision_loop : Option LoopState
