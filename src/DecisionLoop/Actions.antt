-- ===== src/DecisionLoop/Actions.antt =====
-- The commands on external actions: `record_external_action` and `reconcile_external_action` of
-- src/ephi/application/decision_loop.py.
use ephi.Base.{
  ℕ, Bool, true, false, ◌&&◌, not, Option, none, some, List, [], ◌∷◌, ◌++◌, ◌==◌, list_Eq, ℕ_eq,
  is_some, Result, ok, ◌>>=◌, ◌>>◌, raise_if, or_raise, if◌then◌else◌,
}
use ephi.Base.Text.{Text}
use ephi.Base.Dict.{lookup, insert, has_key}
use ephi.Commands.Context.{Raised, RevisionVector}
use ephi.DecisionLoop.Model.{
  ExternalActionType, ActionReconciliationState, LoopAction, Cycle, EpisodeState,
}
use ephi.DecisionLoop.State.{
  open_cycle, with_cycle, check_identity, check_optional_identity, refs, check_revisions,
}
use ephi.DecisionLoop.Checks.{LoopCommand}

unfoldable pub is_succeeded : ActionReconciliationState → Bool
is_succeeded ActionReconciliationState.succeeded = true
is_succeeded _ = false

-- SUCCEEDED or FAILED.
unfoldable pub is_outcome : ActionReconciliationState → Bool
is_outcome ActionReconciliationState.succeeded = true
is_outcome ActionReconciliationState.failed = true
is_outcome _ = false

-- UNKNOWN or PENDING.
unfoldable pub is_unreconciled : ActionReconciliationState → Bool
is_unreconciled ActionReconciliationState.unknown = true
is_unreconciled ActionReconciliationState.pending = true
is_unreconciled _ = false

unfoldable pub is_state_unknown : ActionReconciliationState → Bool
is_state_unknown ActionReconciliationState.unknown = true
is_state_unknown _ = false

-- The arguments of `record_external_action`; `requested_at` has been filled in from the clock.
pub record ActionRecord : Type 0 where
  pub action_type : ExternalActionType
  pub external_system : Text
  pub work_request_id : Option Text
  pub external_reference : Option Text
  pub proposal_id : Option Text
  pub decision_revision_identity : Option Text
  pub reconciliation_state : ActionReconciliationState
  pub requested_at : ℕ
  pub authorized_at : Option ℕ
  pub observed_at : Option ℕ
  pub evidence_refs : List Text

unfoldable pub check_action : ActionRecord → Result Raised (Unit {0})
check_action a = do
  check_identity a.external_system
  check_optional_identity a.work_request_id
  check_optional_identity a.external_reference
  raise_if (not (is_some a.work_request_id) && not (is_some a.external_reference))
      Raised.validation_failure
  raise_if (is_outcome a.reconciliation_state && (a.evidence_refs == [])) Raised.validation_failure
  raise_if (is_outcome a.reconciliation_state && not (is_some a.observed_at))
      Raised.validation_failure
  check_optional_identity a.proposal_id
  check_optional_identity a.decision_revision_identity

-- The boundary of an effect, which only a success has.
abbrev pub boundary : ActionReconciliationState → Option ℕ → Option ℕ
boundary state observed_at = if is_succeeded state then observed_at else none

unfoldable pub new_action : LoopCommand → ActionRecord → RevisionVector → Text → LoopAction
new_action m a viewed cycle_id = record {
  action_id = m.name;
  episode_id = m.episode_id;
  cycle_id = cycle_id;
  proposal_id = a.proposal_id;
  authorization_subject = m.actor;
  decision_revision_identity = a.decision_revision_identity;
  viewed_revisions = viewed;
  external_system = a.external_system;
  work_request_id = a.work_request_id;
  external_reference = a.external_reference;
  action_type = a.action_type;
  requested_at = a.requested_at;
  authorized_at = a.authorized_at;
  observed_at = a.observed_at;
  recorded_at = m.now;
  last_recorded_at = none;
  reconciliation_state = a.reconciliation_state;
  evidence_refs = a.evidence_refs;
  effect_boundary_at = boundary a.reconciliation_state a.observed_at;
  history =
      record {
        status = a.reconciliation_state;
        actor = m.actor;
        at = elim a.authorized_at [ none ↦ a.requested_at | some at ↦ at ];
        detail = none;
        recorded_at = some m.later;
      }
      ∷ [];
}

abbrev pub with_action : Text → LoopAction → Cycle → Cycle
with_action name action cycle = record cycle { actions = insert name action cycle.actions }

unfoldable pub record_external_action :
    LoopCommand → ActionRecord → EpisodeState → Result Raised EpisodeState
record_external_action m a state = do
  check_identity m.name
  references ← refs a.evidence_refs
  let action : ActionRecord = record a { evidence_refs = references }
  check_action action
  viewed ← check_revisions m.expected_workflow_version m.viewed_revisions
  (loop, cycle) ← open_cycle m.episode_id m.cycle_id state
  raise_if (has_key m.name cycle.actions) Raised.invalid_transition
  ok (
      with_cycle viewed loop (with_action m.name (new_action m action viewed cycle.cycle_id) cycle)
        state)

-- The arguments of `reconcile_external_action`; `observed_at` has been filled in from the clock.
pub record Reconciliation : Type 0 where
  pub reconciliation_state : ActionReconciliationState
  pub external_reference : Option Text
  pub observed_at : ℕ
  pub evidence_refs : List Text

unfoldable pub reconciled_action : LoopCommand → Reconciliation → LoopAction → LoopAction
reconciled_action m r action = record action {
  reconciliation_state = r.reconciliation_state;
  external_reference = elim r.external_reference [
    | none ↦ action.external_reference
    | some reference ↦ some reference
  ];
  observed_at = some r.observed_at;
  last_recorded_at = some m.now;
  evidence_refs = r.evidence_refs;
  effect_boundary_at = boundary r.reconciliation_state (some r.observed_at);
  history =
      action.history
      ++ (record {
        status = r.reconciliation_state;
        actor = m.actor;
        at = r.observed_at;
        detail = none;
        recorded_at = some m.now;
      }
          ∷ []);
}

unfoldable pub reconcile_external_action :
    LoopCommand → Reconciliation → EpisodeState → Result Raised EpisodeState
reconcile_external_action m r state = do
  check_identity m.name
  references ← refs r.evidence_refs
  raise_if (is_outcome r.reconciliation_state && (references == [])) Raised.validation_failure
  check_optional_identity r.external_reference
  viewed ← check_revisions m.expected_workflow_version m.viewed_revisions
  (loop, cycle) ← open_cycle m.episode_id m.cycle_id state
  action ← or_raise (lookup m.name cycle.actions) Raised.validation_failure
  raise_if (not (is_unreconciled action.reconciliation_state)) Raised.invalid_transition
  raise_if (is_state_unknown r.reconciliation_state) Raised.invalid_transition
  let reconciliation : Reconciliation = record r { evidence_refs = references }
  ok (
      with_cycle viewed loop (with_action m.name (reconciled_action m reconciliation action) cycle)
        state)
