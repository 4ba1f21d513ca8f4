-- ===== src/DecisionLoop/ClosureTests.antt =====
-- The closure of a confirmed issue on a concrete episode (src/ephi/application/decision_loop.py).
use ephi.Base.{list_eq, contains, find, ◌≡◌, refl, true, false, none, some, [], ◌∷◌, ok, err}
use ephi.Base.Text.{is_canonical, codes}
use ephi.Base.Sort.{sort_by}
use ephi.Base.Dict.{lookup}
use ephi.DecisionLoop.Model.{
  CycleStatus, ActionReconciliationState, ExternalActionType, RecoveryPlanState, RecoveryPlan,
  LoopAction, WorkState, ClosureDisposition, Cycle, LoopState, EpisodeState,
}
use ephi.DecisionLoop.State.{
  schema_version, open_cycle, active_cycle, refs, refs_onto, check_revisions, with_cycle, put_cycle,
  is_supported_work, is_work_closed, is_supported_cycle, is_cycle_open, is_cycle_closed,
  post_commit_revision, state_object,
}
use ephi.DecisionLoop.Closing.{
  close_episode, check_closure, check_disposition, closed_state, new_closure, ClosureRequest,
}
use ephi.DecisionLoop.Tests.{hashes, revisions, command}
use mathlib.Core.List.{flat_map}
use ephi.DecisionLoop.Confirmed.{IsConfirmed, close_episode-IsConfirmed}
use ephi.DecisionLoop.Closing.{has_observed_effect, is_pass, recovery_evidence}
use ephi.DecisionLoop.Actions.{is_succeeded}

abbrev an_action : LoopAction
an_action = record {
  action_id = codes "w";
  episode_id = codes "e";
  cycle_id = codes "c";
  proposal_id = none;
  authorization_subject = codes "u";
  decision_revision_identity = none;
  viewed_revisions = revisions 3;
  external_system = codes "s";
  work_request_id = some (codes "n");
  external_reference = none;
  action_type = ExternalActionType.approved_work_request;
  requested_at = 1;
  authorized_at = none;
  observed_at = some 2;
  recorded_at = 3;
  last_recorded_at = none;
  reconciliation_state = ActionReconciliationState.succeeded;
  evidence_refs = codes "r" ∷ [];
  effect_boundary_at = some 2;
  history = [];
}

abbrev a_plan : RecoveryPlan
a_plan = record {
  cycle_id = codes "c";
  state = RecoveryPlanState.pass;
  locked = true;
  prior_action_id = some (codes "w");
  assessments = record { post_action = true; eligible = true; evidence_refs = codes "z" ∷ [] } ∷ [];
}

abbrev a_cycle : Cycle
a_cycle = record {
  cycle_id = codes "c";
  cycle_version = 1;
  status = CycleStatus.is_open;
  opened_at = 1;
  checks = [];
  actions = (codes "w", an_action) ∷ [];
  recovery_plans = (codes "p", a_plan) ∷ [];
  closures = [];
}

abbrev a_loop : LoopState
a_loop = record {
  schema_version = schema_version;
  episode_id = codes "e";
  active_cycle_id = codes "c";
  last_viewed_revisions = none;
  cycles = a_cycle ∷ [];
  reopen_history = [];
  last_closure_identity = none;
}

abbrev recovered : EpisodeState
recovered = record {
  work_state = WorkState.is_acknowledged;
  owner = some (some (codes "u"));
  decision_loop = some a_loop;
}

abbrev confirmation : ClosureRequest
confirmation = record {
  disposition = ClosureDisposition.confirmed_issue;
  evidence_refs = [];
  reason = none;
  residual_risk_owner = none;
  obligation_id = none;
  accepted_residual_risk = false;
  exception_review_id = none;
  recovery_plan_id = some (codes "p");
  check_ids = [];
}

-- The state that the closure returns.
abbrev confirmed : EpisodeState
confirmed = elim (close_episode hashes.closure (command 4 []) confirmation recovered) [
  | ok state ↦ state
  | err e ↦ recovered
]

closure_runs : close_episode hashes.closure (command 4 []) confirmation recovered ≡ ok confirmed
unfolding list_eq contains state_object open_cycle active_cycle is_canonical refs refs_onto
    check_revisions with_cycle put_cycle lookup find is_supported_work is_work_closed
    is_supported_cycle is_cycle_open is_cycle_closed post_commit_revision close_episode
    check_closure check_disposition closed_state new_closure sort_by has_observed_effect is_pass
    is_succeeded recovery_evidence flat_map
closure_runs = refl

close_episode-IsConfirmed_example :
    (loop : LoopState) × ((cycle : Cycle) × ((open_cycle (codes "e") none recovered
          ≡ ok (loop, cycle))
        × IsConfirmed (some (codes "p")) cycle))
close_episode-IsConfirmed_example =
    close_episode-IsConfirmed (command 4 []) recovered hashes.closure confirmation closure_runs refl
