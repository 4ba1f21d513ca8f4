-- ===== src/DecisionLoop/Closing.antt =====
-- Closing an episode: `close_episode` of src/ephi/application/decision_loop.py.
use mathlib.Core.List.{flat_map}
use ephi.Base.{
  suc, Bool, true, false, ◌&&◌, ◌||◌, not, Option, none, some, List, [], ◌∷◌, ◌++◌, map, ◌==◌,
  list_Eq, option_Eq, ℕ_eq, is_some, all, Result, ok, ◌>>=◌, ◌>>◌, raise_if, or_raise,
  if◌then◌else◌,
}
use ephi.Base.Text.{Text}
use ephi.Base.Dict.{Dict, lookup, has_key}
use ephi.Base.Sort.{sort_by, text_before}
use ephi.Commands.Context.{Raised, RevisionVector}
use ephi.DecisionLoop.Model.{
  WorkState, CycleStatus, RecoveryPlanState, ClosureDisposition, LoopAction, Assessment, Closure,
  Cycle, LoopState, EpisodeState,
}
use ephi.DecisionLoop.State.{
  open_cycle, put_cycle, post_commit_revision, check_optional_identity, refs, check_revisions,
}
use ephi.DecisionLoop.Checks.{LoopCommand}
use ephi.DecisionLoop.Actions.{is_succeeded}

-- `_action_has_observed_effect`
unfoldable pub has_observed_effect : LoopAction → Bool
has_observed_effect action = is_succeeded action.reconciliation_state && is_some action.observed_at

unfoldable pub is_pass : RecoveryPlanState → Bool
is_pass RecoveryPlanState.pass = true
is_pass _ = false

-- The arguments of `close_episode`.
pub record ClosureRequest : Type 0 where
  pub disposition : ClosureDisposition
  pub evidence_refs : List Text
  pub reason : Option Text
  pub residual_risk_owner : Option Text
  pub obligation_id : Option Text
  pub accepted_residual_risk : Bool
  pub exception_review_id : Option Text
  pub recovery_plan_id : Option Text
  pub check_ids : List Text

-- `recovery_evidence_ids` of a plan's assessments. Their references have been through `_refs` when they
-- were recorded.
unfoldable pub recovery_evidence : List Assessment → List Text
recovery_evidence = flat_map (λ a. if a.post_action && a.eligible then a.evidence_refs else [])

-- What a disposition asks for: the action and the recovery evidence of a confirmed issue.
unfoldable pub check_disposition : ClosureRequest → Cycle → Result Raised (Option Text × List Text)
check_disposition q cycle = elim q.disposition [
  | ClosureDisposition.confirmed_issue ↦ do
    plan_id ← or_raise q.recovery_plan_id Raised.validation_failure
    plan ← or_raise (lookup plan_id cycle.recovery_plans) Raised.validation_failure
    raise_if (not (plan.cycle_id == cycle.cycle_id)) Raised.invalid_transition
    raise_if (not (is_pass plan.state) || not plan.locked) Raised.invalid_transition
    action_id ← or_raise plan.prior_action_id Raised.invalid_transition
    action ← or_raise (lookup action_id cycle.actions) Raised.invalid_transition
    raise_if (not (action.cycle_id == cycle.cycle_id)) Raised.invalid_transition
    raise_if (not (has_observed_effect action)) Raised.invalid_transition
    raise_if (recovery_evidence plan.assessments == []) Raised.invalid_transition
    ok (some action_id, recovery_evidence plan.assessments)
  | ClosureDisposition.exception ↦ do
    raise_if
        (not (is_some q.exception_review_id)
          || not (is_some q.residual_risk_owner)
          || (q.evidence_refs == []))
        Raised.validation_failure
    ok (none, [])
  | ClosureDisposition.unresolved ↦ do
    raise_if
        (not (is_some q.obligation_id && is_some q.residual_risk_owner)
          && not (q.accepted_residual_risk && is_some q.residual_risk_owner))
        Raised.validation_failure
    ok (none, [])
  | _ ↦ do raise_if (q.evidence_refs == []) Raised.validation_failure; ok (none, [])
]

-- The identities of the arguments.
unfoldable pub check_closure : ClosureRequest → Result Raised (Unit {0})
check_closure q = do
  check_optional_identity q.reason
  check_optional_identity q.residual_risk_owner
  check_optional_identity q.obligation_id
  check_optional_identity q.exception_review_id
  check_optional_identity q.recovery_plan_id

abbrev pub keys : {V : Type 0} → Dict Text V → List Text
keys d = sort_by text_before (map (λ entry. entry.0) d)

-- The state after a closure.
unfoldable pub closed_state :
    RevisionVector → LoopState → Cycle → Closure → EpisodeState → EpisodeState
closed_state viewed loop cycle closure state = record state {
  work_state = WorkState.is_closed;
  decision_loop = some (record loop {
    cycles =
        put_cycle
          (record cycle {
            closures = cycle.closures ++ (closure ∷ []);
            status = CycleStatus.is_closed;
          })
          loop.cycles;
    last_closure_identity = some closure.closure_identity;
    last_viewed_revisions = some (post_commit_revision viewed);
  });
}

-- The hash of the canonical JSON of a closure is a parameter.
module _ (hash : LoopCommand → Cycle → ClosureRequest → List Text → List Text → Text) where
  unfoldable pub new_closure :
      LoopCommand
      → ClosureRequest
      → RevisionVector
      → Cycle
      → Option Text
      → List Text
      → List Text
      → Closure
  new_closure m q viewed cycle action_id evidence_ids check_ids = record {
    closure_identity = hash m cycle q evidence_ids check_ids;
    episode_id = m.episode_id;
    cycle_id = cycle.cycle_id;
    disposition = q.disposition;
    reason = q.reason;
    evidence_refs = q.evidence_refs;
    residual_risk_owner = q.residual_risk_owner;
    obligation_id = q.obligation_id;
    accepted_residual_risk = q.accepted_residual_risk;
    exception_review_id = q.exception_review_id;
    action_id = action_id;
    recovery_plan_id = q.recovery_plan_id;
    viewed_revisions = viewed;
    workflow_version = suc viewed.workflow_version;
    viewed_workflow_version = viewed.workflow_version;
    check_ids = check_ids;
    action_ids = keys cycle.actions;
    recovery_plan_ids = keys cycle.recovery_plans;
    evidence_ids = evidence_ids;
    closed_at = m.now;
    closed_by = m.actor;
  }

  unfoldable pub close_episode :
      LoopCommand → ClosureRequest → EpisodeState → Result Raised EpisodeState
  close_episode m q state = do
    references ← refs q.evidence_refs
    check_closure q
    selected ← refs q.check_ids
    let request : ClosureRequest = record q { evidence_refs = references; check_ids = selected }
    viewed ← check_revisions m.expected_workflow_version m.viewed_revisions
    (loop, cycle) ← open_cycle m.episode_id m.cycle_id state
    found ← check_disposition request cycle
    let check_ids : List Text = elim selected [ [] ↦ keys cycle.checks | id ∷ ids ↦ id ∷ ids ]
    raise_if (not (all (λ id. has_key id cycle.checks) check_ids)) Raised.validation_failure
    evidence_ids ← refs (references ++ found.1)
    ok (
        closed_state viewed loop cycle
          (new_closure m request viewed cycle found.0 evidence_ids check_ids) state)
