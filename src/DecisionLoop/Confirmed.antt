-- ===== src/DecisionLoop/Confirmed.antt =====
-- What the closure of a confirmed issue rests on (`close_episode` of src/ephi/application/decision_loop.py).
use ephi.Base.{
  ◌≡◌, Bool, true, false, not, Option, some, List, [], ◌==◌, list_Eq, ℕ_eq, ok, >>=-returns,
  or_raise, ◌||◌, arith,
}
use ephi.Base.Text.{Text}
use ephi.Base.Dict.{lookup}
use ephi.Commands.Context.{Raised}
use ephi.DecisionLoop.Model.{
  ClosureDisposition, RecoveryPlan, LoopAction, Cycle, LoopState, EpisodeState,
}
use ephi.DecisionLoop.State.{open_cycle}
use ephi.DecisionLoop.Checks.{LoopCommand}
use ephi.DecisionLoop.Closing.{
  ClosureRequest, close_episode, check_disposition, has_observed_effect, is_pass, recovery_evidence,
}
use ephi.DecisionLoop.Sound.{passes, when_not, or_raise_inj}
use ephi.DecisionLoop.Returns.{close_episode-IsClosing}

-- A locked plan of the cycle has passed, its action in the cycle has an observed effect, and evidence
-- from after the action is there.
pub record IsConfirmed (named : Option Text) (cycle : Cycle) : Type 0 where
  pub plan_id : Text
  pub action_id : Text
  pub plan : RecoveryPlan
  pub action : LoopAction
  pub asked : named ≡ some plan_id
  pub there : lookup plan_id cycle.recovery_plans ≡ some plan
  pub own : (plan.cycle_id == cycle.cycle_id) ≡ true
  pub passed : is_pass plan.state ≡ true
  pub locked : plan.locked ≡ true
  pub bound : plan.prior_action_id ≡ some action_id
  pub acted : lookup action_id cycle.actions ≡ some action
  pub joined : (action.cycle_id == cycle.cycle_id) ≡ true
  pub observed : has_observed_effect action ≡ true
  pub evidenced : (recovery_evidence plan.assessments == []) ≡ false

first_held : (a b : Bool) → (not a || not b) ≡ false → a ≡ true
first_held a b h = ground arith

second_held : (a b : Bool) → (not a || not b) ≡ false → b ≡ true
second_held a b h = ground arith

check_disposition-IsConfirmed :
    (q : ClosureRequest) (cycle : Cycle) {found : Option Text × List Text}
    → q.disposition ≡ ClosureDisposition.confirmed_issue
    → check_disposition q cycle ≡ ok found
    → IsConfirmed q.recovery_plan_id cycle
unfolding check_disposition
check_disposition-IsConfirmed q cycle {found} e h =
    let invalid = Raised.invalid_transition in
    let (plan_id, asked, q1) =
      >>=-returns (or_raise q.recovery_plan_id Raised.validation_failure) _ (rw e at h) in
    let (plan, there, q2) =
      >>=-returns (or_raise (lookup plan_id cycle.recovery_plans) Raised.validation_failure) _ q1 in
    let (own, q3) = passes (not (plan.cycle_id == cycle.cycle_id)) invalid _ q2 in
    let (passed, q4) = passes (not (is_pass plan.state) || not plan.locked) invalid _ q3 in
    let (action_id, bound, q5) = >>=-returns (or_raise plan.prior_action_id invalid) _ q4 in
    let (action, acted, q6) =
      >>=-returns (or_raise (lookup action_id cycle.actions) invalid) _ q5 in
    let (joined, q7) = passes (not (action.cycle_id == cycle.cycle_id)) invalid _ q6 in
    let (observed, q8) = passes (not (has_observed_effect action)) invalid _ q7 in
    let (evidenced, _) =
      passes (recovery_evidence plan.assessments == []) invalid
        (ok (some action_id, recovery_evidence plan.assessments)) q8 in
    record {
      plan_id = plan_id;
      action_id = action_id;
      plan = plan;
      action = action;
      asked = or_raise_inj q.recovery_plan_id Raised.validation_failure asked;
      there = or_raise_inj (lookup plan_id cycle.recovery_plans) Raised.validation_failure there;
      own = when_not _ own;
      passed = first_held (is_pass plan.state) plan.locked passed;
      locked = second_held (is_pass plan.state) plan.locked passed;
      bound = or_raise_inj plan.prior_action_id invalid bound;
      acted = or_raise_inj (lookup action_id cycle.actions) invalid acted;
      joined = when_not _ joined;
      observed = when_not _ observed;
      evidenced = evidenced;
    }

module _ (m : LoopCommand) (state : EpisodeState) {out : EpisodeState} where
  -- When an episode is closed as a confirmed issue, the plan that the request names is in the open cycle
  -- that is closed, is locked and has passed, the action that it is bound to is in that cycle and has an
  -- observed effect, and it has recovery evidence from after the action.
  pub close_episode-IsConfirmed :
      (hash : LoopCommand → Cycle → ClosureRequest → List Text → List Text → Text)
      (q : ClosureRequest)
      → close_episode hash m q state ≡ ok out
      → q.disposition ≡ ClosureDisposition.confirmed_issue
      → (loop : LoopState) × ((cycle : Cycle) × ((open_cycle m.episode_id m.cycle_id state
              ≡ ok (loop, cycle))
            × IsConfirmed q.recovery_plan_id cycle))
  close_episode-IsConfirmed hash q h e =
      let c = close_episode-IsClosing m state hash q h in
      let request : ClosureRequest = record q {
        evidence_refs = c.references;
        check_ids = c.selected;
      } in
      (c.loop, (c.cycle, (c.opened, check_disposition-IsConfirmed request c.cycle e c.allowed)))
