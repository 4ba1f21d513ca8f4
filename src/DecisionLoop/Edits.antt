-- ===== src/DecisionLoop/Edits.antt =====
-- The commands that change the open cycle: what they return, and the steps that its checks make
-- (src/ephi/application/decision_loop.py).
use ephi.Base.{
  ◌≡◌, refl, sym, Bool, true, false, not, Option, none, some, [], ◌==◌, list_Eq, ℕ_eq, is_some, inl,
  inr, ok, ok_inj, >>=-returns, raise_if, or_raise, ◌&&◌, Bool-cases, list_eq_iff,
}
use mathlib.Core.Path.{subst}
use ephi.Base.Text.{Text}
use ephi.Base.Dict.{Dict, lookup, insert, has_key, lookup-insert_self, lookup-insert_ne}
use ephi.Commands.Context.{Raised, RevisionVector}
use ephi.DecisionLoop.Model.{LoopCheck, Cycle, LoopState, EpisodeState, CheckLifecycle}
use ephi.DecisionLoop.State.{
  is_cycle_open, open_cycle, with_cycle, check_identity, check_optional_identity, refs,
  check_revisions,
}
use ephi.DecisionLoop.Checks.{
  LoopCommand, CheckRequest, Completion, request_check, change_check, start_check, complete_check,
  cancel_check, check_completion, new_check, started_check, completed_check, cancelled_check,
  is_requested, is_started, is_pending,
}
use ephi.DecisionLoop.Actions.{
  ActionRecord, Reconciliation, record_external_action, reconcile_external_action, check_action,
  is_outcome, is_unreconciled, is_state_unknown,
}
use ephi.DecisionLoop.Sound.{open_cycle-IsSound, passes, when_not, or_raise_inj}
use ephi.DecisionLoop.Commands.{IsInOrder, with_cycle-IsSound}

-- The life of a check: asked for, started, completed with a result, or cancelled before that.
pub data CheckStep : Option LoopCheck → Option LoopCheck → Type 0 where
  stays : {o : Option LoopCheck} → CheckStep o o
  asked : {c : LoopCheck} → c.status ≡ CheckLifecycle.requested → CheckStep none (some c)
  starts :
      {b c : LoopCheck}
      → b.status ≡ CheckLifecycle.requested
      → c.status ≡ CheckLifecycle.started
      → CheckStep (some b) (some c)
  completes :
      {b c : LoopCheck}
      → b.status ≡ CheckLifecycle.started
      → c.status ≡ CheckLifecycle.completed
      → is_some c.result ≡ true
      → CheckStep (some b) (some c)
  cancels :
      {b c : LoopCheck}
      → is_pending b.status ≡ true
      → c.status ≡ CheckLifecycle.cancelled
      → CheckStep (some b) (some c)

-- Each check of a cycle makes at most one step.
abbrev pub Evolves : Cycle → Cycle → Type 0
Evolves old new = (k : Text) → CheckStep (lookup k old.checks) (lookup k new.checks)

-- The state is the one before with its open cycle changed.
pub record IsEdit (m : LoopCommand) (state out : EpisodeState) : Type 0 where
  pub loop : LoopState
  pub cycle : Cycle
  pub new : Cycle
  pub viewed : RevisionVector
  pub opened : open_cycle m.episode_id m.cycle_id state ≡ ok (loop, cycle)
  pub same : new.cycle_id ≡ cycle.cycle_id
  pub status : new.status ≡ cycle.status
  pub evolves : Evolves cycle new
  pub made : with_cycle viewed loop new state ≡ out

pub IsEdit-IsInOrder :
    (m : LoopCommand) (state : EpisodeState) {out : EpisodeState}
    → IsEdit m state out
    → IsInOrder m.episode_id out
IsEdit-IsInOrder m state e =
    let sound = open_cycle-IsSound m.episode_id m.cycle_id state e.opened in
    subst (IsInOrder m.episode_id) e.made (
      with_cycle-IsSound m.episode_id state e.loop e.cycle e.viewed e.new sound e.same
        (subst (λ z. is_cycle_open z ≡ true) (sym e.status) sound.1))

-- A check that is put under a name makes a step, and the others stay.
insert-steps :
    (name : Text) (check : LoopCheck) (checks : Dict Text LoopCheck)
    → CheckStep (lookup name checks) (some check)
    → (k : Text) → CheckStep (lookup k checks) (lookup k (insert name check checks))
insert-steps name check checks step k = elim (Bool-cases (name == k)) [
  | inl here ↦
      let same : name ≡ k = (list_eq_iff name k).0 here in
      subst (λ z. CheckStep (lookup z checks) (lookup z (insert name check checks))) same
        (subst (CheckStep (lookup name checks)) (sym (lookup-insert_self name check checks)) step)
  | inr other ↦
      subst (CheckStep (lookup k checks)) (sym (lookup-insert_ne name k check checks other))
        (CheckStep.stays)
]

pub absent : {A : Type 0} (o : Option A) → is_some o ≡ false → o ≡ none
absent none h = refl
absent (some a) h = cc

is_requested_at : (s : CheckLifecycle) → is_requested s ≡ true → s ≡ CheckLifecycle.requested
unfolding is_requested
is_requested_at CheckLifecycle.requested h = refl
is_requested_at CheckLifecycle.started h = cc
is_requested_at CheckLifecycle.completed h = cc
is_requested_at CheckLifecycle.cancelled h = cc

is_started_at : (s : CheckLifecycle) → is_started s ≡ true → s ≡ CheckLifecycle.started
unfolding is_started
is_started_at CheckLifecycle.started h = refl
is_started_at CheckLifecycle.requested h = cc
is_started_at CheckLifecycle.completed h = cc
is_started_at CheckLifecycle.cancelled h = cc

module _ (m : LoopCommand) (state : EpisodeState) {out : EpisodeState} where
  pub request_check-IsEdit :
      (q : CheckRequest) → request_check m q state ≡ ok out → IsEdit m state out
  unfolding request_check new_check
  request_check-IsEdit q q0 =
      let (_, _, q1) = >>=-returns (check_identity m.name) _ q0 in
      let (_, _, q2) = >>=-returns (check_identity q.template_id) _ q1 in
      let (_, _, q3) = >>=-returns (check_identity q.template_version) _ q2 in
      let (capabilities, _, q4) = >>=-returns (refs q.required_capabilities) _ q3 in
      let (viewed, _, q5) =
        >>=-returns (check_revisions m.expected_workflow_version m.viewed_revisions) _ q4 in
      let ((loop, cycle), opened, q6) =
        >>=-returns (open_cycle m.episode_id m.cycle_id state) _ q5 in
      let request : CheckRequest = record q { required_capabilities = capabilities } in
      let (fresh, q7) = passes (has_key m.name cycle.checks) Raised.invalid_transition (ok _) q6 in
      record {
        loop = loop;
        cycle = cycle;
        new = _;
        viewed = viewed;
        opened = opened;
        same = refl;
        status = refl;
        evolves = insert-steps m.name _ cycle.checks (
            subst (λ z. CheckStep z (some (new_check m request cycle.cycle_id)))
              (sym (absent (lookup m.name cycle.checks) fresh)) (CheckStep.asked refl));
        made = ok_inj q7;
      }

  pub change_check-IsEdit :
      (allowed : CheckLifecycle → Bool) (change : LoopCheck → LoopCheck)
      → ((check : LoopCheck)
          → allowed check.status ≡ true
          → CheckStep (some check) (some (change check)))
      → change_check allowed change m state ≡ ok out
      → IsEdit m state out
  unfolding change_check
  change_check-IsEdit allowed change steps q0 =
      let (_, _, q1) = >>=-returns (check_identity m.name) _ q0 in
      let (viewed, _, q2) =
        >>=-returns (check_revisions m.expected_workflow_version m.viewed_revisions) _ q1 in
      let ((loop, cycle), opened, q3) =
        >>=-returns (open_cycle m.episode_id m.cycle_id state) _ q2 in
      let (check, there, q4) =
        >>=-returns (or_raise (lookup m.name cycle.checks) Raised.validation_failure) _ q3 in
      let (fit, q5) = passes (not (allowed check.status)) Raised.invalid_transition (ok _) q4 in
      record {
        loop = loop;
        cycle = cycle;
        new = _;
        viewed = viewed;
        opened = opened;
        same = refl;
        status = refl;
        evolves = insert-steps m.name _ cycle.checks (
            subst (λ z. CheckStep z (some (change check)))
              (sym (or_raise_inj (lookup m.name cycle.checks) _ there))
              (steps check (when_not (allowed check.status) fit)));
        made = ok_inj q5;
      }

  pub start_check-IsEdit : start_check m state ≡ ok out → IsEdit m state out
  unfolding start_check started_check
  start_check-IsEdit =
      change_check-IsEdit is_requested (started_check m)
        (λ check h. CheckStep.starts (is_requested_at check.status h) refl)

  pub cancel_check-IsEdit : cancel_check m state ≡ ok out → IsEdit m state out
  unfolding cancel_check cancelled_check
  cancel_check-IsEdit =
      change_check-IsEdit is_pending (cancelled_check m) (λ check h. CheckStep.cancels h refl)

  pub complete_check-IsEdit :
      (hash : Text → Completion → Text) (c : Completion)
      → complete_check hash m c state ≡ ok out
      → IsEdit m state out
  unfolding complete_check completed_check
  complete_check-IsEdit hash c q0 =
      let (references, _, q1) = >>=-returns (refs c.evidence_refs) _ q0 in
      let completion : Completion = record c { evidence_refs = references } in
      let (_, _, q2) = >>=-returns (check_completion completion) _ q1 in
      change_check-IsEdit is_started (completed_check hash m completion)
        (λ check h. CheckStep.completes (is_started_at check.status h) refl refl) q2

  pub record_external_action-IsEdit :
      (a : ActionRecord) → record_external_action m a state ≡ ok out → IsEdit m state out
  unfolding record_external_action
  record_external_action-IsEdit a q0 =
      let (_, _, q1) = >>=-returns (check_identity m.name) _ q0 in
      let (references, _, q2) = >>=-returns (refs a.evidence_refs) _ q1 in
      let (_, _, q3) = >>=-returns (check_action (record a { evidence_refs = references })) _ q2 in
      let (viewed, _, q4) =
        >>=-returns (check_revisions m.expected_workflow_version m.viewed_revisions) _ q3 in
      let ((loop, cycle), opened, q5) =
        >>=-returns (open_cycle m.episode_id m.cycle_id state) _ q4 in
      let (_, _, q6) =
        >>=-returns (raise_if (has_key m.name cycle.actions) Raised.invalid_transition) _ q5 in
      record {
        loop = loop;
        cycle = cycle;
        new = _;
        viewed = viewed;
        opened = opened;
        same = refl;
        status = refl;
        evolves = λ k. CheckStep.stays;
        made = ok_inj q6;
      }

  pub reconcile_external_action-IsEdit :
      (r : Reconciliation) → reconcile_external_action m r state ≡ ok out → IsEdit m state out
  unfolding reconcile_external_action
  reconcile_external_action-IsEdit r q0 =
      let (_, _, q1) = >>=-returns (check_identity m.name) _ q0 in
      let (references, _, q2) = >>=-returns (refs r.evidence_refs) _ q1 in
      let (_, _, q3) =
        >>=-returns
          (raise_if (is_outcome r.reconciliation_state && (references == []))
            Raised.validation_failure)
          _ q2 in
      let (_, _, q4) = >>=-returns (check_optional_identity r.external_reference) _ q3 in
      let (viewed, _, q5) =
        >>=-returns (check_revisions m.expected_workflow_version m.viewed_revisions) _ q4 in
      let ((loop, cycle), opened, q6) =
        >>=-returns (open_cycle m.episode_id m.cycle_id state) _ q5 in
      let (action, _, q7) =
        >>=-returns (or_raise (lookup m.name cycle.actions) Raised.validation_failure) _ q6 in
      let (_, _, q8) =
        >>=-returns
          (raise_if (not (is_unreconciled action.reconciliation_state)) Raised.invalid_transition) _
          q7 in
      let (_, _, q9) =
        >>=-returns (raise_if (is_state_unknown r.reconciliation_state) Raised.invalid_transition) _
          q8 in
      record {
        loop = loop;
        cycle = cycle;
        new = _;
        viewed = viewed;
        opened = opened;
        same = refl;
        status = refl;
        evolves = λ k. CheckStep.stays;
        made = ok_inj q9;
      }
