-- ===== src/DecisionLoop/Returns.antt =====
-- What the commands that close, reopen and initialize a loop return
-- (src/ephi/application/decision_loop.py).
use ephi.Base.{
  Option, ℕ, ◌≡◌, true, false, not, some, List, [], ◌∷◌, ◌++◌, list_Eq, ℕ_eq, is_some, ok, ok_inj,
  >>=-returns, raise_if, or_raise, all, ◌||◌,
}
use ephi.Base.Text.{Text}
use ephi.Base.Dict.{has_key}
use ephi.Commands.Context.{Raised, RevisionVector}
use ephi.DecisionLoop.Model.{Closure, Cycle, LoopState, EpisodeState}
use ephi.DecisionLoop.State.{
  is_supported_work, is_work_closed, is_cycle_closed, active_cycle, state_object, open_cycle,
  check_identity, refs, check_revisions,
}
use ephi.DecisionLoop.Checks.{LoopCommand}
use ephi.DecisionLoop.Closing.{
  ClosureRequest, close_episode, closed_state, check_closure, check_disposition, keys,
}
use ephi.DecisionLoop.Reopening.{
  reopen_episode, reopened_state, initialize_decision_loop, new_loop, last_closure,
}
use ephi.DecisionLoop.Sound.{passes, when_not}

-- The state after a closure of the open cycle.
pub record IsClosing (m : LoopCommand) (q : ClosureRequest) (state out : EpisodeState)
    : Type 0 where
  pub references : List Text
  pub selected : List Text
  pub found : Option Text × List Text
  pub loop : LoopState
  pub cycle : Cycle
  pub viewed : RevisionVector
  pub closure : Closure
  pub opened : open_cycle m.episode_id m.cycle_id state ≡ ok (loop, cycle)
  pub allowed :
      check_disposition (record q { evidence_refs = references; check_ids = selected }) cycle
      ≡ ok found
  pub made : closed_state viewed loop cycle closure state ≡ out

-- The state after a reopening of a loop that is in order.
pub record IsReopening (hash : Text → Text → Text → ℕ → Text) (m : LoopCommand) (reason : Text)
    (state out : EpisodeState) : Type 0 where
  pub loop : LoopState
  pub previous : Cycle
  pub viewed : RevisionVector
  pub closure : Closure
  pub accepted : state_object m.episode_id state ≡ ok loop
  pub found : active_cycle m.cycle_id loop ≡ ok previous
  pub finished : is_cycle_closed previous.status ≡ true
  pub made : reopened_state hash m reason viewed loop previous closure state ≡ out

-- The state after a loop has been added.
pub record IsInitialized (m : LoopCommand) (state out : EpisodeState) : Type 0 where
  pub viewed : RevisionVector
  pub working :
      (is_work_closed state.work_state || not (is_supported_work state.work_state)) ≡ false
  pub owned : is_some state.owner ≡ true
  pub fresh : is_some state.decision_loop ≡ false
  pub made : record state { decision_loop = some (new_loop m viewed) } ≡ out

module _ (m : LoopCommand) (state : EpisodeState) {out : EpisodeState} where
  pub close_episode-IsClosing :
      (hash : LoopCommand → Cycle → ClosureRequest → List Text → List Text → Text)
      (q : ClosureRequest)
      → close_episode hash m q state ≡ ok out
      → IsClosing m q state out
  unfolding close_episode
  close_episode-IsClosing hash q q0 =
      let (references, _, q1) = >>=-returns (refs q.evidence_refs) _ q0 in
      let (_, _, q2) = >>=-returns (check_closure q) _ q1 in
      let (chosen, _, q3) = >>=-returns (refs q.check_ids) _ q2 in
      let request : ClosureRequest = record q { evidence_refs = references; check_ids = chosen } in
      let (viewed, _, q4) =
        >>=-returns (check_revisions m.expected_workflow_version m.viewed_revisions) _ q3 in
      let ((loop, cycle), opened, q5) =
        >>=-returns (open_cycle m.episode_id m.cycle_id state) _ q4 in
      let (found, allowed, q6) = >>=-returns (check_disposition request cycle) _ q5 in
      let check_ids : List Text = elim chosen [ [] ↦ keys cycle.checks | id ∷ ids ↦ id ∷ ids ] in
      let (_, _, q7) =
        >>=-returns
          (raise_if (not (all (λ id. has_key id cycle.checks) check_ids)) Raised.validation_failure)
          _ q6 in
      let (evidence_ids, _, q8) = >>=-returns (refs (references ++ found.1)) _ q7 in
      record {
        references = references;
        selected = chosen;
        found = found;
        allowed = allowed;
        loop = loop;
        cycle = cycle;
        viewed = viewed;
        closure = _;
        opened = opened;
        made = ok_inj q8;
      }

  pub reopen_episode-IsReopening :
      (hash : Text → Text → Text → ℕ → Text) (reason : Text)
      → reopen_episode hash m reason state ≡ ok out
      → IsReopening hash m reason state out
  unfolding reopen_episode
  reopen_episode-IsReopening hash reason q0 =
      let (_, _, q1) = >>=-returns (check_identity reason) _ q0 in
      let (viewed, _, q2) =
        >>=-returns (check_revisions m.expected_workflow_version m.viewed_revisions) _ q1 in
      let (loop, accepted, q3) = >>=-returns (state_object m.episode_id state) _ q2 in
      let (previous, found, q4) = >>=-returns (active_cycle m.cycle_id loop) _ q3 in
      let (finished, q5) =
        passes (not (is_cycle_closed previous.status)) Raised.invalid_transition _ q4 in
      let (closure, _, q6) =
        >>=-returns (or_raise (last_closure previous.closures) Raised.invalid_transition) _ q5 in
      record {
        loop = loop;
        previous = previous;
        viewed = viewed;
        closure = closure;
        accepted = accepted;
        found = found;
        finished = when_not (is_cycle_closed previous.status) finished;
        made = ok_inj q6;
      }

  pub initialize_decision_loop-IsInitialized :
      initialize_decision_loop m state ≡ ok out → IsInitialized m state out
  unfolding initialize_decision_loop
  initialize_decision_loop-IsInitialized q0 =
      let (_, _, q1) = >>=-returns (check_identity m.episode_id) _ q0 in
      let (_, _, q2) = >>=-returns (check_identity m.name) _ q1 in
      let (viewed, _, q3) =
        >>=-returns (check_revisions m.expected_workflow_version m.viewed_revisions) _ q2 in
      let (working, q4) =
        passes (is_work_closed state.work_state || not (is_supported_work state.work_state))
          Raised.invalid_transition _ q3 in
      let (owned, q5) = passes (not (is_some state.owner)) Raised.coherent_read_conflict _ q4 in
      let (fresh, q6) =
        passes (is_some state.decision_loop) Raised.invalid_transition
          (ok (record state { decision_loop = some (new_loop m viewed) })) q5 in
      record {
        viewed = viewed;
        working = working;
        owned = when_not (is_some state.owner) owned;
        fresh = fresh;
        made = ok_inj q6;
      }
