-- ===== src/DecisionLoop/Tests.antt =====
-- The decision loop on concrete episodes (src/ephi/application/decision_loop.py).
use ephi.Base.{
  list_eq, contains, suc, find, ℕ, ◌≡◌, refl, true, false, none, some, List, [], ◌∷◌, length,
  Result, ok, err,
}
use ephi.Base.Decimal.{digits_onto}
use ephi.Base.Text.{is_canonical, Text, codes}
use ephi.Base.Sort.{sort_by, any}
use ephi.Base.Dict.{insert, lookup}
use ephi.Commands.Context.{Raised, RevisionVector}
use ephi.Planner.Templates.{CheckExecutionMode}
use ephi.DecisionLoop.Model.{WorkState, ClosureDisposition, Cycle, LoopState, EpisodeState}
use ephi.DecisionLoop.State.{
  open_cycle, active_cycle, refs, refs_onto, check_revisions, with_cycle, put_cycle,
  is_supported_work, is_work_closed, is_supported_cycle, is_cycle_open, is_cycle_closed,
  post_commit_revision, has_cycle_id, state_object,
}
use ephi.DecisionLoop.Checks.{
  start_check, change_check, request_check, new_check, started_check, is_requested, history_item,
  LoopCommand, CheckRequest,
}
use ephi.DecisionLoop.Closing.{
  close_episode, check_closure, check_disposition, closed_state, new_closure, ClosureRequest,
}
use ephi.DecisionLoop.Reopening.{
  cycle_name, initialize_decision_loop, new_loop, reopen_episode, reopened_state, last_closure,
  last_version, free_version, empty_cycle,
}
use ephi.DecisionLoop.Versions.{free_version-IsFree}
use ephi.DecisionLoop.Commands.{LoopHashes, LoopOperation, apply, perform}
use ephi.DecisionLoop.Edits.{CheckStep}
use ephi.DecisionLoop.InOrder.{apply-IsAccepted}
use ephi.DecisionLoop.Lifecycle.{check_of, apply-CheckStep}
use ephi.DecisionLoop.Work.{Moves, is_closing, is_reopening, apply-Moves}

abbrev pub hashes : LoopHashes
hashes = record {
  completion = λ name c. name;
  closure = λ m cycle q evidence_ids check_ids. cycle.cycle_id;
  reopening = λ episode_id from to now. to;
}

abbrev pub revisions : ℕ → RevisionVector
revisions n = record {
  analysis_revision = codes "a";
  exposure_revision = none;
  priority_revision = none;
  workflow_version = n;
  plan_version = none;
  qualification_manifest_id = codes "q";
}

abbrev pub command : ℕ → Text → LoopCommand
command version name = record {
  actor = codes "u";
  now = version;
  later = version;
  episode_id = codes "e";
  name = name;
  cycle_id = none;
  expected_workflow_version = some version;
  viewed_revisions = some (revisions version);
}

abbrev claimed_episode : EpisodeState
claimed_episode = record {
  work_state = WorkState.is_claimed;
  owner = some (some (codes "u"));
  decision_loop = none;
}

abbrev a_request : CheckRequest
a_request = record {
  template_id = codes "t";
  template_version = codes "1";
  execution_mode = CheckExecutionMode.read_existing;
  required_capabilities = codes "x" ∷ (codes "x" ∷ []);
  prerequisite_state = [];
  target_context = [];
}

abbrev a_closure : ClosureRequest
a_closure = record {
  disposition = ClosureDisposition.benign;
  evidence_refs = codes "r" ∷ [];
  reason = none;
  residual_risk_owner = none;
  obligation_id = none;
  accepted_residual_risk = false;
  exception_review_id = none;
  recovery_plan_id = none;
  check_ids = [];
}

-- A run: a state or the first error.
abbrev result_state : Result Raised EpisodeState → EpisodeState → EpisodeState
result_state (ok state) other = state
result_state (err e) other = other

abbrev started_loop : EpisodeState
started_loop =
    result_state
      (apply hashes (command 3 (codes "e:cycle-2")) LoopOperation.initialize claimed_episode)
      claimed_episode

abbrev with_request : EpisodeState
with_request =
    result_state
      (apply hashes (command 4 (codes "k")) (LoopOperation.request a_request) started_loop)
      claimed_episode

abbrev with_start : EpisodeState
with_start =
    result_state (apply hashes (command 5 (codes "k")) LoopOperation.start with_request)
      claimed_episode

abbrev with_closure : EpisodeState
with_closure =
    result_state (apply hashes (command 6 (codes "k")) (LoopOperation.close a_closure) with_start)
      claimed_episode

abbrev with_reopening : EpisodeState
with_reopening =
    result_state
      (apply hashes (command 7 (codes "k")) (LoopOperation.reopen (codes "again")) with_closure)
      claimed_episode

start_runs : apply hashes (command 5 (codes "k")) LoopOperation.start with_request ≡ ok with_start
unfolding apply perform list_eq contains start_check change_check request_check
    initialize_decision_loop state_object open_cycle active_cycle is_canonical refs refs_onto
    check_revisions with_cycle put_cycle new_check started_check is_requested insert lookup find
    is_supported_work is_work_closed is_supported_cycle is_cycle_open is_cycle_closed new_loop
    empty_cycle post_commit_revision history_item
start_runs = refl

reopening_runs :
    apply hashes (command 7 (codes "k")) (LoopOperation.reopen (codes "again")) with_closure
    ≡ ok with_reopening
unfolding apply perform list_eq contains start_check change_check request_check
    initialize_decision_loop state_object open_cycle active_cycle is_canonical refs refs_onto
    check_revisions with_cycle put_cycle new_check started_check is_requested insert lookup find
    is_supported_work is_work_closed is_supported_cycle is_cycle_open is_cycle_closed new_loop
    empty_cycle post_commit_revision history_item close_episode check_closure check_disposition
    closed_state new_closure sort_by reopen_episode reopened_state last_closure free_version
    last_version digits_onto any
reopening_runs = refl

apply-IsAccepted_example : (loop : LoopState) × (state_object (codes "e") with_reopening ≡ ok loop)
apply-IsAccepted_example =
    apply-IsAccepted (command 7 (codes "k")) with_closure hashes
      (LoopOperation.reopen (codes "again")) reopening_runs

apply-Moves_example : Moves true false with_closure with_reopening
unfolding is_closing is_reopening
apply-Moves_example =
    apply-Moves (command 7 (codes "k")) with_closure hashes (LoopOperation.reopen (codes "again"))
      reopening_runs

apply-CheckStep_example :
    CheckStep
      (check_of (codes "e:cycle-2") (codes "k") with_request)
      (check_of (codes "e:cycle-2") (codes "k") with_start)
apply-CheckStep_example =
    apply-CheckStep (command 5 (codes "k")) with_request (codes "e:cycle-2") (codes "k") hashes
      LoopOperation.start start_runs

-- The name of the version after 1 is taken.
abbrev named_cycles : List Cycle
named_cycles = empty_cycle (codes "e:cycle-2") 1 3 ∷ []

free_version-IsFree_example :
    any
      (has_cycle_id (
        cycle_name
          (codes "e")
          (free_version (suc (length named_cycles)) (codes "e") named_cycles 2)))
      named_cycles
    ≡ false
free_version-IsFree_example = free_version-IsFree (codes "e") named_cycles 2
