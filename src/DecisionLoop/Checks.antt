-- ===== src/DecisionLoop/Checks.antt =====
-- The commands on checks: `request_check`, `start_check`, `complete_check` and `cancel_check` of
-- src/ephi/application/decision_loop.py, as effects on the state of the episode.
use ephi.Base.{
  ℕ, Bool, true, false, ◌&&◌, ◌||◌, not, Option, none, some, List, [], ◌∷◌, ◌++◌, ◌==◌, list_Eq,
  ℕ_eq, ltb, Result, ok, ◌>>=◌, ◌>>◌, raise_if, or_raise,
}
use ephi.Base.Text.{Text, is_canonical}
use ephi.Base.Dict.{lookup, insert, has_key}
use ephi.Commands.Context.{Raised, RevisionVector}
use ephi.Planner.Templates.{CheckExecutionMode}
use ephi.DecisionLoop.Model.{
  CheckLifecycle, CheckOutcome, HistoryItem, CheckResult, LoopCheck, Cycle, EpisodeState,
}
use ephi.DecisionLoop.State.{open_cycle, with_cycle, check_identity, refs, check_revisions}

unfoldable pub is_requested : CheckLifecycle → Bool
is_requested CheckLifecycle.requested = true
is_requested _ = false

unfoldable pub is_started : CheckLifecycle → Bool
is_started CheckLifecycle.started = true
is_started _ = false

unfoldable pub is_affirmative : CheckOutcome → Bool
is_affirmative CheckOutcome.supports_a = true
is_affirmative CheckOutcome.supports_b = true
is_affirmative _ = false

-- What every command of the loop is given: the actor, the clock's first two readings in the effect, the episode,
-- the name of its object, the cycle that is asked for, and the context's version and viewed revisions.
pub record LoopCommand : Type 0 where
  pub actor : Text
  pub now : ℕ
  pub later : ℕ
  pub episode_id : Text
  pub name : Text
  pub cycle_id : Option Text
  pub expected_workflow_version : Option ℕ
  pub viewed_revisions : Option RevisionVector

pub record CheckRequest : Type 0 where
  pub template_id : Text
  pub template_version : Text
  pub execution_mode : CheckExecutionMode
  pub required_capabilities : List Text
  pub prerequisite_state : Text
  pub target_context : Text

unfoldable pub history_item : {S : Type 0} → S → LoopCommand → Option Text → HistoryItem S
history_item status m detail = record {
  status = status;
  actor = m.actor;
  at = m.now;
  detail = detail;
  recorded_at = none;
}

unfoldable pub new_check : LoopCommand → CheckRequest → Text → LoopCheck
new_check m q cycle_id = record {
  check_id = m.name;
  episode_id = m.episode_id;
  cycle_id = cycle_id;
  template_id = q.template_id;
  template_version = q.template_version;
  execution_mode = q.execution_mode;
  required_capabilities = q.required_capabilities;
  prerequisite_state = q.prerequisite_state;
  target_context = q.target_context;
  status = CheckLifecycle.requested;
  requested_at = m.now;
  started_at = none;
  completed_at = none;
  cancelled_at = none;
  result = none;
  completion_history = [];
  history = history_item CheckLifecycle.requested m none ∷ [];
}

abbrev pub with_check : Text → LoopCheck → Cycle → Cycle
with_check name check cycle = record cycle { checks = insert name check cycle.checks }

unfoldable pub request_check :
    LoopCommand → CheckRequest → EpisodeState → Result Raised EpisodeState
request_check m q state = do
  check_identity m.name
  check_identity q.template_id
  check_identity q.template_version
  capabilities ← refs q.required_capabilities
  viewed ← check_revisions m.expected_workflow_version m.viewed_revisions
  (loop, cycle) ← open_cycle m.episode_id m.cycle_id state
  raise_if (has_key m.name cycle.checks) Raised.invalid_transition
  let request : CheckRequest = record q { required_capabilities = capabilities }
  ok (with_cycle viewed loop (with_check m.name (new_check m request cycle.cycle_id) cycle) state)

-- The part that the commands on a check that is there share: it is found, its status is allowed, and
-- it is changed.
unfoldable pub change_check :
    (CheckLifecycle → Bool)
    → (LoopCheck → LoopCheck)
    → LoopCommand
    → EpisodeState
    → Result Raised EpisodeState
change_check allowed change m state = do
  check_identity m.name
  viewed ← check_revisions m.expected_workflow_version m.viewed_revisions
  (loop, cycle) ← open_cycle m.episode_id m.cycle_id state
  check ← or_raise (lookup m.name cycle.checks) Raised.validation_failure
  raise_if (not (allowed check.status)) Raised.invalid_transition
  ok (with_cycle viewed loop (with_check m.name (change check) cycle) state)

unfoldable pub started_check : LoopCommand → LoopCheck → LoopCheck
started_check m check = record check {
  status = CheckLifecycle.started;
  started_at = some m.now;
  history = check.history ++ (history_item CheckLifecycle.started m none ∷ []);
}

unfoldable pub start_check : LoopCommand → EpisodeState → Result Raised EpisodeState
start_check m = change_check is_requested (started_check m) m

pub record Completion : Type 0 where
  pub outcome : CheckOutcome
  pub evidence_refs : List Text
  pub known_at : Option ℕ
  pub published_at : Option ℕ
  pub result_identity : Option Text

-- The checks of the arguments of `complete_check`.
unfoldable pub check_completion : Completion → Result Raised (Unit {0})
check_completion c = do
  raise_if (is_affirmative c.outcome && (c.evidence_refs == [])) Raised.validation_failure
  raise_if
      (elim c.known_at [
        | none ↦ false
        | some known ↦ elim c.published_at [ none ↦ false | some published ↦ ltb published known ]
      ])
      Raised.validation_failure
  raise_if (elim c.result_identity [ none ↦ false | some id ↦ not (is_canonical id) ])
      Raised.validation_failure

-- The hash of the canonical JSON of a completion is a parameter.
module _ (hash : Text → Completion → Text) where
  unfoldable pub check_result : LoopCommand → Completion → CheckResult
  check_result m c = record {
    result_identity = elim c.result_identity [ none ↦ hash m.name c | some identity ↦ identity ];
    outcome = c.outcome;
    affirmative = is_affirmative c.outcome;
    evidence_refs = c.evidence_refs;
    known_at = c.known_at;
    published_at = c.published_at;
    completed_at = m.now;
  }

  unfoldable pub completed_check : LoopCommand → Completion → LoopCheck → LoopCheck
  completed_check m c check =
      let result = check_result m c in
      record check {
        status = CheckLifecycle.completed;
        completed_at = some m.now;
        result = some result;
        completion_history = check.completion_history ++ (result ∷ []);
        history =
            check.history
            ++ (history_item CheckLifecycle.completed m (some result.result_identity) ∷ []);
      }

  unfoldable pub complete_check :
      LoopCommand → Completion → EpisodeState → Result Raised EpisodeState
  complete_check m c state = do
    references ← refs c.evidence_refs
    let completion : Completion = record c { evidence_refs = references }
    check_completion completion
    change_check is_started (completed_check m completion) m state

abbrev pub is_pending : CheckLifecycle → Bool
is_pending status = is_requested status || is_started status

unfoldable pub cancelled_check : LoopCommand → LoopCheck → LoopCheck
cancelled_check m check = record check {
  status = CheckLifecycle.cancelled;
  cancelled_at = some m.now;
  history = check.history ++ (history_item CheckLifecycle.cancelled m none ∷ []);
}

unfoldable pub cancel_check : LoopCommand → EpisodeState → Result Raised EpisodeState
cancel_check m = change_check is_pending (cancelled_check m) m
