-- ===== src/DecisionLoop/Reopening.antt =====
-- `initialize_decision_loop` and `reopen_episode` of src/ephi/application/decision_loop.py, and the search
-- for the name of the cycle that a reopening adds.
use ephi.Base.{
  ℕ, zero, suc, true, false, ◌||◌, not, Option, none, some, List, [], ◌∷◌, ◌++◌, list_Eq, option_Eq,
  ℕ_eq, is_some, ltb, length, Result, ok, ◌>>=◌, ◌>>◌, raise_if, or_raise, if◌then◌else◌,
}
use ephi.Base.Decimal.{decimal}
use ephi.Base.Text.{Text, codes}
use ephi.Base.Sort.{any}
use ephi.Commands.Context.{Raised, RevisionVector}
use ephi.DecisionLoop.Model.{WorkState, CycleStatus, Closure, Cycle, LoopState, EpisodeState}
use ephi.DecisionLoop.State.{
  active_cycle, is_work_closed, is_supported_work, schema_version, state_object,
  post_commit_revision, is_cycle_closed, has_cycle_id, check_identity, check_revisions,
}
use ephi.DecisionLoop.Checks.{LoopCommand}

-- `f"{episode_id}:cycle-{cycle_version}"`
abbrev pub cycle_name : Text → ℕ → Text
cycle_name episode_id version = episode_id ++ (codes ":cycle-" ++ decimal version)

-- The `while` loop that looks for a version whose name is not taken.
unfoldable pub free_version : ℕ → Text → List Cycle → ℕ → ℕ
free_version zero episode_id cycles version = version
free_version (suc fuel) episode_id cycles version =
    elim (any (has_cycle_id (cycle_name episode_id version)) cycles) [
      | true ↦ free_version fuel episode_id cycles (suc version)
      | false ↦ version
    ]

-- `max(…)` of the versions.
unfoldable pub last_version : List Cycle → ℕ
last_version [] = 0
last_version (c ∷ cs) =
    let rest = last_version cs in if ltb rest c.cycle_version then c.cycle_version else rest

unfoldable pub empty_cycle : Text → ℕ → ℕ → Cycle
empty_cycle cycle_id version opened_at = record {
  cycle_id = cycle_id;
  cycle_version = version;
  status = CycleStatus.is_open;
  opened_at = opened_at;
  checks = [];
  actions = [];
  recovery_plans = [];
  closures = [];
}

-- The last of a cycle's closures.
unfoldable pub last_closure : List Closure → Option Closure
last_closure [] = none
last_closure (c ∷ cs) = elim (last_closure cs) [ none ↦ some c | some d ↦ some d ]

module _ (hash : Text → Text → Text → ℕ → Text) where
  -- The state after a reopening.
  unfoldable pub reopened_state :
      LoopCommand
      → Text
      → RevisionVector
      → LoopState
      → Cycle
      → Closure
      → EpisodeState
      → EpisodeState
  reopened_state m reason viewed loop previous closure state =
      let version =
        free_version (suc (length loop.cycles)) m.episode_id loop.cycles
          (suc (last_version loop.cycles)) in
      let name = cycle_name m.episode_id version in
      record {
        work_state = WorkState.is_open;
        owner = some none;
        decision_loop = some (record loop {
          cycles = loop.cycles ++ (empty_cycle name version m.now ∷ []);
          active_cycle_id = name;
          last_viewed_revisions = some (post_commit_revision viewed);
          reopen_history =
              loop.reopen_history
              ++ (record {
                reopen_identity = hash m.episode_id previous.cycle_id name m.now;
                from_cycle_id = previous.cycle_id;
                from_closure_identity = closure.closure_identity;
                to_cycle_id = name;
                reason = reason;
                reopened_at = m.now;
                reopened_by = m.actor;
                owner_before_reset = elim state.owner [ none ↦ none | some owner ↦ owner ];
                owner_after_reset = none;
                viewed_revisions = viewed;
              }
                  ∷ []);
        });
      }

  unfoldable pub reopen_episode : LoopCommand → Text → EpisodeState → Result Raised EpisodeState
  reopen_episode m reason state = do
    check_identity reason
    viewed ← check_revisions m.expected_workflow_version m.viewed_revisions
    loop ← state_object m.episode_id state
    previous ← active_cycle m.cycle_id loop
    raise_if (not (is_cycle_closed previous.status)) Raised.invalid_transition
    closure ← or_raise (last_closure previous.closures) Raised.invalid_transition
    ok (reopened_state m reason viewed loop previous closure state)

-- The loop that `_new_state` adds to a workflow.
unfoldable pub new_loop : LoopCommand → RevisionVector → LoopState
new_loop m viewed = record {
  schema_version = schema_version;
  episode_id = m.episode_id;
  active_cycle_id = m.name;
  last_viewed_revisions = some (post_commit_revision viewed);
  cycles = empty_cycle m.name 1 m.now ∷ [];
  reopen_history = [];
  last_closure_identity = none;
}

-- `initialize_decision_loop`; the name is the first cycle's.
unfoldable pub initialize_decision_loop : LoopCommand → EpisodeState → Result Raised EpisodeState
initialize_decision_loop m state = do
  check_identity m.episode_id
  check_identity m.name
  viewed ← check_revisions m.expected_workflow_version m.viewed_revisions
  raise_if (is_work_closed state.work_state || not (is_supported_work state.work_state))
      Raised.invalid_transition
  raise_if (not (is_some state.owner)) Raised.coherent_read_conflict
  raise_if (is_some state.decision_loop) Raised.invalid_transition
  ok (record state { decision_loop = some (new_loop m viewed) })
