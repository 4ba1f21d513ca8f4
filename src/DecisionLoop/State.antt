-- ===== src/DecisionLoop/State.antt =====
-- Reading the state of a decision loop: `_state_object`, `_active_cycle`, `_require_open` of
-- src/ephi/application/decision_loop.py, and writing it back.
use ephi.Base.{
  ℕ, suc, Bool, true, false, ◌&&◌, ◌||◌, not, Option, none, some, List, [], ◌∷◌, ◌++◌, nat_eq,
  contains, ◌==◌, list_Eq, ℕ_eq, find, is_some, Result, ok, ◌>>=◌, ◌>>◌, raise_if, or_raise,
  if◌then◌else◌,
}
use ephi.Base.Text.{Text, codes, is_canonical}
use ephi.Commands.Context.{Raised, RevisionVector}
use ephi.DecisionLoop.Model.{WorkState, CycleStatus, Cycle, LoopState, EpisodeState}

unfoldable pub is_supported_work : WorkState → Bool
is_supported_work WorkState.is_other = false
is_supported_work _ = true

unfoldable pub is_work_closed : WorkState → Bool
is_work_closed WorkState.is_closed = true
is_work_closed _ = false

unfoldable pub is_supported_cycle : CycleStatus → Bool
is_supported_cycle CycleStatus.is_other = false
is_supported_cycle _ = true

unfoldable pub is_cycle_closed : CycleStatus → Bool
is_cycle_closed CycleStatus.is_closed = true
is_cycle_closed _ = false

unfoldable pub is_cycle_open : CycleStatus → Bool
is_cycle_open CycleStatus.is_open = true
is_cycle_open _ = false

abbrev pub has_cycle_id : Text → Cycle → Bool
has_cycle_id id cycle = cycle.cycle_id == id

-- `_active_cycle`
unfoldable pub active_cycle : Option Text → LoopState → Result Raised Cycle
active_cycle asked loop = do
  raise_if (elim asked [ none ↦ false | some id ↦ not (id == loop.active_cycle_id) ])
      Raised.invalid_transition
  cycle ←
      or_raise (find (has_cycle_id loop.active_cycle_id) loop.cycles) Raised.coherent_read_conflict
  raise_if (not (is_supported_cycle cycle.status)) Raised.coherent_read_conflict
  ok cycle

-- `DECISION_LOOP_SCHEMA_VERSION`
abbrev pub schema_version : Text
schema_version = codes "o5.1.v1"

-- `_state_object`: the loop of a state that is in order.
unfoldable pub state_object : Text → EpisodeState → Result Raised LoopState
state_object episode_id state = do
  raise_if (not (is_supported_work state.work_state)) Raised.coherent_read_conflict
  raise_if (not (is_some state.owner)) Raised.coherent_read_conflict
  loop ← or_raise state.decision_loop Raised.coherent_read_conflict
  raise_if (not (loop.schema_version == schema_version) || not (loop.episode_id == episode_id))
      Raised.coherent_read_conflict
  raise_if (elim loop.cycles [ [] ↦ true | _ ∷ _ ↦ false ]) Raised.coherent_read_conflict
  active ← active_cycle none loop
  raise_if (is_work_closed state.work_state && not (is_cycle_closed active.status))
      Raised.coherent_read_conflict
  raise_if (not (is_work_closed state.work_state) && not (is_cycle_open active.status))
      Raised.coherent_read_conflict
  ok loop

-- The start of an effect on an open cycle: `_state_object`, `_active_cycle`, `_require_open`.
unfoldable pub open_cycle : Text → Option Text → EpisodeState → Result Raised (LoopState × Cycle)
open_cycle episode_id asked state = do
  loop ← state_object episode_id state
  cycle ← active_cycle asked loop
  raise_if (not (is_cycle_open cycle.status)) Raised.invalid_transition
  ok (loop, cycle)

-- `_post_commit_revision`
unfoldable pub post_commit_revision : RevisionVector → RevisionVector
post_commit_revision viewed = record viewed { workflow_version = suc viewed.workflow_version }

-- The cycle that was read, the first of its identity, is changed in place.
unfoldable pub put_cycle : Cycle → List Cycle → List Cycle
put_cycle cycle [] = []
put_cycle cycle (c ∷ cs) =
    if has_cycle_id cycle.cycle_id c then cycle ∷ cs else c ∷ put_cycle cycle cs

-- The end of an effect that changed a cycle.
unfoldable pub with_cycle : RevisionVector → LoopState → Cycle → EpisodeState → EpisodeState
with_cycle viewed loop cycle state = record state {
  decision_loop = some (record loop {
    cycles = put_cycle cycle loop.cycles;
    last_viewed_revisions = some (post_commit_revision viewed);
  });
}

-- `_identity` of an argument.
abbrev pub check_identity : Text → Result Raised (Unit {0})
check_identity value = raise_if (not (is_canonical value)) Raised.validation_failure

abbrev pub check_optional_identity : Option Text → Result Raised (Unit {0})
check_optional_identity none = ok tt
check_optional_identity (some value) = check_identity value

unfoldable pub refs_onto : List Text → List Text → Result Raised (List Text)
refs_onto result [] = ok result
refs_onto result (item ∷ items) = do
  check_identity item
  refs_onto (if contains item result then result else result ++ (item ∷ [])) items

-- `_refs`: canonical, and each once.
unfoldable pub refs : List Text → Result Raised (List Text)
refs = refs_onto []

-- `_revision_payload` of a command on a loop that exists.
unfoldable pub check_revisions : Option ℕ → Option RevisionVector → Result Raised RevisionVector
check_revisions expected viewed = do
  version ← or_raise expected Raised.validation_failure
  revisions ← or_raise viewed Raised.validation_failure
  raise_if (not (nat_eq revisions.workflow_version version)) Raised.validation_failure
  ok revisions
