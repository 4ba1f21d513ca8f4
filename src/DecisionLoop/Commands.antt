-- ===== src/DecisionLoop/Commands.antt =====
-- The commands of a decision loop as one function, and the order that an effect keeps
-- (src/ephi/application/decision_loop.py).
use ephi.Base.{ℕ, ◌≡◌, refl, ◌∙◌, true, false, not, List, list_Eq, ℕ_eq, inl, inr, ok, Result, ◌>>◌}
use ephi.Base.Text.{Text, is_canonical}
use ephi.Commands.Context.{Raised, RevisionVector}
use ephi.DecisionLoop.Model.{WorkState, CycleStatus, Cycle, LoopState, EpisodeState}
use ephi.DecisionLoop.State.{
  is_work_closed, is_cycle_closed, is_cycle_open, with_cycle, check_identity,
}
use ephi.DecisionLoop.Checks.{
  LoopCommand, CheckRequest, Completion, request_check, start_check, complete_check, cancel_check,
}
use ephi.DecisionLoop.Actions.{
  ActionRecord, Reconciliation, record_external_action, reconcile_external_action,
}
use ephi.DecisionLoop.Closing.{ClosureRequest, close_episode}
use ephi.DecisionLoop.Reopening.{reopen_episode, initialize_decision_loop}
use ephi.DecisionLoop.Sound.{IsSound, Agrees, find-put_cycle, found_id, passes}

-- The hashes of the loop's canonical JSON.
pub record LoopHashes : Type 0 where
  pub completion : Text → Completion → Text
  pub closure : LoopCommand → Cycle → ClosureRequest → List Text → List Text → Text
  pub reopening : Text → Text → Text → ℕ → Text

-- The commands of `DecisionLoopCommandService` that are modelled.
pub data LoopOperation : Type 0 where
  initialize : LoopOperation
  request : CheckRequest → LoopOperation
  start cancel : LoopOperation
  complete_with : Completion → LoopOperation
  act : ActionRecord → LoopOperation
  reconcile : Reconciliation → LoopOperation
  close : ClosureRequest → LoopOperation
  reopen : Text → LoopOperation

unfoldable pub perform :
    LoopHashes → LoopCommand → LoopOperation → EpisodeState → Result Raised EpisodeState
perform h m LoopOperation.initialize = initialize_decision_loop m
perform h m (LoopOperation.request q) = request_check m q
perform h m LoopOperation.start = start_check m
perform h m LoopOperation.cancel = cancel_check m
perform h m (LoopOperation.complete_with c) = complete_check h.completion m c
perform h m (LoopOperation.act a) = record_external_action m a
perform h m (LoopOperation.reconcile r) = reconcile_external_action m r
perform h m (LoopOperation.close q) = close_episode h.closure m q
perform h m (LoopOperation.reopen reason) = reopen_episode h.reopening m reason

-- `_execute`: the episode's identity is checked, then the command has its effect. What the checks of the
-- arguments raise is a validation failure, whichever comes first.
unfoldable pub apply :
    LoopHashes → LoopCommand → LoopOperation → EpisodeState → Result Raised EpisodeState
apply h m c state = do check_identity m.episode_id; perform h m c state

pub apply-performed :
    (h : LoopHashes) (m : LoopCommand) (c : LoopOperation) (state : EpisodeState)
    {out : EpisodeState}
    → apply h m c state ≡ ok out
    → perform h m c state ≡ ok out
unfolding apply
apply-performed h m c state q =
    (passes (not (is_canonical m.episode_id)) Raised.validation_failure (perform h m c state) q).1

-- What is in order after a command.
abbrev pub IsInOrder : Text → EpisodeState → Type 0
IsInOrder episode_id state =
    (loop : LoopState) × ((active : Cycle) × IsSound episode_id state loop active)

pub open-Agrees :
    (work : WorkState) (status : CycleStatus)
    → Agrees work status
    → is_cycle_open status ≡ true
    → is_work_closed work ≡ false
unfolding is_cycle_open is_cycle_closed
open-Agrees work CycleStatus.is_open (inl (h, k)) opened = cc
open-Agrees work CycleStatus.is_open (inr (h, k)) opened = h
open-Agrees work CycleStatus.is_closed a opened = cc
open-Agrees work CycleStatus.is_other a opened = cc

module _ (episode_id : Text) (state : EpisodeState) (loop : LoopState) (cycle : Cycle) where
  -- An effect that keeps the identity and the status of the cycle it changes.
  pub with_cycle-IsSound :
      (viewed : RevisionVector) (new : Cycle)
      → IsSound episode_id state loop cycle × (is_cycle_open cycle.status ≡ true)
      → new.cycle_id ≡ cycle.cycle_id
      → is_cycle_open new.status ≡ true
      → IsInOrder episode_id (with_cycle viewed loop new state)
  unfolding with_cycle
  with_cycle-IsSound viewed new (sound, opened) same status = (
    _,
    (
      new,
      record {
        supported = sound.supported;
        owned = sound.owned;
        held = refl;
        schema = sound.schema;
        named = sound.named;
        found =
            find-put_cycle loop.active_cycle_id loop.cycles new sound.found
              (same ∙ found_id loop.active_cycle_id loop.cycles sound.found);
        agrees = inr (open-Agrees state.work_state cycle.status sound.agrees opened, status);
      },
    ),
  )
