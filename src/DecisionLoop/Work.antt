-- ===== src/DecisionLoop/Work.antt =====
-- The work state of an episode under the commands of src/ephi/application/decision_loop.py.
use ephi.Base.{ℕ, ◌≡◌, refl, sym, ◌∙◌, Bool, true, false, List, inl, inr, ok, ◌||◌, some_inj, arith}
use mathlib.Core.Path.{subst}
use ephi.Base.Text.{Text}
use ephi.DecisionLoop.Model.{WorkState, CycleStatus, Cycle, EpisodeState}
use ephi.DecisionLoop.State.{is_work_closed, is_cycle_closed, is_cycle_open, with_cycle}
use ephi.DecisionLoop.Checks.{LoopCommand}
use ephi.DecisionLoop.Closing.{ClosureRequest, close_episode, closed_state}
use ephi.DecisionLoop.Reopening.{reopen_episode, initialize_decision_loop, reopened_state}
use ephi.DecisionLoop.Sound.{Agrees, open_cycle-IsSound, state_object-IsSound, active_cycle-found}
use ephi.DecisionLoop.Returns.{
  close_episode-IsClosing, reopen_episode-IsReopening, initialize_decision_loop-IsInitialized,
}
use ephi.DecisionLoop.Commands.{
  LoopHashes, LoopOperation, apply, perform, apply-performed, open-Agrees,
}
use ephi.DecisionLoop.Edits.{
  IsEdit, request_check-IsEdit, start_check-IsEdit, cancel_check-IsEdit, complete_check-IsEdit,
  record_external_action-IsEdit, reconcile_external_action-IsEdit,
}

unfoldable pub is_closing : LoopOperation → Bool
is_closing (LoopOperation.close q) = true
is_closing _ = false

unfoldable pub is_reopening : LoopOperation → Bool
is_reopening (LoopOperation.reopen reason) = true
is_reopening _ = false

-- The work state before and after: closed or not.
abbrev pub Moves : Bool → Bool → EpisodeState → EpisodeState → Type 0
Moves before after state out =
    (is_work_closed state.work_state ≡ before) × (is_work_closed out.work_state ≡ after)

closed-Agrees :
    (work : WorkState) (status : CycleStatus)
    → Agrees work status
    → is_cycle_closed status ≡ true
    → is_work_closed work ≡ true
unfolding is_cycle_open is_cycle_closed
closed-Agrees work CycleStatus.is_closed (inl (h, k)) finished = h
closed-Agrees work CycleStatus.is_closed (inr (h, k)) finished = cc
closed-Agrees work CycleStatus.is_open a finished = cc
closed-Agrees work CycleStatus.is_other a finished = cc

module _ (m : LoopCommand) (state : EpisodeState) {out : EpisodeState} where
  IsEdit-work : IsEdit m state out → Moves false false state out
  unfolding with_cycle
  IsEdit-work e =
      let (sound, opened) = open_cycle-IsSound m.episode_id m.cycle_id state e.opened in
      let working = open-Agrees state.work_state e.cycle.status sound.agrees opened in
      subst (Moves false false state) e.made (working, working)

  close-work :
      (hash : LoopCommand → Cycle → ClosureRequest → List Text → List Text → Text)
      (q : ClosureRequest)
      → close_episode hash m q state ≡ ok out
      → Moves false true state out
  unfolding closed_state is_work_closed
  close-work hash q h =
      let e = close_episode-IsClosing m state hash q h in
      let (sound, opened) = open_cycle-IsSound m.episode_id m.cycle_id state e.opened in
      subst (Moves false true state) e.made
        (open-Agrees state.work_state e.cycle.status sound.agrees opened, refl)

  reopen-work :
      (hash : Text → Text → Text → ℕ → Text) (reason : Text)
      → reopen_episode hash m reason state ≡ ok out
      → Moves true false state out
  unfolding reopened_state is_work_closed
  reopen-work hash reason h =
      let e = reopen_episode-IsReopening m state hash reason h in
      let (active, sound) = state_object-IsSound m.episode_id state e.accepted in
      let same : active ≡ e.previous =
        some_inj (sym sound.found ∙ active_cycle-found m.cycle_id e.loop e.found) in
      let agrees = subst (λ (z : Cycle). Agrees state.work_state z.status) same sound.agrees in
      subst (Moves true false state) e.made
        (closed-Agrees state.work_state e.previous.status agrees e.finished, refl)

  initialize-work : initialize_decision_loop m state ≡ ok out → Moves false false state out
  initialize-work h =
      let e = initialize_decision_loop-IsInitialized m state h in
      let working : is_work_closed state.work_state ≡ false = not_either _ e.working in
      subst (Moves false false state) e.made (working, working)
    where
      not_either : {a : Bool} (b : Bool) → (a || b) ≡ false → a ≡ false
      not_either b h = ground arith

  perform-Moves :
      (h : LoopHashes) (c : LoopOperation)
      → perform h m c state ≡ ok out
      → Moves (is_reopening c) (is_closing c) state out
  unfolding perform is_closing is_reopening
  perform-Moves h LoopOperation.initialize q = initialize-work q
  perform-Moves h (LoopOperation.request r) q = IsEdit-work (request_check-IsEdit m state r q)
  perform-Moves h LoopOperation.start q = IsEdit-work (start_check-IsEdit m state q)
  perform-Moves h LoopOperation.cancel q = IsEdit-work (cancel_check-IsEdit m state q)
  perform-Moves h (LoopOperation.complete_with c) q =
      IsEdit-work (complete_check-IsEdit m state h.completion c q)
  perform-Moves h (LoopOperation.act a) q = IsEdit-work (record_external_action-IsEdit m state a q)
  perform-Moves h (LoopOperation.reconcile r) q =
      IsEdit-work (reconcile_external_action-IsEdit m state r q)
  perform-Moves h (LoopOperation.close r) q = close-work h.closure r q
  perform-Moves h (LoopOperation.reopen reason) q = reopen-work h.reopening reason q

  -- A command that succeeds found the episode closed if it is a reopening and not closed if it is any
  -- other command, and leaves it closed if it is a closure and not closed if it is any other.
  pub apply-Moves :
      (h : LoopHashes) (c : LoopOperation)
      → apply h m c state ≡ ok out
      → Moves (is_reopening c) (is_closing c) state out
  apply-Moves h c q = perform-Moves h c (apply-performed h m c state q)
