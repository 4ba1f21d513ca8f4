-- ===== src/DecisionLoop/InOrder.antt =====
-- Closing, reopening and initializing leave a decision loop in order, and so does every command
-- (src/ephi/application/decision_loop.py).
use ephi.Base.{
  ℕ, suc, ◌≡◌, refl, true, false, not, some, [], ◌∷◌, ◌++◌, length, list_Eq, ℕ_eq, ==-refl, is_some,
  inl, inr, ok, arith, ◌||◌, find,
}
use mathlib.Core.Path.{subst}
use ephi.Base.Text.{Text}
use ephi.Commands.Context.{RevisionVector}
use ephi.DecisionLoop.Model.{CycleStatus, Closure, Cycle, LoopState, EpisodeState}
use ephi.DecisionLoop.State.{
  is_supported_work, is_work_closed, is_cycle_closed, is_cycle_open, state_object, schema_version,
}
use ephi.DecisionLoop.Checks.{LoopCommand}
use ephi.DecisionLoop.Closing.{closed_state}
use ephi.DecisionLoop.Reopening.{
  reopened_state, new_loop, cycle_name, free_version, last_version, empty_cycle,
}
use ephi.DecisionLoop.Versions.{free_version-IsFree}
use ephi.DecisionLoop.Sound.{
  IsSound, IsSound-accepted, state_object-IsSound, open_cycle-IsSound, find-put_cycle, found_id,
  find-added,
}
use ephi.DecisionLoop.Returns.{
  close_episode-IsClosing, reopen_episode-IsReopening, initialize_decision_loop-IsInitialized,
}
use ephi.DecisionLoop.Commands.{
  LoopHashes, LoopOperation, apply, perform, apply-performed, IsInOrder,
}
use ephi.DecisionLoop.Edits.{
  IsEdit-IsInOrder, request_check-IsEdit, start_check-IsEdit, cancel_check-IsEdit,
  complete_check-IsEdit, record_external_action-IsEdit, reconcile_external_action-IsEdit,
}

module _ (m : LoopCommand) (state : EpisodeState) where
  closed_state-IsInOrder :
      (viewed : RevisionVector) (loop : LoopState) (cycle : Cycle) (closure : Closure)
      → IsSound m.episode_id state loop cycle
      → IsInOrder m.episode_id (closed_state viewed loop cycle closure state)
  unfolding closed_state is_supported_work is_work_closed is_cycle_closed
  closed_state-IsInOrder viewed loop cycle closure sound = (
    _,
    (
      _,
      record {
        supported = refl;
        owned = sound.owned;
        held = refl;
        schema = sound.schema;
        named = sound.named;
        found =
            find-put_cycle loop.active_cycle_id loop.cycles
              (record cycle {
                closures = cycle.closures ++ (closure ∷ []);
                status = CycleStatus.is_closed;
              })
              sound.found (found_id loop.active_cycle_id loop.cycles sound.found);
        agrees = inl (refl, refl);
      },
    ),
  )

  reopened_state-IsInOrder :
      (hash : Text → Text → Text → ℕ → Text) (reason : Text) (viewed : RevisionVector)
      (loop : LoopState) (active previous : Cycle) (closure : Closure)
      → IsSound m.episode_id state loop active
      → IsInOrder m.episode_id (reopened_state hash m reason viewed loop previous closure state)
  unfolding reopened_state is_supported_work is_work_closed is_cycle_open empty_cycle
  reopened_state-IsInOrder hash reason viewed loop active previous closure sound =
      let start = suc (last_version loop.cycles) in
      let version = free_version (suc (length loop.cycles)) m.episode_id loop.cycles start in
      let name = cycle_name m.episode_id version in
      (
        _,
        (
          empty_cycle name version m.now,
          record {
            supported = refl;
            owned = refl;
            held = refl;
            schema = sound.schema;
            named = sound.named;
            found =
                find-added name loop.cycles (empty_cycle name version m.now)
                  (free_version-IsFree m.episode_id loop.cycles start) refl;
            agrees = inr (refl, refl);
          },
        ),
      )

  new_loop-IsInOrder :
      (viewed : RevisionVector)
      → (is_work_closed state.work_state || not (is_supported_work state.work_state)) ≡ false
      → is_some state.owner ≡ true
      → IsInOrder m.episode_id (record state { decision_loop = some (new_loop m viewed) })
  unfolding new_loop is_cycle_open empty_cycle find
  new_loop-IsInOrder viewed working owned = (
    _,
    (
      empty_cycle m.name 1 m.now,
      record {
        supported = ground arith;
        owned = owned;
        held = refl;
        schema = ==-refl schema_version;
        named = ==-refl m.episode_id;
        found = rw (==-refl m.name) refl;
        agrees = inr (ground arith, refl);
      },
    ),
  )

  perform-IsInOrder :
      (h : LoopHashes) (c : LoopOperation) {out : EpisodeState}
      → perform h m c state ≡ ok out
      → IsInOrder m.episode_id out
  unfolding perform
  perform-IsInOrder h LoopOperation.initialize q =
      let e = initialize_decision_loop-IsInitialized m state q in
      subst (IsInOrder m.episode_id) e.made (new_loop-IsInOrder e.viewed e.working e.owned)
  perform-IsInOrder h (LoopOperation.request r) q =
      IsEdit-IsInOrder m state (request_check-IsEdit m state r q)
  perform-IsInOrder h LoopOperation.start q =
      IsEdit-IsInOrder m state (start_check-IsEdit m state q)
  perform-IsInOrder h LoopOperation.cancel q =
      IsEdit-IsInOrder m state (cancel_check-IsEdit m state q)
  perform-IsInOrder h (LoopOperation.complete_with c) q =
      IsEdit-IsInOrder m state (complete_check-IsEdit m state h.completion c q)
  perform-IsInOrder h (LoopOperation.act a) q =
      IsEdit-IsInOrder m state (record_external_action-IsEdit m state a q)
  perform-IsInOrder h (LoopOperation.reconcile r) q =
      IsEdit-IsInOrder m state (reconcile_external_action-IsEdit m state r q)
  perform-IsInOrder h (LoopOperation.close r) q =
      let e = close_episode-IsClosing m state h.closure r q in
      subst (IsInOrder m.episode_id) e.made (
        closed_state-IsInOrder e.viewed e.loop e.cycle e.closure
          (open_cycle-IsSound m.episode_id m.cycle_id state e.opened).0)
  perform-IsInOrder h (LoopOperation.reopen reason) q =
      let e = reopen_episode-IsReopening m state h.reopening reason q in
      let (active, sound) = state_object-IsSound m.episode_id state e.accepted in
      subst (IsInOrder m.episode_id) e.made (
        reopened_state-IsInOrder h.reopening reason e.viewed e.loop active e.previous e.closure
          sound)

  -- Whatever state a command of the decision loop starts from, a state that it returns passes the checks
  -- that every later command makes of the state it reads: it is in order for the command's episode.
  pub apply-IsAccepted :
      (h : LoopHashes) (c : LoopOperation) {out : EpisodeState}
      → apply h m c state ≡ ok out
      → (loop : LoopState) × (state_object m.episode_id out ≡ ok loop)
  apply-IsAccepted h c {out} q =
      let (loop, (active, sound)) = perform-IsInOrder h c (apply-performed h m c state q) in
      (loop, IsSound-accepted m.episode_id out sound)
