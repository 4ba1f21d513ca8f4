-- ===== src/DecisionLoop/Lifecycle.antt =====
-- The life of a check under the commands of src/ephi/application/decision_loop.py.
use ephi.Base.{
  if◌then◌else◌, ℕ, suc, length, ◌≡◌, refl, sym, ap, ◌∙◌, false, Option, none, some, List, [], ◌∷◌,
  ◌++◌, ◌==◌, list_Eq, ℕ_eq, list_eq_iff, inl, inr, ok, Bool-cases, find,
}
use mathlib.Core.Path.{subst}
use ephi.Base.Text.{Text}
use ephi.Base.Dict.{lookup}
use ephi.DecisionLoop.Model.{LoopCheck, Cycle, LoopState, EpisodeState, CycleStatus}
use ephi.DecisionLoop.State.{has_cycle_id, put_cycle, open_cycle, with_cycle}
use ephi.DecisionLoop.Checks.{LoopCommand}
use ephi.DecisionLoop.Closing.{ClosureRequest, close_episode, closed_state}
use ephi.DecisionLoop.Reopening.{
  reopen_episode, initialize_decision_loop, reopened_state, new_loop, empty_cycle, cycle_name,
  free_version, last_version,
}
use ephi.DecisionLoop.Sound.{open_cycle-IsSound, state_object-IsSound, find-put_cycle, found_id}
use ephi.DecisionLoop.Returns.{
  close_episode-IsClosing, reopen_episode-IsReopening, initialize_decision_loop-IsInitialized,
}
use ephi.DecisionLoop.Commands.{LoopHashes, LoopOperation, apply, perform, apply-performed}
use ephi.DecisionLoop.Edits.{
  CheckStep, Evolves, IsEdit, absent, request_check-IsEdit, start_check-IsEdit, cancel_check-IsEdit,
  complete_check-IsEdit, record_external_action-IsEdit, reconcile_external_action-IsEdit,
}

-- The check of a name in a cycle that may be missing.
unfoldable pub check_in : Text → Option Cycle → Option LoopCheck
check_in name none = none
check_in name (some cycle) = lookup name cycle.checks

unfoldable pub check_of_loop : Text → Text → Option LoopState → Option LoopCheck
check_of_loop id name none = none
check_of_loop id name (some loop) = check_in name (find (has_cycle_id id) loop.cycles)

-- The check of a name in the cycle of an identity.
abbrev pub check_of : Text → Text → EpisodeState → Option LoopCheck
check_of id name state = check_of_loop id name state.decision_loop

-- Changing the active cycle leaves the others.
find-put_other :
    (id : Text) (cs : List Cycle) (c : Cycle)
    → (c.cycle_id == id) ≡ false
    → find (has_cycle_id id) (put_cycle c cs) ≡ find (has_cycle_id id) cs
unfolding find put_cycle
find-put_other id [] c h = refl
find-put_other id (x ∷ cs) c h = elim (Bool-cases (x.cycle_id == c.cycle_id)) [
  | inl here ↦
      let same : x.cycle_id ≡ c.cycle_id = (list_eq_iff x.cycle_id c.cycle_id).0 here in
      rw (here, h, subst (λ z. (z == id) ≡ false) (sym same) h) refl
  | inr there ↦
      rw there (ap (λ r. if x.cycle_id == id then some x else r) (find-put_other id cs c h))
]

module _ (id name : Text) where
  put_cycle-step :
      (active : Text) (cs : List Cycle) {old : Cycle} (new : Cycle)
      → find (has_cycle_id active) cs ≡ some old
      → new.cycle_id ≡ old.cycle_id
      → Evolves old new
      → CheckStep
          (check_in name (find (has_cycle_id id) cs))
          (check_in name (find (has_cycle_id id) (put_cycle new cs)))
  unfolding check_in
  put_cycle-step active cs {old} new found same steps =
      let at : new.cycle_id ≡ active = same ∙ found_id active cs found in
      elim (Bool-cases (new.cycle_id == id)) [
        | inl here ↦
            let this : active ≡ id = sym at ∙ (list_eq_iff new.cycle_id id).0 here in
            subst
              (λ z.
                CheckStep (check_in name (find (has_cycle_id z) cs))
                  (check_in name (find (has_cycle_id z) (put_cycle new cs))))
              this (rw (found, find-put_cycle active cs new found at) (steps name))
        | inr other ↦ rw (find-put_other id cs new other) CheckStep.stays
      ]

  -- A cycle without checks that is added.
  check_in-added :
      (cs : List Cycle) (c : Cycle)
      → lookup name c.checks ≡ none
      → check_in name (find (has_cycle_id id) (cs ++ (c ∷ [])))
        ≡ check_in name (find (has_cycle_id id) cs)
  unfolding find check_in
  check_in-added [] c h = elim (Bool-cases (c.cycle_id == id)) [
    | inl here ↦ rw here h
    | inr other ↦ rw other refl
  ]
  check_in-added (x ∷ cs) c h = elim (Bool-cases (x.cycle_id == id)) [
    | inl here ↦ rw here refl
    | inr other ↦ rw other (check_in-added cs c h)
  ]

no_check :
    (name cycle_id : Text) (version now : ℕ)
    → lookup name (empty_cycle cycle_id version now).checks ≡ none
unfolding empty_cycle lookup
no_check name cycle_id version now = refl

module _ (m : LoopCommand) (state : EpisodeState) (id name : Text) where
  -- An edit of the active cycle.
  put-step :
      {loop : LoopState} {cycle : Cycle} (new : Cycle) (later : LoopState)
      → open_cycle m.episode_id m.cycle_id state ≡ ok (loop, cycle)
      → new.cycle_id ≡ cycle.cycle_id
      → Evolves cycle new
      → later.cycles ≡ put_cycle new loop.cycles
      → CheckStep (check_of id name state) (check_of_loop id name (some later))
  unfolding check_of_loop
  put-step {loop} {cycle} new later opened same steps e =
      let sound = (open_cycle-IsSound m.episode_id m.cycle_id state opened).0 in
      rw (sound.held, e)
        (put_cycle-step id name loop.active_cycle_id loop.cycles new sound.found same steps)

  IsEdit-step :
      {out : EpisodeState}
      → IsEdit m state out
      → CheckStep (check_of id name state) (check_of id name out)
  unfolding with_cycle
  IsEdit-step e =
      subst (λ z. CheckStep (check_of id name state) (check_of id name z)) e.made
        (put-step e.new _ e.opened e.same e.evolves refl)

  close-step :
      {out : EpisodeState}
      (hash : LoopCommand → Cycle → ClosureRequest → List Text → List Text → Text)
      (q : ClosureRequest)
      → close_episode hash m q state ≡ ok out
      → CheckStep (check_of id name state) (check_of id name out)
  unfolding closed_state
  close-step hash q h =
      let e = close_episode-IsClosing m state hash q h in
      subst (λ z. CheckStep (check_of id name state) (check_of id name z)) e.made
        (put-step
          (record e.cycle {
            closures = e.cycle.closures ++ (e.closure ∷ []);
            status = CycleStatus.is_closed;
          })
          _ e.opened refl (λ k. CheckStep.stays) refl)

  reopen-step :
      {out : EpisodeState} (hash : Text → Text → Text → ℕ → Text) (reason : Text)
      → reopen_episode hash m reason state ≡ ok out
      → CheckStep (check_of id name state) (check_of id name out)
  unfolding reopened_state check_of_loop
  reopen-step hash reason h =
      let e = reopen_episode-IsReopening m state hash reason h in
      let held = (state_object-IsSound m.episode_id state e.accepted).1.held in
      let version =
        free_version (suc (length e.loop.cycles)) m.episode_id e.loop.cycles
          (suc (last_version e.loop.cycles)) in
      let added = empty_cycle (cycle_name m.episode_id version) version m.now in
      subst (λ z. CheckStep (check_of id name state) (check_of id name z)) e.made
        (rw (held, check_in-added id name e.loop.cycles added (no_check name _ version m.now))
          CheckStep.stays)

  initialize-step :
      {out : EpisodeState}
      → initialize_decision_loop m state ≡ ok out
      → CheckStep (check_of id name state) (check_of id name out)
  unfolding new_loop empty_cycle check_of_loop check_in find lookup
  initialize-step h =
      let e = initialize_decision_loop-IsInitialized m state h in
      subst (λ z. CheckStep (check_of id name state) (check_of id name z)) e.made
        (rw (absent state.decision_loop e.fresh) (elim (Bool-cases (m.name == id)) [
          | inl here ↦ rw here CheckStep.stays
          | inr other ↦ rw other CheckStep.stays
        ]))

  perform-CheckStep :
      {out : EpisodeState} (h : LoopHashes) (c : LoopOperation)
      → perform h m c state ≡ ok out
      → CheckStep (check_of id name state) (check_of id name out)
  unfolding perform
  perform-CheckStep h LoopOperation.initialize q = initialize-step q
  perform-CheckStep h (LoopOperation.request r) q = IsEdit-step (request_check-IsEdit m state r q)
  perform-CheckStep h LoopOperation.start q = IsEdit-step (start_check-IsEdit m state q)
  perform-CheckStep h LoopOperation.cancel q = IsEdit-step (cancel_check-IsEdit m state q)
  perform-CheckStep h (LoopOperation.complete_with c) q =
      IsEdit-step (complete_check-IsEdit m state h.completion c q)
  perform-CheckStep h (LoopOperation.act a) q =
      IsEdit-step (record_external_action-IsEdit m state a q)
  perform-CheckStep h (LoopOperation.reconcile r) q =
      IsEdit-step (reconcile_external_action-IsEdit m state r q)
  perform-CheckStep h (LoopOperation.close r) q = close-step h.closure r q
  perform-CheckStep h (LoopOperation.reopen reason) q = reopen-step h.reopening reason q

  -- Each command of the decision loop that succeeds moves each check of each cycle by at most one step of
  -- its life: it stays as it is, or it is asked for where there was none, or started when it was
  -- requested, or completed with a result when it was started, or cancelled when it was requested or
  -- started. No check is lost.
  pub apply-CheckStep :
      {out : EpisodeState} (h : LoopHashes) (c : LoopOperation)
      → apply h m c state ≡ ok out
      → CheckStep (check_of id name state) (check_of id name out)
  apply-CheckStep h c q = perform-CheckStep h c (apply-performed h m c state q)
