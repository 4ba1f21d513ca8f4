-- ===== src/DecisionLoop/Sound.antt =====
-- A state of a decision loop that is in order (`_state_object` of
-- src/ephi/application/decision_loop.py), as a record of conditions.
use ephi.Base.{
  ◌≡◌, refl, sym, ap, ◌∙◌, Bool, true, false, ◌&&◌, ◌||◌, not, Option, none, some, List, [], ◌∷◌,
  ◌++◌, ◌==◌, list_Eq, ℕ_eq, list_eq_iff, ==-refl, find, is_some, Bool-cases, inl, inr, ◌⊎◌, arith,
  ok, Result, ◌>>◌, ok_inj, >>=-returns, raise_if, or_raise, some_inj,
}
use mathlib.Core.Path.{subst}
use ephi.Base.Text.{Text}
use ephi.Base.Order.{true≢false}
use ephi.Base.Sort.{any}
use ephi.Commands.Context.{Raised}
use ephi.DecisionLoop.Model.{WorkState, CycleStatus, Cycle, LoopState, EpisodeState}
use ephi.DecisionLoop.State.{
  is_supported_work, is_work_closed, is_supported_cycle, is_cycle_closed, is_cycle_open,
  has_cycle_id, active_cycle, schema_version, state_object, put_cycle, open_cycle,
}

-- The work state and the status of the active cycle agree.
abbrev pub Agrees : WorkState → CycleStatus → Type 0
Agrees work status =
    ((is_work_closed work ≡ true) × (is_cycle_closed status ≡ true))
    ⊎ ((is_work_closed work ≡ false) × (is_cycle_open status ≡ true))

pub record IsSound (episode_id : Text) (state : EpisodeState) (loop : LoopState) (active : Cycle)
    : Type 0 where
  pub supported : is_supported_work state.work_state ≡ true
  pub owned : is_some state.owner ≡ true
  pub held : state.decision_loop ≡ some loop
  pub schema : (loop.schema_version == schema_version) ≡ true
  pub named : (loop.episode_id == episode_id) ≡ true
  pub found : find (has_cycle_id loop.active_cycle_id) loop.cycles ≡ some active
  pub agrees : Agrees state.work_state active.status

pub passes :
    {A : Type 0} (b : Bool) (e : Raised) (rest : Result Raised A) {a : A}
    → (raise_if b e >> rest) ≡ ok a
    → (b ≡ false) × (rest ≡ ok a)
passes true e rest h = cc
passes false e rest h = (refl, h)

pub when_not : (b : Bool) → not b ≡ false → b ≡ true
when_not b h = ground arith

pub or_raise_inj :
    {A : Type 0} (o : Option A) (e : Raised) {a : A} → or_raise o e ≡ ok a → o ≡ some a
or_raise_inj none e h = cc
or_raise_inj (some a) e h = ap some (ok_inj h)

agreement :
    (work : WorkState) (status : CycleStatus)
    → (is_work_closed work && not (is_cycle_closed status)) ≡ false
    → (not (is_work_closed work) && not (is_cycle_open status)) ≡ false
    → Agrees work status
agreement work status h k = elim (Bool-cases (is_work_closed work)) [
  | inl closed ↦ inl (closed, when_not _ (rw closed at h))
  | inr working ↦ inr (working, when_not _ (rw working at k))
]

pub active_cycle-found :
    (asked : Option Text) (loop : LoopState) {cycle : Cycle}
    → active_cycle asked loop ≡ ok cycle
    → find (has_cycle_id loop.active_cycle_id) loop.cycles ≡ some cycle
unfolding active_cycle
active_cycle-found asked loop {cycle} q0 =
    let (_, q1) =
      passes (elim asked [ none ↦ false | some id ↦ not (id == loop.active_cycle_id) ])
        Raised.invalid_transition _ q0 in
    let (c, found, q2) =
      >>=-returns
        (or_raise (find (has_cycle_id loop.active_cycle_id) loop.cycles)
          Raised.coherent_read_conflict)
        _ q1 in
    let (_, q3) =
      passes (not (is_supported_cycle c.status)) Raised.coherent_read_conflict (ok c) q2 in
    or_raise_inj (find (has_cycle_id loop.active_cycle_id) loop.cycles) _ (found ∙ q3)

pub state_object-IsSound :
    (episode_id : Text) (state : EpisodeState) {loop : LoopState}
    → state_object episode_id state ≡ ok loop
    → (active : Cycle) × IsSound episode_id state loop active
unfolding state_object
state_object-IsSound episode_id state {loop} q0 =
    let conflict = Raised.coherent_read_conflict in
    let (supported, q1) = passes (not (is_supported_work state.work_state)) conflict _ q0 in
    let (owned, q2) = passes (not (is_some state.owner)) conflict _ q1 in
    let (l, held, q3) = >>=-returns (or_raise state.decision_loop conflict) _ q2 in
    let (identity, q4) =
      passes (not (l.schema_version == schema_version) || not (l.episode_id == episode_id)) conflict
        _ q3 in
    let (_, q5) = passes (elim l.cycles [ [] ↦ true | _ ∷ _ ↦ false ]) conflict _ q4 in
    let (active, found, q6) = >>=-returns (active_cycle none l) _ q5 in
    let (when_closed, q7) =
      passes (is_work_closed state.work_state && not (is_cycle_closed active.status)) conflict _
        q6 in
    let (when_open, q8) =
      passes (not (is_work_closed state.work_state) && not (is_cycle_open active.status)) conflict
        (ok l) q7 in
    let same : l ≡ loop = ok_inj q8 in
    (
      active,
      subst (λ z. IsSound episode_id state z active) same
          (record {
            supported = when_not (is_supported_work state.work_state) supported;
            owned = when_not (is_some state.owner) owned;
            held = or_raise_inj state.decision_loop conflict held;
            schema = ground arith;
            named = ground arith;
            found = active_cycle-found none l found;
            agrees = agreement state.work_state active.status when_closed when_open;
          }),
    )

found_nonempty :
    (p : Cycle → Bool) (cs : List Cycle) {c : Cycle}
    → find p cs ≡ some c
    → (elim cs as (λ _. Bool) [ [] ↦ true | _ ∷ _ ↦ false ]) ≡ false
unfolding find
found_nonempty p [] h = cc
found_nonempty p (c ∷ cs) h = refl

supported_status :
    (work : WorkState) (status : CycleStatus)
    → Agrees work status
    → is_supported_cycle status ≡ true
unfolding is_supported_cycle is_cycle_closed is_cycle_open
supported_status work CycleStatus.is_open a = refl
supported_status work CycleStatus.is_closed a = refl
supported_status work CycleStatus.is_other (inl (h, k)) = cc
supported_status work CycleStatus.is_other (inr (h, k)) = cc

-- A state whose conditions hold is accepted.
pub IsSound-accepted :
    (episode_id : Text) (state : EpisodeState) {loop : LoopState} {active : Cycle}
    → IsSound episode_id state loop active
    → state_object episode_id state ≡ ok loop
unfolding state_object active_cycle
IsSound-accepted episode_id state {loop} {active} sound =
    let status = supported_status state.work_state active.status sound.agrees in
    rw (sound.supported, sound.owned, sound.held, sound.schema, sound.named)
      (rw
        (
          found_nonempty (has_cycle_id loop.active_cycle_id) loop.cycles sound.found,
          sound.found,
          status,
        )
        (elim sound.agrees [
          | inl (closed, k) ↦ rw (closed, k) refl
          | inr (working, k) ↦ rw (working, k) refl
        ]))

-- Changing the active cycle in place, under the same identity.
pub find-put_cycle :
    (id : Text) (cs : List Cycle) (c : Cycle) {old : Cycle}
    → find (has_cycle_id id) cs ≡ some old
    → c.cycle_id ≡ id
    → find (has_cycle_id id) (put_cycle c cs) ≡ some c
unfolding find put_cycle
find-put_cycle id [] c h e = cc
find-put_cycle id (x ∷ cs) c h e = elim (Bool-cases (x.cycle_id == id)) [
  | inl here ↦
      rw (subst (λ z. (x.cycle_id == z) ≡ true) (sym e) here)
        (rw (subst (λ z. (z == id) ≡ true) (sym e) (==-refl id)) refl)
  | inr other ↦
      rw (subst (λ z. (x.cycle_id == z) ≡ false) (sym e) other)
        (rw other (find-put_cycle id cs c (rw other at h) e))
]

pub found_id :
    (id : Text) (cs : List Cycle) {c : Cycle} → find (has_cycle_id id) cs ≡ some c → c.cycle_id ≡ id
unfolding find
found_id id [] h = cc
found_id id (x ∷ cs) h = elim (Bool-cases (x.cycle_id == id)) [
  | inl here ↦
      subst (λ (z : Cycle). z.cycle_id ≡ id) (some_inj (rw here at h))
        ((list_eq_iff x.cycle_id id).0 here)
  | inr other ↦ found_id id cs (rw other at h)
]

-- A cycle whose identity no other has is found where it is added.
pub find-added :
    (id : Text) (cs : List Cycle) (c : Cycle)
    → any (has_cycle_id id) cs ≡ false
    → c.cycle_id ≡ id
    → find (has_cycle_id id) (cs ++ (c ∷ [])) ≡ some c
unfolding find any
find-added id [] c h e = rw (subst (λ z. (z == id) ≡ true) (sym e) (==-refl id)) refl
find-added id (x ∷ cs) c h e = elim (Bool-cases (x.cycle_id == id)) [
  | inl here ↦ absurd (true≢false (rw here at h))
  | inr other ↦ rw other (find-added id cs c (rw other at h) e)
]

-- What an effect on an open cycle starts from.
pub open_cycle-IsSound :
    (episode_id : Text) (asked : Option Text) (state : EpisodeState) {loop : LoopState}
    {cycle : Cycle}
    → open_cycle episode_id asked state ≡ ok (loop, cycle)
    → IsSound episode_id state loop cycle × (is_cycle_open cycle.status ≡ true)
unfolding open_cycle
open_cycle-IsSound episode_id asked state {loop} {cycle} q0 =
    let (l, accepted, q1) = >>=-returns (state_object episode_id state) _ q0 in
    let (c, active, q2) = >>=-returns (active_cycle asked l) _ q1 in
    let (opened, q3) =
      passes (not (is_cycle_open c.status)) Raised.invalid_transition (ok (l, c)) q2 in
    let pair = ok_inj q3 in
    let (a, sound) = state_object-IsSound episode_id state accepted in
    let same : a ≡ c = some_inj (sym sound.found ∙ active_cycle-found asked l active) in
    let there : IsSound episode_id state l c × (is_cycle_open c.status ≡ true) =
      (subst (λ z. IsSound episode_id state l z) same sound, when_not _ opened) in
    subst
      (λ (z : LoopState × Cycle).
        IsSound episode_id state z.0 z.1 × (is_cycle_open z.1.status ≡ true))
      pair there
