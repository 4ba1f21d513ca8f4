-- ===== src/Worker/Stale.antt =====
-- A lease that every row of its job has outlived is rejected
-- (src/ephi/infrastructure/postgresql_worker.py: the epoch guards of the operations on a lease).
use ephi.Base.{
  ◌<◌, Bool, true, false, not, Option, none, some, List, [], ◌∷◌, ◌≡◌, refl, arith, ltb, All,
  Bool-cases, Option-cases, inl, inr, Result, err, ◌==◌, list_Eq, ℕ_eq, raise_if, option_Eq, find,
}
use ephi.Base.{bind-raises, head-raises}
use ephi.Base.Text.{Text}
use ephi.Worker.Model.{
  Time, WorkerError, WorkerLease, JobRecord, Db, is_terminal, has_id, settle, holds, is_held,
  locked_lease, assert_locked_lease, lease_failure, update_leased, validate_lease,
  validated_identity,
}
use ephi.Worker.Rows.{find_sound, find-All}
use ephi.Base.{ap}
use ephi.Worker.Model.{AppliedEffectReceipt}
use ephi.Base.{is_some}
use ephi.Worker.Leases.{
  cancel, cancel_row, may_cancel, check_cancel, heartbeat, complete, fail, defer, extended,
  succeeded, deferred,
}

module _ {P : Type 0} where
  -- Every row of the lease's job has a later epoch.
  abbrev pub IsSuperseded : WorkerLease → List (JobRecord P) → Type 0
  IsSuperseded lease js =
      All (λ (j : JobRecord P). has_id lease.job_id j ≡ true → lease.epoch < j.lease_epoch) js

  -- The operation raises and leaves the tables as they were.
  abbrev pub IsRejected : {A : Type 0} → Db P → Result WorkerError A × Db P → Type 0
  IsRejected db r = (e : WorkerError) × (r ≡ (err e, db))

  superseded-not_held :
      (lease : WorkerLease) (now : Time) (j : JobRecord P)
      → lease.epoch < j.lease_epoch
      → is_held lease now j ≡ false
  unfolding is_held
  superseded-not_held lease now j h = grind arith

  none-holds :
      (lease : WorkerLease) (now : Time) (js : List (JobRecord P))
      → IsSuperseded lease js
      → find (holds lease now) js ≡ none
  unfolding find
  none-holds lease now [] h = refl
  none-holds lease now (j ∷ js) h = elim (Bool-cases (has_id lease.job_id j)) [
    | inl same ↦ rw (same, superseded-not_held lease now j (h.0 same)) (none-holds lease now js h.1)
    | inr other ↦ rw other (none-holds lease now js h.1)
  ]

  assert-refuses :
      (lease : WorkerLease) (now : Time) (j : JobRecord P)
      → is_held lease now j ≡ false
      → (e : WorkerError) × (assert_locked_lease lease now j ≡ err e)
  unfolding assert_locked_lease
  assert-refuses lease now j h = elim (Bool-cases (is_terminal j.status)) [
    | inl t ↦ (WorkerError.invalid_transition, rw (t, assert_locked_lease) refl)
    | inr t ↦ (WorkerError.stale_lease lease.job_id, rw (t, h, assert_locked_lease) refl)
  ]

  pub no_lock :
      (lease : WorkerLease) (now : Time) (db : Db P)
      → IsSuperseded lease db.jobs
      → (e : WorkerError) × (locked_lease lease now db ≡ err e)
  unfolding locked_lease
  no_lock lease now db h = elim (Option-cases (find (has_id lease.job_id) db.jobs)) [
    | inl absent ↦ (WorkerError.job_not_found, rw (absent, locked_lease) refl)
    | inr (j, found) ↦
        let later =
          find-All (λ (j : JobRecord P). has_id lease.job_id j ≡ true → lease.epoch < j.lease_epoch)
            (has_id lease.job_id) db.jobs h found in
        let (e, refused) = assert-refuses lease now j (
          superseded-not_held lease now j
            (later (find_sound (has_id lease.job_id) db.jobs found))) in
        (e, rw (found, refused, locked_lease) refl)
  ]

  no_update :
      (lease : WorkerLease) (now later : Time) (f : JobRecord P → JobRecord P) (db : Db P)
      → IsSuperseded lease db.jobs
      → (e : WorkerError) × (update_leased lease now later f db ≡ err e)
  unfolding update_leased
  no_update lease now later f db h =
      (lease_failure lease later db, rw (none-holds lease now db.jobs h, update_leased) refl)

  pub settle-IsRejected :
      {A : Type 0} (db : Db P) (r : Result WorkerError (A × Db P))
      → (e : WorkerError) × (r ≡ err e)
      → IsRejected db (settle db r)
  settle-IsRejected db r (e, h) = (e, ap (settle db) h)

  module _ (lease : WorkerLease) (db : Db P) (h : IsSuperseded lease db.jobs) where
    pub heartbeat-IsRejected :
        (duration t1 t2 : Time) → IsRejected db (heartbeat lease duration t1 t2 db)
    unfolding heartbeat
    heartbeat-IsRejected duration t1 t2 = settle-IsRejected db _ (
        bind-raises (validate_lease lease) _ λ _. no_update lease t1 t2 (extended duration t1) db h)

    pub complete-IsRejected : (t1 t2 : Time) → IsRejected db (complete lease t1 t2 db)
    unfolding complete
    complete-IsRejected t1 t2 =
        settle-IsRejected db _
          (bind-raises (validate_lease lease) _ λ _. no_update lease t1 t2 (succeeded t1) db h)

    pub fail-IsRejected :
        (retryable : Bool) (code message : Text) (next : Option Time) (t1 t2 t3 : Time)
        → IsRejected db (fail lease retryable code message next t1 t2 t3 db)
    unfolding fail
    fail-IsRejected retryable code message next t1 t2 t3 = settle-IsRejected db _ (
        bind-raises (validate_lease lease) _ λ _. bind-raises (validated_identity code) _ λ _.
          bind-raises (validated_identity message) _
            λ _. bind-raises (locked_lease lease t1 db) _ λ current. no_update lease t2 t3 _ db h)

    pub defer-IsRejected : (at t1 t2 t3 t4 : Time) → IsRejected db (defer lease at t1 t2 t3 t4 db)
    unfolding defer
    defer-IsRejected at t1 t2 t3 t4 = settle-IsRejected db _ (
        bind-raises (validate_lease lease) _ λ _. bind-raises (locked_lease lease t1 db) _ λ _.
          bind-raises (raise_if (not (ltb t2 at)) WorkerError.validation_failure) _
            λ _. no_update lease t3 t4 (deferred at t3) db h)

  cancel_row-raises :
      (lease : WorkerLease) (scope_key : Text) (t1 t2 t3 : Time) (row : JobRecord P) (db : Db P)
      → lease.epoch < row.lease_epoch
      → (e : WorkerError) × (cancel_row scope_key lease.job_id (some lease) t1 t2 t3 row db ≡ err e)
  unfolding cancel_row may_cancel
  cancel_row-raises lease scope_key t1 t2 t3 row db later =
      bind-raises (raise_if (not (row.scope_key == scope_key)) WorkerError.job_not_found) _ λ _.
        bind-raises (raise_if (is_terminal row.status) WorkerError.invalid_transition) _ λ _.
          bind-raises
            (raise_if
              (is_some (find (λ (e : AppliedEffectReceipt P). e.job_id == lease.job_id) db.effects))
              WorkerError.invalid_transition)
            _
            λ _.
              head-raises (may_cancel (some lease) t1 t2 row) _
                (assert-refuses lease t1 row (superseded-not_held lease t1 row later))

  pub cancel-IsRejected :
      (lease : WorkerLease) (db : Db P)
      → IsSuperseded lease db.jobs
      → (scope_key : Text) (t1 t2 t3 : Time)
      → IsRejected db (cancel scope_key lease.job_id (some lease) t1 t2 t3 db)
  unfolding cancel
  cancel-IsRejected lease db h scope_key t1 t2 t3 = settle-IsRejected db _ (
      bind-raises (check_cancel lease.job_id (some lease)) _ λ _.
        elim (Option-cases (find (has_id lease.job_id) db.jobs)) [
          | inl absent ↦ (WorkerError.job_not_found, rw absent refl)
          | inr (row, found) ↦
              let later =
                find-All
                  (λ (j : JobRecord P). has_id lease.job_id j ≡ true → lease.epoch < j.lease_epoch)
                  (has_id lease.job_id) db.jobs h found in
              rw found (
                cancel_row-raises lease scope_key t1 t2 t3 row db
                  (later (find_sound (has_id lease.job_id) db.jobs found)))
        ])
