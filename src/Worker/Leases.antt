-- ===== src/Worker/Leases.antt =====
-- What the owner of a lease may do with a job (src/ephi/infrastructure/postgresql_worker.py). Each
-- operation is given the readings of the database's clock in the order in which it takes them.
use ephi.Base.{
  ℕ, ◌+◌, ◌-◌, ◌*◌, ◌^◌, min, Bool, ◌&&◌, ◌||◌, not, Option, none, some, ltb, if◌then◌else◌, ◌==◌,
  ℕ_eq, list_Eq, Result, ok, err, ◌>>=◌, ◌>>◌, raise_if, is_some, find,
}
use ephi.Base.Text.{Text}
use ephi.Worker.Model.{
  Time, JobStatus, WorkerError, WorkerLease, JobRecord, AppliedEffectReceipt, Db, transaction,
  update, is_terminal, is_running, is_waiting, is_expired, has_id, holds, assert_locked_lease,
  locked_lease, update_leased, validated_identity, validate_lease,
}

abbrev pub Reply : Type 0 → Type 0
Reply P = Result WorkerError (JobRecord P) × Db P

-- `min(2 ** max(attempts - 1, 0), 3600)` seconds.
abbrev pub backoff : ℕ → Time
backoff attempts = min (2 ^ (attempts - 1)) 3600 * 1_000_000

-- The checks of `cancel` on its arguments.
unfoldable pub check_cancel : Text → Option WorkerLease → Result WorkerError (Unit {0})
check_cancel job_id none = validated_identity job_id
check_cancel job_id (some lease) = do
  validated_identity job_id
  validate_lease lease
  raise_if (not (lease.job_id == job_id)) (WorkerError.stale_lease job_id)

module _ {P : Type 0} where
  unfoldable pub extended : Time → Time → JobRecord P → JobRecord P
  extended duration now j = record j { lease_expires_at = some (now + duration); updated_at = now }

  unfoldable pub heartbeat : WorkerLease → Time → Time → Time → Db P → Reply P
  heartbeat lease duration now later =
      transaction
        (λ db. do validate_lease lease; update_leased lease now later (extended duration now) db)

  unfoldable pub succeeded : Time → JobRecord P → JobRecord P
  succeeded now j = record j {
    status = JobStatus.succeeded;
    lease_owner = none;
    lease_expires_at = none;
    updated_at = now;
  }

  unfoldable pub complete : WorkerLease → Time → Time → Db P → Reply P
  complete lease now later =
      transaction (λ db. do validate_lease lease; update_leased lease now later (succeeded now) db)

  -- The status after a failure.
  unfoldable pub failure_status : Bool → JobRecord P → JobStatus
  failure_status retryable j =
      if retryable
      then (if ltb j.attempts j.max_attempts then JobStatus.queued else JobStatus.dead_letter)
      else JobStatus.failed

  -- `CASE WHEN status = 'QUEUED' THEN COALESCE(next, now + backoff) ELSE available_at END`
  unfoldable pub retry_at : JobStatus → Option Time → Time → Time → JobRecord P → Time
  retry_at JobStatus.queued none pause now j = now + pause
  retry_at JobStatus.queued (some t) pause now j = t
  retry_at _ next pause now j = j.available_at

  -- The SET list of `fail`.
  unfoldable pub failed :
      JobStatus → Option Time → Time → Text → Text → Time → JobRecord P → JobRecord P
  failed status next pause error_code error_message now j = record j {
    status = status;
    available_at = retry_at status next pause now j;
    lease_owner = none;
    lease_expires_at = none;
    last_failure_code = some error_code;
    last_failure_message = some error_message;
    last_failure_at = some now;
    updated_at = now;
  }

  unfoldable pub fail :
      WorkerLease → Bool → Text → Text → Option Time → Time → Time → Time → Db P → Reply P
  fail lease retryable error_code error_message next t1 t2 t3 = transaction (λ db. do
    validate_lease lease
    validated_identity error_code
    validated_identity error_message
    current ← locked_lease lease t1 db
    update_leased lease t2 t3
        (failed (failure_status retryable current) next (backoff current.attempts) error_code
          error_message t2)
        db)

  unfoldable pub deferred : Time → Time → JobRecord P → JobRecord P
  deferred available_at now j = record j {
    status = JobStatus.deferred;
    available_at = available_at;
    lease_owner = none;
    lease_expires_at = none;
    updated_at = now;
  }

  unfoldable pub defer : WorkerLease → Time → Time → Time → Time → Time → Db P → Reply P
  defer lease available_at t1 t2 t3 t4 = transaction (λ db. do
    validate_lease lease
    _ ← locked_lease lease t1 db
    raise_if (not (ltb t2 available_at)) WorkerError.validation_failure
    update_leased lease t3 t4 (deferred available_at t3) db)

  unfoldable pub canceled : Time → JobRecord P → JobRecord P
  canceled now j = record j {
    status = JobStatus.canceled;
    lease_owner = none;
    lease_expires_at = none;
    updated_at = now;
  }

  -- Whether a locked row may be canceled: by its lease, or without one if it has run out.
  unfoldable pub may_cancel :
      Option WorkerLease → Time → Time → JobRecord P → Result WorkerError (Unit {0})
  may_cancel (some lease) t1 t2 row = assert_locked_lease lease t1 row
  may_cancel none t1 t2 row =
      raise_if (is_running row.status && not (is_expired row.lease_expires_at t2))
        (WorkerError.stale_lease row.job_id)

  -- The WHERE clause of the UPDATE in `cancel`.
  unfoldable pub is_cancelable : Text → Text → Option WorkerLease → Time → JobRecord P → Bool
  is_cancelable scope_key job_id (some lease) now j =
      has_id job_id j && (j.scope_key == scope_key) && holds lease now j
  is_cancelable scope_key job_id none now j =
      has_id job_id j
      && (j.scope_key == scope_key)
      && (is_waiting j.status || (is_running j.status && is_expired j.lease_expires_at now))

  -- The UPDATE of `cancel`.
  unfoldable pub cancel_found :
      Text → Text → Option WorkerLease → Time → Db P → Result WorkerError (JobRecord P × Db P)
  cancel_found scope_key job_id lease now db =
      elim (find (is_cancelable scope_key job_id lease now) db.jobs) [
        | none ↦ err (WorkerError.stale_lease job_id)
        | some j ↦ ok (
          canceled now j,
          record db {
            jobs = update (is_cancelable scope_key job_id lease now) (canceled now) db.jobs;
          },
        )
      ]

  unfoldable pub cancel_row :
      Text
      → Text
      → Option WorkerLease
      → Time
      → Time
      → Time
      → JobRecord P
      → Db P
      → Result WorkerError (JobRecord P × Db P)
  cancel_row scope_key job_id lease t1 t2 t3 row db = do
    raise_if (not (row.scope_key == scope_key)) WorkerError.job_not_found
    raise_if (is_terminal row.status) WorkerError.invalid_transition
    raise_if (is_some (find (λ (e : AppliedEffectReceipt P). e.job_id == job_id) db.effects))
        WorkerError.invalid_transition
    may_cancel lease t1 t2 row
    cancel_found scope_key job_id lease t3 db

  unfoldable pub cancel : Text → Text → Option WorkerLease → Time → Time → Time → Db P → Reply P
  cancel scope_key job_id lease t1 t2 t3 = transaction (λ db. do
    check_cancel job_id lease
    elim (find (has_id job_id) db.jobs) [
      | none ↦ err WorkerError.job_not_found
      | some row ↦ cancel_row scope_key job_id lease t1 t2 t3 row db
    ])
