-- ===== src/Worker/Steps.antt =====
-- Every operation of the worker store keeps the invariant of the rows and lets them only evolve.
use ephi.Base.{
  ◌≤◌, Bool, true, false, not, Option, none, some, ◌≡◌, refl, sym, arith, ◌==◌, list_Eq, ℕ_eq,
  Option-cases, inl, inr, is_some, ok, err, ltb, raise_if, find,
}
use ephi.Base.Text.{Text}
use ephi.Worker.Model.{
  Time, JobStatus, WorkerError, WorkerLease, JobRecord, AppliedEffectReceipt, Db, update,
  is_terminal, is_running, is_waiting, is_held, holds, has_id, validate_lease, validated_identity,
  locked_lease,
}
use ephi.Worker.Leases.{
  heartbeat, complete, fail, defer, cancel, extended, succeeded, failed, deferred, canceled,
  failure_status, is_cancelable, cancel_row, cancel_found, check_cancel, may_cancel, backoff,
}
use ephi.Worker.Invariant.{
  IsEvolved, Evolves, IsSafe, update-IsSafe, Ensures, Ensures-bind, settle-IsSafe,
  update_leased-Ensures, holds-running, running-not_terminal,
}

module _ {P : Type 0} where
  -- A change under a condition that only rows which are not terminal meet.
  pub evolved :
      {i j : JobRecord P}
      → (j.job_id ≡ i.job_id)
        × (j.scope_key ≡ i.scope_key)
        × (j.semantic_key ≡ i.semantic_key)
        × (j.job_type ≡ i.job_type)
        × (j.payload_hash ≡ i.payload_hash)
        × (j.max_attempts ≡ i.max_attempts)
      → i.lease_epoch ≤ j.lease_epoch
      → is_terminal i.status ≡ false
      → IsEvolved i j
  evolved (a, b, c, d, e, f) l n = record {
    same_id = a;
    same_scope = b;
    same_key = c;
    same_type = d;
    same_hash = e;
    same_budget = f;
    later_epoch = l;
    settled = λ t. cc (t, n);
  }

  live :
      (lease : WorkerLease) (now : Time) (j : JobRecord P)
      → holds lease now j ≡ true
      → is_terminal j.status ≡ false
  live lease now j h = running-not_terminal j.status (holds-running lease now j h)

  module _ (lease : WorkerLease) (now : Time) where
    extended-Evolves : (duration : Time) → Evolves (holds lease now) (extended {P = P} duration now)
    unfolding extended
    extended-Evolves duration j hit h = (
      record {
        owned = h.owned;
        leased = sym (holds-running lease now j hit);
        budget = h.budget;
        epochs = h.epochs;
      },
      evolved (refl, refl, refl, refl, refl, refl) (omega arith) (live lease now j hit),
    )

    succeeded-Evolves : Evolves (holds lease now) (succeeded {P = P} now)
    unfolding succeeded is_running
    succeeded-Evolves j hit h = (
      record { owned = refl; leased = refl; budget = h.budget; epochs = h.epochs },
      evolved (refl, refl, refl, refl, refl, refl) (omega arith) (live lease now j hit),
    )

    deferred-Evolves : (at : Time) → Evolves (holds lease now) (deferred {P = P} at now)
    unfolding deferred is_running
    deferred-Evolves at j hit h = (
      record { owned = refl; leased = refl; budget = h.budget; epochs = h.epochs },
      evolved (refl, refl, refl, refl, refl, refl) (omega arith) (live lease now j hit),
    )

    failed-Evolves :
        (status : JobStatus) (next : Option Time) (pause : Time) (code message : Text) (at : Time)
        → is_running status ≡ false
        → Evolves (holds lease now) (failed {P = P} status next pause code message at)
    unfolding failed
    failed-Evolves status next pause code message at idle j hit h = (
      record { owned = sym idle; leased = sym idle; budget = h.budget; epochs = h.epochs },
      evolved (refl, refl, refl, refl, refl, refl) (omega arith) (live lease now j hit),
    )

  failure_status-idle :
      (retryable : Bool) (j : JobRecord P) → is_running (failure_status retryable j) ≡ false
  unfolding failure_status is_running
  failure_status-idle retryable j = ground arith

  pub heartbeat-IsSafe :
      (lease : WorkerLease) (duration now later : Time) (db : Db P)
      → IsSafe db (heartbeat lease duration now later db).1
  unfolding heartbeat
  heartbeat-IsSafe lease duration now later db = settle-IsSafe db _ (
      Ensures-bind db (validate_lease lease) _ λ _.
        update_leased-Ensures lease now later (extended duration now) db
          (extended-Evolves lease now duration))

  pub complete-IsSafe :
      (lease : WorkerLease) (now later : Time) (db : Db P)
      → IsSafe db (complete lease now later db).1
  unfolding complete
  complete-IsSafe lease now later db = settle-IsSafe db _ (
      Ensures-bind db (validate_lease lease) _
        λ _. update_leased-Ensures lease now later (succeeded now) db (succeeded-Evolves lease now))

  pub defer-IsSafe :
      (lease : WorkerLease) (at t1 t2 t3 t4 : Time) (db : Db P)
      → IsSafe db (defer lease at t1 t2 t3 t4 db).1
  unfolding defer
  defer-IsSafe lease at t1 t2 t3 t4 db = settle-IsSafe db _ (
      Ensures-bind db (validate_lease lease) _ λ _.
        Ensures-bind db (locked_lease lease t1 db) _ λ _.
          Ensures-bind db (raise_if (not (ltb t2 at)) WorkerError.validation_failure) _ λ _.
            update_leased-Ensures lease t3 t4 (deferred at t3) db (deferred-Evolves lease t3 at))

  pub fail-IsSafe :
      (lease : WorkerLease) (retryable : Bool) (code message : Text) (next : Option Time)
      (t1 t2 t3 : Time) (db : Db P)
      → IsSafe db (fail lease retryable code message next t1 t2 t3 db).1
  unfolding fail
  fail-IsSafe lease retryable code message next t1 t2 t3 db = settle-IsSafe db _ (
      Ensures-bind db (validate_lease lease) _ λ _. Ensures-bind db (validated_identity code) _ λ _.
        Ensures-bind db (validated_identity message) _ λ _.
          Ensures-bind db (locked_lease lease t1 db) _ λ current.
            update_leased-Ensures lease t2 t3 _ db (
              failed-Evolves lease t2 (failure_status retryable current) next
                (backoff current.attempts) code message t2 (failure_status-idle retryable current)))

  may_cancel_live :
      (scope_key job_id : Text) (lease : Option WorkerLease) (now : Time) (j : JobRecord P)
      → is_cancelable scope_key job_id lease now j ≡ true
      → is_terminal j.status ≡ false
  unfolding is_cancelable is_waiting is_running is_terminal is_held
  may_cancel_live scope_key job_id none now j h = ground arith
  may_cancel_live scope_key job_id (some lease) now j h = ground arith

  canceled-Evolves :
      (scope_key job_id : Text) (lease : Option WorkerLease) (now : Time)
      → Evolves (is_cancelable scope_key job_id lease now) (canceled {P = P} now)
  unfolding canceled is_running
  canceled-Evolves scope_key job_id lease now j hit h = (
    record { owned = refl; leased = refl; budget = h.budget; epochs = h.epochs },
    evolved (refl, refl, refl, refl, refl, refl) (omega arith)
        (may_cancel_live scope_key job_id lease now j hit),
  )

  cancel_found-Ensures :
      (scope_key job_id : Text) (lease : Option WorkerLease) (now : Time) (db : Db P)
      → Ensures db (cancel_found scope_key job_id lease now db)
  unfolding cancel_found
  cancel_found-Ensures scope_key job_id lease now db =
      elim (find (is_cancelable scope_key job_id lease now) db.jobs)
        as (λ o. Ensures db (elim o [
          | none ↦ err (WorkerError.stale_lease job_id)
          | some j ↦ ok (
            canceled now j,
            record db {
              jobs = update (is_cancelable scope_key job_id lease now) (canceled now) db.jobs;
            },
          )
        ])) [
          | none ↦ tt
          | some j ↦
              update-IsSafe (is_cancelable scope_key job_id lease now) (canceled now) db
                (canceled-Evolves scope_key job_id lease now)
        ]

  cancel_row-Ensures :
      (scope_key job_id : Text) (lease : Option WorkerLease) (t1 t2 t3 : Time) (row : JobRecord P)
      (db : Db P)
      → Ensures db (cancel_row scope_key job_id lease t1 t2 t3 row db)
  unfolding cancel_row
  cancel_row-Ensures scope_key job_id lease t1 t2 t3 row db =
      Ensures-bind db (raise_if (not (row.scope_key == scope_key)) WorkerError.job_not_found) _ λ _.
        Ensures-bind db (raise_if (is_terminal row.status) WorkerError.invalid_transition) _ λ _.
          Ensures-bind db
            (raise_if
              (is_some (find (λ (e : AppliedEffectReceipt P). e.job_id == job_id) db.effects))
              WorkerError.invalid_transition)
            _
            λ _.
              Ensures-bind db (may_cancel lease t1 t2 row) _
                λ _. cancel_found-Ensures scope_key job_id lease t3 db

  pub cancel-IsSafe :
      (scope_key job_id : Text) (lease : Option WorkerLease) (t1 t2 t3 : Time) (db : Db P)
      → IsSafe db (cancel scope_key job_id lease t1 t2 t3 db).1
  unfolding cancel
  cancel-IsSafe scope_key job_id lease t1 t2 t3 db = settle-IsSafe db _ (
      Ensures-bind db (check_cancel job_id lease) _ λ _.
        elim (Option-cases (find (has_id job_id) db.jobs)) [
          | inl missing ↦ rw missing tt
          | inr (row, found) ↦ rw found (cancel_row-Ensures scope_key job_id lease t1 t2 t3 row db)
        ])
