-- ===== src/Worker/Model.antt =====
-- The rows of the worker's tables (migrations/002_o2_worker_core.sql), their records in
-- src/ephi/application/worker.py, and the queries that all operations share.
use mathlib.Core.Option
use ephi.Base.{
  ℕ, Bool, true, false, ◌&&◌, not, Option, none, some, List, [], ◌∷◌, ltb, leb, nat_eq,
  if◌then◌else◌, ◌==◌, ℕ_eq, list_Eq, option_Eq, Result, ok, err, ◌>>◌, raise_if, find,
}
use ephi.Base.Text.{Text, is_canonical}
use ephi.Base.Dict.{Dict}
use ephi.Base.Int.{ℤ}

-- An instant or a duration in microseconds.
abbrev pub Time : Type 0
Time = ℕ

pub data JobStatus : Type 0 where
  queued running deferred succeeded failed dead_letter canceled : JobStatus

unfoldable pub is_terminal : JobStatus → Bool
is_terminal JobStatus.succeeded = true
is_terminal JobStatus.failed = true
is_terminal JobStatus.dead_letter = true
is_terminal JobStatus.canceled = true
is_terminal _ = false

unfoldable pub is_running : JobStatus → Bool
is_running JobStatus.running = true
is_running _ = false

-- `status IN ('QUEUED', 'DEFERRED')`
unfoldable pub is_waiting : JobStatus → Bool
is_waiting JobStatus.queued = true
is_waiting JobStatus.deferred = true
is_waiting _ = false

pub data WorkerError : Type 0 where
  validation_failure job_not_found invalid_transition no_eligible_job : WorkerError
  aggregate_not_found storage_failure : WorkerError
  stale_lease : Text → WorkerError
  semantic_conflict : Text → Text → WorkerError
  effect_conflict : Text → Text → WorkerError

pub record WorkerLease : Type 0 where
  pub job_id : Text
  pub owner : Text
  pub epoch : ℕ

pub record JobRecord (P : Type 0) : Type 0 where
  pub job_id : Text
  pub scope_key : Text
  pub job_type : Text
  pub semantic_key : Text
  pub payload_hash : Text
  pub payload : P
  pub status : JobStatus
  pub priority : ℤ
  pub available_at : Time
  pub attempts : ℕ
  pub max_attempts : ℕ
  pub lease_owner : Option Text
  pub lease_epoch : ℕ
  pub lease_expires_at : Option Time
  pub last_failure_code : Option Text
  pub last_failure_message : Option Text
  pub last_failure_at : Option Time
  pub created_at : Time
  pub updated_at : Time

pub record AppliedEffectReceipt (P : Type 0) : Type 0 where
  pub job_id : Text
  pub effect_key : Text
  pub input_hash : Text
  pub committed_revision : ℕ
  pub result_identity : Text
  pub result : P
  pub committed_at : Time

pub record Aggregate (P : Type 0) : Type 0 where
  pub version : ℕ
  pub state : P

-- The three tables; an aggregate's key is its scope, type and identity.
pub record Db (P : Type 0) : Type 0 where
  pub jobs : List (JobRecord P)
  pub effects : List (AppliedEffectReceipt P)
  pub aggregates : Dict (Text × (Text × Text)) (Aggregate P)

-- `JobRecord.lease`
unfoldable pub lease_of : {P : Type 0} → JobRecord P → Option WorkerLease
lease_of j =
    Option.map (λ owner. record { job_id = j.job_id; owner = owner; epoch = j.lease_epoch })
      j.lease_owner

-- `_transaction`: what a body leaves behind is committed, and rolled back where it raised.
abbrev pub settle :
    {P A : Type 0} → Db P → Result WorkerError (A × Db P) → Result WorkerError A × Db P
settle db (ok (a, db')) = (ok a, db')
settle db (err e) = (err e, db)

abbrev pub transaction :
    {P A : Type 0} → (Db P → Result WorkerError (A × Db P)) → Db P → Result WorkerError A × Db P
transaction body db = settle db (body db)

module _ {A : Type 0} where
  -- `UPDATE … SET … WHERE …`
  unfoldable pub update : (A → Bool) → (A → A) → List A → List A
  update p f [] = []
  update p f (x ∷ xs) = (if p x then f x else x) ∷ update p f xs

-- A column that may be NULL, compared with the clock: NULL fails both tests.
unfoldable pub is_after : Option Time → Time → Bool
is_after none now = false
is_after (some t) now = ltb now t

unfoldable pub is_expired : Option Time → Time → Bool
is_expired none now = false
is_expired (some t) now = leb t now

module _ {P : Type 0} where
  abbrev pub has_id : Text → JobRecord P → Bool
  has_id job_id j = j.job_id == job_id

  -- `status = 'RUNNING' AND lease_owner = … AND lease_epoch = … AND lease_expires_at > now`
  unfoldable pub is_held : WorkerLease → Time → JobRecord P → Bool
  unfolding is_running is_after
  is_held lease now j =
      is_running j.status
      && (j.lease_owner == some lease.owner)
      && nat_eq j.lease_epoch lease.epoch
      && is_after j.lease_expires_at now

  abbrev pub holds : WorkerLease → Time → JobRecord P → Bool
  holds lease now j = has_id lease.job_id j && is_held lease now j

  -- `_assert_locked_lease`
  unfoldable pub assert_locked_lease :
      WorkerLease → Time → JobRecord P → Result WorkerError (Unit {0})
  assert_locked_lease lease now j =
      raise_if (is_terminal j.status) WorkerError.invalid_transition
      >> raise_if (not (is_held lease now j)) (WorkerError.stale_lease lease.job_id)

  -- `_locked_lease`
  unfoldable pub locked_lease : WorkerLease → Time → Db P → Result WorkerError (JobRecord P)
  locked_lease lease now db = elim (find (has_id lease.job_id) db.jobs) [
    | none ↦ err WorkerError.job_not_found
    | some j ↦ assert_locked_lease lease now j >> ok j
  ]

  -- `_raise_lease_failure`
  unfoldable pub lease_failure : WorkerLease → Time → Db P → WorkerError
  lease_failure lease now db = elim (locked_lease lease now db) [
    | err e ↦ e
    | ok j ↦ WorkerError.stale_lease lease.job_id
  ]

  -- An UPDATE of the row under a lease with RETURNING, and what is raised where no row matched.
  unfoldable pub update_leased :
      WorkerLease
      → Time
      → Time
      → (JobRecord P → JobRecord P)
      → Db P
      → Result WorkerError (JobRecord P × Db P)
  update_leased lease now later f db = elim (find (holds lease now) db.jobs) [
    | none ↦ err (lease_failure lease later db)
    | some j ↦ ok (f j, record db { jobs = update (holds lease now) f db.jobs })
  ]

-- `_validated_identity`
unfoldable pub validated_identity : Text → Result WorkerError (Unit {0})
validated_identity s = raise_if (not (is_canonical s)) WorkerError.validation_failure

-- `_validate_lease`
unfoldable pub validate_lease : WorkerLease → Result WorkerError (Unit {0})
validate_lease lease = do
  validated_identity lease.job_id
  validated_identity lease.owner
  raise_if (leb lease.epoch 0) WorkerError.validation_failure
