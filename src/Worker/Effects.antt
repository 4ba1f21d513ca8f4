-- ===== src/Worker/Effects.antt =====
-- Local effects with durable receipts: `commit_local_effect` and `has_committed_local_effect` of
-- src/ephi/infrastructure/postgresql_worker.py. The default mutation, a fixture, is left out: the
-- mutation is an argument.
use ephi.Base.{
  ℕ, ◌+◌, Bool, ◌&&◌, not, Option, none, some, [], ◌∷◌, ◌++◌, ◌==◌, ℕ_eq, list_Eq, pair_Eq, Result,
  ok, err, ◌>>=◌, ◌>>◌, raise_if, is_some, find,
}
use ephi.Base.Text.{Text, codes}
use ephi.Base.Dict.{lookup, insert}
use ephi.Worker.Model.{
  Time, WorkerError, WorkerLease, JobRecord, AppliedEffectReceipt, Aggregate, Db, transaction,
  holds, locked_lease, lease_failure, validated_identity, validate_lease,
}
use ephi.Worker.Queue.{Payloads, input_hash}

-- The f-string of `_result_identity`.
unfoldable pub result_identity : Payloads → Text → Text → Text → Text
result_identity c job_id effect_key hash =
    c.sha256 (codes "ephi-o2:local-effect:" ++ (job_id ++ (b':' ∷ (effect_key ++ (b':' ∷ hash)))))

abbrev pub has_effect : {P : Type 0} → Text → Text → AppliedEffectReceipt P → Bool
has_effect job_id effect_key e = (e.job_id == job_id) && (e.effect_key == effect_key)

-- The arguments of `commit_local_effect` but for the lease, and the five readings of the clock
-- after the first.
pub record Effect (P : Type 0) : Type 0 where
  pub effect_key : Text
  pub input_payload : P
  pub aggregate_type : Text
  pub aggregate_id : Text
  pub mutation : P → P → Result WorkerError P

abbrev pub aggregate_key : {P : Type 0} → JobRecord P → Effect P → Text × (Text × Text)
aggregate_key job e = (job.scope_key, (e.aggregate_type, e.aggregate_id))

pub record Clock : Type 0 where
  pub locked_at : Time
  pub replayed_at : Time
  pub updated_at : Time
  pub inserted_at : Time
  pub failed_at : Time

module _ (c : Payloads) where
  -- The path of a receipt that exists.
  unfoldable pub replay_effect :
      WorkerLease
      → Text
      → Text
      → Time
      → AppliedEffectReceipt c.Payload
      → Db c.Payload
      → Result WorkerError (AppliedEffectReceipt c.Payload × Db c.Payload)
  replay_effect lease effect_key hash now existing db = do
    raise_if (not (existing.input_hash == hash))
        (WorkerError.effect_conflict lease.job_id effect_key)
    _ ← locked_lease lease now db
    ok (existing, db)

  unfoldable pub new_receipt :
      WorkerLease → Text → Text → ℕ → c.Payload → Time → AppliedEffectReceipt c.Payload
  new_receipt lease effect_key hash revision result now = record {
    job_id = lease.job_id;
    effect_key = effect_key;
    input_hash = hash;
    committed_revision = revision;
    result_identity = result_identity c lease.job_id effect_key hash;
    result = result;
    committed_at = now;
  }

  -- The two guarded writes: the aggregate under its version, and the receipt.
  unfoldable pub write_effect :
      WorkerLease
      → Text
      → Text
      → Clock
      → Text × (Text × Text)
      → Aggregate c.Payload
      → c.Payload
      → Db c.Payload
      → Result WorkerError (AppliedEffectReceipt c.Payload × Db c.Payload)
  write_effect lease effect_key hash t key aggregate next_state db = do
    raise_if (not (is_some (find (holds lease t.updated_at) db.jobs)))
        (lease_failure lease t.failed_at db)
    raise_if (not (is_some (find (holds lease t.inserted_at) db.jobs)))
        (lease_failure lease t.failed_at db)
    let receipt = new_receipt lease effect_key hash (aggregate.version + 1) next_state t.inserted_at
    ok (
      receipt,
      record db {
        effects = db.effects ++ (receipt ∷ []);
        aggregates =
            insert key (record { version = aggregate.version + 1; state = next_state })
              db.aggregates;
      },
    )

  abbrev pub or_raise : {A : Type 0} → Option A → WorkerError → Result WorkerError A
  or_raise none e = err e
  or_raise (some a) e = ok a

  -- The path of a first application.
  unfoldable pub apply_effect :
      WorkerLease
      → Effect c.Payload
      → c.Payload
      → Text
      → Clock
      → JobRecord c.Payload
      → Db c.Payload
      → Result WorkerError (AppliedEffectReceipt c.Payload × Db c.Payload)
  apply_effect lease e input hash t job db = do
    let key = aggregate_key job e
    aggregate ← or_raise (lookup key db.aggregates) WorkerError.aggregate_not_found
    raw ← e.mutation aggregate.state input
    next_state ← or_raise (c.normalize raw) WorkerError.validation_failure
    write_effect lease e.effect_key hash t key aggregate next_state db

  unfoldable pub commit_body :
      WorkerLease
      → Effect c.Payload
      → Clock
      → Db c.Payload
      → Result WorkerError (AppliedEffectReceipt c.Payload × Db c.Payload)
  commit_body lease e t db = do
    validate_lease lease
    validated_identity e.effect_key
    validated_identity e.aggregate_type
    validated_identity e.aggregate_id
    (input, hash) ← input_hash c e.input_payload
    job ← locked_lease lease t.locked_at db
    elim (find (has_effect lease.job_id e.effect_key) db.effects) [
      | some existing ↦ replay_effect lease e.effect_key hash t.replayed_at existing db
      | none ↦ apply_effect lease e input hash t job db
    ]

  unfoldable pub commit_local_effect :
      WorkerLease
      → Effect c.Payload
      → Clock
      → Db c.Payload
      → Result WorkerError (AppliedEffectReceipt c.Payload) × Db c.Payload
  commit_local_effect lease e t = transaction (commit_body lease e t)

-- `has_committed_local_effect`
unfoldable pub has_committed_local_effect :
    {P : Type 0} → Text → Text → Db P → Result WorkerError Bool
has_committed_local_effect scope_key job_id db = do
  validated_identity job_id
  ok (
      is_some
        (find (λ (j : JobRecord _). (j.scope_key == scope_key) && (j.job_id == job_id)) db.jobs)
      && is_some (find (λ (e : AppliedEffectReceipt _). e.job_id == job_id) db.effects))
