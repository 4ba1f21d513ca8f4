-- ===== src/Worker/Queue.antt =====
-- Enqueueing jobs (src/ephi/infrastructure/postgresql_worker.py).
use ephi.Base.{
  ℕ, Bool, ◌&&◌, ◌||◌, not, Option, none, some, List, [], ◌∷◌, ◌++◌, leb, if◌then◌else◌, ◌==◌, ℕ_eq,
  list_Eq, option_Eq, Result, ok, err, ◌>>=◌, ◌>>◌, raise_if, is_some, find,
}
use ephi.Base.Text.{Text}
use ephi.Base.Int.{ℤ}
use ephi.Worker.Model.{Time, JobStatus, WorkerError, JobRecord, Db, validated_identity}

-- What the queue takes from elsewhere: the normal form of a payload and its hash
-- (src/ephi/application/hashing.py over json and hashlib), and the database's order of texts.
pub record Payloads : Type 1 where
  pub Payload : Type 0
  pub normalize : Payload → Option Payload
  pub digest : Payload → Text
  pub sha256 : Text → Text
  pub before : Text → Text → Bool

-- `_input_hash`
unfoldable pub input_hash : (c : Payloads) → c.Payload → Result WorkerError (c.Payload × Text)
input_hash c p = elim (c.normalize p) [
  | none ↦ err WorkerError.validation_failure
  | some q ↦ ok (q, c.digest q)
]

-- The arguments of `enqueue`, and the time at which its transaction begins (CURRENT_TIMESTAMP).
pub record Request (P : Type 0) : Type 0 where
  pub scope_key : Text
  pub job_type : Text
  pub semantic_key : Text
  pub payload : P
  pub available_at : Option Time
  pub priority : ℤ
  pub max_attempts : ℕ
  pub begun_at : Time

abbrev pub has_semantic_key : {P : Type 0} → Text → Text → JobRecord P → Bool
has_semantic_key scope_key semantic_key j =
    (j.scope_key == scope_key) && (j.semantic_key == semantic_key)

-- `_resolve_enqueue`
unfoldable pub resolve_enqueue :
    {P : Type 0} → JobRecord P → Text → Text → Text → Text → Result WorkerError (JobRecord P)
resolve_enqueue row scope_key semantic_key job_type payload_hash =
    raise_if (not (row.job_type == job_type) || not (row.payload_hash == payload_hash))
      (WorkerError.semantic_conflict scope_key semantic_key)
    >> ok row

-- `_reconcile_enqueue`
unfoldable pub reconcile_enqueue :
    {P : Type 0} → Text → Text → Text → Text → Db P → Result WorkerError (JobRecord P)
reconcile_enqueue scope_key semantic_key job_type payload_hash db =
    elim (find (has_semantic_key scope_key semantic_key) db.jobs) [
      | none ↦ err WorkerError.storage_failure
      | some row ↦ resolve_enqueue row scope_key semantic_key job_type payload_hash
    ]

-- The row that `enqueue` inserts; `now` is the reading of the clock in the statement.
unfoldable pub new_job : {P : Type 0} → Request P → Text → P → Text → Time → JobRecord P
new_job r job_id payload payload_hash now = record {
  job_id = job_id;
  scope_key = r.scope_key;
  job_type = r.job_type;
  semantic_key = r.semantic_key;
  payload_hash = payload_hash;
  payload = payload;
  status = JobStatus.queued;
  priority = r.priority;
  available_at = elim r.available_at [ none ↦ now | some t ↦ t ];
  attempts = 0;
  max_attempts = r.max_attempts;
  lease_owner = none;
  lease_epoch = 0;
  lease_expires_at = none;
  last_failure_code = none;
  last_failure_message = none;
  last_failure_at = none;
  created_at = r.begun_at;
  updated_at = r.begun_at;
}

-- The checks of `enqueue`, which yield the normal payload and its hash.
unfoldable pub check_request :
    (c : Payloads) → Request c.Payload → Result WorkerError (c.Payload × Text)
check_request c r = do
  validated_identity r.job_type
  validated_identity r.semantic_key
  hashed ← input_hash c r.payload
  raise_if (leb r.max_attempts 0) WorkerError.validation_failure
  ok hashed

-- The transaction of `enqueue` on checked arguments. The rows `raced` are those that other
-- transactions commit between its SELECT and its INSERT; the INSERT meets the unique constraint
-- where one has the same semantic key, and the job is then reconciled.
unfoldable pub enqueue_checked :
    {P : Type 0}
    → Request P
    → Text
    → P
    → Text
    → Time
    → List (JobRecord P)
    → Db P
    → Result WorkerError (JobRecord P) × Db P
enqueue_checked r job_id payload payload_hash now raced db =
    elim (find (has_semantic_key r.scope_key r.semantic_key) db.jobs) [
      | some existing ↦ (
        resolve_enqueue existing r.scope_key r.semantic_key r.job_type payload_hash,
        record db { jobs = db.jobs ++ raced },
      )
      | none ↦
          if is_some (find (has_semantic_key r.scope_key r.semantic_key) raced)
          then (
            reconcile_enqueue r.scope_key r.semantic_key r.job_type payload_hash
                (record db { jobs = db.jobs ++ raced }),
            record db { jobs = db.jobs ++ raced },
          )
          else (
            ok (new_job r job_id payload payload_hash now),
            record db {
              jobs = (db.jobs ++ raced) ++ (new_job r job_id payload payload_hash now ∷ []);
            },
          )
    ]

unfoldable pub enqueue :
    (c : Payloads)
    → Request c.Payload
    → Text
    → Time
    → List (JobRecord c.Payload)
    → Db c.Payload
    → Result WorkerError (JobRecord c.Payload) × Db c.Payload
enqueue c r job_id now raced db = elim (check_request c r) [
  | err e ↦ (err e, db)
  | ok (payload, payload_hash) ↦ enqueue_checked r job_id payload payload_hash now raced db
]
