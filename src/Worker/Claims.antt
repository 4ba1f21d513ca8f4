-- ===== src/Worker/Claims.antt =====
-- Claiming jobs (`claim` of src/ephi/infrastructure/postgresql_worker.py).
use ephi.Base.{
  ◌+◌, Bool, true, false, ◌&&◌, ◌||◌, not, Option, none, some, List, [], ◌∷◌, ltb, leb,
  if◌then◌else◌, ◌==◌, ℕ_eq, list_Eq, option_Eq, Result, ok, ◌>>◌, raise_if, is_some,
}
use ephi.Base.Text.{Text, codes}
use ephi.Base.Int.{lt_int}
use ephi.Worker.Model.{
  Time, JobStatus, WorkerError, JobRecord, Db, transaction, update, is_expired, is_running,
  is_waiting, has_id, validated_identity,
}

-- `scope_key = %s AND (%s IS NULL OR job_type = %s)`, on rows that no other transaction has locked.
unfoldable pub is_in_reach : {P : Type 0} → Text → Option Text → (Text → Bool) → JobRecord P → Bool
is_in_reach scope_key job_type locked j =
    (j.scope_key == scope_key)
    && elim job_type [ none ↦ true | some t ↦ j.job_type == t ]
    && not (locked j.job_id)

-- The condition of the common table expression `exhausted`.
unfoldable pub is_exhausted : {P : Type 0} → Time → JobRecord P → Bool
is_exhausted now j =
    leb j.max_attempts j.attempts
    && ((is_running j.status && is_expired j.lease_expires_at now)
        || (is_waiting j.status && leb j.available_at now))

-- The condition of `candidate`.
unfoldable pub is_candidate : {P : Type 0} → Time → JobRecord P → Bool
is_candidate now j =
    (is_waiting j.status || is_running j.status)
    && ltb j.attempts j.max_attempts
    && leb j.available_at now
    && elim j.lease_expires_at [ none ↦ true | some t ↦ leb t now ]

-- `ORDER BY priority DESC, available_at ASC, created_at ASC, job_id ASC`
unfoldable pub comes_before : {P : Type 0} → (Text → Text → Bool) → JobRecord P → JobRecord P → Bool
comes_before before i j =
    if lt_int j.priority i.priority
    then true
    else if lt_int i.priority j.priority
    then false
    else if ltb i.available_at j.available_at
    then true
    else if ltb j.available_at i.available_at
    then false
    else if ltb i.created_at j.created_at
    then true
    else if ltb j.created_at i.created_at
    then false
    else before i.job_id j.job_id

-- The first row in that order among those that meet a condition.
unfoldable pub first_of_order :
    {P : Type 0}
    → (Text → Text → Bool)
    → (JobRecord P → Bool)
    → List (JobRecord P)
    → Option (JobRecord P)
first_of_order before p [] = none
first_of_order before p (j ∷ js) =
    let rest = first_of_order before p js in
    if p j
    then (elim rest [ none ↦ some j | some i ↦ if comes_before before i j then some i else some j ])
    else rest

abbrev pub attempt_exhausted_code : Text
attempt_exhausted_code = codes "ATTEMPT_BUDGET_EXHAUSTED"

abbrev pub attempt_exhausted_message : Text
attempt_exhausted_message = codes "attempt budget exhausted after lease expiry or due retry"

-- The SET list of `dead_lettered`.
unfoldable pub dead_lettered : {P : Type 0} → Time → JobRecord P → JobRecord P
dead_lettered now j = record j {
  status = JobStatus.dead_letter;
  lease_owner = none;
  lease_expires_at = none;
  last_failure_code = some attempt_exhausted_code;
  last_failure_message = some attempt_exhausted_message;
  last_failure_at = some now;
  updated_at = now;
}

-- The SET list of the claim itself.
unfoldable pub claimed : {P : Type 0} → Text → Time → Time → JobRecord P → JobRecord P
claimed owner duration now j = record j {
  status = JobStatus.running;
  attempts = j.attempts + 1;
  lease_owner = some owner;
  lease_epoch = j.lease_epoch + 1;
  lease_expires_at = some (now + duration);
  updated_at = now;
}

-- Who claims what: the arguments of `claim`, the lease duration of the store, the clock of the
-- statement, and the rows that other transactions have locked.
pub record Claim : Type 0 where
  pub scope_key : Text
  pub owner : Text
  pub raise_if_none : Bool
  pub job_type : Option Text
  pub duration : Time
  pub now : Time
  pub locked : Text → Bool

unfoldable pub check_job_type : Option Text → Result WorkerError (Unit {0})
check_job_type none = ok tt
check_job_type (some job_type) = validated_identity job_type

-- The statement of `claim`: exhausted jobs are dead-lettered, the first candidate is claimed. The
-- row that the statement joins with the candidate by its primary key is the candidate itself.
unfoldable pub claim_statement :
    {P : Type 0} → (Text → Text → Bool) → Claim → Db P → Option (JobRecord P) × Db P
claim_statement before q db =
    let reach = is_in_reach q.scope_key q.job_type q.locked in
    let swept = update (λ j. reach j && is_exhausted q.now j) (dead_lettered q.now) db.jobs in
    elim (first_of_order before (λ j. reach j && is_candidate q.now j) db.jobs) [
      | none ↦ (none, record db { jobs = swept })
      | some i ↦ (
        some (claimed q.owner q.duration q.now i),
        record db {
          jobs =
              update (λ j. has_id i.job_id j && reach j && is_candidate q.now j)
                (claimed q.owner q.duration q.now) swept;
        },
      )
    ]

unfoldable pub claim :
    {P : Type 0}
    → (Text → Text → Bool)
    → Claim
    → Db P
    → Result WorkerError (Option (JobRecord P)) × Db P
claim before q = transaction (λ db. do
  validated_identity q.owner
  check_job_type q.job_type
  let r = claim_statement before q db
  raise_if (not (is_some r.0) && q.raise_if_none) WorkerError.no_eligible_job
  ok r)
