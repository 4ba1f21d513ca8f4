-- ===== src/Worker/Tests.antt =====
-- Examples of the worker queue: a small payload, two jobs, a lease and an effect.
use ephi.Base.{
  nat_eq, ap, ℕ, Bool, true, false, none, some, [], ◌∷◌, ◌++◌, ◌≡◌, refl, arith, ltb, length, All,
  inl, ◌⊎◌, ok, err, list_Eq, ℕ_eq, list_eq, option_eq, pair_eq, contains, find,
}
use ephi.Base.Text.{Text, codes, is_canonical, strip, lstrip, is_space}
use ephi.Base.Int.{pos}
use ephi.Base.Dict.{lookup, insert}
use ephi.Worker.Model.{
  JobStatus, WorkerError, WorkerLease, JobRecord, AppliedEffectReceipt, Db, is_held, is_running,
  is_waiting, is_terminal, is_after, validated_identity, validate_lease, locked_lease,
  assert_locked_lease, has_id,
}
use ephi.Worker.Queue.{Payloads, input_hash}
use ephi.Worker.Claims.{Claim, claim, claimed, is_in_reach, is_candidate, check_job_type}
use ephi.Worker.Effects.{
  Effect, Clock, commit_local_effect, commit_body, replay_effect, apply_effect, write_effect,
  new_receipt, result_identity,
}
use ephi.Worker.Invariant.{IsJob, AreEvolved, AreKept}
use ephi.Worker.Runs.{Step, Run, Run-Keeps}
use ephi.Worker.Fencing.{IsFenced, IsKeyed, superseded-IsFenced}
use ephi.Worker.Stale.{IsRejected}
use ephi.Worker.Once.{commit-IsOnce, commit-Conflicts}
use ephi.Worker.Queue.{Request, check_request, enqueue, enqueue_checked, new_job}
use ephi.Worker.Dedup.{enqueue-Again}
use ephi.Base.Order.{IsOrder, IsIn}
use ephi.Worker.Order.{IsFirst, IsProper, can_take, claim-TakesFirst}
use ephi.Worker.Sweep.{AreSwept, claim-Empty}
use ephi.Base.Order.{true≢false}

abbrev shorter : Text → Text → Bool
shorter a b = ltb (length a) (length b)

shorter-IsOrder : IsOrder shorter
shorter-IsOrder = record { asymmetric = λ a b h. ground arith; between = λ a b d h k. ground arith }

abbrev texts : Payloads
texts = record {
  Payload = Text;
  normalize = λ p. some p;
  digest = λ p. p;
  sha256 = λ t. t;
  before = shorter;
}

abbrev waiting_job : Text → ℕ → JobRecord Text
waiting_job name priority = record {
  job_id = name;
  scope_key = codes "s";
  job_type = codes "index";
  semantic_key = name;
  payload_hash = [];
  payload = [];
  status = JobStatus.queued;
  priority = pos priority;
  available_at = 10;
  attempts = 0;
  max_attempts = 3;
  lease_owner = none;
  lease_epoch = 0;
  lease_expires_at = none;
  last_failure_code = none;
  last_failure_message = none;
  last_failure_at = none;
  created_at = 10;
  updated_at = 10;
}

abbrev running_job : JobRecord Text
running_job = record (waiting_job (codes "a") 1) {
  status = JobStatus.running;
  attempts = 2;
  lease_owner = some (codes "w2");
  lease_epoch = 2;
  lease_expires_at = some 500;
}

abbrev waiting_db : Db Text
waiting_db = record {
  jobs = waiting_job (codes "a") 1 ∷ waiting_job (codes "b") 7 ∷ [];
  effects = [];
  aggregates = [];
}

abbrev running_db : Db Text
running_db = record {
  jobs = running_job ∷ waiting_job (codes "b") 7 ∷ [];
  effects = [];
  aggregates =
      ((codes "s", (codes "t", codes "x")), record { version = 4; state = codes "old" }) ∷ [];
}

abbrev query : Claim
query = record {
  scope_key = codes "s";
  owner = codes "w1";
  raise_if_none = true;
  job_type = none;
  duration = 100;
  now = 20;
  locked = λ _. false;
}

abbrev old_lease : WorkerLease
old_lease = record { job_id = codes "a"; owner = codes "w1"; epoch = 1 }

abbrev held_lease : WorkerLease
held_lease = record { job_id = codes "a"; owner = codes "w2"; epoch = 2 }

abbrev append_effect : Effect Text
append_effect = record {
  effect_key = codes "k";
  input_payload = codes "in";
  aggregate_type = codes "t";
  aggregate_id = codes "x";
  mutation = λ state input. ok (state ++ input);
}

abbrev clock : Clock
clock = record {
  locked_at = 20;
  replayed_at = 21;
  updated_at = 22;
  inserted_at = 23;
  failed_at = 24;
}

abbrev receipt_k : AppliedEffectReceipt Text
receipt_k = record {
  job_id = codes "a";
  effect_key = codes "k";
  input_hash = codes "in";
  committed_revision = 5;
  result_identity = codes "ephi-o2:local-effect:a:k:in";
  result = codes "oldin";
  committed_at = 23;
}

abbrev committed_db : Db Text
committed_db = record running_db {
  effects = receipt_k ∷ [];
  aggregates =
      ((codes "s", (codes "t", codes "x")), record { version = 5; state = codes "oldin" }) ∷ [];
}

waiting_db-IsJob : All IsJob waiting_db.jobs
unfolding is_running
waiting_db-IsJob = (waits (codes "a") 1, (waits (codes "b") 7, tt))
  where
    waits : (name : Text) (p : ℕ) → IsJob (waiting_job name p)
    waits name p = record { owned = refl; leased = refl; budget = omega arith; epochs = refl }

running_db-IsJob : All IsJob running_db.jobs
unfolding is_running
running_db-IsJob = (
  record { owned = refl; leased = refl; budget = omega arith; epochs = refl },
  (record { owned = refl; leased = refl; budget = omega arith; epochs = refl }, tt),
)

run-Keeps_example :
    All IsJob (claim shorter query waiting_db).1.jobs
    × (AreEvolved waiting_db.jobs (claim shorter query waiting_db).1.jobs
        × AreKept waiting_db.effects (claim shorter query waiting_db).1.effects)
run-Keeps_example =
    Run-Keeps texts (Run.goes (Step.claims query waiting_db) (Run.stays _)) waiting_db-IsJob

running_db_found : find (has_id (codes "a")) running_db.jobs ≡ some running_job
unfolding find list_eq
running_db_found = refl

running_db-IsKeyed : IsKeyed running_db.jobs
unfolding list_eq
running_db-IsKeyed = ((refl, tt), (tt, tt))

superseded-IsFenced_example : IsFenced texts old_lease running_db
superseded-IsFenced_example =
    superseded-IsFenced texts old_lease (Run.stays running_db) running_db-IsJob running_db-IsKeyed
      running_db_found (omega arith)

committed :
    commit_local_effect texts held_lease append_effect clock running_db
    ≡ (ok receipt_k, committed_db)
unfolding commit_local_effect commit_body replay_effect apply_effect write_effect new_receipt
    result_identity validate_lease validated_identity is_canonical strip lstrip is_space input_hash
    locked_lease assert_locked_lease is_terminal is_running is_after is_held find list_eq option_eq
    pair_eq lookup insert contains
committed = refl

commit-IsOnce_example :
    (commit_local_effect texts old_lease append_effect clock committed_db
      ≡ (ok receipt_k, committed_db))
    ⊎ IsRejected committed_db (commit_local_effect texts old_lease append_effect clock committed_db)
commit-IsOnce_example =
    commit-IsOnce texts running_db held_lease old_lease append_effect append_effect clock clock
      committed running_db-IsJob (Run.stays committed_db) refl refl

-- The same effect key with another payload.
commit-Conflicts_example : IsRejected committed_db (
    commit_local_effect texts old_lease
      (record append_effect { input_payload = codes "out" })
      clock
      committed_db)
unfolding input_hash
commit-Conflicts_example =
    commit-Conflicts texts running_db held_lease old_lease append_effect
      (record append_effect { input_payload = codes "out" }) clock clock committed running_db-IsJob
      (Run.stays committed_db) refl refl hashed other_hashed
      (λ h. absurd (true≢false (ap starts_i h)))
  where
    hashed : input_hash texts (codes "in") ≡ ok (codes "in", codes "in")
    hashed = refl

    other_hashed : input_hash texts (codes "out") ≡ ok (codes "out", codes "out")
    other_hashed = refl

    starts_i : Text → Bool
    starts_i [] = false
    starts_i (x ∷ _) = nat_eq x 105

query-IsProper : IsProper query
unfolding validated_identity check_job_type is_canonical strip lstrip is_space contains list_eq
query-IsProper = (refl, refl)

taken_a : can_take query (waiting_job (codes "a") 1) ≡ true
unfolding is_in_reach is_candidate is_waiting is_running list_eq
taken_a = refl

claim-TakesFirst_example :
    (i : JobRecord Text) × ((claim shorter query waiting_db).0
      ≡ ok (some (claimed (codes "w1") 100 20 i)))
    × (IsIn i waiting_db.jobs
        × ((can_take query i ≡ true) × IsFirst shorter (can_take query) waiting_db.jobs i))
claim-TakesFirst_example =
    claim-TakesFirst shorter shorter-IsOrder query waiting_db (waiting_job (codes "a") 1)
      query-IsProper (inl refl) taken_a

-- A job whose attempts are used up and whose lease has run out.
abbrev exhausted_db : Db Text
exhausted_db = record {
  jobs = record running_job { attempts = 3; lease_epoch = 3; lease_expires_at = some 15 } ∷ [];
  effects = [];
  aggregates = [];
}

-- The same claim, not told to raise.
abbrev quiet_query : Claim
quiet_query = record query { raise_if_none = false }

nothing_free : All (λ j. can_take quiet_query j ≡ false) exhausted_db.jobs
unfolding is_in_reach is_candidate is_waiting is_running list_eq
nothing_free = (refl, tt)

claim-Empty_example :
    (false ≡ true)
      × (claim shorter quiet_query exhausted_db ≡ (err WorkerError.no_eligible_job, exhausted_db))
    ⊎ (◌≡◌ {A = Bool} false false)
      × ((after : Db Text) × ((claim shorter quiet_query exhausted_db ≡ (ok none, after))
            × (AreSwept quiet_query exhausted_db.jobs after.jobs
                × ((after.effects ≡ exhausted_db.effects)
                    × ((after.aggregates ≡ exhausted_db.aggregates)
                        × (claim shorter quiet_query after ≡ (ok none, after)))))))
claim-Empty_example = claim-Empty quiet_query shorter exhausted_db query-IsProper nothing_free

abbrev request_k : Request Text
request_k = record {
  scope_key = codes "s";
  job_type = codes "index";
  semantic_key = codes "k";
  payload = codes "in";
  available_at = none;
  priority = pos 1;
  max_attempts = 3;
  begun_at = 28;
}

-- The job that the request adds as `c` at the time 30.
abbrev job_k : JobRecord Text
job_k = record (waiting_job (codes "c") 1) {
  semantic_key = codes "k";
  payload_hash = codes "in";
  payload = codes "in";
  available_at = 30;
  created_at = 28;
  updated_at = 28;
}

abbrev enqueued_db : Db Text
enqueued_db = record waiting_db { jobs = waiting_db.jobs ++ (job_k ∷ []) }

request_checked : check_request texts request_k ≡ ok (codes "in", codes "in")
unfolding check_request validated_identity is_canonical strip lstrip is_space contains list_eq
    input_hash
request_checked = refl

enqueued : enqueue texts request_k (codes "c") 30 [] waiting_db ≡ (ok job_k, enqueued_db)
unfolding enqueue enqueue_checked new_job check_request validated_identity is_canonical strip lstrip
    is_space contains list_eq input_hash find
enqueued = refl

enqueued_db-IsJob : All IsJob enqueued_db.jobs
unfolding is_running
enqueued_db-IsJob = (
  waiting_db-IsJob.0,
  (
    waiting_db-IsJob.1.0,
    (record { owned = refl; leased = refl; budget = omega arith; epochs = refl }, tt),
  ),
)

enqueue-Again_example :
    (k : JobRecord Text) × (k.job_id ≡ codes "c")
    × (enqueue texts request_k (codes "d") 40 [] enqueued_db ≡ (ok k, enqueued_db))
unfolding list_eq
enqueue-Again_example =
    enqueue-Again texts request_k request_k (codes "c") (codes "d") 30 40 [] [] waiting_db
      request_checked request_checked enqueued enqueued_db-IsJob (Run.stays enqueued_db) refl refl
