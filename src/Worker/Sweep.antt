-- ===== src/Worker/Sweep.antt =====
-- A claim that finds no job (`claim` of src/ephi/infrastructure/postgresql_worker.py).
use ephi.Base.{
  Bool, true, false, ◌&&◌, none, some, List, [], ◌∷◌, ◌≡◌, refl, ap, arith, ◌∙◌, All, Bool-cases,
  inl, inr, ◌⊎◌, ok, err,
}
use ephi.Base.Text.{Text}
use ephi.Worker.Model.{JobStatus, WorkerError, JobRecord, Db, update, is_running, is_waiting}
use ephi.Worker.Claims.{
  Claim, claim, claim_statement, dead_lettered, first_of_order, is_in_reach, is_candidate,
  is_exhausted, attempt_exhausted_code,
}
use ephi.Worker.Order.{can_take, IsProper}

-- The rows that a claim sweeps: in its reach, with all attempts used up.
abbrev pub is_swept : {P : Type 0} → Claim → JobRecord P → Bool
is_swept q j = is_in_reach q.scope_key q.job_type q.locked j && is_exhausted q.now j

-- Row by row: a row that is swept becomes a dead letter that nobody holds, every other row stays.
pub data AreSwept {P : Type 0} (q : Claim) : List (JobRecord P) → List (JobRecord P) → Type 0 where
  no_rows : AreSwept q [] []
  buries :
      {j k : JobRecord P} {js ks : List (JobRecord P)}
      → is_swept q j ≡ true
      → k.job_id ≡ j.job_id
      → k.status ≡ JobStatus.dead_letter
      → k.lease_owner ≡ none
      → k.attempts ≡ j.attempts
      → k.last_failure_code ≡ some attempt_exhausted_code
      → AreSwept q js ks
      → AreSwept q (j ∷ js) (k ∷ ks)
  leaves :
      {j : JobRecord P} {js ks : List (JobRecord P)}
      → is_swept q j ≡ false
      → AreSwept q js ks
      → AreSwept q (j ∷ js) (j ∷ ks)

module _ {P : Type 0} (q : Claim) where
  abbrev bury : List (JobRecord P) → List (JobRecord P)
  bury = update (is_swept q) (dead_lettered q.now)

  bury-AreSwept : (js : List (JobRecord P)) → AreSwept q js (bury js)
  unfolding update dead_lettered
  bury-AreSwept [] = AreSwept.no_rows
  bury-AreSwept (j ∷ js) = elim (Bool-cases (is_swept q j)) [
    | inl hit ↦ rw (hit, update) (AreSwept.buries hit refl refl refl refl refl (bury-AreSwept js))
    | inr miss ↦ rw (miss, update) (AreSwept.leaves miss (bury-AreSwept js))
  ]

  -- A dead letter is neither a candidate nor swept again.
  buried-idle :
      (j : JobRecord P)
      → (can_take q (dead_lettered q.now j) ≡ false) × (is_swept q (dead_lettered q.now j) ≡ false)
  unfolding dead_lettered is_candidate is_exhausted is_running is_waiting
  buried-idle j = ground arith

  bury-idle :
      (js : List (JobRecord P))
      → All (λ j. can_take q j ≡ false) js
      → All (λ j. (can_take q j ≡ false) × (is_swept q j ≡ false)) (bury js)
  unfolding update
  bury-idle [] a = tt
  bury-idle (j ∷ js) (free, a) = elim (Bool-cases (is_swept q j)) [
    | inl hit ↦ rw (hit, update) (buried-idle j, bury-idle js a)
    | inr miss ↦ rw (miss, update) ((free, miss), bury-idle js a)
  ]

  bury_again :
      (js : List (JobRecord P))
      → All (λ j. (can_take q j ≡ false) × (is_swept q j ≡ false)) js
      → bury js ≡ js
  unfolding update
  bury_again [] a = refl
  bury_again (j ∷ js) ((_, miss), a) = rw (miss, update) (ap (λ z. j ∷ z) (bury_again js a))

  first_of_none :
      (before : Text → Text → Bool) (js : List (JobRecord P))
      → All (λ j. can_take q j ≡ false) js
      → first_of_order before (can_take q) js ≡ none
  unfolding first_of_order
  first_of_none before [] a = refl
  first_of_none before (j ∷ js) (free, a) = rw (free, first_of_order) (first_of_none before js a)

  idle-free :
      (js : List (JobRecord P))
      → All (λ j. (can_take q j ≡ false) × (is_swept q j ≡ false)) js
      → All (λ j. can_take q j ≡ false) js
  idle-free [] a = tt
  idle-free (j ∷ js) ((free, _), a) = (free, idle-free js a)

  quiet :
      (before : Text → Text → Bool) (db : Db P)
      → IsProper q
      → All (λ j. can_take q j ≡ false) db.jobs
      → q.raise_if_none ≡ false
      → claim before q db ≡ (ok none, record db { jobs = bury db.jobs })
  unfolding claim claim_statement
  quiet before db proper a silent =
      rw (claim, proper.0, proper.1, claim_statement, first_of_none before db.jobs a, silent) refl

  quiet_again :
      (before : Text → Text → Bool) (db : Db P)
      → IsProper q
      → All (λ j. can_take q j ≡ false) db.jobs
      → q.raise_if_none ≡ false
      → claim before q (record db { jobs = bury db.jobs })
        ≡ (ok none, record db { jobs = bury db.jobs })
  quiet_again before db proper a silent =
      let idle = bury-idle db.jobs a in
      quiet before (record db { jobs = bury db.jobs }) proper (idle-free (bury db.jobs) idle) silent
      ∙ ap (λ z. (ok none, record db { jobs = z })) (bury_again (bury db.jobs) idle)

  module _ (before : Text → Text → Bool) (db : Db P) (proper : IsProper q) where
    raising :
        All (λ j. can_take q j ≡ false) db.jobs
        → q.raise_if_none ≡ true
        → claim before q db ≡ (err WorkerError.no_eligible_job, db)
    unfolding claim claim_statement
    raising a raises =
        rw (claim, proper.0, proper.1, claim_statement, first_of_none before db.jobs a, raises) refl

    -- A claim with proper arguments, where no row in its reach may be taken. If it is told to raise, it
    -- raises that there is no job and the tables stay as they were, the exhausted jobs too. If not, it
    -- answers with no job, each exhausted job in its reach has become a dead letter that nobody holds,
    -- every other row and table is as it was, and the same claim again at the same time answers the same
    -- and changes nothing.
    pub claim-Empty :
        All (λ j. can_take q j ≡ false) db.jobs
        → (q.raise_if_none ≡ true) × (claim before q db ≡ (err WorkerError.no_eligible_job, db))
          ⊎ (q.raise_if_none ≡ false)
            × ((after : Db P) × ((claim before q db ≡ (ok none, after))
                  × (AreSwept q db.jobs after.jobs
                      × ((after.effects ≡ db.effects)
                          × ((after.aggregates ≡ db.aggregates)
                              × (claim before q after ≡ (ok none, after)))))))
    claim-Empty a = elim (Bool-cases q.raise_if_none) [
      | inl raises ↦ inl (raises, raising a raises)
      | inr silent ↦
          let after : Db P = record db { jobs = bury db.jobs } in
          inr (
            silent,
            (
              after,
              (
                quiet before db proper a silent,
                (bury-AreSwept db.jobs, (refl, (refl, quiet_again before db proper a silent))),
              ),
            ),
          )
    ]
