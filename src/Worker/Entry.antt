-- ===== src/Worker/Entry.antt =====
-- Enqueueing, claiming and committing an effect keep the invariant of the rows.
use ephi.Base.{
  ◌+◌, ◌<◌, Bool, true, false, ◌&&◌, not, none, some, List, [], ◌∷◌, ◌++◌, ◌≡◌, refl, sym, ap,
  arith, ◌⊎◌, list_Eq, ℕ_eq, All, All-append, Bool-cases, Option-cases, Result-cases, inl, inr, ◌⊎◌,
  is_some, ok, raise_if, find,
}
use ephi.Base.Text.{Text}
use ephi.Worker.Model.{
  Time, WorkerError, WorkerLease, JobRecord, AppliedEffectReceipt, Db, update, is_terminal,
  is_running, is_waiting, has_id, validated_identity,
}
use ephi.Worker.Queue.{Payloads, Request, new_job, check_request, enqueue, enqueue_checked}
use ephi.Worker.Claims.{
  Claim, claim, claim_statement, check_job_type, is_in_reach, is_exhausted, is_candidate,
  dead_lettered, claimed, first_of_order,
}
use ephi.Worker.Invariant.{
  IsJob, AreEvolved, AreEvolved-refl, AreEvolved-append, AreKept, AreKept-refl, AreEvolved-trans,
  Evolves, IsSafe, IsSafe-refl, update-IsSafe, IsSafe-trans, Ensures-bind, settle-IsSafe,
}
use ephi.Worker.Steps.{evolved}
use ephi.Worker.Effects.{
  Effect, Clock, commit_local_effect, commit_body, replay_effect, apply_effect, write_effect,
  new_receipt, has_effect,
}
use ephi.Worker.Queue.{has_semantic_key}
use ephi.Base.{pair_Eq}
use mathlib.Core.Path.{subst}

module _ {P : Type 0} where
  module _ (reach : JobRecord P → Bool) (now : Time) where
    exhausted-live :
        (j : JobRecord P) → (reach j && is_exhausted now j) ≡ true → is_terminal j.status ≡ false
    unfolding is_exhausted is_running is_waiting is_terminal
    exhausted-live j hit = ground arith

    dead_lettered-Evolves : Evolves (λ j. reach j && is_exhausted now j) (dead_lettered now)
    unfolding dead_lettered is_running
    dead_lettered-Evolves j hit h = (
      record { owned = refl; leased = refl; budget = h.budget; epochs = h.epochs },
      evolved (refl, refl, refl, refl, refl, refl) (omega arith) (exhausted-live j hit),
    )

    candidate-live :
        (job_id : Text) (j : JobRecord P)
        → (has_id job_id j && reach j && is_candidate now j) ≡ true
        → (is_terminal j.status ≡ false) × (j.attempts < j.max_attempts)
    unfolding is_candidate is_running is_waiting is_terminal
    candidate-live job_id j hit = (ground arith, ground arith)

    claimed-Evolves :
        (job_id owner : Text) (duration : Time)
        → Evolves
            (λ j. has_id job_id j && reach j && is_candidate now j)
            (claimed owner duration now)
    unfolding claimed is_running
    claimed-Evolves job_id owner duration j hit h =
        let (live, room) = candidate-live job_id j hit in
        let budget = h.budget in
        (
          record {
            owned = refl;
            leased = refl;
            budget = omega arith;
            epochs = ap (λ n. n + 1) h.epochs;
          },
          evolved (refl, refl, refl, refl, refl, refl) (omega arith) live,
        )

  claim_statement-IsSafe :
      (before : Text → Text → Bool) (q : Claim) (db : Db P)
      → IsSafe db (claim_statement before q db).1
  unfolding claim_statement
  claim_statement-IsSafe before q db =
      elim (Option-cases (first_of_order before (λ j. reach j && is_candidate q.now j) db.jobs)) [
        | inl empty ↦ rw (empty, claim_statement) sweep
        | inr (i, first) ↦
            rw (first, claim_statement)
              (IsSafe-trans db swept (taken i) sweep (
                update-IsSafe (λ j. has_id i.job_id j && reach j && is_candidate q.now j)
                  (claimed q.owner q.duration q.now) swept
                  (claimed-Evolves reach q.now i.job_id q.owner q.duration)))
      ]
    where
      reach : JobRecord P → Bool
      reach = is_in_reach q.scope_key q.job_type q.locked

      swept : Db P
      swept = record db {
        jobs = update (λ j. reach j && is_exhausted q.now j) (dead_lettered q.now) db.jobs;
      }

      taken : JobRecord P → Db P
      taken i = record db {
        jobs =
            update (λ j. has_id i.job_id j && reach j && is_candidate q.now j)
              (claimed q.owner q.duration q.now) swept.jobs;
      }

      sweep : IsSafe db swept
      sweep =
          update-IsSafe (λ j. reach j && is_exhausted q.now j) (dead_lettered q.now) db
            (dead_lettered-Evolves reach q.now)

  pub claim-IsSafe :
      (before : Text → Text → Bool) (q : Claim) (db : Db P) → IsSafe db (claim before q db).1
  unfolding claim
  claim-IsSafe before q db = settle-IsSafe db _ (
      Ensures-bind db (validated_identity q.owner) _ λ _.
        Ensures-bind db (check_job_type q.job_type) _ λ _.
          Ensures-bind db
            (raise_if (not (is_some (claim_statement before q db).0) && q.raise_if_none)
              WorkerError.no_eligible_job)
            _ λ _. claim_statement-IsSafe before q db)

  new_job-IsJob :
      (r : Request P) (job_id : Text) (payload : P) (payload_hash : Text) (now : Time)
      → IsJob (new_job r job_id payload payload_hash now)
  unfolding new_job is_running
  new_job-IsJob r job_id payload payload_hash now = record {
    owned = refl;
    leased = refl;
    budget = omega arith;
    epochs = refl;
  }

  enqueue_checked-IsSafe :
      (r : Request P) (job_id : Text) (payload : P) (payload_hash : Text) (now : Time)
      (raced : List (JobRecord P)) (db : Db P)
      → All IsJob raced
      → IsSafe db (enqueue_checked r job_id payload payload_hash now raced db).1
  unfolding enqueue_checked
  enqueue_checked-IsSafe r job_id payload payload_hash now raced db others all =
      elim (Option-cases (find (has_semantic_key r.scope_key r.semantic_key) db.jobs)) [
        | inr (existing, found) ↦ rw (found, enqueue_checked) (joined all)
        | inl absent ↦
            elim (Bool-cases (is_some (find (has_semantic_key r.scope_key r.semantic_key) raced))) [
              | inl lost ↦ rw (absent, lost, enqueue_checked) (joined all)
              | inr won ↦ rw (absent, won, enqueue_checked) (added all)
            ]
      ]
    where
      joined : IsSafe db (record db { jobs = db.jobs ++ raced })
      joined a = (
        All-append IsJob db.jobs raced a others,
        (AreEvolved-append db.jobs raced, AreKept-refl db.effects),
      )

      added : IsSafe db (record db {
        jobs = (db.jobs ++ raced) ++ (new_job r job_id payload payload_hash now ∷ []);
      })
      added a =
          let new = new_job r job_id payload payload_hash now ∷ [] in
          (
            All-append IsJob (db.jobs ++ raced) new (All-append IsJob db.jobs raced a others)
                (new_job-IsJob r job_id payload payload_hash now, tt),
            (
              AreEvolved-trans db.jobs (db.jobs ++ raced) _ (AreEvolved-append db.jobs raced)
                  (AreEvolved-append (db.jobs ++ raced) new),
              AreKept-refl db.effects,
            ),
          )

pub enqueue-IsSafe :
    (c : Payloads) (r : Request c.Payload) (job_id : Text) (now : Time)
    (raced : List (JobRecord c.Payload)) (db : Db c.Payload)
    → All IsJob raced
    → IsSafe db (enqueue c r job_id now raced db).1
unfolding enqueue
enqueue-IsSafe c r job_id now raced db others = elim (Result-cases (check_request c r)) [
  | inl ((payload, hash), passed) ↦
      rw (passed, enqueue) (enqueue_checked-IsSafe r job_id payload hash now raced db others)
  | inr (e, refused) ↦ rw (refused, enqueue) (IsSafe-refl db)
]

module _ (c : Payloads) where
  -- Committing an effect leaves the rows of the queue alone.
  commit_body-jobs :
      (lease : WorkerLease) (e : Effect c.Payload) (t : Clock) (db db' : Db c.Payload) {receipt : _}
      → commit_body c lease e t db ≡ ok (receipt, db')
      → db'.jobs ≡ db.jobs
  unfolding commit_body replay_effect apply_effect write_effect
  commit_body-jobs lease e t db db' h = ground arith

  -- A commit that succeeds has found the receipt, or has added it.
  pub commit_body-cases :
      (lease : WorkerLease) (e : Effect c.Payload) (t : Clock) (db db' : Db c.Payload)
      {receipt : AppliedEffectReceipt c.Payload}
      → commit_body c lease e t db ≡ ok (receipt, db')
      → (find (has_effect lease.job_id e.effect_key) db.effects ≡ some receipt) × (db' ≡ db)
        ⊎ (find (has_effect lease.job_id e.effect_key) db.effects ≡ none)
          × ((db'.effects ≡ db.effects ++ (receipt ∷ []))
              × ((receipt.job_id ≡ lease.job_id) × (receipt.effect_key ≡ e.effect_key)))
  unfolding commit_body replay_effect apply_effect write_effect new_receipt
  commit_body-cases lease e t db db' h =
      elim (Option-cases (find (has_effect lease.job_id e.effect_key) db.effects)) [
        | inr (r, found) ↦ inl (ground arith)
        | inl absent ↦ inr (ground arith)
      ]

  pub commit_local_effect-IsSafe :
      (lease : WorkerLease) (e : Effect c.Payload) (t : Clock) (db : Db c.Payload)
      → IsSafe db (commit_local_effect c lease e t db).1
  unfolding commit_local_effect
  commit_local_effect-IsSafe lease e t db all = elim (Result-cases (commit_body c lease e t db)) [
    | inl ((receipt, db'), done) ↦
        rw (done, commit_local_effect)
          (let same : db'.jobs ≡ db.jobs = commit_body-jobs lease e t db db' done in
            (
              subst (All IsJob) (sym same) all,
              (
                subst (AreEvolved db.jobs) (sym same) (AreEvolved-refl db.jobs),
                elim (commit_body-cases lease e t db db' done) [
                  | inl (_, unchanged) ↦
                      subst (λ (z : Db c.Payload). AreKept db.effects z.effects) (sym unchanged)
                        (AreKept-refl db.effects)
                  | inr (_, (added, _)) ↦ (receipt ∷ [], added)
                ],
              ),
            ))
    | inr (x, refused) ↦ rw (refused, commit_local_effect) (IsSafe-refl db all)
  ]
