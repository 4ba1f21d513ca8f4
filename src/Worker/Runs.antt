-- ===== src/Worker/Runs.antt =====
-- The runs of the store: transactions of any callers, one after the other, in any order and at any
-- readings of the clock (src/ephi/infrastructure/postgresql_worker.py).
use ephi.Base.{Bool, Option, List, All, list_Eq, ℕ_eq, option_Eq}
use ephi.Base.Text.{Text}
use ephi.Worker.Model.{Time, WorkerLease, JobRecord, Db}
use ephi.Worker.Queue.{Payloads, Request, enqueue}
use ephi.Worker.Claims.{Claim, claim}
use ephi.Worker.Leases.{heartbeat, complete, fail, defer, cancel}
use ephi.Worker.Effects.{Effect, Clock, commit_local_effect}
use ephi.Worker.Invariant.{IsJob, AreEvolved, AreKept, IsSafe, IsSafe-refl, IsSafe-trans}
use ephi.Worker.Steps.{heartbeat-IsSafe, complete-IsSafe, fail-IsSafe, defer-IsSafe, cancel-IsSafe}
use ephi.Worker.Entry.{claim-IsSafe, enqueue-IsSafe, commit_local_effect-IsSafe}

-- One transaction, by its operation.
pub data Step (c : Payloads) : Db c.Payload → Db c.Payload → Type 1 where
  enqueues :
      (r : Request c.Payload) (job_id : Text) (now : Time) (raced : List (JobRecord c.Payload))
      (db : Db c.Payload)
      → All IsJob raced
      → Step c db (enqueue c r job_id now raced db).1
  claims : (q : Claim) (db : Db c.Payload) → Step c db (claim c.before q db).1
  beats :
      (lease : WorkerLease) (duration t1 t2 : Time) (db : Db c.Payload)
      → Step c db (heartbeat lease duration t1 t2 db).1
  completes :
      (lease : WorkerLease) (t1 t2 : Time) (db : Db c.Payload)
      → Step c db (complete lease t1 t2 db).1
  fails :
      (lease : WorkerLease) (retryable : Bool) (code message : Text) (next : Option Time)
      (t1 t2 t3 : Time) (db : Db c.Payload)
      → Step c db (fail lease retryable code message next t1 t2 t3 db).1
  defers :
      (lease : WorkerLease) (at t1 t2 t3 t4 : Time) (db : Db c.Payload)
      → Step c db (defer lease at t1 t2 t3 t4 db).1
  cancels :
      (scope_key job_id : Text) (lease : Option WorkerLease) (t1 t2 t3 : Time) (db : Db c.Payload)
      → Step c db (cancel scope_key job_id lease t1 t2 t3 db).1
  commits :
      (lease : WorkerLease) (e : Effect c.Payload) (t : Clock) (db : Db c.Payload)
      → Step c db (commit_local_effect c lease e t db).1

pub data Run (c : Payloads) : Db c.Payload → Db c.Payload → Type 1 where
  stays : (db : Db c.Payload) → Run c db db
  goes : {db mid end : Db c.Payload} → Step c db mid → Run c mid end → Run c db end

module _ (c : Payloads) where
  Step-IsSafe : {a b : Db c.Payload} → Step c a b → IsSafe a b
  Step-IsSafe (enqueues r job_id now raced db others) =
      enqueue-IsSafe c r job_id now raced db others
  Step-IsSafe (claims q db) = claim-IsSafe c.before q db
  Step-IsSafe (beats lease duration t1 t2 db) = heartbeat-IsSafe lease duration t1 t2 db
  Step-IsSafe (completes lease t1 t2 db) = complete-IsSafe lease t1 t2 db
  Step-IsSafe (fails lease retryable code message next t1 t2 t3 db) =
      fail-IsSafe lease retryable code message next t1 t2 t3 db
  Step-IsSafe (defers lease at t1 t2 t3 t4 db) = defer-IsSafe lease at t1 t2 t3 t4 db
  Step-IsSafe (cancels scope_key job_id lease t1 t2 t3 db) =
      cancel-IsSafe scope_key job_id lease t1 t2 t3 db
  Step-IsSafe (commits lease e t db) = commit_local_effect-IsSafe c lease e t db

  pub Run-IsSafe : {a b : Db c.Payload} → Run c a b → IsSafe a b
  Run-IsSafe (stays db) = IsSafe-refl db
  Run-IsSafe (goes {db} {mid} {end} step run) =
      IsSafe-trans db mid end (Step-IsSafe step) (Run-IsSafe run)

  -- In every run of the store from tables whose rows are well formed (a lease exactly while a job
  -- runs, attempts within the budget, one lease epoch per attempt), the rows stay well formed; no row
  -- is lost, and each keeps its identity, scope, semantic key, job type, payload hash and budget, never
  -- lowers its lease epoch, and never changes again once its status is terminal; and no receipt of an
  -- effect is lost. Rows that other transactions enqueue in a race are taken to be well formed.
  pub Run-Keeps :
      {a b : Db c.Payload}
      → Run c a b
      → All IsJob a.jobs
      → All IsJob b.jobs × (AreEvolved a.jobs b.jobs × AreKept a.effects b.effects)
  Run-Keeps run sound = Run-IsSafe run sound
