-- ===== src/Worker/Fencing.antt =====
-- A lease that a later claim has superseded can change nothing more, after any run of the store
-- (src/ephi/infrastructure/postgresql_worker.py).
use mathlib.Core.Path.{subst}
use ephi.Base.{
  ℕ, ◌≤◌, ◌<◌, Bool, true, false, Option, some, List, [], ◌∷◌, ◌≡◌, ◌≢◌, sym, arith, ◌∙◌, All,
  Bool-cases, inl, inr, ◌==◌, list_Eq, ℕ_eq, option_Eq, some_inj, find,
}
use ephi.Base.{bind-raises, head-raises}
use ephi.Base.Text.{Text}
use ephi.Worker.Model.{
  Time, WorkerLease, JobRecord, Db, has_id, locked_lease, validate_lease, validated_identity,
}
use ephi.Worker.Queue.{Payloads, input_hash}
use ephi.Base.{ap, list_eq_iff}
use ephi.Worker.Leases.{cancel, heartbeat, complete, fail, defer}
use ephi.Worker.Effects.{Effect, Clock, commit_local_effect, commit_body}
use ephi.Worker.Invariant.{IsJob, AreEvolved}
use ephi.Worker.Runs.{Run, Run-IsSafe}
use ephi.Worker.Stale.{
  IsSuperseded, IsRejected, heartbeat-IsRejected, complete-IsRejected, fail-IsRejected,
  defer-IsRejected, cancel-IsRejected, settle-IsRejected, no_lock,
}

≤-after : {a b c : ℕ} → a < b → b ≤ c → a < c
≤-after p q = omega arith

true≢false : true ≢ false
true≢false h = cc

module _ {P : Type 0} where
  -- `job_id` is the primary key of the table.
  abbrev pub IsKeyed : List (JobRecord P) → Type 0
  IsKeyed [] = Unit
  IsKeyed (j ∷ js) = All (λ (k : JobRecord P). (k.job_id == j.job_id) ≡ false) js × IsKeyed js

  other_rows :
      (lease : WorkerLease) (js : List (JobRecord P)) {name : Text}
      → name ≡ lease.job_id
      → All (λ (k : JobRecord P). (k.job_id == name) ≡ false) js
      → IsSuperseded lease js
  other_rows lease [] e a = tt
  other_rows lease (j ∷ js) {name} e a = (
    λ h. absurd (true≢false (sym h ∙ subst (λ z. (j.job_id == z) ≡ false) e a.0)),
    other_rows lease js e a.1,
  )

  -- A job's epoch passes to the later rows of a table with a primary key.
  IsSuperseded-later :
      (lease : WorkerLease) (is js : List (JobRecord P)) {k : JobRecord P}
      → AreEvolved is js
      → IsKeyed js
      → find (has_id lease.job_id) is ≡ some k
      → lease.epoch < k.lease_epoch
      → IsSuperseded lease js
  unfolding find
  IsSuperseded-later lease [] js ev keyed found l = cc
  IsSuperseded-later lease (i ∷ is) [] ev keyed found l = elim ev [ ]
  IsSuperseded-later lease (i ∷ is) (j ∷ js) {k} ev keyed found l =
      elim (Bool-cases (has_id lease.job_id i)) [
        | inl same ↦
            let here : i ≡ k = some_inj (rw same at found) in
            let name : i.job_id ≡ lease.job_id = (list_eq_iff i.job_id lease.job_id).0 same in
            let later : lease.epoch < j.lease_epoch =
              ≤-after (subst (λ (z : JobRecord P). lease.epoch < z.lease_epoch) (sym here) l)
                ev.0.later_epoch in
            (λ _. later, other_rows lease js (ev.0.same_id ∙ name) keyed.0)
        | inr other ↦ (
          λ h. absurd (true≢false (sym h ∙ (ap (λ z. z == lease.job_id) ev.0.same_id ∙ other))),
          IsSuperseded-later lease is js ev.1 keyed.1 (rw other at found) l,
        )
      ]

module _ (c : Payloads) where
  commit-IsRejected :
      (lease : WorkerLease) (db : Db c.Payload)
      → IsSuperseded lease db.jobs
      → (e : Effect c.Payload) (t : Clock) → IsRejected db (commit_local_effect c lease e t db)
  unfolding commit_local_effect commit_body
  commit-IsRejected lease db h e t = settle-IsRejected db _ (
      bind-raises (validate_lease lease) _ λ _. bind-raises (validated_identity e.effect_key) _ λ _.
        bind-raises (validated_identity e.aggregate_type) _ λ _.
          bind-raises (validated_identity e.aggregate_id) _ λ _.
            bind-raises (input_hash c e.input_payload) _ λ hashed.
              head-raises (locked_lease lease t.locked_at db) _ (no_lock lease t.locked_at db h))

  -- Whatever a lease is used for is rejected.
  abbrev pub IsFenced : WorkerLease → Db c.Payload → Type 0
  IsFenced lease b =
      ((duration t1 t2 : Time) → IsRejected b (heartbeat lease duration t1 t2 b))
      × (((t1 t2 : Time) → IsRejected b (complete lease t1 t2 b))
          × (((retryable : Bool) (code message : Text) (next : Option Time) (t1 t2 t3 : Time)
                → IsRejected b (fail lease retryable code message next t1 t2 t3 b))
              × (((at t1 t2 t3 t4 : Time) → IsRejected b (defer lease at t1 t2 t3 t4 b))
                  × (((scope_key : Text) (t1 t2 t3 : Time)
                        → IsRejected b (cancel scope_key lease.job_id (some lease) t1 t2 t3 b))
                      × ((e : Effect c.Payload) (t : Clock)
                          → IsRejected b (commit_local_effect c lease e t b))))))

  -- Fencing. Once the row of a job has a later epoch than a lease of it, then after any run of the
  -- store (from well-formed rows, to a table that respects its primary key) every use of that lease,
  -- to extend it, to complete, fail, defer or cancel the job or to commit an effect, raises an error
  -- and changes no table, whatever its arguments and the time.
  pub superseded-IsFenced :
      {a b : Db c.Payload} (lease : WorkerLease) {i : JobRecord c.Payload}
      → Run c a b
      → All IsJob a.jobs
      → IsKeyed b.jobs
      → find (has_id lease.job_id) a.jobs ≡ some i
      → lease.epoch < i.lease_epoch
      → IsFenced lease b
  superseded-IsFenced {a} {b} lease run sound keyed found l =
      let late =
        IsSuperseded-later lease a.jobs b.jobs (Run-IsSafe c run sound).1.0 keyed found l in
      (
        heartbeat-IsRejected lease b late,
        (
          complete-IsRejected lease b late,
          (
            fail-IsRejected lease b late,
            (
              defer-IsRejected lease b late,
              (cancel-IsRejected lease b late, commit-IsRejected lease b late),
            ),
          ),
        ),
      )
