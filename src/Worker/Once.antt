-- ===== src/Worker/Once.antt =====
-- A local effect is applied once (`commit_local_effect` of src/ephi/infrastructure/postgresql_worker.py).
use mathlib.Core.Path.{subst}
use ephi.Base.{
  ◌≢◌, list_eq_iff, Option-cases, Bool, true, ◌&&◌, none, some, List, [], ◌∷◌, ◌++◌, ◌≡◌, refl, sym,
  arith, ◌∙◌, All, Bool-cases, Result-cases, inl, inr, ◌⊎◌, Result, ok, err, ◌==◌, list_Eq, ℕ_eq,
  some_inj, ==-refl, ap, find,
}
use ephi.Base.Text.{Text}
use ephi.Worker.Model.{WorkerError, WorkerLease, AppliedEffectReceipt, Db, settle}
use ephi.Worker.Queue.{Payloads, input_hash}
use ephi.Worker.Effects.{
  apply_effect, write_effect, new_receipt, Effect, Clock, commit_local_effect, commit_body,
  has_effect, replay_effect,
}
use ephi.Worker.Invariant.{IsJob}
use ephi.Worker.Entry.{commit_body-cases}
use ephi.Worker.Stale.{IsRejected}
use ephi.Worker.Runs.{Run, Run-IsSafe}

pub find-append :
    {A : Type 0} (p : A → Bool) (xs ys : List A) {x : A}
    → find p xs ≡ some x
    → find p (xs ++ ys) ≡ some x
unfolding find
find-append p [] ys h = cc
find-append p (z ∷ xs) ys h = elim (Bool-cases (p z)) [
  | inl hit ↦ rw hit (rw hit at h)
  | inr miss ↦ rw miss (find-append p xs ys (rw miss at h))
]

pub find-added :
    {A : Type 0} (p : A → Bool) (xs : List A) (x : A)
    → find p xs ≡ none
    → p x ≡ true
    → find p (xs ++ (x ∷ [])) ≡ some x
unfolding find
find-added p [] x h hit = rw hit refl
find-added p (z ∷ xs) x h hit = elim (Bool-cases (p z)) [
  | inl q ↦ cc (rw q at h)
  | inr miss ↦ rw miss (find-added p xs x (rw miss at h) hit)
]

settle-ok :
    {P A : Type 0} (db : Db P) (r : Result WorkerError (A × Db P)) {a : A} {db' : Db P}
    → settle db r ≡ (ok a, db')
    → r ≡ ok (a, db')
settle-ok db (ok (x, y)) h = ground arith
settle-ok db (err e) h = ground arith

module _ (c : Payloads) where
  has_own :
      (job_id key : Text) (r : AppliedEffectReceipt c.Payload)
      → r.job_id ≡ job_id
      → r.effect_key ≡ key
      → has_effect job_id key r ≡ true
  has_own job_id key r e f =
      subst (λ z. (z == job_id) && (r.effect_key == key) ≡ true) (sym e)
        (subst (λ z. (job_id == job_id) && (z == key) ≡ true) (sym f)
          (rw (==-refl job_id, ==-refl key) refl))

  -- After a commit the tables hold its receipt.
  committed-found :
      (lease : WorkerLease) (e : Effect c.Payload) (t : Clock) (db db' : Db c.Payload)
      {receipt : AppliedEffectReceipt c.Payload}
      → commit_local_effect c lease e t db ≡ (ok receipt, db')
      → find (has_effect lease.job_id e.effect_key) db'.effects ≡ some receipt
  unfolding commit_local_effect
  committed-found lease e t db db' {receipt} h =
      let done = settle-ok db (commit_body c lease e t db) h in
      elim (commit_body-cases c lease e t db db' done) [
        | inl (found, same) ↦
            subst
              (λ (z : Db c.Payload).
                find (has_effect lease.job_id e.effect_key) z.effects ≡ some receipt)
              (sym same) found
        | inr (absent, (added, (owner, key))) ↦
            subst (λ z. find (has_effect lease.job_id e.effect_key) z ≡ some receipt) (sym added)
              (find-added (has_effect lease.job_id e.effect_key) db.effects receipt absent
                (has_own lease.job_id e.effect_key receipt owner key))
      ]

  -- A commit where the receipt is there.
  replays :
      (lease : WorkerLease) (e : Effect c.Payload) (t : Clock) (db : Db c.Payload)
      {receipt : AppliedEffectReceipt c.Payload}
      → find (has_effect lease.job_id e.effect_key) db.effects ≡ some receipt
      → (commit_local_effect c lease e t db ≡ (ok receipt, db))
        ⊎ IsRejected db (commit_local_effect c lease e t db)
  unfolding commit_local_effect
  replays lease e t db {receipt} found = elim (Result-cases (commit_body c lease e t db)) [
    | inr (x, refused) ↦ inr (x, rw (refused, commit_local_effect) refl)
    | inl ((r, db'), done) ↦ elim (commit_body-cases c lease e t db db' done) [
      | inl (again, same) ↦
          let one : r ≡ receipt = some_inj (sym again ∙ found) in
          inl (
            rw (done, commit_local_effect)
              (ap (λ z. (ok z, db')) one ∙ ap (λ z. (ok receipt, z)) same))
      | inr (absent, _) ↦ cc (found, absent)
    ]
  ]

  -- Exactly once. After a commit of an effect that succeeded, in whatever state any run of the store
  -- then reaches (from well-formed rows), every further commit of the same effect key of the same job,
  -- with any lease, payload, aggregate and mutation, changes no table: it answers with the receipt of
  -- the first commit, or it raises an error.
  pub commit-IsOnce :
      (a : Db c.Payload) {b db : Db c.Payload} (lease again : WorkerLease) (e f : Effect c.Payload)
      (t u : Clock) {receipt : AppliedEffectReceipt c.Payload}
      → commit_local_effect c lease e t a ≡ (ok receipt, db)
      → All IsJob db.jobs
      → Run c db b
      → again.job_id ≡ lease.job_id
      → f.effect_key ≡ e.effect_key
      → (commit_local_effect c again f u b ≡ (ok receipt, b))
        ⊎ IsRejected b (commit_local_effect c again f u b)
  commit-IsOnce a {b} {db} lease again e f t u {receipt} committed sound run same_job same_key =
      let (later, kept) = (Run-IsSafe c run sound).1.1 in
      let there =
        find-append (has_effect lease.job_id e.effect_key) db.effects later
          (committed-found lease e t a db committed) in
      replays again f u b (
        subst (λ z. find (has_effect z f.effect_key) b.effects ≡ some receipt) (sym same_job)
          (subst (λ z. find (has_effect lease.job_id z) b.effects ≡ some receipt) (sym same_key)
            (subst (λ z. find (has_effect lease.job_id e.effect_key) z ≡ some receipt) (sym kept)
              there)))

  -- The receipt that a commit answers with has the hash of its payload.
  committed-hash :
      (lease : WorkerLease) (e : Effect c.Payload) (t : Clock) (db db' : Db c.Payload)
      {receipt : AppliedEffectReceipt c.Payload} {input : c.Payload} {hash : Text}
      → commit_local_effect c lease e t db ≡ (ok receipt, db')
      → input_hash c e.input_payload ≡ ok (input, hash)
      → receipt.input_hash ≡ hash
  unfolding commit_local_effect commit_body replay_effect apply_effect write_effect new_receipt
  committed-hash lease e t db db' {receipt} {input} {hash} h hashed =
      let done = settle-ok db (commit_body c lease e t db) h in
      elim (Option-cases (find (has_effect lease.job_id e.effect_key) db.effects)) [
        | inr (r, found) ↦ ground (arith, list_eq_iff receipt.input_hash hash)
        | inl absent ↦ ground arith
      ]

  -- An effect key stands for one payload. After a commit of an effect that succeeded, in whatever state
  -- any run of the store then reaches (from well-formed rows), a further commit of the same effect key
  -- of the same job whose payload hashes otherwise raises an error and changes no table, whatever its
  -- lease, aggregate and mutation.
  pub commit-Conflicts :
      (a : Db c.Payload) {b db : Db c.Payload} (lease again : WorkerLease) (e f : Effect c.Payload)
      (t u : Clock) {receipt : AppliedEffectReceipt c.Payload} {input other : c.Payload}
      {hash different : Text}
      → commit_local_effect c lease e t a ≡ (ok receipt, db)
      → All IsJob db.jobs
      → Run c db b
      → again.job_id ≡ lease.job_id
      → f.effect_key ≡ e.effect_key
      → input_hash c e.input_payload ≡ ok (input, hash)
      → input_hash c f.input_payload ≡ ok (other, different)
      → hash ≢ different
      → IsRejected b (commit_local_effect c again f u b)
  commit-Conflicts a {b} {db} lease again e f t u committed sound run same_job same_key hashed
        other_hashed differs =
      elim (commit-IsOnce a lease again e f t u committed sound run same_job same_key) [
        | inr rejected ↦ rejected
        | inl returned ↦ absurd (
            differs (
              sym (committed-hash lease e t a db committed hashed)
              ∙ committed-hash again f u b b returned other_hashed))
      ]
