-- ===== src/Worker/Invariant.antt =====
-- The invariant of a job's row, how a row may change, and the rule for a transaction's body.
use mathlib.Core.Path.{subst}
use ephi.Base.{
  ℕ, ◌≤◌, Bool, true, false, none, some, List, [], ◌∷◌, ◌++◌, ◌≡◌, refl, sym, arith, All,
  Bool-cases, inl, inr, is_some, ◌∙◌, Result, ok, err, ◌>>=◌, find,
}
use ephi.Base.{append_nil, append_assoc, ap}
use ephi.Worker.Model.{
  Time, JobStatus, WorkerError, WorkerLease, JobRecord, AppliedEffectReceipt, Db, settle, update,
  is_terminal, is_running, is_held, holds, lease_failure, update_leased,
}
use ephi.Worker.Rows.{update-All}

≤_chain : {a b c : ℕ} → a ≤ b → b ≤ c → a ≤ c
≤_chain p q = omega arith

-- A row owns a lease exactly while it runs, stays within its attempts, and has had one lease epoch
-- for each attempt.
pub record IsJob {P : Type 0} (j : JobRecord P) : Type 0 where
  pub owned : is_some j.lease_owner ≡ is_running j.status
  pub leased : is_some j.lease_expires_at ≡ is_running j.status
  pub budget : j.attempts ≤ j.max_attempts
  pub epochs : j.lease_epoch ≡ j.attempts

-- What a row keeps for ever: its identity, a lease epoch that never falls, and, once its status is
-- terminal, everything.
pub record IsEvolved {P : Type 0} (i j : JobRecord P) : Type 0 where
  pub same_id : j.job_id ≡ i.job_id
  pub same_scope : j.scope_key ≡ i.scope_key
  pub same_key : j.semantic_key ≡ i.semantic_key
  pub same_type : j.job_type ≡ i.job_type
  pub same_hash : j.payload_hash ≡ i.payload_hash
  pub same_budget : j.max_attempts ≡ i.max_attempts
  pub later_epoch : i.lease_epoch ≤ j.lease_epoch
  pub settled : is_terminal i.status ≡ true → j ≡ i

-- The rows of a table later on: each has evolved, and there may be new ones behind.
abbrev pub AreEvolved : {P : Type 0} → List (JobRecord P) → List (JobRecord P) → Type 0
AreEvolved [] js = Unit
AreEvolved (i ∷ is) [] = ⊥
AreEvolved (i ∷ is) (j ∷ js) = IsEvolved i j × AreEvolved is js

module _ {P : Type 0} where
  pub IsEvolved-refl : (j : JobRecord P) → IsEvolved j j
  IsEvolved-refl j = record {
    same_id = refl;
    same_scope = refl;
    same_key = refl;
    same_type = refl;
    same_hash = refl;
    same_budget = refl;
    later_epoch = omega arith;
    settled = λ _. refl;
  }

  pub AreEvolved-refl : (js : List (JobRecord P)) → AreEvolved js js
  AreEvolved-refl [] = tt
  AreEvolved-refl (j ∷ js) = (IsEvolved-refl j, AreEvolved-refl js)

  pub IsEvolved-trans : {i j k : JobRecord P} → IsEvolved i j → IsEvolved j k → IsEvolved i k
  IsEvolved-trans {i} {j} {k} e f = record {
    same_id = f.same_id ∙ e.same_id;
    same_scope = f.same_scope ∙ e.same_scope;
    same_key = f.same_key ∙ e.same_key;
    same_type = f.same_type ∙ e.same_type;
    same_hash = f.same_hash ∙ e.same_hash;
    same_budget = f.same_budget ∙ e.same_budget;
    later_epoch = ≤_chain e.later_epoch f.later_epoch;
    settled = λ t.
        f.settled (subst (λ (z : JobRecord P). is_terminal z.status ≡ true) (sym (e.settled t)) t)
        ∙ e.settled t;
  }

  pub AreEvolved-trans :
      (is js ks : List (JobRecord P)) → AreEvolved is js → AreEvolved js ks → AreEvolved is ks
  AreEvolved-trans [] js ks a b = tt
  AreEvolved-trans (i ∷ is) [] ks a b = elim a [ ]
  AreEvolved-trans (i ∷ is) (j ∷ js) [] a b = elim b [ ]
  AreEvolved-trans (i ∷ is) (j ∷ js) (k ∷ ks) a b =
      (IsEvolved-trans a.0 b.0, AreEvolved-trans is js ks a.1 b.1)

  pub AreEvolved-append : (is js : List (JobRecord P)) → AreEvolved is (is ++ js)
  AreEvolved-append [] js = tt
  AreEvolved-append (i ∷ is) js = (IsEvolved-refl i, AreEvolved-append is js)

  -- A change of rows that keeps the invariant and is an evolution.
  abbrev pub Evolves : (JobRecord P → Bool) → (JobRecord P → JobRecord P) → Type 0
  Evolves p f = (j : JobRecord P) → p j ≡ true → IsJob j → IsJob (f j) × IsEvolved j (f j)

  pub update-AreEvolved :
      (p : JobRecord P → Bool) (f : JobRecord P → JobRecord P) (js : List (JobRecord P))
      → Evolves p f
      → All IsJob js
      → AreEvolved js (update p f js)
  unfolding update
  update-AreEvolved p f [] e a = tt
  update-AreEvolved p f (j ∷ js) e a = elim (Bool-cases (p j)) [
    | inl hit ↦ rw hit ((e j hit a.0).1, update-AreEvolved p f js e a.1)
    | inr miss ↦ rw miss (IsEvolved-refl j, update-AreEvolved p f js e a.1)
  ]

  -- The receipts of effects are only ever added to.
  abbrev pub AreKept : (es fs : List (AppliedEffectReceipt P)) → Type 0
  AreKept es fs = (gs : List (AppliedEffectReceipt P)) × (fs ≡ es ++ gs)

  pub AreKept-refl : (es : List (AppliedEffectReceipt P)) → AreKept es es
  AreKept-refl es = ([], sym (append_nil es))

  pub AreKept-trans :
      (es fs gs : List (AppliedEffectReceipt P)) → AreKept es fs → AreKept fs gs → AreKept es gs
  AreKept-trans es fs gs (more, e) (rest, f) =
      (more ++ rest, f ∙ (ap (λ z. z ++ rest) e ∙ append_assoc es more rest))

  -- From one state of the tables to another the invariant is kept, the rows evolve and no receipt is lost.
  abbrev pub IsSafe : Db P → Db P → Type 0
  IsSafe db db' =
      All IsJob db.jobs
      → All IsJob db'.jobs × (AreEvolved db.jobs db'.jobs × AreKept db.effects db'.effects)

  pub IsSafe-refl : (db : Db P) → IsSafe db db
  IsSafe-refl db a = (a, (AreEvolved-refl db.jobs, AreKept-refl db.effects))

  pub IsSafe-trans : (a b c : Db P) → IsSafe a b → IsSafe b c → IsSafe a c
  IsSafe-trans a b c f g all =
      let (all', ev) = f all in
      let (all'', ev') = g all' in
      (
        all'',
        (
          AreEvolved-trans a.jobs b.jobs c.jobs ev.0 ev'.0,
          AreKept-trans a.effects b.effects c.effects ev.1 ev'.1,
        ),
      )

  pub update-IsSafe :
      (p : JobRecord P → Bool) (f : JobRecord P → JobRecord P) (db : Db P)
      → Evolves p f
      → IsSafe db (record db { jobs = update p f db.jobs })
  update-IsSafe p f db e a = (
    update-All IsJob p f db.jobs (λ j hit h. (e j hit h).0) a,
    (update-AreEvolved p f db.jobs e a, AreKept-refl db.effects),
  )

  -- What a body may leave behind where it does not raise.
  abbrev pub Ensures : {A : Type 0} → Db P → Result WorkerError (A × Db P) → Type 0
  Ensures db (ok r) = IsSafe db r.1
  Ensures db (err e) = Unit

  pub Ensures-bind :
      {A B : Type 0} (db : Db P) (m : Result WorkerError A) (f : A → Result WorkerError (B × Db P))
      → ((a : A) → Ensures db (f a))
      → Ensures db (m >>= f)
  Ensures-bind db (ok a) f h = h a
  Ensures-bind db (err e) f h = tt

  pub settle-IsSafe :
      {A : Type 0} (db : Db P) (r : Result WorkerError (A × Db P))
      → Ensures db r
      → IsSafe db (settle db r).1
  settle-IsSafe db (ok r) h = h
  settle-IsSafe db (err e) h = IsSafe-refl db

  pub update_leased-Ensures :
      (lease : WorkerLease) (now later : Time) (f : JobRecord P → JobRecord P) (db : Db P)
      → Evolves (holds lease now) f
      → Ensures db (update_leased lease now later f db)
  unfolding update_leased
  update_leased-Ensures lease now later f db e =
      elim (find (holds lease now) db.jobs)
        as (λ o. Ensures db (elim o [
          | none ↦ err (lease_failure lease later db)
          | some j ↦ ok (f j, record db { jobs = update (holds lease now) f db.jobs })
        ])) [ none ↦ tt | some j ↦ update-IsSafe (holds lease now) f db e ]

  pub holds-running :
      (lease : WorkerLease) (now : Time) (j : JobRecord P)
      → holds lease now j ≡ true
      → is_running j.status ≡ true
  unfolding is_held
  holds-running lease now j h = ground arith

pub running-not_terminal : (s : JobStatus) → is_running s ≡ true → is_terminal s ≡ false
unfolding is_running is_terminal
running-not_terminal s h = ground arith
