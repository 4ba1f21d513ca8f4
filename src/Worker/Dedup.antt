-- ===== src/Worker/Dedup.antt =====
-- A semantic key names one job (`enqueue` of src/ephi/infrastructure/postgresql_worker.py).
use mathlib.Core.Path.{subst, ap₂}
use ephi.Base.{
  Bool, true, false, ◌&&◌, none, some, List, [], ◌∷◌, ◌++◌, ◌≡◌, refl, sym, ap, arith, ◌∙◌, is_some,
  All, Bool-cases, Option-cases, inl, inr, Result, ok, err, ◌==◌, list_Eq, ℕ_eq, list_eq_iff,
  some_inj, ==-refl, if◌then◌else◌, find,
}
use ephi.Base.Text.{Text}
use ephi.Worker.Model.{Time, WorkerError, JobRecord, Db}
use ephi.Worker.Queue.{
  Payloads, Request, enqueue, enqueue_checked, check_request, resolve_enqueue, reconcile_enqueue,
  has_semantic_key, new_job,
}
use ephi.Worker.Invariant.{IsJob, IsEvolved, AreEvolved}
use ephi.Worker.Once.{find-append, find-added}
use ephi.Worker.Runs.{Run, Run-IsSafe}

module _ {P : Type 0} where
  find-absent :
      (p : JobRecord P → Bool) (xs ys : List (JobRecord P))
      → find p xs ≡ none
      → find p ys ≡ none
      → find p (xs ++ ys) ≡ none
  unfolding find
  find-absent p [] ys h k = k
  find-absent p (x ∷ xs) ys h k = elim (Bool-cases (p x)) [
    | inl hit ↦ cc (rw hit at h)
    | inr miss ↦ rw miss (find-absent p xs ys (rw miss at h) k)
  ]

  -- The row that a semantic key names keeps its name in every later table.
  find-IsEvolved :
      (scope_key semantic_key : Text) (is js : List (JobRecord P)) {i : JobRecord P}
      → AreEvolved is js
      → find (has_semantic_key scope_key semantic_key) is ≡ some i
      → (j : JobRecord P) × (find (has_semantic_key scope_key semantic_key) js ≡ some j)
        × IsEvolved i j
  unfolding find
  find-IsEvolved scope_key semantic_key [] js ev found = cc
  find-IsEvolved scope_key semantic_key (x ∷ is) [] ev found = elim ev [ ]
  find-IsEvolved scope_key semantic_key (x ∷ is) (y ∷ js) {i} ev found =
      let same : has_semantic_key scope_key semantic_key y
          ≡ has_semantic_key scope_key semantic_key x =
        ap₂ (λ s k. (s == scope_key) && (k == semantic_key)) ev.0.same_scope ev.0.same_key in
      elim (Bool-cases (has_semantic_key scope_key semantic_key x)) [
        | inl hit ↦
            let here : x ≡ i = some_inj (rw hit at found) in
            (y, rw (same, hit) refl, subst (λ z. IsEvolved z y) here ev.0)
        | inr miss ↦
            let (j, there, later) =
              find-IsEvolved scope_key semantic_key is js ev.1 (rw miss at found) in
            (j, rw (same, miss) there, later)
      ]

  -- Where an enqueue returns a job, its key names that job, of the type and the hash asked for.
  resolve_enqueue-matches :
      (row : JobRecord P) (scope_key semantic_key job_type hash : Text) {j : JobRecord P}
      → resolve_enqueue row scope_key semantic_key job_type hash ≡ ok j
      → (row ≡ j) × (((j.job_type == job_type) ≡ true) × ((j.payload_hash == hash) ≡ true))
  unfolding resolve_enqueue
  resolve_enqueue-matches row scope_key semantic_key job_type hash {j} h = ground arith

  -- A job that the key of a request names, of the request's type and of a hash.
  abbrev IsNamed : Request P → Text → Db P → JobRecord P → Type 0
  IsNamed r hash db j =
      (find (has_semantic_key r.scope_key r.semantic_key) db.jobs ≡ some j)
      × (((j.job_type == r.job_type) ≡ true) × ((j.payload_hash == hash) ≡ true))

  found_row-IsNamed :
      (r : Request P) (hash : Text) (row : JobRecord P) (db end : Db P) {j : JobRecord P}
      → find (has_semantic_key r.scope_key r.semantic_key) db.jobs ≡ some row
      → ◌≡◌ {A = Result WorkerError (JobRecord P) × Db P}
          (resolve_enqueue row r.scope_key r.semantic_key r.job_type hash, db)
          (ok j, end)
      → IsNamed r hash end j
  found_row-IsNamed r hash row db end {j} found h =
      let (same, matches) =
        resolve_enqueue-matches row r.scope_key r.semantic_key r.job_type hash (ap (λ z. z.0) h) in
      (
        subst (λ (z : Db P). find (has_semantic_key r.scope_key r.semantic_key) z.jobs ≡ some j)
            (ap (λ z. z.1) h) (found ∙ ap some same),
        matches,
      )

  new_job-matches :
      (r : Request P) (id : Text) (payload : P) (hash : Text) (now : Time)
      → (has_semantic_key r.scope_key r.semantic_key (new_job r id payload hash now) ≡ true)
        × ((((new_job r id payload hash now).job_type == r.job_type) ≡ true)
            × (((new_job r id payload hash now).payload_hash == hash) ≡ true))
  unfolding new_job
  new_job-matches r id payload hash now =
      (rw (==-refl r.scope_key, ==-refl r.semantic_key) refl, (==-refl r.job_type, ==-refl hash))

  enqueue_checked-IsNamed :
      (r : Request P) (id : Text) (payload : P) (hash : Text) (now : Time)
      (raced : List (JobRecord P)) (db end : Db P) {j : JobRecord P}
      → enqueue_checked r id payload hash now raced db ≡ (ok j, end)
      → IsNamed r hash end j
  unfolding enqueue_checked reconcile_enqueue
  enqueue_checked-IsNamed r id payload hash now raced db end {j} h =
      elim (Option-cases (find key db.jobs)) [
        | inr (row, found) ↦
            found_row-IsNamed r hash row joined end (find-append key db.jobs raced found)
              (rw (found, enqueue_checked) at h)
        | inl absent ↦ elim (Bool-cases (is_some (find key raced))) [
          | inl lost ↦ elim (Option-cases (find key joined.jobs)) [
            | inl nowhere ↦ cc (rw (absent, lost, enqueue_checked, reconcile_enqueue, nowhere) at h)
            | inr (row, there) ↦
                found_row-IsNamed r hash row joined end there
                  (rw (absent, lost, enqueue_checked, reconcile_enqueue, there) at h)
          ]
          | inr won ↦
              let h' : ◌≡◌ {A = Result WorkerError (JobRecord P) × Db P}
                  (ok (new_job r id payload hash now), added) (ok j, end) =
                rw (absent, won, enqueue_checked) at h in
              let (hit, matches) = new_job-matches r id payload hash now in
              let none_there : find key (db.jobs ++ raced) ≡ none =
                find-absent key db.jobs raced absent (none_of won) in
              subst
                (λ (z : Result WorkerError (JobRecord P) × Db P). elim z.0 [
                  | ok i ↦ IsNamed r hash z.1 i
                  | err _ ↦ Unit
                ])
                h'
                (
                  find-added key (db.jobs ++ raced) (new_job r id payload hash now) none_there hit,
                  matches,
                )
        ]
      ]
    where
      key : JobRecord P → Bool
      key = has_semantic_key r.scope_key r.semantic_key

      joined : Db P
      joined = record db { jobs = db.jobs ++ raced }

      added : Db P
      added = record db { jobs = (db.jobs ++ raced) ++ (new_job r id payload hash now ∷ []) }

      none_of : is_some (find key raced) ≡ false → find key raced ≡ none
      none_of q = elim (Option-cases (find key raced)) [ inl e ↦ e | inr (x, e) ↦ cc (rw e at q) ]

  -- The answer to a request whose key names a row.
  enqueue_checked-found :
      (s : Request P) (id : Text) (payload : P) (hash : Text) (now : Time)
      (raced : List (JobRecord P)) (db : Db P) (k : JobRecord P)
      → find (has_semantic_key s.scope_key s.semantic_key) db.jobs ≡ some k
      → enqueue_checked s id payload hash now raced db ≡ (
        if (k.job_type == s.job_type) && (k.payload_hash == hash)
            then ok k
            else err (WorkerError.semantic_conflict s.scope_key s.semantic_key),
        record db { jobs = db.jobs ++ raced },
      )
  unfolding enqueue_checked resolve_enqueue
  enqueue_checked-found s id payload hash now raced db k found =
      elim (Bool-cases (k.job_type == s.job_type)) [
        | inr other ↦ rw (found, enqueue_checked, resolve_enqueue, other) refl
        | inl same ↦ elim (Bool-cases (k.payload_hash == hash)) [
          | inl equal ↦ rw (found, enqueue_checked, resolve_enqueue, same, equal) refl
          | inr unequal ↦ rw (found, enqueue_checked, resolve_enqueue, same, unequal) refl
        ]
      ]

-- One job per semantic key. After an enqueue that returned a job, also in a race, and any run of the
-- store from then on (from well-formed rows), a further enqueue of the same scope and semantic key adds
-- no job: where type and payload hash are those of the first request it answers with the same job, as
-- it is then, and otherwise with a semantic conflict. The rows in `late` are those that other
-- transactions commit meanwhile.
pub enqueue-Again :
    (c : Payloads) (r s : Request c.Payload) (id new_id : Text) (now later : Time)
    (raced late : List (JobRecord c.Payload)) (a : Db c.Payload) {db b : Db c.Payload}
    {j : JobRecord c.Payload} {payload payload' : c.Payload} {hash hash' : Text}
    → check_request c r ≡ ok (payload, hash)
    → check_request c s ≡ ok (payload', hash')
    → enqueue c r id now raced a ≡ (ok j, db)
    → All IsJob db.jobs
    → Run c db b
    → s.scope_key ≡ r.scope_key
    → s.semantic_key ≡ r.semantic_key
    → (k : JobRecord c.Payload) × (k.job_id ≡ j.job_id)
      × (enqueue c s new_id later late b ≡ (
        if (r.job_type == s.job_type) && (hash == hash')
            then ok k
            else err (WorkerError.semantic_conflict s.scope_key s.semantic_key),
        record b { jobs = b.jobs ++ late },
      ))
unfolding enqueue
enqueue-Again c r s id new_id now later raced late a {db} {b} {j} {payload} {payload'} {hash}
      {hash'} first second done sound run same_scope same_key =
    let (found, (kind, digest)) =
      enqueue_checked-IsNamed r id payload hash now raced a db (rw (first, enqueue) at done) in
    let (k, there, evolved) =
      find-IsEvolved r.scope_key r.semantic_key db.jobs b.jobs (Run-IsSafe c run sound).1.0 found in
    let named : find (has_semantic_key s.scope_key s.semantic_key) b.jobs ≡ some k =
      subst (λ z. find (has_semantic_key z s.semantic_key) b.jobs ≡ some k) (sym same_scope)
        (subst (λ z. find (has_semantic_key r.scope_key z) b.jobs ≡ some k) (sym same_key) there) in
    let type_of : k.job_type ≡ r.job_type =
      evolved.same_type ∙ (list_eq_iff j.job_type r.job_type).0 kind in
    let hash_of : k.payload_hash ≡ hash =
      evolved.same_hash ∙ (list_eq_iff j.payload_hash hash).0 digest in
    (
      k,
      evolved.same_id,
      rw (second, enqueue)
          (enqueue_checked-found s new_id payload' hash' later late b k named
            ∙ rw (type_of, hash_of) refl),
    )
