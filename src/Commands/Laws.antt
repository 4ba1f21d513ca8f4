-- ===== src/Commands/Laws.antt =====
-- What the executor of commands promises (src/ephi/application/transactions.py).
use mathlib.Core.Path.{subst}
use ephi.Base.{nat_eq_iff, >>=-returns, Eq, bind-raises, head-raises, or_raise}
use ephi.Base.{
  ℕ, ◌+◌, true, false, ◌&&◌, not, Option, none, some, ◌≡◌, refl, sym, ap, arith, ◌∙◌, nat_eq, ◌==◌,
  ℕ_eq, list_Eq, pair_Eq, Result, ok, err, raise_if, is_some, Bool-cases, Option-cases,
  Result-cases, inl, inr, ◌⊎◌,
}
use ephi.Base.Dict.{Dict, lookup, insert, lookup-insert_self}
use ephi.Commands.Context.{Raised, Principal}
use ephi.Commands.Store.{
  AggregateRow, Tables, AggregateKey, StoredCommandReceipt, get_command_receipt, update_aggregate,
  insert_aggregate, append_audit, append_outbox, insert_receipt,
}
use ephi.Commands.Command.{Codecs, Command, CommandResult, Prepared, Answers}
use ephi.Commands.Executor.{
  admit, execute, command_body, commit_first, apply_command, stale_version, replay_or_conflict,
  authorize_command, recover, reconcile_committed_receipt, reconcile_create_race, version_of,
}
use ephi.Commands.Writes.{
  run_effect, write_aggregate, record_result, new_result, new_audit, new_outbox, new_receipt,
  get_aggregate,
}

lookup-inserted :
    {K : Type 0} ⦃e : Eq K⦄ {V : Type 0} (k : K) (v : V) (d : Dict K V) {after : Dict K V}
    → after ≡ insert k v d
    → lookup k after ≡ some v
lookup-inserted k v d q = subst (λ z. lookup k z ≡ some v) (sym q) (lookup-insert_self k v d)

module _ (c : Codecs) where
  -- What a first commit leaves in the tables.
  pub record IsRecorded (m : Command c) (p : Prepared c) (r : CommandResult c.State) (db' : Tables)
      : Type 0 where
    pub version : r.aggregate_version ≡ p.expected + 1
    pub hashed : r.payload_hash ≡ p.hash
    pub aggregate :
        lookup p.aggregate db'.aggregates
        ≡ some (record { version = p.expected + 1; state_json = c.state_json r.state })
    pub audited : lookup p.key db'.audits ≡ some (new_audit c m p (p.expected + 1))
    pub announced : lookup p.key db'.outbox ≡ some (new_outbox c m p (p.expected + 1))
    pub receipt : lookup p.key db'.receipts ≡ some (new_receipt c m p r)

  record_result-keeps :
      (m : Command c) (p : Prepared c) (r s : CommandResult c.State) (db db' : Tables)
      → record_result c m p r db ≡ ok (s, db')
      → (s ≡ r)
        × ((db'.aggregates ≡ db.aggregates)
            × ((db'.audits ≡ insert p.key (new_audit c m p r.aggregate_version) db.audits)
                × ((db'.outbox ≡ insert p.key (new_outbox c m p r.aggregate_version) db.outbox)
                    × (db'.receipts ≡ insert p.key (new_receipt c m p r) db.receipts))))
  unfolding record_result append_audit append_outbox insert_receipt
  record_result-keeps m p r s db db' h = ground arith

  write_aggregate-writes :
      (m : Command c) (p : Prepared c) (found : Option (ℕ × c.State)) (n : ℕ) (state : c.State)
      (db db' : Tables)
      → write_aggregate c m p found n state db ≡ ok db'
      → db'.aggregates
        ≡ insert p.aggregate
            (record { version = n + 1; state_json = c.state_json state })
            db.aggregates
  unfolding write_aggregate update_aggregate insert_aggregate
  write_aggregate-writes m p none n state db db' h = ground arith
  write_aggregate-writes m p (some found) n state db db' h =
      elim (Option-cases (lookup p.aggregate db.aggregates)) [
        | inl absent ↦ ground arith
        | inr (row, there) ↦ ground arith
      ]

  nat_eq→≡ : (a b : ℕ) → nat_eq a b ≡ true → a ≡ b
  nat_eq→≡ a b h = (nat_eq_iff a b).0 h

  record_result-IsRecorded :
      (m : Command c) (p : Prepared c) (state : c.State) (r : CommandResult c.State)
      (rows : Dict AggregateKey AggregateRow) (db db' : Tables)
      → db.aggregates
        ≡ insert p.aggregate
            (record { version = p.expected + 1; state_json = c.state_json state })
            rows
      → record_result c m p (new_result c p (p.expected + 1) state) db ≡ ok (r, db')
      → IsRecorded m p r db'
  unfolding new_result
  record_result-IsRecorded m p state r rows db db' written h =
      let (same, (kept, (audits, (outbox, receipts)))) =
        record_result-keeps m p (new_result c p (p.expected + 1) state) r db db' h in
      subst (λ (z : CommandResult c.State). IsRecorded m p z db') (sym same)
        (record {
          version = refl;
          hashed = refl;
          aggregate = lookup-inserted _ _ rows (kept ∙ written);
          audited = lookup-inserted _ _ db.audits audits;
          announced = lookup-inserted _ _ db.outbox outbox;
          receipt = lookup-inserted _ _ db.receipts receipts;
        })

  apply_command-IsRecorded :
      (m : Command c) (p : Prepared c) (found : Option (ℕ × c.State)) (r : CommandResult c.State)
      (db db' : Tables)
      → version_of c found ≡ p.expected
      → apply_command c m p found db ≡ ok (r, db')
      → IsRecorded m p r db'
  unfolding apply_command
  apply_command-IsRecorded m p found r db db' v h =
      let ((raw, db1), e1, h1) = >>=-returns (run_effect c m db _ p.payload) _ h in
      let (next, e2, h2) =
        >>=-returns (or_raise (c.normalize raw) Raised.validation_failure) _ h1 in
      let (db2, e3, h3) =
        >>=-returns (write_aggregate c m p found (version_of c found) next db1) _ h2 in
      record_result-IsRecorded m p next r db1.aggregates db2 db'
        (subst
          (λ n.
            db2.aggregates
            ≡ insert p.aggregate (record { version = n + 1; state_json = c.state_json next })
                db1.aggregates)
          v (write_aggregate-writes m p found (version_of c found) next db1 db2 e3))
        (subst (λ n. record_result c m p (new_result c p (n + 1) next) db2 ≡ ok (r, db')) v h3)

  -- Where the tables have no receipt of the command, a transaction that returns has applied it.
  commit_first-IsRecorded :
      (m : Command c) (p : Prepared c) (answer : Option Principal) (r : CommandResult c.State)
      (db db' : Tables)
      → get_command_receipt p.key db ≡ none
      → commit_first c m p answer db ≡ ok (r, db')
      → IsRecorded m p r db'
  unfolding commit_first stale_version
  commit_first-IsRecorded m p answer r db db' absent h =
      let (found, e1, h1) = >>=-returns (get_aggregate c p.aggregate db) _ h in
      let (u, e2, h2) =
        >>=-returns
          (raise_if (not (is_some found) && not m.create_if_missing) Raised.aggregate_not_found) _
          h1 in
      elim (Bool-cases (nat_eq (version_of c found) p.expected)) [
        | inl same ↦ apply_command-IsRecorded m p found r db db' (nat_eq→≡ _ _ same) (rw same at h2)
        | inr other ↦ cc (rw (other, stale_version, absent) at h2)
      ]

  -- A command in an SQLite transaction, with nobody between its two transactions.
  abbrev pub execute_alone :
      Command c → Answers → Tables → Result Raised (CommandResult c.State) × Tables
  execute_alone m answers db = execute c m answers (λ t. t) db

  committed_receipt-raises :
      (m : Command c) (p : Prepared c) (answers : Answers) (db : Tables)
      → get_command_receipt p.key db ≡ none
      → (x : Raised) × (reconcile_committed_receipt c m p answers db ≡ err x)
  unfolding reconcile_committed_receipt
  committed_receipt-raises m p answers db absent =
      bind-raises (authorize_command c m answers.at_reconcile) _ λ _.
        head-raises (or_raise (get_command_receipt p.key db) Raised.storage_failure) _
          (Raised.storage_failure, ap (λ o. or_raise o Raised.storage_failure) absent)

  create_race-raises :
      (m : Command c) (p : Prepared c) (answers : Answers) (db : Tables)
      → get_command_receipt p.key db ≡ none
      → (x : Raised) × (reconcile_create_race c m p answers db ≡ err x)
  unfolding reconcile_create_race
  create_race-raises m p answers db absent =
      bind-raises (authorize_command c m answers.at_reconcile) _ λ _. rw absent (
        bind-raises (get_aggregate c p.aggregate db) _ λ found.
          bind-raises (or_raise found Raised.storage_failure) _
            λ row. (Raised.version_conflict m.aggregate_id 0 row.0, refl))

  abbrev IsRefused : {A : Type 0} → Result Raised A × Tables → Tables → Type 0
  IsRefused r db = (x : Raised) × (r ≡ (err x, db))

  recover-IsRefused :
      (m : Command c) (p : Prepared c) (answers : Answers) (e : Raised) (db : Tables)
      → get_command_receipt p.key db ≡ none
      → IsRefused (recover c m p answers (λ t. t) e db) db
  unfolding recover
  recover-IsRefused m p answers Raised.receipt_exists db absent =
      let (x, q) = committed_receipt-raises m p answers db absent in (x, ap (λ r. (r, db)) q)
  recover-IsRefused m p answers Raised.event_exists db absent =
      let (x, q) = committed_receipt-raises m p answers db absent in (x, ap (λ r. (r, db)) q)
  recover-IsRefused m p answers Raised.aggregate_exists db absent =
      let (x, q) = create_race-raises m p answers db absent in (x, ap (λ r. (r, db)) q)
  recover-IsRefused m p answers Raised.authorization_denied db absent = (_, refl)
  recover-IsRefused m p answers Raised.validation_failure db absent = (_, refl)
  recover-IsRefused m p answers Raised.aggregate_not_found db absent = (_, refl)
  recover-IsRefused m p answers Raised.storage_failure db absent = (_, refl)
  recover-IsRefused m p answers Raised.coherent_read_conflict db absent = (_, refl)
  recover-IsRefused m p answers Raised.invalid_transition db absent = (_, refl)
  recover-IsRefused m p answers (Raised.idempotency_conflict _) db absent = (_, refl)
  recover-IsRefused m p answers (Raised.version_conflict _ _ _) db absent = (_, refl)

  -- Atomicity. A command that is admitted, whose receipt the tables do not hold and that runs alone
  -- either raises and leaves the tables as they were, or returns, and then the aggregate has the next
  -- version after the expected one and the returned state, the audit event, the outbox event and the
  -- receipt of the command stand in the tables, and the result carries that version and the hash.
  pub execute-IsRecorded :
      (m : Command c) (p : Prepared c) (answers : Answers) (db : Tables)
      → admit c m answers.at_start ≡ ok p
      → get_command_receipt p.key db ≡ none
      → ((x : Raised) × (execute_alone m answers db ≡ (err x, db)))
        ⊎ ((r : CommandResult c.State) × (db' : Tables) × (execute_alone m answers db ≡ (ok r, db'))
            × IsRecorded m p r db')
  unfolding execute command_body
  execute-IsRecorded m p answers db admitted absent =
      elim (Result-cases (commit_first c m p answers.at_replay db)) [
        | inl ((r, db'), done) ↦ inr (
          r,
          db',
          rw (execute, admitted, command_body, absent, done) refl,
          commit_first-IsRecorded m p answers.at_replay r db db' absent done,
        )
        | inr (e, raised) ↦
            let (x, q) = recover-IsRefused m p answers e db absent in
            inl (x, rw (execute, admitted, command_body, absent, raised) q)
      ]

  module _ (m : Command c) (p : Prepared c) (answers : Answers) (between : Tables → Tables)
      (db : Tables) (receipt : StoredCommandReceipt) where
    -- Where the receipt of the payload is there and its result reads back.
    pub execute-Replays :
        (r : CommandResult c.State)
        → admit c m answers.at_start ≡ ok p
        → get_command_receipt p.key db ≡ some receipt
        → authorize_command c m answers.at_replay ≡ ok tt
        → c.read_result receipt.result_json ≡ some r
        → (r.result_identity == receipt.result_identity) ≡ true
        → (r.payload_hash == receipt.payload_hash) ≡ true
        → (receipt.payload_hash == p.hash) ≡ true
        → execute c m answers between db ≡ (ok r, db)
    unfolding execute command_body replay_or_conflict
    execute-Replays r admitted there permitted readable same_result same_hash same =
        rw
          (
            execute, admitted, command_body, there, replay_or_conflict, same, permitted, readable,
            same_result, same_hash,
          )
          refl

    -- Where the receipt of another payload is there.
    pub execute-Refuses :
        admit c m answers.at_start ≡ ok p
        → get_command_receipt p.key db ≡ some receipt
        → (receipt.payload_hash == p.hash) ≡ false
        → execute c m answers between db
          ≡ (err (Raised.idempotency_conflict m.context.command_id), db)
    unfolding execute command_body replay_or_conflict recover
    execute-Refuses admitted there other =
        rw (execute, admitted, command_body, there, replay_or_conflict, other, recover) refl
