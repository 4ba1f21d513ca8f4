-- ===== src/Commands/Executor.antt =====
-- `VersionedAggregateCommandExecutor` of src/ephi/application/transactions.py.
use ephi.Base.{
  ℕ, ◌+◌, ◌&&◌, ◌||◌, not, Option, none, some, nat_eq, ◌==◌, ℕ_eq, list_Eq, pair_Eq, Result, ok,
  err, ◌>>=◌, ◌>>◌, raise_if, is_some, if◌then◌else◌, or_raise,
}
use ephi.Base.Text.{Text, is_canonical}
use ephi.Commands.Context.{Raised, Principal, authorize}
use ephi.Commands.Store.{StoredCommandReceipt, Tables, get_command_receipt}
use ephi.Commands.Command.{CommandResult, Codecs, Answers, Command, Prepared}
use ephi.Commands.Writes.{get_aggregate, run_effect, write_aggregate, new_result, record_result}

module _ (c : Codecs) where
  -- `_authorize`
  unfoldable pub authorize_command : Command c → Option Principal → Result Raised (Unit {0})
  authorize_command m answer =
      authorize c.canonical_key answer m.context.principal m.context.scope m.required_capability

  -- `_replay_or_conflict`
  unfoldable pub replay_or_conflict :
      Command c
      → Option Principal
      → StoredCommandReceipt
      → Text
      → Result Raised (CommandResult c.State)
  replay_or_conflict m answer receipt hash = do
    raise_if (not (receipt.payload_hash == hash)) (Raised.idempotency_conflict m.context.command_id)
    authorize_command m answer
    result ← or_raise (c.read_result receipt.result_json) Raised.storage_failure
    raise_if
        (not (result.result_identity == receipt.result_identity)
          || not (result.payload_hash == receipt.payload_hash))
        Raised.storage_failure
    ok result

  -- The checks of the arguments after which the authorization is asked.
  unfoldable pub check_arguments : Command c → Result Raised (Unit {0})
  check_arguments m = do
    raise_if (not (is_canonical m.command_type)) Raised.validation_failure
    raise_if (not (is_canonical m.aggregate_type)) Raised.validation_failure
    raise_if (not (is_canonical m.aggregate_id)) Raised.validation_failure
    raise_if (not (is_canonical m.required_capability)) Raised.validation_failure
    raise_if (m.has_initial_state && not m.create_if_missing) Raised.validation_failure

  -- From the authorization on, up to the transaction.
  unfoldable pub prepare : Command c → Result Raised (Prepared c)
  prepare m = do
    expected ← or_raise m.context.expected_workflow_version Raised.validation_failure
    raise_if (m.create_if_missing && not (nat_eq expected 0)) Raised.validation_failure
    payload ← or_raise (c.normalize m.payload) Raised.validation_failure
    initial ← or_raise (c.normalize m.initial_state) Raised.validation_failure
    ok (record {
      payload = payload;
      initial_state = initial;
      expected = expected;
      hash =
          c.payload_hash m.command_type m.context.scope expected m.context.viewed_revisions
            (if m.create_if_missing then c.mark_create payload else payload)
            (m.aggregate_type, m.aggregate_id) m.context.reason;
      key = (c.canonical_key m.context.scope, (m.context.principal.subject, m.context.command_id));
      aggregate = (c.canonical_key m.context.scope, (m.aggregate_type, m.aggregate_id));
    })

  abbrev pub version_of : Option (ℕ × c.State) → ℕ
  version_of none = 0
  version_of (some found) = found.0

  abbrev pub state_from : Option (ℕ × c.State) → c.State → c.State
  state_from none initial = initial
  state_from (some found) initial = found.1

  -- A command that expects another version: the receipt is looked for once more.
  unfoldable pub stale_version :
      Command c
      → Prepared c
      → Option Principal
      → ℕ
      → Tables
      → Result Raised (CommandResult c.State × Tables)
  stale_version m p answer current db = elim (get_command_receipt p.key db) [
    | some receipt ↦ do result ← replay_or_conflict m answer receipt p.hash; ok (result, db)
    | none ↦ err (Raised.version_conflict m.aggregate_id p.expected current)
  ]

  -- The effect and the writes.
  unfoldable pub apply_command :
      Command c
      → Prepared c
      → Option (ℕ × c.State)
      → Tables
      → Result Raised (CommandResult c.State × Tables)
  apply_command m p found db = do
    (raw, db1) ← run_effect c m db (state_from found p.initial_state) p.payload
    next_state ← or_raise (c.normalize raw) Raised.validation_failure
    db2 ← write_aggregate c m p found (version_of found) next_state db1
    record_result c m p (new_result c p (version_of found + 1) next_state) db2

  -- The transaction of a command without a receipt.
  unfoldable pub commit_first :
      Command c
      → Prepared c
      → Option Principal
      → Tables
      → Result Raised (CommandResult c.State × Tables)
  commit_first m p answer db = do
    found ← get_aggregate c p.aggregate db
    raise_if (not (is_some found) && not m.create_if_missing) Raised.aggregate_not_found
    if nat_eq (version_of found) p.expected
        then apply_command m p found db
        else stale_version m p answer (version_of found) db

  -- The body of the transaction.
  unfoldable pub command_body :
      Command c
      → Prepared c
      → Option Principal
      → Tables
      → Result Raised (CommandResult c.State × Tables)
  command_body m p answer db = elim (get_command_receipt p.key db) [
    | some receipt ↦ do result ← replay_or_conflict m answer receipt p.hash; ok (result, db)
    | none ↦ commit_first m p answer db
  ]

  -- `_reconcile_committed_receipt`
  unfoldable pub reconcile_committed_receipt :
      Command c → Prepared c → Answers → Tables → Result Raised (CommandResult c.State)
  reconcile_committed_receipt m p answers db = do
    authorize_command m answers.at_reconcile
    receipt ← or_raise (get_command_receipt p.key db) Raised.storage_failure
    replay_or_conflict m answers.at_second_replay receipt p.hash

  -- `_reconcile_create_race`
  unfoldable pub reconcile_create_race :
      Command c → Prepared c → Answers → Tables → Result Raised (CommandResult c.State)
  reconcile_create_race m p answers db = do
    authorize_command m answers.at_reconcile
    elim (get_command_receipt p.key db) [
      | some receipt ↦ replay_or_conflict m answers.at_second_replay receipt p.hash
      | none ↦ do
        found ← get_aggregate c p.aggregate db
        aggregate ← or_raise found Raised.storage_failure
        err (Raised.version_conflict m.aggregate_id 0 aggregate.0)
    ]

  -- What follows an exception of the transaction, which has been rolled back; `between` is what others
  -- commit before the second transaction.
  unfoldable pub recover :
      Command c
      → Prepared c
      → Answers
      → (Tables → Tables)
      → Raised
      → Tables
      → Result Raised (CommandResult c.State) × Tables
  recover m p answers between Raised.receipt_exists db =
      (reconcile_committed_receipt m p answers (between db), between db)
  recover m p answers between Raised.event_exists db =
      (reconcile_committed_receipt m p answers (between db), between db)
  recover m p answers between Raised.aggregate_exists db =
      (reconcile_create_race m p answers (between db), between db)
  recover m p answers between e db = (err e, db)

  -- Everything before the transaction: the authorization stands before the receipt is read.
  unfoldable pub admit : Command c → Option Principal → Result Raised (Prepared c)
  admit m answer = do check_arguments m; authorize_command m answer; prepare m

  unfoldable pub execute :
      Command c
      → Answers
      → (Tables → Tables)
      → Tables
      → Result Raised (CommandResult c.State) × Tables
  execute m answers between db = elim (admit m answers.at_start) [
    | err e ↦ (err e, db)
    | ok p ↦ elim (command_body m p answers.at_replay db) [
      | ok (result, db') ↦ (ok result, db')
      | err e ↦ recover m p answers between e db
    ]
  ]
