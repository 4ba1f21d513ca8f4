-- ===== src/Commands/Writes.antt =====
-- What a command reads and writes in its transaction (`execute` of
-- src/ephi/application/transactions.py, `get_aggregate` of src/ephi/infrastructure/sqlite.py).
use ephi.Base.{
  ℕ, ◌+◌, not, Option, none, some, nat_eq, ℕ_eq, list_Eq, pair_Eq, Result, ok, err, ◌>>=◌, ◌>>◌,
  raise_if,
}
use ephi.Base.Text.{codes}
use ephi.Commands.Context.{Raised}
use ephi.Commands.Store.{
  AggregateKey, AuditEvent, OutboxEvent, StoredCommandReceipt, Tables, update_aggregate,
  insert_aggregate, append_audit, append_outbox, insert_receipt,
}
use ephi.Base.Dict.{lookup}
use ephi.Commands.Command.{CommandResult, Codecs, event_identity, as_command, Command, Prepared}

module _ (c : Codecs) where
  unfoldable pub get_aggregate : AggregateKey → Tables → Result Raised (Option (ℕ × c.State))
  get_aggregate key db = elim (lookup key db.aggregates) [
    | none ↦ ok none
    | some row ↦ elim (c.read_state row.state_json) [
      | none ↦ err Raised.storage_failure
      | some state ↦ ok (some (row.version, state))
    ]
  ]

  -- The effect under its `try`.
  unfoldable pub run_effect :
      Command c → Tables → c.State → c.State → Result Raised (c.State × Tables)
  run_effect m db state payload = elim (m.effect db state payload) [
    | ok r ↦ ok r
    | err e ↦ err (as_command e)
  ]

  -- The write of the aggregate: inserted if it was missing, else updated under its version.
  unfoldable pub write_aggregate :
      Command c → Prepared c → Option (ℕ × c.State) → ℕ → c.State → Tables → Result Raised Tables
  write_aggregate m p none current next_state db =
      insert_aggregate c.economic_event_key p.aggregate (current + 1) (c.state_json next_state) db
  write_aggregate m p (some found) current next_state db = do
    (changed, db') ←
        update_aggregate c.economic_event_key p.aggregate current (current + 1)
          (c.state_json next_state) db
    raise_if (not (nat_eq changed 1)) (Raised.version_conflict m.aggregate_id p.expected current)
    ok db'

  unfoldable pub new_result : Prepared c → ℕ → c.State → CommandResult c.State
  new_result p version state = record {
    status = codes "COMMITTED";
    result_identity = event_identity c (codes "result") p.key;
    aggregate_type = p.aggregate.1.0;
    aggregate_id = p.aggregate.1.1;
    aggregate_version = version;
    state = state;
    payload_hash = p.hash;
  }

  unfoldable pub new_audit : Command c → Prepared c → ℕ → AuditEvent
  new_audit m p version = record {
    event_id = event_identity c (codes "audit") p.key;
    aggregate = p.aggregate;
    aggregate_version = version;
    event_type = m.command_type;
    event_json = c.audit_json (record {
      command_type = m.command_type;
      payload_hash = p.hash;
      expected_workflow_version = p.expected;
      new_workflow_version = version;
      result_identity = event_identity c (codes "result") p.key;
      auth_session_revision = m.context.principal.auth_session_revision;
      security_revision = m.context.principal.security_revision;
    });
    auth_session_revision_json = c.revision_json m.context.principal.auth_session_revision;
    security_revision_json = c.revision_json m.context.principal.security_revision;
    recorded_at = m.recorded_at;
  }

  unfoldable pub new_outbox : Command c → Prepared c → ℕ → OutboxEvent
  new_outbox m p version = record {
    event_id = event_identity c (codes "outbox") p.key;
    aggregate = p.aggregate;
    aggregate_version = version;
    event_type = m.command_type;
    payload_json = c.outbox_json (record {
      event_id = event_identity c (codes "outbox") p.key;
      command_type = m.command_type;
      result_identity = event_identity c (codes "result") p.key;
      aggregate = p.aggregate;
      aggregate_version = version;
    });
    status = codes "PENDING";
    created_at = m.recorded_at;
  }

  unfoldable pub new_receipt : Command c → Prepared c → CommandResult c.State → StoredCommandReceipt
  new_receipt m p result = record {
    payload_hash = p.hash;
    status = result.status;
    result_identity = result.result_identity;
    result_json = c.result_json result;
    aggregate = p.aggregate;
    aggregate_version = result.aggregate_version;
    auth_session_revision_json = c.revision_json m.context.principal.auth_session_revision;
    security_revision_json = c.revision_json m.context.principal.security_revision;
    committed_at = m.recorded_at;
  }

  -- The audit event, the outbox event and the receipt of a result.
  unfoldable pub record_result :
      Command c
      → Prepared c
      → CommandResult c.State
      → Tables
      → Result Raised (CommandResult c.State × Tables)
  record_result m p result db = do
    db1 ← append_audit p.key (new_audit m p result.aggregate_version) db
    db2 ← append_outbox p.key (new_outbox m p result.aggregate_version) db1
    db3 ← insert_receipt p.key (new_receipt m p result) db2
    ok (result, db3)
