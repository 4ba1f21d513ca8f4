-- ===== src/Commands/Store.antt =====
-- The tables of a command transaction and its statements: `_SQLiteCommandTransaction` of
-- src/ephi/infrastructure/sqlite.py, with the records of src/ephi/application/storage.py.
use ephi.Base.{
  ℕ, Bool, false, ◌&&◌, ◌||◌, not, Option, none, some, [], ◌∷◌, nat_eq, ◌==◌, ℕ_eq, list_Eq,
  pair_Eq, option_Eq, Result, ok, err, if◌then◌else◌,
}
use ephi.Base.Text.{Text, codes}
use ephi.Base.Dict.{Dict, lookup, insert, has_key}
use ephi.Commands.Context.{Raised}

-- Scope, subject and command; scope, type and identity.
abbrev pub CommandKey : Type 0
CommandKey = Text × (Text × Text)

abbrev pub AggregateKey : Type 0
AggregateKey = Text × (Text × Text)

pub record AggregateRow : Type 0 where
  pub version : ℕ
  pub state_json : Text

pub record AuditEvent : Type 0 where
  pub event_id : Text
  pub aggregate : AggregateKey
  pub aggregate_version : ℕ
  pub event_type : Text
  pub event_json : Text
  pub auth_session_revision_json : Text
  pub security_revision_json : Text
  pub recorded_at : Text

pub record OutboxEvent : Type 0 where
  pub event_id : Text
  pub aggregate : AggregateKey
  pub aggregate_version : ℕ
  pub event_type : Text
  pub payload_json : Text
  pub status : Text
  pub created_at : Text

pub record StoredCommandReceipt : Type 0 where
  pub payload_hash : Text
  pub status : Text
  pub result_identity : Text
  pub result_json : Text
  pub aggregate : AggregateKey
  pub aggregate_version : ℕ
  pub auth_session_revision_json : Text
  pub security_revision_json : Text
  pub committed_at : Text

-- Each event table is unique by command; so is the table of receipts.
pub record Tables : Type 0 where
  pub aggregates : Dict AggregateKey AggregateRow
  pub audits : Dict CommandKey AuditEvent
  pub outbox : Dict CommandKey OutboxEvent
  pub receipts : Dict CommandKey StoredCommandReceipt

unfoldable pub get_command_receipt : CommandKey → Tables → Option StoredCommandReceipt
get_command_receipt key db = lookup key db.receipts

-- The unique index on the economic event of an outcome group: another group of the scope has the key
-- that `economic_event_key` (json_extract) finds in a state.
unfoldable pub has_economic_event :
    (Text → Option Text) → Text → AggregateKey → Dict AggregateKey AggregateRow → Bool
has_economic_event extract event key [] = false
has_economic_event extract event key ((k, row) ∷ rows) =
    ((k.0 == key.0)
      && (k.1.0 == codes "outcome_claim_group")
      && not (k == key)
      && (extract row.state_json == some event))
    || has_economic_event extract event key rows

unfoldable pub breaks_index :
    (Text → Option Text) → AggregateKey → Text → Dict AggregateKey AggregateRow → Bool
breaks_index extract key state_json rows =
    (key.1.0 == codes "outcome_claim_group") && elim (extract state_json) [
      | none ↦ false
      | some event ↦ has_economic_event extract event key rows
    ]

-- The row count of the guarded UPDATE, and the tables after it.
unfoldable pub update_aggregate :
    (Text → Option Text) → AggregateKey → ℕ → ℕ → Text → Tables → Result Raised (ℕ × Tables)
update_aggregate extract key expected next state_json db = elim (lookup key db.aggregates) [
  | none ↦ ok (0, db)
  | some row ↦
      if not (nat_eq row.version expected)
      then ok (0, db)
      else if breaks_index extract key state_json db.aggregates
      then err Raised.storage_failure
      else ok (
        1,
        record db {
          aggregates =
              insert key (record { version = next; state_json = state_json }) db.aggregates;
        },
      )
]

unfoldable pub insert_aggregate :
    (Text → Option Text) → AggregateKey → ℕ → Text → Tables → Result Raised Tables
insert_aggregate extract key version state_json db =
    if has_key key db.aggregates || breaks_index extract key state_json db.aggregates
    then err Raised.aggregate_exists
    else ok (record db {
      aggregates = insert key (record { version = version; state_json = state_json }) db.aggregates;
    })

unfoldable pub has_audit_id : Text → Dict CommandKey AuditEvent → Bool
has_audit_id event_id [] = false
has_audit_id event_id ((k, e) ∷ es) = (e.event_id == event_id) || has_audit_id event_id es

unfoldable pub has_outbox_id : Text → Dict CommandKey OutboxEvent → Bool
has_outbox_id event_id [] = false
has_outbox_id event_id ((k, e) ∷ es) = (e.event_id == event_id) || has_outbox_id event_id es

unfoldable pub append_audit : CommandKey → AuditEvent → Tables → Result Raised Tables
append_audit key e db =
    if has_key key db.audits || has_audit_id e.event_id db.audits
    then err Raised.storage_failure
    else ok (record db { audits = insert key e db.audits })

unfoldable pub append_outbox : CommandKey → OutboxEvent → Tables → Result Raised Tables
append_outbox key e db =
    if has_key key db.outbox || has_outbox_id e.event_id db.outbox
    then err Raised.storage_failure
    else ok (record db { outbox = insert key e db.outbox })

unfoldable pub insert_receipt : CommandKey → StoredCommandReceipt → Tables → Result Raised Tables
insert_receipt key r db =
    if has_key key db.receipts
    then err Raised.receipt_exists
    else ok (record db { receipts = insert key r db.receipts })
