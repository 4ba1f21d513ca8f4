-- ===== src/Commands/Command.antt =====
-- A command, its result and what is written of it (src/ephi/application/transactions.py).
use ephi.Base.{ℕ, Bool, Option, ◌∷◌, ◌++◌, ℕ_eq, list_Eq, pair_Eq, Result}
use ephi.Base.Text.{Text, codes}
use ephi.Commands.Context.{
  Raised, RevisionIdentity, AccessScope, Principal, RevisionVector, CommandContext,
}
use ephi.Commands.Store.{CommandKey, AggregateKey, Tables}

pub record CommandResult (S : Type 0) : Type 0 where
  pub status : Text
  pub result_identity : Text
  pub aggregate_type : Text
  pub aggregate_id : Text
  pub aggregate_version : ℕ
  pub state : S
  pub payload_hash : Text

-- What an audit and an outbox event say before they are written as JSON.
pub record AuditBody : Type 0 where
  pub command_type : Text
  pub payload_hash : Text
  pub expected_workflow_version : ℕ
  pub new_workflow_version : ℕ
  pub result_identity : Text
  pub auth_session_revision : RevisionIdentity
  pub security_revision : RevisionIdentity

pub record OutboxBody : Type 0 where
  pub event_id : Text
  pub command_type : Text
  pub result_identity : Text
  pub aggregate : AggregateKey
  pub aggregate_version : ℕ

-- What the executor takes from elsewhere: json, hashlib and the normal form of payloads
-- (src/ephi/application/hashing.py). A `State` is a JSON object in normal form.
pub record Codecs : Type 1 where
  pub State : Type 0
  pub normalize : State → Option State
  pub mark_create : State → State
  pub payload_hash :
      Text → AccessScope → ℕ → Option RevisionVector → State → Text × Text → Option Text → Text
  pub canonical_key : AccessScope → Text
  pub sha256 : Text → Text
  pub economic_event_key : Text → Option Text
  pub state_json : State → Text
  pub read_state : Text → Option State
  pub result_json : CommandResult State → Text
  pub read_result : Text → Option (CommandResult State)
  pub revision_json : RevisionIdentity → Text
  pub audit_json : AuditBody → Text
  pub outbox_json : OutboxBody → Text

-- The answers of the resolver at the calls of `authorize`, in their order: at the start, at a replay,
-- before a reconciliation and at the replay in it.
pub record Answers : Type 0 where
  pub at_start : Option Principal
  pub at_replay : Option Principal
  pub at_reconcile : Option Principal
  pub at_second_replay : Option Principal

-- `_event_identity`
unfoldable pub event_identity : (c : Codecs) → Text → CommandKey → Text
event_identity c kind key =
    c.sha256
      (codes "ephi-o2:" ++ (kind ++ (b':' ∷ (key.0 ++ (b':' ∷ (key.1.0 ++ (b':' ∷ key.1.1)))))))

-- An exception of an effect that is no CommandError.
unfoldable pub as_command : Raised → Raised
as_command Raised.receipt_exists = Raised.validation_failure
as_command Raised.event_exists = Raised.validation_failure
as_command Raised.aggregate_exists = Raised.validation_failure
as_command e = e

-- The arguments of `execute`. An effect gets the tables of the transaction, the state and the payload;
-- a plain effect leaves the tables alone.
pub record Command (c : Codecs) : Type 0 where
  pub context : CommandContext
  pub command_type : Text
  pub aggregate_type : Text
  pub aggregate_id : Text
  pub payload : c.State
  pub required_capability : Text
  pub effect : Tables → c.State → c.State → Result Raised (c.State × Tables)
  pub create_if_missing : Bool
  pub has_initial_state : Bool
  pub initial_state : c.State
  pub recorded_at : Text

-- What `execute` computes before the transaction.
pub record Prepared (c : Codecs) : Type 0 where
  pub payload : c.State
  pub initial_state : c.State
  pub expected : ℕ
  pub hash : Text
  pub key : CommandKey
  pub aggregate : AggregateKey
