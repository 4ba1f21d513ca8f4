-- ===== src/Commands/Tests.antt =====
-- Examples of commands: texts as states, one aggregate and one principal.
use ephi.Base.{
  true, false, none, some, [], ◌∷◌, ◌++◌, ◌≡◌, refl, ◌⊎◌, ◌==◌, list_eq, list_Eq, ℕ_eq, pair_eq,
  contains, ok, err,
}
use ephi.Base.Text.{Text, codes, is_canonical, strip, lstrip, is_space}
use ephi.Base.Dict.{lookup, insert}
use ephi.Commands.Context.{
  Raised, RevisionIdentity, AccessScope, Principal, authorize, is_permitted, same_revision,
  has_capability, grants_scope, is_granted,
}
use ephi.Commands.Store.{
  Tables, get_command_receipt, breaks_index, update_aggregate, has_audit_id, has_outbox_id,
  append_audit, append_outbox, insert_receipt,
}
use ephi.Commands.Command.{Codecs, Command, CommandResult, Prepared, Answers, event_identity}
use ephi.Commands.Executor.{
  authorize_command, check_arguments, prepare, apply_command, commit_first, command_body, admit,
  execute,
}
use ephi.Commands.Writes.{
  new_audit, new_outbox, get_aggregate, run_effect, write_aggregate, new_result, record_result,
}
use ephi.Commands.Laws.{IsRecorded, execute_alone, execute-IsRecorded}
use ephi.Commands.History.{History, IsAppending}
use mathlib.Core.Path.{subst}
use ephi.Commands.Again.{execute-Again, execute-Conflicts, execute-IsPermitted}

abbrev answer_x : CommandResult Text
answer_x = record {
  status = codes "COMMITTED";
  result_identity = codes "ephi-o2:result:s:u:c1";
  aggregate_type = codes "t";
  aggregate_id = codes "x";
  aggregate_version = 5;
  state = codes "oldin";
  payload_hash = codes "in";
}

abbrev texts : Codecs
texts = record {
  State = Text;
  normalize = λ s. some s;
  mark_create = λ s. s ++ codes "$create_if_missing";
  payload_hash = λ kind scope version viewed state target reason. state;
  canonical_key = λ s. s.scope_id;
  sha256 = λ t. t;
  economic_event_key = λ t. none;
  state_json = λ s. s;
  read_state = λ t. some t;
  result_json = λ r. r.state;
  read_result = λ t. some (record answer_x { state = t });
  revision_json = λ r. codes "1";
  audit_json = λ b. b.command_type;
  outbox_json = λ b. b.command_type;
}

abbrev scope_s : AccessScope
scope_s = record {
  scope_id = codes "s";
  site_id = none;
  area_id = none;
  family_id = none;
  project_ids = [];
}

abbrev user_u : Principal
user_u = record {
  subject = codes "u";
  capabilities = codes "write" ∷ [];
  scope_grants = scope_s ∷ [];
  auth_session_revision = RevisionIdentity.number 1;
  security_revision = RevisionIdentity.number 1;
}

abbrev command_x : Command texts
command_x = record {
  context = record {
    command_id = codes "c1";
    principal = user_u;
    scope = scope_s;
    expected_workflow_version = some 4;
    viewed_revisions = none;
    reason = none;
  };
  command_type = codes "append";
  aggregate_type = codes "t";
  aggregate_id = codes "x";
  payload = codes "in";
  required_capability = codes "write";
  effect = λ db state payload. ok (state ++ payload, db);
  create_if_missing = false;
  has_initial_state = false;
  initial_state = [];
  recorded_at = codes "now";
}

abbrev prepared_x : Prepared texts
prepared_x = record {
  payload = codes "in";
  initial_state = [];
  expected = 4;
  hash = codes "in";
  key = (codes "s", (codes "u", codes "c1"));
  aggregate = (codes "s", (codes "t", codes "x"));
}

abbrev granted : Answers
granted = record {
  at_start = some user_u;
  at_replay = some user_u;
  at_reconcile = some user_u;
  at_second_replay = some user_u;
}

abbrev tables_x : Tables
tables_x = record {
  aggregates =
      ((codes "s", (codes "t", codes "x")), record { version = 4; state_json = codes "old" }) ∷ [];
  audits = [];
  outbox = [];
  receipts = [];
}

admitted_x : admit texts command_x (some user_u) ≡ ok prepared_x
unfolding admit check_arguments authorize_command authorize is_permitted same_revision
    has_capability grants_scope is_granted prepare is_canonical strip lstrip is_space contains
    list_eq
admitted_x = refl

permitted_x : authorize_command texts command_x (some user_u) ≡ ok tt
unfolding authorize_command authorize is_permitted same_revision has_capability grants_scope
    is_granted contains list_eq
permitted_x = refl

no_receipt : get_command_receipt prepared_x.key tables_x ≡ none
unfolding get_command_receipt lookup
no_receipt = refl

abbrev after_x : Tables
after_x = (execute_alone texts command_x granted tables_x).1

executed_x : execute_alone texts command_x granted tables_x ≡ (ok answer_x, after_x)
unfolding execute admit check_arguments authorize_command authorize is_permitted same_revision
    has_capability grants_scope is_granted prepare is_canonical strip lstrip is_space contains
    list_eq command_body get_command_receipt commit_first get_aggregate apply_command run_effect
    write_aggregate update_aggregate breaks_index record_result append_audit append_outbox
    insert_receipt has_audit_id has_outbox_id new_result event_identity lookup insert pair_eq
executed_x = refl

execute-IsRecorded_example :
    ((x : Raised) × (execute_alone texts command_x granted tables_x ≡ (err x, tables_x)))
    ⊎ ((r : CommandResult Text) × (db' : Tables) × (execute_alone texts command_x granted tables_x
          ≡ (ok r, db'))
        × IsRecorded texts command_x prepared_x r db')
execute-IsRecorded_example =
    execute-IsRecorded texts command_x prepared_x granted tables_x admitted_x no_receipt

-- Another command, with its own identity, on the next version.
abbrev command_y : Command texts
command_y = record command_x {
  context = record command_x.context {
    command_id = codes "c2";
    expected_workflow_version = some 5;
  };
  payload = codes "more";
}

command_y-IsAppending : IsAppending texts command_y
command_y-IsAppending key receipt db db' state payload out done there =
    subst (λ z. get_command_receipt key z ≡ some receipt) (cc) there

abbrev after_y : Tables
after_y = (execute texts command_y granted (λ t. t) after_x).1

-- It returns too, and leaves its own receipt.
executed_y :
    (execute texts command_y granted (λ t. t) after_x).0
    ≡ ok (record {
      status = codes "COMMITTED";
      result_identity = codes "ephi-o2:result:s:u:c2";
      aggregate_type = codes "t";
      aggregate_id = codes "x";
      aggregate_version = 6;
      state = codes "oldinmore";
      payload_hash = codes "more";
    })
unfolding execute admit check_arguments authorize_command authorize is_permitted same_revision
    has_capability grants_scope is_granted prepare is_canonical strip lstrip is_space contains
    list_eq command_body get_command_receipt commit_first get_aggregate apply_command run_effect
    write_aggregate update_aggregate breaks_index record_result append_audit append_outbox
    insert_receipt has_audit_id has_outbox_id new_result event_identity lookup insert pair_eq
    new_audit new_outbox
executed_y = refl

-- After the command, the other is executed.
y_follows : History texts after_x after_y
y_follows =
    History.sends command_y granted (λ t. t) after_x command_y-IsAppending (History.stays after_x)
      (History.stays after_y)

execute-Again_example : execute texts command_x granted (λ t. t) after_y ≡ (ok answer_x, after_y)
execute-Again_example =
    execute-Again texts command_x prepared_x granted tables_x after_x after_y answer_x granted
      (λ t. t) admitted_x no_receipt executed_x y_follows admitted_x permitted_x refl

-- The identity of the first command with another payload.
abbrev command_z : Command texts
command_z = record command_x { payload = codes "other" }

abbrev prepared_z : Prepared texts
prepared_z = record prepared_x { payload = codes "other"; hash = codes "other" }

admitted_z : admit texts command_z (some user_u) ≡ ok prepared_z
unfolding admit check_arguments authorize_command authorize is_permitted same_revision
    has_capability grants_scope is_granted prepare is_canonical strip lstrip is_space contains
    list_eq
admitted_z = refl

differing : (prepared_x.hash == prepared_z.hash) ≡ false
unfolding list_eq
differing = refl

execute-Conflicts_example :
    execute texts command_z granted (λ t. t) after_y
    ≡ (err (Raised.idempotency_conflict (codes "c1")), after_y)
execute-Conflicts_example =
    execute-Conflicts texts command_x prepared_x granted tables_x after_x after_y answer_x command_z
      prepared_z granted (λ t. t) admitted_x no_receipt executed_x y_follows admitted_z refl
      differing

execute-IsPermitted_example :
    (current : Principal) × (some user_u ≡ some current)
    × (is_permitted (λ s. s.scope_id) current user_u scope_s (codes "write") ≡ true)
execute-IsPermitted_example =
    execute-IsPermitted texts command_x granted (λ t. t) tables_x executed_x
