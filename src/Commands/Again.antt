-- ===== src/Commands/Again.antt =====
-- A command that is sent twice, and a command without permission (src/ephi/application/transactions.py).
use ephi.Base.{
  true, false, err, Option, none, some, ◌≡◌, refl, sym, arith, ◌∙◌, ◌==◌, ℕ_eq, list_Eq, Result, ok,
  Bool-cases, Result-cases, inl, inr, ==-refl, >>=-returns,
}
use mathlib.Core.Path.{subst}
use ephi.Base.Text.{Text}
use ephi.Commands.Context.{AccessScope, Raised, Principal, authorize, is_permitted}
use ephi.Commands.Store.{Tables, get_command_receipt}
use ephi.Commands.Command.{Codecs, Command, CommandResult, Prepared, Answers}
use ephi.Commands.Executor.{admit, execute, authorize_command, check_arguments}
use ephi.Commands.Writes.{new_receipt}
use ephi.Commands.Laws.{
  IsRecorded, execute_alone, execute-IsRecorded, execute-Replays, execute-Refuses,
}
use ephi.Commands.History.{History, History-Keeps}

-- An authorization that passes had an answer, and the answer permits the operation.
authorize-IsPermitted :
    (key : AccessScope → Text) (answer : Option Principal) (presented : Principal)
    (scope : AccessScope) (capability : Text) {u : Unit {0}}
    → authorize key answer presented scope capability ≡ ok u
    → (current : Principal) × (answer ≡ some current)
      × (is_permitted key current presented scope capability ≡ true)
unfolding authorize
authorize-IsPermitted key none presented scope capability h = cc
authorize-IsPermitted key (some current) presented scope capability h =
    elim (Bool-cases (is_permitted key current presented scope capability)) [
      | inl permitted ↦ (current, refl, permitted)
      | inr refused ↦ cc (rw (authorize, refused) at h)
    ]

module _ (c : Codecs) where
  result_of :
      {r s : CommandResult c.State} {db end : Tables}
      → ◌≡◌ {A = Result Raised (CommandResult c.State) × Tables} (ok r, db) (ok s, end)
      → (r ≡ s) × (db ≡ end)
  result_of h = ground arith

  -- A receipt that was recorded is still there after a history.
  recorded_receipt :
      {m : Command c} {p : Prepared c} {r : CommandResult c.State} {db end : Tables}
      → IsRecorded c m p r db
      → History c db end
      → get_command_receipt p.key end ≡ some (new_receipt c m p r)
  unfolding get_command_receipt
  recorded_receipt {m} {p} {r} recorded later =
      History-Keeps c p.key (new_receipt c m p r) later recorded.receipt

  -- What a command that returned has recorded.
  returned-IsRecorded :
      (m : Command c) (p : Prepared c) (answers : Answers) (db db' : Tables)
      (r : CommandResult c.State)
      → admit c m answers.at_start ≡ ok p
      → get_command_receipt p.key db ≡ none
      → execute_alone c m answers db ≡ (ok r, db')
      → IsRecorded c m p r db'
  returned-IsRecorded m p answers db db' r admitted absent done =
      elim (execute-IsRecorded c m p answers db admitted absent) [
        | inl (x, raised) ↦ cc (done, raised)
        | inr (s, end, returned, recorded) ↦
            let (one, there) = result_of (sym returned ∙ done) in
            subst (λ z. IsRecorded c m p r z) there
              (subst (λ z. IsRecorded c m p z end) one recorded)
      ]

  module _ (m : Command c) (p : Prepared c) (answers : Answers) (db db' end : Tables)
      (r : CommandResult c.State) where
    -- Exactly once. A command is admitted, the tables do not hold its receipt, it runs alone and returns.
    -- In whatever tables any history of commands then leads to (commands of anyone, with others between
    -- their transactions, whose effects take no receipt away): sent again, admitted in the same form and
    -- permitted at the replay, it returns the same result and changes no table, where the JSON of the
    -- result reads back.
    pub execute-Again :
        (again : Answers) (between : Tables → Tables)
        → admit c m answers.at_start ≡ ok p
        → get_command_receipt p.key db ≡ none
        → execute_alone c m answers db ≡ (ok r, db')
        → History c db' end
        → admit c m again.at_start ≡ ok p
        → authorize_command c m again.at_replay ≡ ok tt
        → c.read_result (c.result_json r) ≡ some r
        → execute c m again between end ≡ (ok r, end)
    unfolding new_receipt
    execute-Again again between admitted absent done later again_admitted permitted readable =
        let recorded = returned-IsRecorded m p answers db db' r admitted absent done in
        execute-Replays c m p again between end (new_receipt c m p r) r again_admitted
          (recorded_receipt recorded later) permitted readable (==-refl r.result_identity)
          (subst (λ z. (r.payload_hash == z) ≡ true) recorded.hashed (==-refl r.payload_hash))
          (==-refl p.hash)

    -- An identity stands for one payload. A command is admitted, the tables do not hold its receipt, it
    -- runs alone and returns. In whatever tables any history of commands then leads to (whose effects
    -- take no receipt away): a command that is admitted under the same identity, subject and scope but
    -- whose payload hashes otherwise raises an idempotency conflict and changes no table, whatever its
    -- type, its aggregate and its effect.
    pub execute-Conflicts :
        (other : Command c) (q : Prepared c) (again : Answers) (between : Tables → Tables)
        → admit c m answers.at_start ≡ ok p
        → get_command_receipt p.key db ≡ none
        → execute_alone c m answers db ≡ (ok r, db')
        → History c db' end
        → admit c other again.at_start ≡ ok q
        → q.key ≡ p.key
        → (p.hash == q.hash) ≡ false
        → execute c other again between end
          ≡ (err (Raised.idempotency_conflict other.context.command_id), end)
    unfolding new_receipt
    execute-Conflicts other q again between admitted absent done later other_admitted same differs =
        let recorded = returned-IsRecorded m p answers db db' r admitted absent done in
        let there =
          subst (λ z. get_command_receipt z end ≡ some (new_receipt c m p r)) (sym same)
            (recorded_receipt recorded later) in
        execute-Refuses c other q again between end (new_receipt c m p r) other_admitted there
          differs

  -- Disclosure. Whenever a command returns a result, a new one or that of an earlier command, the
  -- resolver's first answer was a principal that permits it: the same subject and revisions as
  -- presented, and the scope and the capability granted to both.
  pub execute-IsPermitted :
      (m : Command c) (answers : Answers) (between : Tables → Tables) (db : Tables) {db' : Tables}
      {r : CommandResult c.State}
      → execute c m answers between db ≡ (ok r, db')
      → (current : Principal) × (answers.at_start ≡ some current)
        × (is_permitted c.canonical_key current m.context.principal m.context.scope
              m.required_capability
            ≡ true)
  unfolding execute admit authorize_command
  execute-IsPermitted m answers between db {db'} {r} h =
      elim (Result-cases (admit c m answers.at_start)) [
        | inr (e, refused) ↦ cc (rw (execute, refused) at h)
        | inl (p, admitted) ↦
            let (u, e1, h1) = >>=-returns (check_arguments c m) _ admitted in
            let (v, e2, h2) = >>=-returns (authorize_command c m answers.at_start) _ h1 in
            authorize-IsPermitted c.canonical_key answers.at_start m.context.principal
              m.context.scope m.required_capability e2
      ]
