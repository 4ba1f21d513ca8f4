-- ===== src/Commands/History.antt =====
-- The receipts that commands leave stay, whatever commands follow (src/ephi/application/transactions.py).
use ephi.Base.{
  ℕ, ◌+◌, false, not, Option, none, some, ◌≡◌, refl, sym, arith, ◌∙◌, nat_eq, ◌==◌, ℕ_eq, list_Eq,
  pair_Eq, ok, raise_if, or_raise, is_some, Bool-cases, Option-cases, Result-cases, inl, inr,
  >>=-returns, ap, Eq, ◌⊎◌, ◌&&◌,
}
use mathlib.Core.Path.{subst}
use ephi.Base.Order.{true≢false}
use ephi.Base.Dict.{Dict, lookup, insert, has_key, lookup-insert_ne}
use ephi.Commands.Context.{Raised, Principal}
use ephi.Commands.Store.{
  CommandKey, StoredCommandReceipt, Tables, get_command_receipt, update_aggregate, insert_aggregate,
  append_audit, append_outbox, insert_receipt,
}
use ephi.Commands.Command.{Codecs, Command, CommandResult, Prepared, Answers}
use ephi.Commands.Writes.{
  run_effect, write_aggregate, record_result, new_result, new_receipt, get_aggregate,
}
use ephi.Commands.Executor.{
  admit, execute, command_body, commit_first, apply_command, stale_version, replay_or_conflict,
  recover, version_of, state_from,
}

-- A key that is in a dictionary is not one that is missing there.
fresh-other :
    {K V : Type 0} ⦃e : Eq K⦄ (k j : K) (d : Dict K V) {v : V}
    → has_key k d ≡ false
    → lookup j d ≡ some v
    → (k == j) ≡ false
fresh-other ⦃e = e⦄ k j d {v} absent there = elim (Bool-cases (k == j)) [
  | inl same ↦
      let one : k ≡ j = (e.beq_iff k j).0 same in
      absurd
        (true≢false (sym (ap is_some (subst (λ z. lookup z d ≡ some v) (sym one) there)) ∙ absent))
  | inr other ↦ other
]

module _ (key : CommandKey) (receipt : StoredCommandReceipt) where
  -- Receipts of a key that the tables hold, other tables hold too.
  abbrev pub Keeps : Tables → Tables → Type 0
  Keeps db db' =
      get_command_receipt key db ≡ some receipt → get_command_receipt key db' ≡ some receipt

  insert-Keeps :
      (k : CommandKey) (r : StoredCommandReceipt) (db db' : Tables)
      → has_key k db.receipts ≡ false
      → db'.receipts ≡ insert k r db.receipts
      → Keeps db db'
  unfolding get_command_receipt
  insert-Keeps k r db db' absent added there =
      subst (λ z. lookup key z ≡ some receipt) (sym added)
        (lookup-insert_ne k key r db.receipts (fresh-other k key db.receipts absent there) ∙ there)

  same-Keeps : (db db' : Tables) → db'.receipts ≡ db.receipts → Keeps db db'
  unfolding get_command_receipt
  same-Keeps db db' same there = subst (λ z. lookup key z ≡ some receipt) (sym same) there

module _ (c : Codecs) where
  -- An effect that takes no receipt away: the transaction it is given has no statement that could.
  abbrev pub IsAppending : Command c → Type 0
  IsAppending m =
      (key : CommandKey) (receipt : StoredCommandReceipt) (db db' : Tables)
      (state payload out : c.State)
      → m.effect db state payload ≡ ok (out, db')
      → Keeps key receipt db db'

  -- Tables that commands lead to, one after the other. What others commit between the two transactions of
  -- a command is a history too.
  pub data History : Tables → Tables → Type 0 where
    stays : (db : Tables) → History db db
    sends :
        (m : Command c) (answers : Answers) (between : Tables → Tables) (db : Tables) {end : Tables}
        → IsAppending m
        → History db (between db)
        → History (execute c m answers between db).1 end
        → History db end

  write_aggregate-receipts :
      (m : Command c) (p : Prepared c) (found : Option (ℕ × c.State)) (n : ℕ) (state : c.State)
      (db db' : Tables)
      → write_aggregate c m p found n state db ≡ ok db'
      → db'.receipts ≡ db.receipts
  unfolding write_aggregate update_aggregate insert_aggregate
  write_aggregate-receipts m p none n state db db' h = ground arith
  write_aggregate-receipts m p (some found) n state db db' h =
      elim (Option-cases (lookup p.aggregate db.aggregates)) [
        | inl absent ↦ ground arith
        | inr (row, there) ↦ ground arith
      ]

  record_result-receipts :
      (m : Command c) (p : Prepared c) (r s : CommandResult c.State) (db db' : Tables)
      → record_result c m p r db ≡ ok (s, db')
      → (has_key p.key db.receipts ≡ false)
        × (db'.receipts ≡ insert p.key (new_receipt c m p r) db.receipts)
  unfolding record_result append_audit append_outbox insert_receipt
  record_result-receipts m p r s db db' h = ground arith

  run_effect-ok :
      (m : Command c) (db : Tables) (state payload : c.State) {a : c.State × Tables}
      → run_effect c m db state payload ≡ ok a
      → m.effect db state payload ≡ ok a
  unfolding run_effect
  run_effect-ok m db state payload h = elim (Result-cases (m.effect db state payload)) [
    | inl (b, q) ↦ q ∙ (rw (q, run_effect) at h)
    | inr (e, q) ↦ cc (rw (q, run_effect) at h)
  ]

  module _ (key : CommandKey) (receipt : StoredCommandReceipt) where
    apply_command-Keeps :
        (m : Command c) (p : Prepared c) (found : Option (ℕ × c.State)) (r : CommandResult c.State)
        (db db' : Tables)
        → IsAppending m
        → apply_command c m p found db ≡ ok (r, db')
        → Keeps key receipt db db'
    unfolding apply_command
    apply_command-Keeps m p found r db db' appends h there =
        let ((raw, db1), e1, h1) =
          >>=-returns (run_effect c m db (state_from c found p.initial_state) p.payload) _ h in
        let (next, e2, h2) =
          >>=-returns (or_raise (c.normalize raw) Raised.validation_failure) _ h1 in
        let (db2, e3, h3) =
          >>=-returns (write_aggregate c m p found (version_of c found) next db1) _ h2 in
        let result = new_result c p (version_of c found + 1) next in
        let (absent, added) = record_result-receipts m p result r db2 db' h3 in
        insert-Keeps key receipt p.key (new_receipt c m p result) db2 db' absent added (
          same-Keeps key receipt db1 db2
            (write_aggregate-receipts m p found (version_of c found) next db1 db2 e3)
            (appends key receipt db db1 _ p.payload raw (run_effect-ok m db _ p.payload e1) there))

    stale_version-tables :
        (m : Command c) (p : Prepared c) (answer : Option Principal) (n : ℕ)
        (r : CommandResult c.State) (db db' : Tables)
        → stale_version c m p answer n db ≡ ok (r, db')
        → db' ≡ db
    unfolding stale_version
    stale_version-tables m p answer n r db db' h =
        elim (Option-cases (get_command_receipt p.key db)) [
          | inl absent ↦ cc (rw (absent, stale_version) at h)
          | inr (x, found) ↦
              let (s, e1, h1) =
                >>=-returns (replay_or_conflict c m answer x p.hash) _
                  (rw (found, stale_version) at h) in
              cc
        ]

    command_body-Keeps :
        (m : Command c) (p : Prepared c) (answer : Option Principal) (r : CommandResult c.State)
        (db db' : Tables)
        → IsAppending m
        → command_body c m p answer db ≡ ok (r, db')
        → Keeps key receipt db db'
    unfolding command_body commit_first
    command_body-Keeps m p answer r db db' appends h there =
        elim (Option-cases (get_command_receipt p.key db)) [
          | inr (x, found) ↦
              let (s, e1, h1) =
                >>=-returns (replay_or_conflict c m answer x p.hash) _
                  (rw (found, command_body) at h) in
              let same : db ≡ db' = cc in
              subst (λ z. get_command_receipt key z ≡ some receipt) same there
          | inl absent ↦
              let (found, e1, h1) =
                >>=-returns (get_aggregate c p.aggregate db) _ (rw (absent, command_body) at h) in
              let (u, e2, h2) =
                >>=-returns
                  (raise_if (not (is_some found) && not m.create_if_missing)
                    Raised.aggregate_not_found)
                  _ h1 in
              elim (Bool-cases (nat_eq (version_of c found) p.expected)) [
                | inl same ↦ apply_command-Keeps m p found r db db' appends (rw same at h2) there
                | inr other ↦
                    subst (λ z. get_command_receipt key z ≡ some receipt)
                      (sym (
                        stale_version-tables m p answer (version_of c found) r db db'
                          (rw other at h2)))
                      there
              ]
        ]

    -- A recovery leaves the tables, or those that others committed.
    recover-tables :
        (m : Command c) (p : Prepared c) (answers : Answers) (between : Tables → Tables)
        (e : Raised) (db : Tables)
        → ((recover c m p answers between e db).1 ≡ db)
          ⊎ ((recover c m p answers between e db).1 ≡ between db)
    unfolding recover
    recover-tables m p answers between Raised.receipt_exists db = inr refl
    recover-tables m p answers between Raised.event_exists db = inr refl
    recover-tables m p answers between Raised.aggregate_exists db = inr refl
    recover-tables m p answers between Raised.authorization_denied db = inl refl
    recover-tables m p answers between Raised.validation_failure db = inl refl
    recover-tables m p answers between Raised.aggregate_not_found db = inl refl
    recover-tables m p answers between Raised.storage_failure db = inl refl
    recover-tables m p answers between Raised.coherent_read_conflict db = inl refl
    recover-tables m p answers between Raised.invalid_transition db = inl refl
    recover-tables m p answers between (Raised.idempotency_conflict _) db = inl refl
    recover-tables m p answers between (Raised.version_conflict _ _ _) db = inl refl

    execute-Keeps :
        (m : Command c) (answers : Answers) (between : Tables → Tables) (db : Tables)
        → IsAppending m
        → Keeps key receipt db (between db)
        → Keeps key receipt db (execute c m answers between db).1
    unfolding execute
    execute-Keeps m answers between db appends others there =
        elim (Result-cases (admit c m answers.at_start)) [
          | inr (e, refused) ↦ rw (refused, execute) there
          | inl (p, admitted) ↦ elim (Result-cases (command_body c m p answers.at_replay db)) [
            | inl ((r, db'), done) ↦
                rw (admitted, execute, done)
                  (command_body-Keeps m p answers.at_replay r db db' appends done there)
            | inr (e, raised) ↦
                rw (admitted, execute, raised)
                  (elim (recover-tables m p answers between e db) [
                    | inl same ↦
                        subst (λ z. get_command_receipt key z ≡ some receipt) (sym same) there
                    | inr moved ↦
                        subst (λ z. get_command_receipt key z ≡ some receipt) (sym moved)
                          (others there)
                  ])
          ]
        ]

    -- A receipt that the tables hold stays along every history.
    pub History-Keeps : {db end : Tables} → History db end → Keeps key receipt db end
    History-Keeps (History.stays db) there = there
    History-Keeps (History.sends m answers between db appends others rest) there =
        History-Keeps rest (execute-Keeps m answers between db appends (History-Keeps others) there)
