-- ===== src/WhatsApp/Outbox/Repeat.antt =====
-- An instance that reports an outcome twice.
use lume_tenant_api.Base.{
  String, ℕ, ltb, Bool, true, Option, none, some, List, ◌∷◌, ◌≡◌, refl, inl, inr, arith, Bool-cases,
  string_eq, eq_iff, ok, length, Option-cases,
}
use lume_tenant_api.Base.Tables.{find_where}
use lume_tenant_api.WhatsApp.Outbox.Rows.{outbox_status_eq, OutboxEvent}
use lume_tenant_api.WhatsApp.Outbox.Complete.{
  CompletionInput, CompletionResult, CompletionRow, CompletionDb, RetrySettings, consumed_ids,
}
use lume_tenant_api.WhatsApp.Outbox.Report.{
  settle, complete_event, complete_checked, complete_outbox_execution, replay_completion,
  same_command,
}

module _ (fingerprint : CompletionInput → String) (consumed_id : String → String → String) where
  -- The inbox keeps the command with its answer.
  abbrev stored_row : CompletionInput → CompletionResult → ℕ → CompletionRow
  stored_row input result now = record {
    company_id = input.company_id;
    command_id = input.command_id;
    payload_hash = fingerprint input;
    result = some result;
    received_at = now;
  }

  settle-inbox :
      (settings : RetrySettings) (now : ℕ) (input : CompletionInput) (event : OutboxEvent)
      (db db' : CompletionDb) (result : CompletionResult) (again : Bool)
      → settle fingerprint consumed_id settings now input event db ≡ ok (db', result, again)
      → db'.inbox ≡ stored_row input result now ∷ db.inbox
  unfolding settle
  settle-inbox settings now input event db db' result again h = ground arith

  complete_event-inbox :
      (settings : RetrySettings) (now : ℕ) (input : CompletionInput) (db db' : CompletionDb)
      (event : Option OutboxEvent) (result : CompletionResult) (again : Bool)
      → complete_event fingerprint consumed_id settings now input db event ≡ ok (db', result, again)
      → db'.inbox ≡ stored_row input result now ∷ db.inbox
  unfolding complete_event
  complete_event-inbox settings now input db db' none result again h = cc
  complete_event-inbox settings now input db db' (some event) result again h =
      let settled : settle fingerprint consumed_id settings now input event db
          ≡ ok (db', result, again) =
        ground arith in
      settle-inbox settings now input event db db' result again settled

  find_stored :
      (input : CompletionInput) (rows inbox : List CompletionRow) (result : CompletionResult)
      (now : ℕ)
      → inbox ≡ stored_row input result now ∷ rows
      → find_where (same_command input) inbox ≡ some (stored_row input result now)
  unfolding find_where
  find_stored input rows inbox result now h =
      let company = (eq_iff input.company_id input.company_id).1 refl in
      let command = (eq_iff input.command_id input.command_id).1 refl in
      let same : same_command input (stored_row input result now) ≡ true = ground arith in
      rw (h, same) refl

  replay_stored :
      (input : CompletionInput) (db : CompletionDb) (result : CompletionResult) (now : ℕ)
      → replay_completion fingerprint consumed_id input db (stored_row input result now)
        ≡ ok (db, result, true)
  unfolding replay_completion
  replay_stored input db result now =
      let print = (eq_iff (fingerprint input) (fingerprint input)).1 refl in ground arith

  replay_again :
      (input : CompletionInput) (db db' : CompletionDb) (row : CompletionRow)
      (result : CompletionResult) (again : Bool)
      → replay_completion fingerprint consumed_id input db row ≡ ok (db', result, again)
      → (db' ≡ db)
        × (replay_completion fingerprint consumed_id input db row ≡ ok (db, result, true))
  unfolding replay_completion
  replay_again input db db' row result again h = (ground arith, ground arith)

  complete_checked_twice :
      (settings settings' : RetrySettings) (now now' : ℕ) (input : CompletionInput)
      (db db' : CompletionDb) (result : CompletionResult) (again : Bool)
      → complete_checked fingerprint consumed_id settings now input db
          (find_where (same_command input) db.inbox)
        ≡ ok (db', result, again)
      → complete_checked fingerprint consumed_id settings' now' input db'
          (find_where (same_command input) db'.inbox)
        ≡ ok (db', result, true)
  unfolding complete_checked find_where
  complete_checked_twice settings settings' now now' input db db' result again h =
      elim (Option-cases (find_where (same_command input) db.inbox)) [
        | inr (row, e) ↦
            let (same, replayed) = replay_again input db db' row result again (rw e at h) in
            rw (same, e) replayed
        | inl e ↦
            let stored =
              complete_event-inbox settings now input db db' _ result again (rw e at h) in
            rw (find_stored input db.inbox db'.inbox result now stored)
              (replay_stored input db' result now)
      ]

  -- A report that was answered is answered the same when it is sent again to the database that the
  -- first answer left, at any time and whatever the settings: the result is the first one, marked as a
  -- repetition, and nothing is stored twice.
  pub complete_twice :
      (settings settings' : RetrySettings) (now now' : ℕ) (input : CompletionInput)
      (db db' : CompletionDb) (result : CompletionResult) (again : Bool)
      → complete_outbox_execution fingerprint consumed_id settings now input db
        ≡ ok (db', result, again)
      → complete_outbox_execution fingerprint consumed_id settings' now' input db'
        ≡ ok (db', result, true)
  unfolding complete_outbox_execution
  complete_twice settings settings' now now' input db db' result again h =
      elim (Bool-cases (ltb 50 (length (consumed_ids input)))) [
        | inl many ↦ absurd (ground (arith, h, many))
        | inr few ↦ rw few (
            complete_checked_twice settings settings' now now' input db db' result again
              (rw few at h))
      ]
