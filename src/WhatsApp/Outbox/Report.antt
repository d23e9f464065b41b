-- ===== src/WhatsApp/Outbox/Report.antt =====
-- prisma-whatsapp.repository.ts, `completeOutboxExecution` put together, and `createOrderedOutbox`.
-- Advisory locks make each of them one step; an error undoes its transaction.
use lume_tenant_api.Base.{
  String, ℕ, ◌+◌, ltb, nat_beq, Bool, true, false, not, ◌&&◌, Option, none, some, List, [], ◌∷◌,
  ◌++◌, map, filter, length, any, is_some, ◌==◌, string_eq, if◌then◌else◌, Result, ok, err, ◌>>◌,
  throw_if, validation_error, conflict, not_found,
}
use lume_tenant_api.Base.Tables.{update_where, count_where, find_where}
use lume_tenant_api.WhatsApp.Outbox.Rows.{
  OutboxStatus, outbox_status_eq, api, OutboxEvent, ExecutionStatus, Execution, same_aggregate,
}
use lume_tenant_api.WhatsApp.Outbox.Claim.{QueueDb}
use lume_tenant_api.WhatsApp.Outbox.Complete.{
  CompletionInput, CompletionResult, CompletionRow, CompletionDb, RetrySettings, consumed_ids,
  check_event, check_consumed, check_outbound, settled_row, reported_by, audited_row, is_consumed,
  consumed_row,
}

abbrev pub same_event : CompletionInput → OutboxEvent → Bool
same_event input row = row.id == input.event_id && row.company_id == input.company_id

-- `executionId` of the audit row of a consumed event is made of this execution's and the event's.
abbrev pub consumed_execution :
    (String → String → String) → ℕ → CompletionInput → OutboxEvent → Execution
consumed_execution consumed_id now input row = record {
  company_id = input.company_id;
  outbox_event_id = row.id;
  execution_id = consumed_id input.execution_id row.id;
  provider = api;
  status = ExecutionStatus.succeeded;
  attempt_number = if nat_beq row.attempts 0 then 1 else row.attempts;
  started_at = now;
  accepted_at = some now;
  completed_at = some now;
  error_code = none;
  error_message = none;
}

-- `skipDuplicates`: by company and execution.
unfoldable pub add_executions : List Execution → List Execution → List Execution
add_executions rows [] = rows
add_executions rows (row ∷ more) =
    add_executions
      (if any (λ r. r.company_id == row.company_id && r.execution_id == row.execution_id) rows
        then rows
        else rows ++ row ∷ [])
      more

-- The outbox after the outcome: the event, and the events that it took in.
unfoldable pub settle_outbox :
    RetrySettings → ℕ → CompletionInput → OutboxEvent → List OutboxEvent → List OutboxEvent
unfolding settled_row is_consumed consumed_row
settle_outbox settings now input event outbox =
    update_where (is_consumed input event) (consumed_row now)
      (update_where (same_event input) (settled_row settings now input) outbox)

abbrev pub same_command : CompletionInput → CompletionRow → Bool
same_command input row = row.company_id == input.company_id && row.command_id == input.command_id

-- `fingerprint` is the SHA-256 of the command, `consumed_id` makes a UUID of a SHA-256.
module _ (fingerprint : CompletionInput → String) (consumed_id : String → String → String) where
  unfoldable pub completion_result :
      RetrySettings → ℕ → CompletionInput → OutboxEvent → ℕ → CompletionResult
  unfolding settled_row
  completion_result settings now input event consumed = record {
    event_id = event.id;
    execution_id = input.execution_id;
    aggregate_type = event.aggregate_type;
    aggregate_id = event.aggregate_id;
    aggregate_sequence = event.aggregate_sequence;
    outcome = input.outcome;
    status = (settled_row settings now input event).status;
    attempts = event.attempts;
    consumed_event_count = consumed;
  }

  -- The database once the outcome of a checked event is stored.
  unfoldable pub settle :
      RetrySettings
      → ℕ
      → CompletionInput
      → OutboxEvent
      → CompletionDb
      → Result (CompletionDb × CompletionResult × Bool)
  unfolding settle_outbox audited_row add_executions completion_result
  settle settings now input event db = do
    throw_if
        (is_some event.processing_provider
          && not (nat_beq (count_where (reported_by input) db.queue.executions) 1))
        (conflict "A execução não possui o registro de auditoria esperado." none)
    let settled = update_where (same_event input) (settled_row settings now input) db.queue.outbox
    let consumed = filter (is_consumed input event) settled
    let result = completion_result settings now input event (length consumed)
    ok (
      record db {
        queue = record {
          outbox = settle_outbox settings now input event db.queue.outbox;
          executions =
              add_executions
                (update_where (reported_by input) (audited_row now input event) db.queue.executions)
                (map (consumed_execution consumed_id now input) consumed);
        };
        inbox =
            record {
              company_id = input.company_id;
              command_id = input.command_id;
              payload_hash = fingerprint input;
              result = some result;
              received_at = now;
            }
            ∷ db.inbox;
      },
      result,
      false,
    )

  unfoldable pub complete_event :
      RetrySettings
      → ℕ
      → CompletionInput
      → CompletionDb
      → Option OutboxEvent
      → Result (CompletionDb × CompletionResult × Bool)
  unfolding settle check_event check_consumed check_outbound
  complete_event settings now input db none = err (not_found "Evento de outbox")
  complete_event settings now input db (some event) = do
    check_event input event
    check_consumed input event
    check_outbound input db event event.message_id event.attempt_id
    settle settings now input event db

  -- A command that was carried out before.
  unfoldable pub replay_completion :
      CompletionInput
      → CompletionDb
      → CompletionRow
      → Result (CompletionDb × CompletionResult × Bool)
  replay_completion input db row = do
    throw_if (not (row.payload_hash == fingerprint input))
        (conflict "commandId já foi usado com outro conteúdo." none)
    elim row.result [
      | none ↦ err (conflict "Conclusão de outbox incompleta." none)
      | some result ↦ ok (db, result, true)
    ]

  unfoldable pub complete_checked :
      RetrySettings
      → ℕ
      → CompletionInput
      → CompletionDb
      → Option CompletionRow
      → Result (CompletionDb × CompletionResult × Bool)
  unfolding complete_event replay_completion find_where
  complete_checked settings now input db (some row) = replay_completion input db row
  complete_checked settings now input db none =
      complete_event settings now input db (find_where (same_event input) db.queue.outbox)

  -- The last component is `idempotent`.
  unfoldable pub complete_outbox_execution :
      RetrySettings
      → ℕ
      → CompletionInput
      → CompletionDb
      → Result (CompletionDb × CompletionResult × Bool)
  unfolding complete_checked consumed_ids
  complete_outbox_execution settings now input db = do
    throw_if (ltb 50 (length (consumed_ids input)))
        (validation_error "Uma conclusão pode incorporar no máximo 50 eventos inbound.")
    complete_checked settings now input db (find_where (same_command input) db.inbox)

-- The greatest sequence of the aggregate, or 0.
unfoldable pub latest_sequence : OutboxEvent → List OutboxEvent → ℕ
latest_sequence event [] = 0
latest_sequence event (row ∷ rows) =
    let latest = latest_sequence event rows in
    if same_aggregate row event && ltb latest row.aggregate_sequence
    then row.aggregate_sequence
    else latest

-- A new event; its columns are given but for those that the database or the call fills in.
unfoldable pub create_ordered_outbox : OutboxEvent → QueueDb → QueueDb
unfolding latest_sequence
create_ordered_outbox event db = record db {
  outbox =
      db.outbox
      ++ record event {
        aggregate_sequence = latest_sequence event db.outbox + 1;
        status = OutboxStatus.pending;
        attempts = 0;
        locked_at = none;
        lock_id = none;
        execution_id = none;
        accepted_at = none;
        execution_lease_until = none;
        processing_provider = none;
        delivered_at = none;
        last_error = none;
      }
        ∷ [];
}
