-- ===== src/WhatsApp/Outbox/Complete.antt =====
-- prisma-whatsapp.repository.ts, `completeOutboxExecution`: an execution reports its outcome, once
-- for each command.
use lume_tenant_api.Base.{
  String, ℕ, ◌+◌, ◌-◌, ◌*◌, ◌^◌, leb, Bool, true, false, not, ◌&&◌, ◌||◌, Option, none, some, List,
  map, filter, includes, is_empty, get_or, ◌==◌, string_eq, if◌then◌else◌, Result, ◌>>◌, throw_if,
  validation_error, conflict,
}
use lume_tenant_api.Base.Sets.{distinct}
use lume_tenant_api.Base.Text.{trim, is_blank, cut}
use lume_tenant_api.WhatsApp.Outbox.Rows.{
  OutboxStatus, outbox_status_eq, AutomationProvider, n8n, api, OutboxEvent, ExecutionStatus,
  Execution, is_value,
}
use lume_tenant_api.WhatsApp.Outbox.Claim.{QueueDb}
use lume_tenant_api.WhatsApp.Outbox.Settle.{is_api}
use lume_tenant_api.WhatsApp.Outbox.Messages.{MessageRow, AttemptRow, message_persisted}

pub data Outcome : Type 0 where
  succeeded retryable_failure terminal_failure : Outcome

-- `failure_text` is the sanitised error of the source, and `failure_code` its code, which is the
-- outcome's name where none is given.
pub record CompletionInput : Type 0 where
  pub company_id : String
  pub event_id : String
  pub command_id : String
  pub execution_id : String
  pub aggregate_type : String
  pub aggregate_id : String
  pub outcome : Outcome
  pub consumed_source_event_ids : List String
  pub failure_code : String
  pub failure_text : String

pub record CompletionResult : Type 0 where
  pub event_id : String
  pub execution_id : String
  pub aggregate_type : String
  pub aggregate_id : String
  pub aggregate_sequence : ℕ
  pub outcome : Outcome
  pub status : OutboxStatus
  pub attempts : ℕ
  pub consumed_event_count : ℕ

-- A row of the inbox under the source `api.outbox-completion`.
pub record CompletionRow : Type 0 where
  pub company_id : String
  pub command_id : String
  pub payload_hash : String
  pub result : Option CompletionResult
  pub received_at : ℕ

pub record CompletionDb : Type 0 where
  pub queue : QueueDb
  pub inbox : List CompletionRow
  pub messages : List MessageRow
  pub message_attempts : List AttemptRow

pub record RetrySettings : Type 0 where
  pub base_delay : ℕ
  pub maximum_delay : ℕ

abbrev is_success : Outcome → Bool
is_success succeeded = true
is_success _ = false

abbrev is_retry : Outcome → Bool
is_retry retryable_failure = true
is_retry _ = false

unfoldable pub consumed_ids : CompletionInput → List String
consumed_ids input =
    distinct (filter (λ id. not (is_blank id)) (map trim input.consumed_source_event_ids))

abbrev pub other_provider : Option AutomationProvider → Bool
other_provider (some n8n) = true
other_provider (some api) = false
other_provider none = false

-- The event must be in the hands of the execution that reports.
unfoldable pub check_event : CompletionInput → OutboxEvent → Result (Unit {0})
check_event input event = do
  throw_if
      (not (event.aggregate_type == input.aggregate_type)
        || not (event.aggregate_id == input.aggregate_id))
      (conflict "O agregado informado não corresponde ao evento." none)
  throw_if (not (event.status == OutboxStatus.processing))
      (conflict "O evento já foi concluído ou não possui execução aceita." none)
  throw_if (not (is_value event.execution_id input.execution_id))
      (conflict "executionId não corresponde à execução atual do evento." none)
  throw_if (other_provider event.processing_provider)
      (conflict "A execução pertence a outro provedor de automação." none)

unfoldable pub check_consumed : CompletionInput → OutboxEvent → Result (Unit {0})
unfolding consumed_ids
check_consumed input event =
    throw_if
      (not (is_empty (consumed_ids input))
        && (not (is_success input.outcome) || not (event.topic == "whatsapp.inbound.persisted")))
      (validation_error
        "Somente uma conclusão inbound bem-sucedida pode incorporar eventos do mesmo lote.")

-- An outgoing event is not over before the result of its message is stored.
unfoldable pub check_outbound :
    CompletionInput → CompletionDb → OutboxEvent → Option String → Option String → Result (Unit {0})
unfolding message_persisted
check_outbound input db event (some message_id) (some attempt_id) =
    throw_if
      (is_success input.outcome
        && event.topic == "whatsapp.outbound.requested"
        && (is_blank message_id
            || is_blank attempt_id
            || not (
                message_persisted db.messages db.message_attempts input.company_id message_id
                  attempt_id)))
      (conflict
        (if is_blank message_id || is_blank attempt_id
          then "O evento outbound não identifica a mensagem e a tentativa de envio."
          else "O workflow não pode concluir o evento antes de persistir o resultado da Evolution.")
        none)
check_outbound input db event none attempt_id =
    throw_if (is_success input.outcome && event.topic == "whatsapp.outbound.requested")
      (conflict "O evento outbound não identifica a mensagem e a tentativa de envio." none)
check_outbound input db event (some message_id) none =
    throw_if (is_success input.outcome && event.topic == "whatsapp.outbound.requested")
      (conflict "O evento outbound não identifica a mensagem e a tentativa de envio." none)

abbrev pub exhausted : CompletionInput → OutboxEvent → Bool
exhausted input event = is_retry input.outcome && leb event.max_attempts event.attempts

abbrev retry_delay : RetrySettings → ℕ → ℕ
retry_delay settings attempts =
    let wanted = settings.base_delay * 2 ^ (attempts - 1) in
    if leb wanted settings.maximum_delay then wanted else settings.maximum_delay

unfoldable pub delivered_row : ℕ → OutboxEvent → OutboxEvent
delivered_row now event = record event {
  status = OutboxStatus.delivered;
  delivered_at = some now;
  execution_lease_until = none;
  locked_at = none;
  lock_id = none;
  last_error = none;
}

unfoldable pub retried_row : RetrySettings → ℕ → String → OutboxEvent → OutboxEvent
retried_row settings now failure event = record event {
  status = OutboxStatus.pending;
  available_at = now + retry_delay settings event.attempts;
  processing_provider = none;
  execution_id = none;
  accepted_at = none;
  execution_lease_until = none;
  locked_at = none;
  lock_id = none;
  last_error = some failure;
}

unfoldable pub dead_row : Bool → String → OutboxEvent → OutboxEvent
dead_row no_attempt_left failure event = record event {
  status = OutboxStatus.dead;
  execution_id = if no_attempt_left then none else event.execution_id;
  accepted_at = if no_attempt_left then none else event.accepted_at;
  execution_lease_until = none;
  locked_at = none;
  lock_id = none;
  last_error = some failure;
}

-- The event's row after the outcome.
unfoldable pub settled_row : RetrySettings → ℕ → CompletionInput → OutboxEvent → OutboxEvent
unfolding delivered_row retried_row dead_row
settled_row settings now input event =
    if is_success input.outcome
    then delivered_row now event
    else if is_retry input.outcome && not (exhausted input event)
    then retried_row settings now input.failure_text event
    else dead_row (exhausted input event) input.failure_text event

abbrev execution_status_of : CompletionInput → OutboxEvent → ExecutionStatus
execution_status_of input event =
    if is_success input.outcome
    then ExecutionStatus.succeeded
    else if is_retry input.outcome && not (exhausted input event)
    then ExecutionStatus.retryable_failure
    else ExecutionStatus.terminal_failure

abbrev pub reported_by : CompletionInput → Execution → Bool
reported_by input row =
    row.company_id == input.company_id
    && row.execution_id == input.execution_id
    && is_api (some row.provider)

unfoldable pub audited_row : ℕ → CompletionInput → OutboxEvent → Execution → Execution
audited_row now input event row = record row {
  status = execution_status_of input event;
  accepted_at = some (get_or event.accepted_at now);
  completed_at = some now;
  error_code = if is_success input.outcome then none else some (cut 80 input.failure_code);
  error_message = if is_success input.outcome then none else some input.failure_text;
}

-- Events of the same conversation whose messages the batch took in.
unfoldable pub is_consumed : CompletionInput → OutboxEvent → OutboxEvent → Bool
unfolding consumed_ids
is_consumed input event row =
    not (row.id == event.id)
    && row.company_id == input.company_id
    && row.aggregate_type == event.aggregate_type
    && row.aggregate_id == event.aggregate_id
    && row.topic == "whatsapp.inbound.persisted"
    && includes (consumed_ids input) row.correlation_id
    && row.status == OutboxStatus.pending

unfoldable pub consumed_row : ℕ → OutboxEvent → OutboxEvent
consumed_row now row = record row {
  status = OutboxStatus.delivered;
  processing_provider = some api;
  delivered_at = some now;
  execution_id = none;
  accepted_at = none;
  execution_lease_until = none;
  locked_at = none;
  lock_id = none;
  last_error = none;
}
