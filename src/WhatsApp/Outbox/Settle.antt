-- ===== src/WhatsApp/Outbox/Settle.antt =====
-- whatsapp-automation-event.store.ts, `markAccepted` and `rejectBeforeAcceptance`: an instance begins
-- to work on an event that it claimed, or gives it back. An instance knows the event as it claimed it.
use lume_tenant_api.Base.{
  String, ℕ, ◌+◌, ◌-◌, ◌*◌, ◌^◌, leb, Bool, true, false, not, ◌&&◌, Option, none, some, List, ◌==◌,
  string_eq, if◌then◌else◌, nat_beq, any,
}
use lume_tenant_api.Base.Tables.{update_where, count_where, find_where}
use lume_tenant_api.WhatsApp.Outbox.Rows.{
  OutboxStatus, outbox_status_eq, AutomationProvider, n8n, api, OutboxEvent, ExecutionStatus,
  claimed, accepted, retryable_failure, terminal_failure, Execution, QueueSettings, is_value,
}
use lume_tenant_api.WhatsApp.Outbox.Claim.{QueueDb}

-- What an instance holds of an event: `ClaimedWhatsAppAutomationEvent`.
pub record ClaimedEvent : Type 0 where
  pub id : String
  pub company_id : String
  pub execution_id : String
  pub attempts : ℕ
  pub max_attempts : ℕ

abbrev pub is_api : Option AutomationProvider → Bool
is_api (some api) = true
is_api (some n8n) = false
is_api none = false

abbrev pub is_claimed : ExecutionStatus → Bool
is_claimed claimed = true
is_claimed _ = false

-- The event is still locked by the execution of the claim.
abbrev pub locked_by : ClaimedEvent → OutboxEvent → Bool
locked_by event row =
    row.id == event.id
    && row.company_id == event.company_id
    && row.status == OutboxStatus.processing
    && is_value row.execution_id event.execution_id
    && is_value row.lock_id event.execution_id

abbrev pub of_execution : ClaimedEvent → Execution → Bool
of_execution event row =
    row.company_id == event.company_id && row.execution_id == event.execution_id

-- The execution is no longer only claimed: it was accepted before, or is over.
unfoldable pub already_settled : ClaimedEvent → List Execution → Bool
already_settled event executions = elim (find_where (of_execution event) executions) [
  | none ↦ false
  | some row ↦ is_api (some row.provider) && not (is_claimed row.status)
]

-- The second component is whether the event was accepted; where it is false, `markAccepted` throws
-- and the transaction is undone. It also throws where there is no execution to update.
unfoldable pub mark_accepted : QueueSettings → ℕ → ClaimedEvent → QueueDb → QueueDb × Bool
unfolding already_settled find_where
mark_accepted settings now event db =
    let held = λ (row : OutboxEvent). locked_by event row && is_api row.processing_provider in
    if nat_beq (count_where held db.outbox) 1
    then if any (of_execution event) db.executions
      then (
        record {
          outbox =
              update_where held
                (λ row. record row {
                  accepted_at = some now;
                  execution_lease_until = some (now + settings.execution_timeout);
                  locked_at = none;
                  lock_id = none;
                  last_error = none;
                })
                db.outbox;
          executions =
              update_where (of_execution event)
                (λ row. record row {
                  status = accepted;
                  accepted_at = some now;
                  error_code = none;
                  error_message = none;
                })
                db.executions;
        },
        true,
      )
      else (db, false)
    else (db, already_settled event db.executions)

-- `Math.min(base * 2 ** Math.max(0, attempts - 1), maximum)`.
abbrev pub backoff_of : QueueSettings → ℕ → ℕ
backoff_of settings attempts =
    let wanted = settings.base_backoff * 2 ^ (attempts - 1) in
    if leb wanted settings.maximum_backoff then wanted else settings.maximum_backoff

-- `message` is the error's text, sanitised and cut to 500 characters.
unfoldable pub reject_before_acceptance :
    QueueSettings → ℕ → ClaimedEvent → String → QueueDb → QueueDb
reject_before_acceptance settings now event message db =
    let is_dead = leb event.max_attempts event.attempts in
    record {
      outbox =
          update_where (locked_by event)
            (λ row. record row {
              status = if is_dead then OutboxStatus.dead else OutboxStatus.pending;
              attempts = event.attempts;
              available_at = now + backoff_of settings event.attempts;
              locked_at = none;
              lock_id = none;
              execution_id = none;
              accepted_at = none;
              execution_lease_until = none;
              processing_provider = if is_dead then row.processing_provider else none;
              last_error = some message;
            })
            db.outbox;
      executions =
          update_where (λ row. of_execution event row && is_claimed row.status)
            (λ row. record row {
              status = if is_dead then terminal_failure else retryable_failure;
              completed_at = some now;
              error_code = some (if is_dead then "DISPATCH_EXHAUSTED" else "DISPATCH_FAILED");
              error_message = some message;
            })
            db.executions;
    }
