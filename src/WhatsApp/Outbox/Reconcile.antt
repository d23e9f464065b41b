-- ===== src/WhatsApp/Outbox/Reconcile.antt =====
-- prisma-whatsapp.repository.ts, `reconcileAutomationOutbox`: what a service decides about an event
-- that was given up. Only the event is modelled: what the decision demands of the message and of its
-- attempt, and what it writes to them, is not, so that more is allowed here than in the source.
use lume_tenant_api.Base.{
  String, ℕ, Bool, true, false, not, ◌&&◌, ◌||◌, Option, none, some, includes, ◌==◌, string_eq,
  is_some, if◌then◌else◌, Result, ok, err, ◌>>◌, throw_if, conflict, not_found,
}
use lume_tenant_api.Base.Text.{is_blank}
use lume_tenant_api.Base.Tables.{update_where, find_where}
use lume_tenant_api.WhatsApp.Outbox.Rows.{OutboxStatus, outbox_status_eq, OutboxEvent, is_value}
use lume_tenant_api.WhatsApp.Outbox.Claim.{QueueDb, inbound_topics}

pub data Resolution : Type 0 where
  confirmed_sent confirmed_not_sent confirmed_processed confirmed_not_processed : Resolution

abbrev pub is_inbound : Resolution → Bool
is_inbound confirmed_processed = true
is_inbound confirmed_not_processed = true
is_inbound confirmed_sent = false
is_inbound confirmed_not_sent = false

pub record ReconcileInput : Type 0 where
  pub company_id : String
  pub event_id : String
  pub resolution : Resolution

abbrev pub is_target : ReconcileInput → OutboxEvent → Bool
is_target input row = row.id == input.event_id && row.company_id == input.company_id

abbrev is_named : Option String → Bool
is_named none = false
is_named (some id) = not (is_blank id)

unfoldable pub check_outbound : Resolution → OutboxEvent → Result (Unit {0})
check_outbound resolution event = do
  throw_if (not (event.topic == "whatsapp.outbound.requested") || is_inbound resolution)
      (conflict "A resolução não corresponde ao tipo do evento isolado." none)
  throw_if (not (is_named event.message_id) || not (is_named event.attempt_id))
      (conflict "O evento isolado não identifica a mensagem e a tentativa." none)

-- The event must have been given up, an inbound one by a change of the provider, and the decision
-- must be one for its topic.
unfoldable pub check_reconcilable : Resolution → OutboxEvent → Result (Unit {0})
unfolding check_outbound
check_reconcilable resolution event = do
  throw_if (not (event.status == OutboxStatus.dead))
      (conflict "Somente um evento isolado pode ser reconciliado." none)
  if includes inbound_topics event.topic
      then throw_if
          (not (is_inbound resolution)
            || not (is_value event.last_error "LEGACY_AUTOMATION_RECONCILIATION_REQUIRED")
            || not (is_some event.processing_provider))
          (conflict "O evento inbound não foi isolado por uma troca de provedor." none)
      else check_outbound resolution event

abbrev processed_row : ℕ → OutboxEvent → OutboxEvent
processed_row now row = record row {
  status = OutboxStatus.delivered;
  delivered_at = some now;
  execution_id = none;
  accepted_at = none;
  execution_lease_until = none;
  locked_at = none;
  lock_id = none;
  last_error = none;
}

abbrev requeued_row : ℕ → OutboxEvent → OutboxEvent
requeued_row now row = record row {
  status = OutboxStatus.pending;
  attempts = 0;
  available_at = now;
  processing_provider = none;
  execution_id = none;
  accepted_at = none;
  execution_lease_until = none;
  delivered_at = none;
  locked_at = none;
  lock_id = none;
  last_error = none;
}

abbrev sent_row : ℕ → OutboxEvent → OutboxEvent
sent_row now row = record row {
  status = OutboxStatus.delivered;
  delivered_at = some now;
  execution_lease_until = none;
  locked_at = none;
  lock_id = none;
  last_error = none;
}

-- `next_attempt` is the id of the new attempt to send the message.
abbrev resent_row : ℕ → String → OutboxEvent → OutboxEvent
resent_row now next_attempt row = record (requeued_row now row) { attempt_id = some next_attempt }

abbrev pub reconciled_row : Resolution → ℕ → String → OutboxEvent → OutboxEvent
reconciled_row confirmed_processed now next_attempt row = processed_row now row
reconciled_row confirmed_not_processed now next_attempt row = requeued_row now row
reconciled_row confirmed_sent now next_attempt row = sent_row now row
reconciled_row confirmed_not_sent now next_attempt row = resent_row now next_attempt row

unfoldable pub reconcile_found :
    ReconcileInput → ℕ → String → Option OutboxEvent → QueueDb → Result QueueDb
unfolding check_reconcilable
reconcile_found input now next_attempt none db = err (not_found "Evento de outbox")
reconcile_found input now next_attempt (some event) db = do
  check_reconcilable input.resolution event
  ok (record db {
    outbox =
        update_where (is_target input) (reconciled_row input.resolution now next_attempt) db.outbox;
  })

unfoldable pub reconcile : ReconcileInput → ℕ → String → QueueDb → Result QueueDb
unfolding reconcile_found find_where
reconcile input now next_attempt db =
    reconcile_found input now next_attempt (find_where (is_target input) db.outbox) db
