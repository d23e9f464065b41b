-- ===== src/WhatsApp/ReconcileTests.antt =====
-- A decision about an event at concrete rows.
use lume_tenant_api.Base.{◌≡◌, refl, false, none, some, [], ◌∷◌, ok, err, map}
use lume_tenant_api.WhatsApp.Outbox.Rows.{OutboxStatus, api, OutboxEvent, QueueSettings}
use lume_tenant_api.WhatsApp.Outbox.Claim.{QueueDb, claim}
use lume_tenant_api.WhatsApp.Outbox.Reconcile.{Resolution, ReconcileInput, reconcile}

abbrev settings : QueueSettings
settings = record {
  request_timeout = 10;
  execution_timeout = 100;
  base_backoff = 5;
  maximum_backoff = 50;
  debounce = 0;
  department_collection = 0;
}

-- The second event of a conversation is processed, after the first one was given up.
abbrev second : OutboxEvent
second = record {
  id = "b";
  company_id = "company";
  topic = "whatsapp.inbound.persisted";
  aggregate_type = "whatsapp-conversation";
  aggregate_id = "conversation";
  aggregate_sequence = 2;
  correlation_id = "b";
  status = OutboxStatus.processing;
  attempts = 1;
  max_attempts = 3;
  available_at = 0;
  created_at = 0;
  locked_at = some 7;
  lock_id = some "x";
  execution_id = some "x";
  accepted_at = none;
  execution_lease_until = none;
  processing_provider = some api;
  delivered_at = none;
  last_error = none;
  department_contact_option = none;
  message_text = none;
  message_id = none;
  attempt_id = none;
}

abbrev first : OutboxEvent
first = record second {
  id = "a";
  aggregate_sequence = 1;
  correlation_id = "a";
  status = OutboxStatus.dead;
  locked_at = none;
  lock_id = none;
  execution_id = none;
  last_error = some "LEGACY_AUTOMATION_RECONCILIATION_REQUIRED";
}

abbrev queue : QueueDb
queue = record { outbox = first ∷ second ∷ []; executions = [] }

abbrev decision : ReconcileInput
decision = record {
  company_id = "company";
  event_id = "a";
  resolution = Resolution.confirmed_not_processed;
}

abbrev taken : QueueDb
taken = elim (reconcile decision 8 "" queue) [
  | ok decided ↦ (claim (λ s. s) settings (λ e. false) (λ e. "y") 5 9 decided).0
  | err error ↦ queue
]

abbrev status_of : OutboxEvent → OutboxStatus
status_of event = event.status

-- The first event is queued again, and claimed while the second one is still processed.
two_at_once : map status_of taken.outbox ≡ OutboxStatus.processing ∷ OutboxStatus.processing ∷ []
unfolding reconcile claim
two_at_once = refl
