-- ===== src/WhatsApp/Outbox/Retention.antt =====
-- infra/retention/whatsapp-retention.service.ts: what the daily job removes of the queue and of the
-- commands that were carried out. Messages have a retention of their own.
use lume_tenant_api.Base.{ℕ, ◌-◌, ◌*◌, ltb, Bool, not, ◌&&◌, filter, any, ◌==◌, string_eq}
use lume_tenant_api.WhatsApp.Outbox.Rows.{
  delivered, outbox_status_eq, OutboxEvent, Execution, holds_at,
}
use lume_tenant_api.WhatsApp.Outbox.Complete.{CompletionDb}

-- `integrationCutoff`, for `INTEGRATION_RETENTION_DAYS`.
abbrev pub cutoff : ℕ → ℕ → ℕ
cutoff days now = now - days * 86400000

abbrev pub is_expired : ℕ → OutboxEvent → Bool
is_expired before event =
    event.status == delivered && holds_at (λ time. ltb time before) event.delivered_at

-- The audit of an event goes with it (`onDelete: Cascade`).
abbrev pub belongs_to : OutboxEvent → Execution → Bool
belongs_to event row = row.outbox_event_id == event.id && row.company_id == event.company_id

unfoldable pub remove_expired : ℕ → ℕ → CompletionDb → CompletionDb
remove_expired days now db =
    let before = cutoff days now in
    record db {
      queue = record {
        outbox = filter (λ event. not (is_expired before event)) db.queue.outbox;
        executions =
            filter
              (λ row.
                not
                  (any (λ event. is_expired before event && belongs_to event row) db.queue.outbox))
              db.queue.executions;
      };
      inbox = filter (λ row. not (ltb row.received_at before)) db.inbox;
    }
