-- ===== src/WhatsApp/Outbox/Rows.antt =====
-- The rows of the outbox and of the audit of executions (prisma/schema.prisma), as far as the queue
-- reads and writes them. Times are milliseconds.
use lume_tenant_api.Base.{
  String, ℕ, ◌+◌, ◌*◌, ltb, leb, nat_beq, Bool, true, false, ◌&&◌, ◌||◌, Option, none, some, Eq,
  ◌≡◌, ◌↔◌, arith, ◌==◌, string_eq, if◌then◌else◌, is_some,
}

pub data OutboxStatus : Type 0 where
  pending processing delivered dead : OutboxStatus

abbrev pub outbox_status_index : OutboxStatus → ℕ
outbox_status_index pending = 0
outbox_status_index processing = 1
outbox_status_index delivered = 2
outbox_status_index dead = 3

pub outbox_status_beq_iff :
    (a b : OutboxStatus)
    → (nat_beq (outbox_status_index a) (outbox_status_index b) ≡ true) ↔ (a ≡ b)
outbox_status_beq_iff a b = ground arith

instance abbrev pub outbox_status_eq : Eq OutboxStatus
outbox_status_eq = record {
  beq = λ a b. nat_beq (outbox_status_index a) (outbox_status_index b);
  beq_iff = outbox_status_beq_iff;
}

pub data AutomationProvider : Type 0 where
  n8n api : AutomationProvider

pub record OutboxEvent : Type 0 where
  pub id : String
  pub company_id : String
  pub topic : String
  pub aggregate_type : String
  pub aggregate_id : String
  pub aggregate_sequence : ℕ
  pub correlation_id : String
  pub status : OutboxStatus
  pub attempts : ℕ
  pub max_attempts : ℕ
  pub available_at : ℕ
  pub created_at : ℕ
  pub locked_at : Option ℕ
  pub lock_id : Option String
  pub execution_id : Option String
  pub accepted_at : Option ℕ
  pub execution_lease_until : Option ℕ
  pub processing_provider : Option AutomationProvider
  pub delivered_at : Option ℕ
  pub last_error : Option String
  -- `payload.conversation.departmentContactOption`, `payload.message.text`, `payload.messageId` and
  -- `payload.attemptId`.
  pub department_contact_option : Option String
  pub message_text : Option String
  pub message_id : Option String
  pub attempt_id : Option String

pub data ExecutionStatus : Type 0 where
  claimed accepted succeeded retryable_failure terminal_failure : ExecutionStatus

pub record Execution : Type 0 where
  pub company_id : String
  pub outbox_event_id : String
  pub execution_id : String
  pub provider : AutomationProvider
  pub status : ExecutionStatus
  pub attempt_number : ℕ
  pub started_at : ℕ
  pub accepted_at : Option ℕ
  pub completed_at : Option ℕ
  pub error_code : Option String
  pub error_message : Option String

-- The settings of the store, in milliseconds.
pub record QueueSettings : Type 0 where
  pub request_timeout : ℕ
  pub execution_timeout : ℕ
  pub base_backoff : ℕ
  pub maximum_backoff : ℕ
  pub debounce : ℕ
  pub department_collection : ℕ

abbrev pub same_aggregate : OutboxEvent → OutboxEvent → Bool
same_aggregate a b =
    a.company_id == b.company_id
    && a.aggregate_type == b.aggregate_type
    && a.aggregate_id == b.aggregate_id

-- `status IN ('pending', 'processing')`.
abbrev pub is_live : OutboxEvent → Bool
is_live event = event.status == pending || event.status == processing

abbrev pub holds_at : (ℕ → Bool) → Option ℕ → Bool
holds_at test none = false
holds_at test (some time) = test time

-- The lock was taken more than three request timeouts ago, or the lease of an accepted execution is
-- over.
unfoldable pub is_stale : QueueSettings → ℕ → OutboxEvent → Bool
is_stale settings now event =
    if is_some event.lock_id
    then holds_at (λ locked. ltb (locked + settings.request_timeout * 3) now) event.locked_at
    else holds_at (λ lease. leb lease now) event.execution_lease_until

-- A column against a value: NULL equals nothing.
abbrev pub is_value : Option String → String → Bool
is_value none value = false
is_value (some text) value = text == value
