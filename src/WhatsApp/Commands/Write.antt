-- ===== src/WhatsApp/Commands/Write.antt =====
-- `transition`: what is written once the checks passed.
use Prim.Native.String.{◌++◌}
use lume_tenant_api.Base.{
  String, ℕ, ◌+◌, nat_beq, Bool, false, not, ◌&&◌, Option, none, some, List, ◌∷◌, ◌==◌, string_eq,
  if◌then◌else◌, Result, ok, ◌>>◌, throw_if, conflict,
}
use lume_tenant_api.Base.Tables.{update_where, count_where}
use lume_tenant_api.WhatsApp.Constants.{ConversationSnapshot}
use lume_tenant_api.WhatsApp.Outbox.Rows.{OutboxStatus, OutboxEvent}
use lume_tenant_api.WhatsApp.Outbox.Claim.{QueueDb}
use lume_tenant_api.WhatsApp.Outbox.Report.{create_ordered_outbox}
use lume_tenant_api.WhatsApp.Commands.Rows.{
  MetadataValue, null, text, TransitionCommand, Conversation, QuoteRequest, ClosureMessage, Closure,
  TransitionResult, SupersededQuote, TransitionRow, AuditRow, Database, Draw, CommandSettings,
}
use lume_tenant_api.WhatsApp.Commands.Checks.{is_closing}
use lume_tenant_api.WhatsApp.Commands.Quotes.{latest_quote}
use lume_tenant_api.WhatsApp.Commands.Change.{
  closure_message, changed_conversation, correlation, department_contact_completed,
}

abbrev pub is_conversation : TransitionCommand → Conversation → Bool
is_conversation input row = row.id == input.conversation_id && row.company_id == input.company_id

abbrev pub is_command : TransitionCommand → TransitionRow → Bool
is_command input row = row.company_id == input.company_id && row.command_id == input.command_id

abbrev pub expected_row : TransitionCommand → Conversation → Bool
expected_row input row = is_conversation input row && nat_beq row.row.version input.expected_version

-- `UPDATE … WHERE version = expectedVersion` on one row.
unfoldable pub update_conversation :
    TransitionCommand
    → (Conversation → Conversation)
    → List Conversation
    → Result (List Conversation)
update_conversation input change rows = do
  throw_if (not (nat_beq (count_where (expected_row input) rows) 1))
      (conflict "A conversa foi alterada por outro comando." none)
  ok (update_where (expected_row input) change rows)

-- The event that asks to send the closing text. Columns that the queue fills in are left to it.
unfoldable pub closure_event :
    (String → String) → Draw → TransitionCommand → ClosureMessage → OutboxEvent
closure_event digest draw input message = record {
  id = draw.event_id;
  company_id = input.company_id;
  topic = "whatsapp.outbound.requested";
  aggregate_type = "whatsapp-conversation";
  aggregate_id = input.conversation_id;
  aggregate_sequence = 0;
  correlation_id =
      correlation digest
        ((if department_contact_completed input
            then "department-contact-finalization"
            else "conversation-closure")
          ++ "-request")
        input.command_id;
  status = OutboxStatus.pending;
  attempts = 0;
  max_attempts = 8;
  available_at = draw.updated_at;
  created_at = draw.updated_at;
  locked_at = none;
  lock_id = none;
  execution_id = none;
  accepted_at = none;
  execution_lease_until = none;
  processing_provider = none;
  delivered_at = none;
  last_error = none;
  department_contact_option = none;
  message_text = some message.text;
  message_id = some message.id;
  attempt_id = some message.attempt_id;
}

unfoldable pub enqueue_closure :
    (String → String) → Draw → TransitionCommand → Option ClosureMessage → QueueDb → QueueDb
unfolding closure_event create_ordered_outbox
enqueue_closure digest draw input none queue = queue
enqueue_closure digest draw input (some message) queue =
    create_ordered_outbox (closure_event digest draw input message) queue

abbrev message_id_of : Option ClosureMessage → Option String
message_id_of none = none
message_id_of (some message) = some message.id

abbrev stored_messages : Option ClosureMessage → List ClosureMessage → List ClosureMessage
stored_messages none messages = messages
stored_messages (some message) messages = message ∷ messages

abbrev quote_id_of : Option QuoteRequest → Option String
quote_id_of none = none
quote_id_of (some quote) = some quote.id

unfoldable pub closure_of :
    Draw
    → TransitionCommand
    → Option String
    → Option (String × String)
    → Option ClosureMessage
    → Option Closure
closure_of draw input reason actor message =
    if is_closing input.name
    then some (record {
      transition_id = draw.transition_id;
      transition_name = input.name;
      occurred_at = draw.transitioned_at;
      reason = reason;
      actor_type = input.actor_type;
      actor_user = actor;
      message_id = message_id_of message;
    })
    else none

abbrev reason_value : Option String → MetadataValue
reason_value none = null
reason_value (some value) = text value

unfoldable pub audit_rows :
    Draw
    → TransitionCommand
    → Option String
    → Option SupersededQuote
    → List AuditRow
    → List AuditRow
audit_rows draw input reason superseded audit =
    let closed =
      if is_closing input.name
      then record {
        company_id = input.company_id;
        actor_user_id = input.actor_user_id;
        action = "whatsapp.conversation.close";
        target_type = "whatsapp-conversation";
        target_id = input.conversation_id;
        transition_id = draw.transition_id;
        reason = reason;
        created_at = draw.transitioned_at;
      }
        ∷ audit
      else audit in
    elim superseded [
      | none ↦ closed
      | some quote ↦
          record {
            company_id = input.company_id;
            actor_user_id = input.actor_user_id;
            action = "whatsapp.quote-request.superseded";
            target_type = "quote-request";
            target_id = quote.id;
            transition_id = draw.transition_id;
            reason = none;
            created_at = draw.transitioned_at;
          }
          ∷ closed
    ]

-- What the callers of `transition` hand in once: the hash of a command and of a text, and the hour.
module _ (fingerprint : TransitionCommand → String) (digest : String → String)
    (hour_of : ℕ → ℕ) where
  unfoldable pub transition_row :
      Draw
      → TransitionCommand
      → Conversation
      → ConversationSnapshot
      → Option String
      → Option QuoteRequest
      → Option SupersededQuote
      → TransitionResult
      → TransitionRow
  transition_row draw input conversation to reason quote superseded result = record {
    id = draw.transition_id;
    company_id = input.company_id;
    conversation_id = input.conversation_id;
    command_id = input.command_id;
    command_fingerprint = fingerprint input;
    name = input.name;
    expected_version = input.expected_version;
    resulting_version = conversation.row.version + 1;
    actor_type = input.actor_type;
    actor_user_id = input.actor_user_id;
    from = conversation.row.snapshot;
    to = to;
    reason = if is_closing input.name then reason_value reason else input.reason;
    quote_request_id = quote_id_of quote;
    superseded = superseded;
    result = result;
    created_at = draw.transitioned_at;
  }

  unfoldable pub transition_result :
      CommandSettings
      → Draw
      → TransitionCommand
      → Conversation
      → ConversationSnapshot
      → Option ClosureMessage
      → Option String
      → Option (String × String)
      → List QuoteRequest
      → TransitionResult
  unfolding changed_conversation closure_of latest_quote
  transition_result settings draw input conversation to message reason actor quotes = record {
    conversation = changed_conversation settings draw input to message conversation;
    current_quote_request = latest_quote input.company_id input.conversation_id quotes;
    closure = closure_of draw input reason actor message;
  }

  -- What the transaction leaves, from the requests and the conversations that it updated.
  unfoldable pub written :
      CommandSettings
      → Draw
      → TransitionCommand
      → Database
      → Conversation
      → Option String
      → Option (String × String)
      → ConversationSnapshot
      → List QuoteRequest × Option QuoteRequest × Option SupersededQuote
      → List Conversation
      → Database × TransitionResult × Bool
  unfolding enqueue_closure audit_rows closure_message transition_row transition_result
  written settings draw input db conversation reason actor to (quotes, quote, superseded)
        conversations =
      let message = closure_message digest hour_of draw input conversation in
      let result =
        transition_result settings draw input conversation to message reason actor quotes in
      (
        record db {
          conversations = conversations;
          quotes = quotes;
          messages = stored_messages message db.messages;
          queue = enqueue_closure digest draw input message db.queue;
          transitions =
              transition_row draw input conversation to reason quote superseded result
              ∷ db.transitions;
          audit = audit_rows draw input reason superseded db.audit;
        },
        result,
        false,
      )
