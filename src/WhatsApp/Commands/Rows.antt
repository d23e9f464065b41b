-- ===== src/WhatsApp/Commands/Rows.antt =====
-- The rows that a command reads and writes (prisma/schema.prisma), and the command itself. Times are
-- milliseconds.
use lume_tenant_api.Base.{String, ℕ, Bool, false, Option, none, some, List, string_eq, not}
use lume_tenant_api.Base.Text.{is_blank}
use lume_tenant_api.Access.Departments.{Department}
use lume_tenant_api.WhatsApp.Constants.{RequestStatus, TransitionName, ConversationSnapshot}
use lume_tenant_api.WhatsApp.Transition.Actors.{TransitionActor}
use lume_tenant_api.WhatsApp.Inbound.{ConversationRow}
use lume_tenant_api.WhatsApp.Outbox.Claim.{QueueDb}

-- A property of `metadata`, of unknown type.
pub data MetadataValue : Type 0 where
  missing null other : MetadataValue
  text : String → MetadataValue

-- `metadata` as far as it is read: `reason` and `departmentOption`.
pub record TransitionCommand : Type 0 where
  pub company_id : String
  pub conversation_id : String
  pub command_id : String
  pub expected_version : ℕ
  pub name : TransitionName
  pub actor_type : TransitionActor
  pub actor_user_id : Option String
  pub target_department : Option Department
  pub reason : MetadataValue
  pub department_option : MetadataValue

-- A conversation with its contact's columns.
pub record Conversation : Type 0 where
  pub id : String
  pub company_id : String
  pub channel_id : String
  pub contact_id : String
  pub contact_phone : String
  pub row : ConversationRow
  pub unread_count : ℕ
  pub last_message_preview : Option String

-- The columns that a confirmation copies. Days and instants are milliseconds, and the free-form
-- `structuredData` is its text.
pub record QuoteDetails : Type 0 where
  pub contact_name : Option String
  pub document : Option String
  pub email : Option String
  pub service_type : Option String
  pub origin : Option String
  pub destination : Option String
  pub departure_date : Option ℕ
  pub departure_at : Option ℕ
  pub return_date : Option ℕ
  pub return_at : Option ℕ
  pub passenger_count : Option ℕ
  pub vehicle_type : Option String
  pub vehicle_at_disposal : Option Bool
  pub local_transfers : Option Bool
  pub notes : Option String
  pub structured_data : String

pub record QuoteRequest : Type 0 where
  pub id : String
  pub company_id : String
  pub conversation_id : String
  pub sequence : ℕ
  pub status : RequestStatus
  pub details : QuoteDetails
  pub confirmed_at : Option ℕ
  pub confirmed_summary : Option QuoteDetails
  pub confirmed_version : Option ℕ
  pub decision_reason : Option String
  pub decided_at : Option ℕ
  pub version : ℕ

pub record UserRow : Type 0 where
  pub id : String
  pub company_id : String
  pub name : String
  pub is_active : Bool

pub data ProposalStatus : Type 0 where
  uploaded queued sent failed : ProposalStatus

pub record ProposalRow : Type 0 where
  pub company_id : String
  pub conversation_id : String
  pub status : ProposalStatus

-- A text to the customer that ends an attendance, and the first attempt to send it.
pub record ClosureMessage : Type 0 where
  pub id : String
  pub company_id : String
  pub conversation_id : String
  pub channel_id : String
  pub contact_id : String
  pub actor_user_id : Option String
  pub text : String
  pub automation_purpose : Option String
  pub recipient_phone : String
  pub correlation_id : String
  pub occurred_at : ℕ
  pub attempt_id : String

pub record Closure : Type 0 where
  pub transition_id : String
  pub transition_name : TransitionName
  pub occurred_at : ℕ
  pub reason : Option String
  pub actor_type : TransitionActor
  pub actor_user : Option (String × String)
  pub message_id : Option String

-- What `presentConversation` presents, and the closure.
pub record TransitionResult : Type 0 where
  pub conversation : Conversation
  pub current_quote_request : Option QuoteRequest
  pub closure : Option Closure

-- A request that a new one takes the place of: its id and its versions before and after.
pub record SupersededQuote : Type 0 where
  pub id : String
  pub previous_version : ℕ
  pub resulting_version : ℕ

pub record TransitionRow : Type 0 where
  pub id : String
  pub company_id : String
  pub conversation_id : String
  pub command_id : String
  pub command_fingerprint : String
  pub name : TransitionName
  pub expected_version : ℕ
  pub resulting_version : ℕ
  pub actor_type : TransitionActor
  pub actor_user_id : Option String
  pub from : ConversationSnapshot
  pub to : ConversationSnapshot
  pub reason : MetadataValue
  pub quote_request_id : Option String
  pub superseded : Option SupersededQuote
  pub result : TransitionResult
  pub created_at : ℕ

pub record AuditRow : Type 0 where
  pub company_id : String
  pub actor_user_id : Option String
  pub action : String
  pub target_type : String
  pub target_id : String
  pub transition_id : String
  pub reason : Option String
  pub created_at : ℕ

pub record Database : Type 0 where
  pub conversations : List Conversation
  pub quotes : List QuoteRequest
  pub users : List UserRow
  pub proposals : List ProposalRow
  pub messages : List ClosureMessage
  pub transitions : List TransitionRow
  pub audit : List AuditRow
  pub queue : QueueDb

-- What a call draws: ids, and the times that it reads from the clock.
pub record Draw : Type 0 where
  pub transition_id : String
  pub message_id : String
  pub attempt_id : String
  pub quote_id : String
  pub event_id : String
  pub transitioned_at : ℕ
  pub decided_at : ℕ
  pub confirmed_at : ℕ
  pub updated_at : ℕ

pub record CommandSettings : Type 0 where
  pub prevent_close_with_approved_quote : Bool
  pub follow_up_inactivity : ℕ

-- A text that counts as true: given, and not empty.
abbrev pub is_given : Option String → Bool
is_given none = false
is_given (some value) = not (is_blank value)

abbrev pub text_of : MetadataValue → Option String
text_of (text value) = some value
text_of missing = none
text_of null = none
text_of other = none
