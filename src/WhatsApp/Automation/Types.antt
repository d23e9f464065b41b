-- ===== src/WhatsApp/Automation/Types.antt =====
-- whatsapp-automation-flow.ts: the envelope of an event, the conversation it is about, and the plan.
-- Identifiers and times that no decision reads are left out of the envelope.
use lume_tenant_api.Base.{String, ℕ, Bool, Option}
use lume_tenant_api.Base.Objects.{Field}
use lume_tenant_api.Access.Departments.{Department}
use lume_tenant_api.WhatsApp.Constants.{
  ConversationState, FlowStep, RequestStatus, MessageKind, TransitionName,
}

pub data AutomationTopic : Type 0 where
  inbound_persisted inbound_human_notification outbound_requested : AutomationTopic

-- `quote_mode` is `structuredData.quoteMode` where that is a text.
pub record QuoteRequestSnapshot : Type 0 where
  pub id : String
  pub sequence : ℕ
  pub status : RequestStatus
  pub version : ℕ
  pub service_type : Field String
  pub quote_mode : Option String

pub record Assignee : Type 0 where
  pub id : String
  pub name : String

pub record AutomationConversation : Type 0 where
  pub id : String
  pub department : Department
  pub conversation_state : ConversationState
  pub flow_step : FlowStep
  pub request_status : RequestStatus
  pub resume_state : Option ConversationState
  pub version : ℕ
  pub main_menu_presented_at : Field String
  pub follow_up_menu_presented_at : Field String
  pub department_contact_option : Field String
  pub assigned_to : Field Assignee
  pub current_quote_request : Field QuoteRequestSnapshot

pub record AutomationEnvelope : Type 0 where
  pub topic : AutomationTopic
  pub contact_phone : String
  pub message_kind : MessageKind
  pub message_text : Option String
  pub conversation : AutomationConversation
  pub automation_allowed : Bool
  pub can_generate_reply : Bool
  pub can_send_reply : Bool
  pub contextual_transition : Bool
  pub is_first_contact : Bool
  pub reopened_after_closure : Bool

pub data PlanKind : Type 0 where
  static_reply ai human_notification suppressed transition_only : PlanKind

pub data AiMode : Type 0 where
  eventual_quote continuous_pretriage quote_correction_or_confirmation : AiMode

pub data OutboundPurpose : Type 0 where
  main_menu commercial_follow_up_menu department_notification unsupported_message_kind :
      OutboundPurpose

-- What a reason may be: a text, or the value that an object literal inherits under a name.
pub data Reason : Type 0 where
  said : String → Reason
  inherited : String → Reason

pub record TransitionMetadata : Type 0 where
  pub target_department : Option Department
  pub department_option : Option String
  pub reason : Option Reason
  pub history_available_in_panel : Bool

pub record AutomationPlan : Type 0 where
  pub kind : PlanKind
  pub response_message : Option String
  pub transition_before_ai : Option TransitionName
  pub transition_after_send : Option TransitionName
  pub transition_metadata : Option TransitionMetadata
  pub ai_mode : Option AiMode
  pub reason : Reason
  pub outbound_purpose : Option OutboundPurpose
  pub outbound_recipient_phone_env : Option String
