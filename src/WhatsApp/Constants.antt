-- ===== src/WhatsApp/Constants.antt =====
-- domain/whatsapp/whatsapp.constants.ts: the enumerations of a conversation and its snapshot.
use lume_tenant_api.Base.{String, Eq, Option, ℕ, ◌≡◌, ◌↔◌, true, nat_beq, arith}
use lume_tenant_api.Access.Departments.{Department}

pub data ConversationState : Type 0 where
  bot_active waiting_for_customer sent_to_human human_active closed : ConversationState

pub data FlowStep : Type 0 where
  main_menu commercial_menu quote_data_collection quote_summary_confirmation : FlowStep
  quote_send_pending commercial_follow_up_menu human_service closed : FlowStep

pub data RequestStatus : Type 0 where
  not_started collecting_information waiting_for_customer under_review approved rejected cancelled :
      RequestStatus

pub data MessageKind : Type 0 where
  text image document audio video sticker location contact unknown : MessageKind

pub data TransitionName : Type 0 where
  present_main_menu select_commercial start_department_contact start_quote : TransitionName
  present_quote_summary correct_quote confirm_quote proposal_delivery_confirmed : TransitionName
  proposal_response_received new_quote_request return_to_main_menu take_over : TransitionName
  return_to_bot forward mark_read close close_after_rejection resume_awaited_reply : TransitionName
  resume_contextual_contact reopen_after_customer_message : TransitionName

pub record ConversationSnapshot : Type 0 where
  pub department : Department
  pub conversation_state : ConversationState
  pub flow_step : FlowStep
  pub request_status : RequestStatus
  pub resume_state : Option ConversationState
  pub resume_flow_step : Option FlowStep

-- The strings that the enumerations stand for, as error messages show them.
abbrev pub state_text : ConversationState → String
state_text ConversationState.bot_active = "bot-active"
state_text ConversationState.waiting_for_customer = "waiting-for-customer"
state_text ConversationState.sent_to_human = "sent-to-human"
state_text ConversationState.human_active = "human-active"
state_text ConversationState.closed = "closed"

abbrev pub transition_text : TransitionName → String
transition_text present_main_menu = "present-main-menu"
transition_text select_commercial = "select-commercial"
transition_text start_department_contact = "start-department-contact"
transition_text start_quote = "start-quote"
transition_text present_quote_summary = "present-quote-summary"
transition_text correct_quote = "correct-quote"
transition_text confirm_quote = "confirm-quote"
transition_text proposal_delivery_confirmed = "proposal-delivery-confirmed"
transition_text proposal_response_received = "proposal-response-received"
transition_text new_quote_request = "new-quote-request"
transition_text return_to_main_menu = "return-to-main-menu"
transition_text take_over = "take-over"
transition_text return_to_bot = "return-to-bot"
transition_text forward = "forward"
transition_text mark_read = "mark-read"
transition_text close = "close"
transition_text close_after_rejection = "close-after-rejection"
transition_text resume_awaited_reply = "resume-awaited-reply"
transition_text resume_contextual_contact = "resume-contextual-contact"
transition_text reopen_after_customer_message = "reopen-after-customer-message"

-- The position of a constant in its array, by which `===` is decided.
abbrev pub state_index : ConversationState → ℕ
state_index ConversationState.bot_active = 0
state_index ConversationState.waiting_for_customer = 1
state_index ConversationState.sent_to_human = 2
state_index ConversationState.human_active = 3
state_index ConversationState.closed = 4

abbrev pub step_index : FlowStep → ℕ
step_index FlowStep.main_menu = 0
step_index FlowStep.commercial_menu = 1
step_index FlowStep.quote_data_collection = 2
step_index FlowStep.quote_summary_confirmation = 3
step_index FlowStep.quote_send_pending = 4
step_index FlowStep.commercial_follow_up_menu = 5
step_index FlowStep.human_service = 6
step_index FlowStep.closed = 7

abbrev pub status_index : RequestStatus → ℕ
status_index RequestStatus.not_started = 0
status_index RequestStatus.collecting_information = 1
status_index RequestStatus.waiting_for_customer = 2
status_index RequestStatus.under_review = 3
status_index RequestStatus.approved = 4
status_index RequestStatus.rejected = 5
status_index RequestStatus.cancelled = 6

pub state_beq_iff :
    (a b : ConversationState) → (nat_beq (state_index a) (state_index b) ≡ true) ↔ (a ≡ b)
state_beq_iff a b = ground arith

pub step_beq_iff : (a b : FlowStep) → (nat_beq (step_index a) (step_index b) ≡ true) ↔ (a ≡ b)
step_beq_iff a b = ground arith

pub status_beq_iff :
    (a b : RequestStatus) → (nat_beq (status_index a) (status_index b) ≡ true) ↔ (a ≡ b)
status_beq_iff a b = ground arith

instance abbrev pub state_eq : Eq ConversationState
state_eq = record { beq = λ a b. nat_beq (state_index a) (state_index b); beq_iff = state_beq_iff }

instance abbrev pub step_eq : Eq FlowStep
step_eq = record { beq = λ a b. nat_beq (step_index a) (step_index b); beq_iff = step_beq_iff }

instance abbrev pub status_eq : Eq RequestStatus
status_eq = record {
  beq = λ a b. nat_beq (status_index a) (status_index b);
  beq_iff = status_beq_iff;
}
