-- ===== src/WhatsApp/Transition/Guards.antt =====
-- conversation-transition.matrix.ts: the checks and the computed flow step that the branches of
-- `resolveConversationTransition` share.
use Prim.Native.String.{◌++◌}
use lume_tenant_api.Base.{
  String, List, [], ◌∷◌, Bool, not, Option, get_or, includes, ◌==◌, if◌then◌else◌, Result, throw_if,
  validation_error,
}
use lume_tenant_api.Access.Departments.{Department}
use lume_tenant_api.WhatsApp.Constants.{
  ConversationState, FlowStep, RequestStatus, TransitionName, ConversationSnapshot, state_eq,
  step_eq, status_eq, state_text, transition_text,
}

-- The policy is optional, and so is its flag.
pub record ClosePolicy : Type 0 where
  pub prevent_close_with_approved_quote : Option Bool

pub record ResolveTransitionInput : Type 0 where
  pub current : ConversationSnapshot
  pub name : TransitionName
  pub target_department : Option Department
  pub department_option : Option String
  pub policy : Option ClosePolicy

unfoldable pub assert_open : ConversationSnapshot → Result (Unit {0})
assert_open current =
    throw_if (current.conversation_state == ConversationState.closed)
      (validation_error "Uma conversa encerrada não aceita esta transição.")

unfoldable pub assert_state :
    ConversationSnapshot → List ConversationState → TransitionName → Result (Unit {0})
assert_state current allowed_states name =
    throw_if (not (includes allowed_states current.conversation_state)) (
      validation_error (
        "A transição "
        ++ transition_text name
        ++ " não é permitida a partir de "
        ++ state_text current.conversation_state
        ++ "."))

abbrev pub follow_up_request_statuses : List RequestStatus
follow_up_request_statuses =
    RequestStatus.waiting_for_customer ∷ RequestStatus.under_review ∷ RequestStatus.approved
    ∷ RequestStatus.rejected ∷ []

-- The `switch` over the request's status that ends `resolveBotFlowStep`.
unfoldable pub default_bot_flow_step : RequestStatus → FlowStep
default_bot_flow_step RequestStatus.collecting_information = FlowStep.quote_data_collection
default_bot_flow_step RequestStatus.waiting_for_customer = FlowStep.quote_summary_confirmation
default_bot_flow_step RequestStatus.not_started = FlowStep.main_menu
default_bot_flow_step RequestStatus.cancelled = FlowStep.main_menu
default_bot_flow_step RequestStatus.under_review = FlowStep.commercial_follow_up_menu
default_bot_flow_step RequestStatus.approved = FlowStep.commercial_follow_up_menu
default_bot_flow_step RequestStatus.rejected = FlowStep.commercial_follow_up_menu

unfoldable pub resolve_bot_flow_step : ConversationSnapshot → FlowStep
unfolding default_bot_flow_step
resolve_bot_flow_step current =
    let candidate = get_or current.resume_flow_step current.flow_step in
    if includes follow_up_request_statuses current.request_status
    then FlowStep.commercial_follow_up_menu
    else if not (
        includes (FlowStep.quote_send_pending ∷ FlowStep.human_service ∷ FlowStep.closed ∷ [])
          candidate)
    then candidate
    else default_bot_flow_step current.request_status
