-- ===== src/WhatsApp/Automation/Plan.antt =====
-- whatsapp-automation-flow.ts: `decideAutomationPlan`.
use Prim.Native.String.{◌++◌}
use lume_tenant_api.Base.{
  String, [], ◌∷◌, Bool, true, false, not, ◌&&◌, ◌||◌, Option, none, some, ◌==◌, includes,
  if◌then◌else◌, is_some, get_or,
}
use lume_tenant_api.Base.Text.{split_lines, contains, join_lines, trim, is_blank}
use lume_tenant_api.Base.Objects.{read_key, present, is_null}
use lume_tenant_api.WhatsApp.Constants.{
  ConversationState, FlowStep, MessageKind, TransitionName, state_eq, step_eq,
}
use lume_tenant_api.WhatsApp.Automation.Types.{
  AutomationTopic, PlanKind, AiMode, OutboundPurpose, said, AutomationPlan, AutomationConversation,
  AutomationEnvelope,
}
use lume_tenant_api.WhatsApp.Automation.Messages.{
  main_menu, commercial_follow_up_menu, unsupported_message_kind_reply_text,
  processable_text_required_message,
}
use lume_tenant_api.WhatsApp.Automation.Contacts.{
  find_contact, human_reason, follow_up_human_reason,
}
use lume_tenant_api.WhatsApp.Automation.Masking.{get_processable_message_text}
use lume_tenant_api.WhatsApp.Automation.Menus.{
  normalized_option, contact_or_prompt, reason_or_menu, follow_up_handoff, department_notification,
  commercial_selected, has_active_quote, is_number, bare_plan, static_plan, ai_plan, suppressed,
  decide_department_contact, decide_main_menu, decide_commercial_menu,
  decide_commercial_follow_up_menu, resolve_quote_mode,
}

-- The argument of `decideAutomationPlan`.
pub record PlanInput : Type 0 where
  pub envelope : AutomationEnvelope
  pub conversation : Option AutomationConversation
  pub buffered_text : Option String
  pub pending_question : Option String

abbrev pub current_conversation : PlanInput → AutomationConversation
current_conversation input = get_or input.conversation input.envelope.conversation

-- The text that is read: the buffered one, or that of the message.
unfoldable pub plan_text : PlanInput → String
plan_text input =
    let envelope = input.envelope in
    let processable = get_processable_message_text envelope.message_kind envelope.message_text in
    trim (get_or input.buffered_text (get_or processable ""))

abbrev is_human_notification : AutomationTopic → Bool
is_human_notification AutomationTopic.inbound_human_notification = true
is_human_notification _ = false

abbrev pub is_text : MessageKind → Bool
is_text MessageKind.text = true
is_text _ = false

-- A truthy optional text.
abbrev truthy : Option String → Bool
truthy none = false
truthy (some s) = not (is_blank s)

unfoldable pub human_automation_blocked : AutomationTopic → AutomationConversation → Bool
human_automation_blocked topic c =
    is_human_notification topic
    || c.conversation_state == ConversationState.human_active
    || c.conversation_state == ConversationState.sent_to_human
    || c.flow_step == FlowStep.human_service
    || is_some (present c.assigned_to)

abbrev human_plan : String → String → AutomationPlan
human_plan reason metadata_reason = record (bare_plan PlanKind.human_notification (said reason)) {
  transition_metadata = some (record {
    target_department = none;
    department_option = none;
    reason = some (said metadata_reason);
    history_available_in_panel = true;
  });
}

unfoldable pub reply_authorized : AutomationEnvelope → AutomationConversation → Bool
reply_authorized envelope c =
    envelope.automation_allowed
    && envelope.can_generate_reply
    && envelope.can_send_reply
    && c.conversation_state == ConversationState.bot_active

unfoldable pub initial_menu_required : AutomationEnvelope → AutomationConversation → Bool
initial_menu_required envelope c =
    c.conversation_state == ConversationState.bot_active
    && (envelope.is_first_contact || envelope.reopened_after_closure)
    && not (truthy (present c.main_menu_presented_at))

unfoldable pub initial_menu_plan : AutomationEnvelope → AutomationPlan
initial_menu_plan envelope =
    let shown =
      if is_text envelope.message_kind
      then main_menu
      else main_menu ++ "\n\n" ++ unsupported_message_kind_reply_text in
    let reason =
      if envelope.reopened_after_closure
      then "reopened-conversation-menu-pending-durable-confirmation"
      else "initial-menu-pending-durable-confirmation" in
    let metadata_reason =
      if envelope.reopened_after_closure then "main-menu-after-closure" else "initial-menu" in
    record (static_plan shown reason) {
      transition_after_send = some TransitionName.present_main_menu;
      transition_metadata = some (record {
        target_department = none;
        department_option = none;
        reason = some (said metadata_reason);
        history_available_in_panel = false;
      });
      outbound_purpose = some OutboundPurpose.main_menu;
    }

-- The question that a message of another kind left open, if it has any text.
abbrev unsupported_reply : Bool → Option String → String
unsupported_reply in_quote_collection none = unsupported_message_kind_reply_text
unsupported_reply in_quote_collection (some question) =
    if in_quote_collection && not (is_blank (trim question))
    then trim question ++ "\n\n" ++ unsupported_message_kind_reply_text
    else unsupported_message_kind_reply_text

unfoldable pub unsupported_kind_plan : AutomationConversation → Option String → AutomationPlan
unsupported_kind_plan c pending_question =
    let in_quote_collection =
      includes (FlowStep.quote_data_collection ∷ FlowStep.quote_summary_confirmation ∷ [])
        c.flow_step in
    record (static_plan (unsupported_reply in_quote_collection pending_question)
      "unsupported-message-kind-preserves-conversation-state") {
        outbound_purpose = some OutboundPurpose.unsupported_message_kind;
      }

abbrev follow_up_menu_plan : AutomationPlan
follow_up_menu_plan =
    record (static_plan commercial_follow_up_menu "commercial-follow-up-menu-presented") {
      outbound_purpose = some OutboundPurpose.commercial_follow_up_menu;
    }

module _ (lower : String → String) where
  -- The final `switch` over the flow step.
  unfoldable pub decide_by_flow_step : FlowStep → String → AutomationConversation → AutomationPlan
  unfolding ai_plan suppressed
  decide_by_flow_step FlowStep.main_menu text c = decide_main_menu lower text c
  decide_by_flow_step FlowStep.commercial_menu text c = decide_commercial_menu lower text
  decide_by_flow_step FlowStep.quote_data_collection text c =
      ai_plan (resolve_quote_mode lower c) none "continue-quote"
  decide_by_flow_step FlowStep.quote_summary_confirmation text c =
      ai_plan AiMode.quote_correction_or_confirmation none "evaluate-summary-decision"
  decide_by_flow_step FlowStep.human_service text c =
      human_plan "human-service-blocks-bot" "human-service-inbound"
  decide_by_flow_step FlowStep.quote_send_pending text c =
      human_plan "human-service-blocks-bot" "human-service-inbound"
  decide_by_flow_step FlowStep.closed text c = suppressed "conversation-closed"
  -- Both branches on the follow-up menu return before the `switch`.
  decide_by_flow_step FlowStep.commercial_follow_up_menu text c =
      decide_commercial_follow_up_menu lower text

  -- The branches that read the text, once no contact with a department is being collected.
  unfoldable pub decide_by_text :
      AutomationEnvelope → AutomationConversation → String → AutomationPlan
  unfolding decide_by_flow_step
  decide_by_text envelope c text =
      let on_follow_up = c.flow_step == FlowStep.commercial_follow_up_menu in
      if on_follow_up && (envelope.contextual_transition || is_null c.follow_up_menu_presented_at)
      then follow_up_menu_plan
      else if on_follow_up
      then decide_commercial_follow_up_menu lower text
      else if is_blank text
      then static_plan processable_text_required_message "processable-text-required"
      else decide_by_flow_step c.flow_step text c

  unfoldable pub decide_contact_or_text :
      AutomationEnvelope → AutomationConversation → String → Option String → AutomationPlan
  unfolding decide_by_text
  decide_contact_or_text envelope c text none = decide_by_text envelope c text
  decide_contact_or_text envelope c text (some option) =
      if is_blank option
      then decide_by_text envelope c text
      else decide_department_contact option text envelope.contact_phone

  unfoldable pub decide_automation_plan : PlanInput → AutomationPlan
  decide_automation_plan input =
      let envelope = input.envelope in
      let c = current_conversation input in
      let text = plan_text input in
      if human_automation_blocked envelope.topic c
      then human_plan "human-active-blocks-bot" "human-conversation-inbound"
      else if not (reply_authorized envelope c)
      then suppressed "tenant-api-did-not-authorize-automatic-reply"
      else if initial_menu_required envelope c
      then initial_menu_plan envelope
      else if not (is_text envelope.message_kind)
      then unsupported_kind_plan c input.pending_question
      else decide_contact_or_text envelope c text (present c.department_contact_option)

-- The decision with all of its parts open, for evaluation.
unfoldable pub open_plan : Unit {0}
unfolding decide_automation_plan plan_text human_automation_blocked reply_authorized
    initial_menu_required initial_menu_plan unsupported_kind_plan decide_contact_or_text suppressed
    decide_main_menu decide_commercial_menu decide_commercial_follow_up_menu
    decide_department_contact resolve_quote_mode normalized_option contact_or_prompt find_contact
    human_reason follow_up_human_reason reason_or_menu follow_up_handoff department_notification
    commercial_selected has_active_quote ai_plan get_processable_message_text trim split_lines
    is_number contains join_lines read_key
open_plan = tt
