-- ===== src/WhatsApp/AutomationTests.antt =====
-- Plans of the automation at concrete messages.
use lume_tenant_api.Base.{String, ◌≡◌, ◌⊎◌, inl, refl, true, false, none, some}
use lume_tenant_api.Base.Objects.{undefined, null}
use lume_tenant_api.Access.Departments.{Department}
use lume_tenant_api.WhatsApp.Constants.{
  ConversationState, FlowStep, RequestStatus, TransitionName, MessageKind, ConversationSnapshot,
}
use lume_tenant_api.WhatsApp.Automation.Types.{AutomationTopic, AutomationConversation, AiMode}
use lume_tenant_api.WhatsApp.Automation.Plan.{PlanInput, open_plan, decide_automation_plan}
use lume_tenant_api.WhatsApp.Automation.Menus.{decide_main_menu}
use lume_tenant_api.WhatsApp.Automation.Execution.{follow_plan, is_ok, snapshot_of}
use lume_tenant_api.WhatsApp.Automation.Safety.{IsAuthorized, IsSilent, IsAuthorized-or_IsSilent}
use lume_tenant_api.WhatsApp.Automation.Accepted.{
  decide_automation_plan-accepted, decide_main_menu_inherited,
}

-- A case mapping that leaves every text as it is; it is right on digits and lower case.
abbrev same : String → String
same s = s

abbrev at_menu : AutomationConversation
at_menu = record {
  id = "c1";
  department = Department.commercial;
  conversation_state = ConversationState.bot_active;
  flow_step = FlowStep.main_menu;
  request_status = RequestStatus.not_started;
  resume_state = none;
  version = 3;
  main_menu_presented_at = undefined;
  follow_up_menu_presented_at = null;
  department_contact_option = null;
  assigned_to = null;
  current_quote_request = null;
}

abbrev row : ConversationSnapshot
row = record {
  department = Department.commercial;
  conversation_state = ConversationState.bot_active;
  flow_step = FlowStep.main_menu;
  request_status = RequestStatus.not_started;
  resume_state = none;
  resume_flow_step = none;
}

abbrev asks : String → AutomationConversation → PlanInput
asks text c = record {
  envelope = record {
    topic = AutomationTopic.inbound_persisted;
    contact_phone = "5511999999999";
    message_kind = MessageKind.text;
    message_text = some text;
    conversation = c;
    automation_allowed = true;
    can_generate_reply = true;
    can_send_reply = true;
    contextual_transition = false;
    is_first_contact = false;
    reopened_after_closure = false;
  };
  conversation = none;
  buffered_text = none;
  pending_question = none;
}

menu_plans :
    ((decide_automation_plan same (asks " \n 1 " at_menu)).transition_before_ai
      ≡ some TransitionName.select_commercial)
    × ((decide_automation_plan same (asks "7" at_menu)).transition_before_ai
        ≡ some TransitionName.start_department_contact)
    × ((decide_automation_plan same
          (asks "1" (record at_menu { flow_step = FlowStep.commercial_menu }))).ai_mode
        ≡ some AiMode.eventual_quote)
unfolding open_plan
menu_plans = (refl, refl, refl)

decide_automation_plan-accepted_example :
    is_ok
      (follow_plan none (decide_automation_plan same (asks "2" at_menu)) (snapshot_of at_menu row))
    ≡ true
unfolding open_plan
decide_automation_plan-accepted_example =
    decide_automation_plan-accepted same none (asks "2" at_menu) row refl (λ e. refl) (λ e. refl)

decide_main_menu_inherited_example :
    is_ok (follow_plan none (decide_main_menu same "constructor" at_menu) (snapshot_of at_menu row))
    ≡ false
unfolding open_plan
decide_main_menu_inherited_example =
    decide_main_menu_inherited same none row at_menu "constructor" (inl refl)

IsAuthorized-or_IsSilent_example :
    IsAuthorized (asks "1" at_menu).envelope at_menu
    ⊎ IsSilent (decide_automation_plan same (asks "1" at_menu))
IsAuthorized-or_IsSilent_example = IsAuthorized-or_IsSilent same (asks "1" at_menu)
