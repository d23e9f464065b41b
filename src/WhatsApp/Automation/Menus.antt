-- ===== src/WhatsApp/Automation/Menus.antt =====
-- whatsapp-automation-flow.ts: the answers of the menus. `lower` is `toLowerCase`, whose Unicode
-- tables belong to the platform.
use Prim.Native.Char.{code}
use Prim.Native.String.{◌++◌}
use lume_tenant_api.Base.{
  String, List, [], ◌∷◌, Bool, true, false, not, ◌&&◌, ◌||◌, Option, none, some, ◌==◌, string_eq,
  includes, leb, if◌then◌else◌, is_some,
}
use lume_tenant_api.Base.Text.{trim, split_lines, join_lines, is_blank, contains}
use lume_tenant_api.Base.Objects.{present}
use lume_tenant_api.Access.Departments.{Department}
use lume_tenant_api.WhatsApp.Constants.{RequestStatus, TransitionName, status_eq}
use lume_tenant_api.WhatsApp.Automation.Types.{
  PlanKind, AiMode, OutboundPurpose, Reason, said, AutomationPlan, AutomationConversation,
  QuoteRequestSnapshot,
}
use lume_tenant_api.WhatsApp.Automation.Contacts.{
  DepartmentContact, director_contact, find_contact, human_reason, follow_up_human_reason,
}
use lume_tenant_api.WhatsApp.Automation.Messages.{
  main_menu, commercial_menu, commercial_follow_up_menu, department_contact_prompt,
  follow_up_handoff_message, invalid_follow_up_handoff_message,
}

-- A plan with nothing in it but its kind and reason; the functions below fill the rest.
abbrev pub bare_plan : PlanKind → Reason → AutomationPlan
bare_plan kind reason = record {
  kind = kind;
  response_message = none;
  transition_before_ai = none;
  transition_after_send = none;
  transition_metadata = none;
  ai_mode = none;
  reason = reason;
  outbound_purpose = none;
  outbound_recipient_phone_env = none;
}

abbrev pub static_plan : String → String → AutomationPlan
static_plan message reason = record (bare_plan PlanKind.static_reply (said reason)) {
  response_message = some message;
}

unfoldable pub ai_plan : AiMode → Option TransitionName → String → AutomationPlan
ai_plan mode before reason = record (bare_plan PlanKind.ai (said reason)) {
  transition_before_ai = before;
  ai_mode = some mode;
}

unfoldable pub suppressed : String → AutomationPlan
suppressed reason = bare_plan PlanKind.suppressed (said reason)

-- The plan that hands a conversation to the commercial team once its answer is sent.
abbrev handoff : String → Reason → AutomationPlan
handoff message reason = record (bare_plan PlanKind.static_reply reason) {
  response_message = some message;
  transition_after_send = some TransitionName.forward;
  transition_metadata = some (record {
    target_department = some Department.commercial;
    department_option = none;
    reason = some reason;
    history_available_in_panel = true;
  });
}

-- The plan that shows the main menu and returns to it.
abbrev pub main_menu_plan : String → AutomationPlan
main_menu_plan reason = record (static_plan main_menu reason) {
  transition_before_ai = some TransitionName.return_to_main_menu;
  outbound_purpose = some OutboundPurpose.main_menu;
}

-- The plan that asks for the name and the reason of a contact with a department.
abbrev pub contact_plan : Option Department → String → String → AutomationPlan
contact_plan target option reason = record (static_plan department_contact_prompt reason) {
  transition_before_ai = some TransitionName.start_department_contact;
  transition_metadata = some (record {
    target_department = target;
    department_option = some option;
    reason = none;
    history_available_in_panel = false;
  });
}

abbrev pub active_quote_request_statuses : List RequestStatus
active_quote_request_statuses =
    RequestStatus.waiting_for_customer ∷ RequestStatus.under_review ∷ RequestStatus.approved
    ∷ RequestStatus.rejected ∷ []

-- `/^\d+$/.test(option)`.
all_digits : String → Bool
all_digits String.[] = true
all_digits (String.◌∷◌ c s) = leb b'0' (code c) && leb (code c) b'9' && all_digits s

unfoldable pub is_number : String → Bool
unfolding all_digits
is_number option = not (is_blank option) && all_digits option

-- The main menu's answer to an option other than the commercial one.
unfoldable pub contact_or_prompt : String → Option DepartmentContact → AutomationPlan
contact_or_prompt option (some department) =
    contact_plan department.target_department option "department-contact-requested"
contact_or_prompt option none =
    if is_number option
    then static_plan ("Opção inválida.\n\n" ++ main_menu) "invalid-main-menu-option"
    else static_plan main_menu "main-menu-prompt"

unfoldable pub has_active_quote : AutomationConversation → Bool
has_active_quote conversation =
    is_some (present conversation.current_quote_request)
    && includes active_quote_request_statuses conversation.request_status

-- The main menu's answer to the commercial option.
unfoldable pub commercial_selected : AutomationConversation → AutomationPlan
unfolding has_active_quote
commercial_selected conversation =
    if has_active_quote conversation
    then record (static_plan commercial_follow_up_menu "commercial-follow-up-selected") {
      transition_before_ai = some TransitionName.select_commercial;
      outbound_purpose = some OutboundPurpose.commercial_follow_up_menu;
    }
    else record (static_plan commercial_menu "commercial-selected") {
      transition_before_ai = some TransitionName.select_commercial;
    }

-- What the commercial menu answers when it hands over, or cannot read the option.
unfoldable pub reason_or_menu : String → Option Reason → AutomationPlan
reason_or_menu option (some reason) = handoff follow_up_handoff_message reason
reason_or_menu option none =
    if option == "0"
    then main_menu_plan "return-to-main-menu"
    else static_plan ("Opção inválida.\n\n" ++ commercial_menu) "invalid-commercial-menu-option"

unfoldable pub follow_up_handoff : Option Reason → AutomationPlan
follow_up_handoff (some reason) = handoff follow_up_handoff_message reason
follow_up_handoff none =
    handoff invalid_follow_up_handoff_message (said "invalid-commercial-follow-up-option")

-- A contact's message, once its department is known.
unfoldable pub department_notification :
    String → String → String → Option DepartmentContact → AutomationPlan
department_notification option message_text customer_phone none =
    main_menu_plan "invalid-department-contact-state"
department_notification option message_text customer_phone (some department) =
    if is_blank message_text
    then static_plan department_contact_prompt "department-contact-text-required"
    else record (static_plan
        (join_lines (
          "Novo contato recebido pelo atendimento virtual."
          ∷ ("Departamento: " ++ department.label)
          ∷ ("Telefone do cliente: " ++ customer_phone)
          ∷ ("Nome e motivo informado: " ++ message_text)
          ∷ "Por favor, retorne o contato"
          ∷ []))
        "department-contact-forwarded") {
          transition_after_send = some TransitionName.return_to_main_menu;
          transition_metadata = some (record {
            target_department = department.target_department;
            department_option = some option;
            reason = some (said "department-contact-forwarded");
            history_available_in_panel = true;
          });
          outbound_purpose = some OutboundPurpose.department_notification;
          outbound_recipient_phone_env = department.department_phone_env;
        }

unfoldable pub decide_department_contact : String → String → String → AutomationPlan
unfolding department_notification find_contact
decide_department_contact option message_text customer_phone =
    department_notification option message_text customer_phone (find_contact option)

module _ (lower : String → String) where
  -- The first line that is not blank, trimmed and in lower case.
  first_option : List String → String
  first_option [] = ""
  first_option (line ∷ rest) =
      let option = lower (trim line) in
      let later = first_option rest in if is_blank option then later else option

  unfoldable pub normalized_option : String → String
  unfolding first_option
  normalized_option value = first_option (split_lines value)

  unfoldable pub decide_main_menu : String → AutomationConversation → AutomationPlan
  unfolding commercial_selected contact_or_prompt
  decide_main_menu message_text conversation =
      let option = normalized_option message_text in
      if option == "1"
      then commercial_selected conversation
      else contact_or_prompt option (find_contact option)

  unfoldable pub decide_commercial_menu : String → AutomationPlan
  unfolding ai_plan reason_or_menu
  decide_commercial_menu message_text =
      let option = normalized_option message_text in
      if option == "1"
      then ai_plan AiMode.eventual_quote (some TransitionName.start_quote) "start-eventual-quote"
      else if option == "2"
      then contact_plan director_contact.target_department "commercial-continuous-director"
          "continuous-quote-director-contact-requested"
      else reason_or_menu option (human_reason option)

  unfoldable pub decide_commercial_follow_up_menu : String → AutomationPlan
  unfolding follow_up_handoff
  decide_commercial_follow_up_menu message_text =
      let option = normalized_option message_text in
      if option == "0"
      then main_menu_plan "return-to-main-menu"
      else follow_up_handoff (follow_up_human_reason option)

  -- `serviceType?.toLowerCase() ?? quoteMode.toLowerCase()`.
  service_or_mode : Option QuoteRequestSnapshot → String
  service_or_mode none = lower ""
  service_or_mode (some quote) = elim (present quote.service_type) [
    | some service ↦ lower service
    | none ↦ elim quote.quote_mode [ some mode ↦ lower mode | none ↦ lower "" ]
  ]

  unfoldable pub resolve_quote_mode : AutomationConversation → AiMode
  unfolding service_or_mode
  resolve_quote_mode conversation =
      let service_type = service_or_mode (present conversation.current_quote_request) in
      if contains service_type "cont" || contains service_type "continuous"
      then AiMode.continuous_pretriage
      else AiMode.eventual_quote
