-- ===== src/WhatsApp/Commands/Change.antt =====
-- `transition`: the columns of the conversation after a command, and the text that ends an
-- attendance (domain/whatsapp/conversation-closure-message.ts).
use Prim.Native.String.{◌++◌}
use lume_tenant_api.Base.{
  String, ℕ, ◌+◌, ltb, Bool, true, false, not, ◌&&◌, ◌||◌, Option, none, some, ◌==◌, string_eq,
  if◌then◌else◌, get_or, Result, throw_if, validation_error,
}
use lume_tenant_api.Base.Text.{cut}
use lume_tenant_api.Access.Departments.{Department}
use lume_tenant_api.WhatsApp.Constants.{
  ConversationState, FlowStep, TransitionName, ConversationSnapshot, state_eq, step_eq,
}
use lume_tenant_api.WhatsApp.Inbound.{ConversationRow}
use lume_tenant_api.WhatsApp.Commands.Rows.{
  TransitionCommand, Conversation, ClosureMessage, Draw, CommandSettings, is_given, text_of,
}
use lume_tenant_api.WhatsApp.Commands.Checks.{is_closing}

-- `departmentContactLabels`.
unfoldable pub department_contact_label : Department → Option String
department_contact_label Department.purchasing = some "Compras (Fornecedores)"
department_contact_label Department.controlling = some "Controladoria"
department_contact_label Department.personnel_department = some "Departamento Pessoal"
department_contact_label Department.financial = some "Financeiro"
department_contact_label Department.management = some "Gerência"
department_contact_label Department.maintenance = some "Manutenção"
department_contact_label Department.monitoring = some "Monitoramento"
department_contact_label Department.operations = some "Operacional"
department_contact_label _ = none

unfoldable pub get_conversation_closure_greeting : ℕ → String
get_conversation_closure_greeting hour =
    if ltb hour 12
    then "um ótimo dia!"
    else if ltb hour 18
    then "uma ótima tarde!"
    else "uma ótima noite!"

unfoldable pub build_conversation_closure_message : ℕ → String
unfolding get_conversation_closure_greeting
build_conversation_closure_message hour =
    "Foi um prazer te atender! Qualquer outra dúvida ou nova demanda, é só me chamar por aqui. Conte sempre conosco e tenha "
    ++ get_conversation_closure_greeting hour
    ++ " 😊"

unfoldable pub build_department_contact_closure_message : String → String
build_department_contact_closure_message label =
    "Sua solicitação foi enviada para o departamento " ++ label
    ++ ". O responsável entrará em contato em breve."

abbrev returns_to_menu : TransitionName → Bool
returns_to_menu TransitionName.return_to_main_menu = true
returns_to_menu _ = false

abbrev is_text : Option String → String → Bool
is_text none expected = false
is_text (some value) expected = value == expected

-- A description for a department was passed on.
unfoldable pub department_contact_completed : TransitionCommand → Bool
department_contact_completed input =
    returns_to_menu input.name && is_text (text_of input.reason) "department-contact-forwarded"

abbrev finalization_purpose : TransitionCommand → String
finalization_purpose input =
    if department_contact_completed input
    then "department-contact-finalization"
    else "conversation-closure"

-- `hour_of` is the hour of an instant in São Paulo.
unfoldable pub closure_text : (ℕ → ℕ) → TransitionCommand → ConversationSnapshot → ℕ → Option String
unfolding department_contact_completed build_department_contact_closure_message
    build_conversation_closure_message department_contact_label
closure_text hour_of input from at =
    if department_contact_completed input
    then some (
        build_department_contact_closure_message (
          get_or (department_contact_label (get_or input.target_department from.department))
            "responsável"))
    else if is_closing input.name
    then some (build_conversation_closure_message (hour_of at))
    else none

-- `digest` is the SHA-256 in hexadecimal digits.
abbrev pub correlation : (String → String) → String → String → String
correlation digest prefix value = prefix ++ ":" ++ digest value

unfoldable pub closure_message :
    (String → String) → (ℕ → ℕ) → Draw → TransitionCommand → Conversation → Option ClosureMessage
unfolding closure_text
closure_message digest hour_of draw input conversation =
    elim (closure_text hour_of input conversation.row.snapshot draw.transitioned_at) [
      | none ↦ none
      | some text ↦ some (record {
        id = draw.message_id;
        company_id = input.company_id;
        conversation_id = input.conversation_id;
        channel_id = conversation.channel_id;
        contact_id = conversation.contact_id;
        actor_user_id = input.actor_user_id;
        text = text;
        automation_purpose =
            if department_contact_completed input then some (finalization_purpose input) else none;
        recipient_phone = conversation.contact_phone;
        correlation_id =
            correlation digest (finalization_purpose input ++ "-outbound") input.command_id;
        occurred_at = draw.transitioned_at;
        attempt_id = draw.attempt_id;
      })
    ]

abbrev takes_over : TransitionName → Bool
takes_over TransitionName.take_over = true
takes_over _ = false

abbrev starts_contact : TransitionName → Bool
starts_contact TransitionName.start_department_contact = true
starts_contact _ = false

abbrev clears_contact_option : TransitionName → Bool
clears_contact_option TransitionName.present_main_menu = true
clears_contact_option TransitionName.select_commercial = true
clears_contact_option TransitionName.return_to_main_menu = true
clears_contact_option TransitionName.take_over = true
clears_contact_option TransitionName.return_to_bot = true
clears_contact_option TransitionName.forward = true
clears_contact_option name = is_closing name

abbrev confirms : TransitionName → Bool
confirms TransitionName.confirm_quote = true
confirms _ = false

abbrev returns_to_bot : TransitionName → Bool
returns_to_bot TransitionName.return_to_bot = true
returns_to_bot _ = false

abbrev resumes_contact : TransitionName → Bool
resumes_contact TransitionName.resume_contextual_contact = true
resumes_contact _ = false

abbrev may_show_follow_up : TransitionName → Bool
may_show_follow_up TransitionName.return_to_bot = true
may_show_follow_up TransitionName.resume_contextual_contact = true
may_show_follow_up TransitionName.select_commercial = true
may_show_follow_up _ = false

abbrev marks_read : TransitionName → Bool
marks_read TransitionName.mark_read = true
marks_read _ = false

abbrev pub next_assigned :
    TransitionCommand → ConversationRow → ConversationSnapshot → Option String
next_assigned input row to =
    if to.conversation_state == ConversationState.human_active
    then if takes_over input.name then input.actor_user_id else row.assigned_to_user_id
    else none

unfoldable pub check_assigned :
    TransitionCommand → ConversationRow → ConversationSnapshot → Result (Unit {0})
check_assigned input row to =
    throw_if
      (to.conversation_state == ConversationState.human_active
        && not (is_given (next_assigned input row to)))
      (validation_error "Assuma a conversa antes de executar esta ação.")

unfoldable pub changed_row :
    CommandSettings
    → Draw
    → TransitionCommand
    → ConversationSnapshot
    → ConversationRow
    → ConversationRow
changed_row settings draw input to row =
    let closing = is_closing input.name in
    let shows_follow_up = to.flow_step == FlowStep.commercial_follow_up_menu in
    record row {
      snapshot = to;
      version = row.version + 1;
      department_contact_option =
          if starts_contact input.name
          then text_of input.department_option
          else if clears_contact_option input.name
          then none
          else row.department_contact_option;
      follow_up_menu_presented_at =
          if closing || confirms input.name || (may_show_follow_up input.name && shows_follow_up)
          then none
          else row.follow_up_menu_presented_at;
      contextual_follow_up_at =
          if confirms input.name
          then some (draw.updated_at + settings.follow_up_inactivity)
          else if closing
          then none
          else if returns_to_bot input.name && shows_follow_up
          then some 0
          else if resumes_contact input.name
          then none
          else row.contextual_follow_up_at;
      main_menu_presented_at = if closing then none else row.main_menu_presented_at;
      assigned_to_user_id = next_assigned input row to;
      closed_at =
          if takes_over input.name
          then none
          else if closing
          then some draw.transitioned_at
          else row.closed_at;
    }

-- The preview is the text, cut to 240 characters.
unfoldable pub changed_conversation :
    CommandSettings
    → Draw
    → TransitionCommand
    → ConversationSnapshot
    → Option ClosureMessage
    → Conversation
    → Conversation
unfolding changed_row department_contact_completed cut
changed_conversation settings draw input to message conversation = record conversation {
  row = changed_row settings draw input to conversation.row;
  unread_count =
      if marks_read input.name || is_closing input.name || department_contact_completed input
      then 0
      else conversation.unread_count;
  last_message_preview = elim message [
    | none ↦ conversation.last_message_preview
    | some sent ↦ some (cut 240 sent.text)
  ];
}
