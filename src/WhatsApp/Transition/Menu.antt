-- ===== src/WhatsApp/Transition/Menu.antt =====
-- conversation-transition.matrix.ts, `resolveConversationTransition`: the branches of the menus.
use Prim.Native.Char.{code}
use lume_tenant_api.Base.{
  String, [], ◌∷◌, Bool, false, not, ◌&&◌, ◌||◌, Option, none, some, leb, ◌==◌, string_eq,
  if◌then◌else◌, Result, ok, err, ◌>>◌, throw_if, validation_error,
}
use lume_tenant_api.Access.Departments.{Department}
use lume_tenant_api.WhatsApp.Constants.{
  ConversationState, FlowStep, RequestStatus, TransitionName, ConversationSnapshot, step_eq,
  status_eq,
}
use lume_tenant_api.WhatsApp.Transition.Guards.{ResolveTransitionInput, assert_state}

-- `/^[2-9]$/.test(option)`.
abbrev pub is_digit_option : String → Bool
is_digit_option String.[] = false
is_digit_option (String.◌∷◌ c String.[]) = leb b'2' (code c) && leb (code c) b'9'
is_digit_option (String.◌∷◌ c (String.◌∷◌ d s)) = false

-- A key of the department contacts: `!option` refuses the empty text too, as the pattern does.
unfoldable pub is_department_option : Option String → Bool
is_department_option none = false
is_department_option (some option) =
    is_digit_option option || option == "commercial-continuous-director"

unfoldable pub present_main_menu : ConversationSnapshot → Result ConversationSnapshot
unfolding assert_state
present_main_menu current = do
  assert_state current (ConversationState.bot_active ∷ []) TransitionName.present_main_menu
  throw_if (not (current.flow_step == FlowStep.main_menu))
      (validation_error "A apresentação inicial exige o menu principal.")
  ok (record current { resume_state = none; resume_flow_step = none })

unfoldable pub select_commercial : ConversationSnapshot → Result ConversationSnapshot
unfolding assert_state
select_commercial current = do
  assert_state current (ConversationState.bot_active ∷ []) TransitionName.select_commercial
  throw_if (not (current.flow_step == FlowStep.main_menu))
      (validation_error "A seleção Comercial só é permitida no menu principal.")
  ok (record {
    department = Department.commercial;
    conversation_state = ConversationState.bot_active;
    flow_step =
        if current.request_status == RequestStatus.not_started
        then FlowStep.commercial_menu
        else FlowStep.commercial_follow_up_menu;
    request_status = current.request_status;
    resume_state = none;
    resume_flow_step = none;
  })

-- The last check and the result, once the destination is known.
unfoldable pub start_contact_with :
    ConversationSnapshot → Option Department → Option String → Result ConversationSnapshot
unfolding is_department_option
start_contact_with current none option =
    err (validation_error "Informe o departamento de destino antes de coletar os dados.")
start_contact_with current (some target) option = do
  throw_if (not (is_department_option option))
      (validation_error "A opção de departamento informada não é válida.")
  ok (record current {
    department = target;
    conversation_state = ConversationState.bot_active;
    flow_step = FlowStep.main_menu;
    resume_state = none;
    resume_flow_step = none;
  })

unfoldable pub start_department_contact : ResolveTransitionInput → Result ConversationSnapshot
unfolding assert_state start_contact_with
start_department_contact input = do
  assert_state input.current (ConversationState.bot_active ∷ [])
      TransitionName.start_department_contact
  throw_if
      (not (input.current.flow_step == FlowStep.main_menu)
        && not (input.current.flow_step == FlowStep.commercial_menu))
      (validation_error "A seleção de departamento só é permitida nos menus de atendimento.")
  start_contact_with input.current input.target_department input.department_option

unfoldable pub return_to_main_menu : ConversationSnapshot → Result ConversationSnapshot
unfolding assert_state
return_to_main_menu current = do
  assert_state current (ConversationState.bot_active ∷ []) TransitionName.return_to_main_menu
  ok (record current {
    conversation_state = ConversationState.bot_active;
    flow_step = FlowStep.main_menu;
    resume_state = none;
    resume_flow_step = none;
  })
