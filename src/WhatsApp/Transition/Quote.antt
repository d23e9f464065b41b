-- ===== src/WhatsApp/Transition/Quote.antt =====
-- conversation-transition.matrix.ts, `resolveConversationTransition`: the branches of a quote's
-- collection, its summary, and the delivery of the proposal.
use lume_tenant_api.Base.{
  [], ◌∷◌, not, ◌||◌, none, some, ◌==◌, includes, Result, ok, ◌>>◌, throw_if, validation_error,
}
use lume_tenant_api.Access.Departments.{Department, department_eq}
use lume_tenant_api.WhatsApp.Constants.{
  ConversationState, FlowStep, RequestStatus, TransitionName, ConversationSnapshot, step_eq,
  status_eq,
}
use lume_tenant_api.WhatsApp.Transition.Guards.{assert_state}

-- The snapshot that both ways to begin a collection return.
abbrev pub collecting : ConversationSnapshot
collecting = record {
  department = Department.commercial;
  conversation_state = ConversationState.bot_active;
  flow_step = FlowStep.quote_data_collection;
  request_status = RequestStatus.collecting_information;
  resume_state = none;
  resume_flow_step = none;
}

unfoldable pub start_quote : ConversationSnapshot → Result ConversationSnapshot
unfolding assert_state
start_quote current = do
  assert_state current (ConversationState.bot_active ∷ []) TransitionName.start_quote
  throw_if
      (not (current.flow_step == FlowStep.commercial_menu)
        || not (current.request_status == RequestStatus.not_started))
      (validation_error "A primeira coleta exige o menu comercial sem orçamento anterior.")
  ok collecting

unfoldable pub new_quote_request : ConversationSnapshot → Result ConversationSnapshot
unfolding assert_state
new_quote_request current = do
  assert_state current (ConversationState.bot_active ∷ []) TransitionName.new_quote_request
  throw_if
      (not (current.flow_step == FlowStep.commercial_follow_up_menu)
        || not (
            includes
              (RequestStatus.waiting_for_customer ∷ RequestStatus.under_review
                ∷ RequestStatus.approved ∷ RequestStatus.rejected ∷ [])
              current.request_status))
      (validation_error
        "Uma nova solicitação exige o menu comercial de acompanhamento de um orçamento confirmado.")
  ok collecting

unfoldable pub present_quote_summary : ConversationSnapshot → Result ConversationSnapshot
unfolding assert_state
present_quote_summary current = do
  assert_state current (ConversationState.bot_active ∷ []) TransitionName.present_quote_summary
  throw_if
      (not (current.flow_step == FlowStep.quote_data_collection)
        || not (current.request_status == RequestStatus.collecting_information))
      (validation_error "O resumo só pode ser apresentado após a coleta de dados.")
  ok (record current {
    conversation_state = ConversationState.waiting_for_customer;
    flow_step = FlowStep.quote_summary_confirmation;
    request_status = RequestStatus.waiting_for_customer;
    resume_state = some ConversationState.bot_active;
    resume_flow_step = some FlowStep.quote_summary_confirmation;
  })

unfoldable pub correct_quote : ConversationSnapshot → Result ConversationSnapshot
unfolding assert_state
correct_quote current = do
  assert_state current (ConversationState.waiting_for_customer ∷ ConversationState.bot_active ∷ [])
      TransitionName.correct_quote
  throw_if
      (not (current.flow_step == FlowStep.quote_summary_confirmation)
        || not (current.request_status == RequestStatus.waiting_for_customer))
      (validation_error "A correção exige um resumo de orçamento aguardando confirmação.")
  ok (record current {
    conversation_state = ConversationState.bot_active;
    flow_step = FlowStep.quote_data_collection;
    request_status = RequestStatus.collecting_information;
    resume_state = none;
    resume_flow_step = none;
  })

unfoldable pub confirm_quote : ConversationSnapshot → Result ConversationSnapshot
unfolding assert_state
confirm_quote current = do
  assert_state current (ConversationState.waiting_for_customer ∷ ConversationState.bot_active ∷ [])
      TransitionName.confirm_quote
  throw_if
      (not (current.flow_step == FlowStep.quote_summary_confirmation)
        || not (current.request_status == RequestStatus.waiting_for_customer))
      (validation_error "A confirmação exige um resumo de orçamento apresentado.")
  ok (record current {
    conversation_state = ConversationState.bot_active;
    flow_step = FlowStep.commercial_follow_up_menu;
    request_status = RequestStatus.under_review;
    resume_state = none;
    resume_flow_step = none;
  })

unfoldable pub proposal_delivery_confirmed : ConversationSnapshot → Result ConversationSnapshot
unfolding assert_state
proposal_delivery_confirmed current = do
  assert_state current
      (ConversationState.bot_active ∷ ConversationState.sent_to_human
        ∷ ConversationState.human_active ∷ [])
      TransitionName.proposal_delivery_confirmed
  throw_if
      (not (current.department == Department.commercial)
        || not (current.flow_step == FlowStep.quote_send_pending)
        || not (current.request_status == RequestStatus.under_review))
      (validation_error "A confirmação de entrega exige uma proposta comercial em envio.")
  ok (record current {
    conversation_state = ConversationState.waiting_for_customer;
    flow_step = FlowStep.quote_send_pending;
    request_status = RequestStatus.waiting_for_customer;
    resume_state = none;
    resume_flow_step = none;
  })

unfoldable pub proposal_response_received : ConversationSnapshot → Result ConversationSnapshot
unfolding assert_state
proposal_response_received current = do
  assert_state current (ConversationState.waiting_for_customer ∷ [])
      TransitionName.proposal_response_received
  throw_if
      (not (current.department == Department.commercial)
        || not (current.flow_step == FlowStep.quote_send_pending)
        || not (current.request_status == RequestStatus.waiting_for_customer))
      (validation_error "A resposta exige uma proposta entregue e aguardando o cliente.")
  ok (record current {
    conversation_state = ConversationState.sent_to_human;
    flow_step = FlowStep.human_service;
    request_status = RequestStatus.waiting_for_customer;
    resume_state = none;
    resume_flow_step = some FlowStep.commercial_follow_up_menu;
  })
