-- ===== src/WhatsApp/Transition/Attendance.antt =====
-- conversation-transition.matrix.ts, `resolveConversationTransition`: the branches of human
-- attendance, closing, reopening and the customer's return.
use lume_tenant_api.Base.{
  Bool, false, [], ◌∷◌, not, ◌&&◌, ◌||◌, Option, none, some, ◌==◌, includes, Result, ok, err, ◌>>◌,
  throw_if, validation_error,
}
use lume_tenant_api.Access.Departments.{Department}
use lume_tenant_api.WhatsApp.Constants.{
  ConversationState, FlowStep, RequestStatus, TransitionName, ConversationSnapshot, state_eq,
  step_eq, status_eq,
}
use lume_tenant_api.WhatsApp.Transition.Guards.{
  ClosePolicy, ResolveTransitionInput, assert_open, assert_state, follow_up_request_statuses,
  resolve_bot_flow_step,
}

-- `take-over` has no check of its own: it may even take over a closed conversation.
unfoldable pub take_over : ConversationSnapshot → Result ConversationSnapshot
take_over current = ok (record current {
  conversation_state = ConversationState.human_active;
  flow_step = FlowStep.human_service;
  resume_state = none;
  resume_flow_step = some (resolve_bot_flow_step current);
})

unfoldable pub return_to_bot : ConversationSnapshot → Result ConversationSnapshot
unfolding assert_state
return_to_bot current = do
  assert_state current (ConversationState.human_active ∷ []) TransitionName.return_to_bot
  ok (record current {
    conversation_state = ConversationState.bot_active;
    flow_step = resolve_bot_flow_step current;
    resume_state = none;
    resume_flow_step = none;
  })

-- The destination and the result of `forward`, once the conversation is known to be open.
unfoldable pub forward_to : ConversationSnapshot → Option Department → Result ConversationSnapshot
forward_to current none =
    err (validation_error "Informe o departamento de destino do encaminhamento.")
forward_to current (some target) = ok (record current {
  department = target;
  conversation_state = ConversationState.sent_to_human;
  flow_step = FlowStep.human_service;
  resume_state = none;
  resume_flow_step = some (resolve_bot_flow_step current);
})

unfoldable pub forward : ResolveTransitionInput → Result ConversationSnapshot
unfolding assert_open forward_to
forward input = do assert_open input.current; forward_to input.current input.target_department

unfoldable pub mark_read : ConversationSnapshot → Result ConversationSnapshot
unfolding assert_open
mark_read current = do assert_open current; ok current

-- The snapshot of a conversation that is closed.
abbrev pub closing : ConversationSnapshot → ConversationSnapshot
closing current = record current {
  conversation_state = ConversationState.closed;
  flow_step = FlowStep.closed;
  resume_state = none;
  resume_flow_step = none;
}

-- `input.policy?.preventCloseWithApprovedQuote === true`.
unfoldable pub prevents_close : Option ClosePolicy → Bool
prevents_close none = false
prevents_close (some policy) = elim policy.prevent_close_with_approved_quote [
  | none ↦ false
  | some flag ↦ flag
]

unfoldable pub close : ResolveTransitionInput → Result ConversationSnapshot
unfolding assert_open prevents_close
close input = do
  assert_open input.current
  throw_if (prevents_close input.policy && input.current.request_status == RequestStatus.approved)
      (validation_error "Um atendimento com proposta aprovada não pode ser encerrado.")
  ok (closing input.current)

unfoldable pub close_after_rejection : ConversationSnapshot → Result ConversationSnapshot
unfolding assert_open
close_after_rejection current = do
  assert_open current
  throw_if (not (current.request_status == RequestStatus.rejected))
      (validation_error "O atendimento só pode ser encerrado depois que a proposta for recusada.")
  ok (closing current)

unfoldable pub reopen_after_customer_message : ConversationSnapshot → Result ConversationSnapshot
unfolding assert_state
reopen_after_customer_message current = do
  assert_state current (ConversationState.closed ∷ []) TransitionName.reopen_after_customer_message
  throw_if (not (current.flow_step == FlowStep.closed))
      (validation_error "A reabertura exige uma conversa previamente encerrada.")
  ok (record current {
    department = Department.commercial;
    conversation_state = ConversationState.bot_active;
    flow_step = FlowStep.main_menu;
    resume_state = none;
    resume_flow_step = none;
  })

-- `current.resumeState === 'bot-active'`.
unfoldable pub resumes_bot : Option ConversationState → Bool
resumes_bot none = false
resumes_bot (some state) = state == ConversationState.bot_active

unfoldable pub resume_awaited_reply : ConversationSnapshot → Result ConversationSnapshot
unfolding assert_state resumes_bot
resume_awaited_reply current = do
  assert_state current (ConversationState.waiting_for_customer ∷ [])
      TransitionName.resume_awaited_reply
  throw_if
      (not (current.flow_step == FlowStep.quote_summary_confirmation)
        || not (current.request_status == RequestStatus.waiting_for_customer)
        || not (resumes_bot current.resume_state))
      (validation_error "A retomada da resposta exige um resumo aguardando o cliente.")
  ok (record current {
    conversation_state = ConversationState.bot_active;
    resume_state = none;
    resume_flow_step = none;
  })

unfoldable pub resume_contextual_contact : ConversationSnapshot → Result ConversationSnapshot
unfolding assert_state
resume_contextual_contact current = do
  assert_state current (ConversationState.sent_to_human ∷ ConversationState.bot_active ∷ [])
      TransitionName.resume_contextual_contact
  throw_if
      (not (
          (current.conversation_state == ConversationState.sent_to_human
            && current.flow_step == FlowStep.quote_send_pending)
          || (current.conversation_state == ConversationState.bot_active
              && includes (FlowStep.quote_send_pending ∷ FlowStep.commercial_follow_up_menu ∷ [])
                  current.flow_step))
        || not (includes follow_up_request_statuses current.request_status))
      (validation_error "Não existe orçamento confirmado em acompanhamento para retomar.")
  ok (record current {
    department = Department.commercial;
    conversation_state = ConversationState.bot_active;
    flow_step = FlowStep.commercial_follow_up_menu;
    resume_state = none;
    resume_flow_step = none;
  })
