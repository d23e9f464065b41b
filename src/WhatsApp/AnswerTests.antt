-- ===== src/WhatsApp/AnswerTests.antt =====
-- An answer of the language model at a concrete conversation.
use lume_tenant_api.Base.{◌≡◌, refl, inr, none, ok, true}
use lume_tenant_api.Access.Departments.{Department}
use lume_tenant_api.WhatsApp.Constants.{
  ConversationState, FlowStep, RequestStatus, ConversationSnapshot,
}
use lume_tenant_api.WhatsApp.Transition.Actors.{assert_transition_actor}
use lume_tenant_api.WhatsApp.Transition.Matrix.{
  branches, run_command, resolve_conversation_transition,
}
use lume_tenant_api.WhatsApp.Automation.Types.{AiMode}
use lume_tenant_api.WhatsApp.Automation.Actions.{
  AiProviderOutput, CustomerDecision, CollectionStatus, derive_ai_actions,
}
use lume_tenant_api.WhatsApp.Automation.Execution.{follow_transition}
use lume_tenant_api.WhatsApp.Automation.Answers.{
  follow_after_send, answer_metadata, IsMeasured, follow_answer-IsMeasured,
}

abbrev confirmed_output : AiProviderOutput
confirmed_output = record {
  message = "Confirmado.";
  collection_status = CollectionStatus.completed;
  summary_presented = true;
  customer_decision = CustomerDecision.confirmed;
}

abbrev summary_shown : ConversationSnapshot
summary_shown = record {
  department = Department.commercial;
  conversation_state = ConversationState.bot_active;
  flow_step = FlowStep.quote_summary_confirmation;
  request_status = RequestStatus.waiting_for_customer;
  resume_state = none;
  resume_flow_step = none;
}

abbrev reviewed : ConversationSnapshot
reviewed = record summary_shown {
  flow_step = FlowStep.commercial_follow_up_menu;
  request_status = RequestStatus.under_review;
}

confirmed_reviewed :
    follow_after_send none "eventual-quote" confirmed_output AiMode.eventual_quote summary_shown
    ≡ ok reviewed
unfolding follow_after_send follow_transition run_command resolve_conversation_transition branches
    assert_transition_actor derive_ai_actions answer_metadata
confirmed_reviewed = refl

follow_answer-IsMeasured_example : IsMeasured confirmed_output summary_shown reviewed
follow_answer-IsMeasured_example =
    follow_answer-IsMeasured none "eventual-quote" confirmed_output AiMode.eventual_quote
      summary_shown reviewed (inr confirmed_reviewed)
