-- ===== src/WhatsApp/Automation/Answers.antt =====
-- infra/integrations/whatsapp/api-whatsapp-automation.provider.ts: the transitions that follow from
-- an answer of the language model, and what an answer can bring about.
use lume_tenant_api.Base.{
  ◌≡◌, ◌⊎◌, inl, inr, Option, none, some, get_or, Result, ok, arith, String, true, false,
}
use lume_tenant_api.Access.Departments.{Department}
use lume_tenant_api.WhatsApp.Constants.{
  ConversationState, FlowStep, RequestStatus, TransitionName, ConversationSnapshot,
}
use lume_tenant_api.WhatsApp.Transition.Guards.{ClosePolicy, ResolveTransitionInput}
use lume_tenant_api.WhatsApp.Transition.Matrix.{branches, resolve_branch, run_command}
use lume_tenant_api.WhatsApp.Automation.Types.{AiMode, TransitionMetadata, said}
use lume_tenant_api.WhatsApp.Automation.Actions.{
  AiProviderOutput, AiActions, CustomerDecision, derive_ai_actions, derive_from_status,
}
use lume_tenant_api.WhatsApp.Automation.Execution.{follow_transition, metadata_input}

unfoldable pub answer_metadata : String → AiActions → TransitionMetadata
answer_metadata plan_reason actions = elim actions.transition_after_send [
  | some TransitionName.forward ↦ record {
    target_department = some Department.commercial;
    department_option = none;
    reason = some (said (get_or actions.human_reason plan_reason));
    history_available_in_panel = true;
  }
  | _ ↦ record {
    target_department = none;
    department_option = none;
    reason = some (said (get_or actions.human_reason plan_reason));
    history_available_in_panel = false;
  }
]

-- The transition that is asked for before the answer is sent.
unfoldable pub follow_before_send :
    Option ClosePolicy
    → String
    → AiProviderOutput
    → AiMode
    → ConversationSnapshot
    → Result ConversationSnapshot
unfolding follow_transition derive_ai_actions answer_metadata
follow_before_send policy reason output mode current =
    let actions = derive_ai_actions output mode in
    follow_transition policy (some (answer_metadata reason actions)) actions.transition_before_send
      current

-- The transition that is asked for once the answer is sent.
unfoldable pub follow_after_send :
    Option ClosePolicy
    → String
    → AiProviderOutput
    → AiMode
    → ConversationSnapshot
    → Result ConversationSnapshot
unfolding follow_transition derive_ai_actions answer_metadata
follow_after_send policy reason output mode current =
    let actions = derive_ai_actions output mode in
    follow_transition policy (some (answer_metadata reason actions)) actions.transition_after_send
      current

-- What an answer may do to a conversation.
pub record IsMeasured (output : AiProviderOutput) (c s : ConversationSnapshot) : Type 0 where
  pub keeps_open :
      s.conversation_state ≡ ConversationState.closed
      → c.conversation_state ≡ ConversationState.closed
  pub takes_over :
      s.conversation_state ≡ ConversationState.human_active
      → c.conversation_state ≡ ConversationState.human_active
  pub reviews :
      s.request_status ≡ RequestStatus.under_review
      → (c.request_status ≡ RequestStatus.under_review)
        ⊎ ((output.customer_decision ≡ CustomerDecision.confirmed)
            × (c.flow_step ≡ FlowStep.quote_summary_confirmation)
            × (c.request_status ≡ RequestStatus.waiting_for_customer))
  pub approves :
      s.request_status ≡ RequestStatus.approved → c.request_status ≡ RequestStatus.approved
  pub rejects :
      s.request_status ≡ RequestStatus.rejected → c.request_status ≡ RequestStatus.rejected

confirm_quote-IsMeasured :
    (output : AiProviderOutput) (input : ResolveTransitionInput) (s : ConversationSnapshot)
    → output.customer_decision ≡ CustomerDecision.confirmed
    → resolve_branch TransitionName.confirm_quote input ≡ ok s
    → IsMeasured output input.current s
unfolding branches
confirm_quote-IsMeasured output input s decided h = record {
  keeps_open = λ e. ground arith;
  takes_over = λ e. ground arith;
  reviews = λ e. ground arith;
  approves = λ e. ground arith;
  rejects = λ e. ground arith;
}

-- The other transitions that an answer may ask for.
abbrev IsOther : TransitionName → Type 0
IsOther TransitionName.forward = Unit {0}
IsOther TransitionName.present_quote_summary = Unit {0}
IsOther TransitionName.correct_quote = Unit {0}
IsOther _ = ⊥

other-IsMeasured :
    (output : AiProviderOutput) (name : TransitionName) (input : ResolveTransitionInput)
    (s : ConversationSnapshot)
    → IsOther name
    → resolve_branch name input ≡ ok s
    → IsMeasured output input.current s
unfolding branches
other-IsMeasured output TransitionName.forward input s o h = record {
  keeps_open = λ e. ground arith;
  takes_over = λ e. ground arith;
  reviews = λ e. ground arith;
  approves = λ e. ground arith;
  rejects = λ e. ground arith;
}
other-IsMeasured output _ input s o h = record {
  keeps_open = λ e. ground arith;
  takes_over = λ e. ground arith;
  reviews = λ e. ground arith;
  approves = λ e. ground arith;
  rejects = λ e. ground arith;
}

unchanged-IsMeasured :
    (output : AiProviderOutput) (c s : ConversationSnapshot) → ok c ≡ ok s → IsMeasured output c s
unchanged-IsMeasured output c s h = record {
  keeps_open = λ e. ground arith;
  takes_over = λ e. ground arith;
  reviews = λ e. ground arith;
  approves = λ e. ground arith;
  rejects = λ e. ground arith;
}

-- What an answer asks for: a confirmation that the customer decided on, another of the three
-- transitions, or nothing.
abbrev IsAsked : AiProviderOutput → Option TransitionName → Type 0
IsAsked output none = Unit {0}
IsAsked output (some name) =
    ((name ≡ TransitionName.confirm_quote)
      × (output.customer_decision ≡ CustomerDecision.confirmed))
    ⊎ IsOther name

follow-IsMeasured :
    (policy : Option ClosePolicy) (output : AiProviderOutput) (metadata : Option TransitionMetadata)
    (asked : Option TransitionName) (c s : ConversationSnapshot)
    → IsAsked output asked
    → follow_transition policy metadata asked c ≡ ok s
    → IsMeasured output c s
unfolding follow_transition run_command
follow-IsMeasured policy output metadata none c s a h = unchanged-IsMeasured output c s h
follow-IsMeasured policy output none (some name) c s (inl (e, decided)) h =
    confirm_quote-IsMeasured output (metadata_input none name c policy) s decided (ground arith)
follow-IsMeasured policy output (some m) (some name) c s (inl (e, decided)) h =
    confirm_quote-IsMeasured output (metadata_input (some m) name c policy) s decided (ground arith)
follow-IsMeasured policy output none (some name) c s (inr o) h =
    other-IsMeasured output name (metadata_input none name c policy) s o (ground arith)
follow-IsMeasured policy output (some m) (some name) c s (inr o) h =
    other-IsMeasured output name (metadata_input (some m) name c policy) s o (ground arith)

derive-IsAsked :
    (output : AiProviderOutput) (mode : AiMode)
    → IsAsked output (derive_ai_actions output mode).transition_before_send
      × IsAsked output (derive_ai_actions output mode).transition_after_send
unfolding derive_ai_actions derive_from_status
derive-IsAsked output mode = ground arith

-- Whatever the language model answers, the transitions it brings about never close a conversation,
-- never hand it to a person as taken over, never approve or reject a request, and put a request under
-- review only if the model reports a confirmed decision at the confirmation of a summary that waits
-- for the customer.
pub follow_answer-IsMeasured :
    (policy : Option ClosePolicy) (reason : String) (output : AiProviderOutput) (mode : AiMode)
    (c s : ConversationSnapshot)
    → (follow_before_send policy reason output mode c ≡ ok s)
      ⊎ (follow_after_send policy reason output mode c ≡ ok s)
    → IsMeasured output c s
unfolding follow_before_send follow_after_send
follow_answer-IsMeasured policy reason output mode c s (inl h) =
    let actions = derive_ai_actions output mode in
    follow-IsMeasured policy output (some (answer_metadata reason actions))
      actions.transition_before_send c s (derive-IsAsked output mode).0 h
follow_answer-IsMeasured policy reason output mode c s (inr h) =
    let actions = derive_ai_actions output mode in
    follow-IsMeasured policy output (some (answer_metadata reason actions))
      actions.transition_after_send c s (derive-IsAsked output mode).1 h
