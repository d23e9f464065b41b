-- ===== src/WhatsApp/Transition/Progress.antt =====
-- Ways through the matrix that always stay open.
use lume_tenant_api.Base.{◌≡◌, ◌≢◌, ◌↔◌, List, [], ◌∷◌, true, none, ok, arith}
use lume_tenant_api.Access.Departments.{Department}
use lume_tenant_api.WhatsApp.Constants.{
  ConversationState, FlowStep, RequestStatus, TransitionName, ConversationSnapshot,
}
use lume_tenant_api.WhatsApp.Transition.Actors.{TransitionActor, user, webhook, system}
use lume_tenant_api.WhatsApp.Transition.Guards.{ResolveTransitionInput}
use lume_tenant_api.WhatsApp.Transition.Matrix.{branches, run_command, run_commands}
use lume_tenant_api.WhatsApp.Transition.Attendance

-- A command that names no department and no policy.
abbrev pub plain : TransitionName → ConversationSnapshot → ResolveTransitionInput
plain name current = record {
  current = current;
  name = name;
  target_department = none;
  department_option = none;
  policy = none;
}

-- The commands from the main menu to a confirmed quote.
abbrev pub quote_commands : ConversationSnapshot → List (TransitionActor × ResolveTransitionInput)
quote_commands c =
    (system, plain TransitionName.select_commercial c)
    ∷ (system, plain TransitionName.start_quote c)
    ∷ (system, plain TransitionName.present_quote_summary c)
    ∷ (webhook, plain TransitionName.resume_awaited_reply c)
    ∷ (system, plain TransitionName.confirm_quote c)
    ∷ []

-- From the main menu, with no request begun, a customer reaches a request under review: the menu,
-- the collection, the summary, the customer's reply and the confirmation are all accepted.
pub quote_commands_reach_review :
    (c : ConversationSnapshot)
    → c.conversation_state ≡ ConversationState.bot_active
    → c.flow_step ≡ FlowStep.main_menu
    → c.request_status ≡ RequestStatus.not_started
    → run_commands (quote_commands c) c
      ≡ ok (record {
        department = Department.commercial;
        conversation_state = ConversationState.bot_active;
        flow_step = FlowStep.commercial_follow_up_menu;
        request_status = RequestStatus.under_review;
        resume_state = none;
        resume_flow_step = none;
      })
unfolding run_commands run_command branches
quote_commands_reach_review c b m n = ground arith

-- A user may close a conversation exactly when it is not closed and no policy keeps an approved
-- proposal open; it then holds the snapshot of a closed conversation.
close_iff :
    (input : ResolveTransitionInput)
    → input.name ≡ TransitionName.close
    → (run_command user input ≡ ok (Attendance.closing input.current)) ↔ (
        (input.current.conversation_state ≢ ConversationState.closed)
        × (Attendance.prevents_close input.policy ≡ true
            → input.current.request_status ≢ RequestStatus.approved))
unfolding run_command Attendance.close
close_iff input n =
    ((λ h. ((λ c. ground arith), (λ p a. ground arith))), (λ k. ground (arith, k.0, k.1)))
