-- ===== src/WhatsApp/TransitionTests.antt =====
-- Transitions of conversations, and customers' messages, at concrete inputs.
use lume_tenant_api.Base.{
  ◌≡◌, ◌⊎◌, refl, true, false, none, some, [], ◌∷◌, ok, ◌>>=◌, arith, includes, string_eq,
  validation_error_code, forbidden_code,
}
use lume_tenant_api.Access.Departments.{Department}
use lume_tenant_api.WhatsApp.Constants.{
  ConversationState, FlowStep, RequestStatus, TransitionName, MessageKind, ConversationSnapshot,
  status_eq,
}
use lume_tenant_api.WhatsApp.Transition.Actors.{actor_eq, user, webhook, system}
use lume_tenant_api.WhatsApp.Transition.Guards.{resolve_bot_flow_step}
use lume_tenant_api.WhatsApp.Transition.Matrix.{branches, run_command, run_commands}
use lume_tenant_api.WhatsApp.Transition.Attendance
use lume_tenant_api.WhatsApp.Transition.Invariant.{IsConsistent, resolve-IsConsistent}
use lume_tenant_api.WhatsApp.Transition.Laws.{
  RequestEdge, closed_left_by, refusal_codes, resolve-RequestEdge,
}
use lume_tenant_api.WhatsApp.Transition.Custody.{
  closed_by_user, human_held, take_over-return_to_bot,
}
use lume_tenant_api.WhatsApp.Transition.Progress.{
  plain, quote_commands, quote_commands_reach_review,
}
use lume_tenant_api.WhatsApp.Inbound.{
  ConversationRow, InboundConversation, InboundMessage, receive_message,
}
use lume_tenant_api.WhatsApp.Inbound.History.{IsCounted, receive_message-IsCounted}

abbrev fresh : ConversationSnapshot
fresh = record {
  department = Department.commercial;
  conversation_state = ConversationState.bot_active;
  flow_step = FlowStep.main_menu;
  request_status = RequestStatus.not_started;
  resume_state = none;
  resume_flow_step = none;
}

abbrev held : ConversationSnapshot
held = record fresh {
  conversation_state = ConversationState.human_active;
  flow_step = FlowStep.human_service;
  resume_flow_step = some FlowStep.main_menu;
}

abbrev shut : ConversationSnapshot
shut = Attendance.closing fresh

open_matrix : Unit {0}
unfolding run_command run_commands branches resolve_bot_flow_step
open_matrix = tt

resolve-IsConsistent_example : IsConsistent held
unfolding open_matrix
resolve-IsConsistent_example =
    resolve-IsConsistent (plain TransitionName.take_over fresh) held refl (ground arith)

resolve-RequestEdge_example : RequestEdge RequestStatus.not_started RequestStatus.not_started
unfolding open_matrix
resolve-RequestEdge_example = resolve-RequestEdge (plain TransitionName.take_over fresh) held refl

closed_left_by_example :
    ((user ≡ user) × (TransitionName.take_over ≡ TransitionName.take_over))
    ⊎ ((user ≡ webhook) × (TransitionName.take_over ≡ TransitionName.reopen_after_customer_message))
unfolding open_matrix
closed_left_by_example =
    closed_left_by user (plain TransitionName.take_over shut)
      (record held { resume_flow_step = some FlowStep.main_menu }) refl refl

refusal_codes_example :
    ((includes (system ∷ []) webhook ≡ false) × (forbidden_code ≡ forbidden_code))
    ⊎ ((includes (system ∷ []) webhook ≡ true) × (forbidden_code ≡ validation_error_code))
unfolding open_matrix
refusal_codes_example = refusal_codes webhook (plain TransitionName.start_quote fresh) _ refl

closed_by_user_example :
    (user ≡ user)
    × ((TransitionName.close ≡ TransitionName.close)
        ⊎ (TransitionName.close ≡ TransitionName.close_after_rejection))
    × (shut.department ≡ fresh.department)
    × (shut.request_status ≡ fresh.request_status)
    × (shut.flow_step ≡ FlowStep.closed)
unfolding open_matrix
closed_by_user_example = closed_by_user user (plain TransitionName.close fresh) shut refl refl

human_held_example :
    (user ≡ user)
    ⊎ ((user ≡ system)
        × ((TransitionName.close ≡ TransitionName.forward)
            ⊎ (TransitionName.close ≡ TransitionName.proposal_delivery_confirmed)))
unfolding open_matrix
human_held_example =
    human_held user (plain TransitionName.close held) (Attendance.closing held) refl refl

take_over-return_to_bot_example :
    (Attendance.take_over fresh >>= Attendance.return_to_bot) ≡ ok fresh
take_over-return_to_bot_example = take_over-return_to_bot fresh tt refl

quote_commands_reach_review_example :
    run_commands (quote_commands fresh) fresh
    ≡ ok (record fresh {
      flow_step = FlowStep.commercial_follow_up_menu;
      request_status = RequestStatus.under_review;
    })
quote_commands_reach_review_example = quote_commands_reach_review fresh refl refl refl

abbrev closed_row : ConversationRow
closed_row = record {
  snapshot = shut;
  version = 4;
  assigned_to_user_id = none;
  closed_at = some 1000;
  main_menu_presented_at = some 10;
  follow_up_menu_presented_at = none;
  contextual_follow_up_at = some 900;
  department_contact_option = none;
}

abbrev closed_conversation : InboundConversation
closed_conversation = record {
  row = closed_row;
  unread_count = 2;
  last_inbound_at = some 800;
  last_message_preview = some "ok";
  transitions = [];
}

abbrev message : InboundMessage
message = record { kind = MessageKind.text; text = some " Bom dia "; occurred_at = 2000 }

receive_message-IsCounted_example :
    (after : InboundConversation) × (receive_message message closed_conversation ≡ ok after)
    × IsCounted message closed_conversation after
receive_message-IsCounted_example =
    receive_message-IsCounted message closed_conversation (ground arith)
