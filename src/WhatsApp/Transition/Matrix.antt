-- ===== src/WhatsApp/Transition/Matrix.antt =====
-- conversation-transition.matrix.ts: `resolveConversationTransition`, the `switch` over the name.
use lume_tenant_api.Base.{List, [], ◌∷◌, Result, ok, ◌>>=◌, ◌>>◌}
use lume_tenant_api.WhatsApp.Constants.{TransitionName, ConversationSnapshot}
use lume_tenant_api.WhatsApp.Transition.Guards.{ResolveTransitionInput}
use lume_tenant_api.WhatsApp.Transition.Actors.{TransitionActor, assert_transition_actor}
use lume_tenant_api.WhatsApp.Transition.Menu
use lume_tenant_api.WhatsApp.Transition.Quote
use lume_tenant_api.WhatsApp.Transition.Attendance

unfoldable pub resolve_branch :
    TransitionName → ResolveTransitionInput → Result ConversationSnapshot
resolve_branch TransitionName.present_main_menu input = Menu.present_main_menu input.current
resolve_branch TransitionName.select_commercial input = Menu.select_commercial input.current
resolve_branch TransitionName.start_department_contact input = Menu.start_department_contact input
resolve_branch TransitionName.start_quote input = Quote.start_quote input.current
resolve_branch TransitionName.new_quote_request input = Quote.new_quote_request input.current
resolve_branch TransitionName.present_quote_summary input =
    Quote.present_quote_summary input.current
resolve_branch TransitionName.correct_quote input = Quote.correct_quote input.current
resolve_branch TransitionName.confirm_quote input = Quote.confirm_quote input.current
resolve_branch TransitionName.proposal_delivery_confirmed input =
    Quote.proposal_delivery_confirmed input.current
resolve_branch TransitionName.proposal_response_received input =
    Quote.proposal_response_received input.current
resolve_branch TransitionName.return_to_main_menu input = Menu.return_to_main_menu input.current
resolve_branch TransitionName.take_over input = Attendance.take_over input.current
resolve_branch TransitionName.return_to_bot input = Attendance.return_to_bot input.current
resolve_branch TransitionName.forward input = Attendance.forward input
resolve_branch TransitionName.mark_read input = Attendance.mark_read input.current
resolve_branch TransitionName.close input = Attendance.close input
resolve_branch TransitionName.close_after_rejection input =
    Attendance.close_after_rejection input.current
resolve_branch TransitionName.reopen_after_customer_message input =
    Attendance.reopen_after_customer_message input.current
resolve_branch TransitionName.resume_awaited_reply input =
    Attendance.resume_awaited_reply input.current
resolve_branch TransitionName.resume_contextual_contact input =
    Attendance.resume_contextual_contact input.current

unfoldable pub resolve_conversation_transition :
    ResolveTransitionInput → Result ConversationSnapshot
unfolding resolve_branch
resolve_conversation_transition input = resolve_branch input.name input

-- The actor is checked first, then the transition is resolved.
unfoldable pub run_command : TransitionActor → ResolveTransitionInput → Result ConversationSnapshot
unfolding assert_transition_actor resolve_conversation_transition
run_command actor input = do
  assert_transition_actor input.name actor
  resolve_conversation_transition input

-- Commands one after the other, each on the snapshot that the one before it left.
unfoldable pub run_commands :
    List (TransitionActor × ResolveTransitionInput)
    → ConversationSnapshot
    → Result ConversationSnapshot
run_commands [] current = ok current
run_commands ((actor, input) ∷ rest) current = do
  next ← run_command actor (record input { current = current })
  run_commands rest next

-- The matrix with every branch open.
unfoldable pub branches : Unit {0}
unfolding resolve_branch Menu.present_main_menu Menu.select_commercial Menu.start_department_contact
    Menu.return_to_main_menu Quote.start_quote Quote.new_quote_request Quote.present_quote_summary
    Quote.correct_quote Quote.confirm_quote Quote.proposal_delivery_confirmed
    Quote.proposal_response_received Attendance.take_over Attendance.return_to_bot
    Attendance.forward Attendance.mark_read Attendance.close Attendance.close_after_rejection
    Attendance.reopen_after_customer_message Attendance.resume_awaited_reply
    Attendance.resume_contextual_contact
branches = tt
