-- ===== src/WhatsApp/Transition/Custody.antt =====
-- Who holds a conversation: taking over, handing back, closing, and what the bot may still do.
use lume_tenant_api.Base.{
  inl, inr, refl, sym, ◌≡◌, ◌⊎◌, none, ok, ◌>>=◌, arith, includes, if◌then◌else◌,
}
use lume_tenant_api.WhatsApp.Constants.{
  ConversationState, FlowStep, TransitionName, ConversationSnapshot, status_eq, state_eq,
}
use lume_tenant_api.WhatsApp.Transition.Actors.{TransitionActor, user, system}
use lume_tenant_api.WhatsApp.Transition.Guards.{
  ResolveTransitionInput, resolve_bot_flow_step, follow_up_request_statuses,
}
use lume_tenant_api.WhatsApp.Transition.Matrix.{branches, resolve_branch, run_command}
use lume_tenant_api.WhatsApp.Transition.Invariant.{IsBotStep}
use lume_tenant_api.WhatsApp.Transition.Attendance

close_lem :
    (input : ResolveTransitionInput) (s : ConversationSnapshot)
    → Attendance.close input ≡ ok s
    → Attendance.closing input.current ≡ s
unfolding Attendance.close
close_lem input s h = ground arith

close_after_rejection_lem :
    (c s : ConversationSnapshot)
    → Attendance.close_after_rejection c ≡ ok s
    → Attendance.closing c ≡ s
unfolding Attendance.close_after_rejection
close_after_rejection_lem c s h = ground arith

closing_branch :
    (name : TransitionName) (input : ResolveTransitionInput) (s : ConversationSnapshot)
    → resolve_branch name input ≡ ok s
    → s.conversation_state ≡ ConversationState.closed
    → ((name ≡ TransitionName.close) ⊎ (name ≡ TransitionName.close_after_rejection))
      × (s ≡ Attendance.closing input.current)
unfolding branches
closing_branch TransitionName.close input s h c = (inl refl, sym (close_lem input s h))
closing_branch TransitionName.close_after_rejection input s h c =
    (inr refl, sym (close_after_rejection_lem input.current s h))
closing_branch _ input s h c = ground arith

-- Only a user closes a conversation, by one of the two closing transitions, and closing keeps its
-- department and the status of its request.
pub closed_by_user :
    (actor : TransitionActor) (input : ResolveTransitionInput) (s : ConversationSnapshot)
    → run_command actor input ≡ ok s
    → s.conversation_state ≡ ConversationState.closed
    → (actor ≡ user)
      × ((input.name ≡ TransitionName.close) ⊎ (input.name ≡ TransitionName.close_after_rejection))
      × (s.department ≡ input.current.department)
      × (s.request_status ≡ input.current.request_status)
      × (s.flow_step ≡ FlowStep.closed)
unfolding run_command
closed_by_user actor input s h c = ground (arith, closing_branch input.name input s)

held_branch :
    (name : TransitionName) (input : ResolveTransitionInput) (s : ConversationSnapshot)
    → resolve_branch name input ≡ ok s
    → input.current.conversation_state ≡ ConversationState.human_active
    → (name ≡ TransitionName.take_over)
      ⊎ (name ≡ TransitionName.return_to_bot)
      ⊎ (name ≡ TransitionName.forward)
      ⊎ (name ≡ TransitionName.mark_read)
      ⊎ (name ≡ TransitionName.close)
      ⊎ (name ≡ TransitionName.close_after_rejection)
      ⊎ (name ≡ TransitionName.proposal_delivery_confirmed)
unfolding branches
held_branch TransitionName.take_over input s h c = ground arith
held_branch _ input s h c = ground arith

-- While a human holds a conversation, no transition is accepted from its customer's messages, and of
-- the system only those that forward it or record that its proposal was delivered.
pub human_held :
    (actor : TransitionActor) (input : ResolveTransitionInput) (s : ConversationSnapshot)
    → run_command actor input ≡ ok s
    → input.current.conversation_state ≡ ConversationState.human_active
    → (actor ≡ user)
      ⊎ ((actor ≡ system)
          × ((input.name ≡ TransitionName.forward)
              ⊎ (input.name ≡ TransitionName.proposal_delivery_confirmed)))
unfolding run_command
human_held actor input s h c = ground (arith, held_branch input.name input s)

-- A user who takes over a conversation at a step of the bot, with no step to resume stored, and hands
-- it back leaves it with the bot, at the follow-up menu if its request has one of the statuses of a
-- follow-up and otherwise at the step where it was, with nothing to resume and the rest unchanged.
pub take_over-return_to_bot :
    (c : ConversationSnapshot)
    → IsBotStep c.flow_step
    → c.resume_flow_step ≡ none
    → (Attendance.take_over c >>= Attendance.return_to_bot)
      ≡ ok (record c {
        conversation_state = ConversationState.bot_active;
        flow_step =
            if includes follow_up_request_statuses c.request_status
            then FlowStep.commercial_follow_up_menu
            else c.flow_step;
        resume_state = none;
        resume_flow_step = none;
      })
unfolding Attendance.take_over Attendance.return_to_bot resolve_bot_flow_step
take_over-return_to_bot c b r = ground arith
