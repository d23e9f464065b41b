-- ===== src/WhatsApp/Transition/Invariant.antt =====
-- What every transition keeps of a conversation's snapshot.
use lume_tenant_api.Base.{◌≡◌, ◌⊎◌, Option, none, some, ok, arith}
use lume_tenant_api.Access.Departments.{Department}
use lume_tenant_api.WhatsApp.Constants.{
  ConversationState, FlowStep, TransitionName, ConversationSnapshot,
}
use lume_tenant_api.WhatsApp.Transition.Guards.{ResolveTransitionInput, resolve_bot_flow_step}
use lume_tenant_api.WhatsApp.Transition.Matrix.{
  branches, resolve_branch, resolve_conversation_transition,
}

-- A step that the bot serves.
abbrev pub IsBotStep : FlowStep → Type 0
IsBotStep FlowStep.quote_send_pending = ⊥
IsBotStep FlowStep.human_service = ⊥
IsBotStep FlowStep.closed = ⊥
IsBotStep _ = Unit {0}

-- Where a resumption may lead, and from where.
abbrev pub ResumesBot : Option FlowStep → Type 0
ResumesBot none = Unit {0}
ResumesBot (some step) = IsBotStep step

abbrev pub ResumesActive : Option ConversationState → Type 0
ResumesActive none = Unit {0}
ResumesActive (some state) = state ≡ ConversationState.bot_active

pub record IsConsistent (c : ConversationSnapshot) : Type 0 where
  pub closed_step : c.conversation_state ≡ ConversationState.closed → c.flow_step ≡ FlowStep.closed
  pub closed_state : c.flow_step ≡ FlowStep.closed → c.conversation_state ≡ ConversationState.closed
  pub human_step :
      c.flow_step ≡ FlowStep.human_service
      → (c.conversation_state ≡ ConversationState.sent_to_human)
        ⊎ (c.conversation_state ≡ ConversationState.human_active)
  pub proposal_department :
      c.conversation_state ≡ ConversationState.waiting_for_customer
      → c.flow_step ≡ FlowStep.quote_send_pending
      → c.department ≡ Department.commercial
  pub resume_step : ResumesBot c.resume_flow_step
  pub resume_active : ResumesActive c.resume_state

pub resolve_bot_flow_step-IsBotStep :
    (c : ConversationSnapshot) → IsBotStep (resolve_bot_flow_step c)
unfolding resolve_bot_flow_step
resolve_bot_flow_step-IsBotStep c = ground arith

-- The checks of a branch and its result are in sight; the computed flow step stays shut.
resolve_branch-IsConsistent :
    (name : TransitionName) (input : ResolveTransitionInput) (s : ConversationSnapshot)
    → resolve_branch name input ≡ ok s
    → IsConsistent input.current
    → IsConsistent s
unfolding branches
resolve_branch-IsConsistent TransitionName.present_main_menu input s h v = ground arith
resolve_branch-IsConsistent _ input s h v =
    ground (arith, resolve_bot_flow_step-IsBotStep input.current)

-- Every accepted transition keeps a conversation consistent: closed in state exactly when closed in
-- flow, at human service only while a human holds it or it waits for one, with the commercial
-- department while it waits for the answer to a delivered proposal, and with a resumption, if any,
-- that leads from the active bot to a step that the bot serves.
pub resolve-IsConsistent :
    (input : ResolveTransitionInput) (s : ConversationSnapshot)
    → resolve_conversation_transition input ≡ ok s
    → IsConsistent input.current
    → IsConsistent s
unfolding resolve_conversation_transition
resolve-IsConsistent input s h v = resolve_branch-IsConsistent input.name input s h v
