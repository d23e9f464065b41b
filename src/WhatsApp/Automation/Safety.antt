-- ===== src/WhatsApp/Automation/Safety.antt =====
-- When the automation may answer at all.
use lume_tenant_api.Base.{String, inl, inr, refl, Bool-cases, ◌≡◌, ◌⊎◌, true, false, none, arith}
use lume_tenant_api.WhatsApp.Constants.{ConversationState}
use lume_tenant_api.WhatsApp.Automation.Types.{
  AutomationEnvelope, AutomationConversation, PlanKind, AutomationPlan,
}
use lume_tenant_api.WhatsApp.Automation.Menus.{suppressed}
use lume_tenant_api.WhatsApp.Automation.Plan.{
  reply_authorized, PlanInput, current_conversation, human_automation_blocked, reply_authorized,
  decide_automation_plan,
}

-- A plan that sends nothing and moves nothing.
abbrev pub IsSilent : AutomationPlan → Type 0
IsSilent plan =
    (plan.response_message ≡ none)
    × (plan.transition_before_ai ≡ none)
    × (plan.transition_after_send ≡ none)
    × (plan.ai_mode ≡ none)

-- The bot holds the conversation, and the tenant lets the automation write and send.
pub record IsAuthorized (envelope : AutomationEnvelope) (c : AutomationConversation) : Type 0 where
  pub free : human_automation_blocked envelope.topic c ≡ false
  pub allowed : envelope.automation_allowed ≡ true
  pub generates : envelope.can_generate_reply ≡ true
  pub sends : envelope.can_send_reply ≡ true
  pub bot : c.conversation_state ≡ ConversationState.bot_active

pub reply_authorized-IsAuthorized :
    (envelope : AutomationEnvelope) (c : AutomationConversation)
    → human_automation_blocked envelope.topic c ≡ false
    → reply_authorized envelope c ≡ true
    → IsAuthorized envelope c
unfolding reply_authorized
reply_authorized-IsAuthorized envelope c free h = ground arith

module _ (lower : String → String) (input : PlanInput) where
  -- While a human is in charge the plan is to notify that human: it sends nothing to the customer,
  -- asks the model nothing and leaves the conversation where it is.
  pub blocked-IsSilent :
      human_automation_blocked input.envelope.topic (current_conversation input) ≡ true
      → ((decide_automation_plan lower input).kind ≡ PlanKind.human_notification)
        × IsSilent (decide_automation_plan lower input)
  unfolding decide_automation_plan
  blocked-IsSilent h = ground arith

  -- Whatever the plan sends, asks the model or moves, the conversation was the bot's and the tenant
  -- had authorised the automation to write and to send an answer; any other plan is silent.
  pub IsAuthorized-or_IsSilent :
      IsAuthorized input.envelope (current_conversation input)
      ⊎ IsSilent (decide_automation_plan lower input)
  unfolding decide_automation_plan suppressed
  IsAuthorized-or_IsSilent =
      elim (Bool-cases
        (human_automation_blocked input.envelope.topic (current_conversation input))) [
          | inl blocked ↦ inr (blocked-IsSilent blocked).1
          | inr free ↦
              elim (Bool-cases (reply_authorized input.envelope (current_conversation input))) [
                | inl granted ↦ inl (
                    reply_authorized-IsAuthorized input.envelope (current_conversation input) free
                      granted)
                | inr refused ↦ inr (rw (free, refused) (refl, refl, refl, refl))
              ]
        ]
