-- ===== src/WhatsApp/Automation/Actions.antt =====
-- whatsapp-automation-flow.ts: `deriveAiActions`, what follows from the answer of the model.
use lume_tenant_api.Base.{String, Bool, true, false, ◌&&◌, ◌||◌, Option, none, some, if◌then◌else◌}
use lume_tenant_api.WhatsApp.Constants.{TransitionName}
use lume_tenant_api.WhatsApp.Automation.Types.{AiMode}

pub data CollectionStatus : Type 0 where
  collecting ready_for_summary completed human_handoff : CollectionStatus

pub data CustomerDecision : Type 0 where
  undecided confirmed correction_requested human_requested : CustomerDecision

-- The fields of `AiProviderOutput` that its actions depend on.
pub record AiProviderOutput : Type 0 where
  pub message : String
  pub collection_status : CollectionStatus
  pub summary_presented : Bool
  pub customer_decision : CustomerDecision

pub record AiActions : Type 0 where
  pub send_message : Bool
  pub transition_before_send : Option TransitionName
  pub transition_after_send : Option TransitionName
  pub human_reason : Option String

abbrev actions : Option TransitionName → Option TransitionName → Option String → AiActions
actions before after reason = record {
  send_message = true;
  transition_before_send = before;
  transition_after_send = after;
  human_reason = reason;
}

abbrev is_handoff : CollectionStatus → Bool
is_handoff human_handoff = true
is_handoff _ = false

abbrev is_completed : CollectionStatus → Bool
is_completed completed = true
is_completed _ = false

abbrev is_ready : CollectionStatus → Bool
is_ready ready_for_summary = true
is_ready _ = false

abbrev is_pretriage : AiMode → Bool
is_pretriage AiMode.continuous_pretriage = true
is_pretriage _ = false

-- The branches below the three decisions of the customer.
unfoldable pub derive_from_status : AiProviderOutput → AiMode → AiActions
derive_from_status output mode =
    if is_handoff output.collection_status
    then actions none (some TransitionName.forward) (some "customer-requested-human")
    else if is_pretriage mode && is_completed output.collection_status
    then actions none (some TransitionName.forward) (some "continuous-pretriage-completed")
    else if output.summary_presented || is_ready output.collection_status
    then actions none (some TransitionName.present_quote_summary) none
    else actions none none none

unfoldable pub derive_by_decision : CustomerDecision → AiProviderOutput → AiMode → AiActions
unfolding derive_from_status
derive_by_decision confirmed output mode =
    actions none (some TransitionName.confirm_quote) (some "quote-summary-confirmed")
derive_by_decision correction_requested output mode =
    actions (some TransitionName.correct_quote) none none
derive_by_decision human_requested output mode =
    actions none (some TransitionName.forward) (some "customer-requested-human")
derive_by_decision undecided output mode = derive_from_status output mode

unfoldable pub derive_ai_actions : AiProviderOutput → AiMode → AiActions
unfolding derive_by_decision
derive_ai_actions output mode = derive_by_decision output.customer_decision output mode
