-- ===== src/WhatsApp/Automation/Execution.antt =====
-- infra/integrations/whatsapp/api-whatsapp-automation.provider.ts: the transitions that the
-- provider asks for when it carries a plan out, each as the system actor.
use lume_tenant_api.Base.{Bool, true, false, Option, none, some, Result, ok, err, ◌>>=◌}
use lume_tenant_api.WhatsApp.Constants.{TransitionName, ConversationSnapshot}
use lume_tenant_api.WhatsApp.Transition.Actors.{system}
use lume_tenant_api.WhatsApp.Transition.Guards.{ClosePolicy, ResolveTransitionInput}
use lume_tenant_api.WhatsApp.Transition.Matrix.{run_command}
use lume_tenant_api.WhatsApp.Automation.Types.{
  TransitionMetadata, AutomationPlan, AutomationConversation,
}

-- The snapshot of a conversation; where it may be resumed is not shown to the automation.
abbrev pub snapshot_of : AutomationConversation → ConversationSnapshot → ConversationSnapshot
snapshot_of c row = record row {
  department = c.department;
  conversation_state = c.conversation_state;
  flow_step = c.flow_step;
  request_status = c.request_status;
  resume_state = c.resume_state;
}

abbrev pub metadata_input :
    Option TransitionMetadata
    → TransitionName
    → ConversationSnapshot
    → Option ClosePolicy
    → ResolveTransitionInput
metadata_input none name current policy = record {
  current = current;
  name = name;
  target_department = none;
  department_option = none;
  policy = policy;
}
metadata_input (some metadata) name current policy = record {
  current = current;
  name = name;
  target_department = metadata.target_department;
  department_option = metadata.department_option;
  policy = policy;
}

-- `if (name) conversation = await this.transition(…)`.
unfoldable pub follow_transition :
    Option ClosePolicy
    → Option TransitionMetadata
    → Option TransitionName
    → ConversationSnapshot
    → Result ConversationSnapshot
unfolding run_command
follow_transition policy metadata none current = ok current
follow_transition policy metadata (some name) current =
    run_command system (metadata_input metadata name current policy)

-- The transitions of a plan whose answer is not left to the model.
unfoldable pub follow_plan :
    Option ClosePolicy → AutomationPlan → ConversationSnapshot → Result ConversationSnapshot
unfolding follow_transition
follow_plan policy plan current = do
  before ← follow_transition policy plan.transition_metadata plan.transition_before_ai current
  follow_transition policy plan.transition_metadata plan.transition_after_send before

abbrev pub is_ok : {A : Type 0} → Result A → Bool
is_ok (ok a) = true
is_ok (err e) = false
