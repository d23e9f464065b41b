-- ===== src/WhatsApp/Automation/Acceptance.antt =====
-- The transitions of the menus' plans are transitions that the matrix accepts.
use mathlib.Core.Bool.{false≢true}
use lume_tenant_api.Base.{
  Bool, sym, ◌∙◌, String, ◌≡◌, ◌⊎◌, refl, true, false, Option, none, some, arith, string_eq,
  includes,
}
use lume_tenant_api.Base.Objects.{read_key-All, object_prototype_names}
use lume_tenant_api.Access.Departments.{Department}
use lume_tenant_api.WhatsApp.Constants.{
  RequestStatus, TransitionName, ConversationState, FlowStep, ConversationSnapshot,
}
use lume_tenant_api.WhatsApp.Transition.Guards.{ClosePolicy}
use lume_tenant_api.WhatsApp.Transition.Matrix.{branches}
use lume_tenant_api.WhatsApp.Automation.Types.{AiMode, Reason, AutomationConversation}
use lume_tenant_api.WhatsApp.Automation.Contacts.{
  director_contact, as_contact, department_contacts, DepartmentContact, find_contact,
}
use lume_tenant_api.WhatsApp.Transition.Menu.{is_department_option}
use lume_tenant_api.WhatsApp.Automation.Execution.{follow_plan, is_ok}
use lume_tenant_api.WhatsApp.Automation.Menus.{
  contact_or_prompt, commercial_selected, reason_or_menu, follow_up_handoff,
  department_notification, main_menu_plan, contact_plan, ai_plan,
}

-- A contact that a menu finds under its own key.
abbrev pub IsOwnContact : String → Option DepartmentContact → Type 0
IsOwnContact option none = Unit {0}
IsOwnContact option (some department) =
    (is_department_option (some option) ≡ true)
    × (t : Department) × (department.target_department ≡ some t)

own_key : {t : Department} → ◌≡◌ {A = Bool} true true × (x : Department) × (some t ≡ some x)
own_key {t} = (refl, t, refl)

pub find_contact-IsOwnContact :
    (option : String)
    → includes object_prototype_names option ≡ false
    → IsOwnContact option (find_contact option)
unfolding find_contact is_department_option
find_contact-IsOwnContact option h =
    read_key-All (λ key found. IsOwnContact key (as_contact found)) department_contacts option tt
      (λ named. absurd (false≢true (sym h ∙ named)))
      (
        own_key,
        (own_key, (own_key, (own_key, (own_key, (own_key, (own_key, (own_key, (own_key, tt)))))))),
      )

module _ (policy : Option ClosePolicy) (c : ConversationSnapshot)
    (bot : c.conversation_state ≡ ConversationState.bot_active) where
  pub commercial_selected_accepted :
      (conversation : AutomationConversation)
      → c.flow_step ≡ FlowStep.main_menu
      → is_ok (follow_plan policy (commercial_selected conversation) c) ≡ true
  unfolding follow_plan branches commercial_selected
  commercial_selected_accepted conversation m = ground arith

  pub contact_or_prompt_accepted :
      (option : String) (found : Option DepartmentContact)
      → (c.flow_step ≡ FlowStep.main_menu) ⊎ (c.flow_step ≡ FlowStep.commercial_menu)
      → IsOwnContact option found
      → is_ok (follow_plan policy (contact_or_prompt option found) c) ≡ true
  unfolding follow_plan branches contact_or_prompt
  contact_or_prompt_accepted option none m own = ground arith
  contact_or_prompt_accepted option (some department) m (key, t, target) = ground arith

  -- The plans of the commercial menu, of the follow-up menu, and of a contact that was collected.
  pub reason_or_menu_accepted :
      (option : String) (reason : Option Reason)
      → is_ok (follow_plan policy (reason_or_menu option reason) c) ≡ true
  unfolding follow_plan branches reason_or_menu
  reason_or_menu_accepted option none = ground arith
  reason_or_menu_accepted option (some reason) = ground arith

  pub follow_up_handoff_accepted :
      (reason : Option Reason) → is_ok (follow_plan policy (follow_up_handoff reason) c) ≡ true
  unfolding follow_plan branches follow_up_handoff
  follow_up_handoff_accepted none = ground arith
  follow_up_handoff_accepted (some reason) = ground arith

  pub department_notification_accepted :
      (option text phone : String) (found : Option DepartmentContact)
      → is_ok (follow_plan policy (department_notification option text phone found) c) ≡ true
  unfolding follow_plan branches department_notification
  department_notification_accepted option text phone none = ground arith
  department_notification_accepted option text phone (some department) = ground arith

  pub main_menu_plan_accepted :
      (reason : String) → is_ok (follow_plan policy (main_menu_plan reason) c) ≡ true
  unfolding follow_plan branches
  main_menu_plan_accepted reason = ground arith

  pub director_contact_accepted :
      (reason : String)
      → c.flow_step ≡ FlowStep.commercial_menu
      → is_ok (
          follow_plan policy
            (contact_plan director_contact.target_department "commercial-continuous-director"
              reason)
            c)
        ≡ true
  unfolding follow_plan branches is_department_option
  director_contact_accepted reason m = ground arith

  pub start_quote_accepted :
      (reason : String)
      → c.flow_step ≡ FlowStep.commercial_menu
      → c.request_status ≡ RequestStatus.not_started
      → is_ok (
          follow_plan policy
            (ai_plan AiMode.eventual_quote (some TransitionName.start_quote) reason)
            c)
        ≡ true
  unfolding follow_plan branches ai_plan
  start_quote_accepted reason m r = ground arith

-- A contact without a department starts no contact, wherever the conversation stands.
pub contactless_refused :
    (policy : Option ClosePolicy) (c : ConversationSnapshot) (option : String)
    (department : DepartmentContact)
    → department.target_department ≡ none
    → is_ok (follow_plan policy (contact_or_prompt option (some department)) c) ≡ false
unfolding follow_plan branches contact_or_prompt
contactless_refused policy c option department e = ground arith
