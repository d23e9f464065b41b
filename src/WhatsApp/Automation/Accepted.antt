-- ===== src/WhatsApp/Automation/Accepted.antt =====
-- Whatever plan the automation decides on, the matrix accepts its transitions.
use lume_tenant_api.Base.{
  String, ◌≡◌, ◌⊎◌, inl, inr, refl, true, false, Option, none, some, arith, Bool-cases, ◌==◌,
  string_eq, includes,
}
use lume_tenant_api.Base.Objects.{object_prototype_names, present}
use lume_tenant_api.Base.Text.{is_blank}
use lume_tenant_api.WhatsApp.Constants.{
  ConversationState, FlowStep, RequestStatus, ConversationSnapshot,
}
use lume_tenant_api.WhatsApp.Transition.Guards.{ClosePolicy}
use lume_tenant_api.WhatsApp.Transition.Matrix.{branches}
use lume_tenant_api.WhatsApp.Automation.Types.{AutomationConversation, AutomationEnvelope}
use lume_tenant_api.WhatsApp.Automation.Contacts.{
  inherited_contact, find_contact, human_reason, follow_up_human_reason,
}
use lume_tenant_api.WhatsApp.Automation.Execution.{follow_plan, is_ok, snapshot_of}
use lume_tenant_api.WhatsApp.Automation.Menus.{
  normalized_option, decide_main_menu, decide_commercial_menu, decide_commercial_follow_up_menu,
  decide_department_contact, suppressed,
}
use lume_tenant_api.WhatsApp.Automation.Plan.{
  PlanInput, is_text, current_conversation, plan_text, human_automation_blocked, reply_authorized,
  initial_menu_required, initial_menu_plan, unsupported_kind_plan, decide_by_flow_step,
  decide_by_text, decide_contact_or_text, decide_automation_plan,
}
use lume_tenant_api.WhatsApp.Automation.Safety.{reply_authorized-IsAuthorized}
use lume_tenant_api.WhatsApp.Automation.Acceptance.{
  contactless_refused, find_contact-IsOwnContact, start_quote_accepted, director_contact_accepted,
  commercial_selected_accepted, contact_or_prompt_accepted, reason_or_menu_accepted,
  follow_up_handoff_accepted, department_notification_accepted, main_menu_plan_accepted,
}

module _ (lower : String → String) (policy : Option ClosePolicy) (row : ConversationSnapshot)
    (c : AutomationConversation) (bot : c.conversation_state ≡ ConversationState.bot_active) where
  main_menu_accepted :
      (text : String)
      → c.flow_step ≡ FlowStep.main_menu
      → includes object_prototype_names (normalized_option lower text) ≡ false
      → is_ok (follow_plan policy (decide_main_menu lower text c) (snapshot_of c row)) ≡ true
  unfolding decide_main_menu
  main_menu_accepted text m own = elim (Bool-cases (normalized_option lower text == "1")) [
    | inl one ↦ rw one (commercial_selected_accepted policy (snapshot_of c row) bot c m)
    | inr other ↦ rw other (
        contact_or_prompt_accepted policy (snapshot_of c row) bot (normalized_option lower text)
          (find_contact (normalized_option lower text)) (inl m)
          (find_contact-IsOwnContact (normalized_option lower text) own))
  ]

  commercial_menu_accepted :
      (text : String)
      → c.flow_step ≡ FlowStep.commercial_menu
      → c.request_status ≡ RequestStatus.not_started
      → is_ok (follow_plan policy (decide_commercial_menu lower text) (snapshot_of c row)) ≡ true
  unfolding decide_commercial_menu
  commercial_menu_accepted text m r =
      let option = normalized_option lower text in
      elim (Bool-cases (option == "1")) [
        | inl one ↦
            rw one (start_quote_accepted policy (snapshot_of c row) bot "start-eventual-quote" m r)
        | inr other ↦ elim (Bool-cases (option == "2")) [
          | inl two ↦
              rw (other, two)
                (director_contact_accepted policy (snapshot_of c row) bot
                  "continuous-quote-director-contact-requested" m)
          | inr neither ↦
              rw (other, neither)
                (reason_or_menu_accepted policy (snapshot_of c row) bot option
                  (human_reason option))
        ]
      ]

  follow_up_accepted :
      (text : String)
      → is_ok (follow_plan policy (decide_commercial_follow_up_menu lower text) (snapshot_of c row))
        ≡ true
  unfolding decide_commercial_follow_up_menu
  follow_up_accepted text =
      let option = normalized_option lower text in
      elim (Bool-cases (option == "0")) [
        | inl zeroth ↦
            rw zeroth (main_menu_plan_accepted policy (snapshot_of c row) bot "return-to-main-menu")
        | inr other ↦ rw other (
            follow_up_handoff_accepted policy (snapshot_of c row) bot
              (follow_up_human_reason option))
      ]

  -- Where the conversation stands for the plan of a text.
  pub record IsReady (text : String) : Type 0 where
    pub own_option : includes object_prototype_names (normalized_option lower text) ≡ false
    pub unstarted :
        c.flow_step ≡ FlowStep.commercial_menu → c.request_status ≡ RequestStatus.not_started

  flow_step_accepted :
      (step : FlowStep) (text : String)
      → c.flow_step ≡ step
      → IsReady text
      → is_ok (follow_plan policy (decide_by_flow_step lower step text c) (snapshot_of c row))
        ≡ true
  unfolding decide_by_flow_step follow_plan
  flow_step_accepted FlowStep.main_menu text e v = main_menu_accepted text e v.own_option
  flow_step_accepted FlowStep.commercial_menu text e v =
      commercial_menu_accepted text e (v.unstarted e)
  flow_step_accepted FlowStep.commercial_follow_up_menu text e v = follow_up_accepted text
  flow_step_accepted _ text e v = refl

  text_accepted :
      (envelope : AutomationEnvelope) (text : String)
      → IsReady text
      → is_ok (follow_plan policy (decide_by_text lower envelope c text) (snapshot_of c row)) ≡ true
  unfolding decide_by_text follow_plan
  text_accepted envelope text v =
      ground (arith, follow_up_accepted text, flow_step_accepted c.flow_step text refl v)

  contact_or_text_accepted :
      (envelope : AutomationEnvelope) (text : String) (option : Option String)
      → IsReady text
      → is_ok (
          follow_plan policy
            (decide_contact_or_text lower envelope c text option)
            (snapshot_of c row))
        ≡ true
  unfolding decide_contact_or_text decide_department_contact
  contact_or_text_accepted envelope text none v = text_accepted envelope text v
  contact_or_text_accepted envelope text (some option) v = elim (Bool-cases (is_blank option)) [
    | inl blank ↦ rw blank (text_accepted envelope text v)
    | inr stored ↦ rw stored (
        department_notification_accepted policy (snapshot_of c row) bot option text
          envelope.contact_phone (find_contact option))
  ]

  initial_menu_accepted :
      (envelope : AutomationEnvelope)
      → c.flow_step ≡ FlowStep.main_menu
      → is_ok (follow_plan policy (initial_menu_plan envelope) (snapshot_of c row)) ≡ true
  unfolding initial_menu_plan follow_plan branches
  initial_menu_accepted envelope m = ground arith

-- If the option is no name that object literals inherit, no quote request was begun while the
-- conversation is at the commercial menu, and an initial menu that is still due finds the
-- conversation at the main menu, then the matrix accepts, from the system, every transition of the
-- plan that is decided on, those before the answer and those after it.
pub decide_automation_plan-accepted :
    (lower : String → String) (policy : Option ClosePolicy) (input : PlanInput)
    (row : ConversationSnapshot)
    → includes object_prototype_names (normalized_option lower (plan_text input)) ≡ false
    → ((current_conversation input).flow_step ≡ FlowStep.commercial_menu
        → (current_conversation input).request_status ≡ RequestStatus.not_started)
    → (initial_menu_required input.envelope (current_conversation input) ≡ true
        → (current_conversation input).flow_step ≡ FlowStep.main_menu)
    → is_ok (
        follow_plan policy
          (decide_automation_plan lower input)
          (snapshot_of (current_conversation input) row))
      ≡ true
unfolding decide_automation_plan follow_plan
decide_automation_plan-accepted lower policy input row own unstarted initial =
    let c = current_conversation input in
    let e = input.envelope in
    elim (Bool-cases (human_automation_blocked e.topic c)) [
      | inl blocked ↦ rw blocked
      | inr free ↦ elim (Bool-cases (reply_authorized e c)) [
        | inr refused ↦ rw (free, refused) (unfold suppressed in refl)
        | inl granted ↦
            let bot = (reply_authorized-IsAuthorized e c free granted).bot in
            let v : IsReady lower policy row c bot (plan_text input) = record {
              own_option = own;
              unstarted = unstarted;
            } in
            elim (Bool-cases (initial_menu_required e c)) [
              | inl due ↦
                  rw (free, granted, due)
                    (initial_menu_accepted lower policy row c bot e (initial due))
              | inr shown ↦ elim (Bool-cases (is_text e.message_kind)) [
                | inl text ↦
                    rw (free, granted, shown, text)
                      (contact_or_text_accepted lower policy row c bot e (plan_text input)
                        (present c.department_contact_option) v)
                | inr other ↦
                    rw (free, granted, shown, other) (unfold unsupported_kind_plan in refl)
              ]
            ]
      ]
    ]

-- An option that is a name of `Object.prototype` finds a contact without a department at the main
-- menu, and the plan's transition is then refused: the customer is left without an answer.
pub decide_main_menu_inherited :
    (lower : String → String) (policy : Option ClosePolicy) (row : ConversationSnapshot)
    (c : AutomationConversation) (text : String)
    → (normalized_option lower text ≡ "constructor") ⊎ (normalized_option lower text ≡ "__proto__")
    → is_ok (follow_plan policy (decide_main_menu lower text c) (snapshot_of c row)) ≡ false
unfolding decide_main_menu find_contact
decide_main_menu_inherited lower policy row c text (inl e) =
    rw e (contactless_refused policy (snapshot_of c row) "constructor" inherited_contact refl)
decide_main_menu_inherited lower policy row c text (inr e) =
    rw e (contactless_refused policy (snapshot_of c row) "__proto__" inherited_contact refl)
