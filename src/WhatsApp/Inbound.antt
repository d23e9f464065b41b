-- ===== src/WhatsApp/Inbound.antt =====
-- infra/database/repositories/prisma-whatsapp.repository.ts: what a customer's message does to the
-- conversation before any automation: a closed one is reopened, and a conversation that waits for
-- the customer is resumed. Times are milliseconds.
pub mod Laws
pub mod History
use lume_tenant_api.Base.{
  is_some, ℕ, ◌+◌, Bool, true, false, ◌&&◌, ◌||◌, Option, none, some, ◌==◌, leb, if◌then◌else◌,
  Result, ok, ◌>>=◌, String, List, [], ◌∷◌, ◌++◌,
}
use lume_tenant_api.Base.Text.{trim, cut}
use lume_tenant_api.WhatsApp.Constants.{
  ConversationState, FlowStep, RequestStatus, MessageKind, TransitionName, ConversationSnapshot,
  state_eq, step_eq, status_eq,
}
use lume_tenant_api.WhatsApp.Transition.Guards.{ResolveTransitionInput}
use lume_tenant_api.WhatsApp.Transition.Matrix.{resolve_conversation_transition}
use lume_tenant_api.WhatsApp.Transition.Progress.{plain}

-- The columns of a conversation that a message reads or writes.
pub record ConversationRow : Type 0 where
  pub snapshot : ConversationSnapshot
  pub version : ℕ
  pub assigned_to_user_id : Option String
  pub closed_at : Option ℕ
  pub main_menu_presented_at : Option ℕ
  pub follow_up_menu_presented_at : Option ℕ
  pub contextual_follow_up_at : Option ℕ
  pub department_contact_option : Option String

abbrev pub is_text : MessageKind → Bool
is_text MessageKind.text = true
is_text _ = false

-- `contextualFollowUpAt !== null && occurredAt >= contextualFollowUpAt`.
abbrev pub follows_up : Option ℕ → ℕ → Bool
follows_up none occurred_at = false
follows_up (some since) occurred_at = leb since occurred_at

abbrev pub resumes_with : Option ConversationState → Bool
resumes_with none = false
resumes_with (some state) = state == ConversationState.bot_active

-- Which transition, if any, the message itself brings about.
unfoldable pub automatic_resume_name : MessageKind → ℕ → ConversationRow → Option TransitionName
automatic_resume_name kind occurred_at row =
    let c = row.snapshot in
    let waiting = c.conversation_state == ConversationState.waiting_for_customer in
    let awaits_summary =
      is_text kind
      && waiting
      && c.flow_step == FlowStep.quote_summary_confirmation
      && c.request_status == RequestStatus.waiting_for_customer
      && resumes_with c.resume_state in
    let awaits_proposal =
      is_text kind
      && waiting
      && c.flow_step == FlowStep.quote_send_pending
      && c.request_status == RequestStatus.waiting_for_customer in
    let follows =
      is_text kind
      && follows_up row.contextual_follow_up_at occurred_at
      && (c.request_status == RequestStatus.under_review
          || c.request_status == RequestStatus.approved
          || c.request_status == RequestStatus.rejected)
      && ((c.conversation_state == ConversationState.sent_to_human
            && c.flow_step == FlowStep.quote_send_pending)
          || (c.conversation_state == ConversationState.bot_active
              && (c.flow_step == FlowStep.quote_send_pending
                  || c.flow_step == FlowStep.commercial_follow_up_menu))) in
    if awaits_summary
    then some TransitionName.resume_awaited_reply
    else if awaits_proposal
    then some TransitionName.proposal_response_received
    else if follows
    then some TransitionName.resume_contextual_contact
    else none

-- A resumption by context, or by the answer to a proposal, forgets when the menu was shown.
abbrev pub clears_follow_up : TransitionName → Bool
clears_follow_up TransitionName.resume_contextual_contact = true
clears_follow_up TransitionName.proposal_response_received = true
clears_follow_up _ = false

abbrev pub is_closed : ConversationRow → Bool
is_closed row = is_some row.closed_at || row.snapshot.conversation_state == ConversationState.closed

unfoldable pub reopen : ConversationRow → Result ConversationRow
unfolding resolve_conversation_transition
reopen row = do
  next ←
      resolve_conversation_transition
        (plain TransitionName.reopen_after_customer_message row.snapshot)
  ok (record row {
    snapshot = record next { resume_state = none; resume_flow_step = none };
    version = row.version + 1;
    assigned_to_user_id = none;
    closed_at = none;
    main_menu_presented_at = none;
    follow_up_menu_presented_at = none;
    contextual_follow_up_at = none;
    department_contact_option = none;
  })

unfoldable pub reopen_if_closed : ConversationRow → Result ConversationRow
unfolding reopen
reopen_if_closed row = if is_closed row then reopen row else ok row

unfoldable pub resume_with : Option TransitionName → ConversationRow → Result ConversationRow
unfolding resolve_conversation_transition
resume_with none row = ok row
resume_with (some name) row = do
  next ← resolve_conversation_transition (plain name row.snapshot)
  ok (record row {
    snapshot = next;
    version = row.version + 1;
    follow_up_menu_presented_at =
        if clears_follow_up name then none else row.follow_up_menu_presented_at;
    contextual_follow_up_at = if clears_follow_up name then none else row.contextual_follow_up_at;
  })

-- An entry of the conversation's history, by the webhook. The hashes that identify the command are
-- left out, and the ids.
pub record RecordedTransition : Type 0 where
  pub name : TransitionName
  pub expected_version : ℕ
  pub resulting_version : ℕ
  pub from : ConversationSnapshot
  pub to : ConversationSnapshot

-- A conversation with the columns that every message writes, and its history.
pub record InboundConversation : Type 0 where
  pub row : ConversationRow
  pub unread_count : ℕ
  pub last_inbound_at : Option ℕ
  pub last_message_preview : Option String
  pub transitions : List RecordedTransition

pub record InboundMessage : Type 0 where
  pub kind : MessageKind
  pub text : Option String
  pub occurred_at : ℕ

abbrev recorded : TransitionName → ConversationRow → ConversationSnapshot → RecordedTransition
recorded name row next = record {
  name = name;
  expected_version = row.version;
  resulting_version = row.version + 1;
  from = row.snapshot;
  to = next;
}

abbrev pub recorded_reopening : ConversationRow → ConversationRow → List RecordedTransition
recorded_reopening row opened =
    if is_closed row
    then recorded TransitionName.reopen_after_customer_message row opened.snapshot ∷ []
    else []

abbrev pub recorded_resumption :
    Option TransitionName → ConversationRow → ConversationRow → List RecordedTransition
recorded_resumption none row next = []
recorded_resumption (some name) row next = recorded name row next.snapshot ∷ []

abbrev kind_label : MessageKind → Option String
kind_label MessageKind.text = none
kind_label MessageKind.image = some "[image]"
kind_label MessageKind.video = some "[video]"
kind_label MessageKind.audio = some "[audio]"
kind_label MessageKind.document = some "[document]"
kind_label MessageKind.sticker = some "[sticker]"
kind_label MessageKind.location = some "[location]"
kind_label MessageKind.contact = some "[contact]"
kind_label MessageKind.unknown = some "[unknown]"

-- `input.text?.trim().slice(0, 240) ?? …`.
unfoldable pub preview : InboundMessage → Option String
unfolding trim cut
preview message = elim message.text [
  | none ↦ kind_label message.kind
  | some text ↦ some (cut 240 (trim text))
]

-- What every message writes to the conversation.
unfoldable pub count_message : InboundMessage → InboundConversation → InboundConversation
unfolding preview
count_message message conversation = record conversation {
  unread_count = conversation.unread_count + 1;
  last_inbound_at = some message.occurred_at;
  last_message_preview = preview message;
}

unfoldable pub receive_message : InboundMessage → InboundConversation → Result InboundConversation
unfolding count_message
receive_message message conversation = do
  opened ← reopen_if_closed conversation.row
  next ← resume_with (automatic_resume_name message.kind message.occurred_at opened) opened
  ok (
      count_message message (record conversation {
        row = next;
        transitions =
            conversation.transitions
            ++ (recorded_reopening conversation.row opened
                ++ recorded_resumption
                    (automatic_resume_name message.kind message.occurred_at opened) opened next);
      }))
