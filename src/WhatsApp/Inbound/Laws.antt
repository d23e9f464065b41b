-- ===== src/WhatsApp/Inbound/Laws.antt =====
-- A customer's message is never refused, and leaves the conversation open and consistent.
use lume_tenant_api.Base.{
  ◌==◌, is_some, ℕ, ◌+◌, ◌≤◌, ◌≡◌, ◌≢◌, ◌⊎◌, inl, inr, refl, true, false, none, some, ok, arith,
  ◌>>=◌, Result, Bool-cases, Option-cases,
}
use lume_tenant_api.Access.Departments.{Department}
use lume_tenant_api.WhatsApp.Constants.{
  ConversationState, FlowStep, RequestStatus, MessageKind, TransitionName, state_eq, state_beq_iff,
}
use lume_tenant_api.WhatsApp.Transition.Matrix.{branches}
use lume_tenant_api.WhatsApp.Transition.Invariant.{IsConsistent}
use lume_tenant_api.WhatsApp.Inbound.{
  ConversationRow, automatic_resume_name, reopen, reopen_if_closed, resume_with,
}

-- A row whose snapshot is consistent, that has a closing time only while it is closed, and an
-- assigned user exactly while a human is active.
pub record IsConsistentRow (row : ConversationRow) : Type 0 where
  pub consistent : IsConsistent row.snapshot
  pub closed_state :
      is_some row.closed_at ≡ true → row.snapshot.conversation_state ≡ ConversationState.closed
  pub assigned :
      row.snapshot.conversation_state ≡ ConversationState.human_active
      → is_some row.assigned_to_user_id ≡ true
  pub unassigned :
      is_some row.assigned_to_user_id ≡ true
      → row.snapshot.conversation_state ≡ ConversationState.human_active

-- What a step that a message brings about may do to a row.
pub record IsReceived (row next : ConversationRow) : Type 0 where
  pub consistent : IsConsistentRow next
  pub stays_open : next.snapshot.conversation_state ≢ ConversationState.closed
  pub version_grows : row.version ≤ next.version
  pub version_bounded : next.version ≤ row.version + 1
  pub human_kept : row.snapshot.conversation_state ≡ ConversationState.human_active → next ≡ row
  pub reopened :
      row.snapshot.conversation_state ≡ ConversationState.closed
      → (next.snapshot.flow_step ≡ FlowStep.main_menu)
        × (next.snapshot.department ≡ Department.commercial)
        × (next.main_menu_presented_at ≡ none)

-- The row that reopening leaves.
abbrev reopened_row : ConversationRow → ConversationRow
reopened_row row = record row {
  snapshot = record row.snapshot {
    department = Department.commercial;
    conversation_state = ConversationState.bot_active;
    flow_step = FlowStep.main_menu;
    resume_state = none;
    resume_flow_step = none;
  };
  version = row.version + 1;
  assigned_to_user_id = none;
  closed_at = none;
  main_menu_presented_at = none;
  follow_up_menu_presented_at = none;
  contextual_follow_up_at = none;
  department_contact_option = none;
}

reopen_lem :
    (row : ConversationRow)
    → IsConsistentRow row
    → row.snapshot.conversation_state ≡ ConversationState.closed
    → reopen row ≡ ok (reopened_row row)
unfolding reopen branches
reopen_lem row v c = ground arith

-- What is known of a row when a resumption is chosen for it.
abbrev Chosen : TransitionName → ConversationRow → Type 0
Chosen TransitionName.resume_awaited_reply row =
    (row.snapshot.conversation_state ≡ ConversationState.waiting_for_customer)
    × (row.snapshot.flow_step ≡ FlowStep.quote_summary_confirmation)
    × (row.snapshot.request_status ≡ RequestStatus.waiting_for_customer)
    × (row.snapshot.resume_state ≡ some ConversationState.bot_active)
Chosen TransitionName.proposal_response_received row =
    (row.snapshot.conversation_state ≡ ConversationState.waiting_for_customer)
    × (row.snapshot.flow_step ≡ FlowStep.quote_send_pending)
    × (row.snapshot.request_status ≡ RequestStatus.waiting_for_customer)
Chosen TransitionName.resume_contextual_contact row =
    ((row.snapshot.request_status ≡ RequestStatus.under_review)
      ⊎ (row.snapshot.request_status ≡ RequestStatus.approved)
      ⊎ (row.snapshot.request_status ≡ RequestStatus.rejected))
    × (((row.snapshot.conversation_state ≡ ConversationState.sent_to_human)
          × (row.snapshot.flow_step ≡ FlowStep.quote_send_pending))
        ⊎ ((row.snapshot.conversation_state ≡ ConversationState.bot_active)
            × ((row.snapshot.flow_step ≡ FlowStep.quote_send_pending)
                ⊎ (row.snapshot.flow_step ≡ FlowStep.commercial_follow_up_menu))))
Chosen _ row = ⊥

automatic_resume_name-Chosen :
    (kind : MessageKind) (now : ℕ) (row : ConversationRow) (name : TransitionName)
    → automatic_resume_name kind now row ≡ some name
    → Chosen name row
unfolding automatic_resume_name
automatic_resume_name-Chosen kind now row TransitionName.resume_awaited_reply h = ground arith
automatic_resume_name-Chosen kind now row _ h = ground arith

resume-Chosen :
    (name : TransitionName) (row : ConversationRow)
    → Chosen name row
    → IsConsistentRow row
    → (next : ConversationRow) × (resume_with (some name) row ≡ ok next) × IsReceived row next
unfolding resume_with branches
resume-Chosen TransitionName.resume_awaited_reply row c v = (
  record row {
    snapshot = record row.snapshot {
      conversation_state = ConversationState.bot_active;
      resume_state = none;
      resume_flow_step = none;
    };
    version = row.version + 1;
  },
  ground arith,
  ground arith,
)
resume-Chosen TransitionName.proposal_response_received row c v = (
  record row {
    snapshot = record row.snapshot {
      conversation_state = ConversationState.sent_to_human;
      flow_step = FlowStep.human_service;
      resume_state = none;
      resume_flow_step = some FlowStep.commercial_follow_up_menu;
    };
    version = row.version + 1;
    follow_up_menu_presented_at = none;
    contextual_follow_up_at = none;
  },
  ground arith,
  ground arith,
)
resume-Chosen TransitionName.resume_contextual_contact row c v = (
  record row {
    snapshot = record row.snapshot {
      department = Department.commercial;
      conversation_state = ConversationState.bot_active;
      flow_step = FlowStep.commercial_follow_up_menu;
      resume_state = none;
      resume_flow_step = none;
    };
    version = row.version + 1;
    follow_up_menu_presented_at = none;
    contextual_follow_up_at = none;
  },
  ground arith,
  ground arith,
)
resume-Chosen _ row c v = absurd c

closed_row :
    (row : ConversationRow)
    → row.snapshot.conversation_state ≡ ConversationState.closed
    → reopen_if_closed row ≡ reopen row
unfolding reopen_if_closed
closed_row row c = ground arith

open_row :
    (row : ConversationRow)
    → IsConsistentRow row
    → (row.snapshot.conversation_state == ConversationState.closed) ≡ false
    → reopen_if_closed row ≡ ok row
unfolding reopen_if_closed
open_row row v o = ground arith

-- The message of an open conversation.
resume_lem :
    (kind : MessageKind) (now : ℕ) (row : ConversationRow)
    → IsConsistentRow row
    → row.snapshot.conversation_state ≢ ConversationState.closed
    → (next : ConversationRow) × (resume_with (automatic_resume_name kind now row) row ≡ ok next)
      × IsReceived row next
unfolding resume_with
resume_lem kind now row v o = elim (Option-cases (automatic_resume_name kind now row)) [
  | inl idle ↦ (row, rw idle refl, ground arith)
  | inr (name, chosen) ↦
      let (next, done, received) =
        resume-Chosen name row (automatic_resume_name-Chosen kind now row name chosen) v in
      (next, rw chosen done, received)
]

-- A conversation that was just reopened waits for nothing.
reopened_idle :
    (kind : MessageKind) (now : ℕ) (row : ConversationRow)
    → resume_with (automatic_resume_name kind now (reopened_row row)) (reopened_row row)
      ≡ ok (reopened_row row)
unfolding resume_with automatic_resume_name
reopened_idle kind now row = ground arith

reopened-IsReceived :
    (row : ConversationRow)
    → row.snapshot.conversation_state ≡ ConversationState.closed
    → IsReceived row (reopened_row row)
reopened-IsReceived row c = ground arith

-- The state of a conversation after a message, before the message is counted.
abbrev pub advance : MessageKind → ℕ → ConversationRow → Result ConversationRow
advance kind occurred_at row = do
  opened ← reopen_if_closed row
  resume_with (automatic_resume_name kind occurred_at opened) opened

pub advance-IsReceived :
    (kind : MessageKind) (now : ℕ) (row : ConversationRow)
    → IsConsistentRow row
    → (next : ConversationRow) × (advance kind now row ≡ ok next) × IsReceived row next
advance-IsReceived kind now row v =
    elim (Bool-cases (row.snapshot.conversation_state == ConversationState.closed)) [
      | inl c ↦
          let closed =
            (state_beq_iff row.snapshot.conversation_state ConversationState.closed).0 c in
          (
            reopened_row row,
            rw (closed_row row closed, reopen_lem row v closed) (reopened_idle kind now row),
            reopened-IsReceived row closed,
          )
      | inr o ↦
          let (next, done, received) = resume_lem kind now row v (λ e. ground arith) in
          (next, rw (open_row row v o) done, received)
    ]
