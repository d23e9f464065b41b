-- ===== src/WhatsApp/Inbound/History.antt =====
-- What a customer's message leaves of a conversation: its state, its counts and its history.
use lume_tenant_api.Base.{
  ℕ, ◌+◌, ◌≡◌, inl, inr, refl, none, some, ok, arith, length, sym, List, [], ◌∷◌, ◌>>=◌, Result,
  err, Option, ◌++◌, >>=-eq-ok, ok-injective, Bool-cases,
}
use lume_tenant_api.WhatsApp.Constants.{TransitionName, ConversationSnapshot, state_eq}
use lume_tenant_api.WhatsApp.Inbound.{
  ConversationRow, RecordedTransition, InboundConversation, InboundMessage, automatic_resume_name,
  preview, is_closed, reopen, reopen_if_closed, resume_with, recorded_reopening,
  recorded_resumption, count_message, receive_message,
}
use lume_tenant_api.WhatsApp.Inbound.Laws.{IsConsistentRow, IsReceived, advance-IsReceived}

moved-version :
    (moved : Result ConversationSnapshot) (place : ConversationSnapshot → ConversationRow)
    (version : ℕ) (after : ConversationRow)
    → ((next : ConversationSnapshot) → (place next).version ≡ version)
    → (moved >>= λ next. ok (place next)) ≡ ok after
    → after.version ≡ version
moved-version (err error) place version after placed h = cc
moved-version (ok next) place version after placed h =
    let same = ok-injective (place next) after h in rw (sym same) (placed next)

reopen-version :
    (row opened : ConversationRow) → reopen row ≡ ok opened → opened.version ≡ row.version + 1
unfolding reopen
reopen-version row opened h = moved-version _ _ (row.version + 1) opened (λ next. refl) h

reopen_if_closed-recorded :
    (row opened : ConversationRow)
    → reopen_if_closed row ≡ ok opened
    → opened.version ≡ row.version + length (recorded_reopening row opened)
unfolding reopen_if_closed
reopen_if_closed-recorded row opened h = elim (Bool-cases (is_closed row)) [
  | inl closed ↦ rw closed (reopen-version row opened (rw closed at h))
  | inr ongoing ↦
      let same = ok-injective row opened (rw ongoing at h) in rw (ongoing, same) (ground arith)
]

resume_with-recorded :
    (name : Option TransitionName) (row next : ConversationRow)
    → resume_with name row ≡ ok next
    → next.version ≡ row.version + length (recorded_resumption name row next)
unfolding resume_with
resume_with-recorded none row next h = let same = ok-injective row next h in rw same (ground arith)
resume_with-recorded (some name) row next h =
    moved-version _ _ (row.version + 1) next (λ to. refl) h

length-append : (xs ys : List RecordedTransition) → length (xs ++ ys) ≡ length xs + length ys
length-append [] ys = ground arith
length-append (x ∷ xs) ys = let rest = length-append xs ys in ground arith

entries :
    (before opened after : ℕ) (reopening resumption : List RecordedTransition)
    → opened ≡ before + length reopening
    → after ≡ opened + length resumption
    → after ≡ before + length (reopening ++ resumption)
entries before opened after reopening resumption one two =
    rw (length-append reopening resumption) (omega arith)

-- What a customer's message leaves of a conversation.
pub record IsCounted (message : InboundMessage) (before after : InboundConversation) : Type 0 where
  pub received : IsReceived before.row after.row
  pub unread : after.unread_count ≡ before.unread_count + 1
  pub seen : after.last_inbound_at ≡ some message.occurred_at
  pub shown : after.last_message_preview ≡ preview message
  -- Nothing in the history changes, and each new version has an entry there.
  pub history :
      (added : List RecordedTransition) × (after.transitions ≡ before.transitions ++ added)
      × (after.row.version ≡ before.row.version + length added)

-- A customer's message is accepted in every consistent conversation. It counts as unread and gives
-- the time and the preview of the last message. It leaves the conversation consistent and open,
-- advances its version by at most one, adds one entry to its history for each new version, and sends
-- a closed conversation back to the commercial main menu, to be shown again. While a human is active
-- the row with the state, the assignment, the menus and the version stays as it was.
pub receive_message-IsCounted :
    (message : InboundMessage) (before : InboundConversation)
    → IsConsistentRow before.row
    → (after : InboundConversation) × (receive_message message before ≡ ok after)
      × IsCounted message before after
unfolding receive_message count_message
receive_message-IsCounted message before v =
    let (next, done, received) = advance-IsReceived message.kind message.occurred_at before.row v in
    let (opened, reopens, resumes) = >>=-eq-ok (reopen_if_closed before.row) _ done in
    let name = automatic_resume_name message.kind message.occurred_at opened in
    let one = reopen_if_closed-recorded before.row opened reopens in
    let two = resume_with-recorded name opened next resumes in
    let added = recorded_reopening before.row opened ++ recorded_resumption name opened next in
    (
      count_message message
          (record before { row = next; transitions = before.transitions ++ added }),
      rw (reopens, resumes) refl,
      record {
        received = received;
        unread = refl;
        seen = refl;
        shown = refl;
        history = (
          added,
          refl,
          entries before.row.version opened.version next.version
              (recorded_reopening before.row opened) (recorded_resumption name opened next) one two,
        );
      },
    )
