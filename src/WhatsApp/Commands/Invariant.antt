-- ===== src/WhatsApp/Commands/Invariant.antt =====
-- `transition` keeps every stored conversation consistent.
use lume_tenant_api.Base.{
  String, ℕ, Bool, true, Option, none, some, List, ◌==◌, string_eq, if◌then◌else◌, is_some, ok, In,
  ◌≢◌, >>=-eq-ok, inl, inr, ◌≡◌, refl, sym, ◌∙◌, eq_iff, arith, ap, Bool-cases,
}
use lume_tenant_api.Base.Tables.{update_where, find_where-eq-some, In-map}
use lume_tenant_api.WhatsApp.Constants.{
  TransitionName, ConversationState, ConversationSnapshot, state_eq,
}
use lume_tenant_api.WhatsApp.Transition.Actors.{TransitionActor, assert_transition_actor}
use lume_tenant_api.WhatsApp.Transition.Matrix.{run_command}
use lume_tenant_api.WhatsApp.Commands.Rows.{
  TransitionCommand, Conversation, TransitionResult, Database, Draw, CommandSettings, is_given,
}
use lume_tenant_api.WhatsApp.Commands.Checks.{is_closing}
use lume_tenant_api.WhatsApp.Commands.Change.{
  changed_conversation, changed_row, next_assigned, check_assigned,
}
use lume_tenant_api.WhatsApp.Commands.Store
use lume_tenant_api.WhatsApp.Commands.Write
use lume_tenant_api.WhatsApp.Transition.Invariant.{IsConsistent, resolve-IsConsistent}
use lume_tenant_api.WhatsApp.Transition.Matrix.{branches, resolve_branch}
use lume_tenant_api.WhatsApp.Transition.Laws.{closed_left_by}
use lume_tenant_api.WhatsApp.Transition.Guards.{ResolveTransitionInput}
use lume_tenant_api.WhatsApp.Inbound.{ConversationRow}
use lume_tenant_api.WhatsApp.Inbound.Laws.{IsConsistentRow}
use lume_tenant_api.WhatsApp.Commands.Stored.{change_of}
use lume_tenant_api.WhatsApp.Commands.Carried.{transition-cases}

-- An id belongs to one conversation of a company, and every conversation is consistent: its snapshot
-- is, it has a closing time only while it is closed, and an assigned user exactly while a human is
-- active.
pub record IsWellFormed (conversations : List Conversation) : Type 0 where
  pub keyed :
      (a b : Conversation)
      → In a conversations
      → In b conversations
      → a.id ≡ b.id
      → a.company_id ≡ b.company_id
      → a ≡ b
  pub sound : (a : Conversation) → In a conversations → IsConsistentRow a.row

closing_branch :
    (name : TransitionName) (input : ResolveTransitionInput) (s : ConversationSnapshot)
    → is_closing name ≡ true
    → resolve_branch name input ≡ ok s
    → s.conversation_state ≡ ConversationState.closed
unfolding branches
closing_branch TransitionName.close input s closing h = ground arith
closing_branch TransitionName.close_after_rejection input s closing h = ground arith
closing_branch _ input s closing h = cc

closing-closed :
    (actor : TransitionActor) (input : ResolveTransitionInput) (s : ConversationSnapshot)
    → run_command actor input ≡ ok s
    → is_closing input.name ≡ true
    → s.conversation_state ≡ ConversationState.closed
unfolding run_command
closing-closed actor input s h closing = ground (arith, closing_branch input.name input s)

run_command-IsConsistent :
    (actor : TransitionActor) (input : ResolveTransitionInput) (s : ConversationSnapshot)
    → run_command actor input ≡ ok s
    → IsConsistent input.current
    → IsConsistent s
unfolding run_command
run_command-IsConsistent actor input s h v =
    let (done, allowed, resolved) = >>=-eq-ok (assert_transition_actor input.name actor) _ h in
    resolve-IsConsistent input s resolved v

is_given-is_some : (o : Option String) → is_given o ≡ true → is_some o ≡ true
is_given-is_some none h = cc
is_given-is_some (some value) h = refl

changed_row-IsConsistentRow :
    (settings : CommandSettings) (draw : Draw) (input : TransitionCommand) (row : ConversationRow)
    (to : ConversationSnapshot)
    → input.name ≢ TransitionName.reopen_after_customer_message
    → run_command input.actor_type (Store.resolve_input settings input row.snapshot) ≡ ok to
    → check_assigned input row to ≡ ok tt
    → IsConsistentRow row
    → IsConsistentRow (changed_row settings draw input to row)
unfolding changed_row check_assigned
changed_row-IsConsistentRow settings draw input row to inside allowed assigned v =
    let command = Store.resolve_input settings input row.snapshot in
    let shut = closing-closed input.actor_type command to allowed in
    record {
      consistent = run_command-IsConsistent input.actor_type command to allowed v.consistent;
      closed_state = λ h. elim (Bool-cases (is_closing input.name)) [
        | inl closing ↦ shut closing
        | inr other ↦ absurd (
            ground (
              arith,
              inside,
              h,
              other,
              v.closed_state,
              closed_left_by input.actor_type command to allowed,
            ))
      ];
      assigned = λ h. is_given-is_some (next_assigned input row to) (ground arith);
      unassigned = λ h. ground arith;
    }

same_conversation :
    (input : TransitionCommand) (a b : Conversation)
    → Write.is_conversation input a ≡ true
    → Write.is_conversation input b ≡ true
    → (a.id ≡ b.id) × (a.company_id ≡ b.company_id)
same_conversation input a b ha hb =
    let id_a : (a.id == input.conversation_id) ≡ true = ground arith in
    let id_b : (b.id == input.conversation_id) ≡ true = ground arith in
    let company_a : (a.company_id == input.company_id) ≡ true = ground arith in
    let company_b : (b.company_id == input.company_id) ≡ true = ground arith in
    (
      (eq_iff a.id input.conversation_id).0 id_a ∙ sym ((eq_iff b.id input.conversation_id).0 id_b),
      (eq_iff a.company_id input.company_id).0 company_a
          ∙ sym ((eq_iff b.company_id input.company_id).0 company_b),
    )

step_keeps :
    (column : Conversation → String) (input : TransitionCommand)
    (change : Conversation → Conversation) (c : Conversation)
    → column (change c) ≡ column c
    → column (if Write.expected_row input c then change c else c) ≡ column c
step_keeps column input change c same = elim (Bool-cases (Write.expected_row input c)) [
  | inl hit ↦ rw hit same
  | inr passed ↦ rw passed refl
]

changed-IsWellFormed :
    (input : TransitionCommand) (change : Conversation → Conversation) (rows : List Conversation)
    → ((c : Conversation) → (change c).id ≡ c.id)
    → ((c : Conversation) → (change c).company_id ≡ c.company_id)
    → ((c : Conversation)
        → In c rows
        → Write.expected_row input c ≡ true
        → IsConsistentRow (change c).row)
    → IsWellFormed rows
    → IsWellFormed (update_where (Write.expected_row input) change rows)
changed-IsWellFormed input change rows same_id same_company sound v =
    let step = λ (c : Conversation). if Write.expected_row input c then change c else c in
    record {
      keyed = λ a' b' ma mb id company.
          let (a, in_a, ea) = In-map step rows a' ma in
          let (b, in_b, eb) = In-map step rows b' mb in
          let one =
            v.keyed a b in_a in_b
              (sym (step_keeps (λ (c : Conversation). c.id) input change a (same_id a))
                ∙ (rw (ea, eb) at id)
                ∙ step_keeps (λ (c : Conversation). c.id) input change b (same_id b))
              (sym (step_keeps (λ (c : Conversation). c.company_id) input change a (same_company a))
                ∙ (rw (ea, eb) at company)
                ∙ step_keeps (λ (c : Conversation). c.company_id) input change b
                    (same_company b)) in
          ea ∙ ap step one ∙ sym eb;
      sound = λ a' ma.
          let (a, in_a, ea) = In-map step rows a' ma in
          rw ea (elim (Bool-cases (Write.expected_row input a)) [
            | inl hit ↦ rw hit (sound a in_a hit)
            | inr passed ↦ rw passed (v.sound a in_a)
          ]);
    }

module _ (fingerprint : TransitionCommand → String) (digest : String → String)
    (hour_of : ℕ → ℕ) where
  -- A command that succeeds keeps the conversations well formed: their ids stay apart, and every
  -- conversation has a consistent snapshot, a closing time only while it is closed, and an assigned
  -- user exactly while a human is active. Reopening is left to the customer's messages.
  pub transition-IsWellFormed :
      (settings : CommandSettings) (draw : Draw) (input : TransitionCommand) (db db' : Database)
      (result : TransitionResult) (again : Bool)
      → Store.transition fingerprint digest hour_of settings draw input db ≡ ok (db', result, again)
      → input.name ≢ TransitionName.reopen_after_customer_message
      → IsWellFormed db.conversations
      → IsWellFormed db'.conversations
  unfolding changed_conversation Store.replay_transition
  transition-IsWellFormed settings draw input db db' result again h inside v =
      elim (transition-cases fingerprint digest hour_of settings draw input db (db', result, again)
        h) [
          | inl (row, known, replayed) ↦ let same : db' ≡ db = ground (arith, replayed) in rw same v
          | inr (unknown, run) ↦
              let (member, here) =
                find_where-eq-some (Write.is_conversation input) db.conversations run.conversation
                  run.found in
              rw run.stored.changed (
                changed-IsWellFormed input
                  (change_of fingerprint digest hour_of settings draw input run.conversation run.to)
                  db.conversations (λ c. refl) (λ c. refl)
                  (λ c in_c hit.
                    let matches : Write.is_conversation input c ≡ true = ground arith in
                    let (id, company) = same_conversation input c run.conversation matches here in
                    let one : c ≡ run.conversation =
                      v.keyed c run.conversation in_c member id company in
                    rw one (
                      changed_row-IsConsistentRow settings draw input run.conversation.row run.to
                        inside run.allowed run.assigned (v.sound run.conversation member)))
                  v)
        ]
