-- ===== src/WhatsApp/Commands/Carried.antt =====
-- `transition` by cases: a command is answered from the table of commands, or carried out.
use lume_tenant_api.Base.{
  String, ℕ, nat_beq, Bool, false, not, Option, none, some, string_eq, ok, throw_if, conflict,
  >>=-eq-ok, ◌⊎◌, inl, inr, ◌≡◌, refl, arith, Option-cases,
}
use lume_tenant_api.Base.Tables.{find_where}
use lume_tenant_api.WhatsApp.Constants.{ConversationSnapshot}
use lume_tenant_api.WhatsApp.Transition.Actors.{assert_transition_actor}
use lume_tenant_api.WhatsApp.Transition.Matrix.{resolve_conversation_transition, run_command}
use lume_tenant_api.WhatsApp.Commands.Rows.{
  TransitionCommand, Conversation, TransitionResult, TransitionRow, Database, Draw, CommandSettings,
}
use lume_tenant_api.WhatsApp.Commands.Checks.{resolve_closing_reason, check_proposals, check_actor}
use lume_tenant_api.WhatsApp.Commands.Quotes.{latest_quote}
use lume_tenant_api.WhatsApp.Commands.Change.{check_assigned}
use lume_tenant_api.WhatsApp.Commands.Store
use lume_tenant_api.WhatsApp.Commands.Write
use lume_tenant_api.WhatsApp.Commands.Stored.{IsStored, change_of, store_transition-IsStored}

check_actor-first :
    (settings : CommandSettings) (input : TransitionCommand) (current to : ConversationSnapshot)
    → assert_transition_actor input.name input.actor_type ≡ ok tt
    → resolve_conversation_transition (Store.resolve_input settings input current) ≡ ok to
    → run_command input.actor_type (Store.resolve_input settings input current) ≡ ok to
unfolding run_command
check_actor-first settings input current to allowed resolved = rw allowed resolved

module _ (fingerprint : TransitionCommand → String) (digest : String → String)
    (hour_of : ℕ → ℕ) where
  -- The command found the conversation in the version that it expects, the matrix allowed it, and the
  -- conversation is changed to what the matrix says.
  pub record IsCarriedOut (settings : CommandSettings) (draw : Draw) (input : TransitionCommand)
      (db : Database) (outcome : Database × TransitionResult × Bool) : Type 0 where
    pub conversation : Conversation
    pub found : find_where (Write.is_conversation input) db.conversations ≡ some conversation
    pub current : conversation.row.version ≡ input.expected_version
    pub to : ConversationSnapshot
    pub allowed :
        run_command input.actor_type (Store.resolve_input settings input conversation.row.snapshot)
        ≡ ok to
    pub stored :
        IsStored input
          (fingerprint input)
          (change_of fingerprint digest hour_of settings draw input conversation to)
          db
          outcome.0
          outcome.1
    pub assigned : check_assigned input conversation.row to ≡ ok tt
    pub new : outcome.2 ≡ false

  change_conversation-IsCarriedOut :
      (settings : CommandSettings) (draw : Draw) (input : TransitionCommand) (db : Database)
      (outcome : Database × TransitionResult × Bool) (known : Option Conversation)
      → find_where (Write.is_conversation input) db.conversations ≡ known
      → assert_transition_actor input.name input.actor_type ≡ ok tt
      → Store.change_conversation fingerprint digest hour_of settings draw input db known
        ≡ ok outcome
      → IsCarriedOut settings draw input db outcome
  unfolding Store.change_conversation
  change_conversation-IsCarriedOut settings draw input db outcome none e permitted h = cc
  change_conversation-IsCarriedOut settings draw input db outcome (some conversation) e permitted
        h =
      let (checked, versions, rest) =
        >>=-eq-ok
          (throw_if (not (nat_beq conversation.row.version input.expected_version))
            (conflict "A conversa foi alterada por outro comando." none))
          _ h in
      let (reason, reasoned, after_reason) =
        >>=-eq-ok
          (resolve_closing_reason input conversation
            (latest_quote input.company_id input.conversation_id db.quotes))
          _ rest in
      let (free, unqueued, after_proposals) =
        >>=-eq-ok (check_proposals input db.proposals) _ after_reason in
      let (actor, acted, after_actor) = >>=-eq-ok (check_actor input db.users) _ after_proposals in
      let (to, resolved, stored) =
        >>=-eq-ok
          (resolve_conversation_transition
            (Store.resolve_input settings input conversation.row.snapshot))
          _ after_actor in
      let (kept, first, assigned) =
        store_transition-IsStored fingerprint digest hour_of settings draw input db conversation
          reason actor to outcome stored in
      record {
        conversation = conversation;
        found = e;
        current = ground arith;
        to = to;
        allowed = check_actor-first settings input conversation.row.snapshot to permitted resolved;
        stored = kept;
        assigned = assigned;
        new = first;
      }

  -- Which of the two a successful call was.
  pub transition-cases :
      (settings : CommandSettings) (draw : Draw) (input : TransitionCommand) (db : Database)
      (outcome : Database × TransitionResult × Bool)
      → Store.transition fingerprint digest hour_of settings draw input db ≡ ok outcome
      → ((row : TransitionRow) × (find_where (Write.is_command input) db.transitions ≡ some row)
          × (Store.replay_transition fingerprint digest hour_of input db row ≡ ok outcome))
        ⊎ ((find_where (Write.is_command input) db.transitions ≡ none)
            × IsCarriedOut settings draw input db outcome)
  unfolding Store.transition Store.transition_once
  transition-cases settings draw input db outcome h =
      let (done, permitted, rest) =
        >>=-eq-ok (assert_transition_actor input.name input.actor_type) _ h in
      elim (Option-cases (find_where (Write.is_command input) db.transitions)) [
        | inr (row, e) ↦ inl (row, e, rw e at rest)
        | inl e ↦ inr (
          e,
          change_conversation-IsCarriedOut settings draw input db outcome _ refl permitted
              (rw e at rest),
        )
      ]

  pub transition-permitted :
      (settings : CommandSettings) (draw : Draw) (input : TransitionCommand) (db : Database)
      (outcome : Database × TransitionResult × Bool)
      → Store.transition fingerprint digest hour_of settings draw input db ≡ ok outcome
      → assert_transition_actor input.name input.actor_type ≡ ok tt
  unfolding Store.transition
  transition-permitted settings draw input db outcome h =
      let (done, permitted, rest) =
        >>=-eq-ok (assert_transition_actor input.name input.actor_type) _ h in
      permitted
