-- ===== src/WhatsApp/Commands/Store.antt =====
-- `transition` put together. Advisory locks make each call one step, and an error undoes its
-- transaction.
use lume_tenant_api.Base.{
  String, ℕ, nat_beq, Bool, true, not, Option, none, some, ◌==◌, string_eq, Result, ok, err, ◌>>=◌,
  ◌>>◌, throw_if, conflict, not_found,
}
use lume_tenant_api.Base.Tables.{find_where}
use lume_tenant_api.WhatsApp.Constants.{ConversationSnapshot}
use lume_tenant_api.WhatsApp.Transition.Actors.{assert_transition_actor}
use lume_tenant_api.WhatsApp.Transition.Guards.{ResolveTransitionInput}
use lume_tenant_api.WhatsApp.Transition.Matrix.{resolve_conversation_transition}
use lume_tenant_api.WhatsApp.Commands.Rows.{
  TransitionCommand, Conversation, TransitionResult, TransitionRow, Database, Draw, CommandSettings,
  text_of,
}
use lume_tenant_api.WhatsApp.Commands.Checks.{resolve_closing_reason, check_proposals, check_actor}
use lume_tenant_api.WhatsApp.Commands.Quotes.{latest_quote, advance_quotes}
use lume_tenant_api.WhatsApp.Commands.Change.{closure_message, changed_conversation, check_assigned}
use lume_tenant_api.WhatsApp.Commands.Write.{
  is_conversation, is_command, update_conversation, written,
}

-- The command as the matrix reads it.
abbrev pub resolve_input :
    CommandSettings → TransitionCommand → ConversationSnapshot → ResolveTransitionInput
resolve_input settings input current = record {
  current = current;
  name = input.name;
  target_department = input.target_department;
  department_option = text_of input.department_option;
  policy = some (record {
    prevent_close_with_approved_quote = some settings.prevent_close_with_approved_quote;
  });
}

-- What the callers of `transition` hand in once: the hash of a command and of a text, and the hour.
module _ (fingerprint : TransitionCommand → String) (digest : String → String)
    (hour_of : ℕ → ℕ) where
  -- The transaction after its checks: `to` is what the matrix resolved.
  unfoldable pub store_transition :
      CommandSettings
      → Draw
      → TransitionCommand
      → Database
      → Conversation
      → Option String
      → Option (String × String)
      → ConversationSnapshot
      → Result (Database × TransitionResult × Bool)
  unfolding advance_quotes check_assigned update_conversation closure_message changed_conversation
      written
  store_transition settings draw input db conversation reason actor to = do
    quotes ←
        advance_quotes draw input to.request_status db.quotes
          (latest_quote input.company_id input.conversation_id db.quotes)
    check_assigned input conversation.row to
    conversations ←
        update_conversation input
          (changed_conversation settings draw input to
            (closure_message digest hour_of draw input conversation))
          db.conversations
    ok (
        written fingerprint digest hour_of settings draw input db conversation reason actor to
          quotes conversations)

  unfoldable pub change_conversation :
      CommandSettings
      → Draw
      → TransitionCommand
      → Database
      → Option Conversation
      → Result (Database × TransitionResult × Bool)
  unfolding store_transition resolve_closing_reason check_proposals check_actor
      resolve_conversation_transition latest_quote
  change_conversation settings draw input db none = err (not_found "Conversa")
  change_conversation settings draw input db (some conversation) = do
    throw_if (not (nat_beq conversation.row.version input.expected_version))
        (conflict "A conversa foi alterada por outro comando." none)
    reason ←
        resolve_closing_reason input conversation
          (latest_quote input.company_id input.conversation_id db.quotes)
    check_proposals input db.proposals
    actor ← check_actor input db.users
    to ← resolve_conversation_transition (resolve_input settings input conversation.row.snapshot)
    store_transition settings draw input db conversation reason actor to

  unfoldable pub replay_transition :
      TransitionCommand → Database → TransitionRow → Result (Database × TransitionResult × Bool)
  replay_transition input db row = do
    throw_if (not (row.command_fingerprint == fingerprint input))
        (conflict "commandId já foi usado com outro conteúdo." none)
    ok (db, row.result, true)

  unfoldable pub transition_once :
      CommandSettings
      → Draw
      → TransitionCommand
      → Database
      → Option TransitionRow
      → Result (Database × TransitionResult × Bool)
  unfolding change_conversation replay_transition find_where
  transition_once settings draw input db (some row) = replay_transition input db row
  transition_once settings draw input db none =
      change_conversation settings draw input db
        (find_where (is_conversation input) db.conversations)

  -- The last component is `idempotent`.
  unfoldable pub transition :
      CommandSettings
      → Draw
      → TransitionCommand
      → Database
      → Result (Database × TransitionResult × Bool)
  unfolding transition_once assert_transition_actor
  transition settings draw input db = do
    assert_transition_actor input.name input.actor_type
    transition_once settings draw input db (find_where (is_command input) db.transitions)
