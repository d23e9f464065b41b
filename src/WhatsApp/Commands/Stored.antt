-- ===== src/WhatsApp/Commands/Stored.antt =====
-- What a command that is carried out leaves in the database.
use lume_tenant_api.Base.{
  String, ℕ, Bool, true, false, Option, List, ◌∷◌, string_eq, ok, >>=-eq-ok, ok-injective, ◌≡◌,
  refl, eq_iff, arith,
}
use lume_tenant_api.Base.Tables.{update_where}
use lume_tenant_api.WhatsApp.Constants.{ConversationSnapshot}
use lume_tenant_api.WhatsApp.Commands.Rows.{
  TransitionCommand, Conversation, QuoteRequest, TransitionResult, SupersededQuote, TransitionRow,
  Database, Draw, CommandSettings,
}
use lume_tenant_api.WhatsApp.Commands.Quotes.{latest_quote, advance_quotes}
use lume_tenant_api.WhatsApp.Commands.Change.{closure_message, changed_conversation, check_assigned}
use lume_tenant_api.WhatsApp.Commands.Store
use lume_tenant_api.WhatsApp.Commands.Write

-- A command that was carried out: the one conversation of its id and expected version is changed, and
-- the command is kept with its answer.
pub record IsStored (command : TransitionCommand) (fingerprint : String)
    (change : Conversation → Conversation) (db db' : Database) (result : TransitionResult)
    : Type 0 where
  pub changed :
      db'.conversations ≡ update_where (Write.expected_row command) change db.conversations
  pub command_row : TransitionRow
  pub kept : db'.transitions ≡ command_row ∷ db.transitions
  pub of_command : Write.is_command command command_row ≡ true
  pub same_print : command_row.command_fingerprint ≡ fingerprint
  pub same_result : command_row.result ≡ result

update_conversation-eq-ok :
    (input : TransitionCommand) (change : Conversation → Conversation) (rows : List Conversation)
    (rows' : List Conversation)
    → Write.update_conversation input change rows ≡ ok rows'
    → rows' ≡ update_where (Write.expected_row input) change rows
unfolding Write.update_conversation
update_conversation-eq-ok input change rows rows' h = ground arith

module _ (fingerprint : TransitionCommand → String) (digest : String → String)
    (hour_of : ℕ → ℕ) where
  -- `change` is what the command makes of the conversation.
  abbrev pub change_of :
      CommandSettings
      → Draw
      → TransitionCommand
      → Conversation
      → ConversationSnapshot
      → Conversation
      → Conversation
  change_of settings draw input conversation to =
      changed_conversation settings draw input to
        (closure_message digest hour_of draw input conversation)

  written-IsStored :
      (settings : CommandSettings) (draw : Draw) (input : TransitionCommand) (db : Database)
      (conversation : Conversation) (reason : Option String) (actor : Option (String × String))
      (to : ConversationSnapshot)
      (quotes : List QuoteRequest × Option QuoteRequest × Option SupersededQuote)
      (rows : List Conversation) (change : Conversation → Conversation)
      → rows ≡ update_where (Write.expected_row input) change db.conversations
      → let stored =
          Write.written fingerprint digest hour_of settings draw input db conversation reason actor
            to quotes rows in
        IsStored input (fingerprint input) change db stored.0 stored.1 × (stored.2 ≡ false)
  unfolding Write.written Write.transition_row
  written-IsStored settings draw input db conversation reason actor to (quotes, quote, superseded)
        rows change e =
      let company = (eq_iff input.company_id input.company_id).1 refl in
      let command = (eq_iff input.command_id input.command_id).1 refl in
      (
        record {
          changed = e;
          command_row = _;
          kept = refl;
          of_command = ground arith;
          same_print = refl;
          same_result = refl;
        },
        refl,
      )

  pub store_transition-IsStored :
      (settings : CommandSettings) (draw : Draw) (input : TransitionCommand) (db : Database)
      (conversation : Conversation) (reason : Option String) (actor : Option (String × String))
      (to : ConversationSnapshot) (outcome : Database × TransitionResult × Bool)
      → Store.store_transition fingerprint digest hour_of settings draw input db conversation reason
          actor to
        ≡ ok outcome
      → IsStored input
          (fingerprint input)
          (change_of settings draw input conversation to)
          db
          outcome.0
          outcome.1
        × (outcome.2 ≡ false)
        × (check_assigned input conversation.row to ≡ ok tt)
  unfolding Store.store_transition
  store_transition-IsStored settings draw input db conversation reason actor to outcome h =
      let (quotes, advanced, rest) =
        >>=-eq-ok
          (advance_quotes draw input to.request_status db.quotes
            (latest_quote input.company_id input.conversation_id db.quotes))
          _ h in
      let (done, assigned, later) = >>=-eq-ok (check_assigned input conversation.row to) _ rest in
      let (rows, updated, stored) =
        >>=-eq-ok
          (Write.update_conversation input (change_of settings draw input conversation to)
            db.conversations)
          _ later in
      let (kept, first) =
        written-IsStored settings draw input db conversation reason actor to quotes rows
          (change_of settings draw input conversation to)
          (update_conversation-eq-ok input _ db.conversations rows updated) in
      let same = ok-injective _ outcome stored in (rw (← same) kept, rw (← same) first, assigned)
