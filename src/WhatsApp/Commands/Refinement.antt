-- ===== src/WhatsApp/Commands/Refinement.antt =====
-- `transition` against the matrix: what a successful command does to the stored conversations.
use lume_tenant_api.Base.{
  String, ℕ, ◌+◌, Bool, false, not, some, string_eq, ok, filter, inl, inr, ◌≡◌, refl, arith, ap,
}
use lume_tenant_api.Base.Tables.{
  find_where, find_where-eq-some, find_where-update_where, filter-update_where,
}
use lume_tenant_api.WhatsApp.Constants.{ConversationSnapshot}
use lume_tenant_api.WhatsApp.Transition.Matrix.{run_command}
use lume_tenant_api.WhatsApp.Commands.Rows.{
  TransitionCommand, Conversation, TransitionResult, Database, Draw, CommandSettings,
}
use lume_tenant_api.WhatsApp.Commands.Change.{changed_conversation, changed_row}
use lume_tenant_api.WhatsApp.Commands.Store
use lume_tenant_api.WhatsApp.Commands.Write
use lume_tenant_api.Base.{nat_beq_iff}
use lume_tenant_api.WhatsApp.Commands.Stored.{change_of}
use lume_tenant_api.WhatsApp.Commands.Carried.{IsCarriedOut, transition-cases}

module _ (fingerprint : TransitionCommand → String) (digest : String → String)
    (hour_of : ℕ → ℕ) where
  -- A change keeps the id and the company of the conversation.
  change_of-is_conversation :
      (settings : CommandSettings) (draw : Draw) (input : TransitionCommand) (found : Conversation)
      (to : ConversationSnapshot) (row : Conversation)
      → Write.is_conversation input
          (change_of fingerprint digest hour_of settings draw input found to row)
        ≡ Write.is_conversation input row
  unfolding changed_conversation
  change_of-is_conversation settings draw input found to row = refl

  pub carried_out-found :
      (settings : CommandSettings) (draw : Draw) (input : TransitionCommand) (db : Database)
      (outcome : Database × TransitionResult × Bool)
      (run : IsCarriedOut fingerprint digest hour_of settings draw input db outcome)
      → find_where (Write.is_conversation input) outcome.0.conversations
        ≡ some (
            change_of fingerprint digest hour_of settings draw input run.conversation run.to
              run.conversation)
  carried_out-found settings draw input db outcome run =
      let (member, same) =
        find_where-eq-some (Write.is_conversation input) db.conversations run.conversation
          run.found in
      let version =
        (nat_beq_iff run.conversation.row.version input.expected_version).1 run.current in
      rw run.stored.changed (
        find_where-update_where (Write.is_conversation input) (Write.expected_row input) _
          db.conversations run.conversation
          (change_of-is_conversation settings draw input run.conversation run.to) (ground arith)
          run.found)

  carried_out-others :
      (settings : CommandSettings) (draw : Draw) (input : TransitionCommand) (db : Database)
      (outcome : Database × TransitionResult × Bool)
      (run : IsCarriedOut fingerprint digest hour_of settings draw input db outcome)
      → filter (λ c. not (Write.is_conversation input c)) outcome.0.conversations
        ≡ filter (λ c. not (Write.is_conversation input c)) db.conversations
  carried_out-others settings draw input db outcome run = rw run.stored.changed (
      filter-update_where (Write.is_conversation input) (Write.expected_row input) _
        db.conversations (change_of-is_conversation settings draw input run.conversation run.to)
        (λ row hit. ground arith))

  -- A command that succeeds for the first time does to the stored conversation what the transition
  -- matrix does to its snapshot: the conversation was in the version that the command expects, the
  -- matrix accepts the command of this actor, the conversation is left with the snapshot that the
  -- matrix resolves and the next version, and the other conversations are left alone.
  pub transition-run_command :
      (settings : CommandSettings) (draw : Draw) (input : TransitionCommand) (db db' : Database)
      (result : TransitionResult)
      → Store.transition fingerprint digest hour_of settings draw input db ≡ ok (db', result, false)
      → (before after : Conversation) × (find_where (Write.is_conversation input) db.conversations
          ≡ some before)
        × (find_where (Write.is_conversation input) db'.conversations ≡ some after)
        × (before.row.version ≡ input.expected_version)
        × (after.row.version ≡ input.expected_version + 1)
        × (run_command input.actor_type (Store.resolve_input settings input before.row.snapshot)
            ≡ ok after.row.snapshot)
        × (filter (λ c. not (Write.is_conversation input c)) db'.conversations
            ≡ filter (λ c. not (Write.is_conversation input c)) db.conversations)
  unfolding changed_conversation changed_row Store.replay_transition
  transition-run_command settings draw input db db' result h =
      elim (transition-cases fingerprint digest hour_of settings draw input db (db', result, false)
        h) [
          | inl (row, known, replayed) ↦ absurd (ground (arith, replayed))
          | inr (unknown, run) ↦ (
            run.conversation,
            change_of fingerprint digest hour_of settings draw input run.conversation run.to
                run.conversation,
            run.found,
            carried_out-found settings draw input db (db', result, false) run,
            run.current,
            ap (λ n. n + 1) run.current,
            run.allowed,
            carried_out-others settings draw input db (db', result, false) run,
          )
        ]
