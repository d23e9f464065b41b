-- ===== src/WhatsApp/Commands/Repeat.antt =====
-- `transition` a second time: the same command again, and another command for the same version.
use lume_tenant_api.Base.{
  String, ℕ, nat_beq, Bool, true, false, not, none, some, List, ◌∷◌, string_eq, Result, ok, err,
  throw_if, conflict, includes, AppError, conflict_code, forbidden_code, ◌⊎◌, inl, inr, ◌≡◌, refl,
  eq_iff, arith,
}
use lume_tenant_api.Base.Tables.{find_where}
use lume_tenant_api.WhatsApp.Constants.{TransitionName}
use lume_tenant_api.WhatsApp.Transition.Actors.{
  TransitionActor, actors_by_transition, actor_eq, assert_transition_actor,
}
use lume_tenant_api.WhatsApp.Commands.Rows.{
  TransitionCommand, Conversation, TransitionResult, TransitionRow, Database, Draw, CommandSettings,
}
use lume_tenant_api.WhatsApp.Commands.Change.{changed_conversation, changed_row}
use lume_tenant_api.WhatsApp.Commands.Store
use lume_tenant_api.WhatsApp.Commands.Write
use lume_tenant_api.WhatsApp.Commands.Stored.{change_of}
use lume_tenant_api.WhatsApp.Commands.Carried.{transition-cases, transition-permitted}
use lume_tenant_api.WhatsApp.Commands.Refinement.{carried_out-found}

throw_if-cases :
    (test : Bool) (error : AppError)
    → (throw_if test error ≡ ok tt) ⊎ (throw_if test error ≡ err error)
throw_if-cases true error = inr refl
throw_if-cases false error = inl refl

assert_transition_actor-cases :
    (name : TransitionName) (actor : TransitionActor)
    → (assert_transition_actor name actor ≡ ok tt)
      ⊎ ((error : AppError) × (assert_transition_actor name actor ≡ err error)
          × (error.code ≡ forbidden_code))
unfolding assert_transition_actor
assert_transition_actor-cases name actor =
    elim (throw_if-cases (not (includes (actors_by_transition name) actor)) _) [
      | inl e ↦ inl e
      | inr e ↦ inr (_, e, refl)
    ]

module _ (fingerprint : TransitionCommand → String) (digest : String → String)
    (hour_of : ℕ → ℕ) where
  replay-again :
      (input : TransitionCommand) (db db' : Database) (row : TransitionRow)
      (result : TransitionResult) (again : Bool)
      → Store.replay_transition fingerprint digest hour_of input db row ≡ ok (db', result, again)
      → (db' ≡ db)
        × (Store.replay_transition fingerprint digest hour_of input db row ≡ ok (db, result, true))
  unfolding Store.replay_transition
  replay-again input db db' row result again h = (ground arith, ground arith)

  replay-stored :
      (input : TransitionCommand) (db : Database) (row : TransitionRow) (result : TransitionResult)
      → row.command_fingerprint ≡ fingerprint input
      → row.result ≡ result
      → Store.replay_transition fingerprint digest hour_of input db row ≡ ok (db, result, true)
  unfolding Store.replay_transition
  replay-stored input db row result print same =
      let equal = (eq_iff row.command_fingerprint (fingerprint input)).1 print in
      rw (equal, same) refl

  -- The command is the first row of the table that it is kept in.
  find_where-kept :
      (input : TransitionCommand) (row : TransitionRow) (before after : List TransitionRow)
      → Write.is_command input row ≡ true
      → after ≡ row ∷ before
      → find_where (Write.is_command input) after ≡ some row
  unfolding find_where
  find_where-kept input row before after same kept = rw (kept, same) refl

  known_command :
      (settings : CommandSettings) (draw : Draw) (input : TransitionCommand) (db : Database)
      (row : TransitionRow) (answer : Result (Database × TransitionResult × Bool))
      → assert_transition_actor input.name input.actor_type ≡ ok tt
      → find_where (Write.is_command input) db.transitions ≡ some row
      → Store.replay_transition fingerprint digest hour_of input db row ≡ answer
      → Store.transition fingerprint digest hour_of settings draw input db ≡ answer
  unfolding Store.transition Store.transition_once
  known_command settings draw input db row answer permitted known replayed =
      rw (permitted, known) replayed

  -- A command that was answered is answered the same when it is sent again, whatever is drawn: the
  -- result is the first one, marked as a repetition, and the database is left alone.
  pub transition_twice :
      (settings settings' : CommandSettings) (draw draw' : Draw) (input : TransitionCommand)
      (db db' : Database) (result : TransitionResult) (again : Bool)
      → Store.transition fingerprint digest hour_of settings draw input db ≡ ok (db', result, again)
      → Store.transition fingerprint digest hour_of settings' draw' input db'
        ≡ ok (db', result, true)
  transition_twice settings settings' draw draw' input db db' result again h =
      let permitted =
        transition-permitted fingerprint digest hour_of settings draw input db (db', result, again)
          h in
      elim (transition-cases fingerprint digest hour_of settings draw input db (db', result, again)
        h) [
          | inl (row, known, replayed) ↦
              let (same, repeated) = replay-again input db db' row result again replayed in
              rw same (known_command settings' draw' input db row _ permitted known repeated)
          | inr (unknown, run) ↦
              let kept = run.stored in
              known_command settings' draw' input db' kept.command_row _ permitted
                (find_where-kept input kept.command_row db.transitions db'.transitions
                  kept.of_command kept.kept)
                (replay-stored input db' kept.command_row result kept.same_print kept.same_result)
        ]

  stale_version :
      (settings : CommandSettings) (draw : Draw) (input : TransitionCommand) (db : Database)
      (found : Conversation)
      → find_where (Write.is_command input) db.transitions ≡ none
      → find_where (Write.is_conversation input) db.conversations ≡ some found
      → nat_beq found.row.version input.expected_version ≡ false
      → (error : AppError) × (Store.transition fingerprint digest hour_of settings draw input db
          ≡ err error)
        × ((error.code ≡ conflict_code) ⊎ (error.code ≡ forbidden_code))
  unfolding Store.transition Store.transition_once Store.change_conversation
  stale_version settings draw input db found unknown here stale =
      elim (assert_transition_actor-cases input.name input.actor_type) [
        | inr (error, refused, code) ↦ (error, rw refused refl, inr code)
        | inl allowed ↦ (
          conflict "A conversa foi alterada por outro comando." none,
          rw (allowed, unknown, here, stale) refl,
          inl refl,
        )
      ]

  -- Of two commands that expect the same version of a conversation, only one is carried out: once the
  -- first one succeeded, the other, if it has a command id of its own, is refused as a conflict, or as
  -- forbidden to its actor.
  pub second_command-refused :
      (settings settings' : CommandSettings) (draw draw' : Draw) (first second : TransitionCommand)
      (db db' : Database) (result : TransitionResult)
      → Store.transition fingerprint digest hour_of settings draw first db ≡ ok (db', result, false)
      → second.company_id ≡ first.company_id
      → second.conversation_id ≡ first.conversation_id
      → second.expected_version ≡ first.expected_version
      → find_where (Write.is_command second) db'.transitions ≡ none
      → (error : AppError) × (Store.transition fingerprint digest hour_of settings' draw' second db'
          ≡ err error)
        × ((error.code ≡ conflict_code) ⊎ (error.code ≡ forbidden_code))
  unfolding Store.replay_transition changed_conversation changed_row
  second_command-refused settings settings' draw draw' first second db db' result h company
        conversation version fresh =
      elim (transition-cases fingerprint digest hour_of settings draw first db (db', result, false)
        h) [
          | inl (row, known, replayed) ↦ absurd (ground (arith, replayed))
          | inr (unknown, run) ↦
              let here =
                carried_out-found fingerprint digest hour_of settings draw first db
                  (db', result, false) run in
              let current = run.current in
              stale_version settings' draw' second db'
                (change_of fingerprint digest hour_of settings draw first run.conversation run.to
                  run.conversation)
                fresh (rw (company, conversation) here) (ground arith)
        ]
