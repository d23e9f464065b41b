-- ===== src/WhatsApp/CommandTests.antt =====
-- Commands on stored conversations at concrete rows.
use lume_tenant_api.Base.{
  String, ℕ, ◌+◌, ◌≡◌, ◌⊎◌, refl, sym, ◌∙◌, Bool, true, false, not, none, some, [], ◌∷◌, ok, err,
  inl, inr, arith, In, Result, filter, AppError, conflict_code, forbidden_code,
}
use lume_tenant_api.Base.Tables.{find_where}
use lume_tenant_api.Access.Departments.{Department}
use lume_tenant_api.WhatsApp.Constants.{
  ConversationState, FlowStep, RequestStatus, TransitionName, ConversationSnapshot,
}
use lume_tenant_api.WhatsApp.Transition.Actors.{user}
use lume_tenant_api.WhatsApp.Transition.Guards.{resolve_bot_flow_step}
use lume_tenant_api.WhatsApp.Transition.Matrix.{branches, run_command}
use lume_tenant_api.WhatsApp.Inbound.Laws.{IsConsistentRow}
use lume_tenant_api.WhatsApp.Commands.Rows.{
  missing, TransitionCommand, Conversation, TransitionResult, Database, Draw, CommandSettings,
}
use lume_tenant_api.WhatsApp.Commands.Store
use lume_tenant_api.WhatsApp.Commands.Write
use lume_tenant_api.WhatsApp.Commands.Refinement.{transition-run_command}
use lume_tenant_api.WhatsApp.Commands.Repeat.{transition_twice, second_command-refused}
use lume_tenant_api.WhatsApp.Commands.Invariant.{IsWellFormed, transition-IsWellFormed}

abbrev settings : CommandSettings
settings = record { prevent_close_with_approved_quote = true; follow_up_inactivity = 1000 }

abbrev draw : Draw
draw = record {
  transition_id = "t";
  message_id = "m";
  attempt_id = "a";
  quote_id = "q";
  event_id = "e";
  transitioned_at = 50;
  decided_at = 51;
  confirmed_at = 52;
  updated_at = 53;
}

abbrev fresh : ConversationSnapshot
fresh = record {
  department = Department.commercial;
  conversation_state = ConversationState.bot_active;
  flow_step = FlowStep.main_menu;
  request_status = RequestStatus.not_started;
  resume_state = none;
  resume_flow_step = none;
}

abbrev open_conversation : Conversation
open_conversation = record {
  id = "conversation";
  company_id = "company";
  channel_id = "channel";
  contact_id = "contact";
  contact_phone = "5511999999999";
  row = record {
    snapshot = fresh;
    version = 1;
    assigned_to_user_id = none;
    closed_at = none;
    main_menu_presented_at = none;
    follow_up_menu_presented_at = none;
    contextual_follow_up_at = none;
    department_contact_option = none;
  };
  unread_count = 2;
  last_message_preview = none;
}

abbrev db : Database
db = record {
  conversations = open_conversation ∷ [];
  quotes = [];
  users = record { id = "ana"; company_id = "company"; name = "Ana"; is_active = true } ∷ [];
  proposals = [];
  messages = [];
  transitions = [];
  audit = [];
  queue = record { outbox = []; executions = [] };
}

abbrev take_over : TransitionCommand
take_over = record {
  company_id = "company";
  conversation_id = "conversation";
  command_id = "first";
  expected_version = 1;
  name = TransitionName.take_over;
  actor_type = user;
  actor_user_id = some "ana";
  target_department = none;
  reason = missing;
  department_option = missing;
}

abbrev late_close : TransitionCommand
late_close = record take_over { command_id = "second"; name = TransitionName.close }

abbrev print : TransitionCommand → String
print command = command.command_id

abbrev digest : String → String
digest text = text

abbrev hour_of : ℕ → ℕ
hour_of time = 9

abbrev run : TransitionCommand → Database → Result (Database × TransitionResult × Bool)
run = Store.transition print digest hour_of settings draw

abbrev taken : Database
taken = elim (run take_over db) [ ok (after, result, again) ↦ after | err error ↦ db ]

opened : Unit {0}
unfolding Store.transition run_command find_where branches resolve_bot_flow_step
opened = tt

abbrev held : Conversation
held = record open_conversation {
  row = record open_conversation.row {
    snapshot = record fresh {
      conversation_state = ConversationState.human_active;
      flow_step = FlowStep.human_service;
      resume_flow_step = some FlowStep.main_menu;
    };
    version = 2;
    assigned_to_user_id = some "ana";
  };
}

abbrev result : TransitionResult
result = record { conversation = held; current_quote_request = none; closure = none }

taken_over : run take_over db ≡ ok (taken, result, false)
unfolding opened
taken_over = refl

transition_twice_example : run take_over taken ≡ ok (taken, result, true)
unfolding opened
transition_twice_example =
    transition_twice print digest hour_of settings settings draw draw take_over db taken result
      false refl

transition-run_command_example :
    (before after : Conversation) × (find_where (Write.is_conversation take_over) db.conversations
      ≡ some before)
    × (find_where (Write.is_conversation take_over) taken.conversations ≡ some after)
    × (before.row.version ≡ 1)
    × (after.row.version ≡ 1 + 1)
    × (run_command user (Store.resolve_input settings take_over before.row.snapshot)
        ≡ ok after.row.snapshot)
    × (filter (λ c. not (Write.is_conversation take_over c)) taken.conversations
        ≡ filter (λ c. not (Write.is_conversation take_over c)) db.conversations)
unfolding opened
transition-run_command_example =
    transition-run_command print digest hour_of settings draw take_over db taken result refl

second_command-refused_example :
    (error : AppError) × (run late_close taken ≡ err error)
    × ((error.code ≡ conflict_code) ⊎ (error.code ≡ forbidden_code))
unfolding opened
second_command-refused_example =
    second_command-refused print digest hour_of settings settings draw draw take_over late_close db
      taken result refl refl refl refl refl

-- The row of a table of one row.
only_row : (row a : Conversation) → In a (row ∷ []) → a ≡ row
only_row row a (inl e) = e
only_row row a (inr h) = elim h [ ]

db-IsWellFormed : IsWellFormed db.conversations
db-IsWellFormed = record {
  keyed = λ a b ma mb id company. only_row _ a ma ∙ sym (only_row _ b mb);
  sound = λ a ma. rw (only_row _ a ma) fresh_row-IsConsistentRow;
}
  where
    fresh_row-IsConsistentRow : IsConsistentRow open_conversation.row
    fresh_row-IsConsistentRow = record {
      consistent = record {
        closed_step = λ h. ground arith;
        closed_state = λ h. ground arith;
        human_step = λ h. ground arith;
        proposal_department = λ h waits. ground arith;
        resume_step = tt;
        resume_active = tt;
      };
      closed_state = λ h. ground arith;
      assigned = λ h. ground arith;
      unassigned = λ h. ground arith;
    }

transition-IsWellFormed_example : IsWellFormed taken.conversations
unfolding opened
transition-IsWellFormed_example =
    transition-IsWellFormed print digest hour_of settings draw take_over db taken result false refl
      (ground arith) db-IsWellFormed
