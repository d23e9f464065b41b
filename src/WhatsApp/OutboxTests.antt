-- ===== src/WhatsApp/OutboxTests.antt =====
-- The queue of events at concrete rows.
use lume_tenant_api.Base.{
  String, ℕ, ◌≡◌, ◌≢◌, ◌⊎◌, ◌≤◌, ◌<◌, refl, sym, ◌∙◌, true, false, none, some, Option, List, [],
  ◌∷◌, ok, err, inl, inr, arith, In, ◌==◌, eq_iff, string_eq,
}
use lume_tenant_api.WhatsApp.Outbox.Rows.{OutboxStatus, api, OutboxEvent, QueueSettings, is_live}
use lume_tenant_api.WhatsApp.Outbox.Claim.{claim}
use lume_tenant_api.WhatsApp.Outbox.Complete.{
  Outcome, CompletionInput, CompletionResult, CompletionDb, RetrySettings,
}
use lume_tenant_api.WhatsApp.Outbox.Report.{create_ordered_outbox, complete_outbox_execution}
use lume_tenant_api.WhatsApp.Outbox.Retention.{remove_expired}
use lume_tenant_api.WhatsApp.Outbox.Order.{IsOrderly}
use lume_tenant_api.WhatsApp.Outbox.Runs.{
  QueueReach, starts, follows, creates, claims, removes, IsCalm,
}
use lume_tenant_api.WhatsApp.Outbox.Reach.{
  processing_one_at_a_time, attempts_within_limit, WasRemoved, delivered_until_expired,
}
use lume_tenant_api.WhatsApp.Outbox.Repeat.{complete_twice}

abbrev settings : QueueSettings
settings = record {
  request_timeout = 10;
  execution_timeout = 100;
  base_backoff = 5;
  maximum_backoff = 50;
  debounce = 0;
  department_collection = 0;
}

abbrev retries : RetrySettings
retries = record { base_delay = 5; maximum_delay = 50 }

abbrev event : String → OutboxEvent
event id = record {
  id = id;
  company_id = "company";
  topic = "whatsapp.inbound.persisted";
  aggregate_type = "whatsapp-conversation";
  aggregate_id = "conversation";
  aggregate_sequence = 1;
  correlation_id = id;
  status = OutboxStatus.pending;
  attempts = 0;
  max_attempts = 3;
  available_at = 0;
  created_at = 0;
  locked_at = none;
  lock_id = none;
  execution_id = none;
  accepted_at = none;
  execution_lease_until = none;
  processing_provider = none;
  delivered_at = none;
  last_error = none;
  department_contact_option = none;
  message_text = none;
  message_id = none;
  attempt_id = none;
}

abbrev nothing : CompletionDb
nothing = record {
  queue = record { outbox = []; executions = [] };
  inbox = [];
  messages = [];
  message_attempts = [];
}

abbrev first_name : String
first_name = "a"

abbrev second_name : String
second_name = "b"

abbrev one : CompletionDb
one = record nothing { queue = create_ordered_outbox (event first_name) nothing.queue }

abbrev two : CompletionDb
two = record one { queue = create_ordered_outbox (event second_name) one.queue }

abbrev taken : CompletionDb
taken = record two { queue = (claim (λ s. s) settings (λ e. false) (λ e. "x") 5 7 two.queue).0 }

abbrev running : OutboxEvent
running = record (event first_name) {
  status = OutboxStatus.processing;
  attempts = 1;
  locked_at = some 7;
  lock_id = some "x";
  execution_id = some "x";
  processing_provider = some api;
}

abbrev waiting : OutboxEvent
waiting = record (event second_name) { aggregate_sequence = 2 }

opened : Unit {0}
unfolding create_ordered_outbox claim
opened = tt

abbrev lower : String → String
lower text = text

abbrev fingerprint : CompletionInput → String
fingerprint input = input.command_id

abbrev consumed_id : String → String → String
consumed_id execution event = execution

-- The row of a table of one row.
In-one : (row a : OutboxEvent) → In a (row ∷ []) → a ≡ row
In-one row a (inl e) = e
In-one row a (inr h) = elim h [ ]

names_differ : first_name ≢ second_name
names_differ same =
    let equal : (first_name == second_name) ≡ true = (eq_iff first_name second_name).1 same in cc

nothing-IsOrderly : IsOrderly nothing.queue.outbox
nothing-IsOrderly = record {
  ordered = λ a b ma mb running same less. elim ma [ ];
  keyed = λ a b ma mb same. elim ma [ ];
  numbered = λ a b ma mb same equal. elim ma [ ];
  bounded = λ a ma. elim ma [ ];
}

reach_taken : QueueReach lower fingerprint consumed_id nothing taken
unfolding opened
reach_taken =
    follows
      (follows
        (follows (starts nothing)
          (creates nothing (event first_name) (λ a member. elim member [ ])))
        (creates one (event second_name) (λ a member. rw (In-one _ a member) names_differ)))
      (claims two settings (λ e. false) (λ e. "x") 5 7)

reach_taken-IsCalm : IsCalm lower fingerprint consumed_id reach_taken
unfolding reach_taken
reach_taken-IsCalm = (((tt, tt), tt), tt)

processing_one_at_a_time_example :
    (waiting ≡ running)
    ⊎ ((is_live waiting ≡ false)
        ⊎ ((running.aggregate_sequence < waiting.aggregate_sequence)
            × (waiting.status ≢ OutboxStatus.processing)))
unfolding opened
processing_one_at_a_time_example =
    processing_one_at_a_time lower fingerprint consumed_id reach_taken reach_taken-IsCalm
      nothing-IsOrderly waiting running (inr (inl refl)) (inl refl) refl refl

attempts_within_limit_example : running.attempts ≤ running.max_attempts
unfolding opened
attempts_within_limit_example =
    attempts_within_limit lower fingerprint consumed_id reach_taken reach_taken-IsCalm
      nothing-IsOrderly running (inl refl)

abbrev done : OutboxEvent
done = record (event first_name) { status = OutboxStatus.delivered }

abbrev over : CompletionDb
over = record nothing { queue = record { outbox = done ∷ []; executions = [] } }

one_row-IsOrderly : IsOrderly over.queue.outbox
one_row-IsOrderly = record {
  ordered = λ a b ma mb running same less. rw (In-one _ a ma) refl;
  keyed = λ a b ma mb same. In-one _ a ma ∙ sym (In-one _ b mb);
  numbered = λ a b ma mb same equal. In-one _ a ma ∙ sym (In-one _ b mb);
  bounded = λ a ma. rw (In-one _ a ma) (ground arith);
}

delivered_until_expired_example :
    ((e' : OutboxEvent) × In e' (remove_expired 90 7 over).queue.outbox
      × (e'.id ≡ first_name)
      × (e'.status ≡ OutboxStatus.delivered))
    ⊎ WasRemoved lower fingerprint consumed_id over (remove_expired 90 7 over) done
delivered_until_expired_example =
    delivered_until_expired lower fingerprint consumed_id
      (follows (starts over) (removes over 90 7)) (tt, tt) one_row-IsOrderly done (inl refl) refl

abbrev report : CompletionInput
report = record {
  company_id = "company";
  event_id = first_name;
  command_id = "command";
  execution_id = "x";
  aggregate_type = "whatsapp-conversation";
  aggregate_id = "conversation";
  outcome = Outcome.succeeded;
  consumed_source_event_ids = second_name ∷ [];
  failure_code = "";
  failure_text = "";
}

abbrev answer : CompletionResult
answer = record {
  event_id = first_name;
  execution_id = "x";
  aggregate_type = "whatsapp-conversation";
  aggregate_id = "conversation";
  aggregate_sequence = 1;
  outcome = Outcome.succeeded;
  status = OutboxStatus.delivered;
  attempts = 1;
  consumed_event_count = 1;
}

abbrev reported : CompletionDb
reported = elim (complete_outbox_execution fingerprint consumed_id retries 20 report taken) [
  | ok (db, result, again) ↦ db
  | err error ↦ nothing
]

complete_twice_example :
    complete_outbox_execution fingerprint consumed_id retries 30 report reported
    ≡ ok (reported, answer, true)
unfolding opened complete_outbox_execution lume_tenant_api.Base.Sets.distinct
    lume_tenant_api.Base.Text.trim
complete_twice_example =
    complete_twice fingerprint consumed_id retries retries 20 30 report taken reported answer false
      refl

taken_rows : taken.queue.outbox ≡ running ∷ waiting ∷ []
unfolding opened
taken_rows = refl
