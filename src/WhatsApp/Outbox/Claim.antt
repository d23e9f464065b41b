-- ===== src/WhatsApp/Outbox/Claim.antt =====
-- whatsapp-automation-event.store.ts, `claim`: which events an instance takes to work on.
use Prim.Native.Nat.{Ordering}
use Prim.Native.Char.{code}
use Prim.Native.String.{compare}
use lume_tenant_api.Base.{
  String, ℕ, ◌+◌, ltb, leb, nat_beq, Bool, true, false, not, ◌&&◌, ◌||◌, Option, none, some, List,
  [], ◌∷◌, ◌++◌, map, any, filter, includes, is_some, ◌==◌, string_eq, if◌then◌else◌,
}
use lume_tenant_api.Base.Tables.{update_where, limit}
use lume_tenant_api.Base.Text.{is_blank}
use lume_tenant_api.WhatsApp.Outbox.Rows.{
  OutboxStatus, outbox_status_eq, AutomationProvider, n8n, api, OutboxEvent, ExecutionStatus,
  claimed, accepted, retryable_failure, terminal_failure, Execution, QueueSettings, same_aggregate,
  is_live, is_stale,
}

-- Executions whose event lost its lock or lease: they were claimed or accepted.
abbrev in_hand : ExecutionStatus → Bool
in_hand claimed = true
in_hand accepted = true
in_hand _ = false

abbrev is_retryable : ExecutionStatus → Bool
is_retryable retryable_failure = true
is_retryable _ = false

-- The event of an execution.
abbrev pub event_satisfies : (OutboxEvent → Bool) → List OutboxEvent → Execution → Bool
event_satisfies test outbox execution =
    any (λ e. e.id == execution.outbox_event_id && test e) outbox

abbrev lease_expired : String
lease_expired = "EXECUTION_LEASE_EXPIRED"

unfoldable pub expire_executions :
    QueueSettings → ℕ → List OutboxEvent → List Execution → List Execution
unfolding is_stale
expire_executions settings now outbox executions =
    update_where
      (λ x.
        in_hand x.status
        && event_satisfies (λ e. e.status == OutboxStatus.processing && is_stale settings now e)
            outbox x)
      (λ x. record x {
        status = retryable_failure;
        completed_at = some now;
        error_code = some lease_expired;
        error_message = some "A execução não foi concluída dentro da concessão.";
      })
      executions

abbrev pub waits_or_is_stale : QueueSettings → ℕ → OutboxEvent → Bool
waits_or_is_stale settings now event =
    event.status == OutboxStatus.pending
    || (event.status == OutboxStatus.processing && is_stale settings now event)

-- Events without an attempt left, that nobody works on, are given up.
unfoldable pub bury : QueueSettings → ℕ → OutboxEvent → OutboxEvent
unfolding is_stale
bury settings now event =
    if leb event.max_attempts event.attempts && waits_or_is_stale settings now event
    then record event {
      status = OutboxStatus.dead;
      execution_id = none;
      accepted_at = none;
      execution_lease_until = none;
      locked_at = none;
      lock_id = none;
      last_error = some "automation execution completion timeout exhausted";
    }
    else event

unfoldable pub end_executions : List OutboxEvent → List Execution → List Execution
end_executions outbox executions =
    update_where
      (λ x.
        is_retryable x.status
        && (elim x.error_code [ none ↦ false | some code ↦ code == lease_expired ])
        && event_satisfies (λ e. e.status == OutboxStatus.dead) outbox x)
      (λ x. record x {
        status = terminal_failure;
        error_code = some "EXECUTION_LEASE_EXPIRED_EXHAUSTED";
        error_message = some "A execução expirou e esgotou as tentativas.";
      })
      executions

abbrev pub inbound_topics : List String
inbound_topics = "whatsapp.inbound.persisted" ∷ "whatsapp.inbound.human-notification" ∷ []

abbrev api_or_free : Option AutomationProvider → Bool
api_or_free none = true
api_or_free (some api) = true
api_or_free (some n8n) = false

-- `btrim`, which takes spaces only.
unfoldable pub drop_spaces : String → String
drop_spaces String.[] = ""
drop_spaces (String.◌∷◌ c s) =
    let rest = drop_spaces s in if nat_beq (code c) 32 then rest else String.◌∷◌ c s

unfoldable pub drop_last_spaces : String → String
drop_last_spaces String.[] = ""
drop_last_spaces (String.◌∷◌ c s) =
    let rest = drop_last_spaces s in
    if nat_beq (code c) 32 && is_blank rest then "" else String.◌∷◌ c rest

-- An event of the same aggregate that comes first and is not finished.
abbrev pub is_predecessor : OutboxEvent → OutboxEvent → Bool
is_predecessor other event =
    same_aggregate other event
    && ltb other.aggregate_sequence event.aggregate_sequence
    && is_live other

-- `lower` of the database is a parameter of what follows.
module _ (lower : String → String) where
  unfoldable pub ends_collection : Option String → Bool
  unfolding drop_spaces drop_last_spaces
  ends_collection none = false
  ends_collection (some text) =
      includes ("fim" ∷ "concluído" ∷ "concluido" ∷ "pode encaminhar" ∷ [])
        (lower (drop_last_spaces (drop_spaces text)))

  -- Messages are collected for a while before a batch is worked off: longer while a contact with a
  -- department is described, unless the customer ends the description.
  unfoldable pub batch_ready : QueueSettings → ℕ → List OutboxEvent → OutboxEvent → Bool
  unfolding ends_collection
  batch_ready settings now outbox event =
      not (includes inbound_topics event.topic)
      || (is_some event.department_contact_option
          && (leb (event.created_at + settings.department_collection) now
              || (leb (event.created_at + 100) now && ends_collection event.message_text)))
      || (not (is_some event.department_contact_option)
          && leb (event.created_at + settings.debounce) now
          && not (
              any
                (λ newer.
                  same_aggregate newer event
                  && includes inbound_topics newer.topic
                  && ltb event.aggregate_sequence newer.aggregate_sequence
                  && ltb now (newer.created_at + settings.debounce))
                outbox))

  unfoldable pub is_candidate : QueueSettings → ℕ → List OutboxEvent → OutboxEvent → Bool
  unfolding batch_ready is_stale
  is_candidate settings now outbox event =
      includes ("whatsapp.outbound.requested" ∷ inbound_topics) event.topic
      && leb event.available_at now
      && api_or_free event.processing_provider
      && batch_ready settings now outbox event
      && waits_or_is_stale settings now event
      && ltb event.attempts event.max_attempts
      && not (any (λ other. is_predecessor other event) outbox)

-- `ORDER BY available_at, created_at, id`.
abbrev pub event_leb : OutboxEvent → OutboxEvent → Bool
event_leb a b =
    ltb a.available_at b.available_at
    || (nat_beq a.available_at b.available_at
        && (ltb a.created_at b.created_at
            || (nat_beq a.created_at b.created_at
                && (elim (compare a.id b.id) [ Ordering.gt ↦ false | _ ↦ true ]))))

unfoldable pub insert_event : OutboxEvent → List OutboxEvent → List OutboxEvent
insert_event event [] = event ∷ []
insert_event event (first ∷ rest) =
    let later = first ∷ insert_event event rest in
    if event_leb event first then event ∷ first ∷ rest else later

unfoldable pub order_events : List OutboxEvent → List OutboxEvent
unfolding insert_event
order_events [] = []
order_events (event ∷ rest) = insert_event event (order_events rest)

pub record QueueDb : Type 0 where
  pub outbox : List OutboxEvent
  pub executions : List Execution

abbrev pub event_id : OutboxEvent → String
event_id event = event.id

-- The row of a candidate, under its new execution.
abbrev pub claim_row : (OutboxEvent → String) → ℕ → OutboxEvent → OutboxEvent
claim_row new_id now event = record event {
  status = OutboxStatus.processing;
  locked_at = some now;
  lock_id = some (new_id event);
  execution_id = some (new_id event);
  processing_provider = some api;
  attempts = event.attempts + 1;
}

abbrev pub claimed_execution : (OutboxEvent → String) → ℕ → OutboxEvent → Execution
claimed_execution new_id now event = record {
  company_id = event.company_id;
  outbox_event_id = event.id;
  execution_id = new_id event;
  provider = api;
  status = claimed;
  attempt_number = event.attempts + 1;
  started_at = now;
  accepted_at = none;
  completed_at = none;
  error_code = none;
  error_message = none;
}

-- `skipped` are the rows that other transactions hold (`FOR UPDATE SKIP LOCKED`), and `new_id` is
-- `gen_random_uuid()` for each candidate.
module _ (lower : String → String) where
  unfoldable pub candidates :
      QueueSettings → (OutboxEvent → Bool) → ℕ → ℕ → List OutboxEvent → List OutboxEvent
  unfolding is_candidate order_events limit
  candidates settings skipped batch_size now outbox = limit batch_size (
      order_events
        (filter (λ e. is_candidate lower settings now outbox e && not (skipped e)) outbox))

  unfoldable pub take_candidates :
      (OutboxEvent → String) → ℕ → List OutboxEvent → List OutboxEvent → List OutboxEvent
  take_candidates new_id now chosen outbox =
      update_where (λ e. includes (map event_id chosen) e.id) (claim_row new_id now) outbox

  unfoldable pub claim :
      QueueSettings
      → (OutboxEvent → Bool)
      → (OutboxEvent → String)
      → ℕ
      → ℕ
      → QueueDb
      → QueueDb × List OutboxEvent
  unfolding expire_executions bury end_executions candidates take_candidates
  claim settings skipped new_id batch_size now db =
      let expired = expire_executions settings now db.outbox db.executions in
      let outbox = map (bury settings now) db.outbox in
      let ended = end_executions outbox expired in
      let chosen = candidates settings skipped batch_size now outbox in
      (
        record {
          outbox = take_candidates new_id now chosen outbox;
          executions = ended ++ map (claimed_execution new_id now) chosen;
        },
        map (claim_row new_id now) chosen,
      )
