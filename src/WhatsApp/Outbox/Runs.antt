-- ===== src/WhatsApp/Outbox/Runs.antt =====
-- The queue as a state machine: what any number of instances do, in any order and at any times.
use lume_tenant_api.Base.{
  some, Option-cases, ◌<◌, arith, String, ℕ, Bool, true, List, In, ◌≡◌, ◌≢◌, ◌⊎◌, inl, inr,
  Bool-cases, string_eq, ok, refl, not,
}
use lume_tenant_api.Base.Tables.{filter-In}
use lume_tenant_api.WhatsApp.Outbox.Rows.{delivered, outbox_status_eq, OutboxEvent, QueueSettings}
use lume_tenant_api.WhatsApp.Outbox.Claim.{QueueDb, claim}
use lume_tenant_api.WhatsApp.Outbox.Settle.{ClaimedEvent, mark_accepted, reject_before_acceptance}
use lume_tenant_api.WhatsApp.Outbox.Complete.{
  CompletionInput, CompletionResult, CompletionDb, RetrySettings,
}
use lume_tenant_api.WhatsApp.Outbox.Report.{complete_outbox_execution, create_ordered_outbox}
use lume_tenant_api.WhatsApp.Outbox.Messages.{MessageRow, AttemptRow}
use lume_tenant_api.WhatsApp.Outbox.Order.{IsOrderly, IsSuccessor, filter-IsOrderly}
use lume_tenant_api.WhatsApp.Outbox.Steps.{
  IsCopy, accepted-IsSuccessor, rejected-IsSuccessor, claimed-IsSuccessor,
}
use lume_tenant_api.WhatsApp.Outbox.Retention.{cutoff, is_expired, remove_expired}
use lume_tenant_api.WhatsApp.Outbox.Reconcile.{ReconcileInput, reconcile}
use lume_tenant_api.WhatsApp.Outbox.Decisions.{IsUndisturbed, reconciled-IsSuccessor}
use lume_tenant_api.WhatsApp.Outbox.Ends.{completed-IsSuccessor, created-IsSuccessor}

-- The event was delivered before a time.
abbrev pub IsOlder : ℕ → OutboxEvent → Type 0
IsOlder before e = (time : ℕ) × (e.delivered_at ≡ some time) × (time < before)

-- One transaction on the queue: of an instance, of a service that decides about an event that was
-- given up, or of the retention. The times and the settings differ from one to the next, as the instances' do. An
-- event gets an id of its own, and an instance gives back an event as it claimed it.
module _ (lower : String → String) (fingerprint : CompletionInput → String)
    (consumed_id : String → String → String) where
  pub data QueueStep : CompletionDb → CompletionDb → Type 0 where
    creates :
        (db : CompletionDb) (event : OutboxEvent)
        → ((a : OutboxEvent) → In a db.queue.outbox → a.id ≢ event.id)
        → QueueStep db (record db { queue = create_ordered_outbox event db.queue })
    claims :
        (db : CompletionDb) (settings : QueueSettings) (skipped : OutboxEvent → Bool)
        (new_id : OutboxEvent → String) (n now : ℕ)
        → QueueStep db
            (record db { queue = (claim lower settings skipped new_id n now db.queue).0 })
    accepts :
        (db : CompletionDb) (settings : QueueSettings) (now : ℕ) (event : ClaimedEvent)
        → QueueStep db (record db { queue = (mark_accepted settings now event db.queue).0 })
    gives_back :
        (db : CompletionDb) (settings : QueueSettings) (now : ℕ) (event : ClaimedEvent)
        (message : String)
        → IsCopy event db.queue.outbox
        → QueueStep db
            (record db { queue = reject_before_acceptance settings now event message db.queue })
    completes :
        (db db' : CompletionDb) (settings : RetrySettings) (now : ℕ) (input : CompletionInput)
        (result : CompletionResult) (again : Bool)
        → complete_outbox_execution fingerprint consumed_id settings now input db
          ≡ ok (db', result, again)
        → QueueStep db db'
    reconciles :
        (db : CompletionDb) (input : ReconcileInput) (now : ℕ) (next_attempt : String)
        (queue : QueueDb)
        → reconcile input now next_attempt db.queue ≡ ok queue
        → QueueStep db (record db { queue = queue })
    removes : (db : CompletionDb) (days now : ℕ) → QueueStep db (remove_expired days now db)

  -- The messages and the attempts to send them are stored by others.
  pub data QueueReach : CompletionDb → CompletionDb → Type 0 where
    starts : (db : CompletionDb) → QueueReach db db
    follows :
        {first db db' : CompletionDb}
        → QueueReach first db
        → QueueStep db db'
        → QueueReach first db'
    stores :
        {first db : CompletionDb} (messages : List MessageRow) (message_attempts : List AttemptRow)
        → QueueReach first db
        → QueueReach first (record db { messages = messages; message_attempts = message_attempts })

  -- A decision about an event is made while no later one of its conversation is being processed.
  abbrev pub IsCalmStep : {db db' : CompletionDb} → QueueStep db db' → Type 0
  IsCalmStep (reconciles db input now next_attempt queue h) = IsUndisturbed input db.queue.outbox
  IsCalmStep _ = Unit {0}

  abbrev pub IsCalm : {first db : CompletionDb} → QueueReach first db → Type 0
  IsCalm (starts db) = Unit {0}
  IsCalm (follows reach step) = IsCalm reach × IsCalmStep step
  IsCalm (stores messages message_attempts reach) = IsCalm reach

  expired-IsOlder : (before : ℕ) (e : OutboxEvent) → is_expired before e ≡ true → IsOlder before e
  expired-IsOlder before e h = elim (Option-cases e.delivered_at) [
    | inl absent ↦ absurd (ground (arith, absent, h))
    | inr (time, known) ↦ (time, known, ground (arith, known, h))
  ]

  -- What a step leaves: the order, and each delivered event, unless the retention removes it.
  pub record IsKept (before after : CompletionDb) : Type 0 where
    pub orderly : IsOrderly after.queue.outbox
    pub lasting :
        (e : OutboxEvent)
        → In e before.queue.outbox
        → e.status ≡ delivered
        → ((e' : OutboxEvent) × In e' after.queue.outbox × (e'.id ≡ e.id) × (e'.status ≡ delivered))
          ⊎ ((days : ℕ) × (now : ℕ) × IsOlder (cutoff days now) e
              × (after ≡ remove_expired days now before))

  successor-IsKept :
      {before after : CompletionDb}
      → IsSuccessor before.queue.outbox after.queue.outbox
      → IsKept before after
  successor-IsKept s = record {
    orderly = s.orderly;
    lasting = λ e member done. inl (s.lasting e member done);
  }

  removed-IsKept :
      (db : CompletionDb) (days now : ℕ)
      → IsOrderly db.queue.outbox
      → IsKept db (remove_expired days now db)
  unfolding remove_expired
  removed-IsKept db days now v = record {
    orderly =
        filter-IsOrderly (λ event. not (is_expired (cutoff days now) event)) db.queue.outbox v;
    lasting = λ e member done. elim (Bool-cases (is_expired (cutoff days now) e)) [
      | inl over ↦ inr (days, now, expired-IsOlder (cutoff days now) e over, refl)
      | inr fresh ↦
          let test = λ (event : OutboxEvent). not (is_expired (cutoff days now) event) in
          let passes : test e ≡ true = rw fresh refl in
          inl (e, filter-In test db.queue.outbox e member passes, refl, done)
    ];
  }

  pub step-IsKept :
      {db db' : CompletionDb} (step : QueueStep db db')
      → IsCalmStep step
      → IsOrderly db.queue.outbox
      → IsKept db db'
  step-IsKept (creates db event fresh) calm v =
      successor-IsKept (created-IsSuccessor event db.queue fresh v)
  step-IsKept (claims db settings skipped new_id n now) calm v =
      successor-IsKept (claimed-IsSuccessor lower settings skipped new_id n now db.queue v)
  step-IsKept (accepts db settings now event) calm v =
      successor-IsKept (accepted-IsSuccessor settings now event db.queue v)
  step-IsKept (gives_back db settings now event message copy) calm v =
      successor-IsKept (rejected-IsSuccessor settings now event message db.queue copy v)
  step-IsKept (completes db db' settings now input result again h) calm v =
      successor-IsKept
        (completed-IsSuccessor fingerprint consumed_id settings now input db db' result again h v)
  step-IsKept (reconciles db input now next_attempt queue h) calm v =
      successor-IsKept (reconciled-IsSuccessor input now next_attempt db.queue queue h calm v)
  step-IsKept (removes db days now) calm v = removed-IsKept db days now v

  pub reach-IsOrderly :
      {first db : CompletionDb} (reach : QueueReach first db)
      → IsCalm reach
      → IsOrderly first.queue.outbox
      → IsOrderly db.queue.outbox
  reach-IsOrderly (starts db) calm v = v
  reach-IsOrderly (follows reach step) calm v =
      (step-IsKept step calm.1 (reach-IsOrderly reach calm.0 v)).orderly
  reach-IsOrderly (stores messages message_attempts reach) calm v = reach-IsOrderly reach calm v
