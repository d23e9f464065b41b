-- ===== src/WhatsApp/Outbox/Reach.antt =====
-- What holds of the queue, whatever any number of instances, services and retention runs do to it.
use lume_tenant_api.Base.{
  String, ℕ, ◌≤◌, ◌<◌, ltb, nat_beq, true, false, List, In, ◌≡◌, ◌≢◌, ◌⊎◌, inl, inr, arith,
  Bool-cases, string_eq, ltb→lt, refl, ◌∙◌,
}
use lume_tenant_api.WhatsApp.Outbox.Rows.{
  processing, delivered, outbox_status_eq, OutboxEvent, same_aggregate, is_live,
}
use lume_tenant_api.WhatsApp.Outbox.Complete.{CompletionInput, CompletionDb}
use lume_tenant_api.WhatsApp.Outbox.Messages.{MessageRow, AttemptRow}
use lume_tenant_api.WhatsApp.Outbox.Order.{IsOrderly}
use lume_tenant_api.WhatsApp.Outbox.Retention.{cutoff, remove_expired}
use lume_tenant_api.WhatsApp.Outbox.Ends.{same_aggregate_swap}
use lume_tenant_api.WhatsApp.Outbox.Runs.{
  IsOlder, QueueStep, QueueReach, starts, follows, stores, IsCalm, step-IsKept, reach-IsOrderly,
}

module _ (lower : String → String) (fingerprint : CompletionInput → String)
    (consumed_id : String → String → String) where
  -- Whatever entries, claims, acceptances, rejections, completions, reconciliations and the retention
  -- do to a queue in order, in whatever order, as long as an event is only reconciled while no later
  -- one of its conversation is being processed: while an event is being processed, every other event
  -- of its conversation is delivered or given up, or comes later and is not being processed.
  pub processing_one_at_a_time :
      {first db : CompletionDb} (reach : QueueReach lower fingerprint consumed_id first db)
      → IsCalm lower fingerprint consumed_id reach
      → IsOrderly first.queue.outbox
      → (a b : OutboxEvent) → In a db.queue.outbox
      → In b db.queue.outbox
      → same_aggregate a b ≡ true
      → b.status ≡ processing
      → (a ≡ b)
        ⊎ ((is_live a ≡ false)
            ⊎ ((b.aggregate_sequence < a.aggregate_sequence) × (a.status ≢ processing)))
  processing_one_at_a_time reach calm start a b in_a in_b same running =
      let v = reach-IsOrderly lower fingerprint consumed_id reach calm start in
      elim (Bool-cases (ltb a.aggregate_sequence b.aggregate_sequence)) [
        | inl less ↦ inr (inl (v.ordered a b in_a in_b running same (ltb→lt _ _ less)))
        | inr later ↦ elim (Bool-cases (nat_beq a.aggregate_sequence b.aggregate_sequence)) [
          | inl equal ↦ inl (v.numbered a b in_a in_b same (ground arith))
          | inr other ↦
              let after : b.aggregate_sequence < a.aggregate_sequence = ground arith in
              inr (
                inr (
                  after,
                  λ also.
                      let over =
                        v.ordered b a in_b in_a also (same_aggregate_swap a b same) after in
                      ground arith,
                ))
        ]
      ]

  -- From a queue in order, and as long as an event is only reconciled while no later one of its
  -- conversation is being processed, the count of an event's attempts, which a reconciliation sets
  -- back to 0, never passes the event's limit.
  pub attempts_within_limit :
      {first db : CompletionDb} (reach : QueueReach lower fingerprint consumed_id first db)
      → IsCalm lower fingerprint consumed_id reach
      → IsOrderly first.queue.outbox
      → (a : OutboxEvent) → In a db.queue.outbox
      → a.attempts ≤ a.max_attempts
  attempts_within_limit reach calm start a member =
      (reach-IsOrderly lower fingerprint consumed_id reach calm start).bounded a member

  -- A run of the retention that removed an event as delivered longer ago than its days.
  pub record WasRemoved (first db : CompletionDb) (e : OutboxEvent) : Type 0 where
    pub then_db : CompletionDb
    pub before : QueueReach lower fingerprint consumed_id first then_db
    pub days : ℕ
    pub now : ℕ
    pub row : OutboxEvent
    pub member : In row then_db.queue.outbox
    pub same_id : row.id ≡ e.id
    pub was_delivered : row.status ≡ delivered
    pub older : IsOlder (cutoff days now) row
    pub after : QueueReach lower fingerprint consumed_id (remove_expired days now then_db) db

  removed-stores :
      {first db : CompletionDb} (e : OutboxEvent) (messages : List MessageRow)
      (message_attempts : List AttemptRow)
      → WasRemoved first db e
      → WasRemoved first (record db { messages = messages; message_attempts = message_attempts }) e
  removed-stores e messages message_attempts r = record {
    then_db = r.then_db;
    before = r.before;
    days = r.days;
    now = r.now;
    row = r.row;
    member = r.member;
    same_id = r.same_id;
    was_delivered = r.was_delivered;
    older = r.older;
    after = stores messages message_attempts r.after;
  }

  removed-follows :
      {first db db' : CompletionDb} (e : OutboxEvent)
      → QueueStep lower fingerprint consumed_id db db'
      → WasRemoved first db e
      → WasRemoved first db' e
  removed-follows e step r = record {
    then_db = r.then_db;
    before = r.before;
    days = r.days;
    now = r.now;
    row = r.row;
    member = r.member;
    same_id = r.same_id;
    was_delivered = r.was_delivered;
    older = r.older;
    after = follows r.after step;
  }

  -- From a queue in order, and as long as an event is only reconciled while no later one of its
  -- conversation is being processed, a delivered event stays in the queue as delivered, until a run of
  -- the retention removes it as delivered longer ago than the days that it keeps.
  pub delivered_until_expired :
      {first db : CompletionDb} (reach : QueueReach lower fingerprint consumed_id first db)
      → IsCalm lower fingerprint consumed_id reach
      → IsOrderly first.queue.outbox
      → (e : OutboxEvent) → In e first.queue.outbox
      → e.status ≡ delivered
      → ((e' : OutboxEvent) × In e' db.queue.outbox × (e'.id ≡ e.id) × (e'.status ≡ delivered))
        ⊎ WasRemoved first db e
  delivered_until_expired (starts db) calm start e member done = inl (e, member, refl, done)
  delivered_until_expired (stores messages message_attempts reach) calm start e member done =
      elim (delivered_until_expired reach calm start e member done) [
        | inl kept ↦ inl kept
        | inr removed ↦ inr (removed-stores e messages message_attempts removed)
      ]
  delivered_until_expired (follows {db = db} reach step) calm start e member done =
      elim (delivered_until_expired reach calm.0 start e member done) [
        | inr removed ↦ inr (removed-follows e step removed)
        | inl (e', member', same, done') ↦
            let kept =
              step-IsKept lower fingerprint consumed_id step calm.1
                (reach-IsOrderly lower fingerprint consumed_id reach calm.0 start) in
            elim (kept.lasting e' member' done') [
              | inl (e2, member2, same2, done2) ↦ inl (e2, member2, same2 ∙ same, done2)
              | inr (days, now, over, left) ↦ inr (record {
                then_db = db;
                before = reach;
                days = days;
                now = now;
                row = e';
                member = member';
                same_id = same;
                was_delivered = done';
                older = over;
                after = rw left (starts (remove_expired days now db));
              })
            ]
      ]
