-- ===== src/WhatsApp/Outbox/Decisions.antt =====
-- What a decision about an event that was given up keeps of the queue.
use lume_tenant_api.Base.{
  String, ℕ, ◌<◌, Bool, true, false, Option, none, some, List, map, In, ◌≡◌, ◌≢◌, refl, sym, ◌∙◌,
  inl, inr, arith, Bool-cases, ◌==◌, string_eq, eq_iff, if◌then◌else◌, ok,
}
use lume_tenant_api.Base.Tables.{update_where, find_where, find_where-eq-some, map-In}
use lume_tenant_api.WhatsApp.Outbox.Rows.{
  processing, delivered, dead, outbox_status_eq, OutboxEvent, same_aggregate, is_live,
}
use lume_tenant_api.WhatsApp.Outbox.Claim.{QueueDb}
use lume_tenant_api.WhatsApp.Outbox.Order.{IsOrderly, IsSameEvent, IsSuccessor, kept-IsOrderly}
use lume_tenant_api.WhatsApp.Outbox.Reconcile.{
  Resolution, ReconcileInput, is_target, check_reconcilable, reconciled_row, reconcile_found,
  reconcile,
}

reconciled_row-IsSameEvent :
    (resolution : Resolution) (now : ℕ) (next_attempt : String) (e : OutboxEvent)
    → IsSameEvent e (reconciled_row resolution now next_attempt e)
reconciled_row-IsSameEvent Resolution.confirmed_processed now next_attempt e = ground arith
reconciled_row-IsSameEvent _ now next_attempt e = ground arith

reconciled_row-idle :
    (resolution : Resolution) (now : ℕ) (next_attempt : String) (e : OutboxEvent)
    → (reconciled_row resolution now next_attempt e).status ≢ processing
reconciled_row-idle Resolution.confirmed_processed now next_attempt e = λ h. ground arith
reconciled_row-idle _ now next_attempt e = λ h. ground arith

where-IsSameEvent :
    (test : Bool) (e changed : OutboxEvent)
    → IsSameEvent e changed
    → IsSameEvent e (if test then changed else e)
where-IsSameEvent true e changed u = u
where-IsSameEvent false e changed u = ground arith

check_reconcilable-dead :
    (resolution : Resolution) (event : OutboxEvent)
    → check_reconcilable resolution event ≡ ok tt
    → event.status ≡ dead
unfolding check_reconcilable
check_reconcilable-dead resolution event h = ground arith

reconcile_found-ok :
    (input : ReconcileInput) (now : ℕ) (next_attempt : String) (found : Option OutboxEvent)
    (db db' : QueueDb)
    → reconcile_found input now next_attempt found db ≡ ok db'
    → (event : OutboxEvent) × (found ≡ some event)
      × (event.status ≡ dead)
      × (db'.outbox
          ≡ update_where
              (is_target input)
              (reconciled_row input.resolution now next_attempt)
              db.outbox)
unfolding reconcile_found
reconcile_found-ok input now next_attempt none db db' h = cc
reconcile_found-ok input now next_attempt (some event) db db' h =
    (event, refl, check_reconcilable-dead input.resolution event (ground arith), ground arith)

-- No later event of the conversation is being processed when an event is decided on.
abbrev pub IsUndisturbed : ReconcileInput → List OutboxEvent → Type 0
IsUndisturbed input outbox =
    (e b : OutboxEvent)
    → In e outbox
    → In b outbox
    → is_target input e ≡ true
    → same_aggregate e b ≡ true
    → e.aggregate_sequence < b.aggregate_sequence
    → b.status ≢ processing

module _ (input : ReconcileInput) (now : ℕ) (next_attempt : String) (outbox : List OutboxEvent)
    (v : IsOrderly outbox) where
  abbrev decided : OutboxEvent → OutboxEvent
  decided e = if is_target input e then reconciled_row input.resolution now next_attempt e else e

  decided-first :
      IsUndisturbed input outbox
      → (a b : OutboxEvent) → In a outbox
      → In b outbox
      → (decided b).status ≡ processing
      → same_aggregate a b ≡ true
      → a.aggregate_sequence < b.aggregate_sequence
      → is_live (decided a) ≡ false
  decided-first calm a b in_a in_b running same less = elim (Bool-cases (is_target input b)) [
    | inl hit ↦ absurd (reconciled_row-idle input.resolution now next_attempt b (rw hit at running))
    | inr passed ↦
        let ran : b.status ≡ processing = rw passed at running in
        elim (Bool-cases (is_target input a)) [
          | inl hit ↦ absurd (calm a b in_a in_b hit same less ran)
          | inr other ↦ rw other (v.ordered a b in_a in_b ran same less)
        ]
  ]

  target-dead :
      (event : OutboxEvent)
      → In event outbox
      → is_target input event ≡ true
      → event.status ≡ dead
      → (e : OutboxEvent) → In e outbox
      → e.status ≡ delivered
      → is_target input e ≡ false
  target-dead event known hit over e member done = elim (Bool-cases (is_target input e)) [
    | inr other ↦ other
    | inl also ↦
        let left : (e.id == input.event_id) ≡ true = ground arith in
        let right : (event.id == input.event_id) ≡ true = ground arith in
        let same_id =
          (eq_iff e.id input.event_id).0 left ∙ sym ((eq_iff event.id input.event_id).0 right) in
        let same : e ≡ event = v.keyed e event member known same_id in
        let dead_too : e.status ≡ dead = rw same over in absurd (ground arith)
  ]

  decided-IsSuccessor :
      (event : OutboxEvent)
      → In event outbox
      → is_target input event ≡ true
      → event.status ≡ dead
      → IsUndisturbed input outbox
      → IsSuccessor outbox (map decided outbox)
  decided-IsSuccessor event known hit over calm = record {
    orderly =
        kept-IsOrderly decided outbox
          (λ e member.
            where-IsSameEvent (is_target input e) e _
              (reconciled_row-IsSameEvent input.resolution now next_attempt e))
          (decided-first calm) v;
    lasting = λ e member done.
        let other = target-dead event known hit over e member done in
        let same : decided e ≡ e = rw other refl in
        (decided e, map-In decided outbox e member, rw same refl, rw same done);
  }

pub reconciled-IsSuccessor :
    (input : ReconcileInput) (now : ℕ) (next_attempt : String) (db db' : QueueDb)
    → reconcile input now next_attempt db ≡ ok db'
    → IsUndisturbed input db.outbox
    → IsOrderly db.outbox
    → IsSuccessor db.outbox db'.outbox
unfolding reconcile
reconciled-IsSuccessor input now next_attempt db db' h calm v =
    let (event, found, over, after) =
      reconcile_found-ok input now next_attempt (find_where (is_target input) db.outbox) db db' h in
    let (known, hit) = find_where-eq-some (is_target input) db.outbox event found in
    rw after (decided-IsSuccessor input now next_attempt db.outbox v event known hit over calm)
