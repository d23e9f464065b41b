-- ===== src/WhatsApp/Outbox/Steps.antt =====
-- The queue as a state machine: any instances, in any order, at any times.
use lume_tenant_api.Base.{
  String, ℕ, ◌+◌, Bool, true, false, ◌&&◌, none, some, List, In, ◌≡◌, refl, sym, ◌∙◌, inl, arith,
  ◌==◌, string_eq, eq_iff, if◌then◌else◌,
}
use lume_tenant_api.Base.Tables.{update_where}
use lume_tenant_api.WhatsApp.Outbox.Rows.{processing, outbox_status_eq, OutboxEvent, QueueSettings}
use lume_tenant_api.WhatsApp.Outbox.Claim.{QueueDb, bury, claim}
use lume_tenant_api.WhatsApp.Outbox.Settle.{
  ClaimedEvent, locked_by, is_api, mark_accepted, reject_before_acceptance,
}
use lume_tenant_api.WhatsApp.Outbox.Complete.{
  CompletionInput, RetrySettings, settled_row, consumed_row, is_consumed,
}
use lume_tenant_api.WhatsApp.Outbox.Report.{same_event, settle_outbox}
use lume_tenant_api.WhatsApp.Outbox.Order.{
  IsOrderly, IsUpdate, IsSuccessor, map-IsSuccessor, unchanged-IsSuccessor, IsSuccessor-trans,
}
use lume_tenant_api.WhatsApp.Outbox.Updates.{
  update_where-IsSuccessor, bury-IsUpdate, take_candidates-IsSuccessor,
}

-- An instance's copy of an event counts the attempts of the row that it holds the lock of: it was
-- made when that execution was claimed, and only a claim changes the count.
abbrev pub IsCopy : ClaimedEvent → List OutboxEvent → Type 0
IsCopy event outbox =
    (row : OutboxEvent) → In row outbox → locked_by event row ≡ true → event.attempts ≡ row.attempts

if-IsSuccessor :
    {outbox : List OutboxEvent} (test : Bool) (a b : QueueDb × Bool)
    → IsSuccessor outbox a.0.outbox
    → IsSuccessor outbox b.0.outbox
    → IsSuccessor outbox (if test then a else b).0.outbox
if-IsSuccessor true a b u v = u
if-IsSuccessor false a b u v = v

pub accepted-IsSuccessor :
    (settings : QueueSettings) (now : ℕ) (event : ClaimedEvent) (db : QueueDb)
    → IsOrderly db.outbox
    → IsSuccessor db.outbox (mark_accepted settings now event db).0.outbox
unfolding mark_accepted
accepted-IsSuccessor settings now event db v =
    let held = λ (row : OutboxEvent). locked_by event row && is_api row.processing_provider in
    let changed =
      update_where-IsSuccessor held
        (λ row. record row {
          accepted_at = some now;
          execution_lease_until = some (now + settings.execution_timeout);
          locked_at = none;
          lock_id = none;
          last_error = none;
        })
        db.outbox
        (λ e member holds. record {
          same_id = refl;
          same_company = refl;
          same_type = refl;
          same_aggregate_id = refl;
          same_sequence = refl;
          same_maximum = refl;
          lives = λ h. h;
          starts = λ h. inl h;
          within = λ h. h;
          lasting = λ h. h;
        })
        v in
    if-IsSuccessor _ _ _ (if-IsSuccessor _ _ _ changed (unchanged-IsSuccessor v))
      (unchanged-IsSuccessor v)

pub rejected-IsSuccessor :
    (settings : QueueSettings) (now : ℕ) (event : ClaimedEvent) (message : String) (db : QueueDb)
    → IsCopy event db.outbox
    → IsOrderly db.outbox
    → IsSuccessor db.outbox (reject_before_acceptance settings now event message db).outbox
unfolding reject_before_acceptance
rejected-IsSuccessor settings now event message db copy v =
    update_where-IsSuccessor (locked_by event) _ db.outbox
      (λ e member holds. record {
        same_id = refl;
        same_company = refl;
        same_type = refl;
        same_aggregate_id = refl;
        same_sequence = refl;
        same_maximum = refl;
        lives = λ h. ground arith;
        starts = λ h. ground arith;
        within = λ h. rw (copy e member holds) h;
        lasting = λ h. ground arith;
      })
      v

consumed-IsSuccessor :
    (now : ℕ) (input : CompletionInput) (event : OutboxEvent) (outbox : List OutboxEvent)
    → IsOrderly outbox
    → IsSuccessor outbox (update_where (is_consumed input event) (consumed_row now) outbox)
unfolding consumed_row is_consumed
consumed-IsSuccessor now input event outbox v =
    update_where-IsSuccessor (is_consumed input event) (consumed_row now) outbox
      (λ e member holds. record {
        same_id = refl;
        same_company = refl;
        same_type = refl;
        same_aggregate_id = refl;
        same_sequence = refl;
        same_maximum = refl;
        lives = λ h. ground arith;
        starts = λ h. ground arith;
        within = λ h. h;
        lasting = λ h. ground arith;
      })
      v

settled_row-IsUpdate :
    (settings : RetrySettings) (now : ℕ) (input : CompletionInput) (outbox : List OutboxEvent)
    (e : OutboxEvent)
    → e.status ≡ processing
    → IsUpdate outbox e (settled_row settings now input e)
unfolding settled_row
settled_row-IsUpdate settings now input outbox e running = record {
  same_id = ground arith;
  same_company = ground arith;
  same_type = ground arith;
  same_aggregate_id = ground arith;
  same_sequence = ground arith;
  same_maximum = ground arith;
  lives = λ h. ground arith;
  starts = λ h. inl running;
  within = λ h. ground arith;
  lasting = λ h. ground arith;
}

module _ (lower : String → String) where
  pub claimed-IsSuccessor :
      (settings : QueueSettings) (skipped : OutboxEvent → Bool) (new_id : OutboxEvent → String)
      (n now : ℕ) (db : QueueDb)
      → IsOrderly db.outbox
      → IsSuccessor db.outbox (claim lower settings skipped new_id n now db).0.outbox
  unfolding claim
  claimed-IsSuccessor settings skipped new_id n now db v =
      let buried =
        map-IsSuccessor (bury settings now) db.outbox
          (λ e member. bury-IsUpdate settings now db.outbox e) v in
      IsSuccessor-trans buried
        (take_candidates-IsSuccessor lower settings skipped new_id n now _ buried.orderly)

both_ids :
    (input : CompletionInput) (a b : OutboxEvent)
    → same_event input a ≡ true
    → same_event input b ≡ true
    → a.id ≡ b.id
both_ids input a b ha hb =
    let left : (a.id == input.event_id) ≡ true = ground arith in
    let right : (b.id == input.event_id) ≡ true = ground arith in
    (eq_iff a.id input.event_id).0 left ∙ sym ((eq_iff b.id input.event_id).0 right)

-- The event of a completion is the row that has its id and company.
pub settled-IsSuccessor :
    (settings : RetrySettings) (now : ℕ) (input : CompletionInput) (event : OutboxEvent)
    (outbox : List OutboxEvent)
    → In event outbox
    → same_event input event ≡ true
    → event.status ≡ processing
    → IsOrderly outbox
    → IsSuccessor outbox (settle_outbox settings now input event outbox)
unfolding settle_outbox
settled-IsSuccessor settings now input event outbox member same running v =
    let settled =
      update_where-IsSuccessor (same_event input) (settled_row settings now input) outbox
        (λ e in_outbox matches.
          let same_id : e.id ≡ event.id = both_ids input e event matches same in
          settled_row-IsUpdate settings now input outbox e
            (rw (v.keyed e event in_outbox member same_id) running))
        v in
    IsSuccessor-trans settled (consumed-IsSuccessor now input event _ settled.orderly)
