-- ===== src/WhatsApp/Outbox/Ends.antt =====
-- The end of an execution and the entry of an event, as steps of the queue.
use lume_tenant_api.Base.{
  String, ℕ, ◌≤◌, ◌<◌, Bool, true, some, List, [], ◌∷◌, ◌++◌, In, ◌≡◌, ◌≢◌, refl, sym, ◌∙◌, ◌⊎◌,
  inl, inr, arith, ◌==◌, string_eq, eq_iff, ok, Option-cases,
}
use lume_tenant_api.Base.Tables.{In-append, append-In, find_where, find_where-eq-some}
use lume_tenant_api.WhatsApp.Outbox.Rows.{
  pending, processing, outbox_status_eq, OutboxEvent, same_aggregate,
}
use lume_tenant_api.WhatsApp.Outbox.Claim.{QueueDb}
use lume_tenant_api.WhatsApp.Outbox.Complete.{
  CompletionInput, CompletionResult, CompletionDb, RetrySettings, check_event,
}
use lume_tenant_api.WhatsApp.Outbox.Report.{
  same_event, settle_outbox, settle, complete_event, complete_checked, complete_outbox_execution,
  replay_completion, create_ordered_outbox, latest_sequence, same_command,
}
use lume_tenant_api.WhatsApp.Outbox.Order.{IsOrderly, IsSuccessor, unchanged-IsSuccessor}
use lume_tenant_api.WhatsApp.Outbox.Steps.{settled-IsSuccessor}

check_event-processing :
    (input : CompletionInput) (event : OutboxEvent)
    → check_event input event ≡ ok tt
    → event.status ≡ processing
unfolding check_event
check_event-processing input event h = ground arith

module _ (fingerprint : CompletionInput → String) (consumed_id : String → String → String) where
  settle-outbox :
      (settings : RetrySettings) (now : ℕ) (input : CompletionInput) (event : OutboxEvent)
      (db : CompletionDb) (db' : CompletionDb) (result : CompletionResult) (again : Bool)
      → settle fingerprint consumed_id settings now input event db ≡ ok (db', result, again)
      → db'.queue.outbox ≡ settle_outbox settings now input event db.queue.outbox
  unfolding settle
  settle-outbox settings now input event db db' result again h = ground arith

  complete_event-IsSuccessor :
      (settings : RetrySettings) (now : ℕ) (input : CompletionInput) (db : CompletionDb)
      (event : OutboxEvent) (db' : CompletionDb) (result : CompletionResult) (again : Bool)
      → In event db.queue.outbox
      → same_event input event ≡ true
      → complete_event fingerprint consumed_id settings now input db (some event)
        ≡ ok (db', result, again)
      → IsOrderly db.queue.outbox
      → IsSuccessor db.queue.outbox db'.queue.outbox
  unfolding complete_event
  complete_event-IsSuccessor settings now input db event db' result again member same h v =
      let checked : check_event input event ≡ ok tt = ground arith in
      let settled : settle fingerprint consumed_id settings now input event db
          ≡ ok (db', result, again) =
        ground arith in
      rw (settle-outbox settings now input event db db' result again settled) (
        settled-IsSuccessor settings now input event db.queue.outbox member same
          (check_event-processing input event checked) v)

  pub completed-IsSuccessor :
      (settings : RetrySettings) (now : ℕ) (input : CompletionInput) (db : CompletionDb)
      (db' : CompletionDb) (result : CompletionResult) (again : Bool)
      → complete_outbox_execution fingerprint consumed_id settings now input db
        ≡ ok (db', result, again)
      → IsOrderly db.queue.outbox
      → IsSuccessor db.queue.outbox db'.queue.outbox
  unfolding complete_outbox_execution complete_checked replay_completion
  completed-IsSuccessor settings now input db db' result again h v =
      let known = find_where (same_command input) db.inbox in
      let checked : complete_checked fingerprint consumed_id settings now input db known
          ≡ ok (db', result, again) =
        ground arith in
      elim (Option-cases known) [
        | inr (row, e) ↦
            let replayed : replay_completion fingerprint consumed_id input db row
                ≡ ok (db', result, again) =
              rw e at checked in
            let same : db' ≡ db = ground arith in rw same (unchanged-IsSuccessor v)
        | inl e ↦
            let first : complete_event fingerprint consumed_id settings now input db
                  (find_where (same_event input) db.queue.outbox)
                ≡ ok (db', result, again) =
              rw e at checked in
            elim (Option-cases (find_where (same_event input) db.queue.outbox)) [
              | inl absent ↦ absurd (ground (arith, absent, first))
              | inr (event, found) ↦
                  let (member, same) =
                    find_where-eq-some (same_event input) db.queue.outbox event found in
                  complete_event-IsSuccessor settings now input db event db' result again member
                    same (rw found at first) v
            ]
      ]

latest_sequence_bounds :
    (event : OutboxEvent) (rows : List OutboxEvent) (a : OutboxEvent)
    → In a rows
    → same_aggregate a event ≡ true
    → a.aggregate_sequence ≤ latest_sequence event rows
unfolding latest_sequence
latest_sequence_bounds event [] a member same = elim member [ ]
latest_sequence_bounds event (row ∷ rows) a (inl e) same =
    let same_row : same_aggregate row event ≡ true = rw e at same in rw e (ground arith)
latest_sequence_bounds event (row ∷ rows) a (inr member) same =
    let earlier = latest_sequence_bounds event rows a member same in ground arith

pub same_aggregate_swap :
    (a b : OutboxEvent) → same_aggregate a b ≡ true → same_aggregate b a ≡ true
same_aggregate_swap a b h =
    let company : (a.company_id == b.company_id) ≡ true = ground arith in
    let type : (a.aggregate_type == b.aggregate_type) ≡ true = ground arith in
    let aggregate : (a.aggregate_id == b.aggregate_id) ≡ true = ground arith in
    let company_same = (eq_iff a.company_id b.company_id).0 company in
    let type_same = (eq_iff a.aggregate_type b.aggregate_type).0 type in
    let aggregate_same = (eq_iff a.aggregate_id b.aggregate_id).0 aggregate in
    rw (← company_same, ← type_same, ← aggregate_same)
      (rw (← company_same, ← type_same, ← aggregate_same) at h)

-- A row of the table is an earlier row, or the new one.
In-append_one :
    (rows : List OutboxEvent) (new x : OutboxEvent)
    → In x (rows ++ new ∷ [])
    → In x rows ⊎ (x ≡ new)
In-append_one rows new x h = elim (In-append rows (new ∷ []) x h) [
  | inl old ↦ inl old
  | inr (inl e) ↦ inr e
  | inr (inr none_left) ↦ elim none_left [ ]
]

-- A pending event that comes last and has an id of its own.
appended-IsSuccessor :
    (outbox : List OutboxEvent) (new : OutboxEvent)
    → ((a : OutboxEvent) → In a outbox → a.id ≢ new.id)
    → ((a : OutboxEvent)
        → In a outbox
        → same_aggregate a new ≡ true
        → a.aggregate_sequence < new.aggregate_sequence)
    → new.status ≡ pending
    → new.attempts ≡ 0
    → IsOrderly outbox
    → IsSuccessor outbox (outbox ++ new ∷ [])
appended-IsSuccessor outbox new fresh last waits untried v = record {
  orderly = record {
    ordered = λ a b ma mb running same less. elim (In-append_one outbox new b mb) [
      | inr e ↦ absurd (ground (arith, e))
      | inl in_b ↦ elim (In-append_one outbox new a ma) [
        | inl in_a ↦ v.ordered a b in_a in_b running same less
        | inr e ↦
            let back = same_aggregate_swap new b (rw e at same) in
            absurd (ground (arith, last b in_b back, e))
      ]
    ];
    keyed = λ a b ma mb same. elim (In-append_one outbox new a ma) [
      | inl in_a ↦ elim (In-append_one outbox new b mb) [
        | inl in_b ↦ v.keyed a b in_a in_b same
        | inr e ↦ absurd (fresh a in_a (rw e at same))
      ]
      | inr e ↦ elim (In-append_one outbox new b mb) [
        | inl in_b ↦ absurd (fresh b in_b (sym (rw e at same)))
        | inr e' ↦ e ∙ sym e'
      ]
    ];
    numbered = λ a b ma mb same equal. elim (In-append_one outbox new a ma) [
      | inl in_a ↦ elim (In-append_one outbox new b mb) [
        | inl in_b ↦ v.numbered a b in_a in_b same equal
        | inr e ↦ absurd (ground (arith, last a in_a (rw e at same), e))
      ]
      | inr e ↦ elim (In-append_one outbox new b mb) [
        | inl in_b ↦
            let back = same_aggregate_swap new b (rw e at same) in
            absurd (ground (arith, last b in_b back, e))
        | inr e' ↦ e ∙ sym e'
      ]
    ];
    bounded = λ a ma. elim (In-append_one outbox new a ma) [
      | inl in_a ↦ v.bounded a in_a
      | inr e ↦ ground arith
    ];
  };
  lasting = λ e member done. (e, append-In outbox (new ∷ []) e member, refl, done);
}

pub created-IsSuccessor :
    (event : OutboxEvent) (db : QueueDb)
    → ((a : OutboxEvent) → In a db.outbox → a.id ≢ event.id)
    → IsOrderly db.outbox
    → IsSuccessor db.outbox (create_ordered_outbox event db).outbox
unfolding create_ordered_outbox
created-IsSuccessor event db fresh v =
    appended-IsSuccessor db.outbox _ fresh
      (λ a member same.
        let bound = latest_sequence_bounds event db.outbox a member same in omega arith)
      refl refl v
