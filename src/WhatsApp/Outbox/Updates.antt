-- ===== src/WhatsApp/Outbox/Updates.antt =====
-- Each operation on the queue as an update of its rows.
use lume_tenant_api.Base.{
  String, ℕ, ◌<◌, leb, Bool, true, false, not, ◌&&◌, List, [], ◌∷◌, map, filter, any, includes, In,
  ◌≡◌, refl, sym, ◌⊎◌, inl, inr, arith, Bool-cases, ◌==◌, string_eq, eq_iff, if◌then◌else◌,
}
use lume_tenant_api.Base.Tables.{update_where, In-filter, In-limit, any-In-false}
use lume_tenant_api.WhatsApp.Outbox.Rows.{outbox_status_eq, OutboxEvent, QueueSettings, is_live}
use lume_tenant_api.WhatsApp.Outbox.Claim.{
  is_predecessor, is_candidate, insert_event, order_events, candidates, take_candidates, claim_row,
  event_id, bury, waits_or_is_stale,
}
use lume_tenant_api.WhatsApp.Outbox.Order.{
  IsOrderly, IsFirst, IsUpdate, IsSuccessor, map-IsSuccessor,
}

pub unchanged-IsUpdate : (outbox : List OutboxEvent) (e : OutboxEvent) → IsUpdate outbox e e
unchanged-IsUpdate outbox e = record {
  same_id = refl;
  same_company = refl;
  same_type = refl;
  same_aggregate_id = refl;
  same_sequence = refl;
  same_maximum = refl;
  lives = λ h. h;
  starts = λ h. inl h;
  within = λ h. h;
  lasting = λ h. h;
}

-- A conditional update of a row, from what it does where its condition holds.
pub where-IsUpdate :
    (outbox : List OutboxEvent) (test : Bool) (e changed : OutboxEvent)
    → (test ≡ true → IsUpdate outbox e changed)
    → IsUpdate outbox e (if test then changed else e)
where-IsUpdate outbox true e changed u = u refl
where-IsUpdate outbox false e changed u = unchanged-IsUpdate outbox e

pub update_where-IsSuccessor :
    (test : OutboxEvent → Bool) (change : OutboxEvent → OutboxEvent) (outbox : List OutboxEvent)
    → ((e : OutboxEvent) → In e outbox → test e ≡ true → IsUpdate outbox e (change e))
    → IsOrderly outbox
    → IsSuccessor outbox (update_where test change outbox)
update_where-IsSuccessor test change outbox update v =
    map-IsSuccessor (λ e. if test e then change e else e) outbox
      (λ e member. where-IsUpdate outbox (test e) e (change e) (update e member)) v

pub bury-IsUpdate :
    (settings : QueueSettings) (now : ℕ) (outbox : List OutboxEvent) (e : OutboxEvent)
    → IsUpdate outbox e (bury settings now e)
unfolding bury
bury-IsUpdate settings now outbox e =
    where-IsUpdate outbox (leb e.max_attempts e.attempts && waits_or_is_stale settings now e) e _
      (λ test. record {
        same_id = refl;
        same_company = refl;
        same_type = refl;
        same_aggregate_id = refl;
        same_sequence = refl;
        same_maximum = refl;
        lives = λ h. ground arith;
        starts = λ h. ground arith;
        within = λ h. h;
        lasting = λ h. ground arith;
      })

In-insert_event :
    (event : OutboxEvent) (rows : List OutboxEvent) (x : OutboxEvent)
    → In x (insert_event event rows)
    → (x ≡ event) ⊎ In x rows
unfolding insert_event
In-insert_event event [] x (inl e) = inl e
In-insert_event event [] x (inr h) = elim h [ ]
In-insert_event event (first ∷ rest) x h = ground (arith, In-insert_event event rest x)

In-order_events : (rows : List OutboxEvent) (x : OutboxEvent) → In x (order_events rows) → In x rows
unfolding order_events
In-order_events [] x h = h
In-order_events (row ∷ rows) x h =
    ground (arith, In-insert_event row (order_events rows) x, In-order_events rows x)

includes-ids :
    (chosen : List OutboxEvent) (id : String)
    → includes (map event_id chosen) id ≡ true
    → (c : OutboxEvent) × In c chosen × (c.id ≡ id)
includes-ids [] id h = absurd (cc)
includes-ids (c ∷ cs) id h = elim (Bool-cases (id == c.id)) [
  | inl same ↦ (c, inl refl, sym ((eq_iff id c.id).0 same))
  | inr other ↦ let (d, member, e) = includes-ids cs id (ground arith) in (d, inr member, e)
]

module _ (lower : String → String) where
  In-candidates :
      (settings : QueueSettings) (skipped : OutboxEvent → Bool) (n now : ℕ)
      (outbox : List OutboxEvent) (x : OutboxEvent)
      → In x (candidates lower settings skipped n now outbox)
      → In x outbox × (is_candidate lower settings now outbox x ≡ true)
  unfolding candidates
  In-candidates settings skipped n now outbox x h =
      let test = λ (e : OutboxEvent). is_candidate lower settings now outbox e && not (skipped e) in
      let (member, passes) = In-filter test outbox x (
        In-order_events (filter test outbox) x
          (In-limit n (order_events (filter test outbox)) x h)) in
      (member, ground arith)

  is_candidate-IsFirst :
      (settings : QueueSettings) (now : ℕ) (outbox : List OutboxEvent) (e : OutboxEvent)
      → is_candidate lower settings now outbox e ≡ true
      → IsFirst outbox e × (e.attempts < e.max_attempts) × (is_live e ≡ true)
  unfolding is_candidate
  is_candidate-IsFirst settings now outbox e h =
      let alone : any (λ other. is_predecessor other e) outbox ≡ false = ground arith in
      (
        (λ a member same less.
            ground (arith, any-In-false (λ other. is_predecessor other e) outbox a alone member)),
        ground arith,
        ground arith,
      )

  pub take_candidates-IsSuccessor :
      (settings : QueueSettings) (skipped : OutboxEvent → Bool) (new_id : OutboxEvent → String)
      (n now : ℕ) (outbox : List OutboxEvent)
      → IsOrderly outbox
      → IsSuccessor outbox
          (take_candidates lower new_id now (candidates lower settings skipped n now outbox) outbox)
  unfolding take_candidates
  take_candidates-IsSuccessor settings skipped new_id n now outbox v =
      let chosen = candidates lower settings skipped n now outbox in
      update_where-IsSuccessor (λ e. includes (map event_id chosen) e.id) (claim_row new_id now)
        outbox
        (λ e member taken.
          let (c, in_c, same) = includes-ids chosen e.id taken in
          let (in_outbox, passes) = In-candidates settings skipped n now outbox c in_c in
          let one : c ≡ e = v.keyed c e in_outbox member same in
          let (first, less, alive) =
            is_candidate-IsFirst settings now outbox e (rw one at passes) in
          record {
            same_id = refl;
            same_company = refl;
            same_type = refl;
            same_aggregate_id = refl;
            same_sequence = refl;
            same_maximum = refl;
            lives = λ h. alive;
            starts = λ h. inr first;
            within = λ h. omega arith;
            lasting = λ h. ground arith;
          })
        v
