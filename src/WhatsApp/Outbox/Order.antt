-- ===== src/WhatsApp/Outbox/Order.antt =====
-- One event of a conversation at a time: what every operation on the queue keeps.
use lume_tenant_api.Base.{
  ◌≤◌, ◌<◌, Bool, true, false, List, map, filter, In, ◌≡◌, refl, sym, ap, ◌∙◌, ◌⊎◌, inl, inr, arith,
  Bool-cases, string_eq,
}
use lume_tenant_api.Base.Tables.{In-map, map-In, In-filter}
use lume_tenant_api.WhatsApp.Outbox.Rows.{
  processing, delivered, outbox_status_eq, OutboxEvent, same_aggregate, is_live,
}

-- A processing event has no unfinished predecessor, an id belongs to one event, so does a place in
-- the order of a conversation, and no event is attempted more often than it may be.
pub record IsOrderly (outbox : List OutboxEvent) : Type 0 where
  pub ordered :
      (a b : OutboxEvent)
      → In a outbox
      → In b outbox
      → b.status ≡ processing
      → same_aggregate a b ≡ true
      → a.aggregate_sequence < b.aggregate_sequence
      → is_live a ≡ false
  pub keyed : (a b : OutboxEvent) → In a outbox → In b outbox → a.id ≡ b.id → a ≡ b
  pub numbered :
      (a b : OutboxEvent)
      → In a outbox
      → In b outbox
      → same_aggregate a b ≡ true
      → a.aggregate_sequence ≡ b.aggregate_sequence
      → a ≡ b
  pub bounded : (a : OutboxEvent) → In a outbox → a.attempts ≤ a.max_attempts

-- No predecessor of the event is unfinished.
abbrev pub IsFirst : List OutboxEvent → OutboxEvent → Type 0
IsFirst outbox event =
    (a : OutboxEvent)
    → In a outbox
    → same_aggregate a event ≡ true
    → a.aggregate_sequence < event.aggregate_sequence
    → is_live a ≡ false

-- The row keeps what identifies it, a finished event stays finished, an event is taken up only if it
-- comes first, and its attempts stay within the limit.
pub record IsUpdate (outbox : List OutboxEvent) (before after : OutboxEvent) : Type 0 where
  pub same_id : after.id ≡ before.id
  pub same_company : after.company_id ≡ before.company_id
  pub same_type : after.aggregate_type ≡ before.aggregate_type
  pub same_aggregate_id : after.aggregate_id ≡ before.aggregate_id
  pub same_sequence : after.aggregate_sequence ≡ before.aggregate_sequence
  pub same_maximum : after.max_attempts ≡ before.max_attempts
  pub lives : is_live after ≡ true → is_live before ≡ true
  pub starts : after.status ≡ processing → (before.status ≡ processing) ⊎ IsFirst outbox before
  pub within : before.attempts ≤ before.max_attempts → after.attempts ≤ before.max_attempts
  pub lasting : before.status ≡ delivered → after.status ≡ delivered

-- What every update keeps of a row: its identity, and the limit of its attempts.
pub record IsSameEvent (before after : OutboxEvent) : Type 0 where
  pub same_id : after.id ≡ before.id
  pub same_company : after.company_id ≡ before.company_id
  pub same_type : after.aggregate_type ≡ before.aggregate_type
  pub same_aggregate_id : after.aggregate_id ≡ before.aggregate_id
  pub same_sequence : after.aggregate_sequence ≡ before.aggregate_sequence
  pub same_maximum : after.max_attempts ≡ before.max_attempts
  pub within : before.attempts ≤ before.max_attempts → after.attempts ≤ before.max_attempts

update-IsSameEvent :
    {outbox : List OutboxEvent} {before after : OutboxEvent}
    → IsUpdate outbox before after
    → IsSameEvent before after
update-IsSameEvent u = record {
  same_id = u.same_id;
  same_company = u.same_company;
  same_type = u.same_type;
  same_aggregate_id = u.same_aggregate_id;
  same_sequence = u.same_sequence;
  same_maximum = u.same_maximum;
  within = u.within;
}

same_aggregate_before :
    {a a' b b' : OutboxEvent}
    → IsSameEvent a a'
    → IsSameEvent b b'
    → same_aggregate a' b' ≡ same_aggregate a b
same_aggregate_before u v =
    rw
      (
        u.same_company, u.same_type, u.same_aggregate_id, v.same_company, v.same_type,
        v.same_aggregate_id,
      )
      refl

-- An update of every row keeps the order, where no event that is processed then has an unfinished
-- predecessor.
pub kept-IsOrderly :
    (f : OutboxEvent → OutboxEvent) (outbox : List OutboxEvent)
    → ((e : OutboxEvent) → In e outbox → IsSameEvent e (f e))
    → ((a b : OutboxEvent)
        → In a outbox
        → In b outbox
        → (f b).status ≡ processing
        → same_aggregate a b ≡ true
        → a.aggregate_sequence < b.aggregate_sequence
        → is_live (f a) ≡ false)
    → IsOrderly outbox
    → IsOrderly (map f outbox)
kept-IsOrderly f outbox update first v = record {
  ordered = λ a' b' ma mb running same less.
      let (a, in_a, ea) = In-map f outbox a' ma in
      let (b, in_b, eb) = In-map f outbox b' mb in
      let ua = update a in_a in
      let ub = update b in_b in
      let same_before : same_aggregate a b ≡ true =
        sym (same_aggregate_before ua ub) ∙ (rw (ea, eb) at same) in
      let less_before : a.aggregate_sequence < b.aggregate_sequence =
        rw (← ua.same_sequence, ← ub.same_sequence) (rw (ea, eb) at less) in
      rw ea (first a b in_a in_b (rw eb at running) same_before less_before);
  keyed = λ a' b' ma mb same.
      let (a, in_a, ea) = In-map f outbox a' ma in
      let (b, in_b, eb) = In-map f outbox b' mb in
      let one =
        v.keyed a b in_a in_b
          (sym (update a in_a).same_id ∙ (rw (ea, eb) at same) ∙ (update b in_b).same_id) in
      ea ∙ ap f one ∙ sym eb;
  numbered = λ a' b' ma mb same equal.
      let (a, in_a, ea) = In-map f outbox a' ma in
      let (b, in_b, eb) = In-map f outbox b' mb in
      let ua = update a in_a in
      let ub = update b in_b in
      let same_before : same_aggregate a b ≡ true =
        sym (same_aggregate_before ua ub) ∙ (rw (ea, eb) at same) in
      let one =
        v.numbered a b in_a in_b same_before
          (sym ua.same_sequence ∙ (rw (ea, eb) at equal) ∙ ub.same_sequence) in
      ea ∙ ap f one ∙ sym eb;
  bounded = λ a' ma.
      let (a, in_a, ea) = In-map f outbox a' ma in
      let u = update a in_a in rw (ea, u.same_maximum) (u.within (v.bounded a in_a));
}

pub map-IsOrderly :
    (f : OutboxEvent → OutboxEvent) (outbox : List OutboxEvent)
    → ((e : OutboxEvent) → In e outbox → IsUpdate outbox e (f e))
    → IsOrderly outbox
    → IsOrderly (map f outbox)
map-IsOrderly f outbox update v =
    kept-IsOrderly f outbox (λ e member. update-IsSameEvent (update e member))
      (λ a b in_a in_b running same less.
        let idle : is_live a ≡ false = elim ((update b in_b).starts running) [
          | inl ran ↦ v.ordered a b in_a in_b ran same less
          | inr first ↦ first a in_a same less
        ] in
        elim (Bool-cases (is_live (f a))) [
          | inl alive ↦ absurd (ground (arith, (update a in_a).lives alive))
          | inr finished ↦ finished
        ])
      v

-- So does the removal of any rows.
pub filter-IsOrderly :
    (test : OutboxEvent → Bool) (outbox : List OutboxEvent)
    → IsOrderly outbox
    → IsOrderly (filter test outbox)
filter-IsOrderly test outbox v =
    let known = λ (e : OutboxEvent) (member : In e (filter test outbox)).
      (In-filter test outbox e member).0 in
    record {
      ordered = λ a b ma mb. v.ordered a b (known a ma) (known b mb);
      keyed = λ a b ma mb. v.keyed a b (known a ma) (known b mb);
      numbered = λ a b ma mb. v.numbered a b (known a ma) (known b mb);
      bounded = λ a ma. v.bounded a (known a ma);
    }

-- What one operation leaves behind: the order, and every delivered event.
pub record IsSuccessor (before after : List OutboxEvent) : Type 0 where
  pub orderly : IsOrderly after
  pub lasting :
      (e : OutboxEvent)
      → In e before
      → e.status ≡ delivered
      → (e' : OutboxEvent) × In e' after × (e'.id ≡ e.id) × (e'.status ≡ delivered)

pub map-IsSuccessor :
    (f : OutboxEvent → OutboxEvent) (outbox : List OutboxEvent)
    → ((e : OutboxEvent) → In e outbox → IsUpdate outbox e (f e))
    → IsOrderly outbox
    → IsSuccessor outbox (map f outbox)
map-IsSuccessor f outbox update v = record {
  orderly = map-IsOrderly f outbox update v;
  lasting = λ e member done.
      (f e, map-In f outbox e member, (update e member).same_id, (update e member).lasting done);
}

pub unchanged-IsSuccessor :
    {outbox : List OutboxEvent} → IsOrderly outbox → IsSuccessor outbox outbox
unchanged-IsSuccessor v = record { orderly = v; lasting = λ e member done. (e, member, refl, done) }

pub IsSuccessor-trans :
    {a b c : List OutboxEvent} → IsSuccessor a b → IsSuccessor b c → IsSuccessor a c
IsSuccessor-trans first second = record {
  orderly = second.orderly;
  lasting = λ e member done.
      let (e', member', same', done') = first.lasting e member done in
      let (e2, member2, same2, done2) = second.lasting e' member' done' in
      (e2, member2, same2 ∙ same', done2);
}
