-- ===== src/WhatsApp/Outbox/Messages.antt =====
-- The rows of outgoing messages and of the attempts to send them, as far as the end of an outgoing
-- event reads them.
use lume_tenant_api.Base.{
  String, Bool, true, false, ◌&&◌, ◌||◌, Option, none, some, List, ◌==◌, string_eq,
}
use lume_tenant_api.Base.Tables.{find_where}

pub data MessageDirection : Type 0 where
  inbound outbound : MessageDirection

pub data DeliveryStatus : Type 0 where
  received pending sent delivered read failed : DeliveryStatus

pub data AttemptStatus : Type 0 where
  pending succeeded failed : AttemptStatus

pub data DispatchState : Type 0 where
  ready leased unknown succeeded failed : DispatchState

pub record MessageRow : Type 0 where
  pub id : String
  pub company_id : String
  pub direction : MessageDirection
  pub delivery_status : DeliveryStatus

pub record AttemptRow : Type 0 where
  pub id : String
  pub company_id : String
  pub message_id : String
  pub status : AttemptStatus
  pub dispatch_state : DispatchState

abbrev is_outbound : MessageDirection → Bool
is_outbound MessageDirection.outbound = true
is_outbound _ = false

abbrev is_positive : DeliveryStatus → Bool
is_positive sent = true
is_positive DeliveryStatus.delivered = true
is_positive read = true
is_positive _ = false

abbrev is_failed : DeliveryStatus → Bool
is_failed DeliveryStatus.failed = true
is_failed _ = false

abbrev attempt_succeeded : AttemptRow → Bool
attempt_succeeded row =
    (elim row.status [ AttemptStatus.succeeded ↦ true | _ ↦ false ])
    && (elim row.dispatch_state [ DispatchState.succeeded ↦ true | _ ↦ false ])

abbrev attempt_failed : AttemptRow → Bool
attempt_failed row =
    (elim row.status [ AttemptStatus.failed ↦ true | _ ↦ false ])
    && (elim row.dispatch_state [ DispatchState.failed ↦ true | _ ↦ false ])

-- The result of the provider is stored for the message and for the attempt: sent, or failed for good.
unfoldable pub outcome_persisted : String → Option MessageRow → Option AttemptRow → Bool
outcome_persisted message_id none attempt = false
outcome_persisted message_id (some message) none = false
outcome_persisted message_id (some message) (some attempt) =
    is_outbound message.direction
    && attempt.message_id == message_id
    && ((is_positive message.delivery_status && attempt_succeeded attempt)
        || (is_failed message.delivery_status && attempt_failed attempt))

abbrev find_message : List MessageRow → String → String → Option MessageRow
find_message rows company id = find_where (λ r. r.id == id && r.company_id == company) rows

abbrev find_attempt : List AttemptRow → String → String → Option AttemptRow
find_attempt rows company id = find_where (λ r. r.id == id && r.company_id == company) rows

unfoldable pub message_persisted :
    List MessageRow → List AttemptRow → String → String → String → Bool
unfolding outcome_persisted find_where
message_persisted messages attempts company message_id attempt_id =
    outcome_persisted message_id (find_message messages company message_id)
      (find_attempt attempts company attempt_id)
