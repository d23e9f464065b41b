-- ===== src/Auth/Requests.antt =====
-- password-change.use-cases.ts: a user who forgot the password asks for a link. Times are milliseconds.
use lume_tenant_api.Base.{
  String, ℕ, ltb, ◌+◌, ◌*◌, Bool, true, ◌&&◌, Option, none, some, List, [], ◌∷◌, string_eq,
  if◌then◌else◌, Result, ok, err, AppError, email_delivery_unavailable,
}
use lume_tenant_api.Auth.Rows.{Account, Challenge, AuthDb, admin_reset, is_active_status}
use lume_tenant_api.Auth.Identifiers.{normalize_login_identifier}
use lume_tenant_api.Auth.Challenges.{create, delete}
use lume_tenant_api.Auth.Passwords.{IssuedToken}
use lume_tenant_api.Auth.Login.{find_by_login_identifier}

-- What the services around a request do: whether mail is set up, whether the link could be stored,
-- the code of the failure where the mail was not sent, and whether the link could then be removed
-- and the entry be written.
pub record Delivery : Type 0 where
  pub configured : Bool
  pub stored : Bool
  pub failure : Option String
  pub removed : Bool
  pub audited : Bool

-- The token of the link, and what is read from the clock: when the request starts and is looked up,
-- when the link is made, and when the use case is ready to answer.
pub record RequestDraw : Type 0 where
  pub started_at : ℕ
  pub reached_at : ℕ
  pub token : IssuedToken
  pub compared_at : ℕ
  pub ended_at : ℕ
  pub now : ℕ

pub record GenericResponse : Type 0 where
  pub requested : Bool
  pub message : String

-- An answer, and when it is given.
pub record Answer : Type 0 where
  pub given_at : ℕ
  pub response : GenericResponse

abbrev pub generic_response : GenericResponse
generic_response = record {
  requested = true;
  message =
      "Se a conta existir e estiver habilitada, enviaremos as instruções para o e-mail cadastrado.";
}

-- `waitForMinimumResponse`: when the wait is over.
unfoldable pub wait_for_minimum_response : ℕ → RequestDraw → ℕ
wait_for_minimum_response minimum draw =
    if ltb draw.reached_at (draw.started_at + minimum)
    then draw.started_at + minimum
    else draw.reached_at

abbrev pub delivery_unavailable : AppError
delivery_unavailable = record {
  code = email_delivery_unavailable;
  message = "A recuperação de senha por e-mail está temporariamente indisponível.";
  field = none;
}

abbrev pub may_request : Account → Bool
may_request account =
    account.company_is_active && account.is_active && is_active_status account.status

-- `PASSWORD_RESET_TTL_MINUTES` is 30.
abbrev pub reset_challenge : RequestDraw → Account → Challenge
reset_challenge draw account = record {
  id = draw.token.id;
  company_id = account.company_id;
  user_id = account.id;
  token_hash = draw.token.hash;
  reason = admin_reset;
  expires_at = draw.now + 30 * 60000;
  consumed_at = none;
  created_at = draw.now;
}

abbrev noted : Delivery → Account → String → List (String × String) → AuthDb → AuthDb
noted delivery account action metadata db =
    if delivery.audited
    then record db {
      audit =
          record {
            company_id = account.company_id;
            actor_user_id = none;
            user_id = account.id;
            action = action;
            metadata = metadata;
          }
          ∷ db.audit;
    }
    else db

-- Once the link is stored: the mail with it is sent, or is not and the link is removed.
unfoldable pub send_link :
    ℕ → Delivery → RequestDraw → Account → Option String → AuthDb → AuthDb × Answer
unfolding delete wait_for_minimum_response
send_link minimum delivery draw account none db = (
  noted delivery account "PASSWORD_RESET_SELF_REQUESTED" (("delivery", "resend") ∷ []) db,
  record { given_at = wait_for_minimum_response minimum draw; response = generic_response },
)
send_link minimum delivery draw account (some failure) db =
    let kept = if delivery.removed then delete draw.token.id db else db in
    (
      noted delivery account "PASSWORD_RESET_DELIVERY_FAILED"
          (("delivery", "resend")
            ∷ ("failureCode", failure)
            ∷ ("correlationId", draw.token.id)
            ∷ [])
          kept,
      record { given_at = wait_for_minimum_response minimum draw; response = generic_response },
    )

-- A link for an account that may have one; it may be that it cannot be stored.
unfoldable pub store_link : ℕ → Delivery → RequestDraw → Account → AuthDb → AuthDb × Answer
unfolding send_link create wait_for_minimum_response
store_link minimum delivery draw account db =
    if delivery.stored
    then send_link minimum delivery draw account delivery.failure
        (create (reset_challenge draw account) db)
    else (
      db,
      record { given_at = wait_for_minimum_response minimum draw; response = generic_response },
    )

unfoldable pub request_for : ℕ → Delivery → RequestDraw → Option Account → AuthDb → AuthDb × Answer
unfolding store_link wait_for_minimum_response
request_for minimum delivery draw none db =
    (db, record { given_at = wait_for_minimum_response minimum draw; response = generic_response })
request_for minimum delivery draw (some account) db =
    if may_request account then store_link minimum delivery draw account db else (
      db,
      record { given_at = wait_for_minimum_response minimum draw; response = generic_response },
    )

abbrev answered : AuthDb × Answer → AuthDb × Result Answer
answered (db, answer) = (db, ok answer)

-- `RequestPasswordResetUseCase.execute`.
unfoldable pub request_password_reset :
    (String → String) → ℕ → Delivery → RequestDraw → String → AuthDb → AuthDb × Result Answer
unfolding request_for find_by_login_identifier normalize_login_identifier
request_password_reset lower minimum delivery draw identifier db =
    let (looked_up, user) =
      find_by_login_identifier (normalize_login_identifier lower identifier) draw.compared_at
        draw.ended_at db in
    if delivery.configured
    then answered (request_for minimum delivery draw user looked_up)
    else (db, err delivery_unavailable)
