-- ===== src/Auth/Login.antt =====
-- authenticate.use-case.ts: a user logs in with a name and a password.
use lume_tenant_api.Base.{
  String, ℕ, ltb, Bool, true, false, not, ◌&&◌, ◌||◌, Option, none, some, List, [], ◌∷◌, ◌++◌, ◌==◌,
  string_eq, if◌then◌else◌, AppError, account_inactive, account_suspended,
  account_password_setup_required, invalid_credentials,
}
use lume_tenant_api.Base.Tables.{update_where, find_where}
use lume_tenant_api.Auth.Rows.{
  AccountStatus, Account, RefreshToken, AuthDb, PasswordHasher, first_access, is_suspended,
}
use lume_tenant_api.Auth.Identifiers.{normalize_login_identifier}
use lume_tenant_api.Auth.Accounts.{
  is_account, is_over, reactivate_expired_suspensions, find_account,
}
use lume_tenant_api.Auth.Sessions.{SessionSettings, SessionOutput, expires_after}
use lume_tenant_api.Auth.Passwords.{IssuedToken, issue_password_change_challenge}

abbrev pub has_identifier : String → Account → Bool
has_identifier identifier row =
    not row.is_deleted
    && (row.username_normalized == identifier || row.email_normalized == identifier)

-- A row whose suspension is over is read again once the suspension has ended.
unfoldable pub renewed_account : ℕ → ℕ → Option Account → AuthDb → AuthDb × Option Account
unfolding reactivate_expired_suspensions find_account
renewed_account compared_at ended_at none db = (db, none)
renewed_account compared_at ended_at (some row) db =
    let ended = reactivate_expired_suspensions row.company_id row.id ended_at db in
    if is_suspended row.status && is_over compared_at row.suspended_until
    then (ended, find_account row.company_id row.id ended)
    else (db, some row)

unfoldable pub find_by_login_identifier : String → ℕ → ℕ → AuthDb → AuthDb × Option Account
unfolding renewed_account find_where
find_by_login_identifier identifier compared_at ended_at db =
    renewed_account compared_at ended_at (find_where (has_identifier identifier) db.accounts) db

pub record LoginSettings : Type 0 where
  pub sessions : SessionSettings
  pub password_change_ttl_minutes : ℕ

-- What a login draws: the tokens, and the times that it reads from the clock.
pub record LoginDraw : Type 0 where
  pub refresh_token : IssuedToken
  pub link_token : IssuedToken
  pub compared_at : ℕ
  pub ended_at : ℕ
  pub checked_at : ℕ
  pub link_at : ℕ
  pub now : ℕ

pub record LoginInput : Type 0 where
  pub identifier : String
  pub password : String
  pub remember : Bool

-- The answer: an error, the error that carries a link to set a first password, or a session.
pub data LoginAnswer : Type 0 where
  refused : AppError → LoginAnswer
  password_setup : AppError → String → LoginAnswer
  logged_in : SessionOutput → LoginAnswer

abbrev pub wrong_credentials : AppError
wrong_credentials = record {
  code = invalid_credentials;
  message = "Usuário ou senha inválidos.";
  field = none;
}

abbrev pub suspended_account : AppError
suspended_account = record {
  code = account_suspended;
  message = "Esta conta está suspensa. Contate o administrador.";
  field = none;
}

abbrev pub inactive_account : AppError
inactive_account = record {
  code = account_inactive;
  message = "Esta conta está desativada. Contate o administrador.";
  field = none;
}

abbrev pub first_password_required : AppError
first_password_required = record {
  code = account_password_setup_required;
  message = "Crie uma nova senha para concluir o primeiro acesso.";
  field = none;
}

abbrev pub is_inactive : AccountStatus → Bool
is_inactive AccountStatus.inactive = true
is_inactive AccountStatus.active = false
is_inactive AccountStatus.suspended = false

abbrev pub is_ahead : ℕ → Option ℕ → Bool
is_ahead now none = false
is_ahead now (some until) = ltb now until

unfoldable pub login_token : LoginSettings → LoginDraw → LoginInput → Account → RefreshToken
login_token settings draw input account = record {
  id = draw.refresh_token.id;
  company_id = account.company_id;
  user_id = account.id;
  token_hash = draw.refresh_token.hash;
  remember_device = input.remember;
  expires_at = expires_after settings.sessions draw.now input.remember;
  revoked_at = none;
  created_at = draw.now;
}

-- `markLastLogin`.
unfoldable pub mark_last_login : String → String → ℕ → List Account → List Account
mark_last_login company user at accounts =
    update_where (is_account company user) (λ row. record row { last_login_at = some at }) accounts

-- The session that a login opens.
unfoldable pub open_session :
    LoginSettings → LoginDraw → LoginInput → Account → AuthDb → AuthDb × LoginAnswer
unfolding login_token mark_last_login
open_session settings draw input account db = (
  record db {
    accounts = mark_last_login account.company_id account.id draw.now db.accounts;
    refresh_tokens = db.refresh_tokens ++ login_token settings draw input account ∷ [];
  },
  logged_in (record {
    sub = account.id;
    company_id = account.company_id;
    token_version = account.token_version;
    refresh_token = draw.refresh_token.plain_text;
    session_id = draw.refresh_token.id;
    issued_at = draw.now;
    expires_at = expires_after settings.sessions draw.now input.remember;
    remember_device = input.remember;
  }),
)

abbrev set_up_password : LoginSettings → LoginDraw → Account → AuthDb → AuthDb × LoginAnswer
set_up_password settings draw account db =
    let (after, link) =
      issue_password_change_challenge account first_access draw.link_token
        settings.password_change_ttl_minutes draw.link_at db in
    (after, password_setup first_password_required link)

-- The login of a user whose password is right.
unfoldable pub admit :
    LoginSettings → LoginDraw → LoginInput → Account → AuthDb → AuthDb × LoginAnswer
unfolding issue_password_change_challenge open_session
admit settings draw input account db =
    if is_suspended account.status && is_ahead draw.checked_at account.suspended_until
    then (db, refused suspended_account)
    else if is_inactive account.status || not account.is_active
    then (db, refused inactive_account)
    else if account.must_change_password
    then set_up_password settings draw account db
    else open_session settings draw input account db

-- An unknown user is refused after a comparison with a fixed hash, whose result does not count.
unfoldable pub authenticate_as :
    PasswordHasher
    → LoginSettings
    → LoginDraw
    → LoginInput
    → Option Account
    → AuthDb
    → AuthDb × LoginAnswer
unfolding admit
authenticate_as hasher settings draw input none db = (db, refused wrong_credentials)
authenticate_as hasher settings draw input (some account) db =
    if hasher.compare input.password account.password_hash && account.company_is_active
    then admit settings draw input account db
    else (db, refused wrong_credentials)

unfoldable pub authenticate :
    (String → String)
    → PasswordHasher
    → LoginSettings
    → LoginDraw
    → LoginInput
    → AuthDb
    → AuthDb × LoginAnswer
unfolding authenticate_as find_by_login_identifier normalize_login_identifier
authenticate lower hasher settings draw input db =
    let (looked_up, record_found) =
      find_by_login_identifier (normalize_login_identifier lower input.identifier) draw.compared_at
        draw.ended_at db in
    authenticate_as hasher settings draw input record_found looked_up
