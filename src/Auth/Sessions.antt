-- ===== src/Auth/Sessions.antt =====
-- refresh-session.use-case.ts and logout.use-case.ts, with prisma-refresh-tokens.repository.ts: a
-- session is renewed with a token that is used up by it.
use lume_tenant_api.Base.{
  String, ℕ, ◌+◌, ◌*◌, leb, nat_beq, Bool, true, false, not, ◌&&◌, Option, none, some, List, [],
  ◌∷◌, ◌++◌, is_some, ◌==◌, string_eq, if◌then◌else◌, Result, ok, err, AppError,
  invalid_refresh_token,
}
use lume_tenant_api.Base.Tables.{update_where, count_where, find_where}
use lume_tenant_api.Auth.Rows.{
  Account, RefreshToken, AuthDb, TokenService, ParsedToken, is_active_status,
}
use lume_tenant_api.Auth.Accounts.{revoked, reactivate_expired_suspensions, find_account}

-- What a renewal draws: the new token, and the times that it reads from the clock.
pub record SessionDraw : Type 0 where
  pub id : String
  pub plain_text : String
  pub hash : String
  pub now : ℕ
  pub looked_up_at : ℕ
  pub rotated_at : ℕ

pub record SessionSettings : Type 0 where
  pub refresh_ttl_days : ℕ
  pub remember_refresh_ttl_days : ℕ

-- The claims that the access token is signed for, and the session.
pub record SessionOutput : Type 0 where
  pub sub : String
  pub company_id : String
  pub token_version : ℕ
  pub refresh_token : String
  pub session_id : String
  pub issued_at : ℕ
  pub expires_at : ℕ
  pub remember_device : Bool

abbrev pub invalid_session : AppError
invalid_session = record {
  code = invalid_refresh_token;
  message = "Sessão inválida ou expirada.";
  field = none;
}

abbrev pub is_live : RefreshToken → Bool
is_live row = not (is_some row.revoked_at)

abbrev pub has_id : String → RefreshToken → Bool
has_id id row = row.id == id

abbrev pub live_with_id : String → RefreshToken → Bool
live_with_id id row = has_id id row && is_live row

-- The row of a token that may renew a session.
unfoldable pub usable_token : TokenService → ℕ → ParsedToken → RefreshToken → Bool
usable_token service now parsed row =
    service.matches parsed.hash row.token_hash && is_live row && not (leb row.expires_at now)

abbrev accepted : TokenService → ℕ → ParsedToken → Option RefreshToken → Option RefreshToken
accepted service now parsed none = none
accepted service now parsed (some row) =
    if usable_token service now parsed row then some row else none

unfoldable pub stored_session :
    TokenService → ℕ → Option ParsedToken → List RefreshToken → Option RefreshToken
unfolding find_where usable_token
stored_session service now none tokens = none
stored_session service now (some parsed) tokens =
    accepted service now parsed (find_where (has_id parsed.id) tokens)

abbrev pub may_renew : Account → Bool
may_renew account =
    account.is_active
    && is_active_status account.status
    && not account.must_change_password
    && account.company_is_active

-- `setUTCDate(getUTCDate() + days)`.
abbrev pub expires_after : SessionSettings → ℕ → Bool → ℕ
expires_after settings now remember =
    now
    + (if remember then settings.remember_refresh_ttl_days else settings.refresh_ttl_days)
      * 86400000

unfoldable pub next_token : SessionSettings → SessionDraw → RefreshToken → RefreshToken
next_token settings draw stored = record {
  id = draw.id;
  company_id = stored.company_id;
  user_id = stored.user_id;
  token_hash = draw.hash;
  remember_device = stored.remember_device;
  expires_at = expires_after settings draw.now stored.remember_device;
  revoked_at = none;
  created_at = draw.now;
}

-- `rotate`: the second component is whether the token could be used up.
unfoldable pub rotate : String → RefreshToken → ℕ → AuthDb → AuthDb × Bool
rotate current_id next_token at db =
    if nat_beq (count_where (live_with_id current_id) db.refresh_tokens) 1
    then (
      record db {
        refresh_tokens =
            update_where (live_with_id current_id) (revoked at) db.refresh_tokens
            ++ next_token ∷ [];
      },
      true,
    )
    else (db, false)

unfoldable pub renew :
    SessionSettings → SessionDraw → RefreshToken → Account → AuthDb → AuthDb × Result SessionOutput
unfolding rotate next_token
renew settings draw stored account db =
    let (after, rotated) = rotate stored.id (next_token settings draw stored) draw.rotated_at db in
    if rotated
    then (
      after,
      ok (record {
        sub = account.id;
        company_id = account.company_id;
        token_version = account.token_version;
        refresh_token = draw.plain_text;
        session_id = draw.id;
        issued_at = draw.now;
        expires_at = expires_after settings draw.now stored.remember_device;
        remember_device = stored.remember_device;
      }),
    )
    else (db, err invalid_session)

unfoldable pub renew_for :
    SessionSettings
    → SessionDraw
    → RefreshToken
    → Option Account
    → AuthDb
    → AuthDb × Result SessionOutput
unfolding renew
renew_for settings draw stored none db = (db, err invalid_session)
renew_for settings draw stored (some account) db =
    if may_renew account then renew settings draw stored account db else (db, err invalid_session)

unfoldable pub refresh_with :
    SessionSettings → SessionDraw → Option RefreshToken → AuthDb → AuthDb × Result SessionOutput
unfolding renew_for reactivate_expired_suspensions find_account
refresh_with settings draw none db = (db, err invalid_session)
refresh_with settings draw (some stored) db =
    let looked_up =
      reactivate_expired_suspensions stored.company_id stored.user_id draw.looked_up_at db in
    renew_for settings draw stored (find_account stored.company_id stored.user_id looked_up)
      looked_up

unfoldable pub refresh_session :
    TokenService → SessionSettings → SessionDraw → String → AuthDb → AuthDb × Result SessionOutput
unfolding refresh_with stored_session
refresh_session service settings draw raw_token db =
    refresh_with settings draw
      (stored_session service draw.now (service.parse raw_token) db.refresh_tokens) db

unfoldable pub revoke : String → ℕ → AuthDb → AuthDb
revoke id at db = record db {
  refresh_tokens = update_where (live_with_id id) (revoked at) db.refresh_tokens;
}

unfoldable pub logout : TokenService → ℕ → String → AuthDb → AuthDb
unfolding revoke find_where
logout service now raw_token db = elim (service.parse raw_token) [
  | none ↦ db
  | some parsed ↦ elim (find_where (has_id parsed.id) db.refresh_tokens) [
    | none ↦ db
    | some stored ↦
        if service.matches parsed.hash stored.token_hash then revoke stored.id now db else db
  ]
]
