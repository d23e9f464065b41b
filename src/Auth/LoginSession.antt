-- ===== src/Auth/LoginSession.antt =====
-- A session that a login opens can be renewed.
use lume_tenant_api.Base.{
  String, ℕ, ◌<◌, leb, true, false, none, some, List, [], ◌∷◌, ◌++◌, ◌==◌, string_eq, eq_iff, ◌≡◌,
  refl, ap, arith, In, ok,
}
use lume_tenant_api.Base.Tables.{find_where, find_where-last, count_where, count_where-last}
use lume_tenant_api.Auth.Rows.{
  Account, RefreshToken, AuthDb, TokenService, ParsedToken, PasswordHasher, is_active_status,
}
use lume_tenant_api.Auth.Accounts.{reactivate_expired_suspensions, find_account}
use lume_tenant_api.Auth.Sessions.{
  SessionDraw, SessionSettings, SessionOutput, has_id, live_with_id, may_renew, usable_token,
  expires_after, stored_session, rotate, renew, renew_for, refresh_with, refresh_session,
}
use lume_tenant_api.Auth.Identifiers.{normalize_login_identifier}
use lume_tenant_api.Auth.LoginFound.{
  authenticate_as-logged_in, renewed_account-found, find_account-marked,
}
use lume_tenant_api.Auth.Login.{
  LoginSettings, LoginDraw, LoginInput, logged_in, find_by_login_identifier, login_token,
  open_session, authenticate,
}

-- A renewal of a stored token that no other row has the id of.
renew-answers :
    (settings : SessionSettings) (draw : SessionDraw) (stored : RefreshToken) (account : Account)
    (db : AuthDb)
    → may_renew account ≡ true
    → count_where (live_with_id stored.id) db.refresh_tokens ≡ 1
    → (after : AuthDb) × (output : SessionOutput) × (renew_for settings draw stored
          (some account)
          db
        ≡ (after, ok output))
      × (output.sub ≡ account.id)
      × (output.token_version ≡ account.token_version)
unfolding renew_for renew rotate
renew-answers settings draw stored account db may one = rw (may, one) (_, _, refl, refl, refl)

stored_session-answers :
    (service : TokenService) (now : ℕ) (token : ParsedToken) (tokens : List RefreshToken)
    (stored : RefreshToken)
    → find_where (has_id token.id) tokens ≡ some stored
    → usable_token service now token stored ≡ true
    → stored_session service now (some token) tokens ≡ some stored
unfolding stored_session
stored_session-answers service now token tokens stored found usable = rw (found, usable) refl

-- The database after a login.
abbrev opened_db : LoginSettings → LoginDraw → LoginInput → Account → AuthDb → AuthDb
opened_db settings draw input account db = (open_session settings draw input account db).0

-- The session of an account in use, at a renewal after the login.
opened_session-renewable :
    (service : TokenService) (settings : LoginSettings) (draw : LoginDraw) (input : LoginInput)
    (next : SessionDraw) (account : Account) (db : AuthDb)
    → service.parse draw.refresh_token.plain_text
      ≡ some (record { id = draw.refresh_token.id; hash = draw.refresh_token.hash })
    → service.matches draw.refresh_token.hash draw.refresh_token.hash ≡ true
    → find_where (has_id draw.refresh_token.id) db.refresh_tokens ≡ none
    → find_account account.company_id account.id db ≡ some account
    → may_renew account ≡ true
    → leb (expires_after settings.sessions draw.now input.remember) next.now ≡ false
    → (after : AuthDb) × (renewed : SessionOutput) × (refresh_session service settings.sessions next
          draw.refresh_token.plain_text
          (opened_db settings draw input account db)
        ≡ (after, ok renewed))
      × (renewed.sub ≡ account.id)
      × (renewed.token_version ≡ account.token_version)
unfolding refresh_session refresh_with open_session reactivate_expired_suspensions usable_token
opened_session-renewable service settings draw input next account db read matched fresh own may
      running =
    let id = draw.refresh_token.id in
    let token = login_token settings draw input account in
    let own_id : (id == id) ≡ true = (eq_iff id id).1 refl in
    let live : live_with_id id token ≡ true = ground arith in
    let there = find_where-last (has_id id) db.refresh_tokens token fresh own_id in
    let usable : usable_token service next.now (record { id = id; hash = draw.refresh_token.hash })
          token
        ≡ true =
      ground arith in
    let known =
      stored_session-answers service next.now (record { id = id; hash = draw.refresh_token.hash })
        (db.refresh_tokens ++ token ∷ []) token there usable in
    let in_use : is_active_status account.status ≡ true = ground arith in
    let present =
      find_account-marked db account account.company_id account.id draw.now next.looked_up_at
        (db.refresh_tokens ++ token ∷ []) own in_use in
    let one =
      count_where-last (has_id id) (live_with_id id) db.refresh_tokens token fresh
        (λ row both. ground arith) live in
    let (after, renewed, answered, sub, version) =
      renew-answers settings.sessions next token (record account { last_login_at = some draw.now })
        (reactivate_expired_suspensions account.company_id account.id next.looked_up_at
          (opened_db settings draw input account db))
        may one in
    (after, renewed, rw (read, known, present) answered, sub, version)

open_session-eq :
    (settings : LoginSettings) (draw : LoginDraw) (input : LoginInput) (account : Account)
    (db db' : AuthDb) (output : SessionOutput)
    → open_session settings draw input account db ≡ (db', logged_in output)
    → (db' ≡ opened_db settings draw input account db)
      × (output.refresh_token ≡ draw.refresh_token.plain_text)
      × (output.expires_at ≡ expires_after settings.sessions draw.now input.remember)
      × (output.sub ≡ account.id)
      × (output.token_version ≡ account.token_version)
unfolding open_session
open_session-eq settings draw input account db db' output h =
    (cc, ground arith, ground arith, ground arith, ground arith)

-- The same, for what the login answers.
logged_in-renewable :
    (service : TokenService) (settings : LoginSettings) (draw : LoginDraw) (input : LoginInput)
    (next : SessionDraw) (account : Account) (db db' : AuthDb) (output : SessionOutput)
    → service.parse draw.refresh_token.plain_text
      ≡ some (record { id = draw.refresh_token.id; hash = draw.refresh_token.hash })
    → service.matches draw.refresh_token.hash draw.refresh_token.hash ≡ true
    → find_where (has_id draw.refresh_token.id) db.refresh_tokens ≡ none
    → find_account account.company_id account.id db ≡ some account
    → may_renew account ≡ true
    → open_session settings draw input account db ≡ (db', logged_in output)
    → next.now < output.expires_at
    → (after : AuthDb) × (renewed : SessionOutput) × (refresh_session service settings.sessions next
          output.refresh_token db'
        ≡ (after, ok renewed))
      × (renewed.sub ≡ output.sub)
      × (renewed.token_version ≡ output.token_version)
logged_in-renewable service settings draw input next account db db' output read matched fresh own
      may opened running =
    let (e, token, expires, sub, version) =
      open_session-eq settings draw input account db db' output opened in
    let (after, renewed, answered, same_sub, same_version) =
      opened_session-renewable service settings draw input next account db read matched fresh own
        may (ground arith) in
    (after, renewed, rw (e, token) answered, cc, cc)

-- Where an account's id is its own and every active account has the status of one, a login that opens
-- a session gives a token with which the session can be renewed at any time before it is over, for
-- the same account and version of its passwords. What is asked of the token service is that it reads
-- the token that it issued, that a hash matches itself, and that the id of the token is new.
pub authenticate-refresh_session :
    (lower : String → String) (hasher : PasswordHasher) (service : TokenService)
    (settings : LoginSettings) (draw : LoginDraw) (input : LoginInput) (next : SessionDraw)
    (db db' : AuthDb) (output : SessionOutput)
    → service.parse draw.refresh_token.plain_text
      ≡ some (record { id = draw.refresh_token.id; hash = draw.refresh_token.hash })
    → service.matches draw.refresh_token.hash draw.refresh_token.hash ≡ true
    → find_where (has_id draw.refresh_token.id) db.refresh_tokens ≡ none
    → ((row other : Account)
        → In row db.accounts
        → In other db.accounts
        → row.id ≡ other.id
        → row ≡ other)
    → ((row : Account)
        → In row db.accounts
        → row.is_active ≡ true
        → is_active_status row.status ≡ true)
    → authenticate lower hasher settings draw input db ≡ (db', logged_in output)
    → next.now < output.expires_at
    → (after : AuthDb) × (renewed : SessionOutput) × (refresh_session service settings.sessions next
          output.refresh_token db'
        ≡ (after, ok renewed))
      × (renewed.sub ≡ output.sub)
      × (renewed.token_version ≡ output.token_version)
unfolding authenticate find_by_login_identifier
authenticate-refresh_session lower hasher service settings draw input next db db' output read
      matched fresh same_row in_use h running =
    let identifier = normalize_login_identifier lower input.identifier in
    let looked_up = find_by_login_identifier identifier draw.compared_at draw.ended_at db in
    let (account, found, company, active, set, opened) =
      authenticate_as-logged_in hasher settings draw input looked_up.1 looked_up.0 db' output h in
    let (own, tokens, status) =
      renewed_account-found db same_row in_use identifier draw.compared_at draw.ended_at looked_up.0
        account (ap (λ found. (looked_up.0, found)) found) in
    let used = status active in
    logged_in-renewable service settings draw input next account looked_up.0 db' output read matched
      (rw tokens fresh) own (ground arith) opened running
