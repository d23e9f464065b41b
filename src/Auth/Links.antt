-- ===== src/Auth/Links.antt =====
-- After a password was set by a link: other links, the same link again, and earlier sessions.
use lume_tenant_api.Base.{
  String, ℕ, ◌≤◌, true, false, some, string_eq, ◌≡◌, refl, ◌⊎◌, inl, inr, arith, ok, err,
}
use lume_tenant_api.Base.Tables.{find_where, find_where-eq-some}
use lume_tenant_api.Auth.Rows.{
  Challenge, RefreshToken, AuthDb, TokenService, ParsedToken, PasswordHasher,
}
use lume_tenant_api.Auth.Challenges.{is_open, of_user, completed}
use lume_tenant_api.Auth.Sessions
use lume_tenant_api.Auth.Passwords.{
  invalid_link, PasswordSettings, LinkClock, usable_link, challenge_id, stored_challenge,
  completion_of, complete_with, complete_password_change,
}
use lume_tenant_api.Auth.Revocation.{
  revoke_sessions-revoked, completed-not_open, complete_password_change-IsCompletion,
}

unusable_link :
    (service : TokenService) (now : ℕ) (parsed : ParsedToken) (row : Challenge)
    → (is_open row ≡ false) ⊎ (row.expires_at ≤ now)
    → usable_link service now parsed row ≡ false
unfolding usable_link
unusable_link service now parsed row h = ground arith

refused_link :
    (service : TokenService) (hasher : PasswordHasher) (settings : PasswordSettings)
    (clock : LinkClock) (token new_password : String) (db : AuthDb) (parsed : ParsedToken)
    (row : Challenge)
    → service.parse token ≡ some parsed
    → find_where (challenge_id parsed.id) db.challenges ≡ some row
    → usable_link service clock.now parsed row ≡ false
    → complete_password_change service hasher settings clock token new_password db
      ≡ (db, err invalid_link)
unfolding complete_password_change stored_challenge complete_with
refused_link service hasher settings clock token new_password db parsed row read found unusable =
    rw (read, found, unusable) refl

-- Once a user set a password by a link, no link that the user was sent before works any more, the one
-- that was used included: at any later time it is refused as invalid and changes nothing.
pub links_end_with_completion :
    (service : TokenService) (hasher : PasswordHasher) (settings settings' : PasswordSettings)
    (clock clock' : LinkClock) (token token' new_password new_password' : String) (db db' : AuthDb)
    (used other : Challenge) (parsed : ParsedToken)
    → complete_password_change service hasher settings clock token new_password db ≡ (db', ok tt)
    → stored_challenge service clock.now (service.parse token) db.challenges ≡ some used
    → clock.now ≤ clock'.now
    → service.parse token' ≡ some parsed
    → find_where (challenge_id parsed.id) db'.challenges ≡ some other
    → of_user used.company_id used.user_id other ≡ true
    → complete_password_change service hasher settings' clock' token' new_password' db'
      ≡ (db', err invalid_link)
links_end_with_completion service hasher settings settings' clock clock' token token' new_password
      new_password' db db' used other parsed h named later read found mine =
    let (named_row, e, run) =
      complete_password_change-IsCompletion service hasher settings clock token new_password db db'
        h in
    let same : named_row ≡ used = ground (arith, e, named) in
    let (member, matches) =
      find_where-eq-some (challenge_id parsed.id) db'.challenges other found in
    let ended =
      completed-not_open (completion_of hasher clock named_row new_password) run.reason run.account
        run.start other (rw run.links at member) (rw same mine) in
    refused_link service hasher settings' clock' token' new_password' db' parsed other read found (
      unusable_link service clock'.now parsed other
        (elim ended [ inl closed ↦ inl closed | inr over ↦ inr (omega arith) ]))

-- Once a user set a password by a link, no session from before can be renewed: its token is refused as
-- invalid and nothing changes.
pub sessions_end_with_completion :
    (service service' : TokenService) (hasher : PasswordHasher) (settings : PasswordSettings)
    (session_settings : Sessions.SessionSettings) (clock : LinkClock) (draw : Sessions.SessionDraw)
    (token new_password raw_token : String) (db db' : AuthDb) (used : Challenge)
    (stored : RefreshToken) (parsed : ParsedToken)
    → complete_password_change service hasher settings clock token new_password db ≡ (db', ok tt)
    → stored_challenge service clock.now (service.parse token) db.challenges ≡ some used
    → service'.parse raw_token ≡ some parsed
    → find_where (Sessions.has_id parsed.id) db'.refresh_tokens ≡ some stored
    → stored.company_id ≡ used.company_id
    → stored.user_id ≡ used.user_id
    → Sessions.refresh_session service' session_settings draw raw_token db'
      ≡ (db', err Sessions.invalid_session)
unfolding Sessions.refresh_session Sessions.stored_session Sessions.usable_token
    Sessions.refresh_with completed
sessions_end_with_completion service service' hasher settings session_settings clock draw token
      new_password raw_token db db' used stored parsed h named read found company user =
    let (named_row, e, run) =
      complete_password_change-IsCompletion service hasher settings clock token new_password db db'
        h in
    let same : named_row ≡ used = ground (arith, e, named) in
    let (member, matches) =
      find_where-eq-some (Sessions.has_id parsed.id) db'.refresh_tokens stored found in
    let ended : Sessions.is_live stored ≡ false =
      revoke_sessions-revoked named_row.company_id named_row.user_id clock.now
        run.start.refresh_tokens stored (rw run.sessions at member) (rw same company)
        (rw same user) in
    let unusable : Sessions.usable_token service' draw.now parsed stored ≡ false = ground arith in
    rw (read, found, unusable) refl
