-- ===== src/Auth/Rotation.antt =====
-- A refresh token renews one session, once.
use lume_tenant_api.Base.{
  String, ℕ, true, false, Option, none, some, List, [], ◌∷◌, ◌++◌, string_eq, eq_iff, ◌≡◌, refl,
  arith, Option-cases, inl, inr, ok, err,
}
use lume_tenant_api.Base.Tables.{
  update_where, find_where, find_where-eq-some, find_where-update_where, find_where-append,
}
use lume_tenant_api.Auth.Rows.{Account, RefreshToken, AuthDb, TokenService, ParsedToken}
use lume_tenant_api.Auth.Accounts.{revoked, reactivate_expired_suspensions, find_account}
use lume_tenant_api.Auth.Sessions.{
  SessionDraw, SessionSettings, SessionOutput, invalid_session, is_live, has_id, live_with_id,
  usable_token, stored_session, next_token, rotate, renew, renew_for, refresh_with, refresh_session,
}

-- The tokens after a renewal: the one that was used is revoked, and the next one is added.
abbrev rotated_tokens :
    SessionSettings → SessionDraw → RefreshToken → List RefreshToken → List RefreshToken
rotated_tokens settings draw stored tokens =
    update_where (live_with_id stored.id) (revoked draw.rotated_at) tokens
    ++ next_token settings draw stored ∷ []

renew-tokens :
    (settings : SessionSettings) (draw : SessionDraw) (stored : RefreshToken) (account : Account)
    (db db' : AuthDb) (output : SessionOutput)
    → renew settings draw stored account db ≡ (db', ok output)
    → db'.refresh_tokens ≡ rotated_tokens settings draw stored db.refresh_tokens
unfolding renew rotate
renew-tokens settings draw stored account db db' output h = ground arith

renew_for-tokens :
    (settings : SessionSettings) (draw : SessionDraw) (stored : RefreshToken)
    (account : Option Account) (db db' : AuthDb) (output : SessionOutput)
    → renew_for settings draw stored account db ≡ (db', ok output)
    → db'.refresh_tokens ≡ rotated_tokens settings draw stored db.refresh_tokens
unfolding renew_for
renew_for-tokens settings draw stored none db db' output h = cc
renew_for-tokens settings draw stored (some account) db db' output h =
    renew-tokens settings draw stored account db db' output (ground arith)

refresh_with-tokens :
    (settings : SessionSettings) (draw : SessionDraw) (known : Option RefreshToken)
    (db db' : AuthDb) (output : SessionOutput)
    → refresh_with settings draw known db ≡ (db', ok output)
    → (stored : RefreshToken) × (known ≡ some stored)
      × (db'.refresh_tokens ≡ rotated_tokens settings draw stored db.refresh_tokens)
unfolding refresh_with reactivate_expired_suspensions
refresh_with-tokens settings draw none db db' output h = cc
refresh_with-tokens settings draw (some stored) db db' output h =
    let looked_up =
      reactivate_expired_suspensions stored.company_id stored.user_id draw.looked_up_at db in
    (
      stored,
      refl,
      renew_for-tokens settings draw stored
          (find_account stored.company_id stored.user_id looked_up) looked_up db' output h,
    )

-- The row of the token is the first one of its id, and it is live.
stored_session-found :
    (service : TokenService) (now : ℕ) (parsed : Option ParsedToken) (tokens : List RefreshToken)
    (stored : RefreshToken)
    → stored_session service now parsed tokens ≡ some stored
    → (token : ParsedToken) × (parsed ≡ some token)
      × (find_where (has_id token.id) tokens ≡ some stored)
      × (is_live stored ≡ true)
unfolding stored_session usable_token
stored_session-found service now none tokens stored h = cc
stored_session-found service now (some token) tokens stored h =
    elim (Option-cases (find_where (has_id token.id) tokens)) [
      | inl absent ↦ absurd (ground (arith, absent, h))
      | inr (row, found) ↦
          let usable = rw found at h in
          let same : row ≡ stored = ground arith in
          let live : is_live row ≡ true = ground arith in
          (token, refl, rw (← same) found, rw (← same) live)
    ]

refused_token :
    (service : TokenService) (settings : SessionSettings) (draw : SessionDraw) (raw_token : String)
    (db : AuthDb) (token : ParsedToken) (row : RefreshToken)
    → service.parse raw_token ≡ some token
    → find_where (has_id token.id) db.refresh_tokens ≡ some row
    → is_live row ≡ false
    → refresh_session service settings draw raw_token db ≡ (db, err invalid_session)
unfolding refresh_session stored_session usable_token refresh_with
refused_token service settings draw raw_token db token row read found ended =
    let unusable : usable_token service draw.now token row ≡ false = ground arith in
    rw (read, found, unusable) refl

-- A refresh token is used up by the session that it renews: sent again, at any time, it is refused as
-- invalid, and nothing changes.
pub refresh_session-once :
    (service : TokenService) (settings settings' : SessionSettings) (draw draw' : SessionDraw)
    (raw_token : String) (db db' : AuthDb) (output : SessionOutput)
    → refresh_session service settings draw raw_token db ≡ (db', ok output)
    → refresh_session service settings' draw' raw_token db' ≡ (db', err invalid_session)
unfolding refresh_session
refresh_session-once service settings settings' draw draw' raw_token db db' output h =
    let (stored, known, after) =
      refresh_with-tokens settings draw
        (stored_session service draw.now (service.parse raw_token) db.refresh_tokens) db db' output
        h in
    let (token, read, found, live) =
      stored_session-found service draw.now (service.parse raw_token) db.refresh_tokens stored
        known in
    let (member, named) = find_where-eq-some (has_id token.id) db.refresh_tokens stored found in
    let own_id = (eq_iff stored.id stored.id).1 refl in
    let hit : live_with_id stored.id stored ≡ true = ground arith in
    let now_found = find_where-append (has_id token.id) _ (next_token settings draw stored ∷ []) _ (
      find_where-update_where (has_id token.id) (live_with_id stored.id) (revoked draw.rotated_at)
        db.refresh_tokens stored (λ row. refl) hit found) in
    refused_token service settings' draw' raw_token db' token (revoked draw.rotated_at stored) read
      (rw after now_found) refl
