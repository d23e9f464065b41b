-- ===== src/Auth/Revocation.antt =====
-- What a password that was set by a link leaves behind: no open link and no live session of the user.
use lume_tenant_api.Base.{
  String, ℕ, ◌≤◌, true, false, Option, none, some, List, In, string_eq, eq_iff, ◌≡◌, refl, ap, ◌∙◌,
  ◌⊎◌, inl, inr, arith, Bool-cases, ok,
}
use lume_tenant_api.Base.Tables.{update_where, In-update_where}
use lume_tenant_api.Auth.Rows.{
  Account, Challenge, ChangeReason, RefreshToken, AuthDb, TokenService, PasswordHasher,
}
use lume_tenant_api.Auth.Accounts.{
  reactivate_expired_suspensions, find_account, revoke_sessions, is_session, revoked,
}
use lume_tenant_api.Auth.Challenges.{
  Completion, is_open, of_user, consume, usable, other_link, completed, complete_for, complete,
}
use lume_tenant_api.Auth.Sessions
use lume_tenant_api.Auth.Passwords.{
  PasswordSettings, LinkClock, stored_challenge, completion_of, set_password, change_by_link,
  complete_with, complete_password_change,
}

pub revoke_sessions-revoked :
    (company user : String) (at : ℕ) (tokens : List RefreshToken) (row : RefreshToken)
    → In row (revoke_sessions company user at tokens)
    → row.company_id ≡ company
    → row.user_id ≡ user
    → Sessions.is_live row ≡ false
revoke_sessions-revoked company user at tokens row member same_company same_user =
    let (before, in_tokens, made) =
      In-update_where (is_session company user) (revoked at) tokens row member in
    elim made [
      | inl (hit, e) ↦ rw e refl
      | inr (passed, e) ↦
          let company_test = (eq_iff row.company_id company).1 same_company in
          let user_test = (eq_iff row.user_id user).1 same_user in
          let passed_row = rw (← e) at passed in ground arith
    ]

pub completed-not_open :
    (input : Completion) (reason : ChangeReason) (user : Account) (db : AuthDb) (row : Challenge)
    → In row (completed input reason user db).challenges
    → of_user input.company_id input.user_id row ≡ true
    → (is_open row ≡ false) ⊎ (row.expires_at ≤ input.changed_at)
unfolding completed
completed-not_open input reason user db row member mine =
    let (middle, in_middle, made) =
      In-update_where (other_link input) (consume input.changed_at)
        (update_where (usable input) (consume input.changed_at) db.challenges) row member in
    elim made [
      | inl (hit, e) ↦ inl (rw e refl)
      | inr (passed, e) ↦
          let (first, in_db, made_first) =
            In-update_where (usable input) (consume input.changed_at) db.challenges middle
              in_middle in
          let passed_row = rw (← e) at passed in
          elim made_first [
            | inl (hit, e') ↦ inl (rw (e, e') refl)
            | inr (unusable, e') ↦ let unusable_row = rw (← e', ← e) at unusable in ground arith
          ]
    ]

complete_for-eq-completed :
    (input : Completion) (db : AuthDb) (challenge : Option Challenge) (user : Option Account)
    → (complete_for input db challenge user).1 ≡ true
    → (reason : ChangeReason) × (account : Account) × ((complete_for input db challenge user).0
        ≡ completed input reason account db)
unfolding complete_for
complete_for-eq-completed input db none user h = cc
complete_for-eq-completed input db (some challenge) none h = cc
complete_for-eq-completed input db (some challenge) (some user) h =
    (challenge.reason, user, ground arith)

complete-eq-completed :
    (input : Completion) (db : AuthDb)
    → (complete input db).1 ≡ true
    → (reason : ChangeReason) × (account : Account) × ((complete input db).0
        ≡ completed input reason account db)
unfolding complete
complete-eq-completed input db h = complete_for-eq-completed input db _ _ h

-- A completion: the links and the sessions of the user are as `completed` leaves them.
pub record IsCompletion (hasher : PasswordHasher) (clock : LinkClock) (challenge : Challenge)
    (new_password : String) (after : AuthDb) : Type 0 where
  pub reason : ChangeReason
  pub account : Account
  pub start : AuthDb
  pub links :
      after.challenges
      ≡ (completed
          (completion_of hasher clock challenge new_password)
          reason
          account
          start).challenges
  pub sessions :
      after.refresh_tokens
      ≡ (completed
          (completion_of hasher clock challenge new_password)
          reason
          account
          start).refresh_tokens

set_password-IsCompletion :
    (hasher : PasswordHasher) (clock : LinkClock) (challenge : Challenge) (new_password : String)
    (db db' : AuthDb)
    → set_password hasher clock challenge new_password db ≡ (db', ok tt)
    → IsCompletion hasher clock challenge new_password db'
unfolding set_password
set_password-IsCompletion hasher clock challenge new_password db db' h =
    let input = completion_of hasher clock challenge new_password in
    elim (Bool-cases (complete input db).1) [
      | inr undone ↦ absurd (ground (arith, undone, h))
      | inl done ↦
          let (reason, account, e) = complete-eq-completed input db done in
          let outcome = rw done at h in
          record {
            reason = reason;
            account = account;
            start = db;
            links =
                let same : db'.challenges ≡ (complete input db).0.challenges = ground arith in
                same ∙ ap (λ (x : AuthDb). x.challenges) e;
            sessions =
                let same : db'.refresh_tokens ≡ (complete input db).0.refresh_tokens =
                  ground arith in
                same ∙ ap (λ (x : AuthDb). x.refresh_tokens) e;
          }
    ]

change_by_link-IsCompletion :
    (hasher : PasswordHasher) (settings : PasswordSettings) (clock : LinkClock)
    (challenge : Challenge) (new_password : String) (account : Option Account) (db db' : AuthDb)
    → change_by_link hasher settings clock challenge new_password account db ≡ (db', ok tt)
    → IsCompletion hasher clock challenge new_password db'
unfolding change_by_link
change_by_link-IsCompletion hasher settings clock challenge new_password none db db' h = cc
change_by_link-IsCompletion hasher settings clock challenge new_password (some account) db db' h =
    set_password-IsCompletion hasher clock challenge new_password db db' (ground arith)

complete_with-IsCompletion :
    (hasher : PasswordHasher) (settings : PasswordSettings) (clock : LinkClock)
    (challenge : Option Challenge) (new_password : String) (db db' : AuthDb)
    → complete_with hasher settings clock challenge new_password db ≡ (db', ok tt)
    → (used : Challenge) × (challenge ≡ some used) × IsCompletion hasher clock used new_password db'
unfolding complete_with
complete_with-IsCompletion hasher settings clock none new_password db db' h = cc
complete_with-IsCompletion hasher settings clock (some used) new_password db db' h =
    let looked_up =
      reactivate_expired_suspensions used.company_id used.user_id clock.looked_up_at db in
    (
      used,
      refl,
      change_by_link-IsCompletion hasher settings clock used new_password
          (find_account used.company_id used.user_id looked_up) looked_up db' h,
    )

-- A password that was set by a link was set by the one that the token names.
pub complete_password_change-IsCompletion :
    (service : TokenService) (hasher : PasswordHasher) (settings : PasswordSettings)
    (clock : LinkClock) (token new_password : String) (db db' : AuthDb)
    → complete_password_change service hasher settings clock token new_password db ≡ (db', ok tt)
    → (used : Challenge) × (stored_challenge service clock.now (service.parse token) db.challenges
        ≡ some used)
      × IsCompletion hasher clock used new_password db'
unfolding complete_password_change
complete_password_change-IsCompletion service hasher settings clock token new_password db db' h =
    complete_with-IsCompletion hasher settings clock _ new_password db db' h
