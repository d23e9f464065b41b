-- ===== src/Auth/Passwords.antt =====
-- password-change.use-cases.ts: a password is set by a link, or changed by its owner.
use lume_tenant_api.Base.{
  String, ℕ, ◌+◌, ◌*◌, leb, Bool, not, ◌&&◌, ◌||◌, Option, none, some, List, [], ◌∷◌, any, ◌==◌,
  string_eq, if◌then◌else◌, Result, ok, err, AppError, invalid_password_change_token,
  validation_error, not_found, forbidden,
}
use lume_tenant_api.Base.Tables.{find_where}
use lume_tenant_api.Auth.Rows.{
  Account, Challenge, ChangeReason, AuthDb, TokenService, ParsedToken, PasswordHasher,
  is_active_status, is_first_access, reason_text,
}
use lume_tenant_api.Auth.Accounts.{
  reactivate_expired_suspensions, find_account, list_password_hashes, change_password,
}
use lume_tenant_api.Auth.Challenges.{Completion, complete, replace_for_user, is_open}

abbrev pub invalid_link : AppError
invalid_link = record {
  code = invalid_password_change_token;
  message = "O link para criar a senha é inválido ou expirou.";
  field = none;
}

-- What a link is made of: the row's id, the token's text and the hash of it.
pub record IssuedToken : Type 0 where
  pub id : String
  pub plain_text : String
  pub hash : String

abbrev issued_challenge : Account → ChangeReason → IssuedToken → ℕ → ℕ → Challenge
issued_challenge account reason token ttl_minutes now = record {
  id = token.id;
  company_id = account.company_id;
  user_id = account.id;
  token_hash = token.hash;
  reason = reason;
  expires_at = now + ttl_minutes * 60000;
  consumed_at = none;
  created_at = now;
}

-- The link replaces the open ones of the account. The second component is its text.
unfoldable pub issue_password_change_challenge :
    Account → ChangeReason → IssuedToken → ℕ → ℕ → AuthDb → AuthDb × String
unfolding replace_for_user
issue_password_change_challenge account reason token ttl_minutes now db =
    (replace_for_user (issued_challenge account reason token ttl_minutes now) db, token.plain_text)

abbrev pub rejects_password_reuse : PasswordHasher → String → List String → Bool
rejects_password_reuse hasher password hashes = any (λ hash. hasher.compare password hash) hashes

-- `historyLimit`, and its text in a message.
pub record PasswordSettings : Type 0 where
  pub history_limit : ℕ
  pub reused_message : String

-- The times that a completion reads from the clock.
pub record LinkClock : Type 0 where
  pub now : ℕ
  pub looked_up_at : ℕ

unfoldable pub usable_link : TokenService → ℕ → ParsedToken → Challenge → Bool
usable_link service now parsed row =
    is_open row && not (leb row.expires_at now) && service.matches parsed.hash row.token_hash

abbrev accepted : TokenService → ℕ → ParsedToken → Option Challenge → Option Challenge
accepted service now parsed none = none
accepted service now parsed (some row) =
    if usable_link service now parsed row then some row else none

abbrev pub challenge_id : String → Challenge → Bool
challenge_id id row = row.id == id

unfoldable pub stored_challenge :
    TokenService → ℕ → Option ParsedToken → List Challenge → Option Challenge
unfolding usable_link find_where
stored_challenge service now none rows = none
stored_challenge service now (some parsed) rows =
    accepted service now parsed (find_where (challenge_id parsed.id) rows)

abbrev pub may_change : Challenge → Account → Bool
may_change challenge account =
    account.is_active
    && is_active_status account.status
    && (not (is_first_access challenge.reason) || account.must_change_password)
    && account.company_is_active

abbrev audited : String → String → String → AuthDb → AuthDb
audited company user reason db = record db {
  audit =
      record {
        company_id = company;
        actor_user_id = some user;
        user_id = user;
        action = "PASSWORD_CHANGED";
        metadata = ("reason", reason) ∷ [];
      }
      ∷ db.audit;
}

abbrev pub completion_of : PasswordHasher → LinkClock → Challenge → String → Completion
completion_of hasher clock challenge new_password = record {
  company_id = challenge.company_id;
  user_id = challenge.user_id;
  challenge_id = challenge.id;
  password_hash = hasher.hash new_password;
  changed_at = clock.now;
}

unfoldable pub set_password :
    PasswordHasher → LinkClock → Challenge → String → AuthDb → AuthDb × Result (Unit {0})
unfolding complete
set_password hasher clock challenge new_password db =
    let (after, done) = complete (completion_of hasher clock challenge new_password) db in
    if done
    then (
      audited challenge.company_id challenge.user_id (reason_text challenge.reason) after,
      ok tt,
    )
    else (after, err invalid_link)

unfoldable pub change_by_link :
    PasswordHasher
    → PasswordSettings
    → LinkClock
    → Challenge
    → String
    → Option Account
    → AuthDb
    → AuthDb × Result (Unit {0})
unfolding set_password list_password_hashes
change_by_link hasher settings clock challenge new_password none db = (db, err invalid_link)
change_by_link hasher settings clock challenge new_password (some account) db =
    if not (may_change challenge account)
    then (db, err invalid_link)
    else if rejects_password_reuse hasher new_password
        (list_password_hashes challenge.company_id challenge.user_id settings.history_limit db)
    then (db, err (validation_error settings.reused_message))
    else set_password hasher clock challenge new_password db

unfoldable pub complete_with :
    PasswordHasher
    → PasswordSettings
    → LinkClock
    → Option Challenge
    → String
    → AuthDb
    → AuthDb × Result (Unit {0})
unfolding change_by_link reactivate_expired_suspensions find_account
complete_with hasher settings clock none new_password db = (db, err invalid_link)
complete_with hasher settings clock (some challenge) new_password db =
    let looked_up =
      reactivate_expired_suspensions challenge.company_id challenge.user_id clock.looked_up_at db in
    change_by_link hasher settings clock challenge new_password
      (find_account challenge.company_id challenge.user_id looked_up) looked_up

-- `CompletePasswordChangeUseCase.execute`.
unfoldable pub complete_password_change :
    TokenService
    → PasswordHasher
    → PasswordSettings
    → LinkClock
    → String
    → String
    → AuthDb
    → AuthDb × Result (Unit {0})
unfolding complete_with stored_challenge
complete_password_change service hasher settings clock token new_password db =
    complete_with hasher settings clock
      (stored_challenge service clock.now (service.parse token) db.challenges) new_password db

-- Where the row is gone when the password is stored, the database library throws an error of its own;
-- the missing account's error stands for it.
unfoldable pub change_own_for :
    PasswordHasher
    → PasswordSettings
    → ℕ
    → String
    → String
    → String
    → String
    → Option Account
    → AuthDb
    → AuthDb × Result (Unit {0})
unfolding list_password_hashes change_password
change_own_for hasher settings now company user current_password new_password none db =
    (db, err (not_found "Usuário"))
change_own_for hasher settings now company user current_password new_password (some account) db =
    if not (hasher.compare current_password account.password_hash)
    then (db, err (forbidden "A senha atual não confere."))
    else if rejects_password_reuse hasher new_password
        (list_password_hashes company user settings.history_limit db)
    then (db, err (validation_error settings.reused_message))
    else elim (change_password company user (hasher.hash new_password) now db) [
      | none ↦ (db, err (not_found "Usuário"))
      | some after ↦ (audited company user "self-service" after, ok tt)
    ]

-- `ChangeOwnPasswordUseCase.execute`.
unfoldable pub change_own_password :
    PasswordHasher
    → PasswordSettings
    → LinkClock
    → String
    → String
    → String
    → String
    → AuthDb
    → AuthDb × Result (Unit {0})
unfolding change_own_for reactivate_expired_suspensions find_account
change_own_password hasher settings clock company user current_password new_password db =
    let looked_up = reactivate_expired_suspensions company user clock.looked_up_at db in
    change_own_for hasher settings clock.now company user current_password new_password
      (find_account company user looked_up) looked_up
