-- ===== src/Auth/Rows.antt =====
-- The rows of accounts, links, sessions and former passwords (prisma/schema.prisma), as far as the
-- use cases read and write them. Times are milliseconds.
use lume_tenant_api.Base.{String, ℕ, Bool, true, false, Option, List, string_eq}

pub data AccountStatus : Type 0 where
  active inactive suspended : AccountStatus

-- An account with `company.isActive`; `is_deleted` is `deletedAt !== null`.
pub record Account : Type 0 where
  pub id : String
  pub company_id : String
  pub company_is_active : Bool
  pub username_normalized : String
  pub email_normalized : String
  pub is_deleted : Bool
  pub is_active : Bool
  pub status : AccountStatus
  pub suspended_until : Option ℕ
  pub suspension_reason : Option String
  pub password_hash : String
  pub must_change_password : Bool
  pub token_version : ℕ
  pub last_login_at : Option ℕ

pub data ChangeReason : Type 0 where
  first_access admin_reset : ChangeReason

pub record Challenge : Type 0 where
  pub id : String
  pub company_id : String
  pub user_id : String
  pub token_hash : String
  pub reason : ChangeReason
  pub expires_at : ℕ
  pub consumed_at : Option ℕ
  pub created_at : ℕ

pub record RefreshToken : Type 0 where
  pub id : String
  pub company_id : String
  pub user_id : String
  pub token_hash : String
  pub remember_device : Bool
  pub expires_at : ℕ
  pub revoked_at : Option ℕ
  pub created_at : ℕ

pub record FormerPassword : Type 0 where
  pub company_id : String
  pub user_id : String
  pub password_hash : String
  pub created_at : ℕ

-- An entry about an account, `targetId`; `actor_user_id` may be absent.
pub record PasswordAudit : Type 0 where
  pub company_id : String
  pub actor_user_id : Option String
  pub user_id : String
  pub action : String
  pub metadata : List (String × String)

pub record AuthDb : Type 0 where
  pub accounts : List Account
  pub challenges : List Challenge
  pub refresh_tokens : List RefreshToken
  pub former_passwords : List FormerPassword
  pub audit : List PasswordAudit

-- What a token service reads from a token: the id of its row, and the hash of the token.
pub record ParsedToken : Type 0 where
  pub id : String
  pub hash : String

-- A token service: `parse` reads a token, and `matches` compares two hashes.
pub record TokenService : Type 0 where
  pub parse : String → Option ParsedToken
  pub matches : String → String → Bool

pub record PasswordHasher : Type 0 where
  pub compare : String → String → Bool
  pub hash : String → String

abbrev pub is_active_status : AccountStatus → Bool
is_active_status active = true
is_active_status inactive = false
is_active_status suspended = false

abbrev pub is_suspended : AccountStatus → Bool
is_suspended suspended = true
is_suspended active = false
is_suspended inactive = false

abbrev pub is_first_access : ChangeReason → Bool
is_first_access first_access = true
is_first_access admin_reset = false

abbrev pub reason_text : ChangeReason → String
reason_text first_access = "first-access"
reason_text admin_reset = "admin-reset"
