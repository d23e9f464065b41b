-- ===== src/Auth/TestData.antt =====
-- A user with a session and two links, the services, and what a renewal draws, for the tests.
use lume_tenant_api.Base.{String, true, false, none, some, [], ◌∷◌, ◌==◌, string_eq}
use lume_tenant_api.Auth.Rows.{
  AccountStatus, ChangeReason, Account, Challenge, RefreshToken, AuthDb, TokenService,
  PasswordHasher,
}
use lume_tenant_api.Auth.Sessions

-- A token is its own id and hash, and a password its own hash.
abbrev pub service : TokenService
service = record {
  parse = λ token. some (record { id = token; hash = token });
  matches = λ a b. a == b;
}

abbrev pub hasher : PasswordHasher
hasher = record { compare = λ password hash. password == hash; hash = λ password. password }

abbrev pub account : Account
account = record {
  id = "ana";
  company_id = "company";
  company_is_active = true;
  username_normalized = "ana";
  email_normalized = "ana@example.com";
  is_deleted = false;
  is_active = true;
  status = AccountStatus.active;
  suspended_until = none;
  suspension_reason = none;
  password_hash = "old";
  must_change_password = false;
  token_version = 1;
  last_login_at = none;
}

abbrev pub link : String → Challenge
link id = record {
  id = id;
  company_id = "company";
  user_id = "ana";
  token_hash = id;
  reason = ChangeReason.admin_reset;
  expires_at = 100;
  consumed_at = none;
  created_at = 1;
}

abbrev pub first_link : Challenge
first_link = link "link"

abbrev pub session : RefreshToken
session = record {
  id = "session";
  company_id = "company";
  user_id = "ana";
  token_hash = "session";
  remember_device = false;
  expires_at = 1000;
  revoked_at = none;
  created_at = 1;
}

abbrev pub db : AuthDb
db = record {
  accounts = account ∷ [];
  challenges = first_link ∷ link "other" ∷ [];
  refresh_tokens = session ∷ [];
  former_passwords = [];
  audit = [];
}

abbrev pub session_settings : Sessions.SessionSettings
session_settings = record { refresh_ttl_days = 1; remember_refresh_ttl_days = 30 }

abbrev pub draw : Sessions.SessionDraw
draw = record {
  id = "next";
  plain_text = "next";
  hash = "next";
  now = 30;
  looked_up_at = 30;
  rotated_at = 30;
}
