-- ===== src/Auth/Tests.antt =====
-- Passwords and sessions at concrete rows.
use lume_tenant_api.Base.{◌≡◌, refl, false, some, err, arith, string_eq}
use lume_tenant_api.Base.Tables.{find_where}
use lume_tenant_api.Auth.Rows.{Challenge, RefreshToken, AuthDb}
use lume_tenant_api.Auth.Sessions
use lume_tenant_api.Auth.Passwords.{
  PasswordSettings, LinkClock, invalid_link, complete_password_change, stored_challenge,
}
use lume_tenant_api.Auth.Links.{links_end_with_completion, sessions_end_with_completion}
use lume_tenant_api.Auth.Rotation.{refresh_session-once}
use lume_tenant_api.Auth.TestData.{
  service, hasher, link, first_link, session, db, session_settings, draw,
}

abbrev settings : PasswordSettings
settings = record { history_limit = 5; reused_message = "senha repetida" }

abbrev clock : LinkClock
clock = record { now = 10; looked_up_at = 10 }

abbrev later : LinkClock
later = record { now = 20; looked_up_at = 20 }

abbrev changed : AuthDb
changed = (complete_password_change service hasher settings clock "link" "new" db).0

abbrev other_consumed : Challenge
other_consumed = record (link "other") { consumed_at = some 10 }

abbrev session_ended : RefreshToken
session_ended = record session { revoked_at = some 10 }

opened : Unit {0}
unfolding complete_password_change Sessions.refresh_session find_where stored_challenge
opened = tt

links_end_with_completion_example :
    complete_password_change service hasher settings later "other" "newer" changed
    ≡ (changed, err invalid_link)
unfolding opened
links_end_with_completion_example =
    links_end_with_completion service hasher settings settings clock later "link" "other" "new"
      "newer" db changed first_link other_consumed (record { id = "other"; hash = "other" }) refl
      refl (ground arith) refl refl refl

sessions_end_with_completion_example :
    Sessions.refresh_session service session_settings draw "session" changed
    ≡ (changed, err Sessions.invalid_session)
unfolding opened
sessions_end_with_completion_example =
    sessions_end_with_completion service service hasher settings session_settings clock draw "link"
      "new" "session" db changed first_link session_ended
      (record { id = "session"; hash = "session" }) refl refl refl refl refl refl

abbrev renewed : AuthDb
renewed = (Sessions.refresh_session service session_settings draw "session" db).0

abbrev output : Sessions.SessionOutput
output = record {
  sub = "ana";
  company_id = "company";
  token_version = 1;
  refresh_token = "next";
  session_id = "next";
  issued_at = 30;
  expires_at = 86400030;
  remember_device = false;
}

refresh_session-once_example :
    Sessions.refresh_session service session_settings draw "session" renewed
    ≡ (renewed, err Sessions.invalid_session)
unfolding opened
refresh_session-once_example =
    refresh_session-once service session_settings session_settings draw draw "session" db renewed
      output refl
