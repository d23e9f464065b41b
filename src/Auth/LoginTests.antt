-- ===== src/Auth/LoginTests.antt =====
-- Logins at concrete rows.
use lume_tenant_api.Base.{
  String, ◌≡◌, refl, true, false, none, some, [], ◌∷◌, ok, arith, inl, inr, In, string_eq,
}
use lume_tenant_api.Base.Text.{trim, code_units}
use lume_tenant_api.Auth.Identifiers.{
  only_digits, has_at, is_valid_username, normalize_login_identifier,
}
use lume_tenant_api.Base.Tables.{find_where}
use lume_tenant_api.Auth.Rows.{Account, AuthDb, is_active_status}
use lume_tenant_api.Auth.Sessions
use lume_tenant_api.Auth.Login
use lume_tenant_api.Auth.LoginNames.{document_digits-refused}
use lume_tenant_api.Auth.LoginSession.{authenticate-refresh_session}
use lume_tenant_api.Auth.Requests
use lume_tenant_api.Auth.RequestAnswers.{
  request_password_reset-same_answer, request_password_reset-undelivered,
}
use lume_tenant_api.Auth.TestData.{service, hasher, account, db, session_settings, draw}

-- A case mapping that leaves every text as it is; it is right on digits and lower case.
abbrev lower : String → String
lower text = text

abbrev login_settings : Login.LoginSettings
login_settings = record { sessions = session_settings; password_change_ttl_minutes = 60 }

abbrev login_draw : Login.LoginDraw
login_draw = record {
  refresh_token = record { id = "login"; plain_text = "login"; hash = "login" };
  link_token = record { id = "first"; plain_text = "first"; hash = "first" };
  compared_at = 20;
  ended_at = 20;
  checked_at = 20;
  link_at = 20;
  now = 20;
}

abbrev login_input : Login.LoginInput
login_input = record { identifier = " ana "; password = "old"; remember = false }

abbrev numbered : Account
numbered = record account { username_normalized = "joao12345678901" }

abbrev numbered_input : Login.LoginInput
numbered_input = record login_input { identifier = "joao12345678901" }

abbrev numbered_db : AuthDb
numbered_db = record db { accounts = numbered ∷ [] }

abbrev logged_in_db : AuthDb
logged_in_db = (Login.authenticate lower hasher login_settings login_draw login_input db).0

abbrev login_output : Sessions.SessionOutput
login_output = record {
  sub = "ana";
  company_id = "company";
  token_version = 1;
  refresh_token = "login";
  session_id = "login";
  issued_at = 20;
  expires_at = 86400020;
  remember_device = false;
}

logging_in : Unit {0}
unfolding Login.authenticate Login.open_session Sessions.refresh_session find_where trim code_units
    only_digits normalize_login_identifier
logging_in = tt

only_row-valid :
    (row : Account)
    → In row numbered_db.accounts
    → (is_valid_username row.username_normalized ≡ true) × (has_at row.email_normalized ≡ true)
unfolding is_valid_username code_units
only_row-valid row (inl e) = rw e (refl, refl)
only_row-valid row (inr h) = elim h [ ]

only_row-same :
    (row other : Account)
    → In row db.accounts
    → In other db.accounts
    → row.id ≡ other.id
    → row ≡ other
only_row-same row other (inl e) (inl f) same = rw (e, f) refl
only_row-same row other (inl e) (inr f) same = elim f [ ]
only_row-same row other (inr e) f same = elim e [ ]

only_row-working :
    (row : Account) → In row db.accounts → row.is_active ≡ true → is_active_status row.status ≡ true
only_row-working row (inl e) active = rw e refl
only_row-working row (inr e) active = elim e [ ]

document_digits-refused_example :
    Login.authenticate lower hasher login_settings login_draw numbered_input numbered_db
    ≡ (numbered_db, Login.refused Login.wrong_credentials)
unfolding logging_in
document_digits-refused_example =
    document_digits-refused lower hasher login_settings login_draw numbered_input numbered_db refl
      refl only_row-valid

authenticate-refresh_session_example :
    (after : AuthDb) × (renewed : Sessions.SessionOutput) × (Sessions.refresh_session service
        session_settings draw "login" logged_in_db
      ≡ (after, ok renewed))
    × (renewed.sub ≡ "ana")
    × (renewed.token_version ≡ 1)
unfolding logging_in
authenticate-refresh_session_example =
    authenticate-refresh_session lower hasher service login_settings login_draw login_input draw db
      logged_in_db login_output refl refl refl only_row-same only_row-working refl (ground arith)

abbrev delivered : Requests.Delivery
delivered = record {
  configured = true;
  stored = true;
  failure = none;
  removed = true;
  audited = true;
}

abbrev undelivered : Requests.Delivery
undelivered = record delivered { failure = some "timeout" }

abbrev request_draw : Requests.RequestDraw
request_draw = record {
  started_at = 15;
  reached_at = 30;
  token = record { id = "reset"; plain_text = "reset"; hash = "reset" };
  compared_at = 20;
  ended_at = 20;
  now = 20;
}

request_password_reset-same_answer_example :
    (answer answer' : Requests.Answer) × ((Requests.request_password_reset lower 50 undelivered
        request_draw "ana" db).1
      ≡ ok answer)
    × ((Requests.request_password_reset lower 50 delivered request_draw "nobody" db).1 ≡ ok answer')
    × (answer.response ≡ answer'.response)
    × (answer.given_at ≡ 65)
    × (answer'.given_at ≡ 65)
request_password_reset-same_answer_example =
    request_password_reset-same_answer lower lower 50 undelivered delivered request_draw
      request_draw "ana" "nobody" db db refl refl (ground arith) (ground arith)

request_password_reset-undelivered_example :
    (Requests.request_password_reset lower 50 undelivered request_draw "ana" db).0.challenges
    ≡ db.challenges
request_password_reset-undelivered_example =
    request_password_reset-undelivered lower 50 undelivered request_draw "ana" "timeout" db refl
      refl refl
