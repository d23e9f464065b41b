-- ===== src/Auth/LoginNames.antt =====
-- Which names nobody can log in with.
use lume_tenant_api.Base.{
  String, true, false, none, ◌==◌, string_eq, eq_iff, ◌≡◌, refl, arith, Bool-cases, inl, inr, In,
}
use lume_tenant_api.Base.Text.{trim}
use lume_tenant_api.Base.Tables.{find_where, find_where-eq-none}
use lume_tenant_api.Auth.Rows.{Account, AuthDb, PasswordHasher}
use lume_tenant_api.Auth.Identifiers.{
  only_digits, has_at, is_document_length, is_valid_username, is_valid_username-digits, at-digits,
  normalize_login_identifier, normalize_login_identifier-digits,
}
use lume_tenant_api.Auth.Login.{
  LoginSettings, LoginDraw, LoginInput, LoginAnswer, wrong_credentials, has_identifier,
  renewed_account, find_by_login_identifier, authenticate_as, authenticate,
}

has_identifier-digits :
    (identifier : String) (row : Account)
    → only_digits identifier ≡ identifier
    → ¬ (only_digits row.username_normalized ≡ row.username_normalized)
    → ¬ (only_digits row.email_normalized ≡ row.email_normalized)
    → has_identifier identifier row ≡ false
has_identifier-digits identifier row digits username email =
    let by_username = eq_iff row.username_normalized identifier in
    let by_email = eq_iff row.email_normalized identifier in
    elim (Bool-cases (row.username_normalized == identifier)) [
      | inl same ↦ absurd (username (let e = by_username.0 same in rw e digits))
      | inr other ↦ elim (Bool-cases (row.email_normalized == identifier)) [
        | inl same ↦ absurd (email (let e = by_email.0 same in rw e digits))
        | inr neither ↦ ground arith
      ]
    ]

-- Where every user name is a valid one and every e-mail address has an `@`, a name without `@` that
-- has as many digits as a CPF or a CNPJ (11 or 14) is refused as a wrong name or password, also where
-- it is the user name of an account and whatever the password is, and nothing changes.
pub document_digits-refused :
    (lower : String → String) (hasher : PasswordHasher) (settings : LoginSettings)
    (draw : LoginDraw) (input : LoginInput) (db : AuthDb)
    → has_at (trim input.identifier) ≡ false
    → is_document_length (only_digits (trim input.identifier)) ≡ true
    → ((row : Account)
        → In row db.accounts
        → (is_valid_username row.username_normalized ≡ true) × (has_at row.email_normalized ≡ true))
    → authenticate lower hasher settings draw input db ≡ (db, LoginAnswer.refused wrong_credentials)
unfolding authenticate find_by_login_identifier renewed_account authenticate_as
document_digits-refused lower hasher settings draw input db plain long names =
    let identifier = normalize_login_identifier lower input.identifier in
    let (same, digits) = normalize_login_identifier-digits lower input.identifier plain long in
    let absent : find_where (has_identifier identifier) db.accounts ≡ none =
      find_where-eq-none (has_identifier identifier) db.accounts (λ row member.
        has_identifier-digits identifier row digits
          (is_valid_username-digits row.username_normalized (names row member).0)
          (at-digits row.email_normalized (names row member).1)) in
    rw absent refl
