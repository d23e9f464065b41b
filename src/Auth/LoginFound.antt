-- ===== src/Auth/LoginFound.antt =====
-- The account that a login finds, and where the renewal of a session finds it again.
use lume_tenant_api.Base.{
  String, ℕ, Bool, true, false, not, ◌&&◌, Option, none, some, List, ◌==◌, if◌then◌else◌, string_eq,
  eq_iff, ◌≡◌, refl, sym, ap, arith, Bool-cases, Option-cases, inl, inr, In,
}
use lume_tenant_api.Base.Tables.{
  find_where, find_where-eq-some, find_where-update_any, find_where-only, In-update_where,
}
use lume_tenant_api.Auth.Rows.{
  AccountStatus, Account, RefreshToken, AuthDb, PasswordHasher, is_active_status, is_suspended,
}
use lume_tenant_api.Auth.Accounts.{
  is_account, is_over, to_reactivate, reactivated, reactivate_expired_suspensions, find_account,
}
use lume_tenant_api.Auth.Sessions.{SessionOutput}
use lume_tenant_api.Auth.Login.{
  LoginSettings, LoginDraw, LoginInput, logged_in, has_identifier, renewed_account, mark_last_login,
  open_session, admit, authenticate_as,
}

-- What a login that opens a session has checked of the account.
admit-logged_in :
    (settings : LoginSettings) (draw : LoginDraw) (input : LoginInput) (account : Account)
    (db db' : AuthDb) (output : SessionOutput)
    → admit settings draw input account db ≡ (db', logged_in output)
    → (account.is_active ≡ true)
      × (account.must_change_password ≡ false)
      × (open_session settings draw input account db ≡ (db', logged_in output))
unfolding admit
admit-logged_in settings draw input account db db' output h = ground arith

pub authenticate_as-logged_in :
    (hasher : PasswordHasher) (settings : LoginSettings) (draw : LoginDraw) (input : LoginInput)
    (found : Option Account) (db db' : AuthDb) (output : SessionOutput)
    → authenticate_as hasher settings draw input found db ≡ (db', logged_in output)
    → (account : Account) × (found ≡ some account)
      × (account.company_is_active ≡ true)
      × (account.is_active ≡ true)
      × (account.must_change_password ≡ false)
      × (open_session settings draw input account db ≡ (db', logged_in output))
unfolding authenticate_as
authenticate_as-logged_in hasher settings draw input none db db' output h = cc
authenticate_as-logged_in hasher settings draw input (some account) db db' output h =
    let right : (hasher.compare input.password account.password_hash && account.company_is_active)
        ≡ true =
      ground arith in
    let (active, changed, opened) =
      admit-logged_in settings draw input account db db' output (rw right at h) in
    (account, refl, ground arith, active, changed, opened)

-- The account of a name is the account of its id, and is in use where it is active.
module _ (db : AuthDb)
    (same_row : (row other : Account)
      → In row db.accounts
      → In other db.accounts
      → row.id ≡ other.id
      → row ≡ other)
    (in_use : (row : Account)
      → In row db.accounts
      → row.is_active ≡ true
      → is_active_status row.status ≡ true) where
  find_account-own :
      (account : Account)
      → In account db.accounts
      → account.is_deleted ≡ false
      → find_account account.company_id account.id db ≡ some account
  unfolding find_account
  find_account-own account member kept =
      let own_id = (eq_iff account.id account.id).1 refl in
      let own_company = (eq_iff account.company_id account.company_id).1 refl in
      let test =
        λ (row : Account). is_account account.company_id account.id row && not row.is_deleted in
      find_where-only test db.accounts account member (ground arith) (λ row inside passes.
        same_row row account inside member (
          let named : (row.id == account.id) ≡ true = ground arith in
          (eq_iff row.id account.id).0 named))

  ended_account-found :
      (company user : String) (ended_at : ℕ) (account : Account)
      → find_account company user (reactivate_expired_suspensions company user ended_at db)
        ≡ some account
      → (find_account account.company_id account.id
            (reactivate_expired_suspensions company user ended_at db)
          ≡ some account)
        × (account.is_active ≡ true → is_active_status account.status ≡ true)
  unfolding find_account reactivate_expired_suspensions
  ended_account-found company user ended_at account h =
      let ended = reactivate_expired_suspensions company user ended_at db in
      let (member, passes) =
        find_where-eq-some (λ row. is_account company user row && not row.is_deleted) ended.accounts
          account h in
      let id : account.id ≡ user = (eq_iff account.id user).0 (ground arith) in
      let at_company : account.company_id ≡ company =
        (eq_iff account.company_id company).0 (ground arith) in
      let (row, inside, origin) =
        In-update_where (to_reactivate company user ended_at) reactivated db.accounts account
          member in
      (
        cc,
        λ active. elim origin [
          | inl (_, e) ↦ rw e refl
          | inr (_, e) ↦ rw e (in_use row inside (rw e at active))
        ],
      )

  pub renewed_account-found :
      (identifier : String) (compared_at ended_at : ℕ) (db' : AuthDb) (account : Account)
      → renewed_account compared_at ended_at (find_where (has_identifier identifier) db.accounts) db
        ≡ (db', some account)
      → (find_account account.company_id account.id db' ≡ some account)
        × (db'.refresh_tokens ≡ db.refresh_tokens)
        × (account.is_active ≡ true → is_active_status account.status ≡ true)
  unfolding renewed_account reactivate_expired_suspensions
  renewed_account-found identifier compared_at ended_at db' account h =
      elim (Option-cases (find_where (has_identifier identifier) db.accounts)) [
        | inl absent ↦ absurd (let e = rw absent at h in cc)
        | inr (row, found) ↦
            let (inside, passes) =
              find_where-eq-some (has_identifier identifier) db.accounts row found in
            let read = rw found at h in
            elim (Bool-cases (is_suspended row.status && is_over compared_at row.suspended_until)) [
              | inl over ↦
                  let e = rw over at read in
                  let same_db = ap (λ p. p.0) e in
                  let (own, used) =
                    ended_account-found row.company_id row.id ended_at account (ap (λ p. p.1) e) in
                  (rw (sym same_db) own, rw (sym same_db) refl, used)
              | inr running ↦
                  let e = rw running at read in
                  let same_db = ap (λ p. p.0) e in
                  let f : some row ≡ some account = ap (λ p. p.1) e in
                  let same_account : account ≡ row = cc in
                  (
                    rw (sym same_db, same_account) (find_account-own row inside (ground arith)),
                    rw (sym same_db) refl,
                    rw same_account (in_use row inside),
                  )
            ]
      ]

active-not_suspended :
    (status : AccountStatus) → is_active_status status ≡ true → is_suspended status ≡ false
active-not_suspended AccountStatus.active h = refl
active-not_suspended AccountStatus.inactive h = refl
active-not_suspended AccountStatus.suspended h = cc

chosen-yes :
    {test : Bool} (first second : Account) {found : Option Account}
    → test ≡ true
    → found ≡ some (if test then first else second)
    → found ≡ some first
chosen-yes first second holds h = rw holds at h

chosen-no :
    {test : Bool} (first second : Account) {found : Option Account}
    → test ≡ false
    → found ≡ some (if test then first else second)
    → found ≡ some second
chosen-no first second fails h = rw fails at h

-- A login leaves the account where it was, with the time of the login.
pub find_account-marked :
    (db : AuthDb) (account : Account) (company user : String) (at looked_up_at : ℕ)
    (tokens : List RefreshToken)
    → find_account company user db ≡ some account
    → is_active_status account.status ≡ true
    → find_account company user (
        reactivate_expired_suspensions company user looked_up_at (record db {
          accounts = mark_last_login company user at db.accounts;
          refresh_tokens = tokens;
        }))
      ≡ some (record account { last_login_at = some at })
unfolding find_account reactivate_expired_suspensions mark_last_login
find_account-marked db account company user at looked_up_at tokens found active =
    let test = λ (row : Account). is_account company user row && not row.is_deleted in
    let (member, passes) = find_where-eq-some test db.accounts account found in
    let hit : is_account company user account ≡ true = ground arith in
    let marked = record account { last_login_at = some at } in
    let accounts = mark_last_login company user at db.accounts in
    let after_login : find_where test accounts ≡ some marked = chosen-yes marked account hit (
      find_where-update_any test (is_account company user)
        (λ row. record row { last_login_at = some at }) db.accounts account (λ row. refl) found) in
    let not_suspended : is_suspended account.status ≡ false =
      active-not_suspended account.status active in
    let passed : to_reactivate company user looked_up_at marked ≡ false = ground arith in
    chosen-no (reactivated marked) marked passed (
      find_where-update_any test (to_reactivate company user looked_up_at) reactivated accounts
        marked (λ row. refl) after_login)
