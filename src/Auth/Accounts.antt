-- ===== src/Auth/Accounts.antt =====
-- prisma-users.repository.ts: the look-up of an account, which ends suspensions that are over, its
-- passwords, and the change of its password.
use lume_tenant_api.Base.{
  String, ℕ, ◌+◌, ◌-◌, leb, Bool, true, false, not, ◌&&◌, Option, none, some, is_some, List, [],
  ◌∷◌, map, filter, ◌==◌, string_eq, if◌then◌else◌,
}
use lume_tenant_api.Base.Tables.{update_where, find_where, limit}
use lume_tenant_api.Auth.Rows.{active, Account, RefreshToken, FormerPassword, AuthDb, is_suspended}

abbrev pub is_account : String → String → Account → Bool
is_account company user row = row.id == user && row.company_id == company

abbrev pub is_over : ℕ → Option ℕ → Bool
is_over now none = false
is_over now (some until) = leb until now

abbrev pub to_reactivate : String → String → ℕ → Account → Bool
to_reactivate company user now row =
    is_account company user row
    && not row.is_deleted
    && is_suspended row.status
    && is_over now row.suspended_until

abbrev pub reactivated : Account → Account
reactivated row = record row {
  status = active;
  is_active = true;
  suspended_until = none;
  suspension_reason = none;
  token_version = row.token_version + 1;
}

unfoldable pub reactivate_expired_suspensions : String → String → ℕ → AuthDb → AuthDb
reactivate_expired_suspensions company user now db = record db {
  accounts = update_where (to_reactivate company user now) reactivated db.accounts;
}

-- `findById`, once suspensions that are over have ended.
unfoldable pub find_account : String → String → AuthDb → Option Account
unfolding find_where
find_account company user db =
    find_where (λ row. is_account company user row && not row.is_deleted) db.accounts

abbrev later_first : FormerPassword → List FormerPassword → List FormerPassword
later_first row [] = row ∷ []
later_first row (first ∷ rest) =
    let further = first ∷ later_first row rest in
    if leb first.created_at row.created_at then row ∷ first ∷ rest else further

-- `orderBy: { createdAt: 'desc' }`.
unfoldable pub newest_first : List FormerPassword → List FormerPassword
newest_first [] = []
newest_first (row ∷ rows) = later_first row (newest_first rows)

abbrev former_hash : FormerPassword → String
former_hash row = row.password_hash

-- The current password and the ones before it, `count` in all.
unfoldable pub list_password_hashes : String → String → ℕ → AuthDb → List String
unfolding newest_first find_where limit
list_password_hashes company user count db =
    elim (find_where (is_account company user) db.accounts) [
      | none ↦ []
      | some current ↦
          current.password_hash
          ∷ map former_hash (
              limit (count - 1) (
                newest_first (
                  filter (λ row. row.company_id == company && row.user_id == user)
                    db.former_passwords)))
    ]

-- A live session of the account.
abbrev pub is_session : String → String → RefreshToken → Bool
is_session company user row =
    row.company_id == company && row.user_id == user && not (is_some row.revoked_at)

abbrev pub revoked : ℕ → RefreshToken → RefreshToken
revoked at row = record row { revoked_at = some at }

-- The live sessions of an account end.
abbrev pub revoke_sessions : String → String → ℕ → List RefreshToken → List RefreshToken
revoke_sessions company user at tokens = update_where (is_session company user) (revoked at) tokens

abbrev pub former_password : String → String → ℕ → Account → FormerPassword
former_password company user at account = record {
  company_id = company;
  user_id = user;
  password_hash = account.password_hash;
  created_at = at;
}

-- `changePassword`; it throws where there is no account, and the database stays as it was.
unfoldable pub change_password : String → String → String → ℕ → AuthDb → Option AuthDb
unfolding find_where
change_password company user password_hash at db =
    elim (find_where (is_account company user) db.accounts) [
      | none ↦ none
      | some current ↦ some (record db {
        former_passwords = former_password company user at current ∷ db.former_passwords;
        accounts =
            update_where (is_account company user)
              (λ row. record row {
                password_hash = password_hash;
                must_change_password = false;
                token_version = row.token_version + 1;
              })
              db.accounts;
        refresh_tokens = revoke_sessions company user at db.refresh_tokens;
      })
    ]
