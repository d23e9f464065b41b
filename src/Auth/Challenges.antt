-- ===== src/Auth/Challenges.antt =====
-- prisma-password-change-challenges.repository.ts: the links by which a password is set.
use Prim.Native.Nat.{Ordering}
use Prim.Native.String.{compare}
use lume_tenant_api.Base.{
  String, ℕ, ◌+◌, ltb, nat_beq, Bool, true, false, not, ◌&&◌, ◌||◌, Option, none, some, List, [],
  ◌∷◌, filter, any, is_some, ◌==◌, string_eq, if◌then◌else◌,
}
use lume_tenant_api.Base.Tables.{update_where, count_where, find_where}
use lume_tenant_api.Auth.Rows.{Account, ChangeReason, Challenge, AuthDb, is_first_access}
use lume_tenant_api.Auth.Accounts.{is_account, revoke_sessions, former_password}

-- `consumedAt: null`.
abbrev pub is_open : Challenge → Bool
is_open row = not (is_some row.consumed_at)

abbrev pub of_user : String → String → Challenge → Bool
of_user company user row = row.company_id == company && row.user_id == user

unfoldable pub create : Challenge → AuthDb → AuthDb
create challenge db = record db { challenges = challenge ∷ db.challenges }

abbrev pub consume : ℕ → Challenge → Challenge
consume at row = record row { consumed_at = some at }

-- The open links of the user are used up, and the new one takes their place.
unfoldable pub replace_for_user : Challenge → AuthDb → AuthDb
replace_for_user challenge db = record db {
  challenges =
      challenge
      ∷ update_where (λ row. of_user challenge.company_id challenge.user_id row && is_open row)
          (consume challenge.created_at) db.challenges;
}

unfoldable pub delete : String → AuthDb → AuthDb
delete id db = record db { challenges = filter (λ row. not (row.id == id)) db.challenges }

abbrev consumed_when : ℕ → Challenge → Bool
consumed_when at row = elim row.consumed_at [ none ↦ false | some time ↦ nat_beq time at ]

-- `orderBy: [{ createdAt: 'desc' }, { id: 'desc' }]`.
abbrev comes_later : Challenge → Challenge → Bool
comes_later a b =
    ltb b.created_at a.created_at
    || (nat_beq a.created_at b.created_at
        && (elim (compare a.id b.id) [ Ordering.gt ↦ true | _ ↦ false ]))

abbrev later_of : Challenge → Option Challenge → Option Challenge
later_of row none = some row
later_of row (some other) = if comes_later other row then some other else some row

unfoldable pub latest : (Challenge → Bool) → List Challenge → Option Challenge
latest test [] = none
latest test (row ∷ rows) =
    let later = latest test rows in if test row then later_of row later else later

-- A link that could not be delivered is taken back, and the latest one that it replaced, if it is not
-- over, is open again.
unfoldable pub cancel_replacement : String → String → String → ℕ → ℕ → AuthDb → AuthDb
unfolding latest
cancel_replacement challenge_id company user replaced_at now db =
    let mine = λ (row : Challenge). row.id == challenge_id && of_user company user row in
    let remaining = filter (λ row. not (mine row)) db.challenges in
    if any (λ row. mine row && is_open row) db.challenges
    then elim (latest
        (λ row. of_user company user row && consumed_when replaced_at row && ltb now row.expires_at)
        remaining) [
          | none ↦ record db { challenges = remaining }
          | some previous ↦ record db {
            challenges =
                update_where (λ row. row.id == previous.id)
                  (λ row. record row { consumed_at = none }) remaining;
          }
        ]
    else record db { challenges = remaining }

pub record Completion : Type 0 where
  pub company_id : String
  pub user_id : String
  pub challenge_id : String
  pub password_hash : String
  pub changed_at : ℕ

-- The link of the completion, open and not over.
abbrev pub usable : Completion → Challenge → Bool
usable input row =
    row.id == input.challenge_id
    && of_user input.company_id input.user_id row
    && is_open row
    && ltb input.changed_at row.expires_at

abbrev pub expects_change : ChangeReason → Account → Bool
expects_change reason row = not (is_first_access reason) || row.must_change_password

abbrev pub target : Completion → ChangeReason → Account → Bool
target input reason row = is_account input.company_id input.user_id row && expects_change reason row

-- Another open link of the user.
abbrev pub other_link : Completion → Challenge → Bool
other_link input row =
    of_user input.company_id input.user_id row && not (row.id == input.challenge_id) && is_open row

-- The database with the new password, the old one kept, and every link and session of the user ended.
unfoldable pub completed : Completion → ChangeReason → Account → AuthDb → AuthDb
completed input reason user db = record db {
  accounts =
      update_where (target input reason)
        (λ row. record row {
          password_hash = input.password_hash;
          must_change_password = false;
          token_version = row.token_version + 1;
        })
        db.accounts;
  former_passwords =
      former_password input.company_id input.user_id input.changed_at user ∷ db.former_passwords;
  refresh_tokens =
      revoke_sessions input.company_id input.user_id input.changed_at db.refresh_tokens;
  challenges =
      update_where (other_link input) (consume input.changed_at)
        (update_where (usable input) (consume input.changed_at) db.challenges);
}

unfoldable pub complete_for :
    Completion → AuthDb → Option Challenge → Option Account → AuthDb × Bool
unfolding completed
complete_for input db none user = (db, false)
complete_for input db (some challenge) none = (db, false)
complete_for input db (some challenge) (some user) =
    if expects_change challenge.reason user
      && nat_beq (count_where (target input challenge.reason) db.accounts) 1
      && nat_beq (count_where (usable input) db.challenges) 1
    then (completed input challenge.reason user db, true)
    else (db, false)

-- The second component is whether the password was changed; a conflict undoes the transaction.
unfoldable pub complete : Completion → AuthDb → AuthDb × Bool
unfolding complete_for find_where
complete input db =
    complete_for input db (find_where (usable input) db.challenges)
      (find_where (is_account input.company_id input.user_id) db.accounts)
