-- ===== src/Auth/RequestAnswers.antt =====
-- What a request for a link answers, and what it leaves where the link cannot be sent.
use lume_tenant_api.Base.{
  String, ℕ, ap, ◌∙◌, ◌<◌, ◌+◌, true, false, Option, none, some, List, [], ◌∷◌, filter, not, ◌==◌,
  string_eq, ok, ◌≡◌, refl, arith, Bool-cases, Option-cases, eq_iff, inl, inr, any,
}
use lume_tenant_api.Auth.Rows.{Account, Challenge, AuthDb}
use lume_tenant_api.Auth.Identifiers.{normalize_login_identifier}
use lume_tenant_api.Auth.Challenges.{create, delete}
use lume_tenant_api.Auth.Login.{has_identifier, renewed_account, find_by_login_identifier}
use lume_tenant_api.Auth.Accounts.{reactivate_expired_suspensions}
use lume_tenant_api.Base.Tables.{find_where}
use lume_tenant_api.Auth.Requests.{
  Delivery, RequestDraw, Answer, generic_response, wait_for_minimum_response, may_request,
  reset_challenge, send_link, store_link, request_for, request_password_reset,
}

-- What every way through the request has in common.
abbrev generic_answer : ℕ → RequestDraw → Answer
generic_answer minimum draw = record {
  given_at = wait_for_minimum_response minimum draw;
  response = generic_response;
}

send_link-answer :
    (minimum : ℕ) (delivery : Delivery) (draw : RequestDraw) (account : Account)
    (failure : Option String) (db : AuthDb)
    → (send_link minimum delivery draw account failure db).1 ≡ generic_answer minimum draw
unfolding send_link
send_link-answer minimum delivery draw account none db = refl
send_link-answer minimum delivery draw account (some failure) db = refl

request_for-answer :
    (minimum : ℕ) (delivery : Delivery) (draw : RequestDraw) (user : Option Account) (db : AuthDb)
    → (request_for minimum delivery draw user db).1 ≡ generic_answer minimum draw
unfolding request_for store_link
request_for-answer minimum delivery draw none db = refl
request_for-answer minimum delivery draw (some account) db =
    elim (Bool-cases (may_request account)) [
      | inr refused ↦ rw refused refl
      | inl asked ↦ elim (Bool-cases delivery.stored) [
        | inr lost ↦ rw (asked, lost) refl
        | inl kept ↦
            rw (asked, kept)
              (send_link-answer minimum delivery draw account delivery.failure
                (create (reset_challenge draw account) db))
      ]
    ]

-- Neither what is answered nor when tells whether there is an account: where mail is set up, any two
-- requests that are ready to be answered before the minimum time is over get the same answer, each
-- exactly when its minimum time is over, whoever has an account in either database, in use or not,
-- and whether or not the links could be stored, sent and removed.
pub request_password_reset-same_answer :
    (lower lower' : String → String) (minimum : ℕ) (delivery delivery' : Delivery)
    (draw draw' : RequestDraw) (identifier identifier' : String) (db db' : AuthDb)
    → delivery.configured ≡ true
    → delivery'.configured ≡ true
    → draw.reached_at < draw.started_at + minimum
    → draw'.reached_at < draw'.started_at + minimum
    → (answer answer' : Answer) × ((request_password_reset lower minimum delivery draw identifier
          db).1
        ≡ ok answer)
      × ((request_password_reset lower' minimum delivery' draw' identifier' db').1 ≡ ok answer')
      × (answer.response ≡ answer'.response)
      × (answer.given_at ≡ draw.started_at + minimum)
      × (answer'.given_at ≡ draw'.started_at + minimum)
unfolding request_password_reset wait_for_minimum_response
request_password_reset-same_answer lower lower' minimum delivery delivery' draw draw' identifier
      identifier' db db' set_up set_up' ready ready' =
    let one = request_for-answer minimum delivery draw in
    let two = request_for-answer minimum delivery' draw' in
    (
      generic_answer minimum draw,
      generic_answer minimum draw',
      rw set_up (ap ok (one _ _)),
      rw set_up' (ap ok (two _ _)),
      refl,
      ground arith,
      ground arith,
    )

filter-fresh :
    (id : String) (rows : List Challenge)
    → any (λ row. row.id == id) rows ≡ false
    → filter (λ row. not (row.id == id)) rows ≡ rows
filter-fresh id [] h = refl
filter-fresh id (row ∷ rows) h = ground (arith, filter-fresh id rows)

send_link-undelivered :
    (minimum : ℕ) (delivery : Delivery) (draw : RequestDraw) (account : Account)
    (failure : Option String) (error : String) (db : AuthDb)
    → any (λ row. row.id == draw.token.id) db.challenges ≡ false
    → failure ≡ some error
    → delivery.removed ≡ true
    → (send_link minimum delivery draw account failure
        (create (reset_challenge draw account) db)).0.challenges
      ≡ db.challenges
unfolding send_link create delete
send_link-undelivered minimum delivery draw account none error db fresh failed removed = cc
send_link-undelivered minimum delivery draw account (some code) error db fresh failed removed =
    let kept = filter-fresh draw.token.id db.challenges fresh in
    let own_id = (eq_iff draw.token.id draw.token.id).1 refl in
    elim (Bool-cases delivery.audited) [
      | inl entered ↦ rw (removed, entered, own_id) kept
      | inr lost ↦ rw (removed, lost, own_id) kept
    ]

request_for-undelivered :
    (minimum : ℕ) (delivery : Delivery) (draw : RequestDraw) (user : Option Account)
    (error : String) (db : AuthDb)
    → any (λ row. row.id == draw.token.id) db.challenges ≡ false
    → delivery.failure ≡ some error
    → delivery.removed ≡ true
    → (request_for minimum delivery draw user db).0.challenges ≡ db.challenges
unfolding request_for store_link
request_for-undelivered minimum delivery draw none error db fresh failed removed = refl
request_for-undelivered minimum delivery draw (some account) error db fresh failed removed =
    elim (Bool-cases (may_request account)) [
      | inr refused ↦ rw refused refl
      | inl asked ↦ elim (Bool-cases delivery.stored) [
        | inr lost ↦ rw (asked, lost) refl
        | inl kept ↦
            rw (asked, kept)
              (send_link-undelivered minimum delivery draw account delivery.failure error db fresh
                failed removed)
      ]
    ]

find_by_login_identifier-challenges :
    (identifier : String) (compared_at ended_at : ℕ) (db : AuthDb)
    → (find_by_login_identifier identifier compared_at ended_at db).0.challenges ≡ db.challenges
unfolding find_by_login_identifier renewed_account reactivate_expired_suspensions
find_by_login_identifier-challenges identifier compared_at ended_at db =
    elim (Option-cases (find_where (has_identifier identifier) db.accounts)) [
      | inl absent ↦ rw absent refl
      | inr (row, found) ↦ rw found (ground arith)
    ]

-- Where the mail with a link of a new id is not sent and the link can be removed, the request leaves
-- the links of every user as they were.
pub request_password_reset-undelivered :
    (lower : String → String) (minimum : ℕ) (delivery : Delivery) (draw : RequestDraw)
    (identifier error : String) (db : AuthDb)
    → any (λ row. row.id == draw.token.id) db.challenges ≡ false
    → delivery.failure ≡ some error
    → delivery.removed ≡ true
    → (request_password_reset lower minimum delivery draw identifier db).0.challenges
      ≡ db.challenges
unfolding request_password_reset
request_password_reset-undelivered lower minimum delivery draw identifier error db fresh failed
      removed =
    let looked_up =
      find_by_login_identifier (normalize_login_identifier lower identifier) draw.compared_at
        draw.ended_at db in
    let same : looked_up.0.challenges ≡ db.challenges =
      find_by_login_identifier-challenges (normalize_login_identifier lower identifier)
        draw.compared_at draw.ended_at db in
    elim (Bool-cases delivery.configured) [
      | inr missing ↦ rw missing refl
      | inl set_up ↦ rw set_up (
          request_for-undelivered minimum delivery draw looked_up.1 error looked_up.0
            (rw same fresh) failed removed
          ∙ same)
    ]
