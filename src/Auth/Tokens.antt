-- ===== src/Auth/Tokens.antt =====
-- infra/auth/opaque-refresh-token.service.ts: tokens with a row's id in front. The hash of a text
-- and the bytes of a text of hexadecimal digits, which `node:crypto` and `Buffer` give, are parameters.
use Prim.Native.Char.{Char, code}
use Prim.Native.String
use Prim.Native.String.append
use lume_tenant_api.Base.{
  String, ℕ, leb, nat_beq, Bool, true, false, ◌&&◌, ◌||◌, Option, none, some, List, [], ◌∷◌,
  if◌then◌else◌, ◌≡◌, refl, ap, arith,
}
use lume_tenant_api.Auth.Rows.{TokenService, ParsedToken}
use lume_tenant_api.Auth.Identifiers.{is_digit}
use lume_tenant_api.Auth.Passwords.{IssuedToken}

-- The characters of the expression that an id must match, without regard to case.
pub data IdChar : Type 0 where
  hex_char dash version_char variant_char : IdChar

abbrev is_hex : Char → Bool
is_hex c =
    is_digit c || (leb 65 (code c) && leb (code c) 70) || (leb 97 (code c) && leb (code c) 102)

abbrev is_id_char : IdChar → Char → Bool
is_id_char hex_char c = is_hex c
is_id_char dash c = nat_beq (code c) 45
is_id_char version_char c = nat_beq (code c) 52
is_id_char variant_char c =
    nat_beq (code c) 56
    || nat_beq (code c) 57
    || nat_beq (code c) 65
    || nat_beq (code c) 66
    || nat_beq (code c) 97
    || nat_beq (code c) 98

abbrev fits_pattern : List IdChar → String → Bool
fits_pattern [] String.[] = true
fits_pattern [] (String.◌∷◌ c s) = false
fits_pattern (p ∷ ps) String.[] = false
fits_pattern (p ∷ ps) (String.◌∷◌ c s) = is_id_char p c && fits_pattern ps s

abbrev three_hex : List IdChar → List IdChar
three_hex ps = hex_char ∷ hex_char ∷ hex_char ∷ ps

abbrev four_hex : List IdChar → List IdChar
four_hex ps = hex_char ∷ three_hex ps

abbrev id_pattern : List IdChar
id_pattern = four_hex (
    four_hex (
      dash
      ∷ four_hex (
          dash
          ∷ version_char
          ∷ three_hex
              (dash ∷ variant_char ∷ three_hex (dash ∷ four_hex (four_hex (four_hex [])))))))

unfoldable pub is_token_id : String → Bool
is_token_id id = fits_pattern id_pattern id

abbrev with_first : Char → Option String → Option String
with_first c none = none
with_first c (some s) = some (String.◌∷◌ c s)

-- What stands before the first `.`, if there is one.
unfoldable pub before_dot : String → Option String
before_dot String.[] = none
before_dot (String.◌∷◌ c s) =
    let rest = before_dot s in if nat_beq (code c) 46 then some "" else with_first c rest

abbrev parsed_with : (String → String) → String → Option String → Option ParsedToken
parsed_with sha256 token none = none
parsed_with sha256 token (some id) =
    if is_token_id id then some (record { id = id; hash = sha256 token }) else none

unfoldable pub parse : (String → String) → String → Option ParsedToken
unfolding before_dot is_token_id
parse sha256 token = parsed_with sha256 token (before_dot token)

abbrev same_bytes : List ℕ → List ℕ → Bool
same_bytes [] [] = true
same_bytes [] (b ∷ bs) = false
same_bytes (a ∷ rest) [] = false
same_bytes (a ∷ rest) (b ∷ bs) = nat_beq a b && same_bytes rest bs

-- `issue`, for the id and the secret that were drawn.
unfoldable pub issue : (String → String) → String → String → IssuedToken
issue sha256 id secret = record {
  id = id;
  plain_text = String.◌++◌ id (String.◌++◌ "." secret);
  hash = sha256 (String.◌++◌ id (String.◌++◌ "." secret));
}

unfoldable pub opaque_tokens : (String → String) → (String → List ℕ) → TokenService
unfolding parse
opaque_tokens sha256 hex_bytes = record {
  parse = parse sha256;
  matches = λ first second. same_bytes (hex_bytes first) (hex_bytes second);
}

is_id_char-no_dot : (p : IdChar) (c : Char) → is_id_char p c ≡ true → nat_beq (code c) 46 ≡ false
is_id_char-no_dot hex_char c h = ground arith
is_id_char-no_dot dash c h = ground arith
is_id_char-no_dot version_char c h = ground arith
is_id_char-no_dot variant_char c h = ground arith

append-cons :
    (c : Char) (s t : String) → String.◌++◌ (String.◌∷◌ c s) t ≡ String.◌∷◌ c (String.◌++◌ s t)
append-cons c s t = λ i. append.cons c s t i

append-nil : (t : String) → String.◌++◌ "" t ≡ t
append-nil t = λ i. append.nil t i

before_dot-dot : (s : String) → before_dot (String.◌++◌ "." s) ≡ some ""
unfolding before_dot
before_dot-dot s = ap before_dot (append-cons _ "" s)

before_dot-append :
    (ps : List IdChar) (id secret : String)
    → fits_pattern ps id ≡ true
    → before_dot (String.◌++◌ id (String.◌++◌ "." secret)) ≡ some id
unfolding before_dot
before_dot-append [] String.[] secret h =
    rw (append-nil (String.◌++◌ "." secret)) (before_dot-dot secret)
before_dot-append [] (String.◌∷◌ c id) secret h = cc
before_dot-append (p ∷ ps) String.[] secret h = cc
before_dot-append (p ∷ ps) (String.◌∷◌ c id) secret h =
    let next = before_dot-append ps id secret (ground arith) in
    let other = is_id_char-no_dot p c (ground arith) in
    rw (append-cons c id (String.◌++◌ "." secret), other, next) refl

same_bytes-same : (bytes : List ℕ) → same_bytes bytes bytes ≡ true
same_bytes-same [] = refl
same_bytes-same (b ∷ bytes) = ground (arith, same_bytes-same bytes)

-- The service reads the id and the hash back from a token that it issued for an id of version 4, and
-- finds that hash equal to itself.
parse-issue :
    (sha256 : String → String) (hex_bytes : String → List ℕ) (id secret : String)
    → is_token_id id ≡ true
    → ((opaque_tokens sha256 hex_bytes).parse (issue sha256 id secret).plain_text
        ≡ some (record { id = id; hash = (issue sha256 id secret).hash }))
      × ((opaque_tokens sha256 hex_bytes).matches
            (issue sha256 id secret).hash
            (issue sha256 id secret).hash
          ≡ true)
unfolding opaque_tokens parse issue is_token_id
parse-issue sha256 hex_bytes id secret named =
    let read = before_dot-append id_pattern id secret named in
    (
      rw (read, named) refl,
      same_bytes-same (hex_bytes (sha256 (String.◌++◌ id (String.◌++◌ "." secret)))),
    )
