-- ===== src/Auth/Identifiers.antt =====
-- shared/utils/normalization.ts: what a user is looked up by at the login. The lower case of the
-- platform, `toLocaleLowerCase('pt-BR')`, is a parameter.
use Prim.Native.Char.{Char, code}
use lume_tenant_api.Base.{
  String, leb, nat_beq, Bool, true, false, ◌&&◌, ◌||◌, if◌then◌else◌, ◌≡◌, refl, arith,
}
use lume_tenant_api.Base.Text.{trim, code_units}

abbrev pub is_digit : Char → Bool
is_digit c = leb 48 (code c) && leb (code c) 57

-- `value.replace(/\D/g, '')`.
unfoldable pub only_digits : String → String
only_digits String.[] = ""
only_digits (String.◌∷◌ c s) =
    let rest = only_digits s in if is_digit c then String.◌∷◌ c rest else rest

-- `normalizeEmail` and `normalizeUsername` do the same.
unfoldable pub normalize_name : (String → String) → String → String
unfolding trim
normalize_name lower value = lower (trim value)

abbrev pub is_document_length : String → Bool
is_document_length digits = nat_beq (code_units digits) 11 || nat_beq (code_units digits) 14

abbrev pub any_char : (Char → Bool) → String → Bool
any_char test String.[] = false
any_char test (String.◌∷◌ c s) = test c || any_char test s

-- `value.includes('@')`.
abbrev pub has_at : String → Bool
has_at value = any_char (λ c. nat_beq (code c) 64) value

unfoldable pub normalize_login_identifier : (String → String) → String → String
unfolding trim only_digits normalize_name code_units
normalize_login_identifier lower value =
    let trimmed = trim value in
    let digits = only_digits trimmed in
    if has_at trimmed
    then normalize_name lower trimmed
    else if is_document_length digits
    then digits
    else normalize_name lower trimmed

only_digits-again : (s : String) → only_digits (only_digits s) ≡ only_digits s
unfolding only_digits
only_digits-again String.[] = refl
only_digits-again (String.◌∷◌ c s) = ground (arith, only_digits-again s)

-- A text without `@` that has the digits of a document is looked up by these digits alone.
pub normalize_login_identifier-digits :
    (lower : String → String) (value : String)
    → has_at (trim value) ≡ false
    → is_document_length (only_digits (trim value)) ≡ true
    → (normalize_login_identifier lower value ≡ only_digits (trim value))
      × (only_digits (normalize_login_identifier lower value)
          ≡ normalize_login_identifier lower value)
unfolding normalize_login_identifier
normalize_login_identifier-digits lower value plain long =
    let same : normalize_login_identifier lower value ≡ only_digits (trim value) =
      rw (plain, long) refl in
    (same, rw same (only_digits-again (trim value)))

abbrev pub every_char : (Char → Bool) → String → Bool
every_char test String.[] = true
every_char test (String.◌∷◌ c s) = test c && every_char test s

abbrev is_letter : Char → Bool
is_letter c = (leb 65 (code c) && leb (code c) 90) || (leb 97 (code c) && leb (code c) 122)

-- A letter, a digit, or one of `.`, `_` and `-`.
abbrev is_username_char : Char → Bool
is_username_char c =
    is_letter c || is_digit c || nat_beq (code c) 46 || nat_beq (code c) 95 || nat_beq (code c) 45

-- `USERNAME_PATTERN`.
unfoldable pub is_valid_username : String → Bool
unfolding code_units
is_valid_username value =
    any_char is_letter value
    && every_char is_username_char value
    && leb 3 (code_units value)
    && leb (code_units value) 40

every-only_digits : (s : String) → every_char is_digit (only_digits s) ≡ true
unfolding only_digits
every-only_digits String.[] = refl
every-only_digits (String.◌∷◌ c s) = ground (arith, every-only_digits s)

digits-no_letter : (s : String) → every_char is_digit s ≡ true → any_char is_letter s ≡ false
digits-no_letter String.[] h = refl
digits-no_letter (String.◌∷◌ c s) h = ground (arith, digits-no_letter s)

digits-no_at : (s : String) → every_char is_digit s ≡ true → has_at s ≡ false
digits-no_at String.[] h = refl
digits-no_at (String.◌∷◌ c s) h = ground (arith, digits-no_at s)

-- A valid user name is not only digits.
pub is_valid_username-digits : (s : String) → is_valid_username s ≡ true → ¬ (only_digits s ≡ s)
unfolding is_valid_username
is_valid_username-digits s valid same =
    let kept : every_char is_digit (only_digits s) ≡ true = every-only_digits s in
    let digits : every_char is_digit s ≡ true = rw same at kept in
    let none_left = digits-no_letter s digits in ground arith

pub at-digits : (s : String) → has_at s ≡ true → ¬ (only_digits s ≡ s)
at-digits s has_at same =
    let kept : every_char is_digit (only_digits s) ≡ true = every-only_digits s in
    let digits : every_char is_digit s ≡ true = rw same at kept in
    let none_left = digits-no_at s digits in cc
