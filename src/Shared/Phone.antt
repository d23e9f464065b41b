-- ===== src/Shared/Phone.antt =====
-- shared/utils/normalization.ts: the telephone numbers of WhatsApp. A text is the list of its
-- character codes here; a call that throws is `none`.
pub mod Digits
pub mod Canonical
use lume_tenant_api.Base.{
  ℕ, zero, suc, nat_beq, ltb, leb, Bool, false, not, ◌&&◌, ◌||◌, Option, none, some, List, [], ◌∷◌,
  ◌++◌, length, filter, if◌then◌else◌,
}

abbrev pub is_digit : ℕ → Bool
is_digit c = leb b'0' c && leb c b'9'

unfoldable pub only_digits : List ℕ → List ℕ
only_digits value = filter is_digit value

-- `value.split(separator)[0]`.
unfoldable pub before : ℕ → List ℕ → List ℕ
before separator [] = []
before separator (c ∷ cs) =
    let kept = before separator cs in if nat_beq c separator then [] else c ∷ kept

unfoldable pub local_part : List ℕ → List ℕ
unfolding before
local_part value = before b':' (before b'@' value)

-- `digits.startsWith(…)` and `slice`.
abbrev pub starts_with : ℕ → List ℕ → Bool
starts_with first [] = false
starts_with first (c ∷ cs) = nat_beq c first

abbrev pub rest_of : List ℕ → List ℕ
rest_of [] = []
rest_of (c ∷ cs) = cs

abbrev pub starts_with_country : List ℕ → Bool
starts_with_country digits = starts_with b'5' digits && starts_with b'5' (rest_of digits)

unfoldable pub drop_leading_zero : List ℕ → List ℕ
drop_leading_zero digits = if starts_with b'0' digits then rest_of digits else digits

-- `brazilianDigits`: without the country code, where the length lets it be one.
unfoldable pub brazilian_digits : List ℕ → List ℕ
brazilian_digits digits =
    if starts_with_country digits && leb 12 (length digits)
    then rest_of (rest_of digits)
    else digits

abbrev pub is_mobile_start : List ℕ → Bool
is_mobile_start [] = false
is_mobile_start (c ∷ cs) = leb b'6' c && leb c b'9'

-- The ninth digit, which old mobile numbers lack.
unfoldable pub with_ninth_digit : List ℕ → List ℕ
with_ninth_digit subscriber =
    if nat_beq (length subscriber) 8 && is_mobile_start subscriber
    then b'9' ∷ subscriber
    else subscriber

-- Country code, area code and subscriber of a Brazilian number.
unfoldable pub with_country : List ℕ → List ℕ
unfolding with_ninth_digit
with_country [] = b'5' ∷ b'5' ∷ []
with_country (a ∷ []) = b'5' ∷ b'5' ∷ a ∷ []
with_country (a ∷ b ∷ subscriber) = b'5' ∷ b'5' ∷ a ∷ b ∷ with_ninth_digit subscriber

abbrev pub is_brazilian_length : List ℕ → Bool
is_brazilian_length digits = nat_beq (length digits) 10 || nat_beq (length digits) 11

unfoldable pub normalize_national : List ℕ → List ℕ
unfolding brazilian_digits with_country
normalize_national digits =
    if is_brazilian_length (brazilian_digits digits)
    then with_country (brazilian_digits digits)
    else digits

-- The check on the length, which throws.
unfoldable pub checked_length : List ℕ → Option (List ℕ)
checked_length digits =
    if ltb (length digits) 12 || ltb 15 (length digits) then none else some digits

unfoldable pub normalize_whats_app_phone : List ℕ → Option (List ℕ)
unfolding only_digits local_part drop_leading_zero normalize_national checked_length
normalize_whats_app_phone value =
    checked_length (normalize_national (drop_leading_zero (only_digits (local_part value))))

-- The number without its fifth character: `slice(0, 4) + slice(5)`.
unfoldable pub without_fifth : List ℕ → List ℕ
without_fifth (a ∷ b ∷ c ∷ d ∷ e ∷ rest) = a ∷ b ∷ c ∷ d ∷ rest
without_fifth short = short

unfoldable pub phone_aliases : List ℕ → List (List ℕ)
unfolding without_fifth
phone_aliases normalized =
    if starts_with_country normalized
      && nat_beq (length normalized) 13
      && starts_with b'9' (rest_of (rest_of (rest_of (rest_of normalized))))
    then normalized ∷ without_fifth normalized ∷ []
    else normalized ∷ []

unfoldable pub whats_app_phone_aliases : List ℕ → Option (List (List ℕ))
unfolding normalize_whats_app_phone phone_aliases
whats_app_phone_aliases value = elim (normalize_whats_app_phone value) [
  | none ↦ none
  | some normalized ↦ some (phone_aliases normalized)
]
