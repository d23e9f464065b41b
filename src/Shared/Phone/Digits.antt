-- ===== src/Shared/Phone/Digits.antt =====
-- What normalisation keeps of the digits of a number.
use lume_tenant_api.Base.{
  ℕ, ◌≤◌, sym, ◌≡◌, refl, true, false, arith, List, [], ◌∷◌, every, length, some,
}
use lume_tenant_api.Shared.Phone.{
  is_digit, only_digits, before, local_part, drop_leading_zero, brazilian_digits, with_ninth_digit,
  with_country, normalize_national, checked_length, normalize_whats_app_phone, rest_of,
}

every-only_digits : (value : List ℕ) → every is_digit (only_digits value) ≡ true
unfolding only_digits
every-only_digits [] = refl
every-only_digits (c ∷ cs) = ground (arith, every-only_digits cs)

pub only_digits-every : (value : List ℕ) → every is_digit value ≡ true → only_digits value ≡ value
unfolding only_digits
only_digits-every [] h = refl
only_digits-every (c ∷ cs) h = ground (arith, only_digits-every cs)

before-every :
    (separator : ℕ) (value : List ℕ)
    → is_digit separator ≡ false
    → every is_digit value ≡ true
    → before separator value ≡ value
unfolding before
before-every separator [] other h = refl
before-every separator (c ∷ cs) other h = ground (arith, before-every separator cs)

pub local_part-every : (value : List ℕ) → every is_digit value ≡ true → local_part value ≡ value
unfolding local_part
local_part-every value h = rw (before-every b'@' value refl h, before-every b':' value refl h) refl

every-rest_of : (ds : List ℕ) → every is_digit ds ≡ true → every is_digit (rest_of ds) ≡ true
every-rest_of [] h = refl
every-rest_of (c ∷ cs) h = ground arith

every-with_country :
    (ds : List ℕ) → every is_digit ds ≡ true → every is_digit (with_country ds) ≡ true
unfolding with_country with_ninth_digit
every-with_country [] h = refl
every-with_country (a ∷ []) h = ground arith
every-with_country (a ∷ b ∷ s) h = ground arith

every-normalize_national :
    (ds : List ℕ) → every is_digit ds ≡ true → every is_digit (normalize_national ds) ≡ true
unfolding normalize_national brazilian_digits
every-normalize_national ds h = ground (
  arith,
  every-with_country ds,
  every-with_country (rest_of (rest_of ds)),
  every-rest_of ds,
  every-rest_of (rest_of ds),
)

every-drop_leading_zero :
    (ds : List ℕ) → every is_digit ds ≡ true → every is_digit (drop_leading_zero ds) ≡ true
unfolding drop_leading_zero
every-drop_leading_zero ds h = ground (arith, every-rest_of ds)

-- A text of digits is its own local part and its own digits.
pub normalize-every :
    (value : List ℕ)
    → every is_digit value ≡ true
    → normalize_whats_app_phone value
      ≡ checked_length (normalize_national (drop_leading_zero value))
unfolding normalize_whats_app_phone
normalize-every value h = rw (local_part-every value h, only_digits-every value h) refl

checked_length-eq-some :
    (ds d : List ℕ) → checked_length ds ≡ some d → (ds ≡ d) × (12 ≤ length d) × (length d ≤ 15)
unfolding checked_length
checked_length-eq-some ds d h = ground arith

-- The digits that a normalised number comes from.
pub normalize-eq-some :
    (value d : List ℕ)
    → normalize_whats_app_phone value ≡ some d
    → (ds : List ℕ) × (every is_digit ds ≡ true)
      × (normalize_national ds ≡ d)
      × (12 ≤ length d)
      × (length d ≤ 15)
unfolding normalize_whats_app_phone
normalize-eq-some value d h =
    let digits = only_digits (local_part value) in
    let (same, least, most) =
      checked_length-eq-some (normalize_national (drop_leading_zero digits)) d h in
    (
      drop_leading_zero digits,
      every-drop_leading_zero digits (every-only_digits (local_part value)),
      same,
      least,
      most,
    )

-- A normalised number is a text of 12 to 15 digits.
pub normalize-digits :
    (value d : List ℕ)
    → normalize_whats_app_phone value ≡ some d
    → (every is_digit d ≡ true) × (12 ≤ length d) × (length d ≤ 15)
normalize-digits value d h =
    let (ds, digits, same, least, most) = normalize-eq-some value d h in
    (rw (sym same) (every-normalize_national ds digits), least, most)
