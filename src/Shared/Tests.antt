-- ===== src/Shared/Tests.antt =====
-- Telephone numbers at concrete texts.
use lume_tenant_api.Base.{ℕ, ◌≡◌, refl, some, List, [], ◌∷◌, All, arith}
use lume_tenant_api.Shared.Phone.{
  only_digits, before, local_part, drop_leading_zero, brazilian_digits, with_ninth_digit,
  with_country, normalize_national, checked_length, normalize_whats_app_phone,
  whats_app_phone_aliases,
}
use lume_tenant_api.Shared.Phone.Canonical.{
  normalize-again, IsAlias, whats_app_phone_aliases-IsAlias, normalize_double_zero,
}

-- (11) 8765-4321 and the number with country code and ninth digit.
abbrev old_mobile : List ℕ
old_mobile =
    b'(' ∷ b'1' ∷ b'1' ∷ b')' ∷ b'8' ∷ b'7' ∷ b'6' ∷ b'5' ∷ b'-' ∷ b'4' ∷ b'3' ∷ b'2' ∷ b'1' ∷ b'@'
    ∷ b's' ∷ []

abbrev new_mobile : List ℕ
new_mobile =
    b'5' ∷ b'5' ∷ b'1' ∷ b'1' ∷ b'9' ∷ b'8' ∷ b'7' ∷ b'6' ∷ b'5' ∷ b'4' ∷ b'3' ∷ b'2' ∷ b'1' ∷ []

old_mobile_normalized : normalize_whats_app_phone old_mobile ≡ some new_mobile
unfolding normalize_whats_app_phone only_digits before local_part drop_leading_zero brazilian_digits
    with_ninth_digit with_country normalize_national checked_length
old_mobile_normalized = refl

normalize-again_example : normalize_whats_app_phone new_mobile ≡ some new_mobile
normalize-again_example = normalize-again old_mobile new_mobile old_mobile_normalized refl

whats_app_phone_aliases-IsAlias_example :
    (aliases : List (List ℕ)) × (whats_app_phone_aliases old_mobile ≡ some aliases)
    × All (IsAlias new_mobile) aliases
whats_app_phone_aliases-IsAlias_example =
    whats_app_phone_aliases-IsAlias old_mobile new_mobile old_mobile_normalized refl

-- A number abroad, behind the international prefix.
abbrev abroad : List ℕ
abroad = b'4' ∷ b'4' ∷ b'2' ∷ b'0' ∷ b'7' ∷ b'9' ∷ b'4' ∷ b'6' ∷ b'0' ∷ b'9' ∷ b'5' ∷ b'8' ∷ []

normalize_double_zero_example :
    (normalize_whats_app_phone (b'0' ∷ b'0' ∷ abroad) ≡ some (b'0' ∷ abroad))
    × (normalize_whats_app_phone (b'0' ∷ abroad) ≡ normalize_whats_app_phone abroad)
normalize_double_zero_example = normalize_double_zero abroad refl refl (omega arith) (omega arith)
