-- ===== src/Shared/Phone/Canonical.antt =====
-- The normalised number as a key.
use lume_tenant_api.Base.{
  ℕ, ◌≤◌, ◌≡◌, ◌⊎◌, refl, sym, ◌∙◌, ap, inl, inr, true, false, ◌&&◌, Bool, Bool-cases, arith, List,
  [], ◌∷◌, every, length, All, some, nat_beq,
}
use lume_tenant_api.Shared.Phone.{
  is_digit, starts_with, starts_with_country, rest_of, is_mobile_start, with_ninth_digit,
  drop_leading_zero, brazilian_digits, with_country, normalize_national, is_brazilian_length,
  checked_length, normalize_whats_app_phone, without_fifth, phone_aliases, whats_app_phone_aliases,
}
use lume_tenant_api.Shared.Phone.Digits.{normalize-every, normalize-eq-some, normalize-digits}

-- The subscriber of a Brazilian number, without the ninth digit where a number may lack it.
abbrev IsSubscriber : List ℕ → Type 0
IsSubscriber s = ((length s ≡ 8) ⊎ (length s ≡ 9)) × (with_ninth_digit s ≡ s)

national_stable :
    (a b : ℕ) (s : List ℕ)
    → IsSubscriber s
    → normalize_national (b'5' ∷ b'5' ∷ a ∷ b ∷ s) ≡ b'5' ∷ b'5' ∷ a ∷ b ∷ s
unfolding normalize_national brazilian_digits with_country
national_stable a b s h = ground arith

with_ninth_digit-IsSubscriber :
    (s : List ℕ) → (length s ≡ 8) ⊎ (length s ≡ 9) → IsSubscriber (with_ninth_digit s)
unfolding with_ninth_digit
with_ninth_digit-IsSubscriber s h = ground arith

with_country_stable :
    (b : List ℕ)
    → is_brazilian_length b ≡ true
    → normalize_national (with_country b) ≡ with_country b
unfolding with_country
with_country_stable [] h = ground arith
with_country_stable (x ∷ []) h = ground arith
with_country_stable (x ∷ y ∷ s) h =
    national_stable x y (with_ninth_digit s) (with_ninth_digit-IsSubscriber s (ground arith))

national_form :
    (ds : List ℕ)
    → is_brazilian_length (brazilian_digits ds) ≡ true
    → normalize_national ds ≡ with_country (brazilian_digits ds)
unfolding normalize_national
national_form ds national = rw national refl

foreign_form :
    (ds : List ℕ) → is_brazilian_length (brazilian_digits ds) ≡ false → normalize_national ds ≡ ds
unfolding normalize_national
foreign_form ds foreign = rw foreign refl

normalize_national_stable :
    (ds : List ℕ) → normalize_national (normalize_national ds) ≡ normalize_national ds
normalize_national_stable ds = elim (Bool-cases (is_brazilian_length (brazilian_digits ds))) [
  | inl national ↦
      let same = national_form ds national in
      ap normalize_national same ∙ with_country_stable (brazilian_digits ds) national ∙ sym same
  | inr foreign ↦ ap normalize_national (foreign_form ds foreign)
]

-- A normalised number that does not start with a zero is normalised to itself.
pub normalize-again :
    (value d : List ℕ)
    → normalize_whats_app_phone value ≡ some d
    → starts_with b'0' d ≡ false
    → normalize_whats_app_phone d ≡ some d
unfolding checked_length drop_leading_zero
normalize-again value d h no_zero =
    let (ds, _, same, least, most) = normalize-eq-some value d h in
    let stable = ap normalize_national (sym same) ∙ normalize_national_stable ds ∙ same in
    normalize-every d (normalize-digits value d h).0 ∙ rw (no_zero, stable) (ground arith)

-- The alias of a number, over the digits behind its country code and area code.
alias_form :
    (a b : ℕ) (s : List ℕ)
    → every is_digit (b'5' ∷ b'5' ∷ a ∷ b ∷ s) ≡ true
    → length s ≡ 8
    → normalize_whats_app_phone (b'5' ∷ b'5' ∷ a ∷ b ∷ s)
      ≡ some (b'5' ∷ b'5' ∷ a ∷ b ∷ with_ninth_digit s)
unfolding drop_leading_zero normalize_national brazilian_digits with_country checked_length
    with_ninth_digit
alias_form a b s digits size = normalize-every (b'5' ∷ b'5' ∷ a ∷ b ∷ s) digits ∙ ground arith

-- The digits from the sixth on start as a mobile number does.
abbrev pub mobile_behind : List ℕ → Bool
mobile_behind d = is_mobile_start (rest_of (rest_of (rest_of (rest_of (rest_of d)))))

alias_back :
    (d : List ℕ)
    → every is_digit d ≡ true
    → starts_with_country d ≡ true
    → length d ≡ 13
    → starts_with b'9' (rest_of (rest_of (rest_of (rest_of d)))) ≡ true
    → (mobile_behind d ≡ true → normalize_whats_app_phone (without_fifth d) ≡ some d)
      × (mobile_behind d ≡ false
          → normalize_whats_app_phone (without_fifth d) ≡ some (without_fifth d))
unfolding without_fifth with_ninth_digit
alias_back (f ∷ i ∷ a ∷ b ∷ n ∷ s) digits country size ninth =
    (λ mobile. ground (arith, alias_form a b s), λ fixed. ground (arith, alias_form a b s))
alias_back [] digits country size ninth = ground arith
alias_back (f ∷ []) digits country size ninth = ground arith
alias_back (f ∷ i ∷ []) digits country size ninth = ground arith
alias_back (f ∷ i ∷ a ∷ []) digits country size ninth = ground arith
alias_back (f ∷ i ∷ a ∷ b ∷ []) digits country size ninth = ground arith

-- What one alias of a number comes to.
abbrev pub IsAlias : List ℕ → List ℕ → Type 0
IsAlias d alias =
    (normalize_whats_app_phone alias ≡ some d)
    ⊎ ((alias ≡ without_fifth d)
        × (mobile_behind d ≡ false)
        × (normalize_whats_app_phone alias ≡ some alias))

-- The one alias that a number may have beside itself.
aliases_form :
    (d : List ℕ)
    → every is_digit d ≡ true
    → normalize_whats_app_phone d ≡ some d
    → All (IsAlias d) (phone_aliases d)
unfolding phone_aliases
aliases_form d digits again =
    let ninth = starts_with b'9' (rest_of (rest_of (rest_of (rest_of d)))) in
    elim (Bool-cases (starts_with_country d && nat_beq (length d) 13 && ninth)) [
      | inr alone ↦ rw alone (inl again, tt)
      | inl mobile ↦ rw mobile (
          let back = alias_back d digits (ground arith) (ground arith) (ground arith) in
          elim (Bool-cases (mobile_behind d)) [
            | inl same ↦ (inl again, (inl (back.0 same), tt))
            | inr other ↦ (inl again, (inr (refl, other, back.1 other), tt))
          ])
    ]

-- Every alias of a number that does not start with a zero leads back to the normalised number, but
-- for one: without the ninth digit, a number whose sixth digit is not 6 to 9 is a normalised number of
-- its own.
pub whats_app_phone_aliases-IsAlias :
    (value d : List ℕ)
    → normalize_whats_app_phone value ≡ some d
    → starts_with b'0' d ≡ false
    → (aliases : List (List ℕ)) × (whats_app_phone_aliases value ≡ some aliases)
      × All (IsAlias d) aliases
unfolding whats_app_phone_aliases
whats_app_phone_aliases-IsAlias value d h no_zero = (
  phone_aliases d,
  rw (whats_app_phone_aliases, h) refl,
  aliases_form d (normalize-digits value d h).0 (normalize-again value d h no_zero),
)

double_zero_form :
    (ds : List ℕ)
    → every is_digit ds ≡ true
    → 11 ≤ length ds
    → length ds ≤ 14
    → normalize_whats_app_phone (b'0' ∷ b'0' ∷ ds) ≡ some (b'0' ∷ ds)
unfolding drop_leading_zero normalize_national brazilian_digits checked_length
double_zero_form ds digits least most =
    normalize-every (b'0' ∷ b'0' ∷ ds) (ground arith) ∙ ground arith

-- Two zeros in front of 11 to 14 digits, the first of them no zero, leave one zero in the normalised
-- number, though one zero in front of the same digits leaves none.
pub normalize_double_zero :
    (ds : List ℕ)
    → every is_digit ds ≡ true
    → starts_with b'0' ds ≡ false
    → 11 ≤ length ds
    → length ds ≤ 14
    → (normalize_whats_app_phone (b'0' ∷ b'0' ∷ ds) ≡ some (b'0' ∷ ds))
      × (normalize_whats_app_phone (b'0' ∷ ds) ≡ normalize_whats_app_phone ds)
unfolding drop_leading_zero
normalize_double_zero ds digits no_zero least most = (
  double_zero_form ds digits least most,
  rw (normalize-every (b'0' ∷ ds) (ground arith), normalize-every ds digits, no_zero) refl,
)
