-- ===== src/WhatsApp/Automation/Masking.antt =====
-- whatsapp-automation-flow.ts, `getProcessableMessageText`: personal numbers are masked before a
-- text is read. The pattern is `/\b\d{3}[.\s-]?\d{3}[.\s-]?\d{3}[-\s]?\d{2}\b/g`; no separator is a
-- digit, so no choice of it is ever taken back.
use Prim.Native.Char.{Char, code}
use Prim.Native.Nat.{pred}
use Prim.Native.String.{◌++◌}
use lume_tenant_api.Base.{
  ℕ, zero, suc, String, Bool, false, ◌&&◌, ◌||◌, Option, none, some, nat_beq, leb, if◌then◌else◌,
  get_or,
}
use lume_tenant_api.Base.Text.{trim, is_space, is_blank}
use lume_tenant_api.WhatsApp.Constants.{MessageKind}

abbrev pub is_digit : Char → Bool
is_digit c = leb b'0' (code c) && leb (code c) b'9'

-- `\w`.
abbrev pub is_word : Char → Bool
is_word c =
    is_digit c
    || (leb b'a' (code c) && leb (code c) b'z')
    || (leb b'A' (code c) && leb (code c) b'Z')
    || nat_beq (code c) b'_'

-- `[.\s-]` and `[-\s]`.
abbrev pub is_separator : Char → Bool
is_separator c = nat_beq (code c) b'.' || is_space c || nat_beq (code c) b'-'

abbrev pub is_last_separator : Char → Bool
is_last_separator c = nat_beq (code c) b'-' || is_space c

-- What is matched next: so many digits, perhaps behind a separator, and then the rest.
pub data Pattern : Type 0 where
  digits : ℕ → Pattern → Pattern
  optional : (Char → Bool) → Pattern → Pattern
  word_end : Pattern

abbrev pub starts_word : String → Bool
starts_word String.[] = false
starts_word (String.◌∷◌ c s) = is_word c

-- The number of characters that the pattern matches at the head of a text, if it does. The last
-- character before `word_end` is a digit, so the boundary wants that no word goes on.
unfoldable pub match_from : Pattern → ℕ → String → Option ℕ
match_from word_end n s = if starts_word s then none else some n
match_from (digits zero p) n s = match_from p n s
match_from (digits (suc k) p) n String.[] = none
match_from (digits (suc k) p) n (String.◌∷◌ c s) =
    let rest = match_from (digits k p) (suc n) s in if is_digit c then rest else none
match_from (optional sep p) n String.[] = match_from p n ""
match_from (optional sep p) n (String.◌∷◌ c s) =
    let taken = match_from p (suc n) s in
    let left = match_from p n (String.◌∷◌ c s) in if sep c then taken else left

abbrev pub personal_number : Pattern
personal_number = digits 3 (
    optional is_separator (
      digits 3 (optional is_separator (digits 3 (optional is_last_separator (digits 2 word_end))))))

abbrev pub mask : String
mask = "[DADO_PESSOAL_MASCARADO]"

-- `text.replace(pattern, mask)`: `skip` characters of a match are still to be dropped, and
-- `in_word` says that the character before is of a word, so that no match begins here.
unfoldable pub mask_from : ℕ → Bool → String → String
mask_from skip in_word String.[] = ""
mask_from (suc skip) in_word (String.◌∷◌ c s) = mask_from skip (is_word c) s
mask_from zero in_word (String.◌∷◌ c s) =
    let kept = String.◌∷◌ c (mask_from zero (is_word c) s) in
    let found = if in_word then none else match_from personal_number 0 (String.◌∷◌ c s) in
    elim found [ none ↦ kept | some n ↦ mask ++ mask_from (pred n) (is_word c) s ]

unfoldable pub mask_personal_numbers : String → String
unfolding mask_from match_from
mask_personal_numbers text = mask_from 0 false text

unfoldable pub get_processable_message_text : MessageKind → Option String → Option String
unfolding mask_personal_numbers trim
get_processable_message_text MessageKind.text message_text =
    let sanitized = mask_personal_numbers (trim (get_or message_text "")) in
    if is_blank sanitized then none else some sanitized
get_processable_message_text _ message_text = none
