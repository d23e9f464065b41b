-- ===== src/Base/Text.antt =====
-- Strings as the source uses them: trimming, lines, joins and substrings. A character is a code
-- point, where ECMAScript counts UTF-16 units; the two agree on the basic multilingual plane.
use Prim.Native.Char.{Char, code}
use Prim.Native.Nat.{ℕ, zero, suc, ◌+◌}
use Prim.Native.String
use lume_tenant_api.Base.Tests.{nat_beq, leb, if◌then◌else◌}
use Prim.Native.String.{String}
use mathlib.Core.Bool.{Bool, true, false, ◌&&◌, ◌||◌}
use mathlib.Core.List.{List, [], ◌∷◌}
use text.Mathlib.Text.{starts_with}

-- The white space and line ends that `trim` removes and that `\s` matches.
abbrev pub is_space : Char → Bool
is_space c =
    let n = code c in
    (leb 9 n && leb n 13)
    || nat_beq n 32
    || nat_beq n 0xa0
    || nat_beq n 0x1680
    || (leb 0x2000 n && leb n 0x200a)
    || nat_beq n 0x2028
    || nat_beq n 0x2029
    || nat_beq n 0x202f
    || nat_beq n 0x205f
    || nat_beq n 0x3000
    || nat_beq n 0xfeff

abbrev pub is_blank : String → Bool
is_blank String.[] = true
is_blank (String.◌∷◌ c s) = false

unfoldable pub trim_start : String → String
trim_start String.[] = ""
trim_start (String.◌∷◌ c s) = let rest = trim_start s in if is_space c then rest else String.◌∷◌ c s

unfoldable pub trim_end : String → String
trim_end String.[] = ""
trim_end (String.◌∷◌ c s) =
    let rest = trim_end s in if is_space c && is_blank rest then "" else String.◌∷◌ c rest

unfoldable pub trim : String → String
unfolding trim_start trim_end
trim s = trim_end (trim_start s)

-- `split(/\r?\n/)`: a carriage return before a line feed goes with it.
split_lines_from : String → String → List String
split_lines_from line String.[] = line ∷ []
split_lines_from line (String.◌∷◌ c s) =
    let ended = line ∷ split_lines_from "" s in
    let dropped = split_lines_from line s in
    let longer = split_lines_from (String.◌++◌ line (String.◌∷◌ c "")) s in
    if nat_beq (code c) 10
    then ended
    else if nat_beq (code c) 13 && starts_with s "\n"
    then dropped
    else longer

unfoldable pub split_lines : String → List String
unfolding split_lines_from
split_lines s = split_lines_from "" s

-- `lines.join('\n')`.
unfoldable pub join_lines : List String → String
join_lines [] = ""
join_lines (line ∷ []) = line
join_lines (line ∷ next ∷ rest) = String.◌++◌ line (String.◌++◌ "\n" (join_lines (next ∷ rest)))

-- `s.includes(part)`.
unfoldable pub contains : String → String → Bool
contains String.[] part = starts_with "" part
contains (String.◌∷◌ c s) part = starts_with (String.◌∷◌ c s) part || contains s part

-- `s.slice(0, n)`.
unfoldable pub cut : ℕ → String → String
cut zero s = ""
cut (suc n) String.[] = ""
cut (suc n) (String.◌∷◌ c s) = String.◌∷◌ c (cut n s)

-- `s.length`: a code point past the basic plane is two units.
unfoldable pub code_units : String → ℕ
code_units String.[] = 0
code_units (String.◌∷◌ c s) =
    let rest = code_units s in if leb 65536 (code c) then rest + 2 else rest + 1
