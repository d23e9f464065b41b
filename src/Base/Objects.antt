-- ===== src/Base/Objects.antt =====
-- Values of the language that a plain `Option` blurs: an optional field that may be null, and what
-- reading an object literal by a computed key gives.
use lume_tenant_api.Base.Tests.{Bool-cases, ◌==◌, string_eq, if◌then◌else◌}
use lume_tenant_api.Base.Lists.{All, includes}
use Prim.Native.String.{String}
use mathlib.Core.Path.{◌≡◌, sym, subst}
use mathlib.Core.Logic.{inl, inr}
use text.Mathlib.TextEquality.{eq_iff}
use mathlib.Core.Bool.{Bool, true, false}
use mathlib.Core.Option.{Option, none, some}
use mathlib.Core.List.{List, [], ◌∷◌}

-- `T | null | undefined`.
pub data Field (A : Type 0) : Type 0 where
  undefined null : Field A
  value : A → Field A

abbrev pub is_null : {A : Type 0} → Field A → Bool
is_null undefined = false
is_null null = true
is_null (value a) = false

-- `field ?? …` and `field?.…` see one absence.
abbrev pub present : {A : Type 0} → Field A → Option A
present undefined = none
present null = none
present (value a) = some a

-- The names that every object literal inherits from `Object.prototype`; each reads as a value that
-- is neither null nor false.
abbrev pub object_prototype_names : List String
object_prototype_names =
    "constructor" ∷ "__defineGetter__" ∷ "__defineSetter__" ∷ "hasOwnProperty" ∷ "__lookupGetter__"
    ∷ "__lookupSetter__" ∷ "isPrototypeOf" ∷ "propertyIsEnumerable" ∷ "toString" ∷ "valueOf"
    ∷ "__proto__" ∷ "toLocaleString" ∷ []

-- `object[key]`: an own property, one of the prototype, or undefined.
pub data Property (A : Type 0) : Type 0 where
  missing inherited : Property A
  own : A → Property A

unfoldable pub read_key : {A : Type 0} → List (String × A) → String → Property A
read_key [] key = if includes object_prototype_names key then inherited else missing
read_key ((k, a) ∷ rest) key = if key == k then own a else read_key rest key

-- What holds of every own property, of a missing one and of the inherited ones holds of any read.
pub read_key-All :
    {A : Type 0} (P : String → Property A → Type 0) (entries : List (String × A)) (key : String)
    → P key missing
    → (includes object_prototype_names key ≡ true → P key inherited)
    → All (λ entry. P entry.0 (own entry.1)) entries
    → P key (read_key entries key)
unfolding read_key
read_key-All P [] key m i h = elim (Bool-cases (includes object_prototype_names key)) [
  | inl named ↦ rw named (i named)
  | inr free ↦ rw free m
]
read_key-All P ((k, a) ∷ rest) key m i (here, later) = elim (Bool-cases (key == k)) [
  | inl same ↦ rw same (subst (λ j. P j (own a)) (sym ((eq_iff key k).0 same)) here)
  | inr other ↦ rw other (read_key-All P rest key m i later)
]
