-- ===== src/Base/Sets.antt =====
-- Sets of the language: an array without repetition that keeps the order of insertion, and the
-- default sort of an array of texts. Each law says which elements a result has.
use Prim.Native.Nat.{Ordering}
use Prim.Native.String.{String, compare}
use mathlib.Core.Path.{◌≡◌, refl, ap}
use mathlib.Core.Bool.{false≢true, Bool, true, false, ◌&&◌, ◌||◌}
use mathlib.Core.List.{List, [], ◌∷◌, ◌++◌}
use mathlib.Core.Logic.{inl, inr}
use native.Mathlib.Omega.{arith}
use lume_tenant_api.Base.Tests.{Bool-cases, Eq, ◌==◌, string_eq, if◌then◌else◌}
use lume_tenant_api.Base.Lists.{every, any, includes, filter}

module _ {ℓ} {A : Type ℓ} ⦃e : Eq A⦄ where
  -- `set.add(x)`.
  unfoldable pub add : List A → A → List A
  add set x = if includes set x then set else set ++ x ∷ []

  -- `for (const x of xs) set.add(x)`.
  unfoldable pub add_all : List A → List A → List A
  unfolding add
  add_all set [] = set
  add_all set (x ∷ xs) = add_all (add set x) xs

  -- `Array.from(new Set(xs))`.
  unfoldable pub distinct : List A → List A
  unfolding add_all
  distinct xs = add_all [] xs

  pub includes-append :
      (xs ys : List A) (a : A) → includes (xs ++ ys) a ≡ (includes xs a || includes ys a)
  includes-append [] ys a = refl
  includes-append (x ∷ xs) ys a = ground (arith, includes-append xs ys a)

  pub includes-filter :
      (p : A → Bool) (xs : List A) (a : A) → includes (filter p xs) a ≡ (includes xs a && p a)
  includes-filter p [] a = refl
  includes-filter p (x ∷ xs) a =
      ground (arith, includes-filter p xs a, e.beq_iff a x, ap {B = Bool} p)

  pub includes-add : (xs : List A) (x a : A) → includes (add xs x) a ≡ (includes xs a || a == x)
  unfolding add
  includes-add xs x a =
      ground
        (arith, includes-append xs (x ∷ []) a, e.beq_iff a x, λ (h : a ≡ x). ap (includes xs) h)

  pub includes-add_all :
      (set xs : List A) (a : A) → includes (add_all set xs) a ≡ (includes set a || includes xs a)
  unfolding add_all
  includes-add_all set [] a = ground arith
  includes-add_all set (x ∷ xs) a =
      ground (arith, includes-add_all (add set x) xs a, includes-add set x a)

  pub includes-distinct : (xs : List A) (a : A) → includes (distinct xs) a ≡ includes xs a
  unfolding distinct
  includes-distinct xs a = includes-add_all [] xs a

-- The default order of `sort()`, on texts.
abbrev text_leb : String → String → Bool
text_leb s t = elim (compare s t) [ Ordering.gt ↦ false | _ ↦ true ]

insert_sorted : String → List String → List String
insert_sorted x [] = x ∷ []
insert_sorted x (y ∷ ys) = if text_leb x y then x ∷ y ∷ ys else y ∷ insert_sorted x ys

unfoldable pub sort_texts : List String → List String
unfolding insert_sorted
sort_texts [] = []
sort_texts (x ∷ xs) = insert_sorted x (sort_texts xs)

includes-insert_sorted :
    (x : String) (xs : List String) (a : String)
    → includes (insert_sorted x xs) a ≡ (a == x || includes xs a)
unfolding insert_sorted
includes-insert_sorted x [] a = refl
includes-insert_sorted x (y ∷ ys) a = ground (arith, includes-insert_sorted x ys a)

pub includes-sort_texts :
    (xs : List String) (a : String) → includes (sort_texts xs) a ≡ includes xs a
unfolding sort_texts
includes-sort_texts [] a = refl
includes-sort_texts (x ∷ xs) a =
    ground (arith, includes-sort_texts xs a, includes-insert_sorted x (sort_texts xs) a)

-- Membership through tests over all elements.
module _ {A : Type 0} ⦃e : Eq A⦄ where
  -- What every element of one array has, an element has.
  pub every-includes :
      (p : A → Bool) (xs : List A) (a : A) → every p xs ≡ true → includes xs a ≡ true → p a ≡ true
  every-includes p [] a h m = absurd (false≢true m)
  every-includes p (x ∷ xs) a h m = elim (Bool-cases (a == x)) [
    | inl same ↦ rw ((e.beq_iff a x).0 same) (ground arith)
    | inr other ↦ every-includes p xs a (ground arith) (ground arith)
  ]

  -- An element with a property is some element with it.
  pub any-includes :
      (p : A → Bool) (xs : List A) (a : A) → includes xs a ≡ true → p a ≡ true → any p xs ≡ true
  any-includes p [] a m h = absurd (false≢true m)
  any-includes p (x ∷ xs) a m h = elim (Bool-cases (a == x)) [
    | inl same ↦ rw (← (e.beq_iff a x).0 same) (rw h)
    | inr other ↦ ground (arith, any-includes p xs a)
  ]

  pub any_elim :
      (p : A → Bool) (xs : List A)
      → any p xs ≡ true
      → (a : A) × (includes xs a ≡ true) × (p a ≡ true)
  any_elim p [] h = absurd (false≢true h)
  any_elim p (x ∷ xs) h = elim (Bool-cases (p x)) [
    | inl here ↦ (x, rw ((e.beq_iff x x).1 refl), here)
    | inr no_here ↦ let (a, m, found) = any_elim p xs (ground arith) in (a, ground arith, found)
  ]

  any-append : (p : A → Bool) (xs ys : List A) → any p (xs ++ ys) ≡ (any p xs || any p ys)
  any-append p [] ys = refl
  any-append p (x ∷ xs) ys = ground (arith, any-append p xs ys)

  any-add : (p : A → Bool) (xs : List A) (x : A) → any p (add xs x) ≡ (any p xs || p x)
  unfolding add
  any-add p xs x = ground (arith, any-append p xs (x ∷ []), any-includes p xs x)

  any-add_all : (p : A → Bool) (set xs : List A) → any p (add_all set xs) ≡ (any p set || any p xs)
  unfolding add_all
  any-add_all p set [] = ground arith
  any-add_all p set (x ∷ xs) = ground (arith, any-add_all p (add set x) xs, any-add p set x)

  -- A test over an array needs each value once.
  pub any-distinct : (p : A → Bool) (xs : List A) → any p (distinct xs) ≡ any p xs
  unfolding distinct
  any-distinct p xs = any-add_all p [] xs
