-- ===== src/Base/Tables.antt =====
-- Tables of a database as lists of rows: `UPDATE … WHERE …`, a look-up of a row, and what an update
-- of every row keeps of a table.
use Prim.Native.Nat.{ℕ}
use mathlib.Core.Path.{◌≡◌, refl, ap}
use mathlib.Core.Logic.{◌⊎◌, inl, inr}
use mathlib.Core.Bool.{Bool, true, false, not}
use mathlib.Core.Option.{Option, none, some}
use mathlib.Core.List.{List, [], ◌∷◌, ◌++◌, map}
use lume_tenant_api.Base.Tests.{if◌then◌else◌, Bool-cases}
use lume_tenant_api.Base.Lists.{In, filter, length, any}
use native.Mathlib.Omega.{arith}

module _ {A : Type 0} where
  abbrev pub update_where : (A → Bool) → (A → A) → List A → List A
  update_where test f rows = map (λ row. if test row then f row else row) rows

  abbrev pub count_where : (A → Bool) → List A → ℕ
  count_where test rows = length (filter test rows)

  -- `findFirst`.
  unfoldable pub find_where : (A → Bool) → List A → Option A
  find_where test [] = none
  find_where test (row ∷ rows) = if test row then some row else find_where test rows

  -- `LIMIT n`.
  unfoldable pub limit : ℕ → List A → List A
  limit Prim.Native.Nat.zero rows = []
  limit (Prim.Native.Nat.suc n) [] = []
  limit (Prim.Native.Nat.suc n) (row ∷ rows) = row ∷ limit n rows

-- Which rows a result has.
module _ {A : Type 0} where
  pub In-map :
      {B : Type 0} (f : A → B) (rows : List A) (y : B)
      → In y (map f rows)
      → (x : A) × In x rows × (y ≡ f x)
  In-map f [] y h = elim h [ ]
  In-map f (row ∷ rows) y (inl e) = (row, inl refl, e)
  In-map f (row ∷ rows) y (inr h) = let (x, member, e) = In-map f rows y h in (x, inr member, e)

  pub map-In : {B : Type 0} (f : A → B) (rows : List A) (x : A) → In x rows → In (f x) (map f rows)
  map-In f [] x h = elim h [ ]
  map-In f (row ∷ rows) x (inl e) = inl (ap f e)
  map-In f (row ∷ rows) x (inr h) = inr (map-In f rows x h)

  pub In-filter :
      (test : A → Bool) (rows : List A) (x : A)
      → In x (filter test rows)
      → In x rows × (test x ≡ true)
  In-filter test [] x h = elim h [ ]
  In-filter test (row ∷ rows) x h = elim (Bool-cases (test row)) [
    | inl holds ↦ In-filter_kept test row rows x holds (In-filter test rows x) (rw holds at h)
    | inr fails ↦
        let (member, passes) = In-filter test rows x (rw fails at h) in (inr member, passes)
  ]
    where
      In-filter_kept :
          (test : A → Bool) (row : A) (rows : List A) (x : A)
          → test row ≡ true
          → (In x (filter test rows) → In x rows × (test x ≡ true))
          → In x (row ∷ filter test rows)
          → In x (row ∷ rows) × (test x ≡ true)
      In-filter_kept test row rows x holds later (inl e) = (inl e, rw e holds)
      In-filter_kept test row rows x holds later (inr h) =
          let (member, passes) = later h in (inr member, passes)

  pub filter-In :
      (test : A → Bool) (rows : List A) (x : A)
      → In x rows
      → test x ≡ true
      → In x (filter test rows)
  filter-In test [] x h passes = elim h [ ]
  filter-In test (row ∷ rows) x h passes = elim (Bool-cases (test row)) [
    | inl holds ↦
        rw holds (elim h [ inl e ↦ inl e | inr later ↦ inr (filter-In test rows x later passes) ])
    | inr fails ↦ rw fails (elim h [
      | inl e ↦ absurd (let same : test row ≡ true = rw e at passes in cc)
      | inr later ↦ filter-In test rows x later passes
    ])
  ]

  pub In-limit : (n : ℕ) (rows : List A) (x : A) → In x (limit n rows) → In x rows
  unfolding limit
  In-limit Prim.Native.Nat.zero rows x h = elim h [ ]
  In-limit (Prim.Native.Nat.suc n) [] x h = elim h [ ]
  In-limit (Prim.Native.Nat.suc n) (row ∷ rows) x (inl e) = inl e
  In-limit (Prim.Native.Nat.suc n) (row ∷ rows) x (inr h) = inr (In-limit n rows x h)

  pub In-append : (xs ys : List A) (x : A) → In x (xs ++ ys) → In x xs ⊎ In x ys
  In-append [] ys x h = inr h
  In-append (row ∷ rows) ys x (inl e) = inl (inl e)
  In-append (row ∷ rows) ys x (inr h) = elim (In-append rows ys x h) [
    | inl left ↦ inl (inr left)
    | inr right ↦ inr right
  ]

  pub append-In : (xs ys : List A) (x : A) → In x xs → In x (xs ++ ys)
  append-In [] ys x h = elim h [ ]
  append-In (row ∷ rows) ys x (inl e) = inl e
  append-In (row ∷ rows) ys x (inr h) = inr (append-In rows ys x h)

  pub any-In-false :
      (test : A → Bool) (rows : List A) (x : A) → any test rows ≡ false → In x rows → test x ≡ false
  any-In-false test [] x no_row h = elim h [ ]
  any-In-false test (row ∷ rows) x no_row (inl e) = rw e (ground arith)
  any-In-false test (row ∷ rows) x no_row (inr h) = any-In-false test rows x (ground arith) h

  pub find_where-eq-some :
      (test : A → Bool) (rows : List A) (x : A)
      → find_where test rows ≡ some x
      → In x rows × (test x ≡ true)
  unfolding find_where
  find_where-eq-some test [] x h = cc
  find_where-eq-some test (row ∷ rows) x h = elim (Bool-cases (test row)) [
    | inl holds ↦
        let e : some row ≡ some x = rw holds at h in
        let same : x ≡ row = cc in (inl same, rw same holds)
    | inr fails ↦
        let (member, passes) = find_where-eq-some test rows x (rw fails at h) in
        (inr member, passes)
  ]

  -- The first row that an update leaves under a test is the first row before, changed, where the
  -- update keeps the test.
  pub find_where-update_where :
      (test hit : A → Bool) (change : A → A) (rows : List A) (x : A)
      → ((row : A) → test (change row) ≡ test row)
      → hit x ≡ true
      → find_where test rows ≡ some x
      → find_where test (update_where hit change rows) ≡ some (change x)
  unfolding find_where
  find_where-update_where test hit change [] x keeps holds h = cc
  find_where-update_where test hit change (row ∷ rows) x keeps holds h =
      elim (Bool-cases (test row)) [
        | inl found ↦
            let e : some row ≡ some x = rw found at h in
            let same : row ≡ x = cc in
            let kept = keeps x in
            let holds_too : test x ≡ true = rw same at found in
            rw (same, holds, kept, holds_too) refl
        | inr other ↦
            let later : find_where test rows ≡ some x = rw other at h in
            let next = find_where-update_where test hit change rows x keeps holds later in
            elim (Bool-cases (hit row)) [
              | inl touched ↦ let kept = keeps row in rw (touched, kept, other) next
              | inr passed ↦ rw (passed, other) next
            ]
      ]

  -- The rows that fail a test are left alone by an update of rows that pass it.
  pub filter-update_where :
      (test hit : A → Bool) (change : A → A) (rows : List A)
      → ((row : A) → test (change row) ≡ test row)
      → ((row : A) → hit row ≡ true → test row ≡ true)
      → filter (λ row. not (test row)) (update_where hit change rows)
        ≡ filter (λ row. not (test row)) rows
  filter-update_where test hit change [] keeps inside = refl
  filter-update_where test hit change (row ∷ rows) keeps inside =
      let next = filter-update_where test hit change rows keeps inside in
      elim (Bool-cases (hit row)) [
        | inl touched ↦
            let kept = keeps row in
            let passes = inside row touched in rw (touched, kept, passes) next
        | inr passed ↦ elim (Bool-cases (test row)) [
          | inl passes ↦ rw (passed, passes) next
          | inr fails ↦ rw (passed, fails) (ap (λ rest. row ∷ rest) next)
        ]
      ]

  -- A row after an update is a row that was hit, changed, or a row that was not.
  pub In-update_where :
      (hit : A → Bool) (change : A → A) (rows : List A) (y : A)
      → In y (update_where hit change rows)
      → (x : A) × In x rows × (((hit x ≡ true) × (y ≡ change x)) ⊎ ((hit x ≡ false) × (y ≡ x)))
  In-update_where hit change rows y h =
      let (x, member, e) = In-map (λ row. if hit row then change row else row) rows y h in
      (
        x,
        member,
        elim (Bool-cases (hit x)) [
          | inl holds ↦ inl (holds, rw holds at e)
          | inr fails ↦ inr (fails, rw fails at e)
        ],
      )

  pub find_where-append :
      (test : A → Bool) (rows more : List A) (x : A)
      → find_where test rows ≡ some x
      → find_where test (rows ++ more) ≡ some x
  unfolding find_where
  find_where-append test [] more x h = cc
  find_where-append test (row ∷ rows) more x h = elim (Bool-cases (test row)) [
    | inl holds ↦ rw holds (rw holds at h)
    | inr fails ↦ rw fails (find_where-append test rows more x (rw fails at h))
  ]

  pub find_where-eq-none :
      (test : A → Bool) (rows : List A)
      → ((row : A) → In row rows → test row ≡ false)
      → find_where test rows ≡ none
  unfolding find_where
  find_where-eq-none test [] misses = refl
  find_where-eq-none test (row ∷ rows) misses =
      rw (misses row (inl refl))
        (find_where-eq-none test rows (λ later member. misses later (inr member)))

  -- An update that keeps a test keeps the place of the first row that passes it.
  pub find_where-update_any :
      (test hit : A → Bool) (change : A → A) (rows : List A) (x : A)
      → ((row : A) → test (change row) ≡ test row)
      → find_where test rows ≡ some x
      → find_where test (update_where hit change rows) ≡ some (if hit x then change x else x)
  unfolding find_where
  find_where-update_any test hit change [] x keeps h = cc
  find_where-update_any test hit change (row ∷ rows) x keeps h =
      let next = find_where-update_any test hit change rows x keeps in
      let kept = keeps row in
      elim (Bool-cases (test row)) [
        | inl found ↦
            let e : some row ≡ some x = rw found at h in
            let same : x ≡ row = cc in
            elim (Bool-cases (hit row)) [
              | inl touched ↦ rw (same, touched, kept, found) refl
              | inr passed ↦ rw (same, passed, found) refl
            ]
        | inr other ↦ elim (Bool-cases (hit row)) [
          | inl touched ↦ rw (touched, kept, other) (next (rw other at h))
          | inr passed ↦ rw (passed, other) (next (rw other at h))
        ]
      ]

  pub find_where-last :
      (test : A → Bool) (rows : List A) (x : A)
      → find_where test rows ≡ none
      → test x ≡ true
      → find_where test (rows ++ x ∷ []) ≡ some x
  unfolding find_where
  find_where-last test [] x h holds = rw holds refl
  find_where-last test (row ∷ rows) x h holds = elim (Bool-cases (test row)) [
    | inl found ↦ let e : some row ≡ none = rw found at h in cc
    | inr other ↦ rw other (find_where-last test rows x (rw other at h) holds)
  ]

  -- Where no row passes a test, an added row is the only one that passes a stronger test.
  pub count_where-last :
      (test stronger : A → Bool) (rows : List A) (x : A)
      → find_where test rows ≡ none
      → ((row : A) → stronger row ≡ true → test row ≡ true)
      → stronger x ≡ true
      → count_where stronger (rows ++ x ∷ []) ≡ 1
  unfolding find_where
  count_where-last test stronger [] x h implied holds = rw holds refl
  count_where-last test stronger (row ∷ rows) x h implied holds = elim (Bool-cases (test row)) [
    | inl found ↦ let e : some row ≡ none = rw found at h in cc
    | inr other ↦
        let fails : stronger row ≡ false = ground (arith, implied row) in
        rw fails (count_where-last test stronger rows x (rw other at h) implied holds)
  ]

  -- A row that passes a test, and is the only one, is the one that is found.
  pub find_where-only :
      (test : A → Bool) (rows : List A) (x : A)
      → In x rows
      → test x ≡ true
      → ((row : A) → In row rows → test row ≡ true → row ≡ x)
      → find_where test rows ≡ some x
  unfolding find_where
  find_where-only test [] x member holds only = elim member [ ]
  find_where-only test (row ∷ rows) x member holds only = elim (Bool-cases (test row)) [
    | inl found ↦ rw found (ap some (only row (inl refl) found))
    | inr other ↦ elim member [
      | inl e ↦ absurd (let fails : test x ≡ false = rw e other in cc)
      | inr later ↦
          rw other (find_where-only test rows x later holds (λ next inside. only next (inr inside)))
    ]
  ]
