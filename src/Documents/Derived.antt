-- ===== src/Documents/Derived.antt =====
-- What the derived status of a request says of its items.
use lume_tenant_api.Base.{
  Bool, true, false, not, ◌&&◌, ◌≡◌, ◌↔◌, ◌⊎◌, inl, inr, refl, sym, ◌∙◌, arith, List, [], ◌∷◌,
  filter, every, any, is_empty, In, Bool-cases, ap,
}
use lume_tenant_api.Documents.Workflow.{
  DocumentItemStatus, DocumentRequestStatus, DocumentItem, is_status, is_relevant, is_dropped,
  is_settled, deciding_items, status_of_source, derive_document_request_status,
}

module _ {A : Type 0} where
  -- No test on the elements tells the lists apart.
  abbrev AnySame : List A → List A → Type 0
  AnySame xs ys = (p : A → Bool) → any p xs ≡ any p ys

  any_element : (p : A → Bool) (xs : List A) → any p xs ≡ true → (x : A) × In x xs × (p x ≡ true)
  any_element p [] h = absurd (ground arith)
  any_element p (x ∷ xs) h = elim (Bool-cases (p x)) [
    | inl here ↦ (x, inl refl, here)
    | inr elsewhere ↦
        let (y, member, holds) = any_element p xs (ground arith) in (y, inr member, holds)
  ]

  any-In : (p : A → Bool) (xs : List A) (x : A) → In x xs → p x ≡ true → any p xs ≡ true
  any-In p [] x member h = elim member [ ]
  any-In p (y ∷ ys) x (inl e) h = rw (sym e, h)
  any-In p (y ∷ ys) x (inr member) h = rw (any-In p ys x member h) (ground arith)

  any_transfer :
      (p : A → Bool) (xs ys : List A)
      → ((x : A) → In x xs → In x ys)
      → any p xs ≡ true
      → any p ys ≡ true
  any_transfer p xs ys within h =
      let (x, member, holds) = any_element p xs h in any-In p ys x (within x member) holds

  In-AnySame : (xs ys : List A) → ((x : A) → In x xs ↔ In x ys) → AnySame xs ys
  In-AnySame xs ys same p = ground (
    arith,
    any_transfer p xs ys (λ x. (same x).0),
    any_transfer p ys xs (λ x. (same x).1),
    Bool-cases (any p xs),
    Bool-cases (any p ys),
  )

  any-filter : (p q : A → Bool) (xs : List A) → any p (filter q xs) ≡ any (λ x. q x && p x) xs
  any-filter p q [] = refl
  any-filter p q (x ∷ xs) = ground (arith, any-filter p q xs)

  filter-AnySame :
      (q : A → Bool) (xs ys : List A) → AnySame xs ys → AnySame (filter q xs) (filter q ys)
  filter-AnySame q xs ys same p =
      any-filter p q xs ∙ same (λ x. q x && p x) ∙ sym (any-filter p q ys)

  is_empty-any : (xs : List A) → is_empty xs ≡ not (any (λ x. true) xs)
  is_empty-any [] = refl
  is_empty-any (x ∷ xs) = refl

  every-any : (p : A → Bool) (xs : List A) → every p xs ≡ not (any (λ x. not (p x)) xs)
  every-any p [] = refl
  every-any p (x ∷ xs) = ground (arith, every-any p xs)

  is_empty-AnySame : (xs ys : List A) → AnySame xs ys → is_empty xs ≡ is_empty ys
  is_empty-AnySame xs ys same = is_empty-any xs ∙ ap not (same (λ x. true)) ∙ sym (is_empty-any ys)

  every-AnySame : (xs ys : List A) (p : A → Bool) → AnySame xs ys → every p xs ≡ every p ys
  every-AnySame xs ys p same =
      every-any p xs ∙ ap not (same (λ x. not (p x))) ∙ sym (every-any p ys)

deciding_items-AnySame :
    (xs ys : List DocumentItem) → AnySame xs ys → AnySame (deciding_items xs) (deciding_items ys)
unfolding deciding_items
deciding_items-AnySame xs ys same p =
    let relevant = filter-AnySame is_relevant xs ys same in
    let empty = is_empty-AnySame (filter is_relevant xs) (filter is_relevant ys) relevant in
    elim (Bool-cases (is_empty (filter is_relevant ys))) [
      | inl none_left ↦ rw (empty, none_left, same p) refl
      | inr some_left ↦ rw (empty, some_left, relevant p) refl
    ]

status_of_source-AnySame :
    (xs ys : List DocumentItem) → AnySame xs ys → status_of_source xs ≡ status_of_source ys
unfolding status_of_source
status_of_source-AnySame xs ys same = rw (
  is_empty-AnySame xs ys same,
  every-AnySame xs ys is_dropped same,
  every-AnySame xs ys (is_status DocumentItemStatus.cancelled) same,
  same (is_status DocumentItemStatus.resubmission_required),
  same (is_status DocumentItemStatus.rejected),
  same (is_status DocumentItemStatus.expired),
  every-AnySame xs ys is_settled same,
  same (is_status DocumentItemStatus.pending_human_review),
  same (is_status DocumentItemStatus.automatic_validation),
  every-AnySame xs ys (is_status DocumentItemStatus.submitted) same,
  same (λ item. not (is_status DocumentItemStatus.pending_upload item)),
)

-- The status of a request depends only on which items it has: neither their order nor how often an
-- item with the same status and requirement occurs changes it.
pub derive_document_request_status-same :
    (xs ys : List DocumentItem)
    → ((item : DocumentItem) → In item xs ↔ In item ys)
    → derive_document_request_status xs ≡ derive_document_request_status ys
unfolding derive_document_request_status
derive_document_request_status-same xs ys same =
    status_of_source-AnySame (deciding_items xs) (deciding_items ys)
      (deciding_items-AnySame xs ys (In-AnySame xs ys same))

settled_excludes :
    (source : List DocumentItem)
    → every is_settled source ≡ true
    → (any (is_status DocumentItemStatus.resubmission_required) source ≡ false)
      × (any (is_status DocumentItemStatus.rejected) source ≡ false)
      × (any (is_status DocumentItemStatus.expired) source ≡ false)
settled_excludes [] h = (refl, refl, refl)
settled_excludes (item ∷ rest) h = ground (arith, settled_excludes rest)

settled_not_cancelled :
    (source : List DocumentItem)
    → is_empty source ≡ false
    → every is_settled source ≡ true
    → every (is_status DocumentItemStatus.cancelled) source ≡ false
settled_not_cancelled [] some_item h = ground arith
settled_not_cancelled (item ∷ rest) some_item h = ground arith

-- A request counts as approved exactly when it has items that decide, and each is approved or
-- waived, or each is waived or cancelled but not all are cancelled.
pub derive_approved_iff :
    (items : List DocumentItem)
    → (derive_document_request_status items ≡ DocumentRequestStatus.approved) ↔ (
        (is_empty (deciding_items items) ≡ false)
        × ((every is_settled (deciding_items items) ≡ true)
            ⊎ ((every is_dropped (deciding_items items) ≡ true)
                × (every (is_status DocumentItemStatus.cancelled) (deciding_items items) ≡ false))))
unfolding derive_document_request_status status_of_source
derive_approved_iff items =
    let source = deciding_items items in
    ground (arith, settled_excludes source, settled_not_cancelled source)
