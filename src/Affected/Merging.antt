-- ===== src/Affected/Merging.antt =====
-- pkg/affected_apps/matcher.go and multi_matcher.go: what the union of the matchers holds.
use kubechecks.Common.{
  ℕ, suc, Bytes, Bool, true, false, List, [], ◌∷◌, ◌++◌, Option, none, some, lookup, lookup-insert,
  bytes_eq, bytes_instance, if◌then◌else◌, inl, inr, ◌⊎◌, ◌≡◌, refl, arith, ap, key-cases,
  Option-cases,
}
use kubechecks.AppDir.{Application}
use kubechecks.Affected.{
  AffectedItems, Failure, request_failed, nil_source, name_set, append_new, merge_items,
  union_items, affected_by_all, no_items,
}

-- What there is, or else the other.
abbrev pub or_else {ℓ} : {A : Type ℓ} → Option A → Option A → Option A
or_else none other = other
or_else (some a) other = some a

module _ {ℓ} {A : Type ℓ} (name_of : A → Bytes) where
  -- The first item of a name.
  abbrev pub find : Bytes → List A → Option A
  find n [] = none
  find n (a ∷ rest) = if bytes_eq (name_of a) n then some a else find n rest

  find-append : (n : Bytes) (xs ys : List A) → find n (xs ++ ys) ≡ or_else (find n xs) (find n ys)
  find-append n [] ys = refl
  find-append n (x ∷ xs) ys = ground (arith, find-append n xs ys)

  abbrev is_found : Option A → Bool
  is_found none = false
  is_found (some a) = true

  abbrev is_set : Option Bool → Bool
  is_set none = false
  is_set (some b) = true

  lookup-name_set :
      (n : Bytes) (xs : List A) → is_set (lookup n (name_set name_of xs)) ≡ is_found (find n xs)
  unfolding name_set lookup
  lookup-name_set n [] = refl
  lookup-name_set n (x ∷ xs) =
      ground (arith, lookup-name_set n xs, lookup-insert (name_of x) n true (name_set name_of xs))

  -- A name that is in the set gets nothing new; any other, the first item behind.
  find-append_new :
      (n : Bytes) (set : List (Bytes × Bool)) (xs kept : List A)
      → find n (append_new name_of set kept xs)
        ≡ (if is_set (lookup n set) then find n kept else or_else (find n kept) (find n xs))
  unfolding append_new
  find-append_new n set [] kept = ground arith
  find-append_new n set (x ∷ xs) kept = elim (key-cases (name_of x) n) [
    | inl (same, test) ↦ elim (Option-cases (lookup (name_of x) set)) [
      | inl e ↦ ground (
        arith,
        find-append_new n set xs (kept ++ x ∷ []),
        find-append n kept (x ∷ []),
        ap (λ k. lookup k set) same,
      )
      | inr (b, e) ↦ ground (arith, find-append_new n set xs kept, ap (λ k. lookup k set) same)
    ]
    | inr (differ, test) ↦ elim (Option-cases (lookup (name_of x) set)) [
      | inl e ↦
          ground (arith, find-append_new n set xs (kept ++ x ∷ []), find-append n kept (x ∷ []))
      | inr (b, e) ↦ ground (arith, find-append_new n set xs kept)
    ]
  ]

  find-merge_items :
      (n : Bytes) (own others : List A)
      → find n (merge_items name_of own others) ≡ or_else (find n own) (find n others)
  unfolding merge_items
  find-merge_items n own others =
      ground (arith, find-append_new n (name_set name_of own) others own, lookup-name_set n own)

-- What the first matchers say of an application, in their order, up to one that fails.
abbrev pub find_in : Bytes → List (Failure ⊎ AffectedItems) → Option Application
find_in n [] = none
find_in n (inl err ∷ rest) = none
find_in n (inr items ∷ rest) = or_else (find (λ a. a.name) n items.applications) (find_in n rest)

-- The first matcher that fails, with its number.
abbrev pub first_failure : ℕ → List (Failure ⊎ AffectedItems) → Option (ℕ × Failure)
first_failure index [] = none
first_failure index (inl err ∷ rest) = some (index, err)
first_failure index (inr items ∷ rest) = first_failure (suc index) rest

-- What all matchers together do, from what each of them does: the panic of the first that fails, or
-- what the ones before it say of an application, with its number if there is one.
abbrev pub said_by_all :
    Option (ℕ × Failure) → Option Application → Option (Option Application × Option ℕ)
said_by_all none app = some (app, none)
said_by_all (some (index, request_failed)) app = some (app, some index)
said_by_all (some (index, nil_source)) app = none

-- What a result holds of an application.
abbrev pub seen : Bytes → Option (AffectedItems × Option ℕ) → Option (Option Application × Option ℕ)
seen n none = none
seen n (some (items, err)) = some (find (λ a. a.name) n items.applications, err)

affected_by_all_from :
    (n : Bytes) (total : AffectedItems) (index : ℕ) (results : List (Failure ⊎ AffectedItems))
    → seen n (affected_by_all total index results)
      ≡ said_by_all
          (first_failure index results)
          (or_else (find (λ a. a.name) n total.applications) (find_in n results))
unfolding affected_by_all union_items
affected_by_all_from n total index [] = ground arith
affected_by_all_from n total index (inl request_failed ∷ rest) = ground arith
affected_by_all_from n total index (inl nil_source ∷ rest) = refl
affected_by_all_from n total index (inr items ∷ rest) = ground (
  arith,
  affected_by_all_from n (union_items total items) (suc index) rest,
  find-merge_items {A = Application} (λ a. a.name) n total.applications items.applications,
)

-- All matchers together: if none fails, they hold of each application what the first matcher that
-- names it says. If the first that fails returns an error, they hold that of the matchers before it
-- and its number is returned; if it panics, so do they.
pub seen-affected_by_all :
    (n : Bytes) (results : List (Failure ⊎ AffectedItems))
    → seen n (affected_by_all no_items 0 results)
      ≡ said_by_all (first_failure 0 results) (find_in n results)
seen-affected_by_all n results = affected_by_all_from n no_items 0 results
