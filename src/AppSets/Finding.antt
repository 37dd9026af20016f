-- ===== src/AppSets/Finding.antt =====
-- pkg/appdir/appset_directory.go: the application sets that a change list affects.
use kubechecks.Common.{
  Bytes, codes, Bool, true, false, ◌&&◌, ◌||◌, List, [], ◌∷◌, ◌++◌, Option, none, some, lookup,
  lookup-insert, insert, bytes_eq, bytes_instance, ◌≡◌, refl, arith, ap, subst, key-cases,
  Bool-cases, Option-cases, inl, inr,
}
use kubechecks.RepoUrl.{trim_prefix}
use kubechecks.AppDir.{clean}
use kubechecks.AppDir.Matching.{has_name, in_set}
use kubechecks.AppSets.{
  AppSet, AppSetDirectory, Found, find_own, find_names, find_patterns, any_parent_matches,
  find_changes, find_app_sets,
}

abbrev pub has_set : Bytes → List AppSet → Bool
has_set n [] = false
has_set n (s ∷ ss) = bytes_eq s.name n || has_set n ss

has_set-append :
    (n : Bytes) (xs ys : List AppSet) → has_set n (xs ++ ys) ≡ (has_set n xs || has_set n ys)
has_set-append n [] ys = refl
has_set-append n (x ∷ xs) ys = ground (arith, has_set-append n xs ys)

-- A changed file holds a set of the name.
abbrev pub is_own : Bytes → List (Option AppSet) → Bool
is_own n [] = false
is_own n (none ∷ files) = is_own n files
is_own n (some s ∷ files) = bytes_eq s.name n || is_own n files

abbrev pub is_defined : Bytes → AppSetDirectory → Bool
is_defined n d = elim (lookup n d.app_sets_map) [ none ↦ false | some s ↦ true ]

-- Each set is defined under its name.
abbrev pub IsKeyed : AppSetDirectory → Type 0
IsKeyed d = (n : Bytes) (s : AppSet) → lookup n d.app_sets_map ≡ some s → s.name ≡ n

-- The name stands at a pattern that matches.
abbrev pub is_matched : (Bytes → Bool) → Bytes → List (Bytes × List Bytes) → Bool
is_matched matches n [] = false
is_matched matches n ((p, names) ∷ patterns) =
    matches p && has_name n names || is_matched matches n patterns

-- Whether the name was found, in the set of names and in the list alike.
abbrev Holds : Bytes → Found → Bool → Type 0
Holds n found b = (in_set n found.names ≡ b) × (has_set n found.app_sets ≡ b)

-- One more set, of a name that was not found yet.
abbrev plus : Found → Bytes → AppSet → Found
plus found name s = record {
  names = insert name true found.names;
  app_sets = found.app_sets ++ s ∷ [];
}

plus-Holds :
    (n : Bytes) (found : Found) (name : Bytes) (s : AppSet) (b : Bool)
    → s.name ≡ name
    → Holds n found b
    → Holds n (plus found name s) (b || bytes_eq name n)
plus-Holds n found name s b e h = (
  ground (arith, lookup-insert name n true found.names, h.0),
  ground (arith, has_set-append n found.app_sets (s ∷ []), h.1, ap (λ t. bytes_eq t n) e),
)

-- A name that was found already changes nothing.
known-Holds :
    (n : Bytes) (found : Found) (name : Bytes) (b c : Bool)
    → lookup name found.names ≡ some c
    → Holds n found b
    → Holds n found (b || bytes_eq name n)
known-Holds n found name b c e h = elim (key-cases name n) [
  | inl (same, test) ↦ (
    ground (arith, ap (λ t. lookup t found.names) same, h.0),
    ground (arith, ap (λ t. lookup t found.names) same, h.0, h.1),
  )
  | inr (differ, test) ↦ (ground (arith, h.0), ground (arith, h.1))
]

or_false : (b : Bool) → b ≡ (b || false)
or_false true = refl
or_false false = refl

or_assoc : (b c e : Bool) → ((b || c) || e) ≡ (b || (c || e))
or_assoc true c e = refl
or_assoc false c e = refl

find_own-Holds :
    (n : Bytes) (files : List (Option AppSet)) (found : Found) (b : Bool)
    → Holds n found b
    → Holds n (find_own found files) (b || is_own n files)
unfolding find_own
find_own-Holds n [] found b h = subst (Holds n found) (or_false b) h
find_own-Holds n (none ∷ files) found b h = find_own-Holds n files found b h
find_own-Holds n (some s ∷ files) found b h = elim (Option-cases (lookup s.name found.names)) [
  | inl e ↦
      let later =
        find_own-Holds n files (plus found s.name s) (b || bytes_eq s.name n)
          (plus-Holds n found s.name s b refl h) in
      rw (find_own, e)
        (subst (Holds n (find_own (plus found s.name s) files)) (or_assoc b _ _) later)
  | inr (c, e) ↦
      let later =
        find_own-Holds n files found (b || bytes_eq s.name n)
          (known-Holds n found s.name b c e h) in
      rw (find_own, e) (subst (Holds n (find_own found files)) (or_assoc b _ _) later)
]

-- How a name adds to what is found of another: not at all if it was found or is not defined.
known_again :
    (d : AppSetDirectory) (n name : Bytes) (found : Found) (names : List Bytes) (b c : Bool)
    → lookup name found.names ≡ some c
    → Holds n found b
    → (b || (has_name n names && is_defined n d))
      ≡ (b || (has_name n (name ∷ names) && is_defined n d))
known_again d n name found names b c e h = elim (key-cases name n) [
  | inl (same, test) ↦ ground (arith, ap (λ t. lookup t found.names) same, h.0)
  | inr (differ, test) ↦ ground arith
]

undefined_name :
    (d : AppSetDirectory) (n name : Bytes) (names : List Bytes) (b : Bool)
    → lookup name d.app_sets_map ≡ none
    → (b || (has_name n names && is_defined n d))
      ≡ (b || (has_name n (name ∷ names) && is_defined n d))
undefined_name d n name names b f = elim (key-cases name n) [
  | inl (same, test) ↦ ground (arith, ap (λ t. lookup t d.app_sets_map) same)
  | inr (differ, test) ↦ ground arith
]

defined_name :
    (d : AppSetDirectory) (n name : Bytes) (names : List Bytes) (s : AppSet) (b : Bool)
    → lookup name d.app_sets_map ≡ some s
    → ((b || bytes_eq name n) || (has_name n names && is_defined n d))
      ≡ (b || (has_name n (name ∷ names) && is_defined n d))
defined_name d n name names s b f = elim (key-cases name n) [
  | inl (same, test) ↦ ground (arith, ap (λ t. lookup t d.app_sets_map) same)
  | inr (differ, test) ↦ ground arith
]

find_names-Holds :
    (d : AppSetDirectory) (n : Bytes) (names : List Bytes) (found : Found) (b : Bool)
    → IsKeyed d
    → Holds n found b
    → Holds n (find_names d found names) (b || (has_name n names && is_defined n d))
unfolding find_names
find_names-Holds d n [] found b k h = subst (Holds n found) (or_false b) h
find_names-Holds d n (name ∷ names) found b k h = elim (Option-cases (lookup name found.names)) [
  | inr (c, e) ↦
      rw (find_names, e)
        (subst (Holds n (find_names d found names)) (known_again d n name found names b c e h)
          (find_names-Holds d n names found b k h))
  | inl e ↦ elim (Option-cases (lookup name d.app_sets_map)) [
    | inl f ↦
        rw (find_names, e, f)
          (subst (Holds n (find_names d found names)) (undefined_name d n name names b f)
            (find_names-Holds d n names found b k h))
    | inr (s, f) ↦
        rw (find_names, e, f)
          (subst (Holds n (find_names d (plus found name s) names))
            (defined_name d n name names s b f)
            (find_names-Holds d n names (plus found name s) (b || bytes_eq name n) k
              (plus-Holds n found name s b (k name s f) h)))
  ]
]

or_join : (b x y t : Bool) → ((b || (x && t)) || (y && t)) ≡ (b || ((x || y) && t))
or_join true x y t = refl
or_join false x y true = ground arith
or_join false x y false = ground arith

find_patterns-Holds :
    (matches : Bytes → Bool) (d : AppSetDirectory) (n : Bytes)
    (patterns : List (Bytes × List Bytes)) (found : Found) (b : Bool)
    → IsKeyed d
    → Holds n found b
    → Holds n
        (find_patterns matches d found patterns)
        (b || (is_matched matches n patterns && is_defined n d))
unfolding find_patterns
find_patterns-Holds matches d n [] found b k h = subst (Holds n found) (or_false b) h
find_patterns-Holds matches d n ((p, names) ∷ patterns) found b k h =
    elim (Bool-cases (matches p)) [
      | inl e ↦
          let more = find_names-Holds d n names found b k h in
          let later =
            find_patterns-Holds matches d n patterns (find_names d found names) _ k more in
          rw (find_patterns, e)
            (subst (Holds n (find_patterns matches d (find_names d found names) patterns))
              (or_join b (has_name n names) (is_matched matches n patterns) (is_defined n d)) later)
      | inr e ↦ rw (find_patterns, e) (find_patterns-Holds matches d n patterns found b k h)
    ]

module _ (glob_match : Bytes → Bytes → Bool) where
  -- A changed path lies below a directory that a glob of the name matches, or a glob of its files
  -- matches the path.
  abbrev pub is_hit : AppSetDirectory → Bytes → List Bytes → Bool
  is_hit d n [] = false
  is_hit d n (change ∷ changes) =
      (is_matched (λ p. any_parent_matches glob_match p (clean (trim_prefix change (codes "/")))) n
          d.app_set_dir_patterns
        || is_matched (λ p. glob_match p (clean (trim_prefix change (codes "/")))) n
            d.app_set_file_patterns)
      || is_hit d n changes

  find_changes-Holds :
      (d : AppSetDirectory) (n : Bytes) (changes : List Bytes) (found : Found) (b : Bool)
      → IsKeyed d
      → Holds n found b
      → Holds n
          (find_changes glob_match d found changes)
          (b || (is_hit d n changes && is_defined n d))
  unfolding find_changes
  find_changes-Holds d n [] found b k h = subst (Holds n found) (or_false b) h
  find_changes-Holds d n (change ∷ changes) found b k h =
      let path = clean (trim_prefix change (codes "/")) in
      let by_dir =
        find_patterns-Holds (λ p. any_parent_matches glob_match p path) d n d.app_set_dir_patterns
          found b k h in
      let by_file =
        find_patterns-Holds (λ p. glob_match p path) d n d.app_set_file_patterns _ _ k by_dir in
      let joined = subst (Holds n _) (or_join b _ _ (is_defined n d)) by_file in
      subst (Holds n _) (or_join b _ (is_hit d n changes) (is_defined n d))
        (find_changes-Holds d n changes _ _ k joined)

  -- In a directory that keeps each set under its name, an application set is found exactly if a
  -- changed file holds it, or if it is defined and one of its globs matches a changed path or, for a
  -- glob of directories, a directory above one.
  pub has_set-find_app_sets :
      (d : AppSetDirectory) (own : List (Option AppSet)) (changes : List Bytes) (n : Bytes)
      → IsKeyed d
      → has_set n (find_app_sets glob_match d own changes)
        ≡ (is_own n own || (is_hit d n changes && is_defined n d))
  unfolding find_app_sets lookup
  has_set-find_app_sets d own changes n k =
      (find_changes-Holds d n changes (find_own (record { names = []; app_sets = [] }) own)
        (is_own n own) k
        (find_own-Holds n own (record { names = []; app_sets = [] }) false (refl, refl))).1
