-- ===== src/AppDir/Touching.antt =====
-- pkg/appdir/app_directory.go: what touches an application goes on to, when its directory grows or
-- is joined with another.
use kubechecks.Common.{
  Bytes, true, ◌&&◌, ◌||◌, List, [], ◌∷◌, ◌++◌, none, some, ◌≡◌, refl, lookup, insert,
  lookup-insert, bytes_eq, bytes_eq_iff, bytes_instance, key-cases, if◌then◌else◌, arith,
  Option-cases, Bool-cases, inl, inr,
}
use kubechecks.AppDir.{
  AppDirectory, names_at, dir_contains_path, add_dir, add_file, merge_maps, merge_lists, union,
}
use kubechecks.AppDir.Matching.{has_name, dir_names, is_touched}

names_at-cons :
    (j k : Bytes) (v : List Bytes) (dirs : List (Bytes × List Bytes))
    → names_at k ((j, v) ∷ dirs) ≡ (if bytes_eq j k then v else names_at k dirs)
unfolding names_at lookup
names_at-cons j k v dirs = ground arith

names_at_nothing : (k : Bytes) → names_at k [] ≡ []
unfolding names_at lookup
names_at_nothing k = refl

has_name-append :
    (n : Bytes) (a b : List Bytes) → has_name n (a ++ b) ≡ (has_name n a || has_name n b)
has_name-append n [] b = refl
has_name-append n (m ∷ a) b = ground (arith, has_name-append n a b)

-- The names at a key that is entered again, with no name less.
module _ (n c k : Bytes) (names : List Bytes) where
  dir_names-insert :
      (dirs : List (Bytes × List Bytes))
      → (has_name n (names_at k dirs) ≡ true → has_name n names ≡ true)
      → dir_names n c dirs ≡ true
      → dir_names n c (insert k names dirs) ≡ true
  unfolding names_at lookup insert
  dir_names-insert [] more h = ground arith
  dir_names-insert ((j, v) ∷ dirs) more h = elim (key-cases j k) [
    | inl (same, hit) ↦ ground (arith, more)
    | inr (differ, missed) ↦
        let less : has_name n (names_at k dirs) ≡ true → has_name n names ≡ true =
          λ e. more (ground (arith, names_at-cons j k v dirs)) in
        ground (arith, dir_names-insert dirs less)
  ]

  dir_names_here :
      (dirs : List (Bytes × List Bytes))
      → has_name n names ≡ true
      → dir_contains_path k c ≡ true
      → dir_names n c (insert k names dirs) ≡ true
  unfolding insert
  dir_names_here [] more h = ground arith
  dir_names_here ((j, v) ∷ dirs) more h =
      ground (arith, bytes_eq_iff j k, dir_names_here dirs more h)

  has_name-insert :
      (m : List (Bytes × List Bytes))
      → (has_name n (names_at k m) ≡ true → has_name n names ≡ true)
      → has_name n (names_at c m) ≡ true
      → has_name n (names_at c (insert k names m)) ≡ true
  unfolding names_at
  has_name-insert m more h = ground (arith, lookup-insert k c names m, bytes_eq_iff k c, more)

  has_name_here :
      (m : List (Bytes × List Bytes))
      → k ≡ c
      → has_name n names ≡ true
      → has_name n (names_at c (insert k names m)) ≡ true
  unfolding names_at
  has_name_here m same h = ground (arith, lookup-insert k c names m, bytes_eq_iff k c)

-- The path touches the application by itself.
abbrev pub Touched : Bytes → Bytes → AppDirectory → Type 0
Touched n c d = is_touched n d (c ∷ []) ≡ true

pub Touched-add_file :
    (n c a p : Bytes) (d : AppDirectory) → Touched n c d → Touched n c (add_file d a p)
unfolding add_file
Touched-add_file n c a p d h =
    let names = names_at p d.app_files in
    ground (
      arith,
      has_name-insert n c p (names ++ a ∷ []) d.app_files
          (λ e. ground (arith, e, has_name-append n names (a ∷ []))),
    )

pub Touched-add_dir :
    (n c a p : Bytes) (d : AppDirectory) → Touched n c d → Touched n c (add_dir d a p)
unfolding add_dir
Touched-add_dir n c a p d h =
    let names = names_at p d.app_dirs in
    ground (
      arith,
      dir_names-insert n c p (names ++ a ∷ []) d.app_dirs
          (λ e. ground (arith, e, has_name-append n names (a ∷ []))),
    )

pub Touched-file : (n c : Bytes) (d : AppDirectory) → Touched n c (add_file d n c)
unfolding add_file names_at
Touched-file n c d =
    let names = names_at c d.app_files in
    ground (
      arith,
      lookup-insert c c (names ++ n ∷ []) d.app_files,
      bytes_eq_iff c c,
      bytes_eq_iff n n,
      has_name-append n names (n ∷ []),
    )

pub Touched-dir :
    (n c p : Bytes) (d : AppDirectory) → dir_contains_path p c ≡ true → Touched n c (add_dir d n p)
unfolding add_dir
Touched-dir n c p d h =
    let names = names_at p d.app_dirs in
    ground (
      arith,
      bytes_eq_iff n n,
      has_name-append n names (n ∷ []),
      dir_names_here n c p (names ++ n ∷ []) d.app_dirs,
    )

-- Both merged maps are kept, names by names.
module _ (n c : Bytes) where
  abbrev combined_at : List (Bytes × List Bytes) → Bytes → List Bytes → List Bytes
  combined_at first k v = elim (lookup k first) [ none ↦ v | some w ↦ merge_lists w v ]

  combined_at-kept :
      (first : List (Bytes × List Bytes)) (k : Bytes) (v : List Bytes)
      → has_name n (names_at k first) ≡ true
      → has_name n (combined_at first k v) ≡ true
  unfolding names_at merge_lists
  combined_at-kept first k v h = elim (Option-cases (lookup k first)) [
    | inl missing ↦ ground arith
    | inr (w, there) ↦ ground (arith, has_name-append n w v)
  ]

  combined_at-brought :
      (first : List (Bytes × List Bytes)) (k : Bytes) (v : List Bytes)
      → has_name n v ≡ true
      → has_name n (combined_at first k v) ≡ true
  unfolding merge_lists
  combined_at-brought first k v h = elim (Option-cases (lookup k first)) [
    | inl missing ↦ ground arith
    | inr (w, there) ↦ ground (arith, has_name-append n w v)
  ]

  dir_names-merge_kept :
      (first second : List (Bytes × List Bytes))
      → dir_names n c first ≡ true
      → dir_names n c (merge_maps merge_lists first second) ≡ true
  unfolding merge_maps
  dir_names-merge_kept first [] h = h
  dir_names-merge_kept first ((k, v) ∷ second) h =
      dir_names-merge_kept (insert k (combined_at first k v) first) second
        (dir_names-insert n c k (combined_at first k v) first (combined_at-kept first k v) h)

  dir_names-merge_brought :
      (first second : List (Bytes × List Bytes))
      → dir_names n c second ≡ true
      → dir_names n c (merge_maps merge_lists first second) ≡ true
  unfolding merge_maps
  dir_names-merge_brought first [] h = absurd (ground arith)
  dir_names-merge_brought first ((k, v) ∷ second) h =
      let names = combined_at first k v in
      elim (Bool-cases (dir_contains_path k c && has_name n v)) [
        | inl here ↦ dir_names-merge_kept (insert k names first) second (
            dir_names_here n c k names first (combined_at-brought first k v (ground arith))
              (ground arith))
        | inr later ↦ dir_names-merge_brought (insert k names first) second (ground arith)
      ]

  has_name-merge_kept :
      (first second : List (Bytes × List Bytes))
      → has_name n (names_at c first) ≡ true
      → has_name n (names_at c (merge_maps merge_lists first second)) ≡ true
  unfolding merge_maps
  has_name-merge_kept first [] h = h
  has_name-merge_kept first ((k, v) ∷ second) h =
      has_name-merge_kept (insert k (combined_at first k v) first) second
        (has_name-insert n c k (combined_at first k v) first (combined_at-kept first k v) h)

  has_name-merge_brought :
      (first second : List (Bytes × List Bytes))
      → has_name n (names_at c second) ≡ true
      → has_name n (names_at c (merge_maps merge_lists first second)) ≡ true
  unfolding merge_maps
  has_name-merge_brought first [] h = absurd (ground (arith, names_at_nothing c))
  has_name-merge_brought first ((k, v) ∷ second) h =
      let names = combined_at first k v in
      elim (key-cases k c) [
        | inl (same, hit) ↦ has_name-merge_kept (insert k names first) second (
            has_name_here n c k names first same
              (combined_at-brought first k v (ground (arith, names_at-cons k c v second))))
        | inr (differ, missed) ↦
            has_name-merge_brought (insert k names first) second
              (ground (arith, names_at-cons k c v second))
      ]

  pub Touched-union : (d e : AppDirectory) → Touched n c e → Touched n c (union d e)
  unfolding union
  Touched-union d e h = ground (
    arith,
    dir_names-merge_brought d.app_dirs e.app_dirs,
    has_name-merge_brought d.app_files e.app_files,
  )
