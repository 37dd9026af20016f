-- ===== src/AppDir/Matching.antt =====
-- pkg/appdir/app_directory.go: the applications that a change list affects.
use kubechecks.Common.{
  Bytes, Bool, true, false, ◌&&◌, ◌||◌, List, [], ◌∷◌, none, some, ◌≡◌, refl, lookup, lookup-insert,
  bytes_eq, bytes_eq_iff, bytes_instance, arith, Bool-cases, inl, inr,
}
use kubechecks.AppDir.{
  AppDirectory, names_at, dir_contains_path, add_name, add_names, match_dirs, affected,
}

abbrev pub has_name : Bytes → List Bytes → Bool
has_name n [] = false
has_name n (m ∷ ms) = bytes_eq m n || has_name n ms

-- The name stands at a directory that contains the path.
abbrev pub dir_names : Bytes → Bytes → List (Bytes × List Bytes) → Bool
dir_names n change [] = false
dir_names n change ((dir, names) ∷ dirs) =
    dir_contains_path dir change && has_name n names || dir_names n change dirs

-- Some changed path lies in a directory of the application, or is one of its files.
abbrev pub is_touched : Bytes → AppDirectory → List Bytes → Bool
is_touched n d [] = false
is_touched n d (change ∷ changes) =
    dir_names n change d.app_dirs
    || has_name n (names_at change d.app_files)
    || is_touched n d changes

abbrev pub in_set : Bytes → List (Bytes × Bool) → Bool
in_set n set = elim (lookup n set) [ none ↦ false | some b ↦ true ]

in_set-add_name :
    (n m : Bytes) (set : List (Bytes × Bool))
    → in_set n (add_name m set) ≡ (bytes_eq m n || in_set n set)
unfolding add_name
in_set-add_name n m set = ground (arith, lookup-insert m n true set, bytes_eq_iff m n)

in_set-add_names :
    (n : Bytes) (names : List Bytes) (set : List (Bytes × Bool))
    → in_set n (add_names names set) ≡ (has_name n names || in_set n set)
unfolding add_names
in_set-add_names n [] set = refl
in_set-add_names n (m ∷ ms) set =
    ground (arith, in_set-add_names n ms (add_name m set), in_set-add_name n m set)

in_set-match_dirs :
    (n change : Bytes) (dirs : List (Bytes × List Bytes)) (set : List (Bytes × Bool))
    → in_set n (match_dirs change dirs set) ≡ (dir_names n change dirs || in_set n set)
unfolding match_dirs
in_set-match_dirs n change [] set = refl
in_set-match_dirs n change ((dir, names) ∷ dirs) set =
    elim (Bool-cases (dir_contains_path dir change)) [
      | inl h ↦ ground (
        arith,
        in_set-match_dirs n change dirs (add_names names set),
        in_set-add_names n names set,
      )
      | inr h ↦ ground (arith, in_set-match_dirs n change dirs set)
    ]

-- The applications that a list of changes affects are the ones that were in the set, and those with
-- a changed path in one of their directories or equal to one of their files.
pub in_set-affected :
    (n : Bytes) (d : AppDirectory) (changes : List Bytes) (set : List (Bytes × Bool))
    → in_set n (affected d changes set) ≡ (is_touched n d changes || in_set n set)
unfolding affected
in_set-affected n d [] set = refl
in_set-affected n d (change ∷ changes) set =
    let matched = match_dirs change d.app_dirs set in
    let names = names_at change d.app_files in
    ground (
      arith,
      in_set-affected n d changes (add_names names matched),
      in_set-add_names n names matched,
      in_set-match_dirs n change d.app_dirs set,
    )
