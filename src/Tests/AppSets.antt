-- ===== src/Tests/AppSets.antt =====
-- pkg/appdir/appset_directory.go: one application set with a generator of directories.
use kubechecks.Common.{
  Bytes, codes, true, false, ◌&&◌, ◌||◌, [], ◌∷◌, none, some, ◌≡◌, refl, lookup, bytes_eq,
  bytes_instance, key-cases, inl, inr, ap, arith,
}
use kubechecks.AppDir.{names_at}
use kubechecks.AppSets.{
  AppSet, AppSetDirectory, new_app_set_directory, process_app_set, remove_app_set, find_app_sets,
}
use kubechecks.AppSets.Undoing.{IsSame, remove_app_set-process_app_set}
use kubechecks.AppSets.Finding.{has_set, is_own, is_defined, is_hit, IsKeyed, has_set-find_app_sets}

abbrev apps : AppSet
apps = record {
  name = codes "s";
  source = record {
    path = codes "a";
    target_revision = [];
    repo_url = [];
    file_parameters = [];
    value_files = codes "v.yaml" ∷ [];
  };
  generators =
      record {
        git = some (record {
          directories =
              record { path = codes "a/*"; exclude = false }
              ∷ record { path = codes "a/b"; exclude = true }
              ∷ [];
          files = [];
        });
        matrix = [];
        merge = [];
      }
      ∷ [];
}

remove_app_set-process_app_set_example :
    IsSame (remove_app_set (process_app_set new_app_set_directory apps) apps).app_set_dirs []
    × IsSame (remove_app_set (process_app_set new_app_set_directory apps) apps).app_set_files []
    × IsSame
        (remove_app_set (process_app_set new_app_set_directory apps) apps).app_set_dir_patterns
        []
    × IsSame
        (remove_app_set (process_app_set new_app_set_directory apps) apps).app_set_file_patterns
        []
    × ((n : Bytes)
        → lookup n (remove_app_set (process_app_set new_app_set_directory apps) apps).app_sets_map
          ≡ lookup {K = Bytes} {V = AppSet} n [])
unfolding new_app_set_directory names_at lookup
remove_app_set-process_app_set_example =
    remove_app_set-process_app_set new_app_set_directory apps refl (λ k. refl) (λ k. refl)
      (λ k. refl) (λ k. refl)

-- The directory that holds the set.
abbrev holding : AppSetDirectory
holding = record {
  app_set_dirs = (codes "a", codes "s" ∷ []) ∷ [];
  app_set_files = [];
  app_sets_map = (codes "s", apps) ∷ [];
  app_set_dir_patterns = (codes "a", codes "s" ∷ []) ∷ [];
  app_set_file_patterns = [];
}

holding-IsKeyed : IsKeyed holding
unfolding lookup
holding-IsKeyed n s h = elim (key-cases (codes "s") n) [
  | inl (same, test) ↦ let found : apps ≡ s = ground arith in cc (ap (λ a. a.name) found, same)
  | inr (differ, test) ↦ absurd (ground arith)
]

has_set-find_app_sets_example :
    has_set (codes "s") (find_app_sets bytes_eq holding (none ∷ []) (codes "/a/f" ∷ [])) ≡ (
      is_own (codes "s") (none ∷ [])
      || (is_hit bytes_eq holding (codes "s") (codes "/a/f" ∷ [])
          && is_defined (codes "s") holding))
has_set-find_app_sets_example =
    has_set-find_app_sets bytes_eq holding (none ∷ []) (codes "/a/f" ∷ []) (codes "s")
      holding-IsKeyed
