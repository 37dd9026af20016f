-- ===== src/Tests/Apps.antt =====
-- pkg/appdir/app_directory.go: an application of two directories.
use kubechecks.Common.{
  ◌-◌, ◌&&◌, codes, [], ◌∷◌, ◌||◌, ◌≡◌, lookup, bytes_eq, bytes_instance, Bool, true, false, none,
  if◌then◌else◌, Bytes,
}
use kubechecks.AppDir.{
  AppDirectory, affected, Application, Source, names_at, add_sources, remove_app,
}
use kubechecks.AppDir.Matching.{in_set, is_touched, in_set-affected}
use kubechecks.AppDir.Removing.{count_name, names_at-remove_app}

abbrev directory : AppDirectory
directory = record {
  app_dirs = (codes "a", codes "x" ∷ []) ∷ ((codes "b", codes "x" ∷ []) ∷ []);
  app_files = (codes "v.yaml", codes "y" ∷ []) ∷ [];
  apps_map = [];
}

in_set-affected_example :
    in_set (codes "x") (affected directory (codes "b/values.yaml" ∷ []) [])
    ≡ (is_touched (codes "x") directory (codes "b/values.yaml" ∷ []) || in_set (codes "x") [])
in_set-affected_example = in_set-affected (codes "x") directory (codes "b/values.yaml" ∷ []) []

abbrev source_at : Bytes → Source
source_at p = record {
  repo_url = [];
  path = p;
  target_revision = [];
  file_parameters = [];
  value_files = [];
}

abbrev new_app : Application
new_app = record {
  name = codes "z";
  source = none;
  sources = source_at (codes "a") ∷ (source_at (codes "q") ∷ []);
  rest = [];
}

abbrev first_source : Application → Source
first_source app = elim app.sources [ [] ↦ source_at [] | src ∷ srcs ↦ src ]

abbrev has_several : Application → Bool
has_several app = elim app.sources [ [] ↦ false | src ∷ srcs ↦ true ]

abbrev added : AppDirectory
added = add_sources directory new_app new_app.sources

names_at-remove_app_example :
    (lookup (codes "z") (remove_app first_source has_several added new_app).apps_map ≡ none)
    × (count_name
          (codes "z")
          (names_at (codes "q") (remove_app first_source has_several added new_app).app_dirs)
        ≡ (if bytes_eq (first_source new_app).path (codes "q") && bytes_eq (codes "z") (codes "z")
            then count_name (codes "z") (names_at (codes "q") added.app_dirs) - 1
            else count_name (codes "z") (names_at (codes "q") added.app_dirs)))
names_at-remove_app_example =
    names_at-remove_app first_source has_several added new_app (codes "q") (codes "z")
