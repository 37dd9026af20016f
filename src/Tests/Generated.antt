-- ===== src/Tests/Generated.antt =====
-- pkg/events/check.go: a set that generates one application now, and another one at the base.
use kubechecks.Common.{
  Bytes, codes, Bool, false, ◌&&◌, ◌||◌, not, [], ◌∷◌, Option, none, some, ◌≡◌, refl, lookup,
  insert, bytes_eq, bytes_instance,
}
use kubechecks.RepoUrl.{trim_prefix}
use kubechecks.AppDir.{
  Application, Source, new_app_directory, add_app, add_sources, add_source, add_dir, add_files,
  get_sources, names_at, find_apps_based_on_change_list, select, should_include, affected,
  match_dirs, add_names, add_name, dir_contains_path, clean, clean_step,
}
use kubechecks.Affected.Triggered.{has_app}
use kubechecks.Events.Generated.{
  Generation, Affected, name_map, removed_names, keep_others, index_apps, add_apps,
  filter_apps_by_change_list, head_findings, base_findings, spec_finding, compute_app_set_spec_diff,
  app_set_spec_diff_for_change, compare_base, generate_set,
}
use kubechecks.Events.Generated.Replaced.{has_app-generate_set}

abbrev source_in : Bytes → Source
source_in dir = record {
  repo_url = [];
  path = dir;
  target_revision = [];
  file_parameters = [];
  value_files = [];
}

abbrev app_in : Bytes → Bytes → Application
app_in n dir = record { name = n; source = some (source_in dir); sources = []; rest = [] }

abbrev get_source : Application → Source
get_source app = elim app.source [ none ↦ source_in [] | some s ↦ s ]

abbrev has_multiple_sources : Application → Bool
has_multiple_sources app = false

-- Every diff fails.
abbrev no_diff : Option Application → Option Application → Option Bytes
no_diff base head = none

abbrev generation : Generation
generation = record {
  set_name = codes "s";
  head = some (app_in (codes "a") (codes "x") ∷ []);
  base = some (app_in (codes "b") (codes "y") ∷ []);
}

abbrev before : Affected
before = record {
  applications = app_in (codes "b") (codes "y") ∷ app_in (codes "c") (codes "z") ∷ [];
  findings = [];
}

abbrev after : Affected
after = record {
  applications = app_in (codes "c") (codes "z") ∷ app_in (codes "a") (codes "x") ∷ [];
  findings = [];
}

has_app-generate_set_example : has_app (codes "b") after.applications ≡ (
    (has_app (codes "b") before.applications
      && not (
          has_app (codes "b") (app_in (codes "a") (codes "x") ∷ [])
          || has_app (codes "b") (app_in (codes "b") (codes "y") ∷ [])))
    || has_app (codes "b") (app_in (codes "a") (codes "x") ∷ []))
unfolding new_app_directory add_app add_sources add_source add_dir add_files get_sources names_at
    find_apps_based_on_change_list select should_include affected match_dirs add_names add_name
    dir_contains_path clean clean_step name_map removed_names keep_others index_apps add_apps
    filter_apps_by_change_list head_findings base_findings spec_finding compute_app_set_spec_diff
    app_set_spec_diff_for_change compare_base generate_set lookup insert bytes_eq trim_prefix
has_app-generate_set_example =
    has_app-generate_set get_source has_multiple_sources no_diff before after generation
      (app_in (codes "a") (codes "x") ∷ []) (app_in (codes "b") (codes "y") ∷ [])
      (app_in (codes "a") (codes "x") ∷ []) (codes "x/f" ∷ []) (codes "main") (codes "b") refl refl
      refl refl
