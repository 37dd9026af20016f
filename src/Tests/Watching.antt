-- ===== src/Tests/Watching.antt =====
-- pkg/app_watcher: an application that moves from one repository to another.
use kubechecks.Common.{
  Bytes, codes, Bool, true, false, not, is_empty, [], ◌∷◌, Option, none, some, ◌≡◌, refl, arith,
  lookup, bytes_instance, if◌then◌else◌,
}
use kubechecks.RepoUrl.{Url, RepoUrl}
use kubechecks.AppDir.{Source, Application, new_app_directory, get_sources}
use kubechecks.VcsMap.{VcsToArgoMap, repo_instance, directory_of, all_sources}
use kubechecks.VcsMap.Sources.{in_repo}
use kubechecks.VcsMap.Moving.{known_as}
use kubechecks.VcsMap.Watching.{
  is_git_repo, any_git_repo, can_process_app, on_application_deleted, watch,
}
use kubechecks.VcsMap.Following.{standing}
use kubechecks.VcsMap.Tracking.{known_as-watch}

ground_no : false ≡ true → ⊥
ground_no h = ground arith

abbrev parse : Bytes → Option Url
parse url = some (record { host = codes "github.com"; path = url; query = [] })

abbrev source_in : Bytes → Source
source_in url = record {
  repo_url = url;
  path = codes "d";
  target_revision = [];
  file_parameters = [];
  value_files = [];
}

abbrev app_in : Bytes → Application
app_in url = record { name = codes "x"; source = some (source_in url); sources = []; rest = [] }

abbrev old_url : Bytes
old_url = codes "https://github.com/o/a"

abbrev new_url : Bytes
new_url = codes "https://github.com/o/b"

abbrev source_of : Application → Source
source_of app = elim app.source [ none ↦ source_in [] | some s ↦ s ]

abbrev several : Application → Bool
several app = not (is_empty app.sources)

abbrev no_apps : VcsToArgoMap
no_apps = record { username = []; app_dir_by_repo = []; app_set_dir_by_repo = [] }

-- Any two sources are taken as different.
abbrev differ {ℓ} : {A : Type ℓ} → A → A → Bool
differ a b = false

abbrev repo_b : RepoUrl
repo_b = record { host = codes "github.com"; path = new_url }

known_as-watch_example :
    (v' : VcsToArgoMap) × (w : VcsToArgoMap) × (watch parse parse source_of several differ differ
        no_apps
        (app_in old_url)
        (app_in new_url ∷ [])
      ≡ some v')
    × (on_application_deleted parse parse source_of several differ differ v' (some (app_in new_url))
        ≡ some w)
    × (known_as parse parse source_of several (codes "x") v' repo_b ≡ (
        if in_repo parse parse repo_b (all_sources (app_in new_url))
        then some (
            standing parse parse source_of several differ differ
              (app_in old_url)
              (app_in old_url)
              (app_in new_url ∷ []))
        else none))
    × (known_as parse parse source_of several (codes "x") w repo_b ≡ none)
unfolding get_sources can_process_app any_git_repo is_git_repo all_sources directory_of lookup
    new_app_directory
known_as-watch_example =
    known_as-watch parse parse source_of several differ differ (codes "x") no_apps (app_in old_url)
      (app_in new_url ∷ []) repo_b ((refl, refl), ((refl, refl), tt)) (λ a. refl)
      (λ a b h. absurd (ground_no h)) (λ a b h. absurd (ground_no h)) (λ r. refl)
