-- ===== src/VcsMap.antt =====
-- pkg/appdir/vcstoargomap.go: the directories of all repositories. The map holds pointers, so what
-- is done to the directory of a repository is done to its entry. `none` is a panic.
pub mod Sources
pub mod Moving
pub mod Watching
pub mod Steps
pub mod Following
pub mod Tracking
pub mod Matcher
use kubechecks.Common.{
  ℕ, Bytes, codes, Bool, true, false, ◌&&◌, List, [], ◌∷◌, ◌++◌, Option, none, some, Eq, lookup,
  insert, bytes_eq, bytes_eq_iff, is_empty, if◌then◌else◌, ◌≡◌, ◌↔◌, arith,
}
use kubechecks.RepoUrl.{Url, RepoUrl, clone_url, canonicalize}
use kubechecks.AppDir.{
  Source, Application, AppDirectory, new_app_directory, add_app, remove_app, add_file, add_dir,
  join_two,
}
use kubechecks.AppSets.{
  AppSet, AppSetDirectory, new_app_set_directory, process_app_set, remove_app_set,
}
use kubechecks.Kustomize.{
  FileSystem, Outcome, found, failed, out_of_fuel, process_kustomization_file,
}

unfoldable pub repo_eq : RepoUrl → RepoUrl → Bool
repo_eq a b = bytes_eq a.host b.host && bytes_eq a.path b.path

pub repo_eq_iff : (a b : RepoUrl) → (repo_eq a b ≡ true) ↔ (a ≡ b)
unfolding repo_eq
repo_eq_iff a b = ground (arith, bytes_eq_iff a.host b.host, bytes_eq_iff a.path b.path)

instance abbrev pub repo_instance : Eq RepoUrl
repo_instance = record { beq = repo_eq; beq_iff = repo_eq_iff }

pub record VcsToArgoMap : Type 0 where
  pub username : Bytes
  pub app_dir_by_repo : List (RepoUrl × AppDirectory)
  pub app_set_dir_by_repo : List (RepoUrl × AppSetDirectory)

unfoldable pub new_vcs_to_argo_map : Bytes → VcsToArgoMap
new_vcs_to_argo_map user = record {
  username = user;
  app_dir_by_repo = [];
  app_set_dir_by_repo = [];
}

-- The directory of a repository, new if the map has none.
unfoldable pub directory_of : VcsToArgoMap → RepoUrl → AppDirectory
unfolding new_app_directory
directory_of v repo = elim (lookup repo v.app_dir_by_repo) [ none ↦ new_app_directory | some d ↦ d ]

unfoldable pub set_directory_of : VcsToArgoMap → RepoUrl → AppSetDirectory
unfolding new_app_set_directory
set_directory_of v repo = elim (lookup repo v.app_set_dir_by_repo) [
  | none ↦ new_app_set_directory
  | some d ↦ d
]

unfoldable pub store : VcsToArgoMap → RepoUrl → AppDirectory → VcsToArgoMap
store v repo d = record v { app_dir_by_repo = insert repo d v.app_dir_by_repo }

unfoldable pub store_set : VcsToArgoMap → RepoUrl → AppSetDirectory → VcsToArgoMap
store_set v repo d = record v { app_set_dir_by_repo = insert repo d v.app_set_dir_by_repo }

-- `Spec.Source`, if there is one, and `Spec.Sources`.
unfoldable pub all_sources : Application → List Source
all_sources app = elim app.source [ none ↦ app.sources | some src ↦ src ∷ app.sources ]

-- `key.CloneURL(v2a.username)` of the keys of a map
unfoldable pub clone_urls {ℓ} : {A : Type ℓ} → Bytes → List (RepoUrl × A) → List Bytes
unfolding clone_url
clone_urls user [] = []
clone_urls user ((repo, d) ∷ m) = clone_url repo user ∷ clone_urls user m

unfoldable pub get_vcs_repos : VcsToArgoMap → List Bytes
unfolding clone_urls
get_vcs_repos v =
    clone_urls v.username v.app_dir_by_repo ++ clone_urls v.username v.app_set_dir_by_repo

unfoldable pub add_all :
    (AppDirectory → Bytes → AppDirectory) → AppDirectory → List Bytes → AppDirectory
add_all add d [] = d
add_all add d (p ∷ ps) = add_all add (add d p) ps

-- An error is logged, and leaves nothing to add.
unfoldable pub add_outcome : AppDirectory → Application → Outcome → AppDirectory
unfolding add_all add_file add_dir
add_outcome d app (found files dirs) =
    add_all (λ e p. add_dir e app.name p) (add_all (λ e p. add_file e app.name p) d files) dirs
add_outcome d app failed = d
add_outcome d app out_of_fuel = d

-- The loop of `WalkKustomizeApps` over the applications of a repository.
unfoldable pub walk_apps :
    (Application → Source)
    → FileSystem
    → ℕ
    → AppDirectory
    → List (Bytes × Application)
    → AppDirectory
unfolding add_outcome
walk_apps get_source fs fuel d [] = d
walk_apps get_source fs fuel d ((name, app) ∷ apps) =
    walk_apps get_source fs fuel
      (add_outcome d app (
        process_kustomization_file fs fuel
          (join_two (get_source app).path (codes "kustomization.yaml"))))
      apps

-- The parsers of URLs are parameters, as in the model of `NormalizeRepoUrl`.
module _ (url_parse giturls_parse : Bytes → Option Url) where
  -- `NormalizeRepoUrl`, whose error leaves the empty key.
  unfoldable pub repo_of : Bytes → RepoUrl
  repo_of url = elim (canonicalize url_parse giturls_parse url) [
    | none ↦ record { host = []; path = [] }
    | some repo ↦ repo
  ]

  -- `GetAppsInRepo`, which enters a new directory.
  unfoldable pub get_apps_in_repo : VcsToArgoMap → Bytes → AppDirectory × VcsToArgoMap
  unfolding repo_of directory_of store
  get_apps_in_repo v url =
      (directory_of v (repo_of url), store v (repo_of url) (directory_of v (repo_of url)))

  -- `fn(v2a.GetAppsInRepo(url))`
  unfoldable pub at_repo :
      (AppDirectory → Option AppDirectory) → VcsToArgoMap → Bytes → Option VcsToArgoMap
  unfolding repo_of directory_of store
  at_repo fn v url = elim (fn (directory_of v (repo_of url))) [
    | none ↦ none
    | some d ↦ some (store v (repo_of url) d)
  ]

  unfoldable pub process_sources :
      (AppDirectory → Option AppDirectory) → VcsToArgoMap → List Source → Option VcsToArgoMap
  unfolding at_repo
  process_sources fn v [] = some v
  process_sources fn v (src ∷ srcs) = elim (at_repo fn v src.repo_url) [
    | none ↦ none
    | some v' ↦ process_sources fn v' srcs
  ]

  -- `processApp`
  unfoldable pub process_app :
      (AppDirectory → Option AppDirectory) → VcsToArgoMap → Application → Option VcsToArgoMap
  unfolding process_sources all_sources
  process_app fn v app = process_sources fn v (all_sources app)

  -- `WalkKustomizeApps`
  unfoldable pub walk_kustomize_apps :
      (Application → Source) → FileSystem → ℕ → VcsToArgoMap → Bytes → AppDirectory × VcsToArgoMap
  unfolding walk_apps get_apps_in_repo new_app_directory
  walk_kustomize_apps get_source fs fuel v url =
      let (d, v') = get_apps_in_repo v url in
      (walk_apps get_source fs fuel new_app_directory d.apps_map, v')

  module _ (get_source : Application → Source) (has_multiple_sources : Application → Bool) where
    unfoldable pub v2a_add_app : VcsToArgoMap → Application → Option VcsToArgoMap
    unfolding process_app
    v2a_add_app v app = process_app (λ d. add_app get_source has_multiple_sources d app) v app

    unfoldable pub v2a_delete_app : VcsToArgoMap → Application → Option VcsToArgoMap
    unfolding process_app
    v2a_delete_app v app =
        process_app (λ d. some (remove_app get_source has_multiple_sources d app)) v app

    unfoldable pub v2a_update_app : VcsToArgoMap → Application → Application → Option VcsToArgoMap
    unfolding v2a_add_app v2a_delete_app
    v2a_update_app v old new = elim (v2a_delete_app v old) [
      | none ↦ none
      | some v' ↦ v2a_add_app v' new
    ]

  unfoldable pub v2a_add_app_set : VcsToArgoMap → AppSet → VcsToArgoMap
  unfolding repo_of set_directory_of store_set
  v2a_add_app_set v app =
      let repo = repo_of app.source.repo_url in
      if is_empty app.source.repo_url
      then v
      else store_set v repo (process_app_set (set_directory_of v repo) app)

  unfoldable pub v2a_remove_app_set : VcsToArgoMap → AppSet → VcsToArgoMap
  unfolding repo_of set_directory_of store_set
  v2a_remove_app_set v app =
      let repo = repo_of app.source.repo_url in
      store_set v repo (remove_app_set (set_directory_of v repo) app)

  unfoldable pub v2a_update_app_set : VcsToArgoMap → AppSet → AppSet → VcsToArgoMap
  unfolding v2a_add_app_set v2a_remove_app_set
  v2a_update_app_set v old new =
      if is_empty new.source.repo_url then v else v2a_add_app_set (v2a_remove_app_set v old) new

  unfoldable pub v2a_delete_app_set : VcsToArgoMap → AppSet → VcsToArgoMap
  unfolding v2a_remove_app_set
  v2a_delete_app_set v app = if is_empty app.source.repo_url then v else v2a_remove_app_set v app
