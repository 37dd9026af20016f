-- ===== src/VcsMap/Watching.antt =====
-- pkg/app_watcher: what the watchers of applications and application sets do to the directories.
-- An object that is no application is `none`. `reflect.DeepEqual`, the matching of namespaces and
-- `GetSources` of an application set are parameters.
use kubechecks.Common.{
  Bytes, codes, Bool, false, not, ◌&&◌, ◌||◌, List, [], ◌∷◌, Option, none, some, contains, bytes_eq,
  if◌then◌else◌,
}
use kubechecks.RepoUrl.{Url}
use kubechecks.AppDir.{Source, Application}
use kubechecks.AppSets.{AppSet}
use kubechecks.VcsMap.{
  VcsToArgoMap, all_sources, v2a_add_app, v2a_update_app, v2a_delete_app, v2a_add_app_set,
  v2a_update_app_set, v2a_delete_app_set,
}

unfoldable pub is_git_repo : Bytes → Bool
is_git_repo url = contains url (codes "gitlab.com") || contains url (codes "github.com")

unfoldable pub any_git_repo : List Source → Bool
unfolding is_git_repo
any_git_repo [] = false
any_git_repo (src ∷ srcs) = is_git_repo src.repo_url || any_git_repo srcs

-- `canProcessApp`: the single source is looked at first, then the list.
unfoldable pub can_process_app : Application → Bool
unfolding any_git_repo
can_process_app app = any_git_repo (all_sources app)

-- The object, if it is an application that can be processed.
unfoldable pub processable : Option Application → Option Application
unfolding can_process_app
processable none = none
processable (some app) = if can_process_app app then some app else none

unfoldable pub can_process_app_set : (AppSet → List Source) → AppSet → Bool
unfolding any_git_repo is_git_repo
can_process_app_set sources_of app =
    any_git_repo (sources_of app) || is_git_repo app.source.repo_url

-- `isAppNamespaceAllowed`; the second argument says whether an additional namespace matches.
unfoldable pub is_app_namespace_allowed : Bytes → (Bytes → Bool) → Bytes → Bool
is_app_namespace_allowed own matches namespace = bytes_eq namespace own || matches namespace

module _ (url_parse giturls_parse : Bytes → Option Url) (get_source : Application → Source)
    (has_multiple_sources : Application → Bool)
    -- `reflect.DeepEqual` on the single source and on the lists
    (equal_source : Option Source → Option Source → Bool)
    (equal_sources : List Source → List Source → Bool) where
  unfoldable pub on_application_added : VcsToArgoMap → Option Application → Option VcsToArgoMap
  unfolding processable
  on_application_added v obj = elim (processable obj) [
    | none ↦ some v
    | some app ↦ v2a_add_app url_parse giturls_parse get_source has_multiple_sources v app
  ]

  unfoldable pub on_application_updated :
      VcsToArgoMap → Option Application → Option Application → Option VcsToArgoMap
  unfolding processable
  on_application_updated v old new = elim (processable new) [
    | none ↦ some v
    | some new_app ↦ elim (processable old) [
      | none ↦ some v
      | some old_app ↦
          if not (equal_source old_app.source new_app.source)
            || not (equal_sources old_app.sources new_app.sources)
          then v2a_update_app url_parse giturls_parse get_source has_multiple_sources v old_app
              new_app
          else some v
    ]
  ]

  unfoldable pub on_application_deleted : VcsToArgoMap → Option Application → Option VcsToArgoMap
  unfolding processable
  on_application_deleted v obj = elim (processable obj) [
    | none ↦ some v
    | some app ↦ v2a_delete_app url_parse giturls_parse get_source has_multiple_sources v app
  ]

  -- The updates of an application, each from the definition before it.
  unfoldable pub watch_updates : VcsToArgoMap → Application → List Application → Option VcsToArgoMap
  unfolding on_application_updated
  watch_updates v app [] = some v
  watch_updates v app (new ∷ news) = elim (on_application_updated v (some app) (some new)) [
    | none ↦ none
    | some v' ↦ watch_updates v' new news
  ]

  -- The life of an application, from its addition on.
  unfoldable pub watch : VcsToArgoMap → Application → List Application → Option VcsToArgoMap
  unfolding on_application_added watch_updates
  watch v app news = elim (on_application_added v (some app)) [
    | none ↦ none
    | some v' ↦ watch_updates v' app news
  ]

module _ (url_parse giturls_parse : Bytes → Option Url) (sources_of : AppSet → List Source)
    (equal_source : Source → Source → Bool) (equal_sources : List Source → List Source → Bool) where
  unfoldable pub on_application_set_added : VcsToArgoMap → AppSet → VcsToArgoMap
  unfolding can_process_app_set
  on_application_set_added v app =
      if can_process_app_set sources_of app
      then v2a_add_app_set url_parse giturls_parse v app
      else v

  unfoldable pub on_application_set_updated : VcsToArgoMap → AppSet → AppSet → VcsToArgoMap
  unfolding can_process_app_set
  on_application_set_updated v old new =
      let changed =
        not (equal_source old.source new.source)
        || not (equal_sources (sources_of old) (sources_of new)) in
      if can_process_app_set sources_of new && can_process_app_set sources_of old && changed
      then v2a_update_app_set url_parse giturls_parse v old new
      else v

  unfoldable pub on_application_set_deleted : VcsToArgoMap → AppSet → VcsToArgoMap
  unfolding can_process_app_set
  on_application_set_deleted v app =
      if can_process_app_set sources_of app
      then v2a_delete_app_set url_parse giturls_parse v app
      else v
