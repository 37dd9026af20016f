-- ===== src/VcsMap/Matcher.antt =====
-- pkg/affected_apps/argocd_matcher.go: the applications of Argo CD that a change list affects, from
-- the directories of a repository and the kustomizations of its applications.
pub mod Kustomized
use kubechecks.Common.{ℕ, Bytes, Bool, List, Option}
use kubechecks.RepoUrl.{Url}
use kubechecks.AppDir.{
  Source, Application, AppDirectory, new_app_directory, union, find_apps_based_on_change_list,
}
use kubechecks.AppSets.{
  AppSet, AppSetDirectory, new_app_set_directory, union_app_sets, find_app_sets,
}
use kubechecks.Kustomize.{FileSystem}
use kubechecks.VcsMap.{
  VcsToArgoMap, set_directory_of, repo_of, get_apps_in_repo, walk_kustomize_apps,
}

pub record ArgocdMatcher : Type 0 where
  pub apps_directory : AppDirectory
  pub app_sets_directory : AppSetDirectory

-- `NewArgocdMatcher`, with the file system of the repository's directory
unfoldable pub new_argocd_matcher :
    (Bytes → Option Url)
    → (Bytes → Option Url)
    → (Application → Source)
    → FileSystem
    → ℕ
    → VcsToArgoMap
    → Bytes
    → ArgocdMatcher
unfolding get_apps_in_repo walk_kustomize_apps union new_app_directory union_app_sets
    new_app_set_directory set_directory_of repo_of
new_argocd_matcher url_parse giturls_parse get_source fs fuel v clone_url =
    let (repo_apps, v') = get_apps_in_repo url_parse giturls_parse v clone_url in
    let (kustomize_apps, v'') =
      walk_kustomize_apps url_parse giturls_parse get_source fs fuel v' clone_url in
    record {
      apps_directory = union (union new_app_directory repo_apps) kustomize_apps;
      app_sets_directory =
          union_app_sets new_app_set_directory
            (set_directory_of v'' (repo_of url_parse giturls_parse clone_url));
    }

-- `AffectedApps`; its directory is never nil. The sets in changed files come as they are parsed.
unfoldable pub matcher_affected_apps :
    (Application → Source)
    → (Application → Bool)
    → (Bytes → Bytes → Bool)
    → ArgocdMatcher
    → List (Option AppSet)
    → List Bytes
    → Bytes
    → List Application × List AppSet
unfolding find_apps_based_on_change_list find_app_sets
matcher_affected_apps get_source has_multiple_sources glob_match m own changes target_branch = (
  find_apps_based_on_change_list get_source has_multiple_sources m.apps_directory changes
      target_branch,
  find_app_sets glob_match m.app_sets_directory own changes,
)
