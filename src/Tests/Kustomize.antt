-- ===== src/Tests/Kustomize.antt =====
-- pkg/kustomize/process.go: two kustomizations that refer to each other, and a plain directory.
use kubechecks.Common.{
  lookup, bytes_instance, Option, none, some, inr, Bytes, Bool, false, codes, true, List, [], ◌∷◌,
  ◌≡◌, ◌↔◌, refl, bytes_eq, if◌then◌else◌, trim_left,
}
use kubechecks.RepoUrl.{Url, trim_prefix, trim_suffix, canonicalize, normalize_repo_url}
use kubechecks.AppDir.{
  Application, Source, should_include, dir_contains_path, join_two, clean, clean_step, clean_stack,
  elements, join_path,
}
use kubechecks.VcsMap.{VcsToArgoMap, repo_of, repo_eq, repo_instance, directory_of}
use kubechecks.VcsMap.Matcher.{new_argocd_matcher, matcher_affected_apps}
use kubechecks.AppDir.Selecting.{Lists}
use kubechecks.VcsMap.Matcher.Kustomized.{kustomization_of, Lists-matcher_affected_apps}
use kubechecks.Affected.{path_dir, from_slash}
use kubechecks.Kustomize.{
  FileSystem, Kustomization, not_there, parsed, is_dir, found, listed, process_kustomization_file,
  process_dir, enter, follow, process_all, and_then, add_found, contents, sort_out, clean_paths,
  clean_path, is_remote_resource, referenced_files, patch_paths, patch_files, path_base,
  last_element,
}
use kubechecks.Kustomize.Reaching.{ReachedFile, ReachedLeaf, process_kustomization_file-IsReached}

abbrev refers_to : List Bytes → Kustomization
refers_to paths = record {
  bases = [];
  resources = paths;
  components = [];
  configurations = [];
  crds = [];
  transformers = [];
  values_files = [];
  patches = [];
  patches_json6902 = [];
  patches_strategic_merge = [];
}

-- The kustomization of "a" refers to "b" and to "a/c", that of "b" to "a".
abbrev files : FileSystem
files = record {
  open_kustomization = (λ d.
      if bytes_eq d (codes "a")
      then parsed (refers_to (codes "../b" ∷ (codes "c" ∷ (codes "https://x/y" ∷ []))))
      else if bytes_eq d (codes "b")
      then parsed (refers_to (codes "../a" ∷ []))
      else not_there);
  stat = (λ d. is_dir);
}

abbrev start_path : Bytes
start_path = codes "a/kustomization.yaml"

result :
    process_kustomization_file files 3 start_path
    ≡ found (codes "a/kustomization.yaml" ∷ (codes "b/kustomization.yaml" ∷ [])) (codes "a/c" ∷ [])
unfolding process_kustomization_file process_dir enter follow process_all and_then add_found
    contents sort_out clean_paths clean_path is_remote_resource referenced_files patch_paths
    patch_files path_base last_element listed bytes_eq trim_left trim_prefix join_two clean
    clean_step clean_stack elements join_path path_dir from_slash
result = refl

process_kustomization_file-IsReached_example :
    ((listed
          (codes "b/kustomization.yaml")
          (codes "a/kustomization.yaml" ∷ (codes "b/kustomization.yaml" ∷ []))
        ≡ true)
      ↔ ReachedFile files (path_dir start_path) (codes "b/kustomization.yaml"))
    × ((listed (codes "b/kustomization.yaml") (codes "a/c" ∷ []) ≡ true)
        ↔ ReachedLeaf files (path_dir start_path) (codes "b/kustomization.yaml"))
process_kustomization_file-IsReached_example =
    process_kustomization_file-IsReached files 3 start_path
      (codes "a/kustomization.yaml" ∷ (codes "b/kustomization.yaml" ∷ [])) (codes "a/c" ∷ [])
      (codes "b/kustomization.yaml") result

abbrev parse : Bytes → Option Url
parse url = some (record { host = codes "github.com"; path = url; query = [] })

abbrev kustomized : Application
kustomized = record { name = codes "x"; source = none; sources = []; rest = [] }

abbrev source_at_a : Application → Source
source_at_a app = record {
  repo_url = codes "r";
  path = codes "a";
  target_revision = codes "HEAD";
  file_parameters = [];
  value_files = [];
}

abbrev single : Application → Bool
single app = false

abbrev one_app : VcsToArgoMap
one_app = record {
  username = [];
  app_dir_by_repo =
      (
        record { host = codes "github.com"; path = codes "r" },
        record { app_dirs = []; app_files = []; apps_map = (codes "x", kustomized) ∷ [] },
      )
      ∷ [];
  app_set_dir_by_repo = [];
}

is_known :
    lookup (codes "x") (directory_of one_app (repo_of parse parse (codes "r"))).apps_map
    ≡ some kustomized
unfolding directory_of repo_of canonicalize normalize_repo_url trim_prefix trim_suffix repo_eq
    lookup bytes_eq
is_known = refl

is_processed :
    process_kustomization_file files 3 (kustomization_of source_at_a files 3 kustomized)
    ≡ found (codes "a/kustomization.yaml" ∷ (codes "b/kustomization.yaml" ∷ [])) (codes "a/c" ∷ [])
unfolding join_two clean clean_step clean_stack elements join_path bytes_eq
is_processed = result

Lists-matcher_affected_apps_example :
    Lists kustomized
      (matcher_affected_apps source_at_a single bytes_eq
        (new_argocd_matcher parse parse source_at_a files 3 one_app (codes "r"))
        []
        (codes "a/c/d.txt" ∷ [])
        (codes "main")).0
unfolding join_two clean clean_step clean_stack elements join_path bytes_eq listed dir_contains_path
    trim_prefix should_include
Lists-matcher_affected_apps_example =
    Lists-matcher_affected_apps source_at_a files 3 single bytes_eq parse parse one_app (codes "r")
      (codes "a/c/d.txt") (codes "main") [] kustomized
      (codes "a/kustomization.yaml" ∷ (codes "b/kustomization.yaml" ∷ [])) (codes "a/c" ∷ [])
      is_known refl is_processed
      (inr (
        codes "a/c",
        (process_kustomization_file-IsReached files 3 start_path
              (codes "a/kustomization.yaml" ∷ (codes "b/kustomization.yaml" ∷ []))
              (codes "a/c" ∷ []) (codes "a/c") result).1.0
            refl,
        refl,
      ))
