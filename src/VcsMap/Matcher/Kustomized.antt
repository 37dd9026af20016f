-- ===== src/VcsMap/Matcher/Kustomized.antt =====
-- pkg/affected_apps/argocd_matcher.go and pkg/appdir/vcstoargomap.go: what an application's
-- kustomization refers to affects the application.
use kubechecks.Common.{
  ℕ, Bytes, Bool, codes, refl, none, true, List, [], ◌∷◌, Option, some, ◌≡◌, sym, ap, subst, ◌∙◌,
  lookup, bytes_instance, key-cases, arith, inl, inr, ◌⊎◌,
}
use kubechecks.RepoUrl.{Url}
use kubechecks.AppDir.{
  Source, Application, AppDirectory, new_app_directory, dir_contains_path, add_dir, add_file,
  join_two, union, affected, merge_maps, take_first, should_include,
}
use kubechecks.AppDir.Touching.{
  Touched, Touched-add_file, Touched-add_dir, Touched-file, Touched-dir, Touched-union,
}
use kubechecks.AppDir.Selecting.{Lists, Lists-select, lookup-merge_maps}
use kubechecks.AppDir.Matching.{in_set, in_set-affected}
use kubechecks.AppSets.{AppSet}
use kubechecks.Kustomize.{
  FileSystem, Outcome, found, failed, out_of_fuel, listed, process_kustomization_file,
}
use kubechecks.Affected.{path_dir}
use kubechecks.Kustomize.Reaching.{ReachedFile, ReachedLeaf, process_kustomization_file-IsReached}
use kubechecks.VcsMap.{
  VcsToArgoMap, repo_eq_iff, repo_of, directory_of, store, get_apps_in_repo, add_all, add_outcome,
  walk_apps, walk_kustomize_apps,
}
use kubechecks.VcsMap.Sources.{directory_of-store}
use kubechecks.VcsMap.Matcher.{new_argocd_matcher, matcher_affected_apps}

-- What each addition keeps, all of them keep; and what the addition of a listed path brings stays.
module _ (P : AppDirectory → Type 0) (add : AppDirectory → Bytes → AppDirectory)
    (keeps : (d : AppDirectory) (p : Bytes) → P d → P (add d p)) where
  add_all_kept : (d : AppDirectory) (ps : List Bytes) → P d → P (add_all add d ps)
  unfolding add_all
  add_all_kept d [] h = h
  add_all_kept d (p ∷ ps) h = add_all_kept (add d p) ps (keeps d p h)

  add_all_brought :
      (d : AppDirectory) (ps : List Bytes) (q : Bytes)
      → ((e : AppDirectory) → P (add e q))
      → listed q ps ≡ true
      → P (add_all add d ps)
  unfolding add_all listed
  add_all_brought d [] q brings h = absurd (ground arith)
  add_all_brought d (p ∷ ps) q brings h = elim (key-cases p q) [
    | inl (same, hit) ↦ add_all_kept (add d p) ps (subst (λ x. P (add d x)) (sym same) (brings d))
    | inr (differ, missed) ↦ add_all_brought (add d p) ps q brings (ground arith)
  ]

-- The changed path is a file of the result, or lies in a directory of it.
abbrev pub Reports : Bytes → List Bytes → List Bytes → Type 0
Reports c files dirs =
    (listed c files ≡ true)
    ⊎ ((p : Bytes) × (listed p dirs ≡ true) × (dir_contains_path p c ≡ true))

Touched-add_outcome :
    (n c : Bytes) (d : AppDirectory) (app : Application) (o : Outcome)
    → Touched n c d
    → Touched n c (add_outcome d app o)
unfolding add_outcome
Touched-add_outcome n c d app failed h = h
Touched-add_outcome n c d app out_of_fuel h = h
Touched-add_outcome n c d app (found files dirs) h =
    add_all_kept (Touched n c) (λ e p. add_dir e app.name p)
      (λ e p. Touched-add_dir n c app.name p e) (add_all (λ e p. add_file e app.name p) d files)
      dirs
      (add_all_kept (Touched n c) (λ e p. add_file e app.name p)
        (λ e p. Touched-add_file n c app.name p e) d files h)

Touched-outcome :
    (c : Bytes) (d : AppDirectory) (app : Application) (files dirs : List Bytes)
    → Reports c files dirs
    → Touched app.name c (add_outcome d app (found files dirs))
unfolding add_outcome
Touched-outcome c d app files dirs (inr (p, has, inside)) =
    add_all_brought (Touched app.name c) (λ e q. add_dir e app.name q)
      (λ e q. Touched-add_dir app.name c app.name q e)
      (add_all (λ e q. add_file e app.name q) d files) dirs p
      (λ e. Touched-dir app.name c p e inside) has
Touched-outcome c d app files dirs (inl has) =
    add_all_kept (Touched app.name c) (λ e q. add_dir e app.name q)
      (λ e q. Touched-add_dir app.name c app.name q e)
      (add_all (λ e q. add_file e app.name q) d files) dirs
      (add_all_brought (Touched app.name c) (λ e q. add_file e app.name q)
        (λ e q. Touched-add_file app.name c app.name q e) d files c (λ e. Touched-file app.name c e)
        has)

module _ (get_source : Application → Source) (fs : FileSystem) (fuel : ℕ) where
  -- The kustomization of an application.
  abbrev pub kustomization_of : Application → Bytes
  kustomization_of app = join_two (get_source app).path (codes "kustomization.yaml")

  Touched-walk_apps :
      (n c : Bytes) (d : AppDirectory) (apps : List (Bytes × Application))
      → Touched n c d
      → Touched n c (walk_apps get_source fs fuel d apps)
  unfolding walk_apps
  Touched-walk_apps n c d [] h = h
  Touched-walk_apps n c d ((name, app) ∷ apps) h =
      let o = process_kustomization_file fs fuel (kustomization_of app) in
      Touched-walk_apps n c (add_outcome d app o) apps (Touched-add_outcome n c d app o h)

  Touched-walk :
      (c key : Bytes) (d : AppDirectory) (apps : List (Bytes × Application)) (app : Application)
      (files dirs : List Bytes)
      → lookup key apps ≡ some app
      → process_kustomization_file fs fuel (kustomization_of app) ≡ found files dirs
      → Reports c files dirs
      → Touched app.name c (walk_apps get_source fs fuel d apps)
  unfolding walk_apps lookup
  Touched-walk c key d [] app files dirs has done r = absurd (ground arith)
  Touched-walk c key d ((name, other) ∷ apps) app files dirs has done r =
      let o = process_kustomization_file fs fuel (kustomization_of other) in
      elim (key-cases name key) [
        | inr (differ, missed) ↦
            Touched-walk c key (add_outcome d other o) apps app files dirs (ground arith) done r
        | inl (same, hit) ↦
            let it : other ≡ app = ground arith in
            Touched-walk_apps app.name c (add_outcome d other o) apps (
              subst
                (λ a.
                  Touched app.name c
                    (add_outcome d a (process_kustomization_file fs fuel (kustomization_of a))))
                (sym it)
                (subst (λ x. Touched app.name c (add_outcome d app x)) (sym done)
                  (Touched-outcome c d app files dirs r)))
      ]

  reports :
      (app : Application) (c : Bytes) (files dirs : List Bytes)
      → process_kustomization_file fs fuel (kustomization_of app) ≡ found files dirs
      → ReachedFile fs (path_dir (kustomization_of app)) c
        ⊎ ((p : Bytes) × ReachedLeaf fs (path_dir (kustomization_of app)) p
            × (dir_contains_path p c ≡ true))
      → Reports c files dirs
  reports app c files dirs done (inl reached) = inl (
      (process_kustomization_file-IsReached fs fuel (kustomization_of app) files dirs c done).0.1
        reached)
  reports app c files dirs done (inr (p, reached, inside)) = inr (
    p,
    (process_kustomization_file-IsReached fs fuel (kustomization_of app) files dirs p done).1.1
        reached,
    inside,
  )

  in_set-affected-new_argocd_matcher :
      (url_parse giturls_parse : Bytes → Option Url) (v : VcsToArgoMap) (url key c : Bytes)
      (app : Application) (files dirs : List Bytes)
      → lookup key (directory_of v (repo_of url_parse giturls_parse url)).apps_map ≡ some app
      → process_kustomization_file fs fuel (kustomization_of app) ≡ found files dirs
      → ReachedFile fs (path_dir (kustomization_of app)) c
        ⊎ ((p : Bytes) × ReachedLeaf fs (path_dir (kustomization_of app)) p
            × (dir_contains_path p c ≡ true))
      → in_set app.name (
          affected
            (new_argocd_matcher url_parse giturls_parse get_source fs fuel v url).apps_directory
            (c ∷ [])
            [])
        ≡ true
  unfolding new_argocd_matcher walk_kustomize_apps get_apps_in_repo
  in_set-affected-new_argocd_matcher url_parse giturls_parse v url key c app files dirs has done r =
      let repo = repo_of url_parse giturls_parse url in
      let again = directory_of (store v repo (directory_of v repo)) repo in
      let same : again ≡ directory_of v repo =
        directory_of-store v repo repo (directory_of v repo)
        ∙ ground (arith, repo_eq_iff repo repo) in
      let walked : Touched app.name c
          (walk_apps get_source fs fuel new_app_directory again.apps_map) =
        Touched-walk c key new_app_directory again.apps_map app files dirs
          (ap (λ d. lookup key d.apps_map) same ∙ has) done (reports app c files dirs done r) in
      let both =
        Touched-union app.name c (union new_app_directory (directory_of v repo))
          (walk_apps get_source fs fuel new_app_directory again.apps_map) walked in
      in_set-affected app.name _ (c ∷ []) [] ∙ ground (arith, both)

  lookup-new_app_directory : (key : Bytes) → lookup key new_app_directory.apps_map ≡ none
  unfolding new_app_directory lookup
  lookup-new_app_directory key = refl

  lookup-new_argocd_matcher :
      (url_parse giturls_parse : Bytes → Option Url) (v : VcsToArgoMap) (url key : Bytes)
      (app : Application)
      → lookup key (directory_of v (repo_of url_parse giturls_parse url)).apps_map ≡ some app
      → lookup key
          (new_argocd_matcher url_parse giturls_parse get_source fs fuel v
            url).apps_directory.apps_map
        ≡ some app
  unfolding new_argocd_matcher get_apps_in_repo union
  lookup-new_argocd_matcher url_parse giturls_parse v url key app has =
      let mine = (directory_of v (repo_of url_parse giturls_parse url)).apps_map in
      let walked =
        (walk_kustomize_apps url_parse giturls_parse get_source fs fuel
          (get_apps_in_repo url_parse giturls_parse v url).1 url).0.apps_map in
      let known : lookup key (merge_maps take_first new_app_directory.apps_map mine) ≡ some app =
        lookup-merge_maps key new_app_directory.apps_map mine
        ∙ ground (arith, lookup-new_app_directory key, has) in
      lookup-merge_maps key (merge_maps take_first new_app_directory.apps_map mine) walked
      ∙ ground (arith, known)

  -- An application that the directory of the repository has under its name, and whose target revision
  -- fits the target branch, is among the applications that the matcher returns for a change of any
  -- file that its kustomization reaches, and for any change in a directory without a kustomization
  -- that it reaches, provided that its kustomization could be processed.
  pub Lists-matcher_affected_apps :
      (has_multiple_sources : Application → Bool) (glob_match : Bytes → Bytes → Bool)
      (url_parse giturls_parse : Bytes → Option Url) (v : VcsToArgoMap)
      (url c target_branch : Bytes) (own : List (Option AppSet)) (app : Application)
      (files dirs : List Bytes)
      → lookup app.name (directory_of v (repo_of url_parse giturls_parse url)).apps_map ≡ some app
      → should_include get_source has_multiple_sources app target_branch ≡ true
      → process_kustomization_file fs fuel (kustomization_of app) ≡ found files dirs
      → ReachedFile fs (path_dir (kustomization_of app)) c
        ⊎ ((p : Bytes) × ReachedLeaf fs (path_dir (kustomization_of app)) p
            × (dir_contains_path p c ≡ true))
      → Lists app
          (matcher_affected_apps get_source has_multiple_sources glob_match
            (new_argocd_matcher url_parse giturls_parse get_source fs fuel v url)
            own
            (c ∷ [])
            target_branch).0
  unfolding matcher_affected_apps
  Lists-matcher_affected_apps has_multiple_sources glob_match url_parse giturls_parse v url c
        target_branch own app files dirs has fits done r =
      Lists-select get_source has_multiple_sources
        (new_argocd_matcher url_parse giturls_parse get_source fs fuel v url).apps_directory
        target_branch app _
        (lookup-new_argocd_matcher url_parse giturls_parse v url app.name app has) fits
        (in_set-affected-new_argocd_matcher url_parse giturls_parse v url app.name c app files dirs
          has done r)
