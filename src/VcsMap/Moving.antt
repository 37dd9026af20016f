-- ===== src/VcsMap/Moving.antt =====
-- pkg/appdir/vcstoargomap.go: which directories an addition or an update of an application changes.
use kubechecks.Common.{
  Bytes, Bool, true, false, List, [], ◌∷◌, Option, none, some, lookup, insert, lookup-insert,
  if◌then◌else◌, ◌≡◌, refl, sym, ap, subst, ◌∙◌, Option-cases, Bool-cases, inl, inr, bytes_eq_iff,
  bytes_instance, arith,
}
use kubechecks.RepoUrl.{Url, RepoUrl}
use kubechecks.AppDir.{
  Source, Application, AppDirectory, add_app, add_files, add_file, add_dir, join_two, add_sources,
  add_source, get_sources, remove_app,
}
use kubechecks.AppDir.Removing.{names_at-remove_app}
use kubechecks.VcsMap.Sources.{in_repo, directory_of_other, directory_of_own, process_sources_total}
use kubechecks.VcsMap.{
  VcsToArgoMap, repo_instance, directory_of, all_sources, process_app, v2a_add_app, v2a_delete_app,
  v2a_update_app,
}

-- The files of an application are no definitions.
apps_map-add_files :
    (d : AppDirectory) (app base : Bytes) (fs : List Bytes)
    → (add_files d app base fs).apps_map ≡ d.apps_map
unfolding add_files add_file
apps_map-add_files d app base [] = refl
apps_map-add_files d app base (f ∷ fs) =
    apps_map-add_files (add_file d app (join_two base f)) app base fs

apps_map-add_source :
    (d : AppDirectory) (app : Application) (src : Source)
    → (add_source d app src).apps_map ≡ insert app.name app d.apps_map
unfolding add_source add_dir
apps_map-add_source d app src =
    apps_map-add_files _ app.name src.path src.value_files
    ∙ apps_map-add_files _ app.name src.path src.file_parameters

lookup-add_source :
    (d : AppDirectory) (app : Application) (src : Source)
    → lookup app.name (add_source d app src).apps_map ≡ some app
lookup-add_source d app src =
    ap (lookup app.name) (apps_map-add_source d app src)
    ∙ ground (arith, lookup-insert app.name app.name app d.apps_map, bytes_eq_iff app.name app.name)

lookup-add_sources :
    (d : AppDirectory) (app : Application) (srcs : List Source)
    → lookup app.name d.apps_map ≡ some app
    → lookup app.name (add_sources d app srcs).apps_map ≡ some app
unfolding add_sources
lookup-add_sources d app [] h = h
lookup-add_sources d app (src ∷ srcs) h =
    lookup-add_sources (add_source d app src) app srcs (lookup-add_source d app src)

-- The definition in a directory, if there is one.
abbrev definition_in : Bytes → Option AppDirectory → Option Application
definition_in name none = none
definition_in name (some d) = lookup name d.apps_map

-- What a repository knows of an application after an update, by whether the old and the new
-- definition have a source in it, and what it knew.
unfoldable pub known_after : Application → Bool → Bool → Option Application → Option Application
known_after new true true before = some new
known_after new true false before = none
known_after new false true none = some new
known_after new false true (some a) = some a
known_after new false false before = before

module _ (url_parse giturls_parse : Bytes → Option Url) (get_source : Application → Source)
    (has_multiple_sources : Application → Bool) where
  abbrev add_to : Application → AppDirectory → Option AppDirectory
  add_to app d = add_app get_source has_multiple_sources d app

  -- Adding an application to a directory that has it changes nothing.
  add_app_known :
      (d : AppDirectory) (app old : Application)
      → lookup app.name d.apps_map ≡ some old
      → add_to app d ≡ some d
  unfolding add_app
  add_app_known d app old h = rw (add_app, h) refl

  add_app_new :
      (d : AppDirectory) (app : Application) (srcs : List Source)
      → lookup app.name d.apps_map ≡ none
      → get_sources get_source has_multiple_sources app ≡ some srcs
      → add_to app d ≡ some (add_sources d app srcs)
  unfolding add_app
  add_app_new d app srcs h e = rw (add_app, h, e) refl

  lookup-add_app :
      (d d' : AppDirectory) (app : Application) (src : Source) (srcs : List Source)
      → get_sources get_source has_multiple_sources app ≡ some (src ∷ srcs)
      → add_to app d ≡ some d'
      → lookup app.name d'.apps_map
        ≡ (elim (lookup app.name d.apps_map) [ none ↦ some app | some old ↦ some old ])
  unfolding add_sources
  lookup-add_app d d' app src srcs e h = elim (Option-cases (lookup app.name d.apps_map)) [
    | inl unknown ↦ ground (
      arith,
      add_app_new d app (src ∷ srcs) unknown e,
      lookup-add_sources (add_source d app src) app srcs (lookup-add_source d app src),
    )
    | inr (old, known) ↦ ground (arith, add_app_known d app old known)
  ]

  add_app_idempotent :
      (d d' : AppDirectory) (app : Application) (src : Source) (srcs : List Source)
      → get_sources get_source has_multiple_sources app ≡ some (src ∷ srcs)
      → add_to app d ≡ some d'
      → add_to app d' ≡ some d'
  add_app_idempotent d d' app src srcs e h = elim (Option-cases (lookup app.name d.apps_map)) [
    | inl unknown ↦
        add_app_known d' app app (lookup-add_app d d' app src srcs e h ∙ rw unknown refl)
    | inr (old, known) ↦
        add_app_known d' app old (lookup-add_app d d' app src srcs e h ∙ rw known refl)
  ]

  -- An application is added once to the directory of each repository that one of its sources is
  -- in, however many of them are in it, and no other directory changes.
  directory_of-add_app :
      (v v' : VcsToArgoMap) (app : Application) (src : Source) (srcs : List Source) (r : RepoUrl)
      → get_sources get_source has_multiple_sources app ≡ some (src ∷ srcs)
      → v2a_add_app url_parse giturls_parse get_source has_multiple_sources v app ≡ some v'
      → (if in_repo url_parse giturls_parse r (all_sources app)
          then add_app get_source has_multiple_sources (directory_of v r) app
          else some (directory_of v r))
        ≡ some (directory_of v' r)
  unfolding v2a_add_app process_app
  directory_of-add_app v v' app src srcs r e h =
      elim (Bool-cases (in_repo url_parse giturls_parse r (all_sources app))) [
        | inr other ↦ rw other (
            ap some (
              sym (
                directory_of_other url_parse giturls_parse (add_to app) v v' (all_sources app) r h
                  other)))
        | inl own ↦ rw own (
            directory_of_own url_parse giturls_parse (add_to app)
              (λ d. add_to app (directory_of v r) ≡ some d) v v' (all_sources app) r (λ d run. run)
              (λ d d' p run.
                p ∙ sym (add_app_idempotent (directory_of v r) d app src srcs e p) ∙ run)
              h own)
      ]

  -- The definition that the directory of a repository has of an application.
  abbrev pub known_as : Bytes → VcsToArgoMap → RepoUrl → Option Application
  known_as name v r = lookup name (directory_of v r).apps_map

  pub known_as-add_app :
      (v v' : VcsToArgoMap) (app : Application) (src : Source) (srcs : List Source) (r : RepoUrl)
      → get_sources get_source has_multiple_sources app ≡ some (src ∷ srcs)
      → v2a_add_app url_parse giturls_parse get_source has_multiple_sources v app ≡ some v'
      → known_as app.name v' r ≡ (
          if in_repo url_parse giturls_parse r (all_sources app)
          then (elim (known_as app.name v r) [ none ↦ some app | some old ↦ some old ])
          else known_as app.name v r)
  known_as-add_app v v' app src srcs r e h =
      let moved = directory_of-add_app v v' app src srcs r e h in
      elim (Bool-cases (in_repo url_parse giturls_parse r (all_sources app))) [
        | inl own ↦ rw own (
            lookup-add_app (directory_of v r) (directory_of v' r) app src srcs e
              (sym (rw own refl) ∙ moved))
        | inr other ↦ ground (arith, moved)
      ]

  pub known_as-delete_app :
      (v w : VcsToArgoMap) (app : Application) (r : RepoUrl)
      → v2a_delete_app url_parse giturls_parse get_source has_multiple_sources v app ≡ some w
      → known_as app.name w r ≡ (
          if in_repo url_parse giturls_parse r (all_sources app)
          then none
          else known_as app.name v r)
  unfolding v2a_delete_app process_app
  known_as-delete_app v w app r h =
      let remove : AppDirectory → Option AppDirectory =
        λ d. some (remove_app get_source has_multiple_sources d app) in
      let gone : (d d' : AppDirectory) → remove d ≡ some d' → lookup app.name d'.apps_map ≡ none =
        λ d d' run.
          ap (λ o. definition_in app.name o) (sym run)
          ∙ (names_at-remove_app get_source has_multiple_sources d app [] []).0 in
      elim (Bool-cases (in_repo url_parse giturls_parse r (all_sources app))) [
        | inl own ↦ rw own (
            directory_of_own url_parse giturls_parse remove (λ d. lookup app.name d.apps_map ≡ none)
              v w (all_sources app) r (gone (directory_of v r)) (λ d d' p run. gone d d' run) h own)
        | inr other ↦ rw other (
            ap (λ d. lookup app.name d.apps_map)
              (directory_of_other url_parse giturls_parse remove v w (all_sources app) r h other))
      ]

  -- After an update, a repository that the new definition has a source in knows the application by
  -- it, unless it knew it already and the old definition has no source there; where only the old
  -- definition has a source, it is unknown; and elsewhere nothing changes.
  pub known_as-update_app :
      (v v' : VcsToArgoMap) (old new : Application) (src : Source) (srcs : List Source)
      (r : RepoUrl)
      → old.name ≡ new.name
      → get_sources get_source has_multiple_sources new ≡ some (src ∷ srcs)
      → v2a_update_app url_parse giturls_parse get_source has_multiple_sources v old new ≡ some v'
      → known_as new.name v' r
        ≡ known_after new
            (in_repo url_parse giturls_parse r (all_sources old))
            (in_repo url_parse giturls_parse r (all_sources new))
            (known_as new.name v r)
  unfolding v2a_update_app known_after
  known_as-update_app v v' old new src srcs r same e h =
      elim (Option-cases
        (v2a_delete_app url_parse giturls_parse get_source has_multiple_sources v old)) [
          | inl panic ↦ absurd (ground arith)
          | inr (w, deleted) ↦
              let first : known_as new.name w r ≡ (
                  if in_repo url_parse giturls_parse r (all_sources old)
                  then none
                  else known_as new.name v r) =
                subst
                  (λ n. known_as n w r ≡ (
                    if in_repo url_parse giturls_parse r (all_sources old)
                    then none
                    else known_as n v r))
                  same (known_as-delete_app v w old r deleted) in
              let added : v2a_add_app url_parse giturls_parse get_source has_multiple_sources w new
                  ≡ some v' =
                ground arith in
              let then_known = known_as-add_app w v' new src srcs r e added in
              ground (arith, first, then_known)
        ]

  -- An application with sources is added, and removed, without a panic.
  pub add_app_total :
      (v : VcsToArgoMap) (app : Application) (src : Source) (srcs : List Source)
      → get_sources get_source has_multiple_sources app ≡ some (src ∷ srcs)
      → (v' : VcsToArgoMap) × (v2a_add_app url_parse giturls_parse get_source has_multiple_sources v
            app
          ≡ some v')
  unfolding v2a_add_app process_app
  add_app_total v app src srcs e =
      process_sources_total url_parse giturls_parse (add_to app)
        (λ d. elim (Option-cases (lookup app.name d.apps_map)) [
          | inl unknown ↦ (add_sources d app (src ∷ srcs), add_app_new d app (src ∷ srcs) unknown e)
          | inr (old, known) ↦ (d, add_app_known d app old known)
        ])
        v (all_sources app)

  pub delete_app_total :
      (v : VcsToArgoMap) (app : Application)
      → (v' : VcsToArgoMap) × (v2a_delete_app url_parse giturls_parse get_source
            has_multiple_sources v app
          ≡ some v')
  unfolding v2a_delete_app process_app
  delete_app_total v app =
      process_sources_total url_parse giturls_parse
        (λ d. some (remove_app get_source has_multiple_sources d app))
        (λ d. (remove_app get_source has_multiple_sources d app, refl)) v (all_sources app)

  pub update_app_total :
      (v : VcsToArgoMap) (old new : Application) (src : Source) (srcs : List Source)
      → get_sources get_source has_multiple_sources new ≡ some (src ∷ srcs)
      → (v' : VcsToArgoMap) × (v2a_update_app url_parse giturls_parse get_source
            has_multiple_sources v old new
          ≡ some v')
  unfolding v2a_update_app
  update_app_total v old new src srcs e =
      let (w, deleted) = delete_app_total v old in
      let (v', added) = add_app_total w new src srcs e in (v', ground (arith, deleted, added))
