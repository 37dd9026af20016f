-- ===== src/VcsMap/Tracking.antt =====
-- pkg/app_watcher: the directories follow an application from its addition to its deletion.
use kubechecks.Common.{
  Bytes, Bool, true, not, is_empty, List-cases, List, [], ◌∷◌, Option, none, some, if◌then◌else◌,
  ◌≡◌, refl, ◌∙◌, Option-cases, Bool-cases, inl, inr, arith, All,
}
use kubechecks.RepoUrl.{Url, RepoUrl}
use kubechecks.AppDir.{Source, Application, get_sources}
use kubechecks.VcsMap.{VcsToArgoMap, all_sources}
use kubechecks.VcsMap.Sources.{in_repo}
use kubechecks.VcsMap.Moving.{known_as, add_app_total, update_app_total, delete_app_total}
use kubechecks.VcsMap.Watching.{
  any_git_repo, can_process_app, on_application_updated, on_application_deleted, watch_updates,
  watch,
}
use kubechecks.VcsMap.Steps.{added_eq, deleted_eq, is_changed, updated_eq}
use kubechecks.VcsMap.Following.{last_of, IsWatched, standing, watch-Follows, deleted-Follows}

module _ (url_parse giturls_parse : Bytes → Option Url) (get_source : Application → Source)
    (has_multiple_sources : Application → Bool)
    (equal_source : Option Source → Option Source → Bool)
    (equal_sources : List Source → List Source → Bool) where
  All-last_of :
      (name : Bytes) (app : Application) (news : List Application)
      → All
          (IsWatched url_parse giturls_parse get_source has_multiple_sources equal_source
            equal_sources name)
          (app ∷ news)
      → IsWatched url_parse giturls_parse get_source has_multiple_sources equal_source equal_sources
          name
          (last_of app news)
  All-last_of name app [] all = all.0
  All-last_of name app (new ∷ news) all = All-last_of name new news all.1

  updated_total :
      (name : Bytes) (v : VcsToArgoMap) (old new : Application)
      → IsWatched url_parse giturls_parse get_source has_multiple_sources equal_source equal_sources
          name old
      → IsWatched url_parse giturls_parse get_source has_multiple_sources equal_source equal_sources
          name new
      → (v' : VcsToArgoMap) × (on_application_updated url_parse giturls_parse get_source
            has_multiple_sources equal_source equal_sources v
            (some old)
            (some new)
          ≡ some v')
  updated_total name v old new wo (named, can, (src, srcs, e)) =
      let run =
        updated_eq url_parse giturls_parse get_source has_multiple_sources equal_source
          equal_sources v old new wo.1 can in
      elim (Bool-cases (
        is_changed url_parse giturls_parse get_source has_multiple_sources equal_source
          equal_sources old new)) [
            | inr kept ↦ (v, run ∙ rw kept refl)
            | inl changed ↦
                let (v', done) =
                  update_app_total url_parse giturls_parse get_source has_multiple_sources v old new
                    src srcs e in
                (v', run ∙ rw changed done)
          ]

  watch_updates_total :
      (name : Bytes) (v : VcsToArgoMap) (app : Application) (news : List Application)
      → IsWatched url_parse giturls_parse get_source has_multiple_sources equal_source equal_sources
          name app
      → All
          (IsWatched url_parse giturls_parse get_source has_multiple_sources equal_source
            equal_sources name)
          news
      → (v' : VcsToArgoMap) × (watch_updates url_parse giturls_parse get_source has_multiple_sources
            equal_source equal_sources v app news
          ≡ some v')
  unfolding watch_updates
  watch_updates_total name v app [] watched all = (v, refl)
  watch_updates_total name v app (new ∷ news) watched all =
      let (w, done) = updated_total name v app new watched all.0 in
      let (v', rest) = watch_updates_total name w new news all.0 all.1 in
      (v', ground (arith, done, rest))

  watch_total :
      (name : Bytes) (v : VcsToArgoMap) (app : Application) (news : List Application)
      → All
          (IsWatched url_parse giturls_parse get_source has_multiple_sources equal_source
            equal_sources name)
          (app ∷ news)
      → (v' : VcsToArgoMap) × (watch url_parse giturls_parse get_source has_multiple_sources
            equal_source equal_sources v app news
          ≡ some v')
  unfolding watch
  watch_total name v app news ((named, can, (src, srcs, e)), all) =
      let (w, added) =
        add_app_total url_parse giturls_parse get_source has_multiple_sources v app src srcs e in
      let (v', rest) = watch_updates_total name w app news (named, can, (src, srcs, e)) all in
      (
        v',
        ground (
          arith,
          added_eq url_parse giturls_parse get_source has_multiple_sources equal_source
              equal_sources v app can,
          added,
          rest,
        ),
      )

  -- `HasMultipleSources` tells whether the list of sources holds any, so a definition that the
  -- watcher does not pass over has a source.
  watched_source :
      (app : Application)
      → has_multiple_sources app ≡ not (is_empty app.sources)
      → can_process_app app ≡ true
      → (src : Source) × (srcs : List Source) × (get_sources get_source has_multiple_sources app
          ≡ some (src ∷ srcs))
  unfolding get_sources can_process_app any_git_repo all_sources
  watched_source app several can = elim (List-cases app.sources) [
    | inr (src, srcs, e) ↦ (src, srcs, ground (arith, several, e))
    | inl e ↦ elim (Option-cases app.source) [
      | inl n ↦ absurd (ground (arith, can, e, n))
      | inr (src, one) ↦ (src, [], ground (arith, several, e, one))
    ]
  ]

  -- A definition under a name that the watcher does not pass over.
  abbrev pub IsNamed : Bytes → Application → Type 0
  IsNamed name app = (app.name ≡ name) × (can_process_app app ≡ true)

  All-IsWatched :
      (name : Bytes) (apps : List Application)
      → ((app : Application) → has_multiple_sources app ≡ not (is_empty app.sources))
      → All (IsNamed name) apps
      → All
          (IsWatched url_parse giturls_parse get_source has_multiple_sources equal_source
            equal_sources name)
          apps
  All-IsWatched name [] several all = tt
  All-IsWatched name (app ∷ apps) several (here, all) = (
    (here.0, here.1, watched_source app (several app) here.1),
    All-IsWatched name apps several all,
  )

  -- From its addition on, through any sequence of updates to its deletion, no event of an application
  -- panics, and the directories follow its sources: exactly the repositories in which its last
  -- definition has a source know it, by the last definition that changed a source, which may be older
  -- in the rest; and when it is deleted then, no repository knows it. No repository knows the name
  -- before; every definition has a source in a repository of GitHub or GitLab; `HasMultipleSources`
  -- tells whether the list of sources holds any; and two sources that `reflect.DeepEqual` does not
  -- tell apart are the same.
  pub known_as-watch :
      (name : Bytes) (v : VcsToArgoMap) (app : Application) (news : List Application) (r : RepoUrl)
      → All (IsNamed name) (app ∷ news)
      → ((a : Application) → has_multiple_sources a ≡ not (is_empty a.sources))
      → ((a b : Option Source) → equal_source a b ≡ true → a ≡ b)
      → ((a b : List Source) → equal_sources a b ≡ true → a ≡ b)
      → ((k : RepoUrl)
          → known_as url_parse giturls_parse get_source has_multiple_sources name v k ≡ none)
      → (v' : VcsToArgoMap) × (w : VcsToArgoMap) × (watch url_parse giturls_parse get_source
            has_multiple_sources equal_source equal_sources v app news
          ≡ some v')
        × (on_application_deleted url_parse giturls_parse get_source has_multiple_sources
              equal_source equal_sources v'
              (some (last_of app news))
            ≡ some w)
        × (known_as url_parse giturls_parse get_source has_multiple_sources name v' r ≡ (
            if in_repo url_parse giturls_parse r (all_sources (last_of app news))
            then some (
                standing url_parse giturls_parse get_source has_multiple_sources equal_source
                  equal_sources app app news)
            else none))
        × (known_as url_parse giturls_parse get_source has_multiple_sources name w r ≡ none)
  known_as-watch name v app news r named several eq_source eq_sources fresh =
      let all = All-IsWatched name (app ∷ news) several named in
      let last = last_of app news in
      let watched = All-last_of name app news all in
      let (v', run) = watch_total name v app news all in
      let (w, gone) =
        delete_app_total url_parse giturls_parse get_source has_multiple_sources v' last in
      let deleted =
        deleted_eq url_parse giturls_parse get_source has_multiple_sources equal_source
          equal_sources v' last watched.1
        ∙ gone in
      let follows =
        watch-Follows url_parse giturls_parse get_source has_multiple_sources equal_source
          equal_sources name v v' app news all eq_source eq_sources fresh run in
      (
        v',
        w,
        run,
        deleted,
        follows r,
        deleted-Follows url_parse giturls_parse get_source has_multiple_sources equal_source
            equal_sources name v' w
            (standing url_parse giturls_parse get_source has_multiple_sources equal_source
              equal_sources app app news)
            last r watched follows deleted,
      )
