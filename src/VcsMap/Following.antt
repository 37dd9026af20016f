-- ===== src/VcsMap/Following.antt =====
-- pkg/app_watcher: what each event of an application makes of the directories that know it.
use kubechecks.Common.{
  Bytes, Bool, true, false, List, [], ◌∷◌, Option, none, some, if◌then◌else◌, ◌≡◌, refl, sym, ap,
  subst, ◌∙◌, Option-cases, Bool-cases, inl, inr, arith, All,
}
use kubechecks.RepoUrl.{Url, RepoUrl}
use kubechecks.AppDir.{Source, Application, get_sources}
use kubechecks.VcsMap.{VcsToArgoMap, all_sources}
use kubechecks.VcsMap.Sources.{in_repo}
use kubechecks.VcsMap.Moving.{
  known_as, known_after, known_as-add_app, known_as-update_app, known_as-delete_app,
}
use kubechecks.VcsMap.Watching.{
  can_process_app, on_application_added, on_application_updated, on_application_deleted,
  watch_updates, watch,
}
use kubechecks.VcsMap.Steps.{added_eq, deleted_eq, is_changed, updated_eq, not_changed}

abbrev pub last_of : Application → List Application → Application
last_of app [] = app
last_of app (new ∷ news) = last_of new news

known_after_follows :
    (old new : Application) (was is : Bool)
    → known_after new was is (if was then some old else none) ≡ (if is then some new else none)
unfolding known_after
known_after_follows old new true true = refl
known_after_follows old new true false = refl
known_after_follows old new false true = refl
known_after_follows old new false false = refl

gone_after :
    (app : Application) (was : Bool) (before : Option Application)
    → before ≡ (if was then some app else none)
    → (if was then none else before) ≡ none
gone_after app true before h = refl
gone_after app false before h = h

module _ (url_parse giturls_parse : Bytes → Option Url) (get_source : Application → Source)
    (has_multiple_sources : Application → Bool)
    (equal_source : Option Source → Option Source → Bool)
    (equal_sources : List Source → List Source → Bool) where
  -- A definition under a name that the watcher does not pass over, and that has a source.
  abbrev pub IsWatched : Bytes → Application → Type 0
  IsWatched name app =
      (app.name ≡ name)
      × (can_process_app app ≡ true)
      × ((src : Source) × (srcs : List Source) × (get_sources get_source has_multiple_sources app
            ≡ some (src ∷ srcs)))

  -- The definition that stands after some updates: the last by which a source changed. Its rest may
  -- be older than that of the last definition.
  unfoldable pub standing : Application → Application → List Application → Application
  unfolding is_changed
  standing kept app [] = kept
  standing kept app (new ∷ news) =
      standing
        (if is_changed url_parse giturls_parse get_source has_multiple_sources equal_source
            equal_sources app new
          then new
          else kept)
        new news

  -- Exactly the repositories in which the second definition has a source know the application, by
  -- the first.
  abbrev pub Follows : Bytes → VcsToArgoMap → Application → Application → Type 0
  Follows name v kept app =
      (r : RepoUrl)
      → known_as url_parse giturls_parse get_source has_multiple_sources name v r
        ≡ (if in_repo url_parse giturls_parse r (all_sources app) then some kept else none)

  added-Follows :
      (name : Bytes) (v v' : VcsToArgoMap) (app : Application)
      → IsWatched name app
      → ((r : RepoUrl)
          → known_as url_parse giturls_parse get_source has_multiple_sources name v r ≡ none)
      → on_application_added url_parse giturls_parse get_source has_multiple_sources equal_source
          equal_sources v
          (some app)
        ≡ some v'
      → Follows name v' app app
  unfolding on_application_added
  added-Follows name v v' app watched fresh h r =
      let (named, can, (src, srcs, e)) = watched in
      let run =
        sym (
          added_eq url_parse giturls_parse get_source has_multiple_sources equal_source
            equal_sources v app can)
        ∙ h in
      let before =
        ap (λ n. known_as url_parse giturls_parse get_source has_multiple_sources n v r) named
        ∙ fresh r in
      ap (λ n. known_as url_parse giturls_parse get_source has_multiple_sources n v' r) (sym named)
      ∙ known_as-add_app url_parse giturls_parse get_source has_multiple_sources v v' app src srcs r
          e run
      ∙ ground (arith, before)

  updated-Follows :
      (name : Bytes) (v v' : VcsToArgoMap) (kept old new : Application)
      → IsWatched name old
      → IsWatched name new
      → ((a b : Option Source) → equal_source a b ≡ true → a ≡ b)
      → ((a b : List Source) → equal_sources a b ≡ true → a ≡ b)
      → Follows name v kept old
      → on_application_updated url_parse giturls_parse get_source has_multiple_sources equal_source
          equal_sources v
          (some old)
          (some new)
        ≡ some v'
      → Follows name v'
          (if is_changed url_parse giturls_parse get_source has_multiple_sources equal_source
              equal_sources old new
            then new
            else kept)
          new
  unfolding on_application_updated
  updated-Follows name v v' kept old new wo wn eq_source eq_sources follows h r =
      let (named, can, (src, srcs, e)) = wn in
      let same = wo.0 ∙ sym named in
      let run =
        sym (
          updated_eq url_parse giturls_parse get_source has_multiple_sources equal_source
            equal_sources v old new wo.1 can)
        ∙ h in
      elim (Bool-cases (
        is_changed url_parse giturls_parse get_source has_multiple_sources equal_source
          equal_sources old new)) [
            | inr same_sources ↦
                let equal =
                  not_changed url_parse giturls_parse get_source has_multiple_sources equal_source
                    equal_sources old new eq_source eq_sources same_sources in
                let stays : some v ≡ some v' = sym (rw same_sources refl) ∙ run in
                let same_map : v ≡ v' = cc in
                rw same_sources (
                  ap
                    (λ u. known_as url_parse giturls_parse get_source has_multiple_sources name u r)
                    (sym same_map)
                  ∙ follows r
                  ∙ ap (λ srcs. if in_repo url_parse giturls_parse r srcs then some kept else none)
                      equal)
            | inl changed ↦ rw changed (
                let before =
                  ap (λ n. known_as url_parse giturls_parse get_source has_multiple_sources n v r)
                    named
                  ∙ follows r in
                ap (λ n. known_as url_parse giturls_parse get_source has_multiple_sources n v' r)
                  (sym named)
                ∙ known_as-update_app url_parse giturls_parse get_source has_multiple_sources v v'
                    old new src srcs r same e (sym (rw changed refl) ∙ run)
                ∙ ap
                    (known_after new (in_repo url_parse giturls_parse r (all_sources old))
                      (in_repo url_parse giturls_parse r (all_sources new)))
                    before
                ∙ known_after_follows kept new _ _)
          ]

  watch_updates-Follows :
      (name : Bytes) (v v' : VcsToArgoMap) (kept app : Application) (news : List Application)
      → IsWatched name app
      → All (IsWatched name) news
      → ((a b : Option Source) → equal_source a b ≡ true → a ≡ b)
      → ((a b : List Source) → equal_sources a b ≡ true → a ≡ b)
      → Follows name v kept app
      → watch_updates url_parse giturls_parse get_source has_multiple_sources equal_source
          equal_sources v app news
        ≡ some v'
      → Follows name v' (standing kept app news) (last_of app news)
  unfolding watch_updates standing
  watch_updates-Follows name v v' kept app [] watched all eq_source eq_sources follows h =
      let same_map : v ≡ v' = cc in subst (λ u. Follows name u kept app) same_map follows
  watch_updates-Follows name v v' kept app (new ∷ news) watched all eq_source eq_sources follows h =
      elim (Option-cases (
        on_application_updated url_parse giturls_parse get_source has_multiple_sources equal_source
          equal_sources v (some app) (some new))) [
            | inl panic ↦ absurd (ground arith)
            | inr (w, done) ↦
                watch_updates-Follows name w v'
                  (if is_changed url_parse giturls_parse get_source has_multiple_sources
                      equal_source equal_sources app new
                    then new
                    else kept)
                  new news all.0 all.1 eq_source eq_sources
                  (updated-Follows name v w kept app new watched all.0 eq_source eq_sources follows
                    done)
                  (ground arith)
          ]

  pub watch-Follows :
      (name : Bytes) (v v' : VcsToArgoMap) (app : Application) (news : List Application)
      → All (IsWatched name) (app ∷ news)
      → ((a b : Option Source) → equal_source a b ≡ true → a ≡ b)
      → ((a b : List Source) → equal_sources a b ≡ true → a ≡ b)
      → ((r : RepoUrl)
          → known_as url_parse giturls_parse get_source has_multiple_sources name v r ≡ none)
      → watch url_parse giturls_parse get_source has_multiple_sources equal_source equal_sources v
          app news
        ≡ some v'
      → Follows name v' (standing app app news) (last_of app news)
  unfolding watch
  watch-Follows name v v' app news (watched, all) eq_source eq_sources fresh h =
      elim (Option-cases (
        on_application_added url_parse giturls_parse get_source has_multiple_sources equal_source
          equal_sources v (some app))) [
            | inl panic ↦ absurd (ground arith)
            | inr (w, done) ↦
                watch_updates-Follows name w v' app app news watched all eq_source eq_sources
                  (added-Follows name v w app watched fresh done) (ground arith)
          ]

  -- When the application is deleted then, no repository knows it any more.
  pub deleted-Follows :
      (name : Bytes) (v v' : VcsToArgoMap) (kept app : Application) (r : RepoUrl)
      → IsWatched name app
      → Follows name v kept app
      → on_application_deleted url_parse giturls_parse get_source has_multiple_sources equal_source
          equal_sources v
          (some app)
        ≡ some v'
      → known_as url_parse giturls_parse get_source has_multiple_sources name v' r ≡ none
  deleted-Follows name v v' kept app r (named, can, has) follows h =
      let run =
        sym (
          deleted_eq url_parse giturls_parse get_source has_multiple_sources equal_source
            equal_sources v app can)
        ∙ h in
      ap (λ n. known_as url_parse giturls_parse get_source has_multiple_sources n v' r) (sym named)
      ∙ known_as-delete_app url_parse giturls_parse get_source has_multiple_sources v v' app r run
      ∙ gone_after kept (in_repo url_parse giturls_parse r (all_sources app)) _ (
          ap (λ n. known_as url_parse giturls_parse get_source has_multiple_sources n v r) named
          ∙ follows r)
