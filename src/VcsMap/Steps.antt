-- ===== src/VcsMap/Steps.antt =====
-- pkg/app_watcher: the events of applications that the watcher does not pass over.
use kubechecks.Common.{
  Bytes, Bool, true, false, not, ◌||◌, List, Option, some, if◌then◌else◌, ◌≡◌, refl, arith,
}
use kubechecks.RepoUrl.{Url}
use kubechecks.AppDir.{Source, Application}
use kubechecks.VcsMap.{VcsToArgoMap, all_sources, v2a_add_app, v2a_update_app, v2a_delete_app}
use kubechecks.VcsMap.Watching.{
  can_process_app, processable, on_application_added, on_application_updated,
  on_application_deleted,
}

processable-some :
    (app : Application) → can_process_app app ≡ true → processable (some app) ≡ some app
unfolding processable
processable-some app h = rw (processable, h) refl

module _ (url_parse giturls_parse : Bytes → Option Url) (get_source : Application → Source)
    (has_multiple_sources : Application → Bool)
    (equal_source : Option Source → Option Source → Bool)
    (equal_sources : List Source → List Source → Bool) where
  pub added_eq :
      (v : VcsToArgoMap) (app : Application)
      → can_process_app app ≡ true
      → on_application_added url_parse giturls_parse get_source has_multiple_sources equal_source
          equal_sources v
          (some app)
        ≡ v2a_add_app url_parse giturls_parse get_source has_multiple_sources v app
  unfolding on_application_added
  added_eq v app h = rw (on_application_added, processable-some app h) refl

  pub deleted_eq :
      (v : VcsToArgoMap) (app : Application)
      → can_process_app app ≡ true
      → on_application_deleted url_parse giturls_parse get_source has_multiple_sources equal_source
          equal_sources v
          (some app)
        ≡ v2a_delete_app url_parse giturls_parse get_source has_multiple_sources v app
  unfolding on_application_deleted
  deleted_eq v app h = rw (on_application_deleted, processable-some app h) refl

  unfoldable pub is_changed : Application → Application → Bool
  is_changed old new =
      not (equal_source old.source new.source) || not (equal_sources old.sources new.sources)

  pub updated_eq :
      (v : VcsToArgoMap) (old new : Application)
      → can_process_app old ≡ true
      → can_process_app new ≡ true
      → on_application_updated url_parse giturls_parse get_source has_multiple_sources equal_source
          equal_sources v
          (some old)
          (some new)
        ≡ (if is_changed old new
            then v2a_update_app url_parse giturls_parse get_source has_multiple_sources v old new
            else some v)
  unfolding on_application_updated is_changed
  updated_eq v old new ho hn =
      rw (on_application_updated, processable-some new hn, processable-some old ho) refl

  pub not_changed :
      (old new : Application)
      → ((a b : Option Source) → equal_source a b ≡ true → a ≡ b)
      → ((a b : List Source) → equal_sources a b ≡ true → a ≡ b)
      → is_changed old new ≡ false
      → all_sources old ≡ all_sources new
  unfolding is_changed all_sources
  not_changed old new eq_source eq_sources h =
      let one : old.source ≡ new.source = eq_source old.source new.source (ground arith) in
      let all : old.sources ≡ new.sources = eq_sources old.sources new.sources (ground arith) in
      ground arith
