-- ===== src/VcsMap/Sources.antt =====
-- pkg/appdir/vcstoargomap.go: an operation on the directories of the sources of an application.
use kubechecks.Common.{
  Bytes, Bool, true, false, ◌||◌, List, [], ◌∷◌, Option, some, lookup-insert, key-cases,
  if◌then◌else◌, ◌≡◌, refl, sym, ap, subst, ◌∙◌, Option-cases, inl, inr, bytes_instance, arith,
}
use kubechecks.RepoUrl.{Url, RepoUrl}
use kubechecks.AppDir.{Source, AppDirectory}
use kubechecks.VcsMap.{
  VcsToArgoMap, repo_eq, repo_eq_iff, repo_instance, directory_of, store, repo_of, at_repo,
  process_sources,
}

pub directory_of-store :
    (v : VcsToArgoMap) (repo r : RepoUrl) (d : AppDirectory)
    → directory_of (store v repo d) r ≡ (if repo_eq repo r then d else directory_of v r)
unfolding directory_of store
directory_of-store v repo r d =
    ground (arith, repo_eq_iff repo r, lookup-insert repo r d v.app_dir_by_repo)

module _ (url_parse giturls_parse : Bytes → Option Url) where
  abbrev key_of : Source → RepoUrl
  key_of src = repo_of url_parse giturls_parse src.repo_url

  -- Whether one of the sources is in a repository.
  unfoldable pub in_repo : RepoUrl → List Source → Bool
  in_repo r [] = false
  in_repo r (src ∷ srcs) =
      repo_eq (repo_of url_parse giturls_parse src.repo_url) r || in_repo r srcs

  module _ (fn : AppDirectory → Option AppDirectory) where
    at_repo-some :
        (v v' : VcsToArgoMap) (src : Source)
        → at_repo url_parse giturls_parse fn v src.repo_url ≡ some v'
        → (d : AppDirectory) × (fn (directory_of v (key_of src)) ≡ some d)
          × (v' ≡ store v (key_of src) d)
    unfolding at_repo
    at_repo-some v v' src h = elim (Option-cases (fn (directory_of v (key_of src)))) [
      | inl panic ↦ absurd (ground arith)
      | inr (d, done) ↦ (d, done, ground arith)
    ]

    after_store :
        (v w : VcsToArgoMap) (src : Source) (r : RepoUrl) (d : AppDirectory)
        → w ≡ store v (key_of src) d
        → directory_of w r ≡ (if repo_eq (key_of src) r then d else directory_of v r)
    after_store v w src r d stored =
        ap (λ u. directory_of u r) stored ∙ directory_of-store v (key_of src) r d

    process_sources-some :
        (v v' : VcsToArgoMap) (src : Source) (srcs : List Source)
        → process_sources url_parse giturls_parse fn v (src ∷ srcs) ≡ some v'
        → (w : VcsToArgoMap) × (at_repo url_parse giturls_parse fn v src.repo_url ≡ some w)
          × (process_sources url_parse giturls_parse fn w srcs ≡ some v')
    unfolding process_sources
    process_sources-some v v' src srcs h =
        elim (Option-cases (at_repo url_parse giturls_parse fn v src.repo_url)) [
          | inl panic ↦ absurd (ground arith)
          | inr (w, done) ↦ (w, done, ground arith)
        ]

    -- The directories of other repositories stay.
    pub directory_of_other :
        (v v' : VcsToArgoMap) (srcs : List Source) (r : RepoUrl)
        → process_sources url_parse giturls_parse fn v srcs ≡ some v'
        → in_repo r srcs ≡ false
        → directory_of v' r ≡ directory_of v r
    unfolding in_repo process_sources
    directory_of_other v v' [] r h other = ground arith
    directory_of_other v v' (src ∷ srcs) r h other =
        let (w, first, rest) = process_sources-some v v' src srcs h in
        let (d, done, stored) = at_repo-some v w src first in
        directory_of_other w v' srcs r rest (ground arith)
        ∙ ground (arith, after_store v w src r d stored)

    -- What the operation keeps holds of every directory on.
    directory_of_kept :
        (P : AppDirectory → Type 0) (v v' : VcsToArgoMap) (srcs : List Source) (r : RepoUrl)
        → ((d d' : AppDirectory) → P d → fn d ≡ some d' → P d')
        → process_sources url_parse giturls_parse fn v srcs ≡ some v'
        → P (directory_of v r)
        → P (directory_of v' r)
    unfolding process_sources
    directory_of_kept P v v' [] r again h p =
        let same : v ≡ v' = ground arith in subst (λ u. P (directory_of u r)) same p
    directory_of_kept P v v' (src ∷ srcs) r again h p =
        let (w, first, rest) = process_sources-some v v' src srcs h in
        let (d, done, stored) = at_repo-some v w src first in
        directory_of_kept P w v' srcs r again rest (elim (key-cases (key_of src) r) [
          | inl (same, hit) ↦
              subst P (sym (after_store v w src r d stored ∙ rw hit refl))
                (again (directory_of v r) d p (ap (λ k. fn (directory_of v k)) (sym same) ∙ done))
          | inr (differ, other) ↦ subst P (sym (after_store v w src r d stored ∙ rw other refl)) p
        ])

    -- What holds of a directory behind the operation, and what the operation keeps, holds of the
    -- directories of all sources.
    pub directory_of_own :
        (P : AppDirectory → Type 0) (v v' : VcsToArgoMap) (srcs : List Source) (r : RepoUrl)
        → ((d : AppDirectory) → fn (directory_of v r) ≡ some d → P d)
        → ((d d' : AppDirectory) → P d → fn d ≡ some d' → P d')
        → process_sources url_parse giturls_parse fn v srcs ≡ some v'
        → in_repo r srcs ≡ true
        → P (directory_of v' r)
    unfolding in_repo
    directory_of_own P v v' [] r start again h own = absurd (ground arith)
    directory_of_own P v v' (src ∷ srcs) r start again h own =
        let (w, first, rest) = process_sources-some v v' src srcs h in
        let (d, done, stored) = at_repo-some v w src first in
        elim (key-cases (key_of src) r) [
          | inl (same, hit) ↦ directory_of_kept P w v' srcs r again rest (
              subst P (sym (after_store v w src r d stored ∙ rw hit refl))
                (start d (ap (λ k. fn (directory_of v k)) (sym same) ∙ done)))
          | inr (differ, other) ↦
              directory_of_own P w v' srcs r
                (λ e run.
                  start e (ap fn (sym (after_store v w src r d stored ∙ rw other refl)) ∙ run))
                again rest (ground arith)
        ]

    -- An operation that does not panic does not panic on the directories of any sources.
    pub process_sources_total :
        ((d : AppDirectory) → (d' : AppDirectory) × (fn d ≡ some d'))
        → (v : VcsToArgoMap) (srcs : List Source)
        → (v' : VcsToArgoMap) × (process_sources url_parse giturls_parse fn v srcs ≡ some v')
    unfolding process_sources at_repo
    process_sources_total total v [] = (v, refl)
    process_sources_total total v (src ∷ srcs) =
        let (d, done) = total (directory_of v (key_of src)) in
        let (v', rest) = process_sources_total total (store v (key_of src) d) srcs in
        (v', ground (arith, done, rest))
