-- ===== src/Archive/Attempts.antt =====
-- pkg/archive/cache.go: what a call of `GetOrDownload` leaves behind.
use kubechecks.Common.{
  ap, ◌∙◌, ℕ, suc, lookup, bytes_instance, Bytes, true, false, List, [], ◌∷◌, ◌++◌, Option, none,
  some, ◌≡◌, refl,
}
use kubechecks.Archive.Leases.{place}
use kubechecks.Archive.{
  Cache, Attempt, DownloadError, path, failed, fetched, flight, is_retriable, failure, gave_up,
  evicted, acquire, attempt_once, give_up, attempts, get_or_download,
}

-- The last path that was removed from disk.
abbrev pub last_of : List Bytes → Option Bytes
last_of [] = none
last_of (p ∷ []) = some p
last_of (p ∷ (q ∷ ps)) = last_of (q ∷ ps)

last_of-snoc : (ps : List Bytes) (p : Bytes) → last_of (ps ++ p ∷ []) ≡ some p
last_of-snoc [] p = refl
last_of-snoc (q ∷ []) p = refl
last_of-snoc (q ∷ (r ∷ ps)) p = last_of-snoc (r ∷ ps) p

-- What a caller does who gives up after the first attempt, and what the others have done by then.
flight-failed :
    (dir sha : Bytes) (c : Cache) (e : DownloadError) (a : Attempt)
    → lookup sha c.entries ≡ none
    → a.download ≡ failed e
    → flight dir sha c a ≡ (failed e, record c { removed = c.removed ++ dir ∷ [] })
unfolding flight
flight-failed dir sha c e a miss fails = rw (flight, miss, fails) refl

attempt_once-failed :
    (dir sha : Bytes) (c d : Cache) (e : DownloadError) (a : Attempt)
    → flight dir sha c a ≡ (failed e, d)
    → attempt_once dir sha c a ≡ (failed e, a.others d)
unfolding attempt_once
attempt_once-failed dir sha c d e a run =
    ap
      (λ x. elim x.0 [
        | failed err ↦ (failed err, a.others x.1)
        | fetched p ↦ elim (acquire (a.others x.1) sha a.now).0 [
          | none ↦ (failed evicted, (acquire (a.others x.1) sha a.now).1)
          | some _ ↦ (fetched p, (acquire (a.others x.1) sha a.now).1)
        ]
      ])
      run

attempts_first :
    (dir sha : Bytes) (c : Cache) (last e : DownloadError) (a : Attempt) (more : List Attempt)
    → lookup sha c.entries ≡ none
    → a.download ≡ failed e
    → is_retriable a.ctx_ended e ≡ false
    → attempts dir sha c true last (a ∷ more)
      ≡ give_up dir (a.others (record c { removed = c.removed ++ dir ∷ [] })) e
unfolding attempts
attempts_first dir sha c last e a more miss fails gives_up =
    let once =
      attempt_once-failed dir sha c (record c { removed = c.removed ++ dir ∷ [] }) e a
        (flight-failed dir sha c e a miss fails) in
    ap
      (λ x. elim x.0 [
        | fetched p ↦ (path p, x.1)
        | failed err ↦ elim (is_retriable a.ctx_ended err) [
          | true ↦ attempts dir sha x.1 false err more
          | false ↦ give_up dir x.1 err
        ]
      ])
      once
    ∙ rw gives_up refl

get_or_download_missed :
    (dir : Bytes) (c : Cache) (sha : Bytes) (now : ℕ) (a1 a2 a3 : Attempt)
    → lookup sha c.entries ≡ none
    → get_or_download dir c sha now a1 a2 a3 ≡ attempts dir sha c true evicted (a1 ∷ a2 ∷ a3 ∷ [])
unfolding get_or_download acquire
get_or_download_missed dir c sha now a1 a2 a3 miss = rw (get_or_download, acquire, miss) refl

-- A caller finds no archive, downloads it and fails with an error that is not tried again; meanwhile
-- others have made the entry of the archive, with this directory and at least one reference. Then the
-- call gives up, the entry and its references are still there, and the directory of the archive is
-- what was removed from disk last.
pub get_or_download-gave_up :
    (dir : Bytes) (c : Cache) (sha : Bytes) (now : ℕ) (a1 a2 a3 : Attempt) (e : DownloadError)
    (n : ℕ)
    → lookup sha c.entries ≡ none
    → a1.download ≡ failed e
    → is_retriable a1.ctx_ended e ≡ false
    → place sha (a1.others (record c { removed = c.removed ++ dir ∷ [] })) ≡ some (dir, suc n)
    → ((get_or_download dir c sha now a1 a2 a3).0 ≡ failure (gave_up e))
      × (place sha (get_or_download dir c sha now a1 a2 a3).1 ≡ some (dir, suc n))
      × (last_of (get_or_download dir c sha now a1 a2 a3).1.removed ≡ some dir)
unfolding give_up place
get_or_download-gave_up dir c sha now a1 a2 a3 e n miss fails gives_up held =
    let c' = a1.others (record c { removed = c.removed ++ dir ∷ [] }) in
    let run =
      get_or_download_missed dir c sha now a1 a2 a3 miss
      ∙ attempts_first dir sha c evicted e a1 (a2 ∷ a3 ∷ []) miss fails gives_up in
    rw run (refl, held, last_of-snoc c'.removed dir)
