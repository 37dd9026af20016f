-- ===== src/Archive/Holding.antt =====
-- pkg/archive/cache.go: a call of `GetOrDownload` that returns an archive holds a reference to it.
use kubechecks.Common.{
  ℕ, ◌+◌, ◌<◌, ◌^◌, ◌%◌, Bytes, Bool, true, false, ◌&&◌, not, List, [], ◌∷◌, Option, none, some,
  lookup, lookup-insert, bytes_eq_iff, bytes_instance, ◌≡◌, refl, sym, subst, All, ap, ◌∙◌, arith,
  Option-cases, Bool-cases, inl, inr,
}
use kubechecks.Archive.{
  Cache, CacheEntry, Attempt, DownloadError, Fetched, fetched, failed, path, evicted, inc32,
  acquire, flight, attempt_once, attempts, give_up, is_retriable, get_or_download,
}
use kubechecks.Archive.Leases.{place, is_held, Fetched-cases}

-- The branches of the loop that go on, or end with an archive.
module _ (dir sha : Bytes) (c : Cache) (is_first : Bool) (err : DownloadError) (a : Attempt)
    (more : List Attempt) where
  attempts_fetched :
      (p : Bytes)
      → (not is_first && a.interrupted) ≡ false
      → (attempt_once dir sha c a).0 ≡ fetched p
      → attempts dir sha c is_first err (a ∷ more) ≡ (path p, (attempt_once dir sha c a).1)
  unfolding attempts
  attempts_fetched p on got = rw (attempts, on, got) refl

  attempts_retried :
      (e : DownloadError)
      → (not is_first && a.interrupted) ≡ false
      → (attempt_once dir sha c a).0 ≡ failed e
      → is_retriable a.ctx_ended e ≡ true
      → attempts dir sha c is_first err (a ∷ more)
        ≡ attempts dir sha (attempt_once dir sha c a).1 false e more
  unfolding attempts
  attempts_retried e on lost again = rw (attempts, on, lost, again) refl

-- The branches of an attempt, with the flight and what the acquisition behind it makes of the cache.
module _ (dir sha : Bytes) (c : Cache) (a : Attempt) where
  flown : Fetched × Cache
  flown = flight dir sha c a

  taken : Option Bytes × Cache
  unfolding flown
  taken = acquire (a.others flown.1) sha a.now

  attempt_once_failed :
      (e : DownloadError)
      → flown.0 ≡ failed e
      → attempt_once dir sha c a ≡ (failed e, a.others flown.1)
  unfolding attempt_once flown
  attempt_once_failed e h = rw (attempt_once, h) refl

  attempt_once_fetched :
      (p : Bytes)
      → flown.0 ≡ fetched p
      → attempt_once dir sha c a
        ≡ (elim taken.0 [ none ↦ (failed evicted, taken.1) | some _ ↦ (fetched p, taken.1) ])
  unfolding attempt_once flown taken
  attempt_once_fetched p h = rw (attempt_once, h) refl

-- Where the archive of a commit is extracted.
module _ (location : Bytes → Bytes) where
  -- Every archive is where its commit has it, and the count of its references is not at the end of
  -- an `int32`.
  abbrev pub Sound : Cache → Type 0
  Sound c =
      (sha : Bytes) (e : CacheEntry)
      → lookup sha c.entries ≡ some e
      → (e.extracted_path ≡ location sha) × (e.ref_count + 1 < 2 ^ 31)

  abbrev pub Meets : Bytes → Attempt → Type 0
  Meets sha a =
      ((p : Bytes) → a.download ≡ fetched p → p ≡ location sha)
      × ((c : Cache) → Sound c → Sound (a.others c))

  -- A cache in which somebody holds the archive of a commit.
  abbrev pub Held : Bytes → Cache → Type 0
  Held sha c = (n : ℕ) × (place sha c ≡ some (location sha, n)) × (is_held sha n [] ≡ true)

  acquire-Held :
      (c : Cache) (sha p : Bytes) (now : ℕ)
      → Sound c
      → (acquire c sha now).0 ≡ some p
      → (p ≡ location sha) × Held sha (acquire c sha now).1
  unfolding acquire place is_held inc32
  acquire-Held c sha p now sound h = elim (Option-cases (lookup sha c.entries)) [
    | inl missing ↦ absurd (ground arith)
    | inr (e, there) ↦
        let (located, small) = sound sha e there in
        (
          ground arith,
          (
            e.ref_count + 1,
            ground (
              arith,
              bytes_eq_iff sha sha,
              lookup-insert sha sha
                  (record e { ref_count = (e.ref_count + 1) % 2 ^ 32; last_used = now }) c.entries,
            ),
            ground arith,
          ),
        )
  ]

  acquire_missing :
      (c : Cache) (sha : Bytes) (now : ℕ) → (acquire c sha now).0 ≡ none → (acquire c sha now).1 ≡ c
  unfolding acquire
  acquire_missing c sha now h = elim (Option-cases (lookup sha c.entries)) [
    | inl missing ↦ rw (acquire, missing) refl
    | inr (e, there) ↦ absurd (ground arith)
  ]

  flight-Sound :
      (dir sha : Bytes) (c : Cache) (a : Attempt)
      → Sound c
      → Meets sha a
      → Sound (flight dir sha c a).1
  unfolding flight
  flight-Sound dir sha c a sound meets k e h = elim (Option-cases (lookup sha c.entries)) [
    | inr (v, there) ↦ ground (arith, sound k e)
    | inl missing ↦ elim (Fetched-cases a.download) [
      | inr (err, lost) ↦ ground (arith, sound k e)
      | inl (p, got) ↦ ground (
        arith,
        sound k e,
        meets.0 p got,
        bytes_eq_iff sha k,
        lookup-insert sha k (record { extracted_path = p; last_used = a.now; ref_count = 0 })
            c.entries,
      )
    ]
  ]

  flight-located :
      (dir sha p : Bytes) (c : Cache) (a : Attempt)
      → Sound c
      → Meets sha a
      → (flight dir sha c a).0 ≡ fetched p
      → p ≡ location sha
  unfolding flight
  flight-located dir sha p c a sound meets h = elim (Option-cases (lookup sha c.entries)) [
    | inr (v, there) ↦ ground (arith, sound sha v there)
    | inl missing ↦ elim (Fetched-cases a.download) [
      | inr (err, lost) ↦ absurd (ground arith)
      | inl (q, got) ↦ ground (arith, meets.0 q got)
    ]
  ]

  attempt_once-Held :
      (dir sha p : Bytes) (c : Cache) (a : Attempt)
      → Sound c
      → Meets sha a
      → (attempt_once dir sha c a).0 ≡ fetched p
      → (p ≡ location sha) × Held sha (attempt_once dir sha c a).1
  unfolding flown taken
  attempt_once-Held dir sha p c a sound meets h =
      let others = meets.1 (flown dir sha c a).1 (flight-Sound dir sha c a sound meets) in
      elim (Fetched-cases (flown dir sha c a).0) [
        | inr (e, lost) ↦ absurd (ground (arith, attempt_once_failed dir sha c a e lost))
        | inl (q, got) ↦ elim (Option-cases (taken dir sha c a).0) [
          | inl gone ↦ absurd (ground (arith, attempt_once_fetched dir sha c a q got))
          | inr (r, held) ↦
              let done : attempt_once dir sha c a ≡ (fetched q, (taken dir sha c a).1) =
                attempt_once_fetched dir sha c a q got ∙ rw held refl in
              (
                ground (arith, done, flight-located dir sha q c a sound meets got),
                subst (λ x. Held sha x.1) (sym done)
                    (acquire-Held (a.others (flown dir sha c a).1) sha r a.now others held).1,
              )
        ]
      ]

  attempt_once-Sound :
      (dir sha : Bytes) (e : DownloadError) (c : Cache) (a : Attempt)
      → Sound c
      → Meets sha a
      → (attempt_once dir sha c a).0 ≡ failed e
      → Sound (attempt_once dir sha c a).1
  unfolding flown taken
  attempt_once-Sound dir sha e c a sound meets h =
      let others = meets.1 (flown dir sha c a).1 (flight-Sound dir sha c a sound meets) in
      elim (Fetched-cases (flown dir sha c a).0) [
        | inr (e', lost) ↦
            subst (λ x. Sound x.1) (sym (attempt_once_failed dir sha c a e' lost)) others
        | inl (q, got) ↦ elim (Option-cases (taken dir sha c a).0) [
          | inr (r, held) ↦ absurd (ground (arith, attempt_once_fetched dir sha c a q got))
          | inl gone ↦
              let done : attempt_once dir sha c a ≡ (failed evicted, (taken dir sha c a).1) =
                attempt_once_fetched dir sha c a q got ∙ rw gone refl in
              subst (λ x. Sound x.1) (sym done)
                (subst Sound (sym (acquire_missing (a.others (flown dir sha c a).1) sha a.now gone))
                  others)
        ]
      ]

  attempts-Held :
      (dir sha p : Bytes) (c : Cache) (is_first : Bool) (err : DownloadError) (more : List Attempt)
      → Sound c
      → All (Meets sha) more
      → (attempts dir sha c is_first err more).0 ≡ path p
      → (p ≡ location sha) × Held sha (attempts dir sha c is_first err more).1
  unfolding attempts give_up
  attempts-Held dir sha p c is_first err [] sound meets h = absurd (ground arith)
  attempts-Held dir sha p c is_first err (a ∷ more) sound meets h =
      elim (Bool-cases (not is_first && a.interrupted)) [
        | inl stopped ↦ absurd (ground arith)
        | inr on ↦ elim (Fetched-cases (attempt_once dir sha c a).0) [
          | inl (q, got) ↦
              let done = attempts_fetched dir sha c is_first err a more q on got in
              let (located, held) = attempt_once-Held dir sha q c a sound meets.0 got in
              (ground (arith, done, located), subst (λ x. Held sha x.1) (sym done) held)
          | inr (e, lost) ↦ elim (Bool-cases (is_retriable a.ctx_ended e)) [
            | inr never ↦ absurd (ground arith)
            | inl again ↦
                let done = attempts_retried dir sha c is_first err a more e on lost again in
                subst (λ x. (p ≡ location sha) × Held sha x.1) (sym done)
                  (attempts-Held dir sha p (attempt_once dir sha c a).1 false e more
                    (attempt_once-Sound dir sha e c a sound meets.0 lost) meets.1
                    (sym (ap (λ x. x.0) done) ∙ h))
          ]
        ]
      ]

  pub get_or_download-Held :
      (dir sha p : Bytes) (c : Cache) (now : ℕ) (a1 a2 a3 : Attempt)
      → Sound c
      → All (Meets sha) (a1 ∷ a2 ∷ a3 ∷ [])
      → (get_or_download dir c sha now a1 a2 a3).0 ≡ path p
      → (p ≡ location sha) × Held sha (get_or_download dir c sha now a1 a2 a3).1
  unfolding get_or_download
  get_or_download-Held dir sha p c now a1 a2 a3 sound meets h =
      elim (Option-cases (acquire c sha now).0) [
        | inl miss ↦
            let done : get_or_download dir c sha now a1 a2 a3
                ≡ attempts dir sha c true evicted (a1 ∷ a2 ∷ a3 ∷ []) =
              rw (get_or_download, miss) refl in
            subst (λ x. (p ≡ location sha) × Held sha x.1) (sym done)
              (attempts-Held dir sha p c true evicted (a1 ∷ a2 ∷ a3 ∷ []) sound meets
                (sym (ap (λ x. x.0) done) ∙ h))
        | inr (q, hit) ↦
            let done : get_or_download dir c sha now a1 a2 a3 ≡ (path q, (acquire c sha now).1) =
              rw (get_or_download, hit) refl in
            let (located, held) = acquire-Held c sha q now sound hit in
            (ground (arith, done, located), subst (λ x. Held sha x.1) (sym done) held)
      ]
