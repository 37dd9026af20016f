-- ===== src/Archive.antt =====
-- pkg/archive/cache.go: archives that are downloaded once and kept while they are used. Time is an
-- argument, in the unit of the TTL. The calls of `os.RemoveAll` are kept as a trace; its errors are
-- only logged. Metrics and the tickers that call the cleanup are left out.
pub mod Cleanup
pub mod Leases
pub mod Holding
pub mod Attempts
pub mod Urls
pub mod Manager
use kubechecks.Common.{
  ℕ, zero, suc, ◌+◌, ◌-◌, ◌%◌, ◌^◌, Bytes, Bool, true, false, ◌&&◌, ◌||◌, not, List, [], ◌∷◌, ◌++◌,
  Option, none, some, lookup, insert, delete, bytes_instance, ltb, leb, ◌==◌, if◌then◌else◌,
}

-- `refCount` is an `int32`, kept as its bit pattern.
pub record CacheEntry : Type 0 where
  pub extracted_path : Bytes
  pub last_used : ℕ
  pub ref_count : ℕ

pub record Cache : Type 0 where
  pub entries : List (Bytes × CacheEntry)
  pub ttl : ℕ
  -- The paths that were removed from disk, oldest first.
  pub removed : List Bytes

-- `NewCache`, with `hour` for `1 * time.Hour`
unfoldable pub new_cache : ℕ → ℕ → Cache
new_cache hour ttl = record { entries = []; ttl = (if ttl == 0 then hour else ttl); removed = [] }

-- `refCount++` in 32 bits
unfoldable pub inc32 : ℕ → ℕ
inc32 n = (n + 1) % 2 ^ 32

-- `refCount > 0` of the signed number
unfoldable pub positive32 : ℕ → Bool
positive32 n = ltb 0 n && ltb n (2 ^ 31)

unfoldable pub acquire : Cache → Bytes → ℕ → Option Bytes × Cache
unfolding inc32
acquire c sha now = elim (lookup sha c.entries) [
  | none ↦ (none, c)
  | some entry ↦ (
    some entry.extracted_path,
    record c {
      entries =
          insert sha (record entry { ref_count = inc32 entry.ref_count; last_used = now })
            c.entries;
    },
  )
]

unfoldable pub release : Cache → Bytes → ℕ → Cache
unfolding positive32
release c sha now = elim (lookup sha c.entries) [
  | none ↦ c
  | some entry ↦ record c {
    entries =
        insert sha
          (record entry {
            ref_count =
                (if positive32 entry.ref_count then entry.ref_count - 1 else entry.ref_count);
            last_used = now;
          })
          c.entries;
  }
]

-- `now.Sub(entry.lastUsed) > c.ttl`, and nobody uses the entry.
unfoldable pub is_stale : ℕ → ℕ → CacheEntry → Bool
unfolding positive32
is_stale ttl now entry = not (positive32 entry.ref_count) && ltb (entry.last_used + ttl) now

-- One round of the loop of `cleanupStaleArchives`, at a key of the map.
unfoldable pub cleanup_entry : ℕ → Cache → Bytes → Cache
unfolding is_stale
cleanup_entry now c key = elim (lookup key c.entries) [
  | none ↦ c
  | some entry ↦
      if is_stale c.ttl now entry
      then record c {
        entries = delete key c.entries;
        removed = c.removed ++ entry.extracted_path ∷ [];
      }
      else c
]

unfoldable pub cleanup_keys : ℕ → Cache → List Bytes → Cache
unfolding cleanup_entry
cleanup_keys now c [] = c
cleanup_keys now c (key ∷ keys) = cleanup_keys now (cleanup_entry now c key) keys

unfoldable pub keys_of : List (Bytes × CacheEntry) → List Bytes
keys_of [] = []
keys_of ((k, e) ∷ m) = k ∷ keys_of m

unfoldable pub cleanup_stale_archives : Cache → ℕ → Cache
unfolding cleanup_keys keys_of
cleanup_stale_archives c now = cleanup_keys now c (keys_of c.entries)

-- pkg/archive/download.go: what a download can fail with.
pub data DownloadError : Type 0 where
  http : ℕ → DownloadError
  extraction : DownloadError
  network : DownloadError
  evicted : DownloadError

-- `isRetriableDownloadError`; the first argument says whether the context has ended.
unfoldable pub is_retriable : Bool → DownloadError → Bool
is_retriable true e = false
is_retriable false (http sc) = sc == 404 || sc == 429 || leb 500 sc
is_retriable false extraction = false
is_retriable false network = true
is_retriable false evicted = true

pub data Fetched : Type 0 where
  fetched : Bytes → Fetched
  failed : DownloadError → Fetched

-- What one attempt meets: whether the context ends the backoff before it, the result of
-- `DownloadAndExtract`, what other callers do to the cache before this one takes its reference, and
-- whether the context has ended by then.
pub record Attempt : Type 0 where
  pub interrupted : Bool
  pub download : Fetched
  pub others : Cache → Cache
  pub ctx_ended : Bool
  pub now : ℕ

pub data Failure : Type 0 where
  gave_up : DownloadError → Failure
  retry_interrupted : Failure

pub data Outcome : Type 0 where
  path : Bytes → Outcome
  failure : Failure → Outcome

-- The function that the single flight runs: a second look, the removal of what a failed attempt
-- left, the download, and the entry for it.
unfoldable pub flight : Bytes → Bytes → Cache → Attempt → Fetched × Cache
flight target_dir sha c a =
    let cleared = record c { removed = c.removed ++ target_dir ∷ [] } in
    elim (lookup sha c.entries) [
      | some entry ↦ (fetched entry.extracted_path, c)
      | none ↦ elim a.download [
        | failed e ↦ (failed e, cleared)
        | fetched p ↦ (
          fetched p,
          record cleared {
            entries =
                insert sha (record { extracted_path = p; last_used = a.now; ref_count = 0 })
                  c.entries;
          },
        )
      ]
    ]

-- One attempt behind its backoff, with the reference taken.
unfoldable pub attempt_once : Bytes → Bytes → Cache → Attempt → Fetched × Cache
unfolding flight acquire
attempt_once target_dir sha c a =
    let (got, c') = flight target_dir sha c a in
    let (held, c'') = acquire (a.others c') sha a.now in
    elim got [
      | failed e ↦ (failed e, a.others c')
      | fetched p ↦ elim held [ none ↦ (failed evicted, c'') | some _ ↦ (fetched p, c'') ]
    ]

-- The removal behind the loop.
unfoldable pub give_up : Bytes → Cache → DownloadError → Outcome × Cache
give_up target_dir c e = (failure (gave_up e), record c { removed = c.removed ++ target_dir ∷ [] })

-- The loop over the attempts; the first has no backoff. `maxDownloadAttempts` of them are left.
unfoldable pub attempts :
    Bytes → Bytes → Cache → Bool → DownloadError → List Attempt → Outcome × Cache
attempts target_dir sha c first last_err [] = give_up target_dir c last_err
attempts target_dir sha c first last_err (a ∷ more) =
    let (got, c') = attempt_once target_dir sha c a in
    let stopped : Outcome × Cache = (failure retry_interrupted, c) in
    if not first && a.interrupted then stopped else elim got [
      | fetched p ↦ (path p, c')
      | failed e ↦ elim (is_retriable a.ctx_ended e) [
        | true ↦ attempts target_dir sha c' false e more
        | false ↦ give_up target_dir c' e
      ]
    ]

-- `GetOrDownload`: the attempts are the three that it makes, as far as it gets.
unfoldable pub get_or_download :
    Bytes → Cache → Bytes → ℕ → Attempt → Attempt → Attempt → Outcome × Cache
unfolding attempts
get_or_download target_dir c sha now a1 a2 a3 =
    let (hit, c') = acquire c sha now in
    elim hit [
      | some p ↦ (path p, c')
      | none ↦ attempts target_dir sha c true evicted (a1 ∷ a2 ∷ a3 ∷ [])
    ]
