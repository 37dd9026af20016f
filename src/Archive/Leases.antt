-- ===== src/Archive/Leases.antt =====
-- pkg/archive/cache.go: an archive stays where it is while a caller holds a reference to it.
use kubechecks.Common.{
  ℕ, ◌+◌, ◌-◌, ◌^◌, ◌%◌, Bytes, Bool, true, ◌&&◌, List, [], ◌∷◌, Option, none, some, ◌≡◌, refl,
  lookup, lookup-insert, bytes_eq, bytes_eq_iff, bytes_instance, ltb, if◌then◌else◌, arith,
  Option-cases, inl, inr, ◌⊎◌,
}
use kubechecks.Archive.{
  Cache, Attempt, DownloadError, Fetched, fetched, failed, is_stale, positive32, inc32, acquire,
  release, flight, cleanup_stale_archives,
}
use kubechecks.Archive.Cleanup.{lookup-cleanup_stale_archives}

-- What happens to a cache: a caller takes a reference or gives one back, a flight looks at the
-- cache and downloads what it lacks, the ticker cleans up.
pub data Use : Type 0 where
  acquires : Bytes → ℕ → Use
  releases : Bytes → ℕ → Use
  flies : Bytes → Bytes → Attempt → Use
  cleans : ℕ → Use

unfoldable pub use_once : Cache → Use → Cache
use_once c (acquires sha now) = (acquire c sha now).1
use_once c (releases sha now) = release c sha now
use_once c (flies dir sha a) = (flight dir sha c a).1
use_once c (cleans now) = cleanup_stale_archives c now

unfoldable pub use_all : Cache → List Use → Cache
unfolding use_once
use_all c [] = c
use_all c (u ∷ us) = use_all (use_once c u) us

-- The reference count of an archive after a use, from the one before it.
unfoldable pub count_once : Bytes → ℕ → Use → ℕ
count_once k n (acquires sha now) = if bytes_eq sha k then n + 1 else n
count_once k n (releases sha now) = if bytes_eq sha k then n - 1 else n
count_once k n (flies dir sha a) = n
count_once k n (cleans now) = n

unfoldable pub count_all : Bytes → ℕ → List Use → ℕ
count_all k n [] = n
count_all k n (u ∷ us) = count_all k (count_once k n u) us

-- Some caller holds the archive all the time: the count, which starts at n, stays above 0, and in
-- the range of an `int32`.
unfoldable pub is_held : Bytes → ℕ → List Use → Bool
unfolding count_once
is_held k n [] = ltb 0 n && ltb n (2 ^ 31)
is_held k n (u ∷ us) = ltb 0 n && ltb n (2 ^ 31) && is_held k (count_once k n u) us

-- Where the archive is, and its reference count.
unfoldable pub place : Bytes → Cache → Option (Bytes × ℕ)
place k c = elim (lookup k c.entries) [
  | none ↦ none
  | some e ↦ some (e.extracted_path, e.ref_count)
]

pub Fetched-cases :
    (f : Fetched) → ((p : Bytes) × (f ≡ fetched p)) ⊎ ((e : DownloadError) × (f ≡ failed e))
Fetched-cases (fetched p) = inl (p, refl)
Fetched-cases (failed e) = inr (e, refl)

is_held-now :
    (k : Bytes) (n : ℕ) (us : List Use)
    → is_held k n us ≡ true
    → (ltb 0 n ≡ true) × (ltb n (2 ^ 31) ≡ true)
unfolding is_held
is_held-now k n [] h = ground arith
is_held-now k n (u ∷ us) h = ground arith

place-acquire :
    (k sha p : Bytes) (n now : ℕ) (c : Cache)
    → place k c ≡ some (p, n)
    → ltb n (2 ^ 31) ≡ true
    → place k (acquire c sha now).1 ≡ some (p, (if bytes_eq sha k then n + 1 else n))
unfolding place acquire inc32
place-acquire k sha p n now c e h = elim (Option-cases (lookup sha c.entries)) [
  | inl none_there ↦ ground (arith, bytes_eq_iff sha k)
  | inr (v, there) ↦ ground (
    arith,
    bytes_eq_iff sha k,
    lookup-insert sha k (record v { ref_count = (v.ref_count + 1) % 2 ^ 32; last_used = now })
        c.entries,
  )
]

place-release :
    (k sha p : Bytes) (n now : ℕ) (c : Cache)
    → place k c ≡ some (p, n)
    → ltb 0 n ≡ true
    → ltb n (2 ^ 31) ≡ true
    → place k (release c sha now) ≡ some (p, (if bytes_eq sha k then n - 1 else n))
unfolding place release positive32
place-release k sha p n now c e h h' = elim (Option-cases (lookup sha c.entries)) [
  | inl none_there ↦ ground (arith, bytes_eq_iff sha k)
  | inr (v, there) ↦ ground (
    arith,
    bytes_eq_iff sha k,
    lookup-insert sha k
        (record v {
          ref_count = (if positive32 v.ref_count then v.ref_count - 1 else v.ref_count);
          last_used = now;
        })
        c.entries,
  )
]

place-flight :
    (k dir sha p : Bytes) (n : ℕ) (a : Attempt) (c : Cache)
    → place k c ≡ some (p, n)
    → place k (flight dir sha c a).1 ≡ some (p, n)
unfolding place flight
place-flight k dir sha p n a c e = elim (Fetched-cases a.download) [
  | inl (q, got) ↦ ground (
    arith,
    bytes_eq_iff sha k,
    lookup-insert sha k (record { extracted_path = q; last_used = a.now; ref_count = 0 }) c.entries,
  )
  | inr (err, lost) ↦ ground (arith, bytes_eq_iff sha k)
]

place-cleanup :
    (k p : Bytes) (n now : ℕ) (c : Cache)
    → place k c ≡ some (p, n)
    → ltb 0 n ≡ true
    → ltb n (2 ^ 31) ≡ true
    → place k (cleanup_stale_archives c now) ≡ some (p, n)
unfolding place is_stale positive32
place-cleanup k p n now c e h h' = ground (arith, lookup-cleanup_stale_archives c now k)

place-use_once :
    (k p : Bytes) (n : ℕ) (c : Cache) (u : Use)
    → place k c ≡ some (p, n)
    → ltb 0 n ≡ true
    → ltb n (2 ^ 31) ≡ true
    → place k (use_once c u) ≡ some (p, count_once k n u)
unfolding use_once count_once
place-use_once k p n c (acquires sha now) e h h' = place-acquire k sha p n now c e h'
place-use_once k p n c (releases sha now) e h h' = place-release k sha p n now c e h h'
place-use_once k p n c (flies dir sha a) e h h' = place-flight k dir sha p n a c e
place-use_once k p n c (cleans now) e h h' = place-cleanup k p n now c e h h'

-- An archive that some caller holds all the time stays in the cache under the path it has,
-- whatever others acquire, release, download or clean up: no cleanup removes it.
pub place-use_all :
    (k p : Bytes) (n : ℕ) (c : Cache) (us : List Use)
    → place k c ≡ some (p, n)
    → is_held k n us ≡ true
    → place k (use_all c us) ≡ some (p, count_all k n us)
unfolding use_all is_held count_all
place-use_all k p n c [] e h = e
place-use_all k p n c (u ∷ us) e h =
    let now = is_held-now k n (u ∷ us) h in
    place-use_all k p (count_once k n u) (use_once c u) us (place-use_once k p n c u e now.0 now.1)
      (ground arith)
