-- ===== src/Archive/Cleanup.antt =====
-- pkg/archive/cache.go: what `cleanupStaleArchives` removes.
use kubechecks.Common.{
  ℕ, Bytes, Bool, true, false, List, [], ◌∷◌, Option, none, some, ◌≡◌, refl, lookup, lookup-delete,
  bytes_eq, bytes_eq_iff, bytes_instance, if◌then◌else◌, arith,
}
use kubechecks.Archive.{
  CacheEntry, Cache, is_stale, cleanup_entry, cleanup_keys, keys_of, cleanup_stale_archives,
}

-- What a cleanup leaves of what a key is mapped to: an entry that is not stale.
abbrev pub kept : ℕ → ℕ → Option CacheEntry → Option CacheEntry
kept ttl now none = none
kept ttl now (some e) = if is_stale ttl now e then none else some e

abbrev occurs : Bytes → List Bytes → Bool
occurs k [] = false
occurs k (j ∷ js) = if bytes_eq j k then true else occurs k js

lookup-cleanup_entry :
    (now : ℕ) (c : Cache) (key k : Bytes)
    → lookup k (cleanup_entry now c key).entries
      ≡ (if bytes_eq key k then kept c.ttl now (lookup k c.entries) else lookup k c.entries)
unfolding cleanup_entry
lookup-cleanup_entry now c key k = ground (arith, lookup-delete key k c.entries, bytes_eq_iff key k)

ttl-cleanup_entry : (now : ℕ) (c : Cache) (key : Bytes) → (cleanup_entry now c key).ttl ≡ c.ttl
unfolding cleanup_entry
ttl-cleanup_entry now c key = ground arith

kept_twice : (ttl now : ℕ) (o : Option CacheEntry) → kept ttl now (kept ttl now o) ≡ kept ttl now o
kept_twice ttl now none = refl
kept_twice ttl now (some e) = ground arith

lookup-cleanup_keys :
    (now : ℕ) (c : Cache) (keys : List Bytes) (k : Bytes)
    → lookup k (cleanup_keys now c keys).entries
      ≡ (if occurs k keys then kept c.ttl now (lookup k c.entries) else lookup k c.entries)
unfolding cleanup_keys
lookup-cleanup_keys now c [] k = refl
lookup-cleanup_keys now c (key ∷ keys) k =
    let c' = cleanup_entry now c key in
    ground (
      arith,
      lookup-cleanup_keys now c' keys k,
      lookup-cleanup_entry now c key k,
      ttl-cleanup_entry now c key,
      kept_twice c.ttl now (lookup k c.entries),
    )

lookup-occurs :
    (k : Bytes) (m : List (Bytes × CacheEntry)) → occurs k (keys_of m) ≡ false → lookup k m ≡ none
unfolding keys_of lookup
lookup-occurs k [] h = refl
lookup-occurs k ((j, e) ∷ m) h = ground (arith, lookup-occurs k m)

-- After a cleanup, the cache maps every key to what it mapped it to before, unless that entry is
-- stale (nobody uses it, and it was last used longer ago than the TTL); stale entries are gone.
pub lookup-cleanup_stale_archives :
    (c : Cache) (now : ℕ) (k : Bytes)
    → lookup k (cleanup_stale_archives c now).entries ≡ kept c.ttl now (lookup k c.entries)
unfolding cleanup_stale_archives
lookup-cleanup_stale_archives c now k =
    ground (arith, lookup-cleanup_keys now c (keys_of c.entries) k, lookup-occurs k c.entries)
