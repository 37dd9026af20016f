-- ===== src/Archive/Urls.antt =====
-- pkg/archive/manager.go: the commit in the URL of an archive, which is the key of the cache.
pub mod Parts
pub mod Keys
use kubechecks.Common.{
  ℕ, zero, suc, ◌-◌, Bytes, codes, Bool, true, false, ◌||◌, List, [], ◌∷◌, ◌++◌, Option, none, some,
  has_prefix, contains, cons_head, length, get_or, drop_last, reverse, drop, is_empty, ◌==◌,
  if◌then◌else◌,
}
use kubechecks.RepoUrl.{trim_suffix}

-- `strings.Split(s, sep)` for a separator that is not empty; the number is that of the bytes of a
-- separator that are left to pass over.
unfoldable pub split_skipping : Bytes → ℕ → Bytes → List Bytes
split_skipping sep n [] = [] ∷ []
split_skipping sep (suc n) (a ∷ s) = split_skipping sep n s
split_skipping sep zero (a ∷ s) = elim (has_prefix (a ∷ s) sep) [
  | true ↦ [] ∷ split_skipping sep (length sep - 1) s
  | false ↦ cons_head a (split_skipping sep zero s)
]

unfoldable pub split : Bytes → Bytes → List Bytes
unfolding split_skipping
split s sep = split_skipping sep zero s

-- `parts[len(parts)-1]`
unfoldable pub last_part : List Bytes → Bytes
last_part [] = []
last_part (p ∷ []) = p
last_part (p ∷ (q ∷ ps)) = last_part (q ∷ ps)

-- `strings.SplitN(s, c, 2)[0]`, and the first part of `strings.Split(s, c)`, for a byte c
unfoldable pub before : ℕ → Bytes → Bytes
before c [] = []
before c (a ∷ s) = let rest = before c s in if a == c then [] else a ∷ rest

-- `filepath.Ext` of a reversed name: what stands behind the last dot of the last element, with it.
unfoldable pub ext_reversed : Bytes → Bytes → Bytes
ext_reversed ext [] = []
ext_reversed ext (a ∷ s) =
    let longer = ext_reversed (a ∷ ext) s in
    if a == b'/' then [] else if a == b'.' then a ∷ ext else longer

unfoldable pub path_ext : Bytes → Bytes
unfolding ext_reversed
path_ext name = ext_reversed [] (reverse name)

unfoldable pub nonempty_sha : Bytes → Option Bytes
nonempty_sha sha = if is_empty sha then none else some sha

-- The file name of a GitHub web archive, without its extension.
unfoldable pub without_ext : Bytes → Bytes
unfolding path_ext trim_suffix
without_ext name = trim_suffix name (path_ext name)

-- One round of the loop over the markers of GitHub's API.
unfoldable pub sha_behind : Bytes → Bytes → Option Bytes
unfolding split last_part before nonempty_sha
sha_behind url marker = nonempty_sha (before b'?' (last_part (split url marker)))

-- `extractSHAFromArchiveURL`; every error is `none`. `strings.Split` yields two parts at least where
-- the separator occurs, so the tests of their number never fail.
unfoldable pub extract_sha_from_archive_url : Bytes → Option Bytes
unfolding sha_behind split last_part before nonempty_sha without_ext
extract_sha_from_archive_url url =
    if contains url (codes "/zipball/")
    then sha_behind url (codes "/zipball/")
    else if contains url (codes "/tarball/")
    then sha_behind url (codes "/tarball/")
    else if contains url (codes "/archive/")
    then nonempty_sha (without_ext (last_part (split url (codes "/archive/"))))
    else if contains url (codes "?sha=") || contains url (codes "&sha=")
    then nonempty_sha (before b'&' (get_or (split url (codes "sha=")) 1 []))
    else none
