-- ===== src/Archive/Urls/Keys.antt =====
-- pkg/archive/manager.go: the keys that URLs of archives give.
use kubechecks.Common.{
  ℕ, Bytes, codes, false, [], ◌∷◌, ◌++◌, some, ◌≡◌, refl, contains, arith, ap, ◌∙◌, ◌≢◌, drop,
  length, append_assoc, reverse,
}
use kubechecks.Archive.Urls.{
  path_ext, ext_reversed, last_part, before, nonempty_sha, sha_behind, without_ext,
  extract_sha_from_archive_url,
}
use kubechecks.Archive.Urls.Parts.{
  Late, Without, contains-append, contains-Without, split-append, split_single, before_all,
  has_prefix_self,
}
use kubechecks.RepoUrl.{trim_suffix, trim_prefix}
use mathlib.Core.List.{reverse-append, reverse-reverse}

sha_behind-append :
    (base : Bytes) (b : ℕ) (sep rest : Bytes)
    → Late base (b ∷ sep)
    → Without b rest
    → sha_behind (base ++ ((b ∷ sep) ++ rest)) (b ∷ sep) ≡ nonempty_sha (before b'?' rest)
unfolding sha_behind last_part
sha_behind-append base b sep rest late h = ground (
  arith,
  split-append base b sep rest late,
  split_single rest (b ∷ sep) (contains-Without b sep rest h),
)

-- The URL of a zipball of GitHub's API has as its key what stands behind the last marker, up to a
-- query string, and is refused if that is empty. The address in front of the marker holds none.
extract_sha-zipball :
    (base rest : Bytes)
    → Late base (codes "/zipball/")
    → Without b'/' rest
    → extract_sha_from_archive_url (base ++ (codes "/zipball/" ++ rest))
      ≡ nonempty_sha (before b'?' rest)
unfolding extract_sha_from_archive_url
extract_sha-zipball base rest late h = ground (
  arith,
  contains-append base (codes "/zipball/") rest,
  sha_behind-append base b'/' (codes "zipball/") rest late h,
)

drop-length : (s rest : Bytes) → drop (length s) (s ++ rest) ≡ rest
drop-length [] rest = refl
drop-length (a ∷ s) rest = drop-length s rest

trim_suffix-append : (s p : Bytes) → trim_suffix (s ++ p) p ≡ s
unfolding trim_suffix trim_prefix
trim_suffix-append s p = ground (
  arith,
  reverse-append s p,
  has_prefix_self (reverse p) (reverse s),
  drop-length (reverse p) (reverse s),
  reverse-reverse s,
)

path_ext-zip : (sha : Bytes) → path_ext (sha ++ codes ".zip") ≡ codes ".zip"
unfolding path_ext ext_reversed
path_ext-zip sha = rw (reverse-append sha (codes ".zip")) refl

-- The extension of an archive is taken off, whatever dots stand in front of it.
without_ext-zip : (sha : Bytes) → without_ext (sha ++ codes ".zip") ≡ sha
unfolding without_ext
without_ext-zip sha =
    ap (trim_suffix (sha ++ codes ".zip")) (path_ext-zip sha)
    ∙ trim_suffix-append sha (codes ".zip")

-- The URLs of archives that the VCSs hand out.
pub data ArchiveUrl : Type 0 where
  zipball : Bytes → Bytes → ArchiveUrl
  zip_file : Bytes → Bytes → ArchiveUrl
  gitlab_zip : Bytes → Bytes → ArchiveUrl

abbrev pub address : ArchiveUrl → Bytes
address (zipball base sha) = base ++ (codes "/zipball/" ++ sha)
address (zip_file base sha) = base ++ (codes "/archive/" ++ (sha ++ codes ".zip"))
address (gitlab_zip base sha) = base ++ (codes "?" ++ (codes "sha=" ++ sha))

abbrev pub commit_of : ArchiveUrl → Bytes
commit_of (zipball base sha) = sha
commit_of (zip_file base sha) = sha
commit_of (gitlab_zip base sha) = sha

abbrev IsOther : Bytes → Type 0
IsOther url =
    (contains url (codes "/zipball/") ≡ false) × (contains url (codes "/tarball/") ≡ false)

-- The commit is not empty and has no character of a URL's syntax, and the marker of one kind of URL
-- does not stand anywhere else, nor in the URLs of another kind.
abbrev pub IsArchiveUrl : ArchiveUrl → Type 0
IsArchiveUrl (zipball base sha) =
    (sha ≢ []) × Without b'/' sha × Without b'?' sha × Late base (codes "/zipball/")
IsArchiveUrl (zip_file base sha) =
    (sha ≢ [])
    × Without b'/' (sha ++ codes ".zip")
    × Late base (codes "/archive/")
    × IsOther (address (zip_file base sha))
IsArchiveUrl (gitlab_zip base sha) =
    (sha ≢ [])
    × Without b'&' sha
    × Late (base ++ codes "?") (codes "sha=")
    × (contains sha (codes "sha=") ≡ false)
    × IsOther (address (gitlab_zip base sha))
    × (contains (address (gitlab_zip base sha)) (codes "/archive/") ≡ false)

nonempty_sha-some : (sha : Bytes) → sha ≢ [] → nonempty_sha sha ≡ some sha
unfolding nonempty_sha
nonempty_sha-some [] h = absurd (h refl)
nonempty_sha-some (a ∷ sha) h = refl

-- The key of an archive is the commit that its URL is made from: of a zipball of GitHub's API, of a
-- web archive of GitHub in a .zip file, and of an archive of GitLab. The commit is not empty and
-- has no character of the URL's syntax, and no marker stands in the URL but the one of its kind.
pub extract_sha-address :
    (url : ArchiveUrl)
    → IsArchiveUrl url
    → extract_sha_from_archive_url (address url) ≡ some (commit_of url)
unfolding extract_sha_from_archive_url last_part
extract_sha-address (zipball base sha) (h, slashes, marks, late) =
    extract_sha-zipball base sha late slashes
    ∙ ap nonempty_sha (before_all b'?' sha marks)
    ∙ nonempty_sha-some sha h
extract_sha-address (zip_file base sha) (h, slashes, late, other) = ground (
  arith,
  contains-append base (codes "/archive/") (sha ++ codes ".zip"),
  split-append base b'/' (codes "archive/") (sha ++ codes ".zip") late,
  split_single (sha ++ codes ".zip") (codes "/archive/")
      (contains-Without b'/' (codes "archive/") (sha ++ codes ".zip") slashes),
  without_ext-zip sha,
  nonempty_sha-some sha h,
)
extract_sha-address (gitlab_zip base sha) (h, marks, late, whole, other, not_web) = ground (
  arith,
  contains-append base (codes "?sha=") sha,
  split-append (base ++ codes "?") b's' (codes "ha=") sha late,
  append_assoc base (codes "?") (codes "sha=" ++ sha),
  split_single sha (codes "sha=") whole,
  before_all b'&' sha marks,
  nonempty_sha-some sha h,
)
