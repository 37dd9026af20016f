-- ===== src/Tests/Manager.antt =====
-- pkg/archive/manager.go: a request that is validated and checked.
use kubechecks.Common.{
  ℕ, Bytes, codes, false, [], ◌++◌, none, some, ◌≡◌, ◌≢◌, refl, arith, lookup, bytes_eq,
  bytes_instance, if◌then◌else◌, ◌||◌,
}
use kubechecks.Archive.{Attempt, http, fetched, gave_up, is_retriable}
use kubechecks.Archive.Urls.{
  extract_sha_from_archive_url, split_skipping, split, last_part, nonempty_sha, without_ext,
  path_ext, ext_reversed,
}
use kubechecks.Archive.Urls.Parts.{Without}
use kubechecks.Archive.Urls.Keys.{ArchiveUrl, zipball, address, extract_sha-address}
use kubechecks.Archive.Manager.{
  Manager, PullRequest, Calls, Repo, archive_at, validated_key, validate_pull_request, clone,
  clone_from, archive_error_notice, not_downloaded,
}
use kubechecks.Archive.Manager.Notices.{
  asks_retry, is_extraction, is_low_status, is_chained, asks_retry-archive_error_notice,
}
use kubechecks.Archive.Manager.Validated.{clone-validate_pull_request}
use kubechecks.RepoUrl.{trim_suffix, trim_prefix}

abbrev ball : ArchiveUrl
ball = zipball (codes "https://api.github.com/repos/o/r") (codes "abc")

no_byte : (c : ℕ) → 97 ≢ c → 98 ≢ c → 99 ≢ c → Without c (codes "abc")
no_byte c h1 h2 h3 = (h1, (h2, (h3, tt)))

extract_sha-address_example : extract_sha_from_archive_url (address ball) ≡ some (codes "abc")
extract_sha-address_example = extract_sha-address ball (
  (λ e. ground arith),
  no_byte b'/' (omega arith) (omega arith) (omega arith),
  no_byte b'?' (omega arith) (omega arith) (omega arith),
  refl,
)

-- Of a web archive in a .tar.gz file, only the last of the two extensions is taken off.
extract_sha_tar_gz :
    extract_sha_from_archive_url (codes "https://github.com/o/r/archive/abc.tar.gz")
    ≡ some (codes "abc.tar")
unfolding extract_sha_from_archive_url split split_skipping last_part without_ext path_ext
    ext_reversed trim_suffix trim_prefix nonempty_sha
extract_sha_tar_gz = refl

asks_retry-archive_error_notice_example :
    asks_retry (archive_error_notice (not_downloaded (gave_up (http 503))) none none) ≡ (
      is_retriable false (http 503)
      || is_chained none
      || is_extraction (http 503)
      || is_low_status (http 503))
asks_retry-archive_error_notice_example = asks_retry-archive_error_notice (http 503) none none

abbrev archives : Manager
archives = record {
  cache = record { entries = []; ttl = 5; removed = [] };
  base_dir = codes "/c";
  replan_comment_message = codes "again";
  validated_urls = [];
}

abbrev request : PullRequest
request = record { full_name = codes "o/r"; check_id = 7; sha = codes "h"; base_ref = codes "main" }

-- Where the archives of these tests are extracted.
abbrev place_of : Bytes → Bytes
place_of sha = codes "/c/" ++ sha

abbrev works : Attempt
works = record {
  interrupted = false;
  download = fetched (codes "/c/abc");
  others = (λ c. c);
  ctx_ended = false;
  now = 2;
}

abbrev meeting : Calls
meeting = record {
  download_archive = archive_at (address ball);
  auth_error = none;
  now = 1;
  first = works;
  second = works;
  third = works;
  download_wraps = none;
}

clone-validate_pull_request_example :
    let validated = (validate_pull_request archives request (archive_at (address ball))).1 in
    let used = clone validated (codes "u") (codes "main") request meeting in
    (used.0 ≡ (clone_from archives (codes "u") (codes "main") (address ball) meeting).0)
    × (lookup (codes "k") used.1.validated_urls ≡ (
        if bytes_eq (validated_key request) (codes "k")
        then none
        else lookup (codes "k") archives.validated_urls))
clone-validate_pull_request_example =
    clone-validate_pull_request archives request (address ball) (codes "u") (codes "main")
      (codes "k") meeting

abbrev checked_out : Repo
checked_out = record {
  branch_name = codes "main";
  clone_url = codes "u";
  directory = codes "/c/abc";
  base_branch_name = codes "main";
  merge_commit_sha = codes "abc";
}
