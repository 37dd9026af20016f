-- ===== src/Archive/Manager.antt =====
-- pkg/archive/manager.go: the manager that joins the cache of archives with a VCS client. What the
-- client answers is data of a call, and so are the attempts of a download. Of a chain of errors, the
-- model keeps which of the manager's own errors it holds, and which error of a context.
pub mod Notices
pub mod Validated
pub mod Holding
use kubechecks.Common.{
  ℕ, Bytes, codes, itoa, Bool, true, false, ◌&&◌, List, [], ◌∷◌, ◌++◌, Option, none, some, lookup,
  insert, delete, bytes_instance, ltb, leb, ◌==◌, if◌then◌else◌,
}
use kubechecks.AppDir.{join_two}
use kubechecks.Archive.{
  Cache, Attempt, DownloadError, http, extraction, network, evicted, Failure, gave_up,
  retry_interrupted, Outcome, path, failure, new_cache, get_or_download, release,
}
use kubechecks.Archive.Urls.{extract_sha_from_archive_url}

-- `vcs.PullRequest`, as far as it is read.
pub record PullRequest : Type 0 where
  pub full_name : Bytes
  pub check_id : ℕ
  pub sha : Bytes
  pub base_ref : Bytes

-- `sync.Map` as an association list.
pub record Manager : Type 0 where
  pub cache : Cache
  pub base_dir : Bytes
  pub replan_comment_message : Bytes
  pub validated_urls : List (Bytes × Bytes)

-- `NewManager`, from the configuration; the first argument is an hour.
unfoldable pub new_manager : ℕ → Bytes → ℕ → Bytes → Manager
new_manager hour dir ttl replan = record {
  cache = new_cache hour ttl;
  base_dir = dir;
  replan_comment_message = replan;
  validated_urls = [];
}

unfoldable pub validated_key : PullRequest → Bytes
validated_key pr = pr.full_name ++ (codes "#" ++ (itoa pr.check_id ++ (codes "@" ++ pr.sha)))

-- The errors of a context.
pub data CtxError : Type 0 where
  deadline_exceeded : CtxError
  canceled : CtxError

-- What `DownloadArchive` of the VCS client returns; an error may wrap one of a context.
pub data Answer : Type 0 where
  archive_at : Bytes → Answer
  refused : Option CtxError → Answer

-- What `Clone` fails with; `url_parse` is `urlParseError`, `auth` is `authError`.
pub data CloneError : Type 0 where
  no_archive_url : CloneError
  url_parse : CloneError
  auth : CloneError
  not_downloaded : Failure → CloneError

-- `git.Repo`, as `Clone` fills it.
pub record Repo : Type 0 where
  pub branch_name : Bytes
  pub clone_url : Bytes
  pub directory : Bytes
  pub base_branch_name : Bytes
  pub merge_commit_sha : Bytes

pub data Cloned : Type 0 where
  cloned : Repo → Cloned
  -- The error, and the error of a context in its chain.
  not_cloned : CloneError → Option CtxError → Cloned

-- What the calls in `Clone` meet.
pub record Calls : Type 0 where
  pub download_archive : Answer
  -- The error of `GetAuthHeaders`, if it fails.
  pub auth_error : Option (Option CtxError)
  pub now : ℕ
  pub first : Attempt
  pub second : Attempt
  pub third : Attempt
  -- The error of a context that a failed download wraps.
  pub download_wraps : Option CtxError

-- `ValidatePullRequest`: whether it succeeds.
unfoldable pub validate_pull_request : Manager → PullRequest → Answer → Bool × Manager
validate_pull_request m pr (refused e) = (false, m)
validate_pull_request m pr (archive_at url) =
    (true, record m { validated_urls = insert (validated_key pr) url m.validated_urls })

-- `validatedURLs.LoadAndDelete`, or the answer of the client.
unfoldable pub archive_url : Manager → PullRequest → Answer → Answer × Manager
archive_url m pr answer = elim (lookup (validated_key pr) m.validated_urls) [
  | none ↦ (answer, m)
  | some url ↦
      (archive_at url, record m { validated_urls = delete (validated_key pr) m.validated_urls })
]

-- The call of the cache in `Clone`.
unfoldable pub fetch : Manager → Bytes → Calls → Outcome × Cache
fetch m sha calls =
    get_or_download (join_two m.base_dir sha) m.cache sha calls.now calls.first calls.second
      calls.third

-- What `Clone` returns behind it.
unfoldable pub finish :
    Manager → Bytes → Bytes → Bytes → Option CtxError → Outcome × Cache → Cloned × Manager
finish m clone_url branch sha wraps (path extracted, c) = (
  cloned (record {
    branch_name = branch;
    clone_url = clone_url;
    directory = extracted;
    base_branch_name = branch;
    merge_commit_sha = sha;
  }),
  record m { cache = c },
)
finish m clone_url branch sha wraps (failure f, c) =
    (not_cloned (not_downloaded f) wraps, record m { cache = c })

-- `Clone` with the URL of the archive.
unfoldable pub clone_from : Manager → Bytes → Bytes → Bytes → Calls → Cloned × Manager
unfolding fetch finish
clone_from m clone_url branch url calls = elim (extract_sha_from_archive_url url) [
  | none ↦ (not_cloned url_parse none, m)
  | some sha ↦ elim calls.auth_error [
    | some e ↦ (not_cloned auth e, m)
    | none ↦ finish m clone_url branch sha calls.download_wraps (fetch m sha calls)
  ]
]

unfoldable pub clone : Manager → Bytes → Bytes → PullRequest → Calls → Cloned × Manager
unfolding archive_url clone_from
clone m clone_url branch pr calls =
    let (answer, m') = archive_url m pr calls.download_archive in
    elim answer [
      | refused e ↦ (not_cloned no_archive_url e, m')
      | archive_at url ↦ clone_from m' clone_url branch url calls
    ]

-- `Release`
unfoldable pub release_archive : Manager → Bytes → ℕ → Manager
release_archive m sha now = record m { cache = release m.cache sha now }

-- The warning sign, in UTF-8.
abbrev pub warning : Bytes
warning = 0xe2 ∷ 0x9a ∷ 0xa0 ∷ 0xef ∷ 0xb8 ∷ 0x8f ∷ []

-- The message of `PostConflictMessage`
unfoldable pub conflict_message : Manager → PullRequest → Bytes
conflict_message m pr =
    warning
    ++ (codes " This request cannot be checked.\n\n"
        ++ (codes "PR/MR may be in draft, or resolve conflicts with the base branch ("
            ++ (pr.base_ref
                ++ (codes ") before running checks.\n\n"
                    ++ (codes "To re-trigger checks after resolving conflicts, comment `"
                        ++ (m.replan_comment_message ++ codes "`."))))))

-- The messages of `PostArchiveErrorMessage`; the numbers are statuses.
pub data Notice : Type 0 where
  timed_out : Notice
  interrupted_notice : Notice
  not_found : Notice
  rate_limited : Notice
  server_error : ℕ → Notice
  unauthorized : Notice
  forbidden : Notice
  no_credentials : Notice
  unparsed_url : Notice
  client_error : ℕ → Notice
  unexpected_status : ℕ → Notice
  transient : Notice

-- The cases on `httpErr`, when the chain holds one.
unfoldable pub http_notice : ℕ → Notice
http_notice sc =
    if sc == 404
    then not_found
    else if sc == 429
    then rate_limited
    else if leb 500 sc
    then server_error sc
    else if sc == 401
    then unauthorized
    else if sc == 403
    then forbidden
    else if leb 400 sc && ltb sc 500
    then client_error sc
    else unexpected_status sc

-- The cases behind those of `cloneErr`, on the error of the context.
unfoldable pub ctx_notice : Option CtxError → Notice
ctx_notice none = transient
ctx_notice (some deadline_exceeded) = timed_out
ctx_notice (some canceled) = interrupted_notice

-- The cases behind those of the contexts.
unfoldable pub error_notice : CloneError → Option CtxError → Notice
unfolding http_notice ctx_notice
error_notice no_archive_url ctx = ctx_notice ctx
error_notice url_parse ctx = unparsed_url
error_notice auth ctx = no_credentials
error_notice (not_downloaded retry_interrupted) ctx = ctx_notice ctx
error_notice (not_downloaded (gave_up (http sc))) ctx = http_notice sc
error_notice (not_downloaded (gave_up extraction)) ctx = ctx_notice ctx
error_notice (not_downloaded (gave_up network)) ctx = ctx_notice ctx
error_notice (not_downloaded (gave_up evicted)) ctx = ctx_notice ctx

-- `PostArchiveErrorMessage`: an error, the error of a context in its chain, and that of `ctx`.
unfoldable pub archive_error_notice : CloneError → Option CtxError → Option CtxError → Notice
unfolding error_notice
archive_error_notice e (some deadline_exceeded) ctx = timed_out
archive_error_notice e (some canceled) ctx = interrupted_notice
archive_error_notice e none ctx = error_notice e ctx
