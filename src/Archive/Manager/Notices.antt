-- ===== src/Archive/Manager/Notices.antt =====
-- pkg/archive/manager.go: the texts of `PostArchiveErrorMessage`, and which errors are told to be
-- worth another try.
use kubechecks.Common.{
  ℕ, [], ◌∷◌, Bytes, codes, itoa, Bool, ◌||◌, true, false, ◌++◌, Option, none, some, ltb, ◌≡◌, refl,
  ap, arith,
}
use kubechecks.Archive.{DownloadError, http, extraction, network, evicted, gave_up, is_retriable}
use kubechecks.Archive.Manager.{
  warning, CtxError, deadline_exceeded, canceled, Notice, not_downloaded, timed_out,
  interrupted_notice, not_found, rate_limited, server_error, unauthorized, forbidden,
  no_credentials, unparsed_url, client_error, unexpected_status, transient, http_notice, ctx_notice,
  error_notice, archive_error_notice,
}

-- "Comment `...` to retry."
unfoldable pub retry_hint : Bytes → Bytes
retry_hint replan = codes "Comment `" ++ (replan ++ codes "` to retry.")

-- `http.StatusText` is the library's.
module _ (status_text : ℕ → Bytes) where
  -- "HTTP %d %s"
  unfoldable pub status_line : ℕ → Bytes
  status_line sc = itoa sc ++ (codes " " ++ (status_text sc ++ codes ").\n\n"))

  -- What stands in front of the last sentence.
  unfoldable pub notice_front : Notice → Bytes
  unfolding status_line
  notice_front timed_out =
      codes " Kubechecks timed out waiting for the repository archive to be ready.\n\n"
      ++ codes "The VCS may still be computing the merge result. "
  notice_front interrupted_notice =
      codes " The archive download was interrupted before completing.\n\n"
      ++ codes "This is usually caused by a shutdown or restart. "
  notice_front not_found =
      codes " Repository archive not found (HTTP 404).\n\n"
      ++ codes "The VCS may still be preparing the merged archive. "
  notice_front rate_limited =
      codes " Rate limited while downloading the repository archive (HTTP 429).\n\n"
  notice_front (server_error sc) =
      codes " VCS server error while downloading the repository archive (HTTP "
      ++ (status_line sc ++ codes "The VCS may be experiencing issues. ")
  notice_front unauthorized =
      codes " Authentication failed downloading the repository archive (HTTP 401 Unauthorized).\n\n"
  notice_front forbidden =
      codes " Access denied downloading the repository archive (HTTP 403 Forbidden).\n\n"
  notice_front no_credentials =
      codes " Kubechecks could not obtain credentials to download the repository archive.\n\n"
      ++ (codes "This is a configuration problem "
          ++ (0xe2 ∷ 0x80 ∷ 0x94 ∷ codes " check that the kubechecks VCS token or "
              ++ codes "GitHub App credentials are valid. "))
  notice_front unparsed_url =
      codes " Kubechecks could not parse the archive URL returned by the VCS.\n\n"
      ++ (codes "This is likely a configuration or VCS compatibility issue "
          ++ 0xe2 ∷ 0x80 ∷ 0x94 ∷ [])
  notice_front (client_error sc) =
      codes " Failed to download the repository archive (HTTP "
      ++ (status_line sc ++ codes "This is a permanent error. ")
  notice_front (unexpected_status sc) =
      codes " Failed to download the repository archive (HTTP " ++ status_line sc
  notice_front transient =
      codes " Failed to download the repository archive due to a transient error.\n\n"

unfoldable pub notice_end : Notice → Bytes → Bytes
unfolding retry_hint
notice_end unauthorized replan = codes "Check that kubechecks has a valid VCS token configured."
notice_end forbidden replan =
    codes "Check that the kubechecks VCS token has sufficient repository permissions."
notice_end no_credentials replan =
    codes "Comment `" ++ (replan ++ codes "` will not help until the configuration is fixed.")
notice_end unparsed_url replan = codes " check the kubechecks logs."
notice_end (client_error sc) replan = codes "Check the kubechecks logs for details."
notice_end n replan = retry_hint replan

unfoldable pub notice_text : (ℕ → Bytes) → Notice → Bytes → Bytes
unfolding notice_front notice_end
notice_text status_text n replan = (warning ++ notice_front status_text n) ++ notice_end n replan

-- The notices that end with the hint.
abbrev pub asks_retry : Notice → Bool
asks_retry timed_out = true
asks_retry interrupted_notice = true
asks_retry not_found = true
asks_retry rate_limited = true
asks_retry (server_error sc) = true
asks_retry unauthorized = false
asks_retry forbidden = false
asks_retry no_credentials = false
asks_retry unparsed_url = false
asks_retry (client_error sc) = false
asks_retry (unexpected_status sc) = true
asks_retry transient = true

abbrev pub EndsWith : Bytes → Bytes → Type 0
EndsWith end text = (front : Bytes) × (text ≡ front ++ end)

notice_end_hint :
    (n : Notice) (replan : Bytes) → asks_retry n ≡ true → notice_end n replan ≡ retry_hint replan
unfolding notice_end
notice_end_hint timed_out replan h = refl
notice_end_hint interrupted_notice replan h = refl
notice_end_hint not_found replan h = refl
notice_end_hint rate_limited replan h = refl
notice_end_hint (server_error sc) replan h = refl
notice_end_hint (unexpected_status sc) replan h = refl
notice_end_hint transient replan h = refl
notice_end_hint n replan h = absurd (ground arith)

-- A notice that asks for another try says so in its last words.
pub notice_text-retry :
    (status_text : ℕ → Bytes) (n : Notice) (replan : Bytes)
    → asks_retry n ≡ true
    → EndsWith (retry_hint replan) (notice_text status_text n replan)
unfolding notice_text
notice_text-retry status_text n replan h =
    let front = warning ++ notice_front status_text n in
    (front, ap (λ t. front ++ t) (notice_end_hint n replan h))

asks_retry-ctx_notice : (ctx : Option CtxError) → asks_retry (ctx_notice ctx) ≡ true
unfolding ctx_notice
asks_retry-ctx_notice none = refl
asks_retry-ctx_notice (some deadline_exceeded) = refl
asks_retry-ctx_notice (some canceled) = refl

-- The error of a download whose archive cannot be extracted.
abbrev pub is_extraction : DownloadError → Bool
is_extraction extraction = true
is_extraction e = false

-- A context's error stands in the chain.
abbrev pub is_chained : Option CtxError → Bool
is_chained none = false
is_chained (some e) = true

-- The error of a status below 400.
abbrev pub is_low_status : DownloadError → Bool
is_low_status (http sc) = ltb sc 400
is_low_status e = false

-- A download that was given up is told to be worth another try exactly if the downloader tries such
-- an error again while its context lasts, or if the error has one of three marks with which it does
-- not: a context's error in its chain, an archive that cannot be extracted, or a status below 400.
-- Whether the context of the notice is over makes no difference.
pub asks_retry-archive_error_notice :
    (e : DownloadError) (chain ctx : Option CtxError)
    → asks_retry (archive_error_notice (not_downloaded (gave_up e)) chain ctx)
      ≡ (is_retriable false e || is_chained chain || is_extraction e || is_low_status e)
unfolding archive_error_notice error_notice ctx_notice is_retriable http_notice
asks_retry-archive_error_notice e (some deadline_exceeded) ctx = ground arith
asks_retry-archive_error_notice e (some canceled) ctx = ground arith
asks_retry-archive_error_notice (http sc) none ctx = ground arith
asks_retry-archive_error_notice extraction none ctx = asks_retry-ctx_notice ctx
asks_retry-archive_error_notice network none ctx = asks_retry-ctx_notice ctx
asks_retry-archive_error_notice evicted none ctx = asks_retry-ctx_notice ctx
