-- ===== src/Events/Manifests.antt =====
-- pkg/events/worker.go: `getManifestsWithRetry` and what it retries on. An error is a gRPC status
-- with its message, or any other error with its text; how the context ends is data of an attempt.
use kubechecks.Common.{
  ℕ, zero, suc, ◌+◌, Bytes, codes, Bool, true, false, List, [], ◌∷◌, ◌||◌, not, contains, ltb,
  if◌then◌else◌,
}

-- `codes.Code` of gRPC, as far as it is told apart.
pub data GrpcCode : Type 0 where
  unavailable : GrpcCode
  deadline_exceeded : GrpcCode
  resource_exhausted : GrpcCode
  unknown : GrpcCode
  other_code : ℕ → GrpcCode

pub data ManifestError : Type 0 where
  grpc : GrpcCode → Bytes → ManifestError
  plain : Bytes → ManifestError
  cancelled : ManifestError

unfoldable pub network_error_patterns : List Bytes
network_error_patterns =
    codes "connection reset by peer"
    ∷ codes "connection refused"
    ∷ codes "no such host"
    ∷ codes "TLS handshake timeout"
    ∷ codes "i/o timeout"
    ∷ codes "dial tcp"
    ∷ codes "server misbehaving"
    ∷ codes "temporary failure in name resolution"
    ∷ []

unfoldable pub contains_any : Bytes → List Bytes → Bool
contains_any msg [] = false
contains_any msg (p ∷ ps) = contains msg p || contains_any msg ps

unfoldable pub is_network_error_message : Bytes → Bool
unfolding contains_any network_error_patterns
is_network_error_message msg = contains_any msg network_error_patterns

unfoldable pub is_retryable_error : ManifestError → Bool
is_retryable_error (grpc unavailable msg) = true
is_retryable_error (grpc deadline_exceeded msg) = true
is_retryable_error (grpc resource_exhausted msg) = true
is_retryable_error (grpc unknown msg) = is_network_error_message msg
is_retryable_error (grpc (other_code n) msg) = false
is_retryable_error (plain msg) = is_network_error_message msg
is_retryable_error cancelled = false

pub data Fetched : Type 0 where
  manifests : List Bytes → Fetched
  failed : ManifestError → Fetched

-- What `GetManifests` returns, and whether the context ends the wait behind it.
pub record Attempt : Type 0 where
  pub fetched : Fetched
  pub interrupted : Bool

abbrev pub max_manifest_retries : ℕ
max_manifest_retries = 3

-- The loop, with the number of the attempt: its result, and the seconds that it waited before each
-- further attempt. `attempts` is what the calls would meet, one after another.
unfoldable pub manifests_loop : ℕ → ℕ → (ℕ → Attempt) → Fetched × List ℕ
unfolding is_retryable_error
manifests_loop zero attempt attempts = (failed cancelled, [])
manifests_loop (suc left) attempt attempts =
    let a = attempts attempt in
    let later = manifests_loop left (attempt + 1) attempts in
    elim a.fetched [
      | manifests ms ↦ (manifests ms, [])
      | failed e ↦
          if not (is_retryable_error e)
          then (failed e, [])
          else if ltb attempt max_manifest_retries
          then (if a.interrupted
              then (failed cancelled, [])
              else (later.0, (attempt + attempt) ∷ later.1))
          else (failed e, [])
    ]

unfoldable pub get_manifests_with_retry : (ℕ → Attempt) → Fetched × List ℕ
unfolding manifests_loop
get_manifests_with_retry attempts = manifests_loop max_manifest_retries 1 attempts
