-- ===== src/Retry.antt =====
-- pkg/vcs/github_client/retry.go: how often and after what waits a failed call of GitHub is
-- repeated. Times are integers in the unit of the configuration, far from 2^63. Each call of `call`
-- is data: what it answers, and whether the context has ended.
pub mod Bounds
use kubechecks.Common.{
  ℕ, zero, suc, ◌+◌, ◌*◌, max, min, ◌-◌, Bytes, Bool, true, false, ◌&&◌, ◌||◌, not, List, [], ◌∷◌,
  ◌++◌, Option, none, some, ℤ, pos, negsuc, leb_ℤ, pos_part, ◌+ℤ◌, leb, ltb, ◌==◌, if◌then◌else◌,
}

pub record RetryConfig : Type 0 where
  pub max_retries : ℤ
  pub initial_backoff : ℤ
  pub max_backoff : ℤ

abbrev pub is_zero : ℤ → Bool
is_zero (pos n) = n == 0
is_zero (negsuc n) = false

abbrev pub is_negative : ℤ → Bool
is_negative (pos n) = false
is_negative (negsuc n) = true

-- The number of retries, with its default; a negative one is 0.
unfoldable pub retries_or : ℤ → ℤ → ℤ
retries_or default n =
    let n' = if is_zero n then default else n in if is_negative n' then pos 0 else n'

-- A backoff, with its default, which also stands in for a negative one.
unfoldable pub backoff_or : ℤ → ℤ → ℤ
backoff_or default t =
    let t' = if is_zero t then default else t in if leb_ℤ t' (pos 0) then default else t'

unfoldable pub with_defaults : RetryConfig → ℤ → ℤ → ℤ → RetryConfig
unfolding retries_or backoff_or
with_defaults r max_retries initial_backoff max_backoff =
    let initial = backoff_or initial_backoff r.initial_backoff in
    let longest = backoff_or max_backoff r.max_backoff in
    record {
      max_retries = retries_or max_retries r.max_retries;
      initial_backoff = initial;
      max_backoff = (if leb_ℤ initial longest then longest else initial);
    }

-- What a call answers that fails: the wait that a limit of the rate asks for, where it is one, and
-- the status code, where there is a response.
pub record CallError : Type 0 where
  pub asked : Option ℤ
  pub status_code : Option ℕ

-- `rateLimitWait`
unfoldable pub rate_limit_wait : CallError → Option ℤ
rate_limit_wait err = err.asked

unfoldable pub retryable : CallError → Bool → Bool
unfolding rate_limit_wait
retryable err idempotent = elim (rate_limit_wait err) [
  | some asked ↦ true
  | none ↦ elim err.status_code [
    | none ↦ idempotent
    | some code ↦ code == 429 || (idempotent && leb 500 code)
  ]
]

-- A call and the wait behind it: the error, if there is one, whether the context has ended then, and
-- whether it ends during the wait.
pub record Answer : Type 0 where
  pub error : Option CallError
  pub ctx_ended : Bool
  pub ends_waiting : Bool

pub data Outcome : Type 0 where
  succeeded : Outcome
  failed : CallError → Outcome
  interrupted : CallError → Outcome

-- `maxRateLimitWait`, in the unit of the times.
module _ (max_rate_limit_wait : ℤ) where
  -- The wait for a failed call; `none` is one that is too long.
  unfoldable pub wait_for : ℤ → CallError → Option ℤ
  unfolding rate_limit_wait
  wait_for backoff err = elim (rate_limit_wait err) [
    | none ↦ some backoff
    | some asked ↦
        if leb_ℤ asked max_rate_limit_wait
        then some (if leb_ℤ asked backoff then backoff else asked)
        else none
  ]

  -- `do` from an attempt on, with the number of attempts that may follow it: the outcome and the
  -- waits. `none` means that the rounds are used up.
  unfoldable pub do_from : ℕ → RetryConfig → Bool → (ℕ → Answer) → ℕ → ℤ → Option (Outcome × List ℤ)
  unfolding wait_for retryable
  do_from zero r idempotent call attempt backoff = none
  do_from (suc rounds) r idempotent call attempt backoff =
      let doubled = backoff +ℤ backoff in
      let next = if leb_ℤ doubled r.max_backoff then doubled else r.max_backoff in
      let later = do_from rounds r idempotent call (suc attempt) next in
      elim (call attempt).error [
        | none ↦ some (succeeded, [])
        | some err ↦
            if (call attempt).ctx_ended
            then some (interrupted err, [])
            else if leb_ℤ r.max_retries (pos attempt) || not (retryable err idempotent)
            then some (failed err, [])
            else elim (wait_for backoff err) [
              | none ↦ some (failed err, [])
              | some wait ↦
                  if (call attempt).ends_waiting
                  then some (interrupted err, wait ∷ [])
                  else elim later [ none ↦ none | some (out, waits) ↦ some (out, wait ∷ waits) ]
            ]
      ]

  -- `do`; a round more than the retries is enough
  unfoldable pub do_call : RetryConfig → Bool → (ℕ → Answer) → Option (Outcome × List ℤ)
  unfolding do_from
  do_call r idempotent call =
      do_from (suc (pos_part r.max_retries)) r idempotent call 0 r.initial_backoff
