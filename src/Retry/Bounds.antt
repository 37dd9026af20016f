-- ===== src/Retry/Bounds.antt =====
-- pkg/vcs/github_client/retry.go: `do` ends, within its number of retries and its waits.
use kubechecks.Common.{
  ℕ, zero, suc, ◌+◌, ◌≤◌, ◌<◌, max, Bool, true, ◌||◌, not, List, [], ◌∷◌, ◌≡◌, refl, Option, none,
  some, ℤ, pos, negsuc, ◌+ℤ◌, ◌≤ℤ◌, leb_ℤ, leb, if◌then◌else◌, length, arith, leb→le, Bool-cases,
  Option-cases, inl, inr, ◌⊎◌,
}
use kubechecks.Retry.{
  RetryConfig, CallError, Answer, Outcome, succeeded, failed, interrupted, retries_or, backoff_or,
  with_defaults, retryable, wait_for, do_from, do_call,
}

retries_or_pos : (d : ℕ) (n : ℤ) → (k : ℕ) × (retries_or (pos d) n ≡ pos k)
unfolding retries_or
retries_or_pos d (pos zero) = (d, refl)
retries_or_pos d (pos (suc n)) = (suc n, ground arith)
retries_or_pos d (negsuc n) = (0, refl)

backoff_or_pos : (d : ℕ) (t : ℤ) → (k : ℕ) × (backoff_or (pos (suc d)) t ≡ pos (suc k))
unfolding backoff_or
backoff_or_pos d (pos zero) = (d, ground arith)
backoff_or_pos d (pos (suc n)) = (n, ground arith)
backoff_or_pos d (negsuc n) = (d, ground arith)

-- Whatever is configured, with positive defaults the retries are a number that is not negative, and
-- the backoffs are positive and in order.
with_defaults_lem :
    (r : RetryConfig) (retries initial longest : ℕ)
    → (n : ℕ) × (i : ℕ) × (b : ℕ) × (with_defaults r
          (pos retries)
          (pos (suc initial))
          (pos (suc longest))
        ≡ record { max_retries = pos n; initial_backoff = pos (suc i); max_backoff = pos b })
      × (suc i ≤ b)
unfolding with_defaults
with_defaults_lem r retries initial longest =
    let (n, e) = retries_or_pos retries r.max_retries in
    let (i, f) = backoff_or_pos initial r.initial_backoff in
    let (b, g) = backoff_or_pos longest r.max_backoff in
    elim (Bool-cases (leb (suc i) (suc b))) [
      | inl h ↦ (n, i, suc b, ground arith, leb→le _ _ h)
      | inr h ↦ (n, i, suc i, ground arith, omega arith)
    ]

-- What a run may do from an attempt on: each wait follows a failure that is worth a repetition, and
-- is within the bounds; the outcome is that of the last call.
module _ (idempotent : Bool) (call : ℕ → Answer) (lower upper : ℕ) where
  abbrev pub Ends : ℕ → Outcome → Type 0
  Ends a succeeded = (call a).error ≡ none
  Ends a (failed err) = (call a).error ≡ some err
  Ends a (interrupted err) = (call a).error ≡ some err

  unfoldable pub IsRun : ℕ → Outcome → List ℤ → Type 0
  IsRun a out [] = Ends a out
  IsRun a out (w ∷ ws) =
      (err : CallError) × ((call a).error ≡ some err)
      × (retryable err idempotent ≡ true)
      × (pos lower ≤ℤ w)
      × (w ≤ℤ pos upper)
      × (((ws ≡ []) × (out ≡ interrupted err)) ⊎ IsRun (suc a) out ws)

wait_for_lem :
    (limit lower upper b : ℕ) (err : CallError) (w : ℤ)
    → lower ≤ b
    → b ≤ upper
    → limit ≤ upper
    → wait_for (pos limit) (pos b) err ≡ some w
    → (pos lower ≤ℤ w) × (w ≤ℤ pos upper)
unfolding wait_for
wait_for_lem limit lower upper b err w h k l e = elim (Option-cases err.asked) [
  | inl f ↦ ground arith
  | inr (t, f) ↦ ground arith
]

-- The backoff of the next attempt.
doubled_lem :
    (b longest : ℕ)
    → b ≤ longest
    → (c : ℕ) × (b ≤ c)
      × (c ≤ longest)
      × ((if leb_ℤ (pos b +ℤ pos b) (pos longest) then pos b +ℤ pos b else pos longest) ≡ pos c)
unfolding ◌+ℤ◌
doubled_lem b longest h = elim (Bool-cases (leb (b + b) longest)) [
  | inl e ↦ (b + b, omega arith, leb→le _ _ e, ground arith)
  | inr e ↦ (longest, h, omega arith, ground arith)
]

module _ (limit n i longest : ℕ) (idempotent : Bool) (call : ℕ → Answer) (first : i ≤ longest) where
  abbrev pub config : RetryConfig
  config = record { max_retries = pos n; initial_backoff = pos i; max_backoff = pos longest }

  -- What is shown of a run from an attempt on.
  abbrev HasRun : ℕ → ℕ → Option (Outcome × List ℤ) → Type 0
  HasRun a rounds result =
      (out : Outcome) × (waits : List ℤ) × (result ≡ some (out, waits))
      × (length waits < rounds)
      × IsRun idempotent call i (max longest limit) a out waits

  do_from_lem :
      (rounds a b : ℕ)
      → a + rounds ≡ suc n
      → 1 ≤ rounds
      → i ≤ b
      → b ≤ longest
      → HasRun a rounds (do_from (pos limit) rounds config idempotent call a (pos b))
  unfolding do_from IsRun
  do_from_lem zero a b h one j k = absurd (omega arith)
  do_from_lem (suc rounds) a b h one j k = elim (Option-cases (call a).error) [
    | inl e ↦ (succeeded, [], ground arith, omega arith, e)
    | inr (err, e) ↦ elim (Bool-cases (call a).ctx_ended) [
      | inl f ↦ (interrupted err, [], ground arith, omega arith, e)
      | inr f ↦ elim (Bool-cases (leb_ℤ (pos n) (pos a) || not (retryable err idempotent))) [
        | inl g ↦ (failed err, [], ground arith, omega arith, e)
        | inr g ↦ elim (Option-cases (wait_for (pos limit) (pos b) err)) [
          | inl w ↦ (failed err, [], ground arith, omega arith, e)
          | inr (t, w) ↦
              let more : 1 ≤ rounds = ground arith in
              let (low, high) =
                wait_for_lem limit i (max longest limit) b err t j (omega arith) (omega arith) w in
              elim (Bool-cases (call a).ends_waiting) [
                | inl s ↦ (
                  interrupted err,
                  t ∷ [],
                  ground arith,
                  omega arith,
                  (err, e, ground arith, low, high, inl (refl, refl)),
                )
                | inr s ↦
                    let (c, up, within, q) = doubled_lem b longest k in
                    let (out, waits, r, short, run) =
                      do_from_lem rounds (suc a) c (omega arith) more (omega arith) within in
                    (
                      out,
                      t ∷ waits,
                      ground (arith, r, q),
                      omega arith,
                      (err, e, ground arith, low, high, inr run),
                    )
              ]
        ]
      ]
    ]
  ]

  -- A call is repeated at most as often as configured: the run ends, with the outcome of its last
  -- call. It waits only after a failure that is worth a repetition, at least the first backoff and at
  -- most the longer of the longest backoff and the limit on waits.
  pub do_call_lem :
      (out : Outcome) × (waits : List ℤ) × (do_call (pos limit) config idempotent call
        ≡ some (out, waits))
      × (length waits ≤ n)
      × IsRun idempotent call i (max longest limit) 0 out waits
  unfolding do_call
  do_call_lem =
      let (out, waits, r, short, run) =
        do_from_lem (suc n) 0 i (omega arith) (omega arith) (omega arith) first in
      (out, waits, r, omega arith, run)
