-- ===== src/Events/Reviews/Cap.antt =====
-- pkg/events/check.go: the cap on AI reviews holds for any number of claims.
use kubechecks.Common.{
  ℕ, zero, suc, ◌+◌, ◌-◌, ◌≤◌, ◌<◌, ◌^◌, min, ℤ, pos, negsuc, ◌≡◌, arith, if◌then◌else◌,
}
use kubechecks.Events.Reviews.{Slots, claim_slot, effective_max, hard_max_apps}

abbrev pub no_claims : Slots
no_claims = record { review_count = 0; review_skipped = 0 }

-- What some claims, one after another, lead to: how many are granted, and the counters.
unfoldable pub claims : ℤ → ℕ → ℕ × Slots
claims max_apps zero = (0, no_claims)
claims max_apps (suc k) =
    let (granted, s) = claims max_apps k in
    let (ok, s') = claim_slot max_apps s in (if ok then granted + 1 else granted, s')

effective_max_range :
    (max_apps : ℤ) → (1 ≤ effective_max max_apps) × (effective_max max_apps ≤ hard_max_apps)
unfolding effective_max
effective_max_range (pos n) = ground arith
effective_max_range (negsuc n) = omega arith

-- In any number of claims that an `int32` can count, as many slots are granted as the cap allows,
-- which is 50 at most and 1 at least, and every other claim is counted as skipped.
pub claims_capped :
    (max_apps : ℤ) (k : ℕ)
    → k < 2 ^ 31
    → ((claims max_apps k).0 ≡ min k (effective_max max_apps))
      × ((claims max_apps k).1.review_count ≡ k)
      × ((claims max_apps k).1.review_skipped ≡ k - effective_max max_apps)
      × (1 ≤ effective_max max_apps)
      × (effective_max max_apps ≤ hard_max_apps)
unfolding claims claim_slot
claims_capped max_apps zero h = ground (arith, effective_max_range max_apps)
claims_capped max_apps (suc k) h =
    ground (arith, effective_max_range max_apps, claims_capped max_apps k)
