-- ===== src/Queue/Safety.antt =====
-- What holds in every state that the threads can reach.
use kubechecks.Common.{
  ℕ, zero, suc, Bool, true, Option, ltb, ◌≢◌, ◌≤◌, ◌<◌, Bytes, false, List, none, some, ◌≡◌, ap,
  ◌∙◌, inl, inr, arith, lookup, insert, lookup-insert, bytes_eq, bytes_eq_iff, nat_eq, length,
  if◌then◌else◌, ◌==◌, ==_iff, Bool-cases, Option-cases, ◌⊎◌,
}
use kubechecks.Queue.{
  PullRequest, CheckRequest, RepoQueue, RunningCheck, Cause, superseded, finished, shut_down,
  cancel_below, cancel_all, cancel, supersede, begin_check,
}
use kubechecks.Queue.Steps.{Worker, waiting, holding, checking, stopped, System}

-- Cancelled while the check runs.
abbrev pub is_stopped : Option Cause → Bool
is_stopped none = false
is_stopped (some superseded) = true
is_stopped (some finished) = false
is_stopped (some shut_down) = true

-- The map of running checks holds the worker's check and nothing else, and a check whose commit was
-- superseded has been cancelled, by then at the latest.
abbrev pub Runs : Worker → RepoQueue → Type 0
Runs waiting rq = (k : ℕ) → lookup k rq.running ≡ none
Runs (holding r) rq = (k : ℕ) → lookup k rq.running ≡ none
Runs stopped rq = (k : ℕ) → lookup k rq.running ≡ none
Runs (checking r ctx) rq =
    ((k : ℕ)
      → lookup k rq.running ≡ (
          if r.pull_request.check_id == k
          then some (record { sha = r.pull_request.sha; ctx = ctx })
          else none))
    × (ctx < rq.next_ctx)
    × ((latest : Bytes)
        → lookup r.pull_request.check_id rq.latest_sha ≡ some latest
        → bytes_eq latest r.pull_request.sha ≡ false
        → is_stopped (lookup ctx rq.causes) ≡ true)
    × (lookup ctx rq.causes ≡ some finished → ⊥)

pub record Inv (s : System) : Type 0 where
  pub bounded : length s.rq.queue ≤ s.rq.capacity
  pub fresh : (c : ℕ) → s.rq.next_ctx ≤ c → lookup c s.rq.causes ≡ none
  pub runs : Runs s.worker s.rq
  -- No context is cancelled from above before the manager's is.
  pub open_root : s.root_cancelled ≡ false → (c : ℕ) → lookup c s.rq.causes ≢ some shut_down

-- What a supersede does to the worker's check.
pub supersede-running : (rq : RepoQueue) (pr : PullRequest) → (supersede rq pr).running ≡ rq.running
unfolding supersede
supersede-running rq pr = ground arith

pub supersede-queue :
    (rq : RepoQueue) (pr : PullRequest)
    → ((supersede rq pr).queue ≡ rq.queue)
      × ((supersede rq pr).capacity ≡ rq.capacity)
      × ((supersede rq pr).next_ctx ≡ rq.next_ctx)
      × ((supersede rq pr).latest_sha ≡ insert pr.check_id pr.sha rq.latest_sha)
unfolding supersede
supersede-queue rq pr = ground arith

pub lookup-cancel :
    (ctx j : ℕ) (cause : Cause) (causes : List (ℕ × Cause))
    → lookup j (cancel ctx cause causes) ≡ (
        if ctx == j
        then (elim (lookup j causes) [ none ↦ some cause | some c ↦ some c ])
        else lookup j causes)
unfolding cancel
lookup-cancel ctx j cause causes = ground (arith, lookup-insert ctx j cause causes, ==_iff ctx j)

-- With one check running, a supersede cancels it if it is of the same PR and another commit.
supersede-causes :
    (rq : RepoQueue) (pr : PullRequest) (r : CheckRequest) (ctx j : ℕ)
    → lookup pr.check_id rq.running ≡ (
        if r.pull_request.check_id == pr.check_id
        then some (record { sha = r.pull_request.sha; ctx = ctx })
        else none)
    → lookup j (supersede rq pr).causes ≡ (
        if r.pull_request.check_id == pr.check_id
        then (if bytes_eq r.pull_request.sha pr.sha
            then lookup j rq.causes
            else lookup j (cancel ctx superseded rq.causes))
        else lookup j rq.causes)
unfolding supersede
supersede-causes rq pr r ctx j h = ground (arith, h)

pub fresh-supersede :
    (rq : RepoQueue) (pr : PullRequest) (c : ℕ)
    → ((r : RunningCheck) → lookup pr.check_id rq.running ≡ some r → r.ctx < rq.next_ctx)
    → ((d : ℕ) → rq.next_ctx ≤ d → lookup d rq.causes ≡ none)
    → rq.next_ctx ≤ c
    → lookup c (supersede rq pr).causes ≡ none
unfolding supersede
fresh-supersede rq pr c below old h = elim (Option-cases (lookup pr.check_id rq.running)) [
  | inl e ↦ rw (e, supersede) (old c h)
  | inr (r, e) ↦
      let lt = below r e in ground (arith, e, old c h, lookup-cancel r.ctx c superseded rq.causes)
]

pub Runs-below :
    (w : Worker) (rq : RepoQueue)
    → Runs w rq
    → (k : ℕ) (r : RunningCheck) → lookup k rq.running ≡ some r
    → r.ctx < rq.next_ctx
Runs-below waiting rq h k r e = absurd (ground (arith, h k))
Runs-below (holding q) rq h k r e = absurd (ground (arith, h k))
Runs-below stopped rq h k r e = absurd (ground (arith, h k))
Runs-below (checking q ctx) rq h k r e = ground (arith, h.0 k, h.1)

supersede-stale :
    (rq : RepoQueue) (pr : PullRequest) (r : CheckRequest) (ctx : ℕ) (latest : Bytes)
    → Runs (checking r ctx) rq
    → lookup r.pull_request.check_id (supersede rq pr).latest_sha ≡ some latest
    → bytes_eq latest r.pull_request.sha ≡ false
    → is_stopped (lookup ctx (supersede rq pr).causes) ≡ true
supersede-stale rq pr r ctx latest h e ne = ground (
  arith,
  h.0 pr.check_id,
  h.2 latest,
  h.3,
  (supersede-queue rq pr).3,
  lookup-insert pr.check_id r.pull_request.check_id pr.sha rq.latest_sha,
  supersede-causes rq pr r ctx ctx (h.0 pr.check_id),
  lookup-cancel ctx ctx superseded rq.causes,
  bytes_eq_iff r.pull_request.sha pr.sha,
  bytes_eq_iff pr.sha r.pull_request.sha,
)

supersede-open :
    (rq : RepoQueue) (pr : PullRequest) (r : CheckRequest) (ctx : ℕ)
    → Runs (checking r ctx) rq
    → lookup ctx (supersede rq pr).causes ≡ some finished
    → ⊥
supersede-open rq pr r ctx h e = ground (
  arith,
  h.3,
  supersede-causes rq pr r ctx ctx (h.0 pr.check_id),
  lookup-cancel ctx ctx superseded rq.causes,
)

pub supersede-Runs :
    (w : Worker) (rq : RepoQueue) (pr : PullRequest) → Runs w rq → Runs w (supersede rq pr)
supersede-Runs waiting rq pr h = λ k. ap (lookup k) (supersede-running rq pr) ∙ h k
supersede-Runs (holding q) rq pr h = λ k. ap (lookup k) (supersede-running rq pr) ∙ h k
supersede-Runs stopped rq pr h = λ k. ap (lookup k) (supersede-running rq pr) ∙ h k
supersede-Runs (checking r ctx) rq pr h = (
  (λ k. ap (lookup k) (supersede-running rq pr) ∙ h.0 k),
  omega (arith, (supersede-queue rq pr).2, h.1),
  (λ latest e ne. supersede-stale rq pr r ctx latest h e ne),
  (λ e. supersede-open rq pr r ctx h e),
)

pub supersede-shut_down :
    (rq : RepoQueue) (pr : PullRequest) (c : ℕ)
    → lookup c (supersede rq pr).causes ≡ some shut_down
    → lookup c rq.causes ≡ some shut_down
unfolding supersede
supersede-shut_down rq pr c h = elim (Option-cases (lookup pr.check_id rq.running)) [
  | inl e ↦ ground (arith, e, h)
  | inr (r, e) ↦ ground (arith, e, h, lookup-cancel r.ctx c superseded rq.causes)
]

pub lookup-cancel_below :
    (n j : ℕ) (causes : List (ℕ × Cause))
    → lookup j (cancel_below n causes) ≡ (
        if ltb j n
        then (elim (lookup j causes) [ none ↦ some shut_down | some c ↦ some c ])
        else lookup j causes)
unfolding cancel_below
lookup-cancel_below zero j causes = ground arith
lookup-cancel_below (suc n) j causes =
    ground
      (arith, lookup-cancel_below n j causes, lookup-cancel n j shut_down (cancel_below n causes))

pub cancel_all-Runs : (w : Worker) (rq : RepoQueue) → Runs w rq → Runs w (cancel_all rq)
unfolding cancel_all
cancel_all-Runs waiting rq h = h
cancel_all-Runs (holding q) rq h = h
cancel_all-Runs stopped rq h = h
cancel_all-Runs (checking r ctx) rq h = (
  h.0,
  h.1,
  (λ latest e ne. ground (arith, h.2 latest e ne, lookup-cancel_below rq.next_ctx ctx rq.causes)),
  (λ e. ground (arith, h.3, lookup-cancel_below rq.next_ctx ctx rq.causes)),
)

-- A check that begins gets a new context, and its commit is the latest that is recorded, if one is.
pub begin_check-some :
    (rq : RepoQueue) (pr : PullRequest) (ctx : ℕ) (rq' : RepoQueue)
    → begin_check rq pr ≡ (some ctx, rq')
    → (ctx ≡ rq.next_ctx)
      × (rq' ≡ record rq {
        running = insert pr.check_id (record { sha = pr.sha; ctx = rq.next_ctx }) rq.running;
        next_ctx = suc rq.next_ctx;
      })
      × ((lookup pr.check_id rq.latest_sha ≡ none)
          ⊎ (lookup pr.check_id rq.latest_sha ≡ some pr.sha))
unfolding begin_check
begin_check-some rq pr ctx rq' e = elim (Option-cases (lookup pr.check_id rq.latest_sha)) [
  | inl n ↦
      let started = rw (n, begin_check) at e in
      (ground (arith, started), ground (arith, started), inl n)
  | inr (latest, l) ↦ elim (Bool-cases (bytes_eq latest pr.sha)) [
    | inl same ↦
        let started = rw (l, same, begin_check) at e in
        (
          ground (arith, started),
          ground (arith, started),
          inr (l ∙ ap some ((bytes_eq_iff latest pr.sha).0 same)),
        )
    | inr other ↦
        let refused = rw (l, other, begin_check) at e in
        let no_context : ⊥ = ground (arith, refused) in absurd no_context
  ]
]

pub begin_check-none :
    (rq : RepoQueue) (pr : PullRequest) (rq' : RepoQueue)
    → begin_check rq pr ≡ (none, rq')
    → rq' ≡ rq
unfolding begin_check
begin_check-none rq pr rq' e = ground arith
