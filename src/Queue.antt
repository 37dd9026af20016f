-- ===== src/Queue.antt =====
-- pkg/queue/manager.go: a queue of check requests for each repository, with one worker each.
-- Metrics, logs and clock readings are left out. A channel is the list of what waits in it, oldest
-- first, and a context is a number under which its first cancellation is recorded.
pub mod Manager
pub mod Steps
pub mod Safety
pub mod Superseding
pub mod Laws
use kubechecks.Common.{
  ℕ, zero, suc, ◌+◌, Bytes, Bool, true, false, not, List, [], ◌∷◌, ◌++◌, Option, none, some, lookup,
  insert, delete, bytes_eq, nat_eq, bytes_instance, length, ltb, if◌then◌else◌, codes,
}

-- What the queue reads of a `vcs.PullRequest`.
pub record PullRequest : Type 0 where
  pub clone_url : Bytes
  pub check_id : ℕ
  pub sha : Bytes

-- The container, the processors and the reviewer are handed on as they are; the queue itself reads
-- the message by which a check is asked for again.
pub record CheckRequest : Type 0 where
  pub pull_request : PullRequest
  pub replan_comment_message : Bytes

-- `ErrCheckSuperseded`, or `context.Canceled` from the end of the check or from the manager's context.
pub data Cause : Type 0 where
  superseded : Cause
  finished : Cause
  shut_down : Cause

pub record RunningCheck : Type 0 where
  pub sha : Bytes
  pub ctx : ℕ

pub record RepoQueue : Type 0 where
  pub repo_url : Bytes
  pub queue : List CheckRequest
  pub capacity : ℕ
  pub done : Bool
  pub processed : ℕ
  pub latest_sha : List (ℕ × Bytes)
  pub running : List (ℕ × RunningCheck)
  -- The contexts that were cancelled, with their causes, and the next context.
  pub causes : List (ℕ × Cause)
  pub next_ctx : ℕ

-- A `context.CancelCauseFunc`: only the first cancellation counts.
unfoldable pub cancel : ℕ → Cause → List (ℕ × Cause) → List (ℕ × Cause)
cancel ctx cause causes = elim (lookup ctx causes) [
  | none ↦ insert ctx cause causes
  | some _ ↦ causes
]

-- Every context of a number below the bound that was not cancelled before.
unfoldable pub cancel_below : ℕ → List (ℕ × Cause) → List (ℕ × Cause)
unfolding cancel
cancel_below zero causes = causes
cancel_below (suc n) causes = cancel n shut_down (cancel_below n causes)

-- `cancelAll` cancels the manager's context, and with it every context that was made from it.
unfoldable pub cancel_all : RepoQueue → RepoQueue
unfolding cancel_below
cancel_all rq = record rq { causes = cancel_below rq.next_ctx rq.causes }

unfoldable pub supersede : RepoQueue → PullRequest → RepoQueue
unfolding cancel
supersede rq pr =
    let rq' = record rq { latest_sha = insert pr.check_id pr.sha rq.latest_sha } in
    elim (lookup pr.check_id rq.running) [
      | none ↦ rq'
      | some r ↦
          if not (bytes_eq r.sha pr.sha)
          then record rq' { causes = cancel r.ctx superseded rq.causes }
          else rq'
    ]

-- The context of the check, if it may run, and the queue behind the call.
unfoldable pub begin_check : RepoQueue → PullRequest → Option ℕ × RepoQueue
begin_check rq pr =
    let ctx = rq.next_ctx in
    let started = record rq {
      running = insert pr.check_id (record { sha = pr.sha; ctx = ctx }) rq.running;
      next_ctx = suc ctx;
    } in
    elim (lookup pr.check_id rq.latest_sha) [
      | none ↦ (some ctx, started)
      | some latest ↦ if not (bytes_eq latest pr.sha) then (none, rq) else (some ctx, started)
    ]

-- `if r, ok := rq.running[pr.CheckID]; ok && r.sha == pr.SHA { … }`
unfoldable pub end_running : RepoQueue → PullRequest → RepoQueue
unfolding cancel
end_running rq pr = elim (lookup pr.check_id rq.running) [
  | none ↦ rq
  | some r ↦
      if bytes_eq r.sha pr.sha
      then record rq {
        causes = cancel r.ctx finished rq.causes;
        running = delete pr.check_id rq.running;
      }
      else rq
]

-- `rq.latestSHA[pr.CheckID] == pr.SHA`, a missing entry being the empty text
unfoldable pub end_check : RepoQueue → PullRequest → RepoQueue
unfolding end_running
end_check rq pr =
    let rq' = end_running rq pr in
    let latest : Bytes = elim (lookup pr.check_id rq.latest_sha) [ none ↦ [] | some s ↦ s ] in
    if bytes_eq latest pr.sha
    then record rq' { latest_sha = delete pr.check_id rq.latest_sha }
    else rq'

-- `select { case queue.queue <- request: … default: … }`; `none` is the error "queue full"
unfoldable pub offer : RepoQueue → CheckRequest → Option RepoQueue
offer rq request =
    if ltb (length rq.queue) rq.capacity
    then some (record rq { queue = rq.queue ++ request ∷ [] })
    else none

-- The result of `processFunc` decides whether the request counts as processed.
unfoldable pub count_processed : RepoQueue → Bool → RepoQueue
count_processed rq failed = if failed then rq else record rq { processed = rq.processed + 1 }

-- `processRequest`, with no other call in between: `run` is `processFunc`, which says whether it
-- failed.
unfoldable pub process_request : (ℕ → CheckRequest → Bool) → RepoQueue → CheckRequest → RepoQueue
unfolding begin_check end_check count_processed
process_request run rq request =
    let (started, rq') = begin_check rq request.pull_request in
    elim started [
      | none ↦ rq'
      | some ctx ↦ end_check (count_processed rq' (run ctx request)) request.pull_request
    ]

-- `prMap[request.PullRequest.CheckID] = request` for everything that waits
unfoldable pub last_by_pr : List (ℕ × CheckRequest) → List CheckRequest → List (ℕ × CheckRequest)
last_by_pr pr_map [] = pr_map
last_by_pr pr_map (r ∷ rs) = last_by_pr (insert r.pull_request.check_id r pr_map) rs

-- The notice for a request that was dropped; it begins with a warning sign, in UTF-8.
unfoldable pub dropped_message : CheckRequest → Bytes
dropped_message request =
    (0xe2 ∷ 0x9a ∷ 0xa0 ∷ 0xef ∷ 0xb8 ∷ 0x8f ∷ [])
    ++ (codes
          " Kubechecks is shutting down. This check request was dropped.\n\nPlease re-trigger by commenting `"
        ++ (request.replan_comment_message ++ codes "`."))

unfoldable pub notices : List (ℕ × CheckRequest) → List (PullRequest × Bytes)
unfolding dropped_message
notices [] = []
notices ((id, r) ∷ rs) = (r.pull_request, dropped_message r) ∷ notices rs

-- `notifyDroppedRequests` within its time: the queue is drained, and one notice goes to each PR.
unfoldable pub notify_dropped_requests : RepoQueue → RepoQueue × List (PullRequest × Bytes)
unfolding last_by_pr notices
notify_dropped_requests rq = (record rq { queue = [] }, notices (last_by_pr [] rq.queue))

-- The queue that `Enqueue` makes for a repository.
unfoldable pub new_repo_queue : Bytes → ℕ → RepoQueue
new_repo_queue repo_url capacity = record {
  repo_url = repo_url;
  queue = [];
  capacity = capacity;
  done = false;
  processed = 0;
  latest_sha = [];
  running = [];
  causes = [];
  next_ctx = 0;
}
