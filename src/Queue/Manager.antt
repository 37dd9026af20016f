-- ===== src/Queue/Manager.antt =====
-- pkg/queue/manager.go, `QueueManager`: one queue for each repository, made on first use.
use kubechecks.Common.{
  ℕ, ◌+◌, Bytes, Bool, true, false, List, [], ◌∷◌, ◌++◌, Option, none, some, ◌≡◌, arith, lookup,
  insert, lookup-insert, bytes_eq, bytes_eq_iff, bytes_instance, length, if◌then◌else◌, codes, ℤ,
  pos, negsuc, ◌==◌,
}
use kubechecks.RepoUrl.{RepoUrl, Url, canonicalize}
use kubechecks.Queue.{PullRequest, CheckRequest, RepoQueue, supersede, offer, new_repo_queue}

pub record QueueManager : Type 0 where
  pub queues : List (Bytes × RepoQueue)
  pub queue_size : ℕ
  pub cancel_grace : ℕ
  pub root_cancelled : Bool

-- `NewQueueManager`; durations are in nanoseconds
unfoldable pub new_queue_manager : ℤ → ℤ → QueueManager
new_queue_manager queue_size cancel_grace = record {
  queues = [];
  queue_size = (elim queue_size [ pos n ↦ if n == 0 then 100 else n | negsuc n ↦ 100 ]);
  cancel_grace = (elim cancel_grace [
    | pos n ↦ if n == 0 then 3_000_000_000 else n
    | negsuc n ↦ 3_000_000_000
  ]);
  root_cancelled = false;
}

pub data EnqueueError : Type 0 where
  bad_url : EnqueueError
  queue_full : EnqueueError

-- What `Enqueue` returns: `none` stands for no error.
abbrev pub Outcome : Type 0
Outcome = QueueManager × Option EnqueueError

-- `repoKey`
unfoldable pub repo_key : RepoUrl → Bytes
repo_key r = r.host ++ (codes "/" ++ r.path)

-- The queue of the repository, made if it is missing. The second look under the write lock finds
-- what another handler has made meanwhile, so the two looks are one step.
unfoldable pub find_queue : QueueManager → Bytes → Bytes → RepoQueue
find_queue qm key url = elim (lookup key qm.queues) [
  | none ↦ new_repo_queue url qm.queue_size
  | some q ↦ q
]

unfoldable pub enqueue_in : QueueManager → Bytes → CheckRequest → Outcome
unfolding find_queue
enqueue_in qm key request =
    let queue = supersede (find_queue qm key request.pull_request.clone_url) request.pull_request in
    elim (offer queue request) [
      | none ↦ (record qm { queues = insert key queue qm.queues }, some queue_full)
      | some queue' ↦ (record qm { queues = insert key queue' qm.queues }, none)
    ]

module _ (url_parse giturls_parse : Bytes → Option Url) where
  unfoldable pub enqueue : QueueManager → CheckRequest → Outcome
  unfolding enqueue_in repo_key
  enqueue qm request = elim (canonicalize url_parse giturls_parse request.pull_request.clone_url) [
    | none ↦ (qm, some bad_url)
    | some repo ↦ enqueue_in qm (repo_key repo) request
  ]

-- `close(queue.done)` for every queue
unfoldable pub close_all : List (Bytes × RepoQueue) → List (Bytes × RepoQueue)
close_all [] = []
close_all ((k, q) ∷ qs) = (k, record q { done = true }) ∷ close_all qs

-- `Shutdown`: `in_time` says whether all workers stopped before the context was done; if not, the
-- running checks are cancelled, and the error of the context is returned.
unfoldable pub shutdown : QueueManager → Bool → QueueManager × Bool
unfolding close_all
shutdown qm in_time =
    let closed = record qm { queues = close_all qm.queues } in
    if in_time then (closed, true) else (record closed { root_cancelled = true }, false)

-- `totalSize` of `updateTotalQueueMetrics`
unfoldable pub total_queued : List (Bytes × RepoQueue) → ℕ
total_queued [] = 0
total_queued ((k, q) ∷ qs) = length q.queue + total_queued qs

-- What waits in the queue of a repository; nothing if it has no queue yet.
unfoldable pub waiting_in : QueueManager → Bytes → List CheckRequest
waiting_in qm key = elim (lookup key qm.queues) [ none ↦ [] | some q ↦ q.queue ]

supersede-kept :
    (rq : RepoQueue) (pr : PullRequest)
    → ((supersede rq pr).queue ≡ rq.queue) × ((supersede rq pr).capacity ≡ rq.capacity)
unfolding supersede
supersede-kept rq pr = ground arith

-- An enqueue without an error puts the request behind what waits for its repository and touches no
-- other; one that finds the queue full adds nothing to any queue.
pub waiting_in-enqueue_in :
    (qm : QueueManager) (key other : Bytes) (request : CheckRequest)
    → waiting_in (enqueue_in qm key request).0 other ≡ (
        if bytes_eq key other
        then (elim (enqueue_in qm key request).1 [
          | none ↦ waiting_in qm other ++ request ∷ []
          | some e ↦ waiting_in qm other
        ])
        else waiting_in qm other)
unfolding waiting_in enqueue_in offer new_repo_queue
waiting_in-enqueue_in qm key other request =
    let found = find_queue qm key request.pull_request.clone_url in
    let queue = supersede found request.pull_request in
    ground (
      arith,
      bytes_eq_iff key other,
      supersede-kept found request.pull_request,
      lookup-insert key other queue qm.queues,
      lookup-insert key other (record queue { queue = queue.queue ++ request ∷ [] }) qm.queues,
    )
