-- ===== src/Tests/Queue.antt =====
-- pkg/queue/manager.go: two commits of a PR that meet in the queue.
use kubechecks.Common.{
  ◌⊎◌, true, ◌≤◌, Bytes, codes, [], ◌∷◌, ◌++◌, Option, some, none, ◌≡◌, refl, lookup, insert,
  nat_eq, bytes_eq, length, if◌then◌else◌, ◌==◌, bytes_instance, false,
}
use kubechecks.RepoUrl.{Url}
use kubechecks.Queue.{
  CheckRequest, RepoQueue, superseded, shut_down, supersede, begin_check, end_check, offer,
  new_repo_queue,
}
use kubechecks.Queue.Steps.{
  System, holding, checking, Reach, arrives, sends, receives, begins, here, next,
}
use kubechecks.Queue.Laws.{start, reach_bounded, superseded_is_cancelled, end_check_forgets}
use kubechecks.Queue.Manager.{QueueManager, enqueue_in, waiting_in, waiting_in-enqueue_in}

abbrev request_of : Bytes → CheckRequest
request_of sha = record {
  pull_request = record { clone_url = []; check_id = 7; sha = sha };
  replan_comment_message = [];
}

abbrev older : CheckRequest
older = request_of (codes "a")

abbrev newer : CheckRequest
newer = request_of (codes "ab")

abbrev arrived : System
arrived = record (start [] 1) {
  rq = supersede (start [] 1).rq older.pull_request;
  offering = older ∷ [];
}

abbrev sent : System
sent = record arrived { rq = record arrived.rq { queue = older ∷ [] }; offering = [] }

abbrev received : System
received = record sent { rq = record sent.rq { queue = [] }; worker = holding older }

abbrev begun : System
begun = record received {
  rq = (begin_check received.rq older.pull_request).1;
  worker = checking older 0;
}

abbrev passed : System
passed = record begun { rq = supersede begun.rq newer.pull_request; offering = newer ∷ [] }

passed-Reach : Reach (start [] 1) passed
unfolding start new_repo_queue supersede begin_check offer lookup insert bytes_eq
passed-Reach =
    next
      (next
        (next (next (next here (arrives older refl)) (sends [] older [] sent.rq refl refl refl))
          (receives older [] refl refl refl))
        (begins older 0 begun.rq refl refl refl))
      (arrives newer refl)

superseded_is_cancelled_example :
    (lookup 0 passed.rq.causes ≡ some superseded)
    ⊎ ((passed.root_cancelled ≡ true) × (lookup 0 passed.rq.causes ≡ some shut_down))
unfolding start new_repo_queue supersede begin_check lookup insert bytes_eq
superseded_is_cancelled_example =
    superseded_is_cancelled [] 1 passed older 0 (codes "ab") passed-Reach refl refl (λ e. cc)

reach_bounded_example :
    (length passed.rq.queue ≤ passed.rq.capacity)
    × (lookup 7 passed.rq.running ≡ (
        if older.pull_request.check_id == 7
        then some (record { sha = older.pull_request.sha; ctx = 0 })
        else none))
unfolding start new_repo_queue supersede begin_check lookup insert bytes_eq
reach_bounded_example = reach_bounded [] 1 passed older 0 7 passed-Reach refl

abbrev full : RepoQueue
full = record (new_repo_queue [] 1) {
  queue = older ∷ [];
  running = (7, record { sha = codes "a"; ctx = 0 }) ∷ [];
  next_ctx = 1;
}

abbrev latest_older : RepoQueue
latest_older = record full { latest_sha = (7, codes "a") ∷ [] }

end_check_forgets_example :
    (begin_check (end_check latest_older older.pull_request) newer.pull_request).0
    ≡ some latest_older.next_ctx
unfolding lookup
end_check_forgets_example =
    end_check_forgets latest_older older.pull_request newer.pull_request refl refl

abbrev manager : QueueManager
manager = record {
  queues = (codes "h/r", full) ∷ [];
  queue_size = 1;
  cancel_grace = 1;
  root_cancelled = false;
}

waiting_in-enqueue_in_example :
    waiting_in (enqueue_in manager (codes "h/r") newer).0 (codes "h/r") ≡ (
      if bytes_eq (codes "h/r") (codes "h/r")
      then (elim (enqueue_in manager (codes "h/r") newer).1 [
        | none ↦ waiting_in manager (codes "h/r") ++ newer ∷ []
        | some e ↦ waiting_in manager (codes "h/r")
      ])
      else waiting_in manager (codes "h/r"))
waiting_in-enqueue_in_example = waiting_in-enqueue_in manager (codes "h/r") (codes "h/r") newer

-- A parser that takes the host to be "h" and the text to be the path.
abbrev parse : Bytes → Option Url
parse s = some (record { host = codes "h"; path = s; query = [] })
