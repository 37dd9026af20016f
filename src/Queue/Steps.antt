-- ===== src/Queue/Steps.antt =====
-- The threads that share a repository's queue: any number of handlers that enqueue, the worker, and
-- the shutdown. Each step is a stretch that the mutex or the channel makes atomic. A context is the
-- one that `begin` makes, from which that of `checkTimeout` is made in turn.
use kubechecks.Common.{if◌then◌else◌, ℕ, Bool, true, List, ◌∷◌, ◌++◌, none, some, ◌≡◌}
use kubechecks.Queue.{
  CheckRequest, RepoQueue, supersede, begin_check, end_check, cancel_all, offer, count_processed,
  notify_dropped_requests,
}

-- Where the worker stands: `holding` has received a request, `checking` runs its check.
pub data Worker : Type 0 where
  waiting : Worker
  holding : CheckRequest → Worker
  checking : CheckRequest → ℕ → Worker
  stopped : Worker

pub record System : Type 0 where
  pub rq : RepoQueue
  pub worker : Worker
  -- Requests between `supersede` and the attempt to send.
  pub offering : List CheckRequest
  -- Whether the manager's context has been cancelled.
  pub root_cancelled : Bool

-- The steps, with the states as equations.
pub data Step (s t : System) : Type 0 where
  -- `Enqueue` records the commit and cancels an older check.
  arrives :
      (r : CheckRequest)
      → t ≡ record s { rq = supersede s.rq r.pull_request; offering = r ∷ s.offering }
      → Step s t
  -- Then it sends the request, or finds the queue full.
  sends :
      (before : List CheckRequest) (r : CheckRequest) (after : List CheckRequest) (rq : RepoQueue)
      → s.offering ≡ before ++ r ∷ after
      → offer s.rq r ≡ some rq
      → t ≡ record s { rq = rq; offering = before ++ after }
      → Step s t
  rejects :
      (before : List CheckRequest) (r : CheckRequest) (after : List CheckRequest)
      → s.offering ≡ before ++ r ∷ after
      → offer s.rq r ≡ none
      → t ≡ record s { offering = before ++ after }
      → Step s t
  -- The worker receives, and begins the check or skips it. A context that is made from a cancelled
  -- one is cancelled at once.
  receives :
      (r : CheckRequest) (rest : List CheckRequest)
      → s.worker ≡ waiting
      → s.rq.queue ≡ r ∷ rest
      → t ≡ record s { rq = record s.rq { queue = rest }; worker = holding r }
      → Step s t
  begins :
      (r : CheckRequest) (ctx : ℕ) (rq : RepoQueue)
      → s.worker ≡ holding r
      → begin_check s.rq r.pull_request ≡ (some ctx, rq)
      → t ≡ record s {
        rq = (if s.root_cancelled then cancel_all rq else rq);
        worker = checking r ctx;
      }
      → Step s t
  skips :
      (r : CheckRequest) (rq : RepoQueue)
      → s.worker ≡ holding r
      → begin_check s.rq r.pull_request ≡ (none, rq)
      → t ≡ record s { rq = rq; worker = waiting }
      → Step s t
  -- The check ends, with or without an error.
  ends :
      (r : CheckRequest) (ctx : ℕ) (failed : Bool)
      → s.worker ≡ checking r ctx
      → t
        ≡ record s { rq = end_check (count_processed s.rq failed) r.pull_request; worker = waiting }
      → Step s t
  -- `Shutdown` closes `done`, and the worker drains the queue and stops.
  closes : t ≡ record s { rq = record s.rq { done = true } } → Step s t
  stops :
      s.worker ≡ waiting
      → s.rq.done ≡ true
      → t ≡ record s { rq = (notify_dropped_requests s.rq).0; worker = stopped }
      → Step s t
  -- Out of time, it cancels every context.
  cancels_all :
      s.rq.done ≡ true → t ≡ record s { rq = cancel_all s.rq; root_cancelled = true } → Step s t

pub data Reach (s : System) : System → Type 0 where
  here : Reach s s
  next : {t u : System} → Reach s t → Step t u → Reach s u
