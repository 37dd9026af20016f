-- ===== src/Queue/Laws.antt =====
-- What the queue of a repository promises, and where it falls short of it.
use kubechecks.Common.{
  ℕ, suc, true, false, Bool-cases, ◌⊎◌, inl, inr, ◌≤◌, Bytes, List, [], ◌∷◌, Option, none, some,
  ◌≡◌, ◌≢◌, refl, arith, lookup, insert, lookup-insert, lookup-delete, bytes_eq, bytes_eq_iff,
  nat_eq, length, if◌then◌else◌, ◌==◌, subst,
}
use kubechecks.Queue.{
  PullRequest, CheckRequest, RepoQueue, Cause, superseded, finished, shut_down, begin_check,
  end_check, end_running, last_by_pr, new_repo_queue,
}
use kubechecks.Queue.Steps.{waiting, checking, System, Reach, here, next}
use kubechecks.Queue.Safety.{Inv, Runs, is_stopped}
use kubechecks.Queue.Superseding.{Step-Inv}

-- The threads at the start.
unfoldable pub start : Bytes → ℕ → System
unfolding new_repo_queue
start url capacity = record {
  rq = new_repo_queue url capacity;
  worker = waiting;
  offering = [];
  root_cancelled = false;
}

start-Inv : (url : Bytes) (capacity : ℕ) → Inv (start url capacity)
unfolding start lookup
start-Inv url capacity = record {
  bounded = omega arith;
  fresh = λ c h. refl;
  runs = λ k. refl;
  open_root = λ o c e. cc;
}

Reach-Inv : {s t : System} → Reach s t → Inv s → Inv t
Reach-Inv here v = v
Reach-Inv (next r st) v = Step-Inv st (Reach-Inv r v)

stopped-cases :
    (c : Option Cause) → is_stopped c ≡ true → (c ≡ some superseded) ⊎ (c ≡ some shut_down)
stopped-cases none h = absurd (ground arith)
stopped-cases (some superseded) h = inl refl
stopped-cases (some finished) h = absurd (ground arith)
stopped-cases (some shut_down) h = inr refl

-- Whatever the threads do, the queue stays within its capacity, and while the worker checks a
-- request the map of running checks holds that check under its PR and nothing else.
pub reach_bounded :
    (url : Bytes) (capacity : ℕ) (s : System) (r : CheckRequest) (ctx k : ℕ)
    → Reach (start url capacity) s
    → s.worker ≡ checking r ctx
    → (length s.rq.queue ≤ s.rq.capacity)
      × (lookup k s.rq.running ≡ (
          if r.pull_request.check_id == k
          then some (record { sha = r.pull_request.sha; ctx = ctx })
          else none))
reach_bounded url capacity s r ctx k reach w =
    let v = Reach-Inv reach (start-Inv url capacity) in
    (v.bounded, (subst (λ w'. Runs w' s.rq) w v.runs).0 k)

-- Whatever the threads do, a running check has been cancelled as soon as another commit of its PR is
-- the latest: as superseded, unless a shutdown that was out of time had cancelled all checks before.
pub superseded_is_cancelled :
    (url : Bytes) (capacity : ℕ) (s : System) (r : CheckRequest) (ctx : ℕ) (latest : Bytes)
    → Reach (start url capacity) s
    → s.worker ≡ checking r ctx
    → lookup r.pull_request.check_id s.rq.latest_sha ≡ some latest
    → latest ≢ r.pull_request.sha
    → (lookup ctx s.rq.causes ≡ some superseded)
      ⊎ ((s.root_cancelled ≡ true) × (lookup ctx s.rq.causes ≡ some shut_down))
superseded_is_cancelled url capacity s r ctx latest reach w l ne =
    let v = Reach-Inv reach (start-Inv url capacity) in
    let hit =
      (subst (λ w'. Runs w' s.rq) w v.runs).2 latest l
        (ground (arith, bytes_eq_iff latest r.pull_request.sha)) in
    elim (stopped-cases (lookup ctx s.rq.causes) hit) [
      | inl e ↦ inl e
      | inr e ↦ elim (Bool-cases s.root_cancelled) [
        | inl over ↦ inr (over, e)
        | inr lasts ↦ absurd (v.open_root lasts ctx e)
      ]
    ]

-- A commit that is not the latest recorded for its PR does not begin, and leaves the queue as it is;
-- the latest does begin.
pub begin_check_latest :
    (rq : RepoQueue) (pr : PullRequest) (latest : Bytes)
    → lookup pr.check_id rq.latest_sha ≡ some latest
    → begin_check rq pr ≡ (
        if bytes_eq latest pr.sha
        then (
          some rq.next_ctx,
          record rq {
            running = insert pr.check_id (record { sha = pr.sha; ctx = rq.next_ctx }) rq.running;
            next_ctx = suc rq.next_ctx;
          },
        )
        else (none, rq))
unfolding begin_check
begin_check_latest rq pr latest e = ground (arith, e)

-- When the check of the latest commit of a PR ends, the record of that commit is dropped with it,
-- so any other commit of the PR that still waits begins as well.
pub end_check_forgets :
    (rq : RepoQueue) (pr stale : PullRequest)
    → lookup pr.check_id rq.latest_sha ≡ some pr.sha
    → stale.check_id ≡ pr.check_id
    → (begin_check (end_check rq pr) stale).0 ≡ some rq.next_ctx
unfolding begin_check end_check end_running
end_check_forgets rq pr stale latest same = ground (
  arith,
  latest,
  same,
  bytes_eq_iff pr.sha pr.sha,
  lookup-delete pr.check_id stale.check_id rq.latest_sha,
)

-- The last request of a PR among some.
unfoldable pub last_request : ℕ → List CheckRequest → Option CheckRequest
last_request id [] = none
last_request id (r ∷ rs) = elim (last_request id rs) [
  | some q ↦ some q
  | none ↦ if r.pull_request.check_id == id then some r else none
]

-- At shutdown each PR with a dropped request has one entry to be notified by, its last request, and
-- no other PR gains one.
pub lookup-last_by_pr :
    (id : ℕ) (pr_map : List (ℕ × CheckRequest)) (rs : List CheckRequest)
    → lookup id (last_by_pr pr_map rs)
      ≡ elim (last_request id rs) [ some r ↦ some r | none ↦ lookup id pr_map ]
unfolding last_by_pr last_request
lookup-last_by_pr id pr_map [] = refl
lookup-last_by_pr id pr_map (r ∷ rs) = ground (
  arith,
  lookup-last_by_pr id (insert r.pull_request.check_id r pr_map) rs,
  lookup-insert r.pull_request.check_id id r pr_map,
)
