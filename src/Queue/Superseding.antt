-- ===== src/Queue/Superseding.antt =====
-- The invariant of the threads, and what it says of superseded checks.
use kubechecks.Common.{
  ℕ, suc, ◌+◌, ◌≤◌, ◌<◌, Bool, true, false, List, [], ◌∷◌, ◌++◌, none, some, ◌≡◌, ap, ◌∙◌, arith,
  lookup, insert, lookup-insert, lookup-delete, bytes_eq_iff, nat_eq, length, length-append, subst,
  Option-cases, inl, inr, if◌then◌else◌, ◌⊎◌,
}
use kubechecks.Queue.{
  PullRequest, CheckRequest, RepoQueue, finished, shut_down, cancel_all, supersede, begin_check,
  end_check, end_running, offer, count_processed, notify_dropped_requests,
}
use kubechecks.Queue.Steps.{
  Worker, waiting, holding, checking, stopped, System, Step, arrives, sends, rejects, receives,
  begins, skips, ends, closes, stops, cancels_all,
}
use kubechecks.Queue.Safety.{
  Inv, Runs, Runs-below, fresh-supersede, supersede-Runs, supersede-queue, lookup-cancel,
  lookup-cancel_below, cancel_all-Runs, supersede-shut_down, begin_check-some, begin_check-none,
}

offer-some :
    (rq : RepoQueue) (r : CheckRequest) (rq' : RepoQueue)
    → offer rq r ≡ some rq'
    → (length rq.queue < rq.capacity) × (rq' ≡ record rq { queue = rq.queue ++ r ∷ [] })
unfolding offer
offer-some rq r rq' e = ground arith

-- Under the invariant the end of a check takes it off the map.
end-Runs :
    (rq : RepoQueue) (r : CheckRequest) (ctx : ℕ) (k : ℕ)
    → Runs (checking r ctx) rq
    → lookup k (end_check rq r.pull_request).running ≡ none
unfolding end_check end_running
end-Runs rq r ctx k h = ground (
  arith,
  h.0 k,
  h.0 r.pull_request.check_id,
  bytes_eq_iff r.pull_request.sha r.pull_request.sha,
  lookup-delete r.pull_request.check_id k rq.running,
)

end-fresh :
    (rq : RepoQueue) (r : CheckRequest) (ctx c : ℕ)
    → Runs (checking r ctx) rq
    → (lookup c rq.causes ≡ none)
    → rq.next_ctx ≤ c
    → lookup c (end_check rq r.pull_request).causes ≡ none
unfolding end_check end_running
end-fresh rq r ctx c h old le =
    ground (arith, old, h.1, h.0 r.pull_request.check_id, lookup-cancel ctx c finished rq.causes)

end-rest :
    (rq : RepoQueue) (pr : PullRequest)
    → ((end_check rq pr).queue ≡ rq.queue)
      × ((end_check rq pr).capacity ≡ rq.capacity)
      × ((end_check rq pr).next_ctx ≡ rq.next_ctx)
unfolding end_check end_running
end-rest rq pr = ground arith

begins-Runs :
    (rq : RepoQueue) (r : CheckRequest)
    → ((k : ℕ) → lookup k rq.running ≡ none)
    → ((c : ℕ) → rq.next_ctx ≤ c → lookup c rq.causes ≡ none)
    → ((lookup r.pull_request.check_id rq.latest_sha ≡ none)
        ⊎ (lookup r.pull_request.check_id rq.latest_sha ≡ some r.pull_request.sha))
    → Runs (checking r rq.next_ctx) (record rq {
      running =
          insert r.pull_request.check_id
            (record { sha = r.pull_request.sha; ctx = rq.next_ctx })
            rq.running;
      next_ctx = suc rq.next_ctx;
    })
begins-Runs rq r empty fresh latest_or = (
  (λ k.
      lookup-insert r.pull_request.check_id k
        (record { sha = r.pull_request.sha; ctx = rq.next_ctx }) rq.running
      ∙ ground (arith, empty k)),
  omega arith,
  (λ latest e ne. ground (arith, bytes_eq_iff latest r.pull_request.sha)),
  (λ e. ground (arith, fresh rq.next_ctx (omega arith))),
)

idle :
    (w : Worker) (rq : RepoQueue)
    → Runs w rq
    → ((r : CheckRequest) → w ≡ holding r → (k : ℕ) → lookup k rq.running ≡ none)
      × (w ≡ waiting → (k : ℕ) → lookup k rq.running ≡ none)
idle waiting rq h = ((λ r e. h), λ e. h)
idle (holding q) rq h = ((λ r e. h), λ e. h)
idle stopped rq h = ((λ r e. h), λ e. h)
idle (checking q ctx) rq h = ((λ r e. absurd (cc)), λ e. absurd (cc))

-- Whether a queue's worker check is right depends on the maps alone.
Runs-queue :
    (w : Worker) (rq : RepoQueue) (queue : List CheckRequest) (done : Bool) (processed : ℕ)
    → Runs w rq
    → Runs w (record rq { queue = queue; done = done; processed = processed })
Runs-queue waiting rq queue done processed h = h
Runs-queue (holding q) rq queue done processed h = h
Runs-queue stopped rq queue done processed h = h
Runs-queue (checking q ctx) rq queue done processed h = h

abbrev at : Bool → RepoQueue → Worker → List CheckRequest → System
at root rq w offering = record { rq = rq; worker = w; offering = offering; root_cancelled = root }

end-shut_down :
    (rq : RepoQueue) (pr : PullRequest) (c : ℕ)
    → lookup c (end_check rq pr).causes ≡ some shut_down
    → lookup c rq.causes ≡ some shut_down
unfolding end_check end_running
end-shut_down rq pr c h = elim (Option-cases (lookup pr.check_id rq.running)) [
  | inl e ↦ ground (arith, e, h)
  | inr (r, e) ↦ ground (arith, e, h, lookup-cancel r.ctx c finished rq.causes)
]

ends-Inv :
    (root : Bool) (rq : RepoQueue) (r : CheckRequest) (ctx : ℕ) (offering : List CheckRequest)
    → Inv (at root rq (checking r ctx) offering)
    → Inv (at root (end_check rq r.pull_request) waiting offering)
ends-Inv root rq r ctx offering v =
    let rest = end-rest rq r.pull_request in
    record {
      bounded = omega (arith, v.bounded, rest.1, ap length rest.0);
      fresh = λ c le.
          end-fresh rq r ctx c v.runs (v.fresh c (omega (arith, le, rest.2)))
            (omega (arith, le, rest.2));
      runs = λ k. end-Runs rq r ctx k v.runs;
      open_root = λ o c e. v.open_root o c (end-shut_down rq r.pull_request c e);
    }

count-Inv :
    (root : Bool) (rq : RepoQueue) (w : Worker) (offering : List CheckRequest) (failed : Bool)
    → Inv (at root rq w offering)
    → Inv (at root (count_processed rq failed) w offering)
unfolding count_processed
count-Inv root rq w offering true v = v
count-Inv root rq w offering false v = record {
  bounded = v.bounded;
  fresh = v.fresh;
  runs = Runs-queue w rq rq.queue rq.done (rq.processed + 1) v.runs;
  open_root = v.open_root;
}

arrives-Inv :
    (s : System) (r : CheckRequest)
    → Inv s
    → Inv (record s { rq = supersede s.rq r.pull_request; offering = r ∷ s.offering })
arrives-Inv s r v =
    let same = supersede-queue s.rq r.pull_request in
    record {
      bounded = omega (arith, v.bounded, same.1, ap length same.0);
      fresh = λ c le.
          fresh-supersede s.rq r.pull_request c
            (Runs-below s.worker s.rq v.runs r.pull_request.check_id) v.fresh
            (omega (arith, le, same.2));
      runs = supersede-Runs s.worker s.rq r.pull_request v.runs;
      open_root = λ o c e. v.open_root o c (supersede-shut_down s.rq r.pull_request c e);
    }

begins-Inv :
    (s : System) (r : CheckRequest) (ctx : ℕ) (rq : RepoQueue)
    → s.worker ≡ holding r
    → begin_check s.rq r.pull_request ≡ (some ctx, rq)
    → Inv s
    → Inv (at s.root_cancelled rq (checking r ctx) s.offering)
begins-Inv s r ctx rq w e v =
    let (new, started, latest) = begin_check-some s.rq r.pull_request ctx rq e in
    rw (new, started)
      (record {
        bounded = v.bounded;
        fresh = λ c le. v.fresh c (omega arith);
        runs = begins-Runs s.rq r ((idle s.worker s.rq v.runs).0 r w) v.fresh latest;
        open_root = v.open_root;
      })

stopped-Inv :
    (s : System)
    → s.worker ≡ waiting
    → Inv s
    → Inv (at s.root_cancelled (notify_dropped_requests s.rq).0 stopped s.offering)
unfolding notify_dropped_requests
stopped-Inv s w v = record {
  bounded = omega arith;
  fresh = v.fresh;
  runs = (idle s.worker s.rq v.runs).1 w;
  open_root = v.open_root;
}

-- The end of the manager's context.
cancel_all-Inv :
    (root : Bool) (rq : RepoQueue) (w : Worker) (offering : List CheckRequest)
    → Inv (at root rq w offering)
    → Inv (at true (cancel_all rq) w offering)
unfolding cancel_all
cancel_all-Inv root rq w offering v = record {
  bounded = v.bounded;
  fresh = λ c le. ground (arith, v.fresh c le, le, lookup-cancel_below rq.next_ctx c rq.causes);
  runs = cancel_all-Runs w rq v.runs;
  open_root = λ o c e. cc;
}

made_from :
    (root : Bool) (rq : RepoQueue) (w : Worker) (offering : List CheckRequest)
    → Inv (at root rq w offering)
    → Inv (at root (if root then cancel_all rq else rq) w offering)
made_from true rq w offering v = cancel_all-Inv true rq w offering v
made_from false rq w offering v = v

-- Every step of every thread keeps the invariant.
pub Step-Inv : {s t : System} → Step s t → Inv s → Inv t
Step-Inv {s} (arrives r e) v = rw e (arrives-Inv s r v)
Step-Inv {s} (sends before r after rq o f e) v = rw e (
    let (room, sent) = offer-some s.rq r rq f in
    rw sent (record {
      bounded = omega (arith, room, length-append s.rq.queue (r ∷ []));
      fresh = v.fresh;
      runs = Runs-queue s.worker s.rq (s.rq.queue ++ r ∷ []) s.rq.done s.rq.processed v.runs;
      open_root = v.open_root;
    }))
Step-Inv {s} (rejects before r after o f e) v =
    rw e (record { bounded = v.bounded; fresh = v.fresh; runs = v.runs; open_root = v.open_root })
Step-Inv {s} (receives r rest w q e) v = rw e (record {
  bounded = omega (arith, v.bounded, ap length q);
  fresh = v.fresh;
  runs = (idle s.worker s.rq v.runs).1 w;
  open_root = v.open_root;
})
Step-Inv {s} (begins r ctx rq w b e) v =
    rw e (made_from s.root_cancelled rq (checking r ctx) s.offering (begins-Inv s r ctx rq w b v))
Step-Inv {s} (skips r rq w b e) v =
    rw (e, begin_check-none s.rq r.pull_request rq b)
      (record {
        bounded = v.bounded;
        fresh = v.fresh;
        runs = (idle s.worker s.rq v.runs).0 r w;
        open_root = v.open_root;
      })
Step-Inv {s} (ends r ctx failed w e) v = rw e (
    ends-Inv s.root_cancelled (count_processed s.rq failed) r ctx s.offering (
      count-Inv s.root_cancelled s.rq (checking r ctx) s.offering failed
        (subst (λ w'. Inv (at s.root_cancelled s.rq w' s.offering)) w v)))
Step-Inv {s} (closes e) v = rw e (record {
  bounded = v.bounded;
  fresh = v.fresh;
  runs = Runs-queue s.worker s.rq s.rq.queue true s.rq.processed v.runs;
  open_root = v.open_root;
})
Step-Inv {s} (stops w d e) v = rw e (stopped-Inv s w v)
Step-Inv {s} (cancels_all d e) v = rw e (cancel_all-Inv s.root_cancelled s.rq s.worker s.offering v)
