-- ===== src/Events/Pool.antt =====
-- pkg/events/check.go and worker.go: the applications that are queued, and the workers that take
-- them. `queueApp` holds its lock until its application is sent, so it is one step, which waits
-- while the channel is full. What the checks of an application queue in turn is the list `pending`
-- of its job, and a worker is done with an application when its checks are.
pub mod Counters
pub mod Drained
pub mod Progress
use kubechecks.Common.{
  ℕ, zero, suc, ◌+◌, ◌-◌, Bytes, Bool, true, false, ◌&&◌, ◌||◌, List, [], ◌∷◌, ◌++◌, Option, none,
  some, ◌≡◌, lookup, insert, bytes_eq, bytes_instance, length, ltb, not, is_empty, ◌==◌,
  if◌then◌else◌,
}

-- An Argo CD application, as far as `reflect.DeepEqual` tells applications apart.
pub record App : Type 0 where
  pub name : Bytes
  pub spec : Bytes

unfoldable pub same_app : App → App → Bool
same_app a b = bytes_eq a.name b.name && bytes_eq a.spec b.spec

pub record Job : Type 0 where
  pub app : App
  pub pending : List App

pub record Pool : Type 0 where
  -- What `process` has still to queue.
  pub to_queue : List App
  pub channel : List App
  pub capacity : ℕ
  pub idle : ℕ
  pub jobs : List Job
  pub wg : ℕ
  pub apps_sent : ℕ
  pub added_apps_set : List (Bytes × App)
  pub processed : List App

-- The pool when the workers have been started; there is one more than `MaxConcurrentChecks`.
unfoldable pub start_pool : List App → ℕ → ℕ → Pool
start_pool apps capacity max_concurrent_checks = record {
  to_queue = apps;
  channel = [];
  capacity = capacity;
  idle = suc max_concurrent_checks;
  jobs = [];
  wg = 0;
  apps_sent = 0;
  added_apps_set = [];
  processed = [];
}

-- Whether the application was added as it is.
unfoldable pub is_added : Pool → App → Bool
unfolding same_app
is_added p app = elim (lookup app.name p.added_apps_set) [
  | none ↦ false
  | some old ↦ same_app old app
]

-- Whether a send on the channel goes through; without a buffer, an idle worker has to receive it.
unfoldable pub has_room : Pool → Bool
has_room p =
    if p.capacity == 0
    then not (p.idle == 0) && is_empty p.channel
    else ltb (length p.channel) p.capacity

-- `queueApp`; `none` while it waits for the channel.
unfoldable pub queue_app : Pool → App → Option Pool
unfolding is_added has_room
queue_app p app =
    if is_added p app
    then some p
    else if has_room p
    then some (record p {
      channel = p.channel ++ app ∷ [];
      wg = p.wg + 1;
      apps_sent = p.apps_sent + 1;
      added_apps_set = insert app.name app p.added_apps_set;
    })
    else none

pub data Step (s t : Pool) : Type 0 where
  -- `process` queues the next of the affected applications.
  queues :
      (app : App) (rest : List App) (p : Pool)
      → s.to_queue ≡ app ∷ rest
      → queue_app s app ≡ some p
      → t ≡ record p { to_queue = rest }
      → Step s t
  -- An idle worker receives an application.
  takes :
      (n : ℕ) (app : App) (rest pending : List App)
      → s.idle ≡ suc n
      → s.channel ≡ app ∷ rest
      → t ≡ record s {
        idle = n;
        channel = rest;
        jobs = record { app = app; pending = pending } ∷ s.jobs;
      }
      → Step s t
  -- A check of a job queues an application.
  requeues :
      (before : List Job) (job : Job) (after : List Job) (app : App) (rest : List App) (p : Pool)
      → s.jobs ≡ before ++ job ∷ after
      → job.pending ≡ app ∷ rest
      → queue_app s app ≡ some p
      → t ≡ record p { jobs = before ++ record { app = job.app; pending = rest } ∷ after }
      → Step s t
  -- A worker is done with its application: `wg.Done`.
  finishes :
      (before : List Job) (job : Job) (after : List Job)
      → s.jobs ≡ before ++ job ∷ after
      → job.pending ≡ []
      → t ≡ record s {
        jobs = before ++ after;
        idle = suc s.idle;
        wg = s.wg - 1;
        processed = job.app ∷ s.processed;
      }
      → Step s t

pub data Reach (s : Pool) : Pool → Type 0 where
  here : Reach s s
  next : {t u : Pool} → Reach s t → Step t u → Reach s u
