-- ===== src/Tests/Events.antt =====
-- pkg/events: a check without changes, and pools of one worker.
use kubechecks.Common.{
  codes, true, false, [], ◌∷◌, none, some, ◌≡◌, ◌≢◌, refl, arith, length, lookup, insert, bytes_eq,
  bytes_instance, pos, ◌==◌,
}
use kubechecks.CommitState.{state_success, state_running}
use kubechecks.Events.Check.{
  World, process_event, process, new_check_event, settle, prepare, announce, is_superseded,
  commit_status, does,
}
use kubechecks.Events.Check.Statuses.{IsSettled}
use kubechecks.Events.Check.Settled.{process_event-IsSettled}
use kubechecks.Events.Pool.{
  App, Pool, start_pool, same_app, is_added, has_room, queue_app, Step, queues, takes, finishes,
  Reach, here, next,
}
use kubechecks.Events.Pool.Drained.{has_app, pool_drained}
use kubechecks.Events.Pool.Progress.{pool_progress, pool_stuck}

-- A pull request without affected applications.
abbrev unaffected : World
unaffected = record {
  identifier = codes "test";
  sha = codes "a";
  enable_ai_review = false;
  ai_review_max_apps = pos 3;
  post_suggestions = false;
  worst_ai_review_state = state_success;
  is_ready = true;
  has_archive = true;
  has_good_url = true;
  has_changed_files = true;
  has_affected_items = true;
  head_sha = some (codes "a");
  affected_apps = 0;
  affected_app_sets = 0;
  spec_findings = [];
  no_changes_posted = true;
  note = none;
  ai_note = none;
  calls = [];
  reviews = [];
  slots = record { review_count = 0; review_skipped = 0 };
  aggregate = none;
  options = record {
    env = record { hostname = []; duration = []; git_commit = [] };
    commit_sha = codes "c";
    label_filter = [];
    show_debug_info = false;
    identifier = codes "id";
    apps_checked = 1;
    total_checked = 1;
    max_length = pos 400;
    max_comments = pos 3;
  };
  is_updated = true;
  is_status_set = (λ s. s == state_running);
  cancelled_as_superseded = false;
}

process_event-IsSettled_example :
    IsSettled unaffected (process_event unaffected).1.actions
    × ((process_event unaffected).0 ≡ (process unaffected new_check_event).0)
unfolding process_event settle process prepare announce is_superseded commit_status does
    new_check_event bytes_eq
process_event-IsSettled_example = process_event-IsSettled unaffected refl refl

abbrev app : App
app = record { name = codes "a"; spec = codes "s" }

abbrev child : App
child = record { name = codes "b"; spec = codes "s" }

abbrev queued : Pool
queued = record (start_pool (app ∷ []) 1 0) {
  to_queue = [];
  channel = app ∷ [];
  wg = 1;
  apps_sent = 1;
  added_apps_set = (codes "a", app) ∷ [];
}

abbrev working : Pool
working = record queued { channel = []; idle = 0; jobs = record { app = app; pending = [] } ∷ [] }

abbrev drained : Pool
drained = record working { jobs = []; idle = 1; wg = 0; processed = app ∷ [] }

working-Reach : Reach (start_pool (app ∷ []) 1 0) working
unfolding start_pool queue_app is_added has_room lookup insert
working-Reach =
    next (next here (queues app [] (record queued { to_queue = app ∷ [] }) refl refl refl))
      (takes 0 app [] [] refl refl refl)

drained-Reach : Reach (start_pool (app ∷ []) 1 0) drained
unfolding start_pool
drained-Reach =
    next working-Reach (finishes [] (record { app = app; pending = [] }) [] refl refl refl)

pool_drained_example :
    (drained.channel ≡ [])
    × (drained.jobs ≡ [])
    × (length drained.processed ≡ drained.apps_sent)
    × (has_app app drained.processed ≡ true)
unfolding same_app bytes_eq start_pool
pool_drained_example = pool_drained (app ∷ []) 1 0 drained app drained-Reach refl refl refl

pool_progress_example : (t : Pool) × Step working t
unfolding start_pool
pool_progress_example = pool_progress (app ∷ []) 1 0 working working-Reach (omega arith) (λ e. cc)

abbrev other : App
other = record { name = codes "c"; spec = codes "s" }

abbrev first_sent : Pool
first_sent = record (start_pool (app ∷ (other ∷ [])) 1 0) {
  to_queue = other ∷ [];
  channel = app ∷ [];
  wg = 1;
  apps_sent = 1;
  added_apps_set = (codes "a", app) ∷ [];
}

abbrev first_taken : Pool
first_taken = record first_sent {
  channel = [];
  idle = 0;
  jobs = record { app = app; pending = child ∷ [] } ∷ [];
}

-- The only worker checks an application that queues another, while the channel is full.
abbrev stuck : Pool
stuck = record first_taken {
  to_queue = [];
  channel = other ∷ [];
  wg = 2;
  apps_sent = 2;
  added_apps_set = insert (codes "c") other ((codes "a", app) ∷ []);
}

stuck-Reach : Reach (start_pool (app ∷ (other ∷ [])) 1 0) stuck
unfolding start_pool queue_app is_added has_room lookup insert bytes_eq
stuck-Reach =
    next
      (next
        (next here (
          queues app (other ∷ []) (record first_sent { to_queue = app ∷ (other ∷ []) }) refl refl
            refl))
        (takes 0 app [] (child ∷ []) refl refl refl))
      (queues other [] (record stuck { to_queue = other ∷ [] }) refl refl refl)

pool_stuck_example : (¬ Step stuck drained) × (stuck.wg ≢ 0)
unfolding start_pool is_added lookup bytes_eq insert
pool_stuck_example =
    pool_stuck (app ∷ (other ∷ [])) 1 0 stuck drained stuck-Reach refl (omega arith)
      ((child, [], refl, refl), tt) (λ a rest e. cc)
