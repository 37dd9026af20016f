-- ===== src/Tests/Clones.antt =====
-- pkg/git/manager.go, pkg/vcs/github_client/retry.go, pkg/affected_apps: a clone that is in use, a
-- call that succeeds at the second attempt, and a changed file of one application.
use kubechecks.Common.{
  ℕ, zero, suc, ◌≤◌, Bytes, codes, true, false, ◌&&◌, List, [], ◌∷◌, ◌++◌, Option, none, some, ◌≡◌,
  refl, ℤ, pos, max, length, arith, inl, inr, lookup, insert, bytes_eq, bytes_instance,
}
use kubechecks.AppDir.{Application, clean, clean_step}
use kubechecks.GitRepos.{RepoManager, Git, new_repo_manager, cleanup_stale_repos}
use kubechecks.GitRepos.Unused.{Use, clones, use_all, drop_overdue, cleanup_stale_repos-use_all}
use kubechecks.Retry.{Answer, Outcome, do_call}
use kubechecks.Retry.Bounds.{IsRun, do_call_lem}
use kubechecks.Affected.{
  Config, AffectedItems, request_failed, no_items, affected_by_config, triggered_apps, trigger_dirs,
  triggered_by, modified_dirs, dir_map, path_dir, from_slash, applications_for_dir, additional_hits,
  dir_match_for_app, has_suffix, put_apps, put_sets, path_map, known_in, affected_by_all,
}
use kubechecks.Affected.Merging.{find_in, first_failure, seen, said_by_all, seen-affected_by_all}
use kubechecks.Affected.Triggered.{has_app, any_file, is_triggered, has_app-affected_by_config}

-- Everything succeeds, at time 5.
abbrev git : Git
git = record {
  cloned = some (codes "/tmp/x");
  moved = true;
  checked_out = true;
  updated = true;
  sha = some (codes "abc");
  branched = true;
  identifier = codes "7";
  now = 5;
}

-- A check has cloned a repository and not given it back.
abbrev in_use : List Use
in_use = clones git (codes "https://h/r.git") (codes "main") ∷ []

abbrev manager : RepoManager
manager = use_all (λ url. url) (new_repo_manager (codes "/cache") 10) in_use

cleanup_stale_repos-use_all_example : cleanup_stale_repos manager 100 ≡ record manager {
  repos = (drop_overdue manager.ttl 100 manager.repos).0;
  wiped = manager.wiped ++ (drop_overdue manager.ttl 100 manager.repos).1;
}
cleanup_stale_repos-use_all_example =
    cleanup_stale_repos-use_all (λ url. url) (codes "/cache") 10 in_use manager 100 refl
      (omega arith)

-- The first call meets a 503, the second succeeds.
abbrev second_time : ℕ → Answer
second_time zero = record {
  error = some (record { asked = none; status_code = some 503 });
  ctx_ended = false;
  ends_waiting = false;
}
second_time (suc n) = record { error = none; ctx_ended = false; ends_waiting = false }

do_call_lem_example :
    (out : Outcome) × (waits : List ℤ) × (do_call
        (pos 120)
        (record { max_retries = pos 3; initial_backoff = pos 2; max_backoff = pos 30 })
        true
        second_time
      ≡ some (out, waits))
    × (length waits ≤ 3)
    × IsRun true second_time 2 (max 30 120) 0 out waits
do_call_lem_example = do_call_lem 120 3 2 30 true second_time (omega arith)

abbrev app_of : Bytes → Application
app_of n = record {
  name = n;
  source = some (record {
    repo_url = [];
    path = codes "x";
    target_revision = [];
    file_parameters = [];
    value_files = [];
  });
  sources = [];
  rest = [];
}

abbrev only : Bytes → AffectedItems
only n = record { applications = app_of n ∷ []; application_sets = [] }

seen-affected_by_all_example :
    seen (codes "b") (
      affected_by_all no_items 0
        (inr (only (codes "a")) ∷ inr (only (codes "b")) ∷ inl request_failed ∷ []))
    ≡ said_by_all
        (first_failure 0
          (inr (only (codes "a")) ∷ inr (only (codes "b")) ∷ inl request_failed ∷ []))
        (find_in
          (codes "b")
          (inr (only (codes "a")) ∷ inr (only (codes "b")) ∷ inl request_failed ∷ []))
seen-affected_by_all_example =
    seen-affected_by_all (codes "b")
      (inr (only (codes "a")) ∷ inr (only (codes "b")) ∷ inl request_failed ∷ [])

abbrev cfg : Config
cfg = record {
  applications =
      record {
        name = codes "a";
        cluster = [];
        path = codes "x";
        additional_paths = [];
        enable_conf_test = true;
        enable_kube_conform = true;
        enable_kube_pug = true;
      }
      ∷ [];
  application_sets = [];
}

abbrev by_appset : Bytes → Option (List Application)
by_appset n = some []

abbrev destination_name : Application → Bytes
destination_name app = []

has_app-affected_by_config_example : has_app (codes "a") (only (codes "a")).applications ≡ (
    any_file (is_triggered by_appset destination_name cfg (codes "a")) (codes "x/f" ∷ [])
    && has_app (codes "a") (app_of (codes "a") ∷ app_of (codes "b") ∷ []))
unfolding affected_by_config triggered_apps trigger_dirs triggered_by modified_dirs dir_map path_dir
    from_slash applications_for_dir additional_hits dir_match_for_app has_suffix put_apps put_sets
    path_map known_in lookup insert bytes_eq clean clean_step
has_app-affected_by_config_example =
    has_app-affected_by_config by_appset destination_name cfg (codes "x/f" ∷ [])
      (app_of (codes "a") ∷ app_of (codes "b") ∷ []) (only (codes "a")) (codes "a") refl
