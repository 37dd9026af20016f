-- ===== src/Msg/Store.antt =====
-- pkg/msg/message.go: the message that collects the results of the checks, app by app.
-- The mutex makes each method one step; spans and logs are left out. A Go map is an association
-- list, and a set a map into the unit type.
pub mod History
pub mod Worst
use kubechecks.Common.{
  ℕ, Bytes, Bool, true, false, none, some, List, [], ◌∷◌, ◌++◌, lookup, insert, delete,
  if◌then◌else◌, bytes_instance,
}
use kubechecks.CommitState.{CommitState, state_none, worst_state}

pub record Result : Type 0 where
  pub state : CommitState
  pub summary : Bytes
  pub details : Bytes
  pub no_changes_detected : Bool
  pub sticky : Bool

unfoldable pub has_sticky : List Result → Bool
has_sticky [] = false
has_sticky (r ∷ rs) = if r.sticky then true else has_sticky rs

-- `AppResults` holds nothing but the list of results.
abbrev pub AppResults : Type 0
AppResults = List Result

unfoldable pub add_check_result : AppResults → Result → AppResults
add_check_result ar result = ar ++ result ∷ []

pub record Message : Type 0 where
  pub name : Bytes
  pub check_id : ℕ
  pub note_id : ℕ
  pub apps : List (Bytes × AppResults)
  pub to_emoji : CommitState → Bytes
  pub deleted_apps_set : List (Bytes × Unit {0})

unfoldable pub new_message : Bytes → ℕ → ℕ → (CommitState → Bytes) → Message
new_message name pr_id comment_id vcs = record {
  name = name;
  check_id = pr_id;
  note_id = comment_id;
  apps = [];
  to_emoji = vcs;
  deleted_apps_set = [];
}

unfoldable pub is_deleted : Message → Bytes → Bool
is_deleted m app = elim (lookup app m.deleted_apps_set) [ none ↦ false | some _ ↦ true ]

-- The inner loop of `WorstState`.
unfoldable pub worst_of_results : CommitState → List Result → CommitState
worst_of_results state [] = state
worst_of_results state (r ∷ rs) =
    worst_of_results (if r.no_changes_detected then state else worst_state state r.state) rs

-- The outer loop, over the apps in the order of the map.
unfoldable pub worst_of_apps : Message → CommitState → List (Bytes × AppResults) → CommitState
unfolding worst_of_results is_deleted
worst_of_apps m state [] = state
worst_of_apps m state ((app, rs) ∷ apps) =
    worst_of_apps m (if is_deleted m app then state else worst_of_results state rs) apps

unfoldable pub message_worst_state : Message → CommitState
unfolding worst_of_apps
message_worst_state m = worst_of_apps m state_none m.apps

unfoldable pub remove_app : Message → Bytes → Message
remove_app m app =
    let deleted = record m { deleted_apps_set = insert app tt m.deleted_apps_set } in
    elim (lookup app m.apps) [
      | none ↦ deleted
      | some results ↦ if has_sticky results then m else deleted
    ]

-- `if _, ok := m.apps[app]; !ok { m.apps[app] = new(AppResults) }`
unfoldable pub ensure_app : Bytes → List (Bytes × AppResults) → List (Bytes × AppResults)
ensure_app app apps = elim (lookup app apps) [ none ↦ insert app [] apps | some _ ↦ apps ]

unfoldable pub add_new_app : Message → Bytes → Message
unfolding ensure_app
add_new_app m app = record m {
  deleted_apps_set = delete app m.deleted_apps_set;
  apps = ensure_app app m.apps;
}

-- `m.apps[app].AddCheckResult(result)`; the entry is there.
unfoldable pub append_result :
    Bytes → Result → List (Bytes × AppResults) → List (Bytes × AppResults)
unfolding add_check_result
append_result app result apps = elim (lookup app apps) [
  | none ↦ apps
  | some ar ↦ insert app (add_check_result ar result) apps
]

unfoldable pub add_to_app_message : Message → Bytes → Result → Message
unfolding ensure_app append_result
add_to_app_message m app result = record m {
  deleted_apps_set = delete app m.deleted_apps_set;
  apps = append_result app result (ensure_app app m.apps);
}
