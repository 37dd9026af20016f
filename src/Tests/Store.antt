-- ===== src/Tests/Store.antt =====
-- pkg/msg/message.go: a message with a sticky result.
use kubechecks.Common.{codes, true, false, List, [], ◌∷◌, ◌++◌, ◌≡◌, refl, bytes_eq, bytes_instance}
use mathlib.Core.List.{Permᴰ}
use kubechecks.CommitState.{state_success, state_error}
use kubechecks.Msg.Store.{Result, Message, has_sticky, is_deleted, new_message, message_worst_state}
use kubechecks.Msg.Store.History.{
  Call, adds, removes, reports, run, results_of, reported, view, view_run, results_of-run,
  run-sticky, view-run,
}
use kubechecks.Msg.Store.Worst.{message_worst_state-perm}

abbrev pinned : Result
pinned = record {
  state = state_error;
  summary = codes "s";
  details = codes "d";
  no_changes_detected = false;
  sticky = true;
}

abbrev passing : Result
passing = record pinned { state = state_success; sticky = false }

abbrev blank : Message
blank = new_message (codes "m") 1 2 (λ s. [])

abbrev history : List Call
history =
    adds (codes "a")
    ∷ (reports (codes "a") pinned ∷ (removes (codes "a") ∷ (reports (codes "b") passing ∷ [])))

results_of-run_example :
    results_of (run blank history) (codes "a")
    ≡ results_of blank (codes "a") ++ reported (codes "a") history
results_of-run_example = results_of-run blank (codes "a") history

run-sticky_example :
    is_deleted (run (new_message (codes "m") 1 2 (λ s. [])) history) (codes "a") ≡ false
unfolding reported has_sticky bytes_eq
run-sticky_example = run-sticky (codes "m") 1 2 (λ s. []) history (codes "a") refl

view-run_example :
    view (run blank history) (codes "a") ≡ view_run (codes "a") (view blank (codes "a")) history
view-run_example = view-run blank (codes "a") history

abbrev two_apps : Message
two_apps = record blank { apps = (codes "a", pinned ∷ []) ∷ ((codes "b", passing ∷ []) ∷ []) }

message_worst_state-perm_example :
    message_worst_state two_apps
    ≡ message_worst_state
        (record two_apps { apps = (codes "b", passing ∷ []) ∷ ((codes "a", pinned ∷ []) ∷ []) })
message_worst_state-perm_example =
    message_worst_state-perm two_apps ((codes "b", passing ∷ []) ∷ ((codes "a", pinned ∷ []) ∷ []))
      ∣ Permᴰ.swap refl refl ∣₁
