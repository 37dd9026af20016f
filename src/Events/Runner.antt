-- ===== src/Events/Runner.antt =====
-- pkg/events/runner.go: one check of an application, and the results of several that run side by
-- side. A check ends with a result, an error or a panic; `%v` of these is the text that they carry.
use kubechecks.Common.{Bytes, codes, false, List, [], ◌∷◌, ◌++◌}
use kubechecks.CommitState.{CommitState, state_error, state_panic, best_state}
use kubechecks.Msg.Store.{Result}
use kubechecks.Msg.Store.History.{Call, reports}

pub data CheckOutcome : Type 0 where
  result : Result → CheckOutcome
  error : Bytes → CheckOutcome
  panics : Bytes → CheckOutcome

-- `fmt.Sprintf(errorCommentFormat, desc, err)`
unfoldable pub error_comment : Bytes → Bytes → Bytes
error_comment desc err =
    codes "\n:warning:  **Error while "
    ++ (desc
        ++ (codes "** :warning:\n```\n"
            ++ (err ++ codes "\n```\n\nCheck kubechecks application logs for more information.\n")))

unfoldable pub failure_result : CommitState → Bytes → Bytes → Result
unfolding error_comment
failure_result state desc err = record {
  state = state;
  summary = desc;
  details = error_comment desc err;
  no_changes_detected = false;
  sticky = false;
}

-- `checks.ProcessorEntry`, with what its check ends with.
pub record Processor : Type 0 where
  pub name : Bytes
  pub worst_state : CommitState
  pub outcome : CheckOutcome

-- What a check reports, before its state is capped.
unfoldable pub outcome_result : Processor → Result
unfolding failure_result
outcome_result p = elim p.outcome [
  | result r ↦ r
  | error e ↦ failure_result state_error p.name e
  | panics e ↦ failure_result state_panic p.name e
]

-- `Run`: the result that `addToAppMessage` adds.
unfoldable pub run_check : Processor → Result
unfolding outcome_result
run_check p = let r = outcome_result p in record r { state = best_state r.state p.worst_state }

-- The calls on the note of all checks of an application, in the order in which they end.
unfoldable pub run_checks : Bytes → List Processor → List Call
unfolding run_check
run_checks app [] = []
run_checks app (p ∷ ps) = reports app (run_check p) ∷ run_checks app ps
