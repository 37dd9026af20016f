-- ===== src/Events/Check.antt =====
-- pkg/events/check.go and appset_spec_diff.go: `Process` and what it does to the pull request. Each
-- call of a client is an entry of a trace, in order; its outcome is a field of `World`. What the
-- workers report is a sequence of calls on the note.
pub mod Statuses
pub mod Settled
use kubechecks.Common.{
  ℕ, ◌+◌, Bytes, codes, Bool, true, false, ◌&&◌, ◌||◌, not, List, [], ◌∷◌, ◌++◌, Option, none, some,
  ℤ, pos_part, bytes_eq, length, take, ltb, ◌==◌, is_empty, if◌then◌else◌, leb_ℤ, pos,
}
use kubechecks.CommitState.{
  CommitState, state_skip, state_running, state_error, state_success, worst_state, best_state,
}
use kubechecks.Msg.Store.{Result, Message, add_new_app, add_to_app_message, message_worst_state}
use kubechecks.Msg.Store.History.{Call, run}
use kubechecks.Msg.Comment.{CommentOptions, build_comment}
use kubechecks.Events.Reviews.{Suggestion, Slots, AppReview, build_review_comment}

pub data Error : Type 0 where
  not_ready : Error
  no_archive : Error
  bad_url : Error
  no_changed_files : Error
  no_affected_apps : Error
  not_posted : Error
  no_note : Error
  not_pushed : Error

-- The calls of the archive manager and the VCS client that others can see. A status that is asked for
-- is set, or the call fails.
pub data Action : Type 0 where
  posts_conflict : Action
  posts_archive_error : Action
  sets_status : CommitState → Action
  fails_status : CommitState → Action
  tidies : Action
  posts : Bytes → Action
  updates : ℕ → List Bytes → Action
  posts_suggestions : List Suggestion → Action

-- `appSetSpecFinding`
pub record SpecFinding : Type 0 where
  pub app_name : Bytes
  pub app_set_name : Bytes
  pub action : Bytes
  pub body : Bytes
  pub state : CommitState

-- The configuration that is read, and the outcomes of the calls, in the order in which they are made.
pub record World : Type 0 where
  pub identifier : Bytes
  pub sha : Bytes
  pub enable_ai_review : Bool
  pub ai_review_max_apps : ℤ
  pub post_suggestions : Bool
  pub worst_ai_review_state : CommitState
  -- `ValidatePullRequest`, `Clone`, `canonicalize`, `GetChangedFiles`, `GenerateListOfAffectedApps`
  pub is_ready : Bool
  pub has_archive : Bool
  pub has_good_url : Bool
  pub has_changed_files : Bool
  pub has_affected_items : Bool
  -- `GetPullRequestHeadSHA`
  pub head_sha : Option Bytes
  -- How many applications and application sets are affected, and what the latter's diffs found.
  pub affected_apps : ℕ
  pub affected_app_sets : ℕ
  pub spec_findings : List SpecFinding
  -- Whether "No changes" could be posted; the notes that were made.
  pub no_changes_posted : Bool
  pub note : Option Message
  pub ai_note : Option ℕ
  -- What the workers report, on the note and as reviews.
  pub calls : List Call
  pub reviews : List AppReview
  pub slots : Slots
  pub aggregate : Option (List (Bytes × Bytes) → Option Bytes)
  pub options : CommentOptions
  pub is_updated : Bool
  -- Whether the client's call with a commit status succeeds: that at the start, that at the end.
  pub is_status_set : CommitState → Bool
  -- Whether the cause of the context is `ErrCheckSuperseded` at the end.
  pub cancelled_as_superseded : Bool

pub record CheckEvent : Type 0 where
  pub superseded : Bool
  pub final_status_set : Bool
  pub actions : List Action

unfoldable pub new_check_event : CheckEvent
new_check_event = record { superseded = false; final_status_set = false; actions = [] }

unfoldable pub does : CheckEvent → Action → CheckEvent
does ce a = record ce { actions = ce.actions ++ a ∷ [] }

-- `CommitStatus`; an error of the client is only logged, and the field is written before the call.
unfoldable pub commit_status : World → CheckEvent → CommitState → CheckEvent
unfolding does
commit_status w ce status =
    let noted = if status == state_running then ce else record ce { final_status_set = true } in
    does noted (if w.is_status_set status then sets_status status else fails_status status)

-- `isSuperseded`
unfoldable pub is_superseded : World → CheckEvent → Bool × CheckEvent
is_superseded w ce = elim w.head_sha [
  | none ↦ (false, ce)
  | some head ↦
      if is_empty head || bytes_eq head w.sha
      then (false, ce)
      else (true, record ce { superseded = true })
]

-- `attachAppSetResult`
unfoldable pub attach_app_set_result : Message → SpecFinding → Message
attach_app_set_result m f = add_to_app_message (add_new_app m f.app_name) f.app_name (record {
  state = f.state;
  summary = f.action ++ (codes " `" ++ (f.app_set_name ++ codes "`"));
  details = f.body;
  no_changes_detected = false;
  sticky = true;
})

-- `flushAppSetSpecFindings`
unfoldable pub flush_spec_findings : Message → List SpecFinding → Message
unfolding attach_app_set_result
flush_spec_findings m [] = m
flush_spec_findings m (f ∷ fs) = flush_spec_findings (attach_app_set_result m f) fs

-- Whether a part of `process` goes on, or returns.
pub data Flow : Type 0 where
  continues : Flow
  returns : Option Error → Flow

-- `process`, up to the list of affected applications.
unfoldable pub prepare : World → CheckEvent → Flow × CheckEvent
unfolding commit_status does
prepare w ce =
    let ce' = commit_status w ce state_running in
    if not w.is_ready
    then (returns (some not_ready), does ce posts_conflict)
    else if not w.has_archive
    then (returns (some no_archive), does ce' posts_archive_error)
    else if not w.has_good_url
    then (returns (some bad_url), ce')
    else if not w.has_changed_files
    then (returns (some no_changed_files), ce')
    else if not w.has_affected_items
    then (returns (some no_affected_apps), ce')
    else (continues, ce')

-- From there to the placeholder comments.
unfoldable pub announce : World → CheckEvent → Flow × CheckEvent
unfolding is_superseded does
announce w ce =
    let (stale, ce') = is_superseded w ce in
    let tidied = does ce' tidies in
    let title = codes "## Kubechecks " ++ (w.identifier ++ codes " Report\n") in
    let told = does tidied (posts (title ++ codes "No changes")) in
    let noted = does tidied (posts (title ++ codes ":hourglass: kubechecks running...")) in
    if stale
    then (returns none, ce')
    else if w.affected_apps == 0 && w.affected_app_sets == 0
    then (returns (if w.no_changes_posted then none else some not_posted), told)
    else elim w.note [ none ↦ (returns (some no_note), noted) | some m ↦ (continues, noted) ]

-- The review's part of the report: what is done, and what the state is then.
unfoldable pub report_review : World → CheckEvent → CommitState → CommitState × CheckEvent
unfolding does
report_review w ce worst = elim (if w.enable_ai_review then w.ai_note else none) [
  | none ↦ (worst, ce)
  | some note_id ↦
      let (comment, ai_worst, suggestions) =
        build_review_comment w.identifier w.ai_review_max_apps w.aggregate w.affected_apps w.slots
          w.reviews in
      let shown =
        if leb_ℤ (pos (length comment)) w.options.max_length
        then comment
        else take (pos_part w.options.max_length) comment in
      let updated = does ce (updates note_id (shown ∷ [])) in
      let suggested =
        if is_empty suggestions || not w.post_suggestions
        then updated
        else does updated (posts_suggestions suggestions) in
      (worst_state worst (best_state ai_worst w.worst_ai_review_state), suggested)
]

-- `process` behind the workers, with the note as it was posted.
unfoldable pub report : World → CheckEvent → Message → Option Error × CheckEvent
unfolding flush_spec_findings report_review commit_status does
report w ce m =
    let note = run (flush_spec_findings m w.spec_findings) w.calls in
    let chunks : List Bytes = elim (build_comment note w.options) [ none ↦ [] | some cs ↦ cs ] in
    let posted = does ce (updates note.note_id chunks) in
    let (worst, reviewed) = report_review w posted (message_worst_state note) in
    (if w.is_updated then none else some not_pushed, commit_status w reviewed worst)

-- The placeholder for the review stands behind that of the report.
unfoldable pub announce_review : World → CheckEvent → CheckEvent
unfolding does
announce_review w ce =
    if w.enable_ai_review
    then does ce (
        posts (
          codes "## Kubechecks "
          ++ (w.identifier
              ++ (codes " Report "
                  ++ ((0xe2 ∷ 0x80 ∷ 0x94 ∷ [])
                      ++ codes " AI Review\n:hourglass: AI review running...")))))
    else ce

unfoldable pub process : World → CheckEvent → Option Error × CheckEvent
unfolding prepare announce announce_review report
process w ce =
    let (flow, prepared) = prepare w ce in
    let (flow', announced) = announce w prepared in
    elim flow [
      | returns e ↦ (e, prepared)
      | continues ↦ elim flow' [
        | returns e ↦ (e, announced)
        | continues ↦ elim w.note [
          | none ↦ (some no_note, announced)
          | some m ↦ report w (announce_review w announced) m
        ]
      ]
    ]

-- `settle`
unfoldable pub settle : World → Option Error × CheckEvent → Option Error × CheckEvent
unfolding commit_status
settle w (err, ce) =
    if ce.superseded || w.cancelled_as_superseded
    then (none, ce)
    else if ce.final_status_set
    then (err, ce)
    else elim err [
      | some e ↦ (some e, commit_status w ce state_error)
      | none ↦ (none, commit_status w ce state_skip)
    ]

-- `Process`, from the event that `NewCheckEvent` makes.
unfoldable pub process_event : World → Option Error × CheckEvent
unfolding settle process
process_event w = settle w (process w new_check_event)
