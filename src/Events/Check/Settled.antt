-- ===== src/Events/Check/Settled.antt =====
-- pkg/events/check.go: the commit status that a check leaves.
use kubechecks.Common.{
  ℕ, Bytes, ◌||◌, true, false, not, ◌&&◌, if◌then◌else◌, List, Option, none, ◌≡◌, ◌⊎◌, ◌∙◌, subst,
  sym, refl, arith, ◌==◌, is_empty, Bool-cases, Option-cases, inl, inr,
}
use kubechecks.CommitState.{CommitState, state_running, state_skip, state_error}
use kubechecks.Msg.Store.{Message}
use kubechecks.Events.Reviews.{Suggestion, build_review_comment}
use kubechecks.Events.Check.Statuses.{
  last_set, is_pending, is_quiet, IsSettled, IsSound, is_quiet-does, is_quiet-running,
  commit_status-IsSettled, commit_status-IsSound,
}
use kubechecks.Events.Check.{
  Error, posts_conflict, posts_archive_error, tidies, posts, updates, posts_suggestions, World,
  CheckEvent, new_check_event, does, commit_status, is_superseded, Flow, continues, returns,
  prepare, announce, announce_review, report_review, report, process, settle, process_event,
}

prepare-quiet :
    (w : World) (ce : CheckEvent) → is_quiet ce ≡ true → is_quiet (prepare w ce).1 ≡ true
unfolding prepare
prepare-quiet w ce h =
    let running = is_quiet-running w ce h in
    let conflict = is_quiet-does ce posts_conflict refl h in
    let told = is_quiet-does (commit_status w ce state_running) posts_archive_error refl running in
    ground arith

is_superseded-quiet :
    (w : World) (ce : CheckEvent) → is_quiet ce ≡ true → is_quiet (is_superseded w ce).1 ≡ true
unfolding is_superseded is_quiet
is_superseded-quiet w ce h = ground arith

announce-quiet :
    (w : World) (ce : CheckEvent) → is_quiet ce ≡ true → is_quiet (announce w ce).1 ≡ true
unfolding announce
announce-quiet w ce h =
    let ce' = (is_superseded w ce).1 in
    let same : is_quiet ce' ≡ true = is_superseded-quiet w ce h in
    let tidied : is_quiet (does ce' tidies) ≡ true = is_quiet-does ce' tidies refl same in
    let posted : (b : Bytes) → is_quiet (does (does ce' tidies) (posts b)) ≡ true =
      λ b. is_quiet-does (does ce' tidies) (posts b) refl tidied in
    elim (Bool-cases (is_superseded w ce).0) [
      | inl stale ↦ ground arith
      | inr fresh ↦ elim (Bool-cases (w.affected_apps == 0 && w.affected_app_sets == 0)) [
        | inl nothing ↦ rw (fresh, nothing) (posted _)
        | inr some_items ↦ elim (Option-cases w.note) [
          | inl n ↦ rw (fresh, some_items, n) (posted _)
          | inr (m, n) ↦ rw (fresh, some_items, n) (posted _)
        ]
      ]
    ]

announce_review-quiet :
    (w : World) (ce : CheckEvent) → is_quiet ce ≡ true → is_quiet (announce_review w ce) ≡ true
unfolding announce_review
announce_review-quiet w ce h = elim (Bool-cases w.enable_ai_review) [
  | inl on ↦ rw on (is_quiet-does ce (posts _) refl h)
  | inr off ↦ rw off h
]

report_review-quiet :
    (w : World) (ce : CheckEvent) (worst : CommitState)
    → is_quiet ce ≡ true
    → is_quiet (report_review w ce worst).1 ≡ true
unfolding report_review
report_review-quiet w ce worst h =
    let updated : (n : ℕ) (bs : List Bytes) → is_quiet (does ce (updates n bs)) ≡ true =
      λ n bs. is_quiet-does ce (updates n bs) refl h in
    let suggested : (n : ℕ) (bs : List Bytes) (ss : List Suggestion)
        → is_quiet (does (does ce (updates n bs)) (posts_suggestions ss)) ≡ true =
      λ n bs ss.
        is_quiet-does (does ce (updates n bs)) (posts_suggestions ss) refl (updated n bs) in
    elim (Option-cases (if w.enable_ai_review then w.ai_note else none)) [
      | inl n ↦ rw (report_review, n) h
      | inr (note_id, n) ↦
          let reviewed =
            build_review_comment w.identifier w.ai_review_max_apps w.aggregate w.affected_apps
              w.slots w.reviews in
          elim (Bool-cases (is_empty reviewed.2 || not w.post_suggestions)) [
            | inl silent ↦ rw (report_review, n, silent) (updated _ _)
            | inr told ↦ rw (report_review, n, told) (suggested _ _ _)
          ]
    ]

report-IsSound :
    (w : World) (ce : CheckEvent) (m : Message) → is_quiet ce ≡ true → IsSound w (report w ce m).1
unfolding report
report-IsSound w ce m h =
    commit_status-IsSound w _ _ (report_review-quiet w _ _ (is_quiet-does ce (updates _ _) refl h))

Flow-cases : (f : Flow) → (f ≡ continues) ⊎ ((e : Option Error) × (f ≡ returns e))
Flow-cases continues = inl refl
Flow-cases (returns e) = inr (e, refl)

-- Where `process` ends.
process-ends :
    (w : World) (ce : CheckEvent)
    → ((process w ce).1 ≡ (prepare w ce).1)
      ⊎ ((process w ce).1 ≡ (announce w (prepare w ce).1).1)
      ⊎ ((m : Message) × ((process w ce).1
            ≡ (report w (announce_review w (announce w (prepare w ce).1).1) m).1))
unfolding process
process-ends w ce = elim (Flow-cases (prepare w ce).0) [
  | inr (e, h) ↦ inl (ground arith)
  | inl h ↦ elim (Flow-cases (announce w (prepare w ce).1).0) [
    | inr (e, h') ↦ inr (inl (ground arith))
    | inl h' ↦ elim (Option-cases w.note) [
      | inl n ↦ inr (inl (ground arith))
      | inr (m, n) ↦ inr (inr (m, ground arith))
    ]
  ]
]

process-IsSound : (w : World) → IsSound w (process w new_check_event).1
unfolding new_check_event is_quiet
process-IsSound w =
    let ce = new_check_event in
    let prepared = prepare-quiet w ce refl in
    let announced = announce-quiet w (prepare w ce).1 prepared in
    elim (process-ends w ce) [
      | inl e ↦ subst (IsSound w) (sym e) (inl prepared)
      | inr (inl e) ↦ subst (IsSound w) (sym e) (inl announced)
      | inr (inr (m, e)) ↦
          subst (IsSound w) (sym e) (report-IsSound w _ m (announce_review-quiet w _ announced))
    ]

is_quiet-unset : (ce : CheckEvent) → is_quiet ce ≡ true → ce.final_status_set ≡ false
unfolding is_quiet
is_quiet-unset ce h = ground arith

is_quiet-pending : (ce : CheckEvent) → is_quiet ce ≡ true → is_pending (last_set ce.actions) ≡ true
unfolding is_quiet
is_quiet-pending ce h = ground arith

superseded-settle :
    (w : World) (err : Option Error) (ce : CheckEvent)
    → (settle w (err, ce)).1.superseded ≡ ce.superseded
unfolding settle commit_status does
superseded-settle w err ce = ground arith

settle-IsSettled :
    (w : World) (err : Option Error) (ce : CheckEvent)
    → IsSound w ce
    → (settle w (err, ce)).1.superseded ≡ false
    → w.cancelled_as_superseded ≡ false
    → IsSettled w (settle w (err, ce)).1.actions × ((settle w (err, ce)).0 ≡ err)
unfolding settle commit_status
settle-IsSettled w err ce sound h h' =
    let live : ce.superseded ≡ false = sym (superseded-settle w err ce) ∙ h in
    elim sound [
      | inl quiet ↦
          let unset : ce.final_status_set ≡ false = is_quiet-unset ce quiet in
          elim (Option-cases err) [
            | inl ok ↦
                rw (live, h', unset, ok)
                  (
                    commit_status-IsSettled w ce state_skip (is_quiet-pending ce quiet)
                        (λ e. omega (arith, e)),
                    refl,
                  )
            | inr (e, bad) ↦
                rw (live, h', unset, bad)
                  (
                    commit_status-IsSettled w ce state_error (is_quiet-pending ce quiet)
                        (λ e. omega (arith, e)),
                    refl,
                  )
          ]
      | inr (set, settled) ↦ rw (live, h', set) (settled, refl)
    ]

-- A check that does not find its pull request at another commit, and is not cancelled as superseded,
-- asks last for a status that is not `StateRunning`, however it ends, and passes its error on. If
-- that call succeeds, the status is shown; if it fails, it is not repeated, and the pull request
-- shows `StateRunning` or nothing.
pub process_event-IsSettled :
    (w : World)
    → (process_event w).1.superseded ≡ false
    → w.cancelled_as_superseded ≡ false
    → IsSettled w (process_event w).1.actions
      × ((process_event w).0 ≡ (process w new_check_event).0)
unfolding process_event
process_event-IsSettled w h h' =
    let (err, ce) = process w new_check_event in settle-IsSettled w err ce (process-IsSound w) h h'
