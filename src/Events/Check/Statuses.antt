-- ===== src/Events/Check/Statuses.antt =====
-- pkg/events/check.go: the statuses in a trace, and what a call of `CommitStatus` adds.
use kubechecks.Common.{
  Bool, true, false, not, ◌&&◌, if◌then◌else◌, ==_iff, List, [], ◌∷◌, ◌++◌, Option, none, some, ◌≡◌,
  ◌≢◌, ◌⊎◌, subst, sym, arith, ◌==◌, Bool-cases, inl, inr,
}
use kubechecks.CommitState.{CommitState, state_running}
use kubechecks.Events.Check.{
  Action, sets_status, fails_status, World, CheckEvent, does, commit_status,
}

abbrev pub set_by : Action → Option CommitState
set_by (sets_status s) = some s
set_by a = none

abbrev pub asked_by : Action → Option CommitState
asked_by (sets_status s) = some s
asked_by (fails_status s) = some s
asked_by a = none

abbrev pub last_by : (Action → Option CommitState) → List Action → Option CommitState
last_by of [] = none
last_by of (a ∷ as') = elim (last_by of as') [ some s ↦ some s | none ↦ of a ]

-- The last status that was set, and the last that the client was asked to set.
abbrev pub last_set : List Action → Option CommitState
last_set = last_by set_by

abbrev pub last_asked : List Action → Option CommitState
last_asked = last_by asked_by

last_by-snoc :
    (of : Action → Option CommitState) (as' : List Action) (a : Action)
    → last_by of (as' ++ a ∷ []) ≡ elim (of a) [ some s ↦ some s | none ↦ last_by of as' ]
last_by-snoc of [] a = ground arith
last_by-snoc of (b ∷ as') a = ground (arith, last_by-snoc of as' a)

-- No status is shown, or one that says that the check runs.
abbrev pub is_pending : Option CommitState → Bool
is_pending none = true
is_pending (some s) = s == state_running

-- Nothing final was asked for.
unfoldable pub is_quiet : CheckEvent → Bool
is_quiet ce = not ce.final_status_set && is_pending (last_set ce.actions)

-- The last status that the client was asked to set is final, and it is shown or the call failed.
abbrev pub IsSettled : World → List Action → Type 0
IsSettled w as' =
    (s : CommitState) × (last_asked as' ≡ some s)
    × (s ≢ state_running)
    × (if w.is_status_set s then last_set as' ≡ some s else is_pending (last_set as') ≡ true)

abbrev pub IsSound : World → CheckEvent → Type 0
IsSound w ce = (is_quiet ce ≡ true) ⊎ ((ce.final_status_set ≡ true) × IsSettled w ce.actions)

pub is_quiet-does :
    (ce : CheckEvent) (a : Action)
    → set_by a ≡ none
    → is_quiet ce ≡ true
    → is_quiet (does ce a) ≡ true
unfolding does is_quiet
is_quiet-does ce a h quiet = ground (arith, h, last_by-snoc set_by ce.actions a)

pub is_quiet-running :
    (w : World) (ce : CheckEvent)
    → is_quiet ce ≡ true
    → is_quiet (commit_status w ce state_running) ≡ true
unfolding commit_status does is_quiet
is_quiet-running w ce h = elim (Bool-cases (w.is_status_set state_running)) [
  | inl works ↦ ground (arith, h, works, last_by-snoc set_by ce.actions (sets_status state_running))
  | inr fails ↦
      ground (arith, h, fails, last_by-snoc set_by ce.actions (fails_status state_running))
]

pub commit_status-IsSettled :
    (w : World) (ce : CheckEvent) (s : CommitState)
    → is_pending (last_set ce.actions) ≡ true
    → s ≢ state_running
    → IsSettled w (commit_status w ce s).actions
unfolding commit_status does
commit_status-IsSettled w ce s quiet final = elim (Bool-cases (w.is_status_set s)) [
  | inl works ↦ (
    s,
    ground (arith, works, last_by-snoc asked_by ce.actions (sets_status s)),
    final,
    rw works (ground (arith, works, last_by-snoc set_by ce.actions (sets_status s))),
  )
  | inr fails ↦ (
    s,
    ground (arith, fails, last_by-snoc asked_by ce.actions (fails_status s)),
    final,
    rw fails (ground (arith, fails, quiet, last_by-snoc set_by ce.actions (fails_status s))),
  )
]

commit_status-final :
    (w : World) (ce : CheckEvent) (s : CommitState)
    → (s == state_running) ≡ false
    → (commit_status w ce s).final_status_set ≡ true
unfolding commit_status does
commit_status-final w ce s final = ground arith

pub commit_status-IsSound :
    (w : World) (ce : CheckEvent) (s : CommitState)
    → is_quiet ce ≡ true
    → IsSound w (commit_status w ce s)
unfolding is_quiet
commit_status-IsSound w ce s h = elim (Bool-cases (s == state_running)) [
  | inl running ↦
      let same : s ≡ state_running = (==_iff s state_running).0 running in
      inl (subst (λ t. is_quiet (commit_status w ce t) ≡ true) (sym same) (is_quiet-running w ce h))
  | inr final ↦ inr (
    commit_status-final w ce s final,
    commit_status-IsSettled w ce s (ground arith) (λ e. ground arith),
  )
]
